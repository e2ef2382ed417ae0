-- ===== src/Tc6/Rx/Recovery.antt =====
-- The receive path after a receive buffer overflow: what is left of the lost frame is skipped,
-- and the frames behind it are received.
use base_t1s.Prelude.{
  ℕ, suc, ◌+◌, ◌*◌, ◌≤◌, ◌<◌, Bool, true, List, [], ◌∷◌, ◌++◌, Option, none, ok, ◌≡◌, refl, arith,
  ap, ◌∙◌, length, map,
}
use base_t1s.Word.{bit_get}
use base_t1s.Tc6.State.{Tc6, Platform, max_tx_chunks, chunk_size, spi_data_buf_size}
use base_t1s.Tc6.Rx.{
  prcs_rx_chunk_payload, process_rx_chunk, rx_loop, process_spi_data_rx_buf, status0_outcome,
  cleanup_ongoing_rx_skb,
}
use base_t1s.Tc6.Rx.Chunks.{footer_of, HasData, counted, chunk-payload, rx_loop-suc, rx_loop-zero}
use base_t1s.Tc6.Rx.Source.{
  RxChunk, no_data, frame_start, frame_middle, frame_end, reassemble, HoldsChunk, HoldsChunks,
  InOrder,
}
use base_t1s.Tc6.Rx.Tracks.{RxAllocator, Tracks, Handed, Handed-none, Handed-append, tx_side}
use base_t1s.Tc6.Rx.Tracks.Chunk.{chunk-empty}
use base_t1s.Tc6.Rx.Handover.{loop_chunks}

-- No chunk of the lost frame starts a frame.
abbrev pub AreRemnants : List RxChunk → Type 0
AreRemnants [] = Unit {0}
AreRemnants (no_data ∷ cs) = AreRemnants cs
AreRemnants (frame_start p ∷ cs) = ⊥
AreRemnants (frame_middle p ∷ cs) = AreRemnants cs
AreRemnants (frame_end p ∷ cs) = AreRemnants cs

module _ {D : Type 0} (os : Platform D) where
  payload-skipped :
      (p f : ℕ) (t : Tc6 D)
      → bit_get 20 f ≡ 0
      → t.rx_buf_overflow ≡ true
      → prcs_rx_chunk_payload os p f t ≡ (ok tt, t)
  unfolding prcs_rx_chunk_payload
  payload-skipped p f t s o = ground arith

  chunk-skipped :
      (i : ℕ) (t : Tc6 D)
      → HasData (footer_of i t.spi_data_rx_buf)
      → bit_get 20 (footer_of i t.spi_data_rx_buf) ≡ 0
      → t.rx_buf_overflow ≡ true
      → i < max_tx_chunks
      → length t.spi_data_rx_buf ≡ spi_data_buf_size
      → process_rx_chunk os i t ≡ (ok tt, counted os (footer_of i t.spi_data_rx_buf) t)
  chunk-skipped i t d s o lt b =
      chunk-payload os i t lt b d
      ∙ payload-skipped (i * 68) (footer_of i t.spi_data_rx_buf)
          (counted os (footer_of i t.spi_data_rx_buf) t) s o

  -- The state after an overflow.
  overflow_noted :
      (value : ℕ) (t : Tc6 D)
      → bit_get 3 value ≡ 1
      → ((status0_outcome value t).1.rx_skb ≡ none)
        × ((status0_outcome value t).1.rx_buf_overflow ≡ true)
        × ((status0_outcome value t).1.netdev.received ≡ t.netdev.received)
        × ((status0_outcome value t).1.netdev.rx_packets ≡ t.netdev.rx_packets)
        × ((status0_outcome value t).1.netdev.rx_filter ≡ t.netdev.rx_filter)
        × ((status0_outcome value t).1.netdev.mtu ≡ t.netdev.mtu)
  unfolding status0_outcome cleanup_ongoing_rx_skb
  overflow_noted value t e = ground arith

module _ {D X : Type 0} {os : Platform D} (a : RxAllocator os X) (timed : Bool) (mtu : ℕ) where
  -- What the driver has done with the chunks behind the remnants.
  abbrev Recovered : List RxChunk → Tc6 D → Tc6 D → Type 0
  Recovered cs t t' =
      Tracks a timed mtu t' (reassemble none cs).1
      × Handed a timed mtu t (reassemble none cs).0 t'
      × (tx_side a timed mtu t' ≡ tx_side a timed mtu t)

  -- One chunk of the lost frame.
  skip_one :
      (d : RxChunk) (ds : List RxChunk) (i : ℕ) (t : Tc6 D)
      → Tracks a timed mtu t none
      → t.rx_buf_overflow ≡ true
      → i < max_tx_chunks
      → AreRemnants (d ∷ ds)
      → HoldsChunk t.spi_data_rx_buf i d
      → AreRemnants ds
        × (process_rx_chunk os i t ≡ (ok tt, counted os (footer_of i t.spi_data_rx_buf) t))
  skip_one no_data ds i t g o lt r h = (r, chunk-empty a timed mtu i t h lt g.buffer)
  skip_one (frame_start p) ds i t g o lt r h = absurd r
  skip_one (frame_middle p) ds i t g o lt r (f, long, bytes) =
      (r, chunk-skipped os i t f.0 f.1 o lt g.buffer)
  skip_one (frame_end p) ds i t g o lt r (f, long, bytes) =
      (r, chunk-skipped os i t f.0 f.1 o lt g.buffer)

  skip_loop :
      (ds cs : List RxChunk) (i : ℕ) (t : Tc6 D)
      → Tracks a timed mtu t none
      → t.rx_buf_overflow ≡ true
      → i + (length ds + length cs) ≤ max_tx_chunks
      → AreRemnants ds
      → InOrder (mtu + 18) none cs
      → HoldsChunks t.spi_data_rx_buf i (ds ++ cs)
      → (t' : Tc6 D) × (rx_loop os (length ds + length cs) i t ≡ (ok tt, t')) × Recovered cs t t'
  skip_loop [] [] i t g o le r order h =
      (t, rx_loop-zero os i t, (g, Handed-none a timed mtu t t refl refl, refl))
  skip_loop [] (c ∷ cs) i t g o le r order h =
      let (t', eq, (g', h', k', r')) =
        loop_chunks a timed mtu c cs i t none g (omega arith) order h in
      (t', ap (λ n. rx_loop os n i t) {y = suc (length cs)} (omega arith) ∙ eq, (g', h', k'))
  skip_loop (d ∷ ds) cs i t g o le r order (h, hs) =
      let f = footer_of i t.spi_data_rx_buf in
      let (r', one) = skip_one d ds i t g o (omega arith) r h in
      let t1 = counted os f t in
      let g1 : Tracks a timed mtu t1 none = record {
        buffer = g.buffer;
        filter = g.filter;
        mtu_set = g.mtu_set;
        ready = g.ready;
        in_part = g.in_part;
      } in
      let (t', eq, (g', h', k')) = skip_loop ds cs (i + 1) t1 g1 o (omega arith) r' order hs in
      (
        t',
        ap (λ n. rx_loop os n i t) {y = suc (length ds + length cs)} (omega arith)
            ∙ rx_loop-suc os (length ds + length cs) i t t1 one
            ∙ eq,
        (
          g',
          Handed-append a timed mtu t t1 t' [] (reassemble none cs).0
              (Handed-none a timed mtu t t1 refl refl) h',
          k',
        ),
      )

  -- An overflow that STATUS0 reports drops the frame under way, whatever has come of it. If the
  -- next reply, in a buffer of the allocated size, consists of chunks of the lost frame, none of
  -- which starts a frame, and behind them of chunks of frames in order, each frame in two chunks or
  -- more, of which the first fits the buffer and the last has at least 4 bytes (fewer would spoil
  -- it), and of at most `mtu + 18` bytes without its check sequence, and if every receive buffer
  -- that is asked for is given with its room and the filter stamps all frames or none, then
  -- processing it succeeds, the network stack is handed exactly the frames that the chunks in order
  -- complete, as a receiver that begins with these puts them together, and the receive path goes on
  -- from what has come of the next frame. The transmit path is left alone.
  pub process_spi_data_rx_buf-Recovers :
      (value k : ℕ) (t : Tc6 D) (part : Option (List ℕ)) (b : List ℕ) (d : D) (ds cs : List RxChunk)
      → bit_get 3 value ≡ 1
      → Tracks a timed mtu t part
      → a.IsReady d
      → length b ≡ spi_data_buf_size
      → length ds + length cs ≡ k
      → k ≤ max_tx_chunks
      → AreRemnants ds
      → InOrder (mtu + 18) none cs
      → HoldsChunks b 0 (ds ++ cs)
      → let next = record (status0_outcome value t).1 { dev = d; spi_data_rx_buf = b } in
        (t' : Tc6 D) × (process_spi_data_rx_buf os (k * chunk_size) next ≡ (ok tt, t'))
        × Handed a timed mtu t (reassemble none cs).0 t'
        × Tracks a timed mtu t' (reassemble none cs).1
        × (tx_side a timed mtu t' ≡ tx_side a timed mtu next)
  unfolding process_spi_data_rx_buf
  process_spi_data_rx_buf-Recovers value k t part b d ds cs e g ready long count le r order h =
      let (none_under_way, o, got, packets, filter, mtu_kept) = overflow_noted os value t e in
      let next : Tc6 D = record (status0_outcome value t).1 { dev = d; spi_data_rx_buf = b } in
      let g1 : Tracks a timed mtu next none = record {
        buffer = long;
        filter = filter ∙ g.filter;
        mtu_set = mtu_kept ∙ g.mtu_set;
        ready = ready;
        in_part = none_under_way;
      } in
      let (t', eq, (g', h', k')) = skip_loop ds cs 0 next g1 o (omega arith) r order h in
      (
        t',
        ap (λ n. rx_loop os n 0 next) {y = length ds + length cs} (omega arith) ∙ eq,
        record {
          skbs = h'.skbs;
          passed = h'.passed ∙ ap (λ x. x ++ map os.eth_type_trans h'.skbs) got;
          whole = h'.whole;
          packets = omega (arith, h'.packets, packets);
        },
        g',
        k',
      )
