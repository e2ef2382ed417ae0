-- ===== src/Tc6/Rx/Tracks/Chunk.antt =====
-- `oa_tc6_process_spi_data_rx_buf` on one chunk, beside a receiver that only collects bytes.
use base_t1s.Prelude.{
  ℕ, ◌+◌, ◌-◌, ◌*◌, ◌≤◌, ◌<◌, Bool, List, [], ◌∷◌, ◌++◌, Option, some, none, ok, ◌≡◌, refl, arith,
  ap, sym, ◌∙◌, length, take, drop, take-drop-take, length-append, ap₂,
}
use base_t1s.Word.{field_get}
use base_t1s.Tc6.State.{Tc6, Skb, Platform, max_tx_chunks, spi_data_buf_size}
use base_t1s.Tc6.Rx.{process_rx_chunk_footer, footer_errors, payload_if_valid, process_rx_chunk}
use base_t1s.Tc6.Rx.Frames.{slice, stamp_at, delivered}
use base_t1s.Tc6.Rx.Chunks.{footer_of, counted, footer-read}
use base_t1s.Tc6.Rx.Pieces.{after, first_chunk, middle_chunk, last_chunk, drop-front}
use base_t1s.Tc6.Rx.Source.Bytes.{stamp-slice, stamp-append, slice-start, frame-end}
use base_t1s.Tc6.Rx.Source.{
  RxChunk, no_data, frame_start, frame_middle, frame_end, IsEmpty, HoldsChunk, put_chunk, Fits,
}
use base_t1s.Tc6.Rx.Tracks.{RxAllocator, Tracks, Handed, Handed-none, tx_side}

module _ {D X : Type 0} {os : Platform D} (a : RxAllocator os X) (timed : Bool) (mtu : ℕ) where
  -- The counts of a footer.
  abbrev pub Reported : ℕ → Tc6 D → Type 0
  Reported f t = (t.tx_credits ≡ field_get 5 1 f) × (t.rx_chunks_available ≡ field_get 28 24 f)

  -- What the driver has done with a chunk.
  abbrev pub Processed : ℕ → Option (List ℕ) → RxChunk → Tc6 D → Type 0
  Processed i part c t =
      (t' : Tc6 D) × (process_rx_chunk os i t ≡ (ok tt, t'))
      × Tracks a timed mtu t' (put_chunk part c).1
      × Handed a timed mtu t (put_chunk part c).0 t'
      × (tx_side a timed mtu t' ≡ tx_side a timed mtu t)
      × Reported (footer_of i t.spi_data_rx_buf) t'

  pub chunk-empty :
      (i : ℕ) (t : Tc6 D)
      → IsEmpty (footer_of i t.spi_data_rx_buf)
      → i < max_tx_chunks
      → length t.spi_data_rx_buf ≡ spi_data_buf_size
      → process_rx_chunk os i t ≡ (ok tt, counted os (footer_of i t.spi_data_rx_buf) t)
  unfolding process_rx_chunk process_rx_chunk_footer footer_errors payload_if_valid
  chunk-empty i t e h b =
      rw (footer-read os i t h b)
        (ground (arith, e.no_status, e.good_header, e.in_step, e.no_payload))

  put_no_data :
      (i : ℕ) (t : Tc6 D) (part : Option (List ℕ))
      → Tracks a timed mtu t part
      → i < max_tx_chunks
      → HoldsChunk t.spi_data_rx_buf i no_data
      → Processed i part no_data t
  put_no_data i t none g lt h = (
    counted os (footer_of i t.spi_data_rx_buf) t,
    chunk-empty i t h lt g.buffer,
    record {
      buffer = g.buffer;
      filter = g.filter;
      mtu_set = g.mtu_set;
      ready = g.ready;
      in_part = g.in_part;
    },
    Handed-none a timed mtu t (counted os (footer_of i t.spi_data_rx_buf) t) refl refl,
    refl,
    (refl, refl),
  )
  put_no_data i t (some s) g lt h = (
    counted os (footer_of i t.spi_data_rx_buf) t,
    chunk-empty i t h lt g.buffer,
    record {
      buffer = g.buffer;
      filter = g.filter;
      mtu_set = g.mtu_set;
      ready = g.ready;
      in_part = g.in_part;
    },
    Handed-none a timed mtu t (counted os (footer_of i t.spi_data_rx_buf) t) refl refl,
    refl,
    (refl, refl),
  )

  put_start :
      (i : ℕ) (t : Tc6 D) (p : List ℕ)
      → Tracks a timed mtu t none
      → i < max_tx_chunks
      → 56 ≤ mtu + 18
      → HoldsChunk t.spi_data_rx_buf i (frame_start p)
      → Processed i none (frame_start p) t
  put_start i t p g lt fits (f, long, bytes) =
      let (n, dev, alloc, room, ready, same) = a.alloc t.dev (t.netdev.mtu + 14 + 4) g.ready in
      let skb : Skb = record {
        bytes = slice t.spi_data_rx_buf (i * 68 + 8) 56;
        tailroom = n - 56;
        hwtstamp = stamp_at timed t.spi_data_rx_buf (i * 68);
      } in
      let t' : Tc6 D = record (after os i t) { dev = dev; rx_skb = some skb } in
      (
        t',
        first_chunk os i timed t dev n f lt g.buffer alloc g.filter (omega (arith, g.mtu_set)),
        record {
          buffer = g.buffer;
          filter = g.filter;
          mtu_set = g.mtu_set;
          ready = ready;
          in_part = (
            skb,
            refl,
            refl,
            slice-start t.spi_data_rx_buf p (i * 68) bytes,
            stamp-slice timed t.spi_data_rx_buf p (i * 68) bytes,
            omega (arith, g.mtu_set),
            omega arith,
          );
        },
        Handed-none a timed mtu t t' refl refl,
        ap
            (λ x. (
              t.spi_data_rx_buf, t.spi_data_tx_buf, t.ongoing_tx_skb, t.waiting_tx_skb,
              t.tx_skb_offset, t.int_flag, x,
            ))
            same,
        (refl, refl),
      )

  put_middle :
      (i : ℕ) (t : Tc6 D) (s p : List ℕ)
      → Tracks a timed mtu t (some s)
      → i < max_tx_chunks
      → length s + 64 ≤ mtu + 18 + 8
      → HoldsChunk t.spi_data_rx_buf i (frame_middle p)
      → Processed i (some s) (frame_middle p) t
  put_middle i t s p g lt fits (f, long, bytes) =
      let (skb, here, o, so_far, stamp, room, some_chunk) = g.in_part in
      let skb' : Skb = record skb {
        bytes = skb.bytes ++ slice t.spi_data_rx_buf (i * 68) 64;
        tailroom = skb.tailroom - 64;
      } in
      let t' : Tc6 D = record (after os i t) { rx_skb = some skb' } in
      (
        t',
        middle_chunk os i t skb f lt g.buffer o here (omega arith),
        record {
          buffer = g.buffer;
          filter = g.filter;
          mtu_set = g.mtu_set;
          ready = g.ready;
          in_part = (
            skb',
            refl,
            refl,
            ap₂ ◌++◌ so_far bytes ∙ sym (drop-front 8 s p (omega arith)),
            stamp ∙ sym (stamp-append timed s p (omega arith)),
            omega (arith, length-append s p),
            omega (arith, length-append s p),
          );
        },
        Handed-none a timed mtu t t' refl refl,
        refl,
        (refl, refl),
      )

  put_end :
      (i : ℕ) (t : Tc6 D) (s p : List ℕ)
      → Tracks a timed mtu t (some s)
      → i < max_tx_chunks
      → (4 ≤ length p) × (length s + length p ≤ mtu + 18 + 12)
      → HoldsChunk t.spi_data_rx_buf i (frame_end p)
      → Processed i (some s) (frame_end p) t
  put_end i t s p g lt (lo, fits) (f, (some_byte, hi), bytes) =
      let (skb, here, o, so_far, stamp, room, some_chunk) = g.in_part in
      let e = length p - 1 in
      let skb' : Skb = record skb {
        bytes = skb.bytes ++ slice t.spi_data_rx_buf (i * 68) (e + 1 - 4);
        tailroom = skb.tailroom - (e + 1 - 4);
      } in
      let last : slice t.spi_data_rx_buf (i * 68) (e + 1 - 4) ≡ take (e + 1 - 4) p =
        sym
          (take-drop-take (e + 1 - 4) 0 (length p) (drop (i * 68) t.spi_data_rx_buf) (omega arith))
        ∙ ap (take (e + 1 - 4)) bytes in
      let t' : Tc6 D = delivered os (after os i t) t.dev skb' in
      (
        t',
        last_chunk os i e t skb f lt (omega arith, omega arith) g.buffer o here (omega arith),
        record {
          buffer = g.buffer;
          filter = g.filter;
          mtu_set = g.mtu_set;
          ready = g.ready;
          in_part = refl;
        },
        record {
          skbs = skb' ∷ [];
          passed = refl;
          whole =
              ap (λ x. x ∷ [])
                (ap₂ (λ x y. (x, y))
                  (ap₂ ◌++◌ so_far last ∙ frame-end s p (e + 1 - 4) (omega arith) (omega arith))
                  (stamp ∙ sym (stamp-append timed s p (omega arith))));
          packets = refl;
        },
        refl,
        (refl, refl),
      )

  -- A chunk that fits what has come so far.
  pub put :
      (i : ℕ) (t : Tc6 D) (part : Option (List ℕ)) (c : RxChunk)
      → Tracks a timed mtu t part
      → i < max_tx_chunks
      → Fits (mtu + 18) part c
      → HoldsChunk t.spi_data_rx_buf i c
      → Processed i part c t
  put i t part no_data g lt fits h = put_no_data i t part g lt h
  put i t none (frame_start p) g lt fits h = put_start i t p g lt fits h
  put i t (some s) (frame_start p) g lt fits h = absurd fits
  put i t none (frame_middle p) g lt fits h = absurd fits
  put i t (some s) (frame_middle p) g lt fits h = put_middle i t s p g lt fits h
  put i t none (frame_end p) g lt fits h = absurd fits
  put i t (some s) (frame_end p) g lt fits h = put_end i t s p g lt fits h
