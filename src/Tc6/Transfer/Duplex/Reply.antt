-- ===== src/Tc6/Transfer/Duplex/Reply.antt =====
-- A round of `oa_tc6_try_spi_transfer` with chunks to transfer, in both directions.
use base_t1s.Prelude.{
  ℕ, ◌+◌, ◌-◌, ◌*◌, ◌≤◌, ◌<◌, Bool, false, List, [], ◌∷◌, Option, some, none, ok, ◌≡◌, arith, ap,
  sym, subst, ◌∙◌, length, take, drop, overwrite, slice-overwrite, length-overwrite, Bool-cases,
  not, ◌&&◌, inl, inr,
}
use base_t1s.Tc6.State.{Tc6, Platform, spi_data_buf_size, max_tx_chunks, chunk_size}
use base_t1s.Tc6.Tx.Sink.{receive}
use base_t1s.Tc6.Tx.Stream.{sent_part}
use base_t1s.Tc6.Transfer.{is_set, again, wake_queue, process_reply}
use base_t1s.Tc6.Transfer.Kept.{received}
use base_t1s.Tc6.Transfer.Steps.{replied, process_reply-again, receive-take, footer-replied}
use base_t1s.Tc6.Rx.Chunks.{footer_of}
use base_t1s.Tc6.Rx.Source.{
  RxChunk, no_data, frame_start, frame_middle, frame_end, HoldsChunk, HoldsChunks, IsEmpty,
  reassemble, InOrder,
}
use base_t1s.Tc6.Rx.Tracks.{InPart, Tracks, Handed, tx_side}
use base_t1s.Tc6.Rx.Tracks.Chunk.{Reported}
use base_t1s.Tc6.Rx.Handover.{process_spi_data_rx_buf-Reassembles}
use base_t1s.Tc6.Transfer.Duplex.{DuplexDevice, allocator, CanExchange}

-- What has come of a frame depends on its socket buffer and the overflow only.
pub InPart-moved :
    {D : Type 0} (timed : Bool) (room : ℕ) (t t' : Tc6 D) (part : Option (List ℕ))
    → t'.rx_skb ≡ t.rx_skb
    → t'.rx_buf_overflow ≡ t.rx_buf_overflow
    → InPart timed room t part
    → InPart timed room t' part
InPart-moved timed room t t' none e o h = e ∙ h
InPart-moved timed room t t' (some s) e o (skb, here, over, b, h, r, l) =
    (skb, e ∙ here, o ∙ over, b, h, r, l)

wake_queue-stopped :
    {D : Type 0} (t : Tc6 D)
    → (b : Bool) × (wake_queue t ≡ record t { netdev = record t.netdev { queue_stopped = b } })
unfolding wake_queue
wake_queue-stopped t = elim (Bool-cases (not (is_set t.waiting_tx_skb) && t.netdev.queue_stopped)) [
  | inl e ↦ (false, ground arith)
  | inr e ↦ (t.netdev.queue_stopped, ground arith)
]

module _ {D : Type 0} (os : Platform D) where
  -- The chunks of a reply, in the buffer that it is written over.
  module _ (k : ℕ) (old r : List ℕ) (le : k ≤ max_tx_chunks) (b : length old ≡ spi_data_buf_size)
      (l : length r ≡ k * chunk_size) where
    slice-replied :
        (i n : ℕ)
        → i < k
        → n ≤ 64
        → take n (drop (i * 68) (overwrite old r)) ≡ take n (drop (i * 68) r)
    slice-replied i n lt small =
        slice-overwrite n (i * 68) (k * chunk_size) old r l (omega arith) (omega arith)

    footer-same : (i : ℕ) → i < k → footer_of i r ≡ footer_of i (overwrite old r)
    footer-same i lt = sym (footer-replied os k i old r lt le b l)

    HoldsChunk-replied :
        (i : ℕ) (c : RxChunk) → i < k → HoldsChunk r i c → HoldsChunk (overwrite old r) i c
    HoldsChunk-replied i no_data lt h = subst IsEmpty (footer-same i lt) h
    HoldsChunk-replied i (frame_start p) lt h =
        rw (sym (footer-same i lt), slice-replied i 64 lt (omega arith)) h
    HoldsChunk-replied i (frame_middle p) lt h =
        rw (sym (footer-same i lt), slice-replied i 64 lt (omega arith)) h
    HoldsChunk-replied i (frame_end p) lt h =
        rw (sym (footer-same i lt), slice-replied i (length p) lt (omega arith)) h

    HoldsChunks-replied :
        (i : ℕ) (cs : List RxChunk)
        → i + length cs ≤ k
        → HoldsChunks r i cs
        → HoldsChunks (overwrite old r) i cs
    HoldsChunks-replied i [] fit h = tt
    HoldsChunks-replied i (c ∷ cs) fit (h, hs) =
        (HoldsChunk-replied i c (omega arith) h, HoldsChunks-replied (i + 1) cs (omega arith) hs)

module _ {D : Type 0} {os : Platform D} (c : DuplexDevice os) (timed : Bool) (mtu : ℕ) where
  -- What a round with `k` chunks does, from the state `t1` that its preparation leaves.
  module _ (k : ℕ) (t t1 : Tc6 D) (part : Option (List ℕ)) (g : CanExchange c timed mtu t part)
      (same : received t1 ≡ received t) where
    pub from_part :
        receive k 0 (c.part t1.dev) (take (k * chunk_size) t1.spi_data_tx_buf)
        ≡ receive k 0 (sent_part t) t1.spi_data_tx_buf
    from_part =
        receive-take os k (c.part t1.dev) t1.spi_data_tx_buf
        ∙ ap (λ d. receive k 0 (c.part d) t1.spi_data_tx_buf) (ap (λ x. x.0) same)
        ∙ ap (λ acc. receive k 0 acc t1.spi_data_tx_buf) g.in_part

    -- The receive path is where it was before the round.
    replied-Tracks :
        (r : List ℕ) (d : D)
        → c.IsReady d
        → Tracks (allocator c timed mtu) timed mtu (replied os t1 r d) part
    replied-Tracks r d ready = record {
      buffer = length-overwrite t1.spi_data_rx_buf r ∙ ap (λ x. length x.1) same ∙ g.tracks.buffer;
      filter = ap (λ x. x.7) same ∙ g.tracks.filter;
      mtu_set = ap (λ x. x.8) same ∙ g.tracks.mtu_set;
      ready = ready;
      in_part =
          InPart-moved timed (mtu + 18) t (replied os t1 r d) part (ap (λ x. x.3) same)
            (ap (λ x. x.4) same) g.tracks.in_part;
    }

    -- The reply is read to its end, and the loop goes on.
    pub reply_read :
        (r : List ℕ) (d : D) (cs : List RxChunk)
        → 1 ≤ k
        → k ≤ max_tx_chunks
        → c.IsReady d
        → length r ≡ k * chunk_size
        → length cs ≡ k
        → HoldsChunks r 0 cs
        → InOrder (mtu + 18) part cs
        → (t3 : Tc6 D) × (b : Bool) × (process_reply os (k * chunk_size) (replied os t1 r d)
            ≡ (ok again, record t3 { netdev = record t3.netdev { queue_stopped = b } }))
          × Tracks (allocator c timed mtu) timed mtu t3 (reassemble part cs).1
          × Handed (allocator c timed mtu) timed mtu (replied os t1 r d) (reassemble part cs).0 t3
          × (tx_side (allocator c timed mtu) timed mtu t3
              ≡ tx_side (allocator c timed mtu) timed mtu (replied os t1 r d))
          × Reported (allocator c timed mtu) timed mtu (footer_of (k - 1) r) t3
    reply_read r d cs l u ready rl count holds order =
        let t2 = replied os t1 r d in
        let rx_long : length t1.spi_data_rx_buf ≡ spi_data_buf_size =
          ap (λ x. length x.1) same ∙ g.tracks.buffer in
        let (t3, eq, (g3, h3, k3, r3)) =
          process_spi_data_rx_buf-Reassembles (allocator c timed mtu) timed mtu k t2 part cs
            (replied-Tracks r d ready) count (l, u) order
            (HoldsChunks-replied os k t1.spi_data_rx_buf r u rx_long rl 0 cs (omega arith) holds) in
        let (b, woken) = wake_queue-stopped t3 in
        (
          t3,
          b,
          process_reply-again os (k * chunk_size) t2 t3 eq ∙ ap (λ x. (ok again, x)) woken,
          g3,
          h3,
          k3,
          subst (λ f. Reported (allocator c timed mtu) timed mtu f t3)
              (footer-replied os k (k - 1) t1.spi_data_rx_buf r (omega arith) u rx_long rl) r3,
        )
