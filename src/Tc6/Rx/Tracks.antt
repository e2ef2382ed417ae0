-- ===== src/Tc6/Rx/Tracks.antt =====
-- The state of the receive path beside a receiver that only collects bytes, and what the network
-- stack is handed.
pub mod Chunk
use base_t1s.Prelude.{
  ℕ, zero, suc, ◌+◌, ◌-◌, ◌*◌, ◌/◌, ◌≤◌, ◌<◌, Bool, false, true, List, [], ◌∷◌, ◌++◌, map, Option,
  some, none, ok, continue, if◌then◌else◌, ◌≡◌, refl, arith, ap, sym, subst, ◌∙◌, length, take,
  drop, take-drop-take, append_assoc, append-nil, map-append, length-append, ap₂,
}
use base_t1s.Word.{field_get}
use base_t1s.Tc6.State.{
  Tc6, Skb, Platform, filter_all, filter_none, max_tx_chunks, spi_data_buf_size,
}
use base_t1s.Tc6.Rx.{
  process_rx_chunk_footer, footer_errors, payload_if_valid, process_rx_chunk, rx_loop,
}
use base_t1s.Tc6.Rx.Frames.{slice, stamp_at, delivered}
use base_t1s.Tc6.Rx.Chunks.{footer_of, counted, footer-read}
use base_t1s.Tc6.Rx.Pieces.{after, first_chunk, middle_chunk, last_chunk, drop-front}
use base_t1s.Tc6.Rx.Source.Bytes.{stamp-slice, stamp-append, slice-start, frame-end}
use base_t1s.Tc6.Rx.Source.{
  RxChunk, no_data, frame_start, frame_middle, frame_end, IsEmpty, HoldsChunk, put_chunk, Fits,
  frame_in,
}

-- A network stack that always has a buffer, of at least the size that was asked for. What is
-- `seen` of the rest of the platform is left alone.
pub record RxAllocator {D : Type 0} (os : Platform D) (X : Type 0) : Type 1 where
  pub IsReady : D → Type 0
  pub seen : D → X
  pub alloc :
      (d : D) (n : ℕ)
      → IsReady d
      → (room : ℕ) × (d' : D) × (os.alloc_skb d n ≡ (some room, d'))
        × (n ≤ room)
        × IsReady d'
        × (seen d' ≡ seen d)

-- What has come of a frame, and the socket buffer it is put into.
abbrev pub InPart : {D : Type 0} → Bool → ℕ → Tc6 D → Option (List ℕ) → Type 0
InPart timed room t none = t.rx_skb ≡ none
InPart timed room t (some s) =
    (skb : Skb) × (t.rx_skb ≡ some skb)
    × (t.rx_buf_overflow ≡ false)
    × (skb.bytes ≡ drop 8 s)
    × (skb.hwtstamp ≡ stamp_at timed s 0)
    × (room + 8 ≤ skb.tailroom + length s)
    × (64 ≤ length s)

module _ {D X : Type 0} {os : Platform D} (a : RxAllocator os X) (timed : Bool) (mtu : ℕ) where
  pub record Tracks (t : Tc6 D) (part : Option (List ℕ)) : Type 0 where
    pub buffer : length t.spi_data_rx_buf ≡ spi_data_buf_size
    pub filter : t.netdev.rx_filter ≡ (if timed then filter_all else filter_none)
    pub mtu_set : t.netdev.mtu ≡ mtu
    pub ready : a.IsReady t.dev
    pub in_part : InPart timed (mtu + 18) t part

  -- What the receive path leaves alone.
  abbrev pub tx_side : Tc6 D → List ℕ × List ℕ × Option Skb × Option Skb × ℕ × Bool × X
  tx_side t = (
    t.spi_data_rx_buf,
    t.spi_data_tx_buf,
    t.ongoing_tx_skb,
    t.waiting_tx_skb,
    t.tx_skb_offset,
    t.int_flag,
    a.seen t.dev,
  )

  -- Between `t` and `t'` the network stack was handed the frames in the given bytes, and no
  -- other.
  pub record Handed (t : Tc6 D) (fs : List (List ℕ)) (t' : Tc6 D) : Type 0 where
    pub skbs : List Skb
    pub passed : t'.netdev.received ≡ t.netdev.received ++ map os.eth_type_trans skbs
    pub whole : map (λ k. (k.bytes, k.hwtstamp)) skbs ≡ map (frame_in timed) fs
    pub packets : t'.netdev.rx_packets ≡ t.netdev.rx_packets + length fs

  pub Handed-none :
      (t t' : Tc6 D)
      → t'.netdev.received ≡ t.netdev.received
      → t'.netdev.rx_packets ≡ t.netdev.rx_packets
      → Handed t [] t'
  Handed-none t t' e p = record {
    skbs = [];
    passed = e ∙ sym (append-nil t.netdev.received);
    whole = refl;
    packets = omega arith;
  }

  pub Handed-append :
      (t t' t'' : Tc6 D) (fs gs : List (List ℕ))
      → Handed t fs t'
      → Handed t' gs t''
      → Handed t (fs ++ gs) t''
  Handed-append t t' t'' fs gs h k = record {
    skbs = h.skbs ++ k.skbs;
    passed =
        k.passed
        ∙ ap (λ r. r ++ map os.eth_type_trans k.skbs) h.passed
        ∙ append_assoc t.netdev.received (map os.eth_type_trans h.skbs)
            (map os.eth_type_trans k.skbs)
        ∙ ap (λ r. t.netdev.received ++ r) (sym (map-append os.eth_type_trans h.skbs k.skbs));
    whole =
        map-append (λ x. (x.bytes, x.hwtstamp)) h.skbs k.skbs
        ∙ ap (λ r. r ++ map (λ x. (x.bytes, x.hwtstamp)) k.skbs) h.whole
        ∙ ap (λ r. map (frame_in timed) fs ++ r) k.whole
        ∙ sym (map-append (frame_in timed) fs gs);
    packets = omega (arith, h.packets, k.packets, length-append fs gs);
  }
