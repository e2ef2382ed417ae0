-- ===== src/Tc6/Rx/Delivery.antt =====
-- `oa_tc6_process_spi_data_rx_buf` on the chunks of a frame, from the first to the last.
use base_t1s.Prelude.{
  ℕ, zero, suc, ◌+◌, ◌-◌, ◌*◌, ◌/◌, ◌≤◌, ◌<◌, Bool, false, List, [], ◌∷◌, ◌++◌, Option, some, none,
  ok, if◌then◌else◌, ◌≡◌, refl, arith, ap, sym, subst, ◌∙◌, length, take, drop, take-drop-take,
  length-append,
}
use base_t1s.Tc6.State.{
  Tc6, Skb, Platform, filter_all, filter_none, max_tx_chunks, spi_data_buf_size, chunk_size,
}
use base_t1s.Tc6.Rx.{rx_loop, process_spi_data_rx_buf}
use base_t1s.Tc6.Rx.Frames.{slice, stamp_at, delivered}
use base_t1s.Tc6.Rx.Chunks.{footer_of, IsStart, IsMiddle, IsEnd, rx_loop-suc, rx_loop-zero}
use base_t1s.Tc6.Rx.Pieces.{after, first_chunk, middle_chunk, last_chunk, take-drop, join, cut_out}

-- A receive buffer that carries `stream` in its chunks 0 to `m`, the last of which ends at byte `e`.
pub record Carries (b stream : List ℕ) (m e : ℕ) : Type 0 where
  pub first : IsStart (footer_of 0 b)
  pub middle : (j : ℕ) → 1 ≤ j → j < m → IsMiddle (footer_of j b)
  pub last : IsEnd e (footer_of m b)
  pub payload : (j : ℕ) → j < m → take 64 (drop (j * 68) b) ≡ take 64 (drop (j * 64) stream)
  pub tail : take (e + 1) (drop (m * 68) b) ≡ take (e + 1) (drop (m * 64) stream)
  pub size : length stream ≡ m * 64 + e + 1

module _ {D : Type 0} (os : Platform D) where
  -- A frame with the given bytes and time stamp has been handed over between `t` and `t'`.
  abbrev pub HandsOver : Tc6 D → List ℕ → Option ℕ → Tc6 D → Type 0
  HandsOver t bytes stamp t' =
      (skb : Skb) × (skb.bytes ≡ bytes)
      × (skb.hwtstamp ≡ stamp)
      × (t'.netdev.received ≡ t.netdev.received ++ os.eth_type_trans skb ∷ [])
      × (t'.netdev.rx_packets ≡ t.netdev.rx_packets + 1)
      × (t'.rx_skb ≡ none)

  module _ (b stream : List ℕ) (m e : ℕ) (carries : Carries b stream m e)
      (long : length b ≡ spi_data_buf_size) (few : m < max_tx_chunks) (lo : 3 ≤ e)
      (hi : e < 64) where
    last-bytes :
        1 ≤ m
        → drop 8 (take (m * 64) stream) ++ take (e + 1 - 4) (drop (m * 68) b)
          ≡ drop 8 (take (m * 64 + (e - 3)) stream)
    last-bytes some_chunk =
        let cut : e + 1 - 4 ≡ e - 3 = omega arith in
        ap (λ k. drop 8 (take (m * 64) stream) ++ take k (drop (m * 68) b)) cut
        ∙ ap (λ x. drop 8 (take (m * 64) stream) ++ x)
            (sym (take-drop-take (e - 3) 0 (e + 1) (drop (m * 68) b) (omega arith))
              ∙ ap (take (e - 3)) carries.tail
              ∙ take-drop-take (e - 3) 0 (e + 1) (drop (m * 64) stream) (omega arith))
        ∙ join (m * 64) (e - 3) stream (omega arith) (omega (arith, carries.size))

    -- The chunks from `i` on, with `n` more in front of the last.
    rest_chunks :
        (n i : ℕ) (t : Tc6 D) (skb : Skb)
        → i + n ≡ m
        → 1 ≤ i
        → t.spi_data_rx_buf ≡ b
        → t.rx_buf_overflow ≡ false
        → t.rx_skb ≡ some skb
        → skb.bytes ≡ drop 8 (take (i * 64) stream)
        → n * 64 + (e - 3) ≤ skb.tailroom
        → (t' : Tc6 D) × (rx_loop os (suc n) i t ≡ (ok tt, t'))
          × HandsOver t (drop 8 (take (m * 64 + (e - 3)) stream)) skb.hwtstamp t'
    rest_chunks zero i t skb at some_chunk same o s bytes room =
        let im : i ≡ m = omega arith in
        let ends : IsEnd e (footer_of i t.spi_data_rx_buf) =
          subst (λ x. IsEnd e (footer_of i x)) (sym same)
            (subst (λ j. IsEnd e (footer_of j b)) (sym im) carries.last) in
        let skb1 : Skb = record skb {
          bytes = skb.bytes ++ slice t.spi_data_rx_buf (i * 68) (e + 1 - 4);
          tailroom = skb.tailroom - (e + 1 - 4);
        } in
        let t1 = delivered os (after os i t) t.dev skb1 in
        (
          t1,
          rx_loop-suc os 0 i t t1 (
                last_chunk os i e t skb ends (omega arith) (lo, hi) (ap length same ∙ long) o s
                  (omega arith))
              ∙ rx_loop-zero os (i + 1) t1,
          (
            skb1,
            ap (λ x. x ++ slice t.spi_data_rx_buf (i * 68) (e + 1 - 4)) bytes
                ∙ ap (λ x. drop 8 (take (i * 64) stream) ++ slice x (i * 68) (e + 1 - 4)) same
                ∙ ap (λ j. drop 8 (take (j * 64) stream) ++ slice b (j * 68) (e + 1 - 4)) im
                ∙ last-bytes (omega arith),
            refl,
            refl,
            refl,
            refl,
          ),
        )
    rest_chunks (suc n) i t skb at some_chunk same o s bytes room =
        let goes_on : IsMiddle (footer_of i t.spi_data_rx_buf) =
          subst (λ x. IsMiddle (footer_of i x)) (sym same)
            (carries.middle i some_chunk (omega arith)) in
        let skb1 : Skb = record skb {
          bytes = skb.bytes ++ slice t.spi_data_rx_buf (i * 68) 64;
          tailroom = skb.tailroom - 64;
        } in
        let t1 : Tc6 D = record (after os i t) { rx_skb = some skb1 } in
        let bytes1 : skb1.bytes ≡ drop 8 (take ((i + 1) * 64) stream) =
          ap (λ x. x ++ slice t.spi_data_rx_buf (i * 68) 64) bytes
          ∙ ap (λ x. drop 8 (take (i * 64) stream) ++ slice x (i * 68) 64) same
          ∙ ap (λ x. drop 8 (take (i * 64) stream) ++ x) (carries.payload i (omega arith))
          ∙ join (i * 64) 64 stream (omega arith) (omega (arith, carries.size))
          ∙ ap (λ k. drop 8 (take k stream)) (omega arith) in
        let (t', eq, h) =
          rest_chunks n (i + 1) t1 skb1 (omega arith) (omega arith) same refl refl bytes1
            (omega arith) in
        (
          t',
          rx_loop-suc os (suc n) i t t1 (
                middle_chunk os i t skb goes_on (omega arith) (ap length same ∙ long) o s
                  (omega arith))
              ∙ eq,
          h,
        )

    -- The whole frame.
    frame_chunks :
        (timed : Bool) (t : Tc6 D) (dev : D) (n : ℕ)
        → 1 ≤ m
        → t.spi_data_rx_buf ≡ b
        → os.alloc_skb t.dev (t.netdev.mtu + 14 + 4) ≡ (some n, dev)
        → t.netdev.rx_filter ≡ (if timed then filter_all else filter_none)
        → m * 64 + (e - 3) ≤ n + 8
        → (t' : Tc6 D) × (rx_loop os (suc m) 0 t ≡ (ok tt, t'))
          × HandsOver t (drop 8 (take (m * 64 + (e - 3)) stream)) (stamp_at timed b 0) t'
    frame_chunks timed t dev n some_chunk same a flt room =
        let starts : IsStart (footer_of 0 t.spi_data_rx_buf) =
          subst (λ x. IsStart (footer_of 0 x)) (sym same) carries.first in
        let skb1 : Skb = record {
          bytes = slice t.spi_data_rx_buf 8 56;
          tailroom = n - 56;
          hwtstamp = stamp_at timed t.spi_data_rx_buf 0;
        } in
        let t1 : Tc6 D = record (after os 0 t) { dev = dev; rx_skb = some skb1 } in
        let count : suc (m - 1) ≡ m = omega arith in
        let bytes1 : skb1.bytes ≡ drop 8 (take (1 * 64) stream) =
          ap (λ x. slice x 8 56) same
          ∙ take-drop 8 56 b
          ∙ ap (drop 8) (carries.payload 0 some_chunk) in
        let (t', eq, (skb, sb, sh, r1, r2, r3)) =
          rest_chunks (m - 1) 1 t1 skb1 (omega arith) (omega arith) same refl refl bytes1
            (omega arith) in
        (
          t',
          rx_loop-suc os m 0 t t1 (
                first_chunk os 0 timed t dev n starts (omega arith) (ap length same ∙ long) a flt
                  (omega arith))
              ∙ ap (λ k. rx_loop os k 1 t1) (sym count)
              ∙ eq,
          (skb, sb, sh ∙ ap (λ x. stamp_at timed x 0) same, r1, r2, r3),
        )

  -- Where the receive buffer carries the eight bytes of a time stamp, a frame and the four bytes of
  -- its check sequence in 2 to 48 chunks, of which the last holds 4 to 64 bytes, and where the network
  -- stack gives a buffer with room for the frame and the filter stamps all frames or none:
  -- processing the buffer succeeds, hands the network stack exactly that frame, stamped if all
  -- frames are, counts one packet, and leaves no frame under way.
  pub process_spi_data_rx_buf-HandsOver :
      (timed : Bool) (t : Tc6 D) (dev : D) (n m e : ℕ) (ts frame fcs : List ℕ)
      → length t.spi_data_rx_buf ≡ spi_data_buf_size
      → (1 ≤ m) × (m < max_tx_chunks) × (3 ≤ e) × (e < 64)
      → (length ts ≡ 8) × (length fcs ≡ 4)
      → Carries t.spi_data_rx_buf (ts ++ (frame ++ fcs)) m e
      → os.alloc_skb t.dev (t.netdev.mtu + 14 + 4) ≡ (some n, dev)
      → length frame ≤ n
      → t.netdev.rx_filter ≡ (if timed then filter_all else filter_none)
      → (t' : Tc6 D) × (process_spi_data_rx_buf os ((m + 1) * 68) t ≡ (ok tt, t'))
        × HandsOver t frame (stamp_at timed t.spi_data_rx_buf 0) t'
  unfolding process_spi_data_rx_buf
  process_spi_data_rx_buf-HandsOver timed t dev n m e ts frame fcs long (some_chunk, few, lo, hi)
        (lt, lf) c a fits flt =
      let whole : length (ts ++ (frame ++ fcs)) ≡ 8 + (length frame + 4) =
        omega (arith, length-append ts (frame ++ fcs), length-append frame fcs) in
      let at : m * 64 + (e - 3) ≡ 8 + length frame = omega (arith, whole, c.size) in
      let count : (m + 1) * 68 / chunk_size ≡ suc m = omega arith in
      let (t', eq, (skb, sb, r1, r2, r3, r4)) =
        frame_chunks t.spi_data_rx_buf (ts ++ (frame ++ fcs)) m e c long few lo hi timed t dev n
          some_chunk refl a flt (omega arith) in
      (
        t',
        ap (λ k. rx_loop os k 0 t) count ∙ eq,
        (
          skb,
          sb ∙ ap (λ k. drop 8 (take k (ts ++ (frame ++ fcs)))) at ∙ cut_out ts frame fcs lt,
          r1,
          r2,
          r3,
          r4,
        ),
      )
