-- ===== src/Tc6/Rx/Pieces.antt =====
-- A chunk of a frame in `oa_tc6_process_spi_data_rx_buf`: the first, one from the middle, the last.
use base_t1s.Prelude.{
  ℕ, zero, suc, ◌+◌, ◌-◌, ◌*◌, ◌≤◌, ◌<◌, Bool, false, List, [], ◌∷◌, ◌++◌, some, ok, if◌then◌else◌,
  ◌≡◌, refl, arith, ap, sym, ◌∙◌, length, take, drop, take-add, take-nil, length-take, take-append,
  drop-append,
}
use base_t1s.Tc6.State.{
  Tc6, Skb, Platform, filter_all, filter_none, max_tx_chunks, spi_data_buf_size,
}
use base_t1s.Tc6.Rx.{prcs_ongoing_rx_frame, process_rx_chunk}
use base_t1s.Tc6.Rx.Frames.{
  slice, stamp_at, delivered, update_rx_skb-ok, prcs_rx_frame_start-ok, prcs_rx_frame_end-ok,
}
use base_t1s.Tc6.Rx.Chunks.{
  footer_of, IsStart, IsMiddle, IsEnd, counted, chunk-payload, payload-start, payload-middle,
  payload-end,
}

pub drop-front :
    {A : Type 0} (k : ℕ) (xs ys : List A) → k ≤ length xs → drop k (xs ++ ys) ≡ drop k xs ++ ys
drop-front zero xs ys h = refl
drop-front (suc k) [] ys h = absurd (omega arith)
drop-front (suc k) (x ∷ xs) ys h = drop-front k xs ys (omega arith)

pub take-drop : {A : Type 0} (k n : ℕ) (xs : List A) → take n (drop k xs) ≡ drop k (take (k + n) xs)
take-drop zero n xs = ap (λ k. take k xs) (omega arith)
take-drop (suc k) n [] = let e : suc k + n ≡ suc (k + n) = omega arith in rw e (take-nil n)
take-drop (suc k) n (x ∷ xs) =
    let e : suc k + n ≡ suc (k + n) = omega arith in rw e (take-drop k n xs)

-- The bytes 8 to `a` and the next `c`.
pub join :
    (a c : ℕ) (s : List ℕ)
    → 8 ≤ a
    → a ≤ length s
    → drop 8 (take a s) ++ take c (drop a s) ≡ drop 8 (take (a + c) s)
join a c s h le =
    sym (drop-front 8 (take a s) (take c (drop a s)) (omega (arith, length-take a s)))
    ∙ ap (drop 8) (sym (take-add a c s))

-- The frame between its time stamp and its check sequence.
pub cut_out :
    (ts frame fcs : List ℕ)
    → length ts ≡ 8
    → drop 8 (take (8 + length frame) (ts ++ (frame ++ fcs))) ≡ frame
cut_out ts frame fcs lt =
    sym (take-drop 8 (length frame) (ts ++ (frame ++ fcs)))
    ∙ ap (take (length frame)) (drop-append 8 0 ts (frame ++ fcs) lt)
    ∙ take-append (length frame) frame fcs refl

module _ {D : Type 0} (os : Platform D) where
  -- The state behind the footer of a chunk, with no overflow.
  abbrev pub after : ℕ → Tc6 D → Tc6 D
  after i t = record (counted os (footer_of i t.spi_data_rx_buf) t) { rx_buf_overflow = false }

  pub first_chunk :
      (i : ℕ) (timed : Bool) (t : Tc6 D) (dev : D) (n : ℕ)
      → IsStart (footer_of i t.spi_data_rx_buf)
      → i < max_tx_chunks
      → length t.spi_data_rx_buf ≡ spi_data_buf_size
      → os.alloc_skb t.dev (t.netdev.mtu + 14 + 4) ≡ (some n, dev)
      → t.netdev.rx_filter ≡ (if timed then filter_all else filter_none)
      → 56 ≤ n
      → process_rx_chunk os i t ≡ (
        ok tt,
        record (after i t) {
          dev = dev;
          rx_skb = some (record {
            bytes = slice t.spi_data_rx_buf (i * 68 + 8) 56;
            tailroom = n - 56;
            hwtstamp = stamp_at timed t.spi_data_rx_buf (i * 68);
          });
        },
      )
  first_chunk i timed t dev n f h b a flt room =
      chunk-payload os i t h b f.0
      ∙ payload-start os (i * 68) (footer_of i t.spi_data_rx_buf)
          (counted os (footer_of i t.spi_data_rx_buf) t) f
      ∙ prcs_rx_frame_start-ok os timed (after i t) dev n (i * 68) 64 a flt (omega arith)
          (omega arith) (omega arith) (omega arith)

  pub middle_chunk :
      (i : ℕ) (t : Tc6 D) (skb : Skb)
      → IsMiddle (footer_of i t.spi_data_rx_buf)
      → i < max_tx_chunks
      → length t.spi_data_rx_buf ≡ spi_data_buf_size
      → t.rx_buf_overflow ≡ false
      → t.rx_skb ≡ some skb
      → 64 ≤ skb.tailroom
      → process_rx_chunk os i t ≡ (
        ok tt,
        record (after i t) {
          rx_skb = some (record skb {
            bytes = skb.bytes ++ slice t.spi_data_rx_buf (i * 68) 64;
            tailroom = skb.tailroom - 64;
          });
        },
      )
  unfolding prcs_ongoing_rx_frame
  middle_chunk i t skb f h b o s room =
      chunk-payload os i t h b f.0
      ∙ payload-middle os (i * 68) (footer_of i t.spi_data_rx_buf)
          (counted os (footer_of i t.spi_data_rx_buf) t) f o
      ∙ update_rx_skb-ok (i * 68) 64 (after i t) skb s room (omega arith)

  pub last_chunk :
      (i e : ℕ) (t : Tc6 D) (skb : Skb)
      → IsEnd e (footer_of i t.spi_data_rx_buf)
      → i < max_tx_chunks
      → (3 ≤ e) × (e < 64)
      → length t.spi_data_rx_buf ≡ spi_data_buf_size
      → t.rx_buf_overflow ≡ false
      → t.rx_skb ≡ some skb
      → e - 3 ≤ skb.tailroom
      → process_rx_chunk os i t ≡ (
        ok tt,
        delivered os (after i t) t.dev (record skb {
          bytes = skb.bytes ++ slice t.spi_data_rx_buf (i * 68) (e + 1 - 4);
          tailroom = skb.tailroom - (e + 1 - 4);
        }),
      )
  last_chunk i e t skb f h (lo, hi) b o s room =
      chunk-payload os i t h b f.0
      ∙ payload-end os (i * 68) (footer_of i t.spi_data_rx_buf) e
          (counted os (footer_of i t.spi_data_rx_buf) t) f o
      ∙ prcs_rx_frame_end-ok os (after i t) skb (i * 68) (e + 1) s (omega arith) (omega arith)
          (omega arith) (omega arith)
