-- ===== src/Tc6/Rx/Chunks.antt =====
-- One chunk of a frame in `oa_tc6_process_spi_data_rx_buf`: its footer, and the part of the frame
-- that its payload holds.
use base_t1s.Prelude.{
  ℕ, suc, ◌+◌, ◌*◌, ◌%◌, ◌^◌, ◌<◌, false, List, ok, ◌≡◌, refl, arith, length, take, drop,
}
use base_t1s.Word.{bit_get, field_get, from_be32}
use base_t1s.Tc6.State.{Tc6, Platform, max_tx_chunks, spi_data_buf_size}
use base_t1s.Tc6.Rx.{
  get_rx_chunk_footer, process_rx_chunk_footer, footer_errors, payload_if_valid,
  prcs_rx_chunk_payload, prcs_rx_chunk_cases, prcs_rx_frame_start, prcs_ongoing_rx_frame,
  prcs_rx_frame_end, process_rx_chunk, rx_loop,
}

-- The footer of chunk `i` of a reply.
abbrev pub footer_of : ℕ → List ℕ → ℕ
footer_of i b = from_be32 (take 4 (drop (i * 68 + 64) b))

-- No extended status, a good header, a configuration in step, and a valid payload.
pub record HasData (footer : ℕ) : Type 0 where
  pub no_status : bit_get 31 footer ≡ 0
  pub good_header : bit_get 30 footer ≡ 0
  pub in_step : bit_get 29 footer ≡ 1
  pub has_payload : bit_get 21 footer ≡ 1

-- The chunk that a frame starts with, one from its middle, and the one in which it ends, at byte
-- `e`.
abbrev pub IsStart : ℕ → Type 0
IsStart f = HasData f × (bit_get 20 f ≡ 1) × (bit_get 14 f ≡ 0) × (field_get 19 16 f ≡ 0)

abbrev pub IsMiddle : ℕ → Type 0
IsMiddle f = HasData f × (bit_get 20 f ≡ 0) × (bit_get 14 f ≡ 0)

abbrev pub IsEnd : ℕ → ℕ → Type 0
IsEnd e f = HasData f × (bit_get 20 f ≡ 0) × (bit_get 14 f ≡ 1) × (field_get 13 8 f ≡ e)

module _ {D : Type 0} (os : Platform D) where
  -- The state behind a footer that is in order.
  abbrev pub counted : ℕ → Tc6 D → Tc6 D
  counted f t = record t { tx_credits = field_get 5 1 f; rx_chunks_available = field_get 28 24 f }

  pub footer-read :
      (i : ℕ) (t : Tc6 D)
      → i < max_tx_chunks
      → length t.spi_data_rx_buf ≡ spi_data_buf_size
      → get_rx_chunk_footer ((i * 68 + 64) % 2 ^ 16) t ≡ (ok (footer_of i t.spi_data_rx_buf), t)
  unfolding get_rx_chunk_footer
  footer-read i t h b =
      let at : (i * 68 + 64) % 2 ^ 16 ≡ i * 68 + 64 = omega arith in rw at (ground arith)

  footer-counted :
      (f : ℕ) (t : Tc6 D) → HasData f → process_rx_chunk_footer os f t ≡ (ok tt, counted f t)
  unfolding process_rx_chunk_footer footer_errors
  footer-counted f t h = ground (arith, h.no_status, h.good_header, h.in_step)

  payload-valid :
      (i f : ℕ) (t : Tc6 D)
      → HasData f
      → payload_if_valid os i f t ≡ prcs_rx_chunk_payload os (i * 68) f t
  unfolding payload_if_valid
  payload-valid i f t h = rw h.has_payload refl

  pub chunk-payload :
      (i : ℕ) (t : Tc6 D)
      → i < max_tx_chunks
      → length t.spi_data_rx_buf ≡ spi_data_buf_size
      → HasData (footer_of i t.spi_data_rx_buf)
      → let f = footer_of i t.spi_data_rx_buf in
        process_rx_chunk os i t ≡ prcs_rx_chunk_payload os (i * 68) f (counted f t)
  unfolding process_rx_chunk
  chunk-payload i t h b d =
      let f = footer_of i t.spi_data_rx_buf in
      rw (footer-read i t h b, footer-counted f t d) (payload-valid i f (counted f t) d)

  pub rx_loop-suc :
      (n i : ℕ) (t t' : Tc6 D)
      → process_rx_chunk os i t ≡ (ok tt, t')
      → rx_loop os (suc n) i t ≡ rx_loop os n (i + 1) t'
  unfolding rx_loop
  rx_loop-suc n i t t' e = rw e refl

  pub rx_loop-zero : (i : ℕ) (t : Tc6 D) → rx_loop os 0 i t ≡ (ok tt, t)
  unfolding rx_loop
  rx_loop-zero i t = refl

  -- What the payload is taken for.
  pub payload-start :
      (p f : ℕ) (t : Tc6 D)
      → IsStart f
      → prcs_rx_chunk_payload os p f t
        ≡ prcs_rx_frame_start os p 64 (record t { rx_buf_overflow = false })
  unfolding prcs_rx_chunk_payload prcs_rx_chunk_cases
  payload-start p f t (d, sv, ev, so) =
      let here : p + 0 ≡ p = omega arith in rw (so, sv, ev, here) refl

  pub payload-middle :
      (p f : ℕ) (t : Tc6 D)
      → IsMiddle f
      → t.rx_buf_overflow ≡ false
      → prcs_rx_chunk_payload os p f t
        ≡ prcs_ongoing_rx_frame p (record t { rx_buf_overflow = false })
  unfolding prcs_rx_chunk_payload prcs_rx_chunk_cases
  payload-middle p f t (d, sv, ev) o = rw (sv, ev, o) refl

  pub payload-end :
      (p f e : ℕ) (t : Tc6 D)
      → IsEnd e f
      → t.rx_buf_overflow ≡ false
      → prcs_rx_chunk_payload os p f t
        ≡ prcs_rx_frame_end os p (e + 1) (record t { rx_buf_overflow = false })
  unfolding prcs_rx_chunk_payload prcs_rx_chunk_cases
  payload-end p f e t (d, sv, ev, eo) o = rw (sv, ev, eo, o) refl
