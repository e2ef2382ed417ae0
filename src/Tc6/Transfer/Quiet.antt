-- ===== src/Tc6/Transfer/Quiet.antt =====
-- What `oa_tc6_process_spi_data_rx_buf` makes of a reply that has credits and no receive data.
use base_t1s.Prelude.{
  ℕ, zero, suc, ◌+◌, ◌*◌, ◌/◌, ◌%◌, ◌^◌, ◌≤◌, ◌<◌, ok, ◌≡◌, refl, arith, ap, ◌∙◌, length, subst,
}
use base_t1s.Word.{bit_get}
use base_t1s.Tc6.State.{Tc6, Platform, max_tx_chunks, chunk_size, spi_data_buf_size}
use base_t1s.Tc6.Rx.{
  process_rx_chunk_footer, footer_errors, payload_if_valid, process_rx_chunk, rx_loop,
  process_spi_data_rx_buf,
}
use base_t1s.Tc6.Rx.Chunks.{footer_of, footer-read, rx_loop-suc, rx_loop-zero}

-- No extended status, a good header, a configuration in step, no payload, no chunk left to be
-- received, and credit for at least one chunk more.
pub record IsQuiet (footer : ℕ) : Type 0 where
  pub no_status : bit_get 31 footer ≡ 0
  pub good_header : bit_get 30 footer ≡ 0
  pub in_step : bit_get 29 footer ≡ 1
  pub no_data : bit_get 21 footer ≡ 0
  pub no_chunks : footer / 2 ^ 24 % 32 ≡ 0
  pub credits : 1 ≤ footer / 2 % 32

-- The state after a quiet chunk.
abbrev pub credited : {D : Type 0} → ℕ → Tc6 D → Tc6 D
credited c t = record t { tx_credits = c; rx_chunks_available = 0 }

module _ {D : Type 0} (os : Platform D) where
  footer-credited :
      (footer : ℕ) (t : Tc6 D)
      → IsQuiet footer
      → process_rx_chunk_footer os footer t ≡ (ok tt, credited (footer / 2 % 32) t)
  unfolding process_rx_chunk_footer footer_errors
  footer-credited footer t q = ground (arith, q.no_status, q.good_header, q.in_step, q.no_chunks)

  payload-none :
      (i footer : ℕ) (t : Tc6 D) → IsQuiet footer → payload_if_valid os i footer t ≡ (ok tt, t)
  unfolding payload_if_valid
  payload-none i footer t q = rw q.no_data refl

  chunk-credited :
      (i : ℕ) (t : Tc6 D)
      → i < max_tx_chunks
      → length t.spi_data_rx_buf ≡ spi_data_buf_size
      → IsQuiet (footer_of i t.spi_data_rx_buf)
      → process_rx_chunk os i t ≡ (ok tt, credited (footer_of i t.spi_data_rx_buf / 2 % 32) t)
  unfolding process_rx_chunk
  chunk-credited i t h b q =
      let f = footer_of i t.spi_data_rx_buf in
      rw (footer-read os i t h b, footer-credited f t q)
        (payload-none i f (credited (f / 2 % 32) t) q)

  -- Quiet chunks leave the credits of the last of them, and nothing to be received.
  rx_loop-credited :
      (n i c : ℕ) (t : Tc6 D)
      → i + n ≤ max_tx_chunks
      → length t.spi_data_rx_buf ≡ spi_data_buf_size
      → ((j : ℕ) → j < n → IsQuiet (footer_of (i + j) t.spi_data_rx_buf))
      → 1 ≤ c
      → c ≤ 31
      → (c' : ℕ) × (rx_loop os n i (credited c t) ≡ (ok tt, credited c' t)) × (1 ≤ c') × (c' ≤ 31)
  rx_loop-credited zero i c t h b q l u = (c, rx_loop-zero os i (credited c t), l, u)
  rx_loop-credited (suc n) i c t h b q l u =
      let f = footer_of i t.spi_data_rx_buf in
      let here : IsQuiet f =
        subst (λ j. IsQuiet (footer_of j t.spi_data_rx_buf)) (omega arith) (q 0 (omega arith)) in
      let (c', e, l', u') =
        rx_loop-credited n (i + 1) (f / 2 % 32) t (omega arith) b
          (λ j lt.
            subst (λ m. IsQuiet (footer_of m t.spi_data_rx_buf)) (omega arith)
              (q (suc j) (omega arith)))
          here.credits (omega arith) in
      (
        c',
        rx_loop-suc os n i (credited c t) (credited (f / 2 % 32) t)
              (chunk-credited i (credited c t) (omega arith) b here)
            ∙ e,
        l',
        u',
      )

  pub process_spi_data_rx_buf-quiet :
      (k : ℕ) (t : Tc6 D)
      → 1 ≤ k
      → k ≤ max_tx_chunks
      → length t.spi_data_rx_buf ≡ spi_data_buf_size
      → ((j : ℕ) → j < k → IsQuiet (footer_of j t.spi_data_rx_buf))
      → (c : ℕ) × (process_spi_data_rx_buf os (k * 68) t ≡ (ok tt, credited c t))
        × (1 ≤ c)
        × (c ≤ 31)
  unfolding process_spi_data_rx_buf
  process_spi_data_rx_buf-quiet zero t l u b q = absurd (omega arith)
  process_spi_data_rx_buf-quiet (suc k) t l u b q =
      let count : suc k * 68 / chunk_size ≡ suc k = omega arith in
      let f = footer_of 0 t.spi_data_rx_buf in
      let here = q 0 (omega arith) in
      let (c, e, l', u') =
        rx_loop-credited k 1 (f / 2 % 32) t (omega arith) b
          (λ j lt.
            subst (λ m. IsQuiet (footer_of m t.spi_data_rx_buf)) (omega arith)
              (q (suc j) (omega arith)))
          here.credits (omega arith) in
      (
        c,
        ap (λ n. rx_loop os n 0 t) count
            ∙ rx_loop-suc os k 0 t (credited (f / 2 % 32) t)
                (chunk-credited 0 t (omega arith) b here)
            ∙ e,
        l',
        u',
      )
