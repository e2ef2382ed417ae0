-- ===== src/Tc6/Rx/Handover.antt =====
-- `oa_tc6_process_spi_data_rx_buf` on a whole reply, beside a receiver that only collects bytes.
use base_t1s.Prelude.{
  ℕ, suc, ◌+◌, ◌-◌, ◌*◌, ◌/◌, ◌≤◌, Bool, List, [], ◌∷◌, Option, ok, ◌≡◌, arith, ap, sym, subst, ◌∙◌,
  length, append-nil,
}
use base_t1s.Tc6.State.{Tc6, Platform, max_tx_chunks, chunk_size}
use base_t1s.Tc6.Rx.{rx_loop, process_spi_data_rx_buf}
use base_t1s.Tc6.Rx.Chunks.{footer_of, rx_loop-suc, rx_loop-zero}
use base_t1s.Tc6.Rx.Source.{RxChunk, put_chunk, reassemble, HoldsChunks, InOrder}
use base_t1s.Tc6.Rx.Tracks.{RxAllocator, Tracks, Handed, Handed-append, tx_side}
use base_t1s.Tc6.Rx.Tracks.Chunk.{Reported, put}

module _ {D X : Type 0} {os : Platform D} (a : RxAllocator os X) (timed : Bool) (mtu : ℕ) where
  -- What the driver has done with a run of chunks.
  abbrev pub AllProcessed : Option (List ℕ) → List RxChunk → ℕ → Tc6 D → Tc6 D → Type 0
  AllProcessed part cs last t t' =
      Tracks a timed mtu t' (reassemble part cs).1
      × Handed a timed mtu t (reassemble part cs).0 t'
      × (tx_side a timed mtu t' ≡ tx_side a timed mtu t)
      × Reported a timed mtu (footer_of last t.spi_data_rx_buf) t'

  pub loop_chunks :
      (c : RxChunk) (cs : List RxChunk) (i : ℕ) (t : Tc6 D) (part : Option (List ℕ))
      → Tracks a timed mtu t part
      → i + suc (length cs) ≤ max_tx_chunks
      → InOrder (mtu + 18) part (c ∷ cs)
      → HoldsChunks t.spi_data_rx_buf i (c ∷ cs)
      → (t' : Tc6 D) × (rx_loop os (suc (length cs)) i t ≡ (ok tt, t'))
        × AllProcessed part (c ∷ cs) (i + length cs) t t'
  loop_chunks c [] i t part g le (fits, rest) (h, hs) =
      let (t1, eq, g1, h1, k1, r1) = put a timed mtu i t part c g (omega arith) fits h in
      (
        t1,
        rx_loop-suc os 0 i t t1 eq ∙ rx_loop-zero os (i + 1) t1,
        (
          g1,
          subst (λ fs. Handed a timed mtu t fs t1) (sym (append-nil (put_chunk part c).0)) h1,
          k1,
          subst (λ j. Reported a timed mtu (footer_of j t.spi_data_rx_buf) t1) (omega arith) r1,
        ),
      )
  loop_chunks c (d ∷ cs) i t part g le (fits, rest) (h, hs) =
      let (t1, eq, g1, h1, k1, r1) = put a timed mtu i t part c g (omega arith) fits h in
      let same : t1.spi_data_rx_buf ≡ t.spi_data_rx_buf = ap (λ x. x.0) k1 in
      let (t2, eq2, (g2, h2, k2, r2)) =
        loop_chunks d cs (i + 1) t1 (put_chunk part c).1 g1 (omega arith) rest
          (subst (λ b. HoldsChunks b (i + 1) (d ∷ cs)) (sym same) hs) in
      (
        t2,
        rx_loop-suc os (suc (length cs)) i t t1 eq ∙ eq2,
        (
          g2,
          Handed-append a timed mtu t t1 t2 (put_chunk part c).0
              (reassemble (put_chunk part c).1 (d ∷ cs)).0 h1 h2,
          k2 ∙ k1,
          subst (λ b. Reported a timed mtu (footer_of (i + length (d ∷ cs)) b) t2) same
              (subst (λ j. Reported a timed mtu (footer_of j t1.spi_data_rx_buf) t2) (omega arith)
                r2),
        ),
      )

  -- Whatever chunks a reply consists of.
  pub process_spi_data_rx_buf-Reassembles :
      (k : ℕ) (t : Tc6 D) (part : Option (List ℕ)) (cs : List RxChunk)
      → Tracks a timed mtu t part
      → length cs ≡ k
      → (1 ≤ k) × (k ≤ max_tx_chunks)
      → InOrder (mtu + 18) part cs
      → HoldsChunks t.spi_data_rx_buf 0 cs
      → (t' : Tc6 D) × (process_spi_data_rx_buf os (k * 68) t ≡ (ok tt, t'))
        × AllProcessed part cs (k - 1) t t'
  unfolding process_spi_data_rx_buf
  process_spi_data_rx_buf-Reassembles k t part [] g e (l, u) o h = absurd (omega arith)
  process_spi_data_rx_buf-Reassembles k t part (c ∷ cs) g e (l, u) o h =
      let count : k * 68 / chunk_size ≡ suc (length cs) = omega arith in
      let (t', eq, (g', h', k', r')) = loop_chunks c cs 0 t part g (omega arith) o h in
      (
        t',
        ap (λ n. rx_loop os n 0 t) count ∙ eq,
        (
          g',
          h',
          k',
          subst (λ j. Reported a timed mtu (footer_of j t.spi_data_rx_buf) t') (omega arith) r',
        ),
      )
