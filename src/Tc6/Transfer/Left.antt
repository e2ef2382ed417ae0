-- ===== src/Tc6/Transfer/Left.antt =====
-- What `oa_tc6_try_spi_transfer` works off the queue before its SPI transfer.
use base_t1s.Prelude.{
  ℕ, ◌-◌, ◌*◌, ◌≤◌, ◌||◌, M, ok, ◌≡◌, refl, arith, ◌∙◌, length, Bool-cases, inl, inr, ◌>>=◌,
}
use base_t1s.Word.{u16}
use base_t1s.Tc6.State.{Tc6, chunk_size, spi_data_buf_size, max_tx_chunks}
use base_t1s.Tc6.Tx.{tx_loop, prepare_spi_tx_buf_for_tx_skbs, prepare_spi_tx_buf_for_rx_chunks}
use base_t1s.Tc6.Tx.Stream.{IsSendable}
use base_t1s.Tc6.Tx.Left.{chunks_left, chunks_left-none, tx_loop-left}
use base_t1s.Tc6.Transfer.{is_set, prepare_tx, serve_interrupt, prepare_round}
use base_t1s.Tc6.Transfer.Round.{nothing_set}
use base_t1s.Tc6.Transfer.Kept.{continue-kept, fill_round-kept}

module _ {D : Type 0} where
  prepare_tx-left :
      (t : Tc6 D)
      → IsSendable t
      → t.spi_data_tx_buf_offset ≡ 0
      → length t.spi_data_tx_buf ≡ spi_data_buf_size
      → t.tx_credits ≤ max_tx_chunks
      → chunks_left (prepare_tx t).1 ≡ chunks_left t - t.tx_credits
  unfolding prepare_tx prepare_spi_tx_buf_for_tx_skbs
  prepare_tx-left t v o b c =
      elim (Bool-cases (is_set t.ongoing_tx_skb || is_set t.waiting_tx_skb)) [
        | inl e ↦
            let looped = tx_loop t.tx_credits 0 t in
            rw e (
              continue-kept chunks_left looped.0 (λ used s. (ok (u16 (used * chunk_size)), s))
                looped.1 (λ u s. refl)
              ∙ tx_loop-left t.tx_credits 0 t v (omega arith))
        | inr e ↦ rw e (omega (arith, chunks_left-none t (nothing_set t e)))
      ]

  -- A round works off a chunk for each credit, or all there are.
  pub prepare_round-left :
      (t : Tc6 D)
      → IsSendable t
      → length t.spi_data_tx_buf ≡ spi_data_buf_size
      → t.tx_credits ≤ max_tx_chunks
      → chunks_left (prepare_round t).1 ≡ chunks_left t - t.tx_credits
  unfolding prepare_round
  prepare_round-left t v b c =
      let t0 : Tc6 D = record t { spi_data_tx_buf_offset = 0 } in
      let v0 : IsSendable t0 = record { ongoing = v.ongoing; waiting = v.waiting; size = v.size } in
      let filled : ℕ → M (Tc6 D) ℕ =
        λ len. prepare_spi_tx_buf_for_rx_chunks len >>= serve_interrupt in
      continue-kept chunks_left (prepare_tx t0).0 filled (prepare_tx t0).1
        (fill_round-kept chunks_left (λ s b o. refl) (λ s b. refl))
      ∙ prepare_tx-left t0 v0 refl b c
