-- ===== src/Tc6/Transfer/Deliver.antt =====
-- The transmit queue under `oa_tc6_try_spi_transfer`, round after round.
use base_t1s.Prelude.{
  ℕ, zero, suc, ◌+◌, ◌-◌, ◌≤◌, [], ◌++◌, ok, ◌≡◌, arith, subst, ◌∙◌, inl, inr, false,
}
use base_t1s.Tc6.State.{Tc6, Platform}
use base_t1s.Tc6.Tx.Stream.{outstanding}
use base_t1s.Tc6.Tx.Left.{chunks_left}
use base_t1s.Tc6.Transfer.Steps.{nothing_left, nothing_queued, idle_round, try-finished, try-again}
use base_t1s.Tc6.Transfer.{finished, again, transfer_round, try_spi_transfer}
use base_t1s.Tc6.Transfer.Drain.{ChunkDevice, CanDrain, delivered}
use base_t1s.Tc6.Transfer.Drain.Idle.{Drained, none_delivered, drain_round}

module _ {D : Type 0} {os : Platform D} (c : ChunkDevice os) where
  drain_more :
      (n : ℕ) (t t' : Tc6 D)
      → transfer_round os t ≡ (ok again, t')
      → delivered c t' ≡ delivered c t
      → Drained c t' (try_spi_transfer os n t')
      → Drained c t (try_spi_transfer os (suc n) t)
  drain_more n t t' e d (last, eq, o, got, g) = (last, try-again os n t t' e ∙ eq, o, got ∙ d, g)

  drain_idle :
      (n : ℕ) (t : Tc6 D)
      → CanDrain c t
      → chunks_left t ≡ 0
      → t.rx_chunks_available ≡ 0
      → t.int_flag ≡ false
      → Drained c t (try_spi_transfer os (suc n) t)
  drain_idle n t g l r i =
      let (o, w) = nothing_left os t g.sendable l in
      let g0 : CanDrain c (record t { spi_data_tx_buf_offset = 0 }) = record {
        sendable = record {
          ongoing = g.sendable.ongoing;
          waiting = g.sendable.waiting;
          size = g.sendable.size;
        };
        data_tx = g.data_tx;
        data_rx = g.data_rx;
        some_credit = g.some_credit;
        credits = g.credits;
        rx_chunks = g.rx_chunks;
        ready = g.ready;
        in_part = g.in_part;
      } in
      let (t1, eq, out, got, g1) =
        none_delivered c t (record t { spi_data_tx_buf_offset = 0 }) g (idle_round os t o w r i)
          (nothing_queued os t o w) (nothing_queued os t o w) g0 in
      (t1, try-finished os n t t1 eq, out, got, g1)

  -- One round for each chunk left, one for what is to be received, and one to leave the loop.
  drain :
      (n : ℕ) (t : Tc6 D)
      → CanDrain c t
      → chunks_left t ≤ n
      → Drained c t (try_spi_transfer os (suc (suc n)) t)
  drain zero t g h = elim (drain_round c t g) [
    | inl (t', eq, o, got, g') ↦ (t', try-finished os 1 t t' eq, o, got, g')
    | inr (t', eq, g', r', i', l', d') ↦
        drain_more 1 t t' eq d' (drain_idle 0 t' g' (omega arith) r' i')
  ]
  drain (suc n) t g h = elim (drain_round c t g) [
    | inl (t', eq, o, got, g') ↦ (t', try-finished os (suc (suc n)) t t' eq, o, got, g')
    | inr (t', eq, g', r', i', l', d') ↦
        drain_more (suc (suc n)) t t' eq d' (drain n t' g' (omega (arith, l', g.some_credit)))
  ]

  -- Over a device that puts the frames together from the chunks it gets, and answers each transfer
  -- with credit for at least one chunk more and without receive data: if it has what has been sent
  -- of the frame in progress, and there are the allocated buffers, between 1 and 48 credits, at most
  -- 48 chunks to be received and a queue that can be sent, then with any bound of rounds that is at
  -- least two more than the chunks the queue still needs, `try_spi_transfer` comes to its end
  -- without an error, the queue is empty, and the device has got exactly the queued frames behind
  -- those it had, each once, whole and in order. The state is again such a one.
  pub try_spi_transfer-Drains :
      (n : ℕ) (t : Tc6 D)
      → CanDrain c t
      → chunks_left t + 2 ≤ n
      → (t' : Tc6 D) × (try_spi_transfer os n t ≡ (ok finished, t'))
        × (outstanding t' ≡ [])
        × (c.got t'.dev ≡ c.got t.dev ++ outstanding t)
        × CanDrain c t'
  try_spi_transfer-Drains n t g h =
      let count : suc (suc (n - 2)) ≡ n = omega arith in
      subst (λ m. Drained c t (try_spi_transfer os m t)) count (drain (n - 2) t g (omega arith))
