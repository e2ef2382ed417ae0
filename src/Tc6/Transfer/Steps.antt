-- ===== src/Tc6/Transfer/Steps.antt =====
-- The steps of a round of `oa_tc6_try_spi_transfer`, and of its loop, on an outcome that is known.
use base_t1s.Prelude.{
  ℕ, suc, [], none, ◌+◌, ◌*◌, ◌≤◌, ◌<◌, List, ◌==◌, ok, ◌≡◌, refl, arith, ap, ◌∙◌, length, take,
  inl, inr, false, overwrite, slice-overwrite, take_all, take-drop-take, Bool-cases, not, ◌&&◌,
}
use base_t1s.Word.{from_be32}
use base_t1s.Tc6.State.{
  Tc6, NetDev, from_status, Platform, spi_data_buf_size, max_tx_chunks, chunk_size,
}
use base_t1s.Tc6.Ctrl.{data_header, spi_transfer}
use base_t1s.Tc6.Rx.{process_spi_data_rx_buf}
use base_t1s.Tc6.Tx.Sink.{receive}
use base_t1s.Tc6.Tx.Join.{receive-local}
use base_t1s.Tc6.Tx.Stream.{IsSendable, outstanding}
use base_t1s.Tc6.Tx.Left.{chunks_left}
use base_t1s.Tc6.Transfer.{
  is_set, prepare_tx, serve_interrupt, try_spi_transfer, finished, again, prepare_round, wake_queue,
  finish_round, process_reply, transfer_round,
}
use base_t1s.Tc6.Rx.Chunks.{footer_of}
use base_t1s.Tc6.Tx.{prepare_spi_tx_buf_for_rx_chunks}

module _ {D : Type 0} (os : Platform D) where
  -- The state behind the SPI transfer of a round.
  abbrev pub replied : Tc6 D → List ℕ → D → Tc6 D
  replied t r d = record t { dev = d; spi_data_rx_buf = overwrite t.spi_data_rx_buf r }

  pub spi_transfer-replied :
      (len : ℕ) (t : Tc6 D) (r : List ℕ) (d : D)
      → length r ≡ len
      → os.spi_sync t.dev (take len t.spi_data_tx_buf) ≡ (record { status = 0; bytes = r }, d)
      → spi_transfer os data_header len t ≡ (ok tt, replied t r d)
  unfolding spi_transfer
  spi_transfer-replied len t r d l e =
      ap
        (λ x. (
          from_status x.0.status,
          record t {
            dev = x.1;
            spi_data_rx_buf = overwrite t.spi_data_rx_buf (take len x.0.bytes);
          },
        ))
        e
      ∙ ap (λ (b : List ℕ). (ok tt, replied t b d)) (take_all len r (omega arith))

  pub process_reply-again :
      (len : ℕ) (t t' : Tc6 D)
      → process_spi_data_rx_buf os len t ≡ (ok tt, t')
      → process_reply os len t ≡ (ok again, wake_queue t')
  unfolding process_reply finish_round
  process_reply-again len t t' e = ap (λ x. finish_round x.0 x.1) e

  -- Waking the queue changes the network device only.
  pub wake_queue-netdev : (t : Tc6 D) → (n : NetDev) × (wake_queue t ≡ record t { netdev = n })
  unfolding wake_queue
  wake_queue-netdev t =
      elim (Bool-cases (not (is_set t.waiting_tx_skb) && t.netdev.queue_stopped)) [
        | inl e ↦ (record t.netdev { queue_stopped = false }, ground arith)
        | inr e ↦ (t.netdev, ground arith)
      ]

  -- A transfer of the first `k` chunks of the buffer is received like the buffer itself.
  pub receive-take :
      (k : ℕ) (acc buf : List ℕ) → receive k 0 acc (take (k * chunk_size) buf) ≡ receive k 0 acc buf
  receive-take k acc buf =
      receive-local k 0 acc buf (take (k * chunk_size) buf)
        (λ m le. take-drop-take m 0 (k * chunk_size) buf (omega arith))

  pub footer-replied :
      (k j : ℕ) (old r : List ℕ)
      → j < k
      → k ≤ max_tx_chunks
      → length old ≡ spi_data_buf_size
      → length r ≡ k * chunk_size
      → footer_of j (overwrite old r) ≡ footer_of j r
  footer-replied k j old r lt le b l =
      ap from_be32
        (slice-overwrite 4 (j * 68 + 64) (k * chunk_size) old r l (omega arith) (omega arith))

  pub transfer_round-steps :
      (len : ℕ) (t t1 t2 : Tc6 D)
      → prepare_round t ≡ (ok len, t1)
      → 1 ≤ len
      → spi_transfer os data_header len t1 ≡ (ok tt, t2)
      → transfer_round os t ≡ process_reply os len t2
  unfolding transfer_round
  transfer_round-steps len t t1 t2 e h sent =
      let more : (len == 0) ≡ false = ground arith in rw (e, more, sent) refl

  pub transfer_round-none :
      (t t1 : Tc6 D) → prepare_round t ≡ (ok 0, t1) → transfer_round os t ≡ (ok finished, t1)
  unfolding transfer_round
  transfer_round-none t t1 e = rw e refl

  pub nothing_left :
      (t : Tc6 D)
      → IsSendable t
      → chunks_left t ≡ 0
      → (t.ongoing_tx_skb ≡ none) × (t.waiting_tx_skb ≡ none)
  nothing_left t v e = ground (arith, v.ongoing, v.waiting)

  pub nothing_queued :
      (t : Tc6 D) → t.ongoing_tx_skb ≡ none → t.waiting_tx_skb ≡ none → outstanding t ≡ []
  nothing_queued t o w = ground arith

  -- With nothing to send, to receive or to serve, a round leaves the loop.
  pub idle_round :
      (t : Tc6 D)
      → t.ongoing_tx_skb ≡ none
      → t.waiting_tx_skb ≡ none
      → t.rx_chunks_available ≡ 0
      → t.int_flag ≡ false
      → prepare_round t ≡ (ok 0, record t { spi_data_tx_buf_offset = 0 })
  unfolding prepare_round prepare_tx prepare_spi_tx_buf_for_rx_chunks serve_interrupt
  idle_round t o w r i = ground arith

  pub try-finished :
      (n : ℕ) (t t' : Tc6 D)
      → transfer_round os t ≡ (ok finished, t')
      → try_spi_transfer os (suc n) t ≡ (ok finished, t')
  unfolding try_spi_transfer
  try-finished n t t' e = rw e refl

  pub try-again :
      (n : ℕ) (t t' : Tc6 D)
      → transfer_round os t ≡ (ok again, t')
      → try_spi_transfer os (suc n) t ≡ try_spi_transfer os n t'
  unfolding try_spi_transfer
  try-again n t t' e = rw e refl
