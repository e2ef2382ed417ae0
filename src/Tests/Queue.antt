-- ===== src/Tests/Queue.antt =====
-- The theorems on the transmit queue and the transfer rounds at concrete inputs.
use base_t1s.Prelude.{
  ℕ, none, ◌*◌, ◌≤◌, ◌<◌, true, false, [], ◌++◌, ok, ◌≡◌, refl, arith, length-replicate, ◌⊎◌,
}
use base_t1s.Tests.Inputs.{quiet, frame, queued, queued-IsSendable}
use base_t1s.Tc6.State.{Tc6, spi_data_buf_size, chunk_size, max_tx_chunks}
use base_t1s.Tc6.Tx.{add_tx_chunk, start_xmit}
use base_t1s.Tc6.Tx.Stream.{Sent, outstanding, sent_part, add_tx_chunk-Sent}
use base_t1s.Tc6.Transfer.{prepare_round, macphy_isr, transfer_round, finished}
use base_t1s.Tc6.Transfer.Loop.{HasNothing, HasWork, transfer_round-finishes}
use base_t1s.Tc6.Transfer.Round.{prepare_round-Sent}
use base_t1s.Tc6.Transfer.Fifo.{
  World, IsFifo, here, next, chunk, isr, xmit, with_chunk, taken_over, Reach-IsFifo,
}

prepare_round-Sent_example :
    (k : ℕ) × (t' : Tc6 ℕ) × (prepare_round queued ≡ (ok (k * chunk_size), t'))
    × (k ≤ max_tx_chunks)
    × (0 ≤ k)
    × (queued.int_flag ≡ true → 1 ≤ k)
    × (t'.int_flag ≡ false)
    × Sent k
        (record queued { spi_data_tx_buf_offset = 0 })
        (record t' { int_flag = queued.int_flag })
    × (k < 5 → outstanding t' ≡ [])
prepare_round-Sent_example =
    prepare_round-Sent queued queued-IsSendable (length-replicate {A = ℕ} spi_data_buf_size 0)
      (omega arith) (omega arith)

-- A frame of 100 bytes of which 64 have been received, and one waiting behind it.
abbrev two_frames : World ℕ
two_frames = record {
  tc6 = queued;
  part = sent_part queued;
  accepted = outstanding queued;
  delivered = [];
}

two_frames-IsFifo : IsFifo two_frames
two_frames-IsFifo = record { order = refl; part = refl; sendable = queued-IsSendable }

-- The rest of the first frame is written.
abbrev written : (t' : Tc6 ℕ) × (add_tx_chunk (frame 100) queued ≡ (ok tt, t')) × Sent 1 queued t'
written =
    add_tx_chunk-Sent (frame 100) queued refl queued-IsSendable
      (omega (arith, length-replicate {A = ℕ} spi_data_buf_size 0))

-- Behind it comes an interrupt, and then a frame from the network stack.
abbrev after_chunk : World ℕ
after_chunk = with_chunk two_frames written.0

abbrev after_isr : World ℕ
after_isr = record after_chunk { tc6 = macphy_isr written.0 }

Reach-IsFifo_example : IsFifo (record after_isr {
  tc6 = (start_xmit quiet (frame 80) 0 (macphy_isr written.0)).1;
  accepted = after_isr.accepted ++ taken_over quiet (frame 80) (macphy_isr written.0);
})
Reach-IsFifo_example = Reach-IsFifo {os = quiet} two_frames-IsFifo (
    next
      (next
        (next here (
          chunk two_frames (frame 100) written.0
            (omega (arith, length-replicate {A = ℕ} spi_data_buf_size 0)) refl written.1))
        (isr after_chunk))
      (xmit after_isr (frame 80) 0 (omega arith)))

-- Nothing to be sent or received.
abbrev drained : Tc6 ℕ
drained = record queued { ongoing_tx_skb = none; waiting_tx_skb = none; tx_skb_offset = 0 }

transfer_round-finishes_example :
    (HasNothing drained
      × ((t' : Tc6 ℕ) × (transfer_round quiet drained ≡ (ok finished, t'))
          × (outstanding t' ≡ outstanding drained)))
    ⊎ (HasWork drained × (¬ ((transfer_round quiet drained).0 ≡ ok finished)))
transfer_round-finishes_example =
    transfer_round-finishes quiet drained
      (record { ongoing = refl; waiting = refl; size = queued-IsSendable.size })
      (length-replicate {A = ℕ} spi_data_buf_size 0) (omega arith) (omega arith)
