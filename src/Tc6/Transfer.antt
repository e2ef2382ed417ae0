-- ===== src/Tc6/Transfer.antt =====
-- The data transfer loop of src/linux/drivers/net/ethernet/oa_tc6.c: `oa_tc6_try_spi_transfer`,
-- the interrupt handler, and the counts read from the BUFFER_STATUS register.
pub mod Round
pub mod Fifo
pub mod Thread
pub mod Wake
pub mod Loop
pub mod Kept
pub mod Left
pub mod Quiet
pub mod Steps
pub mod Drain
pub mod Deliver
pub mod Duplex
pub mod Service
use base_t1s.Prelude.{
  ℕ, zero, suc, Bool, true, false, ◌&&◌, ◌||◌, not, Option, some, none, M, Outcome, ok, err, ◌>>=◌,
  ◌>>◌, continue, pure, ◌==◌, if◌then◌else◌, eagain,
}
use base_t1s.Word.{field_get}
use base_t1s.Tc6.State.{Tc6, Skb, Platform, chunk_size}
use base_t1s.Tc6.Ctrl.{data_header, spi_transfer, read_register}
use base_t1s.Tc6.Tx.{
  prepare_spi_tx_buf_for_tx_skbs, add_empty_chunks_to_spi_buf, prepare_spi_tx_buf_for_rx_chunks,
}
use base_t1s.Tc6.Rx.{process_spi_data_rx_buf, cleanup_ongoing_rx_skb, cleanup_ongoing_tx_skb}

-- A socket buffer pointer as a condition.
abbrev pub is_set : Option Skb → Bool
is_set none = false
is_set (some skb) = true

-- Whether the `while (true)` of `oa_tc6_try_spi_transfer` has been left.
pub data Progress : Type 0 where
  finished again : Progress

module _ {D : Type 0} where
  unfoldable pub prepare_tx : M (Tc6 D) ℕ
  prepare_tx t =
      if is_set t.ongoing_tx_skb || is_set t.waiting_tx_skb
      then prepare_spi_tx_buf_for_tx_skbs t
      else (ok 0, t)

  -- The block under `int_flag`.
  unfoldable pub serve_interrupt : ℕ → M (Tc6 D) ℕ
  serve_interrupt spi_len t =
      let t1 = record t { int_flag = false } in
      if t.int_flag
      then (if spi_len == 0
          then (add_empty_chunks_to_spi_buf 1 >> pure chunk_size) t1
          else (ok spi_len, t1))
      else (ok spi_len, t)

  -- The body of the loop up to the test of `spi_len`.
  unfoldable pub prepare_round : M (Tc6 D) ℕ
  prepare_round t =
      (prepare_tx >>= λ len. prepare_spi_tx_buf_for_rx_chunks len >>= serve_interrupt)
        (record t { spi_data_tx_buf_offset = 0 })

  unfoldable pub wake_queue : Tc6 D → Tc6 D
  wake_queue t =
      if not (is_set t.waiting_tx_skb) && netdev.queue_stopped
      then record t { netdev = record netdev { queue_stopped = false } }
      else t
    where
      open t use {netdev}

  -- What follows `oa_tc6_process_spi_data_rx_buf`, on its outcome.
  unfoldable pub finish_round : Outcome (Unit {0}) → M (Tc6 D) Progress
  finish_round (ok u) t = (ok again, wake_queue t)
  finish_round (err e) t =
      if e == eagain
      then (ok again, t)
      else (err e, cleanup_ongoing_rx_skb (cleanup_ongoing_tx_skb t))
  finish_round Outcome.fault t = (Outcome.fault, t)

  -- What is left to do after a round.
  abbrev pub unless_finished : M (Tc6 D) Progress → Progress → M (Tc6 D) Progress
  unless_finished m finished = pure finished
  unless_finished m again = m

  unfoldable pub macphy_isr : Tc6 D → Tc6 D
  macphy_isr t = record t { int_flag = true }

  module _ (os : Platform D) where
    unfoldable pub process_reply : ℕ → M (Tc6 D) Progress
    process_reply spi_len t =
        finish_round (process_spi_data_rx_buf os spi_len t).0
          (process_spi_data_rx_buf os spi_len t).1

    unfoldable pub transfer_round : M (Tc6 D) Progress
    transfer_round = prepare_round >>= λ spi_len.
        if spi_len == 0
        then pure finished
        else spi_transfer os data_header spi_len >> process_reply spi_len

    -- At most `n` rounds of the loop; the result `again` says that it has not been left by then.
    unfoldable pub try_spi_transfer : ℕ → M (Tc6 D) Progress
    try_spi_transfer zero t = (ok again, t)
    try_spi_transfer (suc n) t =
        continue (transfer_round t).0 (unless_finished (try_spi_transfer n)) (transfer_round t).1

    unfoldable pub update_buffer_status_from_register : M (Tc6 D) (Unit {0})
    update_buffer_status_from_register = read_register os 0x000B >>= λ value t. (
      ok tt,
      record t { tx_credits = field_get 15 8 value; rx_chunks_available = field_get 7 0 value },
    )
