-- ===== src/Tests/Framework.antt =====
-- The theorems on src/linux/drivers/net/ethernet/oa_tc6.c at concrete inputs.
use base_t1s.Prelude.{
  ℕ, ◌+◌, ◌*◌, ◌%◌, ◌^◌, ◌≤◌, ◌<◌, true, [], none, Outcome, ok, err, ◌≡◌, refl, arith, ◌⊎◌, inl,
  take, drop, length-replicate, enodev, eproto, eagain, from_bool,
}
use base_t1s.Tests.Inputs.{queued, queued-HasBuffers, queued-IsSendable}
use base_t1s.Word.{field_get, bit_get}
use base_t1s.Tc6.Parity.{get_parity, ones}
use base_t1s.Tc6.Parity.Ones.{get_parity-ones}
use base_t1s.Tc6.State.{Tc6, spi_data_buf_size, chunk_size}
use base_t1s.Tc6.Ctrl.{
  ctrl_reg_write, op_bit, ctrl_header_word, check_ctrl_write_reply, calculate_ctrl_buf_size,
}
use base_t1s.Tc6.Ctrl.Header.{ctrl_header_word-decode}
use base_t1s.Tc6.Ctrl.Reply.{
  check_ctrl_write_reply-exact, check_ctrl_write_reply-wraps, check_ctrl_write_reply-runs_over,
}
use base_t1s.Tc6.Tx.{data_header_word, prepare_spi_tx_buf_for_tx_skbs}
use base_t1s.Tc6.Tx.Header.{data_header_word-decode}
use base_t1s.Tc6.Tx.Stream.{Sent, outstanding}
use base_t1s.Tc6.Tx.Loop.{prepare_spi_tx_buf_for_tx_skbs-Sent}
use base_t1s.Tc6.Rx.{hwtstamp, load_le32, status0_outcome}
use base_t1s.Tc6.Rx.Footer.{status0_outcome-cases}
use base_t1s.Tc6.Rx.Stamp.{hwtstamp-value}

prepare_spi_tx_buf_for_tx_skbs-Sent_example :
    (k : ℕ) × (t' : Tc6 ℕ) × (prepare_spi_tx_buf_for_tx_skbs queued ≡ (ok (k * chunk_size), t'))
    × (k ≤ 5)
    × Sent k queued t'
    × (k < 5 → outstanding t' ≡ [])
prepare_spi_tx_buf_for_tx_skbs-Sent_example =
    prepare_spi_tx_buf_for_tx_skbs-Sent queued queued-IsSendable refl
      (length-replicate {A = ℕ} spi_data_buf_size 0) (omega arith)

data_header_word-decode_example :
    let w = data_header_word true true true 59 1 in
    (w < 2 ^ 32)
    × (bit_get 31 w ≡ 1)
    × (field_get 30 22 w ≡ 0)
    × (bit_get 21 w ≡ from_bool true)
    × (bit_get 20 w ≡ from_bool true)
    × (field_get 19 15 w ≡ 0)
    × (bit_get 14 w ≡ from_bool true)
    × (field_get 13 8 w ≡ 59)
    × (field_get 7 6 w ≡ 1)
    × (field_get 5 1 w ≡ 0)
    × (ones 32 w % 2 ≡ 1)
data_header_word-decode_example =
    data_header_word-decode true true true 59 1 (omega arith) (omega arith)

get_parity-ones_example : get_parity 0x20000001 ≡ (ones 32 0x20000001 + 1) % 2
get_parity-ones_example = get_parity-ones 0x20000001

ctrl_header_word-decode_example :
    let w = ctrl_header_word 0x10022 2 ctrl_reg_write in
    (w < 2 ^ 32)
    × (bit_get 31 w ≡ 0)
    × (bit_get 29 w ≡ op_bit ctrl_reg_write)
    × (field_get 27 24 w * 2 ^ 16 + field_get 23 8 w ≡ 0x10022)
    × (field_get 7 1 w + 1 ≡ 2)
    × (ones 32 w % 2 ≡ 1)
ctrl_header_word-decode_example =
    ctrl_header_word-decode 0x10022 2 ctrl_reg_write (omega arith) (omega arith) (omega arith)

check_ctrl_write_reply-exact_example :
    let r = check_ctrl_write_reply (calculate_ctrl_buf_size 1) queued in
    let same =
      take (4 + 4 * 1) queued.spi_ctrl_tx_buf ≡ take (4 + 4 * 1) (drop 4 queued.spi_ctrl_rx_buf) in
    (r.1 ≡ queued) × (((r.0 ≡ ok tt) × same) ⊎ ((r.0 ≡ err eproto) × (¬ same)))
check_ctrl_write_reply-exact_example =
    check_ctrl_write_reply-exact queued 1 queued-HasBuffers (omega arith) (omega arith)

check_ctrl_write_reply-wraps_example :
    check_ctrl_write_reply (calculate_ctrl_buf_size 64) queued ≡ (ok tt, queued)
check_ctrl_write_reply-wraps_example =
    check_ctrl_write_reply-wraps queued 64 queued-HasBuffers (omega arith) (omega arith) refl

check_ctrl_write_reply-runs_over_example :
    check_ctrl_write_reply (calculate_ctrl_buf_size 62) queued ≡ (Outcome.fault, queued)
check_ctrl_write_reply-runs_over_example =
    check_ctrl_write_reply-runs_over queued 62 queued-HasBuffers (inl refl)

hwtstamp-value_example : hwtstamp (load_le32 0 0 0 9) (load_le32 0 0 1 200) ≡ 9000000264
hwtstamp-value_example = hwtstamp-value 0 0 0 9 0 0 1 200 (omega arith) (omega arith)

status0_outcome-cases_example :
    let r = status0_outcome 0x28 queued in
    ((bit_get 3 0x28 ≡ 1) × (r.0 ≡ err eagain) × (r.1.rx_buf_overflow ≡ true) × (r.1.rx_skb ≡ none))
    ⊎ ((bit_get 3 0x28 ≡ 0)
        × (r.1 ≡ queued)
        × ((r.0 ≡ ok tt) × (bit_get 0 0x28 ≡ 0) × (bit_get 4 0x28 ≡ 0) × (bit_get 5 0x28 ≡ 0)
            ⊎ (r.0 ≡ err enodev)
              × ((bit_get 0 0x28 ≡ 1) ⊎ (bit_get 4 0x28 ≡ 1) ⊎ (bit_get 5 0x28 ≡ 1))))
status0_outcome-cases_example = status0_outcome-cases 0x28 queued
