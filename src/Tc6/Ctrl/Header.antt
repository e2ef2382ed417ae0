-- ===== src/Tc6/Ctrl/Header.antt =====
-- The control header of `oa_tc6_prepare_ctrl_header`: its fields as the MAC-PHY reads them, and
-- its parity.
use base_t1s.Prelude.{ℕ, ◌+◌, ◌-◌, ◌*◌, ◌/◌, ◌%◌, ◌^◌, ◌≤◌, ◌<◌, ◌≡◌, refl, arith}
use base_t1s.Word.{field_get, bit_get, field_prep, u32}
use base_t1s.Word.Bits.{bit_or_sum}
use base_t1s.Tc6.Parity.{get_parity, ones}
use base_t1s.Tc6.Parity.Ones.{parity_bit_sum, parity_bit_odd}
use base_t1s.Tc6.Ctrl.{RegisterOp, op_bit, ctrl_header_fields, ctrl_header_word}

ctrl_header_sum :
    (addr length : ℕ) (op : RegisterOp)
    → ctrl_header_fields addr length op
      ≡ op_bit op % 2 * 2 ^ 29
        + addr / 2 ^ 16 % 16 * 2 ^ 24
        + addr % 2 ^ 16 * 2 ^ 8
        + (length + 2 ^ 32 - 1) % 2 ^ 32 % 128 * 2
unfolding ctrl_header_fields
ctrl_header_sum addr length op =
    rw
      (
        bit_or_sum 30 (field_prep 31 31 0) (field_prep 29 29 (op_bit op)) refl (omega arith),
        bit_or_sum 28 (field_prep 31 31 0 + field_prep 29 29 (op_bit op))
            (field_prep 27 24 (addr / 2 ^ 16)) (omega arith) (omega arith),
        bit_or_sum 24
            (field_prep 31 31 0 + field_prep 29 29 (op_bit op) + field_prep 27 24 (addr / 2 ^ 16))
            (field_prep 23 8 addr) (omega arith) (omega arith),
        bit_or_sum 8
            (field_prep 31 31 0
              + field_prep 29 29 (op_bit op)
              + field_prep 27 24 (addr / 2 ^ 16)
              + field_prep 23 8 addr)
            (field_prep 7 1 (u32 (length + 2 ^ 32 - 1))) (omega arith) (omega arith),
      )
      (omega arith)

header_even : (addr length : ℕ) (op : RegisterOp) → ctrl_header_fields addr length op % 2 ≡ 0
header_even addr length op = omega (arith, ctrl_header_sum addr length op)

header_with_parity :
    (addr length : ℕ) (op : RegisterOp)
    → let h = ctrl_header_fields addr length op in
      (ctrl_header_word addr length op ≡ h + get_parity h) × (get_parity h < 2)
unfolding ctrl_header_word
header_with_parity addr length op =
    parity_bit_sum (ctrl_header_fields addr length op) (header_even addr length op)

header_odd : (addr length : ℕ) (op : RegisterOp) → ones 32 (ctrl_header_word addr length op) % 2 ≡ 1
unfolding ctrl_header_word
header_odd addr length op =
    parity_bit_odd (ctrl_header_fields addr length op) (header_even addr length op)

op_bit-lt : (op : RegisterOp) → op_bit op < 2
op_bit-lt op = ground arith

-- For 1 to 128 registers and a register address of 20 bits, the MAC-PHY reads back the address
-- (memory map selector and offset), the number of registers less one and the direction; the
-- command is marked as control, and the number of set bits of the header is odd.
pub ctrl_header_word-decode :
    (addr length : ℕ) (op : RegisterOp)
    → addr < 2 ^ 20
    → 1 ≤ length
    → length ≤ 128
    → let w = ctrl_header_word addr length op in
      (w < 2 ^ 32)
      × (bit_get 31 w ≡ 0)
      × (bit_get 29 w ≡ op_bit op)
      × (field_get 27 24 w * 2 ^ 16 + field_get 23 8 w ≡ addr)
      × (field_get 7 1 w + 1 ≡ length)
      × (ones 32 w % 2 ≡ 1)
ctrl_header_word-decode addr length op ha h1 h2 =
    let s = ctrl_header_sum addr length op in
    let p = header_with_parity addr length op in
    let b = op_bit-lt op in
    (omega arith, omega arith, omega arith, omega arith, omega arith, header_odd addr length op)
