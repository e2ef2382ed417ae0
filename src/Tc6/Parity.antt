-- ===== src/Tc6/Parity.antt =====
-- `oa_tc6_get_parity` (src/linux/drivers/net/ethernet/oa_tc6.c): the parity bit of a header.
pub mod Ones
use base_t1s.Prelude.{ℕ, zero, suc, ◌+◌, ◌*◌, ◌/◌, ◌%◌, ◌^◌, bit_and, bit_xor, ◌==◌, from_bool}
use base_t1s.Word.{u32}

-- The shifts and the product are done in `u32`; `!x` is 1 exactly at `x == 0`.
pub get_parity : ℕ → ℕ
get_parity p0 =
    let p1 = bit_xor p0 (p0 / 2 ^ 1) in
    let p2 = bit_xor p1 (p1 / 2 ^ 2) in
    let p3 = u32 (bit_and p2 0x11111111 * 0x11111111) in from_bool (bit_and (p3 / 2 ^ 28) 1 == 0)

-- How many of the lowest `n` bits are set.
unfoldable pub ones : ℕ → ℕ → ℕ
ones zero w = 0
ones (suc n) w = w % 2 + ones n (w / 2)
