-- ===== src/Tc6/Setup/Lan8650.antt =====
-- The configuration of the LAN8650 in src/linux/drivers/net/ethernet/oa_tc6.c: `indirect_read`,
-- `set_macphy_register` and `init_lan865x`.
pub mod Trim
use base_t1s.Prelude.{
  ℕ, ◌+◌, ◌-◌, ◌*◌, ◌%◌, ◌^◌, bit_or, bit_and, List, [], ◌∷◌, M, ok, ◌>>=◌, ◌>>◌, pure, ◌==◌,
  if◌then◌else◌,
}
use base_t1s.Word.{u8, u16, bit_get}
use base_t1s.Tc6.Bus.{RegisterBus, write_ignored, read_or_old}

-- `offset1` and `offset2`: the five bits as a signed number, in a `char` of eight bits.
unfoldable pub trim_offset : ℕ → ℕ
trim_offset value = if bit_get 4 value == 0 then value else u8 (value + 2 ^ 8 - 32)

-- `(base + offset) & VALUE_OFFSET_MASK`; the sum of an `int` and a `char` has its low bits from
-- those of the `char`, signed or not.
unfoldable pub trim_field : ℕ → ℕ → ℕ
trim_field base offset = (base + offset) % 2 ^ 6

unfoldable pub cfgparam1 : ℕ → ℕ
cfgparam1 value1 =
    let offset1 = trim_offset value1 in
    bit_or (bit_or (u16 (trim_field 9 offset1 * 2 ^ 10)) (u16 (trim_field 14 offset1 * 2 ^ 4))) 0x03

unfoldable pub cfgparam2 : ℕ → ℕ
cfgparam2 value2 = u16 (trim_field 40 (trim_offset value2) * 2 ^ 10)

-- The registers that `set_macphy_register` writes, in order, with their values.
unfoldable pub macphy_settings : ℕ → ℕ → List (ℕ × ℕ)
macphy_settings param1 param2 =
    (0x000400d0, 0x3F31)
    ∷ (0x000400e0, 0xC000)
    ∷ (0x00040084, param1)
    ∷ (0x0004008a, param2)
    ∷ (0x000400e9, 0x9E50)
    ∷ (0x000400f5, 0x1CF8)
    ∷ (0x000400f4, 0xC020)
    ∷ (0x000400f8, 0xB900)
    ∷ (0x000400f9, 0x4E53)
    ∷ (0x00040081, 0x0080)
    ∷ (0x00040091, 0x9660)
    ∷ (0x00040077, 0x0028)
    ∷ (0x00040043, 0x00FF)
    ∷ (0x00040044, 0xFFFF)
    ∷ (0x00040045, 0x0000)
    ∷ (0x00040053, 0x00FF)
    ∷ (0x00040054, 0xFFFF)
    ∷ (0x00040055, 0x0000)
    ∷ (0x00040040, 0x0002)
    ∷ (0x00040050, 0x0002)
    ∷ []

module _ {S : Type 0} (bus : RegisterBus S) where
  open bus use {read_register, write_register}

  unfoldable pub write_all_ignored : List (ℕ × ℕ) → M S (Unit {0})
  write_all_ignored [] s = (ok tt, s)
  write_all_ignored ((address, value) ∷ rest) s =
      (write_ignored bus address value >> write_all_ignored rest) s

  -- `stale` is what stands in the local variable `regval` before the read.
  unfoldable pub indirect_read : ℕ → ℕ → ℕ → M S ℕ
  indirect_read stale addr mask = do
    write_ignored bus 0x000400d8 addr
    write_ignored bus 0x000400da 0x2
    regval ← read_or_old bus stale 0x000400d9
    pure (u8 (bit_and regval mask))

  unfoldable pub set_macphy_register : ℕ → M S (Unit {0})
  set_macphy_register stale = do
    value1 ← indirect_read stale 0x04 0x1F
    value2 ← indirect_read stale 0x08 0x1F
    write_all_ignored (macphy_settings (cfgparam1 value1) (cfgparam2 value2))

  -- The part of `init_lan865x` behind `set_macphy_register`; `regval` is the variable so far.
  unfoldable pub finish_init_lan865x : ℕ → M S (Unit {0})
  finish_init_lan865x regval = do
    write_ignored bus 0x0004CA01 0x00008000
    write_ignored bus 0x00010001 0x000000C0
    write_ignored bus 0x00010000 0x0000000C
    write_ignored bus 0x00010077 0x28
    config0 ← read_or_old bus regval 0x00000004
    let config = bit_or (bit_or (bit_or config0 (2 ^ 15)) (2 ^ 7)) (2 ^ 6)
    write_ignored bus 0x00000004 config
    status0 ← read_or_old bus config 0x00000008
    write_ignored bus 0x00000008 (bit_and status0 (2 ^ 32 - 1 - 2 ^ 6))

  unfoldable pub init_lan865x : ℕ → M S (Unit {0})
  init_lan865x stale = do
    status0 ← read_register 0x0008
    write_register 0x0008 (bit_or status0 (2 ^ 6))
    cdctl0 ← read_register 0x00040087
    write_register 0x00040087 (bit_or cdctl0 (2 ^ 15))
    set_macphy_register stale
    finish_init_lan865x (bit_or cdctl0 (2 ^ 15))
