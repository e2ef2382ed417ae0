-- ===== src/Lan865x/Clock.antt =====
-- The clock registers in src/linux/drivers/net/ethernet/microchip/lan865x/lan865x_arch.c.
use base_t1s.Prelude.{ℕ, ◌+◌, ◌*◌, ◌/◌, ◌%◌, ◌^◌, bit_or, M, ◌>>=◌, ◌>>◌, pure, enodev}
use base_t1s.Word.{u32, u64}
use base_t1s.Tc6.Bus.{RegisterBus, or_err, write_ignored}

-- The clock from the words of the seconds and the nanoseconds.
unfoldable pub sys_clock : ℕ → ℕ → ℕ
sys_clock sec nsec = u64 (u64 (sec * 1000000000) + nsec % 2 ^ 30)

-- The words that are written: the nanoseconds, the seconds, which the call cuts to 32 bits, and
-- the upper seconds.
unfoldable pub nsec_word : ℕ → ℕ
nsec_word timestamp = u32 (timestamp % 1000000000) % 2 ^ 30

unfoldable pub sec_word : ℕ → ℕ
sec_word timestamp = u32 (timestamp / 1000000000)

unfoldable pub sec_h_word : ℕ → ℕ
sec_h_word timestamp = u32 (timestamp / 1000000000 / 2 ^ 32) % 2 ^ 16

unfoldable pub tisubn_word : ℕ → ℕ
tisubn_word subnano = bit_or (subnano / 2 ^ 8 % 2 ^ 16) (subnano % 2 ^ 8 * 2 ^ 24)

module _ {S : Type 0} (bus : RegisterBus S) where
  open bus use {read_register, write_register}

  unfoldable pub read_or_enodev : ℕ → M S ℕ
  read_or_enodev address t = let r = read_register address t in (or_err enodev r.0, r.1)

  unfoldable pub write_or_enodev : ℕ → ℕ → M S (Unit {0})
  write_or_enodev address value t =
      let r = write_register address value t in (or_err enodev r.0, r.1)

  -- The result `err enodev` is the return value -ENODEV, which the unsigned type of the function
  -- makes a large clock value.
  unfoldable pub get_sys_clock : M S ℕ
  get_sys_clock = do
    nsec ← read_or_enodev 0x00010075
    sec ← read_or_enodev 0x00010074
    sec_h ← read_or_enodev 0x00010070
    pure (sys_clock sec nsec)

  unfoldable pub set_sys_clock : ℕ → M S (Unit {0})
  set_sys_clock timestamp = do
    write_or_enodev 0x00010075 (nsec_word timestamp)
    write_or_enodev 0x00010074 (sec_word timestamp)
    write_or_enodev 0x00010070 (sec_h_word timestamp)

  -- The low byte of the nanoseconds, then the fraction: its upper 16 bits low, its low byte on top.
  unfoldable pub set_sys_clock_ti : ℕ → M S (Unit {0})
  set_sys_clock_ti subnano_b24 = do
    write_ignored bus 0x00010077 (u32 (subnano_b24 / 2 ^ 24) % 2 ^ 8)
    write_ignored bus 0x0001006F (tisubn_word (subnano_b24 % 2 ^ 24))

  unfoldable pub add_sys_clock : ℕ → M S (Unit {0})
  add_sys_clock add_offset = write_ignored bus 0x00010076 (add_offset / 2 ^ 2 % 2 ^ 30)

  unfoldable pub sub_sys_clock : ℕ → M S (Unit {0})
  sub_sys_clock sub_offset = write_ignored bus 0x00010076 (bit_or (2 ^ 31) (sub_offset % 2 ^ 30))
