-- ===== src/Tc6/Setup.antt =====
-- The register sequences that set the MAC-PHY up in src/linux/drivers/net/ethernet/oa_tc6.c.
pub mod Lan8650
pub mod Init
use base_t1s.Prelude.{
  ℕ, zero, suc, ◌^◌, bit_or, M, Outcome, ok, err, ◌>>=◌, ◌>>◌, ◌==◌, true, false, enodev,
}
use base_t1s.Word.{bit_get}
use base_t1s.Tc6.Bus.{RegisterBus}

-- The value that a failed read of STATUS0 stands for is 0.
abbrev status0_or_zero : Outcome ℕ → Outcome ℕ
status0_or_zero (ok regval) = ok regval
status0_or_zero (err e) = ok 0
status0_or_zero Outcome.fault = Outcome.fault

module _ {S : Type 0} (bus : RegisterBus S) where
  open bus use {read_register, write_register}

  unfoldable pub read_status0 : M S ℕ
  read_status0 t = let r = read_register 0x0008 t in (status0_or_zero r.0, r.1)

  -- `readx_poll_timeout`, with the number of reads that the timeout leaves room for.
  unfoldable pub poll_status0 : ℕ → M S ℕ
  poll_status0 zero t = (err enodev, t)
  poll_status0 (suc n) t =
      (read_status0 >>= λ regval. elim (bit_get 6 regval == 1) [
        | true ↦ (λ s. (ok regval, s))
        | false ↦ poll_status0 n
      ])
        t

  -- `polls` is the number of reads within STATUS0_RESETC_POLL_TIMEOUT.
  unfoldable pub sw_reset_macphy : ℕ → M S (Unit {0})
  sw_reset_macphy polls =
      write_register 0x0003 1 >> (poll_status0 polls >>= λ regval. write_register 0x0008 regval)

  unfoldable pub unmask_macphy_error_interrupts : M S (Unit {0})
  unmask_macphy_error_interrupts = read_register 0x000C >>= λ regval. write_register 0x000C regval

  unfoldable pub enable_data_transfer : M S (Unit {0})
  enable_data_transfer =
      read_register 0x0004 >>= λ value. write_register 0x0004 (bit_or value (2 ^ 15))

  unfoldable pub zero_align_receive_frame_enable : M S (Unit {0})
  zero_align_receive_frame_enable =
      read_register 0x0004 >>= λ regval. write_register 0x0004 (bit_or regval (2 ^ 12))
