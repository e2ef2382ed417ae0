-- ===== src/Lan865x/Chardev.antt =====
-- The character device of src/linux/drivers/net/ethernet/microchip/lan865x/lan865x.c, through which
-- user space reads and writes registers. `struct lan865x_reg` is in lan865x_ioctl.h.
use base_t1s.Prelude.{ℕ, Bool, M, ok, err, ◌>>=◌, ◌>>◌, pure, if◌then◌else◌, efault, enotty}
use base_t1s.Tc6.Bus.{RegisterBus}

pub record Reg : Type 0 where
  pub addr : ℕ
  pub value : ℕ

-- LAN865X_READ_REG, LAN865X_WRITE_REG or another command.
pub data ChardevCmd : Type 0 where
  read_reg write_reg other_request : ChardevCmd

module _ {S : Type 0} (bus : RegisterBus S) where
  open bus use {read_register, write_register}

  -- `copied_in` and `copied_out` say whether the copies from and to user space are complete. The
  -- result is the structure as user space has it afterwards.
  unfoldable pub chardev_ioctl : ChardevCmd → Bool → Bool → Reg → M S Reg
  chardev_ioctl read_reg copied_in copied_out reg s =
      if copied_in
      then (read_register reg.addr >>= λ value s'.
            (if copied_out then ok (record { addr = reg.addr; value = value }) else err efault, s'))
          s
      else (err efault, s)
  chardev_ioctl write_reg copied_in copied_out reg s =
      if copied_in then (write_register reg.addr reg.value >> pure reg) s else (err efault, s)
  chardev_ioctl other_request copied_in copied_out reg s = (err enotty, s)
