-- ===== src/IoctlTool.antt =====
-- The ioctl tool examples/ioctl/ioctl.c over the character device: one register access, with the
-- register address from the memory map and the offset.
pub mod Access
pub mod Tables
pub mod Maps
pub mod Main
pub mod Dump
use base_t1s.Prelude.{
  ℕ, ◌*◌, ◌%◌, ◌^◌, bit_or, Bool, true, false, M, Outcome, ok, err, pure, if◌then◌else◌,
}
use base_t1s.Word.{u32}
use base_t1s.Tc6.Bus.{RegisterBus}
use base_t1s.Lan865x.Chardev.{Reg, read_reg, write_reg, chardev_ioctl}

-- `enum oper_type`; its last value only counts the others.
pub data OperType : Type 0 where
  read_operation write_operation mms_operation : OperType

unfoldable pub reg_addr : ℕ → ℕ → ℕ
reg_addr mms addr_offset = u32 (bit_or (mms * 2 ^ 16) (addr_offset % 2 ^ 16))

-- The value returned after the ioctl of a read or of a write; a failure returns 0.
abbrev pub returned : OperType → Outcome Reg → Outcome ℕ
returned read_operation (ok reg) = ok (reg.value % 2 ^ 16)
returned write_operation (ok reg) = ok 0
returned mms_operation (ok reg) = ok 0
returned op (err e) = ok 0
returned op Outcome.fault = Outcome.fault

module _ {S : Type 0} (bus : RegisterBus S) where
  -- The `switch` over the operation.
  abbrev pub perform : OperType → Reg → M S Reg
  perform read_operation reg = chardev_ioctl bus read_reg true true reg
  perform write_operation reg = chardev_ioctl bus write_reg true true reg
  perform mms_operation reg = pure reg

  -- `opened` says whether the device file can be opened; the copies between the tool and the driver
  -- are complete.
  unfoldable pub do_ioctl : Bool → ℕ → ℕ → ℕ → OperType → M S ℕ
  do_ioctl false mms addr_offset value operation s = (ok 0, s)
  do_ioctl true mms addr_offset value operation s =
      let r =
        perform operation (record { addr = reg_addr mms addr_offset; value = value % 2 ^ 16 }) s in
      (returned operation r.0, r.1)
