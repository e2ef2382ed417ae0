-- ===== src/Tc6/Phy.antt =====
-- Access to the registers of the PHY in src/linux/drivers/net/ethernet/oa_tc6.c:
-- `oa_tc6_check_phy_reg_direct_access_capability` to `oa_tc6_mdiobus_write_c45`.
pub mod Address
pub mod Access
use base_t1s.Prelude.{
  ℕ, ◌+◌, ◌-◌, ◌*◌, ◌%◌, ◌^◌, bit_or, M, Outcome, ok, err, ◌>>=◌, ltb, ◌==◌, if◌then◌else◌, enodev,
  eopnotsupp,
}
use base_t1s.Word.{u32, bit_get}
use base_t1s.Tc6.Bus.{RegisterBus}

-- A register value returned as an `int`: from 2 ^ 31 on it is negative.
unfoldable pub as_int : ℕ → Outcome ℕ
as_int regval = if ltb regval (2 ^ 31) then ok regval else err (2 ^ 32 - regval)

-- OA_TC6_PHY_STD_REG_ADDR_BASE | (regnum & OA_TC6_PHY_STD_REG_ADDR_MASK).
unfoldable pub std_reg_addr : ℕ → ℕ
std_reg_addr regnum = bit_or 0xFF00 (regnum % 2 ^ 5)

-- The memory map of an MDIO device, by the device numbers of linux/mdio.h.
unfoldable pub get_phy_c45_mms : ℕ → Outcome ℕ
get_phy_c45_mms devnum =
    if devnum == 3
    then ok 2
    else if devnum == 1
    then ok 3
    else if devnum == 31
    then ok 4
    else if devnum == 7
    then ok 5
    else if devnum == 13
    then ok 6
    else err eopnotsupp

-- (ret << 16) | regnum.
unfoldable pub c45_addr : ℕ → ℕ → ℕ
c45_addr mms regnum = bit_or (mms * 2 ^ 16) regnum

-- The result of `oa_tc6_mdiobus_read` from that of the register read, whose status it keeps in a
-- `bool`: any error becomes the return value 1.
unfoldable pub mdiobus_result : Outcome ℕ → Outcome ℕ
mdiobus_result (ok regval) = as_int regval
mdiobus_result (err e) = ok 1
mdiobus_result Outcome.fault = Outcome.fault

module _ {S : Type 0} (bus : RegisterBus S) where
  open bus use {read_register, write_register}

  unfoldable pub check_phy_reg_direct_access_capability : M S (Unit {0})
  check_phy_reg_direct_access_capability =
      read_register 0x0002 >>= λ regval t. (if bit_get 8 regval == 0 then err enodev else ok tt, t)

  unfoldable pub mdiobus_read : ℕ → M S ℕ
  mdiobus_read regnum t = let r = read_register (std_reg_addr regnum) t in (mdiobus_result r.0, r.1)

  unfoldable pub mdiobus_write : ℕ → ℕ → M S (Unit {0})
  mdiobus_write regnum val = write_register (std_reg_addr regnum) val

  unfoldable pub mdiobus_read_c45 : ℕ → ℕ → M S ℕ
  mdiobus_read_c45 devnum regnum = (λ t. (get_phy_c45_mms devnum, t)) >>= λ mms.
      read_register (c45_addr mms regnum) >>= λ regval t. (as_int regval, t)

  unfoldable pub mdiobus_write_c45 : ℕ → ℕ → ℕ → M S (Unit {0})
  mdiobus_write_c45 devnum regnum val =
      (λ t. (get_phy_c45_mms devnum, t)) >>= λ mms. write_register (c45_addr mms regnum) val
