-- ===== src/IoctlTool/Tables/PhyPcs.antt =====
-- MMS2, the PHY PCS registers of examples/ioctl/ioctl.h: the enumeration and the table.
use Prim.Native.String.{String}
use base_t1s.Prelude.{ℕ, List, [], ◌∷◌, ◌≡◌, refl}
use base_t1s.IoctlTool.Tables.{RegInfo, entries_at}

pub data PcsRegister : Type 0 where
  t1spcsctl t1spcssts t1spcsdiag1 t1spcsdiag2 : PcsRegister

abbrev pub address : PcsRegister → ℕ
address t1spcsctl = 0x8F3
address t1spcssts = 0x8F4
address t1spcsdiag1 = 0x8F5
address t1spcsdiag2 = 0x8F6

abbrev pub desc : PcsRegister → String
desc t1spcsctl = "10BASE-T1S PCS Control"
desc t1spcssts = "10BASE-T1S PCS Status"
desc t1spcsdiag1 = "10BASE-T1S PCS Diagnostic 1"
desc t1spcsdiag2 = "10BASE-T1S PCS Diagnostic 2"

abbrev pub info : PcsRegister → RegInfo
info r = record { desc = desc r; address = address r }

abbrev pub reg_phy_pcs : List RegInfo
reg_phy_pcs = info t1spcsctl ∷ info t1spcssts ∷ info t1spcsdiag1 ∷ info t1spcsdiag2 ∷ []

-- The table has each register once.
pub info-once : (r : PcsRegister) → entries_at (info r).address reg_phy_pcs ≡ info r ∷ []
unfolding entries_at
info-once t1spcsctl = refl
info-once t1spcssts = refl
info-once t1spcsdiag1 = refl
info-once t1spcsdiag2 = refl
