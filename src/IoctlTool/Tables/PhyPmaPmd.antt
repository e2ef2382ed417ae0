-- ===== src/IoctlTool/Tables/PhyPmaPmd.antt =====
-- MMS3, the PHY PMA and PMD registers of examples/ioctl/ioctl.h: the enumeration and the table.
use Prim.Native.String.{String}
use base_t1s.Prelude.{ℕ, List, [], ◌∷◌, ◌≡◌, refl}
use base_t1s.IoctlTool.Tables.{RegInfo, entries_at}

pub data PmaPmdRegister : Type 0 where
  t1pmapmdexta t1pmapmdctl t1spmactl t1spmasts t1ststctl : PmaPmdRegister

abbrev pub address : PmaPmdRegister → ℕ
address t1pmapmdexta = 0x12
address t1pmapmdctl = 0x834
address t1spmactl = 0x8F9
address t1spmasts = 0x8FA
address t1ststctl = 0x8FB

abbrev pub desc : PmaPmdRegister → String
desc t1pmapmdexta = "BASE-T1 PMA/PMD Extended Ability"
desc t1pmapmdctl = "BASE-T1 PMA/PMD Control"
desc t1spmactl = "10BASE-T1S PMA Control"
desc t1spmasts = "10BASE-T1S PMA Status"
desc t1ststctl = "10BASE-T1S Test Mode Control"

abbrev pub info : PmaPmdRegister → RegInfo
info r = record { desc = desc r; address = address r }

abbrev pub reg_phy_pma_pmd : List RegInfo
reg_phy_pma_pmd =
    info t1pmapmdexta ∷ info t1pmapmdctl ∷ info t1spmactl ∷ info t1spmasts ∷ info t1ststctl ∷ []

-- The table has each register once.
pub info-once : (r : PmaPmdRegister) → entries_at (info r).address reg_phy_pma_pmd ≡ info r ∷ []
unfolding entries_at
info-once t1pmapmdexta = refl
info-once t1pmapmdctl = refl
info-once t1spmactl = refl
info-once t1spmasts = refl
info-once t1ststctl = refl
