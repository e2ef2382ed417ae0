-- ===== src/IoctlTool/Maps.antt =====
-- The memory maps of examples/ioctl/ioctl.h and their tables.
use base_t1s.Prelude.{ℕ, List, [], ◌∷◌, ◌≡◌, Option, some, none, ◌==◌, if◌then◌else◌}
use base_t1s.IoctlTool.Tables.{RegInfo, entries_at}
use base_t1s.IoctlTool.Tables.OpenAlliance
use base_t1s.IoctlTool.Tables.Mac
use base_t1s.IoctlTool.Tables.PhyPcs
use base_t1s.IoctlTool.Tables.PhyPmaPmd
use base_t1s.IoctlTool.Tables.PhyVendor
use base_t1s.IoctlTool.Tables.Miscellaneous

-- MMS0 to MMS4 and MMS10.
pub data Mms : Type 0 where
  mms0 mms1 mms2 mms3 mms4 mms10 : Mms

abbrev pub mms_value : Mms → ℕ
mms_value mms0 = 0
mms_value mms1 = 1
mms_value mms2 = 2
mms_value mms3 = 3
mms_value mms4 = 4
mms_value mms10 = 10

-- The `case` of the number of a memory map.
unfoldable pub mms_case : ℕ → Option Mms
mms_case n =
    if n == 0
    then some mms0
    else if n == 1
    then some mms1
    else if n == 2
    then some mms2
    else if n == 3
    then some mms3
    else if n == 4
    then some mms4
    else if n == 10
    then some mms10
    else none

-- The `switch` of `read_register_in_mms`.
abbrev pub reginfo_of : Mms → List RegInfo
reginfo_of mms0 = OpenAlliance.reg_open_alliance
reginfo_of mms1 = Mac.reg_mac
reginfo_of mms2 = PhyPcs.reg_phy_pcs
reginfo_of mms3 = PhyPmaPmd.reg_phy_pma_pmd
reginfo_of mms4 = PhyVendor.reg_phy_vendor_specific
reginfo_of mms10 = Miscellaneous.reg_miscellaneous

-- A register of any of the enumerations.
pub data ToolRegister : Type 0 where
  in_open_alliance : OpenAlliance.OaRegister → ToolRegister
  in_mac : Mac.MacRegister → ToolRegister
  in_phy_pcs : PhyPcs.PcsRegister → ToolRegister
  in_phy_pma_pmd : PhyPmaPmd.PmaPmdRegister → ToolRegister
  in_phy_vendor : PhyVendor.VendorRegister → ToolRegister
  in_miscellaneous : Miscellaneous.MiscRegister → ToolRegister

abbrev pub map_of : ToolRegister → Mms
map_of (in_open_alliance r) = mms0
map_of (in_mac r) = mms1
map_of (in_phy_pcs r) = mms2
map_of (in_phy_pma_pmd r) = mms3
map_of (in_phy_vendor r) = mms4
map_of (in_miscellaneous r) = mms10

abbrev pub info_of : ToolRegister → RegInfo
info_of (in_open_alliance r) = OpenAlliance.info r
info_of (in_mac r) = Mac.info r
info_of (in_phy_pcs r) = PhyPcs.info r
info_of (in_phy_pma_pmd r) = PhyPmaPmd.info r
info_of (in_phy_vendor r) = PhyVendor.info r
info_of (in_miscellaneous r) = Miscellaneous.info r

-- Its table has it once.
pub info_of-once :
    (r : ToolRegister) → entries_at (info_of r).address (reginfo_of (map_of r)) ≡ info_of r ∷ []
info_of-once (in_open_alliance r) = OpenAlliance.info-once r
info_of-once (in_mac r) = Mac.info-once r
info_of-once (in_phy_pcs r) = PhyPcs.info-once r
info_of-once (in_phy_pma_pmd r) = PhyPmaPmd.info-once r
info_of-once (in_phy_vendor r) = PhyVendor.info-once r
info_of-once (in_miscellaneous r) = Miscellaneous.info-once r
