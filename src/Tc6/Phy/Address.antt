-- ===== src/Tc6/Phy/Address.antt =====
-- The register addresses of clause 45 devices: the memory map of each device, as the comments at
-- the constants of src/linux/drivers/net/ethernet/oa_tc6.c give it, and the register number below.
use base_t1s.Prelude.{ℕ, ◌+◌, ◌*◌, ◌^◌, ◌<◌, ok, ◌≡◌, refl}
use base_t1s.Word.Bits.{bit_or_disjoint}
use base_t1s.Tc6.Phy.{get_phy_c45_mms, c45_addr}

-- The memory map of each device number: PCS, PMA/PMD, the second vendor device, auto-negotiation
-- and the power unit.
pub data IsMapOf : ℕ → ℕ → Type 0 where
  pcs : IsMapOf 3 2
  pma_pmd : IsMapOf 1 3
  vendor : IsMapOf 31 4
  auto_negotiation : IsMapOf 7 5
  power_unit : IsMapOf 13 6

pub get_phy_c45_mms-IsMapOf :
    {devnum mms : ℕ} → IsMapOf devnum mms → get_phy_c45_mms devnum ≡ ok mms
unfolding get_phy_c45_mms
get_phy_c45_mms-IsMapOf pcs = refl
get_phy_c45_mms-IsMapOf pma_pmd = refl
get_phy_c45_mms-IsMapOf vendor = refl
get_phy_c45_mms-IsMapOf auto_negotiation = refl
get_phy_c45_mms-IsMapOf power_unit = refl

pub c45_addr-value :
    (mms regnum : ℕ) → regnum < 2 ^ 16 → c45_addr mms regnum ≡ mms * 2 ^ 16 + regnum
unfolding c45_addr
c45_addr-value mms regnum lt = bit_or_disjoint 16 mms regnum lt
