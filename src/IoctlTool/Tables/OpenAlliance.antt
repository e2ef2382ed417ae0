-- ===== src/IoctlTool/Tables/OpenAlliance.antt =====
-- MMS0, the Open Alliance registers of examples/ioctl/ioctl.h: the enumeration and the table.
use Prim.Native.String.{String}
use base_t1s.Prelude.{ℕ, List, [], ◌∷◌, ◌≡◌, refl}
use base_t1s.IoctlTool.Tables.{RegInfo, entries_at}

pub data OaRegister : Type 0 where
  oa_id oa_phyid oa_stdcap oa_reset oa_config0 oa_status0 : OaRegister
  oa_status1 oa_bufsts oa_imask0 oa_imask1 ttscah ttscal : OaRegister
  ttscbh ttscbl ttscch ttsccl basic_control basic_status : OaRegister
  phy_id1 phy_id2 mmdctrl mmdad : OaRegister

abbrev pub address : OaRegister → ℕ
address oa_id = 0x0
address oa_phyid = 0x1
address oa_stdcap = 0x2
address oa_reset = 0x3
address oa_config0 = 0x4
address oa_status0 = 0x8
address oa_status1 = 0x9
address oa_bufsts = 0xB
address oa_imask0 = 0xC
address oa_imask1 = 0xD
address ttscah = 0x10
address ttscal = 0x11
address ttscbh = 0x12
address ttscbl = 0x13
address ttscch = 0x14
address ttsccl = 0x15
address basic_control = 0xFF00
address basic_status = 0xFF01
address phy_id1 = 0xFF02
address phy_id2 = 0xFF03
address mmdctrl = 0xFF0D
address mmdad = 0xFF0E

abbrev pub desc : OaRegister → String
desc oa_id = "Identification Register"
desc oa_phyid = "PHY Identification Register"
desc oa_stdcap = "Standard Capabilities"
desc oa_reset = "Reset Control and Status Register"
desc oa_config0 = "Configuration 0 Register"
desc oa_status0 = "Status 0 Register"
desc oa_status1 = "Status 1 Register"
desc oa_bufsts = "Buffer Status Register"
desc oa_imask0 = "Interrupt Mask 0 Register"
desc oa_imask1 = "Interrupt Mask 1 Register"
desc ttscah = "Transmit Timestamp Capture A (High)"
desc ttscal = "Transmit Timestamp Capture A (Low)"
desc ttscbh = "Transmit Timestamp Capture B (High)"
desc ttscbl = "Transmit Timestamp Capture B (Low)"
desc ttscch = "Transmit Timestamp Capture C (High)"
desc ttsccl = "Transmit Timestamp Capture C (Low)"
desc basic_control = "Basic Control"
desc basic_status = "Basic Status"
desc phy_id1 = "PHY Identifier 1 Register"
desc phy_id2 = "PHY Identifier 2 Register"
desc mmdctrl = "MMD Access Control Register"
desc mmdad = "MMD Access Address/Data Register"

abbrev pub info : OaRegister → RegInfo
info r = record { desc = desc r; address = address r }

abbrev pub reg_open_alliance : List RegInfo
reg_open_alliance =
    info oa_id
    ∷ info oa_phyid
    ∷ info oa_stdcap
    ∷ info oa_reset
    ∷ info oa_config0
    ∷ info oa_status0
    ∷ info oa_status1
    ∷ info oa_bufsts
    ∷ info oa_imask0
    ∷ info oa_imask1
    ∷ info ttscah
    ∷ info ttscal
    ∷ info ttscbh
    ∷ info ttscbl
    ∷ info ttscch
    ∷ info ttsccl
    ∷ info basic_control
    ∷ info basic_status
    ∷ info phy_id1
    ∷ info phy_id2
    ∷ info mmdctrl
    ∷ info mmdad
    ∷ []

-- The table has each register once.
pub info-once : (r : OaRegister) → entries_at (info r).address reg_open_alliance ≡ info r ∷ []
unfolding entries_at
info-once oa_id = refl
info-once oa_phyid = refl
info-once oa_stdcap = refl
info-once oa_reset = refl
info-once oa_config0 = refl
info-once oa_status0 = refl
info-once oa_status1 = refl
info-once oa_bufsts = refl
info-once oa_imask0 = refl
info-once oa_imask1 = refl
info-once ttscah = refl
info-once ttscal = refl
info-once ttscbh = refl
info-once ttscbl = refl
info-once ttscch = refl
info-once ttsccl = refl
info-once basic_control = refl
info-once basic_status = refl
info-once phy_id1 = refl
info-once phy_id2 = refl
info-once mmdctrl = refl
info-once mmdad = refl
