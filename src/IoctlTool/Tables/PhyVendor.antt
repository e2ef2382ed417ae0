-- ===== src/IoctlTool/Tables/PhyVendor.antt =====
-- MMS4, the vendor specific PHY registers of examples/ioctl/ioctl.h: the enumeration and the table.
use Prim.Native.String.{String}
use base_t1s.Prelude.{ℕ, List, [], ◌∷◌, ◌≡◌, refl}
use base_t1s.IoctlTool.Tables.{RegInfo, entries_at}

pub data VendorRegister : Type 0 where
  ctrl1 sts1 sts2 sts3 imsk1 imsk2 : VendorRegister
  ctrctrl tocnth tocntl bcncnth bcncntl multid0 : VendorRegister
  multid1 multid2 multid3 prssts prtmgmt2 iwdtoh : VendorRegister
  iwdtol txmctl txmpath txmpatl txmmskh txmmskl : VendorRegister
  txmloc txmdly rxmctl rxmpath rxmpatl rxmmskh : VendorRegister
  rxmmskl rxmloc rxmdly cbsspthh cbsspthl cbsstthh : VendorRegister
  cbsstthl cbsslpctl cbstplmth cbstplmtl cbsbtlmth cbsbtlmtl : VendorRegister
  cbscrctrh cbscrctrl cbsctrl plcaskpctl plcatoskp acmactl : VendorRegister
  slpctl0 slpctl1 cdctl0 sqictl sqists0 sqicfg0 : VendorRegister
  sqicfg2 analog5 midver plca_ctrl0 plca_ctrl1 plca_sts : VendorRegister
  plca_totmr plca_burst : VendorRegister

abbrev pub address : VendorRegister → ℕ
address ctrl1 = 0x10
address sts1 = 0x18
address sts2 = 0x19
address sts3 = 0x1A
address imsk1 = 0x1C
address imsk2 = 0x1D
address ctrctrl = 0x20
address tocnth = 0x24
address tocntl = 0x25
address bcncnth = 0x26
address bcncntl = 0x27
address multid0 = 0x30
address multid1 = 0x31
address multid2 = 0x32
address multid3 = 0x33
address prssts = 0x36
address prtmgmt2 = 0x3D
address iwdtoh = 0x3E
address iwdtol = 0x3F
address txmctl = 0x40
address txmpath = 0x41
address txmpatl = 0x42
address txmmskh = 0x43
address txmmskl = 0x44
address txmloc = 0x45
address txmdly = 0x49
address rxmctl = 0x50
address rxmpath = 0x51
address rxmpatl = 0x52
address rxmmskh = 0x53
address rxmmskl = 0x54
address rxmloc = 0x55
address rxmdly = 0x59
address cbsspthh = 0x60
address cbsspthl = 0x61
address cbsstthh = 0x62
address cbsstthl = 0x63
address cbsslpctl = 0x64
address cbstplmth = 0x65
address cbstplmtl = 0x66
address cbsbtlmth = 0x67
address cbsbtlmtl = 0x68
address cbscrctrh = 0x69
address cbscrctrl = 0x6A
address cbsctrl = 0x6B
address plcaskpctl = 0x70
address plcatoskp = 0x71
address acmactl = 0x74
address slpctl0 = 0x80
address slpctl1 = 0x81
address cdctl0 = 0x87
address sqictl = 0xA0
address sqists0 = 0xA1
address sqicfg0 = 0xAA
address sqicfg2 = 0xAC
address analog5 = 0xD5
address midver = 0xCA00
address plca_ctrl0 = 0xCA01
address plca_ctrl1 = 0xCA02
address plca_sts = 0xCA03
address plca_totmr = 0xCA04
address plca_burst = 0xCA05

abbrev pub desc : VendorRegister → String
desc ctrl1 = "Control 1 Register"
desc sts1 = "Status 1 Register"
desc sts2 = "Status 2 Register"
desc sts3 = "Status 3 Register"
desc imsk1 = "Interrupt Mask 1 Register"
desc imsk2 = "Interrupt Mask 2 Register"
desc ctrctrl = "Counter Control Register"
desc tocnth = "Transmit Opportunity Count (High)"
desc tocntl = "Transmit Opportunity Count (Low)"
desc bcncnth = "BEACON Count (High)"
desc bcncntl = "BEACON Count (Low)"
desc multid0 = "PLCA Multiple ID 0 Register"
desc multid1 = "PLCA Multiple ID 1 Register"
desc multid2 = "PLCA Multiple ID 2 Register"
desc multid3 = "PLCA Multiple ID 3 Register"
desc prssts = "PLCA Reconciliation Sublayer Status"
desc prtmgmt2 = "Port Management 2"
desc iwdtoh = "Inactivity Watchdog Timeout (High)"
desc iwdtol = "Inactivity Watchdog Timeout (Low)"
desc txmctl = "Transmit Match Control Register"
desc txmpath = "Transmit Match Pattern (High) Register"
desc txmpatl = "Transmit Match Pattern (Low) Register"
desc txmmskh = "Transmit Match Mask (High) Register"
desc txmmskl = "Transmit Match Mask (Low) Register"
desc txmloc = "Transmit Match Location Register"
desc txmdly = "Transmit Matched Packet Delay Register"
desc rxmctl = "Receive Match Control Register"
desc rxmpath = "Receive Match Pattern (High) Register"
desc rxmpatl = "Receive Match Pattern (Low) Register"
desc rxmmskh = "Receive Match Mask (High) Register"
desc rxmmskl = "Receive Match Mask (Low) Register"
desc rxmloc = "Receive Match Location Register"
desc rxmdly = "Receive Matched Packet Delay Register"
desc cbsspthh = "Credit Based Shaper Stop Threshold (High) Register"
desc cbsspthl = "Credit Based Shaper Stop Threshold (Low) Register"
desc cbsstthh = "Credit Based Shaper Start Threshold (High) Register"
desc cbsstthl = "Credit Based Shaper Start Threshold (Low) Register"
desc cbsslpctl = "Credit Based Shaper Slope Control Register"
desc cbstplmth = "Credit Based Shaper Top Limit (High) Register"
desc cbstplmtl = "Credit Based Shaper Top Limit (Low) Register"
desc cbsbtlmth = "Credit Based Shaper Bottom Limit (High) Register"
desc cbsbtlmtl = "Credit Based Shaper Bottom Limit (Low) Register"
desc cbscrctrh = "Credit Based Shaper Credit Counter (High) Register"
desc cbscrctrl = "Credit Based Shaper Credit Counter (Low) Register"
desc cbsctrl = "Credit Based Shaper Control Register"
desc plcaskpctl = "PLCA Skip Control Register"
desc plcatoskp = "PLCA Transmit Opportunity Skip Register"
desc acmactl = "Application Controlled Media Access Control Register"
desc slpctl0 = "Sleep Control 0 Register"
desc slpctl1 = "Sleep Control 1 Register"
desc cdctl0 = "Collision Detector Control 0 Register"
desc sqictl = "SQI Control Register"
desc sqists0 = "SQI Status 0 Register"
desc sqicfg0 = "SQI Configuration 0 Register"
desc sqicfg2 = "SQI Configuration 2 Register"
desc analog5 = "Analog Control 5"
desc midver = "OPEN Alliance Map ID and Version Register"
desc plca_ctrl0 = "PLCA Control 0 Register"
desc plca_ctrl1 = "PLCA Control 1 Register"
desc plca_sts = "PLCA Status Register"
desc plca_totmr = "PLCA Transmit Opportunity Timer Register"
desc plca_burst = "PLCA Burst Mode Register"

abbrev pub info : VendorRegister → RegInfo
info r = record { desc = desc r; address = address r }

abbrev pub reg_phy_vendor_specific : List RegInfo
reg_phy_vendor_specific =
    info ctrl1
    ∷ info sts1
    ∷ info sts2
    ∷ info sts3
    ∷ info imsk1
    ∷ info imsk2
    ∷ info ctrctrl
    ∷ info tocnth
    ∷ info tocntl
    ∷ info bcncnth
    ∷ info bcncntl
    ∷ info multid0
    ∷ info multid1
    ∷ info multid2
    ∷ info multid3
    ∷ info prssts
    ∷ info prtmgmt2
    ∷ info iwdtoh
    ∷ info iwdtol
    ∷ info txmctl
    ∷ info txmpath
    ∷ info txmpatl
    ∷ info txmmskh
    ∷ info txmmskl
    ∷ info txmloc
    ∷ info txmdly
    ∷ info rxmctl
    ∷ info rxmpath
    ∷ info rxmpatl
    ∷ info rxmmskh
    ∷ info rxmmskl
    ∷ info rxmloc
    ∷ info rxmdly
    ∷ info cbsspthh
    ∷ info cbsspthl
    ∷ info cbsstthh
    ∷ info cbsstthl
    ∷ info cbsslpctl
    ∷ info cbstplmth
    ∷ info cbstplmtl
    ∷ info cbsbtlmth
    ∷ info cbsbtlmtl
    ∷ info cbscrctrh
    ∷ info cbscrctrl
    ∷ info cbsctrl
    ∷ info plcaskpctl
    ∷ info plcatoskp
    ∷ info acmactl
    ∷ info slpctl0
    ∷ info slpctl1
    ∷ info cdctl0
    ∷ info sqictl
    ∷ info sqists0
    ∷ info sqicfg0
    ∷ info sqicfg2
    ∷ info analog5
    ∷ info midver
    ∷ info plca_ctrl0
    ∷ info plca_ctrl1
    ∷ info plca_sts
    ∷ info plca_totmr
    ∷ info plca_burst
    ∷ []

-- The table has each register once.
pub info-once :
    (r : VendorRegister) → entries_at (info r).address reg_phy_vendor_specific ≡ info r ∷ []
unfolding entries_at
info-once ctrl1 = refl
info-once sts1 = refl
info-once sts2 = refl
info-once sts3 = refl
info-once imsk1 = refl
info-once imsk2 = refl
info-once ctrctrl = refl
info-once tocnth = refl
info-once tocntl = refl
info-once bcncnth = refl
info-once bcncntl = refl
info-once multid0 = refl
info-once multid1 = refl
info-once multid2 = refl
info-once multid3 = refl
info-once prssts = refl
info-once prtmgmt2 = refl
info-once iwdtoh = refl
info-once iwdtol = refl
info-once txmctl = refl
info-once txmpath = refl
info-once txmpatl = refl
info-once txmmskh = refl
info-once txmmskl = refl
info-once txmloc = refl
info-once txmdly = refl
info-once rxmctl = refl
info-once rxmpath = refl
info-once rxmpatl = refl
info-once rxmmskh = refl
info-once rxmmskl = refl
info-once rxmloc = refl
info-once rxmdly = refl
info-once cbsspthh = refl
info-once cbsspthl = refl
info-once cbsstthh = refl
info-once cbsstthl = refl
info-once cbsslpctl = refl
info-once cbstplmth = refl
info-once cbstplmtl = refl
info-once cbsbtlmth = refl
info-once cbsbtlmtl = refl
info-once cbscrctrh = refl
info-once cbscrctrl = refl
info-once cbsctrl = refl
info-once plcaskpctl = refl
info-once plcatoskp = refl
info-once acmactl = refl
info-once slpctl0 = refl
info-once slpctl1 = refl
info-once cdctl0 = refl
info-once sqictl = refl
info-once sqists0 = refl
info-once sqicfg0 = refl
info-once sqicfg2 = refl
info-once analog5 = refl
info-once midver = refl
info-once plca_ctrl0 = refl
info-once plca_ctrl1 = refl
info-once plca_sts = refl
info-once plca_totmr = refl
info-once plca_burst = refl
