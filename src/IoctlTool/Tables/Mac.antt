-- ===== src/IoctlTool/Tables/Mac.antt =====
-- MMS1, the MAC registers of examples/ioctl/ioctl.h: the enumeration and the table.
use Prim.Native.String.{String}
use base_t1s.Prelude.{ℕ, List, [], ◌∷◌, ◌≡◌, refl}
use base_t1s.IoctlTool.Tables.{RegInfo, entries_at}

pub data MacRegister : Type 0 where
  mac_ncr mac_ncfgr mac_hrb mac_hrt mac_sab1 mac_sat1 : MacRegister
  mac_sab2 mac_sat2 mac_sab3 mac_sat3 mac_sab4 mac_sat4 : MacRegister
  mac_tidm1 mac_tidm2 mac_tidm3 mac_tidm4 mac_samb1 mac_samt1 : MacRegister
  mac_tisubn mac_tsh mac_tsl mac_tn mac_ta mac_ti : MacRegister
  bmgr_ctl stats0 stats1 stats2 stats3 stats4 : MacRegister
  stats5 stats6 stats7 stats8 stats9 stats10 : MacRegister
  stats11 stats12 : MacRegister

abbrev pub address : MacRegister → ℕ
address mac_ncr = 0x0
address mac_ncfgr = 0x1
address mac_hrb = 0x20
address mac_hrt = 0x21
address mac_sab1 = 0x22
address mac_sat1 = 0x23
address mac_sab2 = 0x24
address mac_sat2 = 0x25
address mac_sab3 = 0x26
address mac_sat3 = 0x27
address mac_sab4 = 0x28
address mac_sat4 = 0x29
address mac_tidm1 = 0x2A
address mac_tidm2 = 0x2B
address mac_tidm3 = 0x2C
address mac_tidm4 = 0x2D
address mac_samb1 = 0x32
address mac_samt1 = 0x33
address mac_tisubn = 0x6F
address mac_tsh = 0x70
address mac_tsl = 0x74
address mac_tn = 0x75
address mac_ta = 0x76
address mac_ti = 0x77
address bmgr_ctl = 0x200
address stats0 = 0x208
address stats1 = 0x209
address stats2 = 0x20A
address stats3 = 0x20B
address stats4 = 0x20C
address stats5 = 0x20D
address stats6 = 0x20E
address stats7 = 0x20F
address stats8 = 0x210
address stats9 = 0x211
address stats10 = 0x212
address stats11 = 0x213
address stats12 = 0x214

abbrev pub desc : MacRegister → String
desc mac_ncr = "Network Control Register"
desc mac_ncfgr = "Network Configuration Register"
desc mac_hrb = "Hash Register Bottom"
desc mac_hrt = "Hash Register Top"
desc mac_sab1 = "Specific Address 1 Bottom"
desc mac_sat1 = "Specific Address 1 Top"
desc mac_sab2 = "Specific Address 2 Bottom"
desc mac_sat2 = "Specific Address 2 Top"
desc mac_sab3 = "Specific Address 3 Bottom"
desc mac_sat3 = "Specific Address 3 Top"
desc mac_sab4 = "Specific Address 4 Bottom"
desc mac_sat4 = "Specific Address 4 Top"
desc mac_tidm1 = "MAC Type ID Match 1"
desc mac_tidm2 = "MAC Type ID Match 2"
desc mac_tidm3 = "MAC Type ID Match 3"
desc mac_tidm4 = "MAC Type ID Match 4"
desc mac_samb1 = "Specific Address Match 1 Bottom"
desc mac_samt1 = "Specific Address Match 1 Top"
desc mac_tisubn = "Timer Increment Sub-Nanoseconds"
desc mac_tsh = "Timestamp Seconds High"
desc mac_tsl = "Timestamp Seconds Low"
desc mac_tn = "Timestamp Nanoseconds"
desc mac_ta = "TSU Timer Adjust"
desc mac_ti = "TSU Timer Increment"
desc bmgr_ctl = "Buffer Manager Control"
desc stats0 = "Statistics 0"
desc stats1 = "Statistics 1"
desc stats2 = "Statistics 2"
desc stats3 = "Statistics 3"
desc stats4 = "Statistics 4"
desc stats5 = "Statistics 5"
desc stats6 = "Statistics 6"
desc stats7 = "Statistics 7"
desc stats8 = "Statistics 8"
desc stats9 = "Statistics 9"
desc stats10 = "Statistics 10"
desc stats11 = "Statistics 11"
desc stats12 = "Statistics 12"

abbrev pub info : MacRegister → RegInfo
info r = record { desc = desc r; address = address r }

abbrev pub reg_mac : List RegInfo
reg_mac =
    info mac_ncr
    ∷ info mac_ncfgr
    ∷ info mac_hrb
    ∷ info mac_hrt
    ∷ info mac_sab1
    ∷ info mac_sat1
    ∷ info mac_sab2
    ∷ info mac_sat2
    ∷ info mac_sab3
    ∷ info mac_sat3
    ∷ info mac_sab4
    ∷ info mac_sat4
    ∷ info mac_tidm1
    ∷ info mac_tidm2
    ∷ info mac_tidm3
    ∷ info mac_tidm4
    ∷ info mac_samb1
    ∷ info mac_samt1
    ∷ info mac_tisubn
    ∷ info mac_tsh
    ∷ info mac_tsl
    ∷ info mac_tn
    ∷ info mac_ta
    ∷ info mac_ti
    ∷ info bmgr_ctl
    ∷ info stats0
    ∷ info stats1
    ∷ info stats2
    ∷ info stats3
    ∷ info stats4
    ∷ info stats5
    ∷ info stats6
    ∷ info stats7
    ∷ info stats8
    ∷ info stats9
    ∷ info stats10
    ∷ info stats11
    ∷ info stats12
    ∷ []

-- The table has each register once.
pub info-once : (r : MacRegister) → entries_at (info r).address reg_mac ≡ info r ∷ []
unfolding entries_at
info-once mac_ncr = refl
info-once mac_ncfgr = refl
info-once mac_hrb = refl
info-once mac_hrt = refl
info-once mac_sab1 = refl
info-once mac_sat1 = refl
info-once mac_sab2 = refl
info-once mac_sat2 = refl
info-once mac_sab3 = refl
info-once mac_sat3 = refl
info-once mac_sab4 = refl
info-once mac_sat4 = refl
info-once mac_tidm1 = refl
info-once mac_tidm2 = refl
info-once mac_tidm3 = refl
info-once mac_tidm4 = refl
info-once mac_samb1 = refl
info-once mac_samt1 = refl
info-once mac_tisubn = refl
info-once mac_tsh = refl
info-once mac_tsl = refl
info-once mac_tn = refl
info-once mac_ta = refl
info-once mac_ti = refl
info-once bmgr_ctl = refl
info-once stats0 = refl
info-once stats1 = refl
info-once stats2 = refl
info-once stats3 = refl
info-once stats4 = refl
info-once stats5 = refl
info-once stats6 = refl
info-once stats7 = refl
info-once stats8 = refl
info-once stats9 = refl
info-once stats10 = refl
info-once stats11 = refl
info-once stats12 = refl
