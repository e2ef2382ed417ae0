-- ===== src/IoctlTool/Tables/Miscellaneous.antt =====
-- MMS10, the miscellaneous registers of examples/ioctl/ioctl.h: the enumeration and the table.
use Prim.Native.String.{String}
use base_t1s.Prelude.{ℕ, List, [], ◌∷◌, ◌≡◌, refl}
use base_t1s.IoctlTool.Tables.{RegInfo, entries_at}

pub data MiscRegister : Type 0 where
  qtxcfg qrxcfg padctrl clkoctl misc devid : MiscRegister
  buspcs cfgprtctl eccctrl eccsts eccfltctrl ec0ctrl : MiscRegister
  ec1ctrl ec2ctrl ec3ctrl ecrdsts ectot ecclksh : MiscRegister
  ecclksl ecclkns ecrdts0 ecrdts1 ecrdts2 ecrdts3 : MiscRegister
  ecrdts4 ecrdts5 ecrdts6 ecrdts7 ecrdts8 ecrdts9 : MiscRegister
  ecrdts10 ecrdts11 ecrdts12 ecrdts13 ecrdts14 ecrdts15 : MiscRegister
  pacyc pactrl eg0stns eg0stsecl eg0stsech eg0pw : MiscRegister
  eg0it eg0ctl eg1stns eg1stsecl eg1stsech eg1pw : MiscRegister
  eg1it eg1ctl eg2stns eg2stsecl eg2stsech eg2pw : MiscRegister
  eg2it eg2ctl eg3stns eg3stsecl eg3stsech eg3pw : MiscRegister
  eg3it eg3ctl ppsctl sevinten sevintdis sevim : MiscRegister
  sevsts : MiscRegister

abbrev pub address : MiscRegister → ℕ
address qtxcfg = 0x81
address qrxcfg = 0x82
address padctrl = 0x88
address clkoctl = 0x89
address misc = 0x8C
address devid = 0x94
address buspcs = 0x96
address cfgprtctl = 0x99
address eccctrl = 0x100
address eccsts = 0x101
address eccfltctrl = 0x102
address ec0ctrl = 0x200
address ec1ctrl = 0x201
address ec2ctrl = 0x202
address ec3ctrl = 0x203
address ecrdsts = 0x204
address ectot = 0x205
address ecclksh = 0x206
address ecclksl = 0x207
address ecclkns = 0x208
address ecrdts0 = 0x209
address ecrdts1 = 0x20A
address ecrdts2 = 0x20B
address ecrdts3 = 0x20C
address ecrdts4 = 0x20D
address ecrdts5 = 0x20E
address ecrdts6 = 0x20F
address ecrdts7 = 0x210
address ecrdts8 = 0x211
address ecrdts9 = 0x212
address ecrdts10 = 0x213
address ecrdts11 = 0x214
address ecrdts12 = 0x215
address ecrdts13 = 0x216
address ecrdts14 = 0x217
address ecrdts15 = 0x218
address pacyc = 0x21F
address pactrl = 0x220
address eg0stns = 0x221
address eg0stsecl = 0x222
address eg0stsech = 0x223
address eg0pw = 0x224
address eg0it = 0x225
address eg0ctl = 0x226
address eg1stns = 0x227
address eg1stsecl = 0x228
address eg1stsech = 0x229
address eg1pw = 0x22A
address eg1it = 0x22B
address eg1ctl = 0x22C
address eg2stns = 0x22D
address eg2stsecl = 0x22E
address eg2stsech = 0x22F
address eg2pw = 0x230
address eg2it = 0x231
address eg2ctl = 0x232
address eg3stns = 0x233
address eg3stsecl = 0x234
address eg3stsech = 0x235
address eg3pw = 0x236
address eg3it = 0x237
address eg3ctl = 0x238
address ppsctl = 0x239
address sevinten = 0x23A
address sevintdis = 0x23B
address sevim = 0x23C
address sevsts = 0x23D

abbrev pub desc : MiscRegister → String
desc qtxcfg = "Queue Transmit Configuration"
desc qrxcfg = "Queue Receive Configuration"
desc padctrl = "Pad Control"
desc clkoctl = "Clock Output Control"
desc misc = "Miscellaneous"
desc devid = "Device Identification"
desc buspcs = "Bus Parity Control and Status"
desc cfgprtctl = "Configuration Protection Control"
desc eccctrl = "SRAM Error Correction Code Control"
desc eccsts = "SRAM Error Correction Code Status"
desc eccfltctrl = "SRAM Error Correction Code Fault Injection Control"
desc ec0ctrl = "Event Capture 0 Control"
desc ec1ctrl = "Event Capture 1 Control"
desc ec2ctrl = "Event Capture 2 Control"
desc ec3ctrl = "Event Capture 3 Control"
desc ecrdsts = "Event Capture Read Status Register"
desc ectot = "Event Capture Total Counts Register"
desc ecclksh = "Event Capture Clock Seconds High Register"
desc ecclksl = "Event Capture Clock Seconds Low Register"
desc ecclkns = "Event Capture Clock Nanoseconds Register"
desc ecrdts0 = "Event Capture Read Timestamp Register 0"
desc ecrdts1 = "Event Capture Read Timestamp Register 1"
desc ecrdts2 = "Event Capture Read Timestamp Register 2"
desc ecrdts3 = "Event Capture Read Timestamp Register 3"
desc ecrdts4 = "Event Capture Read Timestamp Register 4"
desc ecrdts5 = "Event Capture Read Timestamp Register 5"
desc ecrdts6 = "Event Capture Read Timestamp Register 6"
desc ecrdts7 = "Event Capture Read Timestamp Register 7"
desc ecrdts8 = "Event Capture Read Timestamp Register 8"
desc ecrdts9 = "Event Capture Read Timestamp Register 9"
desc ecrdts10 = "Event Capture Read Timestamp Register 10"
desc ecrdts11 = "Event Capture Read Timestamp Register 11"
desc ecrdts12 = "Event Capture Read Timestamp Register 12"
desc ecrdts13 = "Event Capture Read Timestamp Register 13"
desc ecrdts14 = "Event Capture Read Timestamp Register 14"
desc ecrdts15 = "Event Capture Read Timestamp Register 15"
desc pacyc = "Phase Adjuster Cycles Register"
desc pactrl = "Phase Adjuster Control Register"
desc eg0stns = "Event 0 Start Time Nanoseconds Register"
desc eg0stsecl = "Event 0 Start Time Seconds Low Register"
desc eg0stsech = "Event 0 Start Time Seconds High Register"
desc eg0pw = "Event 0 Pulse Width Register"
desc eg0it = "Event 0 Idle Time Register"
desc eg0ctl = "Event Generator 0 Control Register"
desc eg1stns = "Event 1 Start Time Nanoseconds Register"
desc eg1stsecl = "Event 1 Start Time Seconds Low Register"
desc eg1stsech = "Event 1 Start Time Seconds High Register"
desc eg1pw = "Event 1 Pulse Width Register"
desc eg1it = "Event 1 Idle Time Register"
desc eg1ctl = "Event Generator 1 Control Register"
desc eg2stns = "Event 2 Start Time Nanoseconds Register"
desc eg2stsecl = "Event 2 Start Time Seconds Low Register"
desc eg2stsech = "Event 2 Start Time Seconds High Register"
desc eg2pw = "Event 2 Pulse Width Register"
desc eg2it = "Event 2 Idle Time Register"
desc eg2ctl = "Event Generator 2 Control Register"
desc eg3stns = "Event 3 Start Time Nanoseconds Register"
desc eg3stsecl = "Event 3 Start Time Seconds Low Register"
desc eg3stsech = "Event 3 Start Time Seconds High Register"
desc eg3pw = "Event 3 Pulse Width Register"
desc eg3it = "Event 3 Idle Time Register"
desc eg3ctl = "Event Generator 3 Control Register"
desc ppsctl = "One Pulse-per-Second Control Register"
desc sevinten = "Synchronization Event Interrupt Enable Register"
desc sevintdis = "Synchronization Event Interrupt Disable Register"
desc sevim = "Synchronization Event Interrupt Mask Status Register"
desc sevsts = "Synchronization Event Status Register"

abbrev pub info : MiscRegister → RegInfo
info r = record { desc = desc r; address = address r }

abbrev pub reg_miscellaneous : List RegInfo
reg_miscellaneous =
    info qtxcfg
    ∷ info qrxcfg
    ∷ info padctrl
    ∷ info clkoctl
    ∷ info misc
    ∷ info devid
    ∷ info buspcs
    ∷ info cfgprtctl
    ∷ info eccctrl
    ∷ info eccsts
    ∷ info eccfltctrl
    ∷ info ec0ctrl
    ∷ info ec1ctrl
    ∷ info ec2ctrl
    ∷ info ec3ctrl
    ∷ info ecrdsts
    ∷ info ectot
    ∷ info ecclksh
    ∷ info ecclksl
    ∷ info ecclkns
    ∷ info ecrdts0
    ∷ info ecrdts1
    ∷ info ecrdts2
    ∷ info ecrdts3
    ∷ info ecrdts4
    ∷ info ecrdts5
    ∷ info ecrdts6
    ∷ info ecrdts7
    ∷ info ecrdts8
    ∷ info ecrdts9
    ∷ info ecrdts10
    ∷ info ecrdts11
    ∷ info ecrdts12
    ∷ info ecrdts13
    ∷ info ecrdts14
    ∷ info ecrdts15
    ∷ info pacyc
    ∷ info pactrl
    ∷ info eg0stns
    ∷ info eg0stsecl
    ∷ info eg0stsech
    ∷ info eg0pw
    ∷ info eg0it
    ∷ info eg0ctl
    ∷ info eg1stns
    ∷ info eg1stsecl
    ∷ info eg1stsech
    ∷ info eg1pw
    ∷ info eg1it
    ∷ info eg1ctl
    ∷ info eg2stns
    ∷ info eg2stsecl
    ∷ info eg2stsech
    ∷ info eg2pw
    ∷ info eg2it
    ∷ info eg2ctl
    ∷ info eg3stns
    ∷ info eg3stsecl
    ∷ info eg3stsech
    ∷ info eg3pw
    ∷ info eg3it
    ∷ info eg3ctl
    ∷ info ppsctl
    ∷ info sevinten
    ∷ info sevintdis
    ∷ info sevim
    ∷ info sevsts
    ∷ []

-- The table has each register once.
pub info-once : (r : MiscRegister) → entries_at (info r).address reg_miscellaneous ≡ info r ∷ []
unfolding entries_at
info-once qtxcfg = refl
info-once qrxcfg = refl
info-once padctrl = refl
info-once clkoctl = refl
info-once misc = refl
info-once devid = refl
info-once buspcs = refl
info-once cfgprtctl = refl
info-once eccctrl = refl
info-once eccsts = refl
info-once eccfltctrl = refl
info-once ec0ctrl = refl
info-once ec1ctrl = refl
info-once ec2ctrl = refl
info-once ec3ctrl = refl
info-once ecrdsts = refl
info-once ectot = refl
info-once ecclksh = refl
info-once ecclksl = refl
info-once ecclkns = refl
info-once ecrdts0 = refl
info-once ecrdts1 = refl
info-once ecrdts2 = refl
info-once ecrdts3 = refl
info-once ecrdts4 = refl
info-once ecrdts5 = refl
info-once ecrdts6 = refl
info-once ecrdts7 = refl
info-once ecrdts8 = refl
info-once ecrdts9 = refl
info-once ecrdts10 = refl
info-once ecrdts11 = refl
info-once ecrdts12 = refl
info-once ecrdts13 = refl
info-once ecrdts14 = refl
info-once ecrdts15 = refl
info-once pacyc = refl
info-once pactrl = refl
info-once eg0stns = refl
info-once eg0stsecl = refl
info-once eg0stsech = refl
info-once eg0pw = refl
info-once eg0it = refl
info-once eg0ctl = refl
info-once eg1stns = refl
info-once eg1stsecl = refl
info-once eg1stsech = refl
info-once eg1pw = refl
info-once eg1it = refl
info-once eg1ctl = refl
info-once eg2stns = refl
info-once eg2stsecl = refl
info-once eg2stsech = refl
info-once eg2pw = refl
info-once eg2it = refl
info-once eg2ctl = refl
info-once eg3stns = refl
info-once eg3stsecl = refl
info-once eg3stsech = refl
info-once eg3pw = refl
info-once eg3it = refl
info-once eg3ctl = refl
info-once ppsctl = refl
info-once sevinten = refl
info-once sevintdis = refl
info-once sevim = refl
info-once sevsts = refl
