-- ===== src/IoctlTool/Main.antt =====
-- The dump of a memory map, and the main function of examples/ioctl/ioctl.c. What a line shows is a
-- value; `strtoul` is a parameter, the number that it gives for an argument.
use Prim.Native.String.{String}
use text.Mathlib.Text.{◌==◌}
use base_t1s.Prelude.{
  ℕ, ◌%◌, ◌^◌, Bool, List, [], ◌∷◌, Option, some, none, M, ◌>>=◌, pure, if◌then◌else◌,
}
use base_t1s.Tc6.Bus.{RegisterBus}
use base_t1s.IoctlTool.{OperType, read_operation, write_operation, mms_operation, do_ioctl}
use base_t1s.IoctlTool.Tables.{RegInfo}
use base_t1s.IoctlTool.Maps.{Mms, mms_case, reginfo_of}

-- A line of the dump.
pub record DumpLine : Type 0 where
  pub address : ℕ
  pub value : ℕ
  pub desc : String

-- What the tool prints before it ends: nothing, a register (its memory map, offset and value), or
-- the lines of a dump.
pub data Printed : Type 0 where
  nothing : Printed
  one_register : ℕ → ℕ → ℕ → Printed
  dump : List DumpLine → Printed

-- The options of the command line: the word behind `-o`, the numbers behind `-m` (after the cast to
-- `int`), `-a` and `-v`.
pub data ToolOption : Type 0 where
  option_o : String → ToolOption
  option_m option_a option_v : ℕ → ToolOption
  option_h option_other : ToolOption

-- The variables of `main`.
pub record Settings : Type 0 where
  pub operation : OperType
  pub mms : ℕ
  pub addr_offset : ℕ
  pub value : ℕ

abbrev pub default_settings : Settings
default_settings = record { operation = read_operation; mms = 0; addr_offset = 0; value = 0 }

-- The options have been read, or the tool has ended with an exit status.
pub data Parsed : Type 0 where
  settings : Settings → Parsed
  exit : ℕ → Parsed

-- A return value of -1, as the exit status of the process.
abbrev pub exit_minus_1 : ℕ
exit_minus_1 = 255

abbrev pub oper_of : String → Option OperType
oper_of w =
    if w == "rd"
    then some read_operation
    else if w == "wr"
    then some write_operation
    else if w == "mms"
    then some mms_operation
    else none

-- One pass of the loop over `getopt`.
abbrev pub with_operation : Option OperType → Settings → Parsed
with_operation (some operation) s = settings (record s { operation = operation })
with_operation none s = exit 1

abbrev pub with_mms : Option Mms → ℕ → Settings → Parsed
with_mms (some m) n s = settings (record s { mms = n })
with_mms none n s = exit exit_minus_1

abbrev pub read_option : ToolOption → Settings → Parsed
read_option (option_o w) s = with_operation (oper_of w) s
read_option (option_m n) s = with_mms (mms_case n) n s
read_option (option_a n) s = settings (record s { addr_offset = n })
read_option (option_v n) s = settings (record s { value = n })
read_option option_h s = exit 0
read_option option_other s = settings s

abbrev pub and_then : (Settings → Parsed) → Parsed → Parsed
and_then f (settings s) = f s
and_then f (exit code) = exit code

unfoldable pub read_options : List ToolOption → Settings → Parsed
read_options [] s = settings s
read_options (o ∷ os) s = and_then (read_options os) (read_option o s)

module _ {S : Type 0} (bus : RegisterBus S) (opened : Bool) where
  -- The parameters are a `uint8_t` and a `uint16_t`.
  unfoldable pub read_register : ℕ → ℕ → M S ℕ
  read_register mms address = do_ioctl bus opened (mms % 2 ^ 8) (address % 2 ^ 16) 0 read_operation

  unfoldable pub dump_reginfo : ℕ → List RegInfo → M S (List DumpLine)
  dump_reginfo mms [] = pure []
  dump_reginfo mms (e ∷ es) = read_register mms e.address >>= λ value.
      dump_reginfo mms es >>= λ lines.
      pure (record { address = e.address; value = value; desc = e.desc } ∷ lines)

  abbrev pub dump_case : ℕ → Option Mms → M S (Option (List DumpLine))
  dump_case mms (some m) = dump_reginfo mms (reginfo_of m) >>= λ lines. pure (some lines)
  dump_case mms none = pure none

  -- The lines, or `none` for the return value -1.
  unfoldable pub read_register_in_mms : ℕ → M S (Option (List DumpLine))
  read_register_in_mms mms = dump_case mms (mms_case mms)

  abbrev pub dumped : Option (List DumpLine) → ℕ × Printed
  dumped (some lines) = (0, dump lines)
  dumped none = (exit_minus_1, nothing)

  -- The last `switch`: the exit status and what is printed.
  abbrev pub run_operation : OperType → Settings → M S (ℕ × Printed)
  run_operation read_operation s =
      do_ioctl bus opened s.mms s.addr_offset s.value read_operation >>= λ v.
      pure (0, one_register s.mms (s.addr_offset % 2 ^ 16) v)
  run_operation write_operation s =
      do_ioctl bus opened s.mms s.addr_offset s.value write_operation >>= λ v. pure (0, nothing)
  run_operation mms_operation s = read_register_in_mms s.mms >>= λ r. pure (dumped r)

  abbrev pub run_parsed : Parsed → M S (ℕ × Printed)
  run_parsed (settings s) = run_operation s.operation s
  run_parsed (exit code) = pure (code, nothing)

  unfoldable pub main : List ToolOption → M S (ℕ × Printed)
  main os = run_parsed (read_options os default_settings)
