-- ===== src/IoctlTool/Dump.antt =====
-- What the dump of a memory map shows, over registers that keep what is written to them.
use base_t1s.Prelude.{
  ℕ, ◌+◌, ◌*◌, ◌%◌, ◌^◌, ◌<◌, true, List, [], ◌∷◌, Option, some, M, Outcome, ok, continue, ◌>>=◌,
  pure, ◌≡◌, refl, ap, ap₂, ◌∙◌, arith, ◌==◌, if◌then◌else◌,
}
use base_t1s.Tc6.Bus.{RegisterBus}
use base_t1s.Tc6.Bus.Laws.{RegisterFile, Writes, bind-Writes, read-Writes}
use base_t1s.Lan865x.Chardev.{Reg, chardev_ioctl}
use base_t1s.IoctlTool.{reg_addr, returned, do_ioctl, read_operation, mms_operation}
use base_t1s.IoctlTool.Access.{reg_addr-sum}
use base_t1s.IoctlTool.Tables.{RegInfo, entries_at}
use base_t1s.IoctlTool.Maps.{
  ToolRegister, map_of, info_of, info_of-once, Mms, mms0, mms1, mms2, mms3, mms4, mms10, mms_value,
  mms_case, reginfo_of,
}
use base_t1s.IoctlTool.Main.{
  DumpLine, Printed, dump, dumped, dump_case, option_o, option_m, read_options, default_settings,
  settings, read_register, dump_reginfo, read_register_in_mms, main, run_parsed, Settings, and_then,
  with_mms,
}

-- The lines of a dump with an address.
abbrev pub lines_at : ℕ → List DumpLine → List DumpLine
lines_at a [] = []
lines_at a (l ∷ ls) = if l.address == a then l ∷ lines_at a ls else lines_at a ls

-- The line of an entry, with the values `g` of the registers.
abbrev pub line_of : (ℕ → ℕ) → ℕ → RegInfo → DumpLine
line_of g mms e = record {
  address = e.address;
  value = g (mms * 2 ^ 16 + e.address) % 2 ^ 16;
  desc = e.desc;
}

abbrev lines_of : (ℕ → ℕ) → ℕ → List RegInfo → List DumpLine
lines_of g mms [] = []
lines_of g mms (e ∷ es) = line_of g mms e ∷ lines_of g mms es

lines_of-at :
    (g : ℕ → ℕ) (mms a : ℕ) (es : List RegInfo)
    → lines_at a (lines_of g mms es) ≡ lines_of g mms (entries_at a es)
unfolding entries_at
lines_of-at g mms a [] = refl
lines_of-at g mms a (e ∷ es) = ground (arith, lines_of-at g mms a es)

lines_of_same :
    (g h : ℕ → ℕ) (mms : ℕ) (es : List RegInfo)
    → ((b : ℕ) → h b ≡ g b)
    → lines_of h mms es ≡ lines_of g mms es
lines_of_same g h mms [] same = refl
lines_of_same g h mms (e ∷ es) same =
    ap₂ (λ v ls. record { address = e.address; value = v % 2 ^ 16; desc = e.desc } ∷ ls)
      (same (mms * 2 ^ 16 + e.address)) (lines_of_same g h mms es same)

mms_case-mms_value : (m : Mms) → mms_case (mms_value m) ≡ some m
unfolding mms_case
mms_case-mms_value mms0 = refl
mms_case-mms_value mms1 = refl
mms_case-mms_value mms2 = refl
mms_case-mms_value mms3 = refl
mms_case-mms_value mms4 = refl
mms_case-mms_value mms10 = refl

mms_value-lt : (m : Mms) → mms_value m < 2 ^ 8
mms_value-lt mms0 = omega arith
mms_value-lt mms1 = omega arith
mms_value-lt mms2 = omega arith
mms_value-lt mms3 = omega arith
mms_value-lt mms4 = omega arith
mms_value-lt mms10 = omega arith

read_options-dump :
    (m : Mms)
    → read_options (option_o "mms" ∷ option_m (mms_value m) ∷ []) default_settings
      ≡ settings
          (record { operation = mms_operation; mms = mms_value m; addr_offset = 0; value = 0 })
unfolding read_options
read_options-dump m =
    let n = mms_value m in
    let s : Settings = record { operation = mms_operation; mms = 0; addr_offset = 0; value = 0 } in
    ap (λ c. and_then (read_options []) (with_mms c n s)) (mms_case-mms_value m)

module _ {S : Type 0} {bus : RegisterBus S} (regs : RegisterFile bus) where
  -- Registers of a memory map, with offsets of 16 bits, that a read does not change.
  abbrev pub PlainTable : ℕ → List RegInfo → Type 0
  PlainTable mms [] = Unit {0}
  PlainTable mms (e ∷ es) =
      ((e.address < 2 ^ 16) × regs.IsPlain (mms * 2 ^ 16 + e.address)) × PlainTable mms es

  read_register-Writes :
      (s : S) (mms a : ℕ)
      → regs.IsReady s
      → mms < 2 ^ 8
      → a < 2 ^ 16
      → regs.IsPlain (mms * 2 ^ 16 + a)
      → Writes regs [] (regs.get s (mms * 2 ^ 16 + a) % 2 ^ 16) (read_register bus true mms a) s
  unfolding read_register do_ioctl chardev_ioctl
  read_register-Writes s mms a up lm la plain =
      let at : reg_addr (mms % 2 ^ 8) (a % 2 ^ 16) ≡ mms * 2 ^ 16 + a =
        reg_addr-sum (mms % 2 ^ 8) (a % 2 ^ 16) (omega arith) ∙ omega arith in
      let (s', e, up', g) = read-Writes regs s (mms * 2 ^ 16 + a) up plain in
      let reg : ℕ → ℕ → Reg = λ x y. record { addr = x; value = y } in
      let read_of : ℕ → M S Reg = λ x. bus.read_register x >>= λ y. pure (reg x y) in
      (
        s',
        ap (λ x. (returned read_operation (read_of x s).0, (read_of x s).1)) at
            ∙ ap
                (λ y. (
                  returned read_operation
                      (continue y.0 (λ z. pure (reg (mms * 2 ^ 16 + a) z)) y.1).0,
                  (continue y.0 (λ z. pure (reg (mms * 2 ^ 16 + a) z)) y.1).1,
                ))
                e,
        up',
        g,
      )

  dump_reginfo-Writes :
      (s : S) (mms : ℕ) (es : List RegInfo)
      → regs.IsReady s
      → mms < 2 ^ 8
      → PlainTable mms es
      → Writes regs [] (lines_of (regs.get s) mms es) (dump_reginfo bus true mms es) s
  unfolding dump_reginfo
  dump_reginfo-Writes s mms [] up lm plain = (s, refl, up, λ b. refl)
  dump_reginfo-Writes s mms (e ∷ es) up lm plain =
      let a = mms * 2 ^ 16 + e.address in
      let v = regs.get s a % 2 ^ 16 in
      let rest : ℕ → M S (List DumpLine) = λ value. dump_reginfo bus true mms es >>= λ lines.
      pure (record { address = e.address; value = value; desc = e.desc } ∷ lines) in
      bind-Writes regs [] [] v (lines_of (regs.get s) mms (e ∷ es))
        (read_register bus true mms e.address) rest s
        (read_register-Writes s mms e.address up lm plain.0.0 plain.0.1)
        (λ s1 up1 g1.
          let (s2, e2, up2, g2) = dump_reginfo-Writes s1 mms es up1 lm plain.1 in
          (
            s2,
            ap
                  (λ x.
                    continue x.0
                      (λ lines.
                        pure (record { address = e.address; value = v; desc = e.desc } ∷ lines))
                      x.1)
                  e2
                ∙ ap (λ ls. (ok (line_of (regs.get s) mms e ∷ ls), s2))
                    (lines_of_same (regs.get s) (regs.get s1) mms es g1),
            up2,
            g2,
          ))

  main-dumps :
      (s s' : S) (m : Mms) (lines : List DumpLine)
      → dump_reginfo bus true (mms_value m) (reginfo_of m) s ≡ (ok lines, s')
      → main bus true (option_o "mms" ∷ option_m (mms_value m) ∷ []) s ≡ (ok (0, dump lines), s')
  unfolding main read_register_in_mms
  main-dumps s s' m lines e =
      let n = mms_value m in
      let shown : M S (Option (List DumpLine)) → Outcome (ℕ × Printed) × S =
        λ call. (call >>= λ r. pure (dumped bus true r)) s in
      ap (λ p. run_parsed bus true p s) (read_options-dump m)
      ∙ ap (λ c. shown (dump_case bus true n c)) (mms_case-mms_value m)
      ∙ ap
          (λ x.
            let y = continue x.0 (λ ls. pure (some ls)) x.1 in
            continue y.0 (λ r. pure (dumped bus true r)) y.1)
          e

  -- Over registers that keep what is written to them, and which a read does not change, the tool
  -- called with `-o mms` and the memory map of a register of its enumerations ends with status 0,
  -- changes no register, and among the lines that it prints exactly one has the offset of that
  -- register: it shows its name and the lower 16 bits of its value.
  pub main-Dumps :
      (s : S) (r : ToolRegister)
      → regs.IsReady s
      → PlainTable (mms_value (map_of r)) (reginfo_of (map_of r))
      → (s' : S) × (lines : List DumpLine) × (main bus true
            (option_o "mms" ∷ option_m (mms_value (map_of r)) ∷ [])
            s
          ≡ (ok (0, dump lines), s'))
        × (lines_at (info_of r).address lines
            ≡ line_of (regs.get s) (mms_value (map_of r)) (info_of r) ∷ [])
        × ((b : ℕ) → regs.get s' b ≡ regs.get s b)
  main-Dumps s r up plain =
      let n = mms_value (map_of r) in
      let (s', e, up', g) =
        dump_reginfo-Writes s n (reginfo_of (map_of r)) up (mms_value-lt (map_of r)) plain in
      (
        s',
        lines_of (regs.get s) n (reginfo_of (map_of r)),
        main-dumps s s' (map_of r) (lines_of (regs.get s) n (reginfo_of (map_of r))) e,
        lines_of-at (regs.get s) n (info_of r).address (reginfo_of (map_of r))
            ∙ ap (lines_of (regs.get s) n) (info_of-once r),
        g,
      )
