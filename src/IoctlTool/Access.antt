-- ===== src/IoctlTool/Access.antt =====
-- Writing and reading a register with the ioctl tool, over registers that keep what is written.
use base_t1s.Prelude.{
  ℕ, ◌+◌, ◌*◌, ◌%◌, ◌^◌, ◌<◌, true, M, ok, continue, ◌>>=◌, ◌>>◌, pure, ◌≡◌, ap, ◌∙◌, arith, ◌==◌,
  if◌then◌else◌,
}
use base_t1s.Word.{u32}
use base_t1s.Word.Bits.{bit_or_disjoint}
use base_t1s.Tc6.Bus.{RegisterBus}
use base_t1s.Tc6.Bus.Laws.{RegisterFile, put, read-Writes, write-Writes}
use base_t1s.Lan865x.Chardev.{Reg, chardev_ioctl}
use base_t1s.IoctlTool.{reg_addr, returned, do_ioctl, read_operation, write_operation}

-- The address is that of the register in its memory map.
pub reg_addr-sum :
    (mms offset : ℕ) → mms < 2 ^ 16 → reg_addr mms offset ≡ mms * 2 ^ 16 + offset % 2 ^ 16
unfolding reg_addr
reg_addr-sum mms offset lt =
    ap u32 (bit_or_disjoint 16 mms (offset % 2 ^ 16) (omega arith)) ∙ omega arith

module _ {S : Type 0} {bus : RegisterBus S} (regs : RegisterFile bus) where
  -- A value written with the tool and read back with it comes back cut to its lower 16 bits, and so it
  -- stands in the register, of whatever width; no other register changes.
  pub do_ioctl-write_read :
      (s : S) (mms offset value old : ℕ)
      → regs.IsReady s
      → mms < 2 ^ 16
      → regs.IsPlain (mms * 2 ^ 16 + offset % 2 ^ 16)
      → (s1 : S) × (s2 : S) × (do_ioctl bus true mms offset value write_operation s ≡ (ok 0, s1))
        × (do_ioctl bus true mms offset old read_operation s1 ≡ (ok (value % 2 ^ 16), s2))
        × ((b : ℕ)
            → regs.get s2 b ≡ put (regs.get s) (mms * 2 ^ 16 + offset % 2 ^ 16) (value % 2 ^ 16) b)
  unfolding do_ioctl chardev_ioctl
  do_ioctl-write_read s mms offset value old up lt plain =
      let a = mms * 2 ^ 16 + offset % 2 ^ 16 in
      let v = value % 2 ^ 16 in
      let addr : reg_addr mms offset ≡ a = reg_addr-sum mms offset lt in
      let (s1, e1, up1, g1) = write-Writes regs s a v up plain (omega arith) in
      let (s2, e2, up2, g2) = read-Writes regs s1 a up1 plain in
      let here : a == a ≡ true = ground arith in
      let kept : regs.get s1 a ≡ v = g1 a ∙ ap (λ b. if b then v else regs.get s a) here in
      let reg : ℕ → ℕ → Reg = λ x y. record { addr = x; value = y } in
      let write_of : ℕ → M S Reg = λ x. bus.write_register x v >> pure (reg x v) in
      let read_of : ℕ → M S Reg = λ x. bus.read_register x >>= λ y. pure (reg x y) in
      (
        s1,
        s2,
        ap (λ x. (returned write_operation (write_of x s).0, (write_of x s).1)) addr
            ∙ ap
                (λ y. (
                  returned write_operation (continue y.0 (λ _. pure (reg a v)) y.1).0,
                  (continue y.0 (λ _. pure (reg a v)) y.1).1,
                ))
                e1,
        ap (λ x. (returned read_operation (read_of x s1).0, (read_of x s1).1)) addr
            ∙ ap
                (λ y. (
                  returned read_operation (continue y.0 (λ z. pure (reg a z)) y.1).0,
                  (continue y.0 (λ z. pure (reg a z)) y.1).1,
                ))
                e2
            ∙ ap (λ z. (ok (z % 2 ^ 16), s2)) kept
            ∙ ap (λ z. (ok z, s2)) (omega arith),
        λ b. g2 b ∙ g1 b,
      )
