-- ===== src/Tc6/Phy/Access.antt =====
-- Writing and reading a clause 45 register, over registers that keep what is written to them.
use base_t1s.Prelude.{
  ℕ, ◌+◌, ◌*◌, ◌^◌, ◌<◌, sym, subst, M, ok, continue, ◌>>=◌, ◌≡◌, ap, ◌∙◌, arith, true, ◌==◌,
  if◌then◌else◌,
}
use base_t1s.Tc6.Bus.{RegisterBus}
use base_t1s.Tc6.Bus.Laws.{RegisterFile, put, read-Writes, write-Writes}
use base_t1s.Tc6.Phy.Address.{IsMapOf, get_phy_c45_mms-IsMapOf, c45_addr-value}
use base_t1s.Tc6.Phy.{as_int, get_phy_c45_mms, c45_addr, mdiobus_read_c45, mdiobus_write_c45}

as_int-ok : (v : ℕ) → v < 2 ^ 31 → as_int v ≡ ok v
unfolding as_int
as_int-ok v lt = ground arith

module _ {S : Type 0} {bus : RegisterBus S} (regs : RegisterFile bus) where
  access_at :
      (s : S) (devnum regnum mms v : ℕ)
      → regs.IsReady s
      → get_phy_c45_mms devnum ≡ ok mms
      → regs.IsPlain (c45_addr mms regnum)
      → v < 2 ^ 16
      → (s1 : S) × (s2 : S) × (mdiobus_write_c45 bus devnum regnum v s ≡ (ok tt, s1))
        × (mdiobus_read_c45 bus devnum regnum s1 ≡ (ok v, s2))
        × ((b : ℕ) → regs.get s2 b ≡ put (regs.get s) (c45_addr mms regnum) v b)
  unfolding mdiobus_write_c45 mdiobus_read_c45
  access_at s devnum regnum mms v up known plain lt =
      let a = c45_addr mms regnum in
      let (s1, e1, up1, g1) = write-Writes regs s a v up plain (omega arith) in
      let (s2, e2, up2, g2) = read-Writes regs s1 a up1 plain in
      let write : ℕ → M S (Unit {0}) = λ m. bus.write_register (c45_addr m regnum) v in
      let last : ℕ → M S ℕ = λ regval t. (as_int regval, t) in
      let read : ℕ → M S ℕ = λ m. bus.read_register (c45_addr m regnum) >>= last in
      let here : a == a ≡ true = ground arith in
      let kept : regs.get s1 a ≡ v = g1 a ∙ ap (λ b. if b then v else regs.get s a) here in
      (
        s1,
        s2,
        ap (λ o. continue o write s) known ∙ e1,
        ap (λ o. continue o read s1) known
            ∙ ap (λ x. continue x.0 last x.1) e2
            ∙ ap (λ x. (as_int x, s2)) kept
            ∙ ap (λ o. (o, s2)) (as_int-ok v (omega arith)),
        λ b. g2 b ∙ g1 b,
      )

  -- For one of the five supported devices and a register number of 16 bits: a 16-bit value that is
  -- written to the register succeeds and is read back from the same device and register. It stands
  -- in the register whose address is the memory map of the device times 2 ^ 16 plus the register
  -- number, and every other register keeps its value.
  pub mdiobus_write_c45-mdiobus_read_c45 :
      (s : S) (devnum regnum mms v : ℕ)
      → regs.IsReady s
      → IsMapOf devnum mms
      → regnum < 2 ^ 16
      → regs.IsPlain (mms * 2 ^ 16 + regnum)
      → v < 2 ^ 16
      → (s1 : S) × (s2 : S) × (mdiobus_write_c45 bus devnum regnum v s ≡ (ok tt, s1))
        × (mdiobus_read_c45 bus devnum regnum s1 ≡ (ok v, s2))
        × ((b : ℕ) → regs.get s2 b ≡ put (regs.get s) (mms * 2 ^ 16 + regnum) v b)
  mdiobus_write_c45-mdiobus_read_c45 s devnum regnum mms v up map small plain lt =
      let address = c45_addr-value mms regnum small in
      let (s1, s2, e1, e2, kept) =
        access_at s devnum regnum mms v up (get_phy_c45_mms-IsMapOf map)
          (subst regs.IsPlain (sym address) plain) lt in
      (s1, s2, e1, e2, λ b. kept b ∙ ap (λ a. put (regs.get s) a v b) address)
