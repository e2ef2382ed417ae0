-- ===== src/Tc6/Setup/Lan8650/Trim.antt =====
-- The trim values that the LAN8650 is configured with.
use base_t1s.Prelude.{
  ℕ, ◌+◌, ◌-◌, ◌*◌, ◌/◌, ◌%◌, ◌^◌, ◌<◌, bit_or, ◌≡◌, ◌∙◌, ap, ap₂, ◌≤◌, arith, ◌⊎◌, inl, inr,
}
use native.Mathlib.Decide.{dec_lt}
use base_t1s.Word.{u16}
use base_t1s.Word.Bits.{bit_or_sum}
use base_t1s.Tc6.Setup.Lan8650.{trim_offset, trim_field, cfgparam1, cfgparam2}

trim_offset-low : (v : ℕ) → v < 16 → trim_offset v ≡ v
unfolding trim_offset
trim_offset-low v lt = ground arith

trim_offset-high : (v : ℕ) → 16 ≤ v → v < 32 → trim_offset v ≡ v + 224
unfolding trim_offset
trim_offset-high v ge lt = ground arith

-- The words as sums of their fields.
cfgparam1-sum :
    (v o : ℕ)
    → trim_offset v ≡ o
    → cfgparam1 v ≡ (9 + o) % 2 ^ 6 * 2 ^ 10 + (14 + o) % 2 ^ 6 * 2 ^ 4 + 3
unfolding cfgparam1 trim_field
cfgparam1-sum v o e =
    let high = (9 + o) % 2 ^ 6 * 2 ^ 10 in
    let low = (14 + o) % 2 ^ 6 * 2 ^ 4 in
    let whole_high : u16 high ≡ high = omega arith in
    let whole_low : u16 low ≡ low = omega arith in
    ap (λ t. bit_or (bit_or (u16 ((9 + t) % 2 ^ 6 * 2 ^ 10)) (u16 ((14 + t) % 2 ^ 6 * 2 ^ 4))) 3) e
    ∙ ap₂ (λ a b. bit_or (bit_or a b) 3) whole_high whole_low
    ∙ ap (λ a. bit_or a 3) (bit_or_sum 10 high low (omega arith) (omega arith))
    ∙ bit_or_sum 4 (high + low) 3 (omega arith) (omega arith)

cfgparam2-sum : (w o : ℕ) → trim_offset w ≡ o → cfgparam2 w ≡ (40 + o) % 2 ^ 6 * 2 ^ 10
unfolding cfgparam2 trim_field
cfgparam2-sum w o e = ap (λ t. u16 ((40 + t) % 2 ^ 6 * 2 ^ 10)) e ∙ omega arith

-- Of two five-bit values, each a signed number, which from 16 on is the value less 32: the first
-- configuration word holds the default trims 14 and 9 changed by the first number, cut to six bits
-- each, above the fixed low bits 3, and the second word holds the default trim 40 changed by the
-- second number above ten bits of 0.
pub cfgparam-decode :
    (v w : ℕ)
    → v < 32
    → w < 32
    → (cfgparam1 v < 2 ^ 16)
      × (cfgparam1 v % 2 ^ 4 ≡ 3)
      × (cfgparam2 w < 2 ^ 16)
      × (cfgparam2 w % 2 ^ 10 ≡ 0)
      × (((v < 16) × (cfgparam1 v / 2 ^ 4 % 2 ^ 6 ≡ 14 + v) × (cfgparam1 v / 2 ^ 10 ≡ 9 + v))
          ⊎ ((16 ≤ v)
              × (cfgparam1 v / 2 ^ 4 % 2 ^ 6 ≡ (14 + 2 ^ 6 + v - 32) % 2 ^ 6)
              × (cfgparam1 v / 2 ^ 10 ≡ (9 + 2 ^ 6 + v - 32) % 2 ^ 6)))
      × (((w < 16) × (cfgparam2 w / 2 ^ 10 ≡ 40 + w))
          ⊎ ((16 ≤ w) × (cfgparam2 w / 2 ^ 10 ≡ 40 + w - 32)))
cfgparam-decode v w lt lt' = elim (dec_lt v 16) [
  | yes small ↦
      let p = cfgparam1-sum v v (trim_offset-low v small) in
      (
        omega arith,
        omega arith,
        second.0,
        second.1,
        inl (small, omega arith, omega arith),
        second.2,
      )
  | no large ↦
      let p = cfgparam1-sum v (v + 224) (trim_offset-high v (omega arith) lt) in
      (
        omega arith,
        omega arith,
        second.0,
        second.1,
        inr (omega arith, omega arith, omega arith),
        second.2,
      )
]
  where
    second :
        (cfgparam2 w < 2 ^ 16)
        × (cfgparam2 w % 2 ^ 10 ≡ 0)
        × (((w < 16) × (cfgparam2 w / 2 ^ 10 ≡ 40 + w))
            ⊎ ((16 ≤ w) × (cfgparam2 w / 2 ^ 10 ≡ 40 + w - 32)))
    second = elim (dec_lt w 16) [
      | yes small ↦
          let p = cfgparam2-sum w w (trim_offset-low w small) in
          (omega arith, omega arith, inl (small, omega arith))
      | no large ↦
          let p = cfgparam2-sum w (w + 224) (trim_offset-high w (omega arith) lt') in
          (omega arith, omega arith, inr (omega arith, omega arith))
    ]
