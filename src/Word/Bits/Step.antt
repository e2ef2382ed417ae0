-- ===== src/Word/Bits/Step.antt =====
-- The lowest digit of `&`, `|` and `^`, in a form that rewriting can use at any word.
use Prim.Native.Nat.{digits, bitwise, differ, bit_and-bitwise, bit_or-bitwise, bit_xor-bitwise}
use base_t1s.Prelude.{
  ℕ, zero, suc, ◌+◌, ◌-◌, ◌*◌, ◌/◌, ◌%◌, ◌≤◌, min, max, bit_and, bit_or, bit_xor, ◌≡◌, refl, arith,
  ap, sym, ◌∙◌,
}

-- An operation by digits: `rest` is its value where the first word has no digits left, and `digit`
-- its effect on one digit.
module _ (rest : ℕ → ℕ) (digit : ℕ → ℕ → ℕ) where
  digits_at_zero : (n b : ℕ) → digits rest digit n 0 b ≡ rest b
  digits_at_zero zero b = refl
  digits_at_zero (suc n) b = refl

  one_digit_more : (n a b : ℕ) → a ≤ n → digits rest digit (suc n) a b ≡ digits rest digit n a b
  one_digit_more n zero b h = digits_at_zero (suc n) b ∙ sym (digits_at_zero n b)
  one_digit_more zero (suc a) b h = absurd (omega arith)
  one_digit_more (suc n) (suc a) b h =
      ap (λ d. d * 2 + digit (suc a % 2) (b % 2))
        (one_digit_more n (suc a / 2) (b / 2) (omega arith))

  more_digits :
      (k n m a b : ℕ) → a ≤ n → m ≡ n + k → digits rest digit m a b ≡ digits rest digit n a b
  more_digits zero n m a b h e = ap (λ c. digits rest digit c a b) (omega arith)
  more_digits (suc k) n m a b h e =
      ap (λ c. digits rest digit c a b) {y = suc (n + k)} (omega arith)
      ∙ one_digit_more (n + k) a b (omega arith)
      ∙ more_digits k n (n + k) a b h refl

  -- The first digit of the operation, if `rest` obeys the same equation.
  first_digit :
      ((b : ℕ) → rest b ≡ rest (b / 2) * 2 + digit 0 (b % 2))
      → (a b : ℕ)
      → bitwise rest digit a b ≡ bitwise rest digit (a / 2) (b / 2) * 2 + digit (a % 2) (b % 2)
  first_digit law zero b = law b
  first_digit law (suc a) b =
      let h = suc a / 2 in
      ap (λ d. d * 2 + digit (suc a % 2) (b % 2))
        (more_digits (a - h) h a h (b / 2) (omega arith) (omega arith))

pub bit_or_step : (a b : ℕ) → bit_or a b ≡ bit_or (a / 2) (b / 2) * 2 + max (a % 2) (b % 2)
bit_or_step a b = simp bit_or-bitwise (first_digit (λ y. y) max (λ y. omega arith) a b)

pub bit_and_step : (a b : ℕ) → bit_and a b ≡ bit_and (a / 2) (b / 2) * 2 + min (a % 2) (b % 2)
bit_and_step a b = simp bit_and-bitwise (first_digit (λ y. 0) min (λ y. omega arith) a b)

-- Of two digits, the one that differs is their sum without its carry.
differ_sum : (i j : ℕ) → i ≤ 1 → j ≤ 1 → differ i j ≡ (i + j) % 2
differ_sum zero j p q = omega arith
differ_sum (suc zero) zero p q = refl
differ_sum (suc zero) (suc zero) p q = refl
differ_sum (suc i) (suc (suc j)) p q = absurd (omega arith)
differ_sum (suc (suc i)) j p q = absurd (omega arith)

pub bit_xor_step : (a b : ℕ) → bit_xor a b ≡ bit_xor (a / 2) (b / 2) * 2 + (a + b) % 2
bit_xor_step a b = simp bit_xor-bitwise (
    first_digit (λ y. y) differ (λ y. omega arith) a b
    ∙ ap (λ d. bitwise (λ y. y) differ (a / 2) (b / 2) * 2 + d)
        (differ_sum (a % 2) (b % 2) (omega arith) (omega arith) ∙ omega arith))
