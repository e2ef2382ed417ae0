-- ===== src/Word/Bits.antt =====
-- `|`, `&` and `^` of words as arithmetic on their digits, at every width.
mod Step
use Step.{bit_or_step, bit_and_step}
use Prim.Native.Nat.{bit_or-bitwise}
use native.Mathlib.Nat.{pow-suc, div-add-mod', div-div-eq-div-mul}
use base_t1s.Prelude.{
  ℕ, zero, suc, ◌+◌, ◌*◌, ◌/◌, ◌%◌, ◌^◌, ◌≤◌, ◌<◌, bit_and, bit_or, max, ◌≡◌, refl, arith, ap, sym,
  ◌∙◌,
}
pub use Step.*

-- What holds of 0, and of a word if it holds of the word without its lowest digit, holds of all.
by_digits : {P : ℕ → Type 0} → P 0 → ((a : ℕ) → P (a / 2) → P a) → (n a : ℕ) → a ≤ n → P a
by_digits p q n zero h = p
by_digits p q zero (suc a) h = absurd (omega arith)
by_digits p q (suc n) (suc a) h = q (suc a) (by_digits p q n (suc a / 2) (omega arith))

pub bit_or-zero : (a : ℕ) → bit_or a 0 ≡ a
bit_or-zero a =
    by_digits {P = λ w. bit_or w 0 ≡ w} refl (λ w e. omega (arith, bit_or_step w 0)) a a
      (omega arith)

zero-bit_or : (b : ℕ) → bit_or 0 b ≡ b
zero-bit_or b = bit_or-bitwise 0 b

pub bit_and-zero : (a : ℕ) → bit_and a 0 ≡ 0
bit_and-zero a =
    by_digits {P = λ w. bit_and w 0 ≡ 0} refl (λ w e. omega (arith, bit_and_step w 0)) a a
      (omega arith)

pub bit_or_comm : (a b : ℕ) → bit_or a b ≡ bit_or b a
bit_or_comm a =
    by_digits {P = λ w. (b : ℕ) → bit_or w b ≡ bit_or b w}
      (λ b. omega (arith, bit_or-zero b, zero-bit_or b))
      (λ w e b. omega (arith, bit_or_step w b, bit_or_step b w, e (b / 2))) a a (omega arith)

pub div_pow-suc : (k a : ℕ) → a / 2 ^ suc k ≡ a / 2 / 2 ^ k
div_pow-suc k a =
    let shift : 2 ^ suc k ≡ 2 * 2 ^ k = omega (arith, pow-suc 2 k) in
    ap (λ p. a / p) shift ∙ sym (div-div-eq-div-mul a 2 (2 ^ k))

-- One digit of `|`.
pub bit_or_digit : (k a b : ℕ) → bit_or a b / 2 ^ k % 2 ≡ max (a / 2 ^ k % 2) (b / 2 ^ k % 2)
bit_or_digit zero a b = omega (arith, bit_or_step a b)
bit_or_digit (suc k) a b =
    let halved : bit_or a b / 2 ≡ bit_or (a / 2) (b / 2) = omega (arith, bit_or_step a b) in
    rw (div_pow-suc k (bit_or a b), div_pow-suc k a, div_pow-suc k b, halved)
      (bit_or_digit k (a / 2) (b / 2))

double_shift : (q k : ℕ) → q * 2 ^ suc k ≡ 2 * (q * 2 ^ k)
double_shift q k = omega (arith, ap (λ (t : ℕ). q * t) (pow-suc 2 k))

-- Fields that do not overlap: `(q << k) | r` is a sum when `r` fits `k` bits.
pub bit_or_disjoint : (k q r : ℕ) → r < 2 ^ k → bit_or (q * 2 ^ k) r ≡ q * 2 ^ k + r
bit_or_disjoint zero q r h = ground (arith, bit_or-zero q)
bit_or_disjoint (suc k) q r h = ground (
  arith,
  bit_or_step (q * 2 ^ suc k) r,
  double_shift q k,
  bit_or_disjoint k q (r / 2) (omega (arith, pow-suc 2 k)),
)

-- The same of a word whose low `k` bits are clear.
pub bit_or_sum : (k a r : ℕ) → a % 2 ^ k ≡ 0 → r < 2 ^ k → bit_or a r ≡ a + r
bit_or_sum k a r e h =
    let whole : a ≡ a / 2 ^ k * 2 ^ k = omega (arith, div-add-mod' a (2 ^ k)) in
    ap (λ t. bit_or t r) whole ∙ bit_or_disjoint k (a / 2 ^ k) r h ∙ ap (λ t. t + r) (sym whole)

pub bit_or-lt : (k a b : ℕ) → a < 2 ^ k → b < 2 ^ k → bit_or a b < 2 ^ k
bit_or-lt zero a b h h' =
    let none_left : a ≡ 0 = omega arith in
    let none_right : b ≡ 0 = omega arith in
    omega (arith, ap (λ x. bit_or x b) none_left, ap (λ x. bit_or 0 x) none_right, bit_or-zero 0)
bit_or-lt (suc k) a b h h' =
    let shift : 2 ^ suc k ≡ 2 * 2 ^ k = omega (arith, pow-suc 2 k) in
    let halves = bit_or-lt k (a / 2) (b / 2) (omega arith) (omega arith) in
    omega (arith, bit_or_step a b)
