-- ===== src/Tc6/Parity/Ones.antt =====
-- The bit trick of `oa_tc6_get_parity` against a plain count of the set bits.
use native.Mathlib.Nat.{pow-suc, mul_comm, div-div-eq-div-mul, div-one}
use base_t1s.Prelude.{
  ℕ, zero, suc, ◌+◌, ◌*◌, ◌/◌, ◌%◌, ◌^◌, ◌<◌, bit_and, bit_or, bit_xor, ◌≡◌, refl, arith, sym, ap,
  ◌∙◌, ◌==◌, from_bool,
}
use base_t1s.Word.Bits.{bit_and_step, bit_xor_step, bit_and-zero, bit_or_disjoint}
use base_t1s.Word.{u32, field_prep}
use base_t1s.Tc6.Parity.{get_parity, ones}

bit_xor-half : (a b : ℕ) → bit_xor a b / 2 ≡ bit_xor (a / 2) (b / 2)
bit_xor-half a b = omega (arith, bit_xor_step a b)

half-pow : (k a : ℕ) → a / 2 ^ suc k ≡ a / 2 / 2 ^ k
half-pow k a = rw (pow-suc 2 k, mul_comm (2 ^ k) 2) (sym (div-div-eq-div-mul a 2 (2 ^ k)))

-- Bit `k` of a difference.
bit_xor_digit : (k a b : ℕ) → bit_xor a b / 2 ^ k % 2 ≡ (a / 2 ^ k + b / 2 ^ k) % 2
bit_xor_digit zero a b = omega (arith, bit_xor_step a b)
bit_xor_digit (suc k) a b = ground (
  arith,
  half-pow k (bit_xor a b),
  half-pow k a,
  half-pow k b,
  bit_xor-half a b,
  bit_xor_digit k (a / 2) (b / 2),
)

bit_and_nibble : (x m : ℕ) → bit_and x (16 * m + 1) ≡ 16 * bit_and (x / 16) m + x % 2
bit_and_nibble x m = ground (
  arith,
  bit_and_step x (16 * m + 1),
  bit_and_step (x / 2) (8 * m),
  bit_and_step (x / 4) (4 * m),
  bit_and_step (x / 8) (2 * m),
)

-- `x ^ x >> 1`, then `x ^ x >> 2`: each bit becomes the parity of four.
fold1 : ℕ → ℕ
fold1 p = bit_xor p (p / 2 ^ 1)

fold2 : ℕ → ℕ
unfolding fold1
fold2 p = bit_xor (fold1 p) (fold1 p / 2 ^ 2)

four_ones : ℕ → ℕ
four_ones p = p % 2 + p / 2 % 2 + p / 4 % 2 + p / 8 % 2

bit_xor_quarter : (p : ℕ) → fold1 p / 2 ^ 2 ≡ bit_xor (p / 2 ^ 2) (p / 2 ^ 1 / 2 ^ 2)
unfolding fold1
bit_xor_quarter p = ground (arith, bit_xor-half p (p / 2), bit_xor-half (p / 2) (p / 2 / 2))

div_swap : (p a b : ℕ) → p / a / b ≡ p / b / a
div_swap p a b = rw (div-div-eq-div-mul p a b, div-div-eq-div-mul p b a, mul_comm a b)

fold2_digit : (n p : ℕ) → fold2 p / 2 ^ n % 2 ≡ four_ones (p / 2 ^ n) % 2
unfolding fold1 fold2 four_ones
fold2_digit n p = ground (
  arith,
  bit_xor_digit n (fold1 p) (fold1 p / 2 ^ 2),
  bit_xor_quarter p,
  bit_xor_digit n p (p / 2 ^ 1),
  bit_xor_digit n (p / 2 ^ 2) (p / 2 ^ 1 / 2 ^ 2),
  div_swap p 2 (2 ^ n),
  div_swap p 4 (2 ^ n),
  div_swap p 8 (2 ^ n),
)

gather :
    (x : ℕ)
    → bit_and x 0x11111111
      ≡ x % 2
        + 16 * (x / 2 ^ 4 % 2)
        + 2 ^ 8 * (x / 2 ^ 8 % 2)
        + 2 ^ 12 * (x / 2 ^ 12 % 2)
        + 2 ^ 16 * (x / 2 ^ 16 % 2)
        + 2 ^ 20 * (x / 2 ^ 20 % 2)
        + 2 ^ 24 * (x / 2 ^ 24 % 2)
        + 2 ^ 28 * (x / 2 ^ 28 % 2)
gather x = ground (
  arith,
  bit_and_nibble x 0x1111111,
  bit_and_nibble (x / 2 ^ 4) 0x111111,
  bit_and_nibble (x / 2 ^ 8) 0x11111,
  bit_and_nibble (x / 2 ^ 12) 0x1111,
  bit_and_nibble (x / 2 ^ 16) 0x111,
  bit_and_nibble (x / 2 ^ 20) 0x11,
  bit_and_nibble (x / 2 ^ 24) 1,
  bit_and_nibble (x / 2 ^ 28) 0,
  bit_and-zero (x / 2 ^ 32),
)

add_up :
    (b0 b1 b2 b3 b4 b5 b6 b7 : ℕ)
    → b0 < 2
    → b1 < 2
    → b2 < 2
    → b3 < 2
    → b4 < 2
    → b5 < 2
    → b6 < 2
    → b7 < 2
    → (b0
          + 16 * b1
          + 2 ^ 8 * b2
          + 2 ^ 12 * b3
          + 2 ^ 16 * b4
          + 2 ^ 20 * b5
          + 2 ^ 24 * b6
          + 2 ^ 28 * b7)
        * 0x11111111
        % 2 ^ 32
        / 2 ^ 28
      ≡ b0 + b1 + b2 + b3 + b4 + b5 + b6 + b7
add_up b0 b1 b2 b3 b4 b5 b6 b7 h0 h1 h2 h3 h4 h5 h6 h7 = omega arith

ones-nibble : (n p : ℕ) → ones (suc (suc (suc (suc n)))) p ≡ four_ones p + ones n (p / 16)
unfolding ones four_ones
ones-nibble n p =
    ground (arith, div-div-eq-div-mul p 2 2, div-div-eq-div-mul p 4 2, div-div-eq-div-mul p 8 2)

ones-next :
    (n p i j : ℕ)
    → 2 ^ i * 16 ≡ 2 ^ j
    → ones (suc (suc (suc (suc n)))) (p / 2 ^ i) ≡ four_ones (p / 2 ^ i) + ones n (p / 2 ^ j)
ones-next n p i j e = rw (← e, ← div-div-eq-div-mul p (2 ^ i) 16) (ones-nibble n (p / 2 ^ i))

ones-none : (p : ℕ) → ones 0 p ≡ 0
unfolding ones
ones-none p = refl

ones-word :
    (p : ℕ)
    → ones 32 p
      ≡ four_ones p
        + four_ones (p / 2 ^ 4)
        + four_ones (p / 2 ^ 8)
        + four_ones (p / 2 ^ 12)
        + four_ones (p / 2 ^ 16)
        + four_ones (p / 2 ^ 20)
        + four_ones (p / 2 ^ 24)
        + four_ones (p / 2 ^ 28)
ones-word p = omega (
  arith,
  ones-nibble 28 p,
  ones-next 24 p 4 8 refl,
  ones-next 20 p 8 12 refl,
  ones-next 16 p 12 16 refl,
  ones-next 12 p 16 20 refl,
  ones-next 8 p 20 24 refl,
  ones-next 4 p 24 28 refl,
  ones-next 0 p 28 32 refl,
  ones-none (p / 2 ^ 32),
)

-- The product leaves the sum of the eight nibble parities in the top digit.
top_digit :
    (p : ℕ)
    → u32 (bit_and (fold2 p) 0x11111111 * 0x11111111) / 2 ^ 28
      ≡ fold2 p % 2
        + fold2 p / 2 ^ 4 % 2
        + fold2 p / 2 ^ 8 % 2
        + fold2 p / 2 ^ 12 % 2
        + fold2 p / 2 ^ 16 % 2
        + fold2 p / 2 ^ 20 % 2
        + fold2 p / 2 ^ 24 % 2
        + fold2 p / 2 ^ 28 % 2
top_digit p = rw (gather (fold2 p)) (
    add_up (fold2 p % 2) (fold2 p / 2 ^ 4 % 2) (fold2 p / 2 ^ 8 % 2) (fold2 p / 2 ^ 12 % 2)
      (fold2 p / 2 ^ 16 % 2) (fold2 p / 2 ^ 20 % 2) (fold2 p / 2 ^ 24 % 2) (fold2 p / 2 ^ 28 % 2)
      (omega arith) (omega arith) (omega arith) (omega arith) (omega arith) (omega arith)
      (omega arith) (omega arith))

top_bit : (t n : ℕ) → t % 2 ≡ n % 2 → from_bool (bit_and t 1 == 0) ≡ (n + 1) % 2
top_bit t n e = ground (arith, bit_and_nibble t 0, bit_and-zero (t / 16))

get_parity_fold :
    (p : ℕ)
    → get_parity p
      ≡ from_bool (bit_and (u32 (bit_and (fold2 p) 0x11111111 * 0x11111111) / 2 ^ 28) 1 == 0)
unfolding get_parity fold1 fold2
get_parity_fold p = refl

-- For any 32-bit word the bit trick of `oa_tc6_get_parity` gives 1 if the number of set bits is even
-- and 0 if it is odd.
pub get_parity-ones : (p : ℕ) → get_parity p ≡ (ones 32 p + 1) % 2
get_parity-ones p =
    get_parity_fold p
    ∙ top_bit _ (ones 32 p) (
        omega (
          arith,
          top_digit p,
          ones-word p,
          fold2_digit 0 p,
          fold2_digit 4 p,
          fold2_digit 8 p,
          fold2_digit 12 p,
          fold2_digit 16 p,
          fold2_digit 20 p,
          fold2_digit 24 p,
          fold2_digit 28 p,
          ap four_ones (div-one p),
        ))

ones-suc : (n p : ℕ) → ones (suc n) p ≡ p % 2 + ones n (p / 2)
unfolding ones
ones-suc n p = refl

-- `|` of the parity bit adds it to a header whose bit 0 is clear.
pub parity_bit_sum :
    (h : ℕ)
    → h % 2 ≡ 0
    → (bit_or h (field_prep 0 0 (get_parity h)) ≡ h + get_parity h) × (get_parity h < 2)
parity_bit_sum h e = ground (arith, bit_or_disjoint 1 (h / 2) (get_parity h), get_parity-ones h)

-- Over a header whose parity bit is clear, setting that bit to `get_parity` makes the number of
-- set bits odd.
pub parity_bit_odd :
    (h : ℕ) → h % 2 ≡ 0 → ones 32 (bit_or h (field_prep 0 0 (get_parity h))) % 2 ≡ 1
parity_bit_odd h e = ground (
  arith,
  bit_or_disjoint 1 (h / 2) (get_parity h),
  get_parity-ones h,
  ones-suc 31 h,
  ones-suc 31 (h + get_parity h),
)
