-- ===== src/Lan865x/Multicast/Bits.antt =====
-- The bits of an address in the order of transmission, which `get_address_bit` of
-- src/linux/drivers/net/ethernet/microchip/lan865x/lan865x.c picks from its bytes.
use base_t1s.Prelude.{
  ℕ, zero, suc, ◌+◌, ◌-◌, ◌/◌, ◌%◌, ◌^◌, ◌<◌, List, [], ◌∷◌, ◌++◌, get_or, ◌≡◌, refl, arith, ap,
  sym, ◌∙◌,
}
use native.Mathlib.Decide.{dec_lt}
use native.Mathlib.Nat.{zero-div}
use base_t1s.Word.Bits.{div_pow-suc}
use base_t1s.Lan865x.Multicast.{get_address_bit}

-- The `n` lowest bits of a number, least significant first.
abbrev low_bits : ℕ → ℕ → List ℕ
low_bits zero v = []
low_bits (suc n) v = v % 2 ∷ low_bits n (v / 2)

-- Byte after byte, each least significant bit first.
abbrev address_bits : List ℕ → List ℕ
address_bits [] = []
address_bits (b ∷ bs) = low_bits 8 b ++ address_bits bs

-- Bit `k` of an address, 0 behind its end.
abbrev pub bit_at : List ℕ → ℕ → ℕ
bit_at addr k = get_or (address_bits addr) k 0

low_digit : (n v k : ℕ) (rest : List ℕ) → k < n → v / 2 ^ k % 2 ≡ get_or (low_bits n v ++ rest) k 0
low_digit zero v k rest lt = absurd (omega arith)
low_digit (suc n) v zero rest lt = omega arith
low_digit (suc n) v (suc k) rest lt =
    ap (λ x. x % 2) (div_pow-suc k v) ∙ low_digit n (v / 2) k rest (omega arith)

behind_low_bits :
    (n v k : ℕ) (rest : List ℕ) → get_or (low_bits n v ++ rest) (n + k) 0 ≡ get_or rest k 0
behind_low_bits zero v k rest = ap (λ i. get_or rest i 0) {y = k} (omega arith)
behind_low_bits (suc n) v k rest =
    let shift : suc n + k ≡ suc (n + k) = omega arith in
    ap (λ i. get_or (low_bits (suc n) v ++ rest) i 0) shift ∙ behind_low_bits n (v / 2) k rest

get_address_bit-nil : (k : ℕ) → get_address_bit [] k ≡ 0
unfolding get_address_bit
get_address_bit-nil k = div_zero (2 ^ (k % 8))
  where
    div_zero : (m : ℕ) → 0 / m % 2 ≡ 0
    div_zero zero = refl
    div_zero (suc m) = ap (λ x. x % 2) (zero-div (suc m))

get_address_bit-first :
    (b : ℕ) (bs : List ℕ) (k : ℕ) → k < 8 → get_address_bit (b ∷ bs) k ≡ b / 2 ^ k % 2
unfolding get_address_bit
get_address_bit-first b bs k lt =
    let byte : k / 8 ≡ 0 = omega arith in let bit : k % 8 ≡ k = omega arith in rw (byte, bit) refl

get_address_bit-later :
    (b : ℕ) (bs : List ℕ) (k : ℕ) → get_address_bit (b ∷ bs) (8 + k) ≡ get_address_bit bs k
unfolding get_address_bit
get_address_bit-later b bs k =
    let byte : (8 + k) / 8 ≡ suc (k / 8) = omega arith in
    let bit : (8 + k) % 8 ≡ k % 8 = omega arith in rw (byte, bit) refl

pub get_address_bit-bit_at : (addr : List ℕ) (k : ℕ) → get_address_bit addr k ≡ bit_at addr k
get_address_bit-bit_at [] k = get_address_bit-nil k
get_address_bit-bit_at (b ∷ bs) k = elim (dec_lt k 8) [
  | yes lt ↦ get_address_bit-first b bs k lt ∙ low_digit 8 b k (address_bits bs) lt
  | no le ↦
      let shift : k ≡ 8 + (k - 8) = omega arith in
      ap (get_address_bit (b ∷ bs)) shift
      ∙ get_address_bit-later b bs (k - 8)
      ∙ get_address_bit-bit_at bs (k - 8)
      ∙ sym (ap (bit_at (b ∷ bs)) shift ∙ behind_low_bits 8 b (k - 8) (address_bits bs))
]
