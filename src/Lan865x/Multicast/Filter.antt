-- ===== src/Lan865x/Multicast/Filter.antt =====
-- `lan865x_set_specific_multicast_addr`: which bits of the two registers are set.
use native.Mathlib.Decide.{dec_le}
use native.Mathlib.Nat.{pow-suc, pow-le-pow_right, zero-div}
use base_t1s.Prelude.{
  ℕ, zero, suc, ◌+◌, ◌-◌, ◌*◌, ◌/◌, ◌%◌, ◌^◌, ◌≤◌, ◌<◌, max, bit_or, List, [], ◌∷◌, ◌≡◌, refl,
  arith, ap, sym, ◌∙◌, ◌==◌, from_bool,
}
use base_t1s.Word.{u32}
use base_t1s.Word.Bits.{bit_or_digit, bit_or-lt, div_pow-suc}
use base_t1s.Lan865x.Multicast.{lan865x_hash, hash_masks}
use base_t1s.Lan865x.Multicast.Hash.{lan865x_hash-value}

-- 1 if one of the addresses has the hash `k`, and 0 otherwise.
unfoldable pub hit : List (List ℕ) → ℕ → ℕ
hit [] k = 0
hit (addr ∷ addrs) k = max (from_bool (lan865x_hash addr == k)) (hit addrs k)

one_bit : (n k : ℕ) → 2 ^ n / 2 ^ k % 2 ≡ from_bool (n == k)
one_bit zero zero = refl
one_bit zero (suc k) =
    let nothing : 1 / 2 / 2 ^ k ≡ 0 = zero-div (2 ^ k) in
    let other : from_bool (0 == suc k) ≡ 0 = ground arith in
    ap (λ x. x % 2) (div_pow-suc k 1 ∙ nothing) ∙ sym other
one_bit (suc n) zero =
    let even : 2 ^ suc n ≡ 2 * 2 ^ n = omega (arith, pow-suc 2 n) in
    let other : from_bool (suc n == 0) ≡ 0 = ground arith in omega arith
one_bit (suc n) (suc k) =
    let half : 2 ^ suc n / 2 ≡ 2 ^ n = omega (arith, pow-suc 2 n) in
    let down : from_bool (suc n == suc k) ≡ from_bool (n == k) = ground arith in
    ap (λ x. x % 2) (div_pow-suc k (2 ^ suc n) ∙ ap (λ x. x / 2 ^ k) half) ∙ one_bit n k ∙ sym down

mask_bit :
    (mask b k : ℕ)
    → b < 32
    → bit_or mask (u32 (2 ^ b)) / 2 ^ k % 2 ≡ max (mask / 2 ^ k % 2) (from_bool (b == k))
mask_bit mask b k lt =
    let bound : 2 ^ b ≤ 2 ^ 31 = pow-le-pow_right (omega arith) {j = 31} (omega arith) in
    let fits : 2 ^ b < 2 ^ 32 = omega arith in
    let whole : u32 (2 ^ b) ≡ 2 ^ b = omega arith in
    bit_or_digit k mask (u32 (2 ^ b))
    ∙ ap (λ w. max (mask / 2 ^ k % 2) (w / 2 ^ k % 2)) whole
    ∙ ap (max (mask / 2 ^ k % 2)) (one_bit b k)

masks-none : (hi lo : ℕ) → hash_masks [] hi lo ≡ (hi, lo)
unfolding hash_masks
masks-none hi lo = refl

masks-high :
    (addr : List ℕ) (addrs : List (List ℕ)) (hi lo : ℕ)
    → 32 ≤ lan865x_hash addr
    → hash_masks (addr ∷ addrs) hi lo
      ≡ hash_masks addrs (bit_or hi (u32 (2 ^ (lan865x_hash addr - 32)))) lo
unfolding hash_masks
masks-high addr addrs hi lo h = ground arith

masks-low :
    (addr : List ℕ) (addrs : List (List ℕ)) (hi lo : ℕ)
    → lan865x_hash addr < 32
    → hash_masks (addr ∷ addrs) hi lo
      ≡ hash_masks addrs hi (bit_or lo (u32 (2 ^ lan865x_hash addr)))
unfolding hash_masks
masks-low addr addrs hi lo h = ground arith

-- The masks against any masks to start from.
hash_masks-bits :
    (addrs : List (List ℕ)) (hi lo k : ℕ)
    → k < 32
    → ((hash_masks addrs hi lo).1 / 2 ^ k % 2 ≡ max (lo / 2 ^ k % 2) (hit addrs k))
      × ((hash_masks addrs hi lo).0 / 2 ^ k % 2 ≡ max (hi / 2 ^ k % 2) (hit addrs (k + 32)))
unfolding hit
hash_masks-bits [] hi lo k lt = rw (masks-none hi lo) (omega arith, omega arith)
hash_masks-bits (addr ∷ addrs) hi lo k lt = elim (dec_le 32 (lan865x_hash addr)) [
  | yes high ↦
      let h = lan865x_hash addr in
      let (below, above) = hash_masks-bits addrs (bit_or hi (u32 (2 ^ (h - 32)))) lo k lt in
      let bit = mask_bit hi (h - 32) k (omega (arith, lan865x_hash-value addr)) in
      let there : from_bool (h - 32 == k) ≡ from_bool (h == k + 32) = ground arith in
      let elsewhere : from_bool (h == k) ≡ 0 = ground arith in
      rw (masks-high addr addrs hi lo high) (omega arith, omega arith)
  | no low ↦
      let h = lan865x_hash addr in
      let (below, above) = hash_masks-bits addrs hi (bit_or lo (u32 (2 ^ h))) k lt in
      let bit = mask_bit lo h k (omega arith) in
      let elsewhere : from_bool (h == k + 32) ≡ 0 = ground arith in
      rw (masks-low addr addrs hi lo (omega arith)) (omega arith, omega arith)
]

-- Of the two masks that are written to the hash registers, starting from empty ones, bit `k` of the
-- lower and bit `k` of the upper are set exactly if some address has the hash `k` and `k + 32`.
pub hash_masks-hit :
    (addrs : List (List ℕ)) (k : ℕ)
    → k < 32
    → ((hash_masks addrs 0 0).1 / 2 ^ k % 2 ≡ hit addrs k)
      × ((hash_masks addrs 0 0).0 / 2 ^ k % 2 ≡ hit addrs (k + 32))
hash_masks-hit addrs k lt =
    let (below, above) = hash_masks-bits addrs 0 0 k lt in
    let nothing : 0 / 2 ^ k ≡ 0 = zero-div (2 ^ k) in (omega arith, omega arith)

-- Both masks fit their registers.
pub hash_masks-lt :
    (addrs : List (List ℕ)) (hi lo : ℕ)
    → hi < 2 ^ 32
    → lo < 2 ^ 32
    → ((hash_masks addrs hi lo).0 < 2 ^ 32) × ((hash_masks addrs hi lo).1 < 2 ^ 32)
hash_masks-lt [] hi lo h l = rw (masks-none hi lo) (h, l)
hash_masks-lt (addr ∷ addrs) hi lo h l = elim (dec_le 32 (lan865x_hash addr)) [
  | yes ge ↦ rw (masks-high addr addrs hi lo ge) (
      hash_masks-lt addrs (bit_or hi (u32 (2 ^ (lan865x_hash addr - 32)))) lo
        (bit_or-lt 32 hi (u32 (2 ^ (lan865x_hash addr - 32))) h (omega arith)) l)
  | no lt ↦ rw (masks-low addr addrs hi lo (omega arith)) (
      hash_masks-lt addrs hi (bit_or lo (u32 (2 ^ lan865x_hash addr))) h
        (bit_or-lt 32 lo (u32 (2 ^ lan865x_hash addr)) l (omega arith)))
]
