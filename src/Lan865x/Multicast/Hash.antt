-- ===== src/Lan865x/Multicast/Hash.antt =====
-- `lan865x_hash`: bit `i` of the hash is the parity of every sixth bit of the address.
use base_t1s.Prelude.{
  ℕ, zero, suc, ◌+◌, ◌*◌, ◌/◌, ◌%◌, ◌^◌, ◌<◌, bit_or, bit_xor, List, ◌≡◌, refl, arith, ap, ◌∙◌,
}
use base_t1s.Word.{u32}
use base_t1s.Word.Bits.{bit_or_comm, bit_or_disjoint, bit_xor_step}
use base_t1s.Lan865x.Multicast.Bits.{bit_at, get_address_bit-bit_at}
use base_t1s.Lan865x.Multicast.{get_address_bit, hash_bits, hash_columns, lan865x_hash}

-- The sum of the `n` bits of the address at `j * 6 + i`, `(j + 1) * 6 + i` and so on.
unfoldable pub column_sum : ℕ → List ℕ → ℕ → ℕ → ℕ
column_sum zero addr i j = 0
column_sum (suc n) addr i j = bit_at addr (j * 6 + i) + column_sum n addr i (j + 1)

xor_digit : (x y : ℕ) → x < 2 → y < 2 → bit_xor x y ≡ (x + y) % 2
xor_digit x y p q =
    let none_left : bit_xor (x / 2) (y / 2) ≡ 0 =
      let a : x / 2 ≡ 0 = omega arith in let b : y / 2 ≡ 0 = omega arith in rw (a, b) refl in
    omega (arith, bit_xor_step x y)

address_bit-lt : (addr : List ℕ) (k : ℕ) → get_address_bit addr k < 2
unfolding get_address_bit
address_bit-lt addr k = omega arith

hash_bits-parity :
    (n : ℕ) (addr : List ℕ) (i j h : ℕ)
    → h < 2
    → hash_bits n addr i j h ≡ (h + column_sum n addr i j) % 2
unfolding hash_bits column_sum
hash_bits-parity zero addr i j h p = omega arith
hash_bits-parity (suc n) addr i j h p =
    let b = get_address_bit addr (j * 6 + i) in
    let d = xor_digit h b p (address_bit-lt addr (j * 6 + i)) in
    let same = get_address_bit-bit_at addr (j * 6 + i) in
    omega (arith, hash_bits-parity n addr i (j + 1) (bit_xor h b) (omega (arith, d)), d, same)

-- The parity of column `i`.
abbrev pub column : List ℕ → ℕ → ℕ
column addr i = column_sum 8 addr i 0 % 2

times_digit : (c p m : ℕ) → c < 2 → p < m → c * p < m
times_digit zero p m h l = omega arith
times_digit (suc zero) p m h l = omega arith
times_digit (suc (suc c)) p m h l = absurd (omega arith)

put_digit :
    (i index c : ℕ)
    → c < 2
    → index < 2 ^ i
    → 2 ^ i < 2 ^ 32
    → bit_or index (u32 (c * 2 ^ i)) ≡ index + c * 2 ^ i
put_digit i index c h l small =
    let fits = times_digit c (2 ^ i) (2 ^ 32) h small in
    let whole : u32 (c * 2 ^ i) ≡ c * 2 ^ i = omega arith in
    ap (bit_or index) whole
    ∙ bit_or_comm index (c * 2 ^ i)
    ∙ bit_or_disjoint i c index l
    ∙ omega arith

columns-suc :
    (n : ℕ) (addr : List ℕ) (i index : ℕ)
    → index < 2 ^ i
    → 2 ^ i < 2 ^ 32
    → hash_columns (suc n) addr i index
      ≡ hash_columns n addr (i + 1) (index + column addr i * 2 ^ i)
unfolding hash_columns
columns-suc n addr i index lt small =
    let bits : hash_bits 8 addr i 0 0 ≡ column addr i =
      omega (arith, hash_bits-parity 8 addr i 0 0 (omega arith)) in
    ap (λ c. hash_columns n addr (i + 1) (bit_or index (u32 (c * 2 ^ i)))) bits
    ∙ ap (hash_columns n addr (i + 1)) (put_digit i index (column addr i) (omega arith) lt small)

columns-zero : (addr : List ℕ) (i index : ℕ) → hash_columns 0 addr i index ≡ index
unfolding hash_columns
columns-zero addr i index = refl

-- Bit `i` of the hash of an address is the parity of its bits `i`, `i + 6` up to `i + 42` in the
-- order of transmission, byte after byte and in each the least significant bit first, so the hash
-- is below 64.
pub lan865x_hash-value :
    (addr : List ℕ)
    → (lan865x_hash addr
        ≡ column addr 0
          + column addr 1 * 2
          + column addr 2 * 4
          + column addr 3 * 8
          + column addr 4 * 16
          + column addr 5 * 32)
      × (lan865x_hash addr < 64)
unfolding lan865x_hash
lan865x_hash-value addr =
    let c0 = column addr 0 in
    let c1 = c0 * 2 ^ 0 + column addr 1 * 2 ^ 1 in
    let c2 = c1 + column addr 2 * 2 ^ 2 in
    let c3 = c2 + column addr 3 * 2 ^ 3 in
    let c4 = c3 + column addr 4 * 2 ^ 4 in
    let c5 = c4 + column addr 5 * 2 ^ 5 in
    let value : hash_columns 6 addr 0 0 ≡ c5 =
      columns-suc 5 addr 0 0 (omega arith) (omega arith)
      ∙ ap (hash_columns 5 addr 1) (omega arith)
      ∙ columns-suc 4 addr 1 (c0 * 2 ^ 0) (omega arith) (omega arith)
      ∙ columns-suc 3 addr 2 c1 (omega arith) (omega arith)
      ∙ columns-suc 2 addr 3 c2 (omega arith) (omega arith)
      ∙ columns-suc 1 addr 4 c3 (omega arith) (omega arith)
      ∙ columns-suc 0 addr 5 c4 (omega arith) (omega arith)
      ∙ columns-zero addr 6 c5 in
    (omega (arith, value), omega (arith, value))
