-- ===== src/Word.antt =====
-- Machine words of the driver: casts to fixed widths, and the kernel's word macros (BIT, GENMASK,
-- FIELD_PREP, FIELD_GET, cpu_to_be32, be32_to_cpu) as their documentation states them.
pub mod Bits
pub mod Bytes
use base_t1s.Prelude.{ℕ, ◌+◌, ◌-◌, ◌*◌, ◌/◌, ◌%◌, ◌^◌, List, [], ◌∷◌, get_or, bit_and}

abbrev pub u8 : ℕ → ℕ
u8 n = n % 2 ^ 8

abbrev pub u16 : ℕ → ℕ
u16 n = n % 2 ^ 16

abbrev pub u32 : ℕ → ℕ
u32 n = n % 2 ^ 32

abbrev pub u64 : ℕ → ℕ
u64 n = n % 2 ^ 64

-- FIELD_PREP(GENMASK(hi, lo), v).
abbrev pub field_prep : ℕ → ℕ → ℕ → ℕ
field_prep hi lo v = v % 2 ^ (hi + 1 - lo) * 2 ^ lo

-- FIELD_GET(GENMASK(hi, lo), r).
abbrev pub field_get : ℕ → ℕ → ℕ → ℕ
field_get hi lo r = r / 2 ^ lo % 2 ^ (hi + 1 - lo)

-- FIELD_GET(BIT(k), r).
abbrev pub bit_get : ℕ → ℕ → ℕ
bit_get k r = field_get k k r

-- The bytes of a big-endian word in memory order.
abbrev pub to_be32 : ℕ → List ℕ
to_be32 w = w / 2 ^ 24 % 256 ∷ w / 2 ^ 16 % 256 ∷ w / 2 ^ 8 % 256 ∷ w % 256 ∷ []

abbrev pub from_be32 : List ℕ → ℕ
from_be32 b = get_or b 0 0 * 2 ^ 24 + get_or b 1 0 * 2 ^ 16 + get_or b 2 0 * 2 ^ 8 + get_or b 3 0
