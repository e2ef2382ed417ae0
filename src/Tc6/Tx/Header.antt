-- ===== src/Tc6/Tx/Header.antt =====
-- The data header of `oa_tc6_prepare_data_header`: its fields as a receiver reads them, and its
-- parity.
use base_t1s.Prelude.{ℕ, ◌+◌, ◌*◌, ◌/◌, ◌%◌, ◌^◌, ◌<◌, Bool, ◌≡◌, arith, from_bool, refl}
use base_t1s.Word.{field_get, bit_get, field_prep}
use base_t1s.Word.Bits.{bit_or_sum}
use base_t1s.Tc6.Parity.{get_parity, ones}
use base_t1s.Tc6.Parity.Ones.{parity_bit_sum, parity_bit_odd}
use base_t1s.Tc6.Tx.{data_header_fields, data_header_word}

-- The fields do not overlap, so `|` adds them up.
data_header_sum :
    (dv sv ev : Bool) (ebo ts : ℕ)
    → data_header_fields dv sv ev ebo ts
      ≡ 2 ^ 31
        + from_bool dv % 2 * 2 ^ 21
        + from_bool sv % 2 * 2 ^ 20
        + from_bool ev % 2 * 2 ^ 14
        + ebo % 64 * 2 ^ 8
        + ts % 4 * 2 ^ 6
unfolding data_header_fields
data_header_sum dv sv ev ebo ts = rw (
  bit_or_sum 22 (field_prep 31 31 1) (field_prep 21 21 (from_bool dv)) refl (omega arith),
  bit_or_sum 21 (2 ^ 31 + field_prep 21 21 (from_bool dv)) (field_prep 20 20 (from_bool sv))
      (omega arith) (omega arith),
  bit_or_sum 20 (2 ^ 31 + field_prep 21 21 (from_bool dv) + field_prep 20 20 (from_bool sv))
      (field_prep 14 14 (from_bool ev)) (omega arith) (omega arith),
  bit_or_sum 14
      (2 ^ 31
        + field_prep 21 21 (from_bool dv)
        + field_prep 20 20 (from_bool sv)
        + field_prep 14 14 (from_bool ev))
      (field_prep 13 8 ebo) (omega arith) (omega arith),
  bit_or_sum 8
      (2 ^ 31
        + field_prep 21 21 (from_bool dv)
        + field_prep 20 20 (from_bool sv)
        + field_prep 14 14 (from_bool ev)
        + field_prep 13 8 ebo)
      (field_prep 7 6 ts) (omega arith) (omega arith),
)

from_bool-lt : (b : Bool) → from_bool b < 2
from_bool-lt b = ground arith

header_even : (dv sv ev : Bool) (ebo ts : ℕ) → data_header_fields dv sv ev ebo ts % 2 ≡ 0
header_even dv sv ev ebo ts = omega (arith, data_header_sum dv sv ev ebo ts)

header_with_parity :
    (dv sv ev : Bool) (ebo ts : ℕ)
    → let h = data_header_fields dv sv ev ebo ts in
      (data_header_word dv sv ev ebo ts ≡ h + get_parity h) × (get_parity h < 2)
unfolding data_header_word
header_with_parity dv sv ev ebo ts =
    parity_bit_sum (data_header_fields dv sv ev ebo ts) (header_even dv sv ev ebo ts)

header_odd : (dv sv ev : Bool) (ebo ts : ℕ) → ones 32 (data_header_word dv sv ev ebo ts) % 2 ≡ 1
unfolding data_header_word
header_odd dv sv ev ebo ts =
    parity_bit_odd (data_header_fields dv sv ev ebo ts) (header_even dv sv ev ebo ts)

pub data_header_word-value :
    (dv sv ev : Bool) (ebo ts : ℕ)
    → let w = data_header_word dv sv ev ebo ts in
      (w / 2
        ≡ 2 ^ 30
          + from_bool dv * 2 ^ 20
          + from_bool sv * 2 ^ 19
          + from_bool ev * 2 ^ 13
          + ebo % 64 * 2 ^ 7
          + ts % 4 * 2 ^ 5)
      × (from_bool dv < 2)
      × (from_bool sv < 2)
      × (from_bool ev < 2)
data_header_word-value dv sv ev ebo ts = omega (
  arith,
  data_header_sum dv sv ev ebo ts,
  header_with_parity dv sv ev ebo ts,
  from_bool-lt dv,
  from_bool-lt sv,
  from_bool-lt ev,
)

-- A receiver of the header reads back the flags, the end offset and the time stamp mode that were
-- put in, the start word offset and the reserved bits are 0, the chunk is marked as data, and the
-- number of set bits is odd.
pub data_header_word-decode :
    (dv sv ev : Bool) (ebo ts : ℕ)
    → ebo < 64
    → ts < 4
    → let w = data_header_word dv sv ev ebo ts in
      (w < 2 ^ 32)
      × (bit_get 31 w ≡ 1)
      × (field_get 30 22 w ≡ 0)
      × (bit_get 21 w ≡ from_bool dv)
      × (bit_get 20 w ≡ from_bool sv)
      × (field_get 19 15 w ≡ 0)
      × (bit_get 14 w ≡ from_bool ev)
      × (field_get 13 8 w ≡ ebo)
      × (field_get 7 6 w ≡ ts)
      × (field_get 5 1 w ≡ 0)
      × (ones 32 w % 2 ≡ 1)
data_header_word-decode dv sv ev ebo ts he ht =
    let (v, d, b, e) = data_header_word-value dv sv ev ebo ts in
    (
      omega arith,
      omega arith,
      omega arith,
      omega arith,
      omega arith,
      omega arith,
      omega arith,
      omega arith,
      omega arith,
      omega arith,
      header_odd dv sv ev ebo ts,
    )

-- The flags and the end offset by themselves, at any time stamp mode.
pub data_header_word-flags :
    (dv sv ev : Bool) (ebo ts : ℕ)
    → let w = data_header_word dv sv ev ebo ts in
      (w < 2 ^ 32)
      × (bit_get 21 w ≡ from_bool dv)
      × (bit_get 20 w ≡ from_bool sv)
      × (bit_get 14 w ≡ from_bool ev)
      × (field_get 13 8 w ≡ ebo % 64)
data_header_word-flags dv sv ev ebo ts =
    let v = data_header_word-value dv sv ev ebo ts in
    (omega arith, omega arith, omega arith, omega arith, omega arith)
