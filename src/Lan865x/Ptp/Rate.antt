-- ===== src/Lan865x/Ptp/Rate.antt =====
-- The rate of the PTP clock: the increment per tick of 40 ns, in 2 ^ -24 ns.
use base_t1s.Prelude.{
  ℕ, suc, ◌+◌, ◌*◌, ◌/◌, ◌%◌, ◌^◌, ◌≤◌, ◌<◌, pos, negsuc, ◌≡◌, ◌∙◌, arith, bit_or,
}
use base_t1s.Word.{u32}
use base_t1s.Word.Bits.{bit_or_comm, bit_or_disjoint}
use base_t1s.Lan865x.Clock.{tisubn_word}
use base_t1s.Lan865x.Ptp.{diff_b24, adjusted_ticks}

-- Up to a million parts per million, in units of 2 ^ -16, the increment is 40 ns changed by the
-- parts asked for, with the change cut to a multiple of 2 ^ -24 ns towards 0.
pub adjusted_ticks-exact :
    (m : ℕ)
    → m < 65536000000
    → ((adjusted_ticks (pos m) * 1000000 ≤ 40 * 2 ^ 24 * 1000000 + 10240 * m)
        × (40 * 2 ^ 24 * 1000000 + 10240 * m < adjusted_ticks (pos m) * 1000000 + 1000000))
      × ((adjusted_ticks (negsuc m) * 1000000 + 10240 * suc m < 40 * 2 ^ 24 * 1000000 + 1000000)
          × (40 * 2 ^ 24 * 1000000 ≤ adjusted_ticks (negsuc m) * 1000000 + 10240 * suc m))
unfolding adjusted_ticks diff_b24
adjusted_ticks-exact m lt = ((omega arith, omega arith), (omega arith, omega arith))

-- The words that go to the increment registers hold an increment of less than 2 ^ 32 as a whole:
-- the nanoseconds, the upper 16 bits of the fraction, and its low byte.
ti_words-whole :
    (ticks : ℕ)
    → ticks < 2 ^ 32
    → let w = tisubn_word (ticks % 2 ^ 24) in
      (u32 (ticks / 2 ^ 24) % 2 ^ 8 * 2 ^ 24 + w % 2 ^ 16 * 2 ^ 8 + w / 2 ^ 24 ≡ ticks)
      × (w / 2 ^ 16 % 2 ^ 8 ≡ 0)
      × (w < 2 ^ 32)
unfolding tisubn_word
ti_words-whole ticks lt =
    let high = ticks % 2 ^ 24 / 2 ^ 8 % 2 ^ 16 in
    let low = ticks % 2 ^ 24 % 2 ^ 8 in
    let joined : bit_or high (low * 2 ^ 24) ≡ low * 2 ^ 24 + high =
      bit_or_comm high (low * 2 ^ 24) ∙ bit_or_disjoint 24 low high (omega arith) in
    rw joined (omega arith, omega arith, omega arith)
