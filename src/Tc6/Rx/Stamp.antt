-- ===== src/Tc6/Rx/Stamp.antt =====
-- The receive time stamp: what `hwtstamp` makes of the eight bytes in front of a frame.
use base_t1s.Prelude.{ℕ, ◌+◌, ◌*◌, ◌%◌, ◌^◌, ◌<◌, ◌≡◌, arith}
use base_t1s.Tc6.Rx.{hwtstamp, load_le32, ns_in_1s}

-- Of the bytes `n0 n1 n2 n3` of the nanoseconds in network order, the two high bits of the last
-- one are lost, since the 30-bit field is cut from the word before its bytes are swapped; the
-- seconds are exact, and nothing overflows 64 bits.
pub hwtstamp-value :
    (s0 s1 s2 s3 n0 n1 n2 n3 : ℕ)
    → (s0 < 256) × (s1 < 256) × (s2 < 256) × (s3 < 256)
    → (n0 < 64) × (n1 < 256) × (n2 < 256) × (n3 < 256)
    → hwtstamp (load_le32 s0 s1 s2 s3) (load_le32 n0 n1 n2 n3)
      ≡ (s0 * 2 ^ 24 + s1 * 2 ^ 16 + s2 * 2 ^ 8 + s3) * ns_in_1s
        + (n0 * 2 ^ 24 + n1 * 2 ^ 16 + n2 * 2 ^ 8 + n3 % 64)
unfolding hwtstamp
hwtstamp-value s0 s1 s2 s3 n0 n1 n2 n3 hs hn = omega arith
