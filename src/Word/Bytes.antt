-- ===== src/Word/Bytes.antt =====
-- Byte order: a big-endian word reads back as it was written.
use base_t1s.Prelude.{ℕ, ◌^◌, ◌<◌, ◌≡◌, arith}
use base_t1s.Word.{to_be32, from_be32}

pub from_be32-to_be32 : (w : ℕ) → w < 2 ^ 32 → from_be32 (to_be32 w) ≡ w
from_be32-to_be32 w h = omega arith
