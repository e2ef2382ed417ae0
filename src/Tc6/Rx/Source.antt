-- ===== src/Tc6/Rx/Source.antt =====
-- The other end of the receive path, independent of the driver: what the chunks of a MAC-PHY hold,
-- how a receiver puts the frames together from them, and how a sender cuts frames into them. A frame
-- travels as 8 bytes of time stamp, its bytes, and 4 bytes of check sequence.
pub mod Cut
pub mod Bytes
use base_t1s.Prelude.{
  ℕ, ◌+◌, ◌-◌, ◌*◌, ◌≤◌, List, [], ◌∷◌, ◌++◌, Option, some, none, ◌≡◌, length, take, drop, Bool,
}
use base_t1s.Word.{bit_get}
use base_t1s.Tc6.Rx.Frames.{slice, stamp_at}
use base_t1s.Tc6.Rx.Chunks.{footer_of, IsStart, IsMiddle, IsEnd}

-- A chunk without receive data, and the three kinds of chunks of a frame with their bytes.
pub data RxChunk : Type 0 where
  no_data : RxChunk
  frame_start frame_middle frame_end : List ℕ → RxChunk

-- No extended status, a good header, a configuration in step, and no valid payload.
pub record IsEmpty (footer : ℕ) : Type 0 where
  pub no_status : bit_get 31 footer ≡ 0
  pub good_header : bit_get 30 footer ≡ 0
  pub in_step : bit_get 29 footer ≡ 1
  pub no_payload : bit_get 21 footer ≡ 0

-- Chunk `i` of the buffer `b` is the given one.
abbrev pub HoldsChunk : List ℕ → ℕ → RxChunk → Type 0
HoldsChunk b i no_data = IsEmpty (footer_of i b)
HoldsChunk b i (frame_start p) =
    IsStart (footer_of i b) × (length p ≡ 64) × (slice b (i * 68) 64 ≡ p)
HoldsChunk b i (frame_middle p) =
    IsMiddle (footer_of i b) × (length p ≡ 64) × (slice b (i * 68) 64 ≡ p)
HoldsChunk b i (frame_end p) =
    IsEnd (length p - 1) (footer_of i b)
    × ((1 ≤ length p) × (length p ≤ 64))
    × (slice b (i * 68) (length p) ≡ p)

abbrev pub HoldsChunks : List ℕ → ℕ → List RxChunk → Type 0
HoldsChunks b i [] = Unit {0}
HoldsChunks b i (c ∷ cs) = HoldsChunk b i c × HoldsChunks b (i + 1) cs

-- The bytes that a chunk completes, and those of the part that has come so far.
abbrev pub put_chunk : Option (List ℕ) → RxChunk → List (List ℕ) × Option (List ℕ)
put_chunk part no_data = ([], part)
put_chunk part (frame_start p) = ([], some p)
put_chunk none (frame_middle p) = ([], none)
put_chunk (some s) (frame_middle p) = ([], some (s ++ p))
put_chunk none (frame_end p) = ([], none)
put_chunk (some s) (frame_end p) = ((s ++ p) ∷ [], none)

abbrev pub reassemble : Option (List ℕ) → List RxChunk → List (List ℕ) × Option (List ℕ)
reassemble part [] = ([], part)
reassemble part (c ∷ cs) =
    let rest = reassemble (put_chunk part c).1 cs in ((put_chunk part c).0 ++ rest.0, rest.1)

-- A chunk may follow the part that has come, frames stay within `room` bytes, and at least four
-- bytes are in the last chunk: with fewer, the driver's `size - 4` wraps.
abbrev pub Fits : ℕ → Option (List ℕ) → RxChunk → Type 0
Fits room part no_data = Unit {0}
Fits room none (frame_start p) = 56 ≤ room
Fits room (some s) (frame_start p) = ⊥
Fits room none (frame_middle p) = ⊥
Fits room (some s) (frame_middle p) = length s + 64 ≤ room + 8
Fits room none (frame_end p) = ⊥
Fits room (some s) (frame_end p) = (4 ≤ length p) × (length s + length p ≤ room + 12)

abbrev pub InOrder : ℕ → Option (List ℕ) → List RxChunk → Type 0
InOrder room part [] = Unit {0}
InOrder room part (c ∷ cs) = Fits room part c × InOrder room (put_chunk part c).1 cs

-- The frame among the bytes that were put together, and its time stamp, if all frames get one.
abbrev pub frame_in : Bool → List ℕ → List ℕ × Option ℕ
frame_in timed s = (drop 8 (take (length s - 4) s), stamp_at timed s 0)
