-- ===== src/Tc6/Rx/Source/Cut.antt =====
-- How a MAC-PHY cuts frames into chunks of 64 bytes, and that a receiver undoes it.
use base_t1s.Prelude.{
  ℕ, zero, suc, ◌+◌, ◌-◌, ◌*◌, ◌/◌, ◌%◌, ◌≤◌, Bool, List, [], ◌∷◌, ◌++◌, Option, some, none, ◌≡◌,
  refl, arith, ap, ap₂, sym, ◌∙◌, length, take, drop, length-take, length-drop, take-append-drop,
  append_assoc, length-append,
}
use base_t1s.Tc6.Rx.Frames.{stamp_at}
use base_t1s.Tc6.Rx.Pieces.{cut_out}
use base_t1s.Tc6.Rx.Source.{
  RxChunk, no_data, frame_start, frame_middle, frame_end, put_chunk, reassemble, InOrder, frame_in,
}
use base_t1s.Tc6.Rx.Source.Bytes.{stamp-append}

-- The chunks behind the first one, `n` of them full and not the last.
abbrev pub cut_rest : ℕ → List ℕ → List RxChunk
cut_rest zero s = frame_end s ∷ []
cut_rest (suc n) s = frame_middle (take 64 s) ∷ cut_rest n (drop 64 s)

-- The chunks of a frame with its time stamp and check sequence.
abbrev pub cut : List ℕ → List RxChunk
cut s = frame_start (take 64 s) ∷ cut_rest ((length s - 65) / 64) (drop 64 s)

abbrev pub cut_all : List (List ℕ) → List RxChunk
cut_all [] = []
cut_all (s ∷ ss) = cut s ++ cut_all ss

-- The chunks with receive data.
abbrev pub data_only : List RxChunk → List RxChunk
data_only [] = []
data_only (no_data ∷ cs) = data_only cs
data_only (frame_start p ∷ cs) = frame_start p ∷ data_only cs
data_only (frame_middle p ∷ cs) = frame_middle p ∷ data_only cs
data_only (frame_end p ∷ cs) = frame_end p ∷ data_only cs

pub reassemble-data_only :
    (part : Option (List ℕ)) (cs : List RxChunk)
    → reassemble part (data_only cs) ≡ reassemble part cs
reassemble-data_only part [] = refl
reassemble-data_only part (no_data ∷ cs) = reassemble-data_only part cs
reassemble-data_only part (frame_start p ∷ cs) = rw (reassemble-data_only (some p) cs) refl
reassemble-data_only none (frame_middle p ∷ cs) = rw (reassemble-data_only none cs) refl
reassemble-data_only (some s) (frame_middle p ∷ cs) =
    rw (reassemble-data_only (some (s ++ p)) cs) refl
reassemble-data_only none (frame_end p ∷ cs) = rw (reassemble-data_only none cs) refl
reassemble-data_only (some s) (frame_end p ∷ cs) = rw (reassemble-data_only none cs) refl

pub InOrder-data_only :
    (room : ℕ) (part : Option (List ℕ)) (cs : List RxChunk)
    → InOrder room part (data_only cs)
    → InOrder room part cs
InOrder-data_only room part [] h = tt
InOrder-data_only room part (no_data ∷ cs) h = (tt, InOrder-data_only room part cs h)
InOrder-data_only room part (frame_start p ∷ cs) (f, h) = (f, InOrder-data_only room (some p) cs h)
InOrder-data_only room none (frame_middle p ∷ cs) (f, h) = absurd f
InOrder-data_only room (some s) (frame_middle p ∷ cs) (f, h) =
    (f, InOrder-data_only room (some (s ++ p)) cs h)
InOrder-data_only room none (frame_end p ∷ cs) (f, h) = absurd f
InOrder-data_only room (some s) (frame_end p ∷ cs) (f, h) = (f, InOrder-data_only room none cs h)

-- A run of chunks may be split anywhere.
pub reassemble-append :
    (part : Option (List ℕ)) (cs ds : List RxChunk)
    → reassemble part (cs ++ ds) ≡ (
      (reassemble part cs).0 ++ (reassemble (reassemble part cs).1 ds).0,
      (reassemble (reassemble part cs).1 ds).1,
    )
reassemble-append part [] ds = refl
reassemble-append part (c ∷ cs) ds =
    let r = put_chunk part c in
    rw (reassemble-append r.1 cs ds) (
      ap (λ x. (x, (reassemble (reassemble r.1 cs).1 ds).1))
        (sym (append_assoc r.0 (reassemble r.1 cs).0 (reassemble (reassemble r.1 cs).1 ds).0)))

pub InOrder-append :
    (room : ℕ) (part : Option (List ℕ)) (cs ds : List RxChunk)
    → InOrder room part (cs ++ ds)
    → InOrder room part cs × InOrder room (reassemble part cs).1 ds
InOrder-append room part [] ds h = (tt, h)
InOrder-append room part (c ∷ cs) ds (f, h) =
    let (h1, h2) = InOrder-append room (put_chunk part c).1 cs ds h in ((f, h1), h2)

reassemble-cut_rest :
    (n : ℕ) (s r : List ℕ) (cs : List RxChunk)
    → reassemble (some s) (cut_rest n r ++ cs)
      ≡ ((s ++ r) ∷ (reassemble none cs).0, (reassemble none cs).1)
reassemble-cut_rest zero s r cs = refl
reassemble-cut_rest (suc n) s r cs =
    reassemble-cut_rest n (s ++ take 64 r) (drop 64 r) cs
    ∙ ap (λ x. (x ∷ (reassemble none cs).0, (reassemble none cs).1))
        (append_assoc s (take 64 r) (drop 64 r) ∙ ap (λ x. s ++ x) (take-append-drop 64 r))

-- Frames come out whole and in order.
pub reassemble-cut_all : (ss : List (List ℕ)) → reassemble none (cut_all ss) ≡ (ss, none)
reassemble-cut_all [] = refl
reassemble-cut_all (s ∷ ss) =
    reassemble-cut_rest ((length s - 65) / 64) (take 64 s) (drop 64 s) (cut_all ss)
    ∙ ap₂ (λ x r. (x ∷ r.0, r.1)) (take-append-drop 64 s) (reassemble-cut_all ss)

-- The sizes of frames that the driver has room for. The last chunk holds at least four bytes.
abbrev pub AllFit : ℕ → List (List ℕ) → Type 0
AllFit room [] = Unit {0}
AllFit room (s ∷ ss) =
    ((65 ≤ length s) × (length s ≤ room + 12) × (3 ≤ (length s - 1) % 64)) × AllFit room ss

InOrder-cut_rest :
    (room n : ℕ) (s r : List ℕ) (cs : List RxChunk)
    → length s + length r ≤ room + 12
    → n * 64 + 4 ≤ length r
    → InOrder room none cs
    → InOrder room (some s) (cut_rest n r ++ cs)
InOrder-cut_rest room zero s r cs le lo h = ((omega arith, le), h)
InOrder-cut_rest room (suc n) s r cs le lo h = (
  omega arith,
  InOrder-cut_rest room n (s ++ take 64 r) (drop 64 r) cs
      (omega (arith, length-drop 64 r, length-append s (take 64 r), length-take 64 r))
      (omega (arith, length-drop 64 r)) h,
)

pub InOrder-cut_all :
    (room : ℕ) (ss : List (List ℕ)) → AllFit room ss → InOrder room none (cut_all ss)
InOrder-cut_all room [] f = tt
InOrder-cut_all room (s ∷ ss) ((lo, hi, last), f) = (
  omega arith,
  InOrder-cut_rest room ((length s - 65) / 64) (take 64 s) (drop 64 s) (cut_all ss)
      (omega (arith, length-drop 64 s, length-take 64 s)) (omega (arith, length-drop 64 s))
      (InOrder-cut_all room ss f),
)

-- A frame is what was sent between the time stamp and the check sequence.
pub frame_in-sent :
    (timed : Bool) (ts frame fcs : List ℕ)
    → length ts ≡ 8
    → length fcs ≡ 4
    → frame_in timed (ts ++ (frame ++ fcs)) ≡ (frame, stamp_at timed ts 0)
frame_in-sent timed ts frame fcs lt lf =
    let count : length (ts ++ (frame ++ fcs)) - 4 ≡ 8 + length frame =
      omega (arith, length-append ts (frame ++ fcs), length-append frame fcs) in
    ap₂ (λ x y. (x, y))
      (ap (λ n. drop 8 (take n (ts ++ (frame ++ fcs)))) count ∙ cut_out ts frame fcs lt)
      (stamp-append timed ts (frame ++ fcs) (omega arith))
