-- ===== src/Tc6/Rx/Source/Bytes.antt =====
-- The bytes of a frame as they come together: what is behind the time stamp, and the time stamp.
use base_t1s.Prelude.{
  ℕ, zero, suc, ◌+◌, ◌-◌, ◌≤◌, ◌<◌, Bool, true, false, List, [], ◌∷◌, ◌++◌, ◌≡◌, refl, arith, ap,
  sym, ◌∙◌, length, take, drop, get_or, get_or-take, take-append, drop-drop, ap₂, length-append,
  take-add, drop-append,
}
use base_t1s.Tc6.Rx.Frames.{slice, stamp_at}
use base_t1s.Tc6.Rx.Pieces.{take-drop, drop-front}

get_or-drop : (p i : ℕ) (xs : List ℕ) → get_or (drop p xs) i 0 ≡ get_or xs (p + i) 0
get_or-drop zero i xs = ap (λ k. get_or xs k 0) (omega arith)
get_or-drop (suc p) i [] = refl
get_or-drop (suc p) i (x ∷ xs) =
    let e : suc p + i ≡ suc (p + i) = omega arith in rw e (get_or-drop p i xs)

-- Two buffers with the same eight bytes hold the same time stamp.
stamp-same :
    (timed : Bool) (a b : List ℕ) (p q : ℕ)
    → ((i : ℕ) → i < 8 → get_or a (p + i) 0 ≡ get_or b (q + i) 0)
    → stamp_at timed a p ≡ stamp_at timed b q
stamp-same false a b p q h = refl
stamp-same true a b p q h =
    let at : (i j k : ℕ) → i < 8 → j ≡ p + i → k ≡ q + i → get_or a j 0 ≡ get_or b k 0 =
      λ i j k lt e e'. ap (λ x. get_or a x 0) e ∙ h i lt ∙ ap (λ x. get_or b x 0) (sym e') in
    rw (
      at 0 p q (omega arith) (omega arith) (omega arith),
      at 1 (p + 1) (q + 1) (omega arith) refl refl,
      at 2 (p + 2) (q + 2) (omega arith) refl refl,
      at 3 (p + 3) (q + 3) (omega arith) refl refl,
      at 4 (p + 4) (q + 4) (omega arith) refl refl,
      at 5 (p + 4 + 1) (q + 4 + 1) (omega arith) (omega arith) (omega arith),
      at 6 (p + 4 + 2) (q + 4 + 2) (omega arith) (omega arith) (omega arith),
      at 7 (p + 4 + 3) (q + 4 + 3) (omega arith) (omega arith) (omega arith),
    )

pub stamp-slice :
    (timed : Bool) (b s : List ℕ) (p : ℕ)
    → slice b p 64 ≡ s
    → stamp_at timed b p ≡ stamp_at timed s 0
stamp-slice timed b s p e = stamp-same timed b s p 0 λ i lt.
    sym (get_or-drop p i b)
    ∙ sym (get_or-take 64 i (drop p b) 0 (omega arith))
    ∙ ap (λ x. get_or x i 0) e
    ∙ ap (λ k. get_or s k 0) (omega arith)

pub stamp-append :
    (timed : Bool) (s p : List ℕ) → 8 ≤ length s → stamp_at timed (s ++ p) 0 ≡ stamp_at timed s 0
stamp-append timed s p h = stamp-same timed (s ++ p) s 0 0 λ i lt.
    sym (get_or-take (length s) (0 + i) (s ++ p) 0 (omega arith))
    ∙ ap (λ x. get_or x (0 + i) 0) (take-append (length s) s p refl)

-- A first chunk without its time stamp.
pub slice-start : (b p : List ℕ) (i : ℕ) → slice b i 64 ≡ p → slice b (i + 8) 56 ≡ drop 8 p
slice-start b p i e =
    ap (take 56) (sym (drop-drop 8 i b)) ∙ take-drop 8 56 (drop i b) ∙ ap (drop 8) e

-- A last chunk without the check sequence.
pub frame-end :
    (s p : List ℕ) (k : ℕ)
    → 8 ≤ length s
    → k + 4 ≡ length p
    → drop 8 s ++ take k p ≡ drop 8 (take (length (s ++ p) - 4) (s ++ p))
frame-end s p k h e =
    let cut : length (s ++ p) - 4 ≡ length s + k = omega (arith, length-append s p) in
    let start : take (length s) (s ++ p) ≡ s = take-append (length s) s p refl in
    let rest : take k (drop (length s) (s ++ p)) ≡ take k p =
      ap (λ n. take k (drop n (s ++ p))) (omega arith)
      ∙ ap (take k) (drop-append (length s) 0 s p refl) in
    sym (drop-front 8 s (take k p) h)
    ∙ ap (drop 8)
        (sym (ap (λ n. take n (s ++ p)) cut ∙ take-add (length s) k (s ++ p) ∙ ap₂ ◌++◌ start rest))
