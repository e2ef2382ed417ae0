-- ===== src/Prelude/Lists.antt =====
-- Byte buffers as lists with native indices: slices, and the block write of `memcpy`.
use Prim.Native.Nat.{ℕ, zero, suc, ◌+◌, ◌-◌, ◌≤◌, ◌<◌, min}
use mathlib.Core.Path.{◌∙◌, ◌≡◌, refl, sym, ap}
use mathlib.Core.List.{List, [], ◌∷◌, ◌++◌}
use mathlib.Core.Option.{Option, none, some}
use native.Mathlib.Omega.{arith}

module _ {ℓ} {A : Type ℓ} where
  abbrev pub length : List A → ℕ
  length [] = 0
  length (x ∷ xs) = suc (length xs)

  abbrev pub get_elem? : List A → ℕ → Option A
  get_elem? [] i = none
  get_elem? (x ∷ xs) zero = some x
  get_elem? (x ∷ xs) (suc i) = get_elem? xs i

  abbrev pub get_or : List A → ℕ → A → A
  get_or [] i d = d
  get_or (x ∷ xs) zero d = x
  get_or (x ∷ xs) (suc i) d = get_or xs i d

  abbrev pub set : List A → ℕ → A → List A
  set [] i v = []
  set (x ∷ xs) zero v = v ∷ xs
  set (x ∷ xs) (suc i) v = x ∷ set xs i v

  abbrev pub take : ℕ → List A → List A
  take zero xs = []
  take (suc n) [] = []
  take (suc n) (x ∷ xs) = x ∷ take n xs

  abbrev pub drop : ℕ → List A → List A
  drop zero xs = xs
  drop (suc n) [] = []
  drop (suc n) (x ∷ xs) = drop n xs

  abbrev pub replicate : ℕ → A → List A
  replicate zero a = []
  replicate (suc n) a = a ∷ replicate n a

  -- Writes `ys` over the front of `xs`; what does not fit is dropped.
  abbrev pub overwrite : List A → List A → List A
  overwrite xs [] = xs
  overwrite [] (y ∷ ys) = []
  overwrite (x ∷ xs) (y ∷ ys) = y ∷ overwrite xs ys

  -- `memcpy(xs + n, ys, length ys)`.
  abbrev pub put_at : List A → ℕ → List A → List A
  put_at xs zero ys = overwrite xs ys
  put_at [] (suc n) ys = []
  put_at (x ∷ xs) (suc n) ys = x ∷ put_at xs n ys

module _ {ℓ} {A : Type ℓ} where
  pub length-append : (xs ys : List A) → length (xs ++ ys) ≡ length xs + length ys
  length-append [] ys = omega arith
  length-append (x ∷ xs) ys = omega (arith, length-append xs ys)

  pub length-take : (n : ℕ) (xs : List A) → length (take n xs) ≡ min n (length xs)
  length-take zero xs = omega arith
  length-take (suc n) [] = omega arith
  length-take (suc n) (x ∷ xs) = omega (arith, length-take n xs)

  pub length-drop : (n : ℕ) (xs : List A) → length (drop n xs) ≡ length xs - n
  length-drop zero xs = omega arith
  length-drop (suc n) [] = omega arith
  length-drop (suc n) (x ∷ xs) = omega (arith, length-drop n xs)

  pub length-replicate : (n : ℕ) (a : A) → length (replicate n a) ≡ n
  length-replicate zero a = refl
  length-replicate (suc n) a = ap suc (length-replicate n a)

  pub length-overwrite : (xs ys : List A) → length (overwrite xs ys) ≡ length xs
  length-overwrite xs [] = refl
  length-overwrite [] (y ∷ ys) = refl
  length-overwrite (x ∷ xs) (y ∷ ys) = ap suc (length-overwrite xs ys)

  pub length-put_at : (xs : List A) (n : ℕ) (ys : List A) → length (put_at xs n ys) ≡ length xs
  length-put_at xs zero ys = length-overwrite xs ys
  length-put_at [] (suc n) ys = refl
  length-put_at (x ∷ xs) (suc n) ys = ap suc (length-put_at xs n ys)

  pub take-append-drop : (n : ℕ) (xs : List A) → take n xs ++ drop n xs ≡ xs
  take-append-drop zero xs = refl
  take-append-drop (suc n) [] = refl
  take-append-drop (suc n) (x ∷ xs) = rw (take-append-drop n xs)

  pub take_all : (n : ℕ) (xs : List A) → length xs ≤ n → take n xs ≡ xs
  take_all zero [] h = refl
  take_all zero (x ∷ xs) h = absurd (omega arith)
  take_all (suc n) [] h = refl
  take_all (suc n) (x ∷ xs) h = ap (◌∷◌ x) (take_all n xs (omega arith))

  pub take-overwrite :
      (n : ℕ) (xs ys : List A)
      → n ≡ length ys
      → length ys ≤ length xs
      → take n (overwrite xs ys) ≡ ys
  take-overwrite zero xs [] e h = refl
  take-overwrite zero xs (y ∷ ys) e h = absurd (omega arith)
  take-overwrite (suc n) xs [] e h = absurd (omega arith)
  take-overwrite (suc n) [] (y ∷ ys) e h = absurd (omega arith)
  take-overwrite (suc n) (x ∷ xs) (y ∷ ys) e h =
      ap (◌∷◌ y) (take-overwrite n xs ys (omega arith) (omega arith))

  -- What was written can be read back.
  pub take-drop-put_at :
      (xs : List A) (n : ℕ) (ys : List A) (k : ℕ)
      → k ≡ length ys
      → n + length ys ≤ length xs
      → take k (drop n (put_at xs n ys)) ≡ ys
  take-drop-put_at xs zero ys k e h = take-overwrite k xs ys e (omega arith)
  take-drop-put_at [] (suc n) ys k e h = absurd (omega arith)
  take-drop-put_at (x ∷ xs) (suc n) ys k e h = take-drop-put_at xs n ys k e (omega arith)

  -- A write leaves what stands before it.
  pub take-put_at :
      (m : ℕ) (xs : List A) (n : ℕ) (ys : List A) → m ≤ n → take m (put_at xs n ys) ≡ take m xs
  take-put_at zero xs n ys h = refl
  take-put_at (suc m) xs zero ys h = absurd (omega arith)
  take-put_at (suc m) [] (suc n) ys h = refl
  take-put_at (suc m) (x ∷ xs) (suc n) ys h = ap (◌∷◌ x) (take-put_at m xs n ys (omega arith))

  pub take-nil : (n : ℕ) → take {A = A} n [] ≡ []
  take-nil zero = refl
  take-nil (suc n) = refl

  drop-nil : (n : ℕ) → drop {A = A} n [] ≡ []
  drop-nil zero = refl
  drop-nil (suc n) = refl

  pub take-add : (m k : ℕ) (xs : List A) → take (m + k) xs ≡ take m xs ++ take k (drop m xs)
  take-add zero k xs = ap (λ j. take j xs) (omega arith)
  take-add (suc m) k [] = rw (take-nil (suc m + k), take-nil k)
  take-add (suc m) k (x ∷ xs) =
      let e : suc m + k ≡ suc (m + k) = omega arith in rw e (ap (◌∷◌ x) (take-add m k xs))

  pub drop-drop : (m k : ℕ) (xs : List A) → drop m (drop k xs) ≡ drop (k + m) xs
  drop-drop m zero xs = ap (λ j. drop j xs) (omega arith)
  drop-drop m (suc k) [] = rw (drop-nil m, drop-nil (suc k + m))
  drop-drop m (suc k) (x ∷ xs) =
      let e : suc k + m ≡ suc (k + m) = omega arith in rw e (drop-drop m k xs)

  pub drop-overwrite :
      (m : ℕ) (xs ys : List A) → length ys ≤ m → drop m (overwrite xs ys) ≡ drop m xs
  drop-overwrite m xs [] h = refl
  drop-overwrite m [] (y ∷ ys) h = refl
  drop-overwrite zero (x ∷ xs) (y ∷ ys) h = absurd (omega arith)
  drop-overwrite (suc m) (x ∷ xs) (y ∷ ys) h = drop-overwrite m xs ys (omega arith)

  -- A write leaves what stands behind it.
  pub drop-put_at :
      (m : ℕ) (xs : List A) (n : ℕ) (ys : List A)
      → n + length ys ≤ m
      → drop m (put_at xs n ys) ≡ drop m xs
  drop-put_at m xs zero ys h = drop-overwrite m xs ys (omega arith)
  drop-put_at m [] (suc n) ys h = refl
  drop-put_at zero (x ∷ xs) (suc n) ys h = absurd (omega arith)
  drop-put_at (suc m) (x ∷ xs) (suc n) ys h = drop-put_at m xs n ys (omega arith)

  -- A slice depends on the bytes up to its end.
  pub take-drop-take :
      (k m j : ℕ) (xs : List A) → m + k ≤ j → take k (drop m (take j xs)) ≡ take k (drop m xs)
  take-drop-take zero m j xs h = refl
  take-drop-take (suc k) zero zero xs h = absurd (omega arith)
  take-drop-take (suc k) zero (suc j) [] h = refl
  take-drop-take (suc k) zero (suc j) (x ∷ xs) h =
      ap (◌∷◌ x) (take-drop-take k zero j xs (omega arith))
  take-drop-take (suc k) (suc m) zero xs h = absurd (omega arith)
  take-drop-take (suc k) (suc m) (suc j) [] h = refl
  take-drop-take (suc k) (suc m) (suc j) (x ∷ xs) h = take-drop-take (suc k) m j xs (omega arith)

  pub get_elem?-append :
      (xs ys : List A) (i : ℕ) → get_elem? (xs ++ ys) (length xs + i) ≡ get_elem? ys i
  get_elem?-append [] ys i = ap (λ j. get_elem? ys j) (omega arith)
  get_elem?-append (x ∷ xs) ys i =
      ap (λ j. get_elem? (x ∷ xs ++ ys) j) step ∙ get_elem?-append xs ys i
    where
      step : length (x ∷ xs) + i ≡ suc (length xs + i)
      step = omega arith

  pub get_elem?-eq-get_or :
      (xs : List A) (i : ℕ) (d : A) → suc i ≤ length xs → get_elem? xs i ≡ some (get_or xs i d)
  get_elem?-eq-get_or [] i d h = absurd (omega arith)
  get_elem?-eq-get_or (x ∷ xs) zero d h = refl
  get_elem?-eq-get_or (x ∷ xs) (suc i) d h = get_elem?-eq-get_or xs i d (omega arith)

  -- Behind the first of two lists, whose length is `n`.
  pub drop-append : (n k : ℕ) (xs ys : List A) → length xs ≡ n → drop (n + k) (xs ++ ys) ≡ drop k ys
  drop-append n k [] ys h = ap (λ j. drop j ys) {y = k} (omega arith)
  drop-append zero k (x ∷ xs) ys h = absurd (omega arith)
  drop-append (suc n) k (x ∷ xs) ys h =
      ap (λ j. drop j (x ∷ (xs ++ ys))) {y = suc (n + k)} (omega arith)
      ∙ drop-append n k xs ys (omega arith)

  pub take-append : (n : ℕ) (xs ys : List A) → length xs ≡ n → take n (xs ++ ys) ≡ xs
  take-append n [] ys h = ap (λ j. take j ys) {y = 0} (omega arith)
  take-append zero (x ∷ xs) ys h = absurd (omega arith)
  take-append (suc n) (x ∷ xs) ys h = ap (λ zs. x ∷ zs) (take-append n xs ys (omega arith))

  pub get_or-append :
      (n k : ℕ) (xs ys : List A) (d : A)
      → length xs ≡ n
      → get_or (xs ++ ys) (n + k) d ≡ get_or ys k d
  get_or-append n k [] ys d h = ap (λ j. get_or ys j d) {y = k} (omega arith)
  get_or-append zero k (x ∷ xs) ys d h = absurd (omega arith)
  get_or-append (suc n) k (x ∷ xs) ys d h =
      ap (λ j. get_or (x ∷ (xs ++ ys)) j d) {y = suc (n + k)} (omega arith)
      ∙ get_or-append n k xs ys d (omega arith)

  pub get_or-take : (n i : ℕ) (xs : List A) (d : A) → i < n → get_or (take n xs) i d ≡ get_or xs i d
  get_or-take zero i xs d h = absurd (omega arith)
  get_or-take (suc n) i [] d h = refl
  get_or-take (suc n) zero (x ∷ xs) d h = refl
  get_or-take (suc n) (suc i) (x ∷ xs) d h = get_or-take n i xs d (omega arith)

  -- A slice of what was written over the front.
  pub slice-overwrite :
      (k m n : ℕ) (xs ys : List A)
      → length ys ≡ n
      → n ≤ length xs
      → m + k ≤ n
      → take k (drop m (overwrite xs ys)) ≡ take k (drop m ys)
  slice-overwrite k m n xs ys e le h =
      sym (take-drop-take k m n (overwrite xs ys) h)
      ∙ ap (λ z. take k (drop m z)) (take-overwrite n xs ys (sym e) (omega arith))
