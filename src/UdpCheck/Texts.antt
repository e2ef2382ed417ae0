-- ===== src/UdpCheck/Texts.antt =====
-- Texts in C: the integrity check compares what stands before the first 0 of an answer.
use base_t1s.Prelude.{
  ℕ, zero, suc, ◌≤◌, true, false, List, [], ◌∷◌, ◌++◌, ◌≡◌, refl, arith, ap, sym, subst, ◌∙◌, ◌==◌,
  ◌⊎◌, inl, inr, Bool-cases,
}
use base_t1s.Tc6.Ctrl.{bytes_eq}
use base_t1s.Tc6.Ctrl.Reply.{bytes_eq-eq, bytes_eq_refl}
use base_t1s.UdpCheck.{c_string}

-- A list of `n` small letters.
abbrev pub IsMessage : ℕ → List ℕ → Type 0
IsMessage n [] = n ≡ 0
IsMessage zero (c ∷ cs) = ⊥
IsMessage (suc n) (c ∷ cs) = ((97 ≤ c) × (c ≤ 122)) × IsMessage n cs

-- A datagram with the text `b`: nothing else, or a 0 and anything behind it.
abbrev pub HasText : List ℕ → List ℕ → Type 0
HasText b r = (r ≡ b) ⊎ ((rest : List ℕ) × (r ≡ b ++ 0 ∷ rest))

text_of : (r : List ℕ) → HasText (c_string r) r
unfolding c_string
text_of [] = inl refl
text_of (x ∷ r) = elim (Bool-cases (x == 0)) [
  | inl z ↦ let here : x ≡ 0 = ground arith in rw z (inr (r, ap (λ y. y ∷ r) here))
  | inr nz ↦ rw nz (elim (text_of r) [
    | inl e ↦ inl (ap (λ l. x ∷ l) e)
    | inr (rest, e) ↦ inr (rest, ap (λ l. x ∷ l) e)
  ])
]

letters : (c : ℕ) (cs : List ℕ) → 97 ≤ c → c_string (c ∷ cs) ≡ c ∷ c_string cs
unfolding c_string
letters c cs l = let letter : (c == 0) ≡ false = ground arith in rw letter refl

c_string-message : (n : ℕ) (b : List ℕ) → IsMessage n b → c_string b ≡ b
unfolding c_string
c_string-message n [] m = refl
c_string-message zero (c ∷ cs) m = elim m [ ]
c_string-message (suc n) (c ∷ cs) ((l, u), m) =
    letters c cs l ∙ ap (λ x. c ∷ x) (c_string-message n cs m)

c_string-ended : (n : ℕ) (b rest : List ℕ) → IsMessage n b → c_string (b ++ 0 ∷ rest) ≡ b
unfolding c_string
c_string-ended n [] rest m = refl
c_string-ended zero (c ∷ cs) rest m = elim m [ ]
c_string-ended (suc n) (c ∷ cs) rest ((l, u), m) =
    letters c (cs ++ 0 ∷ rest) l ∙ ap (λ x. c ∷ x) (c_string-ended n cs rest m)

c_string-HasText : (n : ℕ) (b r : List ℕ) → IsMessage n b → HasText b r → c_string r ≡ b
c_string-HasText n b r m (inl e) = ap c_string e ∙ c_string-message n b m
c_string-HasText n b r m (inr (rest, e)) = ap c_string e ∙ c_string-ended n b rest m

-- The comparison of the texts tells whether the answer has the text of the message.
pub compare-HasText :
    (n : ℕ) (b r : List ℕ) → IsMessage n b → HasText b r → bytes_eq b (c_string r) ≡ true
compare-HasText n b r m h = ap (bytes_eq b) (c_string-HasText n b r m h) ∙ bytes_eq_refl b

pub compare-other : (b r : List ℕ) → (¬ HasText b r) → bytes_eq b (c_string r) ≡ false
compare-other b r h = elim (Bool-cases (bytes_eq b (c_string r))) [
  | inl e ↦ absurd (h (subst (λ s. HasText s r) (sym (bytes_eq-eq b (c_string r) e)) (text_of r)))
  | inr e ↦ e
]
