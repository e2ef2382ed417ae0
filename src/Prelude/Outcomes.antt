-- ===== src/Prelude/Outcomes.antt =====
-- What a C function of the driver returns: a value, a negative errno, or a memory fault, beside
-- the state that it leaves. `err e` stands for the return value `-e`.
use Prim.Native.Nat.{ℕ}
use mathlib.Core.Bool.{Bool, true, false}
use mathlib.Core.Option.{Option, none, some}

pub data Outcome {ℓ} (A : Type ℓ) : Type ℓ where
  ok : A → Outcome A
  err : ℕ → Outcome A
  fault : Outcome A

-- A stateful call: from the state before to the outcome and the state after.
abbrev pub M : Type 0 → Type 0 → Type 0
M S A = S → Outcome A × S

abbrev pub continue {ℓ} :
    {A : Type ℓ} {S B : Type 0} → Outcome A → (A → S → Outcome B × S) → S → Outcome B × S
continue (ok a) f s = f a s
continue (err e) f s = (err e, s)
continue fault f s = (fault, s)

infixl 5 ◌>>=◌ ◌>>◌
abbrev pub ◌>>=◌ : {S A B : Type 0} → M S A → (A → M S B) → M S B
◌>>=◌ m f s = continue (m s).0 f (m s).1

abbrev pub ◌>>◌ : {S B : Type 0} → M S (Unit {0}) → M S B → M S B
m >> k = m >>= λ _. k

abbrev pub pure : {S A : Type 0} → A → M S A
pure a s = (ok a, s)

abbrev pub fail : {S A : Type 0} → ℕ → M S A
fail e s = (err e, s)

-- A memory access that must be in bounds.
abbrev pub access : {S : Type 0} → Bool → M S (Unit {0})
access true s = (ok tt, s)
access false s = (fault, s)

abbrev pub modify : {S : Type 0} → (S → S) → M S (Unit {0})
modify f s = (ok tt, f s)

abbrev pub gets : {S A : Type 0} → (S → A) → M S A
gets f s = (ok (f s), s)

abbrev pub from_some : {S A : Type 0} → Option A → M S A
from_some none s = (fault, s)
from_some (some a) s = (ok a, s)

-- Runs `m` and hands over its outcome, as code does that tests a returned status.
abbrev pub attempt : {S A : Type 0} → M S A → M S (Outcome A)
attempt m s = (ok (m s).0, (m s).1)

-- The errno values that the driver names.
abbrev pub eagain : ℕ
eagain = 11

abbrev pub enomem : ℕ
enomem = 12

abbrev pub efault : ℕ
efault = 14

abbrev pub enodev : ℕ
enodev = 19

abbrev pub einval : ℕ
einval = 22

abbrev pub enotty : ℕ
enotty = 25

abbrev pub eproto : ℕ
eproto = 71

abbrev pub eopnotsupp : ℕ
eopnotsupp = 95
