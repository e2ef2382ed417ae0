-- ===== src/Tc6/Bus/Laws.antt =====
-- What the callers of the register access rely on when nothing fails: registers that keep what is
-- written to them. The laws are an interface: clients take them as a parameter.
use base_t1s.Prelude.{
  ℕ, ◌^◌, ◌<◌, List, [], ◌∷◌, M, Outcome, ok, continue, ◌++◌, ◌>>=◌, ◌>>◌, ◌≡◌, refl, ap, sym, ◌∙◌,
  ◌==◌, if◌then◌else◌,
}
use base_t1s.Tc6.Bus.{RegisterBus, write_ignored, read_or_old, ignore_status, or_old}

-- The values of registers after writes of a value to an address, one after another.
abbrev pub put : (ℕ → ℕ) → ℕ → ℕ → ℕ → ℕ
put g address value b = if b == address then value else g b

abbrev pub put_all : List (ℕ × ℕ) → (ℕ → ℕ) → ℕ → ℕ
put_all [] g = g
put_all ((address, value) ∷ rest) g = put_all rest (put g address value)

-- `IsReady` are the states in which the device answers, and `IsPlain` the addresses of registers
-- that a write changes as a whole and a read does not change.
pub record RegisterFile {S : Type 0} (bus : RegisterBus S) : Type 1 where
  pub get : S → ℕ → ℕ
  pub IsReady : S → Type 0
  pub IsPlain : ℕ → Type 0
  pub get-lt : (s : S) (a : ℕ) → IsReady s → get s a < 2 ^ 32
  pub read_ok :
      (s : S) (a : ℕ)
      → IsReady s
      → IsPlain a
      → (s' : S) × (bus.read_register a s ≡ (ok (get s a), s'))
        × IsReady s'
        × ((b : ℕ) → get s' b ≡ get s b)
  pub write_ok :
      (s : S) (a v : ℕ)
      → IsReady s
      → IsPlain a
      → v < 2 ^ 32
      → (s' : S) × (bus.write_register a v s ≡ (ok tt, s'))
        × IsReady s'
        × ((b : ℕ) → get s' b ≡ put (get s) a v b)

put_same : {g h : ℕ → ℕ} (a v : ℕ) → ((b : ℕ) → g b ≡ h b) → (b : ℕ) → put g a v b ≡ put h a v b
put_same a v e b = ap (λ x. if b == a then v else x) (e b)

put_all_same :
    (us : List (ℕ × ℕ)) (g h : ℕ → ℕ)
    → ((b : ℕ) → g b ≡ h b)
    → (b : ℕ) → put_all us g b ≡ put_all us h b
put_all_same [] g h e b = e b
put_all_same ((a, v) ∷ us) g h e b = put_all_same us (put g a v) (put h a v) (put_same a v e) b

put_all-append :
    (us vs : List (ℕ × ℕ)) (g : ℕ → ℕ) (b : ℕ)
    → put_all (us ++ vs) g b ≡ put_all vs (put_all us g) b
put_all-append [] vs g b = refl
put_all-append ((a, v) ∷ us) vs g b = put_all-append us vs (put g a v) b

module _ {S : Type 0} {bus : RegisterBus S} (regs : RegisterFile bus) where
  -- A call that succeeds with `r` and leaves the registers as after the writes `us`.
  abbrev pub Writes : {A : Type 0} → List (ℕ × ℕ) → A → M S A → S → Type 0
  Writes us r m s =
      (s' : S) × (m s ≡ (ok r, s'))
      × regs.IsReady s'
      × ((b : ℕ) → regs.get s' b ≡ put_all us (regs.get s) b)

  abbrev pub AllPlain : List (ℕ × ℕ) → Type 0
  AllPlain [] = Unit {0}
  AllPlain ((a, v) ∷ us) = (regs.IsPlain a × (v < 2 ^ 32)) × AllPlain us

  pub read-Writes :
      (s : S) (a : ℕ)
      → regs.IsReady s
      → regs.IsPlain a
      → Writes [] (regs.get s a) (bus.read_register a) s
  read-Writes s a h p = regs.read_ok s a h p

  pub write-Writes :
      (s : S) (a v : ℕ)
      → regs.IsReady s
      → regs.IsPlain a
      → v < 2 ^ 32
      → Writes ((a, v) ∷ []) tt (bus.write_register a v) s
  write-Writes s a v h p lt = regs.write_ok s a v h p lt

  pub write_ignored-Writes :
      (s : S) (a v : ℕ)
      → regs.IsReady s
      → regs.IsPlain a
      → v < 2 ^ 32
      → Writes ((a, v) ∷ []) tt (write_ignored bus a v) s
  unfolding write_ignored
  write_ignored-Writes s a v h p lt =
      let (s', e, r, g) = regs.write_ok s a v h p lt in
      (s', ap (λ x. (ignore_status x.0, x.1)) e, r, g)

  pub read_or_old-Writes :
      (s : S) (old a : ℕ)
      → regs.IsReady s
      → regs.IsPlain a
      → Writes [] (regs.get s a) (read_or_old bus old a) s
  unfolding read_or_old
  read_or_old-Writes s old a h p =
      let (s', e, r, g) = regs.read_ok s a h p in (s', ap (λ x. (or_old old x.0, x.1)) e, r, g)

  -- What follows a call looks at its outcome: the writes come after those of the call.
  pub after-Writes :
      {A B : Type 0} (us vs : List (ℕ × ℕ)) (a : A) (r : B) (m : M S A) (f : Outcome A → M S B)
      (s : S)
      → Writes us a m s
      → ((s' : S)
          → regs.IsReady s'
          → ((b : ℕ) → regs.get s' b ≡ put_all us (regs.get s) b)
          → Writes vs r (f (ok a)) s')
      → Writes (us ++ vs) r (λ t. f (m t).0 (m t).1) s
  after-Writes us vs a r m f s (s1, e1, h1, g1) next =
      let (s2, e2, h2, g2) = next s1 h1 g1 in
      (
        s2,
        ap (λ x. f x.0 x.1) e1 ∙ e2,
        h2,
        λ b.
            g2 b
            ∙ put_all_same vs (regs.get s1) (put_all us (regs.get s)) g1 b
            ∙ sym (put_all-append us vs (regs.get s) b),
      )

  pub bind-Writes :
      {A B : Type 0} (us vs : List (ℕ × ℕ)) (a : A) (r : B) (m : M S A) (f : A → M S B) (s : S)
      → Writes us a m s
      → ((s' : S)
          → regs.IsReady s'
          → ((b : ℕ) → regs.get s' b ≡ put_all us (regs.get s) b)
          → Writes vs r (f a) s')
      → Writes (us ++ vs) r (m >>= f) s
  bind-Writes us vs a r m f s = after-Writes us vs a r m (λ o. continue o f) s

  pub seq-Writes :
      {B : Type 0} (us vs : List (ℕ × ℕ)) (r : B) (m : M S (Unit {0})) (k : M S B) (s : S)
      → Writes us tt m s
      → ((s' : S)
          → regs.IsReady s'
          → ((b : ℕ) → regs.get s' b ≡ put_all us (regs.get s) b)
          → Writes vs r k s')
      → Writes (us ++ vs) r (m >> k) s
  seq-Writes us vs r m k s = bind-Writes us vs tt r m (λ _. k) s

  -- A caller that looks at the outcome through `f`.
  pub through-Writes :
      {A B : Type 0} (us : List (ℕ × ℕ)) (a : A) (r : B) (f : Outcome A → Outcome B) (m : M S A)
      (s : S)
      → f (ok a) ≡ ok r
      → Writes us a m s
      → Writes us r (λ t. (f (m t).0, (m t).1)) s
  through-Writes us a r f m s e (s', eq, h, g) =
      (s', ap (λ x. (f x.0, x.1)) eq ∙ ap (λ o. (o, s')) e, h, g)
