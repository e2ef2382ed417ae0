-- ===== src/Lan865x/Ptp/Lock.antt =====
-- The spin lock around the calls of the PTP clock.
use base_t1s.Prelude.{
  ℕ, ◌+◌, ◌*◌, ◌/◌, ◌%◌, ◌^◌, ℤ, abs, M, Outcome, ok, err, continue, ◌>>=◌, ◌>>◌, pure, ◌≡◌, refl,
  ◌==◌, if◌then◌else◌, Bool, true, false,
}
use base_t1s.Word.{u32, u64}
use base_t1s.Tc6.Bus.{RegisterBus, write_ignored, ignore_status}
use base_t1s.Lan865x.Clock.{get_sys_clock, set_sys_clock, set_sys_clock_ti, tisubn_word}
use base_t1s.Lan865x.Ptp.{
  PtpClock, as_u64, on_bus, ignored, clock_value, spin_unlock, adjusted_ticks, adjusted_time,
  adjust_rate, adjfine, adjust_time, adjtime, gettimex64, settime64,
}

-- An outcome that is not an error.
abbrev IsCalm : {A : Type 0} → Outcome A → Type 0
IsCalm (ok a) = Unit {0}
IsCalm (err e) = ⊥
IsCalm Outcome.fault = Unit {0}

-- The call is over and the lock is free.
abbrev pub Released : {S A : Type 0} → Outcome A → PtpClock S → Type 0
Released (ok a) p = p.locked ≡ false
Released (err e) p = p.locked ≡ false
Released Outcome.fault p = Unit {0}

-- What moving the time comes to, by whether the delta is 0.
abbrev pub AfterAdjtime :
    {S : Type 0} → Bool → PtpClock S → Outcome (Unit {0}) × PtpClock S → Type 0
AfterAdjtime true p r = r ≡ (ok tt, record p { locked = true })
AfterAdjtime false p r = Released r.0 r.1

continue-IsCalm :
    {S A B : Type 0} (o : Outcome A) (f : A → M S B) (s : S)
    → IsCalm o
    → ((a : A) (t : S) → IsCalm (f a t).0)
    → IsCalm (continue o f s).0
continue-IsCalm (ok a) f s c h = h a s
continue-IsCalm (err e) f s c h = c
continue-IsCalm Outcome.fault f s c h = tt

continue-Released :
    {S A B : Type 0} (o : Outcome A) (f : A → M (PtpClock S) B) (p : PtpClock S)
    → IsCalm o
    → ((a : A) (q : PtpClock S) → Released (f a q).0 (f a q).1)
    → Released (continue o f p).0 (continue o f p).1
continue-Released (ok a) f p c h = h a p
continue-Released (err e) f p c h = elim c [ ]
continue-Released Outcome.fault f p c h = tt

ignore_status-IsCalm : (o : Outcome (Unit {0})) → IsCalm (ignore_status o)
ignore_status-IsCalm (ok u) = tt
ignore_status-IsCalm (err e) = tt
ignore_status-IsCalm Outcome.fault = tt

as_u64-IsCalm : (o : Outcome ℕ) → IsCalm (as_u64 o)
as_u64-IsCalm (ok v) = tt
as_u64-IsCalm (err e) = tt
as_u64-IsCalm Outcome.fault = tt

module _ {S : Type 0} (bus : RegisterBus S) where
  write_ignored-IsCalm : (address value : ℕ) (s : S) → IsCalm (write_ignored bus address value s).0
  unfolding write_ignored
  write_ignored-IsCalm address value s = ignore_status-IsCalm (bus.write_register address value s).0

  set_sys_clock_ti-IsCalm : (ticks : ℕ) (s : S) → IsCalm (set_sys_clock_ti bus ticks s).0
  unfolding set_sys_clock_ti
  set_sys_clock_ti-IsCalm ticks s =
      let first = write_ignored bus 0x00010077 (u32 (ticks / 2 ^ 24) % 2 ^ 8) in
      let second = write_ignored bus 0x0001006F (tisubn_word (ticks % 2 ^ 24)) in
      continue-IsCalm (first s).0 (λ _. second) (first s).1
        (write_ignored-IsCalm 0x00010077 (u32 (ticks / 2 ^ 24) % 2 ^ 8) s)
        λ _. write_ignored-IsCalm 0x0001006F (tisubn_word (ticks % 2 ^ 24))

  adjust_rate-IsCalm : (ppm : ℤ) (p : PtpClock S) → IsCalm (adjust_rate bus ppm p).0
  unfolding adjust_rate
  adjust_rate-IsCalm ppm p =
      let call : M (PtpClock S) (Unit {0}) = on_bus (set_sys_clock_ti bus (adjusted_ticks ppm)) in
      let next : Unit {0} → M (PtpClock S) (Unit {0}) =
        λ _ q. (ok tt, record q { ti_subnano_b24 = u32 (adjusted_ticks ppm) }) in
      continue-IsCalm (call p).0 next (call p).1
        (set_sys_clock_ti-IsCalm (adjusted_ticks ppm) p.tc6) λ u q. tt

  -- Behind the lock: the change of the rate, or nothing.
  rate_step-IsCalm :
      (zero_ppm : Bool) (ppm : ℤ) (p : PtpClock S)
      → IsCalm ((if zero_ppm then pure tt else adjust_rate bus ppm) p).0
  rate_step-IsCalm true ppm p = tt
  rate_step-IsCalm false ppm p = adjust_rate-IsCalm ppm p

  adjfine-Released :
      (ppm : ℤ) (p : PtpClock S) → Released (adjfine bus ppm p).0 (adjfine bus ppm p).1
  unfolding adjfine
  adjfine-Released ppm p =
      let step : M (PtpClock S) (Unit {0}) =
        if abs ppm == 0 then pure tt else adjust_rate bus ppm in
      let locked : PtpClock S = record p { locked = true } in
      continue-Released (step locked).0 (λ _. spin_unlock) (step locked).1
        (rate_step-IsCalm (abs ppm == 0) ppm locked) λ _ q. refl

  settime64-Released :
      (tv_sec tv_nsec : ℕ) (p : PtpClock S)
      → Released (settime64 bus tv_sec tv_nsec p).0 (settime64 bus tv_sec tv_nsec p).1
  unfolding settime64
  settime64-Released tv_sec tv_nsec p =
      let set = set_sys_clock bus (u64 (u64 (tv_sec * 1000000000) + tv_nsec)) in
      let step : M (PtpClock S) (Unit {0}) = on_bus (ignored set) in
      let locked : PtpClock S = record p { locked = true } in
      continue-Released (step locked).0 (λ _. spin_unlock) (step locked).1
        (ignore_status-IsCalm (set p.tc6).0) λ _ q. refl

  gettimex64-Released : (p : PtpClock S) → Released (gettimex64 bus p).0 (gettimex64 bus p).1
  unfolding gettimex64
  gettimex64-Released p =
      let step : M (PtpClock S) ℕ = on_bus (clock_value (get_sys_clock bus)) in
      let locked : PtpClock S = record p { locked = true } in
      let next : ℕ → M (PtpClock S) (ℕ × ℕ) =
        λ v. spin_unlock >> pure (v / 1000000000, v % 1000000000) in
      continue-Released (step locked).0 next (step locked).1
        (as_u64-IsCalm (get_sys_clock bus p.tc6).0) λ _ q. refl

  adjust_time-Released :
      (delta : ℤ) (p : PtpClock S)
      → Released (adjust_time bus delta p).0 (adjust_time bus delta p).1
  unfolding adjust_time
  adjust_time-Released delta p =
      let read : M (PtpClock S) ℕ = on_bus (clock_value (get_sys_clock bus)) in
      let last : M (PtpClock S) (Unit {0}) = read >>= λ _. spin_unlock in
      let set : ℕ → M (PtpClock S) (Unit {0}) =
        λ v. on_bus (ignored (set_sys_clock bus (adjusted_time delta v))) in
      continue-Released (read p).0 (λ v. set v >> last) (read p).1
        (as_u64-IsCalm (get_sys_clock bus p.tc6).0)
        λ v q.
          continue-Released (set v q).0 (λ _. last) (set v q).1
            (ignore_status-IsCalm (set_sys_clock bus (adjusted_time delta v) q.tc6).0)
            λ _ r.
              continue-Released (read r).0 (λ _. spin_unlock) (read r).1
                (as_u64-IsCalm (get_sys_clock bus r.tc6).0) λ _ t. refl

  time_step-AfterAdjtime :
      (delta : ℤ) (p : PtpClock S) (still : Bool)
      → AfterAdjtime still p
          ((if still then pure tt else adjust_time bus delta) (record p { locked = true }))
  time_step-AfterAdjtime delta p true = refl
  time_step-AfterAdjtime delta p false = adjust_time-Released delta (record p { locked = true })

  -- Over any register access, and whatever it answers, setting the rate, the time and reading the
  -- time end with the lock free, unless a memory access is out of bounds. Moving the time does so
  -- for a delta that is not 0, and for a delta of 0 ends with the lock held and nothing else changed.
  pub clock_calls-Released :
      (p : PtpClock S)
      → ((ppm : ℤ) → Released (adjfine bus ppm p).0 (adjfine bus ppm p).1)
        × ((tv_sec tv_nsec : ℕ)
            → Released (settime64 bus tv_sec tv_nsec p).0 (settime64 bus tv_sec tv_nsec p).1)
        × Released (gettimex64 bus p).0 (gettimex64 bus p).1
        × ((delta : ℤ) → AfterAdjtime (abs delta == 0) p (adjtime bus delta p))
  unfolding adjtime
  clock_calls-Released p = (
    λ ppm. adjfine-Released ppm p,
    λ tv_sec tv_nsec. settime64-Released tv_sec tv_nsec p,
    gettimex64-Released p,
    λ delta. time_step-AfterAdjtime delta p (abs delta == 0),
  )
