-- ===== src/Lan865x/Ptp/Time.antt =====
-- Reading the time, `lan865x_ptp_gettimex64` with `lan865x_get_sys_clock`, while the timer runs.
use base_t1s.Prelude.{
  ℕ, ◌+◌, ◌*◌, ◌/◌, ◌%◌, ◌^◌, ◌≤◌, ◌<◌, ok, false, ◌≡◌, refl, arith, ap, ◌⊎◌, inl, inr,
}
use native.Mathlib.Decide.{dec_lt}
use base_t1s.Tc6.Bus.{RegisterBus}
use base_t1s.Lan865x.Clock.{sys_clock, read_or_enodev, get_sys_clock}
use base_t1s.Lan865x.Ptp.{PtpClock, gettimex64}

abbrev pub second : ℕ
second = 1000000000

-- A chip whose timer runs: `now` is its time in nanoseconds since 0, which does not go back over a
-- read and stays below 2 ^ 32 seconds. The registers of the nanoseconds and of the seconds give the
-- time at some moment of their own read.
pub record RunningTimer {S : Type 0} (bus : RegisterBus S) : Type 1 where
  pub IsReady : S → Type 0
  pub now : S → ℕ
  pub now-lt : (s : S) → IsReady s → now s < 2 ^ 32 * second
  pub read_nsec :
      (s : S)
      → IsReady s
      → (s' : S) × (m : ℕ) × (bus.read_register 0x00010075 s ≡ (ok (m % second), s'))
        × ((now s ≤ m) × (m ≤ now s'))
        × IsReady s'
  pub read_sec :
      (s : S)
      → IsReady s
      → (s' : S) × (m : ℕ) × (bus.read_register 0x00010074 s ≡ (ok (m / second), s'))
        × ((now s ≤ m) × (m ≤ now s'))
        × IsReady s'
  pub read_sec_h :
      (s : S)
      → IsReady s
      → (s' : S) × (v : ℕ) × (bus.read_register 0x00010070 s ≡ (ok v, s'))
        × (now s ≤ now s')
        × IsReady s'

-- What a call that begins at `t` and ends at `t'` reads: a time between these, unless a second ends
-- between the two reads; then it is a second ahead.
abbrev pub IsRead : ℕ → ℕ → ℕ → Type 0
IsRead t t' time =
    ((t ≤ time) × (time ≤ t'))
    ⊎ ((t / second < t' / second) × (t + second ≤ time) × (time ≤ t' + second))

-- The seconds of a later moment with the nanoseconds of an earlier one.
mixed-IsRead :
    (t m m' t' : ℕ) → t ≤ m → m ≤ m' → m' ≤ t' → IsRead t t' (m' / second * second + m % second)
mixed-IsRead t m m' t' a b c = elim (dec_lt (m / second) (m' / second)) [
  | no ne ↦ inl (omega arith, omega arith)
  | yes lt ↦ inr (omega arith, omega arith, omega arith)
]

module _ {S : Type 0} {bus : RegisterBus S} (timer : RunningTimer bus) where
  open timer use {IsReady, now}

  get_sys_clock-IsRead :
      (s : S)
      → IsReady s
      → (time : ℕ) × (s' : S) × (get_sys_clock bus s ≡ (ok time, s'))
        × IsRead (now s) (now s') time
        × IsReady s'
  unfolding get_sys_clock read_or_enodev sys_clock
  get_sys_clock-IsRead s up =
      let (s1, m1, e1, (a1, b1), up1) = timer.read_nsec s up in
      let (s2, m2, e2, (a2, b2), up2) = timer.read_sec s1 up1 in
      let (s3, v, e3, a3, up3) = timer.read_sec_h s2 up2 in
      let small : m2 < 2 ^ 32 * second = let lt = timer.now-lt s2 up2 in omega arith in
      let value : sys_clock (m2 / second) (m1 % second) ≡ m2 / second * second + m1 % second =
        omega arith in
      (
        m2 / second * second + m1 % second,
        s3,
        rw (e1, e2, e3) (ap (λ x. (ok x, s3)) value),
        mixed-IsRead (now s) m1 m2 (now s3) a1 (omega arith) (omega arith),
        up3,
      )

  -- Over a timer that runs, stays below 2 ^ 32 seconds and shows its time at the moment of each
  -- register read: reading the time succeeds and ends with the lock free. The seconds and
  -- nanoseconds it gives are a time between the begin and the end of the call; but if a second ends
  -- during the call, they may also be a whole second ahead: at least a second after the begin and
  -- at most a second after the end of the call.
  pub gettimex64-IsRead :
      (p : PtpClock S)
      → IsReady p.tc6
      → (time : ℕ) × (s' : S) × (gettimex64 bus p
          ≡ (ok (time / second, time % second), record p { tc6 = s'; locked = false }))
        × IsRead (now p.tc6) (now s') time
        × IsReady s'
  unfolding gettimex64
  gettimex64-IsRead p up =
      let (time, s', e, read, up') = get_sys_clock-IsRead p.tc6 up in
      (time, s', rw e refl, read, up')
