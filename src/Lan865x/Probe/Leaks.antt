-- ===== src/Lan865x/Probe/Leaks.antt =====
-- What the probe of the network device holds when it fails.
use base_t1s.Prelude.{ℕ, Bool, true, false, List, Outcome, ok, err, ◌≡◌, ◌⊎◌}
use base_t1s.Tc6.Setup.Init.Leaks.{Resources, nothing, everything, resources}
use base_t1s.Lan865x.Probe.{Bound}

-- Of the framework; then the network device allocated and registered; then the PTP device, its clock,
-- its thread and the character device.
abbrev pub Parts : Type 0
Parts = Resources × (Bool × Bool) × (Bool × Bool × Bool × Bool)

abbrev pub no_ptp : Bool × Bool × Bool × Bool
no_ptp = (false, false, false, false)

abbrev pub bare : Parts
bare = (nothing, (false, false), no_ptp)

abbrev pub netdev_only : Parts
netdev_only = (nothing, (true, false), no_ptp)

abbrev pub initialised : Parts
initialised = (everything, (true, false), no_ptp)

-- What `exit_and_free` and `free_netdev` do to the parts.
abbrev with_flags : Resources → (Bool × Bool) × (Bool × Bool × Bool × Bool) → Parts
with_flags r f = (r, f.0, f.1)

abbrev after_exit : Parts → Parts
after_exit (r, (a, b), rest) = (nothing, (false, b), rest)

module _ {S : Type 0} where
  abbrev device_flags : Bound S → (Bool × Bool) × (Bool × Bool × Bool × Bool)
  device_flags b = (
    (b.netdev_allocated, b.netdev_registered),
    (b.ptp_allocated, b.ptp_registered, b.ptp_thread, b.misc_registered),
  )

  abbrev pub parts : Bound S → Parts
  parts b = (
    resources b.held,
    (b.netdev_allocated, b.netdev_registered),
    (b.ptp_allocated, b.ptp_registered, b.ptp_thread, b.misc_registered),
  )

  -- `q` is held after a success, and nothing after an error.
  abbrev BoundEnds : {A : Type 0} → Parts → Outcome A × Bound S → Type 0
  BoundEnds q (ok a, b) = parts b ≡ q
  BoundEnds q (err n, b) = parts b ≡ bare
  BoundEnds q (Outcome.fault, b) = Unit {0}

  -- An error with nothing held, or the error of the node id pins with all that was held before.
  abbrev pub FailsAs : Outcome (List ℕ) → Outcome (Unit {0}) × Bound S → Type 0
  FailsAs pins (ok u, b) = ⊥
  FailsAs pins (err n, b) = (parts b ≡ bare) ⊎ ((pins ≡ err n) × (parts b ≡ initialised))
  FailsAs pins (Outcome.fault, b) = Unit {0}
