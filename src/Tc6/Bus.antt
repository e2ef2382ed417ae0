-- ===== src/Tc6/Bus.antt =====
-- The register access of src/linux/drivers/net/ethernet/oa_tc6.c as its callers see it:
-- `oa_tc6_read_register` and `oa_tc6_write_register`, over any state.
pub mod Laws
pub mod Device
use base_t1s.Prelude.{ℕ, M, Outcome, ok, err}
use base_t1s.Tc6.State.{Tc6, Platform}
use base_t1s.Tc6.Ctrl

pub record RegisterBus (S : Type 0) : Type 0 where
  pub read_register : ℕ → M S ℕ
  pub write_register : ℕ → ℕ → M S (Unit {0})

-- The implementation over SPI.
abbrev pub tc6_bus : {D : Type 0} → Platform D → RegisterBus (Tc6 D)
tc6_bus os = record {
  read_register = Ctrl.read_register os;
  write_register = Ctrl.write_register os;
}

-- A status that the caller does not look at.
abbrev pub ignore_status : Outcome (Unit {0}) → Outcome (Unit {0})
ignore_status (ok u) = ok tt
ignore_status (err e) = ok tt
ignore_status Outcome.fault = Outcome.fault

-- The variable behind `&regval` after a read whose status is not looked at.
abbrev pub or_old : ℕ → Outcome ℕ → Outcome ℕ
or_old old (ok v) = ok v
or_old old (err e) = ok old
or_old old Outcome.fault = Outcome.fault

-- Any error of a register access becomes `e`.
abbrev pub or_err : {A : Type 0} → ℕ → Outcome A → Outcome A
or_err e (ok a) = ok a
or_err e (err e') = err e
or_err e Outcome.fault = Outcome.fault

module _ {S : Type 0} (bus : RegisterBus S) where
  unfoldable pub write_ignored : ℕ → ℕ → M S (Unit {0})
  write_ignored address value s =
      let r = bus.write_register address value s in (ignore_status r.0, r.1)

  unfoldable pub read_or_old : ℕ → ℕ → M S ℕ
  read_or_old old address s = let r = bus.read_register address s in (or_old old r.0, r.1)
