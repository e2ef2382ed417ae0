-- ===== src/Lan865x/Net/Address.antt =====
-- Changing the MAC address of the network device.
use base_t1s.Prelude.{
  ℕ, Bool, true, false, List, M, Outcome, ok, err, continue, ◌>>◌, ◌≡◌, refl, ◌==◌, if◌then◌else◌,
  sym,
}
use base_t1s.Tc6.Bus.{RegisterBus}
use base_t1s.Tc6.Ctrl.{bytes_eq}
use base_t1s.Tc6.Ctrl.Reply.{bytes_eq-eq}
use base_t1s.Lan865x.Priv.{Priv, on_tc6}
use base_t1s.Lan865x.Mac.{set_hw_macaddr}
use base_t1s.Lan865x.Net.{set_mac_address}

-- The address of the device after a call with this outcome: the new one after a success, and the old
-- one otherwise.
abbrev pub Commits : {S : Type 0} → List ℕ → List ℕ → Outcome (Unit {0}) × Priv S → Type 0
Commits old new (ok u, p) = p.dev_addr ≡ new
Commits old new (err e, p) = p.dev_addr ≡ old
Commits old new (Outcome.fault, p) = p.dev_addr ≡ old

continue-Commits :
    {S : Type 0} (new : List ℕ) (o : Outcome (Unit {0})) (p : Priv S)
    → Commits p.dev_addr new (continue o (λ _ q. (ok tt, record q { dev_addr = new })) p)
continue-Commits new (ok u) p = refl
continue-Commits new (err e) p = refl
continue-Commits new Outcome.fault p = refl

module _ {S : Type 0} (bus : RegisterBus S) where
  -- The step behind the test whether the device has the address already.
  change-Commits :
      (sa_data : List ℕ) (p : Priv S) (same : Bool)
      → bytes_eq sa_data p.dev_addr ≡ same
      → Commits p.dev_addr sa_data (
          (if same
            then (ok tt, p)
            else (on_tc6 (set_hw_macaddr bus p.dev_addr sa_data) >> λ p'.
                  (ok tt, record p' { dev_addr = sa_data }))
                p))
  change-Commits sa_data p true e = sym (bytes_eq-eq sa_data p.dev_addr e)
  change-Commits sa_data p false e =
      let call : M (Priv S) (Unit {0}) = on_tc6 (set_hw_macaddr bus p.dev_addr sa_data) in
      continue-Commits sa_data (call p).0 (call p).1

  prepared-Commits :
      (sa_data : List ℕ) (p : Priv S) (prepared : ℕ) (fine : Bool)
      → Commits p.dev_addr sa_data (
          if fine
          then (if bytes_eq sa_data p.dev_addr
              then (ok tt, p)
              else (on_tc6 (set_hw_macaddr bus p.dev_addr sa_data) >> λ p'.
                    (ok tt, record p' { dev_addr = sa_data }))
                  p)
          else (err prepared, p))
  prepared-Commits sa_data p prepared true =
      change-Commits sa_data p (bytes_eq sa_data p.dev_addr) refl
  prepared-Commits sa_data p prepared false = refl

  -- Over any register access: the network device has the new address exactly after a success, and
  -- keeps its old one after any failure, of the preparation or of the writes.
  pub set_mac_address-Commits :
      (prepared : ℕ) (sa_data : List ℕ) (p : Priv S)
      → Commits p.dev_addr sa_data (set_mac_address bus prepared sa_data p)
  unfolding set_mac_address
  set_mac_address-Commits prepared sa_data p = prepared-Commits sa_data p prepared (prepared == 0)
