-- ===== src/Tc6/Setup/Init/Leaks.antt =====
-- What `oa_tc6_init` holds when it returns, on every path.
use base_t1s.Prelude.{
  ℕ, zero, suc, Bool, true, false, M, Outcome, ok, err, ◌>>◌, continue, ◌≡◌, refl, ap, enomem,
  enodev,
}
use base_t1s.Tc6.Bus.{RegisterBus}
use base_t1s.Tc6.Phy.{check_phy_reg_direct_access_capability}
use base_t1s.Tc6.Setup.{sw_reset_macphy, unmask_macphy_error_interrupts, enable_data_transfer}
use base_t1s.Tc6.Setup.Lan8650.{init_lan865x}
use base_t1s.Tc6.Setup.Init.{
  Kernel, Held, lift, acquire, acquire_or, on_error, acquired, found, undone, mdiobus_free,
  mdiobus_unregister, phy_exit, set_allocated, set_registered, set_connected, set_thread, same,
  stop_all, raise_int_flag, mdiobus_register, connect_phy, phy_init, alloc_buffers, init_macphy,
  init_data, start_thread, oa_tc6_init, oa_tc6_exit,
}

-- The MDIO bus allocated and registered, the PHY connected, the thread running.
abbrev pub Resources : Type 0
Resources = Bool × Bool × Bool × Bool

abbrev pub nothing : Resources
nothing = (false, false, false, false)

abbrev pub on_bus : Resources
on_bus = (true, true, false, false)

abbrev pub attached : Resources
attached = (true, true, true, false)

abbrev pub everything : Resources
everything = (true, true, true, true)

-- `q` is held after a success, and `e` after an error.
abbrev pub EndsAt {ℓ} : {A : Type ℓ} → Resources → Resources → Outcome A → Resources → Type 0
EndsAt q e (ok a) v = v ≡ q
EndsAt q e (err n) v = v ≡ e
EndsAt q e Outcome.fault v = Unit {0}

module _ {S : Type 0} where
  abbrev pub resources : Held S → Resources
  resources h = (h.mdiobus_allocated, h.mdiobus_registered, h.phy_connected, h.spi_thread)

  abbrev pub Ends : Resources → Resources → Outcome (Unit {0}) × Held S → Type 0
  Ends q e r = EndsAt q e r.0 (resources r.1)

  continue-Ends :
      (q q' e : Resources) (k : M (Held S) (Unit {0})) (o : Outcome (Unit {0})) (h : Held S)
      → EndsAt q e o (resources h)
      → ((h' : Held S) → resources h' ≡ q → Ends q' e (k h'))
      → Ends q' e (continue o (λ _. k) h)
  continue-Ends q q' e k (ok a) h p next = next h p
  continue-Ends q q' e k (err n) h p next = p
  continue-Ends q q' e k Outcome.fault h p next = tt

  -- One call behind another; both leave the same on an error.
  seq-Ends :
      (q q' e : Resources) (m k : M (Held S) (Unit {0})) (h : Held S)
      → Ends q e (m h)
      → ((h' : Held S) → resources h' ≡ q → Ends q' e (k h'))
      → Ends q' e ((m >> k) h)
  seq-Ends q q' e m k h = continue-Ends q q' e k (m h).0 (m h).1

  lift-Ends :
      (v : Resources) (m : M S (Unit {0})) (h : Held S) → resources h ≡ v → Ends v v (lift m h)
  lift-Ends v m h e = elim (m h.tc6).0 as (λ o. EndsAt v v o (resources h)) [
    | ok a ↦ e
    | err n ↦ e
    | Outcome.fault ↦ tt
  ]

  acquired-Ends :
      (v q : Resources) (status : ℕ) (f : Held S → Held S) (h : Held S)
      → resources h ≡ v
      → resources (f h) ≡ q
      → Ends q v (acquired status f h)
  acquired-Ends v q zero f h e g = g
  acquired-Ends v q (suc n) f h e g = e

  acquire-Ends :
      (v q : Resources) (call : S → ℕ × S) (f : Held S → Held S) (h : Held S)
      → resources h ≡ v
      → resources (f (record h { tc6 = (call h.tc6).1 })) ≡ q
      → Ends q v (acquire call f h)
  acquire-Ends v q call f h e g =
      acquired-Ends v q (call h.tc6).0 f (record h { tc6 = (call h.tc6).1 }) e g

  found-Ends :
      (n : ℕ) (v q : Resources) (b : Bool) (f : Held S → Held S) (h : Held S)
      → resources h ≡ v
      → resources (f h) ≡ q
      → Ends q v (found n b f h)
  found-Ends n v q true f h e g = g
  found-Ends n v q false f h e g = e

  acquire_or-Ends :
      (n : ℕ) (v q : Resources) (call : S → Bool × S) (f : Held S → Held S) (h : Held S)
      → resources h ≡ v
      → resources (f (record h { tc6 = (call h.tc6).1 })) ≡ q
      → Ends q v (acquire_or n call f h)
  acquire_or-Ends n v q call f h e g =
      found-Ends n v q (call h.tc6).0 f (record h { tc6 = (call h.tc6).1 }) e g

  undone-Ends :
      (q e e' : Resources) (o : Outcome (Unit {0})) (undo : Held S → Held S) (h : Held S)
      → EndsAt q e o (resources h)
      → (resources h ≡ e → resources (undo h) ≡ e')
      → Ends q e' (undone o undo h)
  undone-Ends q e e' (ok u) undo h p g = p
  undone-Ends q e e' (err n) undo h p g = g p
  undone-Ends q e e' Outcome.fault undo h p g = tt

  on_error-Ends :
      (q e e' : Resources) (m : M (Held S) (Unit {0})) (undo : Held S → Held S) (h : Held S)
      → Ends q e (m h)
      → (resources (m h).1 ≡ e → resources (undo (m h).1) ≡ e')
      → Ends q e' (on_error m undo h)
  on_error-Ends q e e' m undo h = undone-Ends q e e' (m h).0 undo (m h).1

  module _ (kernel : Kernel S) where
    mdiobus_register-Ends :
        (h : Held S) → resources h ≡ nothing → Ends on_bus nothing (mdiobus_register kernel h)
    unfolding mdiobus_register
    mdiobus_register-Ends h e =
        let register = acquire kernel.mdiobus_register set_registered in
        seq-Ends (true, false, false, false) on_bus nothing
          (acquire_or enomem kernel.mdiobus_alloc set_allocated) (on_error register mdiobus_free) h
          (acquire_or-Ends enomem nothing (true, false, false, false) kernel.mdiobus_alloc
            set_allocated h e (ap (λ v. (true, v.1, v.2, v.3)) e))
          λ h' e'.
            on_error-Ends on_bus (true, false, false, false) nothing register mdiobus_free h'
              (acquire-Ends (true, false, false, false) on_bus kernel.mdiobus_register
                set_registered h' e' (ap (λ v. (v.0, true, v.2, v.3)) e'))
              (ap (λ v. (false, v.1, v.2, v.3)))

    connect_phy-Ends :
        (h : Held S) → resources h ≡ on_bus → Ends attached nothing (connect_phy kernel h)
    unfolding connect_phy mdiobus_unregister
    connect_phy-Ends h e =
        let find = acquire_or enodev kernel.phy_find_first same in
        let connect = acquire kernel.phy_connect_direct set_connected in
        seq-Ends on_bus attached nothing (on_error find mdiobus_unregister)
          (on_error connect mdiobus_unregister) h
          (on_error-Ends on_bus on_bus nothing find mdiobus_unregister h
            (acquire_or-Ends enodev on_bus on_bus kernel.phy_find_first same h e e)
            (ap (λ v. (false, false, v.2, v.3))))
          λ h' e'.
            on_error-Ends attached on_bus nothing connect mdiobus_unregister h'
              (acquire-Ends on_bus attached kernel.phy_connect_direct set_connected h' e'
                (ap (λ v. (v.0, v.1, true, v.3)) e'))
              (ap (λ v. (false, false, v.2, v.3)))

    alloc_buffers-Ends :
        (bus : RegisterBus S) (n : ℕ) (h : Held S)
        → resources h ≡ nothing
        → Ends nothing nothing (alloc_buffers kernel bus n h)
    unfolding alloc_buffers
    alloc_buffers-Ends bus zero h e = e
    alloc_buffers-Ends bus (suc n) h e =
        seq-Ends nothing nothing nothing (acquire_or enomem kernel.devm_kzalloc same)
          (alloc_buffers kernel bus n) h
          (acquire_or-Ends enomem nothing nothing kernel.devm_kzalloc same h e e)
          (alloc_buffers-Ends bus n)

    module _ (bus : RegisterBus S) where
      phy_init-Ends :
          (h : Held S) → resources h ≡ nothing → Ends attached nothing (phy_init kernel bus h)
      unfolding phy_init
      phy_init-Ends h e =
          let check = check_phy_reg_direct_access_capability bus in
          seq-Ends nothing attached nothing (lift check)
            (mdiobus_register kernel >> connect_phy kernel) h (lift-Ends nothing check h e)
            λ h1 e1.
              seq-Ends on_bus attached nothing (mdiobus_register kernel) (connect_phy kernel) h1
                (mdiobus_register-Ends h1 e1) connect_phy-Ends

      init_macphy-Ends :
          (polls : ℕ) (h : Held S)
          → resources h ≡ nothing
          → Ends attached nothing (init_macphy kernel bus polls h)
      unfolding init_macphy
      init_macphy-Ends polls h e =
          let reset = sw_reset_macphy bus polls in
          let unmask = unmask_macphy_error_interrupts bus in
          seq-Ends nothing attached nothing (alloc_buffers kernel bus 5)
            (lift reset >> (lift unmask >> phy_init kernel bus)) h (alloc_buffers-Ends bus 5 h e)
            λ h1 e1.
              seq-Ends nothing attached nothing (lift reset) (lift unmask >> phy_init kernel bus) h1
                (lift-Ends nothing reset h1 e1)
                λ h2 e2.
                  seq-Ends nothing attached nothing (lift unmask) (phy_init kernel bus) h2
                    (lift-Ends nothing unmask h2 e2) phy_init-Ends

      init_data-Ends :
          (stale : ℕ) (update : M S (Unit {0})) (h : Held S)
          → resources h ≡ attached
          → Ends attached nothing (init_data kernel bus stale update h)
      unfolding init_data phy_exit mdiobus_unregister
      init_data-Ends stale update h e =
          let setup = init_lan865x bus stale in
          let enable = enable_data_transfer bus in
          let rest = lift enable >> lift update in
          on_error-Ends attached attached nothing (lift setup >> rest) phy_exit h
            (seq-Ends attached attached attached (lift setup) rest h (lift-Ends attached setup h e)
              λ h1 e1.
                seq-Ends attached attached attached (lift enable) (lift update) h1
                  (lift-Ends attached enable h1 e1) (lift-Ends attached update))
            (ap (λ v. (false, false, false, v.3)))

      start_thread-Ends :
          (h : Held S)
          → resources h ≡ attached
          → Ends everything nothing (start_thread kernel bus h)
      unfolding start_thread phy_exit mdiobus_unregister
      start_thread-Ends h e =
          let run = acquire kernel.kthread_run set_thread in
          let irq = acquire kernel.devm_request_irq same in
          seq-Ends everything everything nothing (on_error run phy_exit) (on_error irq stop_all) h
            (on_error-Ends everything attached nothing run phy_exit h
              (acquire-Ends attached everything kernel.kthread_run set_thread h e
                (ap (λ v. (v.0, v.1, v.2, true)) e))
              (ap (λ v. (false, false, false, v.3))))
            λ h' e'.
              on_error-Ends everything everything nothing irq stop_all h'
                (acquire-Ends everything everything kernel.devm_request_irq same h' e' e')
                (λ f. refl)

      -- From a start with nothing held, `oa_tc6_init` holds the MDIO bus, the connected PHY and the
      -- running thread when it succeeds, and nothing of them on every path on which it fails,
      -- whatever the kernel and the register accesses answer.
      pub oa_tc6_init-Ends :
          (polls stale : ℕ) (update : M S (Unit {0})) (set_int_flag : S → S) (h : Held S)
          → resources h ≡ nothing
          → Ends everything nothing (oa_tc6_init kernel bus polls stale update set_int_flag h)
      unfolding oa_tc6_init
      oa_tc6_init-Ends polls stale update set_int_flag h e =
          let data_part = init_data kernel bus stale update in
          let last = start_thread kernel bus >> raise_int_flag set_int_flag in
          seq-Ends attached everything nothing (init_macphy kernel bus polls) (data_part >> last) h
            (init_macphy-Ends polls h e)
            λ h1 e1.
              seq-Ends attached everything nothing data_part last h1
                (init_data-Ends stale update h1 e1)
                λ h2 e2.
                  seq-Ends everything everything nothing (start_thread kernel bus)
                    (raise_int_flag set_int_flag) h2 (start_thread-Ends h2 e2) (λ h3 e3. e3)

  -- `oa_tc6_exit` gives back all that `oa_tc6_init` holds.
  pub oa_tc6_exit-nothing :
      (free_skbs : S → S) (h : Held S) → resources (oa_tc6_exit free_skbs h) ≡ nothing
  unfolding oa_tc6_exit phy_exit mdiobus_unregister
  oa_tc6_exit-nothing free_skbs h = refl
