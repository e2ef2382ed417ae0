-- ===== src/Tc6/Setup/Init.antt =====
-- `oa_tc6_init` and `oa_tc6_exit` of src/linux/drivers/net/ethernet/oa_tc6.c, with the PHY set-up
-- between them. The state says which kernel resources are held; the memory of `devm_kzalloc` and
-- the interrupt of `devm_request_irq` belong to the device and are not among them.
pub mod Leaks
use base_t1s.Prelude.{
  ℕ, zero, suc, Bool, true, false, Option, some, none, M, Outcome, ok, err, ◌>>=◌, ◌>>◌, continue,
  enomem, enodev, ◌==◌, if◌then◌else◌,
}
use base_t1s.Tc6.State.{from_status}
use base_t1s.Tc6.Bus.{RegisterBus}
use base_t1s.Tc6.Phy.{check_phy_reg_direct_access_capability}
use base_t1s.Tc6.Setup.{sw_reset_macphy, unmask_macphy_error_interrupts, enable_data_transfer}
use base_t1s.Tc6.Setup.Lan8650.{init_lan865x}

-- The kernel's answers to the calls of the set-up, from a state that they may change: whether an
-- allocation succeeds, and the status of a call, 0 for success and the errno otherwise.
pub record Kernel (S : Type 0) : Type 0 where
  pub devm_kzalloc : S → Bool × S
  pub mdiobus_alloc : S → Bool × S
  pub mdiobus_register : S → ℕ × S
  pub phy_find_first : S → Bool × S
  pub phy_connect_direct : S → ℕ × S
  pub kthread_run : S → ℕ × S
  pub devm_request_irq : S → ℕ × S

-- The resources held, beside the state of the framework.
pub record Held (S : Type 0) : Type 0 where
  pub tc6 : S
  pub mdiobus_allocated : Bool
  pub mdiobus_registered : Bool
  pub phy_connected : Bool
  pub spi_thread : Bool

module _ {S : Type 0} where
  abbrev pub lift : {A : Type 0} → M S A → M (Held S) A
  lift m h = ((m h.tc6).0, record h { tc6 = (m h.tc6).1 })

  -- What a call leaves, by its status: an error, or success with `f` done to the state.
  abbrev pub acquired : ℕ → (Held S → Held S) → M (Held S) (Unit {0})
  acquired zero f h = (ok tt, f h)
  acquired (suc e) f h = (err (suc e), h)

  abbrev pub acquire : (S → ℕ × S) → (Held S → Held S) → M (Held S) (Unit {0})
  acquire call f h = acquired (call h.tc6).0 f (record h { tc6 = (call h.tc6).1 })

  -- A call that returns a pointer, where NULL becomes the given errno.
  abbrev pub found : ℕ → Bool → (Held S → Held S) → M (Held S) (Unit {0})
  found errno true f h = (ok tt, f h)
  found errno false f h = (err errno, h)

  abbrev pub acquire_or : ℕ → (S → Bool × S) → (Held S → Held S) → M (Held S) (Unit {0})
  acquire_or errno call f h = found errno (call h.tc6).0 f (record h { tc6 = (call h.tc6).1 })

  -- Runs `undo` if the call fails, and keeps its error.
  abbrev pub undone : Outcome (Unit {0}) → (Held S → Held S) → M (Held S) (Unit {0})
  undone (ok u) undo h = (ok tt, h)
  undone (err e) undo h = (err e, undo h)
  undone Outcome.fault undo h = (Outcome.fault, h)

  abbrev pub on_error : M (Held S) (Unit {0}) → (Held S → Held S) → M (Held S) (Unit {0})
  on_error m undo h = undone (m h).0 undo (m h).1

  abbrev pub set_allocated : Held S → Held S
  set_allocated h = record h { mdiobus_allocated = true }

  abbrev pub set_registered : Held S → Held S
  set_registered h = record h { mdiobus_registered = true }

  abbrev pub set_connected : Held S → Held S
  set_connected h = record h { phy_connected = true }

  abbrev pub set_thread : Held S → Held S
  set_thread h = record h { spi_thread = true }

  abbrev pub same : Held S → Held S
  same h = h

  abbrev pub mdiobus_free : Held S → Held S
  mdiobus_free h = record h { mdiobus_allocated = false }

  unfoldable pub mdiobus_unregister : Held S → Held S
  mdiobus_unregister h = record h { mdiobus_registered = false; mdiobus_allocated = false }

  unfoldable pub phy_exit : Held S → Held S
  unfolding mdiobus_unregister
  phy_exit h = mdiobus_unregister (record h { phy_connected = false })

  -- `kthread_stop(tc6->spi_thread)`.
  abbrev pub kthread_stop : Held S → Held S
  kthread_stop h = record h { spi_thread = false }

  -- The labels `kthread_stop` and `phy_exit`.
  abbrev pub stop_all : Held S → Held S
  stop_all h = phy_exit (kthread_stop h)

  abbrev pub raise_int_flag : (S → S) → M (Held S) (Unit {0})
  raise_int_flag set_int_flag h = (ok tt, record h { tc6 = set_int_flag h.tc6 })

  module _ (kernel : Kernel S) where
    unfoldable pub mdiobus_register : M (Held S) (Unit {0})
    mdiobus_register =
        acquire_or enomem kernel.mdiobus_alloc set_allocated
        >> on_error (acquire kernel.mdiobus_register set_registered) mdiobus_free

    -- `phy_find_first` and `phy_connect_direct`.
    unfoldable pub connect_phy : M (Held S) (Unit {0})
    unfolding mdiobus_unregister
    connect_phy =
        on_error (acquire_or enodev kernel.phy_find_first same) mdiobus_unregister
        >> on_error (acquire kernel.phy_connect_direct set_connected) mdiobus_unregister

    module _ (bus : RegisterBus S) where
      unfoldable pub phy_init : M (Held S) (Unit {0})
      phy_init =
          lift (check_phy_reg_direct_access_capability bus) >> (mdiobus_register >> connect_phy)

      -- The allocations of the structure and its four buffers.
      unfoldable pub alloc_buffers : ℕ → M (Held S) (Unit {0})
      alloc_buffers zero h = (ok tt, h)
      alloc_buffers (suc n) h = (acquire_or enomem kernel.devm_kzalloc same >> alloc_buffers n) h

      -- Up to the PHY: a failure here holds nothing yet.
      unfoldable pub init_macphy : ℕ → M (Held S) (Unit {0})
      init_macphy polls =
          alloc_buffers 5
          >> (lift (sw_reset_macphy bus polls)
              >> (lift (unmask_macphy_error_interrupts bus) >> phy_init))

      -- `stale` is the value of an uninitialised variable in `indirect_read`, and
      -- `update_buffer_status` is `oa_tc6_update_buffer_status_from_register`.
      unfoldable pub init_data : ℕ → M S (Unit {0}) → M (Held S) (Unit {0})
      unfolding phy_exit
      init_data stale update_buffer_status =
          on_error
            (lift (init_lan865x bus stale)
              >> (lift (enable_data_transfer bus) >> lift update_buffer_status))
            phy_exit

      unfoldable pub start_thread : M (Held S) (Unit {0})
      unfolding phy_exit
      start_thread =
          on_error (acquire kernel.kthread_run set_thread) phy_exit
          >> on_error (acquire kernel.devm_request_irq same) stop_all

      -- Succeeds where `oa_tc6_init` returns the structure, and fails where it returns NULL.
      -- `set_int_flag` sets `int_flag`.
      unfoldable pub oa_tc6_init : ℕ → ℕ → M S (Unit {0}) → (S → S) → M (Held S) (Unit {0})
      oa_tc6_init polls stale update_buffer_status set_int_flag =
          init_macphy polls
          >> (init_data stale update_buffer_status >> (start_thread >> raise_int_flag set_int_flag))

  -- `free_skbs` drops the three socket buffers.
  unfoldable pub oa_tc6_exit : (S → S) → Held S → Held S
  unfolding phy_exit
  oa_tc6_exit free_skbs h =
      let stopped = kthread_stop (phy_exit h) in record stopped { tc6 = free_skbs stopped.tc6 }
