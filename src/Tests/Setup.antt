-- ===== src/Tests/Setup.antt =====
-- The theorems on the set-up and on the probe at concrete answers of the kernel.
use base_t1s.Lan865x.Probe.NodeId.{pins_value, read_node_id-value}
use base_t1s.Prelude.{
  ◌+◌, ◌-◌, ◌/◌, ◌%◌, ◌^◌, Outcome, ◌≤◌, ◌<◌, ◌⊎◌, ◌≡◌, ℕ, arith, true, false, [], ◌∷◌, none, ok,
  refl, enomem,
}
use base_t1s.Tests.Registers.{store_bus}
use base_t1s.Tc6.Setup.Lan8650.{cfgparam1, cfgparam2}
use base_t1s.Tc6.Setup.Lan8650.Trim.{cfgparam-decode}
use base_t1s.Tc6.Setup.Init.{Kernel, Held, oa_tc6_init}
use base_t1s.Tc6.Setup.Init.Leaks.{nothing, everything, Ends, oa_tc6_init-Ends}
use base_t1s.Lan865x.Probe.{Board, Bound, read_node_id}

-- A kernel that refuses only the thread.
abbrev no_threads : Kernel (ℕ → ℕ)
no_threads = record {
  devm_kzalloc = λ s. (true, s);
  mdiobus_alloc = λ s. (true, s);
  mdiobus_register = λ s. (0, s);
  phy_find_first = λ s. (true, s);
  phy_connect_direct = λ s. (0, s);
  kthread_run = λ s. (enomem, s);
  devm_request_irq = λ s. (0, s);
}

abbrev fresh : Held (ℕ → ℕ)
fresh = record {
  tc6 = λ _. 0x200;
  mdiobus_allocated = false;
  mdiobus_registered = false;
  phy_connected = false;
  spi_thread = false;
}

oa_tc6_init-Ends_example :
    Ends everything nothing
      (oa_tc6_init no_threads store_bus 100 0 (λ s. (ok tt, s)) (λ s. s) fresh)
oa_tc6_init-Ends_example =
    oa_tc6_init-Ends no_threads store_bus 100 0 (λ s. (ok tt, s)) (λ s. s) fresh refl

-- The network device cannot be registered.
abbrev refusing : Board
refusing = record {
  alloc_etherdev = true;
  nodeid_gpios = ok (1 ∷ 0 ∷ 1 ∷ []);
  dev_addr = 2 ∷ 0 ∷ 0 ∷ 0 ∷ 0 ∷ 1 ∷ [];
  register_netdev = enomem;
  mac_address = none;
  kzalloc_ptp = true;
  ptp_clock_register = 0;
  kthread_run_ptp = 0;
  misc_register = 0;
}

abbrev unbound : Bound (ℕ → ℕ)
unbound = record {
  held = fresh;
  dev_addr = [];
  netdev_allocated = false;
  netdev_registered = false;
  ptp_allocated = false;
  ptp_registered = false;
  ptp_thread = false;
  misc_registered = false;
}

read_node_id-value_example :
    ((3 ≤ 4) × (read_node_id (1 ∷ 0 ∷ 1 ∷ []) ≡ ok (pins_value (1 ∷ 0 ∷ 1 ∷ []))))
    ⊎ ((4 < 3) × (read_node_id (1 ∷ 0 ∷ 1 ∷ []) ≡ Outcome.fault))
read_node_id-value_example =
    read_node_id-value (1 ∷ 0 ∷ 1 ∷ []) (omega arith, (omega arith, (omega arith, tt)))

-- A first trim of -3 and a second of 5.
cfgparam-decode_example :
    (cfgparam1 29 < 2 ^ 16)
    × (cfgparam1 29 % 2 ^ 4 ≡ 3)
    × (cfgparam2 5 < 2 ^ 16)
    × (cfgparam2 5 % 2 ^ 10 ≡ 0)
    × (((29 < 16) × (cfgparam1 29 / 2 ^ 4 % 2 ^ 6 ≡ 14 + 29) × (cfgparam1 29 / 2 ^ 10 ≡ 9 + 29))
        ⊎ ((16 ≤ 29)
            × (cfgparam1 29 / 2 ^ 4 % 2 ^ 6 ≡ (14 + 2 ^ 6 + 29 - 32) % 2 ^ 6)
            × (cfgparam1 29 / 2 ^ 10 ≡ (9 + 2 ^ 6 + 29 - 32) % 2 ^ 6)))
    × (((5 < 16) × (cfgparam2 5 / 2 ^ 10 ≡ 40 + 5))
        ⊎ ((16 ≤ 5) × (cfgparam2 5 / 2 ^ 10 ≡ 40 + 5 - 32)))
cfgparam-decode_example = cfgparam-decode 29 5 (omega arith) (omega arith)
