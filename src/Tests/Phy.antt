-- ===== src/Tests/Phy.antt =====
-- The theorems on the access to the PHY at concrete registers.
use base_t1s.Prelude.{ℕ, ◌%◌, ◌+◌, ◌*◌, ◌^◌, ok, ◌≡◌, arith}
use base_t1s.Tests.Registers.{store_bus, store_regs}
use base_t1s.Tc6.Bus.Laws.{put}
use base_t1s.Tc6.Phy.Address.{vendor}
use base_t1s.Tc6.Phy.{mdiobus_read_c45, mdiobus_write_c45}
use base_t1s.Tc6.Phy.Access.{mdiobus_write_c45-mdiobus_read_c45}

-- A PLCA register of the second vendor device.
mdiobus_write_c45-mdiobus_read_c45_example :
    (s1 : ℕ → ℕ) × (s2 : ℕ → ℕ) × (mdiobus_write_c45 store_bus 31 0xCA01 0x8000 (λ _. 0)
      ≡ (ok tt, s1))
    × (mdiobus_read_c45 store_bus 31 0xCA01 s1 ≡ (ok 0x8000, s2))
    × ((b : ℕ) → s2 b % 2 ^ 32 ≡ put (λ _. 0 % 2 ^ 32) (4 * 2 ^ 16 + 0xCA01) 0x8000 b)
mdiobus_write_c45-mdiobus_read_c45_example =
    mdiobus_write_c45-mdiobus_read_c45 store_regs (λ _. 0) 31 0xCA01 4 0x8000 tt vendor
      (omega arith) tt (omega arith)
