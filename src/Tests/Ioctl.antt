-- ===== src/Tests/Ioctl.antt =====
-- The ioctl tool at a concrete register.
use base_t1s.Prelude.{ℕ, ◌+◌, ◌*◌, ◌%◌, ◌^◌, ◌≡◌, ok, true, arith, List, [], ◌∷◌}
use base_t1s.Tests.Registers.{store_bus, store_regs}
use base_t1s.Tc6.Bus.Laws.{put}
use base_t1s.IoctlTool.{do_ioctl, read_operation, write_operation}
use base_t1s.IoctlTool.Tables.PhyPcs
use base_t1s.IoctlTool.Maps.{info_of, in_phy_pcs}
use base_t1s.IoctlTool.Main.{DumpLine, dump, option_o, option_m, main}
use base_t1s.IoctlTool.Dump.{lines_at, line_of, main-Dumps}
use base_t1s.IoctlTool.Access.{do_ioctl-write_read}

-- The lower address register of the MAC, with a value of 32 bits.
do_ioctl-write_read_example :
    (s1 : ℕ → ℕ) × (s2 : ℕ → ℕ) × (do_ioctl store_bus true 1 0x22 0x12345678 write_operation
        (λ _. 0)
      ≡ (ok 0, s1))
    × (do_ioctl store_bus true 1 0x22 0 read_operation s1 ≡ (ok (0x12345678 % 2 ^ 16), s2))
    × ((b : ℕ)
        → s2 b % 2 ^ 32
          ≡ put (λ _. 0 % 2 ^ 32) (1 * 2 ^ 16 + 0x22 % 2 ^ 16) (0x12345678 % 2 ^ 16) b)
do_ioctl-write_read_example =
    do_ioctl-write_read store_regs (λ _. 0) 1 0x22 0x12345678 0 tt (omega arith) tt

-- The dump of the PCS registers, whose addresses are those of four 16-bit registers.
main-Dumps_example :
    (s' : ℕ → ℕ) × (lines : List DumpLine) × (main store_bus true
        (option_o "mms" ∷ option_m 2 ∷ [])
        (λ a. a)
      ≡ (ok (0, dump lines), s'))
    × (lines_at 0x8F4 lines
        ≡ line_of (λ a. a % 2 ^ 32) 2 (info_of (in_phy_pcs PhyPcs.t1spcssts)) ∷ [])
    × ((b : ℕ) → s' b % 2 ^ 32 ≡ b % 2 ^ 32)
main-Dumps_example =
    main-Dumps store_regs (λ a. a) (in_phy_pcs PhyPcs.t1spcssts) tt
      ((omega arith, tt), ((omega arith, tt), ((omega arith, tt), ((omega arith, tt), tt))))
