-- ===== src/IoctlTool/Tables.antt =====
-- The tables of register names of examples/ioctl/ioctl.h. An entry with address -1 ends a table in
-- C; here the list ends.
pub mod OpenAlliance
pub mod Mac
pub mod PhyPcs
pub mod PhyPmaPmd
pub mod PhyVendor
pub mod Miscellaneous
use Prim.Native.String.{String}
use base_t1s.Prelude.{ℕ, List, [], ◌∷◌, ◌==◌, if◌then◌else◌}

-- `struct reginfo`.
pub record RegInfo : Type 0 where
  pub desc : String
  pub address : ℕ

-- The entries of a table with an address.
unfoldable pub entries_at : ℕ → List RegInfo → List RegInfo
entries_at a [] = []
entries_at a (e ∷ es) = if e.address == a then e ∷ entries_at a es else entries_at a es
