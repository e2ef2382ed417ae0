-- ===== src/Tests/Registers.antt =====
-- Registers that are a function from addresses to values, and the driver's data over them.
use base_t1s.Prelude.{ℕ, ◌%◌, ◌^◌, ◌<◌, false, [], ◌∷◌, none, ok, ◌≡◌, refl, arith}
use base_t1s.Tc6.Bus.{RegisterBus}
use base_t1s.Tc6.Bus.Laws.{RegisterFile, put}
use base_t1s.Lan865x.Priv.{Priv}

abbrev pub store_bus : RegisterBus (ℕ → ℕ)
store_bus = record {
  read_register = λ address g. (ok (g address % 2 ^ 32), g);
  write_register = λ address value g. (ok tt, put g address value);
}

pub kept :
    (g : ℕ → ℕ) (a v b : ℕ) → v < 2 ^ 32 → put g a v b % 2 ^ 32 ≡ put (λ c. g c % 2 ^ 32) a v b
kept g a v b lt = ground arith

abbrev pub store_regs : RegisterFile store_bus
store_regs = record {
  get = λ g a. g a % 2 ^ 32;
  IsReady = λ g. Unit {0};
  IsPlain = λ a. Unit {0};
  get-lt = λ g a h. omega arith;
  read_ok = λ g a h p. (g, refl, tt, λ b. refl);
  write_ok = λ g a v h p lt. (put g a v, refl, tt, λ b. kept g a v b lt);
}

-- All registers hold 0; the device asks for one multicast address.
abbrev pub idle_priv : Priv (ℕ → ℕ)
idle_priv = record {
  tc6 = λ _. 0;
  dev_addr = 2 ∷ 0 ∷ 0 ∷ 0 ∷ 0 ∷ 1 ∷ [];
  promisc = false;
  allmulti = false;
  mc = (1 ∷ 0 ∷ 0x5E ∷ 0 ∷ 0 ∷ 0xFB ∷ []) ∷ [];
  queue_stopped = false;
  phy_started = false;
  tstamp_config = record { flags = 0; tx_type = 1; rx_filter = 0 };
  waiting_gptp = none;
  waiting_normal = none;
  total_tx_count = 0;
  total_tx_drop_count = 0;
  tx_events = [];
}
