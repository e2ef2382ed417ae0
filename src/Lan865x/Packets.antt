-- ===== src/Lan865x/Packets.antt =====
-- Transmit time stamps and packet counters in
-- src/linux/drivers/net/ethernet/microchip/lan865x/lan865x_arch.c.
pub mod Counters
use base_t1s.Prelude.{
  ℕ, ◌+◌, ◌-◌, ◌*◌, ◌^◌, Option, some, none, M, ok, ◌>>=◌, ◌>>◌, ltb, ◌==◌, if◌then◌else◌, einval,
}
use base_t1s.Word.{u32, u64}
use base_t1s.Tc6.Bus.{RegisterBus, read_or_old}
use base_t1s.Lan865x.Priv.{Priv, on_tc6}

-- `reg_hi` and `reg_lo`: the registers of the seconds and the nanoseconds of a capture; `none` is an
-- index outside the tables, or one whose entry is 0.
unfoldable pub capture_regs : ℕ → Option (ℕ × ℕ)
capture_regs tx_id =
    if tx_id == 1
    then some (0x10, 0x11)
    else if tx_id == 2
    then some (0x12, 0x13)
    else if tx_id == 3
    then some (0x14, 0x15)
    else none

module _ {S : Type 0} where
  -- The counters, with the numbers of packets sent and of all packets since the last read.
  unfoldable pub count_tx_packets : ℕ → ℕ → Priv S → Priv S
  count_tx_packets tx_count total_tx_count p =
      let dropped = u32 (total_tx_count + 2 ^ 32 - tx_count) in
      record p {
        total_tx_count = u64 (p.total_tx_count + tx_count);
        total_tx_drop_count =
            if ltb 0 dropped then u64 (p.total_tx_drop_count + dropped) else p.total_tx_drop_count;
      }

module _ {S : Type 0} (bus : RegisterBus S) where
  -- The failure -EINVAL is returned as an unsigned number of 64 bits.
  unfoldable pub read_tx_timestamp : ℕ → M S ℕ
  read_tx_timestamp tx_id = elim (capture_regs tx_id) [
    | none ↦ λ s. (ok (2 ^ 64 - einval), s)
    | some (hi, lo) ↦ read_or_old bus 0 hi >>= λ ts_h.
        read_or_old bus 0 lo >>= λ ts_l s. (ok (u64 (u64 (ts_h * 1000000000) + ts_l)), s)
  ]

  unfoldable pub update_tx_packets : M (Priv S) (Unit {0})
  update_tx_packets = on_tc6 (read_or_old bus 0 0x0214) >>= λ tx_count.
      on_tc6 (read_or_old bus 0 0x0213) >>= λ total_tx_count p.
      (ok tt, count_tx_packets tx_count total_tx_count p)

  unfoldable pub get_tx_packets : M (Priv S) ℕ
  get_tx_packets = update_tx_packets >> λ p. (ok p.total_tx_count, p)

  unfoldable pub get_tx_drop_packets : M (Priv S) ℕ
  get_tx_drop_packets = update_tx_packets >> λ p. (ok p.total_tx_drop_count, p)
