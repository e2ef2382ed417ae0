-- ===== src/Lan865x/Packets/Counters.antt =====
-- The counters of sent and dropped packets.
use base_t1s.Prelude.{ℕ, ◌+◌, ◌^◌, ◌≤◌, ◌<◌, ◌≡◌, arith, ◌⊎◌, inl, inr}
use native.Mathlib.Decide.{dec_le}
use base_t1s.Lan865x.Priv.{Priv}
use base_t1s.Lan865x.Packets.{count_tx_packets}

module _ {S : Type 0} where
  -- As long as the totals fit 64 bits: the packets sent are added up, and what is added to the dropped
  -- ones is the difference of the two counts; but if the device counts more packets sent than packets
  -- in all, it is 2 ^ 32 less the excess.
  pub count_tx_packets-drops :
      (sent_count all_count : ℕ) (p : Priv S)
      → sent_count < 2 ^ 32
      → all_count < 2 ^ 32
      → p.total_tx_count + 2 ^ 32 ≤ 2 ^ 64
      → p.total_tx_drop_count + 2 ^ 32 ≤ 2 ^ 64
      → let q = count_tx_packets sent_count all_count p in
        (q.total_tx_count ≡ p.total_tx_count + sent_count)
        × (((sent_count ≤ all_count)
              × (q.total_tx_drop_count + sent_count ≡ p.total_tx_drop_count + all_count))
            ⊎ ((all_count < sent_count)
                × (q.total_tx_drop_count + sent_count
                    ≡ p.total_tx_drop_count + all_count + 2 ^ 32)))
  unfolding count_tx_packets
  count_tx_packets-drops sent_count all_count p lt lt' room room' = (
    ground arith,
    elim (dec_le sent_count all_count) [
      | yes le ↦ inl (le, ground arith)
      | no more ↦ inr (omega arith, ground arith)
    ],
  )
