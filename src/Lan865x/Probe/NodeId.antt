-- ===== src/Lan865x/Probe/NodeId.antt =====
-- The node id that the probe reads from the pins.
use base_t1s.Prelude.{
  ℕ, ◌+◌, ◌*◌, ◌≤◌, ◌<◌, List, [], ◌∷◌, Outcome, ok, ◌≡◌, refl, ap, arith, length, ◌⊎◌, inl, inr,
}
use base_t1s.Lan865x.Probe.{gpio_loop, read_node_id}

-- The number whose digits are the values, the first one lowest.
abbrev pub pins_value : List ℕ → ℕ
pins_value [] = 0
pins_value (v ∷ vs) = v + 2 * pins_value vs

abbrev pub AllBits : List ℕ → Type 0
AllBits [] = Unit {0}
AllBits (v ∷ vs) = (v < 2) × AllBits vs

-- With at most four pins the node id is the binary number of their values, the first pin lowest; with
-- more pins the array of four values is written out of bounds.
pub read_node_id-value :
    (pins : List ℕ)
    → AllBits pins
    → ((length pins ≤ 4) × (read_node_id pins ≡ ok (pins_value pins)))
      ⊎ ((4 < length pins) × (read_node_id pins ≡ Outcome.fault))
unfolding read_node_id gpio_loop
read_node_id-value [] h = inl (omega arith, refl)
read_node_id-value (a ∷ []) (ha, h) = inl (omega arith, ap ok (omega arith))
read_node_id-value (a ∷ b ∷ []) (ha, (hb, h)) = inl (omega arith, ap ok (omega arith))
read_node_id-value (a ∷ b ∷ c ∷ []) (ha, (hb, (hc, h))) = inl (omega arith, ap ok (omega arith))
read_node_id-value (a ∷ b ∷ c ∷ d ∷ []) (ha, (hb, (hc, (hd, h)))) =
    inl (omega arith, ap ok (omega arith))
read_node_id-value (a ∷ b ∷ c ∷ d ∷ e ∷ pins) h = inr (omega arith, ground arith)
