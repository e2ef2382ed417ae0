-- ===== src/Lan865x/Mac.antt =====
-- The MAC address and node id of src/linux/drivers/net/ethernet/microchip/lan865x/lan865x.c. An
-- address is the list of its six bytes.
use base_t1s.Prelude.{
  ℕ, ◌+◌, ◌*◌, ◌/◌, ◌%◌, ◌^◌, ◌<◌, bit_or, List, M, Outcome, ok, err, ◌>>◌, fail, get_or, ◌≡◌, [],
  ◌∷◌, arith,
}
use base_t1s.Word.Bits.{bit_or_sum}
use base_t1s.Tc6.Bus.{RegisterBus}

-- The value of LAN865X_REG_MAC_L_SADDR1.
unfoldable pub macaddr_low_word : List ℕ → ℕ
macaddr_low_word mac =
    bit_or
      (bit_or (bit_or (get_or mac 3 0 * 2 ^ 24) (get_or mac 2 0 * 2 ^ 16)) (get_or mac 1 0 * 2 ^ 8))
      (get_or mac 0 0)

-- The value of LAN865X_REG_MAC_H_SADDR1.
unfoldable pub macaddr_high_word : List ℕ → ℕ
macaddr_high_word mac = bit_or (get_or mac 5 0 * 2 ^ 8) (get_or mac 4 0)

unfoldable pub nodeid_word : ℕ → ℕ
nodeid_word node_id = bit_or (8 * 2 ^ 8) (node_id % 2 ^ 8)

module _ {S : Type 0} (bus : RegisterBus S) where
  open bus use {read_register, write_register}

  unfoldable pub set_nodeid : ℕ → M S (Unit {0})
  set_nodeid node_id = write_register 0x0004ca02 (nodeid_word node_id)

  unfoldable pub set_hw_macaddr_low_bytes : List ℕ → M S (Unit {0})
  set_hw_macaddr_low_bytes mac = write_register 0x00010022 (macaddr_low_word mac)

  -- What follows the write of the high bytes, on its outcome; `dev_addr` is the netdev's address.
  unfoldable pub restore_macaddr : List ℕ → Outcome (Unit {0}) → M S (Unit {0})
  restore_macaddr dev_addr (ok u) t = (ok tt, t)
  restore_macaddr dev_addr (err e) t = (set_hw_macaddr_low_bytes dev_addr >> fail e) t
  restore_macaddr dev_addr Outcome.fault t = (Outcome.fault, t)

  unfoldable pub set_hw_macaddr : List ℕ → List ℕ → M S (Unit {0})
  set_hw_macaddr dev_addr mac = set_hw_macaddr_low_bytes mac >> λ t.
      restore_macaddr dev_addr (write_register 0x00010023 (macaddr_high_word mac) t).0
        (write_register 0x00010023 (macaddr_high_word mac) t).1

-- From the two words that are written to the address registers the six bytes are read back, the
-- first one lowest.
macaddr_words-decode :
    (a b c d e f : ℕ)
    → (a < 256) × (b < 256) × (c < 256) × (d < 256) × (e < 256) × (f < 256)
    → let mac = a ∷ b ∷ c ∷ d ∷ e ∷ f ∷ [] in
      (macaddr_low_word mac < 2 ^ 32)
      × (macaddr_low_word mac % 256 ≡ a)
      × (macaddr_low_word mac / 2 ^ 8 % 256 ≡ b)
      × (macaddr_low_word mac / 2 ^ 16 % 256 ≡ c)
      × (macaddr_low_word mac / 2 ^ 24 ≡ d)
      × (macaddr_high_word mac % 256 ≡ e)
      × (macaddr_high_word mac / 2 ^ 8 ≡ f)
unfolding macaddr_low_word macaddr_high_word
macaddr_words-decode a b c d e f (ha, hb, hc, hd, he, hf) =
    let s2 = bit_or_sum 24 (d * 2 ^ 24) (c * 2 ^ 16) (omega arith) (omega arith) in
    let s1 = bit_or_sum 16 (d * 2 ^ 24 + c * 2 ^ 16) (b * 2 ^ 8) (omega arith) (omega arith) in
    let s0 = bit_or_sum 8 (d * 2 ^ 24 + c * 2 ^ 16 + b * 2 ^ 8) a (omega arith) (omega arith) in
    let h = bit_or_sum 8 (f * 2 ^ 8) e (omega arith) (omega arith) in
    rw (s2, s1, s0, h)
      (omega arith, omega arith, omega arith, omega arith, omega arith, omega arith, omega arith)
