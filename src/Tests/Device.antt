-- ===== src/Tests/Device.antt =====
-- The theorems on the network device at concrete addresses.
use base_t1s.Prelude.{ℕ, ◌+◌, ◌*◌, ◌/◌, ◌%◌, ◌^◌, ◌<◌, List, [], ◌∷◌, ◌≡◌, arith}
use base_t1s.Lan865x.Multicast.{lan865x_hash, hash_masks}
use base_t1s.Lan865x.Multicast.Hash.{column, lan865x_hash-value}
use base_t1s.Lan865x.Multicast.Filter.{hit, hash_masks-hit}

-- The group addresses of PTP peer delay messages and of IPv4 multicast DNS.
abbrev peer_delay : List ℕ
peer_delay = 0x01 ∷ 0x80 ∷ 0xC2 ∷ 0x00 ∷ 0x00 ∷ 0x0E ∷ []

abbrev mdns : List ℕ
mdns = 0x01 ∷ 0x00 ∷ 0x5E ∷ 0x00 ∷ 0x00 ∷ 0xFB ∷ []

lan865x_hash-value_example :
    (lan865x_hash mdns
      ≡ column mdns 0
        + column mdns 1 * 2
        + column mdns 2 * 4
        + column mdns 3 * 8
        + column mdns 4 * 16
        + column mdns 5 * 32)
    × (lan865x_hash mdns < 64)
lan865x_hash-value_example = lan865x_hash-value mdns

hash_masks-hit_example :
    let masks = hash_masks (peer_delay ∷ mdns ∷ []) 0 0 in
    (masks.1 / 2 ^ 7 % 2 ≡ hit (peer_delay ∷ mdns ∷ []) 7)
    × (masks.0 / 2 ^ 7 % 2 ≡ hit (peer_delay ∷ mdns ∷ []) 39)
hash_masks-hit_example = hash_masks-hit (peer_delay ∷ mdns ∷ []) 7 (omega arith)
