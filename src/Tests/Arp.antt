-- ===== src/Tests/Arp.antt =====
-- The theorems on the ARP tool at concrete packets.
use base_t1s.Prelude.{
  ℕ, ◌≤◌, List, [], ◌∷◌, some, none, ok, err, ◌≡◌, refl, arith, ◌⊎◌, false, length, replicate,
  length-replicate,
}
use base_t1s.Tc6.Ctrl.{bytes_eq}
use base_t1s.Arp.{
  ArpEntry, max_entries, ret_fail, add_to_arp_table, make_arp_packet, create_arp_reply,
  check_arp_packet, mac_to_int64, fill_my_mac_address, coordinator_ip4, follower_ip4,
}
use base_t1s.Arp.Table.{lookup, add_to_arp_table-lookup}
use base_t1s.Arp.Packet.{fill_my_mac_address-mac_to_int64, check_arp_packet-exchange}

abbrev mac : List ℕ
mac = 0x04 ∷ 0x91 ∷ 0x62 ∷ 0x01 ∷ 0x02 ∷ 0x03 ∷ []

abbrev known : List ArpEntry
known = record { ip = coordinator_ip4; mac = mac } ∷ []

add_to_arp_table-lookup_example :
    let r = add_to_arp_table follower_ip4 mac known in
    (((r.0 ≡ ok tt) × (lookup follower_ip4 r.1 ≡ some mac))
      ⊎ ((r.0 ≡ err ret_fail)
          × (r.1 ≡ known)
          × (lookup follower_ip4 known ≡ none)
          × (length known ≡ max_entries)))
    × ((other : List ℕ)
        → bytes_eq follower_ip4 other ≡ false
        → lookup other r.1 ≡ lookup other known)
    × (length r.1 ≤ max_entries)
add_to_arp_table-lookup_example = add_to_arp_table-lookup follower_ip4 mac known (omega arith)

fill_my_mac_address-mac_to_int64_example :
    fill_my_mac_address (mac_to_int64 0x04 0x91 0x62 0x01 0x02 0x03) ≡ ok mac
fill_my_mac_address-mac_to_int64_example =
    fill_my_mac_address-mac_to_int64 0x04 0x91 0x62 0x01 0x02 0x03
      (omega arith, omega arith, omega arith, omega arith, omega arith, omega arith) (omega arith)

abbrev buffer : List ℕ
buffer = replicate 60 0

buffer-long : 42 ≤ length buffer
buffer-long = omega (arith, length-replicate {A = ℕ} 60 0)

check_arp_packet-exchange_example :
    (check_arp_packet (make_arp_packet mac buffer).0 known ≡ (ok tt, known))
    × (check_arp_packet (create_arp_reply buffer buffer mac follower_ip4) known
        ≡ (ok tt, (add_to_arp_table follower_ip4 mac known).1))
check_arp_packet-exchange_example =
    check_arp_packet-exchange buffer buffer buffer mac follower_ip4 known buffer-long
      (omega (arith, length-replicate {A = ℕ} 60 0)) buffer-long refl refl
