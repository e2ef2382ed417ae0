-- ===== src/Arp.antt =====
-- The ARP test tool examples/arp/arp.c: the table of known addresses, and the packets. A packet is
-- the list of its bytes; a table is the list of the entries below its count.
pub mod Table
pub mod Packet
pub mod Roles
use base_t1s.Prelude.{
  ℕ, zero, suc, ◌+◌, ◌*◌, ◌/◌, ◌%◌, ◌^◌, bit_or, Bool, true, false, ◌||◌, List, [], ◌∷◌, ◌++◌,
  Option, some, none, M, Outcome, ok, err, ◌>>=◌, ◌>>◌, pure, length, get_or, take, drop, put_at,
  replicate, ltb, leb, ◌==◌, if◌then◌else◌,
}
use base_t1s.Word.{u64}
use base_t1s.Tc6.Ctrl.{bytes_eq}

pub record ArpEntry : Type 0 where
  pub ip : List ℕ
  pub mac : List ℕ

abbrev pub max_entries : ℕ
max_entries = 100

-- The value RET_FAIL; a function returns it negated.
abbrev pub ret_fail : ℕ
ret_fail = 1

-- The loop over the entries: the table with the first entry of the address changed, if there is
-- one.
unfoldable pub update_entry : List ℕ → List ℕ → List ArpEntry → Option (List ArpEntry)
update_entry ip mac [] = none
update_entry ip mac (e ∷ es) =
    if bytes_eq e.ip ip
    then some (record { ip = e.ip; mac = mac } ∷ es)
    else elim (update_entry ip mac es) [ none ↦ none | some es' ↦ some (e ∷ es') ]

unfoldable pub add_to_arp_table : List ℕ → List ℕ → M (List ArpEntry) (Unit {0})
add_to_arp_table ip mac table = elim (update_entry ip mac table) [
  | some table' ↦ (ok tt, table')
  | none ↦
      if ltb (length table) max_entries
      then (ok tt, table ++ record { ip = ip; mac = mac } ∷ [])
      else (err ret_fail, table)
]

-- An Ethernet and ARP header with the given fields; `op` is the operation.
abbrev pub arp_frame : List ℕ → List ℕ → ℕ → List ℕ → List ℕ → List ℕ → List ℕ → List ℕ
arp_frame dest source op sender_mac sender_ip target_mac target_ip =
    dest
    ++ (source
        ++ (0x08 ∷ 0x06 ∷ 0 ∷ 1 ∷ 0x08 ∷ 0x00 ∷ 6 ∷ 4 ∷ op / 2 ^ 8 % 2 ^ 8 ∷ op % 2 ^ 8 ∷ []
            ++ (sender_mac ++ (sender_ip ++ (target_mac ++ target_ip)))))

abbrev pub arpop_request : ℕ
arpop_request = 1

abbrev pub arpop_reply : ℕ
arpop_reply = 2

abbrev pub packet_size_arp : ℕ
packet_size_arp = 60

-- COORDINATOR_IP4 and FOLLOWER_IP4 as `inet_pton` writes them.
abbrev pub coordinator_ip4 : List ℕ
coordinator_ip4 = 192 ∷ 168 ∷ 10 ∷ 21 ∷ []

abbrev pub follower_ip4 : List ℕ
follower_ip4 = 192 ∷ 168 ∷ 10 ∷ 11 ∷ []

-- The packet as it is filled, and the length returned.
unfoldable pub make_arp_packet : List ℕ → List ℕ → List ℕ × ℕ
make_arp_packet my_mac packet = (
  put_at packet 0 (
      arp_frame (replicate 6 0xFF) my_mac arpop_request my_mac coordinator_ip4 (replicate 6 0)
        follower_ip4),
  packet_size_arp,
)

-- The fields of a received packet.
unfoldable pub h_source : List ℕ → List ℕ
h_source packet = take 6 (drop 6 packet)

unfoldable pub h_proto : List ℕ → ℕ
h_proto packet = get_or packet 12 0 * 2 ^ 8 + get_or packet 13 0

unfoldable pub ar_op : List ℕ → ℕ
ar_op packet = get_or packet 20 0 * 2 ^ 8 + get_or packet 21 0

unfoldable pub ar_sha : List ℕ → List ℕ
ar_sha packet = take 6 (drop 22 packet)

unfoldable pub ar_sip : List ℕ → List ℕ
ar_sip packet = take 4 (drop 28 packet)

unfoldable pub create_arp_reply : List ℕ → List ℕ → List ℕ → List ℕ → List ℕ
create_arp_reply request_packet reply_packet my_mac my_ip = put_at reply_packet 0 (
    arp_frame (h_source request_packet) my_mac arpop_reply my_mac my_ip (ar_sha request_packet)
      (ar_sip request_packet))

-- The result of the call that fills the table is not looked at.
unfoldable pub check_arp_packet : List ℕ → M (List ArpEntry) (Unit {0})
check_arp_packet packet table =
    if h_proto packet == 0x0806
    then (if ar_op packet == arpop_reply
        then (ok tt, (add_to_arp_table (ar_sip packet) (ar_sha packet) table).1)
        else if ar_op packet == arpop_request
        then (ok tt, table)
        else (err ret_fail, table))
    else (err ret_fail, table)

-- The loop of `mac_to_int64` over `values`, from index 0.
unfoldable pub mac_loop : List ℕ → ℕ → ℕ
mac_loop [] result = result
mac_loop (v ∷ values) result = mac_loop values (bit_or (u64 (result * 2 ^ 8)) (v % 2 ^ 8))

-- The address from the six numbers of its text, the first one first: `values` has them backwards.
unfoldable pub mac_to_int64 : ℕ → ℕ → ℕ → ℕ → ℕ → ℕ → ℕ
mac_to_int64 a b c d e f = mac_loop (f ∷ e ∷ d ∷ c ∷ b ∷ a ∷ []) 0

-- `my_mac` from the address on the chip; an address of 0 is refused.
unfoldable pub fill_my_mac_address : ℕ → Outcome (List ℕ)
fill_my_mac_address mac =
    if mac == 0
    then err ret_fail
    else ok (
        mac % 2 ^ 8
        ∷ mac / 2 ^ 8 % 2 ^ 8
        ∷ mac / 2 ^ 16 % 2 ^ 8
        ∷ mac / 2 ^ 24 % 2 ^ 8
        ∷ mac / 2 ^ 32 % 2 ^ 8
        ∷ mac / 2 ^ 40 % 2 ^ 8
        ∷ [])
