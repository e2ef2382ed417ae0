-- ===== src/Arp/Packet.antt =====
-- The packets of the ARP tool: what the other side reads from a reply, and the MAC address.
use base_t1s.Prelude.{
  ℕ, ◌+◌, ◌*◌, ◌/◌, ◌%◌, ◌^◌, ◌≤◌, ◌<◌, bit_or, List, [], ◌∷◌, ◌++◌, ok, ◌≡◌, refl, arith, length,
  take, drop, put_at, ap, ◌∙◌, sym, ◌==◌, false, length-append, take-drop-put_at, take-drop-take,
  drop-append, take-append, get_or, get_or-append, get_or-take, replicate, length-take, length-drop,
}
use base_t1s.Word.{u64}
use base_t1s.Word.Bits.{bit_or_sum}
use base_t1s.Arp.{
  ArpEntry, arp_frame, arpop_reply, arpop_request, coordinator_ip4, follower_ip4, make_arp_packet,
  create_arp_reply, check_arp_packet, add_to_arp_table, h_source, h_proto, ar_op, ar_sha, ar_sip,
  mac_loop, mac_to_int64, fill_my_mac_address,
}

mac_step : (r v : ℕ) → r < 2 ^ 40 → bit_or (u64 (r * 2 ^ 8)) (v % 2 ^ 8) ≡ r * 2 ^ 8 + v % 2 ^ 8
mac_step r v lt =
    let whole : u64 (r * 2 ^ 8) ≡ r * 2 ^ 8 = omega arith in
    ap (λ w. bit_or w (v % 2 ^ 8)) whole
    ∙ bit_or_sum 8 (r * 2 ^ 8) (v % 2 ^ 8) (omega arith) (omega arith)

mac_loop-suc :
    (v : ℕ) (vs : List ℕ) (r : ℕ)
    → r < 2 ^ 40
    → mac_loop (v ∷ vs) r ≡ mac_loop vs (r * 2 ^ 8 + v % 2 ^ 8)
unfolding mac_loop
mac_loop-suc v vs r lt = ap (mac_loop vs) (mac_step r v lt)

mac_loop-nil : (r : ℕ) → mac_loop [] r ≡ r
unfolding mac_loop
mac_loop-nil r = refl

mac_to_int64-value :
    (a b c d e f : ℕ)
    → (a < 256) × (b < 256) × (c < 256) × (d < 256) × (e < 256) × (f < 256)
    → mac_to_int64 a b c d e f ≡ a + b * 2 ^ 8 + c * 2 ^ 16 + d * 2 ^ 24 + e * 2 ^ 32 + f * 2 ^ 40
unfolding mac_to_int64
mac_to_int64-value a b c d e f (ha, hb, hc, hd, he, hf) =
    let s1 = 0 * 2 ^ 8 + f % 2 ^ 8 in
    let s2 = s1 * 2 ^ 8 + e % 2 ^ 8 in
    let s3 = s2 * 2 ^ 8 + d % 2 ^ 8 in
    let s4 = s3 * 2 ^ 8 + c % 2 ^ 8 in
    let s5 = s4 * 2 ^ 8 + b % 2 ^ 8 in
    let s6 = s5 * 2 ^ 8 + a % 2 ^ 8 in
    mac_loop-suc f (e ∷ d ∷ c ∷ b ∷ a ∷ []) 0 (omega arith)
    ∙ mac_loop-suc e (d ∷ c ∷ b ∷ a ∷ []) s1 (omega arith)
    ∙ mac_loop-suc d (c ∷ b ∷ a ∷ []) s2 (omega arith)
    ∙ mac_loop-suc c (b ∷ a ∷ []) s3 (omega arith)
    ∙ mac_loop-suc b (a ∷ []) s4 (omega arith)
    ∙ mac_loop-suc a [] s5 (omega arith)
    ∙ mac_loop-nil s6
    ∙ omega arith

six_bytes :
    (w a b c d e f : ℕ)
    → w ≡ a + b * 2 ^ 8 + c * 2 ^ 16 + d * 2 ^ 24 + e * 2 ^ 32 + f * 2 ^ 40
    → (a < 256) × (b < 256) × (c < 256) × (d < 256) × (e < 256) × (f < 256)
    → 0 < w
    → fill_my_mac_address w ≡ ok (a ∷ b ∷ c ∷ d ∷ e ∷ f ∷ [])
unfolding fill_my_mac_address
six_bytes w a b c d e f v (ha, hb, hc, hd, he, hf) some =
    let b0 : w % 2 ^ 8 ≡ a = omega arith in
    let b1 : w / 2 ^ 8 % 2 ^ 8 ≡ b = omega arith in
    let b2 : w / 2 ^ 16 % 2 ^ 8 ≡ c = omega arith in
    let b3 : w / 2 ^ 24 % 2 ^ 8 ≡ d = omega arith in
    let b4 : w / 2 ^ 32 % 2 ^ 8 ≡ e = omega arith in
    let b5 : w / 2 ^ 40 % 2 ^ 8 ≡ f = omega arith in
    let set : (w == 0) ≡ false = ground arith in rw (set, b0, b1, b2, b3, b4, b5) refl

-- Six bytes that are not all 0 and that `mac_to_int64` packs into the number for the chip come back
-- from that number through `fill_my_mac_address`, each in its place.
pub fill_my_mac_address-mac_to_int64 :
    (a b c d e f : ℕ)
    → (a < 256) × (b < 256) × (c < 256) × (d < 256) × (e < 256) × (f < 256)
    → 0 < a + b + c + d + e + f
    → fill_my_mac_address (mac_to_int64 a b c d e f) ≡ ok (a ∷ b ∷ c ∷ d ∷ e ∷ f ∷ [])
fill_my_mac_address-mac_to_int64 a b c d e f h some =
    let v = mac_to_int64-value a b c d e f h in
    six_bytes (mac_to_int64 a b c d e f) a b c d e f v h (omega arith)

-- The bytes of a frame at the front of a packet, and its fields, if the addresses have their
-- lengths.
module _ (packet dest source sender_mac sender_ip target_mac target_ip : List ℕ) (op : ℕ)
    (long : 42 ≤ length packet) (ld : length dest ≡ 6) (ls : length source ≡ 6)
    (lsm : length sender_mac ≡ 6) (lsi : length sender_ip ≡ 4) (ltm : length target_mac ≡ 6)
    (lti : length target_ip ≡ 4) where
  abbrev frame : List ℕ
  frame = arp_frame dest source op sender_mac sender_ip target_mac target_ip

  abbrev behind : List ℕ
  behind = sender_mac ++ (sender_ip ++ (target_mac ++ target_ip))

  abbrev header : List ℕ
  header = 0x08 ∷ 0x06 ∷ 0 ∷ 1 ∷ 0x08 ∷ 0x00 ∷ 6 ∷ 4 ∷ op / 2 ^ 8 % 2 ^ 8 ∷ op % 2 ^ 8 ∷ []

  length-frame : length frame ≡ 42
  length-frame = omega (
    arith,
    length-append dest (source ++ (header ++ behind)),
    length-append source (header ++ behind),
    length-append sender_mac (sender_ip ++ (target_mac ++ target_ip)),
    length-append sender_ip (target_mac ++ target_ip),
    length-append target_mac target_ip,
  )

  front : take 42 (put_at packet 0 frame) ≡ frame
  front = take-drop-put_at packet 0 frame 42 (sym length-frame) (omega (arith, length-frame))

  slice-frame :
      (k m : ℕ) → m + k ≤ 42 → take k (drop m (put_at packet 0 frame)) ≡ take k (drop m frame)
  slice-frame k m h =
      sym (take-drop-take k m 42 (put_at packet 0 frame) h) ∙ ap (λ b. take k (drop m b)) front

  byte-frame : (i : ℕ) → i < 42 → get_or (put_at packet 0 frame) i 0 ≡ get_or frame i 0
  byte-frame i h = sym (get_or-take 42 i (put_at packet 0 frame) 0 h) ∙ ap (λ b. get_or b i 0) front

  byte-header : (i : ℕ) → get_or frame (6 + (6 + i)) 0 ≡ get_or (header ++ behind) i 0
  byte-header i =
      get_or-append 6 (6 + i) dest (source ++ (header ++ behind)) 0 ld
      ∙ get_or-append 6 i source (header ++ behind) 0 ls

  drop-frame : (k : ℕ) → drop (6 + (6 + k)) frame ≡ drop k (header ++ behind)
  drop-frame k =
      drop-append 6 (6 + k) dest (source ++ (header ++ behind)) ld
      ∙ drop-append 6 k source (header ++ behind) ls

  h_proto-frame : h_proto (put_at packet 0 frame) ≡ 0x0806
  unfolding h_proto
  h_proto-frame = omega (
    arith,
    byte-frame 12 (omega arith),
    byte-frame 13 (omega arith),
    byte-header 0,
    byte-header 1,
  )

  ar_op-frame : op < 2 ^ 16 → ar_op (put_at packet 0 frame) ≡ op
  unfolding ar_op
  ar_op-frame small = omega (
    arith,
    byte-frame 20 (omega arith),
    byte-frame 21 (omega arith),
    byte-header 8,
    byte-header 9,
  )

  ar_sha-frame : ar_sha (put_at packet 0 frame) ≡ sender_mac
  unfolding ar_sha
  ar_sha-frame =
      slice-frame 6 22 (omega arith)
      ∙ ap (take 6) (drop-frame 10)
      ∙ take-append 6 sender_mac (sender_ip ++ (target_mac ++ target_ip)) lsm

  ar_sip-frame : ar_sip (put_at packet 0 frame) ≡ sender_ip
  unfolding ar_sip
  ar_sip-frame =
      slice-frame 4 28 (omega arith)
      ∙ ap (take 4)
          (drop-frame 16 ∙ drop-append 6 0 sender_mac (sender_ip ++ (target_mac ++ target_ip)) lsm)
      ∙ take-append 4 sender_ip (target_mac ++ target_ip) lsi

reply-checked :
    (packet : List ℕ) (sip sha : List ℕ) (table : List ArpEntry)
    → h_proto packet ≡ 0x0806
    → ar_op packet ≡ arpop_reply
    → ar_sip packet ≡ sip
    → ar_sha packet ≡ sha
    → check_arp_packet packet table ≡ (ok tt, (add_to_arp_table sip sha table).1)
unfolding check_arp_packet
reply-checked packet sip sha table p o i h = rw (p, o, i, h) refl

request-checked :
    (packet : List ℕ) (table : List ArpEntry)
    → h_proto packet ≡ 0x0806
    → ar_op packet ≡ arpop_request
    → check_arp_packet packet table ≡ (ok tt, table)
unfolding check_arp_packet
request-checked packet table p o = rw (p, o) refl

length-slice : (k m : ℕ) (xs : List ℕ) → m + k ≤ length xs → length (take k (drop m xs)) ≡ k
length-slice k m xs h = omega (arith, length-take k (drop m xs), length-drop m xs)

-- In buffers with room, the packet of `make_arp_packet` passes the check and leaves the table as it
-- is, and the reply to any request of at least 32 bytes passes it and enters the replier's IP and
-- MAC address into the table of the asker.
pub check_arp_packet-exchange :
    (buffer request reply my_mac my_ip : List ℕ) (table : List ArpEntry)
    → 42 ≤ length buffer
    → 32 ≤ length request
    → 42 ≤ length reply
    → length my_mac ≡ 6
    → length my_ip ≡ 4
    → (check_arp_packet (make_arp_packet my_mac buffer).0 table ≡ (ok tt, table))
      × (check_arp_packet (create_arp_reply request reply my_mac my_ip) table
          ≡ (ok tt, (add_to_arp_table my_ip my_mac table).1))
unfolding make_arp_packet create_arp_reply h_source ar_sha ar_sip
check_arp_packet-exchange buffer request reply my_mac my_ip table lb lq lr lm li =
    let source = take 6 (drop 6 request) in
    let sha = take 6 (drop 22 request) in
    let sip = take 4 (drop 28 request) in
    let ls = length-slice 6 6 request (omega arith) in
    let lh = length-slice 6 22 request (omega arith) in
    let lp = length-slice 4 28 request (omega arith) in
    (
      request-checked _ table
          (h_proto-frame buffer (replicate 6 0xFF) my_mac my_mac coordinator_ip4 (replicate 6 0)
            follower_ip4 arpop_request lb refl lm lm refl refl refl)
          (ar_op-frame buffer (replicate 6 0xFF) my_mac my_mac coordinator_ip4 (replicate 6 0)
            follower_ip4 arpop_request lb refl lm lm refl refl refl (omega arith)),
      reply-checked _ my_ip my_mac table
          (h_proto-frame reply source my_mac my_mac my_ip sha sip arpop_reply lr ls lm lm li lh lp)
          (ar_op-frame reply source my_mac my_mac my_ip sha sip arpop_reply lr ls lm lm li lh lp
            (omega arith))
          (ar_sip-frame reply source my_mac my_mac my_ip sha sip arpop_reply lr ls lm lm li lh lp)
          (ar_sha-frame reply source my_mac my_mac my_ip sha sip arpop_reply lr ls lm lm li lh lp),
    )
