-- ===== src/Lan865x/Net/Send.antt =====
-- Which time stamp capture a packet to be sent gets.
use base_t1s.Prelude.{
  ℕ, ◌+◌, ◌*◌, ◌^◌, Bool, true, false, List, [], ◌∷◌, ◌++◌, Option, some, none, ok, ◌≡◌, refl, ap,
  ap₂, ◌∙◌, ◌⊎◌, arith, length, get_elem?, get_elem?-append, ◌==◌, ◌||◌, if◌then◌else◌,
}
use base_t1s.Tc6.State.{Tc6, Skb}
use base_t1s.Lan865x.Priv.{Priv}
use base_t1s.Lan865x.Net.{
  be16_at, be16_of, is_ptp_proto, gptp_behind, is_gptp_packet, put_aside, choose_capture,
  capture_mode, timestamp_id_none,
}

-- A word in network order.
abbrev pub be16 : ℕ → ℕ → ℕ
be16 hi lo = hi * 2 ^ 8 + lo

be16_at-behind :
    (addresses rest : List ℕ) (i hi lo : ℕ)
    → length addresses ≡ 12
    → get_elem? rest i ≡ some hi
    → get_elem? rest (i + 1) ≡ some lo
    → be16_at (addresses ++ rest) (12 + i) ≡ some (be16 hi lo)
unfolding be16_at
be16_at-behind addresses rest i hi lo n e e' =
    let at_i : 12 + i ≡ length addresses + i = omega arith in
    let at_next : 12 + i + 1 ≡ length addresses + (i + 1) = omega arith in
    ap₂ be16_of
      (ap (λ j. get_elem? (addresses ++ rest) j) at_i ∙ get_elem?-append addresses rest i ∙ e)
      (ap (λ j. get_elem? (addresses ++ rest) j) at_next
        ∙ get_elem?-append addresses rest (i + 1)
        ∙ e')

-- The VLAN tag between the addresses and the protocol, if there is one.
abbrev pub tag_bytes : Option (ℕ × ℕ × ℕ × ℕ) → List ℕ
tag_bytes none = []
tag_bytes (some (a, b, t, u)) = a ∷ b ∷ t ∷ u ∷ []

-- A tag begins with ETH_P_8021Q or ETH_P_8021AD, and without one the protocol is neither.
abbrev pub IsTagged : Option (ℕ × ℕ × ℕ × ℕ) → ℕ → Type 0
IsTagged none proto = (¬ (proto ≡ 0x8100)) × (¬ (proto ≡ 0x88A8))
IsTagged (some (a, b, t, u)) proto = (be16 a b ≡ 0x8100) ⊎ (be16 a b ≡ 0x88A8)

untagged :
    (bytes : List ℕ) (proto : ℕ)
    → ¬ (proto ≡ 0x8100)
    → ¬ (proto ≡ 0x88A8)
    → gptp_behind bytes (some proto) ≡ some (proto == 0x88F7)
unfolding gptp_behind
untagged bytes proto a b =
    let plain : (proto == 0x8100 || proto == 0x88A8) ≡ false = ground arith in
    ap (λ t. is_ptp_proto (if t then be16_at bytes 16 else some proto)) plain

tagged :
    (bytes : List ℕ) (proto : ℕ)
    → (proto ≡ 0x8100) ⊎ (proto ≡ 0x88A8)
    → gptp_behind bytes (some proto) ≡ is_ptp_proto (be16_at bytes 16)
unfolding gptp_behind
tagged bytes proto h =
    let tag : (proto == 0x8100 || proto == 0x88A8) ≡ true = ground arith in
    ap (λ t. is_ptp_proto (if t then be16_at bytes 16 else some proto)) tag

is_gptp_packet-frame :
    (addresses rest : List ℕ) (tag : Option (ℕ × ℕ × ℕ × ℕ)) (hi lo : ℕ)
    → length addresses ≡ 12
    → IsTagged tag (be16 hi lo)
    → is_gptp_packet (addresses ++ (tag_bytes tag ++ hi ∷ lo ∷ rest)) ≡ some (be16 hi lo == 0x88F7)
unfolding is_gptp_packet
is_gptp_packet-frame addresses rest none hi lo n (a, b) =
    let whole = addresses ++ hi ∷ lo ∷ rest in
    ap (λ o. gptp_behind whole o) (be16_at-behind addresses (hi ∷ lo ∷ rest) 0 hi lo n refl refl)
    ∙ untagged whole (be16 hi lo) a b
is_gptp_packet-frame addresses rest (some (a, b, t, u)) hi lo n tag =
    let behind = a ∷ b ∷ t ∷ u ∷ hi ∷ lo ∷ rest in
    ap (λ o. gptp_behind (addresses ++ behind) o)
      (be16_at-behind addresses behind 0 a b n refl refl)
    ∙ tagged (addresses ++ behind) (be16 a b) tag
    ∙ ap is_ptp_proto (be16_at-behind addresses behind 4 hi lo n refl refl)

-- The capture of a packet by whether it carries gPTP.
abbrev pub capture_of : Bool → ℕ
capture_of true = 1
capture_of false = 2

abbrev pub set_aside : {S : Type 0} → Bool → Skb → Priv S → Priv S
set_aside true skb p = record p { waiting_gptp = some skb }
set_aside false skb p = record p { waiting_normal = some skb }

module _ {D : Type 0} where
  put_aside-set_aside :
      (p : Priv (Tc6 D)) (skb : Skb) (gptp : Bool)
      → put_aside skb (some gptp) p ≡ (ok (capture_of gptp), set_aside gptp skb p)
  unfolding put_aside
  put_aside-set_aside p skb true = refl
  put_aside-set_aside p skb false = refl

  -- Where time stamps are on, a packet that asks for one and can be cloned gets capture 1 and waits
  -- in the gPTP place if its protocol is that of PTP, and otherwise gets capture 2 and waits in the
  -- other place; the protocol of a frame with a VLAN tag is the one behind the tag.
  pub capture_mode-frame :
      (p : Priv (Tc6 D)) (stale : ℕ) (skb : Skb) (addresses rest : List ℕ)
      (tag : Option (ℕ × ℕ × ℕ × ℕ)) (hi lo : ℕ)
      → p.tstamp_config.tx_type ≡ 1
      → length addresses ≡ 12
      → IsTagged tag (be16 hi lo)
      → skb.bytes ≡ addresses ++ (tag_bytes tag ++ hi ∷ lo ∷ rest)
      → let gptp = be16 hi lo == 0x88F7 in
        capture_mode true true stale skb p ≡ (ok (capture_of gptp), set_aside gptp skb p)
  unfolding capture_mode choose_capture
  capture_mode-frame p stale skb addresses rest tag hi lo on n t e =
      let enabled : p.tstamp_config.tx_type == 1 ≡ true = ground arith in
      let kind = ap is_gptp_packet e ∙ is_gptp_packet-frame addresses rest tag hi lo n t in
      ap
        (λ b. (if b then put_aside skb (is_gptp_packet skb.bytes) p else (ok timestamp_id_none, p)))
        enabled
      ∙ ap (λ o. put_aside skb o p) kind
      ∙ put_aside-set_aside p skb (be16 hi lo == 0x88F7)
