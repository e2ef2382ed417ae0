-- ===== src/Lan865x/Net.antt =====
-- The operations of the network device in
-- src/linux/drivers/net/ethernet/microchip/lan865x/lan865x.c: open and close, the receive mode, the
-- MAC address, the time stamp configuration, and the packets to be sent.
pub mod Modes
pub mod Address
pub mod Send
use base_t1s.Prelude.{
  ℕ, ◌+◌, ◌-◌, ◌*◌, ◌^◌, bit_or, bit_and, Bool, true, false, ◌&&◌, ◌||◌, List, [], ◌∷◌, Option,
  some, none, M, Outcome, ok, err, ◌>>=◌, ◌>>◌, pure, get_elem?, ◌==◌, if◌then◌else◌, eagain,
  enodev, efault, eopnotsupp,
}
use base_t1s.Tc6.State.{Tc6, Skb, Platform}
use base_t1s.Tc6.Bus.{RegisterBus, or_err, write_ignored, ignore_status}
use base_t1s.Tc6.Ctrl.{bytes_eq}
use base_t1s.Tc6.Tx.{NetdevTx, start_xmit}
use base_t1s.Lan865x.Priv.{Priv, HwtstampConfig, on_tc6}
use base_t1s.Lan865x.Mac.{set_hw_macaddr}
use base_t1s.Lan865x.Multicast.{
  set_specific_multicast_addr, set_all_multicast_addr, clear_all_multicast_addr,
}

-- `~m` of a mask `m` in 32 bits.
abbrev pub inverted : ℕ → ℕ
inverted m = 2 ^ 32 - 1 - m

-- Two bytes as a network-order word; `none` is a read outside the packet.
abbrev pub be16_of : Option ℕ → Option ℕ → Option ℕ
be16_of (some hi) (some lo) = some (hi * 2 ^ 8 + lo)
be16_of (some hi) none = none
be16_of none lo = none

unfoldable pub be16_at : List ℕ → ℕ → Option ℕ
be16_at bytes p = be16_of (get_elem? bytes p) (get_elem? bytes (p + 1))

-- ETH_P_1588.
abbrev pub is_ptp_proto : Option ℕ → Option Bool
is_ptp_proto none = none
is_ptp_proto (some proto) = some (proto == 0x88F7)

-- What the protocol of the Ethernet header says: behind ETH_P_8021Q or ETH_P_8021AD stands another.
unfoldable pub gptp_behind : List ℕ → Option ℕ → Option Bool
gptp_behind bytes none = none
gptp_behind bytes (some proto) =
    is_ptp_proto (if proto == 0x8100 || proto == 0x88A8 then be16_at bytes 16 else some proto)

-- `is_gptp_packet` of lan865x_ptp.c, on the data of the socket buffer.
unfoldable pub is_gptp_packet : List ℕ → Option Bool
is_gptp_packet bytes = gptp_behind bytes (be16_at bytes 12)

-- A command of the device's ioctl: SIOCGHWTSTAMP, SIOCSHWTSTAMP or another one.
pub data NetdevCmd : Type 0 where
  siocghwtstamp siocshwtstamp other_cmd : NetdevCmd

module _ {S : Type 0} (bus : RegisterBus S) where
  open bus use {read_register, write_register}

  unfoldable pub hw_disable : M S (Unit {0})
  hw_disable = (λ s. let r = read_register 0x00010000 s in (or_err enodev r.0, r.1)) >>= λ regval s.
      let r = write_register 0x00010000 (bit_and regval (inverted (2 ^ 3 + 2 ^ 2))) s in
      (or_err enodev r.0, r.1)

  unfoldable pub hw_enable : M S (Unit {0})
  hw_enable = (λ s. let r = read_register 0x00010000 s in (or_err enodev r.0, r.1)) >>= λ regval s.
      let r = write_register 0x00010000 (bit_or regval (2 ^ 3 + 2 ^ 2)) s in
      (or_err enodev r.0, r.1)

  unfoldable pub net_close : M (Priv S) (Unit {0})
  net_close p = on_tc6 hw_disable (record p { queue_stopped = true; phy_started = false })

  unfoldable pub net_open : M (Priv S) (Unit {0})
  net_open = on_tc6 hw_enable >> λ p. (ok tt, record p { phy_started = true })

  -- The handler returns without the last write where the writes of the hash registers fail.
  unfoldable pub after_hash : ℕ → Outcome (Unit {0}) → M S (Unit {0})
  after_hash regval (ok u) = write_ignored bus 0x00010001 regval
  after_hash regval (err e) = pure tt
  after_hash regval Outcome.fault = λ s. (Outcome.fault, s)

  unfoldable pub hash_then : M S (Unit {0}) → ℕ → M S (Unit {0})
  hash_then hash regval s = after_hash regval (hash s).0 (hash s).1

  -- The mode bits: promiscuous 4, multicast 6, unicast 7.
  unfoldable pub promiscuous_cfg : ℕ
  promiscuous_cfg = bit_and (bit_and (bit_or 0 (2 ^ 4)) (inverted (2 ^ 6))) (inverted (2 ^ 7))

  unfoldable pub multicast_cfg : ℕ
  multicast_cfg = bit_and (bit_or (bit_and 0 (inverted (2 ^ 4))) (2 ^ 6)) (inverted (2 ^ 7))

  unfoldable pub multicast_mode : Bool → Bool → List (List ℕ) → M S (Unit {0})
  multicast_mode true allmulti mc = write_ignored bus 0x00010001 promiscuous_cfg
  multicast_mode false true mc = hash_then (set_all_multicast_addr bus) multicast_cfg
  multicast_mode false false [] = hash_then (clear_all_multicast_addr bus) 0
  multicast_mode false false (a ∷ mc) =
      hash_then (set_specific_multicast_addr bus (a ∷ mc)) multicast_cfg

  unfoldable pub multicast_work_handler : M (Priv S) (Unit {0})
  multicast_work_handler p = on_tc6 (multicast_mode p.promisc p.allmulti p.mc) p

  -- `prepared` is the result of `eth_prepare_mac_addr_change`, 0 or an errno, and `sa_data` the new
  -- address.
  unfoldable pub set_mac_address : ℕ → List ℕ → M (Priv S) (Unit {0})
  set_mac_address prepared sa_data p =
      if prepared == 0
      then (if bytes_eq sa_data p.dev_addr
          then (ok tt, p)
          else (on_tc6 (set_hw_macaddr bus p.dev_addr sa_data) >> λ p'.
                (ok tt, record p' { dev_addr = sa_data }))
              p)
      else (err prepared, p)

module _ {S : Type 0} where
  -- `copied` says that the copy to or from user space was complete; `user` is what stands in the
  -- configuration after the copy.
  unfoldable pub get_ts_config : Bool → M (Priv S) (Unit {0})
  get_ts_config copied p = (if copied then ok tt else err efault, p)

  unfoldable pub set_ts_config : Bool → HwtstampConfig → M (Priv S) (Unit {0})
  set_ts_config copied user p =
      (if copied then ok tt else err efault, record p { tstamp_config = user })

  unfoldable pub netdev_ioctl : NetdevCmd → Bool → HwtstampConfig → M (Priv S) (Unit {0})
  netdev_ioctl siocghwtstamp copied user = get_ts_config copied
  netdev_ioctl siocshwtstamp copied user = set_ts_config copied user
  netdev_ioctl other_cmd copied user = λ p. (err eopnotsupp, p)

-- `enum lan865x_timestamp_id`.
abbrev pub timestamp_id_none : ℕ
timestamp_id_none = 0

abbrev pub timestamp_id_gptp : ℕ
timestamp_id_gptp = 1

abbrev pub timestamp_id_normal : ℕ
timestamp_id_normal = 2

module _ {D : Type 0} where
  -- The clone put aside by the kind of the packet.
  unfoldable pub put_aside : Skb → Option Bool → M (Priv (Tc6 D)) ℕ
  put_aside skb none p = (Outcome.fault, p)
  put_aside skb (some true) p = (ok timestamp_id_gptp, record p { waiting_gptp = some skb })
  put_aside skb (some false) p = (ok timestamp_id_normal, record p { waiting_normal = some skb })

  -- The capture mode of a packet that asks for a time stamp. HWTSTAMP_TX_ON is 1.
  unfoldable pub choose_capture : Skb → M (Priv (Tc6 D)) ℕ
  choose_capture skb p =
      if p.tstamp_config.tx_type == 1
      then put_aside skb (is_gptp_packet skb.bytes) p
      else (ok timestamp_id_none, p)

  -- `wants_stamp` is the flag SKBTX_HW_TSTAMP of the packet, `cloned` whether `skb_clone` succeeds,
  -- and `stale` what stands in the variable `ts_capture_mode` that is never set otherwise.
  unfoldable pub capture_mode : Bool → Bool → ℕ → Skb → M (Priv (Tc6 D)) ℕ
  capture_mode false cloned stale skb p = (ok stale, p)
  capture_mode true false stale skb p = (err eagain, p)
  capture_mode true true stale skb p = choose_capture skb p

  unfoldable pub send_packet : Platform D → Bool → Bool → ℕ → Skb → M (Priv (Tc6 D)) NetdevTx
  send_packet os wants_stamp cloned stale skb =
      capture_mode wants_stamp cloned stale skb >>= λ ts_capture_mode.
      on_tc6 (start_xmit os skb ts_capture_mode)
