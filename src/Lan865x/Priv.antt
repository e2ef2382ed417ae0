-- ===== src/Lan865x/Priv.antt =====
-- The driver's private data (`struct lan865x_priv` of
-- src/linux/drivers/net/ethernet/microchip/lan865x/lan865x_arch.h), with what it uses of the
-- `net_device` that it belongs to.
use base_t1s.Prelude.{ℕ, Bool, List, Option, M}
use base_t1s.Tc6.State.{Skb}

-- `struct hwtstamp_config`.
pub record HwtstampConfig : Type 0 where
  pub flags : ℕ
  pub tx_type : ℕ
  pub rx_filter : ℕ

-- The calls of `skb_tstamp_tx` and `kfree_skb` by the PTP thread.
pub data TxEvent : Type 0 where
  skb_tstamp_tx : Option Skb → ℕ → TxEvent
  kfree_skb : Option Skb → TxEvent

-- `promisc` and `allmulti` are the flags IFF_PROMISC and IFF_ALLMULTI of the device, `mc` its
-- multicast addresses. Of `waiting_txts_skb`, the elements at LAN865X_TIMESTAMP_ID_GPTP and
-- LAN865X_TIMESTAMP_ID_NORMAL are used. `tx_events` holds what the PTP thread did with them, the
-- latest last.
pub record Priv (S : Type 0) : Type 0 where
  pub tc6 : S
  pub dev_addr : List ℕ
  pub promisc : Bool
  pub allmulti : Bool
  pub mc : List (List ℕ)
  pub queue_stopped : Bool
  pub phy_started : Bool
  pub tstamp_config : HwtstampConfig
  pub waiting_gptp : Option Skb
  pub waiting_normal : Option Skb
  pub total_tx_count : ℕ
  pub total_tx_drop_count : ℕ
  pub tx_events : List TxEvent

-- A call on the framework, from the driver.
abbrev pub on_tc6 : {S A : Type 0} → M S A → M (Priv S) A
on_tc6 m p = ((m p.tc6).0, record p { tc6 = (m p.tc6).1 })
