-- ===== src/Tests/Inputs.antt =====
-- States of the framework and a platform to run it on.
use base_t1s.Prelude.{ℕ, false, [], some, none, arith, length, replicate, length-replicate}
use base_t1s.Tc6.State.{
  Tc6, NetDev, Skb, Platform, HasBuffers, filter_none, spi_data_buf_size, ctrl_spi_buf_size,
}
use base_t1s.Tc6.Tx.Stream.{IsSendable}

-- A platform whose SPI bus returns zeros, and which always has a buffer of 2000 bytes.
abbrev pub quiet : Platform ℕ
quiet = record {
  spi_sync = λ d b. (record { status = 0; bytes = replicate (length b) 0 }, d);
  alloc_skb = λ d n. (some 2000, d);
  skb_linearize = λ d b. (0, d);
  eth_type_trans = λ s. s;
}

abbrev pub idle_netdev : NetDev
idle_netdev = record {
  mtu = 1500;
  rx_filter = filter_none;
  queue_stopped = false;
  rx_packets = 0;
  rx_bytes = 0;
  rx_dropped = 0;
  tx_packets = 0;
  tx_bytes = 0;
  tx_dropped = 0;
  received = [];
}

abbrev pub frame : ℕ → Skb
frame n = record { bytes = replicate n 7; tailroom = 0; hwtstamp = none }

-- The state after initialisation, with two frames queued and five credits.
abbrev pub queued_on : {D : Type 0} → D → Tc6 D
queued_on d = record {
  dev = d;
  netdev = idle_netdev;
  spi_ctrl_tx_buf = replicate ctrl_spi_buf_size 0;
  spi_ctrl_rx_buf = replicate ctrl_spi_buf_size 0;
  spi_data_tx_buf = replicate spi_data_buf_size 0;
  spi_data_rx_buf = replicate spi_data_buf_size 0;
  ongoing_tx_skb = some (frame 100);
  waiting_tx_skb = some (frame 60);
  rx_skb = none;
  tx_skb_offset = 64;
  spi_data_tx_buf_offset = 0;
  tx_credits = 5;
  rx_chunks_available = 0;
  rx_buf_overflow = false;
  int_flag = false;
  ongoing_tx_ts_capture_mode = 0;
  waiting_tx_ts_capture_mode = 1;
}

abbrev pub queued : Tc6 ℕ
queued = queued_on 0

pub queued_on-HasBuffers : {D : Type 0} (d : D) → HasBuffers (queued_on d)
queued_on-HasBuffers d = record {
  ctrl_tx = length-replicate {A = ℕ} ctrl_spi_buf_size 0;
  ctrl_rx = length-replicate {A = ℕ} ctrl_spi_buf_size 0;
  data_tx = length-replicate {A = ℕ} spi_data_buf_size 0;
  data_rx = length-replicate {A = ℕ} spi_data_buf_size 0;
}

pub queued-HasBuffers : HasBuffers queued
queued-HasBuffers = queued_on-HasBuffers 0

pub queued-IsSendable : IsSendable queued
queued-IsSendable = record {
  ongoing = omega arith;
  waiting = omega arith;
  size = omega (arith, length-replicate {A = ℕ} spi_data_buf_size 0);
}
