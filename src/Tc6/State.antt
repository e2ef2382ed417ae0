-- ===== src/Tc6/State.antt =====
-- The state of the framework (`struct oa_tc6` of
-- src/linux/drivers/net/ethernet/oa_tc6.c) and what it takes from the kernel.
use base_t1s.Prelude.{ℕ, zero, suc, ◌+◌, ◌*◌, ◌≡◌, Bool, List, Option, Outcome, ok, err, length}

-- A socket buffer: its bytes, the room behind them, and the hardware time stamp, if one was set.
pub record Skb : Type 0 where
  pub bytes : List ℕ
  pub tailroom : ℕ
  pub hwtstamp : Option ℕ

-- `spi_sync`: the returned status, 0 for success and the errno otherwise, and the bytes clocked in.
pub record SpiReply : Type 0 where
  pub status : ℕ
  pub bytes : List ℕ

-- The kernel and the device behind it, with a state of their own: an SPI transfer of the given
-- bytes, the room of a newly allocated socket buffer, the status of `skb_linearize`, and the
-- socket buffer as `eth_type_trans` leaves it.
pub record Platform (D : Type 0) : Type 0 where
  pub spi_sync : D → List ℕ → SpiReply × D
  pub alloc_skb : D → ℕ → Option ℕ × D
  pub skb_linearize : D → List ℕ → ℕ × D
  pub eth_type_trans : Skb → Skb

-- The values of `enum hwtstamp_rx_filters` that the driver tells apart.
pub data RxFilter : Type 0 where
  filter_none filter_all : RxFilter
  filter_ptp_v2_event filter_ptp_v2_l2_event : RxFilter
  filter_ptp_v2_sync filter_ptp_v2_l2_sync : RxFilter
  filter_ptp_v2_delay_req filter_ptp_v2_l2_delay_req : RxFilter
  filter_other : ℕ → RxFilter

-- The network device: `stats`, the queue state, the PTP receive filter of its private data, and
-- the socket buffers handed to `netif_rx`, the latest last.
pub record NetDev : Type 0 where
  pub mtu : ℕ
  pub rx_filter : RxFilter
  pub queue_stopped : Bool
  pub rx_packets : ℕ
  pub rx_bytes : ℕ
  pub rx_dropped : ℕ
  pub tx_packets : ℕ
  pub tx_bytes : ℕ
  pub tx_dropped : ℕ
  pub received : List Skb

-- `struct oa_tc6`. The locks, the wait queue and the pointers to fixed objects have no field.
pub record Tc6 (D : Type 0) : Type 0 where
  pub dev : D
  pub netdev : NetDev
  pub spi_ctrl_tx_buf : List ℕ
  pub spi_ctrl_rx_buf : List ℕ
  pub spi_data_tx_buf : List ℕ
  pub spi_data_rx_buf : List ℕ
  pub ongoing_tx_skb : Option Skb
  pub waiting_tx_skb : Option Skb
  pub rx_skb : Option Skb
  pub tx_skb_offset : ℕ
  pub spi_data_tx_buf_offset : ℕ
  pub tx_credits : ℕ
  pub rx_chunks_available : ℕ
  pub rx_buf_overflow : Bool
  pub int_flag : Bool
  pub ongoing_tx_ts_capture_mode : ℕ
  pub waiting_tx_ts_capture_mode : ℕ

-- The macros with which the source sizes its buffers.
abbrev pub ctrl_header_size : ℕ
ctrl_header_size = 4

abbrev pub ctrl_reg_value_size : ℕ
ctrl_reg_value_size = 4

abbrev pub ctrl_ignored_size : ℕ
ctrl_ignored_size = 4

abbrev pub ctrl_max_registers : ℕ
ctrl_max_registers = 128

abbrev pub ctrl_spi_buf_size : ℕ
ctrl_spi_buf_size = ctrl_header_size + ctrl_max_registers * ctrl_reg_value_size + ctrl_ignored_size

abbrev pub chunk_payload_size : ℕ
chunk_payload_size = 64

abbrev pub data_header_size : ℕ
data_header_size = 4

abbrev pub chunk_size : ℕ
chunk_size = data_header_size + chunk_payload_size

abbrev pub max_tx_chunks : ℕ
max_tx_chunks = 48

abbrev pub spi_data_buf_size : ℕ
spi_data_buf_size = max_tx_chunks * chunk_size

-- The state after `oa_tc6_init` has its four buffers as they were allocated.
pub record HasBuffers {D : Type 0} (t : Tc6 D) : Type 0 where
  pub ctrl_tx : length t.spi_ctrl_tx_buf ≡ ctrl_spi_buf_size
  pub ctrl_rx : length t.spi_ctrl_rx_buf ≡ ctrl_spi_buf_size
  pub data_tx : length t.spi_data_tx_buf ≡ spi_data_buf_size
  pub data_rx : length t.spi_data_rx_buf ≡ spi_data_buf_size

-- The outcome of a call that returns 0 or a negative errno.
abbrev pub from_status : ℕ → Outcome (Unit {0})
from_status zero = ok tt
from_status (suc e) = err (suc e)
