-- ===== src/Tc6/Tx.antt =====
-- The transmit path of src/linux/drivers/net/ethernet/oa_tc6.c: data headers, the cutting of a
-- frame into chunks, the empty chunks that clock receive data in, and `oa_tc6_start_xmit`. The
-- spin lock round `waiting_tx_skb` makes each access to it one step.
pub mod Header
pub mod Chunk
pub mod Sink
pub mod Stream
pub mod Join
pub mod Loop
pub mod Empty
pub mod Left
use base_t1s.Prelude.{
  ℕ, zero, suc, ◌+◌, ◌-◌, ◌*◌, ◌/◌, ◌^◌, bit_or, min, Bool, true, false, List, some, none, M,
  Outcome, ok, ◌>>◌, continue, pure, length, take, drop, put_at, leb, ◌==◌, if◌then◌else◌,
  from_bool,
}
use base_t1s.Word.{u8, u16, u32, field_prep, to_be32}
use base_t1s.Tc6.Parity.{get_parity}
use base_t1s.Tc6.State.{Tc6, Skb, Platform, chunk_payload_size, chunk_size, data_header_size}

unfoldable pub data_header_fields : Bool → Bool → Bool → ℕ → ℕ → ℕ
data_header_fields data_valid start_valid end_valid end_byte_offset ts_capture_mode =
    bit_or
      (bit_or
        (bit_or
          (bit_or (bit_or (field_prep 31 31 1) (field_prep 21 21 (from_bool data_valid)))
            (field_prep 20 20 (from_bool start_valid)))
          (field_prep 14 14 (from_bool end_valid)))
        (field_prep 13 8 end_byte_offset))
      (field_prep 7 6 ts_capture_mode)

unfoldable pub data_header_word : Bool → Bool → Bool → ℕ → ℕ → ℕ
data_header_word data_valid start_valid end_valid end_byte_offset ts_capture_mode =
    let header =
      data_header_fields data_valid start_valid end_valid end_byte_offset ts_capture_mode in
    bit_or header (field_prep 0 0 (get_parity header))

unfoldable pub prepare_data_header : Bool → Bool → Bool → ℕ → ℕ → List ℕ
prepare_data_header data_valid start_valid end_valid end_byte_offset ts_capture_mode =
    to_be32 (data_header_word data_valid start_valid end_valid end_byte_offset ts_capture_mode)

-- What `oa_tc6_start_xmit` returns.
pub data NetdevTx : Type 0 where
  netdev_tx_ok netdev_tx_busy : NetdevTx

module _ {D : Type 0} where
  -- A write into the data transmit buffer.
  unfoldable pub store_data : ℕ → List ℕ → M (Tc6 D) (Unit {0})
  store_data off b t =
      if leb (off + length b) (length t.spi_data_tx_buf)
      then (ok tt, record t { spi_data_tx_buf = put_at t.spi_data_tx_buf off b })
      else (Outcome.fault, t)

  unfoldable pub advance_chunk : M (Tc6 D) (Unit {0})
  advance_chunk t =
      (ok tt, record t { spi_data_tx_buf_offset = u16 (t.spi_data_tx_buf_offset + chunk_size) })

  -- The bookkeeping at the end of a frame.
  unfoldable pub finish_tx_skb : Skb → Tc6 D → Tc6 D
  finish_tx_skb skb t = record t {
    tx_skb_offset = 0;
    netdev = record netdev {
      tx_bytes = netdev.tx_bytes + length skb.bytes;
      tx_packets = netdev.tx_packets + 1;
    };
    ongoing_tx_skb = none;
    ongoing_tx_ts_capture_mode = 0;
  }
    where
      open t use {netdev}

  -- The part of `oa_tc6_add_tx_skb_to_spi_buf` behind the pointer `ongoing_tx_skb`.
  unfoldable pub add_tx_chunk : Skb → M (Tc6 D) (Unit {0})
  add_tx_chunk skb t =
      let len = length skb.bytes in
      let remaining_len = u16 (u32 (len + 2 ^ 32 - t.tx_skb_offset)) in
      let length_to_copy = min remaining_len chunk_payload_size in
      let start_valid = t.tx_skb_offset == 0 in
      let tx_skb_offset = u16 (t.tx_skb_offset + length_to_copy) in
      let end_valid = len == tx_skb_offset in
      let end_byte_offset = if end_valid then u8 (length_to_copy + 2 ^ 8 - 1) else 0 in
      let ts_capture_mode = if end_valid then t.ongoing_tx_ts_capture_mode else 0 in
      let t1 = record t { tx_skb_offset = tx_skb_offset } in
      let t2 = if end_valid then finish_tx_skb skb t1 else t1 in
      if leb (t.tx_skb_offset + length_to_copy) len
      then (do
        store_data (t.spi_data_tx_buf_offset + data_header_size)
            (take length_to_copy (drop t.tx_skb_offset skb.bytes))
        store_data t.spi_data_tx_buf_offset
            (prepare_data_header true start_valid end_valid end_byte_offset ts_capture_mode)
        advance_chunk)
          t2
      else (Outcome.fault, t)

  unfoldable pub add_tx_skb_to_spi_buf : M (Tc6 D) (Unit {0})
  add_tx_skb_to_spi_buf t = elim t.ongoing_tx_skb [
    | none ↦ (Outcome.fault, t)
    | some skb ↦ add_tx_chunk skb t
  ]

  -- Takes the waiting frame over, if no frame is being sent.
  unfoldable pub fetch_waiting : Tc6 D → Tc6 D
  fetch_waiting t = elim t.ongoing_tx_skb [
    | none ↦ record t {
      ongoing_tx_skb = t.waiting_tx_skb;
      waiting_tx_skb = none;
      ongoing_tx_ts_capture_mode = t.waiting_tx_ts_capture_mode;
      waiting_tx_ts_capture_mode = 0;
    }
    | some skb ↦ t
  ]

  -- The loop over `used_tx_credits`, with the rounds left first.
  unfoldable pub tx_loop : ℕ → ℕ → M (Tc6 D) ℕ
  tx_loop zero used_tx_credits t = (ok used_tx_credits, t)
  tx_loop (suc n) used_tx_credits t = elim (fetch_waiting t).ongoing_tx_skb [
    | none ↦ (ok used_tx_credits, fetch_waiting t)
    | some skb ↦
        continue (add_tx_chunk skb (fetch_waiting t)).0 (λ _. tx_loop n (used_tx_credits + 1))
          (add_tx_chunk skb (fetch_waiting t)).1
  ]

  unfoldable pub prepare_spi_tx_buf_for_tx_skbs : M (Tc6 D) ℕ
  prepare_spi_tx_buf_for_tx_skbs t =
      continue (tx_loop t.tx_credits 0 t).0 (λ used s. (ok (u16 (used * chunk_size)), s))
        (tx_loop t.tx_credits 0 t).1

  unfoldable pub add_empty_chunks_to_spi_buf : ℕ → M (Tc6 D) (Unit {0})
  add_empty_chunks_to_spi_buf zero t = (ok tt, t)
  add_empty_chunks_to_spi_buf (suc n) t =
      let put =
        (store_data t.spi_data_tx_buf_offset (prepare_data_header false false false 0 0)
            >> advance_chunk)
          t in
      continue put.0 (λ _. add_empty_chunks_to_spi_buf n) put.1

  unfoldable pub prepare_spi_tx_buf_for_rx_chunks : ℕ → M (Tc6 D) ℕ
  prepare_spi_tx_buf_for_rx_chunks len t =
      let tx_chunks = len / chunk_size in
      let needed_empty_chunks = u16 (t.rx_chunks_available - tx_chunks) in
      if leb t.rx_chunks_available tx_chunks
      then (ok len, t)
      else (do
        add_empty_chunks_to_spi_buf needed_empty_chunks
        pure (u16 (needed_empty_chunks * chunk_size + len)))
          t

  unfoldable pub start_xmit : Platform D → Skb → ℕ → M (Tc6 D) NetdevTx
  start_xmit os skb ts_capture_mode t = elim t.waiting_tx_skb [
    | some w ↦ (ok netdev_tx_busy, record t { netdev = record netdev { queue_stopped = true } })
    | none ↦
        let (status, dev) = os.skb_linearize t.dev skb.bytes in
        (
          ok netdev_tx_ok,
          if status == 0
              then record t {
                dev = dev;
                waiting_tx_skb = some skb;
                waiting_tx_ts_capture_mode = ts_capture_mode;
              }
              else record t {
                dev = dev;
                netdev = record netdev { tx_dropped = netdev.tx_dropped + 1 };
              },
        )
  ]
    where
      open t use {netdev}
