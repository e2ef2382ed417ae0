-- ===== src/Tc6/Rx.antt =====
-- The receive path of src/linux/drivers/net/ethernet/oa_tc6.c: footers, the extended status, time
-- stamps, and the reassembly of frames from chunks. A pointer into the receive buffer is an
-- offset. The host is little-endian, as the bcm2711 of the device tree is.
pub mod Frames
pub mod Footer
pub mod Stamp
pub mod Chunks
pub mod Pieces
pub mod Source
pub mod Tracks
pub mod Handover
pub mod Recovery
pub mod Delivery
use base_t1s.Prelude.{
  ℕ, zero, suc, ◌+◌, ◌-◌, ◌*◌, ◌/◌, ◌%◌, ◌^◌, bit_and, Bool, true, false, not, ◌&&◌, [], ◌∷◌, ◌++◌,
  some, none, M, Outcome, ok, err, ◌>>=◌, ◌>>◌, continue, pure, length, take, drop, get_elem?,
  from_some, ltb, leb, ◌==◌, if◌then◌else◌, eagain, enodev, enomem,
}
use base_t1s.Word.{u8, u16, u32, u64, field_get, bit_get, from_be32}
use base_t1s.Tc6.State.{
  Tc6, Platform, RxFilter, filter_none, filter_all, filter_ptp_v2_event, filter_ptp_v2_l2_event,
  filter_ptp_v2_sync, filter_ptp_v2_l2_sync, filter_ptp_v2_delay_req, filter_ptp_v2_l2_delay_req,
  chunk_payload_size, chunk_size,
}
use base_t1s.Tc6.Ctrl.{read_register, write_register}

-- `sizeof(struct timestamp_format)`.
abbrev pub timestamp_size : ℕ
timestamp_size = 8

abbrev pub ns_in_1s : ℕ
ns_in_1s = 1000000000

-- The last `switch` of `filter_rx_timestamp`, on a PTP frame of the given message type.
unfoldable pub filter_msg_type : RxFilter → ℕ → Bool
filter_msg_type filter_ptp_v2_event msg_type = true
filter_msg_type filter_ptp_v2_l2_event msg_type = true
filter_msg_type filter_ptp_v2_sync msg_type = msg_type == 0
filter_msg_type filter_ptp_v2_l2_sync msg_type = msg_type == 0
filter_msg_type filter_ptp_v2_delay_req msg_type = msg_type == 1
filter_msg_type filter_ptp_v2_l2_delay_req msg_type = msg_type == 1
filter_msg_type _ msg_type = false

-- `ntohl` on a little-endian host.
abbrev pub ntohl : ℕ → ℕ
ntohl w = w % 256 * 2 ^ 24 + w / 2 ^ 8 % 256 * 2 ^ 16 + w / 2 ^ 16 % 256 * 2 ^ 8 + w / 2 ^ 24 % 256

-- The word that a little-endian host loads from four bytes.
abbrev pub load_le32 : ℕ → ℕ → ℕ → ℕ → ℕ
load_le32 b0 b1 b2 b3 = b0 + b1 * 2 ^ 8 + b2 * 2 ^ 16 + b3 * 2 ^ 24

-- `nanoseconds` is a bit field of 30 bits, both where it is read and where it is stored.
unfoldable pub hwtstamp : ℕ → ℕ → ℕ
hwtstamp seconds_word nano_word =
    let seconds = ntohl seconds_word in
    let nanoseconds = ntohl (nano_word % 2 ^ 30) % 2 ^ 30 in u64 (seconds * ns_in_1s + nanoseconds)

module _ {D : Type 0} where
  unfoldable pub read_byte : ℕ → M (Tc6 D) ℕ
  read_byte p t = from_some (get_elem? t.spi_data_rx_buf p) t

  -- `ntohs` of the two bytes at `p`.
  unfoldable pub read_be16 : ℕ → M (Tc6 D) ℕ
  read_be16 p = do hi ← read_byte p; lo ← read_byte (p + 1); pure (hi * 2 ^ 8 + lo)

  unfoldable pub read_le32 : ℕ → M (Tc6 D) ℕ
  read_le32 p = do
    b0 ← read_byte p
    b1 ← read_byte (p + 1)
    b2 ← read_byte (p + 2)
    b3 ← read_byte (p + 3)
    pure (load_le32 b0 b1 b2 b3)

  -- The tests on the EtherType, and on the message type of the PTP header at `payload`.
  unfoldable pub filter_ptp : RxFilter → ℕ → ℕ → M (Tc6 D) Bool
  filter_ptp rx_filter eth_type payload t =
      if eth_type == 0x88F7
      then (read_byte payload >>= λ tsmt. pure (filter_msg_type rx_filter (bit_and tsmt 0xF))) t
      else (ok false, t)

  -- The EtherType is behind the VLAN tag, if there is one.
  unfoldable pub filter_tagged : RxFilter → ℕ → ℕ → M (Tc6 D) Bool
  filter_tagged rx_filter p eth_type t =
      if eth_type == 0x8100
      then (read_be16 (p + 16) >>= λ inner. filter_ptp rx_filter inner (p + 18)) t
      else filter_ptp rx_filter eth_type (p + 14) t

  unfoldable pub filter_frame : RxFilter → ℕ → M (Tc6 D) Bool
  filter_frame rx_filter p = read_be16 (p + 12) >>= filter_tagged rx_filter p

  unfoldable pub filter_by : RxFilter → ℕ → M (Tc6 D) Bool
  filter_by filter_none p = pure false
  filter_by filter_all p = pure true
  filter_by f p = filter_frame f p

  unfoldable pub filter_rx_timestamp : ℕ → M (Tc6 D) Bool
  filter_rx_timestamp p t = filter_by t.netdev.rx_filter p t

  unfoldable pub cleanup_ongoing_rx_skb : Tc6 D → Tc6 D
  cleanup_ongoing_rx_skb t = elim t.rx_skb [
    | none ↦ t
    | some skb ↦ record t {
      netdev = record netdev { rx_dropped = netdev.rx_dropped + 1 };
      rx_skb = none;
    }
  ]
    where
      open t use {netdev}

  unfoldable pub cleanup_ongoing_tx_skb : Tc6 D → Tc6 D
  cleanup_ongoing_tx_skb t = elim t.ongoing_tx_skb [
    | none ↦ t
    | some skb ↦ record t {
      netdev = record netdev { tx_dropped = netdev.tx_dropped + 1 };
      ongoing_tx_skb = none;
    }
  ]
    where
      open t use {netdev}

  -- The tests on the value of STATUS0.
  unfoldable pub status0_outcome : ℕ → M (Tc6 D) (Unit {0})
  status0_outcome value t =
      if bit_get 3 value == 1
      then (err eagain, cleanup_ongoing_rx_skb (record t { rx_buf_overflow = true }))
      else if bit_get 0 value == 1
      then (err enodev, t)
      else if bit_get 4 value == 1
      then (err enodev, t)
      else if bit_get 5 value == 1
      then (err enodev, t)
      else (ok tt, t)

  -- `memcpy(skb_put(rx_skb, length), payload, length)`; `skb_put` past the tail room is a panic.
  unfoldable pub update_rx_skb : ℕ → ℕ → M (Tc6 D) (Unit {0})
  update_rx_skb p length8 t = elim t.rx_skb [
    | none ↦ (Outcome.fault, t)
    | some skb ↦
        if leb length8 skb.tailroom && leb (p + length8) (length t.spi_data_rx_buf)
        then (
          ok tt,
          record t {
            rx_skb = some (record skb {
              bytes = skb.bytes ++ take length8 (drop p t.spi_data_rx_buf);
              tailroom = skb.tailroom - length8;
            });
          },
        )
        else (Outcome.fault, t)
  ]

  unfoldable pub set_hwtstamp : ℕ → M (Tc6 D) (Unit {0})
  set_hwtstamp ns t = elim t.rx_skb [
    | none ↦ (Outcome.fault, t)
    | some skb ↦ (ok tt, record t { rx_skb = some (record skb { hwtstamp = some ns }) })
  ]

  -- The block under `filter_rx_timestamp`, on the two words in front of the frame.
  unfoldable pub stamp_rx_skb : ℕ → Bool → M (Tc6 D) (Unit {0})
  stamp_rx_skb p false = pure tt
  stamp_rx_skb p true = do
    seconds_word ← read_le32 p
    nano_word ← read_le32 (p + 4)
    set_hwtstamp (hwtstamp seconds_word nano_word)

  unfoldable pub prcs_ongoing_rx_frame : ℕ → M (Tc6 D) (Unit {0})
  prcs_ongoing_rx_frame p = update_rx_skb p chunk_payload_size

  unfoldable pub get_rx_chunk_footer : ℕ → M (Tc6 D) ℕ
  get_rx_chunk_footer p t =
      if leb (p + 4) (length t.spi_data_rx_buf)
      then (ok (from_be32 (take 4 (drop p t.spi_data_rx_buf))), t)
      else (Outcome.fault, t)

  module _ (os : Platform D) where
    unfoldable pub process_extended_status : M (Tc6 D) (Unit {0})
    process_extended_status = do
      value ← read_register os 0x0008
      write_register os 0x0008 value
      status0_outcome value

    -- The tests on the footer behind the extended status.
    unfoldable pub footer_errors : ℕ → M (Tc6 D) (Unit {0})
    footer_errors footer t =
        if bit_get 30 footer == 1
        then (err enodev, t)
        else if bit_get 29 footer == 0
        then (err enodev, t)
        else (ok tt, t)

    unfoldable pub process_rx_chunk_footer : ℕ → M (Tc6 D) (Unit {0})
    process_rx_chunk_footer footer t =
        let t1 = record t {
          tx_credits = field_get 5 1 footer;
          rx_chunks_available = field_get 28 24 footer;
        } in
        (if bit_get 31 footer == 1
            then process_extended_status >> footer_errors footer
            else footer_errors footer)
          t1

    unfoldable pub submit_rx_skb : M (Tc6 D) (Unit {0})
    submit_rx_skb t = elim t.rx_skb [
      | none ↦ (Outcome.fault, t)
      | some skb ↦
          let skb' = os.eth_type_trans skb in
          (
            ok tt,
            record t {
              netdev = record netdev {
                rx_packets = netdev.rx_packets + 1;
                rx_bytes = netdev.rx_bytes + length skb'.bytes;
                received = netdev.received ++ skb' ∷ [];
              };
              rx_skb = none;
            },
          )
    ]
      where
        open t use {netdev}

    unfoldable pub allocate_rx_skb : M (Tc6 D) (Unit {0})
    allocate_rx_skb t =
        let (room, dev) = os.alloc_skb t.dev (netdev.mtu + 14 + 4) in
        elim room [
          | none ↦ (
            err enomem,
            record t {
              dev = dev;
              rx_skb = none;
              netdev = record netdev { rx_dropped = netdev.rx_dropped + 1 };
            },
          )
          | some n ↦ (
            ok tt,
            record t {
              dev = dev;
              rx_skb = some (record { bytes = []; tailroom = n; hwtstamp = none });
            },
          )
        ]
      where
        open t use {netdev}

    unfoldable pub prcs_rx_frame_start : ℕ → ℕ → M (Tc6 D) (Unit {0})
    prcs_rx_frame_start p size = do
      allocate_rx_skb
      stamped ← filter_rx_timestamp (p + timestamp_size)
      stamp_rx_skb p stamped
      update_rx_skb (p + timestamp_size) (u8 (u64 (size + 2 ^ 64 - timestamp_size)))

    unfoldable pub prcs_complete_rx_frame : ℕ → ℕ → M (Tc6 D) (Unit {0})
    prcs_complete_rx_frame p size = do
      allocate_rx_skb
      stamped ← filter_rx_timestamp (p + timestamp_size)
      stamp_rx_skb p stamped
      update_rx_skb (p + timestamp_size) (u8 (u64 (size + 2 ^ 64 - timestamp_size)))
      submit_rx_skb

    unfoldable pub prcs_rx_frame_end : ℕ → ℕ → M (Tc6 D) (Unit {0})
    prcs_rx_frame_end p size = do update_rx_skb p (u8 (u32 (size + 2 ^ 32 - 4))); submit_rx_skb

    -- The end of one frame and the start of the next in one chunk.
    unfoldable pub prcs_rx_end_and_start : ℕ → ℕ → ℕ → M (Tc6 D) (Unit {0})
    prcs_rx_end_and_start p start_byte_offset end_byte_offset t =
        let start =
          prcs_rx_frame_start (p + start_byte_offset) (chunk_payload_size - start_byte_offset) in
        elim t.rx_skb [
          | none ↦ start t
          | some skb ↦ (prcs_rx_frame_end p (end_byte_offset + 1) >> start) t
        ]

    -- The chain of `if`s behind the test for an overflow.
    unfoldable pub prcs_rx_chunk_cases : ℕ → ℕ → ℕ → Bool → Bool → M (Tc6 D) (Unit {0})
    prcs_rx_chunk_cases p start_byte_offset end_byte_offset true true t =
        if ltb start_byte_offset end_byte_offset
        then prcs_complete_rx_frame (p + start_byte_offset)
            (end_byte_offset + 1 - start_byte_offset) t
        else if ltb end_byte_offset start_byte_offset
        then prcs_rx_end_and_start p start_byte_offset end_byte_offset t
        else prcs_ongoing_rx_frame p t
    prcs_rx_chunk_cases p start_byte_offset end_byte_offset true false t =
        prcs_rx_frame_start (p + start_byte_offset) (chunk_payload_size - start_byte_offset) t
    prcs_rx_chunk_cases p start_byte_offset end_byte_offset false true t =
        prcs_rx_frame_end p (end_byte_offset + 1) t
    prcs_rx_chunk_cases p start_byte_offset end_byte_offset false false t =
        prcs_ongoing_rx_frame p t

    unfoldable pub prcs_rx_chunk_payload : ℕ → ℕ → M (Tc6 D) (Unit {0})
    prcs_rx_chunk_payload p footer t =
        let start_byte_offset = u8 (field_get 19 16 footer * 4) in
        let end_byte_offset = field_get 13 8 footer in
        let start_valid = bit_get 20 footer == 1 in
        let end_valid = bit_get 14 footer == 1 in
        let t1 = record t { rx_buf_overflow = not start_valid && t.rx_buf_overflow } in
        if t1.rx_buf_overflow
        then (ok tt, t1)
        else prcs_rx_chunk_cases p start_byte_offset end_byte_offset start_valid end_valid t1

    -- The payload of chunk `i` is looked at if its footer says that it is valid.
    unfoldable pub payload_if_valid : ℕ → ℕ → M (Tc6 D) (Unit {0})
    payload_if_valid i footer t =
        if bit_get 21 footer == 1
        then prcs_rx_chunk_payload (i * chunk_size) footer t
        else (ok tt, t)

    -- One chunk of the receive buffer, `i` chunks in.
    unfoldable pub process_rx_chunk : ℕ → M (Tc6 D) (Unit {0})
    process_rx_chunk i = do
      footer ← get_rx_chunk_footer (u16 (i * chunk_size + chunk_payload_size))
      process_rx_chunk_footer footer
      payload_if_valid i footer

    -- The loop over `i`, with the rounds left first.
    unfoldable pub rx_loop : ℕ → ℕ → M (Tc6 D) (Unit {0})
    rx_loop zero i t = (ok tt, t)
    rx_loop (suc n) i t =
        continue (process_rx_chunk i t).0 (λ _. rx_loop n (i + 1)) (process_rx_chunk i t).1

    unfoldable pub process_spi_data_rx_buf : ℕ → M (Tc6 D) (Unit {0})
    process_spi_data_rx_buf len = rx_loop (len / chunk_size) 0
