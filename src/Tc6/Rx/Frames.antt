-- ===== src/Tc6/Rx/Frames.antt =====
-- Reassembly of a received frame: what each of the `oa_tc6_prcs_*` steps leaves behind.
use base_t1s.Prelude.{
  ℕ, ◌+◌, ◌-◌, ◌^◌, ◌≤◌, Bool, true, false, List, [], ◌∷◌, ◌++◌, Option, some, none, ok, ◌≡◌, refl,
  arith, length, take, drop, get_or, get_elem?-eq-get_or, if◌then◌else◌,
}
use base_t1s.Word.{u8, u32, u64}
use base_t1s.Tc6.State.{Tc6, Skb, Platform, filter_all, filter_none}
use base_t1s.Tc6.Rx.{
  hwtstamp, load_le32, read_le32, read_byte, filter_rx_timestamp, filter_by, stamp_rx_skb,
  set_hwtstamp, update_rx_skb, allocate_rx_skb, submit_rx_skb, prcs_rx_frame_start,
  prcs_rx_frame_end,
}

-- The bytes of the receive buffer from `p` on.
abbrev pub slice : List ℕ → ℕ → ℕ → List ℕ
slice buf p n = take n (drop p buf)

-- The little-endian word at `p`.
abbrev pub word_at : List ℕ → ℕ → ℕ
word_at buf p =
    load_le32 (get_or buf p 0) (get_or buf (p + 1) 0) (get_or buf (p + 2) 0) (get_or buf (p + 3) 0)

-- The time stamp that a received frame gets, if stamps are switched on for all frames.
abbrev pub stamp_at : Bool → List ℕ → ℕ → Option ℕ
stamp_at true buf p = some (hwtstamp (word_at buf p) (word_at buf (p + 4)))
stamp_at false buf p = none

module _ {D : Type 0} where
  pub update_rx_skb-ok :
      (p l : ℕ) (t : Tc6 D) (skb : Skb)
      → t.rx_skb ≡ some skb
      → l ≤ skb.tailroom
      → p + l ≤ length t.spi_data_rx_buf
      → update_rx_skb p l t ≡ (
        ok tt,
        record t {
          rx_skb = some (record skb {
            bytes = skb.bytes ++ slice t.spi_data_rx_buf p l;
            tailroom = skb.tailroom - l;
          });
        },
      )
  unfolding update_rx_skb
  update_rx_skb-ok p l t skb e room fits = ground arith

  read_le32-ok :
      (p : ℕ) (t : Tc6 D)
      → p + 4 ≤ length t.spi_data_rx_buf
      → read_le32 p t ≡ (ok (word_at t.spi_data_rx_buf p), t)
  unfolding read_le32 read_byte
  read_le32-ok p t h = rw (
    get_elem?-eq-get_or t.spi_data_rx_buf p 0 (omega arith),
    get_elem?-eq-get_or t.spi_data_rx_buf (p + 1) 0 (omega arith),
    get_elem?-eq-get_or t.spi_data_rx_buf (p + 2) 0 (omega arith),
    get_elem?-eq-get_or t.spi_data_rx_buf (p + 3) 0 (omega arith),
  )

  module _ (os : Platform D) where
    -- An allocated buffer.
    abbrev fresh : Tc6 D → D → ℕ → Tc6 D
    fresh t dev n = record t {
      dev = dev;
      rx_skb = some (record { bytes = []; tailroom = n; hwtstamp = none });
    }

    allocate_rx_skb-ok :
        (t : Tc6 D) (n : ℕ) (dev : D)
        → os.alloc_skb t.dev (t.netdev.mtu + 14 + 4) ≡ (some n, dev)
        → allocate_rx_skb os t ≡ (ok tt, fresh t dev n)
    unfolding allocate_rx_skb
    allocate_rx_skb-ok t n dev e = ground arith

    filter-ok :
        (timed : Bool) (t : Tc6 D) (p : ℕ)
        → t.netdev.rx_filter ≡ (if timed then filter_all else filter_none)
        → filter_rx_timestamp p t ≡ (ok timed, t)
    unfolding filter_rx_timestamp filter_by
    filter-ok true t p e = ground arith
    filter-ok false t p e = ground arith

    stamp-ok :
        (timed : Bool) (t : Tc6 D) (dev : D) (n p : ℕ)
        → p + 8 ≤ length t.spi_data_rx_buf
        → stamp_rx_skb p timed (fresh t dev n) ≡ (
          ok tt,
          record t {
            dev = dev;
            rx_skb = some (record {
              bytes = [];
              tailroom = n;
              hwtstamp = stamp_at timed t.spi_data_rx_buf p;
            });
          },
        )
    unfolding stamp_rx_skb set_hwtstamp
    stamp-ok true t dev n p h = rw (
      read_le32-ok p (fresh t dev n) (omega arith),
      read_le32-ok (p + 4) (fresh t dev n) (omega arith),
    )
    stamp-ok false t dev n p h = refl

    -- The start of a frame: 8 bytes of time stamp, then frame bytes to the end of the chunk.
    pub prcs_rx_frame_start-ok :
        (timed : Bool) (t : Tc6 D) (dev : D) (n p size : ℕ)
        → os.alloc_skb t.dev (t.netdev.mtu + 14 + 4) ≡ (some n, dev)
        → t.netdev.rx_filter ≡ (if timed then filter_all else filter_none)
        → 8 ≤ size
        → size ≤ 64
        → size ≤ n + 8
        → p + size ≤ length t.spi_data_rx_buf
        → prcs_rx_frame_start os p size t ≡ (
          ok tt,
          record t {
            dev = dev;
            rx_skb = some (record {
              bytes = slice t.spi_data_rx_buf (p + 8) (size - 8);
              tailroom = n - (size - 8);
              hwtstamp = stamp_at timed t.spi_data_rx_buf p;
            });
          },
        )
    unfolding prcs_rx_frame_start
    prcs_rx_frame_start-ok timed t dev n p size a f lo hi room fits =
        let cut : u8 (u64 (size + 2 ^ 64 - 8)) ≡ size - 8 = omega arith in
        rw
          (
            allocate_rx_skb-ok t n dev a,
            filter-ok timed (fresh t dev n) (p + 8) f,
            stamp-ok timed t dev n p (omega arith),
            cut,
          )
          (update_rx_skb-ok (p + 8) (size - 8) _ _ refl (omega arith) (omega arith))

    -- The state after a frame was handed over.
    abbrev pub delivered : Tc6 D → D → Skb → Tc6 D
    delivered t dev skb = record t {
      dev = dev;
      rx_skb = none;
      netdev = record netdev {
        rx_packets = netdev.rx_packets + 1;
        rx_bytes = netdev.rx_bytes + length (os.eth_type_trans skb).bytes;
        received = netdev.received ++ os.eth_type_trans skb ∷ [];
      };
    }
      where
        open t use {netdev}

    -- The end of a frame: all but the last 4 bytes are appended, and the frame is handed over.
    pub prcs_rx_frame_end-ok :
        (t : Tc6 D) (skb : Skb) (p size : ℕ)
        → t.rx_skb ≡ some skb
        → 4 ≤ size
        → size ≤ 64
        → size ≤ skb.tailroom + 4
        → p + size ≤ length t.spi_data_rx_buf
        → prcs_rx_frame_end os p size t ≡ (
          ok tt,
          delivered t t.dev (record skb {
            bytes = skb.bytes ++ slice t.spi_data_rx_buf p (size - 4);
            tailroom = skb.tailroom - (size - 4);
          }),
        )
    unfolding prcs_rx_frame_end submit_rx_skb
    prcs_rx_frame_end-ok t skb p size e lo hi room fits =
        let cut : u8 (u32 (size + 2 ^ 32 - 4)) ≡ size - 4 = omega arith in
        rw (cut, update_rx_skb-ok p (size - 4) t skb e (omega arith) (omega arith))
