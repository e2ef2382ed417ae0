-- ===== src/Tc6/Tx/Chunk.antt =====
-- `oa_tc6_add_tx_skb_to_spi_buf` step by step: what one chunk leaves in the transmit buffer and in
-- the state, in the middle of a frame and at its end.
use base_t1s.Prelude.{
  ℕ, ◌+◌, ◌-◌, ◌^◌, ◌≤◌, ◌<◌, Bool, true, false, List, ok, ◌>>◌, ◌≡◌, refl, arith, min, length,
  take, drop, put_at, length-put_at, length-take, length-drop, ◌==◌, leb,
}
use base_t1s.Word.{u16, u32}
use base_t1s.Tc6.State.{Tc6, Skb}
use base_t1s.Tc6.Tx.{prepare_data_header, store_data, advance_chunk, finish_tx_skb, add_tx_chunk}

pub length-prepare_data_header :
    (dv sv ev : Bool) (ebo ts : ℕ) → length (prepare_data_header dv sv ev ebo ts) ≡ 4
unfolding prepare_data_header
length-prepare_data_header dv sv ev ebo ts = refl

-- The buffer with a header and payload bytes written at `off`.
unfoldable pub chunk_at : List ℕ → ℕ → List ℕ → List ℕ → List ℕ
chunk_at buf off header payload = put_at (put_at buf (off + 4) payload) off header

-- The two writes of a chunk and the step to the next, from any state with room for a chunk.
put_chunk :
    {D : Type 0} (s : Tc6 D) (header payload : List ℕ)
    → length header ≡ 4
    → length payload ≤ 64
    → s.spi_data_tx_buf_offset + 68 ≤ length s.spi_data_tx_buf
    → length s.spi_data_tx_buf < 2 ^ 16
    → (store_data (s.spi_data_tx_buf_offset + 4) payload
          >> (store_data s.spi_data_tx_buf_offset header >> advance_chunk))
        s
      ≡ (
        ok tt,
        record s {
          spi_data_tx_buf = chunk_at s.spi_data_tx_buf s.spi_data_tx_buf_offset header payload;
          spi_data_tx_buf_offset = s.spi_data_tx_buf_offset + 68;
        },
      )
unfolding store_data advance_chunk chunk_at
put_chunk s header payload h p room size =
    ground (arith, length-put_at s.spi_data_tx_buf (s.spi_data_tx_buf_offset + 4) payload)

module _ {D : Type 0} (skb : Skb) (t : Tc6 D) (small : length skb.bytes < 2 ^ 16)
    (room : t.spi_data_tx_buf_offset + 68 ≤ length t.spi_data_tx_buf)
    (size : length t.spi_data_tx_buf < 2 ^ 16) where
  pub add_tx_chunk_middle :
      t.tx_skb_offset + 64 < length skb.bytes
      → add_tx_chunk skb t ≡ (
        ok tt,
        record t {
          tx_skb_offset = t.tx_skb_offset + 64;
          spi_data_tx_buf =
              chunk_at t.spi_data_tx_buf t.spi_data_tx_buf_offset
                (prepare_data_header true (t.tx_skb_offset == 0) false 0 0)
                (take 64 (drop t.tx_skb_offset skb.bytes));
          spi_data_tx_buf_offset = t.spi_data_tx_buf_offset + 68;
        },
      )
  unfolding add_tx_chunk
  add_tx_chunk_middle h =
      let e : min (u16 (u32 (length skb.bytes + 2 ^ 32 - t.tx_skb_offset))) 64 ≡ 64 = omega arith in
      let off : u16 (t.tx_skb_offset + 64) ≡ t.tx_skb_offset + 64 = omega arith in
      let more : (length skb.bytes == t.tx_skb_offset + 64) ≡ false = ground arith in
      let fits : leb (t.tx_skb_offset + 64) (length skb.bytes) ≡ true = ground arith in
      rw (e, off, more, fits)
        (put_chunk (record t { tx_skb_offset = t.tx_skb_offset + 64 })
          (prepare_data_header true (t.tx_skb_offset == 0) false 0 0)
          (take 64 (drop t.tx_skb_offset skb.bytes))
          (length-prepare_data_header true (t.tx_skb_offset == 0) false 0 0)
          (omega (arith, length-take 64 (drop t.tx_skb_offset skb.bytes))) room size)

  pub add_tx_chunk_last :
      t.tx_skb_offset < length skb.bytes
      → length skb.bytes ≤ t.tx_skb_offset + 64
      → add_tx_chunk skb t ≡ (
        ok tt,
        record (finish_tx_skb skb t) {
          spi_data_tx_buf =
              chunk_at t.spi_data_tx_buf t.spi_data_tx_buf_offset
                (prepare_data_header true
                  (t.tx_skb_offset == 0)
                  true
                  (length skb.bytes - t.tx_skb_offset - 1)
                  t.ongoing_tx_ts_capture_mode)
                (take (length skb.bytes - t.tx_skb_offset) (drop t.tx_skb_offset skb.bytes));
          spi_data_tx_buf_offset = t.spi_data_tx_buf_offset + 68;
        },
      )
  unfolding add_tx_chunk store_data advance_chunk finish_tx_skb chunk_at
  add_tx_chunk_last h1 h2 = ground (
    arith,
    length-take (length skb.bytes - t.tx_skb_offset) (drop t.tx_skb_offset skb.bytes),
    length-drop t.tx_skb_offset skb.bytes,
    length-put_at t.spi_data_tx_buf (t.spi_data_tx_buf_offset + 4)
        (take (length skb.bytes - t.tx_skb_offset) (drop t.tx_skb_offset skb.bytes)),
    length-prepare_data_header true (t.tx_skb_offset == 0) true
        (length skb.bytes - t.tx_skb_offset - 1) t.ongoing_tx_ts_capture_mode,
  )
