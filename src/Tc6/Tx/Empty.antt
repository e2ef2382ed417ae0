-- ===== src/Tc6/Tx/Empty.antt =====
-- Empty chunks: `oa_tc6_add_empty_chunks_to_spi_buf` and
-- `oa_tc6_prepare_spi_tx_buf_for_rx_chunks`.
use base_t1s.Prelude.{
  ℕ, zero, suc, ◌+◌, ◌*◌, ◌^◌, ◌≤◌, ◌<◌, false, [], List, ◌++◌, ok, ◌>>◌, ◌≡◌, refl, arith, ap, ◌∙◌,
  length, take, drop, put_at, length-put_at, take-drop-put_at, take-put_at,
}
use base_t1s.Word.{to_be32, from_be32}
use base_t1s.Word.Bytes.{from_be32-to_be32}
use base_t1s.Tc6.State.{Tc6}
use base_t1s.Tc6.Tx.{
  data_header_word, prepare_data_header, store_data, advance_chunk, add_empty_chunks_to_spi_buf,
}
use base_t1s.Tc6.Tx.Header.{data_header_word-flags}
use base_t1s.Tc6.Tx.Chunk.{length-prepare_data_header}
use base_t1s.Tc6.Tx.Sink.{accept, take_chunk}
use base_t1s.Tc6.Tx.Stream.{Sent, IsSendable, Sent-one, sent_part, outstanding}
use base_t1s.Tc6.Tx.Loop.{Sent-zero, Sent-suc}

-- A receiver gets nothing from a chunk with the header of an empty one.
take_chunk-empty :
    (acc buf : List ℕ) (off : ℕ)
    → off + 68 ≤ length buf
    → take_chunk acc off (put_at buf off (prepare_data_header false false false 0 0)) ≡ ([], acc)
unfolding take_chunk accept prepare_data_header
take_chunk-empty acc buf off room =
    let w = data_header_word false false false 0 0 in
    let flags = data_header_word-flags false false false 0 0 in
    let header = take-drop-put_at buf off (to_be32 w) 4 refl (omega arith) in
    let word : from_be32 (take 4 (drop off (put_at buf off (to_be32 w)))) ≡ w =
      ap from_be32 header ∙ from_be32-to_be32 w flags.0 in
    rw (word, flags.1) refl

module _ {D : Type 0} where
  -- The state after one empty chunk.
  abbrev empty_put : Tc6 D → Tc6 D
  empty_put t = record t {
    spi_data_tx_buf =
        put_at t.spi_data_tx_buf t.spi_data_tx_buf_offset
          (prepare_data_header false false false 0 0);
    spi_data_tx_buf_offset = t.spi_data_tx_buf_offset + 68;
  }

  put_empty :
      (t : Tc6 D)
      → t.spi_data_tx_buf_offset + 68 ≤ length t.spi_data_tx_buf
      → length t.spi_data_tx_buf < 2 ^ 16
      → (store_data t.spi_data_tx_buf_offset (prepare_data_header false false false 0 0)
            >> advance_chunk)
          t
        ≡ (ok tt, empty_put t)
  unfolding store_data advance_chunk
  put_empty t room size = ground (arith, length-prepare_data_header false false false 0 0)

  empty-Sent :
      (t : Tc6 D)
      → IsSendable t
      → t.spi_data_tx_buf_offset + 68 ≤ length t.spi_data_tx_buf
      → Sent 1 t (empty_put t)
  empty-Sent t v room =
      let got = take_chunk-empty (sent_part t) t.spi_data_tx_buf t.spi_data_tx_buf_offset room in
      let h = prepare_data_header false false false 0 0 in
      let len = length-put_at t.spi_data_tx_buf t.spi_data_tx_buf_offset h in
      Sent-one t (empty_put t) (ap (λ r. r.0 ++ outstanding t) got) (ap (λ r. r.1) got)
        (λ m le. take-put_at m t.spi_data_tx_buf t.spi_data_tx_buf_offset h le) len refl
        (record { ongoing = v.ongoing; waiting = v.waiting; size = omega (arith, len, v.size) })
        refl refl

  add_empty-suc :
      (n : ℕ) (t : Tc6 D)
      → t.spi_data_tx_buf_offset + 68 ≤ length t.spi_data_tx_buf
      → length t.spi_data_tx_buf < 2 ^ 16
      → add_empty_chunks_to_spi_buf (suc n) t ≡ add_empty_chunks_to_spi_buf n (empty_put t)
  unfolding add_empty_chunks_to_spi_buf
  add_empty-suc n t room size = rw (put_empty t room size) refl

  add_empty-zero : (t : Tc6 D) → add_empty_chunks_to_spi_buf 0 t ≡ (ok tt, t)
  unfolding add_empty_chunks_to_spi_buf
  add_empty-zero t = refl

  -- Empty chunks that fit the buffer carry nothing, and leave the queue as it is.
  pub add_empty_chunks_to_spi_buf-Sent :
      (n : ℕ) (t : Tc6 D)
      → IsSendable t
      → t.spi_data_tx_buf_offset + 68 * n ≤ length t.spi_data_tx_buf
      → (t' : Tc6 D) × (add_empty_chunks_to_spi_buf n t ≡ (ok tt, t'))
        × Sent n t t'
        × (outstanding t' ≡ outstanding t)
  add_empty_chunks_to_spi_buf-Sent zero t v room = (t, add_empty-zero t, Sent-zero t v, refl)
  add_empty_chunks_to_spi_buf-Sent (suc n) t v room =
      let one = empty-Sent t v (omega arith) in
      let (t', e, s, q) =
        add_empty_chunks_to_spi_buf-Sent n (empty_put t) one.sendable
          (omega (arith, one.same_length)) in
      (t', add_empty-suc n t (omega arith) v.size ∙ e, Sent-suc n t (empty_put t) t' one s, q)
