-- ===== src/Tc6/Tx/Join.antt =====
-- Stretches of chunks behind one another: what a receiver makes of them, and that their effects on
-- the queue add up.
use base_t1s.Prelude.{
  ℕ, zero, suc, ◌+◌, ◌*◌, ◌≤◌, List, ◌++◌, ◌≡◌, refl, arith, ap, ap₂, sym, ◌∙◌, take, append_assoc,
}
use base_t1s.Tc6.State.{Tc6}
use base_t1s.Tc6.Tx.Sink.{take_chunk, receive, take_chunk-local}
use base_t1s.Tc6.Tx.Stream.{Sent, sent_part, outstanding}

-- Chunks are read from their own bytes only.
pub receive-local :
    (n off : ℕ) (acc buf buf' : List ℕ)
    → ((m : ℕ) → m ≤ off + 68 * n → take m buf' ≡ take m buf)
    → receive n off acc buf' ≡ receive n off acc buf
unfolding receive
receive-local zero off acc buf buf' same = refl
receive-local (suc n) off acc buf buf' same =
    let c = take_chunk acc off buf in
    ap (λ c. (c.0 ++ (receive n (off + 68) c.1 buf').0, (receive n (off + 68) c.1 buf').1))
      (take_chunk-local acc off buf buf' (same (off + 68) (omega arith)))
    ∙ ap (λ r. (c.0 ++ r.0, r.1))
        (receive-local n (off + 68) c.1 buf buf' (λ m le. same m (omega arith)))

receive-add :
    (j k off : ℕ) (acc buf : List ℕ)
    → let first = receive j off acc buf in
      let next = receive k (off + 68 * j) first.1 buf in
      receive (j + k) off acc buf ≡ (first.0 ++ next.0, next.1)
unfolding receive
receive-add zero k off acc buf =
    let count : 0 + k ≡ k = omega arith in
    let place : off ≡ off + 68 * 0 = omega arith in ap₂ (λ n o. receive n o acc buf) count place
receive-add (suc j) k off acc buf =
    let c = take_chunk acc off buf in
    let first = receive j (off + 68) c.1 buf in
    let next = receive k (off + 68 * suc j) first.1 buf in
    let count : suc j + k ≡ suc (j + k) = omega arith in
    let place : off + 68 + 68 * j ≡ off + 68 * suc j = omega arith in
    ap (λ n. receive n off acc buf) count
    ∙ ap (λ r. (c.0 ++ r.0, r.1)) (receive-add j k (off + 68) c.1 buf)
    ∙ ap (λ o. let r = receive k o first.1 buf in (c.0 ++ (first.0 ++ r.0), r.1)) place
    ∙ ap (λ fs. (fs, next.1)) (sym (append_assoc c.0 first.0 next.0))

-- `j` chunks, and `k` more behind them.
pub Sent-append :
    {D : Type 0} (j k : ℕ) (t t1 t' : Tc6 D) → Sent j t t1 → Sent k t1 t' → Sent (j + k) t t'
Sent-append j k t t1 t' a s = record {
  frames =
      ap (λ r. r.0 ++ outstanding t') whole
      ∙ append_assoc first.0 rest.0 (outstanding t')
      ∙ ap (λ fs. first.0 ++ fs) s.frames
      ∙ a.frames;
  part = ap (λ r. r.1) whole ∙ s.part;
  before = λ m le. s.before m (omega (arith, a.offset)) ∙ a.before m le;
  same_length = s.same_length ∙ a.same_length;
  offset = omega (arith, a.offset, s.offset);
  sendable = s.sendable;
  rx_chunks = s.rx_chunks ∙ a.rx_chunks;
  interrupt = s.interrupt ∙ a.interrupt;
}
  where
    off : ℕ
    off = t.spi_data_tx_buf_offset

    first : List (List ℕ) × List ℕ
    first = receive j off (sent_part t) t1.spi_data_tx_buf

    rest : List (List ℕ) × List ℕ
    rest = receive k t1.spi_data_tx_buf_offset (sent_part t1) t'.spi_data_tx_buf

    place : off + 68 * j ≡ t1.spi_data_tx_buf_offset
    place = sym a.offset

    read : receive j off (sent_part t) t'.spi_data_tx_buf ≡ first
    read =
        receive-local j off (sent_part t) t1.spi_data_tx_buf t'.spi_data_tx_buf
          (λ m le. s.before m (omega (arith, a.offset)))

    whole : receive (j + k) off (sent_part t) t'.spi_data_tx_buf ≡ (first.0 ++ rest.0, rest.1)
    whole =
        receive-add j k off (sent_part t) t'.spi_data_tx_buf
        ∙ ap (λ f. let r = receive k (off + 68 * j) f.1 t'.spi_data_tx_buf in (f.0 ++ r.0, r.1))
            read
        ∙ ap₂ (λ o acc. let r = receive k o acc t'.spi_data_tx_buf in (first.0 ++ r.0, r.1)) place
            a.part
