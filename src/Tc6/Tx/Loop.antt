-- ===== src/Tc6/Tx/Loop.antt =====
-- `oa_tc6_prepare_spi_tx_buf_for_tx_skbs`: the whole loop over the transmit credits.
use base_t1s.Prelude.{
  ℕ, zero, suc, ◌+◌, ◌*◌, ◌≤◌, ◌<◌, [], ◌++◌, some, none, ok, ◌≡◌, refl, arith, ap, sym, ◌∙◌,
  length, take, Option-cases, inl, inr, ap₂, subst,
}
use base_t1s.Tc6.State.{Tc6, Skb, spi_data_buf_size, max_tx_chunks, chunk_size}
use base_t1s.Tc6.Tx.{prepare_spi_tx_buf_for_tx_skbs, add_tx_chunk, fetch_waiting, tx_loop}
use base_t1s.Tc6.Tx.Sink.{receive}
use base_t1s.Tc6.Tx.Join.{Sent-append}
use base_t1s.Tc6.Tx.Stream.{
  Sent, IsSendable, sent_part, outstanding, add_tx_chunk-Sent, fetch_waiting-keeps,
}

module _ {D : Type 0} where
  pub Sent-zero : (t : Tc6 D) → IsSendable t → Sent 0 t t
  unfolding receive
  Sent-zero t v = record {
    frames = refl;
    part = refl;
    before = λ m le. refl;
    same_length = refl;
    offset = omega arith;
    sendable = v;
    rx_chunks = refl;
    interrupt = refl;
  }

  -- Chunks written from `t1` count from any state with the same queue and buffer.
  Sent-from :
      (k : ℕ) (t t1 t' : Tc6 D)
      → sent_part t1 ≡ sent_part t
      → outstanding t1 ≡ outstanding t
      → t1.spi_data_tx_buf ≡ t.spi_data_tx_buf
      → t1.spi_data_tx_buf_offset ≡ t.spi_data_tx_buf_offset
      → t1.rx_chunks_available ≡ t.rx_chunks_available
      → t1.int_flag ≡ t.int_flag
      → Sent k t1 t'
      → Sent k t t'
  Sent-from k t t1 t' p q b o r i s = record {
    frames =
        ap₂ (λ off acc. (receive k off acc t'.spi_data_tx_buf).0 ++ outstanding t') (sym o) (sym p)
        ∙ s.frames
        ∙ q;
    part = ap₂ (λ off acc. (receive k off acc t'.spi_data_tx_buf).1) (sym o) (sym p) ∙ s.part;
    before = λ m le. s.before m (omega arith) ∙ ap (take m) b;
    same_length = s.same_length ∙ ap length b;
    offset = s.offset ∙ ap (λ x. x + 68 * k) o;
    sendable = s.sendable;
    rx_chunks = s.rx_chunks ∙ r;
    interrupt = s.interrupt ∙ i;
  }

  -- One chunk, and `k` more.
  pub Sent-suc : (k : ℕ) (t t1 t' : Tc6 D) → Sent 1 t t1 → Sent k t1 t' → Sent (suc k) t t'
  Sent-suc k t t1 t' a s =
      let count : 1 + k ≡ suc k = omega arith in
      subst (λ n. Sent n t t') count (Sent-append 1 k t t1 t' a s)

  -- With nothing to fetch, nothing is outstanding.
  pub fetch-none :
      (t : Tc6 D) → (fetch_waiting t).ongoing_tx_skb ≡ none → outstanding (fetch_waiting t) ≡ []
  unfolding fetch_waiting
  fetch-none t e = ground arith

  pub tx_loop-zero : (used : ℕ) (t : Tc6 D) → tx_loop 0 used t ≡ (ok used, t)
  unfolding tx_loop
  tx_loop-zero used t = refl

  pub tx_loop-stop :
      (n used : ℕ) (t : Tc6 D)
      → (fetch_waiting t).ongoing_tx_skb ≡ none
      → tx_loop (suc n) used t ≡ (ok used, fetch_waiting t)
  unfolding tx_loop
  tx_loop-stop n used t e = ground arith

  pub tx_loop-next :
      (n used : ℕ) (t t1 : Tc6 D) (skb : Skb)
      → (fetch_waiting t).ongoing_tx_skb ≡ some skb
      → add_tx_chunk skb (fetch_waiting t) ≡ (ok tt, t1)
      → tx_loop (suc n) used t ≡ tx_loop n (used + 1) t1
  unfolding tx_loop
  tx_loop-next n used t t1 skb e a = ground arith

  -- The loop writes `k` chunks, at most one for each credit, and stops before the last credit only
  -- if every queued frame has been sent.
  pub tx_loop-Sent :
      (n used : ℕ) (t : Tc6 D)
      → IsSendable t
      → t.spi_data_tx_buf_offset + 68 * n ≤ length t.spi_data_tx_buf
      → (k : ℕ) × (t' : Tc6 D) × (tx_loop n used t ≡ (ok (used + k), t'))
        × (k ≤ n)
        × Sent k t t'
        × (k < n → outstanding t' ≡ [])
  tx_loop-Sent zero used t v room = (
    0,
    t,
    tx_loop-zero used t ∙ ap (λ u. (ok u, t)) (omega arith),
    omega arith,
    Sent-zero t v,
    λ h. elim h [ ],
  )
  tx_loop-Sent (suc n) used t v room = elim (Option-cases (fetch_waiting t).ongoing_tx_skb) [
    | inl e ↦ (
      0,
      fetch_waiting t,
      tx_loop-stop n used t e ∙ ap (λ u. (ok u, fetch_waiting t)) (omega arith),
      omega arith,
      Sent-from 0 t (fetch_waiting t) (fetch_waiting t) same.1 same.2 same.3 same.4 same.5 same.6
          (Sent-zero (fetch_waiting t) same.0),
      λ h. fetch-none t e,
    )
    | inr (skb, e) ↦
        let (t1, eq, one) =
          add_tx_chunk-Sent skb (fetch_waiting t) e same.0
            (omega (arith, same.4, ap length same.3)) in
        let (k, t', eq', le, s, done) =
          tx_loop-Sent n (used + 1) t1 one.sendable
            (omega (arith, one.offset, one.same_length, same.4, ap length same.3)) in
        (
          suc k,
          t',
          tx_loop-next n used t t1 skb e eq ∙ eq' ∙ ap (λ u. (ok u, t')) (omega arith),
          omega arith,
          Sent-from (suc k) t (fetch_waiting t) t' same.1 same.2 same.3 same.4 same.5 same.6
              (Sent-suc k (fetch_waiting t) t1 t' one s),
          λ h. done (omega arith),
        )
  ]
    where
      same :
          IsSendable (fetch_waiting t)
          × (sent_part (fetch_waiting t) ≡ sent_part t)
          × (outstanding (fetch_waiting t) ≡ outstanding t)
          × ((fetch_waiting t).spi_data_tx_buf ≡ t.spi_data_tx_buf)
          × ((fetch_waiting t).spi_data_tx_buf_offset ≡ t.spi_data_tx_buf_offset)
          × ((fetch_waiting t).rx_chunks_available ≡ t.rx_chunks_available)
          × ((fetch_waiting t).int_flag ≡ t.int_flag)
      same = fetch_waiting-keeps t v

  -- With the buffer that `oa_tc6_init` allocates, at most 48 credits and a frame queue that can be
  -- sent, the chunks written at the front of the buffer are as many as the returned length says,
  -- at most one for each credit, with no access outside the buffer. A receiver that has the part
  -- already sent gets from them exactly the frames that leave the queue, in order, and the part
  -- sent of the frame in progress. If credits are left, the queue is empty.
  pub prepare_spi_tx_buf_for_tx_skbs-Sent :
      (t : Tc6 D)
      → IsSendable t
      → t.spi_data_tx_buf_offset ≡ 0
      → length t.spi_data_tx_buf ≡ spi_data_buf_size
      → t.tx_credits ≤ max_tx_chunks
      → (k : ℕ) × (t' : Tc6 D) × (prepare_spi_tx_buf_for_tx_skbs t ≡ (ok (k * chunk_size), t'))
        × (k ≤ t.tx_credits)
        × Sent k t t'
        × (k < t.tx_credits → outstanding t' ≡ [])
  unfolding prepare_spi_tx_buf_for_tx_skbs
  prepare_spi_tx_buf_for_tx_skbs-Sent t v o b c =
      let (k, t', e, le, s, done) = tx_loop-Sent t.tx_credits 0 t v (omega arith) in
      (k, t', rw e (ap (λ u. (ok u, t')) (omega arith)), le, s, done)
