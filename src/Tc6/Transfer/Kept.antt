-- ===== src/Tc6/Transfer/Kept.antt =====
-- What the steps of `oa_tc6_try_spi_transfer` before its SPI transfer leave alone.
use base_t1s.Prelude.{
  ℕ, zero, suc, ◌+◌, ◌-◌, ◌*◌, ◌||◌, Bool, true, false, M, Outcome, ok, err, ◌>>◌, continue, ◌≡◌,
  refl, arith, ◌∙◌, length, inl, inr, pure, List, put_at, some, Option, Option-cases, ap, leb, ◌==◌,
  if◌then◌else◌, ◌/◌, ◌>>=◌,
}
use base_t1s.Word.{u16}
use base_t1s.Tc6.State.{Tc6, Skb, RxFilter, chunk_size}
use base_t1s.Tc6.Tx.{
  add_tx_chunk, fetch_waiting, finish_tx_skb, store_data, advance_chunk, prepare_data_header,
  tx_loop, prepare_spi_tx_buf_for_tx_skbs, add_empty_chunks_to_spi_buf,
  prepare_spi_tx_buf_for_rx_chunks,
}
use base_t1s.Tc6.Tx.Loop.{tx_loop-zero, tx_loop-stop}
use base_t1s.Tc6.Transfer.{is_set, prepare_tx, serve_interrupt, prepare_round}

module _ {D X : Type 0} (view : Tc6 D → X) where
  -- What follows a step and keeps the view.
  pub continue-kept :
      {A B : Type 0} (o : Outcome A) (f : A → M (Tc6 D) B) (t : Tc6 D)
      → ((a : A) (s : Tc6 D) → view (f a s).1 ≡ view s)
      → view (continue o f t).1 ≡ view t
  continue-kept (ok a) f t h = h a t
  continue-kept (err e) f t h = refl
  continue-kept Outcome.fault f t h = refl

  if-kept :
      {A : Type 0} (b : Bool) (r s : Outcome A × Tc6 D) (t : Tc6 D)
      → view r.1 ≡ view t
      → view s.1 ≡ view t
      → view (if b then r else s).1 ≡ view t
  if-kept true r s t p q = p
  if-kept false r s t p q = q

  store_data-kept :
      ((t : Tc6 D) (b : List ℕ) (o : ℕ)
        → view (record t { spi_data_tx_buf = b; spi_data_tx_buf_offset = o }) ≡ view t)
      → (off : ℕ) (b : List ℕ) (t : Tc6 D) → view (store_data off b t).1 ≡ view t
  unfolding store_data
  store_data-kept buffer off b t =
      let stored : Tc6 D = record t { spi_data_tx_buf = put_at t.spi_data_tx_buf off b } in
      if-kept (leb (off + length b) (length t.spi_data_tx_buf)) (ok tt, stored) (Outcome.fault, t) t
        (buffer t (put_at t.spi_data_tx_buf off b) t.spi_data_tx_buf_offset) refl

-- The same for the steps that fill the transmit buffer, if the view has no part in it.
module _ {D X : Type 0} (view : Tc6 D → X)
    (buffer : (t : Tc6 D) (b : List ℕ) (o : ℕ)
      → view (record t { spi_data_tx_buf = b; spi_data_tx_buf_offset = o }) ≡ view t)
    (flag : (t : Tc6 D) (b : Bool) → view (record t { int_flag = b }) ≡ view t) where
  put_empty-kept :
      (t : Tc6 D)
      → view
          ((store_data t.spi_data_tx_buf_offset (prepare_data_header false false false 0 0)
              >> advance_chunk)
            t).1
        ≡ view t
  unfolding advance_chunk
  put_empty-kept t =
      let h = prepare_data_header false false false 0 0 in
      let stored = store_data t.spi_data_tx_buf_offset h t in
      continue-kept view stored.0 (λ _. advance_chunk) stored.1
        (λ u s. buffer s s.spi_data_tx_buf (u16 (s.spi_data_tx_buf_offset + chunk_size)))
      ∙ store_data-kept view buffer t.spi_data_tx_buf_offset h t

  add_empty_chunks-kept : (n : ℕ) (t : Tc6 D) → view (add_empty_chunks_to_spi_buf n t).1 ≡ view t
  unfolding add_empty_chunks_to_spi_buf
  add_empty_chunks-kept zero t = refl
  add_empty_chunks-kept (suc n) t =
      let put =
        (store_data t.spi_data_tx_buf_offset (prepare_data_header false false false 0 0)
            >> advance_chunk)
          t in
      continue-kept view put.0 (λ _. add_empty_chunks_to_spi_buf n) put.1
        (λ u s. add_empty_chunks-kept n s)
      ∙ put_empty-kept t

  rx_chunks-kept : (len : ℕ) (t : Tc6 D) → view (prepare_spi_tx_buf_for_rx_chunks len t).1 ≡ view t
  unfolding prepare_spi_tx_buf_for_rx_chunks
  rx_chunks-kept len t =
      let needed = u16 (t.rx_chunks_available - len / chunk_size) in
      let added = add_empty_chunks_to_spi_buf needed t in
      if-kept view (leb t.rx_chunks_available (len / chunk_size)) (ok len, t)
        ((add_empty_chunks_to_spi_buf needed >> pure (u16 (needed * chunk_size + len))) t) t refl
        (continue-kept view added.0 (λ _. pure (u16 (needed * chunk_size + len))) added.1
            (λ u s. refl)
          ∙ add_empty_chunks-kept needed t)

  serve_interrupt-kept : (len : ℕ) (t : Tc6 D) → view (serve_interrupt len t).1 ≡ view t
  unfolding serve_interrupt
  serve_interrupt-kept len t =
      let t1 : Tc6 D = record t { int_flag = false } in
      let added = add_empty_chunks_to_spi_buf 1 t1 in
      if-kept view t.int_flag
        (if len == 0 then (add_empty_chunks_to_spi_buf 1 >> pure chunk_size) t1 else (ok len, t1))
        (ok len, t) t
        (if-kept view (len == 0) ((add_empty_chunks_to_spi_buf 1 >> pure chunk_size) t1)
          (ok len, t1) t
          (continue-kept view added.0 (λ _. pure chunk_size) added.1 (λ u s. refl)
            ∙ add_empty_chunks-kept 1 t1
            ∙ flag t false)
          (flag t false))
        refl

  -- What follows the chunks of the queue.
  pub fill_round-kept :
      (len : ℕ) (t : Tc6 D)
      → view ((prepare_spi_tx_buf_for_rx_chunks len >>= serve_interrupt) t).1 ≡ view t
  fill_round-kept len t =
      let r = prepare_spi_tx_buf_for_rx_chunks len t in
      continue-kept view r.0 serve_interrupt r.1 serve_interrupt-kept ∙ rx_chunks-kept len t

-- The device, and what came from it last, have no part in the steps before the SPI transfer.
module _ {D : Type 0} where
  abbrev pub received : Tc6 D → D × List ℕ × ℕ × Option Skb × Bool × List Skb × ℕ × RxFilter × ℕ
  received t = (
    t.dev, t.spi_data_rx_buf, t.tx_credits, t.rx_skb, t.rx_buf_overflow, t.netdev.received,
    t.netdev.rx_packets, t.netdev.rx_filter, t.netdev.mtu,
  )

  add_tx_chunk-kept : (skb : Skb) (t : Tc6 D) → received (add_tx_chunk skb t).1 ≡ received t
  unfolding add_tx_chunk finish_tx_skb store_data advance_chunk
  add_tx_chunk-kept skb t = ground arith

  fetch_waiting-kept : (t : Tc6 D) → received (fetch_waiting t) ≡ received t
  unfolding fetch_waiting
  fetch_waiting-kept t = ground arith

  tx_loop-some :
      (n used : ℕ) (t : Tc6 D) (skb : Skb)
      → (fetch_waiting t).ongoing_tx_skb ≡ some skb
      → tx_loop (suc n) used t
        ≡ continue
            (add_tx_chunk skb (fetch_waiting t)).0
            (λ _. tx_loop n (used + 1))
            (add_tx_chunk skb (fetch_waiting t)).1
  unfolding tx_loop
  tx_loop-some n used t skb e = ground arith

  tx_loop-kept : (n used : ℕ) (t : Tc6 D) → received (tx_loop n used t).1 ≡ received t
  tx_loop-kept zero used t = ap (λ r. received r.1) (tx_loop-zero used t)
  tx_loop-kept (suc n) used t = elim (Option-cases (fetch_waiting t).ongoing_tx_skb) [
    | inl e ↦ ap (λ r. received r.1) (tx_loop-stop n used t e) ∙ fetch_waiting-kept t
    | inr (skb, e) ↦
        let added = add_tx_chunk skb (fetch_waiting t) in
        ap (λ r. received r.1) (tx_loop-some n used t skb e)
        ∙ continue-kept received added.0 (λ _. tx_loop n (used + 1)) added.1
            (λ u s. tx_loop-kept n (used + 1) s)
        ∙ add_tx_chunk-kept skb (fetch_waiting t)
        ∙ fetch_waiting-kept t
  ]

  prepare_tx-kept : (t : Tc6 D) → received (prepare_tx t).1 ≡ received t
  unfolding prepare_tx prepare_spi_tx_buf_for_tx_skbs
  prepare_tx-kept t =
      let looped = tx_loop t.tx_credits 0 t in
      if-kept received (is_set t.ongoing_tx_skb || is_set t.waiting_tx_skb)
        (prepare_spi_tx_buf_for_tx_skbs t) (ok 0, t) t
        (continue-kept received looped.0 (λ used s. (ok (u16 (used * chunk_size)), s)) looped.1
            (λ u s. refl)
          ∙ tx_loop-kept t.tx_credits 0 t)
        refl

  pub prepare_round-kept : (t : Tc6 D) → received (prepare_round t).1 ≡ received t
  unfolding prepare_round
  prepare_round-kept t =
      let t0 : Tc6 D = record t { spi_data_tx_buf_offset = 0 } in
      let filled : ℕ → M (Tc6 D) ℕ =
        λ len. prepare_spi_tx_buf_for_rx_chunks len >>= serve_interrupt in
      continue-kept received (prepare_tx t0).0 filled (prepare_tx t0).1
        (fill_round-kept received (λ s b o. refl) (λ s b. refl))
      ∙ prepare_tx-kept t0
