-- ===== src/Tc6/Transfer/Round.antt =====
-- One round of `oa_tc6_try_spi_transfer` up to its SPI transfer: what stands in the buffer, and how
-- much of it is sent.
use base_t1s.Prelude.{
  ℕ, ◌+◌, ◌-◌, ◌*◌, ◌/◌, ◌%◌, ◌^◌, ◌||◌, [], ◌≤◌, ◌<◌, Bool, true, false, ok, ◌≡◌, refl, arith, ap,
  subst, ◌∙◌, length, max, inl, inr, Bool-cases,
}
use native.Mathlib.Decide.{dec_le}
use base_t1s.Tc6.State.{Tc6, spi_data_buf_size, max_tx_chunks, chunk_size}
use base_t1s.Tc6.Tx.{add_empty_chunks_to_spi_buf, prepare_spi_tx_buf_for_rx_chunks}
use base_t1s.Tc6.Tx.Stream.{Sent, IsSendable, outstanding}
use base_t1s.Tc6.Tx.Join.{Sent-append}
use base_t1s.Tc6.Tx.Loop.{Sent-zero, prepare_spi_tx_buf_for_tx_skbs-Sent}
use base_t1s.Tc6.Tx.Empty.{add_empty_chunks_to_spi_buf-Sent}
use base_t1s.Tc6.Transfer.{is_set, prepare_tx, serve_interrupt, prepare_round}

module _ {D : Type 0} where
  -- The interrupt flag has no part in what is sent.
  Sent-flag :
      (b : Bool) (n : ℕ) (t t' : Tc6 D)
      → Sent n (record t { int_flag = b }) t'
      → Sent n t (record t' { int_flag = t.int_flag })
  Sent-flag b n t t' s = record {
    frames = s.frames;
    part = s.part;
    before = s.before;
    same_length = s.same_length;
    offset = s.offset;
    sendable = record {
      ongoing = s.sendable.ongoing;
      waiting = s.sendable.waiting;
      size = s.sendable.size;
    };
    rx_chunks = s.rx_chunks;
    interrupt = refl;
  }

  rx_chunks_enough :
      (k : ℕ) (t : Tc6 D)
      → t.rx_chunks_available ≤ k
      → prepare_spi_tx_buf_for_rx_chunks (k * chunk_size) t ≡ (ok (k * chunk_size), t)
  unfolding prepare_spi_tx_buf_for_rx_chunks
  rx_chunks_enough k t h = ground arith

  rx_chunks_more :
      (k n : ℕ) (t t' : Tc6 D)
      → k + n ≡ t.rx_chunks_available
      → 1 ≤ n
      → t.rx_chunks_available ≤ max_tx_chunks
      → add_empty_chunks_to_spi_buf n t ≡ (ok tt, t')
      → prepare_spi_tx_buf_for_rx_chunks (k * chunk_size) t ≡ (ok ((k + n) * chunk_size), t')
  unfolding prepare_spi_tx_buf_for_rx_chunks
  rx_chunks_more k n t t' e h le added =
      let needed : (t.rx_chunks_available - k * chunk_size / chunk_size) % 2 ^ 16 ≡ n =
        omega arith in
      let sum : (n * chunk_size + k * chunk_size) % 2 ^ 16 ≡ (k + n) * chunk_size = omega arith in
      ground arith

  -- Empty chunks fill up to the number of chunks to be received.
  pub prepare_spi_tx_buf_for_rx_chunks-Sent :
      (k : ℕ) (t : Tc6 D)
      → IsSendable t
      → t.spi_data_tx_buf_offset ≡ 68 * k
      → length t.spi_data_tx_buf ≡ spi_data_buf_size
      → t.rx_chunks_available ≤ max_tx_chunks
      → (n : ℕ) × (t' : Tc6 D) × (prepare_spi_tx_buf_for_rx_chunks (k * chunk_size) t
          ≡ (ok ((k + n) * chunk_size), t'))
        × (k + n ≡ max k t.rx_chunks_available)
        × Sent n t t'
        × (outstanding t' ≡ outstanding t)
  prepare_spi_tx_buf_for_rx_chunks-Sent k t v o b c = elim (dec_le t.rx_chunks_available k) [
    | yes le ↦ (
      0,
      t,
      rx_chunks_enough k t le ∙ ap (λ l. (ok l, t)) (omega arith),
      omega arith,
      Sent-zero t v,
      refl,
    )
    | no more ↦
        let n = t.rx_chunks_available - k in
        let (t', e, s, q) = add_empty_chunks_to_spi_buf-Sent n t v (omega arith) in
        (n, t', rx_chunks_more k n t t' (omega arith) (omega arith) c e, omega arith, s, q)
  ]

  serve_interrupt-off : (l : ℕ) (t : Tc6 D) → t.int_flag ≡ false → serve_interrupt l t ≡ (ok l, t)
  unfolding serve_interrupt
  serve_interrupt-off l t e = ground arith

  serve_interrupt-busy :
      (l : ℕ) (t : Tc6 D)
      → t.int_flag ≡ true
      → 1 ≤ l
      → serve_interrupt l t ≡ (ok l, record t { int_flag = false })
  unfolding serve_interrupt
  serve_interrupt-busy l t e h = ground arith

  serve_interrupt-idle :
      (t t' : Tc6 D)
      → t.int_flag ≡ true
      → add_empty_chunks_to_spi_buf 1 (record t { int_flag = false }) ≡ (ok tt, t')
      → serve_interrupt 0 t ≡ (ok chunk_size, t')
  unfolding serve_interrupt
  serve_interrupt-idle t t' e added = ground arith

  serve_interrupt-Sent :
      (k : ℕ) (t : Tc6 D)
      → IsSendable t
      → t.spi_data_tx_buf_offset ≡ 68 * k
      → length t.spi_data_tx_buf ≡ spi_data_buf_size
      → (n : ℕ) × (t' : Tc6 D) × (serve_interrupt (k * chunk_size) t
          ≡ (ok ((k + n) * chunk_size), t'))
        × (k + n ≤ max k 1)
        × (t'.int_flag ≡ false)
        × (t.int_flag ≡ true → 1 ≤ k + n)
        × Sent n t (record t' { int_flag = t.int_flag })
        × (outstanding t' ≡ outstanding t)
  serve_interrupt-Sent k t v o b = elim (Bool-cases t.int_flag) [
    | inr e ↦ (
      0,
      t,
      serve_interrupt-off (k * chunk_size) t e ∙ ap (λ l. (ok l, t)) (omega arith),
      omega arith,
      e,
      λ f. cc,
      Sent-zero t v,
      refl,
    )
    | inl e ↦ elim (dec_le 1 k) [
      | yes le ↦ (
        0,
        record t { int_flag = false },
        serve_interrupt-busy (k * chunk_size) t e (omega arith)
            ∙ ap (λ l. (ok l, record t { int_flag = false })) (omega arith),
        omega arith,
        refl,
        λ f. omega arith,
        Sent-zero t v,
        refl,
      )
      | no idle ↦
          let v1 : IsSendable (record t { int_flag = false }) = record {
            ongoing = v.ongoing;
            waiting = v.waiting;
            size = v.size;
          } in
          let (t', added, s, q) =
            add_empty_chunks_to_spi_buf-Sent 1 (record t { int_flag = false }) v1 (omega arith) in
          let none_yet : k ≡ 0 = omega arith in
          (
            1,
            t',
            ap (λ j. serve_interrupt (j * chunk_size) t) none_yet
                ∙ serve_interrupt-idle t t' e added
                ∙ ap (λ l. (ok l, t')) (omega arith),
            omega arith,
            s.interrupt,
            λ f. omega arith,
            Sent-flag false 1 t t' s,
            q,
          )
    ]
  ]

  pub nothing_set :
      (t : Tc6 D) → is_set t.ongoing_tx_skb || is_set t.waiting_tx_skb ≡ false → outstanding t ≡ []
  nothing_set t e = ground arith

  prepare_tx-Sent :
      (t : Tc6 D)
      → IsSendable t
      → t.spi_data_tx_buf_offset ≡ 0
      → length t.spi_data_tx_buf ≡ spi_data_buf_size
      → t.tx_credits ≤ max_tx_chunks
      → (k : ℕ) × (t' : Tc6 D) × (prepare_tx t ≡ (ok (k * chunk_size), t'))
        × (k ≤ t.tx_credits)
        × Sent k t t'
        × (k < t.tx_credits → outstanding t' ≡ [])
  unfolding prepare_tx
  prepare_tx-Sent t v o b c =
      elim (Bool-cases (is_set t.ongoing_tx_skb || is_set t.waiting_tx_skb)) [
        | inl e ↦ rw e (prepare_spi_tx_buf_for_tx_skbs-Sent t v o b c)
        | inr e ↦ rw e (0, t, refl, omega arith, Sent-zero t v, λ h. nothing_set t e)
      ]

  prepare_round-steps :
      (t t1 t2 t3 : Tc6 D) (l1 l2 l3 : ℕ)
      → prepare_tx (record t { spi_data_tx_buf_offset = 0 }) ≡ (ok l1, t1)
      → prepare_spi_tx_buf_for_rx_chunks l1 t1 ≡ (ok l2, t2)
      → serve_interrupt l2 t2 ≡ (ok l3, t3)
      → prepare_round t ≡ (ok l3, t3)
  unfolding prepare_round
  prepare_round-steps t t1 t2 t3 l1 l2 l3 e1 e2 e3 = rw (e1, e2) e3

  -- With the buffer that `oa_tc6_init` allocates, at most 48 credits and 48 chunks to be received,
  -- and a frame queue that can be sent, a round asks for the transfer of `k` chunks, at most 48,
  -- with no access outside the buffer. They cover the chunks to be received, and are at least one
  -- after an interrupt, whose flag is cleared. A receiver gets from them exactly the frames that
  -- leave the queue, in order, and the part sent of the frame in progress. If there are fewer than
  -- the credits, the queue is empty.
  pub prepare_round-Sent :
      (t : Tc6 D)
      → IsSendable t
      → length t.spi_data_tx_buf ≡ spi_data_buf_size
      → t.tx_credits ≤ max_tx_chunks
      → t.rx_chunks_available ≤ max_tx_chunks
      → (k : ℕ) × (t' : Tc6 D) × (prepare_round t ≡ (ok (k * chunk_size), t'))
        × (k ≤ max_tx_chunks)
        × (t.rx_chunks_available ≤ k)
        × (t.int_flag ≡ true → 1 ≤ k)
        × (t'.int_flag ≡ false)
        × Sent k (record t { spi_data_tx_buf_offset = 0 }) (record t' { int_flag = t.int_flag })
        × (k < t.tx_credits → outstanding t' ≡ [])
  prepare_round-Sent t v b c r =
      let t0 : Tc6 D = record t { spi_data_tx_buf_offset = 0 } in
      let v0 : IsSendable t0 = record { ongoing = v.ongoing; waiting = v.waiting; size = v.size } in
      let (k1, t1, e1, le1, s1, done) = prepare_tx-Sent t0 v0 refl b c in
      let (k2, t2, e2, m2, s2, q2) =
        prepare_spi_tx_buf_for_rx_chunks-Sent k1 t1 s1.sendable (omega (arith, s1.offset))
          (s1.same_length ∙ b) (omega (arith, s1.rx_chunks)) in
      let s12 = Sent-append k1 k2 t0 t1 t2 s1 s2 in
      let (k3, t3, e3, m3, f3, i3, s3, q3) =
        serve_interrupt-Sent (k1 + k2) t2 s12.sendable (omega (arith, s12.offset))
          (s12.same_length ∙ b) in
      let same_flag : t2.int_flag ≡ t.int_flag = s12.interrupt in
      let same_chunks = s1.rx_chunks in
      let s = Sent-append (k1 + k2) k3 t0 t2 (record t3 { int_flag = t2.int_flag }) s12 s3 in
      (
        k1 + k2 + k3,
        t3,
        prepare_round-steps t t1 t2 t3 _ _ _ e1 e2 e3,
        omega arith,
        omega arith,
        λ e. i3 (same_flag ∙ e),
        f3,
        subst (λ f. Sent (k1 + k2 + k3) t0 (record t3 { int_flag = f })) same_flag s,
        λ h. q3 ∙ q2 ∙ done (omega arith),
      )
