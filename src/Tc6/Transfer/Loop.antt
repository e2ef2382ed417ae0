-- ===== src/Tc6/Transfer/Loop.antt =====
-- When the loop of `oa_tc6_try_spi_transfer` is left, and what it leaves.
use base_t1s.Prelude.{
  ℕ, zero, suc, ◌*◌, ◌≤◌, ◌<◌, Bool, true, false, [], ◌++◌, none, M, Outcome, ok, err, ◌>>◌, pure,
  continue, ◌==◌, if◌then◌else◌, ◌≡◌, refl, arith, ap, sym, subst, ◌∙◌, length, ◌⊎◌, inl, inr,
  eagain,
}
use base_t1s.Tc6.State.{Tc6, Platform, spi_data_buf_size, max_tx_chunks, chunk_size}
use base_t1s.Tc6.Ctrl.{data_header, spi_transfer}
use base_t1s.Tc6.Rx.{process_spi_data_rx_buf, cleanup_ongoing_rx_skb, cleanup_ongoing_tx_skb}
use base_t1s.Word.{u16}
use base_t1s.Tc6.Tx.Loop.{tx_loop-zero}
use base_t1s.Tc6.Tx.{tx_loop, prepare_spi_tx_buf_for_tx_skbs, prepare_spi_tx_buf_for_rx_chunks}
use base_t1s.Tc6.Tx.Sink.{receive}
use base_t1s.Tc6.Tx.Stream.{IsSendable, outstanding, sent_part}
use base_t1s.Tc6.Transfer.{
  Progress, finished, again, finish_round, process_reply, prepare_tx, serve_interrupt,
  prepare_round, transfer_round,
}
use base_t1s.Tc6.Transfer.Steps.{idle_round, nothing_queued}
use base_t1s.Tc6.Transfer.Round.{prepare_round-Sent}

-- Not the outcome that leaves the loop by its end.
abbrev GoesOn : Outcome Progress → Type 0
GoesOn (ok finished) = ⊥
GoesOn (ok again) = Unit {0}
GoesOn (err e) = Unit {0}
GoesOn Outcome.fault = Unit {0}

unfinished : (o : Outcome Progress) → GoesOn o → ¬ (o ≡ ok finished)
unfinished o g e = subst GoesOn e g

module _ {D : Type 0} where
  -- No interrupt to serve, no chunk to be received, and nothing that can be sent: no credits or an
  -- empty queue.
  abbrev pub HasNothing : Tc6 D → Type 0
  HasNothing t =
      (t.int_flag ≡ false)
      × (t.rx_chunks_available ≡ 0)
      × ((t.tx_credits ≡ 0) ⊎ (outstanding t ≡ []))

  -- An interrupt to serve, a chunk to be received, or a queued frame and a credit.
  abbrev pub HasWork : Tc6 D → Type 0
  HasWork t =
      (t.int_flag ≡ true)
      ⊎ (1 ≤ t.rx_chunks_available)
      ⊎ ((1 ≤ t.tx_credits) × (¬ (outstanding t ≡ [])))

  queue_cases :
      (t : Tc6 D)
      → ((t.ongoing_tx_skb ≡ none) × (t.waiting_tx_skb ≡ none)) ⊎ (¬ (outstanding t ≡ []))
  queue_cases t = ground arith

  nothing_or_work :
      (t : Tc6 D)
      → ((t.int_flag ≡ false)
          × (t.rx_chunks_available ≡ 0)
          × ((t.tx_credits ≡ 0) ⊎ ((t.ongoing_tx_skb ≡ none) × (t.waiting_tx_skb ≡ none))))
        ⊎ HasWork t
  nothing_or_work t = let queue = queue_cases t in ground arith

  no_credit_buffer : (t : Tc6 D) → t.tx_credits ≡ 0 → prepare_spi_tx_buf_for_tx_skbs t ≡ (ok 0, t)
  unfolding prepare_spi_tx_buf_for_tx_skbs
  no_credit_buffer t c =
      ap
        (λ n.
          continue (tx_loop n 0 t).0 (λ used s. (ok (u16 (used * chunk_size)), s))
            (tx_loop n 0 t).1)
        c
      ∙ rw (tx_loop-zero 0 t) refl

  no_credit_round :
      (t : Tc6 D)
      → t.tx_credits ≡ 0
      → t.rx_chunks_available ≡ 0
      → t.int_flag ≡ false
      → prepare_round t ≡ (ok 0, record t { spi_data_tx_buf_offset = 0 })
  unfolding prepare_round prepare_tx prepare_spi_tx_buf_for_rx_chunks serve_interrupt
  no_credit_round t c r i =
      ground (arith, no_credit_buffer (record t { spi_data_tx_buf_offset = 0 }) c)

  try_again-GoesOn :
      (b : Bool) (e : ℕ) (t s : Tc6 D)
      → let kept : Outcome Progress × Tc6 D = (ok again, t) in
        GoesOn (if b then kept else (err e, s)).0
  try_again-GoesOn true e t s = tt
  try_again-GoesOn false e t s = tt

  finish_round-GoesOn : (o : Outcome (Unit {0})) (t : Tc6 D) → GoesOn (finish_round o t).0
  unfolding finish_round
  finish_round-GoesOn (ok u) t = tt
  finish_round-GoesOn (err e) t =
      try_again-GoesOn (e == eagain) e t (cleanup_ongoing_rx_skb (cleanup_ongoing_tx_skb t))
  finish_round-GoesOn Outcome.fault t = tt

  continue-GoesOn :
      {A : Type 0} (o : Outcome A) (f : A → M (Tc6 D) Progress) (t : Tc6 D)
      → ((a : A) (s : Tc6 D) → GoesOn (f a s).0)
      → GoesOn (continue o f t).0
  continue-GoesOn (ok a) f t h = h a t
  continue-GoesOn (err e) f t h = tt
  continue-GoesOn Outcome.fault f t h = tt

  module _ (os : Platform D) where
    sent-GoesOn :
        (spi_len : ℕ) (t : Tc6 D)
        → GoesOn ((spi_transfer os data_header spi_len >> process_reply os spi_len) t).0
    unfolding process_reply
    sent-GoesOn spi_len t =
        let sent = spi_transfer os data_header spi_len t in
        continue-GoesOn sent.0 (λ _. process_reply os spi_len) sent.1
          λ _ s.
            finish_round-GoesOn (process_spi_data_rx_buf os spi_len s).0
              (process_spi_data_rx_buf os spi_len s).1

    some_chunks :
        (k : ℕ) (t t' : Tc6 D)
        → (receive k 0 (sent_part t) t'.spi_data_tx_buf).0 ++ outstanding t' ≡ outstanding t
        → t.rx_chunks_available ≤ k
        → (t.int_flag ≡ true → 1 ≤ k)
        → (k < t.tx_credits → outstanding t' ≡ [])
        → HasWork t
        → 1 ≤ k
    unfolding receive
    some_chunks k t t' f rx i done (inl e) = i e
    some_chunks k t t' f rx i done (inr (inl e)) = omega arith
    some_chunks (suc k) t t' f rx i done (inr (inr e)) = omega arith
    some_chunks zero t t' f rx i done (inr (inr (some_credit, left))) =
        absurd (left (sym f ∙ done (omega arith)))

    round_of :
        (k : ℕ) (t t' : Tc6 D)
        → prepare_round t ≡ (ok (k * chunk_size), t')
        → transfer_round os t
          ≡ (if k * chunk_size == 0
                then pure finished
                else spi_transfer os data_header (k * chunk_size)
                  >> process_reply os (k * chunk_size))
              t'
    unfolding transfer_round
    round_of k t t' e =
        let rest : ℕ → M (Tc6 D) Progress = λ spi_len.
          if spi_len == 0
          then pure finished
          else spi_transfer os data_header spi_len >> process_reply os spi_len in
        ap (λ x. continue x.0 rest x.1) e

    empty_round :
        (t t' : Tc6 D) → prepare_round t ≡ (ok 0, t') → transfer_round os t ≡ (ok finished, t')
    empty_round t t' e = round_of 0 t t' e

    sending_round :
        (k : ℕ) (t t' : Tc6 D)
        → prepare_round t ≡ (ok (k * chunk_size), t')
        → 1 ≤ k
        → GoesOn (transfer_round os t).0
    sending_round k t t' e h =
        let some_bytes : (k * chunk_size == 0) ≡ false = ground arith in
        let sends =
          spi_transfer os data_header (k * chunk_size) >> process_reply os (k * chunk_size) in
        subst (λ x. GoesOn x.0) (sym (round_of k t t' e))
          (subst (λ b. GoesOn ((if b then pure finished else sends) t').0) (sym some_bytes)
            (sent-GoesOn (k * chunk_size) t'))

    -- With the allocated buffer, at most 48 credits and 48 chunks to be received, and a sendable
    -- queue: a round ends the loop without an error, with the queue as it was, where there is no
    -- interrupt to serve, no chunk to be received, and no credit or an empty queue. Otherwise there
    -- is one of these things to do, and the round does not end the loop without an error: it goes on
    -- or fails.
    pub transfer_round-finishes :
        (t : Tc6 D)
        → IsSendable t
        → length t.spi_data_tx_buf ≡ spi_data_buf_size
        → t.tx_credits ≤ max_tx_chunks
        → t.rx_chunks_available ≤ max_tx_chunks
        → (HasNothing t
            × ((t' : Tc6 D) × (transfer_round os t ≡ (ok finished, t'))
                × (outstanding t' ≡ outstanding t)))
          ⊎ (HasWork t × (¬ ((transfer_round os t).0 ≡ ok finished)))
    transfer_round-finishes t v b c r = elim (nothing_or_work t) [
      | inl (i, rx, inl credit) ↦
          inl ((i, rx, inl credit), (_, empty_round t _ (no_credit_round t credit rx i), refl))
      | inl (i, rx, inr (o, w)) ↦ inl (
        (i, rx, inr (nothing_queued os t o w)),
        (_, empty_round t _ (idle_round os t o w rx i), refl),
      )
      | inr work ↦
          let (k, t', e, le, rx, i, off, s, done) = prepare_round-Sent t v b c r in
          inr (
            work,
            unfinished (transfer_round os t).0
                (sending_round k t t' e (some_chunks k t t' s.frames rx i done work)),
          )
    ]
