-- ===== src/Tc6/Transfer/Drain/Idle.antt =====
-- The end of a round of `oa_tc6_try_spi_transfer` over a device that gives credit: leaving the loop,
-- or going on.
use base_t1s.Prelude.{
  length, ◌-◌, ◌*◌, [], ◌++◌, Outcome, ok, ◌≡◌, arith, ap, sym, subst, ◌∙◌, ◌⊎◌, inl, inr, false,
  append-nil,
}
use native.Mathlib.Decide.{dec_le}
use base_t1s.Tc6.State.{Tc6, Platform, chunk_size}
use base_t1s.Tc6.Tx.Sink.{receive}
use base_t1s.Tc6.Tx.Stream.{Sent, outstanding}
use base_t1s.Tc6.Tx.Left.{chunks_left}
use base_t1s.Tc6.Transfer.Steps.{transfer_round-none}
use base_t1s.Tc6.Transfer.{Progress, finished, again, prepare_round, transfer_round}
use base_t1s.Tc6.Transfer.Round.{prepare_round-Sent}
use base_t1s.Tc6.Transfer.Left.{prepare_round-left}
use base_t1s.Tc6.Transfer.Kept.{received, prepare_round-kept}
use base_t1s.Tc6.Transfer.Drain.{ChunkDevice, CanDrain, delivered}
use base_t1s.Tc6.Transfer.Drain.Reply.{replied_round}

module _ {D : Type 0} {os : Platform D} (c : ChunkDevice os) where
  -- How the loop is left with everything delivered.
  abbrev pub Drained : Tc6 D → Outcome Progress × Tc6 D → Type 0
  Drained t r =
      (t' : Tc6 D) × (r ≡ (ok finished, t'))
      × (outstanding t' ≡ [])
      × (c.got t'.dev ≡ delivered c t)
      × CanDrain c t'

  pub none_delivered :
      (t t1 : Tc6 D)
      → CanDrain c t
      → prepare_round t ≡ (ok 0, t1)
      → outstanding t1 ≡ []
      → outstanding t ≡ []
      → CanDrain c t1
      → Drained t (transfer_round os t)
  none_delivered t t1 g e o' o g1 =
      let same : t1.dev ≡ t.dev =
        ap (λ x. x.1.dev) (sym e) ∙ ap (λ x. x.0) (prepare_round-kept t) in
      (
        t1,
        transfer_round-none os t t1 e,
        o',
        ap c.got same ∙ sym (append-nil (c.got t.dev)) ∙ ap (λ fs. c.got t.dev ++ fs) (sym o),
        g1,
      )

  sent_none :
      (t t1 : Tc6 D)
      → Sent 0 (record t { spi_data_tx_buf_offset = 0 }) (record t1 { int_flag = t.int_flag })
      → outstanding t1 ≡ outstanding t
  unfolding receive
  sent_none t t1 s = s.frames

  none-CanDrain :
      (t t1 : Tc6 D)
      → CanDrain c t
      → received t1 ≡ received t
      → Sent 0 (record t { spi_data_tx_buf_offset = 0 }) (record t1 { int_flag = t.int_flag })
      → CanDrain c t1
  unfolding receive
  none-CanDrain t t1 g kept s = record {
    sendable = record {
      ongoing = s.sendable.ongoing;
      waiting = s.sendable.waiting;
      size = s.sendable.size;
    };
    data_tx = s.same_length ∙ g.data_tx;
    data_rx = ap (λ x. length x.1) kept ∙ g.data_rx;
    some_credit = omega (arith, ap (λ x. x.2) kept, g.some_credit);
    credits = omega (arith, ap (λ x. x.2) kept, g.credits);
    rx_chunks = omega (arith, s.rx_chunks, g.rx_chunks);
    ready = subst (λ x. c.IsReady x.0) (sym kept) g.ready;
    in_part = ap (λ x. c.part x.0) kept ∙ g.in_part ∙ s.part;
  }

  -- A round leaves the loop with everything delivered, or goes on with fewer chunks left.
  pub drain_round :
      (t : Tc6 D)
      → CanDrain c t
      → Drained t (transfer_round os t)
        ⊎ (t' : Tc6 D) × (transfer_round os t ≡ (ok again, t'))
          × CanDrain c t'
          × (t'.rx_chunks_available ≡ 0)
          × (t'.int_flag ≡ false)
          × (chunks_left t' ≡ chunks_left t - t.tx_credits)
          × (delivered c t' ≡ delivered c t)
  drain_round t g =
      let (k, t1, e, le, rx, int, off, s, done) =
        prepare_round-Sent t g.sendable g.data_tx g.credits g.rx_chunks in
      let kept : received t1 ≡ received t = ap (λ x. received x.1) (sym e) ∙ prepare_round-kept t in
      elim (dec_le 1 k) [
        | yes some_chunk ↦
            let left : chunks_left t1 ≡ chunks_left t - t.tx_credits =
              ap (λ x. chunks_left x.1) (sym e)
              ∙ prepare_round-left t g.sendable g.data_tx g.credits in
            let (t', eq, g', r', i', l', d') = replied_round c k t t1 g kept s e some_chunk le in
            inr (t', eq, g', r', i' ∙ off, l' ∙ left, d')
        | no no_chunk ↦
            let zero_chunks : k ≡ 0 = omega arith in
            let e0 : prepare_round t ≡ (ok 0, t1) =
              e ∙ ap (λ n. (ok (n * chunk_size), t1)) zero_chunks in
            let s0 : Sent 0 (record t { spi_data_tx_buf_offset = 0 })
                (record t1 { int_flag = t.int_flag }) =
              subst
                (λ n.
                  Sent n (record t { spi_data_tx_buf_offset = 0 })
                    (record t1 { int_flag = t.int_flag }))
                zero_chunks s in
            let empty = done (omega (arith, g.some_credit)) in
            inl (
              none_delivered t t1 g e0 empty (sym (sent_none t t1 s0) ∙ empty)
                (none-CanDrain t t1 g kept s0))
      ]
