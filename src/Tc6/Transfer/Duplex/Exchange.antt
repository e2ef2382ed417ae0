-- ===== src/Tc6/Transfer/Duplex/Exchange.antt =====
-- The rounds of `oa_tc6_try_spi_transfer` until nothing is left in either direction.
use base_t1s.Prelude.{
  ℕ, zero, suc, ◌+◌, ◌-◌, ◌*◌, ◌≤◌, Bool, false, List, [], ◌∷◌, ◌++◌, Option, Outcome, ok, ◌≡◌,
  refl, arith, ap, sym, subst, ◌∙◌, ◌⊎◌, inl, inr, length, take, drop, length-drop,
  take-append-drop, Bool-cases, append-nil,
}
use native.Mathlib.Decide.{dec_le}
use base_t1s.Tc6.State.{Tc6, Platform, chunk_size}
use base_t1s.Tc6.Tx.Sink.{receive}
use base_t1s.Tc6.Tx.Stream.{IsSendable, Sent, outstanding}
use base_t1s.Tc6.Tx.Left.{chunks_left}
use base_t1s.Tc6.Tx.Loop.{Sent-zero}
use base_t1s.Tc6.Transfer.{Progress, finished, again, transfer_round, try_spi_transfer}
use base_t1s.Tc6.Transfer.Round.{prepare_round-Sent}
use base_t1s.Tc6.Transfer.Left.{prepare_round-left}
use base_t1s.Tc6.Transfer.Kept.{received, prepare_round-kept}
use base_t1s.Tc6.Transfer.Steps.{
  transfer_round-none, nothing_left, nothing_queued, idle_round, try-finished, try-again,
}
use base_t1s.Tc6.Rx.Source.{reassemble, InOrder}
use base_t1s.Tc6.Rx.Source.Cut.{reassemble-append}
use base_t1s.Tc6.Rx.Tracks.{Handed, Handed-none, Handed-append}
use base_t1s.Tc6.Transfer.Duplex.{DuplexDevice, allocator, CanExchange}
use base_t1s.Tc6.Transfer.Duplex.Reply.{InPart-moved}
use base_t1s.Tc6.Transfer.Duplex.Step.{WentOn, replied_round}

empty_of_length : {A : Type 0} (xs : List A) → length xs ≡ 0 → xs ≡ []
empty_of_length [] e = refl
empty_of_length (x ∷ xs) e = absurd (omega arith)

module _ {D : Type 0} {os : Platform D} (c : DuplexDevice os) (timed : Bool) (mtu : ℕ) where
  -- Nothing is left in either direction, and each side has got what the other had for it.
  pub record Exchanged (t : Tc6 D) (part : Option (List ℕ)) (t' : Tc6 D) : Type 0 where
    pub all_sent : outstanding t' ≡ []
    pub delivered : c.got t'.dev ≡ c.got t.dev ++ outstanding t
    pub all_come : c.to_send t'.dev ≡ []
    pub handed : Handed (allocator c timed mtu) timed mtu t (reassemble part (c.to_send t.dev)).0 t'
    pub exchange : CanExchange c timed mtu t' (reassemble part (c.to_send t.dev)).1

  -- The loop is left with everything exchanged.
  abbrev pub LeavesWith : Tc6 D → Option (List ℕ) → Outcome Progress × Tc6 D → Type 0
  LeavesWith t part r = (t' : Tc6 D) × (r ≡ (ok finished, t')) × Exchanged t part t'

  -- A state that differs from `t` in the buffer of the transmit path at most, with nothing to do.
  none_left :
      (t t1 : Tc6 D) (part : Option (List ℕ))
      → CanExchange c timed mtu t part
      → received t1 ≡ received t
      → Sent 0 (record t { spi_data_tx_buf_offset = 0 }) (record t1 { int_flag = t.int_flag })
      → outstanding t1 ≡ []
      → c.to_send t.dev ≡ []
      → Exchanged t part t1
  unfolding receive
  none_left t t1 part g same s empty none_to_come =
      let none_come : reassemble part (c.to_send t.dev) ≡ ([], part) =
        ap (reassemble part) none_to_come in
      let none_sent : outstanding t ≡ [] = sym s.frames ∙ empty in
      let same_to_send : c.to_send t1.dev ≡ [] = ap (λ x. c.to_send x.0) same ∙ none_to_come in
      record {
        all_sent = empty;
        delivered =
            ap (λ x. c.got x.0) same
            ∙ sym (append-nil (c.got t.dev))
            ∙ ap (λ fs. c.got t.dev ++ fs) (sym none_sent);
        all_come = same_to_send;
        handed =
            subst (λ x. Handed (allocator c timed mtu) timed mtu t x.0 t1) (sym none_come)
              (Handed-none (allocator c timed mtu) timed mtu t t1 (ap (λ x. x.5) same)
                (ap (λ x. x.6) same));
        exchange =
            subst (λ x. CanExchange c timed mtu t1 x.1) (sym none_come)
              (record {
                sendable = record {
                  ongoing = s.sendable.ongoing;
                  waiting = s.sendable.waiting;
                  size = s.sendable.size;
                };
                data_tx = s.same_length ∙ g.data_tx;
                some_credit = omega (arith, ap (λ x. x.2) same, g.some_credit);
                credits = omega (arith, ap (λ x. x.2) same, g.credits);
                rx_chunks = omega (arith, s.rx_chunks, g.rx_chunks);
                in_part = ap (λ x. c.part x.0) same ∙ g.in_part ∙ s.part;
                tracks = record {
                  buffer = ap (λ x. length x.1) same ∙ g.tracks.buffer;
                  filter = ap (λ x. x.7) same ∙ g.tracks.filter;
                  mtu_set = ap (λ x. x.8) same ∙ g.tracks.mtu_set;
                  ready = subst (λ x. c.IsReady x.0) (sym same) g.tracks.ready;
                  in_part =
                      InPart-moved timed (mtu + 18) t t1 part (ap (λ x. x.3) same)
                        (ap (λ x. x.4) same) g.tracks.in_part;
                };
                announced = λ z off. same_to_send;
                in_order = subst (InOrder (mtu + 18) part) (sym same_to_send) tt;
              });
      }

  -- What a round asks of the ones behind it.
  goes_on :
      (k : ℕ) (t t1 t' : Tc6 D) (part : Option (List ℕ))
      → WentOn c timed mtu k t part t1
      → Exchanged t1 (reassemble part (take k (c.to_send t.dev))).1 t'
      → Exchanged t part t'
  goes_on k t t1 t' part w x =
      let now = take k (c.to_send t.dev) in
      let later : c.to_send t1.dev ≡ drop k (c.to_send t.dev) = w.to_come in
      let all : (
        (reassemble part now).0 ++ (reassemble (reassemble part now).1 (c.to_send t1.dev)).0,
        (reassemble (reassemble part now).1 (c.to_send t1.dev)).1,
      )
          ≡ reassemble part (c.to_send t.dev) =
        ap
          (λ ds. (
            (reassemble part now).0 ++ (reassemble (reassemble part now).1 ds).0,
            (reassemble (reassemble part now).1 ds).1,
          ))
          later
        ∙ sym (reassemble-append part now (drop k (c.to_send t.dev)))
        ∙ ap (reassemble part) (take-append-drop k (c.to_send t.dev)) in
      record {
        all_sent = x.all_sent;
        delivered = x.delivered ∙ w.delivered;
        all_come = x.all_come;
        handed =
            subst (λ y. Handed (allocator c timed mtu) timed mtu t y.0 t') all
              (Handed-append (allocator c timed mtu) timed mtu t t1 t' (reassemble part now).0
                (reassemble (reassemble part now).1 (c.to_send t1.dev)).0 w.handed x.handed);
        exchange = subst (λ y. CanExchange c timed mtu t' y.1) all x.exchange;
      }

  -- A round leaves the loop with everything exchanged, or goes on.
  exchange_round :
      (t : Tc6 D) (part : Option (List ℕ))
      → CanExchange c timed mtu t part
      → LeavesWith t part (transfer_round os t)
        ⊎ (k : ℕ) × (t' : Tc6 D) × (transfer_round os t ≡ (ok again, t'))
          × (1 ≤ k)
          × WentOn c timed mtu k t part t'
  exchange_round t part g =
      let (k, t1, e, le, rx, int, off, s, done) =
        prepare_round-Sent t g.sendable g.data_tx g.credits g.rx_chunks in
      let kept : received t1 ≡ received t = ap (λ x. received x.1) (sym e) ∙ prepare_round-kept t in
      elim (dec_le 1 k) [
        | yes some_chunk ↦
            let left : chunks_left t1 ≡ chunks_left t - t.tx_credits =
              ap (λ x. chunks_left x.1) (sym e)
              ∙ prepare_round-left t g.sendable g.data_tx g.credits in
            let (t', eq, w) =
              replied_round c timed mtu k t t1 part g kept s off left e some_chunk le in
            inr (k, t', eq, some_chunk, w)
        | no no_chunk ↦
            let zero_chunks : k ≡ 0 = omega arith in
            let s0 : Sent 0 (record t { spi_data_tx_buf_offset = 0 })
                (record t1 { int_flag = t.int_flag }) =
              subst
                (λ n.
                  Sent n (record t { spi_data_tx_buf_offset = 0 })
                    (record t1 { int_flag = t.int_flag }))
                zero_chunks s in
            let quiet : t.int_flag ≡ false = elim (Bool-cases t.int_flag) [
              | inl on ↦ absurd (no_chunk (int on))
              | inr still ↦ still
            ] in
            inl (
              t1,
              transfer_round-none os t t1 (e ∙ ap (λ n. (ok (n * chunk_size), t1)) zero_chunks),
              none_left t t1 part g kept s0 (done (omega (arith, g.some_credit)))
                  (g.announced (omega arith) quiet),
            )
      ]

  idle :
      (n : ℕ) (t : Tc6 D) (part : Option (List ℕ))
      → CanExchange c timed mtu t part
      → chunks_left t ≡ 0
      → c.to_send t.dev ≡ []
      → t.rx_chunks_available ≡ 0
      → t.int_flag ≡ false
      → LeavesWith t part (try_spi_transfer os (suc n) t)
  idle n t part g l none_to_come r i =
      let (o, w) = nothing_left os t g.sendable l in
      let t0 : Tc6 D = record t { spi_data_tx_buf_offset = 0 } in
      let v0 : IsSendable t0 = record {
        ongoing = g.sendable.ongoing;
        waiting = g.sendable.waiting;
        size = g.sendable.size;
      } in
      (
        t0,
        try-finished os n t t0 (transfer_round-none os t t0 (idle_round os t o w r i)),
        none_left t t0 part g refl (Sent-zero t0 v0) (nothing_queued os t o w) none_to_come,
      )

  -- One round for each chunk left in either direction, one for what was announced, and one to
  -- leave the loop.
  exchange :
      (n : ℕ) (t : Tc6 D) (part : Option (List ℕ))
      → CanExchange c timed mtu t part
      → chunks_left t + length (c.to_send t.dev) ≤ n
      → LeavesWith t part (try_spi_transfer os (suc (suc n)) t)
  exchange zero t part g h = elim (exchange_round t part g) [
    | inl (t', eq, x) ↦ (t', try-finished os 1 t t' eq, x)
    | inr (k, t1, eq, some_chunk, w) ↦
        let none_to_come : c.to_send t1.dev ≡ [] =
          empty_of_length (c.to_send t1.dev)
            (omega (arith, ap length w.to_come, length-drop k (c.to_send t.dev))) in
        let (t', rest, x) =
          idle 0 t1 (reassemble part (take k (c.to_send t.dev))).1 w.exchange
            (omega (arith, w.left)) none_to_come (w.known none_to_come) w.flag in
        (t', try-again os 1 t t1 eq ∙ rest, goes_on k t t1 t' part w x)
  ]
  exchange (suc n) t part g h = elim (exchange_round t part g) [
    | inl (t', eq, x) ↦ (t', try-finished os (suc (suc n)) t t' eq, x)
    | inr (k, t1, eq, some_chunk, w) ↦
        let (t', rest, x) =
          exchange n t1 (reassemble part (take k (c.to_send t.dev))).1 w.exchange (
            omega (
              arith,
              w.left,
              g.some_credit,
              ap length w.to_come,
              length-drop k (c.to_send t.dev),
            )) in
        (t', try-again os (suc (suc n)) t t1 eq ∙ rest, goes_on k t t1 t' part w x)
  ]

  -- Whatever the device has begun to send.
  pub try_spi_transfer-Exchanged :
      (n : ℕ) (t : Tc6 D) (part : Option (List ℕ))
      → CanExchange c timed mtu t part
      → chunks_left t + length (c.to_send t.dev) + 2 ≤ n
      → LeavesWith t part (try_spi_transfer os n t)
  try_spi_transfer-Exchanged n t part g h =
      let count : suc (suc (n - 2)) ≡ n = omega arith in
      subst (λ m. LeavesWith t part (try_spi_transfer os m t)) count
        (exchange (n - 2) t part g (omega arith))
