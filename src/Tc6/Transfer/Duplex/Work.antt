-- ===== src/Tc6/Transfer/Duplex/Work.antt =====
-- What the transfer thread finds to do after an event.
use base_t1s.Prelude.{
  ℕ, ◌+◌, ◌≤◌, ◌<◌, ◌^◌, ◌/◌, Bool, true, List, [], ◌∷◌, ◌++◌, some, none, length, ◌≡◌, refl, arith,
  ap, sym, subst, ◌∙◌,
}
use base_t1s.Tc6.State.{Tc6, Skb, Platform}
use base_t1s.Tc6.Tx.{start_xmit}
use base_t1s.Tc6.Tx.Stream.{outstanding}
use base_t1s.Tc6.Tx.Left.{chunks_left, chunks_left-none}
use base_t1s.Tc6.Transfer.{macphy_isr}
use base_t1s.Tc6.Transfer.Thread.{wake_condition}
use base_t1s.Tc6.Transfer.Wake.{none_queued, xmit-queued}
use base_t1s.Tc6.Rx.Source.{InOrder}
use base_t1s.Tc6.Transfer.Duplex.{DuplexDevice, CanExchange}
use base_t1s.Tc6.Transfer.Duplex.Frames.{WireFrame, wire_chunks, wire_chunks-InOrder, AllReceivable}
use base_t1s.Tc6.Transfer.Duplex.Events.{
  Event, hand_over, arrive, hand_over_and_arrive, handed_in, arrived_in, IsServable, Surroundings,
  frames_come, happens,
}

module _ {D : Type 0} {os : Platform D} (c : DuplexDevice os) (timed : Bool) (mtu : ℕ) where
  -- Nothing is queued, and nothing is to come.
  abbrev pub AtRest : Tc6 D → Type 0
  AtRest t = CanExchange c timed mtu t none × (outstanding t ≡ []) × (c.to_send t.dev ≡ [])

  -- The loop is to be entered with these frames queued and these to come.
  pub record HasWork (fs : List (List ℕ)) (ws : List WireFrame) (t t1 : Tc6 D) : Type 0 where
    pub exchange : CanExchange c timed mtu t1 none
    pub queued : outstanding t1 ≡ fs
    pub to_come : c.to_send t1.dev ≡ wire_chunks ws
    pub got : c.got t1.dev ≡ c.got t.dev
    pub received : t1.netdev.received ≡ t.netdev.received
    pub packets : t1.netdev.rx_packets ≡ t.netdev.rx_packets
    pub wakes : wake_condition t1 ≡ true

module _ {D : Type 0} {os : Platform D} (c : DuplexDevice os) (timed : Bool) (mtu : ℕ)
    (env : Surroundings c (mtu + 18)) where
  xmit-HasWork :
      (skb : Skb) (t : Tc6 D)
      → 0 < length skb.bytes
      → length skb.bytes < 2 ^ 16
      → AtRest c timed mtu t
      → (t1 : Tc6 D) × ((start_xmit os skb 0 t).1 ≡ t1)
        × HasWork c timed mtu (skb.bytes ∷ []) [] t t1
        × (chunks_left t1 ≡ (length skb.bytes + 63) / 64)
  unfolding wake_condition
  xmit-HasWork skb t some_byte small (g, e, none_to_come) =
      let (o, w) = none_queued os t e in
      let (d', l, same, ready) = env.linearize t.dev skb.bytes g.tracks.ready in
      let to_come : c.to_send d' ≡ [] = ap (λ x. x.left_to_send) same ∙ none_to_come in
      (
        record t { dev = d'; waiting_tx_skb = some skb; waiting_tx_ts_capture_mode = 0 },
        ap (λ r. r.1) (xmit-queued os skb t d' w l),
        record {
          exchange = record {
            sendable = record {
              ongoing = g.sendable.ongoing;
              waiting = (some_byte, small);
              size = g.sendable.size;
            };
            data_tx = g.data_tx;
            some_credit = g.some_credit;
            credits = g.credits;
            rx_chunks = g.rx_chunks;
            in_part = ap (λ x. x.part_got) same ∙ g.in_part;
            tracks = record {
              buffer = g.tracks.buffer;
              filter = g.tracks.filter;
              mtu_set = g.tracks.mtu_set;
              ready = ready;
              in_part = g.tracks.in_part;
            };
            announced = λ z off. to_come;
            in_order = subst (InOrder (mtu + 18) none) (sym to_come) tt;
          };
          queued = rw o refl;
          to_come = to_come;
          got = ap (λ x. x.frames_got) same;
          received = refl;
          packets = refl;
          wakes = ground (arith, g.some_credit);
        },
        rw o (omega arith),
      )

  -- Frames come to a device that has none to send, with `fs` in the queue.
  come-HasWork :
      (ws : List WireFrame) (t : Tc6 D)
      → AllReceivable (mtu + 18) ws
      → CanExchange c timed mtu t none
      → c.to_send t.dev ≡ []
      → HasWork c timed mtu (outstanding t) ws t (frames_come env ws t)
  unfolding wake_condition macphy_isr
  come-HasWork ws t fit g none_to_come =
      let (same, ready) = env.queued_up ws t.dev fit g.tracks.ready in
      let to_come : c.to_send (env.queue_up ws t.dev) ≡ wire_chunks ws =
        ap (λ x. x.left_to_send) same ∙ ap (λ cs. cs ++ wire_chunks ws) none_to_come in
      record {
        exchange = record {
          sendable = record {
            ongoing = g.sendable.ongoing;
            waiting = g.sendable.waiting;
            size = g.sendable.size;
          };
          data_tx = g.data_tx;
          some_credit = g.some_credit;
          credits = g.credits;
          rx_chunks = g.rx_chunks;
          in_part = ap (λ x. x.part_got) same ∙ g.in_part;
          tracks = record {
            buffer = g.tracks.buffer;
            filter = g.tracks.filter;
            mtu_set = g.tracks.mtu_set;
            ready = ready;
            in_part = g.tracks.in_part;
          };
          announced = λ z on. cc;
          in_order =
              subst (InOrder (mtu + 18) none) (sym to_come) (wire_chunks-InOrder (mtu + 18) ws fit);
        };
        queued = refl;
        to_come = to_come;
        got = ap (λ x. x.frames_got) same;
        received = refl;
        packets = refl;
        wakes = refl;
      }

  come-left : (ws : List WireFrame) (t : Tc6 D) → chunks_left (frames_come env ws t) ≡ chunks_left t
  unfolding macphy_isr
  come-left ws t = refl

  -- What the thread finds after an event, within its rounds.
  abbrev pub Found : ℕ → Event → Tc6 D → Type 0
  Found rounds e t =
      HasWork c timed mtu (handed_in e) (arrived_in e) t (happens env e t)
      × AllReceivable (mtu + 18) (arrived_in e)
      × (chunks_left (happens env e t) + length (wire_chunks (arrived_in e)) + 2 ≤ rounds)

  pub happens-Found :
      (rounds : ℕ) (e : Event) (t : Tc6 D)
      → IsServable (mtu + 18) rounds e
      → AtRest c timed mtu t
      → Found rounds e t
  happens-Found rounds (hand_over skb) t (some_byte, small, enough) rest =
      let (t1, x, w, left) = xmit-HasWork skb t some_byte small rest in
      subst
        (λ u.
          HasWork c timed mtu (skb.bytes ∷ []) [] t u
          × AllReceivable (mtu + 18) []
          × (chunks_left u + 0 + 2 ≤ rounds))
        (sym x) (w, tt, omega arith)
  happens-Found rounds (arrive ws) t (fit, enough) (g, e, none_to_come) = (
    subst (λ fs. HasWork c timed mtu fs ws t (frames_come env ws t)) e
        (come-HasWork ws t fit g none_to_come),
    fit,
    omega (arith, come-left ws t, chunks_left-none t e),
  )
  happens-Found rounds (hand_over_and_arrive skb ws) t ((some_byte, small), fit, enough) rest =
      let (t1, x, w, left) = xmit-HasWork skb t some_byte small rest in
      let come = come-HasWork ws t1 fit w.exchange w.to_come in
      let after : HasWork c timed mtu (skb.bytes ∷ []) ws t (frames_come env ws t1) = record {
        exchange = come.exchange;
        queued = come.queued ∙ w.queued;
        to_come = come.to_come;
        got = come.got ∙ w.got;
        received = come.received ∙ w.received;
        packets = come.packets ∙ w.packets;
        wakes = come.wakes;
      } in
      subst
        (λ u.
          HasWork c timed mtu (skb.bytes ∷ []) ws t (frames_come env ws u)
          × AllReceivable (mtu + 18) ws
          × (chunks_left (frames_come env ws u) + length (wire_chunks ws) + 2 ≤ rounds))
        (sym x) (after, fit, omega (arith, come-left ws t1, left))
