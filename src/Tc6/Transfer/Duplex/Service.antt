-- ===== src/Tc6/Transfer/Duplex/Service.antt =====
-- `oa_tc6_spi_thread_handler` with wake-ups from the network stack and from the device.
use base_t1s.Prelude.{
  ℕ, ◌+◌, Bool, List, [], ◌∷◌, ◌++◌, map, ok, ◌≡◌, refl, arith, ap, sym, ◌∙◌, length-append,
  append-nil, append_assoc, map-append,
}
use base_t1s.Tc6.State.{Tc6, Platform}
use base_t1s.Tc6.Tx.Stream.{outstanding}
use base_t1s.Tc6.Transfer.Thread.{stopped, spi_thread_handler}
use base_t1s.Tc6.Transfer.Wake.{serve_one, stop_thread}
use base_t1s.Tc6.Transfer.Duplex.{DuplexDevice}
use base_t1s.Tc6.Transfer.Duplex.Frames.{
  WireFrame, as_stamped, StackGot, try_spi_transfer-Exchanges,
}
use base_t1s.Tc6.Transfer.Duplex.Events.{
  Event, handed_in, handed_over, arrived_in, arrived, AllServable, Surroundings, happens, wake_ups,
}
use base_t1s.Tc6.Transfer.Duplex.Work.{AtRest, HasWork, happens-Found}

module _ {D : Type 0} {os : Platform D} (c : DuplexDevice os) (timed : Bool) (mtu : ℕ)
    (env : Surroundings c (mtu + 18)) where
  StackGot-none : (t : Tc6 D) → StackGot c timed mtu t [] t
  StackGot-none t = ([], sym (append-nil t.netdev.received), refl, omega arith)

  -- What the network stack got from one event and from those behind it.
  StackGot-append :
      (fs : List (List ℕ)) (ws vs : List WireFrame) (t t1 t2 t3 : Tc6 D)
      → HasWork c timed mtu fs ws t t1
      → StackGot c timed mtu t1 ws t2
      → StackGot c timed mtu t2 vs t3
      → StackGot c timed mtu t (ws ++ vs) t3
  StackGot-append fs ws vs t t1 t2 t3 w (a, pa, ba, ca) (b, pb, bb, cb) = (
    a ++ b,
    pb
        ∙ ap (λ r. r ++ map os.eth_type_trans b)
            (pa ∙ ap (λ r. r ++ map os.eth_type_trans a) w.received)
        ∙ append_assoc t.netdev.received (map os.eth_type_trans a) (map os.eth_type_trans b)
        ∙ ap (λ r. t.netdev.received ++ r) (sym (map-append os.eth_type_trans a b)),
    map-append (λ x. (x.bytes, x.hwtstamp)) a b
        ∙ ap (λ r. r ++ map (λ x. (x.bytes, x.hwtstamp)) b) ba
        ∙ ap (λ r. map (as_stamped timed) ws ++ r) bb
        ∙ sym (map-append (as_stamped timed) ws vs),
    omega (arith, w.packets, length-append ws vs),
  )

  -- Over a device that puts the frames together from the chunks it gets, answers with the chunks of
  -- the frames it has to send, always gives credit and announces exactly what is left, where
  -- `skb_linearize` succeeds, every receive buffer that is asked for is given with its room, and
  -- the filter stamps all frames or none, from a state with nothing to do in either direction: if
  -- the network stack hands over frames of 1 to 65535 bytes, and the frames that come to the
  -- device, which interrupts, have 53 to `mtu + 18` bytes without the check sequence and at least 4
  -- bytes in their last chunk (legal frames with 1 to 3 bytes there, which the driver spoils, are
  -- left out), each event (one frame handed over, some that come, or both) after the thread has
  -- served the one before, and if the bound of rounds for each transfer is two more than the chunks
  -- of each event, then the thread stops when it is asked to after the last event, the device has
  -- got exactly the frames handed over, and the network stack exactly the frames that came, each
  -- once, in order, without the check sequence and stamped if all frames are. Nothing is left to do
  -- in either direction.
  pub spi_thread_handler-Exchanges :
      (rounds : ℕ) (es : List Event) (t : Tc6 D)
      → AllServable (mtu + 18) rounds es
      → AtRest c timed mtu t
      → (t' : Tc6 D) × (spi_thread_handler os rounds (wake_ups env es) t ≡ (ok stopped, t'))
        × (c.got t'.dev ≡ c.got t.dev ++ handed_over es)
        × StackGot c timed mtu t (arrived es) t'
        × AtRest c timed mtu t'
  spi_thread_handler-Exchanges rounds [] t fit rest =
      (t, stop_thread os rounds t, sym (append-nil (c.got t.dev)), StackGot-none t, rest)
  spi_thread_handler-Exchanges rounds (e ∷ es) t (one, fit) rest =
      let t1 = happens env e t in
      let (w, formed, enough) = happens-Found c timed mtu env rounds e t one rest in
      let (t2, done, out2, got2, come2, stack2, none_in_part, g2) =
        try_spi_transfer-Exchanges c timed mtu rounds t1 (arrived_in e) w.exchange w.to_come formed
          enough in
      let (t3, last, got3, stack3, rest3) =
        spi_thread_handler-Exchanges rounds es t2 fit (g2, out2, come2) in
      (
        t3,
        serve_one os rounds (happens env e) (wake_ups env es) t t1 t2 refl w.wakes done ∙ last,
        got3
            ∙ ap (λ fs. fs ++ handed_over es)
                (got2
                  ∙ ap (λ fs. fs ++ outstanding t1) w.got
                  ∙ ap (λ fs. c.got t.dev ++ fs) w.queued)
            ∙ append_assoc (c.got t.dev) (handed_in e) (handed_over es),
        StackGot-append (handed_in e) (arrived_in e) (arrived es) t t1 t2 t3 w stack2 stack3,
        rest3,
      )
