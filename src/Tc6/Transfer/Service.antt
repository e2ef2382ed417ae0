-- ===== src/Tc6/Transfer/Service.antt =====
-- The whole transmit path: the calls of `oa_tc6_start_xmit` that wake the thread, and
-- `oa_tc6_spi_thread_handler`.
use base_t1s.Prelude.{
  ℕ, ◌+◌, ◌≤◌, ◌<◌, ◌^◌, ◌/◌, Bool, true, false, List, [], ◌∷◌, ◌++◌, map, some, ok, length, ◌≡◌,
  refl, arith, ap, sym, ◌∙◌, append-nil, append_assoc,
}
use base_t1s.Tc6.State.{Tc6, Skb, Platform}
use base_t1s.Tc6.Tx.{start_xmit, netdev_tx_ok}
use base_t1s.Tc6.Tx.Stream.{outstanding}
use base_t1s.Tc6.Tx.Left.{chunks_left}
use base_t1s.Tc6.Transfer.Drain.{ChunkDevice, CanDrain}
use base_t1s.Tc6.Transfer.Deliver.{try_spi_transfer-Drains}
use base_t1s.Tc6.Transfer.Thread.{stopped, wake_condition, spi_thread_handler}
use base_t1s.Tc6.Transfer.Wake.{none_queued, xmit-queued, serve_one, stop_thread}

-- Frames that fit the driver's 16-bit offsets, each in at most `rounds - 2` chunks.
abbrev pub AllFit : ℕ → List Skb → Type 0
AllFit rounds [] = Unit {0}
AllFit rounds (skb ∷ skbs) =
    ((0 < length skb.bytes)
      × (length skb.bytes < 2 ^ 16)
      × ((length skb.bytes + 63) / 64 + 2 ≤ rounds))
    × AllFit rounds skbs

module _ {D : Type 0} (os : Platform D) where
  -- The wake-ups of the thread by calls of `oa_tc6_start_xmit`, and a last one to stop it.
  abbrev pub wake_ups : List Skb → List (Bool × (Tc6 D → Tc6 D))
  wake_ups [] = (true, λ t. t) ∷ []
  wake_ups (skb ∷ skbs) = (false, λ t. (start_xmit os skb 0 t).1) ∷ wake_ups skbs

module _ {D : Type 0} {os : Platform D} (c : ChunkDevice os) where
  -- A frame that is handed over to an empty queue waits in it.
  xmit-CanDrain :
      (skb : Skb) (t : Tc6 D)
      → 0 < length skb.bytes
      → length skb.bytes < 2 ^ 16
      → CanDrain c t
      → outstanding t ≡ []
      → (t' : Tc6 D) × (start_xmit os skb 0 t ≡ (ok netdev_tx_ok, t'))
        × CanDrain c t'
        × (c.got t'.dev ≡ c.got t.dev)
        × (outstanding t' ≡ skb.bytes ∷ [])
        × (chunks_left t' ≡ (length skb.bytes + 63) / 64)
        × (wake_condition t' ≡ true)
  unfolding wake_condition
  xmit-CanDrain skb t some_byte small g e =
      let (o, w) = none_queued os t e in
      let (d', l, got, part, ready) = c.linearize t.dev skb.bytes g.ready in
      (
        record t { dev = d'; waiting_tx_skb = some skb; waiting_tx_ts_capture_mode = 0 },
        xmit-queued os skb t d' w l,
        record {
          sendable = record {
            ongoing = g.sendable.ongoing;
            waiting = (some_byte, small);
            size = g.sendable.size;
          };
          data_tx = g.data_tx;
          data_rx = g.data_rx;
          some_credit = g.some_credit;
          credits = g.credits;
          rx_chunks = g.rx_chunks;
          ready = ready;
          in_part = part ∙ g.in_part;
        },
        got,
        rw o refl,
        rw o (omega arith),
        ground (arith, g.some_credit),
      )

  -- Over a device that puts the frames together from the chunks it gets, and answers each transfer
  -- with credit and without receive data, from a state with nothing queued: if the network stack
  -- hands over frames of 1 to 65535 bytes, each after the thread has served the one before, and then
  -- asks the thread to stop, the thread stops, and the device has got exactly these frames, in
  -- order, where the bound of rounds for each transfer is two more than the chunks of each frame.
  pub spi_thread_handler-Delivers :
      (rounds : ℕ) (skbs : List Skb) (t : Tc6 D)
      → AllFit rounds skbs
      → CanDrain c t
      → outstanding t ≡ []
      → (t' : Tc6 D) × (spi_thread_handler os rounds (wake_ups os skbs) t ≡ (ok stopped, t'))
        × (c.got t'.dev ≡ c.got t.dev ++ map (λ skb. skb.bytes) skbs)
        × (outstanding t' ≡ [])
  spi_thread_handler-Delivers rounds [] t fit g e =
      (t, stop_thread os rounds t, sym (append-nil (c.got t.dev)), e)
  spi_thread_handler-Delivers rounds (skb ∷ skbs) t ((some_byte, small, enough), fit) g e =
      let (t1, x, g1, got1, out1, left, wake) = xmit-CanDrain skb t some_byte small g e in
      let (t2, f, out2, got2, g2) = try_spi_transfer-Drains c rounds t1 g1 (omega arith) in
      let (t3, h, got3, out3) = spi_thread_handler-Delivers rounds skbs t2 fit g2 out2 in
      (
        t3,
        serve_one os rounds (λ u. (start_xmit os skb 0 u).1) (wake_ups os skbs) t t1 t2
              (ap (λ r. r.1) x) wake f
            ∙ h,
        got3
            ∙ ap (λ fs. fs ++ map (λ s. s.bytes) skbs)
                (got2 ∙ ap (λ fs. fs ++ outstanding t1) got1 ∙ ap (λ fs. c.got t.dev ++ fs) out1)
            ∙ append_assoc (c.got t.dev) (skb.bytes ∷ []) (map (λ s. s.bytes) skbs),
        out3,
      )
