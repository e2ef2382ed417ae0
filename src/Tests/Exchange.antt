-- ===== src/Tests/Exchange.antt =====
-- Frames that are exchanged with a device, by the loop and by the thread.
use base_t1s.Prelude.{
  ℕ, true, false, List, [], ◌∷◌, ◌++◌, none, ok, ◌≡◌, refl, arith, length, replicate,
  length-replicate,
}
use base_t1s.Tc6.State.{Tc6}
use base_t1s.Tc6.Tx.Stream.{outstanding}
use base_t1s.Tc6.Transfer.{finished, try_spi_transfer}
use base_t1s.Tc6.Transfer.Thread.{stopped, spi_thread_handler}
use base_t1s.Tc6.Transfer.Duplex.{CanExchange}
use base_t1s.Tc6.Transfer.Duplex.Frames.{
  WireFrame, wire_chunks, wire_chunks-InOrder, AllReceivable, StackGot, try_spi_transfer-Exchanges,
}
use base_t1s.Tc6.Transfer.Duplex.Events.{
  Event, hand_over, arrive, hand_over_and_arrive, AllServable, wake_ups,
}
use base_t1s.Tc6.Transfer.Duplex.Work.{AtRest}
use base_t1s.Tc6.Transfer.Duplex.Service.{spi_thread_handler-Exchanges}
use base_t1s.Tests.Inputs.{frame, queued_on, queued_on-HasBuffers}
use base_t1s.Tests.Peer.{Peer, peer, peer_device, around, wire_chunks-AllData}

-- A short frame and one of 1500 bytes, as the device sends them.
abbrev pub short_frame : WireFrame
short_frame = record {
  time_stamp = replicate 8 1;
  frame = replicate 60 9;
  check_sequence = replicate 4 5;
}

abbrev long_frame : WireFrame
long_frame = record {
  time_stamp = replicate 8 2;
  frame = replicate 1500 8;
  check_sequence = replicate 4 6;
}

abbrev two_frames : List WireFrame
two_frames = short_frame ∷ long_frame ∷ []

two_frames-AllReceivable : AllReceivable 1518 two_frames
two_frames-AllReceivable =
    let l = length-replicate {A = ℕ} 1500 8 in
    (
      (refl, refl, omega arith, omega arith, omega arith),
      ((refl, refl, omega (arith, l), omega (arith, l), omega (arith, l)), tt),
    )

true-ne-false : true ≡ false → ⊥
true-ne-false e = cc

-- 64 of the 100 bytes of the first queued frame have been sent, and the device has interrupted.
abbrev busy : Tc6 Peer
busy =
    record (queued_on
      (record { frames = []; part = replicate 64 7; to_send = wire_chunks two_frames })) {
        int_flag = true;
      }

busy-CanExchange : CanExchange peer_device false 1500 busy none
busy-CanExchange =
    let b = queued_on-HasBuffers busy.dev in
    record {
      sendable = record {
        ongoing = omega arith;
        waiting = omega arith;
        size = omega (arith, b.data_tx);
      };
      data_tx = b.data_tx;
      some_credit = omega arith;
      credits = omega arith;
      rx_chunks = omega arith;
      in_part = refl;
      tracks = record {
        buffer = b.data_rx;
        filter = refl;
        mtu_set = refl;
        ready = wire_chunks-AllData 1518 two_frames two_frames-AllReceivable;
        in_part = refl;
      };
      announced = λ z on. absurd (true-ne-false on);
      in_order = wire_chunks-InOrder 1518 two_frames two_frames-AllReceivable;
    }

two_frames-chunks : length (wire_chunks two_frames) ≡ 26
two_frames-chunks = refl

try_spi_transfer-Exchanges_example :
    (t' : Tc6 Peer) × (try_spi_transfer peer 30 busy ≡ (ok finished, t'))
    × (outstanding t' ≡ [])
    × (t'.dev.frames ≡ replicate 100 7 ∷ replicate 60 7 ∷ [])
    × (t'.dev.to_send ≡ [])
    × StackGot peer_device false 1500 busy two_frames t'
    × (t'.rx_skb ≡ none)
    × CanExchange peer_device false 1500 t' none
try_spi_transfer-Exchanges_example =
    try_spi_transfer-Exchanges peer_device false 1500 30 busy two_frames busy-CanExchange refl
      two_frames-AllReceivable (omega (arith, two_frames-chunks))

-- Nothing is queued, and the device has nothing to send.
abbrev resting : Tc6 Peer
resting = record (queued_on (record { frames = []; part = []; to_send = [] })) {
  ongoing_tx_skb = none;
  waiting_tx_skb = none;
  tx_skb_offset = 0;
}

resting-AtRest : AtRest peer_device false 1500 resting
resting-AtRest =
    let b = queued_on-HasBuffers resting.dev in
    (
      record {
        sendable = record { ongoing = refl; waiting = refl; size = omega (arith, b.data_tx) };
        data_tx = b.data_tx;
        some_credit = omega arith;
        credits = omega arith;
        rx_chunks = omega arith;
        in_part = refl;
        tracks = record {
          buffer = b.data_rx;
          filter = refl;
          mtu_set = refl;
          ready = tt;
          in_part = refl;
        };
        announced = λ z off. refl;
        in_order = tt;
      },
      refl,
      refl,
    )

abbrev three_events : List Event
three_events =
    hand_over (frame 60) ∷ arrive two_frames ∷ hand_over_and_arrive (frame 128) two_frames ∷ []

three_events-AllServable : AllServable 1518 30 three_events
three_events-AllServable = (
  (omega arith, omega arith, omega arith),
  (
    (two_frames-AllReceivable, omega (arith, two_frames-chunks)),
    (((omega arith, omega arith), two_frames-AllReceivable, omega (arith, two_frames-chunks)), tt),
  ),
)

spi_thread_handler-Exchanges_example :
    (t' : Tc6 Peer) × (spi_thread_handler peer 30 (wake_ups around three_events) resting
      ≡ (ok stopped, t'))
    × (t'.dev.frames ≡ replicate 60 7 ∷ replicate 128 7 ∷ [])
    × StackGot peer_device false 1500 resting (two_frames ++ two_frames) t'
    × AtRest peer_device false 1500 t'
spi_thread_handler-Exchanges_example =
    spi_thread_handler-Exchanges peer_device false 1500 around 30 three_events resting
      three_events-AllServable resting-AtRest
