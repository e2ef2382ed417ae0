-- ===== src/Tc6/Transfer/Duplex/Events.antt =====
-- What wakes the transfer thread: calls from the network stack, and interrupts of the device.
use base_t1s.Prelude.{
  ℕ, ◌+◌, ◌≤◌, ◌<◌, ◌^◌, ◌/◌, Bool, true, false, List, [], ◌∷◌, ◌++◌, length, ◌≡◌,
}
use base_t1s.Tc6.State.{Tc6, Skb, Platform}
use base_t1s.Tc6.Tx.{start_xmit}
use base_t1s.Tc6.Transfer.{macphy_isr}
use base_t1s.Tc6.Transfer.Duplex.{DuplexDevice, seen_as}
use base_t1s.Tc6.Transfer.Duplex.Frames.{WireFrame, wire_chunks, AllReceivable}

-- What happens while the thread waits: the network stack hands over a frame, frames come to the
-- device, which interrupts, or both.
pub data Event : Type 0 where
  hand_over : Skb → Event
  arrive : List WireFrame → Event
  hand_over_and_arrive : Skb → List WireFrame → Event

-- The frames handed over, and the frames that come.
abbrev pub handed_in : Event → List (List ℕ)
handed_in (hand_over skb) = skb.bytes ∷ []
handed_in (arrive ws) = []
handed_in (hand_over_and_arrive skb ws) = skb.bytes ∷ []

abbrev pub arrived_in : Event → List WireFrame
arrived_in (hand_over skb) = []
arrived_in (arrive ws) = ws
arrived_in (hand_over_and_arrive skb ws) = ws

abbrev pub handed_over : List Event → List (List ℕ)
handed_over [] = []
handed_over (e ∷ es) = handed_in e ++ handed_over es

abbrev pub arrived : List Event → List WireFrame
arrived [] = []
arrived (e ∷ es) = arrived_in e ++ arrived es

-- Frames that fit the driver's 16-bit offsets, receivable frames from the device, and together
-- at most `rounds - 2` chunks.
abbrev pub IsServable : ℕ → ℕ → Event → Type 0
IsServable room rounds (hand_over skb) =
    (0 < length skb.bytes)
    × (length skb.bytes < 2 ^ 16)
    × ((length skb.bytes + 63) / 64 + 2 ≤ rounds)
IsServable room rounds (arrive ws) = AllReceivable room ws × (length (wire_chunks ws) + 2 ≤ rounds)
IsServable room rounds (hand_over_and_arrive skb ws) =
    ((0 < length skb.bytes) × (length skb.bytes < 2 ^ 16))
    × AllReceivable room ws
    × ((length skb.bytes + 63) / 64 + length (wire_chunks ws) + 2 ≤ rounds)

abbrev pub AllServable : ℕ → ℕ → List Event → Type 0
AllServable room rounds [] = Unit {0}
AllServable room rounds (e ∷ es) = IsServable room rounds e × AllServable room rounds es

-- The rest of what the device and the network stack do: `skb_linearize` succeeds and leaves the
-- device alone, and the chunks of frames that come queue up behind those that the device has to
-- send.
pub record Surroundings {D : Type 0} {os : Platform D} (c : DuplexDevice os) (room : ℕ)
    : Type 0 where
  pub linearize :
      (d : D) (b : List ℕ)
      → c.IsReady d
      → (d' : D) × (os.skb_linearize d b ≡ (0, d'))
        × (seen_as (c.got d') (c.part d') (c.to_send d')
            ≡ seen_as (c.got d) (c.part d) (c.to_send d))
        × c.IsReady d'
  pub queue_up : List WireFrame → D → D
  pub queued_up :
      (ws : List WireFrame) (d : D)
      → AllReceivable room ws
      → c.IsReady d
      → (seen_as (c.got (queue_up ws d)) (c.part (queue_up ws d)) (c.to_send (queue_up ws d))
          ≡ seen_as (c.got d) (c.part d) (c.to_send d ++ wire_chunks ws))
        × c.IsReady (queue_up ws d)

module _ {D : Type 0} {os : Platform D} {c : DuplexDevice os} {room : ℕ}
    (env : Surroundings c room) where
  abbrev pub frames_come : List WireFrame → Tc6 D → Tc6 D
  frames_come ws t = macphy_isr (record t { dev = env.queue_up ws t.dev })

  abbrev pub happens : Event → Tc6 D → Tc6 D
  happens (hand_over skb) t = (start_xmit os skb 0 t).1
  happens (arrive ws) t = frames_come ws t
  happens (hand_over_and_arrive skb ws) t = frames_come ws (start_xmit os skb 0 t).1

  -- The wake-ups of the thread by the events, and a last one to stop it.
  abbrev pub wake_ups : List Event → List (Bool × (Tc6 D → Tc6 D))
  wake_ups [] = (true, λ t. t) ∷ []
  wake_ups (e ∷ es) = (false, happens e) ∷ wake_ups es
