-- ===== src/Tc6/Transfer/Duplex/Frames.antt =====
-- Whole frames in both directions under `oa_tc6_try_spi_transfer`.
use base_t1s.Prelude.{
  ℕ, ◌+◌, ◌-◌, ◌≤◌, ◌%◌, Bool, List, [], ◌∷◌, ◌++◌, Option, none, ok, ◌≡◌, refl, ap, ap₂, subst,
  ◌∙◌, length, map, length-append, arith,
}
use base_t1s.Tc6.State.{Tc6, Skb, Platform}
use base_t1s.Tc6.Tx.Stream.{outstanding}
use base_t1s.Tc6.Tx.Left.{chunks_left}
use base_t1s.Tc6.Transfer.{finished, try_spi_transfer}
use base_t1s.Tc6.Rx.Frames.{stamp_at}
use base_t1s.Tc6.Rx.Source.{RxChunk, reassemble, InOrder, frame_in}
use base_t1s.Tc6.Rx.Source.Cut.{cut_all, reassemble-cut_all, AllFit, InOrder-cut_all, frame_in-sent}
use base_t1s.Tc6.Rx.Tracks.{Handed}
use base_t1s.Tc6.Transfer.Duplex.{DuplexDevice, allocator, CanExchange}
use base_t1s.Tc6.Transfer.Duplex.Exchange.{try_spi_transfer-Exchanged}

-- A frame as a MAC-PHY sends it to the host.
pub record WireFrame : Type 0 where
  pub time_stamp : List ℕ
  pub frame : List ℕ
  pub check_sequence : List ℕ

abbrev pub wire_bytes : WireFrame → List ℕ
wire_bytes w = w.time_stamp ++ (w.frame ++ w.check_sequence)

abbrev pub wire_chunks : List WireFrame → List RxChunk
wire_chunks ws = cut_all (map wire_bytes ws)

-- 8 bytes of time stamp and 4 bytes of check sequence. The frame does not fit one chunk, fits the
-- buffer that the driver asks for, and has its check sequence in one chunk. That leaves out legal
-- frames with 1 to 3 bytes in the last chunk: for these the driver's `size - 4` wraps, and it hands
-- over more than 250 bytes that are not of the frame.
abbrev pub AllReceivable : ℕ → List WireFrame → Type 0
AllReceivable room [] = Unit {0}
AllReceivable room (w ∷ ws) =
    ((length w.time_stamp ≡ 8)
      × (length w.check_sequence ≡ 4)
      × (53 ≤ length w.frame)
      × (length w.frame ≤ room)
      × (3 ≤ (length w.frame + 11) % 64))
    × AllReceivable room ws

AllFit-wire :
    (room : ℕ) (ws : List WireFrame) → AllReceivable room ws → AllFit room (map wire_bytes ws)
AllFit-wire room [] h = tt
AllFit-wire room (w ∷ ws) ((ts, fcs, lo, hi, last), h) =
    let size : length (wire_bytes w) ≡ length w.frame + 12 = omega (
      arith,
      ts,
      fcs,
      length-append w.time_stamp (w.frame ++ w.check_sequence),
      length-append w.frame w.check_sequence,
    ) in
    let behind : (length (wire_bytes w) - 1) % 64 ≡ (length w.frame + 11) % 64 =
      ap (λ n. (n - 1) % 64) size ∙ omega arith in
    ((omega arith, omega arith, omega arith), AllFit-wire room ws h)

pub wire_chunks-InOrder :
    (room : ℕ) (ws : List WireFrame) → AllReceivable room ws → InOrder room none (wire_chunks ws)
wire_chunks-InOrder room ws h = InOrder-cut_all room (map wire_bytes ws) (AllFit-wire room ws h)

-- What the network stack is to get of a frame: its bytes, and its time stamp if all frames get
-- one.
abbrev pub as_stamped : Bool → WireFrame → List ℕ × Option ℕ
as_stamped timed w = (w.frame, stamp_at timed w.time_stamp 0)

frame_in-wire :
    (timed : Bool) (room : ℕ) (ws : List WireFrame)
    → AllReceivable room ws
    → map (frame_in timed) (map wire_bytes ws) ≡ map (as_stamped timed) ws
frame_in-wire timed room [] h = refl
frame_in-wire timed room (w ∷ ws) ((ts, fcs, lo, hi, last), h) =
    ap₂ ◌∷◌ (frame_in-sent timed w.time_stamp w.frame w.check_sequence ts fcs)
      (frame_in-wire timed room ws h)

length-map-wire : (ws : List WireFrame) → length (map wire_bytes ws) ≡ length ws
length-map-wire [] = refl
length-map-wire (w ∷ ws) = omega (arith, length-map-wire ws)

module _ {D : Type 0} {os : Platform D} (c : DuplexDevice os) (timed : Bool) (mtu : ℕ) where
  -- Between `t` and `t'` the network stack was handed these frames and no other.
  abbrev pub StackGot : Tc6 D → List WireFrame → Tc6 D → Type 0
  StackGot t ws t' =
      (skbs : List Skb) × (t'.netdev.received ≡ t.netdev.received ++ map os.eth_type_trans skbs)
      × (map (λ skb. (skb.bytes, skb.hwtstamp)) skbs ≡ map (as_stamped timed) ws)
      × (t'.netdev.rx_packets ≡ t.netdev.rx_packets + length ws)

  Handed-StackGot :
      (t t' : Tc6 D) (ws : List WireFrame)
      → AllReceivable (mtu + 18) ws
      → Handed (allocator c timed mtu) timed mtu t (map wire_bytes ws) t'
      → StackGot t ws t'
  Handed-StackGot t t' ws fit h = (
    h.skbs,
    h.passed,
    h.whole ∙ frame_in-wire timed (mtu + 18) ws fit,
    omega (arith, h.packets, length-map-wire ws),
  )

  -- Over a device that puts the frames together from the chunks it gets, answers with the chunks of
  -- the frames it has to send, always gives credit and announces exactly what is left, with every
  -- receive buffer that is asked for given with its room and a filter that stamps all frames or
  -- none: from a state in which the loop can exchange frames, with nothing of a frame received so
  -- far, where each frame to come has 53 to `mtu + 18` bytes without the check sequence and at
  -- least 4 bytes in its last chunk (legal frames with 1 to 3 bytes there, which the driver spoils,
  -- are left out), and with a bound of rounds that is at least two more than the chunks left in
  -- both directions, `try_spi_transfer` comes to its end without an error, the queue is empty, the
  -- device has got exactly the queued frames behind those it had, and has no frame left to send,
  -- and the network stack was handed exactly the frames to come, each once, in order, without the
  -- check sequence, and stamped if all frames are. No frame is under way, and the state is again
  -- such a one.
  pub try_spi_transfer-Exchanges :
      (n : ℕ) (t : Tc6 D) (ws : List WireFrame)
      → CanExchange c timed mtu t none
      → c.to_send t.dev ≡ wire_chunks ws
      → AllReceivable (mtu + 18) ws
      → chunks_left t + length (wire_chunks ws) + 2 ≤ n
      → (t' : Tc6 D) × (try_spi_transfer os n t ≡ (ok finished, t'))
        × (outstanding t' ≡ [])
        × (c.got t'.dev ≡ c.got t.dev ++ outstanding t)
        × (c.to_send t'.dev ≡ [])
        × StackGot t ws t'
        × (t'.rx_skb ≡ none)
        × CanExchange c timed mtu t' none
  try_spi_transfer-Exchanges n t ws g e fit enough =
      let (t', eq, x) =
        try_spi_transfer-Exchanged c timed mtu n t none g (omega (arith, ap length e)) in
      let whole : reassemble none (c.to_send t.dev) ≡ (map wire_bytes ws, none) =
        ap (reassemble none) e ∙ reassemble-cut_all (map wire_bytes ws) in
      let again : CanExchange c timed mtu t' none =
        subst (λ r. CanExchange c timed mtu t' r.1) whole x.exchange in
      (
        t',
        eq,
        x.all_sent,
        x.delivered,
        x.all_come,
        Handed-StackGot t t' ws fit
            (subst (λ r. Handed (allocator c timed mtu) timed mtu t r.0 t') whole x.handed),
        again.tracks.in_part,
        again,
      )
