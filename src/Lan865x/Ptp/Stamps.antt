-- ===== src/Lan865x/Ptp/Stamps.antt =====
-- The thread that reports the time stamps of sent packets, `lan865x_ptp_thread_handler` of
-- src/linux/drivers/net/ethernet/microchip/lan865x/lan865x_ptp.c: what one iteration of it does.
use base_t1s.Prelude.{
  ℕ, ◌/◌, ◌%◌, ◌^◌, Bool, true, false, List, [], ◌∷◌, ◌++◌, Option, some, M, ok, continue, ◌>>=◌,
  pure, ◌≡◌, refl, arith, ap, ap₂, sym, ◌∙◌, ◌==◌, ◌||◌, if◌then◌else◌, inl, inr, append-nil,
  append_assoc, Bool-cases,
}
use base_t1s.Word.{bit_get}
use base_t1s.Tc6.State.{Skb}
use base_t1s.Tc6.Bus.{RegisterBus, write_ignored, ignore_status}
use base_t1s.Lan865x.Priv.{Priv, TxEvent, skb_tstamp_tx, kfree_skb, on_tc6}
use base_t1s.Lan865x.Packets.{read_tx_timestamp, capture_regs}
use base_t1s.Lan865x.Ptp.{
  report_and_free, report_stamp, stamp_gptp, stamp_normal, stamp_reserved, clear_captures,
  ptp_thread_round,
}
use base_t1s.Lan865x.Ptp.Captures.{
  IsStampRegister, CaptureDevice, nanoseconds, Unchanged, read-value, capture-value,
}

-- What the thread is to do with a buffer, if the bit for its capture is set.
abbrev pub stamped : ℕ → Option Skb → ℕ → List TxEvent
stamped bit skb time = if bit == 1 then skb_tstamp_tx skb time ∷ kfree_skb skb ∷ [] else []

module _ {S : Type 0} {bus : RegisterBus S} (chip : CaptureDevice bus) where
  open chip use {IsReady, value}

  -- What the registers say is to be done: with the gPTP buffer for bit 8 and capture A, then with
  -- the other buffer for bit 9 and capture B.
  abbrev pub due : Priv S → List TxEvent
  due p =
      let status = value p.tc6 8 in
      stamped (status / 2 ^ 8 % 2) p.waiting_gptp (nanoseconds (value p.tc6 16) (value p.tc6 17))
      ++ stamped (status / 2 ^ 9 % 2) p.waiting_normal
          (nanoseconds (value p.tc6 18) (value p.tc6 19))

  -- The driver's data with another state of the chip and further events.
  abbrev moved : Priv S → S → List TxEvent → Priv S
  moved p s es = record p { tc6 = s; tx_events = p.tx_events ++ es }

  moved-none : (p : Priv S) → record p { tc6 = p.tc6 } ≡ moved p p.tc6 []
  moved-none p = ap (λ l. record p { tx_events = l }) (sym (append-nil p.tx_events))

  Unchanged-refl : (s : S) → IsReady s → Unchanged chip s s
  Unchanged-refl s up = (up, λ b w. refl)

  report-moved :
      (tx_id hi lo : ℕ) (slot : Priv S → Option Skb) (p : Priv S)
      → capture_regs tx_id ≡ some (hi, lo)
      → IsReady p.tc6
      → IsStampRegister hi
      → IsStampRegister lo
      → ((s : S) → slot (record p { tc6 = s }) ≡ slot p)
      → (s' : S) × (report_stamp bus tx_id slot p ≡ (
        ok tt,
        moved p s' (stamped 1 (slot p) (nanoseconds (value p.tc6 hi) (value p.tc6 lo))),
      ))
        × Unchanged chip p.tc6 s'
  unfolding report_stamp report_and_free
  report-moved tx_id hi lo slot p known up h l stays =
      let (s', e, same) = capture-value chip tx_id hi lo p.tc6 known up h l in
      let time = nanoseconds (value p.tc6 hi) (value p.tc6 lo) in
      (
        s',
        ap (λ r. continue r.0 (report_and_free slot) (record p { tc6 = r.1 })) e
            ∙ ap (λ b. (ok tt, moved p s' (stamped 1 b time))) (stays s'),
        same,
      )

  -- A block under a mask.
  when-moved :
      (bit time : ℕ) (skb : Option Skb) (m : M (Priv S) (Unit {0})) (p : Priv S)
      → IsReady p.tc6
      → ((s' : S) × (m p ≡ (ok tt, moved p s' (stamped 1 skb time))) × Unchanged chip p.tc6 s')
      → (s' : S) × ((if bit == 1 then m else pure tt) p
          ≡ (ok tt, moved p s' (stamped bit skb time)))
        × Unchanged chip p.tc6 s'
  when-moved bit time skb m p up (s', e, same) = elim (Bool-cases (bit == 1)) [
    | inl set ↦ (s', rw set e, same)
    | inr clear ↦ (p.tc6, rw clear (ap (λ q. (ok tt, q)) (moved-none p)), Unchanged-refl p.tc6 up)
  ]

  stamp_gptp-moved :
      (status : ℕ) (p : Priv S)
      → IsReady p.tc6
      → (s' : S) × (stamp_gptp bus status p ≡ (
        ok tt,
        moved p s' (
            stamped
              (bit_get 8 status)
              p.waiting_gptp
              (nanoseconds (value p.tc6 16) (value p.tc6 17))),
      ))
        × Unchanged chip p.tc6 s'
  unfolding stamp_gptp capture_regs
  stamp_gptp-moved status p up =
      when-moved (bit_get 8 status) (nanoseconds (value p.tc6 16) (value p.tc6 17)) p.waiting_gptp
        (report_stamp bus 1 (λ p. p.waiting_gptp)) p up
        (report-moved 1 16 17 (λ p. p.waiting_gptp) p refl up (inr (omega arith, omega arith))
          (inr (omega arith, omega arith)) (λ s. refl))

  stamp_normal-moved :
      (status : ℕ) (p : Priv S)
      → IsReady p.tc6
      → (s' : S) × (stamp_normal bus status p ≡ (
        ok tt,
        moved p s' (
            stamped
              (bit_get 9 status)
              p.waiting_normal
              (nanoseconds (value p.tc6 18) (value p.tc6 19))),
      ))
        × Unchanged chip p.tc6 s'
  unfolding stamp_normal capture_regs
  stamp_normal-moved status p up =
      when-moved (bit_get 9 status) (nanoseconds (value p.tc6 18) (value p.tc6 19)) p.waiting_normal
        (report_stamp bus 2 (λ p. p.waiting_normal)) p up
        (report-moved 2 18 19 (λ p. p.waiting_normal) p refl up (inr (omega arith, omega arith))
          (inr (omega arith, omega arith)) (λ s. refl))

  -- A block that only touches the chip.
  when-quiet :
      (b : Bool) (m : M (Priv S) (Unit {0})) (p : Priv S)
      → IsReady p.tc6
      → ((s' : S) × (m p ≡ (ok tt, record p { tc6 = s' })) × IsReady s')
      → (s' : S) × ((if b then m else pure tt) p ≡ (ok tt, record p { tc6 = s' })) × IsReady s'
  when-quiet true m p up h = h
  when-quiet false m p up h = (p.tc6, refl, up)

  stamp_reserved-quiet :
      (status : ℕ) (p : Priv S)
      → IsReady p.tc6
      → (s' : S) × (stamp_reserved bus status p ≡ (ok tt, record p { tc6 = s' })) × IsReady s'
  unfolding stamp_reserved capture_regs
  stamp_reserved-quiet status p up =
      let (s', e, (up', same)) =
        capture-value chip 3 20 21 p.tc6 refl up (inr (omega arith, omega arith))
          (inr (omega arith, omega arith)) in
      when-quiet (bit_get 10 status == 1) (on_tc6 (read_tx_timestamp bus 3) >>= λ tx_ts. pure tt) p
        up (s', ap (λ r. continue r.0 (λ tx_ts. pure tt) (record p { tc6 = r.1 })) e, up')

  clear_captures-quiet :
      (status : ℕ) (p : Priv S)
      → IsReady p.tc6
      → (s' : S) × (clear_captures bus status p ≡ (ok tt, record p { tc6 = s' })) × IsReady s'
  unfolding clear_captures write_ignored
  clear_captures-quiet status p up =
      let (s', e, up') = chip.clear_ok p.tc6 status up in
      when-quiet ((bit_get 8 status == 1 || bit_get 9 status == 1) || bit_get 10 status == 1)
        (on_tc6 (write_ignored bus 0x00000008 status)) p up
        (s', ap (λ r. (ignore_status r.0, record p { tc6 = r.1 })) e, up')

  -- Over a chip whose capture registers and OA_STATUS0 answer reads and keep their values until
  -- OA_STATUS0 is written, which succeeds, whatever the variable `status` holds before: an iteration of the thread succeeds, and what it does with the
  -- waiting buffers is exactly what the registers say. If bit 8 of OA_STATUS0 is set it reports the
  -- gPTP buffer with the time of capture A and then frees it, and behind that, if bit 9 is set, it
  -- reports the other buffer with the time of capture B and frees it. Both buffers stay in their
  -- places, so that one with a later capture is reported and freed again.
  pub ptp_thread_round-Reports :
      (old : ℕ) (p : Priv S)
      → IsReady p.tc6
      → (q : Priv S) × (ptp_thread_round bus old p ≡ (ok tt, q))
        × (q.tx_events ≡ p.tx_events ++ due p)
        × (q.waiting_gptp ≡ p.waiting_gptp)
        × (q.waiting_normal ≡ p.waiting_normal)
        × IsReady q.tc6
  unfolding ptp_thread_round
  ptp_thread_round-Reports old p up =
      let status = value p.tc6 8 in
      let time_a : S → ℕ = λ s. nanoseconds (value s 16) (value s 17) in
      let time_b : S → ℕ = λ s. nanoseconds (value s 18) (value s 19) in
      let (s0, e0, (up0, same0)) = read-value chip old 8 p.tc6 up (inl refl) in
      let p0 = record p { tc6 = s0 } in
      let (s1, e1, (up1, same1)) = stamp_gptp-moved status p0 up0 in
      let p1 = moved p0 s1 (stamped (bit_get 8 status) p.waiting_gptp (time_a s0)) in
      let (s2, e2, (up2, same2)) = stamp_normal-moved status p1 up1 in
      let p2 = moved p1 s2 (stamped (bit_get 9 status) p.waiting_normal (time_b s1)) in
      let (s3, e3, up3) = stamp_reserved-quiet status p2 up2 in
      let (s4, e4, up4) = clear_captures-quiet status (record p2 { tc6 = s3 }) up3 in
      (
        record p2 { tc6 = s4 },
        rw (e0, e1, e2, e3, e4) refl,
        append_assoc p.tx_events (stamped (bit_get 8 status) p.waiting_gptp (time_a s0))
              (stamped (bit_get 9 status) p.waiting_normal (time_b s1))
            ∙ ap₂
                (λ a b.
                  p.tx_events
                  ++ (stamped (bit_get 8 status) p.waiting_gptp a
                      ++ stamped (bit_get 9 status) p.waiting_normal b))
                (ap₂ nanoseconds (same0 16 (inr (omega arith, omega arith)))
                  (same0 17 (inr (omega arith, omega arith))))
                (ap₂ nanoseconds
                  (same1 18 (inr (omega arith, omega arith))
                    ∙ same0 18 (inr (omega arith, omega arith)))
                  (same1 19 (inr (omega arith, omega arith))
                    ∙ same0 19 (inr (omega arith, omega arith)))),
        refl,
        refl,
        up4,
      )
