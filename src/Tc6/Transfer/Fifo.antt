-- ===== src/Tc6/Transfer/Fifo.antt =====
-- The transmit queue between the network stack and the transfer thread: `oa_tc6_start_xmit` and the
-- interrupt handler may run between any two steps of the thread.
use base_t1s.Prelude.{
  ℕ, ◌+◌, ◌/◌, ◌%◌, ◌^◌, ◌≤◌, List, [], ◌∷◌, ◌++◌, some, none, ok, ◌≡◌, arith, ap, sym, subst, ◌∙◌,
  length, append-nil, append_assoc, ◌==◌, if◌then◌else◌,
}
use base_t1s.Word.{bit_get}
use base_t1s.Tc6.State.{Tc6, Skb, Platform}
use base_t1s.Tc6.Tx.{add_tx_chunk, add_empty_chunks_to_spi_buf, fetch_waiting, start_xmit}
use base_t1s.Tc6.Tx.Sink.{take_chunk, receive}
use base_t1s.Tc6.Tx.Stream.{
  Sent, IsSendable, CanSend, sent_part, outstanding, add_tx_chunk-Sent, fetch_waiting-keeps,
}
use base_t1s.Tc6.Tx.Empty.{add_empty_chunks_to_spi_buf-Sent}
use base_t1s.Tc6.Rx.{process_rx_chunk_footer, footer_errors}
use base_t1s.Tc6.Transfer.{macphy_isr}

-- The driver and the receiver of its chunks, with the frames taken over from the network stack and
-- the frames received so far. The receiver sees a chunk when it has been written.
pub record World (D : Type 0) : Type 0 where
  pub tc6 : Tc6 D
  pub part : List ℕ
  pub accepted : List (List ℕ)
  pub delivered : List (List ℕ)

module _ {D : Type 0} where
  -- The frame that a call of `oa_tc6_start_xmit` takes over: none if one is waiting already, or if
  -- it cannot be linearised.
  abbrev pub taken_over : Platform D → Skb → Tc6 D → List (List ℕ)
  taken_over os skb t = elim t.waiting_tx_skb [
    | some w ↦ []
    | none ↦ if (os.skb_linearize t.dev skb.bytes).0 == 0 then skb.bytes ∷ [] else []
  ]

  -- The world after a chunk was written at the offset of `w`.
  abbrev pub with_chunk : World D → Tc6 D → World D
  with_chunk w t' =
      let c = take_chunk w.part w.tc6.spi_data_tx_buf_offset t'.spi_data_tx_buf in
      record { tc6 = t'; part = c.1; accepted = w.accepted; delivered = w.delivered ++ c.0 }

  pub data Step (os : Platform D) : World D → World D → Type 0 where
    xmit :
        (w : World D) (skb : Skb) (ts_capture_mode : ℕ)
        → CanSend 0 (some skb)
        → Step os w (record w {
          tc6 = (start_xmit os skb ts_capture_mode w.tc6).1;
          accepted = w.accepted ++ taken_over os skb w.tc6;
        })
    isr : (w : World D) → Step os w (record w { tc6 = macphy_isr w.tc6 })
    start :
        (w : World D) → Step os w (record w { tc6 = record w.tc6 { spi_data_tx_buf_offset = 0 } })
    fetch : (w : World D) → Step os w (record w { tc6 = fetch_waiting w.tc6 })
    chunk :
        (w : World D) (skb : Skb) (t' : Tc6 D)
        → w.tc6.spi_data_tx_buf_offset + 68 ≤ length w.tc6.spi_data_tx_buf
        → w.tc6.ongoing_tx_skb ≡ some skb
        → add_tx_chunk skb w.tc6 ≡ (ok tt, t')
        → Step os w (with_chunk w t')
    empty_chunk :
        (w : World D) (t' : Tc6 D)
        → w.tc6.spi_data_tx_buf_offset + 68 ≤ length w.tc6.spi_data_tx_buf
        → add_empty_chunks_to_spi_buf 1 w.tc6 ≡ (ok tt, t')
        → Step os w (with_chunk w t')
    footer :
        (w : World D) (value : ℕ)
        → bit_get 31 value ≡ 0
        → Step os w (record w { tc6 = (process_rx_chunk_footer os value w.tc6).1 })

  pub data Reach (os : Platform D) (w : World D) : World D → Type 0 where
    here : Reach os w w
    next : {w1 w2 : World D} → Reach os w w1 → Step os w1 w2 → Reach os w w2

  -- What was taken over is what was received, and behind it what is still in the queue.
  pub record IsFifo (w : World D) : Type 0 where
    pub order : w.delivered ++ outstanding w.tc6 ≡ w.accepted
    pub part : w.part ≡ sent_part w.tc6
    pub sendable : IsSendable w.tc6

  one_chunk :
      (t t' : Tc6 D)
      → Sent 1 t t'
      → let c = take_chunk (sent_part t) t.spi_data_tx_buf_offset t'.spi_data_tx_buf in
        (c.0 ++ outstanding t' ≡ outstanding t) × (c.1 ≡ sent_part t')
  unfolding receive
  one_chunk t t' s =
      let c = take_chunk (sent_part t) t.spi_data_tx_buf_offset t'.spi_data_tx_buf in
      (ap (λ fs. fs ++ outstanding t') (sym (append-nil c.0)) ∙ s.frames, s.part)

  with_chunk-IsFifo :
      (w : World D) (t' : Tc6 D) → Sent 1 w.tc6 t' → IsFifo w → IsFifo (with_chunk w t')
  with_chunk-IsFifo w t' s h =
      let (f, p) = one_chunk w.tc6 t' s in
      let read : List ℕ → List (List ℕ) × List ℕ =
        λ a. take_chunk a w.tc6.spi_data_tx_buf_offset t'.spi_data_tx_buf in
      record {
        order =
            append_assoc w.delivered (read w.part).0 (outstanding t')
            ∙ ap (λ a. w.delivered ++ ((read a).0 ++ outstanding t')) h.part
            ∙ ap (λ fs. w.delivered ++ fs) f
            ∙ h.order;
        part = ap (λ a. (read a).1) h.part ∙ p;
        sendable = s.sendable;
      }

  -- `oa_tc6_start_xmit` puts the frame that it takes over at the end of the queue.
  start_xmit-queue :
      (os : Platform D) (skb : Skb) (ts_capture_mode : ℕ) (t : Tc6 D)
      → CanSend 0 (some skb)
      → IsSendable t
      → let t' = (start_xmit os skb ts_capture_mode t).1 in
        (outstanding t' ≡ outstanding t ++ taken_over os skb t)
        × (sent_part t' ≡ sent_part t)
        × CanSend t'.tx_skb_offset t'.ongoing_tx_skb
        × CanSend 0 t'.waiting_tx_skb
        × (t'.spi_data_tx_buf ≡ t.spi_data_tx_buf)
  unfolding start_xmit
  start_xmit-queue os skb ts_capture_mode t c v =
      ground (arith, append-nil (outstanding t), append-nil t.spi_data_tx_buf)

  footer-queue :
      (os : Platform D) (value : ℕ) (t : Tc6 D)
      → bit_get 31 value ≡ 0
      → (process_rx_chunk_footer os value t).1
        ≡ record t { tx_credits = value / 2 % 32; rx_chunks_available = value / 2 ^ 24 % 32 }
  unfolding process_rx_chunk_footer footer_errors
  footer-queue os value t e = ground arith

  Step-IsFifo : {os : Platform D} {w w' : World D} → Step os w w' → IsFifo w → IsFifo w'
  unfolding macphy_isr
  Step-IsFifo {os = os} (xmit w skb ts c) h =
      let (q, p, ongoing, waiting, buf) = start_xmit-queue os skb ts w.tc6 c h.sendable in
      record {
        order =
            ap (λ fs. w.delivered ++ fs) q
            ∙ sym (append_assoc w.delivered (outstanding w.tc6) (taken_over os skb w.tc6))
            ∙ ap (λ fs. fs ++ taken_over os skb w.tc6) h.order;
        part = h.part ∙ sym p;
        sendable = record {
          ongoing = ongoing;
          waiting = waiting;
          size = omega (arith, h.sendable.size, ap length buf);
        };
      }
  Step-IsFifo (isr w) h = record {
    order = h.order;
    part = h.part;
    sendable = record {
      ongoing = h.sendable.ongoing;
      waiting = h.sendable.waiting;
      size = h.sendable.size;
    };
  }
  Step-IsFifo (start w) h = record {
    order = h.order;
    part = h.part;
    sendable = record {
      ongoing = h.sendable.ongoing;
      waiting = h.sendable.waiting;
      size = h.sendable.size;
    };
  }
  Step-IsFifo (fetch w) h =
      let (v, p, q, b, o, r, i) = fetch_waiting-keeps w.tc6 h.sendable in
      record {
        order = ap (λ fs. w.delivered ++ fs) q ∙ h.order;
        part = h.part ∙ sym p;
        sendable = v;
      }
  Step-IsFifo (chunk w skb t' room e a) h =
      let (t1, a1, s) = add_tx_chunk-Sent skb w.tc6 e h.sendable room in
      with_chunk-IsFifo w t' (subst (Sent 1 w.tc6) (ap (λ r. r.1) (sym a1 ∙ a)) s) h
  Step-IsFifo (empty_chunk w t' room a) h =
      let (t1, a1, s, q) = add_empty_chunks_to_spi_buf-Sent 1 w.tc6 h.sendable (omega arith) in
      with_chunk-IsFifo w t' (subst (Sent 1 w.tc6) (ap (λ r. r.1) (sym a1 ∙ a)) s) h
  Step-IsFifo {os = os} (footer w value e) h =
      subst (λ t. IsFifo (record w { tc6 = t })) (sym (footer-queue os value w.tc6 e))
        (record {
          order = h.order;
          part = h.part;
          sendable = record {
            ongoing = h.sendable.ongoing;
            waiting = h.sendable.waiting;
            size = h.sendable.size;
          };
        })

  -- However the calls of the network stack, the interrupts and the steps of the transfer thread
  -- follow one another, the frames taken over from the stack are those that the receiver has put
  -- together, each once and in order, followed by those still in the queue; the receiver has
  -- exactly the sent part of the frame in progress. This holds of a start from any such state.
  pub Reach-IsFifo : {os : Platform D} {w w' : World D} → IsFifo w → Reach os w w' → IsFifo w'
  Reach-IsFifo h here = h
  Reach-IsFifo h (next r s) = Step-IsFifo s (Reach-IsFifo h r)
