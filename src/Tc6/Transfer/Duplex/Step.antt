-- ===== src/Tc6/Transfer/Duplex/Step.antt =====
-- What a round of `oa_tc6_try_spi_transfer` with chunks to transfer leaves to do, in both
-- directions.
use base_t1s.Prelude.{
  ℕ, ◌+◌, ◌-◌, ◌*◌, ◌≤◌, Bool, false, List, [], ◌++◌, Option, ok, ◌≡◌, refl, arith, ap, sym, subst,
  ◌∙◌, length, take, drop, length-take, append_assoc, take-append-drop, map,
}
use base_t1s.Word.{field_get}
use base_t1s.Tc6.State.{Tc6, Platform, max_tx_chunks, chunk_size}
use base_t1s.Tc6.Tx.Sink.{receive}
use base_t1s.Tc6.Tx.Stream.{Sent, sent_part, outstanding, frames_of, partial_of, CanSend}
use base_t1s.Tc6.Tx.Left.{chunks_left, chunks_behind}
use base_t1s.Tc6.Transfer.{again, prepare_round, transfer_round}
use base_t1s.Tc6.Transfer.Kept.{received}
use base_t1s.Tc6.Transfer.Steps.{replied, spi_transfer-replied, transfer_round-steps}
use base_t1s.Tc6.Rx.Chunks.{footer_of}
use base_t1s.Tc6.Rx.Source.{reassemble, InOrder}
use base_t1s.Tc6.Rx.Source.Cut.{data_only, reassemble-data_only, InOrder-data_only, InOrder-append}
use base_t1s.Tc6.Rx.Tracks.{Tracks, Handed, tx_side}
use base_t1s.Tc6.Rx.Tracks.Chunk.{Reported}
use base_t1s.Tc6.Transfer.Duplex.{DuplexDevice, allocator, CanExchange}
use base_t1s.Tc6.Transfer.Duplex.Reply.{InPart-moved, from_part, reply_read}

module _ {D : Type 0} {os : Platform D} (c : DuplexDevice os) (timed : Bool) (mtu : ℕ) where
  -- A round with `k` chunks is over and the loop goes on: the device and the network stack have
  -- got what these chunks complete, and the rest is left.
  pub record WentOn (k : ℕ) (t : Tc6 D) (part : Option (List ℕ)) (t' : Tc6 D) : Type 0 where
    pub exchange : CanExchange c timed mtu t' (reassemble part (take k (c.to_send t.dev))).1
    pub handed :
        Handed (allocator c timed mtu) timed mtu t (reassemble part (take k (c.to_send t.dev))).0 t'
    pub delivered : c.got t'.dev ++ outstanding t' ≡ c.got t.dev ++ outstanding t
    pub to_come : c.to_send t'.dev ≡ drop k (c.to_send t.dev)
    pub known : c.to_send t'.dev ≡ [] → t'.rx_chunks_available ≡ 0
    pub flag : t'.int_flag ≡ false
    pub left : chunks_left t' ≡ chunks_left t - t.tx_credits

  -- A round with `k` chunks, from the state `t1` that its preparation leaves.
  module _ (k : ℕ) (t t1 : Tc6 D) (part : Option (List ℕ)) (g : CanExchange c timed mtu t part)
      (same : received t1 ≡ received t)
      (s : Sent k (record t { spi_data_tx_buf_offset = 0 }) (record t1 { int_flag = t.int_flag }))
      (flag : t1.int_flag ≡ false) (left : chunks_left t1 ≡ chunks_left t - t.tx_credits) where
    in_both :
        InOrder (mtu + 18) part (take k (c.to_send t.dev))
        × InOrder
            (mtu + 18)
            (reassemble part (take k (c.to_send t.dev))).1
            (drop k (c.to_send t.dev))
    in_both =
        InOrder-append (mtu + 18) part (take k (c.to_send t.dev)) (drop k (c.to_send t.dev))
          (subst (InOrder (mtu + 18) part) (sym (take-append-drop k (c.to_send t.dev))) g.in_order)

    -- The state `t3` behind the reply, from which only the queue is still to be woken.
    module _ (r : List ℕ) (d : D) (t3 : Tc6 D) (b : Bool)
        (tracks : Tracks
          (allocator c timed mtu)
          timed
          mtu
          t3
          (reassemble part (take k (c.to_send t.dev))).1)
        (handed : Handed
          (allocator c timed mtu)
          timed
          mtu
          (replied os t1 r d)
          (reassemble part (take k (c.to_send t.dev))).0
          t3)
        (kept : tx_side (allocator c timed mtu) timed mtu t3
          ≡ tx_side (allocator c timed mtu) timed mtu (replied os t1 r d))
        (f : ℕ) (reported : Reported (allocator c timed mtu) timed mtu f t3)
        (credit : 1 ≤ field_get 5 1 f) (some_left : field_get 28 24 f ≡ 0 → c.to_send d ≡ [])
        (none_left : c.to_send d ≡ [] → field_get 28 24 f ≡ 0)
        (got : c.got d
          ≡ c.got t1.dev
            ++ (receive k 0 (c.part t1.dev) (take (k * chunk_size) t1.spi_data_tx_buf)).0)
        (in_part : c.part d
          ≡ (receive k 0 (c.part t1.dev) (take (k * chunk_size) t1.spi_data_tx_buf)).1)
        (to_come : c.to_send d ≡ drop k (c.to_send t1.dev)) where
      abbrev woken : Tc6 D
      woken = record t3 { netdev = record t3.netdev { queue_stopped = b } }

      woken-to_send : c.to_send woken.dev ≡ c.to_send d
      woken-to_send = ap (λ x. x.6.left_to_send) kept

      woken-to_come : c.to_send woken.dev ≡ drop k (c.to_send t.dev)
      woken-to_come = woken-to_send ∙ to_come ∙ ap (λ x. drop k (c.to_send x.0)) same

      woken-CanExchange :
          CanExchange c timed mtu woken (reassemble part (take k (c.to_send t.dev))).1
      woken-CanExchange = record {
        sendable = record {
          ongoing = subst (λ x. CanSend x.4 x.2) (sym kept) s.sendable.ongoing;
          waiting = subst (λ x. CanSend 0 x.3) (sym kept) s.sendable.waiting;
          size = omega (arith, ap (λ x. length x.1) kept, s.sendable.size);
        };
        data_tx = ap (λ x. length x.1) kept ∙ s.same_length ∙ g.data_tx;
        some_credit = omega (arith, reported.0, credit);
        credits = omega (arith, reported.0);
        rx_chunks = omega (arith, reported.1);
        in_part =
            ap (λ x. x.6.part_got) kept
            ∙ in_part
            ∙ ap (λ x. x.1) (from_part c timed mtu k t t1 part g same)
            ∙ s.part
            ∙ sym (ap (λ x. partial_of x.4 x.2) kept);
        tracks = record {
          buffer = tracks.buffer;
          filter = tracks.filter;
          mtu_set = tracks.mtu_set;
          ready = tracks.ready;
          in_part =
              InPart-moved timed (mtu + 18) t3 woken (reassemble part (take k (c.to_send t.dev))).1
                refl refl tracks.in_part;
        };
        announced = λ z off. woken-to_send ∙ some_left (sym reported.1 ∙ z);
        in_order =
            subst (InOrder (mtu + 18) (reassemble part (take k (c.to_send t.dev))).1)
              (sym woken-to_come) in_both.1;
      }

      woken-Handed :
          Handed
            (allocator c timed mtu)
            timed
            mtu
            t
            (reassemble part (take k (c.to_send t.dev))).0
            woken
      woken-Handed = record {
        skbs = handed.skbs;
        passed = handed.passed ∙ ap (λ x. x.5 ++ map os.eth_type_trans handed.skbs) same;
        whole = handed.whole;
        packets = omega (arith, handed.packets, ap (λ x. x.6) same);
      }

      woken-delivered : c.got woken.dev ++ outstanding woken ≡ c.got t.dev ++ outstanding t
      woken-delivered =
          ap (λ x. x.6.frames_got ++ (frames_of x.2 ++ frames_of x.3)) kept
          ∙ ap (λ fs. fs ++ outstanding t1)
              (got ∙ ap (λ x. c.got t1.dev ++ x.0) (from_part c timed mtu k t t1 part g same))
          ∙ append_assoc (c.got t1.dev) (receive k 0 (sent_part t) t1.spi_data_tx_buf).0
              (outstanding t1)
          ∙ ap (λ fs. c.got t1.dev ++ fs) s.frames
          ∙ ap (λ x. c.got x.0 ++ outstanding t) same

      woken-WentOn : WentOn k t part woken
      woken-WentOn = record {
        exchange = woken-CanExchange;
        handed = woken-Handed;
        delivered = woken-delivered;
        to_come = woken-to_come;
        known = λ e. reported.1 ∙ none_left (sym woken-to_send ∙ e);
        flag = ap (λ x. x.5) kept ∙ flag;
        left = ap (λ x. chunks_behind x.4 x.2 + chunks_behind 0 x.3) kept ∙ left;
      }

    pub replied_round :
        prepare_round t ≡ (ok (k * chunk_size), t1)
        → 1 ≤ k
        → k ≤ max_tx_chunks
        → (t' : Tc6 D) × (transfer_round os t ≡ (ok again, t')) × WentOn k t part t'
    replied_round e l u =
        let ready : c.IsReady t1.dev = subst (λ x. c.IsReady x.0) (sym same) g.tracks.ready in
        let (
          r,
          d,
          cs,
          sync,
          rl,
          (count, holds, taken),
          (credit, some_left, none_left),
          got,
          in_part,
          to_come,
          ready',
        ) =
          c.data_transfer t1.dev k (take (k * chunk_size) t1.spi_data_tx_buf) ready l u (
            omega
              (arith, length-take (k * chunk_size) t1.spi_data_tx_buf, s.same_length, g.data_tx)) in
        let these : data_only cs ≡ take k (c.to_send t.dev) =
          taken ∙ ap (λ x. take k (c.to_send x.0)) same in
        let order : InOrder (mtu + 18) part cs =
          InOrder-data_only (mtu + 18) part cs
            (subst (InOrder (mtu + 18) part) (sym these) in_both.0) in
        let (t3, b, read, tracks, handed, kept, reported) =
          reply_read c timed mtu k t t1 part g same r d cs l u ready' rl count holds order in
        let whole : reassemble part cs ≡ reassemble part (take k (c.to_send t.dev)) =
          sym (reassemble-data_only part cs) ∙ ap (reassemble part) these in
        (
          record t3 { netdev = record t3.netdev { queue_stopped = b } },
          subst (λ x. x ≡ (ok again, record t3 { netdev = record t3.netdev { queue_stopped = b } }))
              (sym (
                transfer_round-steps os (k * chunk_size) t t1 (replied os t1 r d) e (omega arith)
                  (spi_transfer-replied os (k * chunk_size) t1 r d rl sync)))
              read,
          woken-WentOn r d t3 b
              (subst (λ x. Tracks (allocator c timed mtu) timed mtu t3 x.1) whole tracks)
              (subst (λ x. Handed (allocator c timed mtu) timed mtu (replied os t1 r d) x.0 t3)
                whole handed)
              kept (footer_of (k - 1) r) reported credit some_left none_left got in_part to_come,
        )
