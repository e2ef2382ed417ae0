-- ===== src/Tc6/Transfer/Drain/Reply.antt =====
-- A round of `oa_tc6_try_spi_transfer` over a device that gives credit, with chunks to transfer.
use base_t1s.Prelude.{
  ℕ, ◌*◌, ◌≤◌, ◌<◌, List, ◌++◌, ok, ◌≡◌, refl, arith, ap, sym, subst, ◌∙◌, length, take,
  length-overwrite, length-take, append_assoc,
}
use base_t1s.Tc6.State.{Tc6, NetDev, Platform, spi_data_buf_size, max_tx_chunks, chunk_size}
use base_t1s.Tc6.Tx.Sink.{receive}
use base_t1s.Tc6.Tx.Stream.{Sent, sent_part, outstanding}
use base_t1s.Tc6.Tx.Left.{chunks_left}
use base_t1s.Tc6.Transfer.Steps.{
  replied, spi_transfer-replied, process_reply-again, wake_queue-netdev, receive-take,
  footer-replied, transfer_round-steps,
}
use base_t1s.Tc6.Transfer.{again, prepare_round, process_reply, transfer_round}
use base_t1s.Tc6.Transfer.Kept.{received}
use base_t1s.Tc6.Rx.Chunks.{footer_of}
use base_t1s.Tc6.Transfer.Quiet.{IsQuiet, credited, process_spi_data_rx_buf-quiet}
use base_t1s.Tc6.Transfer.Drain.{ChunkDevice, CanDrain, delivered}

module _ {D : Type 0} {os : Platform D} (c : ChunkDevice os) where
  -- What a round with `k` chunks does, from the state `t1` that its preparation leaves.
  module _ (k : ℕ) (t t1 : Tc6 D) (g : CanDrain c t) (same : received t1 ≡ received t)
      (s : Sent k
        (record t { spi_data_tx_buf_offset = 0 })
        (record t1 { int_flag = t.int_flag })) where
    from_part :
        receive k 0 (c.part t1.dev) (take (k * chunk_size) t1.spi_data_tx_buf)
        ≡ receive k 0 (sent_part t) t1.spi_data_tx_buf
    from_part =
        receive-take os k (c.part t1.dev) t1.spi_data_tx_buf
        ∙ ap (λ d. receive k 0 (c.part d) t1.spi_data_tx_buf) (ap (λ x. x.0) same)
        ∙ ap (λ acc. receive k 0 acc t1.spi_data_tx_buf) g.in_part

    -- The state behind the reply `r`, with `n` credits, and the queue woken.
    abbrev settled : List ℕ → D → ℕ → NetDev → Tc6 D
    settled r d n net = record (credited n (replied os t1 r d)) { netdev = net }

    settled-CanDrain :
        (r : List ℕ) (d : D) (n : ℕ) (net : NetDev)
        → 1 ≤ n
        → n ≤ 31
        → c.part d ≡ (receive k 0 (c.part t1.dev) (take (k * chunk_size) t1.spi_data_tx_buf)).1
        → c.IsReady d
        → CanDrain c (settled r d n net)
    settled-CanDrain r d n net l u part ready = record {
      sendable = record {
        ongoing = s.sendable.ongoing;
        waiting = s.sendable.waiting;
        size = s.sendable.size;
      };
      data_tx = s.same_length ∙ g.data_tx;
      data_rx = length-overwrite t1.spi_data_rx_buf r ∙ ap (λ x. length x.1) same ∙ g.data_rx;
      some_credit = l;
      credits = omega arith;
      rx_chunks = omega arith;
      ready = ready;
      in_part = part ∙ ap (λ x. x.1) from_part ∙ s.part;
    }

    settled-delivered :
        (r : List ℕ) (d : D) (n : ℕ) (net : NetDev)
        → c.got d
          ≡ c.got t1.dev
            ++ (receive k 0 (c.part t1.dev) (take (k * chunk_size) t1.spi_data_tx_buf)).0
        → delivered c (settled r d n net) ≡ delivered c t
    settled-delivered r d n net got =
        ap (λ fs. fs ++ outstanding t1) (got ∙ ap (λ x. c.got t1.dev ++ x.0) from_part)
        ∙ append_assoc (c.got t1.dev) (receive k 0 (sent_part t) t1.spi_data_tx_buf).0
            (outstanding t1)
        ∙ ap (λ fs. c.got t1.dev ++ fs) s.frames
        ∙ ap (λ x. c.got x.0 ++ outstanding t) same

    -- The reply is read to its end, and the loop goes on.
    reply_read :
        (r : List ℕ) (d : D)
        → 1 ≤ k
        → k ≤ max_tx_chunks
        → length r ≡ k * chunk_size
        → ((j : ℕ) → j < k → IsQuiet (footer_of j r))
        → (n : ℕ) × (net : NetDev) × (process_reply os (k * chunk_size) (replied os t1 r d)
            ≡ (ok again, settled r d n net))
          × (1 ≤ n)
          × (n ≤ 31)
    reply_read r d l u rl quiet =
        let t2 = replied os t1 r d in
        let rx_long : length t1.spi_data_rx_buf ≡ spi_data_buf_size =
          ap (λ x. length x.1) same ∙ g.data_rx in
        let (n, processed, n_min, n_max) =
          process_spi_data_rx_buf-quiet os k t2 l u
            (length-overwrite t1.spi_data_rx_buf r ∙ rx_long)
            (λ j lt.
              subst IsQuiet (sym (footer-replied os k j t1.spi_data_rx_buf r lt u rx_long rl))
                (quiet j lt)) in
        let (net, woken) = wake_queue-netdev os (credited n t2) in
        (
          n,
          net,
          process_reply-again os (k * chunk_size) t2 (credited n t2) processed
              ∙ ap (λ x. (ok again, x)) woken,
          n_min,
          n_max,
        )

    pub replied_round :
        prepare_round t ≡ (ok (k * chunk_size), t1)
        → 1 ≤ k
        → k ≤ max_tx_chunks
        → (t' : Tc6 D) × (transfer_round os t ≡ (ok again, t'))
          × CanDrain c t'
          × (t'.rx_chunks_available ≡ 0)
          × (t'.int_flag ≡ t1.int_flag)
          × (chunks_left t' ≡ chunks_left t1)
          × (delivered c t' ≡ delivered c t)
    replied_round e l u =
        let ready : c.IsReady t1.dev = subst (λ x. c.IsReady x.0) (sym same) g.ready in
        let (r, d, sync, rl, quiet, got, part, ready') =
          c.data_transfer t1.dev k (take (k * chunk_size) t1.spi_data_tx_buf) ready l u (
            omega
              (arith, length-take (k * chunk_size) t1.spi_data_tx_buf, s.same_length, g.data_tx)) in
        let (n, net, read, n_min, n_max) = reply_read r d l u rl quiet in
        (
          settled r d n net,
          transfer_round-steps os (k * chunk_size) t t1 (replied os t1 r d) e (omega arith)
                (spi_transfer-replied os (k * chunk_size) t1 r d rl sync)
              ∙ read,
          settled-CanDrain r d n net n_min n_max part ready',
          refl,
          refl,
          refl,
          settled-delivered r d n net got,
        )
