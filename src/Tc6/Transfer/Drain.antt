-- ===== src/Tc6/Transfer/Drain.antt =====
-- How `oa_tc6_try_spi_transfer` empties the transmit queue over a device that gives credits.
pub mod Reply
pub mod Idle
use base_t1s.Prelude.{
  ℕ, ◌+◌, ◌*◌, ◌≤◌, ◌<◌, List, ◌++◌, ◌==◌, ok, ◌≡◌, refl, arith, ap, sym, subst, ◌∙◌, length, take,
  inl, inr, false, overwrite, slice-overwrite, length-overwrite, length-take, take_all,
  append_assoc, take-drop-take, Bool-cases, not, ◌&&◌,
}
use base_t1s.Word.{from_be32}
use base_t1s.Tc6.State.{
  Tc6, NetDev, from_status, Platform, spi_data_buf_size, max_tx_chunks, chunk_size,
}
use base_t1s.Tc6.Ctrl.{data_header, spi_transfer}
use base_t1s.Tc6.Rx.{process_spi_data_rx_buf}
use base_t1s.Tc6.Tx.Sink.{receive}
use base_t1s.Tc6.Tx.Join.{receive-local}
use base_t1s.Tc6.Tx.Stream.{IsSendable, Sent, sent_part, outstanding}
use base_t1s.Tc6.Tx.Left.{chunks_left}
use base_t1s.Tc6.Transfer.{
  is_set, finished, again, prepare_round, wake_queue, finish_round, process_reply, transfer_round,
}
use base_t1s.Tc6.Transfer.Kept.{received}
use base_t1s.Tc6.Rx.Chunks.{footer_of}
use base_t1s.Tc6.Transfer.Quiet.{IsQuiet, credited, process_spi_data_rx_buf-quiet}

-- A device that puts the frames together again from the chunks of a data transfer, and answers each
-- chunk with credit and without receive data.
pub record ChunkDevice {D : Type 0} (os : Platform D) : Type 1 where
  pub got : D → List (List ℕ)
  pub part : D → List ℕ
  pub IsReady : D → Type 0
  pub data_transfer :
      (d : D) (k : ℕ) (sent : List ℕ)
      → IsReady d
      → 1 ≤ k
      → k ≤ max_tx_chunks
      → length sent ≡ k * chunk_size
      → (r : List ℕ) × (d' : D) × (os.spi_sync d sent ≡ (record { status = 0; bytes = r }, d'))
        × (length r ≡ k * chunk_size)
        × ((j : ℕ) → j < k → IsQuiet (footer_of j r))
        × (got d' ≡ got d ++ (receive k 0 (part d) sent).0)
        × (part d' ≡ (receive k 0 (part d) sent).1)
        × IsReady d'
  pub linearize :
      (d : D) (b : List ℕ)
      → IsReady d
      → (d' : D) × (os.skb_linearize d b ≡ (0, d'))
        × (got d' ≡ got d)
        × (part d' ≡ part d)
        × IsReady d'

module _ {D : Type 0} {os : Platform D} (c : ChunkDevice os) where
  -- A state from which the loop works the queue off: the allocated buffers, a queue that can be
  -- sent, credit, and a device that has what has been sent of the frame in progress.
  pub record CanDrain (t : Tc6 D) : Type 0 where
    pub sendable : IsSendable t
    pub data_tx : length t.spi_data_tx_buf ≡ spi_data_buf_size
    pub data_rx : length t.spi_data_rx_buf ≡ spi_data_buf_size
    pub some_credit : 1 ≤ t.tx_credits
    pub credits : t.tx_credits ≤ max_tx_chunks
    pub rx_chunks : t.rx_chunks_available ≤ max_tx_chunks
    pub ready : c.IsReady t.dev
    pub in_part : c.part t.dev ≡ sent_part t

  -- What the device has got and what it is still to get.
  abbrev pub delivered : Tc6 D → List (List ℕ)
  delivered t = c.got t.dev ++ outstanding t
