-- ===== src/Tc6/Transfer/Duplex.antt =====
-- `oa_tc6_try_spi_transfer` over a device that takes frames and has frames to send at the same
-- time.
pub mod Reply
pub mod Step
pub mod Exchange
pub mod Frames
pub mod Events
pub mod Work
pub mod Service
use base_t1s.Prelude.{
  ℕ, ◌+◌, ◌-◌, ◌*◌, ◌≤◌, ◌<◌, Bool, false, List, [], ◌++◌, Option, some, none, ◌≡◌, length, take,
  drop,
}
use base_t1s.Word.{field_get}
use base_t1s.Tc6.State.{Tc6, Platform, spi_data_buf_size, max_tx_chunks, chunk_size}
use base_t1s.Tc6.Tx.Sink.{receive}
use base_t1s.Tc6.Tx.Stream.{IsSendable, sent_part}
use base_t1s.Tc6.Rx.Chunks.{footer_of}
use base_t1s.Tc6.Rx.Source.{RxChunk, HoldsChunks, InOrder}
use base_t1s.Tc6.Rx.Source.Cut.{data_only}
use base_t1s.Tc6.Rx.Tracks.{RxAllocator, Tracks}

-- What of the device has to do with frames.
pub record Seen : Type 0 where
  pub frames_got : List (List ℕ)
  pub part_got : List ℕ
  pub left_to_send : List RxChunk

abbrev pub seen_as : List (List ℕ) → List ℕ → List RxChunk → Seen
seen_as g p s = record { frames_got = g; part_got = p; left_to_send = s }

-- A device that puts the frames together from the chunks of a data transfer, and answers with the
-- chunks that it has to send, in order, for as long as there are any. Its last footer gives
-- credit, and announces chunks exactly if there are more. The network stack always has a buffer
-- of the size that was asked for.
pub record DuplexDevice {D : Type 0} (os : Platform D) : Type 1 where
  pub got : D → List (List ℕ)
  pub part : D → List ℕ
  pub to_send : D → List RxChunk
  pub IsReady : D → Type 0
  pub data_transfer :
      (d : D) (k : ℕ) (sent : List ℕ)
      → IsReady d
      → 1 ≤ k
      → k ≤ max_tx_chunks
      → length sent ≡ k * chunk_size
      → (r : List ℕ) × (d' : D) × (cs : List RxChunk) × (os.spi_sync d sent
          ≡ (record { status = 0; bytes = r }, d'))
        × (length r ≡ k * chunk_size)
        × ((length cs ≡ k) × HoldsChunks r 0 cs × (data_only cs ≡ take k (to_send d)))
        × ((1 ≤ field_get 5 1 (footer_of (k - 1) r))
            × (field_get 28 24 (footer_of (k - 1) r) ≡ 0 → to_send d' ≡ [])
            × (to_send d' ≡ [] → field_get 28 24 (footer_of (k - 1) r) ≡ 0))
        × (got d' ≡ got d ++ (receive k 0 (part d) sent).0)
        × (part d' ≡ (receive k 0 (part d) sent).1)
        × (to_send d' ≡ drop k (to_send d))
        × IsReady d'
  pub alloc :
      (d : D) (n : ℕ)
      → IsReady d
      → (room : ℕ) × (d' : D) × (os.alloc_skb d n ≡ (some room, d'))
        × (n ≤ room)
        × IsReady d'
        × (seen_as (got d') (part d') (to_send d') ≡ seen_as (got d) (part d) (to_send d))

module _ {D : Type 0} {os : Platform D} (c : DuplexDevice os) (timed : Bool) (mtu : ℕ) where
  abbrev pub allocator : RxAllocator os Seen
  allocator = record {
    IsReady = c.IsReady;
    seen = λ d. seen_as (c.got d) (c.part d) (c.to_send d);
    alloc = c.alloc;
  }

  -- A state from which the loop works off what is to be sent and what is to be received, `part`
  -- of which has come: the allocated buffers, a queue that can be sent, credit, a device that has
  -- what has been sent of the frame in progress, and chunks of the device in order, of which the
  -- driver knows.
  pub record CanExchange (t : Tc6 D) (part : Option (List ℕ)) : Type 0 where
    pub sendable : IsSendable t
    pub data_tx : length t.spi_data_tx_buf ≡ spi_data_buf_size
    pub some_credit : 1 ≤ t.tx_credits
    pub credits : t.tx_credits ≤ max_tx_chunks
    pub rx_chunks : t.rx_chunks_available ≤ max_tx_chunks
    pub in_part : c.part t.dev ≡ sent_part t
    pub tracks : Tracks allocator timed mtu t part
    pub announced : t.rx_chunks_available ≡ 0 → t.int_flag ≡ false → c.to_send t.dev ≡ []
    pub in_order : InOrder (mtu + 18) part (c.to_send t.dev)
