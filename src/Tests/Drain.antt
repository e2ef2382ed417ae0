-- ===== src/Tests/Drain.antt =====
-- A device that takes the data chunks of the driver, and frames that the thread sends to it.
use base_t1s.Prelude.{
  ℕ, zero, suc, ◌+◌, ◌*◌, ◌/◌, ◌≤◌, ◌<◌, List, [], ◌∷◌, ◌++◌, ok, some, none, ◌≡◌, refl, ap, ◌∙◌,
  arith, length, length-replicate, take, drop, length-append, drop-append, replicate, subst, sym,
}
use base_t1s.Word.{from_be32}
use base_t1s.Tc6.State.{Tc6, Skb, Platform, max_tx_chunks, chunk_size}
use base_t1s.Tc6.Tx.Sink.{receive}
use base_t1s.Tc6.Tx.Stream.{outstanding}
use base_t1s.Tc6.Rx.Chunks.{footer_of}
use base_t1s.Tc6.Transfer.Quiet.{IsQuiet}
use base_t1s.Tc6.Transfer.Drain.{ChunkDevice, CanDrain}
use base_t1s.Tc6.Transfer.Thread.{stopped, spi_thread_handler}
use base_t1s.Tc6.Transfer.Service.{AllFit, wake_ups, spi_thread_handler-Delivers}
use base_t1s.Tests.Inputs.{frame, queued_on, queued_on-HasBuffers}

-- A chunk without receive data, and credit for one chunk more.
abbrev empty_chunk : List ℕ
empty_chunk = replicate 64 0 ++ (0x20 ∷ 0 ∷ 0 ∷ 2 ∷ [])

abbrev empty_chunks : ℕ → List ℕ
empty_chunks zero = []
empty_chunks (suc k) = empty_chunk ++ empty_chunks k

length-empty_chunks : (k : ℕ) → length (empty_chunks k) ≡ k * 68
length-empty_chunks zero = refl
length-empty_chunks (suc k) =
    omega (arith, length-append empty_chunk (empty_chunks k), length-empty_chunks k)

footer-empty_chunks : (j k : ℕ) → j < k → footer_of j (empty_chunks k) ≡ 0x20000002
footer-empty_chunks j zero h = absurd (omega arith)
footer-empty_chunks zero (suc k) h = refl
footer-empty_chunks (suc j) (suc k) h =
    let step : suc j * 68 + 64 ≡ 68 + (j * 68 + 64) = omega arith in
    ap (λ n. from_be32 (take 4 (drop n (empty_chunks (suc k))))) step
    ∙ ap (λ b. from_be32 (take 4 b))
        (drop-append 68 (j * 68 + 64) empty_chunk (empty_chunks k) refl)
    ∙ footer-empty_chunks j k (omega arith)

footer-IsQuiet : IsQuiet 0x20000002
footer-IsQuiet = record {
  no_status = refl;
  good_header = refl;
  in_step = refl;
  no_data = refl;
  no_chunks = refl;
  credits = omega arith;
}

-- The frames that have been put together, and the part of the next.
abbrev Frames : Type 0
Frames = List (List ℕ) × List ℕ

abbrev take_in : Frames → ℕ → List ℕ → Frames
take_in d k sent = (d.0 ++ (receive k 0 d.1 sent).0, (receive k 0 d.1 sent).1)

abbrev sink : Platform Frames
sink = record {
  spi_sync = λ d b.
      (record { status = 0; bytes = empty_chunks (length b / 68) }, take_in d (length b / 68) b);
  alloc_skb = λ d n. (some 2000, d);
  skb_linearize = λ d b. (0, d);
  eth_type_trans = λ s. s;
}

sink_transfer :
    (d : Frames) (k : ℕ) (sent : List ℕ)
    → Unit {0}
    → 1 ≤ k
    → k ≤ max_tx_chunks
    → length sent ≡ k * chunk_size
    → (r : List ℕ) × (d' : Frames) × (sink.spi_sync d sent ≡ (record { status = 0; bytes = r }, d'))
      × (length r ≡ k * chunk_size)
      × ((j : ℕ) → j < k → IsQuiet (footer_of j r))
      × (d'.0 ≡ d.0 ++ (receive k 0 d.1 sent).0)
      × (d'.1 ≡ (receive k 0 d.1 sent).1)
      × Unit {0}
sink_transfer d k sent up l u long =
    let count : length sent / 68 ≡ k = omega arith in
    (
      empty_chunks k,
      take_in d k sent,
      ap (λ n. (record { status = 0; bytes = empty_chunks n }, take_in d n sent)) count,
      length-empty_chunks k,
      λ j lt. subst IsQuiet (sym (footer-empty_chunks j k lt)) footer-IsQuiet,
      refl,
      refl,
      tt,
    )

abbrev sink_device : ChunkDevice sink
sink_device = record {
  got = λ d. d.0;
  part = λ d. d.1;
  IsReady = λ d. Unit {0};
  data_transfer = sink_transfer;
  linearize = λ d b up. (d, refl, refl, refl, tt);
}

-- Nothing is queued, and the device has got nothing yet.
abbrev nothing_queued : Tc6 Frames
nothing_queued = record (queued_on ([], [])) {
  ongoing_tx_skb = none;
  waiting_tx_skb = none;
  tx_skb_offset = 0;
}

nothing_queued-CanDrain : CanDrain sink_device nothing_queued
nothing_queued-CanDrain =
    let b = queued_on-HasBuffers {D = Frames} ([], []) in
    record {
      sendable = record { ongoing = refl; waiting = refl; size = omega (arith, b.data_tx) };
      data_tx = b.data_tx;
      data_rx = b.data_rx;
      some_credit = omega arith;
      credits = omega arith;
      rx_chunks = omega arith;
      ready = tt;
      in_part = refl;
    }

-- A short frame, one that ends with a chunk, and one of 25 chunks.
abbrev three_frames : List Skb
three_frames = frame 60 ∷ frame 128 ∷ frame 1600 ∷ []

three_frames-AllFit : AllFit 27 three_frames
three_frames-AllFit = (
  (omega arith, omega arith, omega arith),
  (
    (omega arith, omega arith, omega arith),
    (
      (
        omega (arith, length-replicate {A = ℕ} 1600 7),
        omega (arith, length-replicate {A = ℕ} 1600 7),
        omega (arith, length-replicate {A = ℕ} 1600 7),
      ),
      tt,
    ),
  ),
)

spi_thread_handler-Delivers_example :
    (t' : Tc6 Frames) × (spi_thread_handler sink 27 (wake_ups sink three_frames) nothing_queued
      ≡ (ok stopped, t'))
    × (t'.dev.0 ≡ replicate 60 7 ∷ replicate 128 7 ∷ replicate 1600 7 ∷ [])
    × (outstanding t' ≡ [])
spi_thread_handler-Delivers_example =
    spi_thread_handler-Delivers sink_device 27 three_frames nothing_queued three_frames-AllFit
      nothing_queued-CanDrain refl
