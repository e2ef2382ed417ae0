-- ===== src/Tests/Receive.antt =====
-- A received frame in a buffer of three chunks.
use base_t1s.Prelude.{
  ℕ, zero, suc, ◌≤◌, ◌<◌, false, List, [], ◌∷◌, ◌++◌, none, ok, ◌≡◌, refl, arith, replicate, take,
  drop, ◌*◌,
}
use base_t1s.Tc6.State.{Tc6}
use base_t1s.Tc6.Rx.{process_spi_data_rx_buf}
use base_t1s.Tc6.Rx.Chunks.{IsMiddle, footer_of}
use base_t1s.Tc6.Rx.Delivery.{Carries, HandsOver, process_spi_data_rx_buf-HandsOver}
use base_t1s.Tests.Inputs.{quiet, queued}

-- The bytes of a frame, as they come behind the time stamp.
abbrev arrived : List ℕ
arrived = replicate 60 7 ++ replicate 64 9

abbrev three_chunks : List ℕ
three_chunks =
    (replicate 8 1 ++ replicate 56 7 ++ (0x20 ∷ 0x30 ∷ 0 ∷ 2 ∷ []))
    ++ (replicate 4 7 ++ replicate 60 9 ++ (0x20 ∷ 0x20 ∷ 0 ∷ 2 ∷ []))
    ++ (replicate 4 9 ++ replicate 4 5 ++ replicate 56 0 ++ (0x20 ∷ 0x20 ∷ 0x47 ∷ 2 ∷ []))
    ++ replicate 3060 0

abbrev with_chunks : Tc6 ℕ
with_chunks = record queued { spi_data_rx_buf = three_chunks }

footer_of-IsMiddle : (j : ℕ) → 1 ≤ j → j < 2 → IsMiddle (footer_of j three_chunks)
footer_of-IsMiddle zero lo hi = absurd (omega arith)
footer_of-IsMiddle (suc zero) lo hi = (
  record { no_status = refl; good_header = refl; in_step = refl; has_payload = refl },
  refl,
  refl,
)
footer_of-IsMiddle (suc (suc j)) lo hi = absurd (omega arith)

three_chunks-payload :
    (j : ℕ)
    → j < 2
    → take 64 (drop (j * 68) three_chunks)
      ≡ take 64 (drop (j * 64) (replicate 8 1 ++ (arrived ++ replicate 4 5)))
three_chunks-payload zero hi = refl
three_chunks-payload (suc zero) hi = refl
three_chunks-payload (suc (suc j)) hi = absurd (omega arith)

three_chunks-Carries : Carries three_chunks (replicate 8 1 ++ (arrived ++ replicate 4 5)) 2 7
three_chunks-Carries = record {
  first = (
    record { no_status = refl; good_header = refl; in_step = refl; has_payload = refl },
    refl,
    refl,
    refl,
  );
  middle = footer_of-IsMiddle;
  last = (
    record { no_status = refl; good_header = refl; in_step = refl; has_payload = refl },
    refl,
    refl,
    refl,
  );
  payload = three_chunks-payload;
  tail = refl;
  size = refl;
}

process_spi_data_rx_buf-HandsOver_example :
    (t' : Tc6 ℕ) × (process_spi_data_rx_buf quiet (3 * 68) with_chunks ≡ (ok tt, t'))
    × HandsOver quiet with_chunks arrived none t'
process_spi_data_rx_buf-HandsOver_example =
    process_spi_data_rx_buf-HandsOver quiet false with_chunks 0 2000 2 7 (replicate 8 1) arrived
      (replicate 4 5) refl (omega arith, omega arith, omega arith, omega arith) (refl, refl)
      three_chunks-Carries refl (omega arith) refl
