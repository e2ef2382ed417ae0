-- ===== src/Tests/Recovery.antt =====
-- A reply behind a receive buffer overflow.
use base_t1s.Prelude.{
  ◌*◌, false, List, [], ◌∷◌, ◌++◌, some, none, ok, ◌≡◌, refl, arith, subst, sym, replicate,
}
use base_t1s.Tc6.State.{Tc6, chunk_size}
use base_t1s.Tc6.Rx.{process_spi_data_rx_buf, status0_outcome}
use base_t1s.Tc6.Rx.Source.{RxChunk, frame_middle, frame_end, reassemble, InOrder}
use base_t1s.Tc6.Rx.Source.Cut.{data_only, InOrder-data_only}
use base_t1s.Tc6.Rx.Tracks.{Tracks, Handed, tx_side}
use base_t1s.Tc6.Rx.Recovery.{process_spi_data_rx_buf-Recovers}
use base_t1s.Tc6.Transfer.Duplex.{allocator}
use base_t1s.Tc6.Transfer.Duplex.Frames.{wire_chunks, wire_chunks-InOrder, AllReceivable}
use base_t1s.Tests.Inputs.{queued_on, queued_on-HasBuffers}
use base_t1s.Tests.Chunks.{encode_all, AllSized, length-encode_all, HoldsChunks-encode_all}
use base_t1s.Tests.Exchange.{short_frame}
use base_t1s.Tests.Peer.{
  Peer, peer, peer_device, fill, fill-AllSized, data_only-fill, wire_chunks-AllData,
}

-- 64 bytes of a frame have come.
abbrev under_way : Tc6 Peer
under_way = record (queued_on (record { frames = []; part = []; to_send = [] })) {
  rx_skb = some (record { bytes = replicate 56 7; tailroom = 1462; hwtstamp = none });
}

under_way-Tracks :
    Tracks (allocator peer_device false 1500) false 1500 under_way (some (replicate 64 7))
under_way-Tracks = record {
  buffer = (queued_on-HasBuffers under_way.dev).data_rx;
  filter = refl;
  mtu_set = refl;
  ready = tt;
  in_part = (
    record { bytes = replicate 56 7; tailroom = 1462; hwtstamp = none },
    refl,
    refl,
    refl,
    refl,
    omega arith,
    omega arith,
  );
}

-- Two chunks of the lost frame, and a short frame behind them.
abbrev lost : List RxChunk
lost = frame_middle (replicate 64 7) ∷ frame_end (replicate 20 7) ∷ []

abbrev behind : List RxChunk
behind = fill 46 (wire_chunks (short_frame ∷ []))

short_frame-AllReceivable : AllReceivable 1518 (short_frame ∷ [])
short_frame-AllReceivable = ((refl, refl, omega arith, omega arith, omega arith), tt)

behind-InOrder : InOrder 1518 none behind
behind-InOrder =
    let same : data_only behind ≡ wire_chunks (short_frame ∷ []) =
      data_only-fill 46 (wire_chunks (short_frame ∷ []))
        (wire_chunks-AllData 1518 (short_frame ∷ []) short_frame-AllReceivable) in
    InOrder-data_only 1518 none behind (
      subst (InOrder 1518 none) (sym same)
        (wire_chunks-InOrder 1518 (short_frame ∷ []) short_frame-AllReceivable))

reply-AllSized : AllSized (lost ++ behind)
reply-AllSized = (
  refl,
  (
    (omega arith, omega arith),
    fill-AllSized 46 (wire_chunks (short_frame ∷ []))
        (wire_chunks-AllData 1518 (short_frame ∷ []) short_frame-AllReceivable),
  ),
)

process_spi_data_rx_buf-Recovers_example :
    let next = record (status0_outcome 8 under_way).1 {
      dev = under_way.dev;
      spi_data_rx_buf = encode_all 0 (lost ++ behind);
    } in
    (t' : Tc6 Peer) × (process_spi_data_rx_buf peer (48 * chunk_size) next ≡ (ok tt, t'))
    × Handed (allocator peer_device false 1500) false 1500 under_way (reassemble none behind).0 t'
    × Tracks (allocator peer_device false 1500) false 1500 t' (reassemble none behind).1
    × (tx_side (allocator peer_device false 1500) false 1500 t'
        ≡ tx_side (allocator peer_device false 1500) false 1500 next)
process_spi_data_rx_buf-Recovers_example =
    process_spi_data_rx_buf-Recovers (allocator peer_device false 1500) false 1500 8 48 under_way
      (some (replicate 64 7)) (encode_all 0 (lost ++ behind)) under_way.dev lost behind refl
      under_way-Tracks tt (length-encode_all 0 (lost ++ behind) reply-AllSized) refl (omega arith)
      tt behind-InOrder (HoldsChunks-encode_all 0 (lost ++ behind) (omega arith) reply-AllSized)
