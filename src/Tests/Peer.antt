-- ===== src/Tests/Peer.antt =====
-- A device that takes frames and sends some at the same time.
use base_t1s.Prelude.{
  ℕ, zero, suc, ◌+◌, ◌-◌, ◌*◌, ◌/◌, ◌≤◌, min, List, [], ◌∷◌, ◌++◌, some, ◌≡◌, refl, arith, ap, sym,
  ◌∙◌, length, take, drop, length-drop, length-append, length-take,
}
use base_t1s.Word.{field_get}
use base_t1s.Tc6.State.{Platform, max_tx_chunks, chunk_size}
use base_t1s.Tc6.Tx.Sink.{receive}
use base_t1s.Tc6.Rx.Chunks.{footer_of}
use base_t1s.Tc6.Rx.Source.{RxChunk, no_data, frame_start, frame_middle, frame_end, HoldsChunks}
use base_t1s.Tc6.Rx.Source.Cut.{data_only, cut, cut_rest}
use base_t1s.Tc6.Transfer.Duplex.{DuplexDevice}
use base_t1s.Tc6.Transfer.Duplex.Frames.{WireFrame, wire_bytes, wire_chunks, AllReceivable}
use base_t1s.Tc6.Transfer.Duplex.Events.{Surroundings}
use base_t1s.Tests.Chunks.{
  encode_all, IsSized, AllSized, length-encode_all, HoldsChunks-encode_all, footers-count,
}

-- The frames that have been put together, the part of the next, and the chunks to be sent.
pub record Peer : Type 0 where
  pub frames : List (List ℕ)
  pub part : List ℕ
  pub to_send : List RxChunk

-- `k` chunks, the last of them without receive data if there are not as many.
abbrev pub fill : ℕ → List RxChunk → List RxChunk
fill zero cs = []
fill (suc k) [] = no_data ∷ fill k []
fill (suc k) (c ∷ cs) = c ∷ fill k cs

length-fill : (k : ℕ) (cs : List RxChunk) → length (fill k cs) ≡ k
length-fill zero cs = refl
length-fill (suc k) [] = ap suc (length-fill k [])
length-fill (suc k) (c ∷ cs) = ap suc (length-fill k cs)

-- A chunk with receive data, of its size.
abbrev pub IsData : RxChunk → Type 0
IsData no_data = ⊥
IsData (frame_start p) = IsSized (frame_start p)
IsData (frame_middle p) = IsSized (frame_middle p)
IsData (frame_end p) = IsSized (frame_end p)

abbrev pub AllData : List RxChunk → Type 0
AllData [] = Unit {0}
AllData (c ∷ cs) = IsData c × AllData cs

sized : (c : RxChunk) → IsData c → IsSized c
sized no_data h = tt
sized (frame_start p) h = h
sized (frame_middle p) h = h
sized (frame_end p) h = h

pub fill-AllSized : (k : ℕ) (cs : List RxChunk) → AllData cs → AllSized (fill k cs)
fill-AllSized zero cs h = tt
fill-AllSized (suc k) [] h = (tt, fill-AllSized k [] tt)
fill-AllSized (suc k) (c ∷ cs) (h, hs) = (sized c h, fill-AllSized k cs hs)

data_only-none : (k : ℕ) → data_only (fill k []) ≡ []
data_only-none zero = refl
data_only-none (suc k) = data_only-none k

pub data_only-fill : (k : ℕ) (cs : List RxChunk) → AllData cs → data_only (fill k cs) ≡ take k cs
data_only-fill zero cs h = refl
data_only-fill (suc k) [] h = data_only-none k
data_only-fill (suc k) (no_data ∷ cs) (h, hs) = absurd h
data_only-fill (suc k) (frame_start p ∷ cs) (h, hs) =
    ap (λ r. frame_start p ∷ r) (data_only-fill k cs hs)
data_only-fill (suc k) (frame_middle p ∷ cs) (h, hs) =
    ap (λ r. frame_middle p ∷ r) (data_only-fill k cs hs)
data_only-fill (suc k) (frame_end p ∷ cs) (h, hs) =
    ap (λ r. frame_end p ∷ r) (data_only-fill k cs hs)

pub drop-AllData : (k : ℕ) (cs : List RxChunk) → AllData cs → AllData (drop k cs)
drop-AllData zero cs h = h
drop-AllData (suc k) [] h = tt
drop-AllData (suc k) (c ∷ cs) (h, hs) = drop-AllData k cs hs

pub append-AllData : (cs ds : List RxChunk) → AllData cs → AllData ds → AllData (cs ++ ds)
append-AllData [] ds h k = k
append-AllData (c ∷ cs) ds (h, hs) k = (h, append-AllData cs ds hs k)

cut_rest-AllData :
    (n : ℕ) (s : List ℕ) → n * 64 + 1 ≤ length s → length s ≤ n * 64 + 64 → AllData (cut_rest n s)
cut_rest-AllData zero s lo hi = ((omega arith, omega arith), tt)
cut_rest-AllData (suc n) s lo hi = (
  omega (arith, length-take 64 s),
  cut_rest-AllData n (drop 64 s) (omega (arith, length-drop 64 s))
      (omega (arith, length-drop 64 s)),
)

pub wire_chunks-AllData :
    (room : ℕ) (ws : List WireFrame) → AllReceivable room ws → AllData (wire_chunks ws)
wire_chunks-AllData room [] h = tt
wire_chunks-AllData room (w ∷ ws) ((ts, fcs, lo, hi, last), h) =
    let s = wire_bytes w in
    let size : length s ≡ length w.frame + 12 = omega (
      arith,
      ts,
      fcs,
      length-append w.time_stamp (w.frame ++ w.check_sequence),
      length-append w.frame w.check_sequence,
    ) in
    append-AllData (cut s) (wire_chunks ws)
      (
        omega (arith, length-take 64 s),
        cut_rest-AllData ((length s - 65) / 64) (drop 64 s) (omega (arith, length-drop 64 s))
            (omega (arith, length-drop 64 s)),
      )
      (wire_chunks-AllData room ws h)

-- What a footer can announce.
abbrev pub announce : List RxChunk → ℕ
announce cs = min 31 (length cs)

abbrev pub next_peer : Peer → ℕ → List ℕ → Peer
next_peer d k sent = record {
  frames = d.frames ++ (receive k 0 d.part sent).0;
  part = (receive k 0 d.part sent).1;
  to_send = drop k d.to_send;
}

abbrev pub reply : Peer → ℕ → List ℕ
reply d k = encode_all (announce (drop k d.to_send)) (fill k d.to_send)

abbrev pub peer : Platform Peer
peer = record {
  spi_sync = λ d b.
      (record { status = 0; bytes = reply d (length b / 68) }, next_peer d (length b / 68) b);
  alloc_skb = λ d n. (some n, d);
  skb_linearize = λ d b. (0, d);
  eth_type_trans = λ s. s;
}

announced_none : (cs : List RxChunk) → announce cs ≡ 0 → cs ≡ []
announced_none [] e = refl
announced_none (c ∷ cs) e = absurd (omega arith)

pub peer_transfer :
    (d : Peer) (k : ℕ) (sent : List ℕ)
    → AllData d.to_send
    → 1 ≤ k
    → k ≤ max_tx_chunks
    → length sent ≡ k * chunk_size
    → (r : List ℕ) × (d' : Peer) × (cs : List RxChunk) × (peer.spi_sync d sent
        ≡ (record { status = 0; bytes = r }, d'))
      × (length r ≡ k * chunk_size)
      × ((length cs ≡ k) × HoldsChunks r 0 cs × (data_only cs ≡ take k d.to_send))
      × ((1 ≤ field_get 5 1 (footer_of (k - 1) r))
          × (field_get 28 24 (footer_of (k - 1) r) ≡ 0 → d'.to_send ≡ [])
          × (d'.to_send ≡ [] → field_get 28 24 (footer_of (k - 1) r) ≡ 0))
      × (d'.frames ≡ d.frames ++ (receive k 0 d.part sent).0)
      × (d'.part ≡ (receive k 0 d.part sent).1)
      × (d'.to_send ≡ drop k d.to_send)
      × AllData d'.to_send
peer_transfer d k sent sizes l u long =
    let count : length sent / 68 ≡ k = omega arith in
    let cs = fill k d.to_send in
    let m = announce (drop k d.to_send) in
    let fits = fill-AllSized k d.to_send sizes in
    let counts =
      footers-count m (k - 1) cs (omega arith) fits (omega (arith, length-fill k d.to_send)) in
    (
      reply d k,
      next_peer d k sent,
      cs,
      ap (λ n. (record { status = 0; bytes = reply d n }, next_peer d n sent)) count,
      omega (arith, length-encode_all m cs fits, length-fill k d.to_send),
      (
        length-fill k d.to_send,
        HoldsChunks-encode_all m cs (omega arith) fits,
        data_only-fill k d.to_send sizes,
      ),
      (
        omega (arith, counts.0),
        λ z. announced_none (drop k d.to_send) (sym counts.1 ∙ z),
        λ e. counts.1 ∙ ap announce e,
      ),
      refl,
      refl,
      refl,
      drop-AllData k d.to_send sizes,
    )

abbrev pub peer_device : DuplexDevice peer
peer_device = record {
  got = λ d. d.frames;
  part = λ d. d.part;
  to_send = λ d. d.to_send;
  IsReady = λ d. AllData d.to_send;
  data_transfer = peer_transfer;
  alloc = λ d n sizes. (n, d, refl, omega arith, sizes, refl);
}

abbrev pub queue_up : List WireFrame → Peer → Peer
queue_up ws d = record d { to_send = d.to_send ++ wire_chunks ws }

abbrev pub around : Surroundings peer_device 1518
around = record {
  linearize = λ d b sizes. (d, refl, refl, sizes);
  queue_up = queue_up;
  queued_up = λ ws d fit sizes.
      (refl, append-AllData d.to_send (wire_chunks ws) sizes (wire_chunks-AllData 1518 ws fit));
}
