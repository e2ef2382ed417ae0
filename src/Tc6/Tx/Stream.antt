-- ===== src/Tc6/Tx/Stream.antt =====
-- The chunks that the transmit loop writes carry the queued frames, whole and in order.
use base_t1s.Prelude.{
  ℕ, zero, suc, ◌+◌, ◌-◌, ◌*◌, ◌%◌, ◌^◌, ◌≤◌, ◌<◌, Bool, true, false, List, [], ◌∷◌, ◌++◌, Option,
  some, none, ok, ◌≡◌, refl, arith, ap, sym, subst, ◌∙◌, length, take, drop, put_at, ◌==◌,
  from_bool, take-add, take_all, take-drop-take, take-drop-put_at, drop-put_at, take-put_at,
  length-put_at, length-take, length-drop, append-nil,
}
use native.Mathlib.Decide.{dec_le}
use base_t1s.Word.{to_be32, from_be32}
use base_t1s.Word.Bytes.{from_be32-to_be32}
use base_t1s.Tc6.State.{Tc6, Skb}
use base_t1s.Tc6.Tx.{
  data_header_word, prepare_data_header, finish_tx_skb, add_tx_chunk, fetch_waiting,
}
use base_t1s.Tc6.Tx.Header.{data_header_word-flags}
use base_t1s.Tc6.Tx.Chunk.{chunk_at, add_tx_chunk_middle, add_tx_chunk_last}
use base_t1s.Tc6.Tx.Sink.{accept, take_chunk, receive}

length-chunk_at :
    (buf : List ℕ) (off : ℕ) (h p : List ℕ) → length (chunk_at buf off h p) ≡ length buf
unfolding chunk_at
length-chunk_at buf off h p =
    length-put_at (put_at buf (off + 4) p) off h ∙ length-put_at buf (off + 4) p

take-chunk_at :
    (m : ℕ) (buf : List ℕ) (off : ℕ) (h p : List ℕ)
    → m ≤ off
    → take m (chunk_at buf off h p) ≡ take m buf
unfolding chunk_at
take-chunk_at m buf off h p le =
    take-put_at m (put_at buf (off + 4) p) off h le ∙ take-put_at m buf (off + 4) p (omega arith)

bool_back : (b : Bool) → (from_bool b == 1) ≡ b
bool_back b = ground arith

-- What the receiver reads from a chunk that was just written: the flags of its header, and a
-- payload that begins with the bytes written.
take_chunk-chunk_at :
    (acc buf : List ℕ) (off : ℕ) (sv ev : Bool) (ebo ts : ℕ) (p : List ℕ)
    → off + 68 ≤ length buf
    → length p ≤ 64
    → let b = chunk_at buf off (prepare_data_header true sv ev ebo ts) p in
      (take_chunk acc off b ≡ accept acc true sv ev (ebo % 64) (take 64 (drop (off + 4) b)))
      × (take (length p) (drop (off + 4) b) ≡ p)
unfolding take_chunk chunk_at prepare_data_header
take_chunk-chunk_at acc buf off sv ev ebo ts p room small =
    let w = data_header_word true sv ev ebo ts in
    let (lt, dv', sv', ev', ebo') = data_header_word-flags true sv ev ebo ts in
    let full = put_at buf (off + 4) p in
    let len = length-put_at buf (off + 4) p in
    let header : take 4 (drop off (put_at full off (to_be32 w))) ≡ to_be32 w =
      take-drop-put_at full off (to_be32 w) 4 refl (omega arith) in
    let word : from_be32 (take 4 (drop off (put_at full off (to_be32 w)))) ≡ w =
      ap from_be32 header ∙ from_be32-to_be32 w lt in
    let behind = drop-put_at (off + 4) full off (to_be32 w) (omega arith) in
    (
      rw (word, dv', sv', ev', ebo', bool_back true, bool_back sv, bool_back ev) refl,
      rw behind (take-drop-put_at buf (off + 4) p (length p) refl (omega arith)),
    )

-- The bytes of the frame in progress that have been sent, and the frames that are not finished.
abbrev pub partial_of : ℕ → Option Skb → List ℕ
partial_of o none = []
partial_of o (some skb) = take o skb.bytes

abbrev pub frames_of : Option Skb → List (List ℕ)
frames_of none = []
frames_of (some skb) = skb.bytes ∷ []

-- A frame to be sent has a byte left behind `o`, and fits the driver's 16-bit offsets.
abbrev pub CanSend : ℕ → Option Skb → Type 0
CanSend o none = o ≡ 0
CanSend o (some skb) = (o < length skb.bytes) × (length skb.bytes < 2 ^ 16)

module _ {D : Type 0} where
  abbrev pub sent_part : Tc6 D → List ℕ
  sent_part t = partial_of t.tx_skb_offset t.ongoing_tx_skb

  abbrev pub outstanding : Tc6 D → List (List ℕ)
  outstanding t = frames_of t.ongoing_tx_skb ++ frames_of t.waiting_tx_skb

  pub record IsSendable (t : Tc6 D) : Type 0 where
    pub ongoing : CanSend t.tx_skb_offset t.ongoing_tx_skb
    pub waiting : CanSend 0 t.waiting_tx_skb
    pub size : length t.spi_data_tx_buf < 2 ^ 16

  -- `n` chunks were written between `t` and `t'`: the receiver gets from them the frames that are
  -- no longer outstanding and the part that has been sent, and what stands before them is kept, as
  -- are the chunks to be received and the interrupt flag.
  pub record Sent (n : ℕ) (t t' : Tc6 D) : Type 0 where
    pub frames :
        (receive n t.spi_data_tx_buf_offset (sent_part t) t'.spi_data_tx_buf).0 ++ outstanding t'
        ≡ outstanding t
    pub part :
        (receive n t.spi_data_tx_buf_offset (sent_part t) t'.spi_data_tx_buf).1 ≡ sent_part t'
    pub before :
        (m : ℕ)
        → m ≤ t.spi_data_tx_buf_offset
        → take m t'.spi_data_tx_buf ≡ take m t.spi_data_tx_buf
    pub same_length : length t'.spi_data_tx_buf ≡ length t.spi_data_tx_buf
    pub offset : t'.spi_data_tx_buf_offset ≡ t.spi_data_tx_buf_offset + 68 * n
    pub sendable : IsSendable t'
    pub rx_chunks : t'.rx_chunks_available ≡ t.rx_chunks_available
    pub interrupt : t'.int_flag ≡ t.int_flag

-- The middle of a frame: the receiver has 64 bytes more.
accept_middle :
    (o : ℕ) (bytes z : List ℕ)
    → take 64 z ≡ take 64 (drop o bytes)
    → accept (take o bytes) true (o == 0) false 0 (take 64 z) ≡ ([], take (o + 64) bytes)
unfolding accept
accept_middle zero bytes z e = ap (λ b. ([], b)) (take-drop-take 64 0 64 z (omega arith) ∙ e)
accept_middle (suc o) bytes z e =
    let later : (suc o == 0) ≡ false = ground arith in
    rw later (
      ap (λ b. ([], take (suc o) bytes ++ b)) (take-drop-take 64 0 64 z (omega arith) ∙ e)
      ∙ ap (λ b. ([], b)) (sym (take-add (suc o) 64 bytes)))

-- The end of a frame: the receiver has all of it.
accept_last :
    (o ebo : ℕ) (bytes z : List ℕ)
    → o < length bytes
    → length bytes ≤ o + 64
    → ebo ≡ length bytes - o - 1
    → take (length bytes - o) z ≡ take (length bytes - o) (drop o bytes)
    → accept (take o bytes) true (o == 0) true (ebo % 64) (take 64 z) ≡ (bytes ∷ [], [])
unfolding accept
accept_last zero ebo bytes z lt le he e =
    let n : ebo % 64 + 1 ≡ length bytes - 0 = omega arith in
    ap (λ b. (b ∷ [], []))
      (rw n (take-drop-take (length bytes - 0) 0 64 z (omega arith) ∙ e)
        ∙ take_all (length bytes - 0) bytes (omega arith))
accept_last (suc o) ebo bytes z lt le he e =
    let n : ebo % 64 + 1 ≡ length bytes - suc o = omega arith in
    let later : (suc o == 0) ≡ false = ground arith in
    let tail : take (ebo % 64 + 1) (take 64 z) ≡ take (length bytes - suc o) (drop (suc o) bytes) =
      rw n (take-drop-take (length bytes - suc o) 0 64 z (omega arith) ∙ e) in
    rw (later, tail)
      (ap (λ b. (b ∷ [], []))
        (sym (take-add (suc o) (length bytes - suc o) bytes)
          ∙ take_all (suc o + (length bytes - suc o)) bytes (omega arith)))

module _ {D : Type 0} where
  -- One chunk.
  pub Sent-one :
      (t t' : Tc6 D)
      → (take_chunk (sent_part t) t.spi_data_tx_buf_offset t'.spi_data_tx_buf).0 ++ outstanding t'
        ≡ outstanding t
      → (take_chunk (sent_part t) t.spi_data_tx_buf_offset t'.spi_data_tx_buf).1 ≡ sent_part t'
      → ((m : ℕ)
          → m ≤ t.spi_data_tx_buf_offset
          → take m t'.spi_data_tx_buf ≡ take m t.spi_data_tx_buf)
      → length t'.spi_data_tx_buf ≡ length t.spi_data_tx_buf
      → t'.spi_data_tx_buf_offset ≡ t.spi_data_tx_buf_offset + 68
      → IsSendable t'
      → t'.rx_chunks_available ≡ t.rx_chunks_available
      → t'.int_flag ≡ t.int_flag
      → Sent 1 t t'
  unfolding receive
  Sent-one t t' f p b l o v r i = record {
    frames = ap (λ fs. fs ++ outstanding t') (append-nil _) ∙ f;
    part = p;
    before = b;
    same_length = l;
    offset = omega arith;
    sendable = v;
    rx_chunks = r;
    interrupt = i;
  }

  -- The frame behind `ongoing_tx_skb`, and the facts that every chunk of it starts from.
  module _ (skb : Skb) (t : Tc6 D) (e : t.ongoing_tx_skb ≡ some skb) (v : IsSendable t)
      (room : t.spi_data_tx_buf_offset + 68 ≤ length t.spi_data_tx_buf) where
    fits : CanSend t.tx_skb_offset (some skb)
    fits = subst (CanSend t.tx_skb_offset) e v.ongoing

    -- The buffer and the header of the next chunk, with the given end flag, end offset and payload.
    abbrev next_buf : Bool → ℕ → ℕ → List ℕ → List ℕ
    next_buf ev ebo ts p =
        chunk_at t.spi_data_tx_buf t.spi_data_tx_buf_offset
          (prepare_data_header true (t.tx_skb_offset == 0) ev ebo ts) p

    received_last :
        length skb.bytes ≤ t.tx_skb_offset + 64
        → take_chunk (sent_part t) t.spi_data_tx_buf_offset (
            next_buf true
              (length skb.bytes - t.tx_skb_offset - 1)
              t.ongoing_tx_ts_capture_mode
              (take (length skb.bytes - t.tx_skb_offset) (drop t.tx_skb_offset skb.bytes)))
          ≡ (skb.bytes ∷ [], [])
    received_last last =
        let o = t.tx_skb_offset in
        let l = length skb.bytes - o in
        let p = take l (drop o skb.bytes) in
        let ts = t.ongoing_tx_ts_capture_mode in
        let len : length p ≡ l =
          omega (arith, length-take l (drop o skb.bytes), length-drop o skb.bytes) in
        let b = next_buf true (l - 1) ts p in
        let (read, body) =
          take_chunk-chunk_at (take o skb.bytes) t.spi_data_tx_buf t.spi_data_tx_buf_offset (o == 0)
            true (l - 1) ts p room (omega arith) in
        ap (λ s. take_chunk (partial_of o s) t.spi_data_tx_buf_offset b) e
        ∙ read
        ∙ accept_last o (l - 1) skb.bytes (drop (t.spi_data_tx_buf_offset + 4) b) fits.0 last refl
            (ap (λ k. take k (drop (t.spi_data_tx_buf_offset + 4) b)) (sym len) ∙ body)

    received_middle :
        t.tx_skb_offset + 64 < length skb.bytes
        → take_chunk
            (sent_part t)
            t.spi_data_tx_buf_offset
            (next_buf false 0 0 (take 64 (drop t.tx_skb_offset skb.bytes)))
          ≡ ([], take (t.tx_skb_offset + 64) skb.bytes)
    received_middle more =
        let o = t.tx_skb_offset in
        let p = take 64 (drop o skb.bytes) in
        let len : length p ≡ 64 =
          omega (arith, length-take 64 (drop o skb.bytes), length-drop o skb.bytes) in
        let b = next_buf false 0 0 p in
        let (read, body) =
          take_chunk-chunk_at (take o skb.bytes) t.spi_data_tx_buf t.spi_data_tx_buf_offset (o == 0)
            false 0 0 p room (omega arith) in
        ap (λ s. take_chunk (partial_of o s) t.spi_data_tx_buf_offset b) e
        ∙ read
        ∙ accept_middle o skb.bytes (drop (t.spi_data_tx_buf_offset + 4) b)
            (ap (λ k. take k (drop (t.spi_data_tx_buf_offset + 4) b)) (sym len) ∙ body)

    queued : outstanding t ≡ skb.bytes ∷ frames_of t.waiting_tx_skb
    queued = ap (λ s. frames_of s ++ frames_of t.waiting_tx_skb) e

    part-subst : (o : ℕ) → partial_of o t.ongoing_tx_skb ≡ take o skb.bytes
    part-subst o = ap (partial_of o) e

    last-Sent :
        (last : length skb.bytes ≤ t.tx_skb_offset + 64)
        → (t' : Tc6 D) × (add_tx_chunk skb t ≡ (ok tt, t')) × Sent 1 t t'
    unfolding finish_tx_skb
    last-Sent last = (
      _,
      add_tx_chunk_last skb t fits.1 room v.size fits.0 last,
      Sent-one t _ (ap (λ r. r.0 ++ frames_of t.waiting_tx_skb) (received_last last) ∙ sym queued)
          (ap (λ r. r.1) (received_last last))
          (λ m le. take-chunk_at m t.spi_data_tx_buf t.spi_data_tx_buf_offset _ _ le)
          (length-chunk_at t.spi_data_tx_buf t.spi_data_tx_buf_offset _ _) refl
          (record {
            ongoing = refl;
            waiting = v.waiting;
            size = rw (length-chunk_at t.spi_data_tx_buf t.spi_data_tx_buf_offset) v.size;
          })
          refl refl,
    )

    middle-Sent :
        (more : t.tx_skb_offset + 64 < length skb.bytes)
        → (t' : Tc6 D) × (add_tx_chunk skb t ≡ (ok tt, t')) × Sent 1 t t'
    middle-Sent more = (
      _,
      add_tx_chunk_middle skb t fits.1 room v.size more,
      Sent-one t _ (ap (λ r. r.0 ++ outstanding t) (received_middle more))
          (ap (λ r. r.1) (received_middle more) ∙ sym (part-subst (t.tx_skb_offset + 64)))
          (λ m le. take-chunk_at m t.spi_data_tx_buf t.spi_data_tx_buf_offset _ _ le)
          (length-chunk_at t.spi_data_tx_buf t.spi_data_tx_buf_offset _ _) refl
          (record {
            ongoing = subst (CanSend (t.tx_skb_offset + 64)) (sym e) (more, fits.1);
            waiting = v.waiting;
            size = rw (length-chunk_at t.spi_data_tx_buf t.spi_data_tx_buf_offset) v.size;
          })
          refl refl,
    )

    pub add_tx_chunk-Sent : (t' : Tc6 D) × (add_tx_chunk skb t ≡ (ok tt, t')) × Sent 1 t t'
    add_tx_chunk-Sent = elim (dec_le (length skb.bytes) (t.tx_skb_offset + 64)) [
      | yes last ↦ last-Sent last
      | no more ↦ middle-Sent (omega arith)
    ]

  pub fetch_waiting-keeps :
      (t : Tc6 D)
      → IsSendable t
      → IsSendable (fetch_waiting t)
        × (sent_part (fetch_waiting t) ≡ sent_part t)
        × (outstanding (fetch_waiting t) ≡ outstanding t)
        × ((fetch_waiting t).spi_data_tx_buf ≡ t.spi_data_tx_buf)
        × ((fetch_waiting t).spi_data_tx_buf_offset ≡ t.spi_data_tx_buf_offset)
        × ((fetch_waiting t).rx_chunks_available ≡ t.rx_chunks_available)
        × ((fetch_waiting t).int_flag ≡ t.int_flag)
  unfolding fetch_waiting
  fetch_waiting-keeps t v = ground arith
