-- ===== src/Tc6/Tx/Sink.antt =====
-- The receiving end of the data chunks, from the field descriptions of
-- src/linux/Documentation/networking/oa-tc6-framework.rst: how a MAC-PHY puts the frames together
-- again from a buffer of chunks. It is a specification; the driver has no such code.
use base_t1s.Prelude.{
  ℕ, zero, suc, ◌+◌, ◌≤◌, ◌≡◌, arith, Bool, true, false, List, [], ◌∷◌, ◌++◌, take, drop,
  take-drop-take, ◌==◌, sym, ◌∙◌, ap, ap₂,
}
use base_t1s.Word.{field_get, bit_get, from_be32}

-- The frames that a chunk completes (none or one), and the bytes of the frame in progress. `dv`,
-- `sv` and `ev` are the flags of the chunk, `ebo` its end byte offset.
unfoldable pub accept : List ℕ → Bool → Bool → Bool → ℕ → List ℕ → List (List ℕ) × List ℕ
accept acc false sv ev ebo payload = ([], acc)
accept acc true true true ebo payload = (take (ebo + 1) payload ∷ [], [])
accept acc true false true ebo payload = ((acc ++ take (ebo + 1) payload) ∷ [], [])
accept acc true true false ebo payload = ([], take 64 payload)
accept acc true false false ebo payload = ([], acc ++ take 64 payload)

-- The chunk at `off`.
unfoldable pub take_chunk : List ℕ → ℕ → List ℕ → List (List ℕ) × List ℕ
take_chunk acc off buf =
    let w = from_be32 (take 4 (drop off buf)) in
    accept acc (bit_get 21 w == 1) (bit_get 20 w == 1) (bit_get 14 w == 1) (field_get 13 8 w)
      (take 64 (drop (off + 4) buf))

-- `n` chunks from `off` on.
unfoldable pub receive : ℕ → ℕ → List ℕ → List ℕ → List (List ℕ) × List ℕ
receive zero off acc buf = ([], acc)
receive (suc n) off acc buf =
    let (fs, acc1) = take_chunk acc off buf in
    let (gs, acc2) = receive n (off + 68) acc1 buf in (fs ++ gs, acc2)

-- A chunk is read from its own 68 bytes only.
pub take_chunk-local :
    (acc : List ℕ) (off : ℕ) (buf buf' : List ℕ)
    → take (off + 68) buf' ≡ take (off + 68) buf
    → take_chunk acc off buf' ≡ take_chunk acc off buf
unfolding take_chunk
take_chunk-local acc off buf buf' e =
    ap₂
      (λ (h p : List ℕ).
        let w = from_be32 h in
        accept acc (bit_get 21 w == 1) (bit_get 20 w == 1) (bit_get 14 w == 1) (field_get 13 8 w) p)
      (slice 4 off (omega arith)) (slice 64 (off + 4) (omega arith))
  where
    slice : (k m : ℕ) → m + k ≤ off + 68 → take k (drop m buf') ≡ take k (drop m buf)
    slice k m h =
        sym (take-drop-take k m (off + 68) buf' h)
        ∙ ap (λ b. take k (drop m b)) e
        ∙ take-drop-take k m (off + 68) buf h
