-- ===== src/Tc6/Tx/Left.antt =====
-- How many chunks the queued frames still need, and how the transmit loop of
-- src/linux/drivers/net/ethernet/oa_tc6.c works them off.
use base_t1s.Prelude.{
  ℕ, zero, suc, ◌+◌, ◌-◌, ◌*◌, ◌/◌, ◌≤◌, [], Option, some, none, ◌≡◌, arith, ap, sym, subst, ◌∙◌,
  length, Option-cases, inl, inr,
}
use native.Mathlib.Decide.{dec_le}
use base_t1s.Tc6.State.{Tc6, Skb}
use base_t1s.Tc6.Tx.{add_tx_chunk, finish_tx_skb, fetch_waiting, tx_loop}
use base_t1s.Tc6.Tx.Chunk.{add_tx_chunk_middle, add_tx_chunk_last}
use base_t1s.Tc6.Tx.Stream.{
  CanSend, IsSendable, outstanding, add_tx_chunk-Sent, fetch_waiting-keeps,
}
use base_t1s.Tc6.Tx.Loop.{tx_loop-zero, tx_loop-stop, tx_loop-next, fetch-none}

-- The chunks for what stands behind offset `o` of a frame.
abbrev pub chunks_behind : ℕ → Option Skb → ℕ
chunks_behind o none = 0
chunks_behind o (some skb) = (length skb.bytes - o + 63) / 64

module _ {D : Type 0} where
  abbrev pub chunks_left : Tc6 D → ℕ
  chunks_left t = chunks_behind t.tx_skb_offset t.ongoing_tx_skb + chunks_behind 0 t.waiting_tx_skb

  pub chunks_left-none : (t : Tc6 D) → outstanding t ≡ [] → chunks_left t ≡ 0
  chunks_left-none t e = ground arith

  fetch_waiting-left : (t : Tc6 D) → IsSendable t → chunks_left (fetch_waiting t) ≡ chunks_left t
  unfolding fetch_waiting
  fetch_waiting-left t v = ground (arith, v.ongoing)

  module _ (skb : Skb) (t : Tc6 D) (e : t.ongoing_tx_skb ≡ some skb) (v : IsSendable t)
      (room : t.spi_data_tx_buf_offset + 68 ≤ length t.spi_data_tx_buf) where
    fits : CanSend t.tx_skb_offset (some skb)
    fits = subst (CanSend t.tx_skb_offset) e v.ongoing

    behind : (o : ℕ) → chunks_behind o t.ongoing_tx_skb ≡ (length skb.bytes - o + 63) / 64
    behind o = ap (chunks_behind o) e

    -- Each chunk is one less.
    add_tx_chunk-left : chunks_left (add_tx_chunk skb t).1 + 1 ≡ chunks_left t
    unfolding finish_tx_skb
    add_tx_chunk-left = elim (dec_le (length skb.bytes) (t.tx_skb_offset + 64)) [
      | yes last ↦
          ap (λ r. chunks_left r.1 + 1) (add_tx_chunk_last skb t fits.1 room v.size fits.0 last)
          ∙ omega (arith, behind t.tx_skb_offset, fits.0)
      | no more ↦
          ap (λ r. chunks_left r.1 + 1) (add_tx_chunk_middle skb t fits.1 room v.size (omega arith))
          ∙ omega (arith, behind t.tx_skb_offset, behind (t.tx_skb_offset + 64))
    ]

  -- A loop of `n` credits works off `n` chunks, or all there are.
  pub tx_loop-left :
      (n used : ℕ) (t : Tc6 D)
      → IsSendable t
      → t.spi_data_tx_buf_offset + 68 * n ≤ length t.spi_data_tx_buf
      → chunks_left (tx_loop n used t).1 ≡ chunks_left t - n
  tx_loop-left zero used t v room = ap (λ r. chunks_left r.1) (tx_loop-zero used t) ∙ omega arith
  tx_loop-left (suc n) used t v room = elim (Option-cases (fetch_waiting t).ongoing_tx_skb) [
    | inl e ↦
        let nothing = chunks_left-none (fetch_waiting t) (fetch-none t e) in
        ap (λ r. chunks_left r.1) (tx_loop-stop n used t e)
        ∙ omega (arith, nothing, fetch_waiting-left t v)
    | inr (skb, e) ↦
        let same = fetch_waiting-keeps t v in
        let fits : (fetch_waiting t).spi_data_tx_buf_offset + 68
            ≤ length (fetch_waiting t).spi_data_tx_buf =
          omega (arith, same.4, ap length same.3) in
        let (t1, eq, one) = add_tx_chunk-Sent skb (fetch_waiting t) e same.0 fits in
        let less : chunks_left t1 + 1 ≡ chunks_left (fetch_waiting t) =
          ap (λ r. chunks_left r.1 + 1) (sym eq)
          ∙ add_tx_chunk-left skb (fetch_waiting t) e same.0 fits in
        let rest =
          tx_loop-left n (used + 1) t1 one.sendable
            (omega (arith, one.offset, one.same_length, same.4, ap length same.3)) in
        ap (λ r. chunks_left r.1) (tx_loop-next n used t t1 skb e eq)
        ∙ omega (arith, rest, less, fetch_waiting-left t v)
  ]
