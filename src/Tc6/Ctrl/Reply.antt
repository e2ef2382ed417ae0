-- ===== src/Tc6/Ctrl/Reply.antt =====
-- The check of the echoed reply to a control write, `oa_tc6_check_ctrl_write_reply`: exact for up
-- to 61 registers, and what becomes of it where the size does not fit its `u8` parameter.
use base_t1s.Prelude.{
  ℕ, ◌+◌, ◌-◌, ◌*◌, ◌^◌, ◌≤◌, true, false, List, [], ◌∷◌, Outcome, ok, err, ◌≡◌, refl, arith, subst,
  ◌⊎◌, inl, inr, take, drop, length-drop, eproto, Bool-cases,
}
use base_t1s.Word.{u8, u64}
use base_t1s.Tc6.State.{Tc6, HasBuffers, ctrl_ignored_size}
use base_t1s.Tc6.Ctrl.{bytes_eq, check_ctrl_write_reply, calculate_ctrl_buf_size}

pub bytes_eq-eq : (a b : List ℕ) → bytes_eq a b ≡ true → a ≡ b
bytes_eq-eq [] [] h = refl
bytes_eq-eq [] (y ∷ ys) h = cc
bytes_eq-eq (x ∷ xs) [] h = cc
bytes_eq-eq (x ∷ xs) (y ∷ ys) h = ground (arith, bytes_eq-eq xs ys)

pub bytes_eq_refl : (a : List ℕ) → bytes_eq a a ≡ true
bytes_eq_refl [] = refl
bytes_eq_refl (x ∷ xs) = ground (arith, bytes_eq_refl xs)

bytes_eq-ne : (a b : List ℕ) → bytes_eq a b ≡ false → ¬ (a ≡ b)
bytes_eq-ne a b h s =
    let same : bytes_eq a b ≡ true = subst (λ x. bytes_eq a x ≡ true) s (bytes_eq_refl a) in cc

pub calculate_ctrl_buf_size-value : (l : ℕ) → l ≤ 128 → calculate_ctrl_buf_size l ≡ 8 + 4 * l
unfolding calculate_ctrl_buf_size
calculate_ctrl_buf_size-value l h = omega arith

module _ {D : Type 0} where
  -- The check compares the first `n` bytes, where `n` is the size as a `u8` less 4.
  check-compares :
      (t : Tc6 D) (size n : ℕ)
      → HasBuffers t
      → u64 (u8 size + 2 ^ 64 - ctrl_ignored_size) ≡ n
      → n ≤ 516
      → check_ctrl_write_reply size t ≡ (
        elim (bytes_eq (take n t.spi_ctrl_tx_buf) (take n (drop 4 t.spi_ctrl_rx_buf))) [
          | true ↦ ok tt
          | false ↦ err eproto
        ],
        t,
      )
  unfolding check_ctrl_write_reply
  check-compares t size n b e le = ground (arith, length-drop 4 t.spi_ctrl_rx_buf)

  -- For up to 61 registers the write succeeds exactly when the echo repeats the header and the
  -- values sent, fails with EPROTO otherwise, and reads nothing outside the buffers.
  pub check_ctrl_write_reply-exact :
      (t : Tc6 D) (l : ℕ)
      → HasBuffers t
      → 1 ≤ l
      → l ≤ 61
      → let r = check_ctrl_write_reply (calculate_ctrl_buf_size l) t in
        let same =
          take (4 + 4 * l) t.spi_ctrl_tx_buf ≡ take (4 + 4 * l) (drop 4 t.spi_ctrl_rx_buf) in
        (r.1 ≡ t) × (((r.0 ≡ ok tt) × same) ⊎ ((r.0 ≡ err eproto) × (¬ same)))
  check_ctrl_write_reply-exact t l b lo hi =
      let n = 4 + 4 * l in
      let small = calculate_ctrl_buf_size-value l (omega arith) in
      let a = take n t.spi_ctrl_tx_buf in
      let c = take n (drop 4 t.spi_ctrl_rx_buf) in
      rw (check-compares t (calculate_ctrl_buf_size l) n b (omega arith) (omega arith))
        (elim (Bool-cases (bytes_eq a c)) [
          | inl e ↦ rw e (refl, inl (refl, bytes_eq-eq a c e))
          | inr e ↦ rw e (refl, inr (refl, bytes_eq-ne a c e))
        ])

  -- For 63 to 125 registers the size wraps: the write succeeds already if the first `4 * l - 252`
  -- bytes agree, so 256 bytes of the echo are never looked at.
  pub check_ctrl_write_reply-wraps :
      (t : Tc6 D) (l : ℕ)
      → HasBuffers t
      → 63 ≤ l
      → l ≤ 125
      → take (4 * l - 252) t.spi_ctrl_tx_buf ≡ take (4 * l - 252) (drop 4 t.spi_ctrl_rx_buf)
      → check_ctrl_write_reply (calculate_ctrl_buf_size l) t ≡ (ok tt, t)
  check_ctrl_write_reply-wraps t l b lo hi e =
      let n = 4 * l - 252 in
      let size = calculate_ctrl_buf_size-value l (omega arith) in
      rw (
        check-compares t (calculate_ctrl_buf_size l) n b (omega arith) (omega arith),
        e,
        bytes_eq_refl (take n (drop 4 t.spi_ctrl_rx_buf)),
      )

  -- For 62 and for 126 registers the size passed is below 4, and the comparison runs over 2 ^ 64
  -- bytes less a few: an access out of bounds.
  pub check_ctrl_write_reply-runs_over :
      (t : Tc6 D) (l : ℕ)
      → HasBuffers t
      → (l ≡ 62) ⊎ (l ≡ 126)
      → check_ctrl_write_reply (calculate_ctrl_buf_size l) t ≡ (Outcome.fault, t)
  unfolding check_ctrl_write_reply calculate_ctrl_buf_size
  check_ctrl_write_reply-runs_over t l b h = elim h [
    | inl e ↦ rw e (ground arith)
    | inr e ↦ rw e (ground arith)
  ]
