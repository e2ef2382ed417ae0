-- ===== src/Tc6/Bus/Device/Steps.antt =====
-- The steps of a register access in src/linux/drivers/net/ethernet/oa_tc6.c that succeed, and how
-- they follow one another.
use base_t1s.Prelude.{
  ℕ, ◌+◌, ◌^◌, ◌≤◌, ◌<◌, List, [], ◌∷◌, some, M, ok, continue, ◌>>=◌, ◌>>◌, pure, ◌≡◌, refl, ap,
  ap₂, ◌∙◌, inl, inr, arith, length, take, drop, put_at,
}
use base_t1s.Word.{to_be32, from_be32}
use base_t1s.Word.Bytes.{from_be32-to_be32}
use base_t1s.Tc6.State.{Tc6, Platform, HasBuffers}
use base_t1s.Tc6.Ctrl.{
  ctrl_header, ctrl_reg_read, ctrl_reg_write, ctrl_header_word, prepare_ctrl_header,
  calculate_ctrl_buf_size, read_words, store_ctrl, update_ctrl_write_data, prepare_ctrl_spi_buf,
  check_ctrl_write_reply, check_ctrl_read_reply, copy_ctrl_read_data, first_word, spi_transfer,
  finish_ctrl, perform_ctrl, read_registers, write_registers, read_register, write_register,
}
use base_t1s.Tc6.Ctrl.Reply.{bytes_eq_refl, check_ctrl_write_reply-exact}

bind-step :
    {S A B : Type 0} (m : M S A) (f : A → M S B) (s s' : S) (a : A)
    → m s ≡ (ok a, s')
    → (m >>= f) s ≡ f a s'
bind-step m f s s' a e = ap (λ x. continue x.0 f x.1) e

read_words-one :
    (b : List ℕ) (v : ℕ) → v < 2 ^ 32 → take 4 b ≡ to_be32 v → read_words 1 b ≡ some (v ∷ [])
unfolding read_words
read_words-one [] v lt e = absurd (omega (arith, ap (λ l. length l) e))
read_words-one (b0 ∷ []) v lt e = absurd (omega (arith, ap (λ l. length l) e))
read_words-one (b0 ∷ b1 ∷ []) v lt e = absurd (omega (arith, ap (λ l. length l) e))
read_words-one (b0 ∷ b1 ∷ b2 ∷ []) v lt e = absurd (omega (arith, ap (λ l. length l) e))
read_words-one (b0 ∷ b1 ∷ b2 ∷ b3 ∷ b) v lt e =
    ap (λ l. some (from_be32 l ∷ [])) e ∙ ap (λ w. some (w ∷ [])) (from_be32-to_be32 v lt)

module _ {D : Type 0} where
  pub store_ctrl-fits :
      (off : ℕ) (b : List ℕ) (t : Tc6 D)
      → off + length b ≤ length t.spi_ctrl_tx_buf
      → store_ctrl off b t ≡ (ok tt, record t { spi_ctrl_tx_buf = put_at t.spi_ctrl_tx_buf off b })
  unfolding store_ctrl
  store_ctrl-fits off b t h = ground arith

  pub check_ctrl_read_reply-same :
      (t : Tc6 D) (h : List ℕ)
      → take 4 t.spi_ctrl_tx_buf ≡ h
      → take 4 (drop 4 t.spi_ctrl_rx_buf) ≡ h
      → check_ctrl_read_reply t ≡ (ok tt, t)
  unfolding check_ctrl_read_reply
  check_ctrl_read_reply-same t h e f = rw (e, f, bytes_eq_refl h) refl

  pub copy_ctrl_read_data-one :
      (t : Tc6 D) (v : ℕ)
      → v < 2 ^ 32
      → take 4 (drop 8 t.spi_ctrl_rx_buf) ≡ to_be32 v
      → copy_ctrl_read_data 1 t ≡ (ok (v ∷ []), t)
  unfolding copy_ctrl_read_data
  copy_ctrl_read_data-one t v lt e = rw (read_words-one (drop 8 t.spi_ctrl_rx_buf) v lt e) refl

  pub check_ctrl_write_reply-same :
      (t : Tc6 D)
      → HasBuffers t
      → take 8 t.spi_ctrl_tx_buf ≡ take 8 (drop 4 t.spi_ctrl_rx_buf)
      → check_ctrl_write_reply (calculate_ctrl_buf_size 1) t ≡ (ok tt, t)
  check_ctrl_write_reply-same t b same =
      let (kept, cases) = check_ctrl_write_reply-exact t 1 b (omega arith) (omega arith) in
      elim cases [ inl (e, s) ↦ ap₂ (λ o u. (o, u)) e kept | inr (e, n) ↦ elim (n same) [ ] ]

module _ {D : Type 0} (os : Platform D) where
  -- The steps of a read and of a write, one after another.
  pub read_steps :
      (t t1 t2 : Tc6 D) (a v : ℕ)
      → store_ctrl 0 (to_be32 (ctrl_header_word a 1 ctrl_reg_read)) t ≡ (ok tt, t1)
      → spi_transfer os ctrl_header 12 t1 ≡ (ok tt, t2)
      → check_ctrl_read_reply t2 ≡ (ok tt, t2)
      → copy_ctrl_read_data 1 t2 ≡ (ok (v ∷ []), t2)
      → read_register os a t ≡ (ok v, t2)
  unfolding read_register read_registers perform_ctrl prepare_ctrl_spi_buf prepare_ctrl_header
      finish_ctrl first_word calculate_ctrl_buf_size
  read_steps t t1 t2 a v e0 e1 e2 e3 =
      let finish : M (Tc6 D) (List ℕ) = check_ctrl_read_reply >> copy_ctrl_read_data 1 in
      let run : perform_ctrl os a [] 1 ctrl_reg_read t ≡ (ok (v ∷ []), t2) =
        bind-step (store_ctrl 0 (to_be32 (ctrl_header_word a 1 ctrl_reg_read)))
          (λ _. spi_transfer os ctrl_header 12 >> finish) t t1 tt e0
        ∙ bind-step (spi_transfer os ctrl_header 12) (λ _. finish) t1 t2 tt e1
        ∙ bind-step check_ctrl_read_reply (λ _. copy_ctrl_read_data 1) t2 t2 tt e2
        ∙ e3 in
      bind-step (perform_ctrl os a [] 1 ctrl_reg_read) first_word t t2 (v ∷ []) run

  pub write_steps :
      (t t1 t2 t3 : Tc6 D) (a v : ℕ)
      → store_ctrl 0 (to_be32 (ctrl_header_word a 1 ctrl_reg_write)) t ≡ (ok tt, t1)
      → store_ctrl 4 (to_be32 v) t1 ≡ (ok tt, t2)
      → spi_transfer os ctrl_header 12 t2 ≡ (ok tt, t3)
      → check_ctrl_write_reply (calculate_ctrl_buf_size 1) t3 ≡ (ok tt, t3)
      → write_register os a v t ≡ (ok tt, t3)
  unfolding write_register write_registers perform_ctrl prepare_ctrl_spi_buf prepare_ctrl_header
      finish_ctrl update_ctrl_write_data calculate_ctrl_buf_size
  write_steps t t1 t2 t3 a v e0 e1 e2 e3 =
      let nothing : M (Tc6 D) (List ℕ) = pure [] in
      let finish : M (Tc6 D) (List ℕ) =
        check_ctrl_write_reply (calculate_ctrl_buf_size 1) >> nothing in
      let transfer : M (Tc6 D) (List ℕ) = spi_transfer os ctrl_header 12 >> finish in
      let prepared : prepare_ctrl_spi_buf a (v ∷ []) 1 ctrl_reg_write t ≡ (ok tt, t2) =
        bind-step (store_ctrl 0 (to_be32 (ctrl_header_word a 1 ctrl_reg_write)))
          (λ _. update_ctrl_write_data 4 (v ∷ []) 1) t t1 tt e0
        ∙ bind-step (store_ctrl 4 (to_be32 v)) (λ _. update_ctrl_write_data 8 [] 0) t1 t2 tt e1 in
      let run : perform_ctrl os a (v ∷ []) 1 ctrl_reg_write t ≡ (ok [], t3) =
        bind-step (prepare_ctrl_spi_buf a (v ∷ []) 1 ctrl_reg_write) (λ _. transfer) t t2 tt
          prepared
        ∙ bind-step (spi_transfer os ctrl_header 12) (λ _. finish) t2 t3 tt e2
        ∙ bind-step (check_ctrl_write_reply (calculate_ctrl_buf_size 1)) (λ _. nothing) t3 t3 tt
            e3 in
      bind-step (perform_ctrl os a (v ∷ []) 1 ctrl_reg_write) (λ _. pure tt) t t3 [] run
