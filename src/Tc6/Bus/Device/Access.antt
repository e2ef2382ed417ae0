-- ===== src/Tc6/Bus/Device/Access.antt =====
-- The register access of src/linux/drivers/net/ethernet/oa_tc6.c over a device that answers control
-- transactions as the protocol asks.
use base_t1s.Prelude.{
  slice-overwrite, ℕ, ◌+◌, ◌^◌, ◌≤◌, ◌<◌, List, Outcome, ok, ◌≡◌, refl, sym, ap, subst, ◌∙◌, arith,
  length, take, drop, overwrite, put_at, length-take, length-overwrite, length-put_at,
  take-overwrite, take-drop-put_at, take-put_at, take-drop-take, take_all, ◌==◌, true,
  if◌then◌else◌,
}
use base_t1s.Word.{to_be32, from_be32}
use base_t1s.Word.Bytes.{from_be32-to_be32}
use base_t1s.Tc6.State.{Tc6, Platform, SpiReply, HasBuffers, from_status}
use base_t1s.Tc6.Ctrl.{
  RegisterOp, ctrl_header, ctrl_reg_read, ctrl_reg_write, ctrl_header_word, spi_transfer,
  read_register, write_register,
}
use base_t1s.Tc6.Ctrl.Header.{ctrl_header_word-decode}
use base_t1s.Tc6.Bus.{tc6_bus}
use base_t1s.Tc6.Bus.Device.{IsRequest, ControlDevice, IsUp}
use base_t1s.Tc6.Bus.Device.Steps.{
  store_ctrl-fits, check_ctrl_read_reply-same, copy_ctrl_read_data-one, check_ctrl_write_reply-same,
  read_steps, write_steps,
}
use base_t1s.Tc6.Bus.Laws.{RegisterFile, put}

module _ {D : Type 0} {os : Platform D} (c : ControlDevice os) where
  -- The state after a control transfer.
  abbrev received : Tc6 D → List ℕ → D → Tc6 D
  received t r d = record t { dev = d; spi_ctrl_rx_buf = overwrite t.spi_ctrl_rx_buf (take 12 r) }

  spi_transfer-received :
      (t : Tc6 D) (r : List ℕ) (d : D)
      → os.spi_sync t.dev (take 12 t.spi_ctrl_tx_buf) ≡ (record { status = 0; bytes = r }, d)
      → spi_transfer os ctrl_header 12 t ≡ (ok tt, received t r d)
  unfolding spi_transfer
  spi_transfer-received t r d e =
      let after : SpiReply × D → Outcome (Unit {0}) × Tc6 D = λ x. (
        from_status x.0.status,
        record t { dev = x.1; spi_ctrl_rx_buf = overwrite t.spi_ctrl_rx_buf (take 12 x.0.bytes) },
      ) in
      ap after e

  -- The transmit buffer with the header in front.
  abbrev headed : Tc6 D → ℕ → Tc6 D
  headed t w = record t { spi_ctrl_tx_buf = put_at t.spi_ctrl_tx_buf 0 (to_be32 w) }

  header-IsRequest :
      (op : RegisterOp) (a : ℕ) (sent : List ℕ)
      → a < 2 ^ 20
      → take 4 sent ≡ to_be32 (ctrl_header_word a 1 op)
      → IsRequest op a (from_be32 (take 4 sent))
  header-IsRequest op a sent lt e =
      let d = ctrl_header_word-decode a 1 op lt (omega arith) (omega arith) in
      let same : from_be32 (take 4 sent) ≡ ctrl_header_word a 1 op =
        ap from_be32 e ∙ from_be32-to_be32 (ctrl_header_word a 1 op) d.0 in
      subst (IsRequest op a) (sym same) d

  -- The receive buffer after an answer of 12 bytes.
  received-slice :
      (t : Tc6 D) (r : List ℕ) (d : D) (k m : ℕ)
      → HasBuffers t
      → length r ≡ 12
      → m + k ≤ 12
      → take k (drop m (received t r d).spi_ctrl_rx_buf) ≡ take k (drop m r)
  received-slice t r d k m hb lr le =
      let whole : take 12 r ≡ r = take_all 12 r (omega arith) in
      slice-overwrite k m 12 t.spi_ctrl_rx_buf (take 12 r) (ap (λ l. length l) whole ∙ lr)
        (omega (arith, hb.ctrl_rx)) le
      ∙ ap (λ l. take k (drop m l)) whole

  received-HasBuffers :
      (t : Tc6 D) (r : List ℕ) (d : D) → HasBuffers t → HasBuffers (received t r d)
  received-HasBuffers t r d hb = record {
    ctrl_tx = hb.ctrl_tx;
    ctrl_rx = length-overwrite t.spi_ctrl_rx_buf (take 12 r) ∙ hb.ctrl_rx;
    data_tx = hb.data_tx;
    data_rx = hb.data_rx;
  }

  put-HasBuffers :
      (t : Tc6 D) (off : ℕ) (b : List ℕ)
      → HasBuffers t
      → HasBuffers (record t { spi_ctrl_tx_buf = put_at t.spi_ctrl_tx_buf off b })
  put-HasBuffers t off b hb = record {
    ctrl_tx = length-put_at t.spi_ctrl_tx_buf off b ∙ hb.ctrl_tx;
    ctrl_rx = hb.ctrl_rx;
    data_tx = hb.data_tx;
    data_rx = hb.data_rx;
  }

  read_register-answered :
      (t : Tc6 D) (a : ℕ)
      → IsUp c t
      → c.IsPlain a
      → (t' : Tc6 D) × (read_register os a t ≡ (ok (c.get t.dev a), t'))
        × IsUp c t'
        × ((b : ℕ) → c.get t'.dev b ≡ c.get t.dev b)
  read_register-answered t a (hb, up) plain =
      let w = ctrl_header_word a 1 ctrl_reg_read in
      let h = to_be32 w in
      let t1 = headed t w in
      let v = c.get t.dev a in
      let sent = take 12 t1.spi_ctrl_tx_buf in
      let front : take 4 t1.spi_ctrl_tx_buf ≡ h =
        take-overwrite 4 t.spi_ctrl_tx_buf h refl (omega (arith, hb.ctrl_tx)) in
      let front_sent : take 4 sent ≡ h =
        take-drop-take 4 0 12 t1.spi_ctrl_tx_buf (omega arith) ∙ front in
      let long : length sent ≡ 12 = omega (
        arith,
        length-take 12 t1.spi_ctrl_tx_buf,
        length-overwrite t.spi_ctrl_tx_buf h,
        hb.ctrl_tx,
      ) in
      let (r, d, e, lr, echo, value, up', same) =
        c.read_transfer t.dev a sent up plain long
          (header-IsRequest ctrl_reg_read a sent (c.address-lt a plain) front_sent) in
      let t2 = received t1 r d in
      let hb1 = put-HasBuffers t 0 h hb in
      let echoed : take 4 (drop 4 t2.spi_ctrl_rx_buf) ≡ h =
        received-slice t1 r d 4 4 hb1 lr (omega arith) ∙ echo ∙ front_sent in
      let answer : take 4 (drop 8 t2.spi_ctrl_rx_buf) ≡ to_be32 v =
        received-slice t1 r d 4 8 hb1 lr (omega arith) ∙ value in
      (
        t2,
        read_steps os t t1 t2 a v (store_ctrl-fits 0 h t (omega (arith, hb.ctrl_tx)))
            (spi_transfer-received t1 r d e) (check_ctrl_read_reply-same t2 h front echoed)
            (copy_ctrl_read_data-one t2 v (c.get-lt t.dev a up) answer),
        (received-HasBuffers t1 r d hb1, up'),
        same,
      )

  write_register-answered :
      (t : Tc6 D) (a v : ℕ)
      → IsUp c t
      → c.IsPlain a
      → v < 2 ^ 32
      → (t' : Tc6 D) × (write_register os a v t ≡ (ok tt, t'))
        × IsUp c t'
        × ((b : ℕ) → c.get t'.dev b ≡ put (c.get t.dev) a v b)
  write_register-answered t a v (hb, up) plain lt =
      let w = ctrl_header_word a 1 ctrl_reg_write in
      let h = to_be32 w in
      let t1 = headed t w in
      let hb1 = put-HasBuffers t 0 h hb in
      let t2 : Tc6 D = record t1 { spi_ctrl_tx_buf = put_at t1.spi_ctrl_tx_buf 4 (to_be32 v) } in
      let hb2 : HasBuffers t2 = put-HasBuffers t1 4 (to_be32 v) hb1 in
      let sent = take 12 t2.spi_ctrl_tx_buf in
      let front : take 4 t2.spi_ctrl_tx_buf ≡ h =
        take-put_at 4 t1.spi_ctrl_tx_buf 4 (to_be32 v) (omega arith)
        ∙ take-overwrite 4 t.spi_ctrl_tx_buf h refl (omega (arith, hb.ctrl_tx)) in
      let front_sent : take 4 sent ≡ h =
        take-drop-take 4 0 12 t2.spi_ctrl_tx_buf (omega arith) ∙ front in
      let value_sent : take 4 (drop 4 sent) ≡ to_be32 v =
        take-drop-take 4 4 12 t2.spi_ctrl_tx_buf (omega arith)
        ∙ take-drop-put_at t1.spi_ctrl_tx_buf 4 (to_be32 v) 4 refl (omega (arith, hb1.ctrl_tx)) in
      let long : length sent ≡ 12 = omega (arith, length-take 12 t2.spi_ctrl_tx_buf, hb2.ctrl_tx) in
      let word : from_be32 (take 4 (drop 4 sent)) ≡ v =
        ap from_be32 value_sent ∙ from_be32-to_be32 v lt in
      let (r, d, e, lr, echo, up', stored) =
        c.write_transfer t.dev a sent up plain long
          (header-IsRequest ctrl_reg_write a sent (c.address-lt a plain) front_sent)
          (omega (arith, word)) in
      let t3 = received t2 r d in
      let hb3 = received-HasBuffers t2 r d hb2 in
      let echoed : take 8 t2.spi_ctrl_tx_buf ≡ take 8 (drop 4 t3.spi_ctrl_rx_buf) =
        sym (take-drop-take 8 0 12 t2.spi_ctrl_tx_buf (omega arith))
        ∙ sym echo
        ∙ sym (received-slice t2 r d 8 4 hb2 lr (omega arith)) in
      (
        t3,
        write_steps os t t1 t2 t3 a v (store_ctrl-fits 0 h t (omega (arith, hb.ctrl_tx)))
            (store_ctrl-fits 4 (to_be32 v) t1 (omega (arith, hb1.ctrl_tx)))
            (spi_transfer-received t2 r d e) (check_ctrl_write_reply-same t3 hb3 echoed),
        (hb3, up'),
        λ b. stored b ∙ ap (λ x. put (c.get t.dev) a x b) word,
      )

  -- Over such a device, the register access of the framework is the one that its callers rely on.
  pub tc6_bus-RegisterFile : RegisterFile (tc6_bus os)
  tc6_bus-RegisterFile = record {
    get = λ t. c.get t.dev;
    IsReady = IsUp c;
    IsPlain = c.IsPlain;
    get-lt = λ t a up. c.get-lt t.dev a up.1;
    read_ok = read_register-answered;
    write_ok = write_register-answered;
  }

  -- In a state with the buffers as allocated, over a device that answers control transactions as the
  -- protocol asks: a value that is written to a register succeeds and is read back by the next read,
  -- and no other register changes.
  pub write_register-read_register :
      (t : Tc6 D) (a v : ℕ)
      → IsUp c t
      → c.IsPlain a
      → v < 2 ^ 32
      → (t1 : Tc6 D) × (t2 : Tc6 D) × (write_register os a v t ≡ (ok tt, t1))
        × (read_register os a t1 ≡ (ok v, t2))
        × ((b : ℕ) → c.get t2.dev b ≡ put (c.get t.dev) a v b)
  write_register-read_register t a v up plain lt =
      let (t1, e1, up1, g1) = write_register-answered t a v up plain lt in
      let (t2, e2, up2, g2) = read_register-answered t1 a up1 plain in
      let here : a == a ≡ true = ground arith in
      let read_back : c.get t1.dev a ≡ v = g1 a ∙ ap (λ b. if b then v else c.get t.dev a) here in
      (t1, t2, e1, e2 ∙ ap (λ x. (ok x, t2)) read_back, λ b. g2 b ∙ g1 b)
