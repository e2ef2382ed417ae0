-- ===== src/Tc6/Ctrl.antt =====
-- Control transactions and register access of
-- src/linux/drivers/net/ethernet/oa_tc6.c: the header, the SPI control buffers, the check of the
-- echoed reply, and the calls that read and write registers. The mutex round a transaction is not
-- modelled: each call runs alone.
pub mod Header
pub mod Reply
use base_t1s.Prelude.{
  ℕ, zero, suc, ◌+◌, ◌-◌, ◌*◌, ◌/◌, ◌^◌, bit_or, Bool, true, false, ◌&&◌, ◌||◌, List, [], ◌∷◌,
  Option, some, none, M, Outcome, ok, err, ◌>>=◌, ◌>>◌, continue, pure, from_some, length, take,
  drop, overwrite, put_at, ltb, leb, ◌==◌, if◌then◌else◌, eproto, einval,
}
use base_t1s.Word.{u8, u16, u32, u64, field_prep, to_be32, from_be32}
use base_t1s.Tc6.Parity.{get_parity}
use base_t1s.Tc6.State.{
  Tc6, Platform, from_status, ctrl_header_size, ctrl_reg_value_size, ctrl_ignored_size,
  ctrl_max_registers,
}

-- `enum oa_tc6_header_type`.
pub data HeaderType : Type 0 where
  ctrl_header data_header : HeaderType

-- `enum oa_tc6_register_op`.
pub data RegisterOp : Type 0 where
  ctrl_reg_read ctrl_reg_write : RegisterOp

abbrev pub op_bit : RegisterOp → ℕ
op_bit ctrl_reg_read = 0
op_bit ctrl_reg_write = 1

-- The header before its parity bit is set. `length - 1` is an `int`, cut to the field.
unfoldable pub ctrl_header_fields : ℕ → ℕ → RegisterOp → ℕ
ctrl_header_fields addr length op =
    bit_or
      (bit_or
        (bit_or (bit_or (field_prep 31 31 0) (field_prep 29 29 (op_bit op)))
          (field_prep 27 24 (addr / 2 ^ 16)))
        (field_prep 23 8 addr))
      (field_prep 7 1 (u32 (length + 2 ^ 32 - 1)))

unfoldable pub ctrl_header_word : ℕ → ℕ → RegisterOp → ℕ
ctrl_header_word addr length op =
    let header = ctrl_header_fields addr length op in
    bit_or header (field_prep 0 0 (get_parity header))

unfoldable pub prepare_ctrl_header : ℕ → ℕ → RegisterOp → List ℕ
prepare_ctrl_header addr length op = to_be32 (ctrl_header_word addr length op)

unfoldable pub calculate_ctrl_buf_size : ℕ → ℕ
calculate_ctrl_buf_size length =
    u16 (ctrl_header_size + ctrl_reg_value_size * length + ctrl_ignored_size)

-- `memcmp(a, b, n)` as a truth value: whether the first `n` bytes agree.
abbrev pub bytes_eq : List ℕ → List ℕ → Bool
bytes_eq [] [] = true
bytes_eq [] (y ∷ ys) = false
bytes_eq (x ∷ xs) [] = false
bytes_eq (x ∷ xs) (y ∷ ys) = x == y && bytes_eq xs ys

-- The `u32` words of a buffer of big-endian words; `none` is a read past its end.
unfoldable pub read_words : ℕ → List ℕ → Option (List ℕ)
read_words zero b = some []
read_words (suc n) (b0 ∷ b1 ∷ b2 ∷ b3 ∷ b) = elim (read_words n b) [
  | none ↦ none
  | some ws ↦ some (from_be32 (b0 ∷ b1 ∷ b2 ∷ b3 ∷ []) ∷ ws)
]
read_words (suc n) b = none

module _ {D : Type 0} where
  -- A write into the control transmit buffer.
  unfoldable pub store_ctrl : ℕ → List ℕ → M (Tc6 D) (Unit {0})
  store_ctrl off b t =
      if leb (off + length b) (length t.spi_ctrl_tx_buf)
      then (ok tt, record t { spi_ctrl_tx_buf = put_at t.spi_ctrl_tx_buf off b })
      else (Outcome.fault, t)

  -- The loop over `value[i]`, which writes to `tx_buf++`; the list runs out with the array.
  unfoldable pub update_ctrl_write_data : ℕ → List ℕ → ℕ → M (Tc6 D) (Unit {0})
  update_ctrl_write_data off vs zero t = (ok tt, t)
  update_ctrl_write_data off [] (suc n) t = (Outcome.fault, t)
  update_ctrl_write_data off (v ∷ vs) (suc n) t =
      continue (store_ctrl off (to_be32 v) t).0 (λ _. update_ctrl_write_data (off + 4) vs n)
        (store_ctrl off (to_be32 v) t).1

  unfoldable pub prepare_ctrl_spi_buf : ℕ → List ℕ → ℕ → RegisterOp → M (Tc6 D) (Unit {0})
  prepare_ctrl_spi_buf address value length ctrl_reg_read =
      store_ctrl 0 (prepare_ctrl_header address length ctrl_reg_read)
  prepare_ctrl_spi_buf address value length ctrl_reg_write =
      store_ctrl 0 (prepare_ctrl_header address length ctrl_reg_write)
      >> update_ctrl_write_data ctrl_header_size value length

  -- `size` is passed as a `u8`; `size - 4` is an `int` that `memcmp` takes as a `size_t`.
  unfoldable pub check_ctrl_write_reply : ℕ → M (Tc6 D) (Unit {0})
  check_ctrl_write_reply size t =
      let n = u64 (u8 size + 2 ^ 64 - ctrl_ignored_size) in
      let rx_buf = drop ctrl_ignored_size t.spi_ctrl_rx_buf in
      if leb n (length t.spi_ctrl_tx_buf) && leb n (length rx_buf)
      then (if bytes_eq (take n t.spi_ctrl_tx_buf) (take n rx_buf)
          then (ok tt, t)
          else (err eproto, t))
      else (Outcome.fault, t)

  unfoldable pub check_ctrl_read_reply : M (Tc6 D) (Unit {0})
  check_ctrl_read_reply t =
      if bytes_eq (take 4 t.spi_ctrl_tx_buf) (take 4 (drop ctrl_ignored_size t.spi_ctrl_rx_buf))
      then (ok tt, t)
      else (err eproto, t)

  -- The values read, in place of the array that the caller passes.
  unfoldable pub copy_ctrl_read_data : ℕ → M (Tc6 D) (List ℕ)
  copy_ctrl_read_data length t =
      from_some (read_words length (drop (ctrl_ignored_size + ctrl_header_size) t.spi_ctrl_rx_buf))
        t

  -- `*value` after a read of one register.
  unfoldable pub first_word : List ℕ → M (Tc6 D) ℕ
  first_word [] t = (Outcome.fault, t)
  first_word (v ∷ vs) t = (ok v, t)

  module _ (os : Platform D) where
    -- The transfer sends the first `length` bytes of the transmit buffer and stores as many bytes
    -- at the front of the receive buffer.
    unfoldable pub spi_transfer : HeaderType → ℕ → M (Tc6 D) (Unit {0})
    spi_transfer data_header length t =
        let (r, dev) = os.spi_sync t.dev (take length t.spi_data_tx_buf) in
        (
          from_status r.status,
          record t {
            dev = dev;
            spi_data_rx_buf = overwrite t.spi_data_rx_buf (take length r.bytes);
          },
        )
    spi_transfer ctrl_header length t =
        let (r, dev) = os.spi_sync t.dev (take length t.spi_ctrl_tx_buf) in
        (
          from_status r.status,
          record t {
            dev = dev;
            spi_ctrl_rx_buf = overwrite t.spi_ctrl_rx_buf (take length r.bytes);
          },
        )

    unfoldable pub finish_ctrl : ℕ → ℕ → RegisterOp → M (Tc6 D) (List ℕ)
    finish_ctrl length size ctrl_reg_write = do check_ctrl_write_reply size; pure []
    finish_ctrl length size ctrl_reg_read = do check_ctrl_read_reply; copy_ctrl_read_data length

    unfoldable pub perform_ctrl : ℕ → List ℕ → ℕ → RegisterOp → M (Tc6 D) (List ℕ)
    perform_ctrl address value length op = do
      prepare_ctrl_spi_buf address value length op
      let size = calculate_ctrl_buf_size length
      spi_transfer ctrl_header size
      finish_ctrl length size op

    unfoldable pub read_registers : ℕ → ℕ → M (Tc6 D) (List ℕ)
    read_registers address length t =
        if length == 0 || ltb ctrl_max_registers length
        then (err einval, t)
        else perform_ctrl address [] length ctrl_reg_read t

    unfoldable pub write_registers : ℕ → List ℕ → ℕ → M (Tc6 D) (Unit {0})
    write_registers address value length t =
        if length == 0 || ltb ctrl_max_registers length
        then (err einval, t)
        else (perform_ctrl address value length ctrl_reg_write >>= λ _. pure tt) t

    unfoldable pub read_register : ℕ → M (Tc6 D) ℕ
    read_register address = do value ← read_registers address 1; first_word value

    unfoldable pub write_register : ℕ → ℕ → M (Tc6 D) (Unit {0})
    write_register address value = write_registers address (value ∷ []) 1
