-- ===== src/Tc6/Bus/Device.antt =====
-- What a device answers to the control transactions of src/linux/drivers/net/ethernet/oa_tc6.c.
pub mod Steps
pub mod Access
use base_t1s.Prelude.{
  ℕ, ◌+◌, ◌*◌, ◌^◌, ◌≤◌, ◌<◌, List, [], ◌∷◌, some, M, Outcome, ok, continue, ◌>>=◌, ◌>>◌, pure, ◌≡◌,
  refl, sym, ap, ap₂, subst, ◌∙◌, inl, inr, arith, length, take, drop, overwrite, put_at,
  length-take, length-overwrite, length-put_at, take-overwrite, take-drop-put_at, take-put_at,
  take-drop-take, take_all, ◌%◌, ◌==◌, true, if◌then◌else◌,
}
use base_t1s.Word.{bit_get, field_get, to_be32, from_be32}
use base_t1s.Word.Bytes.{from_be32-to_be32}
use base_t1s.Tc6.State.{Tc6, Platform, SpiReply, HasBuffers, from_status}
use base_t1s.Tc6.Parity.{ones}
use base_t1s.Tc6.Ctrl.{
  RegisterOp, ctrl_header, ctrl_reg_read, ctrl_reg_write, op_bit, ctrl_header_word,
  prepare_ctrl_header, calculate_ctrl_buf_size, read_words, store_ctrl, update_ctrl_write_data,
  prepare_ctrl_spi_buf, check_ctrl_write_reply, check_ctrl_read_reply, copy_ctrl_read_data,
  first_word, spi_transfer, finish_ctrl, perform_ctrl, read_registers, write_registers,
  read_register, write_register,
}
use base_t1s.Tc6.Ctrl.Header.{ctrl_header_word-decode}
use base_t1s.Tc6.Ctrl.Reply.{bytes_eq_refl, check_ctrl_write_reply-exact}
use base_t1s.Tc6.Bus.{tc6_bus}
use base_t1s.Tc6.Bus.Laws.{RegisterFile, put}

-- A control header for one register at `a`, as a receiver reads it.
abbrev pub IsRequest : RegisterOp → ℕ → ℕ → Type 0
IsRequest op a w =
    (w < 2 ^ 32)
    × (bit_get 31 w ≡ 0)
    × (bit_get 29 w ≡ op_bit op)
    × (field_get 27 24 w * 2 ^ 16 + field_get 23 8 w ≡ a)
    × (field_get 7 1 w + 1 ≡ 1)
    × (ones 32 w % 2 ≡ 1)

-- A device with registers: to a transfer of 12 bytes that begins with a request it answers, four
-- bytes late, with the header that it got, and behind that with the value of the register or with the
-- value that it got, which is then in the register.
pub record ControlDevice {D : Type 0} (os : Platform D) : Type 1 where
  pub get : D → ℕ → ℕ
  pub IsReady : D → Type 0
  pub IsPlain : ℕ → Type 0
  pub get-lt : (d : D) (a : ℕ) → IsReady d → get d a < 2 ^ 32
  pub address-lt : (a : ℕ) → IsPlain a → a < 2 ^ 20
  pub read_transfer :
      (d : D) (a : ℕ) (sent : List ℕ)
      → IsReady d
      → IsPlain a
      → length sent ≡ 12
      → IsRequest ctrl_reg_read a (from_be32 (take 4 sent))
      → (r : List ℕ) × (d' : D) × (os.spi_sync d sent ≡ (record { status = 0; bytes = r }, d'))
        × (length r ≡ 12)
        × (take 4 (drop 4 r) ≡ take 4 sent)
        × (take 4 (drop 8 r) ≡ to_be32 (get d a))
        × IsReady d'
        × ((b : ℕ) → get d' b ≡ get d b)
  pub write_transfer :
      (d : D) (a : ℕ) (sent : List ℕ)
      → IsReady d
      → IsPlain a
      → length sent ≡ 12
      → IsRequest ctrl_reg_write a (from_be32 (take 4 sent))
      → from_be32 (take 4 (drop 4 sent)) < 2 ^ 32
      → (r : List ℕ) × (d' : D) × (os.spi_sync d sent ≡ (record { status = 0; bytes = r }, d'))
        × (length r ≡ 12)
        × (take 8 (drop 4 r) ≡ take 8 sent)
        × IsReady d'
        × ((b : ℕ) → get d' b ≡ put (get d) a (from_be32 (take 4 (drop 4 sent))) b)

module _ {D : Type 0} where
  -- The states in which a register can be accessed.
  abbrev pub IsUp : {os : Platform D} → ControlDevice os → Tc6 D → Type 0
  IsUp c t = HasBuffers t × c.IsReady t.dev
