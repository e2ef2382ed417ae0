-- ===== src/Lan865x/Ptp/Captures.antt =====
-- The captures of transmit times: what the PTP thread relies on in the chip, and
-- `lan865x_read_tx_timestamp` of src/linux/drivers/net/ethernet/microchip/lan865x/lan865x_arch.c.
use base_t1s.Prelude.{
  ℕ, ◌+◌, ◌*◌, ◌^◌, ◌≤◌, ◌<◌, some, none, einval, ◌-◌, M, ok, ◌>>=◌, ◌≡◌, refl, arith, ap, ◌∙◌, ◌⊎◌,
}
use base_t1s.Word.{u64}
use base_t1s.Tc6.Bus.{RegisterBus, read_or_old, or_old}
use base_t1s.Lan865x.Packets.{read_tx_timestamp, capture_regs}

-- OA_STATUS0 and the registers of the three captures.
abbrev pub IsStampRegister : ℕ → Type 0
IsStampRegister a = (a ≡ 8) ⊎ ((16 ≤ a) × (a ≤ 21))

-- A chip whose capture registers and OA_STATUS0 answer reads and keep their values over them. A write
-- to OA_STATUS0, which clears what has been seen, succeeds; anything may have been captured behind it.
pub record CaptureDevice {S : Type 0} (bus : RegisterBus S) : Type 1 where
  pub IsReady : S → Type 0
  pub value : S → ℕ → ℕ
  pub value-lt : (s : S) (a : ℕ) → IsReady s → value s a < 2 ^ 32
  pub read_ok :
      (s : S) (a : ℕ)
      → IsReady s
      → IsStampRegister a
      → (s' : S) × (bus.read_register a s ≡ (ok (value s a), s'))
        × IsReady s'
        × ((b : ℕ) → IsStampRegister b → value s' b ≡ value s b)
  pub clear_ok :
      (s : S) (v : ℕ) → IsReady s → (s' : S) × (bus.write_register 8 v s ≡ (ok tt, s')) × IsReady s'

-- The time of a capture in nanoseconds, from the values of its two registers.
abbrev pub nanoseconds : ℕ → ℕ → ℕ
nanoseconds seconds rest = seconds * 1000000000 + rest

module _ {S : Type 0} {bus : RegisterBus S} (chip : CaptureDevice bus) where
  open chip use {IsReady, value}

  abbrev pub Unchanged : S → S → Type 0
  Unchanged s s' = IsReady s' × ((b : ℕ) → IsStampRegister b → value s' b ≡ value s b)

  Unchanged-trans : (s s' s'' : S) → Unchanged s s' → Unchanged s' s'' → Unchanged s s''
  Unchanged-trans s s' s'' (r, h) (r', h') = (r', λ b w. h' b w ∙ h b w)

  pub read-value :
      (old a : ℕ) (s : S)
      → IsReady s
      → IsStampRegister a
      → (s' : S) × (read_or_old bus old a s ≡ (ok (value s a), s')) × Unchanged s s'
  unfolding read_or_old
  read-value old a s up w =
      let (s', e, ready, kept) = chip.read_ok s a up w in
      (s', ap (λ r. (or_old old r.0, r.1)) e, (ready, kept))

  pub capture-value :
      (tx_id hi lo : ℕ) (s : S)
      → capture_regs tx_id ≡ some (hi, lo)
      → IsReady s
      → IsStampRegister hi
      → IsStampRegister lo
      → (s' : S) × (read_tx_timestamp bus tx_id s
          ≡ (ok (nanoseconds (value s hi) (value s lo)), s'))
        × Unchanged s s'
  unfolding read_tx_timestamp
  capture-value tx_id hi lo s known up h l =
      let (s1, e1, (up1, same1)) = read-value 0 hi s up h in
      let (s2, e2, (up2, same2)) = read-value 0 lo s1 up1 l in
      let small : value s hi < 2 ^ 32 = chip.value-lt s hi up in
      let small' : value s lo < 2 ^ 32 = chip.value-lt s lo up in
      let no_wrap : u64 (u64 (value s hi * 1000000000) + value s lo)
          ≡ nanoseconds (value s hi) (value s lo) =
        omega arith in
      (
        s2,
        ap
              (λ o.
                (elim o as (λ x. M S ℕ) [
                  | none ↦ λ s. (ok (2 ^ 64 - einval), s)
                  | some (hi, lo) ↦ read_or_old bus 0 hi >>= λ ts_h.
                      read_or_old bus 0 lo >>= λ ts_l s.
                      (ok (u64 (u64 (ts_h * 1000000000) + ts_l)), s)
                ])
                  s)
              known
            ∙ rw (e1, e2, same1 lo l, no_wrap) refl,
        Unchanged-trans s s1 s2 (up1, same1) (up2, same2),
      )
