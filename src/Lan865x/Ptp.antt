-- ===== src/Lan865x/Ptp.antt =====
-- The PTP clock of src/linux/drivers/net/ethernet/microchip/lan865x/lan865x_ptp.c. The fields of
-- `struct ptp_device` in use are the increment and the spin lock, which is a flag here: whether a
-- call returns with the lock held.
pub mod Rate
pub mod Lock
pub mod Captures
pub mod Stamps
pub mod Time
use base_t1s.Prelude.{
  ℕ, zero, suc, ◌+◌, ◌-◌, ◌*◌, ◌/◌, ◌%◌, ◌^◌, Bool, true, false, ◌||◌, [], ◌∷◌, ◌++◌, ℤ, pos,
  negsuc, abs, is_negative, Option, M, Outcome, ok, err, ◌>>=◌, ◌>>◌, pure, ◌==◌, if◌then◌else◌,
}
use base_t1s.Word.{u32, u64, bit_get}
use base_t1s.Tc6.State.{Skb}
use base_t1s.Tc6.Bus.{RegisterBus, read_or_old, write_ignored, ignore_status}
use base_t1s.Lan865x.Priv.{Priv, TxEvent, skb_tstamp_tx, kfree_skb, on_tc6}
use base_t1s.Lan865x.Clock.{get_sys_clock, set_sys_clock, set_sys_clock_ti}
use base_t1s.Lan865x.Packets.{read_tx_timestamp}

pub record PtpClock (S : Type 0) : Type 0 where
  pub tc6 : S
  pub ti_subnano_b24 : ℕ
  pub locked : Bool

-- The value of a function of type u64 that returns a negative errno.
abbrev pub as_u64 : Outcome ℕ → Outcome ℕ
as_u64 (ok v) = ok v
as_u64 (err e) = ok (2 ^ 64 - e)
as_u64 Outcome.fault = Outcome.fault

-- `diff_b24`, of the magnitude of `scaled_ppm`.
unfoldable pub diff_b24 : ℕ → ℕ
diff_b24 magnitude = u64 (40 * 2 ^ 8 * magnitude / 1000000)

unfoldable pub adjusted_ticks : ℤ → ℕ
adjusted_ticks scaled_ppm =
    let diff = diff_b24 (abs scaled_ppm) in
    u64 (40 * 2 ^ 24 + (if is_negative scaled_ppm then 2 ^ 64 - diff else diff))

-- The time that `adjtime` sets, from the one that it reads.
unfoldable pub adjusted_time : ℤ → ℕ → ℕ
adjusted_time delta_ns timestamp =
    u64 (timestamp + (if is_negative delta_ns then 2 ^ 64 - abs delta_ns else abs delta_ns))

module _ {S : Type 0} where
  abbrev pub on_bus : {A : Type 0} → M S A → M (PtpClock S) A
  on_bus m p = ((m p.tc6).0, record p { tc6 = (m p.tc6).1 })

  abbrev pub spin_lock : M (PtpClock S) (Unit {0})
  spin_lock p = (ok tt, record p { locked = true })

  abbrev pub spin_unlock : M (PtpClock S) (Unit {0})
  spin_unlock p = (ok tt, record p { locked = false })

  -- A status that is not looked at.
  abbrev pub ignored : M S (Unit {0}) → M S (Unit {0})
  ignored m s = (ignore_status (m s).0, (m s).1)

  abbrev pub clock_value : M S ℕ → M S ℕ
  clock_value m s = (as_u64 (m s).0, (m s).1)

  -- `skb_tstamp_tx` and `kfree_skb`.
  unfoldable pub report_and_free : (Priv S → Option Skb) → ℕ → M (Priv S) (Unit {0})
  report_and_free slot tx_ts p = (
    ok tt,
    record p { tx_events = p.tx_events ++ skb_tstamp_tx (slot p) tx_ts ∷ kfree_skb (slot p) ∷ [] },
  )

  module _ (bus : RegisterBus S) where
    unfoldable pub adjust_rate : ℤ → M (PtpClock S) (Unit {0})
    adjust_rate scaled_ppm = on_bus (set_sys_clock_ti bus (adjusted_ticks scaled_ppm)) >> λ p.
        (ok tt, record p { ti_subnano_b24 = u32 (adjusted_ticks scaled_ppm) })

    unfoldable pub adjfine : ℤ → M (PtpClock S) (Unit {0})
    adjfine scaled_ppm =
        spin_lock
        >> ((if abs scaled_ppm == 0 then pure tt else adjust_rate scaled_ppm) >> spin_unlock)

    unfoldable pub adjust_time : ℤ → M (PtpClock S) (Unit {0})
    adjust_time delta_ns = on_bus (clock_value (get_sys_clock bus)) >>= λ hw_timestamp.
        on_bus (ignored (set_sys_clock bus (adjusted_time delta_ns hw_timestamp)))
        >> (on_bus (clock_value (get_sys_clock bus)) >>= λ curr_hw_timestamp. spin_unlock)

    -- For a delta of 0 the call returns as it is.
    unfoldable pub adjtime : ℤ → M (PtpClock S) (Unit {0})
    adjtime delta_ns = spin_lock >> (if abs delta_ns == 0 then pure tt else adjust_time delta_ns)

    -- `tv_sec` and `tv_nsec`.
    unfoldable pub gettimex64 : M (PtpClock S) (ℕ × ℕ)
    gettimex64 =
        spin_lock
        >> (on_bus (clock_value (get_sys_clock bus)) >>= λ timestamp.
            spin_unlock >> pure (timestamp / 1000000000, timestamp % 1000000000))

    unfoldable pub settime64 : ℕ → ℕ → M (PtpClock S) (Unit {0})
    settime64 tv_sec tv_nsec =
        spin_lock
        >> (on_bus (ignored (set_sys_clock bus (u64 (u64 (tv_sec * 1000000000) + tv_nsec))))
            >> spin_unlock)

    -- Reads the capture `tx_id`, reports it with the socket buffer in `slot`, and frees that. The
    -- buffer stays in its place in `waiting_txts_skb`.
    unfoldable pub report_stamp : ℕ → (Priv S → Option Skb) → M (Priv S) (Unit {0})
    report_stamp tx_id slot = on_tc6 (read_tx_timestamp bus tx_id) >>= report_and_free slot

    -- The blocks of the thread under TS_A_MASK, TS_B_MASK and TS_C_MASK.
    unfoldable pub stamp_gptp : ℕ → M (Priv S) (Unit {0})
    stamp_gptp status =
        if bit_get 8 status == 1 then report_stamp 1 (λ p. p.waiting_gptp) else pure tt

    unfoldable pub stamp_normal : ℕ → M (Priv S) (Unit {0})
    stamp_normal status =
        if bit_get 9 status == 1 then report_stamp 2 (λ p. p.waiting_normal) else pure tt

    unfoldable pub stamp_reserved : ℕ → M (Priv S) (Unit {0})
    stamp_reserved status =
        if bit_get 10 status == 1
        then (on_tc6 (read_tx_timestamp bus 3) >>= λ tx_ts. pure tt)
        else pure tt

    unfoldable pub clear_captures : ℕ → M (Priv S) (Unit {0})
    clear_captures status =
        if (bit_get 8 status == 1 || bit_get 9 status == 1) || bit_get 10 status == 1
        then on_tc6 (write_ignored bus 0x00000008 status)
        else pure tt

    -- One iteration; `old` is what stands in `status` before: nothing definite in the first one,
    -- 0 in the later ones.
    unfoldable pub ptp_thread_round : ℕ → M (Priv S) (Unit {0})
    ptp_thread_round old = on_tc6 (read_or_old bus old 0x00000008) >>= λ status.
        stamp_gptp status
        >> (stamp_normal status >> (stamp_reserved status >> clear_captures status))

    -- `n` iterations of the endless loop.
    unfoldable pub ptp_thread_handler : ℕ → ℕ → M (Priv S) (Unit {0})
    ptp_thread_handler zero old p = (ok tt, p)
    ptp_thread_handler (suc n) old p = (ptp_thread_round old >> ptp_thread_handler n 0) p
