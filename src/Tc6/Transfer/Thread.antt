-- ===== src/Tc6/Transfer/Thread.antt =====
-- `oa_tc6_spi_thread_handler` of src/linux/drivers/net/ethernet/oa_tc6.c.
use base_t1s.Prelude.{
  ℕ, Bool, true, false, ◌&&◌, ◌||◌, not, List, [], ◌∷◌, M, ok, ◌>>=◌, if◌then◌else◌, pure, ◌==◌,
}
use base_t1s.Tc6.State.{Tc6, Platform}
use base_t1s.Tc6.Transfer.{Progress, finished, again, is_set, try_spi_transfer}

-- How the function ends, or that it has not ended yet.
pub data ThreadEnd : Type 0 where
  stopped running : ThreadEnd

module _ {D : Type 0} where
  -- The condition of `wait_event_interruptible`, but for the request to stop.
  unfoldable pub wake_condition : Tc6 D → Bool
  wake_condition t = t.int_flag || (is_set t.waiting_tx_skb && not (t.tx_credits == 0))

  -- The next iteration follows where the transfer has ended.
  abbrev pub unless_running : M (Tc6 D) ThreadEnd → Progress → M (Tc6 D) ThreadEnd
  unless_running m finished = m
  unless_running m again = pure running

  -- `events` are the wake-ups while the thread waits: whether a stop was requested by then, and what
  -- others did to the state. The wait goes on where there is nothing to do; a transfer makes at most
  -- `rounds` rounds.
  unfoldable pub spi_thread_handler :
      Platform D → ℕ → List (Bool × (Tc6 D → Tc6 D)) → M (Tc6 D) ThreadEnd
  spi_thread_handler os rounds [] t = (ok running, t)
  spi_thread_handler os rounds ((true, change) ∷ events) t = (ok stopped, change t)
  spi_thread_handler os rounds ((false, change) ∷ events) t =
      let rest = spi_thread_handler os rounds events in
      (if wake_condition (change t)
          then try_spi_transfer os rounds >>= unless_running rest
          else rest)
        (change t)
