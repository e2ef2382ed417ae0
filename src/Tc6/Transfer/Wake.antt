-- ===== src/Tc6/Transfer/Wake.antt =====
-- A wake-up of `oa_tc6_spi_thread_handler` that is served to its end, and a frame handed over to an
-- empty queue.
use base_t1s.Prelude.{
  ℕ, Bool, true, false, List, [], ◌∷◌, some, none, M, Outcome, ok, ◌>>=◌, continue, if◌then◌else◌,
  ◌≡◌, refl, arith, ap, ◌∙◌,
}
use base_t1s.Tc6.State.{Tc6, Skb, Platform}
use base_t1s.Tc6.Tx.{start_xmit, netdev_tx_ok}
use base_t1s.Tc6.Tx.Stream.{outstanding}
use base_t1s.Tc6.Transfer.{finished, try_spi_transfer}
use base_t1s.Tc6.Transfer.Thread.{
  ThreadEnd, stopped, wake_condition, unless_running, spi_thread_handler,
}

module _ {D : Type 0} (os : Platform D) where
  pub none_queued :
      (t : Tc6 D) → outstanding t ≡ [] → (t.ongoing_tx_skb ≡ none) × (t.waiting_tx_skb ≡ none)
  none_queued t e = ground arith

  pub xmit-queued :
      (skb : Skb) (t : Tc6 D) (d' : D)
      → t.waiting_tx_skb ≡ none
      → os.skb_linearize t.dev skb.bytes ≡ (0, d')
      → start_xmit os skb 0 t ≡ (
        ok netdev_tx_ok,
        record t { dev = d'; waiting_tx_skb = some skb; waiting_tx_ts_capture_mode = 0 },
      )
  unfolding start_xmit
  xmit-queued skb t d' w l = ground arith

  pub serve_one :
      (rounds : ℕ) (change : Tc6 D → Tc6 D) (events : List (Bool × (Tc6 D → Tc6 D)))
      (t t1 t2 : Tc6 D)
      → change t ≡ t1
      → wake_condition t1 ≡ true
      → try_spi_transfer os rounds t1 ≡ (ok finished, t2)
      → spi_thread_handler os rounds ((false, change) ∷ events) t
        ≡ spi_thread_handler os rounds events t2
  unfolding spi_thread_handler
  serve_one rounds change events t t1 t2 e w f =
      let rest = spi_thread_handler os rounds events in
      let served : Tc6 D → Outcome ThreadEnd × Tc6 D = λ s.
        (if wake_condition s then try_spi_transfer os rounds >>= unless_running rest else rest) s in
      let transferred : M (Tc6 D) ThreadEnd = try_spi_transfer os rounds >>= unless_running rest in
      ap served e
      ∙ ap (λ b. (if b then transferred else rest) t1) w
      ∙ ap (λ x. continue x.0 (unless_running rest) x.1) f

  pub stop_thread :
      (rounds : ℕ) (t : Tc6 D)
      → spi_thread_handler os rounds ((true, λ s. s) ∷ []) t ≡ (ok stopped, t)
  unfolding spi_thread_handler
  stop_thread rounds t = refl
