-- ===== src/Tc6/Rx/Footer.antt =====
-- `oa_tc6_process_extended_status`: what each bit of STATUS0 leads to.
use base_t1s.Prelude.{ℕ, true, none, ok, err, ◌≡◌, arith, ◌⊎◌, eagain, enodev}
use base_t1s.Word.{bit_get}
use base_t1s.Tc6.State.{Tc6}
use base_t1s.Tc6.Rx.{status0_outcome, cleanup_ongoing_rx_skb}

module _ {D : Type 0} where
  -- An overflow in STATUS0 makes the transfer start again, with the frame in progress dropped and
  -- the overflow noted. Without one the state is kept, and the call succeeds exactly when there is
  -- no transmit protocol error, loss of frame or header error.
  pub status0_outcome-cases :
      (value : ℕ) (t : Tc6 D)
      → ((bit_get 3 value ≡ 1)
          × ((status0_outcome value t).0 ≡ err eagain)
          × ((status0_outcome value t).1.rx_buf_overflow ≡ true)
          × ((status0_outcome value t).1.rx_skb ≡ none))
        ⊎ ((bit_get 3 value ≡ 0)
            × ((status0_outcome value t).1 ≡ t)
            × (((status0_outcome value t).0 ≡ ok tt)
                  × (bit_get 0 value ≡ 0)
                  × (bit_get 4 value ≡ 0)
                  × (bit_get 5 value ≡ 0)
                ⊎ ((status0_outcome value t).0 ≡ err enodev)
                  × ((bit_get 0 value ≡ 1) ⊎ (bit_get 4 value ≡ 1) ⊎ (bit_get 5 value ≡ 1))))
  unfolding status0_outcome cleanup_ongoing_rx_skb
  status0_outcome-cases value t = ground arith
