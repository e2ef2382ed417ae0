-- ===== src/Lan865x/Probe.antt =====
-- `lan865x_probe` and `lan865x_remove` of
-- src/linux/drivers/net/ethernet/microchip/lan865x/lan865x.c, and `ptp_device_init` of
-- lan865x_ptp.c, with the resources that they hold.
pub mod Leaks
pub mod NodeId
use base_t1s.Prelude.{
  ℕ, zero, suc, ◌+◌, ◌*◌, ◌%◌, ◌^◌, Bool, true, false, List, [], ◌∷◌, ◌++◌, Option, some, none, M,
  Outcome, ok, err, ◌>>=◌, ◌>>◌, pure, length, take, drop, get_or, ltb, if◌then◌else◌, enomem,
  enodev,
}
use base_t1s.Word.{u32}
use base_t1s.Tc6.State.{from_status}
use base_t1s.Tc6.Bus.{RegisterBus, ignore_status, or_err}
use base_t1s.Tc6.Setup.{zero_align_receive_frame_enable}
use base_t1s.Tc6.Setup.Init.{Kernel, Held, lift, oa_tc6_init, oa_tc6_exit}
use base_t1s.Lan865x.Mac.{set_hw_macaddr, set_nodeid}

-- What the kernel and the device tree answer to the calls of the probe, each of which is made at
-- most once: whether an allocation succeeds, a status, the values of the node id pins, the address
-- that the network device starts with, and the address in the device tree, if there is one.
pub record Board : Type 0 where
  pub alloc_etherdev : Bool
  pub nodeid_gpios : Outcome (List ℕ)
  pub dev_addr : List ℕ
  pub register_netdev : ℕ
  pub mac_address : Option (List ℕ)
  pub kzalloc_ptp : Bool
  pub ptp_clock_register : ℕ
  pub kthread_run_ptp : ℕ
  pub misc_register : ℕ

pub record Bound (S : Type 0) : Type 0 where
  pub held : Held S
  pub dev_addr : List ℕ
  pub netdev_allocated : Bool
  pub netdev_registered : Bool
  pub ptp_allocated : Bool
  pub ptp_registered : Bool
  pub ptp_thread : Bool
  pub misc_registered : Bool

-- The loop over `node_id`, from the last pin to the first, with the rounds left first.
unfoldable pub gpio_loop : ℕ → List ℕ → ℕ → ℕ
gpio_loop zero gpio_values node_id = node_id
gpio_loop (suc n) gpio_values node_id =
    gpio_loop n gpio_values (u32 (node_id * 2 + get_or gpio_values n 0))

-- The array `gpio_values` has four elements; a fifth pin is written behind it.
unfoldable pub read_node_id : List ℕ → Outcome ℕ
read_node_id gpios =
    if ltb 4 (length gpios) then Outcome.fault else ok (gpio_loop (length gpios) gpios 0)

-- `mac_addr` with its last byte from the node id.
unfoldable pub node_mac : List ℕ → ℕ → List ℕ
node_mac mac_addr node_id = take 5 mac_addr ++ node_id % 2 ^ 8 ∷ []

module _ {S : Type 0} where
  abbrev pub in_held : {A : Type 0} → M (Held S) A → M (Bound S) A
  in_held m b = ((m b.held).0, record b { held = (m b.held).1 })

  abbrev pub in_bus : {A : Type 0} → M S A → M (Bound S) A
  in_bus m = in_held (lift m)

  -- A call with a status, and what it does where it succeeds.
  abbrev pub with_status : ℕ → (Bound S → Bound S) → M (Bound S) (Unit {0})
  with_status zero f b = (ok tt, f b)
  with_status (suc e) f b = (err (suc e), b)

  -- The label that a failure jumps to.
  abbrev pub bail : {A : Type 0} → Outcome A → (Bound S → Bound S) → M (Bound S) A
  bail (ok a) undo b = (ok a, b)
  bail (err e) undo b = (err e, undo b)
  bail Outcome.fault undo b = (Outcome.fault, b)

  abbrev pub or_goto : {A : Type 0} → M (Bound S) A → (Bound S → Bound S) → M (Bound S) A
  or_goto m undo b = bail (m b).0 undo (m b).1

  abbrev pub free_netdev : Bound S → Bound S
  free_netdev b = record b { netdev_allocated = false }

  -- From the label `oa_tc6_exit` on.
  unfoldable pub exit_and_free : (S → S) → Bound S → Bound S
  exit_and_free free_skbs b = free_netdev (record b { held = oa_tc6_exit free_skbs b.held })

  unfoldable pub nodeid_of : Outcome (List ℕ) → M (Bound S) ℕ
  nodeid_of (ok gpios) b = (read_node_id gpios, b)
  nodeid_of (err e) b = (err e, b)
  nodeid_of Outcome.fault b = (Outcome.fault, b)

  -- The pointer that `ptp_device_init` returns: whether it is not NULL.
  unfoldable pub ptp_device_init : Board → Bound S → Bool × Bound S
  ptp_device_init board b =
      if board.kzalloc_ptp
      then elim board.ptp_clock_register [
        | suc e ↦ (false, b)
        | zero ↦ elim board.kthread_run_ptp [
          | suc e ↦ (false, record b { ptp_registered = true })
          | zero ↦
              (true, record b { ptp_allocated = true; ptp_registered = true; ptp_thread = true })
        ]
      ]
      else (false, b)

  module _ (bus : RegisterBus S) (board : Board) (free_skbs : S → S) where
    abbrev exit : Bound S → Bound S
    exit = exit_and_free free_skbs

    -- A failure in the pins is returned at once.
    unfoldable pub nodeid_of_gpios : M (Bound S) ℕ
    nodeid_of_gpios = nodeid_of board.nodeid_gpios

    unfoldable pub register_device : M (Bound S) (Unit {0})
    register_device =
        or_goto (in_bus (set_hw_macaddr bus board.dev_addr board.dev_addr)) exit
        >> or_goto (with_status board.register_netdev (λ b. record b { netdev_registered = true }))
            exit

    -- The address with the node id in it; the status of the register writes is not looked at.
    unfoldable pub adopt_node_mac : ℕ → M (Bound S) (Unit {0})
    adopt_node_mac node_id b = elim board.mac_address [
      | none ↦ (ok tt, b)
      | some mac_addr ↦
          let mac = node_mac mac_addr node_id in
          let r = in_bus (set_hw_macaddr bus mac mac) (record b { dev_addr = mac }) in
          (ignore_status r.0, r.1)
    ]

    -- Where `ptp_device_init` fails, `ret` is still the 0 of the call before.
    unfoldable pub finish_probe : M (Bound S) (Unit {0})
    finish_probe b =
        let (made, b') = ptp_device_init board b in
        if made
        then with_status board.misc_register (λ b. record b { misc_registered = true }) b'
        else (ok tt, exit b')

    unfoldable pub probe_device : M (Bound S) (Unit {0})
    probe_device =
        or_goto (in_bus (zero_align_receive_frame_enable bus)) exit
        >> (nodeid_of_gpios >>= λ node_id.
            register_device
            >> (adopt_node_mac node_id
                >> (or_goto (in_bus (set_nodeid bus node_id)) exit >> finish_probe)))

    -- `init` is the call of `oa_tc6_init`; any failure of it becomes ENODEV.
    unfoldable pub probe : M (Held S) (Unit {0}) → M (Bound S) (Unit {0})
    probe init b =
        if board.alloc_etherdev
        then (or_goto (λ b. (or_err enodev (in_held init b).0, (in_held init b).1)) free_netdev
              >> probe_device)
            (record b { netdev_allocated = true; dev_addr = board.dev_addr })
        else (err enomem, b)

  -- The PTP device is not given back.
  unfoldable pub remove : (S → S) → Bound S → Bound S
  remove free_skbs b =
      let unregistered = record b { netdev_registered = false } in
      record (exit_and_free free_skbs unregistered) { misc_registered = false }
