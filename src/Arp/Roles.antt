-- ===== src/Arp/Roles.antt =====
-- The two roles of the ARP tool examples/arp/arp.c, `do_as_coordinator` and `do_as_follower`, and
-- its main function. The SPI functions, which include/10baset1s declares, are parameters. What is
-- only printed is left out.
use base_t1s.Prelude.{
  ℕ, zero, suc, Bool, true, false, List, [], ◌∷◌, M, Outcome, ok, err, ◌>>=◌, ◌>>◌, continue, pure,
  gets, attempt, length, take, overwrite, replicate, leb, if◌then◌else◌,
}
use base_t1s.Arp.{
  ArpEntry, ret_fail, make_arp_packet, create_arp_reply, check_arp_packet, mac_to_int64,
  fill_my_mac_address, packet_size_arp,
}

-- The functions of the SPI library over a state of their own, without the handle. A status is 0 for
-- success. A transmit call is given the bytes up to the length, a receive call gives the bytes that
-- it stores.
pub record SpiCalls (D : Type 0) : Type 0 where
  pub spi_close : D → D
  pub set_mac_address_to_chip : D → ℕ → D
  pub set_node_config : D → ℕ → ℕ → D
  pub init_lan865x : D → D
  pub get_mac_address_on_chip : D → ℕ × D
  pub spi_transmit_frame : D → List ℕ → ℕ × D
  pub spi_transmit_frame_with_timestamp : D → List ℕ → ℕ → ℕ × D
  pub spi_receive_frame_with_timestamp : D → (ℕ × List ℕ) × D
  pub get_timestamp : D → ℕ → ℕ × D

abbrev pub max_packet_size : ℕ
max_packet_size = 2048

-- COORDINATOR_MAC and FOLLOWER_MAC after `mac_to_int64`.
abbrev pub coordinator_mac : ℕ
coordinator_mac = mac_to_int64 0xd8 0x3a 0x95 0x30 0x23 0x40

abbrev pub follower_mac : ℕ
follower_mac = mac_to_int64 0xd8 0x3a 0x95 0x30 0x23 0x41

abbrev pub node_count : ℕ
node_count = 2

abbrev pub follower_node_id : ℕ
follower_node_id = 1

-- TTSC_C, the register in which the transmit time is captured.
abbrev pub timestamp_id : ℕ
timestamp_id = 3

-- The global variables, and the buffer that frames are received in.
pub record Node (D : Type 0) : Type 0 where
  pub dev : D
  pub my_mac : List ℕ
  pub follower_ip : List ℕ
  pub arp_table : List ArpEntry
  pub packet : List ℕ

-- The letters of the command line.
pub data RoleOption : Type 0 where
  option_c option_f option_h option_other : RoleOption

module _ {D : Type 0} where
  -- `while (ret != RET_SUCCESS)` round a call, with at most `rounds` calls, from a status; the
  -- result says whether the loop has been left by then.
  unfoldable pub retry : M (Node D) ℕ → ℕ → ℕ → M (Node D) Bool
  retry call rounds zero t = (ok true, t)
  retry call zero (suc e) t = (ok false, t)
  retry call (suc n) (suc e) t = continue (call t).0 (retry call n) (call t).1

  -- What follows a loop.
  abbrev pub when_left : M (Node D) Bool → Bool → M (Node D) Bool
  when_left m true = m
  when_left m false = pure false

  abbrev pub clear_packet : M (Node D) (Unit {0})
  clear_packet t = (ok tt, record t { packet = replicate max_packet_size 0 })

  -- `check_arp_packet`, with its status handed over.
  unfoldable pub check_packet : M (Node D) (Outcome (Unit {0}))
  check_packet t =
      let r = check_arp_packet t.packet t.arp_table in (ok r.0, record t { arp_table = r.1 })

  module _ (spi : SpiCalls D) where
    unfoldable pub close : Node D → Node D
    close t = record t { dev = spi.spi_close t.dev }

    -- The end of `config_lan865x_initialize`, on what `fill_my_mac_address` gives.
    unfoldable pub filled : Outcome (List ℕ) → M (Node D) (Unit {0})
    filled (ok mac) t = (ok tt, record t { my_mac = mac })
    filled (err e) t = (err ret_fail, close t)
    filled Outcome.fault t = (Outcome.fault, t)

    unfoldable pub config_lan865x_initialize : ℕ → ℕ → ℕ → M (Node D) (Unit {0})
    config_lan865x_initialize mac node_id node_cnt t =
        let d1 = spi.set_mac_address_to_chip t.dev mac in
        let d2 = spi.set_node_config d1 node_id node_cnt in
        let (chip, d3) = spi.get_mac_address_on_chip (spi.init_lan865x d2) in
        filled (fill_my_mac_address chip) (record t { dev = d3 })

    -- A role that cannot be configured closes the device and ends.
    unfoldable pub or_close : Outcome (Unit {0}) → M (Node D) (Unit {0})
    or_close (ok u) t = (ok tt, t)
    or_close (err e) t = (err 1, close t)
    or_close Outcome.fault t = (Outcome.fault, t)

    unfoldable pub begin_role : ℕ → ℕ → M (Node D) (Unit {0})
    begin_role mac node_id =
        clear_packet >> (attempt (config_lan865x_initialize mac node_id node_count) >>= or_close)

    unfoldable pub transmit : List ℕ → M (Node D) ℕ
    transmit frame t =
        let (ret, d) = spi.spi_transmit_frame t.dev frame in (ok ret, record t { dev = d })

    unfoldable pub transmit_with_timestamp : List ℕ → M (Node D) ℕ
    transmit_with_timestamp frame t =
        let (ret, d) = spi.spi_transmit_frame_with_timestamp t.dev frame timestamp_id in
        (ok ret, record t { dev = d })

    -- The caller does not know the room in the buffer.
    unfoldable pub receive : M (Node D) ℕ
    receive t =
        let ((ret, b), d) = spi.spi_receive_frame_with_timestamp t.dev in
        if leb (length b) (length t.packet)
        then (ok ret, record t { dev = d; packet = overwrite t.packet b })
        else (Outcome.fault, record t { dev = d })

    -- Whether there is a time stamp only changes what is printed.
    unfoldable pub show_timestamp : M (Node D) (Unit {0})
    show_timestamp t =
        let (ret, d) = spi.get_timestamp t.dev timestamp_id in (ok tt, record t { dev = d })

    unfoldable pub take_reply : ℕ → M (Node D) Bool
    take_reply rounds =
        receive >>= retry receive rounds >>= when_left (check_packet >>= λ ret. pure true)

    -- The first call asks for a time stamp, those after a failure do not.
    unfoldable pub do_as_coordinator : ℕ → M (Node D) Bool
    do_as_coordinator rounds = do
      begin_role coordinator_mac 0
      my_mac ← gets (λ t. t.my_mac)
      let (buffer, length) = make_arp_packet my_mac (replicate max_packet_size 0)
      ret ← transmit_with_timestamp (take length buffer)
      sent ← retry (transmit (take length buffer)) rounds ret
      when_left (show_timestamp >> take_reply rounds) sent

    -- What the follower does after `check_arp_packet`, on its status.
    unfoldable pub answer : ℕ → Outcome (Unit {0}) → M (Node D) Bool
    answer rounds (ok u) = do
      my_mac ← gets (λ t. t.my_mac)
      my_ip ← gets (λ t. t.follower_ip)
      request ← gets (λ t. t.packet)
      let reply = create_arp_reply request (replicate max_packet_size 0) my_mac my_ip
      ret ← transmit_with_timestamp (take packet_size_arp reply)
      sent ← retry (transmit_with_timestamp (take packet_size_arp reply)) rounds ret
      when_left (show_timestamp >> pure true) sent
    answer rounds (err e) = pure true
    answer rounds Outcome.fault = λ t. (Outcome.fault, t)

    unfoldable pub do_as_follower : ℕ → M (Node D) Bool
    do_as_follower rounds = do
      begin_role follower_mac follower_node_id
      ret ← receive
      received ← retry receive rounds ret
      when_left (check_packet >>= answer rounds) received

    -- The result of a role is not looked at.
    abbrev pub role_ended : Outcome Bool → Outcome Bool
    role_ended (ok left) = ok left
    role_ended (err e) = ok true
    role_ended Outcome.fault = Outcome.fault

    abbrev pub run_option : ℕ → RoleOption → M (Node D) Bool
    run_option rounds option_c t = let r = do_as_coordinator rounds t in (role_ended r.0, r.1)
    run_option rounds option_f t = let r = do_as_follower rounds t in (role_ended r.0, r.1)
    run_option rounds option_h t = (ok true, t)
    run_option rounds option_other t = (ok true, t)

    -- The loop over `getopt`.
    unfoldable pub run_options : ℕ → List RoleOption → M (Node D) Bool
    run_options rounds [] t = (ok true, t)
    run_options rounds (o ∷ os) t =
        continue (run_option rounds o t).0 (when_left (run_options rounds os))
          (run_option rounds o t).1

    -- `main` after `spi_open`, which gives a handle or not. The addresses are as `sscanf` is meant
    -- to leave them.
    unfoldable pub run : Bool → ℕ → List RoleOption → List ℕ → M (Node D) Bool
    run false rounds os ip t = (err ret_fail, t)
    run true rounds os ip t =
        let r = run_options rounds os (record t { follower_ip = ip }) in
        continue r.0 (when_left (λ s. (ok true, close s))) r.1
