-- ===== src/Lan865x/Net/Modes.antt =====
-- The receive modes of the network device, and opening and closing it, over registers that keep what
-- is written to them.
use base_t1s.Prelude.{
  ℕ, ◌^◌, ◌<◌, bit_or, Bool, true, false, List, [], ◌∷◌, ◌++◌, M, ok, ◌≡◌, refl, arith, ap, enodev,
  continue,
}
use base_t1s.Word.Bits.{bit_or-lt}
use base_t1s.Tc6.Bus.{RegisterBus, or_err}
use base_t1s.Tc6.Bus.Laws.{
  RegisterFile, Writes, put, put_all, write-Writes, write_ignored-Writes, read-Writes, after-Writes,
  seq-Writes, bind-Writes, through-Writes,
}
use base_t1s.Lan865x.Priv.{Priv}
use base_t1s.Lan865x.Multicast.{
  hash_masks, write_hash, set_specific_multicast_addr, set_all_multicast_addr,
  clear_all_multicast_addr,
}
use base_t1s.Lan865x.Multicast.Filter.{hash_masks-lt}
use base_t1s.Lan865x.Net.{
  hash_then, after_hash, promiscuous_cfg, multicast_cfg, multicast_mode, multicast_work_handler,
  hw_enable, net_open,
}

-- The registers that the receive mode comes to: the two hash registers and NET_CFG.
abbrev pub mode_writes : Bool → Bool → List (List ℕ) → List (ℕ × ℕ)
mode_writes true allmulti mc = (0x00010001, 0x10) ∷ []
mode_writes false true mc =
    (0x00010021, 0xffffffff) ∷ (0x00010020, 0xffffffff) ∷ (0x00010001, 0x40) ∷ []
mode_writes false false [] = (0x00010021, 0) ∷ (0x00010020, 0) ∷ (0x00010001, 0) ∷ []
mode_writes false false (a ∷ mc) =
    (0x00010021, (hash_masks (a ∷ mc) 0 0).0)
    ∷ (0x00010020, (hash_masks (a ∷ mc) 0 0).1)
    ∷ (0x00010001, 0x40)
    ∷ []

module _ {S : Type 0} {bus : RegisterBus S} (regs : RegisterFile bus)
    (plain_hi : regs.IsPlain 0x00010021) (plain_lo : regs.IsPlain 0x00010020)
    (plain_cfg : regs.IsPlain 0x00010001) where
  write_hash-Writes :
      (s : S) (hi lo : ℕ)
      → regs.IsReady s
      → hi < 2 ^ 32
      → lo < 2 ^ 32
      → Writes regs ((0x00010021, hi) ∷ (0x00010020, lo) ∷ []) tt (write_hash bus hi lo) s
  unfolding write_hash
  write_hash-Writes s hi lo h a b =
      seq-Writes regs ((0x00010021, hi) ∷ []) ((0x00010020, lo) ∷ []) tt
        (bus.write_register 0x00010021 hi) (bus.write_register 0x00010020 lo) s
        (write-Writes regs s 0x00010021 hi h plain_hi a)
        λ s' h' g. write-Writes regs s' 0x00010020 lo h' plain_lo b

  hash_then-Writes :
      (s : S) (us : List (ℕ × ℕ)) (hash : M S (Unit {0})) (cfg : ℕ)
      → cfg < 2 ^ 32
      → Writes regs us tt hash s
      → Writes regs (us ++ (0x00010001, cfg) ∷ []) tt (hash_then bus hash cfg) s
  unfolding hash_then after_hash
  hash_then-Writes s us hash cfg lt w =
      after-Writes regs us ((0x00010001, cfg) ∷ []) tt tt hash (after_hash bus cfg) s w
        λ s' h g. write_ignored-Writes regs s' 0x00010001 cfg h plain_cfg lt

  mode-Writes :
      (s : S) (promisc allmulti : Bool) (mc : List (List ℕ))
      → regs.IsReady s
      → Writes regs (mode_writes promisc allmulti mc) tt (multicast_mode bus promisc allmulti mc) s
  unfolding multicast_mode promiscuous_cfg multicast_cfg set_all_multicast_addr
      clear_all_multicast_addr set_specific_multicast_addr
  mode-Writes s true allmulti mc h =
      write_ignored-Writes regs s 0x00010001 0x10 h plain_cfg (omega arith)
  mode-Writes s false true mc h =
      hash_then-Writes s ((0x00010021, 0xffffffff) ∷ (0x00010020, 0xffffffff) ∷ [])
        (write_hash bus 0xffffffff 0xffffffff) 0x40 (omega arith)
        (write_hash-Writes s 0xffffffff 0xffffffff h (omega arith) (omega arith))
  mode-Writes s false false [] h =
      hash_then-Writes s ((0x00010021, 0) ∷ (0x00010020, 0) ∷ []) (write_hash bus 0 0) 0
        (omega arith) (write_hash-Writes s 0 0 h (omega arith) (omega arith))
  mode-Writes s false false (a ∷ mc) h =
      let hi = (hash_masks (a ∷ mc) 0 0).0 in
      let lo = (hash_masks (a ∷ mc) 0 0).1 in
      let (lt_hi, lt_lo) = hash_masks-lt (a ∷ mc) 0 0 (omega arith) (omega arith) in
      hash_then-Writes s ((0x00010021, hi) ∷ (0x00010020, lo) ∷ []) (write_hash bus hi lo) 0x40
        (omega arith) (write_hash-Writes s hi lo h lt_hi lt_lo)

  -- The work handler ends with success, changes nothing of the driver's data, and leaves in the hash
  -- registers and NET_CFG what the flags and the addresses of the device ask for: bit 4 alone for
  -- promiscuous, else bit 6 with all hashes or with those of the addresses, else nothing.
  pub multicast_work_handler-Writes :
      (p : Priv S)
      → regs.IsReady p.tc6
      → (s' : S) × (multicast_work_handler bus p ≡ (ok tt, record p { tc6 = s' }))
        × regs.IsReady s'
        × ((b : ℕ)
            → regs.get s' b ≡ put_all (mode_writes p.promisc p.allmulti p.mc) (regs.get p.tc6) b)
  unfolding multicast_work_handler
  multicast_work_handler-Writes p h =
      let (s', e, h', g) = mode-Writes p.tc6 p.promisc p.allmulti p.mc h in
      (s', ap (λ x. (x.0, record p { tc6 = x.1 })) e, h', g)

module _ {S : Type 0} {bus : RegisterBus S} (regs : RegisterFile bus)
    (plain_ctl : regs.IsPlain 0x00010000) where
  hw_enable-Writes :
      (s : S)
      → regs.IsReady s
      → Writes regs ((0x00010000, bit_or (regs.get s 0x00010000) 0xc) ∷ []) tt (hw_enable bus) s
  unfolding hw_enable
  hw_enable-Writes s h =
      let old = regs.get s 0x00010000 in
      let new = bit_or old 0xc in
      let fits : new < 2 ^ 32 = bit_or-lt 32 old 0xc (regs.get-lt s 0x00010000 h) (omega arith) in
      let get_old =
        through-Writes regs [] old old (or_err enodev) (bus.read_register 0x00010000) s refl
          (read-Writes regs s 0x00010000 h plain_ctl) in
      bind-Writes regs [] ((0x00010000, new) ∷ []) old tt
        (λ t.
          (or_err enodev (bus.read_register 0x00010000 t).0, (bus.read_register 0x00010000 t).1))
        (λ v t. (
          or_err enodev (bus.write_register 0x00010000 (bit_or v 0xc) t).0,
          (bus.write_register 0x00010000 (bit_or v 0xc) t).1,
        ))
        s get_old
        λ s' h' g.
          through-Writes regs ((0x00010000, new) ∷ []) tt tt (or_err enodev)
            (bus.write_register 0x00010000 new) s' refl
            (write-Writes regs s' 0x00010000 new h' plain_ctl fits)

  -- Opening the device succeeds, starts the PHY, sets the bits 2 and 3 (transmitter and receiver) of
  -- NET_CTL and keeps its other bits and the other registers.
  net_open-Writes :
      (p : Priv S)
      → regs.IsReady p.tc6
      → (s' : S) × (net_open bus p ≡ (ok tt, record p { tc6 = s'; phy_started = true }))
        × regs.IsReady s'
        × ((b : ℕ)
            → regs.get s' b
              ≡ put (regs.get p.tc6) 0x00010000 (bit_or (regs.get p.tc6 0x00010000) 0xc) b)
  unfolding net_open
  net_open-Writes p h =
      let (s', e, h', g) = hw_enable-Writes p.tc6 h in
      let after : S → Priv S = λ t. record p { tc6 = t } in
      let next : Unit {0} → M (Priv S) (Unit {0}) =
        λ _ q. (ok tt, record q { phy_started = true }) in
      (s', ap (λ x. continue x.0 next (after x.1)) e, h', g)
