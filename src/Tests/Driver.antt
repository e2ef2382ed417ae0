-- ===== src/Tests/Driver.antt =====
-- The theorems on the network device and the PTP clock at concrete inputs.
use base_t1s.Prelude.{
  ℕ, suc, ◌+◌, ◌*◌, ◌%◌, ◌^◌, ◌≤◌, ◌<◌, ◌/◌, ltb, if◌then◌else◌, true, false, List, [], ◌∷◌, some,
  none, ℤ, pos, negsuc, abs, ok, ◌≡◌, refl, arith, ◌⊎◌, inl, ◌==◌,
}
use base_t1s.Tests.Inputs.{queued}
use base_t1s.Tests.Registers.{store_bus, store_regs, idle_priv}
use base_t1s.Tc6.State.{Tc6, Skb}
use base_t1s.Tc6.Bus.Laws.{put, put_all}
use base_t1s.Lan865x.Priv.{Priv, skb_tstamp_tx, kfree_skb}
use base_t1s.Lan865x.Net.{multicast_work_handler, set_mac_address, capture_mode}
use base_t1s.Lan865x.Net.Modes.{mode_writes, multicast_work_handler-Writes}
use base_t1s.Lan865x.Net.Address.{Commits, set_mac_address-Commits}
use base_t1s.Lan865x.Net.Send.{capture_of, set_aside, capture_mode-frame}
use base_t1s.Lan865x.Ptp.{
  PtpClock, adjusted_ticks, adjfine, settime64, gettimex64, adjtime, ptp_thread_handler,
  ptp_thread_round, stamp_gptp, stamp_normal, stamp_reserved, clear_captures, report_stamp,
  report_and_free,
}
use base_t1s.Lan865x.Packets.Counters.{count_tx_packets-drops}
use base_t1s.Lan865x.Packets.{count_tx_packets, read_tx_timestamp, capture_regs}
use base_t1s.Tc6.Bus.{read_or_old, write_ignored}
use base_t1s.Lan865x.Ptp.Rate.{adjusted_ticks-exact}
use base_t1s.Lan865x.Ptp.Lock.{Released, AfterAdjtime, clock_calls-Released}
use base_t1s.Tc6.Bus.{RegisterBus}
use base_t1s.Lan865x.Clock.{sys_clock, read_or_enodev, get_sys_clock}
use base_t1s.Lan865x.Ptp.Time.{second, RunningTimer, IsRead, gettimex64-IsRead}
use base_t1s.Lan865x.Ptp.Captures.{CaptureDevice}
use base_t1s.Lan865x.Ptp.Stamps.{ptp_thread_round-Reports}

multicast_work_handler-Writes_example :
    (g : ℕ → ℕ) × (multicast_work_handler store_bus idle_priv
      ≡ (ok tt, record idle_priv { tc6 = g }))
    × Unit {0}
    × ((b : ℕ)
        → g b % 2 ^ 32
          ≡ put_all
              (mode_writes idle_priv.promisc idle_priv.allmulti idle_priv.mc)
              (λ c. idle_priv.tc6 c % 2 ^ 32)
              b)
multicast_work_handler-Writes_example =
    multicast_work_handler-Writes store_regs tt tt tt idle_priv tt

abbrev other_address : List ℕ
other_address = 2 ∷ 0 ∷ 0 ∷ 0 ∷ 0 ∷ 2 ∷ []

set_mac_address-Commits_example :
    Commits idle_priv.dev_addr other_address (set_mac_address store_bus 0 other_address idle_priv)
set_mac_address-Commits_example = set_mac_address-Commits store_bus 0 other_address idle_priv

-- A tagged gPTP frame.
abbrev gptp_frame : Skb
gptp_frame = record {
  bytes =
      1 ∷ 0x80 ∷ 0xC2 ∷ 0 ∷ 0 ∷ 0x0E ∷ 2 ∷ 0 ∷ 0 ∷ 0 ∷ 0 ∷ 1 ∷ 0x81 ∷ 0 ∷ 0 ∷ 5 ∷ 0x88 ∷ 0xF7 ∷ 7
      ∷ [];
  tailroom = 0;
  hwtstamp = none;
}

abbrev busy_priv : Priv (Tc6 ℕ)
busy_priv = record {
  tc6 = queued;
  dev_addr = other_address;
  promisc = false;
  allmulti = false;
  mc = [];
  queue_stopped = false;
  phy_started = true;
  tstamp_config = record { flags = 0; tx_type = 1; rx_filter = 0 };
  waiting_gptp = none;
  waiting_normal = none;
  total_tx_count = 0;
  total_tx_drop_count = 0;
  tx_events = [];
}

capture_mode-frame_example :
    let gptp = 0x88 * 2 ^ 8 + 0xF7 == 0x88F7 in
    capture_mode true true 0 gptp_frame busy_priv
    ≡ (ok (capture_of gptp), set_aside gptp gptp_frame busy_priv)
capture_mode-frame_example =
    capture_mode-frame busy_priv 0 gptp_frame
      (1 ∷ 0x80 ∷ 0xC2 ∷ 0 ∷ 0 ∷ 0x0E ∷ 2 ∷ 0 ∷ 0 ∷ 0 ∷ 0 ∷ 1 ∷ []) (7 ∷ []) (some (0x81, 0, 0, 5))
      0x88 0xF7 refl refl (inl refl) refl

-- 10 parts per million.
adjusted_ticks-exact_example :
    ((adjusted_ticks (pos 655360) * 1000000 ≤ 40 * 2 ^ 24 * 1000000 + 10240 * 655360)
      × (40 * 2 ^ 24 * 1000000 + 10240 * 655360 < adjusted_ticks (pos 655360) * 1000000 + 1000000))
    × ((adjusted_ticks (negsuc 655360) * 1000000 + 10240 * suc 655360
          < 40 * 2 ^ 24 * 1000000 + 1000000)
        × (40 * 2 ^ 24 * 1000000 ≤ adjusted_ticks (negsuc 655360) * 1000000 + 10240 * suc 655360))
adjusted_ticks-exact_example = adjusted_ticks-exact 655360 (omega arith)

abbrev free_clock : PtpClock (ℕ → ℕ)
free_clock = record { tc6 = λ _. 0; ti_subnano_b24 = 671088640; locked = false }

clock_calls-Released_example :
    ((ppm : ℤ) → Released (adjfine store_bus ppm free_clock).0 (adjfine store_bus ppm free_clock).1)
    × ((tv_sec tv_nsec : ℕ)
        → Released
            (settime64 store_bus tv_sec tv_nsec free_clock).0
            (settime64 store_bus tv_sec tv_nsec free_clock).1)
    × Released (gettimex64 store_bus free_clock).0 (gettimex64 store_bus free_clock).1
    × ((delta : ℤ) → AfterAdjtime (abs delta == 0) free_clock (adjtime store_bus delta free_clock))
clock_calls-Released_example = clock_calls-Released store_bus free_clock

-- A timer that goes on by 10 ns with each read, up to a bound.
abbrev last_time : ℕ
last_time = 2 ^ 32 * second

abbrev tick : ℕ → ℕ
tick n = if ltb (n + 10) last_time then n + 10 else n

abbrev shown : ℕ → ℕ → ℕ
shown address n =
    if address == 0x00010075 then n % second else if address == 0x00010074 then n / second else 0

abbrev tick_bus : RegisterBus ℕ
tick_bus = record {
  read_register = λ address n. (ok (shown address n), tick n);
  write_register = λ address value n. (ok tt, n);
}

ticks : (n : ℕ) → n < last_time → (n ≤ tick n) × (tick n < last_time)
ticks n h = ground arith

abbrev tick_timer : RunningTimer tick_bus
tick_timer = record {
  IsReady = λ n. n < last_time;
  now = λ n. n;
  now-lt = λ n h. h;
  read_nsec = λ n h. (tick n, n, refl, (omega arith, (ticks n h).0), (ticks n h).1);
  read_sec = λ n h. (tick n, n, refl, (omega arith, (ticks n h).0), (ticks n h).1);
  read_sec_h = λ n h. (tick n, 0, refl, (ticks n h).0, (ticks n h).1);
}

-- 5 ns before the end of a second.
abbrev late : PtpClock ℕ
late = record { tc6 = 1999999995; ti_subnano_b24 = 671088640; locked = false }

gettimex64-IsRead_example :
    (time : ℕ) × (n : ℕ) × (gettimex64 tick_bus late
      ≡ (ok (time / second, time % second), record late { tc6 = n; locked = false }))
    × IsRead 1999999995 n time
    × (n < last_time)
gettimex64-IsRead_example = gettimex64-IsRead tick_timer late (omega arith)

-- The second ends between the two reads.
second_ahead : (gettimex64 tick_bus late).0 ≡ ok (2, 999999995)
unfolding gettimex64 get_sys_clock read_or_enodev sys_clock
second_ahead = refl

-- Capture A is ready, and the register of the captures keeps saying so.
abbrev stamped_priv : Priv (ℕ → ℕ)
stamped_priv = record idle_priv { tc6 = λ _. 0x100; waiting_gptp = some gptp_frame }

abbrev store_chip : CaptureDevice store_bus
store_chip = record {
  IsReady = λ g. Unit {0};
  value = λ g a. g a % 2 ^ 32;
  value-lt = λ g a h. omega arith;
  read_ok = λ g a h w. (g, refl, tt, λ b w. refl);
  clear_ok = λ g v h. (put g 8 v, refl, tt);
}

ptp_thread_round-Reports_example :
    (q : Priv (ℕ → ℕ)) × (ptp_thread_round store_bus 0 stamped_priv ≡ (ok tt, q))
    × (q.tx_events
        ≡ skb_tstamp_tx (some gptp_frame) 256000000256 ∷ kfree_skb (some gptp_frame) ∷ [])
    × (q.waiting_gptp ≡ some gptp_frame)
    × (q.waiting_normal ≡ none)
    × Unit {0}
ptp_thread_round-Reports_example = ptp_thread_round-Reports store_chip 0 stamped_priv tt

-- Two iterations free the same buffer twice.
freed_twice :
    (ptp_thread_handler store_bus 2 0 stamped_priv).1.tx_events
    ≡ skb_tstamp_tx (some gptp_frame) 256000000256
      ∷ kfree_skb (some gptp_frame)
      ∷ skb_tstamp_tx (some gptp_frame) 256000000256
      ∷ kfree_skb (some gptp_frame)
      ∷ []
unfolding ptp_thread_handler ptp_thread_round stamp_gptp stamp_normal stamp_reserved clear_captures
    report_stamp report_and_free read_tx_timestamp capture_regs read_or_old write_ignored
freed_twice = refl

-- The counts of the two registers, of which the second one may be read later.
count_tx_packets-drops_example :
    let q = count_tx_packets 7 9 idle_priv in
    (q.total_tx_count ≡ 0 + 7)
    × (((7 ≤ 9) × (q.total_tx_drop_count + 7 ≡ 0 + 9))
        ⊎ ((9 < 7) × (q.total_tx_drop_count + 7 ≡ 0 + 9 + 2 ^ 32)))
count_tx_packets-drops_example =
    count_tx_packets-drops 7 9 idle_priv (omega arith) (omega arith) (omega arith) (omega arith)
