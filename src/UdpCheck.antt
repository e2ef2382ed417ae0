-- ===== src/UdpCheck.antt =====
-- The tool examples/udp-integrity-check/udp-integrity-check.c: random messages are sent and compared
-- with what comes back. The sockets and `rand` are parameters, and so are the numbers that `atoi`
-- gives for the arguments. The progress bar and the other prints are left out.
pub mod Texts
pub mod Integrity
use base_t1s.Prelude.{
  ℕ, zero, suc, ◌+◌, ◌-◌, ◌%◌, Bool, true, false, List, [], ◌∷◌, Option, some, none, M, Outcome, ok,
  err, ◌>>=◌, continue, pure, length, ltb, leb, ◌==◌, if◌then◌else◌,
}
use base_t1s.Tc6.Ctrl.{bytes_eq}

-- `rand`, the status of `sendto`, and the datagram that `recvfrom` gives, cut to the size of the
-- buffer, or none for an error.
pub record Net (D : Type 0) : Type 0 where
  pub rand : D → ℕ × D
  pub sendto : D → List ℕ → Bool × D
  pub recvfrom : D → Option (List ℕ) × D

abbrev pub bufsize : ℕ
bufsize = 2048

-- ETHHDRSIZE, IPHDRSIZE, UDPHDRSIZE and FCSSIZE.
abbrev pub header_sizes : ℕ
header_sizes = 14 + 20 + 8 + 4

-- `msglen`; none for a negative length.
unfoldable pub message_length : ℕ → Option ℕ
message_length argument = if leb header_sizes argument then some (argument - header_sizes) else none

-- The characters before the first 0.
unfoldable pub c_string : List ℕ → List ℕ
c_string [] = []
c_string (c ∷ cs) = if c == 0 then [] else c ∷ c_string cs

-- The counters `success` and `fail`.
pub record Counts : Type 0 where
  pub success : ℕ
  pub fail : ℕ

unfoldable pub check_message : List ℕ → List ℕ → Counts → Counts
check_message sendbuf recvbuf counts =
    if bytes_eq sendbuf (c_string recvbuf)
    then record counts { success = counts.success + 1 }
    else record counts { fail = counts.fail + 1 }

module _ {D : Type 0} (net : Net D) where
  unfoldable pub random_letter : M D ℕ
  random_letter d = let (r, d') = net.rand d in (ok (r % 26 + 97), d')

  -- The loop of `generate_random_message`.
  unfoldable pub random_letters : ℕ → M D (List ℕ)
  random_letters zero = pure []
  random_letters (suc n) = random_letter >>= λ c. random_letters n >>= λ message. pure (c ∷ message)

  -- A negative length makes the write of the final 0 go outside.
  unfoldable pub generate_random_message : Option ℕ → M D (List ℕ)
  generate_random_message (some n) = random_letters n
  generate_random_message none = λ d. (Outcome.fault, d)

  -- What follows `recvfrom`. The 0 is written behind the datagram.
  unfoldable pub received : List ℕ → Counts → Option (List ℕ) → Outcome Counts
  received sendbuf counts none = err 1
  received sendbuf counts (some recvbuf) =
      if ltb (length recvbuf) bufsize
      then ok (check_message sendbuf recvbuf counts)
      else Outcome.fault

  -- What follows `sendto`.
  unfoldable pub sent : List ℕ → Counts → Bool → M D Counts
  sent sendbuf counts true d = let (r, d') = net.recvfrom d in (received sendbuf counts r, d')
  sent sendbuf counts false d = (err 1, d)

  unfoldable pub exchange : Option ℕ → Counts → M D Counts
  exchange msglen counts = generate_random_message msglen >>= λ sendbuf d.
      let (status, d') = net.sendto d sendbuf in sent sendbuf counts status d'

  -- The loop over `i`, with the rounds left first.
  unfoldable pub exchanges : ℕ → Option ℕ → Counts → M D Counts
  exchanges zero msglen counts = pure counts
  exchanges (suc n) msglen counts = exchange msglen counts >>= exchanges n msglen

  -- `main` with the numbers of its fifth and sixth argument; `opened` says whether there is a socket.
  unfoldable pub main : Bool → ℕ → ℕ → M D Counts
  main false argument count d = (err 1, d)
  main true argument count d =
      exchanges count (message_length argument) (record { success = 0; fail = 0 }) d
