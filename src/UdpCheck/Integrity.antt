-- ===== src/UdpCheck/Integrity.antt =====
-- What the counters of the integrity check say about the path of the datagrams.
use base_t1s.Prelude.{
  ℕ, zero, suc, ◌+◌, ◌-◌, leb, ◌<◌, ◌%◌, Bool, true, false, List, [], ◌∷◌, some, none, M, ok,
  continue, pure, length, ◌≡◌, refl, arith, ap, ◌∙◌, ltb, if◌then◌else◌, ◌⊎◌, inl, inr, Outcome,
  subst,
}
use base_t1s.UdpCheck.Texts.{IsMessage, HasText, compare-HasText, compare-other}
use base_t1s.UdpCheck.{
  Net, Counts, bufsize, message_length, check_message, random_letter, random_letters,
  generate_random_message, received, sent, exchange, exchanges, main, header_sizes,
}

-- A peer that answers each datagram with what the path makes of it, and a path that may do something
-- else to each datagram: it brings back number `i` with its text where `intact i` holds, and with
-- another text where not. Every answer is shorter than the buffer.
pub record Peer {D : Type 0} (net : Net D) (n : ℕ) : Type 0 where
  pub path : ℕ → List ℕ → List ℕ
  pub intact : ℕ → Bool
  pub waiting : D → List ℕ
  pub number : D → ℕ
  pub rand-number : (d : D) → number (net.rand d).1 ≡ number d
  pub sendto-waits :
      (d : D) (b : List ℕ)
      → let r = net.sendto d b in (r.0 ≡ true) × (waiting r.1 ≡ b) × (number r.1 ≡ number d)
  pub recvfrom-gives :
      (d : D)
      → let r = net.recvfrom d in
        (r.0 ≡ some (path (number d) (waiting d))) × (number r.1 ≡ suc (number d))
  pub path-fits : (i : ℕ) (b : List ℕ) → IsMessage n b → length (path i b) < bufsize
  pub path-intact :
      (i : ℕ) (b : List ℕ)
      → IsMessage n b
      → ((intact i ≡ true) × HasText b (path i b)) ⊎ ((intact i ≡ false) × (¬ HasText b (path i b)))

-- How many of the `n` datagrams from number `i` on come back with their text.
abbrev pub hits : (ℕ → Bool) → ℕ → ℕ → ℕ
hits intact i zero = 0
hits intact i (suc n) = (if intact i then 1 else 0) + hits intact (suc i) n

-- `n` datagrams more are counted, each once, and those with their text as successes.
abbrev Counted : (ℕ → Bool) → ℕ → ℕ → Counts → Counts → Type 0
Counted intact i n c c' =
    (c'.success ≡ c.success + hits intact i n) × (c'.success + c'.fail ≡ c.success + c.fail + n)

check_message-HasText :
    (n : ℕ) (hit : Bool) (b r : List ℕ) (c : Counts)
    → IsMessage n b
    → ((hit ≡ true) × HasText b r) ⊎ ((hit ≡ false) × (¬ HasText b r))
    → let c' = check_message b r c in
      (c'.success ≡ c.success + (if hit then 1 else 0))
      × (c'.success + c'.fail ≡ c.success + c.fail + 1)
unfolding check_message
check_message-HasText n hit b r c m (inl (e, h)) =
    let same = compare-HasText n b r m h in ground arith
check_message-HasText n hit b r c m (inr (e, h)) = let differ = compare-other b r h in ground arith

module _ {D : Type 0} (net : Net D) (count : D → ℕ)
    (kept : (d : D) → count (net.rand d).1 ≡ count d) where
  random_letters-IsMessage :
      (n : ℕ) (d : D)
      → (b : List ℕ) × (d' : D) × (random_letters net n d ≡ (ok b, d'))
        × IsMessage n b
        × (count d' ≡ count d)
  unfolding random_letters random_letter
  random_letters-IsMessage zero d = ([], d, refl, refl, refl)
  random_letters-IsMessage (suc n) d =
      let c = (net.rand d).0 % 26 + 97 in
      let (b, d', e, m, same) = random_letters-IsMessage n (net.rand d).1 in
      (
        c ∷ b,
        d',
        ap (λ x. continue x.0 (λ message. pure (c ∷ message)) x.1) e,
        ((omega arith, omega arith), m),
        same ∙ kept d,
      )

module _ {D : Type 0} (net : Net D) (n : ℕ) (peer : Peer net n) where
  open peer use {path, intact, waiting, number}

  -- An exchange that counts one datagram.
  abbrev Step : Outcome Counts × D → Counts → D → Type 0
  Step r c d =
      (c' : Counts) × (d' : D) × (r ≡ (ok c', d'))
      × Counted intact (number d) 1 c c'
      × (number d' ≡ suc (number d))

  sent-Step :
      (b : List ℕ) (c : Counts) (d : D)
      → IsMessage n b
      → waiting d ≡ b
      → Step (sent net b c true d) c d
  unfolding sent received
  sent-Step b c d m w =
      let a = path (number d) b in
      let fits : ltb (length a) bufsize ≡ true =
        let lt = peer.path-fits (number d) b m in ground arith in
      let (gives, next) = peer.recvfrom-gives d in
      let (hit, sum) =
        check_message-HasText n (intact (number d)) b a c m (peer.path-intact (number d) b m) in
      (
        check_message b a c,
        (net.recvfrom d).1,
        ap (λ o. (received net b c o, (net.recvfrom d).1))
              (gives ∙ ap (λ x. some (path (number d) x)) w)
            ∙ rw fits refl,
        (omega (arith, hit), sum),
        next,
      )

  exchange-Step : (c : Counts) (d : D) → Step (exchange net (some n) c d) c d
  unfolding exchange generate_random_message
  exchange-Step c d =
      let (b, d1, e, m, same) = random_letters-IsMessage net number peer.rand-number n d in
      let (ok_sent, w, kept) = peer.sendto-waits d1 b in
      let (c', d', e', counted, next) = sent-Step b c (net.sendto d1 b).1 m w in
      let rest : List ℕ → M D Counts =
        λ sendbuf d. let (status, d2) = net.sendto d sendbuf in sent net sendbuf c status d2 in
      (
        c',
        d',
        ap (λ x. continue x.0 rest x.1) e
            ∙ ap (λ s. sent net b c s (net.sendto d1 b).1) ok_sent
            ∙ e',
        subst (λ i. Counted intact i 1 c c') (kept ∙ same) counted,
        next ∙ ap suc (kept ∙ same),
      )

  exchanges-Counted :
      (k : ℕ) (c : Counts) (d : D)
      → (c' : Counts) × (d' : D) × (exchanges net k (some n) c d ≡ (ok c', d'))
        × Counted intact (number d) k c c'
  unfolding exchanges
  exchanges-Counted zero c d = (c, d, refl, (omega arith, omega arith))
  exchanges-Counted (suc k) c d =
      let (c1, d1, e, (hit1, sum1), next) = exchange-Step c d in
      let (c2, d2, e', (hit2, sum2)) = exchanges-Counted k c1 d1 in
      let later : hits intact (number d1) k ≡ hits intact (suc (number d)) k =
        ap (λ i. hits intact i k) next in
      (
        c2,
        d2,
        ap (λ x. continue x.0 (exchanges net k (some n)) x.1) e ∙ e',
        (omega (arith, hit1, hit2, later), omega arith),
      )

  -- Over a peer that answers each message with what the path makes of it, where the path may bring
  -- back each datagram with its text or with another one as it likes, every answer comes and is
  -- shorter than the receive buffer, and the length argument is 46 more than a message length: the
  -- tool ends, the successes it counts are exactly the datagrams that came back with their text, up
  -- to a first 0, and all the others are counted as failures.
  pub main-Counts :
      (argument count : ℕ) (d : D)
      → argument ≡ n + header_sizes
      → (c : Counts) × (d' : D) × (main net true argument count d ≡ (ok c, d'))
        × (c.success ≡ hits intact (number d) count)
        × (c.success + c.fail ≡ count)
  unfolding main message_length
  main-Counts argument count d e =
      let start : Counts = record { success = 0; fail = 0 } in
      let (c, d', e', (hit, sum)) = exchanges-Counted count start d in
      (
        c,
        d',
        ap (λ l. exchanges net count l start d) long_enough ∙ e',
        omega (arith, hit),
        omega (arith, sum),
      )
    where
      long_enough :
          (if leb header_sizes argument then some (argument - header_sizes) else none) ≡ some n
      long_enough = ground (arith, e)
