-- ===== src/Tests/Udp.antt =====
-- The integrity check over a path that adds bytes behind a 0 to each datagram, and spoils every second
-- one.
use base_t1s.Prelude.{
  ℕ, suc, zero, ◌+◌, ◌%◌, Bool, true, false, List, [], ◌∷◌, ◌++◌, some, ok, ◌≡◌, refl, arith,
  length, length-append, ◌==◌, if◌then◌else◌, ◌⊎◌, inl, inr, ◌≤◌, ◌<◌,
}
use base_t1s.UdpCheck.{Net, Counts, main, bufsize}
use base_t1s.UdpCheck.Texts.{IsMessage, HasText}
use base_t1s.UdpCheck.Integrity.{Peer, main-Counts}

abbrev tail : List ℕ
tail = 0 ∷ 9 ∷ []

abbrev even : ℕ → Bool
even i = i % 2 == 0

-- The first letter of a spoiled datagram is not a small one.
abbrev noisy : ℕ → List ℕ → List ℕ
noisy i b = (if even i then b else 33 ∷ b) ++ tail

-- The state counts the random numbers and the datagrams, and has the one on its way.
abbrev echo : Net (ℕ × ℕ × List ℕ)
echo = record {
  rand = λ d. (d.0, (d.0 + 1, d.1, d.2));
  sendto = λ d b. (true, (d.0, d.1, b));
  recvfrom = λ d. (some (noisy d.1 d.2), (d.0, suc d.1, d.2));
}

length-IsMessage : (n : ℕ) (b : List ℕ) → IsMessage n b → length b ≡ n
length-IsMessage n [] m = omega (arith, m)
length-IsMessage zero (c ∷ cs) m = elim m [ ]
length-IsMessage (suc n) (c ∷ cs) (l, m) = omega (arith, length-IsMessage n cs m)

length-spoiled : (e : Bool) (b : List ℕ) → length (if e then b else 33 ∷ b) ≤ length b + 1
length-spoiled true b = omega arith
length-spoiled false b = omega arith

noisy-fits : (i : ℕ) (b : List ℕ) → IsMessage 18 b → length (noisy i b) < bufsize
noisy-fits i b m = omega (
  arith,
  length-append (if even i then b else 33 ∷ b) tail,
  length-spoiled (even i) b,
  length-IsMessage 18 b m,
)

spoiled : (b rest : List ℕ) → IsMessage 18 b → ¬ HasText b (33 ∷ rest)
spoiled [] rest m h = absurd (omega (arith, m))
spoiled (c ∷ cs) rest ((l, u), m) (inl e) = ground arith
spoiled (c ∷ cs) rest ((l, u), m) (inr (behind, e)) = ground arith

noisy-HasText :
    (e : Bool) (b : List ℕ)
    → IsMessage 18 b
    → let r = (if e then b else 33 ∷ b) ++ tail in
      ((e ≡ true) × HasText b r) ⊎ ((e ≡ false) × (¬ HasText b r))
noisy-HasText true b m = inl (refl, inr (9 ∷ [], refl))
noisy-HasText false b m = inr (refl, spoiled b (b ++ tail) m)

abbrev echo_peer : Peer echo 18
echo_peer = record {
  path = noisy;
  intact = even;
  waiting = λ d. d.2;
  number = λ d. d.1;
  rand-number = λ d. refl;
  sendto-waits = λ d b. (refl, refl, refl);
  recvfrom-gives = λ d. (refl, refl);
  path-fits = noisy-fits;
  path-intact = λ i b m. noisy-HasText (even i) b m;
}

-- Of seven messages of 18 letters, four come back intact.
main-Counts_example :
    (c : Counts) × (d' : ℕ × ℕ × List ℕ) × (main echo true 64 7 (0, 0, []) ≡ (ok c, d'))
    × (c.success ≡ 4)
    × (c.success + c.fail ≡ 7)
main-Counts_example = main-Counts echo 18 echo_peer 64 7 (0, 0, []) (omega arith)
