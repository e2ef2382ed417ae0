-- ===== src/Tests/Chunks.antt =====
-- The chunks of a device as bytes, with their footers.
use base_t1s.Prelude.{
  ℕ, zero, suc, ◌+◌, ◌-◌, ◌*◌, ◌≤◌, ◌<◌, List, [], ◌∷◌, ◌++◌, ◌≡◌, refl, arith, ap, ◌∙◌, length,
  take, drop, replicate, length-replicate, length-append, take-append, drop-append, append_assoc,
}
use base_t1s.Word.{from_be32, field_get}
use base_t1s.Tc6.Rx.Frames.{slice}
use base_t1s.Tc6.Rx.Chunks.{footer_of, HasData}
use base_t1s.Tc6.Rx.Source.{
  RxChunk, no_data, frame_start, frame_middle, frame_end, HoldsChunk, HoldsChunks, IsEmpty,
}

abbrev pub payload : RxChunk → List ℕ
payload no_data = []
payload (frame_start p) = p
payload (frame_middle p) = p
payload (frame_end p) = p

-- The two bytes of a footer with the flags and the end byte offset.
abbrev pub flag_byte : RxChunk → ℕ
flag_byte no_data = 0
flag_byte (frame_start p) = 0x30
flag_byte (frame_middle p) = 0x20
flag_byte (frame_end p) = 0x20

abbrev pub end_byte : RxChunk → ℕ
end_byte no_data = 0
end_byte (frame_start p) = 0
end_byte (frame_middle p) = 0
end_byte (frame_end p) = 0x40 + (length p - 1)

-- A footer with `m` chunks left to be received and credit for one chunk more.
abbrev pub footer : ℕ → RxChunk → List ℕ
footer m c = (0x20 + m) ∷ flag_byte c ∷ end_byte c ∷ 2 ∷ []

abbrev pub encode : ℕ → RxChunk → List ℕ
encode m c = (payload c ++ replicate (64 - length (payload c)) 0) ++ footer m c

abbrev pub encode_all : ℕ → List RxChunk → List ℕ
encode_all m [] = []
encode_all m (c ∷ cs) = encode m c ++ encode_all m cs

-- The bytes in a chunk: all 64, or some of them in the last one.
abbrev pub IsSized : RxChunk → Type 0
IsSized no_data = Unit {0}
IsSized (frame_start p) = length p ≡ 64
IsSized (frame_middle p) = length p ≡ 64
IsSized (frame_end p) = (1 ≤ length p) × (length p ≤ 64)

abbrev pub AllSized : List RxChunk → Type 0
AllSized [] = Unit {0}
AllSized (c ∷ cs) = IsSized c × AllSized cs

payload-le : (c : RxChunk) → IsSized c → length (payload c) ≤ 64
payload-le no_data h = omega arith
payload-le (frame_start p) h = omega arith
payload-le (frame_middle p) h = omega arith
payload-le (frame_end p) h = omega arith

abbrev padded : RxChunk → List ℕ
padded c = payload c ++ replicate (64 - length (payload c)) 0

length-padded : (c : RxChunk) → IsSized c → length (padded c) ≡ 64
length-padded c h = omega (
  arith,
  payload-le c h,
  length-append (payload c) (replicate (64 - length (payload c)) 0),
  length-replicate {A = ℕ} (64 - length (payload c)) 0,
)

length-encode : (m : ℕ) (c : RxChunk) → IsSized c → length (encode m c) ≡ 68
length-encode m c h = omega (arith, length-append (padded c) (footer m c), length-padded c h)

pub length-encode_all :
    (m : ℕ) (cs : List RxChunk) → AllSized cs → length (encode_all m cs) ≡ length cs * 68
length-encode_all m [] h = refl
length-encode_all m (c ∷ cs) (h, hs) = omega (
  arith,
  length-append (encode m c) (encode_all m cs),
  length-encode m c h,
  length-encode_all m cs hs,
)

-- Behind one chunk.
footer-behind : (i : ℕ) (x b : List ℕ) → length x ≡ 68 → footer_of (i + 1) (x ++ b) ≡ footer_of i b
footer-behind i x b h =
    ap (λ n. from_be32 (take 4 (drop n (x ++ b)))) {y = 68 + (i * 68 + 64)} (omega arith)
    ∙ ap (λ y. from_be32 (take 4 y)) (drop-append 68 (i * 68 + 64) x b h)

slice-behind :
    (i n : ℕ) (x b : List ℕ) → length x ≡ 68 → slice (x ++ b) ((i + 1) * 68) n ≡ slice b (i * 68) n
slice-behind i n x b h =
    ap (λ j. take n (drop j (x ++ b))) {y = 68 + i * 68} (omega arith)
    ∙ ap (take n) (drop-append 68 (i * 68) x b h)

HoldsChunk-behind :
    (i : ℕ) (x b : List ℕ) (c : RxChunk)
    → length x ≡ 68
    → HoldsChunk b i c
    → HoldsChunk (x ++ b) (i + 1) c
HoldsChunk-behind i x b no_data l h = rw (footer-behind i x b l) h
HoldsChunk-behind i x b (frame_start p) l h = rw (footer-behind i x b l, slice-behind i 64 x b l) h
HoldsChunk-behind i x b (frame_middle p) l h = rw (footer-behind i x b l, slice-behind i 64 x b l) h
HoldsChunk-behind i x b (frame_end p) l h =
    rw (footer-behind i x b l, slice-behind i (length p) x b l) h

HoldsChunks-behind :
    (i : ℕ) (x b : List ℕ) (cs : List RxChunk)
    → length x ≡ 68
    → HoldsChunks b i cs
    → HoldsChunks (x ++ b) (i + 1) cs
HoldsChunks-behind i x b [] l h = tt
HoldsChunks-behind i x b (c ∷ cs) l (h, hs) =
    (HoldsChunk-behind i x b c l h, HoldsChunks-behind (i + 1) x b cs l hs)

footer-first :
    (m : ℕ) (c : RxChunk) (b : List ℕ)
    → IsSized c
    → footer_of 0 (encode m c ++ b) ≡ from_be32 (footer m c)
footer-first m c b h =
    ap (λ x. from_be32 (take 4 (drop 64 x))) (append_assoc (padded c) (footer m c) b)
    ∙ ap (λ y. from_be32 (take 4 y))
        (drop-append 64 0 (padded c) (footer m c ++ b) (length-padded c h))

-- The bytes of the payload are in front.
payload-first : (p x y b : List ℕ) (n : ℕ) → length p ≡ n → take n (((p ++ x) ++ y) ++ b) ≡ p
payload-first p x y b n h =
    ap (λ z. take n (z ++ b)) (append_assoc p x y)
    ∙ ap (take n) (append_assoc p (x ++ y) b)
    ∙ take-append n p ((x ++ y) ++ b) h

start-HasData : (m : ℕ) (p : List ℕ) → m ≤ 31 → HasData (from_be32 (footer m (frame_start p)))
start-HasData m p le = record {
  no_status = omega arith;
  good_header = omega arith;
  in_step = omega arith;
  has_payload = omega arith;
}

middle-HasData : (m : ℕ) (p : List ℕ) → m ≤ 31 → HasData (from_be32 (footer m (frame_middle p)))
middle-HasData m p le = record {
  no_status = omega arith;
  good_header = omega arith;
  in_step = omega arith;
  has_payload = omega arith;
}

end-HasData :
    (m : ℕ) (p : List ℕ) → m ≤ 31 → length p ≤ 64 → HasData (from_be32 (footer m (frame_end p)))
end-HasData m p le h = record {
  no_status = omega arith;
  good_header = omega arith;
  in_step = omega arith;
  has_payload = omega arith;
}

no_data-IsEmpty : (m : ℕ) → m ≤ 31 → IsEmpty (from_be32 (footer m no_data))
no_data-IsEmpty m le = record {
  no_status = omega arith;
  good_header = omega arith;
  in_step = omega arith;
  no_payload = omega arith;
}

HoldsChunk-first :
    (m : ℕ) (c : RxChunk) (b : List ℕ) → m ≤ 31 → IsSized c → HoldsChunk (encode m c ++ b) 0 c
HoldsChunk-first m no_data b le h = rw (footer-first m no_data b h) (no_data-IsEmpty m le)
HoldsChunk-first m (frame_start p) b le h = rw (footer-first m (frame_start p) b h) (
  (start-HasData m p le, omega arith, omega arith, omega arith),
  h,
  payload-first p (replicate (64 - length p) 0) (footer m (frame_start p)) b 64 h,
)
HoldsChunk-first m (frame_middle p) b le h = rw (footer-first m (frame_middle p) b h) (
  (middle-HasData m p le, omega arith, omega arith),
  h,
  payload-first p (replicate (64 - length p) 0) (footer m (frame_middle p)) b 64 h,
)
HoldsChunk-first m (frame_end p) b le h = rw (footer-first m (frame_end p) b h) (
  (end-HasData m p le h.1, omega arith, omega arith, omega arith),
  h,
  payload-first p (replicate (64 - length p) 0) (footer m (frame_end p)) b (length p) refl,
)

pub HoldsChunks-encode_all :
    (m : ℕ) (cs : List RxChunk) → m ≤ 31 → AllSized cs → HoldsChunks (encode_all m cs) 0 cs
HoldsChunks-encode_all m [] le h = tt
HoldsChunks-encode_all m (c ∷ cs) le (h, hs) = (
  HoldsChunk-first m c (encode_all m cs) le h,
  HoldsChunks-behind 0 (encode m c) (encode_all m cs) cs (length-encode m c h)
      (HoldsChunks-encode_all m cs le hs),
)

-- Every footer has the same two counts.
footer-counts :
    (m : ℕ) (c : RxChunk)
    → m ≤ 31
    → IsSized c
    → (field_get 5 1 (from_be32 (footer m c)) ≡ 1) × (field_get 28 24 (from_be32 (footer m c)) ≡ m)
footer-counts m no_data le h = omega arith
footer-counts m (frame_start p) le h = omega arith
footer-counts m (frame_middle p) le h = omega arith
footer-counts m (frame_end p) le h = omega arith

pub footers-count :
    (m i : ℕ) (cs : List RxChunk)
    → m ≤ 31
    → AllSized cs
    → i < length cs
    → (field_get 5 1 (footer_of i (encode_all m cs)) ≡ 1)
      × (field_get 28 24 (footer_of i (encode_all m cs)) ≡ m)
footers-count m i [] le h lt = absurd (omega arith)
footers-count m zero (c ∷ cs) le (h, hs) lt =
    rw (footer-first m c (encode_all m cs) h) (footer-counts m c le h)
footers-count m (suc i) (c ∷ cs) le (h, hs) lt =
    let behind : footer_of (suc i) (encode_all m (c ∷ cs)) ≡ footer_of i (encode_all m cs) =
      ap (λ j. footer_of j (encode_all m (c ∷ cs))) {y = i + 1} (omega arith)
      ∙ footer-behind i (encode m c) (encode_all m cs) (length-encode m c h) in
    rw behind (footers-count m i cs le hs (omega arith))
