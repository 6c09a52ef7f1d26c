-- ===== src/Metrics/Bounds.antt =====
-- Which bucket a sample falls into, what a recording preserves, and what the percentiles say.
use native.Mathlib.Nat.{add-zero, mod-eq_of_lt}
use aetherflow.Base.{
  ℕ, zero, suc, ◌+◌, ◌-◌, ◌^◌, ◌≤◌, ◌<◌, max, ◌≡◌, refl, sym, ap, ◌∙◌, ◌⊎◌, inl, inr, true, false,
  List, [], ◌∷◌, arith, leb, ◌==◌, if◌then◌else◌, Bool-cases, length, take,
}
use aetherflow.Base.Words.{word, wrapping_add}
use aetherflow.Metrics.{
  bucket_count, LatencyHistogram, leading_zeros, bucket_index, record_sample, midpoint,
  scan_buckets,
}

abbrev low_step :
    (bits n lz : ℕ)
    → (lz < bits) × (2 ^ (bits - 1 - lz) ≤ n) × (n < 2 ^ (bits - lz))
    → (suc lz < suc bits) × (2 ^ (suc bits - 1 - suc lz) ≤ n) × (n < 2 ^ (suc bits - suc lz))
low_step bits n lz h =
    let e : suc bits - 1 - suc lz ≡ bits - 1 - lz = omega arith in
    let e' : suc bits - suc lz ≡ bits - lz = omega arith in rw (e, e') (omega arith, h.1, h.2)

-- The leading zeros of a positive number place it between two powers of two.
leading_zeros_lem :
    (bits n : ℕ)
    → 0 < n
    → n < 2 ^ bits
    → (leading_zeros bits n < bits)
      × (2 ^ (bits - 1 - leading_zeros bits n) ≤ n)
      × (n < 2 ^ (bits - leading_zeros bits n))
unfolding leading_zeros
leading_zeros_lem zero n pos lt = absurd (omega arith)
leading_zeros_lem (suc bits) n pos lt = elim (Bool-cases (leb (2 ^ bits) n)) [
  | inl top ↦
      let e : suc bits - 1 - 0 ≡ bits = omega arith in
      let e' : suc bits - 0 ≡ suc bits = omega arith in
      let le : 2 ^ bits ≤ n = ground arith in rw (top, e, e') (omega arith, le, lt)
  | inr low ↦
      let less : n < 2 ^ bits = ground arith in
      rw low (low_step bits n (leading_zeros bits n) (leading_zeros_lem bits n pos less))
]

-- For a positive sample of 64 bits the bucket is the exponent of the largest power of two that is
-- at most the sample; the index of any sample of 64 bits is inside the array.
pub bucket_index-InRange :
    (ns : ℕ)
    → ns < word
    → (bucket_index ns < bucket_count)
      × (0 < ns → (2 ^ bucket_index ns ≤ ns) × (ns < 2 ^ (bucket_index ns + 1)))
unfolding bucket_index
bucket_index-InRange ns lt = elim (Bool-cases (ns == 0)) [
  | inl e ↦ rw e (omega arith, λ pos. absurd (ground arith))
  | inr e ↦
      let pos : 0 < ns = ground arith in
      let h = leading_zeros_lem 64 ns pos lt in
      let f : 63 - leading_zeros 64 ns + 1 ≡ 64 - leading_zeros 64 ns = omega arith in
      rw (e, f) (omega arith, λ p. (h.1, h.2))
]

-- `record` of each sample in turn.
pub record_all : LatencyHistogram → List ℕ → LatencyHistogram
record_all h [] = h
record_all h (ns ∷ samples) = record_all (record_sample h ns) samples

-- What the histogram is meant to say of the samples.
unfoldable pub how_many : ℕ → List ℕ → ℕ
how_many i [] = 0
how_many i (ns ∷ samples) =
    let rest = how_many i samples in if i == bucket_index ns then suc rest else rest

abbrev pub total : List ℕ → ℕ
total [] = 0
total (ns ∷ samples) = ns + total samples

abbrev pub largest_from : ℕ → List ℕ → ℕ
largest_from m [] = m
largest_from m (ns ∷ samples) = largest_from (max m ns) samples

scan_buckets-miss :
    (c : ℕ) (cs : List ℕ) (i acc target max_ns : ℕ)
    → acc + c < word
    → leb target (acc + c) ≡ false
    → scan_buckets (c ∷ cs) i acc target max_ns ≡ scan_buckets cs (i + 1) (acc + c) target max_ns
unfolding scan_buckets
scan_buckets-miss c cs i acc target max_ns fits miss =
    let e : wrapping_add acc c ≡ acc + c = mod-eq_of_lt fits in rw (e, miss) refl

scan_buckets-hit :
    (c : ℕ) (cs : List ℕ) (i acc target max_ns : ℕ)
    → acc + c < word
    → leb target (acc + c) ≡ true
    → scan_buckets (c ∷ cs) i acc target max_ns ≡ midpoint (i + 0)
unfolding scan_buckets
scan_buckets-hit c cs i acc target max_ns fits hit =
    let e : wrapping_add acc c ≡ acc + c = mod-eq_of_lt fits in
    rw (e, hit) (ap midpoint (sym (add-zero i)))

-- `k` more buckets are the fewest with which the target is reached.
unfoldable pub IsFewest : List ℕ → ℕ → ℕ → ℕ → Type 0
IsFewest cs acc target k =
    (k < length cs)
    × (target ≤ acc + total (take (k + 1) cs))
    × ((k ≡ 0) ⊎ (acc + total (take k cs) < target))

IsFewest-suc :
    (c : ℕ) (cs : List ℕ) (acc target k : ℕ)
    → acc + c < target
    → IsFewest cs (acc + c) target k
    → IsFewest (c ∷ cs) acc target (suc k)
unfolding IsFewest
IsFewest-suc c cs acc target zero less h = (omega arith, omega (arith, h.1), inr (omega arith))
IsFewest-suc c cs acc target (suc k) less h =
    let e : suc (suc k) + 1 ≡ suc (suc k + 1) = omega arith in
    (
      omega arith,
      rw e (omega (arith, h.1)),
      inr (elim (h.2) [ inl z ↦ absurd (omega arith) | inr l ↦ omega (arith, l) ]),
    )

-- The loop from bucket `i` on stops at the first bucket with which the samples before it and in it
-- reach the target, when all of them do and are fewer than 2^64.
pub scan_buckets_lem :
    (cs : List ℕ) (i acc target max_ns : ℕ)
    → target ≤ acc + total cs
    → acc + total cs < word
    → 0 < length cs
    → (k : ℕ) × (IsFewest cs acc target k)
      × (scan_buckets cs i acc target max_ns ≡ midpoint (i + k))
unfolding IsFewest
scan_buckets_lem [] i acc target max_ns reach fits some_left = absurd (omega arith)
scan_buckets_lem (c ∷ []) i acc target max_ns reach fits some_left =
    let hit : leb target (acc + c) ≡ true = ground arith in
    (0, (omega arith, reach, inl refl), scan_buckets-hit c [] i acc target max_ns (omega arith) hit)
scan_buckets_lem (c ∷ d ∷ cs) i acc target max_ns reach fits some_left =
    elim (Bool-cases (leb target (acc + c))) [
      | inl hit ↦
          let le : target ≤ acc + c = ground arith in
          (
            0,
            (omega arith, omega arith, inl refl),
            scan_buckets-hit c (d ∷ cs) i acc target max_ns (omega arith) hit,
          )
      | inr miss ↦
          let less : acc + c < target = ground arith in
          let pos : 0 < length (d ∷ cs) = omega arith in
          let (k, few, e) =
            scan_buckets_lem (d ∷ cs) (i + 1) (acc + c) target max_ns (omega arith) (omega arith)
              pos in
          let next : i + 1 + k ≡ i + suc k = omega arith in
          let skip = scan_buckets-miss c (d ∷ cs) i acc target max_ns (omega arith) miss in
          (suc k, IsFewest-suc c (d ∷ cs) acc target k less few, skip ∙ e ∙ ap midpoint next)
    ]
