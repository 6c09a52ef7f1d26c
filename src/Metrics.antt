-- ===== src/Metrics.antt =====
-- core/src/metrics.rs: the latency histogram of an instrumented actor, with log2(ns) buckets.
-- One thread writes, so a recording is one function. The counters are u64 words. The product
-- `(count as f64 * q) as u64` of `snapshot` is an argument, since it is floating point.
pub mod Bounds
mod Tests
use aetherflow.Base.{
  ℕ, zero, suc, ◌+◌, ◌-◌, ◌/◌, ◌^◌, ◌%◌, min, List, [], ◌∷◌, none, some, get_elem?, set, replicate,
  ltb, leb, ◌==◌, if◌then◌else◌,
}
use aetherflow.Base.Words.{word, wrapping_add}

-- `BUCKETS`
abbrev pub bucket_count : ℕ
bucket_count = 64

-- `LatencyHistogram`
pub record LatencyHistogram : Type 0 where
  pub buckets : List ℕ
  pub count : ℕ
  pub sum_ns : ℕ
  pub max_ns : ℕ

-- `LatencySnapshot`
pub record LatencySnapshot : Type 0 where
  pub count : ℕ
  pub mean_ns : ℕ
  pub p50_ns : ℕ
  pub p99_ns : ℕ
  pub p999_ns : ℕ
  pub max_ns : ℕ

-- `LatencyHistogram::new`
unfoldable pub new : LatencyHistogram
new = record { buckets = replicate 64 0; count = 0; sum_ns = 0; max_ns = 0 }

-- The zeros above the highest one of `n`, in a word of so many bits.
pub leading_zeros : ℕ → ℕ → ℕ
leading_zeros zero n = 0
leading_zeros (suc bits) n =
    let rest = leading_zeros bits n in if leb (2 ^ bits) n then 0 else suc rest

-- The bucket of a sample.
unfoldable pub bucket_index : ℕ → ℕ
unfolding leading_zeros
bucket_index ns = if ns == 0 then 0 else 63 - leading_zeros 64 ns

-- `self.buckets[i].fetch_add(1)`
abbrev pub add_at : List ℕ → ℕ → List ℕ
add_at b i = elim (get_elem? b i) [ none ↦ b | some n ↦ set b i (wrapping_add n 1) ]

-- `LatencyHistogram::record`
unfoldable pub record_sample : LatencyHistogram → ℕ → LatencyHistogram
unfolding bucket_index
record_sample h ns = record {
  buckets = add_at h.buckets (bucket_index ns);
  count = wrapping_add h.count 1;
  sum_ns = wrapping_add h.sum_ns ns;
  max_ns = if ltb h.max_ns ns then ns else h.max_ns;
}

-- `(1u64 << i).saturating_add(1u64 << i.saturating_sub(1))`
abbrev pub midpoint : ℕ → ℕ
midpoint i = min (2 ^ i + 2 ^ (i - 1)) (word - 1)

-- The loop of `pct` from bucket `i` on, with `acc` samples before it.
pub scan_buckets : List ℕ → ℕ → ℕ → ℕ → ℕ → ℕ
scan_buckets [] i acc target max_ns = max_ns
scan_buckets (c ∷ cs) i acc target max_ns =
    let acc' = wrapping_add acc c in
    let rest = scan_buckets cs (i + 1) acc' target max_ns in
    if leb target acc' then midpoint i else rest

-- `pct(q)`, given the product of the count and `q`.
unfoldable pub percentile : LatencyHistogram → ℕ → ℕ
unfolding scan_buckets
percentile h target = if h.count == 0 then 0 else scan_buckets h.buckets 0 0 target h.max_ns

-- `sum.checked_div(count).unwrap_or(0)`
abbrev pub checked_div_or_zero : ℕ → ℕ → ℕ
checked_div_or_zero a b = if b == 0 then 0 else a / b

-- `LatencyHistogram::snapshot`; the argument multiplies a count by 0.50, 0.99 and 0.999.
pub record Quantiles : Type 0 where
  pub half : ℕ → ℕ
  pub most : ℕ → ℕ
  pub nearly_all : ℕ → ℕ

unfoldable pub snapshot : Quantiles → LatencyHistogram → LatencySnapshot
unfolding percentile
snapshot q h = record {
  count = h.count;
  mean_ns = checked_div_or_zero h.sum_ns h.count;
  p50_ns = percentile h (q.half h.count);
  p99_ns = percentile h (q.most h.count);
  p999_ns = percentile h (q.nearly_all h.count);
  max_ns = h.max_ns;
}
