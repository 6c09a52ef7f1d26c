-- ===== src/Metrics/Tests.antt =====
-- The histogram's theorems at concrete inputs.
use aetherflow.Base.{ℕ, List, [], ◌∷◌}
use aetherflow.Metrics.{LatencyHistogram}

abbrev samples : List ℕ
samples = 3 ∷ 1500 ∷ 900 ∷ 2 ∷ []

abbrev four_samples : LatencyHistogram
four_samples = record { buckets = 0 ∷ 2 ∷ 0 ∷ 1 ∷ 1 ∷ []; count = 4; sum_ns = 40; max_ns = 20 }
