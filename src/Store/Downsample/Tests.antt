-- ===== src/Store/Downsample/Tests.antt =====
-- Downsampling of small series; integers stand for float64.
use litemlflow.Prelude.{ℕ, ◌-◌, ◌+◌, ◌*◌, ◌/◌, ◌≡◌, refl, List, [], ◌∷◌, some, ℤ, pos, negsuc, ltb}
use litemlflow.Store.Metrics.{Metric}
use litemlflow.Store.Downsample.{Plane, downsample_lttb}
use litemlflow.Store.Downsample.Chosen.{Represents, downsample_lttb-Represents}

-- Natural numbers, where the difference is the distance.
abbrev distance : ℕ → ℕ → ℕ
distance a b = (a - b) + (b - a)

abbrev magnitude_of : ℤ → ℕ
magnitude_of (pos n) = n
magnitude_of (negsuc n) = n + 1

abbrev grid : Plane ℕ
grid = record {
  of_int = magnitude_of;
  of_count = λ n. n;
  nothing = 0;
  below_nothing = 0;
  add = λ a b. a + b;
  sub = distance;
  mul = λ a b. a * b;
  div = λ a b. a / b;
  abs = λ a. a;
  above = λ a b. ltb b a;
}

abbrev point : ℕ → ℕ → Metric ℕ
point t v = record { key = "loss"; value = v; timestamp = pos t; step = pos t }

abbrev spiky : List (Metric ℕ)
spiky = point 0 0 ∷ point 1 0 ∷ point 2 90 ∷ point 3 0 ∷ point 4 0 ∷ []

-- The spike is kept.
downsample_lttb_test : downsample_lttb grid spiky 3 ≡ some (point 0 0 ∷ point 2 90 ∷ point 4 0 ∷ [])
unfolding downsample_lttb
downsample_lttb_test = refl

abbrev falling : List (Metric ℕ)
falling = point 0 0 ∷ point 1 0 ∷ point 2 0 ∷ point 3 100 ∷ point 4 50 ∷ point 5 0 ∷ []

-- The spike lies in two buckets, and is chosen in both.
repeated_point_test :
    downsample_lttb grid falling 4 ≡ some (point 0 0 ∷ point 3 100 ∷ point 3 100 ∷ point 5 0 ∷ [])
unfolding downsample_lttb
repeated_point_test = refl

downsample_lttb-Represents_example :
    (out : List (Metric ℕ)) × (downsample_lttb grid spiky 4 ≡ some out) × Represents spiky 4 out
downsample_lttb-Represents_example = downsample_lttb-Represents grid spiky 4
