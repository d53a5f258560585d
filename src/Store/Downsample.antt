-- ===== src/Store/Downsample.antt =====
-- internal/store/downsample.go: largest-triangle-three-buckets. The arithmetic of float64 is a
-- parameter, but for the bounds of the buckets, which are whole numbers below 2 ^ 53.
pub mod Chosen
pub mod Tests
use litemlflow.Prelude.{
  ℕ, zero, suc, ◌+◌, ◌-◌, ◌*◌, ◌/◌, Bool, true, false, ◌||◌, List, [], ◌∷◌, ◌++◌, Option, none,
  some, ltb, leb, if◌then◌else◌, length, ℤ,
}
use litemlflow.Store.Metrics.{Metric}

-- float64, as far as the function uses it.
pub record Plane (V : Type 0) : Type 0 where
  pub of_int : ℤ → V
  pub of_count : ℕ → V
  pub nothing : V
  pub below_nothing : V
  pub add : V → V → V
  pub sub : V → V → V
  pub mul : V → V → V
  pub div : V → V → V
  pub abs : V → V
  pub above : V → V → Bool

-- `points[j]`; none stands for the panic on an index out of range.
abbrev pub value_at {ℓ} : {A : Type ℓ} → List A → ℕ → Option A
value_at [] j = none
value_at (x ∷ xs) zero = some x
value_at (x ∷ xs) (suc j) = value_at xs j

infixl 5 ◌>>=◌
abbrev pub ◌>>=◌ {κ ℓ} : {A : Type κ} {B : Type ℓ} → Option A → (A → Option B) → Option B
none >>= _ = none
some a >>= next = next a

-- Where bucket `i` of `count` begins, in the range of `span` points after the first one.
abbrev pub bucket_bound : ℕ → ℕ → ℕ → ℕ
bucket_bound span count i = i * span / count + 1

-- The same as an end, kept before the last of `n` points.
abbrev pub bucket_end : ℕ → ℕ → ℕ → ℕ
bucket_end n count i =
    if leb (n - 1) (bucket_bound (n - 2) count i) then n - 2 else bucket_bound (n - 2) count i

module _ {V : Type 0} (fl : Plane V) (points : List (Metric V)) where
  -- The sums over `rounds` points from `j` on, and their number.
  unfoldable pub sum_points : ℕ → ℕ → V → V → ℕ → Option (V × V × ℕ)
  sum_points zero j x y n = some (x, y, n)
  sum_points (suc rounds) j x y n = do
    p ← value_at points j
    sum_points rounds (suc j) (fl.add x (fl.of_int p.timestamp)) (fl.add y p.value) (suc n)

  -- The quotients of sums by their number; the point given where there is none.
  unfoldable pub mean : Metric V → V × V × ℕ → V × V
  mean end (x, y, zero) = (fl.of_int end.timestamp, end.value)
  mean end (x, y, suc n) = (fl.div x (fl.of_count (suc n)), fl.div y (fl.of_count (suc n)))

  -- The average of the points from `first` to `last`, or the last point if there are none.
  unfoldable pub average : ℕ → ℕ → Option (V × V)
  unfolding sum_points mean
  average first last = do
    sums ← sum_points (suc last - first) first fl.nothing fl.nothing 0
    end ← value_at points (length points - 1)
    some (mean end sums)

  unfoldable pub area : Metric V → V → V → Metric V → V
  area a x y b = fl.abs (
      fl.sub (fl.mul (fl.sub (fl.of_int b.timestamp) (fl.of_int a.timestamp)) (fl.sub y a.value))
        (fl.mul (fl.sub x (fl.of_int a.timestamp)) (fl.sub b.value a.value)))

  -- The loop over the points of a bucket.
  unfoldable pub best_from : ℕ → ℕ → Metric V → V → V → V → ℕ → Option ℕ
  unfolding area
  best_from zero j a x y max best = some best
  best_from (suc rounds) j a x y max best = do
    b ← value_at points j
    let larger = fl.above (area a x y b) max
    best_from rounds (suc j) a x y (if larger then area a x y b else max)
        (if larger then j else best)

  -- The index that bucket `i` of `count` contributes, after the point `prev`.
  unfoldable pub pick_index : ℕ → ℕ → Metric V → Option ℕ
  unfolding average best_from
  pick_index count i prev = do
    let first = bucket_bound (length points - 2) count i
    let last = bucket_end (length points) count (i + 1)
    (x, y) ← average (last + 1) (bucket_end (length points) count (i + 2))
    best_from (suc last - first) first prev x y fl.below_nothing first

  -- The loop over the buckets from `i` on.
  unfoldable pub pick_each : ℕ → ℕ → ℕ → Metric V → Option (List (Metric V))
  unfolding pick_index
  pick_each count zero i prev = some []
  pick_each count (suc rounds) i prev = do
    best ← pick_index count i prev
    chosen ← value_at points best
    rest ← pick_each count rounds (i + 1) chosen
    some (chosen ∷ rest)

-- `DownsampleLTTB`
unfoldable pub downsample_lttb :
    {V : Type 0} → Plane V → List (Metric V) → ℕ → Option (List (Metric V))
unfolding pick_each
downsample_lttb fl points target =
    let reduced : Option (List (Metric _)) = do
      first ← value_at points 0
      middle ← pick_each fl points (target - 2) (target - 2) 0 first
      last ← value_at points (length points - 1)
      some (first ∷ (middle ++ (last ∷ [])))
    in if ltb target 3 || leb (length points) target then some points else reduced
