-- ===== src/Store/Downsample/Chosen.antt =====
-- The points that the downsampler chooses: how many, in which order, and that no index is out of
-- range.
use native.Mathlib.Nat.{div-lt_iff_lt-mul, le-div_iff_mul-le, div-mul-le_self}
use litemlflow.Prelude.{
  ℕ, zero, suc, ◌+◌, ◌-◌, ◌*◌, ◌/◌, ◌≤◌, ◌<◌, ◌≡◌, refl, ◌⊎◌, inl, inr, Bool, true, false, ◌||◌,
  List, [], ◌∷◌, ◌++◌, some, ltb, leb, if◌then◌else◌, length, length-append, arith, Bool-cases, ap,
}
use litemlflow.Store.Metrics.{Metric}
use litemlflow.Store.Downsample.{
  Plane, value_at, ◌>>=◌, bucket_bound, bucket_end, sum_points, average, best_from, pick_index,
  pick_each, downsample_lttb,
}

value_at-some :
    {A : Type 0} (xs : List A) (j : ℕ) → j < length xs → (a : A) × (value_at xs j ≡ some a)
value_at-some [] j h = absurd (omega arith)
value_at-some (x ∷ xs) zero h = (x, refl)
value_at-some (x ∷ xs) (suc j) h = value_at-some xs j (omega arith)

-- The values stand at these indices, which do not go down from `low` and do not pass `high`.
abbrev pub Stand : {A : Type 0} → List A → ℕ → ℕ → List ℕ → List A → Type 0
Stand xs low high [] [] = Unit
Stand xs low high [] (_ ∷ _) = ⊥
Stand xs low high (_ ∷ _) [] = ⊥
Stand xs low high (i ∷ is) (y ∷ ys) =
    (low ≤ i) × (i ≤ high) × (value_at xs i ≡ some y) × Stand xs i high is ys

Stand-weaken :
    {A : Type 0} (xs : List A) (low low' high : ℕ) (is : List ℕ) (ys : List A)
    → low ≤ low'
    → Stand xs low' high is ys
    → Stand xs low high is ys
Stand-weaken xs low low' high [] [] h stand = tt
Stand-weaken xs low low' high [] (y ∷ ys) h stand = elim stand [ ]
Stand-weaken xs low low' high (i ∷ is) [] h stand = elim stand [ ]
Stand-weaken xs low low' high (i ∷ is) (y ∷ ys) h (a, b, c, d) = (omega arith, b, c, d)

Stand-append :
    {A : Type 0} (xs : List A) (low high last : ℕ) (is : List ℕ) (ys : List A) (y : A)
    → Stand xs low high is ys
    → high ≤ last
    → low ≤ last
    → value_at xs last ≡ some y
    → Stand xs low last (is ++ (last ∷ [])) (ys ++ (y ∷ []))
Stand-append xs low high last [] [] y stand h k there = (k, omega arith, there, tt)
Stand-append xs low high last [] (z ∷ ys) y stand h k there = elim stand [ ]
Stand-append xs low high last (i ∷ is) [] y stand h k there = elim stand [ ]
Stand-append xs low high last (i ∷ is) (z ∷ ys) y (a, b, c, d) h k there =
    (a, omega arith, c, Stand-append xs i high last is ys y d h (omega arith) there)

chosen-le : (t : Bool) (a b low : ℕ) → low ≤ a → low ≤ b → low ≤ (if t then a else b)
chosen-le t a b low h k = ground arith

le-chosen : (t : Bool) (a b high : ℕ) → a ≤ high → b ≤ high → (if t then a else b) ≤ high
le-chosen t a b high h k = ground arith

small : (n target : ℕ) → (ltb target 3 || leb n target) ≡ true → (target < 3) ⊎ (n ≤ target)
small n target h = elim (Bool-cases (ltb target 3)) [
  | inl few ↦ inl (ground arith)
  | inr enough ↦ inr (ground arith)
]

large : (n target : ℕ) → (ltb target 3 || leb n target) ≡ false → (3 ≤ target) × (target < n)
large n target h = ground arith

-- All points where there are few; else `target` of them, the first and the last one among them, in
-- their order.
abbrev pub Represents : {A : Type 0} → List A → ℕ → List A → Type 0
Represents points target out =
    ((out ≡ points) × ((target < 3) ⊎ (length points ≤ target)))
    ⊎ ((length out ≡ target)
        × (middle : List ℕ) × Stand points 0 (length points - 1)
            (0 ∷ (middle ++ ((length points - 1) ∷ []))) out)

-- Bounds of the buckets, for the points between the first and the last one.
module _ (n count i : ℕ) (more : count + 2 < n) (inside : i < count) where
  bound-le : bucket_bound (n - 2) count i ≤ n - 2
  bound-le = omega (
    arith,
    (div-lt_iff_lt-mul {k = count} {x = i * (n - 2)} {y = n - 2} (omega arith)).1 (grind arith),
  )

  bound_grows : bucket_bound (n - 2) count i ≤ bucket_bound (n - 2) count (i + 1)
  bound_grows = omega (
    arith,
    (le-div_iff_mul-le {k = count} {x = i * (n - 2) / count} {y = (i + 1) * (n - 2)}
          (omega arith)).1
        (grind (arith, div-mul-le_self (i * (n - 2)) count)),
  )

end-le : (n count i : ℕ) → 2 ≤ n → bucket_end n count i ≤ n - 2
end-le n count i h = ground arith

bound-le-end :
    (n count i : ℕ)
    → count + 2 < n
    → i < count
    → bucket_bound (n - 2) count i ≤ bucket_end n count (i + 1)
bound-le-end n count i h k = ground (arith, bound-le n count i h k, bound_grows n count i h k)

end-le-bound : (n count i : ℕ) → 2 ≤ n → bucket_end n count i ≤ bucket_bound (n - 2) count i
end-le-bound n count i h = ground arith

module _ {V : Type 0} (fl : Plane V) (points : List (Metric V)) where
  sum_points-some :
      (rounds j : ℕ) (x y : V) (n : ℕ)
      → j + rounds ≤ length points
      → (r : V × V × ℕ) × (sum_points fl points rounds j x y n ≡ some r)
  unfolding sum_points
  sum_points-some zero j x y n h = ((x, y, n), refl)
  sum_points-some (suc rounds) j x y n h =
      let (p, here) = value_at-some points j (omega arith) in
      rw here (sum_points-some rounds (suc j) _ _ (suc n) (omega arith))

  best_from-some :
      (low high rounds j : ℕ) (a : Metric V) (x y max : V) (best : ℕ)
      → high < length points
      → j + rounds ≤ suc high
      → low ≤ j
      → low ≤ best
      → best ≤ high
      → (b : ℕ) × (best_from fl points rounds j a x y max best ≡ some b) × (low ≤ b) × (b ≤ high)
  unfolding best_from
  best_from-some low high zero j a x y max best h k l m o = (best, refl, m, o)
  best_from-some low high (suc rounds) j a x y max best h k l m o =
      let (b, here) = value_at-some points j (omega arith) in
      rw here (
        best_from-some low high rounds (suc j) a x y _ _ h (omega arith) (omega arith)
          (chosen-le _ j best low l m) (le-chosen _ j best high (omega arith) o))

  average-some :
      (first last : ℕ)
      → last < length points
      → 0 < length points
      → first ≤ length points
      → (r : V × V) × (average fl points first last ≡ some r)
  unfolding average
  average-some first last h k l =
      let (sums, summed) =
        sum_points-some (suc last - first) first fl.nothing fl.nothing 0 (omega arith) in
      let (end, there) = value_at-some points (length points - 1) (omega arith) in
      rw summed (rw there (_, refl))

  module _ (count : ℕ) (more : count + 2 < length points) where
    pick_some :
        (i : ℕ) (prev : Metric V)
        → i < count
        → (b : ℕ) × (pick_index fl points count i prev ≡ some b)
          × (bucket_bound (length points - 2) count i ≤ b)
          × (b ≤ bucket_end (length points) count (i + 1))
    unfolding pick_index
    pick_some i prev h =
        let last : ℕ = bucket_end (length points) count (i + 1) in
        let first : ℕ = bucket_bound (length points - 2) count i in
        let known = end-le (length points) count (i + 1) (omega arith) in
        let ordered = bound-le-end (length points) count i more h in
        let (mid, averaged) =
          average-some (last + 1) (bucket_end (length points) count (i + 2))
            (omega (arith, end-le (length points) count (i + 2))) (omega arith) (omega arith) in
        rw averaged (
          best_from-some first last (suc last - first) first prev mid.0 mid.1 fl.below_nothing first
            (omega arith) (omega arith) (omega arith) (omega arith) ordered)

    pick_each-some :
        (rounds i : ℕ) (prev : Metric V)
        → i + rounds ≡ count
        → (out : List (Metric V)) × (pick_each fl points count rounds i prev ≡ some out)
          × (length out ≡ rounds)
          × (is : List ℕ) × Stand points
              (bucket_bound (length points - 2) count i)
              (length points - 2)
              is
              out
    unfolding pick_each
    pick_each-some zero i prev h = ([], refl, refl, [], tt)
    pick_each-some (suc rounds) i prev h =
        let (b, picked, low, high) = pick_some i prev (omega arith) in
        let (x, there) =
          value_at-some points b (omega (arith, end-le (length points) count (i + 1))) in
        let (out, rest, sized, is, stand) = pick_each-some rounds (i + 1) x (omega arith) in
        (
          x ∷ out,
          rw picked (rw there (rw rest refl)),
          ap suc sized,
          b ∷ is,
          (
            low,
            omega (arith, end-le (length points) count (i + 1)),
            there,
            Stand-weaken points b _ _ is out
                (omega (arith, end-le-bound (length points) count (i + 1))) stand,
          ),
        )

  reduced :
      (target : ℕ)
      → (3 ≤ target) × (target < length points)
      → (out : List (Metric V)) × ((do
        first ← value_at points 0
        middle ← pick_each fl points (target - 2) (target - 2) 0 first
        last ← value_at points (length points - 1)
        some (first ∷ (middle ++ (last ∷ []))))
          ≡ some out)
        × Represents points target out
  reduced target (h, k) =
      let (first, here) = value_at-some points 0 (omega arith) in
      let (last, there) = value_at-some points (length points - 1) (omega arith) in
      let (out, picked, sized, is, stand) =
        pick_each-some (target - 2) (omega arith) (target - 2) 0 first (omega arith) in
      (
        first ∷ (out ++ (last ∷ [])),
        rw here (rw picked (rw there refl)),
        inr (
          omega (arith, length-append out (last ∷ [])),
          is,
          (
            omega arith,
            omega arith,
            here,
            Stand-append points 0 (length points - 2) (length points - 1) is out last
                (Stand-weaken points 0 _ (length points - 2) is out (omega arith) stand)
                (omega arith) (omega arith) there,
          ),
        ),
      )

  -- The downsampling of a series never reads out of range. It gives the series itself if the target is below 3 or there are no more points than that, and otherwise exactly as many points as the target, all from the series and in its order, the first and the last one of the series among them; a point may be there twice.
  pub downsample_lttb-Represents :
      (target : ℕ)
      → (out : List (Metric V)) × (downsample_lttb fl points target ≡ some out)
        × Represents points target out
  unfolding downsample_lttb
  downsample_lttb-Represents target =
      elim (Bool-cases (ltb target 3 || leb (length points) target)) [
        | inl few ↦ rw few (points, refl, inl (refl, small (length points) target few))
        | inr many ↦ rw many (reduced target (large (length points) target many))
      ]
