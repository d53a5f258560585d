-- ===== src/Metrics/Bound.antt =====
-- A family of metrics stays small, and a histogram has a count for every bucket.
use litemlflow.Prelude.{
  ℕ, suc, ◌≤◌, Bool, true, false, ◌||◌, List, [], ◌∷◌, ◌≡◌, refl, ap, ◌∙◌, ◌⊎◌, inl, inr, ltb,
  if◌then◌else◌, length, arith, All, Bool-cases, Text, text_eq, text_eq_refl,
}
use litemlflow.Metrics.Labels.{label_set_key}
use litemlflow.Metrics.{
  Series, has_series, update_series, bounded_key, overflow_values, max_series_per_family, Floats,
  Histogram, HistogramSample, new_histogram, observe, observe_sample, count_up, zero_counts,
  Counter, new_counter, counter_add,
}

module _ {A : Type 0} (key : Text) (start : A) (f : A → A) where
  length-update_series :
      (rows : List (Series A))
      → length (update_series key start f rows)
        ≡ (if has_series key rows then length rows else suc (length rows))
  unfolding update_series has_series
  length-update_series [] = refl
  length-update_series (s ∷ rows) = ground (arith, length-update_series rows)

  -- Updating puts the key in, and takes none out.
  has_series-update_series_self :
      (rows : List (Series A)) → has_series key (update_series key start f rows) ≡ true
  unfolding update_series has_series
  has_series-update_series_self [] = ground (arith, text_eq_refl key)
  has_series-update_series_self (s ∷ rows) = ground (arith, has_series-update_series_self rows)

  has_series-update_series :
      (k : Text) (rows : List (Series A))
      → has_series k rows ≡ true
      → has_series k (update_series key start f rows) ≡ true
  unfolding update_series has_series
  has_series-update_series k [] h = cc
  has_series-update_series k (s ∷ rows) h = ground (arith, has_series-update_series k rows)

  update_series-All :
      (P : A → Type 0) (rows : List (Series A))
      → P (f start)
      → ((a : A) → P a → P (f a))
      → All (λ s. P s.sample) rows
      → All (λ s. P s.sample) (update_series key start f rows)
  unfolding update_series
  update_series-All P [] h step _ = (h, tt)
  update_series-All P (s ∷ rows) h step (ps, k) = elim (Bool-cases (text_eq s.key key)) [
    | inl here ↦ rw here (step s.sample ps, k)
    | inr later ↦ rw later (ps, update_series-All P rows h step k)
  ]

-- What a family may hold: one series without labels; with labels, the series of the cap and the
-- one of the overflow.
abbrev pub Capped : {A : Type 0} → List Text → List (Series A) → Type 0
Capped [] rows = (length rows ≡ 0) ⊎ ((length rows ≡ 1) × (has_series [] rows ≡ true))
Capped (k ∷ keys) rows =
    (length rows ≤ max_series_per_family)
    ⊎ ((length rows ≡ suc max_series_per_family)
        × (has_series (label_set_key (k ∷ keys) (overflow_values (k ∷ keys))) rows ≡ true))

-- An update of a family that has the key, or is below the cap.
below_cap :
    (full : Bool) (n grown : ℕ)
    → (n ≤ max_series_per_family)
    → (ltb n max_series_per_family || full) ≡ true
    → grown ≡ (if full then n else suc n)
    → grown ≤ max_series_per_family
below_cap full n grown small keeps eq = ground arith

reached :
    (full : Bool) (n : ℕ)
    → (n ≤ max_series_per_family)
    → (ltb n max_series_per_family || full) ≡ false
    → n ≡ max_series_per_family
reached full n small over = ground arith

known :
    (full : Bool) (n : ℕ)
    → n ≡ suc max_series_per_family
    → (ltb n max_series_per_family || full) ≡ true
    → full ≡ true
known full n above keeps = ground arith

abbrev overflow_key : Text → List Text → Text
overflow_key k keys = label_set_key (k ∷ keys) (overflow_values (k ∷ keys))

module _ {A : Type 0} (start : A) (f : A → A) where
  -- The overflow series is added to a family at the cap, or is there.
  at_cap :
      (k : Text) (rows : List (Series A))
      → length rows ≡ max_series_per_family
      → (length (update_series k start f rows) ≤ max_series_per_family)
        ⊎ ((length (update_series k start f rows) ≡ suc max_series_per_family)
            × (has_series k (update_series k start f rows) ≡ true))
  at_cap k rows full = elim (Bool-cases (has_series k rows)) [
    | inl there ↦ inl (ground (arith, length-update_series k start f rows))
    | inr new ↦ inr (
      length-update_series k start f rows ∙ (rw new (ap suc full)),
      has_series-update_series_self k start f rows,
    )
  ]

  update_series-Capped_cons :
      (k : Text) (keys : List Text) (key : Text) (rows : List (Series A))
      → Capped (k ∷ keys) rows
      → Capped (k ∷ keys) (update_series (bounded_key key rows (k ∷ keys)) start f rows)
  unfolding bounded_key
  update_series-Capped_cons k keys key rows (inl small) =
      elim (Bool-cases (ltb (length rows) max_series_per_family || has_series key rows)) [
        | inl keeps ↦ rw keeps (
            inl (
              below_cap (has_series key rows) (length rows)
                (length (update_series key start f rows)) small keeps
                (length-update_series key start f rows)))
        | inr over ↦ rw over (
            at_cap (overflow_key k keys) rows
              (reached (has_series key rows) (length rows) small over))
      ]
  update_series-Capped_cons k keys key rows (inr (full, there)) =
      elim (Bool-cases (ltb (length rows) max_series_per_family || has_series key rows)) [
        | inl keeps ↦ rw keeps (
            inr (
              length-update_series key start f rows
                  ∙ cc (known (has_series key rows) (length rows) full keeps, full),
              has_series-update_series key start f (overflow_key k keys) rows there,
            ))
        | inr over ↦ rw over (
            inr (
              length-update_series (overflow_key k keys) start f rows ∙ cc (there, full),
              has_series-update_series_self (overflow_key k keys) start f rows,
            ))
      ]

  update_series-Capped :
      (label_keys values : List Text) (rows : List (Series A))
      → Capped label_keys rows
      → Capped label_keys (
          update_series
            (bounded_key (label_set_key label_keys values) rows label_keys)
            start
            f
            rows)
  unfolding bounded_key label_set_key update_series
  update_series-Capped [] values [] h = inr (refl, has_series-update_series_self [] start f [])
  update_series-Capped [] values (s ∷ rows) (inl empty) = omega arith
  update_series-Capped [] values (s ∷ rows) (inr (one, there)) = inr (
    length-update_series [] start f (s ∷ rows) ∙ cc (there, one),
    has_series-update_series_self [] start f (s ∷ rows),
  )
  update_series-Capped (k ∷ keys) values rows h =
      update_series-Capped_cons k keys (label_set_key (k ∷ keys) values) rows h

abbrev pub max_series : List Text → ℕ
max_series [] = 1
max_series (_ ∷ _) = suc max_series_per_family

Capped-length :
    {A : Type 0} (label_keys : List Text) (rows : List (Series A))
    → Capped label_keys rows
    → length rows ≤ max_series label_keys
Capped-length [] rows (inl empty) = omega arith
Capped-length [] rows (inr (one, _)) = omega arith
Capped-length (k ∷ keys) rows (inl small) = omega arith
Capped-length (k ∷ keys) rows (inr (full, _)) = omega arith

-- No label set, and no label set in the map of a new family.
Capped-none : (A : Type 0) (label_keys : List Text) → Capped {A = A} label_keys []
Capped-none A [] = inl refl
Capped-none A (k ∷ keys) = inl (omega arith)

module _ {F : Type 0} (fl : Floats F) where
  length-zero_counts : (buckets : List F) → length (zero_counts fl buckets) ≡ length buckets
  unfolding zero_counts
  length-zero_counts [] = refl
  length-zero_counts (_ ∷ buckets) = ap suc (length-zero_counts buckets)

  length-count_up :
      (value : F) (buckets : List F) (counts : List ℕ)
      → length counts ≡ length buckets
      → length (count_up fl value buckets counts) ≡ length buckets
  unfolding count_up
  length-count_up value [] counts h = h
  length-count_up value (_ ∷ _) [] h = omega arith
  length-count_up value (b ∷ buckets) (n ∷ counts) h =
      ap suc (length-count_up value buckets counts (omega arith))

  -- A count for every bucket, in every series.
  abbrev pub HasCounts : List F → List (Series (HistogramSample F)) → Type 0
  HasCounts buckets rows = All (λ s. length s.sample.counts ≡ length buckets) rows

  abbrev Fits : Histogram F → Type 0
  Fits h = Capped h.label_keys h.obs × HasCounts h.buckets h.obs

  observe-Fits :
      (value : F) (values : List Text) (h : Histogram F) → Fits h → Fits (observe fl value values h)
  unfolding observe observe_sample
  observe-Fits value values h (capped, counted) = (
    update_series-Capped start step h.label_keys values h.obs capped,
    update_series-All key start step (λ s. length s.counts ≡ length h.buckets) h.obs
        (length-count_up value h.buckets (zero_counts fl h.buckets) (length-zero_counts h.buckets))
        (λ s eq. length-count_up value h.buckets s.counts eq) counted,
  )
    where
      start : HistogramSample F
      start = record { counts = zero_counts fl h.buckets; sum = fl.zero_value; count = 0 }

      step : HistogramSample F → HistogramSample F
      step = observe_sample fl value h.buckets

      key : Text
      key = bounded_key (label_set_key h.label_keys values) h.obs h.label_keys

  -- Observations, each a value with the values of its labels.
  unfoldable pub observe_all : List (F × List Text) → Histogram F → Histogram F
  observe_all [] h = h
  observe_all ((value, values) ∷ os) h = observe_all os (observe fl value values h)

  abbrev pub IsFitted : Histogram F → Type 0
  IsFitted h = (length h.obs ≤ max_series h.label_keys) × HasCounts h.buckets h.obs

  observe_all-Fits :
      (os : List (F × List Text)) (h : Histogram F) → Fits h → IsFitted (observe_all os h)
  unfolding observe_all
  observe_all-Fits [] h (capped, counted) = (Capped-length h.label_keys h.obs capped, counted)
  observe_all-Fits ((value, values) ∷ os) h fits =
      observe_all-Fits os (observe fl value values h) (observe-Fits value values h fits)

  -- Additions, each a difference with the values of its labels.
  unfoldable pub add_all : List (F × List Text) → Counter F → Counter F
  add_all [] c = c
  add_all ((delta, values) ∷ ds) c = add_all ds (counter_add fl delta values c)

  add_all-max_series :
      (ds : List (F × List Text)) (c : Counter F)
      → Capped c.label_keys c.values
      → length (add_all ds c).values ≤ max_series c.label_keys
  unfolding add_all counter_add
  add_all-max_series [] c capped = Capped-length c.label_keys c.values capped
  add_all-max_series ((delta, values) ∷ ds) c capped =
      add_all-max_series ds (counter_add fl delta values c) (
        update_series-Capped fl.zero_value (λ v. fl.add v delta) c.label_keys values c.values
          capped)

  -- A family of metrics, whatever is counted and observed, has at most 10001 series with labels and one without; every series of a histogram has a count for every bucket.
  pub observe_all-IsFitted :
      (name help : Text) (buckets : List F) (labels : List Text) (os : List (F × List Text))
      → IsFitted (observe_all os (new_histogram fl name help buckets labels))
        × (length (add_all os (new_counter fl name help labels)).values ≤ max_series labels)
  unfolding new_histogram new_counter
  observe_all-IsFitted name help buckets labels os = (
    observe_all-Fits os (new_histogram fl name help buckets labels)
        (Capped-none (HistogramSample F) labels, tt),
    add_all-max_series os (new_counter fl name help labels) (Capped-none F labels),
  )
