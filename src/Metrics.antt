-- ===== src/Metrics.antt =====
-- internal/metrics/registry.go: the families of metrics and the text that is scraped. The arithmetic
-- and the printing of float64 are parameters.
mod Labels
pub mod Exposition
pub mod Bound
pub mod Tests
use litemlflow.Prelude.{
  ℕ, zero, suc, ◌+◌, ◌%◌, ◌^◌, Bool, true, false, not, ◌&&◌, ◌||◌, List, [], ◌∷◌, ◌++◌, Option,
  none, some, ltb, if◌then◌else◌, length, Text, codes, text_eq, sort_rows,
}
use litemlflow.Metrics.Labels.{label_set_key, format_labels, format_bucket_labels, is_empty_list}

abbrev pub max_series_per_family : ℕ
max_series_per_family = 10000

abbrev pub overflow_label_value : Text
overflow_label_value = codes "__overflow__"

-- An entry of the map of a family, from the key of a label set.
pub record Series (A : Type 0) : Type 0 where
  pub key : Text
  pub sample : A

module _ {A : Type 0} where
  unfoldable pub has_series : Text → List (Series A) → Bool
  unfolding text_eq
  has_series key [] = false
  has_series key (s ∷ rows) = text_eq s.key key || has_series key rows

  -- `m[key] = f(m[key])`, where a missing entry starts from the value given.
  unfoldable pub update_series : Text → A → (A → A) → List (Series A) → List (Series A)
  unfolding text_eq
  update_series key start f [] = record { key = key; sample = f start } ∷ []
  update_series key start f (s ∷ rows) =
      let rest = update_series key start f rows in
      if text_eq s.key key then record s { sample = f s.sample } ∷ rows else s ∷ rest

unfoldable pub overflow_values : List Text → List Text
overflow_values [] = []
overflow_values (_ ∷ keys) = overflow_label_value ∷ overflow_values keys

-- `boundedKey`
unfoldable pub bounded_key : {A : Type 0} → Text → List (Series A) → List Text → Text
unfolding has_series overflow_values label_set_key
bounded_key key rows label_keys =
    if is_empty_list label_keys || ltb (length rows) max_series_per_family || has_series key rows
    then key
    else label_set_key label_keys (overflow_values label_keys)

-- float64, as far as the package uses it.
pub record Floats (F : Type 0) : Type 0 where
  pub zero_value : F
  pub one_value : F
  pub add : F → F → F
  pub at_most : F → F → Bool
  pub below : F → F → Bool
  pub same : F → F → Bool
  pub is_inf : F → Bool

-- `++` on a uint64.
abbrev pub increment : ℕ → ℕ
increment n = (n + 1) % 2 ^ 64

pub record Counter (F : Type 0) : Type 0 where
  pub name : Text
  pub help : Text
  pub label_keys : List Text
  pub values : List (Series F)

pub record Gauge (F : Type 0) : Type 0 where
  pub name : Text
  pub help : Text
  pub val : F

-- The counts stand beside their buckets, in the same order.
pub record HistogramSample (F : Type 0) : Type 0 where
  pub counts : List ℕ
  pub sum : F
  pub count : ℕ

pub record Histogram (F : Type 0) : Type 0 where
  pub name : Text
  pub help : Text
  pub label_keys : List Text
  pub buckets : List F
  pub obs : List (Series (HistogramSample F))

pub record MetricsRegistry (F : Type 0) : Type 0 where
  pub counters : List (Counter F)
  pub gauges : List (Gauge F)
  pub histograms : List (Histogram F)

module _ {F : Type 0} (fl : Floats F) where
  unfoldable pub has_bucket : F → List F → Bool
  has_bucket b [] = false
  has_bucket b (x ∷ seen) = fl.same b x || has_bucket b seen

  -- The loop of `Registry.Histogram` over the buckets: without repeats and without +Inf.
  unfoldable pub unique_buckets : List F → List F → List F
  unfolding has_bucket
  unique_buckets seen [] = []
  unique_buckets seen (b ∷ buckets) =
      let dropped = has_bucket b seen || fl.is_inf b in
      let rest = unique_buckets (if dropped then seen else b ∷ seen) buckets in
      if dropped then rest else b ∷ rest

  -- The family that `Registry.Counter` makes.
  unfoldable pub new_counter : Text → Text → List Text → Counter F
  new_counter name help labels = record {
    name = name;
    help = help;
    label_keys = labels;
    values = [];
  }

  -- The family that `Registry.Gauge` makes.
  unfoldable pub new_gauge : Text → Text → Gauge F
  new_gauge name help = record { name = name; help = help; val = fl.zero_value }

  -- The family that `Registry.Histogram` makes, with the buckets given.
  unfoldable pub new_histogram : Text → Text → List F → List Text → Histogram F
  unfolding unique_buckets sort_rows
  new_histogram name help buckets labels = record {
    name = name;
    help = help;
    label_keys = labels;
    buckets = sort_rows fl.below (unique_buckets [] buckets);
    obs = [];
  }

  -- `Counter.Add`
  unfoldable pub counter_add : F → List Text → Counter F → Counter F
  unfolding label_set_key bounded_key update_series
  counter_add delta label_values c =
      let key = bounded_key (label_set_key c.label_keys label_values) c.values c.label_keys in
      record c { values = update_series key fl.zero_value (λ v. fl.add v delta) c.values }

  -- `Counter.Inc`
  unfoldable pub counter_inc : List Text → Counter F → Counter F
  unfolding counter_add
  counter_inc = counter_add fl.one_value

  -- `Gauge.Set` and `Gauge.Add`
  unfoldable pub gauge_set : F → Gauge F → Gauge F
  gauge_set v g = record g { val = v }

  unfoldable pub gauge_add : F → Gauge F → Gauge F
  gauge_add delta g = record g { val = fl.add g.val delta }

  unfoldable pub zero_counts : List F → List ℕ
  zero_counts [] = []
  zero_counts (_ ∷ buckets) = 0 ∷ zero_counts buckets

  -- The loop of `Observe` over the buckets.
  unfoldable pub count_up : F → List F → List ℕ → List ℕ
  count_up value [] counts = counts
  count_up value (_ ∷ _) [] = []
  count_up value (b ∷ buckets) (n ∷ counts) =
      (if fl.at_most value b then increment n else n) ∷ count_up value buckets counts

  unfoldable pub observe_sample : F → List F → HistogramSample F → HistogramSample F
  unfolding count_up
  observe_sample value buckets s = record {
    counts = count_up value buckets s.counts;
    sum = fl.add s.sum value;
    count = increment s.count;
  }

  -- `Histogram.Observe`
  unfoldable pub observe : F → List Text → Histogram F → Histogram F
  unfolding label_set_key bounded_key update_series zero_counts observe_sample
  observe value label_values h =
      let key = bounded_key (label_set_key h.label_keys label_values) h.obs h.label_keys in
      let start : HistogramSample F = record {
        counts = zero_counts h.buckets;
        sum = fl.zero_value;
        count = 0;
      } in
      record h { obs = update_series key start (observe_sample value h.buckets) h.obs }

  -- `NewRegistry`
  abbrev pub new_registry : MetricsRegistry F
  new_registry = record { counters = []; gauges = []; histograms = [] }

  -- `Registry.Counter`, `Registry.Gauge` and `Registry.Histogram` put the new family last.
  unfoldable pub add_counter : Counter F → MetricsRegistry F → MetricsRegistry F
  add_counter c r = record r { counters = r.counters ++ (c ∷ []) }

  unfoldable pub add_gauge : Gauge F → MetricsRegistry F → MetricsRegistry F
  add_gauge g r = record r { gauges = r.gauges ++ (g ∷ []) }

  unfoldable pub add_histogram : Histogram F → MetricsRegistry F → MetricsRegistry F
  add_histogram h r = record r { histograms = r.histograms ++ (h ∷ []) }
