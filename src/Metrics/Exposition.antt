-- ===== src/Metrics/Exposition.antt =====
-- internal/metrics/registry.go: the text that a scrape reads. What strconv and math say of a float64
-- are parameters, and a write to the connection does not fail.
use litemlflow.Prelude.{
  ℕ, Bool, true, false, ◌&&◌, ◌||◌, if◌then◌else◌, List, [], ◌∷◌, ◌++◌, ◌==◌, ltb, Text, codes,
  sort_rows, digits,
}
use litemlflow.Metrics.Labels.{format_labels, format_bucket_labels}
use litemlflow.Metrics.{Series, Counter, Gauge, Histogram, HistogramSample, MetricsRegistry}

unfoldable pub concat_text : List Text → Text
concat_text [] = []
concat_text (t ∷ texts) = t ++ concat_text texts

-- The lines of HELP and TYPE.
unfoldable pub header_lines : Text → Text → Text → Text
unfolding concat_text
header_lines name help kind = concat_text (
    codes "# HELP "
    ∷ name
    ∷ codes " "
    ∷ help
    ∷ codes "\n# TYPE "
    ∷ name
    ∷ codes " "
    ∷ kind
    ∷ codes "\n"
    ∷ [])

-- One sample: the name, its labels and its value.
unfoldable pub sample_line : Text → Text → Text → Text
unfolding concat_text
sample_line name labels value = concat_text (name ∷ labels ∷ codes " " ∷ value ∷ codes "\n" ∷ [])

-- `<` on Go's strings, byte by byte.
unfoldable pub text_below : Text → Text → Bool
text_below [] [] = false
text_below [] (_ ∷ _) = true
text_below (_ ∷ _) [] = false
text_below (a ∷ s) (b ∷ t) = ltb a b || ((a == b) && text_below s t)

-- A uint64 in decimal; it has at most 20 digits.
unfoldable pub format_uint : ℕ → Text
unfolding digits
format_uint n = digits 20 n []

module _ {A : Type 0} where
  unfoldable pub key_below : Series A → Series A → Bool
  unfolding text_below
  key_below a b = text_below a.key b.key

-- What the math and strconv packages say of a float64.
pub record FloatPrinter (F : Type 0) : Type 0 where
  pub is_pos_inf : F → Bool
  pub is_neg_inf : F → Bool
  pub is_nan : F → Bool
  pub format_float : F → Text

module _ {F : Type 0} (fp : FloatPrinter F) where
  -- `fmtFloat`
  unfoldable pub fmt_float : F → Text
  fmt_float v =
      if fp.is_pos_inf v
      then codes "+Inf"
      else if fp.is_neg_inf v
      then codes "-Inf"
      else if fp.is_nan v
      then codes "NaN"
      else fp.format_float v

  unfoldable pub counter_lines : Counter F → List (Series F) → Text
  unfolding sample_line format_labels fmt_float
  counter_lines c [] = []
  counter_lines c (s ∷ rows) =
      sample_line c.name (format_labels c.label_keys s.key) (fmt_float s.sample)
      ++ counter_lines c rows

  unfoldable pub zero_line : Text → List (Series F) → Text
  unfolding sample_line
  zero_line name [] = sample_line name [] (codes "0")
  zero_line name (_ ∷ _) = []

  -- `Counter.writeTo`
  unfoldable pub write_counter : Counter F → Text
  unfolding header_lines counter_lines zero_line sort_rows key_below
  write_counter c =
      header_lines c.name c.help (codes "counter")
      ++ (counter_lines c (sort_rows key_below c.values) ++ zero_line c.name c.values)

  -- `Gauge.writeTo`
  unfoldable pub write_gauge : Gauge F → Text
  unfolding header_lines sample_line fmt_float
  write_gauge g =
      header_lines g.name g.help (codes "gauge") ++ sample_line g.name [] (fmt_float g.val)

  -- The buckets of one series with their counts, of which there are as many.
  unfoldable pub bucket_lines : Histogram F → Text → List F → List ℕ → Text
  unfolding sample_line format_bucket_labels format_uint fmt_float
  bucket_lines h key [] counts = []
  bucket_lines h key (_ ∷ _) [] = []
  bucket_lines h key (b ∷ buckets) (n ∷ counts) =
      sample_line (h.name ++ codes "_bucket") (format_bucket_labels h.label_keys key (fmt_float b))
        (format_uint n)
      ++ bucket_lines h key buckets counts

  -- `writeSnap`
  unfoldable pub write_snap : Histogram F → Series (HistogramSample F) → Text
  unfolding bucket_lines format_labels concat_text fmt_float
  write_snap h s =
      let labels = format_labels h.label_keys s.key in
      concat_text (
        bucket_lines h s.key h.buckets s.sample.counts
        ∷ sample_line (h.name ++ codes "_bucket")
            (format_bucket_labels h.label_keys s.key (codes "+Inf")) (format_uint s.sample.count)
        ∷ sample_line (h.name ++ codes "_sum") labels (fmt_float s.sample.sum)
        ∷ sample_line (h.name ++ codes "_count") labels (format_uint s.sample.count)
        ∷ [])

  unfoldable pub snap_lines : Histogram F → List (Series (HistogramSample F)) → Text
  unfolding write_snap
  snap_lines h [] = []
  snap_lines h (s ∷ rows) = write_snap h s ++ snap_lines h rows

  unfoldable pub zero_buckets : Histogram F → List F → Text
  unfolding sample_line fmt_float
  zero_buckets h [] = []
  zero_buckets h (b ∷ buckets) =
      sample_line (h.name ++ codes "_bucket") (format_bucket_labels [] [] (fmt_float b)) (codes "0")
      ++ zero_buckets h buckets

  -- The lines of a histogram without observations.
  unfoldable pub zero_histogram : Histogram F → List (Series (HistogramSample F)) → Text
  unfolding zero_buckets concat_text
  zero_histogram h [] = concat_text (
      zero_buckets h h.buckets
      ∷ sample_line (h.name ++ codes "_bucket") (format_bucket_labels [] [] (codes "+Inf"))
          (codes "0")
      ∷ sample_line (h.name ++ codes "_sum") [] (codes "0")
      ∷ sample_line (h.name ++ codes "_count") [] (codes "0")
      ∷ [])
  zero_histogram h (_ ∷ _) = []

  -- `Histogram.writeTo`
  unfoldable pub write_histogram : Histogram F → Text
  unfolding header_lines snap_lines zero_histogram sort_rows key_below
  write_histogram h =
      header_lines h.name h.help (codes "histogram")
      ++ (snap_lines h (sort_rows key_below h.obs) ++ zero_histogram h h.obs)

  module _ {A : Type 0} (write : A → Text) where
    unfoldable pub write_each : List A → Text
    write_each [] = []
    write_each (a ∷ families) = write a ++ write_each families

  -- `Registry.WriteText`
  unfoldable pub write_text : MetricsRegistry F → Text
  unfolding write_counter write_gauge write_histogram write_each concat_text
  write_text r = concat_text (
      write_each write_counter r.counters
      ∷ write_each write_gauge r.gauges
      ∷ write_each write_histogram r.histograms
      ∷ codes "# EOF\n"
      ∷ [])
