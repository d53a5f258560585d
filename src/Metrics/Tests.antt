-- ===== src/Metrics/Tests.antt =====
-- The metrics registry on small inputs; numbers stand for float64, and 1000 for +Inf.
use litemlflow.Prelude.{
  ℕ, ◌+◌, false, List, [], ◌∷◌, ◌++◌, ◌≡◌, refl, ltb, leb, ◌==◌, length, Text, codes, ◌≤◌,
}
use litemlflow.Metrics.Labels.{label_set_key, format_labels, format_bucket_labels}
use litemlflow.Metrics.{
  Floats, Histogram, new_histogram, observe, new_counter, counter_inc, new_gauge, gauge_set,
  new_registry, add_counter, add_gauge, add_histogram,
}
use litemlflow.Metrics.Exposition.{write_text, format_uint, FloatPrinter}
use litemlflow.Metrics.Bound.{observe_all, add_all, IsFitted, max_series, observe_all-IsFitted}

abbrev whole : Floats ℕ
whole = record {
  zero_value = 0;
  one_value = 1;
  add = λ a b. a + b;
  at_most = leb;
  below = ltb;
  same = λ a b. a == b;
  is_inf = λ a. a == 1000;
}

abbrev method_path : List Text
method_path = codes "method" ∷ codes "path" ∷ []

abbrev get_home : List Text
get_home = codes "GET" ∷ codes "/" ∷ []

-- A quote in a value is escaped; a value that is missing is empty.
format_labels_test :
    format_labels method_path (label_set_key method_path (codes "a\"b" ∷ []))
    ≡ codes "{method=\"a\\\"b\",path=\"\"}"
unfolding format_labels label_set_key
format_labels_test = refl

format_bucket_labels_test :
    format_bucket_labels method_path (label_set_key method_path get_home) (codes "5")
    ≡ codes "{method=\"GET\",path=\"/\",le=\"5\"}"
unfolding format_bucket_labels label_set_key
format_bucket_labels_test = refl

abbrev latency : Histogram ℕ
latency =
    new_histogram whole (codes "latency") (codes "Seconds.") (10 ∷ 5 ∷ 1000 ∷ 5 ∷ []) method_path

-- The buckets are sorted, each once, and +Inf is left out.
buckets_test : latency.buckets ≡ 5 ∷ 10 ∷ []
unfolding new_histogram
buckets_test = refl

-- Two observations of one label set: both are at most 10, one is at most 5.
observe_test :
    (observe whole 7 get_home (observe whole 3 get_home latency)).obs
    ≡ record {
      key = label_set_key method_path get_home;
      sample = record { counts = 1 ∷ 2 ∷ []; sum = 10; count = 2 };
    }
      ∷ []
unfolding observe new_histogram
observe_test = refl

abbrev printer : FloatPrinter ℕ
printer = record {
  is_pos_inf = λ a. a == 1000;
  is_neg_inf = λ _. false;
  is_nan = λ _. false;
  format_float = format_uint;
}

abbrev scraped : Text
scraped = write_text printer (
    add_histogram whole
      (observe whole 7 [] (new_histogram whole (codes "h") (codes "H.") (5 ∷ []) []))
      (add_gauge whole (gauge_set whole 4 (new_gauge whole (codes "g") (codes "G."))) (
        add_counter whole
          (counter_inc whole (codes "PUT" ∷ []) (
            counter_inc whole (codes "GET" ∷ [])
              (new_counter whole (codes "c") (codes "C.") (codes "method" ∷ []))))
          (new_registry whole))))

-- Every family is printed, counters first; the series of a family are in the order of their labels.
write_text_test :
    scraped
    ≡ codes "# HELP c C.\n# TYPE c counter\nc{method=\"GET\"} 1\nc{method=\"PUT\"} 1\n"
      ++ (codes "# HELP g G.\n# TYPE g gauge\ng 4\n"
          ++ (codes
                "# HELP h H.\n# TYPE h histogram\nh_bucket{le=\"5\"} 0\nh_bucket{le=\"+Inf\"} 1\n"
              ++ codes "h_sum 7\nh_count 1\n# EOF\n"))
unfolding write_text new_histogram new_gauge new_counter observe gauge_set counter_inc add_histogram
    add_gauge add_counter format_uint
write_text_test = refl

observe_all-IsFitted_example :
    IsFitted whole (observe_all whole ((3, get_home) ∷ (7, get_home) ∷ (2, []) ∷ []) latency)
    × (length
          (add_all whole
            ((3, get_home) ∷ (7, get_home) ∷ (2, []) ∷ [])
            (new_counter whole (codes "latency") (codes "Seconds.") method_path)).values
        ≤ max_series method_path)
observe_all-IsFitted_example =
    observe_all-IsFitted whole (codes "latency") (codes "Seconds.") (10 ∷ 5 ∷ 1000 ∷ 5 ∷ [])
      method_path ((3, get_home) ∷ (7, get_home) ∷ (2, []) ∷ [])
