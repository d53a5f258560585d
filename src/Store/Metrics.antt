-- ===== src/Store/Metrics.antt =====
-- internal/store/sqlite.go: metrics that are logged and read back page by page. The values, float64
-- in the source, are of any type with a test of being finite.
mod Points
pub mod Pages
pub mod Tests
use litemlflow.Prelude.{
  ℕ, zero, suc, String, Bool, true, false, ◌&&◌, ◌||◌, List, [], ◌∷◌, ◌++◌, Option, none, some, ltb,
  if◌then◌else◌, length, take, str_eq, Text, text_eq, Result, ok, err, ◌>>=◌, ◌>>◌, guard,
  invalid_value, invalid_filter, any_row, select_rows, cut, ℤ, pos, int_ltb, int_eq, format_int,
  parse_int, sort_rows,
}
use litemlflow.Model.Names.{valid_key}
use litemlflow.Store.Db.{Db, assert_run_exists}

pub record Metric (V : Type 0) : Type 0 where
  pub key : String
  pub value : V
  pub timestamp : ℤ
  pub step : ℤ

pub record MetricRow (V : Type 0) : Type 0 where
  pub run_id : String
  pub metric : Metric V

-- A timestamp and a step, by which the points of a metric are ordered.
pub record Cursor : Type 0 where
  pub timestamp : ℤ
  pub step : ℤ

abbrev pub cursor_ltb : Cursor → Cursor → Bool
cursor_ltb a b =
    int_ltb a.timestamp b.timestamp || (int_eq a.timestamp b.timestamp && int_ltb a.step b.step)

-- `encodeMetricPageToken`
unfoldable pub encode_metric_page_token : Cursor → Text
unfolding format_int
encode_metric_page_token c = format_int c.timestamp ++ (b':' ∷ format_int c.step)

abbrev pub both : Option ℤ → Option ℤ → Option Cursor
both (some timestamp) (some step) = some (record { timestamp = timestamp; step = step })
both (some _) none = none
both none _ = none

unfoldable pub parse_parts : Option (Text × Text) → Option Cursor
unfolding parse_int
parse_parts none = none
parse_parts (some (timestamp, step)) = both (parse_int timestamp) (parse_int step)

-- `decodeMetricPageToken`
unfoldable pub decode_metric_page_token : Text → Option Cursor
unfolding cut parse_parts
decode_metric_page_token token = parse_parts (cut b':' token)

module _ {V : Type 0} where
  abbrev pub cursor_of : MetricRow V → Cursor
  cursor_of r = record { timestamp = r.metric.timestamp; step = r.metric.step }

  -- Rows of one metric of one run.
  abbrev pub is_of : String → String → MetricRow V → Bool
  is_of run_id key r = str_eq r.run_id run_id && str_eq r.metric.key key

  -- The primary key of the table.
  abbrev pub same_point : MetricRow V → MetricRow V → Bool
  same_point a b =
      is_of a.run_id a.metric.key b
      && (int_eq a.metric.timestamp b.metric.timestamp && int_eq a.metric.step b.metric.step)

  -- INSERT … ON CONFLICT DO NOTHING
  unfoldable pub insert_metric : MetricRow V → List (MetricRow V) → List (MetricRow V)
  unfolding any_row
  insert_metric r rows = if any_row (same_point r) rows then rows else rows ++ (r ∷ [])

  abbrev pub stamped_metric : ℤ → Metric V → Metric V
  stamped_metric now m = record m {
    timestamp = if int_eq m.timestamp (pos 0) then now else m.timestamp;
  }

  module _ (is_finite : V → Bool) (clock : ℕ → ℤ) where
    -- The loop of `LogMetrics`; the clock is read for each metric without a timestamp.
    unfoldable pub log_each :
        ℕ → String → List (Metric V) → List (MetricRow V) → Result (List (MetricRow V))
    unfolding valid_key insert_metric
    log_each i run_id [] rows = ok rows
    log_each i run_id (m ∷ ms) rows = do
      valid_key m.key
      guard (is_finite m.value) invalid_value
      let row : MetricRow V = record { run_id = run_id; metric = stamped_metric (clock i) m }
      log_each (suc i) run_id ms (insert_metric row rows)

    -- `LogMetrics`: nothing is written if a metric is refused.
    unfoldable pub log_metrics :
        String → List (Metric V) → Db → List (MetricRow V) → Result (List (MetricRow V))
    unfolding log_each assert_run_exists
    log_metrics run_id [] db rows = ok rows
    log_metrics run_id (m ∷ ms) db rows = do
      assert_run_exists run_id db
      log_each 0 run_id (m ∷ ms) rows

    -- `LogMetric`
    unfoldable pub log_metric :
        String → Metric V → Db → List (MetricRow V) → Result (List (MetricRow V))
    unfolding log_metrics
    log_metric run_id m = log_metrics run_id (m ∷ [])

  abbrev pub is_before : MetricRow V → MetricRow V → Bool
  is_before a b = cursor_ltb (cursor_of a) (cursor_of b)

  abbrev pub last_row : List (MetricRow V) → Option (MetricRow V)
  last_row [] = none
  last_row (r ∷ []) = some r
  last_row (_ ∷ r ∷ rows) = last_row (r ∷ rows)

  abbrev pub token_after : Option (MetricRow V) → Text
  unfolding encode_metric_page_token
  token_after none = []
  token_after (some r) = encode_metric_page_token (cursor_of r)

  -- The rows that the query returns: all from the token on, in their order.
  unfoldable pub rows_from :
      (MetricRow V → Bool) → String → String → List (MetricRow V) → List (MetricRow V)
  unfolding select_rows sort_rows
  rows_from after run_id key rows =
      sort_rows is_before (select_rows (λ r. is_of run_id key r && after r) rows)

  -- The LIMIT of the query, and the cut to a page; zero asks for all rows.
  unfoldable pub page_of : ℕ → List (MetricRow V) → List (MetricRow V) × Text
  unfolding token_after
  page_of zero rows = (rows, [])
  page_of (suc max) rows =
      let fetched = take (suc (suc max)) rows in
      let page = take (suc max) fetched in
      if ltb (suc max) (length fetched) then (page, token_after (last_row page)) else (fetched, [])

  abbrev pub query_from :
      Option Cursor → ℕ → String → String → List (MetricRow V) → Result (List (MetricRow V) × Text)
  unfolding rows_from page_of
  query_from none max run_id key rows = err invalid_filter
  query_from (some c) max run_id key rows =
      ok (page_of max (rows_from (λ r. cursor_ltb c (cursor_of r)) run_id key rows))

  -- `GetMetricHistory`
  unfoldable pub get_metric_history :
      String → String → ℕ → Text → List (MetricRow V) → Result (List (MetricRow V) × Text)
  unfolding query_from rows_from page_of decode_metric_page_token text_eq
  get_metric_history run_id key max token rows =
      if text_eq token []
      then ok (page_of max (rows_from (λ r. true) run_id key rows))
      else query_from (decode_metric_page_token token) max run_id key rows
