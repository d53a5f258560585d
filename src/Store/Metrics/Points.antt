-- ===== src/Store/Metrics/Points.antt =====
-- The points of a metric: their order, and the primary key that keeps them apart.
use litemlflow.Prelude.{
  ℕ, suc, String, Bool, true, false, ◌&&◌, List, [], ◌∷◌, ◌++◌, ◌≡◌, ◌⊎◌, inl, inr, arith, All,
  All-append, Bool-cases, eq_iff, any_row, select_rows, ℤ, int_eq, int_ltb_irrefl, int_ltb_trans,
  int_ltb_total, int_eq→eq, IsInt64, IsApart, ok, ok_inj, >>-eq-ok, guard, invalid_value,
}
use litemlflow.Model.Names.{valid_key}
use litemlflow.Store.Db.{Db, assert_run_exists}
use litemlflow.Store.Metrics.{
  Metric, MetricRow, Cursor, cursor_ltb, cursor_of, is_of, is_before, same_point, insert_metric,
  log_each, log_metrics,
}

pub cursor_ltb_irrefl : (a : Cursor) → cursor_ltb a a ≡ false
cursor_ltb_irrefl a = ground (arith, int_ltb_irrefl a.timestamp, int_ltb_irrefl a.step)

pub cursor_ltb_trans :
    (a b c : Cursor) → cursor_ltb a b ≡ true → cursor_ltb b c ≡ true → cursor_ltb a c ≡ true
cursor_ltb_trans a b c h k = ground (
  arith,
  int_ltb_trans a.timestamp b.timestamp c.timestamp,
  int_ltb_trans a.step b.step c.step,
  int_eq→eq a.timestamp b.timestamp,
  int_eq→eq b.timestamp c.timestamp,
)

cursor_ltb_total :
    (a b : Cursor)
    → (int_eq a.timestamp b.timestamp && int_eq a.step b.step) ≡ false
    → (cursor_ltb a b ≡ true) ⊎ (cursor_ltb b a ≡ true)
cursor_ltb_total a b h = ground (
  arith,
  int_ltb_total a.timestamp b.timestamp,
  int_ltb_total a.step b.step,
  int_eq→eq a.timestamp b.timestamp,
)

module _ {V : Type 0} where
  -- No row has the primary key of one before it.
  abbrev pub Distinct : List (MetricRow V) → Type 0
  Distinct [] = Unit
  Distinct (r ∷ rows) = All (λ s. same_point s r ≡ false) rows × Distinct rows

  abbrev pub InRange : MetricRow V → Type 0
  InRange r = IsInt64 r.metric.timestamp × IsInt64 r.metric.step

  Distinct-append :
      (r : MetricRow V) (rows : List (MetricRow V))
      → Distinct rows
      → All (λ s. same_point r s ≡ false) rows
      → Distinct (rows ++ (r ∷ []))
  Distinct-append r [] h k = (tt, tt)
  Distinct-append r (s ∷ rows) (apart, h) (rs, k) =
      (All-append _ rows (r ∷ []) apart (rs, tt), Distinct-append r rows h k)

  any_row_none :
      (p : MetricRow V → Bool) (rows : List (MetricRow V))
      → any_row p rows ≡ false
      → All (λ s. p s ≡ false) rows
  unfolding any_row
  any_row_none p [] h = tt
  any_row_none p (s ∷ rows) h = (ground arith, any_row_none p rows (ground arith))

  insert_metric-Distinct :
      (r : MetricRow V) (rows : List (MetricRow V))
      → Distinct rows
      → Distinct (insert_metric r rows)
  unfolding insert_metric
  insert_metric-Distinct r rows h = elim (Bool-cases (any_row (same_point r) rows)) [
    | inl there ↦ rw there h
    | inr new ↦ rw new (Distinct-append r rows h (any_row_none (same_point r) rows new))
  ]

  same_metric :
      (run_id key : String) (r s : MetricRow V)
      → is_of run_id key r ≡ true
      → is_of run_id key s ≡ true
      → is_of s.run_id s.metric.key r ≡ true
  same_metric run_id key r s hr hs = ground (
    arith,
    eq_iff r.run_id run_id,
    eq_iff s.run_id run_id,
    eq_iff r.run_id s.run_id,
    eq_iff r.metric.key key,
    eq_iff s.metric.key key,
    eq_iff r.metric.key s.metric.key,
  )

  one_apart :
      (run_id key : String) (r s : MetricRow V)
      → is_of run_id key r ≡ true
      → is_of run_id key s ≡ true
      → same_point s r ≡ false
      → (is_before r s ≡ true) ⊎ (is_before s r ≡ true)
  one_apart run_id key r s hr hs h =
      let same = same_metric run_id key r s hr hs in
      elim (cursor_ltb_total (cursor_of s) (cursor_of r) (ground arith)) [
        | inl below ↦ inr below
        | inr above ↦ inl above
      ]

  all_apart :
      (run_id key : String) (r : MetricRow V) (rows : List (MetricRow V))
      → is_of run_id key r ≡ true
      → All (λ s. same_point s r ≡ false) rows
      → All
          (λ s. (is_before r s ≡ true) ⊎ (is_before s r ≡ true))
          (select_rows (is_of run_id key) rows)
  unfolding select_rows
  all_apart run_id key r [] hr h = tt
  all_apart run_id key r (s ∷ rows) hr (apart, h) = elim (Bool-cases (is_of run_id key s)) [
    | inl kept ↦ rw kept (one_apart run_id key r s hr kept apart, all_apart run_id key r rows hr h)
    | inr other ↦ rw other (all_apart run_id key r rows hr h)
  ]

  -- The points of one metric stand apart in the order of their cursors.
  pub is_of-IsApart :
      (run_id key : String) (rows : List (MetricRow V))
      → Distinct rows
      → IsApart is_before (select_rows (is_of run_id key) rows)
  unfolding select_rows
  is_of-IsApart run_id key [] h = tt
  is_of-IsApart run_id key (r ∷ rows) (apart, h) = elim (Bool-cases (is_of run_id key r)) [
    | inl kept ↦ rw kept (all_apart run_id key r rows kept apart, is_of-IsApart run_id key rows h)
    | inr other ↦ rw other (is_of-IsApart run_id key rows h)
  ]

  module _ (is_finite : V → Bool) (clock : ℕ → ℤ) where
    log_each-Distinct :
        (i : ℕ) (run_id : String) (ms : List (Metric V)) (rows rows' : List (MetricRow V))
        → Distinct rows
        → log_each is_finite clock i run_id ms rows ≡ ok rows'
        → Distinct rows'
    unfolding log_each
    log_each-Distinct i run_id [] rows rows' h e = rw (← ok_inj e) h
    log_each-Distinct i run_id (m ∷ ms) rows rows' h e =
        let (_, rest) = >>-eq-ok (valid_key m.key) _ e in
        let (_, logged) = >>-eq-ok (guard (is_finite m.value) invalid_value) _ rest in
        log_each-Distinct (suc i) run_id ms _ rows' (insert_metric-Distinct _ rows h) logged

    -- The primary key holds after every call of `LogMetrics`.
    pub log_metrics-Distinct :
        (run_id : String) (ms : List (Metric V)) (db : Db) (rows rows' : List (MetricRow V))
        → Distinct rows
        → log_metrics is_finite clock run_id ms db rows ≡ ok rows'
        → Distinct rows'
    unfolding log_metrics
    log_metrics-Distinct run_id [] db rows rows' h e = rw (← ok_inj e) h
    log_metrics-Distinct run_id (m ∷ ms) db rows rows' h e =
        let (_, logged) = >>-eq-ok (assert_run_exists run_id db) _ e in
        log_each-Distinct 0 run_id (m ∷ ms) rows rows' h logged

  -- A table after any calls of `LogMetrics`, from an empty one; runs may come and go in between.
  pub data Logged (is_finite : V → Bool) : List (MetricRow V) → Type 0 where
    nothing : {rows : List (MetricRow V)} → rows ≡ [] → Logged is_finite rows
    logged :
        {before rows : List (MetricRow V)} (clock : ℕ → ℤ) (run_id : String) (ms : List (Metric V))
        (db : Db)
        → log_metrics is_finite clock run_id ms db before ≡ ok rows
        → Logged is_finite before
        → Logged is_finite rows

  pub Logged-Distinct :
      (is_finite : V → Bool) {rows : List (MetricRow V)} → Logged is_finite rows → Distinct rows
  Logged-Distinct is_finite (nothing e) = rw e tt
  Logged-Distinct is_finite (logged {before} {rows} clock run_id ms db e l) =
      log_metrics-Distinct is_finite clock run_id ms db before rows (Logged-Distinct is_finite l) e
