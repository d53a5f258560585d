-- ===== src/Store/Search/Query.antt =====
-- internal/store/sqlite.go: the query that SearchRuns sends, with its arguments in the order of their
-- marks. `strconv.ParseFloat` and the decoding of page tokens (base64 and JSON) are parameters.
mod Columns
pub mod Balance
use litemlflow.Prelude.{
  ℕ, zero, suc, ◌+◌, Bool, true, false, ◌&&◌, ◌||◌, List, [], ◌∷◌, ◌++◌, map, Option, if◌then◌else◌,
  Result, ok, err, ◌>>=◌, Text, codes, text_eq, length, ℤ, pos, negsuc, ltb, leb, digits,
  max_digits,
}
use litemlflow.Model.Names.{trim_space}
use litemlflow.Store.Search.Texts.{join_text}
use litemlflow.Store.Search.Filter.{
  Arg, text, number, integer, Clause, clause, marks, parse_run_filter, sql_texts, all_args,
}
use litemlflow.Store.Search.Order.{
  RunOrderCol, run_col_expr, parse_run_order, KeysetCol, keyset_order_clause, keyset_predicate,
  decode_cursor,
}

pub record SearchOptions : Type 0 where
  pub workspace_id : Text
  pub experiment_ids : List ℤ
  pub lifecycle_stage : Text
  pub filter : Text
  pub order_by : List Text
  pub max_results : ℤ
  pub page_token : Text

-- The number of rows of a page: 1000 if none is asked for, and 50000 at most.
abbrev pub page_size : ℤ → ℕ
page_size (pos zero) = 1000
page_size (pos (suc n)) = if ltb 50000 (suc n) then 50000 else suc n
page_size (negsuc _) = 1000

abbrev pub base_select : Text
base_select =
    codes
      "id, experiment_id, COALESCE(name,''), status, start_time, end_time, artifact_uri, lifecycle_stage, COALESCE(user_id,''), COALESCE(source_type,''), COALESCE(source_name,''), run_kind, COALESCE(parent_run_id,'')"

abbrev pub stage_of : SearchOptions → Text
stage_of opt = if text_eq opt.lifecycle_stage [] then codes "active" else opt.lifecycle_stage

unfoldable pub has_computed : List RunOrderCol → Bool
has_computed [] = false
has_computed (c ∷ cols) = c.computed || has_computed cols

unfoldable pub flat_cols : List RunOrderCol → List KeysetCol
flat_cols [] = []
flat_cols (c ∷ cols) = record { expr = run_col_expr c.key; desc = c.desc } ∷ flat_cols cols

abbrev pub ending : List KeysetCol → Text
ending cols = codes " ORDER BY " ++ (keyset_order_clause cols ++ codes " LIMIT ?")

abbrev pub alias_of : ℕ → Text
alias_of i = codes "ord" ++ digits max_digits i []

abbrev pub missing_last : ℕ → RunOrderCol → List KeysetCol
missing_last i c =
    record { expr = codes "(" ++ (alias_of i ++ codes " IS NULL)"); desc = false }
    ∷ record {
      expr =
          codes "COALESCE("
          ++ (alias_of i
              ++ (codes ", "
                  ++ ((if c.text_sentinel then codes "''" else codes "0") ++ codes ")")));
      desc = c.desc;
    }
    ∷ []

-- The keys of the outer query; the last column, the id, is the tie-break.
unfoldable pub outer_cols : ℕ → List RunOrderCol → List KeysetCol
outer_cols i [] = []
outer_cols i (c ∷ []) = record { expr = codes "id"; desc = false } ∷ []
outer_cols i (c ∷ next ∷ cols) =
    (if c.computed then missing_last i c else record { expr = alias_of i; desc = c.desc } ∷ [])
    ++ outer_cols (suc i) (next ∷ cols)

module _ {V : Type 0} where
  -- A condition that stands only where a test holds.
  abbrev pub when : Bool → Clause V → List (Clause V)
  when t c = if t then c ∷ [] else []

  unfoldable pub in_experiments : List ℤ → Clause V
  in_experiments ids =
      clause (codes "experiment_id IN (" ++ (marks (length ids) ++ codes ")")) (map integer ids)

  -- The conditions of the options but for the filter and the page.
  unfoldable pub scope_conditions : SearchOptions → List (Clause V)
  scope_conditions opt =
      when (ltb 0 (length opt.experiment_ids)) (in_experiments opt.experiment_ids)
      ++ (when (if text_eq opt.workspace_id [] then false else true) (
            clause (codes "experiment_id IN (SELECT id FROM experiments WHERE workspace_id = ?)")
              (text opt.workspace_id ∷ []))
          ++ when (if text_eq (stage_of opt) (codes "all") then false else true)
              (clause (codes "lifecycle_stage = ?") (text (stage_of opt) ∷ [])))

  unfoldable pub filter_conditions : (Text → Option V) → Text → Result (List (Clause V))
  filter_conditions parse_float filter =
      if text_eq (trim_space filter) []
      then ok []
      else (do c ← parse_run_filter parse_float (trim_space filter); ok (c ∷ []))

  -- ` WHERE ` and the conditions, if there are any.
  unfoldable pub where_sql : List (Clause V) → Text
  where_sql [] = []
  where_sql (c ∷ cs) = codes " WHERE " ++ join_text (codes " AND ") (sql_texts (c ∷ cs))

  -- The condition of the page, if there is a token.
  unfoldable pub page_conditions :
      (Text → Option (List (Arg V))) → Text → List KeysetCol → Result (List (Clause V))
  page_conditions decode token cols = if text_eq token [] then ok [] else (do
    cur ← decode_cursor (decode token) (length cols)
    ok (keyset_predicate cols cur ∷ []))

  -- The query of an order by columns of runs only.
  unfoldable pub flat_query : List (Clause V) → List (Clause V) → List KeysetCol → Arg V → Clause V
  flat_query conditions page cols limit =
      clause
        (codes "SELECT "
          ++ (base_select
              ++ (codes " FROM runs" ++ (where_sql (conditions ++ page) ++ ending cols))))
        (all_args (conditions ++ page) ++ (limit ∷ []))

  -- The columns of the inner query of a computed order, from column `i` on, with their arguments.
  unfoldable pub projections : ℕ → List RunOrderCol → List (Clause V)
  projections i [] = []
  projections i (c ∷ []) = []
  projections i (c ∷ next ∷ cols) =
      (if c.computed
        then clause (c.proj ++ (codes " AS " ++ alias_of i)) (text c.arg ∷ [])
        else clause (run_col_expr c.key ++ (codes " AS " ++ alias_of i)) [])
      ∷ projections (suc i) (next ∷ cols)

  -- The query of an order by metrics, params or tags.
  unfoldable pub computed_query :
      List (Clause V) → List (Clause V) → List (Clause V) → List KeysetCol → Arg V → Clause V
  computed_query projected conditions page cols limit =
      clause
        (codes "SELECT * FROM (SELECT "
          ++ (base_select
              ++ (codes ", "
                  ++ (join_text (codes ", ") (sql_texts projected)
                      ++ (codes " FROM runs"
                          ++ (where_sql conditions
                              ++ (codes ")" ++ (where_sql page ++ ending cols))))))))
        (all_args projected ++ (all_args conditions ++ (all_args page ++ (limit ∷ []))))

  -- The two paths of `SearchRuns`.
  unfoldable pub query_of :
      (Text → Option (List (Arg V)))
      → SearchOptions
      → List (Clause V)
      → List RunOrderCol
      → Result (Clause V)
  query_of decode opt conditions order =
      let limit : Arg V = integer (pos (page_size opt.max_results + 1)) in
      if has_computed order
      then (do
        page ← page_conditions decode opt.page_token (outer_cols 0 order)
        ok (computed_query (projections 0 order) conditions page (outer_cols 0 order) limit))
      else (do
        page ← page_conditions decode opt.page_token (flat_cols order)
        ok (flat_query conditions page (flat_cols order) limit))

  -- `SearchRuns` up to the call of the database.
  unfoldable pub search_runs_query :
      (Text → Option V) → (Text → Option (List (Arg V))) → SearchOptions → Result (Clause V)
  search_runs_query parse_float decode opt = do
    filters ← filter_conditions parse_float opt.filter
    order ← parse_run_order opt.order_by
    query_of decode opt (scope_conditions opt ++ filters) order
