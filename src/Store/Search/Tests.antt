-- ===== src/Store/Search/Tests.antt =====
-- Filters, orders and queries of searches, at concrete texts.
use litemlflow.Prelude.{
  ℕ, Bool, true, false, ◌&&◌, List, [], ◌∷◌, Option, none, some, ◌≡◌, refl, ok, err, invalid_filter,
  Text, codes, text_eq, has_prefix, trim_prefix, drop_prefix, trim_both, trim_start, cut, length,
  pos, leb, ltb, digits,
}
use litemlflow.Model.Names.{trim_space, trim_left}
use litemlflow.Store.Search.Texts.{
  cut_word, before_last, join_text, fields, words_from, without_empty,
}
use litemlflow.Store.Search.Values.{parse_in_values, values_from, remaining}
use litemlflow.Store.Search.Values.Quoted.{quoted_list, parse_in_values-quoted_list}
use litemlflow.Store.Search.Filter.{
  Arg, text, number, integer, Clause, marks, attribute_column, time_column, in_clause, try_parse_in,
  between_clause, try_parse_between, compare_clause, try_operator, first_operator,
  parse_run_predicate, parse_clauses, all_args, conjunction, parse_run_filter, split_on_and,
  split_from, see, see_between, parse_experiment_filter, experiment_clause,
}
use litemlflow.Store.Search.Templates.Marks.{
  question_marks, IsAssembled, parse_run_filter-IsAssembled,
}
use litemlflow.Store.Search.Order.{
  KeysetCol, run_col_expr, col_map, computed_order, order_direction, order_column, order_columns,
  parse_orders, parse_run_order, order_parts, keyset_order_clause, keyset_groups, group_sql,
  groups_args, keyset_predicate, decode_cursor,
}
use litemlflow.Store.Search.Order.Keyset.{
  Test, or_text, all_values, any_group, comes_after, keyset_predicate-comes_after,
}
use litemlflow.Store.Search.Query.{
  SearchOptions, has_computed, flat_cols, in_experiments, scope_conditions, filter_conditions,
  where_sql, page_conditions, flat_query, projections, outer_cols, computed_query, query_of,
  search_runs_query,
}
use litemlflow.Store.Search.Query.Balance.{IsBalanced, search_runs_query-IsBalanced}

program : Unit {0}
unfolding trim_space trim_left text_eq has_prefix trim_prefix drop_prefix trim_both trim_start cut
    cut_word before_last join_text fields words_from without_empty parse_in_values values_from
    remaining marks attribute_column time_column in_clause try_parse_in between_clause
    try_parse_between compare_clause try_operator first_operator parse_run_predicate parse_clauses
    all_args conjunction parse_run_filter split_on_and split_from see see_between
    parse_experiment_filter experiment_clause run_col_expr col_map computed_order order_direction
    order_column order_columns parse_orders parse_run_order order_parts keyset_order_clause
    keyset_groups group_sql groups_args keyset_predicate decode_cursor has_computed flat_cols
    in_experiments scope_conditions filter_conditions where_sql page_conditions flat_query
    projections outer_cols computed_query query_of search_runs_query digits
program = tt

-- A number that is all of the text, by its first digit.
abbrev one_digit : Text → Option ℕ
one_digit [] = none
one_digit (c ∷ s) = some c

abbrev and_filter : Text
and_filter =
    codes "params.note = 'this AND that' AND metrics.loss BETWEEN 1 AND 2 AND status != 'FAILED'"

and_clause :
    split_on_and and_filter
    ≡ codes "params.note = 'this AND that'"
      ∷ codes "metrics.loss BETWEEN 1 AND 2"
      ∷ codes "status != 'FAILED'"
      ∷ []
unfolding program
and_clause = refl

abbrev team_filter : Text
team_filter = codes "tags.team in ('red','blue') and attributes.run_name like 'net%'"

abbrev team_clause : Clause ℕ
team_clause = record {
  sql = codes "id IN (SELECT run_id FROM tags WHERE key = ? AND value IN (?,?)) AND name LIKE ?";
  args = text (codes "team") ∷ text (codes "red") ∷ text (codes "blue") ∷ text (codes "net%") ∷ [];
}

parsed : parse_run_filter one_digit team_filter ≡ ok team_clause
unfolding program
parsed = refl

parse_run_filter-IsAssembled_example : IsAssembled team_clause
parse_run_filter-IsAssembled_example =
    parse_run_filter-IsAssembled one_digit team_filter team_clause parsed

-- The operator that is sought first is taken wherever it stands, also in the value.
operator_in_value_test :
    parse_run_filter one_digit (codes "params.note = 'a>=b'")
    ≡ ok (record {
      sql = codes "id IN (SELECT run_id FROM params WHERE key = ? AND value >= ?)";
      args = text (codes "note = 'a") ∷ text (codes "b") ∷ [];
    })
unfolding program
operator_in_value_test = refl

unknown_attribute_test :
    parse_run_filter one_digit (codes "attributes.user = 'x'") ≡ err invalid_filter
unfolding program
unknown_attribute_test = refl

experiment_test :
    parse_experiment_filter {V = ℕ} (codes "name like 'a b%'")
    ≡ ok (record { sql = codes "name LIKE ?"; args = text (codes "a b%") ∷ [] })
unfolding program
experiment_test = refl

abbrev two_values : List Text
two_values = codes "it's" ∷ codes "a, b" ∷ []

parse_in_values-quoted_list_example : parse_in_values (quoted_list two_values) ≡ ok two_values
parse_in_values-quoted_list_example = parse_in_values-quoted_list two_values

abbrev by_time : List KeysetCol
by_time =
    record { expr = codes "start_time"; desc = true }
    ∷ record { expr = codes "id"; desc = false }
    ∷ []

abbrev shorter : Arg ℕ → Arg ℕ → Bool
shorter (number a) (number b) = ltb a b
shorter _ _ = false

abbrev alike : Arg ℕ → Arg ℕ → Bool
alike (number a) (number b) = leb a b && leb b a
alike _ _ = false

abbrev one_row : Text → Arg ℕ
one_row t = number (length t)

abbrev last_seen : List (Arg ℕ)
last_seen = number 10 ∷ number 1 ∷ []

keyset_predicate-comes_after_example :
    (groups : List (List (Test ℕ))) × ((keyset_predicate by_time last_seen).sql ≡ or_text groups)
    × ((keyset_predicate by_time last_seen).args ≡ all_values groups)
    × (any_group shorter alike one_row groups ≡ comes_after shorter alike one_row by_time last_seen)
    × (question_marks (keyset_predicate by_time last_seen).sql
        ≡ length (keyset_predicate by_time last_seen).args)
keyset_predicate-comes_after_example =
    keyset_predicate-comes_after shorter alike one_row by_time last_seen
      ((unfold question_marks in refl), ((unfold question_marks in refl), tt))

abbrev asked : SearchOptions
asked = record {
  workspace_id = codes "team";
  experiment_ids = pos 1 ∷ pos 2 ∷ [];
  lifecycle_stage = [];
  filter = codes "status = 'RUNNING'";
  order_by = codes "metrics.loss DESC" ∷ [];
  max_results = pos 10;
  page_token = codes "t";
}

abbrev decoded : Text → Option (List (Arg ℕ))
decoded _ = some (integer (pos 0) ∷ number 5 ∷ text (codes "r9") ∷ [])

abbrev asked_clause : Clause ℕ
asked_clause = record {
  sql =
      codes
        "SELECT * FROM (SELECT id, experiment_id, COALESCE(name,''), status, start_time, end_time, artifact_uri, lifecycle_stage, COALESCE(user_id,''), COALESCE(source_type,''), COALESCE(source_name,''), run_kind, COALESCE(parent_run_id,''), (SELECT value FROM metrics WHERE metrics.run_id = runs.id AND metrics.key = ? ORDER BY metrics.timestamp DESC, metrics.step DESC LIMIT 1) AS ord0 FROM runs WHERE experiment_id IN (?,?) AND experiment_id IN (SELECT id FROM experiments WHERE workspace_id = ?) AND lifecycle_stage = ? AND status = ?) WHERE (((ord0 IS NULL) > ?) OR ((ord0 IS NULL) = ? AND COALESCE(ord0, 0) < ?) OR ((ord0 IS NULL) = ? AND COALESCE(ord0, 0) = ? AND id > ?)) ORDER BY (ord0 IS NULL) ASC, COALESCE(ord0, 0) DESC, id ASC LIMIT ?";
  args =
      text (codes "loss")
      ∷ integer (pos 1)
      ∷ integer (pos 2)
      ∷ text (codes "team")
      ∷ text (codes "active")
      ∷ text (codes "RUNNING")
      ∷ integer (pos 0)
      ∷ integer (pos 0)
      ∷ number 5
      ∷ integer (pos 0)
      ∷ number 5
      ∷ text (codes "r9")
      ∷ integer (pos 11)
      ∷ [];
}

asked_query : search_runs_query one_digit decoded asked ≡ ok asked_clause
unfolding program
asked_query = refl

search_runs_query-IsBalanced_example : IsBalanced asked_clause
search_runs_query-IsBalanced_example =
    search_runs_query-IsBalanced one_digit decoded asked asked_clause asked_query
