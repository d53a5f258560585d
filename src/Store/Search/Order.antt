-- ===== src/Store/Search/Order.antt =====
-- internal/store/sqlite.go: the orders of a search, and the condition by which a page begins after
-- the last row of the page before.
pub mod Keyset
use litemlflow.Prelude.{
  ℕ, zero, suc, Bool, true, false, ◌&&◌, ◌||◌, List, [], ◌∷◌, ◌++◌, map, Option, none, some, ◌==◌,
  if◌then◌else◌, Result, ok, err, invalid_filter, ◌>>=◌, Text, codes, text_eq, has_prefix,
  trim_prefix, length, ltb,
}
use litemlflow.Store.Search.Texts.{upper_letter, join_text, fields}
use litemlflow.Store.Search.Filter.{Arg, Clause, clause, from_option}

pub record RunOrderCol : Type 0 where
  pub key : Text
  pub desc : Bool
  pub computed : Bool
  pub proj : Text
  pub arg : Text
  pub text_sentinel : Bool

abbrev pub metric_order_proj : Text
metric_order_proj =
    codes
      "(SELECT value FROM metrics WHERE metrics.run_id = runs.id AND metrics.key = ? ORDER BY metrics.timestamp DESC, metrics.step DESC LIMIT 1)"

abbrev pub param_order_proj : Text
param_order_proj =
    codes "(SELECT value FROM params WHERE params.run_id = runs.id AND params.key = ? LIMIT 1)"

abbrev pub tag_order_proj : Text
tag_order_proj =
    codes "(SELECT value FROM tags WHERE tags.run_id = runs.id AND tags.key = ? LIMIT 1)"

-- `runColExpr`
unfoldable pub run_col_expr : Text → Text
run_col_expr key =
    if text_eq key (codes "end_time")
    then codes "COALESCE(end_time, -1)"
    else if text_eq key (codes "name")
    then codes "COALESCE(name, '')"
    else key

-- `colMap`, with or without the prefix `attributes.`.
unfoldable pub col_map : Text → Option Text
col_map key =
    if text_eq key (codes "attributes.start_time") || text_eq key (codes "start_time")
    then some (codes "start_time")
    else if text_eq key (codes "attributes.end_time") || text_eq key (codes "end_time")
    then some (codes "end_time")
    else if text_eq key (codes "attributes.status") || text_eq key (codes "status")
    then some (codes "status")
    else if text_eq key (codes "attributes.run_name") || text_eq key (codes "run_name")
    then some (codes "name")
    else if text_eq key (codes "attributes.run_id") || text_eq key (codes "run_id")
    then some (codes "id")
    else none

abbrev pub attribute_order : Text → Bool → RunOrderCol
attribute_order key desc = record {
  key = key;
  desc = desc;
  computed = false;
  proj = [];
  arg = [];
  text_sentinel = false;
}

-- A column whose values lie in another table; its key must not be empty.
unfoldable pub computed_order : Text → Text → Bool → Bool → Result RunOrderCol
computed_order proj arg desc text_sentinel =
    if text_eq arg []
    then err invalid_filter
    else ok (record {
      key = [];
      desc = desc;
      computed = true;
      proj = proj;
      arg = arg;
      text_sentinel = text_sentinel;
    })

-- Whether the second word of an order, if there is one, asks for the descending order.
unfoldable pub order_direction : List Text → Result Bool
order_direction [] = ok false
order_direction (word ∷ _) =
    if text_eq (map upper_letter word) (codes "ASC")
    then ok false
    else if text_eq (map upper_letter word) (codes "DESC")
    then ok true
    else err invalid_filter

unfoldable pub order_column : Text → Bool → Result RunOrderCol
order_column raw_key desc =
    if has_prefix raw_key (codes "metrics.")
    then computed_order metric_order_proj (trim_prefix raw_key (codes "metrics.")) desc false
    else if has_prefix raw_key (codes "params.")
    then computed_order param_order_proj (trim_prefix raw_key (codes "params.")) desc true
    else if has_prefix raw_key (codes "tags.")
    then computed_order tag_order_proj (trim_prefix raw_key (codes "tags.")) desc true
    else (do key ← from_option (col_map raw_key); ok (attribute_order key desc))

-- One round of the loop of `parseRunOrder`; an order without words is passed over.
unfoldable pub order_columns : List Text → Result (List RunOrderCol)
order_columns [] = ok []
order_columns (raw_key ∷ words) = do
  desc ← order_direction words
  col ← order_column raw_key desc
  ok (col ∷ [])

unfoldable pub parse_orders : List Text → Result (List RunOrderCol)
parse_orders [] = ok []
parse_orders (order ∷ orders) = do
  col ← order_columns (fields order)
  cols ← parse_orders orders
  ok (col ++ cols)

abbrev pub default_order : List RunOrderCol → List RunOrderCol
default_order [] = attribute_order (codes "start_time") true ∷ []
default_order (col ∷ cols) = col ∷ cols

-- `parseRunOrder`: the id comes last, so that no two rows are equal.
unfoldable pub parse_run_order : List Text → Result (List RunOrderCol)
parse_run_order order = do
  cols ← parse_orders order
  ok (default_order cols ++ (attribute_order (codes "id") false ∷ []))

pub record KeysetCol : Type 0 where
  pub expr : Text
  pub desc : Bool

unfoldable pub order_parts : List KeysetCol → List Text
order_parts [] = []
order_parts (c ∷ cols) =
    (c.expr ++ (codes " " ++ (if c.desc then codes "DESC" else codes "ASC"))) ∷ order_parts cols

-- `keysetOrderClause`
unfoldable pub keyset_order_clause : List KeysetCol → Text
keyset_order_clause cols = join_text (codes ", ") (order_parts cols)

-- One comparison of a column with a value of the cursor.
pub data Comparison (V : Type 0) : Type 0 where
  equal_to : KeysetCol → Arg V → Comparison V
  beyond : KeysetCol → Arg V → Comparison V

module _ {V : Type 0} where
  abbrev pub comparison_sql : Comparison V → Text
  comparison_sql (equal_to c v) = c.expr ++ codes " = ?"
  comparison_sql (beyond c v) =
      c.expr ++ (codes " " ++ ((if c.desc then codes "<" else codes ">") ++ codes " ?"))

  abbrev pub comparison_arg : Comparison V → Arg V
  comparison_arg (equal_to c v) = v
  comparison_arg (beyond c v) = v

  -- The loops of `keysetPredicate`: for each column, the columns before it are equal to the cursor
  -- and it lies beyond. `before` holds the columns before the first one of the list.
  unfoldable pub keyset_groups :
      List (Comparison V) → List KeysetCol → List (Arg V) → List (List (Comparison V))
  keyset_groups before (c ∷ cols) (v ∷ cur) =
      (before ++ (beyond c v ∷ [])) ∷ keyset_groups (before ++ (equal_to c v ∷ [])) cols cur
  keyset_groups before [] cur = []
  keyset_groups before (c ∷ cols) [] = []

  unfoldable pub group_sql : List (Comparison V) → Text
  group_sql group = codes "(" ++ (join_text (codes " AND ") (map comparison_sql group) ++ codes ")")

  unfoldable pub groups_args : List (List (Comparison V)) → List (Arg V)
  groups_args [] = []
  groups_args (group ∷ groups) = map comparison_arg group ++ groups_args groups

  -- `keysetPredicate`
  unfoldable pub keyset_predicate : List KeysetCol → List (Arg V) → Clause V
  keyset_predicate cols cur =
      let groups = keyset_groups [] cols cur in
      clause (codes "(" ++ (join_text (codes " OR ") (map group_sql groups) ++ codes ")"))
        (groups_args groups)

  -- `decodeCursor` after base64 and JSON, of which none stands for a refusal.
  unfoldable pub decode_cursor : Option (List (Arg V)) → ℕ → Result (List (Arg V))
  decode_cursor vals n = do
    cur ← from_option vals
    if length cur == n then ok cur else err invalid_filter
