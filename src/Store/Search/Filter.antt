-- ===== src/Store/Search/Filter.antt =====
-- internal/store/sqlite.go: the filters of runs and experiments as WHERE clauses with their arguments.
-- `strconv.ParseFloat` is a parameter.
use litemlflow.Prelude.{
  ℕ, zero, suc, Bool, true, false, not, ◌&&◌, ◌||◌, List, [], ◌∷◌, ◌++◌, map, Option, none, some,
  ◌==◌, if◌then◌else◌, Result, ok, err, invalid_filter, ◌>>=◌, Text, codes, text_eq, has_prefix,
  cons_first, trim_prefix, trim_both, ℤ, pos, negsuc, int_eq, length, ltb,
}
use litemlflow.Model.Names.{trim_space}
use litemlflow.Store.Search.Texts.{
  upper_letter, cut_word, before_last, join_text, fields, is_quote_mark,
}
use litemlflow.Store.Search.Values.{parse_in_values}

pub data Arg (V : Type 0) : Type 0 where
  text : Text → Arg V
  number : V → Arg V
  integer : ℤ → Arg V

pub record Clause (V : Type 0) : Type 0 where
  pub sql : Text
  pub args : List (Arg V)

-- The variables of the loop of `splitOnAnd`.
pub record Scan : Type 0 where
  pub depth : ℤ
  pub in_quote : Bool
  pub in_between : Bool

abbrev pub one_up : ℤ → ℤ
one_up (pos n) = pos (suc n)
one_up (negsuc zero) = pos 0
one_up (negsuc (suc n)) = negsuc n

abbrev pub one_down : ℤ → ℤ
one_down (pos zero) = negsuc 0
one_down (pos (suc n)) = pos n
one_down (negsuc n) = negsuc (suc n)

-- The switch on a byte: quotes (39) and parentheses (40 and 41).
unfoldable pub see : ℕ → Scan → Scan
see c st =
    if c == 39
    then record st { in_quote = not st.in_quote }
    else if c == 40 && not st.in_quote
    then record st { depth = one_up st.depth }
    else if c == 41 && not st.in_quote
    then record st { depth = one_down st.depth }
    else st

abbrev pub is_open : Scan → Bool
is_open st = not st.in_quote && int_eq st.depth (pos 0)

unfoldable pub see_between : Text → Scan → Scan
unfolding has_prefix
see_between s st =
    if is_open st && has_prefix (map upper_letter s) (codes " BETWEEN ")
    then record st { in_between = true }
    else st

-- The loop of `splitOnAnd`. The first number is how many bytes the loop still skips, which belong to
-- the part where `kept` holds.
unfoldable pub split_from : ℕ → Bool → Scan → Text → List Text
unfolding see see_between has_prefix
split_from skip kept st [] = [] ∷ []
split_from (suc skip) kept st (c ∷ s) =
    let parts = split_from skip kept st s in if kept then cons_first c parts else parts
split_from zero kept st (c ∷ s) =
    let st' = see_between (c ∷ s) (see c st) in
    let inner = cons_first c (split_from 4 true (record st' { in_between = false }) s) in
    let ended = [] ∷ split_from 4 false st' s in
    let more = cons_first c (split_from 0 false st' s) in
    if is_open st' && has_prefix (map upper_letter (c ∷ s)) (codes " AND ")
    then if st'.in_between then inner else ended
    else more

abbrev pub scan_start : Scan
scan_start = record { depth = pos 0; in_quote = false; in_between = false }

-- `splitOnAnd`
unfoldable pub split_on_and : Text → List Text
unfolding split_from
split_on_and = split_from 0 false scan_start

-- The columns of runs that `attributes.` may name.
unfoldable pub attribute_column : Text → Option Text
attribute_column col =
    if text_eq col (codes "status")
    then some (codes "status")
    else if text_eq col (codes "start_time")
    then some (codes "start_time")
    else if text_eq col (codes "end_time")
    then some (codes "end_time")
    else if text_eq col (codes "run_name")
    then some (codes "name")
    else if text_eq col (codes "run_id")
    then some (codes "id")
    else none

unfoldable pub time_column : Text → Option Text
time_column col =
    if text_eq col (codes "start_time")
    then some (codes "start_time")
    else if text_eq col (codes "end_time")
    then some (codes "end_time")
    else none

-- `strings.TrimRight(strings.Repeat("?,", n), ",")`
unfoldable pub marks : ℕ → Text
marks zero = []
marks (suc zero) = codes "?"
marks (suc (suc n)) = codes "?," ++ marks (suc n)

-- The latest value of a metric, under a test.
abbrev pub latest_metric : Text → Text
latest_metric test =
    codes
      "id IN (SELECT run_id FROM metrics m1 WHERE key = ? AND (timestamp, step) = (SELECT timestamp, step FROM metrics m2 WHERE m2.run_id = m1.run_id AND m2.key = m1.key ORDER BY timestamp DESC, step DESC LIMIT 1) AND value "
    ++ (test ++ codes ")")

abbrev pub child_of : Text → Text → Text
child_of table test =
    codes "id IN (SELECT run_id FROM "
    ++ (table ++ (codes " WHERE key = ? AND value " ++ (test ++ codes ")")))

abbrev pub from_option : {A : Type 0} → Option A → Result A
from_option none = err invalid_filter
from_option (some a) = ok a

-- `if idx < 0` and the like: what follows where something is found.
abbrev pub if_found : {A B : Type 0} → Option A → (A → Option B) → Option B
if_found none next = none
if_found (some a) next = next a

abbrev pub or_else : {A : Type 0} → Option A → A → A
or_else none a = a
or_else (some result) a = result

-- The operators in the order in which they are looked for.
abbrev pub operators : List Text
operators =
    codes ">=" ∷ codes "<=" ∷ codes "!=" ∷ codes "=" ∷ codes ">" ∷ codes "<" ∷ codes " LIKE " ∷ []

module _ {V : Type 0} where
  abbrev pub clause : Text → List (Arg V) → Clause V
  clause sql args = record { sql = sql; args = args }

  unfoldable pub all_args : List (Clause V) → List (Arg V)
  all_args [] = []
  all_args (c ∷ cs) = c.args ++ all_args cs

  abbrev pub sql_texts : List (Clause V) → List Text
  sql_texts = map (λ c. c.sql)

  unfoldable pub conjunction : List (Clause V) → Clause V
  conjunction [] = clause (codes "1=1") []
  conjunction (c ∷ cs) = clause (join_text (codes " AND ") (sql_texts (c ∷ cs))) (all_args (c ∷ cs))

module _ {V : Type 0} (parse_float : Text → Option V) where
  -- `tryParseIN` after the values are read.
  unfoldable pub in_clause : Text → List Text → Result (Clause V)
  in_clause left vals =
      let list = codes "IN (" ++ (marks (length vals) ++ codes ")") in
      let args = map text vals in
      if text_eq left (codes "status")
      then ok (clause (codes "status " ++ list) args)
      else if has_prefix left (codes "attributes.")
      then (do
        col ← from_option (attribute_column (trim_prefix left (codes "attributes.")))
        ok (clause (col ++ (codes " " ++ list)) args))
      else if has_prefix left (codes "params.")
      then ok (
          clause (child_of (codes "params") list)
            (text (trim_prefix left (codes "params.")) ∷ args))
      else if has_prefix left (codes "tags.")
      then ok
          (clause (child_of (codes "tags") list) (text (trim_prefix left (codes "tags.")) ∷ args))
      else err invalid_filter

  -- `tryParseIN`; none where there is no IN.
  unfoldable pub try_parse_in : Text → Option (Result (Clause V))
  try_parse_in c = if_found (cut_word upper_letter (codes " IN (") c) λ (left, rest). some do
    inner ← from_option (before_last 41 (trim_space rest))
    vals ← parse_in_values inner
    if ltb 0 (length vals) then in_clause (trim_space left) vals else err invalid_filter

  -- `tryParseBETWEEN` after the bounds are cut out.
  unfoldable pub between_clause : Text → Text → Text → Result (Clause V)
  between_clause left low high =
      if has_prefix left (codes "metrics.")
      then (do
        lo ← from_option (parse_float low)
        hi ← from_option (parse_float high)
        ok (
            clause (latest_metric (codes "BETWEEN ? AND ?"))
              (text (trim_prefix left (codes "metrics.")) ∷ number lo ∷ number hi ∷ [])))
      else if has_prefix left (codes "attributes.")
      then (do
        col ← from_option (time_column (trim_prefix left (codes "attributes.")))
        lo ← from_option (parse_float low)
        hi ← from_option (parse_float high)
        ok (clause (col ++ codes " BETWEEN ? AND ?") (number lo ∷ number hi ∷ [])))
      else err invalid_filter

  -- `tryParseBETWEEN`; none where there is no BETWEEN.
  unfoldable pub try_parse_between : Text → Option (Result (Clause V))
  try_parse_between c = if_found (cut_word upper_letter (codes " BETWEEN ") c) λ (left, rest).
      some do
        bounds ← from_option (cut_word upper_letter (codes " AND ") (trim_space rest))
        between_clause (trim_space left) (trim_space bounds.0) (trim_space bounds.1)

  -- The switch on the left side of an operator; none where no case fits.
  unfoldable pub compare_clause : Text → Text → Text → Option (Result (Clause V))
  compare_clause op left right =
      if text_eq left (codes "status")
      then some (ok (clause (codes "status " ++ (op ++ codes " ?")) (text right ∷ [])))
      else if has_prefix left (codes "params.")
      then some (
          ok (
            clause (child_of (codes "params") (op ++ codes " ?"))
              (text (trim_prefix left (codes "params.")) ∷ text right ∷ [])))
      else if has_prefix left (codes "tags.")
      then some (
          ok (
            clause (child_of (codes "tags") (op ++ codes " ?"))
              (text (trim_prefix left (codes "tags.")) ∷ text right ∷ [])))
      else if has_prefix left (codes "metrics.")
      then some (do
        val ← from_option (parse_float right)
        ok (
            clause (latest_metric (op ++ codes " ?"))
              (text (trim_prefix left (codes "metrics.")) ∷ number val ∷ [])))
      else if has_prefix left (codes "attributes.")
      then some (do
        col ← from_option (attribute_column (trim_prefix left (codes "attributes.")))
        ok (clause (col ++ (codes " " ++ (op ++ codes " ?"))) (text right ∷ [])))
      else none

  -- One round of the loop over the operators. Only LIKE is sought in the upper-cased text; the other
  -- operators have no letters.
  unfoldable pub try_operator : Text → Text → Option (Result (Clause V))
  try_operator op c = if_found (cut_word upper_letter op c) λ (left, right).
      compare_clause (trim_space op) (trim_space left) (trim_both is_quote_mark (trim_space right))

  unfoldable pub first_operator : List Text → Text → Result (Clause V)
  first_operator [] c = err invalid_filter
  first_operator (op ∷ ops) c = or_else (try_operator op c) (first_operator ops c)

  -- `parseRunPredicate`
  unfoldable pub parse_run_predicate : Text → Result (Clause V)
  parse_run_predicate c =
      or_else (try_parse_in c) (or_else (try_parse_between c) (first_operator operators c))

  -- The loop of `parseRunFilter`: the clauses of the parts that are not empty.
  unfoldable pub parse_clauses : List Text → Result (List (Clause V))
  parse_clauses [] = ok []
  parse_clauses (part ∷ parts) =
      let rest = parse_clauses parts in
      if text_eq (trim_space part) []
      then rest
      else (do first ← parse_run_predicate (trim_space part); more ← rest; ok (first ∷ more))

  -- `parseRunFilter`
  unfoldable pub parse_run_filter : Text → Result (Clause V)
  parse_run_filter f = do clauses ← parse_clauses (split_on_and f); ok (conjunction clauses)

module _ {V : Type 0} where
  -- `parseExperimentFilter`, from the words of the filter.
  unfoldable pub experiment_clause : List Text → Result (Clause V)
  experiment_clause (name ∷ op ∷ value ∷ values) =
      if text_eq name (codes "name")
      then if text_eq (map upper_letter op) (codes "=")
          || text_eq (map upper_letter op) (codes "LIKE")
        then ok (
            clause (codes "name " ++ (map upper_letter op ++ codes " ?")) (
              text (trim_both is_quote_mark (trim_space (join_text (codes " ") (value ∷ values))))
              ∷ []))
        else err invalid_filter
      else err invalid_filter
  experiment_clause _ = err invalid_filter

  unfoldable pub parse_experiment_filter : Text → Result (Clause V)
  parse_experiment_filter f = experiment_clause (fields f)
