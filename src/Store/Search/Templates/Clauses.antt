-- ===== src/Store/Search/Templates/Clauses.antt =====
-- Each clause that a filter is read as fits a template.
use litemlflow.Prelude.{
  suc, ◌≡◌, refl, sym, ap, List, [], ◌∷◌, ◌++◌, map, Option, none, some, Result, ok, err, ◌>>=◌,
  Text, codes, text_eq, has_prefix, trim_prefix, length, ltb, All, Bool-cases, inl, inr, trim_both,
}
use litemlflow.Model.Names.{trim_space, trim_left}
use litemlflow.Store.Search.Texts.{cut_word, upper_letter, before_last, is_quote_mark}
use litemlflow.Store.Search.Values.{parse_in_values}
use litemlflow.Store.Search.Filter.{
  Arg, text, number, Clause, from_option, operators, attribute_column, time_column, in_clause,
  try_parse_in, between_clause, try_parse_between, compare_clause, try_operator, first_operator,
  if_found, or_else, parse_run_predicate,
}
use litemlflow.Store.Search.Templates.{
  Column, status, start_time, end_time, run_name, run_id, Operator, at_least, at_most, differs,
  equals, above, below, like, params, tags, Shape, comparison, child_comparison, metric_comparison,
  membership, child_membership, metric_range, time_range, column_text, operator_text, compares,
  lists, render, slots, Fits,
}

abbrev pub Safe : {V : Type 0} → Result (Clause V) → Type 0
Safe (ok c) = Fits c
Safe (err _) = Unit

abbrev SafeIfAny : {V : Type 0} → Option (Result (Clause V)) → Type 0
SafeIfAny none = Unit
SafeIfAny (some r) = Safe r

abbrev pub OnSome : {A : Type 0} → (A → Type 0) → Option A → Type 0
OnSome P none = Unit
OnSome P (some a) = P a

abbrev IsColumn : Text → Type 0
IsColumn t = (col : Column) × (t ≡ column_text col)

attribute_column-IsColumn : (col : Text) → OnSome IsColumn (attribute_column col)
unfolding attribute_column
attribute_column-IsColumn col = elim (Bool-cases (text_eq col (codes "status"))) [
  | inl h ↦ rw h (status, refl)
  | inr h ↦ rw h (elim (Bool-cases (text_eq col (codes "start_time"))) [
    | inl h ↦ rw h (start_time, refl)
    | inr h ↦ rw h (elim (Bool-cases (text_eq col (codes "end_time"))) [
      | inl h ↦ rw h (end_time, refl)
      | inr h ↦ rw h (elim (Bool-cases (text_eq col (codes "run_name"))) [
        | inl h ↦ rw h (run_name, refl)
        | inr h ↦ rw h (elim (Bool-cases (text_eq col (codes "run_id"))) [
          | inl h ↦ rw h (run_id, refl)
          | inr h ↦ rw h (tt)
        ])
      ])
    ])
  ])
]

time_column-IsColumn : (col : Text) → OnSome IsColumn (time_column col)
unfolding time_column
time_column-IsColumn col = elim (Bool-cases (text_eq col (codes "start_time"))) [
  | inl h ↦ rw h (start_time, refl)
  | inr h ↦ rw h (elim (Bool-cases (text_eq col (codes "end_time"))) [
    | inl h ↦ rw h (end_time, refl)
    | inr h ↦ rw h (tt)
  ])
]

pub length-map : {A B : Type 0} (f : A → B) (xs : List A) → length (map f xs) ≡ length xs
length-map f [] = refl
length-map f (x ∷ xs) = ap suc (length-map f xs)

module _ {V : Type 0} where
  Safe-option :
      {A : Type 0} (P : A → Type 0) (o : Option A) (next : A → Result (Clause V))
      → OnSome P o
      → ((a : A) → P a → Safe (next a))
      → Safe (from_option o >>= next)
  Safe-option P none next h k = tt
  Safe-option P (some a) next h k = k a h

  -- Where nothing is known of the value.
  Safe-any :
      {A : Type 0} (m : Result A) (next : A → Result (Clause V))
      → ((a : A) → Safe (next a))
      → Safe (m >>= next)
  Safe-any (err _) next k = tt
  Safe-any (ok a) next k = k a

  on_column :
      (col tail : Text) (args : List (Arg V)) (shape : Column → Shape)
      → ((c : Column) → render (shape c) ≡ column_text c ++ tail)
      → ((c : Column) → length args ≡ slots (shape c))
      → IsColumn col
      → Fits {V = V} (record { sql = col ++ tail; args = args })
  on_column col tail args shape text_is count_is (c, is) =
      (shape c, rw is (sym (text_is c)), count_is c)

module _ {V : Type 0} (parse_float : Text → Option V) where
  in_clause-Safe : (left : Text) (vals : List Text) → Safe (in_clause parse_float left vals)
  unfolding in_clause
  in_clause-Safe left vals = elim (Bool-cases (text_eq left (codes "status"))) [
    | inl h ↦ rw h (membership status (length vals), refl, length-map text vals)
    | inr h ↦ rw h (elim (Bool-cases (has_prefix left (codes "attributes."))) [
      | inl h ↦ rw h (
          Safe-option IsColumn (attribute_column (trim_prefix left (codes "attributes."))) _
            (attribute_column-IsColumn _)
            (λ c is.
              on_column c (codes " " ++ lists (length vals)) (map text vals)
                (λ k. membership k (length vals)) (λ k. refl) (λ k. length-map text vals) is))
      | inr h ↦ rw h (elim (Bool-cases (has_prefix left (codes "params."))) [
        | inl h ↦ rw h (child_membership params (length vals), refl, ap suc (length-map text vals))
        | inr h ↦ rw h (elim (Bool-cases (has_prefix left (codes "tags."))) [
          | inl h ↦ rw h (child_membership tags (length vals), refl, ap suc (length-map text vals))
          | inr h ↦ rw h (tt)
        ])
      ])
    ])
  ]

  between_clause-Safe : (left low high : Text) → Safe (between_clause parse_float left low high)
  unfolding between_clause
  between_clause-Safe left low high = elim (Bool-cases (has_prefix left (codes "metrics."))) [
    | inl h ↦ rw h (
        Safe-any (from_option (parse_float low)) _
          (λ lo. Safe-any (from_option (parse_float high)) _ (λ hi. (metric_range, refl, refl))))
    | inr h ↦ rw h (elim (Bool-cases (has_prefix left (codes "attributes."))) [
      | inl h ↦ rw h (
          Safe-option IsColumn (time_column (trim_prefix left (codes "attributes."))) _
            (time_column-IsColumn _)
            (λ c is. Safe-any (from_option (parse_float low)) _ (λ lo.
              Safe-any (from_option (parse_float high)) _ (λ hi.
                on_column c (codes " BETWEEN ? AND ?") (number lo ∷ number hi ∷ []) time_range
                  (λ k. refl) (λ k. refl) is))))
      | inr h ↦ rw h (tt)
    ])
  ]

  compare_clause-SafeIfAny :
      (op : Operator) (left right : Text)
      → SafeIfAny (compare_clause parse_float (operator_text op) left right)
  unfolding compare_clause
  compare_clause-SafeIfAny op left right = elim (Bool-cases (text_eq left (codes "status"))) [
    | inl h ↦ rw h (comparison status op, refl, refl)
    | inr h ↦ rw h (elim (Bool-cases (has_prefix left (codes "params."))) [
      | inl h ↦ rw h (child_comparison params op, refl, refl)
      | inr h ↦ rw h (elim (Bool-cases (has_prefix left (codes "tags."))) [
        | inl h ↦ rw h (child_comparison tags op, refl, refl)
        | inr h ↦ rw h (elim (Bool-cases (has_prefix left (codes "metrics."))) [
          | inl h ↦ rw h (
              Safe-any (from_option (parse_float right)) _
                (λ val. (metric_comparison op, refl, refl)))
          | inr h ↦ rw h (elim (Bool-cases (has_prefix left (codes "attributes."))) [
            | inl h ↦ rw h (
                Safe-option IsColumn (attribute_column (trim_prefix left (codes "attributes."))) _
                  (attribute_column-IsColumn _)
                  (λ c is.
                    on_column {V = V} c (codes " " ++ compares op) (text right ∷ [])
                      (λ k. comparison k op) (λ k. refl) (λ k. refl) is))
            | inr h ↦ rw h (tt)
          ])
        ])
      ])
    ])
  ]

  if_found-SafeIfAny :
      {A : Type 0} (o : Option A) (next : A → Option (Result (Clause V)))
      → ((a : A) → SafeIfAny (next a))
      → SafeIfAny (if_found o next)
  if_found-SafeIfAny none next h = tt
  if_found-SafeIfAny (some a) next h = h a

  or_else-Safe :
      (o : Option (Result (Clause V))) (other : Result (Clause V))
      → SafeIfAny o
      → Safe other
      → Safe (or_else o other)
  or_else-Safe none other h k = k
  or_else-Safe (some result) other h k = h

  try_parse_in-SafeIfAny : (c : Text) → SafeIfAny (try_parse_in parse_float c)
  unfolding try_parse_in
  try_parse_in-SafeIfAny c =
      if_found-SafeIfAny (cut_word upper_letter (codes " IN (") c) _ λ (left, rest).
        Safe-any (from_option (before_last 41 (trim_space rest))) _ λ inner.
          Safe-any (parse_in_values inner) _ λ vals. elim (Bool-cases (ltb 0 (length vals))) [
            | inl any ↦ rw any (in_clause-Safe (trim_space left) vals)
            | inr empty ↦ rw empty tt
          ]

  try_parse_between-SafeIfAny : (c : Text) → SafeIfAny (try_parse_between parse_float c)
  unfolding try_parse_between
  try_parse_between-SafeIfAny c =
      if_found-SafeIfAny (cut_word upper_letter (codes " BETWEEN ") c) _ λ (left, rest).
        Safe-any (from_option (cut_word upper_letter (codes " AND ") (trim_space rest))) _ λ bounds.
          between_clause-Safe (trim_space left) (trim_space bounds.0) (trim_space bounds.1)

  IsOperator : Text → Type 0
  IsOperator op = (o : Operator) × (trim_space op ≡ operator_text o)

  try_operator-SafeIfAny :
      (op : Text) (c : Text) → IsOperator op → SafeIfAny (try_operator parse_float op c)
  unfolding try_operator IsOperator
  try_operator-SafeIfAny op c (o, is) =
      if_found-SafeIfAny (cut_word upper_letter op c) _ λ (left, right).
        rw is (
          compare_clause-SafeIfAny o (trim_space left) (trim_both is_quote_mark (trim_space right)))

  first_operator-Safe :
      (ops : List Text) (c : Text) → All IsOperator ops → Safe (first_operator parse_float ops c)
  unfolding first_operator
  first_operator-Safe [] c _ = tt
  first_operator-Safe (op ∷ ops) c (is, more) =
      or_else-Safe (try_operator parse_float op c) (first_operator parse_float ops c)
        (try_operator-SafeIfAny op c is) (first_operator-Safe ops c more)

  operators_known : All IsOperator operators
  unfolding IsOperator trim_space trim_left
  operators_known = (
    (at_least, refl),
    (
      (at_most, refl),
      ((differs, refl), ((equals, refl), ((above, refl), ((below, refl), ((like, refl), tt))))),
    ),
  )

  pub parse_run_predicate-Safe : (c : Text) → Safe (parse_run_predicate parse_float c)
  unfolding parse_run_predicate
  parse_run_predicate-Safe c =
      or_else-Safe (try_parse_in parse_float c) _ (try_parse_in-SafeIfAny c) (
        or_else-Safe (try_parse_between parse_float c) _ (try_parse_between-SafeIfAny c)
          (first_operator-Safe operators c operators_known))
