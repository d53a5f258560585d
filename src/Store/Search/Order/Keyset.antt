-- ===== src/Store/Search/Order/Keyset.antt =====
-- What the condition of a page selects.
use litemlflow.Prelude.{
  ◌≡◌, refl, ap, ap₂, ◌∙◌, Bool-cases, inl, inr, Bool, true, false, ◌&&◌, ◌||◌, List, [], ◌∷◌, ◌++◌,
  map, if◌then◌else◌, Text, codes, length, length-append, arith, All, All-append,
}
use litemlflow.Store.Search.Texts.{join_text}
use litemlflow.Store.Search.Filter.{Arg}
use litemlflow.Store.Search.Templates.Marks.{
  question_marks, question_marks-append, before_rest, all_marks, question_marks-join_text,
}
use litemlflow.Store.Search.Order.{
  KeysetCol, Comparison, equal_to, beyond, comparison_sql, comparison_arg, keyset_groups, group_sql,
  groups_args, keyset_predicate,
}

-- SQL, as far as the condition of a page uses it: comparisons of an expression with a value, joined
-- by AND in groups that are joined by OR.
pub data Sign : Type 0 where
  equals less_than greater_than : Sign

pub record Test (V : Type 0) : Type 0 where
  pub sign : Sign
  pub operand : Text
  pub value : Arg V

abbrev pub sign_text : Sign → Text
sign_text equals = codes " = ?"
sign_text less_than = codes " < ?"
sign_text greater_than = codes " > ?"

module _ {V : Type 0} where
  abbrev pub test_text : Test V → Text
  test_text t = t.operand ++ sign_text t.sign

  abbrev pub and_text : List (Test V) → Text
  and_text group = codes "(" ++ (join_text (codes " AND ") (map test_text group) ++ codes ")")

  abbrev pub or_text : List (List (Test V)) → Text
  or_text groups = codes "(" ++ (join_text (codes " OR ") (map and_text groups) ++ codes ")")

  -- The values, in the order of their marks.
  abbrev pub values_of : List (Test V) → List (Arg V)
  values_of [] = []
  values_of (t ∷ group) = t.value ∷ values_of group

  abbrev pub all_values : List (List (Test V)) → List (Arg V)
  all_values [] = []
  all_values (group ∷ groups) = values_of group ++ all_values groups

-- A database's order of values, and the values of one row.
module _ {V : Type 0} (less same : Arg V → Arg V → Bool) (row : Text → Arg V) where
  abbrev pub passes : Sign → Arg V → Arg V → Bool
  passes equals x v = same x v
  passes less_than x v = less x v
  passes greater_than x v = less v x

  abbrev pub all_pass : List (Test V) → Bool
  all_pass [] = true
  all_pass (t ∷ group) = passes t.sign (row t.operand) t.value && all_pass group

  abbrev pub any_group : List (List (Test V)) → Bool
  any_group [] = false
  any_group (group ∷ groups) = all_pass group || any_group groups

  -- Whether the row comes after the cursor in the order of the columns: its first value that is not
  -- that of the cursor is greater, or less where the column is descending.
  abbrev pub comes_after : List KeysetCol → List (Arg V) → Bool
  comes_after [] cur = false
  comes_after (c ∷ cols) [] = false
  comes_after (c ∷ cols) (v ∷ cur) =
      (if c.desc then less (row c.expr) v else less v (row c.expr))
      || (same (row c.expr) v && comes_after cols cur)

-- What the code's comparisons say in SQL.
module _ {V : Type 0} where
  abbrev test_of : Comparison V → Test V
  test_of (equal_to c v) = record { sign = equals; operand = c.expr; value = v }
  test_of (beyond c v) = record {
    sign = if c.desc then less_than else greater_than;
    operand = c.expr;
    value = v;
  }

  comparison_sql-test_of : (c : Comparison V) → comparison_sql c ≡ test_text (test_of c)
  comparison_sql-test_of (equal_to c v) = refl
  comparison_sql-test_of (beyond c v) = elim (Bool-cases c.desc) [
    | inl down ↦ rw down refl
    | inr up ↦ rw up refl
  ]

  comparison_sql-map :
      (group : List (Comparison V)) → map comparison_sql group ≡ map test_text (map test_of group)
  comparison_sql-map [] = refl
  comparison_sql-map (c ∷ group) =
      ap₂ (λ t l. t ∷ l) (comparison_sql-test_of c) (comparison_sql-map group)

  group_sql-map :
      (groups : List (List (Comparison V)))
      → map group_sql groups ≡ map and_text (map (map test_of) groups)
  unfolding group_sql
  group_sql-map [] = refl
  group_sql-map (group ∷ groups) =
      ap₂ (λ l t. (codes "(" ++ (join_text (codes " AND ") l ++ codes ")")) ∷ t)
        (comparison_sql-map group) (group_sql-map groups)

  group_args :
      (group : List (Comparison V)) → map comparison_arg group ≡ values_of (map test_of group)
  group_args [] = refl
  group_args (equal_to c v ∷ group) = ap (λ l. v ∷ l) (group_args group)
  group_args (beyond c v ∷ group) = ap (λ l. v ∷ l) (group_args group)

  groups_args-map :
      (groups : List (List (Comparison V)))
      → groups_args groups ≡ all_values (map (map test_of) groups)
  unfolding groups_args
  groups_args-map [] = refl
  groups_args-map (group ∷ groups) = ap₂ (λ a b. a ++ b) (group_args group) (groups_args-map groups)

regroup : (b x e k : Bool) → ((b && (x && true)) || (b && (e && true)) && k) ≡ (b && (x || e && k))
regroup true true e k = refl
regroup true false true k = refl
regroup true false false k = refl
regroup false x e k = refl

module _ {V : Type 0} (less same : Arg V → Arg V → Bool) (row : Text → Arg V) where
  all_pass-append :
      (group group' : List (Comparison V))
      → all_pass less same row (map test_of (group ++ group')) ≡ (
          all_pass less same row (map test_of group) && all_pass less same row (map test_of group'))
  all_pass-append [] group' = refl
  all_pass-append (c ∷ group) group' = ground (arith, all_pass-append group group')

  passes-beyond :
      (desc : Bool) (x v : Arg V)
      → passes less same row (if desc then less_than else greater_than) x v
        ≡ (if desc then less x v else less v x)
  passes-beyond true x v = refl
  passes-beyond false x v = refl

  any_group-keyset_groups :
      (before : List (Comparison V)) (cols : List KeysetCol) (cur : List (Arg V))
      → any_group less same row (map (map test_of) (keyset_groups before cols cur))
        ≡ (all_pass less same row (map test_of before) && comes_after less same row cols cur)
  unfolding keyset_groups
  any_group-keyset_groups before [] cur = ground arith
  any_group-keyset_groups before (c ∷ cols) [] = ground arith
  any_group-keyset_groups before (c ∷ cols) (v ∷ cur) =
      rw (all_pass-append before (beyond c v ∷ [])) (
        rw (any_group-keyset_groups (before ++ (equal_to c v ∷ [])) cols cur) (
          rw (all_pass-append before (equal_to c v ∷ [])) (
            rw (passes-beyond c.desc (row c.expr) v) (
              regroup (all_pass less same row (map test_of before))
                (if c.desc then less (row c.expr) v else less v (row c.expr)) (same (row c.expr) v)
                (comes_after less same row cols cur)))))

-- A column whose expression has no mark of a value.
abbrev pub HasNoMark : KeysetCol → Type 0
HasNoMark c = question_marks c.expr ≡ 0

-- A text in parentheses.
in_parentheses : (t : Text) → question_marks (codes "(" ++ (t ++ codes ")")) ≡ question_marks t
in_parentheses t = omega (
  arith,
  before_rest (codes "(") (t ++ codes ")") 0 (unfold question_marks in refl),
  question_marks-append t (codes ")"),
  closing,
)
  where
    closing : question_marks (codes ")") ≡ 0
    closing = unfold question_marks in refl

-- The sign of a comparison and the mark of its value.
sign_marks :
    (desc : Bool)
    → question_marks (codes " " ++ ((if desc then codes "<" else codes ">") ++ codes " ?")) ≡ 1
unfolding question_marks
sign_marks true = refl
sign_marks false = refl

module _ {V : Type 0} where
  abbrev pub IsOf : Comparison V → Type 0
  IsOf (equal_to c v) = HasNoMark c
  IsOf (beyond c v) = HasNoMark c

  question_marks-comparison_sql :
      (c : Comparison V) → IsOf c → question_marks (comparison_sql c) ≡ 1
  question_marks-comparison_sql (equal_to c v) h =
      question_marks-append c.expr (codes " = ?") ∙ rw h (unfold question_marks in refl)
  question_marks-comparison_sql (beyond c v) h =
      question_marks-append c.expr _ ∙ rw h (omega (arith, sign_marks c.desc))

  all_marks-comparison_sql :
      (group : List (Comparison V))
      → All IsOf group
      → all_marks (map comparison_sql group) ≡ length (map comparison_arg group)
  unfolding all_marks
  all_marks-comparison_sql [] _ = refl
  all_marks-comparison_sql (c ∷ group) (h, k) =
      omega (arith, question_marks-comparison_sql c h, all_marks-comparison_sql group k)

  all_marks-group_sql :
      (groups : List (List (Comparison V)))
      → All (All IsOf) groups
      → all_marks (map group_sql groups) ≡ length (groups_args groups)
  unfolding all_marks group_sql groups_args
  all_marks-group_sql [] _ = refl
  all_marks-group_sql (group ∷ groups) (h, k) = omega (
    arith,
    in_parentheses (join_text (codes " AND ") (map comparison_sql group)),
    question_marks-join_text (codes " AND ") (map comparison_sql group)
        (unfold question_marks in refl),
    all_marks-comparison_sql group h,
    all_marks-group_sql groups k,
    length-append (map comparison_arg group) (groups_args groups),
  )

  keyset_groups-IsOf :
      (before : List (Comparison V)) (cols : List KeysetCol) (cur : List (Arg V))
      → All IsOf before
      → All HasNoMark cols
      → All (All IsOf) (keyset_groups before cols cur)
  unfolding keyset_groups
  keyset_groups-IsOf before [] cur h k = tt
  keyset_groups-IsOf before (c ∷ cols) [] h k = tt
  keyset_groups-IsOf before (c ∷ cols) (v ∷ cur) h (k, l) = (
    All-append IsOf before (beyond c v ∷ []) h (k, tt),
    keyset_groups-IsOf (before ++ (equal_to c v ∷ [])) cols cur
        (All-append IsOf before (equal_to c v ∷ []) h (k, tt)) l,
  )

pub keyset_predicate-marks :
    {V : Type 0} (cols : List KeysetCol) (cur : List (Arg V))
    → All HasNoMark cols
    → question_marks (keyset_predicate cols cur).sql ≡ length (keyset_predicate cols cur).args
unfolding keyset_predicate
keyset_predicate-marks cols cur h =
    in_parentheses (join_text (codes " OR ") (map group_sql (keyset_groups [] cols cur)))
    ∙ question_marks-join_text (codes " OR ") (map group_sql (keyset_groups [] cols cur))
        (unfold question_marks in refl)
    ∙ all_marks-group_sql (keyset_groups [] cols cur) (keyset_groups-IsOf [] cols cur tt h)

-- The condition by which the next page begins, read as SQL, holds of exactly the rows that come after
-- the cursor in the order of the columns, each one ascending or descending: its text is that of
-- comparisons joined by AND in groups joined by OR, its arguments are the values of these
-- comparisons in their order, and the groups hold of a row as that order says. If no expression of a
-- column has a mark, there is an argument for each mark.
pub keyset_predicate-comes_after :
    {V : Type 0} (less same : Arg V → Arg V → Bool) (row : Text → Arg V) (cols : List KeysetCol)
    (cur : List (Arg V))
    → All HasNoMark cols
    → (groups : List (List (Test V))) × ((keyset_predicate cols cur).sql ≡ or_text groups)
      × ((keyset_predicate cols cur).args ≡ all_values groups)
      × (any_group less same row groups ≡ comes_after less same row cols cur)
      × (question_marks (keyset_predicate cols cur).sql ≡ length (keyset_predicate cols cur).args)
unfolding keyset_predicate
keyset_predicate-comes_after less same row cols cur h =
    let groups = keyset_groups [] cols cur in
    (
      map (map test_of) groups,
      ap (λ l. codes "(" ++ (join_text (codes " OR ") l ++ codes ")")) (group_sql-map groups),
      groups_args-map groups,
      any_group-keyset_groups less same row [] cols cur,
      keyset_predicate-marks cols cur h,
    )
