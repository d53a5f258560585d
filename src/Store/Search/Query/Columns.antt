-- ===== src/Store/Search/Query/Columns.antt =====
-- The columns of an order, and how many marks their expressions have.
use litemlflow.Prelude.{
  ℕ, zero, suc, ◌+◌, ◌/◌, ◌%◌, ◌≡◌, refl, sym, ◌∙◌, Bool, true, false, ◌||◌, List, [], ◌==◌, ◌∷◌,
  ◌++◌, Option, none, some, if◌then◌else◌, ok, >>=-eq-ok, ok_inj, Text, codes, text_eq, has_prefix,
  arith, All, All-append, Bool-cases, inl, inr, digits, max_digits, ltb,
}
use litemlflow.Store.Search.Texts.{join_text, fields}
use litemlflow.Store.Search.Filter.{from_option}
use litemlflow.Store.Search.Templates.Clauses.{OnSome}
use litemlflow.Store.Search.Templates.Marks.{
  question_marks, question_marks-append, after_plain, all_marks, question_marks-join_text,
}
use litemlflow.Store.Search.Order.{
  RunOrderCol, metric_order_proj, param_order_proj, tag_order_proj, computed_order, col_map,
  order_column, order_columns, order_direction, parse_orders, default_order, run_col_expr,
  parse_run_order, KeysetCol, order_parts, keyset_order_clause,
}
use litemlflow.Store.Search.Order.Keyset.{HasNoMark}
use litemlflow.Store.Search.Query.{
  base_select, has_computed, flat_cols, ending, alias_of, missing_last, outer_cols,
}

-- The marks of a column of an order: one in a look-up of another table, none in a column of runs.
abbrev pub IsMarked : Bool → Text → Text → Type 0
IsMarked true proj key = question_marks proj ≡ 1
IsMarked false proj key = question_marks (run_col_expr key) ≡ 0

abbrev pub IsKnown : RunOrderCol → Type 0
IsKnown c = IsMarked c.computed c.proj c.key

abbrev pub IsUnmarked : Text → Type 0
IsUnmarked key = question_marks (run_col_expr key) ≡ 0

col_map-IsUnmarked : (raw : Text) → OnSome IsUnmarked (col_map raw)
unfolding col_map
col_map-IsUnmarked raw =
    elim (Bool-cases
      (text_eq raw (codes "attributes.start_time") || text_eq raw (codes "start_time"))) [
        | inl h ↦ rw h (unfold run_col_expr question_marks text_eq in refl)
        | inr h ↦
            rw h
              (elim (Bool-cases
                (text_eq raw (codes "attributes.end_time") || text_eq raw (codes "end_time"))) [
                  | inl h ↦ rw h (unfold run_col_expr question_marks text_eq in refl)
                  | inr h ↦
                      rw h
                        (elim (Bool-cases (
                          text_eq raw (codes "attributes.status")
                          || text_eq raw (codes "status"))) [
                            | inl h ↦ rw h (unfold run_col_expr question_marks text_eq in refl)
                            | inr h ↦
                                rw h
                                  (elim (Bool-cases (
                                    text_eq raw (codes "attributes.run_name")
                                    || text_eq raw (codes "run_name"))) [
                                      | inl h ↦
                                          rw h (unfold run_col_expr question_marks text_eq in refl)
                                      | inr h ↦
                                          rw h
                                            (elim (Bool-cases (
                                              text_eq raw (codes "attributes.run_id")
                                              || text_eq raw (codes "run_id"))) [
                                                | inl h ↦ rw h (
                                                    unfold run_col_expr question_marks text_eq in
                                                    refl)
                                                | inr h ↦ rw h (tt)
                                              ])
                                    ])
                          ])
                ])
      ]

computed_order-IsKnown :
    (proj arg : Text) (desc sentinel : Bool) (c : RunOrderCol)
    → question_marks proj ≡ 1
    → computed_order proj arg desc sentinel ≡ ok c
    → IsKnown c
unfolding computed_order
computed_order-IsKnown proj arg desc sentinel c one h = elim (Bool-cases (text_eq arg [])) [
  | inl empty ↦ cc (rw empty at h)
  | inr there ↦ rw (sym (ok_inj (rw there at h))) one
]

pub closing_mark : question_marks (codes ")") ≡ 0
closing_mark = unfold question_marks in refl

-- A byte that is not the mark.
other_byte : (c : ℕ) (s : Text) → c == b'?' ≡ false → question_marks (c ∷ s) ≡ question_marks s
unfolding question_marks
other_byte c s h = rw h (omega arith)

digits-marks : (fuel n : ℕ) (out : Text) → question_marks (digits fuel n out) ≡ question_marks out
unfolding digits
digits-marks zero n out = refl
digits-marks (suc fuel) n out = elim (Bool-cases (ltb n 10)) [
  | inl one ↦ rw one (other_byte (48 + n) out (ground arith))
  | inr more ↦ rw more (
      digits-marks fuel (n / 10) ((48 + n % 10) ∷ out)
      ∙ other_byte (48 + n % 10) out (ground arith))
]

pub alias_of-marks : (i : ℕ) → question_marks (alias_of i) ≡ 0
alias_of-marks i =
    after_plain (codes "ord") (digits max_digits i []) (unfold question_marks in refl)
    ∙ digits-marks max_digits i []
    ∙ (unfold question_marks in refl)

pub as_marks : (i : ℕ) → question_marks (codes " AS " ++ alias_of i) ≡ 0
as_marks i =
    after_plain (codes " AS ") (alias_of i) (unfold question_marks in refl) ∙ alias_of-marks i

-- The direction in an ORDER BY.
word_marks :
    (desc : Bool) → question_marks (codes " " ++ (if desc then codes "DESC" else codes "ASC")) ≡ 0
unfolding question_marks
word_marks true = refl
word_marks false = refl

-- The columns of an order are known ones.
from_option-OnSome :
    {A : Type 0} (P : A → Type 0) (o : Option A) (a : A) → OnSome P o → from_option o ≡ ok a → P a
from_option-OnSome P none a h k = cc
from_option-OnSome P (some b) a h k = rw (sym (ok_inj k)) h

metric_mark : question_marks metric_order_proj ≡ 1
metric_mark = unfold question_marks in refl

param_mark : question_marks param_order_proj ≡ 1
param_mark = unfold question_marks in refl

tag_mark : question_marks tag_order_proj ≡ 1
tag_mark = unfold question_marks in refl

order_column-IsKnown :
    (raw : Text) (desc : Bool) (c : RunOrderCol) → order_column raw desc ≡ ok c → IsKnown c
unfolding order_column
order_column-IsKnown raw desc c h = elim (Bool-cases (has_prefix raw (codes "metrics."))) [
  | inl metric ↦
      computed_order-IsKnown metric_order_proj _ desc false c metric_mark (rw metric at h)
  | inr not_metric ↦
      let h₁ = rw not_metric at h in
      elim (Bool-cases (has_prefix raw (codes "params."))) [
        | inl param ↦
            computed_order-IsKnown param_order_proj _ desc true c param_mark (rw param at h₁)
        | inr not_param ↦
            let h₂ = rw not_param at h₁ in
            elim (Bool-cases (has_prefix raw (codes "tags."))) [
              | inl tag ↦
                  computed_order-IsKnown tag_order_proj _ desc true c tag_mark (rw tag at h₂)
              | inr not_tag ↦
                  let (key, found, h₃) =
                    >>=-eq-ok (from_option (col_map raw)) _ (rw not_tag at h₂) in
                  rw (sym (ok_inj h₃))
                    (from_option-OnSome IsUnmarked (col_map raw) key (col_map-IsUnmarked raw) found)
            ]
      ]
]

order_columns-IsKnown :
    (words : List Text) (cols : List RunOrderCol) → order_columns words ≡ ok cols → All IsKnown cols
unfolding order_columns
order_columns-IsKnown [] cols h = rw (sym (ok_inj h)) tt
order_columns-IsKnown (raw ∷ words) cols h =
    let (desc, _, h₁) = >>=-eq-ok (order_direction words) _ h in
    let (c, read, h₂) = >>=-eq-ok (order_column raw desc) _ h₁ in
    rw (sym (ok_inj h₂)) (order_column-IsKnown raw desc c read, tt)

parse_orders-IsKnown :
    (orders : List Text) (cols : List RunOrderCol)
    → parse_orders orders ≡ ok cols
    → All IsKnown cols
unfolding parse_orders
parse_orders-IsKnown [] cols h = rw (sym (ok_inj h)) tt
parse_orders-IsKnown (order ∷ orders) cols h =
    let (first, read, h₁) = >>=-eq-ok (order_columns (fields order)) _ h in
    let (more, rest, h₂) = >>=-eq-ok (parse_orders orders) _ h₁ in
    rw (sym (ok_inj h₂)) (
      All-append IsKnown first more (order_columns-IsKnown (fields order) first read)
        (parse_orders-IsKnown orders more rest))

default_order-IsKnown :
    (cols : List RunOrderCol) → All IsKnown cols → All IsKnown (default_order cols)
default_order-IsKnown [] _ = (unfold run_col_expr question_marks text_eq in refl, tt)
default_order-IsKnown (c ∷ cols) h = h

pub parse_run_order-IsKnown :
    (orders : List Text) (cols : List RunOrderCol)
    → parse_run_order orders ≡ ok cols
    → All IsKnown cols
unfolding parse_run_order
parse_run_order-IsKnown orders cols h =
    let (read, parsed, h₁) = >>=-eq-ok (parse_orders orders) _ h in
    rw (sym (ok_inj h₁)) (
      All-append IsKnown (default_order read) _
        (default_order-IsKnown read (parse_orders-IsKnown orders read parsed))
        (unfold run_col_expr question_marks text_eq in refl, tt))

pub flat_cols-HasNoMark :
    (cols : List RunOrderCol)
    → has_computed cols ≡ false
    → All IsKnown cols
    → All HasNoMark (flat_cols cols)
unfolding flat_cols has_computed
flat_cols-HasNoMark [] h _ = tt
flat_cols-HasNoMark (c ∷ cols) h (k, l) = elim (Bool-cases c.computed) [
  | inl yes' ↦ cc (rw yes' at h)
  | inr plain ↦ (rw plain at k, flat_cols-HasNoMark cols (rw plain at h) l)
]

null_mark : question_marks (codes " IS NULL)") ≡ 0
null_mark = unfold question_marks in refl

sentinel_marks :
    (is_text : Bool)
    → question_marks (codes ", " ++ ((if is_text then codes "''" else codes "0") ++ codes ")")) ≡ 0
unfolding question_marks
sentinel_marks true = refl
sentinel_marks false = refl

missing_last-HasNoMark : (i : ℕ) (c : RunOrderCol) → All HasNoMark (missing_last i c)
missing_last-HasNoMark i c = (
  after_plain (codes "(") (alias_of i ++ codes " IS NULL)") (unfold question_marks in refl)
      ∙ question_marks-append (alias_of i) (codes " IS NULL)")
      ∙ omega (arith, alias_of-marks i, null_mark),
  (
    after_plain (codes "COALESCE(") (alias_of i ++ _) (unfold question_marks in refl)
        ∙ question_marks-append (alias_of i) _
        ∙ omega (arith, alias_of-marks i, sentinel_marks c.text_sentinel),
    tt,
  ),
)

pub outer_cols-HasNoMark : (i : ℕ) (cols : List RunOrderCol) → All HasNoMark (outer_cols i cols)
unfolding outer_cols
outer_cols-HasNoMark i [] = tt
outer_cols-HasNoMark i (c ∷ []) = (unfold question_marks in refl, tt)
outer_cols-HasNoMark i (c ∷ next ∷ cols) =
    All-append HasNoMark _ _ (key_cols c.computed) (outer_cols-HasNoMark (suc i) (next ∷ cols))
  where
    key_cols :
        (computed : Bool)
        → All HasNoMark (
            if computed then missing_last i c else record { expr = alias_of i; desc = c.desc } ∷ [])
    key_cols true = missing_last-HasNoMark i c
    key_cols false = (alias_of-marks i, tt)

order_parts-marks : (cols : List KeysetCol) → All HasNoMark cols → all_marks (order_parts cols) ≡ 0
unfolding order_parts all_marks
order_parts-marks [] _ = refl
order_parts-marks (c ∷ cols) (h, k) = omega (
  arith,
  order_parts-marks cols k,
  question_marks-append c.expr (codes " " ++ (if c.desc then codes "DESC" else codes "ASC")),
  word_marks c.desc,
)

pub base_mark : question_marks base_select ≡ 0
base_mark = unfold question_marks in refl

limit_mark : question_marks (codes " LIMIT ?") ≡ 1
limit_mark = unfold question_marks in refl

pub ending-marks : (cols : List KeysetCol) → All HasNoMark cols → question_marks (ending cols) ≡ 1
unfolding keyset_order_clause
ending-marks cols h =
    after_plain (codes " ORDER BY ") (keyset_order_clause cols ++ codes " LIMIT ?")
      (unfold question_marks in refl)
    ∙ question_marks-append (join_text (codes ", ") (order_parts cols)) (codes " LIMIT ?")
    ∙ omega (
      arith,
      question_marks-join_text (codes ", ") (order_parts cols) (unfold question_marks in refl),
      order_parts-marks cols h,
      limit_mark,
    )
