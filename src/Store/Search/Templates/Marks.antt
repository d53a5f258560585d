-- ===== src/Store/Search/Templates/Marks.antt =====
-- Whatever a filter says, its WHERE clause is put together from templates, and has a mark for each of
-- its values.
use mathlib.Core.Path.{subst}
use litemlflow.Prelude.{
  ℕ, zero, suc, ◌+◌, ◌≡◌, refl, sym, ap, ap₂, ◌∙◌, List, [], ◌∷◌, ◌++◌, map, ◌==◌, if◌then◌else◌,
  ok, >>=-eq-ok, ok_inj, Text, codes, text_eq, length, length-append, arith, All, Bool-cases, inl,
  inr, Option,
}
use litemlflow.Model.Names.{trim_space}
use litemlflow.Store.Search.Texts.{join_text}
use litemlflow.Store.Search.Filter.{
  Clause, marks, latest_metric, child_of, parse_run_predicate, parse_clauses, all_args, sql_texts,
  conjunction, parse_run_filter, split_on_and,
}
use litemlflow.Store.Search.Templates.{
  Column, status, start_time, end_time, run_name, run_id, Operator, at_least, at_most, differs,
  equals, above, below, like, Child, params, tags, Shape, comparison, child_comparison,
  metric_comparison, membership, child_membership, metric_range, time_range, column_text,
  child_text, compares, lists, render, slots, Fits, render_all, all_slots,
}
use litemlflow.Store.Search.Templates.Clauses.{Safe, parse_run_predicate-Safe}

unfoldable pub count_byte : ℕ → Text → ℕ
count_byte b [] = 0
count_byte b (c ∷ s) = (if c == b then 1 else 0) + count_byte b s

-- How often a text has the mark of a value, `?`.
unfoldable pub question_marks : Text → ℕ
unfolding count_byte
question_marks = count_byte b'?'

count_byte-append : (b : ℕ) (s t : Text) → count_byte b (s ++ t) ≡ count_byte b s + count_byte b t
unfolding count_byte
count_byte-append b [] t = omega arith
count_byte-append b (c ∷ s) t = omega (arith, count_byte-append b s t)

pub question_marks-append :
    (s t : Text) → question_marks (s ++ t) ≡ question_marks s + question_marks t
unfolding question_marks
question_marks-append = count_byte-append b'?'

pub question_marks-marks : (n : ℕ) → question_marks (marks n) ≡ n
unfolding marks question_marks
question_marks-marks zero = refl
question_marks-marks (suc zero) = refl
question_marks-marks (suc (suc n)) = omega (arith, question_marks-marks (suc n))

question_marks-column_text : (col : Column) → question_marks (column_text col) ≡ 0
unfolding question_marks
question_marks-column_text status = refl
question_marks-column_text start_time = refl
question_marks-column_text end_time = refl
question_marks-column_text run_name = refl
question_marks-column_text run_id = refl

question_marks-compares : (op : Operator) → question_marks (compares op) ≡ 1
unfolding question_marks
question_marks-compares at_least = refl
question_marks-compares at_most = refl
question_marks-compares differs = refl
question_marks-compares equals = refl
question_marks-compares above = refl
question_marks-compares below = refl
question_marks-compares like = refl

-- What a fixed text adds in front of another.
pub before_rest :
    (s t : Text) (n : ℕ) → question_marks s ≡ n → question_marks (s ++ t) ≡ n + question_marks t
before_rest s t n h = omega (arith, question_marks-append s t)

pub after_plain : (s t : Text) → question_marks s ≡ 0 → question_marks (s ++ t) ≡ question_marks t
after_plain s t h = omega (arith, question_marks-append s t)

question_marks-lists : (n : ℕ) → question_marks (lists n) ≡ n
unfolding question_marks
question_marks-lists n =
    before_rest (codes "IN (") (marks n ++ codes ")") 0 refl
    ∙ omega (arith, question_marks-append (marks n) (codes ")"), question_marks-marks n)

question_marks-child_of :
    (table : Child) (test : Text)
    → question_marks (child_of (child_text table) test) ≡ 1 + question_marks test
unfolding question_marks
question_marks-child_of params test = omega (arith, question_marks-append test (codes ")"))
question_marks-child_of tags test = omega (arith, question_marks-append test (codes ")"))

question_marks-latest_metric :
    (test : Text) → question_marks (latest_metric test) ≡ 1 + question_marks test
unfolding question_marks
question_marks-latest_metric test = omega (arith, question_marks-append test (codes ")"))

on_column-marks :
    (col : Column) (t : Text) (n : ℕ)
    → question_marks t ≡ n
    → question_marks (column_text col ++ (codes " " ++ t)) ≡ n
on_column-marks col t n h = omega (
  arith,
  question_marks-append (column_text col) (codes " " ++ t),
  question_marks-column_text col,
  before_rest (codes " ") t 0 (unfold question_marks in refl),
)

question_marks-render : (shape : Shape) → question_marks (render shape) ≡ slots shape
question_marks-render (comparison col op) =
    on_column-marks col (compares op) 1 (question_marks-compares op)
question_marks-render (child_comparison table op) =
    omega (arith, question_marks-child_of table (compares op), question_marks-compares op)
question_marks-render (metric_comparison op) =
    omega (arith, question_marks-latest_metric (compares op), question_marks-compares op)
question_marks-render (membership col n) = on_column-marks col (lists n) n (question_marks-lists n)
question_marks-render (child_membership table n) =
    omega (arith, question_marks-child_of table (lists n), question_marks-lists n)
question_marks-render metric_range = unfold question_marks in refl
question_marks-render (time_range col) =
    on_column-marks col (codes "BETWEEN ? AND ?") 2 (unfold question_marks in refl)

-- The marks of several texts.
unfoldable pub all_marks : List Text → ℕ
all_marks [] = 0
all_marks (t ∷ ts) = question_marks t + all_marks ts

pub question_marks-join_text :
    (sep : Text) (ts : List Text)
    → question_marks sep ≡ 0
    → question_marks (join_text sep ts) ≡ all_marks ts
unfolding join_text all_marks
question_marks-join_text sep [] h = unfold question_marks in refl
question_marks-join_text sep (t ∷ []) h = omega arith
question_marks-join_text sep (t ∷ u ∷ ts) h = omega (
  arith,
  question_marks-append t (sep ++ join_text sep (u ∷ ts)),
  question_marks-append sep (join_text sep (u ∷ ts)),
  question_marks-join_text sep (u ∷ ts) h,
)

all_marks-render : (shapes : List Shape) → all_marks (map render shapes) ≡ all_slots shapes
unfolding all_marks
all_marks-render [] = refl
all_marks-render (shape ∷ shapes) =
    omega (arith, question_marks-render shape, all_marks-render shapes)

pub question_marks-render_all :
    (shapes : List Shape) → question_marks (render_all shapes) ≡ all_slots shapes
question_marks-render_all [] = unfold question_marks in refl
question_marks-render_all (shape ∷ shapes) =
    question_marks-join_text (codes " AND ") (map render (shape ∷ shapes))
      (unfold question_marks in refl)
    ∙ all_marks-render (shape ∷ shapes)

-- A clause that templates make, with a value for each of its marks.
abbrev pub IsAssembled : {V : Type 0} → Clause V → Type 0
IsAssembled c =
    ((shapes : List Shape) × (c.sql ≡ render_all shapes) × (length c.args ≡ all_slots shapes))
    × (question_marks c.sql ≡ length c.args)

module _ {V : Type 0} (parse_float : Text → Option V) where
  parse_clauses-Fits :
      (parts : List Text) (cs : List (Clause V))
      → parse_clauses parse_float parts ≡ ok cs
      → All Fits cs
  unfolding parse_clauses
  parse_clauses-Fits [] [] h = tt
  parse_clauses-Fits [] (c ∷ cs) h = cc
  parse_clauses-Fits (part ∷ parts) cs h = elim (Bool-cases (text_eq (trim_space part) [])) [
    | inl empty ↦ parse_clauses-Fits parts cs (rw empty at h)
    | inr there ↦
        let (first, parsed, h') =
          >>=-eq-ok (parse_run_predicate parse_float (trim_space part)) _ (rw there at h) in
        let (more, rest, h'') = >>=-eq-ok (parse_clauses parse_float parts) _ h' in
        rw (sym (ok_inj h'')) (
          subst Safe parsed (parse_run_predicate-Safe parse_float (trim_space part)),
          parse_clauses-Fits parts more rest,
        )
  ]

shapes_of :
    {V : Type 0} (cs : List (Clause V))
    → All Fits cs
    → (shapes : List Shape) × (sql_texts cs ≡ map render shapes)
      × (length (all_args cs) ≡ all_slots shapes)
unfolding all_args
shapes_of [] _ = ([], refl, refl)
shapes_of (c ∷ cs) ((shape, text_is, count_is), fit) =
    let (shapes, texts_are, counts_are) = shapes_of cs fit in
    (
      shape ∷ shapes,
      ap₂ (λ t ts. t ∷ ts) text_is texts_are,
      omega (arith, length-append c.args (all_args cs)),
    )

conjunction-IsAssembled :
    {V : Type 0} (cs : List (Clause V)) → All Fits cs → IsAssembled (conjunction cs)
unfolding conjunction
conjunction-IsAssembled [] _ = (([], refl, refl), unfold question_marks in refl)
conjunction-IsAssembled (c ∷ cs) fit = assembled (shapes_of (c ∷ cs) fit)
  where
    assembled :
        ((shapes : List Shape) × (sql_texts (c ∷ cs) ≡ map render shapes)
          × (length (all_args (c ∷ cs)) ≡ all_slots shapes))
        → IsAssembled (conjunction (c ∷ cs))
    assembled ([], texts_are, counts_are) = cc
    assembled (shape ∷ shapes, texts_are, counts_are) =
        let text_is = ap (join_text (codes " AND ")) texts_are in
        (
          (shape ∷ shapes, text_is, counts_are),
          rw text_is (question_marks-render_all (shape ∷ shapes) ∙ sym counts_are),
        )

module _ {V : Type 0} (parse_float : Text → Option V) where
  -- Every filter of runs that is accepted becomes a WHERE clause that is joined from a few fixed templates over five columns, seven operators and two tables, so that no text of the filter stands in it, and it has as many arguments as marks.
  pub parse_run_filter-IsAssembled :
      (f : Text) (c : Clause V) → parse_run_filter parse_float f ≡ ok c → IsAssembled c
  unfolding parse_run_filter
  parse_run_filter-IsAssembled f c h =
      let (cs, parsed, h') = >>=-eq-ok (parse_clauses parse_float (split_on_and f)) _ h in
      rw (sym (ok_inj h'))
        (conjunction-IsAssembled cs (parse_clauses-Fits parse_float (split_on_and f) cs parsed))
