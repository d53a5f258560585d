-- ===== src/Store/Search/Query/Balance.antt =====
-- The query of a search has an argument for each of its marks.
use litemlflow.Prelude.{
  ℕ, suc, ◌+◌, ◌≡◌, refl, sym, ap, ◌∙◌, Bool, true, false, List, [], ◌∷◌, ◌++◌, Option,
  if◌then◌else◌, ok, >>=-eq-ok, ok_inj, Text, codes, text_eq, length, length-append, arith, All,
  All-append, Bool-cases, inl, inr, ℤ, ltb,
}
use litemlflow.Model.Names.{trim_space}
use litemlflow.Store.Search.Texts.{join_text}
use litemlflow.Store.Search.Filter.{
  Arg, text, integer, Clause, clause, marks, parse_run_filter, sql_texts, all_args,
}
use litemlflow.Store.Search.Templates.Clauses.{length-map}
use litemlflow.Store.Search.Templates.Marks.{
  question_marks, question_marks-append, question_marks-marks, after_plain, all_marks,
  question_marks-join_text, parse_run_filter-IsAssembled,
}
use litemlflow.Store.Search.Order.{
  RunOrderCol, run_col_expr, parse_run_order, KeysetCol, decode_cursor,
}
use litemlflow.Store.Search.Order.Keyset.{HasNoMark, keyset_predicate-marks}
use litemlflow.Store.Search.Query.{
  SearchOptions, base_select, stage_of, has_computed, flat_cols, ending, alias_of, outer_cols, when,
  in_experiments, scope_conditions, filter_conditions, where_sql, page_conditions, flat_query,
  projections, computed_query, query_of, search_runs_query,
}
use litemlflow.Store.Search.Query.Columns.{
  IsKnown, closing_mark, as_marks, parse_run_order-IsKnown, flat_cols-HasNoMark,
  outer_cols-HasNoMark, base_mark, ending-marks,
}

-- A mark for each argument.
abbrev pub IsBalanced : {V : Type 0} → Clause V → Type 0
IsBalanced c = question_marks c.sql ≡ length c.args

module _ {V : Type 0} where
  all_marks-sql_texts :
      (cs : List (Clause V)) → All IsBalanced cs → all_marks (sql_texts cs) ≡ length (all_args cs)
  unfolding all_marks all_args
  all_marks-sql_texts [] _ = refl
  all_marks-sql_texts (c ∷ cs) (h, k) =
      omega (arith, all_marks-sql_texts cs k, length-append c.args (all_args cs))

  where_sql-marks :
      (cs : List (Clause V))
      → All IsBalanced cs
      → question_marks (where_sql cs) ≡ length (all_args cs)
  unfolding where_sql
  where_sql-marks [] _ = unfold question_marks all_args in refl
  where_sql-marks (c ∷ cs) h =
      after_plain (codes " WHERE ") (join_text (codes " AND ") (sql_texts (c ∷ cs)))
        (unfold question_marks in refl)
      ∙ question_marks-join_text (codes " AND ") (sql_texts (c ∷ cs))
          (unfold question_marks in refl)
      ∙ all_marks-sql_texts (c ∷ cs) h

  when-IsBalanced : (t : Bool) (c : Clause V) → IsBalanced c → All IsBalanced (when t c)
  when-IsBalanced true c h = (h, tt)
  when-IsBalanced false c h = tt

module _ (V : Type 0) where
  in_experiments-IsBalanced : (ids : List ℤ) → IsBalanced {V = V} (in_experiments ids)
  unfolding in_experiments
  in_experiments-IsBalanced ids =
      after_plain (codes "experiment_id IN (") (marks (length ids) ++ codes ")")
        (unfold question_marks in refl)
      ∙ question_marks-append (marks (length ids)) (codes ")")
      ∙ omega (
        arith,
        question_marks-marks (length ids),
        length-map {B = Arg V} integer ids,
        closing_mark,
      )

  workspace_mark :
      question_marks (codes "experiment_id IN (SELECT id FROM experiments WHERE workspace_id = ?)")
      ≡ 1
  workspace_mark = unfold question_marks in refl

  stage_mark : question_marks (codes "lifecycle_stage = ?") ≡ 1
  stage_mark = unfold question_marks in refl

  scope_conditions-IsBalanced :
      (opt : SearchOptions) → All (IsBalanced {V = V}) (scope_conditions opt)
  unfolding scope_conditions
  scope_conditions-IsBalanced opt =
      All-append IsBalanced _ _
        (when-IsBalanced (ltb 0 (length opt.experiment_ids)) (in_experiments opt.experiment_ids)
          (in_experiments-IsBalanced opt.experiment_ids))
        (All-append IsBalanced _ _
          (when-IsBalanced (if text_eq opt.workspace_id [] then false else true)
            (clause _ (text opt.workspace_id ∷ [])) workspace_mark)
          (when-IsBalanced (if text_eq (stage_of opt) (codes "all") then false else true)
            (clause _ (text (stage_of opt) ∷ [])) stage_mark))

module _ (V : Type 0) where
  projections-IsBalanced :
      (i : ℕ) (cols : List RunOrderCol)
      → All IsKnown cols
      → All (IsBalanced {V = V}) (projections i cols)
  unfolding projections
  projections-IsBalanced i [] _ = tt
  projections-IsBalanced i (c ∷ []) _ = tt
  projections-IsBalanced i (c ∷ next ∷ cols) (k, l) = elim (Bool-cases c.computed) [
    | inl look_up ↦ rw look_up (
      question_marks-append c.proj (codes " AS " ++ alias_of i)
          ∙ omega (arith, as_marks i, rw look_up at k),
      projections-IsBalanced (suc i) (next ∷ cols) l,
    )
    | inr plain ↦ rw plain (
      question_marks-append (run_col_expr c.key) (codes " AS " ++ alias_of i)
          ∙ omega (arith, as_marks i, rw plain at k),
      projections-IsBalanced (suc i) (next ∷ cols) l,
    )
  ]

module _ {V : Type 0} where
  page_conditions-IsBalanced :
      (decode : Text → Option (List (Arg V))) (token : Text) (cols : List KeysetCol)
      (page : List (Clause V))
      → All HasNoMark cols
      → page_conditions decode token cols ≡ ok page
      → All IsBalanced page
  unfolding page_conditions
  page_conditions-IsBalanced decode token cols page h k = elim (Bool-cases (text_eq token [])) [
    | inl first ↦ rw (sym (ok_inj (rw first at k))) tt
    | inr later ↦
        let (cur, _, k') =
          >>=-eq-ok (decode_cursor (decode token) (length cols)) _ (rw later at k) in
        rw (sym (ok_inj k')) (keyset_predicate-marks cols cur h, tt)
  ]

  filter_conditions-IsBalanced :
      (parse_float : Text → Option V) (filter : Text) (cs : List (Clause V))
      → filter_conditions parse_float filter ≡ ok cs
      → All IsBalanced cs
  unfolding filter_conditions
  filter_conditions-IsBalanced parse_float filter cs h =
      elim (Bool-cases (text_eq (trim_space filter) [])) [
        | inl none' ↦ rw (sym (ok_inj (rw none' at h))) tt
        | inr some' ↦
            let (c, parsed, h') =
              >>=-eq-ok (parse_run_filter parse_float (trim_space filter)) _ (rw some' at h) in
            rw (sym (ok_inj h'))
              ((parse_run_filter-IsAssembled parse_float (trim_space filter) c parsed).1, tt)
      ]

  flat_query-IsBalanced :
      (conditions page : List (Clause V)) (cols : List KeysetCol) (limit : Arg V)
      → All IsBalanced conditions
      → All IsBalanced page
      → All HasNoMark cols
      → IsBalanced (flat_query conditions page cols limit)
  unfolding flat_query
  flat_query-IsBalanced conditions page cols limit h k l =
      after_plain (codes "SELECT ") _ (unfold question_marks in refl)
      ∙ after_plain base_select _ base_mark
      ∙ after_plain (codes " FROM runs") _ (unfold question_marks in refl)
      ∙ question_marks-append (where_sql (conditions ++ page)) (ending cols)
      ∙ omega (
        arith,
        where_sql-marks (conditions ++ page) (All-append IsBalanced conditions page h k),
        ending-marks cols l,
        length-append (all_args (conditions ++ page)) (limit ∷ []),
      )

  computed_query-IsBalanced :
      (projected conditions page : List (Clause V)) (cols : List KeysetCol) (limit : Arg V)
      → All IsBalanced projected
      → All IsBalanced conditions
      → All IsBalanced page
      → All HasNoMark cols
      → IsBalanced (computed_query projected conditions page cols limit)
  unfolding computed_query
  computed_query-IsBalanced projected conditions page cols limit g h k l =
      after_plain (codes "SELECT * FROM (SELECT ") _ (unfold question_marks in refl)
      ∙ after_plain base_select _ base_mark
      ∙ after_plain (codes ", ") _ (unfold question_marks in refl)
      ∙ question_marks-append (join_text (codes ", ") (sql_texts projected)) _
      ∙ ap (λ (n : ℕ). question_marks (join_text (codes ", ") (sql_texts projected)) + n)
          (after_plain (codes " FROM runs") _ (unfold question_marks in refl)
            ∙ question_marks-append (where_sql conditions) _
            ∙ ap (λ (n : ℕ). question_marks (where_sql conditions) + n)
                (after_plain (codes ")") (where_sql page ++ ending cols) closing_mark
                  ∙ question_marks-append (where_sql page) (ending cols)))
      ∙ omega (
        arith,
        question_marks-join_text (codes ", ") (sql_texts projected) (unfold question_marks in refl),
        all_marks-sql_texts projected g,
        where_sql-marks conditions h,
        where_sql-marks page k,
        ending-marks cols l,
        length-append (all_args projected) (all_args conditions ++ (all_args page ++ (limit ∷ []))),
        length-append (all_args conditions) (all_args page ++ (limit ∷ [])),
        length-append (all_args page) (limit ∷ []),
      )

  query_of-IsBalanced :
      (decode : Text → Option (List (Arg V))) (opt : SearchOptions) (conditions : List (Clause V))
      (order : List RunOrderCol) (c : Clause V)
      → All IsBalanced conditions
      → All IsKnown order
      → query_of decode opt conditions order ≡ ok c
      → IsBalanced c
  unfolding query_of
  query_of-IsBalanced decode opt conditions order c h k e = elim (Bool-cases (has_computed order)) [
    | inl computed ↦
        let cols = outer_cols-HasNoMark 0 order in
        let (page, read, e') =
          >>=-eq-ok (page_conditions decode opt.page_token (outer_cols 0 order)) _
            (rw computed at e) in
        rw (sym (ok_inj e')) (
          computed_query-IsBalanced (projections 0 order) conditions page (outer_cols 0 order) _
            (projections-IsBalanced V 0 order k) h
            (page_conditions-IsBalanced decode opt.page_token (outer_cols 0 order) page cols read)
            cols)
    | inr flat ↦
        let cols = flat_cols-HasNoMark order flat k in
        let (page, read, e') =
          >>=-eq-ok (page_conditions decode opt.page_token (flat_cols order)) _ (rw flat at e) in
        rw (sym (ok_inj e')) (
          flat_query-IsBalanced conditions page (flat_cols order) _ h
            (page_conditions-IsBalanced decode opt.page_token (flat_cols order) page cols read)
            cols)
  ]

  -- Whatever options SearchRuns is asked with (filter, order, page token, experiments, workspace, stage), the query it sends has as many arguments as marks.
  pub search_runs_query-IsBalanced :
      (parse_float : Text → Option V) (decode : Text → Option (List (Arg V))) (opt : SearchOptions)
      (c : Clause V)
      → search_runs_query parse_float decode opt ≡ ok c
      → IsBalanced c
  unfolding search_runs_query
  search_runs_query-IsBalanced parse_float decode opt c e =
      let (filters, read, e₁) = >>=-eq-ok (filter_conditions parse_float opt.filter) _ e in
      let (order, ordered, e₂) = >>=-eq-ok (parse_run_order opt.order_by) _ e₁ in
      query_of-IsBalanced decode opt (scope_conditions opt ++ filters) order c
        (All-append IsBalanced (scope_conditions opt) filters (scope_conditions-IsBalanced V opt)
          (filter_conditions-IsBalanced parse_float opt.filter filters read))
        (parse_run_order-IsKnown opt.order_by order ordered) e₂
