-- ===== src/Store/Replay/Methods.antt =====
-- Every method that changes a run or its tags extends the log undoably.
use litemlflow.Prelude.{
  ℕ, String, List, Option, none, some, ◌≡◌, ◌≢◌, ◌⊎◌, refl, ap, ◌<◌, length, arith, str_eq, ok,
  >>-eq-ok, >>=-eq-ok, ok_inj, Bool-cases, Option-cases, inl, inr,
}
use litemlflow.Model.{Kv}
use litemlflow.Model.Names.{valid_key}
use litemlflow.Store.Db.{
  Db, read_tag_value, capture_run_before, run_update, run_lifecycle, run_parent, assert_run_exists,
}
use litemlflow.Store.Runs.{
  put_tag, tag_event, put_tags, update_run, set_run_lifecycle, set_tag, set_tags, delete_tag,
  set_run_fields, update_run_row, event_if_before, sync_parent_tag, sync_parent_run_id,
  update_parent, parent_tag, last_parent,
}
use litemlflow.Store.Replay.{through_float, undo_fields}
use litemlflow.Store.Replay.Undo.{
  IsExact, Extends, Extends-refl, Extends-trans, through_float_exact,
}
use litemlflow.Store.Replay.Rows.{update_run_row-Extends}
use litemlflow.Store.Replay.Tags.{put_tag-Extends, delete_tag-Extends, valid_key-ne-empty}
use litemlflow.Store.Replay.Batch.{put_tags-Extends}

exact_end :
    (e : Option ℕ)
    → IsExact e
    → elim e as (λ _. Option ℕ) [ some ms ↦ some (through_float ms) | none ↦ none ] ≡ e
exact_end none h = refl
exact_end (some ms) h = ap some (through_float_exact ms h)

module _ (t : ℕ) (clock : ℕ → ℕ) (late : (n : ℕ) → t < clock n) where
  update_run-cases :
      (id : String) (status : Option String) (end_time : Option ℕ) (name : Option String)
      (db db' : Db)
      → update_run clock id status end_time name db ≡ ok db'
      → (db ≡ db')
        ⊎ (event_if_before
              (clock 0)
              run_update
              id
              (capture_run_before id db)
              (update_run_row id (set_run_fields status end_time name) db)
            ≡ db')
  unfolding update_run
  update_run-cases id status end_time name db db' h = ground arith

  pub update_run-Extends :
      (id : String) (status : Option String) (end_time : Option ℕ) (name : Option String)
      (db db' : Db)
      → update_run clock id status end_time name db ≡ ok db'
      → Extends t db db'
  update_run-Extends id status end_time name db db' h =
      elim (update_run-cases id status end_time name db db' h) [
        | inl same ↦ rw (← same) (Extends-refl t db)
        | inr changed ↦ rw (← changed) (
            update_run_row-Extends run_update tt (set_run_fields status end_time name)
              (unfold set_run_fields in λ r. refl)
              (unfold set_run_fields undo_fields in
                λ r e. λ i. record r { end_time = exact_end r.end_time e i })
              t (clock 0) id db (late 0))
      ]

  set_run_lifecycle-cases :
      (id stage : String) (db db' : Db)
      → set_run_lifecycle clock id stage db ≡ ok db'
      → event_if_before
          (clock 0)
          run_lifecycle
          id
          (capture_run_before id db)
          (update_run_row id (λ r. record r { lifecycle_stage = stage }) db)
        ≡ db'
  unfolding set_run_lifecycle
  set_run_lifecycle-cases id stage db db' h = ground arith

  pub set_run_lifecycle-Extends :
      (id stage : String) (db db' : Db)
      → set_run_lifecycle clock id stage db ≡ ok db'
      → Extends t db db'
  set_run_lifecycle-Extends id stage db db' h = rw (← set_run_lifecycle-cases id stage db db' h) (
      update_run_row-Extends run_lifecycle tt (λ r. record r { lifecycle_stage = stage })
        (λ r. refl) (unfold undo_fields in λ r _. refl) t (clock 0) id db (late 0))

  -- The parent column with its event.
  abbrev parent_step : ℕ → String → String → Db → Db
  parent_step n id parent db =
      event_if_before (clock n) run_parent id (capture_run_before id db)
        (update_run_row id (λ r. record r { parent_run_id = parent }) db)

  parent_step-Extends :
      (n : ℕ) (id parent : String) (db : Db) → Extends t db (parent_step n id parent db)
  parent_step-Extends n id parent db =
      update_run_row-Extends run_parent tt (λ r. record r { parent_run_id = parent }) (λ r. refl)
        (unfold undo_fields in λ r _. refl) t (clock n) id db (late n)

  sync_parent_tag-cases :
      (n : ℕ) (id value : String) (db db' : Db)
      → sync_parent_tag (clock n) id value db ≡ ok db'
      → (db ≡ db') ⊎ (parent_step n id value db ≡ db')
  unfolding sync_parent_tag sync_parent_run_id update_parent
  sync_parent_tag-cases n id value db db' h = ground arith

  sync_parent_tag-Extends :
      (n : ℕ) (id value : String) (db db' : Db)
      → sync_parent_tag (clock n) id value db ≡ ok db'
      → Extends t db db'
  sync_parent_tag-Extends n id value db db' h = elim (sync_parent_tag-cases n id value db db' h) [
    | inl same ↦ rw (← same) (Extends-refl t db)
    | inr changed ↦ rw (← changed) (parent_step-Extends n id value db)
  ]

  -- `SetTag` after its checks.
  abbrev tag_step : String → Kv → Db → Db
  tag_step id x db =
      tag_event (clock 0) id x.key x.value (read_tag_value id x.key db)
        (put_tag id x.key x.value db)

  pub set_tag-Extends :
      (id : String) (x : Kv) (db db' : Db) → set_tag clock id x db ≡ ok db' → Extends t db db'
  unfolding set_tag
  set_tag-Extends id x db db' h =
      let (valid, more) = >>-eq-ok (valid_key x.key) _ h in
      let (_, rest) = >>-eq-ok (assert_run_exists id db) _ more in
      let first : Extends t db (tag_step id x db) =
        put_tag-Extends t (clock 0) id x.key x.value db (late 0) (valid_key-ne-empty x.key valid) in
      elim (Bool-cases (str_eq x.key parent_tag)) [
        | inl parent ↦
            Extends-trans first
              (sync_parent_tag-Extends 1 id x.value (tag_step id x db) db' (rw parent at rest))
        | inr other ↦ let e : tag_step id x db ≡ db' = ok_inj (rw other at rest) in rw (← e) first
      ]

  pub set_tags-Extends :
      (id : String) (ts : List Kv) (db db' : Db)
      → set_tags clock id ts db ≡ ok db'
      → Extends t db db'
  unfolding set_tags
  set_tags-Extends id ts db db' h =
      let (_, more) = >>-eq-ok (assert_run_exists id db) _ h in
      let (db₁, upserted, rest) = >>=-eq-ok (put_tags id ts db) _ more in
      Extends-trans (put_tags-Extends t clock id ts db db₁ late upserted)
        (sync_parent_tag-Extends (length ts) id (last_parent "" ts) _ db' rest)

  pub delete_tag-method-Extends :
      (id key : String) (db db' : Db)
      → key ≢ ""
      → delete_tag clock id key db ≡ ok db'
      → Extends t db db'
  unfolding delete_tag
  delete_tag-method-Extends id key db db' nonempty h =
      elim (Option-cases (read_tag_value id key db)) [
        | inl gone ↦ absurd (ground arith)
        | inr (old, held) ↦
            let e : _ ≡ db' = ok_inj (rw (held, delete_tag) at h) in
            rw (← e) (delete_tag-Extends t (clock 0) id key old db (late 0) nonempty held)
      ]
