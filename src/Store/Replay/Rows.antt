-- ===== src/Store/Replay/Rows.antt =====
-- The statements that the run methods are made of extend the log undoably: a change of a run's own
-- columns with its event, and the upsert or the removal of a tag with its event.
use mathlib.Core.Option
use mathlib.Core.List.{append-nil}
use litemlflow.Prelude.{
  ℕ, String, false, [], ◌∷◌, none, some, ◌≡◌, refl, sym, ap, ◌∙◌, ◌<◌, if◌then◌else◌, arith, str_eq,
  eq_iff, select_rows, find_row-update_rows, find_row_holds, Bool-cases, Option-cases, inl, inr,
}
use litemlflow.Model.{Run}
use litemlflow.Store.Db.{
  Db, RunBefore, Event, EventKind, run_update, run_lifecycle, run_parent, tag_set, tag_delete,
  find_run, is_run, capture_run_before, write_run_event, before_run,
}
use litemlflow.Store.Runs.{update_run_row, event_if_before}
use litemlflow.Store.Replay.{
  TagMap, tag_map, undo_fields, apply_undo, apply_tag_undo, undo_run, undo_tags,
}
use litemlflow.Store.Replay.Undo.{IsExact, Extends, Undoes}

abbrev captured : Run → RunBefore
captured r = record {
  status = r.status;
  end_time = r.end_time;
  name = r.name;
  lifecycle_stage = r.lifecycle_stage;
  parent_run_id = r.parent_run_id;
}

abbrev run_event : ℕ → EventKind → String → RunBefore → Event
run_event now kind id b = record {
  ts_ms = now;
  kind = kind;
  entity_id = id;
  payload = before_run b;
}

-- A kind of event on the run's row does not touch the tags.
abbrev pub IsRunKind : EventKind → Type 0
IsRunKind run_update = Unit
IsRunKind run_lifecycle = Unit
IsRunKind run_parent = Unit
IsRunKind tag_set = ⊥
IsRunKind tag_delete = ⊥

silent :
    (kind : EventKind)
    → IsRunKind kind
    → (now : ℕ) (id : String) (b : RunBefore) (m : TagMap)
    → apply_tag_undo m (run_event now kind id b) ≡ m
unfolding apply_tag_undo
silent run_update _ now id b m = refl
silent run_lifecycle _ now id b m = refl
silent run_parent _ now id b m = refl
silent tag_set h now id b m = absurd h
silent tag_delete h now id b m = absurd h

pub str_eq_comm : (s t : String) → str_eq s t ≡ str_eq t s
str_eq_comm s t = ground (arith, eq_iff s t, eq_iff t s)

pub found_id : (k : String) (db : Db) {run : Run} → find_run k db ≡ some run → run.id ≡ k
found_id k db {run} e = (eq_iff run.id k).0 (find_row_holds (is_run k) db.runs run e)

-- A run that is there is not the one that is missing.
missing_ne :
    (id k : String) (db : Db) (run : Run)
    → find_run id db ≡ none
    → find_run k db ≡ some run
    → str_eq k id ≡ false
missing_ne id k db run gone e = elim (Bool-cases (str_eq k id)) [
  | inl same ↦ absurd (cc (sym e ∙ ap (λ x. find_run x db) ((eq_iff k id).0 same) ∙ gone))
  | inr other ↦ other
]

-- A change of a run's own columns with its event.
module _ (kind : EventKind) (on_row : IsRunKind kind) (f : Run → Run)
    (keeps : (r : Run) → (f r).id ≡ r.id)
    (restores : (r : Run) → IsExact r.end_time → undo_fields kind (captured r) (f r) ≡ r) where
  find_run-update_run_row :
      (id k : String) (db : Db)
      → find_run k (update_run_row id f db)
        ≡ Option.map (λ r. if is_run id r then f r else r) (find_run k db)
  unfolding update_run_row
  find_run-update_run_row id k db =
      find_row-update_rows (is_run k) (is_run id) f db.runs (λ r. rw keeps)

  -- What the later state holds for the run `k`.
  row_after :
      (id k : String) (db : Db) (run : Run)
      → find_run k db ≡ some run
      → find_run k (update_run_row id f db) ≡ some (if str_eq k id then f run else run)
  row_after id k db run e = rw (find_run-update_run_row id k db, e, found_id k db e)

  row_event_Undoes :
      (now : ℕ) (id k : String) (db : Db) (r run : Run)
      → find_run id db ≡ some r
      → find_run k db ≡ some run
      → IsExact r.end_time
      → Undoes k
          (run_event now kind id (captured r) ∷ [])
          run
          db
          (write_run_event now kind id (before_run (captured r)) (update_run_row id f db))
  unfolding write_run_event update_run_row select_rows undo_run undo_tags tag_map apply_undo
  row_event_Undoes now id k db r run er e exact = elim (Bool-cases (str_eq id k)) [
    | inl same ↦
        let p : id ≡ k = (eq_iff id k).0 same in
        let q : run ≡ r = cc (sym e ∙ ap (λ x. find_run x db) (sym p) ∙ er) in
        record {
          run' = f run;
          found = rw (row_after id k db run e, str_eq_comm k id, same);
          undone = rw (same, q) (restores r exact);
          tags_undone = rw same (silent kind on_row now id (captured r) _);
        }
    | inr other ↦ record {
      run' = run;
      found = rw (row_after id k db run e, str_eq_comm k id, other);
      undone = rw other;
      tags_undone = rw other;
    }
  ]

  pub update_run_row-Extends :
      (t now : ℕ) (id : String) (db : Db)
      → t < now
      → Extends t db
          (event_if_before now kind id (capture_run_before id db) (update_run_row id f db))
  unfolding event_if_before capture_run_before
  update_run_row-Extends t now id db late = elim (Option-cases (find_run id db)) [
    | inl gone ↦ rw gone (record {
      added = [];
      log = unfold update_run_row in sym (append-nil _);
      experiments = unfold update_run_row in refl;
      later = tt;
      undoes = λ k run e _. record {
        run' = run;
        found = rw (row_after id k db run e, missing_ne id k db run gone e);
        undone = unfold undo_run select_rows in refl;
        tags_undone = unfold undo_tags select_rows tag_map update_run_row in refl;
      };
    })
    | inr (r, e) ↦ rw e (record {
      added = run_event now kind id (captured r) ∷ [];
      log = unfold write_run_event update_run_row in refl;
      experiments = unfold write_run_event update_run_row in refl;
      later = (late, tt);
      undoes = λ k run e' exact. row_event_Undoes now id k db r run e e' exact.0;
    })
  ]
