-- ===== src/Store/Replay/Create.antt =====
-- `CreateRun` leaves the runs that are there as they were.
use litemlflow.Prelude.{
  ℕ, String, [], ◌∷◌, ◌++◌, ◌≡◌, ◌⊎◌, refl, sym, ap, ◌<◌, arith, eq_iff, find_row-append, ok,
  >>=-eq-ok, ok_inj, select_rows, inl, inr,
}
use mathlib.Core.List.{append-nil}
use litemlflow.Model.{Run}
use litemlflow.Store.Db.{Db, is_run, read_tag_value, capture_run_before, run_parent}
use litemlflow.Store.Runs.{
  put_tag, tag_event, create_run, update_run_row, event_if_before, update_parent, mapped, Sql, done,
  failed, set_parent_run_id, insert_run, run_defaults, parent_tag,
}
use litemlflow.Store.Replay.{undo_fields, undo_run, undo_tags, tag_map}
use litemlflow.Store.Replay.Undo.{Extends, Extends-refl, Extends-trans}
use litemlflow.Store.Replay.Rows.{update_run_row-Extends}
use litemlflow.Store.Replay.Tags.{put_tag-Extends}

insert_run-cases :
    (r : Run) (db db₁ : Db)
    → insert_run r db ≡ done db₁
    → record db { runs = db.runs ++ record r { parent_run_id = "" } ∷ [] } ≡ db₁
unfolding insert_run
insert_run-cases r db db₁ h = ground arith

module _ (t : ℕ) (clock : ℕ → ℕ) (late : (n : ℕ) → t < clock n) where
  insert_run-Extends : (r : Run) (db db₁ : Db) → insert_run r db ≡ done db₁ → Extends t db db₁
  insert_run-Extends r db db₁ h = rw (← insert_run-cases r db db₁ h) (record {
    added = [];
    log = sym (append-nil _);
    experiments = refl;
    later = tt;
    undoes = λ k run found _. record {
      run' = run;
      found = rw (find_row-append (is_run k) db.runs _, found);
      undone = unfold undo_run select_rows in refl;
      tags_undone = unfold undo_tags select_rows tag_map in refl;
    };
  })

  abbrev parent_done : String → String → Db → Db
  parent_done id parent db =
      event_if_before (clock 1) run_parent id (capture_run_before id db)
        (update_run_row id (λ r. record r { parent_run_id = parent }) db)

  set_parent_run_id-cases :
      (id parent : String) (db db' : Db)
      → mapped (set_parent_run_id (clock 1) (clock 2) id parent db) ≡ ok db'
      → (db ≡ db')
        ⊎ (tag_event
              (clock 2)
              id
              parent_tag
              parent
              (read_tag_value id parent_tag (parent_done id parent db))
              (put_tag id parent_tag parent (parent_done id parent db))
            ≡ db')
  unfolding set_parent_run_id update_parent
  set_parent_run_id-cases id parent db db' h = ground arith

  set_parent_run_id-Extends :
      (id parent : String) (db db' : Db)
      → mapped (set_parent_run_id (clock 1) (clock 2) id parent db) ≡ ok db'
      → Extends t db db'
  set_parent_run_id-Extends id parent db db' h = elim (set_parent_run_id-cases id parent db db' h) [
    | inl same ↦ rw (← same) (Extends-refl t db)
    | inr changed ↦ rw (← changed) (
        Extends-trans
          (update_run_row-Extends run_parent tt (λ r. record r { parent_run_id = parent })
            (λ r. refl) (unfold undo_fields in λ r _. refl) t (clock 1) id db (late 1))
          (put_tag-Extends t (clock 2) id parent_tag parent (parent_done id parent db) (late 2)
            (ground (arith, eq_iff parent_tag ""))))
  ]

  mapped-eq-ok : (s : Sql) {db : Db} → mapped s ≡ ok db → s ≡ done db
  mapped-eq-ok (done db) h = ap done (ok_inj h)
  mapped-eq-ok (failed e) h = cc

  pub create_run-Extends :
      (fresh : String) (r : Run) (db db' : Db)
      → create_run clock fresh r db ≡ ok db'
      → Extends t db db'
  unfolding create_run
  create_run-Extends fresh r₀ db db' h =
      let r = run_defaults (clock 0) fresh r₀ in
      let (db₁, inserted, rest) = >>=-eq-ok (mapped (insert_run r db)) _ h in
      Extends-trans (insert_run-Extends r db db₁ (mapped-eq-ok (insert_run r db) inserted))
        (set_parent_run_id-Extends r.id r.parent_run_id db₁ db' rest)
