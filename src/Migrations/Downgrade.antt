-- ===== src/Migrations/Downgrade.antt =====
-- `Rollback` and `RollbackForce` keep the versions and the schema in agreement.
use litemlflow.Prelude.{
  ℕ, zero, suc, Bool, false, List, [], Option, none, some, ◌≡◌, refl, ◌⊎◌, inl, inr, arith, text_eq,
  ◌==◌, if◌then◌else◌, not, ◌&&◌, Result, ok, err, StoreError, other_error, Bool-cases,
  Result-cases, find_row,
}
use litemlflow.Migrations.Scripts.{extract_dropped_tables}
use litemlflow.Migrations.Load.{Migration, Entry, load, failed}
use litemlflow.Migrations.{
  Sqlite, Conditions, Database, book_removed, run_script, rollback_impl, rollback_target,
  current_version, ensure_schema_table, is_numbered, committed, rollback_loaded, holds_rows,
}
use litemlflow.Migrations.Versions.{Numbered, get_elem?, find_row-Numbered}
use litemlflow.Migrations.Agrees.{
  Agrees, current_version-Agrees, run_down-Agrees, ensure_schema_table-Agrees,
}
use litemlflow.Migrations.Upgrade.{load-Numbered}

module _ {S : Type 0} (sql : Sqlite S) where
  -- A rollback takes the last script back, or it fails and changes nothing.
  abbrev pub Returned : List Migration → S → ℕ → Database S × Result (Unit {0}) → Type 0
  Returned all empty n (db, outcome) =
      (k : ℕ) × Agrees sql all empty k db
      × (((outcome ≡ ok tt) × (suc k ≡ n)) ⊎ (((e : StoreError) × (outcome ≡ err e)) × (k ≡ n)))

  pub unchanged :
      (all : List Migration) (empty : S) (n : ℕ) (db : Database S) (e : StoreError)
      → Agrees sql all empty n db
      → Returned all empty n (db, err e)
  unchanged all empty n db e a = (n, a, inr ((e, refl), refl))

  pub run_down-Returned :
      (c : Conditions) (m : Migration) (all : List Migration) (empty : S) (k : ℕ) (db : Database S)
      → get_elem? all k ≡ some m
      → Agrees sql all empty (suc k) db
      → Returned all empty
          (suc k)
          (committed db (run_script sql c m.down (book_removed (suc k)) db))
  run_down-Returned c m all empty k db at_k a =
      elim (Result-cases (run_script sql c m.down (book_removed (suc k)) db)) [
        | inl (e, failing) ↦ rw failing (unchanged all empty (suc k) db e a)
        | inr (db', worked) ↦
            rw worked
              (k, run_down-Agrees sql c m all empty k db db' at_k a worked, inl (refl, refl))
      ]

  pub rollback_target-Returned :
      (c : Conditions) (force : Bool) (all : List Migration) (empty : S) (k : ℕ) (db : Database S)
      (target : Option Migration)
      → ((m : Migration) → target ≡ some m → get_elem? all k ≡ some m)
      → Agrees sql all empty (suc k) db
      → Returned all empty (suc k) (rollback_target sql c force (suc k) db target)
  unfolding rollback_target
  rollback_target-Returned c force all empty k db none at_k a =
      unchanged all empty (suc k) db other_error a
  rollback_target-Returned c force all empty k db (some m) at_k a =
      elim (Bool-cases (text_eq m.down [])) [
        | inl no_down ↦ rw no_down (unchanged all empty (suc k) db other_error a)
        | inr down ↦
            elim (Bool-cases
              (not force && holds_rows sql db.schema (extract_dropped_tables m.down))) [
                | inl held ↦ rw (down, held) (unchanged all empty (suc k) db other_error a)
                | inr free ↦ rw (down, free) (run_down-Returned c m all empty k db (at_k m refl) a)
              ]
      ]

  pub rollback_at :
      (c : Conditions) (force : Bool) (all : List Migration) (empty : S) (n : ℕ) (db : Database S)
      → Numbered 0 all
      → current_version db ≡ n
      → Agrees sql all empty n db
      → Returned all empty n (
          if current_version db == 0
          then (db, failed)
          else rollback_target sql c force
              (current_version db)
              db
              (find_row (is_numbered (current_version db)) all))
  rollback_at c force all empty zero db numbered now a =
      rw now (unchanged all empty 0 db other_error a)
  rollback_at c force all empty (suc k) db numbered now a =
      let pos : (suc k == 0) ≡ false = ground arith in
      rw (now, pos)
        (rollback_target-Returned c force all empty k db (find_row (is_numbered (suc k)) all)
          (λ m found. find_row-Numbered (suc k) 0 k all m numbered (omega arith) found) a)

  pub rollback_impl-Returned :
      (entries : List Entry) (c : Conditions) (force : Bool) (all : List Migration) (empty : S)
      (n : ℕ) (db : Database S)
      → load entries ≡ ok all
      → Agrees sql all empty n db
      → Returned all empty n (rollback_impl sql entries c force db)
  unfolding rollback_impl rollback_loaded
  rollback_impl-Returned entries c force all empty n db loaded a =
      let ensured = ensure_schema_table db in
      let a' = ensure_schema_table-Agrees sql all empty n db a in
      let now = current_version-Agrees sql all empty n ensured a' in
      rw loaded (rollback_at c force all empty n ensured (load-Numbered entries all loaded) now a')
