-- ===== src/Migrations/Guard.antt =====
-- The guard of `Rollback` against the loss of rows.
use litemlflow.Prelude.{
  ℕ, suc, ◌<◌, true, false, List, [], ◌∷◌, ◌++◌, some, ◌≡◌, arith, Text, ok, err, other_error,
  find_row, ◌==◌,
}
use litemlflow.Migrations.Scripts.{quote_ident, extract_dropped_tables}
use litemlflow.Migrations.Load.{Migration, Entry, load}
use litemlflow.Migrations.{
  Sqlite, Conditions, Database, holds_rows, rollback, rollback_impl, rollback_loaded,
  rollback_target, ensure_schema_table, current_version, is_numbered,
}

module _ {S : Type 0} (sql : Sqlite S) where
  holds_rows_populated :
      (schema : S) (table : Text) (n : ℕ) (before after : List Text)
      → sql.count_rows (quote_ident table) schema ≡ some (suc n)
      → holds_rows sql schema (before ++ (table ∷ after)) ≡ true
  unfolding holds_rows
  holds_rows_populated schema table n [] after h = ground arith
  holds_rows_populated schema table n (t ∷ before) after h =
      ground (arith, holds_rows_populated schema table n before after h)

  rollback_target_held :
      (c : Conditions) (current : ℕ) (db : Database S) (m : Migration)
      → holds_rows sql db.schema (extract_dropped_tables m.down) ≡ true
      → rollback_target sql c false current db (some m) ≡ (db, err other_error)
  unfolding rollback_target
  rollback_target_held c current db m h = ground arith

  -- Without force, a rollback fails and changes neither the tables nor the recorded versions if
  -- the DOWN of the current version names a table to drop, as `extractDroppedTables` finds it, that
  -- has a row.
  pub rollback_populated :
      (entries : List Entry) (c : Conditions) (all : List Migration) (m : Migration)
      (db : Database S) (table : Text) (n : ℕ) (before after : List Text)
      → load entries ≡ ok all
      → 0 < current_version db
      → find_row (is_numbered (current_version db)) all ≡ some m
      → extract_dropped_tables m.down ≡ before ++ (table ∷ after)
      → sql.count_rows (quote_ident table) db.schema ≡ some (suc n)
      → rollback sql entries c db ≡ (ensure_schema_table db, err other_error)
  unfolding rollback rollback_impl rollback_loaded ensure_schema_table current_version
  rollback_populated entries c all m db table n before after loaded positive found names rows =
      let held : holds_rows sql db.schema (extract_dropped_tables m.down) ≡ true =
        rw names (holds_rows_populated db.schema table n before after rows) in
      let some_version : (current_version db == 0) ≡ false = ground arith in
      rw (loaded, some_version, found)
        (rollback_target_held c (current_version db) (ensure_schema_table db) m held)
