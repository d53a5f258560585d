-- ===== src/Migrations.antt =====
-- internal/migrations/embed.go: the runner of the scripts. What SQLite does with a script, the
-- check of foreign keys and the count of a table's rows are parameters, and so is what may fail
-- besides: a connection, a pragma, a transaction, its commit.
mod Scripts
mod Load
mod Versions
mod Ran
mod Agrees
mod Upgrade
mod Downgrade
pub mod History
pub mod Guard
pub mod Quoting
pub mod Tests
use litemlflow.Prelude.{
  ℕ, Bool, true, false, not, ◌&&◌, ◌||◌, List, [], ◌∷◌, ◌++◌, Option, none, some, ltb, leb, ◌==◌,
  if◌then◌else◌, Text, text_eq, Result, ok, err, ◌>>=◌, ◌>>◌, guard, other_error, find_row, any_row,
  delete_rows,
}
use litemlflow.Migrations.Scripts.{extract_dropped_tables, quote_ident}
use litemlflow.Migrations.Load.{Migration, Entry, failed, load}

-- A row of schema_migrations.
pub record Applied : Type 0 where
  pub version : ℕ
  pub name : Text
  pub applied_at : ℕ

-- SQLite, as far as the runner relies on it: a script run with the enforcement of foreign keys off,
-- the rows that PRAGMA foreign_key_check reports, and the number of rows of a quoted table. `none`
-- is an error.
pub record Sqlite (S : Type 0) : Type 0 where
  pub exec : Text → S → Option S
  pub violations : S → Option ℕ
  pub count_rows : Text → S → Option ℕ

-- How one run of a script fares besides: whether the connection, the pragma, the transaction, the
-- statement on schema_migrations and the commit succeed; and the clock.
pub record Conditions : Type 0 where
  pub connects : Bool
  pub disables : Bool
  pub begins : Bool
  pub books : Bool
  pub commits : Bool
  pub now : ℕ

-- The tables of the program, and schema_migrations once that is created.
pub record Database (S : Type 0) : Type 0 where
  pub schema : S
  pub schema_migrations : Option (List Applied)

abbrev pub rows_of : Option (List Applied) → List Applied
rows_of none = []
rows_of (some rows) = rows

-- MAX(version), and 0 for an empty table.
unfoldable pub max_applied : List Applied → ℕ
max_applied [] = 0
max_applied (r ∷ rows) = let m = max_applied rows in if leb r.version m then m else r.version

abbrev pub is_applied : ℕ → Applied → Bool
is_applied version r = r.version == version

abbrev pub is_numbered : ℕ → Migration → Bool
is_numbered version m = m.version == version

-- The INSERT of `applyOne`: version is the primary key.
unfoldable pub book_applied : Migration → ℕ → List Applied → Option (List Applied)
unfolding any_row
book_applied m now rows =
    if any_row (is_applied m.version) rows
    then none
    else some (rows ++ (record { version = m.version; name = m.name; applied_at = now } ∷ []))

-- The DELETE of `rollbackImpl`.
unfoldable pub book_removed : ℕ → List Applied → Option (List Applied)
unfolding delete_rows
book_removed version rows = some (delete_rows (is_applied version) rows)

abbrev pub required {ℓ} : {A : Type ℓ} → Option A → Result A
required none = failed
required (some a) = ok a

unfoldable pub highest_version : List Migration → ℕ
highest_version [] = 0
highest_version (m ∷ ms) = let h = highest_version ms in if ltb h m.version then m.version else h

module _ {S : Type 0} where
  -- `EnsureSchemaTable`
  unfoldable pub ensure_schema_table : Database S → Database S
  ensure_schema_table db = record db { schema_migrations = some (rows_of db.schema_migrations) }

  -- `CurrentVersion`, whose query finds the table that it has created before.
  unfoldable pub current_version : Database S → ℕ
  unfolding max_applied
  current_version db = max_applied (rows_of db.schema_migrations)

  -- A transaction that fails is rolled back.
  abbrev pub committed : Database S → Result (Database S) → Database S × Result (Unit {0})
  committed db (err e) = (db, err e)
  committed db (ok db') = (db', ok tt)

abbrev pub is_populated : Option ℕ → Bool
is_populated none = false
is_populated (some n) = ltb 0 n

module _ {S : Type 0} (sql : Sqlite S) where
  -- `runScript`, with the statement on schema_migrations as a function on its rows. The
  -- enforcement of foreign keys is back on, or the connection given up, on every way out.
  unfoldable pub run_script :
      Conditions → Text → (List Applied → Option (List Applied)) → Database S → Result (Database S)
  run_script c script book db = do
    guard c.connects other_error
    guard c.disables other_error
    guard c.begins other_error
    before ← required (sql.violations db.schema)
    changed ← required (sql.exec script db.schema)
    after ← required (sql.violations changed)
    guard (leb after before) other_error
    guard c.books other_error
    rows ← required (book (rows_of db.schema_migrations))
    guard c.commits other_error
    ok (record { schema = changed; schema_migrations = some rows })

  -- `applyOne`
  unfoldable pub apply_one : Conditions → Migration → Database S → Result (Database S)
  unfolding run_script book_applied
  apply_one c m db = run_script c m.up (book_applied m c.now) db

  -- The loop of `Apply`: what has been committed stays when a later script fails.
  unfoldable pub apply_pending :
      (ℕ → Conditions) → ℕ → List Migration → Database S → Database S × Result (Unit {0})
  unfolding apply_one
  apply_pending c current [] db = (db, ok tt)
  apply_pending c current (m ∷ ms) db =
      let skipped = apply_pending c current ms db in
      let run : Database S × Result (Unit {0}) = elim (apply_one (c m.version) m db) [
        | err e ↦ (db, err e)
        | ok db' ↦ apply_pending c current ms db'
      ] in
      if leb m.version current then skipped else run

  -- `Apply`, from the result of `Load` on; the database has the table.
  unfoldable pub apply_loaded :
      (ℕ → Conditions) → Database S → Result (List Migration) → Database S × Result (Unit {0})
  unfolding current_version highest_version apply_pending
  apply_loaded c db (err e) = (db, err e)
  apply_loaded c db (ok all) =
      if ltb (highest_version all) (current_version db)
      then (db, failed)
      else apply_pending c (current_version db) all db

  -- `Apply`
  unfoldable pub apply : List Entry → (ℕ → Conditions) → Database S → Database S × Result (Unit {0})
  unfolding ensure_schema_table load apply_loaded
  apply entries c db = apply_loaded c (ensure_schema_table db) (load entries)

  -- The loop of the rollback's guard; a table that cannot be counted does not hold it up.
  unfoldable pub holds_rows : S → List Text → Bool
  unfolding quote_ident
  holds_rows schema [] = false
  holds_rows schema (table ∷ tables) =
      is_populated (sql.count_rows (quote_ident table) schema) || holds_rows schema tables

  -- `rollbackImpl`, from the migration that the current version names on.
  unfoldable pub rollback_target :
      Conditions → Bool → ℕ → Database S → Option Migration → Database S × Result (Unit {0})
  unfolding run_script holds_rows extract_dropped_tables book_removed text_eq
  rollback_target c force current db none = (db, failed)
  rollback_target c force current db (some m) =
      if text_eq m.down []
      then (db, failed)
      else if not force && holds_rows db.schema (extract_dropped_tables m.down)
      then (db, failed)
      else committed db (run_script c m.down (book_removed current) db)

  -- `rollbackImpl`, from the result of `Load` on.
  unfoldable pub rollback_loaded :
      Conditions → Bool → Database S → Result (List Migration) → Database S × Result (Unit {0})
  unfolding ensure_schema_table current_version find_row rollback_target
  rollback_loaded c force db (err e) = (db, err e)
  rollback_loaded c force db (ok all) =
      let ensured = ensure_schema_table db in
      let current = current_version ensured in
      if current == 0
      then (ensured, failed)
      else rollback_target c force current ensured (find_row (is_numbered current) all)

  -- `rollbackImpl`
  unfoldable pub rollback_impl :
      List Entry → Conditions → Bool → Database S → Database S × Result (Unit {0})
  unfolding load rollback_loaded
  rollback_impl entries c force db = rollback_loaded c force db (load entries)

  -- `Rollback`
  unfoldable pub rollback : List Entry → Conditions → Database S → Database S × Result (Unit {0})
  unfolding rollback_impl
  rollback entries c = rollback_impl entries c false

  -- `RollbackForce`
  unfoldable pub rollback_force :
      List Entry → Conditions → Database S → Database S × Result (Unit {0})
  unfolding rollback_impl
  rollback_force entries c = rollback_impl entries c true
