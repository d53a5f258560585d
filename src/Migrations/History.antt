-- ===== src/Migrations/History.antt =====
-- The database after any calls of the runner, whatever fails in them.
use litemlflow.Prelude.{ℕ, Bool, List, [], ◌≡◌, refl, arith, ok}
use litemlflow.Migrations.Load.{Migration, Entry, load}
use litemlflow.Migrations.{Sqlite, Conditions, Database, rows_of, apply, rollback_impl}
use litemlflow.Migrations.Agrees.{Built, Agrees}
use litemlflow.Migrations.Upgrade.{Reached, apply-Reached}
use litemlflow.Migrations.Downgrade.{rollback_impl-Returned}

module _ {S : Type 0} (sql : Sqlite S) where
  -- A database after any calls of `Apply`, `Rollback` and `RollbackForce`, under any conditions.
  pub data After (entries : List Entry) (start : Database S) : Database S → Type 0 where
    unused : {db : Database S} → db ≡ start → After entries start db
    applied :
        {db db' : Database S} (c : ℕ → Conditions)
        → db' ≡ (apply sql entries c db).0
        → After entries start db
        → After entries start db'
    rolled_back :
        {db db' : Database S} (c : Conditions) (force : Bool)
        → db' ≡ (rollback_impl sql entries c force db).0
        → After entries start db
        → After entries start db'

  pub After-Agrees :
      (entries : List Entry) (all : List Migration) (start : Database S) {db : Database S}
      → load entries ≡ ok all
      → rows_of start.schema_migrations ≡ []
      → After entries start db
      → (n : ℕ) × Agrees sql all start.schema n db
  After-Agrees entries all start loaded empty (unused same) = rw same (
    0,
    record {
      counts = rw empty tt;
      many = rw empty refl;
      bounded = omega arith;
      built = Built.fresh refl refl;
    },
  )
  After-Agrees entries all start loaded empty (applied c same before) =
      let (n, a) = After-Agrees entries all start loaded empty before in
      let (k, _, a', _) = apply-Reached sql entries c all start.schema n _ loaded a in
      (k, rw same a')
  After-Agrees entries all start loaded empty (rolled_back c force same before) =
      let (n, a) = After-Agrees entries all start loaded empty before in
      let (k, a', _) = rollback_impl-Returned sql entries c force all start.schema n _ loaded a in
      (k, rw same a')

  -- After any calls of `Apply`, `Rollback` and `RollbackForce` on a database with no recorded
  -- version, whatever fails in them, the recorded versions are 1 to `n`, and the schema is one that
  -- complete scripts made: each UP after the ones before it, each DOWN taking back the last, none
  -- with a new violation of a foreign key. A further `Apply` loses no version, and it records the
  -- last one if it succeeds.
  pub apply-After :
      (entries : List Entry) (c : ℕ → Conditions) (all : List Migration) (start db : Database S)
      → load entries ≡ ok all
      → rows_of start.schema_migrations ≡ []
      → After entries start db
      → (n : ℕ) × Agrees sql all start.schema n db
        × Reached sql all start.schema n (apply sql entries c db)
  apply-After entries c all start db loaded empty after =
      let (n, a) = After-Agrees entries all start loaded empty after in
      (n, a, apply-Reached sql entries c all start.schema n db loaded a)
