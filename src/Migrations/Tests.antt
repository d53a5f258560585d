-- ===== src/Migrations/Tests.antt =====
-- The runner on two scripts, with an SQLite that knows their statements.
use litemlflow.Prelude.{
  ℕ, ◌+◌, ◌-◌, true, false, List, [], ◌∷◌, ◌++◌, ◌==◌, none, some, ◌≡◌, refl, arith, Text, codes,
  text_eq, ok, err, other_error, if◌then◌else◌, find_row,
}
use litemlflow.Migrations.Load.{Migration, Entry, load}
use litemlflow.Migrations.{
  Sqlite, Conditions, Database, Applied, apply, rollback, ensure_schema_table, current_version,
}
use litemlflow.Migrations.Scripts.{quote_ident, extract_dropped_tables}
use litemlflow.Migrations.Agrees.{Agrees}
use litemlflow.Migrations.Upgrade.{Reached}
use litemlflow.Migrations.History.{After, apply-After}
use litemlflow.Migrations.Guard.{rollback_populated}
use litemlflow.Migrations.Quoting.{read_ident, read_ident-quote_ident}

abbrev create_runs : Text
create_runs = codes "CREATE TABLE runs (id TEXT);"

abbrev create_sessions : Text
create_sessions = codes "CREATE TABLE sessions (id TEXT);"

abbrev drop_sessions : Text
drop_sessions =
    codes "DROP INDEX IF EXISTS idx_sessions;" ++ (10 ∷ codes "DROP TABLE IF EXISTS sessions;")

-- The schema counts its tables.
tiny : Sqlite ℕ
tiny = record {
  exec = λ script tables.
      if text_eq script create_runs
      then some (tables + 1)
      else if text_eq script create_sessions
      then some (tables + 1)
      else if text_eq script drop_sessions
      then some (tables - 1)
      else none;
  violations = λ _. some 0;
  count_rows =
      λ table tables. if text_eq table (quote_ident (codes "sessions")) then some 3 else none;
}

abbrev body : Text → Text → Text
body up down = codes "-- UP" ++ (10 ∷ (up ++ (10 ∷ (codes "-- DOWN" ++ (10 ∷ down)))))

abbrev entries : List Entry
entries =
    record { is_dir = false; name = codes "embed.go"; body = [] }
    ∷ record { is_dir = true; name = codes "baseline"; body = [] }
    ∷ record {
      is_dir = false;
      name = codes "002_sessions.sql";
      body = body create_sessions drop_sessions;
    }
    ∷ record { is_dir = false; name = codes "001_init.sql"; body = body create_runs [] }
    ∷ []

abbrev init : Migration
init = record { version = 1; name = codes "init"; up = create_runs; down = [] }

abbrev sessions : Migration
sessions = record {
  version = 2;
  name = codes "sessions";
  up = create_sessions;
  down = drop_sessions;
}

loaded : load entries ≡ ok (init ∷ sessions ∷ [])
unfolding load
loaded = refl

abbrev fine : Conditions
fine = record {
  connects = true;
  disables = true;
  begins = true;
  books = true;
  commits = true;
  now = 1000;
}

abbrev empty : Database ℕ
empty = record { schema = 0; schema_migrations = none }

-- The second commit fails.
abbrev shaky : ℕ → Conditions
shaky version = record {
  connects = true;
  disables = true;
  begins = true;
  books = true;
  commits = version == 1;
  now = 1000;
}

abbrev row : Migration → Applied
row m = record { version = m.version; name = m.name; applied_at = 1000 }

half :
    apply tiny entries shaky empty
    ≡ (record { schema = 1; schema_migrations = some (row init ∷ []) }, err other_error)
unfolding apply tiny
half = refl

abbrev full : Database ℕ
full = record { schema = 2; schema_migrations = some (row init ∷ row sessions ∷ []) }

whole : apply tiny entries (λ _. fine) empty ≡ (full, ok tt)
unfolding apply tiny
whole = refl

abbrev half_done : Database ℕ
half_done = (apply tiny entries shaky empty).0

history : After tiny entries empty half_done
history = After.applied shaky refl (After.unused refl)

apply-After_example :
    (n : ℕ) × Agrees tiny (init ∷ sessions ∷ []) 0 n half_done
    × Reached tiny (init ∷ sessions ∷ []) 0 n (apply tiny entries (λ _. fine) half_done)
apply-After_example =
    apply-After tiny entries (λ _. fine) (init ∷ sessions ∷ []) empty half_done loaded refl history

rollback_populated_example :
    rollback tiny entries fine full ≡ (ensure_schema_table full, err other_error)
unfolding current_version find_row extract_dropped_tables tiny quote_ident text_eq
rollback_populated_example =
    rollback_populated tiny entries fine (init ∷ sessions ∷ []) sessions full (codes "sessions") 2
      [] [] loaded (omega arith) refl refl refl

read_ident-quote_ident_example :
    read_ident (quote_ident (codes "a" ++ (34 ∷ codes "b")) ++ codes " WHERE")
    ≡ some (codes "a" ++ (34 ∷ codes "b"), codes " WHERE")
read_ident-quote_ident_example =
    read_ident-quote_ident (codes "a" ++ (34 ∷ codes "b")) (codes " WHERE") refl
