-- ===== src/Migrations/Agrees.antt =====
-- The recorded versions and the schema agree: the invariant, and one script more or less.
use litemlflow.Prelude.{
  ℕ, suc, ◌≤◌, List, [], ◌∷◌, ◌++◌, some, ◌≡◌, refl, ◌∙◌, ap, length, arith, ok, length-append,
}
use litemlflow.Migrations.Load.{Migration}
use litemlflow.Migrations.{
  Applied, Sqlite, Conditions, Database, rows_of, book_applied, book_removed, run_script, apply_one,
  current_version, ensure_schema_table,
}
use litemlflow.Migrations.Versions.{
  Counts, get_elem?, get_elem?-lt, max_applied-Counts, Counts-append, delete_rows-Counts,
}
use litemlflow.Migrations.Ran.{Ran, run_script-cases}

pub some_inj {ℓ} : {A : Type ℓ} {a b : A} → some a ≡ some b → a ≡ b
some_inj h = cc h

pub book_removed-Counts :
    (k : ℕ) (rows rows' : List Applied)
    → Counts 0 rows
    → length rows ≡ suc k
    → book_removed (suc k) rows ≡ some rows'
    → Counts 0 rows' × (length rows' ≡ k)
unfolding book_removed
book_removed-Counts k [] rows' counts many h = absurd (omega arith)
book_removed-Counts k (r ∷ rows) rows' counts many h =
    let (counts', many') = delete_rows-Counts (suc k) 0 r rows counts (omega arith) in
    rw (← some_inj h) (counts', omega arith)

module _ {S : Type 0} (sql : Sqlite S) where
  -- The schemas that complete scripts can make: `n` is one more after each UP, run in the order of
  -- the scripts, and one less after the DOWN of the last.
  pub data Built (all : List Migration) (empty : S) : ℕ → S → Type 0 where
    fresh : {n : ℕ} {s : S} → n ≡ 0 → s ≡ empty → Built all empty n s
    upgraded :
        {n k : ℕ} {s s' : S} (m : Migration)
        → get_elem? all n ≡ some m
        → k ≡ suc n
        → Ran sql m.up s s'
        → Built all empty n s
        → Built all empty k s'
    downgraded :
        {n k : ℕ} {s s' : S} (m : Migration)
        → get_elem? all n ≡ some m
        → k ≡ suc n
        → Ran sql m.down s s'
        → Built all empty k s
        → Built all empty n s'

  -- The recorded versions are 1 to `n`, at most the last one, and the schema is one that these
  -- scripts made.
  pub record Agrees (all : List Migration) (empty : S) (n : ℕ) (db : Database S) : Type 0 where
    pub counts : Counts 0 (rows_of db.schema_migrations)
    pub many : length (rows_of db.schema_migrations) ≡ n
    pub bounded : n ≤ length all
    pub built : Built all empty n db.schema

  pub current_version-Agrees :
      (all : List Migration) (empty : S) (n : ℕ) (db : Database S)
      → Agrees all empty n db
      → current_version db ≡ n
  unfolding current_version
  current_version-Agrees all empty n db a =
      max_applied-Counts (rows_of db.schema_migrations) a.counts ∙ a.many

  pub book_applied-cases :
      (m : Migration) (now : ℕ) (rows rows' : List Applied)
      → book_applied m now rows ≡ some rows'
      → rows' ≡ rows ++ (record { version = m.version; name = m.name; applied_at = now } ∷ [])
  unfolding book_applied
  book_applied-cases m now rows rows' h = ground arith

  pub apply_one-Agrees :
      (c : Conditions) (m : Migration) (all : List Migration) (empty : S) (n : ℕ)
      (db db' : Database S)
      → get_elem? all n ≡ some m
      → m.version ≡ suc n
      → Agrees all empty n db
      → apply_one sql c m db ≡ ok db'
      → Agrees all empty (suc n) db'
  unfolding apply_one
  apply_one-Agrees c m all empty n db db' at_n numbered a h =
      let (rows, booked, stored, ran) =
        run_script-cases sql c m.up (book_applied m c.now) db db' h in
      let e = ap rows_of stored ∙ book_applied-cases m c.now _ rows booked in
      record {
        counts = rw e (Counts-append 0 _ _ a.counts (omega (arith, a.many)));
        many = rw e (omega (arith, a.many, length-append {0} (rows_of db.schema_migrations)));
        bounded = omega (arith, get_elem?-lt all n m at_n);
        built = upgraded m at_n refl ran a.built;
      }

  pub run_down-Agrees :
      (c : Conditions) (m : Migration) (all : List Migration) (empty : S) (k : ℕ)
      (db db' : Database S)
      → get_elem? all k ≡ some m
      → Agrees all empty (suc k) db
      → run_script sql c m.down (book_removed (suc k)) db ≡ ok db'
      → Agrees all empty k db'
  run_down-Agrees c m all empty k db db' at_k a h =
      let (rows, removed, stored, ran) =
        run_script-cases sql c m.down (book_removed (suc k)) db db' h in
      let (counts, many) =
        book_removed-Counts k (rows_of db.schema_migrations) rows a.counts a.many removed in
      record {
        counts = rw stored counts;
        many = rw stored many;
        bounded = omega (arith, a.bounded);
        built = downgraded m at_k refl ran a.built;
      }

  pub ensure_schema_table-Agrees :
      (all : List Migration) (empty : S) (n : ℕ) (db : Database S)
      → Agrees all empty n db
      → Agrees all empty n (ensure_schema_table db)
  unfolding ensure_schema_table
  ensure_schema_table-Agrees all empty n db a = record {
    counts = a.counts;
    many = a.many;
    bounded = a.bounded;
    built = a.built;
  }
