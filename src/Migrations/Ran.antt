-- ===== src/Migrations/Ran.antt =====
-- One run of a script that was committed: what it did to the schema and to schema_migrations.
use litemlflow.Prelude.{
  ℕ, ◌≤◌, Bool, true, false, List, Option, none, some, ◌≡◌, refl, sym, ◌∙◌, ap, leb, arith, Text,
  ok, other_error, ok_inj, >>=-eq-ok, guard,
}
use litemlflow.Migrations.{Applied, Sqlite, Conditions, Database, rows_of, run_script, required}

pub guard-true : (b : Bool) {u : Unit {0}} → guard b other_error ≡ ok u → b ≡ true
guard-true true h = refl
guard-true false h = cc

pub required-eq-ok {ℓ} : {A : Type ℓ} (o : Option A) {a : A} → required o ≡ ok a → o ≡ some a
required-eq-ok none h = cc
required-eq-ok (some a) h = ap some (ok_inj h)

pub guard-le : (a b : ℕ) {u : Unit {0}} → guard (leb a b) other_error ≡ ok u → a ≤ b
guard-le a b h = ground arith

module _ {S : Type 0} (sql : Sqlite S) where
  -- A script turned one schema into another and added no violation of a foreign key.
  pub record Ran (script : Text) (s s' : S) : Type 0 where
    pub executed : sql.exec script s ≡ some s'
    pub before : ℕ
    pub after : ℕ
    pub counted_before : sql.violations s ≡ some before
    pub counted_after : sql.violations s' ≡ some after
    pub no_more : after ≤ before

  pub run_script-cases :
      (c : Conditions) (script : Text) (book : List Applied → Option (List Applied))
      (db db' : Database S)
      → run_script sql c script book db ≡ ok db'
      → (rows : List Applied) × (book (rows_of db.schema_migrations) ≡ some rows)
        × (db'.schema_migrations ≡ some rows)
        × Ran script db.schema db'.schema
  unfolding run_script
  run_script-cases c script book db db' h =
      let (_, _, h₁) = >>=-eq-ok (guard c.connects other_error) _ h in
      let (_, _, h₂) = >>=-eq-ok (guard c.disables other_error) _ h₁ in
      let (_, _, h₃) = >>=-eq-ok (guard c.begins other_error) _ h₂ in
      let (before, e₁, h₄) = >>=-eq-ok (required (sql.violations db.schema)) _ h₃ in
      let (changed, e₂, h₅) = >>=-eq-ok (required (sql.exec script db.schema)) _ h₄ in
      let (after, e₃, h₆) = >>=-eq-ok (required (sql.violations changed)) _ h₅ in
      let (_, fewer, h₇) = >>=-eq-ok (guard (leb after before) other_error) _ h₆ in
      let (_, _, h₈) = >>=-eq-ok (guard c.books other_error) _ h₇ in
      let (rows, e₄, h₉) = >>=-eq-ok (required (book (rows_of db.schema_migrations))) _ h₈ in
      let (_, _, h₁₀) = >>=-eq-ok (guard c.commits other_error) _ h₉ in
      let same = ok_inj h₁₀ in
      (
        rows,
        required-eq-ok _ e₄,
        sym (ap (λ d. d.schema_migrations) same),
        record {
          executed = required-eq-ok _ e₂ ∙ ap (λ d. some d.schema) same;
          before = before;
          after = after;
          counted_before = required-eq-ok _ e₁;
          counted_after = ap (λ d. sql.violations d.schema) (sym same) ∙ required-eq-ok _ e₃;
          no_more = guard-le after before fewer;
        },
      )
