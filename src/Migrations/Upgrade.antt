-- ===== src/Migrations/Upgrade.antt =====
-- `Apply` keeps the versions and the schema in agreement, and loses no version.
use mathlib.Core.List.{append_assoc}
use litemlflow.Prelude.{
  ℕ, suc, ◌≤◌, List, [], ◌∷◌, ◌++◌, some, ◌≡◌, refl, sym, ◌∙◌, ap, ◌⊎◌, inl, inr, leb, length,
  arith, Result, ok, err, StoreError, other_error, Bool-cases, Result-cases, ok_inj, >>=-eq-ok,
  >>-eq-ok, ltb, guard, length-append,
}
use litemlflow.Migrations.Load.{
  Migration, Entry, load, parse_entries, sort_migrations, is_contiguous,
}
use litemlflow.Migrations.{
  Sqlite, Conditions, Database, apply_one, apply_pending, apply, ensure_schema_table,
  highest_version, apply_loaded,
}
use litemlflow.Migrations.Versions.{Numbered, get_elem?, get_elem?-append, is_contiguous-Numbered}
use litemlflow.Migrations.Ran.{guard-true}
use litemlflow.Migrations.Agrees.{
  Agrees, current_version-Agrees, apply_one-Agrees, ensure_schema_table-Agrees,
}

pub load-Numbered :
    (entries : List Entry) (all : List Migration) → load entries ≡ ok all → Numbered 0 all
unfolding load
load-Numbered entries all h =
    let (ms, _, h₁) = >>=-eq-ok (parse_entries entries) _ h in
    let (contiguous, h₂) =
      >>-eq-ok (guard (is_contiguous 1 (sort_migrations ms)) other_error) _ h₁ in
    rw (← ok_inj h₂) (
      is_contiguous-Numbered 0 (sort_migrations ms)
        (guard-true (is_contiguous 1 (sort_migrations ms)) contiguous))

module _ {S : Type 0} (sql : Sqlite S) where
  -- At least `n` scripts are recorded, and all of them if the call succeeded.
  abbrev pub Reached : List Migration → S → ℕ → Database S × Result (Unit {0}) → Type 0
  Reached all empty n (db, outcome) =
      (k : ℕ) × (n ≤ k)
      × Agrees sql all empty k db
      × (((outcome ≡ ok tt) × (k ≡ length all)) ⊎ ((e : StoreError) × (outcome ≡ err e)))

  pub Reached-le :
      (all : List Migration) (empty : S) (n n' : ℕ) (p : Database S × Result (Unit {0}))
      → n ≤ n'
      → Reached all empty n' p
      → Reached all empty n p
  Reached-le all empty n n' (db, outcome) h (k, le, a, whole) = (k, omega arith, a, whole)

  -- The loop, when the scripts before have been dealt with.
  pub apply_pending-Reached :
      (c : ℕ → Conditions) (all : List Migration) (empty : S) (n current : ℕ)
      (done pending : List Migration) (db : Database S)
      → all ≡ done ++ pending
      → Numbered (length done) pending
      → current ≤ n
      → length done ≤ n
      → (n ≤ current) ⊎ (n ≤ length done)
      → Agrees sql all empty n db
      → Reached all empty n (apply_pending sql c current pending db)
  unfolding apply_pending
  apply_pending-Reached c all empty n current done [] db split numbered low past near a = (
    n,
    omega arith,
    a,
    inl (refl, omega (arith, ap length split, length-append {0} done [], a.bounded)),
  )
  apply_pending-Reached c all empty n current done (m ∷ ms) db split numbered low past near a =
      let split' : all ≡ (done ++ (m ∷ [])) ++ ms = split ∙ sym (append_assoc done (m ∷ []) ms) in
      let longer : length (done ++ (m ∷ [])) ≡ suc (length done) =
        omega (arith, length-append {0} done (m ∷ [])) in
      let later : Numbered (length (done ++ (m ∷ []))) ms = rw longer numbered.1 in
      elim (Bool-cases (leb m.version current)) [
        | inl old ↦ rw old (
            apply_pending-Reached c all empty n current (done ++ (m ∷ [])) ms db split' later low
              (ground arith) (inl (ground arith)) a)
        | inr new ↦
            let at_end : n ≡ length done = ground arith in
            let at_n : get_elem? all n ≡ some m = rw (at_end, split) (get_elem?-append done ms m) in
            elim (Result-cases (apply_one sql (c m.version) m db)) [
              | inl (e, failing) ↦ rw (new, failing) (n, omega arith, a, inr (e, refl))
              | inr (db', worked) ↦
                  rw (new, worked)
                    (Reached-le all empty n (suc n) (apply_pending sql c current ms db')
                      (omega arith)
                      (apply_pending-Reached c all empty (suc n) current (done ++ (m ∷ [])) ms db'
                        split' later (omega arith) (omega arith) (inr (omega arith))
                        (apply_one-Agrees sql (c m.version) m all empty n db db' at_n (omega arith)
                          a worked)))
            ]
      ]

  pub apply-Reached :
      (entries : List Entry) (c : ℕ → Conditions) (all : List Migration) (empty : S) (n : ℕ)
      (db : Database S)
      → load entries ≡ ok all
      → Agrees sql all empty n db
      → Reached all empty n (apply sql entries c db)
  unfolding apply apply_loaded
  apply-Reached entries c all empty n db loaded a =
      let a' = ensure_schema_table-Agrees sql all empty n db a in
      let now = current_version-Agrees sql all empty n (ensure_schema_table db) a' in
      elim (Bool-cases (ltb (highest_version all) n)) [
        | inl future ↦ rw (loaded, now, future) (n, omega arith, a', inr (other_error, refl))
        | inr known ↦
            rw (loaded, now, known)
              (apply_pending-Reached c all empty n n [] all (ensure_schema_table db) refl
                (load-Numbered entries all loaded) (omega arith) (omega arith) (inl (omega arith))
                a')
      ]
