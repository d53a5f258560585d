-- ===== src/Store/Registry/Aliases.antt =====
-- internal/store/registry.go: the aliases of model versions, and what they resolve to.
use mathlib.Core.Option
use litemlflow.Prelude.{
  ℕ, String, Bool, true, false, ◌&&◌, ◌||◌, ◌==◌, insert_sorted, sort_rows, find_row_holds, List,
  [], ◌∷◌, Option, none, some, ◌≡◌, refl, sym, ap, ◌∙◌, Result, ok, err, not_found, ◌>>=◌, str_eq,
  eq_iff, eq_refl, find_row, any_row, delete_rows, find_row-delete_rows_self, if◌then◌else◌, arith,
  Bool-cases, inl, inr, >>=-eq-ok, ok_inj, &&-both,
}
use litemlflow.Model.{ModelVersion}
use litemlflow.Store.Registry.{
  AliasRow, Registry, workspace_or_default, is_version_of, is_version, name_before, aliases_of,
  with_aliases, version_read, get_model_version,
}
use litemlflow.Store.Registry.Rows.{same_workspace}

abbrev pub is_alias : String → String → String → AliasRow → Bool
is_alias w name alias a = (str_eq a.workspace_id w && str_eq a.name name) && str_eq a.alias alias

-- INSERT … ON CONFLICT(workspace_id, name, alias) DO UPDATE SET version = excluded.version
unfoldable pub upsert_alias : String → String → String → ℕ → List AliasRow → List AliasRow
upsert_alias w name alias n [] =
    record { workspace_id = w; name = name; alias = alias; version = n } ∷ []
upsert_alias w name alias n (a ∷ rows) =
    if is_alias w name alias a
    then record a { version = n } ∷ rows
    else a ∷ upsert_alias w name alias n rows

-- `SetModelAlias`
unfoldable pub set_model_alias : String → String → String → ℕ → Registry → Result Registry
set_model_alias w₀ name alias n db = do
  let w = workspace_or_default w₀
  _ ← get_model_version w name n db
  ok (record db { aliases = upsert_alias w name alias n db.aliases })

-- `DeleteModelAlias`
unfoldable pub delete_model_alias : String → String → String → Registry → Result Registry
delete_model_alias w₀ name alias db =
    let w = workspace_or_default w₀ in
    if any_row (is_alias w name alias) db.aliases
    then ok (record db { aliases = delete_rows (is_alias w name alias) db.aliases })
    else err not_found

-- SELECT version FROM model_aliases WHERE …
unfoldable pub alias_version : String → String → String → List AliasRow → Option ℕ
alias_version w name alias rows =
    Option.map (λ a. a.version) (find_row (is_alias w name alias) rows)

-- `GetModelByAlias`
unfoldable pub get_model_by_alias : String → String → String → Registry → Result ModelVersion
get_model_by_alias w₀ name alias db =
    let w = workspace_or_default w₀ in
    elim (alias_version w name alias db.aliases) [
      | some n ↦ get_model_version w name n db
      | none ↦ err not_found
    ]

upsert_alias_self :
    (w name alias : String) (n : ℕ) (rows : List AliasRow)
    → alias_version w name alias (upsert_alias w name alias n rows) ≡ some n
unfolding alias_version upsert_alias find_row
upsert_alias_self w name alias n [] = rw (eq_refl w, eq_refl name, eq_refl alias) refl
upsert_alias_self w name alias n (a ∷ rows) = elim (Bool-cases (is_alias w name alias a)) [
  | inl here ↦ rw (here, here) refl
  | inr other ↦ rw (other, other) (upsert_alias_self w name alias n rows)
]

module _ (w name alias w' name' alias' : String)
    (other : ((str_eq w w' && str_eq name name') && str_eq alias alias') ≡ false) where
  not_alias : (a : AliasRow) → is_alias w name alias a ≡ true → is_alias w' name' alias' a ≡ false
  not_alias a h =
      let (front, same_alias) =
        &&-both (str_eq a.workspace_id w && str_eq a.name name) (str_eq a.alias alias) h in
      let (same_w, same_name) = &&-both (str_eq a.workspace_id w) (str_eq a.name name) front in
      rw
        (
          (eq_iff a.workspace_id w).0 same_w,
          (eq_iff a.name name).0 same_name,
          (eq_iff a.alias alias).0 same_alias,
        )
        other

  upsert_alias_other :
      (n : ℕ) (rows : List AliasRow)
      → alias_version w' name' alias' (upsert_alias w name alias n rows)
        ≡ alias_version w' name' alias' rows
  unfolding alias_version upsert_alias find_row
  upsert_alias_other n [] = rw other refl
  upsert_alias_other n (a ∷ rows) = elim (Bool-cases (is_alias w name alias a)) [
    | inl here ↦ rw (here, not_alias a here) refl
    | inr elsewhere ↦ rw elsewhere (elim (Bool-cases (is_alias w' name' alias' a)) [
      | inl found ↦ rw found refl
      | inr no' ↦ rw no' (upsert_alias_other n rows)
    ])
  ]

with_alias : String → String → String → ℕ → Registry → Registry
with_alias w name alias n db = record db { aliases = upsert_alias w name alias n db.aliases }

-- What a read gives, but for the aliases of the version.
abbrev pub without_aliases : Result ModelVersion → Result ModelVersion
without_aliases (ok v) = ok (record v { aliases = [] })
without_aliases (err e) = err e

same_row :
    (w : String) (rows rows' : List AliasRow) (o : Option ModelVersion)
    → without_aliases (version_read w rows o) ≡ without_aliases (version_read w rows' o)
unfolding version_read
same_row w rows rows' none = refl
same_row w rows rows' (some v) = refl

same_versions :
    (w name alias : String) (n : ℕ) (w' name' : String) (n' : ℕ) (db : Registry)
    → without_aliases (get_model_version w' name' n' (with_alias w name alias n db))
      ≡ without_aliases (get_model_version w' name' n' db)
unfolding get_model_version with_alias
same_versions w name alias n w' name' n' db =
    same_row (workspace_or_default w') (upsert_alias w name alias n db.aliases) db.aliases
      (find_row (is_version (workspace_or_default w') name' n') db.versions)

-- The sorted names are the same names.
any_row-insert_sorted :
    (p : String → Bool) (a : String) (names : List String)
    → any_row p (insert_sorted name_before a names) ≡ (p a || any_row p names)
unfolding any_row insert_sorted
any_row-insert_sorted p a [] = refl
any_row-insert_sorted p a (b ∷ names) = elim (Bool-cases (name_before a b)) [
  | inl first ↦ rw first refl
  | inr later ↦ rw later (ground (arith, any_row-insert_sorted p a names))
]

any_row-sort_rows :
    (p : String → Bool) (names : List String)
    → any_row p (sort_rows name_before names) ≡ any_row p names
unfolding any_row sort_rows
any_row-sort_rows p [] = refl
any_row-sort_rows p (a ∷ names) =
    any_row-insert_sorted p a (sort_rows name_before names)
    ∙ ap (λ b. p a || b) (any_row-sort_rows p names)

any_kept :
    (p : String → Bool) (b : Bool) (x : String) (rest : List String)
    → any_row p rest ≡ true
    → any_row p (if b then x ∷ rest else rest) ≡ true
unfolding any_row
any_kept p true x rest h = ground arith
any_kept p false x rest h = h

-- An alias that was set is one of its version.
upsert_alias_listed :
    (w name alias : String) (n : ℕ) (rows : List AliasRow)
    → any_row (str_eq alias) (aliases_of w name n (upsert_alias w name alias n rows)) ≡ true
unfolding any_row aliases_of upsert_alias
upsert_alias_listed w name alias n [] =
    let same : (n == n) ≡ true = ground arith in
    rw (eq_refl w, eq_refl name, same, eq_refl alias) refl
upsert_alias_listed w name alias n (a ∷ rows) = elim (Bool-cases (is_alias w name alias a)) [
  | inl here ↦
      let (front, same_alias) =
        &&-both (str_eq a.workspace_id w && str_eq a.name name) (str_eq a.alias alias) here in
      let same : (n == n) ≡ true = ground arith in
      let found : str_eq alias a.alias ≡ true =
        (eq_iff alias a.alias).1 (sym ((eq_iff a.alias alias).0 same_alias)) in
      rw here (rw (front, same, found) refl)
  | inr other ↦ rw other (
      any_kept (str_eq alias) ((str_eq a.workspace_id w && str_eq a.name name) && a.version == n)
        a.alias (aliases_of w name n (upsert_alias w name alias n rows))
        (upsert_alias_listed w name alias n rows))
]

resolved : String → String → Option ℕ → Registry → Result ModelVersion
resolved w name o db = elim o [ some n ↦ get_model_version w name n db | none ↦ err not_found ]

resolved-some :
    (w name : String) (n : ℕ) (db : Registry)
    → resolved w name (some n) db ≡ get_model_version w name n db
unfolding resolved
resolved-some w name n db = refl

get_model_by_alias-resolved :
    (w name alias : String) (db : Registry)
    → get_model_by_alias w name alias db
      ≡ resolved
          (workspace_or_default w)
          name
          (alias_version (workspace_or_default w) name alias db.aliases)
          db
unfolding get_model_by_alias resolved
get_model_by_alias-resolved w name alias db = refl

resolved_same :
    (w name alias : String) (n : ℕ) (w' name' : String) (o : Option ℕ) (db : Registry)
    → without_aliases (resolved w' name' o (with_alias w name alias n db))
      ≡ without_aliases (resolved w' name' o db)
unfolding resolved
resolved_same w name alias n w' name' none db = refl
resolved_same w name alias n w' name' (some m) db = same_versions w name alias n w' name' m db

-- The version of an alias that was set, with the alias among its own.
listed_version :
    (w name alias : String) (n : ℕ) (db : Registry) (v : ModelVersion)
    → get_model_version w name n db ≡ ok v
    → (v' : ModelVersion) × (get_model_version w name n
          (with_alias (workspace_or_default w) name alias n db)
        ≡ ok v')
      × (any_row (str_eq alias) v'.aliases ≡ true)
unfolding get_model_version with_alias version_read
listed_version w name alias n db v found =
    of_row (find_row (is_version (workspace_or_default w) name n) db.versions) found
      (find_row_holds (is_version (workspace_or_default w) name n) db.versions)
  where
    of_row :
        (o : Option ModelVersion)
        → version_read (workspace_or_default w) db.aliases o ≡ ok v
        → ((x : ModelVersion) → o ≡ some x → is_version (workspace_or_default w) name n x ≡ true)
        → (v' : ModelVersion) × (version_read
              (workspace_or_default w)
              (upsert_alias (workspace_or_default w) name alias n db.aliases)
              o
            ≡ ok v')
          × (any_row (str_eq alias) v'.aliases ≡ true)
    of_row none h keys = cc
    of_row (some x) h keys =
        let wd = workspace_or_default w in
        let rows = upsert_alias wd name alias n db.aliases in
        let (front, numbered) = &&-both (is_version_of wd name x) (x.version == n) (keys x refl) in
        let same_name =
          (eq_iff x.name name).0
            (&&-both (str_eq x.workspace_id wd) (str_eq x.name name) front).1 in
        let same_number : x.version ≡ n = ground (arith, numbered) in
        (
          with_aliases wd rows x,
          refl,
          any_row-sort_rows (str_eq alias) (aliases_of wd x.name x.version rows)
              ∙ rw (same_name, same_number) (upsert_alias_listed wd name alias n db.aliases),
        )

set_model_alias-cases :
    (w name alias : String) (n : ℕ) (db db' : Registry)
    → set_model_alias w name alias n db ≡ ok db'
    → (v : ModelVersion) × (get_model_version (workspace_or_default w) name n db ≡ ok v)
      × (db' ≡ with_alias (workspace_or_default w) name alias n db)
unfolding set_model_alias with_alias
set_model_alias-cases w name alias n db db' h =
    let (v, found, e) = >>=-eq-ok (get_model_version (workspace_or_default w) name n db) _ h in
    (v, found, sym (ok_inj e))

alias_rows :
    (w name alias : String) (n : ℕ) (db : Registry)
    → (with_alias w name alias n db).aliases ≡ upsert_alias w name alias n db.aliases
unfolding with_alias
alias_rows w name alias n db = refl

-- An alias is only set for a version that exists; from then on it resolves to that version, which has
-- the alias among its own and is otherwise what it was, and every other alias, of whatever model and
-- workspace, resolves as before, but for the aliases that the version it resolves to lists.
pub set_model_alias-get_model_by_alias :
    (w name alias w' name' alias' : String) (n : ℕ) (db db' : Registry)
    → ((str_eq (workspace_or_default w) (workspace_or_default w') && str_eq name name')
        && str_eq alias alias')
      ≡ false
    → set_model_alias w name alias n db ≡ ok db'
    → (v : ModelVersion) × (v' : ModelVersion) × (get_model_version w name n db ≡ ok v)
      × (get_model_version w name n db' ≡ ok v')
      × (get_model_by_alias w name alias db' ≡ ok v')
      × (any_row (str_eq alias) v'.aliases ≡ true)
      × (without_aliases (ok v') ≡ without_aliases (ok v))
      × (without_aliases (get_model_by_alias w' name' alias' db')
          ≡ without_aliases (get_model_by_alias w' name' alias' db))
set_model_alias-get_model_by_alias w name alias w' name' alias' n db db' other h =
    let wd = workspace_or_default w in
    let wd' = workspace_or_default w' in
    let (v, found, e) = set_model_alias-cases w name alias n db db' h in
    let after = with_alias wd name alias n db in
    let read = same_workspace w name n db ∙ found in
    let (v', read', listed) = listed_version w name alias n db v read in
    (
      v,
      v',
      read,
      rw e read',
      rw e (
          get_model_by_alias-resolved w name alias after
          ∙ ap (λ rows. resolved wd name (alias_version wd name alias rows) after)
              (alias_rows wd name alias n db)
          ∙ ap (λ o. resolved wd name o after) (upsert_alias_self wd name alias n db.aliases)
          ∙ resolved-some wd name n after
          ∙ sym (same_workspace w name n after)
          ∙ read'),
      listed,
      ap without_aliases (sym read')
          ∙ same_versions wd name alias n w name n db
          ∙ ap without_aliases read,
      rw e (
          ap without_aliases (
            get_model_by_alias-resolved w' name' alias' after
            ∙ ap (λ rows. resolved wd' name' (alias_version wd' name' alias' rows) after)
                (alias_rows wd name alias n db)
            ∙ ap (λ o. resolved wd' name' o after)
                (upsert_alias_other wd name alias wd' name' alias' other n db.aliases))
          ∙ resolved_same wd name alias n wd' name' (alias_version wd' name' alias' db.aliases) db
          ∙ ap without_aliases (sym (get_model_by_alias-resolved w' name' alias' db))),
    )

no_alias :
    (w name alias : String) (rows : List AliasRow)
    → alias_version w name alias (delete_rows (is_alias w name alias) rows) ≡ none
unfolding alias_version
no_alias w name alias rows =
    ap (Option.map (λ a. a.version))
      (find_row-delete_rows_self (is_alias w name alias) (is_alias w name alias) rows (λ a h. h))

delete_model_alias-cases :
    (w name alias : String) (db db' : Registry)
    → delete_model_alias w name alias db ≡ ok db'
    → db' ≡ record db {
      aliases = delete_rows (is_alias (workspace_or_default w) name alias) db.aliases;
    }
unfolding delete_model_alias
delete_model_alias-cases w name alias db db' h = ground arith

-- An alias that is deleted resolves to nothing.
pub delete_model_alias-get_model_by_alias :
    (w name alias : String) (db db' : Registry)
    → delete_model_alias w name alias db ≡ ok db'
    → get_model_by_alias w name alias db' ≡ err not_found
unfolding resolved
delete_model_alias-get_model_by_alias w name alias db db' h =
    let wd = workspace_or_default w in
    get_model_by_alias-resolved w name alias db'
    ∙ ap (λ rows. resolved wd name (alias_version wd name alias rows) db')
        (ap (λ r. r.aliases) (delete_model_alias-cases w name alias db db' h))
    ∙ ap (λ o. resolved wd name o db') (no_alias wd name alias db.aliases)
