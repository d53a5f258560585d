-- ===== src/Store/Registry/Versions.antt =====
-- The numbers of new versions.

use litemlflow.Prelude.{
  ℕ, ◌+◌, ◌<◌, String, true, false, ◌&&◌, List, [], ◌∷◌, ◌++◌, Option, none, some, ◌≡◌, refl, sym,
  ap, ◌∙◌, ◌==◌, ok, err, not_found, find_row, find_row-append, if◌then◌else◌, arith, Bool-cases,
  inl, inr, leb, eq_refl, eq_iff, str_eq, Bool, &&-both, >>=-eq-ok, >>-eq-ok, ok_inj, guard,
  constraint_failed,
}
use litemlflow.Model.{ModelVersion, valid_stage}
use litemlflow.Model.Names.{valid_name}
use litemlflow.Store.Registry.Rows.{both_equal, same_workspace, workspace_or_default_twice}
use litemlflow.Store.Registry.{
  get_registered_model, valid_version_status, Registry, workspace_or_default, is_version_of,
  is_version, max_version, new_version, with_aliases, version_read, get_model_version,
  create_model_version,
}

larger : (m r n : ℕ) → (if leb m r then r else m) < n → (r < n) × ((m == n) ≡ false)
larger m r n h = ground arith

-- A number above the maximum is not taken.
above_max :
    (w name : String) (vs : List ModelVersion) (n : ℕ)
    → max_version w name vs < n
    → find_row (is_version w name n) vs ≡ none
unfolding max_version find_row
above_max w name [] n h = refl
above_max w name (v ∷ vs) n h = elim (Bool-cases (is_version_of w name v)) [
  | inl own ↦
      let (below, apart) =
        larger v.version (max_version w name vs) n (rw (own, max_version) at h) in
      rw (own, apart) (above_max w name vs n below)
  | inr other ↦ rw other (above_max w name vs n (rw (other, max_version) at h))
]

new_version_own :
    (now : ℕ) (w : String) (v : ModelVersion) (db : Registry)
    → is_version w v.name (max_version w v.name db.versions + 1) (new_version now w v db) ≡ true
unfolding new_version
new_version_own now w v db = rw (eq_refl w, eq_refl v.name) (ground arith)

abbrev added : ModelVersion → Registry → Registry
added row db = record db { versions = db.versions ++ row ∷ [] }

read_new :
    (now : ℕ) (w : String) (v : ModelVersion) (db : Registry)
    → find_row
        (is_version w v.name (max_version w v.name db.versions + 1))
        (added (new_version now w v db) db).versions
      ≡ some (new_version now w v db)
unfolding find_row
read_new now w v db =
    find_row-append (is_version w v.name (max_version w v.name db.versions + 1)) db.versions
      (new_version now w v db ∷ [])
    ∙ rw
        (
          above_max w v.name db.versions (max_version w v.name db.versions + 1) (omega arith),
          new_version_own now w v db,
        )
        refl

create_model_version-cases :
    (now : ℕ) (w : String) (v r : ModelVersion) (db db' : Registry)
    → create_model_version now w v db ≡ ok (db', r)
    → (db' ≡ added (new_version now (workspace_or_default w) v db) db)
      × (get_model_version
            (workspace_or_default w)
            v.name
            (new_version now (workspace_or_default w) v db).version
            db'
          ≡ ok r)
unfolding create_model_version
create_model_version-cases now w v r db db' h =
    let w' = workspace_or_default w in
    let row = new_version now w' v db in
    let (_, h₁) = >>-eq-ok (valid_name v.name 250) _ h in
    let (_, _, h₂) = >>=-eq-ok (get_registered_model w' v.name db) _ h₁ in
    let (_, h₃) =
      >>-eq-ok
        (guard (valid_stage row.current_stage && valid_version_status row.status) constraint_failed)
        _ h₂ in
    let (x, read, e) = >>=-eq-ok (get_model_version w' v.name row.version (added row db)) _ h₃ in
    let (e₁, e₂) = both_equal (ok_inj e) in
    (sym e₁, sym (ap (get_model_version w' v.name row.version) e₁) ∙ read ∙ ap ok e₂)

new_version-version :
    (now : ℕ) (w : String) (v : ModelVersion) (db : Registry)
    → (new_version now w v db).version ≡ max_version w v.name db.versions + 1
unfolding new_version
new_version-version now w v db = refl

read_back :
    (now : ℕ) (w : String) (v : ModelVersion) (db : Registry)
    → get_model_version
        (workspace_or_default w)
        v.name
        (max_version (workspace_or_default w) v.name db.versions + 1)
        (added (new_version now (workspace_or_default w) v db) db)
      ≡ ok (
          with_aliases
            (workspace_or_default w)
            db.aliases
            (new_version now (workspace_or_default w) v db))
unfolding get_model_version version_read
read_back now w v db =
    rw (workspace_or_default_twice w, read_new now (workspace_or_default w) v db) refl

not_taken :
    (w name : String) (db : Registry)
    → get_model_version w name (max_version (workspace_or_default w) name db.versions + 1) db
      ≡ err not_found
unfolding get_model_version version_read
not_taken w name db =
    rw
      (above_max (workspace_or_default w) name db.versions
        (max_version (workspace_or_default w) name db.versions + 1) (omega arith))
      refl

-- Whether a read asks for the version of a row.
abbrev pub asks_for : String → String → ℕ → ModelVersion → Bool
asks_for w name n v =
    (str_eq v.workspace_id (workspace_or_default w) && str_eq v.name name) && v.version == n

-- A version that a read does not ask for is not seen by it.
not_asked :
    (w name : String) (n : ℕ) (row : ModelVersion) (db : Registry)
    → asks_for w name n row ≡ false
    → get_model_version w name n (added row db) ≡ get_model_version w name n db
unfolding get_model_version find_row
not_asked w name n row db other = ap (version_read (workspace_or_default w) db.aliases) (
    find_row-append (is_version (workspace_or_default w) name n) db.versions (row ∷ [])
    ∙ same (find_row (is_version (workspace_or_default w) name n) db.versions) (rw other refl))
  where
    same :
        (o : Option ModelVersion) {rest : Option ModelVersion}
        → rest ≡ none
        → elim o [ some x ↦ some x | none ↦ rest ] ≡ o
    same none h = h
    same (some x) h = refl

new_version-keys :
    (now : ℕ) (w : String) (v : ModelVersion) (db : Registry)
    → ((new_version now w v db).workspace_id ≡ w) × ((new_version now w v db).name ≡ v.name)
unfolding new_version
new_version-keys now w v db = (refl, refl)

-- A read that asks for a version reads it.
asked_read :
    (r : ModelVersion) (w name w' name' : String) (n' : ℕ) (db : Registry)
    → r.workspace_id ≡ workspace_or_default w
    → r.name ≡ name
    → asks_for w' name' n' r ≡ true
    → get_model_version w name r.version db ≡ ok r
    → get_model_version w' name' n' db ≡ ok r
asked_read r w name w' name' n' db own named asked read =
    let (front, numbered) =
      &&-both (str_eq r.workspace_id (workspace_or_default w') && str_eq r.name name')
        (r.version == n') asked in
    let (same_w, same_name) =
      &&-both (str_eq r.workspace_id (workspace_or_default w')) (str_eq r.name name') front in
    let workspace : workspace_or_default w' ≡ workspace_or_default w =
      sym ((eq_iff r.workspace_id (workspace_or_default w')).0 same_w) ∙ own in
    let model : name' ≡ name = sym ((eq_iff r.name name').0 same_name) ∙ named in
    let number : n' ≡ r.version = ground (arith, numbered) in
    same_workspace w' name' n' db
    ∙ rw (workspace, model, number) (sym (same_workspace w name r.version db) ∙ read)

-- A version that is created has the number after the highest one of its model, which no version
-- had, is what a read of that number gives from then on, and every read of any other version, of
-- whatever model and workspace, gives what it gave before.
pub create_model_version-get_model_version :
    (now : ℕ) (w w' name' : String) (n' : ℕ) (v r : ModelVersion) (db db' : Registry)
    → create_model_version now w v db ≡ ok (db', r)
    → (r.version ≡ max_version (workspace_or_default w) v.name db.versions + 1)
      × (get_model_version w v.name r.version db ≡ err not_found)
      × (get_model_version w v.name r.version db' ≡ ok r)
      × (get_model_version w' name' n' db'
          ≡ (if asks_for w' name' n' r then ok r else get_model_version w' name' n' db))
create_model_version-get_model_version now w w' name' n' v r db db' h =
    let (e, read) = create_model_version-cases now w v r db db' h in
    let wd = workspace_or_default w in
    let row = new_version now wd v db in
    let n = max_version wd v.name db.versions + 1 in
    let numbered = new_version-version now wd v db in
    let keys = new_version-keys now wd v db in
    let read_n = ap (λ k. get_model_version wd v.name k db') (sym numbered) ∙ read in
    let same : with_aliases wd db.aliases row ≡ r =
      ok_inj (sym (read_back now w v db) ∙ ap (get_model_version wd v.name n) (sym e) ∙ read_n) in
    let version = ap (λ x. x.version) (sym same) ∙ numbered in
    let stored =
      same_workspace w v.name r.version db'
      ∙ ap (λ k. get_model_version wd v.name k db') version
      ∙ read_n in
    (
      version,
      ap (λ k. get_model_version w v.name k db) version ∙ not_taken w v.name db,
      stored,
      elim (Bool-cases (asks_for w' name' n' r)) [
        | inl asked ↦ rw asked (
            asked_read r w v.name w' name' n' db' (ap (λ x. x.workspace_id) (sym same) ∙ keys.0)
              (ap (λ x. x.name) (sym same) ∙ keys.1) asked stored)
        | inr other ↦ rw other (
            ap (get_model_version w' name' n') e
            ∙ not_asked w' name' n' row db (ap (asks_for w' name' n') same ∙ other))
      ],
    )
