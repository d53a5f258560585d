-- ===== src/Store/Registry.antt =====
-- internal/store/registry.go: registered models, their versions with stages, and aliases. (The tags
-- of models and versions are left out, and the latest versions of a model.) The rows of models and
-- versions have no aliases of their own; a read fills them in.
pub mod Rows
pub mod Stages
pub mod Versions
pub mod Aliases
pub mod Tests
use litemlflow.Prelude.{
  ℕ, ◌+◌, String, Bool, true, false, not, ◌&&◌, List, [], ◌∷◌, ◌++◌, Option, none, some, ◌≡◌, refl,
  ◌==◌, ◌||◌, ltb, leb, Text, codes, sort_rows, Result, ok, err, not_found, already_exists,
  invalid_stage, constraint_failed, ◌>>=◌, ◌>>◌, guard, str_eq, find_row, any_row, update_rows,
  delete_rows, if◌then◌else◌,
}
use litemlflow.Model.{
  ModelAlias, RegisteredModel, ModelVersion, valid_stage, stage_none, stage_production,
  stage_archived,
}
use litemlflow.Model.Names.{valid_name}

-- A row of `model_aliases`.
pub record AliasRow : Type 0 where
  pub workspace_id : String
  pub name : String
  pub alias : String
  pub version : ℕ

pub record Registry : Type 0 where
  pub models : List RegisteredModel
  pub versions : List ModelVersion
  pub aliases : List AliasRow

abbrev pub workspace_or_default : String → String
workspace_or_default w = if str_eq w "" then "default" else w

-- The keys that the WHERE clauses compare.
abbrev pub is_model : String → String → RegisteredModel → Bool
is_model w name m = str_eq m.workspace_id w && str_eq m.name name

abbrev pub is_version_of : String → String → ModelVersion → Bool
is_version_of w name v = str_eq v.workspace_id w && str_eq v.name name

abbrev pub is_version : String → String → ℕ → ModelVersion → Bool
is_version w name n v = is_version_of w name v && v.version == n

-- `CreateRegisteredModel`
unfoldable pub create_registered_model : ℕ → String → RegisteredModel → Registry → Result Registry
create_registered_model now w₀ m db = do
  let w = workspace_or_default w₀
  valid_name m.name 250
  guard (not (any_row (is_model w m.name) db.models)) already_exists
  ok (record db {
    models =
        db.models
        ++ record m {
          workspace_id = w;
          aliases = [];
          creation_time = if m.creation_time == 0 then now else m.creation_time;
          last_update_time = if m.last_update_time == 0 then now else m.last_update_time;
        }
          ∷ [];
  })

unfoldable pub text_before : Text → Text → Bool
text_before [] [] = false
text_before [] (_ ∷ _) = true
text_before (_ ∷ _) [] = false
text_before (c ∷ s) (d ∷ t) = ltb c d || (c == d && text_before s t)

abbrev pub name_before : String → String → Bool
name_before a b = text_before (codes a) (codes b)

abbrev pub alias_before : ModelAlias → ModelAlias → Bool
alias_before a b = name_before a.alias b.alias

-- SELECT alias, version FROM model_aliases WHERE …, for one model
unfoldable pub model_aliases_of : String → String → List AliasRow → List ModelAlias
model_aliases_of w name [] = []
model_aliases_of w name (a ∷ rows) =
    let rest = model_aliases_of w name rows in
    if str_eq a.workspace_id w && str_eq a.name name
    then record { alias = a.alias; version = a.version } ∷ rest
    else rest

-- `GetRegisteredModel`
unfoldable pub get_registered_model : String → String → Registry → Result RegisteredModel
get_registered_model w₀ name db =
    let w = workspace_or_default w₀ in
    elim (find_row (is_model w name) db.models) [
      | some m ↦
          ok (record m { aliases = sort_rows alias_before (model_aliases_of w m.name db.aliases) })
      | none ↦ err not_found
    ]

-- `UpdateRegisteredModel`: the state, and what the method reads back from it.
unfoldable pub update_registered_model :
    ℕ → String → String → Option String → Registry → Result (Registry × RegisteredModel)
update_registered_model now w name none db = do m ← get_registered_model w name db; ok (db, m)
update_registered_model now w name (some description) db =
    let p = is_model (workspace_or_default w) name in
    let db' = record db {
      models =
          update_rows p (λ m. record m { description = description; last_update_time = now })
            db.models;
    } in
    if not (any_row p db.models)
    then err not_found
    else do m ← get_registered_model w name db'; ok (db', m)

-- `DeleteRegisteredModel`: the versions and the aliases go by ON DELETE CASCADE.
unfoldable pub delete_registered_model : String → String → Registry → Result Registry
delete_registered_model w₀ name db =
    let w = workspace_or_default w₀ in
    if not (any_row (is_model w name) db.models)
    then err not_found
    else ok (record db {
      models = delete_rows (is_model w name) db.models;
      versions = delete_rows (is_version_of w name) db.versions;
      aliases = delete_rows (λ a. str_eq a.workspace_id w && str_eq a.name name) db.aliases;
    })

-- SELECT COALESCE(MAX(version), 0) …
unfoldable pub max_version : String → String → List ModelVersion → ℕ
max_version w name [] = 0
max_version w name (v ∷ vs) =
    let rest = max_version w name vs in
    if is_version_of w name v then if leb v.version rest then rest else v.version else rest

abbrev pub or_else : String → String → String
or_else s d = if str_eq s "" then d else s

-- The row that `CreateModelVersion` inserts.
unfoldable pub new_version : ℕ → String → ModelVersion → Registry → ModelVersion
unfolding max_version
new_version now w v db = record v {
  workspace_id = w;
  version = max_version w v.name db.versions + 1;
  current_stage = or_else v.current_stage stage_none;
  status = or_else v.status "READY";
  aliases = [];
  creation_time = if v.creation_time == 0 then now else v.creation_time;
  last_update_time = if v.last_update_time == 0 then now else v.last_update_time;
}

abbrev pub valid_version_status : String → Bool
valid_version_status s =
    if str_eq s "READY" then true else if str_eq s "PENDING" then true else str_eq s "FAILED"

-- SELECT alias FROM model_aliases WHERE …, for one version
unfoldable pub aliases_of : String → String → ℕ → List AliasRow → List String
aliases_of w name n [] = []
aliases_of w name n (a ∷ rows) =
    let rest = aliases_of w name n rows in
    if (str_eq a.workspace_id w && str_eq a.name name) && a.version == n
    then a.alias ∷ rest
    else rest

-- `loadModelVersionMeta`, for one version
abbrev pub with_aliases : String → List AliasRow → ModelVersion → ModelVersion
with_aliases w rows v = record v {
  aliases = sort_rows name_before (aliases_of w v.name v.version rows);
}

unfoldable pub version_read : String → List AliasRow → Option ModelVersion → Result ModelVersion
version_read w rows none = err not_found
version_read w rows (some v) = ok (with_aliases w rows v)

-- `GetModelVersion`
unfoldable pub get_model_version : String → String → ℕ → Registry → Result ModelVersion
get_model_version w₀ name n db =
    let w = workspace_or_default w₀ in
    version_read w db.aliases (find_row (is_version w name n) db.versions)

-- `CreateModelVersion`, with the CHECK constraints of the table
unfoldable pub create_model_version :
    ℕ → String → ModelVersion → Registry → Result (Registry × ModelVersion)
unfolding new_version
create_model_version now w₀ v db = do
  let w = workspace_or_default w₀
  let row = new_version now w v db
  let db' = record db { versions = db.versions ++ row ∷ [] }
  valid_name v.name 250
  _ ← get_registered_model w v.name db
  guard (valid_stage row.current_stage && valid_version_status row.status) constraint_failed
  stored ← get_model_version w v.name row.version db'
  ok (db', stored)

-- `UpdateModelVersion`
unfoldable pub update_model_version :
    ℕ → String → String → ℕ → Option String → Registry → Result (Registry × ModelVersion)
update_model_version now w name n none db = do v ← get_model_version w name n db; ok (db, v)
update_model_version now w name n (some description) db =
    let p = is_version (workspace_or_default w) name n in
    let db' = record db {
      versions =
          update_rows p (λ v. record v { description = description; last_update_time = now })
            db.versions;
    } in
    if not (any_row p db.versions)
    then err not_found
    else do v ← get_model_version w name n db'; ok (db', v)

-- `DeleteModelVersion`: the aliases of the version go by ON DELETE CASCADE.
unfoldable pub delete_model_version : String → String → ℕ → Registry → Result Registry
delete_model_version w₀ name n db =
    let w = workspace_or_default w₀ in
    if not (any_row (is_version w name n) db.versions)
    then err not_found
    else ok (record db {
      versions = delete_rows (is_version w name n) db.versions;
      aliases =
          delete_rows (λ a. str_eq a.workspace_id w && str_eq a.name name && a.version == n)
            db.aliases;
    })

-- The statement that archives the production versions other than `n`.
unfoldable pub is_superseded : String → String → ℕ → ModelVersion → Bool
is_superseded w name n v =
    is_version_of w name v && str_eq v.current_stage stage_production && not (v.version == n)

abbrev pub with_stage : ℕ → String → ModelVersion → ModelVersion
with_stage now stage v = record v { current_stage = stage; last_update_time = now }

unfoldable pub archived :
    ℕ → String → String → ℕ → String → Bool → List ModelVersion → List ModelVersion
unfolding is_superseded
archived now w name n stage archive_existing vs =
    if archive_existing && str_eq stage stage_production
    then update_rows (is_superseded w name n) (with_stage now stage_archived) vs
    else vs

-- `TransitionModelStage`
unfoldable pub transition_model_stage :
    ℕ → String → String → ℕ → String → Bool → Registry → Result (Registry × ModelVersion)
unfolding archived
transition_model_stage now w₀ name n stage archive_existing db =
    let w = workspace_or_default w₀ in
    let vs = archived now w name n stage archive_existing db.versions in
    let db' = record db {
      versions = update_rows (is_version w name n) (with_stage now stage) vs;
    } in
    if not (valid_stage stage)
    then err invalid_stage
    else if not (any_row (is_version w name n) vs)
    then err not_found
    else do v ← get_model_version w name n db'; ok (db', v)
