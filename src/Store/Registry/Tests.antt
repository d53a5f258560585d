-- ===== src/Store/Registry/Tests.antt =====
-- The theorems on the registry at a concrete state.
use litemlflow.Prelude.{
  sort_rows, str_eq, if◌then◌else◌, delete_rows, select_rows, ℕ, ◌+◌, String, true, false, [], ◌∷◌,
  ◌++◌, ◌≡◌, refl, ok, err, not_found, find_row, any_row, update_rows,
}
use litemlflow.Model.{RegisteredModel, ModelVersion, valid_stage}
use litemlflow.Model.Names.{valid_name, has_control}
use litemlflow.Store.Registry.{
  AliasRow, Registry, workspace_or_default, get_registered_model, max_version, new_version,
  aliases_of, version_read, get_model_version, create_model_version, is_superseded, archived,
  transition_model_stage,
}
use litemlflow.Store.Registry.Aliases.{
  without_aliases, upsert_alias, set_model_alias, delete_model_alias, get_model_by_alias,
  set_model_alias-get_model_by_alias,
}
use litemlflow.Store.Registry.Stages.{transition_model_stage-any_row, transition_model_stage-stage}
use litemlflow.Store.Registry.Versions.{asks_for, create_model_version-get_model_version}

program : Unit {0}
unfolding valid_stage valid_name has_control get_registered_model max_version new_version
    get_model_version create_model_version is_superseded archived transition_model_stage find_row
    any_row update_rows version_read aliases_of sort_rows
program = tt

abbrev version : String → ℕ → String → ℕ → ModelVersion
version name n stage updated = record {
  workspace_id = "default";
  name = name;
  version = n;
  description = "";
  user_id = "";
  current_stage = stage;
  source = "s3://m";
  run_id = "";
  status = "READY";
  status_message = "";
  creation_time = 10;
  last_update_time = updated;
  aliases = [];
}

abbrev model : RegisteredModel
model = record {
  workspace_id = "default";
  name = "m";
  description = "";
  creation_time = 10;
  last_update_time = 10;
  aliases = [];
}

abbrev registry : Registry
registry = record {
  models = model ∷ [];
  versions =
      version "m" 1 "Production" 10
      ∷ version "m" 2 "Staging" 10
      ∷ version "k" 1 "Production" 10
      ∷ [];
  aliases = [];
}

abbrev promoted : Registry
promoted = record registry {
  versions =
      version "m" 1 "Archived" 50
      ∷ version "m" 2 "Production" 50
      ∷ version "k" 1 "Production" 10
      ∷ [];
}

transition_model_stage-any_row_example :
    any_row (is_superseded (workspace_or_default "") "m" 2) promoted.versions ≡ false
unfolding program
transition_model_stage-any_row_example =
    transition_model_stage-any_row 50 "" "m" 2 registry promoted (version "m" 2 "Production" 50)
      refl

transition_model_stage-stage_example :
    (valid_stage "Production" ≡ true)
    × (get_model_version "" "m" 2 promoted ≡ ok (version "m" 2 "Production" 50))
    × ((version "m" 2 "Production" 50).current_stage ≡ "Production")
    × (get_model_version "default" "k" 1 promoted ≡ get_model_version "default" "k" 1 registry)
    × (promoted.models ≡ registry.models)
    × (promoted.aliases ≡ registry.aliases)
unfolding program
transition_model_stage-stage_example =
    transition_model_stage-stage 50 "" "m" "default" "k" 2 1 "Production" true registry promoted
      (version "m" 2 "Production" 50) refl refl

abbrev registered : Registry
registered = record registry { versions = registry.versions ++ version "m" 3 "None" 10 ∷ [] }

create_model_version-get_model_version_example :
    ((version "m" 3 "None" 10).version
      ≡ max_version (workspace_or_default "") "m" registry.versions + 1)
    × (get_model_version "" "m" 3 registry ≡ err not_found)
    × (get_model_version "" "m" 3 registered ≡ ok (version "m" 3 "None" 10))
    × (get_model_version "" "m" 2 registered ≡ (
        if asks_for "" "m" 2 (version "m" 3 "None" 10)
        then ok (version "m" 3 "None" 10)
        else get_model_version "" "m" 2 registry))
unfolding program
create_model_version-get_model_version_example =
    create_model_version-get_model_version 50 "" "" "m" 2 (version "m" 0 "" 10)
      (version "m" 3 "None" 10) registry registered refl

abbrev champion : ℕ → AliasRow
champion n = record { workspace_id = "default"; name = "m"; alias = "champion"; version = n }

abbrev aliased : Registry
aliased = record registry { aliases = champion 1 ∷ [] }

abbrev moved : Registry
moved = record registry { aliases = champion 2 ∷ [] }

alias_program : Unit {0}
unfolding set_model_alias upsert_alias delete_model_alias delete_rows select_rows get_model_version
    find_row any_row version_read
alias_program = tt

set_model_alias-get_model_by_alias_example :
    (v : ModelVersion) × (v' : ModelVersion) × (get_model_version "" "m" 2 aliased ≡ ok v)
    × (get_model_version "" "m" 2 moved ≡ ok v')
    × (get_model_by_alias "" "m" "champion" moved ≡ ok v')
    × (any_row (str_eq "champion") v'.aliases ≡ true)
    × (without_aliases (ok v') ≡ without_aliases (ok v))
    × (without_aliases (get_model_by_alias "" "k" "champion" moved)
        ≡ without_aliases (get_model_by_alias "" "k" "champion" aliased))
unfolding alias_program
set_model_alias-get_model_by_alias_example =
    set_model_alias-get_model_by_alias "" "m" "champion" "" "k" "champion" 2 aliased moved refl refl
