-- ===== src/Store/Tests.antt =====
-- The store's theorems at concrete databases.
use litemlflow.Prelude.{
  ◌++◌, ℕ, ◌+◌, ◌<◌, true, false, [], ◌∷◌, none, ◌≡◌, ◌≢◌, refl, arith, Text, codes, text_eq, ok,
  err, not_found, find_row, any_row, select_rows, delete_rows, ◌&&◌, if◌then◌else◌,
}
use litemlflow.Model.{Experiment, Run, Workspace, WorkspaceMember}
use litemlflow.Model.Names.{valid_key, valid_name, has_control, trim_space, trim_left}
use litemlflow.Store.Db.{
  Db, tag_set, text, kv_value, upsert_kv, assert_run_exists, read_tag_value, write_run_event,
}
use litemlflow.Store.Runs.{set_tag, put_tag, tag_event, sync_parent_tag}
use litemlflow.Store.Replay.{tag_map, get_run_as_of_impl, load_run, in_workspace}
use litemlflow.Store.Replay.History.{here, then_call, Call}
use litemlflow.Store.Replay.AsOf.{get_run_as_of_impl-After}
use litemlflow.Store.Workspaces.{
  validate_workspace_id, all_slug, is_slug_char, create_workspace, Tables, default_workspace,
  has_id, owned_tables, owns_rows, get_workspace, delete_workspace, get_member_role, add_member,
  remove_member, upsert_member, valid_role,
}
use litemlflow.Store.Workspaces.Contents.{stored, create_workspace-get_workspace}
use litemlflow.Store.Workspaces.Deletion.{AreKept, delete_workspace-removes}
use litemlflow.Store.Workspaces.Membership.{add_member-get_member_role}

program : Unit {0}
unfolding set_tag put_tag tag_event sync_parent_tag valid_key valid_name has_control trim_space
    trim_left kv_value upsert_kv assert_run_exists read_tag_value write_run_event find_row any_row
    select_rows load_run in_workspace
program = tt

abbrev run : Run
run = record {
  id = "r";
  experiment_id = 1;
  name = "first";
  status = "RUNNING";
  start_time = 1000;
  end_time = none;
  artifact_uri = "";
  lifecycle_stage = "active";
  user_id = "";
  source_type = "";
  source_name = "";
  kind = "classic";
  parent_run_id = "";
}

abbrev experiment : Experiment
experiment = record {
  id = 1;
  name = "e";
  artifact_location = "";
  lifecycle_stage = "active";
  creation_time = 0;
  last_update_time = 0;
  workspace_id = "default";
}

abbrev before : Db
before = record {
  experiments = experiment ∷ [];
  runs = run ∷ [];
  tags = record { run_id = "r"; key = "a"; value = "old" } ∷ [];
  params = [];
  events = [];
}

abbrev clock : ℕ → ℕ
clock n = 2000 + n

abbrev after : Db
after = record before {
  tags = record { run_id = "r"; key = "a"; value = "new" } ∷ [];
  events =
      record {
        ts_ms = 2000;
        kind = tag_set;
        entity_id = "r";
        payload = record { before = text "old"; key = "a"; value = "new" };
      }
      ∷ [];
}

tagged : set_tag clock "r" (record { key = "a"; value = "new" }) before ≡ ok after
unfolding program
tagged = refl

late : (n : ℕ) → 1500 < clock n
late n = omega arith

loaded : load_run "r" "default" before ≡ ok run
unfolding program
loaded = refl

get_run_as_of_impl-After_example :
    get_run_as_of_impl "r" "default" 1500 after ≡ ok (run, tag_map "r" before)
unfolding program
get_run_as_of_impl-After_example =
    get_run_as_of_impl-After 1500 "r" "default" run before after
      (then_call clock here late (Call.tag "r" (record { key = "a"; value = "new" }) tagged)) loaded
      (omega arith) tt (tt, tt) (tt, tt) (omega arith)

tables_program : Unit {0}
unfolding text_eq delete_workspace owns_rows owned_tables any_row delete_rows select_rows add_member
    remove_member get_workspace upsert_member find_row
tables_program = tt

abbrev team : Text
team = codes "team"

abbrev bob : Text
bob = codes "bob"

abbrev ann : Text
ann = codes "ann"

abbrev workspace : Text → Workspace
workspace id = record {
  id = id;
  name = id;
  description = [];
  creation_time = 0;
  last_update_time = 0;
}

abbrev member : Text → Text → Text → WorkspaceMember
member w u role = record { workspace_id = w; user_id = u; role = role }

abbrev tables : Tables
tables = record {
  workspaces = workspace default_workspace ∷ workspace team ∷ [];
  members = member default_workspace ann (codes "admin") ∷ member team bob (codes "editor") ∷ [];
  experiments = default_workspace ∷ [];
  registered_models = [];
  prompts = [];
  datasets_v2 = [];
  webhooks = [];
  peers = [];
  dashboards = team ∷ default_workspace ∷ [];
}

abbrev without_team : Tables
without_team = record tables {
  workspaces = workspace default_workspace ∷ [];
  members = member default_workspace ann (codes "admin") ∷ [];
  dashboards = default_workspace ∷ [];
}

delete_workspace-removes_example :
    (team ≢ default_workspace)
    × (any_row (has_id team) tables.workspaces ≡ true)
    × (owns_rows team (owned_tables tables) ≡ false)
    × (get_workspace team without_team ≡ err not_found)
    × (get_member_role team bob without_team ≡ err not_found)
    × AreKept tables without_team
unfolding tables_program
delete_workspace-removes_example = delete_workspace-removes team bob tables without_team refl

abbrev promoted : Tables
promoted = record tables {
  members = member default_workspace ann (codes "admin") ∷ member team bob (codes "admin") ∷ [];
}

add_member-get_member_role_example :
    (valid_role (codes "admin") ≡ true)
    × ((row : Workspace) × (get_workspace team tables ≡ ok row))
    × (get_member_role team bob promoted ≡ (
        if text_eq team team && text_eq bob bob
        then ok (codes "admin")
        else get_member_role team bob tables))
unfolding tables_program
add_member-get_member_role_example =
    add_member-get_member_role team bob (codes "admin") team bob tables promoted refl

abbrev lab : Workspace
lab = workspace (codes "lab")

abbrev with_lab : Tables
with_lab = record tables {
  workspaces = tables.workspaces ++ record lab { creation_time = 70; last_update_time = 70 } ∷ [];
}

create_workspace-get_workspace_example :
    (validate_workspace_id (codes "lab") ≡ ok tt)
    × (get_workspace (codes "lab") tables ≡ err not_found)
    × (get_workspace (codes "lab") with_lab ≡ ok (stored 70 lab))
    × (get_workspace team with_lab ≡ get_workspace team tables)
unfolding tables_program validate_workspace_id all_slug is_slug_char create_workspace
create_workspace-get_workspace_example =
    create_workspace-get_workspace 70 lab team tables with_lab refl refl
