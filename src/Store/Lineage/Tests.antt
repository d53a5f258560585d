-- ===== src/Store/Lineage/Tests.antt =====
-- The lineage of a run whose ancestors form a circle, and whose parent has a child elsewhere.
use litemlflow.Prelude.{ℕ, String, true, false, [], ◌∷◌, none, ◌≡◌, refl, ok, find_row, ◌==◌}
use litemlflow.Model.{Run, Experiment, status_running, lifecycle_active, kind_classic}
use litemlflow.Store.Db.{Db}
use litemlflow.Store.Lineage.{
  LineageDirection, LineageOptions, RunLineage, DatasetTables, get_run_lineage_with_options,
  workspace_of,
}
use litemlflow.Store.Lineage.Isolation.{Shown, get_run_lineage_with_options-Shown}

abbrev run : String → ℕ → String → Run
run id experiment_id parent_run_id = record {
  id = id;
  experiment_id = experiment_id;
  name = "";
  status = status_running;
  start_time = 10;
  end_time = none;
  artifact_uri = "";
  lifecycle_stage = lifecycle_active;
  user_id = "";
  source_type = "";
  source_name = "";
  kind = kind_classic;
  parent_run_id = parent_run_id;
}

abbrev experiment : ℕ → String → Experiment
experiment id workspace_id = record {
  id = id;
  name = "e";
  artifact_location = "";
  lifecycle_stage = lifecycle_active;
  creation_time = 1;
  last_update_time = 1;
  workspace_id = workspace_id;
}

-- `a` and `b` are parents of one another; `x` of another workspace names `a` as its parent.
abbrev db : Db
db = record {
  experiments = experiment 1 "red" ∷ experiment 2 "blue" ∷ [];
  runs = run "a" 1 "b" ∷ run "b" 1 "a" ∷ run "x" 2 "a" ∷ run "c" 1 "a" ∷ [];
  tags = [];
  params = [];
  events = [];
}

abbrev tables : DatasetTables
tables = record {
  datasets_v2 =
      record { id = 5; workspace_id = "red"; name = "d"; content_hash = "h"; version = 2 } ∷ [];
  dataset_inputs_v2 = record { run_id = "a"; dataset_id = 5 } ∷ [];
  dataset_inputs =
      record { run_id = "a"; name = "d"; digest = "h" }
      ∷ record { run_id = "a"; name = "old"; digest = "k" }
      ∷ [];
}

abbrev options : LineageOptions
options = record {
  direction = LineageDirection.both_ways;
  descendant_depth = 0;
  max_nodes_per_level = 0;
}

abbrev lineage : RunLineage
lineage = record {
  run = run "a" 1 "b";
  ancestors = run "b" 1 "a" ∷ [];
  descendants = run "c" 1 "a" ∷ run "b" 1 "a" ∷ [];
  datasets =
      record { run_id = "a"; name = "d"; version = 2; digest = "h"; dataset_id = 5 }
      ∷ record { run_id = "a"; name = "old"; version = 0; digest = "k"; dataset_id = 0 }
      ∷ [];
  truncated = false;
}

answered : get_run_lineage_with_options "a" options db tables ≡ ok lineage
unfolding get_run_lineage_with_options
answered = refl

get_run_lineage_with_options-Shown_example :
    (workspace : String) × (workspace_of (find_row (λ e. e.id == 1) db.experiments) ≡ ok workspace)
    × Shown "a" workspace db 256 lineage.ancestors
    × Shown "a" workspace db 1600 lineage.descendants
get_run_lineage_with_options-Shown_example =
    get_run_lineage_with_options-Shown "a" options db tables lineage answered

-- A child that has no children counts as truncated at the last level.
truncated_leaf :
    get_run_lineage_with_options "c"
      (record options { descendant_depth = 1 })
      (record db { runs = run "c" 1 "" ∷ run "d" 1 "c" ∷ [] })
      tables
    ≡ ok (record {
      run = run "c" 1 "";
      ancestors = [];
      descendants = run "d" 1 "c" ∷ [];
      datasets = [];
      truncated = true;
    })
unfolding get_run_lineage_with_options
truncated_leaf = refl
