-- ===== src/Store/Lineage.antt =====
-- internal/store/sqlite_lineage.go: the ancestors, descendants and datasets of a run.
pub mod Up
pub mod Down
pub mod Isolation
pub mod Tests
use litemlflow.Prelude.{
  ℕ, zero, suc, ◌+◌, String, Bool, true, false, not, ◌&&◌, ◌||◌, List, [], ◌∷◌, ◌++◌, Option, none,
  some, ltb, leb, ◌==◌, if◌then◌else◌, length, take, str_eq, Result, ok, err, ◌>>=◌, not_found,
  find_row, any_row, select_rows, sort_rows, Text, codes, text_eq,
}
use litemlflow.Model.{Experiment, Run, lifecycle_active}
use litemlflow.Store.Db.{Db, find_run}
use litemlflow.Store.Replay.{in_workspace, load_run}

-- Whether a map from ids has the key.
unfoldable pub is_visited : String → List String → Bool
is_visited id [] = false
is_visited id (seen ∷ ids) = str_eq seen id || is_visited id ids

abbrev pub max_ancestor_depth : ℕ
max_ancestor_depth = 256

abbrev pub found : Result Run → Option Run
found (err _) = none
found (ok run) = some run

-- The loop of `walkAncestors`, with the number of ancestors that still fit. Every way out of the
-- loop, an error of the read included, gives the ancestors that were found.
unfoldable pub walk_up : ℕ → List String → String → String → Db → List Run
unfolding is_visited load_run
walk_up zero visited workspace cur db = []
walk_up (suc room) visited workspace cur db =
    if str_eq cur "" || is_visited cur visited
    then []
    else elim (found (load_run cur workspace db)) [
      | none ↦ []
      | some p ↦ p ∷ walk_up room (cur ∷ visited) workspace p.parent_run_id db
    ]

-- `walkAncestors`
unfoldable pub walk_ancestors : Run → String → String → Db → List Run
unfolding walk_up
walk_ancestors run self_id workspace db =
    walk_up max_ancestor_depth (self_id ∷ []) workspace run.parent_run_id db

-- A row of the query of a level: an active run below the frontier, in the workspace.
unfoldable pub is_child : List String → String → List Experiment → Run → Bool
unfolding is_visited in_workspace
is_child frontier workspace experiments r =
    is_visited r.parent_run_id frontier
    && (str_eq r.lifecycle_stage lifecycle_active
        && in_workspace workspace r.experiment_id experiments)

abbrev pub starts_before : Run → Run → Bool
starts_before a b = ltb a.start_time b.start_time

-- The query of a level, with its LIMIT.
unfoldable pub children_of : List String → String → ℕ → Db → List Run
unfolding is_child select_rows sort_rows
children_of frontier workspace max_fan_out db =
    take (suc max_fan_out)
      (sort_rows starts_before (select_rows (is_child frontier workspace db.experiments) db.runs))

-- What the loop over the rows of a level carries: the map of visited runs, the runs of this level,
-- and whether one was left out.
pub record Level : Type 0 where
  pub visited : List String
  pub new : List Run
  pub truncated : Bool

unfoldable pub add_child : ℕ → Run → Level → Level
unfolding is_visited
add_child max_fan_out r l =
    if is_visited r.id l.visited
    then l
    else if leb max_fan_out (length l.new)
    then record l { truncated = true }
    else record l { visited = r.id ∷ l.visited; new = l.new ++ (r ∷ []) }

unfoldable pub add_children : ℕ → List Run → Level → Level
unfolding add_child
add_children max_fan_out [] l = l
add_children max_fan_out (r ∷ rows) l = add_children max_fan_out rows (add_child max_fan_out r l)

unfoldable pub ids_of : List Run → List String
ids_of [] = []
ids_of (r ∷ runs) = r.id ∷ ids_of runs

abbrev pub is_none_left : List String → Bool
is_none_left [] = true
is_none_left (_ ∷ _) = false

-- The loop of `walkDescendants` over the levels that are left: the runs it adds, and whether the
-- walk was truncated.
unfoldable pub walk_levels :
    ℕ → ℕ → List String → List String → Bool → String → Db → List Run × Bool
unfolding children_of add_children ids_of
walk_levels zero max_fan_out visited frontier truncated workspace db =
    ([], truncated || not (is_none_left frontier))
walk_levels (suc depth) max_fan_out visited frontier truncated workspace db =
    let rows = children_of frontier workspace max_fan_out db in
    let l =
      add_children max_fan_out rows
        (record { visited = visited; new = []; truncated = truncated }) in
    let (below, cut) =
      walk_levels depth max_fan_out l.visited (ids_of l.new) l.truncated workspace db in
    if is_none_left frontier then ([], truncated) else (l.new ++ below, cut)

-- `walkDescendants`
unfoldable pub walk_descendants : String → String → ℕ → ℕ → Db → List Run × Bool
unfolding walk_levels
walk_descendants root_id workspace max_depth max_fan_out db =
    walk_levels max_depth max_fan_out (root_id ∷ []) (root_id ∷ []) false workspace db

-- The tables of datasets, and those that link runs to them.
pub record Dataset : Type 0 where
  pub id : ℕ
  pub workspace_id : String
  pub name : String
  pub content_hash : String
  pub version : ℕ

pub record DatasetInput : Type 0 where
  pub run_id : String
  pub dataset_id : ℕ

pub record LegacyInput : Type 0 where
  pub run_id : String
  pub name : String
  pub digest : String

pub record DatasetTables : Type 0 where
  pub datasets_v2 : List Dataset
  pub dataset_inputs_v2 : List DatasetInput
  pub dataset_inputs : List LegacyInput

pub record DatasetEdge : Type 0 where
  pub run_id : String
  pub name : String
  pub version : ℕ
  pub digest : String
  pub dataset_id : ℕ

abbrev pub edge_to : String → Dataset → DatasetEdge
edge_to run_id d = record {
  run_id = run_id;
  name = d.name;
  version = d.version;
  digest = d.content_hash;
  dataset_id = d.id;
}

unfoldable pub edges_to : String → List Dataset → List DatasetEdge
edges_to run_id [] = []
edges_to run_id (d ∷ datasets) = edge_to run_id d ∷ edges_to run_id datasets

-- The join of the links of a run with the datasets of the workspace.
unfoldable pub linked_edges : String → String → List Dataset → List DatasetInput → List DatasetEdge
unfolding select_rows edges_to
linked_edges run_id workspace datasets [] = []
linked_edges run_id workspace datasets (i ∷ inputs) =
    let rest = linked_edges run_id workspace datasets inputs in
    let here =
      edges_to run_id
        (select_rows (λ d. d.id == i.dataset_id && str_eq d.workspace_id workspace) datasets) in
    if str_eq i.run_id run_id then here ++ rest else rest

abbrev pub or_unversioned : LegacyInput → List DatasetEdge → List DatasetEdge
or_unversioned i [] =
    record { run_id = i.run_id; name = i.name; version = 0; digest = i.digest; dataset_id = 0 } ∷ []
or_unversioned i (e ∷ edges) = e ∷ edges

-- The left join of the older links.
unfoldable pub legacy_edges : String → String → List Dataset → List LegacyInput → List DatasetEdge
unfolding select_rows edges_to
legacy_edges run_id workspace datasets [] = []
legacy_edges run_id workspace datasets (i ∷ inputs) =
    let rest = legacy_edges run_id workspace datasets inputs in
    let joined =
      select_rows
        (λ d.
          str_eq d.name i.name
          && (str_eq d.content_hash i.digest && str_eq d.workspace_id workspace))
        datasets in
    if str_eq i.run_id run_id then or_unversioned i (edges_to run_id joined) ++ rest else rest

-- The key of the map of edges that were seen.
abbrev pub edge_key : DatasetEdge → Text
edge_key e = codes e.name ++ (b'|' ∷ codes e.digest)

unfoldable pub same_dataset : DatasetEdge → DatasetEdge → Bool
unfolding text_eq
same_dataset a b = text_eq (edge_key a) (edge_key b)

-- `runDatasetEdges`
unfoldable pub run_dataset_edges : String → String → DatasetTables → List DatasetEdge
unfolding linked_edges legacy_edges select_rows any_row same_dataset text_eq
run_dataset_edges run_id workspace t =
    let primary = linked_edges run_id workspace t.datasets_v2 t.dataset_inputs_v2 in
    primary
    ++ select_rows (λ e. not (any_row (same_dataset e) primary))
        (legacy_edges run_id workspace t.datasets_v2 t.dataset_inputs)

pub data LineageDirection : Type 0 where
  upstream downstream both_ways : LineageDirection

pub record LineageOptions : Type 0 where
  pub direction : LineageDirection
  pub descendant_depth : ℕ
  pub max_nodes_per_level : ℕ

pub record RunLineage : Type 0 where
  pub run : Run
  pub ancestors : List Run
  pub descendants : List Run
  pub datasets : List DatasetEdge
  pub truncated : Bool

-- A number with a default for zero (or less) and a maximum.
abbrev pub clamped : ℕ → ℕ → ℕ → ℕ
clamped default_value most n =
    let m = if n == 0 then default_value else n in if ltb most m then most else m

abbrev pub goes_up : LineageDirection → Bool
goes_up upstream = true
goes_up both_ways = true
goes_up downstream = false

abbrev pub goes_down : LineageDirection → Bool
goes_down upstream = false
goes_down both_ways = true
goes_down downstream = true

-- `GetRun` and `GetExperiment`, as far as the walk reads them.
abbrev pub run_or_error : Option Run → Result Run
run_or_error none = err not_found
run_or_error (some run) = ok run

abbrev pub workspace_of : Option Experiment → Result String
workspace_of none = err not_found
workspace_of (some e) = ok (if str_eq e.workspace_id "" then "default" else e.workspace_id)

-- `GetRunLineageWithOptions`
unfoldable pub get_run_lineage_with_options :
    String → LineageOptions → Db → DatasetTables → Result RunLineage
unfolding find_row walk_ancestors walk_descendants run_dataset_edges
get_run_lineage_with_options run_id opt db tables = do
  run ← run_or_error (find_run run_id db)
  workspace ← workspace_of (find_row (λ e. e.id == run.experiment_id) db.experiments)
  let depth = clamped 4 8 opt.descendant_depth
  let fan_out = clamped 50 200 opt.max_nodes_per_level
  let walk = walk_descendants run_id workspace depth fan_out db
  ok (record {
    run = run;
    ancestors = if goes_up opt.direction then walk_ancestors run run_id workspace db else [];
    descendants = if goes_down opt.direction then walk.0 else [];
    datasets = run_dataset_edges run_id workspace tables;
    truncated = if goes_down opt.direction then walk.1 else false;
  })

-- `GetRunLineage`
unfoldable pub get_run_lineage : String → Db → DatasetTables → Result RunLineage
unfolding get_run_lineage_with_options
get_run_lineage run_id db tables =
    get_run_lineage_with_options run_id
      (record { direction = both_ways; descendant_depth = 1; max_nodes_per_level = 0 }) db tables
