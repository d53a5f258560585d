-- ===== src/Store/Replay.antt =====
-- The time-travel read of internal/store/sqlite_events.go: `GetRunAsOf` takes the current state of
-- a run and undoes, newest first, the events that are later than the instant asked for.
pub mod Undo
pub mod Rows
pub mod Tags
pub mod Batch
pub mod Methods
pub mod Create
pub mod History
pub mod Log
pub mod AsOf
use litemlflow.Prelude.{
  ℕ, zero, suc, String, Bool, true, false, not, ◌&&◌, ◌||◌, List, [], ◌∷◌, ◌++◌, Option, none, some,
  ◌≡◌, refl, ◌==◌, ◌+◌, ◌*◌, ◌/◌, ◌%◌, ◌^◌, ltb, leb, length, if◌then◌else◌, Result, ok, err,
  not_found, replay_limit_exceeded, ◌>>=◌, ◌>>◌, guard, str_eq, find_row, any_row, select_rows,
}
use litemlflow.Model.{Experiment, Run}
use litemlflow.Store.Db.{
  Db, RunBefore, Before, fields, text, absent, Event, EventKind, run_update, run_lifecycle,
  run_parent, tag_set, tag_delete, find_run, kv_value,
}

-- `json.Unmarshal` reads a number as a float64, and `int64(f)` takes it back: at a scale of 2 ^ e
-- the nearest multiple, ties to the even one.
unfoldable pub nearest : ℕ → ℕ → ℕ
nearest e n =
    let q = n / 2 ^ e in
    let r = 2 * (n % 2 ^ e) in
    (if ltb r (2 ^ e) then q else if ltb (2 ^ e) r then q + 1 else q + q % 2) * 2 ^ e

unfoldable pub nearest_from : ℕ → ℕ → ℕ → ℕ
unfolding nearest
nearest_from zero e n = nearest e n
nearest_from (suc fuel) e n =
    let coarser = nearest_from fuel (suc e) n in
    if leb n (2 ^ (53 + e)) then nearest e n else coarser

-- An int64 has 63 bits, so ten doublings of the scale reach every value.
unfoldable pub through_float : ℕ → ℕ
unfolding nearest_from
through_float n = if leb n (2 ^ 53) then n else nearest_from 10 1 n

-- A Go map from keys to values.
abbrev pub TagMap : Type 0
TagMap = String → Option String

-- The map of a run's tags, which `GetTags` lists.
unfoldable pub tag_map : String → Db → TagMap
tag_map id db key = kv_value id key db.tags

-- `delete(tagMap, key)` and `tagMap[key] = value`
unfoldable pub put : String → Option String → TagMap → TagMap
put key v m k = if str_eq key k then v else m k

unfoldable pub undo_fields : EventKind → RunBefore → Run → Run
undo_fields run_update b run = record run {
  status = b.status;
  end_time = elim b.end_time [ some ms ↦ some (through_float ms) | none ↦ none ];
  name = b.name;
}
undo_fields run_lifecycle b run = record run { lifecycle_stage = b.lifecycle_stage }
undo_fields run_parent b run = record run { parent_run_id = b.parent_run_id }
undo_fields tag_set b run = run
undo_fields tag_delete b run = run

-- `applyUndo`: without the fields of a run in `before` it does nothing.
unfoldable pub apply_undo : Run → Event → Run
unfolding undo_fields
apply_undo run e = elim e.payload.before [
  | absent ↦ run
  | fields b ↦ undo_fields e.kind b run
  | text _ ↦ run
]

-- `applyTagUndo`
unfoldable pub apply_tag_undo : TagMap → Event → TagMap
unfolding put
apply_tag_undo m e = elim e.kind [
  | tag_set ↦ if str_eq e.payload.key "" then m else elim e.payload.before [
    | absent ↦ put e.payload.key none m
    | fields _ ↦ m
    | text v ↦ put e.payload.key (some v) m
  ]
  | tag_delete ↦ if str_eq e.payload.key "" then m else elim e.payload.before [
    | absent ↦ m
    | fields _ ↦ m
    | text v ↦ put e.payload.key (some v) m
  ]
  | _ ↦ m
]

-- The loops from the newest event to the oldest, over a list with the oldest first.
unfoldable pub undo_run : List Event → Run → Run
undo_run [] run = run
undo_run (e ∷ es) run = apply_undo (undo_run es run) e

unfoldable pub undo_tags : List Event → TagMap → TagMap
undo_tags [] m = m
undo_tags (e ∷ es) m = apply_tag_undo (undo_tags es m) e

-- ORDER BY ts_ms ASC, id ASC, over the table in the order of the ids
unfoldable pub insert_event : Event → List Event → List Event
insert_event e [] = e ∷ []
insert_event e (e' ∷ es) = if leb e.ts_ms e'.ts_ms then e ∷ e' ∷ es else e' ∷ insert_event e es

unfoldable pub by_time : List Event → List Event
unfolding insert_event
by_time [] = []
by_time (e ∷ es) = insert_event e (by_time es)

-- WHERE entity_type = 'run' AND entity_id = ?
abbrev pub is_about : String → Event → Bool
is_about id e = str_eq e.entity_id id

abbrev pub is_newer : ℕ → Event → Bool
is_newer as_of_ms e = ltb as_of_ms e.ts_ms

abbrev pub max_events_per_replay : ℕ
max_events_per_replay = 50_000

-- The run's experiment lies in the workspace.
unfoldable pub in_workspace : String → ℕ → List Experiment → Bool
in_workspace workspace experiment_id =
    any_row (λ e. e.id == experiment_id && str_eq e.workspace_id workspace)

-- `getRunInWorkspace`, or `GetRun` if no workspace is named
unfoldable pub load_run : String → String → Db → Result Run
load_run id workspace db = elim (find_run id db) [
  | none ↦ err not_found
  | some run ↦
      if str_eq workspace "" || in_workspace workspace run.experiment_id db.experiments
      then ok run
      else err not_found
]

-- `getRunAsOfImpl`: the run and its tags at the instant. (The list that the method makes of the map
-- is sorted by key.)
unfoldable pub get_run_as_of_impl : String → String → ℕ → Db → Result (Run × TagMap)
unfolding load_run by_time undo_run undo_tags tag_map
get_run_as_of_impl id workspace as_of_ms db = do
  run ← load_run id workspace db
  guard (not (ltb as_of_ms run.start_time)) not_found
  let events = by_time (select_rows (is_about id) db.events)
  guard (not (ltb max_events_per_replay (length events))) replay_limit_exceeded
  let newer = select_rows (is_newer as_of_ms) events
  ok (undo_run newer run, undo_tags newer (tag_map id db))

-- `GetRunAsOf` and `GetRunAsOfInWorkspace`
unfoldable pub get_run_as_of : String → ℕ → Db → Result (Run × TagMap)
unfolding get_run_as_of_impl
get_run_as_of id as_of_ms db = get_run_as_of_impl id "" as_of_ms db

unfoldable pub get_run_as_of_in_workspace : String → String → ℕ → Db → Result (Run × TagMap)
unfolding get_run_as_of_impl
get_run_as_of_in_workspace id workspace as_of_ms db =
    get_run_as_of_impl id (if str_eq workspace "" then "default" else workspace) as_of_ms db
