-- ===== src/Store/Runs.antt =====
-- The methods of internal/store that change a run or its tags. Each call of `time.Now()` in a
-- method is one reading of `clock`, numbered from 0 in the order of the calls. A method's
-- transaction commits or changes nothing, so an error comes without a state.
use Prim.Native.String.{◌++◌ as append}
use mathlib.Core.Option.{get_or}
use litemlflow.Prelude.{
  ℕ, suc, length, String, Bool, true, false, not, ◌&&◌, ◌||◌, List, [], ◌∷◌, ◌++◌, Option, none,
  some, ◌==◌, if◌then◌else◌, Result, ok, err, not_found, already_exists, invalid_value,
  constraint_failed, StoreError, ◌>>=◌, ◌>>◌, str_eq, any_row, update_rows, delete_rows,
}
use litemlflow.Model.{
  Run, Kv, status_running, status_finished, status_failed, status_killed, status_scheduled,
  lifecycle_active, lifecycle_deleted, kind_classic, kind_trace, kind_eval,
}
use litemlflow.Model.Names.{valid_key}
use litemlflow.Store.Db.{
  Db, RunBefore, text, EventKind, run_update, run_lifecycle, run_parent, tag_set, tag_delete,
  is_run, is_kv, upsert_kv, assert_run_exists, read_tag_value, capture_run_before, write_run_event,
  before_run, tag_payload,
}

abbrev pub parent_tag : String
parent_tag = "mlflow.parentRunId"

abbrev pub is_none {ℓ} : {A : Type ℓ} → Option A → Bool
is_none none = true
is_none (some _) = false

unfoldable pub valid_status : String → Bool
valid_status s =
    str_eq s status_running
    || str_eq s status_finished
    || str_eq s status_failed
    || str_eq s status_killed
    || str_eq s status_scheduled

unfoldable pub valid_lifecycle : String → Bool
valid_lifecycle s = str_eq s lifecycle_active || str_eq s lifecycle_deleted

-- What SQLite reports when a statement breaks a constraint.
pub data SqlError : Type 0 where
  unique_violation fk_violation check_violation : SqlError

pub data Sql : Type 0 where
  done : Db → Sql
  failed : SqlError → Sql

-- `mapInsertErr`
unfoldable pub map_insert_err : SqlError → StoreError
map_insert_err unique_violation = already_exists
map_insert_err fk_violation = not_found
map_insert_err check_violation = constraint_failed

abbrev pub mapped : Sql → Result Db
mapped (done db) = ok db
mapped (failed e) = err (map_insert_err e)

-- The CHECK constraints of the table `runs`.
unfoldable pub checks_run : Run → Bool
unfolding valid_status valid_lifecycle
checks_run r =
    valid_status r.status
    && valid_lifecycle r.lifecycle_stage
    && (str_eq r.kind kind_classic || str_eq r.kind kind_trace || str_eq r.kind kind_eval)

-- INSERT INTO runs(…): the column parent_run_id is not among the inserted ones.
unfoldable pub insert_run : Run → Db → Sql
insert_run r db =
    if not (checks_run r)
    then failed check_violation
    else if any_row (is_run r.id) db.runs
    then failed unique_violation
    else if not (any_row (λ e. e.id == r.experiment_id) db.experiments)
    then failed fk_violation
    else done (record db { runs = db.runs ++ record r { parent_run_id = "" } ∷ [] })

-- UPDATE runs SET … WHERE id = ?
unfoldable pub update_run_row : String → (Run → Run) → Db → Db
update_run_row id f db = record db { runs = update_rows (is_run id) f db.runs }

-- UPDATE runs SET parent_run_id = ? WHERE id = ?, under the foreign key to runs(id)
unfoldable pub update_parent : String → String → Db → Sql
update_parent id parent db =
    if any_row (is_run id) db.runs && not (any_row (is_run parent) db.runs)
    then failed fk_violation
    else done (update_run_row id (λ r. record r { parent_run_id = parent }) db)

-- `if before != nil { writeRunEvent(…) }`
unfoldable pub event_if_before : ℕ → EventKind → String → Option RunBefore → Db → Db
unfolding write_run_event
event_if_before now kind id none db = db
event_if_before now kind id (some b) db = write_run_event now kind id (before_run b) db

-- The upsert of a tag, and its event.
unfoldable pub put_tag : String → String → String → Db → Db
put_tag id key value db = record db { tags = upsert_kv id key value db.tags }

unfoldable pub tag_event : ℕ → String → String → String → Option String → Db → Db
tag_event now id key value before db =
    write_run_event now tag_set id (tag_payload key value before) db

-- `setParentRunID`
unfoldable pub set_parent_run_id : ℕ → ℕ → String → String → Db → Sql
set_parent_run_id now now' id parent db =
    if str_eq parent "" then done db else elim (update_parent id parent db) [
      | failed e ↦ failed e
      | done db₁ ↦
          let db₂ = event_if_before now run_parent id (capture_run_before id db) db₁ in
          let before = read_tag_value id parent_tag db₂ in
          done (tag_event now' id parent_tag parent before (put_tag id parent_tag parent db₂))
    ]

-- `syncParentRunIDFromTag`
unfoldable pub sync_parent_run_id : ℕ → String → String → Db → Sql
sync_parent_run_id now id value db = elim (update_parent id value db) [
  | failed e ↦ failed e
  | done db₁ ↦ done (event_if_before now run_parent id (capture_run_before id db) db₁)
]

abbrev pub or_default : String → String → String
or_default s d = if str_eq s "" then d else s

-- The defaults that `CreateRun` fills in; `fresh` is the new random id.
unfoldable pub run_defaults : ℕ → String → Run → Run
run_defaults now fresh r =
    let id = or_default r.id fresh in
    record r {
      id = id;
      status = or_default r.status status_running;
      kind = or_default r.kind kind_classic;
      lifecycle_stage = or_default r.lifecycle_stage lifecycle_active;
      start_time = if r.start_time == 0 then now else r.start_time;
      artifact_uri = or_default r.artifact_uri (append "mlflow-artifacts:/" id);
    }

-- `CreateRun`
unfoldable pub create_run : (ℕ → ℕ) → String → Run → Db → Result Db
create_run clock fresh r₀ db = do
  let r = run_defaults (clock 0) fresh r₀
  db₁ ← mapped (insert_run r db)
  mapped (set_parent_run_id (clock 1) (clock 2) r.id r.parent_run_id db₁)

-- The assignments that `UpdateRun` puts into its SET list.
unfoldable pub set_run_fields : Option String → Option ℕ → Option String → Run → Run
set_run_fields status end_time name r = record r {
  status = get_or status r.status;
  end_time = elim end_time [ some t ↦ some t | none ↦ r.end_time ];
  name = get_or name r.name;
}

-- `UpdateRun`
unfoldable pub update_run :
    (ℕ → ℕ) → String → Option String → Option ℕ → Option String → Db → Result Db
update_run clock id status end_time name db =
    if elim status [ some s ↦ not (valid_status s) | none ↦ false ]
    then err invalid_value
    else if is_none status && is_none end_time && is_none name
    then ok db
    else if not (any_row (is_run id) db.runs)
    then err not_found
    else ok (
        event_if_before (clock 0) run_update id (capture_run_before id db)
          (update_run_row id (set_run_fields status end_time name) db))

-- `SetRunLifecycle`
unfoldable pub set_run_lifecycle : (ℕ → ℕ) → String → String → Db → Result Db
set_run_lifecycle clock id stage db =
    if not (valid_lifecycle stage)
    then err invalid_value
    else if not (any_row (is_run id) db.runs)
    then err not_found
    else ok (
        event_if_before (clock 0) run_lifecycle id (capture_run_before id db)
          (update_run_row id (λ r. record r { lifecycle_stage = stage }) db))

-- The last step of `SetTag` and `SetTags`: the parent column follows the tag, unless it is empty.
unfoldable pub sync_parent_tag : ℕ → String → String → Db → Result Db
sync_parent_tag now id value db =
    if str_eq value "" then ok db else mapped (sync_parent_run_id now id value db)

-- `SetTag`
unfoldable pub set_tag : (ℕ → ℕ) → String → Kv → Db → Result Db
set_tag clock id t db = do
  valid_key t.key
  assert_run_exists id db
  let db₁ =
      tag_event (clock 0) id t.key t.value (read_tag_value id t.key db)
        (put_tag id t.key t.value db)
  if str_eq t.key parent_tag then sync_parent_tag (clock 1) id t.value db₁ else ok db₁

-- The upserts of `SetTags`: the key is checked in the loop.
unfoldable pub put_tags : String → List Kv → Db → Result Db
put_tags id [] db = ok db
put_tags id (t ∷ ts) db = do valid_key t.key; put_tags id ts (put_tag id t.key t.value db)

-- The events of `SetTags`; `before` is the map of the values that the tags had before the
-- transaction, and the i-th event takes the i-th reading of the clock.
unfoldable pub tag_events : (ℕ → ℕ) → ℕ → String → (String → Option String) → List Kv → Db → Db
tag_events clock i id before [] db = db
tag_events clock i id before (t ∷ ts) db =
    tag_events clock (suc i) id before ts (tag_event (clock i) id t.key t.value (before t.key) db)

-- The last value that the batch gives to mlflow.parentRunId, or `""`.
unfoldable pub last_parent : String → List Kv → String
last_parent parent [] = parent
last_parent parent (t ∷ ts) = last_parent (if str_eq t.key parent_tag then t.value else parent) ts

-- `SetTags`
unfoldable pub set_tags : (ℕ → ℕ) → String → List Kv → Db → Result Db
set_tags clock id ts db = do
  assert_run_exists id db
  db₁ ← put_tags id ts db
  let db₂ = tag_events clock 0 id (λ key. read_tag_value id key db) ts db₁
  sync_parent_tag (clock (length ts)) id (last_parent "" ts) db₂

-- `DeleteTag`
unfoldable pub delete_tag : (ℕ → ℕ) → String → String → Db → Result Db
delete_tag clock id key db = elim (read_tag_value id key db) [
  | none ↦ err not_found
  | some old ↦ ok (
      write_run_event (clock 0) tag_delete id (record { before = text old; key = key; value = "" })
        (record db { tags = delete_rows (is_kv id key) db.tags }))
]
