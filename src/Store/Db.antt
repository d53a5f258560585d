-- ===== src/Store/Db.antt =====
-- The tables that the run methods of internal/store/sqlite.go and sqlite_events.go read and write,
-- and the statements on them that several methods share.
use mathlib.Core.Option
use litemlflow.Prelude.{
  ℕ, String, Bool, ◌&&◌, List, [], ◌∷◌, ◌++◌, Option, none, some, if◌then◌else◌, Result, ok, err,
  not_found, str_eq, find_row, any_row,
}
use litemlflow.Model.{Experiment, Run}

-- A row of `tags` or of `params`.
pub record RunKv : Type 0 where
  pub run_id : String
  pub key : String
  pub value : String

-- What `captureRunBefore` puts into a payload.
pub record RunBefore : Type 0 where
  pub status : String
  pub end_time : Option ℕ
  pub name : String
  pub lifecycle_stage : String
  pub parent_run_id : String

-- The `before` entry of a payload: missing, the fields of a run, or the value of a tag.
pub data Before : Type 0 where
  absent : Before
  fields : RunBefore → Before
  text : String → Before

pub data EventKind : Type 0 where
  run_update run_lifecycle run_parent tag_set tag_delete : EventKind

-- A missing `key` or `value` is `""`, as the reader's type assertion yields it.
pub record Payload : Type 0 where
  pub before : Before
  pub key : String
  pub value : String

-- A row of `events`. Its id is its place in the table.
pub record Event : Type 0 where
  pub ts_ms : ℕ
  pub kind : EventKind
  pub entity_id : String
  pub payload : Payload

pub record Db : Type 0 where
  pub experiments : List Experiment
  pub runs : List Run
  pub tags : List RunKv
  pub params : List RunKv
  pub events : List Event

-- WHERE id = ?
abbrev pub is_run : String → Run → Bool
is_run id r = str_eq r.id id

abbrev pub find_run : String → Db → Option Run
find_run id db = find_row (is_run id) db.runs

-- WHERE run_id = ? AND key = ?
abbrev pub is_kv : String → String → RunKv → Bool
is_kv run_id key t = str_eq t.run_id run_id && str_eq t.key key

-- SELECT value … WHERE run_id = ? AND key = ?
unfoldable pub kv_value : String → String → List RunKv → Option String
kv_value run_id key rows = Option.map (λ t. t.value) (find_row (is_kv run_id key) rows)

-- INSERT … ON CONFLICT(run_id, key) DO UPDATE SET value = excluded.value
unfoldable pub upsert_kv : String → String → String → List RunKv → List RunKv
upsert_kv run_id key value [] = record { run_id = run_id; key = key; value = value } ∷ []
upsert_kv run_id key value (t ∷ rows) =
    if is_kv run_id key t
    then record t { value = value } ∷ rows
    else t ∷ upsert_kv run_id key value rows

-- `assertRunExists`
unfoldable pub assert_run_exists : String → Db → Result (Unit {0})
assert_run_exists id db = if any_row (is_run id) db.runs then ok tt else err not_found

-- `readTagValue`
unfoldable pub read_tag_value : String → String → Db → Option String
unfolding kv_value
read_tag_value run_id key db = kv_value run_id key db.tags

-- `captureRunBefore`
unfoldable pub capture_run_before : String → Db → Option RunBefore
capture_run_before id db =
    Option.map
      (λ r. record {
        status = r.status;
        end_time = r.end_time;
        name = r.name;
        lifecycle_stage = r.lifecycle_stage;
        parent_run_id = r.parent_run_id;
      })
      (find_run id db)

-- `writeRunEvent`: one row at the end of the log, at the time of the clock's reading.
unfoldable pub write_run_event : ℕ → EventKind → String → Payload → Db → Db
write_run_event now kind run_id payload db = record db {
  events =
      db.events ++ record { ts_ms = now; kind = kind; entity_id = run_id; payload = payload } ∷ [];
}

-- `{"before": before}`
abbrev pub before_run : RunBefore → Payload
before_run b = record { before = fields b; key = ""; value = "" }

-- `{"key": …, "value": …}`, with `before` if the tag was there
abbrev pub tag_payload : String → String → Option String → Payload
tag_payload key value none = record { before = absent; key = key; value = value }
tag_payload key value (some old) = record { before = text old; key = key; value = value }
