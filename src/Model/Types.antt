-- ===== src/Model/Types.antt =====
-- The records of internal/model/types.go. An `int64` that counts unix milliseconds, or a version,
-- is a natural number; a pointer field is an `Option`; a text column that is NULL or empty is
-- `""`, as the queries' COALESCE reads it back. The texts of workspaces, members and
-- sessions are walked byte by byte.
use litemlflow.Prelude.{List, Text, ℕ, String, Option, Bool, ◌||◌, str_eq}

abbrev pub lifecycle_active : String
lifecycle_active = "active"

abbrev pub lifecycle_deleted : String
lifecycle_deleted = "deleted"

abbrev pub status_running : String
status_running = "RUNNING"

abbrev pub status_scheduled : String
status_scheduled = "SCHEDULED"

abbrev pub status_finished : String
status_finished = "FINISHED"

abbrev pub status_failed : String
status_failed = "FAILED"

abbrev pub status_killed : String
status_killed = "KILLED"

abbrev pub kind_classic : String
kind_classic = "classic"

abbrev pub kind_trace : String
kind_trace = "trace"

abbrev pub kind_eval : String
kind_eval = "eval"

pub record Workspace : Type 0 where
  pub id : Text
  pub name : Text
  pub description : Text
  pub creation_time : ℕ
  pub last_update_time : ℕ

pub record WorkspaceMember : Type 0 where
  pub workspace_id : Text
  pub user_id : Text
  pub role : Text

-- A generic key and value; `model.Param` has the same fields.
pub record Kv : Type 0 where
  pub key : String
  pub value : String

pub record Experiment : Type 0 where
  pub id : ℕ
  pub name : String
  pub artifact_location : String
  pub lifecycle_stage : String
  pub creation_time : ℕ
  pub last_update_time : ℕ
  pub workspace_id : String

pub record Run : Type 0 where
  pub id : String
  pub experiment_id : ℕ
  pub name : String
  pub status : String
  pub start_time : ℕ
  pub end_time : Option ℕ
  pub artifact_uri : String
  pub lifecycle_stage : String
  pub user_id : String
  pub source_type : String
  pub source_name : String
  pub kind : String
  pub parent_run_id : String

pub record Session : Type 0 where
  pub id : Text
  pub user_id : Text
  pub user_email : Text
  pub user_name : Text
  pub auth_method : Text
  pub created_at : ℕ
  pub expires_at : ℕ
  pub last_seen : ℕ

abbrev pub stage_none : String
stage_none = "None"

abbrev pub stage_staging : String
stage_staging = "Staging"

abbrev pub stage_production : String
stage_production = "Production"

abbrev pub stage_archived : String
stage_archived = "Archived"

-- `ValidStage`
unfoldable pub valid_stage : String → Bool
valid_stage s =
    str_eq s stage_none
    || str_eq s stage_staging
    || str_eq s stage_production
    || str_eq s stage_archived

pub record ModelAlias : Type 0 where
  pub alias : String
  pub version : ℕ

pub record RegisteredModel : Type 0 where
  pub workspace_id : String
  pub name : String
  pub description : String
  pub creation_time : ℕ
  pub last_update_time : ℕ
  pub aliases : List ModelAlias

pub record ModelVersion : Type 0 where
  pub workspace_id : String
  pub name : String
  pub version : ℕ
  pub description : String
  pub user_id : String
  pub current_stage : String
  pub source : String
  pub run_id : String
  pub status : String
  pub status_message : String
  pub creation_time : ℕ
  pub last_update_time : ℕ
  pub aliases : List String

-- The address and the list of events are walked as text.
pub record Webhook : Type 0 where
  pub id : ℕ
  pub name : String
  pub url : Text
  pub events : Text
  pub experiment_id : Option ℕ
  pub workspace_id : String
  pub secret : String
  pub created_at : ℕ
  pub last_status : Option ℕ
  pub last_attempt : Option ℕ
  pub enabled : Bool
