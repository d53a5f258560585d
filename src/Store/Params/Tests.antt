-- ===== src/Store/Params/Tests.antt =====
-- Parameters of a run at concrete values.
use litemlflow.Prelude.{
  [], ◌∷◌, List, none, some, ◌≡◌, refl, err, already_exists, find_row, any_row,
}
use litemlflow.Model.{Run}
use litemlflow.Model.Names.{valid_key, valid_name, has_control, trim_space, trim_left}
use litemlflow.Store.Db.{Db, kv_value, assert_run_exists}
use litemlflow.Store.Params.{Param, log_params, insert_param, log_param}

abbrev started : Run
started = record {
  id = "r";
  experiment_id = 1;
  name = "first";
  status = "RUNNING";
  start_time = 1000;
  end_time = none;
  artifact_uri = "";
  lifecycle_stage = "active";
  user_id = "";
  source_type = "";
  source_name = "";
  kind = "classic";
  parent_run_id = "";
}

abbrev with_rate : Db
with_rate = record {
  experiments = [];
  runs = started ∷ [];
  tags = [];
  params = record { run_id = "r"; key = "rate"; value = "0.1" } ∷ [];
  events = [];
}

abbrev depth_then_rate : List Param
depth_then_rate =
    record { key = "depth"; value = "3" } ∷ record { key = "rate"; value = "0.2" } ∷ []

-- A refused parameter is an error, and the one before it stays.
log_params_test : (log_params "r" depth_then_rate with_rate).0 ≡ err already_exists
unfolding log_params log_param insert_param valid_key valid_name has_control trim_space trim_left
    kv_value assert_run_exists find_row any_row
log_params_test = refl

half_logged_test :
    kv_value "r" "depth" (log_params "r" depth_then_rate with_rate).1.params ≡ some "3"
unfolding log_params log_param insert_param valid_key valid_name has_control trim_space trim_left
    kv_value assert_run_exists find_row any_row
half_logged_test = refl
