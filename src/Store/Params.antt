-- ===== src/Store/Params.antt =====
-- internal/store/sqlite.go: LogParam and LogParams. A parameter of a run is written once.
pub mod Once
pub mod Tests
use litemlflow.Prelude.{
  String, List, [], ◌∷◌, ◌++◌, Option, none, some, if◌then◌else◌, Result, ok, err, already_exists,
  ◌>>=◌, ◌>>◌, str_eq,
}
use litemlflow.Model.Names.{valid_key}
use litemlflow.Store.Db.{Db, kv_value, assert_run_exists}

pub record Param : Type 0 where
  pub key : String
  pub value : String

-- The insert, or what is done for the value that is in its way.
unfoldable pub insert_or_compare : String → Param → Db → Option String → Result Db
insert_or_compare run_id p db none = ok (record db {
  params = db.params ++ (record { run_id = run_id; key = p.key; value = p.value } ∷ []);
})
insert_or_compare run_id p db (some existing) =
    if str_eq existing p.value then ok db else err already_exists

unfoldable pub insert_param : String → Param → Db → Result Db
unfolding insert_or_compare
insert_param run_id p db = insert_or_compare run_id p db (kv_value run_id p.key db.params)

-- `LogParam`
unfoldable pub log_param : String → Param → Db → Result Db
unfolding valid_key assert_run_exists insert_param
log_param run_id p db = do valid_key p.key; assert_run_exists run_id db; insert_param run_id p db

-- What follows a call of LogParam in the loop of LogParams.
unfoldable pub and_on : Db → Result Db → (Db → Result (Unit {0}) × Db) → Result (Unit {0}) × Db
and_on db (err e) next = (err e, db)
and_on db (ok db₁) next = next db₁

-- `LogParams`: the parameters before one that is refused stay.
unfoldable pub log_params : String → List Param → Db → Result (Unit {0}) × Db
unfolding log_param and_on
log_params run_id [] db = (ok tt, db)
log_params run_id (p ∷ ps) db = and_on db (log_param run_id p db) (λ db₁. log_params run_id ps db₁)
