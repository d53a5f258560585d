-- ===== src/Store/Params/Once.antt =====
-- A parameter keeps its first value.
use litemlflow.Prelude.{String, List, some, ◌≡◌, ◌⊎◌, Result, ok, err, All, StoreError}
use litemlflow.Store.Db.{Db, kv_value}
use litemlflow.Store.Params.{Param}

-- After an insert the parameter reads as given, and those that were there as before.
abbrev Sets : String → Param → Db → Db → Type 0
Sets run_id p db db' =
    (kv_value run_id p.key db'.params ≡ some p.value)
    × ((k j v : String) → kv_value k j db.params ≡ some v → kv_value k j db'.params ≡ some v)

-- All are logged, or there is an error.
abbrev pub AllLogged : String → List Param → Result (Unit {0}) × Db → Type 0
AllLogged run_id ps (out, after) =
    ((out ≡ ok tt) × All (λ p. kv_value run_id p.key after.params ≡ some p.value) ps)
    ⊎ ((e : StoreError) × (out ≡ err e))
