-- ===== src/Store/Lineage/Isolation.antt =====
-- What a lineage shows.
use litemlflow.Prelude.{
  ℕ, ◌*◌, ◌≤◌, String, Bool, true, false, List, [], ◌∷◌, Option, none, some, ◌≡◌, ◌≢◌, refl, inl,
  inr, if◌then◌else◌, ◌==◌, length, arith, All, Bool-cases, str_eq, eq_iff, ok, ok_inj, >>=-eq-ok,
  find_row,
}
use litemlflow.Model.{Experiment, Run}
use litemlflow.Store.Db.{Db, find_run}
use litemlflow.Store.Lineage.{
  is_visited, max_ancestor_depth, walk_ancestors, walk_descendants, ids_of, DatasetTables,
  LineageOptions, RunLineage, clamped, goes_up, goes_down, run_or_error, workspace_of,
  get_run_lineage_with_options,
}
use litemlflow.Store.Lineage.Up.{InWorkspace, NoRepeat, Chain, walk_up-Chain}
use litemlflow.Store.Lineage.Down.{walk_levels-Chain}

-- The runs that a walk shows beside the run itself: all in the workspace, so many at most, none with
-- the id of the run, and no two with the same.
pub record Shown (id workspace : String) (db : Db) (most : ℕ) (runs : List Run) : Type 0 where
  pub inside : All (InWorkspace workspace db) runs
  pub fits : length runs ≤ most
  pub no_repeat : NoRepeat (ids_of runs)
  pub not_itself : All (λ r. r.id ≢ id) runs

not_self :
    (id : String) (runs : List Run)
    → All (λ r. is_visited r.id (id ∷ []) ≡ false) runs
    → All (λ r. r.id ≢ id) runs
unfolding is_visited
not_self id [] h = tt
not_self id (r ∷ runs) (other, h) = ((λ same. ground (arith, eq_iff id r.id)), not_self id runs h)

Chain-Shown :
    (id workspace : String) (db : Db) (room most : ℕ) (runs : List Run)
    → room ≤ most
    → Chain (id ∷ []) workspace db room runs
    → Shown id workspace db most runs
Chain-Shown id workspace db room most runs h c = record {
  inside = c.inside;
  fits = omega (arith, c.fits);
  no_repeat = c.no_repeat;
  not_itself = not_self id runs c.apart;
}

workspace_of-named :
    (e : Option Experiment) (workspace : String)
    → workspace_of e ≡ ok workspace
    → str_eq workspace "" ≡ false
workspace_of-named none workspace h = cc
workspace_of-named (some e) workspace h =
    rw (← ok_inj h) (elim (Bool-cases (str_eq e.workspace_id "")) [
      | inl unnamed ↦ rw unnamed refl
      | inr named ↦ rw named named
    ])

walk_ancestors-Shown :
    (run : Run) (id workspace : String) (db : Db)
    → str_eq workspace "" ≡ false
    → Shown id workspace db max_ancestor_depth (walk_ancestors run id workspace db)
unfolding walk_ancestors
walk_ancestors-Shown run id workspace db named =
    Chain-Shown id workspace db 256 256 _ (omega arith)
      (walk_up-Chain 256 (id ∷ []) workspace run.parent_run_id db named)

walk_descendants-Shown :
    (id workspace : String) (depth max_fan_out : ℕ) (db : Db)
    → Shown id workspace db
        (depth * max_fan_out)
        (walk_descendants id workspace depth max_fan_out db).0
unfolding walk_descendants
walk_descendants-Shown id workspace depth max_fan_out db =
    Chain-Shown id workspace db (depth * max_fan_out) (depth * max_fan_out) _ (omega arith)
      (walk_levels-Chain depth max_fan_out (id ∷ []) (id ∷ []) false workspace db)

clamped_bound :
    (default_value most n : ℕ) → default_value ≤ most → clamped default_value most n ≤ most
clamped_bound default_value most n h = ground arith

product_bound : (a b : ℕ) → a ≤ 8 → b ≤ 200 → a * b ≤ 1600
product_bound a b h k = grind arith

larger_bound :
    (id workspace : String) (db : Db) (most most' : ℕ) (runs : List Run)
    → most ≤ most'
    → Shown id workspace db most runs
    → Shown id workspace db most' runs
larger_bound id workspace db most most' runs h s = record {
  inside = s.inside;
  fits = omega (arith, s.fits);
  no_repeat = s.no_repeat;
  not_itself = s.not_itself;
}

if_asked :
    (asked : Bool) (id workspace : String) (db : Db) (most : ℕ) (runs : List Run)
    → Shown id workspace db most runs
    → Shown id workspace db most (if asked then runs else [])
unfolding ids_of
if_asked true id workspace db most runs s = s
if_asked false id workspace db most runs s = record {
  inside = tt;
  fits = omega arith;
  no_repeat = tt;
  not_itself = tt;
}

-- Whatever options a lineage is asked with, its ancestors and descendants lie in the workspace of
-- the run's experiment, even if a parent id was set to a run of another one. The ancestors are at
-- most 256 and the descendants at most 1600, none is the run itself, and no run stands twice
-- among the ancestors or among the descendants, also where the parent ids go in a circle.
pub get_run_lineage_with_options-Shown :
    (run_id : String) (opt : LineageOptions) (db : Db) (tables : DatasetTables) (l : RunLineage)
    → get_run_lineage_with_options run_id opt db tables ≡ ok l
    → (workspace : String) × (workspace_of
          (find_row (λ e. e.id == l.run.experiment_id) db.experiments)
        ≡ ok workspace)
      × Shown run_id workspace db 256 l.ancestors
      × Shown run_id workspace db 1600 l.descendants
unfolding get_run_lineage_with_options
get_run_lineage_with_options-Shown run_id opt db tables l h =
    let (run, _, h₁) = >>=-eq-ok (run_or_error (find_run run_id db)) _ h in
    let (workspace, placed, h₂) =
      >>=-eq-ok (workspace_of (find_row (λ e. e.id == run.experiment_id) db.experiments)) _ h₁ in
    let depth = clamped 4 8 opt.descendant_depth in
    let fan_out = clamped 50 200 opt.max_nodes_per_level in
    let up = walk_ancestors-Shown run run_id workspace db (workspace_of-named _ workspace placed) in
    let down = walk_descendants-Shown run_id workspace depth fan_out db in
    let small =
      product_bound depth fan_out (clamped_bound 4 8 opt.descendant_depth (omega arith))
        (clamped_bound 50 200 opt.max_nodes_per_level (omega arith)) in
    rw (← ok_inj h₂) (
      workspace,
      placed,
      if_asked (goes_up opt.direction) run_id workspace db 256 _ up,
      if_asked (goes_down opt.direction) run_id workspace db 1600 _
          (larger_bound run_id workspace db (depth * fan_out) 1600 _ small down),
    )
