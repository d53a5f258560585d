-- ===== src/Store/Lineage/Up.antt =====
-- The walk up: it stays in the workspace, is bounded, and meets no run twice.
use litemlflow.Prelude.{
  ℕ, zero, suc, ◌≤◌, String, true, false, ◌||◌, List, [], ◌∷◌, some, ◌≡◌, refl, inl, inr, length,
  arith, All, Bool-cases, Option-cases, str_eq, eq_iff, find_row_holds,
}
use litemlflow.Model.{Run}
use litemlflow.Store.Db.{Db, find_run, is_run}
use litemlflow.Store.Replay.{in_workspace, load_run}
use litemlflow.Store.Lineage.{is_visited, found, walk_up, ids_of}

abbrev pub InWorkspace : String → Db → Run → Type 0
InWorkspace workspace db r = in_workspace workspace r.experiment_id db.experiments ≡ true

-- No id stands in the list twice.
abbrev pub NoRepeat : List String → Type 0
NoRepeat [] = Unit
NoRepeat (id ∷ ids) = (is_visited id ids ≡ false) × NoRepeat ids

load_run_found :
    (cur workspace : String) (db : Db) (p : Run)
    → str_eq workspace "" ≡ false
    → found (load_run cur workspace db) ≡ some p
    → InWorkspace workspace db p × (str_eq p.id cur ≡ true)
unfolding load_run
load_run_found cur workspace db p named h = elim (Option-cases (find_run cur db)) [
  | inl missing ↦ ground arith
  | inr (run, there) ↦ ground (arith, find_row_holds (is_run cur) db.runs run there)
]

-- None of the runs has an id of the list.
abbrev pub Apart : List String → List Run → Type 0
Apart ids runs = All (λ r. is_visited r.id ids ≡ false) runs

pub not_among :
    (cur : String) (visited : List String) (runs : List Run)
    → Apart (cur ∷ visited) runs
    → is_visited cur (ids_of runs) ≡ false
unfolding is_visited ids_of
not_among cur visited [] h = refl
not_among cur visited (r ∷ runs) (apart, h) =
    ground (arith, eq_iff cur r.id, eq_iff r.id cur, not_among cur visited runs h)

pub fewer_ids :
    (cur : String) (visited : List String) (runs : List Run)
    → Apart (cur ∷ visited) runs
    → Apart visited runs
unfolding is_visited
fewer_ids cur visited [] h = tt
fewer_ids cur visited (r ∷ runs) (apart, h) = (ground arith, fewer_ids cur visited runs h)

-- Runs that a walk found, when those with the ids of `visited` were found before.
pub record Chain (visited : List String) (workspace : String) (db : Db) (room : ℕ) (runs : List Run)
    : Type 0 where
  pub inside : All (InWorkspace workspace db) runs
  pub fits : length runs ≤ room
  pub apart : Apart visited runs
  pub no_repeat : NoRepeat (ids_of runs)

pub nothing_found :
    (visited : List String) (workspace : String) (db : Db) (room : ℕ)
    → Chain visited workspace db room []
unfolding ids_of
nothing_found visited workspace db room = record {
  inside = tt;
  fits = omega arith;
  apart = tt;
  no_repeat = tt;
}

extend_walk :
    (visited : List String) (workspace cur : String) (db : Db) (room : ℕ) (p : Run)
    (runs : List Run)
    → is_visited cur visited ≡ false
    → InWorkspace workspace db p
    → str_eq p.id cur ≡ true
    → Chain (cur ∷ visited) workspace db room runs
    → Chain visited workspace db (suc room) (p ∷ runs)
unfolding ids_of
extend_walk visited workspace cur db room p runs new inside same c =
    let here : p.id ≡ cur = ground (arith, eq_iff p.id cur) in
    record {
      inside = (inside, c.inside);
      fits = omega (arith, c.fits);
      apart = (rw here new, fewer_ids cur visited runs c.apart);
      no_repeat = (rw here (not_among cur visited runs c.apart), c.no_repeat);
    }

pub walk_up-Chain :
    (room : ℕ) (visited : List String) (workspace cur : String) (db : Db)
    → str_eq workspace "" ≡ false
    → Chain visited workspace db room (walk_up room visited workspace cur db)
unfolding walk_up
walk_up-Chain zero visited workspace cur db named = nothing_found visited workspace db zero
walk_up-Chain (suc room) visited workspace cur db named =
    elim (Bool-cases (str_eq cur "" || is_visited cur visited)) [
      | inl end ↦ rw end (nothing_found visited workspace db (suc room))
      | inr on ↦ elim (Option-cases (found (load_run cur workspace db))) [
        | inl lost ↦ rw (on, lost) (nothing_found visited workspace db (suc room))
        | inr (p, there) ↦
            let (inside, same) = load_run_found cur workspace db p named there in
            rw (on, there)
              (extend_walk visited workspace cur db room p _ (ground arith) inside same
                (walk_up-Chain room (cur ∷ visited) workspace p.parent_run_id db named))
      ]
    ]
