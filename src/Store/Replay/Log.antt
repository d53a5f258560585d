-- ===== src/Store/Replay/Log.antt =====
-- The event log in the order of time, and what a replay's filters select from it.
use litemlflow.Prelude.{
  ℕ, String, Bool, List, [], ◌∷◌, some, ◌≡◌, refl, ◌∙◌, ◌≤◌, arith, All, ok, select_rows,
  Bool-cases, inl, inr,
}
use litemlflow.Model.{Run}
use litemlflow.Store.Db.{Db, Event, find_run}
use litemlflow.Store.Replay.{undo_run, apply_undo, undo_fields, by_time, is_newer, load_run}
use litemlflow.Store.Replay.Undo.{IsLater}

-- The log in the order of time.
abbrev pub IsAscending : List Event → Type 0
IsAscending [] = Unit
IsAscending (e ∷ es) = All (λ e'. e.ts_ms ≤ e'.ts_ms) es × IsAscending es

abbrev pub IsPast : ℕ → List Event → Type 0
IsPast t = All (λ e. e.ts_ms ≤ t)

pub All-select_rows {ℓ} :
    (P : Event → Type ℓ) (p : Event → Bool) (es : List Event) → All P es → All P (select_rows p es)
unfolding select_rows
All-select_rows P p [] h = tt
All-select_rows P p (e ∷ es) (he, h) = elim (Bool-cases (p e)) [
  | inl yes' ↦ rw yes' (he, All-select_rows P p es h)
  | inr no' ↦ rw no' (All-select_rows P p es h)
]

pub select_rows-IsAscending :
    (p : Event → Bool) (es : List Event) → IsAscending es → IsAscending (select_rows p es)
unfolding select_rows
select_rows-IsAscending p [] h = tt
select_rows-IsAscending p (e ∷ es) (he, h) = elim (Bool-cases (p e)) [
  | inl yes' ↦ rw yes' (All-select_rows _ p es he, select_rows-IsAscending p es h)
  | inr no' ↦ rw no' (select_rows-IsAscending p es h)
]

pub by_time_of_IsAscending : (es : List Event) → IsAscending es → by_time es ≡ es
unfolding by_time
by_time_of_IsAscending [] h = refl
by_time_of_IsAscending (e ∷ []) h = refl
by_time_of_IsAscending (e ∷ e' ∷ es) h =
    rw (by_time_of_IsAscending (e' ∷ es) h.1) (ground (arith, h.0.0))

pub select_newer_of_IsPast :
    (t : ℕ) (es : List Event) → IsPast t es → select_rows (is_newer t) es ≡ []
unfolding select_rows
select_newer_of_IsPast t [] h = refl
select_newer_of_IsPast t (e ∷ es) (he, h) = ground (arith, select_newer_of_IsPast t es h)

pub select_newer_of_IsLater :
    (t : ℕ) (es : List Event) → IsLater t es → select_rows (is_newer t) es ≡ es
unfolding select_rows
select_newer_of_IsLater t [] h = refl
select_newer_of_IsLater t (e ∷ es) (he, h) = ground (arith, select_newer_of_IsLater t es h)

-- Undoing keeps what no event records.
pub record SameBirth (run run' : Run) : Type 0 where
  pub experiment : run'.experiment_id ≡ run.experiment_id
  pub start : run'.start_time ≡ run.start_time

undo_fields-SameBirth : (e : Event) (run : Run) → SameBirth run (apply_undo run e)
unfolding apply_undo undo_fields
undo_fields-SameBirth e run = ground arith

pub undo_run-SameBirth : (es : List Event) (run : Run) → SameBirth run (undo_run es run)
unfolding undo_run
undo_run-SameBirth [] run = record { experiment = refl; start = refl }
undo_run-SameBirth (e ∷ es) run =
    let a = undo_run-SameBirth es run in
    let b = undo_fields-SameBirth e (undo_run es run) in
    record { experiment = b.experiment ∙ a.experiment; start = b.start ∙ a.start }

pub load_run-cases :
    (id workspace : String) (db : Db) {run : Run}
    → load_run id workspace db ≡ ok run
    → find_run id db ≡ some run
unfolding load_run
load_run-cases id workspace db h = ground arith
