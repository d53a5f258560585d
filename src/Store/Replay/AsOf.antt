-- ===== src/Store/Replay/AsOf.antt =====
-- The theorem on time travel: a read at an instant gives the state at that instant.
use litemlflow.Prelude.{
  ℕ, String, List, ◌++◌, some, ◌≡◌, sym, ◌∙◌, ◌≤◌, length, arith, All-append_right, ok, select_rows,
  select_rows-append,
}
use litemlflow.Model.{Run}
use litemlflow.Store.Db.{Db, Event, find_run}
use litemlflow.Store.Replay.{
  tag_map, undo_run, undo_tags, by_time, is_about, is_newer, load_run, get_run_as_of_impl,
  max_events_per_replay,
}
use litemlflow.Store.Replay.Undo.{AllExact, IsLater, Undoes}
use litemlflow.Store.Replay.History.{After, After-Extends}
use litemlflow.Store.Replay.Log.{
  IsAscending, IsPast, All-select_rows, select_rows-IsAscending, by_time_of_IsAscending,
  select_newer_of_IsPast, select_newer_of_IsLater, SameBirth, undo_run-SameBirth, load_run-cases,
}

-- What `newer` holds: the events that were added after the instant, in their order.
newer_events :
    (t : ℕ) (id : String) (old added : List Event)
    → IsPast t old
    → IsLater t added
    → IsAscending (old ++ added)
    → select_rows (is_newer t) (by_time (select_rows (is_about id) (old ++ added)))
      ≡ select_rows (is_about id) added
newer_events t id old added past later ascending = rw (
  by_time_of_IsAscending _ (select_rows-IsAscending (is_about id) (old ++ added) ascending),
  select_rows-append (is_about id) old added,
  select_rows-append (is_newer t) (select_rows (is_about id) old) (select_rows (is_about id) added),
  select_newer_of_IsPast t _ (All-select_rows _ (is_about id) old past),
  select_newer_of_IsLater t _ (All-select_rows _ (is_about id) added later),
)

load_run_later :
    (id workspace : String) (db db' : Db) (run run' : Run)
    → load_run id workspace db ≡ ok run
    → find_run id db' ≡ some run'
    → db'.experiments ≡ db.experiments
    → run'.experiment_id ≡ run.experiment_id
    → load_run id workspace db' ≡ ok run'
unfolding load_run
load_run_later id workspace db db' run run' h found experiments same =
    ground (arith, load_run-cases id workspace db h)

-- The current run is as old as the run at the instant.
same_birth :
    (id : String) {added : List Event} {run : Run} {db db' : Db} (u : Undoes id added run db db')
    → SameBirth u.run' run
same_birth id {added} u =
    rw u.undone at (undo_run-SameBirth (select_rows (is_about id) added) u.run')

-- Both guards of the read pass, and the rest is the replay.
replay :
    (t : ℕ) (id workspace : String) (db' : Db) (run' : Run) {newer : List Event}
    → load_run id workspace db' ≡ ok run'
    → run'.start_time ≤ t
    → length (by_time (select_rows (is_about id) db'.events)) ≤ max_events_per_replay
    → select_rows (is_newer t) (by_time (select_rows (is_about id) db'.events)) ≡ newer
    → get_run_as_of_impl id workspace t db'
      ≡ ok (undo_run newer run', undo_tags newer (tag_map id db'))
unfolding get_run_as_of_impl
replay t id workspace db' run' {newer} loaded started few e = ground arith

-- After any calls of the methods, all later than the instant `t`, the read at `t` of a run gives
-- the run and the tags of the state before those calls. The run is there at `t`, with a start time
-- not after it, the log's events up to then are not later than `t`, the log is in the order of
-- time, records no end time above 2 ^ 53, and holds at most as many events of the run as a replay
-- reads.
pub get_run_as_of_impl-After :
    (t : ℕ) (id workspace : String) (run : Run) (db db' : Db)
    → After t db db'
    → load_run id workspace db ≡ ok run
    → run.start_time ≤ t
    → IsPast t db.events
    → IsAscending db'.events
    → AllExact db'.events
    → length (select_rows (is_about id) db'.events) ≤ max_events_per_replay
    → get_run_as_of_impl id workspace t db' ≡ ok (run, tag_map id db)
get_run_as_of_impl-After t id workspace run db db' after loaded started past ascending exact few =
    let x = After-Extends after in
    let u =
      x.undoes id run (load_run-cases id workspace db loaded)
        (All-append_right _ db.events x.added (rw x.log at exact)) in
    let birth = same_birth id u in
    let newer = newer_events t id db.events x.added past x.later (rw x.log at ascending) in
    replay t id workspace db' u.run'
      (load_run_later id workspace db db' run u.run' loaded u.found x.experiments
        (sym birth.experiment))
      (rw (← birth.start) started)
      (rw (by_time_of_IsAscending _ (select_rows-IsAscending (is_about id) db'.events ascending))
        few)
      (rw x.log newer)
    ∙ λ i. ok (u.undone i, u.tags_undone i)
