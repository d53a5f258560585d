-- ===== src/Store/Replay/Batch.antt =====
-- The batch of `SetTags`: all upserts first, then all events, each with the value that the tag had
-- before the batch. Undoing the events gives the tags before the batch, whatever keys repeat.
use mathlib.Core.List.{append-nil, append_assoc}
use litemlflow.Prelude.{
  ℕ, suc, String, Bool, false, ◌&&◌, ◌||◌, List, [], ◌∷◌, ◌++◌, some, ◌≡◌, ◌≢◌, refl, ap, fun_ext,
  ◌∙◌, ◌<◌, if◌then◌else◌, arith, All, str_eq, eq_iff, ok, >>-eq-ok, select_rows, Bool-cases, inl,
  inr,
}
use litemlflow.Model.{Run, Kv}
use litemlflow.Model.Names.{valid_key}
use litemlflow.Store.Db.{Db, Event, find_run, kv_value, read_tag_value, write_run_event}
use litemlflow.Store.Runs.{put_tag, tag_event, put_tags, tag_events}
use litemlflow.Store.Replay.{TagMap, tag_map, put, undo_run, undo_tags, is_about}
use litemlflow.Store.Replay.Undo.{IsLater, Extends, Undoes}
use litemlflow.Store.Replay.Tags.{
  kv_value-upsert_kv, valid_key-ne-empty, set_event, undo_set_event, run_set_event,
}

unfoldable mentions : String → List Kv → Bool
mentions key [] = false
mentions key (t ∷ ts) = str_eq t.key key || mentions key ts

abbrev HasKeys : List Kv → Type 0
HasKeys = All (λ t. t.key ≢ "")

pub batch_events : (ℕ → ℕ) → ℕ → String → TagMap → List Kv → List Event
batch_events clock i id before [] = []
batch_events clock i id before (t ∷ ts) =
    set_event (clock i) id t.key t.value (before t.key) ∷ batch_events clock (suc i) id before ts

tag_events-log :
    (clock : ℕ → ℕ) (i : ℕ) (id : String) (before : TagMap) (ts : List Kv) (db : Db)
    → tag_events clock i id before ts db
      ≡ record db { events = db.events ++ batch_events clock i id before ts }
unfolding tag_events batch_events tag_event write_run_event
tag_events-log clock i id before [] db = rw append-nil
tag_events-log clock i id before (t ∷ ts) db =
    rw (tag_events-log clock (suc i) id before ts _, append_assoc)

-- What the upserts leave as it was.
record Upserted (id : String) (ts : List Kv) (db db' : Db) : Type 0 where
  runs : db'.runs ≡ db.runs
  events : db'.events ≡ db.events
  experiments : db'.experiments ≡ db.experiments
  keys : HasKeys ts
  others :
      (k j : String)
      → (str_eq id k && mentions j ts) ≡ false
      → kv_value k j db'.tags ≡ kv_value k j db.tags

put_tags-Upserted :
    (id : String) (ts : List Kv) (db db' : Db) → put_tags id ts db ≡ ok db' → Upserted id ts db db'
unfolding put_tags mentions put_tag
put_tags-Upserted id [] db db' h =
    let e : db ≡ db' = cc in
    rw (← e)
      (record { runs = refl; events = refl; experiments = refl; keys = tt; others = λ k j _. refl })
put_tags-Upserted id (t ∷ ts) db db' h =
    let (valid, rest) = >>-eq-ok (valid_key t.key) _ h in
    let u = put_tags-Upserted id ts (put_tag id t.key t.value db) db' rest in
    record {
      runs = u.runs;
      events = u.events;
      experiments = u.experiments;
      keys = (valid_key-ne-empty t.key valid, u.keys);
      others = λ k j unseen.
          ground (arith, u.others k j, kv_value-upsert_kv id k t.key j t.value db.tags);
    }

select-batch_events :
    (clock : ℕ → ℕ) (i : ℕ) (id k : String) (before : TagMap) (ts : List Kv)
    → select_rows (is_about k) (batch_events clock i id before ts)
      ≡ (if str_eq id k then batch_events clock i id before ts else [])
unfolding select_rows batch_events
select-batch_events clock i id k before [] = ground arith
select-batch_events clock i id k before (t ∷ ts) =
    ground (arith, select-batch_events clock (suc i) id k before ts)

undo_run-batch_events :
    (clock : ℕ → ℕ) (i : ℕ) (id : String) (before : TagMap) (ts : List Kv) (run : Run)
    → undo_run (batch_events clock i id before ts) run ≡ run
unfolding undo_run batch_events
undo_run-batch_events clock i id before [] run = refl
undo_run-batch_events clock i id before (t ∷ ts) run =
    rw (undo_run-batch_events clock (suc i) id before ts run)
      (run_set_event (clock i) id t.key t.value (before t.key) run)

undo_tags-batch_events :
    (clock : ℕ → ℕ) (i : ℕ) (id j : String) (before : TagMap) (ts : List Kv) (m : TagMap)
    → HasKeys ts
    → undo_tags (batch_events clock i id before ts) m j ≡ (if mentions j ts then before j else m j)
unfolding undo_tags batch_events mentions put
undo_tags-batch_events clock i id j before [] m h = refl
undo_tags-batch_events clock i id j before (t ∷ ts) m (ht, h) =
    rw (undo_set_event (clock i) id t.key t.value (before t.key) _ ht) (
      ground (
        arith,
        eq_iff t.key j,
        undo_tags-batch_events clock (suc i) id j before ts m h,
        λ (e : t.key ≡ j). ap before e,
      ))

batch_events-IsLater :
    (t : ℕ) (clock : ℕ → ℕ) (i : ℕ) (id : String) (before : TagMap) (ts : List Kv)
    → ((n : ℕ) → t < clock n)
    → IsLater t (batch_events clock i id before ts)
unfolding batch_events
batch_events-IsLater t clock i id before [] late = tt
batch_events-IsLater t clock i id before (x ∷ ts) late =
    (late i, batch_events-IsLater t clock (suc i) id before ts late)

module _ (clock : ℕ → ℕ) (id : String) (ts : List Kv) (db db' : Db)
    (u : Upserted id ts db db') where
  batch_Undoes :
      (k : String) (run : Run) (log : List Event)
      → log ≡ batch_events clock 0 id (λ key. read_tag_value id key db) ts
      → find_run k db ≡ some run
      → Undoes k log run db (record db' { events = db'.events ++ log })
  unfolding tag_map read_tag_value
  batch_Undoes k run log e found =
      let before : TagMap = λ key. read_tag_value id key db in
      elim (Bool-cases (str_eq id k)) [
        | inl same ↦ record {
          run' = run;
          found = rw u.runs found;
          undone =
              rw (e, select-batch_events, same) (undo_run-batch_events clock 0 id before ts run);
          tags_undone =
              rw (e, select-batch_events, same)
                (fun_ext λ j.
                  (undo_tags-batch_events clock 0 id j before ts _ u.keys
                    ∙ ground (
                      arith,
                      u.others k j,
                      ap (λ x. kv_value x j db.tags) ((eq_iff id k).0 same),
                    )));
        }
        | inr other ↦ record {
          run' = run;
          found = rw u.runs found;
          undone = rw (e, select-batch_events, other) (unfold undo_run in refl);
          tags_undone =
              rw (e, select-batch_events, other)
                (unfold undo_tags in fun_ext λ j. u.others k j (ground arith));
        }
      ]

-- The upserts and the events of a batch.
pub put_tags-Extends :
    (t : ℕ) (clock : ℕ → ℕ) (id : String) (ts : List Kv) (db db' : Db)
    → ((n : ℕ) → t < clock n)
    → put_tags id ts db ≡ ok db'
    → Extends t db (tag_events clock 0 id (λ key. read_tag_value id key db) ts db')
put_tags-Extends t clock id ts db db' late done =
    let u = put_tags-Upserted id ts db db' done in
    let before : TagMap = λ key. read_tag_value id key db in
    let log = batch_events clock 0 id before ts in
    rw (tag_events-log clock 0 id before ts db') (record {
      added = log;
      log = ap (λ es. es ++ log) u.events;
      experiments = u.experiments;
      later = batch_events-IsLater t clock 0 id before ts late;
      undoes = λ k run found _. batch_Undoes clock id ts db db' u k run log refl found;
    })
