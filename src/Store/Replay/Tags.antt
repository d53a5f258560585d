-- ===== src/Store/Replay/Tags.antt =====
-- The upsert of tags and the removal of a tag, with their events, extend the log undoably.

use litemlflow.Prelude.{
  ℕ, String, ◌&&◌, List, [], ◌∷◌, Option, none, some, ◌≡◌, ◌≢◌, refl, ap, fun_ext, ◌<◌,
  if◌then◌else◌, arith, str_eq, eq_iff, find_row, ok, select_rows, delete_rows, Bool-cases, inl,
  inr,
}
use litemlflow.Model.{Run}
use litemlflow.Model.Names.{valid_key}
use litemlflow.Store.Db.{
  Db, RunKv, text, Event, tag_set, tag_delete, find_run, is_kv, kv_value, upsert_kv, read_tag_value,
  write_run_event, tag_payload,
}
use litemlflow.Store.Runs.{put_tag, tag_event}
use litemlflow.Store.Replay.{
  TagMap, tag_map, put, apply_undo, apply_tag_undo, undo_run, undo_tags, is_about,
}
use litemlflow.Store.Replay.Undo.{Extends, Undoes}

pub kv_value-upsert_kv :
    (id k key j value : String) (rows : List RunKv)
    → kv_value k j (upsert_kv id key value rows)
      ≡ (if str_eq id k && str_eq key j then some value else kv_value k j rows)
unfolding kv_value upsert_kv find_row
kv_value-upsert_kv id k key j value [] = ground arith
kv_value-upsert_kv id k key j value (t ∷ rows) = ground (
  arith,
  eq_iff id k,
  eq_iff key j,
  eq_iff t.run_id id,
  eq_iff t.run_id k,
  eq_iff t.key key,
  eq_iff t.key j,
  kv_value-upsert_kv id k key j value rows,
)

pub kv_value-delete_rows :
    (id k key j : String) (rows : List RunKv)
    → kv_value k j (delete_rows (is_kv id key) rows)
      ≡ (if str_eq id k && str_eq key j then none else kv_value k j rows)
unfolding kv_value delete_rows find_row select_rows
kv_value-delete_rows id k key j [] = ground arith
kv_value-delete_rows id k key j (t ∷ rows) = ground (
  arith,
  eq_iff id k,
  eq_iff key j,
  eq_iff t.run_id id,
  eq_iff t.run_id k,
  eq_iff t.key key,
  eq_iff t.key j,
  kv_value-delete_rows id k key j rows,
)

-- The keys that `ValidKey` accepts are not empty.
pub valid_key-ne-empty : (key : String) → valid_key key ≡ ok tt → key ≢ ""
unfolding valid_key
valid_key-ne-empty key h e = ground (arith, eq_iff key "")

abbrev pub set_event : ℕ → String → String → String → Option String → Event
set_event now id key value before = record {
  ts_ms = now;
  kind = tag_set;
  entity_id = id;
  payload = tag_payload key value before;
}

abbrev delete_event : ℕ → String → String → String → Event
delete_event now id key old = record {
  ts_ms = now;
  kind = tag_delete;
  entity_id = id;
  payload = record { before = text old; key = key; value = "" };
}

pub undo_set_event :
    (now : ℕ) (id key value : String) (before : Option String) (m : TagMap)
    → key ≢ ""
    → apply_tag_undo m (set_event now id key value before) ≡ put key before m
unfolding apply_tag_undo
undo_set_event now id key value none m h = ground (arith, eq_iff key "")
undo_set_event now id key value (some old) m h = ground (arith, eq_iff key "")

pub run_set_event :
    (now : ℕ) (id key value : String) (before : Option String) (run : Run)
    → apply_undo run (set_event now id key value before) ≡ run
unfolding apply_undo
run_set_event now id key value none run = refl
run_set_event now id key value (some old) run = refl

undo_delete_event :
    (now : ℕ) (id key old : String) (m : TagMap)
    → key ≢ ""
    → apply_tag_undo m (delete_event now id key old) ≡ put key (some old) m
unfolding apply_tag_undo
undo_delete_event now id key old m h = ground (arith, eq_iff key "")

-- A new value of one tag, with an event that puts back the value that the tag had.
module _ (id key : String) (e : Event) (before value : Option String)
    (about : (k : String) → is_about k e ≡ str_eq id k)
    (keeps_run : (run : Run) → apply_undo run e ≡ run)
    (puts : (m : TagMap) → apply_tag_undo m e ≡ put key before m) where
  tag_change_Undoes :
      (db db' : Db) (k : String) (run : Run)
      → find_run k db ≡ some run
      → db'.runs ≡ db.runs
      → read_tag_value id key db ≡ before
      → ((k j : String)
          → kv_value k j db'.tags
            ≡ (if str_eq id k && str_eq key j then value else kv_value k j db.tags))
      → Undoes k (e ∷ []) run db db'
  unfolding select_rows undo_run undo_tags tag_map read_tag_value put
  tag_change_Undoes db db' k run found runs old tags = elim (Bool-cases (str_eq id k)) [
    | inl same ↦ record {
      run' = run;
      found = rw runs found;
      undone = rw (about, same) (keeps_run run);
      tags_undone =
          rw (about, same, puts)
            (fun_ext λ j.
              let p : kv_value id key db.tags ≡ kv_value k key db.tags =
                ap (λ x. kv_value x key db.tags) ((eq_iff id k).0 same) in
              ground (arith, tags k j, eq_iff key j, same, old, p));
    }
    | inr other ↦ record {
      run' = run;
      found = rw runs found;
      undone = rw (about, other);
      tags_undone = rw (about, other) (fun_ext λ j. ground (arith, tags k j, other));
    }
  ]

-- The upsert of a tag with its event.
pub put_tag-Extends :
    (t now : ℕ) (id key value : String) (db : Db)
    → t < now
    → key ≢ ""
    → Extends t db (tag_event now id key value (read_tag_value id key db) (put_tag id key value db))
unfolding tag_event write_run_event put_tag
put_tag-Extends t now id key value db late nonempty =
    let before = read_tag_value id key db in
    record {
      added = set_event now id key value before ∷ [];
      log = refl;
      experiments = refl;
      later = (late, tt);
      undoes = λ k run found _.
          tag_change_Undoes id key (set_event now id key value before) before (some value)
            (λ _. refl) (run_set_event now id key value before)
            (λ m. undo_set_event now id key value before m nonempty) db _ k run found refl refl
            (λ x j. kv_value-upsert_kv id x key j value db.tags);
    }

-- The removal of a tag with its event.
pub delete_tag-Extends :
    (t now : ℕ) (id key old : String) (db : Db)
    → t < now
    → key ≢ ""
    → read_tag_value id key db ≡ some old
    → Extends t db (
        write_run_event now tag_delete id
          (record { before = text old; key = key; value = "" })
          (record db { tags = delete_rows (is_kv id key) db.tags }))
unfolding write_run_event
delete_tag-Extends t now id key old db late nonempty held = record {
  added = delete_event now id key old ∷ [];
  log = refl;
  experiments = refl;
  later = (late, tt);
  undoes = λ k run found _.
      tag_change_Undoes id key (delete_event now id key old) (some old) none (λ _. refl)
        (unfold apply_undo in λ _. refl) (λ m. undo_delete_event now id key old m nonempty) db _ k
        run found refl held (λ x j. kv_value-delete_rows id x key j db.tags);
}
