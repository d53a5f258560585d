-- ===== src/Store/Replay/Undo.antt =====
-- What undoing a stretch of the log gives: `Extends` relates two states of the database of which
-- the later one has more events, and says that undoing those gives the earlier state back.

use mathlib.Core.List.{append_assoc, append-nil}
use litemlflow.Prelude.{
  ℕ, String, List, [], ◌∷◌, ◌++◌, Option, none, some, ◌≡◌, refl, sym, ap, ◌∙◌, ◌^◌, ◌≤◌, ◌<◌, arith,
  All, All-append, All-append_left, All-append_right, select_rows, select_rows-append,
}
use litemlflow.Model.{Run}
use litemlflow.Store.Db.{Db, Before, fields, text, absent, Event, find_run}
use litemlflow.Store.Replay.{
  through_float, TagMap, tag_map, apply_undo, apply_tag_undo, undo_run, undo_tags, is_about,
}

-- An end time that a float64 holds exactly.
abbrev pub IsExact : Option ℕ → Type 0
IsExact none = Unit
IsExact (some ms) = ms ≤ 2 ^ 53

abbrev pub ExactBefore : Before → Type 0
ExactBefore absent = Unit
ExactBefore (fields b) = IsExact b.end_time
ExactBefore (text _) = Unit

-- The events record no end time above 2 ^ 53.
abbrev pub AllExact : List Event → Type 0
AllExact = All (λ e. ExactBefore e.payload.before)

abbrev pub IsLater : ℕ → List Event → Type 0
IsLater t = All (λ e. t < e.ts_ms)

pub through_float_exact : (n : ℕ) → n ≤ 2 ^ 53 → through_float n ≡ n
unfolding through_float
through_float_exact n h = ground arith

pub undo_run-append :
    (xs ys : List Event) (run : Run) → undo_run (xs ++ ys) run ≡ undo_run xs (undo_run ys run)
unfolding undo_run
undo_run-append [] ys run = refl
undo_run-append (x ∷ xs) ys run = ap (λ r. apply_undo r x) (undo_run-append xs ys run)

pub undo_tags-append :
    (xs ys : List Event) (m : TagMap) → undo_tags (xs ++ ys) m ≡ undo_tags xs (undo_tags ys m)
unfolding undo_tags
undo_tags-append [] ys m = refl
undo_tags-append (x ∷ xs) ys m = ap (λ r. apply_tag_undo r x) (undo_tags-append xs ys m)

-- What undoing the added events of a run gives, from the later state `run'` and its tags.
pub record Undoes (id : String) (added : List Event) (run : Run) (db db' : Db) : Type 0 where
  pub run' : Run
  pub found : find_run id db' ≡ some run'
  pub undone : undo_run (select_rows (is_about id) added) run' ≡ run
  pub tags_undone : undo_tags (select_rows (is_about id) added) (tag_map id db') ≡ tag_map id db

pub record Extends (t : ℕ) (db db' : Db) : Type 0 where
  pub added : List Event
  pub log : db'.events ≡ db.events ++ added
  pub experiments : db'.experiments ≡ db.experiments
  pub later : IsLater t added
  pub undoes :
      (id : String) (run : Run)
      → find_run id db ≡ some run
      → AllExact added
      → Undoes id added run db db'

pub Extends-refl : (t : ℕ) (db : Db) → Extends t db db
Extends-refl t db = record {
  added = [];
  log = sym (append-nil _);
  experiments = refl;
  later = tt;
  undoes = λ id run e _. record {
    run' = run;
    found = e;
    undone = unfold undo_run select_rows in refl;
    tags_undone = unfold undo_tags select_rows in refl;
  };
}

pub Undoes-trans :
    {id : String} {xs ys : List Event} {run : Run} {db₁ db₂ db₃ : Db} (u : Undoes id xs run db₁ db₂)
    → Undoes id ys u.run' db₂ db₃
    → Undoes id (xs ++ ys) run db₁ db₃
Undoes-trans {id} {xs} {ys} u v = record {
  run' = v.run';
  found = v.found;
  undone = rw (select_rows-append (is_about id) xs ys, undo_run-append, v.undone) u.undone;
  tags_undone =
      rw (select_rows-append (is_about id) xs ys, undo_tags-append, v.tags_undone) u.tags_undone;
}

pub Extends-trans :
    {t : ℕ} {db₁ db₂ db₃ : Db} → Extends t db₁ db₂ → Extends t db₂ db₃ → Extends t db₁ db₃
Extends-trans {db₁} a b = record {
  added = a.added ++ b.added;
  log = rw (b.log, a.log) (append_assoc db₁.events a.added b.added);
  experiments = b.experiments ∙ a.experiments;
  later = All-append _ a.added b.added a.later b.later;
  undoes = λ id run e exact.
      let u = a.undoes id run e (All-append_left _ a.added b.added exact) in
      Undoes-trans u (b.undoes id u.run' u.found (All-append_right _ a.added b.added exact));
}
