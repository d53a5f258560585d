-- ===== src/Store/Lineage/Down.antt =====
-- The walk down: it stays in the workspace, is bounded, and meets no run twice.
use litemlflow.Prelude.{
  ℕ, zero, suc, ◌+◌, ◌*◌, ◌≤◌, String, Bool, false, ◌||◌, List, [], ◌∷◌, ◌++◌, ◌≡◌, refl, sym, ap,
  ◌∙◌, inl, inr, leb, length, length-append, take, arith, All, All-append, Bool-cases, select_rows,
  sort_rows-All,
}
use litemlflow.Model.{Run}
use litemlflow.Store.Db.{Db}
use litemlflow.Store.Lineage.{
  is_visited, is_child, starts_before, children_of, Level, add_child, add_children, ids_of,
  walk_levels,
}
use litemlflow.Store.Lineage.Up.{
  InWorkspace, NoRepeat, Apart, not_among, fewer_ids, Chain, nothing_found,
}

is_visited-append :
    (id : String) (xs ys : List String)
    → is_visited id (xs ++ ys) ≡ (is_visited id xs || is_visited id ys)
unfolding is_visited
is_visited-append id [] ys = refl
is_visited-append id (x ∷ xs) ys = ground (arith, is_visited-append id xs ys)

ids_of-append : (xs ys : List Run) → ids_of (xs ++ ys) ≡ ids_of xs ++ ids_of ys
unfolding ids_of
ids_of-append [] ys = refl
ids_of-append (x ∷ xs) ys = ap (λ l. x.id ∷ l) (ids_of-append xs ys)

NoRepeat-append :
    (ids : List String) (runs : List Run)
    → NoRepeat ids
    → Apart ids runs
    → NoRepeat (ids_of runs)
    → NoRepeat (ids ++ ids_of runs)
NoRepeat-append [] runs _ _ k = k
NoRepeat-append (id ∷ ids) runs (new, h) apart k = (
  is_visited-append id ids (ids_of runs) ∙ ground (arith, new, not_among id ids runs apart),
  NoRepeat-append ids runs h (fewer_ids id ids runs apart) k,
)

-- A level of the walk, when those with the ids of `visited` were found before it.
record Growing (visited : List String) (workspace : String) (db : Db) (max_fan_out : ℕ) (l : Level)
    : Type 0 where
  inside : All (InWorkspace workspace db) l.new
  fits : length l.new ≤ max_fan_out
  apart : Apart visited l.new
  no_repeat : NoRepeat (ids_of l.new)
  covers :
      (id : String)
      → is_visited id l.visited ≡ (is_visited id visited || is_visited id (ids_of l.new))

module _ (visited : List String) (workspace : String) (db : Db) (max_fan_out : ℕ) where
  grown :
      (r : Run) (l : Level)
      → InWorkspace workspace db r
      → Growing visited workspace db max_fan_out l
      → is_visited r.id l.visited ≡ false
      → leb max_fan_out (length l.new) ≡ false
      → Growing visited workspace db max_fan_out
          (record l { visited = r.id ∷ l.visited; new = l.new ++ (r ∷ []) })
  unfolding is_visited ids_of
  grown r l inside g new room =
      let elsewhere : (is_visited r.id visited || is_visited r.id (ids_of l.new)) ≡ false =
        sym (g.covers r.id) ∙ new in
      let before : is_visited r.id visited ≡ false = ground arith in
      let here : is_visited r.id (ids_of l.new) ≡ false = ground arith in
      record {
        inside = All-append (InWorkspace workspace db) l.new (r ∷ []) g.inside (inside, tt);
        fits = ground (arith, length-append {0} l.new (r ∷ []));
        apart =
            All-append (λ q. is_visited q.id visited ≡ false) l.new (r ∷ []) g.apart (before, tt);
        no_repeat =
            rw (ids_of-append l.new (r ∷ []))
              (NoRepeat-append (ids_of l.new) (r ∷ []) g.no_repeat (here, tt) (refl, tt));
        covers = λ id.
            rw (ids_of-append l.new (r ∷ []), is_visited-append id (ids_of l.new) (r.id ∷ []))
              (ground (arith, g.covers id));
      }

  add_child-Growing :
      (r : Run) (l : Level)
      → InWorkspace workspace db r
      → Growing visited workspace db max_fan_out l
      → Growing visited workspace db max_fan_out (add_child max_fan_out r l)
  unfolding add_child
  add_child-Growing r l inside g = elim (Bool-cases (is_visited r.id l.visited)) [
    | inl seen ↦ rw seen g
    | inr new ↦ elim (Bool-cases (leb max_fan_out (length l.new))) [
      | inl full ↦
          rw (new, full)
            record {
              inside = g.inside;
              fits = g.fits;
              apart = g.apart;
              no_repeat = g.no_repeat;
              covers = g.covers;
            }
      | inr room ↦ rw (new, room) (grown r l inside g new room)
    ]
  ]

  add_children-Growing :
      (rows : List Run) (l : Level)
      → All (InWorkspace workspace db) rows
      → Growing visited workspace db max_fan_out l
      → Growing visited workspace db max_fan_out (add_children max_fan_out rows l)
  unfolding add_children
  add_children-Growing [] l _ g = g
  add_children-Growing (r ∷ rows) l (inside, h) g =
      add_children-Growing rows (add_child max_fan_out r l) h (add_child-Growing r l inside g)

select_rows-children :
    (frontier : List String) (workspace : String) (db : Db) (runs : List Run)
    → All (InWorkspace workspace db) (select_rows (is_child frontier workspace db.experiments) runs)
unfolding select_rows is_child
select_rows-children frontier workspace db [] = tt
select_rows-children frontier workspace db (r ∷ runs) =
    elim (Bool-cases (is_child frontier workspace db.experiments r)) [
      | inl child ↦ rw child (ground arith, select_rows-children frontier workspace db runs)
      | inr other ↦ rw other (select_rows-children frontier workspace db runs)
    ]

take-All : {A : Type 0} (P : A → Type 0) (n : ℕ) (xs : List A) → All P xs → All P (take n xs)
take-All P zero xs h = tt
take-All P (suc n) [] h = tt
take-All P (suc n) (x ∷ xs) (px, h) = (px, take-All P n xs h)

children_of-InWorkspace :
    (frontier : List String) (workspace : String) (max_fan_out : ℕ) (db : Db)
    → All (InWorkspace workspace db) (children_of frontier workspace max_fan_out db)
unfolding children_of
children_of-InWorkspace frontier workspace max_fan_out db = take-All _ (suc max_fan_out) _ (
    sort_rows-All starts_before (InWorkspace workspace db) _
      (select_rows-children frontier workspace db db.runs))

-- What is apart from all visited runs is apart from those before the level and from its own.
module _ (visited : List String) (workspace : String) (db : Db) (max_fan_out : ℕ) (l : Level)
    (g : Growing visited workspace db max_fan_out l) where
  unseen_before : (runs : List Run) → Apart l.visited runs → Apart visited runs
  unseen_before [] h = tt
  unseen_before (r ∷ runs) (new, h) = (ground (arith, g.covers r.id), unseen_before runs h)

  unseen_level : (runs : List Run) → Apart l.visited runs → Apart (ids_of l.new) runs
  unseen_level [] h = tt
  unseen_level (r ∷ runs) (new, h) = (ground (arith, g.covers r.id), unseen_level runs h)

  add_level :
      (room : ℕ) (below : List Run)
      → Chain l.visited workspace db room below
      → Chain visited workspace db (max_fan_out + room) (l.new ++ below)
  add_level room below c = record {
    inside = All-append (InWorkspace workspace db) l.new below g.inside c.inside;
    fits = omega (arith, length-append {0} l.new below, g.fits, c.fits);
    apart =
        All-append (λ r. is_visited r.id visited ≡ false) l.new below g.apart
          (unseen_before below c.apart);
    no_repeat =
        rw (ids_of-append l.new below) (
          NoRepeat-append (ids_of l.new) below g.no_repeat (unseen_level below c.apart)
            c.no_repeat);
  }

nothing_yet :
    (visited : List String) (workspace : String) (db : Db) (max_fan_out : ℕ) (truncated : Bool)
    → Growing visited workspace db max_fan_out
        (record { visited = visited; new = []; truncated = truncated })
unfolding ids_of is_visited
nothing_yet visited workspace db max_fan_out truncated = record {
  inside = tt;
  fits = omega arith;
  apart = tt;
  no_repeat = tt;
  covers = λ id. ground arith;
}

more_room : (depth max_fan_out : ℕ) → max_fan_out + depth * max_fan_out ≡ suc depth * max_fan_out
more_room depth max_fan_out = grind arith

pub walk_levels-Chain :
    (depth max_fan_out : ℕ) (visited frontier : List String) (truncated : Bool) (workspace : String)
    (db : Db)
    → Chain visited workspace db
        (depth * max_fan_out)
        (walk_levels depth max_fan_out visited frontier truncated workspace db).0
unfolding walk_levels
walk_levels-Chain zero max_fan_out visited frontier truncated workspace db =
    nothing_found visited workspace db (0 * max_fan_out)
walk_levels-Chain (suc depth) max_fan_out visited [] truncated workspace db =
    nothing_found visited workspace db (suc depth * max_fan_out)
walk_levels-Chain (suc depth) max_fan_out visited (id ∷ frontier) truncated workspace db =
    let rows = children_of (id ∷ frontier) workspace max_fan_out db in
    let start : Level = record { visited = visited; new = []; truncated = truncated } in
    let l = add_children max_fan_out rows start in
    let g =
      add_children-Growing visited workspace db max_fan_out rows start
        (children_of-InWorkspace (id ∷ frontier) workspace max_fan_out db)
        (nothing_yet visited workspace db max_fan_out truncated) in
    rw (← more_room depth max_fan_out) (
      add_level visited workspace db max_fan_out l g (depth * max_fan_out) _
        (walk_levels-Chain depth max_fan_out l.visited (ids_of l.new) l.truncated workspace db))
