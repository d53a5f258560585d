-- ===== src/Store/Replay/History.antt =====
-- Histories: the methods run one after another, and the read at an instant gives the state that the
-- database had at that instant.
use litemlflow.Prelude.{ℕ, String, List, Option, ◌≡◌, ◌≢◌, ◌<◌, ok}
use litemlflow.Model.{Run, Kv}
use litemlflow.Store.Db.{Db}
use litemlflow.Store.Runs.{update_run, set_run_lifecycle, set_tag, set_tags, delete_tag, create_run}
use litemlflow.Store.Replay.Undo.{Extends, Extends-refl, Extends-trans}
use litemlflow.Store.Replay.Methods.{
  update_run-Extends, set_run_lifecycle-Extends, set_tag-Extends, set_tags-Extends,
  delete_tag-method-Extends,
}
use litemlflow.Store.Replay.Create.{create_run-Extends}

-- One call of a method, whatever its arguments; its clock's readings come as they come. A call that
-- fails is no step: its transaction is rolled back.
pub data Call (clock : ℕ → ℕ) (db db' : Db) : Type 0 where
  create : (fresh : String) (r : Run) → create_run clock fresh r db ≡ ok db' → Call clock db db'
  update :
      (id : String) (status : Option String) (end_time : Option ℕ) (name : Option String)
      → update_run clock id status end_time name db ≡ ok db'
      → Call clock db db'
  lifecycle : (id stage : String) → set_run_lifecycle clock id stage db ≡ ok db' → Call clock db db'
  tag : (id : String) (x : Kv) → set_tag clock id x db ≡ ok db' → Call clock db db'
  tags : (id : String) (ts : List Kv) → set_tags clock id ts db ≡ ok db' → Call clock db db'
  untag : (id key : String) → key ≢ "" → delete_tag clock id key db ≡ ok db' → Call clock db db'

-- Calls one after another, all of whose clock readings are later than `t`.
pub data After (t : ℕ) (db : Db) : Db → Type 0 where
  here : After t db db
  then_call :
      {db₁ db₂ : Db} (clock : ℕ → ℕ)
      → After t db db₁
      → ((n : ℕ) → t < clock n)
      → Call clock db₁ db₂
      → After t db db₂

pub Call-Extends :
    (t : ℕ) (clock : ℕ → ℕ) {db db' : Db}
    → ((n : ℕ) → t < clock n)
    → Call clock db db'
    → Extends t db db'
Call-Extends t clock late (create fresh r h) = create_run-Extends t clock late fresh r _ _ h
Call-Extends t clock late (update id status end_time name h) =
    update_run-Extends t clock late id status end_time name _ _ h
Call-Extends t clock late (lifecycle id stage h) =
    set_run_lifecycle-Extends t clock late id stage _ _ h
Call-Extends t clock late (tag id x h) = set_tag-Extends t clock late id x _ _ h
Call-Extends t clock late (tags id ts h) = set_tags-Extends t clock late id ts _ _ h
Call-Extends t clock late (untag id key nonempty h) =
    delete_tag-method-Extends t clock late id key _ _ nonempty h

pub After-Extends : {t : ℕ} {db db' : Db} → After t db db' → Extends t db db'
After-Extends {t} {db} here = Extends-refl t db
After-Extends {t} (then_call clock before late c) =
    Extends-trans (After-Extends before) (Call-Extends t clock late c)
