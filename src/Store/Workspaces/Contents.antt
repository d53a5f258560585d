-- ===== src/Store/Workspaces/Contents.antt =====
-- What is read after a workspace is created or renamed.

use litemlflow.Prelude.{
  ℕ, Bool, true, false, not, List, [], ◌∷◌, ◌++◌, Option, none, some, ◌≡◌, refl, sym, ap, ◌∙◌, ◌==◌,
  Text, text_eq, text_eq_refl, Result, ok, err, not_found, already_exists, invalid_value, guard,
  find_row, any_row, find_row-append, if◌then◌else◌, arith, >>-eq-ok, ok_inj,
}
use litemlflow.Model.{Workspace}
use litemlflow.Store.Workspaces.{
  Tables, has_id, validate_workspace_id, create_workspace, get_workspace,
}

-- The row that a creation stores.
abbrev pub stored : ℕ → Workspace → Workspace
stored now w = record w {
  creation_time = if w.creation_time == 0 then now else w.creation_time;
  last_update_time = if w.last_update_time == 0 then now else w.last_update_time;
}

read_row : Option Workspace → Result Workspace
read_row (some w) = ok w
read_row none = err not_found

get_workspace_row :
    (id : Text) (db : Tables) → get_workspace id db ≡ read_row (find_row (has_id id) db.workspaces)
unfolding get_workspace read_row
get_workspace_row id db =
    elim (find_row (has_id id) db.workspaces)
      as (λ o. elim o [ some w ↦ ok w | none ↦ err not_found ] ≡ read_row o) [
        | none ↦ refl
        | some w ↦ refl
      ]

guarded : (b : Bool) {x : Unit {0}} → guard (not b) already_exists ≡ ok x → b ≡ false
guarded true h = cc
guarded false h = refl

absent_row :
    (id : Text) (ws : List Workspace)
    → any_row (has_id id) ws ≡ false
    → find_row (has_id id) ws ≡ none
unfolding find_row any_row
absent_row id [] h = refl
absent_row id (w ∷ ws) h = ground (arith, absent_row id ws)

create_workspace-cases :
    (now : ℕ) (w : Workspace) (db db' : Tables)
    → create_workspace now w db ≡ ok db'
    → (validate_workspace_id w.id ≡ ok tt)
      × (find_row (has_id w.id) db.workspaces ≡ none)
      × (db' ≡ record db { workspaces = db.workspaces ++ stored now w ∷ [] })
unfolding create_workspace
create_workspace-cases now w db db' h =
    let (valid, h₁) = >>-eq-ok (validate_workspace_id w.id) _ h in
    let (_, h₂) = >>-eq-ok (guard (not (text_eq w.name [])) invalid_value) _ h₁ in
    let (fresh, e) =
      >>-eq-ok (guard (not (any_row (has_id w.id) db.workspaces)) already_exists) _ h₂ in
    (valid, absent_row w.id db.workspaces (guarded _ fresh), sym (ok_inj e))

or_else_row :
    (o : Option Workspace) (b : Bool) (w : Workspace)
    → b ≡ false
    → elim o [ some x ↦ some x | none ↦ if b then some w else none ] ≡ o
or_else_row none b w e = rw e refl
or_else_row (some x) b w e = refl

new_row :
    (now : ℕ) (w : Workspace) (ws : List Workspace)
    → find_row (has_id w.id) ws ≡ none
    → find_row (has_id w.id) (ws ++ stored now w ∷ []) ≡ some (stored now w)
unfolding find_row
new_row now w ws fresh =
    find_row-append (has_id w.id) ws (stored now w ∷ []) ∙ rw (fresh, text_eq_refl w.id) refl

-- A workspace is only created under a valid id that was free; it is then read back with its times
-- filled in, and every other id reads as before.
pub create_workspace-get_workspace :
    (now : ℕ) (w : Workspace) (other : Text) (db db' : Tables)
    → text_eq w.id other ≡ false
    → create_workspace now w db ≡ ok db'
    → (validate_workspace_id w.id ≡ ok tt)
      × (get_workspace w.id db ≡ err not_found)
      × (get_workspace w.id db' ≡ ok (stored now w))
      × (get_workspace other db' ≡ get_workspace other db)
unfolding read_row find_row
create_workspace-get_workspace now w other db db' apart h =
    let (valid, fresh, e) = create_workspace-cases now w db db' h in
    (
      valid,
      get_workspace_row w.id db ∙ ap read_row fresh,
      rw e (get_workspace_row w.id _ ∙ ap read_row (new_row now w db.workspaces fresh)),
      rw e (
          get_workspace_row other _
          ∙ ap read_row (
              find_row-append (has_id other) db.workspaces (stored now w ∷ [])
              ∙ or_else_row (find_row (has_id other) db.workspaces) (text_eq w.id other)
                  (stored now w) apart)
          ∙ sym (get_workspace_row other db)),
    )
