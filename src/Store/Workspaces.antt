-- ===== src/Store/Workspaces.antt =====
-- internal/store/workspaces.go: workspaces, their members, and the tables whose rows a workspace
-- owns (of which only the column workspace_id matters here).
pub mod Deletion
pub mod Membership
pub mod Contents
use litemlflow.Prelude.{
  ℕ, Bool, true, false, not, ◌&&◌, ◌||◌, List, [], ◌∷◌, ◌++◌, Option, none, some, ◌≡◌, refl, ◌==◌,
  ltb, leb, length, if◌then◌else◌, Text, codes, text_eq, Result, ok, err, not_found, already_exists,
  conflict, invalid_value, ◌>>=◌, ◌>>◌, guard, find_row, any_row, select_rows, update_rows,
  delete_rows,
}
use litemlflow.Model.{Workspace, WorkspaceMember}

pub record Tables : Type 0 where
  pub workspaces : List Workspace
  pub members : List WorkspaceMember
  pub experiments : List Text
  pub registered_models : List Text
  pub prompts : List Text
  pub datasets_v2 : List Text
  pub webhooks : List Text
  pub peers : List Text
  pub dashboards : List Text

abbrev pub default_workspace : Text
default_workspace = codes "default"

abbrev pub has_id : Text → Workspace → Bool
has_id id w = text_eq w.id id

abbrev pub is_member : Text → Text → WorkspaceMember → Bool
is_member workspace user m = text_eq m.workspace_id workspace && text_eq m.user_id user

-- `workspaceOwnedTables`
unfoldable pub owned_tables : Tables → List (List Text)
owned_tables db =
    db.experiments ∷ db.registered_models ∷ db.prompts ∷ db.datasets_v2 ∷ db.webhooks ∷ db.peers
    ∷ []

-- A lowercase letter, a digit or a hyphen.
unfoldable pub is_slug_char : ℕ → Bool
is_slug_char c = (leb b'a' c && leb c b'z') || (leb b'0' c && leb c b'9') || c == b'-'

unfoldable pub all_slug : Text → Bool
unfolding is_slug_char
all_slug [] = true
all_slug (c ∷ s) = is_slug_char c && all_slug s

-- `validateWorkspaceID`
unfoldable pub validate_workspace_id : Text → Result (Unit {0})
validate_workspace_id id =
    if text_eq id []
    then err invalid_value
    else if ltb 64 (length id)
    then err invalid_value
    else if all_slug id
    then ok tt
    else err invalid_value

-- `CreateWorkspace`; the primary key is the id.
unfoldable pub create_workspace : ℕ → Workspace → Tables → Result Tables
create_workspace now w db = do
  validate_workspace_id w.id
  guard (not (text_eq w.name [])) invalid_value
  guard (not (any_row (has_id w.id) db.workspaces)) already_exists
  ok (record db {
    workspaces =
        db.workspaces
        ++ record w {
          creation_time = if w.creation_time == 0 then now else w.creation_time;
          last_update_time = if w.last_update_time == 0 then now else w.last_update_time;
        }
          ∷ [];
  })

-- `GetWorkspace`
unfoldable pub get_workspace : Text → Tables → Result Workspace
get_workspace id db = elim (find_row (has_id id) db.workspaces) [
  | some w ↦ ok w
  | none ↦ err not_found
]

abbrev pub set_or : Option Text → Text → Text
set_or none old = old
set_or (some new) old = new

-- `UpdateWorkspace`
unfoldable pub update_workspace : ℕ → Text → Option Text → Option Text → Tables → Result Tables
update_workspace now id name description db =
    if elim name [ some n ↦ text_eq n [] | none ↦ false ]
    then err invalid_value
    else if elim name [ some _ ↦ false | none ↦ elim description [ some _ ↦ false | none ↦ true ] ]
    then ok db
    else if not (any_row (has_id id) db.workspaces)
    then err not_found
    else ok (record db {
      workspaces =
          update_rows (has_id id)
            (λ w. record w {
              name = set_or name w.name;
              description = set_or description w.description;
              last_update_time = now;
            })
            db.workspaces;
    })

-- EXISTS (SELECT 1 FROM … WHERE workspace_id = ?), for one of the owned tables
unfoldable pub owns_rows : Text → List (List Text) → Bool
owns_rows id [] = false
owns_rows id (rows ∷ tables) = any_row (λ w. text_eq w id) rows || owns_rows id tables

-- `DeleteWorkspace`: the members, the experiments, the prompts and the registered models go by ON
-- DELETE CASCADE, the dashboards by a statement of their own.
unfoldable pub delete_workspace : Text → Tables → Result Tables
delete_workspace id db =
    if text_eq id default_workspace
    then err conflict
    else if not (any_row (has_id id) db.workspaces)
    then err not_found
    else if owns_rows id (owned_tables db)
    then err conflict
    else ok (record db {
      workspaces = delete_rows (has_id id) db.workspaces;
      members = delete_rows (λ m. text_eq m.workspace_id id) db.members;
      experiments = delete_rows (λ w. text_eq w id) db.experiments;
      registered_models = delete_rows (λ w. text_eq w id) db.registered_models;
      prompts = delete_rows (λ w. text_eq w id) db.prompts;
      dashboards = delete_rows (λ w. text_eq w id) db.dashboards;
    })

abbrev pub valid_role : Text → Bool
valid_role role =
    text_eq role (codes "viewer") || text_eq role (codes "editor") || text_eq role (codes "admin")

unfoldable pub upsert_member : Text → Text → Text → List WorkspaceMember → List WorkspaceMember
upsert_member workspace user role [] =
    record { workspace_id = workspace; user_id = user; role = role } ∷ []
upsert_member workspace user role (m ∷ rows) =
    if is_member workspace user m
    then record m { role = role } ∷ rows
    else m ∷ upsert_member workspace user role rows

-- `AddMember`
unfoldable pub add_member : Text → Text → Text → Tables → Result Tables
add_member workspace user role db = do
  guard (valid_role role) invalid_value
  _ ← get_workspace workspace db
  ok (record db { members = upsert_member workspace user role db.members })

-- `RemoveMember`
unfoldable pub remove_member : Text → Text → Tables → Result Tables
remove_member workspace user db = do
  guard (any_row (is_member workspace user) db.members) not_found
  ok (record db { members = delete_rows (is_member workspace user) db.members })

-- `ListMembers`, in the order of the table
unfoldable pub list_members : Text → Tables → List WorkspaceMember
list_members workspace db = select_rows (λ m. text_eq m.workspace_id workspace) db.members

-- `GetMemberRole`
unfoldable pub get_member_role : Text → Text → Tables → Result Text
get_member_role workspace user db = elim (find_row (is_member workspace user) db.members) [
  | some m ↦ ok m.role
  | none ↦ err not_found
]
