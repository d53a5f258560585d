-- ===== src/Server/Tests.antt =====
-- The server's theorems at concrete requests.
use litemlflow.Prelude.{
  ℕ, ◌-◌, Bool, true, false, ◌&&◌, [], ◌∷◌, none, some, ◌≡◌, ◌⊎◌, inr, refl, Text, codes, text_eq,
  ok, err, not_found, drop_prefix, if◌then◌else◌, leb,
}
use litemlflow.Model.{Workspace, WorkspaceMember}
use litemlflow.Server.Rbac.{
  post, delete, viewer, admin, required_role, role_at_least, rank, path_rules,
  workspace_path_target, before_slash, is_workspace_agnostic_path,
}
use litemlflow.Server.Rbac.Guarded.{posts, ViewerMay, required_role_native}
use litemlflow.Server.Gate.{
  Request, MemberStore, default_workspace, strip_identity, with_session, with_basic, with_anonymous,
  find_session, auth_middleware, basic_auth, by_mode, charge, named_workspace, workspace_middleware,
  check_role, check_current, check_target, current_user, current_workspace, rbac_middleware,
  and_then, admit,
}
use litemlflow.Server.Gate.Identity.{Identified, auth_middleware-headers, auth_middleware-next}
use litemlflow.Server.Gate.Roles.{Passes, rbac_middleware-next, rbac_middleware-target}
use litemlflow.Server.Gate.Admin.{rbac_middleware-admin}
use litemlflow.Server.Gate.Chain.{Authenticated, workspace_middleware-next, admit-next}

program : Unit {0}
unfolding path_rules rank role_at_least before_slash drop_prefix workspace_path_target
    strip_identity with_session with_basic with_anonymous find_session auth_middleware basic_auth
    by_mode charge named_workspace workspace_middleware check_role check_current check_target
    current_user current_workspace rbac_middleware and_then admit is_workspace_agnostic_path
program = tt

abbrev team : Text
team = codes "team"

abbrev bob : Text
bob = codes "bob"

abbrev member : Text → Text → Text → WorkspaceMember
member w u role = record { workspace_id = w; user_id = u; role = role }

-- One workspace besides the default one, and its administrator.
abbrev store : MemberStore
store = record {
  get_workspace = λ id.
      if text_eq id team
      then ok (record {
        id = team;
        name = team;
        description = [];
        creation_time = 0;
        last_update_time = 0;
      })
      else err not_found;
  list_members = λ id.
      if text_eq id team
      then ok (member team bob admin ∷ [])
      else ok (member default_workspace bob viewer ∷ []);
  get_member_role = λ id user.
      if text_eq user bob then if text_eq id team then ok admin else ok viewer else err not_found;
}

abbrev sent : Request
sent = record {
  method = delete;
  path = codes "/api/v1/workspaces/team";
  accept = [];
  remote = [];
  session_cookie = none;
  basic = some (bob, codes "secret");
  x_workspace = [];
  workspace_cookie = none;
  user_header = codes "root";
  auth_method_header = [];
  role_header = admin;
  workspace_header = [];
  ctx_user = [];
  ctx_workspace = [];
  ctx_role = [];
}

abbrev verify : Text → Text → Bool
verify user pass = text_eq user bob && text_eq pass (codes "secret")

abbrev limiter : ℕ → Request → Bool × ℕ
limiter n r = if leb n 0 then (false, 0) else (true, n - 1)

abbrev identified : Request
identified = record sent {
  user_header = bob;
  auth_method_header = codes "basic";
  role_header = [];
  ctx_user = bob;
}

abbrev placed : Request
placed = record identified {
  ctx_workspace = default_workspace;
  workspace_header = default_workspace;
}

abbrev passed : Request
passed = record placed { role_header = admin; ctx_role = admin }

auth_middleware-headers_example :
    auth_middleware verify
      (some limiter)
      none
      (codes "basic")
      5
      (record sent { user_header = bob; auth_method_header = []; role_header = viewer })
    ≡ auth_middleware verify (some limiter) none (codes "basic") 5 sent
auth_middleware-headers_example =
    auth_middleware-headers verify (some limiter) none (codes "basic") bob [] viewer 5 sent

auth_middleware-next_example : Identified verify none (codes "basic") sent identified
unfolding program
auth_middleware-next_example =
    auth_middleware-next verify (some limiter) none (codes "basic") 5 sent identified refl

workspace_middleware-next_example :
    (id : Text) × (placed ≡ record identified { ctx_workspace = id; workspace_header = id })
    × ((id ≡ default_workspace) ⊎ ((w : Workspace) × (store.get_workspace id ≡ ok w)))
    × ((id ≡ named_workspace identified) ⊎ (is_workspace_agnostic_path identified.path ≡ true))
unfolding program
workspace_middleware-next_example = workspace_middleware-next store identified placed refl

rbac_middleware-next_example : Passes (codes "basic") store placed passed
unfolding program
rbac_middleware-next_example = rbac_middleware-next (codes "basic") store placed passed refl

rbac_middleware-target_example :
    rbac_middleware (codes "basic") store placed
    ≡ check_role store (workspace_path_target placed.path) (current_user placed) placed
unfolding program
rbac_middleware-target_example =
    rbac_middleware-target (codes "basic") store placed (member team bob admin) [] refl refl refl
      refl

rbac_middleware-admin_example :
    store.get_member_role (workspace_path_target placed.path) (current_user placed) ≡ ok admin
unfolding program
rbac_middleware-admin_example =
    rbac_middleware-admin (codes "basic") store placed passed team (member team bob admin) [] refl
      refl (inr refl) refl refl refl

admit-next_example :
    (user w role : Text) × Authenticated verify none sent user
    × ((w ≡ current_workspace passed) ⊎ (w ≡ workspace_path_target sent.path))
    × (store.get_member_role w user ≡ ok role)
    × (role_at_least role (required_role sent.method sent.path) ≡ true)
    × (passed.ctx_user ≡ user)
    × (passed.ctx_role ≡ role)
    × (passed.role_header ≡ role)
unfolding program
admit-next_example =
    admit-next verify (some limiter) none (codes "basic") store 5 sent passed
      (member default_workspace bob viewer) [] refl refl refl refl

required_role_native_example : ViewerMay (codes "analytics/query")
unfolding program
required_role_native_example = required_role_native post (codes "analytics/query") posts refl
