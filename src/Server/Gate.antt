-- ===== src/Server/Gate.antt =====
-- internal/server/middleware.go: the middlewares that decide whether a request reaches its handler,
-- in the order of internal/server/server.go: authentication, workspace, role. A request carries
-- what they read, with the values that the context gathers.
pub mod Identity
pub mod Roles
pub mod Admin
pub mod Chain
use litemlflow.Prelude.{
  Bool, true, false, not, ◌&&◌, ◌||◌, List, [], ◌∷◌, Option, none, some, ◌≡◌, refl, ℕ, Text, codes,
  text_eq, contains, if◌then◌else◌, Result, ok, err,
}
use litemlflow.Model.{Workspace, WorkspaceMember, Session}
use litemlflow.Server.Rbac.{
  required_role, role_at_least, is_public_path, is_workspace_agnostic_path, workspace_path_target,
}

pub record Request : Type 0 where
  pub method : Text
  pub path : Text
  pub accept : Text
  pub remote : Text
  pub session_cookie : Option Text
  pub basic : Option (Text × Text)
  pub x_workspace : Text
  pub workspace_cookie : Option Text
  pub user_header : Text
  pub auth_method_header : Text
  pub role_header : Text
  pub workspace_header : Text
  pub ctx_user : Text
  pub ctx_workspace : Text
  pub ctx_role : Text

-- The request goes on to the next handler, or a status is written.
pub data Reply : Type 0 where
  next : Request → Reply
  status : ℕ → Reply

-- What the middlewares ask of the store.
pub record MemberStore : Type 0 where
  pub get_workspace : Text → Result Workspace
  pub list_members : Text → Result (List WorkspaceMember)
  pub get_member_role : Text → Text → Result Text

abbrev pub default_workspace : Text
default_workspace = codes "default"

-- `auth.GetSessionID`
abbrev pub get_session_id : Option Text → Option Text
get_session_id none = none
get_session_id (some v) = if text_eq v [] then none else some v

-- The reply, the state of the rate limiter, and the session that is touched in the background.
pub record Outcome (L : Type 0) : Type 0 where
  pub reply : Reply
  pub limiter : L
  pub touched : Option Text

-- The headers that a client may not send.
unfoldable pub strip_identity : Request → Request
strip_identity r = record r { user_header = []; auth_method_header = []; role_header = [] }

unfoldable pub with_session : Session → Request → Request
with_session s r = record r {
  user_header = s.user_id;
  auth_method_header = s.auth_method;
  ctx_user = s.user_id;
}

unfoldable pub with_basic : Text → Request → Request
with_basic user r = record r {
  user_header = user;
  auth_method_header = codes "basic";
  ctx_user = user;
}

unfoldable pub with_anonymous : Request → Request
with_anonymous r = record r { user_header = codes "anonymous"; ctx_user = codes "anonymous" }

-- The look-up of a session cookie, where there is a table of sessions.
unfoldable pub find_session : Option (Text → Result Session) → Request → Option (Text × Session)
find_session sessions r = elim sessions [
  | none ↦ none
  | some get_session ↦ elim (get_session_id r.session_cookie) [
    | none ↦ none
    | some id ↦ elim (get_session id) [ ok s ↦ some (id, s) | err _ ↦ none ]
  ]
]

-- `auth.VerifyBasicCredentials`, and the limiter's `allow` for the key of a request, which is absent
-- where the source tests for nil.
module _ {L : Type 0} (verify : Text → Text → Bool) (allow : Option (L → Request → Bool × L)) where
  -- A failed attempt is charged to the limiter.
  unfoldable pub charge : L → Request → Outcome L
  charge l r = elim allow [
    | none ↦ record { reply = status 401; limiter = l; touched = none }
    | some f ↦
        let (granted, l') = f l r in
        record { reply = if granted then status 401 else status 429; limiter = l'; touched = none }
  ]

  -- The case "basic".
  unfoldable pub basic_auth : L → Request → Outcome L
  unfolding charge with_basic
  basic_auth l r = elim r.basic [
    | none ↦ record { reply = status 401; limiter = l; touched = none }
    | some (user, pass) ↦
        if verify user pass
        then record { reply = next (with_basic user r); limiter = l; touched = none }
        else charge l r
  ]

  -- The switch on `cfg.Auth`.
  unfoldable pub by_mode : Text → L → Request → Outcome L
  by_mode auth l r =
      if text_eq auth (codes "none")
      then record { reply = next (with_anonymous r); limiter = l; touched = none }
      else if text_eq auth (codes "basic")
      then basic_auth l r
      else if text_eq auth (codes "oidc")
      then record {
        reply = if contains r.accept (codes "text/html") then status 302 else status 401;
        limiter = l;
        touched = none;
      }
      else record { reply = status 500; limiter = l; touched = none }

  -- `authMiddlewareWithSessions`
  unfoldable pub auth_middleware : Option (Text → Result Session) → Text → L → Request → Outcome L
  auth_middleware sessions auth l sent =
      let r = strip_identity sent in
      if is_public_path r.path
      then record { reply = next r; limiter = l; touched = none }
      else elim (find_session sessions r) [
        | some (id, s) ↦ record { reply = next (with_session s r); limiter = l; touched = some id }
        | none ↦ by_mode auth l r
      ]

abbrev pub cookie_value : Option Text → Text
cookie_value none = []
cookie_value (some v) = v

-- The workspace that a request names.
unfoldable pub named_workspace : Request → Text
named_workspace r =
    let id = if text_eq r.x_workspace [] then cookie_value r.workspace_cookie else r.x_workspace in
    if text_eq id [] then default_workspace else id

abbrev pub enter : Text → Request → Reply
enter id r = next (record r { ctx_workspace = id; workspace_header = id })

-- `workspaceMiddleware`
unfoldable pub workspace_middleware : MemberStore → Request → Reply
workspace_middleware st r =
    let id = named_workspace r in
    if text_eq id default_workspace then enter id r else elim (st.get_workspace id) [
      | ok _ ↦ enter id r
      | err _ ↦ if is_workspace_agnostic_path r.path then enter default_workspace r else status 400
    ]

-- The role of the user in a workspace, against the one that the route requires.
unfoldable pub check_role : MemberStore → Text → Text → Request → Reply
check_role st ws user r = elim (st.get_member_role ws user) [
  | err _ ↦ status 403
  | ok role ↦
      if not (text_eq (required_role r.method r.path) [])
        && not (role_at_least role (required_role r.method r.path))
      then status 403
      else next (record r { role_header = role; ctx_role = role })
]

-- The part for the workspace that the request runs in.
unfoldable pub check_current : MemberStore → Text → Text → Request → Reply
check_current st ws user r =
    if text_eq ws default_workspace
    then elim (st.list_members ws) [
      | err _ ↦ status 500
      | ok [] ↦ next r
      | ok (_ ∷ _) ↦ check_role st ws user r
    ]
    else check_role st ws user r

-- The part for the workspace that the path names.
unfoldable pub check_target : MemberStore → Text → Text → Text → Request → Reply
check_target st target ws user r =
    if not (text_eq target []) && not (text_eq target ws)
    then elim (st.list_members target) [
      | err _ ↦ status 500
      | ok [] ↦ check_current st ws user r
      | ok (_ ∷ _) ↦ check_role st target user r
    ]
    else check_current st ws user r

unfoldable pub current_workspace : Request → Text
current_workspace r = if text_eq r.ctx_workspace [] then default_workspace else r.ctx_workspace

unfoldable pub current_user : Request → Text
current_user r = if text_eq r.ctx_user [] then r.user_header else r.ctx_user

-- `rbacMiddleware`
unfoldable pub rbac_middleware : Text → MemberStore → Request → Reply
rbac_middleware auth st r =
    if text_eq auth (codes "none")
    then next r
    else if is_public_path r.path
    then next r
    else check_target st (workspace_path_target r.path) (current_workspace r) (current_user r) r

unfoldable pub and_then : Reply → (Request → Reply) → Reply
and_then (next r) k = k r
and_then (status n) k = status n

-- The three in their order.
unfoldable pub admit :
    {L : Type 0}
    → (Text → Text → Bool)
    → Option (L → Request → Bool × L)
    → Option (Text → Result Session)
    → Text
    → MemberStore
    → L
    → Request
    → Reply
unfolding and_then
admit verify allow sessions auth st l r =
    and_then (auth_middleware verify allow sessions auth l r).reply
      (λ r₁. and_then (workspace_middleware st r₁) (rbac_middleware auth st))
