-- ===== src/Server/Rbac.antt =====
-- internal/server/rbac.go, and the path predicates of internal/server/middleware.go. Paths and
-- methods are texts, as an HTTP request carries them.
pub mod Guarded
use litemlflow.Prelude.{
  Bool, true, false, not, ◌&&◌, ◌||◌, List, [], ◌∷◌, ◌≡◌, refl, ℕ, leb, if◌then◌else◌, Text, codes,
  text_eq, has_prefix, contains, drop_prefix, ◌==◌,
}

abbrev pub get : Text
get = codes "GET"

abbrev pub post : Text
post = codes "POST"

abbrev pub put : Text
put = codes "PUT"

abbrev pub patch : Text
patch = codes "PATCH"

abbrev pub delete : Text
delete = codes "DELETE"

abbrev pub no_role : Text
no_role = []

abbrev pub viewer : Text
viewer = codes "viewer"

abbrev pub editor : Text
editor = codes "editor"

abbrev pub admin : Text
admin = codes "admin"

-- The cases that are decided by a path as a whole: health, version and metrics.
unfoldable pub is_meta_path : Text → Bool
is_meta_path path =
    text_eq path (codes "/healthz")
    || text_eq path (codes "/readyz")
    || text_eq path (codes "/version")
    || text_eq path (codes "/metrics")

unfoldable pub is_ui_path : Text → Bool
is_ui_path path =
    has_prefix path (codes "/ui/") || text_eq path (codes "/ui") || text_eq path (codes "/")

unfoldable pub is_federate_path : Text → Bool
is_federate_path path =
    text_eq path (codes "/api/v1/federate/echo") || text_eq path (codes "/api/v1/federate/search")

-- The last rules of `requiredRole`: a mutating call is the editor's, a GET the viewer's.
unfoldable pub default_role : Text → Text → Text
default_role method path =
    if (text_eq method post || text_eq method put || text_eq method patch || text_eq method delete)
      && (has_prefix path (codes "/api/v1/")
          || has_prefix path (codes "/api/2.0/mlflow/")
          || has_prefix path (codes "/api/2.0/mlflow-artifacts/")
          || has_prefix path (codes "/v1/"))
    then editor
    else if text_eq method get
        && (has_prefix path (codes "/api/2.0/mlflow/")
            || has_prefix path (codes "/api/2.0/mlflow-artifacts/")
            || has_prefix path (codes "/api/v1/"))
    then viewer
    else no_role

-- The rules with no role, and the reads that are exposed as POST.
unfoldable pub open_role : Text → Text → Text
open_role method path =
    if text_eq path (codes "/api/v1/analytics/query")
    then viewer
    else if is_meta_path path
    then no_role
    else if is_ui_path path
    then no_role
    else if has_prefix path (codes "/api/v1/auth/")
    then no_role
    else if is_federate_path path
    then no_role
    else default_role method path

-- The editor's rules.
unfoldable pub editor_role : Text → Text → Text
editor_role method path =
    if has_prefix path (codes "/api/2.0/mlflow/")
      && (text_eq method post || text_eq method put || text_eq method delete)
    then editor
    else if text_eq method post
        && (has_prefix path (codes "/api/v1/traces")
            || has_prefix path (codes "/api/v1/prompts")
            || has_prefix path (codes "/api/v1/evals")
            || has_prefix path (codes "/v1/traces"))
    then editor
    else open_role method path

-- `requiredRole`
unfoldable pub required_role : Text → Text → Text
required_role method path =
    if text_eq path (codes "/api/v1/workspaces") && text_eq method post
    then admin
    else if has_prefix path (codes "/api/v1/workspaces/")
        && ((contains path (codes "/members") && (text_eq method put || text_eq method delete))
            || (text_eq method patch || text_eq method delete))
    then admin
    else if has_prefix path (codes "/api/v1/federate/peers") && not (text_eq method get)
    then admin
    else editor_role method path

-- The `rank` map of `roleAtLeast`; a missing key reads as 0.
unfoldable pub rank : Text → ℕ
rank role =
    if text_eq role viewer
    then 1
    else if text_eq role editor
    then 2
    else if text_eq role admin
    then 3
    else 0

-- `roleAtLeast`
unfoldable pub role_at_least : Text → Text → Bool
unfolding rank
role_at_least actual required = leb (rank required) (rank actual)

-- `isPublicPath`
unfoldable pub is_public_path : Text → Bool
is_public_path p =
    is_meta_path p
    || is_ui_path p
    || (text_eq p (codes "/api/v1/auth/login")
        || text_eq p (codes "/api/v1/auth/logout")
        || text_eq p (codes "/api/v1/auth/oidc/start")
        || text_eq p (codes "/api/v1/auth/oidc/callback"))
    || is_federate_path p

-- `isWorkspaceAgnosticPath`
unfoldable pub is_workspace_agnostic_path : Text → Bool
is_workspace_agnostic_path p = if is_federate_path p then false else is_public_path p

-- `strings.Cut(rest, "/")`: the text before the first slash
unfoldable pub before_slash : Text → Text
before_slash [] = []
before_slash (c ∷ s) = let rest = before_slash s in if c == b'/' then [] else c ∷ rest

-- `workspacePathTarget`
unfoldable pub workspace_path_target : Text → Text
workspace_path_target p =
    let id = before_slash (drop_prefix p (codes "/api/v1/workspaces/")) in
    if not (has_prefix p (codes "/api/v1/workspaces/"))
    then []
    else if text_eq id (codes "current")
    then []
    else id

-- All of these, for proofs and tests that compute with them.
unfoldable pub path_rules : Unit {0}
unfolding text_eq has_prefix contains is_meta_path is_ui_path is_federate_path default_role
    open_role editor_role required_role is_public_path
path_rules = tt
