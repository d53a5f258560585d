-- ===== src/Server/Rbac/Guarded.antt =====
-- No mutating request on the API surface goes without a role.
use litemlflow.Prelude.{
  Bool, true, false, not, ◌&&◌, ◌||◌, List, [], ◌∷◌, ◌++◌, ◌≡◌, ◌⊎◌, inl, inr, refl, arith, Text,
  codes, text_eq, text_eq→eq, has_prefix, has_prefix→append, All, contains, Bool-cases,
  if◌then◌else◌,
}
use litemlflow.Server.Rbac.{
  get, post, put, patch, delete, no_role, viewer, editor, admin, required_role, path_rules,
  is_public_path, is_meta_path, is_ui_path, is_federate_path, role_at_least,
}

-- The methods that change something.
pub data IsMutating : Text → Type 0 where
  posts : IsMutating post
  puts : IsMutating put
  patches : IsMutating patch
  deletes : IsMutating delete

-- Under the two MLflow prefixes a mutating method is the editor's and GET the viewer's.
pub required_role_mlflow :
    (method rest : Text)
    → IsMutating method
    → (required_role method (codes "/api/2.0/mlflow/" ++ rest) ≡ editor)
      × (required_role method (codes "/api/2.0/mlflow-artifacts/" ++ rest) ≡ editor)
      × (required_role get (codes "/api/2.0/mlflow/" ++ rest) ≡ viewer)
      × (required_role get (codes "/api/2.0/mlflow-artifacts/" ++ rest) ≡ viewer)
unfolding path_rules
required_role_mlflow method rest posts = (refl, refl, refl, refl)
required_role_mlflow method rest puts = (refl, refl, refl, refl)
required_role_mlflow method rest patches = (refl, refl, refl, refl)
required_role_mlflow method rest deletes = (refl, refl, refl, refl)

-- What a viewer may send to the native API with a mutating method.
abbrev pub ViewerMay : Text → Type 0
ViewerMay rest =
    (rest ≡ codes "analytics/query")
    ⊎ (has_prefix rest (codes "auth/") ≡ true)
    ⊎ (rest ≡ codes "federate/echo")
    ⊎ (rest ≡ codes "federate/search")

-- The tests on the rest of a native path.
record Tests : Type 0 where
  workspaces : Bool
  under_workspaces : Bool
  members : Bool
  peers : Bool
  traces : Bool
  prompts : Bool
  evals : Bool
  analytics : Bool
  auth : Bool
  echo : Bool
  peer_search : Bool

tests : Text → Tests
tests rest = record {
  workspaces = text_eq rest (codes "workspaces");
  under_workspaces = has_prefix rest (codes "workspaces/");
  members = contains (codes "/api/v1/" ++ rest) (codes "/members");
  peers = has_prefix rest (codes "federate/peers");
  traces = has_prefix rest (codes "traces");
  prompts = has_prefix rest (codes "prompts");
  evals = has_prefix rest (codes "evals");
  analytics = text_eq rest (codes "analytics/query");
  auth = has_prefix rest (codes "auth/");
  echo = text_eq rest (codes "federate/echo");
  peer_search = text_eq rest (codes "federate/search");
}

-- The rules for a native path, over the outcomes of the tests.
native_role : Text → Tests → Text
native_role method t =
    if t.workspaces && text_eq method post
    then admin
    else if t.under_workspaces
        && ((t.members && (text_eq method put || text_eq method delete))
            || (text_eq method patch || text_eq method delete))
    then admin
    else if t.peers && not (text_eq method get)
    then admin
    else if text_eq method post && (t.traces || t.prompts || t.evals || false)
    then editor
    else if t.analytics
    then viewer
    else if t.auth
    then no_role
    else if t.echo || t.peer_search
    then no_role
    else if (text_eq method post
          || text_eq method put
          || text_eq method patch
          || text_eq method delete)
        && true
    then editor
    else if text_eq method get && true
    then viewer
    else no_role

native_role_lem :
    (method rest : Text)
    → required_role method (codes "/api/v1/" ++ rest) ≡ native_role method (tests rest)
unfolding path_rules native_role tests
native_role_lem method rest = refl

native_role-viewer :
    (method : Text) (t : Tests)
    → IsMutating method
    → role_at_least viewer (native_role method t) ≡ true
    → (t.analytics ≡ true) ⊎ (t.auth ≡ true) ⊎ (t.echo ≡ true) ⊎ (t.peer_search ≡ true)
unfolding native_role role_at_least text_eq
native_role-viewer method t posts h = ground arith
native_role-viewer method t puts h = ground arith
native_role-viewer method t patches h = ground arith
native_role-viewer method t deletes h = ground arith

-- A mutating request to the native API that a viewer's role suffices for is an analytics query, a
-- login path, or one of the two peer endpoints.
pub required_role_native :
    (method rest : Text)
    → IsMutating method
    → role_at_least viewer (required_role method (codes "/api/v1/" ++ rest)) ≡ true
    → ViewerMay rest
unfolding tests
required_role_native method rest m h =
    elim (native_role-viewer method (tests rest) m (rw (native_role_lem method rest) at h)) [
      | inl analytics ↦ inl (text_eq→eq rest _ analytics)
      | inr (inl auth) ↦ inr (inl auth)
      | inr (inr (inl echo)) ↦ inr (inr (inl (text_eq→eq rest _ echo)))
      | inr (inr (inr search)) ↦ inr (inr (inr (text_eq→eq rest _ search)))
    ]

&&-false : (b : Bool) → b && false ≡ false
&&-false true = refl
&&-false false = refl

-- A path of the list, or below /ui/.
public_paths : List Text
public_paths =
    codes "/healthz"
    ∷ codes "/readyz"
    ∷ codes "/version"
    ∷ codes "/metrics"
    ∷ codes "/ui"
    ∷ codes "/"
    ∷ codes "/api/v1/auth/login"
    ∷ codes "/api/v1/auth/logout"
    ∷ codes "/api/v1/auth/oidc/start"
    ∷ codes "/api/v1/auth/oidc/callback"
    ∷ codes "/api/v1/federate/echo"
    ∷ codes "/api/v1/federate/search"
    ∷ []

is_one_of : Text → List Text → Bool
is_one_of p [] = false
is_one_of p (q ∷ qs) = text_eq p q || is_one_of p qs

is_public_path-cases :
    (p : Text)
    → is_public_path p ≡ true
    → (has_prefix p (codes "/ui/") ≡ true) ⊎ (is_one_of p public_paths ≡ true)
unfolding is_public_path is_meta_path is_ui_path is_federate_path is_one_of public_paths
is_public_path-cases p h = ground arith

listed_open :
    (method p : Text) (qs : List Text)
    → All (λ q. required_role method q ≡ no_role) qs
    → is_one_of p qs ≡ true
    → required_role method p ≡ no_role
unfolding is_one_of
listed_open method p [] hs h = absurd (cc)
listed_open method p (q ∷ qs) (hq, hs) h = elim (Bool-cases (text_eq p q)) [
  | inl same ↦ rw (text_eq→eq p q same) hq
  | inr other ↦ listed_open method p qs hs (rw (other, is_one_of) at h)
]

public_paths_open : (method : Text) → All (λ q. required_role method q ≡ no_role) public_paths
unfolding path_rules public_paths
public_paths_open method = rw (&&-false (text_eq method post)) (
  refl,
  (refl, (refl, (refl, (refl, (refl, (refl, (refl, (refl, (refl, (refl, (refl, tt))))))))))),
)

required_role_ui : (method rest : Text) → required_role method (codes "/ui/" ++ rest) ≡ no_role
unfolding path_rules
required_role_ui method rest = rw (&&-false (text_eq method post))

-- No path that the authentication lets through unchecked asks for a role, whatever the method.
pub required_role_public :
    (method p : Text) → is_public_path p ≡ true → required_role method p ≡ no_role
required_role_public method p h = elim (is_public_path-cases p h) [
  | inl ui ↦ rw (has_prefix→append p (codes "/ui/") ui) (required_role_ui method _)
  | inr listed ↦ listed_open method p public_paths (public_paths_open method) listed
]
