-- ===== src/Server/Gate/Chain.antt =====
-- The three middlewares one after the other.
use litemlflow.Prelude.{
  Bool, true, false, List, [], ◌∷◌, Option, some, ◌≡◌, ◌⊎◌, inl, inr, refl, sym, ◌∙◌, ap, Text,
  codes, text_eq, text_eq→eq, text_eq_refl, if◌then◌else◌, Result, ok, Bool-cases, Result-cases,
}
use litemlflow.Model.{Session, Workspace, WorkspaceMember}
use litemlflow.Server.Rbac.{
  is_public_path, is_workspace_agnostic_path, required_role, role_at_least, workspace_path_target,
}
use litemlflow.Server.Gate.{
  Request, Reply, next, status, MemberStore, default_workspace, strip_identity, with_session,
  with_basic, find_session, auth_middleware, named_workspace, workspace_middleware, current_user,
  current_workspace, rbac_middleware, and_then, admit,
}
use litemlflow.Server.Gate.Identity.{Identified, auth_middleware-next}
use litemlflow.Server.Gate.Roles.{PassesAs, Passes, rbac_middleware-next}

and_then-next :
    (m : Reply) (k : Request → Reply) (r' : Request)
    → and_then m k ≡ next r'
    → (r : Request) × (m ≡ next r) × (k r ≡ next r')
unfolding and_then
and_then-next (next r) k r' h = (r, refl, h)
and_then-next (status n) k r' h = absurd (cc)

-- A request that goes on from the workspace middleware runs in the default workspace or in one
-- that exists, and only on a path that never reads a workspace may that be another than the
-- request names.
pub workspace_middleware-next :
    (st : MemberStore) (r r' : Request)
    → workspace_middleware st r ≡ next r'
    → (id : Text) × (r' ≡ record r { ctx_workspace = id; workspace_header = id })
      × ((id ≡ default_workspace) ⊎ ((w : Workspace) × (st.get_workspace id ≡ ok w)))
      × ((id ≡ named_workspace r) ⊎ (is_workspace_agnostic_path r.path ≡ true))
unfolding workspace_middleware
workspace_middleware-next st r r' h =
    elim (Bool-cases (text_eq (named_workspace r) default_workspace)) [
      | inl here ↦ (
        named_workspace r,
        cc (rw (here, workspace_middleware) at h),
        inl (text_eq→eq (named_workspace r) default_workspace here),
        inl refl,
      )
      | inr other ↦ elim (Result-cases (st.get_workspace (named_workspace r))) [
        | inr (w, found) ↦ (
          named_workspace r,
          cc (rw (other, found, workspace_middleware) at h),
          inr (w, found),
          inl refl,
        )
        | inl (e, missing) ↦ elim (Bool-cases (is_workspace_agnostic_path r.path)) [
          | inl agnostic ↦ (
            default_workspace,
            cc (rw (other, missing, agnostic, workspace_middleware) at h),
            inl refl,
            inr agnostic,
          )
          | inr scoped ↦ absurd (cc (rw (other, missing, scoped, workspace_middleware) at h))
        ]
      ]
    ]

-- The user is the one of a session that the cookie names, or gave Basic credentials that verify.
abbrev pub Authenticated :
    (Text → Text → Bool) → Option (Text → Result Session) → Request → Text → Type 0
Authenticated verify sessions sent user =
    ((id : Text) × (s : Session) × (find_session sessions (strip_identity sent) ≡ some (id, s))
      × (s.user_id ≡ user))
    ⊎ ((pass : Text) × (sent.basic ≡ some (user, pass)) × (verify user pass ≡ true))

entered : Text → Request → Request
entered id r = record r { ctx_workspace = id; workspace_header = id }

if_self : (b : Bool) (x : Text) → (if b then x else x) ≡ x
if_self true x = refl
if_self false x = refl

-- What the role check reads in an identified request.
Identified-current_user :
    (verify : Text → Text → Bool) (sessions : Option (Text → Result Session)) (auth id : Text)
    (sent r : Request)
    → text_eq auth (codes "none") ≡ false
    → is_public_path sent.path ≡ false
    → Identified verify sessions auth sent r
    → Authenticated verify sessions sent (current_user (entered id r))
      × (r.method ≡ sent.method)
      × (r.path ≡ sent.path)
      × (r.ctx_user ≡ current_user (entered id r))
unfolding strip_identity with_session with_basic current_user entered
Identified-current_user verify sessions auth id sent r on scoped (inl (exempt, _)) = absurd (cc)
Identified-current_user verify sessions auth id sent r on scoped (inr (inl (sid, s, found, e))) =
    rw (e, if_self (text_eq s.user_id []) s.user_id) (inl (sid, s, found, refl), refl, refl, refl)
Identified-current_user verify sessions auth id sent r on scoped (inr (inr (inl (off, _)))) =
    absurd (cc (rw off at on, text_eq_refl (codes "none")))
Identified-current_user verify sessions auth id sent r on scoped
      (inr (inr (inr (user, pass, _, given, right, e)))) =
    rw (e, if_self (text_eq user []) user) (inr (pass, given, right), refl, refl, refl)

placed_in :
    (r r' sent : Request) (w role : Text)
    → (w ≡ current_workspace r) ⊎ (w ≡ workspace_path_target r.path)
    → r' ≡ record r { role_header = role; ctx_role = role }
    → r.path ≡ sent.path
    → (w ≡ current_workspace r') ⊎ (w ≡ workspace_path_target sent.path)
unfolding current_workspace
placed_in r r' sent w role (inl here) e path = inl (here ∙ sym (ap current_workspace e))
placed_in r r' sent w role (inr target) e path = inr (target ∙ ap workspace_path_target path)

-- Of the ways past the role check, the one with a role is left.
role-held :
    (auth : Text) (st : MemberStore) (r r' : Request) (x : WorkspaceMember)
    (xs : List WorkspaceMember)
    → text_eq auth (codes "none") ≡ false
    → is_public_path r.path ≡ false
    → st.list_members default_workspace ≡ ok (x ∷ xs)
    → Passes auth st r r'
    → (w : Text) × ((w ≡ current_workspace r) ⊎ (w ≡ workspace_path_target r.path))
      × PassesAs st r w r'
role-held auth st r r' x xs on scoped members (inl (off, _)) =
    absurd (cc (rw off at on, text_eq_refl (codes "none")))
role-held auth st r r' x xs on scoped members (inr (inl (exempt, _))) = absurd (cc)
role-held auth st r r' x xs on scoped members (inr (inr (inl (inl (_, nobody, _))))) = absurd (cc)
role-held auth st r r' x xs on scoped members (inr (inr (inl (inr role)))) =
    (current_workspace r, inl refl, role)
role-held auth st r r' x xs on scoped members (inr (inr (inr role))) =
    (workspace_path_target r.path, inr refl, role)

-- Behind authentication, once the default workspace has a member, a request for a path that is not
-- public reaches its handler only for a user who is authenticated, by a session or by Basic
-- credentials, and whose role, in the workspace that the handler is given or in the one that the path
-- names, suffices for the method and the path; the handler gets that user and that role.
pub admit-next :
    {L : Type 0} (verify : Text → Text → Bool) (allow : Option (L → Request → Bool × L))
    (sessions : Option (Text → Result Session)) (auth : Text) (st : MemberStore) (l : L)
    (sent r' : Request) (x : WorkspaceMember) (xs : List WorkspaceMember)
    → text_eq auth (codes "none") ≡ false
    → is_public_path sent.path ≡ false
    → st.list_members default_workspace ≡ ok (x ∷ xs)
    → admit verify allow sessions auth st l sent ≡ next r'
    → (user w role : Text) × Authenticated verify sessions sent user
      × ((w ≡ current_workspace r') ⊎ (w ≡ workspace_path_target sent.path))
      × (st.get_member_role w user ≡ ok role)
      × (role_at_least role (required_role sent.method sent.path) ≡ true)
      × (r'.ctx_user ≡ user)
      × (r'.ctx_role ≡ role)
      × (r'.role_header ≡ role)
unfolding admit entered
admit-next verify allow sessions auth st l sent r' x xs on scoped members h =
    let (r₁, authenticated, h₁) =
      and_then-next (auth_middleware verify allow sessions auth l sent).reply
        (λ r. and_then (workspace_middleware st r) (rbac_middleware auth st)) r' h in
    let (r₂, placed, h₂) =
      and_then-next (workspace_middleware st r₁) (rbac_middleware auth st) r' h₁ in
    let (id, e₂, _, _) = workspace_middleware-next st r₁ r₂ placed in
    let (user, method, path, ctx) =
      Identified-current_user verify sessions auth id sent r₁ on scoped
        (auth_middleware-next verify allow sessions auth l sent r₁ authenticated) in
    let (w, place, passes) =
      role-held auth st (entered id r₁) r' x xs on (rw path scoped) members
        (rbac_middleware-next auth st (entered id r₁) r' (rw e₂ at h₂)) in
    let (role, found, enough, e) = passes in
    let moved = placed_in (entered id r₁) r' sent w role place e path in
    (
      current_user (entered id r₁),
      w,
      role,
      user,
      moved,
      found,
      rw (method, path) at enough,
      ap (λ r. r.ctx_user) e ∙ ctx,
      ap (λ r. r.ctx_role) e,
      ap (λ r. r.role_header) e,
    )
