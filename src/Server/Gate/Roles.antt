-- ===== src/Server/Gate/Roles.antt =====
-- Who gets past the role check, and in which workspace the role is read.
use litemlflow.Prelude.{
  Bool, true, false, not, ◌&&◌, List, [], ◌∷◌, ◌≡◌, ◌⊎◌, inl, inr, refl, sym, ◌∙◌, ap, ℕ, arith,
  Text, codes, text_eq, text_eq→eq, if◌then◌else◌, Result, ok, err, Bool-cases, Result-cases,
}
use litemlflow.Model.{WorkspaceMember}
use litemlflow.Server.Rbac.{
  required_role, role_at_least, rank, is_public_path, workspace_path_target,
}
use litemlflow.Server.Gate.{
  Request, Reply, next, status, MemberStore, default_workspace, check_role, check_current,
  check_target, current_workspace, current_user, rbac_middleware,
}

-- The user of `r` has, in the workspace `w`, a role that suffices for the route, and `r'` is `r`
-- with that role.
abbrev pub PassesAs : MemberStore → Request → Text → Request → Type 0
PassesAs st r w r' =
    (role : Text) × (st.get_member_role w (current_user r) ≡ ok role)
    × (role_at_least role (required_role r.method r.path) ≡ true)
    × (r' ≡ record r { role_header = role; ctx_role = role })

role_at_least_none : (role : Text) → role_at_least role [] ≡ true
unfolding role_at_least rank text_eq
role_at_least_none role = ground arith

checked : (a b : Bool) → a ≡ false → (not a && not b) ≡ false → b ≡ true
checked a b e h = ground arith

stopped : {n : ℕ} {r : Request} → status n ≡ next r → ⊥
stopped h = cc

refused_or :
    (b : Bool) (r r' : Request)
    → (if b then status 403 else next r) ≡ next r'
    → (b ≡ false) × (r' ≡ r)
refused_or b r r' h = ground arith

role_check :
    (role required : Text)
    → (not (text_eq required []) && not (role_at_least role required)) ≡ false
    → role_at_least role required ≡ true
role_check role required h = elim (Bool-cases (text_eq required [])) [
  | inl e ↦ rw (text_eq→eq required [] e) (role_at_least_none role)
  | inr e ↦ checked _ _ e h
]

-- A role that passes the check is of a member, and suffices.
pub check_role-next :
    (st : MemberStore) (w : Text) (r r' : Request)
    → check_role st w (current_user r) r ≡ next r'
    → PassesAs st r w r'
unfolding check_role
check_role-next st w r r' h = elim (Result-cases (st.get_member_role w (current_user r))) [
  | inl (e, refused) ↦ absurd (stopped (rw (refused, check_role) at h))
  | inr (role, found) ↦
      let (test, e) = refused_or _ _ r' (rw (found, check_role) at h) in
      (role, found, role_check role _ test, e)
]

open_or :
    (m : Result (List WorkspaceMember)) (a b : Reply) (r' : Request)
    → elim m [ err _ ↦ status 500 | ok [] ↦ a | ok (_ ∷ _) ↦ b ] ≡ next r'
    → ((m ≡ ok []) × (a ≡ next r'))
      ⊎ ((x : WorkspaceMember) × (xs : List WorkspaceMember) × (m ≡ ok (x ∷ xs)) × (b ≡ next r'))
open_or (err _) a b r' h = absurd (stopped h)
open_or (ok []) a b r' h = inl (refl, h)
open_or (ok (x ∷ xs)) a b r' h = inr (x, xs, refl, h)

-- How a request passes in the workspace that it runs in: in the default one without members, or
-- with a role there.
abbrev pub PassesIn : MemberStore → Request → Request → Type 0
PassesIn st r r' =
    ((current_workspace r ≡ default_workspace)
      × (st.list_members default_workspace ≡ ok [])
      × (r' ≡ r))
    ⊎ PassesAs st r (current_workspace r) r'

check_current-next :
    (st : MemberStore) (r r' : Request)
    → check_current st (current_workspace r) (current_user r) r ≡ next r'
    → PassesIn st r r'
unfolding check_current
check_current-next st r r' h = elim (Bool-cases (text_eq (current_workspace r) default_workspace)) [
  | inl here ↦
      let e = text_eq→eq (current_workspace r) default_workspace here in
      elim (open_or (st.list_members (current_workspace r)) (next r)
        (check_role st (current_workspace r) (current_user r) r) r'
        (rw (here, check_current) at h)) [
          | inl (nobody, passed) ↦ inl (e, ap st.list_members (sym e) ∙ nobody, cc passed)
          | inr (_, _, _, passed) ↦ inr (check_role-next st _ r r' passed)
        ]
  | inr other ↦ inr (check_role-next st _ r r' (rw (other, check_current) at h))
]

check_current-members :
    (st : MemberStore) (ws user : Text) (r : Request) (x : WorkspaceMember)
    (xs : List WorkspaceMember)
    → st.list_members ws ≡ ok (x ∷ xs)
    → check_current st ws user r ≡ check_role st ws user r
unfolding check_current
check_current-members st ws user r x xs members = elim (Bool-cases (text_eq ws default_workspace)) [
  | inl same ↦ rw (same, members) refl
  | inr other ↦ rw other refl
]

stays :
    (st : MemberStore) (target ws user : Text) (r : Request)
    → text_eq target [] ≡ false
    → text_eq target ws ≡ true
    → check_target st target ws user r ≡ check_current st ws user r
unfolding check_target
stays st target ws user r e same = rw (e, same) refl

check_target-members :
    (st : MemberStore) (target ws user : Text) (r : Request) (x : WorkspaceMember)
    (xs : List WorkspaceMember)
    → text_eq target [] ≡ false
    → st.list_members target ≡ ok (x ∷ xs)
    → check_target st target ws user r ≡ check_role st target user r
unfolding check_target
check_target-members st target ws user r x xs named members =
    elim (Bool-cases (text_eq target ws)) [
      | inl same ↦
          let e = text_eq→eq target ws same in
          stays st target ws user r named same
          ∙ check_current-members st ws user r x xs (ap st.list_members (sym e) ∙ members)
          ∙ ap (λ w. check_role st w user r) (sym e)
      | inr other ↦ rw (named, other, members) refl
    ]

-- Whatever workspace the request runs in, a path that names a workspace with members is decided by
-- the user's role in the workspace that it names.
pub rbac_middleware-target :
    (auth : Text) (st : MemberStore) (r : Request) (x : WorkspaceMember) (xs : List WorkspaceMember)
    → text_eq auth (codes "none") ≡ false
    → is_public_path r.path ≡ false
    → text_eq (workspace_path_target r.path) [] ≡ false
    → st.list_members (workspace_path_target r.path) ≡ ok (x ∷ xs)
    → rbac_middleware auth st r ≡ check_role st (workspace_path_target r.path) (current_user r) r
unfolding rbac_middleware
rbac_middleware-target auth st r x xs on scoped named members =
    rw (on, scoped)
      (check_target-members st _ (current_workspace r) (current_user r) r x xs named members)

-- How a request passes the role check: it is switched off, the path is public, the request passes
-- in the workspace that it runs in, or with a role in the one that its path names.
abbrev pub Passes : Text → MemberStore → Request → Request → Type 0
Passes auth st r r' =
    ((auth ≡ codes "none") × (r' ≡ r))
    ⊎ ((is_public_path r.path ≡ true) × (r' ≡ r))
    ⊎ PassesIn st r r'
    ⊎ PassesAs st r (workspace_path_target r.path) r'

check_target-next :
    (st : MemberStore) (r r' : Request)
    → check_target st (workspace_path_target r.path) (current_workspace r) (current_user r) r
      ≡ next r'
    → PassesIn st r r' ⊎ PassesAs st r (workspace_path_target r.path) r'
unfolding check_target
check_target-next st r r' h =
    let target = workspace_path_target r.path in
    let ws = current_workspace r in
    let user = current_user r in
    elim (Bool-cases (not (text_eq target []) && not (text_eq target ws))) [
      | inl elsewhere ↦
          elim (open_or (st.list_members target) (check_current st ws user r)
            (check_role st target user r) r' (rw (elsewhere, check_target) at h)) [
              | inl (nobody, passed) ↦ inl (check_current-next st r r' passed)
              | inr (_, _, _, passed) ↦ inr (check_role-next st target r r' passed)
            ]
      | inr here ↦ inl (check_current-next st r r' (rw (here, check_target) at h))
    ]

-- A request that passes does so in one of four ways: the authentication is "none", the path is
-- public, the request runs in the default workspace and that has no members, or the user has a
-- role that suffices for the route, in the workspace that the request runs in or in the one that
-- its path names, and the request goes on with that role. So a failed look-up never lets a request
-- pass.
pub rbac_middleware-next :
    (auth : Text) (st : MemberStore) (r r' : Request)
    → rbac_middleware auth st r ≡ next r'
    → Passes auth st r r'
unfolding rbac_middleware
rbac_middleware-next auth st r r' h = elim (Bool-cases (text_eq auth (codes "none"))) [
  | inl off ↦ inl (text_eq→eq auth (codes "none") off, cc (rw (off, rbac_middleware) at h))
  | inr on ↦ elim (Bool-cases (is_public_path r.path)) [
    | inl exempt ↦ inr (inl (exempt, cc (rw (on, exempt, rbac_middleware) at h)))
    | inr scoped ↦ inr (inr (check_target-next st r r' (rw (on, scoped, rbac_middleware) at h)))
  ]
]
