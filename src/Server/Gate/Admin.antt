-- ===== src/Server/Gate/Admin.antt =====
-- Who may rename or delete a workspace.
use litemlflow.Prelude.{
  Bool, true, false, ◌&&◌, ◌||◌, List, [], ◌∷◌, ◌++◌, ◌≡◌, ◌⊎◌, inl, inr, refl, sym, ◌∙◌, ap, arith,
  Text, codes, text_eq, text_eq→eq, if◌then◌else◌, leb, ok, contains,
}
use litemlflow.Model.{WorkspaceMember}
use litemlflow.Server.Rbac.{
  required_role, role_at_least, rank, is_public_path, workspace_path_target, patch, delete, admin,
  editor, viewer, path_rules,
}
use litemlflow.Server.Gate.{Request, next, MemberStore, current_user, rbac_middleware}
use litemlflow.Server.Gate.Roles.{check_role-next, rbac_middleware-target}

third_rank :
    (a b c : Bool) → leb 3 (if a then 1 else if b then 2 else if c then 3 else 0) ≡ true → c ≡ true
third_rank a b c h = ground arith

only_admin : (role : Text) → role_at_least role admin ≡ true → role ≡ admin
unfolding role_at_least rank text_eq
only_admin role h =
    text_eq→eq role admin
      (third_rank (text_eq role viewer) (text_eq role editor) (text_eq role admin) h)

scoped : (rest : Text) → is_public_path (codes "/api/v1/workspaces/" ++ rest) ≡ false
unfolding path_rules
scoped rest = refl

if_or : (a b : Bool) (x y : Text) → b ≡ true → (if a || b then x else y) ≡ x
if_or a b x y h = ground arith

route_admin :
    (method rest : Text)
    → (method ≡ patch) ⊎ (method ≡ delete)
    → required_role method (codes "/api/v1/workspaces/" ++ rest) ≡ admin
unfolding path_rules
route_admin method rest (inl e) = rw e (
    if_or (contains (codes "/api/v1/workspaces/" ++ rest) (codes "/members") && false) true _ _
      refl)
route_admin method rest (inr e) = rw e (
    if_or (contains (codes "/api/v1/workspaces/" ++ rest) (codes "/members") && true) true _ _ refl)

-- Deleting or renaming a workspace that has members takes its own administrator: a PATCH or DELETE
-- below /api/v1/workspaces/ that passes, while authentication is on, comes from a user whose role
-- in the workspace that the path names is admin.
pub rbac_middleware-admin :
    (auth : Text) (st : MemberStore) (r r' : Request) (rest : Text) (x : WorkspaceMember)
    (xs : List WorkspaceMember)
    → text_eq auth (codes "none") ≡ false
    → r.path ≡ codes "/api/v1/workspaces/" ++ rest
    → (r.method ≡ patch) ⊎ (r.method ≡ delete)
    → text_eq (workspace_path_target r.path) [] ≡ false
    → st.list_members (workspace_path_target r.path) ≡ ok (x ∷ xs)
    → rbac_middleware auth st r ≡ next r'
    → st.get_member_role (workspace_path_target r.path) (current_user r) ≡ ok admin
rbac_middleware-admin auth st r r' rest x xs on path method named members passed =
    let (role, found, enough, _) = check_role-next st (workspace_path_target r.path) r r' (
      sym (rbac_middleware-target auth st r x xs on (rw path (scoped rest)) named members)
      ∙ passed) in
    found
    ∙ ap ok (
        only_admin role
          (rw (ap (required_role r.method) path ∙ route_admin r.method rest method) at enough))
