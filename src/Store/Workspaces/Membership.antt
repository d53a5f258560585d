-- ===== src/Store/Workspaces/Membership.antt =====
-- Who is a member of what, after each call.
use litemlflow.Prelude.{
  &&-both, Bool, >>-eq-ok, >>=-eq-ok, ok_inj, guard, invalid_value, ap, ap₂, sym, ◌∙◌, true, false,
  ◌≡◌, refl, Text, text_eq, text_eq→eq, Result, ok, err, List, [], ◌∷◌, not_found, find_row,
  any_row, delete_rows, arith, Bool-cases, find_row-delete_rows_ne, if◌then◌else◌, Option, some,
  none, find_row-delete_rows_self, ◌&&◌, inl, inr,
}
use litemlflow.Model.{Workspace, WorkspaceMember}
use litemlflow.Store.Workspaces.{
  Tables, is_member, get_workspace, add_member, remove_member, upsert_member, valid_role,
  get_member_role,
}

if_same :
    {A : Type 0} (p q : Bool) (a b c : A) (rest : Option A)
    → p ≡ q
    → a ≡ b
    → (if p then some a else rest) ≡ (if q then some b else if p then some c else rest)
if_same p q a b c rest e h = ground arith

if_other :
    {A : Type 0} (p q : Bool) (b c : A) (new old : Option A)
    → (q ≡ true → p ≡ false)
    → new ≡ (if q then some b else old)
    → (if p then some c else new) ≡ (if q then some b else if p then some c else old)
if_other p q b c new old e h = ground arith

role_of : Option WorkspaceMember → Result Text
role_of (some m) = ok m.role
role_of none = err not_found

role_of-if :
    (b : Bool) (row old : Option WorkspaceMember)
    → role_of (if b then row else old) ≡ (if b then role_of row else role_of old)
role_of-if true row old = refl
role_of-if false row old = refl

get_member_role_of :
    (w u : Text) (db : Tables)
    → get_member_role w u db ≡ role_of (find_row (is_member w u) db.members)
unfolding get_member_role role_of
get_member_role_of w u db =
    elim (find_row (is_member w u) db.members)
      as (λ o. elim o [ some m ↦ ok m.role | none ↦ err not_found ] ≡ role_of o) [
        | none ↦ refl
        | some m ↦ refl
      ]

guard-eq-ok : (b : Bool) → guard b invalid_value ≡ ok tt → b ≡ true
guard-eq-ok true h = refl
guard-eq-ok false h = cc

module _ (w u : Text) where
  is_member_same :
      (w' u' : Text) (m : WorkspaceMember)
      → is_member w u m ≡ true
      → (m.workspace_id ≡ w)
        × (m.user_id ≡ u)
        × (is_member w' u' m ≡ (text_eq w w' && text_eq u u'))
  is_member_same w' u' m h =
      let (hw, hu) = &&-both (text_eq m.workspace_id w) (text_eq m.user_id u) h in
      let ew = text_eq→eq m.workspace_id w hw in
      let eu = text_eq→eq m.user_id u hu in
      (ew, eu, ap₂ (λ a b. text_eq a w' && text_eq b u') ew eu)

  is_member_other :
      (w' u' : Text) (m : WorkspaceMember)
      → is_member w u m ≡ false
      → (text_eq w w' && text_eq u u') ≡ true
      → is_member w' u' m ≡ false
  is_member_other w' u' m h e =
      let (hw, hu) = &&-both (text_eq w w') (text_eq u u') e in
      ap₂ (λ a b. is_member a b m) (sym (text_eq→eq w w' hw)) (sym (text_eq→eq u u' hu)) ∙ h

  is_member_ne :
      (w' u' : Text) (m : WorkspaceMember)
      → (text_eq w w' && text_eq u u') ≡ false
      → is_member w' u' m ≡ true
      → is_member w u m ≡ false
  is_member_ne w' u' m ne h = elim (Bool-cases (is_member w u m)) [
    | inl here ↦ let (ew, eu, same) = is_member_same w' u' m here in cc
    | inr other ↦ other
  ]

  is_member_back :
      (w' u' : Text) (m : WorkspaceMember)
      → (text_eq w w' && text_eq u u') ≡ true
      → is_member w' u' m ≡ true
      → is_member w u m ≡ true
  is_member_back w' u' m e h =
      let (hw, hu) = &&-both (text_eq w w') (text_eq u u') e in
      ap₂ (λ a b. is_member a b m) (text_eq→eq w w' hw) (text_eq→eq u u' hu) ∙ h

  -- The query for one member, after the upsert of another.
  find_row-upsert_member :
      (w' u' role : Text) (rows : List WorkspaceMember)
      → find_row (is_member w' u') (upsert_member w u role rows) ≡ (
          if text_eq w w' && text_eq u u'
          then some (record { workspace_id = w; user_id = u; role = role })
          else find_row (is_member w' u') rows)
  unfolding find_row upsert_member
  find_row-upsert_member w' u' role [] = refl
  find_row-upsert_member w' u' role (m ∷ rows) = elim (Bool-cases (is_member w u m)) [
    | inl here ↦
        let (ew, eu, same) = is_member_same w' u' m here in
        rw here (
          if_same _ _ _ _ m _ same
            (ap₂ (λ a b. record { workspace_id = a; user_id = b; role = role }) ew eu))
    | inr other ↦ rw other (
        if_other _ _ _ m _ _ (is_member_other w' u' m other)
          (find_row-upsert_member w' u' role rows))
  ]

  -- After a removal the member is not found, and the others are.
  find_row-delete_member :
      (w' u' : Text) (rows : List WorkspaceMember)
      → find_row (is_member w' u') (delete_rows (is_member w u) rows)
        ≡ (if text_eq w w' && text_eq u u' then none else find_row (is_member w' u') rows)
  find_row-delete_member w' u' rows = elim (Bool-cases (text_eq w w' && text_eq u u')) [
    | inl same ↦ rw same (
        find_row-delete_rows_self (is_member w' u') (is_member w u) rows
          (λ m h. is_member_back w' u' m same h))
    | inr other ↦ rw other (
        find_row-delete_rows_ne (is_member w' u') (is_member w u) rows
          (λ m h. is_member_ne w' u' m other h))
  ]

without_member : Text → Text → Tables → Tables
without_member w u db = record db { members = delete_rows (is_member w u) db.members }

remove_member-cases :
    (w u : Text) (db db' : Tables)
    → remove_member w u db ≡ ok db'
    → (any_row (is_member w u) db.members ≡ true) × (db' ≡ without_member w u db)
unfolding remove_member without_member
remove_member-cases w u db db' h = ground arith

removed :
    (w u w' u' : Text) (db : Tables)
    → get_member_role w' u' (without_member w u db)
      ≡ (if text_eq w w' && text_eq u u' then err not_found else get_member_role w' u' db)
unfolding without_member role_of
removed w u w' u' db =
    get_member_role_of w' u' (without_member w u db)
    ∙ ap role_of (find_row-delete_member w u w' u' db.members)
    ∙ role_of-if (text_eq w w' && text_eq u u') none (find_row (is_member w' u') db.members)
    ∙ ap (λ r. if text_eq w w' && text_eq u u' then err not_found else r)
        (sym (get_member_role_of w' u' db))

upserted :
    (w u role w' u' : Text) (db : Tables)
    → get_member_role w' u' (record db { members = upsert_member w u role db.members })
      ≡ (if text_eq w w' && text_eq u u' then ok role else get_member_role w' u' db)
unfolding role_of
upserted w u role w' u' db =
    get_member_role_of w' u' (record db { members = upsert_member w u role db.members })
    ∙ ap role_of (find_row-upsert_member w u w' u' role db.members)
    ∙ role_of-if (text_eq w w' && text_eq u u') (some _) (find_row (is_member w' u') db.members)
    ∙ ap (λ r. if text_eq w w' && text_eq u u' then ok role else r)
        (sym (get_member_role_of w' u' db))

-- After a successful `add_member` the new role is the member's, and the role of anyone else, in
-- whatever workspace, is what it was; and the call succeeds only with one of the three roles and
-- for a workspace that exists.
pub add_member-get_member_role :
    (w u role w' u' : Text) (db db' : Tables)
    → add_member w u role db ≡ ok db'
    → (valid_role role ≡ true)
      × ((row : Workspace) × (get_workspace w db ≡ ok row))
      × (get_member_role w' u' db'
          ≡ (if text_eq w w' && text_eq u u' then ok role else get_member_role w' u' db))
unfolding add_member
add_member-get_member_role w u role w' u' db db' h =
    let (valid, rest) = >>-eq-ok (guard (valid_role role) invalid_value) _ h in
    let (row, found, e) = >>=-eq-ok (get_workspace w db) _ rest in
    (guard-eq-ok _ valid, (row, found), rw (sym (ok_inj e)) (upserted w u role w' u' db))

-- After a successful `remove_member`, of someone who was a member, they are a member no longer, and
-- the role of anyone else is what it was.
pub remove_member-get_member_role :
    (w u w' u' : Text) (db db' : Tables)
    → remove_member w u db ≡ ok db'
    → (any_row (is_member w u) db.members ≡ true)
      × (get_member_role w' u' db'
          ≡ (if text_eq w w' && text_eq u u' then err not_found else get_member_role w' u' db))
remove_member-get_member_role w u w' u' db db' h =
    let (member, e) = remove_member-cases w u db db' h in (member, rw e (removed w u w' u' db))
