-- ===== src/Store/Workspaces/Deletion.antt =====
-- What the deletion of a workspace removes, and when it is refused.
use litemlflow.Prelude.{
  Bool, true, false, ◌≡◌, ◌≢◌, refl, Text, text_eq, text_eq→eq, text_eq_refl, ok, err, not_found,
  any_row, select_rows, delete_rows, List, [], ◌∷◌, arith, Bool-cases, find_row-delete_rows_ne,
  find_row-delete_rows_self, ◌&&◌, inl, inr, some, none, ap,
}
use litemlflow.Store.Workspaces.{
  Tables, default_workspace, has_id, is_member, owned_tables, owns_rows, get_workspace,
  delete_workspace, get_member_role,
}

-- The tables without a workspace, its members and dashboards, and what the cascades take.
without_workspace : Text → Tables → Tables
without_workspace id db = record db {
  workspaces = delete_rows (has_id id) db.workspaces;
  members = delete_rows (λ m. text_eq m.workspace_id id) db.members;
  experiments = delete_rows (λ w. text_eq w id) db.experiments;
  registered_models = delete_rows (λ w. text_eq w id) db.registered_models;
  prompts = delete_rows (λ w. text_eq w id) db.prompts;
  dashboards = delete_rows (λ w. text_eq w id) db.dashboards;
}

delete_workspace-cases :
    (id : Text) (db db' : Tables)
    → delete_workspace id db ≡ ok db'
    → (text_eq id default_workspace ≡ false)
      × (any_row (has_id id) db.workspaces ≡ true)
      × (owns_rows id (owned_tables db) ≡ false)
      × (db' ≡ without_workspace id db)
unfolding delete_workspace without_workspace
delete_workspace-cases id db db' h = ground arith

text_eq-≢ : (s t : Text) → s ≢ t → text_eq s t ≡ false
text_eq-≢ s t ne = elim (Bool-cases (text_eq s t)) [
  | inl e ↦ absurd (ne (text_eq→eq s t e))
  | inr e ↦ e
]

-- A row of one workspace is not a row of another.
other_workspace : (id other x : Text) → other ≢ id → text_eq x other ≡ true → text_eq x id ≡ false
other_workspace id other x ne h = rw (text_eq→eq x other h) (text_eq-≢ other id ne)

&&-left : (a b : Bool) → (a && b) ≡ true → a ≡ true
&&-left true b h = refl
&&-left false b h = h

without_workspace_self :
    (id user : Text) (db : Tables)
    → (get_workspace id (without_workspace id db) ≡ err not_found)
      × (get_member_role id user (without_workspace id db) ≡ err not_found)
unfolding get_workspace get_member_role without_workspace
without_workspace_self id user db = (
  ap (λ o. elim o [ some w ↦ ok w | none ↦ err not_found ])
      (find_row-delete_rows_self (has_id id) (has_id id) db.workspaces (λ w h. h)),
  ap (λ o. elim o [ some m ↦ ok m.role | none ↦ err not_found ])
      (find_row-delete_rows_self (is_member id user) (λ m. text_eq m.workspace_id id) db.members
        (λ m h. &&-left _ _ h)),
)

without_workspace-other :
    (id other user : Text) (db : Tables)
    → other ≢ id
    → (get_workspace other (without_workspace id db) ≡ get_workspace other db)
      × (get_member_role other user (without_workspace id db) ≡ get_member_role other user db)
unfolding get_workspace get_member_role without_workspace
without_workspace-other id other user db ne = (
  ap (λ o. elim o [ some w ↦ ok w | none ↦ err not_found ])
      (find_row-delete_rows_ne (has_id other) (has_id id) db.workspaces
        (λ w h. other_workspace id other w.id ne h)),
  ap (λ o. elim o [ some m ↦ ok m.role | none ↦ err not_found ])
      (find_row-delete_rows_ne (is_member other user) (λ m. text_eq m.workspace_id id) db.members
        (λ m h. other_workspace id other m.workspace_id ne (&&-left _ _ h))),
)

≢-text_eq : (s t : Text) → text_eq s t ≡ false → s ≢ t
≢-text_eq s t h e = cc (rw e at h, text_eq_refl t)

-- A table without rows of the workspace loses none.
delete_rows_none :
    (id : Text) (rows : List Text)
    → any_row (λ w. text_eq w id) rows ≡ false
    → delete_rows (λ w. text_eq w id) rows ≡ rows
unfolding delete_rows select_rows any_row
delete_rows_none id [] h = refl
delete_rows_none id (w ∷ rows) h = elim (Bool-cases (text_eq w id)) [
  | inl own ↦ absurd (cc (rw (own, any_row) at h))
  | inr other ↦ rw other (ap (λ l. w ∷ l) (delete_rows_none id rows (rw (other, any_row) at h)))
]

-- The tables whose rows a deletion could take with it.
abbrev pub AreKept : Tables → Tables → Type 0
AreKept db db' =
    (db'.experiments ≡ db.experiments)
    × (db'.registered_models ≡ db.registered_models)
    × (db'.prompts ≡ db.prompts)
    × (db'.datasets_v2 ≡ db.datasets_v2)
    × (db'.webhooks ≡ db.webhooks)
    × (db'.peers ≡ db.peers)

kept :
    (id : Text) (db : Tables)
    → owns_rows id (owned_tables db) ≡ false
    → AreKept db (without_workspace id db)
unfolding owned_tables owns_rows without_workspace
kept id db h = (
  delete_rows_none id db.experiments (ground (arith, h)),
  delete_rows_none id db.registered_models (ground (arith, h)),
  delete_rows_none id db.prompts (ground (arith, h)),
  refl,
  refl,
  refl,
)

-- A workspace that is deleted was not the default one, existed and owned no row of the owned tables;
-- afterwards it is not found and has no member, and the experiments, registered models, prompts,
-- datasets, webhooks and peers are what they were, whatever the cascades would take.
pub delete_workspace-removes :
    (id user : Text) (db db' : Tables)
    → delete_workspace id db ≡ ok db'
    → (id ≢ default_workspace)
      × (any_row (has_id id) db.workspaces ≡ true)
      × (owns_rows id (owned_tables db) ≡ false)
      × (get_workspace id db' ≡ err not_found)
      × (get_member_role id user db' ≡ err not_found)
      × AreKept db db'
delete_workspace-removes id user db db' h =
    let (named, exists, owned, e) = delete_workspace-cases id db db' h in
    let (no_row, no_member) = without_workspace_self id user db in
    (
      ≢-text_eq id default_workspace named,
      exists,
      owned,
      rw e no_row,
      rw e no_member,
      rw e (kept id db owned),
    )

-- A deletion leaves every other workspace and the roles of its members as they were.
pub delete_workspace-keeps :
    (id other user : Text) (db db' : Tables)
    → other ≢ id
    → delete_workspace id db ≡ ok db'
    → (get_workspace other db' ≡ get_workspace other db)
      × (get_member_role other user db' ≡ get_member_role other user db)
delete_workspace-keeps id other user db db' ne h =
    let (_, _, _, e) = delete_workspace-cases id db db' h in
    rw e (without_workspace-other id other user db ne)
