-- ===== src/Store/Registry/Stages.antt =====
-- The stages after a transition.

use litemlflow.Prelude.{
  ℕ, String, Bool, true, false, not, ◌&&◌, List, [], ◌∷◌, Option, none, some, ◌≡◌, refl, sym, ap,
  ◌∙◌, ◌==◌, ok, str_eq, find_row, any_row, update_rows, if◌then◌else◌, arith, Bool-cases, inl, inr,
  >>=-eq-ok, ok_inj, find_row-update_rows_ne, &&-both, eq_iff,
}
use litemlflow.Model.{ModelVersion, valid_stage, stage_production, stage_archived}
use litemlflow.Store.Registry.Rows.{both_equal, same_workspace}
use litemlflow.Store.Registry.{
  Registry, workspace_or_default, is_version_of, is_version, is_superseded, with_stage, archived,
  version_read, get_model_version, transition_model_stage,
}

other_version : (a p q : Bool) → (a && p && not q) ≡ true → (a && q) ≡ false
other_version a p q h = ground arith

no_stage : (a q : Bool) → (a && false && q) ≡ false
no_stage a q = ground arith

this_version : (a q : Bool) → (a && q) ≡ true → (a && true && not q) ≡ false
this_version a q h = ground arith

module _ (now : ℕ) (w name : String) (n : ℕ) where
  abbrev moved : ModelVersion → ModelVersion
  moved v =
      let a = if is_superseded w name n v then with_stage now stage_archived v else v in
      if is_version w name n a then with_stage now stage_production a else a

  moved_row : (v : ModelVersion) → is_superseded w name n (moved v) ≡ false
  unfolding is_superseded
  moved_row v = elim (Bool-cases (is_superseded w name n v)) [
    | inl old ↦
        rw
          (
            old,
            other_version (is_version_of w name v) (str_eq v.current_stage stage_production)
                (v.version == n) old,
          )
          (no_stage (is_version_of w name v) (not (v.version == n)))
    | inr fine ↦ elim (Bool-cases (is_version w name n v)) [
      | inl here ↦ rw (fine, here) (this_version (is_version_of w name v) (v.version == n) here)
      | inr elsewhere ↦ rw (fine, elsewhere) fine
    ]
  ]

  moved_rows :
      (vs : List ModelVersion)
      → any_row (is_superseded w name n) (
          update_rows
            (is_version w name n)
            (with_stage now stage_production)
            (update_rows (is_superseded w name n) (with_stage now stage_archived) vs))
        ≡ false
  unfolding any_row update_rows
  moved_rows [] = refl
  moved_rows (v ∷ vs) = rw (moved_row v) (moved_rows vs)

-- What a successful transition did.
transition_model_stage-cases :
    (now : ℕ) (w name : String) (n : ℕ) (stage : String) (archive : Bool) (db db' : Registry)
    (v : ModelVersion)
    → transition_model_stage now w name n stage archive db ≡ ok (db', v)
    → (valid_stage stage ≡ true)
      × (get_model_version (workspace_or_default w) name n db' ≡ ok v)
      × (db' ≡ record db {
        versions =
            update_rows
              (is_version (workspace_or_default w) name n)
              (with_stage now stage)
              (archived now (workspace_or_default w) name n stage archive db.versions);
      })
unfolding transition_model_stage
transition_model_stage-cases now w name n stage archive db db' v h =
    elim (Bool-cases (valid_stage stage)) [
      | inr bad ↦ absurd (cc (rw (bad, transition_model_stage) at h))
      | inl good ↦
          elim (Bool-cases (
            any_row (is_version (workspace_or_default w) name n)
              (archived now (workspace_or_default w) name n stage archive db.versions))) [
                | inr missing ↦ absurd (cc (rw (good, missing, transition_model_stage) at h))
                | inl there ↦
                    let (x, read, e) =
                      >>=-eq-ok _ _ (rw (good, there, transition_model_stage) at h) in
                    let (e₁, e₂) = both_equal (ok_inj e) in
                    (
                      good,
                      sym (ap (get_model_version (workspace_or_default w) name n) e₁)
                          ∙ read
                          ∙ ap ok e₂,
                      sym e₁,
                    )
              ]
    ]

-- After a version went to Production with the others archived, no other version of its model is in
-- Production.
pub transition_model_stage-any_row :
    (now : ℕ) (w name : String) (n : ℕ) (db db' : Registry) (v : ModelVersion)
    → transition_model_stage now w name n stage_production true db ≡ ok (db', v)
    → any_row (is_superseded (workspace_or_default w) name n) db'.versions ≡ false
unfolding archived
transition_model_stage-any_row now w name n db db' v h =
    let (_, _, e) = transition_model_stage-cases now w name n stage_production true db db' v h in
    rw e (moved_rows now (workspace_or_default w) name n db.versions)

found_row :
    (w name : String) (n : ℕ) (db : Registry) (v : ModelVersion)
    → get_model_version w name n db ≡ ok v
    → (x : ModelVersion) × (find_row (is_version (workspace_or_default w) name n) db.versions
        ≡ some x)
      × (x.current_stage ≡ v.current_stage)
unfolding get_model_version version_read
found_row w name n db v h =
    row_of (find_row (is_version (workspace_or_default w) name n) db.versions) h
  where
    row_of :
        (o : Option ModelVersion)
        → version_read (workspace_or_default w) db.aliases o ≡ ok v
        → (x : ModelVersion) × (o ≡ some x) × (x.current_stage ≡ v.current_stage)
    row_of none h = cc
    row_of (some x) h = (x, refl, ap (λ r. r.current_stage) (ok_inj h))

updated_stage :
    (p : ModelVersion → Bool) (f : ModelVersion → ModelVersion) (stage : String)
    → ((x : ModelVersion) → p (f x) ≡ p x)
    → ((x : ModelVersion) → (f x).current_stage ≡ stage)
    → (vs : List ModelVersion) (v : ModelVersion) → find_row p (update_rows p f vs) ≡ some v
    → v.current_stage ≡ stage
unfolding find_row update_rows
updated_stage p f stage same sets [] v h = cc
updated_stage p f stage same sets (x ∷ vs) v h = elim (Bool-cases (p x)) [
  | inl yes' ↦ ground (arith, same x, sets x)
  | inr no' ↦ updated_stage p f stage same sets vs v (ground arith)
]

other_model :
    (w name w' name' : String) (v : ModelVersion)
    → (str_eq w w' && str_eq name name') ≡ false
    → is_version_of w' name' v ≡ true
    → is_version_of w name v ≡ false
other_model w name w' name' v other h = elim (Bool-cases (is_version_of w name v)) [
  | inl here ↦
      let (a, b) = &&-both (str_eq v.workspace_id w) (str_eq v.name name) here in
      let (a', b') = &&-both (str_eq v.workspace_id w') (str_eq v.name name') h in
      let same_w =
        (eq_iff w w').1 (sym ((eq_iff v.workspace_id w).0 a) ∙ (eq_iff v.workspace_id w').0 a') in
      let same_name =
        (eq_iff name name').1 (sym ((eq_iff v.name name).0 b) ∙ (eq_iff v.name name').0 b') in
      absurd (cc (rw (same_w, same_name) at other))
  | inr elsewhere ↦ elsewhere
]

module _ (w name w' name' : String) (n n' : ℕ)
    (other : (str_eq w w' && str_eq name name') ≡ false) where
  not_of_model :
      (v : ModelVersion) → is_version w' name' n' v ≡ true → is_version_of w name v ≡ false
  not_of_model v h =
      other_model w name w' name' v other (&&-both (is_version_of w' name' v) (v.version == n') h).0

  not_version : (v : ModelVersion) → is_version w' name' n' v ≡ true → is_version w name n v ≡ false
  not_version v h = rw (not_of_model v h) refl

  not_superseded :
      (v : ModelVersion) → is_version w' name' n' v ≡ true → is_superseded w name n v ≡ false
  unfolding is_superseded
  not_superseded v h = rw (not_of_model v h) refl

  archived_elsewhere :
      (now : ℕ) (stage : String) (archive : Bool) (vs : List ModelVersion)
      → find_row (is_version w' name' n') (archived now w name n stage archive vs)
        ≡ find_row (is_version w' name' n') vs
  unfolding archived
  archived_elsewhere now stage archive vs =
      elim (Bool-cases (archive && str_eq stage stage_production)) [
        | inl e ↦ rw e (
            find_row-update_rows_ne (is_version w' name' n') (is_superseded w name n)
              (with_stage now stage_archived) vs (λ v. refl) not_superseded)
        | inr e ↦ rw e refl
      ]

others_kept :
    (now : ℕ) (w name w' name' : String) (n n' : ℕ) (stage : String) (archive : Bool)
    (db : Registry)
    → (str_eq (workspace_or_default w) (workspace_or_default w') && str_eq name name') ≡ false
    → get_model_version w' name' n' (record db {
      versions =
          update_rows
            (is_version (workspace_or_default w) name n)
            (with_stage now stage)
            (archived now (workspace_or_default w) name n stage archive db.versions);
    })
      ≡ get_model_version w' name' n' db
unfolding get_model_version
others_kept now w₀ name w₁ name' n n' stage archive db other =
    let w = workspace_or_default w₀ in
    let w' = workspace_or_default w₁ in
    ap (version_read w' db.aliases) (
      find_row-update_rows_ne (is_version w' name' n') (is_version w name n) (with_stage now stage)
        (archived now w name n stage archive db.versions) (λ v. refl)
        (not_version w name w' name' n n' other)
      ∙ archived_elsewhere w name w' name' n n' other now stage archive db.versions)

-- A transition that succeeds is to one of the four stages, returns the version as it is stored, in
-- that stage, and leaves the models, the aliases and the versions of every other model as they were.
pub transition_model_stage-stage :
    (now : ℕ) (w name w' name' : String) (n n' : ℕ) (stage : String) (archive : Bool)
    (db db' : Registry) (v : ModelVersion)
    → (str_eq (workspace_or_default w) (workspace_or_default w') && str_eq name name') ≡ false
    → transition_model_stage now w name n stage archive db ≡ ok (db', v)
    → (valid_stage stage ≡ true)
      × (get_model_version w name n db' ≡ ok v)
      × (v.current_stage ≡ stage)
      × (get_model_version w' name' n' db' ≡ get_model_version w' name' n' db)
      × (db'.models ≡ db.models)
      × (db'.aliases ≡ db.aliases)
transition_model_stage-stage now w name w' name' n n' stage archive db db' v other h =
    let (valid, stored, e) = transition_model_stage-cases now w name n stage archive db db' v h in
    let read = same_workspace w name n db' ∙ stored in
    let (row, found, same_stage) = found_row w name n db' v read in
    (
      valid,
      read,
      sym same_stage
          ∙ updated_stage (is_version (workspace_or_default w) name n) (with_stage now stage) stage
              (λ x. refl) (λ x. refl) _ row (rw e at found),
      rw e (others_kept now w name w' name' n n' stage archive db other),
      ap (λ r. r.models) e,
      ap (λ r. r.aliases) e,
    )
