-- ===== src/Store/Registry/Rows.antt =====
-- Lemmas that the theorems on stages and on versions share.
use litemlflow.Prelude.{ℕ, sym, ap, find_row, String, ◌≡◌, refl, str_eq, Bool-cases, inl, inr}
use litemlflow.Model.{ModelVersion}
use litemlflow.Store.Registry.{
  is_version, version_read, get_model_version, Registry, workspace_or_default,
}

pub both_equal :
    {a a' : Registry} {b b' : ModelVersion}
    → ◌≡◌ {A = Registry × ModelVersion} (a, b) (a', b')
    → (a ≡ a') × (b ≡ b')
both_equal e = (λ i. (e i).0, λ i. (e i).1)

pub workspace_or_default_twice :
    (w : String) → workspace_or_default (workspace_or_default w) ≡ workspace_or_default w
workspace_or_default_twice w = elim (Bool-cases (str_eq w "")) [
  | inl e ↦ rw e refl
  | inr e ↦ rw (e, e) refl
]

pub same_workspace :
    (w name : String) (n : ℕ) (db : Registry)
    → get_model_version w name n db ≡ get_model_version (workspace_or_default w) name n db
unfolding get_model_version
same_workspace w name n db =
    ap (λ k. version_read k db.aliases (find_row (is_version k name n) db.versions))
      (sym (workspace_or_default_twice w))
