-- ===== src/Artifact/Uploads/Reads.antt =====
-- internal/artifact/store.go, Upload: what a reader finds under a path while directories are made.
use litemlflow.Prelude.{
  Bool, List, [], ◌∷◌, Option, none, some, ◌≡◌, refl, ◌∙◌, ◌⊎◌, inl, inr, Bool-cases, Text, text_eq,
  text_eq→eq,
}
use litemlflow.Artifact.Uploads.{Node, directory, file, Files, put_node, make_one, make_dirs}

abbrev pub content : Option Node → Option Text
content (some (file bytes)) = some bytes
content (some directory) = none
content none = none

-- The file under a path, as a reader finds it.
abbrev pub file_at : Files → Text → Option Text
file_at files q = content (files q)

Node-cases :
    (n : Option Node) → (n ≡ none) ⊎ (n ≡ some directory) ⊎ (bytes : Text) × (n ≡ some (file bytes))
Node-cases none = inl refl
Node-cases (some directory) = inr (inl refl)
Node-cases (some (file bytes)) = inr (inr (bytes, refl))

-- A new directory takes the place of no file.
file_at-put_node :
    (files : Files) (path q : Text)
    → files path ≡ none
    → file_at (put_node path (some directory) files) q ≡ file_at files q
file_at-put_node files path q free = elim (Bool-cases (text_eq q path)) [
  | inl same ↦ rw same (rw (text_eq→eq q path same) (rw free refl))
  | inr other ↦ rw other refl
]

pub file_at-make_dirs :
    (refuses : Text → Bool) (paths : List Text) (files : Files) (q : Text)
    → file_at (make_dirs refuses paths files).1 q ≡ file_at files q
unfolding make_dirs make_one
file_at-make_dirs refuses [] files q = refl
file_at-make_dirs refuses (path ∷ paths) files q = elim (Node-cases (files path)) [
  | inl free ↦ elim (Bool-cases (refuses path)) [
    | inl stops ↦ rw free (rw stops refl)
    | inr makes ↦ rw free (
        rw makes (
          file_at-make_dirs refuses paths (put_node path (some directory) files) q
          ∙ file_at-put_node files path q free))
  ]
  | inr (inl there) ↦ rw there (file_at-make_dirs refuses paths files q)
  | inr (inr (bytes, taken)) ↦ rw taken refl
]
