-- ===== src/Artifact.antt =====
-- internal/artifact/store.go: where the files of a run lie below the root of the artifacts. Paths are
-- those of Unix, as path/filepath cleans them; symbolic links are not followed.
pub mod Parts
pub mod Inside
pub mod Uploads
pub mod Tests
use litemlflow.Prelude.{
  Bool, true, false, not, ◌&&◌, ◌||◌, List, [], ◌∷◌, ◌++◌, Option, none, some, if◌then◌else◌, Text,
  codes, text_eq, has_prefix, split_on, join_with, ◌==◌,
}
use mathlib.Core.List.{reverse}

-- `..`: the part before it goes, unless there is none or it is one that stays.
abbrev pub up : Bool → List Text → List Text
up true [] = []
up false [] = codes ".." ∷ []
up rooted (top ∷ stack) = if text_eq top (codes "..") then codes ".." ∷ (top ∷ stack) else stack

unfoldable pub is_skipped : Text → Bool
is_skipped part = text_eq part [] || text_eq part (codes ".")

unfoldable pub add_part : Bool → Text → List Text → List Text
add_part rooted part stack =
    if is_skipped part
    then stack
    else if text_eq part (codes "..")
    then up rooted stack
    else part ∷ stack

-- The parts of a path that are left, the last one first.
unfoldable pub add_parts : Bool → List Text → List Text → List Text
add_parts rooted [] stack = stack
add_parts rooted (part ∷ parts) stack = add_parts rooted parts (add_part rooted part stack)

abbrev pub is_rooted : Text → Bool
is_rooted path = has_prefix path (b'/' ∷ [])

unfoldable pub parts_of : Bool → Text → List Text
parts_of rooted path = reverse (add_parts rooted (split_on b'/' path) [])

abbrev pub path_text : Bool → List Text → Text
path_text true parts = b'/' ∷ join_with b'/' parts
path_text false [] = codes "."
path_text false (part ∷ parts) = join_with b'/' (part ∷ parts)

-- `filepath.Clean`
unfoldable pub clean_path : Text → Text
clean_path path = path_text (is_rooted path) (parts_of (is_rooted path) path)

-- `filepath.Join`
unfoldable pub join_paths : List Text → Text
join_paths [] = []
join_paths (elem ∷ elems) =
    let rest = join_paths elems in
    if text_eq elem [] then rest else clean_path (join_with b'/' (elem ∷ elems))

-- `filepath.Abs`, in a working directory that may be unknown.
unfoldable pub abs_path : Option Text → Text → Option Text
abs_path wd path =
    if is_rooted path
    then some (clean_path path)
    else elim wd [ none ↦ none | some dir ↦ some (join_paths (dir ∷ path ∷ [])) ]

pub data ArtifactError : Type 0 where
  invalid_path payload_too_big no_working_directory os_failed : ArtifactError

pub data Located : Type 0 where
  refused : ArtifactError → Located
  located : Text → Located

-- `strings.ContainsAny(runID, "/\\")`
unfoldable pub has_separator : Text → Bool
has_separator [] = false
has_separator (c ∷ s) = c == b'/' || c == 92 || has_separator s

abbrev pub clean_relative : Text → Text
clean_relative rel =
    if text_eq (clean_path (b'/' ∷ rel)) (codes "/") then [] else clean_path (b'/' ∷ rel)

unfoldable pub within : Option Text → Option Text → Located
within none full = refused no_working_directory
within (some root) none = refused no_working_directory
within (some root) (some full) =
    if not (has_prefix (full ++ codes "/") (root ++ codes "/")) && not (text_eq full root)
    then refused invalid_path
    else located full

-- `absoluteFor`, in the working directory that `filepath.Abs` finds.
unfoldable pub absolute_for : Text → Option Text → Text → Text → Located
absolute_for root wd run_id rel =
    if text_eq run_id []
    then refused invalid_path
    else if has_separator run_id
    then refused invalid_path
    else within (abs_path wd (join_paths (root ∷ run_id ∷ [])))
        (abs_path wd (join_paths (root ∷ run_id ∷ clean_relative rel ∷ [])))
