-- ===== src/Artifact/Inside.antt =====
-- internal/artifact/store.go, absoluteFor: where the path that it gives lies.
use mathlib.Core.List.{reverse, reverse-append, reverse-reverse, append_assoc}
use litemlflow.Prelude.{
  true, false, List, [], ◌∷◌, ◌++◌, Option, some, ◌==◌, ◌≡◌, refl, sym, ap, ◌∙◌, inl, inr,
  Bool-cases, All-append, arith, Text, codes, text_eq, text_eq→eq, has_prefix, split_on, join_with,
  cons_first,
}
use litemlflow.Artifact.{
  is_skipped, add_part, add_parts, is_rooted, parts_of, path_text, clean_path, join_paths, abs_path,
  located, has_separator, clean_relative, within, absolute_for,
}
use litemlflow.Artifact.Parts.{
  IsName, AreNames, add_part-IsName, parts_of-AreNames, add_parts-split, add_parts-path_text,
  parts_of-path_text,
}

split_on-has_separator : (s : Text) → has_separator s ≡ false → split_on b'/' s ≡ s ∷ []
unfolding split_on has_separator
split_on-has_separator [] h = refl
split_on-has_separator (c ∷ s) h = elim (Bool-cases (c == b'/')) [
  | inl here ↦ absurd (ground (arith, here))
  | inr later ↦ rw later (ap (cons_first c) (split_on-has_separator s (ground (arith, later))))
]

rooted_append : (root x : Text) → is_rooted root ≡ true → is_rooted (root ++ x) ≡ true
unfolding has_prefix
rooted_append [] x h = cc
rooted_append (c ∷ root) x h = ground (arith, h)

rooted-ne-nil : (root : Text) → is_rooted root ≡ true → text_eq root [] ≡ false
unfolding has_prefix text_eq
rooted-ne-nil [] h = cc
rooted-ne-nil (c ∷ root) h = refl

clean_path-rooted :
    (path : Text) → is_rooted path ≡ true → clean_path path ≡ path_text true (parts_of true path)
unfolding clean_path
clean_path-rooted path h = rw h refl

abs_path-path_text :
    (wd : Option Text) (ps : List Text)
    → AreNames ps
    → abs_path wd (path_text true ps) ≡ some (path_text true ps)
unfolding abs_path has_prefix clean_path
abs_path-path_text wd ps names = ap (λ l. some (path_text true l)) (parts_of-path_text ps names)

has_prefix-common : (p x y : Text) → has_prefix (p ++ x) (p ++ y) ≡ has_prefix x y
unfolding has_prefix
has_prefix-common [] x y = refl
has_prefix-common (c ∷ p) x y = ground (arith, has_prefix-common p x y)

-- A list of parts begins with the text of the ones it begins with.
join_with-prefix :
    (p : Text) (ps qs : List Text)
    → has_prefix
        (join_with b'/' (p ∷ (ps ++ qs)) ++ codes "/")
        (join_with b'/' (p ∷ ps) ++ codes "/")
      ≡ true
unfolding join_with has_prefix
join_with-prefix p [] [] = has_prefix-common p (codes "/") (codes "/")
join_with-prefix p [] (q ∷ qs) =
    rw (append_assoc p (b'/' ∷ join_with b'/' (q ∷ qs)) (codes "/"))
      (has_prefix-common p (b'/' ∷ (join_with b'/' (q ∷ qs) ++ codes "/")) (codes "/"))
join_with-prefix p (q ∷ ps) qs =
    rw (append_assoc p (b'/' ∷ join_with b'/' (q ∷ (ps ++ qs))) (codes "/")) (
      rw (append_assoc p (b'/' ∷ join_with b'/' (q ∷ ps)) (codes "/")) (
        has_prefix-common p (b'/' ∷ (join_with b'/' (q ∷ (ps ++ qs)) ++ codes "/"))
          (b'/' ∷ (join_with b'/' (q ∷ ps) ++ codes "/"))
        ∙ join_with-prefix q ps qs))

path_text-prefix :
    (base : List Text) (run_id : Text) (rel : List Text)
    → has_prefix
        (path_text true ((base ++ (run_id ∷ [])) ++ rel) ++ codes "/")
        (path_text true (base ++ (run_id ∷ [])) ++ codes "/")
      ≡ true
unfolding has_prefix
path_text-prefix [] run_id rel = join_with-prefix run_id [] rel
path_text-prefix (b ∷ base) run_id rel = join_with-prefix b (base ++ (run_id ∷ [])) rel

no_parts :
    (stack : List Text)
    → add_parts true (split_on b'/' []) stack ≡ add_parts true (split_on b'/' (codes "/")) stack
unfolding add_parts split_on add_part is_skipped text_eq
no_parts stack = refl

-- The relative path leaves its own parts.
add_parts-clean_relative :
    (rel : Text) (stack : List Text)
    → add_parts true (split_on b'/' (clean_relative rel)) stack
      ≡ reverse (parts_of true (b'/' ∷ rel)) ++ stack
add_parts-clean_relative rel stack =
    let cleaned : clean_path (b'/' ∷ rel) ≡ path_text true (parts_of true (b'/' ∷ rel)) =
      unfold has_prefix in clean_path-rooted (b'/' ∷ rel) refl in
    let whole =
      add_parts-path_text (parts_of true (b'/' ∷ rel)) stack (parts_of-AreNames (b'/' ∷ rel)) in
    elim (Bool-cases (text_eq (clean_path (b'/' ∷ rel)) (codes "/"))) [
      | inl empty ↦ rw empty (
          no_parts stack
          ∙ ap (λ t. add_parts true (split_on b'/' t) stack)
              (sym (text_eq→eq (clean_path (b'/' ∷ rel)) (codes "/") empty) ∙ cleaned)
          ∙ whole)
      | inr some_part ↦
          rw some_part (ap (λ t. add_parts true (split_on b'/' t) stack) cleaned ∙ whole)
    ]

is_skipped→ne : (part : Text) → is_skipped part ≡ false → text_eq part [] ≡ false
unfolding is_skipped
is_skipped→ne part h = ground (arith, h)

-- The directory of a run, in parts.
abbrev pub run_parts : Text → Text → List Text
run_parts root run_id = parts_of true root ++ (run_id ∷ [])

module _ (root run_id : Text) (name : IsName run_id) where
  run_stack :
      add_parts true (split_on b'/' run_id) (add_parts true (split_on b'/' root) [])
      ≡ run_id ∷ add_parts true (split_on b'/' root) []
  unfolding add_parts
  run_stack =
      let (one, kept, no_up) = name in
      rw one (add_part-IsName run_id (add_parts true (split_on b'/' root) []) (one, kept, no_up))

  parts_of-run : parts_of true (root ++ (b'/' ∷ run_id)) ≡ run_parts root run_id
  unfolding parts_of
  parts_of-run =
      ap reverse (add_parts-split root run_id [] ∙ run_stack)
      ∙ reverse-append (run_id ∷ []) (add_parts true (split_on b'/' root) [])

  parts_of-full :
      (rel : Text)
      → parts_of true (root ++ (b'/' ∷ (run_id ++ (b'/' ∷ clean_relative rel))))
        ≡ run_parts root run_id ++ parts_of true (b'/' ∷ rel)
  unfolding parts_of
  parts_of-full rel =
      let base = add_parts true (split_on b'/' root) [] in
      let stack : add_parts true
            (split_on b'/' (root ++ (b'/' ∷ (run_id ++ (b'/' ∷ clean_relative rel))))) []
          ≡ reverse (parts_of true (b'/' ∷ rel)) ++ (run_id ∷ base) =
        add_parts-split root (run_id ++ (b'/' ∷ clean_relative rel)) []
        ∙ add_parts-split run_id (clean_relative rel) base
        ∙ ap (add_parts true (split_on b'/' (clean_relative rel))) run_stack
        ∙ add_parts-clean_relative rel (run_id ∷ base) in
      ap reverse stack
      ∙ reverse-append (reverse (parts_of true (b'/' ∷ rel))) (run_id ∷ base)
      ∙ ap (λ l. reverse (run_id ∷ base) ++ l) (reverse-reverse (parts_of true (b'/' ∷ rel)))
      ∙ ap (λ l. l ++ parts_of true (b'/' ∷ rel)) (reverse-append (run_id ∷ []) base)

  run_parts-AreNames : AreNames (run_parts root run_id)
  run_parts-AreNames =
      All-append IsName (parts_of true root) (run_id ∷ []) (parts_of-AreNames root) (name, tt)

  full_parts-AreNames :
      (rel : Text) → AreNames (run_parts root run_id ++ parts_of true (b'/' ∷ rel))
  full_parts-AreNames rel =
      All-append IsName (run_parts root run_id) (parts_of true (b'/' ∷ rel)) run_parts-AreNames
        (parts_of-AreNames (b'/' ∷ rel))

  module _ (rooted : is_rooted root ≡ true) where
    join_paths-run : join_paths (root ∷ run_id ∷ []) ≡ path_text true (run_parts root run_id)
    unfolding join_paths join_with
    join_paths-run = rw (rooted-ne-nil root rooted) (
        clean_path-rooted (root ++ (b'/' ∷ run_id)) (rooted_append root (b'/' ∷ run_id) rooted)
        ∙ ap (path_text true) parts_of-run)

    join_paths-full :
        (rel : Text)
        → join_paths (root ∷ run_id ∷ clean_relative rel ∷ [])
          ≡ path_text true (run_parts root run_id ++ parts_of true (b'/' ∷ rel))
    unfolding join_paths join_with
    join_paths-full rel = rw (rooted-ne-nil root rooted) (
        clean_path-rooted (root ++ (b'/' ∷ (run_id ++ (b'/' ∷ clean_relative rel))))
          (rooted_append root (b'/' ∷ (run_id ++ (b'/' ∷ clean_relative rel))) rooted)
        ∙ ap (path_text true) (parts_of-full rel))

    within-full :
        (wd : Option Text) (rel : Text)
        → within
            (abs_path wd (join_paths (root ∷ run_id ∷ [])))
            (abs_path wd (join_paths (root ∷ run_id ∷ clean_relative rel ∷ [])))
          ≡ located (path_text true (run_parts root run_id ++ parts_of true (b'/' ∷ rel)))
    unfolding within
    within-full wd rel = rw join_paths-run (
        rw (join_paths-full rel) (
          rw (abs_path-path_text wd (run_parts root run_id) run_parts-AreNames) (
            rw
              (abs_path-path_text wd (run_parts root run_id ++ parts_of true (b'/' ∷ rel))
                (full_parts-AreNames rel))
              (rw (path_text-prefix (parts_of true root) run_id (parts_of true (b'/' ∷ rel)))
                refl))))

-- Below a root that is given as an absolute path, a run id that is neither empty nor "." nor ".." and
-- has no slash or backslash makes every relative path one inside the directory of the run: the path
-- given back has the parts of the root, the run id, and then only parts that are names, not empty,
-- no "." and no "..", and without a slash.
pub absolute_for-AreNames :
    (root : Text) (wd : Option Text) (run_id rel : Text)
    → is_rooted root ≡ true
    → has_separator run_id ≡ false
    → is_skipped run_id ≡ false
    → text_eq run_id (codes "..") ≡ false
    → (absolute_for root wd run_id rel
        ≡ located (path_text true (run_parts root run_id ++ parts_of true (b'/' ∷ rel))))
      × AreNames (parts_of true (b'/' ∷ rel))
unfolding absolute_for
absolute_for-AreNames root wd run_id rel rooted plain kept no_up =
    let name : IsName run_id = (split_on-has_separator run_id plain, kept, no_up) in
    (
      rw (is_skipped→ne run_id kept) (rw plain (within-full root run_id name rooted wd rel)),
      parts_of-AreNames (b'/' ∷ rel),
    )
