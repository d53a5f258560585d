-- ===== src/Artifact/Parts.antt =====
-- How the parts of a path come out of its text: Clean, Join and Abs of path/filepath, as
-- internal/artifact/store.go uses them.
use mathlib.Core.Path.{subst}
use mathlib.Core.List.{reverse, reverse-append, reverse-reverse, append_assoc, append-nil}
use litemlflow.Prelude.{
  true, false, List, [], ◌∷◌, ◌++◌, ◌==◌, ◌≡◌, refl, sym, ap, ◌∙◌, inl, inr, Bool-cases, Text,
  codes, text_eq, split_on, join_with, cons_first, All, All-append, split_some, split_on-append,
}
use litemlflow.Artifact.{up, is_skipped, add_part, add_parts, parts_of, path_text}

-- A text that splits into itself has no separator.
abbrev pub IsOne : Text → Type 0
IsOne part = split_on b'/' part ≡ part ∷ []

-- A part that names a file or a directory.
abbrev pub IsName : Text → Type 0
IsName part = IsOne part × (is_skipped part ≡ false) × (text_eq part (codes "..") ≡ false)

abbrev pub AreNames : List Text → Type 0
AreNames = All IsName

split_on-IsOne : (s : Text) → All IsOne (split_on b'/' s)
unfolding split_on
split_on-IsOne [] = (refl, tt)
split_on-IsOne (c ∷ s) =
    let (p, ps, is) = split_some b'/' s in
    let (one, ones) = subst (All IsOne) is (split_on-IsOne s) in
    elim (Bool-cases (c == b'/')) [
      | inl here ↦ rw here (refl, split_on-IsOne s)
      | inr later ↦ rw later (rw is ((rw later (ap (cons_first c) one)), ones))
    ]

add_parts-append :
    (ps qs stack : List Text)
    → add_parts true (ps ++ qs) stack ≡ add_parts true qs (add_parts true ps stack)
unfolding add_parts
add_parts-append [] qs stack = refl
add_parts-append (p ∷ ps) qs stack = add_parts-append ps qs (add_part true p stack)

pub add_part-IsName :
    (part : Text) (stack : List Text) → IsName part → add_part true part stack ≡ part ∷ stack
unfolding add_part
add_part-IsName part stack (_, kept, no_up) = rw kept (rw no_up refl)

-- Names stay as they are.
pub add_parts-AreNames :
    (ps stack : List Text) → AreNames ps → add_parts true ps stack ≡ reverse ps ++ stack
unfolding add_parts
add_parts-AreNames [] stack _ = refl
add_parts-AreNames (p ∷ ps) stack (name, names) =
    ap (add_parts true ps) (add_part-IsName p stack name)
    ∙ add_parts-AreNames ps (p ∷ stack) names
    ∙ sym (
        ap (λ l. l ++ stack) (reverse-append (p ∷ []) ps)
        ∙ append_assoc (reverse ps) (p ∷ []) stack)

up-AreNames : (stack : List Text) → AreNames stack → AreNames (up true stack)
up-AreNames [] _ = tt
up-AreNames (top ∷ stack) ((one, kept, name), names) = rw name names

-- What a path is cleaned to has names only.
add_part-AreNames :
    (part : Text) (stack : List Text)
    → IsOne part
    → AreNames stack
    → AreNames (add_part true part stack)
unfolding add_part
add_part-AreNames part stack one names = elim (Bool-cases (is_skipped part)) [
  | inl skipped ↦ rw skipped names
  | inr kept ↦ elim (Bool-cases (text_eq part (codes ".."))) [
    | inl dots ↦ rw kept (rw dots (up-AreNames stack names))
    | inr name ↦ rw kept (rw name ((one, kept, name), names))
  ]
]

add_parts-AllNames :
    (ps stack : List Text) → All IsOne ps → AreNames stack → AreNames (add_parts true ps stack)
unfolding add_parts
add_parts-AllNames [] stack _ names = names
add_parts-AllNames (p ∷ ps) stack (one, ones) names =
    add_parts-AllNames ps (add_part true p stack) ones (add_part-AreNames p stack one names)

reverse-AreNames : (ps : List Text) → AreNames ps → AreNames (reverse ps)
reverse-AreNames [] _ = tt
reverse-AreNames (p ∷ ps) (name, names) =
    rw (reverse-append (p ∷ []) ps)
      (All-append IsName (reverse ps) (p ∷ []) (reverse-AreNames ps names) (name, tt))

pub parts_of-AreNames : (path : Text) → AreNames (parts_of true path)
unfolding parts_of
parts_of-AreNames path =
    reverse-AreNames (add_parts true (split_on b'/' path) [])
      (add_parts-AllNames (split_on b'/' path) [] (split_on-IsOne path) tt)

-- The parts that a path leaves for what is appended after a separator.
pub add_parts-split :
    (s t : Text) (stack : List Text)
    → add_parts true (split_on b'/' (s ++ (b'/' ∷ t))) stack
      ≡ add_parts true (split_on b'/' t) (add_parts true (split_on b'/' s) stack)
add_parts-split s t stack =
    ap (λ l. add_parts true l stack) (split_on-append b'/' s t)
    ∙ add_parts-append (split_on b'/' s) (split_on b'/' t) stack

split_on-join_with :
    (p : Text) (ps : List Text)
    → AreNames (p ∷ ps)
    → split_on b'/' (join_with b'/' (p ∷ ps)) ≡ p ∷ ps
unfolding join_with
split_on-join_with p [] ((one, _, _), _) = one
split_on-join_with p (q ∷ ps) ((one, _, _), names) =
    split_on-append b'/' p (join_with b'/' (q ∷ ps))
    ∙ ap (λ l. l ++ split_on b'/' (join_with b'/' (q ∷ ps))) one
    ∙ ap (λ l. p ∷ l) (split_on-join_with q ps names)

pub add_parts-path_text :
    (ps stack : List Text)
    → AreNames ps
    → add_parts true (split_on b'/' (path_text true ps)) stack ≡ reverse ps ++ stack
unfolding split_on join_with add_parts add_part is_skipped text_eq
add_parts-path_text [] stack _ = refl
add_parts-path_text (p ∷ ps) stack names =
    ap (λ l. add_parts true l stack) (split_on-join_with p ps names)
    ∙ add_parts-AreNames (p ∷ ps) stack names

pub parts_of-path_text : (ps : List Text) → AreNames ps → parts_of true (path_text true ps) ≡ ps
unfolding parts_of
parts_of-path_text ps names =
    ap reverse (add_parts-path_text ps [] names ∙ append-nil (reverse ps)) ∙ reverse-reverse ps
