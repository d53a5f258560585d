-- ===== src/Prelude/Ordered.antt =====
-- Rows that a query sorts by a strict order: ORDER BY as an insertion sort, and what a WHERE test
-- and a cut at one row do to a sorted list.
use mathlib.Core.Path.{◌≡◌, refl, ap, ◌∙◌}
use mathlib.Core.Logic.{◌⊎◌, inl, inr}
use mathlib.Core.Bool.{Bool, true, false}
use mathlib.Core.List.{List, [], ◌∷◌, ◌++◌}
use native.Mathlib.Omega.{arith}
use litemlflow.Prelude.Tests.{if◌then◌else◌, Bool-cases}
use litemlflow.Prelude.Lists.{All, All-append_right}
use litemlflow.Prelude.Table.{select_rows}

module _ {A : Type 0} (before : A → A → Bool) where
  unfoldable pub insert_sorted : A → List A → List A
  insert_sorted x [] = x ∷ []
  insert_sorted x (y ∷ ys) =
      let later = insert_sorted x ys in if before x y then x ∷ y ∷ ys else y ∷ later

  -- ORDER BY
  unfoldable pub sort_rows : List A → List A
  unfolding insert_sorted
  sort_rows [] = []
  sort_rows (x ∷ xs) = insert_sorted x (sort_rows xs)

  -- Each element stands before all that follow it.
  abbrev pub IsAscending : List A → Type 0
  IsAscending [] = Unit
  IsAscending (x ∷ xs) = All (λ y. before x y ≡ true) xs × IsAscending xs

  -- Of two elements at different places, one stands before the other.
  abbrev pub IsApart : List A → Type 0
  IsApart [] = Unit
  IsApart (x ∷ xs) = All (λ y. (before x y ≡ true) ⊎ (before y x ≡ true)) xs × IsApart xs

  insert_sorted-All :
      (P : A → Type 0) (x : A) (ys : List A) → P x → All P ys → All P (insert_sorted x ys)
  unfolding insert_sorted
  insert_sorted-All P x [] px _ = (px, tt)
  insert_sorted-All P x (y ∷ ys) px (py, h) = elim (Bool-cases (before x y)) [
    | inl first ↦ rw first (px, (py, h))
    | inr later ↦ rw later (py, insert_sorted-All P x ys px h)
  ]

  pub sort_rows-All : (P : A → Type 0) (xs : List A) → All P xs → All P (sort_rows xs)
  unfolding sort_rows
  sort_rows-All P [] h = tt
  sort_rows-All P (x ∷ xs) (px, h) = insert_sorted-All P x (sort_rows xs) px (sort_rows-All P xs h)

  pub select_rows-All :
      (P : A → Type 0) (p : A → Bool) (xs : List A) → All P xs → All P (select_rows p xs)
  unfolding select_rows
  select_rows-All P p [] h = tt
  select_rows-All P p (x ∷ xs) (px, h) = elim (Bool-cases (p x)) [
    | inl kept ↦ rw kept (px, select_rows-All P p xs h)
    | inr not_kept ↦ rw not_kept (select_rows-All P p xs h)
  ]

  pub select_rows-IsApart : (p : A → Bool) (xs : List A) → IsApart xs → IsApart (select_rows p xs)
  unfolding select_rows
  select_rows-IsApart p [] h = tt
  select_rows-IsApart p (x ∷ xs) (apart, h) = elim (Bool-cases (p x)) [
    | inl kept ↦ rw kept (select_rows-All _ p xs apart, select_rows-IsApart p xs h)
    | inr not_kept ↦ rw not_kept (select_rows-IsApart p xs h)
  ]

  select_rows_all : (p : A → Bool) (xs : List A) → All (λ y. p y ≡ true) xs → select_rows p xs ≡ xs
  unfolding select_rows
  select_rows_all p [] h = refl
  select_rows_all p (x ∷ xs) (px, h) = rw px (ap (λ l. x ∷ l) (select_rows_all p xs h))

  module _ (irrefl : (x : A) → before x x ≡ false)
      (trans : (x y z : A) → before x y ≡ true → before y z ≡ true → before x z ≡ true) where
    All-before :
        (x y : A) (zs : List A)
        → before x y ≡ true
        → All (λ z. before y z ≡ true) zs
        → All (λ z. before x z ≡ true) zs
    All-before x y [] h k = tt
    All-before x y (z ∷ zs) h (yz, k) = (trans x y z h yz, All-before x y zs h k)

    insert_sorted-IsAscending :
        (x : A) (ys : List A)
        → All (λ y. (before x y ≡ true) ⊎ (before y x ≡ true)) ys
        → IsAscending ys
        → IsAscending (insert_sorted x ys)
    unfolding insert_sorted
    insert_sorted-IsAscending x [] _ _ = (tt, tt)
    insert_sorted-IsAscending x (y ∷ ys) (apart, h) (up, k) = elim (Bool-cases (before x y)) [
      | inl first ↦ rw first ((first, All-before x y ys first up), (up, k))
      | inr later ↦
          let below : before y x ≡ true = ground arith in
          rw later (
            insert_sorted-All (λ z. before y z ≡ true) x ys below up,
            insert_sorted-IsAscending x ys h k,
          )
    ]

    pub sort_rows-IsAscending : (xs : List A) → IsApart xs → IsAscending (sort_rows xs)
    unfolding sort_rows
    sort_rows-IsAscending [] h = tt
    sort_rows-IsAscending (x ∷ xs) (apart, h) =
        insert_sorted-IsAscending x (sort_rows xs) (sort_rows-All _ xs apart)
          (sort_rows-IsAscending xs h)

    insert_first :
        (x : A) (zs : List A) → All (λ z. before x z ≡ true) zs → insert_sorted x zs ≡ x ∷ zs
    unfolding insert_sorted
    insert_first x [] h = refl
    insert_first x (z ∷ zs) (xz, h) = rw xz refl

    select_rows-insert_sorted :
        (p : A → Bool) (x : A) (ys : List A)
        → IsAscending ys
        → select_rows p (insert_sorted x ys)
          ≡ (if p x then insert_sorted x (select_rows p ys) else select_rows p ys)
    unfolding insert_sorted select_rows
    select_rows-insert_sorted p x [] h = ground arith
    select_rows-insert_sorted p x (y ∷ ys) (up, k) = elim (Bool-cases (before x y)) [
      | inl first ↦
          let above : All (λ z. before x z ≡ true) (y ∷ ys) = (first, All-before x y ys first up) in
          let front =
            insert_first x (select_rows p (y ∷ ys)) (select_rows-All _ p (y ∷ ys) above) in
          rw first (ground (arith, front))
      | inr later ↦ ground (arith, select_rows-insert_sorted p x ys k)
    ]

    -- A WHERE test before or after the sort gives the same rows.
    pub select_rows-sort_rows :
        (p : A → Bool) (xs : List A)
        → IsApart xs
        → select_rows p (sort_rows xs) ≡ sort_rows (select_rows p xs)
    unfolding sort_rows select_rows
    select_rows-sort_rows p [] h = refl
    select_rows-sort_rows p (x ∷ xs) (apart, h) =
        select_rows-insert_sorted p x (sort_rows xs) (sort_rows-IsAscending xs h)
        ∙ elim (Bool-cases (p x)) [
          | inl kept ↦ rw kept (ap (insert_sorted x) (select_rows-sort_rows p xs h))
          | inr not_kept ↦ rw not_kept (select_rows-sort_rows p xs h)
        ]

    -- The rows after one of a sorted list are those that follow it.
    pub select_rows_after :
        (xs ys : List A) (m : A)
        → IsAscending (xs ++ (m ∷ ys))
        → select_rows (before m) (xs ++ (m ∷ ys)) ≡ ys
    unfolding select_rows
    select_rows_after [] ys m (up, h) = rw (irrefl m) (select_rows_all (before m) ys up)
    select_rows_after (x ∷ xs) ys m (up, h) =
        let below : before x m ≡ true = (All-append_right _ xs (m ∷ ys) up).0 in
        elim (Bool-cases (before m x)) [
          | inl above ↦ absurd (ground (arith, irrefl x, trans x m x below above))
          | inr other ↦ rw other (select_rows_after xs ys m h)
        ]
