-- ===== src/Prelude/Table.antt =====
-- A SQL table as the list of its rows, in the order of insertion, and the statements that the
-- store issues: SELECT of the first match, UPDATE, DELETE and COUNT with a WHERE test.
use mathlib.Core.Path.{◌≡◌, refl}
use mathlib.Core.Bool.{Bool, true, false, not, ◌||◌}
use mathlib.Core.Option
use mathlib.Core.Option.{Option, none, some}
use mathlib.Core.List.{List, [], ◌∷◌, ◌++◌}
use native.Mathlib.Omega.{arith}
use litemlflow.Prelude.Tests.{if◌then◌else◌}

module _ {ℓ} {A : Type ℓ} where
  -- SELECT … WHERE p LIMIT 1
  unfoldable pub find_row : (A → Bool) → List A → Option A
  find_row p [] = none
  find_row p (x ∷ xs) = if p x then some x else find_row p xs

  -- EXISTS (SELECT 1 … WHERE p)
  unfoldable pub any_row : (A → Bool) → List A → Bool
  any_row p [] = false
  any_row p (x ∷ xs) = p x || any_row p xs

  -- SELECT … WHERE p
  unfoldable pub select_rows : (A → Bool) → List A → List A
  select_rows p [] = []
  select_rows p (x ∷ xs) = let rest = select_rows p xs in if p x then x ∷ rest else rest

  -- UPDATE … SET f WHERE p
  unfoldable pub update_rows : (A → Bool) → (A → A) → List A → List A
  update_rows p f [] = []
  update_rows p f (x ∷ xs) = (if p x then f x else x) ∷ update_rows p f xs

  -- DELETE … WHERE p
  unfoldable pub delete_rows : (A → Bool) → List A → List A
  unfolding select_rows
  delete_rows p = select_rows (λ x. not (p x))

  pub any_row-find_row :
      (p : A → Bool) (xs : List A)
      → any_row p xs ≡ elim (find_row p xs) [ some _ ↦ true | none ↦ false ]
  unfolding any_row find_row
  any_row-find_row p [] = refl
  any_row-find_row p (x ∷ xs) = ground (arith, any_row-find_row p xs)

  pub find_row-append :
      (p : A → Bool) (xs ys : List A)
      → find_row p (xs ++ ys) ≡ elim (find_row p xs) [ some x ↦ some x | none ↦ find_row p ys ]
  unfolding find_row
  find_row-append p [] ys = refl
  find_row-append p (x ∷ xs) ys = ground (arith, find_row-append p xs ys)

  -- An update that does not touch what `q` reads is seen through `q`.
  pub find_row-update_rows :
      (q p : A → Bool) (f : A → A) (xs : List A)
      → ((x : A) → q (f x) ≡ q x)
      → find_row q (update_rows p f xs) ≡ Option.map (λ x. if p x then f x else x) (find_row q xs)
  unfolding find_row update_rows
  find_row-update_rows q p f [] h = refl
  find_row-update_rows q p f (x ∷ xs) h = ground (arith, h x, find_row-update_rows q p f xs h)

  -- An update of rows that `q` does not accept is not seen through `q`.
  pub find_row-update_rows_ne :
      (q p : A → Bool) (f : A → A) (xs : List A)
      → ((x : A) → q (f x) ≡ q x)
      → ((x : A) → q x ≡ true → p x ≡ false)
      → find_row q (update_rows p f xs) ≡ find_row q xs
  unfolding find_row update_rows
  find_row-update_rows_ne q p f [] h apart = refl
  find_row-update_rows_ne q p f (x ∷ xs) h apart =
      ground (arith, h x, apart x, find_row-update_rows_ne q p f xs h apart)

  pub select_rows-append :
      (p : A → Bool) (xs ys : List A)
      → select_rows p (xs ++ ys) ≡ select_rows p xs ++ select_rows p ys
  unfolding select_rows
  select_rows-append p [] ys = refl
  select_rows-append p (x ∷ xs) ys = ground (arith, select_rows-append p xs ys)

  -- A row that a SELECT finds passes its test.
  pub find_row_holds : (p : A → Bool) (xs : List A) (x : A) → find_row p xs ≡ some x → p x ≡ true
  unfolding find_row
  find_row_holds p [] x h = cc
  find_row_holds p (y ∷ xs) x h = ground (arith, find_row_holds p xs x)

  -- A deletion of rows that `q` does not accept is not seen through `q`.
  pub find_row-delete_rows_ne :
      (q p : A → Bool) (xs : List A)
      → ((x : A) → q x ≡ true → p x ≡ false)
      → find_row q (delete_rows p xs) ≡ find_row q xs
  unfolding find_row delete_rows select_rows
  find_row-delete_rows_ne q p [] h = refl
  find_row-delete_rows_ne q p (x ∷ xs) h = ground (arith, h x, find_row-delete_rows_ne q p xs h)

  pub find_row-delete_rows_self :
      (q p : A → Bool) (xs : List A)
      → ((x : A) → q x ≡ true → p x ≡ true)
      → find_row q (delete_rows p xs) ≡ none
  unfolding find_row delete_rows select_rows
  find_row-delete_rows_self q p [] h = refl
  find_row-delete_rows_self q p (x ∷ xs) h = ground (arith, h x, find_row-delete_rows_self q p xs h)
