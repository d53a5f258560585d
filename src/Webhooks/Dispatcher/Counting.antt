-- ===== src/Webhooks/Dispatcher/Counting.antt =====
-- The elements of a list that pass a test, counted, and an element that is picked from a list.
use litemlflow.Prelude.{
  ℕ, zero, suc, ◌+◌, Bool, List, [], ◌∷◌, ◌++◌, Option, some, ◌≡◌, refl, if◌then◌else◌, length,
  arith, All, Option-cases, inl, inr,
}
use litemlflow.Webhooks.Dispatcher.{pick}

module _ {ℓ} {A : Type ℓ} where
  abbrev pub count : (A → Bool) → List A → ℕ
  count p [] = 0
  count p (x ∷ xs) = (if p x then 1 else 0) + count p xs

  pub count-append_one :
      (p : A → Bool) (xs : List A) (x : A)
      → count p (xs ++ (x ∷ [])) ≡ count p xs + (if p x then 1 else 0)
  count-append_one p [] x = omega arith
  count-append_one p (y ∷ xs) x = omega (arith, count-append_one p xs x)

  -- Picking one element leaves all the others.
  pub record Picked (P : A → Type ℓ) (xs : List A) (x : A) (rest : List A) : Type ℓ where
    pub counted : (p : A → Bool) → count p xs ≡ (if p x then 1 else 0) + count p rest
    pub shorter : length xs ≡ suc (length rest)
    pub holds : P x
    pub others : All P rest

module _ {ℓ} {A : Type ℓ} (P : A → Type ℓ) where
  chosen_here : (x : A) (xs : List A) → All P (x ∷ xs) → Picked P (x ∷ xs) x xs
  chosen_here x xs h = record { counted = λ p. refl; shorter = refl; holds = h.0; others = h.1 }

  chosen_later :
      (y x : A) (xs rest : List A) → P y → Picked P xs x rest → Picked P (y ∷ xs) x (y ∷ rest)
  chosen_later y x xs rest py k = record {
    counted = λ p. omega (arith, k.counted p);
    shorter = omega (arith, k.shorter);
    holds = k.holds;
    others = (py, k.others);
  }

  -- The equation says what `pick` found.
  chosen_again :
      (xs rest rest' : List A) (x x' : A)
      → Picked P xs x' rest'
      → ◌≡◌ {A = Option (A × List A)} (some (x', rest')) (some (x, rest))
      → Picked P xs x rest
  chosen_again xs rest rest' x x' k e =
      let same : x' ≡ x = cc in let left : rest' ≡ rest = cc in rw (← same, ← left) k

  pub pick-Picked :
      (n : ℕ) (xs : List A) (x : A) (rest : List A)
      → All P xs
      → pick n xs ≡ some (x, rest)
      → Picked P xs x rest
  unfolding pick
  pick-Picked n [] x rest h e = cc
  pick-Picked zero (y ∷ xs) x rest h e = chosen_again (y ∷ xs) rest xs x y (chosen_here y xs h) e
  pick-Picked (suc n) (y ∷ xs) x rest h e = elim (Option-cases (pick n xs)) [
    | inl nothing ↦ ground arith
    | inr ((x', rest'), found) ↦
        chosen_again (y ∷ xs) rest (y ∷ rest') x x'
          (chosen_later y x' xs rest' h.0 (pick-Picked n xs x' rest' h.1 found)) (ground arith)
  ]
