-- ===== src/Prelude/Split.antt =====
-- Functions of the package `strings` that cut a text into parts: Split and Join at one byte,
-- SplitN with two parts, TrimPrefix, HasSuffix, TrimSuffix, Trim and IndexAny.
use mathlib.Core.Path.{◌≡◌, refl, ap, ◌∙◌}
use mathlib.Core.Logic.{inl, inr}
use mathlib.Core.Bool.{Bool}
use native.Mathlib.Omega.{arith}
use mathlib.Core.Option.{Option, none, some}
use mathlib.Core.List.{List, [], ◌∷◌, ◌++◌, reverse}
use Prim.Native.Nat.{ℕ}
use litemlflow.Prelude.Tests.{◌==◌, if◌then◌else◌, Bool-cases}
use litemlflow.Prelude.Strings.{Text, has_prefix, drop_prefix}

abbrev pub cons_first : ℕ → List Text → List Text
cons_first c [] = (c ∷ []) ∷ []
cons_first c (part ∷ parts) = (c ∷ part) ∷ parts

-- `strings.Split(s, sep)` for a separator of one byte.
unfoldable pub split_on : ℕ → Text → List Text
split_on sep [] = [] ∷ []
split_on sep (c ∷ s) =
    let parts = split_on sep s in if c == sep then [] ∷ parts else cons_first c parts

-- `strings.Join(parts, sep)` for a separator of one byte.
unfoldable pub join_with : ℕ → List Text → Text
join_with sep [] = []
join_with sep (part ∷ []) = part
join_with sep (part ∷ next ∷ parts) = part ++ (sep ∷ join_with sep (next ∷ parts))

abbrev pub cons_before : ℕ → Option (Text × Text) → Option (Text × Text)
cons_before c none = none
cons_before c (some (before, after)) = some (c ∷ before, after)

-- `strings.SplitN(s, sep, 2)`: the text before and after the first separator, if there is one.
unfoldable pub cut : ℕ → Text → Option (Text × Text)
cut sep [] = none
cut sep (c ∷ s) = let rest = cut sep s in if c == sep then some ([], s) else cons_before c rest

-- `strings.TrimPrefix(s, p)`
unfoldable pub trim_prefix : Text → Text → Text
unfolding has_prefix drop_prefix
trim_prefix s p = if has_prefix s p then drop_prefix s p else s

-- `strings.HasSuffix(s, p)`
unfoldable pub has_suffix : Text → Text → Bool
unfolding has_prefix
has_suffix s p = has_prefix (reverse s) (reverse p)

-- `strings.TrimSuffix(s, p)`
unfoldable pub trim_suffix : Text → Text → Text
unfolding has_suffix has_prefix drop_prefix
trim_suffix s p = if has_suffix s p then reverse (drop_prefix (reverse s) (reverse p)) else s

-- `s[:i]` for the first `i` at which the test holds, and `s` where there is none.
unfoldable pub take_until : (ℕ → Bool) → Text → Text
take_until stop [] = []
take_until stop (c ∷ s) = let rest = take_until stop s in if stop c then [] else c ∷ rest

-- `strings.TrimLeft`, by a test on bytes.
unfoldable pub trim_start : (ℕ → Bool) → Text → Text
trim_start in_set [] = []
trim_start in_set (c ∷ s) = let rest = trim_start in_set s in if in_set c then rest else c ∷ s

-- `strings.Trim`, by a test on bytes.
unfoldable pub trim_both : (ℕ → Bool) → Text → Text
unfolding trim_start
trim_both in_set s = reverse (trim_start in_set (reverse (trim_start in_set s)))

pub split_some : (sep : ℕ) (s : Text) → (p : Text) × (ps : List Text) × (split_on sep s ≡ p ∷ ps)
unfolding split_on
split_some sep [] = ([], [], refl)
split_some sep (c ∷ s) =
    let (p, ps, is) = split_some sep s in
    elim (Bool-cases (c == sep)) [
      | inl here ↦ rw here ([], _, refl)
      | inr later ↦ rw later (rw is (c ∷ p, ps, refl))
    ]

pub split_on-append :
    (sep : ℕ) (s t : Text) → split_on sep (s ++ (sep ∷ t)) ≡ split_on sep s ++ split_on sep t
unfolding split_on
split_on-append sep [] t = ground arith
split_on-append sep (c ∷ s) t =
    let (p, ps, is) = split_some sep s in
    elim (Bool-cases (c == sep)) [
      | inl here ↦ rw here (ap (λ l. [] ∷ l) (split_on-append sep s t))
      | inr later ↦ rw later (ap (cons_first c) (split_on-append sep s t) ∙ rw is refl)
    ]
