-- ===== src/Store/Search/Values/Quoted.antt =====
-- Quoted values of an IN list are read back.
use mathlib.Core.List.{reverse, reverse-append, reverse-reverse, append_assoc, append-nil}
use litemlflow.Prelude.{
  ℕ, false, ◌≡◌, refl, sym, ap, ◌∙◌, inl, inr, Bool-cases, List, [], ◌∷◌, ◌++◌, ◌==◌, if◌then◌else◌,
  ok, Text, text_eq, arith,
}
use litemlflow.Model.Names.{trim_space, trim_left}
use litemlflow.Store.Search.Values.{
  inside, after, on_values, remaining, values_from, parse_in_values,
}

-- A value with its quotes doubled, as SQL has it.
abbrev pub doubled_quotes : Text → Text
doubled_quotes [] = []
doubled_quotes (c ∷ v) = if c == 39 then 39 ∷ 39 ∷ doubled_quotes v else c ∷ doubled_quotes v

-- Further values, each after a comma.
abbrev pub more_quoted : List Text → Text
more_quoted [] = []
more_quoted (v ∷ vs) = 44 ∷ 39 ∷ (doubled_quotes v ++ (39 ∷ more_quoted vs))

-- The values, each in quotes, with commas between them.
abbrev pub quoted_list : List Text → Text
quoted_list [] = []
quoted_list (v ∷ vs) = 39 ∷ (doubled_quotes v ++ (39 ∷ more_quoted vs))

-- A text that does not go on with a quote.
abbrev Parted : Text → Type 0
Parted [] = Unit
Parted (c ∷ s) = c == 39 ≡ false

goes_on : (v rest : Text) → (d : ℕ) × (s : Text) × (doubled_quotes v ++ (39 ∷ rest) ≡ d ∷ s)
goes_on [] rest = (39, rest, refl)
goes_on (c ∷ v) rest = elim (Bool-cases (c == 39)) [
  | inl quote ↦ rw quote (39, _, refl)
  | inr other ↦ rw other (c, _, refl)
]

plain_step :
    (cur : Text) (c d : ℕ) (s : Text)
    → c == 39 ≡ false
    → values_from inside cur (c ∷ d ∷ s) ≡ values_from inside (cur ++ (c ∷ [])) (d ∷ s)
unfolding values_from
plain_step cur c d s other = rw other refl

double_step :
    (cur s : Text) → values_from inside cur (39 ∷ 39 ∷ s) ≡ values_from inside (cur ++ (39 ∷ [])) s
unfolding values_from
double_step cur s = refl

values_from-plain :
    (cur : Text) (c : ℕ) (t : Text)
    → c == 39 ≡ false
    → ((d : ℕ) × (s : Text) × (t ≡ d ∷ s))
    → values_from inside cur (c ∷ t) ≡ values_from inside (cur ++ (c ∷ [])) t
values_from-plain cur c t other (d, s, is) = rw is (plain_step cur c d s other)

values_from-inside :
    (cur v rest : Text)
    → Parted rest
    → values_from inside cur (doubled_quotes v ++ (39 ∷ rest))
      ≡ on_values (cur ++ v) (values_from after [] rest)
values_from-inside cur [] [] h = rw append-nil (unfold values_from in refl)
values_from-inside cur [] (d ∷ rest) h = rw append-nil (unfold values_from in (rw h refl))
values_from-inside cur (c ∷ v) rest h = elim (Bool-cases (c == 39)) [
  | inl quote ↦ rw quote (
      double_step cur (doubled_quotes v ++ (39 ∷ rest))
      ∙ values_from-inside (cur ++ (39 ∷ [])) v rest h
      ∙ ap (λ t. on_values t (values_from after [] rest)) (append_assoc cur (39 ∷ []) v)
      ∙ ap (λ (x : ℕ). on_values (cur ++ (x ∷ v)) (values_from after [] rest)) (ground arith))
  | inr other ↦ rw other (
      values_from-plain cur c (doubled_quotes v ++ (39 ∷ rest)) other (goes_on v rest)
      ∙ values_from-inside (cur ++ (c ∷ [])) v rest h
      ∙ ap (λ t. on_values t (values_from after [] rest)) (append_assoc cur (c ∷ []) v))
]

open_step : (s : Text) → values_from after [] (44 ∷ 39 ∷ s) ≡ values_from inside [] s
unfolding values_from
open_step s = refl

end_step : values_from after [] [] ≡ ok []
unfolding values_from remaining trim_space trim_left text_eq
end_step = refl

more_quoted-Parted : (vs : List Text) → Parted (more_quoted vs)
more_quoted-Parted [] = tt
more_quoted-Parted (v ∷ vs) = refl

values_from-more_quoted :
    (v : Text) (vs : List Text)
    → values_from inside [] (doubled_quotes v ++ (39 ∷ more_quoted vs)) ≡ ok (v ∷ vs)
values_from-more_quoted v [] = values_from-inside [] v [] tt ∙ ap (on_values v) end_step
values_from-more_quoted v (w ∷ vs) =
    values_from-inside [] v (more_quoted (w ∷ vs)) refl
    ∙ ap (on_values v)
        (open_step (doubled_quotes w ++ (39 ∷ more_quoted vs)) ∙ values_from-more_quoted w vs)

-- A list of values ends with a quote.
last_quote :
    (v : Text) (vs : List Text)
    → (m : Text) × (doubled_quotes v ++ (39 ∷ more_quoted vs) ≡ m ++ (39 ∷ []))
last_quote v [] = (doubled_quotes v, refl)
last_quote v (w ∷ vs) =
    let (m, is) = last_quote w vs in
    (
      doubled_quotes v ++ (39 ∷ 44 ∷ 39 ∷ m),
      rw is (sym (append_assoc (doubled_quotes v) (39 ∷ 44 ∷ 39 ∷ m) (39 ∷ []))),
    )

trim_space-quotes : (m : Text) → trim_space (39 ∷ (m ++ (39 ∷ []))) ≡ 39 ∷ (m ++ (39 ∷ []))
unfolding trim_space trim_left
trim_space-quotes m =
    rw (reverse-append (39 ∷ m) (39 ∷ [])) (
      sym (ap reverse (reverse-append (39 ∷ m) (39 ∷ [])))
      ∙ reverse-reverse (39 ∷ (m ++ (39 ∷ []))))

start_step :
    (t : Text) → trim_space (39 ∷ t) ≡ 39 ∷ t → parse_in_values (39 ∷ t) ≡ values_from inside [] t
unfolding parse_in_values values_from text_eq
start_step t h = rw h refl

-- A list of values of any bytes, each written in quotes with its own quotes doubled and with commas between, is read back from the IN of a filter as the same values.
pub parse_in_values-quoted_list : (vs : List Text) → parse_in_values (quoted_list vs) ≡ ok vs
unfolding parse_in_values
parse_in_values-quoted_list [] = unfold trim_space trim_left text_eq in refl
parse_in_values-quoted_list (v ∷ vs) =
    let (m, is) = last_quote v vs in
    start_step (doubled_quotes v ++ (39 ∷ more_quoted vs)) (rw is (trim_space-quotes m))
    ∙ values_from-more_quoted v vs
