-- ===== src/Store/Search/Texts.antt =====
-- Functions of the package `strings` on ASCII text, as the filters of internal/store/sqlite.go use
-- them.
use mathlib.Core.List.{reverse}
use litemlflow.Prelude.{
  ℕ, ◌-◌, Bool, ◌&&◌, ◌||◌, List, [], ◌∷◌, ◌++◌, map, Option, none, some, leb, ◌==◌, if◌then◌else◌,
  length, drop, Text, has_prefix, cut, cons_before, cons_first,
}
use litemlflow.Model.Names.{is_space}

-- `strings.ToUpper`, of one byte.
abbrev pub upper_letter : ℕ → ℕ
upper_letter c = if leb b'a' c && leb c b'z' then c - 32 else c

-- The text before the first place at which `word` stands, and the text after it. The places are
-- sought after each byte went through `fold`, as `strings.Index` of the upper-cased text does.
unfoldable pub cut_word : (ℕ → ℕ) → Text → Text → Option (Text × Text)
unfolding has_prefix
cut_word fold word [] = none
cut_word fold word (c ∷ s) =
    let later = cons_before c (cut_word fold word s) in
    if has_prefix (map fold (c ∷ s)) word then some ([], drop (length word) (c ∷ s)) else later

-- The text before the last place of a byte, by `strings.LastIndex`.
unfoldable pub before_last : ℕ → Text → Option Text
unfolding cut
before_last c s = elim (cut c (reverse s)) [
  | none ↦ none
  | some (_, before) ↦ some (reverse before)
]

-- `strings.Join`
unfoldable pub join_text : Text → List Text → Text
join_text sep [] = []
join_text sep (part ∷ []) = part
join_text sep (part ∷ next ∷ parts) = part ++ (sep ++ join_text sep (next ∷ parts))

-- The parts at each run of spaces, the first one perhaps empty.
unfoldable pub words_from : Text → List Text
words_from [] = [] ∷ []
words_from (c ∷ s) =
    let words = words_from s in if is_space c then [] ∷ words else cons_first c words

unfoldable pub without_empty : List Text → List Text
without_empty [] = []
without_empty ([] ∷ words) = without_empty words
without_empty ((c ∷ word) ∷ words) = (c ∷ word) ∷ without_empty words

-- `strings.Fields`
unfoldable pub fields : Text → List Text
unfolding words_from without_empty
fields s = without_empty (words_from s)

abbrev pub is_quote_mark : ℕ → Bool
is_quote_mark c = c == 39 || c == 34
