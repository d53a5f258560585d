-- ===== src/Model/Names.antt =====
-- `ValidName` and `ValidKey` of internal/model/types.go, over the code points of the text.
use Prim.Native.String.{len}
use mathlib.Core.List.{reverse}
use litemlflow.Prelude.{
  ℕ, String, Bool, false, ◌&&◌, ◌||◌, List, [], ◌∷◌, ltb, leb, ◌==◌, if◌then◌else◌, Result, ok, err,
  ◌>>◌, invalid_value, str_eq, codes, text_eq,
}

-- `unicode.IsControl`: the category Cc.
abbrev pub is_control : ℕ → Bool
is_control c = ltb c 0x20 || (leb 0x7f c && ltb c 0xa0)

-- `unicode.IsSpace`, which `strings.TrimSpace` uses.
abbrev pub is_space : ℕ → Bool
is_space c =
    (leb 0x09 c && leb c 0x0d)
    || c == 0x20
    || c == 0x85
    || c == 0xa0
    || c == 0x1680
    || (leb 0x2000 c && leb c 0x200a)
    || c == 0x2028
    || c == 0x2029
    || c == 0x202f
    || c == 0x205f
    || c == 0x3000

-- The loop over the runes of a name.
unfoldable pub has_control : List ℕ → Bool
has_control [] = false
has_control (c ∷ s) = is_control c || has_control s

-- `ValidName`: `max_len` zero is no bound; the length counts bytes.
unfoldable pub valid_name : String → ℕ → Result (Unit {0})
unfolding has_control
valid_name s max_len =
    if str_eq s ""
    then err invalid_value
    else if ltb 0 max_len && ltb max_len (len s)
    then err invalid_value
    else if has_control (codes s)
    then err invalid_value
    else ok tt

-- `strings.TrimSpace`
unfoldable pub trim_left : List ℕ → List ℕ
trim_left [] = []
trim_left (c ∷ s) = let rest = trim_left s in if is_space c then rest else c ∷ s

unfoldable pub trim_space : List ℕ → List ℕ
unfolding trim_left
trim_space s = reverse (trim_left (reverse (trim_left s)))

-- `ValidKey`
unfoldable pub valid_key : String → Result (Unit {0})
unfolding valid_name trim_space text_eq
valid_key s = do
  valid_name s 250
  if text_eq (trim_space (codes s)) (codes s) then ok tt else err invalid_value
