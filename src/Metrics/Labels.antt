-- ===== src/Metrics/Labels.antt =====
-- internal/metrics/registry.go: the keys of label sets, and their printing.
use litemlflow.Prelude.{
  ℕ, Bool, true, false, ◌||◌, List, [], ◌∷◌, ◌++◌, none, some, ◌==◌, if◌then◌else◌, Text, codes,
  text_eq, split_on, cut,
}

abbrev pub is_empty_list : List Text → Bool
is_empty_list [] = true
is_empty_list (_ ∷ _) = false

-- The value of a label; the values that are missing are empty.
abbrev pub first_value : List Text → Text
first_value [] = []
first_value (v ∷ _) = v

abbrev pub other_values : List Text → List Text
other_values [] = []
other_values (_ ∷ values) = values

-- `labelSetKey`: the labels with their values, and a zero byte between them.
unfoldable pub label_set_key : List Text → List Text → Text
label_set_key [] values = []
label_set_key (k ∷ []) values = k ++ (b'=' ∷ first_value values)
label_set_key (k ∷ next ∷ keys) values =
    k ++ (b'=' ∷ (first_value values ++ (0 ∷ label_set_key (next ∷ keys) (other_values values))))

-- The replacement of one byte by two, as `strings.ReplaceAll` makes it.
unfoldable pub replace_byte : ℕ → ℕ → ℕ → Text → Text
replace_byte from first second [] = []
replace_byte from first second (c ∷ s) =
    let rest = replace_byte from first second s in
    if c == from then first ∷ second ∷ rest else c ∷ rest

-- `escapeLabelValue`: the backslash (92), the double quote (34) and the newline (10).
unfoldable pub escape_label_value : Text → Text
unfolding replace_byte
escape_label_value s = replace_byte 10 92 b'n' (replace_byte 34 92 34 (replace_byte 92 92 92 s))

-- One part of a key, printed.
unfoldable pub format_part : Text → Text
unfolding cut escape_label_value
format_part part = elim (cut b'=' part) [
  | none ↦ part
  | some (key, value) ↦ key ++ (b'=' ∷ 34 ∷ (escape_label_value value ++ (34 ∷ [])))
]

unfoldable pub format_parts : List Text → Text
unfolding format_part
format_parts [] = []
format_parts (part ∷ []) = format_part part
format_parts (part ∷ next ∷ parts) = format_part part ++ (b',' ∷ format_parts (next ∷ parts))

-- The labels without the braces.
unfoldable pub inner_labels : Text → Text
unfolding split_on format_parts
inner_labels set_key = format_parts (split_on 0 set_key)

-- `formatLabels`
unfoldable pub format_labels : List Text → Text → Text
unfolding inner_labels text_eq
format_labels keys set_key =
    if is_empty_list keys || text_eq set_key []
    then []
    else 123 ∷ (inner_labels set_key ++ (125 ∷ []))

-- `formatBucketLabels`: the last byte of the labels is their closing brace.
unfoldable pub format_bucket_labels : List Text → Text → Text → Text
unfolding inner_labels text_eq
format_bucket_labels keys set_key le =
    let bound = codes "le=" ++ (34 ∷ (le ++ (34 ∷ 125 ∷ []))) in
    if is_empty_list keys || text_eq set_key []
    then 123 ∷ bound
    else 123 ∷ (inner_labels set_key ++ (b',' ∷ bound))
