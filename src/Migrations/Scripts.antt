-- ===== src/Migrations/Scripts.antt =====
-- The texts of internal/migrations/embed.go: the two sections of a script, the tables that a DOWN
-- section drops, and the quoting of an identifier.
use litemlflow.Prelude.{
  ℕ, ◌-◌, Bool, true, false, not, ◌&&◌, ◌||◌, List, [], ◌∷◌, ◌++◌, Option, none, some, leb, ◌==◌,
  if◌then◌else◌, Text, codes, text_eq, has_prefix, drop_prefix, split_on, join_with, trim_prefix,
  take_until, trim_both,
}
use litemlflow.Model.Names.{trim_space}

-- `append(upLines, l)` and `append(downLines, l)`, by the mode.
abbrev pub add_line : Bool → Text → List Text × List Text → List Text × List Text
add_line false line (up, down) = (line ∷ up, down)
add_line true line (up, down) = (up, line ∷ down)

abbrev pub up_marker : Text
up_marker = codes "-- UP"

abbrev pub down_marker : Text
down_marker = codes "-- DOWN"

-- The loop over the lines; the mode is whether they belong to the DOWN section.
unfoldable pub split_lines : Bool → List Text → List Text × List Text
unfolding trim_space text_eq
split_lines down [] = ([], [])
split_lines down (line ∷ lines) =
    let trimmed = trim_space line in
    let is_up = text_eq trimmed up_marker in
    let is_down = text_eq trimmed down_marker in
    let rest = split_lines (if is_up then false else if is_down then true else down) lines in
    if is_up || is_down then rest else add_line down line rest

-- `splitUpDown`
unfoldable pub split_up_down : Text → Text × Text
unfolding split_lines split_on join_with trim_space
split_up_down body =
    let (up, down) = split_lines false (split_on 10 body) in
    (trim_space (join_with 10 up), trim_space (join_with 10 down))

-- `strings.ToUpper` on the letters of ASCII.
abbrev pub upper : ℕ → ℕ
upper c = if leb b'a' c && leb c b'z' then c - 32 else c

unfoldable pub to_upper : Text → Text
to_upper [] = []
to_upper (c ∷ s) = upper c ∷ to_upper s

-- The bytes of " \t\n(".
abbrev pub ends_name : ℕ → Bool
ends_name c = c == 32 || c == 9 || c == 10 || c == b'('

-- The quotes that are trimmed from a name: the double one, the backquote and the single one.
abbrev pub is_quote : ℕ → Bool
is_quote c = c == 34 || c == 96 || c == 39

-- What follows DROP TABLE [IF EXISTS] in a statement.
unfoldable pub table_name : Text → Text
unfolding trim_space trim_prefix take_until trim_both has_prefix drop_prefix
table_name s =
    let named =
      trim_prefix (trim_prefix (trim_space s) (codes "IF EXISTS ")) (codes "if exists ") in
    trim_both is_quote (take_until ends_name (trim_space named))

-- The loop body of `extractDroppedTables`: the table that a statement drops.
unfoldable pub dropped_table : Text → Option Text
unfolding trim_space to_upper has_prefix drop_prefix table_name text_eq
dropped_table statement =
    let s = trim_space statement in
    let name = table_name (drop_prefix s (codes "DROP TABLE")) in
    if not (has_prefix (to_upper s) (codes "DROP TABLE"))
    then none
    else if text_eq name []
    then none
    else some name

abbrev pub add_some : Option Text → List Text → List Text
add_some none names = names
add_some (some name) names = name ∷ names

unfoldable pub dropped_tables : List Text → List Text
dropped_tables [] = []
dropped_tables (statement ∷ statements) =
    add_some (dropped_table statement) (dropped_tables statements)

-- `extractDroppedTables`
unfoldable pub extract_dropped_tables : Text → List Text
unfolding dropped_table dropped_tables split_on
extract_dropped_tables down_sql = dropped_tables (split_on b';' down_sql)

-- `strings.ReplaceAll(name, "\"", "\"\"")`
unfoldable pub double_quotes : Text → Text
double_quotes [] = []
double_quotes (c ∷ s) = let rest = double_quotes s in if c == 34 then 34 ∷ 34 ∷ rest else c ∷ rest

-- `quoteIdent`
unfoldable pub quote_ident : Text → Text
unfolding double_quotes
quote_ident name = 34 ∷ (double_quotes name ++ (34 ∷ []))
