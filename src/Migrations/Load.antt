-- ===== src/Migrations/Load.antt =====
-- internal/migrations/embed.go: `Load`, which reads the embedded directory and checks the order of
-- its scripts.

use litemlflow.Prelude.{
  ℕ, suc, ◌^◌, Bool, true, not, ◌&&◌, ◌||◌, List, [], ◌∷◌, none, some, leb, ◌==◌, if◌then◌else◌,
  Text, codes, text_eq, Result, ok, err, ◌>>=◌, ◌>>◌, guard, other_error, cut, all_digits,
  digits_value, trim_suffix, has_suffix,
}
use litemlflow.Migrations.Scripts.{split_up_down}

pub record Migration : Type 0 where
  pub version : ℕ
  pub name : Text
  pub up : Text
  pub down : Text

-- An entry of the embedded directory.
pub record Entry : Type 0 where
  pub is_dir : Bool
  pub name : Text
  pub body : Text

abbrev pub failed {ℓ} : {A : Type ℓ} → Result A
failed = err other_error

abbrev pub unsigned : Text → Text
unsigned [] = []
unsigned (c ∷ s) = if c == b'+' then s else c ∷ s

-- `strconv.Atoi`. A number with a minus sign is refused here, and one below 1 by the check of the
-- order: the caller gives up in both cases.
unfoldable pub atoi : Text → Result ℕ
unfolding all_digits digits_value text_eq
atoi s =
    let digits = unsigned s in
    let n = digits_value 0 digits in
    if text_eq digits [] || not (all_digits digits) || leb (2 ^ 63) n then failed else ok n

-- The body of the loop over the entries: NNN_description.sql.
unfoldable pub parse_entry : Entry → Result Migration
unfolding cut atoi split_up_down trim_suffix
parse_entry e = elim (cut b'_' e.name) [
  | none ↦ failed
  | some (number, rest) ↦ atoi number >>= λ version.
      let (up, down) = split_up_down e.body in
      ok
        (record { version = version; name = trim_suffix rest (codes ".sql"); up = up; down = down })
]

unfoldable pub parse_entries : List Entry → Result (List Migration)
unfolding parse_entry has_suffix
parse_entries [] = ok []
parse_entries (e ∷ entries) =
    let rest = parse_entries entries in
    if e.is_dir || not (has_suffix e.name (codes ".sql"))
    then rest
    else (parse_entry e >>= λ m. rest >>= λ ms. ok (m ∷ ms))

unfoldable pub insert_migration : Migration → List Migration → List Migration
insert_migration m [] = m ∷ []
insert_migration m (x ∷ xs) =
    let later = insert_migration m xs in if leb m.version x.version then m ∷ x ∷ xs else x ∷ later

-- `sort.Slice` by version.
unfoldable pub sort_migrations : List Migration → List Migration
unfolding insert_migration
sort_migrations [] = []
sort_migrations (m ∷ ms) = insert_migration m (sort_migrations ms)

-- The versions count up from the number given.
unfoldable pub is_contiguous : ℕ → List Migration → Bool
is_contiguous n [] = true
is_contiguous n (m ∷ ms) = m.version == n && is_contiguous (suc n) ms

-- `Load`
unfoldable pub load : List Entry → Result (List Migration)
unfolding parse_entries sort_migrations is_contiguous
load entries = parse_entries entries >>= λ ms.
    let sorted = sort_migrations ms in guard (is_contiguous 1 sorted) other_error >> ok sorted
