-- ===== src/Migrations/Quoting.antt =====
-- The quoting of an identifier, read back as SQL reads it.
use mathlib.Core.List.{append_assoc}
use litemlflow.Prelude.{
  Bool, true, false, [], ◌∷◌, ◌++◌, Option, none, some, ◌≡◌, refl, arith, ◌==◌, if◌then◌else◌, Text,
  cons_before, Bool-cases, inl, inr, ap, ◌∙◌,
}
use litemlflow.Migrations.Scripts.{double_quotes, quote_ident}

abbrev starts_quoted : Text → Bool
starts_quoted [] = false
starts_quoted (c ∷ _) = c == 34

-- The rest of an identifier after its opening quote, and what follows the closing one: SQL reads
-- two quotes in a row as one of the name. The flag is whether the last byte was a quote that waits
-- for its second.
read_quoted : Bool → Text → Option (Text × Text)
read_quoted false [] = none
read_quoted true [] = some ([], [])
read_quoted false (c ∷ s) =
    let rest = read_quoted (c == 34) s in if c == 34 then rest else cons_before c rest
read_quoted true (c ∷ s) =
    let doubled = cons_before 34 (read_quoted false s) in
    if c == 34 then doubled else some ([], c ∷ s)

-- An identifier between double quotes at the start of a text.
pub read_ident : Text → Option (Text × Text)
unfolding read_quoted
read_ident [] = none
read_ident (c ∷ s) = if c == 34 then read_quoted false s else none

read_quoted-double_quotes :
    (name rest : Text)
    → starts_quoted rest ≡ false
    → read_quoted false (double_quotes name ++ (34 ∷ rest)) ≡ some (name, rest)
unfolding read_quoted double_quotes
read_quoted-double_quotes [] [] h = refl
read_quoted-double_quotes [] (c ∷ rest) h = ground arith
read_quoted-double_quotes (c ∷ name) rest h = elim (Bool-cases (c == 34)) [
  | inl quote ↦
      let e : c ≡ 34 = ground arith in
      rw e (ap (cons_before 34) (read_quoted-double_quotes name rest h))
  | inr plain ↦ rw (plain, plain) (ap (cons_before c) (read_quoted-double_quotes name rest h))
]

-- A quoted identifier is read back as the same name, whatever bytes it has, and ends where it was
-- put; what follows does not begin with a quote.
pub read_ident-quote_ident :
    (name rest : Text)
    → starts_quoted rest ≡ false
    → read_ident (quote_ident name ++ rest) ≡ some (name, rest)
unfolding read_ident quote_ident
read_ident-quote_ident name rest h =
    ap (read_quoted false) (append_assoc (double_quotes name) (34 ∷ []) rest)
    ∙ read_quoted-double_quotes name rest h
