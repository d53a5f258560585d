-- ===== src/Store/Search/Values.antt =====
-- internal/store/sqlite.go: the values of an IN list. A quote has the code 39.
pub mod Quoted
use litemlflow.Prelude.{
  ℕ, Bool, true, false, ◌&&◌, ◌||◌, List, [], ◌∷◌, ◌++◌, ◌==◌, if◌then◌else◌, Result, ok, err,
  invalid_filter, ◌>>=◌, Text, text_eq,
}
use litemlflow.Model.Names.{trim_space}

-- Where the loop stands: outside of quotes, inside, or after a closing quote, where commas and
-- spaces are skipped.
pub data Place : Type 0 where
  outside inside after : Place

abbrev pub on_values : Text → Result (List Text) → Result (List Text)
on_values v rest = rest >>= λ vs. ok (v ∷ vs)

-- What is left when the text ends outside of quotes.
unfoldable pub remaining : Text → Result (List Text)
unfolding trim_space text_eq
remaining cur = if text_eq (trim_space cur) [] then ok [] else ok (trim_space cur ∷ [])

-- The byte under the loop, `c`, with what follows it.
unfoldable pub values_from : Place → Text → Text → Result (List Text)
unfolding remaining trim_space
values_from inside cur [] = err invalid_filter
values_from inside cur (c ∷ []) =
    if c == 39 then on_values cur (remaining []) else err invalid_filter
values_from inside cur (c ∷ d ∷ s) =
    let doubled = values_from inside (cur ++ (39 ∷ [])) s in
    let closed = on_values cur (values_from after [] (d ∷ s)) in
    let more = values_from inside (cur ++ (c ∷ [])) (d ∷ s) in
    if c == 39 then if d == 39 then doubled else closed else more
values_from after cur [] = remaining cur
values_from after cur (c ∷ s) =
    let skipped = values_from after cur s in
    let quoted = values_from inside cur s in
    let more = values_from outside (cur ++ (c ∷ [])) s in
    if c == b',' || c == b' ' then skipped else if c == 39 then quoted else more
values_from outside cur [] = remaining cur
values_from outside cur (c ∷ s) =
    let quoted = values_from inside cur s in
    let ended = on_values (trim_space cur) (values_from outside [] s) in
    let skipped = values_from outside cur s in
    let more = values_from outside (cur ++ (c ∷ [])) s in
    if c == 39 then quoted else if c == b',' then ended else if c == b' ' then skipped else more

-- `parseINValues`
unfoldable pub parse_in_values : Text → Result (List Text)
unfolding trim_space text_eq values_from
parse_in_values s =
    if text_eq (trim_space s) [] then ok [] else values_from outside [] (trim_space s)
