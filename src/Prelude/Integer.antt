-- ===== src/Prelude/Integer.antt =====
-- Signed integers: their order, and strconv's reading and fmt's printing of an int64 in decimal.
use Prim.Native.Nat.{ℕ, zero, suc, ◌+◌, ◌-◌, ◌*◌, ◌/◌, ◌%◌, ◌^◌, ◌<◌, ◌≤◌}
use mathlib.Core.Path.{◌≡◌, refl, ap, ◌∙◌}
use mathlib.Core.Logic.{◌⊎◌, inl, inr}
use mathlib.Core.Bool.{Bool, true, false, not, ◌&&◌, ◌||◌}
use mathlib.Core.Option.{Option, none, some}
use mathlib.Core.List.{[], ◌∷◌, ◌++◌}
use native.Mathlib.Omega.{arith}
use litemlflow.Prelude.Tests.{ltb, leb, ◌==◌, if◌then◌else◌, Bool-cases}
use litemlflow.Prelude.Strings.{Text, text_eq}
use litemlflow.Prelude.Split.{cut, cons_before}

-- `negsuc n` is `- (n + 1)`.
pub data ℤ : Type 0 where
  pos : ℕ → ℤ
  negsuc : ℕ → ℤ

abbrev pub int_ltb : ℤ → ℤ → Bool
int_ltb (pos a) (pos b) = ltb a b
int_ltb (pos _) (negsuc _) = false
int_ltb (negsuc _) (pos _) = true
int_ltb (negsuc a) (negsuc b) = ltb b a

abbrev pub int_eq : ℤ → ℤ → Bool
int_eq (pos a) (pos b) = a == b
int_eq (pos _) (negsuc _) = false
int_eq (negsuc _) (pos _) = false
int_eq (negsuc a) (negsuc b) = a == b

pub int_eq→eq : (a b : ℤ) → int_eq a b ≡ true → a ≡ b
int_eq→eq (pos a) (pos b) h = ground arith
int_eq→eq (pos a) (negsuc b) h = cc
int_eq→eq (negsuc a) (pos b) h = cc
int_eq→eq (negsuc a) (negsuc b) h = ground arith

pub int_ltb_irrefl : (a : ℤ) → int_ltb a a ≡ false
int_ltb_irrefl (pos a) = ground arith
int_ltb_irrefl (negsuc a) = ground arith

pub int_ltb_trans : (a b c : ℤ) → int_ltb a b ≡ true → int_ltb b c ≡ true → int_ltb a c ≡ true
int_ltb_trans (pos a) (pos b) (pos c) h k = ground arith
int_ltb_trans (pos a) (pos b) (negsuc c) h k = cc
int_ltb_trans (pos a) (negsuc b) c h k = cc
int_ltb_trans (negsuc a) (pos b) (pos c) h k = refl
int_ltb_trans (negsuc a) (pos b) (negsuc c) h k = cc
int_ltb_trans (negsuc a) (negsuc b) (pos c) h k = refl
int_ltb_trans (negsuc a) (negsuc b) (negsuc c) h k = ground arith

-- Of two integers, one is below the other or they are equal.
pub int_ltb_total : (a b : ℤ) → (int_ltb a b ≡ true) ⊎ ((int_ltb b a ≡ true) ⊎ (int_eq a b ≡ true))
int_ltb_total (pos a) (pos b) = ground arith
int_ltb_total (pos a) (negsuc b) = inr (inl refl)
int_ltb_total (negsuc a) (pos b) = inl refl
int_ltb_total (negsuc a) (negsuc b) = ground arith

abbrev pub is_digit : ℕ → Bool
is_digit c = leb b'0' c && leb c b'9'

unfoldable pub all_digits : Text → Bool
all_digits [] = true
all_digits (c ∷ s) = is_digit c && all_digits s

unfoldable pub digits_value : ℕ → Text → ℕ
digits_value acc [] = acc
digits_value acc (c ∷ s) = digits_value (acc * 10 + (c - b'0')) s

-- The decimal digits of a number before those of `out`; the fuel bounds how many there are.
unfoldable pub digits : ℕ → ℕ → Text → Text
digits zero n out = out
digits (suc fuel) n out =
    let more = digits fuel (n / 10) ((b'0' + n % 10) ∷ out) in
    if ltb n 10 then (b'0' + n) ∷ out else more

-- The numbers that some digits can spell.
abbrev pub spellable : ℕ → ℕ
spellable zero = 1
spellable (suc fuel) = 10 * spellable fuel

digits_value-digits :
    (fuel n : ℕ) (out : Text)
    → n < spellable (suc fuel)
    → digits_value 0 (digits (suc fuel) n out) ≡ digits_value n out
unfolding digits digits_value
digits_value-digits zero n out h = ground arith
digits_value-digits (suc fuel) n out h = elim (Bool-cases (ltb n 10)) [
  | inl one ↦ rw one (ground arith)
  | inr more ↦ rw more (
      digits_value-digits fuel (n / 10) ((b'0' + n % 10) ∷ out) (omega arith)
      ∙ ap (λ m. digits_value m out) (omega arith))
]

all_digits-digits :
    (fuel n : ℕ) (out : Text)
    → n < spellable (suc fuel)
    → all_digits out ≡ true
    → all_digits (digits (suc fuel) n out) ≡ true
unfolding digits all_digits
all_digits-digits zero n out h k = ground arith
all_digits-digits (suc fuel) n out h k = elim (Bool-cases (ltb n 10)) [
  | inl one ↦ rw one (ground arith)
  | inr more ↦
      rw more (all_digits-digits fuel (n / 10) ((b'0' + n % 10) ∷ out) (omega arith) (ground arith))
]

digits-ne-nil : (fuel n : ℕ) (out : Text) → text_eq (digits (suc fuel) n out) [] ≡ false
unfolding digits text_eq
digits-ne-nil zero n out = ground arith
digits-ne-nil (suc fuel) n out = elim (Bool-cases (ltb n 10)) [
  | inl one ↦ rw one refl
  | inr more ↦ rw more (digits-ne-nil fuel (n / 10) ((b'0' + n % 10) ∷ out))
]

-- The digits of an int64.
abbrev pub max_digits : ℕ
max_digits = 19

-- `%d`
unfoldable pub format_int : ℤ → Text
unfolding digits
format_int (pos n) = digits max_digits n []
format_int (negsuc n) = b'-' ∷ digits max_digits (suc n) []

unfoldable pub magnitude : Text → Option ℕ
unfolding all_digits digits_value text_eq
magnitude s = if text_eq s [] || not (all_digits s) then none else some (digits_value 0 s)

abbrev pub as_positive : Option ℕ → Option ℤ
as_positive none = none
as_positive (some n) = if ltb n (2 ^ 63) then some (pos n) else none

abbrev pub negated : ℕ → ℤ
negated zero = pos 0
negated (suc n) = negsuc n

abbrev pub as_negative : Option ℕ → Option ℤ
as_negative none = none
as_negative (some n) = if leb n (2 ^ 63) then some (negated n) else none

-- `strconv.ParseInt(s, 10, 64)`
unfoldable pub parse_int : Text → Option ℤ
unfolding magnitude
parse_int [] = none
parse_int (c ∷ s) =
    if c == b'-'
    then as_negative (magnitude s)
    else if c == b'+'
    then as_positive (magnitude s)
    else as_positive (magnitude (c ∷ s))

abbrev pub IsInt64 : ℤ → Type 0
IsInt64 (pos n) = n < 2 ^ 63
IsInt64 (negsuc n) = n < 2 ^ 63

magnitude-digits : (n : ℕ) → n ≤ 2 ^ 63 → magnitude (digits max_digits n []) ≡ some n
unfolding magnitude
magnitude-digits n h =
    let fits : n < spellable 19 = omega arith in
    rw (digits-ne-nil 18 n [], all_digits-digits 18 n [] fits refl)
      (ap some (digits_value-digits 18 n [] fits))

parse_int_unsigned :
    (s : Text)
    → text_eq s [] ≡ false
    → all_digits s ≡ true
    → parse_int s ≡ as_positive (magnitude s)
unfolding parse_int text_eq all_digits
parse_int_unsigned [] h k = cc
parse_int_unsigned (c ∷ s) h k = ground arith

pub parse_int-format_int : (z : ℤ) → IsInt64 z → parse_int (format_int z) ≡ some z
unfolding format_int parse_int all_digits
parse_int-format_int (pos n) h =
    parse_int_unsigned (digits max_digits n []) (digits-ne-nil 18 n [])
      (all_digits-digits 18 n [] (omega arith) refl)
    ∙ ap as_positive (magnitude-digits n (omega arith))
    ∙ ground arith
parse_int-format_int (negsuc n) h =
    ap as_negative (magnitude-digits (suc n) (omega arith)) ∙ ground arith

all_digits-colon : (s t : Text) → all_digits s ≡ true → cut b':' (s ++ (b':' ∷ t)) ≡ some (s, t)
unfolding all_digits cut
all_digits-colon [] t h = refl
all_digits-colon (c ∷ s) t h = ground (arith, all_digits-colon s t)

-- A printed number ends at the colon after it.
pub cut-format_int :
    (z : ℤ) (t : Text) → IsInt64 z → cut b':' (format_int z ++ (b':' ∷ t)) ≡ some (format_int z, t)
unfolding format_int cut all_digits
cut-format_int (pos n) t h =
    all_digits-colon (digits max_digits n []) t (all_digits-digits 18 n [] (omega arith) refl)
cut-format_int (negsuc n) t h = ap (cons_before b'-') (
    all_digits-colon (digits max_digits (suc n) []) t
      (all_digits-digits 18 (suc n) [] (omega arith) refl))
