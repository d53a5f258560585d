-- ===== src/Migrations/Versions.antt =====
-- Versions that count up: those of the scripts, by the check of `Load`, and those of the rows of
-- schema_migrations.
use litemlflow.Prelude.{
  ℕ, zero, suc, ◌+◌, ◌<◌, true, List, [], ◌∷◌, ◌++◌, Option, none, some, ◌≡◌, refl, length, arith,
  find_row, delete_rows, select_rows,
}
use litemlflow.Migrations.Load.{Migration, is_contiguous}
use litemlflow.Migrations.{Applied, max_applied, is_applied, is_numbered}

module _ {ℓ} {A : Type ℓ} where
  abbrev pub get_elem? : List A → ℕ → Option A
  get_elem? [] _ = none
  get_elem? (x ∷ xs) zero = some x
  get_elem? (x ∷ xs) (suc i) = get_elem? xs i

  pub get_elem?-append : (xs ys : List A) (y : A) → get_elem? (xs ++ (y ∷ ys)) (length xs) ≡ some y
  get_elem?-append [] ys y = refl
  get_elem?-append (x ∷ xs) ys y = get_elem?-append xs ys y

  pub get_elem?-lt : (xs : List A) (i : ℕ) (x : A) → get_elem? xs i ≡ some x → i < length xs
  get_elem?-lt [] i x h = cc
  get_elem?-lt (y ∷ xs) zero x h = omega arith
  get_elem?-lt (y ∷ xs) (suc i) x h = omega (arith, get_elem?-lt xs i x h)

-- The versions of the rows are `n + 1`, `n + 2` and so on, in the order of the rows.
abbrev pub Counts : ℕ → List Applied → Type 0
Counts n [] = Unit
Counts n (r ∷ rows) = (r.version ≡ suc n) × Counts (suc n) rows

abbrev pub Numbered : ℕ → List Migration → Type 0
Numbered n [] = Unit
Numbered n (m ∷ ms) = (m.version ≡ suc n) × Numbered (suc n) ms

pub is_contiguous-Numbered :
    (n : ℕ) (ms : List Migration) → is_contiguous (suc n) ms ≡ true → Numbered n ms
unfolding is_contiguous
is_contiguous-Numbered n [] h = tt
is_contiguous-Numbered n (m ∷ ms) h =
    (ground arith, is_contiguous-Numbered (suc n) ms (ground arith))

max_applied-Counts_cons :
    (n : ℕ) (r : Applied) (rows : List Applied)
    → Counts n (r ∷ rows)
    → max_applied (r ∷ rows) ≡ n + suc (length rows)
unfolding max_applied
max_applied-Counts_cons n r [] h = ground arith
max_applied-Counts_cons n r (r' ∷ rows) h =
    ground (arith, max_applied-Counts_cons (suc n) r' rows h.1)

pub max_applied-Counts : (rows : List Applied) → Counts 0 rows → max_applied rows ≡ length rows
unfolding max_applied
max_applied-Counts [] h = refl
max_applied-Counts (r ∷ rows) h = omega (arith, max_applied-Counts_cons 0 r rows h)

pub Counts-append :
    (n : ℕ) (rows : List Applied) (r : Applied)
    → Counts n rows
    → r.version ≡ suc (n + length rows)
    → Counts n (rows ++ (r ∷ []))
Counts-append n [] r h e = (omega arith, tt)
Counts-append n (x ∷ rows) r h e = (h.0, Counts-append (suc n) rows r h.1 (omega arith))

delete_rows-keeps :
    (v : ℕ) (r : Applied) (rows : List Applied)
    → r.version < v
    → delete_rows (is_applied v) (r ∷ rows) ≡ r ∷ delete_rows (is_applied v) rows
unfolding delete_rows select_rows
delete_rows-keeps v r rows h = ground arith

-- The last row is the one that a rollback deletes.
pub delete_rows-Counts :
    (v n : ℕ) (r : Applied) (rows : List Applied)
    → Counts n (r ∷ rows)
    → v ≡ n + suc (length rows)
    → Counts n (delete_rows (is_applied v) (r ∷ rows))
      × (length (delete_rows (is_applied v) (r ∷ rows)) ≡ length rows)
delete_rows-Counts v n r [] h e = unfold delete_rows select_rows in ground arith
delete_rows-Counts v n r (r' ∷ rows) h e =
    let (counts, len) = delete_rows-Counts v (suc n) r' rows h.1 (omega arith) in
    rw (delete_rows-keeps v r (r' ∷ rows) (omega arith)) ((h.0, counts), omega arith)

-- A script that is found by its version stands at its place.
pub find_row-Numbered :
    (v n i : ℕ) (ms : List Migration) (m : Migration)
    → Numbered n ms
    → v ≡ n + suc i
    → find_row (is_numbered v) ms ≡ some m
    → get_elem? ms i ≡ some m
unfolding find_row
find_row-Numbered v n i [] m h at e = cc
find_row-Numbered v n zero (x ∷ ms) m h at e = ground arith
find_row-Numbered v n (suc i) (x ∷ ms) m h at e =
    find_row-Numbered v (suc n) i ms m h.1 (omega arith) (ground arith)

pub Numbered-append :
    (n : ℕ) (xs ys : List Migration) → Numbered n (xs ++ ys) → Numbered (n + length xs) ys
Numbered-append n [] ys h = let e : n + 0 ≡ n = omega arith in rw e h
Numbered-append n (x ∷ xs) ys h =
    let e : suc n + length xs ≡ n + suc (length xs) = omega arith in
    rw (← e) (Numbered-append (suc n) xs ys h.1)
