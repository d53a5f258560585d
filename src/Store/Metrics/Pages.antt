-- ===== src/Store/Metrics/Pages.antt =====
-- Reading the history of a metric page by page.
use mathlib.Core.List.{append_assoc}
use litemlflow.Prelude.{
  ℕ, zero, suc, ◌<◌, String, Bool, true, false, ◌&&◌, List, [], ◌∷◌, ◌++◌, some, ◌≡◌, refl, sym, ap,
  ap₂, ◌∙◌, ◌⊎◌, inl, inr, if◌then◌else◌, ltb, length, length-append, take, drop, take-append-drop,
  take-take, arith, All, All-append_right, Bool-cases, Text, text_eq, Result, ok, ok_inj, err,
  ◌>>=◌, other_error, select_rows, IsInt64, cut-format_int, format_int, parse_int-format_int,
  IsAscending, sort_rows, sort_rows-All, sort_rows-IsAscending, select_rows-All,
  select_rows-sort_rows, select_rows_after,
}
use litemlflow.Store.Metrics.{
  MetricRow, Cursor, cursor_ltb, cursor_of, is_of, is_before, both, parse_parts,
  encode_metric_page_token, decode_metric_page_token, last_row, token_after, rows_from, page_of,
  query_from, get_metric_history,
}
use litemlflow.Store.Metrics.Points.{
  cursor_ltb_irrefl, cursor_ltb_trans, Distinct, InRange, is_of-IsApart, Logged, Logged-Distinct,
}

-- A token is read back as the cursor it was made from.
pub decode_metric_page_token-encode_metric_page_token :
    (c : Cursor)
    → IsInt64 c.timestamp
    → IsInt64 c.step
    → decode_metric_page_token (encode_metric_page_token c) ≡ some c
unfolding decode_metric_page_token parse_parts encode_metric_page_token
decode_metric_page_token-encode_metric_page_token c ht hs =
    ap parse_parts (cut-format_int c.timestamp (format_int c.step) ht)
    ∙ ap₂ both (parse_int-format_int c.timestamp ht) (parse_int-format_int c.step hs)

append-ne-nil : (s t : Text) (c : ℕ) → text_eq (s ++ (c ∷ t)) [] ≡ false
unfolding text_eq
append-ne-nil [] t c = refl
append-ne-nil (d ∷ s) t c = refl

some_token : (c : Cursor) → text_eq (encode_metric_page_token c) [] ≡ false
unfolding encode_metric_page_token
some_token c = append-ne-nil (format_int c.timestamp) (format_int c.step) b':'

module _ {V : Type 0} where
  -- A client that asks for a page after another until no token comes back; the fuel bounds the
  -- pages.
  unfoldable pub read_pages :
      ℕ → String → String → ℕ → Text → List (MetricRow V) → Result (List (MetricRow V))
  unfolding get_metric_history text_eq
  read_pages zero run_id key max token rows = err other_error
  read_pages (suc fuel) run_id key max token rows =
      get_metric_history run_id key max token rows >>= λ answer.
      let (page, next) = answer in
      let rest = read_pages fuel run_id key max next rows in
      if text_eq next [] then ok page else (rest >>= λ more. ok (page ++ more))

  last_split :
      (r : MetricRow V) (rows : List (MetricRow V))
      → (front : List (MetricRow V)) × (m : MetricRow V) × (r ∷ rows ≡ front ++ (m ∷ []))
        × (last_row (r ∷ rows) ≡ some m)
  last_split r [] = ([], r, refl, refl)
  last_split r (s ∷ rows) =
      let (front, m, split, last) = last_split s rows in (r ∷ front, m, ap (λ l. r ∷ l) split, last)

  module _ (run_id key : String) (rows : List (MetricRow V)) (distinct : Distinct rows)
      (in_range : All InRange rows) where
    points : List (MetricRow V)
    points = sort_rows is_before (select_rows (is_of run_id key) rows)

    irrefl : (x : MetricRow V) → is_before x x ≡ false
    irrefl x = cursor_ltb_irrefl (cursor_of x)

    trans :
        (x y z : MetricRow V) → is_before x y ≡ true → is_before y z ≡ true → is_before x z ≡ true
    trans x y z = cursor_ltb_trans (cursor_of x) (cursor_of y) (cursor_of z)

    select_rows-and :
        (p q : MetricRow V → Bool) (xs : List (MetricRow V))
        → select_rows (λ r. p r && q r) xs ≡ select_rows q (select_rows p xs)
    unfolding select_rows
    select_rows-and p q [] = refl
    select_rows-and p q (x ∷ xs) = ground (arith, select_rows-and p q xs)

    rows_from-points :
        (after : MetricRow V → Bool) → rows_from after run_id key rows ≡ select_rows after points
    unfolding rows_from points
    rows_from-points after =
        ap (sort_rows is_before) (select_rows-and (is_of run_id key) after rows)
        ∙ sym (
            select_rows-sort_rows is_before irrefl trans after (select_rows (is_of run_id key) rows)
              (is_of-IsApart run_id key rows distinct))

    points-IsAscending : IsAscending is_before points
    unfolding points
    points-IsAscending =
        sort_rows-IsAscending is_before irrefl trans (select_rows (is_of run_id key) rows)
          (is_of-IsApart run_id key rows distinct)

    points-InRange : All InRange points
    unfolding points
    points-InRange =
        sort_rows-All is_before InRange _
          (select_rows-All is_before InRange (is_of run_id key) rows in_range)

    get_metric_history_at :
        (max : ℕ) (token : Text) (c : Cursor)
        → text_eq token [] ≡ false
        → decode_metric_page_token token ≡ some c
        → get_metric_history run_id key max token rows
          ≡ ok (page_of max (rows_from (λ r. cursor_ltb c (cursor_of r)) run_id key rows))
    unfolding get_metric_history query_from
    get_metric_history_at max token c some_text decoded = rw (some_text, decoded) refl

    -- The page after a row of the history.
    get_metric_history_next :
        (max : ℕ) (front rest : List (MetricRow V)) (m : MetricRow V)
        → points ≡ front ++ (m ∷ rest)
        → get_metric_history run_id key max (encode_metric_page_token (cursor_of m)) rows
          ≡ ok (page_of max rest)
    get_metric_history_next max front rest m split =
        let (ht, hs) = (All-append_right InRange front (m ∷ rest) (rw split at points-InRange)).0 in
        let ascending : IsAscending is_before (front ++ (m ∷ rest)) =
          rw split at points-IsAscending in
        let following : select_rows (is_before m) points ≡ rest =
          rw split (select_rows_after is_before irrefl trans front rest m ascending) in
        get_metric_history_at max (encode_metric_page_token (cursor_of m)) (cursor_of m)
          (some_token (cursor_of m))
          (decode_metric_page_token-encode_metric_page_token (cursor_of m) ht hs)
        ∙ ap (λ l. ok (page_of max l)) (rows_from-points (is_before m) ∙ following)

take_short {ℓ} : {A : Type ℓ} (n : ℕ) (xs : List A) → length (take n xs) < n → take n xs ≡ xs
take_short zero xs h = absurd (omega arith)
take_short (suc n) [] h = refl
take_short (suc n) (x ∷ xs) h = ap (λ l. x ∷ l) (take_short n xs (omega arith))

module _ {V : Type 0} where
  -- What a query returns of the rows it has fetched.
  page_fetched : ℕ → List (MetricRow V) → List (MetricRow V) × Text
  unfolding token_after
  page_fetched n fetched =
      let page = take n fetched in
      if ltb n (length fetched) then (page, token_after (last_row page)) else (fetched, [])

  page_more :
      (n : ℕ) (fetched page : List (MetricRow V)) (m : MetricRow V)
      → ltb n (length fetched) ≡ true
      → take n fetched ≡ page
      → last_row page ≡ some m
      → page_fetched n fetched ≡ (page, encode_metric_page_token (cursor_of m))
  unfolding page_fetched token_after
  page_more n fetched page m more cut_off last = rw (more, cut_off, last) refl

  page_all :
      (n : ℕ) (fetched : List (MetricRow V))
      → ltb n (length fetched) ≡ false
      → page_fetched n fetched ≡ (fetched, [])
  unfolding page_fetched
  page_all n fetched all = rw all refl

  -- A page is all that is left, or it ends in a row that the token names.
  page_of-cases :
      (max : ℕ) (left : List (MetricRow V))
      → (page_of (suc max) left ≡ (left, []))
        ⊎ ((front : List (MetricRow V)) × (m : MetricRow V) × (rest : List (MetricRow V)) × (left
              ≡ front ++ (m ∷ rest))
            × (page_of (suc max) left
                ≡ (front ++ (m ∷ []), encode_metric_page_token (cursor_of m))))
  unfolding page_of page_fetched
  page_of-cases max [] = inl (ground arith)
  page_of-cases max (r ∷ left) =
      elim (Bool-cases (ltb (suc max) (length (take (suc (suc max)) (r ∷ left))))) [
        | inl more ↦
            let (front, m, split, last) = last_split r (take max left) in
            let page : take (suc max) (take (suc (suc max)) (r ∷ left)) ≡ front ++ (m ∷ []) =
              take-take (suc max) (suc (suc max)) (r ∷ left) (omega arith) ∙ split in
            let whole : r ∷ left ≡ front ++ (m ∷ drop max left) =
              sym (take-append-drop (suc max) (r ∷ left))
              ∙ ap (λ l. l ++ drop max left) split
              ∙ append_assoc front (m ∷ []) (drop max left) in
            inr (
              front,
              m,
              drop max left,
              whole,
              page_more (suc max) (take (suc (suc max)) (r ∷ left)) (front ++ (m ∷ [])) m more page
                  (ap last_row (sym split) ∙ last),
            )
        | inr all ↦ inl (
            page_all (suc max) (take (suc (suc max)) (r ∷ left)) all
            ∙ ap (λ l. (l, [])) (take_short (suc (suc max)) (r ∷ left) (ground arith)))
      ]

  module _ (run_id key : String) (rows : List (MetricRow V)) (distinct : Distinct rows)
      (in_range : All InRange rows) where
    read_pages_from :
        (fuel max : ℕ) (before left : List (MetricRow V)) (token : Text)
        → points run_id key rows distinct in_range ≡ before ++ left
        → get_metric_history run_id key (suc max) token rows ≡ ok (page_of (suc max) left)
        → length left < fuel
        → read_pages fuel run_id key (suc max) token rows ≡ ok left
    unfolding read_pages
    read_pages_from zero max before left token split page h = absurd (omega arith)
    read_pages_from (suc fuel) max before left token split page h = elim (page_of-cases max left) [
      | inl last ↦ rw (page, last) refl
      | inr (front, m, rest, whole, full) ↦
          let split' : points run_id key rows distinct in_range ≡ (before ++ front) ++ (m ∷ rest) =
            split ∙ ap (λ l. before ++ l) whole ∙ sym (append_assoc before front (m ∷ rest)) in
          let next =
            read_pages_from fuel max ((before ++ front) ++ (m ∷ [])) rest
              (encode_metric_page_token (cursor_of m))
              (split' ∙ sym (append_assoc (before ++ front) (m ∷ []) rest))
              (get_metric_history_next run_id key rows distinct in_range (suc max) (before ++ front)
                rest m split')
              (omega (arith, ap length whole, length-append {0} front (m ∷ rest))) in
          rw (page, full, some_token (cursor_of m), next)
            (ap ok (append_assoc front (m ∷ []) rest ∙ sym whole))
    ]

  select_all : (xs : List (MetricRow V)) → select_rows (λ r. true) xs ≡ xs
  unfolding select_rows
  select_all [] = refl
  select_all (x ∷ xs) = ap (λ l. x ∷ l) (select_all xs)

  -- In a table that calls of `LogMetrics` have filled, the history of a metric that is read page by
  -- page, of any size but zero, is the history that is read at once: nothing is left out and nothing
  -- comes twice. There are at most as many pages as points, and one more. Timestamps and steps are
  -- of 64 bits.
  pub read_pages-get_metric_history :
      (is_finite : V → Bool) (run_id key : String) (rows all : List (MetricRow V)) (fuel max : ℕ)
      → Logged is_finite rows
      → All InRange rows
      → get_metric_history run_id key 0 [] rows ≡ ok (all, [])
      → length all < fuel
      → read_pages fuel run_id key (suc max) [] rows ≡ ok all
  unfolding get_metric_history page_of text_eq
  read_pages-get_metric_history is_finite run_id key rows all fuel max log in_range whole enough =
      let distinct = Logged-Distinct is_finite log in
      let at_once : rows_from (λ r. true) run_id key rows ≡ all = ap (λ p. p.0) (ok_inj whole) in
      let here : points run_id key rows distinct in_range ≡ all =
        sym (select_all (points run_id key rows distinct in_range))
        ∙ sym (rows_from-points run_id key rows distinct in_range (λ r. true))
        ∙ at_once in
      read_pages_from run_id key rows distinct in_range fuel max [] all [] here
        (ap (λ l. ok (page_of (suc max) l)) at_once) enough
