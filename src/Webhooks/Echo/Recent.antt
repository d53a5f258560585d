-- ===== src/Webhooks/Echo/Recent.antt =====
-- The echo log against its specification: the whole history of deliveries, of which it shows the
-- most recent ones.
use mathlib.Core.List.{reverse, reverse-append, reverse-reverse}
use litemlflow.Prelude.{
  ℕ, ◌-◌, List, [], ◌∷◌, ◌++◌, ltb, ◌==◌, ◌&&◌, ◌≡◌, refl, sym, ap, ◌∙◌, inl, inr, if◌then◌else◌,
  length, take, drop, arith, Bool-cases, length-reverse, drop-reverse, take-cons_take, take_all,
}
use litemlflow.Webhooks.Echo.{
  EchoEntry, EchoLog, new_echo_log, stored_entry, record_entry, list_entries,
}

-- A delivery and the time of its call of `Record`.
pub record Delivered : Type 0 where
  pub now : ℕ
  pub entry : EchoEntry

-- The deliveries that a process made, the most recent one first, as `Record` stores them.
unfoldable pub history : List Delivered → List EchoEntry
history [] = []
history (d ∷ earlier) = stored_entry d.now d.entry ∷ history earlier

-- The log after those calls of `Record`.
unfoldable pub record_all : ℕ → List Delivered → EchoLog
record_all capacity [] = new_echo_log capacity
record_all capacity (d ∷ earlier) = record_entry d.now d.entry (record_all capacity earlier)

-- What a reader is promised: the most recent `capacity` deliveries, of these the first `max`.
unfoldable pub recent : ℕ → ℕ → List EchoEntry → List EchoEntry
recent capacity max entries =
    let kept = take (if capacity == 0 then 100 else capacity) entries in
    if max == 0 then kept else take max kept

record_entry-capacity :
    (now : ℕ) (e : EchoEntry) (l : EchoLog) → (record_entry now e l).capacity ≡ l.capacity
unfolding record_entry
record_entry-capacity now e l = refl

-- A list that is kept in the opposite order, and cut to its last `n` elements when one is added.
cut-reverse {ℓ} :
    {A : Type ℓ} (n : ℕ) (zs : List A)
    → (if ltb n (length (reverse zs))
        then drop (length (reverse zs) - n) (reverse zs)
        else reverse zs)
      ≡ reverse (take n zs)
cut-reverse n zs = rw (length-reverse zs) (elim (Bool-cases (ltb n (length zs))) [
  | inl full ↦ rw full (drop-reverse n zs)
  | inr room ↦ rw room (ap reverse (sym (take_all n zs (ground arith))))
])

add_last {ℓ} :
    {A : Type ℓ} (n : ℕ) (x : A) (xs ys : List A)
    → ys ≡ reverse (take n xs)
    → (if ltb n (length (ys ++ (x ∷ [])))
        then drop (length (ys ++ (x ∷ [])) - n) (ys ++ (x ∷ []))
        else ys ++ (x ∷ []))
      ≡ reverse (take n (x ∷ xs))
add_last n x xs ys h =
    let e : ys ++ (x ∷ []) ≡ reverse (x ∷ take n xs) =
      ap (λ l. l ++ (x ∷ [])) h ∙ sym (reverse-append (x ∷ []) (take n xs)) in
    rw e (cut-reverse n (x ∷ take n xs) ∙ ap reverse (take-cons_take n x xs))

record_entry-entries :
    (now : ℕ) (e : EchoEntry) (l : EchoLog) (xs : List EchoEntry)
    → l.entries ≡ reverse (take l.capacity xs)
    → (record_entry now e l).entries ≡ reverse (take l.capacity (stored_entry now e ∷ xs))
unfolding record_entry
record_entry-entries now e l xs h = add_last l.capacity (stored_entry now e) xs l.entries h

record_all-capacity :
    (capacity : ℕ) (ds : List Delivered)
    → (record_all capacity ds).capacity ≡ (if capacity == 0 then 100 else capacity)
unfolding record_all new_echo_log
record_all-capacity capacity [] = refl
record_all-capacity capacity (d ∷ ds) =
    record_entry-capacity d.now d.entry (record_all capacity ds) ∙ record_all-capacity capacity ds

record_all-entries :
    (capacity : ℕ) (ds : List Delivered)
    → (record_all capacity ds).entries
      ≡ reverse (take (record_all capacity ds).capacity (history ds))
unfolding record_all history new_echo_log
record_all-entries capacity [] =
    ap reverse (sym (take_all (new_echo_log capacity).capacity [] (omega arith)))
record_all-entries capacity (d ∷ ds) =
    record_entry-entries d.now d.entry (record_all capacity ds) (history ds)
      (record_all-entries capacity ds)
    ∙ ap (λ n. reverse (take n (history (d ∷ ds))))
        (sym (record_entry-capacity d.now d.entry (record_all capacity ds)))

newest {ℓ} :
    {A : Type ℓ} (max : ℕ) (xs ys : List A)
    → ys ≡ reverse xs
    → take (if ltb 0 max && ltb max (length ys) then max else length ys) (reverse ys)
      ≡ (if max == 0 then xs else take max xs)
newest max xs ys h =
    let order : reverse ys ≡ xs = ap reverse h ∙ reverse-reverse xs in
    let count : length ys ≡ length xs = ap length h ∙ length-reverse xs in
    rw (order, count) (ground (arith, take_all max xs, take_all (length xs) xs))

list_entries-reverse :
    (max : ℕ) (l : EchoLog) (xs : List EchoEntry)
    → l.entries ≡ reverse xs
    → list_entries max l ≡ (if max == 0 then xs else take max xs)
unfolding list_entries
list_entries-reverse max l xs h = newest max xs l.entries h

-- The log after any deliveries: it shows its readers the most recent ones, as many as its capacity,
-- the last one first, and up to `max` of these if that is not zero.
pub list_entries-record_all :
    (capacity max : ℕ) (ds : List Delivered)
    → list_entries max (record_all capacity ds) ≡ recent capacity max (history ds)
unfolding recent
list_entries-record_all capacity max ds = rw (← record_all-capacity capacity ds) (
    list_entries-reverse max (record_all capacity ds)
      (take (record_all capacity ds).capacity (history ds)) (record_all-entries capacity ds))
