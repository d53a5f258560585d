-- ===== src/Store/Sessions/Expiry.antt =====
-- What a session's holder sees over time.
use mathlib.Core.Option
use litemlflow.Prelude.{
  ℕ, ◌≤◌, true, false, List, [], ◌∷◌, ◌++◌, Option, none, some, ◌≡◌, refl, sym, ap, ◌∙◌, ltb, Text,
  text_eq_refl, text_eq→eq, Result, ok, err, not_found, find_row, any_row, select_rows, arith,
  Bool-cases, inl, inr, update_rows, delete_rows, if◌then◌else◌, find_row-append,
  find_row-delete_rows_self, find_row-update_rows,
}
use litemlflow.Model.{Session}
use litemlflow.Store.Sessions.{
  is_session, is_expired, stamped, create_session, get_session, is_touched, touch_session,
  delete_session, garbage_collect_sessions,
}

-- What a read makes of the row that it finds.
seen : ℕ → Option Session → Result Session
seen now none = err not_found
seen now (some s) = if is_expired now s then err not_found else ok s

get_session-seen :
    (now : ℕ) (id : Text) (db : List Session)
    → get_session now id db ≡ seen now (find_row (is_session id) db)
unfolding get_session seen
get_session-seen now id db =
    elim (find_row (is_session id) db)
      as (λ o.
        elim o [ none ↦ err not_found | some s ↦ if is_expired now s then err not_found else ok s ]
        ≡ seen now o) [ none ↦ refl | some s ↦ refl ]

-- The primary key: no two rows have the same id.
abbrev pub HasKeys : List Session → Type 0
HasKeys [] = Unit
HasKeys (s ∷ db) = (any_row (is_session s.id) db ≡ false) × HasKeys db

missing_row :
    (id : Text) (db : List Session)
    → any_row (is_session id) db ≡ false
    → find_row (is_session id) db ≡ none
unfolding find_row any_row
missing_row id [] h = refl
missing_row id (s ∷ db) h = ground (arith, missing_row id db)

kept_missing :
    (now : ℕ) (id : Text) (db : List Session)
    → find_row (is_session id) db ≡ none
    → find_row (is_session id) (delete_rows (is_expired now) db) ≡ none
unfolding find_row delete_rows select_rows
kept_missing now id [] h = refl
kept_missing now id (s ∷ db) h = ground (arith, kept_missing now id db)

still_expired :
    (now t : ℕ) (s : Session) → is_expired now s ≡ true → now ≤ t → is_expired t s ≡ true
still_expired now t s h le = ground arith

collected :
    (now t : ℕ) (id : Text) (db : List Session)
    → HasKeys db
    → now ≤ t
    → seen t (find_row (is_session id) (delete_rows (is_expired now) db))
      ≡ seen t (find_row (is_session id) db)
unfolding find_row delete_rows select_rows seen
collected now t id [] keys le = refl
collected now t id (s ∷ db) (own, keys) le = elim (Bool-cases (is_session id s)) [
  | inl here ↦
      let missing = kept_missing now id db (
        missing_row id db
          (ap (λ k. any_row (is_session k) db) (sym (text_eq→eq s.id id here)) ∙ own)) in
      elim (Bool-cases (is_expired now s)) [
        | inl gone ↦ rw (gone, here, missing, still_expired now t s gone le) refl
        | inr valid ↦ rw (valid, here) refl
      ]
  | inr other ↦ elim (Bool-cases (is_expired now s)) [
    | inl gone ↦ rw (gone, other) (collected now t id db keys le)
    | inr valid ↦ rw (valid, other) (collected now t id db keys le)
  ]
]

-- The collection of expired sessions is not seen by any later read.
pub garbage_collect_sessions-get_session :
    (now t : ℕ) (id : Text) (db : List Session)
    → HasKeys db
    → now ≤ t
    → get_session t id (garbage_collect_sessions now db).0 ≡ get_session t id db
unfolding garbage_collect_sessions
garbage_collect_sessions-get_session now t id db keys le =
    get_session-seen t id (delete_rows (is_expired now) db)
    ∙ collected now t id db keys le
    ∙ sym (get_session-seen t id db)

created_row :
    (now : ℕ) (s : Session) (db db' : List Session)
    → create_session now s db ≡ ok db'
    → (any_row (is_session s.id) db ≡ false) × (db' ≡ db ++ stamped now s ∷ [])
unfolding create_session
created_row now s db db' h = ground arith

-- A session that is created is read back, with its times filled in, up to and including the time at
-- which it expires, and is not found after that.
pub create_session-get_session :
    (now t : ℕ) (s : Session) (db db' : List Session)
    → create_session now s db ≡ ok db'
    → get_session t s.id db' ≡ (if ltb s.expires_at t then err not_found else ok (stamped now s))
unfolding seen stamped find_row
create_session-get_session now t s db db' h =
    let (fresh, e) = created_row now s db db' h in
    rw e (
      get_session-seen t s.id (db ++ stamped now s ∷ [])
      ∙ ap (seen t) (find_row-append (is_session s.id) db (stamped now s ∷ []))
      ∙ rw (missing_row s.id db fresh, text_eq_refl s.id) refl)

deleted_rows :
    (id : Text) (db db' : List Session)
    → delete_session id db ≡ ok db'
    → db' ≡ delete_rows (is_session id) db
unfolding delete_session
deleted_rows id db db' h = ground arith

-- A session that is deleted is not found, at any time.
pub delete_session-get_session :
    (t : ℕ) (id : Text) (db db' : List Session)
    → delete_session id db ≡ ok db'
    → get_session t id db' ≡ err not_found
unfolding seen
delete_session-get_session t id db db' h = rw (deleted_rows id db db' h) (
    get_session-seen t id (delete_rows (is_session id) db)
    ∙ ap (seen t) (find_row-delete_rows_self (is_session id) (is_session id) db (λ s e. e)))

touched_rows :
    (now last_seen : ℕ) (id : Text) (db db' : List Session)
    → touch_session now id last_seen db ≡ ok db'
    → db' ≡ update_rows (is_touched now id) (λ s. record s { last_seen = last_seen }) db
unfolding touch_session
touched_rows now last_seen id db db' h = ground arith

touched : ℕ → ℕ → Text → Session → Session
touched now last_seen id s = if is_touched now id s then record s { last_seen = last_seen } else s

touched-expires :
    (now last_seen : ℕ) (id : Text) (s : Session)
    → (touched now last_seen id s).expires_at ≡ s.expires_at
unfolding touched
touched-expires now last_seen id s = ground arith

seen-touched :
    (t now last_seen : ℕ) (id : Text) (o : Option Session)
    → seen t (Option.map (touched now last_seen id) o)
      ≡ elim (seen t o) [ ok s ↦ ok (touched now last_seen id s) | err e ↦ err e ]
unfolding seen touched
seen-touched t now last_seen id none = refl
seen-touched t now last_seen id (some s) =
    rw (touched-expires now last_seen id s)
      (elim (Bool-cases (is_expired t s)) [ inl e ↦ rw e refl | inr e ↦ rw e refl ])

-- A touch never prolongs a session: any later or earlier read, of the touched session or of another,
-- finds it or not as before, and at most the time of its last use differs.
pub touch_session-get_session :
    (now last_seen t : ℕ) (id other : Text) (db db' : List Session)
    → touch_session now id last_seen db ≡ ok db'
    → get_session t other db' ≡ elim (get_session t other db) [
      | ok s ↦ ok (if is_touched now id s then record s { last_seen = last_seen } else s)
      | err e ↦ err e
    ]
unfolding touched
touch_session-get_session now last_seen t id other db db' h =
    rw (touched_rows now last_seen id db db' h) (
      get_session-seen t other _
      ∙ ap (seen t) (
          find_row-update_rows (is_session other) (is_touched now id)
            (λ s. record s { last_seen = last_seen }) db (λ s. refl))
      ∙ seen-touched t now last_seen id (find_row (is_session other) db)
      ∙ ap (λ r. elim r [ ok s ↦ ok (touched now last_seen id s) | err e ↦ err e ])
          (sym (get_session-seen t other db)))
