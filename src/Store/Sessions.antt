-- ===== src/Store/Sessions.antt =====
-- internal/store/sessions.go: the table of sessions.
pub mod Expiry
pub mod Tests
use litemlflow.Prelude.{
  ℕ, Bool, true, false, not, ◌&&◌, List, [], ◌∷◌, ◌++◌, Option, none, some, ◌≡◌, refl, ◌==◌, ltb,
  length, Text, text_eq, Result, ok, err, not_found, already_exists, other_error, ◌>>=◌, ◌>>◌,
  guard, find_row, any_row, select_rows, update_rows, delete_rows, if◌then◌else◌,
}
use litemlflow.Model.{Session}

abbrev pub is_session : Text → Session → Bool
is_session id s = text_eq s.id id

abbrev pub is_expired : ℕ → Session → Bool
is_expired now s = ltb s.expires_at now

-- The row that `CreateSession` inserts.
unfoldable pub stamped : ℕ → Session → Session
stamped now s = record s {
  created_at = if s.created_at == 0 then now else s.created_at;
  last_seen = if s.last_seen == 0 then now else s.last_seen;
}

-- `CreateSession`
unfoldable pub create_session : ℕ → Session → List Session → Result (List Session)
unfolding stamped
create_session now s db =
    if text_eq s.id []
    then err other_error
    else if any_row (is_session s.id) db
    then err already_exists
    else ok (db ++ stamped now s ∷ [])

-- `GetSession`
unfoldable pub get_session : ℕ → Text → List Session → Result Session
get_session now id db = elim (find_row (is_session id) db) [
  | none ↦ err not_found
  | some s ↦ if is_expired now s then err not_found else ok s
]

-- `TouchSession`
abbrev pub is_touched : ℕ → Text → Session → Bool
is_touched now id s = is_session id s && ltb now s.expires_at

unfoldable pub touch_session : ℕ → Text → ℕ → List Session → Result (List Session)
touch_session now id last_seen db =
    if any_row (is_touched now id) db
    then ok (update_rows (is_touched now id) (λ s. record s { last_seen = last_seen }) db)
    else err not_found

-- `DeleteSession`
unfoldable pub delete_session : Text → List Session → Result (List Session)
delete_session id db =
    if any_row (is_session id) db then ok (delete_rows (is_session id) db) else err not_found

-- `GarbageCollectSessions`: the rows that are left, and how many went.
unfoldable pub garbage_collect_sessions : ℕ → List Session → List Session × ℕ
garbage_collect_sessions now db =
    (delete_rows (is_expired now) db, length (select_rows (is_expired now) db))
