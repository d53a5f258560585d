-- ===== src/Store/Sessions/Tests.antt =====
-- The theorems on sessions at a concrete table.
use litemlflow.Prelude.{
  ℕ, List, [], ◌∷◌, ◌++◌, ◌≡◌, refl, arith, ltb, Text, codes, text_eq, ok, err, not_found, find_row,
  any_row, select_rows, update_rows, delete_rows, if◌then◌else◌,
}
use litemlflow.Model.{Session}
use litemlflow.Store.Sessions.{
  is_touched, stamped, create_session, get_session, touch_session, delete_session,
  garbage_collect_sessions,
}
use litemlflow.Store.Sessions.Expiry.{
  garbage_collect_sessions-get_session, create_session-get_session, touch_session-get_session,
}

program : Unit {0}
unfolding text_eq stamped create_session get_session touch_session delete_session find_row any_row
    select_rows update_rows delete_rows
program = tt

abbrev session : Text → ℕ → Session
session id expires_at = record {
  id = id;
  user_id = codes "ann";
  user_email = [];
  user_name = [];
  auth_method = codes "basic";
  created_at = 100;
  expires_at = expires_at;
  last_seen = 100;
}

abbrev table : List Session
table = session (codes "a") 200 ∷ session (codes "b") 900 ∷ []

garbage_collect_sessions-get_session_example :
    get_session 500 (codes "b") (garbage_collect_sessions 400 table).0
    ≡ get_session 500 (codes "b") table
unfolding program
garbage_collect_sessions-get_session_example =
    garbage_collect_sessions-get_session 400 500 (codes "b") table (refl, (refl, tt)) (omega arith)

create_session-get_session_example :
    get_session 700 (codes "c") (table ++ session (codes "c") 700 ∷ [])
    ≡ (if ltb 700 700 then err not_found else ok (stamped 300 (session (codes "c") 700)))
unfolding program
create_session-get_session_example =
    create_session-get_session 300 700 (session (codes "c") 700) table
      (table ++ session (codes "c") 700 ∷ []) refl

abbrev touched : List Session
touched = session (codes "a") 200 ∷ record (session (codes "b") 900) { last_seen = 450 } ∷ []

touch_session-get_session_example :
    get_session 800 (codes "b") touched ≡ elim (get_session 800 (codes "b") table) [
      | ok s ↦ ok (if is_touched 440 (codes "b") s then record s { last_seen = 450 } else s)
      | err e ↦ err e
    ]
unfolding program
touch_session-get_session_example =
    touch_session-get_session 440 450 800 (codes "b") (codes "b") table touched refl
