-- ===== src/Webhooks/Echo.antt =====
-- internal/webhooks/echo.go: the bounded log of the deliveries to lmf://echo.
pub mod Recent
use mathlib.Core.List.{reverse}
use litemlflow.Prelude.{
  ℕ, ◌-◌, String, Bool, List, [], ◌∷◌, ◌++◌, ltb, ◌==◌, ◌&&◌, if◌then◌else◌, length, take, drop,
  Text, codes,
}

pub record EchoEntry : Type 0 where
  pub timestamp : ℕ
  pub event : Text
  pub webhook_id : ℕ
  pub body : Text
  pub run_id : String

pub record EchoLog : Type 0 where
  pub entries : List EchoEntry
  pub capacity : ℕ

-- `NewEchoLog`; a capacity below zero is a zero one.
unfoldable pub new_echo_log : ℕ → EchoLog
new_echo_log capacity = record { entries = []; capacity = if capacity == 0 then 100 else capacity }

abbrev pub max_body : ℕ
max_body = 4096

-- "…(truncated)", in the bytes of UTF-8.
abbrev pub truncation_mark : Text
truncation_mark = 0xe2 ∷ 0x80 ∷ 0xa6 ∷ codes "(truncated)"

-- The entry as it is stored: stamped at the time `now`, and with a bounded body.
unfoldable pub stored_entry : ℕ → EchoEntry → EchoEntry
stored_entry now e = record e {
  timestamp = if e.timestamp == 0 then now else e.timestamp;
  body = if ltb max_body (length e.body) then take max_body e.body ++ truncation_mark else e.body;
}

-- `Record`
unfoldable pub record_entry : ℕ → EchoEntry → EchoLog → EchoLog
unfolding stored_entry
record_entry now e l =
    let entries = l.entries ++ (stored_entry now e ∷ []) in
    record l {
      entries =
          if ltb l.capacity (length entries)
          then drop (length entries - l.capacity) entries
          else entries;
    }

-- `List`: the walk from the last entry back, until there are `n`; zero asks for all.
unfoldable pub list_entries : ℕ → EchoLog → List EchoEntry
list_entries max l =
    let n = if ltb 0 max && ltb max (length l.entries) then max else length l.entries in
    take n (reverse l.entries)
