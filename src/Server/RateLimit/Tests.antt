-- ===== src/Server/RateLimit/Tests.antt =====
-- The limiter's theorems at the rate that internal/server/server.go sets: five tokens, and twelve
-- seconds for each.
use litemlflow.Prelude.{
  ℕ, ◌+◌, ◌-◌, ◌*◌, ◌≤◌, Bool, true, false, List, [], ◌∷◌, Option, none, some, ◌≡◌, refl, inr,
  arith, Text, split_on, join_with, codes, text_eq, if◌then◌else◌,
}
use litemlflow.Model.Names.{trim_space}
use litemlflow.Server.RateLimit.{Limiter, sweep, allow}
use litemlflow.Server.RateLimit.ClientKey.{
  Net, Peer, client_key, walk_hops, hop_then, ip_key, any_contains, is_trusted, client_key-EndsIn,
}
use litemlflow.Server.RateLimit.Level.{IsPast, IsUsedBefore, level, sweep-level}
use litemlflow.Server.RateLimit.Attempts.{
  Attempt, finish, after, granted, granted-budget, allow-patient,
}

abbrev second : ℕ
second = 1000000000

abbrev token : ℕ
token = 12 * second

abbrev capacity : ℕ
capacity = 5 * token

abbrev one : Text
one = codes "10.0.0.1"

abbrev two : Text
two = codes "10.0.0.2"

-- A client that spent two tokens at second 100, and one that spent all at second 150.
abbrev used : Limiter
used = record {
  buckets = λ k.
      if text_eq k one
      then some (record { tokens = 3 * token; last = 100 * second })
      else if text_eq k two
      then some (record { tokens = 0; last = 150 * second })
      else none;
  last_sweep = 60 * second;
}

used_past :
    (c d : Bool)
    → IsUsedBefore (150 * second) (
        if c
        then some (record { tokens = 3 * token; last = 100 * second })
        else if d
        then some (record { tokens = 0; last = 150 * second })
        else none)
used_past true d = omega arith
used_past false true = omega arith
used_past false false = tt

past : IsPast (150 * second) used
past k = used_past (text_eq k one) (text_eq k two)

sweep-level_example :
    level capacity token (300 * second) two (sweep capacity token (150 * second) used)
    ≡ level capacity token (300 * second) two used
sweep-level_example =
    sweep-level capacity token (150 * second) (300 * second) two used past (omega arith)

abbrev attempts : List Attempt
attempts = record { at = 151 * second; key = one } ∷ record { at = 155 * second; key = one } ∷ []

granted-budget_example :
    granted capacity token one attempts used * token
    ≤ capacity + (finish (150 * second) attempts - 150 * second)
granted-budget_example =
    granted-budget capacity token one (150 * second) attempts used (omega arith, (omega arith, tt))
      past

allow-patient_example :
    (allow capacity token (162 * second) two (after capacity token attempts used)).0 ≡ true
unfolding text_eq
allow-patient_example =
    allow-patient capacity token two (150 * second) (162 * second) attempts used (omega arith)
      (omega arith, (omega arith, tt)) (omega arith) (omega arith) past (refl, (refl, tt))

abbrev host_part : List Text → Option Text
host_part (host ∷ port ∷ []) = some host
host_part l = none

abbrev plain_addr : Text → Option Text
plain_addr [] = none
plain_addr (c ∷ t) = some (c ∷ t)

-- IPv4 addresses as their texts, and prefixes that hold one address.
abbrev plain_net : Net Text Text
plain_net = record {
  split_host = λ t. host_part (split_on b':' t);
  parse_addr = plain_addr;
  unmapped = λ t. t;
  is4 = λ t. true;
  addr_text = λ t. t;
  prefix_text = λ t. t;
  contains_addr = text_eq;
}

-- A proxy that appends the address it saw to what the client sent.
abbrev behind_proxy : Text → Peer
behind_proxy sent = record {
  remote_addr = codes "10.0.0.1:80";
  forwarded = sent ∷ two ∷ [];
  real_ip = sent;
}

client_key-EndsIn_example :
    client_key plain_net (one ∷ []) (behind_proxy (codes "1.1.1.1"))
    ≡ client_key plain_net (one ∷ []) (behind_proxy (codes "x, 8.8.8.8"))
unfolding split_on join_with walk_hops hop_then ip_key any_contains is_trusted text_eq trim_space
client_key-EndsIn_example =
    client_key-EndsIn plain_net (one ∷ []) (behind_proxy (codes "1.1.1.1"))
      (behind_proxy (codes "x, 8.8.8.8")) refl
      (inr (two, (λ e. cc), (codes "1.1.1.1", refl), (codes "x, 8.8.8.8", refl)))
