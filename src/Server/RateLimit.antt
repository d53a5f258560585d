-- ===== src/Server/RateLimit.antt =====
-- internal/server/ratelimit.go: the token bucket per client. Time is in nanoseconds on a clock that
-- does not run backwards, and tokens are measured in the nanoseconds that they take to refill: the
-- rate of one token every twelve seconds makes a token 12 * 10^9 of these units. (The source holds
-- tokens as float64; here they are exact.)
pub mod Level
pub mod Budget
pub mod Attempts
pub mod ClientKey
pub mod Tests
use litemlflow.Prelude.{
  ℕ, ◌+◌, ◌-◌, ◌*◌, Bool, true, false, not, ◌&&◌, List, [], ◌∷◌, Option, none, some, ◌≡◌, refl, ltb,
  leb, if◌then◌else◌, Text, codes, text_eq,
}

pub record Bucket : Type 0 where
  pub tokens : ℕ
  pub last : ℕ

-- The map of buckets is a function of the key. A limiter that never swept has the zero time, before
-- every reading of the clock.
pub record Limiter : Type 0 where
  pub buckets : Text → Option Bucket
  pub last_sweep : ℕ

-- `time.Minute`
abbrev pub minute : ℕ
minute = 60000000000

-- `newAuthRateLimiter`
abbrev pub new_limiter : Limiter
new_limiter = record { buckets = λ _. none; last_sweep = 0 }

abbrev pub least : ℕ → ℕ → ℕ
least a b = if leb a b then a else b

-- rl.buckets[key] = b
unfoldable pub put_bucket : Text → Bucket → Limiter → Limiter
put_bucket key b rl = record rl {
  buckets = λ k. let old = rl.buckets k in if text_eq k key then some b else old;
}

-- The capacity, and one token, in the units of this file.
module _ (capacity token : ℕ) where
  -- The bucket of a key, refilled to `now`; a new one is full.
  unfoldable pub refilled : ℕ → Option Bucket → Bucket
  refilled now none = record { tokens = capacity; last = now }
  refilled now (some b) = record { tokens = least capacity (b.tokens + (now - b.last)); last = now }

  -- A bucket that the sweep evicts.
  unfoldable pub is_idle : ℕ → Bucket → Bool
  is_idle now b = ltb minute (now - b.last) && leb capacity (b.tokens + (now - b.last))

  unfoldable pub kept_bucket : ℕ → Option Bucket → Option Bucket
  unfolding is_idle
  kept_bucket now none = none
  kept_bucket now (some b) = if is_idle now b then none else some b

  -- `sweep`
  unfoldable pub sweep : ℕ → Limiter → Limiter
  sweep now rl =
      if ltb (now - rl.last_sweep) minute
      then rl
      else record { buckets = λ k. kept_bucket now (rl.buckets k); last_sweep = now }

  -- `allow`: the bucket that was looked up is the one in the map, which the sweep leaves there, as
  -- it was used just now.
  unfoldable pub allow : ℕ → Text → Limiter → Bool × Limiter
  allow now key rl =
      let b = refilled now (rl.buckets key) in
      let swept = sweep now (put_bucket key b rl) in
      if ltb b.tokens token
      then (false, swept)
      else (true, put_bucket key (record b { tokens = b.tokens - token }) swept)

-- `isRateLimitedAuthPath`
unfoldable pub is_rate_limited_auth_path : Text → Text → Bool
is_rate_limited_auth_path method path =
    text_eq method (codes "POST") && text_eq path (codes "/api/v1/auth/login")
