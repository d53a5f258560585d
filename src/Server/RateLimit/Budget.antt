-- ===== src/Server/RateLimit/Budget.antt =====
-- How many attempts a client gets.
use litemlflow.Prelude.{
  ℕ, ◌+◌, ◌-◌, ◌≤◌, false, some, ◌≡◌, refl, ◌∙◌, ltb, leb, arith, if◌then◌else◌, Text, text_eq,
  Bool-cases, inl, inr,
}
use litemlflow.Server.RateLimit.{Bucket, Limiter, refilled, allow}
use litemlflow.Server.RateLimit.Level.{
  IsPast, level_of, level, level_capacity, looked_up, looked_up-IsPast, looked_up-other,
  looked_up_self, put_bucket_self, put_bucket-other, put_bucket-IsPast, refilled-last,
}

ltb-false : (a b : ℕ) → ltb a b ≡ false → b ≤ a
ltb-false a b h = ground arith

module _ (capacity token : ℕ) where
  -- An attempt is granted exactly when the level of its client holds a token.
  pub allow-verdict :
      (now : ℕ) (key : Text) (rl : Limiter)
      → (allow capacity token now key rl).0 ≡ leb token (level capacity token now key rl)
  unfolding allow level level_of
  allow-verdict now key rl = ground arith

  spent :
      (now : ℕ) (b : Bucket)
      → b.last ≡ now
      → b.tokens ≤ capacity
      → token ≤ b.tokens
      → level_of capacity token now (some (record b { tokens = b.tokens - token })) + token
        ≡ b.tokens
  unfolding level_of
  spent now b e full enough = ground arith

  tokens_level :
      (now : ℕ) (key : Text) (rl : Limiter)
      → (refilled capacity token now (rl.buckets key)).tokens ≡ level capacity token now key rl
  unfolding level level_of
  tokens_level now key rl = refl

  -- A granted attempt takes one token of its client's level, and a refused one nothing.
  pub allow-level :
      (now : ℕ) (key : Text) (rl : Limiter)
      → IsPast now rl
      → level capacity token now key (allow capacity token now key rl).1
          + (if (allow capacity token now key rl).0 then token else 0)
        ≡ level capacity token now key rl
  unfolding allow level level_of
  allow-level now key rl past =
      let b = refilled capacity token now (rl.buckets key) in
      let e = tokens_level now key rl in
      elim (Bool-cases (ltb b.tokens token)) [
        | inl poor ↦ rw poor (omega (arith, looked_up_self capacity token now key rl past))
        | inr rich ↦
            rw
              (
                rich,
                put_bucket_self capacity token now key (record b { tokens = b.tokens - token })
                    (looked_up capacity token now key rl),
              )
              (spent now b (refilled-last capacity token now (rl.buckets key))
                  (rw e (level_capacity capacity token now (rl.buckets key)))
                  (ltb-false b.tokens token rich)
                ∙ e)
      ]

  -- An attempt of one client changes the level of no other, at any later time.
  pub allow-other :
      (now t : ℕ) (key k : Text) (rl : Limiter)
      → IsPast now rl
      → now ≤ t
      → text_eq k key ≡ false
      → level capacity token t k (allow capacity token now key rl).1 ≡ level capacity token t k rl
  unfolding allow
  allow-other now t key k rl past le other =
      let b = refilled capacity token now (rl.buckets key) in
      elim (Bool-cases (ltb b.tokens token)) [
        | inl poor ↦ rw poor (looked_up-other capacity token now t key k rl past le other)
        | inr rich ↦ rw rich (
            put_bucket-other capacity token t key k (record b { tokens = b.tokens - token })
              (looked_up capacity token now key rl) other
            ∙ looked_up-other capacity token now t key k rl past le other)
      ]

  pub allow-IsPast :
      (now : ℕ) (key : Text) (rl : Limiter)
      → IsPast now rl
      → IsPast now (allow capacity token now key rl).1
  unfolding allow
  allow-IsPast now key rl past =
      let b = refilled capacity token now (rl.buckets key) in
      let e = refilled-last capacity token now (rl.buckets key) in
      elim (Bool-cases (ltb b.tokens token)) [
        | inl poor ↦ rw poor (looked_up-IsPast capacity token now key rl past)
        | inr rich ↦ rw rich (
            put_bucket-IsPast capacity token now key (record b { tokens = b.tokens - token })
              (looked_up capacity token now key rl) (omega (arith, e))
              (looked_up-IsPast capacity token now key rl past))
      ]
