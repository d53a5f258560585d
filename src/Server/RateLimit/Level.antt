-- ===== src/Server/RateLimit/Level.antt =====
-- The level of a client: the tokens that it could spend at a time.
use litemlflow.Prelude.{
  ℕ, ◌+◌, ◌-◌, ◌≤◌, Bool, true, false, Option, none, some, ◌≡◌, refl, ltb, arith, if◌then◌else◌,
  Text, text_eq, text_eq_refl, Bool-cases, inl, inr, ◌∙◌,
}
use litemlflow.Server.RateLimit.{
  Bucket, Limiter, minute, put_bucket, refilled, is_idle, kept_bucket, sweep,
}

-- No bucket was used after `now`.
abbrev pub IsUsedBefore : ℕ → Option Bucket → Type 0
IsUsedBefore now none = Unit
IsUsedBefore now (some b) = b.last ≤ now

abbrev pub IsPast : ℕ → Limiter → Type 0
IsPast now rl = (k : Text) → IsUsedBefore now (rl.buckets k)

module _ (capacity token : ℕ) where
  unfoldable pub level_of : ℕ → Option Bucket → ℕ
  unfolding refilled
  level_of now b = (refilled capacity token now b).tokens

  unfoldable pub level : ℕ → Text → Limiter → ℕ
  level now key rl = level_of now (rl.buckets key)

  kept_bucket-level :
      (now t : ℕ) (o : Option Bucket)
      → IsUsedBefore now o
      → now ≤ t
      → level_of t (kept_bucket capacity token now o) ≡ level_of t o
  unfolding level_of kept_bucket is_idle
  kept_bucket-level now t none h le = refl
  kept_bucket-level now t (some b) h le = ground arith

  -- The level grows with time by at most the time that passes.
  pub level-grows :
      (now t : ℕ) (o : Option Bucket)
      → IsUsedBefore now o
      → now ≤ t
      → level_of t o ≤ level_of now o + (t - now)
  unfolding level_of
  level-grows now t none h le = ground arith
  level-grows now t (some b) h le = ground arith

  pub level_capacity : (t : ℕ) (o : Option Bucket) → level_of t o ≤ capacity
  unfolding level_of
  level_capacity t none = ground arith
  level_capacity t (some b) = ground arith

  -- The sweep is not seen: it changes no client's level, at any later time.
  pub sweep-level :
      (now t : ℕ) (key : Text) (rl : Limiter)
      → IsPast now rl
      → now ≤ t
      → level t key (sweep capacity token now rl) ≡ level t key rl
  unfolding level sweep
  sweep-level now t key rl past le = elim (Bool-cases (ltb (now - rl.last_sweep) minute)) [
    | inl early ↦ rw early refl
    | inr due ↦ rw due (kept_bucket-level now t (rl.buckets key) (past key) le)
  ]

  pub put_bucket_self :
      (t : ℕ) (key : Text) (b : Bucket) (rl : Limiter)
      → level t key (put_bucket key b rl) ≡ level_of t (some b)
  unfolding level put_bucket
  put_bucket_self t key b rl = rw (text_eq_refl key) refl

  pub put_bucket-other :
      (t : ℕ) (key k : Text) (b : Bucket) (rl : Limiter)
      → text_eq k key ≡ false
      → level t k (put_bucket key b rl) ≡ level t k rl
  unfolding level put_bucket
  put_bucket-other t key k b rl other = rw other refl

  used_if :
      (now : ℕ) (c : Bool) (b : Bucket) (o : Option Bucket)
      → b.last ≤ now
      → IsUsedBefore now o
      → IsUsedBefore now (if c then some b else o)
  used_if now true b o h ho = h
  used_if now false b o h ho = ho

  pub put_bucket-IsPast :
      (now : ℕ) (key : Text) (b : Bucket) (rl : Limiter)
      → b.last ≤ now
      → IsPast now rl
      → IsPast now (put_bucket key b rl)
  unfolding put_bucket
  put_bucket-IsPast now key b rl h past k = used_if now (text_eq k key) b (rl.buckets k) h (past k)

  kept_bucket-IsUsedBefore :
      (now : ℕ) (o : Option Bucket)
      → IsUsedBefore now o
      → IsUsedBefore now (kept_bucket capacity token now o)
  unfolding kept_bucket
  kept_bucket-IsUsedBefore now none h = h
  kept_bucket-IsUsedBefore now (some b) h = elim (Bool-cases (is_idle capacity token now b)) [
    | inl e ↦ rw e tt
    | inr e ↦ rw e h
  ]

  sweep-IsPast : (now : ℕ) (rl : Limiter) → IsPast now rl → IsPast now (sweep capacity token now rl)
  unfolding sweep
  sweep-IsPast now rl past k = elim (Bool-cases (ltb (now - rl.last_sweep) minute)) [
    | inl early ↦ rw early (past k)
    | inr due ↦ rw due (kept_bucket-IsUsedBefore now (rl.buckets k) (past k))
  ]

  pub refilled-last : (now : ℕ) (o : Option Bucket) → (refilled capacity token now o).last ≡ now
  unfolding refilled
  refilled-last now none = refl
  refilled-last now (some b) = refl

  -- What `allow` leaves, before a granted token is taken.
  abbrev pub looked_up : ℕ → Text → Limiter → Limiter
  looked_up now key rl =
      sweep capacity token now (put_bucket key (refilled capacity token now (rl.buckets key)) rl)

  refilled-IsPast :
      (now : ℕ) (key : Text) (rl : Limiter)
      → IsPast now rl
      → IsPast now (put_bucket key (refilled capacity token now (rl.buckets key)) rl)
  refilled-IsPast now key rl past =
      let e = refilled-last now (rl.buckets key) in
      put_bucket-IsPast now key (refilled capacity token now (rl.buckets key)) rl (omega (arith, e))
        past

  refilled_twice :
      (now : ℕ) (o : Option Bucket)
      → level_of now (some (refilled capacity token now o)) ≡ level_of now o
  unfolding level_of refilled
  refilled_twice now none = ground arith
  refilled_twice now (some b) = ground arith

  pub looked_up-IsPast :
      (now : ℕ) (key : Text) (rl : Limiter) → IsPast now rl → IsPast now (looked_up now key rl)
  looked_up-IsPast now key rl past =
      sweep-IsPast now (put_bucket key (refilled capacity token now (rl.buckets key)) rl)
        (refilled-IsPast now key rl past)

  pub looked_up-other :
      (now t : ℕ) (key k : Text) (rl : Limiter)
      → IsPast now rl
      → now ≤ t
      → text_eq k key ≡ false
      → level t k (looked_up now key rl) ≡ level t k rl
  looked_up-other now t key k rl past le other =
      sweep-level now t k (put_bucket key (refilled capacity token now (rl.buckets key)) rl)
        (refilled-IsPast now key rl past) le
      ∙ put_bucket-other t key k (refilled capacity token now (rl.buckets key)) rl other

  pub looked_up_self :
      (now : ℕ) (key : Text) (rl : Limiter)
      → IsPast now rl
      → level now key (looked_up now key rl) ≡ level now key rl
  unfolding level level_of
  looked_up_self now key rl past =
      sweep-level now now key (put_bucket key (refilled capacity token now (rl.buckets key)) rl)
        (refilled-IsPast now key rl past) (omega arith)
      ∙ put_bucket_self now key (refilled capacity token now (rl.buckets key)) rl
      ∙ refilled_twice now (rl.buckets key)
