-- ===== src/Server/RateLimit/Attempts.antt =====
-- Sequences of attempts, of many clients.
use litemlflow.Prelude.{
  ℕ, All, ◌+◌, ◌-◌, ◌*◌, ◌≤◌, Bool, true, false, ◌&&◌, List, [], ◌∷◌, Option, none, some, ◌≡◌, refl,
  ◌∙◌, ap, leb, arith, if◌then◌else◌, Text, text_eq, text_eq→eq, Bool-cases, inl, inr,
}
use litemlflow.Server.RateLimit.{Bucket, Limiter, allow}
use litemlflow.Server.RateLimit.Level.{
  IsPast, IsUsedBefore, level_of, level, level-grows, level_capacity,
}
use litemlflow.Server.RateLimit.Budget.{allow-verdict, allow-level, allow-other, allow-IsPast}

pub record Attempt : Type 0 where
  pub at : ℕ
  pub key : Text

-- The clock does not run backwards.
abbrev pub InOrder : ℕ → List Attempt → Type 0
InOrder now [] = Unit
InOrder now (a ∷ rest) = (now ≤ a.at) × InOrder a.at rest

-- The time of the last attempt.
abbrev pub finish : ℕ → List Attempt → ℕ
finish now [] = now
finish now (a ∷ rest) = finish a.at rest

IsPast-later : (now t : ℕ) (rl : Limiter) → IsPast now rl → now ≤ t → IsPast t rl
IsPast-later now t rl past le k = later (rl.buckets k) (past k)
  where
    later : (o : Option Bucket) → IsUsedBefore now o → IsUsedBefore t o
    later none h = h
    later (some b) h = omega arith

finish_later : (now : ℕ) (rest : List Attempt) → InOrder now rest → now ≤ finish now rest
finish_later now [] h = omega arith
finish_later now (a ∷ rest) (le, h) = omega (arith, finish_later a.at rest h)

le→leb : {a b : ℕ} → a ≤ b → leb a b ≡ true
le→leb h = ground arith

module _ (capacity token : ℕ) where
  unfoldable pub after : List Attempt → Limiter → Limiter
  after [] rl = rl
  after (a ∷ rest) rl = after rest (allow capacity token a.at a.key rl).1

  -- How many attempts of one client are granted.
  unfoldable pub granted : Text → List Attempt → Limiter → ℕ
  granted key [] rl = 0
  granted key (a ∷ rest) rl =
      let (ok, rl') = allow capacity token a.at a.key rl in
      let more = granted key rest rl' in if text_eq key a.key && ok then 1 + more else more

  level-later :
      (now t : ℕ) (key : Text) (rl : Limiter)
      → IsPast now rl
      → now ≤ t
      → level capacity token t key rl ≤ level capacity token now key rl + (t - now)
  unfolding level
  level-later now t key rl past le = level-grows capacity token now t (rl.buckets key) (past key) le

  -- One attempt: what it costs the client, and what it leaves.
  step :
      (now : ℕ) (key by : Text) (rl : Limiter)
      → IsPast now rl
      → level capacity token now key (allow capacity token now by rl).1
          + (if text_eq key by && (allow capacity token now by rl).0 then token else 0)
        ≡ level capacity token now key rl
  step now key by rl past = elim (Bool-cases (text_eq key by)) [
    | inl same ↦ rw (same, text_eq→eq key by same) (allow-level capacity token now by rl past)
    | inr other ↦
        rw other
          (omega (arith, allow-other capacity token now now by key rl past (omega arith) other))
  ]

  times_if :
      (b : Bool) (n : ℕ) → (if b then 1 + n else n) * token ≡ (if b then token else 0) + n * token
  times_if true n = omega arith
  times_if false n = omega arith

  -- The tokens granted to a client, with the level that is left, are at most the level at the start
  -- and the time that passed.
  granted-level :
      (key : Text) (now : ℕ) (rest : List Attempt) (rl : Limiter)
      → InOrder now rest
      → IsPast now rl
      → granted key rest rl * token + level capacity token (finish now rest) key (after rest rl)
        ≤ level capacity token now key rl + (finish now rest - now)
  unfolding granted after
  granted-level key now [] rl h past = omega arith
  granted-level key now (a ∷ rest) rl (le, h) past =
      let at_a = IsPast-later now a.at rl past le in
      let ih =
        granted-level key a.at rest (allow capacity token a.at a.key rl).1 h
          (allow-IsPast capacity token a.at a.key rl at_a) in
      let cost = step a.at key a.key rl at_a in
      let grown = level-later now a.at key rl past le in
      rw
        (times_if (text_eq key a.key && (allow capacity token a.at a.key rl).0)
          (granted key rest (allow capacity token a.at a.key rl).1))
        (omega (arith, finish_later a.at rest h))

  -- The budget of a client. From any point on, whatever the other clients do and whenever the map
  -- is swept, the attempts granted to one client cost at most its full bucket and the time that
  -- passed: at 5 tokens and 12 seconds a token, at most 5 + t/12 attempts in t seconds.
  pub granted-budget :
      (key : Text) (now : ℕ) (rest : List Attempt) (rl : Limiter)
      → InOrder now rest
      → IsPast now rl
      → granted key rest rl * token ≤ capacity + (finish now rest - now)
  unfolding level
  granted-budget key now rest rl h past = omega (
    arith,
    granted-level key now rest rl h past,
    level_capacity capacity token now (rl.buckets key),
  )

  after-other :
      (key : Text) (now t : ℕ) (rest : List Attempt) (rl : Limiter)
      → InOrder now rest
      → finish now rest ≤ t
      → IsPast now rl
      → All (λ a. text_eq key a.key ≡ false) rest
      → level capacity token t key (after rest rl) ≡ level capacity token t key rl
  unfolding after
  after-other key now t [] rl h le past others = refl
  after-other key now t (a ∷ rest) rl (at_a, h) le past (other, others) =
      let past_a = IsPast-later now a.at rl past at_a in
      let before_t = finish_later a.at rest h in
      after-other key a.at t rest (allow capacity token a.at a.key rl).1 h le
        (allow-IsPast capacity token a.at a.key rl past_a) others
      ∙ allow-other capacity token a.at t a.key key rl past_a (omega arith) other

  waited :
      (now t : ℕ) (o : Option Bucket)
      → IsUsedBefore now o
      → token ≤ capacity
      → now + token ≤ t
      → token ≤ level_of capacity token t o
  unfolding level_of
  waited now t none h fits le = ground arith
  waited now t (some b) h fits le = ground arith

  -- A client that made no attempt for the time that one token takes is granted its next one,
  -- whatever the other clients did meanwhile.
  pub allow-patient :
      (key : Text) (now t : ℕ) (rest : List Attempt) (rl : Limiter)
      → token ≤ capacity
      → InOrder now rest
      → finish now rest ≤ t
      → now + token ≤ t
      → IsPast now rl
      → All (λ a. text_eq key a.key ≡ false) rest
      → (allow capacity token t key (after rest rl)).0 ≡ true
  unfolding level
  allow-patient key now t rest rl fits h le waits past others =
      allow-verdict capacity token t key (after rest rl)
      ∙ ap (leb token) (after-other key now t rest rl h le past others)
      ∙ le→leb (waited now t (rl.buckets key) (past key) fits waits)
