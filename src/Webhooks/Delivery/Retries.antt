-- ===== src/Webhooks/Delivery/Retries.antt =====
-- The attempts of one delivery.
use litemlflow.Prelude.{
  ℕ, zero, suc, ◌+◌, ◌*◌, ◌≤◌, ◌<◌, Bool, true, false, none, some, ◌≡◌, refl, inl, inr, arith,
  Bool-cases, ◌==◌,
}
use litemlflow.Webhooks.Delivery.{Posted, is_success, Ended, attempts, send}

-- A test gives the same at every index in a range from `m` up to, and without, `n`.
abbrev pub Throughout : (ℕ → Bool) → Bool → ℕ → ℕ → Type 0
Throughout f b m n = (i : ℕ) → m ≤ i → i < n → f i ≡ b

empty_range : (f : ℕ → Bool) (b : Bool) (m : ℕ) → Throughout f b m m
empty_range f b m i low high = absurd (omega arith)

longer_range :
    (f : ℕ → Bool) (b : Bool) (m n : ℕ) → Throughout f b m n → f n ≡ b → Throughout f b m (suc n)
longer_range f b m n h e i low high = elim (Bool-cases (i == n)) [
  | inl same ↦ let at : i ≡ n = ground arith in rw at e
  | inr other ↦ h i low (ground arith)
]

module _ (posts : ℕ → Posted) (interrupted : ℕ → Bool) (retry_base : ℕ) where
  abbrev pub succeeds : ℕ → Bool
  succeeds i = is_success (posts i)

  -- The time that is waited before a number of further attempts.
  abbrev pub pause : ℕ → ℕ
  pause zero = 0
  pause (suc zero) = retry_base
  pause (suc (suc _)) = retry_base + retry_base * 5

  -- How a delivery may end: at its first success, whose status it records; when all three attempts
  -- have failed, where it records the last status; and in a wait that is cut short, where it
  -- records nothing.
  pub data Ends (e : Ended) : Type 0 where
    delivered :
        (n : ℕ)
        → n < 3
        → Throughout succeeds false 0 n
        → succeeds n ≡ true
        → Throughout interrupted false 1 (suc n)
        → e ≡ record { posts_made = suc n; waited = pause n; outcome = some (posts n).status }
        → Ends e
    exhausted :
        Throughout succeeds false 0 3
        → Throughout interrupted false 1 3
        → e ≡ record { posts_made = 3; waited = pause 2; outcome = some (posts 2).status }
        → Ends e
    cut_short :
        (n : ℕ)
        → n < 2
        → Throughout succeeds false 0 (suc n)
        → Throughout interrupted false 1 (suc n)
        → interrupted (suc n) ≡ true
        → e ≡ record { posts_made = suc n; waited = pause n; outcome = none }
        → Ends e

  module _ (n left waited backoff last : ℕ) where
    attempts_cut :
        interrupted (suc n) ≡ true
        → attempts posts interrupted (suc left) (suc n) backoff waited last
          ≡ record { posts_made = suc n; waited = waited; outcome = none }
    unfolding attempts
    attempts_cut cut = ground arith

    attempts_good :
        interrupted (suc n) ≡ false
        → succeeds (suc n) ≡ true
        → attempts posts interrupted (suc left) (suc n) backoff waited last ≡ record {
          posts_made = suc (suc n);
          waited = waited + backoff;
          outcome = some (posts (suc n)).status;
        }
    unfolding attempts
    attempts_good on good = ground arith

    attempts_bad :
        interrupted (suc n) ≡ false
        → succeeds (suc n) ≡ false
        → attempts posts interrupted (suc left) (suc n) backoff waited last
          ≡ attempts posts interrupted left
              (suc (suc n))
              (backoff * 5)
              (waited + backoff)
              (posts (suc n)).status
    unfolding attempts
    attempts_bad on bad = ground arith

  -- A further attempt, after `n + 1` failures, with the wait before it.
  attempts-Ends :
      (n left waited backoff last : ℕ)
      → n < 2
      → waited ≡ pause n
      → waited + backoff ≡ pause (suc n)
      → Throughout succeeds false 0 (suc n)
      → Throughout interrupted false 1 (suc n)
      → (Throughout succeeds false 0 (suc (suc n))
          → Throughout interrupted false 1 (suc (suc n))
          → Ends (
              attempts posts interrupted left
                (suc (suc n))
                (backoff * 5)
                (waited + backoff)
                (posts (suc n)).status))
      → Ends (attempts posts interrupted (suc left) (suc n) backoff waited last)
  attempts-Ends n left waited backoff last small so_far later failed calm next =
      elim (Bool-cases (interrupted (suc n))) [
        | inl cut ↦
            cut_short n small failed calm cut
              (ground (arith, attempts_cut n left waited backoff last cut))
        | inr on ↦
            let calm' = longer_range interrupted false 1 (suc n) calm on in
            elim (Bool-cases (succeeds (suc n))) [
              | inl good ↦
                  delivered (suc n) (omega arith) failed good calm'
                    (ground (arith, attempts_good n left waited backoff last on good))
              | inr bad ↦
                  rw (attempts_bad n left waited backoff last on bad)
                    (next (longer_range succeeds false 0 (suc n) failed bad) calm')
            ]
      ]

  -- Every delivery ends in one of the three ways, after one to three posts, whatever the receiver
  -- answers and whenever the waits are cut short.
  pub send-Ends : Ends (send posts interrupted retry_base)
  unfolding send attempts
  send-Ends = elim (Bool-cases (succeeds 0)) [
    | inl good ↦
        delivered 0 (omega arith) (empty_range succeeds false 0) good
          (empty_range interrupted false 1) (rw good refl)
    | inr bad ↦ rw bad (
        attempts-Ends 0 1 0 retry_base (posts 0).status (omega arith) refl (omega arith)
          (longer_range succeeds false 0 0 (empty_range succeeds false 0) bad)
          (empty_range interrupted false 1)
          (λ failed calm.
            attempts-Ends 1 0 (0 + retry_base) (retry_base * 5) (posts 1).status (omega arith)
              (omega arith) (omega arith) failed calm
              (λ failed' calm'. exhausted failed' calm' (ground arith))))
  ]
