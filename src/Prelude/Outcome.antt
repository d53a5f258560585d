-- ===== src/Prelude/Outcome.antt =====
-- The results of the store's methods: a value, or one of the errors that internal/store/store.go
-- declares (with what SQLite reports where a method passes that on as it is).
use mathlib.Core.Bool.{Bool, true, false}
use mathlib.Core.Path.{◌≡◌, refl}
use mathlib.Core.Logic.{◌⊎◌, inl, inr}

pub data StoreError : Type 0 where
  not_found already_exists conflict invalid_value invalid_filter invalid_stage : StoreError
  replay_limit_exceeded constraint_failed other_error : StoreError

-- What a method returns.
pub data Result {ℓ} (A : Type ℓ) : Type ℓ where
  err : StoreError → Result A
  ok : A → Result A

pub ok_inj {ℓ} : {A : Type ℓ} {a b : A} → ok a ≡ ok b → a ≡ b
ok_inj h = cc h

pub Result-cases {ℓ} :
    {A : Type ℓ} (m : Result A) → ((e : StoreError) × (m ≡ err e)) ⊎ ((a : A) × (m ≡ ok a))
Result-cases (ok a) = inr (a, refl)
Result-cases (err e) = inl (e, refl)

-- A test that must hold.
abbrev pub guard : Bool → StoreError → Result (Unit {0})
guard false e = err e
guard true _ = ok tt

infixl 5 ◌>>=◌
-- `if err != nil { return err }`
abbrev pub ◌>>=◌ {κ ℓ} : {A : Type κ} {B : Type ℓ} → Result A → (A → Result B) → Result B
err e >>= _ = err e
ok a >>= next = next a

-- Both steps of a chain that succeeds did.
pub >>=-eq-ok {κ ℓ} :
    {A : Type κ} {B : Type ℓ} (first : Result A) (next : A → Result B) {last : B}
    → (first >>= next) ≡ ok last
    → (x : A) × (first ≡ ok x) × (next x ≡ ok last)
>>=-eq-ok (err _) _ h = cc
>>=-eq-ok (ok x) _ h = (x, refl, h)

infixl 5 ◌>>◌
abbrev pub ◌>>◌ {κ} : {B : Type κ} → Result (Unit {0}) → Result B → Result B
m >> rest = m >>= λ _. rest

pub >>-eq-ok {κ} :
    {B : Type κ} (check : Result (Unit {0})) (rest : Result B) {last : B}
    → (check >> rest) ≡ ok last
    → (check ≡ ok tt) × (rest ≡ ok last)
>>-eq-ok (err _) _ h = cc
>>-eq-ok (ok tt) _ h = (refl, h)
