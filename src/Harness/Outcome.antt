-- ===== src/Harness/Outcome.antt =====
-- How a step of a scenario ends: with a value, with an exception, or with the rounds of the clock's
-- loop used up.
use blockchain_application.Prelude.{◌≡◌, refl, Bool, true, false, Option, none, some, arith}

pub data Failure : Type 0 where
  -- `AssertionError`, by what its message says
  safety_violation liveness_violation determinism_violation test_ineffective : Failure
  -- `TimeoutError` of `run_until_height`
  liveness_failure : Failure
  -- `RecursionError`
  too_deep : Failure
  -- `StopIteration` of `next` or `IndexError` of `sorted_ids[0]`; `ValueError` of `max`; `IndexError`
  -- of `ledger[-1]`
  no_nodes nothing_to_compare no_block : Failure

pub data Outcome {ℓ} (A : Type ℓ) : Type ℓ where
  done : A → Outcome A
  failed : Failure → Outcome A
  unfinished : Outcome A

infixl 5 ◌>>=◌ ◌>>◌
abbrev pub ◌>>=◌ {ℓ κ} : {A : Type ℓ} {B : Type κ} → Outcome A → (A → Outcome B) → Outcome B
done a >>= f = f a
failed e >>= f = failed e
unfinished >>= f = unfinished

abbrev pub ◌>>◌ {κ} : {B : Type κ} → Outcome (Unit {0}) → Outcome B → Outcome B
m >> k = m >>= λ _. k

-- `assert`
abbrev pub check : Bool → Failure → Outcome (Unit {0})
check true e = done tt
check false e = failed e

abbrev pub present {ℓ} : {A : Type ℓ} → Option A → Failure → Outcome A
present none e = failed e
present (some a) e = done a

-- If there is a result, it has the property.
abbrev pub Results {ℓ κ} : {A : Type ℓ} → (A → Type κ) → Outcome A → Type κ
Results Q (done a) = Q a
Results Q (failed e) = Unit
Results Q unfinished = Unit

pub Results-bind {ℓ κ} :
    {A B : Type ℓ} (Q : A → Type κ) (R : B → Type κ) (x : Outcome A) (f : A → Outcome B)
    → Results Q x
    → ((a : A) → Q a → Results R (f a))
    → Results R (x >>= f)
Results-bind Q R (done a) f p k = k a p
Results-bind Q R (failed e) f p k = tt
Results-bind Q R unfinished f p k = tt

-- What a result of two steps rests on.
pub >>=-eq-done {ℓ κ} :
    {A : Type ℓ} {B : Type κ} (x : Outcome A) (f : A → Outcome B) {b : B}
    → (x >>= f) ≡ done b
    → (a : A) × (x ≡ done a) × (f a ≡ done b)
>>=-eq-done (done a) f e = (a, refl, e)
>>=-eq-done (failed r) f e = absurd (ground arith)
>>=-eq-done unfinished f e = absurd (ground arith)

pub present-eq-done {ℓ κ} :
    {A : Type ℓ} {B : Type κ} (o : Option A) (r : Failure) (f : A → Outcome B) {b : B}
    → (present o r >>= f) ≡ done b
    → (a : A) × (o ≡ some a) × (f a ≡ done b)
present-eq-done none r f e = absurd (ground arith)
present-eq-done (some a) r f e = (a, refl, e)
