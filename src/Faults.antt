-- ===== src/Faults.antt =====
-- The exceptions of the service layer and methods that mutate a store and may raise them:
-- ServiceErrorCode (src/appraisal_review/domain/service_contracts.py), ServiceFault
-- (application/service_guards.py) and ConditionFailed (ports/jobs.py).
use newtaipei_appraisal_revi.Prelude.{◌≡◌, refl, ◌⊎◌, inl, inr, Bool, true, false}

pub data ServiceErrorCode : Type 0 where
  unauthorized conflict validation not_found execution capability : ServiceErrorCode

-- What a call may raise. `value_error` and `key_error` are Python's own exceptions.
pub data Fault : Type 0 where
  service_fault : ServiceErrorCode → Fault
  condition_failed value_error key_error : Fault

pub data Result {ℓ} (A : Type ℓ) : Type ℓ where
  ok : A → Result A
  err : Fault → Result A

-- `ServiceProblem(code=...)`: the sanitized problem that a job carries.
pub record ServiceProblem : Type 0 where
  pub code : ServiceErrorCode

pub Result-cases {ℓ} :
    {A : Type ℓ} (r : Result A) → ((e : Fault) × (r ≡ err e)) ⊎ ((a : A) × (r ≡ ok a))
Result-cases (ok a) = inr (a, refl)
Result-cases (err e) = inl (e, refl)

infixl 5 ◌>>=◌ ◌>>◌
abbrev pub ◌>>=◌ {ℓ κ} : {A : Type ℓ} {B : Type κ} → Result A → (A → Result B) → Result B
err fault >>= next = err fault
ok value >>= next = next value

abbrev pub ◌>>◌ {ℓ} : {B : Type ℓ} → Result (Unit {0}) → Result B → Result B
first >> second = first >>= λ _. second

-- `if test: raise e`
abbrev pub reject_if : Bool → Fault → Result (Unit {0})
reject_if true e = err e
reject_if false e = ok tt
