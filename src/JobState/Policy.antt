-- ===== src/JobState/Policy.antt =====
-- `JobPolicy` of src/appraisal_review/application/job_state.py: the validator and the backoff.
use native.Mathlib.Nat.{pow-suc, one-le-pow}
use native.Mathlib.Numerals.{add-one}
use newtaipei_appraisal_revi.Prelude.{
  ℕ, zero, suc, sym, ◌∙◌, ◌+◌, ◌-◌, ◌*◌, ◌^◌, ◌≤◌, ◌<◌, min, ◌≡◌, Bool, true, false, not, ltb, leb,
  if◌then◌else◌, arith, Bool-cases, inl, inr,
}
use newtaipei_appraisal_revi.Faults.{Result, ok, err, value_error}
use newtaipei_appraisal_revi.JobState.{JobPolicy}

-- `__post_init__`: `true` where no `ValueError` is raised.
unfoldable pub valid_policy : JobPolicy → Bool
valid_policy p =
    if ltb (min p.lease_seconds (min p.heartbeat_seconds p.backoff_base_seconds)) 1
    then false
    else if ltb (min p.max_attempts p.max_lease_takeovers) 1
    then false
    else if ltb p.lease_seconds (p.heartbeat_seconds * 3)
    then false
    else if leb p.visibility_timeout_seconds p.lease_seconds
    then false
    else not (ltb p.backoff_cap_seconds p.backoff_base_seconds)

-- What a valid policy promises, in words of its own.
pub record IsUsable (p : JobPolicy) : Type 0 where
  pub attempts : 1 ≤ p.max_attempts
  pub takeovers : 1 ≤ p.max_lease_takeovers
  pub base : 1 ≤ p.backoff_base_seconds
  pub cap : p.backoff_base_seconds ≤ p.backoff_cap_seconds
  pub lease : p.heartbeat_seconds * 3 ≤ p.lease_seconds
  pub visibility : p.lease_seconds < p.visibility_timeout_seconds

pub valid_policy-IsUsable : (p : JobPolicy) → valid_policy p ≡ true → IsUsable p
unfolding valid_policy
valid_policy-IsUsable p h = record {
  attempts = ground arith;
  takeovers = ground arith;
  base = ground arith;
  cap = ground arith;
  lease = ground arith;
  visibility = ground arith;
}

-- `self.backoff_base_seconds << shift`, held to the cap
delay_of : JobPolicy → ℕ → ℕ
delay_of p shift = min (p.backoff_base_seconds * 2 ^ shift) p.backoff_cap_seconds

unfoldable pub backoff_seconds : JobPolicy → ℕ → Result ℕ
unfolding delay_of
backoff_seconds p attempt =
    if ltb attempt 1 then err value_error else ok (delay_of p (min (attempt - 1) 32))

delay_of_bounds :
    (p : JobPolicy) (shift : ℕ)
    → p.backoff_base_seconds ≤ p.backoff_cap_seconds
    → (p.backoff_base_seconds ≤ delay_of p shift) × (delay_of p shift ≤ p.backoff_cap_seconds)
unfolding delay_of
delay_of_bounds p shift h =
    let grows : 1 ≤ 2 ^ shift = one-le-pow shift 2 (omega arith) in
    let more : p.backoff_base_seconds ≤ p.backoff_base_seconds * 2 ^ shift = grind arith in
    (omega arith, omega arith)

delay_of-suc :
    (p : JobPolicy) (shift : ℕ)
    → delay_of p (suc shift) ≡ min (2 * delay_of p shift) p.backoff_cap_seconds
unfolding delay_of
delay_of-suc p shift = rw pow-suc (omega arith)

-- Under a valid policy every one-based attempt has a delay, which lies between the base delay and
-- the cap.
pub backoff_bounds :
    (p : JobPolicy) (attempt : ℕ)
    → valid_policy p ≡ true
    → 1 ≤ attempt
    → (d : ℕ) × (backoff_seconds p attempt ≡ ok d)
      × (p.backoff_base_seconds ≤ d)
      × (d ≤ p.backoff_cap_seconds)
unfolding backoff_seconds
backoff_bounds p attempt v h =
    let usable = valid_policy-IsUsable p v in
    let (low, high) = delay_of_bounds p (min (attempt - 1) 32) usable.cap in
    (delay_of p (min (attempt - 1) 32), ground arith, low, high)

backoff_seconds-suc :
    (p : JobPolicy) (k : ℕ) → backoff_seconds p (suc k) ≡ ok (delay_of p (min k 32))
unfolding backoff_seconds
backoff_seconds-suc p k =
    let e : suc k - 1 ≡ k = omega arith in let t : ltb (suc k) 1 ≡ false = ground arith in rw (t, e)

backoff_seconds_zero : (p : JobPolicy) {d : ℕ} → backoff_seconds p 0 ≡ ok d → ⊥
unfolding backoff_seconds
backoff_seconds_zero p h = cc

-- the same shift, or one more
delay_of_step :
    (p : JobPolicy) (k : ℕ)
    → delay_of p (min (suc k) 32) ≡ (
        if leb (suc k) 32
        then min (2 * delay_of p (min k 32)) p.backoff_cap_seconds
        else delay_of p (min k 32))
delay_of_step p k = elim (Bool-cases (leb (suc k) 32)) [
  | inl h ↦
      let next : min (suc k) 32 ≡ suc k = ground arith in
      let now : min k 32 ≡ k = ground arith in rw (h, next, now) (delay_of-suc p k)
  | inr h ↦ let same : min (suc k) 32 ≡ min k 32 = ground arith in rw (h, same)
]

-- The delay of the next attempt is twice the last one, held to the cap, up to the 32nd doubling;
-- from the 33rd attempt on it no longer changes.
pub backoff_doubles :
    (p : JobPolicy) (attempt d : ℕ)
    → backoff_seconds p attempt ≡ ok d
    → backoff_seconds p (attempt + 1)
      ≡ ok (if leb attempt 32 then min (2 * d) p.backoff_cap_seconds else d)
backoff_doubles p zero d h = absurd (backoff_seconds_zero p h)
backoff_doubles p (suc k) d h =
    let here : ok (delay_of p (min k 32)) ≡ ok d = sym (backoff_seconds-suc p k) ∙ h in
    let value : delay_of p (min k 32) ≡ d = cc in
    rw (add-one, backoff_seconds-suc, delay_of_step, value)
