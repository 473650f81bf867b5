-- ===== src/JobStore/Fencing.antt =====
-- Fencing in job_store.py: an attempt that another claim has overtaken never writes again.
use newtaipei_appraisal_revi.Prelude.{
  ℕ, ◌+◌, ◌≤◌, ◌<◌, String, ◌≡◌, refl, sym, ap, subst, inl, inr, true, Option, none, some, List,
  arith, nat_eq, pair_eq, option_eq, ltb, Bool-cases,
}
use newtaipei_appraisal_revi.Prelude.Dict.{get, get-put_self}
use newtaipei_appraisal_revi.Faults.{Result, ok, err, Fault, condition_failed, ServiceProblem}
use newtaipei_appraisal_revi.JobState.{JobEvent, JobPolicy}
use newtaipei_appraisal_revi.ServiceGuards.{ReviewSubmission}
use newtaipei_appraisal_revi.JobStore.Model.{
  Job, Run, ClaimedAttempt, ResultReference, Store, Method,
}
use newtaipei_appraisal_revi.JobStore.Lease.{
  both_found, commit, claim_objects, claim, grant, heartbeat,
}
use newtaipei_appraisal_revi.JobStore.Finish.{finish_event, finish}
use newtaipei_appraisal_revi.JobStore.Sound.{IsSound}
use newtaipei_appraisal_revi.JobStore.Steps.{Follows}
use newtaipei_appraisal_revi.JobStore.Steps.Leases.{claim-Follows}
use newtaipei_appraisal_revi.JobStore.Steps.Submission.{HasRoom}
use newtaipei_appraisal_revi.JobStore.Schedule.{Call, run_calls, run_calls-Follows}
use newtaipei_appraisal_revi.JobStore.Tokens.{
  HasToken, HasToken-Follows, stale-heartbeat, stale-finish,
}

-- What holds of a refusal and of every commit holds of the method.
pub both_found_rule :
    {A : Type 0} (P : Result A × Store → Type 0) (oj : Option Job) (or : Option Run)
    (body : Job → Run → Method A) (s : Store)
    → P (err condition_failed, s)
    → ((job : Job) (run : Run) → oj ≡ some job → or ≡ some run → P (body job run s))
    → P (both_found oj or body s)
both_found_rule P none or body s no_objects h = no_objects
both_found_rule P (some job) none body s no_objects h = no_objects
both_found_rule P (some job) (some run) body s no_objects h = h job run refl refl

pub commit_rule :
    {A B : Type 0} (P : Result B × Store → Type 0) (r : Result A) (body : A → Method B) (s : Store)
    → ((e : Fault) → P (err e, s))
    → ((a : A) → r ≡ ok a → P (body a s))
    → P (commit r body s)
commit_rule P (err e) body s refused h = refused e
commit_rule P (ok a) body s refused h = h a refl

claim_objects_token :
    (p : JobPolicy) (run_id owner lease_seconds attempt_id now : ℕ) (job : Job) (run : Run)
    {objects : Job × Run}
    → claim_objects p run_id owner lease_seconds attempt_id now job run ≡ ok objects
    → objects.1.fencing_token ≡ run.fencing_token + 1
unfolding claim_objects
claim_objects_token p run_id owner lease_seconds attempt_id now job run h = ground arith

-- The token of a claim is one more than the run's, and the run has it afterwards.
pub record Claimed (s s' : Store) (j r : ℕ) (a : ClaimedAttempt) : Type 0 where
  pub identity : (a.job_id ≡ j) × (a.run_id ≡ r)
  before : Run
  before_stored : get s.runs (j, r) ≡ some before
  next : a.fencing_token ≡ before.fencing_token + 1
  after : HasToken s' j r a.fencing_token

abbrev IfClaimed : Store → ℕ → ℕ → Result ClaimedAttempt × Store → Type 0
IfClaimed s j r (ok a, s') = Claimed s s' j r a
IfClaimed s j r (err e, s') = Unit

grant-Claimed :
    (job_id run_id owner lease_seconds attempt_id now : ℕ) (s : Store) (run : Run)
    (objects : Job × Run)
    → get s.runs (job_id, run_id) ≡ some run
    → objects.1.fencing_token ≡ run.fencing_token + 1
    → IfClaimed s job_id run_id (grant job_id run_id owner lease_seconds attempt_id now objects s)
grant-Claimed job_id run_id owner lease_seconds attempt_id now s run objects hr next = record {
  identity = (refl, refl);
  before = run;
  before_stored = hr;
  next = next;
  after = record {
    job = objects.0;
    run = objects.1;
    job_stored = get-put_self s.jobs job_id objects.0;
    run_stored = get-put_self s.runs (job_id, run_id) objects.1;
    reached = omega arith;
  };
}

claim-Claimed :
    (job_id run_id owner lease_seconds attempt_id now : ℕ) (s : Store)
    → IfClaimed s job_id run_id (claim job_id run_id owner lease_seconds attempt_id now s)
unfolding claim
claim-Claimed job_id run_id owner lease_seconds attempt_id now s =
    elim (Bool-cases (ltb lease_seconds 1)) [
      | inl bad ↦ rw bad tt
      | inr fine ↦ rw fine (
          both_found_rule (IfClaimed s job_id run_id) (get s.jobs job_id)
            (get s.runs (job_id, run_id)) _ s tt
            (λ job run hj hr.
              commit_rule (IfClaimed s job_id run_id)
                (claim_objects s.policy run_id owner lease_seconds attempt_id now job run)
                (grant job_id run_id owner lease_seconds attempt_id now) s (λ _. tt)
                (λ objects done.
                  grant-Claimed job_id run_id owner lease_seconds attempt_id now s run objects hr (
                    claim_objects_token s.policy run_id owner lease_seconds attempt_id now job run
                      done))))
    ]

pub claim-ok :
    (job_id run_id owner lease_seconds attempt_id now : ℕ) (s : Store) {a : ClaimedAttempt}
    {s' : Store}
    → claim job_id run_id owner lease_seconds attempt_id now s ≡ (ok a, s')
    → Claimed s s' job_id run_id a
claim-ok job_id run_id owner lease_seconds attempt_id now s h =
    subst (IfClaimed s job_id run_id) h
      (claim-Claimed job_id run_id owner lease_seconds attempt_id now s)

claim-after :
    (job_id run_id owner lease_seconds attempt_id now : ℕ) (s : Store) {a : ClaimedAttempt}
    {s' : Store}
    → IsSound s
    → claim job_id run_id owner lease_seconds attempt_id now s ≡ (ok a, s')
    → Follows s s'
claim-after job_id run_id owner lease_seconds attempt_id now s sound h =
    subst (λ (p : Result ClaimedAttempt × Store). Follows s p.1) h
      (claim-Follows job_id run_id owner lease_seconds attempt_id now s sound)

-- From a sound store whose policy leaves room for an attempt and a takeover: two claims of a run, with
-- any calls between them, give the second attempt the greater token. From then on, after any further
-- calls, a heartbeat of at least one second and any finish event of the first attempt are refused, and
-- the store stays as it was.
pub claim_fences :
    (sha256 : String → String) (content_digest : ReviewSubmission → String)
    (between later : List Call) (job_id run_id : ℕ)
    (owner₁ lease₁ attempt₁ now₁ owner₂ lease₂ attempt₂ now₂ : ℕ) (s : Store)
    {first second : ClaimedAttempt} {s₁ s₂ : Store} (lease_seconds now : ℕ) (event : JobEvent)
    (problem : Option ServiceProblem) (tasks : List ℕ) (result : Option ResultReference)
    → HasRoom s.policy
    → IsSound s
    → claim job_id run_id owner₁ lease₁ attempt₁ now₁ s ≡ (ok first, s₁)
    → claim job_id run_id owner₂ lease₂ attempt₂ now₂ (run_calls sha256 content_digest between s₁)
      ≡ (ok second, s₂)
    → 1 ≤ lease_seconds
    → finish_event event ≡ true
    → (first.fencing_token < second.fencing_token)
      × (heartbeat first lease_seconds now (run_calls sha256 content_digest later s₂)
          ≡ (err condition_failed, run_calls sha256 content_digest later s₂))
      × (finish first event now problem tasks result (run_calls sha256 content_digest later s₂)
          ≡ (err condition_failed, run_calls sha256 content_digest later s₂))
claim_fences sha256 content_digest between later job_id run_id owner₁ lease₁ attempt₁ now₁ owner₂
      lease₂ attempt₂ now₂ s {first} {second} {s₁} {s₂} lease_seconds now event problem tasks result
      room sound h₁ h₂ long fine =
    let a = claim-ok job_id run_id owner₁ lease₁ attempt₁ now₁ s h₁ in
    let here = claim-after job_id run_id owner₁ lease₁ attempt₁ now₁ s sound h₁ in
    let room₁ = subst HasRoom (sym here.past.policy) room in
    let s' = run_calls sha256 content_digest between s₁ in
    let idle = run_calls-Follows sha256 content_digest between s₁ room₁ here.sound in
    let room' = subst HasRoom (sym idle.past.policy) room₁ in
    let b = claim-ok job_id run_id owner₂ lease₂ attempt₂ now₂ s' h₂ in
    let there = claim-after job_id run_id owner₂ lease₂ attempt₂ now₂ s' idle.sound h₂ in
    let room₂ = subst HasRoom (sym there.past.policy) room' in
    let on = run_calls-Follows sha256 content_digest later s₂ room₂ there.sound in
    let kept = HasToken-Follows idle a.after in
    let same : kept.run ≡ b.before = cc (kept.run_stored, b.before_stored) in
    let ahead : first.fencing_token < second.fencing_token =
      behind first second kept.run b.before same kept.reached b.next in
    let held = HasToken-Follows on b.after in
    let stored = at_identity first held a.identity in
    (
      ahead,
      stale-heartbeat first (run_calls sha256 content_digest later s₂) stored ahead lease_seconds
          now long,
      stale-finish first (run_calls sha256 content_digest later s₂) stored ahead event now problem
          tasks result fine,
    )
  where
    behind :
        (first second : ClaimedAttempt) (run before : Run)
        → run ≡ before
        → first.fencing_token ≤ run.fencing_token
        → second.fencing_token ≡ before.fencing_token + 1
        → first.fencing_token < second.fencing_token
    behind first second run before same reached next =
        let e = ap (λ (k : Run). k.fencing_token) same in omega (arith, e, reached, next)

    at_identity :
        {t : Store} (first : ClaimedAttempt) {j r token : ℕ}
        → HasToken t j r token
        → (first.job_id ≡ j) × (first.run_id ≡ r)
        → HasToken t first.job_id first.run_id token
    at_identity {t} first {j} {r} {token} h e =
        subst (λ k. HasToken t first.job_id k token) (sym e.1)
          (subst (λ k. HasToken t k r token) (sym e.0) h)
