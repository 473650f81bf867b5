-- ===== src/JobStore/Tokens.antt =====
-- Fencing tokens in job_store.py: no later store goes back on one, and an attempt whose token lies
-- behind that of its run is refused by `heartbeat` and `finish`.
use newtaipei_appraisal_revi.Prelude.{
  ℕ, ◌≤◌, ◌<◌, ◌≡◌, subst, true, false, Option, some, List, arith, nat_eq, pair_eq, option_eq, ltb,
}
use newtaipei_appraisal_revi.Prelude.Dict.{Dict, get}
use newtaipei_appraisal_revi.Faults.{err, condition_failed, ServiceProblem}
use newtaipei_appraisal_revi.JobState.{JobEvent, JobPolicy}
use newtaipei_appraisal_revi.JobStore.Model.{Job, Run, ClaimedAttempt, ResultReference, Store}
use newtaipei_appraisal_revi.JobStore.Lease.{holds_lease, heartbeat_objects, heartbeat}
use newtaipei_appraisal_revi.JobStore.Finish.{finish_event, finish_objects, finish}
use newtaipei_appraisal_revi.JobStore.Steps.{Follows}
use newtaipei_appraisal_revi.JobStore.Refusals.{both_found_refused, commit_refused}

-- A stored run, with a token that no later store goes back on.
pub record HasToken (s : Store) (j r token : ℕ) : Type 0 where
  pub job : Job
  pub run : Run
  pub job_stored : get s.jobs j ≡ some job
  pub run_stored : get s.runs (j, r) ≡ some run
  pub reached : token ≤ run.fencing_token

pub HasToken-Follows :
    {s t : Store} {j r token : ℕ} → Follows s t → HasToken s j r token → HasToken t j r token
HasToken-Follows {s} {t} {j} {r} {token} f h =
    let a = f.past.pairs j r h.job h.run h.job_stored h.run_stored in
    record {
      job = a.later_job;
      run = a.later_run;
      job_stored = a.job_stored;
      run_stored = a.run_stored;
      reached = omega (arith, a.evolution.token, h.reached);
    }

stale_lease :
    (attempt : ClaimedAttempt) (job : Job) (run : Run)
    → attempt.fencing_token < run.fencing_token
    → holds_lease attempt job run ≡ false
unfolding holds_lease
stale_lease attempt job run h = ground arith

heartbeat_objects_stale :
    (p : JobPolicy) (attempt : ClaimedAttempt) (lease_seconds now : ℕ) (job : Job) (run : Run)
    → attempt.fencing_token < run.fencing_token
    → heartbeat_objects p attempt lease_seconds now job run ≡ err condition_failed
unfolding heartbeat_objects
heartbeat_objects_stale p attempt lease_seconds now job run h = rw (stale_lease attempt job run h)

finish_objects_stale :
    (p : JobPolicy) (results : Dict (ℕ × ℕ) ResultReference) (attempt : ClaimedAttempt)
    (event : JobEvent) (now : ℕ) (problem : Option ServiceProblem) (tasks : List ℕ)
    (result : Option ResultReference) (job : Job) (run : Run)
    → attempt.fencing_token < run.fencing_token
    → finish_objects p results attempt event now problem tasks result job run ≡ err condition_failed
unfolding finish_objects
finish_objects_stale p results attempt event now problem tasks result job run h =
    rw (stale_lease attempt job run h)

-- The attempt's token lies behind that of its run.
module _ (attempt : ClaimedAttempt) (s : Store) {token : ℕ}
    (stored : HasToken s attempt.job_id attempt.run_id token)
    (behind : attempt.fencing_token < token) where
  stale_run :
      (run : Run)
      → get s.runs (attempt.job_id, attempt.run_id) ≡ some run
      → attempt.fencing_token < run.fencing_token
  stale_run run hr =
      let same : stored.run ≡ run = cc (stored.run_stored, hr) in
      subst (λ (k : Run). attempt.fencing_token < k.fencing_token) same
        (omega (arith, behind, stored.reached))

  pub stale-heartbeat :
      (lease_seconds now : ℕ)
      → 1 ≤ lease_seconds
      → heartbeat attempt lease_seconds now s ≡ (err condition_failed, s)
  unfolding heartbeat
  stale-heartbeat lease_seconds now long =
      let enough : ltb lease_seconds 1 ≡ false = ground arith in
      rw enough (
        both_found_refused (get s.jobs attempt.job_id) (get s.runs (attempt.job_id, attempt.run_id))
          _ s
          (λ job run hj hr. commit_refused _ _ s (
            heartbeat_objects_stale s.policy attempt lease_seconds now job run (stale_run run hr))))

  pub stale-finish :
      (event : JobEvent) (now : ℕ) (problem : Option ServiceProblem) (tasks : List ℕ)
      (result : Option ResultReference)
      → finish_event event ≡ true
      → finish attempt event now problem tasks result s ≡ (err condition_failed, s)
  unfolding finish
  stale-finish event now problem tasks result fine = rw fine (
      both_found_refused (get s.jobs attempt.job_id) (get s.runs (attempt.job_id, attempt.run_id)) _
        s
        (λ job run hj hr. commit_refused _ _ s (
          finish_objects_stale s.policy s.results attempt event now problem tasks result job run
            (stale_run run hr))))
