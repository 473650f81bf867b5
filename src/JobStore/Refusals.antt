-- ===== src/JobStore/Refusals.antt =====
-- Calls of job_store.py that are refused, and leave the store as it was.
use newtaipei_appraisal_revi.Prelude.{
  ℕ, ◌≤◌, ◌≡◌, refl, ap, subst, true, false, Option, none, some, arith, nat_eq, pair_eq, string_eq,
  ltb,
}
use newtaipei_appraisal_revi.Prelude.Dict.{get}
use newtaipei_appraisal_revi.Faults.{Result, err, condition_failed}
use newtaipei_appraisal_revi.JobContracts.{JobStatus, cancel_pending_status}
use newtaipei_appraisal_revi.JobState.{JobPolicy, claimable_status, next_state}
use newtaipei_appraisal_revi.JobStore.Model.{Job, Run, Store}
use newtaipei_appraisal_revi.JobStore.Read.{facts_of}
use newtaipei_appraisal_revi.JobStore.Lease.{both_found, commit, claim_objects, claim}
use newtaipei_appraisal_revi.Faults.{Fault}
use newtaipei_appraisal_revi.JobStore.Model.{Method}

pub both_found_refused :
    {A : Type 0} (oj : Option Job) (or : Option Run) (body : Job → Run → Method A) (s : Store)
    → ((job : Job) (run : Run)
        → oj ≡ some job
        → or ≡ some run
        → body job run s ≡ (err condition_failed, s))
    → both_found oj or body s ≡ (err condition_failed, s)
both_found_refused none or body s h = refl
both_found_refused (some job) none body s h = refl
both_found_refused (some job) (some run) body s h = h job run refl refl

pub commit_refused :
    {A B : Type 0} (r : Result A) (body : A → Method B) (s : Store) {e : Fault}
    → r ≡ err e
    → commit r body s ≡ (err e, s)
commit_refused r body s h = ap (λ x. commit x body s) h

pub pending_unclaimable :
    (status : JobStatus) → cancel_pending_status status ≡ true → claimable_status status ≡ false
pending_unclaimable status h = ground arith

-- A job that is not claimable is not claimed.
claim_objects_refused :
    (p : JobPolicy) (run_id owner lease_seconds attempt_id now : ℕ) (job : Job) (run : Run)
    → claimable_status job.status ≡ false
    → claim_objects p run_id owner lease_seconds attempt_id now job run ≡ err condition_failed
unfolding claim_objects next_state facts_of
claim_objects_refused p run_id owner lease_seconds attempt_id now job run h = ground arith

pub claim_refused :
    (job_id run_id owner lease_seconds attempt_id now : ℕ) (s : Store) {job : Job}
    → get s.jobs job_id ≡ some job
    → claimable_status job.status ≡ false
    → 1 ≤ lease_seconds
    → claim job_id run_id owner lease_seconds attempt_id now s ≡ (err condition_failed, s)
unfolding claim
claim_refused job_id run_id owner lease_seconds attempt_id now s {job} stored closed long =
    let enough : ltb lease_seconds 1 ≡ false = ground arith in
    rw enough (
      both_found_refused (get s.jobs job_id) (get s.runs (job_id, run_id)) _ s (λ found run hj hr.
        let same : job ≡ found = cc (stored, hj) in
        commit_refused _ _ s (
          claim_objects_refused s.policy run_id owner lease_seconds attempt_id now found run
            (subst (λ (k : Job). claimable_status k.status ≡ false) same closed))))
