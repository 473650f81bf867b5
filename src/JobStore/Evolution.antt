-- ===== src/JobStore/Evolution.antt =====
-- How a job and one of its runs may change in a method of job_store.py.
use newtaipei_appraisal_revi.Prelude.{ℕ, ◌≤◌, ◌≡◌, Bool, true, Option, List, arith}
use newtaipei_appraisal_revi.Prelude.Dict.{Dict}
use newtaipei_appraisal_revi.Faults.{ok, ServiceProblem}
use newtaipei_appraisal_revi.JobContracts.{terminal_status, RunReference}
use newtaipei_appraisal_revi.JobState.{JobEvent, publish_result, JobPolicy, next_state}
use newtaipei_appraisal_revi.JobStore.Model.{
  Job, Run, ClaimedAttempt, ExpiredLease, ResultReference,
}
use newtaipei_appraisal_revi.JobStore.Read.{facts_of, release}
use newtaipei_appraisal_revi.JobStore.Lease.{claim_objects, heartbeat_objects, expire_objects}
use newtaipei_appraisal_revi.JobStore.Finish.{finish_event, finish_objects}
use newtaipei_appraisal_revi.JobStore.Manage.{
  cancel_objects, retry_objects, reject_objects, resume_objects,
}
use newtaipei_appraisal_revi.JobStore.Consistent.{IsConsistent, commit_if_published_run}

-- Identities stay; counters, tokens and versions never go back; a terminal job keeps its outcome;
-- a job under a pending cancel keeps the flag and its run, and its run is not claimed again.
pub record Evolution (job : Job) (run : Run) (job' : Job) (run' : Run) : Type 0 where
  pub same_job : job'.job_id ≡ job.job_id
  pub same_case : job'.case_id ≡ job.case_id
  pub same_principal : job'.principal_id ≡ job.principal_id
  pub same_run : run'.run_id ≡ run.run_id
  pub same_revision : run'.revision ≡ run.revision
  pub same_documents : run'.documents ≡ run.documents
  pub same_payload : run'.payload_digest ≡ run.payload_digest
  pub attempts : job.attempt_count ≤ job'.attempt_count
  pub takeovers : job.lease_takeover_count ≤ job'.lease_takeover_count
  pub token : run.fencing_token ≤ run'.fencing_token
  pub version : run.result_version ≤ run'.result_version
  pub final :
      terminal_status job.status ≡ true
      → (job'.status ≡ job.status)
        × (job'.problem ≡ job.problem)
        × (job'.current_run_id ≡ job.current_run_id)
        × (job'.attempt_count ≡ job.attempt_count)
        × (job'.lease_takeover_count ≡ job.lease_takeover_count)
        × (job'.cancel_requested ≡ job.cancel_requested)
        × (job'.open_task_ids ≡ job.open_task_ids)
        × (run'.result_version ≡ run.result_version)
        × (run'.fencing_token ≡ run.fencing_token)
  pub notice :
      job.cancel_requested ≡ true
      → (job'.cancel_requested ≡ true)
        × (job'.current_run_id ≡ job.current_run_id)
        × (run'.fencing_token ≡ run.fencing_token)

pub Evolution-refl : (job : Job) (run : Run) → Evolution job run job run
Evolution-refl job run = ground arith

pub Evolution-trans :
    {j₁ j₂ j₃ : Job} {r₁ r₂ r₃ : Run}
    → Evolution j₁ r₁ j₂ r₂
    → Evolution j₂ r₂ j₃ r₃
    → Evolution j₁ r₁ j₃ r₃
Evolution-trans a b = ground arith

-- What a method does to the job holds beside each of its other runs.
pub Evolution-aside :
    {job job' : Job} {run run' : Run} (other : Run)
    → Evolution job run job' run'
    → Evolution job other job' other
Evolution-aside other e = ground arith

module _ (p : JobPolicy) {job job' : Job} {run run' : Run} where
  pub claim_objects-Evolution :
      (run_id owner lease_seconds attempt_id now : ℕ)
      → claim_objects p run_id owner lease_seconds attempt_id now job run ≡ ok (job', run')
      → IsConsistent p job run
      → Evolution job run job' run'
  unfolding claim_objects next_state facts_of
  claim_objects-Evolution run_id owner lease_seconds attempt_id now h c = ground arith

  pub heartbeat_objects-Evolution :
      (attempt : ClaimedAttempt) (lease_seconds now : ℕ)
      → heartbeat_objects p attempt lease_seconds now job run ≡ ok (job', run')
      → Evolution job run job' run'
  unfolding heartbeat_objects next_state facts_of
  heartbeat_objects-Evolution attempt lease_seconds now h = ground arith

  pub expire_objects-Evolution :
      (lease : ExpiredLease) (now : ℕ) {round : Bool}
      → expire_objects p lease now job run ≡ ok (job', run', round)
      → Evolution job run job' run'
  unfolding expire_objects next_state facts_of release
  expire_objects-Evolution lease now h = ground arith

  pub cancel_objects-Evolution :
      (now : ℕ) → cancel_objects p now job run ≡ ok (job', run') → Evolution job run job' run'
  unfolding cancel_objects next_state facts_of release
  cancel_objects-Evolution now h = ground arith

  pub retry_objects-Evolution :
      (now : ℕ)
      → retry_objects p now job run ≡ ok (job', run')
      → IsConsistent p job run
      → Evolution job run job' run'
  unfolding retry_objects next_state facts_of
  retry_objects-Evolution now h c = ground arith

  pub reject_objects-Evolution :
      (task_id now : ℕ)
      → reject_objects p task_id now job run ≡ ok (job', run')
      → Evolution job run job' run'
  unfolding reject_objects next_state facts_of
  reject_objects-Evolution task_id now h = ground arith

  -- The run that was current is left as it is.
  pub resume_objects-Evolution :
      (known : Bool) (r : RunReference) (now : ℕ)
      → resume_objects p known r now job run ≡ ok (job', run')
      → IsConsistent p job run
      → Evolution job run job' run
  unfolding resume_objects next_state facts_of
  resume_objects-Evolution known r now h c = ground arith

  pub finish_objects-Evolution :
      (results : Dict (ℕ × ℕ) ResultReference) (attempt : ClaimedAttempt) (event : JobEvent)
      (now : ℕ) (problem : Option ServiceProblem) (tasks : List ℕ) (result : Option ResultReference)
      → finish_event event ≡ true
      → finish_objects p results attempt event now problem tasks result job run ≡ ok (job', run')
      → Evolution job run job' run'
  unfolding finish_objects next_state facts_of release
  finish_objects-Evolution results attempt publish_result now problem tasks result e h =
      ground (arith, commit_if_published_run results publish_result run attempt result)
  finish_objects-Evolution results attempt event now problem tasks result e h =
      ground (arith, commit_if_published_run results event run attempt result)
