-- ===== src/JobStore/Consistent.antt =====
-- What holds of a job and its current run between two methods of job_store.py, and that what each
-- method does to the two objects keeps it.
use newtaipei_appraisal_revi.Prelude.{
  ℕ, ◌+◌, ◌≤◌, ◌<◌, ◌≡◌, refl, Bool, true, false, Option, none, some, List, is_some, is_empty,
  no_duplicates, no_duplicates-unique, is_empty-unique, no_duplicates-without, arith, string_eq,
  ◌∙◌, ap, ◌⊎◌, inl, inr,
}
use newtaipei_appraisal_revi.Prelude.Dict.{Dict}
use newtaipei_appraisal_revi.Faults.{Fault, Result-cases, ok, err, value_error, ServiceProblem}
use newtaipei_appraisal_revi.JobContracts.{
  running, succeeded, waiting_for_human, same_status, terminal_status, cancel_pending_status,
  carries_problem, RunReference,
}
use newtaipei_appraisal_revi.JobState.{JobEvent, publish_result, JobPolicy, next_state}
use newtaipei_appraisal_revi.JobStore.Model.{
  Job, Run, ClaimedAttempt, ExpiredLease, ResultReference,
}
use newtaipei_appraisal_revi.JobStore.Read.{facts_of, release}
use newtaipei_appraisal_revi.JobStore.Lease.{
  claim_objects, holds_lease, heartbeat_objects, expire_objects,
}
use newtaipei_appraisal_revi.JobStore.Finish.{
  finish_event, is_publication, finish_objects, commit_if_published, commit_result,
}
use newtaipei_appraisal_revi.JobStore.Manage.{
  cancel_objects, retry_objects, reject_objects, resume_objects,
}

-- The status, the problem, the tasks and the pending cancel agree; the lease is held exactly while
-- the job runs; the counters stay under the policy's ceilings while there is work left.
pub record IsConsistent (p : JobPolicy) (job : Job) (run : Run) : Type 0 where
  pub keyed : run.run_id ≡ job.current_run_id
  pub same_case : run.revision.case_id ≡ job.case_id
  pub problem : is_some job.problem ≡ carries_problem job.status
  pub published : job.status ≡ succeeded → 1 ≤ run.result_version
  pub parked : job.status ≡ waiting_for_human → is_empty job.open_task_ids ≡ false
  pub cancel : job.cancel_requested ≡ true → cancel_pending_status job.status ≡ true
  pub tasks : no_duplicates job.open_task_ids ≡ true
  pub leased : is_some run.lease_owner ≡ same_status job.status running
  pub deadline : is_some run.lease_expires_at ≡ same_status job.status running
  pub attempted : is_some run.attempt_id ≡ same_status job.status running
  pub attempts : job.attempt_count ≤ p.max_attempts
  pub takeovers : job.lease_takeover_count ≤ p.max_lease_takeovers
  pub attempts_left : terminal_status job.status ≡ false → job.attempt_count < p.max_attempts
  pub takeovers_left :
      terminal_status job.status ≡ false → job.lease_takeover_count < p.max_lease_takeovers

module _ (p : JobPolicy) {job job' : Job} {run run' : Run} where
  pub claim_objects-IsConsistent :
      (run_id owner lease_seconds attempt_id now : ℕ)
      → claim_objects p run_id owner lease_seconds attempt_id now job run ≡ ok (job', run')
      → IsConsistent p job run
      → IsConsistent p job' run'
  unfolding claim_objects next_state facts_of
  claim_objects-IsConsistent run_id owner lease_seconds attempt_id now h c = ground arith

  pub heartbeat_objects-IsConsistent :
      (attempt : ClaimedAttempt) (lease_seconds now : ℕ)
      → heartbeat_objects p attempt lease_seconds now job run ≡ ok (job', run')
      → IsConsistent p job run
      → IsConsistent p job' run'
  unfolding heartbeat_objects holds_lease next_state facts_of
  heartbeat_objects-IsConsistent attempt lease_seconds now h c = ground arith

  pub expire_objects-IsConsistent :
      (lease : ExpiredLease) (now : ℕ) {round : Bool}
      → expire_objects p lease now job run ≡ ok (job', run', round)
      → IsConsistent p job run
      → IsConsistent p job' run'
  unfolding expire_objects next_state facts_of release
  expire_objects-IsConsistent lease now h c = ground arith

  pub cancel_objects-IsConsistent :
      (now : ℕ)
      → cancel_objects p now job run ≡ ok (job', run')
      → IsConsistent p job run
      → IsConsistent p job' run'
  unfolding cancel_objects next_state facts_of release
  cancel_objects-IsConsistent now h c = ground arith

  pub retry_objects-IsConsistent :
      (now : ℕ)
      → retry_objects p now job run ≡ ok (job', run')
      → IsConsistent p job run
      → IsConsistent p job' run'
  unfolding retry_objects next_state facts_of
  retry_objects-IsConsistent now h c = ground arith

  pub reject_objects-IsConsistent :
      (task_id now : ℕ)
      → reject_objects p task_id now job run ≡ ok (job', run')
      → IsConsistent p job run
      → IsConsistent p job' run'
  unfolding reject_objects next_state facts_of
  reject_objects-IsConsistent task_id now h c =
      ground (arith, no_duplicates-without task_id job.open_task_ids)

  pub resume_objects-IsConsistent :
      (known : Bool) (r : RunReference) (now : ℕ)
      → resume_objects p known r now job run ≡ ok (job', run')
      → IsConsistent p job run
      → IsConsistent p job' run'
  unfolding resume_objects next_state facts_of
  resume_objects-IsConsistent known r now h c =
      ground (arith, (string_eq.beq_iff r.revision.case_id job.case_id).0)

commit_result-cases :
    (results : Dict (ℕ × ℕ) ResultReference) (run : Run) (attempt : ClaimedAttempt)
    (result : ResultReference)
    → ((e : Fault) × (commit_result results run attempt (some result) ≡ err e))
      ⊎ ((commit_result results run attempt (some result)
            ≡ ok (record run { result_version = result.result_version }))
          × (result.result_version ≡ run.result_version + 1))
unfolding commit_result
commit_result-cases results run attempt result =
    elim (Result-cases (commit_result results run attempt (some result))) [
      | inl e ↦ inl e
      | inr (c, h) ↦
          let same : c ≡ record run { result_version = result.result_version } = ground arith in
          inr (h ∙ ap ok same, ground arith)
    ]

-- A commit changes the result version alone: a publication moves it forward, and any other event
-- leaves it.
pub commit_if_published_run :
    (results : Dict (ℕ × ℕ) ResultReference) (event : JobEvent) (run : Run)
    (attempt : ClaimedAttempt) (result : Option ResultReference)
    → ((e : Fault) × (commit_if_published results event run attempt result ≡ err e))
      ⊎ ((version : ℕ) × (commit_if_published results event run attempt result
            ≡ ok (record run { result_version = version }))
          × (run.result_version ≤ version)
          × (is_publication event ≡ true → 1 ≤ version))
unfolding commit_if_published
commit_if_published_run results publish_result run attempt none = inl (value_error, refl)
commit_if_published_run results publish_result run attempt (some result) =
    elim (commit_result-cases results run attempt result) [
      | inl e ↦ inl e
      | inr (done, next) ↦ inr (result.result_version, done, omega arith, λ _. omega arith)
    ]
commit_if_published_run results event run attempt none =
    inr (run.result_version, refl, omega arith, λ e. cc)
commit_if_published_run results event run attempt (some result) = inl (value_error, refl)

module _ (p : JobPolicy) {job job' : Job} {run run' : Run} where
  pub finish_objects-IsConsistent :
      (results : Dict (ℕ × ℕ) ResultReference) (attempt : ClaimedAttempt) (event : JobEvent)
      (now : ℕ) (problem : Option ServiceProblem) (tasks : List ℕ) (result : Option ResultReference)
      → finish_event event ≡ true
      → finish_objects p results attempt event now problem tasks result job run ≡ ok (job', run')
      → IsConsistent p job run
      → IsConsistent p job' run'
  unfolding finish_objects next_state facts_of release
  finish_objects-IsConsistent results attempt publish_result now problem tasks result e h c =
      ground (
        arith,
        no_duplicates-unique tasks,
        commit_if_published_run results publish_result run attempt result,
      )
  finish_objects-IsConsistent results attempt event now problem tasks result e h c = ground (
    arith,
    no_duplicates-unique tasks,
    is_empty-unique tasks,
    commit_if_published_run results event run attempt result,
  )
