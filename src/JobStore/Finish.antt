-- ===== src/JobStore/Finish.antt =====
-- `finish`, `_commit_result` and `_close_attempt` of job_store.py.
use newtaipei_appraisal_revi.Prelude.{
  ℕ, ◌+◌, Bool, true, false, not, ◌&&◌, ◌||◌, Option, none, some, List, [], ◌∷◌, eqb, is_some,
  is_empty, unique, if◌then◌else◌, pair_eq, nat_eq,
}
use newtaipei_appraisal_revi.Prelude.Dict.{Dict, get, put}
use newtaipei_appraisal_revi.Faults.{
  Result, ok, err, ◌>>=◌, ◌>>◌, reject_if, condition_failed, value_error, ServiceProblem,
}
use newtaipei_appraisal_revi.JobContracts.{JobStatus, failed, cancelled, same_status}
use newtaipei_appraisal_revi.JobState.{
  JobEvent, JobPolicy, next_state, publish_result, needs_human, retryable_error, permanent_error,
  cancel_acknowledged,
}
use newtaipei_appraisal_revi.JobStore.Model.{
  Job, Run, Attempt, closed_by, ClaimedAttempt, ResultReference, JobRecord, Method,
}
use newtaipei_appraisal_revi.JobStore.Read.{facts_of, release, answer}
use newtaipei_appraisal_revi.JobStore.Lease.{with_objects, commit, holds_lease, cancelled_problem}

-- `event in FINISH_EVENTS`
abbrev pub finish_event : JobEvent → Bool
finish_event publish_result = true
finish_event needs_human = true
finish_event retryable_error = true
finish_event permanent_error = true
finish_event cancel_acknowledged = true
finish_event _ = false

abbrev pub is_publication : JobEvent → Bool
is_publication publish_result = true
is_publication _ = false

abbrev result_stored : Dict (ℕ × ℕ) ResultReference → ResultReference → Bool
result_stored results result = is_some (get results (result.run_id, result.result_version))

-- `_commit_result`: the run with its new version; the reference is stored by `finish`.
unfoldable pub commit_result :
    Dict (ℕ × ℕ) ResultReference → Run → ClaimedAttempt → Option ResultReference → Result Run
commit_result results run attempt none = err value_error
commit_result results run attempt (some result) = do
  reject_if
      (not (eqb result.run_id attempt.run_id)
        || not (eqb result.fencing_token attempt.fencing_token)
        || not (eqb run.result_version attempt.expected_result_version)
        || not (eqb result.result_version (attempt.expected_result_version + 1)))
      condition_failed
  reject_if (result_stored results result) condition_failed
  ok (record run { result_version = result.result_version })

-- Publication commits the result; any other event refuses one.
unfoldable pub commit_if_published :
    Dict (ℕ × ℕ) ResultReference
    → JobEvent
    → Run
    → ClaimedAttempt
    → Option ResultReference
    → Result Run
unfolding commit_result
commit_if_published results event run attempt result =
    if is_publication event
    then commit_result results run attempt result
    else if is_some result
    then err value_error
    else ok run

-- The problem that a finished job carries: none unless it failed or was cancelled.
abbrev finished_problem : JobStatus → Option ServiceProblem → Option ServiceProblem
finished_problem status problem =
    if same_status status cancelled
    then some cancelled_problem
    else if same_status status failed
    then problem
    else none

unfoldable pub finish_objects :
    JobPolicy
    → Dict (ℕ × ℕ) ResultReference
    → ClaimedAttempt
    → JobEvent
    → ℕ
    → Option ServiceProblem
    → List ℕ
    → Option ResultReference
    → Job
    → Run
    → Result (Job × Run)
finish_objects policy results attempt event now problem open_task_ids result job run = do
  reject_if (not (holds_lease attempt job run)) condition_failed
  transition ←
      next_state policy (record (facts_of job) { has_open_tasks = not (is_empty open_task_ids) })
        event
  committed ← commit_if_published results event run attempt result
  reject_if (same_status transition.status failed && not (is_some problem)) value_error
  ok (
    record job {
      attempt_count = job.attempt_count + transition.attempt_delta;
      status = transition.status;
      problem = finished_problem transition.status problem;
      open_task_ids = if same_status transition.status cancelled then [] else unique open_task_ids;
      updated_at = now;
    },
    release (record committed { run_status = transition.status }) transition.release_lease,
  )

-- `_close_attempt`
unfoldable pub close_attempt : ClaimedAttempt → JobEvent → List Attempt → List Attempt
close_attempt attempt event [] = []
close_attempt attempt event (a ∷ rest) =
    (if eqb a.attempt_id attempt.attempt_id then record a { outcome = closed_by event } else a)
    ∷ close_attempt attempt event rest

-- The stored references: a publication adds its own.
unfoldable pub stored_results :
    Dict (ℕ × ℕ) ResultReference → JobEvent → Option ResultReference → Dict (ℕ × ℕ) ResultReference
stored_results results event none = results
stored_results results event (some result) =
    if is_publication event
    then put results (result.run_id, result.result_version) result
    else results

unfoldable pub finish :
    ClaimedAttempt
    → JobEvent
    → ℕ
    → Option ServiceProblem
    → List ℕ
    → Option ResultReference
    → Method JobRecord
unfolding finish_objects
finish attempt event now problem open_task_ids result s =
    if not (finish_event event)
    then (err value_error, s)
    else with_objects attempt.job_id attempt.run_id
        (λ job run.
          commit
            (finish_objects s.policy s.results attempt event now problem open_task_ids result job
              run)
            (λ objects _. answer objects.0 (record s {
              jobs = put s.jobs attempt.job_id objects.0;
              runs = put s.runs (attempt.job_id, attempt.run_id) objects.1;
              results = stored_results s.results event result;
              attempts = close_attempt attempt event s.attempts;
            })))
        s
