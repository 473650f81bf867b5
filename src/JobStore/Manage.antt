-- ===== src/JobStore/Manage.antt =====
-- What callers and the reconciler do in job_store.py: `cancel`, `schedule_retry`,
-- `reject_human_task` and `resume_after_human`.
use newtaipei_appraisal_revi.Prelude.{
  ℕ, Bool, true, not, ◌&&◌, ◌||◌, Option, none, some, [], eqb, is_some, is_empty, member, without,
  if◌then◌else◌, ◌==◌, pair_eq, nat_eq, string_eq,
}
use newtaipei_appraisal_revi.Prelude.Dict.{get, put}
use newtaipei_appraisal_revi.Faults.{
  Result, ok, err, ◌>>=◌, ◌>>◌, reject_if, condition_failed, key_error, conflict,
}
use newtaipei_appraisal_revi.JobContracts.{
  queued, failed, same_status, RevisionReference, RunReference,
}
use newtaipei_appraisal_revi.JobState.{
  JobPolicy, Transition, next_state, cancel as cancel_event, schedule_retry as schedule_retry_event,
  human_rejected, human_response_committed,
}
use newtaipei_appraisal_revi.JobStore.Model.{Job, Run, JobRecord, Method}
use newtaipei_appraisal_revi.JobStore.Read.{facts_of, release, enqueue, answer}
use newtaipei_appraisal_revi.JobStore.Lease.{commit, as_condition, cancelled_problem}

-- `self._jobs.get(job_id)`, what is checked on the job alone, and then
-- `self._runs[(job_id, job.current_run_id)]`. A `KeyError` there leaves the state as it was; in the
-- source `schedule_retry` and `reject_human_task` would have changed the job object by then. No
-- reachable store lacks the current run of a job.
abbrev pub current_found : {A : Type 0} → Option Run → (Run → Method A) → Method A
current_found none body s = (err key_error, s)
current_found (some run) body s = body run s

abbrev pub job_found : {A : Type 0} → Option Job → (Job → Method A) → Method A
job_found none body s = (err condition_failed, s)
job_found (some job) body s = body job s

abbrev pub with_current : {A B : Type 0} → ℕ → (Job → Result B) → (Job → Run → Method A) → Method A
with_current job_id check body s =
    job_found (get s.jobs job_id)
      (λ job.
        commit (check job)
          (λ _ _. current_found (get s.runs (job_id, job.current_run_id)) (body job) s))
      s

-- Nothing is checked before the run is looked up.
abbrev pub unchecked : Job → Result (Unit {0})
unchecked job = ok tt

unfoldable pub cancel_objects : JobPolicy → ℕ → Job → Run → Result (Job × Run)
cancel_objects policy now job run = do
  transition ← next_state policy (facts_of job) cancel_event
  ok (
      if transition.request_cancel
      then (record job { cancel_requested = true; updated_at = now }, run)
      else (
        record job {
          status = transition.status;
          problem = some cancelled_problem;
          open_task_ids = [];
          updated_at = now;
        },
        release (record run { run_status = transition.status }) transition.release_lease,
      ))

unfoldable pub cancel : ℕ → ℕ → Method JobRecord
unfolding cancel_objects
cancel job_id now s =
    with_current job_id (λ job. next_state s.policy (facts_of job) cancel_event)
      (λ job run. commit (cancel_objects s.policy now job run) (λ objects _.
        answer objects.0 (record s {
          jobs = put s.jobs job_id objects.0;
          runs = put s.runs (job_id, job.current_run_id) objects.1;
        })))
      s

unfoldable pub retry_objects : JobPolicy → ℕ → Job → Run → Result (Job × Run)
retry_objects policy now job run = do
  transition ← as_condition (next_state policy (facts_of job) schedule_retry_event)
  ok (
    record job { status = transition.status; problem = none; updated_at = now },
    record run { run_status = transition.status },
  )

unfoldable pub schedule_retry : ℕ → ℕ → ℕ → ℕ → Method JobRecord
unfolding retry_objects
schedule_retry job_id available_at token now s =
    with_current job_id
      (λ job. as_condition (next_state s.policy (facts_of job) schedule_retry_event))
      (λ job run. commit (retry_objects s.policy now job run) (λ objects _. answer objects.0 (
        enqueue objects.0 job.current_run_id available_at token (record s {
          jobs = put s.jobs job_id objects.0;
          runs = put s.runs (job_id, job.current_run_id) objects.1;
        }))))
      s

-- The transition that a rejection asks for, over the tasks that remain.
rejection : JobPolicy → ℕ → Job → Result Transition
rejection policy task_id job =
    next_state policy
      (record (facts_of job) {
        has_open_tasks = not (is_empty (without task_id job.open_task_ids));
      })
      human_rejected

-- The task is an open task of the current run, and the transition is legal.
unfoldable rejectable : JobPolicy → ℕ → ℕ → Job → Result Transition
unfolding rejection
rejectable policy run_id task_id job = do
  reject_if (not (eqb job.current_run_id run_id) || not (member task_id job.open_task_ids))
      condition_failed
  rejection policy task_id job

unfoldable pub reject_objects : JobPolicy → ℕ → ℕ → Job → Run → Result (Job × Run)
unfolding rejection
reject_objects policy task_id now job run = do
  transition ← rejection policy task_id job
  ok (
    record job {
      open_task_ids = without task_id job.open_task_ids;
      status = transition.status;
      problem =
          if same_status transition.status failed then some (record { code = conflict }) else none;
      updated_at = now;
    },
    record run { run_status = transition.status },
  )

unfoldable pub reject_human_task : ℕ → ℕ → ℕ → ℕ → Method JobRecord
unfolding rejectable reject_objects
reject_human_task job_id run_id task_id now s =
    with_current job_id (rejectable s.policy run_id task_id)
      (λ job run. commit (reject_objects s.policy task_id now job run) (λ objects _.
        answer objects.0 (record s {
          jobs = put s.jobs job_id objects.0;
          runs = put s.runs (job_id, job.current_run_id) objects.1;
        })))
      s

abbrev pub same_revision : RevisionReference → RevisionReference → Bool
same_revision a b =
    a.case_id == b.case_id
    && a.revision_id == b.revision_id
    && a.material_digest == b.material_digest

-- The new run has the documents and the payload of the current one.
unfoldable pub resume_objects : JobPolicy → Bool → RunReference → ℕ → Job → Run → Result (Job × Run)
resume_objects policy known run now job current = do
  reject_if
      (eqb run.run_id current.run_id
        || known
        || same_revision run.revision current.revision
        || not (run.revision.case_id == job.case_id)
        || is_some run.attempt_id)
      condition_failed
  transition ← next_state policy (facts_of job) human_response_committed
  ok (
    record job {
      current_run_id = run.run_id;
      status = transition.status;
      open_task_ids = [];
      updated_at = now;
    },
    record {
      run_id = run.run_id;
      revision = run.revision;
      documents = current.documents;
      payload_digest = current.payload_digest;
      fencing_token = 0;
      result_version = 0;
      lease_owner = none;
      lease_expires_at = none;
      attempt_id = none;
      run_status = queued;
    },
  )

unfoldable pub resume_after_human : ℕ → RunReference → ℕ → ℕ → Method JobRecord
unfolding resume_objects
resume_after_human job_id run token now s =
    with_current job_id unchecked
      (λ job current.
        commit
          (resume_objects s.policy (is_some (get s.runs (job_id, run.run_id))) run now job current)
          (λ objects _. answer objects.0 (
            enqueue objects.0 run.run_id now token (record s {
              jobs = put s.jobs job_id objects.0;
              runs = put s.runs (job_id, run.run_id) objects.1;
            }))))
      s
