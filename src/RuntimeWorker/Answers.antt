-- ===== src/RuntimeWorker/Answers.antt =====
-- What the calls that end an attempt leave to a reader of the job: job_store.py's `finish` and
-- `schedule_retry` under the worker's methods of review_jobs.py.
use newtaipei_appraisal_revi.Prelude.{
  ℕ, ◌≡◌, refl, Bool, true, not, ◌||◌, Option, none, some, List, arith, pair_eq, nat_eq, inl, inr,
  Bool-cases,
}
use newtaipei_appraisal_revi.Prelude.Dict.{Dict, get, get-put_self}
use newtaipei_appraisal_revi.Faults.{Result, ok, err, ServiceProblem}
use newtaipei_appraisal_revi.JobContracts.{
  JobStatus, succeeded, cancelled, waiting_for_human, queued, same_status,
}
use newtaipei_appraisal_revi.JobState.{
  JobEvent, JobPolicy, next_state, publish_result, needs_human, cancel_acknowledged,
  schedule_retry as schedule_retry_event,
}
use newtaipei_appraisal_revi.JobStore.Model.{
  Job, Run, ClaimedAttempt, ResultReference, JobRecord, Store, Method,
}
use newtaipei_appraisal_revi.JobStore.Read.{record_of, record_found, job_record, read_job, facts_of}
use newtaipei_appraisal_revi.JobStore.Finish.{finish_event, finish_objects, finish}
use newtaipei_appraisal_revi.JobStore.Lease.{as_condition}
use newtaipei_appraisal_revi.JobStore.Manage.{
  retry_objects, schedule_retry, job_found, current_found,
}
use newtaipei_appraisal_revi.JobStore.Fencing.{both_found_rule, commit_rule}

-- The statuses that an event which ends an attempt may lead to.
abbrev pub ending : JobEvent → JobStatus → Bool
ending publish_result status = same_status status succeeded
ending needs_human status = same_status status waiting_for_human || same_status status cancelled
ending cancel_acknowledged status = same_status status cancelled
ending _ status = true

finish_objects-ending :
    (p : JobPolicy) (results : Dict (ℕ × ℕ) ResultReference) (attempt : ClaimedAttempt)
    (event : JobEvent) (now : ℕ) (problem : Option ServiceProblem) (ids : List ℕ)
    (result : Option ResultReference) (job : Job) (run : Run) {objects : Job × Run}
    → finish_objects p results attempt event now problem ids result job run ≡ ok objects
    → ending event objects.0.status ≡ true
unfolding finish_objects next_state facts_of
finish_objects-ending p results attempt publish_result now problem ids result job run h =
    ground arith
finish_objects-ending p results attempt needs_human now problem ids result job run h = ground arith
finish_objects-ending p results attempt cancel_acknowledged now problem ids result job run h =
    ground arith
finish_objects-ending p results attempt event now problem ids result job run h = refl

-- The record that a call returns is the one that is read afterwards.
pub record Reported (job_id : ℕ) (event : JobEvent) (r : JobRecord) (s : Store) : Type 0 where
  pub read : read_job job_id s ≡ ok (some r)
  pub ended : ending event r.status ≡ true

abbrev pub IfReported : ℕ → JobEvent → Result JobRecord × Store → Type 0
IfReported job_id event (ok r, s) = Reported job_id event r s
IfReported job_id event (err e, s) = Unit

answered-IfReported :
    (job_id : ℕ) (event : JobEvent) (job : Job) (found : Option Run) (s : Store)
    → get s.jobs job_id ≡ some job
    → get s.runs (job.job_id, job.current_run_id) ≡ found
    → ending event job.status ≡ true
    → IfReported job_id event (record_found job found, s)
unfolding read_job job_record record_of
answered-IfReported job_id event job none s hj hr h = tt
answered-IfReported job_id event job (some run) s hj hr h = record { read = rw (hj, hr); ended = h }

pub finish-IfReported :
    (attempt : ClaimedAttempt) (event : JobEvent) (now : ℕ) (problem : Option ServiceProblem)
    (ids : List ℕ) (result : Option ResultReference) (s : Store)
    → IfReported attempt.job_id event (finish attempt event now problem ids result s)
unfolding finish job_record
finish-IfReported attempt event now problem ids result s =
    elim (Bool-cases (not (finish_event event))) [
      | inl bad ↦ rw bad tt
      | inr fine ↦ rw fine (
          both_found_rule (IfReported attempt.job_id event) (get s.jobs attempt.job_id)
            (get s.runs (attempt.job_id, attempt.run_id)) _ s tt
            (λ job run hj hr.
              commit_rule (IfReported attempt.job_id event)
                (finish_objects s.policy s.results attempt event now problem ids result job run) _ s
                (λ _. tt)
                (λ objects done.
                  answered-IfReported attempt.job_id event objects.0 _ _
                    (get-put_self s.jobs attempt.job_id objects.0) refl
                    (finish_objects-ending s.policy s.results attempt event now problem ids result
                      job run done))))
    ]

-- A retry that is scheduled puts the job in the queue again.
abbrev pub IfQueued : Result JobRecord × Store → Type 0
IfQueued (ok r, s) = r.status ≡ queued
IfQueued (err e, s) = Unit

retry_objects-queued :
    (p : JobPolicy) (now : ℕ) (job : Job) (run : Run) {objects : Job × Run}
    → retry_objects p now job run ≡ ok objects
    → objects.0.status ≡ queued
unfolding retry_objects next_state facts_of
retry_objects-queued p now job run h = ground arith

record_found-queued :
    (job : Job) (found : Option Run) (s : Store)
    → job.status ≡ queued
    → IfQueued (record_found job found, s)
unfolding record_of
record_found-queued job none s h = tt
record_found-queued job (some run) s h = h

current_found-IfQueued :
    (or : Option Run) (body : Run → Method JobRecord) (s : Store)
    → ((run : Run) → IfQueued (body run s))
    → IfQueued (current_found or body s)
current_found-IfQueued none body s h = tt
current_found-IfQueued (some run) body s h = h run

job_found-IfQueued :
    (oj : Option Job) (body : Job → Method JobRecord) (s : Store)
    → ((job : Job) → IfQueued (body job s))
    → IfQueued (job_found oj body s)
job_found-IfQueued none body s h = tt
job_found-IfQueued (some job) body s h = h job

pub schedule_retry-IfQueued :
    (job_id available_at token now : ℕ) (s : Store)
    → IfQueued (schedule_retry job_id available_at token now s)
unfolding schedule_retry job_record
schedule_retry-IfQueued job_id available_at token now s =
    job_found-IfQueued (get s.jobs job_id) _ s (λ job.
      commit_rule IfQueued (as_condition (next_state s.policy (facts_of job) schedule_retry_event))
        _ s (λ _. tt)
        (λ _ _. current_found-IfQueued (get s.runs (job_id, job.current_run_id)) _ s (λ run.
          commit_rule IfQueued (retry_objects s.policy now job run) _ s (λ _. tt)
            (λ objects done.
              record_found-queued objects.0 _ _ (retry_objects-queued s.policy now job run done)))))
