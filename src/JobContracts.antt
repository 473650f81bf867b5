-- ===== src/JobContracts.antt =====
-- src/appraisal_review/domain/job_contracts.py: the durable job statuses, their sets, the wire
-- projection and the status view with its validator.
use newtaipei_appraisal_revi.Prelude.{
  ℕ, String, Bool, true, false, not, ◌&&◌, ◌||◌, Option, none, some, List, ltb, is_some, is_empty,
  no_duplicates, if◌then◌else◌, ◌==◌, string_eq,
}
use newtaipei_appraisal_revi.Faults.{ServiceProblem}

pub data JobStatus : Type 0 where
  queued dispatched running waiting_for_human retryable_failed failed succeeded cancelled :
      JobStatus

pub data ExecutionStatus : Type 0 where
  queued running succeeded failed : ExecutionStatus

abbrev pub same_status : JobStatus → JobStatus → Bool
same_status JobStatus.queued JobStatus.queued = true
same_status dispatched dispatched = true
same_status JobStatus.running JobStatus.running = true
same_status waiting_for_human waiting_for_human = true
same_status retryable_failed retryable_failed = true
same_status JobStatus.failed JobStatus.failed = true
same_status JobStatus.succeeded JobStatus.succeeded = true
same_status cancelled cancelled = true
same_status _ _ = false

-- `status in TERMINAL_STATUSES`
abbrev pub terminal_status : JobStatus → Bool
terminal_status JobStatus.failed = true
terminal_status JobStatus.succeeded = true
terminal_status cancelled = true
terminal_status _ = false

-- `status in LEASE_HOLDING_STATUSES`
abbrev lease_holding_status : JobStatus → Bool
lease_holding_status JobStatus.running = true
lease_holding_status _ = false

-- `status in CANCEL_PENDING_STATUSES`
abbrev pub cancel_pending_status : JobStatus → Bool
cancel_pending_status s = lease_holding_status s || terminal_status s

-- `WIRE_STATUS[status]`
wire_status : JobStatus → ExecutionStatus
wire_status JobStatus.queued = ExecutionStatus.queued
wire_status dispatched = ExecutionStatus.queued
wire_status JobStatus.running = ExecutionStatus.running
wire_status waiting_for_human = ExecutionStatus.succeeded
wire_status retryable_failed = ExecutionStatus.running
wire_status JobStatus.failed = ExecutionStatus.failed
wire_status JobStatus.succeeded = ExecutionStatus.succeeded
wire_status cancelled = ExecutionStatus.failed

-- `RevisionReference` and `RunReference` of domain/service_contracts.py.
pub record RevisionReference : Type 0 where
  pub case_id : String
  pub revision_id : String
  pub material_digest : String

pub record RunReference : Type 0 where
  pub run_id : ℕ
  pub revision : RevisionReference
  pub attempt_id : Option ℕ

pub record JobReference : Type 0 where
  pub case_id : String
  pub job_id : ℕ

pub record JobStatusView : Type 0 where
  pub job : JobReference
  pub job_status : JobStatus
  pub current_run : Option RunReference
  pub attempt_count : ℕ
  pub result_version : ℕ
  pub cancel_requested : Bool
  pub open_task_ids : List ℕ
  pub problem : Option ServiceProblem

-- `job_status in {FAILED, CANCELLED}`
abbrev pub carries_problem : JobStatus → Bool
carries_problem JobStatus.failed = true
carries_problem cancelled = true
carries_problem _ = false

abbrev run_belongs_to : String → Option RunReference → Bool
run_belongs_to case_id none = true
run_belongs_to case_id (some run) = run.revision.case_id == case_id

abbrev same_bool : Bool → Bool → Bool
same_bool true b = b
same_bool false b = not b

-- The validator: it accepts (`true`) where Python raises no `ValueError`.
unfoldable pub honest_status : JobStatusView → Bool
honest_status v =
    if not (same_bool (carries_problem v.job_status) (is_some v.problem))
    then false
    else if same_status v.job_status JobStatus.succeeded && ltb v.result_version 1
    then false
    else if same_status v.job_status waiting_for_human && is_empty v.open_task_ids
    then false
    else if v.cancel_requested && not (cancel_pending_status v.job_status)
    then false
    else if not (no_duplicates v.open_task_ids)
    then false
    else run_belongs_to v.job.case_id v.current_run
