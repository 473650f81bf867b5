-- ===== src/ReviewJobs.antt =====
-- src/appraisal_review/application/review_jobs.py: the service over the job store and the store of
-- result bodies. This file has its values and its projections.
pub mod Service
pub mod Caller
pub mod Worker
pub mod Reconciler
pub mod Operation
pub mod Calls
mod Access
mod Delivery
mod Witness
use newtaipei_appraisal_revi.Prelude.{
  ℕ, String, Bool, true, false, not, ◌||◌, Option, some, List, [], ◌∷◌, is_some, length,
  if◌then◌else◌, ◌==◌, string_eq,
}
use newtaipei_appraisal_revi.Faults.{
  Result, ok, err, value_error, ServiceErrorCode, validation, unauthorized, not_found,
}
use newtaipei_appraisal_revi.JobContracts.{
  JobStatusView, JobReference, RunReference, ExecutionStatus, honest_status,
}
use newtaipei_appraisal_revi.JobStore.Model.{JobRecord, ClaimedAttempt, ResultReference}

-- `code in PERMANENT_CODES`
abbrev pub permanent_code : ServiceErrorCode → Bool
permanent_code validation = true
permanent_code unauthorized = true
permanent_code not_found = true
permanent_code _ = false

-- The fields of a result that the service reads; the findings are only counted.
pub record ServiceResult : Type 0 where
  pub run_id : ℕ
  pub result_version : ℕ
  pub execution_status : ExecutionStatus
  pub business_status : Option String
  pub artifact_status : String
  pub artifact_ids : List ℕ
  pub findings : List String

pub record JobAcceptance : Type 0 where
  pub job : JobReference
  pub run : RunReference

pub record SubmissionOutcome : Type 0 where
  pub created : Bool
  pub status : JobStatusView
  pub acceptance : Option JobAcceptance

unfoldable pub status_view : JobRecord → JobStatusView
status_view r = record {
  job = record { case_id = r.case_id; job_id = r.job_id };
  job_status = r.status;
  current_run = some r.current_run;
  attempt_count = r.attempt_count;
  result_version = r.result_version;
  cancel_requested = r.cancel_requested;
  open_task_ids = r.open_task_ids;
  problem = r.problem;
}

-- The wire model is built with its validator.
unfoldable pub checked_view : JobRecord → Result JobStatusView
checked_view r = if honest_status (status_view r) then ok (status_view r) else err value_error

-- `JobAcceptance.same_case`: `true` where no `ValueError` is raised. The run of a record has no Runtime
-- session, so that test is left out.
unfoldable pub same_case : JobAcceptance → Bool
same_case a =
    if not (a.run.revision.case_id == a.job.case_id) then false else not (is_some a.run.attempt_id)

unfoldable pub result_reference : ServiceResult → ClaimedAttempt → String → ResultReference
result_reference result attempt digest = record {
  run_id = attempt.run_id;
  result_version = result.result_version;
  fencing_token = attempt.fencing_token;
  execution_status = result.execution_status;
  business_status = result.business_status;
  artifact_status = result.artifact_status;
  result_digest = digest;
  artifact_ids = result.artifact_ids;
  finding_count = length result.findings;
}
