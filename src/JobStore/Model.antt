-- ===== src/JobStore/Model.antt =====
-- The state of src/appraisal_review/adapters/local/job_store.py, with the value types of
-- ports/jobs.py: jobs, runs, outbox entries, attempts, idempotency records and result references.
use newtaipei_appraisal_revi.Prelude.{ℕ, String, Bool, Option, List, []}
use newtaipei_appraisal_revi.Prelude.Dict.{Dict}
use newtaipei_appraisal_revi.Faults.{Result, ServiceProblem}
use newtaipei_appraisal_revi.JobContracts.{
  JobStatus, ExecutionStatus, RevisionReference, RunReference,
}
use newtaipei_appraisal_revi.JobState.{JobPolicy, JobEvent}
use newtaipei_appraisal_revi.ServiceGuards.{DocumentReference, IdempotencyRecord}

pub record Job : Type 0 where
  pub job_id : ℕ
  pub case_id : String
  pub principal_id : String
  pub status : JobStatus
  pub current_run_id : ℕ
  pub attempt_count : ℕ
  pub lease_takeover_count : ℕ
  pub cancel_requested : Bool
  pub open_task_ids : List ℕ
  pub problem : Option ServiceProblem
  pub outbox_seq : ℕ
  pub created_at : ℕ
  pub updated_at : ℕ

pub record Run : Type 0 where
  pub run_id : ℕ
  pub revision : RevisionReference
  pub documents : List DocumentReference
  pub payload_digest : String
  pub fencing_token : ℕ
  pub result_version : ℕ
  pub lease_owner : Option ℕ
  pub lease_expires_at : Option ℕ
  pub attempt_id : Option ℕ
  pub run_status : JobStatus

pub data DispatchState : Type 0 where
  pending sent abandoned : DispatchState

pub record Outbox : Type 0 where
  pub job_id : ℕ
  pub run_id : ℕ
  pub outbox_seq : ℕ
  pub dispatch_token : ℕ
  pub available_at : ℕ
  pub dispatch_attempts : ℕ
  pub dispatch_state : DispatchState

-- `outcome`: "running", or the value of the event that finished the attempt.
pub data Outcome : Type 0 where
  in_progress : Outcome
  closed_by : JobEvent → Outcome

pub record Attempt : Type 0 where
  pub job_id : ℕ
  pub run_id : ℕ
  pub attempt_id : ℕ
  pub fencing_token : ℕ
  pub owner : ℕ
  pub claimed_at : ℕ
  pub outcome : Outcome

-- ports/jobs.py
pub record JobRecord : Type 0 where
  pub job_id : ℕ
  pub case_id : String
  pub principal_id : String
  pub status : JobStatus
  pub current_run : RunReference
  pub attempt_count : ℕ
  pub lease_takeover_count : ℕ
  pub result_version : ℕ
  pub cancel_requested : Bool
  pub open_task_ids : List ℕ
  pub problem : Option ServiceProblem

pub record ClaimedAttempt : Type 0 where
  pub job_id : ℕ
  pub run_id : ℕ
  pub attempt_id : ℕ
  pub owner : ℕ
  pub fencing_token : ℕ
  pub expected_result_version : ℕ
  pub lease_expires_at : ℕ

pub record HeartbeatState : Type 0 where
  pub lease_expires_at : ℕ
  pub cancel_requested : Bool

pub record DispatchRecord : Type 0 where
  pub job_id : ℕ
  pub run_id : ℕ
  pub outbox_seq : ℕ
  pub dispatch_token : ℕ
  pub available_at : ℕ
  pub dispatch_attempts : ℕ

pub record ExpiredLease : Type 0 where
  pub job_id : ℕ
  pub run_id : ℕ
  pub fencing_token : ℕ
  pub lease_expires_at : ℕ

-- The business and artifact labels are carried and never inspected.
pub record ResultReference : Type 0 where
  pub run_id : ℕ
  pub result_version : ℕ
  pub fencing_token : ℕ
  pub execution_status : ExecutionStatus
  pub business_status : Option String
  pub artifact_status : String
  pub result_digest : String
  pub artifact_ids : List ℕ
  pub finding_count : ℕ

pub record Store : Type 0 where
  pub policy : JobPolicy
  pub jobs : Dict ℕ Job
  pub runs : Dict (ℕ × ℕ) Run
  pub outbox : Dict (ℕ × ℕ) Outbox
  pub attempts : List Attempt
  pub idempotency : Dict String IdempotencyRecord
  pub results : Dict (ℕ × ℕ) ResultReference

-- `InMemoryJobStore(policy=policy)`
unfoldable pub empty_store : JobPolicy → Store
empty_store p = record {
  policy = p;
  jobs = [];
  runs = [];
  outbox = [];
  attempts = [];
  idempotency = [];
  results = [];
}

-- A method of the store: its outcome, and the state that it leaves, also where it raises.
abbrev pub Method : Type 0 → Type 0
Method A = Store → Result A × Store
