-- ===== src/RuntimeWorker/Witness.antt =====
-- The theorems on the runtime worker at a store with one submitted job.
use newtaipei_appraisal_revi.Prelude.{
  String, ◌≡◌, refl, true, none, some, List, [], ◌∷◌, nat_eq, pair_eq, string_eq,
}
use newtaipei_appraisal_revi.Prelude.Dict.{get, put}
use newtaipei_appraisal_revi.Faults.{ok, conflict}
use newtaipei_appraisal_revi.JobContracts.{JobStatus, ExecutionStatus, RunReference, honest_status}
use newtaipei_appraisal_revi.JobState.{next_state}
use newtaipei_appraisal_revi.ServiceGuards.{require, has_case, has_permission}
use newtaipei_appraisal_revi.JobStore.Model.{JobRecord, empty_store}
use newtaipei_appraisal_revi.JobStore.Read.{
  read_job, job_record, record_of, enqueue, facts_of, release,
}
use newtaipei_appraisal_revi.JobStore.Lease
use newtaipei_appraisal_revi.JobStore.Finish
use newtaipei_appraisal_revi.JobStore.Submit
use newtaipei_appraisal_revi.JobStore.Manage
use newtaipei_appraisal_revi.JobStore.Schedule.{run_calls}
use newtaipei_appraisal_revi.JobStore.Scenario.{
  same_text, material_of, default_policy, reviewer, submission_of, submitted, after_calls, sound,
  room,
}
use newtaipei_appraisal_revi.ReviewJobs.{ServiceResult, result_reference, status_view, checked_view}
use newtaipei_appraisal_revi.ReviewJobs.Service.{Service, put_body}
use newtaipei_appraisal_revi.ReviewJobs.Caller
use newtaipei_appraisal_revi.ReviewJobs.Worker
use newtaipei_appraisal_revi.ReviewJobs.Worker.{Reading}
use newtaipei_appraisal_revi.ReviewJobs.Operation.{Operation, cancel, perform, perform_all}
use newtaipei_appraisal_revi.Outbox.{DispatchMessage}
use newtaipei_appraisal_revi.RuntimeWorker.{
  Ended, returned, Passage, Turn, published, waiting, watch, attempted, process,
}
use newtaipei_appraisal_revi.RuntimeWorker.Returned.{Returned, process-Told}

abbrev service : Service
service = record { policy = default_policy; store = after_calls submitted; bodies = [] }

abbrev delivered : DispatchMessage
delivered = record {
  job_id = 1;
  run_id = 10;
  outbox_seq = 1;
  dispatch_token = 100;
  enqueued_at = 5;
}

abbrev label_of : ServiceResult → String
label_of body = body.artifact_status

abbrev body : ServiceResult
body = record {
  run_id = 10;
  result_version = 1;
  execution_status = ExecutionStatus.succeeded;
  business_status = none;
  artifact_status = "not_requested";
  artifact_ids = [];
  findings = [];
}

abbrev own_run : RunReference
own_run = record { run_id = 10; revision = (submission_of "m").revision; attempt_id = some 50 }

abbrev one_turn : Turn
one_turn = record { others = []; head = 0; woken = 20; now = 26; last = 20; done = true }

abbrev passage : Ended → List Operation → Passage
passage ended before_finish = record {
  owner = 7;
  attempt_id = 50;
  claimed_at = 6;
  before_read = [];
  started = 0;
  turns = one_turn ∷ [];
  before_acknowledge = [];
  acknowledged_at = 30;
  ended = ended;
  before_finish = before_finish;
  finished_at = 30;
  before_failure = [];
  failed_at = 30;
  reading = record { at = 30; later = 30; token = 101; jitter = λ delay. 0 };
  before_return = [];
}

abbrev publishing_passage : Passage
publishing_passage =
    passage
      (returned
        (record { result = some (record { run = own_run; body = body }); persisted_task_ids = [] }))
      []

abbrev waiting_passage : Passage
waiting_passage =
    passage (returned (record { result = none; persisted_task_ids = 9 ∷ [] }))
      (cancel reviewer 1 28 ∷ [])

abbrev after : Passage → Service
after p = (process same_text material_of label_of 90 delivered p service).1

process-published :
    process same_text material_of label_of 90 delivered publishing_passage service
    ≡ (ok published, after publishing_passage)
unfolding process attempted watch perform_all run_calls empty_store get put job_record record_of
    enqueue facts_of release read_job next_state require has_case has_permission Submit.create_job
    Lease.claim Lease.heartbeat Lease.holds_lease Finish.finish put_body result_reference
    Worker.claim Worker.heartbeat Worker.publish Finish.commit_if_published
process-published = refl

process-Told_example :
    Returned same_text material_of label_of 1 publishing_passage published
      (after publishing_passage)
process-Told_example =
    process-Told same_text material_of label_of service (room submitted) (sound submitted) 90
      delivered publishing_passage process-published

-- A cancellation that comes between the last heartbeat and the end of the attempt cancels the job,
-- and the label is still that of a job that waits.
process-waiting :
    process same_text material_of label_of 90 delivered waiting_passage service
    ≡ (ok waiting, after waiting_passage)
unfolding process attempted watch perform_all perform run_calls empty_store get put job_record
    record_of enqueue facts_of release read_job next_state require has_case has_permission
    Submit.create_job Lease.claim Lease.heartbeat Lease.holds_lease Finish.finish Manage.cancel
    Caller.cancel Worker.claim Worker.heartbeat Worker.wait_for_human checked_view honest_status
    status_view Finish.commit_if_published
process-waiting = refl

abbrev cancelled_record : JobRecord
cancelled_record = record {
  job_id = 1;
  case_id = "C1";
  principal_id = "ann";
  status = JobStatus.cancelled;
  current_run = record { run_id = 10; revision = (submission_of "m").revision; attempt_id = none };
  attempt_count = 0;
  lease_takeover_count = 0;
  result_version = 0;
  cancel_requested = true;
  open_task_ids = [];
  problem = some (record { code = conflict });
}

waiting-read : read_job 1 (after waiting_passage).store ≡ ok (some cancelled_record)
unfolding process attempted watch perform_all perform run_calls empty_store get put job_record
    record_of enqueue facts_of release read_job next_state require has_case has_permission
    Submit.create_job Lease.claim Lease.heartbeat Lease.holds_lease Finish.finish Manage.cancel
    Caller.cancel Worker.claim Worker.heartbeat Worker.wait_for_human checked_view honest_status
    status_view Finish.commit_if_published
waiting-read = refl
