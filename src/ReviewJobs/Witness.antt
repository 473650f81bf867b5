-- ===== src/ReviewJobs/Witness.antt =====
-- The theorems on the review job service at a concrete service.
use newtaipei_appraisal_revi.Prelude.{
  ℕ, String, ◌≡◌, refl, beq_ne, string_eq, none, some, List, [], ◌∷◌,
}
use newtaipei_appraisal_revi.Prelude.Dict.{get, put}
use newtaipei_appraisal_revi.Faults.{ok, err, service_fault, not_found}
use newtaipei_appraisal_revi.JobContracts.{ExecutionStatus, honest_status}
use newtaipei_appraisal_revi.JobState.{next_state}
use newtaipei_appraisal_revi.ServiceGuards.{
  Principal, human, review, require, has_case, has_permission,
}
use newtaipei_appraisal_revi.JobStore.Model.{empty_store}
use newtaipei_appraisal_revi.JobStore.Read.{
  read_job, job_record, record_of, enqueue, facts_of, release,
}
use newtaipei_appraisal_revi.JobStore.Lease
use newtaipei_appraisal_revi.JobStore.Finish
use newtaipei_appraisal_revi.JobStore.Submit
use newtaipei_appraisal_revi.JobStore.Schedule.{Call, create_job, claim, run_calls}
use newtaipei_appraisal_revi.JobStore.Scenario.{
  default_policy, reviewer, submission_of, first_attempt, after_calls, succeeded_record, publishing,
  sound,
}
use newtaipei_appraisal_revi.ReviewJobs.{ServiceResult, status_view, checked_view, result_reference}
use newtaipei_appraisal_revi.ReviewJobs.Service.{Service, put_body}
use newtaipei_appraisal_revi.ReviewJobs.Caller.{status, result, cancel}
use newtaipei_appraisal_revi.ReviewJobs.Worker.{publish}
use newtaipei_appraisal_revi.ReviewJobs.Access.{foreign, hidden_job}
use newtaipei_appraisal_revi.ReviewJobs.Delivery.{publish-result}

abbrev label_of : ServiceResult → String
label_of body = body.artifact_status

abbrev running_calls : List Call
running_calls = create_job reviewer (submission_of "m") 1 10 100 5 ∷ claim 1 10 7 120 50 6 ∷ []

abbrev service_after : List Call → Service
service_after cs = record { policy = default_policy; store = after_calls cs; bodies = [] }

abbrev body : ServiceResult
body = record {
  run_id = 10;
  result_version = 1;
  execution_status = ExecutionStatus.succeeded;
  business_status = none;
  artifact_status = "not_requested";
  artifact_ids = [];
  findings = "f" ∷ [];
}

abbrev outsider : Principal
outsider = record {
  actor = record { actor_id = "bob"; kind = human };
  case_ids = "C1" ∷ [];
  permissions = review ∷ [];
}

abbrev published : Service
published = (publish label_of first_attempt body 7 (service_after running_calls)).1

publish_ok :
    publish label_of first_attempt body 7 (service_after running_calls)
    ≡ (ok succeeded_record, published)
unfolding publish put_body run_calls empty_store get put job_record record_of enqueue facts_of
    release Submit.create_job Lease.claim Lease.holds_lease Finish.finish Finish.commit_if_published
    result_reference next_state require has_case has_permission
publish_ok = refl

publish-result_example : result label_of reviewer 1 published ≡ ok body
unfolding has_case has_permission
publish-result_example =
    publish-result label_of first_attempt body 7 reviewer (service_after running_calls)
      {r = succeeded_record} {w' = published} (sound running_calls) publish_ok refl refl refl

publishing-read : read_job 1 (after_calls publishing) ≡ ok (some succeeded_record)
unfolding run_calls empty_store get put read_job job_record record_of enqueue facts_of release
    Submit.create_job Lease.claim Lease.holds_lease Finish.finish Finish.commit_if_published
    next_state require has_case has_permission
publishing-read = refl

hidden_job_example :
    (status outsider 1 (service_after publishing) ≡ err (service_fault not_found))
    × (result label_of outsider 1 (service_after publishing) ≡ err (service_fault not_found))
    × ((now : ℕ)
        → cancel outsider 1 now (service_after publishing)
          ≡ (err (service_fault not_found), service_after publishing))
hidden_job_example =
    hidden_job label_of outsider 1 (service_after publishing) {found = some succeeded_record}
      publishing-read (foreign succeeded_record (beq_ne "ann" "bob" refl))

status_shown : status reviewer 1 (service_after publishing) ≡ ok (status_view succeeded_record)
unfolding status checked_view honest_status status_view run_calls empty_store get put read_job
    job_record record_of enqueue facts_of release Submit.create_job Lease.claim Lease.holds_lease
    Finish.finish Finish.commit_if_published next_state require has_case has_permission
status_shown = refl
