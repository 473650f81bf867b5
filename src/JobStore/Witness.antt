-- ===== src/JobStore/Witness.antt =====
-- The theorems on the store of job_store.py at concrete stores.
use newtaipei_appraisal_revi.Prelude.{
  ◌≤◌, ◌<◌, ◌≡◌, ◌≢◌, ◌⊎◌, beq_ne, string_eq, refl, true, false, Option, none, some, List, [], ◌∷◌,
  arith,
}
use newtaipei_appraisal_revi.Faults.{ok, err, service_fault, condition_failed, conflict}
use newtaipei_appraisal_revi.JobContracts.{
  JobStatus, honest_status, terminal_status, cancel_pending_status,
}
use newtaipei_appraisal_revi.JobState.{publish_result, next_state}
use newtaipei_appraisal_revi.ServiceGuards.{
  review, require, submission_digest, has_case, has_permission,
}
use newtaipei_appraisal_revi.ReviewJobs.{status_view}
use newtaipei_appraisal_revi.JobStore.Model.{JobRecord, Store, empty_store}
use newtaipei_appraisal_revi.JobStore.Read.{
  read_job, read_result_reference, job_record, record_of, enqueue, facts_of, release,
}
use newtaipei_appraisal_revi.Prelude.Dict.{get, put}
use newtaipei_appraisal_revi.JobStore.Manage
use newtaipei_appraisal_revi.JobStore.Lease
use newtaipei_appraisal_revi.JobStore.Finish
use newtaipei_appraisal_revi.JobStore.Submit
use newtaipei_appraisal_revi.JobStore.Sound.{IsSound}
use newtaipei_appraisal_revi.JobStore.Schedule.{
  Call, create_job, claim, expire_lease, cancel, run_calls, run_calls-IsSound, empty_store-IsSound,
}
use newtaipei_appraisal_revi.JobStore.Guarantees.{read_job_total, status_view-honest}
use newtaipei_appraisal_revi.JobStore.Finality.{
  terminal-read_job, cancel_requested-kept, cancel_requested-claim,
}
use newtaipei_appraisal_revi.JobStore.Fencing.{claim_fences}
use newtaipei_appraisal_revi.JobStore.Replays.{create_job-once, create_job-conflict}
use newtaipei_appraisal_revi.JobStore.Promises.{read_result_reference-kept, read_job_bounds}
use newtaipei_appraisal_revi.JobStore.Scenario.{
  same_text, material_of, default_policy, reviewer, submission_of, first_attempt, second_attempt,
  published, after_calls, submitted, publishing, cancelling, record_with, succeeded_record,
  noticed_record, sound, room, empty_room, default_policy-valid,
}

publishing-read : read_job 1 (after_calls publishing) ≡ ok (some succeeded_record)
unfolding run_calls empty_store get put read_job job_record record_of read_result_reference enqueue
    facts_of release Submit.create_job Lease.claim Lease.expire_lease Lease.holds_lease
    Finish.finish Finish.commit_if_published Manage.cancel next_state require has_case
    has_permission
publishing-read = refl

cancelling-read : read_job 1 (after_calls cancelling) ≡ ok (some noticed_record)
unfolding run_calls empty_store get put read_job job_record record_of read_result_reference enqueue
    facts_of release Submit.create_job Lease.claim Lease.expire_lease Lease.holds_lease
    Finish.finish Finish.commit_if_published Manage.cancel next_state require has_case
    has_permission
cancelling-read = refl

read_job_total_example : (o : Option JobRecord) × (read_job 1 (after_calls publishing) ≡ ok o)
read_job_total_example =
    read_job_total same_text material_of default_policy publishing 1 default_policy-valid

status_view-honest_example : honest_status (status_view succeeded_record) ≡ true
status_view-honest_example =
    status_view-honest same_text material_of default_policy publishing 1 {r = succeeded_record}
      default_policy-valid publishing-read

run_calls-IsSound_example : IsSound (after_calls cancelling)
run_calls-IsSound_example =
    run_calls-IsSound same_text material_of default_policy cancelling default_policy-valid

abbrev more_calls : List Call
more_calls = cancel 1 20 ∷ claim 1 10 9 120 52 21 ∷ []

terminal-read_job_example :
    read_job 1 (run_calls same_text material_of more_calls (after_calls publishing))
    ≡ ok (some succeeded_record)
terminal-read_job_example =
    terminal-read_job same_text material_of more_calls 1 (after_calls publishing)
      {r = succeeded_record} (room publishing) (sound publishing) publishing-read refl

cancel_requested-kept_example :
    (r' : JobRecord) × (read_job 1
        (run_calls same_text material_of more_calls (after_calls cancelling))
      ≡ ok (some r'))
    × (r'.cancel_requested ≡ true)
    × (r'.current_run.run_id ≡ 10)
    × (cancel_pending_status r'.status ≡ true)
cancel_requested-kept_example =
    cancel_requested-kept same_text material_of more_calls 1 (after_calls cancelling)
      {r = noticed_record} (room cancelling) (sound cancelling) cancelling-read refl

cancel_requested-claim_example :
    Lease.claim 1 10 9 120 53 30
      (run_calls same_text material_of more_calls (after_calls cancelling))
    ≡ (err condition_failed, run_calls same_text material_of more_calls (after_calls cancelling))
cancel_requested-claim_example =
    cancel_requested-claim same_text material_of more_calls 1 (after_calls cancelling)
      {r = noticed_record} (room cancelling) (sound cancelling) cancelling-read 10 9 120 53 30 refl
      (omega arith)

publishing-reference : read_result_reference 10 1 (after_calls publishing) ≡ some published
unfolding run_calls empty_store get put read_job job_record record_of read_result_reference enqueue
    facts_of release Submit.create_job Lease.claim Lease.expire_lease Lease.holds_lease
    Finish.finish Finish.commit_if_published Manage.cancel next_state require has_case
    has_permission Finish.stored_results
publishing-reference = refl

read_result_reference-kept_example :
    read_result_reference 10 1 (run_calls same_text material_of more_calls (after_calls publishing))
    ≡ some published
read_result_reference-kept_example =
    read_result_reference-kept same_text material_of more_calls (after_calls publishing)
      (room publishing) (sound publishing) 10 1 {reference = published} publishing-reference

read_job_bounds_example :
    (0 ≤ 5) × (0 ≤ 3) × ((terminal_status JobStatus.succeeded ≡ true) ⊎ ((0 < 5) × (0 < 3)))
unfolding empty_store
read_job_bounds_example =
    read_job_bounds same_text material_of publishing (empty_store default_policy) empty_room
      (empty_store-IsSound same_text material_of default_policy) 1 {r = succeeded_record}
      publishing-read

abbrev reclaiming : List Call
reclaiming =
    expire_lease (record { job_id = 1; run_id = 10; fencing_token = 1; lease_expires_at = 126 }) 101
      200
    ∷ []

first_claim :
    Lease.claim 1 10 7 120 50 6 (after_calls submitted)
    ≡ (ok first_attempt, (Lease.claim 1 10 7 120 50 6 (after_calls submitted)).1)
unfolding run_calls empty_store get put read_job job_record record_of read_result_reference enqueue
    facts_of release Submit.create_job Lease.claim Lease.expire_lease Lease.holds_lease
    Finish.finish Finish.commit_if_published Manage.cancel next_state require has_case
    has_permission
first_claim = refl

abbrev claimed : Store
claimed = (Lease.claim 1 10 7 120 50 6 (after_calls submitted)).1

abbrev reclaimed : Store
reclaimed = run_calls same_text material_of reclaiming claimed

abbrev claimed_again : Store
claimed_again = (Lease.claim 1 10 8 120 51 201 reclaimed).1

second_claim : Lease.claim 1 10 8 120 51 201 reclaimed ≡ (ok second_attempt, claimed_again)
unfolding run_calls empty_store get put read_job job_record record_of read_result_reference enqueue
    facts_of release Submit.create_job Lease.claim Lease.expire_lease Lease.holds_lease
    Finish.finish Finish.commit_if_published Manage.cancel next_state require has_case
    has_permission
second_claim = refl

claim_fences_example :
    (first_attempt.fencing_token < second_attempt.fencing_token)
    × (Lease.heartbeat first_attempt 120 300 (run_calls same_text material_of [] claimed_again)
        ≡ (err condition_failed, run_calls same_text material_of [] claimed_again))
    × (Finish.finish first_attempt publish_result 300 none []
          (some published)
          (run_calls same_text material_of [] claimed_again)
        ≡ (err condition_failed, run_calls same_text material_of [] claimed_again))
claim_fences_example =
    claim_fences same_text material_of reclaiming [] 1 10 7 120 50 6 8 120 51 201
      (after_calls submitted) {first = first_attempt} {second = second_attempt} {s₁ = claimed}
      {s₂ = claimed_again} 120 300 publish_result none [] (some published) (room submitted)
      (sound submitted) first_claim second_claim (omega arith) refl

abbrev created_record : JobRecord
created_record = record_with JobStatus.queued none 0 false

abbrev created : Store
created =
    (Submit.create_job same_text material_of reviewer (submission_of "m") 1 10 100 5
      (empty_store default_policy)).1

created_first :
    Submit.create_job same_text material_of reviewer
      (submission_of "m")
      1
      10
      100
      5
      (empty_store default_policy)
    ≡ (ok (created_record, true), created)
unfolding run_calls empty_store get put read_job job_record record_of read_result_reference enqueue
    facts_of release Submit.create_job Lease.claim Lease.expire_lease Lease.holds_lease
    Finish.finish Finish.commit_if_published Manage.cancel next_state require has_case
    has_permission
created_first = refl

allowed : require reviewer "C1" review ≡ ok tt
unfolding require has_case has_permission
allowed = refl

create_job-once_example :
    (Submit.create_job same_text material_of reviewer
      (submission_of "n")
      2
      20
      200
      9
      (run_calls same_text material_of more_calls created)).1
    ≡ run_calls same_text material_of more_calls created
create_job-once_example =
    create_job-once same_text material_of more_calls reviewer reviewer (submission_of "m")
      (submission_of "n") 1 10 100 5 2 20 200 9 (empty_store default_policy) {r = created_record}
      {s₁ = created} empty_room (empty_store-IsSound same_text material_of default_policy)
      created_first refl refl

other_payload :
    submission_digest material_of (submission_of "m")
    ≢ submission_digest material_of (submission_of "n")
unfolding submission_digest
other_payload = beq_ne "m" "n" refl

create_job-conflict_example :
    (Submit.create_job same_text material_of reviewer
      (submission_of "n")
      2
      20
      200
      9
      (run_calls same_text material_of more_calls created)).0
    ≡ err (service_fault conflict)
create_job-conflict_example =
    create_job-conflict same_text material_of more_calls reviewer reviewer (submission_of "m")
      (submission_of "n") 1 10 100 5 2 20 200 9 (empty_store default_policy) {r = created_record}
      {s₁ = created} empty_room (empty_store-IsSound same_text material_of default_policy)
      created_first refl refl allowed other_payload

abbrev claimed_store : Store
claimed_store =
    after_calls (create_job reviewer (submission_of "m") 1 10 100 5 ∷ claim 1 10 7 120 50 6 ∷ [])

abbrev published_store : Store
published_store =
    (Finish.finish first_attempt publish_result 7 none [] (some published) claimed_store).1

finish_ok :
    Finish.finish first_attempt publish_result 7 none [] (some published) claimed_store
    ≡ (ok succeeded_record, published_store)
unfolding run_calls empty_store get put job_record record_of enqueue facts_of release
    Submit.create_job Lease.claim Lease.holds_lease Finish.finish Finish.commit_if_published
    next_state require has_case has_permission
finish_ok = refl
