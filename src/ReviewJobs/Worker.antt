-- ===== src/ReviewJobs/Worker.antt =====
-- The worker's side of `ReviewJobService` in review_jobs.py: claim, heartbeat and the ways to finish.
use newtaipei_appraisal_revi.Prelude.{
  ℕ, ◌+◌, String, Bool, true, false, not, ◌||◌, none, some, List, [], eqb, is_empty, if◌then◌else◌,
}
use newtaipei_appraisal_revi.Faults.{
  ok, err, service_fault, value_error, conflict, ServiceErrorCode,
}
use newtaipei_appraisal_revi.JobContracts.{retryable_failed, same_status, RunReference}
use newtaipei_appraisal_revi.JobState.{
  publish_result, needs_human, retryable_error, permanent_error, cancel_acknowledged,
}
use newtaipei_appraisal_revi.JobState.Policy.{backoff_seconds}
use newtaipei_appraisal_revi.JobStore.Model.{JobRecord, ClaimedAttempt, HeartbeatState}
use newtaipei_appraisal_revi.JobStore.Lease
use newtaipei_appraisal_revi.JobStore.Finish
use newtaipei_appraisal_revi.JobStore.Manage
use newtaipei_appraisal_revi.ReviewJobs.{ServiceResult, result_reference, permanent_code}
use newtaipei_appraisal_revi.ReviewJobs.Service.{Action, and_then, on_store, put_body}

unfoldable pub claim : ℕ → ℕ → ℕ → ℕ → ℕ → Action ClaimedAttempt
claim job_id run_id owner attempt_id now w =
    on_store (Lease.claim job_id run_id owner w.policy.lease_seconds attempt_id now) w

unfoldable pub heartbeat : ClaimedAttempt → ℕ → Action HeartbeatState
heartbeat attempt now w = on_store (Lease.heartbeat attempt w.policy.lease_seconds now) w

-- The body is written first, and then its reference is committed. Neither store suspends, so nothing
-- else runs between the two.
unfoldable pub publish :
    (ServiceResult → String) → ClaimedAttempt → ServiceResult → ℕ → Action JobRecord
publish digest_of attempt result now w =
    if not (eqb result.run_id attempt.run_id)
      || not (eqb result.result_version (attempt.expected_result_version + 1))
    then (err (service_fault conflict), w)
    else and_then (put_body digest_of attempt.run_id result.result_version result w) (λ digest w'.
      on_store
        (Finish.finish attempt publish_result now none []
          (some (result_reference result attempt digest)))
        w')

unfoldable pub wait_for_human : ClaimedAttempt → List ℕ → ℕ → Action JobRecord
wait_for_human attempt task_ids now w =
    if is_empty task_ids
    then (err (service_fault conflict), w)
    else on_store (Finish.finish attempt needs_human now none task_ids none) w

-- What a rescheduling reads: the clock twice, a fresh token, and the random jitter.
pub record Reading : Type 0 where
  pub at : ℕ
  pub later : ℕ
  pub token : ℕ
  pub jitter : ℕ → ℕ

-- `_reschedule`
unfoldable pub reschedule : JobRecord → Reading → Action JobRecord
reschedule r reading w =
    and_then (backoff_seconds w.policy r.attempt_count, w)
      (λ delay w'.
        on_store
          (Manage.schedule_retry r.job_id (reading.at + delay + reading.jitter delay) reading.token
            reading.later)
          w')

abbrev pub same_bool : Bool → Bool → Bool
same_bool true b = b
same_bool false b = not b

-- The attempt is finished, and a retry is scheduled: two calls on the store, which does not suspend.
unfoldable pub fail : ClaimedAttempt → ServiceErrorCode → Bool → ℕ → Reading → Action JobRecord
unfolding reschedule
fail attempt code retryable now reading w =
    if same_bool retryable (permanent_code code)
    then (err value_error, w)
    else and_then
        (on_store
          (Finish.finish attempt (if retryable then retryable_error else permanent_error) now
            (some (record { code = code })) [] none)
          w)
        (λ r w'.
          if not (same_status r.status retryable_failed)
          then (ok r, w')
          else reschedule r reading w')

unfoldable pub acknowledge_cancel : ClaimedAttempt → ℕ → Action JobRecord
acknowledge_cancel attempt now w =
    on_store (Finish.finish attempt cancel_acknowledged now none [] none) w

unfoldable pub resume : ℕ → RunReference → ℕ → ℕ → Action JobRecord
resume job_id run token now w = on_store (Manage.resume_after_human job_id run token now) w
