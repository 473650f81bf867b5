-- ===== src/ReviewJobs/Operation.antt =====
-- The operations of `ReviewJobService` in review_jobs.py that may change its state, as data.
use newtaipei_appraisal_revi.Prelude.{ℕ, String, Bool, List, [], ◌∷◌}
use newtaipei_appraisal_revi.Faults.{ServiceErrorCode}
use newtaipei_appraisal_revi.JobContracts.{RunReference}
use newtaipei_appraisal_revi.ServiceGuards.{Principal, ReviewSubmission}
use newtaipei_appraisal_revi.JobStore.Model.{ClaimedAttempt, DispatchRecord}
use newtaipei_appraisal_revi.ReviewJobs.{ServiceResult}
use newtaipei_appraisal_revi.Prelude.{pair_eq, nat_eq}
use newtaipei_appraisal_revi.ReviewJobs.Service.{Service}
use newtaipei_appraisal_revi.ReviewJobs.Caller
use newtaipei_appraisal_revi.ReviewJobs.Worker
use newtaipei_appraisal_revi.ReviewJobs.Worker.{Reading}
use newtaipei_appraisal_revi.ReviewJobs.Reconciler

-- One operation of the service, with the clock, the identifiers and the jitter that it reads.
pub data Operation : Type 0 where
  submit : Principal → ReviewSubmission → ℕ → ℕ → ℕ → ℕ → Operation
  cancel : Principal → ℕ → ℕ → Operation
  claim : ℕ → ℕ → ℕ → ℕ → ℕ → Operation
  heartbeat : ClaimedAttempt → ℕ → Operation
  publish : ClaimedAttempt → ServiceResult → ℕ → Operation
  wait_for_human : ClaimedAttempt → List ℕ → ℕ → Operation
  fail : ClaimedAttempt → ServiceErrorCode → Bool → ℕ → Reading → Operation
  acknowledge_cancel : ClaimedAttempt → ℕ → Operation
  resume : ℕ → RunReference → ℕ → ℕ → Operation
  confirm_dispatch : DispatchRecord → ℕ → Operation
  defer_dispatch : DispatchRecord → ℕ → (ℕ → ℕ) → Operation
  reclaim_expired_leases : ℕ → ℕ → (ℕ → ℕ) → (ℕ → ℕ) → Operation
  recover_stranded_retryables : ℕ → ℕ → (ℕ → Reading) → Operation
  recover_retryable : ℕ → Reading → Operation

module _ (sha256 : String → String) (content_digest : ReviewSubmission → String)
    (digest_of : ServiceResult → String) where
  -- The state after an operation, whether it returns or raises.
  unfoldable pub perform : Operation → Service → Service
  perform (submit principal submission job_id run_id token now) w =
      (Caller.submit sha256 content_digest principal submission job_id run_id token now w).1
  perform (cancel principal job_id now) w = (Caller.cancel principal job_id now w).1
  perform (claim job_id run_id owner attempt_id now) w =
      (Worker.claim job_id run_id owner attempt_id now w).1
  perform (heartbeat attempt now) w = (Worker.heartbeat attempt now w).1
  perform (publish attempt result now) w = (Worker.publish digest_of attempt result now w).1
  perform (wait_for_human attempt task_ids now) w = (Worker.wait_for_human attempt task_ids now w).1
  perform (fail attempt code retryable now reading) w =
      (Worker.fail attempt code retryable now reading w).1
  perform (acknowledge_cancel attempt now) w = (Worker.acknowledge_cancel attempt now w).1
  perform (resume job_id run token now) w = (Worker.resume job_id run token now w).1
  perform (confirm_dispatch round now) w = (Reconciler.confirm_dispatch round now w).1
  perform (defer_dispatch round now jitter) w = (Reconciler.defer_dispatch round now jitter w).1
  perform (reclaim_expired_leases limit start token now) w =
      (Reconciler.reclaim_expired_leases limit start token now w).1
  perform (recover_stranded_retryables limit now readings) w =
      (Reconciler.recover_stranded_retryables limit now readings w).1
  perform (recover_retryable job_id reading) w = (Reconciler.recover_retryable job_id reading w).1

  -- What others do, in the order in which they do it.
  unfoldable pub perform_all : List Operation → Service → Service
  perform_all [] w = w
  perform_all (o ∷ os) w = perform_all os (perform o w)
