-- ===== src/JobStore/Promises.antt =====
-- What the results and the records of job_store.py promise, whatever calls are made.
use newtaipei_appraisal_revi.Prelude.{
  true, ℕ, ◌≤◌, ◌<◌, String, ◌≡◌, ◌⊎◌, inl, inr, Bool-cases, subst, some, List, arith,
}
use newtaipei_appraisal_revi.Faults.{ok}
use newtaipei_appraisal_revi.JobContracts.{terminal_status}
use newtaipei_appraisal_revi.JobState.{JobPolicy}
use newtaipei_appraisal_revi.ServiceGuards.{ReviewSubmission}
use newtaipei_appraisal_revi.JobStore.Model.{Job, Run, JobRecord, ResultReference, Store}
use newtaipei_appraisal_revi.JobStore.Read.{record_of, read_job, read_result_reference}
use newtaipei_appraisal_revi.JobStore.Consistent.{IsConsistent}
use newtaipei_appraisal_revi.JobStore.Sound.{IsSound}
use newtaipei_appraisal_revi.JobStore.Steps.Submission.{HasRoom}
use newtaipei_appraisal_revi.JobStore.Schedule.{Call, run_calls, run_calls-Follows}
use newtaipei_appraisal_revi.JobStore.Guarantees.{read_job-Reads}

record_bounds :
    (p : JobPolicy) (job : Job) (run : Run) (r : JobRecord)
    → IsConsistent p job run
    → r ≡ record_of job run
    → (r.attempt_count ≤ p.max_attempts)
      × (r.lease_takeover_count ≤ p.max_lease_takeovers)
      × ((terminal_status r.status ≡ true)
          ⊎ ((r.attempt_count < p.max_attempts) × (r.lease_takeover_count < p.max_lease_takeovers)))
unfolding record_of
record_bounds p job run r c e = (
  ground arith,
  ground arith,
  elim (Bool-cases (terminal_status r.status)) [
    | inl ended ↦ inl ended
    | inr going ↦ inr (ground arith, ground arith)
  ],
)

module _ (sha256 : String → String) (content_digest : ReviewSubmission → String) (cs : List Call)
    (s : Store) (room : HasRoom s.policy) (sound : IsSound s) where
  -- In a sound store whose policy leaves room for an attempt and a takeover, a published result
  -- reference stays readable and stays the same, whatever calls follow.
  pub read_result_reference-kept :
      (run_id result_version : ℕ) {reference : ResultReference}
      → read_result_reference run_id result_version s ≡ some reference
      → read_result_reference run_id result_version (run_calls sha256 content_digest cs s)
        ≡ some reference
  unfolding read_result_reference
  read_result_reference-kept run_id result_version {reference} h =
      (run_calls-Follows sha256 content_digest cs s room sound).past.results
        (run_id, result_version) reference h

  -- From a sound store whose policy leaves room for an attempt and a takeover: the record of a job,
  -- after any calls, counts no more failed attempts and no more lease
  -- takeovers than the policy of the store allows, and strictly fewer of both while the job is not
  -- finished.
  pub read_job_bounds :
      (job_id : ℕ) {r : JobRecord}
      → read_job job_id (run_calls sha256 content_digest cs s) ≡ ok (some r)
      → (r.attempt_count ≤ s.policy.max_attempts)
        × (r.lease_takeover_count ≤ s.policy.max_lease_takeovers)
        × ((terminal_status r.status ≡ true)
            ⊎ ((r.attempt_count < s.policy.max_attempts)
                × (r.lease_takeover_count < s.policy.max_lease_takeovers)))
  read_job_bounds job_id {r} h =
      let follows = run_calls-Follows sha256 content_digest cs s room sound in
      let reads = read_job-Reads job_id (run_calls sha256 content_digest cs s) follows.sound h in
      record_bounds s.policy reads.job reads.run r
        (subst (λ p. IsConsistent p reads.job reads.run) follows.past.policy reads.consistent)
        reads.recorded
