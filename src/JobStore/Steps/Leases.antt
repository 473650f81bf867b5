-- ===== src/JobStore/Steps/Leases.antt =====
-- `claim`, `heartbeat` and `expire_lease` of job_store.py keep the store sound and its past.
use newtaipei_appraisal_revi.Prelude.{
  ℕ, ◌≡◌, inl, inr, Bool, true, nat_eq, pair_eq, is_some, Bool-cases, arith, ltb,
}
use newtaipei_appraisal_revi.Prelude.Dict.{get-put_self}
use newtaipei_appraisal_revi.Faults.{ok}
use newtaipei_appraisal_revi.JobState.{JobPolicy}
use newtaipei_appraisal_revi.JobStore.Model.{Job, Run, ClaimedAttempt, ExpiredLease, Store}
use newtaipei_appraisal_revi.JobStore.Lease.{
  holds_lease, claim_objects, claim, heartbeat_objects, heartbeat, expire_objects, expire_lease,
}
use newtaipei_appraisal_revi.JobStore.Consistent.{
  claim_objects-IsConsistent, heartbeat_objects-IsConsistent, expire_objects-IsConsistent,
}
use newtaipei_appraisal_revi.JobStore.Evolution.{
  claim_objects-Evolution, heartbeat_objects-Evolution, expire_objects-Evolution,
}
use newtaipei_appraisal_revi.JobStore.Sound.{IsSound}
use newtaipei_appraisal_revi.JobStore.Steps.{
  Follows, Follows-refl, Follows-trans, with_objects-Follows, commit-Follows, found-IsConsistent,
  write-Follows, enqueue-Follows, holder-current,
}

module _ (p : JobPolicy) (job : Job) (run : Run) where
  claim_current :
      (run_id owner lease_seconds attempt_id now : ℕ) {objects : Job × Run}
      → claim_objects p run_id owner lease_seconds attempt_id now job run ≡ ok objects
      → job.current_run_id ≡ run_id
  unfolding claim_objects
  claim_current run_id owner lease_seconds attempt_id now h = ground arith

  heartbeat_held :
      (attempt : ClaimedAttempt) (lease_seconds now : ℕ) {objects : Job × Run}
      → heartbeat_objects p attempt lease_seconds now job run ≡ ok objects
      → holds_lease attempt job run ≡ true
  unfolding heartbeat_objects
  heartbeat_held attempt lease_seconds now h = ground arith

  expire_held :
      (lease : ExpiredLease) (now : ℕ) {objects : Job × Run × Bool}
      → expire_objects p lease now job run ≡ ok objects
      → is_some run.lease_expires_at ≡ true
  unfolding expire_objects
  expire_held lease now h = ground arith

pub holds_lease-is_some :
    (attempt : ClaimedAttempt) (job : Job) (run : Run)
    → holds_lease attempt job run ≡ true
    → is_some run.lease_owner ≡ true
unfolding holds_lease
holds_lease-is_some attempt job run h = ground arith

pub claim-Follows :
    (job_id run_id owner lease_seconds attempt_id now : ℕ) (s : Store)
    → IsSound s
    → Follows s (claim job_id run_id owner lease_seconds attempt_id now s).1
unfolding claim
claim-Follows job_id run_id owner lease_seconds attempt_id now s sound =
    elim (Bool-cases (ltb lease_seconds 1)) [
      | inl bad ↦ rw bad (Follows-refl sound)
      | inr fine ↦ rw fine (
          with_objects-Follows s sound job_id run_id _ (λ job run hj hr.
            commit-Follows s sound _ _ (λ objects done.
              let here =
                claim_current s.policy job run run_id owner lease_seconds attempt_id now done in
              let c = found-IsConsistent s sound job_id run_id hj hr here in
              write-Follows s sound job_id run_id hj hr here objects.0 objects.1
                (claim_objects-IsConsistent s.policy run_id owner lease_seconds attempt_id now done
                  c)
                (claim_objects-Evolution s.policy run_id owner lease_seconds attempt_id now done c)
                _ _ (λ k ref h. h))))
    ]

pub heartbeat-Follows :
    (attempt : ClaimedAttempt) (lease_seconds now : ℕ) (s : Store)
    → IsSound s
    → Follows s (heartbeat attempt lease_seconds now s).1
unfolding heartbeat
heartbeat-Follows attempt lease_seconds now s sound = elim (Bool-cases (ltb lease_seconds 1)) [
  | inl bad ↦ rw bad (Follows-refl sound)
  | inr fine ↦ rw fine (
      with_objects-Follows s sound attempt.job_id attempt.run_id _ (λ job run hj hr.
        commit-Follows s sound _ _ (λ objects done.
          let held = heartbeat_held s.policy job run attempt lease_seconds now done in
          let here =
            holder-current s sound attempt.job_id attempt.run_id hj hr
              (inl (holds_lease-is_some attempt job run held)) in
          let c = found-IsConsistent s sound attempt.job_id attempt.run_id hj hr here in
          write-Follows s sound attempt.job_id attempt.run_id hj hr here objects.0 objects.1
            (heartbeat_objects-IsConsistent s.policy attempt lease_seconds now done c)
            (heartbeat_objects-Evolution s.policy attempt lease_seconds now done) _ _
            (λ k ref h. h))))
]

pub expire_lease-Follows :
    (lease : ExpiredLease) (token now : ℕ) (s : Store)
    → IsSound s
    → Follows s (expire_lease lease token now s).1
unfolding expire_lease
expire_lease-Follows lease token now s sound =
    with_objects-Follows s sound lease.job_id lease.run_id _ (λ job run hj hr.
      commit-Follows s sound _ _ (λ objects done.
        let here =
          holder-current s sound lease.job_id lease.run_id hj hr
            (inr (expire_held s.policy job run lease now done)) in
        let c = found-IsConsistent s sound lease.job_id lease.run_id hj hr here in
        let written =
          write-Follows s sound lease.job_id lease.run_id hj hr here objects.0 objects.1
            (expire_objects-IsConsistent s.policy lease now {round = objects.2} done c)
            (expire_objects-Evolution s.policy lease now {round = objects.2} done) s.attempts
            s.results (λ k ref h. h) in
        elim (Bool-cases objects.2) [
          | inl fresh ↦ rw fresh (
              Follows-trans written (
                enqueue-Follows _ written.sound lease.job_id lease.run_id now token
                  (get-put_self s.jobs lease.job_id objects.0)))
          | inr over ↦ rw over written
        ]))
