-- ===== src/JobStore/Routed/Methods.antt =====
-- Each method of job_store.py keeps the jobs covered by the outbox, whether it returns or raises:
-- submission, leases and outcomes, and what callers and the reconciler do.
use newtaipei_appraisal_revi.Prelude.{
  ℕ, ◌≡◌, sym, ◌∙◌, inl, inr, Bool, true, false, Option, List, ltb, Bool-cases, nat_eq, pair_eq,
  string_eq, is_some, arith,
}
use newtaipei_appraisal_revi.Prelude.Dict.{Dict, get, put, get-put_self}
use newtaipei_appraisal_revi.Faults.{ok, ServiceProblem}
use newtaipei_appraisal_revi.JobContracts.{queued, RunReference}
use newtaipei_appraisal_revi.JobState.{JobPolicy, JobEvent, publish_result, next_state}
use newtaipei_appraisal_revi.JobStore.Model.{
  Job, Run, ClaimedAttempt, ExpiredLease, ResultReference, Store,
}
use newtaipei_appraisal_revi.JobStore.Read.{facts_of, enqueue}
use newtaipei_appraisal_revi.JobStore.Lease.{
  holds_lease, claim_objects, claim, heartbeat_objects, heartbeat, expire_objects, expire_lease,
}
use newtaipei_appraisal_revi.JobStore.Manage.{
  cancel_objects, cancel, retry_objects, schedule_retry, reject_objects, reject_human_task,
  resume_objects, resume_after_human, unchecked,
}
use newtaipei_appraisal_revi.JobStore.Finish.{
  finish_event, finish_objects, finish, close_attempt, stored_results,
}
use newtaipei_appraisal_revi.JobStore.Consistent.{commit_if_published_run}
use newtaipei_appraisal_revi.JobStore.Sound.{IsSound}
use newtaipei_appraisal_revi.JobStore.Steps.{holder-current}
use newtaipei_appraisal_revi.JobStore.Routed.Rules.{
  with_objects-IsRouted, commit-IsRouted, if-IsRouted, with_current-IsRouted,
}
use newtaipei_appraisal_revi.JobStore.Routed.{IsRouted}
use newtaipei_appraisal_revi.JobStore.Routed.Writes.{
  put-Written, written-IsRouted, enqueue-IsRouted,
}

-- What each method does to the status of the job that it stores.
module _ (p : JobPolicy) (job : Job) (run : Run) {job' : Job} {run' : Run} where
  claim_busy :
      (run_id owner lease_seconds attempt_id now : ℕ)
      → claim_objects p run_id owner lease_seconds attempt_id now job run ≡ ok (job', run')
      → job'.status ≡ queued
      → ⊥
  unfolding claim_objects next_state facts_of
  claim_busy run_id owner lease_seconds attempt_id now h q = ground arith

  heartbeat_busy :
      (attempt : ClaimedAttempt) (lease_seconds now : ℕ)
      → heartbeat_objects p attempt lease_seconds now job run ≡ ok (job', run')
      → job'.status ≡ queued
      → ⊥
  unfolding heartbeat_objects holds_lease
  heartbeat_busy attempt lease_seconds now h q = ground arith

  cancel_busy :
      (now : ℕ) → cancel_objects p now job run ≡ ok (job', run') → job'.status ≡ queued → ⊥
  unfolding cancel_objects next_state facts_of
  cancel_busy now h q = ground arith

  reject_busy :
      (task_id now : ℕ)
      → reject_objects p task_id now job run ≡ ok (job', run')
      → job'.status ≡ queued
      → ⊥
  unfolding reject_objects next_state facts_of
  reject_busy task_id now h q = ground arith

  finish_busy :
      (results : Dict (ℕ × ℕ) ResultReference) (attempt : ClaimedAttempt) (event : JobEvent)
      (now : ℕ) (problem : Option ServiceProblem) (tasks : List ℕ) (result : Option ResultReference)
      → finish_event event ≡ true
      → finish_objects p results attempt event now problem tasks result job run ≡ ok (job', run')
      → job'.status ≡ queued
      → ⊥
  unfolding finish_objects next_state facts_of
  finish_busy results attempt publish_result now problem tasks result e h q =
      ground (arith, commit_if_published_run results publish_result run attempt result)
  finish_busy results attempt event now problem tasks result e h q =
      ground (arith, commit_if_published_run results event run attempt result)

  -- A lapsed lease leads to `queued` exactly where a new round is asked for.
  expire_queued :
      (lease : ExpiredLease) (now : ℕ) {round : Bool}
      → expire_objects p lease now job run ≡ ok (job', run', round)
      → (is_some run.lease_expires_at ≡ true)
        × (job'.job_id ≡ job.job_id)
        × (job'.current_run_id ≡ job.current_run_id)
        × (round ≡ false → job'.status ≡ queued → ⊥)
  unfolding expire_objects next_state facts_of
  expire_queued lease now h = ground arith

  retry_same :
      (now : ℕ)
      → retry_objects p now job run ≡ ok (job', run')
      → (job'.job_id ≡ job.job_id) × (job'.current_run_id ≡ job.current_run_id)
  unfolding retry_objects
  retry_same now h = ground arith

  resume_same :
      (known : Bool) (r : RunReference) (now : ℕ)
      → resume_objects p known r now job run ≡ ok (job', run')
      → (job'.job_id ≡ job.job_id) × (job'.current_run_id ≡ r.run_id)
  unfolding resume_objects
  resume_same known r now h = ground arith

-- The rules for a store `s` that is covered.
module _ (s : Store) (h : IsRouted s) where
  -- Two stored objects, and no round.
  stored-IsRouted :
      (j r : ℕ) (job' : Job) (run' : Run)
      → (job'.status ≡ queued → ⊥)
      → IsRouted (record s { jobs = put s.jobs j job'; runs = put s.runs (j, r) run' })
  stored-IsRouted j r job' run' busy =
      written-IsRouted h (put-Written s j r job' run' s.attempts s.results s.idempotency) busy

  pub claim-IsRouted :
      (job_id run_id owner lease_seconds attempt_id now : ℕ)
      → IsRouted (claim job_id run_id owner lease_seconds attempt_id now s).1
  unfolding claim
  claim-IsRouted job_id run_id owner lease_seconds attempt_id now =
      if-IsRouted s h (ltb lease_seconds 1) _ _ (λ _. h)
        (λ _. with_objects-IsRouted s h job_id run_id _ (λ job run _ _.
          commit-IsRouted s h _ _ (λ objects done.
            written-IsRouted h
              (put-Written s job_id run_id objects.0 objects.1 _ s.results s.idempotency)
              (claim_busy s.policy job run run_id owner lease_seconds attempt_id now done))))

  pub heartbeat-IsRouted :
      (attempt : ClaimedAttempt) (lease_seconds now : ℕ)
      → IsRouted (heartbeat attempt lease_seconds now s).1
  unfolding heartbeat
  heartbeat-IsRouted attempt lease_seconds now =
      if-IsRouted s h (ltb lease_seconds 1) _ _ (λ _. h)
        (λ _. with_objects-IsRouted s h attempt.job_id attempt.run_id _ (λ job run _ _.
          commit-IsRouted s h _ _ (λ objects done.
            stored-IsRouted attempt.job_id attempt.run_id objects.0 objects.1
              (heartbeat_busy s.policy job run attempt lease_seconds now done))))

  pub cancel-IsRouted : (job_id now : ℕ) → IsRouted (cancel job_id now s).1
  unfolding cancel
  cancel-IsRouted job_id now = with_current-IsRouted s h job_id _ _ (λ job run _ _.
      commit-IsRouted s h _ _ (λ objects done.
        stored-IsRouted job_id job.current_run_id objects.0 objects.1
          (cancel_busy s.policy job run now done)))

  pub reject_human_task-IsRouted :
      (job_id run_id task_id now : ℕ) → IsRouted (reject_human_task job_id run_id task_id now s).1
  unfolding reject_human_task
  reject_human_task-IsRouted job_id run_id task_id now =
      with_current-IsRouted s h job_id _ _ (λ job run _ _. commit-IsRouted s h _ _ (λ objects done.
        stored-IsRouted job_id job.current_run_id objects.0 objects.1
          (reject_busy s.policy job run task_id now done)))

  pub finish-IsRouted :
      (attempt : ClaimedAttempt) (event : JobEvent) (now : ℕ) (problem : Option ServiceProblem)
      (tasks : List ℕ) (result : Option ResultReference)
      → IsRouted (finish attempt event now problem tasks result s).1
  unfolding finish
  finish-IsRouted attempt event now problem tasks result = elim (Bool-cases (finish_event event)) [
    | inr bad ↦ rw bad h
    | inl fine ↦ rw fine (
        with_objects-IsRouted s h attempt.job_id attempt.run_id _ (λ job run _ _.
          commit-IsRouted s h _ _ (λ objects done.
            written-IsRouted h
              (put-Written s attempt.job_id attempt.run_id objects.0 objects.1
                (close_attempt attempt event s.attempts) (stored_results s.results event result)
                s.idempotency)
              (finish_busy s.policy job run s.results attempt event now problem tasks result fine
                done))))
  ]

-- The methods that add a round to a sound store.
module _ (s : Store) (h : IsRouted s) (sound : IsSound s) where
  -- Two stored objects, and a round for the second one.
  round-IsRouted :
      (j r available_at token : ℕ) (job' : Job) (run' : Run)
      → job'.job_id ≡ j
      → job'.current_run_id ≡ r
      → IsRouted (
          enqueue job' r available_at token
            (record s { jobs = put s.jobs j job'; runs = put s.runs (j, r) run' }))
  round-IsRouted j r available_at token job' run' id current =
      enqueue-IsRouted h (put-Written s j r job' run' s.attempts s.results s.idempotency) r
        available_at token id (sym current) (get-put_self s.runs (j, r) run')

  pub schedule_retry-IsRouted :
      (job_id available_at token now : ℕ)
      → IsRouted (schedule_retry job_id available_at token now s).1
  unfolding schedule_retry
  schedule_retry-IsRouted job_id available_at token now =
      with_current-IsRouted s h job_id _ _ (λ job run hj _. commit-IsRouted s h _ _ (λ objects done.
        let (id, current) = retry_same s.policy job run now done in
        round-IsRouted job_id job.current_run_id available_at token objects.0 objects.1
          (id ∙ (sound.each_job job_id job hj).keyed) current))

  pub resume_after_human-IsRouted :
      (job_id : ℕ) (r : RunReference) (token now : ℕ)
      → IsRouted (resume_after_human job_id r token now s).1
  unfolding resume_after_human
  resume_after_human-IsRouted job_id r token now =
      with_current-IsRouted s h job_id unchecked _ (λ job run hj _.
        commit-IsRouted s h _ _ (λ objects done.
          let (id, current) =
            resume_same s.policy job run (is_some (get s.runs (job_id, r.run_id))) r now done in
          round-IsRouted job_id r.run_id now token objects.0 objects.1
            (id ∙ (sound.each_job job_id job hj).keyed) current))

  pub expire_lease-IsRouted :
      (lease : ExpiredLease) (token now : ℕ) → IsRouted (expire_lease lease token now s).1
  unfolding expire_lease
  expire_lease-IsRouted lease token now =
      with_objects-IsRouted s h lease.job_id lease.run_id _ (λ job run hj hr.
        commit-IsRouted s h _ _ (λ objects done.
          let (held, id, same, busy) =
            expire_queued s.policy job run lease now {round = objects.2} done in
          let current = holder-current s sound lease.job_id lease.run_id hj hr (inr held) in
          elim (Bool-cases objects.2) [
            | inl fresh ↦ rw fresh (
                round-IsRouted lease.job_id lease.run_id now token objects.0 objects.1
                  (id ∙ (sound.each_job lease.job_id job hj).keyed) (same ∙ current))
            | inr over ↦
                rw over
                  (stored-IsRouted s h lease.job_id lease.run_id objects.0 objects.1 (busy over))
          ]))
