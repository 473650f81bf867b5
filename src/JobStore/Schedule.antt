-- ===== src/JobStore/Schedule.antt =====
-- Any sequence of calls on the store of job_store.py. Every caller, worker and reconciler pass is
-- such a sequence: each method runs under the one lock of the store.
use newtaipei_appraisal_revi.Prelude.{
  ℕ, String, ◌≡◌, sym, subst, Option, List, [], ◌∷◌, true, nat_eq, pair_eq,
}
use newtaipei_appraisal_revi.Prelude.Dict.{get}
use newtaipei_appraisal_revi.Faults.{ServiceProblem}
use newtaipei_appraisal_revi.JobContracts.{RunReference}
use newtaipei_appraisal_revi.JobState.{JobEvent, JobPolicy}
use newtaipei_appraisal_revi.JobState.Policy.{valid_policy, valid_policy-IsUsable}
use newtaipei_appraisal_revi.ServiceGuards.{Principal, ReviewSubmission}
use newtaipei_appraisal_revi.JobStore.Model.{
  Store, empty_store, ClaimedAttempt, ExpiredLease, ResultReference, DispatchRecord,
}
use newtaipei_appraisal_revi.JobStore.Submit
use newtaipei_appraisal_revi.JobStore.Lease
use newtaipei_appraisal_revi.JobStore.Finish
use newtaipei_appraisal_revi.JobStore.Manage
use newtaipei_appraisal_revi.JobStore.Dispatch
use newtaipei_appraisal_revi.JobStore.Sound.{IsSound}
use newtaipei_appraisal_revi.JobStore.Steps.{Follows, Follows-refl, Follows-trans}
use newtaipei_appraisal_revi.JobStore.Steps.Leases.{
  claim-Follows, heartbeat-Follows, expire_lease-Follows,
}
use newtaipei_appraisal_revi.JobStore.Steps.Outcomes.{finish-Follows}
use newtaipei_appraisal_revi.JobStore.Steps.Management.{
  cancel-Follows, schedule_retry-Follows, reject_human_task-Follows, resume_after_human-Follows,
}
use newtaipei_appraisal_revi.JobStore.Steps.Rounds.{
  mark_dispatched-Follows, reschedule_dispatch-Follows,
}
use newtaipei_appraisal_revi.JobStore.Steps.Submission.{HasRoom, create_job-Follows}

-- One call, with the clock and the fresh identifiers that it reads.
pub data Call : Type 0 where
  create_job : Principal → ReviewSubmission → ℕ → ℕ → ℕ → ℕ → Call
  claim : ℕ → ℕ → ℕ → ℕ → ℕ → ℕ → Call
  heartbeat : ClaimedAttempt → ℕ → ℕ → Call
  finish :
      ClaimedAttempt → JobEvent → ℕ → Option ServiceProblem → List ℕ → Option ResultReference → Call
  expire_lease : ExpiredLease → ℕ → ℕ → Call
  cancel : ℕ → ℕ → Call
  schedule_retry : ℕ → ℕ → ℕ → ℕ → Call
  reject_human_task : ℕ → ℕ → ℕ → ℕ → Call
  resume_after_human : ℕ → RunReference → ℕ → ℕ → Call
  mark_dispatched : DispatchRecord → ℕ → Call
  reschedule_dispatch : DispatchRecord → ℕ → Call

module _ (sha256 : String → String) (content_digest : ReviewSubmission → String) where
  unfoldable pub apply : Call → Store → Store
  apply (create_job principal submission job_id run_id token now) s =
      (Submit.create_job sha256 content_digest principal submission job_id run_id token now s).1
  apply (claim job_id run_id owner lease_seconds attempt_id now) s =
      (Lease.claim job_id run_id owner lease_seconds attempt_id now s).1
  apply (heartbeat attempt lease_seconds now) s = (Lease.heartbeat attempt lease_seconds now s).1
  apply (finish attempt event now problem tasks result) s =
      (Finish.finish attempt event now problem tasks result s).1
  apply (expire_lease lease token now) s = (Lease.expire_lease lease token now s).1
  apply (cancel job_id now) s = (Manage.cancel job_id now s).1
  apply (schedule_retry job_id available_at token now) s =
      (Manage.schedule_retry job_id available_at token now s).1
  apply (reject_human_task job_id run_id task_id now) s =
      (Manage.reject_human_task job_id run_id task_id now s).1
  apply (resume_after_human job_id run token now) s =
      (Manage.resume_after_human job_id run token now s).1
  apply (mark_dispatched round now) s = (Dispatch.mark_dispatched round now s).1
  apply (reschedule_dispatch round available_at) s =
      (Dispatch.reschedule_dispatch round available_at s).1

  unfoldable pub run_calls : List Call → Store → Store
  unfolding apply
  run_calls [] s = s
  run_calls (c ∷ cs) s = run_calls cs (apply c s)

  pub apply-Follows : (c : Call) (s : Store) → HasRoom s.policy → IsSound s → Follows s (apply c s)
  unfolding apply
  apply-Follows (create_job principal submission job_id run_id token now) s room h =
      create_job-Follows sha256 content_digest principal submission job_id run_id token now s room h
  apply-Follows (claim job_id run_id owner lease_seconds attempt_id now) s room h =
      claim-Follows job_id run_id owner lease_seconds attempt_id now s h
  apply-Follows (heartbeat attempt lease_seconds now) s room h =
      heartbeat-Follows attempt lease_seconds now s h
  apply-Follows (finish attempt event now problem tasks result) s room h =
      finish-Follows attempt event now problem tasks result s h
  apply-Follows (expire_lease lease token now) s room h = expire_lease-Follows lease token now s h
  apply-Follows (cancel job_id now) s room h = cancel-Follows job_id now s h
  apply-Follows (schedule_retry job_id available_at token now) s room h =
      schedule_retry-Follows job_id available_at token now s h
  apply-Follows (reject_human_task job_id run_id task_id now) s room h =
      reject_human_task-Follows job_id run_id task_id now s h
  apply-Follows (resume_after_human job_id run token now) s room h =
      resume_after_human-Follows job_id run token now s h
  apply-Follows (mark_dispatched round now) s room h = mark_dispatched-Follows round now s h
  apply-Follows (reschedule_dispatch round available_at) s room h =
      reschedule_dispatch-Follows round available_at s h

  pub run_calls-Follows :
      (cs : List Call) (s : Store) → HasRoom s.policy → IsSound s → Follows s (run_calls cs s)
  unfolding run_calls
  run_calls-Follows [] s room h = Follows-refl h
  run_calls-Follows (c ∷ cs) s room h =
      let first = apply-Follows c s room h in
      Follows-trans first
        (run_calls-Follows cs (apply c s) (subst HasRoom (sym first.past.policy) room) first.sound)

  pub empty_store-IsSound : (p : JobPolicy) → IsSound (empty_store p)
  unfolding empty_store get
  empty_store-IsSound p = record { each_job = λ j job h. cc; each_run = λ j r run h. cc }

  -- Under a valid policy every store that calls reach from an empty one is sound.
  pub run_calls-IsSound :
      (p : JobPolicy) (cs : List Call)
      → valid_policy p ≡ true
      → IsSound (run_calls cs (empty_store p))
  run_calls-IsSound p cs v =
      let usable = valid_policy-IsUsable p v in
      (run_calls-Follows cs (empty_store p)
        (unfold empty_store in record { attempts = usable.attempts; takeovers = usable.takeovers })
        (empty_store-IsSound p)).sound
