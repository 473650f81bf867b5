-- ===== src/JobStore/Routed/Reachable.antt =====
-- The outbox covers the jobs in every state that calls on the store of job_store.py reach.
use newtaipei_appraisal_revi.Prelude.{String, ◌≡◌, true, sym, subst, List, [], ◌∷◌, nat_eq, pair_eq}
use newtaipei_appraisal_revi.Prelude.Dict.{get}
use newtaipei_appraisal_revi.JobState.{JobPolicy}
use newtaipei_appraisal_revi.JobState.Policy.{valid_policy, valid_policy-IsUsable}
use newtaipei_appraisal_revi.ServiceGuards.{ReviewSubmission}
use newtaipei_appraisal_revi.JobStore.Model.{Store, empty_store}
use newtaipei_appraisal_revi.JobStore.Sound.{IsSound}
use newtaipei_appraisal_revi.JobStore.Steps.Submission.{HasRoom}
use newtaipei_appraisal_revi.JobStore.Schedule.{
  Call, create_job, claim, heartbeat, finish, expire_lease, cancel, schedule_retry,
  reject_human_task, resume_after_human, mark_dispatched, reschedule_dispatch, apply, run_calls,
  apply-Follows, empty_store-IsSound,
}
use newtaipei_appraisal_revi.JobStore.Routed.{IsRouted}
use newtaipei_appraisal_revi.JobStore.Routed.Methods.{
  claim-IsRouted, heartbeat-IsRouted, cancel-IsRouted, reject_human_task-IsRouted, finish-IsRouted,
  schedule_retry-IsRouted, resume_after_human-IsRouted, expire_lease-IsRouted,
}
use newtaipei_appraisal_revi.JobStore.Routed.Rounds.{
  mark_dispatched-IsRouted, reschedule_dispatch-IsRouted, create_job-IsRouted,
}

module _ (sha256 : String → String) (content_digest : ReviewSubmission → String) where
  apply-IsRouted :
      (c : Call) (s : Store) → IsRouted s → IsSound s → IsRouted (apply sha256 content_digest c s)
  unfolding apply
  apply-IsRouted (create_job principal submission job_id run_id token now) s h sound =
      create_job-IsRouted sha256 content_digest s h principal submission job_id run_id token now
  apply-IsRouted (claim job_id run_id owner lease_seconds attempt_id now) s h sound =
      claim-IsRouted s h job_id run_id owner lease_seconds attempt_id now
  apply-IsRouted (heartbeat attempt lease_seconds now) s h sound =
      heartbeat-IsRouted s h attempt lease_seconds now
  apply-IsRouted (finish attempt event now problem tasks result) s h sound =
      finish-IsRouted s h attempt event now problem tasks result
  apply-IsRouted (expire_lease lease token now) s h sound =
      expire_lease-IsRouted s h sound lease token now
  apply-IsRouted (cancel job_id now) s h sound = cancel-IsRouted s h job_id now
  apply-IsRouted (schedule_retry job_id available_at token now) s h sound =
      schedule_retry-IsRouted s h sound job_id available_at token now
  apply-IsRouted (reject_human_task job_id run_id task_id now) s h sound =
      reject_human_task-IsRouted s h job_id run_id task_id now
  apply-IsRouted (resume_after_human job_id run token now) s h sound =
      resume_after_human-IsRouted s h sound job_id run token now
  apply-IsRouted (mark_dispatched round now) s h sound = mark_dispatched-IsRouted s h round now
  apply-IsRouted (reschedule_dispatch round available_at) s h sound =
      reschedule_dispatch-IsRouted s h round available_at

  -- Calls keep a sound store covered.
  pub run_calls-kept :
      (cs : List Call) (s : Store)
      → HasRoom s.policy
      → IsSound s
      → IsRouted s
      → IsRouted (run_calls sha256 content_digest cs s)
  unfolding run_calls
  run_calls-kept [] s room sound h = h
  run_calls-kept (c ∷ cs) s room sound h =
      let first = apply-Follows sha256 content_digest c s room sound in
      run_calls-kept cs (apply sha256 content_digest c s)
        (subst HasRoom (sym first.past.policy) room) first.sound (apply-IsRouted c s h sound)

  empty_store-IsRouted : (p : JobPolicy) → IsRouted (empty_store p)
  unfolding empty_store get
  empty_store-IsRouted p = record {
    owned = λ j n e h. cc;
    routed = λ j n e h. cc;
    covered = λ j job h. cc;
  }

  -- Under a valid policy, in every state of the store that calls reach from an empty one: each round
  -- of the outbox stands under its own job and number, for a stored job and a stored run of it, and
  -- a job that is queued has its latest round in the outbox, pending and for its current run.
  pub run_calls-IsRouted :
      (p : JobPolicy) (cs : List Call)
      → valid_policy p ≡ true
      → IsRouted (run_calls sha256 content_digest cs (empty_store p))
  run_calls-IsRouted p cs v =
      let usable = valid_policy-IsUsable p v in
      run_calls-kept cs (empty_store p)
        (unfold empty_store in record { attempts = usable.attempts; takeovers = usable.takeovers })
        (empty_store-IsSound sha256 content_digest p) (empty_store-IsRouted p)
