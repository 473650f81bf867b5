-- ===== src/ReviewJobs/Calls.antt =====
-- Every operation of `ReviewJobService` in review_jobs.py is a sequence of calls on the job store.
use newtaipei_appraisal_revi.Prelude.{
  ℕ, ◌+◌, String, ◌≡◌, refl, sym, ap, ◌∙◌, Bool, true, false, not, Option, none, some, List, [],
  ◌∷◌, ◌++◌, eqb, ◌||◌, is_empty, suc, if◌then◌else◌,
}
use newtaipei_appraisal_revi.Faults.{
  Result, ok, err, ServiceErrorCode, ServiceProblem, service_fault, condition_failed, value_error,
  key_error,
}
use newtaipei_appraisal_revi.JobContracts.{retryable_failed, same_status}
use newtaipei_appraisal_revi.ServiceGuards.{ReviewSubmission}
use newtaipei_appraisal_revi.JobStore.Model.{Store, JobRecord, ClaimedAttempt, ExpiredLease}
use newtaipei_appraisal_revi.JobState.{
  publish_result, needs_human, cancel_acknowledged, retryable_error, permanent_error,
}
use newtaipei_appraisal_revi.JobStore.Schedule.{Call, apply, run_calls}
use newtaipei_appraisal_revi.JobStore.Schedule
use newtaipei_appraisal_revi.ReviewJobs.{
  ServiceResult, permanent_code, checked_view, result_reference,
}
use newtaipei_appraisal_revi.JobState.Policy.{backoff_seconds}
use newtaipei_appraisal_revi.JobStore.Read.{read_job}
use newtaipei_appraisal_revi.JobStore.Lease
use newtaipei_appraisal_revi.JobStore.Submit
use newtaipei_appraisal_revi.JobStore.Manage
use newtaipei_appraisal_revi.JobStore.Dispatch
use newtaipei_appraisal_revi.JobStore.Finish
use newtaipei_appraisal_revi.Prelude.Dict.{get}
use newtaipei_appraisal_revi.Prelude.{pair_eq, nat_eq}
use newtaipei_appraisal_revi.ReviewJobs.Service.{
  Service, Action, and_then, on_store, put_body, conflicting,
}
use newtaipei_appraisal_revi.ReviewJobs.Caller
use newtaipei_appraisal_revi.ReviewJobs.Worker
use newtaipei_appraisal_revi.ReviewJobs.Worker.{Reading}
use newtaipei_appraisal_revi.ReviewJobs.Reconciler
use newtaipei_appraisal_revi.ReviewJobs.Operation.{Operation, perform, perform_all}

module _ (sha256 : String → String) (content_digest : ReviewSubmission → String)
    (digest_of : ServiceResult → String) where
  -- A sequence of calls leads from one state's job store to the other's.
  pub record Ran (w w' : Service) : Type 0 where
    pub calls : List Call
    pub reached : w'.store ≡ run_calls sha256 content_digest calls w.store

  run_calls-append :
      (cs ds : List Call) (s : Store)
      → run_calls sha256 content_digest (cs ++ ds) s
        ≡ run_calls sha256 content_digest ds (run_calls sha256 content_digest cs s)
  unfolding run_calls
  run_calls-append [] ds s = refl
  run_calls-append (c ∷ cs) ds s = run_calls-append cs ds (apply sha256 content_digest c s)

  pub Ran-refl : (w w' : Service) → w'.store ≡ w.store → Ran w w'
  unfolding run_calls
  Ran-refl w w' same = record { calls = []; reached = same }

  pub Ran-trans : (u v w : Service) → Ran u v → Ran v w → Ran u w
  Ran-trans u v w a b = record {
    calls = a.calls ++ b.calls;
    reached =
        b.reached
        ∙ ap (run_calls sha256 content_digest b.calls) a.reached
        ∙ sym (run_calls-append a.calls b.calls u.store);
  }

  pub Ran-once :
      (c : Call) (w w' : Service) → w'.store ≡ apply sha256 content_digest c w.store → Ran w w'
  unfolding run_calls
  Ran-once c w w' e = record { calls = c ∷ []; reached = e }

  pub and_then-Ran :
      {A B : Type 0} (w : Service) (done : Result A × Service) (rest : A → Action B)
      → Ran w done.1
      → ((a : A) (v : Service) → Ran v (rest a v).1)
      → Ran w (and_then done rest).1
  and_then-Ran w (err e, v) rest first then_ = first
  and_then-Ran w (ok a, v) rest first then_ = Ran-trans w v (rest a v).1 first (then_ a v)

  pub if-Ran :
      {A : Type 0} (w : Service) (test : Bool) (x y : Result A × Service)
      → Ran w x.1
      → Ran w y.1
      → Ran w (if test then x else y).1
  if-Ran w true x y hx hy = hx
  if-Ran w false x y hx hy = hy

  or_lost-Ran :
      {A : Type 0} (w : Service) (done : Result A × Service)
      → Ran w done.1
      → Ran w (Reconciler.or_lost done).1
  or_lost-Ran w (err condition_failed, v) h = h
  or_lost-Ran w (err (service_fault code), v) h = h
  or_lost-Ran w (err value_error, v) h = h
  or_lost-Ran w (err key_error, v) h = h
  or_lost-Ran w (ok a, v) h = h

  as_conflict-Ran :
      {A : Type 0} (w : Service) (done : Result A × Service)
      → Ran w done.1
      → Ran w (Caller.as_conflict done).1
  as_conflict-Ran w (err condition_failed, v) h = h
  as_conflict-Ran w (err (service_fault code), v) h = h
  as_conflict-Ran w (err value_error, v) h = h
  as_conflict-Ran w (err key_error, v) h = h
  as_conflict-Ran w (ok a, v) h = h

  reschedule-Ran :
      (r : JobRecord) (reading : Reading) (w : Service) → Ran w (Worker.reschedule r reading w).1
  unfolding Worker.reschedule apply
  reschedule-Ran r reading w =
      and_then-Ran w (backoff_seconds w.policy r.attempt_count, w) _ (Ran-refl w w refl)
        (λ delay v.
          Ran-once
            (Schedule.schedule_retry r.job_id (reading.at + delay + reading.jitter delay)
              reading.token reading.later)
            v _ refl)

  rescheduled-Ran :
      (found : Option JobRecord) (reading : Reading) (w : Service)
      → Ran w (Reconciler.rescheduled found reading w).1
  rescheduled-Ran none reading w = Ran-refl w w refl
  rescheduled-Ran (some r) reading w =
      or_lost-Ran w (Worker.reschedule r reading w) (reschedule-Ran r reading w)

  pub recover_retryable-Ran :
      (job_id : ℕ) (reading : Reading) (w : Service)
      → Ran w (Reconciler.recover_retryable job_id reading w).1
  unfolding Reconciler.recover_retryable
  recover_retryable-Ran job_id reading w =
      and_then-Ran w (read_job job_id w.store, w) _ (Ran-refl w w refl)
        (λ found v. rescheduled-Ran (Reconciler.stranded_record found) reading v)

  pub recover-Ran :
      (rs : List JobRecord) (readings : ℕ → Reading) (w : Service)
      → Ran w (Reconciler.recover rs readings w).1
  unfolding Reconciler.recover
  recover-Ran [] readings w = Ran-refl w w refl
  recover-Ran (r ∷ rs) readings w =
      and_then-Ran w (Reconciler.recover_retryable r.job_id (readings 0) w) _
        (recover_retryable-Ran r.job_id (readings 0) w)
        (λ found v.
          and_then-Ran v (Reconciler.recover rs (λ k. readings (suc k)) v) _
            (recover-Ran rs (λ k. readings (suc k)) v) (λ n u. Ran-refl u u refl))

  pub reclaim-Ran :
      (leases : List ExpiredLease) (token now : ℕ → ℕ) (w : Service)
      → Ran w (Reconciler.reclaim leases token now w).1
  unfolding Reconciler.reclaim apply
  reclaim-Ran [] token now w = Ran-refl w w refl
  reclaim-Ran (lease ∷ leases) token now w =
      let first = on_store (Lease.expire_lease lease (token 0) (now 0)) w in
      and_then-Ran w (Reconciler.or_lost first) _
        (or_lost-Ran w first (Ran-once (Schedule.expire_lease lease (token 0) (now 0)) w _ refl))
        (λ found v.
          and_then-Ran v (Reconciler.reclaim leases (λ k. token (suc k)) (λ k. now (suc k)) v) _
            (reclaim-Ran leases (λ k. token (suc k)) (λ k. now (suc k)) v)
            (λ rest u. Ran-refl u u refl))

  put_body-Ran :
      (run_id result_version : ℕ) (result : ServiceResult) (w : Service)
      → Ran w (put_body digest_of run_id result_version result w).1
  unfolding put_body
  put_body-Ran run_id result_version result w =
      if-Ran w (not (eqb result.run_id run_id) || not (eqb result.result_version result_version)) _
        _ (Ran-refl w w refl)
        (if-Ran w (conflicting digest_of (get w.bodies (run_id, result_version)) (digest_of result))
          _ _ (Ran-refl w w refl) (Ran-refl w _ refl))

  publish-Ran :
      (attempt : ClaimedAttempt) (result : ServiceResult) (now : ℕ) (w : Service)
      → Ran w (Worker.publish digest_of attempt result now w).1
  unfolding Worker.publish apply
  publish-Ran attempt result now w =
      if-Ran w
        (not (eqb result.run_id attempt.run_id)
          || not (eqb result.result_version (attempt.expected_result_version + 1)))
        _ _ (Ran-refl w w refl)
        (and_then-Ran w (put_body digest_of attempt.run_id result.result_version result w) _
          (put_body-Ran attempt.run_id result.result_version result w)
          (λ digest v.
            Ran-once
              (Schedule.finish attempt publish_result now none []
                (some (result_reference result attempt digest)))
              v _ refl))

  fail-Ran :
      (attempt : ClaimedAttempt) (code : ServiceErrorCode) (retryable : Bool) (now : ℕ)
      (reading : Reading) (w : Service)
      → Ran w (Worker.fail attempt code retryable now reading w).1
  unfolding Worker.fail apply
  fail-Ran attempt code retryable now reading w =
      let event = if retryable then retryable_error else permanent_error in
      let problem : Option ServiceProblem = some (record { code = code }) in
      if-Ran w (Worker.same_bool retryable (permanent_code code)) _ _ (Ran-refl w w refl) (
        and_then-Ran w (on_store (Finish.finish attempt event now problem [] none) w) _
          (Ran-once (Schedule.finish attempt event now problem [] none) w _ refl)
          (λ r v.
            if-Ran v (not (same_status r.status retryable_failed)) _ _ (Ran-refl v v refl)
              (reschedule-Ran r reading v)))

  wait_for_human-Ran :
      (attempt : ClaimedAttempt) (task_ids : List ℕ) (now : ℕ) (w : Service)
      → Ran w (Worker.wait_for_human attempt task_ids now w).1
  unfolding Worker.wait_for_human apply
  wait_for_human-Ran attempt task_ids now w =
      if-Ran w (is_empty task_ids) _ _ (Ran-refl w w refl)
        (Ran-once (Schedule.finish attempt needs_human now none task_ids none) w _ refl)

  pub perform-Ran :
      (o : Operation) (w : Service) → Ran w (perform sha256 content_digest digest_of o w)
  unfolding perform apply Caller.submit Caller.cancel Worker.claim Worker.heartbeat
      Worker.wait_for_human Worker.acknowledge_cancel Worker.resume Reconciler.confirm_dispatch
      Reconciler.defer_dispatch Reconciler.reclaim_expired_leases
      Reconciler.recover_stranded_retryables
  perform-Ran (Operation.submit principal submission job_id run_id token now) w =
      and_then-Ran w
        (on_store
          (Submit.create_job sha256 content_digest principal submission job_id run_id token now) w)
        _ (Ran-once (Schedule.create_job principal submission job_id run_id token now) w _ refl)
        (λ answer v. Ran-refl v v refl)
  perform-Ran (Operation.cancel principal job_id now) w =
      and_then-Ran w (Caller.authorized principal job_id w, w) _ (Ran-refl w w refl)
        (λ r v.
          let asked = on_store (Manage.cancel r.job_id now) v in
          as_conflict-Ran v (and_then asked (λ cancelled u. (checked_view cancelled, u))) (
            and_then-Ran v asked _ (Ran-once (Schedule.cancel r.job_id now) v _ refl)
              (λ cancelled u. Ran-refl u u refl)))
  perform-Ran (Operation.claim job_id run_id owner attempt_id now) w =
      Ran-once (Schedule.claim job_id run_id owner w.policy.lease_seconds attempt_id now) w _ refl
  perform-Ran (Operation.heartbeat attempt now) w =
      Ran-once (Schedule.heartbeat attempt w.policy.lease_seconds now) w _ refl
  perform-Ran (Operation.publish attempt result now) w = publish-Ran attempt result now w
  perform-Ran (Operation.wait_for_human attempt task_ids now) w =
      wait_for_human-Ran attempt task_ids now w
  perform-Ran (Operation.fail attempt code retryable now reading) w =
      fail-Ran attempt code retryable now reading w
  perform-Ran (Operation.acknowledge_cancel attempt now) w =
      Ran-once (Schedule.finish attempt cancel_acknowledged now none [] none) w _ refl
  perform-Ran (Operation.resume job_id run token now) w =
      Ran-once (Schedule.resume_after_human job_id run token now) w _ refl
  perform-Ran (Operation.confirm_dispatch round now) w =
      Ran-once (Schedule.mark_dispatched round now) w _ refl
  perform-Ran (Operation.defer_dispatch round now jitter) w =
      and_then-Ran w (backoff_seconds w.policy (round.dispatch_attempts + 1), w) _
        (Ran-refl w w refl)
        (λ delay v.
          Ran-once (Schedule.reschedule_dispatch round (now + delay + jitter delay)) v _ refl)
  perform-Ran (Operation.reclaim_expired_leases limit start token now) w =
      and_then-Ran w (Dispatch.expired_leases start limit w.store, w) _ (Ran-refl w w refl)
        (λ leases v. reclaim-Ran leases token now v)
  perform-Ran (Operation.recover_stranded_retryables limit now readings) w =
      and_then-Ran w (Reconciler.stranded_candidates limit now w, w) _ (Ran-refl w w refl)
        (λ candidates v. recover-Ran candidates readings v)
  perform-Ran (Operation.recover_retryable job_id reading) w =
      recover_retryable-Ran job_id reading w

  pub perform_all-Ran :
      (os : List Operation) (w : Service) → Ran w (perform_all sha256 content_digest digest_of os w)
  unfolding perform_all
  perform_all-Ran [] w = Ran-refl w w refl
  perform_all-Ran (o ∷ os) w =
      let v = perform sha256 content_digest digest_of o w in
      Ran-trans w v _ (perform-Ran o w) (perform_all-Ran os v)
