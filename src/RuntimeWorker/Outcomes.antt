-- ===== src/RuntimeWorker/Outcomes.antt =====
-- The labels of `RuntimeWorker.process` in runtime_worker.py, against the job that is read when the
-- call that finished the attempt returns.
use newtaipei_appraisal_revi.Prelude.{
  ℕ, ◌+◌, String, ◌≡◌, inl, inr, Bool, true, false, not, ◌||◌, Option, none, some, List, [], eqb,
  is_empty, if◌then◌else◌, Bool-cases,
}
use newtaipei_appraisal_revi.Faults.{
  Result, ok, err, service_fault, condition_failed, value_error, key_error, ServiceErrorCode,
  execution,
}
use newtaipei_appraisal_revi.JobContracts.{cancelled, retryable_failed, failed, same_status}
use newtaipei_appraisal_revi.JobState.{
  publish_result, needs_human, retryable_error, permanent_error, cancel_acknowledged, JobEvent,
}
use newtaipei_appraisal_revi.JobState.Policy.{backoff_seconds}
use newtaipei_appraisal_revi.ServiceGuards.{ReviewSubmission}
use newtaipei_appraisal_revi.ActionContracts.Snapshot.{same_run}
use newtaipei_appraisal_revi.JobStore.Model.{JobRecord, ClaimedAttempt, Store}
use newtaipei_appraisal_revi.JobStore.Read.{read_job}
use newtaipei_appraisal_revi.JobStore.Finish.{finish}
use newtaipei_appraisal_revi.JobStore.Manage.{schedule_retry}
use newtaipei_appraisal_revi.ReviewJobs.{ServiceResult, result_reference, permanent_code}
use newtaipei_appraisal_revi.ReviewJobs.Service.{Service, and_then, on_store, put_body}
use newtaipei_appraisal_revi.ReviewJobs.Operation.{perform_all}
use newtaipei_appraisal_revi.ReviewJobs.Worker
use newtaipei_appraisal_revi.ReviewJobs.Worker.{Reading}
use newtaipei_appraisal_revi.Outbox.{DispatchMessage}
use newtaipei_appraisal_revi.RuntimeWorker.{
  Outcome, cancelled_attempt, published, waiting, ReviewedResult, Ended, returned, raised, Passage,
  permanent, own_record, failure_outcome, watch, acknowledged, settled, concluded, executing,
  recorded, attempted, failure_answered, failing, handled,
}
use newtaipei_appraisal_revi.RuntimeWorker.Answers.{
  IfReported, finish-IfReported, IfQueued, schedule_retry-IfQueued,
}
use newtaipei_appraisal_revi.RuntimeWorker.Told.{
  Told, IfTold, IfEnded, on_store-IfEnded, and_then-IfTold, if-IfTold, if-IfEnded, and_then-told,
}

module _ (sha256 : String → String) (content_digest : ReviewSubmission → String)
    (digest_of : ServiceResult → String) (attempt : ClaimedAttempt) where
  put-IfEnded :
      (result : ServiceResult) (now : ℕ) (done : Result String × Service)
      → IfEnded attempt.job_id publish_result (
          and_then done (λ digest w.
            on_store
              (finish attempt publish_result now none []
                (some (result_reference result attempt digest)))
              w))
  put-IfEnded result now (err e, w) = tt
  put-IfEnded result now (ok digest, w) = on_store-IfEnded attempt.job_id publish_result _ w (
      finish-IfReported attempt publish_result now none []
        (some (result_reference result attempt digest)) w.store)

  publish-IfEnded :
      (result : ServiceResult) (now : ℕ) (w : Service)
      → IfEnded attempt.job_id publish_result (Worker.publish digest_of attempt result now w)
  unfolding Worker.publish
  publish-IfEnded result now w =
      if-IfEnded attempt.job_id publish_result
        (not (eqb result.run_id attempt.run_id)
          || not (eqb result.result_version (attempt.expected_result_version + 1)))
        _ _ tt
        (put-IfEnded result now (put_body digest_of attempt.run_id result.result_version result w))

  wait_for_human-IfEnded :
      (ids : List ℕ) (now : ℕ) (w : Service)
      → IfEnded attempt.job_id needs_human (Worker.wait_for_human attempt ids now w)
  unfolding Worker.wait_for_human
  wait_for_human-IfEnded ids now w = if-IfEnded attempt.job_id needs_human (is_empty ids) _ _ tt (
      on_store-IfEnded attempt.job_id needs_human _ w
        (finish-IfReported attempt needs_human now none ids none w.store))

  acknowledged-IfTold :
      (p : Passage) (w : Service)
      → IfTold attempt.job_id (acknowledged sha256 content_digest digest_of attempt p w)
  unfolding Worker.acknowledge_cancel
  acknowledged-IfTold p w =
      let v = perform_all sha256 content_digest digest_of p.before_acknowledge w in
      and_then-IfTold attempt.job_id cancel_acknowledged cancelled_attempt
        (Worker.acknowledge_cancel attempt p.acknowledged_at v) (λ u h. h)
        (on_store-IfEnded attempt.job_id cancel_acknowledged _ v
          (finish-IfReported attempt cancel_acknowledged p.acknowledged_at none [] none v.store))

  settled-IfTold :
      (r : JobRecord) (result : Option ReviewedResult) (ids : List ℕ) (now : ℕ) (w : Service)
      → IfTold attempt.job_id (settled sha256 content_digest digest_of attempt r result ids now w)
  settled-IfTold r none ids now w =
      and_then-IfTold attempt.job_id needs_human waiting (Worker.wait_for_human attempt ids now w)
        (λ u h. h) (wait_for_human-IfEnded ids now w)
  settled-IfTold r (some result) ids now w =
      if-IfTold attempt.job_id (not (same_run result.run r.current_run)) _ _ tt (
        and_then-IfTold attempt.job_id publish_result published
          (Worker.publish digest_of attempt result.body now w) (λ u h. h)
          (publish-IfEnded result.body now w))

  concluded-IfTold :
      (r : JobRecord) (ended : Ended) (now : ℕ) (w : Service)
      → IfTold attempt.job_id (concluded sha256 content_digest digest_of attempt r ended now w)
  concluded-IfTold r (raised e) now w = tt
  concluded-IfTold r (returned executed) now w =
      settled-IfTold r executed.result executed.persisted_task_ids now w

  pub attempted-IfTold :
      (timeout : ℕ) (message : DispatchMessage) (p : Passage) (w : Service)
      → IfTold attempt.job_id
          (attempted sha256 content_digest digest_of timeout message attempt p w)
  unfolding attempted
  attempted-IfTold timeout message p w =
      let v = perform_all sha256 content_digest digest_of p.before_read w in
      and_then-told attempt.job_id (read_job message.job_id v.store, v)
        (recorded sha256 content_digest digest_of timeout message attempt p)
        (λ found u.
          and_then-told attempt.job_id (own_record message found, u)
            (executing sha256 content_digest digest_of timeout attempt p)
            (λ r u. if-IfTold attempt.job_id r.cancel_requested _ _ (acknowledged-IfTold p u) (
              and_then-told attempt.job_id
                (watch sha256 content_digest digest_of (p.started + timeout) attempt p.turns u) _
                (λ stop t. if-IfTold attempt.job_id stop _ _ (acknowledged-IfTold p t) (
                  concluded-IfTold r p.ended p.finished_at
                    (perform_all sha256 content_digest digest_of p.before_finish t))))))

  -- A failure that is recorded: its label tells the status of the record.
  abbrev IfFailed : Result JobRecord × Service → Type 0
  IfFailed (ok r, w) = Told attempt.job_id (failure_outcome r) w
  IfFailed (err e, w) = Unit

  failure_outcome-Told :
      (r : JobRecord) (w : Service)
      → read_job attempt.job_id w.store ≡ ok (some r)
      → Told attempt.job_id (failure_outcome r) w
  unfolding failure_outcome
  failure_outcome-Told r w read = elim (Bool-cases (same_status r.status cancelled)) [
    | inl met ↦ rw met (record { record_read = r; read = read; allows = met })
    | inr unmet ↦ elim (Bool-cases (same_status r.status failed)) [
      | inl met ↦ rw (unmet, met) (record { record_read = r; read = read; allows = met })
      | inr other ↦ rw (unmet, other) tt
    ]
  ]

  queued-IfFailed :
      (done : Result JobRecord × Store) (w : Service)
      → IfQueued done
      → IfFailed (done.0, record w { store = done.1 })
  unfolding failure_outcome
  queued-IfFailed (err e, s) w h = tt
  queued-IfFailed (ok r, s) w h = rw h tt

  reschedule-IfFailed :
      (r : JobRecord) (reading : Reading) (w : Service) → IfFailed (Worker.reschedule r reading w)
  unfolding Worker.reschedule
  reschedule-IfFailed r reading w = delayed (backoff_seconds w.policy r.attempt_count)
    where
      delayed :
          (delay : Result ℕ)
          → IfFailed (
              and_then
                (delay, w)
                (λ delay w'.
                  on_store
                    (schedule_retry r.job_id
                      (reading.at + delay + reading.jitter delay)
                      reading.token
                      reading.later)
                    w'))
      delayed (err e) = tt
      delayed (ok delay) = queued-IfFailed _ w (
          schedule_retry-IfQueued r.job_id (reading.at + delay + reading.jitter delay) reading.token
            reading.later w.store)

  finished-IfFailed :
      (event : JobEvent) (reading : Reading) (done : Result JobRecord × Store) (w : Service)
      → IfReported attempt.job_id event done
      → IfFailed (
          and_then
            (done.0, record w { store = done.1 })
            (λ r w'.
              if not (same_status r.status retryable_failed)
              then (ok r, w')
              else Worker.reschedule r reading w'))
  finished-IfFailed event reading (err e, s) w h = tt
  finished-IfFailed event reading (ok r, s) w h =
      if-IfFailed (not (same_status r.status retryable_failed)) _ _
        (failure_outcome-Told r (record w { store = s }) h.read)
        (reschedule-IfFailed r reading (record w { store = s }))
    where
      if-IfFailed :
          (test : Bool) (x y : Result JobRecord × Service)
          → IfFailed x
          → IfFailed y
          → IfFailed (if test then x else y)
      if-IfFailed true x y hx hy = hx
      if-IfFailed false x y hx hy = hy

  fail-IfFailed :
      (code : ServiceErrorCode) (retryable : Bool) (now : ℕ) (reading : Reading) (w : Service)
      → IfFailed (Worker.fail attempt code retryable now reading w)
  unfolding Worker.fail
  fail-IfFailed code retryable now reading w =
      let event = if retryable then retryable_error else permanent_error in
      elim (Bool-cases (Worker.same_bool retryable (permanent_code code))) [
        | inl bad ↦ rw bad tt
        | inr fine ↦ rw fine (
            finished-IfFailed event reading _ w
              (finish-IfReported attempt event now (some (record { code = code })) [] none w.store))
      ]

  failure_answered-IfTold :
      (done : Result JobRecord × Service)
      → IfFailed done
      → IfTold attempt.job_id (failure_answered sha256 content_digest digest_of done)
  failure_answered-IfTold (ok r, w) h = h
  failure_answered-IfTold (err condition_failed, w) h = tt
  failure_answered-IfTold (err (service_fault code), w) h = tt
  failure_answered-IfTold (err value_error, w) h = tt
  failure_answered-IfTold (err key_error, w) h = tt

  failing-IfTold :
      (p : Passage) (code : ServiceErrorCode) (retryable : Bool) (w : Service)
      → IfTold attempt.job_id (failing sha256 content_digest digest_of attempt p code retryable w)
  unfolding failing
  failing-IfTold p code retryable w =
      let v = perform_all sha256 content_digest digest_of p.before_failure w in
      failure_answered-IfTold (Worker.fail attempt code retryable p.failed_at p.reading v)
        (fail-IfFailed code retryable p.failed_at p.reading v)

  pub handled-IfTold :
      (p : Passage) (done : Result Outcome × Service)
      → IfTold attempt.job_id done
      → IfTold attempt.job_id (handled sha256 content_digest digest_of attempt p done)
  handled-IfTold p (ok label, w) h = h
  handled-IfTold p (err condition_failed, w) h = tt
  handled-IfTold p (err (service_fault code), w) h = failing-IfTold p code (not (permanent code)) w
  handled-IfTold p (err value_error, w) h = failing-IfTold p execution true w
  handled-IfTold p (err key_error, w) h = failing-IfTold p execution true w
