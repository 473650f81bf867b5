-- ===== src/RuntimeWorker/Calls.antt =====
-- The calls that `RuntimeWorker.process` of runtime_worker.py makes on the job store.
use newtaipei_appraisal_revi.Prelude.{
  ℕ, ◌+◌, String, refl, Bool, true, false, not, Option, none, some, List, [], ◌∷◌, leb,
  if◌then◌else◌,
}
use newtaipei_appraisal_revi.Faults.{
  Result, ok, err, service_fault, condition_failed, value_error, key_error, ServiceErrorCode,
  execution,
}
use newtaipei_appraisal_revi.ServiceGuards.{ReviewSubmission}
use newtaipei_appraisal_revi.ActionContracts.Snapshot.{same_run}
use newtaipei_appraisal_revi.JobStore.Model.{JobRecord, ClaimedAttempt}
use newtaipei_appraisal_revi.JobStore.Read.{read_job}
use newtaipei_appraisal_revi.ReviewJobs.{ServiceResult}
use newtaipei_appraisal_revi.ReviewJobs.Service.{Service, Action, and_then}
use newtaipei_appraisal_revi.ReviewJobs.Worker
use newtaipei_appraisal_revi.ReviewJobs.Operation.{Operation, perform, perform_all}
use newtaipei_appraisal_revi.ReviewJobs.Calls.{
  Ran, Ran-refl, Ran-trans, and_then-Ran, if-Ran, perform-Ran, perform_all-Ran,
}
use newtaipei_appraisal_revi.Outbox.{DispatchMessage}
use newtaipei_appraisal_revi.RuntimeWorker.{
  Outcome, ReviewedResult, Ended, returned, raised, Turn, Passage, permanent, own_record, watch,
  acknowledged, published_result, settled, concluded, executing, recorded, read_back, attempted,
  failure_answered, failing, handled,
}

module _ (sha256 : String → String) (content_digest : ReviewSubmission → String)
    (digest_of : ServiceResult → String) where
  abbrev Reached : Service → Service → Type 0
  Reached = Ran sha256 content_digest digest_of

  abbrev stays : (w : Service) → Reached w w
  stays w = Ran-refl sha256 content_digest digest_of w w refl

  -- An action after what others did.
  after-Ran :
      {A : Type 0} (os : List Operation) (w : Service) (action : Action A)
      → ((v : Service) → Reached v (action v).1)
      → Reached w (action (perform_all sha256 content_digest digest_of os w)).1
  after-Ran os w action h =
      let v = perform_all sha256 content_digest digest_of os w in
      Ran-trans sha256 content_digest digest_of w v _
        (perform_all-Ran sha256 content_digest digest_of os w) (h v)

  heartbeat-Ran :
      (attempt : ClaimedAttempt) (now : ℕ) (w : Service)
      → Reached w (Worker.heartbeat attempt now w).1
  unfolding perform
  heartbeat-Ran attempt now w =
      perform-Ran sha256 content_digest digest_of (Operation.heartbeat attempt now) w

  watch-Ran :
      (deadline : ℕ) (attempt : ClaimedAttempt) (ts : List Turn) (w : Service)
      → Reached w (watch sha256 content_digest digest_of deadline attempt ts w).1
  unfolding watch
  watch-Ran deadline attempt [] w = stays w
  watch-Ran deadline attempt (t ∷ ts) w =
      if-Ran sha256 content_digest digest_of w (leb deadline t.head) _ _ (stays w) (
        after-Ran t.others w
          (λ v.
            if leb deadline t.woken
            then (err value_error, v)
            else and_then (Worker.heartbeat attempt t.now v) (λ state u.
              if state.cancel_requested
              then (ok true, u)
              else if leb deadline t.last
              then (err value_error, u)
              else if t.done
              then (ok false, u)
              else watch sha256 content_digest digest_of deadline attempt ts u))
          (λ v. if-Ran sha256 content_digest digest_of v (leb deadline t.woken) _ _ (stays v) (
            and_then-Ran sha256 content_digest digest_of v (Worker.heartbeat attempt t.now v) _
              (heartbeat-Ran attempt t.now v)
              (λ state u.
                if-Ran sha256 content_digest digest_of u state.cancel_requested _ _ (stays u) (
                  if-Ran sha256 content_digest digest_of u (leb deadline t.last) _ _ (stays u) (
                    if-Ran sha256 content_digest digest_of u t.done _ _ (stays u)
                      (watch-Ran deadline attempt ts u)))))))

  acknowledged-Ran :
      (attempt : ClaimedAttempt) (p : Passage) (w : Service)
      → Reached w (acknowledged sha256 content_digest digest_of attempt p w).1
  unfolding perform
  acknowledged-Ran attempt p w =
      after-Ran p.before_acknowledge w
        (λ v.
          and_then (Worker.acknowledge_cancel attempt p.acknowledged_at v)
            (λ r v. (ok Outcome.cancelled_attempt, v)))
        (λ v.
          and_then-Ran sha256 content_digest digest_of v
            (Worker.acknowledge_cancel attempt p.acknowledged_at v) _
            (perform-Ran sha256 content_digest digest_of
              (Operation.acknowledge_cancel attempt p.acknowledged_at) v)
            (λ r u. stays u))

  published_result-Ran :
      (attempt : ClaimedAttempt) (r : JobRecord) (result : ReviewedResult) (now : ℕ) (w : Service)
      → Reached w (published_result sha256 content_digest digest_of attempt r result now w).1
  unfolding perform
  published_result-Ran attempt r result now w =
      if-Ran sha256 content_digest digest_of w (not (same_run result.run r.current_run)) _ _
        (stays w)
        (and_then-Ran sha256 content_digest digest_of w
          (Worker.publish digest_of attempt result.body now w) _
          (perform-Ran sha256 content_digest digest_of (Operation.publish attempt result.body now)
            w)
          (λ done u. stays u))

  settled-Ran :
      (attempt : ClaimedAttempt) (r : JobRecord) (result : Option ReviewedResult) (ids : List ℕ)
      (now : ℕ) (w : Service)
      → Reached w (settled sha256 content_digest digest_of attempt r result ids now w).1
  unfolding perform
  settled-Ran attempt r (some result) ids now w = published_result-Ran attempt r result now w
  settled-Ran attempt r none ids now w =
      and_then-Ran sha256 content_digest digest_of w (Worker.wait_for_human attempt ids now w) _
        (perform-Ran sha256 content_digest digest_of (Operation.wait_for_human attempt ids now) w)
        (λ done u. stays u)

  concluded-Ran :
      (attempt : ClaimedAttempt) (r : JobRecord) (ended : Ended) (now : ℕ) (w : Service)
      → Reached w (concluded sha256 content_digest digest_of attempt r ended now w).1
  concluded-Ran attempt r (raised e) now w = stays w
  concluded-Ran attempt r (returned executed) now w =
      settled-Ran attempt r executed.result executed.persisted_task_ids now w

  stopped_or_concluded-Ran :
      (attempt : ClaimedAttempt) (p : Passage) (r : JobRecord) (stop : Bool) (w : Service)
      → Reached w
          (if stop
            then acknowledged sha256 content_digest digest_of attempt p w
            else concluded sha256 content_digest digest_of attempt r p.ended p.finished_at
                (perform_all sha256 content_digest digest_of p.before_finish w)).1
  stopped_or_concluded-Ran attempt p r stop w =
      if-Ran sha256 content_digest digest_of w stop _ _ (acknowledged-Ran attempt p w) (
        after-Ran p.before_finish w
          (concluded sha256 content_digest digest_of attempt r p.ended p.finished_at)
          (concluded-Ran attempt r p.ended p.finished_at))

  executing-Ran :
      (timeout : ℕ) (attempt : ClaimedAttempt) (p : Passage) (r : JobRecord) (w : Service)
      → Reached w (executing sha256 content_digest digest_of timeout attempt p r w).1
  executing-Ran timeout attempt p r w =
      if-Ran sha256 content_digest digest_of w r.cancel_requested
        (acknowledged sha256 content_digest digest_of attempt p w) _ (acknowledged-Ran attempt p w)
        (and_then-Ran sha256 content_digest digest_of w
          (watch sha256 content_digest digest_of (p.started + timeout) attempt p.turns w) _
          (watch-Ran (p.started + timeout) attempt p.turns w)
          (stopped_or_concluded-Ran attempt p r))

  pub attempted-Ran :
      (timeout : ℕ) (message : DispatchMessage) (attempt : ClaimedAttempt) (p : Passage)
      (w : Service)
      → Reached w (attempted sha256 content_digest digest_of timeout message attempt p w).1
  unfolding attempted
  attempted-Ran timeout message attempt p w =
      after-Ran p.before_read w
        (read_back sha256 content_digest digest_of timeout message attempt p)
        (λ v.
          and_then-Ran sha256 content_digest digest_of v (read_job message.job_id v.store, v)
            (recorded sha256 content_digest digest_of timeout message attempt p) (stays v)
            (λ found u.
              and_then-Ran sha256 content_digest digest_of u (own_record message found, u)
                (executing sha256 content_digest digest_of timeout attempt p) (stays u)
                (executing-Ran timeout attempt p)))

  failure_answered-Ran :
      (w : Service) (done : Result JobRecord × Service)
      → Reached w done.1
      → Reached w (failure_answered sha256 content_digest digest_of done).1
  failure_answered-Ran w (ok r, v) h = h
  failure_answered-Ran w (err condition_failed, v) h = h
  failure_answered-Ran w (err (service_fault code), v) h = h
  failure_answered-Ran w (err value_error, v) h = h
  failure_answered-Ran w (err key_error, v) h = h

  failing-Ran :
      (attempt : ClaimedAttempt) (p : Passage) (code : ServiceErrorCode) (retryable : Bool)
      (w : Service)
      → Reached w (failing sha256 content_digest digest_of attempt p code retryable w).1
  unfolding failing perform
  failing-Ran attempt p code retryable w =
      after-Ran p.before_failure w
        (λ v.
          failure_answered sha256 content_digest digest_of
            (Worker.fail attempt code retryable p.failed_at p.reading v))
        (λ v. failure_answered-Ran v (Worker.fail attempt code retryable p.failed_at p.reading v) (
          perform-Ran sha256 content_digest digest_of
            (Operation.fail attempt code retryable p.failed_at p.reading) v))

  pub handled-Ran :
      (attempt : ClaimedAttempt) (p : Passage) (w : Service) (done : Result Outcome × Service)
      → Reached w done.1
      → Reached w (handled sha256 content_digest digest_of attempt p done).1
  handled-Ran attempt p w (ok label, v) h = h
  handled-Ran attempt p w (err condition_failed, v) h = h
  handled-Ran attempt p w (err (service_fault code), v) h =
      Ran-trans sha256 content_digest digest_of w v _ h
        (failing-Ran attempt p code (not (permanent code)) v)
  handled-Ran attempt p w (err value_error, v) h =
      Ran-trans sha256 content_digest digest_of w v _ h (failing-Ran attempt p execution true v)
  handled-Ran attempt p w (err key_error, v) h =
      Ran-trans sha256 content_digest digest_of w v _ h (failing-Ran attempt p execution true v)
