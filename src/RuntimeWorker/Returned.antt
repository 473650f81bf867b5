-- ===== src/RuntimeWorker/Returned.antt =====
-- The labels of `RuntimeWorker.process` in runtime_worker.py, against the job that is read when it
-- returns: the `finally` waits for the task after the attempt is finished.
use newtaipei_appraisal_revi.Prelude.{
  ℕ, String, ◌≡◌, ◌⊎◌, some, ap, inl, inr, refl, subst, sym, ◌∙◌, Bool, true, false, arith,
}
use newtaipei_appraisal_revi.Faults.{
  Result, ok, err, service_fault, condition_failed, value_error, key_error,
}
use newtaipei_appraisal_revi.JobContracts.{
  JobStatus, succeeded, cancelled, failed, same_status, terminal_status,
}
use newtaipei_appraisal_revi.ServiceGuards.{ReviewSubmission}
use newtaipei_appraisal_revi.JobStore.Model.{Store, JobRecord, ClaimedAttempt}
use newtaipei_appraisal_revi.JobStore.Read.{read_job}
use newtaipei_appraisal_revi.JobStore.Lease
use newtaipei_appraisal_revi.JobStore.Fencing.{claim-ok}
use newtaipei_appraisal_revi.JobStore.Finality.{terminal-read_job}
use newtaipei_appraisal_revi.JobStore.Schedule.{run_calls-Follows}
use newtaipei_appraisal_revi.JobStore.Sound.{IsSound}
use newtaipei_appraisal_revi.JobStore.Steps.Submission.{HasRoom}
use newtaipei_appraisal_revi.ReviewJobs.{ServiceResult}
use newtaipei_appraisal_revi.ReviewJobs.Service.{Service}
use newtaipei_appraisal_revi.ReviewJobs.Operation.{perform, perform_all}
use newtaipei_appraisal_revi.ReviewJobs.Operation
use newtaipei_appraisal_revi.ReviewJobs.Calls.{Ran, Ran-trans, perform-Ran, perform_all-Ran}
use newtaipei_appraisal_revi.ReviewJobs.Worker
use newtaipei_appraisal_revi.Outbox.{DispatchMessage}
use newtaipei_appraisal_revi.RuntimeWorker.{
  Outcome, superseded, cancelled_attempt, published, waiting, failed_attempt, retry_scheduled,
  Passage, gathered, attempted, handled, claimed, process,
}
use newtaipei_appraisal_revi.RuntimeWorker.Told.{Stands, Told, IfTold}
use newtaipei_appraisal_revi.RuntimeWorker.Calls.{attempted-Ran, handled-Ran}
use newtaipei_appraisal_revi.RuntimeWorker.Outcomes.{attempted-IfTold, handled-IfTold}

succeeded-terminal : (s : JobStatus) → same_status s succeeded ≡ true → terminal_status s ≡ true
succeeded-terminal s h = ground arith

cancelled-terminal : (s : JobStatus) → same_status s cancelled ≡ true → terminal_status s ≡ true
cancelled-terminal s h = ground arith

failed-terminal : (s : JobStatus) → same_status s failed ≡ true → terminal_status s ≡ true
failed-terminal s h = ground arith

module _ (sha256 : String → String) (content_digest : ReviewSubmission → String)
    (digest_of : ServiceResult → String) where
  -- What a label says when `process` returns it. A job that waits may be answered while the `finally`
  -- waits, so `waiting_for_human` is about the moment before.
  abbrev pub Returned : ℕ → Passage → Outcome → Service → Type 0
  Returned job_id p superseded w = Told job_id superseded w
  Returned job_id p retry_scheduled w = Told job_id retry_scheduled w
  Returned job_id p published w = Told job_id published w
  Returned job_id p cancelled_attempt w = Told job_id cancelled_attempt w
  Returned job_id p failed_attempt w = Told job_id failed_attempt w
  Returned job_id p waiting w =
      (v : Service) × Told job_id waiting v
      × ((w ≡ v) ⊎ (w ≡ perform_all sha256 content_digest digest_of p.before_return v))

  abbrev IfReturned : ℕ → Passage → Result Outcome × Service → Type 0
  IfReturned job_id p (ok label, w) = Returned job_id p label w
  IfReturned job_id p (err e, w) = Unit

  -- A final status is kept by whatever follows.
  Stands-kept :
      (job_id : ℕ) (allowed : JobRecord → Bool) (v v' : Service)
      → HasRoom v.store.policy
      → IsSound v.store
      → Ran sha256 content_digest digest_of v v'
      → ((r : JobRecord) → allowed r ≡ true → terminal_status r.status ≡ true)
      → Stands job_id allowed v
      → Stands job_id allowed v'
  Stands-kept job_id allowed v v' room sound ran final h = record {
    record_read = h.record_read;
    read =
        subst (λ s. read_job job_id s ≡ ok (some h.record_read)) (sym ran.reached)
          (terminal-read_job sha256 content_digest ran.calls job_id v.store room sound h.read
            (final h.record_read h.allows));
    allows = h.allows;
  }

  module _ (job_id : ℕ) (p : Passage) (v : Service) (room : HasRoom v.store.policy)
      (sound : IsSound v.store) where
    unsuspended-Returned : (label : Outcome) → Told job_id label v → Returned job_id p label v
    unsuspended-Returned superseded h = h
    unsuspended-Returned retry_scheduled h = h
    unsuspended-Returned published h = h
    unsuspended-Returned cancelled_attempt h = h
    unsuspended-Returned failed_attempt h = h
    unsuspended-Returned waiting h = (v, h, inl refl)

    suspended-Returned :
        (label : Outcome)
        → Told job_id label v
        → Returned job_id p label (perform_all sha256 content_digest digest_of p.before_return v)
    suspended-Returned superseded h = h
    suspended-Returned retry_scheduled h = h
    suspended-Returned published h =
        Stands-kept job_id _ v _ room sound
          (perform_all-Ran sha256 content_digest digest_of p.before_return v)
          (λ r. succeeded-terminal r.status) h
    suspended-Returned cancelled_attempt h =
        Stands-kept job_id _ v _ room sound
          (perform_all-Ran sha256 content_digest digest_of p.before_return v)
          (λ r. cancelled-terminal r.status) h
    suspended-Returned failed_attempt h =
        Stands-kept job_id _ v _ room sound
          (perform_all-Ran sha256 content_digest digest_of p.before_return v)
          (λ r. failed-terminal r.status) h
    suspended-Returned waiting h = (v, h, inr refl)

  gathered-IfReturned :
      (job_id : ℕ) (p : Passage) (task : Bool) (done : Result Outcome × Service)
      → HasRoom done.1.store.policy
      → IsSound done.1.store
      → IfTold job_id done
      → IfReturned job_id p (gathered sha256 content_digest digest_of task p done)
  gathered-IfReturned job_id p true (err e, v) room sound h = tt
  gathered-IfReturned job_id p false (err e, v) room sound h = tt
  gathered-IfReturned job_id p true (ok label, v) room sound h =
      suspended-Returned job_id p v room sound label h
  gathered-IfReturned job_id p false (ok label, v) room sound h =
      unsuspended-Returned job_id p v room sound label h

  module _ (w : Service) (room : HasRoom w.store.policy) (sound : IsSound w.store) where
    Ran-IsSound : (v : Service) → Ran sha256 content_digest digest_of w v → IsSound v.store
    Ran-IsSound v ran =
        subst IsSound (sym ran.reached)
          (run_calls-Follows sha256 content_digest ran.calls w.store room sound).sound

    Ran-HasRoom : (v : Service) → Ran sha256 content_digest digest_of w v → HasRoom v.store.policy
    Ran-HasRoom v ran =
        subst HasRoom
          (sym (
            ap (λ (s : Store). s.policy) ran.reached
            ∙ (run_calls-Follows sha256 content_digest ran.calls w.store room sound).past.policy))
          room

    claimed-IfReturned :
        (timeout : ℕ) (message : DispatchMessage) (p : Passage)
        (done : Result ClaimedAttempt × Service)
        → Ran sha256 content_digest digest_of w done.1
        → ((attempt : ClaimedAttempt) → done.0 ≡ ok attempt → attempt.job_id ≡ message.job_id)
        → IfReturned message.job_id p
            (claimed sha256 content_digest digest_of timeout message p done)
    claimed-IfReturned timeout message p (err condition_failed, v) ran same = tt
    claimed-IfReturned timeout message p (err (service_fault code), v) ran same = tt
    claimed-IfReturned timeout message p (err value_error, v) ran same = tt
    claimed-IfReturned timeout message p (err key_error, v) ran same = tt
    claimed-IfReturned timeout message p (ok attempt, v) ran same =
        let tried = attempted sha256 content_digest digest_of timeout message attempt p v in
        let finished = handled sha256 content_digest digest_of attempt p tried in
        let ran' = handled-Ran sha256 content_digest digest_of attempt p w tried (
          Ran-trans sha256 content_digest digest_of w v _ ran
            (attempted-Ran sha256 content_digest digest_of timeout message attempt p v)) in
        gathered-IfReturned message.job_id p _ finished (Ran-HasRoom finished.1 ran')
          (Ran-IsSound finished.1 ran')
          (subst (λ j. IfTold j finished) (same attempt refl)
            (handled-IfTold sha256 content_digest digest_of attempt p tried
              (attempted-IfTold sha256 content_digest digest_of attempt timeout message p v)))

    -- From a sound store whose policy leaves room for an attempt and a takeover, the label that a
    -- worker returns is true of the job, whatever the execution gives and whatever others do
    -- meanwhile, the wait for the task after the attempt is finished included. When `process` returns
    -- `published` the job reads as succeeded, at `cancelled` as cancelled, and at `failed` as failed.
    -- At `waiting_for_human` the job read, before that last wait, as waiting for a human or, where a
    -- cancellation came first, as cancelled, and only others' operations lie between.
    pub process-Told :
        (timeout : ℕ) (message : DispatchMessage) (p : Passage) {label : Outcome} {w' : Service}
        → process sha256 content_digest digest_of timeout message p w ≡ (ok label, w')
        → Returned message.job_id p label w'
    unfolding process perform Worker.claim
    process-Told timeout message p h =
        let done = Worker.claim message.job_id message.run_id p.owner p.attempt_id p.claimed_at w in
        subst (IfReturned message.job_id p) h (
          claimed-IfReturned timeout message p done
            (perform-Ran sha256 content_digest digest_of
              (Operation.claim message.job_id message.run_id p.owner p.attempt_id p.claimed_at) w)
            (λ attempt e.
              (claim-ok message.job_id message.run_id p.owner w.policy.lease_seconds p.attempt_id
                p.claimed_at w.store
                (ap
                  (λ answer. (
                    answer,
                    (Lease.claim message.job_id message.run_id p.owner w.policy.lease_seconds
                        p.attempt_id p.claimed_at w.store).1,
                  ))
                  e)).identity.0))
