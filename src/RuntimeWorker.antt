-- ===== src/RuntimeWorker.antt =====
-- src/appraisal_review/application/runtime_worker.py: one delivered message, from the claim to the
-- end of the attempt. The execution is injected: when it ends and what it then gives are read from
-- outside, and so are the clocks. Between two awaited calls the service may perform any operations
-- for others; they are lists of operations here.
mod Calls
mod Answers
mod Told
mod Outcomes
mod Returned
mod Witness
use newtaipei_appraisal_revi.Prelude.{
  ℕ, ◌+◌, String, Bool, true, false, not, ◌||◌, Option, none, some, List, [], ◌∷◌, is_some,
  is_empty, leb, eqb, if◌then◌else◌, ◌==◌, string_eq, nat_eq, option_eq,
}
use newtaipei_appraisal_revi.Faults.{
  Result, Fault, ok, err, service_fault, condition_failed, value_error, key_error, validation,
  unauthorized, not_found, execution, ServiceErrorCode,
}
use newtaipei_appraisal_revi.JobContracts.{running, failed, cancelled, same_status}
use newtaipei_appraisal_revi.JobContracts.{RunReference}
use newtaipei_appraisal_revi.ActionContracts.Snapshot.{same_run}
use newtaipei_appraisal_revi.ServiceGuards.{ReviewSubmission}
use newtaipei_appraisal_revi.JobStore.Model.{JobRecord, ClaimedAttempt, HeartbeatState}
use newtaipei_appraisal_revi.JobStore.Read.{read_job}
use newtaipei_appraisal_revi.ReviewJobs.{ServiceResult}
use newtaipei_appraisal_revi.ReviewJobs.Service.{Service, Action, and_then}
use newtaipei_appraisal_revi.ReviewJobs.Worker.{
  Reading, claim, heartbeat, publish, wait_for_human, fail, acknowledge_cancel,
}
use newtaipei_appraisal_revi.ReviewJobs.Operation.{Operation, perform_all}
use newtaipei_appraisal_revi.Outbox.{DispatchMessage}

-- The labels that `process` returns.
pub data Outcome : Type 0 where
  superseded cancelled_attempt published waiting failed_attempt retry_scheduled : Outcome

-- `run` is the result's own reference, of which `ServiceResult` here has the identifier only.
pub record ReviewedResult : Type 0 where
  pub run : RunReference
  pub body : ServiceResult

pub record ExecutedReview : Type 0 where
  pub result : Option ReviewedResult
  pub persisted_task_ids : List ℕ

-- `__post_init__`: `true` where no `ValueError` is raised.
unfoldable pub valid_review : ExecutedReview → Bool
valid_review e =
    if is_some e.result then is_empty e.persisted_task_ids else not (is_empty e.persisted_task_ids)

-- What `task.result()` does, the cancellation of the worker's own task left out.
pub data Ended : Type 0 where
  returned : ExecutedReview → Ended
  raised : Fault → Ended

-- One turn of the loop: what others do while it waits, the loop's time when it looks at it, the
-- clock of the heartbeat, and whether the task was done when the wait returned.
pub record Turn : Type 0 where
  pub others : List Operation
  pub head : ℕ
  pub woken : ℕ
  pub now : ℕ
  pub last : ℕ
  pub done : Bool

-- What a run of `process` reads from outside. The turns end early where the task is done at the
-- head of the loop. `before_return` is what others do while the `finally` waits for the task.
pub record Passage : Type 0 where
  pub owner : ℕ
  pub attempt_id : ℕ
  pub claimed_at : ℕ
  pub before_read : List Operation
  pub started : ℕ
  pub turns : List Turn
  pub before_acknowledge : List Operation
  pub acknowledged_at : ℕ
  pub ended : Ended
  pub before_finish : List Operation
  pub finished_at : ℕ
  pub before_failure : List Operation
  pub failed_at : ℕ
  pub reading : Reading
  pub before_return : List Operation

-- The codes that `process` does not retry.
abbrev pub permanent : ServiceErrorCode → Bool
permanent unauthorized = true
permanent not_found = true
permanent validation = true
permanent _ = false

-- `_failure_outcome`
unfoldable pub failure_outcome : JobRecord → Outcome
failure_outcome r =
    if same_status r.status cancelled
    then cancelled_attempt
    else if same_status r.status failed
    then failed_attempt
    else retry_scheduled

-- `if record is None or record.current_run.run_id != message.run_id: raise ConditionFailed`
abbrev pub own_record : DispatchMessage → Option JobRecord → Result JobRecord
own_record message none = err condition_failed
own_record message (some r) =
    if eqb r.current_run.run_id message.run_id then ok r else err condition_failed

module _ (sha256 : String → String) (content_digest : ReviewSubmission → String)
    (digest_of : ServiceResult → String) where
  -- The loop around the running task; `true` where a heartbeat reports a requested cancellation.
  -- `TimeoutError`, like every exception that is neither `ConditionFailed` nor `ServiceFault`, is
  -- `value_error` here: `process` handles them alike.
  unfoldable pub watch : ℕ → ClaimedAttempt → List Turn → Action Bool
  watch deadline attempt [] w = (ok false, w)
  watch deadline attempt (t ∷ ts) w =
      if leb deadline t.head
      then (err value_error, w)
      else let v = perform_all sha256 content_digest digest_of t.others w in
        if leb deadline t.woken
        then (err value_error, v)
        else and_then (heartbeat attempt t.now v) (λ state u.
          if state.cancel_requested
          then (ok true, u)
          else if leb deadline t.last
          then (err value_error, u)
          else if t.done
          then (ok false, u)
          else watch deadline attempt ts u)

  -- `acknowledge_cancel` and its label.
  abbrev pub acknowledged : ClaimedAttempt → Passage → Action Outcome
  acknowledged attempt p w =
      and_then
        (acknowledge_cancel attempt p.acknowledged_at
          (perform_all sha256 content_digest digest_of p.before_acknowledge w))
        (λ r v. (ok cancelled_attempt, v))

  -- The body is validated again with `durable` set, a field that the body here does not have.
  abbrev pub published_result : ClaimedAttempt → JobRecord → ReviewedResult → ℕ → Action Outcome
  published_result attempt r result now w =
      if not (same_run result.run r.current_run)
      then (err (service_fault validation), w)
      else and_then (publish digest_of attempt result.body now w) (λ done v. (ok published, v))

  abbrev pub settled :
      ClaimedAttempt → JobRecord → Option ReviewedResult → List ℕ → ℕ → Action Outcome
  settled attempt r (some result) task_ids now w = published_result attempt r result now w
  settled attempt r none task_ids now w =
      and_then (wait_for_human attempt task_ids now w) (λ done v. (ok waiting, v))

  -- From `task.result()` to the end of the `try`.
  abbrev pub concluded : ClaimedAttempt → JobRecord → Ended → ℕ → Action Outcome
  concluded attempt r (raised e) now w = (err e, w)
  concluded attempt r (returned executed) now w =
      settled attempt r executed.result executed.persisted_task_ids now w

  -- Once the record is read: the timeout is in the unit of the loop's time.
  abbrev pub executing : ℕ → ClaimedAttempt → Passage → JobRecord → Action Outcome
  executing timeout attempt p r w =
      if r.cancel_requested
      then acknowledged attempt p w
      else and_then (watch (p.started + timeout) attempt p.turns w) (λ stop v.
        if stop
        then acknowledged attempt p v
        else concluded attempt r p.ended p.finished_at
            (perform_all sha256 content_digest digest_of p.before_finish v))

  abbrev pub recorded :
      ℕ → DispatchMessage → ClaimedAttempt → Passage → Option JobRecord → Action Outcome
  recorded timeout message attempt p found w =
      and_then (own_record message found, w) (executing timeout attempt p)

  abbrev pub read_back : ℕ → DispatchMessage → ClaimedAttempt → Passage → Action Outcome
  read_back timeout message attempt p w =
      and_then (read_job message.job_id w.store, w) (recorded timeout message attempt p)

  -- The body of the second `try`.
  unfoldable pub attempted : ℕ → DispatchMessage → ClaimedAttempt → Passage → Action Outcome
  attempted timeout message attempt p w =
      read_back timeout message attempt p
        (perform_all sha256 content_digest digest_of p.before_read w)

  abbrev pub failure_answered : Result JobRecord × Service → Result Outcome × Service
  failure_answered (ok r, w) = (ok (failure_outcome r), w)
  failure_answered (err condition_failed, w) = (ok superseded, w)
  failure_answered (err e, w) = (err e, w)

  unfoldable pub failing : ClaimedAttempt → Passage → ServiceErrorCode → Bool → Action Outcome
  unfolding failure_outcome
  failing attempt p code retryable w = failure_answered (
      fail attempt code retryable p.failed_at p.reading
        (perform_all sha256 content_digest digest_of p.before_failure w))

  -- The `except` clauses.
  abbrev pub handled :
      ClaimedAttempt → Passage → Result Outcome × Service → Result Outcome × Service
  handled attempt p (ok label, w) = (ok label, w)
  handled attempt p (err condition_failed, w) = (ok superseded, w)
  handled attempt p (err (service_fault code), w) = failing attempt p code (not (permanent code)) w
  handled attempt p (err value_error, w) = failing attempt p execution true w
  handled attempt p (err key_error, w) = failing attempt p execution true w

  -- `task` was created: the record was read, it is that of the run, and no cancellation was requested.
  abbrev pub started : Result JobRecord → Bool
  started (ok r) = not r.cancel_requested
  started (err e) = false

  abbrev pub task_started : DispatchMessage → Result (Option JobRecord) → Bool
  task_started message (ok found) = started (own_record message found)
  task_started message (err e) = false

  -- The `finally`: where there is a task it is awaited, and others go on meanwhile.
  abbrev pub gathered : Bool → Passage → Result Outcome × Service → Result Outcome × Service
  gathered true p done =
      (done.0, perform_all sha256 content_digest digest_of p.before_return done.1)
  gathered false p done = done

  abbrev pub claimed :
      ℕ → DispatchMessage → Passage → Result ClaimedAttempt × Service → Result Outcome × Service
  claimed timeout message p (ok attempt, w) =
      gathered
        (task_started message (
          read_job message.job_id
            (perform_all sha256 content_digest digest_of p.before_read w).store))
        p (handled attempt p (attempted timeout message attempt p w))
  claimed timeout message p (err condition_failed, w) = (ok superseded, w)
  claimed timeout message p (err e, w) = (err e, w)

  -- `RuntimeWorker.process`
  unfoldable pub process : ℕ → DispatchMessage → Passage → Action Outcome
  unfolding attempted failing
  process timeout message p w =
      claimed timeout message p
        (claim message.job_id message.run_id p.owner p.attempt_id p.claimed_at w)
