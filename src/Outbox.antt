-- ===== src/Outbox.antt =====
-- src/appraisal_review/application/outbox.py: the dispatcher that hands owned work to the queue, and
-- the reconciler's pass. The queue is injected: what it answers to a message is read from outside.
mod Counts
mod Effects
mod Settled
mod Due
mod Delivery
mod Accepted
mod Witness
use newtaipei_appraisal_revi.Prelude.{
  ℕ, ◌+◌, suc, String, Bool, true, false, Option, List, [], ◌∷◌, length, is_some, if◌then◌else◌,
}
use newtaipei_appraisal_revi.Faults.{Result, Fault, ok, err, condition_failed}
use newtaipei_appraisal_revi.JobStore.Model.{DispatchRecord, JobRecord}
use newtaipei_appraisal_revi.ServiceGuards.{ReviewSubmission}
use newtaipei_appraisal_revi.ReviewJobs.{ServiceResult}
use newtaipei_appraisal_revi.ReviewJobs.Service.{Service, Action, and_then}
use newtaipei_appraisal_revi.ReviewJobs.Operation.{Operation, perform_all}
use newtaipei_appraisal_revi.ReviewJobs.Worker.{Reading}
use newtaipei_appraisal_revi.ReviewJobs.Reconciler.{
  due_dispatches, confirm_dispatch, defer_dispatch, reclaim_expired_leases,
  recover_stranded_retryables, recover_retryable,
}

-- References only, without the constant `schema_version`.
pub record DispatchMessage : Type 0 where
  pub job_id : ℕ
  pub run_id : ℕ
  pub outbox_seq : ℕ
  pub dispatch_token : ℕ
  pub enqueued_at : ℕ

-- What `send` does: it returns, it raises `TransientDispatchError`, or it raises something else.
pub data Answer : Type 0 where
  accepted refused : Answer
  raised : Fault → Answer

pub record DispatchOutcome : Type 0 where
  pub sent : ℕ
  pub deferred : ℕ
  pub superseded : ℕ
  pub abandoned : ℕ

pub record ReconcileOutcome : Type 0 where
  pub dispatch : DispatchOutcome
  pub leases_reclaimed : ℕ
  pub retries_scheduled : ℕ

-- What one turn of the dispatcher's loop reads from outside: the clock, once for the message and
-- once for the store, the jitter of a deferral, and the queue's answer. `others` is what the service
-- does for others until that answer is there: the dispatcher awaits `send` between two store calls.
pub record Turn : Type 0 where
  pub enqueued_at : ℕ
  pub now : ℕ
  pub others : List Operation
  pub jitter : ℕ → ℕ
  pub answer : DispatchMessage → Answer

abbrev pub no_rounds : DispatchOutcome
no_rounds = record { sent = 0; deferred = 0; superseded = 0; abandoned = 0 }

-- `OutboxDispatcher._message`
unfoldable pub message : DispatchRecord → ℕ → DispatchMessage
message round now = record {
  job_id = round.job_id;
  run_id = round.run_id;
  outbox_seq = round.outbox_seq;
  dispatch_token = round.dispatch_token;
  enqueued_at = now;
}

-- The `try` around the confirmation.
abbrev pub confirmed :
    DispatchOutcome → Result JobRecord × Service → Result DispatchOutcome × Service
confirmed counts (ok r, w) = (ok (record counts { sent = counts.sent + 1 }), w)
confirmed counts (err condition_failed, w) =
    (ok (record counts { superseded = counts.superseded + 1 }), w)
confirmed counts (err e, w) = (err e, w)

abbrev pub rescheduled : DispatchOutcome → Bool → DispatchOutcome
rescheduled counts true = record counts { deferred = counts.deferred + 1 }
rescheduled counts false = record counts { abandoned = counts.abandoned + 1 }

-- The body of the loop, once the queue has answered.
abbrev pub answered : Answer → DispatchRecord → Turn → DispatchOutcome → Action DispatchOutcome
answered accepted round turn counts w = confirmed counts (confirm_dispatch round turn.now w)
answered refused round turn counts w =
    and_then (defer_dispatch round turn.now turn.jitter w)
      (λ kept w'. (ok (rescheduled counts kept), w'))
answered (raised e) round turn counts w = (err e, w)

-- What a pass of the reconciler reads: the clocks and tokens of its three scans.
pub record PassReading : Type 0 where
  pub lapsed_at : ℕ
  pub tokens : ℕ → ℕ
  pub clocks : ℕ → ℕ
  pub stranded_at : ℕ
  pub retries : ℕ → Reading
  pub due_at : ℕ
  pub turns : ℕ → Turn

module _ (sha256 : String → String) (content_digest : ReviewSubmission → String)
    (digest_of : ServiceResult → String) where
  unfoldable pub dispatch_round : DispatchRecord → Turn → DispatchOutcome → Action DispatchOutcome
  unfolding message
  dispatch_round round turn counts w =
      answered (turn.answer (message round turn.enqueued_at)) round turn counts
        (perform_all sha256 content_digest digest_of turn.others w)

  -- The loop of `OutboxDispatcher.run_once`: the k-th turn has a reading of its own.
  unfoldable pub dispatch_rounds :
      List DispatchRecord → (ℕ → Turn) → DispatchOutcome → Action DispatchOutcome
  unfolding dispatch_round
  dispatch_rounds [] turns counts w = (ok counts, w)
  dispatch_rounds (round ∷ rounds) turns counts w =
      and_then (dispatch_round round (turns 0) counts w)
        (λ counts' w'. dispatch_rounds rounds (λ k. turns (suc k)) counts' w')

  -- `OutboxDispatcher.run_once`
  unfoldable pub run_once : ℕ → ℕ → (ℕ → Turn) → Action DispatchOutcome
  unfolding due_dispatches dispatch_rounds
  run_once limit now turns w =
      and_then (due_dispatches limit now w, w)
        (λ rounds w'. dispatch_rounds rounds turns no_rounds w')

  -- `JobReconciler.run_once`: reclaim, then the stranded retries, then the dispatch.
  unfoldable pub reconcile : ℕ → PassReading → Action ReconcileOutcome
  unfolding run_once reclaim_expired_leases recover_stranded_retryables
  reconcile limit pass w =
      and_then (reclaim_expired_leases limit pass.lapsed_at pass.tokens pass.clocks w)
        (λ reclaimed w₁.
          and_then (recover_stranded_retryables limit pass.stranded_at pass.retries w₁)
            (λ retries w₂. and_then (run_once limit pass.due_at pass.turns w₂) (λ dispatch w₃. (
              ok (record {
                dispatch = dispatch;
                leases_reclaimed = length reclaimed;
                retries_scheduled = retries;
              }),
              w₃,
            ))))

-- `JobReconciler.recover_job`
unfoldable pub recover_job : ℕ → Reading → Action Bool
unfolding recover_retryable
recover_job job_id reading w =
    and_then (recover_retryable job_id reading w) (λ found w'. (ok (is_some found), w'))
