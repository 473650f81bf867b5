-- ===== src/Outbox/Counts.antt =====
-- The counts of a dispatch pass of outbox.py.
use newtaipei_appraisal_revi.Prelude.{
  ℕ, String, ◌+◌, suc, ◌≡◌, refl, Bool, true, false, List, [], ◌∷◌, length, arith,
}
use newtaipei_appraisal_revi.Faults.{
  Result, ok, err, service_fault, condition_failed, value_error, key_error,
}
use newtaipei_appraisal_revi.ServiceGuards.{ReviewSubmission}
use newtaipei_appraisal_revi.ReviewJobs.{ServiceResult}
use newtaipei_appraisal_revi.ReviewJobs.Operation.{perform_all}
use newtaipei_appraisal_revi.JobStore.Model.{DispatchRecord, JobRecord}
use newtaipei_appraisal_revi.ReviewJobs.Service.{Service, Action, and_then}
use newtaipei_appraisal_revi.ReviewJobs.Reconciler.{
  due_dispatches, confirm_dispatch, defer_dispatch,
}
use newtaipei_appraisal_revi.Outbox.{
  Turn, Answer, accepted, refused, raised, DispatchOutcome, no_rounds, message, confirmed,
  rescheduled, answered, dispatch_round, dispatch_rounds, run_once,
}

-- Every round that a pass took up is counted once.
abbrev pub handled : DispatchOutcome → ℕ
handled counts = counts.sent + counts.deferred + counts.superseded + counts.abandoned

and_then-ok :
    {A B : Type 0} (done : Result A × Service) (rest : A → Action B) {b : B}
    → (and_then done rest).0 ≡ ok b
    → (a : A) × (done.0 ≡ ok a) × ((rest a done.1).0 ≡ ok b)
and_then-ok (err e, w) rest h = absurd (cc h)
and_then-ok (ok a, w) rest h = (a, refl, h)

confirmed-handled :
    (counts : DispatchOutcome) (done : Result JobRecord × Service) {counts' : DispatchOutcome}
    → (confirmed counts done).0 ≡ ok counts'
    → handled counts' ≡ handled counts + 1
confirmed-handled counts (ok r, w) h = ground arith
confirmed-handled counts (err condition_failed, w) h = ground arith
confirmed-handled counts (err (service_fault code), w) h = ground arith
confirmed-handled counts (err value_error, w) h = ground arith
confirmed-handled counts (err key_error, w) h = ground arith

rescheduled-handled :
    (counts : DispatchOutcome) (kept : Bool)
    → handled (rescheduled counts kept) ≡ handled counts + 1
rescheduled-handled counts true = omega arith
rescheduled-handled counts false = omega arith

answered-handled :
    (answer : Answer) (round : DispatchRecord) (turn : Turn) (counts : DispatchOutcome)
    (w : Service) {counts' : DispatchOutcome}
    → (answered answer round turn counts w).0 ≡ ok counts'
    → handled counts' ≡ handled counts + 1
answered-handled accepted round turn counts w h =
    confirmed-handled counts (confirm_dispatch round turn.now w) h
answered-handled refused round turn counts w {counts'} h =
    let (kept, _, done) =
      and_then-ok (defer_dispatch round turn.now turn.jitter w)
        (λ kept w'. (ok (rescheduled counts kept), w')) h in
    let same : rescheduled counts kept ≡ counts' = cc done in
    rw (← same) (rescheduled-handled counts kept)
answered-handled (raised e) round turn counts w h = absurd (cc h)

module _ (sha256 : String → String) (content_digest : ReviewSubmission → String)
    (digest_of : ServiceResult → String) where
  dispatch_rounds-handled :
      (rounds : List DispatchRecord) (turns : ℕ → Turn) (counts : DispatchOutcome) (w : Service)
      {counts' : DispatchOutcome}
      → (dispatch_rounds sha256 content_digest digest_of rounds turns counts w).0 ≡ ok counts'
      → handled counts' ≡ handled counts + length rounds
  unfolding dispatch_rounds dispatch_round
  dispatch_rounds-handled [] turns counts w h = ground arith
  dispatch_rounds-handled (round ∷ rounds) turns counts w h =
      let (middle, first, rest) =
        and_then-ok (dispatch_round sha256 content_digest digest_of round (turns 0) counts w)
          (λ counts' w'.
            dispatch_rounds sha256 content_digest digest_of rounds (λ k. turns (suc k)) counts' w')
          h in
      let one =
        answered-handled ((turns 0).answer (message round (turns 0).enqueued_at)) round (turns 0)
          counts (perform_all sha256 content_digest digest_of (turns 0).others w) first in
      let others =
        dispatch_rounds-handled rounds (λ k. turns (suc k)) middle
          (dispatch_round sha256 content_digest digest_of round (turns 0) counts w).1 rest in
      omega arith

  -- A dispatch pass that returns has counted each round that was due exactly once, whatever the queue
  -- answered and whatever others did while it was asked.
  pub run_once-handled :
      (limit now : ℕ) (turns : ℕ → Turn) (w : Service) {counts : DispatchOutcome}
      → (run_once sha256 content_digest digest_of limit now turns w).0 ≡ ok counts
      → (rounds : List DispatchRecord) × (due_dispatches limit now w ≡ ok rounds)
        × (handled counts ≡ length rounds)
  unfolding run_once
  run_once-handled limit now turns w h =
      let (rounds, due, rest) =
        and_then-ok (due_dispatches limit now w, w)
          (λ rounds w'. dispatch_rounds sha256 content_digest digest_of rounds turns no_rounds w')
          h in
      let all = dispatch_rounds-handled rounds turns no_rounds w rest in (rounds, due, omega arith)
