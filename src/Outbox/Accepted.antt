-- ===== src/Outbox/Accepted.antt =====
-- A dispatch pass of outbox.py beside others: what they do while the queue is asked.
use newtaipei_appraisal_revi.Prelude.{
  ℕ, ◌+◌, suc, String, ◌≤◌, ◌≡◌, refl, sym, ◌∙◌, subst, ◌⊎◌, List, [], ◌∷◌, length, nat_eq, pair_eq,
  arith,
}
use newtaipei_appraisal_revi.Faults.{Result, ok, err, condition_failed}
use newtaipei_appraisal_revi.ServiceGuards.{ReviewSubmission}
use newtaipei_appraisal_revi.JobStore.Model.{JobRecord, DispatchRecord, Store}
use newtaipei_appraisal_revi.JobStore.Dispatch.{mark_dispatched}
use newtaipei_appraisal_revi.JobStore.Schedule.{run_calls-Follows}
use newtaipei_appraisal_revi.JobStore.Sound.{IsSound}
use newtaipei_appraisal_revi.JobStore.Steps.Submission.{HasRoom}
use newtaipei_appraisal_revi.JobStore.Steps.Rounds.{mark_dispatched-Follows}
use newtaipei_appraisal_revi.JobStore.Routed.{IsRouted}
use newtaipei_appraisal_revi.JobStore.Routed.Rounds.{mark_dispatched-IsRouted}
use newtaipei_appraisal_revi.JobStore.Routed.Reachable.{run_calls-kept}
use newtaipei_appraisal_revi.ReviewJobs.{ServiceResult}
use newtaipei_appraisal_revi.ReviewJobs.Service.{Service, on_store}
use newtaipei_appraisal_revi.ReviewJobs.Operation.{perform_all}
use newtaipei_appraisal_revi.ReviewJobs.Calls.{Ran, perform_all-Ran}
use newtaipei_appraisal_revi.ReviewJobs.Reconciler.{due_dispatches, confirm_dispatch}
use newtaipei_appraisal_revi.Outbox.{
  Turn, DispatchOutcome, no_rounds, message, confirmed, dispatch_round, dispatch_rounds, run_once,
}
use newtaipei_appraisal_revi.Outbox.Settled.{mark_dispatched-Marked}
use newtaipei_appraisal_revi.Outbox.Delivery.{AcceptsAll, pending_dispatches-ok}

-- What a confirmation relies on, and every operation keeps.
record Steady (s : Store) : Type 0 where
  room : HasRoom s.policy
  sound : IsSound s
  routed : IsRouted s

-- From these counts a pass returned, and each round was confirmed or superseded.
record Confirms (counts : DispatchOutcome) (rounds : ℕ) (done : Result DispatchOutcome × Service)
    : Type 0 where
  counted : DispatchOutcome
  returned : done.0 ≡ ok counted
  all : counted.sent + counted.superseded ≡ counts.sent + counts.superseded + rounds
  deferred : counted.deferred ≡ counts.deferred
  abandoned : counted.abandoned ≡ counts.abandoned

-- One confirmation, sent or superseded.
abbrev Counted : DispatchOutcome → Result JobRecord × Service → Type 0
Counted counts done =
    (counts' : DispatchOutcome) × (confirmed counts done ≡ (ok counts', done.1))
    × (counts'.sent + counts'.superseded ≡ counts.sent + counts.superseded + 1)
    × (counts'.deferred ≡ counts.deferred)
    × (counts'.abandoned ≡ counts.abandoned)

confirmed-Counted :
    (counts : DispatchOutcome) (done : Result JobRecord × Service)
    → ((r : JobRecord) × (done.0 ≡ ok r)) ⊎ (done.0 ≡ err condition_failed)
    → Counted counts done
confirmed-Counted counts (ok r, w) h =
    (record counts { sent = counts.sent + 1 }, refl, omega arith, refl, refl)
confirmed-Counted counts (err condition_failed, w) h =
    (record counts { superseded = counts.superseded + 1 }, refl, omega arith, refl, refl)
confirmed-Counted counts (err e, w) h = absurd (ground arith)

mark_dispatched-Steady :
    (round : DispatchRecord) (now : ℕ) (s : Store)
    → Steady s
    → Steady (mark_dispatched round now s).1
mark_dispatched-Steady round now s h =
    let next = mark_dispatched-Follows round now s h.sound in
    record {
      room = subst HasRoom (sym next.past.policy) h.room;
      sound = next.sound;
      routed = mark_dispatched-IsRouted s h.routed round now;
    }

module _ (sha256 : String → String) (content_digest : ReviewSubmission → String)
    (digest_of : ServiceResult → String) where
  Ran-Steady :
      (w v : Service) → Ran sha256 content_digest digest_of w v → Steady w.store → Steady v.store
  Ran-Steady w v ran h =
      let after = run_calls-Follows sha256 content_digest ran.calls w.store h.room h.sound in
      subst Steady (sym ran.reached) (record {
        room = subst HasRoom (sym after.past.policy) h.room;
        sound = after.sound;
        routed = run_calls-kept sha256 content_digest ran.calls w.store h.room h.sound h.routed;
      })

  dispatch_rounds-Confirms :
      (rounds : List DispatchRecord) (turns : ℕ → Turn) (counts : DispatchOutcome) (w : Service)
      → AcceptsAll turns
      → Steady w.store
      → Confirms counts
          (length rounds)
          (dispatch_rounds sha256 content_digest digest_of rounds turns counts w)
  unfolding dispatch_rounds dispatch_round confirm_dispatch
  dispatch_rounds-Confirms [] turns counts w accepts h = record {
    counted = counts;
    returned = refl;
    all = omega arith;
    deferred = refl;
    abandoned = refl;
  }
  dispatch_rounds-Confirms (round ∷ rounds) turns counts w accepts h =
      let now = (turns 0).now in
      let v = perform_all sha256 content_digest digest_of (turns 0).others w in
      let steady =
        Ran-Steady w v (perform_all-Ran sha256 content_digest digest_of (turns 0).others w) h in
      let done = on_store (mark_dispatched round now) v in
      let (counts', first, one, deferred, abandoned) =
        confirmed-Counted counts done
          (mark_dispatched-Marked round now v.store steady.sound steady.routed).outcome in
      let rest =
        dispatch_rounds-Confirms rounds (λ k. turns (suc k)) counts' done.1
          (λ k m. accepts (suc k) m) (mark_dispatched-Steady round now v.store steady) in
      rw (accepts 0 (message round (turns 0).enqueued_at), first)
        (record {
          counted = rest.counted;
          returned = rest.returned;
          all = (let a = rest.all in omega arith);
          deferred = rest.deferred ∙ deferred;
          abandoned = rest.abandoned ∙ abandoned;
        })

  pub run_once-returns :
      (limit now : ℕ) (turns : ℕ → Turn) (w : Service)
      → AcceptsAll turns
      → HasRoom w.store.policy
      → IsSound w.store
      → IsRouted w.store
      → 1 ≤ limit
      → (rounds : List DispatchRecord) × (counts : DispatchOutcome) × (due_dispatches limit now w
          ≡ ok rounds)
        × ((run_once sha256 content_digest digest_of limit now turns w).0 ≡ ok counts)
        × (counts.sent + counts.superseded ≡ length rounds)
        × (counts.deferred ≡ 0)
        × (counts.abandoned ≡ 0)
  unfolding run_once due_dispatches
  run_once-returns limit now turns w accepts room sound routed some_room =
      let (rounds, due) = pending_dispatches-ok now limit w.store some_room in
      let c =
        dispatch_rounds-Confirms rounds turns no_rounds w accepts
          (record { room = room; sound = sound; routed = routed }) in
      rw due (
        rounds,
        c.counted,
        refl,
        c.returned,
        (let a = c.all in omega arith),
        c.deferred,
        c.abandoned,
      )
