-- ===== src/Outbox/Delivery.antt =====
-- What a dispatch pass of outbox.py achieves while the queue accepts every message.
use newtaipei_appraisal_revi.Prelude.{
  ℕ, String, ◌+◌, suc, ltb, ◌<◌, ◌≤◌, ◌≡◌, refl, sym, ◌∙◌, subst, ◌⊎◌, inl, inr, true, false, some,
  List, [], ◌∷◌, All, length, leb, Bool-cases, nat_eq, pair_eq, arith,
}
use newtaipei_appraisal_revi.Prelude.Dict.{get, values}
use newtaipei_appraisal_revi.Faults.{Result, ok, err, condition_failed}
use newtaipei_appraisal_revi.JobContracts.{queued}
use newtaipei_appraisal_revi.ServiceGuards.{ReviewSubmission}
use newtaipei_appraisal_revi.ReviewJobs.{ServiceResult}
use newtaipei_appraisal_revi.ReviewJobs.Operation.{perform_all}
use newtaipei_appraisal_revi.JobStore.Model.{
  Job, Outbox, JobRecord, DispatchRecord, pending, sent, Store,
}
use newtaipei_appraisal_revi.JobStore.Dispatch.{mark_dispatched, pending_dispatches}
use newtaipei_appraisal_revi.JobStore.Sound.{IsSound}
use newtaipei_appraisal_revi.JobStore.Routed.{IsRouted}
use newtaipei_appraisal_revi.JobStore.Routed.Rounds.{mark_dispatched-IsRouted}
use newtaipei_appraisal_revi.JobStore.Steps.Rounds.{mark_dispatched-Follows}
use newtaipei_appraisal_revi.ReviewJobs.Service.{Service, on_store}
use newtaipei_appraisal_revi.ReviewJobs.Reconciler.{due_dispatches, confirm_dispatch}
use newtaipei_appraisal_revi.Outbox.{
  DispatchMessage, Turn, accepted, DispatchOutcome, no_rounds, message, confirmed, dispatch_round,
  dispatch_rounds, run_once,
}
use newtaipei_appraisal_revi.Outbox.Effects.{
  Rounds, Progress, Progress-refl, Progress-trans, Settled, Settled-kept,
}
use newtaipei_appraisal_revi.Outbox.Settled.{mark_dispatched-Marked}
use newtaipei_appraisal_revi.Outbox.Due.{due_at, due-rounds}

abbrev pub AcceptsAll : (ℕ → Turn) → Type 0
AcceptsAll turns = (k : ℕ) (m : DispatchMessage) → (turns k).answer m ≡ accepted

-- Nothing else runs during the pass.
abbrev pub IsQuiet : (ℕ → Turn) → Type 0
IsQuiet turns = (k : ℕ) → (turns k).others ≡ []

-- The loop from `w` over `rounds`: it returns, it keeps the invariants, and it settles each round.
record Delivered (rounds : List DispatchRecord) (w : Service)
    (done : Result DispatchOutcome × Service) : Type 0 where
  returned : (counts : DispatchOutcome) × (done.0 ≡ ok counts)
  sound : IsSound done.1.store
  routed : IsRouted done.1.store
  progress : Progress w.store.outbox done.1.store.outbox
  settled : All (Settled done.1.store.outbox) rounds

confirmed-cases :
    (counts : DispatchOutcome) (done : Result JobRecord × Service)
    → ((r : JobRecord) × (done.0 ≡ ok r)) ⊎ (done.0 ≡ err condition_failed)
    → (counts' : DispatchOutcome) × (confirmed counts done ≡ (ok counts', done.1))
confirmed-cases counts (ok r, w) h = (record counts { sent = counts.sent + 1 }, refl)
confirmed-cases counts (err condition_failed, w) h =
    (record counts { superseded = counts.superseded + 1 }, refl)
confirmed-cases counts (err e, w) h = absurd (ground arith)

All-Settled-kept :
    (s s' : Store) (rounds : List DispatchRecord)
    → Progress s.outbox s'.outbox
    → All (Settled s.outbox) rounds
    → All (Settled s'.outbox) rounds
All-Settled-kept s s' [] p h = tt
All-Settled-kept s s' (r ∷ rs) p (here, there) =
    (Settled-kept p here, All-Settled-kept s s' rs p there)

module _ (sha256 : String → String) (content_digest : ReviewSubmission → String)
    (digest_of : ServiceResult → String) where
  dispatch_rounds-Delivered :
      (rounds : List DispatchRecord) (turns : ℕ → Turn) (counts : DispatchOutcome) (w : Service)
      → AcceptsAll turns
      → IsQuiet turns
      → IsSound w.store
      → IsRouted w.store
      → Delivered rounds w (dispatch_rounds sha256 content_digest digest_of rounds turns counts w)
  unfolding dispatch_rounds dispatch_round confirm_dispatch perform_all
  dispatch_rounds-Delivered [] turns counts w accepts quiet sound routed = record {
    returned = (counts, refl);
    sound = sound;
    routed = routed;
    progress = Progress-refl w.store.outbox;
    settled = tt;
  }
  dispatch_rounds-Delivered (round ∷ rounds) turns counts w accepts quiet sound routed =
      let now = (turns 0).now in
      let marked = mark_dispatched-Marked round now w.store sound routed in
      let first = on_store (mark_dispatched round now) w in
      let (counts', done) = confirmed-cases counts first marked.outcome in
      let rest =
        dispatch_rounds-Delivered rounds (λ k. turns (suc k)) counts' first.1
          (λ k m. accepts (suc k) m) (λ k. quiet (suc k))
          (mark_dispatched-Follows round now w.store sound).sound
          (mark_dispatched-IsRouted w.store routed round now) in
      rw (accepts 0 (message round (turns 0).enqueued_at), quiet 0, done)
        (record {
          returned = rest.returned;
          sound = rest.sound;
          routed = rest.routed;
          progress = Progress-trans marked.progress rest.progress;
          settled = (Settled-kept rest.progress marked.settled, rest.settled);
        })

-- An entry that is pending after the pass was pending before it, as it is.
pending_before :
    (o o' : Rounds) (k : ℕ × ℕ) {e : Outbox}
    → Progress o o'
    → get o' k ≡ some e
    → e.dispatch_state ≡ pending
    → get o k ≡ some e
pending_before o o' k {e} p known unsent = elim (p.each k).same_or_sent [
  | inl same ↦ sym same ∙ known
  | inr (old, was, is) ↦ absurd (gone old (sym is ∙ known))
]
  where
    gone : (old : Outbox) → some (record old { dispatch_state = sent }) ≡ some e → ⊥
    gone old same = ground arith

pub pending_dispatches-ok :
    (now limit : ℕ) (s : Store)
    → 1 ≤ limit
    → (rounds : List DispatchRecord) × (pending_dispatches now limit s ≡ ok rounds)
unfolding pending_dispatches
pending_dispatches-ok now limit s h =
    let big : ltb limit 1 ≡ false = ground arith in rw big (_, refl)

-- After a pass over all that was due, a pending entry is not yet due.
later :
    (now limit : ℕ) (w v : Service) {rounds : List DispatchRecord}
    → IsRouted w.store
    → Progress w.store.outbox v.store.outbox
    → All (Settled v.store.outbox) rounds
    → pending_dispatches now limit w.store ≡ ok rounds
    → length (values w.store.outbox) ≤ limit
    → (j n : ℕ) (e : Outbox) → get v.store.outbox (j, n) ≡ some e
    → e.dispatch_state ≡ pending
    → now < e.available_at
later now limit w v routed p settled due room j n e known unsent =
    let before = pending_before w.store.outbox v.store.outbox (j, n) p known unsent in
    let place = routed.routed j n e before in
    elim (Bool-cases (leb e.available_at now)) [
      | inr late ↦ ground arith
      | inl ripe ↦
          let test : due_at now e ≡ true = rw unsent ripe in
          let done =
            due-rounds (Settled v.store.outbox) now limit w.store due room settled (j, n) e before
              test in
          absurd (done.closed e (own_key place.job place.seq) refl unsent)
    ]
  where
    own_key : e.job_id ≡ j → e.outbox_seq ≡ n → get v.store.outbox (e.job_id, e.outbox_seq) ≡ some e
    own_key same_job same_seq =
        subst (λ i. get v.store.outbox (i, e.outbox_seq) ≡ some e) (sym same_job)
          (subst (λ m. get v.store.outbox (j, m) ≡ some e) (sym same_seq) known)

module _ (sha256 : String → String) (content_digest : ReviewSubmission → String)
    (digest_of : ServiceResult → String) where
  -- The queue accepts every message of the pass, nothing else runs while it is asked, the pass may take
  -- up the whole outbox, and its state is sound and covered. Then the pass returns, and a job that is queued afterwards waits for a
  -- pending round of its current run that was not yet due: no work that was due is left behind.
  pub run_once-delivers :
      (limit now : ℕ) (turns : ℕ → Turn) (w : Service)
      → AcceptsAll turns
      → IsQuiet turns
      → IsSound w.store
      → IsRouted w.store
      → 1 ≤ limit
      → length (values w.store.outbox) ≤ limit
      → ((counts : DispatchOutcome) × ((run_once sha256 content_digest digest_of limit now turns
              w).0
            ≡ ok counts))
        × ((j : ℕ) (job : Job)
            → get (run_once sha256 content_digest digest_of limit now turns w).1.store.jobs j
              ≡ some job
            → job.status ≡ queued
            → (e : Outbox) × (get
                  (run_once sha256 content_digest digest_of limit now turns w).1.store.outbox
                  (j, job.outbox_seq)
                ≡ some e)
              × (e.dispatch_state ≡ pending)
              × (e.run_id ≡ job.current_run_id)
              × (now < e.available_at))
  unfolding run_once due_dispatches
  run_once-delivers limit now turns w accepts quiet sound routed some_room room =
      let (rounds, due) = pending_dispatches-ok now limit w.store some_room in
      let d =
        dispatch_rounds-Delivered sha256 content_digest digest_of rounds turns no_rounds w accepts
          quiet sound routed in
      rw due (
        d.returned,
        λ j job hj waits.
            let r = (d.routed.covered j job hj).ready waits in
            (
              r.round,
              r.stored,
              r.unsent,
              r.current,
              later now limit w
                  (dispatch_rounds sha256 content_digest digest_of rounds turns no_rounds w).1
                  routed d.progress d.settled due room j job.outbox_seq r.round r.stored r.unsent,
            ),
      )
