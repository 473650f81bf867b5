-- ===== src/Outbox/Settled.antt =====
-- A confirmation settles its round: `confirm_dispatch` of review_jobs.py, as the dispatcher of
-- outbox.py uses it, from a sound store whose outbox covers the jobs.
use newtaipei_appraisal_revi.Prelude.{
  ℕ, ◌≡◌, refl, inl, inr, not, some, Option-cases, Bool-cases, nat_eq, pair_eq,
}
use newtaipei_appraisal_revi.Prelude.Dict.{get, put}
use newtaipei_appraisal_revi.JobContracts.{queued, dispatched, same_status}
use newtaipei_appraisal_revi.JobState.{to_status}
use newtaipei_appraisal_revi.JobStore.Model.{Job, Run, Outbox, DispatchRecord, sent, Store}
use newtaipei_appraisal_revi.JobStore.Dispatch.{round_open, set_round, mark_queued, mark_dispatched}
use newtaipei_appraisal_revi.JobStore.Sound.{IsSound}
use newtaipei_appraisal_revi.JobStore.Routed.{IsRouted}
use newtaipei_appraisal_revi.JobStore.Routed.Rounds.{queued_dispatched}
use newtaipei_appraisal_revi.JobStore.Routed.Writes.{put-runs_kept}
use newtaipei_appraisal_revi.Outbox.Effects.{
  Marked, unmarked, marked, refused-Settled, job_record-ok,
}

module _ (round : DispatchRecord) (now : ℕ) (s : Store) (sound : IsSound s)
    (routed : IsRouted s) where
  abbrev marked_job : Job → Job
  marked_job job = record job { status = dispatched; updated_at = now }

  module _ {entry : Outbox} {job : Job}
      (he : get s.outbox (round.job_id, round.outbox_seq) ≡ some entry)
      (hj : get s.jobs round.job_id ≡ some job) where
    -- The current run of the job is found, also after a label is written.
    current : (run : Run) × (get s.runs (job.job_id, job.current_run_id) ≡ some run)
    current =
        let known = sound.each_job round.job_id job hj in
        (known.current, rw known.keyed known.stored)

    asked : (run : Run) × (get s.runs (job.job_id, entry.run_id) ≡ some run)
    asked =
        let known = routed.routed round.job_id round.outbox_seq entry he in
        (known.run, rw (sound.each_job round.job_id job hj).keyed known.stored)

    mark_queued-Marked : Marked round s (
        mark_queued round entry job now
          (to_status dispatched)
          (set_round round (record entry { dispatch_state = sent }) s))
    unfolding mark_queued
    mark_queued-Marked =
        let (run, found) = asked in
        let (was, here) = current in
        let label = record run { run_status = dispatched } in
        let (_, there) =
          put-runs_kept s.runs job.job_id entry.run_id label job.job_id job.current_run_id was
            here in
        let (_, done) =
          job_record-ok
            (record s {
              jobs = put s.jobs round.job_id (marked_job job);
              runs = put s.runs (job.job_id, entry.run_id) label;
              outbox =
                  put s.outbox (round.job_id, round.outbox_seq)
                    (record entry { dispatch_state = sent });
            })
            (marked_job job) there in
        rw found (marked round s he refl done)

    found-Marked : Marked round s (mark_dispatched round now s)
    unfolding mark_dispatched
    found-Marked =
        rw (he, hj)
          (elim (Bool-cases (not (round_open entry round))) [
            | inl shut ↦ rw shut (unmarked round s (refused-Settled round s he shut))
            | inr open_round ↦ elim (Bool-cases (same_status job.status queued)) [
              | inl waits ↦
                  rw (open_round, waits, queued_dispatched s.policy job waits) mark_queued-Marked
              | inr busy ↦
                  let (_, here) = current in
                  let touched = record job { updated_at = now } in
                  let (_, done) =
                    job_record-ok
                      (record s {
                        jobs = put s.jobs round.job_id touched;
                        outbox =
                            put s.outbox (round.job_id, round.outbox_seq)
                              (record entry { dispatch_state = sent });
                      })
                      touched here in
                  rw (open_round, busy) (marked round s he refl done)
            ]
          ])

  -- From a sound store whose outbox covers the jobs, a confirmation returns or loses a race; either
  -- way its round is not open any more, and every other round is as it was.
  pub mark_dispatched-Marked : Marked round s (mark_dispatched round now s)
  unfolding mark_dispatched
  mark_dispatched-Marked = elim (Option-cases (get s.outbox (round.job_id, round.outbox_seq))) [
    | inl absent ↦
        rw absent
          (unmarked round s (record { closed = λ e known _ _. absurd (cc (absent, known)) }))
    | inr (entry, he) ↦
        let (job, hj) = routed.owned round.job_id round.outbox_seq entry he in found-Marked he hj
  ]
