-- ===== src/JobStore/Routed/Rounds.antt =====
-- `create_job`, `mark_dispatched` and `reschedule_dispatch` of job_store.py keep the jobs covered by
-- the outbox.
use newtaipei_appraisal_revi.Prelude.{
  ℕ, ◌+◌, String, ◌≡◌, refl, inl, inr, Bool, true, false, not, Option, none, some, nat_eq, pair_eq,
  string_eq, Bool-cases, arith,
}
use newtaipei_appraisal_revi.Prelude.Dict.{get, put, get-put_self}
use newtaipei_appraisal_revi.Faults.{ok}
use newtaipei_appraisal_revi.JobContracts.{queued, dispatched, same_status, terminal_status}
use newtaipei_appraisal_revi.JobState.{
  JobPolicy, to_status, next_state, dispatch_succeeded, dispatch_failed,
}
use newtaipei_appraisal_revi.ServiceGuards.{
  Principal, ReviewSubmission, IdempotencyRecord, submission_digest,
}
use newtaipei_appraisal_revi.JobStore.Model.{
  Job, Outbox, JobRecord, DispatchRecord, pending, sent, Store, Method,
}
use newtaipei_appraisal_revi.JobStore.Read.{facts_of}
use newtaipei_appraisal_revi.JobStore.Submit.{
  new_job, new_run, idempotency_partition, admit_new, create_new, by_key, create_job,
}
use newtaipei_appraisal_revi.JobStore.Dispatch.{
  round_open, set_round, mark_queued, mark_dispatched, reschedule_dispatch,
}
use newtaipei_appraisal_revi.JobStore.Rules.{
  current_found-kept, round_found-kept, entry_found-kept, job_of-kept,
}
use newtaipei_appraisal_revi.JobStore.Routed.{IsRouted}
use newtaipei_appraisal_revi.JobStore.Routed.Rules.{commit-IsRouted, if-IsRouted}
use newtaipei_appraisal_revi.JobStore.Routed.Amended.{
  amended-IsRouted, amended-JobIsCovered, job-Written, label-Written, same-Written,
}
use newtaipei_appraisal_revi.JobStore.Routed.Writes.{put-Written, enqueue-IsRouted}

pub queued_dispatched :
    (p : JobPolicy) (job : Job)
    → same_status job.status queued ≡ true
    → next_state p (facts_of job) dispatch_succeeded ≡ ok (to_status dispatched)
unfolding next_state facts_of
queued_dispatched p job q = ground arith

round_open-pending :
    (entry : Outbox) (round : DispatchRecord)
    → not (round_open entry round) ≡ false
    → entry.dispatch_state ≡ pending
round_open-pending entry round h = ground arith

module _ (s : Store) (h : IsRouted s) where
  not_queued : (job : Job) → same_status job.status queued ≡ false → job.status ≡ queued → ⊥
  not_queued job busy waits = ground arith

  -- A queued job is marked as dispatched, whether its run is found or not.
  mark_queued-IsRouted :
      (round : DispatchRecord) {entry : Outbox} (job : Job) (now : ℕ)
      → get s.outbox (round.job_id, round.outbox_seq) ≡ some entry
      → IsRouted
          (mark_queued round entry job now
            (to_status dispatched)
            (set_round round (record entry { dispatch_state = sent }) s)).1
  unfolding mark_queued
  mark_queued-IsRouted round {entry} job now he =
      let sent_entry = record entry { dispatch_state = sent } in
      let marked = record job { status = dispatched } in
      let done = record marked { updated_at = now } in
      current_found-kept IsRouted
        (record s {
          jobs = put s.jobs round.job_id marked;
          outbox = put s.outbox (round.job_id, round.outbox_seq) sent_entry;
        })
        (amended-IsRouted h (job-Written s round.job_id marked) round.outbox_seq sent_entry he refl
          refl refl (record { ready = λ waits. cc }))
        (get s.runs (job.job_id, entry.run_id)) _
        (λ run _.
          amended-IsRouted h
            (label-Written s round.job_id job.job_id entry.run_id done
              (record run { run_status = dispatched }))
            round.outbox_seq sent_entry he refl refl refl (record { ready = λ waits. cc }))

  pub mark_dispatched-IsRouted :
      (round : DispatchRecord) (now : ℕ) → IsRouted (mark_dispatched round now s).1
  unfolding mark_dispatched
  mark_dispatched-IsRouted round now =
      round_found-kept IsRouted s h (get s.outbox (round.job_id, round.outbox_seq))
        (get s.jobs round.job_id) _
        (λ entry job he hj.
          if-IsRouted s h (not (round_open entry round)) _ _ (λ _. h)
            (λ _. elim (Bool-cases (same_status job.status queued)) [
              | inl waits ↦
                  rw (waits, queued_dispatched s.policy job waits)
                    (mark_queued-IsRouted round job now he)
              | inr busy ↦ rw busy (
                  amended-IsRouted h (job-Written s round.job_id (record job { updated_at = now }))
                    round.outbox_seq (record entry { dispatch_state = sent }) he refl refl refl
                    (record { ready = λ waits. absurd (not_queued job busy waits) }))
            ]))

  pub reschedule_dispatch-IsRouted :
      (round : DispatchRecord) (available_at : ℕ)
      → IsRouted (reschedule_dispatch round available_at s).1
  unfolding reschedule_dispatch
  reschedule_dispatch-IsRouted round available_at =
      entry_found-kept IsRouted s h (get s.outbox (round.job_id, round.outbox_seq)) _ (λ entry he.
        if-IsRouted s h (not (round_open entry round)) _ _ (λ _. h)
          (λ open_round. job_of-kept IsRouted s h (get s.jobs round.job_id) _ (λ job hj.
            if-IsRouted s h (terminal_status job.status) _ _
              (λ over.
                amended-IsRouted h (same-Written s round.job_id hj) round.outbox_seq _ he refl refl
                  refl (record { ready = λ waits. absurd (over_queued job over waits) }))
              (λ _.
                commit-IsRouted {A = Bool} s h (next_state s.policy (facts_of job) dispatch_failed)
                  _
                  (λ _ _.
                    let entry' = record entry {
                      available_at = available_at;
                      dispatch_attempts = entry.dispatch_attempts + 1;
                    } in
                    amended-IsRouted h (same-Written s round.job_id hj) round.outbox_seq entry' he
                      refl refl refl
                      (amended-JobIsCovered h (same-Written s round.job_id hj) round.outbox_seq
                        entry' he refl refl refl hj
                        (round_open-pending entry round open_round)))))))
    where
      over_queued : (job : Job) → terminal_status job.status ≡ true → job.status ≡ queued → ⊥
      over_queued job over waits = ground arith

module _ (sha256 : String → String) (content_digest : ReviewSubmission → String) (s : Store)
    (h : IsRouted s) where
  by_key-IsRouted :
      (k : Option IdempotencyRecord) (replay : IdempotencyRecord → Method (JobRecord × Bool))
      (fresh : Method (JobRecord × Bool))
      → ((stored : IdempotencyRecord) → IsRouted (replay stored s).1)
      → IsRouted (fresh s).1
      → IsRouted (by_key k replay fresh s).1
  by_key-IsRouted none replay fresh r f = f
  by_key-IsRouted (some stored) replay fresh r f = r stored

  create_new-IsRouted :
      (partition : String) (principal : Principal) (submission : ReviewSubmission)
      (job_id run_id token now : ℕ)
      → IsRouted
          (create_new sha256 content_digest partition principal submission job_id run_id token now
            s).1
  unfolding create_new new_job
  create_new-IsRouted partition principal submission job_id run_id token now =
      let digest = submission_digest content_digest submission in
      enqueue-IsRouted h
        (put-Written s job_id run_id (new_job principal submission job_id run_id now)
          (new_run submission digest run_id) s.attempts s.results _)
        run_id now token refl refl (get-put_self s.runs (job_id, run_id) _)

  pub create_job-IsRouted :
      (principal : Principal) (submission : ReviewSubmission) (job_id run_id token now : ℕ)
      → IsRouted (create_job sha256 content_digest principal submission job_id run_id token now s).1
  unfolding create_job
  create_job-IsRouted principal submission job_id run_id token now =
      by_key-IsRouted
        (get s.idempotency
          (idempotency_partition sha256 principal.actor.actor_id submission.idempotency_key))
        _ _ (λ _. h)
        (commit-IsRouted s h (admit_new principal submission job_id run_id s) _ (λ _ _.
          create_new-IsRouted
            (idempotency_partition sha256 principal.actor.actor_id submission.idempotency_key)
            principal submission job_id run_id token now))
