-- ===== src/JobState/Laws.antt =====
-- What the state machine of job_state.py decides, against the lifecycle it is meant to implement.
use newtaipei_appraisal_revi.Prelude.{
  ℕ, ◌+◌, ◌≤◌, ◌<◌, ◌≡◌, refl, ◌⊎◌, Bool, true, false, inl, inr, Bool-cases, arith, leb,
  if◌then◌else◌,
}
use newtaipei_appraisal_revi.Faults.{ok}
use newtaipei_appraisal_revi.JobContracts.{
  JobStatus, queued, dispatched, running, waiting_for_human, retryable_failed, failed, succeeded,
  cancelled, same_status, terminal_status, cancel_pending_status,
}
use newtaipei_appraisal_revi.JobState.{
  JobEvent, dispatch_succeeded, claim, lease_expired, needs_human, publish_result, retryable_error,
  permanent_error, schedule_retry, human_response_committed, human_rejected, cancel,
  cancel_acknowledged, JobPolicy, JobFacts, Transition, to_status, next_state, decide,
}

-- The lifecycle of a durable job: the moves between two different statuses, with the event that
-- makes each of them.
pub data Move : JobStatus → JobEvent → JobStatus → Type 0 where
  sent : Move queued dispatch_succeeded dispatched
  claim_queued : Move queued claim running
  claim_dispatched : Move dispatched claim running
  claim_retryable : Move retryable_failed claim running
  reclaim : Move running lease_expired queued
  reclaim_exhausted : Move running lease_expired failed
  reclaim_cancelled : Move running lease_expired cancelled
  park : Move running needs_human waiting_for_human
  park_cancelled : Move running needs_human cancelled
  publish : Move running publish_result succeeded
  retry_later : Move running retryable_error retryable_failed
  retry_exhausted : Move running retryable_error failed
  retry_cancelled : Move running retryable_error cancelled
  give_up : Move running permanent_error failed
  requeue : Move retryable_failed schedule_retry queued
  resume : Move waiting_for_human human_response_committed queued
  reject_last : Move waiting_for_human human_rejected failed
  cancel_queued : Move queued cancel cancelled
  cancel_dispatched : Move dispatched cancel cancelled
  cancel_waiting : Move waiting_for_human cancel cancelled
  cancel_retryable : Move retryable_failed cancel cancelled
  acknowledge : Move running cancel_acknowledged cancelled

ruleset moves = (
  sent, claim_queued, claim_dispatched, claim_retryable, reclaim, reclaim_exhausted,
  reclaim_cancelled, park, park_cancelled, publish, retry_later, retry_exhausted, retry_cancelled,
  give_up, requeue, resume, reject_last, cancel_queued, cancel_dispatched, cancel_waiting,
  cancel_retryable, acknowledge,
)

-- Every accepted event either keeps the status or makes a move of the lifecycle.
pub next_state-Move :
    (p : JobPolicy) (f : JobFacts) (e : JobEvent) {t : Transition}
    → next_state p f e ≡ ok t
    → (t.status ≡ f.status) ⊎ (Move f.status e t.status)
unfolding next_state
next_state-Move p f e h = grind (arith, moves)

-- An event that a running job accepts under a pending cancel leaves it running or ends it, and puts
-- nothing on the outbox.
pub next_state-cancel_requested :
    (p : JobPolicy) (f : JobFacts) (e : JobEvent) {t : Transition}
    → f.cancel_requested ≡ true
    → f.status ≡ running
    → next_state p f e ≡ ok t
    → (cancel_pending_status t.status ≡ true) × (t.enqueue_outbox ≡ false)
unfolding next_state
next_state-cancel_requested p f e c r h = ground arith

-- An event that a running job accepts releases the lease exactly when it takes the job out of
-- `running`.
pub next_state-release_lease :
    (p : JobPolicy) (f : JobFacts) (e : JobEvent) {t : Transition}
    → f.status ≡ running
    → next_state p f e ≡ ok t
    → t.release_lease ≡ (if same_status t.status running then false else true)
unfolding next_state
next_state-release_lease p f e r h = ground arith

-- From counters below the policy's ceilings, an accepted event counts up to the ceilings at most, and
-- stays below both where it does not end the job.
pub next_state_bounds :
    (p : JobPolicy) (f : JobFacts) (e : JobEvent) {t : Transition}
    → f.attempt_count < p.max_attempts
    → f.lease_takeover_count < p.max_lease_takeovers
    → next_state p f e ≡ ok t
    → (f.attempt_count + t.attempt_delta ≤ p.max_attempts)
      × (f.lease_takeover_count + t.takeover_delta ≤ p.max_lease_takeovers)
      × ((terminal_status t.status ≡ true)
          ⊎ ((f.attempt_count + t.attempt_delta < p.max_attempts)
              × (f.lease_takeover_count + t.takeover_delta < p.max_lease_takeovers)))
unfolding next_state
next_state_bounds p f e {t} a l h = (
  ground arith,
  ground arith,
  elim (Bool-cases (terminal_status t.status)) [
    | inl ended ↦ inl ended
    | inr going ↦ inr (ground arith, ground arith)
  ],
)

module _ (p : JobPolicy) where
  -- Some facts under which the state machine takes the event from one status to the other.
  abbrev Realised : JobStatus → JobEvent → JobStatus → Type 0
  Realised a e b =
      (f : JobFacts) × (f.status ≡ a)
      × (t : Transition) × (next_state p f e ≡ ok t)
      × (t.status ≡ b)

  abbrev facts_at : JobStatus → ℕ → ℕ → Bool → Bool → JobFacts
  facts_at status attempts takeovers cancel_asked tasks = record {
    status = status;
    attempt_count = attempts;
    lease_takeover_count = takeovers;
    cancel_requested = cancel_asked;
    has_open_tasks = tasks;
  }

  realise :
      (f : JobFacts) (e : JobEvent) {a b : JobStatus} {t : Transition}
      → f.status ≡ a
      → next_state p f e ≡ ok t
      → t.status ≡ b
      → Realised a e b
  realise f e {a} {b} {t} ha h hb = (f, ha, t, h, hb)

  -- Every move of the lifecycle is made by the state machine under some facts, where the policy
  -- leaves room for two attempts and two takeovers.
  pub Move-next_state :
      {a b : JobStatus} {e : JobEvent}
      → 2 ≤ p.max_attempts
      → 2 ≤ p.max_lease_takeovers
      → Move a e b
      → (f : JobFacts) × (f.status ≡ a)
        × (t : Transition) × (next_state p f e ≡ ok t)
        × (t.status ≡ b)
  unfolding next_state decide
  Move-next_state ha hl sent =
      realise (facts_at queued 0 0 false false) dispatch_succeeded refl refl refl
  Move-next_state ha hl claim_queued =
      realise (facts_at queued 0 0 false false) claim refl refl refl
  Move-next_state ha hl claim_dispatched =
      realise (facts_at dispatched 0 0 false false) claim refl refl refl
  Move-next_state ha hl claim_retryable =
      realise (facts_at retryable_failed 0 0 false false) claim refl refl refl
  Move-next_state ha hl reclaim =
      let more : leb p.max_lease_takeovers 1 ≡ false = ground arith in
      realise (facts_at running 0 0 false false) lease_expired
        {t = record (to_status queued) {
          takeover_delta = 1;
          release_lease = true;
          enqueue_outbox = true;
        }}
        refl (rw more) refl
  Move-next_state ha hl reclaim_exhausted =
      let over : leb p.max_lease_takeovers (p.max_lease_takeovers + 1) ≡ true = ground arith in
      realise (facts_at running 0 p.max_lease_takeovers false false) lease_expired
        {t = record (to_status failed) { takeover_delta = 1; release_lease = true }} refl (rw over)
        refl
  Move-next_state ha hl reclaim_cancelled =
      realise (facts_at running 0 0 true false) lease_expired refl refl refl
  Move-next_state ha hl park = realise (facts_at running 0 0 false true) needs_human refl refl refl
  Move-next_state ha hl park_cancelled =
      realise (facts_at running 0 0 true false) needs_human refl refl refl
  Move-next_state ha hl publish =
      realise (facts_at running 0 0 false false) publish_result refl refl refl
  Move-next_state ha hl retry_later =
      let more : leb p.max_attempts 1 ≡ false = ground arith in
      realise (facts_at running 0 0 false false) retryable_error
        {t = record (to_status retryable_failed) {
          attempt_delta = 1;
          release_lease = true;
          requires_lease = true;
        }}
        refl (rw more) refl
  Move-next_state ha hl retry_exhausted =
      let over : leb p.max_attempts (p.max_attempts + 1) ≡ true = ground arith in
      realise (facts_at running p.max_attempts 0 false false) retryable_error
        {t = record (to_status failed) {
          attempt_delta = 1;
          release_lease = true;
          requires_lease = true;
        }}
        refl (rw over) refl
  Move-next_state ha hl retry_cancelled =
      realise (facts_at running 0 0 true false) retryable_error refl refl refl
  Move-next_state ha hl give_up =
      realise (facts_at running 0 0 false false) permanent_error refl refl refl
  Move-next_state ha hl requeue =
      realise (facts_at retryable_failed 0 0 false false) schedule_retry refl refl refl
  Move-next_state ha hl resume =
      realise (facts_at waiting_for_human 0 0 false false) human_response_committed refl refl refl
  Move-next_state ha hl reject_last =
      realise (facts_at waiting_for_human 0 0 false false) human_rejected refl refl refl
  Move-next_state ha hl cancel_queued =
      realise (facts_at queued 0 0 false false) cancel refl refl refl
  Move-next_state ha hl cancel_dispatched =
      realise (facts_at dispatched 0 0 false false) cancel refl refl refl
  Move-next_state ha hl cancel_waiting =
      realise (facts_at waiting_for_human 0 0 false false) cancel refl refl refl
  Move-next_state ha hl cancel_retryable =
      realise (facts_at retryable_failed 0 0 false false) cancel refl refl refl
  Move-next_state ha hl acknowledge =
      realise (facts_at running 0 0 true false) cancel_acknowledged refl refl refl
