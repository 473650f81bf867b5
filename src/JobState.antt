-- ===== src/JobState.antt =====
-- src/appraisal_review/application/job_state.py: the pure state machine of durable jobs.
pub mod Policy
pub mod Laws
mod Witness
use newtaipei_appraisal_revi.Prelude.{ℕ, ◌+◌, ◌≡◌, Bool, true, false, not, ◌&&◌, leb, if◌then◌else◌}
use newtaipei_appraisal_revi.Faults.{Result, ok, err, service_fault, conflict}
use newtaipei_appraisal_revi.JobContracts.{
  JobStatus, queued, dispatched, running, waiting_for_human, retryable_failed, failed, succeeded,
  cancelled, same_status, terminal_status,
}

pub data JobEvent : Type 0 where
  submit dispatch_succeeded dispatch_failed claim heartbeat lease_expired needs_human publish_result
        retryable_error permanent_error schedule_retry human_response_committed human_rejected
        cancel cancel_acknowledged :
      JobEvent

-- `event in LEASE_BOUND_EVENTS`
abbrev lease_bound_event : JobEvent → Bool
lease_bound_event heartbeat = true
lease_bound_event needs_human = true
lease_bound_event publish_result = true
lease_bound_event retryable_error = true
lease_bound_event permanent_error = true
lease_bound_event cancel_acknowledged = true
lease_bound_event _ = false

-- `status in CLAIMABLE_STATUSES`
abbrev pub claimable_status : JobStatus → Bool
claimable_status JobStatus.queued = true
claimable_status dispatched = true
claimable_status retryable_failed = true
claimable_status _ = false

-- `status in CANCELLABLE_STATUSES`
abbrev cancellable_status : JobStatus → Bool
cancellable_status JobStatus.queued = true
cancellable_status dispatched = true
cancellable_status waiting_for_human = true
cancellable_status retryable_failed = true
cancellable_status _ = false

pub record JobPolicy : Type 0 where
  pub lease_seconds : ℕ
  pub heartbeat_seconds : ℕ
  pub visibility_timeout_seconds : ℕ
  pub max_attempts : ℕ
  pub max_lease_takeovers : ℕ
  pub backoff_base_seconds : ℕ
  pub backoff_cap_seconds : ℕ

pub record JobFacts : Type 0 where
  pub status : JobStatus
  pub attempt_count : ℕ
  pub lease_takeover_count : ℕ
  pub cancel_requested : Bool
  pub has_open_tasks : Bool

pub record Transition : Type 0 where
  pub status : JobStatus
  pub attempt_delta : ℕ
  pub takeover_delta : ℕ
  pub release_lease : Bool
  pub enqueue_outbox : Bool
  pub request_cancel : Bool
  pub requires_lease : Bool

-- `Transition(status=...)` with the defaults of the dataclass.
abbrev pub to_status : JobStatus → Transition
to_status s = record {
  status = s;
  attempt_delta = 0;
  takeover_delta = 0;
  release_lease = false;
  enqueue_outbox = false;
  request_cancel = false;
  requires_lease = false;
}

-- `raise _conflict()`
abbrev raise_conflict : Result Transition
raise_conflict = err (service_fault conflict)

cancel_preempted : Bool → Transition
cancel_preempted lease = record (to_status cancelled) {
  release_lease = true;
  requires_lease = lease;
}

unfoldable pub initial_transition : Transition
initial_transition = record (to_status queued) { enqueue_outbox = true }

-- The branches after the guards of `next_state`, in the order of the source.
decide : JobPolicy → JobFacts → JobEvent → Result Transition
unfolding cancel_preempted
decide policy facts submit = raise_conflict
decide policy facts dispatch_succeeded =
    if same_status facts.status queued then ok (to_status dispatched) else raise_conflict
decide policy facts dispatch_failed = ok (to_status facts.status)
decide policy facts claim =
    if claimable_status facts.status then ok (to_status running) else raise_conflict
decide policy facts heartbeat = ok (record (to_status running) { requires_lease = true })
decide policy facts lease_expired =
    if not (same_status facts.status running)
    then raise_conflict
    else if facts.cancel_requested
    then ok (cancel_preempted false)
    else let exhausted = leb policy.max_lease_takeovers (facts.lease_takeover_count + 1) in
      ok (record (to_status (if exhausted then failed else queued)) {
        takeover_delta = 1;
        release_lease = true;
        enqueue_outbox = not exhausted;
      })
decide policy facts needs_human =
    if facts.cancel_requested
    then ok (cancel_preempted true)
    else if not facts.has_open_tasks
    then raise_conflict
    else ok (record (to_status waiting_for_human) { release_lease = true; requires_lease = true })
decide policy facts publish_result =
    ok (record (to_status succeeded) { release_lease = true; requires_lease = true })
decide policy facts retryable_error =
    if facts.cancel_requested
    then ok (cancel_preempted true)
    else let exhausted = leb policy.max_attempts (facts.attempt_count + 1) in
      ok (record (to_status (if exhausted then failed else retryable_failed)) {
        attempt_delta = 1;
        release_lease = true;
        requires_lease = true;
      })
decide policy facts permanent_error =
    ok (record (to_status failed) { release_lease = true; requires_lease = true })
decide policy facts schedule_retry =
    if same_status facts.status retryable_failed
    then ok (record (to_status queued) { enqueue_outbox = true })
    else raise_conflict
decide policy facts human_rejected =
    if same_status facts.status waiting_for_human
    then ok (to_status (if facts.has_open_tasks then waiting_for_human else failed))
    else raise_conflict
decide policy facts human_response_committed =
    if same_status facts.status waiting_for_human
    then ok (record (to_status queued) { enqueue_outbox = true })
    else raise_conflict
decide policy facts cancel =
    if same_status facts.status running
    then ok (record (to_status running) { request_cancel = true })
    else if not (cancellable_status facts.status)
    then raise_conflict
    else ok (record (to_status cancelled) { release_lease = true })
decide policy facts cancel_acknowledged =
    if not facts.cancel_requested
    then raise_conflict
    else ok (record (to_status cancelled) { release_lease = true; requires_lease = true })

-- The counters are natural numbers, so the source's test for negative counters never fires.
unfoldable pub next_state : JobPolicy → JobFacts → JobEvent → Result Transition
unfolding decide
next_state policy facts event =
    if terminal_status facts.status
    then raise_conflict
    else if lease_bound_event event && not (same_status facts.status running)
    then raise_conflict
    else decide policy facts event
