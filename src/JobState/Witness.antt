-- ===== src/JobState/Witness.antt =====
-- The theorems on job_state.py at the default policy.
use newtaipei_appraisal_revi.Prelude.{ℕ, ◌≤◌, ◌≡◌, refl, ◌⊎◌, true, false, Bool, arith}
use newtaipei_appraisal_revi.Faults.{ok}
use newtaipei_appraisal_revi.JobContracts.{JobStatus, running, queued, cancelled}
use newtaipei_appraisal_revi.JobState.{
  JobPolicy, JobFacts, Transition, to_status, next_state, lease_expired,
}
use newtaipei_appraisal_revi.JobState.Policy.{valid_policy, backoff_seconds, backoff_bounds}
use newtaipei_appraisal_revi.JobState.Laws.{Move, reclaim, next_state-Move, Move-next_state}

abbrev a_policy : JobPolicy
a_policy = record {
  lease_seconds = 120;
  heartbeat_seconds = 30;
  visibility_timeout_seconds = 180;
  max_attempts = 5;
  max_lease_takeovers = 3;
  backoff_base_seconds = 30;
  backoff_cap_seconds = 900;
}

abbrev under : Bool → JobFacts
under asked = record {
  status = running;
  attempt_count = 1;
  lease_takeover_count = 1;
  cancel_requested = asked;
  has_open_tasks = false;
}

abbrev requeued : Transition
requeued = record (to_status queued) {
  takeover_delta = 1;
  release_lease = true;
  enqueue_outbox = true;
}

abbrev stopped : Transition
stopped = record (to_status cancelled) { release_lease = true }

lapse : next_state a_policy (under false) lease_expired ≡ ok requeued
unfolding next_state
lapse = refl

lapse_cancelled : next_state a_policy (under true) lease_expired ≡ ok stopped
unfolding next_state
lapse_cancelled = refl

a_policy-valid : valid_policy a_policy ≡ true
unfolding valid_policy
a_policy-valid = refl

third_delay : backoff_seconds a_policy 3 ≡ ok 120
unfolding backoff_seconds
third_delay = refl

next_state-Move_example : (JobStatus.queued ≡ running) ⊎ (Move running lease_expired queued)
next_state-Move_example = next_state-Move a_policy (under false) lease_expired {t = requeued} lapse

Move-next_state_example :
    (f : JobFacts) × (f.status ≡ running)
    × (t : Transition) × (next_state a_policy f lease_expired ≡ ok t)
    × (t.status ≡ queued)
Move-next_state_example = Move-next_state a_policy (omega arith) (omega arith) reclaim

backoff_bounds_example : (d : ℕ) × (backoff_seconds a_policy 7 ≡ ok d) × (30 ≤ d) × (d ≤ 900)
backoff_bounds_example = backoff_bounds a_policy 7 a_policy-valid (omega arith)
