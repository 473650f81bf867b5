-- ===== src/JobStore/Lease.antt =====
-- Execution authority in job_store.py: `claim`, `_authority`, `heartbeat` and `expire_lease`.
-- What a method does to the two objects it found is a function of its own; the method looks them
-- up, and stores them.
use newtaipei_appraisal_revi.Prelude.{
  ℕ, ◌+◌, Bool, false, not, ◌||◌, Option, none, some, [], ◌∷◌, ◌++◌, ltb, leb, eqb, if◌then◌else◌,
  ◌==◌, nat_eq, pair_eq, option_eq,
}
use newtaipei_appraisal_revi.Prelude.Dict.{get, put}
use newtaipei_appraisal_revi.Faults.{
  Result, ok, err, ◌>>=◌, ◌>>◌, reject_if, service_fault, condition_failed, value_error, conflict,
  execution, ServiceProblem,
}
use newtaipei_appraisal_revi.JobContracts.{running, failed, cancelled, same_status}
use newtaipei_appraisal_revi.JobState.{
  JobPolicy, next_state, heartbeat as heartbeat_event, claim as claim_event, lease_expired,
}
use newtaipei_appraisal_revi.JobStore.Model.{
  Job, Run, in_progress, ClaimedAttempt, HeartbeatState, ExpiredLease, JobRecord, Method,
}
use newtaipei_appraisal_revi.JobStore.Read.{facts_of, release, enqueue, answer}

-- `CANCELLED_PROBLEM`
abbrev pub cancelled_problem : ServiceProblem
cancelled_problem = record { code = conflict }

-- `if job is None or run is None: raise ConditionFailed(...)`
abbrev pub both_found : {A : Type 0} → Option Job → Option Run → (Job → Run → Method A) → Method A
both_found (some job) (some run) body s = body job run s
both_found _ _ body s = (err condition_failed, s)

-- `self._jobs.get(job_id)` and `self._runs.get((job_id, run_id))`
abbrev pub with_objects : {A : Type 0} → ℕ → ℕ → (Job → Run → Method A) → Method A
with_objects job_id run_id body s =
    both_found (get s.jobs job_id) (get s.runs (job_id, run_id)) body s

-- A method that raises before it changes anything leaves the state as it was.
abbrev pub commit : {A B : Type 0} → Result A → (A → Method B) → Method B
commit (err e) body s = (err e, s)
commit (ok a) body s = body a s

-- `except ServiceFault as fault: raise ConditionFailed(...) from fault`
abbrev pub as_condition : {A : Type 0} → Result A → Result A
as_condition (err (service_fault code)) = err condition_failed
as_condition (err e) = err e
as_condition (ok a) = ok a

-- `run.lease_expires_at is not None and run.lease_expires_at > now`
abbrev lease_valid : Option ℕ → ℕ → Bool
lease_valid none now = false
lease_valid (some t) now = ltb now t

unfoldable pub claim_objects : JobPolicy → ℕ → ℕ → ℕ → ℕ → ℕ → Job → Run → Result (Job × Run)
claim_objects policy run_id owner lease_seconds attempt_id now job run = do
  reject_if (not (eqb job.current_run_id run_id)) condition_failed
  reject_if (lease_valid run.lease_expires_at now) condition_failed
  transition ← as_condition (next_state policy (facts_of job) claim_event)
  ok (
    record job { status = transition.status; updated_at = now },
    record run {
      fencing_token = run.fencing_token + 1;
      lease_owner = some owner;
      lease_expires_at = some (now + lease_seconds);
      attempt_id = some attempt_id;
      run_status = transition.status;
    },
  )

-- What `claim` stores and returns, once the two objects are computed.
abbrev pub grant : ℕ → ℕ → ℕ → ℕ → ℕ → ℕ → Job × Run → Method ClaimedAttempt
grant job_id run_id owner lease_seconds attempt_id now objects s =
    let job' = objects.0 in
    let run' = objects.1 in
    (
      ok (record {
        job_id = job_id;
        run_id = run_id;
        attempt_id = attempt_id;
        owner = owner;
        fencing_token = run'.fencing_token;
        expected_result_version = run'.result_version;
        lease_expires_at = now + lease_seconds;
      }),
      record s {
        jobs = put s.jobs job_id job';
        runs = put s.runs (job_id, run_id) run';
        attempts =
            s.attempts
            ++ record {
              job_id = job_id;
              run_id = run_id;
              attempt_id = attempt_id;
              fencing_token = run'.fencing_token;
              owner = owner;
              claimed_at = now;
              outcome = in_progress;
            }
              ∷ [];
      },
    )

-- `attempt_id` is the `uuid4()` of the new attempt.
unfoldable pub claim : ℕ → ℕ → ℕ → ℕ → ℕ → ℕ → Method ClaimedAttempt
unfolding claim_objects
claim job_id run_id owner lease_seconds attempt_id now s =
    if ltb lease_seconds 1
    then (err value_error, s)
    else with_objects job_id run_id
        (λ job run.
          commit (claim_objects s.policy run_id owner lease_seconds attempt_id now job run)
            (grant job_id run_id owner lease_seconds attempt_id now))
        s

-- The test of `_authority`: owner, token and attempt are those of the lease, and the job runs.
unfoldable pub holds_lease : ClaimedAttempt → Job → Run → Bool
holds_lease attempt job run = not (
    not (run.lease_owner == some attempt.owner)
    || not (eqb run.fencing_token attempt.fencing_token)
    || not (run.attempt_id == some attempt.attempt_id)
    || not (same_status job.status running))

unfoldable pub heartbeat_objects :
    JobPolicy → ClaimedAttempt → ℕ → ℕ → Job → Run → Result (Job × Run)
heartbeat_objects policy attempt lease_seconds now job run = do
  reject_if (not (holds_lease attempt job run)) condition_failed
  _ ← next_state policy (facts_of job) heartbeat_event
  ok (record job { updated_at = now }, record run { lease_expires_at = some (now + lease_seconds) })

unfoldable pub heartbeat : ClaimedAttempt → ℕ → ℕ → Method HeartbeatState
unfolding heartbeat_objects
heartbeat attempt lease_seconds now s =
    if ltb lease_seconds 1
    then (err value_error, s)
    else with_objects attempt.job_id attempt.run_id
        (λ job run.
          commit (heartbeat_objects s.policy attempt lease_seconds now job run) (λ objects _. (
            ok (record {
              lease_expires_at = now + lease_seconds;
              cancel_requested = job.cancel_requested;
            }),
            record s {
              jobs = put s.jobs attempt.job_id objects.0;
              runs = put s.runs (attempt.job_id, attempt.run_id) objects.1;
            },
          )))
        s

abbrev lease_lapsed : Option ℕ → ℕ → Bool
lease_lapsed none now = false
lease_lapsed (some t) now = leb t now

-- The transition comes back too: its flag says whether a fresh round is enqueued.
unfoldable pub expire_objects : JobPolicy → ExpiredLease → ℕ → Job → Run → Result (Job × Run × Bool)
expire_objects policy lease now job run = do
  reject_if
      (not (eqb run.fencing_token lease.fencing_token)
        || not (lease_lapsed run.lease_expires_at now)
        || not (same_status job.status running))
      condition_failed
  transition ← next_state policy (facts_of job) lease_expired
  ok (
    record job {
      lease_takeover_count = job.lease_takeover_count + transition.takeover_delta;
      status = transition.status;
      updated_at = now;
      problem =
          if same_status transition.status failed
          then some (record { code = execution })
          else if same_status transition.status cancelled
          then some cancelled_problem
          else job.problem;
      open_task_ids = if same_status transition.status cancelled then [] else job.open_task_ids;
    },
    release (record run { run_status = transition.status }) transition.release_lease,
    transition.enqueue_outbox,
  )

unfoldable pub expire_lease : ExpiredLease → ℕ → ℕ → Method JobRecord
unfolding expire_objects
expire_lease lease token now s =
    with_objects lease.job_id lease.run_id
      (λ job run. commit (expire_objects s.policy lease now job run) (λ objects _.
        let stored = record s {
          jobs = put s.jobs lease.job_id objects.0;
          runs = put s.runs (lease.job_id, lease.run_id) objects.1;
        } in
        answer objects.0
          (if objects.2 then enqueue objects.0 lease.run_id now token stored else stored)))
      s
