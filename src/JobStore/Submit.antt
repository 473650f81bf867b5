-- ===== src/JobStore/Submit.antt =====
-- `create_job` of job_store.py, with `idempotency_partition` and `_run_owner`. SHA-256 and the
-- content digest of a submission are parameters.
use Prim.Native.String.{◌++◌}
use newtaipei_appraisal_revi.Prelude.{
  ℕ, String, Bool, true, false, ◌||◌, Option, none, some, [], ◌∷◌, eqb, is_some, if◌then◌else◌,
  pair_eq, nat_eq, string_eq,
}
use newtaipei_appraisal_revi.Prelude.Dict.{Dict, get, put}
use newtaipei_appraisal_revi.Faults.{
  Result, ok, err, ◌>>=◌, ◌>>◌, reject_if, condition_failed, key_error,
}
use newtaipei_appraisal_revi.JobContracts.{queued}
use newtaipei_appraisal_revi.JobState.{initial_transition}
use newtaipei_appraisal_revi.ServiceGuards.{
  Principal, ReviewSubmission, IdempotencyRecord, review, require, submission_digest,
  check_idempotency,
}
use newtaipei_appraisal_revi.JobStore.Model.{Job, Run, JobRecord, Store, Method}
use newtaipei_appraisal_revi.JobStore.Read.{enqueue, job_record}
use newtaipei_appraisal_revi.JobStore.Lease.{commit}

-- `_run_owner`: the first stored run with that id
unfoldable run_owner : Dict (ℕ × ℕ) Run → ℕ → Result ℕ
run_owner [] run_id = err condition_failed
run_owner (((job_id, stored_run), _) ∷ runs) run_id =
    if eqb stored_run run_id then ok job_id else run_owner runs run_id

-- The job that a known submission created.
unfoldable pub replay_of : ℕ → Store → Result JobRecord
unfolding run_owner
replay_of existing_run s = do
  job_id ← run_owner s.runs existing_run
  job ← elim (get s.jobs job_id) [ none ↦ err key_error | some job ↦ ok job ]
  job_record s job

unfoldable pub new_job : Principal → ReviewSubmission → ℕ → ℕ → ℕ → Job
unfolding initial_transition
new_job principal submission job_id run_id now = record {
  job_id = job_id;
  case_id = submission.revision.case_id;
  principal_id = principal.actor.actor_id;
  status = initial_transition.status;
  current_run_id = run_id;
  attempt_count = 0;
  lease_takeover_count = 0;
  cancel_requested = false;
  open_task_ids = [];
  problem = none;
  outbox_seq = 0;
  created_at = now;
  updated_at = now;
}

unfoldable pub new_run : ReviewSubmission → String → ℕ → Run
new_run submission digest run_id = record {
  run_id = run_id;
  revision = submission.revision;
  documents = submission.documents;
  payload_digest = digest;
  fencing_token = 0;
  result_version = 0;
  lease_owner = none;
  lease_expires_at = none;
  attempt_id = none;
  run_status = queued;
}

-- `f"IDEM#{principal_id}#{sha256(key)}"`
unfoldable pub idempotency_partition : (String → String) → String → String → String
idempotency_partition sha256 principal_id key = "IDEM#" ++ principal_id ++ "#" ++ sha256 key

-- The guards of a submission whose key is not known yet.
unfoldable pub admit_new : Principal → ReviewSubmission → ℕ → ℕ → Store → Result (Unit {0})
admit_new principal submission job_id run_id s = do
  require principal submission.revision.case_id review
  reject_if (is_some (get s.jobs job_id) || is_some (get s.runs (job_id, run_id))) condition_failed

-- A submission is a replay where its key is known.
abbrev pub by_key :
    Option IdempotencyRecord
    → (IdempotencyRecord → Method (JobRecord × Bool))
    → Method (JobRecord × Bool)
    → Method (JobRecord × Bool)
by_key none replay fresh s = fresh s
by_key (some stored) replay fresh s = replay stored s

module _ (sha256 : String → String) (content_digest : ReviewSubmission → String) where
  -- The replay of a known key: the stored job, or the reason why this is no replay.
  unfoldable pub create_replay :
      IdempotencyRecord → Principal → ReviewSubmission → Store → Result (JobRecord × Bool)
  create_replay stored principal submission s = do
    existing_run ← check_idempotency content_digest stored principal submission
    replayed ← replay_of existing_run s
    ok (replayed, false)

  -- The writes of a new submission. `token` is the `uuid4()` of the first round.
  unfoldable pub create_new :
      String → Principal → ReviewSubmission → ℕ → ℕ → ℕ → ℕ → Method (JobRecord × Bool)
  unfolding new_job new_run
  create_new partition principal submission job_id run_id token now s =
      let digest = submission_digest content_digest submission in
      let job = new_job principal submission job_id run_id now in
      let stored = enqueue job run_id now token (record s {
        jobs = put s.jobs job_id job;
        runs = put s.runs (job_id, run_id) (new_run submission digest run_id);
        idempotency = put s.idempotency partition (record {
          principal_id = principal.actor.actor_id;
          key = submission.idempotency_key;
          payload_digest = digest;
          run_id = run_id;
        });
      }) in
      (do r ← job_record stored job; ok (r, true), stored)

  -- `True` beside the record where this call created the job.
  unfoldable pub create_job :
      Principal → ReviewSubmission → ℕ → ℕ → ℕ → ℕ → Method (JobRecord × Bool)
  unfolding admit_new create_new create_replay
  create_job principal submission job_id run_id token now s =
      let partition =
        idempotency_partition sha256 principal.actor.actor_id submission.idempotency_key in
      by_key (get s.idempotency partition)
        (λ stored _. (create_replay stored principal submission s, s))
        (commit (admit_new principal submission job_id run_id s)
          (λ _. create_new partition principal submission job_id run_id token now))
        s
