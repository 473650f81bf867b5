-- ===== src/JobStore/Read.antt =====
-- The projections of job_store.py that read and change nothing: `_record`, `_facts`, `read_job`,
-- `read_result_reference`; and `_enqueue`, `_release`, which change an object they are given.
use newtaipei_appraisal_revi.Prelude.{
  ℕ, ◌+◌, Bool, true, false, not, Option, none, some, is_empty, if◌then◌else◌, pair_eq, nat_eq,
}
use newtaipei_appraisal_revi.Prelude.Dict.{get, put}
use newtaipei_appraisal_revi.Faults.{Result, ok, err, ◌>>=◌, key_error}
use newtaipei_appraisal_revi.JobContracts.{running, same_status}
use newtaipei_appraisal_revi.JobState.{JobFacts}
use newtaipei_appraisal_revi.JobStore.Model.{Job, Run, pending, JobRecord, ResultReference, Store}

-- `_record`, once the current run is found
unfoldable pub record_of : Job → Run → JobRecord
record_of job run = record {
  job_id = job.job_id;
  case_id = job.case_id;
  principal_id = job.principal_id;
  status = job.status;
  current_run = record {
    run_id = run.run_id;
    revision = run.revision;
    attempt_id = if same_status job.status running then run.attempt_id else none;
  };
  attempt_count = job.attempt_count;
  lease_takeover_count = job.lease_takeover_count;
  result_version = run.result_version;
  cancel_requested = job.cancel_requested;
  open_task_ids = job.open_task_ids;
  problem = job.problem;
}

abbrev pub record_found : Job → Option Run → Result JobRecord
record_found job none = err key_error
record_found job (some run) = ok (record_of job run)

-- `_record`: the lookup of the current run raises `KeyError` where the run is missing.
unfoldable pub job_record : Store → Job → Result JobRecord
job_record s job = record_found job (get s.runs (job.job_id, job.current_run_id))

unfoldable pub facts_of : Job → JobFacts
facts_of job = record {
  status = job.status;
  attempt_count = job.attempt_count;
  lease_takeover_count = job.lease_takeover_count;
  cancel_requested = job.cancel_requested;
  has_open_tasks = not (is_empty job.open_task_ids);
}

abbrev pub read_found : Store → Option Job → Result (Option JobRecord)
read_found s none = ok none
read_found s (some job) = do r ← job_record s job; ok (some r)

unfoldable pub read_job : ℕ → Store → Result (Option JobRecord)
read_job job_id s = read_found s (get s.jobs job_id)

unfoldable pub read_result_reference : ℕ → ℕ → Store → Option ResultReference
read_result_reference run_id result_version s = get s.results (run_id, result_version)

-- `_release`
unfoldable pub release : Run → Bool → Run
release run false = run
release run true = record run { lease_owner = none; lease_expires_at = none; attempt_id = none }

-- `_enqueue`: the job object is shared with the store, so the bumped sequence is stored as well.
-- `token` is the `uuid4()` of the new round.
unfoldable pub enqueue : Job → ℕ → ℕ → ℕ → Store → Store
enqueue job run_id available_at token s =
    let seq = job.outbox_seq + 1 in
    record s {
      jobs = put s.jobs job.job_id (record job { outbox_seq = seq });
      outbox =
          put s.outbox (job.job_id, seq)
            (record {
              job_id = job.job_id;
              run_id = run_id;
              outbox_seq = seq;
              dispatch_token = token;
              available_at = available_at;
              dispatch_attempts = 0;
              dispatch_state = pending;
            });
    }

-- The end of most methods: the changed objects are in the store, and the record is returned.
abbrev pub answer : Job → Store → Result JobRecord × Store
answer job s = (job_record s job, s)
