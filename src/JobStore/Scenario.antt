-- ===== src/JobStore/Scenario.antt =====
-- A submission of one reviewer on the store of job_store.py, and what is called for it.
use newtaipei_appraisal_revi.Prelude.{
  ℕ, String, ◌≡◌, refl, sym, subst, Bool, true, false, Option, none, some, List, [], ◌∷◌, arith,
}
use newtaipei_appraisal_revi.JobContracts.{JobStatus, ExecutionStatus, RevisionReference}
use newtaipei_appraisal_revi.JobState.{JobPolicy, publish_result}
use newtaipei_appraisal_revi.JobState.Policy.{valid_policy}
use newtaipei_appraisal_revi.ServiceGuards.{Principal, human, ReviewSubmission, review}
use newtaipei_appraisal_revi.JobStore.Model.{
  JobRecord, ClaimedAttempt, ResultReference, Store, empty_store,
}
use newtaipei_appraisal_revi.JobStore.Sound.{IsSound}
use newtaipei_appraisal_revi.JobStore.Steps.Submission.{HasRoom}
use newtaipei_appraisal_revi.JobStore.Schedule.{
  Call, create_job, claim, finish, cancel, run_calls, run_calls-Follows, run_calls-IsSound,
  empty_store-IsSound,
}

-- Stand-ins for the two digests.
abbrev pub same_text : String → String
same_text text = text

abbrev pub material_of : ReviewSubmission → String
material_of submission = submission.revision.material_digest

abbrev pub default_policy : JobPolicy
default_policy = record {
  lease_seconds = 120;
  heartbeat_seconds = 30;
  visibility_timeout_seconds = 180;
  max_attempts = 5;
  max_lease_takeovers = 3;
  backoff_base_seconds = 30;
  backoff_cap_seconds = 900;
}

abbrev pub reviewer : Principal
reviewer = record {
  actor = record { actor_id = "ann"; kind = human };
  case_ids = "C1" ∷ [];
  permissions = review ∷ [];
}

abbrev revision_of : String → RevisionReference
revision_of material = record { case_id = "C1"; revision_id = "r1"; material_digest = material }

abbrev pub submission_of : String → ReviewSubmission
submission_of material = record {
  revision = revision_of material;
  documents = [];
  idempotency_key = "key-1";
}

abbrev pub first_attempt : ClaimedAttempt
first_attempt = record {
  job_id = 1;
  run_id = 10;
  attempt_id = 50;
  owner = 7;
  fencing_token = 1;
  expected_result_version = 0;
  lease_expires_at = 126;
}

abbrev pub second_attempt : ClaimedAttempt
second_attempt = record {
  job_id = 1;
  run_id = 10;
  attempt_id = 51;
  owner = 8;
  fencing_token = 2;
  expected_result_version = 0;
  lease_expires_at = 321;
}

abbrev pub published : ResultReference
published = record {
  run_id = 10;
  result_version = 1;
  fencing_token = 1;
  execution_status = ExecutionStatus.succeeded;
  business_status = none;
  artifact_status = "not_requested";
  result_digest = "d";
  artifact_ids = [];
  finding_count = 0;
}

abbrev pub after_calls : List Call → Store
after_calls cs = run_calls same_text material_of cs (empty_store default_policy)

abbrev pub submitted : List Call
submitted = create_job reviewer (submission_of "m") 1 10 100 5 ∷ []

abbrev pub publishing : List Call
publishing =
    create_job reviewer (submission_of "m") 1 10 100 5
    ∷ claim 1 10 7 120 50 6
    ∷ finish first_attempt publish_result 7 none [] (some published)
    ∷ []

abbrev pub cancelling : List Call
cancelling =
    create_job reviewer (submission_of "m") 1 10 100 5 ∷ claim 1 10 7 120 50 6 ∷ cancel 1 8 ∷ []

abbrev pub record_with : JobStatus → Option ℕ → ℕ → Bool → JobRecord
record_with status attempt version asked = record {
  job_id = 1;
  case_id = "C1";
  principal_id = "ann";
  status = status;
  current_run = record { run_id = 10; revision = revision_of "m"; attempt_id = attempt };
  attempt_count = 0;
  lease_takeover_count = 0;
  result_version = version;
  cancel_requested = asked;
  open_task_ids = [];
  problem = none;
}

abbrev pub succeeded_record : JobRecord
succeeded_record = record_with JobStatus.succeeded none 1 false

abbrev pub noticed_record : JobRecord
noticed_record = record_with JobStatus.running (some 50) 0 true

pub default_policy-valid : valid_policy default_policy ≡ true
unfolding valid_policy
default_policy-valid = refl

pub sound : (cs : List Call) → IsSound (after_calls cs)
sound cs = run_calls-IsSound same_text material_of default_policy cs default_policy-valid

pub empty_room : HasRoom (empty_store default_policy).policy
unfolding empty_store
empty_room = record { attempts = omega arith; takeovers = omega arith }

pub room : (cs : List Call) → HasRoom (after_calls cs).policy
room cs =
    let follows =
      run_calls-Follows same_text material_of cs (empty_store default_policy) empty_room
        (empty_store-IsSound same_text material_of default_policy) in
    subst HasRoom (sym follows.past.policy) empty_room
