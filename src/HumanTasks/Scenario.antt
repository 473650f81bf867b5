-- ===== src/HumanTasks/Scenario.antt =====
-- A job with two tasks that wait in the store of human_task_store.py, and a reviewer who answers one.
use newtaipei_appraisal_revi.Prelude.{
  ℕ, String, none, some, List, [], ◌∷◌, nat_eq, pair_eq, string_eq, text_pair_eq,
}
use newtaipei_appraisal_revi.Faults.{Result, ok}
use newtaipei_appraisal_revi.JobContracts.{JobStatus, RevisionReference}
use newtaipei_appraisal_revi.JobState.{needs_human}
use newtaipei_appraisal_revi.ServiceGuards.{human, Permission, Principal}
use newtaipei_appraisal_revi.JobStore.Schedule.{Call, create_job, claim, finish}
use newtaipei_appraisal_revi.JobStore.Scenario.{reviewer, submission_of, first_attempt, after_calls}
use newtaipei_appraisal_revi.HumanTasks.{
  TaskKind, open_task, confirm, reject, HumanTask, FactSideReference, HumanResponse, TaskStore,
  AcceptedResponse, RevisionSnapshot, ResponseReceipt,
}
use newtaipei_appraisal_revi.HumanTasks.Runs.{Operation, run, empty_tasks}

abbrev pub waiting_calls : List Call
waiting_calls =
    create_job reviewer (submission_of "m") 1 10 100 5
    ∷ claim 1 10 7 120 50 6
    ∷ finish first_attempt needs_human 7 none (9 ∷ 11 ∷ []) none
    ∷ []

abbrev pub old_head : RevisionReference
old_head = (submission_of "m").revision

abbrev pub new_head : RevisionReference
new_head = record { case_id = "C1"; revision_id = "r2"; material_digest = "m2" }

abbrev pub question : ℕ → HumanTask
question id = record {
  task_id = id;
  run = record { run_id = 10; revision = old_head; attempt_id = none };
  version = 1;
  kind = TaskKind.fact;
  required_permission = Permission.confirm;
  state = open_task;
  side = some (record { subject = "s"; input_digest = "i" });
  result_digest = none;
  finding_ids = [];
  allowed_responses = confirm ∷ reject ∷ [];
  affected_subject_ids = [];
  content = "q";
}

abbrev pub old_snapshot : RevisionSnapshot
old_snapshot = record {
  revision = record { reference = old_head; parent = none; content = "c" };
  material = "m";
}

abbrev pub next_snapshot : RevisionSnapshot
next_snapshot = record {
  revision = record { reference = new_head; parent = some old_head; content = "c2" };
  material = "m2";
}

abbrev pub before : List Operation
before = Operation.seed 1 "ann" old_snapshot (question 9 ∷ question 11 ∷ []) ∷ []

abbrev pub store : TaskStore
store = run before (empty_tasks (after_calls waiting_calls))

abbrev pub command : String → HumanResponse
command key = record {
  task_id = 9;
  expected_version = 1;
  revision = old_head;
  side_digest = some "i";
  result_digest = none;
  idempotency_key = key;
  action = confirm;
  correction = none;
}

abbrev pub response : String → AcceptedResponse
response key = record { command = command key; actor = record { actor_id = "ann"; kind = human } }

abbrev pub expected_receipt : ResponseReceipt
expected_receipt = record {
  task_id = 9;
  consumed_version = 1;
  action = confirm;
  job = record { case_id = "C1"; job_id = 1 };
  job_status = JobStatus.queued;
  revision = some new_head;
  resumed_run = some (record { run_id = 20; revision = new_head; attempt_id = none });
  superseded_task_ids = 11 ∷ [];
}

abbrev pub answerer : Principal
answerer = record {
  actor = record { actor_id = "ann"; kind = human };
  case_ids = "C1" ∷ [];
  permissions = Permission.review ∷ Permission.confirm ∷ [];
}

abbrev pub digest_of : HumanResponse → String
digest_of c = c.idempotency_key

abbrev pub new_material :
    RevisionSnapshot
    → HumanTask
    → FactSideReference
    → AcceptedResponse
    → String
    → Result RevisionSnapshot
new_material snapshot task side accepted revision_id = ok (record {
  revision = record {
    reference = record { case_id = "C1"; revision_id = revision_id; material_digest = "m2" };
    parent = some snapshot.revision.reference;
    content = "c2";
  };
  material = "m2";
})

abbrev pub alone : ℕ → List Operation
alone i = []

-- Another response is refused in between.
abbrev pub later : List Operation
later = Operation.commit_response (response "k2") (some next_snapshot) "e" 35 21 201 ∷ []
