-- ===== src/HumanTasks.antt =====
-- The values of the human tasks: domain/service_contracts.py, domain/task_contracts.py and
-- ports/human_tasks.py under src/appraisal_review, and the state of `LocalHumanTaskStore` in
-- adapters/local/human_task_store.py.
mod Validation
mod Commit
mod Seed
mod Reads
mod Runs
mod Chain
mod History
mod Taken
mod Outcomes
mod Consumed
mod Atomic
mod Admission
mod Authority
mod Service
mod Answered
mod Replay
mod Scenario
mod Witness
use newtaipei_appraisal_revi.Prelude.{
  ℕ, ◌+◌, String, ◌≡◌, ◌↔◌, Bool, true, false, not, ◌&&◌, ◌||◌, Option, none, some, is_some, List,
  [], ◌∷◌, eqb, if◌then◌else◌, ◌==◌, nat_eq, string_eq, option_eq, text_pair_eq, distinct, is_in,
  arith, Eq,
}
use newtaipei_appraisal_revi.Prelude.Dict.{Dict}
use newtaipei_appraisal_revi.JobContracts.{JobStatus, JobReference, RevisionReference, RunReference}
use newtaipei_appraisal_revi.ServiceGuards.{ActorReference, Permission}
use newtaipei_appraisal_revi.ActionContracts.Snapshot.{revision_eq}
use newtaipei_appraisal_revi.JobStore.Model.{Store}

pub data TaskKind : Type 0 where
  fact correction rules material publication evidence : TaskKind

pub data ResponseAction : Type 0 where
  confirm correct reject approve authorize_publication supply_evidence : ResponseAction

abbrev pub same_action : ResponseAction → ResponseAction → Bool
same_action confirm confirm = true
same_action correct correct = true
same_action reject reject = true
same_action approve approve = true
same_action authorize_publication authorize_publication = true
same_action supply_evidence supply_evidence = true
same_action _ _ = false

pub same_action_iff : (a b : ResponseAction) → (same_action a b ≡ true) ↔ (a ≡ b)
same_action_iff a b = ground arith

instance abbrev pub action_eq : Eq ResponseAction
action_eq = record { beq = same_action; beq_iff = same_action_iff }

pub data TaskState : Type 0 where
  open_task answered superseded : TaskState

abbrev pub is_open : TaskState → Bool
is_open open_task = true
is_open _ = false

-- `subject` is the JSON text of the context, the factor and the side.
pub record FactSideReference : Type 0 where
  pub subject : String
  pub input_digest : String

-- `content` is the JSON text of the question, the evidence and the reason.
pub record HumanTask : Type 0 where
  pub task_id : ℕ
  pub run : RunReference
  pub version : ℕ
  pub kind : TaskKind
  pub required_permission : Permission
  pub state : TaskState
  pub side : Option FactSideReference
  pub result_digest : Option String
  pub finding_ids : List String
  pub allowed_responses : List ResponseAction
  pub affected_subject_ids : List String
  pub content : String

-- The values are JSON texts.
pub record ValueRevision : Type 0 where
  pub subject_id : String
  pub original : String
  pub proposed : Option String
  pub corrected : Option String
  pub corrected_by : Option String

pub record HumanResponse : Type 0 where
  pub task_id : ℕ
  pub expected_version : ℕ
  pub revision : RevisionReference
  pub side_digest : Option String
  pub result_digest : Option String
  pub idempotency_key : String
  pub action : ResponseAction
  pub correction : Option ValueRevision

pub record AcceptedResponse : Type 0 where
  pub command : HumanResponse
  pub actor : ActorReference

-- `MaterialRevision`, as far as the store reads it: `content` is the JSON text of its other fields.
pub record ChainedRevision : Type 0 where
  pub reference : RevisionReference
  pub parent : Option RevisionReference
  pub content : String

-- `material` is the JSON text of the reviewed material.
pub record RevisionSnapshot : Type 0 where
  pub revision : ChainedRevision
  pub material : String

pub record ResponseReceipt : Type 0 where
  pub task_id : ℕ
  pub consumed_version : ℕ
  pub action : ResponseAction
  pub job : JobReference
  pub job_status : JobStatus
  pub revision : Option RevisionReference
  pub resumed_run : Option RunReference
  pub superseded_task_ids : List ℕ

pub record StoredReceipt : Type 0 where
  pub payload_digest : String
  pub receipt : ResponseReceipt

-- `_Task`; the dictionary keeps the tasks in the order of `seq`.
pub record Task : Type 0 where
  pub task : HumanTask
  pub job_id : ℕ
  pub case_id : String
  pub principal_id : String

-- `_Job`
pub record JobMeta : Type 0 where
  pub case_id : String
  pub principal_id : String
  pub head : RevisionReference

-- `LocalHumanTaskStore`, with the job store that it was given.
pub record TaskStore : Type 0 where
  pub jobs : Store
  pub tasks : Dict ℕ Task
  pub job_meta : Dict ℕ JobMeta
  pub chain : Dict ℕ (List ChainedRevision)
  pub snapshots : Dict (String × String) RevisionSnapshot
  pub receipts : Dict (String × String) StoredReceipt

-- `_restate`
unfoldable pub restate : HumanTask → TaskState → ℕ → HumanTask
restate task state version = record task { state = state; version = version }

-- The other open tasks about the old head.
unfoldable pub is_stale : ℕ → RevisionReference → Task → Bool
is_stale job_id old_head other =
    eqb other.job_id job_id && is_open other.task.state && other.task.run.revision == old_head

unfoldable pub supersede : ℕ → RevisionReference → Dict ℕ Task → Dict ℕ Task
unfolding is_stale restate
supersede job_id old_head [] = []
supersede job_id old_head ((k, t) ∷ ts) =
    let rest = supersede job_id old_head ts in
    if is_stale job_id old_head t
    then (k, record t { task = restate t.task superseded (t.task.version + 1) }) ∷ rest
    else (k, t) ∷ rest

unfoldable pub stale_ids : ℕ → RevisionReference → Dict ℕ Task → List ℕ
unfolding is_stale
stale_ids job_id old_head [] = []
stale_ids job_id old_head ((k, t) ∷ ts) =
    let rest = stale_ids job_id old_head ts in
    if is_stale job_id old_head t then t.task.task_id ∷ rest else rest

abbrev pub is_rejection : ResponseAction → Bool
is_rejection reject = true
is_rejection _ = false

-- `ResponseReceipt.committed_effect`: `true` where no `ValueError` is raised.
abbrev resumes : String → Option RevisionReference → Option RunReference → Bool
resumes case_id none none = true
resumes case_id (some revision) (some run) =
    revision.case_id == case_id && run.revision == revision && not (is_some run.attempt_id)
resumes case_id _ _ = false

unfoldable pub committed_effect : ResponseReceipt → Bool
committed_effect r =
    resumes r.job.case_id r.revision r.resumed_run
    && not (is_rejection r.action && is_some r.revision)
    && distinct r.superseded_task_ids
    && not (is_in r.task_id r.superseded_task_ids)
