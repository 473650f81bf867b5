-- ===== src/HumanTasks/Service.antt =====
-- `HumanTaskService` of application/human_tasks.py: `_authorized_job`, `_visible`, `_authorized`, `respond` and the
-- checks of `_next_revision`. Between two calls of the store the program awaits, and other operations
-- may run: `turns 0` before the task is read, `turns 1` before its job, `turns 2` before the receipt,
-- `turns 3` before the material and `turns 4` before the commit.
use newtaipei_appraisal_revi.Prelude.{
  ℕ, String, Bool, true, false, not, ◌&&◌, ◌||◌, Option, none, some, List, eqb, if◌then◌else◌, ◌==◌,
  nat_eq, string_eq,
}
use newtaipei_appraisal_revi.Faults.{
  Result, ok, err, ◌>>=◌, ◌>>◌, reject_if, service_fault, condition_failed, value_error, conflict,
  not_found, capability, execution,
}
use newtaipei_appraisal_revi.ServiceGuards.{Principal, Permission, require, has_case}
use newtaipei_appraisal_revi.JobStore.Model.{JobRecord, Store}
use newtaipei_appraisal_revi.JobStore.Read.{read_job}
use newtaipei_appraisal_revi.HumanTasks.{
  TaskKind, fact, correction, evidence, HumanTask, HumanResponse, AcceptedResponse,
  FactSideReference, RevisionSnapshot, ResponseReceipt, StoredReceipt, TaskStore, is_rejection,
}
use newtaipei_appraisal_revi.HumanTasks.Validation.{action_payload}
use newtaipei_appraisal_revi.HumanTasks.Reads.{TaskRecord, read_task, read_snapshot, read_receipt}
use newtaipei_appraisal_revi.HumanTasks.Commit.{commit_response}
use newtaipei_appraisal_revi.HumanTasks.Admission.{admit_response, response_digest}
use newtaipei_appraisal_revi.HumanTasks.Runs.{Operation, run}

abbrev pub Action : Type 0 → Type 0
Action A = TaskStore → Result A × TaskStore

abbrev pub and_then : {A B : Type 0} → Result A × TaskStore → (A → Action B) → Result B × TaskStore
and_then (err e, w) rest = (err e, w)
and_then (ok a, w) rest = rest a w

-- One read of the store, after what others did.
abbrev pub read_after : {A : Type 0} → List Operation → (TaskStore → Result A) → Action A
read_after others read w = let v = run others w in (read v, v)

abbrev owned : Principal → Option JobRecord → Result JobRecord
owned principal none = err (service_fault not_found)
owned principal (some job) = do
  reject_if
      (not (job.principal_id == principal.actor.actor_id)
        || not (has_case job.case_id principal.case_ids))
      (service_fault not_found)
  require principal job.case_id Permission.review
  ok job

-- `_authorized_job`
unfoldable pub authorized_job : Principal → ℕ → Store → Result JobRecord
authorized_job principal job_id s = do job ← read_job job_id s; owned principal job

-- `_visible`
unfoldable pub visible : Principal → TaskRecord → Bool
visible principal r =
    r.principal_id == principal.actor.actor_id && has_case r.case_id principal.case_ids

abbrev shown : Principal → Option TaskRecord → Result TaskRecord
shown principal none = err (service_fault not_found)
shown principal (some r) = do reject_if (not (visible principal r)) (service_fault not_found); ok r

-- `_authorized`
unfoldable pub authorized : Principal → ℕ → (ℕ → List Operation) → Action TaskRecord
unfolding authorized_job visible
authorized principal task_id turns w =
    and_then (read_after (turns 0) (λ v. read_task task_id v >>= shown principal) w) (λ r v.
      and_then (read_after (turns 1) (λ u. authorized_job principal r.job_id u.jobs) v)
        (λ job u. (ok r, u)))

-- `task.kind in MATERIAL_KINDS`
abbrev is_material : TaskKind → Bool
is_material fact = true
is_material correction = true
is_material evidence = true
is_material _ = false

-- `except ConditionFailed`
abbrev pub committed : Result ResponseReceipt × TaskStore → Result ResponseReceipt × TaskStore
committed (err condition_failed, w) = (err (service_fault conflict), w)
committed (done, w) = (done, w)

-- `content_digest` is the SHA-256 of the JSON text that the model library writes. `revise` is what
-- `_locate`, `_confirm` and `_correct` make of the material, which this does not model: any function.
module _ (content_digest : HumanResponse → String)
    (revise : RevisionSnapshot
      → HumanTask
      → FactSideReference
      → AcceptedResponse
      → String
      → Result RevisionSnapshot) where
  abbrev revised :
      Option RevisionSnapshot
      → Option FactSideReference
      → HumanTask
      → AcceptedResponse
      → String
      → Result (Option RevisionSnapshot)
  revised none side task accepted revision_id = err (service_fault execution)
  revised (some snapshot) none task accepted revision_id = err (service_fault conflict)
  revised (some snapshot) (some side) task accepted revision_id = do
    next ← revise snapshot task side accepted revision_id
    ok (some next)

  -- `_next_revision`
  unfoldable pub next_revision :
      TaskRecord → AcceptedResponse → String → List Operation → Action (Option RevisionSnapshot)
  unfolding read_snapshot
  next_revision r accepted revision_id others w =
      if is_rejection accepted.command.action
      then (ok none, w)
      else if not (is_material r.task.kind)
      then (err (service_fault capability), w)
      else read_after others
          (λ v.
            revised (read_snapshot r.current_revision v) r.task.side r.task accepted revision_id)
          w

  module _ (principal : Principal) (task_id : ℕ) (command : HumanResponse) (revision_id : String)
      (now run_id token : ℕ) (turns : ℕ → List Operation) where
    abbrev pub digest : String
    digest = response_digest content_digest command

    -- The answer once the receipt under the key is read.
    abbrev pub decided : Option StoredReceipt → TaskRecord → Action ResponseReceipt
    decided (some stored) r w =
        if stored.payload_digest == digest
        then (ok stored.receipt, w)
        else (err (service_fault conflict), w)
    decided none r w =
        and_then (admit_response r.task command principal r.current_revision, w)
          (λ accepted v. and_then (next_revision r accepted revision_id (turns 3) v) (λ next u.
            committed (commit_response accepted next digest now run_id token (run (turns 4) u))))

    abbrev pub receipt_read : TaskRecord → Action ResponseReceipt
    receipt_read r w =
        let v = run (turns 2) w in
        decided (read_receipt principal.actor.actor_id command.idempotency_key v) r v

    unfoldable pub respond : Action ResponseReceipt
    unfolding authorized next_revision read_receipt
    respond w =
        if not (action_payload command)
        then (err value_error, w)
        else if not (eqb command.task_id task_id)
        then (err (service_fault not_found), w)
        else and_then (authorized principal task_id turns w) receipt_read
