-- ===== src/HumanTasks/Commit.antt =====
-- `LocalHumanTaskStore.commit_response` of human_task_store.py. One lock is held over it, so it is one
-- step; the job store's method runs inside it.
use newtaipei_appraisal_revi.Prelude.{
  ℕ, ◌+◌, String, Bool, false, not, ◌||◌, Option, none, some, List, [], ◌∷◌, ◌++◌, eqb,
  if◌then◌else◌, ◌==◌, nat_eq, string_eq, option_eq, text_pair_eq,
}
use newtaipei_appraisal_revi.Prelude.Dict.{get, put}
use newtaipei_appraisal_revi.Faults.{
  Result, ok, err, condition_failed, value_error, key_error, service_fault, conflict,
}
use newtaipei_appraisal_revi.JobContracts.{RevisionReference, RunReference}
use newtaipei_appraisal_revi.ActionContracts.Snapshot.{revision_eq}
use newtaipei_appraisal_revi.JobStore.Model.{JobRecord, Store}
use newtaipei_appraisal_revi.JobStore.Manage.{reject_human_task, resume_after_human}
use newtaipei_appraisal_revi.HumanTasks.{
  ChainedRevision, is_open, answered, Task, JobMeta, TaskStore, AcceptedResponse, RevisionSnapshot,
  ResponseReceipt, StoredReceipt, restate, supersede, stale_ids, committed_effect,
}

-- What `_apply` has done when the job store returns a record: the receipt is checked and stored.
abbrev pub receipted :
    String × String → String → ResponseReceipt → TaskStore → Result ResponseReceipt × TaskStore
receipted key digest receipt w =
    if committed_effect receipt
    then (
      ok receipt,
      record w {
        receipts = put w.receipts key (record { payload_digest = digest; receipt = receipt });
      },
    )
    else (err value_error, w)

abbrev pub on_jobs :
    Result JobRecord × Store
    → TaskStore
    → (JobRecord → TaskStore → Result ResponseReceipt × TaskStore)
    → Result ResponseReceipt × TaskStore
on_jobs (err e, s) w rest = (err e, record w { jobs = s })
on_jobs (ok r, s) w rest = rest r (record w { jobs = s })

-- The receipt of a response.
abbrev pub receipt_of :
    Task
    → AcceptedResponse
    → Option RevisionReference
    → Option RunReference
    → List ℕ
    → JobRecord
    → ResponseReceipt
receipt_of entry accepted revision run ids r = record {
  task_id = entry.task.task_id;
  consumed_version = accepted.command.expected_version;
  action = accepted.command.action;
  job = record { case_id = entry.case_id; job_id = entry.job_id };
  job_status = r.status;
  revision = revision;
  resumed_run = run;
  superseded_task_ids = ids;
}

abbrev pub answered_task : Task → Task
answered_task entry = record entry { task = restate entry.task answered (entry.task.version + 1) }

-- The writes of `_apply` before it calls the job store.
unfoldable pub applied :
    Task → JobMeta → List ChainedRevision → RevisionSnapshot → TaskStore → TaskStore
unfolding restate supersede
applied entry meta rows next w = record w {
  tasks = supersede entry.job_id meta.head (put w.tasks entry.task.task_id (answered_task entry));
  job_meta = put w.job_meta entry.job_id (record meta { head = next.revision.reference });
  chain = put w.chain entry.job_id (rows ++ next.revision ∷ []);
  snapshots =
      put w.snapshots (next.revision.reference.case_id, next.revision.reference.revision_id) next;
}

-- The rejection: no revision, and the job store is told.
abbrev pub apply_rejection :
    Task → AcceptedResponse → String → ℕ → TaskStore → Result ResponseReceipt × TaskStore
apply_rejection entry accepted digest now w =
    on_jobs (reject_human_task entry.job_id entry.task.run.run_id entry.task.task_id now w.jobs)
      (record w { tasks = put w.tasks entry.task.task_id (answered_task entry) })
      (λ r.
        receipted (accepted.actor.actor_id, accepted.command.idempotency_key) digest
          (receipt_of entry accepted none none [] r))

abbrev pub new_run : RevisionSnapshot → ℕ → RunReference
new_run next run_id = record {
  run_id = run_id;
  revision = next.revision.reference;
  attempt_id = none;
}

-- The receipt of a response with a new revision; `w` is the store before it.
abbrev pub revision_receipt :
    Task
    → JobMeta
    → AcceptedResponse
    → RevisionSnapshot
    → ℕ
    → TaskStore
    → JobRecord
    → ResponseReceipt
revision_receipt entry meta accepted next run_id w =
    receipt_of entry accepted (some next.revision.reference) (some (new_run next run_id))
      (stale_ids entry.job_id meta.head (put w.tasks entry.task.task_id (answered_task entry)))

-- A new revision: `rows` is the job's chain, whose lookup raises `KeyError` where there is none.
-- `run_id` and `token` are the `uuid4()` of the new run and of its round.
abbrev pub apply_revision :
    Option (List ChainedRevision)
    → Task
    → JobMeta
    → AcceptedResponse
    → RevisionSnapshot
    → String
    → ℕ
    → ℕ
    → ℕ
    → TaskStore
    → Result ResponseReceipt × TaskStore
apply_revision none entry meta accepted next digest now run_id token w =
    (err key_error, record w { tasks = put w.tasks entry.task.task_id (answered_task entry) })
apply_revision (some rows) entry meta accepted next digest now run_id token w =
    on_jobs (resume_after_human entry.job_id (new_run next run_id) token now w.jobs)
      (applied entry meta rows next w)
      (λ r.
        receipted (accepted.actor.actor_id, accepted.command.idempotency_key) digest
          (revision_receipt entry meta accepted next run_id w r))

-- `_apply`
unfoldable pub apply :
    Task
    → JobMeta
    → AcceptedResponse
    → Option RevisionSnapshot
    → String
    → ℕ
    → ℕ
    → ℕ
    → TaskStore
    → Result ResponseReceipt × TaskStore
unfolding applied restate committed_effect stale_ids
apply entry meta accepted none digest now run_id token w =
    apply_rejection entry accepted digest now w
apply entry meta accepted (some next) digest now run_id token w =
    apply_revision (get w.chain entry.job_id) entry meta accepted next digest now run_id token w

-- `except BaseException`: the four dictionaries are put back; the job store is not this store's.
abbrev pub rolled_back :
    TaskStore → Result ResponseReceipt × TaskStore → Result ResponseReceipt × TaskStore
rolled_back w (ok receipt, w') = (ok receipt, w')
rolled_back w (err e, w') = (
  err e,
  record w' { tasks = w.tasks; job_meta = w.job_meta; chain = w.chain; snapshots = w.snapshots },
)

-- `next_revision.revision.parent != meta.head`
abbrev pub off_chain : JobMeta → Option RevisionSnapshot → Bool
off_chain meta none = false
off_chain meta (some next) = not (next.revision.parent == some meta.head)

-- The task moved before the response committed.
unfoldable pub moved : Task → JobMeta → AcceptedResponse → Bool
moved entry meta accepted =
    not (is_open entry.task.state)
    || not (eqb entry.task.version accepted.command.expected_version)
    || not (entry.task.run.revision == meta.head)
    || not (accepted.actor.actor_id == entry.principal_id)

module _ (accepted : AcceptedResponse) (next : Option RevisionSnapshot) (digest : String)
    (now run_id token : ℕ) where
  abbrev pub fresh_response : Task → JobMeta → TaskStore → Result ResponseReceipt × TaskStore
  fresh_response entry meta w =
      if moved entry meta accepted
      then (err condition_failed, w)
      else if off_chain meta next
      then (err condition_failed, w)
      else rolled_back w (apply entry meta accepted next digest now run_id token w)

  abbrev pub replayed :
      Option StoredReceipt → Task → JobMeta → TaskStore → Result ResponseReceipt × TaskStore
  replayed none entry meta w = fresh_response entry meta w
  replayed (some stored) entry meta w =
      if stored.payload_digest == digest
      then (ok stored.receipt, w)
      else (err (service_fault conflict), w)

  abbrev pub with_meta : Option JobMeta → Task → TaskStore → Result ResponseReceipt × TaskStore
  with_meta none entry w = (err key_error, w)
  with_meta (some meta) entry w =
      replayed (get w.receipts (accepted.actor.actor_id, accepted.command.idempotency_key)) entry
        meta w

  abbrev pub with_entry : Option Task → TaskStore → Result ResponseReceipt × TaskStore
  with_entry none w = (err condition_failed, w)
  with_entry (some entry) w = with_meta (get w.job_meta entry.job_id) entry w

  unfoldable pub commit_response : TaskStore → Result ResponseReceipt × TaskStore
  unfolding moved apply
  commit_response w = with_entry (get w.tasks accepted.command.task_id) w
