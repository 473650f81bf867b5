-- ===== src/HumanTasks/Reads.antt =====
-- The reads of human_task_store.py, each one step under the lock.
use newtaipei_appraisal_revi.Prelude.{
  ℕ, String, ◌≡◌, refl, sym, ap, ◌∙◌, Option, none, some, if◌then◌else◌, ◌==◌, nat_eq, text_pair_eq,
  Bool-cases, inl, inr, List, [], ◌∷◌, eqb, string_eq,
}
use newtaipei_appraisal_revi.Prelude.Dict.{get, values}
use newtaipei_appraisal_revi.Faults.{Result, ok, err, ◌>>=◌, key_error}
use newtaipei_appraisal_revi.JobContracts.{RevisionReference}
use newtaipei_appraisal_revi.ActionContracts.Snapshot.{revision_eq}
use newtaipei_appraisal_revi.HumanTasks.{
  ChainedRevision, HumanTask, Task, JobMeta, TaskStore, RevisionSnapshot, StoredReceipt,
}
use newtaipei_appraisal_revi.HumanTasks.Seed.{IsKeyed}

pub record TaskRecord : Type 0 where
  pub task : HumanTask
  pub job_id : ℕ
  pub case_id : String
  pub principal_id : String
  pub current_revision : RevisionReference

abbrev pub recorded : Task → Option JobMeta → Result TaskRecord
recorded entry none = err key_error
recorded entry (some meta) = ok (record {
  task = entry.task;
  job_id = entry.job_id;
  case_id = entry.case_id;
  principal_id = entry.principal_id;
  current_revision = meta.head;
})

-- `_record`
unfoldable pub task_record : TaskStore → Task → Result TaskRecord
task_record w entry = recorded entry (get w.job_meta entry.job_id)

abbrev pub read_entry : TaskStore → Option Task → Result (Option TaskRecord)
read_entry w none = ok none
read_entry w (some entry) = do r ← task_record w entry; ok (some r)

unfoldable pub read_task : ℕ → TaskStore → Result (Option TaskRecord)
unfolding task_record
read_task task_id w = read_entry w (get w.tasks task_id)

-- A task that is read is the one that was asked for.
abbrev IfRead : ℕ → Result (Option TaskRecord) → Type 0
IfRead k (ok (some r)) = r.task.task_id ≡ k
IfRead k _ = Unit

read_task-IfRead :
    (task_id : ℕ) (w : TaskStore) → IsKeyed w.tasks → IfRead task_id (read_task task_id w)
unfolding read_task task_record
read_task-IfRead task_id w keyed = found (get w.tasks task_id) refl
  where
    known :
        (entry : Task) (meta : Option JobMeta)
        → entry.task.task_id ≡ task_id
        → IfRead task_id (recorded entry meta >>= λ r. ok (some r))
    known entry none own = tt
    known entry (some meta) own = own

    found : (o : Option Task) → get w.tasks task_id ≡ o → IfRead task_id (read_entry w o)
    found none h = tt
    found (some entry) h = known entry (get w.job_meta entry.job_id) (keyed task_id entry h)

abbrev matching : RevisionReference → Option RevisionSnapshot → Option RevisionSnapshot
matching revision none = none
matching revision (some snapshot) =
    if snapshot.revision.reference == revision then some snapshot else none

unfoldable pub read_snapshot : RevisionReference → TaskStore → Option RevisionSnapshot
read_snapshot revision w =
    matching revision (get w.snapshots (revision.case_id, revision.revision_id))

-- A snapshot that is read is that of the very revision.
matching-reference :
    (revision : RevisionReference) (found : Option RevisionSnapshot) {snapshot : RevisionSnapshot}
    → matching revision found ≡ some snapshot
    → snapshot.revision.reference ≡ revision
matching-reference revision none h = absurd (cc h)
matching-reference revision (some x) {snapshot} h =
    elim (Bool-cases (x.revision.reference == revision)) [
      | inl e ↦
          let same : x ≡ snapshot = cc (rw e at h) in
          ap (λ (y : RevisionSnapshot). y.revision.reference) (sym same)
          ∙ (revision_eq.beq_iff x.revision.reference revision).0 e
      | inr e ↦ absurd (cc (rw e at h))
    ]

read_snapshot-reference :
    (revision : RevisionReference) (w : TaskStore) {snapshot : RevisionSnapshot}
    → read_snapshot revision w ≡ some snapshot
    → snapshot.revision.reference ≡ revision
unfolding read_snapshot
read_snapshot-reference revision w h =
    matching-reference revision (get w.snapshots (revision.case_id, revision.revision_id)) h

-- `self._record(entry) for entry in entries`
unfoldable records_of : ℕ → TaskStore → List Task → Result (List TaskRecord)
unfolding task_record
records_of job_id w [] = ok []
records_of job_id w (entry ∷ entries) =
    let rest = records_of job_id w entries in
    if eqb entry.job_id job_id then (do r ← task_record w entry; rs ← rest; ok (r ∷ rs)) else rest

-- The dictionary keeps the tasks in the order of `seq`.
unfoldable list_tasks : ℕ → TaskStore → Result (List TaskRecord)
unfolding records_of
list_tasks job_id w = records_of job_id w (values w.tasks)

abbrev rows_found : Option (List ChainedRevision) → List ChainedRevision
rows_found none = []
rows_found (some rows) = rows

unfoldable list_revisions : ℕ → TaskStore → List ChainedRevision
list_revisions job_id w = rows_found (get w.chain job_id)

unfoldable pub read_receipt : String → String → TaskStore → Option StoredReceipt
read_receipt principal_id key w = get w.receipts (principal_id, key)
