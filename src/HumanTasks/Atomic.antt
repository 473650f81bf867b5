-- ===== src/HumanTasks/Atomic.antt =====
-- A response that human_task_store.py refuses leaves none of its writes.
use newtaipei_appraisal_revi.Prelude.{
  ℕ, String, ◌≡◌, refl, ap, subst, Bool, true, false, Option, none, some, List, [], Bool-cases, inl,
  inr, if◌then◌else◌, ◌==◌, nat_eq, string_eq, text_pair_eq,
}
use newtaipei_appraisal_revi.Prelude.Dict.{get}
use newtaipei_appraisal_revi.Faults.{Result, Fault, ok, err}
use newtaipei_appraisal_revi.JobStore.Model.{JobRecord, Store}
use newtaipei_appraisal_revi.JobStore.Manage.{reject_human_task, resume_after_human}
use newtaipei_appraisal_revi.HumanTasks.{
  ChainedRevision, Task, JobMeta, TaskStore, AcceptedResponse, RevisionSnapshot, ResponseReceipt,
  StoredReceipt, committed_effect,
}
use newtaipei_appraisal_revi.HumanTasks.Commit.{
  receipted, on_jobs, apply_revision, apply, applied, receipt_of, new_run, revision_receipt,
  rolled_back, off_chain, moved, fresh_response, replayed, with_meta, with_entry, commit_response,
}

module _ (w : TaskStore) where
  -- Where an attempt to apply raises, the receipts are as before.
  abbrev IfUnreceipted : Result ResponseReceipt × TaskStore → Type 0
  IfUnreceipted (ok receipt, v) = Unit
  IfUnreceipted (err e, v) = v.receipts ≡ w.receipts

  receipted-IfUnreceipted :
      (key : String × String) (digest : String) (receipt : ResponseReceipt) (v : TaskStore)
      → v.receipts ≡ w.receipts
      → IfUnreceipted (receipted key digest receipt v)
  receipted-IfUnreceipted key digest receipt v same = elim (Bool-cases (committed_effect receipt)) [
    | inl fine ↦ rw fine tt
    | inr bad ↦ rw bad same
  ]

  on_jobs-IfUnreceipted :
      (done : Result JobRecord × Store) (v : TaskStore) (key : String × String) (digest : String)
      (receipt_for : JobRecord → ResponseReceipt)
      → v.receipts ≡ w.receipts
      → IfUnreceipted (on_jobs done v (λ r. receipted key digest (receipt_for r)))
  on_jobs-IfUnreceipted (err e, s) v key digest receipt_for same = same
  on_jobs-IfUnreceipted (ok r, s) v key digest receipt_for same =
      receipted-IfUnreceipted key digest (receipt_for r) (record v { jobs = s }) same

  apply_revision-IfUnreceipted :
      (rows : Option (List ChainedRevision)) (entry : Task) (meta : JobMeta)
      (accepted : AcceptedResponse) (next : RevisionSnapshot) (digest : String)
      (now run_id token : ℕ)
      → IfUnreceipted (apply_revision rows entry meta accepted next digest now run_id token w)
  unfolding applied
  apply_revision-IfUnreceipted none entry meta accepted next digest now run_id token = refl
  apply_revision-IfUnreceipted (some rows) entry meta accepted next digest now run_id token =
      on_jobs-IfUnreceipted (resume_after_human entry.job_id (new_run next run_id) token now w.jobs)
        (applied entry meta rows next w) (accepted.actor.actor_id, accepted.command.idempotency_key)
        digest (revision_receipt entry meta accepted next run_id w) refl

  apply-IfUnreceipted :
      (entry : Task) (meta : JobMeta) (accepted : AcceptedResponse) (next : Option RevisionSnapshot)
      (digest : String) (now run_id token : ℕ)
      → IfUnreceipted (apply entry meta accepted next digest now run_id token w)
  unfolding apply
  apply-IfUnreceipted entry meta accepted none digest now run_id token =
      on_jobs-IfUnreceipted
        (reject_human_task entry.job_id entry.task.run.run_id entry.task.task_id now w.jobs) _
        (accepted.actor.actor_id, accepted.command.idempotency_key) digest
        (receipt_of entry accepted none none []) refl
  apply-IfUnreceipted entry meta accepted (some next) digest now run_id token =
      apply_revision-IfUnreceipted (get w.chain entry.job_id) entry meta accepted next digest now
        run_id token

  -- What a refused response leaves: the state as it was, the job store apart.
  abbrev IfRestored : Result ResponseReceipt × TaskStore → Type 0
  IfRestored (ok receipt, v) = Unit
  IfRestored (err e, v) = v ≡ record w { jobs = v.jobs }

  rolled_back-IfRestored :
      (done : Result ResponseReceipt × TaskStore)
      → IfUnreceipted done
      → IfRestored (rolled_back w done)
  rolled_back-IfRestored (ok receipt, v) h = tt
  rolled_back-IfRestored (err e, v) h =
      ap (λ receipts. record w { jobs = v.jobs; receipts = receipts }) h

  if-IfRestored :
      (test : Bool) (x y : Result ResponseReceipt × TaskStore)
      → IfRestored x
      → IfRestored y
      → IfRestored (if test then x else y)
  if-IfRestored true x y hx hy = hx
  if-IfRestored false x y hx hy = hy

  module _ (accepted : AcceptedResponse) (next : Option RevisionSnapshot) (digest : String)
      (now run_id token : ℕ) where
    fresh_response-IfRestored :
        (entry : Task) (meta : JobMeta)
        → IfRestored (fresh_response accepted next digest now run_id token entry meta w)
    fresh_response-IfRestored entry meta = if-IfRestored (moved entry meta accepted) _ _ refl (
        if-IfRestored (off_chain meta next) _ _ refl (
          rolled_back-IfRestored (apply entry meta accepted next digest now run_id token w)
            (apply-IfUnreceipted entry meta accepted next digest now run_id token)))

    replayed-IfRestored :
        (found : Option StoredReceipt) (entry : Task) (meta : JobMeta)
        → IfRestored (replayed accepted next digest now run_id token found entry meta w)
    replayed-IfRestored none entry meta = fresh_response-IfRestored entry meta
    replayed-IfRestored (some stored) entry meta =
        if-IfRestored (stored.payload_digest == digest) _ _ tt refl

    with_meta-IfRestored :
        (found : Option JobMeta) (entry : Task)
        → IfRestored (with_meta accepted next digest now run_id token found entry w)
    with_meta-IfRestored none entry = refl
    with_meta-IfRestored (some meta) entry = replayed-IfRestored _ entry meta

    with_entry-IfRestored :
        (found : Option Task)
        → IfRestored (with_entry accepted next digest now run_id token found w)
    with_entry-IfRestored none = refl
    with_entry-IfRestored (some entry) = with_meta-IfRestored (get w.job_meta entry.job_id) entry

    -- A response that raises leaves the store of human tasks as it was, with no task moved, no
    -- revision, no receipt and no key consumed, whatever the job store answered.
    pub commit_response-restores :
        {e : Fault} {w' : TaskStore}
        → commit_response accepted next digest now run_id token w ≡ (err e, w')
        → w' ≡ record w { jobs = w'.jobs }
    unfolding commit_response
    commit_response-restores h =
        subst IfRestored h (with_entry-IfRestored (get w.tasks accepted.command.task_id))
