-- ===== src/HumanTasks/Outcomes.antt =====
-- What a response of human_task_store.py that is committed has written, on either branch of `_apply`.
use newtaipei_appraisal_revi.Prelude.{
  ℕ, String, ◌≡◌, refl, sym, subst, true, false, Option, none, some, List, [], Bool-cases,
  beq-cases, inl, inr, ◌==◌, nat_eq, string_eq, text_pair_eq,
}
use newtaipei_appraisal_revi.Prelude.Dict.{get, put}
use newtaipei_appraisal_revi.Faults.{Result, ok, err}
use newtaipei_appraisal_revi.JobStore.Model.{JobRecord, Store}
use newtaipei_appraisal_revi.JobStore.Manage.{reject_human_task, resume_after_human}
use newtaipei_appraisal_revi.HumanTasks.{
  ChainedRevision, Task, JobMeta, TaskStore, AcceptedResponse, RevisionSnapshot, ResponseReceipt,
  StoredReceipt, committed_effect,
}
use newtaipei_appraisal_revi.HumanTasks.Commit.{
  receipted, on_jobs, answered_task, apply_revision, apply, applied, receipt_of, new_run,
  revision_receipt, rolled_back, off_chain, moved, replayed, with_meta, with_entry, commit_response,
}
use newtaipei_appraisal_revi.HumanTasks.Atomic.{commit_response-restores}

abbrev pub IfOk :
    (ResponseReceipt → TaskStore → Type 0) → Result ResponseReceipt × TaskStore → Type 0
IfOk P (ok receipt, v) = P receipt v
IfOk P (err e, v) = Unit

module _ (accepted : AcceptedResponse) (digest : String) where
  abbrev pub key_of : String × String
  key_of = (accepted.actor.actor_id, accepted.command.idempotency_key)

  -- The store when the receipt is in it.
  abbrev pub with_receipt : Store → ResponseReceipt → TaskStore → TaskStore
  with_receipt s receipt v = record v {
    jobs = s;
    receipts = put v.receipts key_of (record { payload_digest = digest; receipt = receipt });
  }

  abbrev pub rejected : TaskStore → Task → TaskStore
  rejected w entry = record w { tasks = put w.tasks entry.task.task_id (answered_task entry) }

  -- The response is about a task and a job that are known, under a key that is not used, and it passes
  -- the checks.
  pub record Found (next : Option RevisionSnapshot) (w : TaskStore) (entry : Task) (meta : JobMeta)
      : Type 0 where
    pub located : get w.tasks accepted.command.task_id ≡ some entry
    pub known : get w.job_meta entry.job_id ≡ some meta
    pub unused : get w.receipts key_of ≡ none
    pub still : moved entry meta accepted ≡ false
    pub on : off_chain meta next ≡ false

  module _ (P : ResponseReceipt → TaskStore → Type 0) where
    on_jobs-IfOk :
        (done : Result JobRecord × Store) (v : TaskStore)
        (receipt_for : JobRecord → ResponseReceipt)
        → ((s : Store) (receipt : ResponseReceipt) → P receipt (with_receipt s receipt v))
        → IfOk P (on_jobs done v (λ r. receipted key_of digest (receipt_for r)))
    on_jobs-IfOk (err e, s) v receipt_for h = tt
    on_jobs-IfOk (ok r, s) v receipt_for h = elim (Bool-cases (committed_effect (receipt_for r))) [
      | inl fine ↦ rw fine (h s (receipt_for r))
      | inr bad ↦ rw bad tt
    ]

    rolled_back-IfOk :
        (w : TaskStore) (done : Result ResponseReceipt × TaskStore)
        → IfOk P done
        → IfOk P (rolled_back w done)
    rolled_back-IfOk w (err e, v) h = tt
    rolled_back-IfOk w (ok receipt, v) h = h

    module _ (w : TaskStore) where
      module _ (next : Option RevisionSnapshot) (now run_id token : ℕ)
          (replays : (stored : StoredReceipt)
            → get w.receipts key_of ≡ some stored
            → stored.payload_digest ≡ digest
            → P stored.receipt w)
          (rejects : (entry : Task) (meta : JobMeta)
            → Found next w entry meta
            → (s : Store) (receipt : ResponseReceipt)
            → P receipt (with_receipt s receipt (rejected w entry)))
          (revises : (entry : Task) (meta : JobMeta)
            → Found next w entry meta
            → (rows : List ChainedRevision) → get w.chain entry.job_id ≡ some rows
            → (revision : RevisionSnapshot) → next ≡ some revision
            → (s : Store) (receipt : ResponseReceipt)
            → P receipt (with_receipt s receipt (applied entry meta rows revision w))) where
        revision-IfOk :
            (found : Option (List ChainedRevision)) (revision : RevisionSnapshot) {entry : Task}
            {meta : JobMeta}
            → Found next w entry meta
            → get w.chain entry.job_id ≡ found
            → next ≡ some revision
            → IfOk P (apply_revision found entry meta accepted revision digest now run_id token w)
        revision-IfOk none revision at rows_at step_at = tt
        revision-IfOk (some rows) revision {entry} {meta} at rows_at step_at =
            on_jobs-IfOk
              (resume_after_human entry.job_id (new_run revision run_id) token now w.jobs)
              (applied entry meta rows revision w)
              (revision_receipt entry meta accepted revision run_id w)
              (revises entry meta at rows rows_at revision step_at)

        apply-IfOk :
            (step : Option RevisionSnapshot) {entry : Task} {meta : JobMeta}
            → Found next w entry meta
            → next ≡ step
            → IfOk P (apply entry meta accepted step digest now run_id token w)
        unfolding apply
        apply-IfOk none {entry} {meta} at step_at =
            on_jobs-IfOk
              (reject_human_task entry.job_id entry.task.run.run_id entry.task.task_id now w.jobs)
              (rejected w entry) (receipt_of entry accepted none none []) (rejects entry meta at)
        apply-IfOk (some revision) {entry} at step_at =
            revision-IfOk (get w.chain entry.job_id) revision at refl step_at

        replayed-IfOk :
            (found : Option StoredReceipt) (entry : Task) (meta : JobMeta)
            → get w.receipts key_of ≡ found
            → get w.tasks accepted.command.task_id ≡ some entry
            → get w.job_meta entry.job_id ≡ some meta
            → IfOk P (replayed accepted next digest now run_id token found entry meta w)
        replayed-IfOk none entry meta unused located known =
            elim (Bool-cases (moved entry meta accepted)) [
              | inl gone ↦ rw gone tt
              | inr still ↦ elim (Bool-cases (off_chain meta next)) [
                | inl off ↦ rw (still, off) tt
                | inr on ↦
                    rw (still, on)
                      (rolled_back-IfOk w (apply entry meta accepted next digest now run_id token w)
                        (apply-IfOk next {entry = entry} {meta = meta}
                          (record {
                            located = located;
                            known = known;
                            unused = unused;
                            still = still;
                            on = on;
                          })
                          refl))
              ]
            ]
        replayed-IfOk (some stored) entry meta used located known =
            elim (beq-cases stored.payload_digest digest) [
              | inl same ↦
                  let test : (stored.payload_digest == digest) ≡ true =
                    (string_eq.beq_iff stored.payload_digest digest).1 same in
                  rw test (replays stored used same)
              | inr other ↦ rw other tt
            ]

        with_meta-IfOk :
            (found : Option JobMeta) (entry : Task)
            → get w.job_meta entry.job_id ≡ found
            → get w.tasks accepted.command.task_id ≡ some entry
            → IfOk P (with_meta accepted next digest now run_id token found entry w)
        with_meta-IfOk none entry known located = tt
        with_meta-IfOk (some meta) entry known located =
            replayed-IfOk (get w.receipts key_of) entry meta refl located known

        with_entry-IfOk :
            (found : Option Task)
            → get w.tasks accepted.command.task_id ≡ found
            → IfOk P (with_entry accepted next digest now run_id token found w)
        with_entry-IfOk none located = tt
        with_entry-IfOk (some entry) located =
            with_meta-IfOk (get w.job_meta entry.job_id) entry refl located

        pub commit_response-IfOk : IfOk P (commit_response accepted next digest now run_id token w)
        unfolding commit_response
        commit_response-IfOk = with_entry-IfOk (get w.tasks accepted.command.task_id) refl

-- A property of the state that a response keeps where it is committed, and that does not read the job
-- store, is kept by every response.
pub commit_response-keeps :
    (P : TaskStore → Type 0) (accepted : AcceptedResponse) (next : Option RevisionSnapshot)
    (digest : String) (now run_id token : ℕ) (w : TaskStore)
    → ((s : Store) → P (record w { jobs = s }))
    → IfOk (λ receipt v. P v) (commit_response accepted next digest now run_id token w)
    → P (commit_response accepted next digest now run_id token w).1
commit_response-keeps P accepted next digest now run_id token w kept committed =
    either (commit_response accepted next digest now run_id token w) refl committed
  where
    either :
        (done : Result ResponseReceipt × TaskStore)
        → commit_response accepted next digest now run_id token w ≡ done
        → IfOk (λ receipt v. P v) done
        → P done.1
    either (ok receipt, v) e h = h
    either (err fault, v) e h =
        subst P (sym (commit_response-restores w accepted next digest now run_id token e))
          (kept v.jobs)
