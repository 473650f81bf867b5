-- ===== src/HumanTasks/Chain.antt =====
-- The history of revisions that human_task_store.py keeps for a job: one chain, from the revision that
-- was registered to the head.
use newtaipei_appraisal_revi.Prelude.{
  ℕ, String, ◌≡◌, refl, sym, subst, ◌∙◌, false, not, Option, none, some, List, [], ◌∷◌, ◌++◌, ◌==◌,
  nat_eq, string_eq, option_eq, text_pair_eq, beq-cases, inl, inr,
}
use newtaipei_appraisal_revi.Prelude.Dict.{Dict, get, put, get-put_self, get-put_ne}
use newtaipei_appraisal_revi.JobContracts.{RevisionReference}
use newtaipei_appraisal_revi.ActionContracts.Snapshot.{revision_eq}
use newtaipei_appraisal_revi.JobStore.Model.{Store}
use newtaipei_appraisal_revi.HumanTasks.{
  ChainedRevision, HumanTask, Task, JobMeta, TaskStore, AcceptedResponse, RevisionSnapshot,
}
use newtaipei_appraisal_revi.HumanTasks.Commit.{applied, off_chain}
use newtaipei_appraisal_revi.HumanTasks.Commit
use newtaipei_appraisal_revi.HumanTasks.Seed.{seed-keeps, seed-ok, other_meta}
use newtaipei_appraisal_revi.HumanTasks.Seed
use newtaipei_appraisal_revi.HumanTasks.Outcomes.{
  Found, commit_response-IfOk, commit_response-keeps,
}
use newtaipei_appraisal_revi.HumanTasks.Runs.{
  Operation, elsewhere, perform, run, empty_tasks, run-keeps,
}

-- Each revision after the first names the one before it as its parent; the last is the head.
pub data IsChain : List ChainedRevision → RevisionReference → Type 0 where
  registered_first : (first : ChainedRevision) → IsChain (first ∷ []) first.reference
  committed_after :
      (rows : List ChainedRevision) (head : RevisionReference) (next : ChainedRevision)
      → IsChain rows head
      → next.parent ≡ some head
      → IsChain (rows ++ next ∷ []) next.reference

-- The chain of the job ends in this head.
pub record ChainOf (chains : Dict ℕ (List ChainedRevision)) (job_id : ℕ) (head : RevisionReference)
    : Type 0 where
  pub rows : List ChainedRevision
  pub stored : get chains job_id ≡ some rows
  pub chained : IsChain rows head

-- Every job that is known has its chain, and the chain ends in the job's head.
abbrev pub IsLinked : TaskStore → Type 0
IsLinked w =
    (job_id : ℕ) (meta : JobMeta)
    → get w.job_meta job_id ≡ some meta
    → ChainOf w.chain job_id meta.head

-- One job is written with its chain.
put-IsLinked :
    (w : TaskStore) (job_id : ℕ) (new : JobMeta) (chains : Dict ℕ (List ChainedRevision))
    → ((i : ℕ) → (job_id == i) ≡ false → get chains i ≡ get w.chain i)
    → ChainOf chains job_id new.head
    → IsLinked w
    → (i : ℕ) (meta : JobMeta) → get (put w.job_meta job_id new) i ≡ some meta
    → ChainOf chains i meta.head
put-IsLinked w job_id new chains others own linked i meta h = elim (beq-cases job_id i) [
  | inl e ↦
      let same : new ≡ meta = cc (
        subst (λ j. get (put w.job_meta job_id new) j ≡ some new) e
            (get-put_self w.job_meta job_id new),
        h,
      ) in
      subst (λ (m : JobMeta). ChainOf chains i m.head) same
        (subst (λ j. ChainOf chains j new.head) e own)
  | inr n ↦
      let old = linked i meta (sym (get-put_ne w.job_meta job_id i new n) ∙ h) in
      record { rows = old.rows; stored = others i n ∙ old.stored; chained = old.chained }
]

commit_response-IsLinked :
    (accepted : AcceptedResponse) (next : Option RevisionSnapshot) (digest : String)
    (now run_id token : ℕ) (w : TaskStore)
    → IsLinked w
    → IsLinked (Commit.commit_response accepted next digest now run_id token w).1
unfolding applied
commit_response-IsLinked accepted next digest now run_id token w linked =
    commit_response-keeps IsLinked accepted next digest now run_id token w (λ s. linked)
      (commit_response-IfOk accepted digest (λ receipt v. IsLinked v) w next now run_id token
        (λ old used same. linked) (λ entry meta found s receipt. linked)
        (λ entry meta found rows rows_at revision step_at s receipt.
          put-IsLinked w entry.job_id (record meta { head = revision.revision.reference })
            (put w.chain entry.job_id (rows ++ revision.revision ∷ []))
            (λ i n. get-put_ne w.chain entry.job_id i _ n)
            (record {
              rows = rows ++ revision.revision ∷ [];
              stored = get-put_self w.chain entry.job_id _;
              chained =
                  committed_after rows meta.head revision.revision
                    (extended entry meta found rows rows_at)
                    (follows meta revision step_at found.on);
            })
            linked))
  where
    extended :
        (entry : Task) (meta : JobMeta)
        → Found accepted digest next w entry meta
        → (rows : List ChainedRevision) → get w.chain entry.job_id ≡ some rows
        → IsChain rows meta.head
    extended entry meta found rows rows_at =
        let old = linked entry.job_id meta found.known in
        let at = old.stored in subst (λ r. IsChain r meta.head) (cc (at, rows_at)) old.chained

    follows :
        (meta : JobMeta) (revision : RevisionSnapshot)
        → next ≡ some revision
        → off_chain meta next ≡ false
        → revision.revision.parent ≡ some meta.head
    follows meta revision step_at on =
        let own : not (revision.revision.parent == some meta.head) ≡ false = rw step_at at on in
        elim (beq-cases revision.revision.parent (some meta.head)) [
          | inl e ↦ e
          | inr n ↦ absurd (cc (rw n at own))
        ]

seed-IsLinked :
    (job_id : ℕ) (principal_id : String) (snapshot : RevisionSnapshot) (tasks : List HumanTask)
    (w : TaskStore)
    → IsLinked w
    → IsLinked (Seed.seed job_id principal_id snapshot tasks w).1
seed-IsLinked job_id principal_id snapshot tasks w linked =
    seed-keeps IsLinked job_id principal_id snapshot tasks w linked
      (λ same. seeded-IsLinked (get w.job_meta job_id) refl same)
  where
    head_of :
        (meta : JobMeta)
        → other_meta (some meta) principal_id snapshot.revision.reference ≡ false
        → meta.head ≡ snapshot.revision.reference
    head_of meta h = elim (beq-cases meta.head snapshot.revision.reference) [
      | inl e ↦ e
      | inr n ↦ absurd (cc (rw n at h))
    ]

    seeded-IsLinked :
        (found : Option JobMeta)
        → get w.job_meta job_id ≡ found
        → other_meta (get w.job_meta job_id) principal_id snapshot.revision.reference ≡ false
        → IsLinked (Seed.seeded job_id principal_id snapshot tasks w)
    seeded-IsLinked none at same = rw at (
        put-IsLinked w job_id _ _ (λ i n. get-put_ne w.chain job_id i _ n)
          (record {
            rows = snapshot.revision ∷ [];
            stored = get-put_self w.chain job_id _;
            chained = registered_first snapshot.revision;
          })
          linked)
    seeded-IsLinked (some meta) at same =
        let shut = rw at at same in
        let head : meta.head ≡ snapshot.revision.reference = head_of meta shut in
        rw at (
          put-IsLinked w job_id _ w.chain (λ i n. refl)
            (subst (ChainOf w.chain job_id) head (linked job_id meta at)) linked)

pub known-IsLinked :
    (operations : List Operation) (w : TaskStore) → IsLinked w → IsLinked (run operations w)
known-IsLinked = run-keeps IsLinked keeps
  where
    keeps : (operation : Operation) (w : TaskStore) → IsLinked w → IsLinked (perform operation w)
    keeps (Operation.seed job_id principal_id snapshot tasks) w h =
        seed-IsLinked job_id principal_id snapshot tasks w h
    keeps (Operation.commit_response accepted next digest now run_id token) w h =
        commit_response-IsLinked accepted next digest now run_id token w h
    keeps (elsewhere jobs) w h = h

pub empty-IsLinked :
    (operations : List Operation) (jobs : Store) → IsLinked (run operations (empty_tasks jobs))
unfolding get
empty-IsLinked operations jobs =
    known-IsLinked operations (empty_tasks jobs) (λ i meta h. absurd (cc h))
