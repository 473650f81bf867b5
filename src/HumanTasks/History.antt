-- ===== src/HumanTasks/History.antt =====
-- What human_task_store.py keeps of the history of a job: its chain of revisions only grows.
use newtaipei_appraisal_revi.Prelude.{
  ℕ, String, ◌≡◌, refl, sym, ap, subst, ◌∙◌, Bool, true, false, is_some, if◌then◌else◌, Option,
  none, some, List, [], ◌∷◌, ◌++◌, nat_eq, string_eq, option_eq, text_pair_eq, beq-cases, inl, inr,
}
use newtaipei_appraisal_revi.Prelude.Dict.{get, put, get-put_self, get-put_ne}
use newtaipei_appraisal_revi.ActionContracts.Snapshot.{revision_eq}
use newtaipei_appraisal_revi.JobStore.Model.{Store}
use newtaipei_appraisal_revi.HumanTasks.{
  ChainedRevision, HumanTask, JobMeta, TaskStore, AcceptedResponse, RevisionSnapshot,
}
use newtaipei_appraisal_revi.HumanTasks.Commit.{applied, off_chain}
use newtaipei_appraisal_revi.HumanTasks.Commit
use newtaipei_appraisal_revi.HumanTasks.Seed.{seed-keeps, seed-ok, other_meta}
use newtaipei_appraisal_revi.HumanTasks.Taken.{is_some-put}
use newtaipei_appraisal_revi.Faults.{ok}
use newtaipei_appraisal_revi.HumanTasks.Seed
use newtaipei_appraisal_revi.HumanTasks.Outcomes.{commit_response-IfOk, commit_response-keeps}
use newtaipei_appraisal_revi.HumanTasks.Runs.{
  Operation, elsewhere, perform, run, empty_tasks, run-keeps,
}
use newtaipei_appraisal_revi.HumanTasks.Chain.{IsLinked, known-IsLinked, empty-IsLinked}

-- The job is known, and its chain starts with these revisions.
pub record StartsWith (job_id : ℕ) (rows : List ChainedRevision) (w : TaskStore) : Type 0 where
  pub known : is_some (get w.job_meta job_id) ≡ true
  pub more : List ChainedRevision
  pub stored : get w.chain job_id ≡ some (rows ++ more)

append_assoc : (xs ys zs : List ChainedRevision) → (xs ++ ys) ++ zs ≡ xs ++ (ys ++ zs)
append_assoc [] ys zs = refl
append_assoc (x ∷ xs) ys zs = ap (λ l. x ∷ l) (append_assoc xs ys zs)

append_none : (xs : List ChainedRevision) → xs ++ [] ≡ xs
append_none [] = refl
append_none (x ∷ xs) = ap (λ l. x ∷ l) (append_none xs)

module _ (i : ℕ) (first : List ChainedRevision) where
  -- One more revision at the end of some chain.
  put-StartsWith :
      (w : TaskStore) (job_id : ℕ) (new : JobMeta) (rows : List ChainedRevision)
      (last : ChainedRevision)
      → get w.chain job_id ≡ some rows
      → (h : StartsWith i first w)
      → (more : List ChainedRevision) × (get (put w.chain job_id (rows ++ last ∷ [])) i
          ≡ some (first ++ more))
  put-StartsWith w job_id new rows last at h = elim (beq-cases job_id i) [
    | inl e ↦
        let old = h.stored in
        let same : rows ≡ first ++ h.more = cc (at, e, old) in
        (
          h.more ++ last ∷ [],
          subst (λ j. get (put w.chain job_id (rows ++ last ∷ [])) j ≡ some (rows ++ last ∷ [])) e
                (get-put_self w.chain job_id (rows ++ last ∷ []))
              ∙ ap (λ l. some (l ++ last ∷ [])) same
              ∙ ap some (append_assoc first h.more (last ∷ [])),
        )
    | inr n ↦ (h.more, get-put_ne w.chain job_id i _ n ∙ h.stored)
  ]

  commit_response-StartsWith :
      (accepted : AcceptedResponse) (next : Option RevisionSnapshot) (digest : String)
      (now run_id token : ℕ) (w : TaskStore)
      → StartsWith i first w
      → StartsWith i first (Commit.commit_response accepted next digest now run_id token w).1
  unfolding applied
  commit_response-StartsWith accepted next digest now run_id token w h =
      commit_response-keeps (StartsWith i first) accepted next digest now run_id token w
        (λ s. record { known = h.known; more = h.more; stored = h.stored })
        (commit_response-IfOk accepted digest (λ receipt v. StartsWith i first v) w next now run_id
          token (λ old used same. h)
          (λ entry meta found s receipt. record {
            known = h.known;
            more = h.more;
            stored = h.stored;
          })
          (λ entry meta found rows rows_at revision step_at s receipt.
            let new : JobMeta = record meta { head = revision.revision.reference } in
            let (more, stored) =
              put-StartsWith w entry.job_id new rows revision.revision rows_at h in
            record {
              known = is_some-put w.job_meta entry.job_id i new h.known;
              more = more;
              stored = stored;
            }))

  seed-StartsWith :
      (job_id : ℕ) (principal_id : String) (snapshot : RevisionSnapshot) (tasks : List HumanTask)
      (w : TaskStore)
      → StartsWith i first w
      → StartsWith i first (Seed.seed job_id principal_id snapshot tasks w).1
  seed-StartsWith job_id principal_id snapshot tasks w h =
      seed-keeps (StartsWith i first) job_id principal_id snapshot tasks w h (λ same. record {
        known = is_some-put w.job_meta job_id i _ h.known;
        more = h.more;
        stored = kept (is_some (get w.job_meta job_id)) refl;
      })
    where
      kept :
          (b : Bool)
          → is_some (get w.job_meta job_id) ≡ b
          → get (if b then w.chain else put w.chain job_id (snapshot.revision ∷ [])) i
            ≡ some (first ++ h.more)
      kept true e = h.stored
      kept false e = elim (beq-cases job_id i) [
        | inl same ↦ absurd (let known = h.known in cc (same, e, known))
        | inr n ↦ get-put_ne w.chain job_id i _ n ∙ h.stored
      ]

  run-StartsWith :
      (operations : List Operation) (w : TaskStore)
      → StartsWith i first w
      → StartsWith i first (run operations w)
  run-StartsWith = run-keeps (StartsWith i first) keeps
    where
      keeps :
          (operation : Operation) (w : TaskStore)
          → StartsWith i first w
          → StartsWith i first (perform operation w)
      keeps (Operation.seed job_id principal_id snapshot tasks) w h =
          seed-StartsWith job_id principal_id snapshot tasks w h
      keeps (Operation.commit_response accepted next digest now run_id token) w h =
          commit_response-StartsWith accepted next digest now run_id token w h
      keeps (elsewhere jobs) w h = record { known = h.known; more = h.more; stored = h.stored }

-- The first registration of a job that returns starts its history: after any further operations,
-- responses that raise included, the chain of the job starts with the registered revision.
pub seed-starts :
    (job_id : ℕ) (principal_id : String) (snapshot : RevisionSnapshot) (tasks : List HumanTask)
    (w w' : TaskStore) (after : List Operation)
    → get w.job_meta job_id ≡ none
    → Seed.seed job_id principal_id snapshot tasks w ≡ (ok tt, w')
    → (more : List ChainedRevision) × (get (run after w').chain job_id
        ≡ some (snapshot.revision ∷ more))
seed-starts job_id principal_id snapshot tasks w w' after unknown returned =
    let h = run-StartsWith job_id (snapshot.revision ∷ []) after w' (
      subst (StartsWith job_id (snapshot.revision ∷ []))
        (sym (seed-ok job_id principal_id snapshot tasks w returned))
        (record { known = registered_known; more = []; stored = stored })) in
    (h.more, h.stored)
  where
    registered_known :
        is_some (get (Seed.seeded job_id principal_id snapshot tasks w).job_meta job_id) ≡ true
    registered_known = ap is_some (get-put_self w.job_meta job_id _)

    stored :
        get (Seed.seeded job_id principal_id snapshot tasks w).chain job_id
        ≡ some (snapshot.revision ∷ [])
    stored = rw unknown (get-put_self w.chain job_id (snapshot.revision ∷ []))

-- Whatever operations are run from an empty store, responses that raise included, every job that is
-- known has one chain of revisions: each revision after the first names the one before it as its
-- parent, and the last is the head. And nothing is lost from it: whatever operations follow, the
-- chain that the job has then starts with all of the chain that it had.
pub run-IsLinked :
    (before after : List Operation) (jobs : Store)
    → IsLinked (run before (empty_tasks jobs))
      × IsLinked (run after (run before (empty_tasks jobs)))
      × ((job_id : ℕ) (meta : JobMeta) (rows : List ChainedRevision)
          → get (run before (empty_tasks jobs)).job_meta job_id ≡ some meta
          → get (run before (empty_tasks jobs)).chain job_id ≡ some rows
          → (more : List ChainedRevision) × (get
                (run after (run before (empty_tasks jobs))).chain
                job_id
              ≡ some (rows ++ more)))
run-IsLinked before after jobs = (
  empty-IsLinked before jobs,
  known-IsLinked after (run before (empty_tasks jobs)) (empty-IsLinked before jobs),
  λ job_id meta rows known stored.
      let h = run-StartsWith job_id rows after (run before (empty_tasks jobs)) (record {
        known = ap is_some known;
        more = [];
        stored = stored ∙ ap some (sym (append_none rows));
      }) in
      (h.more, h.stored),
)
