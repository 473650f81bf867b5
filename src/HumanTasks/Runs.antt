-- ===== src/HumanTasks/Runs.antt =====
-- Any sequence of the writes of `LocalHumanTaskStore` (human_task_store.py), with what the rest of the
-- program does to the job store in between.
use newtaipei_appraisal_revi.Prelude.{
  ℕ, String, ◌≡◌, refl, sym, is_some, subst, true, Option, none, some, List, [], ◌∷◌, if◌then◌else◌,
  ◌==◌, nat_eq, string_eq, text_pair_eq,
}
use newtaipei_appraisal_revi.Prelude.Dict.{get}
use newtaipei_appraisal_revi.Faults.{Result, ok, err, condition_failed, service_fault, conflict}
use newtaipei_appraisal_revi.JobStore.Model.{Store}
use newtaipei_appraisal_revi.HumanTasks.{
  HumanTask, JobMeta, TaskStore, AcceptedResponse, RevisionSnapshot, ResponseReceipt, StoredReceipt,
}
use newtaipei_appraisal_revi.HumanTasks.Commit.{moved, with_entry, with_meta, replayed}
use newtaipei_appraisal_revi.HumanTasks.Commit
use newtaipei_appraisal_revi.HumanTasks.Seed.{IsKeyed, seed-IsKeyed}
use newtaipei_appraisal_revi.HumanTasks.Seed
use newtaipei_appraisal_revi.HumanTasks.Outcomes.{IfOk, key_of}
use newtaipei_appraisal_revi.HumanTasks.Consumed.{
  Consumed, commit_response-IsKeyed, commit_response-Consumed, commit_response-consumes,
  seed-Consumed,
}

-- `elsewhere` is whatever the rest of the program leaves of the job store.
pub data Operation : Type 0 where
  seed : ℕ → String → RevisionSnapshot → List HumanTask → Operation
  commit_response : AcceptedResponse → Option RevisionSnapshot → String → ℕ → ℕ → ℕ → Operation
  elsewhere : Store → Operation

abbrev pub perform : Operation → TaskStore → TaskStore
perform (Operation.seed job_id principal_id snapshot tasks) w =
    (Seed.seed job_id principal_id snapshot tasks w).1
perform (Operation.commit_response accepted next digest now run_id token) w =
    (Commit.commit_response accepted next digest now run_id token w).1
perform (elsewhere jobs) w = record w { jobs = jobs }

abbrev pub run : List Operation → TaskStore → TaskStore
run [] w = w
run (operation ∷ operations) w = run operations (perform operation w)

-- `LocalHumanTaskStore(jobs)`
abbrev pub empty_tasks : Store → TaskStore
empty_tasks jobs = record {
  jobs = jobs;
  tasks = [];
  job_meta = [];
  chain = [];
  snapshots = [];
  receipts = [];
}

-- What every operation keeps is kept by a run.
pub run-keeps :
    (P : TaskStore → Type 0)
    → ((operation : Operation) (w : TaskStore) → P w → P (perform operation w))
    → (operations : List Operation) (w : TaskStore) → P w
    → P (run operations w)
run-keeps P keeps [] w h = h
run-keeps P keeps (operation ∷ operations) w h =
    run-keeps P keeps operations (perform operation w) (keeps operation w h)

run-IsKeyed :
    (operations : List Operation) (jobs : Store) → IsKeyed (run operations (empty_tasks jobs)).tasks
unfolding get
run-IsKeyed operations jobs =
    run-keeps (λ w. IsKeyed w.tasks) keeps operations (empty_tasks jobs) (λ k t h. absurd (cc h))
  where
    keeps :
        (operation : Operation) (w : TaskStore)
        → IsKeyed w.tasks
        → IsKeyed (perform operation w).tasks
    keeps (Operation.seed job_id principal_id snapshot tasks) w h =
        seed-IsKeyed job_id principal_id snapshot tasks w h
    keeps (Operation.commit_response accepted next digest now run_id token) w h =
        commit_response-IsKeyed accepted next digest now run_id token w h
    keeps (elsewhere jobs) w h = h

run-Consumed :
    (k : ℕ) (key : String × String) (stored : StoredReceipt) (operations : List Operation)
    (w : TaskStore)
    → Consumed k key stored w
    → Consumed k key stored (run operations w)
run-Consumed k key stored = run-keeps (Consumed k key stored) keeps
  where
    keeps :
        (operation : Operation) (w : TaskStore)
        → Consumed k key stored w
        → Consumed k key stored (perform operation w)
    keeps (Operation.seed job_id principal_id snapshot tasks) w h =
        seed-Consumed job_id principal_id snapshot tasks w k key stored h
    keeps (Operation.commit_response accepted next digest now run_id token) w h =
        commit_response-Consumed accepted next digest now run_id token w k key stored h
    keeps (elsewhere jobs) w h = record { taken = h.taken; used = h.used }

module _ (later : AcceptedResponse) (next : Option RevisionSnapshot) (digest : String)
    (now run_id token : ℕ) (key : String × String) (stored : StoredReceipt) (w : TaskStore)
    (consumed : Consumed later.command.task_id key stored w) where
  -- A response to a task that is taken is decided by its key, whatever else it holds.
  Consumed-reaches :
      (meta : JobMeta) (P : Result ResponseReceipt × TaskStore → Type 0)
      → get w.job_meta consumed.taken.task.job_id ≡ some meta
      → P (
          replayed later next digest now run_id token
            (get w.receipts (key_of later digest))
            consumed.taken.task
            meta
            w)
      → P (Commit.commit_response later next digest now run_id token w)
  unfolding Commit.commit_response
  Consumed-reaches meta P known h = let at = consumed.taken.stored in rw (at, known) h

  located : (found : Option JobMeta) → is_some found ≡ true → (meta : JobMeta) × (found ≡ some meta)
  located none h = absurd (cc h)
  located (some meta) h = (meta, refl)

  Consumed-taken :
      get w.receipts (key_of later digest) ≡ none
      → Commit.commit_response later next digest now run_id token w ≡ (err condition_failed, w)
  unfolding moved
  Consumed-taken unused =
      let found = located (get w.job_meta consumed.taken.task.job_id) consumed.taken.known in
      let shut = consumed.taken.closed in
      Consumed-reaches found.0 (λ done. done ≡ (err condition_failed, w)) found.1
        (rw (unused, shut) refl)

  Consumed-replays :
      key_of later digest ≡ key
      → Commit.commit_response later next digest now run_id token w ≡ (
          if stored.payload_digest == digest
          then (ok stored.receipt, w)
          else (err (service_fault conflict), w))
  Consumed-replays own =
      let found = located (get w.job_meta consumed.taken.task.job_id) consumed.taken.known in
      let used = subst (λ k. get w.receipts k ≡ some stored) (sym own) consumed.used in
      Consumed-reaches found.0
        (λ done. done ≡ (
          if stored.payload_digest == digest
          then (ok stored.receipt, w)
          else (err (service_fault conflict), w)))
        found.1 (rw used refl)

module _ (jobs : Store) (before : List Operation) (accepted : AcceptedResponse)
    (next : Option RevisionSnapshot) (digest : String) (now run_id token : ℕ)
    {receipt : ResponseReceipt} {w : TaskStore}
    (unused : get
        (run before (empty_tasks jobs)).receipts
        (accepted.actor.actor_id, accepted.command.idempotency_key)
      ≡ none)
    (committed : Commit.commit_response accepted next digest now run_id token
        (run before (empty_tasks jobs))
      ≡ (ok receipt, w))
    (after : List Operation) (later : AcceptedResponse) (later_digest : String)
    (same : later.command.task_id ≡ accepted.command.task_id) (later_next : Option RevisionSnapshot)
    (later_now later_run_id later_token : ℕ) where
  consumed :
      Consumed later.command.task_id
        (key_of accepted digest)
        (record { payload_digest = digest; receipt = receipt })
        (run after w)
  consumed =
      let at =
        subst
          (IfOk (λ r v.
            Consumed accepted.command.task_id (key_of accepted digest)
              (record { payload_digest = digest; receipt = r }) v))
          committed
          (commit_response-consumes accepted next digest now run_id token
            (run before (empty_tasks jobs)) (run-IsKeyed before jobs) unused) in
      run-Consumed _ _ _ after w (
        subst
          (λ k.
            Consumed k (key_of accepted digest)
              (record { payload_digest = digest; receipt = receipt }) w)
          (sym same) at)

  -- In a store that any operations have led to from an empty one, where a response under an unused key is
  -- committed, and after any further operations: a response of the same actor with the same key to the
  -- same task changes nothing, and it is answered with the same receipt if its payload is the same and
  -- with a conflict otherwise.
  pub commit_response-replays :
      later.actor.actor_id ≡ accepted.actor.actor_id
      → later.command.idempotency_key ≡ accepted.command.idempotency_key
      → Commit.commit_response later later_next later_digest later_now later_run_id later_token
          (run after w)
        ≡ (if digest == later_digest
            then (ok receipt, run after w)
            else (err (service_fault conflict), run after w))
  commit_response-replays actors keys =
      Consumed-replays later later_next later_digest later_now later_run_id later_token
        (key_of accepted digest) (record { payload_digest = digest; receipt = receipt })
        (run after w) consumed (cc (actors, keys))

  -- In a store that any operations have led to from an empty one, where a response under an unused key is
  -- committed, and after any further operations: a response to the same task under a key that its actor
  -- has not used raises ConditionFailed and changes nothing. A task is answered once.
  pub commit_response-answers_once :
      get (run after w).receipts (later.actor.actor_id, later.command.idempotency_key) ≡ none
      → Commit.commit_response later later_next later_digest later_now later_run_id later_token
          (run after w)
        ≡ (err condition_failed, run after w)
  commit_response-answers_once fresh =
      Consumed-taken later later_next later_digest later_now later_run_id later_token
        (key_of accepted digest) (record { payload_digest = digest; receipt = receipt })
        (run after w) consumed fresh
