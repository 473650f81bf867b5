-- ===== src/HumanTasks/Seed.antt =====
-- `LocalHumanTaskStore.seed` of human_task_store.py, which a trusted caller runs.
use newtaipei_appraisal_revi.Prelude.{
  ℕ, String, ◌≡◌, refl, sym, ap, subst, ◌∙◌, Bool, true, false, not, ◌&&◌, ◌||◌, Option, none, some,
  is_some, List, [], ◌∷◌, eqb, if◌then◌else◌, ◌==◌, nat_eq, string_eq, option_eq, text_pair_eq,
  Bool-cases, inl, inr, distinct, same_list, beq-cases,
}
use newtaipei_appraisal_revi.Prelude.Dict.{Dict, get, put, get-put_self, get-put_ne}
use newtaipei_appraisal_revi.Faults.{Result, ok, err, condition_failed}
use newtaipei_appraisal_revi.JobContracts.{RevisionReference}
use newtaipei_appraisal_revi.ActionContracts.Snapshot.{revision_eq, same_run}
use newtaipei_appraisal_revi.HumanTasks.{
  ChainedRevision, TaskState, open_task, answered, superseded, TaskKind, fact, correction, rules,
  material, publication, evidence, action_eq, FactSideReference, HumanTask, Task, JobMeta,
  TaskStore, RevisionSnapshot,
}
use newtaipei_appraisal_revi.ServiceGuards.{permission_eq}

abbrev same_state : TaskState → TaskState → Bool
same_state open_task open_task = true
same_state answered answered = true
same_state superseded superseded = true
same_state _ _ = false

abbrev same_kind : TaskKind → TaskKind → Bool
same_kind fact fact = true
same_kind correction correction = true
same_kind rules rules = true
same_kind material material = true
same_kind publication publication = true
same_kind evidence evidence = true
same_kind _ _ = false

abbrev same_side : Option FactSideReference → Option FactSideReference → Bool
same_side none none = true
same_side (some a) (some b) = a.subject == b.subject && a.input_digest == b.input_digest
same_side _ _ = false

-- `previous.task == task`
unfoldable pub same_task : HumanTask → HumanTask → Bool
same_task a b =
    a.task_id == b.task_id
    && same_run a.run b.run
    && eqb a.version b.version
    && same_kind a.kind b.kind
    && a.required_permission == b.required_permission
    && same_state a.state b.state
    && same_side a.side b.side
    && a.result_digest == b.result_digest
    && same_list a.finding_ids b.finding_ids
    && same_list a.allowed_responses b.allowed_responses
    && same_list a.affected_subject_ids b.affected_subject_ids
    && a.content == b.content

-- `old_snapshot.revision == revision`
abbrev same_chained : ChainedRevision → ChainedRevision → Bool
same_chained a b = a.reference == b.reference && a.parent == b.parent && a.content == b.content

-- The job was registered with another head, principal or case.
abbrev pub other_meta : Option JobMeta → String → RevisionReference → Bool
other_meta none principal_id reference = false
other_meta (some meta) principal_id reference =
    not (meta.head == reference)
    || not (meta.principal_id == principal_id)
    || not (meta.case_id == reference.case_id)

abbrev other_snapshot : Option RevisionSnapshot → RevisionSnapshot → Bool
other_snapshot none snapshot = false
other_snapshot (some old) snapshot = not (same_chained old.revision snapshot.revision)

abbrev other_task : Option Task → ℕ → String → HumanTask → Bool
other_task none job_id principal_id task = false
other_task (some previous) job_id principal_id task =
    not (same_task previous.task task)
    || not (eqb previous.job_id job_id)
    || not (previous.principal_id == principal_id)

abbrev task_ids : List HumanTask → List ℕ
task_ids [] = []
task_ids (task ∷ tasks) = task.task_id ∷ task_ids tasks

unfoldable pub conflicting_task :
    Dict ℕ Task → ℕ → String → RevisionReference → List HumanTask → Bool
unfolding same_task
conflicting_task stored job_id principal_id reference [] = false
conflicting_task stored job_id principal_id reference (task ∷ tasks) =
    not (task.run.revision == reference)
    || other_task (get stored task.task_id) job_id principal_id task
    || conflicting_task stored job_id principal_id reference tasks

-- `if task.task_id in self._tasks: continue`
unfoldable pub registered : ℕ → String → String → List HumanTask → Dict ℕ Task → Dict ℕ Task
registered job_id case_id principal_id [] stored = stored
registered job_id case_id principal_id (task ∷ tasks) stored =
    registered job_id case_id principal_id tasks (
      if is_some (get stored task.task_id)
      then stored
      else put stored task.task_id
          (record { task = task; job_id = job_id; case_id = case_id; principal_id = principal_id }))

-- The writes of `seed`.
abbrev pub seeded : ℕ → String → RevisionSnapshot → List HumanTask → TaskStore → TaskStore
seeded job_id principal_id snapshot tasks w =
    let reference = snapshot.revision.reference in
    record w {
      job_meta =
          put w.job_meta job_id
            (record { case_id = reference.case_id; principal_id = principal_id; head = reference });
      chain =
          if is_some (get w.job_meta job_id)
          then w.chain
          else put w.chain job_id (snapshot.revision ∷ []);
      snapshots = put w.snapshots (reference.case_id, reference.revision_id) snapshot;
      tasks = registered job_id reference.case_id principal_id tasks w.tasks;
    }

unfoldable pub seed :
    ℕ → String → RevisionSnapshot → List HumanTask → TaskStore → Result (Unit {0}) × TaskStore
unfolding conflicting_task registered
seed job_id principal_id snapshot tasks w =
    let reference = snapshot.revision.reference in
    if other_meta (get w.job_meta job_id) principal_id reference
    then (err condition_failed, w)
    else if other_snapshot (get w.snapshots (reference.case_id, reference.revision_id)) snapshot
    then (err condition_failed, w)
    else if not (distinct (task_ids tasks))
    then (err condition_failed, w)
    else if conflicting_task w.tasks job_id principal_id reference tasks
    then (err condition_failed, w)
    else (ok tt, seeded job_id principal_id snapshot tasks w)

-- Every task is stored under its own identity.
abbrev pub IsKeyed : Dict ℕ Task → Type 0
IsKeyed ts = (k : ℕ) (t : Task) → get ts k ≡ some t → t.task.task_id ≡ k

pub put-IsKeyed : (ts : Dict ℕ Task) (t : Task) → IsKeyed ts → IsKeyed (put ts t.task.task_id t)
put-IsKeyed ts t keyed k u h = elim (beq-cases t.task.task_id k) [
  | inl e ↦
      let same : t ≡ u = cc (
        subst (λ j. get (put ts t.task.task_id t) j ≡ some t) e (get-put_self ts t.task.task_id t),
        h,
      ) in
      ap (λ (x : Task). x.task.task_id) (sym same) ∙ e
  | inr other ↦ keyed k u (sym (get-put_ne ts t.task.task_id k t other) ∙ h)
]

registered-IsKeyed :
    (job_id : ℕ) (case_id principal_id : String) (tasks : List HumanTask) (ts : Dict ℕ Task)
    → IsKeyed ts
    → IsKeyed (registered job_id case_id principal_id tasks ts)
unfolding registered
registered-IsKeyed job_id case_id principal_id [] ts keyed = keyed
registered-IsKeyed job_id case_id principal_id (task ∷ tasks) ts keyed =
    elim (Bool-cases (is_some (get ts task.task_id))) [
      | inl known ↦ rw known (registered-IsKeyed job_id case_id principal_id tasks ts keyed)
      | inr fresh ↦
          rw fresh (registered-IsKeyed job_id case_id principal_id tasks _ (put-IsKeyed ts _ keyed))
    ]

-- A property of the state that registration establishes where it raises nothing is kept by it.
pub seed-keeps :
    (P : TaskStore → Type 0) (job_id : ℕ) (principal_id : String) (snapshot : RevisionSnapshot)
    (tasks : List HumanTask) (w : TaskStore)
    → P w
    → (other_meta (get w.job_meta job_id) principal_id snapshot.revision.reference ≡ false
        → P (seeded job_id principal_id snapshot tasks w))
    → P (seed job_id principal_id snapshot tasks w).1
unfolding seed
seed-keeps P job_id principal_id snapshot tasks w h done =
    let reference = snapshot.revision.reference in
    elim (Bool-cases (other_meta (get w.job_meta job_id) principal_id reference)) [
      | inl other ↦ rw other h
      | inr same ↦ rw same (
          either
            (other_snapshot (get w.snapshots (reference.case_id, reference.revision_id)) snapshot) _
            _ h
            (either (not (distinct (task_ids tasks))) _ _ h (
              either (conflicting_task w.tasks job_id principal_id reference tasks) _ _ h
                (done same))))
    ]
  where
    either :
        (test : Bool) (x y : Result (Unit {0}) × TaskStore)
        → P x.1
        → P y.1
        → P (if test then x else y).1
    either true x y hx hy = hx
    either false x y hx hy = hy

-- Registration that returns has made its writes.
pub seed-ok :
    (job_id : ℕ) (principal_id : String) (snapshot : RevisionSnapshot) (tasks : List HumanTask)
    (w : TaskStore) {w' : TaskStore}
    → seed job_id principal_id snapshot tasks w ≡ (ok tt, w')
    → w' ≡ seeded job_id principal_id snapshot tasks w
unfolding seed
seed-ok job_id principal_id snapshot tasks w {w'} h = subst IfMade h (
    unless (other_meta (get w.job_meta job_id) principal_id snapshot.revision.reference) _ (
      unless
        (other_snapshot
          (get w.snapshots
            (snapshot.revision.reference.case_id, snapshot.revision.reference.revision_id))
          snapshot)
        _
        (unless (not (distinct (task_ids tasks))) _ (
          unless (conflicting_task w.tasks job_id principal_id snapshot.revision.reference tasks)
            (ok tt, seeded job_id principal_id snapshot tasks w) refl))))
  where
    IfMade : Result (Unit {0}) × TaskStore → Type 0
    IfMade (ok x, v) = v ≡ seeded job_id principal_id snapshot tasks w
    IfMade (err e, v) = Unit

    unless :
        (test : Bool) (rest : Result (Unit {0}) × TaskStore)
        → IfMade rest
        → IfMade (if test then (err condition_failed, w) else rest)
    unless true rest h = tt
    unless false rest h = h

-- Registration keeps every task under its own identity, whether it returns or raises.
pub seed-IsKeyed :
    (job_id : ℕ) (principal_id : String) (snapshot : RevisionSnapshot) (tasks : List HumanTask)
    (w : TaskStore)
    → IsKeyed w.tasks
    → IsKeyed (seed job_id principal_id snapshot tasks w).1.tasks
seed-IsKeyed job_id principal_id snapshot tasks w keyed =
    seed-keeps (λ v. IsKeyed v.tasks) job_id principal_id snapshot tasks w keyed
      (λ same.
        registered-IsKeyed job_id snapshot.revision.reference.case_id principal_id tasks w.tasks
          keyed)
