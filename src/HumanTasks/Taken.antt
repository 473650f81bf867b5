-- ===== src/HumanTasks/Taken.antt =====
-- A task of human_task_store.py that takes no more responses, and the writes that leave it so.
use newtaipei_appraisal_revi.Prelude.{
  ℕ, String, ◌≡◌, refl, sym, ap, subst, ◌∙◌, true, false, some, is_some, List, [], ◌∷◌, ◌==◌,
  nat_eq, string_eq, option_eq, text_pair_eq, arith, Bool-cases, inl, inr, beq-cases,
}
use newtaipei_appraisal_revi.Prelude.Dict.{Dict, get, put, get-put_self, get-put_ne}
use newtaipei_appraisal_revi.JobContracts.{RevisionReference}
use newtaipei_appraisal_revi.ActionContracts.Snapshot.{revision_eq}
use newtaipei_appraisal_revi.HumanTasks.{is_open, HumanTask, Task, JobMeta, is_stale, supersede}
use newtaipei_appraisal_revi.HumanTasks.Seed.{registered}

-- A task that is not open is not stale.
closed-stale :
    (job_id : ℕ) (head : RevisionReference) (t : Task)
    → is_open t.task.state ≡ false
    → is_stale job_id head t ≡ false
unfolding is_stale
closed-stale job_id head t shut = ground arith

-- A task that is not open is not superseded.
get-supersede :
    (job_id : ℕ) (head : RevisionReference) (ts : Dict ℕ Task) (k : ℕ) {t : Task}
    → get ts k ≡ some t
    → is_open t.task.state ≡ false
    → get (supersede job_id head ts) k ≡ some t
unfolding get supersede is_stale
get-supersede job_id head [] k h closed = absurd (cc h)
get-supersede job_id head ((j, u) ∷ ts) k {t} h closed = elim (Bool-cases (j == k)) [
  | inl here ↦
      let same : u ≡ t = ground arith in
      let shut : is_open u.task.state ≡ false =
        ap (λ (x : Task). is_open x.task.state) same ∙ closed in
      let kept : is_stale job_id head u ≡ false = closed-stale job_id head u shut in
      rw (kept, here) (ap some same)
  | inr there ↦
      let rest = get-supersede job_id head ts k {t = t} (rw there at h) closed in
      elim (Bool-cases (is_stale job_id head u)) [
        | inl stale ↦ rw (stale, there) rest
        | inr kept ↦ rw (kept, there) rest
      ]
]

-- The task is stored and takes no response, and its job is known.
pub record Taken (k : ℕ) (ts : Dict ℕ Task) (metas : Dict ℕ JobMeta) : Type 0 where
  pub task : Task
  pub stored : get ts k ≡ some task
  pub closed : is_open task.task.state ≡ false
  pub known : is_some (get metas task.job_id) ≡ true

pub is_some-put :
    {V : Type 0} (d : Dict ℕ V) (j i : ℕ) (v : V)
    → is_some (get d i) ≡ true
    → is_some (get (put d j v) i) ≡ true
is_some-put d j i v h = elim (beq-cases j i) [
  | inl e ↦
      let there : get (put d j v) i ≡ some v =
        subst (λ k. get (put d j v) k ≡ some v) e (get-put_self d j v) in
      rw there refl
  | inr n ↦ rw (get-put_ne d j i v n) h
]

pub put_meta-Taken :
    (k j : ℕ) (meta : JobMeta) (ts : Dict ℕ Task) (metas : Dict ℕ JobMeta)
    → Taken k ts metas
    → Taken k ts (put metas j meta)
put_meta-Taken k j meta ts metas h = record {
  task = h.task;
  stored = h.stored;
  closed = h.closed;
  known = is_some-put metas j h.task.job_id meta h.known;
}

pub supersede-Taken :
    (k job_id : ℕ) (head : RevisionReference) (ts : Dict ℕ Task) (metas : Dict ℕ JobMeta)
    → Taken k ts metas
    → Taken k (supersede job_id head ts) metas
supersede-Taken k job_id head ts metas h = record {
  task = h.task;
  stored = get-supersede job_id head ts k h.stored h.closed;
  closed = h.closed;
  known = h.known;
}

-- Another task is written, and it is closed too.
pub put-Taken :
    (k i : ℕ) (t : Task) (ts : Dict ℕ Task) (metas : Dict ℕ JobMeta)
    → is_open t.task.state ≡ false
    → is_some (get metas t.job_id) ≡ true
    → Taken k ts metas
    → Taken k (put ts i t) metas
put-Taken k i t ts metas closed known h = elim (beq-cases i k) [
  | inl e ↦ record {
    task = t;
    stored = subst (λ j. get (put ts i t) j ≡ some t) e (get-put_self ts i t);
    closed = closed;
    known = known;
  }
  | inr n ↦ record {
    task = h.task;
    stored = get-put_ne ts i k t n ∙ h.stored;
    closed = h.closed;
    known = h.known;
  }
]

-- Registration overwrites no task.
pub get-registered :
    (job_id : ℕ) (case_id principal_id : String) (tasks : List HumanTask) (ts : Dict ℕ Task) (k : ℕ)
    {t : Task}
    → get ts k ≡ some t
    → get (registered job_id case_id principal_id tasks ts) k ≡ some t
unfolding registered
get-registered job_id case_id principal_id [] ts k h = h
get-registered job_id case_id principal_id (task ∷ tasks) ts k {t} h =
    elim (Bool-cases (is_some (get ts task.task_id))) [
      | inl found ↦ rw found (get-registered job_id case_id principal_id tasks ts k h)
      | inr fresh ↦
          let apart : (task.task_id == k) ≡ false = elim (beq-cases task.task_id k) [
            | inl e ↦ absurd (overwritten e fresh)
            | inr n ↦ n
          ] in
          rw fresh (
            get-registered job_id case_id principal_id tasks _ k
              (get-put_ne ts task.task_id k _ apart ∙ h))
    ]
  where
    overwritten : task.task_id ≡ k → is_some (get ts task.task_id) ≡ false → ⊥
    overwritten e fresh =
        let gone = ap (λ j. is_some (get ts j)) (sym e) ∙ fresh in
        let there = ap is_some h in cc (gone, there)
