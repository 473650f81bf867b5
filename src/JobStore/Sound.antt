-- ===== src/JobStore/Sound.antt =====
-- The invariant of the whole store of job_store.py, and what keeps it: one lemma for each way in
-- which a method writes to the dictionaries of jobs and runs.
use newtaipei_appraisal_revi.Prelude.{
  ℕ, ◌≡◌, sym, ◌∙◌, ◌⊎◌, inl, inr, false, none, some, ◌==◌, nat_eq, pair_eq, subst, beq_ne,
  beq-cases, pair_ne_left, pair_ne_right, arith,
}
use newtaipei_appraisal_revi.Prelude.Dict.{Dict, get, put, get-put_self, get-put_ne}
use newtaipei_appraisal_revi.JobContracts.{running, same_status}
use newtaipei_appraisal_revi.JobState.{JobPolicy}
use newtaipei_appraisal_revi.JobStore.Model.{Job, Run, Store}
use newtaipei_appraisal_revi.JobStore.Consistent.{IsConsistent}

pub record HasNoLease (run : Run) : Type 0 where
  pub owner : run.lease_owner ≡ none
  pub deadline : run.lease_expires_at ≡ none
  pub attempt : run.attempt_id ≡ none

-- The job stands under its own id, and its current run is there and agrees with it.
pub record JobIsSound (p : JobPolicy) (runs : Dict (ℕ × ℕ) Run) (j : ℕ) (job : Job) : Type 0 where
  pub keyed : job.job_id ≡ j
  pub current : Run
  pub stored : get runs (j, job.current_run_id) ≡ some current
  pub consistent : IsConsistent p job current

-- The run belongs to a job, and holds no lease unless it is that job's current run.
pub record RunIsSound (jobs : Dict ℕ Job) (j r : ℕ) (run : Run) : Type 0 where
  pub owner : Job
  pub stored : get jobs j ≡ some owner
  pub idle : (owner.current_run_id ≡ r) ⊎ HasNoLease run

pub record Sound (p : JobPolicy) (jobs : Dict ℕ Job) (runs : Dict (ℕ × ℕ) Run) : Type 0 where
  pub each_job : (j : ℕ) (job : Job) → get jobs j ≡ some job → JobIsSound p runs j job
  pub each_run : (j r : ℕ) (run : Run) → get runs (j, r) ≡ some run → RunIsSound jobs j r run

abbrev pub IsSound : Store → Type 0
IsSound s = Sound s.policy s.jobs s.runs

-- A job's current run, found once, is the run that the invariant speaks of.
pub current-IsConsistent :
    {p : JobPolicy} {jobs : Dict ℕ Job} {runs : Dict (ℕ × ℕ) Run} (j : ℕ) {job : Job} {run : Run}
    → Sound p jobs runs
    → get jobs j ≡ some job
    → get runs (j, job.current_run_id) ≡ some run
    → IsConsistent p job run
current-IsConsistent {p} j {job} {run} sound hj hr =
    let found = sound.each_job j job hj in
    let same : found.current ≡ run = cc (found.stored, hr) in
    subst (λ r. IsConsistent p job r) same found.consistent

no_lease :
    {p : JobPolicy} {job : Job} {run : Run}
    → IsConsistent p job run
    → same_status job.status running ≡ false
    → HasNoLease run
no_lease c idle = ground arith

module _ {p : JobPolicy} {jobs : Dict ℕ Job} {runs : Dict (ℕ × ℕ) Run} (sound : Sound p jobs runs)
    (j r : ℕ) (job' : Job) (run' : Run) (id : job'.job_id ≡ j) (current : job'.current_run_id ≡ r)
    (agree : IsConsistent p job' run')
    (handover : (old : Job)
      → get jobs j ≡ some old
      → (old.current_run_id ≡ r) ⊎ (same_status old.status running ≡ false)) where
  put-each_job_self :
      (job : Job) → get (put jobs j job') j ≡ some job → JobIsSound p (put runs (j, r) run') j job
  put-each_job_self job h =
      let same : job' ≡ job = cc (get-put_self jobs j job', h) in
      subst (JobIsSound p (put runs (j, r) run') j) same (record {
        keyed = id;
        current = run';
        stored = rw current (get-put_self runs (j, r) run');
        consistent = agree;
      })

  put-each_job :
      (i : ℕ) (job : Job)
      → get (put jobs j job') i ≡ some job
      → JobIsSound p (put runs (j, r) run') i job
  put-each_job i job h = elim (beq-cases j i) [
    | inl e ↦
        subst
          (λ k.
            (job : Job)
            → get (put jobs j job') k ≡ some job
            → JobIsSound p (put runs (j, r) run') k job)
          e put-each_job_self job h
    | inr n ↦
        let old = sound.each_job i job (sym (get-put_ne jobs j i job' n) ∙ h) in
        record {
          keyed = old.keyed;
          current = old.current;
          stored =
              get-put_ne runs (j, r) (i, job.current_run_id) run'
                (pair_ne_left j i r job.current_run_id n)
              ∙ old.stored;
          consistent = old.consistent;
        }
  ]

  -- The other runs of the job hold no lease.
  idle_aside :
      (q : ℕ) (run : Run)
      → (r == q) ≡ false
      → get runs (j, q) ≡ some run
      → RunIsSound jobs j q run
      → HasNoLease run
  idle_aside q run n h old = elim old.idle [
    | inr none_held ↦ none_held
    | inl was ↦ elim (handover old.owner old.stored) [
      | inl still ↦ absurd (beq_ne r q n (sym still ∙ was))
      | inr resting ↦ no_lease (current-IsConsistent j sound old.stored (rw was h)) resting
    ]
  ]

  put-each_run_aside :
      (q : ℕ) (run : Run)
      → (r == q) ≡ false
      → get runs (j, q) ≡ some run
      → RunIsSound (put jobs j job') j q run
  put-each_run_aside q run n h = record {
    owner = job';
    stored = get-put_self jobs j job';
    idle = inr (idle_aside q run n h (sound.each_run j q run h));
  }

  put-each_run_here :
      (q : ℕ) (run : Run)
      → get (put runs (j, r) run') (j, q) ≡ some run
      → RunIsSound (put jobs j job') j q run
  put-each_run_here q run h = elim (beq-cases r q) [
    | inl e ↦ record { owner = job'; stored = get-put_self jobs j job'; idle = inl (current ∙ e) }
    | inr n ↦
        put-each_run_aside q run n
          (sym (get-put_ne runs (j, r) (j, q) run' (pair_ne_right j r q n)) ∙ h)
  ]

  put-each_run :
      (i q : ℕ) (run : Run)
      → get (put runs (j, r) run') (i, q) ≡ some run
      → RunIsSound (put jobs j job') i q run
  put-each_run i q run h = elim (beq-cases j i) [
    | inl e ↦
        subst
          (λ k. get (put runs (j, r) run') (k, q) ≡ some run → RunIsSound (put jobs j job') k q run)
          e (put-each_run_here q run) h
    | inr n ↦
        let old =
          sound.each_run i q run
            (sym (get-put_ne runs (j, r) (i, q) run' (pair_ne_left j i r q n)) ∙ h) in
        record {
          owner = old.owner;
          stored = get-put_ne jobs j i job' n ∙ old.stored;
          idle = old.idle;
        }
  ]

  -- A job is stored with its current run: either the run was current before, or the job did not
  -- run before.
  pub put-Sound : Sound p (put jobs j job') (put runs (j, r) run')
  put-Sound = record { each_job = put-each_job; each_run = put-each_run }
