-- ===== src/JobStore/History.antt =====
-- What every method of job_store.py keeps of the past.
use newtaipei_appraisal_revi.Prelude.{
  ℕ, String, ◌≡◌, refl, ◌∙◌, subst, inl, inr, some, nat_eq, pair_eq, string_eq, beq-cases,
  pair-cases, pair_ne_left, arith,
}
use newtaipei_appraisal_revi.Prelude.Dict.{Dict, get, put, get-put_self, get-put_ne}
use newtaipei_appraisal_revi.JobContracts.{JobStatus}
use newtaipei_appraisal_revi.ServiceGuards.{IdempotencyRecord}
use newtaipei_appraisal_revi.JobStore.Model.{Job, Run, ResultReference, Store}
use newtaipei_appraisal_revi.JobStore.Evolution.{Evolution, Evolution-refl, Evolution-trans}

-- A job and a run of it, as they stand afterwards.
pub record After (jobs : Dict ℕ Job) (runs : Dict (ℕ × ℕ) Run) (j r : ℕ) (job : Job) (run : Run)
    : Type 0 where
  pub later_job : Job
  pub later_run : Run
  pub job_stored : get jobs j ≡ some later_job
  pub run_stored : get runs (j, r) ≡ some later_run
  pub evolution : Evolution job run later_job later_run

abbrev pub Evolved : Dict ℕ Job → Dict (ℕ × ℕ) Run → Dict ℕ Job → Dict (ℕ × ℕ) Run → Type 0
Evolved jobs runs jobs' runs' =
    (j r : ℕ) (job : Job) (run : Run)
    → get jobs j ≡ some job
    → get runs (j, r) ≡ some run
    → After jobs' runs' j r job run

-- Jobs and runs evolve, committed results stay, and idempotency records stay.
pub record Evolves (s s' : Store) : Type 0 where
  pub policy : s'.policy ≡ s.policy
  pub pairs : Evolved s.jobs s.runs s'.jobs s'.runs
  pub results :
      (k : ℕ × ℕ) (ref : ResultReference) → get s.results k ≡ some ref → get s'.results k ≡ some ref
  pub keys :
      (k : String) (known : IdempotencyRecord)
      → get s.idempotency k ≡ some known
      → get s'.idempotency k ≡ some known

pub Evolved-refl : {jobs : Dict ℕ Job} {runs : Dict (ℕ × ℕ) Run} → Evolved jobs runs jobs runs
Evolved-refl j r job run hj hr = record {
  later_job = job;
  later_run = run;
  job_stored = hj;
  run_stored = hr;
  evolution = Evolution-refl job run;
}

Evolved-trans :
    (jobs₁ jobs₂ jobs₃ : Dict ℕ Job) (runs₁ runs₂ runs₃ : Dict (ℕ × ℕ) Run)
    → Evolved jobs₁ runs₁ jobs₂ runs₂
    → Evolved jobs₂ runs₂ jobs₃ runs₃
    → Evolved jobs₁ runs₁ jobs₃ runs₃
Evolved-trans _ _ _ _ _ _ f g j r job run hj hr =
    let a = f j r job run hj hr in
    let b = g j r a.later_job a.later_run a.job_stored a.run_stored in
    record {
      later_job = b.later_job;
      later_run = b.later_run;
      job_stored = b.job_stored;
      run_stored = b.run_stored;
      evolution = Evolution-trans a.evolution b.evolution;
    }

pub Evolves-refl : (s : Store) → Evolves s s
Evolves-refl s = record {
  policy = refl;
  pairs = Evolved-refl;
  results = λ k ref h. h;
  keys = λ k known h. h;
}

pub Evolves-trans : {s t u : Store} → Evolves s t → Evolves t u → Evolves s u
Evolves-trans a b = record {
  policy = b.policy ∙ a.policy;
  pairs = Evolved-trans _ _ _ _ _ _ a.pairs b.pairs;
  results = λ k ref h. b.results k ref (a.results k ref h);
  keys = λ k known h. b.keys k known (a.keys k known h);
}

-- A job is stored with one of its runs.
pub put-Evolved :
    (jobs : Dict ℕ Job) (runs : Dict (ℕ × ℕ) Run) (j r : ℕ) (job' : Job) (run' : Run)
    → ((old : Job)
        → get jobs j ≡ some old
        → ((run : Run) → get runs (j, r) ≡ some run → Evolution old run job' run')
          × ((other : Run) → Evolution old other job' other))
    → Evolved jobs runs (put jobs j job') (put runs (j, r) run')
put-Evolved jobs runs j r job' run' grow i q job run hj hr = elim (beq-cases j i) [
  | inl e ↦
      let mine : get jobs j ≡ some job = rw e hj in
      let stored : get (put jobs j job') i ≡ some job' = rw (← e) (get-put_self jobs j job') in
      elim (pair-cases j r i q) [
        | inl same ↦ record {
          later_job = job';
          later_run = run';
          job_stored = stored;
          run_stored = rw (← same) (get-put_self runs (j, r) run');
          evolution = (grow job mine).0 run (rw same hr);
        }
        | inr n ↦ record {
          later_job = job';
          later_run = run;
          job_stored = stored;
          run_stored = get-put_ne runs (j, r) (i, q) run' n ∙ hr;
          evolution = (grow job mine).1 run;
        }
      ]
  | inr n ↦
      let aside = pair_ne_left j i r q n in
      record {
        later_job = job;
        later_run = run;
        job_stored = get-put_ne jobs j i job' n ∙ hj;
        run_stored = get-put_ne runs (j, r) (i, q) run' aside ∙ hr;
        evolution = Evolution-refl job run;
      }
]

-- A job alone is stored again.
pub touch-Evolved :
    (jobs : Dict ℕ Job) (runs : Dict (ℕ × ℕ) Run) (j : ℕ) {job : Job} (job' : Job)
    → get jobs j ≡ some job
    → ((run : Run) → Evolution job run job' run)
    → Evolved jobs runs (put jobs j job') runs
touch-Evolved jobs runs j {job} job' here grow i q k run hj hr = elim (beq-cases j i) [
  | inl e ↦
      let mine : get jobs j ≡ some k = rw e hj in
      let same : job ≡ k = cc (mine, here) in
      record {
        later_job = job';
        later_run = run;
        job_stored = rw (← e) (get-put_self jobs j job');
        run_stored = hr;
        evolution = subst (λ o. Evolution o run job' run) same (grow run);
      }
  | inr n ↦ record {
    later_job = k;
    later_run = run;
    job_stored = get-put_ne jobs j i job' n ∙ hj;
    run_stored = hr;
    evolution = Evolution-refl k run;
  }
]

-- A run's status label changes.
pub relabel-Evolved :
    (jobs : Dict ℕ Job) (runs : Dict (ℕ × ℕ) Run) (j r : ℕ) {run : Run}
    → get runs (j, r) ≡ some run
    → (label : JobStatus)
    → Evolved jobs runs jobs (put runs (j, r) (record run { run_status = label }))
relabel-Evolved jobs runs j r {run} here label i q job old hj hr =
    let new = record run { run_status = label } in
    elim (pair-cases j r i q) [
      | inl e ↦
          let mine : get runs (j, r) ≡ some old = rw e hr in
          let same : run ≡ old = cc (mine, here) in
          record {
            later_job = job;
            later_run = new;
            job_stored = hj;
            run_stored = rw (← e) (get-put_self runs (j, r) new);
            evolution = subst (λ o. Evolution job o job new) same (ground arith);
          }
      | inr n ↦ record {
        later_job = job;
        later_run = old;
        job_stored = hj;
        run_stored = get-put_ne runs (j, r) (i, q) new n ∙ hr;
        evolution = Evolution-refl job old;
      }
    ]
