-- ===== src/JobStore/Touch.antt =====
-- Writes of job_store.py that leave the link between a job and its current run alone: a job stored
-- again, a run's status label, and a new outbox round.
use newtaipei_appraisal_revi.Prelude.{
  ℕ, ◌≡◌, refl, sym, ap, ◌∙◌, subst, ◌⊎◌, inl, inr, some, nat_eq, pair_eq, beq-cases, pair-cases,
  arith,
}
use newtaipei_appraisal_revi.Prelude.Dict.{Dict, get, put, get-put_self, get-put_ne}
use newtaipei_appraisal_revi.JobContracts.{JobStatus}
use newtaipei_appraisal_revi.JobState.{JobPolicy}
use newtaipei_appraisal_revi.JobStore.Model.{Job, Run}
use newtaipei_appraisal_revi.JobStore.Consistent.{IsConsistent}
use newtaipei_appraisal_revi.JobStore.Sound.{HasNoLease, JobIsSound, RunIsSound, Sound}

-- A job alone is stored again, with nothing changed that its run depends on.
module _ {p : JobPolicy} {jobs : Dict ℕ Job} {runs : Dict (ℕ × ℕ) Run} (sound : Sound p jobs runs)
    (j : ℕ) {job : Job} (job' : Job) (here : get jobs j ≡ some job) (id : job'.job_id ≡ j)
    (current : job'.current_run_id ≡ job.current_run_id)
    (agree : (run : Run) → IsConsistent p job run → IsConsistent p job' run) where
  touch-each_job_self : (k : Job) → get (put jobs j job') j ≡ some k → JobIsSound p runs j k
  touch-each_job_self k h =
      let same : job' ≡ k = cc (get-put_self jobs j job', h) in
      let old = sound.each_job j job here in
      subst (JobIsSound p runs j) same (record {
        keyed = id;
        current = old.current;
        stored = rw current old.stored;
        consistent = agree old.current old.consistent;
      })

  touch-each_job : (i : ℕ) (k : Job) → get (put jobs j job') i ≡ some k → JobIsSound p runs i k
  touch-each_job i k h = elim (beq-cases j i) [
    | inl e ↦
        subst (λ i'. (k : Job) → get (put jobs j job') i' ≡ some k → JobIsSound p runs i' k) e
          touch-each_job_self k h
    | inr n ↦ sound.each_job i k (sym (get-put_ne jobs j i job' n) ∙ h)
  ]

  touch-each_run :
      (i q : ℕ) (run : Run) → get runs (i, q) ≡ some run → RunIsSound (put jobs j job') i q run
  touch-each_run i q run h =
      let old = sound.each_run i q run h in
      elim (beq-cases j i) [
        | inl e ↦
            let mine : get jobs j ≡ some old.owner = rw e old.stored in
            let same : old.owner ≡ job = cc (mine, here) in
            record {
              owner = job';
              stored = rw (← e) (get-put_self jobs j job');
              idle =
                  subst (λ o. (o ≡ q) ⊎ HasNoLease run)
                    (ap (λ (o : Job). o.current_run_id) same ∙ sym current) old.idle;
            }
        | inr n ↦ record {
          owner = old.owner;
          stored = get-put_ne jobs j i job' n ∙ old.stored;
          idle = old.idle;
        }
      ]

  pub touch-Sound : Sound p (put jobs j job') runs
  touch-Sound = record { each_job = touch-each_job; each_run = touch-each_run }

-- A run's status label changes.
module _ {p : JobPolicy} {jobs : Dict ℕ Job} {runs : Dict (ℕ × ℕ) Run} (sound : Sound p jobs runs)
    (j r : ℕ) {run : Run} (here : get runs (j, r) ≡ some run) (label : JobStatus) where
  abbrev relabelled : Run
  relabelled = record run { run_status = label }

  -- What is stored under a key afterwards is what was there, up to the label.
  relabel-stored :
      (i q : ℕ) (old : Run)
      → get runs (i, q) ≡ some old
      → (new : Run) × (get (put runs (j, r) relabelled) (i, q) ≡ some new)
        × (new ≡ record old { run_status = new.run_status })
  relabel-stored i q old h = elim (pair-cases j r i q) [
    | inl e ↦
        let mine : get runs (j, r) ≡ some old = rw e h in
        let same : run ≡ old = cc (mine, here) in
        (relabelled, rw (← e) (get-put_self runs (j, r) relabelled), ground arith)
    | inr n ↦ (old, get-put_ne runs (j, r) (i, q) relabelled n ∙ h, refl)
  ]

  relabel-before :
      (i q : ℕ) (new : Run)
      → get (put runs (j, r) relabelled) (i, q) ≡ some new
      → (old : Run) × (get runs (i, q) ≡ some old)
        × (new ≡ record old { run_status = new.run_status })
  relabel-before i q new h = elim (pair-cases j r i q) [
    | inl e ↦
        let mine : get (put runs (j, r) relabelled) (j, r) ≡ some new =
          subst (λ k. get (put runs (j, r) relabelled) k ≡ some new) (sym e) h in
        let same : relabelled ≡ new = cc (get-put_self runs (j, r) relabelled, mine) in
        (run, rw (← e) here, ground arith)
    | inr n ↦ (new, sym (get-put_ne runs (j, r) (i, q) relabelled n) ∙ h, refl)
  ]

  relabel-each_job :
      (i : ℕ) (job : Job) → get jobs i ≡ some job → JobIsSound p (put runs (j, r) relabelled) i job
  relabel-each_job i job h =
      let old = sound.each_job i job h in
      let (new, stored, same) = relabel-stored i job.current_run_id old.current old.stored in
      record {
        keyed = old.keyed;
        current = new;
        stored = stored;
        consistent = relabel-IsConsistent old.current new same old.consistent;
      }
    where
      relabel-IsConsistent :
          (a b : Run)
          → b ≡ record a { run_status = b.run_status }
          → IsConsistent p job a
          → IsConsistent p job b
      relabel-IsConsistent a b e c = ground arith

  relabel-each_run :
      (i q : ℕ) (new : Run)
      → get (put runs (j, r) relabelled) (i, q) ≡ some new
      → RunIsSound jobs i q new
  relabel-each_run i q new h =
      let (old, was, same) = relabel-before i q new h in
      let known = sound.each_run i q old was in
      record {
        owner = known.owner;
        stored = known.stored;
        idle = still known.owner same known.idle;
      }
    where
      still :
          (o : Job) {a b : Run}
          → b ≡ record a { run_status = b.run_status }
          → (o.current_run_id ≡ q) ⊎ HasNoLease a
          → (o.current_run_id ≡ q) ⊎ HasNoLease b
      still o e (inl c) = inl c
      still o e (inr n) = inr (ground arith)

  pub relabel-Sound : Sound p jobs (put runs (j, r) relabelled)
  relabel-Sound = record { each_job = relabel-each_job; each_run = relabel-each_run }
