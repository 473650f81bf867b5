-- ===== src/JobStore/Routed.antt =====
-- How the outbox of job_store.py covers the jobs: what holds of the dictionaries of jobs, runs and
-- rounds between two methods, and what a change of one job has to show to keep it.
pub mod Rules
pub mod Writes
pub mod Amended
pub mod Methods
pub mod Rounds
pub mod Reachable
use newtaipei_appraisal_revi.Prelude.{
  ℕ, ◌≡◌, sym, subst, ◌∙◌, inl, inr, false, some, ◌==◌, nat_eq, pair_eq, beq-cases, pair_ne_left,
}
use newtaipei_appraisal_revi.Prelude.Dict.{Dict, get}
use newtaipei_appraisal_revi.JobContracts.{queued}
use newtaipei_appraisal_revi.JobStore.Model.{Job, Run, Outbox, pending, Store}

-- A round stands under its own job and number, and its run is stored.
pub record RoundIsRouted (runs : Dict (ℕ × ℕ) Run) (j n : ℕ) (e : Outbox) : Type 0 where
  pub job : e.job_id ≡ j
  pub seq : e.outbox_seq ≡ n
  pub run : Run
  pub stored : get runs (j, e.run_id) ≡ some run

-- The latest round of the job is pending, and it asks for the job's current run.
pub record RoundIsReady (outbox : Dict (ℕ × ℕ) Outbox) (j : ℕ) (job : Job) : Type 0 where
  pub round : Outbox
  pub stored : get outbox (j, job.outbox_seq) ≡ some round
  pub unsent : round.dispatch_state ≡ pending
  pub current : round.run_id ≡ job.current_run_id

pub record JobIsCovered (outbox : Dict (ℕ × ℕ) Outbox) (j : ℕ) (job : Job) : Type 0 where
  pub ready : job.status ≡ queued → RoundIsReady outbox j job

-- Every round belongs to a stored job and run, and no queued job is without a pending round.
pub record IsRouted (s : Store) : Type 0 where
  pub owned :
      (j n : ℕ) (e : Outbox)
      → get s.outbox (j, n) ≡ some e
      → (job : Job) × (get s.jobs j ≡ some job)
  pub routed : (j n : ℕ) (e : Outbox) → get s.outbox (j, n) ≡ some e → RoundIsRouted s.runs j n e
  pub covered : (j : ℕ) (job : Job) → get s.jobs j ≡ some job → JobIsCovered s.outbox j job

-- A change of the job `j`, its runs and its rounds.
pub record Change (s s' : Store) (j : ℕ) (job' : Job) : Type 0 where
  pub here : get s'.jobs j ≡ some job'
  pub jobs_aside : (i : ℕ) → (j == i) ≡ false → get s'.jobs i ≡ get s.jobs i
  pub runs_kept :
      (i q : ℕ) (run : Run)
      → get s.runs (i, q) ≡ some run
      → (run' : Run) × (get s'.runs (i, q) ≡ some run')
  pub rounds : (n : ℕ) (e : Outbox) → get s'.outbox (j, n) ≡ some e → RoundIsRouted s'.runs j n e
  pub rounds_aside : (i n : ℕ) → (j == i) ≡ false → get s'.outbox (i, n) ≡ get s.outbox (i, n)
  pub covers : JobIsCovered s'.outbox j job'

module _ {s s' : Store} {j : ℕ} {job' : Job} (h : IsRouted s) (c : Change s s' j job') where
  change-owned :
      (i n : ℕ) (e : Outbox)
      → get s'.outbox (i, n) ≡ some e
      → (job : Job) × (get s'.jobs i ≡ some job)
  change-owned i n e stored = elim (beq-cases j i) [
    | inl same ↦ (job', subst (λ k. get s'.jobs k ≡ some job') same c.here)
    | inr n_e ↦
        let (job, known) = h.owned i n e (sym (c.rounds_aside i n n_e) ∙ stored) in
        (job, c.jobs_aside i n_e ∙ known)
  ]

  change-routed :
      (i n : ℕ) (e : Outbox) → get s'.outbox (i, n) ≡ some e → RoundIsRouted s'.runs i n e
  change-routed i n e stored = elim (beq-cases j i) [
    | inl same ↦
        subst (λ k. (e : Outbox) → get s'.outbox (k, n) ≡ some e → RoundIsRouted s'.runs k n e) same
          (c.rounds n) e stored
    | inr other ↦
        let old = h.routed i n e (sym (c.rounds_aside i n other) ∙ stored) in
        let (run, known) = c.runs_kept i e.run_id old.run old.stored in
        record { job = old.job; seq = old.seq; run = run; stored = known }
  ]

  change-covered_self : (job : Job) → get s'.jobs j ≡ some job → JobIsCovered s'.outbox j job
  change-covered_self job stored =
      let same : job' ≡ job = cc (c.here, stored) in subst (JobIsCovered s'.outbox j) same c.covers

  change-covered : (i : ℕ) (job : Job) → get s'.jobs i ≡ some job → JobIsCovered s'.outbox i job
  change-covered i job stored = elim (beq-cases j i) [
    | inl same ↦
        subst (λ k. (job : Job) → get s'.jobs k ≡ some job → JobIsCovered s'.outbox k job) same
          change-covered_self job stored
    | inr other ↦
        let old = h.covered i job (sym (c.jobs_aside i other) ∙ stored) in
        record {
          ready = λ waits.
              let r = old.ready waits in
              record {
                round = r.round;
                stored = c.rounds_aside i job.outbox_seq other ∙ r.stored;
                unsent = r.unsent;
                current = r.current;
              };
        }
  ]

  pub change-IsRouted : IsRouted s'
  change-IsRouted = record {
    owned = change-owned;
    routed = change-routed;
    covered = change-covered;
  }
