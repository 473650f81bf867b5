-- ===== src/JobStore/Routed/Amended.antt =====
-- A round of the outbox of job_store.py that is stored again, beside its job.
use newtaipei_appraisal_revi.Prelude.{
  ℕ, ◌≡◌, refl, sym, subst, ◌∙◌, inl, inr, some, nat_eq, pair_eq, string_eq, beq-cases,
  pair_ne_left, pair_ne_right,
}
use newtaipei_appraisal_revi.Prelude.Dict.{get, put, get-put_self, get-put_ne}
use newtaipei_appraisal_revi.JobStore.Model.{Job, Run, Outbox, pending, Store}
use newtaipei_appraisal_revi.JobStore.Routed.{
  RoundIsRouted, JobIsCovered, IsRouted, change-IsRouted,
}
use newtaipei_appraisal_revi.JobStore.Routed.Writes.{Written, put-runs_kept, written-rounds}

-- A stored round is stored again, for the same job, run and number.
module _ {s t : Store} {j : ℕ} {job' : Job} (h : IsRouted s) (w : Written s t j job') (n : ℕ)
    {entry : Outbox} (entry' : Outbox) (stored : get s.outbox (j, n) ≡ some entry)
    (same_job : entry'.job_id ≡ entry.job_id) (same_run : entry'.run_id ≡ entry.run_id)
    (same_seq : entry'.outbox_seq ≡ entry.outbox_seq) where
  amended_self : RoundIsRouted t.runs j n entry'
  amended_self =
      let old = written-rounds h w n entry stored in
      record {
        job = same_job ∙ old.job;
        seq = same_seq ∙ old.seq;
        run = old.run;
        stored = rw same_run old.stored;
      }

  amended-rounds :
      (m : ℕ) (e : Outbox)
      → get (put s.outbox (j, n) entry') (j, m) ≡ some e
      → RoundIsRouted t.runs j m e
  amended-rounds m e known = elim (beq-cases n m) [
    | inl same ↦
        let mine = subst (λ k. get (put s.outbox (j, n) entry') (j, k) ≡ some e) (sym same) known in
        let is : entry' ≡ e = cc (get-put_self s.outbox (j, n) entry', mine) in
        subst (λ k. RoundIsRouted t.runs j k e) same
          (subst (RoundIsRouted t.runs j n) is amended_self)
    | inr other ↦
        written-rounds h w m e
          (sym (get-put_ne s.outbox (j, n) (j, m) entry' (pair_ne_right j n m other)) ∙ known)
  ]

  pub amended-IsRouted :
      JobIsCovered (put s.outbox (j, n) entry') j job'
      → IsRouted (record t { outbox = put s.outbox (j, n) entry' })
  amended-IsRouted covers = change-IsRouted h (record {
    here = w.here;
    jobs_aside = w.jobs_aside;
    runs_kept = w.runs_kept;
    rounds = amended-rounds;
    rounds_aside =
        λ i m other. get-put_ne s.outbox (j, n) (i, m) entry' (pair_ne_left j i n m other);
    covers = covers;
  })

  -- A round that stays pending covers the job that it covered.
  pub amended-JobIsCovered :
      get s.jobs j ≡ some job'
      → entry'.dispatch_state ≡ pending
      → JobIsCovered (put s.outbox (j, n) entry') j job'
  amended-JobIsCovered hj unsent = record {
    ready = λ waits.
        let old = (h.covered j job' hj).ready waits in
        elim (beq-cases n job'.outbox_seq) [
          | inl same ↦
              let mine : get s.outbox (j, n) ≡ some old.round = rw same old.stored in
              let is : entry ≡ old.round = cc (stored, mine) in
              record {
                round = entry';
                stored = rw (← same) (get-put_self s.outbox (j, n) entry');
                unsent = unsent;
                current =
                    same_run
                    ∙ subst (λ (e : Outbox). e.run_id ≡ job'.current_run_id) (sym is) old.current;
              }
          | inr other ↦ record {
            round = old.round;
            stored =
                get-put_ne s.outbox (j, n) (j, job'.outbox_seq) entry'
                  (pair_ne_right j n job'.outbox_seq other)
                ∙ old.stored;
            unsent = old.unsent;
            current = old.current;
          }
        ];
  }

-- A job stored again alone, and a job stored with the label of a run.
pub job-Written :
    (s : Store) (j : ℕ) (job' : Job) → Written s (record s { jobs = put s.jobs j job' }) j job'
job-Written s j job' = record {
  here = get-put_self s.jobs j job';
  jobs_aside = λ i n. get-put_ne s.jobs j i job' n;
  runs_kept = λ i q run known. (run, known);
  outbox = refl;
}

pub label-Written :
    (s : Store) (j i r : ℕ) (job' : Job) (run' : Run)
    → Written s (record s { jobs = put s.jobs j job'; runs = put s.runs (i, r) run' }) j job'
label-Written s j i r job' run' = record {
  here = get-put_self s.jobs j job';
  jobs_aside = λ k n. get-put_ne s.jobs j k job' n;
  runs_kept = put-runs_kept s.runs i r run';
  outbox = refl;
}

pub same-Written : (s : Store) (j : ℕ) {job : Job} → get s.jobs j ≡ some job → Written s s j job
same-Written s j hj = record {
  here = hj;
  jobs_aside = λ i n. refl;
  runs_kept = λ i q run known. (run, known);
  outbox = refl;
}
