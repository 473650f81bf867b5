-- ===== src/JobStore/Routed/Writes.antt =====
-- The two ways in which the methods of job_store.py write a job: without a round, to a status that
-- needs none, and with a new round in the outbox.
use newtaipei_appraisal_revi.Prelude.{
  ℕ, ◌+◌, String, ◌≡◌, refl, sym, subst, ◌∙◌, inl, inr, false, some, List, ◌==◌, nat_eq, pair_eq,
  string_eq, beq-cases, pair-cases, pair_ne_left, pair_ne_right,
}
use newtaipei_appraisal_revi.Prelude.Dict.{Dict, get, put, get-put_self, get-put_ne}
use newtaipei_appraisal_revi.JobContracts.{queued}
use newtaipei_appraisal_revi.ServiceGuards.{IdempotencyRecord}
use newtaipei_appraisal_revi.JobStore.Model.{
  Job, Run, Outbox, Attempt, ResultReference, pending, Store,
}
use newtaipei_appraisal_revi.JobStore.Read.{enqueue}
use newtaipei_appraisal_revi.JobStore.Routed.{RoundIsRouted, IsRouted, Change, change-IsRouted}

-- The job `j` is stored again, with its runs, and the outbox is as it was.
pub record Written (s t : Store) (j : ℕ) (job' : Job) : Type 0 where
  pub here : get t.jobs j ≡ some job'
  pub jobs_aside : (i : ℕ) → (j == i) ≡ false → get t.jobs i ≡ get s.jobs i
  pub runs_kept :
      (i q : ℕ) (run : Run)
      → get s.runs (i, q) ≡ some run
      → (run' : Run) × (get t.runs (i, q) ≡ some run')
  pub outbox : t.outbox ≡ s.outbox

-- A run that is stored stays stored under a write.
pub put-runs_kept :
    (runs : Dict (ℕ × ℕ) Run) (j r : ℕ) (new : Run) (i q : ℕ) (run : Run)
    → get runs (i, q) ≡ some run
    → (run' : Run) × (get (put runs (j, r) new) (i, q) ≡ some run')
put-runs_kept runs j r new i q run h = elim (pair-cases j r i q) [
  | inl e ↦
      (new, subst (λ k. get (put runs (j, r) new) k ≡ some new) e (get-put_self runs (j, r) new))
  | inr n ↦ (run, get-put_ne runs (j, r) (i, q) new n ∙ h)
]

pub put-Written :
    (s : Store) (j r : ℕ) (job' : Job) (run' : Run) (attempts : List Attempt)
    (results : Dict (ℕ × ℕ) ResultReference) (idempotency : Dict String IdempotencyRecord)
    → Written s
        (record s {
          jobs = put s.jobs j job';
          runs = put s.runs (j, r) run';
          attempts = attempts;
          results = results;
          idempotency = idempotency;
        })
        j
        job'
put-Written s j r job' run' attempts results idempotency = record {
  here = get-put_self s.jobs j job';
  jobs_aside = λ i n. get-put_ne s.jobs j i job' n;
  runs_kept = put-runs_kept s.runs j r run';
  outbox = refl;
}

module _ {s t : Store} {j : ℕ} {job' : Job} (h : IsRouted s) (w : Written s t j job') where
  pub written-rounds :
      (n : ℕ) (e : Outbox) → get s.outbox (j, n) ≡ some e → RoundIsRouted t.runs j n e
  written-rounds n e stored =
      let old = h.routed j n e stored in
      let (run, known) = w.runs_kept j e.run_id old.run old.stored in
      record { job = old.job; seq = old.seq; run = run; stored = known }

  -- A write to another status than queued.
  pub written-IsRouted : (job'.status ≡ queued → ⊥) → IsRouted t
  written-IsRouted busy = change-IsRouted h (record {
    here = w.here;
    jobs_aside = w.jobs_aside;
    runs_kept = w.runs_kept;
    rounds = λ n e stored. written-rounds n e (subst (λ o. get o (j, n) ≡ some e) w.outbox stored);
    rounds_aside = λ i n _. subst (λ o. get o (i, n) ≡ get s.outbox (i, n)) (sym w.outbox) refl;
    covers = record { ready = λ waits. absurd (busy waits) };
  })

  -- The entry that `enqueue` adds.
  abbrev fresh_round : ℕ → ℕ → ℕ → Outbox
  fresh_round r available_at token = record {
    job_id = job'.job_id;
    run_id = r;
    outbox_seq = job'.outbox_seq + 1;
    dispatch_token = token;
    available_at = available_at;
    dispatch_attempts = 0;
    dispatch_state = pending;
  }

  module _ (r available_at token : ℕ) (id : job'.job_id ≡ j) (current : r ≡ job'.current_run_id)
      {run' : Run} (held : get t.runs (j, r) ≡ some run') where
    abbrev bumped : Job
    bumped = record job' { outbox_seq = job'.outbox_seq + 1 }

    enqueue-rounds :
        (n : ℕ) (e : Outbox)
        → get (put s.outbox (j, job'.outbox_seq + 1) (fresh_round r available_at token)) (j, n)
          ≡ some e
        → RoundIsRouted t.runs j n e
    enqueue-rounds n e stored = elim (beq-cases (job'.outbox_seq + 1) n) [
      | inl same ↦
          let mine =
            subst
              (λ k.
                get (put s.outbox (j, job'.outbox_seq + 1) (fresh_round r available_at token))
                  (j, k)
                ≡ some e)
              (sym same) stored in
          let is : fresh_round r available_at token ≡ e = cc (
            get-put_self s.outbox (j, job'.outbox_seq + 1) (fresh_round r available_at token),
            mine,
          ) in
          subst (RoundIsRouted t.runs j n) is
            (record { job = id; seq = same; run = run'; stored = held })
      | inr other ↦ written-rounds n e (
          sym (
            get-put_ne s.outbox (j, job'.outbox_seq + 1) (j, n) (fresh_round r available_at token)
              (pair_ne_right j (job'.outbox_seq + 1) n other))
          ∙ stored)
    ]

    abbrev extended : Store
    extended = record t {
      jobs = put t.jobs j bumped;
      outbox = put s.outbox (j, job'.outbox_seq + 1) (fresh_round r available_at token);
    }

    extended-Change : Change s extended j bumped
    extended-Change = record {
      here = get-put_self t.jobs j bumped;
      jobs_aside = λ i n. get-put_ne t.jobs j i bumped n ∙ w.jobs_aside i n;
      runs_kept = w.runs_kept;
      rounds = enqueue-rounds;
      rounds_aside = λ i n other.
          get-put_ne s.outbox (j, job'.outbox_seq + 1) (i, n) (fresh_round r available_at token)
            (pair_ne_left j i (job'.outbox_seq + 1) n other);
      covers = record {
        ready = λ _. record {
          round = fresh_round r available_at token;
          stored =
              get-put_self s.outbox (j, job'.outbox_seq + 1) (fresh_round r available_at token);
          unsent = refl;
          current = current;
        };
      };
    }

    -- A write with a new round for the job's current run.
    pub enqueue-IsRouted : IsRouted (enqueue job' r available_at token t)
    unfolding enqueue
    enqueue-IsRouted =
        subst
          (λ k. IsRouted (record t {
            jobs = put t.jobs k bumped;
            outbox = put t.outbox (k, job'.outbox_seq + 1) (fresh_round r available_at token);
          }))
          (sym id) (rw w.outbox (change-IsRouted h extended-Change))
