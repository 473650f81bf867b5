-- ===== src/JobStore/Rules.antt =====
-- What is kept by the ways in which a method of job_store.py looks its objects up: a predicate on
-- stores that holds at the start, and at the end of the body, holds after the method.
use newtaipei_appraisal_revi.Prelude.{
  ℕ, ◌≡◌, refl, Bool, true, false, Option, none, some, nat_eq, pair_eq, if◌then◌else◌,
}
use newtaipei_appraisal_revi.Prelude.Dict.{get}
use newtaipei_appraisal_revi.Faults.{Result, ok, err}
use newtaipei_appraisal_revi.JobStore.Model.{Job, Run, Outbox, Store, Method}
use newtaipei_appraisal_revi.JobStore.Lease.{both_found, with_objects, commit}
use newtaipei_appraisal_revi.JobStore.Manage.{job_found, current_found, with_current}
use newtaipei_appraisal_revi.JobStore.Dispatch.{round_found, entry_found, job_of}

module _ {A : Type 0} (P : Store → Type 0) (s : Store) (kept : P s) where
  both_found-kept :
      (oj : Option Job) (or : Option Run) (body : Job → Run → Method A)
      → ((job : Job) (run : Run) → oj ≡ some job → or ≡ some run → P (body job run s).1)
      → P (both_found oj or body s).1
  both_found-kept none or body h = kept
  both_found-kept (some job) none body h = kept
  both_found-kept (some job) (some run) body h = h job run refl refl

  pub with_objects-kept :
      (j r : ℕ) (body : Job → Run → Method A)
      → ((job : Job) (run : Run)
          → get s.jobs j ≡ some job
          → get s.runs (j, r) ≡ some run
          → P (body job run s).1)
      → P (with_objects j r body s).1
  with_objects-kept j r body h = both_found-kept (get s.jobs j) (get s.runs (j, r)) body h

  pub commit-kept :
      {B : Type 0} (r : Result B) (body : B → Method A)
      → ((b : B) → r ≡ ok b → P (body b s).1)
      → P (commit r body s).1
  commit-kept (err e) body h = kept
  commit-kept (ok b) body h = h b refl

  pub if-kept :
      (b : Bool) (x y : Result A × Store)
      → (b ≡ true → P x.1)
      → (b ≡ false → P y.1)
      → P (if b then x else y).1
  if-kept true x y h k = h refl
  if-kept false x y h k = k refl

  pub job_found-kept :
      (oj : Option Job) (body : Job → Method A)
      → ((job : Job) → oj ≡ some job → P (body job s).1)
      → P (job_found oj body s).1
  job_found-kept none body h = kept
  job_found-kept (some job) body h = h job refl

  pub current_found-kept :
      (or : Option Run) (body : Run → Method A)
      → ((run : Run) → or ≡ some run → P (body run s).1)
      → P (current_found or body s).1
  current_found-kept none body h = kept
  current_found-kept (some run) body h = h run refl

  pub round_found-kept :
      (oe : Option Outbox) (oj : Option Job) (body : Outbox → Job → Method A)
      → ((entry : Outbox) (job : Job) → oe ≡ some entry → oj ≡ some job → P (body entry job s).1)
      → P (round_found oe oj body s).1
  round_found-kept none oj body h = kept
  round_found-kept (some entry) none body h = kept
  round_found-kept (some entry) (some job) body h = h entry job refl refl

  pub entry_found-kept :
      (oe : Option Outbox) (body : Outbox → Method A)
      → ((entry : Outbox) → oe ≡ some entry → P (body entry s).1)
      → P (entry_found oe body s).1
  entry_found-kept none body h = kept
  entry_found-kept (some entry) body h = h entry refl

  pub job_of-kept :
      (oj : Option Job) (body : Job → Method A)
      → ((job : Job) → oj ≡ some job → P (body job s).1)
      → P (job_of oj body s).1
  job_of-kept none body h = kept
  job_of-kept (some job) body h = h job refl

module _ {A B : Type 0} (P : Store → Type 0) (s : Store) (kept : P s) where
  pub with_current-kept :
      (j : ℕ) (check : Job → Result B) (body : Job → Run → Method A)
      → ((job : Job) (run : Run)
          → get s.jobs j ≡ some job
          → get s.runs (j, job.current_run_id) ≡ some run
          → P (body job run s).1)
      → P (with_current j check body s).1
  with_current-kept j check body h = job_found-kept P s kept (get s.jobs j) _ (λ job hj.
      commit-kept P s kept (check job) _ (λ _ _.
        current_found-kept P s kept (get s.runs (j, job.current_run_id)) (body job)
          (λ run hr. h job run hj hr)))
