-- ===== src/JobStore/Steps.antt =====
-- Each method of job_store.py, from a sound store: the store stays sound, and nothing of the past is
-- lost, whether the method returns or raises.
pub mod Leases
pub mod Outcomes
pub mod Management
pub mod Rounds
pub mod Submission
use newtaipei_appraisal_revi.Prelude.{
  ℕ, ◌+◌, ◌≡◌, refl, sym, ap, ◌∙◌, subst, ◌⊎◌, inl, inr, Bool, true, false, not, Option, none, some,
  List, ◌==◌, nat_eq, pair_eq, beq-cases, is_some, Bool-cases, arith, if◌then◌else◌, ltb,
}
use newtaipei_appraisal_revi.Prelude.Dict.{Dict, get, put, get-put_self, get-put_ne}
use newtaipei_appraisal_revi.Faults.{Result, ok, err}
use newtaipei_appraisal_revi.JobContracts.{running, same_status}
use newtaipei_appraisal_revi.JobState.{JobPolicy}
use newtaipei_appraisal_revi.JobStore.Model.{
  Job, Run, Attempt, ResultReference, ClaimedAttempt, ExpiredLease, Store, Method,
}
use newtaipei_appraisal_revi.JobStore.Read.{enqueue}
use newtaipei_appraisal_revi.JobStore.Lease.{
  both_found, with_objects, commit, holds_lease, claim_objects, claim, heartbeat_objects, heartbeat,
  expire_objects, expire_lease,
}
use newtaipei_appraisal_revi.JobStore.Manage.{job_found, current_found, with_current}
use newtaipei_appraisal_revi.JobStore.Rules.{
  with_objects-kept, commit-kept, if-kept, with_current-kept,
}
use newtaipei_appraisal_revi.JobStore.Consistent.{IsConsistent, claim_objects-IsConsistent}
use newtaipei_appraisal_revi.JobStore.Evolution.{
  Evolution, Evolution-aside, claim_objects-Evolution,
}
use newtaipei_appraisal_revi.JobStore.Sound.{
  HasNoLease, RunIsSound, Sound, IsSound, current-IsConsistent, put-Sound,
}
use newtaipei_appraisal_revi.JobStore.Touch.{touch-Sound}
use newtaipei_appraisal_revi.JobStore.History.{
  Evolved, Evolved-refl, Evolves, Evolves-refl, Evolves-trans, put-Evolved, touch-Evolved,
}

pub record Follows (s s' : Store) : Type 0 where
  pub sound : IsSound s'
  pub past : Evolves s s'

pub Follows-refl : {s : Store} → IsSound s → Follows s s
Follows-refl {s} h = record { sound = h; past = Evolves-refl s }

pub Follows-trans : {s t u : Store} → Follows s t → Follows t u → Follows s u
Follows-trans a b = record { sound = b.sound; past = Evolves-trans a.past b.past }

-- The rules for the ways in which a method looks its objects up.
module _ {A : Type 0} (s : Store) (sound : IsSound s) where
  pub with_objects-Follows :
      (j r : ℕ) (body : Job → Run → Method A)
      → ((job : Job) (run : Run)
          → get s.jobs j ≡ some job
          → get s.runs (j, r) ≡ some run
          → Follows s (body job run s).1)
      → Follows s (with_objects j r body s).1
  with_objects-Follows = with_objects-kept (Follows s) s (Follows-refl sound)

  pub commit-Follows :
      {B : Type 0} (r : Result B) (body : B → Method A)
      → ((b : B) → r ≡ ok b → Follows s (body b s).1)
      → Follows s (commit r body s).1
  commit-Follows = commit-kept (Follows s) s (Follows-refl sound)

  pub if-Follows :
      (b : Bool) (x y : Result A × Store)
      → (b ≡ true → Follows s x.1)
      → (b ≡ false → Follows s y.1)
      → Follows s (if b then x else y).1
  if-Follows = if-kept (Follows s) s (Follows-refl sound)

module _ {A B : Type 0} (s : Store) (sound : IsSound s) where
  pub with_current-Follows :
      (j : ℕ) (check : Job → Result B) (body : Job → Run → Method A)
      → ((job : Job) (run : Run)
          → get s.jobs j ≡ some job
          → get s.runs (j, job.current_run_id) ≡ some run
          → Follows s (body job run s).1)
      → Follows s (with_current j check body s).1
  with_current-Follows = with_current-kept (Follows s) s (Follows-refl sound)

-- A job and its current run are stored, with the attempts and the results of the method.
module _ (s : Store) (sound : IsSound s) (j r : ℕ) {job : Job} {run : Run}
    (hj : get s.jobs j ≡ some job) (hr : get s.runs (j, r) ≡ some run)
    (current : job.current_run_id ≡ r) where
  pub found-IsConsistent : IsConsistent s.policy job run
  found-IsConsistent = current-IsConsistent j sound hj (rw current hr)

  grown :
      {job' : Job} {run' : Run} (e : Evolution job run job' run') (old : Job)
      → get s.jobs j ≡ some old
      → ((was : Run) → get s.runs (j, r) ≡ some was → Evolution old was job' run')
        × ((other : Run) → Evolution old other job' other)
  grown {job'} {run'} e old h =
      let same : job ≡ old = cc (hj, h) in
      subst
        (λ o.
          ((was : Run) → get s.runs (j, r) ≡ some was → Evolution o was job' run')
          × ((other : Run) → Evolution o other job' other))
        same (grown_here, λ other. Evolution-aside other e)
    where
      grown_here : (was : Run) → get s.runs (j, r) ≡ some was → Evolution job was job' run'
      grown_here was hw =
          let same : run ≡ was = cc (hr, hw) in subst (λ w. Evolution job w job' run') same e

  pub write-Follows :
      (job' : Job) (run' : Run)
      → IsConsistent s.policy job' run'
      → Evolution job run job' run'
      → (attempts : List Attempt) (results : Dict (ℕ × ℕ) ResultReference)
      → ((k : ℕ × ℕ) (ref : ResultReference)
          → get s.results k ≡ some ref
          → get results k ≡ some ref)
      → Follows s (record s {
        jobs = put s.jobs j job';
        runs = put s.runs (j, r) run';
        attempts = attempts;
        results = results;
      })
  write-Follows job' run' c e attempts results kept = record {
    sound =
        put-Sound sound j r job' run' (e.same_job ∙ (sound.each_job j job hj).keyed)
          (sym c.keyed ∙ e.same_run ∙ found-IsConsistent.keyed ∙ current) c still_current;
    past = record {
      policy = refl;
      pairs = put-Evolved s.jobs s.runs j r job' run' (grown e);
      results = kept;
      keys = λ k known h. h;
    };
  }
    where
      still_current :
          (old : Job)
          → get s.jobs j ≡ some old
          → (old.current_run_id ≡ r) ⊎ (same_status old.status running ≡ false)
      still_current old h =
          let same : old ≡ job = cc (hj, h) in
          inl (ap (λ (o : Job). o.current_run_id) same ∙ current)

-- A new round: the job is stored again with its sequence bumped.
pub enqueue-Follows :
    (s : Store) (sound : IsSound s) (j r available_at token : ℕ) {job : Job}
    → get s.jobs j ≡ some job
    → Follows s (enqueue job r available_at token s)
unfolding enqueue
enqueue-Follows s sound j r available_at token {job} hj =
    let id : job.job_id ≡ j = (sound.each_job j job hj).keyed in
    let here : get s.jobs job.job_id ≡ some job =
      subst (λ k. get s.jobs k ≡ some job) (sym id) hj in
    let bumped = record job { outbox_seq = job.outbox_seq + 1 } in
    record {
      sound = touch-Sound sound job.job_id bumped here refl refl (λ run c. ground arith);
      past = record {
        policy = refl;
        pairs = touch-Evolved s.jobs s.runs job.job_id bumped here (λ run. ground arith);
        results = λ k ref h. h;
        keys = λ k known h. h;
      };
    }

-- A run with a lease is the current run of its job.
pub holder-current :
    (s : Store) (sound : IsSound s) (j r : ℕ) {job : Job} {run : Run}
    → get s.jobs j ≡ some job
    → get s.runs (j, r) ≡ some run
    → (is_some run.lease_owner ≡ true) ⊎ (is_some run.lease_expires_at ≡ true)
    → job.current_run_id ≡ r
holder-current s sound j r {job} {run} hj hr held =
    let known = sound.each_run j r run hr in
    let same : known.owner ≡ job = cc (known.stored, hj) in
    elim known.idle [
      | inl here ↦ sym (ap (λ (o : Job). o.current_run_id) same) ∙ here
      | inr idle ↦ absurd (no_holder idle held)
    ]
  where
    no_holder :
        HasNoLease run
        → (is_some run.lease_owner ≡ true) ⊎ (is_some run.lease_expires_at ≡ true)
        → ⊥
    no_holder idle h = ground arith
