-- ===== src/JobStore/Routed/Rules.antt =====
-- The rules of JobStore/Rules for the predicate that the outbox covers the jobs.
use newtaipei_appraisal_revi.Prelude.{
  ℕ, ◌≡◌, Bool, true, false, some, nat_eq, pair_eq, if◌then◌else◌,
}
use newtaipei_appraisal_revi.Prelude.Dict.{get}
use newtaipei_appraisal_revi.Faults.{Result, ok}
use newtaipei_appraisal_revi.JobStore.Model.{Job, Run, Store, Method}
use newtaipei_appraisal_revi.JobStore.Lease.{with_objects, commit}
use newtaipei_appraisal_revi.JobStore.Manage.{with_current}
use newtaipei_appraisal_revi.JobStore.Rules.{
  with_objects-kept, commit-kept, if-kept, with_current-kept,
}
use newtaipei_appraisal_revi.JobStore.Routed.{IsRouted}

module _ {A : Type 0} (s : Store) (h : IsRouted s) where
  pub with_objects-IsRouted :
      (j r : ℕ) (body : Job → Run → Method A)
      → ((job : Job) (run : Run)
          → get s.jobs j ≡ some job
          → get s.runs (j, r) ≡ some run
          → IsRouted (body job run s).1)
      → IsRouted (with_objects j r body s).1
  with_objects-IsRouted = with_objects-kept IsRouted s h

  pub commit-IsRouted :
      {B : Type 0} (r : Result B) (body : B → Method A)
      → ((b : B) → r ≡ ok b → IsRouted (body b s).1)
      → IsRouted (commit r body s).1
  commit-IsRouted = commit-kept IsRouted s h

  pub if-IsRouted :
      (b : Bool) (x y : Result A × Store)
      → (b ≡ true → IsRouted x.1)
      → (b ≡ false → IsRouted y.1)
      → IsRouted (if b then x else y).1
  if-IsRouted = if-kept IsRouted s h

  pub with_current-IsRouted :
      {B : Type 0} (j : ℕ) (check : Job → Result B) (body : Job → Run → Method A)
      → ((job : Job) (run : Run)
          → get s.jobs j ≡ some job
          → get s.runs (j, job.current_run_id) ≡ some run
          → IsRouted (body job run s).1)
      → IsRouted (with_current j check body s).1
  with_current-IsRouted = with_current-kept IsRouted s h
