-- ===== src/ReviewJobs/Service.antt =====
-- The state of `ReviewJobService` in review_jobs.py: its policy, the job store, and the bodies of
-- `InMemoryResultStore` in adapters/local/job_store.py.
use newtaipei_appraisal_revi.Prelude.{
  ℕ, String, Bool, false, not, ◌||◌, Option, none, some, eqb, if◌then◌else◌, ◌==◌, string_eq,
  pair_eq, nat_eq,
}
use newtaipei_appraisal_revi.Prelude.Dict.{Dict, get, put}
use newtaipei_appraisal_revi.Faults.{Result, ok, err, service_fault, conflict}
use newtaipei_appraisal_revi.JobState.{JobPolicy}
use newtaipei_appraisal_revi.JobStore.Model.{Store, Method}
use newtaipei_appraisal_revi.ReviewJobs.{ServiceResult}

pub record Service : Type 0 where
  pub policy : JobPolicy
  pub store : Store
  pub bodies : Dict (ℕ × ℕ) ServiceResult

abbrev pub Action : Type 0 → Type 0
Action A = Service → Result A × Service

-- A statement, and the rest of the method after it.
abbrev pub and_then : {A B : Type 0} → Result A × Service → (A → Action B) → Result B × Service
and_then (err e, w) rest = (err e, w)
and_then (ok a, w) rest = rest a w

abbrev pub on_store : {A : Type 0} → Method A → Action A
on_store method w = ((method w.store).0, record w { store = (method w.store).1 })

-- A body that was stored already is not replaced by a different one.
abbrev pub conflicting : (ServiceResult → String) → Option ServiceResult → String → Bool
conflicting digest_of none digest = false
conflicting digest_of (some stored) digest = not (digest_of stored == digest)

-- `InMemoryResultStore.put`
module _ (digest_of : ServiceResult → String) where
  unfoldable pub put_body : ℕ → ℕ → ServiceResult → Action String
  put_body run_id result_version result w =
      if not (eqb result.run_id run_id) || not (eqb result.result_version result_version)
      then (err (service_fault conflict), w)
      else if conflicting digest_of (get w.bodies (run_id, result_version)) (digest_of result)
      then (err (service_fault conflict), w)
      else (
        ok (digest_of result),
        record w { bodies = put w.bodies (run_id, result_version) result },
      )
