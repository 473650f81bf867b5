-- ===== src/ReviewJobs/Caller.antt =====
-- The caller's side of `ReviewJobService` in review_jobs.py: submit, status, result and cancel.
use newtaipei_appraisal_revi.Prelude.{
  ℕ, String, Bool, true, false, not, ◌||◌, Option, none, some, ltb, if◌then◌else◌, ◌==◌, string_eq,
  pair_eq, nat_eq,
}
use newtaipei_appraisal_revi.Prelude.Dict.{get}
use newtaipei_appraisal_revi.Faults.{
  Result, ok, err, ◌>>=◌, ◌>>◌, reject_if, service_fault, condition_failed, value_error, conflict,
  not_found, execution,
}
use newtaipei_appraisal_revi.JobContracts.{JobStatusView}
use newtaipei_appraisal_revi.ServiceGuards.{Principal, ReviewSubmission, review, require, has_case}
use newtaipei_appraisal_revi.JobStore.Model.{JobRecord, ResultReference}
use newtaipei_appraisal_revi.JobStore.Read.{read_job, read_result_reference}
use newtaipei_appraisal_revi.JobStore.Submit
use newtaipei_appraisal_revi.JobStore.Manage
use newtaipei_appraisal_revi.ReviewJobs.{
  ServiceResult, JobAcceptance, SubmissionOutcome, checked_view, same_case,
}
use newtaipei_appraisal_revi.ReviewJobs.Service.{Service, Action, and_then, on_store}

-- The answer to a submission: a replay shows the status, a new job is accepted.
unfoldable pub outcome : JobRecord → Bool → Result SubmissionOutcome
unfolding same_case
outcome r created = do
  view ← checked_view r
  let acceptance : JobAcceptance = record { job = view.job; run = r.current_run }
  if not created
      then ok (record { created = false; status = view; acceptance = none })
      else if same_case acceptance
      then ok (record { created = true; status = view; acceptance = some acceptance })
      else err value_error

module _ (sha256 : String → String) (content_digest : ReviewSubmission → String) where
  -- `job_id`, `run_id` and `token` are the fresh identifiers.
  unfoldable pub submit : Principal → ReviewSubmission → ℕ → ℕ → ℕ → ℕ → Action SubmissionOutcome
  submit principal submission job_id run_id token now w =
      and_then
        (on_store
          (Submit.create_job sha256 content_digest principal submission job_id run_id token now) w)
        (λ answer w'. (outcome answer.0 answer.1, w'))

abbrev pub visible : Principal → Option JobRecord → Result JobRecord
visible principal none = err (service_fault not_found)
visible principal (some r) =
    if not (r.principal_id == principal.actor.actor_id)
      || not (has_case r.case_id principal.case_ids)
    then err (service_fault not_found)
    else ok r

-- `_authorized`
unfoldable pub authorized : Principal → ℕ → Service → Result JobRecord
authorized principal job_id w = do
  found ← read_job job_id w.store
  r ← visible principal found
  require principal r.case_id review
  ok r

unfoldable pub status : Principal → ℕ → Service → Result JobStatusView
unfolding authorized
status principal job_id w = do r ← authorized principal job_id w; checked_view r

module _ (digest_of : ServiceResult → String) where
  -- A body is served only where a reference pins its digest.
  abbrev pub verified : Option ResultReference → Option ServiceResult → Result ServiceResult
  verified (some reference) (some body) =
      if digest_of body == reference.result_digest then ok body else err (service_fault execution)
  verified _ _ = err (service_fault execution)

  unfoldable pub result : Principal → ℕ → Service → Result ServiceResult
  unfolding authorized
  result principal job_id w = do
    r ← authorized principal job_id w
    reject_if (ltb r.result_version 1) (service_fault conflict)
    verified (read_result_reference r.current_run.run_id r.result_version w.store)
        (get w.bodies (r.current_run.run_id, r.result_version))

-- `except ConditionFailed as failure: raise ServiceFault(CONFLICT) from failure`
abbrev pub as_conflict : {A : Type 0} → Result A × Service → Result A × Service
as_conflict (err condition_failed, w) = (err (service_fault conflict), w)
as_conflict (err e, w) = (err e, w)
as_conflict (ok a, w) = (ok a, w)

unfoldable pub cancel : Principal → ℕ → ℕ → Action JobStatusView
unfolding authorized
cancel principal job_id now w =
    and_then (authorized principal job_id w, w)
      (λ r w₁. as_conflict (
        and_then (on_store (Manage.cancel r.job_id now) w₁)
          (λ cancelled w₂. (checked_view cancelled, w₂))))
