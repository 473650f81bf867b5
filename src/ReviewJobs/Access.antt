-- ===== src/ReviewJobs/Access.antt =====
-- Who may see a job through `ReviewJobService` in review_jobs.py.
use newtaipei_appraisal_revi.Prelude.{
  ℕ, String, ◌≡◌, ◌≢◌, refl, inl, inr, true, false, Option, none, some, string_eq, arith, beq-cases,
}
use newtaipei_appraisal_revi.Faults.{
  Result, ok, err, ◌>>=◌, ◌>>◌, service_fault, not_found, Fault, Result-cases,
}
use newtaipei_appraisal_revi.ServiceGuards.{Principal, review, require, has_case, has_permission}
use newtaipei_appraisal_revi.JobContracts.{JobStatusView}
use newtaipei_appraisal_revi.JobStore.Model.{JobRecord}
use newtaipei_appraisal_revi.JobStore.Read.{read_job}
use newtaipei_appraisal_revi.ReviewJobs.{ServiceResult, status_view, checked_view}
use newtaipei_appraisal_revi.ReviewJobs.Service.{Service}
use newtaipei_appraisal_revi.ReviewJobs.Caller.{visible, authorized, status, result, cancel}

-- The job is absent, or belongs to another principal, or to a case that the principal cannot see.
pub data IsHidden (principal : Principal) : Option JobRecord → Type 0 where
  absent : IsHidden principal none
  foreign :
      (r : JobRecord) → r.principal_id ≢ principal.actor.actor_id → IsHidden principal (some r)
  other_case :
      (r : JobRecord) → has_case r.case_id principal.case_ids ≡ false → IsHidden principal (some r)

hidden-visible :
    (principal : Principal) (o : Option JobRecord)
    → IsHidden principal o
    → visible principal o ≡ err (service_fault not_found)
hidden-visible principal o absent = refl
hidden-visible principal o (foreign r n) =
    elim (beq-cases r.principal_id principal.actor.actor_id) [
      | inl e ↦ absurd (n e)
      | inr ne ↦ rw ne refl
    ]
hidden-visible principal o (other_case r n) =
    elim (beq-cases r.principal_id principal.actor.actor_id) [
      | inl e ↦ ground arith
      | inr ne ↦ rw ne refl
    ]

module _ (digest_of : ServiceResult → String) (principal : Principal) (job_id : ℕ) (w : Service)
    {found : Option JobRecord} (read : read_job job_id w.store ≡ ok found) where
  hidden-authorized :
      IsHidden principal found → authorized principal job_id w ≡ err (service_fault not_found)
  unfolding authorized
  hidden-authorized h = rw (read, hidden-visible principal found h)

  -- A job whose read is absent, another principal's, or of a case outside the principal's, answers every
  -- question in the same way: status, result and cancel raise not-found, and a cancel changes nothing.
  pub hidden_job :
      IsHidden principal found
      → (status principal job_id w ≡ err (service_fault not_found))
        × (result digest_of principal job_id w ≡ err (service_fault not_found))
        × ((now : ℕ) → cancel principal job_id now w ≡ (err (service_fault not_found), w))
  unfolding status result cancel
  hidden_job h =
      let refused = hidden-authorized h in
      (rw refused refl, rw refused refl, λ now. rw refused refl)

module _ (principal : Principal) (job_id : ℕ) (w : Service) where
  -- What a record that passed the checks is.
  abbrev Seen : Result (Option JobRecord) → JobRecord → Type 0
  Seen read r =
      (read ≡ ok (some r))
      × (r.principal_id ≡ principal.actor.actor_id)
      × (has_case r.case_id principal.case_ids ≡ true)
      × (has_permission review principal.permissions ≡ true)

  checked-Seen :
      (read : Result (Option JobRecord)) {r : JobRecord}
      → (read >>= λ o. visible principal o >>= λ k. require principal k.case_id review >> ok k)
        ≡ ok r
      → Seen read r
  unfolding require
  checked-Seen (err e) h = cc
  checked-Seen (ok none) h = cc
  checked-Seen (ok (some k)) h =
      ground (arith, (string_eq.beq_iff k.principal_id principal.actor.actor_id).0)

  authorized-Seen :
      {r : JobRecord} → authorized principal job_id w ≡ ok r → Seen (read_job job_id w.store) r
  unfolding authorized
  authorized-Seen h = checked-Seen (read_job job_id w.store) h

  unanswered :
      (e : Fault) (view : JobStatusView) → ◌≡◌ {A = Result JobStatusView} (err e) (ok view) → ⊥
  unanswered e view h = cc

  viewed : (r : JobRecord) (view : JobStatusView) → checked_view r ≡ ok view → view ≡ status_view r
  unfolding checked_view
  viewed r view h = ground arith

  -- A status is shown only of a stored job that the principal owns, in one of the principal's cases,
  -- under the review permission; and it is the view of that job's record.
  pub status-authorized :
      {view : JobStatusView}
      → status principal job_id w ≡ ok view
      → (r : JobRecord) × (read_job job_id w.store ≡ ok (some r))
        × (view ≡ status_view r)
        × (r.principal_id ≡ principal.actor.actor_id)
        × (has_case r.case_id principal.case_ids ≡ true)
        × (has_permission review principal.permissions ≡ true)
  unfolding status
  status-authorized {view} h = elim (Result-cases (authorized principal job_id w)) [
    | inl (e, refused) ↦ absurd (unanswered e view (rw refused at h))
    | inr (r, granted) ↦
        let (read, owner, in_case, permitted) = authorized-Seen granted in
        (r, read, viewed r view (rw granted at h), owner, in_case, permitted)
  ]
