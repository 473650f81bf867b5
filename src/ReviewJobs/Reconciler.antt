-- ===== src/ReviewJobs/Reconciler.antt =====
-- The reconciler's side of `ReviewJobService` in review_jobs.py: dispatch rounds, lapsed leases and
-- stranded retries.
use newtaipei_appraisal_revi.Prelude.{
  ℕ, ◌+◌, ◌-◌, suc, Bool, Option, none, some, List, [], ◌∷◌, ltb, if◌then◌else◌,
}
use newtaipei_appraisal_revi.Faults.{Result, ok, err, condition_failed, value_error}
use newtaipei_appraisal_revi.JobContracts.{retryable_failed, same_status}
use newtaipei_appraisal_revi.JobState.Policy.{backoff_seconds}
use newtaipei_appraisal_revi.JobStore.Model.{JobRecord, DispatchRecord, ExpiredLease}
use newtaipei_appraisal_revi.JobStore.Read.{read_job}
use newtaipei_appraisal_revi.JobStore.Lease
use newtaipei_appraisal_revi.JobStore.Dispatch
use newtaipei_appraisal_revi.ReviewJobs.Service.{Service, Action, and_then, on_store}
use newtaipei_appraisal_revi.ReviewJobs.Worker.{Reading, reschedule}

unfoldable pub due_dispatches : ℕ → ℕ → Service → Result (List DispatchRecord)
due_dispatches limit now w = Dispatch.pending_dispatches now limit w.store

unfoldable pub confirm_dispatch : DispatchRecord → ℕ → Action JobRecord
confirm_dispatch round now w = on_store (Dispatch.mark_dispatched round now) w

unfoldable pub defer_dispatch : DispatchRecord → ℕ → (ℕ → ℕ) → Action Bool
defer_dispatch round now jitter w =
    and_then (backoff_seconds w.policy (round.dispatch_attempts + 1), w)
      (λ delay w'. on_store (Dispatch.reschedule_dispatch round (now + delay + jitter delay)) w')

-- The value of an optimistic write, or nothing where it lost a race.
abbrev pub or_lost : {A : Type 0} → Result A × Service → Result (Option A) × Service
or_lost (err condition_failed, w) = (ok none, w)
or_lost (err e, w) = (err e, w)
or_lost (ok a, w) = (ok (some a), w)

abbrev pub taken : Option JobRecord → List JobRecord → List JobRecord
taken none rs = rs
taken (some r) rs = r ∷ rs

-- The loop over the candidates: the k-th write reads the clock and a token of its own.
unfoldable pub reclaim : List ExpiredLease → (ℕ → ℕ) → (ℕ → ℕ) → Action (List JobRecord)
reclaim [] token now w = (ok [], w)
reclaim (lease ∷ leases) token now w =
    and_then (or_lost (on_store (Lease.expire_lease lease (token 0) (now 0)) w)) (λ found w'.
      and_then (reclaim leases (λ k. token (suc k)) (λ k. now (suc k)) w')
        (λ rest w''. (ok (taken found rest), w'')))

unfoldable pub reclaim_expired_leases : ℕ → ℕ → (ℕ → ℕ) → (ℕ → ℕ) → Action (List JobRecord)
unfolding reclaim
reclaim_expired_leases limit start token now w =
    and_then (Dispatch.expired_leases start limit w.store, w)
      (λ leases w'. reclaim leases token now w')

abbrev pub stranded_record : Option JobRecord → Option JobRecord
stranded_record none = none
stranded_record (some r) = if same_status r.status retryable_failed then some r else none

abbrev pub rescheduled : Option JobRecord → Reading → Action (Option JobRecord)
rescheduled none reading w = (ok none, w)
rescheduled (some r) reading w = or_lost (reschedule r reading w)

unfoldable pub recover_retryable : ℕ → Reading → Action (Option JobRecord)
unfolding reschedule
recover_retryable job_id reading w =
    and_then (read_job job_id w.store, w)
      (λ found w'. rescheduled (stranded_record found) reading w')

abbrev counted : Option JobRecord → ℕ → ℕ
counted none n = n
counted (some r) n = n + 1

unfoldable pub recover : List JobRecord → (ℕ → Reading) → Action ℕ
unfolding recover_retryable
recover [] readings w = (ok 0, w)
recover (r ∷ rs) readings w = and_then (recover_retryable r.job_id (readings 0) w) (λ found w'.
    and_then (recover rs (λ k. readings (suc k)) w') (λ n w''. (ok (counted found n), w'')))

-- The cutoff is an integer: before the first lease period it is negative, and no job is that old.
unfoldable pub stranded_candidates : ℕ → ℕ → Service → Result (List JobRecord)
stranded_candidates limit now w =
    if ltb now w.policy.lease_seconds
    then (if ltb limit 1 then err value_error else ok [])
    else Dispatch.stranded_retryables (now - w.policy.lease_seconds) limit w.store

unfoldable pub recover_stranded_retryables : ℕ → ℕ → (ℕ → Reading) → Action ℕ
unfolding stranded_candidates recover
recover_stranded_retryables limit now readings w =
    and_then (stranded_candidates limit now w, w) (λ candidates w'. recover candidates readings w')
