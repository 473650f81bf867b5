-- ===== src/JobStore/Steps/Outcomes.antt =====
-- `finish` of job_store.py keeps the store sound and its past.
use newtaipei_appraisal_revi.Prelude.{
  ℕ, ◌≡◌, ◌∙◌, inl, inr, true, Option, none, some, List, nat_eq, pair_eq, beq-cases, Bool-cases,
  arith,
}
use newtaipei_appraisal_revi.Prelude.Dict.{Dict, get, get-put_ne}
use newtaipei_appraisal_revi.Faults.{Fault, Result-cases, ok, err, ServiceProblem}
use newtaipei_appraisal_revi.JobState.{JobPolicy, JobEvent}
use newtaipei_appraisal_revi.JobStore.Model.{Job, Run, ResultReference, ClaimedAttempt, Store}
use newtaipei_appraisal_revi.JobStore.Lease.{holds_lease}
use newtaipei_appraisal_revi.JobStore.Finish.{
  finish_objects, finish, stored_results, finish_event, commit_if_published, is_publication,
  commit_result,
}
use newtaipei_appraisal_revi.JobStore.Consistent.{finish_objects-IsConsistent}
use newtaipei_appraisal_revi.JobStore.Evolution.{finish_objects-Evolution}
use newtaipei_appraisal_revi.JobStore.Sound.{IsSound}
use newtaipei_appraisal_revi.JobStore.Steps.Leases.{holds_lease-is_some}
use newtaipei_appraisal_revi.JobStore.Steps.{
  Follows, Follows-refl, with_objects-Follows, commit-Follows, found-IsConsistent, write-Follows,
  holder-current,
}

-- A finished attempt held its lease, and what it published had no reference before.
finish_held :
    (p : JobPolicy) (job : Job) (run : Run) (results : Dict (ℕ × ℕ) ResultReference)
    (attempt : ClaimedAttempt) (event : JobEvent) (now : ℕ) (problem : Option ServiceProblem)
    (tasks : List ℕ) (result : Option ResultReference) {objects : Job × Run}
    → finish_objects p results attempt event now problem tasks result job run ≡ ok objects
    → (holds_lease attempt job run ≡ true)
      × ((c : Run) × (commit_if_published results event run attempt result ≡ ok c))
unfolding finish_objects
finish_held p job run results attempt event now problem tasks result h =
    elim (Result-cases (commit_if_published results event run attempt result)) [
      | inl refused ↦ absurd (unfinished refused)
      | inr done ↦ (ground arith, done)
    ]
  where
    unfinished : ((e : Fault) × (commit_if_published results event run attempt result ≡ err e)) → ⊥
    unfinished refused = ground arith

committed_new :
    (results : Dict (ℕ × ℕ) ResultReference) (event : JobEvent) (run : Run)
    (attempt : ClaimedAttempt) (result : ResultReference) {c : Run}
    → commit_if_published results event run attempt (some result) ≡ ok c
    → get results (result.run_id, result.result_version) ≡ none
unfolding commit_if_published commit_result
committed_new results event run attempt result h = ground arith

stored_results-kept :
    (results : Dict (ℕ × ℕ) ResultReference) (event : JobEvent) (run : Run)
    (attempt : ClaimedAttempt) (result : Option ResultReference) {c : Run}
    → commit_if_published results event run attempt result ≡ ok c
    → (k : ℕ × ℕ) (ref : ResultReference) → get results k ≡ some ref
    → get (stored_results results event result) k ≡ some ref
unfolding stored_results
stored_results-kept results event run attempt none h k ref old = old
stored_results-kept results event run attempt (some result) h k ref old =
    elim (Bool-cases (is_publication event)) [
      | inr other ↦ rw other old
      | inl published ↦ elim (beq-cases {A = ℕ × ℕ} (result.run_id, result.result_version) k) [
        | inl e ↦
            let taken : get results (result.run_id, result.result_version) ≡ some ref = rw e old in
            absurd (cc (committed_new results event run attempt result h, taken))
        | inr n ↦
            rw published
              (get-put_ne results (result.run_id, result.result_version) k result n ∙ old)
      ]
    ]

pub finish-Follows :
    (attempt : ClaimedAttempt) (event : JobEvent) (now : ℕ) (problem : Option ServiceProblem)
    (tasks : List ℕ) (result : Option ResultReference) (s : Store)
    → IsSound s
    → Follows s (finish attempt event now problem tasks result s).1
unfolding finish
finish-Follows attempt event now problem tasks result s sound =
    elim (Bool-cases (finish_event event)) [
      | inr bad ↦ rw bad (Follows-refl sound)
      | inl fine ↦ rw fine (
          with_objects-Follows s sound attempt.job_id attempt.run_id _ (λ job run hj hr.
            commit-Follows s sound _ _ (λ objects done.
              let (held, (c, committed)) =
                finish_held s.policy job run s.results attempt event now problem tasks result
                  done in
              let here =
                holder-current s sound attempt.job_id attempt.run_id hj hr
                  (inl (holds_lease-is_some attempt job run held)) in
              write-Follows s sound attempt.job_id attempt.run_id hj hr here objects.0 objects.1
                (finish_objects-IsConsistent s.policy s.results attempt event now problem tasks
                  result fine done
                  (found-IsConsistent s sound attempt.job_id attempt.run_id hj hr here))
                (finish_objects-Evolution s.policy s.results attempt event now problem tasks result
                  fine done)
                _ _ (stored_results-kept s.results event run attempt result committed))))
    ]
