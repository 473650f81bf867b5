-- ===== src/JobStore/Publication.antt =====
-- Publication in job_store.py: what `finish` leaves when it commits a result.
use newtaipei_appraisal_revi.Prelude.{
  ℕ, ◌≡◌, refl, sym, ap, ◌∙◌, subst, inl, true, none, some, List, [], arith, pair_eq, nat_eq,
}
use newtaipei_appraisal_revi.Prelude.Dict.{Dict, get, put, get-put_self}
use newtaipei_appraisal_revi.Faults.{Result, ok, err, ◌>>=◌}
use newtaipei_appraisal_revi.JobContracts.{succeeded}
use newtaipei_appraisal_revi.JobState.{JobPolicy, publish_result, next_state}
use newtaipei_appraisal_revi.JobStore.Model.{
  Job, Run, Attempt, ClaimedAttempt, ResultReference, JobRecord, Store,
}
use newtaipei_appraisal_revi.JobStore.Read.{
  record_of, record_found, job_record, read_job, read_found, read_result_reference, facts_of,
  release, answer,
}
use newtaipei_appraisal_revi.JobStore.Lease.{holds_lease}
use newtaipei_appraisal_revi.JobStore.Finish.{
  finish_objects, finish, commit_if_published, commit_result, stored_results, close_attempt,
}
use newtaipei_appraisal_revi.JobStore.Sound.{IsSound}
use newtaipei_appraisal_revi.JobStore.Steps.{holder-current, found-IsConsistent}
use newtaipei_appraisal_revi.JobStore.Steps.Leases.{holds_lease-is_some}
use newtaipei_appraisal_revi.JobStore.Fencing.{both_found_rule, commit_rule}

-- The objects of a publication.
record Objects (attempt : ClaimedAttempt) (reference : ResultReference) (job : Job) (run : Run)
    (objects : Job × Run) : Type 0 where
  held : holds_lease attempt job run ≡ true
  same_job : objects.0.job_id ≡ job.job_id
  same_current : objects.0.current_run_id ≡ job.current_run_id
  same_run : objects.1.run_id ≡ run.run_id
  finished : objects.0.status ≡ succeeded
  version : objects.1.result_version ≡ reference.result_version
  own : reference.run_id ≡ attempt.run_id

finish_objects-Objects :
    (p : JobPolicy) (results : Dict (ℕ × ℕ) ResultReference) (attempt : ClaimedAttempt) (now : ℕ)
    (reference : ResultReference) (job : Job) (run : Run) {objects : Job × Run}
    → finish_objects p results attempt publish_result now none [] (some reference) job run
      ≡ ok objects
    → Objects attempt reference job run objects
unfolding finish_objects commit_if_published commit_result next_state facts_of release
finish_objects-Objects p results attempt now reference job run h = record {
  held = ground arith;
  same_job = ground arith;
  same_current = ground arith;
  same_run = ground arith;
  finished = ground arith;
  version = ground arith;
  own = ground arith;
}

-- The record and the reference that a reader finds after a publication.
pub record Readable (attempt : ClaimedAttempt) (reference : ResultReference) (r : JobRecord)
    (s : Store) : Type 0 where
  pub read : read_job attempt.job_id s ≡ ok (some r)
  pub finished : r.status ≡ succeeded
  pub current : r.current_run.run_id ≡ attempt.run_id
  pub version : r.result_version ≡ reference.result_version
  pub own : reference.run_id ≡ attempt.run_id
  pub committed : read_result_reference attempt.run_id reference.result_version s ≡ some reference

abbrev IfReadable : ClaimedAttempt → ResultReference → Result JobRecord × Store → Type 0
IfReadable attempt reference (ok r, s) = Readable attempt reference r s
IfReadable attempt reference (err e, s) = Unit

answered-IfReadable :
    (attempt : ClaimedAttempt) (reference : ResultReference) (found : Result JobRecord) (s : Store)
    → ((r : JobRecord) → found ≡ ok r → Readable attempt reference r s)
    → IfReadable attempt reference (found, s)
answered-IfReadable attempt reference (ok r) s h = h r refl
answered-IfReadable attempt reference (err e) s h = tt

-- The store after a publication.
abbrev published : ClaimedAttempt → ResultReference → Store → Job × Run → List Attempt → Store
published attempt reference s objects attempts = record s {
  jobs = put s.jobs attempt.job_id objects.0;
  runs = put s.runs (attempt.job_id, attempt.run_id) objects.1;
  results = stored_results s.results publish_result (some reference);
  attempts = attempts;
}

module _ (attempt : ClaimedAttempt) (reference : ResultReference) (s : Store) (sound : IsSound s)
    (job : Job) (run : Run) (hj : get s.jobs attempt.job_id ≡ some job)
    (hr : get s.runs (attempt.job_id, attempt.run_id) ≡ some run) (objects : Job × Run)
    (o : Objects attempt reference job run objects) (attempts : List Attempt) where
  abbrev after : Store
  after = published attempt reference s objects attempts

  here : job.current_run_id ≡ attempt.run_id
  here =
      holder-current s sound attempt.job_id attempt.run_id hj hr
        (inl (holds_lease-is_some attempt job run o.held))

  record_after : job_record after objects.0 ≡ ok (record_of objects.0 objects.1)
  unfolding job_record
  record_after =
      let keyed : objects.0.job_id ≡ attempt.job_id =
        o.same_job ∙ (sound.each_job attempt.job_id job hj).keyed in
      let current : objects.0.current_run_id ≡ attempt.run_id = o.same_current ∙ here in
      ap (record_found objects.0) (
        subst (λ j. get after.runs (j, objects.0.current_run_id) ≡ some objects.1) (sym keyed)
          (subst (λ k. get after.runs (attempt.job_id, k) ≡ some objects.1) (sym current)
            (get-put_self s.runs (attempt.job_id, attempt.run_id) objects.1)))

  same_run : objects.1.run_id ≡ attempt.run_id
  same_run =
      o.same_run
      ∙ (found-IsConsistent s sound attempt.job_id attempt.run_id hj hr here).keyed
      ∙ here

  reference_after : get after.results (attempt.run_id, reference.result_version) ≡ some reference
  unfolding stored_results
  reference_after =
      subst (λ k. get after.results (k, reference.result_version) ≡ some reference) o.own
        (get-put_self s.results (reference.run_id, reference.result_version) reference)

  after-Readable :
      (r : JobRecord) → job_record after objects.0 ≡ ok r → Readable attempt reference r after
  unfolding read_job read_result_reference record_of
  after-Readable r found =
      let same : record_of objects.0 objects.1 ≡ r = cc (record_after, found) in
      record {
        read =
            ap (read_found after) (get-put_self s.jobs attempt.job_id objects.0)
            ∙ ap (λ (k : Result JobRecord). k >>= λ x. ok (some x)) found;
        finished = ap (λ (k : JobRecord). k.status) (sym same) ∙ o.finished;
        current = ap (λ (k : JobRecord). k.current_run.run_id) (sym same) ∙ same_run;
        version = ap (λ (k : JobRecord). k.result_version) (sym same) ∙ o.version;
        own = o.own;
        committed = reference_after;
      }

finish-IfReadable :
    (attempt : ClaimedAttempt) (now : ℕ) (reference : ResultReference) (s : Store)
    → IsSound s
    → IfReadable attempt reference (finish attempt publish_result now none [] (some reference) s)
unfolding finish
finish-IfReadable attempt now reference s sound =
    both_found_rule (IfReadable attempt reference) (get s.jobs attempt.job_id)
      (get s.runs (attempt.job_id, attempt.run_id)) _ s tt
      (λ job run hj hr.
        commit_rule (IfReadable attempt reference)
          (finish_objects s.policy s.results attempt publish_result now none [] (some reference) job
            run)
          (λ objects _. answer objects.0 (
            published attempt reference s objects
              (close_attempt attempt publish_result s.attempts)))
          s (λ _. tt)
          (λ objects done.
            let closed = close_attempt attempt publish_result s.attempts in
            let o = finish_objects-Objects s.policy s.results attempt now reference job run done in
            answered-IfReadable attempt reference
              (job_record (published attempt reference s objects closed) objects.0)
              (published attempt reference s objects closed)
              (after-Readable attempt reference s sound job run hj hr objects o closed)))

-- A publication that returns is committed: from a sound store, the returned record is the one that is
-- read afterwards, it has succeeded in the attempt's run at the version of the reference, and that
-- version of the run reads as the reference.
pub finish-published :
    (attempt : ClaimedAttempt) (now : ℕ) (reference : ResultReference) (s : Store) {r : JobRecord}
    {s' : Store}
    → IsSound s
    → finish attempt publish_result now none [] (some reference) s ≡ (ok r, s')
    → (read_job attempt.job_id s' ≡ ok (some r))
      × (r.status ≡ succeeded)
      × (r.current_run.run_id ≡ attempt.run_id)
      × (r.result_version ≡ reference.result_version)
      × (read_result_reference attempt.run_id reference.result_version s' ≡ some reference)
finish-published attempt now reference s {r} {s'} sound h =
    let done : Readable attempt reference r s' =
      subst (IfReadable attempt reference) h (finish-IfReadable attempt now reference s sound) in
    (done.read, done.finished, done.current, done.version, done.committed)
