-- ===== src/JobStore/Steps/Management.antt =====
-- `cancel`, `schedule_retry`, `reject_human_task` and `resume_after_human` of job_store.py keep the
-- store sound and its past.
use newtaipei_appraisal_revi.Prelude.{
  ℕ, ◌≡◌, refl, ◌∙◌, subst, ◌⊎◌, inr, Bool, true, false, some, nat_eq, pair_eq, is_some, arith,
}
use newtaipei_appraisal_revi.Prelude.Dict.{get, put, get-put_self}
use newtaipei_appraisal_revi.Faults.{ok}
use newtaipei_appraisal_revi.JobContracts.{running, same_status}
use newtaipei_appraisal_revi.JobState.{JobPolicy, next_state}
use newtaipei_appraisal_revi.JobStore.Model.{Job, Run, Store}
use newtaipei_appraisal_revi.JobStore.Read.{facts_of}
use newtaipei_appraisal_revi.JobStore.Consistent.{IsConsistent}
use newtaipei_appraisal_revi.JobStore.Evolution.{Evolution}
use newtaipei_appraisal_revi.JobStore.Sound.{IsSound}
use newtaipei_appraisal_revi.JobStore.Steps.{
  Follows, Follows-trans, commit-Follows, found-IsConsistent, write-Follows, enqueue-Follows,
}
use newtaipei_appraisal_revi.JobContracts.{RunReference}
use newtaipei_appraisal_revi.JobStore.Manage.{
  cancel, schedule_retry, reject_human_task, resume_objects, resume_after_human, unchecked,
}
use newtaipei_appraisal_revi.JobStore.Consistent.{
  cancel_objects-IsConsistent, retry_objects-IsConsistent, reject_objects-IsConsistent,
  resume_objects-IsConsistent,
}
use newtaipei_appraisal_revi.JobStore.Evolution.{
  Evolution-aside, cancel_objects-Evolution, retry_objects-Evolution, reject_objects-Evolution,
  resume_objects-Evolution,
}
use newtaipei_appraisal_revi.JobStore.Sound.{put-Sound}
use newtaipei_appraisal_revi.JobStore.History.{put-Evolved}
use newtaipei_appraisal_revi.JobStore.Steps.{with_current-Follows}

pub cancel-Follows : (job_id now : ℕ) (s : Store) → IsSound s → Follows s (cancel job_id now s).1
unfolding cancel
cancel-Follows job_id now s sound = with_current-Follows s sound job_id _ _ (λ job run hj hr.
    commit-Follows s sound _ _ (λ objects done.
      write-Follows s sound job_id job.current_run_id hj hr refl objects.0 objects.1
        (cancel_objects-IsConsistent s.policy now done
          (found-IsConsistent s sound job_id job.current_run_id hj hr refl))
        (cancel_objects-Evolution s.policy now done) _ _ (λ k ref h. h)))

pub schedule_retry-Follows :
    (job_id available_at token now : ℕ) (s : Store)
    → IsSound s
    → Follows s (schedule_retry job_id available_at token now s).1
unfolding schedule_retry
schedule_retry-Follows job_id available_at token now s sound =
    with_current-Follows s sound job_id _ _ (λ job run hj hr.
      commit-Follows s sound _ _ (λ objects done.
        let c = found-IsConsistent s sound job_id job.current_run_id hj hr refl in
        let written =
          write-Follows s sound job_id job.current_run_id hj hr refl objects.0 objects.1
            (retry_objects-IsConsistent s.policy now done c)
            (retry_objects-Evolution s.policy now done c) s.attempts s.results (λ k ref h. h) in
        Follows-trans written (
          enqueue-Follows _ written.sound job_id job.current_run_id available_at token
            (get-put_self s.jobs job_id objects.0))))

pub reject_human_task-Follows :
    (job_id run_id task_id now : ℕ) (s : Store)
    → IsSound s
    → Follows s (reject_human_task job_id run_id task_id now s).1
unfolding reject_human_task
reject_human_task-Follows job_id run_id task_id now s sound =
    with_current-Follows s sound job_id _ _ (λ job run hj hr.
      commit-Follows s sound _ _ (λ objects done.
        write-Follows s sound job_id job.current_run_id hj hr refl objects.0 objects.1
          (reject_objects-IsConsistent s.policy task_id now done
            (found-IsConsistent s sound job_id job.current_run_id hj hr refl))
          (reject_objects-Evolution s.policy task_id now done) _ _ (λ k ref h. h)))

-- The job waited, the new run is the one that the caller names, and it was not stored before.
resume_fresh :
    (p : JobPolicy) (known : Bool) (r : RunReference) (now : ℕ) (job : Job) (run : Run) {job' : Job}
    {run' : Run}
    → resume_objects p known r now job run ≡ ok (job', run')
    → (same_status job.status running ≡ false)
      × (known ≡ false)
      × (job'.job_id ≡ job.job_id)
      × (job'.current_run_id ≡ r.run_id)
unfolding resume_objects next_state facts_of
resume_fresh p known r now job run h = ground arith

-- A job that did not run takes a new run as its current one.
handover-Follows :
    (s : Store) (sound : IsSound s) (j r : ℕ) {job : Job} (job' : Job) (run' : Run)
    → get s.jobs j ≡ some job
    → is_some (get s.runs (j, r)) ≡ false
    → same_status job.status running ≡ false
    → job'.job_id ≡ j
    → job'.current_run_id ≡ r
    → IsConsistent s.policy job' run'
    → ((other : Run) → Evolution job other job' other)
    → Follows s (record s { jobs = put s.jobs j job'; runs = put s.runs (j, r) run' })
handover-Follows s sound j r {job} job' run' hj new resting id current c grow = record {
  sound = put-Sound sound j r job' run' id current c rested;
  past = record {
    policy = refl;
    pairs = put-Evolved s.jobs s.runs j r job' run' grown;
    results = λ k ref h. h;
    keys = λ k known h. h;
  };
}
  where
    rested :
        (old : Job)
        → get s.jobs j ≡ some old
        → (old.current_run_id ≡ r) ⊎ (same_status old.status running ≡ false)
    rested old h =
        let same : job ≡ old = cc (hj, h) in
        inr (subst (λ (o : Job). same_status o.status running ≡ false) same resting)

    unknown : (run : Run) → get s.runs (j, r) ≡ some run → ⊥
    unknown run h = let taken : is_some (get s.runs (j, r)) ≡ true = rw h in cc (taken, new)

    grown :
        (old : Job)
        → get s.jobs j ≡ some old
        → ((run : Run) → get s.runs (j, r) ≡ some run → Evolution old run job' run')
          × ((other : Run) → Evolution old other job' other)
    grown old h =
        let same : job ≡ old = cc (hj, h) in
        (
          λ run hr. absurd (unknown run hr),
          λ other. subst (λ o. Evolution o other job' other) same (grow other),
        )

pub resume_after_human-Follows :
    (job_id : ℕ) (r : RunReference) (token now : ℕ) (s : Store)
    → IsSound s
    → Follows s (resume_after_human job_id r token now s).1
unfolding resume_after_human
resume_after_human-Follows job_id r token now s sound =
    with_current-Follows s sound job_id unchecked _ (λ job run hj hr.
      commit-Follows s sound _ _ (λ objects done.
        let known = is_some (get s.runs (job_id, r.run_id)) in
        let c = found-IsConsistent s sound job_id job.current_run_id hj hr refl in
        let (resting, new, id, current) = resume_fresh s.policy known r now job run done in
        let grown = resume_objects-Evolution s.policy known r now done c in
        let written =
          handover-Follows s sound job_id r.run_id objects.0 objects.1 hj new resting
            (id ∙ (sound.each_job job_id job hj).keyed) current
            (resume_objects-IsConsistent s.policy known r now done c)
            (λ other. Evolution-aside other grown) in
        Follows-trans written (
          enqueue-Follows _ written.sound job_id r.run_id now token
            (get-put_self s.jobs job_id objects.0))))
