-- ===== src/JobStore/Finality.antt =====
-- What job_store.py never takes back: the record of a finished job, and a pending cancel.
use newtaipei_appraisal_revi.Prelude.{
  ℕ, ◌≤◌, String, ◌≡◌, sym, ap, ◌∙◌, subst, true, some, List, arith, nat_eq, pair_eq, string_eq,
}
use newtaipei_appraisal_revi.Prelude.Dict.{get}
use newtaipei_appraisal_revi.Faults.{ok, err, condition_failed}
use newtaipei_appraisal_revi.JobContracts.{terminal_status, cancel_pending_status}
use newtaipei_appraisal_revi.JobState.{JobPolicy}
use newtaipei_appraisal_revi.ServiceGuards.{ReviewSubmission}
use newtaipei_appraisal_revi.JobStore.Model.{Job, Run, JobRecord, Store}
use newtaipei_appraisal_revi.JobStore.Read.{record_of, read_job}
use newtaipei_appraisal_revi.JobStore.Lease.{claim}
use newtaipei_appraisal_revi.JobStore.Consistent.{IsConsistent}
use newtaipei_appraisal_revi.JobStore.Evolution.{Evolution}
use newtaipei_appraisal_revi.JobStore.Sound.{IsSound, JobIsSound, current-IsConsistent}
use newtaipei_appraisal_revi.JobStore.History.{After}
use newtaipei_appraisal_revi.JobStore.Steps.{Follows}
use newtaipei_appraisal_revi.JobStore.Steps.Submission.{HasRoom}
use newtaipei_appraisal_revi.JobStore.Schedule.{Call, run_calls, run_calls-Follows}
use newtaipei_appraisal_revi.JobStore.Guarantees.{Reads, read_job-Reads, read_job-stored}
use newtaipei_appraisal_revi.JobStore.Refusals.{pending_unclaimable, claim_refused}

final_record :
    {job job' : Job} {run run' : Run}
    → Evolution job run job' run'
    → terminal_status job.status ≡ true
    → record_of job' run' ≡ record_of job run
unfolding record_of
final_record e done = ground arith

notice_record :
    {p : JobPolicy} {job job' : Job} {run run' : Run} {r : JobRecord}
    → Evolution job run job' run'
    → r ≡ record_of job run
    → job.cancel_requested ≡ true
    → IsConsistent p job' run'
    → ((record_of job' run').cancel_requested ≡ true)
      × ((record_of job' run').current_run.run_id ≡ r.current_run.run_id)
      × (cancel_pending_status (record_of job' run').status ≡ true)
unfolding record_of
notice_record e recorded asked c = ground arith

-- The next read of a job, after more calls.
module _ (sha256 : String → String) (content_digest : ReviewSubmission → String) (cs : List Call)
    (job_id : ℕ) (s : Store) {r : JobRecord} (room : HasRoom s.policy) (sound : IsSound s)
    (read : read_job job_id s ≡ ok (some r)) where
  abbrev later : Store
  later = run_calls sha256 content_digest cs s

  reads_now : Reads s job_id r
  reads_now = read_job-Reads job_id s sound read

  follows : Follows s later
  follows = run_calls-Follows sha256 content_digest cs s room sound

  after :
      After later.jobs later.runs job_id reads_now.job.current_run_id reads_now.job reads_now.run
  after =
      follows.past.pairs job_id reads_now.job.current_run_id reads_now.job reads_now.run
        reads_now.job_stored reads_now.run_stored

  later_sound : JobIsSound later.policy later.runs job_id after.later_job
  later_sound = follows.sound.each_job job_id after.later_job after.job_stored

  -- Where the job keeps its run, the next record is that of the evolved job and run.
  read_later :
      after.later_job.current_run_id ≡ reads_now.job.current_run_id
      → read_job job_id later ≡ ok (some (record_of after.later_job after.later_run))
  read_later kept =
      let found : get later.runs (job_id, after.later_job.current_run_id) ≡ some after.later_run =
        subst (λ k. get later.runs (job_id, k) ≡ some after.later_run) (sym kept)
          after.run_stored in
      let same : later_sound.current ≡ after.later_run = cc (later_sound.stored, found) in
      read_job-stored later job_id after.later_job later_sound after.job_stored
      ∙ ap (λ run. ok (some (record_of after.later_job run))) same

  final_now : terminal_status r.status ≡ true → terminal_status reads_now.job.status ≡ true
  unfolding record_of
  final_now done =
      subst (λ (k : JobRecord). terminal_status k.status ≡ true) reads_now.recorded done

  -- From a sound store whose policy leaves room for an attempt and a takeover: the record of a finished
  -- job never changes again, whatever calls follow.
  pub terminal-read_job : terminal_status r.status ≡ true → read_job job_id later ≡ ok (some r)
  terminal-read_job done =
      let ended = final_now done in
      read_later (after.evolution.final ended).2
      ∙ ap (λ k. ok (some k)) (final_record after.evolution ended ∙ sym reads_now.recorded)

  notice_now : r.cancel_requested ≡ true → reads_now.job.cancel_requested ≡ true
  unfolding record_of
  notice_now asked = subst (λ (k : JobRecord). k.cancel_requested ≡ true) reads_now.recorded asked

  later-IsConsistent :
      after.later_job.current_run_id ≡ reads_now.job.current_run_id
      → IsConsistent later.policy after.later_job after.later_run
  later-IsConsistent kept =
      current-IsConsistent job_id follows.sound after.job_stored
        (subst (λ k. get later.runs (job_id, k) ≡ some after.later_run) (sym kept) after.run_stored)

  -- From a sound store whose policy leaves room for an attempt and a takeover: a job under a pending
  -- cancel keeps the request and its run, whatever calls follow: it is
  -- running or has ended, so the work is not handed on.
  pub cancel_requested-kept :
      r.cancel_requested ≡ true
      → (r' : JobRecord) × (read_job job_id later ≡ ok (some r'))
        × (r'.cancel_requested ≡ true)
        × (r'.current_run.run_id ≡ r.current_run.run_id)
        × (cancel_pending_status r'.status ≡ true)
  cancel_requested-kept asked =
      let under_notice = notice_now asked in
      let kept = (after.evolution.notice under_notice).1 in
      let (still, same, pending) =
        notice_record after.evolution reads_now.recorded under_notice (later-IsConsistent kept) in
      (record_of after.later_job after.later_run, read_later kept, still, same, pending)

  -- From a sound store whose policy leaves room for an attempt and a takeover: under a pending cancel
  -- every claim of at least one second is refused, whatever calls come first, and changes nothing.
  pub cancel_requested-claim :
      (run_id owner lease_seconds attempt_id now : ℕ)
      → r.cancel_requested ≡ true
      → 1 ≤ lease_seconds
      → claim job_id run_id owner lease_seconds attempt_id now later ≡ (err condition_failed, later)
  cancel_requested-claim run_id owner lease_seconds attempt_id now asked long =
      let (still, kept, token) = after.evolution.notice (notice_now asked) in
      claim_refused job_id run_id owner lease_seconds attempt_id now later after.job_stored
        (pending_unclaimable after.later_job.status ((later-IsConsistent kept).cancel still)) long
