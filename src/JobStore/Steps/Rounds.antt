-- ===== src/JobStore/Steps/Rounds.antt =====
-- `mark_dispatched` and `reschedule_dispatch` of job_store.py keep the store sound and its past.
use newtaipei_appraisal_revi.Prelude.{
  ℕ, ◌+◌, ◌≡◌, refl, ◌∙◌, Bool, not, Option, none, some, nat_eq, pair_eq, arith,
}
use newtaipei_appraisal_revi.Prelude.Dict.{get, put}
use newtaipei_appraisal_revi.Faults.{ok}
use newtaipei_appraisal_revi.JobContracts.{same_status}
use newtaipei_appraisal_revi.JobState.{JobPolicy}
use newtaipei_appraisal_revi.JobStore.Model.{Job, Run, Store, Method}
use newtaipei_appraisal_revi.JobStore.Consistent.{IsConsistent}
use newtaipei_appraisal_revi.JobStore.Evolution.{Evolution}
use newtaipei_appraisal_revi.JobStore.Sound.{IsSound}
use newtaipei_appraisal_revi.JobStore.Steps.{
  Follows, Follows-refl, Follows-trans, commit-Follows, if-Follows,
}
use newtaipei_appraisal_revi.JobContracts.{queued, terminal_status, JobStatus, dispatched}
use newtaipei_appraisal_revi.JobState.{Transition, next_state, dispatch_succeeded, dispatch_failed}
use newtaipei_appraisal_revi.JobStore.Model.{JobRecord, Outbox, DispatchRecord, sent}
use newtaipei_appraisal_revi.JobStore.Read.{facts_of}
use newtaipei_appraisal_revi.JobStore.Manage.{current_found}
use newtaipei_appraisal_revi.JobStore.Dispatch.{
  round_found, round_open, set_round, mark_queued, mark_dispatched, entry_found, job_of,
  reschedule_dispatch,
}
use newtaipei_appraisal_revi.JobStore.Touch.{touch-Sound, relabel-Sound}
use newtaipei_appraisal_revi.JobStore.History.{touch-Evolved, relabel-Evolved, Evolved-refl}

-- The outbox is no part of what is kept.
set_round-Follows :
    (round : DispatchRecord) (entry : Outbox) (s : Store)
    → IsSound s
    → Follows s (set_round round entry s)
set_round-Follows round entry s sound = record {
  sound = sound;
  past = record {
    policy = refl;
    pairs = Evolved-refl;
    results = λ k ref h. h;
    keys = λ k known h. h;
  };
}

-- A job is stored again.
restore-Follows :
    (s : Store) (sound : IsSound s) (j : ℕ) {job : Job} (job' : Job)
    → get s.jobs j ≡ some job
    → job'.job_id ≡ job.job_id
    → job'.current_run_id ≡ job.current_run_id
    → ((run : Run) → IsConsistent s.policy job run → IsConsistent s.policy job' run)
    → ((run : Run) → Evolution job run job' run)
    → Follows s (record s { jobs = put s.jobs j job' })
restore-Follows s sound j {job} job' hj id current agree grow = record {
  sound = touch-Sound sound j job' hj (id ∙ (sound.each_job j job hj).keyed) current agree;
  past = record {
    policy = refl;
    pairs = touch-Evolved s.jobs s.runs j job' hj grow;
    results = λ k ref h. h;
    keys = λ k known h. h;
  };
}

-- The label of a stored run.
relabel-Follows :
    (s : Store) (sound : IsSound s) (j r : ℕ) {run : Run} (label : JobStatus)
    → get s.runs (j, r) ≡ some run
    → Follows s (record s { runs = put s.runs (j, r) (record run { run_status = label }) })
relabel-Follows s sound j r label hr = record {
  sound = relabel-Sound sound j r hr label;
  past = record {
    policy = refl;
    pairs = relabel-Evolved s.jobs s.runs j r hr label;
    results = λ k ref h. h;
    keys = λ k known h. h;
  };
}

current_found_cases :
    {A : Type 0} {s t : Store} (or : Option Run) (body : Run → Method A)
    → Follows s t
    → ((run : Run) → or ≡ some run → Follows s (body run t).1)
    → Follows s (current_found or body t).1
current_found_cases none body f h = f
current_found_cases (some run) body f h = h run refl

sent_status :
    (p : JobPolicy) (job : Job) {t : Transition}
    → next_state p (facts_of job) dispatch_succeeded ≡ ok t
    → (job.status ≡ queued) × (t.status ≡ dispatched)
unfolding next_state facts_of
sent_status p job h = ground arith

-- A queued job is marked dispatched.
abbrev marked_job : Job → JobStatus → ℕ → Job
marked_job job status now = record job { status = status; updated_at = now }

dispatched-IsConsistent :
    (p : JobPolicy) (job : Job) (run : Run) (status : JobStatus) (now : ℕ)
    → job.status ≡ queued
    → status ≡ dispatched
    → IsConsistent p job run
    → IsConsistent p (marked_job job status now) run
dispatched-IsConsistent p job run status now h k c = ground arith

dispatched-Evolution :
    (job : Job) (run : Run) (status : JobStatus) (now : ℕ)
    → job.status ≡ queued
    → Evolution job run (marked_job job status now) run
dispatched-Evolution job run status now h = ground arith

mark_job-Follows :
    (round : DispatchRecord) (now : ℕ) (s : Store) (sound : IsSound s) {job : Job} {t : Transition}
    → get s.jobs round.job_id ≡ some job
    → next_state s.policy (facts_of job) dispatch_succeeded ≡ ok t
    → Follows s (record s { jobs = put s.jobs round.job_id (marked_job job t.status now) })
mark_job-Follows round now s sound {job} {t} hj next =
    let (was, is) = sent_status s.policy job next in
    restore-Follows s sound round.job_id (marked_job job t.status now) hj refl refl
      (λ run c. dispatched-IsConsistent s.policy job run t.status now was is c)
      (λ run. dispatched-Evolution job run t.status now was)

mark_queued-Follows :
    (round : DispatchRecord) (entry : Outbox) (now : ℕ) (s : Store) (sound : IsSound s) {job : Job}
    {transition : Transition}
    → get s.jobs round.job_id ≡ some job
    → next_state s.policy (facts_of job) dispatch_succeeded ≡ ok transition
    → Follows s (mark_queued round entry job now transition s).1
unfolding mark_queued
mark_queued-Follows round entry now s sound {job} {transition} hj next =
    current_found_cases (get s.runs (job.job_id, entry.run_id)) _
      (mark_job-Follows round job.updated_at s sound hj next)
      (λ run hr.
        let marked = mark_job-Follows round now s sound hj next in
        Follows-trans marked
          (relabel-Follows _ marked.sound job.job_id entry.run_id transition.status hr))

pub mark_dispatched-Follows :
    (round : DispatchRecord) (now : ℕ) (s : Store)
    → IsSound s
    → Follows s (mark_dispatched round now s).1
unfolding mark_dispatched
mark_dispatched-Follows round now s sound =
    found (get s.outbox (round.job_id, round.outbox_seq)) (get s.jobs round.job_id) _ refl
      (λ entry job hj.
        if-Follows s sound (not (round_open entry round)) _ _ (λ _. Follows-refl sound)
          (λ _.
            let marked = record entry { dispatch_state = sent } in
            let first = set_round-Follows round marked s sound in
            Follows-trans first (
              if-Follows (set_round round marked s) first.sound (same_status job.status queued) _ _
                (λ _. commit-Follows (set_round round marked s) first.sound _ _ (λ t next.
                  mark_queued-Follows round entry now (set_round round marked s) first.sound hj
                    next))
                (λ _.
                  restore-Follows (set_round round marked s) first.sound round.job_id
                    (record job { updated_at = now }) hj refl refl (λ run c. ground arith)
                    (λ run. ground arith)))))
  where
    found :
        (oe : Option Outbox) (oj : Option Job) (body : Outbox → Job → Method JobRecord)
        → get s.jobs round.job_id ≡ oj
        → ((entry : Outbox) (job : Job)
            → get s.jobs round.job_id ≡ some job
            → Follows s (body entry job s).1)
        → Follows s (round_found oe oj body s).1
    found none oj body e h = Follows-refl sound
    found (some entry) none body e h = Follows-refl sound
    found (some entry) (some job) body e h = h entry job e

pub reschedule_dispatch-Follows :
    (round : DispatchRecord) (available_at : ℕ) (s : Store)
    → IsSound s
    → Follows s (reschedule_dispatch round available_at s).1
unfolding reschedule_dispatch
reschedule_dispatch-Follows round available_at s sound =
    found_entry (get s.outbox (round.job_id, round.outbox_seq)) _ (λ entry.
      if-Follows s sound (not (round_open entry round)) _ _ (λ _. Follows-refl sound)
        (λ _. found_job (get s.jobs round.job_id) _ (λ job.
          if-Follows s sound (terminal_status job.status) _ _
            (λ _. set_round-Follows round _ s sound)
            (λ _.
              commit-Follows {A = Bool} s sound (next_state s.policy (facts_of job) dispatch_failed)
                _
                (λ _ _.
                  set_round-Follows round
                    (record entry {
                      available_at = available_at;
                      dispatch_attempts = entry.dispatch_attempts + 1;
                    })
                    s sound)))))
  where
    found_entry :
        (oe : Option Outbox) (body : Outbox → Method Bool)
        → ((entry : Outbox) → Follows s (body entry s).1)
        → Follows s (entry_found oe body s).1
    found_entry none body h = Follows-refl sound
    found_entry (some entry) body h = h entry

    found_job :
        (oj : Option Job) (body : Job → Method Bool)
        → ((job : Job) → Follows s (body job s).1)
        → Follows s (job_of oj body s).1
    found_job none body h = Follows-refl sound
    found_job (some job) body h = h job
