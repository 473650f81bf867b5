-- ===== src/Outbox/Witness.antt =====
-- The theorems on the outbox passes at a store with one submitted job.
use newtaipei_appraisal_revi.Prelude.{
  ◌∷◌, ◌+◌, ℕ, String, ◌<◌, ◌≡◌, refl, some, List, [], length, arith, nat_eq, pair_eq,
}
use newtaipei_appraisal_revi.Prelude.Dict.{get, put, values}
use newtaipei_appraisal_revi.Faults.{ok, err, condition_failed}
use newtaipei_appraisal_revi.JobContracts.{JobStatus}
use newtaipei_appraisal_revi.JobState.{next_state}
use newtaipei_appraisal_revi.JobState.Policy.{backoff_seconds}
use newtaipei_appraisal_revi.ServiceGuards.{require, has_case, has_permission}
use newtaipei_appraisal_revi.JobStore.Model.{Job, Outbox, DispatchRecord, pending, empty_store}
use newtaipei_appraisal_revi.JobStore.Read.{job_record, record_of, enqueue, facts_of}
use newtaipei_appraisal_revi.JobStore.Submit
use newtaipei_appraisal_revi.JobStore.Dispatch.{
  pending_dispatches, mark_dispatched, mark_queued, reschedule_dispatch,
}
use newtaipei_appraisal_revi.JobStore.Schedule.{Call, run_calls}
use newtaipei_appraisal_revi.JobStore.Scenario.{
  same_text, material_of, default_policy, default_policy-valid, submitted, publishing, after_calls,
  sound, room,
}
use newtaipei_appraisal_revi.JobStore.Routed.{IsRouted}
use newtaipei_appraisal_revi.JobStore.Routed.Reachable.{run_calls-IsRouted}
use newtaipei_appraisal_revi.ReviewJobs.{ServiceResult}
use newtaipei_appraisal_revi.ReviewJobs.Service.{Service}
use newtaipei_appraisal_revi.ReviewJobs.Operation.{claim, perform, perform_all}
use newtaipei_appraisal_revi.ReviewJobs.Operation
use newtaipei_appraisal_revi.ReviewJobs.Reconciler.{
  due_dispatches, confirm_dispatch, defer_dispatch,
}
use newtaipei_appraisal_revi.Outbox.{
  Turn, accepted, refused, DispatchOutcome, dispatch_round, dispatch_rounds, run_once,
}
use newtaipei_appraisal_revi.Outbox.Counts.{handled, run_once-handled}
use newtaipei_appraisal_revi.Outbox.Delivery.{run_once-delivers}
use newtaipei_appraisal_revi.Outbox.Accepted.{run_once-returns}

abbrev label_of : ServiceResult → String
label_of body = body.artifact_status

abbrev service : Service
service = record { policy = default_policy; store = after_calls submitted; bodies = [] }

abbrev accepting : ℕ → Turn
accepting k = record {
  enqueued_at = 9;
  now = 10;
  others = [];
  jitter = λ delay. 0;
  answer = λ m. accepted;
}

abbrev refusing : ℕ → Turn
refusing k = record {
  enqueued_at = 9;
  now = 10;
  others = [];
  jitter = λ delay. 0;
  answer = λ m. refused;
}

abbrev one_sent : DispatchOutcome
one_sent = record { sent = 1; deferred = 0; superseded = 0; abandoned = 0 }

run_calls-IsRouted_example :
    IsRouted (run_calls same_text material_of publishing (empty_store default_policy))
run_calls-IsRouted_example =
    run_calls-IsRouted same_text material_of default_policy publishing default_policy-valid

routed : (cs : List Call) → IsRouted (after_calls cs)
routed cs = run_calls-IsRouted same_text material_of default_policy cs default_policy-valid

one_sent_run : (run_once same_text material_of label_of 25 10 accepting service).0 ≡ ok one_sent
unfolding run_once perform_all dispatch_rounds dispatch_round due_dispatches confirm_dispatch
    pending_dispatches mark_dispatched mark_queued run_calls empty_store get put job_record
    record_of enqueue facts_of Submit.create_job next_state require has_case has_permission
one_sent_run = refl

run_once-handled_example :
    (rounds : List DispatchRecord) × (due_dispatches 25 10 service ≡ ok rounds)
    × (handled one_sent ≡ length rounds)
run_once-handled_example =
    run_once-handled same_text material_of label_of 25 10 accepting service one_sent_run

outbox_size : length (values service.store.outbox) ≡ 1
unfolding run_calls empty_store get put enqueue Submit.create_job next_state require has_case
    has_permission
outbox_size = refl

run_once-delivers_example :
    ((counts : DispatchOutcome) × ((run_once same_text material_of label_of 25 10 accepting
          service).0
        ≡ ok counts))
    × ((j : ℕ) (job : Job)
        → get (run_once same_text material_of label_of 25 10 accepting service).1.store.jobs j
          ≡ some job
        → job.status ≡ JobStatus.queued
        → (e : Outbox) × (get
              (run_once same_text material_of label_of 25 10 accepting service).1.store.outbox
              (j, job.outbox_seq)
            ≡ some e)
          × (e.dispatch_state ≡ pending)
          × (e.run_id ≡ job.current_run_id)
          × (10 < e.available_at))
run_once-delivers_example =
    run_once-delivers same_text material_of label_of 25 10 accepting service (λ k m. refl)
      (λ k. refl) (sound submitted) (routed submitted) (omega arith) (rw outbox_size (omega arith))

-- A worker claims the job while the queue is asked.
abbrev interrupted : ℕ → Turn
interrupted k = record {
  enqueued_at = 9;
  now = 10;
  others = claim 1 10 7 50 9 ∷ [];
  jitter = λ delay. 0;
  answer = λ m. accepted;
}

run_once-returns_example :
    (rounds : List DispatchRecord) × (counts : DispatchOutcome) × (due_dispatches 25 10 service
      ≡ ok rounds)
    × ((run_once same_text material_of label_of 25 10 interrupted service).0 ≡ ok counts)
    × (counts.sent + counts.superseded ≡ length rounds)
    × (counts.deferred ≡ 0)
    × (counts.abandoned ≡ 0)
run_once-returns_example =
    run_once-returns same_text material_of label_of 25 10 interrupted service (λ k m. refl)
      (room submitted) (sound submitted) (routed submitted) (omega arith)

abbrev first_round : DispatchRecord
first_round = record {
  job_id = 1;
  run_id = 10;
  outbox_seq = 1;
  dispatch_token = 100;
  available_at = 5;
  dispatch_attempts = 0;
}

-- The queue refuses a message whose round another pass confirms meanwhile.
abbrev overtaken : ℕ → Turn
overtaken k = record {
  enqueued_at = 9;
  now = 10;
  others = Operation.confirm_dispatch first_round 9 ∷ [];
  jitter = λ delay. 0;
  answer = λ m. refused;
}

overtaken_run :
    (run_once same_text material_of label_of 25 10 overtaken service).0 ≡ err condition_failed
unfolding run_once perform_all perform dispatch_rounds dispatch_round due_dispatches
    confirm_dispatch defer_dispatch reschedule_dispatch backoff_seconds pending_dispatches
    mark_dispatched mark_queued run_calls empty_store get put job_record record_of enqueue facts_of
    Submit.create_job next_state require has_case has_permission
overtaken_run = refl
