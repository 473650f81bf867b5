-- ===== src/HumanTasks/Witness.antt =====
-- The theorems on the human-task store and its service, applied to two tasks that wait.
use newtaipei_appraisal_revi.Prelude.{
  ℕ, List, ◌≡◌, refl, none, some, [], ◌∷◌, ◌++◌, nat_eq, pair_eq, string_eq, text_pair_eq,
}
use newtaipei_appraisal_revi.Prelude.Dict.{get, put}
use newtaipei_appraisal_revi.Faults.{ok, err, condition_failed}
use newtaipei_appraisal_revi.JobState.{next_state}
use newtaipei_appraisal_revi.ServiceGuards.{require, has_case, has_permission}
use newtaipei_appraisal_revi.JobStore.Model.{empty_store}
use newtaipei_appraisal_revi.JobStore.Read.{
  job_record, record_of, enqueue, facts_of, release, read_job,
}
use newtaipei_appraisal_revi.JobStore.Lease
use newtaipei_appraisal_revi.JobStore.Finish
use newtaipei_appraisal_revi.JobStore.Submit
use newtaipei_appraisal_revi.JobStore.Manage.{resume_after_human}
use newtaipei_appraisal_revi.JobStore.Schedule.{run_calls}
use newtaipei_appraisal_revi.JobStore.Scenario.{after_calls}
use newtaipei_appraisal_revi.HumanTasks.{
  ChainedRevision, JobMeta, TaskStore, restate, supersede, stale_ids, is_stale, committed_effect,
}
use newtaipei_appraisal_revi.HumanTasks.Validation.{
  task_authority, action_payload, permission_of, action_of,
}
use newtaipei_appraisal_revi.HumanTasks.Commit.{applied, apply, moved}
use newtaipei_appraisal_revi.HumanTasks.Commit
use newtaipei_appraisal_revi.HumanTasks.Seed.{registered, conflicting_task, same_task}
use newtaipei_appraisal_revi.HumanTasks.Seed
use newtaipei_appraisal_revi.HumanTasks.Reads.{task_record, read_task, read_snapshot, read_receipt}
use newtaipei_appraisal_revi.HumanTasks.Atomic.{commit_response-restores}
use newtaipei_appraisal_revi.HumanTasks.Runs.{
  Operation, run, empty_tasks, commit_response-replays, commit_response-answers_once,
}
use newtaipei_appraisal_revi.HumanTasks.Chain.{IsLinked}
use newtaipei_appraisal_revi.HumanTasks.History.{seed-starts, run-IsLinked}
use newtaipei_appraisal_revi.HumanTasks.Admission.{is_outdated, admit_response, response_digest}
use newtaipei_appraisal_revi.HumanTasks.Authority.{IsAuthorized, admit_response-IsAuthorized}
use newtaipei_appraisal_revi.HumanTasks.Service.{
  authorized_job, visible, authorized, next_revision, respond,
}
use newtaipei_appraisal_revi.HumanTasks.Replay.{retried, respond-replays}
use newtaipei_appraisal_revi.HumanTasks.Scenario.{
  waiting_calls, old_head, question, old_snapshot, next_snapshot, before, store, command, response,
  expected_receipt, answerer, digest_of, new_material, alone, later,
}

abbrev after : TaskStore
after = (Commit.commit_response (response "k") (some next_snapshot) "d" 30 20 200 store).1

response-committed :
    Commit.commit_response (response "k") (some next_snapshot) "d" 30 20 200 store
    ≡ (ok expected_receipt, after)
unfolding Commit.commit_response moved apply applied supersede stale_ids is_stale restate
    committed_effect resume_after_human run_calls empty_store get put job_record record_of enqueue
    facts_of release next_state require has_case has_permission Submit.create_job Lease.claim
    Lease.holds_lease Finish.finish Finish.commit_if_published Seed.seed conflicting_task registered
    same_task
response-committed = refl

unused : get store.receipts ("ann", "k") ≡ none
unfolding Commit.commit_response moved apply applied supersede stale_ids is_stale restate
    committed_effect resume_after_human run_calls empty_store get put job_record record_of enqueue
    facts_of release next_state require has_case has_permission Submit.create_job Lease.claim
    Lease.holds_lease Finish.finish Finish.commit_if_published Seed.seed conflicting_task registered
    same_task
unused = refl

other-unused : get (run later after).receipts ("ann", "k3") ≡ none
unfolding Commit.commit_response moved apply applied supersede stale_ids is_stale restate
    committed_effect resume_after_human run_calls empty_store get put job_record record_of enqueue
    facts_of release next_state require has_case has_permission Submit.create_job Lease.claim
    Lease.holds_lease Finish.finish Finish.commit_if_published Seed.seed conflicting_task registered
    same_task
other-unused = refl

commit_response-replays_example :
    Commit.commit_response (response "k") none "d" 40 21 201 (run later after)
    ≡ (ok expected_receipt, run later after)
commit_response-replays_example =
    commit_response-replays (after_calls waiting_calls) before (response "k") (some next_snapshot)
      "d" 30 20 200 unused response-committed later (response "k") "d" refl none 40 21 201 refl refl

commit_response-answers_once_example :
    Commit.commit_response (response "k3") (some next_snapshot) "e" 40 21 201 (run later after)
    ≡ (err condition_failed, run later after)
commit_response-answers_once_example =
    commit_response-answers_once (after_calls waiting_calls) before (response "k")
      (some next_snapshot) "d" 30 20 200 unused response-committed later (response "k3") "e" refl
      (some next_snapshot) 40 21 201 other-unused

-- A job store that knows no such job refuses.
abbrev unknown_job : TaskStore
unknown_job = run before (empty_tasks (after_calls []))

abbrev after_refusal : TaskStore
after_refusal =
    (Commit.commit_response (response "k") (some next_snapshot) "d" 30 20 200 unknown_job).1

response-refused :
    Commit.commit_response (response "k") (some next_snapshot) "d" 30 20 200 unknown_job
    ≡ (err condition_failed, after_refusal)
unfolding Commit.commit_response moved apply applied supersede stale_ids is_stale restate
    committed_effect resume_after_human run_calls empty_store get put job_record record_of enqueue
    facts_of release next_state require has_case has_permission Submit.create_job Lease.claim
    Lease.holds_lease Finish.finish Finish.commit_if_published Seed.seed conflicting_task registered
    same_task
response-refused = refl

commit_response-restores_example : after_refusal ≡ record unknown_job { jobs = after_refusal.jobs }
commit_response-restores_example =
    commit_response-restores unknown_job (response "k") (some next_snapshot) "d" 30 20 200
      response-refused

abbrev answering : List Operation
answering = Operation.commit_response (response "k") (some next_snapshot) "d" 30 20 200 ∷ []

run-IsLinked_example :
    IsLinked store
    × IsLinked (run answering store)
    × ((job_id : ℕ) (meta : JobMeta) (rows : List ChainedRevision)
        → get store.job_meta job_id ≡ some meta
        → get store.chain job_id ≡ some rows
        → (more : List ChainedRevision) × (get (run answering store).chain job_id
            ≡ some (rows ++ more)))
run-IsLinked_example = run-IsLinked before answering (after_calls waiting_calls)

-- The answer has added its revision to the registered one.
chain_answered :
    get (run answering store).chain 1 ≡ some (old_snapshot.revision ∷ next_snapshot.revision ∷ [])
unfolding Commit.commit_response moved apply applied supersede stale_ids is_stale restate
    committed_effect resume_after_human run_calls empty_store get put job_record record_of enqueue
    facts_of release next_state require has_case has_permission Submit.create_job Lease.claim
    Lease.holds_lease Finish.finish Finish.commit_if_published Seed.seed conflicting_task registered
    same_task
chain_answered = refl

empty_store_of_tasks : get (empty_tasks (after_calls waiting_calls)).job_meta 1 ≡ none
unfolding get
empty_store_of_tasks = refl

registered_tasks :
    Seed.seed 1 "ann" old_snapshot
      (question 9 ∷ question 11 ∷ [])
      (empty_tasks (after_calls waiting_calls))
    ≡ (ok tt, store)
unfolding Seed.seed conflicting_task registered same_task get put
registered_tasks = refl

seed-starts_example :
    (more : List ChainedRevision) × (get (run answering store).chain 1
      ≡ some (old_snapshot.revision ∷ more))
seed-starts_example =
    seed-starts 1 "ann" old_snapshot (question 9 ∷ question 11 ∷ [])
      (empty_tasks (after_calls waiting_calls)) store answering empty_store_of_tasks
      registered_tasks

response-admitted : admit_response (question 9) (command "k") answerer old_head ≡ ok (response "k")
unfolding require has_case has_permission task_authority action_payload permission_of action_of
    is_outdated admit_response
response-admitted = refl

admit_response-IsAuthorized_example :
    (response "k" ≡ record { command = command "k"; actor = answerer.actor })
    × IsAuthorized (question 9) (command "k") answerer old_head
admit_response-IsAuthorized_example =
    admit_response-IsAuthorized (question 9) (command "k") answerer old_head (response "k")
      response-admitted

abbrev answered_store : TaskStore
answered_store =
    (respond digest_of new_material answerer 9 (command "k") "r2" 30 20 200 alone store).1

request-answered :
    respond digest_of new_material answerer 9 (command "k") "r2" 30 20 200 alone store
    ≡ (ok expected_receipt, answered_store)
unfolding Commit.commit_response moved apply applied supersede stale_ids is_stale restate
    committed_effect resume_after_human run_calls empty_store get put job_record record_of enqueue
    facts_of release next_state require has_case has_permission Submit.create_job Lease.claim
    Lease.holds_lease Finish.finish Finish.commit_if_published Seed.seed conflicting_task registered
    same_task task_authority action_payload permission_of action_of is_outdated admit_response
    response_digest task_record read_task read_snapshot read_receipt authorized_job visible
    authorized next_revision respond read_job
request-answered = refl

respond-replays_example :
    respond digest_of new_material answerer 9
      (command "k")
      "r3"
      50
      22
      202
      alone
      (run later answered_store)
    ≡ retried expected_receipt [] (authorized answerer 9 alone (run later answered_store))
respond-replays_example =
    respond-replays digest_of new_material answerer 9 (command "k") "r2" 30 20 200 alone store
      request-answered later "r3" 50 22 202 alone
