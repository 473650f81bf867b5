-- ===== src/Lib.antt =====
-- Durable review jobs, their store and service, and the factor rules that a review evaluates.
--
-- The program reviews land appraisal reports. A submission becomes a durable job; workers claim the
-- job's current run under a lease, work on it and finish the attempt; a dispatcher sends outbox
-- rounds; a reconciler takes lapsed leases back; people answer or reject tasks, and an answer starts
-- a new run on a new revision. The parts and their files:
--
--   * Prelude (Tests, Lists, Keys, Dict, Sets, Texts): Boolean tests, lists, keys with a decidable
--     test, insertion-ordered dictionaries, lists as sets, and texts.
--   * Faults: the exceptions as values. A method returns its outcome beside the state it leaves,
--     also where it raises.
--   * JobContracts: src/appraisal_review/domain/job_contracts.py, with the references of
--     domain/service_contracts.py: JobStatus, the status sets, `wire_status`, `honest_status`.
--   * JobState (Policy, Laws): src/appraisal_review/application/job_state.py. `next_state` calls
--     `decide` after the two guards; `valid_policy` is `__post_init__`; `backoff_seconds` as named.
--     Laws states the lifecycle as a relation, `Move`.
--   * ServiceGuards: `Principal.require`, `submission_digest` and `check_idempotency` of
--     src/appraisal_review/application/service_guards.py.
--   * JobStore: src/appraisal_review/adapters/local/job_store.py and the values of ports/jobs.py.
--     Model is the state; Read, Submit, Lease, Finish, Manage and Dispatch are the methods under
--     their own names. A method looks its objects up, a pure function (`claim_objects`,
--     `finish_objects`, ...) computes their successors or the exception, and the method stores them:
--     the source changes the shared objects in place after its last check, so no exception leaves a
--     half-changed object, save where the model writes the partial change out (`mark_queued`).
--     Rules has what each way of looking objects up keeps.
--     Consistent, Evolution, Sound, Touch, History and Steps carry the invariant and the history
--     relation through each method; Schedule runs any sequence of calls; Guarantees, Finality,
--     Fencing (with Refusals and Tokens), Replays, Promises and Publication draw the consequences;
--     Scenario and Witness are a concrete run.
--   * ReviewJobs: src/appraisal_review/application/review_jobs.py. Service is the state (the policy,
--     the job store, and the bodies of `InMemoryResultStore`); Caller, Worker and Reconciler are the
--     methods of `ReviewJobService` under their own names. Operation has them as data, and Calls
--     reduces each to calls on the store;
--     Access and Delivery are about who sees what; Witness is a concrete service.
--   * Outbox: src/appraisal_review/application/outbox.py. `run_once` is the dispatcher's pass and
--     `reconcile` the reconciler's; what the queue answers to a message, what others do
--     while the dispatcher awaits that answer, the clocks and the jitter are arguments (`Turn`,
--     `PassReading`). JobStore/Routed says how the outbox covers the jobs;
--     Effects, Settled and Due are about one confirmation and about the list of due rounds; Counts,
--     Delivery and Accepted draw the consequences; Witness is a concrete pass.
--   * RuntimeWorker: src/appraisal_review/application/runtime_worker.py. `process` is one delivery, with
--     the execution's end, the clocks and what others do between the awaited calls as arguments
--     (`Passage`, `Turn`); the last of these is the wait for the task in the `finally`. Calls reduces
--     the steps to calls on the store, Answers is about what a finishing call returns, Told, Outcomes
--     and Returned about the labels; Witness is a concrete delivery.
--   * HumanTasks: src/appraisal_review/adapters/local/human_task_store.py with the values of
--     ports/human_tasks.py, domain/task_contracts.py and domain/service_contracts.py; Validation has
--     the validators of tasks and responses. Commit is `commit_response`, which runs `apply` over the
--     job store and puts the four dictionaries back where it raises; Seed is `seed`, and Reads the
--     reads. Runs has the writes as an `Operation` and runs them from an empty store, with any change
--     of the job store in between. Atomic, Outcomes, Taken and Consumed are about one response, Chain
--     and History about the revisions of a job. Admission and Authority are `admit_response` of
--     application/service_guards.py; Service is `respond` of
--     src/appraisal_review/application/human_tasks.py, with operations of others between its awaited
--     calls (`turns`), and Answered and Replay are about a request that is sent again; Scenario is a
--     job with two tasks, and Witness applies the theorems there.
--   * Factors: src/appraisal_review/domain/factor_models.py and domain/factor_engine.py. Validation
--     has the validators; Engine has `FactorRuleEngine`, with `none` for `ObservationNeedsReview`;
--     Verifier is src/appraisal_review/domain/verification.py, where the wording of the traces and
--     warnings is a parameter, and Clean and Certified are about it;
--     Coverage is about the bands, Matrix about the correction matrix, Summary about `evaluate`,
--     which leaves out the last conversion of the total to a float;
--     Witness is a concrete rule set. Floats are integers in units of one fine decimal place, and a
--     length that is converted counts millionths of that, so every conversion is exact. The text
--     normalisation `strip().casefold()` is a parameter.
--   * ActionContracts (Snapshot, Proposals): the controlled-action models of
--     domain/service_contracts.py with their validators. A `model_validate_json` of a model that is
--     built already runs its validators again.
--   * ActionPolicy: src/appraisal_review/application/action_policy.py, with `admit_action` of
--     application/service_guards.py in Admission. Registry and Actions are about the checks of the
--     registry and of one derived action, Derivation about `derive`; Authority and Acceptance join the
--     derivation and the executor's check; Witness is the default registry on one snapshot.
--   * Budget: src/appraisal_review/adapters/aws/competition_budget.py with what it reads of
--     domain/competition_profile.py. Bound is `_bound`, where the JSON decoding of a body is a
--     parameter; Ledger is the row with `budget_seed_item`, what is computed from a read row
--     (`plan_of`) and the conditional write (`update_item`); Reserve is `reserve`, whose loop has
--     the eight attempts of the source. Committed is the abstract ledger, a list of reservations;
--     Interleaving runs reads and writes of any number of workers and lists what was granted
--     (`grants`); Accounting and Alone are about one call; Witness is a concrete profile. Amounts
--     of money are natural numbers of one fine decimal place, and the least cost is compared after
--     a multiplication by a million.
--
-- Every method of the store holds one lock from its first read to its last write, so a method is
-- one step, and concurrent workers are sequences of calls. No method awaits anything under the
-- lock, so the lock is never waited for, and the in-memory stores never suspend their caller: a
-- method of the review job service is one step as well, also where it calls a store twice, as
-- `fail` (the finish, then the rescheduling) and `publish` (the body, then its reference) do; so
-- is each scan of a reconciler pass. What does suspend is a message on its way to the queue, and
-- the execution that a worker waits for: there, lists of operations of others are arguments.
-- Identifiers (UUIDs), owners, times and counters are natural numbers; a fresh `uuid4()` is an
-- argument, with no assumption that it is new. The digests (SHA-256, and the canonical JSON text
-- of a submission) are parameters, and no property assumes anything of them. The budget's loop is
-- bounded by the source; no other definition takes fuel; the worker's loop runs over a list of
-- turns, which its deadline keeps finite.
--
-- Not modelled: the pydantic round trip of a submission, which copies it; the field patterns of
-- the wire models; the messages of exceptions, calculation traces and warnings; the Runtime
-- session of a run reference, which no record carries; `require_dispatch` of the runtime worker,
-- and its own cancellation; what `_locate`, `_confirm` and `_correct` of the human-task service
-- make of the material (a parameter, which may be any function), and the views of its reads; the
-- stores on DynamoDB and SQLite, the other budgets, the workflow, document and privacy services,
-- the HTTP interface and the web client.
pub mod Prelude
pub mod Faults
pub mod JobContracts
pub mod JobState
pub mod ServiceGuards
pub mod JobStore
pub mod ReviewJobs
pub mod RuntimeWorker
pub mod HumanTasks
pub mod Outbox
pub mod ActionContracts
pub mod ActionPolicy
pub mod Factors
pub mod Budget
