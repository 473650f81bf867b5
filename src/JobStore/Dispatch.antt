-- ===== src/JobStore/Dispatch.antt =====
-- The outbox of job_store.py: `mark_dispatched`, `reschedule_dispatch` and the bounded scans.
use newtaipei_appraisal_revi.Prelude.{
  ℕ, ◌+◌, Bool, true, false, not, ◌&&◌, ◌||◌, Option, none, some, List, [], ◌∷◌, map, ltb, leb, eqb,
  take, select, if◌then◌else◌, pair_eq, nat_eq,
}
use newtaipei_appraisal_revi.Prelude.Dict.{Dict, get, put, values}
use newtaipei_appraisal_revi.Faults.{
  Result, ok, err, ◌>>=◌, condition_failed, key_error, value_error,
}
use newtaipei_appraisal_revi.JobContracts.{
  queued, running, retryable_failed, same_status, terminal_status,
}
use newtaipei_appraisal_revi.JobState.{Transition, next_state, dispatch_succeeded, dispatch_failed}
use newtaipei_appraisal_revi.JobStore.Model.{
  Job, Run, Outbox, DispatchState, pending, sent, abandoned, DispatchRecord, ExpiredLease,
  JobRecord, Store, Method,
}
use newtaipei_appraisal_revi.JobStore.Read.{facts_of, answer, job_record}
use newtaipei_appraisal_revi.JobStore.Lease.{commit}
use newtaipei_appraisal_revi.JobStore.Manage.{current_found}

abbrev pub is_pending : DispatchState → Bool
is_pending pending = true
is_pending _ = false

-- The round is pending, and the caller's token is the round's.
abbrev pub round_open : Outbox → DispatchRecord → Bool
round_open entry round =
    not
      (not (eqb entry.dispatch_token round.dispatch_token) || not (is_pending entry.dispatch_state))

-- `if entry is None or job is None: raise ConditionFailed(...)`
abbrev pub round_found :
    {A : Type 0} → Option Outbox → Option Job → (Outbox → Job → Method A) → Method A
round_found (some entry) (some job) body s = body entry job s
round_found _ _ body s = (err condition_failed, s)

abbrev pub set_round : DispatchRecord → Outbox → Store → Store
set_round round entry s = record s { outbox = put s.outbox (round.job_id, round.outbox_seq) entry }

-- The status of a queued job, and the label of the round's run. The job object has its new status
-- before the run is looked up.
unfoldable pub mark_queued : DispatchRecord → Outbox → Job → ℕ → Transition → Method JobRecord
mark_queued round entry job now transition s =
    let job' = record job { status = transition.status } in
    current_found (get s.runs (job.job_id, entry.run_id))
      (λ run _.
        let job'' = record job' { updated_at = now } in
        answer job'' (record s {
          jobs = put s.jobs round.job_id job'';
          runs =
              put s.runs (job.job_id, entry.run_id) (record run { run_status = transition.status });
        }))
      (record s { jobs = put s.jobs round.job_id job' })

-- The entry is marked before the job is looked at, so it stays marked where a later step raises.
unfoldable pub mark_dispatched : DispatchRecord → ℕ → Method JobRecord
unfolding mark_queued
mark_dispatched round now s =
    round_found (get s.outbox (round.job_id, round.outbox_seq)) (get s.jobs round.job_id)
      (λ entry job _.
        if not (round_open entry round)
        then (err condition_failed, s)
        else let marked = set_round round (record entry { dispatch_state = sent }) s in
          if same_status job.status queued
          then commit (next_state s.policy (facts_of job) dispatch_succeeded)
              (mark_queued round entry job now) marked
          else let job' = record job { updated_at = now } in
            answer job' (record marked { jobs = put s.jobs round.job_id job' }))
      s

abbrev pub entry_found : {A : Type 0} → Option Outbox → (Outbox → Method A) → Method A
entry_found none body s = (err condition_failed, s)
entry_found (some entry) body s = body entry s

-- `self._jobs[record.job_id]`
abbrev pub job_of : {A : Type 0} → Option Job → (Job → Method A) → Method A
job_of none body s = (err key_error, s)
job_of (some job) body s = body job s

unfoldable pub reschedule_dispatch : DispatchRecord → ℕ → Method Bool
reschedule_dispatch round available_at s =
    entry_found (get s.outbox (round.job_id, round.outbox_seq))
      (λ entry _.
        if not (round_open entry round)
        then (err condition_failed, s)
        else job_of (get s.jobs round.job_id)
            (λ job _.
              if terminal_status job.status
              then (ok false, set_round round (record entry { dispatch_state = abandoned }) s)
              else commit (next_state s.policy (facts_of job) dispatch_failed)
                  (λ _ _. (
                    ok true,
                    set_round round
                        (record entry {
                          available_at = available_at;
                          dispatch_attempts = entry.dispatch_attempts + 1;
                        })
                        s,
                  ))
                  s)
            s)
      s

-- A stable sort by a test `le`, as `list.sort` with a key.
module _ {A : Type 0} (le : A → A → Bool) where
  abbrev pub insert_sorted : A → List A → List A
  insert_sorted x [] = x ∷ []
  insert_sorted x (y ∷ ys) =
      let rest = insert_sorted x ys in if le x y then x ∷ y ∷ ys else y ∷ rest

  abbrev pub sort_by : List A → List A
  sort_by [] = []
  sort_by (x ∷ xs) = insert_sorted x (sort_by xs)

abbrev pub due_before : Outbox → Outbox → Bool
due_before a b =
    if eqb a.available_at b.available_at
    then leb a.outbox_seq b.outbox_seq
    else ltb a.available_at b.available_at

abbrev pub round_of : Outbox → DispatchRecord
round_of e = record {
  job_id = e.job_id;
  run_id = e.run_id;
  outbox_seq = e.outbox_seq;
  dispatch_token = e.dispatch_token;
  available_at = e.available_at;
  dispatch_attempts = e.dispatch_attempts;
}

unfoldable pub pending_dispatches : ℕ → ℕ → Store → Result (List DispatchRecord)
pending_dispatches now limit s =
    if ltb limit 1
    then err value_error
    else ok (
        map round_of (
          take limit (
            sort_by due_before (
              select (λ e. is_pending e.dispatch_state && leb e.available_at now)
                (values s.outbox)))))

abbrev updated_earlier : Job → Job → Bool
updated_earlier a b = leb a.updated_at b.updated_at

-- `tuple(self._record(job) for job in jobs)`
abbrev all_records : Store → List Job → Result (List JobRecord)
all_records s [] = ok []
all_records s (job ∷ jobs) = do
  rest ← all_records s jobs
  first ← job_record s job
  ok (first ∷ rest)

unfoldable pub stranded_retryables : ℕ → ℕ → Store → Result (List JobRecord)
stranded_retryables stranded_before limit s =
    if ltb limit 1
    then err value_error
    else all_records s (
        take limit (
          sort_by updated_earlier (
            select
              (λ job. same_status job.status retryable_failed && leb job.updated_at stranded_before)
              (values s.jobs))))

abbrev expiry : ExpiredLease → ℕ
expiry lease = lease.lease_expires_at

-- The expired leases of `runs`, in their order; a run whose job is missing raises.
unfoldable lapsed_runs : ℕ → Dict ℕ Job → Dict (ℕ × ℕ) Run → Result (List ExpiredLease)
lapsed_runs now jobs [] = ok []
lapsed_runs now jobs (((job_id, run_id), run) ∷ runs) =
    let rest = lapsed_runs now jobs runs in
    elim run.lease_expires_at [
      | none ↦ rest
      | some t ↦ if not (leb t now) then rest else elim (get jobs job_id) [
        | none ↦ err key_error
        | some job ↦
            if same_status job.status running
            then (do
              later ← rest
              ok (
                  record {
                    job_id = job_id;
                    run_id = run.run_id;
                    fencing_token = run.fencing_token;
                    lease_expires_at = t;
                  }
                  ∷ later))
            else rest
      ]
    ]

unfoldable pub expired_leases : ℕ → ℕ → Store → Result (List ExpiredLease)
unfolding lapsed_runs
expired_leases now limit s = if ltb limit 1 then err value_error else do
  expired ← lapsed_runs now s.jobs s.runs
  ok (take limit (sort_by (λ a b. leb (expiry a) (expiry b)) expired))
