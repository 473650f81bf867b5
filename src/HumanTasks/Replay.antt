-- ===== src/HumanTasks/Replay.antt =====
-- A response that `HumanTaskService.respond` of human_tasks.py answered, sent again.
use newtaipei_appraisal_revi.Prelude.{
  ℕ, String, ◌≡◌, refl, ap, subst, true, List, eqb, nat_eq, string_eq, text_pair_eq, beq_refl, inl,
  inr, Bool-cases,
}
use newtaipei_appraisal_revi.Faults.{Result, ok, err}
use newtaipei_appraisal_revi.ServiceGuards.{Principal}
use newtaipei_appraisal_revi.JobStore.Model.{JobRecord}
use newtaipei_appraisal_revi.HumanTasks.{
  HumanTask, HumanResponse, AcceptedResponse, FactSideReference, RevisionSnapshot, ResponseReceipt,
  TaskStore,
}
use newtaipei_appraisal_revi.HumanTasks.Validation.{action_payload}
use newtaipei_appraisal_revi.HumanTasks.Reads.{TaskRecord, read_receipt}
use newtaipei_appraisal_revi.HumanTasks.Outcomes.{IfOk}
use newtaipei_appraisal_revi.HumanTasks.Admission.{response_digest}
use newtaipei_appraisal_revi.HumanTasks.Runs.{Operation, run}
use newtaipei_appraisal_revi.HumanTasks.Service.{
  and_then, read_after, authorized, authorized_job, receipt_read, respond,
}
use newtaipei_appraisal_revi.HumanTasks.Answered.{run-receipts, Stored, respond-IfStored}

-- What a request that was answered before comes to: it is authorized again, and its receipt is read.
abbrev pub retried :
    ResponseReceipt
    → List Operation
    → Result TaskRecord × TaskStore
    → Result ResponseReceipt × TaskStore
retried receipt others (err e, w) = (err e, w)
retried receipt others (ok r, w) = (ok receipt, run others w)

module _ (content_digest : HumanResponse → String)
    (revise : RevisionSnapshot
      → HumanTask
      → FactSideReference
      → AcceptedResponse
      → String
      → Result RevisionSnapshot) where
  module _ (principal : Principal) (task_id : ℕ) (command : HumanResponse)
      (receipt : ResponseReceipt) (revision_id : String) (now run_id token : ℕ)
      (turns : ℕ → List Operation) where
    authorized-Stored :
        (w : TaskStore)
        → Stored content_digest principal command receipt w
        → Stored content_digest principal command receipt (authorized principal task_id turns w).1
    unfolding authorized
    authorized-Stored w h = found _ (run (turns 0) w) (run-receipts _ _ (turns 0) w h)
      where
        located :
            (done : Result JobRecord) (r : TaskRecord) (v : TaskStore)
            → Stored content_digest principal command receipt v
            → Stored content_digest principal command receipt
                (and_then (done, v) (λ job u. (ok r, u))).1
        located (err e) r v h = h
        located (ok job) r v h = h

        found :
            (done : Result TaskRecord) (v : TaskStore)
            → Stored content_digest principal command receipt v
            → Stored content_digest principal command receipt
                (and_then
                  (done, v)
                  (λ r u.
                    and_then
                      (read_after (turns 1) (λ t. authorized_job principal r.job_id t.jobs) u)
                      (λ job t. (ok r, t)))).1
        found (err e) v h = h
        found (ok r) v h = located _ r (run (turns 1) v) (run-receipts _ _ (turns 1) v h)

    receipt_read-Stored :
        (done : Result TaskRecord × TaskStore)
        → Stored content_digest principal command receipt done.1
        → and_then done (
            receipt_read content_digest revise principal task_id command revision_id now run_id
              token turns)
          ≡ retried receipt (turns 2) done
    unfolding read_receipt
    receipt_read-Stored (err e, w) h = refl
    receipt_read-Stored (ok r, w) h =
        let at = run-receipts _ _ (turns 2) w h in
        let same = beq_refl (response_digest content_digest command) in rw (at, same) refl

    respond-Stored :
        (w : TaskStore)
        → action_payload command ≡ true
        → eqb command.task_id task_id ≡ true
        → Stored content_digest principal command receipt w
        → respond content_digest revise principal task_id command revision_id now run_id token turns
            w
          ≡ retried receipt (turns 2) (authorized principal task_id turns w)
    unfolding respond
    respond-Stored w fine named h =
        rw (fine, named)
          (receipt_read-Stored (authorized principal task_id turns w) (authorized-Stored w h))

module _ (content_digest : HumanResponse → String)
    (revise : RevisionSnapshot
      → HumanTask
      → FactSideReference
      → AcceptedResponse
      → String
      → Result RevisionSnapshot)
    (principal : Principal) (task_id : ℕ) (command : HumanResponse) (revision_id : String)
    (now run_id token : ℕ) (turns : ℕ → List Operation) (w : TaskStore) {receipt : ResponseReceipt}
    {w' : TaskStore}
    (answered : respond content_digest revise principal task_id command revision_id now run_id token
        turns w
      ≡ (ok receipt, w')) where
  accepted-command : (action_payload command ≡ true) × (eqb command.task_id task_id ≡ true)
  unfolding respond
  accepted-command = elim (Bool-cases (action_payload command)) [
    | inr bad ↦ absurd (cc (ap (λ done. done.0) (rw bad at answered)))
    | inl fine ↦ elim (Bool-cases (eqb command.task_id task_id)) [
      | inr other ↦ absurd (cc (ap (λ done. done.0) (rw (fine, other) at answered)))
      | inl named ↦ (fine, named)
    ]
  ]

  -- Where a request is answered with a receipt, whatever other operations run between its steps, and after any
  -- further operations, the same request of the same principal writes nothing: it is authorized again, and
  -- where it is, it is answered with the same receipt, at whatever time and whatever other operations run between its
  -- steps.
  pub respond-replays :
      (after : List Operation) (later_id : String) (later_now later_run_id later_token : ℕ)
      (later_turns : ℕ → List Operation)
      → respond content_digest revise principal task_id command later_id later_now later_run_id
          later_token later_turns
          (run after w')
        ≡ retried receipt (later_turns 2) (authorized principal task_id later_turns (run after w'))
  respond-replays after later_id later_now later_run_id later_token later_turns =
      let at = subst (IfOk (Stored content_digest principal command)) answered (
        respond-IfStored content_digest revise principal task_id command revision_id now run_id
          token turns w) in
      respond-Stored content_digest revise principal task_id command receipt later_id later_now
        later_run_id later_token later_turns (run after w') accepted-command.0 accepted-command.1
        (run-receipts _ _ after w' at)
