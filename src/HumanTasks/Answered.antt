-- ===== src/HumanTasks/Answered.antt =====
-- The receipt that `HumanTaskService.respond` of human_tasks.py returns is stored.
use newtaipei_appraisal_revi.Prelude.{
  ℕ, String, ◌≡◌, refl, sym, ap, subst, ◌∙◌, true, Option, none, some, List, eqb, ◌==◌, nat_eq,
  string_eq, text_pair_eq, beq-cases, inl, inr, Bool-cases,
}
use newtaipei_appraisal_revi.Prelude.Dict.{get}
use newtaipei_appraisal_revi.Faults.{
  Result, ok, err, service_fault, condition_failed, value_error, key_error,
}
use newtaipei_appraisal_revi.ServiceGuards.{Principal}
use newtaipei_appraisal_revi.HumanTasks.{
  HumanTask, HumanResponse, AcceptedResponse, FactSideReference, RevisionSnapshot, ResponseReceipt,
  StoredReceipt, TaskStore,
}
use newtaipei_appraisal_revi.HumanTasks.Validation.{action_payload}
use newtaipei_appraisal_revi.HumanTasks.Reads.{TaskRecord, read_receipt}
use newtaipei_appraisal_revi.HumanTasks.Commit.{commit_response}
use newtaipei_appraisal_revi.HumanTasks.Seed.{seed-keeps}
use newtaipei_appraisal_revi.HumanTasks.Outcomes.{IfOk}
use newtaipei_appraisal_revi.HumanTasks.Consumed.{commit_response-receipts, commit_response-stores}
use newtaipei_appraisal_revi.HumanTasks.Admission.{admit_response, response_digest}
use newtaipei_appraisal_revi.HumanTasks.Authority.{admit_response-IsAuthorized}
use newtaipei_appraisal_revi.HumanTasks.Runs.{Operation, elsewhere, perform, run, run-keeps}
use newtaipei_appraisal_revi.HumanTasks.Service.{
  Action, and_then, authorized, next_revision, committed, decided, respond,
}

-- A receipt that is stored stays, whatever is run.
pub run-receipts :
    (key : String × String) (stored : StoredReceipt) (operations : List Operation) (w : TaskStore)
    → get w.receipts key ≡ some stored
    → get (run operations w).receipts key ≡ some stored
run-receipts key stored = run-keeps (λ w. get w.receipts key ≡ some stored) keeps
  where
    keeps :
        (operation : Operation) (w : TaskStore)
        → get w.receipts key ≡ some stored
        → get (perform operation w).receipts key ≡ some stored
    keeps (Operation.seed job_id principal_id snapshot tasks) w h =
        seed-keeps (λ v. get v.receipts key ≡ some stored) job_id principal_id snapshot tasks w h
          (λ same. h)
    keeps (Operation.commit_response accepted next text now run_id token) w h =
        commit_response-receipts accepted next text now run_id token w key stored h
    keeps (elsewhere jobs) w h = h

-- The receipt is stored under the principal and the key, with the payload of the command.
abbrev pub Stored :
    (HumanResponse → String) → Principal → HumanResponse → ResponseReceipt → TaskStore → Type 0
Stored content_digest principal command receipt v =
    get v.receipts (principal.actor.actor_id, command.idempotency_key)
    ≡ some (record { payload_digest = response_digest content_digest command; receipt = receipt })

module _ (P : ResponseReceipt → TaskStore → Type 0) where
  and_then-IfOk :
      {A : Type 0} (done : Result A × TaskStore) (rest : A → Action ResponseReceipt)
      → ((a : A) (v : TaskStore) → done.0 ≡ ok a → IfOk P (rest a v))
      → IfOk P (and_then done rest)
  and_then-IfOk (err e, w) rest h = tt
  and_then-IfOk (ok a, w) rest h = h a w refl

module _ (content_digest : HumanResponse → String)
    (revise : RevisionSnapshot
      → HumanTask
      → FactSideReference
      → AcceptedResponse
      → String
      → Result RevisionSnapshot) where
  committed-IfOk :
      (P : ResponseReceipt → TaskStore → Type 0) (done : Result ResponseReceipt × TaskStore)
      → IfOk P done
      → IfOk P (committed done)
  committed-IfOk P (ok r, w) h = h
  committed-IfOk P (err condition_failed, w) h = tt
  committed-IfOk P (err (service_fault code), w) h = tt
  committed-IfOk P (err value_error, w) h = tt
  committed-IfOk P (err key_error, w) h = tt

  module _ (principal : Principal) (task_id : ℕ) (command : HumanResponse) where
    module _ (revision_id : String) (now run_id token : ℕ) (turns : ℕ → List Operation) where
      decided-IfStored :
          (found : Option StoredReceipt) (r : TaskRecord) (w : TaskStore)
          → get w.receipts (principal.actor.actor_id, command.idempotency_key) ≡ found
          → IfOk (Stored content_digest principal command) (
              decided content_digest revise principal task_id command revision_id now run_id token
                turns found r w)
      decided-IfStored (some stored) r w used =
          elim (beq-cases stored.payload_digest (response_digest content_digest command)) [
            | inl same ↦
                let test : (stored.payload_digest == response_digest content_digest command)
                    ≡ true =
                  (string_eq.beq_iff stored.payload_digest
                      (response_digest content_digest command)).1
                    same in
                rw test (used ∙ ap (λ d. some (record stored { payload_digest = d })) same)
            | inr other ↦ rw other tt
          ]
      decided-IfStored none r w unused =
          and_then-IfOk (Stored content_digest principal command)
            (admit_response r.task command principal r.current_revision, w) _
            (λ accepted v at.
              and_then-IfOk (Stored content_digest principal command)
                (next_revision content_digest revise r accepted revision_id (turns 3) v) _
                (λ next u done. committed-IfOk (Stored content_digest principal command) _ (
                  subst
                    (λ a. IfOk (Stored content_digest principal command) (
                      commit_response a next (response_digest content_digest command) now run_id
                        token (run (turns 4) u)))
                    (sym
                      (admit_response-IsAuthorized r.task command principal r.current_revision
                        accepted at).0)
                    (commit_response-stores (record { command = command; actor = principal.actor })
                      next (response_digest content_digest command) now run_id token
                      (run (turns 4) u)))))

      pub respond-IfStored :
          (w : TaskStore)
          → IfOk (Stored content_digest principal command) (
              respond content_digest revise principal task_id command revision_id now run_id token
                turns w)
      unfolding respond read_receipt
      respond-IfStored w = elim (Bool-cases (action_payload command)) [
        | inr bad ↦ rw bad tt
        | inl fine ↦ elim (Bool-cases (eqb command.task_id task_id)) [
          | inr other ↦ rw (fine, other) tt
          | inl named ↦
              rw (fine, named)
                (and_then-IfOk (Stored content_digest principal command)
                  (authorized principal task_id turns w) _
                  (λ r v at.
                    decided-IfStored
                      (get (run (turns 2) v).receipts
                        (principal.actor.actor_id, command.idempotency_key))
                      r (run (turns 2) v) refl))
        ]
      ]
