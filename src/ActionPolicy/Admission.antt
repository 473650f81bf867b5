-- ===== src/ActionPolicy/Admission.antt =====
-- `admit_action` of src/appraisal_review/application/service_guards.py: the executor's check of a
-- proposal against the snapshot and the allowed actions.
use newtaipei_appraisal_revi.Prelude.{
  ℕ, ◌+◌, ◌-◌, String, Bool, true, false, not, ◌&&◌, ◌||◌, Option, some, List, [], ◌∷◌, ltb, select,
  ◌==◌, string_eq, nat_eq, option_eq, is_in, all_in, same_list,
}
use newtaipei_appraisal_revi.Faults.{
  Result, ok, err, ◌>>=◌, ◌>>◌, reject_if, service_fault, value_error, unauthorized, conflict,
  capability,
}
use newtaipei_appraisal_revi.ServiceGuards.{ActorKind, model, ActorReference, DocumentReference}
use newtaipei_appraisal_revi.ActionContracts.{
  ActionKind, state_eq, action_eq, prerequisite_eq, purpose_eq, actor_eq,
}
use newtaipei_appraisal_revi.ActionContracts.Snapshot.{
  SourceCitation, WorkflowBlocker, WorkflowSnapshot, AllowedAction, AllowedActionSet, same_run,
  valid_snapshot, valid_set, revision_eq, rule_eq, document_eq, citation_eq,
}
use newtaipei_appraisal_revi.ActionContracts.Proposals.{
  ActionArguments, extract_page, inspect_reference, request_human_review, deterministic_review,
  ActionProposal, typed_proposal,
}

abbrev pub same_actor : ActorReference → ActorReference → Bool
same_actor a b = a.actor_id == b.actor_id && a.kind == b.kind

-- The proposal, the snapshot and the allowed actions are about one another.
abbrev pub is_current : String → ActionProposal → WorkflowSnapshot → AllowedActionSet → Bool
is_current digest proposal s allowed =
    same_run proposal.run s.run
    && proposal.snapshot_digest == digest
    && proposal.policy_version == allowed.policy_version
    && proposal.snapshot_digest == allowed.snapshot_digest
    && s.revision.reference == allowed.revision
    && same_list s.revision.documents allowed.documents
    && same_list s.revision.rules allowed.rules

abbrev pub only_match : List AllowedAction → Result AllowedAction
only_match (a ∷ []) = ok a
only_match _ = err (service_fault unauthorized)

abbrev pub match_of : String → ActionKind → List AllowedAction → Result AllowedAction
match_of action_id action actions =
    only_match (select (λ a. a.action_id == action_id && a.action == action) actions)

abbrev pub permitted : ActorReference → ActorReference → WorkflowSnapshot → AllowedAction → Bool
permitted proposer executor s a =
    is_in s.state a.permitted_states
    && all_in a.prerequisites s.satisfied_prerequisites
    && is_in proposer.kind a.proposer_kinds
    && is_in executor.kind a.executor_kinds
    && a.revision == s.revision.reference
    && same_list a.rules s.revision.rules

-- What a proposal of a model cost beyond one call.
abbrev pub required_model_calls : ActorKind → Option ℕ → ℕ → ℕ
required_model_calls model (some n) cost = n
required_model_calls _ _ cost = cost

abbrev pub provider_retries : ActorKind → Option ℕ → ℕ
provider_retries model (some n) = n - 1
provider_retries _ _ = 0

abbrev pub within_budget : ActionProposal → WorkflowSnapshot → AllowedAction → Bool
within_budget proposal s a =
    let kind = proposal.proposer.kind in
    not (
      ltb s.budget.steps_remaining a.cost.steps
      || ltb s.budget.model_calls_remaining
          (required_model_calls kind proposal.attempt_count a.cost.model_calls)
      || ltb s.budget.retries_remaining
          (a.cost.retries + provider_retries kind proposal.attempt_count))

abbrev pub source_fits : DocumentReference → WorkflowSnapshot → AllowedAction → Bool
source_fits document s a =
    is_in document s.revision.documents && is_in document.purpose a.permitted_document_purposes

-- The citation's document is one of the revision's.
abbrev cites : SourceCitation → List DocumentReference → Bool
cites c [] = false
cites c (d ∷ ds) =
    c.document_id == d.document_id && c.version == d.version && c.content_hash == d.content_hash
    || cites c ds

abbrev supported : List SourceCitation → List DocumentReference → List SourceCitation → Bool
supported [] documents evidence = true
supported (c ∷ cs) documents evidence =
    cites c documents && is_in c evidence && supported cs documents evidence

abbrev one_blocker : List WorkflowBlocker → List SourceCitation → List DocumentReference → Bool
one_blocker (b ∷ []) evidence documents = supported evidence documents b.evidence
one_blocker _ evidence documents = false

abbrev pub arguments_fit : ActionArguments → WorkflowSnapshot → AllowedAction → Bool
arguments_fit (extract_page x) s a = source_fits x.document s a
arguments_fit (inspect_reference x) s a = source_fits x.document s a
arguments_fit (deterministic_review x) s a =
    x.revision == s.revision.reference && same_list x.rules s.revision.rules
arguments_fit (request_human_review x) s a =
    one_blocker
      (select
        (λ b.
          b.reason_code == x.reason_code && same_list b.affected_subject_ids x.affected_subject_ids)
        s.unresolved_blockers)
      x.evidence s.revision.documents

-- The digest of a snapshot is a parameter. The action is returned, for what is said of it.
module _ (content_digest : WorkflowSnapshot → String) where
  unfoldable pub admitted_action :
      ActionProposal
      → ActorReference
      → ActorReference
      → WorkflowSnapshot
      → AllowedActionSet
      → Result AllowedAction
  admitted_action proposal proposer executor s allowed = do
    reject_if (not (typed_proposal proposal && valid_snapshot s && valid_set allowed)) value_error
    reject_if (not (same_actor proposal.proposer proposer)) (service_fault unauthorized)
    reject_if (not (is_current (content_digest s) proposal s allowed)) (service_fault conflict)
    a ← match_of proposal.action_id proposal.action allowed.actions
    reject_if (not (permitted proposer executor s a)) (service_fault unauthorized)
    reject_if (not (within_budget proposal s a)) (service_fault capability)
    reject_if (not (arguments_fit proposal.arguments s a)) (service_fault unauthorized)
    ok a

  unfoldable pub admit_action :
      ActionProposal
      → ActorReference
      → ActorReference
      → WorkflowSnapshot
      → AllowedActionSet
      → Result (Unit {0})
  unfolding admitted_action
  admit_action proposal proposer executor s allowed = do
    _ ← admitted_action proposal proposer executor s allowed
    ok tt
