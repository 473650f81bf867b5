-- ===== src/ActionPolicy.antt =====
-- src/appraisal_review/application/action_policy.py: the registry of action rules and the derivation
-- of the allowed actions from a snapshot. The digest of a snapshot is a parameter.
mod Registry
mod Actions
mod Derivation
mod Admission
mod Authority
mod Acceptance
mod Witness
use Prim.Native.String.{◌++◌}
use newtaipei_appraisal_revi.Prelude.{
  ℕ, String, Bool, true, false, not, ◌&&◌, ◌||◌, Option, none, some, List, [], ◌∷◌, is_empty, ltb,
  eqb, select, Eq, ◌==◌, string_eq, is_in, all_in, distinct, if◌then◌else◌,
}
use newtaipei_appraisal_revi.Faults.{Result, ok, err, ◌>>=◌, ◌>>◌, reject_if, value_error}
use newtaipei_appraisal_revi.ServiceGuards.{
  ActorKind, system, model, DocumentPurpose, criteria, forms, reference, brief, template,
}
use newtaipei_appraisal_revi.ActionContracts.{
  ActionKind, extract, inspect, human, review, WorkflowState, criteria_pending, forms_pending,
  extraction_retryable, rules_awaiting_approval, evidence_needs_review, material_ready,
  review_failed, unsupported_contexts, ActionPrerequisite, criteria_document, forms_document,
  authorized_source, criteria_parsed, forms_parsed, extraction_retry_available, rules_available,
  rules_approved, critical_evidence_available, material_complete, state_eq, action_eq,
  prerequisite_eq, purpose_eq, actor_eq,
}
use newtaipei_appraisal_revi.ActionContracts.Snapshot.{
  WorkflowSnapshot, WorkflowBlocker, AllowedAction, AllowedActionSet, sourced, purposes_of,
  bounded_authority, unambiguous_registry, valid_snapshot,
}

pub record ActionPolicyRule : Type 0 where
  pub action_id : String
  pub action : ActionKind
  pub states : List WorkflowState
  pub prerequisites : List ActionPrerequisite
  pub document_purposes : List DocumentPurpose
  pub retry_cost : ℕ
  pub requires_blockers : Bool

-- A rule for a source action, and one for another action.
abbrev source_rule :
    String
    → ActionKind
    → WorkflowState
    → List ActionPrerequisite
    → List DocumentPurpose
    → ℕ
    → ActionPolicyRule
source_rule action_id action state prerequisites purposes retry_cost = record {
  action_id = action_id;
  action = action;
  states = state ∷ [];
  prerequisites = prerequisites;
  document_purposes = purposes;
  retry_cost = retry_cost;
  requires_blockers = false;
}

abbrev plain_rule :
    String → ActionKind → WorkflowState → List ActionPrerequisite → Bool → ActionPolicyRule
plain_rule action_id action state prerequisites requires_blockers = record {
  action_id = action_id;
  action = action;
  states = state ∷ [];
  prerequisites = prerequisites;
  document_purposes = [];
  retry_cost = 0;
  requires_blockers = requires_blockers;
}

-- `DEFAULT_ACTION_RULES`
abbrev pub default_action_rules : List ActionPolicyRule
default_action_rules =
    source_rule "extract-criteria" extract criteria_pending (criteria_document ∷ []) (criteria ∷ [])
      0
    ∷ source_rule "extract-forms" extract forms_pending
        (criteria_parsed ∷ forms_document ∷ rules_approved ∷ []) (forms ∷ []) 0
    ∷ source_rule "retry-localized-extraction" extract extraction_retryable
        (authorized_source ∷ extraction_retry_available ∷ [])
        (criteria ∷ forms ∷ reference ∷ brief ∷ []) 1
    ∷ source_rule "inspect-versioned-reference" inspect WorkflowState.reference_available
        (authorized_source ∷ ActionPrerequisite.reference_available ∷ []) (reference ∷ brief ∷ []) 0
    ∷ plain_rule "request-rule-review" human rules_awaiting_approval
        (criteria_parsed ∷ rules_available ∷ []) true
    ∷ plain_rule "request-evidence-review" human evidence_needs_review (forms_parsed ∷ []) true
    ∷ plain_rule "deterministic-review" review material_ready
        (forms_parsed ∷ rules_approved ∷ critical_evidence_available ∷ material_complete ∷ []) false
    ∷ plain_rule "request-review-failure" human review_failed (material_complete ∷ []) true
    ∷ plain_rule "request-unsupported-context-review" human unsupported_contexts
        (material_complete ∷ []) true
    ∷ []

abbrev pub rule_ids : List ActionPolicyRule → List String
rule_ids [] = []
rule_ids (r ∷ rs) = r.action_id ∷ rule_ids rs

-- The checks of one rule; its fields are typed, and its cost is no negative number.
unfoldable pub valid_rule : ActionPolicyRule → Bool
valid_rule r =
    if is_empty r.states || not (distinct r.states)
    then false
    else if not (distinct r.prerequisites)
    then false
    else if not (distinct r.document_purposes)
    then false
    else if not (sourced r.action r.document_purposes)
    then false
    else not (is_in template r.document_purposes)

-- `registration in registrations`
abbrev pub is_registered : WorkflowState → ActionKind → List (WorkflowState × ActionKind) → Bool
is_registered s k [] = false
is_registered s k ((t, j) ∷ seen) = s == t && k == j || is_registered s k seen

-- The inner loop: the new registrations, or nothing where a state is registered for the action.
unfoldable pub register :
    ActionKind
    → List WorkflowState
    → List (WorkflowState × ActionKind)
    → Option (List (WorkflowState × ActionKind))
register k [] seen = some seen
register k (s ∷ states) seen =
    let rest = register k states ((s, k) ∷ seen) in if is_registered s k seen then none else rest

unfoldable pub unambiguous : List ActionPolicyRule → List (WorkflowState × ActionKind) → Bool
unfolding valid_rule register
unambiguous [] seen = true
unambiguous (r ∷ rs) seen =
    valid_rule r
    && elim (register r.action r.states seen) [ none ↦ false | some seen' ↦ unambiguous rs seen' ]

-- `_validate_registry`
unfoldable pub validate_registry : List ActionPolicyRule → Bool
unfolding unambiguous
validate_registry rules = if not (distinct (rule_ids rules)) then false else unambiguous rules []

pub record ControlledActionPolicy : Type 0 where
  pub proposer_kind : ActorKind
  pub policy_version : String
  pub rules : List ActionPolicyRule

abbrev kind_text : ActorKind → String
kind_text ActorKind.human = "human"
kind_text system = "system"
kind_text model = "model"

-- `ControlledActionPolicy.__init__`; the pattern of the version is left out.
unfoldable pub new_policy :
    ActorKind → String → List ActionPolicyRule → Result ControlledActionPolicy
unfolding validate_registry
new_policy kind version rules = do
  reject_if (not (is_in kind (system ∷ model ∷ []))) value_error
  reject_if (not (validate_registry rules)) value_error
  ok (record {
    proposer_kind = kind;
    policy_version = version ++ "-" ++ kind_text kind;
    rules = rules;
  })

abbrev pub model_cost : ActorKind → ℕ
model_cost model = 1
model_cost _ = 0

abbrev pub out_of_time : Option ℕ → Bool
out_of_time none = false
out_of_time (some t) = eqb t 0

abbrev pub affordable : ActorKind → WorkflowSnapshot → ActionPolicyRule → Bool
affordable kind s r = not (
    ltb s.budget.steps_remaining 1
    || ltb s.budget.model_calls_remaining (model_cost kind)
    || ltb s.budget.retries_remaining r.retry_cost
    || out_of_time s.budget.time_remaining_ms)

abbrev pub permitted_purposes : WorkflowSnapshot → ActionPolicyRule → List DocumentPurpose
permitted_purposes s r =
    select (λ p. is_in p (purposes_of s.revision.documents)) r.document_purposes

abbrev pub action_of : ActorKind → WorkflowSnapshot → ActionPolicyRule → AllowedAction
action_of kind s r = record {
  action_id = r.action_id;
  action = r.action;
  permitted_states = r.states;
  permitted_document_purposes = permitted_purposes s r;
  revision = s.revision.reference;
  rules = s.revision.rules;
  proposer_kinds = kind ∷ [];
  executor_kinds = system ∷ [];
  prerequisites = r.prerequisites;
  cost = record { steps = 1; model_calls = model_cost kind; retries = r.retry_cost };
}

-- The model is built with its validator.
abbrev pub built : AllowedAction → Result (Option AllowedAction)
built a = if bounded_authority a then ok (some a) else err value_error

-- `_derive_rule`
unfoldable pub derive_rule :
    ActorKind → WorkflowSnapshot → ActionPolicyRule → Result (Option AllowedAction)
derive_rule kind s r =
    if not (is_in s.state r.states)
    then ok none
    else if not (all_in r.prerequisites s.satisfied_prerequisites)
    then ok none
    else if r.requires_blockers && is_empty s.unresolved_blockers
    then ok none
    else if not (affordable kind s r)
    then ok none
    else if not (is_empty r.document_purposes) && is_empty (permitted_purposes s r)
    then ok none
    else built (action_of kind s r)

abbrev pub with_found : Option AllowedAction → List AllowedAction → List AllowedAction
with_found none rest = rest
with_found (some a) rest = a ∷ rest

unfoldable pub derive_rules :
    ActorKind → WorkflowSnapshot → List ActionPolicyRule → Result (List AllowedAction)
unfolding derive_rule
derive_rules kind s [] = ok []
derive_rules kind s (r ∷ rs) =
    let later = derive_rules kind s rs in
    do found ← derive_rule kind s r; rest ← later; ok (with_found found rest)

module _ (content_digest : WorkflowSnapshot → String) where
  abbrev pub action_set :
      ControlledActionPolicy → WorkflowSnapshot → List AllowedAction → AllowedActionSet
  action_set p s actions = record {
    policy_version = p.policy_version;
    snapshot_digest = content_digest s;
    revision = s.revision.reference;
    documents = s.revision.documents;
    rules = s.revision.rules;
    actions = actions;
  }

  unfoldable pub derive : ControlledActionPolicy → WorkflowSnapshot → Result AllowedActionSet
  unfolding derive_rules
  derive p s = do
    reject_if (not (valid_snapshot s)) value_error
    actions ← derive_rules p.proposer_kind s p.rules
    reject_if (not (unambiguous_registry (action_set p s actions))) value_error
    ok (action_set p s actions)
