-- ===== src/ActionContracts/Snapshot.antt =====
-- The workflow snapshot and the allowed actions of service_contracts.py, with their validators: each
-- answers `true` where Python raises no `ValueError`.
use newtaipei_appraisal_revi.Prelude.{
  ℕ, String, ◌↔◌, ◌≡◌, Bool, true, false, not, ◌&&◌, ◌||◌, Option, List, [], ◌∷◌, is_empty, length,
  ltb, eqb, Eq, ◌==◌, string_eq, nat_eq, option_eq, is_in, all_in, distinct, same_list,
  if◌then◌else◌, arith,
}
use newtaipei_appraisal_revi.JobContracts.{RevisionReference, RunReference}
use newtaipei_appraisal_revi.ServiceGuards.{
  ActorKind, model, DocumentReference, DocumentPurpose, reference, brief, template,
}
use newtaipei_appraisal_revi.ActionContracts.{
  ActionKind, extract, inspect, WorkflowState, criteria_pending, extraction_retryable,
  ActionPrerequisite, criteria_document, forms_document, authorized_source,
  extraction_retry_available, action_eq, state_eq, prerequisite_eq, purpose_eq, actor_eq,
}

-- The comparison context is only compared, and stands as its key.
pub record RuleReference : Type 0 where
  pub rule_set_id : String
  pub version : String
  pub context : String
  pub content_hash : String

-- The box and the excerpt of a citation stand as one text.
pub record SourceCitation : Type 0 where
  pub document_id : String
  pub content_hash : String
  pub version : String
  pub page : ℕ
  pub region_id : String
  pub passage : String

abbrev pub same_rule : RuleReference → RuleReference → Bool
same_rule a b =
    a.rule_set_id == b.rule_set_id
    && a.version == b.version
    && a.context == b.context
    && a.content_hash == b.content_hash

pub same_rule_iff : (a b : RuleReference) → (same_rule a b ≡ true) ↔ (a ≡ b)
same_rule_iff a b = ground (
  arith,
  string_eq.beq_iff a.rule_set_id b.rule_set_id,
  string_eq.beq_iff a.version b.version,
  string_eq.beq_iff a.context b.context,
  string_eq.beq_iff a.content_hash b.content_hash,
)

instance abbrev pub rule_eq : Eq RuleReference
rule_eq = record { beq = same_rule; beq_iff = same_rule_iff }

abbrev pub same_citation : SourceCitation → SourceCitation → Bool
same_citation a b =
    a.document_id == b.document_id
    && a.content_hash == b.content_hash
    && a.version == b.version
    && a.page == b.page
    && a.region_id == b.region_id
    && a.passage == b.passage

pub same_citation_iff : (a b : SourceCitation) → (same_citation a b ≡ true) ↔ (a ≡ b)
same_citation_iff a b = ground (
  arith,
  string_eq.beq_iff a.document_id b.document_id,
  string_eq.beq_iff a.content_hash b.content_hash,
  string_eq.beq_iff a.version b.version,
  nat_eq.beq_iff a.page b.page,
  string_eq.beq_iff a.region_id b.region_id,
  string_eq.beq_iff a.passage b.passage,
)

instance abbrev pub citation_eq : Eq SourceCitation
citation_eq = record { beq = same_citation; beq_iff = same_citation_iff }

abbrev pub same_revision : RevisionReference → RevisionReference → Bool
same_revision a b =
    a.case_id == b.case_id
    && a.revision_id == b.revision_id
    && a.material_digest == b.material_digest

pub same_revision_iff : (a b : RevisionReference) → (same_revision a b ≡ true) ↔ (a ≡ b)
same_revision_iff a b = ground (
  arith,
  string_eq.beq_iff a.case_id b.case_id,
  string_eq.beq_iff a.revision_id b.revision_id,
  string_eq.beq_iff a.material_digest b.material_digest,
)

instance abbrev pub revision_eq : Eq RevisionReference
revision_eq = record { beq = same_revision; beq_iff = same_revision_iff }

abbrev pub same_document : DocumentReference → DocumentReference → Bool
same_document a b =
    a.case_id == b.case_id
    && a.document_id == b.document_id
    && a.version == b.version
    && a.content_hash == b.content_hash
    && a.purpose == b.purpose

pub same_document_iff : (a b : DocumentReference) → (same_document a b ≡ true) ↔ (a ≡ b)
same_document_iff a b = ground (
  arith,
  string_eq.beq_iff a.case_id b.case_id,
  string_eq.beq_iff a.document_id b.document_id,
  string_eq.beq_iff a.version b.version,
  string_eq.beq_iff a.content_hash b.content_hash,
  purpose_eq.beq_iff a.purpose b.purpose,
)

instance abbrev pub document_eq : Eq DocumentReference
document_eq = record { beq = same_document; beq_iff = same_document_iff }

-- `runtime_session_id` is left out.
abbrev pub same_run : RunReference → RunReference → Bool
same_run a b = a.run_id == b.run_id && a.revision == b.revision && a.attempt_id == b.attempt_id

pub record WorkflowBlocker : Type 0 where
  pub blocker_id : String
  pub reason_code : String
  pub affected_subject_ids : List String
  pub evidence : List SourceCitation

pub record Budget : Type 0 where
  pub steps_remaining : ℕ
  pub model_calls_remaining : ℕ
  pub retries_remaining : ℕ
  pub time_remaining_ms : Option ℕ

pub data Canonicalization : Type 0 where
  review_material source_documents : Canonicalization

pub record MaterialRevision : Type 0 where
  pub reference : RevisionReference
  pub documents : List DocumentReference
  pub rules : List RuleReference
  pub canonicalization : Canonicalization

pub record WorkflowSnapshot : Type 0 where
  pub state_version : ℕ
  pub run : RunReference
  pub revision : MaterialRevision
  pub state : WorkflowState
  pub satisfied_prerequisites : List ActionPrerequisite
  pub unresolved_blockers : List WorkflowBlocker
  pub budget : Budget

abbrev pub is_preparation : Canonicalization → Bool
is_preparation review_material = false
is_preparation source_documents = true

abbrev case_documents : String → List DocumentReference → Bool
case_documents case_id [] = true
case_documents case_id (d ∷ ds) = d.case_id == case_id && case_documents case_id ds

abbrev pub document_ids : List DocumentReference → List String
document_ids [] = []
document_ids (d ∷ ds) = d.document_id ∷ document_ids ds

-- `MaterialRevision.identities`, but for the digest and the order of preparation documents and for
-- the parent and the changes, which the action models do not read.
unfoldable pub identities : MaterialRevision → Bool
identities r =
    if ltb (length r.documents) 2
    then false
    else if not (is_preparation r.canonicalization) && is_empty r.rules
    then false
    else if is_preparation r.canonicalization && not (is_empty r.rules)
    then false
    else if not (case_documents r.reference.case_id r.documents)
    then false
    else distinct (document_ids r.documents)

abbrev pub preparation_states : List WorkflowState
preparation_states =
    criteria_pending ∷ extraction_retryable ∷ WorkflowState.reference_available ∷ []

abbrev preparation_prerequisites : List ActionPrerequisite
preparation_prerequisites =
    criteria_document ∷ forms_document ∷ authorized_source ∷ extraction_retry_available
    ∷ ActionPrerequisite.reference_available ∷ []

abbrev blocker_ids : List WorkflowBlocker → List String
blocker_ids [] = []
blocker_ids (b ∷ bs) = b.blocker_id ∷ blocker_ids bs

-- `WorkflowSnapshot.exact_state`
unfoldable pub exact_state : WorkflowSnapshot → Bool
exact_state s =
    if is_preparation s.revision.canonicalization
      && (not (is_in s.state preparation_states)
          || not (all_in s.satisfied_prerequisites preparation_prerequisites))
    then false
    else if not (s.run.revision == s.revision.reference)
    then false
    else if not (distinct s.satisfied_prerequisites)
    then false
    else distinct (blocker_ids s.unresolved_blockers)

-- The snapshot and its revision, as `model_validate_json` checks them again.
abbrev pub valid_snapshot : WorkflowSnapshot → Bool
valid_snapshot s = identities s.revision && exact_state s

pub record ActionCost : Type 0 where
  pub steps : ℕ
  pub model_calls : ℕ
  pub retries : ℕ

pub record AllowedAction : Type 0 where
  pub action_id : String
  pub action : ActionKind
  pub permitted_states : List WorkflowState
  pub permitted_document_purposes : List DocumentPurpose
  pub revision : RevisionReference
  pub rules : List RuleReference
  pub proposer_kinds : List ActorKind
  pub executor_kinds : List ActorKind
  pub prerequisites : List ActionPrerequisite
  pub cost : ActionCost

abbrev pub source_action : ActionKind → Bool
source_action kind = is_in kind (extract ∷ inspect ∷ [])

abbrev same_bool : Bool → Bool → Bool
same_bool true b = b
same_bool false b = not b

-- What a rule and an action ask alike of the purposes of their documents.
abbrev pub sourced : ActionKind → List DocumentPurpose → Bool
sourced kind purposes =
    if not (same_bool (source_action kind) (not (is_empty purposes)))
    then false
    else if kind == inspect && not (all_in purposes (reference ∷ brief ∷ []))
    then false
    else true

-- `AllowedAction.bounded_authority`, with the lengths that its fields fix.
unfoldable pub bounded_authority : AllowedAction → Bool
bounded_authority a =
    if is_empty a.permitted_states || not (eqb (length a.proposer_kinds) 1)
    then false
    else if is_empty a.rules && not (source_action a.action)
    then false
    else if not (
        distinct a.permitted_states
        && distinct a.permitted_document_purposes
        && distinct a.proposer_kinds
        && distinct a.executor_kinds
        && distinct a.prerequisites)
    then false
    else if not (sourced a.action a.permitted_document_purposes)
    then false
    else if a.action == extract && is_in template a.permitted_document_purposes
    then false
    else same_bool (is_in model a.proposer_kinds) (ltb 0 a.cost.model_calls)

pub record AllowedActionSet : Type 0 where
  pub policy_version : String
  pub snapshot_digest : String
  pub revision : RevisionReference
  pub documents : List DocumentReference
  pub rules : List RuleReference
  pub actions : List AllowedAction

abbrev pub action_ids : List AllowedAction → List String
action_ids [] = []
action_ids (a ∷ rest) = a.action_id ∷ action_ids rest

abbrev pub action_kinds : List AllowedAction → List ActionKind
action_kinds [] = []
action_kinds (a ∷ rest) = a.action ∷ action_kinds rest

abbrev pub purposes_of : List DocumentReference → List DocumentPurpose
purposes_of [] = []
purposes_of (d ∷ ds) = d.purpose ∷ purposes_of ds

abbrev pub binds :
    RevisionReference → List RuleReference → List DocumentPurpose → List AllowedAction → Bool
binds revision rules purposes [] = true
binds revision rules purposes (a ∷ rest) =
    a.revision == revision
    && same_list a.rules rules
    && all_in a.permitted_document_purposes purposes
    && binds revision rules purposes rest

-- `AllowedActionSet.unambiguous_registry`
unfoldable pub unambiguous_registry : AllowedActionSet → Bool
unambiguous_registry s =
    if ltb (length s.documents) 2
    then false
    else if not (distinct (action_ids s.actions))
    then false
    else if not (distinct (action_kinds s.actions))
    then false
    else if not (case_documents s.revision.case_id s.documents)
        || not (distinct (document_ids s.documents))
    then false
    else binds s.revision s.rules (purposes_of s.documents) s.actions

abbrev pub all_bounded : List AllowedAction → Bool
all_bounded [] = true
all_bounded (a ∷ rest) = bounded_authority a && all_bounded rest

abbrev pub valid_set : AllowedActionSet → Bool
valid_set s = all_bounded s.actions && unambiguous_registry s
