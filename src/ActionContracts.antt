-- ===== src/ActionContracts.antt =====
-- The controlled-action models of src/appraisal_review/domain/service_contracts.py: actions, states,
-- prerequisites, the workflow snapshot and the allowed actions, with their validators.
pub mod Snapshot
pub mod Proposals
use newtaipei_appraisal_revi.Prelude.{
  ℕ, String, ◌↔◌, ◌≡◌, refl, sym, ◌∙◌, ap, Bool, true, false, not, ◌&&◌, ◌||◌, Option, none, some,
  List, [], ◌∷◌, map, is_empty, length, ltb, leb, eqb, eqb_iff, Eq, ◌==◌, string_eq, nat_eq,
  option_eq, is_in, all_in, distinct, same_list, if◌then◌else◌, arith,
}
use newtaipei_appraisal_revi.JobContracts.{RevisionReference, RunReference}
use newtaipei_appraisal_revi.ServiceGuards.{
  ActorKind, system, model, DocumentPurpose, criteria, forms, reference, brief, template,
}

pub data ActionKind : Type 0 where
  extract inspect human review : ActionKind

pub data WorkflowState : Type 0 where
  criteria_pending forms_pending extraction_retryable reference_available rules_awaiting_approval
        evidence_needs_review material_ready review_failed verified unsupported_contexts
        waiting_for_human :
      WorkflowState

pub data ActionPrerequisite : Type 0 where
  criteria_document forms_document authorized_source criteria_parsed forms_parsed
        extraction_retry_available reference_available rules_available rules_approved
        critical_evidence_available material_complete :
      ActionPrerequisite

-- The place of a member in its enumeration, by which members are compared.
abbrev pub action_place : ActionKind → ℕ
action_place extract = 0
action_place inspect = 1
action_place human = 2
action_place review = 3

abbrev pub state_place : WorkflowState → ℕ
state_place criteria_pending = 0
state_place forms_pending = 1
state_place extraction_retryable = 2
state_place WorkflowState.reference_available = 3
state_place rules_awaiting_approval = 4
state_place evidence_needs_review = 5
state_place material_ready = 6
state_place review_failed = 7
state_place verified = 8
state_place unsupported_contexts = 9
state_place waiting_for_human = 10

abbrev pub prerequisite_place : ActionPrerequisite → ℕ
prerequisite_place criteria_document = 0
prerequisite_place forms_document = 1
prerequisite_place authorized_source = 2
prerequisite_place criteria_parsed = 3
prerequisite_place forms_parsed = 4
prerequisite_place extraction_retry_available = 5
prerequisite_place ActionPrerequisite.reference_available = 6
prerequisite_place rules_available = 7
prerequisite_place rules_approved = 8
prerequisite_place critical_evidence_available = 9
prerequisite_place material_complete = 10

abbrev pub purpose_place : DocumentPurpose → ℕ
purpose_place criteria = 0
purpose_place forms = 1
purpose_place reference = 2
purpose_place brief = 3
purpose_place template = 4

abbrev pub actor_place : ActorKind → ℕ
actor_place ActorKind.human = 0
actor_place system = 1
actor_place model = 2

pub action_iff : (a b : ActionKind) → (eqb (action_place a) (action_place b) ≡ true) ↔ (a ≡ b)
action_iff a b = ground arith

instance abbrev pub action_eq : Eq ActionKind
action_eq = record { beq = λ a b. eqb (action_place a) (action_place b); beq_iff = action_iff }

pub state_iff : (a b : WorkflowState) → (eqb (state_place a) (state_place b) ≡ true) ↔ (a ≡ b)
state_iff a b = ground arith

instance abbrev pub state_eq : Eq WorkflowState
state_eq = record { beq = λ a b. eqb (state_place a) (state_place b); beq_iff = state_iff }

pub prerequisite_iff :
    (a b : ActionPrerequisite)
    → (eqb (prerequisite_place a) (prerequisite_place b) ≡ true) ↔ (a ≡ b)
prerequisite_iff a b = ground arith

instance abbrev pub prerequisite_eq : Eq ActionPrerequisite
prerequisite_eq = record {
  beq = λ a b. eqb (prerequisite_place a) (prerequisite_place b);
  beq_iff = prerequisite_iff;
}

pub purpose_iff :
    (a b : DocumentPurpose) → (eqb (purpose_place a) (purpose_place b) ≡ true) ↔ (a ≡ b)
purpose_iff a b = ground arith

instance abbrev pub purpose_eq : Eq DocumentPurpose
purpose_eq = record { beq = λ a b. eqb (purpose_place a) (purpose_place b); beq_iff = purpose_iff }

pub actor_iff : (a b : ActorKind) → (eqb (actor_place a) (actor_place b) ≡ true) ↔ (a ≡ b)
actor_iff a b = ground arith

instance abbrev pub actor_eq : Eq ActorKind
actor_eq = record { beq = λ a b. eqb (actor_place a) (actor_place b); beq_iff = actor_iff }
