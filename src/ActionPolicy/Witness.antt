-- ===== src/ActionPolicy/Witness.antt =====
-- The theorems on the action policy at the default registry and a snapshot that is ready for review.
use newtaipei_appraisal_revi.Prelude.{String, ◌≡◌, refl, inl, true, none, List, [], ◌∷◌, string_eq}
use newtaipei_appraisal_revi.Faults.{ok}
use newtaipei_appraisal_revi.JobContracts.{RevisionReference}
use newtaipei_appraisal_revi.ServiceGuards.{
  system, ActorReference, DocumentReference, DocumentPurpose, criteria, forms,
}
use newtaipei_appraisal_revi.ActionContracts.{
  review, material_ready, forms_parsed, rules_approved, critical_evidence_available,
  material_complete,
}
use newtaipei_appraisal_revi.ActionContracts.Snapshot.{
  RuleReference, review_material, WorkflowSnapshot, AllowedAction, AllowedActionSet, identities,
  exact_state, bounded_authority, unambiguous_registry, valid_snapshot, valid_set,
}
use newtaipei_appraisal_revi.ActionContracts.Proposals.{
  ActionProposal, deterministic_review, typed_proposal, valid_arguments,
}
use newtaipei_appraisal_revi.ActionPolicy.{
  ControlledActionPolicy, default_action_rules, valid_rule, register, unambiguous,
  validate_registry, derive_rule, derive_rules, derive, action_set,
}
use newtaipei_appraisal_revi.ActionPolicy.Registry.{bindable}
use newtaipei_appraisal_revi.ActionPolicy.Derivation.{IsRegistry, derive_total}
use newtaipei_appraisal_revi.ActionPolicy.Admission.{admit_action, admitted_action}
use newtaipei_appraisal_revi.ActionPolicy.Authority.{IsAuthorized, admit_action-IsAuthorized}
use newtaipei_appraisal_revi.ActionPolicy.Acceptance.{IsFaithful, derive-admit_action}

abbrev digest_of : WorkflowSnapshot → String
digest_of s = "snapshot"

abbrev policy : ControlledActionPolicy
policy = record {
  proposer_kind = system;
  policy_version = "v1-system";
  rules = default_action_rules;
}

abbrev revision : RevisionReference
revision = record { case_id = "C1"; revision_id = "r1"; material_digest = "m" }

abbrev rules : List RuleReference
rules = record { rule_set_id = "s"; version = "1"; context = "c"; content_hash = "h" } ∷ []

abbrev document : String → DocumentPurpose → DocumentReference
document id purpose = record {
  case_id = "C1";
  document_id = id;
  version = "1";
  content_hash = "h";
  purpose = purpose;
}

abbrev snapshot : WorkflowSnapshot
snapshot = record {
  state_version = 1;
  run = record { run_id = 10; revision = revision; attempt_id = none };
  revision = record {
    reference = revision;
    documents = document "d1" criteria ∷ document "d2" forms ∷ [];
    rules = rules;
    canonicalization = review_material;
  };
  state = material_ready;
  satisfied_prerequisites =
      forms_parsed ∷ rules_approved ∷ critical_evidence_available ∷ material_complete ∷ [];
  unresolved_blockers = [];
  budget = record {
    steps_remaining = 3;
    model_calls_remaining = 0;
    retries_remaining = 0;
    time_remaining_ms = none;
  };
}

abbrev reviewing : AllowedAction
reviewing = record {
  action_id = "deterministic-review";
  action = review;
  permitted_states = material_ready ∷ [];
  permitted_document_purposes = [];
  revision = revision;
  rules = rules;
  proposer_kinds = system ∷ [];
  executor_kinds = system ∷ [];
  prerequisites =
      forms_parsed ∷ rules_approved ∷ critical_evidence_available ∷ material_complete ∷ [];
  cost = record { steps = 1; model_calls = 0; retries = 0 };
}

abbrev allowed : AllowedActionSet
allowed = action_set digest_of policy snapshot (reviewing ∷ [])

abbrev runner : ActorReference
runner = record { actor_id = "runner"; kind = system }

abbrev proposal : ActionProposal
proposal = record {
  proposal_id = 1;
  run = record { run_id = 10; revision = revision; attempt_id = none };
  action_id = "deterministic-review";
  action = review;
  policy_version = "v1-system";
  snapshot_digest = "snapshot";
  proposer = runner;
  model_id = none;
  prompt_version = none;
  attempt_count = none;
  arguments = deterministic_review (record { revision = revision; rules = rules });
}

default-IsRegistry : IsRegistry default_action_rules
unfolding validate_registry unambiguous valid_rule register bindable
default-IsRegistry = record { validated = refl; binds = refl }

snapshot_valid : valid_snapshot snapshot ≡ true
unfolding identities exact_state
snapshot_valid = refl

derive-snapshot : derive digest_of policy snapshot ≡ ok allowed
unfolding derive derive_rules derive_rule identities exact_state bounded_authority
    unambiguous_registry
derive-snapshot = refl

derive_total_example :
    (set : AllowedActionSet) × (derive digest_of policy snapshot ≡ ok set) × (valid_set set ≡ true)
derive_total_example = derive_total digest_of policy snapshot default-IsRegistry snapshot_valid

faithful : IsFaithful digest_of policy snapshot reviewing proposal
unfolding typed_proposal valid_arguments
faithful = record {
  typed = refl;
  run = refl;
  digest = refl;
  version = refl;
  action_id = refl;
  action = refl;
  proposer = refl;
  attempts = inl refl;
  arguments = refl;
}

derive-admit_action_example : admit_action digest_of proposal runner runner snapshot allowed ≡ ok tt
derive-admit_action_example =
    derive-admit_action digest_of policy snapshot reviewing proposal runner default-IsRegistry
      snapshot_valid derive-snapshot (inl refl) faithful refl

admit_proposal : admit_action digest_of proposal runner runner snapshot allowed ≡ ok tt
unfolding admit_action admitted_action typed_proposal valid_arguments identities exact_state
    bounded_authority unambiguous_registry
admit_proposal = refl

admit_action-IsAuthorized_example : IsAuthorized policy snapshot proposal runner
admit_action-IsAuthorized_example =
    admit_action-IsAuthorized digest_of policy snapshot proposal runner runner default-IsRegistry
      snapshot_valid derive-snapshot admit_proposal
