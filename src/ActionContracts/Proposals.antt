-- ===== src/ActionContracts/Proposals.antt =====
-- The arguments and the proposal of a controlled action in service_contracts.py, with their
-- validators.
use newtaipei_appraisal_revi.Prelude.{
  ℕ, String, Bool, true, false, not, ◌&&◌, ◌||◌, Option, none, some, List, [], ◌∷◌, is_some,
  is_empty, ltb, ◌==◌, string_eq, nat_eq, is_in, distinct, if◌then◌else◌,
}
use newtaipei_appraisal_revi.JobContracts.{RevisionReference, RunReference}
use newtaipei_appraisal_revi.ServiceGuards.{
  system, model, ActorReference, DocumentReference, reference, brief, template,
}
use newtaipei_appraisal_revi.ActionContracts.{
  ActionKind, extract, inspect, human, review, action_eq, purpose_eq, actor_eq,
}
use newtaipei_appraisal_revi.ActionContracts.Snapshot.{RuleReference, SourceCitation, revision_eq}

pub record ExtractPageArguments : Type 0 where
  pub document : DocumentReference
  pub page : ℕ
  pub region : Option SourceCitation

pub record InspectReferenceArguments : Type 0 where
  pub document : DocumentReference
  pub page : ℕ
  pub section_id : Option String

-- The question is not read.
pub record RequestHumanReviewArguments : Type 0 where
  pub reason_code : String
  pub affected_subject_ids : List String
  pub evidence : List SourceCitation

pub record DeterministicReviewArguments : Type 0 where
  pub revision : RevisionReference
  pub rules : List RuleReference

pub data ActionArguments : Type 0 where
  extract_page : ExtractPageArguments → ActionArguments
  inspect_reference : InspectReferenceArguments → ActionArguments
  request_human_review : RequestHumanReviewArguments → ActionArguments
  deterministic_review : DeterministicReviewArguments → ActionArguments

-- The rationale, the tokens and the latency of a proposal are not read by the guards.
pub record ActionProposal : Type 0 where
  pub proposal_id : ℕ
  pub run : RunReference
  pub action_id : String
  pub action : ActionKind
  pub policy_version : String
  pub snapshot_digest : String
  pub proposer : ActorReference
  pub model_id : Option String
  pub prompt_version : Option String
  pub attempt_count : Option ℕ
  pub arguments : ActionArguments

abbrev located : ExtractPageArguments → Option SourceCitation → Bool
located a none = true
located a (some region) =
    region.document_id == a.document.document_id
    && region.version == a.document.version
    && region.content_hash == a.document.content_hash
    && region.page == a.page

-- `ExtractPageArguments.located_region`
unfoldable located_region : ExtractPageArguments → Bool
located_region a = if a.document.purpose == template then false else located a a.region

-- `InspectReferenceArguments.reference_purpose`
unfoldable reference_purpose : InspectReferenceArguments → Bool
reference_purpose a = is_in a.document.purpose (reference ∷ brief ∷ [])

-- `RequestHumanReviewArguments.unique_subjects`, with the length of its field.
unfoldable unique_subjects : RequestHumanReviewArguments → Bool
unique_subjects a = not (is_empty a.affected_subject_ids) && distinct a.affected_subject_ids

unfoldable pub valid_arguments : ActionArguments → Bool
unfolding located_region reference_purpose unique_subjects
valid_arguments (extract_page a) = ltb 0 a.page && located_region a
valid_arguments (inspect_reference a) = ltb 0 a.page && reference_purpose a
valid_arguments (request_human_review a) = unique_subjects a
valid_arguments (deterministic_review a) = not (is_empty a.rules)

-- The discriminator of the arguments.
abbrev pub kind_of : ActionArguments → ActionKind
kind_of (extract_page a) = extract
kind_of (inspect_reference a) = inspect
kind_of (request_human_review a) = human
kind_of (deterministic_review a) = review

abbrev binds_revision : RevisionReference → ActionArguments → Bool
binds_revision revision (deterministic_review a) = a.revision == revision
binds_revision revision _ = true

-- `ActionProposal.typed_proposal`, but for the telemetry that is left out.
unfoldable pub typed_proposal : ActionProposal → Bool
unfolding valid_arguments
typed_proposal p =
    let identified = is_some p.model_id && is_some p.prompt_version && is_some p.attempt_count in
    let bare = not (is_some p.model_id || is_some p.prompt_version || is_some p.attempt_count) in
    if not (valid_arguments p.arguments)
    then false
    else if not (p.action == kind_of p.arguments)
    then false
    else if not (is_in p.proposer.kind (system ∷ model ∷ []))
    then false
    else if p.proposer.kind == model && not identified
    then false
    else if not (p.proposer.kind == model) && not bare
    then false
    else binds_revision p.run.revision p.arguments
