-- ===== src/ServiceGuards.antt =====
-- src/appraisal_review/application/service_guards.py: the principal, the idempotency record and the
-- checks that a submission passes; with the submission models of domain/service_contracts.py.
use Prim.Native.Nat.{Ordering}
use Prim.Native.String.{compare}
use newtaipei_appraisal_revi.Prelude.{
  ℕ, String, Bool, true, false, not, ◌||◌, List, [], ◌∷◌, ◌==◌, string_eq, Eq, ◌≡◌, ◌↔◌, arith,
  if◌then◌else◌,
}
use newtaipei_appraisal_revi.Faults.{
  Result, ok, ◌>>◌, reject_if, service_fault, unauthorized, conflict,
}
use newtaipei_appraisal_revi.JobContracts.{RevisionReference}

pub data Permission : Type 0 where
  review confirm correct approve_rules approve_material publish : Permission

abbrev pub same_permission : Permission → Permission → Bool
same_permission review review = true
same_permission confirm confirm = true
same_permission correct correct = true
same_permission approve_rules approve_rules = true
same_permission approve_material approve_material = true
same_permission publish publish = true
same_permission _ _ = false

pub same_permission_iff : (a b : Permission) → (same_permission a b ≡ true) ↔ (a ≡ b)
same_permission_iff a b = ground arith

instance abbrev pub permission_eq : Eq Permission
permission_eq = record { beq = same_permission; beq_iff = same_permission_iff }

pub data ActorKind : Type 0 where
  human system model : ActorKind

pub record ActorReference : Type 0 where
  pub actor_id : String
  pub kind : ActorKind

pub record Principal : Type 0 where
  pub actor : ActorReference
  pub case_ids : List String
  pub permissions : List Permission

pub data DocumentPurpose : Type 0 where
  criteria forms reference brief template : DocumentPurpose

pub record DocumentReference : Type 0 where
  pub case_id : String
  pub document_id : String
  pub version : String
  pub content_hash : String
  pub purpose : DocumentPurpose

pub record ReviewSubmission : Type 0 where
  pub revision : RevisionReference
  pub documents : List DocumentReference
  pub idempotency_key : String

-- `case_id in self.case_ids`
unfoldable pub has_case : String → List String → Bool
has_case c [] = false
has_case c (d ∷ ds) = c == d || has_case c ds

-- `permission in self.permissions`
unfoldable pub has_permission : Permission → List Permission → Bool
has_permission p [] = false
has_permission p (q ∷ qs) = same_permission p q || has_permission p qs

-- `Principal.require`
unfoldable pub require : Principal → String → Permission → Result (Unit {0})
require p case_id permission =
    reject_if (not (has_case case_id p.case_ids) || not (has_permission permission p.permissions))
      (service_fault unauthorized)

pub record IdempotencyRecord : Type 0 where
  pub principal_id : String
  pub key : String
  pub payload_digest : String
  pub run_id : ℕ

-- `sorted(documents, key=lambda d: d.document_id)`: stable, by code points
document_le : DocumentReference → DocumentReference → Bool
document_le d e = elim (compare d.document_id e.document_id) [ Ordering.gt ↦ false | _ ↦ true ]

insert_document : DocumentReference → List DocumentReference → List DocumentReference
insert_document d [] = d ∷ []
insert_document d (e ∷ es) =
    let rest = insert_document d es in if document_le d e then d ∷ e ∷ es else e ∷ rest

sort_documents : List DocumentReference → List DocumentReference
sort_documents [] = []
sort_documents (d ∷ ds) = insert_document d (sort_documents ds)

-- `content_digest` is the SHA-256 of the JSON text that the model library writes; it is a parameter.
module _ (content_digest : ReviewSubmission → String) where
  unfoldable pub submission_digest : ReviewSubmission → String
  unfolding sort_documents insert_document document_le
  submission_digest submission = content_digest (record submission {
    documents = sort_documents submission.documents;
    idempotency_key = "canonical-payload";
  })

  unfoldable pub check_idempotency : IdempotencyRecord → Principal → ReviewSubmission → Result ℕ
  check_idempotency record_ principal submission = do
    require principal submission.revision.case_id review
    reject_if
        (not (record_.principal_id == principal.actor.actor_id)
          || not (record_.key == submission.idempotency_key))
        (service_fault unauthorized)
    reject_if (not (record_.payload_digest == submission_digest submission))
        (service_fault conflict)
    ok record_.run_id
