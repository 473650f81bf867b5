-- ===== src/HumanTasks/Authority.antt =====
-- What `admit_response` of service_guards.py guarantees of a response that it lets through.
use newtaipei_appraisal_revi.Prelude.{
  ◌≡◌, refl, ◌⊎◌, inl, inr, Bool, true, false, not, ◌&&◌, ◌||◌, List, [], ◌∷◌, eqb, ◌==◌, nat_eq,
  string_eq, option_eq, is_in, all_in, arith, beq-cases, Bool-cases, Eq, subst, sym,
}
use newtaipei_appraisal_revi.Faults.{
  Result, Fault, ok, ◌>>◌, reject_if, service_fault, unauthorized, not_found, conflict, value_error,
}
use newtaipei_appraisal_revi.JobContracts.{RevisionReference}
use newtaipei_appraisal_revi.ActionContracts.Snapshot.{revision_eq}
use newtaipei_appraisal_revi.ServiceGuards.{
  Principal, ActorKind, human, permission_eq, require, has_case, has_permission,
}
use newtaipei_appraisal_revi.HumanTasks.{
  TaskState, open_task, is_open, ResponseAction, reject, action_eq, HumanTask, HumanResponse,
  AcceptedResponse,
}
use newtaipei_appraisal_revi.HumanTasks.Validation.{
  permission_of, action_of, task_authority, action_payload,
}
use newtaipei_appraisal_revi.HumanTasks.Admission.{
  is_human, is_outdated, side_digest_of, admit_response,
}

-- Who answers what: a person with the permission that the kind of task asks for in the current case, by the
-- kind's own action or a rejection, about the open task at its version and the current revision.
pub record IsAuthorized (task : HumanTask) (command : HumanResponse) (principal : Principal)
    (current : RevisionReference) : Type 0 where
  pub by_human : principal.actor.kind ≡ human
  pub in_case : has_case current.case_id principal.case_ids ≡ true
  pub permitted : has_permission (permission_of task.kind) principal.permissions ≡ true
  pub named : command.task_id ≡ task.task_id
  pub waiting : task.state ≡ open_task
  pub at_version : command.expected_version ≡ task.version
  pub command_current : command.revision ≡ current
  pub task_current : task.run.revision ≡ current
  pub same_material : command.result_digest ≡ task.result_digest
  pub same_side : command.side_digest ≡ side_digest_of task.side
  pub action_allowed : (command.action ≡ action_of task.kind) ⊎ (command.action ≡ reject)

module _ {A : Type 0} where
  ok-injective : {a b : A} → ok a ≡ ok b → a ≡ b
  ok-injective h = cc h

  reject_if-ok :
      (test : Bool) (e : Fault) (rest : Result A) {a : A}
      → (reject_if test e >> rest) ≡ ok a
      → (test ≡ false) × (rest ≡ ok a)
  reject_if-ok true e rest h = absurd (cc h)
  reject_if-ok false e rest h = (refl, h)

-- A test that is not refused holds.
not-false : {b : Bool} → not b ≡ false → b ≡ true
not-false {b} h = ground arith

or-false : {a b : Bool} → (a || b) ≡ false → (a ≡ false) × (b ≡ false)
or-false {a} {b} h = (ground arith, ground arith)

kind-human : (k : ActorKind) → is_human k ≡ true → k ≡ human
kind-human k h = ground arith

state-open : (s : TaskState) → is_open s ≡ true → s ≡ open_task
state-open s h = ground arith

eq_of : {A : Type 0} → ⦃e : Eq A⦄ → (x y : A) → not (x == y) ≡ false → x ≡ y
eq_of x y h = elim (beq-cases x y) [ inl same ↦ same | inr n ↦ absurd (cc (rw n at h)) ]

all_in-is_in :
    {A : Type 0}
    → ⦃e : Eq A⦄ → (x : A) (xs ys : List A) → all_in xs ys ≡ true
    → is_in x xs ≡ true
    → is_in x ys ≡ true
all_in-is_in x [] ys all h = absurd (cc h)
all_in-is_in x (y ∷ xs) ys all h = elim (beq-cases x y) [
  | inl same ↦ subst (λ z. is_in z ys ≡ true) (sym same) (left _ _ all)
  | inr other ↦ all_in-is_in x xs ys (right _ _ all) (rw other at h)
]
  where
    left : (a b : Bool) → (a && b) ≡ true → a ≡ true
    left a b h = ground arith

    right : (a b : Bool) → (a && b) ≡ true → b ≡ true
    right a b h = ground arith

one_of_two : (a x y : ResponseAction) → is_in a (x ∷ y ∷ []) ≡ true → (a ≡ x) ⊎ (a ≡ y)
one_of_two a x y h = elim (beq-cases a x) [
  | inl e ↦ inl e
  | inr n ↦ elim (beq-cases a y) [ inl e ↦ inr e | inr m ↦ absurd (cc (rw (n, m) at h)) ]
]

-- A valid task asks for its kind's permission and allows its kind's action and the rejection.
valid-permission :
    (task : HumanTask)
    → task_authority task ≡ true
    → (task.required_permission ≡ permission_of task.kind)
      × (all_in task.allowed_responses (action_of task.kind ∷ reject ∷ []) ≡ true)
unfolding task_authority
valid-permission task h = elim (Bool-cases (task.required_permission == permission_of task.kind)) [
  | inr n ↦ absurd (cc (rw n at h))
  | inl own ↦
      elim (Bool-cases (all_in task.allowed_responses (action_of task.kind ∷ reject ∷ []))) [
        | inr n ↦ absurd (cc (rw (own, n) at h))
        | inl only ↦
            ((permission_eq.beq_iff task.required_permission (permission_of task.kind)).0 own, only)
      ]
]

-- A response that is admitted is the command in the principal's name, and it is authorized: it is a
-- person's, who holds the permission of the kind of task in the case of the current revision; the action is the
-- kind's own or a rejection; and the task is open, at the version, the revision, the result and the side that the
-- command names.
pub admit_response-IsAuthorized :
    (task : HumanTask) (command : HumanResponse) (principal : Principal)
    (current : RevisionReference) (accepted : AcceptedResponse)
    → admit_response task command principal current ≡ ok accepted
    → (accepted ≡ record { command = command; actor = principal.actor })
      × IsAuthorized task command principal current
unfolding admit_response require is_outdated
admit_response-IsAuthorized task command principal current accepted h =
    let valid = reject_if-ok (not (task_authority task)) value_error _ h in
    let payload = reject_if-ok (not (action_payload command)) value_error _ valid.1 in
    let held =
      reject_if-ok
        (not (has_case current.case_id principal.case_ids)
          || not (has_permission task.required_permission principal.permissions))
        (service_fault unauthorized) _ payload.1 in
    let person =
      reject_if-ok (not (is_human principal.actor.kind)) (service_fault unauthorized) _ held.1 in
    let about =
      reject_if-ok (not (eqb command.task_id task.task_id)) (service_fault not_found) _ person.1 in
    let fresh =
      reject_if-ok (is_outdated task command current) (service_fault conflict) _ about.1 in
    let action =
      reject_if-ok (not (is_in command.action task.allowed_responses)) (service_fault unauthorized)
        _ fresh.1 in
    let kind = valid-permission task (not-false valid.0) in
    let in_scope = or-false held.0 in
    let side = or-false fresh.0 in
    let result = or-false side.0 in
    let run = or-false result.0 in
    let revision = or-false run.0 in
    let version = or-false revision.0 in
    (
      sym (ok-injective action.1),
      record {
        by_human = kind-human principal.actor.kind (not-false person.0);
        in_case = not-false in_scope.0;
        permitted =
            subst (λ p. has_permission p principal.permissions ≡ true) kind.0
              (not-false in_scope.1);
        named = eq_of command.task_id task.task_id about.0;
        waiting = state-open task.state (not-false version.0);
        at_version = eq_of command.expected_version task.version version.1;
        command_current = eq_of command.revision current revision.1;
        task_current = eq_of task.run.revision current run.1;
        same_material = eq_of command.result_digest task.result_digest result.1;
        same_side = eq_of command.side_digest (side_digest_of task.side) side.1;
        action_allowed =
            one_of_two command.action (action_of task.kind) reject
              (all_in-is_in command.action task.allowed_responses _ kind.1 (not-false action.0));
      },
    )
