-- ===== src/HumanTasks/Validation.antt =====
-- The validators of human tasks and responses in service_contracts.py: `true` where no `ValueError` is
-- raised.
use newtaipei_appraisal_revi.Prelude.{
  Bool, true, false, not, ◌&&◌, ◌||◌, Option, none, some, is_some, [], ◌∷◌, if◌then◌else◌, ◌==◌,
  string_eq, all_in, distinct,
}
use newtaipei_appraisal_revi.ServiceGuards.{Permission, permission_eq}
use newtaipei_appraisal_revi.HumanTasks.{
  TaskKind, fact, correction, rules, material, publication, evidence, ResponseAction, action_eq,
  confirm, correct, reject, approve, authorize_publication, supply_evidence, HumanTask,
  ValueRevision, HumanResponse,
}

-- `permissions[self.kind]`
unfoldable pub permission_of : TaskKind → Permission
permission_of fact = Permission.confirm
permission_of correction = Permission.correct
permission_of rules = Permission.approve_rules
permission_of material = Permission.approve_material
permission_of publication = Permission.publish
permission_of evidence = Permission.correct

-- `actions[self.kind]`
unfoldable pub action_of : TaskKind → ResponseAction
action_of fact = confirm
action_of correction = correct
action_of rules = approve
action_of material = approve
action_of publication = authorize_publication
action_of evidence = supply_evidence

abbrev is_publication : TaskKind → Bool
is_publication publication = true
is_publication _ = false

abbrev is_fact : TaskKind → Bool
is_fact fact = true
is_fact _ = false

abbrev same_truth : Bool → Bool → Bool
same_truth true b = b
same_truth false b = not b

-- `HumanTask.task_authority`
unfoldable pub task_authority : HumanTask → Bool
unfolding permission_of action_of
task_authority t =
    if not (t.required_permission == permission_of t.kind)
      || not (all_in t.allowed_responses (action_of t.kind ∷ reject ∷ []))
    then false
    else if not (same_truth (is_publication t.kind) (is_some t.result_digest))
    then false
    else if is_fact t.kind && not (is_some t.side)
    then false
    else distinct t.finding_ids && distinct t.allowed_responses && distinct t.affected_subject_ids

abbrev carries_value : ResponseAction → Bool
carries_value correct = true
carries_value supply_evidence = true
carries_value _ = false

-- `ValueRevision.correction_actor` is that of a value which was built before; only this is new.
abbrev proposes_only : Option ValueRevision → Bool
proposes_only none = true
proposes_only (some c) =
    not (is_some c.corrected) && not (is_some c.corrected_by) && is_some c.proposed

-- `HumanResponse.action_payload`
unfoldable pub action_payload : HumanResponse → Bool
action_payload c =
    if not (same_truth (carries_value c.action) (is_some c.correction))
    then false
    else proposes_only c.correction
