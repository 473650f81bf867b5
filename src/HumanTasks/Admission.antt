-- ===== src/HumanTasks/Admission.antt =====
-- `admit_response` and `response_digest` of application/service_guards.py: who may answer a task.
use newtaipei_appraisal_revi.Prelude.{
  String, Bool, true, false, not, ◌||◌, Option, none, some, eqb, ◌==◌, nat_eq, string_eq, option_eq,
  is_in,
}
use newtaipei_appraisal_revi.Faults.{
  Result, ok, ◌>>◌, reject_if, service_fault, unauthorized, not_found, conflict, value_error,
}
use newtaipei_appraisal_revi.JobContracts.{RevisionReference}
use newtaipei_appraisal_revi.ActionContracts.Snapshot.{revision_eq}
use newtaipei_appraisal_revi.ServiceGuards.{Principal, ActorKind, require}
use newtaipei_appraisal_revi.HumanTasks.{
  is_open, action_eq, FactSideReference, HumanTask, HumanResponse, AcceptedResponse,
}
use newtaipei_appraisal_revi.HumanTasks.Validation.{task_authority, action_payload}

abbrev pub is_human : ActorKind → Bool
is_human ActorKind.human = true
is_human _ = false

-- `task.side.input_digest if task.side else None`
abbrev pub side_digest_of : Option FactSideReference → Option String
side_digest_of none = none
side_digest_of (some side) = some side.input_digest

-- The response is about another version, another revision or other material.
unfoldable pub is_outdated : HumanTask → HumanResponse → RevisionReference → Bool
is_outdated task command current =
    not (is_open task.state)
    || not (eqb command.expected_version task.version)
    || not (command.revision == current)
    || not (task.run.revision == current)
    || not (command.result_digest == task.result_digest)
    || not (command.side_digest == side_digest_of task.side)

unfoldable pub admit_response :
    HumanTask → HumanResponse → Principal → RevisionReference → Result AcceptedResponse
unfolding task_authority action_payload is_outdated
admit_response task command principal current = do
  reject_if (not (task_authority task)) value_error
  reject_if (not (action_payload command)) value_error
  require principal current.case_id task.required_permission
  reject_if (not (is_human principal.actor.kind)) (service_fault unauthorized)
  reject_if (not (eqb command.task_id task.task_id)) (service_fault not_found)
  reject_if (is_outdated task command current) (service_fault conflict)
  reject_if (not (is_in command.action task.allowed_responses)) (service_fault unauthorized)
  ok (record { command = command; actor = principal.actor })

-- `content_digest` is the SHA-256 of the JSON text that the model library writes; it is a parameter.
module _ (content_digest : HumanResponse → String) where
  unfoldable pub response_digest : HumanResponse → String
  response_digest command =
      content_digest (record command { idempotency_key = "canonical-payload" })
