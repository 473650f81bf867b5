-- ===== src/ActionPolicy/Authority.antt =====
-- The derivation of action_policy.py and `admit_action` of service_guards.py together: what is
-- admitted under the derived set, and that what is derived is admitted.
use newtaipei_appraisal_revi.Prelude.{
  ◌≤◌, String, ◌≡◌, refl, sym, ◌∙◌, ap, subst, ◌⊎◌, inl, inr, Bool, true, false, not, ◌&&◌, List,
  [], ◌∷◌, select, Bool-cases, ◌==◌, string_eq, nat_eq, is_in, all_in, arith,
}
use newtaipei_appraisal_revi.Faults.{
  Fault, Result, ok, err, ◌>>=◌, ◌>>◌, reject_if, service_fault, value_error, unauthorized,
  conflict, capability,
}
use newtaipei_appraisal_revi.ServiceGuards.{ActorKind, system, ActorReference}
use newtaipei_appraisal_revi.ActionContracts.{
  ActionKind, state_eq, action_eq, prerequisite_eq, purpose_eq, actor_eq,
}
use newtaipei_appraisal_revi.ActionContracts.Snapshot.{
  WorkflowSnapshot, AllowedAction, AllowedActionSet, revision_eq, rule_eq, document_eq,
  valid_snapshot, valid_set,
}
use newtaipei_appraisal_revi.ActionContracts.Proposals.{ActionProposal, typed_proposal}
use newtaipei_appraisal_revi.ActionPolicy.{
  ActionPolicyRule, ControlledActionPolicy, affordable, action_of, derive, model_cost,
}
use newtaipei_appraisal_revi.ActionPolicy.Derivation.{Among, IsRegistry, derive-IsDerived}
use newtaipei_appraisal_revi.ActionPolicy.Admission.{
  same_actor, is_current, only_match, match_of, permitted, required_model_calls, within_budget,
  arguments_fit, admitted_action, admit_action,
}

select-Among :
    (p : AllowedAction → Bool) (a : AllowedAction) (actions : List AllowedAction)
    → Among a (select p actions)
    → Among a actions × (p a ≡ true)
select-Among p a [] h = absurd h
select-Among p a (b ∷ rest) h = elim (Bool-cases (p b)) [
  | inl chosen ↦
      let here : (b ≡ a) ⊎ Among a (select p rest) = rw chosen at h in
      elim here [
        | inl same ↦ (inl same, subst (λ c. p c ≡ true) same chosen)
        | inr later ↦ let (found, test) = select-Among p a rest later in (inr found, test)
      ]
  | inr passed ↦
      let later : Among a (select p rest) = rw passed at h in
      let (found, test) = select-Among p a rest later in (inr found, test)
]

only_match-Among :
    (actions : List AllowedAction) {a : AllowedAction} → only_match actions ≡ ok a → Among a actions
only_match-Among [] h = absurd (cc h)
only_match-Among (b ∷ []) {a} h = let same : b ≡ a = cc h in inl same
only_match-Among (b ∷ c ∷ rest) h = absurd (cc h)

-- The test of the match.
abbrev pub named : String → ActionKind → AllowedAction → Bool
named action_id action a = a.action_id == action_id && a.action == action

-- What the guard checked of the action that it admits.
record Checked (s : WorkflowSnapshot) (allowed : AllowedActionSet) (proposal : ActionProposal)
    (proposer executor : ActorReference) (a : AllowedAction) : Type 0 where
  actor : same_actor proposal.proposer proposer ≡ true
  matched : match_of proposal.action_id proposal.action allowed.actions ≡ ok a
  allowed_here : permitted proposer executor s a ≡ true
  budget : within_budget proposal s a ≡ true
  arguments : arguments_fit proposal.arguments s a ≡ true

passes :
    {B : Type 0} (test : Bool) (fault : Fault) (rest : Result B) {b : B}
    → (reject_if (not test) fault >> rest) ≡ ok b
    → (test ≡ true) × (rest ≡ ok b)
passes true fault rest h = (refl, h)
passes false fault rest h = absurd (cc h)

bind-ok :
    {A B : Type 0} (r : Result A) (rest : A → Result B) {b : B}
    → (r >>= rest) ≡ ok b
    → (a : A) × (r ≡ ok a) × (rest a ≡ ok b)
bind-ok (ok a) rest h = (a, refl, h)
bind-ok (err e) rest h = absurd (cc h)

checked :
    (content_digest : WorkflowSnapshot → String) (s : WorkflowSnapshot) (proposal : ActionProposal)
    (proposer executor : ActorReference) (allowed : AllowedActionSet)
    → admit_action content_digest proposal proposer executor s allowed ≡ ok tt
    → (a : AllowedAction) × Checked s allowed proposal proposer executor a
unfolding admit_action admitted_action
checked content_digest s proposal proposer executor allowed h =
    let (a, admitted, _) =
      bind-ok (admitted_action content_digest proposal proposer executor s allowed) (λ _. ok tt)
        h in
    let (_, h₁) =
      passes (typed_proposal proposal && valid_snapshot s && valid_set allowed) value_error _
        admitted in
    let (actor, h₂) =
      passes (same_actor proposal.proposer proposer) (service_fault unauthorized) _ h₁ in
    let (_, h₃) =
      passes (is_current (content_digest s) proposal s allowed) (service_fault conflict) _ h₂ in
    let (b, matched, h₄) =
      bind-ok (match_of proposal.action_id proposal.action allowed.actions) _ h₃ in
    let (fits, h₅) = passes (permitted proposer executor s b) (service_fault unauthorized) _ h₄ in
    let (budget, h₆) = passes (within_budget proposal s b) (service_fault capability) _ h₅ in
    let (arguments, last) =
      passes (arguments_fit proposal.arguments s b) (service_fault unauthorized) (ok b) h₆ in
    (
      b,
      record {
        actor = actor;
        matched = matched;
        allowed_here = fits;
        budget = budget;
        arguments = arguments;
      },
    )

-- The authority of an admitted proposal: a rule of the policy for its action, in a state and with
-- the prerequisites that the rule asks for, from the policy's own kind of proposer and a system
-- executor, within the budget, and with arguments that fit the action of the rule.
pub record IsAuthorized (p : ControlledActionPolicy) (s : WorkflowSnapshot)
    (proposal : ActionProposal) (executor : ActorReference) : Type 0 where
  pub rule : ActionPolicyRule
  pub action_id : rule.action_id ≡ proposal.action_id
  pub action : rule.action ≡ proposal.action
  pub state : is_in s.state rule.states ≡ true
  pub met : all_in rule.prerequisites s.satisfied_prerequisites ≡ true
  pub paid : affordable p.proposer_kind s rule ≡ true
  pub proposer : proposal.proposer.kind ≡ p.proposer_kind
  pub executor_kind : executor.kind ≡ system
  pub calls :
      required_model_calls proposal.proposer.kind proposal.attempt_count
        (model_cost p.proposer_kind)
      ≤ s.budget.model_calls_remaining
  pub arguments : arguments_fit proposal.arguments s (action_of p.proposer_kind s rule) ≡ true

named-eq :
    (action_id : String) (action : ActionKind) (a : AllowedAction)
    → named action_id action a ≡ true
    → (a.action_id ≡ action_id) × (a.action ≡ action)
named-eq action_id action a h = (
  (string_eq.beq_iff a.action_id action_id).0 (ground arith),
  (action_eq.beq_iff a.action action).0 (ground arith),
)

permitted_kinds :
    (proposer executor : ActorReference) (s : WorkflowSnapshot) (kind : ActorKind)
    (r : ActionPolicyRule)
    → permitted proposer executor s (action_of kind s r) ≡ true
    → (proposer.kind ≡ kind) × (executor.kind ≡ system)
permitted_kinds proposer executor s kind r h = (
  (actor_eq.beq_iff proposer.kind kind).0 (ground arith),
  (actor_eq.beq_iff executor.kind system).0 (ground arith),
)

within_budget_calls :
    (proposal : ActionProposal) (s : WorkflowSnapshot) (kind : ActorKind) (r : ActionPolicyRule)
    → within_budget proposal s (action_of kind s r) ≡ true
    → required_model_calls proposal.proposer.kind proposal.attempt_count (model_cost kind)
      ≤ s.budget.model_calls_remaining
within_budget_calls proposal s kind r h = ground arith

same_actor-kind : (a b : ActorReference) → same_actor a b ≡ true → a.kind ≡ b.kind
same_actor-kind a b h = (actor_eq.beq_iff a.kind b.kind).0 (ground arith)

pub admit_action-IsAuthorized :
    (content_digest : WorkflowSnapshot → String) (p : ControlledActionPolicy) (s : WorkflowSnapshot)
    (proposal : ActionProposal) (proposer executor : ActorReference) {allowed : AllowedActionSet}
    → IsRegistry p.rules
    → valid_snapshot s ≡ true
    → derive content_digest p s ≡ ok allowed
    → admit_action content_digest proposal proposer executor s allowed ≡ ok tt
    → IsAuthorized p s proposal executor
admit_action-IsAuthorized content_digest p s proposal proposer executor {allowed} g v derived
      admitted =
    let (set, done, d) = derive-IsDerived content_digest p s g v in
    let same : set ≡ allowed = cc (done, derived) in
    let (a, c) = checked content_digest s proposal proposer executor allowed admitted in
    let in_set : match_of proposal.action_id proposal.action d.actions ≡ ok a =
      subst (λ (x : AllowedActionSet). match_of proposal.action_id proposal.action x.actions ≡ ok a)
        (sym same ∙ d.set) c.matched in
    let (among, test) =
      select-Among (named proposal.action_id proposal.action) a d.actions
        (only_match-Among (select (named proposal.action_id proposal.action) d.actions) in_set) in
    let o = d.origin a among in
    let (id, kind) = named-eq proposal.action_id proposal.action a test in
    let allowed_here : permitted proposer executor s (action_of p.proposer_kind s o.rule) ≡ true =
      subst (λ x. permitted proposer executor s x ≡ true) o.made c.allowed_here in
    let (by, for) = permitted_kinds proposer executor s p.proposer_kind o.rule allowed_here in
    record {
      rule = o.rule;
      action_id = sym (ap (λ (x : AllowedAction). x.action_id) o.made) ∙ id;
      action = sym (ap (λ (x : AllowedAction). x.action) o.made) ∙ kind;
      state = o.state;
      met = o.met;
      paid = o.paid;
      proposer = same_actor-kind proposal.proposer proposer c.actor ∙ by;
      executor_kind = for;
      calls =
          within_budget_calls proposal s p.proposer_kind o.rule
            (subst (λ x. within_budget proposal s x ≡ true) o.made c.budget);
      arguments = subst (λ x. arguments_fit proposal.arguments s x ≡ true) o.made c.arguments;
    }
