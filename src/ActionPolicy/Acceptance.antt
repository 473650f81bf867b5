-- ===== src/ActionPolicy/Acceptance.antt =====
-- Every action that a policy of action_policy.py derives can be taken: `admit_action` of
-- service_guards.py accepts a faithful proposal of it.
use newtaipei_appraisal_revi.Prelude.{
  String, ◌≡◌, refl, sym, ap, subst, ◌⊎◌, inl, inr, true, false, none, some, List, [], ◌∷◌, select,
  ◌==◌, string_eq, nat_eq, option_eq, is_in, distinct, same_list_refl, beq_refl, beq-cases, arith,
}
use newtaipei_appraisal_revi.Faults.{ok}
use newtaipei_appraisal_revi.JobContracts.{RunReference}
use newtaipei_appraisal_revi.ServiceGuards.{ActorKind, system, ActorReference}
use newtaipei_appraisal_revi.ActionContracts.{
  ActionKind, state_eq, action_eq, prerequisite_eq, purpose_eq, actor_eq,
}
use newtaipei_appraisal_revi.ActionContracts.Snapshot.{
  WorkflowSnapshot, AllowedAction, AllowedActionSet, action_ids, revision_eq, rule_eq, document_eq,
  valid_snapshot, valid_set, same_run,
}
use newtaipei_appraisal_revi.ActionContracts.Proposals.{ActionProposal, typed_proposal}
use newtaipei_appraisal_revi.ActionPolicy.{
  ActionPolicyRule, ControlledActionPolicy, affordable, action_of, action_set, derive,
}
use newtaipei_appraisal_revi.ActionPolicy.Derivation.{Among, Origin, IsRegistry, derive-IsDerived}
use newtaipei_appraisal_revi.ActionPolicy.Admission.{
  is_current, permitted, within_budget, arguments_fit, admitted_action, admit_action,
}
use newtaipei_appraisal_revi.ActionPolicy.Authority.{named}

select_none :
    (action_id : String) (action : ActionKind) (actions : List AllowedAction)
    → is_in action_id (action_ids actions) ≡ false
    → select (named action_id action) actions ≡ []
select_none action_id action [] h = refl
select_none action_id action (b ∷ rest) h = elim (beq-cases b.action_id action_id) [
  | inl same ↦
      let here : (action_id == b.action_id) ≡ true = rw same (beq_refl action_id) in
      absurd (ground arith)
  | inr other ↦
      let passed : named action_id action b ≡ false = rw other in
      rw passed (select_none action_id action rest (ground arith))
]

Among-is_in :
    (a : AllowedAction) (actions : List AllowedAction)
    → Among a actions
    → is_in a.action_id (action_ids actions) ≡ true
Among-is_in a [] h = absurd h
Among-is_in a (b ∷ rest) (inl same) =
    let id : b.action_id ≡ a.action_id = ap (λ (x : AllowedAction). x.action_id) same in
    let here : (a.action_id == b.action_id) ≡ true = rw id (beq_refl a.action_id) in ground arith
Among-is_in a (b ∷ rest) (inr later) = let there = Among-is_in a rest later in ground arith

-- Where no identifier comes twice, an action of the list is the one that its name selects.
select_only :
    (a : AllowedAction) (actions : List AllowedAction)
    → distinct (action_ids actions) ≡ true
    → Among a actions
    → select (named a.action_id a.action) actions ≡ a ∷ []
select_only a [] d h = absurd h
select_only a (b ∷ rest) d (inl same) =
    let id : b.action_id ≡ a.action_id = ap (λ (x : AllowedAction). x.action_id) same in
    let alone : is_in b.action_id (action_ids rest) ≡ false = ground arith in
    let others = select_none a.action_id a.action rest (rw (← id) alone) in
    let chosen : named a.action_id a.action b ≡ true =
      subst (λ x. named a.action_id a.action x ≡ true) (sym same)
        (rw (beq_refl a.action_id, beq_refl a.action)) in
    rw (chosen, others, same)
select_only a (b ∷ rest) d (inr later) =
    let there = Among-is_in a rest later in
    let alone : is_in b.action_id (action_ids rest) ≡ false = ground arith in
    elim (beq-cases b.action_id a.action_id) [
      | inl same ↦
          let out : is_in a.action_id (action_ids rest) ≡ false = rw (← same) alone in
          absurd (cc (out, there))
      | inr other ↦
          let passed : named a.action_id a.action b ≡ false = rw other in
          rw passed (select_only a rest (ground arith) later)
    ]

-- A proposal for the action, the snapshot and the policy, of one attempt at most.
pub record IsFaithful (content_digest : WorkflowSnapshot → String) (p : ControlledActionPolicy)
    (s : WorkflowSnapshot) (a : AllowedAction) (proposal : ActionProposal) : Type 0 where
  pub typed : typed_proposal proposal ≡ true
  pub run : proposal.run ≡ s.run
  pub digest : proposal.snapshot_digest ≡ content_digest s
  pub version : proposal.policy_version ≡ p.policy_version
  pub action_id : proposal.action_id ≡ a.action_id
  pub action : proposal.action ≡ a.action
  pub proposer : proposal.proposer.kind ≡ p.proposer_kind
  pub attempts : (proposal.attempt_count ≡ none) ⊎ (proposal.attempt_count ≡ some 1)
  pub arguments : arguments_fit proposal.arguments s a ≡ true

same_run_refl : (r : RunReference) → same_run r r ≡ true
same_run_refl r = rw (beq_refl r.run_id, beq_refl r.revision, beq_refl r.attempt_id)

within_budget_once :
    (proposal : ActionProposal) (s : WorkflowSnapshot) (kind : ActorKind) (r : ActionPolicyRule)
    → proposal.proposer.kind ≡ kind
    → (proposal.attempt_count ≡ none) ⊎ (proposal.attempt_count ≡ some 1)
    → affordable kind s r ≡ true
    → within_budget proposal s (action_of kind s r) ≡ true
within_budget_once proposal s kind r by once paid = ground arith

module _ (content_digest : WorkflowSnapshot → String) (p : ControlledActionPolicy)
    (s : WorkflowSnapshot) where
  faithful-is_current :
      {a : AllowedAction} {proposal : ActionProposal} (actions : List AllowedAction)
      → IsFaithful content_digest p s a proposal
      → is_current (content_digest s) proposal s (action_set content_digest p s actions) ≡ true
  faithful-is_current actions f = rw (
    f.run,
    f.digest,
    f.version,
    same_run_refl s.run,
    beq_refl (content_digest s),
    beq_refl p.policy_version,
    beq_refl s.revision.reference,
    same_list_refl s.revision.documents,
    same_list_refl s.revision.rules,
  )

  Origin-permitted :
      {a : AllowedAction} (proposer executor : ActorReference)
      → proposer.kind ≡ p.proposer_kind
      → executor.kind ≡ system
      → Origin p.proposer_kind s a
      → permitted proposer executor s a ≡ true
  Origin-permitted proposer executor by for o = rw (
    o.made,
    o.state,
    o.met,
    by,
    for,
    beq_refl p.proposer_kind,
    beq_refl s.revision.reference,
    same_list_refl s.revision.rules,
  )

-- Every action that a policy with a validated registry derives from a valid snapshot, whose rules
-- leave the preparation states to the source actions, is admitted: `admit_action` accepts a faithful
-- proposal of it, of one attempt at most and with arguments that fit, from its own proposer and for
-- a system executor.
pub derive-admit_action :
    (content_digest : WorkflowSnapshot → String) (p : ControlledActionPolicy) (s : WorkflowSnapshot)
    (a : AllowedAction) (proposal : ActionProposal) (executor : ActorReference)
    {allowed : AllowedActionSet}
    → IsRegistry p.rules
    → valid_snapshot s ≡ true
    → derive content_digest p s ≡ ok allowed
    → Among a allowed.actions
    → IsFaithful content_digest p s a proposal
    → executor.kind ≡ system
    → admit_action content_digest proposal proposal.proposer executor s allowed ≡ ok tt
unfolding admit_action admitted_action
derive-admit_action content_digest p s a proposal executor {allowed} g v derived among f for =
    let (set, done, d) = derive-IsDerived content_digest p s g v in
    let same : allowed ≡ action_set content_digest p s d.actions = cc (done, derived, d.set) in
    let valid : valid_set (action_set content_digest p s d.actions) ≡ true =
      subst (λ x. valid_set x ≡ true) d.set d.valid in
    let within : Among a d.actions =
      subst (λ (x : AllowedActionSet). Among a x.actions) same among in
    let o = d.origin a within in
    let only = select_only a d.actions d.distinct_ids within in
    let budget : within_budget proposal s a ≡ true =
      subst (λ x. within_budget proposal s x ≡ true) (sym o.made)
        (within_budget_once proposal s p.proposer_kind o.rule f.proposer f.attempts o.paid) in
    rw (
      same,
      f.typed,
      v,
      valid,
      beq_refl proposal.proposer.actor_id,
      beq_refl proposal.proposer.kind,
      faithful-is_current content_digest p s d.actions f,
      f.action_id,
      f.action,
      only,
      Origin-permitted content_digest p s proposal.proposer executor f.proposer for o,
      budget,
      f.arguments,
    )
