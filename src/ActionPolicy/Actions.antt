-- ===== src/ActionPolicy/Actions.antt =====
-- The action that a validated rule of action_policy.py gives passes the validator of its model.
use newtaipei_appraisal_revi.Prelude.{
  ◌≡◌, refl, Bool, true, false, not, ◌&&◌, Option, none, some, List, [], ◌∷◌, is_empty, ltb, select,
  Bool-cases, inl, inr, is_in, all_in, distinct, distinct-select, all_in-select, if◌then◌else◌,
  arith,
}
use newtaipei_appraisal_revi.Faults.{Result, ok}
use newtaipei_appraisal_revi.ServiceGuards.{
  ActorKind, model, DocumentPurpose, reference, brief, template,
}
use newtaipei_appraisal_revi.ActionContracts.{
  ActionKind, state_eq, action_eq, prerequisite_eq, purpose_eq, actor_eq,
}
use newtaipei_appraisal_revi.ActionContracts.Snapshot.{
  WorkflowSnapshot, AllowedAction, purposes_of, source_action, sourced, preparation_states,
  identities, exact_state, bounded_authority,
}
use newtaipei_appraisal_revi.ActionPolicy.{
  ActionPolicyRule, valid_rule, model_cost, permitted_purposes, action_of, affordable, derive_rule,
}
use newtaipei_appraisal_revi.ActionPolicy.Registry.{bindable, select-is_in}

-- What the checks of a rule say.
record RuleFacts (r : ActionPolicyRule) : Type 0 where
  some_state : is_empty r.states ≡ false
  states : distinct r.states ≡ true
  prerequisites : distinct r.prerequisites ≡ true
  purposes : distinct r.document_purposes ≡ true
  sources : sourced r.action r.document_purposes ≡ true
  no_template : is_in template r.document_purposes ≡ false

rule_facts : (r : ActionPolicyRule) → valid_rule r ≡ true → RuleFacts r
unfolding valid_rule
rule_facts r h = record {
  some_state = ground arith;
  states = ground arith;
  prerequisites = ground arith;
  purposes = ground arith;
  sources = ground arith;
  no_template = ground arith;
}

select-no_template :
    (p : DocumentPurpose → Bool) (xs : List DocumentPurpose)
    → is_in template xs ≡ false
    → is_in template (select p xs) ≡ false
select-no_template p [] h = refl
select-no_template p (x ∷ xs) h = ground (arith, select-no_template p xs)

-- A part of the purposes suits the action where the purposes do and the part leaves some, if any.
sourced-select :
    (k : ActionKind) (p : DocumentPurpose → Bool) (xs : List DocumentPurpose)
    → sourced k xs ≡ true
    → (is_empty xs ≡ false → is_empty (select p xs) ≡ false)
    → sourced k (select p xs) ≡ true
sourced-select k p [] h some_left = h
sourced-select k p (x ∷ xs) h some_left =
    let left = some_left refl in
    let sub = all_in-select p (x ∷ xs) (reference ∷ brief ∷ []) in ground arith

module _ (kind : ActorKind) (s : WorkflowSnapshot) (r : ActionPolicyRule) where
  model_counted : ltb 0 (model_cost kind) ≡ is_in model (kind ∷ [])
  model_counted = ground arith

  -- An action that is no source action is allowed on review material alone, which has rules.
  ruled :
      identities s.revision ≡ true
      → exact_state s ≡ true
      → is_in s.state r.states ≡ true
      → bindable (r ∷ []) ≡ true
      → (is_empty s.revision.rules && not (source_action r.action)) ≡ false
  unfolding identities exact_state bindable
  ruled i e here b = elim (Bool-cases (is_in s.state preparation_states)) [
    | inl preparing ↦
        let chosen =
          select-is_in (λ t. is_in t preparation_states) s.state r.states here preparing in
        ground arith
    | inr ready ↦ ground arith
  ]

  action_of-bounded_authority :
      valid_rule r ≡ true
      → identities s.revision ≡ true
      → exact_state s ≡ true
      → is_in s.state r.states ≡ true
      → bindable (r ∷ []) ≡ true
      → (is_empty r.document_purposes ≡ false → is_empty (permitted_purposes s r) ≡ false)
      → bounded_authority (action_of kind s r) ≡ true
  unfolding bounded_authority
  action_of-bounded_authority v i e here b some_left =
      let f = rule_facts r v in
      let present = λ (p : DocumentPurpose). is_in p (purposes_of s.revision.documents) in
      let chosen = distinct-select present r.document_purposes f.purposes in
      let suited = sourced-select r.action present r.document_purposes f.sources some_left in
      let plain = select-no_template present r.document_purposes f.no_template in
      let known = ruled i e here b in
      rw (f.some_state, known, f.states, chosen, f.prerequisites, suited, plain) (ground arith)

-- A rule gives nothing, or the action that its fields make for the snapshot, in a state of the rule.
pub data Derived (kind : ActorKind) (s : WorkflowSnapshot) (r : ActionPolicyRule)
    : Result (Option AllowedAction) → Type 0 where
  skipped : Derived kind s r (ok none)
  taken :
      is_in s.state r.states ≡ true
      → all_in r.prerequisites s.satisfied_prerequisites ≡ true
      → affordable kind s r ≡ true
      → bounded_authority (action_of kind s r) ≡ true
      → Derived kind s r (ok (some (action_of kind s r)))

unless_skipped :
    {kind : ActorKind} {s : WorkflowSnapshot} {r : ActionPolicyRule} (test : Bool)
    (rest : Result (Option AllowedAction))
    → (test ≡ false → Derived kind s r rest)
    → Derived kind s r (if test then ok none else rest)
unless_skipped true rest h = skipped
unless_skipped false rest h = h refl

pub derive_rule-Derived :
    (kind : ActorKind) (s : WorkflowSnapshot) (r : ActionPolicyRule)
    → valid_rule r ≡ true
    → bindable (r ∷ []) ≡ true
    → identities s.revision ≡ true
    → exact_state s ≡ true
    → Derived kind s r (derive_rule kind s r)
unfolding derive_rule
derive_rule-Derived kind s r v b i e = unless_skipped (not (is_in s.state r.states)) _ (λ here.
    unless_skipped (not (all_in r.prerequisites s.satisfied_prerequisites)) _ (λ met.
      unless_skipped (r.requires_blockers && is_empty s.unresolved_blockers) _ (λ _.
        unless_skipped (not (affordable kind s r)) _ (λ fits.
          unless_skipped (not (is_empty r.document_purposes) && is_empty (permitted_purposes s r)) _
            (λ some_left.
              let in_state : is_in s.state r.states ≡ true = ground arith in
              let held : all_in r.prerequisites s.satisfied_prerequisites ≡ true = ground arith in
              let paid : affordable kind s r ≡ true = ground arith in
              let built_well =
                action_of-bounded_authority kind s r v i e in_state b (λ any. ground arith) in
              rw built_well (taken in_state held paid built_well))))))
