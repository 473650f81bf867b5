-- ===== src/ActionPolicy/Derivation.antt =====
-- The derivation of action_policy.py never fails on a snapshot that its own validators accept.
use newtaipei_appraisal_revi.Prelude.{
  String, ◌≡◌, refl, sym, true, false, Option, List, [], ◌∷◌, inl, inr, ◌⊎◌, string_eq, is_in,
  all_in, distinct, same_list_refl, beq_refl, beq-cases, all_in-members, arith,
}
use newtaipei_appraisal_revi.Faults.{Result, ok, ◌>>=◌}
use newtaipei_appraisal_revi.ServiceGuards.{ActorKind}
use newtaipei_appraisal_revi.ActionContracts.{
  ActionKind, state_eq, action_eq, prerequisite_eq, purpose_eq,
}
use newtaipei_appraisal_revi.ActionContracts.Snapshot.{
  WorkflowSnapshot, AllowedAction, AllowedActionSet, purposes_of, identities, exact_state,
  action_ids, action_kinds, binds, unambiguous_registry, revision_eq, rule_eq, valid_snapshot,
  valid_set, bounded_authority, all_bounded,
}
use newtaipei_appraisal_revi.ActionPolicy.{
  ActionPolicyRule, ControlledActionPolicy, rule_ids, is_registered, unambiguous, validate_registry,
  action_of, affordable, with_found, derive_rules, action_set, derive,
}
use newtaipei_appraisal_revi.ActionPolicy.Registry.{
  Registrations, Registers, unambiguous-parts, bindable,
}
use newtaipei_appraisal_revi.ActionPolicy.Actions.{Derived, skipped, taken, derive_rule-Derived}

-- The action is the list's, as it is.
abbrev pub Among : AllowedAction → List AllowedAction → Type 0
Among a [] = ⊥
Among a (b ∷ rest) = (b ≡ a) ⊎ Among a rest

-- An action is what a rule makes for the snapshot, whose state and prerequisites the rule asks for.
pub record Origin (kind : ActorKind) (s : WorkflowSnapshot) (a : AllowedAction) : Type 0 where
  pub rule : ActionPolicyRule
  pub made : a ≡ action_of kind s rule
  pub state : is_in s.state rule.states ≡ true
  pub met : all_in rule.prerequisites s.satisfied_prerequisites ≡ true
  pub paid : affordable kind s rule ≡ true

-- The actions that the rules behind `seen` give: each has its rule and binds the revision, and no
-- identifier and no kind comes twice.
pub record Listed (kind : ActorKind) (s : WorkflowSnapshot) (rules : List ActionPolicyRule)
    (seen : Registrations) (actions : List AllowedAction) : Type 0 where
  pub ids : (i : String) → is_in i (rule_ids rules) ≡ false → is_in i (action_ids actions) ≡ false
  pub distinct_ids : distinct (rule_ids rules) ≡ true → distinct (action_ids actions) ≡ true
  pub kinds :
      (k : ActionKind)
      → is_registered s.state k seen ≡ true
      → is_in k (action_kinds actions) ≡ false
  pub distinct_kinds : distinct (action_kinds actions) ≡ true
  pub bound :
      binds s.revision.reference s.revision.rules (purposes_of s.revision.documents) actions ≡ true
  pub bounded : all_bounded actions ≡ true
  pub origin : (a : AllowedAction) → Among a actions → Origin kind s a

module _ (kind : ActorKind) (s : WorkflowSnapshot) where
  skip-Listed :
      (r : ActionPolicyRule) (rs : List ActionPolicyRule) (seen seen' : Registrations)
      (rest : List AllowedAction)
      → Registers r.action r.states seen seen'
      → Listed kind s rs seen' rest
      → Listed kind s (r ∷ rs) seen rest
  skip-Listed r rs seen seen' rest g l = record {
    ids = λ i out. l.ids i (ground arith);
    distinct_ids = λ d. l.distinct_ids (ground arith);
    kinds = λ k known. l.kinds k (g.kept s.state k known);
    distinct_kinds = l.distinct_kinds;
    bound = l.bound;
    bounded = l.bounded;
    origin = l.origin;
  }

  take-Listed :
      (r : ActionPolicyRule) (rs : List ActionPolicyRule) (seen seen' : Registrations)
      (rest : List AllowedAction)
      → Registers r.action r.states seen seen'
      → is_in s.state r.states ≡ true
      → all_in r.prerequisites s.satisfied_prerequisites ≡ true
      → affordable kind s r ≡ true
      → bounded_authority (action_of kind s r) ≡ true
      → Listed kind s rs seen' rest
      → Listed kind s (r ∷ rs) seen (action_of kind s r ∷ rest)
  take-Listed r rs seen seen' rest g here met paid well l =
      let own = l.kinds r.action (g.taken s.state here) in
      record {
        ids = λ i out. let later = l.ids i (ground arith) in ground arith;
        distinct_ids = λ d.
            let mine = l.ids r.action_id (ground arith) in
            let later = l.distinct_ids (ground arith) in ground arith;
        kinds = λ k known. elim (beq-cases k r.action) [
          | inl same ↦
              let taken_before : is_registered s.state r.action seen ≡ true = rw same at known in
              absurd (cc (taken_before, g.free s.state here))
          | inr other ↦ let later = l.kinds k (g.kept s.state k known) in ground arith
        ];
        distinct_kinds = let later = l.distinct_kinds in ground arith;
        bound =
            rw
              (
                beq_refl s.revision.reference,
                same_list_refl s.revision.rules,
                all_in-members r.document_purposes (purposes_of s.revision.documents),
              )
              l.bound;
        bounded = rw well l.bounded;
        origin = λ a among. elim among [
          | inl same ↦ record { rule = r; made = sym same; state = here; met = met; paid = paid }
          | inr there ↦ l.origin a there
        ];
      }

  found-Listed :
      (r : ActionPolicyRule) (rs : List ActionPolicyRule) (seen seen' : Registrations)
      {o : Result (Option AllowedAction)} {later : Result (List AllowedAction)}
      → Registers r.action r.states seen seen'
      → Derived kind s r o
      → (rest : List AllowedAction) × (later ≡ ok rest) × Listed kind s rs seen' rest
      → (actions : List AllowedAction) × ((o >>= λ found.
            later >>= λ rest. ok (with_found found rest))
          ≡ ok actions)
        × Listed kind s (r ∷ rs) seen actions
  found-Listed r rs seen seen' g skipped (rest, done, l) =
      (rest, rw done refl, skip-Listed r rs seen seen' rest g l)
  found-Listed r rs seen seen' g (taken here met paid well) (rest, done, l) = (
    action_of kind s r ∷ rest,
    rw done refl,
    take-Listed r rs seen seen' rest g here met paid well l,
  )

  pub derive_rules-Listed :
      (rules : List ActionPolicyRule) (seen : Registrations)
      → unambiguous rules seen ≡ true
      → bindable rules ≡ true
      → identities s.revision ≡ true
      → exact_state s ≡ true
      → (actions : List AllowedAction) × (derive_rules kind s rules ≡ ok actions)
        × Listed kind s rules seen actions
  unfolding derive_rules bindable
  derive_rules-Listed [] seen u b i e = (
    [],
    refl,
    record {
      ids = λ i out. refl;
      distinct_ids = λ d. refl;
      kinds = λ k known. refl;
      distinct_kinds = refl;
      bound = refl;
      bounded = refl;
      origin = λ a among. absurd among;
    },
  )
  derive_rules-Listed (r ∷ rs) seen u b i e =
      let (v, (seen', g, later)) = unambiguous-parts r rs seen u in
      found-Listed r rs seen seen' g (derive_rule-Derived kind s r v (ground arith) i e)
        (derive_rules-Listed rs seen' later (ground arith) i e)

-- A derivation that returns: the set of the actions that the rules give.
pub record IsDerived (content_digest : WorkflowSnapshot → String) (p : ControlledActionPolicy)
    (s : WorkflowSnapshot) (allowed : AllowedActionSet) : Type 0 where
  pub actions : List AllowedAction
  pub set : allowed ≡ action_set content_digest p s actions
  pub distinct_ids : distinct (action_ids actions) ≡ true
  pub origin : (a : AllowedAction) → Among a actions → Origin p.proposer_kind s a
  pub valid : valid_set allowed ≡ true

-- A registry that is validated and leaves the preparation states to the source actions.
pub record IsRegistry (rules : List ActionPolicyRule) : Type 0 where
  pub validated : validate_registry rules ≡ true
  pub binds : bindable rules ≡ true

pub derive-IsDerived :
    (content_digest : WorkflowSnapshot → String) (p : ControlledActionPolicy) (s : WorkflowSnapshot)
    → IsRegistry p.rules
    → valid_snapshot s ≡ true
    → (allowed : AllowedActionSet) × (derive content_digest p s ≡ ok allowed)
      × IsDerived content_digest p s allowed
unfolding derive validate_registry unambiguous_registry identities
derive-IsDerived content_digest p s g v =
    let (actions, done, l) =
      derive_rules-Listed p.proposer_kind s p.rules [] (unambiguous_part g.validated) g.binds
        (ground arith) (ground arith) in
    let ids = l.distinct_ids (distinct_part g.validated) in
    let kinds = l.distinct_kinds in
    let bound = l.bound in
    let accepted : unambiguous_registry (action_set content_digest p s actions) ≡ true =
      ground arith in
    (
      action_set content_digest p s actions,
      rw (v, done, accepted) refl,
      record {
        actions = actions;
        set = refl;
        distinct_ids = ids;
        origin = l.origin;
        valid = rw (l.bounded, accepted) refl;
      },
    )
  where
    unambiguous_part : validate_registry p.rules ≡ true → unambiguous p.rules [] ≡ true
    unambiguous_part h = ground arith

    distinct_part : validate_registry p.rules ≡ true → distinct (rule_ids p.rules) ≡ true
    distinct_part h = ground arith

-- On a snapshot that its own validators accept, a policy with a validated registry, whose rules for
-- review and for people leave the preparation states alone, derives a set of actions: the validators
-- of the actions and of the set refuse nothing that the rules give.
pub derive_total :
    (content_digest : WorkflowSnapshot → String) (p : ControlledActionPolicy) (s : WorkflowSnapshot)
    → IsRegistry p.rules
    → valid_snapshot s ≡ true
    → (allowed : AllowedActionSet) × (derive content_digest p s ≡ ok allowed)
      × (valid_set allowed ≡ true)
derive_total content_digest p s g v =
    let (allowed, done, d) = derive-IsDerived content_digest p s g v in (allowed, done, d.valid)
