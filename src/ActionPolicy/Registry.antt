-- ===== src/ActionPolicy/Registry.antt =====
-- The registrations of a validated registry of action_policy.py: one rule for a state and an action.
use newtaipei_appraisal_revi.Prelude.{
  ◌≡◌, Bool, true, false, ◌&&◌, ◌||◌, none, some, List, [], ◌∷◌, Bool-cases, Option-cases, inl, inr,
  beq-cases, is_in, is_empty, select, beq_refl, arith,
}
use newtaipei_appraisal_revi.ActionContracts.{ActionKind, WorkflowState, state_eq, action_eq}
use newtaipei_appraisal_revi.ActionContracts.Snapshot.{source_action, preparation_states}
use newtaipei_appraisal_revi.ActionPolicy.{
  ActionPolicyRule, valid_rule, is_registered, register, unambiguous,
}

abbrev pub Registrations : Type 0
Registrations = List (WorkflowState × ActionKind)

-- The states of a rule were free for its action, and are taken afterwards.
pub record Registers (k : ActionKind) (states : List WorkflowState) (seen seen' : Registrations)
    : Type 0 where
  pub kept :
      (s : WorkflowState) (j : ActionKind)
      → is_registered s j seen ≡ true
      → is_registered s j seen' ≡ true
  pub taken : (s : WorkflowState) → is_in s states ≡ true → is_registered s k seen' ≡ true
  pub free : (s : WorkflowState) → is_in s states ≡ true → is_registered s k seen ≡ false

register-Registers :
    (k : ActionKind) (states : List WorkflowState) (seen : Registrations) {seen' : Registrations}
    → register k states seen ≡ some seen'
    → Registers k states seen seen'
unfolding register
register-Registers k [] seen h = record {
  kept = λ s j known. ground arith;
  taken = λ s none_in. absurd (cc none_in);
  free = λ s none_in. absurd (cc none_in);
}
register-Registers k (s ∷ states) seen {seen'} h = elim (Bool-cases (is_registered s k seen)) [
  | inl clash ↦ let refused : none ≡ some seen' = rw clash at h in absurd (cc refused)
  | inr fresh ↦
      let later : register k states ((s, k) ∷ seen) ≡ some seen' = rw fresh at h in
      let ih = register-Registers k states ((s, k) ∷ seen) later in
      record {
        kept = λ t j known. ih.kept t j (ground arith);
        taken = λ t here. elim (beq-cases t s) [
          | inl same ↦ rw same (ih.kept s k (ground (arith, beq_refl s, beq_refl k)))
          | inr other ↦ ih.taken t (ground arith)
        ];
        free = λ t here. elim (beq-cases t s) [
          | inl same ↦ rw same fresh
          | inr other ↦ let beyond = ih.free t (ground arith) in ground arith
        ];
      }
]

-- A rule and those behind it, over what is registered before it.
pub unambiguous-parts :
    (r : ActionPolicyRule) (rs : List ActionPolicyRule) (seen : Registrations)
    → unambiguous (r ∷ rs) seen ≡ true
    → (valid_rule r ≡ true)
      × ((seen' : Registrations) × Registers r.action r.states seen seen'
          × (unambiguous rs seen' ≡ true))
unfolding unambiguous
unambiguous-parts r rs seen h = elim (Option-cases (register r.action r.states seen)) [
  | inl refused ↦
      let never : (valid_rule r && false) ≡ true = rw refused at h in absurd (ground arith)
  | inr (seen', done) ↦
      let both : (valid_rule r && unambiguous rs seen') ≡ true = rw done at h in
      (ground arith, (seen', register-Registers r.action r.states seen done, ground arith))
]

-- Only source actions are allowed while the sources are prepared: a registry that binds its actions.
unfoldable pub bindable : List ActionPolicyRule → Bool
bindable [] = true
bindable (r ∷ rs) =
    (source_action r.action || is_empty (select (λ s. is_in s preparation_states) r.states))
    && bindable rs

-- A member that passes a test is selected.
pub select-is_in :
    (p : WorkflowState → Bool) (s : WorkflowState) (xs : List WorkflowState)
    → is_in s xs ≡ true
    → p s ≡ true
    → is_empty (select p xs) ≡ false
select-is_in p s [] h k = absurd (cc h)
select-is_in p s (x ∷ xs) h k = elim (beq-cases s x) [
  | inl same ↦ let here : p x ≡ true = rw same at k in rw here
  | inr other ↦ let there = select-is_in p s xs (ground arith) k in ground arith
]
