-- ===== src/Budget/Committed.antt =====
-- The abstract ledger of competition_budget.py: the reservations that were committed, one after the
-- other, and what the row of the table shows of them.
use newtaipei_appraisal_revi.Prelude.{
  ℕ, ◌+◌, length, subst, String, ◌≤◌, ◌≡◌, refl, sym, ap, ◌∙◌, Bool, true, false, ◌&&◌, Option,
  none, some, List, [], ◌∷◌, ◌==◌, string_eq, inl, inr, Bool-cases, arith,
}
use newtaipei_appraisal_revi.Budget.{done, OperationReservation, BudgetLimits, CompetitionProfile}
use newtaipei_appraisal_revi.Budget.Ledger.{
  Attribute, Stable, Counters, Item, Amounts, Plan, counters_of, stable_of, added, exceeds,
  same_stable, same_attribute, same_item, approved, read_amounts, plan_of, update_item,
}

abbrev pub sum_of : (OperationReservation → ℕ) → List OperationReservation → ℕ
sum_of f [] = 0
sum_of f (r ∷ rs) = sum_of f rs + f r

-- What a list of reservations uses up: one call each, and the sums of their tokens and their cost.
unfoldable pub used : List OperationReservation → Amounts
used rs = record {
  calls = length rs;
  input_tokens = sum_of (λ r. r.input_tokens) rs;
  output_tokens = sum_of (λ r. r.output_tokens) rs;
  cost_usd = sum_of (λ r. r.cost_usd) rs;
  version = length rs;
}

-- The counters that the code computes are the sums with one reservation more.
pub added-used :
    (bound : OperationReservation) (rs : List OperationReservation)
    → added bound (used rs) ≡ used (bound ∷ rs)
unfolding used
added-used bound rs = ground arith

-- The limits of the profile hold of the sums of the committed reservations.
pub record WithinLimits (budget : BudgetLimits) (a : Amounts) : Type 0 where
  pub calls : a.calls ≤ budget.max_calls
  pub input_tokens : a.input_tokens ≤ budget.max_input_tokens
  pub output_tokens : a.output_tokens ≤ budget.max_output_tokens
  pub cost_usd : a.cost_usd ≤ budget.max_cost_usd

-- The row is the profile's, and its counters are the sums of the reservations, within the limits.
pub record IsLedger (profile : CompetitionProfile) (rs : List OperationReservation)
    (row : Option Item) : Type 0 where
  pub stored : row ≡ some (record { stable = stable_of profile; counters = counters_of (used rs) })
  pub limits : WithinLimits profile.budget (used rs)

pub not_exceeds :
    (budget : BudgetLimits) (a : Amounts) → exceeds budget a ≡ false → WithinLimits budget a
unfolding exceeds
not_exceeds budget a h = record {
  calls = ground arith;
  input_tokens = ground arith;
  output_tokens = ground arith;
  cost_usd = ground arith;
}

same_text : (s t : String) → (s == t) ≡ true → s ≡ t
same_text s t h = (string_eq.beq_iff s t).0 h

same_stable-eq : (a b : Stable) → same_stable a b ≡ true → a ≡ b
same_stable-eq a b h =
    ground (arith, same_text a.pk b.pk, same_text a.profile_digest b.profile_digest)

same_attribute-eq : (a b : Attribute) → same_attribute a b ≡ true → a ≡ b
same_attribute-eq a b h = ground arith

item_eq : (a b : Item) → a.stable ≡ b.stable → a.counters ≡ b.counters → a ≡ b
item_eq a b s c = cc

counters_eq :
    (c d : Counters)
    → c.calls ≡ d.calls
    → c.input_tokens ≡ d.input_tokens
    → c.output_tokens ≡ d.output_tokens
    → c.cost_usd ≡ d.cost_usd
    → c.version ≡ d.version
    → c ≡ d
counters_eq c d h₁ h₂ h₃ h₄ h₅ = cc

item_tests :
    (p q₁ q₂ q₃ q₄ q₅ : Bool)
    → (p && q₁ && q₂ && q₃ && q₄ && q₅) ≡ true
    → (p ≡ true) × (q₁ ≡ true) × (q₂ ≡ true) × (q₃ ≡ true) × (q₄ ≡ true) × (q₅ ≡ true)
item_tests p q₁ q₂ q₃ q₄ q₅ h = ground arith

-- The condition of the write holds of the observed row alone.
pub same_item-eq : (a b : Item) → same_item a b ≡ true → a ≡ b
same_item-eq a b h =
    let c = a.counters in
    let d = b.counters in
    let (s, h₁, h₂, h₃, h₄, h₅) =
      item_tests (same_stable a.stable b.stable) (same_attribute c.calls d.calls)
        (same_attribute c.input_tokens d.input_tokens)
        (same_attribute c.output_tokens d.output_tokens) (same_attribute c.cost_usd d.cost_usd)
        (same_attribute c.version d.version) h in
    item_eq a b (same_stable-eq a.stable b.stable s) (
      counters_eq c d (same_attribute-eq c.calls d.calls h₁)
        (same_attribute-eq c.input_tokens d.input_tokens h₂)
        (same_attribute-eq c.output_tokens d.output_tokens h₃)
        (same_attribute-eq c.cost_usd d.cost_usd h₄) (same_attribute-eq c.version d.version h₅))

-- A plan was made from a row that is the profile's, and its write adds its reservation to it.
pub record IsPlanned (profile : CompetitionProfile) (bound : OperationReservation) (plan : Plan)
    : Type 0 where
  pub stable : plan.observed.stable ≡ stable_of profile
  pub before : Amounts
  pub counters : plan.observed.counters ≡ counters_of before
  pub next : plan.next ≡ added bound before
  pub limits : WithinLimits profile.budget (added bound before)

read_amounts-done : (c : Counters) {a : Amounts} → read_amounts c ≡ done a → c ≡ counters_of a
unfolding read_amounts
read_amounts-done c {a} h = ground arith

plan_parts :
    (profile : CompetitionProfile) (bound : OperationReservation) (now : ℕ) (row : Option Item)
    {plan : Plan}
    → plan_of profile bound now row ≡ done plan
    → (item : Item) × (values : Amounts) × (approved (stable_of profile) row ≡ done item)
      × (read_amounts item.counters ≡ done values)
      × (exceeds profile.budget (added bound values) ≡ false)
      × (plan ≡ record { observed = item; next = added bound values })
unfolding plan_of
plan_parts profile bound now row h = ground arith

approved-done :
    (stable : Stable) (row : Option Item) {item : Item}
    → approved stable row ≡ done item
    → item.stable ≡ stable
approved-done stable none h = absurd (cc h)
approved-done stable (some seen) {item} h =
    let tested : same_stable seen.stable stable ≡ true = ground arith in
    let same : seen ≡ item = ground arith in
    ap (λ (x : Item). x.stable) (sym same) ∙ same_stable-eq seen.stable stable tested

pub plan_of-IsPlanned :
    (profile : CompetitionProfile) (bound : OperationReservation) (now : ℕ) (row : Option Item)
    {plan : Plan}
    → plan_of profile bound now row ≡ done plan
    → IsPlanned profile bound plan
plan_of-IsPlanned profile bound now row {plan} h =
    let (item, values, found, read, fits, made) = plan_parts profile bound now row h in
    rw made (record {
      stable = approved-done (stable_of profile) row found;
      before = values;
      counters = read_amounts-done item.counters read;
      next = refl;
      limits = not_exceeds profile.budget (added bound values) fits;
    })

amounts_eq : (a b : Amounts) → counters_of a ≡ counters_of b → a ≡ b
amounts_eq a b h = ground arith

-- What a write does: it adds its reservation to the ledger, or leaves the row alone.
pub data Write (profile : CompetitionProfile) (bound : OperationReservation)
    (rs : List OperationReservation) : Bool × Option Item → Type 0 where
  added_one :
      (row : Option Item) → IsLedger profile (bound ∷ rs) row → Write profile bound rs (true, row)
  left : (row : Option Item) → IsLedger profile rs row → Write profile bound rs (false, row)

module _ (profile : CompetitionProfile) (bound : OperationReservation)
    (rs : List OperationReservation) (plan : Plan) (p : IsPlanned profile bound plan) where
  abbrev item_of : List OperationReservation → Item
  item_of qs = record { stable = stable_of profile; counters = counters_of (used qs) }

  -- The condition holds where the sums are those that the plan was made from.
  held-before : same_item (item_of rs) plan.observed ≡ true → used rs ≡ p.before
  held-before test =
      let same = same_item-eq (item_of rs) plan.observed test in
      amounts_eq (used rs) p.before (ap (λ (i : Item). i.counters) same ∙ p.counters)

  held-IsLedger :
      same_item (item_of rs) plan.observed ≡ true
      → IsLedger profile
          (bound ∷ rs)
          (some (record { stable = stable_of profile; counters = counters_of plan.next }))
  held-IsLedger test =
      let same = held-before test in
      let sums : added bound p.before ≡ used (bound ∷ rs) =
        ap (added bound) (sym same) ∙ added-used bound rs in
      record {
        stored =
            ap (λ a. some (record { stable = stable_of profile; counters = counters_of a }))
              (p.next ∙ sums);
        limits = subst (WithinLimits profile.budget) sums p.limits;
      }

  pub update_item-Write :
      {row : Option Item} → IsLedger profile rs row → Write profile bound rs (update_item plan row)
  unfolding update_item
  update_item-Write {row} h =
      rw h.stored (elim (Bool-cases (same_item (item_of rs) plan.observed)) [
        | inl test ↦ rw test (added_one _ (held-IsLedger test))
        | inr test ↦ rw test (left _ (record { stored = refl; limits = h.limits }))
      ])
