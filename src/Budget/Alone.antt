-- ===== src/Budget/Alone.antt =====
-- `reserve` of competition_budget.py where no other worker and no fault comes in between.
use newtaipei_appraisal_revi.Prelude.{
  ℕ, String, ◌≡◌, refl, ap, subst, ◌∙◌, ◌⊎◌, inl, inr, Bool-cases, true, false, Option, some, List,
  ◌∷◌, string_eq, beq_refl, arith,
}
use newtaipei_appraisal_revi.Prelude.Dict.{Dict}
use newtaipei_appraisal_revi.Budget.{
  done, denied, exhausted, OperationReservation, BudgetLimits, CompetitionProfile,
}
use newtaipei_appraisal_revi.Budget.Bound.{DataPart, bound_for}
use newtaipei_appraisal_revi.Budget.Ledger.{
  Stable, Item, Amounts, counters_of, stable_of, added, exceeds, same_stable, same_item,
  read_amounts, plan_of, update_item, in_window,
}
use newtaipei_appraisal_revi.Budget.Committed.{
  used, IsLedger, WithinLimits, added-used, not_exceeds,
}
use newtaipei_appraisal_revi.Budget.Reserve.{answered, Attempt, attempt, attempts, reserve}

-- A read and a write that both arrive, with no write of others.
abbrev pub calm : ℕ → ℕ → Attempt
calm before after = record {
  meanwhile = λ row. row;
  read_fails = false;
  before_write = before;
  interleaved = λ row. row;
  delivery = answered;
  after_write = after;
}

same_stable_refl : (s : Stable) → same_stable s s ≡ true
same_stable_refl s = ground (arith, beq_refl s.pk, beq_refl s.profile_digest)

same_item_refl :
    (s : Stable) (a : Amounts)
    → same_item
        (record { stable = s; counters = counters_of a })
        (record { stable = s; counters = counters_of a })
      ≡ true
same_item_refl s a = ground (arith, same_stable_refl s)

module _ (profile : CompetitionProfile) (bound : OperationReservation)
    (rs : List OperationReservation) where
  abbrev ledger_row : List OperationReservation → Option Item
  ledger_row qs = some (record { stable = stable_of profile; counters = counters_of (used qs) })

  attempts-fits :
      (before after : ℕ) (readings : ℕ → Attempt)
      → readings 0 ≡ calm before after
      → in_window profile.budget before ≡ true
      → in_window profile.budget after ≡ true
      → exceeds profile.budget (added bound (used rs)) ≡ false
      → attempts profile bound 8 readings (ledger_row rs) ≡ (
        done tt,
        some
            (record { stable = stable_of profile; counters = counters_of (added bound (used rs)) }),
      )
  unfolding attempts attempt plan_of read_amounts update_item used
  attempts-fits before after readings first open_before open_after fits =
      rw
        (
          first,
          same_stable_refl (stable_of profile),
          fits,
          open_before,
          same_item_refl (stable_of profile) (used rs),
          open_after,
        )
        refl

  attempts-exceeds :
      (before after : ℕ) (readings : ℕ → Attempt)
      → readings 0 ≡ calm before after
      → exceeds profile.budget (added bound (used rs)) ≡ true
      → attempts profile bound 8 readings (ledger_row rs) ≡ (denied exhausted, ledger_row rs)
  unfolding attempts attempt plan_of read_amounts used
  attempts-exceeds before after readings first over =
      rw (first, same_stable_refl (stable_of profile), over) refl

within-not_exceeds :
    (budget : BudgetLimits) (a : Amounts) → WithinLimits budget a → exceeds budget a ≡ false
unfolding exceeds
within-not_exceeds budget a h =
    let calls = h.calls in
    let input_tokens = h.input_tokens in
    let output_tokens = h.output_tokens in let cost_usd = h.cost_usd in ground arith

-- Where the clock stays in the window, no other worker writes in between and no answer is lost, a
-- call whose request is covered by a known bound is decided by the sums alone: it returns at its
-- first attempt, and the row counts its reservation as well, where the number of reservations and the
-- sums of their tokens and their cost with it stay within the limits; otherwise it is denied as
-- exhausted and leaves the row as it was.
pub reserve-alone :
    (profile : CompetitionProfile) (max_tokens_of : List ℕ → Option ℕ) (operation : String)
    (parameters : Dict String String) (parts : List DataPart) (start before after : ℕ)
    (readings : ℕ → Attempt) (rs : List OperationReservation) (row : Option Item)
    {bound : OperationReservation}
    → bound_for max_tokens_of profile operation parameters parts ≡ done bound
    → readings 0 ≡ calm before after
    → in_window profile.budget start ≡ true
    → in_window profile.budget before ≡ true
    → in_window profile.budget after ≡ true
    → IsLedger profile rs row
    → (((reserve profile max_tokens_of operation parameters parts start readings row).0 ≡ done tt)
        × IsLedger profile
            (bound ∷ rs)
            (reserve profile max_tokens_of operation parameters parts start readings row).1)
      ⊎ ((¬ WithinLimits profile.budget (used (bound ∷ rs)))
          × (reserve profile max_tokens_of operation parameters parts start readings row
              ≡ (denied exhausted, row)))
unfolding reserve
reserve-alone profile max_tokens_of operation parameters parts start before after readings rs row
      {bound} known first open_start open_before open_after h =
    let sums = added-used bound rs in
    elim (Bool-cases (exceeds profile.budget (added bound (used rs)))) [
      | inl over ↦ inr (
        (λ fits.
            let ok = within-not_exceeds profile.budget (used (bound ∷ rs)) fits in
            let bad = subst (λ a. exceeds profile.budget a ≡ true) sums over in cc (ok, bad)),
        rw (known, open_start, h.stored)
            (attempts-exceeds profile bound rs before after readings first over),
      )
      | inr fits ↦
          let done_ =
            attempts-fits profile bound rs before after readings first open_before open_after
              fits in
          inl (
            rw (known, open_start, h.stored) (ap (λ d. d.0) done_),
            rw (known, open_start, h.stored)
                (record {
                  stored =
                      ap (λ d. d.1) done_
                      ∙ ap
                          (λ a.
                            some (record { stable = stable_of profile; counters = counters_of a }))
                          sums;
                  limits =
                      subst (WithinLimits profile.budget) sums
                        (not_exceeds profile.budget (added bound (used rs)) fits);
                }),
          )
    ]
