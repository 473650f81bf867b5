-- ===== src/Budget/Reserve.antt =====
-- `DynamoDBCompetitionBudget.reserve` of competition_budget.py: eight attempts of a read and a
-- conditional write, with the writes of other workers in between.
use newtaipei_appraisal_revi.Prelude.{
  ℕ, zero, suc, String, Bool, true, false, not, Option, List, if◌then◌else◌,
}
use newtaipei_appraisal_revi.Prelude.Dict.{Dict}
use newtaipei_appraisal_revi.Budget.{
  window_expired, reservation_unknown, contended, Outcome, done, denied, deny_if,
  OperationReservation, CompetitionProfile,
}
use newtaipei_appraisal_revi.Budget.Bound.{DataPart, bound_for}
use newtaipei_appraisal_revi.Budget.Ledger.{Item, Plan, plan_of, update_item, in_window}

-- What becomes of a conditional write: the answer arrives, or it is lost after or before the write.
pub data Delivery : Type 0 where
  answered lost_after lost_before : Delivery

-- What one attempt meets: the row that it reads, whether the read fails, what other workers make of
-- the row before the write, the fate of the write, and the clock before and after it.
pub record Attempt : Type 0 where
  pub meanwhile : Option Item → Option Item
  pub read_fails : Bool
  pub before_write : ℕ
  pub interleaved : Option Item → Option Item
  pub delivery : Delivery
  pub after_write : ℕ

-- `return`, `raise`, or the next attempt.
pub data Verdict : Type 0 where
  finished : Outcome (Unit {0}) → Verdict
  again : Verdict

module _ (profile : CompetitionProfile) where
  -- The answer to the write: the condition held, or another worker was first.
  abbrev pub settled : Bool → ℕ → Verdict
  settled true now = finished (deny_if (not (in_window profile.budget now)) window_expired)
  settled false now = again

  abbrev pub deliver : Delivery → Plan → ℕ → Option Item → Verdict × Option Item
  deliver answered plan now row =
      let written = update_item plan row in (settled written.0 now, written.1)
  deliver lost_after plan now row =
      (finished (denied reservation_unknown), (update_item plan row).1)
  deliver lost_before plan now row = (finished (denied reservation_unknown), row)

  abbrev pub planned : Outcome Plan → Attempt → Option Item → Verdict × Option Item
  planned (denied fault) a row = (finished (denied fault), row)
  planned (done plan) a row = deliver a.delivery plan a.after_write (a.interleaved row)

  -- The body of the loop.
  unfoldable pub attempt : OperationReservation → Attempt → Option Item → Verdict × Option Item
  attempt bound a row =
      let seen = a.meanwhile row in
      if a.read_fails
      then (finished (denied reservation_unknown), seen)
      else planned (plan_of profile bound a.before_write seen) a seen

  abbrev pub unless_finished :
      Verdict × Option Item
      → (Option Item → Outcome (Unit {0}) × Option Item)
      → Outcome (Unit {0}) × Option Item
  unless_finished (finished outcome, row) rest = (outcome, row)
  unless_finished (again, row) rest = rest row

  -- The loop: its k-th attempt has a reading of its own.
  unfoldable pub attempts :
      OperationReservation → ℕ → (ℕ → Attempt) → Option Item → Outcome (Unit {0}) × Option Item
  unfolding attempt
  attempts bound zero readings row = (denied contended, row)
  attempts bound (suc n) readings row =
      unless_finished (attempt bound (readings 0) row)
        (λ row'. attempts bound n (λ k. readings (suc k)) row')

  abbrev pub bounded :
      Outcome OperationReservation
      → ℕ
      → (ℕ → Attempt)
      → Option Item
      → Outcome (Unit {0}) × Option Item
  bounded (denied fault) start readings row = (denied fault, row)
  bounded (done bound) start readings row =
      if not (in_window profile.budget start)
      then (denied window_expired, row)
      else attempts bound 8 readings row

  unfoldable pub reserve :
      (List ℕ → Option ℕ)
      → String
      → Dict String String
      → List DataPart
      → ℕ
      → (ℕ → Attempt)
      → Option Item
      → Outcome (Unit {0}) × Option Item
  unfolding attempts
  reserve max_tokens_of operation parameters parts start readings row =
      bounded (bound_for max_tokens_of profile operation parameters parts) start readings row
