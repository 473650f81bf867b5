-- ===== src/Budget.antt =====
-- src/appraisal_review/adapters/aws/competition_budget.py: the team's budget ledger on one DynamoDB
-- row, with what it reads of domain/competition_profile.py. This file has the denials and the
-- profile. Money is counted in units of one fine decimal place, a price per million tokens too.
mod Bound
mod Ledger
mod Reserve
mod Committed
mod Interleaving
mod Accounting
mod Alone
mod Witness
use newtaipei_appraisal_revi.Prelude.{
  ℕ, ◌+◌, ◌*◌, String, Bool, true, false, ◌&&◌, ◌||◌, not, Option, none, some, List, [], ◌∷◌, leb,
  ltb, is_empty, is_some, ◌==◌, string_eq, if◌then◌else◌,
}

-- The text of a `CompetitionBudgetFault`, without its prefix.
pub data BudgetFault : Type 0 where
  bounds_unknown routing_changed conservative_basis_missing request_unbounded pricing_unknown
        output_unbounded window_expired ledger_unapproved ledger_corrupt exhausted
        reservation_unknown contended :
      BudgetFault

pub data Outcome (A : Type 0) : Type 0 where
  done : A → Outcome A
  denied : BudgetFault → Outcome A

infixl 5 ◌>>=◌ ◌>>◌
abbrev pub ◌>>=◌ : {A B : Type 0} → Outcome A → (A → Outcome B) → Outcome B
denied fault >>= next = denied fault
done value >>= next = next value

abbrev pub ◌>>◌ : {B : Type 0} → Outcome (Unit {0}) → Outcome B → Outcome B
first >> second = first >>= λ _. second

-- `if test: raise CompetitionBudgetFault(...)`
abbrev pub deny_if : Bool → BudgetFault → Outcome (Unit {0})
deny_if true fault = denied fault
deny_if false fault = done tt

-- The pattern of the field fixes the ARN but for its region and the model's name.
pub record ModelDestination : Type 0 where
  pub region : String
  pub name : String

pub record ModelUse : Type 0 where
  pub model_id : String
  pub destinations : List ModelDestination
  pub destination_snapshot_sha256 : Option String
  pub context_window_tokens : Option ℕ

pub record OperationReservation : Type 0 where
  pub operation : String
  pub model_id : String
  pub max_request_bytes : ℕ
  pub input_tokens : ℕ
  pub output_tokens : ℕ
  pub cost_usd : ℕ
  pub destination_snapshot_sha256 : String
  pub input_price_per_million_usd : Option ℕ
  pub output_price_per_million_usd : Option ℕ
  pub maximum_request_fee_usd : Option ℕ

pub record BudgetLimits : Type 0 where
  pub scope : String
  pub window_seconds : ℕ
  pub max_calls : ℕ
  pub max_input_tokens : ℕ
  pub max_output_tokens : ℕ
  pub max_cost_usd : ℕ
  pub window_id : String
  pub window_start : ℕ
  pub operation_reservations : List OperationReservation

-- A profile whose budget window is known: the constructor of the ledger refuses any other. `digest`
-- is the SHA-256 of the profile's JSON text.
pub record CompetitionProfile : Type 0 where
  pub models : List ModelUse
  pub budget : BudgetLimits
  pub digest : String

-- `self.operation in {...}`
abbrev pub generates : String → Bool
generates operation = operation == "Converse" || operation == "InvokeModel"

abbrev counts_tokens : String → Bool
counts_tokens operation = generates operation || operation == "CountTokens"

abbrev window_covered : ℕ → Option ℕ → Bool
window_covered tokens none = false
window_covered tokens (some window) = leb window tokens

unfoldable windows_covered : ℕ → List ModelUse → Bool
windows_covered tokens [] = true
windows_covered tokens (m ∷ ms) =
    window_covered tokens m.context_window_tokens && windows_covered tokens ms

-- The comparison with the least cost, multiplied by the million that the source divides by.
abbrev covers_cost : OperationReservation → ℕ → ℕ → ℕ → Bool
covers_cost r input_price output_price fee =
    leb (r.input_tokens * input_price + r.output_tokens * output_price + fee * 1000000)
      (r.cost_usd * 1000000)

abbrev covers_prices : OperationReservation → List ModelUse → Option ℕ → Option ℕ → Option ℕ → Bool
covers_prices r models (some input_price) (some output_price) (some fee) =
    if counts_tokens r.operation && (is_empty models || not (windows_covered r.input_tokens models))
    then false
    else if generates r.operation && (ltb input_price 1 || ltb output_price 1)
    then false
    else covers_cost r input_price output_price fee
covers_prices r models _ _ _ = false

-- `OperationReservation.covers_worst_case`
unfoldable pub covers_worst_case : OperationReservation → List ModelUse → Bool
unfolding windows_covered
covers_worst_case r models =
    covers_prices r models r.input_price_per_million_usd r.output_price_per_million_usd
      r.maximum_request_fee_usd
