-- ===== src/Budget/Ledger.antt =====
-- The row of the ledger of competition_budget.py and the two requests on it: what is computed from a
-- row that was read, and the conditional write that pins that row.
use Prim.Native.String.{◌++◌}
use newtaipei_appraisal_revi.Prelude.{
  ℕ, ◌+◌, String, Bool, true, false, ◌&&◌, ◌||◌, not, Option, none, some, ltb, leb, eqb, ◌==◌,
  string_eq, if◌then◌else◌,
}
use newtaipei_appraisal_revi.Budget.{
  window_expired, ledger_unapproved, ledger_corrupt, exhausted, reservation_unknown, Outcome, done,
  denied, ◌>>=◌, ◌>>◌, deny_if, OperationReservation, BudgetLimits, CompetitionProfile,
}

-- A stored counter: not there or not decoded, a number that the checks refuse (not finite, negative,
-- or not whole where it counts), or a number.
pub data Attribute : Type 0 where
  missing refused : Attribute
  amount : ℕ → Attribute

-- What a seed fixes for the whole window.
pub record Stable : Type 0 where
  pub pk : String
  pub profile_digest : String
  pub window_start : ℕ
  pub window_end : ℕ
  pub max_calls : ℕ
  pub max_input_tokens : ℕ
  pub max_output_tokens : ℕ
  pub max_cost_usd : ℕ

pub record Counters : Type 0 where
  pub calls : Attribute
  pub input_tokens : Attribute
  pub output_tokens : Attribute
  pub cost_usd : Attribute
  pub version : Attribute

pub record Item : Type 0 where
  pub stable : Stable
  pub counters : Counters

pub record Amounts : Type 0 where
  pub calls : ℕ
  pub input_tokens : ℕ
  pub output_tokens : ℕ
  pub cost_usd : ℕ
  pub version : ℕ

abbrev pub counters_of : Amounts → Counters
counters_of a = record {
  calls = amount a.calls;
  input_tokens = amount a.input_tokens;
  output_tokens = amount a.output_tokens;
  cost_usd = amount a.cost_usd;
  version = amount a.version;
}

unfoldable pub stable_of : CompetitionProfile → Stable
stable_of profile =
    let b = profile.budget in
    record {
      pk = "competition-budget:" ++ b.scope ++ ":" ++ b.window_id;
      profile_digest = profile.digest;
      window_start = b.window_start;
      window_end = b.window_start + b.window_seconds;
      max_calls = b.max_calls;
      max_input_tokens = b.max_input_tokens;
      max_output_tokens = b.max_output_tokens;
      max_cost_usd = b.max_cost_usd;
    }

abbrev pub nothing_used : Amounts
nothing_used = record { calls = 0; input_tokens = 0; output_tokens = 0; cost_usd = 0; version = 0 }

unfoldable pub budget_seed_item : CompetitionProfile → Item
unfolding stable_of
budget_seed_item profile = record {
  stable = stable_of profile;
  counters = counters_of nothing_used;
}

abbrev pub same_stable : Stable → Stable → Bool
same_stable a b =
    a.pk == b.pk
    && a.profile_digest == b.profile_digest
    && eqb a.window_start b.window_start
    && eqb a.window_end b.window_end
    && eqb a.max_calls b.max_calls
    && eqb a.max_input_tokens b.max_input_tokens
    && eqb a.max_output_tokens b.max_output_tokens
    && eqb a.max_cost_usd b.max_cost_usd

-- `row[k]` raises where the attribute is missing, before any counter is judged.
abbrev present : Attribute → Bool
present missing = false
present _ = true

abbrev all_present : Counters → Bool
all_present c =
    present c.calls
    && present c.input_tokens
    && present c.output_tokens
    && present c.cost_usd
    && present c.version

abbrev number : Attribute → Outcome ℕ
number (amount n) = done n
number _ = denied ledger_corrupt

unfoldable pub read_amounts : Counters → Outcome Amounts
read_amounts c = do
  deny_if (not (all_present c)) reservation_unknown
  calls ← number c.calls
  input_tokens ← number c.input_tokens
  output_tokens ← number c.output_tokens
  cost_usd ← number c.cost_usd
  version ← number c.version
  done (record {
    calls = calls;
    input_tokens = input_tokens;
    output_tokens = output_tokens;
    cost_usd = cost_usd;
    version = version;
  })

abbrev pub added : OperationReservation → Amounts → Amounts
added bound a = record {
  calls = a.calls + 1;
  input_tokens = a.input_tokens + bound.input_tokens;
  output_tokens = a.output_tokens + bound.output_tokens;
  cost_usd = a.cost_usd + bound.cost_usd;
  version = a.version + 1;
}

unfoldable pub exceeds : BudgetLimits → Amounts → Bool
exceeds budget a =
    ltb budget.max_calls a.calls
    || ltb budget.max_input_tokens a.input_tokens
    || ltb budget.max_output_tokens a.output_tokens
    || ltb budget.max_cost_usd a.cost_usd

-- `start <= self.clock() < end`
unfoldable pub in_window : BudgetLimits → ℕ → Bool
in_window budget now =
    leb budget.window_start now && ltb now (budget.window_start + budget.window_seconds)

-- A write that waits to be sent: the row that was observed, and the new counters.
pub record Plan : Type 0 where
  pub observed : Item
  pub next : Amounts

abbrev pub approved : Stable → Option Item → Outcome Item
approved stable none = denied ledger_unapproved
approved stable (some item) =
    if same_stable item.stable stable then done item else denied ledger_unapproved

-- From the row that `get_item` returned to the request of `update_item`.
unfoldable pub plan_of : CompetitionProfile → OperationReservation → ℕ → Option Item → Outcome Plan
unfolding stable_of read_amounts exceeds in_window
plan_of profile bound now row = do
  item ← approved (stable_of profile) row
  values ← read_amounts item.counters
  deny_if (exceeds profile.budget (added bound values)) exhausted
  deny_if (not (in_window profile.budget now)) window_expired
  done (record { observed = item; next = added bound values })

abbrev pub same_attribute : Attribute → Attribute → Bool
same_attribute missing missing = true
same_attribute refused refused = true
same_attribute (amount m) (amount n) = eqb m n
same_attribute _ _ = false

abbrev pub same_item : Item → Item → Bool
same_item a b =
    same_stable a.stable b.stable
    && same_attribute a.counters.calls b.counters.calls
    && same_attribute a.counters.input_tokens b.counters.input_tokens
    && same_attribute a.counters.output_tokens b.counters.output_tokens
    && same_attribute a.counters.cost_usd b.counters.cost_usd
    && same_attribute a.counters.version b.counters.version

-- The conditional write: DynamoDB compares every observed attribute and sets the counters in one step.
-- `true` where the condition held.
abbrev put_plan : Plan → Option Item → Bool × Option Item
put_plan plan none = (false, none)
put_plan plan (some item) =
    if same_item item plan.observed
    then (true, some (record item { counters = counters_of plan.next }))
    else (false, some item)

unfoldable pub update_item : Plan → Option Item → Bool × Option Item
update_item plan row = put_plan plan row
