-- ===== src/Budget/Interleaving.antt =====
-- Any number of workers on one row of competition_budget.py: each read and each conditional write is
-- one step, and a write that waits may come after any other steps, or again.
use newtaipei_appraisal_revi.Prelude.{
  ℕ, zero, suc, ◌≡◌, refl, sym, subst, ◌++◌, true, false, Bool, Option, some, List, [], ◌∷◌, All,
  arith,
}
use newtaipei_appraisal_revi.Budget.{
  Outcome, done, denied, OperationReservation, CompetitionProfile,
}
use newtaipei_appraisal_revi.Budget.Ledger.{Item, Plan, budget_seed_item, plan_of, update_item}
use newtaipei_appraisal_revi.Budget.Committed.{
  used, IsLedger, IsPlanned, plan_of-IsPlanned, Write, added_one, left, update_item-Write,
}

-- A read at a time, for a reservation; or the k-th of the writes that wait.
pub data Event : Type 0 where
  read : OperationReservation → ℕ → Event
  write : ℕ → Event

-- A write that waits, with the reservation that it was made for.
pub record Waiting : Type 0 where
  pub bound : OperationReservation
  pub plan : Plan

pub record World : Type 0 where
  pub row : Option Item
  pub waiting : List Waiting

abbrev waits : OperationReservation → Outcome Plan → List Waiting → List Waiting
waits bound (denied fault) writes = writes
waits bound (done plan) writes = record { bound = bound; plan = plan } ∷ writes

-- What the sending of a write comes to: the answer to the condition, and the row.
abbrev pub send : ℕ → List Waiting → Option Item → Bool × Option Item
send k [] row = (false, row)
send zero (w ∷ ws) row = update_item w.plan row
send (suc k) (w ∷ ws) row = send k ws row

-- The reservation of a write whose condition held.
abbrev pub granted : ℕ → List Waiting → Bool → List OperationReservation
granted k ws false = []
granted k [] true = []
granted zero (w ∷ ws) true = w.bound ∷ []
granted (suc k) (w ∷ ws) true = granted k ws true

module _ (profile : CompetitionProfile) where
  unfoldable pub step : Event → World → World
  step (read bound now) w = record w {
    waiting = waits bound (plan_of profile bound now w.row) w.waiting;
  }
  step (write k) w = record w { row = (send k w.waiting w.row).1 }

  unfoldable pub run : List Event → World → World
  unfolding step
  run [] w = w
  run (e ∷ es) w = run es (step e w)

  -- The reservation that an event was granted: its write was answered, and the condition held.
  abbrev pub answer_of : Event → World → List OperationReservation
  answer_of (read bound now) w = []
  answer_of (write k) w = granted k w.waiting (send k w.waiting w.row).0

  -- The reservations that were granted along a run, the latest first, before those of `rs`.
  unfoldable pub grants : List Event → World → List OperationReservation → List OperationReservation
  unfolding step
  grants [] w rs = rs
  grants (e ∷ es) w rs = grants es (step e w) (answer_of e w ++ rs)

  unfoldable pub seeded : World
  unfolding budget_seed_item
  seeded = record { row = some (budget_seed_item profile); waiting = [] }

  record Holds (rs : List OperationReservation) (w : World) : Type 0 where
    ledger : IsLedger profile rs w.row
    plans : All (λ (x : Waiting). IsPlanned profile x.bound x.plan) w.waiting

  abbrev AllPlanned : List Waiting → Type 0
  AllPlanned = All (λ (x : Waiting). IsPlanned profile x.bound x.plan)

  waits-AllPlanned :
      (bound : OperationReservation) (now : ℕ) (row : Option Item) (o : Outcome Plan)
      (writes : List Waiting)
      → plan_of profile bound now row ≡ o
      → AllPlanned writes
      → AllPlanned (waits bound o writes)
  waits-AllPlanned bound now row (denied fault) writes e h = h
  waits-AllPlanned bound now row (done plan) writes e h =
      (plan_of-IsPlanned profile bound now row e, h)

  written :
      (w : Waiting) (ws : List Waiting) (rs : List OperationReservation) {r : Bool × Option Item}
      → Write profile w.bound rs r
      → IsLedger profile (granted 0 (w ∷ ws) r.0 ++ rs) r.1
  written w ws rs (added_one row h) = h
  written w ws rs (left row h) = h

  further :
      (k : ℕ) (w : Waiting) (ws : List Waiting) (b : Bool)
      → granted (suc k) (w ∷ ws) b ≡ granted k ws b
  further k w ws true = refl
  further k w ws false = refl

  send-IsLedger :
      (k : ℕ) (ws : List Waiting) (rs : List OperationReservation) {row : Option Item}
      → AllPlanned ws
      → IsLedger profile rs row
      → IsLedger profile (granted k ws (send k ws row).0 ++ rs) (send k ws row).1
  send-IsLedger k [] rs h ledger = ledger
  send-IsLedger zero (w ∷ ws) rs (here, there) ledger =
      written w ws rs (update_item-Write profile w.bound rs w.plan here ledger)
  send-IsLedger (suc k) (w ∷ ws) rs {row} (here, there) ledger =
      subst (λ l. IsLedger profile (l ++ rs) (send k ws row).1)
        (sym (further k w ws (send k ws row).0)) (send-IsLedger k ws rs there ledger)

  step-Holds :
      (e : Event) (w : World) (rs : List OperationReservation)
      → Holds rs w
      → Holds (answer_of e w ++ rs) (step e w)
  unfolding step
  step-Holds (read bound now) w rs h = record {
    ledger = h.ledger;
    plans =
        waits-AllPlanned bound now w.row (plan_of profile bound now w.row) w.waiting refl h.plans;
  }
  step-Holds (write k) w rs h = record {
    ledger = send-IsLedger k w.waiting rs h.plans h.ledger;
    plans = h.plans;
  }

  run-Holds :
      (es : List Event) (w : World) (rs : List OperationReservation)
      → Holds rs w
      → Holds (grants es w rs) (run es w)
  unfolding run grants
  run-Holds [] w rs h = h
  run-Holds (e ∷ es) w rs h = run-Holds es (step e w) (answer_of e w ++ rs) (step-Holds e w rs h)

  seeded-Holds : Holds [] seeded
  unfolding seeded budget_seed_item used
  seeded-Holds = record {
    ledger = record {
      stored = refl;
      limits = record {
        calls = omega arith;
        input_tokens = omega arith;
        output_tokens = omega arith;
        cost_usd = omega arith;
      };
    };
    plans = tt;
  }

  -- From the seed of a profile, however the reads and writes of any number of workers interleave and
  -- repeat, the row counts the reservations whose writes were granted, every one of them once and
  -- nothing else: their number, and the sums of their tokens and of their cost, which stay within the
  -- profile's limits.
  pub run-IsLedger : (es : List Event) → IsLedger profile (grants es seeded []) (run es seeded).row
  run-IsLedger es = (run-Holds es seeded [] seeded-Holds).ledger
