-- ===== src/Budget/Witness.antt =====
-- The theorems on the budget ledger at a profile with one model and one reservation.
use newtaipei_appraisal_revi.Prelude.{
  ℕ, String, ◌≡◌, refl, ◌⊎◌, none, some, Option, List, [], ◌∷◌, ◌++◌, string_eq, arith,
}
use newtaipei_appraisal_revi.Prelude.Texts.{ends_with}
use newtaipei_appraisal_revi.Prelude.Dict.{Dict, get}
use newtaipei_appraisal_revi.Budget.{
  done, denied, exhausted, OperationReservation, CompetitionProfile, covers_worst_case,
}
use newtaipei_appraisal_revi.Budget.Bound.{DataPart, bound_for}
use newtaipei_appraisal_revi.Budget.Ledger.{
  plan_of, read_amounts, update_item, counters_of, stable_of, exceeds, in_window,
}
use newtaipei_appraisal_revi.Budget.Committed.{used, IsLedger, WithinLimits}
use newtaipei_appraisal_revi.Budget.Interleaving.{
  Event, read, write, run, seeded, grants, run-IsLedger,
}
use newtaipei_appraisal_revi.Budget.Reserve.{Attempt, attempt, attempts, reserve}
use newtaipei_appraisal_revi.Budget.Alone.{calm, reserve-alone}
use newtaipei_appraisal_revi.Budget.Accounting.{Foreign, IsShared, Own, others_of, reserve-accounts}

abbrev converse : OperationReservation
converse = record {
  operation = "Converse";
  model_id = "m";
  max_request_bytes = 10;
  input_tokens = 8;
  output_tokens = 4;
  cost_usd = 20;
  destination_snapshot_sha256 = "d";
  input_price_per_million_usd = some 1;
  output_price_per_million_usd = some 1;
  maximum_request_fee_usd = some 1;
}

abbrev profile : CompetitionProfile
profile = record {
  models =
      record {
        model_id = "m";
        destinations = [];
        destination_snapshot_sha256 = some "d";
        context_window_tokens = some 8;
      }
      ∷ [];
  budget = record {
    scope = "team-wide";
    window_seconds = 60;
    max_calls = 2;
    max_input_tokens = 16;
    max_output_tokens = 8;
    max_cost_usd = 40;
    window_id = "w";
    window_start = 100;
    operation_reservations = converse ∷ [];
  };
  digest = "p";
}

-- The limit that a request body asks for.
abbrev first_byte : List ℕ → Option ℕ
first_byte [] = none
first_byte (b ∷ bs) = some b

abbrev request : List DataPart
request = record { part_id = "message.body"; content = 4 ∷ [] } ∷ []

abbrev parameters : Dict String String
parameters = ("modelId", "m") ∷ []

abbrev quiet : ℕ → Attempt
quiet k = calm 102 103

known : bound_for first_byte profile "Converse" parameters request ≡ done converse
unfolding bound_for covers_worst_case get ends_with
known = refl

-- Two workers read the same row; the first write wins, and the third worker reads after it.
abbrev race : List Event
race = read converse 101 ∷ read converse 101 ∷ write 0 ∷ write 1 ∷ read converse 104 ∷ write 0 ∷ []

run-IsLedger_example :
    IsLedger profile
      (grants profile race (seeded profile) [])
      (run profile race (seeded profile)).row
run-IsLedger_example = run-IsLedger profile race

-- Two of the three writes are granted.
race-grants : grants profile race (seeded profile) [] ≡ converse ∷ converse ∷ []
unfolding grants run seeded plan_of update_item
race-grants = refl

run_race :
    (run profile race (seeded profile)).row
    ≡ some (record {
      stable = stable_of profile;
      counters = counters_of (used (converse ∷ converse ∷ []));
    })
unfolding run seeded used plan_of update_item
run_race = refl

seeded-IsLedger : IsLedger profile [] (seeded profile).row
unfolding seeded used
seeded-IsLedger = record {
  stored = refl;
  limits = record {
    calls = omega arith;
    input_tokens = omega arith;
    output_tokens = omega arith;
    cost_usd = omega arith;
  };
}

idle : Foreign profile (λ row. row)
idle = record { wrote = λ row. []; adds = λ rs row h. h }

alone : (k : ℕ) → IsShared profile (quiet k)
alone k = record { meanwhile = idle; interleaved = idle }

reserve-accounts_example :
    (own : List OperationReservation) × IsLedger profile
      (own ++ (others_of profile converse 101 quiet alone (seeded profile).row ++ []))
      (reserve profile first_byte "Converse" parameters request 101 quiet (seeded profile).row).1
    × Own converse
        (reserve profile first_byte "Converse" parameters request 101 quiet (seeded profile).row).0
        own
reserve-accounts_example =
    reserve-accounts profile first_byte "Converse" parameters request 101 quiet alone []
      (seeded profile).row known seeded-IsLedger

-- The call returns, so its reservation is on the row.
reserved_alone :
    (reserve profile first_byte "Converse" parameters request 101 quiet (seeded profile).row).0
    ≡ done tt
unfolding reserve attempts attempt bound_for covers_worst_case get ends_with in_window plan_of
    read_amounts exceeds update_item seeded
reserved_alone = refl

reserve-alone_example :
    (((reserve profile first_byte "Converse" parameters request 101 quiet (seeded profile).row).0
        ≡ done tt)
      × IsLedger profile
          (converse ∷ [])
          (reserve profile first_byte "Converse" parameters request 101 quiet
            (seeded profile).row).1)
    ⊎ ((¬ WithinLimits profile.budget (used (converse ∷ [])))
        × (reserve profile first_byte "Converse" parameters request 101 quiet (seeded profile).row
            ≡ (denied exhausted, (seeded profile).row)))
unfolding in_window
reserve-alone_example =
    reserve-alone profile first_byte "Converse" parameters request 101 102 103 quiet []
      (seeded profile).row known refl refl refl refl seeded-IsLedger
