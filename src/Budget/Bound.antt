-- ===== src/Budget/Bound.antt =====
-- `DynamoDBCompetitionBudget._bound` of competition_budget.py: the reservation that covers a request.
-- The JSON decoding of a request body is a parameter.
use Prim.Native.String.{◌++◌}
use newtaipei_appraisal_revi.Prelude.{
  ℕ, ◌+◌, String, Bool, false, ◌&&◌, ◌||◌, not, Option, none, some, List, [], ◌∷◌, leb, ltb, length,
  select, is_empty, ◌==◌, string_eq, option_eq,
}
use newtaipei_appraisal_revi.Prelude.Texts.{ends_with}
use newtaipei_appraisal_revi.Prelude.Dict.{Dict, get}
use newtaipei_appraisal_revi.Budget.{
  bounds_unknown, routing_changed, conservative_basis_missing, request_unbounded, pricing_unknown,
  output_unbounded, Outcome, done, denied, ◌>>=◌, ◌>>◌, deny_if, ModelDestination, ModelUse,
  OperationReservation, CompetitionProfile, generates, covers_worst_case,
}

-- The content is a list of bytes.
pub record DataPart : Type 0 where
  pub part_id : String
  pub content : List ℕ

-- `parameters.get(key, default)`
abbrev get_or : Dict String String → String → Option String → Option String
get_or parameters key default = elim (get parameters key) [
  | none ↦ default
  | some value ↦ some value
]

unfoldable requested_model : Dict String String → Option String
requested_model parameters =
    get_or parameters "modelId"
      (get_or parameters "modelIdentifier" (get parameters "inferenceProfileIdentifier"))

abbrev arn_of : ModelDestination → String
arn_of d = "arn:aws:bedrock:" ++ d.region ++ "::foundation-model/" ++ d.name

abbrev names_destination : Option String → List ModelDestination → Bool
names_destination model_id [] = false
names_destination model_id (d ∷ ds) =
    model_id == some (arn_of d) || model_id == some d.name || names_destination model_id ds

abbrev serves : String → Option String → ModelUse → Bool
serves operation model_id m =
    some m.model_id == model_id
    || operation == "GetFoundationModel" && names_destination model_id m.destinations

abbrev only : List OperationReservation → Outcome OperationReservation
only (r ∷ []) = done r
only _ = denied bounds_unknown

abbrev rerouted : String → List ModelUse → Bool
rerouted snapshot [] = false
rerouted snapshot (m ∷ ms) =
    not (m.destination_snapshot_sha256 == some snapshot) || rerouted snapshot ms

abbrev request_bytes : List DataPart → ℕ
request_bytes [] = 0
request_bytes (p ∷ ps) = length p.content + request_bytes ps

abbrev unpriced : OperationReservation → Bool
unpriced r = ltb r.input_tokens 1 || ltb r.output_tokens 1 || ltb r.cost_usd 1

-- `max_tokens_of` reads `inferenceConfig.maxTokens`: nothing where the body is no JSON object or the
-- value is no natural number.
module _ (max_tokens_of : List ℕ → Option ℕ) where
  abbrev output_of : List DataPart → Option ℕ
  output_of (body ∷ []) = max_tokens_of body.content
  output_of _ = none

  abbrev within : ℕ → Option ℕ → Bool
  within most none = false
  within most (some output) = ltb 0 output && leb output most

  unfoldable pub bound_for :
      CompetitionProfile
      → String
      → Dict String String
      → List DataPart
      → Outcome OperationReservation
  unfolding requested_model
  bound_for profile operation parameters parts =
      let model_id = requested_model parameters in
      let models = select (serves operation model_id) profile.models in
      do
        bound ← only (
            select (λ r. r.operation == operation && some r.model_id == model_id)
              profile.budget.operation_reservations)
        deny_if (is_empty models || rerouted bound.destination_snapshot_sha256 models)
            routing_changed
        deny_if (not (covers_worst_case bound models)) conservative_basis_missing
        deny_if (ltb bound.max_request_bytes (request_bytes parts)) request_unbounded
        deny_if (generates operation && unpriced bound) pricing_unknown
        deny_if
            (operation == "Converse"
              && not (
                  within bound.output_tokens
                    (output_of (select (λ p. ends_with p.part_id ".body") parts))))
            output_unbounded
        deny_if (operation == "InvokeModel") output_unbounded
        done bound
