-- ===== src/Factors/Engine.antt =====
-- src/appraisal_review/domain/factor_engine.py: classification and the correction matrix.
use newtaipei_appraisal_revi.Prelude.{
  ℕ, ◌+◌, ◌-◌, ◌^◌, String, Bool, true, false, not, ◌&&◌, ◌||◌, Option, none, some, is_empty, List,
  [], ◌∷◌, map, ltb, if◌then◌else◌, ◌==◌, string_eq,
}
use newtaipei_appraisal_revi.Prelude.Dict.{Dict, get, put}
use newtaipei_appraisal_revi.Faults.{Result, ok, err, value_error}
use newtaipei_appraisal_revi.Factors.{
  ℤ, pos, lt_int, eq_int, times, ◌+ℤ◌, Grade, grade_eq, EvaluationStatus, verified, needs_review,
  failed, NormalizedValue, number, text, category, IntervalBand, CategoryBand, RuleKind,
  distance_interval, category_rule, presence_distance, FactorRule, FactorRuleSet, approved,
  ApprovalStatus, FactorObservation, FactorPair, FactorEvaluationRequest, FactorEvaluationResult,
  FactorReviewResult,
}
use newtaipei_appraisal_revi.Factors.Validation.{has_text}

-- `_LENGTH_IN_METRES`: the power of ten of a unit, over that of the smallest one.
unfoldable length_power : String → Option ℕ
length_power unit =
    if unit == "mm"
    then some 0
    else if unit == "cm"
    then some 1
    else if unit == "m"
    then some 3
    else if unit == "km"
    then some 6
    else none

-- A converted number counts millionths of the unit of floats, so that dividing kilometres by
-- millimetres and millimetres by kilometres are both exact.
unfoldable pub rescaled : ℤ → ℤ
unfolding times
rescaled v = times v (10 ^ 6)

abbrev converted : ℤ → Option ℕ → Option ℕ → Option ℤ
converted v (some actual) (some expected) = some (times v (10 ^ (6 + actual - expected)))
converted v _ _ = none

-- `_normalize_number`: `none` where `ObservationNeedsReview` is raised. Floats are finite.
unfoldable pub normalize_number : ℤ → Option String → Option String → Option ℤ
unfolding rescaled times length_power
normalize_number v none none = some (rescaled v)
normalize_number v (some actual) none = none
normalize_number v none (some expected) = none
normalize_number v (some actual) (some expected) =
    if actual == expected
    then some (rescaled v)
    else converted v (length_power actual) (length_power expected)

abbrev pub above : Option ℤ → Bool → ℤ → Bool
above none inclusive v = true
above (some low) inclusive v = lt_int (rescaled low) v || (inclusive && eq_int v (rescaled low))

abbrev pub below : Option ℤ → Bool → ℤ → Bool
below none inclusive v = true
below (some high) inclusive v = lt_int v (rescaled high) || (inclusive && eq_int v (rescaled high))

-- `_contains`, of a converted number
unfoldable pub contains : IntervalBand → ℤ → Bool
contains band v =
    above band.minimum band.minimum_inclusive v && below band.maximum band.maximum_inclusive v

unfoldable pub first_band : List IntervalBand → ℤ → Option Grade
first_band [] v = none
first_band (band ∷ bands) v = if contains band v then some band.grade else first_band bands v

abbrev pub is_distance : RuleKind → Bool
is_distance distance_interval = true
is_distance presence_distance = true
is_distance _ = false

-- The branch of `_classify` for numbers.
abbrev pub classify_number : FactorRule → Option ℤ → Option Grade
classify_number rule none = none
classify_number rule (some v) =
    if is_distance rule.kind && lt_int v (pos 0) then none else first_band rule.intervals v

pub data Side : Type 0 where
  target_side comparable_side : Side

abbrev same_side : Side → Side → Bool
same_side target_side target_side = true
same_side comparable_side comparable_side = true
same_side _ _ = false

unfoldable pub is_confirmed : String → Side → List (String × Side) → Bool
is_confirmed factor_id side [] = false
is_confirmed factor_id side ((f, s) ∷ rest) =
    (factor_id == f && same_side side s) || is_confirmed factor_id side rest

pub record FactorRuleEngine : Type 0 where
  pub rule_set : FactorRuleSet
  pub minimum_confidence : ℕ
  pub confirmed_sides : List (String × Side)
  pub rules : Dict String FactorRule

-- `{rule.factor_id: rule for rule in rule_set.rules}`
unfoldable by_factor : List FactorRule → Dict String FactorRule → Dict String FactorRule
by_factor [] d = d
by_factor (rule ∷ rules) d = by_factor rules (put d rule.factor_id rule)

abbrev is_approved : ApprovalStatus → Bool
is_approved approved = true
is_approved _ = false

-- `__init__`; `one` is the confidence 1.0.
unfoldable pub new_engine : ℕ → FactorRuleSet → ℕ → List (String × Side) → Result FactorRuleEngine
unfolding by_factor
new_engine one rule_set minimum_confidence confirmed_sides =
    if not (is_approved rule_set.status)
    then err value_error
    else if ltb one minimum_confidence
    then err value_error
    else ok (record {
      rule_set = rule_set;
      minimum_confidence = minimum_confidence;
      confirmed_sides = confirmed_sides;
      rules = by_factor rule_set.rules [];
    })

-- The cell of the correction matrix.
abbrev pub row_cell : Option (Dict Grade ℤ) → Grade → Option ℤ
row_cell none h = none
row_cell (some row) h = get row h

unfoldable pub cell : Dict Grade (Dict Grade ℤ) → Grade → Grade → Option ℤ
cell rows g h = row_cell (get rows g) h

abbrev pub cell_status : Option ℤ → EvaluationStatus
cell_status none = failed
cell_status (some x) = verified

abbrev pub graded : FactorRule → Option Grade → Option Grade → FactorEvaluationResult
graded rule (some g) (some h) = record {
  factor_id = rule.factor_id;
  target_grade = some g;
  comparable_grade = some h;
  adjustment_percent = cell rule.correction_matrix g h;
  rule_id = some rule.id;
  status = cell_status (cell rule.correction_matrix g h);
}
graded rule _ _ = record {
  factor_id = rule.factor_id;
  target_grade = none;
  comparable_grade = none;
  adjustment_percent = none;
  rule_id = some rule.id;
  status = needs_review;
}

abbrev pub same_evaluation : EvaluationStatus → EvaluationStatus → Bool
same_evaluation verified verified = true
same_evaluation needs_review needs_review = true
same_evaluation failed failed = true
same_evaluation _ _ = false

-- `status in {result.status for result in results}`
unfoldable pub has_status : EvaluationStatus → List FactorEvaluationResult → Bool
has_status s [] = false
has_status s (r ∷ rs) = same_evaluation s r.status || has_status s rs

unfoldable pub summary_status : List FactorEvaluationResult → EvaluationStatus
unfolding has_status
summary_status rs =
    if has_status failed rs
    then failed
    else if has_status needs_review rs
    then needs_review
    else verified

-- The sum of the adjustments. A missing one raises in the source; a verified result has one.
unfoldable pub total : List FactorEvaluationResult → ℤ
total [] = pos 0
total (r ∷ rs) = elim r.adjustment_percent [ none ↦ total rs | some x ↦ x +ℤ total rs ]

abbrev pub when_verified : EvaluationStatus → ℤ → Option ℤ
when_verified verified x = some x
when_verified _ x = none

module _ (folded : String → String) where
  unfoldable pub first_category : List CategoryBand → String → Option Grade
  first_category [] t = none
  first_category (band ∷ bands) t =
      if has_text t (map folded band.values) then some band.grade else first_category bands t

  -- The branches of `_classify` on the kind of the rule and the type of the value.
  unfoldable pub classify_kind : RuleKind → FactorRule → NormalizedValue → Option Grade
  unfolding normalize_number first_band first_category
  classify_kind category_rule rule (text t unit) = first_category rule.categories (folded t)
  classify_kind category_rule rule (category t unit) = first_category rule.categories (folded t)
  classify_kind category_rule rule value = none
  classify_kind kind rule (number v unit) = classify_number rule (normalize_number v unit rule.unit)
  classify_kind presence_distance rule (text t unit) = first_category rule.categories (folded t)
  classify_kind presence_distance rule (category t unit) = first_category rule.categories (folded t)
  classify_kind kind rule value = none

  unfoldable pub classify_value : FactorRule → NormalizedValue → Option Grade
  unfolding classify_kind
  classify_value rule value = classify_kind rule.kind rule value

  abbrev classify_known : FactorRule → Option NormalizedValue → Option Grade
  classify_known rule none = none
  classify_known rule (some value) = classify_value rule value

  -- `_classify`: `none` where `ObservationNeedsReview` is raised.
  unfoldable pub classify : FactorRuleEngine → FactorRule → FactorObservation → Side → Option Grade
  unfolding classify_value
  classify engine rule observation side =
      if is_empty observation.evidence
      then none
      else if not (is_confirmed rule.factor_id side engine.confirmed_sides)
          && ltb observation.confidence engine.minimum_confidence
      then none
      else classify_known rule observation.value

  abbrev pub evaluate_rule :
      FactorRuleEngine → String → Option FactorRule → FactorPair → FactorEvaluationResult
  evaluate_rule engine factor_id none pair = record {
    factor_id = factor_id;
    target_grade = none;
    comparable_grade = none;
    adjustment_percent = none;
    rule_id = none;
    status = failed;
  }
  evaluate_rule engine factor_id (some rule) pair =
      record (graded rule (classify engine rule pair.target target_side)
        (classify engine rule pair.comparable comparable_side)) { factor_id = factor_id }

  -- `_evaluate_pair`
  unfoldable pub evaluate_pair : FactorRuleEngine → FactorPair → FactorEvaluationResult
  unfolding classify cell
  evaluate_pair engine pair =
      evaluate_rule engine pair.factor_id (get engine.rules pair.factor_id) pair

  -- `evaluate`; the last conversion of the total to a float is left out.
  unfoldable pub evaluate : FactorRuleEngine → FactorEvaluationRequest → Result FactorReviewResult
  unfolding evaluate_pair summary_status total
  evaluate engine request =
      if not (request.rule_set_id == engine.rule_set.rule_set_id)
      then err value_error
      else let results = map (evaluate_pair engine) request.factors in
        ok (record {
          case_id = request.case_id;
          rule_set_id = engine.rule_set.rule_set_id;
          rule_version = engine.rule_set.version;
          context = none;
          case_version = none;
          source_hashes = [];
          results = results;
          total_adjustment_percent = when_verified (summary_status results) (total results);
          status = summary_status results;
        })
