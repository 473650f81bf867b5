-- ===== src/Factors/Witness.antt =====
-- The theorems on the factor engine at a concrete rule set.
use newtaipei_appraisal_revi.Prelude.{
  ℕ, String, string_eq, ◌≡◌, ◌≢◌, ◌⊎◌, ◌↔◌, List, refl, true, false, none, some, [], ◌∷◌,
}
use newtaipei_appraisal_revi.Prelude.Dict.{get, put}
use newtaipei_appraisal_revi.Faults.{ok}
use newtaipei_appraisal_revi.Factors.{
  ℤ, pos, negsuc, Grade, excellent, inferior, verified, failed, number, IntervalBand, FactorRule,
  numeric_interval, approved, FactorObservation, FactorPair, FactorEvaluationRequest,
  FactorReviewResult,
}
use newtaipei_appraisal_revi.Factors.Validation.{
  valid_intervals, adjacent, valid_bounds, valid_rule, same_grades, has_grade,
}
use newtaipei_appraisal_revi.Factors.Engine.{
  FactorRuleEngine, first_band, contains, evaluate, evaluate_pair, is_confirmed,
}
use newtaipei_appraisal_revi.Factors.Coverage.{
  first_band_total, inner_bounded, all_ordered, count_containing, one_band_contains,
}
use newtaipei_appraisal_revi.Factors.Matrix.{evaluate_pair-not_failed}
use newtaipei_appraisal_revi.Factors.Engine.{new_engine}
use newtaipei_appraisal_revi.Factors.Validation.{unique_rules}
use newtaipei_appraisal_revi.Factors.Verifier.{
  Explained, VerificationReport, missing, valid_rules, valid_request, recomputed, verify,
}
use newtaipei_appraisal_revi.Factors.Certified.{IsCertified, verify-IsCertified}
use newtaipei_appraisal_revi.Factors.Summary.{AllGraded, sum_of, evaluate-IsGraded}

abbrev same_text : String → String
same_text t = t

abbrev low_band : IntervalBand
low_band = record {
  grade = inferior;
  minimum = none;
  minimum_inclusive = true;
  maximum = some (pos 10);
  maximum_inclusive = false;
}

abbrev high_band : IntervalBand
high_band = record {
  grade = excellent;
  minimum = some (pos 10);
  minimum_inclusive = true;
  maximum = none;
  maximum_inclusive = false;
}

abbrev width_rule : FactorRule
width_rule = record {
  id = "r1";
  factor_id = "width";
  kind = numeric_interval;
  unit = some "m";
  intervals = low_band ∷ high_band ∷ [];
  categories = [];
  correction_matrix =
      (inferior, (inferior, pos 0) ∷ (excellent, negsuc 4) ∷ [])
      ∷ (excellent, (inferior, pos 5) ∷ (excellent, pos 0) ∷ [])
      ∷ [];
  critical = true;
}

abbrev observed : ℕ → FactorObservation
observed n = record {
  value = some (number (pos n) (some "m"));
  evidence = "e" ∷ [];
  confidence = 90;
}

abbrev engine : FactorRuleEngine
engine = record {
  rule_set = record {
    rule_set_id = "s1";
    version = "1";
    status = approved;
    rules = width_rule ∷ [];
  };
  minimum_confidence = 85;
  confirmed_sides = [];
  rules = ("width", width_rule) ∷ [];
}

abbrev pair : FactorPair
pair = record { factor_id = "width"; target = observed 12; comparable = observed 8 }

abbrev request : FactorEvaluationRequest
request = record { case_id = "C1"; rule_set_id = "s1"; factors = pair ∷ [] }

intervals-valid : valid_intervals (low_band ∷ high_band ∷ []) ≡ true
unfolding valid_intervals adjacent
intervals-valid = refl

first_band_total_example : (g : Grade) × (first_band (low_band ∷ high_band ∷ []) (pos 10) ≡ some g)
first_band_total_example = first_band_total (low_band ∷ high_band ∷ []) (pos 10) intervals-valid

inner : inner_bounded low_band (high_band ∷ []) ≡ true
unfolding inner_bounded
inner = refl

ordered : all_ordered (low_band ∷ high_band ∷ []) ≡ true
unfolding all_ordered valid_bounds
ordered = refl

one_band_contains_example : count_containing (low_band ∷ high_band ∷ []) (pos 10) ≡ 1
one_band_contains_example =
    one_band_contains low_band (high_band ∷ []) (pos 10) intervals-valid inner ordered

known : get engine.rules "width" ≡ some width_rule
unfolding get
known = refl

width_rule-valid : valid_rule same_text width_rule ≡ true
unfolding valid_rule valid_intervals adjacent same_grades has_grade
width_rule-valid = refl

evaluate_pair-not_failed_example : (evaluate_pair same_text engine pair).status ≢ failed
evaluate_pair-not_failed_example =
    evaluate_pair-not_failed same_text engine pair {rule = width_rule} known width_rule-valid

abbrev review_result : FactorReviewResult
review_result = record {
  case_id = "C1";
  rule_set_id = "s1";
  rule_version = "1";
  context = none;
  case_version = none;
  source_hashes = [];
  results =
      record {
        factor_id = "width";
        target_grade = some excellent;
        comparable_grade = some inferior;
        adjustment_percent = some (pos 5);
        rule_id = some "r1";
        status = verified;
      }
      ∷ [];
  total_adjustment_percent = some (pos 5);
  status = verified;
}

evaluated : evaluate same_text engine request ≡ ok review_result
unfolding evaluate evaluate_pair get is_confirmed contains
evaluated = refl

evaluate-IsGraded_example :
    ((review_result.status ≡ verified)
      × ((xs : List ℤ) × AllGraded same_text engine request.factors review_result.results xs
          × (review_result.total_adjustment_percent ≡ some (sum_of xs))))
    ⊎ ((review_result.status ≢ verified)
        × (review_result.total_adjustment_percent ≡ none)
        × ((xs : List ℤ) → ¬ AllGraded same_text engine request.factors review_result.results xs))
evaluate-IsGraded_example = evaluate-IsGraded same_text engine request {r = review_result} evaluated

abbrev no_texts : FactorRuleEngine → FactorEvaluationRequest → List String
no_texts _ _ = []

abbrev claim : Explained
claim = record { result = record review_result { case_version = some "v7" }; texts = [] }

abbrev clean_report : VerificationReport
clean_report = record { status = verified; critical_errors = [] }

claim-verified :
    verify same_text no_texts 100 claim engine.rule_set (some request) 85 [] ≡ ok clean_report
unfolding verify recomputed new_engine missing valid_rules valid_rule valid_request unique_rules
    valid_intervals valid_bounds adjacent same_grades has_grade evaluate evaluate_pair get put
    is_confirmed contains
claim-verified = refl

verify-IsCertified_example :
    (clean_report.status ≡ verified)
    ↔ IsCertified same_text no_texts 100 claim engine.rule_set 85 [] request
verify-IsCertified_example =
    verify-IsCertified same_text no_texts 100 claim engine.rule_set 85 [] request claim-verified
