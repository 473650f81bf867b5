-- ===== src/Factors/Summary.antt =====
-- How factor_engine.py sums the results of an evaluation up.
use newtaipei_appraisal_revi.Prelude.{
  ◌≡◌, ◌≢◌, ◌⊎◌, refl, ap, subst, inl, inr, String, not, Option, none, some, List, [], ◌∷◌, map,
  arith, Bool-cases, ◌==◌, string_eq,
}
use newtaipei_appraisal_revi.Prelude.Dict.{Dict, get}
use newtaipei_appraisal_revi.Faults.{Result, ok, err}
use newtaipei_appraisal_revi.Factors.{
  ℤ, pos, ◌+ℤ◌, Grade, grade_eq, EvaluationStatus, verified, needs_review, failed, FactorRule,
  FactorPair, FactorEvaluationRequest, FactorEvaluationResult, FactorReviewResult,
}
use newtaipei_appraisal_revi.Factors.Engine.{
  classify, cell, FactorRuleEngine, target_side, comparable_side, evaluate_pair, evaluate_rule,
  graded, summary_status, total, evaluate, cell_status, has_status, when_verified,
}

-- The number in the matrix at the row of the target's grade and the column of the comparable's.
pub record CellIs (rows : Dict Grade (Dict Grade ℤ)) (target comparable : Grade) (x : ℤ)
    : Type 0 where
  pub row : Dict Grade ℤ
  pub at_target : get rows target ≡ some row
  pub at_comparable : get row comparable ≡ some x

abbrev pub sum_of : List ℤ → ℤ
sum_of [] = pos 0
sum_of (x ∷ xs) = x +ℤ sum_of xs

module _ (folded : String → String) (engine : FactorRuleEngine) where
  -- The result of a pair that is verified: the rule of its factor classifies both sides, and the
  -- adjustment is the number of their cell.
  pub record IsGraded (pair : FactorPair) (r : FactorEvaluationResult) : Type 0 where
    pub rule : FactorRule
    pub target : Grade
    pub comparable : Grade
    pub adjustment : ℤ
    pub known : get engine.rules pair.factor_id ≡ some rule
    pub classified_target : classify folded engine rule pair.target target_side ≡ some target
    pub classified_comparable :
        classify folded engine rule pair.comparable comparable_side ≡ some comparable
    pub in_matrix : CellIs rule.correction_matrix target comparable adjustment
    pub shown : r ≡ record {
      factor_id = pair.factor_id;
      target_grade = some target;
      comparable_grade = some comparable;
      adjustment_percent = some adjustment;
      rule_id = some rule.id;
      status = verified;
    }

  -- Each result is that of its pair, and the adjustments are these numbers.
  pub data AllGraded : List FactorPair → List FactorEvaluationResult → List ℤ → Type 0 where
    no_pairs : AllGraded [] [] []
    one_more :
        (pair : FactorPair) (r : FactorEvaluationResult) (pairs : List FactorPair)
        (results : List FactorEvaluationResult) (xs : List ℤ) (g : IsGraded pair r)
        → AllGraded pairs results xs
        → AllGraded (pair ∷ pairs) (r ∷ results) (g.adjustment ∷ xs)

  cell-CellIs :
      (rows : Dict Grade (Dict Grade ℤ)) (g h : Grade) (x : ℤ)
      → cell rows g h ≡ some x
      → CellIs rows g h x
  unfolding cell
  cell-CellIs rows g h x e = found (get rows g) refl
    where
      found : (row : Option (Dict Grade ℤ)) → get rows g ≡ row → CellIs rows g h x
      found none at = absurd (cc (rw at at e))
      found (some row) at = record { row = row; at_target = at; at_comparable = rw at at e }

  graded-IsGraded :
      (pair : FactorPair) (rule : FactorRule) (target comparable : Option Grade)
      → get engine.rules pair.factor_id ≡ some rule
      → classify folded engine rule pair.target target_side ≡ target
      → classify folded engine rule pair.comparable comparable_side ≡ comparable
      → (graded rule target comparable).status ≡ verified
      → IsGraded pair (record (graded rule target comparable) { factor_id = pair.factor_id })
  graded-IsGraded pair rule none comparable known t c h = absurd (cc h)
  graded-IsGraded pair rule (some g) none known t c h = absurd (cc h)
  graded-IsGraded pair rule (some g) (some k) known t c h =
      found (cell rule.correction_matrix g k) refl h
    where
      found :
          (x : Option ℤ)
          → cell rule.correction_matrix g k ≡ x
          → cell_status x ≡ verified
          → IsGraded pair (record {
            factor_id = pair.factor_id;
            target_grade = some g;
            comparable_grade = some k;
            adjustment_percent = x;
            rule_id = some rule.id;
            status = cell_status x;
          })
      found none at e = absurd (cc e)
      found (some x) at e = record {
        rule = rule;
        target = g;
        comparable = k;
        adjustment = x;
        known = known;
        classified_target = t;
        classified_comparable = c;
        in_matrix = cell-CellIs rule.correction_matrix g k x at;
        shown = refl;
      }

  evaluate_pair-IsGraded :
      (pair : FactorPair)
      → (evaluate_pair folded engine pair).status ≡ verified
      → IsGraded pair (evaluate_pair folded engine pair)
  unfolding evaluate_pair
  evaluate_pair-IsGraded pair h = found (get engine.rules pair.factor_id) refl h
    where
      found :
          (o : Option FactorRule)
          → get engine.rules pair.factor_id ≡ o
          → (evaluate_rule folded engine pair.factor_id o pair).status ≡ verified
          → IsGraded pair (evaluate_rule folded engine pair.factor_id o pair)
      found none at e = absurd (cc e)
      found (some rule) at e = graded-IsGraded pair rule _ _ at refl refl e

  verified_parts :
      (r : FactorEvaluationResult) (rs : List FactorEvaluationResult)
      → summary_status (r ∷ rs) ≡ verified
      → (r.status ≡ verified) × (summary_status rs ≡ verified)
  unfolding summary_status has_status
  verified_parts r rs h = (ground arith, ground arith)

  verified_more :
      (r : FactorEvaluationResult) (rs : List FactorEvaluationResult)
      → r.status ≡ verified
      → summary_status rs ≡ verified
      → summary_status (r ∷ rs) ≡ verified
  unfolding summary_status has_status
  verified_more r rs h k = ground arith

  map-AllGraded :
      (pairs : List FactorPair)
      → summary_status (map (evaluate_pair folded engine) pairs) ≡ verified
      → (xs : List ℤ) × AllGraded pairs (map (evaluate_pair folded engine) pairs) xs
  map-AllGraded [] h = ([], no_pairs)
  map-AllGraded (pair ∷ pairs) h =
      let (first, rest) =
        verified_parts (evaluate_pair folded engine pair) (map (evaluate_pair folded engine) pairs)
          h in
      let g = evaluate_pair-IsGraded pair first in
      let (xs, gs) = map-AllGraded pairs rest in
      (g.adjustment ∷ xs, one_more pair _ pairs _ xs g gs)

  AllGraded-verified :
      {pairs : List FactorPair} {results : List FactorEvaluationResult} {xs : List ℤ}
      → AllGraded pairs results xs
      → summary_status results ≡ verified
  unfolding summary_status has_status
  AllGraded-verified no_pairs = refl
  AllGraded-verified (one_more pair r pairs results xs g gs) =
      verified_more r results (ap (λ (y : FactorEvaluationResult). y.status) g.shown)
        (AllGraded-verified gs)

  AllGraded-total :
      {pairs : List FactorPair} {results : List FactorEvaluationResult} {xs : List ℤ}
      → AllGraded pairs results xs
      → total results ≡ sum_of xs
  unfolding total
  AllGraded-total no_pairs = refl
  AllGraded-total (one_more pair r pairs results xs g gs) =
      let adjusted = ap (λ (y : FactorEvaluationResult). y.adjustment_percent) g.shown in
      rw adjusted (ap (λ y. g.adjustment +ℤ y) (AllGraded-total gs))

  -- What an evaluation of these pairs says.
  abbrev pub Summed : List FactorPair → FactorReviewResult → Type 0
  Summed pairs r =
      ((r.status ≡ verified)
        × ((xs : List ℤ) × AllGraded pairs r.results xs
            × (r.total_adjustment_percent ≡ some (sum_of xs))))
      ⊎ ((r.status ≢ verified)
          × (r.total_adjustment_percent ≡ none)
          × ((xs : List ℤ) → ¬ AllGraded pairs r.results xs))

  abbrev IfSummed : List FactorPair → Result FactorReviewResult → Type 0
  IfSummed pairs (err e) = Unit
  IfSummed pairs (ok r) = Summed pairs r

  evaluate-IfSummed :
      (request : FactorEvaluationRequest)
      → IfSummed request.factors (evaluate folded engine request)
  unfolding evaluate
  evaluate-IfSummed request =
      let results = map (evaluate_pair folded engine) request.factors in
      elim (Bool-cases (not (request.rule_set_id == engine.rule_set.rule_set_id))) [
        | inl other ↦ rw other tt
        | inr same ↦ rw same (totalled (summary_status results) refl)
      ]
    where
      totalled :
          (s : EvaluationStatus)
          → summary_status (map (evaluate_pair folded engine) request.factors) ≡ s
          → Summed request.factors (record {
            case_id = request.case_id;
            rule_set_id = engine.rule_set.rule_set_id;
            rule_version = engine.rule_set.version;
            context = none;
            case_version = none;
            source_hashes = [];
            results = map (evaluate_pair folded engine) request.factors;
            total_adjustment_percent =
                when_verified s (total (map (evaluate_pair folded engine) request.factors));
            status = s;
          })
      totalled verified e =
          let (xs, gs) = map-AllGraded request.factors e in
          inl (refl, (xs, gs, ap some (AllGraded-total gs)))
      totalled needs_review e =
          inr ((λ h. cc h), refl, λ xs gs. let v = AllGraded-verified gs in cc (e, v))
      totalled failed e =
          inr ((λ h. cc h), refl, λ xs gs. let v = AllGraded-verified gs in cc (e, v))

  pub evaluate-IsGraded :
      (request : FactorEvaluationRequest) {r : FactorReviewResult}
      → evaluate folded engine request ≡ ok r
      → ((r.status ≡ verified)
          × ((xs : List ℤ) × AllGraded request.factors r.results xs
              × (r.total_adjustment_percent ≡ some (sum_of xs))))
        ⊎ ((r.status ≢ verified)
            × (r.total_adjustment_percent ≡ none)
            × ((xs : List ℤ) → ¬ AllGraded request.factors r.results xs))
  evaluate-IsGraded request h = subst (IfSummed request.factors) h (evaluate-IfSummed request)
