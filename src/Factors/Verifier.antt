-- ===== src/Factors/Verifier.antt =====
-- src/appraisal_review/domain/verification.py: the completion gate over a claimed result. The traces
-- and the warnings of an evaluation are texts; how the engine words them is a parameter.
use newtaipei_appraisal_revi.Prelude.{
  ℕ, String, ◌≡◌, ◌↔◌, Bool, true, false, not, ◌&&◌, ◌||◌, Option, none, some, is_empty, List, [],
  ◌∷◌, ◌++◌, arith, ltb, if◌then◌else◌, ◌==◌, string_eq, option_eq, Eq, beq_refl, subst, refl,
  is_in, distinct, same_list,
}
use newtaipei_appraisal_revi.Faults.{Result, ok, err, ◌>>=◌, value_error}
use newtaipei_appraisal_revi.Factors.{
  ℤ, eq_int, grade_eq, EvaluationStatus, verified, needs_review, failed, IntervalBand, CategoryBand,
  FactorRule, FactorRuleSet, FactorPair, FactorEvaluationRequest, FactorEvaluationResult,
  FactorReviewResult,
}
use newtaipei_appraisal_revi.Factors.Validation.{valid_bounds, valid_rule, unique_rules}
use newtaipei_appraisal_revi.Factors.Engine.{
  Side, FactorRuleEngine, new_engine, evaluate, same_evaluation,
}

pub eq_int_iff : (a b : ℤ) → (eq_int a b ≡ true) ↔ (a ≡ b)
eq_int_iff a b = ground arith

instance abbrev pub int_eq : Eq ℤ
int_eq = record { beq = eq_int; beq_iff = eq_int_iff }

pub same_evaluation_iff : (a b : EvaluationStatus) → (same_evaluation a b ≡ true) ↔ (a ≡ b)
same_evaluation_iff a b = ground arith

instance abbrev pub evaluation_eq : Eq EvaluationStatus
evaluation_eq = record { beq = same_evaluation; beq_iff = same_evaluation_iff }

abbrev pub same_factor : FactorEvaluationResult → FactorEvaluationResult → Bool
same_factor a b =
    a.factor_id == b.factor_id
    && a.target_grade == b.target_grade
    && a.comparable_grade == b.comparable_grade
    && a.adjustment_percent == b.adjustment_percent
    && a.rule_id == b.rule_id
    && a.status == b.status

same_factor_refl : (a : FactorEvaluationResult) → same_factor a a ≡ true
same_factor_refl a =
    rw
      (
        beq_refl a.factor_id,
        beq_refl a.target_grade,
        beq_refl a.comparable_grade,
        beq_refl a.adjustment_percent,
        beq_refl a.rule_id,
        beq_refl a.status,
      )
      refl

six_parts :
    (a b c d e f : Bool)
    → (a && b && c && d && e && f) ≡ true
    → (a ≡ true) × (b ≡ true) × (c ≡ true) × (d ≡ true) × (e ≡ true) × (f ≡ true)
six_parts a b c d e f h =
    (ground arith, ground arith, ground arith, ground arith, ground arith, ground arith)

same_factor-equal : (a b : FactorEvaluationResult) → same_factor a b ≡ true → a ≡ b
same_factor-equal a b h =
    let (factors, targets, comparables, adjustments, rules, statuses) =
      six_parts (a.factor_id == b.factor_id) (a.target_grade == b.target_grade)
        (a.comparable_grade == b.comparable_grade) (a.adjustment_percent == b.adjustment_percent)
        (a.rule_id == b.rule_id) (a.status == b.status) h in
    let factor : a.factor_id ≡ b.factor_id =
      (string_eq.beq_iff a.factor_id b.factor_id).0 factors in
    let target : a.target_grade ≡ b.target_grade =
      (option_eq.beq_iff a.target_grade b.target_grade).0 targets in
    let comparable : a.comparable_grade ≡ b.comparable_grade =
      (option_eq.beq_iff a.comparable_grade b.comparable_grade).0 comparables in
    let adjustment : a.adjustment_percent ≡ b.adjustment_percent =
      (option_eq.beq_iff a.adjustment_percent b.adjustment_percent).0 adjustments in
    let rule : a.rule_id ≡ b.rule_id = (option_eq.beq_iff a.rule_id b.rule_id).0 rules in
    let status : a.status ≡ b.status = (evaluation_eq.beq_iff a.status b.status).0 statuses in cc

pub same_factor_iff : (a b : FactorEvaluationResult) → (same_factor a b ≡ true) ↔ (a ≡ b)
same_factor_iff a b =
    (same_factor-equal a b, λ e. subst (λ x. same_factor a x ≡ true) e (same_factor_refl a))

instance abbrev pub factor_result_eq : Eq FactorEvaluationResult
factor_result_eq = record { beq = same_factor; beq_iff = same_factor_iff }

-- The entries of `critical_errors`, as values.
pub data Problem : Type 0 where
  missing_critical : String → Problem
  duplicate_results identity_mismatch facts_required differs unresolved invalid_input : Problem

pub record VerificationReport : Type 0 where
  pub status : EvaluationStatus
  pub critical_errors : List Problem

-- `VerificationReport.can_complete`
unfoldable pub can_complete : VerificationReport → Bool
can_complete r = r.status == verified && is_empty r.critical_errors

-- A result with the texts of its entries.
pub record Explained : Type 0 where
  pub result : FactorReviewResult
  pub texts : List String

-- The local variables `errors` and `failed` of `verify`, or what a part of it adds to them.
pub record Checks : Type 0 where
  pub errors : List Problem
  pub failed : Bool

abbrev pub join : Checks → Checks → Checks
join a b = record { errors = a.errors ++ b.errors; failed = a.failed || b.failed }

abbrev pub fails_if : Bool → Problem → Checks
fails_if true problem = record { errors = problem ∷ []; failed = true }
fails_if false problem = record { errors = []; failed = false }

abbrev pub ids_of : List FactorEvaluationResult → List String
ids_of [] = []
ids_of (r ∷ rs) = r.factor_id ∷ ids_of rs

unfoldable pub missing : List FactorRule → List String → List Problem
missing [] ids = []
missing (rule ∷ rules) ids =
    if rule.critical && not (is_in rule.factor_id ids)
    then missing_critical rule.factor_id ∷ missing rules ids
    else missing rules ids

abbrev ordered_bands : List IntervalBand → Bool
ordered_bands [] = true
ordered_bands (band ∷ bands) = valid_bounds band && ordered_bands bands

-- `values: list[str] = Field(min_length=1)`
abbrev named_categories : List CategoryBand → Bool
named_categories [] = true
named_categories (band ∷ bands) = not (is_empty band.values) && named_categories bands

-- `(claimed.case_id, claimed.results, claimed.summary) == (expected...)`
abbrev pub same_review : Explained → Explained → Bool
same_review a b =
    a.result.case_id == b.result.case_id
    && same_list a.result.results b.result.results
    && same_list a.texts b.texts
    && a.result.total_adjustment_percent == b.result.total_adjustment_percent
    && a.result.status == b.result.status

abbrev is_failed : EvaluationStatus → Bool
is_failed s = s == failed

abbrev pub compared : Explained → Result Explained → Checks
compared claim (err e) = record { errors = invalid_input ∷ []; failed = true }
compared claim (ok expected) = join (fails_if (not (same_review claim expected)) differs) (
    if not (expected.result.status == verified)
    then record { errors = unresolved ∷ []; failed = is_failed expected.result.status }
    else record { errors = []; failed = false })

abbrev pub reported : Checks → VerificationReport
reported c = record {
  status = if c.failed then failed else if is_empty c.errors then verified else needs_review;
  critical_errors = c.errors;
}

module _ (folded : String → String)
    (explained : FactorRuleEngine → FactorEvaluationRequest → List String) (one : ℕ) where
  unfoldable pub valid_rules : List FactorRule → Bool
  unfolding valid_rule
  valid_rules [] = true
  valid_rules (rule ∷ rules) =
      valid_rule folded rule
      && ordered_bands rule.intervals
      && named_categories rule.categories
      && valid_rules rules

  -- `FactorRuleSet.model_validate`
  abbrev pub valid_rule_set : FactorRuleSet → Bool
  valid_rule_set rule_set =
      not (is_empty rule_set.rules) && valid_rules rule_set.rules && unique_rules rule_set

  -- `FactorEvaluationRequest.model_validate`: the confidences are at most 1.
  unfoldable pub valid_request : List FactorPair → Bool
  valid_request [] = true
  valid_request (pair ∷ pairs) =
      not (ltb one pair.target.confidence)
      && not (ltb one pair.comparable.confidence)
      && valid_request pairs

  -- What the `try` computes: a `ValueError` stands for each exception that it catches.
  unfoldable pub recomputed :
      FactorRuleSet → FactorEvaluationRequest → ℕ → List (String × Side) → Result Explained
  unfolding new_engine evaluate
  recomputed rule_set facts minimum_confidence confirmed_sides =
      if not (valid_rule_set rule_set && valid_request facts.factors) then err value_error else do
        engine ← new_engine one rule_set minimum_confidence confirmed_sides
        expected ← evaluate folded engine facts
        ok (record { result = expected; texts = explained engine facts })

  abbrev pub rechecked :
      Explained → FactorRuleSet → Option FactorEvaluationRequest → ℕ → List (String × Side) → Checks
  rechecked claim rule_set none minimum_confidence confirmed_sides = record {
    errors = facts_required ∷ [];
    failed = false;
  }
  rechecked claim rule_set (some facts) minimum_confidence confirmed_sides =
      compared claim (recomputed rule_set facts minimum_confidence confirmed_sides)

  abbrev pub checks :
      Explained → FactorRuleSet → Option FactorEvaluationRequest → ℕ → List (String × Side) → Checks
  checks claim rule_set facts minimum_confidence confirmed_sides =
      join
        (record { errors = missing rule_set.rules (ids_of claim.result.results); failed = false })
        (join (fails_if (not (distinct (ids_of claim.result.results))) duplicate_results) (
          join
            (fails_if
              (not (
                claim.result.rule_set_id == rule_set.rule_set_id
                && claim.result.rule_version == rule_set.version))
              identity_mismatch)
            (rechecked claim rule_set facts minimum_confidence confirmed_sides)))

  -- `ReviewVerifier.verify`; `one` is the confidence 1.0.
  unfoldable pub verify :
      Explained
      → FactorRuleSet
      → Option FactorEvaluationRequest
      → ℕ
      → List (String × Side)
      → Result VerificationReport
  unfolding missing recomputed
  verify claim rule_set facts minimum_confidence confirmed_sides =
      if ltb one minimum_confidence
      then err value_error
      else ok (reported (checks claim rule_set facts minimum_confidence confirmed_sides))
