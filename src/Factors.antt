-- ===== src/Factors.antt =====
-- src/appraisal_review/domain/factor_models.py: factor rules, observations and evaluation results.
-- A float is an integer number of units of one decimal place, fine enough for the shortest decimal
-- text of every float: the engine only computes with those texts, as decimals.
mod Validation
mod Engine
mod Coverage
mod Matrix
mod Summary
mod Verifier
mod Clean
mod Certified
mod Witness
use newtaipei_appraisal_revi.Prelude.{
  ℕ, ◌+◌, ◌-◌, ◌*◌, String, ◌≡◌, refl, ◌⊎◌, inl, inr, Bool, true, false, Option, List, ltb, leb,
  eqb, arith, suc,
}
use newtaipei_appraisal_revi.Prelude.{Eq}
use newtaipei_appraisal_revi.Prelude.Dict.{Dict}

pub data ℤ : Type 0 where
  pos negsuc : ℕ → ℤ

abbrev pub lt_int : ℤ → ℤ → Bool
lt_int (pos m) (pos n) = ltb m n
lt_int (pos m) (negsuc n) = false
lt_int (negsuc m) (pos n) = true
lt_int (negsuc m) (negsuc n) = ltb n m

abbrev pub eq_int : ℤ → ℤ → Bool
eq_int (pos m) (pos n) = eqb m n
eq_int (negsuc m) (negsuc n) = eqb m n
eq_int _ _ = false

abbrev difference : ℕ → ℕ → ℤ
difference m n = elim (ltb m n) [ true ↦ negsuc (n - m - 1) | false ↦ pos (m - n) ]

infixl 60 ◌+ℤ◌
abbrev pub ◌+ℤ◌ : ℤ → ℤ → ℤ
pos m +ℤ pos n = pos (m + n)
pos m +ℤ negsuc n = difference m (n + 1)
negsuc m +ℤ pos n = difference n (m + 1)
negsuc m +ℤ negsuc n = negsuc (m + n + 1)

-- A positive multiple.
unfoldable pub times : ℤ → ℕ → ℤ
times (pos m) k = pos (m * k)
times (negsuc m) k = negsuc ((m + 1) * k - 1)

pub data Grade : Type 0 where
  excellent slightly_superior normal slightly_inferior inferior : Grade

abbrev pub same_grade : Grade → Grade → Bool
same_grade excellent excellent = true
same_grade slightly_superior slightly_superior = true
same_grade normal normal = true
same_grade slightly_inferior slightly_inferior = true
same_grade inferior inferior = true
same_grade _ _ = false

pub same_grade_iff :
    (a b : Grade) → ((same_grade a b ≡ true) → (a ≡ b)) × ((a ≡ b) → (same_grade a b ≡ true))
same_grade_iff a b = ground arith

instance abbrev pub grade_eq : Eq Grade
grade_eq = record { beq = same_grade; beq_iff = same_grade_iff }

pub data EvaluationStatus : Type 0 where
  verified needs_review failed : EvaluationStatus

-- The validator of the model ties the type to the value, so each type has its constructor. The second
-- field is the unit.
pub data NormalizedValue : Type 0 where
  number : ℤ → Option String → NormalizedValue
  text category : String → Option String → NormalizedValue
  boolean : Bool → Option String → NormalizedValue

pub record IntervalBand : Type 0 where
  pub grade : Grade
  pub minimum : Option ℤ
  pub minimum_inclusive : Bool
  pub maximum : Option ℤ
  pub maximum_inclusive : Bool

pub record CategoryBand : Type 0 where
  pub grade : Grade
  pub values : List String

pub data RuleKind : Type 0 where
  numeric_interval distance_interval category_rule presence_distance : RuleKind

-- The matrix has grades as keys: the validator refuses any other key.
pub record FactorRule : Type 0 where
  pub id : String
  pub factor_id : String
  pub kind : RuleKind
  pub unit : Option String
  pub intervals : List IntervalBand
  pub categories : List CategoryBand
  pub correction_matrix : Dict Grade (Dict Grade ℤ)
  pub critical : Bool

pub data ApprovalStatus : Type 0 where
  candidate approved rejected : ApprovalStatus

pub record FactorRuleSet : Type 0 where
  pub rule_set_id : String
  pub version : String
  pub status : ApprovalStatus
  pub rules : List FactorRule

-- Confidences lie between 0 and 1, so they are natural numbers of the same units.
pub record FactorObservation : Type 0 where
  pub value : Option NormalizedValue
  pub evidence : List String
  pub confidence : ℕ

pub record FactorPair : Type 0 where
  pub factor_id : String
  pub target : FactorObservation
  pub comparable : FactorObservation

pub record FactorEvaluationRequest : Type 0 where
  pub case_id : String
  pub rule_set_id : String
  pub factors : List FactorPair

-- The calculation trace and the warnings are texts for people.
pub record FactorEvaluationResult : Type 0 where
  pub factor_id : String
  pub target_grade : Option Grade
  pub comparable_grade : Option Grade
  pub adjustment_percent : Option ℤ
  pub rule_id : Option String
  pub status : EvaluationStatus

pub data Scope : Type 0 where
  regional individual : Scope

pub record ComparisonContext : Type 0 where
  pub scope : Scope
  pub target_id : String
  pub comparable_id : String

-- With the two fields of its `summary`.
pub record FactorReviewResult : Type 0 where
  pub case_id : String
  pub rule_set_id : String
  pub rule_version : String
  pub context : Option ComparisonContext
  pub case_version : Option String
  pub source_hashes : List (String × String)
  pub results : List FactorEvaluationResult
  pub total_adjustment_percent : Option ℤ
  pub status : EvaluationStatus
