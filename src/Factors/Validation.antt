-- ===== src/Factors/Validation.antt =====
-- The validators of factor rules in factor_models.py: `true` where no `ValueError` is raised.
use newtaipei_appraisal_revi.Prelude.{
  String, Bool, true, false, not, ◌&&◌, ◌||◌, Option, none, some, is_some, is_empty, List, [], ◌∷◌,
  ◌++◌, map, if◌then◌else◌, ◌==◌, string_eq,
}
use newtaipei_appraisal_revi.Prelude.Dict.{Dict}
use newtaipei_appraisal_revi.Factors.{
  ℤ, lt_int, eq_int, Grade, same_grade, IntervalBand, CategoryBand, category_rule,
  presence_distance, FactorRule, FactorRuleSet,
}

-- `IntervalBand.validate_bounds`
abbrev pub bounds_ordered : Option ℤ → Option ℤ → Bool
bounds_ordered (some low) (some high) = lt_int low high
bounds_ordered _ _ = true

unfoldable pub valid_bounds : IntervalBand → Bool
valid_bounds band = bounds_ordered band.minimum band.maximum

abbrev pub same_bound : Option ℤ → Option ℤ → Bool
same_bound none none = true
same_bound (some a) (some b) = eq_int a b
same_bound _ _ = false

abbrev pub same_flag : Bool → Bool → Bool
same_flag true b = b
same_flag false b = not b

-- A band and the next one: they meet, and their boundary belongs to one of them.
unfoldable pub adjacent : IntervalBand → IntervalBand → Bool
adjacent previous current =
    same_bound previous.maximum current.minimum
    && not (same_flag previous.maximum_inclusive current.minimum_inclusive)

-- From a band on, each pair is adjacent and the last band has no maximum.
unfoldable pub chained : IntervalBand → List IntervalBand → Bool
chained band [] = not (is_some band.maximum)
chained band (next ∷ bands) = adjacent band next && chained next bands

-- `_validate_intervals`; the callers have refused an empty list.
unfoldable pub valid_intervals : List IntervalBand → Bool
unfolding chained
valid_intervals [] = false
valid_intervals (band ∷ bands) = not (is_some band.minimum) && chained band bands

unfoldable pub has_grade : Grade → List Grade → Bool
has_grade g [] = false
has_grade g (h ∷ gs) = same_grade g h || has_grade g gs

-- `a <= b` of two sets
unfoldable pub all_in : List Grade → List Grade → Bool
all_in [] gs = true
all_in (g ∷ hs) gs = has_grade g gs && all_in hs gs

unfoldable pub same_grades : List Grade → List Grade → Bool
unfolding all_in
same_grades hs gs = all_in hs gs && all_in gs hs

abbrev pub keys : {V : Type 0} → Dict Grade V → List Grade
keys [] = []
keys ((g, v) ∷ d) = g ∷ keys d

unfoldable pub rows_match : Dict Grade (Dict Grade ℤ) → List Grade → Bool
rows_match [] gs = true
rows_match ((g, row) ∷ rows) gs = same_grades (keys row) gs && rows_match rows gs

-- `_validate_matrix`
unfoldable pub valid_matrix : Dict Grade (Dict Grade ℤ) → List Grade → Bool
unfolding rows_match
valid_matrix rows gs = same_grades (keys rows) gs && rows_match rows gs

abbrev pub interval_grades : List IntervalBand → List Grade
interval_grades [] = []
interval_grades (band ∷ bands) = band.grade ∷ interval_grades bands

abbrev pub category_grades : List CategoryBand → List Grade
category_grades [] = []
category_grades (band ∷ bands) = band.grade ∷ category_grades bands

unfoldable pub has_text : String → List String → Bool
has_text t [] = false
has_text t (u ∷ us) = t == u || has_text t us

unfoldable all_distinct : List String → Bool
unfolding has_text
all_distinct [] = true
all_distinct (t ∷ ts) = not (has_text t ts) && all_distinct ts

-- `folded` is `strip().casefold()`, over Python's Unicode tables.
module _ (folded : String → String) where
  unfoldable aliases : List CategoryBand → List String
  aliases [] = []
  aliases (band ∷ bands) = map folded band.values ++ aliases bands

  -- `FactorRule.validate_definition`
  unfoldable pub valid_rule : FactorRule → Bool
  unfolding valid_matrix all_distinct aliases
  valid_rule rule = elim rule.kind [
    | category_rule ↦
        if is_empty rule.categories || not (is_empty rule.intervals)
        then false
        else if not (all_distinct (aliases rule.categories))
        then false
        else valid_matrix rule.correction_matrix (category_grades rule.categories)
    | presence_distance ↦
        if is_empty rule.intervals
        then false
        else if not (valid_intervals rule.intervals)
        then false
        else if is_empty rule.categories
        then false
        else if not (all_distinct (aliases rule.categories))
        then false
        else valid_matrix rule.correction_matrix
            (interval_grades rule.intervals ++ category_grades rule.categories)
    | _ ↦
        if is_empty rule.intervals || not (is_empty rule.categories)
        then false
        else if not (valid_intervals rule.intervals)
        then false
        else valid_matrix rule.correction_matrix (interval_grades rule.intervals)
  ]

-- `FactorRuleSet.validate_unique_rules`
abbrev rule_ids : List FactorRule → List String
rule_ids [] = []
rule_ids (rule ∷ rules) = rule.id ∷ rule_ids rules

abbrev factor_ids : List FactorRule → List String
factor_ids [] = []
factor_ids (rule ∷ rules) = rule.factor_id ∷ factor_ids rules

unfoldable pub unique_rules : FactorRuleSet → Bool
unfolding all_distinct
unique_rules rule_set =
    all_distinct (rule_ids rule_set.rules) && all_distinct (factor_ids rule_set.rules)
