-- ===== src/Factors/Matrix.antt =====
-- The matrix of a validated rule in factor_models.py has a cell for every pair of grades that
-- factor_engine.py can give under the rule.
use newtaipei_appraisal_revi.Prelude.{
  ◌≡◌, ◌≢◌, refl, ap, ◌∙◌, subst, ◌⊎◌, inl, inr, String, true, false, ◌&&◌, Option, none, some,
  List, [], ◌∷◌, ◌++◌, map, arith, Bool-cases, Option-cases, string_eq,
}
use newtaipei_appraisal_revi.Prelude.Dict.{Dict, get}
use newtaipei_appraisal_revi.Factors.{
  ℤ, pos, lt_int, Grade, same_grade, grade_eq, verified, failed, NormalizedValue, number, text,
  category, boolean, IntervalBand, CategoryBand, RuleKind, numeric_interval, distance_interval,
  category_rule, presence_distance, FactorRule, FactorPair, FactorObservation,
}
use newtaipei_appraisal_revi.Factors.Validation.{
  has_grade, all_in, same_grades, keys, rows_match, valid_matrix, interval_grades, category_grades,
  valid_rule, has_text,
}
use newtaipei_appraisal_revi.Factors.Engine.{
  contains, first_band, first_category, is_distance, classify_number, normalize_number,
  classify_value, classify, cell, row_cell, classify_kind, FactorRuleEngine, Side, target_side,
  comparable_side, evaluate_pair, graded, cell_status,
}

all_in-has_grade :
    (hs gs : List Grade) (g : Grade)
    → all_in hs gs ≡ true
    → has_grade g hs ≡ true
    → has_grade g gs ≡ true
unfolding all_in has_grade
all_in-has_grade [] gs g h m = absurd (cc m)
all_in-has_grade (k ∷ hs) gs g h m = elim (Bool-cases (same_grade g k)) [
  | inl same ↦
      let e : g ≡ k = ground arith in let there : has_grade k gs ≡ true = ground arith in rw e there
  | inr other ↦ all_in-has_grade hs gs g (ground arith) (ground arith)
]

has_grade-append :
    (hs gs : List Grade) (g : Grade)
    → (has_grade g hs ≡ true) ⊎ (has_grade g gs ≡ true)
    → has_grade g (hs ++ gs) ≡ true
unfolding has_grade
has_grade-append [] gs g (inl h) = absurd (cc h)
has_grade-append [] gs g (inr h) = h
has_grade-append (k ∷ hs) gs g m = elim (Bool-cases (same_grade g k)) [
  | inl same ↦ rw same refl
  | inr other ↦ rw other (has_grade-append hs gs g (later m other))
]
  where
    later :
        (has_grade g (k ∷ hs) ≡ true) ⊎ (has_grade g gs ≡ true)
        → same_grade g k ≡ false
        → (has_grade g hs ≡ true) ⊎ (has_grade g gs ≡ true)
    later (inl h) n = inl (ground arith)
    later (inr h) n = inr h

keys-get :
    {V : Type 0} (d : Dict Grade V) (g : Grade)
    → has_grade g (keys d) ≡ true
    → (v : V) × (get d g ≡ some v)
unfolding has_grade get
keys-get [] g h = absurd (cc h)
keys-get ((k, v) ∷ d) g h = elim (Bool-cases (same_grade k g)) [
  | inl same ↦ (v, rw same refl)
  | inr other ↦ let (w, found) = keys-get d g (ground arith) in (w, rw other found)
]

rows_match-get :
    (rows : Dict Grade (Dict Grade ℤ)) (gs : List Grade) (g : Grade) {row : Dict Grade ℤ}
    → rows_match rows gs ≡ true
    → get rows g ≡ some row
    → same_grades (keys row) gs ≡ true
unfolding rows_match get
rows_match-get [] gs g m h = absurd (cc h)
rows_match-get ((k, r) ∷ rows) gs g {row} m h = elim (Bool-cases (same_grade k g)) [
  | inl same ↦
      let e : some r ≡ some row = (rw same at h) in
      let e' : r ≡ row = cc e in subst (λ d. same_grades (keys d) gs ≡ true) e' (ground arith)
  | inr other ↦ rows_match-get rows gs g (ground arith) (rw other at h)
]

-- Every cell of a validated matrix is there.
valid_matrix-cell :
    (rows : Dict Grade (Dict Grade ℤ)) (gs : List Grade) (g h : Grade)
    → valid_matrix rows gs ≡ true
    → has_grade g gs ≡ true
    → has_grade h gs ≡ true
    → (x : ℤ) × (cell rows g h ≡ some x)
unfolding valid_matrix same_grades cell
valid_matrix-cell rows gs g h v mg mh =
    let (row, found) = keys-get rows g (all_in-has_grade gs (keys rows) g (ground arith) mg) in
    let fits : same_grades (keys row) gs ≡ true = rows_match-get rows gs g (ground arith) found in
    let (x, there) =
      keys-get row h (all_in-has_grade gs (keys row) h (second (keys row) gs fits) mh) in
    (x, ap (λ o. row_cell o h) found ∙ there)
  where
    second : (hs gs : List Grade) → same_grades hs gs ≡ true → all_in gs hs ≡ true
    second hs gs h = ground arith

first_band-member :
    (bands : List IntervalBand) (v : ℤ) {g : Grade}
    → first_band bands v ≡ some g
    → has_grade g (interval_grades bands) ≡ true
unfolding first_band has_grade
first_band-member [] v h = absurd (cc h)
first_band-member (band ∷ bands) v {g} h = elim (Bool-cases (contains band v)) [
  | inl inside ↦ ground arith
  | inr outside ↦ let later = first_band-member bands v {g = g} (rw outside at h) in ground arith
]

first_category-member :
    (folded : String → String) (bands : List CategoryBand) (t : String) {g : Grade}
    → first_category folded bands t ≡ some g
    → has_grade g (category_grades bands) ≡ true
unfolding first_category has_grade
first_category-member folded [] t h = absurd (cc h)
first_category-member folded (band ∷ bands) t {g} h =
    elim (Bool-cases (has_text t (map folded band.values))) [
      | inl inside ↦ ground arith
      | inr outside ↦
          let later = first_category-member folded bands t {g = g} (rw outside at h) in ground arith
    ]

-- The grades that a rule can give.
abbrev grades_of_kind : RuleKind → FactorRule → List Grade
grades_of_kind category_rule rule = category_grades rule.categories
grades_of_kind presence_distance rule =
    interval_grades rule.intervals ++ category_grades rule.categories
grades_of_kind kind rule = interval_grades rule.intervals

abbrev grades_of : FactorRule → List Grade
grades_of rule = grades_of_kind rule.kind rule

valid_rule-matrix :
    (folded : String → String) (rule : FactorRule)
    → valid_rule folded rule ≡ true
    → valid_matrix rule.correction_matrix (grades_of rule) ≡ true
unfolding valid_rule
valid_rule-matrix folded rule h = ground arith

classify_number-member :
    (rule : FactorRule) (n : Option ℤ) {g : Grade}
    → classify_number rule n ≡ some g
    → has_grade g (interval_grades rule.intervals) ≡ true
classify_number-member rule none h = absurd (cc h)
classify_number-member rule (some v) {g} h =
    elim (Bool-cases (is_distance rule.kind && lt_int v (pos 0))) [
      | inl negative ↦ absurd (nothing (rw negative at h))
      | inr fine ↦ first_band-member rule.intervals v {g = g} (rw fine at h)
    ]
  where
    nothing : {g : Grade} → ◌≡◌ {A = Option Grade} none (some g) → ⊥
    nothing e = cc e

classify_kind-member :
    (folded : String → String) (kind : RuleKind) (rule : FactorRule) (value : NormalizedValue)
    {g : Grade}
    → classify_kind folded kind rule value ≡ some g
    → has_grade g (grades_of_kind kind rule) ≡ true
unfolding classify_kind
classify_kind-member folded category_rule rule (text t unit) h =
    first_category-member folded rule.categories (folded t) h
classify_kind-member folded category_rule rule (category t unit) h =
    first_category-member folded rule.categories (folded t) h
classify_kind-member folded category_rule rule (number v unit) h = absurd (cc h)
classify_kind-member folded category_rule rule (boolean b unit) h = absurd (cc h)
classify_kind-member folded presence_distance rule (number v unit) {g} h =
    has_grade-append (interval_grades rule.intervals) (category_grades rule.categories) g
      (inl (classify_number-member rule (normalize_number v unit rule.unit) h))
classify_kind-member folded presence_distance rule (text t unit) {g} h =
    has_grade-append (interval_grades rule.intervals) (category_grades rule.categories) g
      (inr (first_category-member folded rule.categories (folded t) h))
classify_kind-member folded presence_distance rule (category t unit) {g} h =
    has_grade-append (interval_grades rule.intervals) (category_grades rule.categories) g
      (inr (first_category-member folded rule.categories (folded t) h))
classify_kind-member folded presence_distance rule (boolean b unit) h = absurd (cc h)
classify_kind-member folded numeric_interval rule (number v unit) h =
    classify_number-member rule (normalize_number v unit rule.unit) h
classify_kind-member folded numeric_interval rule (text t unit) h = absurd (cc h)
classify_kind-member folded numeric_interval rule (category t unit) h = absurd (cc h)
classify_kind-member folded numeric_interval rule (boolean b unit) h = absurd (cc h)
classify_kind-member folded distance_interval rule (number v unit) h =
    classify_number-member rule (normalize_number v unit rule.unit) h
classify_kind-member folded distance_interval rule (text t unit) h = absurd (cc h)
classify_kind-member folded distance_interval rule (category t unit) h = absurd (cc h)
classify_kind-member folded distance_interval rule (boolean b unit) h = absurd (cc h)

-- A grade that an observation is given is one of the rule's.
classify-member :
    (folded : String → String) (engine : FactorRuleEngine) (rule : FactorRule)
    (o : FactorObservation) (side : Side) {g : Grade}
    → classify folded engine rule o side ≡ some g
    → has_grade g (grades_of rule) ≡ true
unfolding classify classify_value
classify-member folded engine rule o side {g} h = elim (Option-cases o.value) [
  | inl nothing ↦ ground arith
  | inr (value, there) ↦
      let graded : classify_kind folded rule.kind rule value ≡ some g = ground arith in
      classify_kind-member folded rule.kind rule value graded
]

graded_status :
    (rule : FactorRule) (target comparable : Option Grade)
    → valid_matrix rule.correction_matrix (grades_of rule) ≡ true
    → ((g : Grade) → target ≡ some g → has_grade g (grades_of rule) ≡ true)
    → ((g : Grade) → comparable ≡ some g → has_grade g (grades_of rule) ≡ true)
    → (graded rule target comparable).status ≢ failed
graded_status rule none comparable v hg hh e = cc e
graded_status rule (some g) none v hg hh e = cc e
graded_status rule (some g) (some h) v hg hh e =
    let (x, there) =
      valid_matrix-cell rule.correction_matrix (grades_of rule) g h v (hg g refl) (hh h refl) in
    let fine : cell_status (cell rule.correction_matrix g h) ≡ verified = ap cell_status there in
    cc (fine, e)

-- A pair of observations under a validated rule never fails: it is verified, or left for review.
pub evaluate_pair-not_failed :
    (folded : String → String) (engine : FactorRuleEngine) (pair : FactorPair) {rule : FactorRule}
    → get engine.rules pair.factor_id ≡ some rule
    → valid_rule folded rule ≡ true
    → (evaluate_pair folded engine pair).status ≢ failed
unfolding evaluate_pair
evaluate_pair-not_failed folded engine pair {rule} known v = rw known (
    graded_status rule (classify folded engine rule pair.target target_side)
      (classify folded engine rule pair.comparable comparable_side)
      (valid_rule-matrix folded rule v)
      (λ g. classify-member folded engine rule pair.target target_side)
      (λ g. classify-member folded engine rule pair.comparable comparable_side))
