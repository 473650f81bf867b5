-- ===== src/Factors/Coverage.antt =====
-- The bands of a validated interval rule in factor_models.py against the search of factor_engine.py:
-- every number has a band, and only one where the inner boundaries are bounded.
use newtaipei_appraisal_revi.Prelude.{
  ℕ, ◌+◌, ◌≡◌, refl, sym, ap, subst, ◌⊎◌, inl, inr, Bool, true, false, ◌&&◌, ◌||◌, Option, none,
  some, is_some, List, [], ◌∷◌, arith, Bool-cases, if◌then◌else◌,
}
use newtaipei_appraisal_revi.Factors.{ℤ, pos, negsuc, lt_int, eq_int, times, Grade, IntervalBand}
use newtaipei_appraisal_revi.Factors.Validation.{
  same_bound, same_flag, bounds_ordered, adjacent, chained, valid_intervals, valid_bounds,
}
use newtaipei_appraisal_revi.Factors.Engine.{rescaled, above, below, contains, first_band}

eq_int-≡ : (a b : ℤ) → eq_int a b ≡ true → a ≡ b
eq_int-≡ (pos m) (pos n) h = ap pos (ground arith)
eq_int-≡ (negsuc m) (negsuc n) h = ap negsuc (ground arith)
eq_int-≡ (pos m) (negsuc n) h = absurd (cc h)
eq_int-≡ (negsuc m) (pos n) h = absurd (cc h)

int-cases : (v m : ℤ) → (lt_int v m ≡ true) ⊎ (eq_int v m ≡ true) ⊎ (lt_int m v ≡ true)
int-cases v m = ground arith

lt_int_asym : (v m : ℤ) → lt_int v m ≡ true → (lt_int m v ≡ false) × (eq_int v m ≡ false)
lt_int_asym v m h = ground arith

lt_int_trans : (a b c : ℤ) → lt_int a b ≡ true → lt_int b c ≡ true → lt_int a c ≡ true
lt_int_trans a b c h k = ground arith

lt_int-rescaled : (a b : ℤ) → lt_int a b ≡ true → lt_int (rescaled a) (rescaled b) ≡ true
unfolding rescaled times
lt_int-rescaled (pos m) (pos n) h = ground arith
lt_int-rescaled (negsuc m) (negsuc n) h = ground arith
lt_int-rescaled (negsuc m) (pos n) h = refl
lt_int-rescaled (pos m) (negsuc n) h = absurd (cc h)

-- Two bounds that are the same are both missing, or the same number.
boundary :
    (high low : Option ℤ)
    → same_bound high low ≡ true
    → ((high ≡ none) × (low ≡ none)) ⊎ ((m : ℤ) × (high ≡ some m) × (low ≡ some m))
boundary none none h = inl (refl, refl)
boundary (some a) (some b) h = inr (a, refl, ap some (sym (eq_int-≡ a b h)))
boundary none (some b) h = absurd (cc h)
boundary (some a) none h = absurd (cc h)

-- Across a shared boundary: a number that is not below it is above it, and one that is below it, where
-- it is bounded, is not above it.
crossing :
    (previous next : IntervalBand) (v : ℤ)
    → adjacent previous next ≡ true
    → below previous.maximum previous.maximum_inclusive v ≡ false
    → above next.minimum next.minimum_inclusive v ≡ true
unfolding adjacent
crossing previous next v a n = elim (boundary previous.maximum next.minimum (ground arith)) [
  | inl (none_high, none_low) ↦ ground arith
  | inr (m, high, low) ↦ elim (int-cases v (rescaled m)) [
    | inl less ↦ ground arith
    | inr (inl same) ↦ ground arith
    | inr (inr more) ↦ ground arith
  ]
]

chained-first_band :
    (band : IntervalBand) (bands : List IntervalBand) (v : ℤ)
    → above band.minimum band.minimum_inclusive v ≡ true
    → chained band bands ≡ true
    → (g : Grade) × (first_band (band ∷ bands) v ≡ some g)
unfolding chained first_band contains
chained-first_band band [] v low h = (band.grade, ground arith)
chained-first_band band (next ∷ bands) v low h =
    elim (Bool-cases (below band.maximum band.maximum_inclusive v)) [
      | inl inside ↦ (band.grade, rw (low, inside))
      | inr beyond ↦
          let (g, found) =
            chained-first_band next bands v (crossing band next v (ground arith) beyond)
              (ground arith) in
          (g, rw (low, beyond) found)
    ]

-- Every number falls into a band of a validated list of intervals.
pub first_band_total :
    (bands : List IntervalBand) (v : ℤ)
    → valid_intervals bands ≡ true
    → (g : Grade) × (first_band bands v ≡ some g)
unfolding valid_intervals
first_band_total [] v h = absurd (cc h)
first_band_total (band ∷ bands) v h = chained-first_band band bands v (ground arith) (ground arith)

-- Every band but the last has a maximum.
unfoldable pub inner_bounded : IntervalBand → List IntervalBand → Bool
inner_bounded band [] = true
inner_bounded band (next ∷ bands) = is_some band.maximum && inner_bounded next bands

unfoldable pub all_ordered : List IntervalBand → Bool
all_ordered [] = true
all_ordered (band ∷ bands) = valid_bounds band && all_ordered bands

unfoldable pub count_containing : List IntervalBand → ℤ → ℕ
count_containing [] v = 0
count_containing (band ∷ bands) v =
    let rest = count_containing bands v in if contains band v then rest + 1 else rest

lt_int_irrefl : (a : ℤ) → lt_int a a ≡ false
lt_int_irrefl a = ground arith

-- A number below a maximum is below a greater one.
below-below :
    (a : ℤ) (inclusive : Bool) (high : Option ℤ) (included : Bool) (v : ℤ)
    → bounds_ordered (some a) high ≡ true
    → below (some a) inclusive v ≡ true
    → below high included v ≡ true
below-below a inclusive none included v ordered inside = refl
below-below a inclusive (some c) included v ordered inside =
    let step = lt_int-rescaled a c ordered in
    elim (int-cases v (rescaled a)) [
      | inl less ↦ let far = lt_int_trans v (rescaled a) (rescaled c) less step in rw far
      | inr (inl same) ↦
          let e = eq_int-≡ v (rescaled a) same in
          let far : lt_int v (rescaled c) ≡ true = rw e step in rw far
      | inr (inr more) ↦
          let (no_less, no_same) = lt_int_asym (rescaled a) v more in
          absurd (outside inclusive no_less (not_same v (rescaled a) more) inside)
    ]
  where
    not_same : (v m : ℤ) → lt_int m v ≡ true → eq_int v m ≡ false
    not_same v m h = ground arith

    outside :
        {p q : Bool} (inclusive : Bool) → p ≡ false → q ≡ false → (p || (inclusive && q)) ≡ true → ⊥
    outside inclusive hp hq h = ground arith

-- A number below a shared boundary is not above it.
below-above :
    (a : ℤ) (inclusive included : Bool) (v : ℤ)
    → same_flag inclusive included ≡ false
    → below (some a) inclusive v ≡ true
    → above (some a) included v ≡ false
below-above a inclusive included v flags inside = elim (int-cases v (rescaled a)) [
  | inl less ↦
      let (no_more, no_same) = lt_int_asym v (rescaled a) less in
      rw (no_more, no_same) (ground arith)
  | inr (inl same) ↦
      let e = eq_int-≡ v (rescaled a) same in
      let no_more : lt_int (rescaled a) v ≡ false = rw e (lt_int_irrefl (rescaled a)) in
      let no_less : lt_int v (rescaled a) ≡ false = rw e (lt_int_irrefl (rescaled a)) in
      ground arith
  | inr (inr more) ↦ let (no_less, no_same) = lt_int_asym (rescaled a) v more in ground arith
]

under :
    (previous next : IntervalBand) (v : ℤ)
    → adjacent previous next ≡ true
    → is_some previous.maximum ≡ true
    → valid_bounds next ≡ true
    → below previous.maximum previous.maximum_inclusive v ≡ true
    → (above next.minimum next.minimum_inclusive v ≡ false)
      × (below next.maximum next.maximum_inclusive v ≡ true)
unfolding adjacent valid_bounds
under previous next v a bounded ordered inside =
    elim (boundary previous.maximum next.minimum (ground arith)) [
      | inl (none_high, none_low) ↦ ground arith
      | inr (m, high, low) ↦
          let flags : same_flag previous.maximum_inclusive next.minimum_inclusive ≡ false =
            ground arith in
          let here : below (some m) previous.maximum_inclusive v ≡ true =
            subst (λ b. below b previous.maximum_inclusive v ≡ true) high inside in
          let order : bounds_ordered (some m) next.maximum ≡ true =
            subst (λ b. bounds_ordered b next.maximum ≡ true) low ordered in
          (
            subst (λ b. above b next.minimum_inclusive v ≡ false) (sym low)
                (below-above m previous.maximum_inclusive next.minimum_inclusive v flags here),
            below-below m previous.maximum_inclusive next.maximum next.maximum_inclusive v order
                here,
          )
    ]

none_later :
    (band : IntervalBand) (bands : List IntervalBand) (v : ℤ)
    → chained band bands ≡ true
    → inner_bounded band bands ≡ true
    → all_ordered bands ≡ true
    → below band.maximum band.maximum_inclusive v ≡ true
    → count_containing bands v ≡ 0
unfolding chained inner_bounded all_ordered count_containing contains
none_later band [] v c b o inside = refl
none_later band (next ∷ bands) v c b o inside =
    let (outside, further) =
      under band next v (ground arith) (ground arith) (ground arith) inside in
    rw outside (none_later next bands v (ground arith) (ground arith) (ground arith) further)

one_band :
    (band : IntervalBand) (bands : List IntervalBand) (v : ℤ)
    → above band.minimum band.minimum_inclusive v ≡ true
    → chained band bands ≡ true
    → inner_bounded band bands ≡ true
    → all_ordered bands ≡ true
    → count_containing (band ∷ bands) v ≡ 1
unfolding chained inner_bounded all_ordered count_containing contains
one_band band [] v low c b o = ground arith
one_band band (next ∷ bands) v low c b o =
    elim (Bool-cases (below band.maximum band.maximum_inclusive v)) [
      | inl inside ↦
          let none_else = none_later band (next ∷ bands) v c b o inside in
          rw (low, inside) (ap (λ n. n + 1) none_else)
      | inr beyond ↦
          rw (low, beyond)
            (one_band next bands v (crossing band next v (ground arith) beyond) (ground arith)
              (ground arith) (ground arith))
    ]

-- Exactly one band of a validated list contains a number, where every band but the last has a maximum
-- and each band's minimum is below its maximum.
pub one_band_contains :
    (band : IntervalBand) (bands : List IntervalBand) (v : ℤ)
    → valid_intervals (band ∷ bands) ≡ true
    → inner_bounded band bands ≡ true
    → all_ordered (band ∷ bands) ≡ true
    → count_containing (band ∷ bands) v ≡ 1
unfolding valid_intervals all_ordered
one_band_contains band bands v h b o =
    one_band band bands v (ground arith) (ground arith) b (ground arith)
