-- ===== src/Factors/Clean.antt =====
-- When the checks of verification.py find nothing, part by part.
use newtaipei_appraisal_revi.Prelude.{
  String, ◌≡◌, ◌↔◌, refl, Bool, true, false, not, ◌&&◌, ◌||◌, is_empty, All, List, [], ◌∷◌, ◌++◌,
  if◌then◌else◌, string_eq, option_eq, Eq, arith, is_in, same_list,
}
use newtaipei_appraisal_revi.Factors.{verified, FactorRule}
use newtaipei_appraisal_revi.Factors.Verifier.{
  int_eq, evaluation_eq, factor_result_eq, Problem, differs, unresolved, Checks, join, fails_if,
  missing, reported,
}

-- Each critical rule has a result.
abbrev pub Covers : List String → FactorRule → Type 0
Covers ids rule = rule.critical ≡ true → is_in rule.factor_id ids ≡ true

abbrev pub clean : Checks → Bool
clean c = is_empty c.errors && not c.failed

pub clean-join : (a b : Checks) → clean (join a b) ≡ (clean a && clean b)
clean-join a b = cleaned a.errors
  where
    cleaned :
        (errors : List Problem)
        → (is_empty (errors ++ b.errors) && not (a.failed || b.failed))
          ≡ ((is_empty errors && not a.failed) && clean b)
    cleaned [] = ground arith
    cleaned (e ∷ es) = refl

pub reported-clean : (c : Checks) → ((reported c).status ≡ verified) ↔ (clean c ≡ true)
reported-clean c = ground arith

pub clean-fails_if : (test : Bool) (problem : Problem) → clean (fails_if test problem) ≡ not test
clean-fails_if true problem = refl
clean-fails_if false problem = refl

pub missing-covered :
    (rules : List FactorRule) (ids : List String)
    → is_empty (missing rules ids) ≡ true
    → All (Covers ids) rules
unfolding missing
missing-covered [] ids h = tt
missing-covered (rule ∷ rules) ids h =
    (λ critical. ground arith, missing-covered rules ids (ground arith))

pub covered-missing :
    (rules : List FactorRule) (ids : List String)
    → All (Covers ids) rules
    → is_empty (missing rules ids) ≡ true
unfolding missing
covered-missing [] ids h = refl
covered-missing (rule ∷ rules) ids (first, rest) =
    let empty = covered-missing rules ids rest in ground arith

pub same_list-equal : {A : Type 0} ⦃e : Eq A⦄ (xs ys : List A) → same_list xs ys ≡ true → xs ≡ ys
same_list-equal [] [] h = refl
same_list-equal [] (y ∷ ys) h = absurd (cc h)
same_list-equal (x ∷ xs) [] h = absurd (cc h)
same_list-equal ⦃e⦄ (x ∷ xs) (y ∷ ys) h =
    let first : x ≡ y = (e.beq_iff x y).0 (ground arith) in
    let rest : xs ≡ ys = same_list-equal xs ys (ground arith) in cc

pub not_involutive : (b : Bool) → not (not b) ≡ b
not_involutive true = refl
not_involutive false = refl

pub clean-resolved :
    (same good failing : Bool)
    → clean (
        join (fails_if (not same) differs) (
          if not good
          then record { errors = unresolved ∷ []; failed = failing }
          else record { errors = []; failed = false }))
      ≡ (same && good)
clean-resolved true true failing = refl
clean-resolved true false failing = refl
clean-resolved false true failing = refl
clean-resolved false false failing = refl

pub both : (a b : Bool) → (a && b) ≡ true → (a ≡ true) × (b ≡ true)
both a b h = (ground arith, ground arith)
