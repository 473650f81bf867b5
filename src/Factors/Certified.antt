-- ===== src/Factors/Certified.antt =====
-- What the completion gate of verification.py certifies.
use newtaipei_appraisal_revi.Prelude.{
  ℕ, String, ◌≡◌, ◌↔◌, refl, sym, ap, subst, ◌∙◌, Bool, true, false, not, ◌&&◌, none, some, [],
  is_empty, All, List, ltb, if◌then◌else◌, ◌==◌, string_eq, option_eq, arith, distinct,
  same_list_refl, beq_refl,
}
use newtaipei_appraisal_revi.Faults.{Result, ok, err, ◌>>=◌, value_error}
use newtaipei_appraisal_revi.Factors.{
  verified, failed, FactorRuleSet, FactorEvaluationRequest, FactorReviewResult,
}
use newtaipei_appraisal_revi.Factors.Engine.{Side, FactorRuleEngine, new_engine, evaluate}
use newtaipei_appraisal_revi.Factors.Verifier.{
  int_eq, evaluation_eq, factor_result_eq, duplicate_results, identity_mismatch, VerificationReport,
  Explained, Checks, join, fails_if, ids_of, missing, same_review, compared, reported,
  valid_rule_set, valid_request, recomputed, checks, verify,
}
use newtaipei_appraisal_revi.Factors.Clean.{
  Covers, clean, clean-join, reported-clean, clean-fails_if, missing-covered, covered-missing,
  same_list-equal, not_involutive, clean-resolved, both,
}

-- A claim without what it says of its context, case version and sources: the engine computes none of
-- these, and the gate leaves them to the case gate.
abbrev pub unbound : Explained → Explained
unbound e = record e {
  result = record e.result { context = none; case_version = none; source_hashes = [] };
}

module _ (folded : String → String)
    (explained : FactorRuleEngine → FactorEvaluationRequest → List String) (one : ℕ)
    (claim : Explained) (rule_set : FactorRuleSet) (minimum_confidence : ℕ)
    (confirmed_sides : List (String × Side)) where
  abbrev pub Recomputes : FactorEvaluationRequest → Result Explained
  Recomputes facts =
      recomputed folded explained one rule_set facts minimum_confidence confirmed_sides

  -- The claim, its bindings apart, is what the engine computes from the facts; it is verified, its
  -- factors are distinct, and each critical rule has a result.
  pub record IsCertified (facts : FactorEvaluationRequest) : Type 0 where
    pub computed :
        recomputed folded explained one rule_set facts minimum_confidence confirmed_sides
        ≡ ok (unbound claim)
    pub settled : claim.result.status ≡ verified
    pub separate : distinct (ids_of claim.result.results) ≡ true
    pub covered : All (Covers (ids_of claim.result.results)) rule_set.rules

  -- What a recomputation is bound to.
  abbrev IfBound : Result Explained → Type 0
  IfBound (err e) = Unit
  IfBound (ok x) =
      (x.result.rule_set_id ≡ rule_set.rule_set_id)
      × (x.result.rule_version ≡ rule_set.version)
      × (unbound x ≡ x)

  if-IfBound :
      (test : Bool) (x y : Result Explained)
      → IfBound x
      → IfBound y
      → IfBound (if test then x else y)
  if-IfBound true x y hx hy = hx
  if-IfBound false x y hx hy = hy

  bind-IfBound :
      {A : Type 0} (r : Result A) (rest : A → Result Explained)
      → ((a : A) → r ≡ ok a → IfBound (rest a))
      → IfBound (r >>= rest)
  bind-IfBound (err e) rest h = tt
  bind-IfBound (ok a) rest h = h a refl

  new_engine-rule_set :
      {engine : FactorRuleEngine}
      → new_engine one rule_set minimum_confidence confirmed_sides ≡ ok engine
      → engine.rule_set ≡ rule_set
  unfolding new_engine
  new_engine-rule_set h = ground arith

  evaluate-bound :
      (engine : FactorRuleEngine) (facts : FactorEvaluationRequest) {r : FactorReviewResult}
      → evaluate folded engine facts ≡ ok r
      → (r.rule_set_id ≡ engine.rule_set.rule_set_id)
        × (r.rule_version ≡ engine.rule_set.version)
        × (record r { context = none; case_version = none; source_hashes = [] } ≡ r)
  unfolding evaluate
  evaluate-bound engine facts h = (ground arith, ground arith, ground arith)

  recomputed-IfBound :
      (facts : FactorEvaluationRequest)
      → IfBound (recomputed folded explained one rule_set facts minimum_confidence confirmed_sides)
  unfolding recomputed
  recomputed-IfBound facts =
      if-IfBound
        (not (
          valid_rule_set folded explained one rule_set
          && valid_request folded explained one facts.factors))
        _ _ tt
        (bind-IfBound (new_engine one rule_set minimum_confidence confirmed_sides) _ (λ engine made.
          bind-IfBound (evaluate folded engine facts) _ (λ r done.
            let own = new_engine-rule_set made in
            let (ids, versions, plain) = evaluate-bound engine facts done in
            (
              rw (ids, own) refl,
              rw (versions, own) refl,
              ap (λ q. record { result = q; texts = explained engine facts }) plain,
            ))))

  same_review-equal :
      (a b : Explained)
      → same_review a b ≡ true
      → a.result.rule_set_id ≡ b.result.rule_set_id
      → a.result.rule_version ≡ b.result.rule_version
      → unbound a ≡ unbound b
  same_review-equal a b h ids versions =
      let texts : a.texts ≡ b.texts = same_list-equal a.texts b.texts (ground arith) in
      let results : a.result.results ≡ b.result.results =
        same_list-equal a.result.results b.result.results (ground arith) in
      let case_ids : a.result.case_id ≡ b.result.case_id =
        (string_eq.beq_iff a.result.case_id b.result.case_id).0 (ground arith) in
      let totals : a.result.total_adjustment_percent ≡ b.result.total_adjustment_percent =
        (option_eq.beq_iff a.result.total_adjustment_percent b.result.total_adjustment_percent).0
          (ground arith) in
      let statuses : a.result.status ≡ b.result.status =
        (evaluation_eq.beq_iff a.result.status b.result.status).0 (ground arith) in
      cc

  same_review_refl : (a : Explained) → same_review a a ≡ true
  same_review_refl a =
      rw
        (
          beq_refl a.result.case_id,
          same_list_refl a.result.results,
          same_list_refl a.texts,
          beq_refl a.result.total_adjustment_percent,
          beq_refl a.result.status,
        )
        refl

  -- The recheck is clean where the claim is the verified result that was computed.
  abbrev Matches : Result Explained → Type 0
  Matches r = (r ≡ ok (unbound claim)) × (claim.result.status ≡ verified)

  abbrev named : Bool
  named =
      claim.result.rule_set_id == rule_set.rule_set_id
      && claim.result.rule_version == rule_set.version

  compared-Matches :
      (r : Result Explained)
      → IfBound r
      → clean (compared claim r) ≡ true
      → named ≡ true
      → Matches r
  compared-Matches (err e) bound h own = absurd (cc h)
  compared-Matches (ok x) (ids, versions, plain) h own =
      let (same, settled) = both (same_review claim x) (x.result.status == verified) (
        sym (
          clean-resolved (same_review claim x) (x.result.status == verified)
            (x.result.status == failed))
        ∙ h) in
      let (own_id, own_version) =
        both (claim.result.rule_set_id == rule_set.rule_set_id)
          (claim.result.rule_version == rule_set.version) own in
      let id : claim.result.rule_set_id ≡ rule_set.rule_set_id =
        (string_eq.beq_iff claim.result.rule_set_id rule_set.rule_set_id).0 own_id in
      let version : claim.result.rule_version ≡ rule_set.version =
        (string_eq.beq_iff claim.result.rule_version rule_set.version).0 own_version in
      let status : x.result.status ≡ verified =
        (evaluation_eq.beq_iff x.result.status verified).0 settled in
      let equal : unbound claim ≡ x =
        same_review-equal claim x same (id ∙ sym ids) (version ∙ sym versions) ∙ plain in
      (ap ok (sym equal), ap (λ (e : Explained). e.result.status) equal ∙ status)

  Matches-compared :
      (r : Result Explained)
      → IfBound r
      → Matches r
      → (clean (compared claim r) ≡ true) × (named ≡ true)
  Matches-compared (err e) bound (h, settled) = absurd (cc h)
  Matches-compared (ok x) (ids, versions, plain) (h, settled) =
      let equal : x ≡ unbound claim = cc h in
      let same : same_review claim x ≡ true =
        subst (λ e. same_review claim e ≡ true) (sym equal) (same_review_refl claim) in
      let status : x.result.status ≡ verified =
        ap (λ (e : Explained). e.result.status) equal ∙ settled in
      let good : (x.result.status == verified) ≡ true = rw status refl in
      let id : claim.result.rule_set_id ≡ rule_set.rule_set_id =
        ap (λ (e : Explained). e.result.rule_set_id) (sym equal) ∙ ids in
      let version : claim.result.rule_version ≡ rule_set.version =
        ap (λ (e : Explained). e.result.rule_version) (sym equal) ∙ versions in
      (
        clean-resolved (same_review claim x) (x.result.status == verified)
              (x.result.status == failed)
            ∙ rw (same, good) refl,
        rw (id, version, beq_refl rule_set.rule_set_id, beq_refl rule_set.version) refl,
      )

  -- The whole gate, as one test.
  abbrev gate : FactorEvaluationRequest → Bool
  gate facts =
      (is_empty (missing rule_set.rules (ids_of claim.result.results)) && true)
      && (not (not (distinct (ids_of claim.result.results)))
          && (not (not named)
              && clean (
                  compared claim (
                    recomputed folded explained one rule_set facts minimum_confidence
                      confirmed_sides))))

  checks-gate :
      (facts : FactorEvaluationRequest)
      → clean (
          checks folded explained one claim rule_set
            (some facts)
            minimum_confidence
            confirmed_sides)
        ≡ gate facts
  checks-gate facts =
      let covers : Checks = record {
        errors = missing rule_set.rules (ids_of claim.result.results);
        failed = false;
      } in
      let repeats : Bool = not (distinct (ids_of claim.result.results)) in
      let last =
        compared claim
          (recomputed folded explained one rule_set facts minimum_confidence confirmed_sides) in
      let second = fails_if repeats duplicate_results in
      let third = fails_if (not named) identity_mismatch in
      clean-join covers (join second (join third last))
      ∙ ap (λ t. clean covers && t)
          (clean-join second (join third last)
            ∙ ap (λ t. clean second && t) (clean-join third last)
            ∙ ap (λ t. t && (clean third && clean last)) (clean-fails_if repeats duplicate_results)
            ∙ ap (λ t. not repeats && (t && clean last))
                (clean-fails_if (not named) identity_mismatch))

  gate-IsCertified : (facts : FactorEvaluationRequest) → gate facts ≡ true → IsCertified facts
  gate-IsCertified facts h =
      let (first, rest) =
        both (is_empty (missing rule_set.rules (ids_of claim.result.results)) && true) _ h in
      let (second, rest') = both (not (not (distinct (ids_of claim.result.results)))) _ rest in
      let (third, last) = both (not (not named)) _ rest' in
      let (computed, settled) =
        compared-Matches
          (recomputed folded explained one rule_set facts minimum_confidence confirmed_sides)
          (recomputed-IfBound facts) last (sym (not_involutive named) ∙ third) in
      record {
        computed = computed;
        settled = settled;
        separate = sym (not_involutive (distinct (ids_of claim.result.results))) ∙ second;
        covered =
            missing-covered rule_set.rules (ids_of claim.result.results)
              (both (is_empty (missing rule_set.rules (ids_of claim.result.results))) true first).0;
      }

  IsCertified-gate : (facts : FactorEvaluationRequest) → IsCertified facts → gate facts ≡ true
  IsCertified-gate facts c =
      let (last, own) =
        Matches-compared
          (recomputed folded explained one rule_set facts minimum_confidence confirmed_sides)
          (recomputed-IfBound facts) (c.computed, c.settled) in
      rw
        (
          covered-missing rule_set.rules (ids_of claim.result.results) c.covered,
          c.separate,
          own,
          last,
        )
        refl

  -- The gate, given facts and a usable minimum of confidence, reports a claim as verified exactly
  -- where the claim, apart from the context, the case version and the source hashes it names, is the
  -- verified result that the engine computes from the validated facts and rules, its factors are
  -- distinct, and each critical rule has a result.
  pub verify-IsCertified :
      (facts : FactorEvaluationRequest) {report : VerificationReport}
      → verify folded explained one claim rule_set (some facts) minimum_confidence confirmed_sides
        ≡ ok report
      → (report.status ≡ verified) ↔ IsCertified facts
  unfolding verify
  verify-IsCertified facts {report} h =
      let all =
        checks folded explained one claim rule_set (some facts) minimum_confidence
          confirmed_sides in
      let made : reported all ≡ report = made_of (ltb one minimum_confidence) (reported all) h in
      (
        λ s. gate-IsCertified facts (
            sym (checks-gate facts)
            ∙ (reported-clean all).0 (ap (λ (r : VerificationReport). r.status) made ∙ s)),
        λ c.
            ap (λ (r : VerificationReport). r.status) (sym made)
            ∙ (reported-clean all).1 (checks-gate facts ∙ IsCertified-gate facts c),
      )
    where
      made_of :
          (test : Bool) (x : VerificationReport)
          → (if test then err value_error else ok x) ≡ ok report
          → x ≡ report
      made_of true x e = absurd (cc e)
      made_of false x e = cc e
