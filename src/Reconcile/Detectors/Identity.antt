-- ===== src/Reconcile/Detectors/Identity.antt =====
-- What the observations of src/intent_engineering/reconcile/detectors.py depend on.
use intent_engineer.Base.{
  String, Option, none, some, List, [], ◌∷◌, ◌≡◌, refl, sym, ◌∙◌, ap, arith, if◌then◌else◌,
}
use intent_engineer.Base.Texts.{elem}
use intent_engineer.Base.Sorted.{sorted_set_ext}
use intent_engineer.Core.Vocabulary.{
  ReconciliationCaseType, code_lag, requirement_lag, test_lag, undocumented_code,
  conflicting_sources, ambiguous_divergence,
}
use intent_engineer.Reconcile.Cases.{EvidenceSide}
use intent_engineer.Reconcile.Drift.{DetectionInput, Payload, observation}
use intent_engineer.Reconcile.Detectors.{
  candidates, wrap, requirement_lag_of, code_lag_of, test_lag_of, requirement_lags, code_lags,
  test_lags, detect_conflicting_sources, detect_requirement_lag, detect_code_lag, detect_test_lag,
  detect_undocumented_code, detect_ambiguous_divergence, detectors, detect_drift,
}
use intent_engineer.Reconcile.Detectors.Precedence.{first_answer, listed, detect_drift-eq}

abbrev pub with_refs : DetectionInput → List String → DetectionInput
with_refs input refs = record input { affected_refs = refs }

module _ (digest : Payload → String) (input : DetectionInput) (refs refs' : List String)
    (same : (k : String) → elem k refs ≡ elem k refs') where
  observation-with_refs :
      (t : ReconciliationCaseType) (detector_id : String) (sides : List (Option EvidenceSide))
      → observation digest (with_refs input refs) t detector_id sides
        ≡ observation digest (with_refs input refs') t detector_id sides
  unfolding observation
  observation-with_refs t detector_id sides = rw (sorted_set_ext refs refs' same)

  requirement_lag-with_refs :
      (r i t d : Option EvidenceSide)
      → requirement_lag_of digest (with_refs input refs) r i t d
        ≡ requirement_lag_of digest (with_refs input refs') r i t d
  unfolding requirement_lags
  requirement_lag-with_refs (some r) (some i) (some t) (some d) =
      ap (λ o. if requirement_lags input r i t d then some o else none)
        (observation-with_refs requirement_lag "requirement_lag"
          (some r ∷ some d ∷ some i ∷ some t ∷ []))
  requirement_lag-with_refs _ _ _ _ = refl

  code_lag-with_refs :
      (r i : Option EvidenceSide)
      → code_lag_of digest (with_refs input refs) r i
        ≡ code_lag_of digest (with_refs input refs') r i
  unfolding code_lags
  code_lag-with_refs (some r) (some i) =
      ap (λ o. if code_lags input r i then some o else none)
        (observation-with_refs code_lag "code_lag" (some r ∷ some i ∷ input.test ∷ []))
  code_lag-with_refs _ _ = refl

  test_lag-with_refs :
      (r i t : Option EvidenceSide)
      → test_lag_of digest (with_refs input refs) r i t
        ≡ test_lag_of digest (with_refs input refs') r i t
  unfolding test_lags
  test_lag-with_refs (some r) (some i) (some t) =
      ap (λ o. if test_lags input r i t then some o else none)
        (observation-with_refs test_lag "test_lag" (some r ∷ some i ∷ some t ∷ []))
  test_lag-with_refs _ _ _ = refl

  conflict-with_refs :
      detect_conflicting_sources digest (with_refs input refs)
      ≡ detect_conflicting_sources digest (with_refs input refs')
  unfolding detect_conflicting_sources
  conflict-with_refs =
      simp
        (observation-with_refs conflicting_sources "conflicting_sources" (wrap (candidates input)))

  undocumented-with_refs :
      detect_undocumented_code digest (with_refs input refs)
      ≡ detect_undocumented_code digest (with_refs input refs')
  unfolding detect_undocumented_code
  undocumented-with_refs =
      simp (observation-with_refs undocumented_code "undocumented_code" (input.implementation ∷ []))

  ambiguous-with_refs :
      detect_ambiguous_divergence digest (with_refs input refs)
      ≡ detect_ambiguous_divergence digest (with_refs input refs')
  unfolding detect_ambiguous_divergence
  ambiguous-with_refs = simp (
      observation-with_refs ambiguous_divergence "ambiguous_divergence"
        (input.requirement ∷ input.decision ∷ input.implementation ∷ input.test ∷ []))

  answers :
      first_answer (with_refs input refs) (detectors digest)
      ≡ first_answer (with_refs input refs') (detectors digest)
  unfolding detect_requirement_lag detect_code_lag detect_test_lag
  answers = ground (
    arith,
    conflict-with_refs,
    undocumented-with_refs,
    ambiguous-with_refs,
    requirement_lag-with_refs input.requirement input.implementation input.test input.decision,
    code_lag-with_refs input.requirement input.implementation,
    test_lag-with_refs input.requirement input.implementation input.test,
  )

  -- The observations, their fingerprints included, depend on the affected references only as a set:
  -- neither their order nor a repetition makes another drift of the same one.
  pub detect_drift-same_refs :
      detect_drift digest (with_refs input refs) ≡ detect_drift digest (with_refs input refs')
  detect_drift-same_refs =
      detect_drift-eq digest (with_refs input refs)
      ∙ (ap listed answers ∙ sym (detect_drift-eq digest (with_refs input refs')))
