-- ===== src/Reconcile/Detectors/Precedence.antt =====
-- `detect_drift` of src/intent_engineering/reconcile/detectors.py runs the detectors by precedence.
use intent_engineer.Base.{
  String, true, Option, none, some, List, [], ◌∷◌, ◌≡◌, refl, ◌∙◌, ap, arith, eq_iff, Option-cases,
  inl, inr, All,
}
use intent_engineer.Base.Texts.{elem}
use intent_engineer.Reconcile.Cases.{DriftObservation}
use intent_engineer.Reconcile.Drift.{DetectionInput, Payload}
use intent_engineer.Reconcile.Detectors.{
  detect_conflicting_sources, detect_requirement_lag, detect_code_lag, detect_test_lag,
  detect_undocumented_code, detect_ambiguous_divergence, detectors, detect_each, sort_by_key,
  detect_drift,
}

-- The answer of the first detector that answers.
abbrev pub first_answer :
    DetectionInput → List (DetectionInput → Option DriftObservation) → Option DriftObservation
first_answer input [] = none
first_answer input (d ∷ ds) = elim (d input) [ none ↦ first_answer input ds | some o ↦ some o ]

abbrev pub listed : Option DriftObservation → List DriftObservation
listed none = []
listed (some o) = o ∷ []

-- A detector speaks of the subject of its input.
abbrev pub IsAboutSubject : DetectionInput → (DetectionInput → Option DriftObservation) → Type 0
IsAboutSubject input d =
    (o : DriftObservation) → d input ≡ some o → o.subject_ref ≡ input.subject_ref

-- Once its subject is classified, nothing is added.
detect_each_seen :
    (input : DetectionInput) (ds : List (DetectionInput → Option DriftObservation))
    (classified : List String) (found : List DriftObservation)
    → All (IsAboutSubject input) ds
    → elem input.subject_ref classified ≡ true
    → detect_each input ds classified found ≡ found
unfolding detect_each
detect_each_seen input [] classified found about seen = refl
detect_each_seen input (d ∷ ds) classified found about seen = elim (Option-cases (d input)) [
  | inl silent ↦ ground (arith, silent, detect_each_seen input ds classified found about.1 seen)
  | inr (o, said) ↦ ground (
    arith,
    said,
    ap (λ k. elem k classified) (about.0 o said),
    detect_each_seen input ds classified found about.1 seen,
  )
]

detect_each-eq :
    (input : DetectionInput) (ds : List (DetectionInput → Option DriftObservation))
    → All (IsAboutSubject input) ds
    → detect_each input ds [] [] ≡ listed (first_answer input ds)
unfolding detect_each
detect_each-eq input [] about = refl
detect_each-eq input (d ∷ ds) about = elim (Option-cases (d input)) [
  | inl silent ↦ ground (arith, silent, detect_each-eq input ds about.1)
  | inr (o, said) ↦ ground (
    arith,
    said,
    detect_each_seen input ds (o.subject_ref ∷ []) (o ∷ []) about.1
        (ground (arith, about.0 o said, eq_iff o.subject_ref input.subject_ref)),
  )
]

sort_by_key-listed : (o : Option DriftObservation) → sort_by_key (listed o) ≡ listed o
unfolding sort_by_key
sort_by_key-listed none = refl
sort_by_key-listed (some o) = refl

module _ (digest : Payload → String) (input : DetectionInput) where
  detectors-IsAboutSubject : All (IsAboutSubject input) (detectors digest)
  unfolding detect_conflicting_sources detect_requirement_lag detect_code_lag detect_test_lag
      detect_undocumented_code detect_ambiguous_divergence
  detectors-IsAboutSubject = (
    λ o h. ground (arith, h),
    (
      λ o h. ground (arith, h),
      (
        λ o h. ground (arith, h),
        (λ o h. ground (arith, h), (λ o h. ground (arith, h), (λ o h. ground (arith, h), tt))),
      ),
    ),
  )

  -- `detect_drift` reports the observation of the first detector that fires, in the order
  -- conflicting sources, requirement lag, code lag, test lag, undocumented code, ambiguous
  -- divergence, and nothing else.
  pub detect_drift-eq : detect_drift digest input ≡ listed (first_answer input (detectors digest))
  unfolding detect_drift
  detect_drift-eq =
      ap sort_by_key (detect_each-eq input (detectors digest) detectors-IsAboutSubject)
      ∙ sort_by_key-listed (first_answer input (detectors digest))
