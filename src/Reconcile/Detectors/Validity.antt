-- ===== src/Reconcile/Detectors/Validity.antt =====
-- Every observation of src/intent_engineering/reconcile/detectors.py passes its model's validators.
use intent_engineer.Base.{
  String, Bool, true, false, not, ◌||◌, Option, none, some, List, [], ◌∷◌, ◌≡◌, refl, sym, subst,
  is_none, Option-cases, inl, inr, ap, arith, if◌then◌else◌, ltb, length, is_empty, keep_if, All,
  ok,
}
use intent_engineer.Base.Text.{is_hex_text}
use intent_engineer.Core.Vocabulary.{
  ReconciliationCaseType, conflicting_sources, requirement_lag, code_lag, test_lag,
  undocumented_code, ambiguous_divergence,
}
use intent_engineer.Reconcile.Cases.{
  DriftObservation, EvidenceSide, validate_side, validate_sides, validate_observation,
}
use intent_engineer.Reconcile.Drift.{DetectionInput, Payload, observation, present, is_unclear}
use intent_engineer.Reconcile.Detectors.{
  candidates, wrap, requirement_lag_of, code_lag_of, test_lag_of, requirement_lags, code_lags,
  test_lags, detect_conflicting_sources, detect_requirement_lag, detect_code_lag, detect_test_lag,
  detect_undocumented_code, detect_ambiguous_divergence, detectors, detect_drift,
}
use intent_engineer.Reconcile.Detectors.Precedence.{first_answer, listed, detect_drift-eq}

-- The sides of an input that are there, in the order of the source.
abbrev pub sides_of : DetectionInput → List EvidenceSide
sides_of input =
    present (input.requirement ∷ input.decision ∷ input.implementation ∷ input.test ∷ [])

abbrev pub AreValid : List EvidenceSide → Type 0
AreValid = All (λ s. validate_side s ≡ ok tt)

-- An optional side is valid where it is there.
abbrev OptionalValid : Option EvidenceSide → Type 0
OptionalValid none = Unit
OptionalValid (some s) = validate_side s ≡ ok tt

optional_of_present :
    (os : List (Option EvidenceSide)) → AreValid (present os) → All OptionalValid os
optional_of_present [] v = tt
optional_of_present (none ∷ os) v = (tt, optional_of_present os v)
optional_of_present (some s ∷ os) v = (v.0, optional_of_present os v.1)

present_of_optional :
    (os : List (Option EvidenceSide)) → All OptionalValid os → AreValid (present os)
present_of_optional [] v = tt
present_of_optional (none ∷ os) v = present_of_optional os v.1
present_of_optional (some s ∷ os) v = (v.0, present_of_optional os v.1)

validate_sides_lem : (ss : List EvidenceSide) → AreValid ss → validate_sides ss ≡ ok tt
unfolding validate_sides
validate_sides_lem [] v = refl
validate_sides_lem (s ∷ ss) v = rw v.0 (validate_sides_lem ss v.1)

side_backed : (s : EvidenceSide) → validate_side s ≡ ok tt → is_empty s.evidence_refs ≡ false
unfolding validate_side
side_backed s v = ground arith

module _ (digest : Payload → String) (hex : (p : Payload) → is_hex_text 64 (digest p) ≡ true) where
  observation_valid :
      (input : DetectionInput) (t : ReconciliationCaseType) (detector_id : String)
      (sides : List (Option EvidenceSide)) (ss : List EvidenceSide)
      → present sides ≡ ss
      → is_empty ss ≡ false
      → AreValid ss
      → validate_observation (observation digest input t detector_id sides) ≡ ok tt
  unfolding validate_observation observation
  observation_valid input t detector_id sides [] e some_side v = cc
  observation_valid input t detector_id sides (s ∷ ss) e some_side v =
      simp (e, hex) (rw (validate_sides_lem (s ∷ ss) v, side_backed s v.0))

  keep_if-AreValid :
      (test : EvidenceSide → Bool) (ss : List EvidenceSide)
      → AreValid ss
      → AreValid (keep_if test ss)
  keep_if-AreValid test [] v = tt
  keep_if-AreValid test (s ∷ ss) v = ground (arith, keep_if-AreValid test ss v.1)

  present-wrap : (ss : List EvidenceSide) → present (wrap ss) ≡ ss
  present-wrap [] = refl
  present-wrap (s ∷ ss) = ap (◌∷◌ s) (present-wrap ss)

  -- An answer of a detector passes the validators of its model.
  abbrev Valid : Option DriftObservation → Type 0
  Valid none = Unit
  Valid (some o) = validate_observation o ≡ ok tt

  Valid-if :
      (b : Bool) (o : DriftObservation)
      → (b ≡ false → validate_observation o ≡ ok tt)
      → Valid (if b then none else some o)
  Valid-if true o h = tt
  Valid-if false o h = h refl

  first_answer-Valid :
      (input : DetectionInput) (ds : List (DetectionInput → Option DriftObservation))
      → All (λ d. Valid (d input)) ds
      → Valid (first_answer input ds)
  first_answer-Valid input [] vs = tt
  first_answer-Valid input (d ∷ ds) vs = elim (Option-cases (d input)) [
    | inl silent ↦ rw silent (first_answer-Valid input ds vs.1)
    | inr (o, said) ↦ rw said (subst Valid said vs.0)
  ]

  All-listed :
      (o : Option DriftObservation) → Valid o → All (λ x. validate_observation x ≡ ok tt) (listed o)
  All-listed none v = tt
  All-listed (some o) v = (v, tt)

  two_sides :
      (b c : Bool) (ss : List EvidenceSide)
      → (b || ltb (length ss) 2 || c) ≡ false
      → is_empty ss ≡ false
  two_sides b c [] h = ground arith
  two_sides b c (s ∷ ss) h = refl

  Valid-when :
      (b : Bool) (o : DriftObservation)
      → validate_observation o ≡ ok tt
      → Valid (if b then some o else none)
  Valid-when true o h = h
  Valid-when false o h = tt

  requirement_lag-Valid :
      (input : DetectionInput) (r i t d : Option EvidenceSide)
      → AreValid (present (r ∷ d ∷ i ∷ t ∷ []))
      → Valid (requirement_lag_of digest input r i t d)
  unfolding requirement_lags
  requirement_lag-Valid input (some r) (some i) (some t) (some d) v =
      Valid-when (requirement_lags input r i t d) _ (
        observation_valid input requirement_lag "requirement_lag"
          (some r ∷ some d ∷ some i ∷ some t ∷ []) (r ∷ d ∷ i ∷ t ∷ []) refl refl v)
  requirement_lag-Valid input _ _ _ _ v = tt

  code_lag-Valid :
      (input : DetectionInput) (r i : Option EvidenceSide)
      → OptionalValid r
      → OptionalValid i
      → OptionalValid input.test
      → Valid (code_lag_of digest input r i)
  unfolding code_lags
  code_lag-Valid input (some r) (some i) vr vi vt = Valid-when (code_lags input r i) _ (
      observation_valid input code_lag "code_lag" (some r ∷ some i ∷ input.test ∷ [])
        (r ∷ i ∷ present (input.test ∷ [])) refl refl
        (vr, (vi, present_of_optional (input.test ∷ []) (vt, tt))))
  code_lag-Valid input _ _ vr vi vt = tt

  test_lag-Valid :
      (input : DetectionInput) (r i t : Option EvidenceSide)
      → OptionalValid r
      → OptionalValid i
      → OptionalValid t
      → Valid (test_lag_of digest input r i t)
  unfolding test_lags
  test_lag-Valid input (some r) (some i) (some t) vr vi vt = Valid-when (test_lags input r i t) _ (
      observation_valid input test_lag "test_lag" (some r ∷ some i ∷ some t ∷ []) (r ∷ i ∷ t ∷ [])
        refl refl (vr, (vi, (vt, tt))))
  test_lag-Valid input _ _ _ vr vi vt = tt

  undocumented-Valid :
      (input : DetectionInput) (i : Option EvidenceSide) (b : Bool)
      → OptionalValid i
      → Valid (
          if is_none i || b || input.has_mapped_semantics
          then none
          else some (observation digest input undocumented_code "undocumented_code" (i ∷ [])))
  undocumented-Valid input none b vi = tt
  undocumented-Valid input (some i) b vi = Valid-if (b || input.has_mapped_semantics) _ (λ h.
      observation_valid input undocumented_code "undocumented_code" (some i ∷ []) (i ∷ []) refl refl
        (vi, tt))

  module _ (input : DetectionInput) (v : AreValid (sides_of input)) where
    conflict-Valid : Valid (detect_conflicting_sources digest input)
    unfolding detect_conflicting_sources
    conflict-Valid = Valid-if _ _ (λ enough.
        observation_valid input conflicting_sources "conflicting_sources" (wrap (candidates input))
          (candidates input) (present-wrap (candidates input))
          (two_sides _ _ (candidates input) enough) (keep_if-AreValid _ (sides_of input) v))

    ambiguous-Valid : Valid (detect_ambiguous_divergence digest input)
    unfolding detect_ambiguous_divergence
    ambiguous-Valid = Valid-if _ _ (λ enough.
        observation_valid input ambiguous_divergence "ambiguous_divergence"
          (input.requirement ∷ input.decision ∷ input.implementation ∷ input.test ∷ [])
          (sides_of input) refl
          (two_sides (not (is_unclear input.compatibility)) false (sides_of input)
            (ground (arith, enough)))
          v)

    answer-Valid : Valid (first_answer input (detectors digest))
    unfolding detect_requirement_lag detect_code_lag detect_test_lag detect_undocumented_code
    answer-Valid =
        let (vr, (vd, (vi, (vt, _)))) =
          optional_of_present
            (input.requirement ∷ input.decision ∷ input.implementation ∷ input.test ∷ []) v in
        first_answer-Valid input (detectors digest) (
          conflict-Valid,
          (
            requirement_lag-Valid input input.requirement input.implementation input.test
                input.decision v,
            (
              code_lag-Valid input input.requirement input.implementation vr vi vt,
              (
                test_lag-Valid input input.requirement input.implementation input.test vr vi vt,
                (
                  undocumented-Valid input input.implementation (not input.material_code_change) vi,
                  (ambiguous-Valid, tt),
                ),
              ),
            ),
          ),
        )

  -- If the digest is written as 64 hexadecimal digits and the sides of the input are valid, every
  -- observation that `detect_drift` reports passes the validators of `DriftObservation`, so that no
  -- detector raises.
  pub detect_drift-validates :
      (input : DetectionInput)
      → AreValid (sides_of input)
      → All (λ o. validate_observation o ≡ ok tt) (detect_drift digest input)
  detect_drift-validates input v =
      subst (All (λ o. validate_observation o ≡ ok tt)) (sym (detect_drift-eq digest input))
        (All-listed (first_answer input (detectors digest)) (answer-Valid input v))
