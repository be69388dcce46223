-- ===== src/Reconcile/Detectors.antt =====
-- The detectors of drift and `detect_drift`: src/intent_engineering/reconcile/detectors.py.
pub mod Precedence
pub mod Identity
pub mod Chronology
pub mod Validity
use intent_engineer.Base.{
  ℕ, String, Bool, true, false, not, ◌&&◌, ◌||◌, Option, none, some, List, [], ◌∷◌, ◌++◌, ◌==◌, ltb,
  leb, if◌then◌else◌, is_none, is_some, all, keep_if, length,
}
use intent_engineer.Base.Text.{text_le}
use intent_engineer.Base.Texts.{elem, dedup}
use intent_engineer.Base.Sorted.{sort, sorted_set}
use intent_engineer.Core.Vocabulary.{
  explicit, same_mode, ReconciliationCaseType, code_lag, requirement_lag, test_lag,
  undocumented_code, conflicting_sources, ambiguous_divergence, case_type_value,
}
use intent_engineer.Reconcile.Cases.{EvidenceSide, DriftObservation}
use intent_engineer.Reconcile.Drift.{
  DetectionInput, order, is_after, is_aligned, is_contradiction, is_unclear, all_current, present,
  side_authors, Payload, observation,
}

abbrev pub candidates : DetectionInput → List EvidenceSide
candidates input =
    keep_if (λ s. s.current && same_mode s.source_mode explicit)
      (present (input.requirement ∷ input.decision ∷ input.implementation ∷ input.test ∷ []))

abbrev pub wrap : List EvidenceSide → List (Option EvidenceSide)
wrap [] = []
wrap (s ∷ ss) = some s ∷ wrap ss

-- The tests of `detect_requirement_lag` on sides that are there.
unfoldable pub requirement_lags :
    DetectionInput → EvidenceSide → EvidenceSide → EvidenceSide → EvidenceSide → Bool
unfolding order
requirement_lags input r i t d =
    is_aligned input.compatibility
    && same_mode d.source_mode explicit
    && all_current (r ∷ d ∷ i ∷ t ∷ [])
    && is_after (order input.decision_requirement_order d r)
    && is_after (order input.implementation_decision_order i d)
    && is_after (order input.test_decision_order t d)

-- The tests of `detect_code_lag` on sides that are there.
unfoldable pub code_lags : DetectionInput → EvidenceSide → EvidenceSide → Bool
unfolding order
code_lags input r i =
    input.requirement_active
    && all_current (r ∷ i ∷ [])
    && is_after (order input.requirement_implementation_order r i)

-- The tests of `detect_test_lag` on sides that are there.
unfoldable pub test_lags : DetectionInput → EvidenceSide → EvidenceSide → EvidenceSide → Bool
unfolding order
test_lags input r i t =
    input.requirement_active
    && all_current (r ∷ i ∷ t ∷ [])
    && is_after (order input.implementation_test_order i t)

module _ (digest : Payload → String) where
  unfoldable pub detect_conflicting_sources : DetectionInput → Option DriftObservation
  unfolding observation dedup
  detect_conflicting_sources input =
      if not (is_contradiction input.compatibility)
        || ltb (length (candidates input)) 2
        || ltb (length (dedup (side_authors (candidates input)))) 2
      then none
      else some (
          observation digest input conflicting_sources "conflicting_sources"
            (wrap (candidates input)))

  abbrev requirement_lag_of :
      DetectionInput
      → Option EvidenceSide
      → Option EvidenceSide
      → Option EvidenceSide
      → Option EvidenceSide
      → Option DriftObservation
  requirement_lag_of input (some r) (some i) (some t) (some d) =
      if requirement_lags input r i t d
      then some (
          observation digest input requirement_lag "requirement_lag"
            (some r ∷ some d ∷ some i ∷ some t ∷ []))
      else none
  requirement_lag_of input _ _ _ _ = none

  unfoldable pub detect_requirement_lag : DetectionInput → Option DriftObservation
  unfolding observation requirement_lags
  detect_requirement_lag input =
      requirement_lag_of input input.requirement input.implementation input.test input.decision

  abbrev code_lag_of :
      DetectionInput → Option EvidenceSide → Option EvidenceSide → Option DriftObservation
  code_lag_of input (some r) (some i) =
      if code_lags input r i
      then some (observation digest input code_lag "code_lag" (some r ∷ some i ∷ input.test ∷ []))
      else none
  code_lag_of input _ _ = none

  unfoldable pub detect_code_lag : DetectionInput → Option DriftObservation
  unfolding observation code_lags
  detect_code_lag input = code_lag_of input input.requirement input.implementation

  abbrev test_lag_of :
      DetectionInput
      → Option EvidenceSide
      → Option EvidenceSide
      → Option EvidenceSide
      → Option DriftObservation
  test_lag_of input (some r) (some i) (some t) =
      if test_lags input r i t
      then some (observation digest input test_lag "test_lag" (some r ∷ some i ∷ some t ∷ []))
      else none
  test_lag_of input _ _ _ = none

  unfoldable pub detect_test_lag : DetectionInput → Option DriftObservation
  unfolding observation test_lags
  detect_test_lag input = test_lag_of input input.requirement input.implementation input.test

  unfoldable pub detect_undocumented_code : DetectionInput → Option DriftObservation
  unfolding observation
  detect_undocumented_code input =
      if is_none input.implementation
        || not input.material_code_change
        || input.has_mapped_semantics
      then none
      else some (
          observation digest input undocumented_code "undocumented_code"
            (input.implementation ∷ []))

  unfoldable pub detect_ambiguous_divergence : DetectionInput → Option DriftObservation
  unfolding observation
  detect_ambiguous_divergence input =
      let sides = input.requirement ∷ input.decision ∷ input.implementation ∷ input.test ∷ [] in
      if not (is_unclear input.compatibility) || ltb (length (present sides)) 2
      then none
      else some (observation digest input ambiguous_divergence "ambiguous_divergence" sides)

  -- `DETECTORS`
  abbrev pub detectors : List (DetectionInput → Option DriftObservation)
  detectors =
      detect_conflicting_sources ∷ detect_requirement_lag ∷ detect_code_lag ∷ detect_test_lag
      ∷ detect_undocumented_code ∷ detect_ambiguous_divergence ∷ []

-- `(item.case_type.value, item.fingerprint)` of one at most that of the other
unfoldable pub key_le : DriftObservation → DriftObservation → Bool
unfolding case_type_value
key_le a b =
    let x = case_type_value a.case_type in
    let y = case_type_value b.case_type in
    if x == y then text_le a.fingerprint b.fingerprint else text_le x y

unfoldable pub insert_by_key : DriftObservation → List DriftObservation → List DriftObservation
unfolding key_le
insert_by_key o [] = o ∷ []
insert_by_key o (p ∷ ps) = if key_le o p then o ∷ p ∷ ps else p ∷ insert_by_key o ps

unfoldable pub sort_by_key : List DriftObservation → List DriftObservation
unfolding insert_by_key
sort_by_key [] = []
sort_by_key (o ∷ os) = insert_by_key o (sort_by_key os)

-- The loop of `detect_drift`, over the detectors that are left.
unfoldable pub detect_each :
    DetectionInput
    → List (DetectionInput → Option DriftObservation)
    → List String
    → List DriftObservation
    → List DriftObservation
detect_each input [] classified found = found
detect_each input (d ∷ ds) classified found = elim (d input) [
  | none ↦ detect_each input ds classified found
  | some o ↦
      let fresh = detect_each input ds (o.subject_ref ∷ classified) (found ++ o ∷ []) in
      let seen = detect_each input ds classified found in
      if elem o.subject_ref classified then seen else fresh
]

unfoldable pub detect_drift : (Payload → String) → DetectionInput → List DriftObservation
unfolding detect_each sort_by_key
detect_drift digest input = sort_by_key (detect_each input (detectors digest) [] [])
