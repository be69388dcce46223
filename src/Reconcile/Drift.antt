-- ===== src/Reconcile/Drift.antt =====
-- The input of the detectors and the observation they make: the first part of
-- src/intent_engineering/reconcile/detectors.py. The digest (SHA-256 of the canonical JSON of the
-- payload) is a parameter. That an observation passes its model's validators is a theorem about the
-- detectors, so the constructor's checks are not run here.
use intent_engineer.Base.{
  String, Bool, true, false, Option, none, some, List, [], ◌∷◌, ◌++◌, ltb, if◌then◌else◌, all,
}
use intent_engineer.Base.Sorted.{sort, sorted_set}
use intent_engineer.Core.Vocabulary.{ReconciliationCaseType}
use intent_engineer.Reconcile.Cases.{EvidenceSide, DriftObservation, side_refs}

pub data EvidenceOrder : Type 0 where
  before after tied unknown : EvidenceOrder

-- `SemanticCompatibility`
pub data Compatibility : Type 0 where
  aligns contradicts unclear : Compatibility

pub record DetectionInput : Type 0 where
  pub subject_ref : String
  pub affected_refs : List String
  pub requirement : Option EvidenceSide
  pub implementation : Option EvidenceSide
  pub test : Option EvidenceSide
  pub decision : Option EvidenceSide
  pub requirement_implementation_order : Option EvidenceOrder
  pub decision_requirement_order : Option EvidenceOrder
  pub implementation_decision_order : Option EvidenceOrder
  pub test_decision_order : Option EvidenceOrder
  pub implementation_test_order : Option EvidenceOrder
  pub compatibility : Compatibility
  pub requirement_active : Bool
  pub has_mapped_semantics : Bool
  pub material_code_change : Bool

-- `_order`
unfoldable pub order : Option EvidenceOrder → EvidenceSide → EvidenceSide → EvidenceOrder
order (some declared) left right = declared
order none left right =
    if ltb left.observed_at right.observed_at
    then before
    else if ltb right.observed_at left.observed_at
    then after
    else tied

-- `... is EvidenceOrder.AFTER`
abbrev pub is_after : EvidenceOrder → Bool
is_after after = true
is_after _ = false

abbrev pub is_aligned : Compatibility → Bool
is_aligned aligns = true
is_aligned _ = false

abbrev pub is_contradiction : Compatibility → Bool
is_contradiction contradicts = true
is_contradiction _ = false

abbrev pub is_unclear : Compatibility → Bool
is_unclear unclear = true
is_unclear _ = false

-- `_all_current`
abbrev pub all_current : List EvidenceSide → Bool
all_current = all (λ s. s.current)

-- `tuple(side for side in sides if side is not None)`
abbrev pub present : List (Option EvidenceSide) → List EvidenceSide
present [] = []
present (none ∷ ss) = present ss
present (some s ∷ ss) = s ∷ present ss

-- `{author for side in sides for author in side.authors}`, as a list
abbrev pub side_authors : List EvidenceSide → List String
side_authors [] = []
side_authors (s ∷ ss) = s.authors ++ side_authors ss

-- What `_fingerprint` digests.
pub record Payload : Type 0 where
  pub detector_id : String
  pub subject_ref : String
  pub affected_refs : List String
  pub evidence_refs : List String

module _ (digest : Payload → String) where
  -- `_fingerprint`
  unfoldable pub fingerprint : String → String → List String → List EvidenceSide → String
  unfolding sorted_set
  fingerprint detector_id subject_ref affected_refs sides = digest (record {
    detector_id = detector_id;
    subject_ref = subject_ref;
    affected_refs = sort affected_refs;
    evidence_refs = sorted_set (side_refs sides);
  })

  -- `_observation`, with `_canonical_affected_refs`
  unfoldable pub observation :
      DetectionInput
      → ReconciliationCaseType
      → String
      → List (Option EvidenceSide)
      → DriftObservation
  unfolding fingerprint
  observation input case_type detector_id sides =
      let evidence_sides = present sides in
      let affected_refs = sorted_set input.affected_refs in
      record {
        subject_ref = input.subject_ref;
        case_type = case_type;
        affected_refs = affected_refs;
        evidence_sides = evidence_sides;
        detector_id = detector_id;
        fingerprint = fingerprint detector_id input.subject_ref affected_refs evidence_sides;
        requires_human = true;
      }
