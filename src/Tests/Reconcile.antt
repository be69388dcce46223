-- ===== src/Tests/Reconcile.antt =====
-- The models of src/intent_engineering/reconcile on small inputs.
use intent_engineer.Base.{
  String, true, false, none, some, List, [], ◌∷◌, ◌≡◌, ◌↔◌, refl, ok, All, arith,
}
use intent_engineer.Base.Text.{is_hex_text, is_blank}
use intent_engineer.Core.Vocabulary.{
  explicit, ReconciliationStatus, opened, needs_human, proposed, resolved, code_lag,
  update_implementation,
}
use intent_engineer.Reconcile.Cases.{
  EvidenceSide, ClassificationEvent, ReconciliationCase, validate_case, validate_side,
  validate_observation, all_evidence_refs,
}
use intent_engineer.Reconcile.Cases.Lifecycle.{IsValidCase, validate_case_iff}
use intent_engineer.Reconcile.Cases.Routes.{Route, case-Route}
use intent_engineer.Reconcile.Transition.{transition_case, moved}
use intent_engineer.Reconcile.Transition.Laws.{MayMove, transition_case_lem}
use intent_engineer.Reconcile.Drift.{DetectionInput, Payload, aligns}
use intent_engineer.Reconcile.Detectors.{detect_drift, detectors}
use intent_engineer.Reconcile.Detectors.Precedence.{first_answer, listed, detect_drift-eq}
use intent_engineer.Reconcile.Detectors.Identity.{with_refs, detect_drift-same_refs}
use intent_engineer.Reconcile.Detectors.Validity.{detect_drift-validates}

abbrev pub hash : String
hash = "00112233445566778899aabbccddeeff00112233445566778899aabbccddeeff"

abbrev digest : Payload → String
digest _ = hash

abbrev event : ReconciliationStatus → ReconciliationStatus → ClassificationEvent
event prior next = record { actor = "ana"; at = 30; prior = prior; next = next }

abbrev pub side : String → List String → EvidenceSide
side label refs = record {
  label = label;
  claim = label;
  evidence_refs = refs;
  observed_at = 10;
  authors = "ana" ∷ [];
  confidence = 0x3fe0000000000000;
  source_mode = explicit;
  current = true;
}

abbrev pub reviewed : ReconciliationCase
reviewed = record {
  id = "case:1";
  subject_ref = "req:1";
  case_type = code_lag;
  affected_refs = "req:1" ∷ [];
  evidence_sides = side "requirement" ("ev:1" ∷ []) ∷ [];
  detector_id = "code_lag";
  fingerprint = hash;
  created_at = 20;
  created_by = "detector";
  status = needs_human;
  requires_human = true;
  alternatives = [];
  impact = "";
  resolution = none;
  resolved_by_changeset = none;
  history = event opened proposed ∷ event proposed needs_human ∷ [];
}

pub reviewed_valid : validate_case reviewed ≡ ok tt
unfolding validate_case all_evidence_refs is_blank
reviewed_valid = refl

validate_case_iff_example : (validate_case reviewed ≡ ok tt) ↔ IsValidCase reviewed
validate_case_iff_example = validate_case_iff reviewed

case-Route_example : Route needs_human (proposed ∷ needs_human ∷ [])
case-Route_example = case-Route reviewed reviewed_valid

abbrev pub closed : ReconciliationCase
closed = moved reviewed resolved "ben" 40 (some update_implementation) (some "cs:2")

transition_case_lem_example :
    (transition_case reviewed resolved "ben" (some 40) (some update_implementation) (some "cs:2")
      ≡ ok closed)
    ↔ (MayMove reviewed resolved "ben" (some update_implementation) (some "cs:2")
        × (moved reviewed resolved "ben" 40 (some update_implementation) (some "cs:2") ≡ closed)
        × (validate_case closed ≡ ok tt))
transition_case_lem_example =
    transition_case_lem reviewed resolved "ben" 40 (some update_implementation) (some "cs:2") closed
      reviewed_valid

-- The requirement is older than the decision, and code and test are newer than that.
abbrev lagging : DetectionInput
lagging = record {
  subject_ref = "req:1";
  affected_refs = "req:1" ∷ "mod:1" ∷ [];
  requirement = some (side "requirement" ("ev:1" ∷ []));
  implementation = some (record (side "code" ("ev:2" ∷ [])) { observed_at = 30 });
  test = some (record (side "test" ("ev:3" ∷ [])) { observed_at = 40 });
  decision = some (record (side "decision" ("ev:4" ∷ [])) { observed_at = 20 });
  requirement_implementation_order = none;
  decision_requirement_order = none;
  implementation_decision_order = none;
  test_decision_order = none;
  implementation_test_order = none;
  compatibility = aligns;
  requirement_active = true;
  has_mapped_semantics = true;
  material_code_change = false;
}

detect_drift-eq_example :
    detect_drift digest lagging ≡ listed (first_answer lagging (detectors digest))
detect_drift-eq_example = detect_drift-eq digest lagging

detect_drift-same_refs_example :
    detect_drift digest (with_refs lagging ("b" ∷ "a" ∷ "b" ∷ []))
    ≡ detect_drift digest (with_refs lagging ("a" ∷ "b" ∷ []))
detect_drift-same_refs_example =
    detect_drift-same_refs digest lagging ("b" ∷ "a" ∷ "b" ∷ []) ("a" ∷ "b" ∷ [])
      (λ k. ground arith)

detect_drift-validates_example :
    All (λ o. validate_observation o ≡ ok tt) (detect_drift digest lagging)
unfolding is_hex_text validate_side is_blank
detect_drift-validates_example =
    detect_drift-validates digest (λ p. refl) lagging (refl, (refl, (refl, (refl, tt))))
