-- ===== src/Tests/Detection.antt =====
-- The detected cases of src/intent_engineering/sync/orchestrator.py on small inputs.
use intent_engineer.Base.{true, ◌⊎◌, String, List, [], ◌∷◌, ◌≡◌, refl, ok, none, length}
use intent_engineer.Base.Text.{is_blank, is_hex_text}
use intent_engineer.Base.Dict.{index_onto, sorted_values}
use intent_engineer.Core.Vocabulary.{node_type_of_value, code_lag}
use intent_engineer.Core.Graph.Types.{normalize_known_type}
use intent_engineer.Core.Graph.{Graph, validate_graph, assert_registered}
use intent_engineer.Reconcile.Cases.{
  DriftObservation, ReconciliationCase, all_evidence_refs, validate_side,
}
use intent_engineer.Storage.History.{changeset_line}
use intent_engineer.Storage.CaseLog.{case_line, same_case}
use intent_engineer.Storage.CaseLog.Store.{list}
use intent_engineer.Storage.Changes.{LocalState, apply}
use intent_engineer.Sync.Collection.{Delta}
use intent_engineer.Sync.Detection.{
  Detection, fingerprints, case_fingerprints, case_of_observation, detected_changeset,
  apply_detected_cases,
}
use intent_engineer.Sync.Detection.Fresh.{IsFresh, apply_detected_cases-IsFresh}
use intent_engineer.Tests.Core.{graph, requirement, test, old_need}
use intent_engineer.Tests.Reconcile.{hash, side, reviewed}
use intent_engineer.Tests.Storage.{issue}

abbrev other_hash : String
other_hash = "10112233445566778899aabbccddeeff00112233445566778899aabbccddeeff"

abbrev observed : String → DriftObservation
observed fingerprint = record {
  subject_ref = "req:1";
  affected_refs = "req:1" ∷ [];
  case_type = code_lag;
  evidence_sides = side "code" ("ev:1" ∷ []) ∷ [];
  detector_id = "code_lag";
  fingerprint = fingerprint;
  requires_human = true;
}

-- The detector observes something new twice, and between them what a case is about already.
abbrev pub detection : Detection
detection = record {
  detect = λ d g. observed other_hash ∷ observed hash ∷ observed other_hash ∷ [];
  has_executor = true;
  case_time = λ o. 50;
  now = 51;
  digest = λ version ids refs. "d";
}

abbrev delta : Delta
delta = record { added = issue ∷ []; prior_versions = []; ingestions = [] }

abbrev pub state : LocalState
state = record { graph = graph; history = []; cases = case_line reviewed ∷ [] }

abbrev pub created : List ReconciliationCase
created = case_of_observation (observed other_hash) 50 ∷ []

abbrev pub next : LocalState
next = record {
  graph = record graph { version = 8; nodes = old_need ∷ requirement ∷ test ∷ [] };
  history = changeset_line (detected_changeset detection 7 created) ∷ [];
  cases = case_line reviewed ∷ case_line (case_of_observation (observed other_hash) 50) ∷ [];
}

detected : apply_detected_cases detection delta state ≡ ok ((1, 1), next)
unfolding apply_detected_cases is_blank is_hex_text validate_graph sorted_values assert_registered
    node_type_of_value normalize_known_type all_evidence_refs validate_side same_case index_onto
detected = refl

apply_detected_cases-IsFresh_example :
    (latest cases : List ReconciliationCase) × (list none state.cases ≡ ok latest)
    × IsFresh (fingerprints (detection.detect delta state.graph)) (case_fingerprints latest) cases
    × (1 ≡ length cases)
    × (((cases ≡ []) × (next ≡ state))
        ⊎ ((g : Graph) × (apply
                (detected_changeset detection state.graph.version cases)
                cases
                []
                state
              ≡ ok (g, next))))
apply_detected_cases-IsFresh_example =
    apply_detected_cases-IsFresh detection delta state next 1 1 refl detected
