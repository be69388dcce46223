-- ===== src/Tests/Changes.antt =====
-- The executor of src/intent_engineering/storage/executor.py on small inputs.
use intent_engineer.Base.{true, ◌⊎◌, none, some, List, [], ◌∷◌, ◌++◌, ◌≡◌, refl, ok}
use intent_engineer.Base.Text.{is_blank}
use intent_engineer.Base.Dict.{index_onto, sorted_values}
use intent_engineer.Core.Vocabulary.{node_type_of_value}
use intent_engineer.Core.Graph.Types.{normalize_known_type}
use intent_engineer.Core.Graph.{validate_node, validate_graph, assert_registered}
use intent_engineer.Storage.History.{changeset_line}
use intent_engineer.Storage.CaseLog.{File}
use intent_engineer.Storage.Transaction.{Files, Run, Coordinator, at_rest, no_faults}
use intent_engineer.Storage.Changes.{LocalState, Codec, local_state, apply, apply_on_disk}
use intent_engineer.Storage.Changes.Commit.{ReadsBack, IsWhole, apply_on_disk-IsWhole}
use intent_engineer.Core.Vocabulary.{resolved, update_implementation}
use intent_engineer.Core.ChangeSet.{ChangeSet}
use intent_engineer.Reconcile.Cases.{ReconciliationCase, all_evidence_refs}
use intent_engineer.Reconcile.Transition.{moved}
use intent_engineer.Storage.CaseLog.{case_line}
use intent_engineer.Storage.CaseLog.Store.{get}
use intent_engineer.Storage.Evidence.{EvidenceRecord, many, refs_allowed}
use intent_engineer.Storage.EvidenceLog.{record_line}
use intent_engineer.Reconcile.Resolution.{
  ResolutionService, Resolution, resolve, get_all, changeset_at,
}
use intent_engineer.Reconcile.Resolution.Decision.{IsPrepared, IsDecided, resolve-IsDecided}
use intent_engineer.Tests.Reconcile.{reviewed}
use intent_engineer.Tests.Storage.{issue}
use intent_engineer.Reconcile.Cases.{validate_side}
use intent_engineer.Storage.CaseLog.{same_case}
use intent_engineer.Base.Text.{is_hex_text}
use intent_engineer.Sync.Detection.{detected_changeset, case_of_observation}
use intent_engineer.Tests.Detection.{detection, created, state, next}
use intent_engineer.Tests.Core.{graph, requirement, test, old_need}

abbrev coordinator : Coordinator
coordinator = record { targets = "history" ∷ "graph" ∷ "cases" ∷ []; legacy_target_sets = [] }

abbrev creating : ChangeSet
creating = detected_changeset detection 7 created

-- A graph file that is empty holds the first graph, another the next one; a history that is not empty
-- holds the ChangeSet; a file of cases holds one case, and a second if it is longer.
abbrev codec : Codec
codec = record {
  parse_graph = λ b. elim b [ [] ↦ some graph | n ∷ ns ↦ some next.graph ];
  serialize_graph = λ g. 1 ∷ [];
  read_history = λ o. elim o [ none ↦ [] | some b ↦ changeset_line creating ∷ [] ];
  serialize_changeset = λ c. 2 ∷ [];
  read_cases = λ o. elim o [
    | none ↦ []
    | some b ↦ elim b [
      | [] ↦ []
      | n ∷ ns ↦ elim ns [ [] ↦ case_line reviewed ∷ [] | m ∷ ms ↦ next.cases ]
    ]
  ];
  serialize_cases = λ lines. 3 ∷ [];
}

abbrev files : Files
files = ("graph", []) ∷ ("cases", 3 ∷ []) ∷ []

held : local_state codec files ≡ some state
unfolding local_state
held = refl

applied : apply creating created [] state ≡ ok (next.graph, next)
unfolding apply index_onto sorted_values validate_node validate_graph assert_registered
    node_type_of_value normalize_known_type is_blank is_hex_text all_evidence_refs validate_side
    same_case case_of_observation
applied = refl

reads_back :
    (lines : File)
    → next.cases ≡ state.cases ++ lines
    → ReadsBack codec files state creating next.graph lines
reads_back lines same = record { graph = refl; history = refl; cases = λ some_there. same }

apply_on_disk-IsWhole_example :
    (r : Run) × (apply_on_disk codec coordinator "t" no_faults creating created [] (at_rest files)
      ≡ ok r)
    × IsWhole codec coordinator "t" refl refl files creating created [] state held no_faults next r
apply_on_disk-IsWhole_example =
    apply_on_disk-IsWhole codec coordinator "t" refl refl files creating created [] state held
      no_faults next.graph next refl applied reads_back

abbrev service : ResolutionService
service = record {
  actor = "ben";
  principals = "ben" ∷ "ana" ∷ [];
  changeset_digest = λ case_id version action refs. "d";
  approval_digest = λ c version action made. "h";
}

abbrev before : LocalState
before = record { graph = graph; history = []; cases = case_line reviewed ∷ [] }

abbrev changeset : ChangeSet
changeset = changeset_at service reviewed 7 update_implementation 30

abbrev settled : ReconciliationCase
settled = moved reviewed resolved "ben" 40 (some update_implementation) (some "changeset:resolve:d")

abbrev resolution : Resolution
resolution = record { case_version = settled; changeset = some changeset; approval_hash = none }

abbrev after : LocalState
after = record {
  graph = record graph { version = 8; nodes = old_need ∷ requirement ∷ test ∷ [] };
  history = changeset_line changeset ∷ [];
  cases = case_line reviewed ∷ case_line settled ∷ [];
}

resolved_case :
    resolve service "case:1" update_implementation (some "h") 40 before (record_line issue ∷ [])
    ≡ ok (resolution, after)
unfolding resolve is_blank validate_graph sorted_values assert_registered node_type_of_value
    normalize_known_type
resolved_case = refl

resolve-IsDecided_example :
    (c : ReconciliationCase) × (records : List EvidenceRecord) × (get "case:1" before.cases ≡ ok c)
    × (get_all (all_evidence_refs c) (record_line issue ∷ []) ≡ ok records)
    × (refs_allowed (all_evidence_refs c) records (many service.principals) ≡ true)
    × (IsPrepared service "case:1" update_implementation
          (some "h")
          40
          before
          (record_line issue ∷ [])
          resolution
          after
          c
        ⊎ IsDecided service "case:1" update_implementation
            (some "h")
            40
            before
            (record_line issue ∷ [])
            resolution
            after
            c)
resolve-IsDecided_example =
    resolve-IsDecided service "case:1" update_implementation (some "h") 40 before
      (record_line issue ∷ []) resolution after resolved_case
