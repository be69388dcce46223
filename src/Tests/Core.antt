-- ===== src/Tests/Core.antt =====
-- The models of src/intent_engineering/core on small inputs.
use intent_engineer.Base.{
  String, false, none, some, [], ◌∷◌, ◌≡◌, ◌≢◌, ◌↔◌, refl, ok, err, map_option, suc,
}
use intent_engineer.Base.Sorted.{IsAscending}
use intent_engineer.Core.Vocabulary.{NodeType, verified_by, explicit, refine, node_type_of_value}
use intent_engineer.Core.Graph.{
  Node, Edge, Graph, NodeKind, missing_node, node_ids, edge_ids, assert_invariants, validate_node,
  validate_graph, assert_registered,
}
use intent_engineer.Core.Graph.Types.{builtin, text, normalize_known_type}
use intent_engineer.Base.Dict.{index_onto, sorted_values}
use intent_engineer.Core.Graph.Invariants.{IsConsistent, assert_invariants_iff}
use intent_engineer.Core.ChangeSet.{
  ChangeSet, ConfidenceChange, validate_changeset, validate_mutations,
}
use intent_engineer.Core.ChangeSet.Groups.{
  HasDistinctGroups, HasNoConflicts, validate_mutations_iff,
}
use intent_engineer.Core.Applier.{stale_version, key_error, apply_changeset_with_case_effects}
use intent_engineer.Core.Applier.Outcome.{settled}
use intent_engineer.Core.Applier.Nodes.{find_node, node_after}
use intent_engineer.Core.Applier.Edges.{find_edge, edge_after}
use intent_engineer.Core.Applier.Frame.{
  apply-find_node, apply-find_edge, apply_canonical, apply_once,
}
use intent_engineer.Core.Applier.NoKeyError.{apply-ne-key_error}

abbrev node : String → NodeKind → String → Node
node id kind status = record {
  id = id;
  node_type = kind;
  label = id;
  status = status;
  created_by = "ana";
  created_at = 10;
  last_modified_by = "ana";
  last_modified_at = 10;
  source_mode = some explicit;
  intent_fidelity_confidence = some 0x3fe0000000000000;
  confidence_basis = none;
  last_reassessed_at = none;
  implementation_status = none;
  evidence_refs = "ev:1" ∷ [];
}

abbrev edge : Edge
edge = record {
  id = "edge:1";
  from_id = "req:1";
  relation = verified_by;
  to_id = "test:1";
  status = "active";
  created_by = "ana";
  created_at = 10;
  last_modified_by = "ana";
  last_modified_at = 10;
  external = false;
}

abbrev pub requirement : Node
requirement = node "req:1" (builtin NodeType.requirement) "active"

abbrev pub test : Node
test = node "test:1" (builtin NodeType.test) "active"

abbrev pub old_need : Node
old_need = node "need:1" (builtin NodeType.need) "active"

abbrev pub graph : Graph
graph = record {
  id = "graph";
  version = 7;
  schema_version = "0.1.0";
  name = none;
  purpose = none;
  created_at = none;
  source_spec = none;
  nodes = requirement ∷ test ∷ old_need ∷ [];
  edges = edge ∷ [];
  type_registry = record { extensions = "acme:risk" ∷ [] };
}

abbrev risk : Node
risk = node "risk:1" (text "acme:risk") "active"

abbrev reassessment : ConfidenceChange
reassessment = record {
  change_id = "cc:1";
  timestamp = 20;
  actor = "ben";
  subject_ref = "req:1";
  change_kind = refine;
  prior_confidence = 0x3fe0000000000000;
  new_confidence = 0x3fe8000000000000;
  evidence_refs = "ev:1" ∷ "ev:2" ∷ [];
  reason = "interview";
}

abbrev pub changes : ChangeSet
changes = record {
  id = "cs:1";
  actor = "ben";
  timestamp = 20;
  baseline_graph_version = 7;
  evidence_refs = "ev:2" ∷ [];
  nodes_added = risk ∷ [];
  nodes_updated = [];
  nodes_superseded = "need:1" ∷ [];
  edges_added = [];
  edges_updated = [];
  edges_superseded = "edge:1" ∷ [];
  confidence_changes = reassessment ∷ [];
  implementation_status_changes = [];
  reconciliation_cases_created = [];
  reconciliation_cases_resolved = [];
  validation_status = "validated";
}

abbrev reassessed : Node
reassessed = record requirement {
  intent_fidelity_confidence = some 0x3fe8000000000000;
  confidence_basis = some "interview";
  last_reassessed_at = some 20;
  last_modified_by = "ben";
  last_modified_at = 20;
  evidence_refs = "ev:1" ∷ "ev:2" ∷ [];
}

abbrev pub next_graph : Graph
next_graph = record graph {
  version = 8;
  nodes = record old_need { status = "superseded" } ∷ reassessed ∷ risk ∷ test ∷ [];
  edges = record edge { status = "superseded" } ∷ [];
}

changes_valid : validate_changeset changes ≡ ok tt
unfolding validate_changeset validate_node
changes_valid = refl

graph_applied : apply_changeset_with_case_effects graph changes ≡ ok next_graph
unfolding apply_changeset_with_case_effects index_onto sorted_values validate_node validate_graph
    assert_registered node_type_of_value normalize_known_type
graph_applied = refl

assert_invariants_iff_example : (assert_invariants graph ≡ ok tt) ↔ IsConsistent graph
assert_invariants_iff_example = assert_invariants_iff graph

-- An edge to nowhere is refused.
dangling_refused :
    assert_invariants (record graph { edges = record edge { to_id = "test:9" } ∷ [] })
    ≡ err (missing_node "test:9")
unfolding assert_invariants assert_registered node_type_of_value
dangling_refused = refl

validate_mutations_iff_example :
    (validate_mutations changes ≡ ok tt) ↔ (HasDistinctGroups changes × HasNoConflicts changes)
validate_mutations_iff_example = validate_mutations_iff changes

apply-find_node_example :
    find_node "req:1" next_graph.nodes ≡ map_option settled (node_after graph changes "req:1")
apply-find_node_example =
    apply-find_node graph changes next_graph changes_valid graph_applied "req:1"

apply-find_edge_example : find_edge "edge:1" next_graph.edges ≡ edge_after graph changes "edge:1"
apply-find_edge_example =
    apply-find_edge graph changes next_graph changes_valid graph_applied "edge:1"

apply_canonical_example :
    (next_graph.version ≡ suc graph.version)
    × (next_graph.id ≡ graph.id)
    × (next_graph.type_registry ≡ graph.type_registry)
    × IsConsistent next_graph
    × IsAscending (node_ids next_graph.nodes)
    × IsAscending (edge_ids next_graph.edges)
apply_canonical_example = apply_canonical graph changes next_graph changes_valid graph_applied

apply_once_example : apply_changeset_with_case_effects next_graph changes ≡ err (stale_version 7 8)
apply_once_example = apply_once graph changes next_graph graph_applied

apply-ne-key_error_example :
    apply_changeset_with_case_effects graph changes ≢ err (key_error "req:1")
apply-ne-key_error_example = apply-ne-key_error graph changes "req:1"
