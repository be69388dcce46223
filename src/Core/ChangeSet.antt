-- ===== src/Core/ChangeSet.antt =====
-- Validated descriptions of graph mutations: src/intent_engineering/core/models/changeset.py, with
-- `ConfidenceChange` of src/intent_engineering/core/models/epistemic.py.
pub mod Groups
use intent_engineer.Base.{
  ℕ, String, Bool, not, ◌&&◌, ◌||◌, Option, none, some, List, [], ◌∷◌, ◌++◌, map, ◌==◌, eqb, leb,
  is_empty, Result, ok, err, ◌>>=◌, ◌>>◌, raise_if,
}
use intent_engineer.Base.Texts.{is_distinct, intersects}
use intent_engineer.Core.Vocabulary.{ImplementationStatus, ChangeKind, same_status}
use intent_engineer.Core.Graph.{
  Instant, Confidence, confidence_one, Node, Edge, GraphError, validate_node, node_ids, edge_ids,
}

pub record NodeUpdate : Type 0 where
  pub node_id : String
  pub replacement : Node

pub record EdgeUpdate : Type 0 where
  pub edge_id : String
  pub replacement : Edge

pub record ImplementationStatusChange : Type 0 where
  pub claim_id : String
  pub prior : ImplementationStatus
  pub next : ImplementationStatus
  pub evidence_refs : List String

pub record ConfidenceChange : Type 0 where
  pub change_id : String
  pub timestamp : Instant
  pub actor : String
  pub subject_ref : String
  pub change_kind : ChangeKind
  pub prior_confidence : Confidence
  pub new_confidence : Confidence
  pub evidence_refs : List String
  pub reason : String

pub record ChangeSet : Type 0 where
  pub id : String
  pub actor : String
  pub timestamp : Instant
  pub baseline_graph_version : ℕ
  pub evidence_refs : List String
  pub nodes_added : List Node
  pub nodes_updated : List NodeUpdate
  pub nodes_superseded : List String
  pub edges_added : List Edge
  pub edges_updated : List EdgeUpdate
  pub edges_superseded : List String
  pub confidence_changes : List ConfidenceChange
  pub implementation_status_changes : List ImplementationStatusChange
  pub reconciliation_cases_created : List String
  pub reconciliation_cases_resolved : List String
  pub validation_status : String

pub data ChangeSetError : Type 0 where
  invalid_node : GraphError → ChangeSetError
  replacement_mismatch lacks_evidence unchanged confidence_out_of_range : ChangeSetError
  duplicate_subject : String → ChangeSetError
  add_and_update add_and_supersede update_and_supersede : String → ChangeSetError
  create_and_resolve conflicting_node_groups : ChangeSetError

-- A refusal of the graph's models as one of a `ChangeSet`'s.
abbrev pub of_graph : {A : Type 0} → Result GraphError A → Result ChangeSetError Unit
of_graph (ok a) = ok tt
of_graph (err e) = err (invalid_node e)

-- `NodeUpdate.require_matching_replacement_id`, after the validators of the replacement
unfoldable pub validate_node_update : NodeUpdate → Result ChangeSetError Unit
validate_node_update u = do
  of_graph (validate_node u.replacement)
  raise_if (not (u.replacement.id == u.node_id)) replacement_mismatch

-- `EdgeUpdate.require_matching_replacement_id`
unfoldable pub validate_edge_update : EdgeUpdate → Result ChangeSetError Unit
validate_edge_update u = raise_if (not (u.replacement.id == u.edge_id)) replacement_mismatch

-- `ImplementationStatusChange.require_material_change_with_evidence`
unfoldable pub validate_status_change : ImplementationStatusChange → Result ChangeSetError Unit
validate_status_change c = do
  raise_if (is_empty c.evidence_refs) lacks_evidence
  raise_if (same_status c.prior c.next) unchanged

-- `ConfidenceChange.require_material_change_with_evidence`, after the bounds of its fields
unfoldable pub validate_confidence_change : ConfidenceChange → Result ChangeSetError Unit
validate_confidence_change c = do
  raise_if (not (leb c.prior_confidence confidence_one)) confidence_out_of_range
  raise_if (not (leb c.new_confidence confidence_one)) confidence_out_of_range
  raise_if (is_empty c.evidence_refs) lacks_evidence
  raise_if (eqb c.prior_confidence c.new_confidence) unchanged

unfoldable pub validate_each :
    {A : Type 0} → (A → Result ChangeSetError Unit) → List A → Result ChangeSetError Unit
validate_each check [] = ok tt
validate_each check (x ∷ xs) = check x >> validate_each check xs

-- The subjects of each group, `mutation_subjects` in the source.
abbrev pub update_ids : List NodeUpdate → List String
update_ids = map (λ u. u.node_id)

abbrev pub edge_update_ids : List EdgeUpdate → List String
edge_update_ids = map (λ u. u.edge_id)

abbrev pub confidence_ids : List ConfidenceChange → List String
confidence_ids = map (λ c. c.subject_ref)

abbrev pub status_ids : List ImplementationStatusChange → List String
status_ids = map (λ c. c.claim_id)

-- `ChangeSet.is_semantic`
unfoldable pub is_semantic : ChangeSet → Bool
is_semantic c =
    not (is_empty c.nodes_added)
    || not (is_empty c.nodes_updated)
    || not (is_empty c.nodes_superseded)
    || not (is_empty c.edges_added)
    || not (is_empty c.edges_updated)
    || not (is_empty c.edges_superseded)
    || not (is_empty c.confidence_changes)
    || not (is_empty c.implementation_status_changes)
    || not (is_empty c.reconciliation_cases_created)
    || not (is_empty c.reconciliation_cases_resolved)

-- The loop over the groups: no group names a subject twice.
unfoldable pub check_groups : ChangeSet → Result ChangeSetError Unit
check_groups c = do
  raise_if (not (is_distinct (node_ids c.nodes_added))) (duplicate_subject "nodes_added")
  raise_if (not (is_distinct (update_ids c.nodes_updated))) (duplicate_subject "nodes_updated")
  raise_if (not (is_distinct c.nodes_superseded)) (duplicate_subject "nodes_superseded")
  raise_if (not (is_distinct (edge_ids c.edges_added))) (duplicate_subject "edges_added")
  raise_if (not (is_distinct (edge_update_ids c.edges_updated))) (duplicate_subject "edges_updated")
  raise_if (not (is_distinct c.edges_superseded)) (duplicate_subject "edges_superseded")
  raise_if (not (is_distinct (confidence_ids c.confidence_changes)))
      (duplicate_subject "confidence_changes")
  raise_if (not (is_distinct (status_ids c.implementation_status_changes)))
      (duplicate_subject "implementation_status_changes")
  raise_if (not (is_distinct c.reconciliation_cases_created))
      (duplicate_subject "reconciliation_cases_created")
  raise_if (not (is_distinct c.reconciliation_cases_resolved))
      (duplicate_subject "reconciliation_cases_resolved")

-- `set(confidence_changes) | set(implementation_status_changes)`
abbrev pub derived_updates : ChangeSet → List String
derived_updates c =
    confidence_ids c.confidence_changes ++ status_ids c.implementation_status_changes

-- `node_additions | node_updates | node_supersessions`
abbrev pub explicit_mutations : ChangeSet → List String
explicit_mutations c = node_ids c.nodes_added ++ (update_ids c.nodes_updated ++ c.nodes_superseded)

-- The intersections that follow the loop.
unfoldable pub check_conflicts : ChangeSet → Result ChangeSetError Unit
unfolding is_semantic
check_conflicts c = do
  raise_if (intersects (node_ids c.nodes_added) (update_ids c.nodes_updated))
      (add_and_update "node")
  raise_if (intersects (node_ids c.nodes_added) c.nodes_superseded) (add_and_supersede "node")
  raise_if (intersects (edge_ids c.edges_added) (edge_update_ids c.edges_updated))
      (add_and_update "edge")
  raise_if (intersects (edge_ids c.edges_added) c.edges_superseded) (add_and_supersede "edge")
  raise_if (intersects c.reconciliation_cases_created c.reconciliation_cases_resolved)
      create_and_resolve
  raise_if (intersects (update_ids c.nodes_updated) c.nodes_superseded)
      (update_and_supersede "node")
  raise_if (intersects (edge_update_ids c.edges_updated) c.edges_superseded)
      (update_and_supersede "edge")
  raise_if (intersects (derived_updates c) (explicit_mutations c)) conflicting_node_groups
  raise_if (is_semantic c && is_empty c.evidence_refs) lacks_evidence

-- `ChangeSet.validate_mutations`
unfoldable pub validate_mutations : ChangeSet → Result ChangeSetError Unit
unfolding check_groups check_conflicts
validate_mutations c = do check_groups c; check_conflicts c

-- `ChangeSet.model_validate`: the validators of the parts in the order of the fields, then its own
unfoldable pub validate_changeset : ChangeSet → Result ChangeSetError Unit
unfolding validate_each validate_node_update validate_edge_update validate_confidence_change
    validate_status_change validate_mutations
validate_changeset c = do
  validate_each (λ n. of_graph (validate_node n)) c.nodes_added
  validate_each validate_node_update c.nodes_updated
  validate_each validate_edge_update c.edges_updated
  validate_each validate_confidence_change c.confidence_changes
  validate_each validate_status_change c.implementation_status_changes
  validate_mutations c
