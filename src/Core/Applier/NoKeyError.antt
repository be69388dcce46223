-- ===== src/Core/Applier/NoKeyError.antt =====
-- How `apply_changeset_with_case_effects` of src/intent_engineering/core/graph/applier.py can fail.
use intent_engineer.Base.{String, not, some, List, [], ◌∷◌, ◌≡◌, ◌≢◌, arith, subst, err, eqb}
use intent_engineer.Base.Dict.{Dict, lookup}
use intent_engineer.Core.Graph.{Node, Edge, Graph, validate_node, validate_graph}
use intent_engineer.Core.ChangeSet.{ChangeSet, ConfidenceChange, ImplementationStatusChange}
use intent_engineer.Core.Applier.{
  key_error, stale_version, unknown_identity, contradictory, require, check_confidence_priors,
  check_status_priors, next_nodes, next_edges, node_index, edge_index, add_nodes, update_nodes,
  supersede_nodes, superseded_node, superseded_edge, add_edges, update_edges, supersede_edges,
  revise_confidences, revise_statuses, with_confidence, with_status,
  apply_changeset_with_case_effects,
}
use intent_engineer.Core.Applier.Errors.{
  Ensures, Ensures-bind, Ensures-weaken, Ensures-require, Ensures-of_graph, Ensures-guard, Extends,
  Ensures-add_all, Ensures-replace_all, Ensures-mark_all, ArePresent, ArePresent-extend,
  Ensures-revise_all,
}

abbrev subject : ConfidenceChange → String
subject c = c.subject_ref

abbrev claim : ImplementationStatusChange → String
claim c = c.claim_id

-- The checks before the loops leave only subjects that are there.
confidence_subjects :
    (d : Dict Node) (cs : List ConfidenceChange)
    → Ensures (λ _. ArePresent subject d cs) (check_confidence_priors d cs)
unfolding check_confidence_priors
confidence_subjects d [] = tt
confidence_subjects d (c ∷ cs) =
    Ensures-bind (λ n. lookup c.subject_ref d ≡ some n) (λ _. ArePresent subject d (c ∷ cs))
      (require (lookup c.subject_ref d) (unknown_identity c.subject_ref)) _
      (Ensures-require (lookup c.subject_ref d) (unknown_identity c.subject_ref) tt)
      λ n found.
        Ensures-guard (λ _. ArePresent subject d (c ∷ cs)) _ (contradictory c.subject_ref) _ tt
          (Ensures-weaken (λ _. ArePresent subject d cs) (λ _. ArePresent subject d (c ∷ cs))
            (check_confidence_priors d cs) (λ _ rest. (ground (arith, found), rest))
            (confidence_subjects d cs))

status_subjects :
    (d : Dict Node) (cs : List ImplementationStatusChange)
    → Ensures (λ _. ArePresent claim d cs) (check_status_priors d cs)
unfolding check_status_priors
status_subjects d [] = tt
status_subjects d (c ∷ cs) =
    Ensures-bind (λ n. lookup c.claim_id d ≡ some n) (λ _. ArePresent claim d (c ∷ cs))
      (require (lookup c.claim_id d) (unknown_identity c.claim_id)) _
      (Ensures-require (lookup c.claim_id d) (unknown_identity c.claim_id) tt)
      λ n found.
        Ensures-guard (λ _. ArePresent claim d (c ∷ cs)) _ (contradictory c.claim_id) _ tt
          (Ensures-weaken (λ _. ArePresent claim d cs) (λ _. ArePresent claim d (c ∷ cs))
            (check_status_priors d cs) (λ _ rest. (ground (arith, found), rest))
            (status_subjects d cs))

next_nodes-Extends : (d : Dict Node) (c : ChangeSet) → Ensures (Extends d) (next_nodes d c)
unfolding next_nodes
next_nodes-Extends d c =
    Ensures-bind (Extends d) (Extends d) (add_nodes d c.nodes_added) _
      (Ensures-add_all (λ n. n.id) d c.nodes_added)
      λ d1 e1.
        Ensures-bind (Extends d1) (Extends d) (update_nodes d1 c.nodes_updated) _
          (Ensures-replace_all (λ u. u.node_id) (λ u. u.replacement) d1 c.nodes_updated)
          λ d2 e2.
            Ensures-weaken (Extends d2) (Extends d) (supersede_nodes d2 c.nodes_superseded)
              (λ d3 e3 k h. e3 k (e2 k (e1 k h)))
              (Ensures-mark_all superseded_node d2 c.nodes_superseded)

next_edges_safe : (d : Dict Edge) (c : ChangeSet) → Ensures (λ _. Unit {0}) (next_edges d c)
unfolding next_edges
next_edges_safe d c =
    Ensures-bind (Extends d) (λ _. Unit) (add_edges d c.edges_added) _
      (Ensures-add_all (λ e. e.id) d c.edges_added)
      λ d1 _.
        Ensures-bind (Extends d1) (λ _. Unit) (update_edges d1 c.edges_updated) _
          (Ensures-replace_all (λ u. u.edge_id) (λ u. u.replacement) d1 c.edges_updated)
          λ d2 _.
            Ensures-weaken (Extends d2) (λ _. Unit) (supersede_edges d2 c.edges_superseded)
              (λ _ _. tt) (Ensures-mark_all superseded_edge d2 c.edges_superseded)

apply_safe :
    (g : Graph) (c : ChangeSet) → Ensures (λ _. Unit {0}) (apply_changeset_with_case_effects g c)
unfolding apply_changeset_with_case_effects
apply_safe g c =
    let d = node_index g.nodes in
    Ensures-guard (λ _. Unit) (not (eqb c.baseline_graph_version g.version))
      (stale_version c.baseline_graph_version g.version) _ tt
      (Ensures-bind (λ _. ArePresent subject d c.confidence_changes) (λ _. Unit)
        (check_confidence_priors d c.confidence_changes) _
        (confidence_subjects d c.confidence_changes)
        λ _ subjects.
          Ensures-bind (λ _. ArePresent claim d c.implementation_status_changes) (λ _. Unit)
            (check_status_priors d c.implementation_status_changes) _
            (status_subjects d c.implementation_status_changes)
            λ _ claims.
              Ensures-bind (Extends d) (λ _. Unit) (next_nodes d c) _ (next_nodes-Extends d c)
                λ d1 e1.
                  Ensures-bind (λ _. Unit) (λ _. Unit) (next_edges (edge_index g.edges) c) _
                    (next_edges_safe (edge_index g.edges) c)
                    λ edges _.
                      Ensures-bind (Extends d1) (λ _. Unit)
                        (revise_confidences d1 c.confidence_changes) _
                        (Ensures-revise_all subject _
                          (λ x n. Ensures-of_graph (validate_node (with_confidence x n))) d1
                          c.confidence_changes
                          (ArePresent-extend subject d d1 c.confidence_changes e1 subjects))
                        λ d2 e2.
                          Ensures-bind (Extends d2) (λ _. Unit)
                            (revise_statuses c.actor c.timestamp d2 c.implementation_status_changes)
                            _
                            (Ensures-revise_all claim _
                              (λ x n.
                                Ensures-of_graph
                                  (validate_node (with_status c.actor c.timestamp x n)))
                              d2 c.implementation_status_changes
                              (ArePresent-extend claim d d2 c.implementation_status_changes
                                (λ k h. e2 k (e1 k h)) claims))
                            λ nodes _. Ensures-of_graph (validate_graph _))

-- Applying a ChangeSet, valid or not, never raises the `KeyError` that `nodes[...]` could: each
-- failure is one of the module's exceptions or a refusal by the graph's validators.
pub apply-ne-key_error :
    (g : Graph) (c : ChangeSet) (k : String)
    → apply_changeset_with_case_effects g c ≢ err (key_error k)
apply-ne-key_error g c k h = subst (Ensures (λ _. Unit {0})) h (apply_safe g c)
