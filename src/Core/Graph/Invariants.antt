-- ===== src/Core/Graph/Invariants.antt =====
-- `Graph.assert_invariants` of src/intent_engineering/core/models/graph.py against what a
-- consistent graph is.
use intent_engineer.Base.{
  String, true, false, ◌&&◌, none, List, [], ◌∷◌, ltb, ◌≡◌, ◌≢◌, ◌↔◌, refl, arith, ap, ◌∙◌, keep_if,
  ok, >>-eq-ok, All,
}
use intent_engineer.Base.Texts.{
  elem, count, Distinct, elem-keep_if, nil_of_elem, count-eq-zero, count-le-one, Distinct-of_count,
}
use intent_engineer.Base.Sorted.{elem-sorted_set}
use intent_engineer.Core.Graph.{
  Node, Edge, Graph, TypeRegistry, node_ids, edge_ids, GraphError, duplicate_node, duplicate_edge,
  duplicates, raise_first, check_nodes, check_edges, assert_invariants, assert_registered,
}

-- What the invariants ask of one node: a known type, and evidence behind a stated provenance.
pub record IsSoundNode (registry : TypeRegistry) (n : Node) : Type 0 where
  pub registered : assert_registered registry n.node_type ≡ ok tt
  pub backed : n.source_mode ≢ none → n.evidence_refs ≢ []

-- What they ask of one edge: its ends are nodes, but for the far end of an external edge.
pub record IsSoundEdge (known : List String) (e : Edge) : Type 0 where
  pub from_known : elem e.from_id known ≡ true
  pub to_known : e.external ≡ false → elem e.to_id known ≡ true

pub record IsConsistent (g : Graph) : Type 0 where
  pub nodes_distinct : Distinct (node_ids g.nodes)
  pub edges_distinct : Distinct (edge_ids g.edges)
  pub nodes_sound : All (IsSoundNode g.type_registry) g.nodes
  pub edges_sound : All (IsSoundEdge (node_ids g.nodes)) g.edges

elem-duplicates :
    (k : String) (ids : List String) → elem k (duplicates ids) ≡ (elem k ids && ltb 1 (count k ids))
unfolding duplicates
elem-duplicates k ids =
    elem-sorted_set k (keep_if (λ j. ltb 1 (count j ids)) ids)
    ∙ elem-keep_if (λ j. ltb 1 (count j ids)) k ids

duplicates-eq-nil : (ids : List String) → Distinct ids → duplicates ids ≡ []
duplicates-eq-nil ids d =
    nil_of_elem (duplicates ids) (λ k. ground (arith, elem-duplicates k ids, count-le-one k ids d))

Distinct-of_duplicates : (ids : List String) → duplicates ids ≡ [] → Distinct ids
Distinct-of_duplicates ids h =
    Distinct-of_count ids
      (λ k. ground (arith, h, elem-duplicates k ids, ap (elem k) h, count-eq-zero k ids))

raise_first-eq-ok :
    (ks : List String) (error : String → GraphError) → raise_first ks error ≡ ok tt → ks ≡ []
raise_first-eq-ok [] error h = refl
raise_first-eq-ok (k ∷ ks) error h = cc

check_nodes_iff :
    (registry : TypeRegistry) (ns : List Node)
    → (check_nodes registry ns ≡ ok tt) ↔ All (IsSoundNode registry) ns
unfolding check_nodes
check_nodes_iff registry [] = (λ h. tt, λ h. refl)
check_nodes_iff registry (n ∷ ns) = ground (arith, check_nodes_iff registry ns)

check_edges_iff :
    (known : List String) (es : List Edge)
    → (check_edges known es ≡ ok tt) ↔ All (IsSoundEdge known) es
unfolding check_edges
check_edges_iff known [] = (λ h. tt, λ h. refl)
check_edges_iff known (e ∷ es) = ground (arith, check_edges_iff known es)

IsConsistent-of_ok : (g : Graph) → assert_invariants g ≡ ok tt → IsConsistent g
unfolding assert_invariants
IsConsistent-of_ok g h =
    let ids = node_ids g.nodes in
    let first = >>-eq-ok (raise_first (duplicates ids) duplicate_node) _ h in
    let second = >>-eq-ok (raise_first (duplicates (edge_ids g.edges)) duplicate_edge) _ first.1 in
    let third = >>-eq-ok (check_nodes g.type_registry g.nodes) _ second.1 in
    record {
      nodes_distinct =
          Distinct-of_duplicates ids (raise_first-eq-ok (duplicates ids) duplicate_node first.0);
      edges_distinct =
          Distinct-of_duplicates (edge_ids g.edges)
            (raise_first-eq-ok (duplicates (edge_ids g.edges)) duplicate_edge second.0);
      nodes_sound = (check_nodes_iff g.type_registry g.nodes).0 third.0;
      edges_sound = (check_edges_iff ids g.edges).0 third.1;
    }

ok_of_consistent : (g : Graph) → IsConsistent g → assert_invariants g ≡ ok tt
unfolding assert_invariants
ok_of_consistent g c = rw (
  duplicates-eq-nil (node_ids g.nodes) c.nodes_distinct,
  duplicates-eq-nil (edge_ids g.edges) c.edges_distinct,
  (check_nodes_iff g.type_registry g.nodes).1 c.nodes_sound,
  (check_edges_iff (node_ids g.nodes) g.edges).1 c.edges_sound,
)

-- `assert_invariants` passes exactly the consistent graphs: node and edge identities do not repeat,
-- every node has a known or registered namespaced type, a node with a source mode has evidence,
-- and every edge starts at a node and, unless it is external, ends at one.
pub assert_invariants_iff : (g : Graph) → (assert_invariants g ≡ ok tt) ↔ IsConsistent g
assert_invariants_iff g = (IsConsistent-of_ok g, ok_of_consistent g)
