-- ===== src/Core/Applier/Frame.antt =====
-- `apply_changeset_with_case_effects` of src/intent_engineering/core/graph/applier.py as a whole:
-- what a valid ChangeSet does to every identity, and what the result is as a graph.
use intent_engineer.Base.{
  suc, String, List, [], ◌∷◌, map, ◌≡◌, refl, sym, ◌∙◌, ap, subst, arith, eq_iff, map_option, ok,
  err, >>-eq-ok,
}
use intent_engineer.Base.Sorted.{IsAscending, sort-IsAscending}
use intent_engineer.Base.Dict.{keys, sorted_values}
use intent_engineer.Base.Dict.Keyed.{names-sorted_values}
use intent_engineer.Core.Graph.{Node, Graph, node_ids, edge_ids, validate_node}
use intent_engineer.Core.Graph.Invariants.{IsConsistent, assert_invariants_iff}
use intent_engineer.Core.ChangeSet.{
  ChangeSet, NodeUpdate, EdgeUpdate, validate_changeset, validate_each, validate_node_update,
  validate_edge_update, validate_confidence_change, validate_status_change, of_graph,
}
use intent_engineer.Core.ChangeSet.Groups.{
  HasDistinctGroups, HasNoConflicts, validate_mutations_iff,
}
use intent_engineer.Core.Applier.{stale_version, apply_changeset_with_case_effects}
use intent_engineer.Core.Applier.Outcome.{settled, Run-of_ok}
use intent_engineer.Core.Applier.Nodes.{find_node, node_after, find_node_lem, IsKeyed-Run}
use intent_engineer.Core.Applier.Nodes as Nodes
use intent_engineer.Core.Applier.Edges as Edges
use intent_engineer.Core.Applier.Edges.{find_edge, edge_after, find_edge_lem, IsKeyed-next_edges}

named_nodes :
    (us : List NodeUpdate) → validate_each validate_node_update us ≡ ok tt → Nodes.AreNamed us
unfolding validate_each validate_node_update
named_nodes [] h = tt
named_nodes (u ∷ us) h =
    let (first, rest) = >>-eq-ok (validate_node_update u) _ h in
    let (valid, guard) = >>-eq-ok (of_graph (validate_node u.replacement)) _ first in
    (ground (arith, guard, eq_iff u.replacement.id u.node_id), named_nodes us rest)

named_edges :
    (us : List EdgeUpdate) → validate_each validate_edge_update us ≡ ok tt → Edges.AreNamed us
unfolding validate_each validate_edge_update
named_edges [] h = tt
named_edges (u ∷ us) h =
    let (first, rest) = >>-eq-ok (validate_edge_update u) _ h in
    (ground (arith, first, eq_iff u.replacement.id u.edge_id), named_edges us rest)

-- What a ChangeSet that passed its validators is known to be.
pub record IsValidChangeSet (c : ChangeSet) : Type 0 where
  pub named : Nodes.AreNamed c.nodes_updated
  pub edges_named : Edges.AreNamed c.edges_updated
  pub groups : HasDistinctGroups c
  pub conflicts : HasNoConflicts c

pub of_validate_changeset : (c : ChangeSet) → validate_changeset c ≡ ok tt → IsValidChangeSet c
unfolding validate_changeset
of_validate_changeset c h =
    let h1 = >>-eq-ok (validate_each (λ n. of_graph (validate_node n)) c.nodes_added) _ h in
    let h2 = >>-eq-ok (validate_each validate_node_update c.nodes_updated) _ h1.1 in
    let h3 = >>-eq-ok (validate_each validate_edge_update c.edges_updated) _ h2.1 in
    let h4 = >>-eq-ok (validate_each validate_confidence_change c.confidence_changes) _ h3.1 in
    let h5 =
      >>-eq-ok (validate_each validate_status_change c.implementation_status_changes) _ h4.1 in
    let (groups, conflicts) = (validate_mutations_iff c).0 h5.1 in
    record {
      named = named_nodes c.nodes_updated h2.0;
      edges_named = named_edges c.edges_updated h3.0;
      groups = groups;
      conflicts = conflicts;
    }

module _ (g : Graph) (c : ChangeSet) (g' : Graph) (valid : validate_changeset c ≡ ok tt)
    (applied : apply_changeset_with_case_effects g c ≡ ok g') where
  -- After a valid ChangeSet was applied, the node of each identity is the one that the groups say:
  -- the replacement or the added node where there is one and the old node elsewhere, marked
  -- superseded, reassessed and restated where a group says so; there is none where there was none
  -- and none was added.
  pub apply-find_node : (k : String) → find_node k g'.nodes ≡ map_option settled (node_after g c k)
  apply-find_node k =
      let v = of_validate_changeset c valid in
      find_node_lem g c g' k v.named v.groups.confidences v.groups.statuses applied

  -- After a valid ChangeSet was applied, the edge of each identity is the one that the groups say:
  -- the replacement or the added edge where there is one and the old edge elsewhere, superseded
  -- where a group says so; there is none where there was none and none was added.
  pub apply-find_edge : (k : String) → find_edge k g'.edges ≡ edge_after g c k
  apply-find_edge k = find_edge_lem g c g' k (of_validate_changeset c valid).edges_named applied

  ids-settled : (ns : List Node) → node_ids (map settled ns) ≡ node_ids ns
  ids-settled [] = refl
  ids-settled (n ∷ ns) = ap (◌∷◌ n.id) (ids-settled ns)

  -- The result of a valid ChangeSet is a consistent graph whose version is one more, that keeps its
  -- identity and registry, and whose nodes and edges stand in the order of their identities.
  pub apply_canonical :
      (g'.version ≡ suc g.version)
      × (g'.id ≡ g.id)
      × (g'.type_registry ≡ g.type_registry)
      × IsConsistent g'
      × IsAscending (node_ids g'.nodes)
      × IsAscending (edge_ids g'.edges)
  apply_canonical =
      let r = Run-of_ok g c g' applied in
      let v = of_validate_changeset c valid in
      (
        ap (λ (x : Graph). x.version) r.built.same,
        ap (λ (x : Graph). x.id) r.built.same,
        ap (λ (x : Graph). x.type_registry) r.built.same,
        (assert_invariants_iff g').0 r.built.sound,
        subst IsAscending
            (sym (
              ap (λ (x : Graph). node_ids x.nodes) r.built.same
              ∙ (ids-settled (sorted_values r.nodes)
                  ∙ names-sorted_values (λ n. n.id) r.nodes (IsKeyed-Run g c g' r v.named))))
            (sort-IsAscending (keys r.nodes)),
        subst IsAscending
            (sym (
              ap (λ (x : Graph). edge_ids x.edges) r.built.same
              ∙ names-sorted_values (λ e. e.id) r.edges
                  (IsKeyed-next_edges g c v.edges_named r.ran_edges)))
            (sort-IsAscending (keys r.edges)),
      )

-- A ChangeSet that was applied cannot be applied to the result again: it is refused as stale.
pub apply_once :
    (g : Graph) (c : ChangeSet) (g' : Graph)
    → apply_changeset_with_case_effects g c ≡ ok g'
    → apply_changeset_with_case_effects g' c
      ≡ err (stale_version c.baseline_graph_version (suc c.baseline_graph_version))
unfolding apply_changeset_with_case_effects
apply_once g c g' h =
    let r = Run-of_ok g c g' h in
    ground (arith, r.current, ap (λ (x : Graph). x.version) r.built.same)
