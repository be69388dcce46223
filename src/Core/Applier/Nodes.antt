-- ===== src/Core/Applier/Nodes.antt =====
-- What `apply_changeset_with_case_effects` of src/intent_engineering/core/graph/applier.py makes of
-- each node, identity by identity.
use intent_engineer.Base.{
  String, Option, none, some, List, [], ◌∷◌, map, ◌≡◌, refl, ◌∙◌, ap, arith, if◌then◌else◌, or_else,
  map_option, ok, >>=-eq-ok, All,
}
use intent_engineer.Base.Texts.{elem, Distinct}
use intent_engineer.Base.Dict.{Dict, lookup, find_last, lookup-index_onto, sorted_values}
use intent_engineer.Base.Dict.Keyed.{IsKeyed, IsKeyed-index_onto, find_last-sorted_values}
use intent_engineer.Core.Graph.{Node, Graph, Instant, validate_node}
use intent_engineer.Core.ChangeSet.{
  ChangeSet, NodeUpdate, ConfidenceChange, ImplementationStatusChange, confidence_ids, status_ids,
}
use intent_engineer.Core.Applier.{
  of_graph, node_index, next_nodes, add_nodes, update_nodes, superseded_node, with_confidence,
  with_status, apply_changeset_with_case_effects,
}
use intent_engineer.Core.Applier.Stages.{
  lookup-add_all, lookup-replace_all, lookup-mark_all, lookup-revise_all, IsKeyed-add_all,
  IsKeyed-replace_all, IsKeyed-mark_all, IsKeyed-revise_all,
}
use intent_engineer.Core.Applier.Outcome.{settled, validate_node-eq, of_graph-eq-ok, Run, Run-of_ok}

-- The node of an identity.
abbrev pub find_node : String → List Node → Option Node
find_node = find_last (λ n. n.id)

-- After the groups that add, replace and supersede.
abbrev pub explicit_node : Graph → ChangeSet → String → Option Node
explicit_node g c k =
    let stored =
      or_else (map_option (λ u. u.replacement) (find_last (λ u. u.node_id) k c.nodes_updated))
        (or_else (find_node k c.nodes_added) (find_node k g.nodes)) in
    if elem k c.nodes_superseded then map_option superseded_node stored else stored

-- After the confidence change of that identity, if there is one.
abbrev pub reassessed_node : ChangeSet → String → Option Node → Option Node
reassessed_node c k n = elim (find_last (λ x. x.subject_ref) k c.confidence_changes) [
  | none ↦ n
  | some x ↦ map_option (λ m. settled (with_confidence x m)) n
]

-- After the status change of that identity, if there is one.
abbrev pub restated_node : ChangeSet → String → Option Node → Option Node
restated_node c k n = elim (find_last (λ x. x.claim_id) k c.implementation_status_changes) [
  | none ↦ n
  | some x ↦ map_option (λ m. settled (with_status c.actor c.timestamp x m)) n
]

-- What a ChangeSet means for one node identity.
abbrev pub node_after : Graph → ChangeSet → String → Option Node
node_after g c k = restated_node c k (reassessed_node c k (explicit_node g c k))

or_else-none : (o : Option Node) → or_else o none ≡ o
or_else-none none = refl
or_else-none (some n) = refl

lookup-node_index : (k : String) (ns : List Node) → lookup k (node_index ns) ≡ find_node k ns
lookup-node_index k ns = ground (arith, lookup-index_onto (λ (n : Node). n.id) k [] ns)

lookup-next_nodes :
    (g : Graph) (c : ChangeSet) (k : String) {d : Dict Node}
    → next_nodes (node_index g.nodes) c ≡ ok d
    → lookup k d ≡ explicit_node g c k
unfolding next_nodes
lookup-next_nodes g c k h =
    let (added, add, h1) = >>=-eq-ok (add_nodes (node_index g.nodes) c.nodes_added) _ h in
    let (updated, update, supersede) = >>=-eq-ok (update_nodes added c.nodes_updated) _ h1 in
    ground (
      arith,
      lookup-mark_all superseded_node (λ n. refl) k updated c.nodes_superseded supersede,
      lookup-replace_all (λ (u : NodeUpdate). u.node_id) (λ u. u.replacement) k added
          c.nodes_updated update,
      lookup-add_all (λ (n : Node). n.id) k (node_index g.nodes) c.nodes_added add,
      lookup-node_index k g.nodes,
    )

revised_confidence :
    (x : ConfidenceChange) (n m : Node)
    → of_graph (validate_node (with_confidence x n)) ≡ ok m
    → m ≡ settled (with_confidence x n)
revised_confidence x n m h = validate_node-eq (with_confidence x n) m (of_graph-eq-ok _ h)

revised_status :
    (actor : String) (at : Instant) (x : ImplementationStatusChange) (n m : Node)
    → of_graph (validate_node (with_status actor at x n)) ≡ ok m
    → m ≡ settled (with_status actor at x n)
revised_status actor at x n m h = validate_node-eq (with_status actor at x n) m (of_graph-eq-ok _ h)

-- The replacements stand for the identities that they name.
abbrev pub AreNamed : List NodeUpdate → Type 0
AreNamed = All (λ u. u.replacement.id ≡ u.node_id)

IsKeyed-next_nodes :
    (g : Graph) (c : ChangeSet) {d : Dict Node}
    → AreNamed c.nodes_updated
    → next_nodes (node_index g.nodes) c ≡ ok d
    → IsKeyed (λ n. n.id) d
unfolding next_nodes
IsKeyed-next_nodes g c named h =
    let (added, add, h1) = >>=-eq-ok (add_nodes (node_index g.nodes) c.nodes_added) _ h in
    let (updated, update, supersede) = >>=-eq-ok (update_nodes added c.nodes_updated) _ h1 in
    IsKeyed-mark_all (λ n. n.id) superseded_node (λ n. refl) updated c.nodes_superseded supersede
      (IsKeyed-replace_all (λ n. n.id) (λ u. u.node_id) (λ u. u.replacement) added c.nodes_updated
        named update
        (IsKeyed-add_all (λ n. n.id) (node_index g.nodes) c.nodes_added add
          (IsKeyed-index_onto (λ n. n.id) [] g.nodes tt)))

pub IsKeyed-Run :
    (g : Graph) (c : ChangeSet) (g' : Graph) (r : Run g c g')
    → AreNamed c.nodes_updated
    → IsKeyed (λ n. n.id) r.nodes
IsKeyed-Run g c g' r named =
    IsKeyed-revise_all (λ x. x.claim_id) _ (λ x n. settled (with_status c.actor c.timestamp x n))
      (revised_status c.actor c.timestamp) (λ n. n.id) (λ x n. refl) r.reassessed
      c.implementation_status_changes r.ran_statuses
      (IsKeyed-revise_all (λ x. x.subject_ref) _ (λ x n. settled (with_confidence x n))
        revised_confidence (λ n. n.id) (λ x n. refl) r.explicit c.confidence_changes
        r.ran_confidences (IsKeyed-next_nodes g c named r.ran_nodes))

lookup-Run :
    (g : Graph) (c : ChangeSet) (g' : Graph) (r : Run g c g') (k : String)
    → Distinct (confidence_ids c.confidence_changes)
    → Distinct (status_ids c.implementation_status_changes)
    → lookup k r.nodes ≡ node_after g c k
lookup-Run g c g' r k confidences statuses = ground (
  arith,
  lookup-revise_all (λ x. x.claim_id) _ (λ x n. settled (with_status c.actor c.timestamp x n))
      (revised_status c.actor c.timestamp) k r.reassessed c.implementation_status_changes
      r.ran_statuses statuses,
  lookup-revise_all (λ x. x.subject_ref) _ (λ x n. settled (with_confidence x n)) revised_confidence
      k r.explicit c.confidence_changes r.ran_confidences confidences,
  lookup-next_nodes g c k r.ran_nodes,
)

find_node-settled :
    (k : String) (ns : List Node)
    → find_node k (map settled ns) ≡ map_option settled (find_node k ns)
find_node-settled k [] = refl
find_node-settled k (n ∷ ns) = ground (arith, find_node-settled k ns)

pub find_node_lem :
    (g : Graph) (c : ChangeSet) (g' : Graph) (k : String)
    → AreNamed c.nodes_updated
    → Distinct (confidence_ids c.confidence_changes)
    → Distinct (status_ids c.implementation_status_changes)
    → apply_changeset_with_case_effects g c ≡ ok g'
    → find_node k g'.nodes ≡ map_option settled (node_after g c k)
find_node_lem g c g' k named confidences statuses h =
    let r = Run-of_ok g c g' h in
    ap (λ (x : Graph). find_node k x.nodes) r.built.same
    ∙ (find_node-settled k (sorted_values r.nodes)
        ∙ (ap (map_option settled)
              (find_last-sorted_values (λ n. n.id) r.nodes k (IsKeyed-Run g c g' r named))
            ∙ ap (map_option settled) (lookup-Run g c g' r k confidences statuses)))
