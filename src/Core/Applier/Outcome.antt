-- ===== src/Core/Applier/Outcome.antt =====
-- A successful `apply_changeset_with_case_effects` of
-- src/intent_engineering/core/graph/applier.py, taken apart into the values of its loops.
use intent_engineer.Base.{
  suc, not, List, [], ◌∷◌, map, ◌≡◌, sym, ◌∙◌, ap, arith, eqb, Result, ok, err, >>=-eq-ok, >>-eq-ok,
  raise_if-eq-ok, ok_inj,
}
use intent_engineer.Base.Dict.{Dict, sorted_values}
use intent_engineer.Core.Graph.{
  Node, Edge, Graph, GraphError, validate_node, validate_nodes, validate_graph, assert_invariants,
  confidence_allowed, confidence_out_of_range,
}
use intent_engineer.Core.Graph.Types.{normalize_known_type}
use intent_engineer.Core.ChangeSet.{ChangeSet}
use intent_engineer.Core.Applier.{
  stale_version, of_graph, node_index, edge_index, next_nodes, next_edges, revise_confidences,
  revise_statuses, check_confidence_priors, check_status_priors, apply_changeset_with_case_effects,
}

-- A node as its validators leave it: a built-in type that was written as a text is that type.
abbrev pub settled : Node → Node
settled n = record n { node_type = normalize_known_type n.node_type }

pub validate_node-eq : (n m : Node) → validate_node n ≡ ok m → m ≡ settled n
unfolding validate_node
validate_node-eq n m h = sym (
    ok_inj
      (raise_if-eq-ok (not (confidence_allowed n.intent_fidelity_confidence))
        confidence_out_of_range (ok (settled n)) h).1)

validate_nodes-eq :
    (ns : List Node) {ms : List Node} → validate_nodes ns ≡ ok ms → ms ≡ map settled ns
unfolding validate_nodes
validate_nodes-eq [] h = sym (ok_inj h)
validate_nodes-eq (n ∷ ns) h =
    let (m, first, more) = >>=-eq-ok (validate_node n) _ h in
    let (ms, second, last) = >>=-eq-ok (validate_nodes ns) _ more in
    ground (arith, validate_node-eq n m first, validate_nodes-eq ns second, last)

-- What a validated graph is, and that it passed the invariants.
pub record IsValidated (g g' : Graph) : Type 0 where
  pub same : g' ≡ record g { nodes = map settled g.nodes }
  pub sound : assert_invariants g' ≡ ok tt

pub of_validate_graph : (g : Graph) {g' : Graph} → validate_graph g ≡ ok g' → IsValidated g g'
unfolding validate_graph
of_validate_graph g {g'} h =
    let (ns, nodes, more) = >>=-eq-ok (validate_nodes g.nodes) _ h in
    let (sound, last) = >>-eq-ok (assert_invariants (record g { nodes = ns })) _ more in
    record {
      same =
          sym (ok_inj last) ∙ ap (λ ms. record g { nodes = ms }) (validate_nodes-eq g.nodes nodes);
      sound = ap assert_invariants (sym (ok_inj last)) ∙ sound;
    }

pub of_graph-eq-ok : {A : Type 0} (m : Result GraphError A) {a : A} → of_graph m ≡ ok a → m ≡ ok a
of_graph-eq-ok (ok b) h = ap ok (ok_inj h)
of_graph-eq-ok (err e) h = cc

-- The values of the loops of a run from `g` to `g'`.
pub record Run (g : Graph) (c : ChangeSet) (g' : Graph) : Type 0 where
  pub explicit : Dict Node
  pub edges : Dict Edge
  pub reassessed : Dict Node
  pub nodes : Dict Node
  pub current : c.baseline_graph_version ≡ g.version
  pub confidences_checked :
      check_confidence_priors (node_index g.nodes) c.confidence_changes ≡ ok tt
  pub statuses_checked :
      check_status_priors (node_index g.nodes) c.implementation_status_changes ≡ ok tt
  pub ran_nodes : next_nodes (node_index g.nodes) c ≡ ok explicit
  pub ran_edges : next_edges (edge_index g.edges) c ≡ ok edges
  pub ran_confidences : revise_confidences explicit c.confidence_changes ≡ ok reassessed
  pub ran_statuses :
      revise_statuses c.actor c.timestamp reassessed c.implementation_status_changes ≡ ok nodes
  pub built :
      IsValidated
        (record g {
          version = suc g.version;
          nodes = sorted_values nodes;
          edges = sorted_values edges;
        })
        g'

pub Run-of_ok :
    (g : Graph) (c : ChangeSet) (g' : Graph)
    → apply_changeset_with_case_effects g c ≡ ok g'
    → Run g c g'
unfolding apply_changeset_with_case_effects
Run-of_ok g c g' h =
    let fresh =
      raise_if-eq-ok (not (eqb c.baseline_graph_version g.version))
        (stale_version c.baseline_graph_version g.version) _ h in
    let confidences =
      >>-eq-ok (check_confidence_priors (node_index g.nodes) c.confidence_changes) _ fresh.1 in
    let statuses =
      >>-eq-ok (check_status_priors (node_index g.nodes) c.implementation_status_changes) _
        confidences.1 in
    let (explicit, ran_nodes, h1) = >>=-eq-ok (next_nodes (node_index g.nodes) c) _ statuses.1 in
    let (edges, ran_edges, h2) = >>=-eq-ok (next_edges (edge_index g.edges) c) _ h1 in
    let (reassessed, ran_confidences, h3) =
      >>=-eq-ok (revise_confidences explicit c.confidence_changes) _ h2 in
    let (nodes, ran_statuses, h4) =
      >>=-eq-ok (revise_statuses c.actor c.timestamp reassessed c.implementation_status_changes) _
        h3 in
    record {
      explicit = explicit;
      edges = edges;
      reassessed = reassessed;
      nodes = nodes;
      current = ground (arith, fresh.0);
      confidences_checked = confidences.0;
      statuses_checked = statuses.0;
      ran_nodes = ran_nodes;
      ran_edges = ran_edges;
      ran_confidences = ran_confidences;
      ran_statuses = ran_statuses;
      built = of_validate_graph _ (of_graph-eq-ok _ h4);
    }
