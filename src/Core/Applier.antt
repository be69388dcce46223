-- ===== src/Core/Applier.antt =====
-- The pure application of a ChangeSet: src/intent_engineering/core/graph/applier.py.
pub mod Stages
pub mod Nodes
pub mod Edges
pub mod Outcome
pub mod Frame
pub mod Groups
pub mod Errors
pub mod NoKeyError
use intent_engineer.Base.{
  map_err, ℕ, suc, String, Bool, not, ◌||◌, Option, none, some, List, [], ◌∷◌, ◌++◌, eqb, is_empty,
  Result, ok, err, ◌>>=◌, ◌>>◌, raise_if,
}
use intent_engineer.Base.Texts.{dedup}
use intent_engineer.Base.Dict.{Dict, lookup, contains, insert, index_onto, sorted_values}
use intent_engineer.Core.Vocabulary.{ImplementationStatus, unknown, same_status}
use intent_engineer.Core.Graph.{
  Confidence, Instant, Node, Edge, Graph, GraphError, validate_node, validate_graph,
}
use intent_engineer.Core.ChangeSet.{
  ChangeSet, NodeUpdate, EdgeUpdate, ConfidenceChange, ImplementationStatusChange,
}

-- The exceptions. `key_error` is Python's own, from `nodes[key]`.
pub data ApplyError : Type 0 where
  requires_executor : ApplyError
  stale_version : ℕ → ℕ → ApplyError
  duplicate_identity unknown_identity contradictory key_error : String → ApplyError
  invalid : GraphError → ApplyError

abbrev pub of_graph : {A : Type 0} → Result GraphError A → Result ApplyError A
of_graph m = map_err invalid m

-- `current = nodes.get(k)`, where `None` raises
abbrev pub require : {A : Type 0} → Option A → ApplyError → Result ApplyError A
require none e = err e
require (some a) e = ok a

-- `confidence == prior`, where `None` is no confidence
abbrev pub has_confidence : Option Confidence → Confidence → Bool
has_confidence none prior = Bool.false
has_confidence (some c) prior = eqb c prior

-- `status or ImplementationStatus.UNKNOWN`
abbrev pub status_or_unknown : Option ImplementationStatus → ImplementationStatus
status_or_unknown none = unknown
status_or_unknown (some s) = s

-- The first loop: the prior confidences that the changes declare.
unfoldable pub check_confidence_priors : Dict Node → List ConfidenceChange → Result ApplyError Unit
check_confidence_priors nodes [] = ok tt
check_confidence_priors nodes (c ∷ cs) =
    require (lookup c.subject_ref nodes) (unknown_identity c.subject_ref) >>= λ current.
    raise_if (not (has_confidence current.intent_fidelity_confidence c.prior_confidence))
      (contradictory c.subject_ref)
    >> check_confidence_priors nodes cs

-- The second loop: the prior implementation statuses.
unfoldable pub check_status_priors :
    Dict Node → List ImplementationStatusChange → Result ApplyError Unit
check_status_priors nodes [] = ok tt
check_status_priors nodes (c ∷ cs) =
    require (lookup c.claim_id nodes) (unknown_identity c.claim_id) >>= λ current.
    raise_if (not (same_status (status_or_unknown current.implementation_status) c.prior))
      (contradictory c.claim_id)
    >> check_status_priors nodes cs

module _ {V : Type 0} where
  -- `for item in added`: an identity that is there already is refused.
  unfoldable pub add_all : (V → String) → Dict V → List V → Result ApplyError (Dict V)
  add_all name d [] = ok d
  add_all name d (v ∷ vs) =
      raise_if (contains (name v) d) (duplicate_identity (name v))
      >> add_all name (insert (name v) v d) vs

  -- `for update in updated`: the identity must be there, and gets the replacement.
  unfoldable pub replace_all :
      {U : Type 0} → (U → String) → (U → V) → Dict V → List U → Result ApplyError (Dict V)
  replace_all name new d [] = ok d
  replace_all name new d (u ∷ us) =
      raise_if (not (contains (name u) d)) (unknown_identity (name u))
      >> replace_all name new (insert (name u) (new u) d) us

  -- `for id in superseded`: the identity must be there, and its record is marked.
  unfoldable pub mark_all : (V → V) → Dict V → List String → Result ApplyError (Dict V)
  mark_all mark d [] = ok d
  mark_all mark d (k ∷ ks) = require (lookup k d) (unknown_identity k) >>= λ current.
      mark_all mark (insert k (mark current) d) ks

  -- `for change in changes: d[k] = Node.model_validate(revised d[k])`
  unfoldable pub revise_all :
      {C : Type 0}
      → (C → String)
      → (C → V → Result ApplyError V)
      → Dict V
      → List C
      → Result ApplyError (Dict V)
  revise_all name revise d [] = ok d
  revise_all name revise d (c ∷ cs) =
      require (lookup (name c) d) (key_error (name c)) >>= λ current.
      revise c current >>= λ revised. revise_all name revise (insert (name c) revised d) cs

abbrev pub add_nodes : Dict Node → List Node → Result ApplyError (Dict Node)
add_nodes = add_all (λ n. n.id)

abbrev pub update_nodes : Dict Node → List NodeUpdate → Result ApplyError (Dict Node)
update_nodes = replace_all (λ u. u.node_id) (λ u. u.replacement)

abbrev pub superseded_node : Node → Node
superseded_node n = record n { status = "superseded" }

abbrev pub supersede_nodes : Dict Node → List String → Result ApplyError (Dict Node)
supersede_nodes = mark_all superseded_node

abbrev pub add_edges : Dict Edge → List Edge → Result ApplyError (Dict Edge)
add_edges = add_all (λ e. e.id)

abbrev pub update_edges : Dict Edge → List EdgeUpdate → Result ApplyError (Dict Edge)
update_edges = replace_all (λ u. u.edge_id) (λ u. u.replacement)

abbrev pub superseded_edge : Edge → Edge
superseded_edge e = record e { status = "superseded" }

abbrev pub supersede_edges : Dict Edge → List String → Result ApplyError (Dict Edge)
supersede_edges = mark_all superseded_edge

-- The fields that a confidence change writes.
abbrev pub with_confidence : ConfidenceChange → Node → Node
with_confidence c n = record n {
  intent_fidelity_confidence = some c.new_confidence;
  confidence_basis = some c.reason;
  last_reassessed_at = some c.timestamp;
  last_modified_by = c.actor;
  last_modified_at = c.timestamp;
  evidence_refs = dedup (n.evidence_refs ++ c.evidence_refs);
}

-- The fields that a status change writes, with the author and time of the whole ChangeSet.
abbrev pub with_status : String → Instant → ImplementationStatusChange → Node → Node
with_status actor at c n = record n {
  implementation_status = some c.next;
  last_modified_by = actor;
  last_modified_at = at;
  evidence_refs = dedup (n.evidence_refs ++ c.evidence_refs);
}

abbrev pub revise_confidences : Dict Node → List ConfidenceChange → Result ApplyError (Dict Node)
revise_confidences =
    revise_all (λ c. c.subject_ref) (λ c n. of_graph (validate_node (with_confidence c n)))

abbrev pub revise_statuses :
    String → Instant → Dict Node → List ImplementationStatusChange → Result ApplyError (Dict Node)
revise_statuses actor at =
    revise_all (λ c. c.claim_id) (λ c n. of_graph (validate_node (with_status actor at c n)))

-- The loops over the nodes, on the dict that they share.
unfoldable pub next_nodes : Dict Node → ChangeSet → Result ApplyError (Dict Node)
unfolding add_all replace_all mark_all revise_all check_confidence_priors check_status_priors
next_nodes nodes c = do
  added ← add_nodes nodes c.nodes_added
  updated ← update_nodes added c.nodes_updated
  supersede_nodes updated c.nodes_superseded

-- The loops over the edges.
unfoldable pub next_edges : Dict Edge → ChangeSet → Result ApplyError (Dict Edge)
unfolding add_all replace_all mark_all
next_edges edges c = do
  added ← add_edges edges c.edges_added
  updated ← update_edges added c.edges_updated
  supersede_edges updated c.edges_superseded

-- `{item.id: item for item in graph.nodes}`
abbrev pub node_index : List Node → Dict Node
node_index = index_onto (λ n. n.id) []

abbrev pub edge_index : List Edge → Dict Edge
edge_index = index_onto (λ e. e.id) []

-- `apply_changeset_with_case_effects`
unfoldable pub apply_changeset_with_case_effects : Graph → ChangeSet → Result ApplyError Graph
unfolding next_nodes next_edges
apply_changeset_with_case_effects g c = do
  raise_if (not (eqb c.baseline_graph_version g.version))
      (stale_version c.baseline_graph_version g.version)
  check_confidence_priors (node_index g.nodes) c.confidence_changes
  check_status_priors (node_index g.nodes) c.implementation_status_changes
  explicit ← next_nodes (node_index g.nodes) c
  edges ← next_edges (edge_index g.edges) c
  reassessed ← revise_confidences explicit c.confidence_changes
  nodes ← revise_statuses c.actor c.timestamp reassessed c.implementation_status_changes
  of_graph (
      validate_graph (record g {
        version = suc g.version;
        nodes = sorted_values nodes;
        edges = sorted_values edges;
      }))

-- `apply_changeset`
unfoldable pub apply_changeset : Graph → ChangeSet → Result ApplyError Graph
unfolding apply_changeset_with_case_effects
apply_changeset g c = do
  raise_if
      (not (is_empty c.reconciliation_cases_created)
        || not (is_empty c.reconciliation_cases_resolved))
      requires_executor
  apply_changeset_with_case_effects g c
