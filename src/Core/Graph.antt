-- ===== src/Core/Graph.antt =====
-- The canonical graph: src/intent_engineering/core/models/graph.py. An instant is a number of
-- microseconds. A confidence is the bit pattern of its IEEE double: between 0.0 and 1.0 these are
-- ordered as the numbers are (-0.0 is read as 0.0). What pydantic checks of a field's type is the
-- field's type here, but the bounds of a confidence are a test.
pub mod Types
pub mod Invariants
use intent_engineer.Base.{
  ℕ, String, Bool, true, not, ◌&&◌, ◌||◌, Option, none, some, List, [], ◌∷◌, map, ◌==◌, leb, ltb,
  if◌then◌else◌, is_none, is_empty, keep_if, Result, ok, err, ◌>>=◌, ◌>>◌, raise_if,
}
use intent_engineer.Base.Texts.{elem, count}
use intent_engineer.Base.Sorted.{sorted_set}
use intent_engineer.Core.Vocabulary.{RelationType, SourceMode, ImplementationStatus}
pub use Types.{NodeKind, TypeRegistry}
unfoldable pub use Types.{assert_registered}

abbrev pub Instant : Type 0
Instant = ℕ

abbrev pub Confidence : Type 0
Confidence = ℕ

-- The bit pattern of 1.0.
abbrev pub confidence_one : Confidence
confidence_one = 0x3ff0000000000000

pub record Node : Type 0 where
  pub id : String
  pub node_type : NodeKind
  pub label : String
  pub status : String
  pub created_by : String
  pub created_at : Instant
  pub last_modified_by : String
  pub last_modified_at : Instant
  pub source_mode : Option SourceMode
  pub intent_fidelity_confidence : Option Confidence
  pub confidence_basis : Option String
  pub last_reassessed_at : Option Instant
  pub implementation_status : Option ImplementationStatus
  pub evidence_refs : List String

pub record Edge : Type 0 where
  pub id : String
  pub from_id : String
  pub relation : RelationType
  pub to_id : String
  pub status : String
  pub created_by : String
  pub created_at : Instant
  pub last_modified_by : String
  pub last_modified_at : Instant
  pub external : Bool

pub record Graph : Type 0 where
  pub id : String
  pub version : ℕ
  pub schema_version : String
  pub name : Option String
  pub purpose : Option String
  pub created_at : Option ℕ
  pub source_spec : Option String
  pub nodes : List Node
  pub edges : List Edge
  pub type_registry : TypeRegistry

abbrev pub node_ids : List Node → List String
node_ids = map (λ n. n.id)

abbrev pub edge_ids : List Edge → List String
edge_ids = map (λ e. e.id)

-- The `ValueError`s of the validators, each with the identity that it names.
pub data GraphError : Type 0 where
  duplicate_node duplicate_edge missing_node lacks_provenance : String → GraphError
  not_namespaced unregistered : String → GraphError
  confidence_out_of_range : GraphError

-- `sorted({item for item in ids if ids.count(item) > 1})`
unfoldable pub duplicates : List String → List String
unfolding sorted_set
duplicates ids = sorted_set (keep_if (λ k. ltb 1 (count k ids)) ids)

-- `if duplicates: raise error(duplicates[0])`
abbrev pub raise_first : List String → (String → GraphError) → Result GraphError Unit
raise_first [] error = ok tt
raise_first (k ∷ ks) error = err (error k)

-- The registry's answer as an exception of the graph's.
abbrev pub of_registry : Result Types.TypeError Unit → Result GraphError Unit
of_registry (ok u) = ok tt
of_registry (err (Types.not_namespaced s)) = err (not_namespaced s)
of_registry (err (Types.unregistered s)) = err (unregistered s)

-- The loop over `self.nodes`.
unfoldable pub check_nodes : TypeRegistry → List Node → Result GraphError Unit
check_nodes registry [] = ok tt
check_nodes registry (n ∷ ns) =
    of_registry (assert_registered registry n.node_type)
    >> raise_if (not (is_none n.source_mode) && is_empty n.evidence_refs) (lacks_provenance n.id)
    >> check_nodes registry ns

-- The loop over `self.edges`.
unfoldable pub check_edges : List String → List Edge → Result GraphError Unit
check_edges known [] = ok tt
check_edges known (e ∷ es) =
    raise_if (not (elem e.from_id known)) (missing_node e.from_id)
    >> raise_if (not e.external && not (elem e.to_id known)) (missing_node e.to_id)
    >> check_edges known es

-- `Graph.assert_invariants`
unfoldable pub assert_invariants : Graph → Result GraphError Unit
unfolding duplicates check_nodes check_edges
assert_invariants g = do
  raise_first (duplicates (node_ids g.nodes)) duplicate_node
  raise_first (duplicates (edge_ids g.edges)) duplicate_edge
  check_nodes g.type_registry g.nodes
  check_edges (node_ids g.nodes) g.edges

-- The bounds that `Confidence` puts on an optional field.
abbrev pub confidence_allowed : Option Confidence → Bool
confidence_allowed none = true
confidence_allowed (some c) = leb c confidence_one

-- `Node.model_validate` of a node's own fields
unfoldable pub validate_node : Node → Result GraphError Node
validate_node n =
    raise_if (not (confidence_allowed n.intent_fidelity_confidence)) confidence_out_of_range
    >> ok (record n { node_type = Types.normalize_known_type n.node_type })

-- The validators of every node, in order.
unfoldable pub validate_nodes : List Node → Result GraphError (List Node)
unfolding validate_node
validate_nodes [] = ok []
validate_nodes (n ∷ ns) = do n' ← validate_node n; ns' ← validate_nodes ns; ok (n' ∷ ns')

-- `Graph.model_validate` of a graph's own fields
unfoldable pub validate_graph : Graph → Result GraphError Graph
unfolding validate_nodes assert_invariants
validate_graph g = do
  nodes ← validate_nodes g.nodes
  let g' = record g { nodes = nodes }
  assert_invariants g'
  ok g'
