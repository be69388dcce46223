-- ===== src/Core/Applier/Edges.antt =====
-- What `apply_changeset_with_case_effects` of src/intent_engineering/core/graph/applier.py makes of
-- each edge, identity by identity.
use intent_engineer.Base.{
  String, Option, List, [], ◌≡◌, refl, ◌∙◌, ap, arith, if◌then◌else◌, or_else, map_option, ok,
  >>=-eq-ok, All,
}
use intent_engineer.Base.Texts.{elem}
use intent_engineer.Base.Dict.{Dict, lookup, find_last, lookup-index_onto}
use intent_engineer.Base.Dict.Keyed.{IsKeyed, IsKeyed-index_onto, find_last-sorted_values}
use intent_engineer.Core.Graph.{Edge, Graph}
use intent_engineer.Core.ChangeSet.{ChangeSet, EdgeUpdate}
use intent_engineer.Core.Applier.{
  edge_index, next_edges, add_edges, update_edges, superseded_edge,
  apply_changeset_with_case_effects,
}
use intent_engineer.Core.Applier.Stages.{
  lookup-add_all, lookup-replace_all, lookup-mark_all, IsKeyed-add_all, IsKeyed-replace_all,
  IsKeyed-mark_all,
}
use intent_engineer.Core.Applier.Outcome.{Run-of_ok}

-- The edge of an identity.
abbrev pub find_edge : String → List Edge → Option Edge
find_edge = find_last (λ e. e.id)

-- What a ChangeSet means for one edge identity.
abbrev pub edge_after : Graph → ChangeSet → String → Option Edge
edge_after g c k =
    let stored =
      or_else (map_option (λ u. u.replacement) (find_last (λ u. u.edge_id) k c.edges_updated))
        (or_else (find_edge k c.edges_added) (find_edge k g.edges)) in
    if elem k c.edges_superseded then map_option superseded_edge stored else stored

lookup-edge_index : (k : String) (es : List Edge) → lookup k (edge_index es) ≡ find_edge k es
lookup-edge_index k es = ground (arith, lookup-index_onto (λ (e : Edge). e.id) k [] es)

lookup-next_edges :
    (g : Graph) (c : ChangeSet) (k : String) {d : Dict Edge}
    → next_edges (edge_index g.edges) c ≡ ok d
    → lookup k d ≡ edge_after g c k
unfolding next_edges
lookup-next_edges g c k h =
    let (added, add, h1) = >>=-eq-ok (add_edges (edge_index g.edges) c.edges_added) _ h in
    let (updated, update, supersede) = >>=-eq-ok (update_edges added c.edges_updated) _ h1 in
    ground (
      arith,
      lookup-mark_all superseded_edge (λ e. refl) k updated c.edges_superseded supersede,
      lookup-replace_all (λ (u : EdgeUpdate). u.edge_id) (λ u. u.replacement) k added
          c.edges_updated update,
      lookup-add_all (λ (e : Edge). e.id) k (edge_index g.edges) c.edges_added add,
      lookup-edge_index k g.edges,
    )

-- The replacements stand for the identities that they name.
abbrev pub AreNamed : List EdgeUpdate → Type 0
AreNamed = All (λ u. u.replacement.id ≡ u.edge_id)

pub IsKeyed-next_edges :
    (g : Graph) (c : ChangeSet) {d : Dict Edge}
    → AreNamed c.edges_updated
    → next_edges (edge_index g.edges) c ≡ ok d
    → IsKeyed (λ e. e.id) d
unfolding next_edges
IsKeyed-next_edges g c named h =
    let (added, add, h1) = >>=-eq-ok (add_edges (edge_index g.edges) c.edges_added) _ h in
    let (updated, update, supersede) = >>=-eq-ok (update_edges added c.edges_updated) _ h1 in
    IsKeyed-mark_all (λ e. e.id) superseded_edge (λ e. refl) updated c.edges_superseded supersede
      (IsKeyed-replace_all (λ e. e.id) (λ u. u.edge_id) (λ u. u.replacement) added c.edges_updated
        named update
        (IsKeyed-add_all (λ e. e.id) (edge_index g.edges) c.edges_added add
          (IsKeyed-index_onto (λ e. e.id) [] g.edges tt)))

pub find_edge_lem :
    (g : Graph) (c : ChangeSet) (g' : Graph) (k : String)
    → AreNamed c.edges_updated
    → apply_changeset_with_case_effects g c ≡ ok g'
    → find_edge k g'.edges ≡ edge_after g c k
find_edge_lem g c g' k named h =
    let r = Run-of_ok g c g' h in
    ap (λ (x : Graph). find_edge k x.edges) r.built.same
    ∙ (find_last-sorted_values (λ e. e.id) r.edges k (IsKeyed-next_edges g c named r.ran_edges)
        ∙ lookup-next_edges g c k r.ran_edges)
