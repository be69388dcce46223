-- ===== src/Core/Applier/Groups.antt =====
-- The groups of a ChangeSet do not interfere in `apply_changeset_with_case_effects` of
-- src/intent_engineering/core/graph/applier.py, and nothing is lost.
use intent_engineer.Base.{
  String, true, false, ◌||◌, some, ◌++◌, ◌≡◌, ◌∙◌, arith, ap, map_option, is_some, ok,
}
use intent_engineer.Base.Texts.{elem, elem-append, Apart}
use intent_engineer.Base.Dict.{find_last, is_some-find_last}
use intent_engineer.Core.Graph.{Node, Graph, node_ids}
use intent_engineer.Core.ChangeSet.{
  ChangeSet, NodeUpdate, ConfidenceChange, ImplementationStatusChange, validate_changeset,
  confidence_ids, status_ids, update_ids, derived_updates, explicit_mutations,
}
use intent_engineer.Core.Applier.{superseded_node, apply_changeset_with_case_effects}
use intent_engineer.Core.Applier.Outcome.{settled}
use intent_engineer.Core.Applier.Nodes.{find_node}
use intent_engineer.Core.Applier.Frame.{of_validate_changeset, apply-find_node}

elem-explicit :
    (c : ChangeSet) (k : String)
    → elem k (explicit_mutations c) ≡ (
        elem k (node_ids c.nodes_added)
        || (elem k (update_ids c.nodes_updated) || elem k c.nodes_superseded))
elem-explicit c k = ground (
  arith,
  elem-append k (node_ids c.nodes_added) (update_ids c.nodes_updated ++ c.nodes_superseded),
  elem-append k (update_ids c.nodes_updated) c.nodes_superseded,
)

-- An identity that is added, replaced or superseded is not reassessed or restated as well.
not_derived :
    (c : ChangeSet) (k : String)
    → Apart (derived_updates c) (explicit_mutations c)
    → elem k (explicit_mutations c) ≡ true
    → (elem k (confidence_ids c.confidence_changes) ≡ false)
      × (elem k (status_ids c.implementation_status_changes) ≡ false)
not_derived c k apart h =
    let ids = confidence_ids c.confidence_changes in
    let claims = status_ids c.implementation_status_changes in
    (
      ground (arith, apart k, elem-append k ids claims),
      ground (arith, apart k, elem-append k ids claims),
    )

module _ (g : Graph) (c : ChangeSet) (g' : Graph) (valid : validate_changeset c ≡ ok tt)
    (applied : apply_changeset_with_case_effects g c ≡ ok g') (k : String) where
  -- Where a valid ChangeSet was applied, the node under an identity that the ChangeSet supersedes is
  -- the old node with the status superseded: no other group changes it.
  pub apply_supersedes :
      elem k c.nodes_superseded ≡ true
      → find_node k g'.nodes ≡ map_option (λ n. settled (superseded_node n)) (find_node k g.nodes)
  apply_supersedes named =
      let v = of_validate_changeset c valid in
      let derived =
        not_derived c k v.conflicts.derived_explicit (ground (arith, named, elem-explicit c k)) in
      apply-find_node g c g' valid applied k
      ∙ ground (
        arith,
        named,
        derived.0,
        derived.1,
        v.conflicts.add_supersede k,
        v.conflicts.update_supersede k,
        is_some-find_last (λ (n : Node). n.id) k c.nodes_added,
        is_some-find_last (λ (u : NodeUpdate). u.node_id) k c.nodes_updated,
        is_some-find_last (λ (x : ConfidenceChange). x.subject_ref) k c.confidence_changes,
        is_some-find_last (λ (x : ImplementationStatusChange). x.claim_id) k
            c.implementation_status_changes,
      )

  -- Where a valid ChangeSet was applied, the node under an identity that the ChangeSet updates is
  -- the replacement.
  pub apply_replaces :
      (u : NodeUpdate)
      → find_last (λ x. x.node_id) k c.nodes_updated ≡ some u
      → find_node k g'.nodes ≡ some (settled u.replacement)
  apply_replaces u named =
      let v = of_validate_changeset c valid in
      let updated = is_some-find_last (λ (x : NodeUpdate). x.node_id) k c.nodes_updated in
      let derived =
        not_derived c k v.conflicts.derived_explicit
          (ground (arith, named, updated, elem-explicit c k)) in
      apply-find_node g c g' valid applied k
      ∙ ground (
        arith,
        named,
        updated,
        derived.0,
        derived.1,
        v.conflicts.update_supersede k,
        is_some-find_last (λ (x : ConfidenceChange). x.subject_ref) k c.confidence_changes,
        is_some-find_last (λ (x : ImplementationStatusChange). x.claim_id) k
            c.implementation_status_changes,
      )

  -- Where a valid ChangeSet was applied, the node under an identity that no group names, neither
  -- as added, updated or superseded nor with a new confidence or status, is what it was.
  pub apply_untouched :
      elem k (explicit_mutations c) ≡ false
      → elem k (derived_updates c) ≡ false
      → find_node k g'.nodes ≡ map_option settled (find_node k g.nodes)
  apply_untouched explicit derived =
      apply-find_node g c g' valid applied k
      ∙ ground (
        arith,
        explicit,
        derived,
        elem-explicit c k,
        elem-append k (confidence_ids c.confidence_changes)
            (status_ids c.implementation_status_changes),
        is_some-find_last (λ (n : Node). n.id) k c.nodes_added,
        is_some-find_last (λ (u : NodeUpdate). u.node_id) k c.nodes_updated,
        is_some-find_last (λ (x : ConfidenceChange). x.subject_ref) k c.confidence_changes,
        is_some-find_last (λ (x : ImplementationStatusChange). x.claim_id) k
            c.implementation_status_changes,
      )

  -- Where a valid ChangeSet was applied, a node identity is there exactly if it was there before or
  -- the ChangeSet adds or updates it: no node is removed.
  pub apply_keeps : is_some (find_node k g'.nodes) ≡ (
      is_some (find_node k g.nodes)
      || (elem k (node_ids c.nodes_added) || elem k (update_ids c.nodes_updated)))
  apply_keeps =
      ap is_some (apply-find_node g c g' valid applied k)
      ∙ ground (
        arith,
        is_some-find_last (λ (n : Node). n.id) k c.nodes_added,
        is_some-find_last (λ (u : NodeUpdate). u.node_id) k c.nodes_updated,
      )
