-- ===== src/Core/ChangeSet/Groups.antt =====
-- `ChangeSet.validate_mutations` of src/intent_engineering/core/models/changeset.py against what
-- it lets through.
use intent_engineer.Base.{
  String, true, not, ◌&&◌, List, [], ◌≡◌, ◌≢◌, ◌↔◌, arith, is_empty, Result, ok, ◌>>◌, raise_if,
  >>-eq-ok,
}
use intent_engineer.Base.Texts.{
  is_distinct, is_distinct_iff, Distinct, intersects, Apart, intersects_iff,
}
use intent_engineer.Core.Graph.{node_ids, edge_ids}
use intent_engineer.Core.ChangeSet.{
  ChangeSet, ChangeSetError, check_groups, check_conflicts, validate_mutations, is_semantic,
  update_ids, edge_update_ids, confidence_ids, status_ids, derived_updates, explicit_mutations,
}

-- Each group names a subject at most once.
pub record HasDistinctGroups (c : ChangeSet) : Type 0 where
  pub added : Distinct (node_ids c.nodes_added)
  pub updated : Distinct (update_ids c.nodes_updated)
  pub superseded : Distinct c.nodes_superseded
  pub edges_added : Distinct (edge_ids c.edges_added)
  pub edges_updated : Distinct (edge_update_ids c.edges_updated)
  pub edges_superseded : Distinct c.edges_superseded
  pub confidences : Distinct (confidence_ids c.confidence_changes)
  pub statuses : Distinct (status_ids c.implementation_status_changes)
  pub created : Distinct c.reconciliation_cases_created
  pub resolved : Distinct c.reconciliation_cases_resolved

-- No subject stands in two groups that would conflict, and a mutation has evidence.
pub record HasNoConflicts (c : ChangeSet) : Type 0 where
  pub add_update : Apart (node_ids c.nodes_added) (update_ids c.nodes_updated)
  pub add_supersede : Apart (node_ids c.nodes_added) c.nodes_superseded
  pub edge_add_update : Apart (edge_ids c.edges_added) (edge_update_ids c.edges_updated)
  pub edge_add_supersede : Apart (edge_ids c.edges_added) c.edges_superseded
  pub create_resolve : Apart c.reconciliation_cases_created c.reconciliation_cases_resolved
  pub update_supersede : Apart (update_ids c.nodes_updated) c.nodes_superseded
  pub edge_update_supersede : Apart (edge_update_ids c.edges_updated) c.edges_superseded
  pub derived_explicit : Apart (derived_updates c) (explicit_mutations c)
  pub backed : is_semantic c ≡ true → c.evidence_refs ≢ []

-- A guard `if not distinct(xs)` passes exactly the lists without repetition.
Distinct-guard :
    (xs : List String) (e : ChangeSetError)
    → (raise_if (not (is_distinct xs)) e ≡ ok tt) ↔ Distinct xs
Distinct-guard xs e = ground (arith, is_distinct_iff xs)

Apart-guard :
    (xs ys : List String) (e : ChangeSetError)
    → (raise_if (intersects xs ys) e ≡ ok tt) ↔ Apart xs ys
Apart-guard xs ys e =
    (λ h. (intersects_iff xs ys).0 (ground arith), λ h. ground (arith, (intersects_iff xs ys).1 h))

-- A sequence of two checks passes where both do.
both :
    {P Q : Type 0} (m k : Result ChangeSetError Unit)
    → (m ≡ ok tt) ↔ P
    → (k ≡ ok tt) ↔ Q
    → ((m >> k) ≡ ok tt) ↔ (P × Q)
both m k p q =
    (λ h. (p.0 (>>-eq-ok m k h).0, q.0 (>>-eq-ok m k h).1), λ h. (rw (p.1 h.0) (q.1 h.1)))

check_groups_iff : (c : ChangeSet) → (check_groups c ≡ ok tt) ↔ HasDistinctGroups c
unfolding check_groups
check_groups_iff c = (
  λ h.
      let (d1, (d2, (d3, (d4, (d5, (d6, (d7, (d8, (d9, d10))))))))) = parts.0 h in
      record {
        added = d1;
        updated = d2;
        superseded = d3;
        edges_added = d4;
        edges_updated = d5;
        edges_superseded = d6;
        confidences = d7;
        statuses = d8;
        created = d9;
        resolved = d10;
      },
  λ h. parts.1 (
    h.added,
    (
      h.updated,
      (
        h.superseded,
        (
          h.edges_added,
          (
            h.edges_updated,
            (h.edges_superseded, (h.confidences, (h.statuses, (h.created, h.resolved)))),
          ),
        ),
      ),
    ),
  ),
)
  where
    parts : (check_groups c ≡ ok tt) ↔ (
        Distinct (node_ids c.nodes_added)
        × (Distinct (update_ids c.nodes_updated)
            × (Distinct c.nodes_superseded
                × (Distinct (edge_ids c.edges_added)
                    × (Distinct (edge_update_ids c.edges_updated)
                        × (Distinct c.edges_superseded
                            × (Distinct (confidence_ids c.confidence_changes)
                                × (Distinct (status_ids c.implementation_status_changes)
                                    × (Distinct c.reconciliation_cases_created
                                        × Distinct c.reconciliation_cases_resolved)))))))))
    parts = both _ _ (Distinct-guard _ _) (
        both _ _ (Distinct-guard _ _) (
          both _ _ (Distinct-guard _ _) (
            both _ _ (Distinct-guard _ _) (
              both _ _ (Distinct-guard _ _) (
                both _ _ (Distinct-guard _ _) (
                  both _ _ (Distinct-guard _ _) (
                    both _ _ (Distinct-guard _ _)
                      (both _ _ (Distinct-guard _ _) (Distinct-guard _ _)))))))))

backed_guard :
    (c : ChangeSet) (e : ChangeSetError)
    → (raise_if (is_semantic c && is_empty c.evidence_refs) e ≡ ok tt)
      ↔ (is_semantic c ≡ true → c.evidence_refs ≢ [])
backed_guard c e = ground arith

check_conflicts_iff : (c : ChangeSet) → (check_conflicts c ≡ ok tt) ↔ HasNoConflicts c
unfolding check_conflicts
check_conflicts_iff c = (
  λ h.
      let (d1, (d2, (d3, (d4, (d5, (d6, (d7, (d8, d9)))))))) = parts.0 h in
      record {
        add_update = d1;
        add_supersede = d2;
        edge_add_update = d3;
        edge_add_supersede = d4;
        create_resolve = d5;
        update_supersede = d6;
        edge_update_supersede = d7;
        derived_explicit = d8;
        backed = d9;
      },
  λ h. parts.1 (
    h.add_update,
    (
      h.add_supersede,
      (
        h.edge_add_update,
        (
          h.edge_add_supersede,
          (
            h.create_resolve,
            (h.update_supersede, (h.edge_update_supersede, (h.derived_explicit, h.backed))),
          ),
        ),
      ),
    ),
  ),
)
  where
    parts : (check_conflicts c ≡ ok tt) ↔ (
        Apart (node_ids c.nodes_added) (update_ids c.nodes_updated)
        × (Apart (node_ids c.nodes_added) c.nodes_superseded
            × (Apart (edge_ids c.edges_added) (edge_update_ids c.edges_updated)
                × (Apart (edge_ids c.edges_added) c.edges_superseded
                    × (Apart c.reconciliation_cases_created c.reconciliation_cases_resolved
                        × (Apart (update_ids c.nodes_updated) c.nodes_superseded
                            × (Apart (edge_update_ids c.edges_updated) c.edges_superseded
                                × (Apart (derived_updates c) (explicit_mutations c)
                                    × (is_semantic c ≡ true → c.evidence_refs ≢ [])))))))))
    parts = both _ _ (Apart-guard _ _ _) (
        both _ _ (Apart-guard _ _ _) (
          both _ _ (Apart-guard _ _ _) (
            both _ _ (Apart-guard _ _ _) (
              both _ _ (Apart-guard _ _ _) (
                both _ _ (Apart-guard _ _ _) (
                  both _ _ (Apart-guard _ _ _)
                    (both _ _ (Apart-guard _ _ _) (backed_guard c _))))))))

-- `validate_mutations` accepts exactly the change sets in which no group names a subject twice, no
-- subject is in two conflicting groups (added, updated, superseded, or revised in confidence or
-- status beside one of these; cases created and resolved), and a mutation comes with evidence.
pub validate_mutations_iff :
    (c : ChangeSet) → (validate_mutations c ≡ ok tt) ↔ (HasDistinctGroups c × HasNoConflicts c)
unfolding validate_mutations
validate_mutations_iff c =
    both (check_groups c) (check_conflicts c) (check_groups_iff c) (check_conflicts_iff c)
