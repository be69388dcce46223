-- ===== src/Storage/History.antt =====
-- The file of applied ChangeSets: src/intent_engineering/storage/jsonl/history_store.py. The file is
-- the list of its lines, as the JSON reader returns them; the index is made of it in every method.
pub mod Subjects
use intent_engineer.Base.{
  ℕ, suc, String, Option, none, some, List, [], ◌∷◌, ◌++◌, map, Result, ok, err, ◌>>=◌, ◌>>◌,
}
use intent_engineer.Base.Texts.{dedup}
use intent_engineer.Base.Dict.{Dict, lookup, insert}
use intent_engineer.Core.Graph.{node_ids, edge_ids}
use intent_engineer.Core.ChangeSet.{
  ChangeSet, ChangeSetError, validate_changeset, update_ids, edge_update_ids,
}

-- `_subjects`
unfoldable pub subjects : ChangeSet → List String
subjects c =
    node_ids c.nodes_added
    ++ (update_ids c.nodes_updated
        ++ (c.nodes_superseded
            ++ (edge_ids c.edges_added
                ++ (edge_update_ids c.edges_updated
                    ++ (c.edges_superseded
                        ++ (map (λ x. x.subject_ref) c.confidence_changes
                            ++ (map (λ x. x.claim_id) c.implementation_status_changes
                                ++ (c.reconciliation_cases_created
                                    ++ c.reconciliation_cases_resolved))))))))

-- `_by_subject`, a default dict of lists
abbrev pub BySubject : Type 0
BySubject = Dict (List ChangeSet)

-- `self._by_subject.get(k, ())`
abbrev pub entries : String → BySubject → List ChangeSet
entries k d = elim (lookup k d) [ none ↦ [] | some cs ↦ cs ]

-- `_index`, over the set of the subjects
unfoldable pub index_under : ChangeSet → List String → BySubject → BySubject
index_under c [] d = d
index_under c (k ∷ ks) d = index_under c ks (insert k (entries k d ++ c ∷ []) d)

unfoldable pub index : ChangeSet → BySubject → BySubject
unfolding subjects index_under dedup
index c d = index_under c (dedup (subjects c)) d

-- A line of the file.
pub data HistoryLine : Type 0 where
  blank_line broken_line : HistoryLine
  changeset_line : ChangeSet → HistoryLine

pub data HistoryStoreError : Type 0 where
  invalid_history_record : ℕ → HistoryStoreError

abbrev pub at_line : ℕ → Result ChangeSetError Unit → Result HistoryStoreError Unit
at_line n (ok u) = ok u
at_line n (err e) = err (invalid_history_record n)

-- The loop of `_rebuild_index_unlocked`
unfoldable pub rebuild_from : ℕ → BySubject → List HistoryLine → Result HistoryStoreError BySubject
unfolding validate_changeset index
rebuild_from n d [] = ok d
rebuild_from n d (blank_line ∷ ls) = rebuild_from (suc n) d ls
rebuild_from n d (broken_line ∷ ls) = err (invalid_history_record n)
rebuild_from n d (changeset_line c ∷ ls) =
    at_line n (validate_changeset c) >> rebuild_from (suc n) (index c d) ls

unfoldable pub rebuild_index : List HistoryLine → Result HistoryStoreError BySubject
unfolding rebuild_from
rebuild_index file = rebuild_from 1 [] file

-- `JsonlHistoryStore.append`
unfoldable pub append : ChangeSet → List HistoryLine → Result HistoryStoreError (List HistoryLine)
unfolding rebuild_index
append c file = do d ← rebuild_index file; ok (file ++ changeset_line c ∷ [])

-- `JsonlHistoryStore.history`
unfoldable pub history : String → List HistoryLine → Result HistoryStoreError (List ChangeSet)
unfolding rebuild_index
history k file = do d ← rebuild_index file; ok (entries k d)
