-- ===== src/Sync/Collection.antt =====
-- One connector in a run of src/intent_engineering/sync/orchestrator.py: the evidence that its checkpoint
-- has not consumed, what its source adds to that, and the next checkpoint, which
-- src/intent_engineering/capture/checkpoints.py makes. What the reasoner and the detectors do in between
-- leaves evidence and checkpoints alone. The connector itself is a parameter: the records that it fetches
-- and normalises, and its next cursor, where none is an exception.
pub mod Entries
pub mod Exactness
pub mod Collecting
pub mod Consumption
use intent_engineer.Base.{
  map_err, ℕ, suc, String, Bool, true, false, not, ◌&&◌, ◌||◌, Option, none, some, List, [], ◌∷◌,
  ◌++◌, ◌==◌, map, keep_if, last?, is_none, if◌then◌else◌, Result, ok, err, ◌>>=◌, ◌>>◌, raise_if,
}
use intent_engineer.Base.Texts.{elem, dedup}
use intent_engineer.Base.Dict.{Dict, lookup, insert, index_onto}
use intent_engineer.Core.Graph.{Instant}
use intent_engineer.Storage.Evidence.{
  EvidenceRecord, EvidenceIngestion, is_exact_consumed_prefix, same_texts,
}
use intent_engineer.Storage.EvidenceLog.{StoreError, same_text?}
use intent_engineer.Storage.EvidenceLog.Store.{associate, migrate_legacy, ledger}
use intent_engineer.Storage.EvidenceLog.Store as Evidence
use intent_engineer.Sync.Checkpoints.{
  SyncCheckpoint, CheckpointError, File, get, checkpoint_of, is_checkpoint, compare_and_set,
}

pub data SyncError : Type 0 where
  invalid_connector_type invalid_consumption evidence_type_mismatch connector_failure
        missing_ingestion missing_record inconsistent_inputs invalid_next_checkpoint :
      SyncError
  evidence_error : StoreError → SyncError
  checkpoint_error : CheckpointError → SyncError

abbrev pub of_store : {A : Type 0} → Result StoreError A → Result SyncError A
of_store m = map_err evidence_error m

abbrev pub of_checkpoints : {A : Type 0} → Result CheckpointError A → Result SyncError A
of_checkpoints m = map_err checkpoint_error m

-- `EvidenceDelta`: `records`, `prior_versions` and `ingestions`.
pub record Delta : Type 0 where
  pub added : List EvidenceRecord
  pub prior_versions : Dict String
  pub ingestions : List EvidenceIngestion

-- The file of evidence, and how many records of it are new.
pub record Progress : Type 0 where
  pub file : Evidence.File
  pub evidence_added : ℕ

-- What `run` uses of a connector.
pub record Connector : Type 0 where
  pub connector_id : String
  pub connector_type : String
  pub fetched : List (Option EvidenceRecord)
  pub next_cursor : List EvidenceRecord → Option (Option String)
  pub is_lifecycle : Bool

-- What `_connector_type` refuses.
abbrev pub is_untyped : Connector → Bool
is_untyped connector = connector.connector_type == ""

abbrev pub evidence_ids : List EvidenceIngestion → List String
evidence_ids is = map (λ i. i.evidence.id) is

abbrev pub record_ids : List EvidenceRecord → List String
record_ids es = map (λ e. e.id) es

abbrev pub consumed_by : Option SyncCheckpoint → List String
consumed_by none = []
consumed_by (some c) = c.consumed_evidence_ids

-- `prior_versions[object] = predecessor`, where there is one
abbrev pub note_predecessor : String → Option String → Dict String → Dict String
note_predecessor object none d = d
note_predecessor object (some p) d = insert object p d

abbrev pub predecessors : List EvidenceIngestion → Dict String → Dict String
predecessors [] d = d
predecessors (i ∷ is) d =
    predecessors is (note_predecessor i.evidence.external_object_id i.predecessor_id d)

-- The part of the ledger that is not consumed yet.
unfoldable pub unconsumed : List String → List EvidenceIngestion → Delta
unconsumed consumed entries =
    let is = keep_if (λ i. not (elem i.evidence.id consumed)) entries in
    record {
      added = map (λ i. i.evidence) is;
      prior_versions = predecessors is [];
      ingestions = is;
    }

-- `if record.id not in consumed_ids and record.id not in record_ids`
abbrev pub extended : List String → EvidenceRecord → EvidenceIngestion → Delta → Delta
extended consumed e i d =
    let versions = note_predecessor e.external_object_id i.predecessor_id d.prior_versions in
    if elem e.id consumed || elem e.id (record_ids d.added)
    then record d { prior_versions = versions }
    else record {
      added = d.added ++ e ∷ [];
      prior_versions = versions;
      ingestions = d.ingestions ++ i ∷ [];
    }

-- The next cursor, or the exception of the connector.
abbrev pub given_cursor : Option (Option String) → Result SyncError (Option String)
given_cursor none = err connector_failure
given_cursor (some cursor) = ok cursor

module _ (self : Connector) where
  -- From the checkpoint to the evidence that is still to be consumed.
  unfoldable pub open_ledger :
      File → Evidence.File → Result SyncError (Option SyncCheckpoint × (Delta × Evidence.File))
  unfolding get migrate_legacy ledger is_exact_consumed_prefix unconsumed
  open_ledger saved file = do
    prior ← of_checkpoints (get self.connector_id saved)
    raise_if (is_untyped self) invalid_connector_type
    (migrated, file') ← of_store (migrate_legacy self.connector_id self.connector_type file)
    entries ← of_store (ledger self.connector_id (some self.connector_type) file')
    raise_if (not (is_exact_consumed_prefix (consumed_by prior) (evidence_ids entries)))
        invalid_consumption
    ok (prior, (unconsumed (consumed_by prior) entries, file'))

  -- After `associate`: the last entry for the record, and the delta with it.
  unfoldable pub collect_record :
      List String → EvidenceRecord → Delta → Evidence.File → Result SyncError Delta
  unfolding ledger
  collect_record consumed e d file = do
    entries ← of_store (ledger self.connector_id (some self.connector_type) file)
    elim (last? (keep_if (λ i. i.evidence.id == e.id) entries)) [
      | none ↦ err missing_ingestion
      | some i ↦ ok (extended consumed e i d)
    ]

  -- `_persist_evidence`, which counts what is new
  abbrev pub persisted : Bool → Evidence.File → Progress → Progress
  persisted true file p = record { file = file; evidence_added = suc p.evidence_added }
  persisted false file p = record p { file = file }

  -- The loop over what was discovered; what is persisted stays when a later step raises.
  unfoldable pub collect :
      List String
      → List (Option EvidenceRecord)
      → Delta
      → Progress
      → Result SyncError Delta × Progress
  unfolding associate collect_record
  collect consumed [] d p = (ok d, p)
  collect consumed (none ∷ es) d p = (err connector_failure, p)
  collect consumed (some e ∷ es) d p = elim (e.connector_type == self.connector_type) [
    | false ↦ (err evidence_type_mismatch, p)
    | true ↦ elim (associate self.connector_id e p.file) [
      | err x ↦ (err (evidence_error x), p)
      | ok (added, file) ↦ elim (collect_record consumed e d file) [
        | err x ↦ (err x, persisted added file p)
        | ok d' ↦ collect consumed es d' (persisted added file p)
      ]
    ]
  ]

  -- `ledger_by_id[evidence_id] for evidence_id in consumed_evidence_ids`
  abbrev pub records_at : List String → Dict EvidenceRecord → Result SyncError (List EvidenceRecord)
  records_at [] d = ok []
  records_at (k ∷ ks) d = do
    e ← elim (lookup k d) [ none ↦ err missing_record | some e ↦ ok e ]
    es ← records_at ks d
    ok (e ∷ es)

  -- `prior.cursor`, where nothing was discovered and there is no other
  abbrev pub kept_cursor : Option SyncCheckpoint → Option String → Option String
  kept_cursor (some prior) none = elim self.fetched [ [] ↦ prior.cursor | f ∷ fs ↦ none ]
  kept_cursor _ cursor = cursor

  -- `checkpoint_after_discovery`
  unfoldable pub checkpoint_after_discovery :
      Instant
      → Option SyncCheckpoint
      → List String
      → List EvidenceRecord
      → Result SyncError SyncCheckpoint
  unfolding is_checkpoint
  checkpoint_after_discovery at prior consumed records = do
    raise_if (self.is_lifecycle && not (same_texts (record_ids records) consumed))
        inconsistent_inputs
    cursor ← given_cursor (self.next_cursor records)
    let c = checkpoint_of self.connector_id (kept_cursor prior cursor) at consumed in
        (raise_if (not (is_checkpoint c)) invalid_next_checkpoint >> ok c)

  -- `checkpoint_advanced`
  abbrev pub is_advanced : Option SyncCheckpoint → SyncCheckpoint → Bool
  is_advanced none c = true
  is_advanced (some prior) c =
      not (same_text? c.cursor prior.cursor)
      || not (same_texts c.consumed_evidence_ids prior.consumed_evidence_ids)

  -- The last loop of `run`, for this connector: whether its checkpoint advanced, and the checkpoints.
  unfoldable pub consume :
      Instant
      → Option SyncCheckpoint
      → Delta
      → Evidence.File
      → File
      → Result SyncError (Bool × File)
  unfolding ledger checkpoint_after_discovery compare_and_set dedup index_onto
  consume at prior d file saved = do
    raise_if (is_untyped self) invalid_connector_type
    entries ← of_store (ledger self.connector_id (some self.connector_type) file)
    let consumed = dedup (consumed_by prior ++ record_ids d.added) in
        (do
          records ← records_at consumed (index_onto (λ e. e.id) [] (map (λ i. i.evidence) entries))
          c ← checkpoint_after_discovery at prior consumed records
          if is_advanced prior c
              then (of_checkpoints (
                    compare_and_set self.connector_id prior c.cursor c.committed_at
                      c.consumed_evidence_ids saved)
                  >>= λ made. ok (true, made.1))
              else ok (false, saved))
