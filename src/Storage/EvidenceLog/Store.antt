-- ===== src/Storage/EvidenceLog/Store.antt =====
-- The methods of `JsonlEvidenceStore`: src/intent_engineering/storage/jsonl/evidence_store.py.
use intent_engineer.Base.{
  map_err, suc, String, Bool, true, false, not, ◌&&◌, ◌||◌, Option, none, some, List, [], ◌∷◌, ◌++◌,
  map, ◌==◌, length, any, keep_if, is_none, is_empty, if◌then◌else◌, Result, ok, err, ◌>>=◌, ◌>>◌,
  raise_if,
}
use intent_engineer.Base.Texts.{elem}
use intent_engineer.Base.Sorted.{sort}
use intent_engineer.Base.Dict.{Dict, lookup, values, keys}
use intent_engineer.Storage.Evidence.{EvidenceRecord, EvidenceIngestion, validate_ingestion}
use intent_engineer.Storage.EvidenceLog.Written.{written_record, written_ingestion}
use intent_engineer.Storage.EvidenceLog.{
  Line, StoreError, conflicting_evidence_id, legacy_association_required, missing_evidence, refused,
  Index, ledger_of, predecessor, conflicts, parse_evidence_lines,
}
use intent_engineer.Storage.Evidence.{EvidenceError}

abbrev pub File : Type 0
File = List Line

-- A method that returns a value and leaves the file.
abbrev pub Written : Type 0 → Type 0
Written A = Result StoreError (A × File)

abbrev pub of_evidence : {A : Type 0} → Result EvidenceError A → Result StoreError A
of_evidence m = map_err refused m

unfoldable pub put : EvidenceRecord → File → Written Bool
unfolding parse_evidence_lines conflicts written_record
put e file = do
  s ← parse_evidence_lines file
  raise_if (conflicts s.records e) (conflicting_evidence_id e.id)
  ok (elim (lookup e.id s.records) [
    | some old ↦ (false, file)
    | none ↦ (true, file ++ written_record e ∷ [])
  ])

-- `any(item.evidence.id == evidence_id for item in ledger)`
abbrev pub is_associated : String → List EvidenceIngestion → Bool
is_associated k ledger = any (λ i. i.evidence.id == k) ledger

-- The envelope that `associate` writes.
unfoldable pub next_ingestion : String → EvidenceRecord → List EvidenceIngestion → EvidenceIngestion
unfolding predecessor
next_ingestion connector e ledger = record {
  connector_id = connector;
  sequence = suc (length ledger);
  predecessor_id = predecessor e ledger;
  evidence = e;
}

unfoldable pub associate : String → EvidenceRecord → File → Written Bool
unfolding parse_evidence_lines conflicts next_ingestion validate_ingestion written_ingestion
associate connector e file = do
  s ← parse_evidence_lines file
  raise_if (conflicts s.records e) (conflicting_evidence_id e.id)
  let ledger = ledger_of connector s.entries in
      let i = next_ingestion connector e ledger in
      if is_associated e.id ledger
      then ok (false, file)
      else (of_evidence (validate_ingestion i) >>= λ _.
          ok (is_none (lookup e.id s.records), file ++ written_ingestion i ∷ []))

-- The records that `migrate_legacy` would associate.
unfoldable pub legacy_candidates : String → String → Index → List EvidenceRecord
legacy_candidates connector connector_type s =
    keep_if
      (λ e.
        elem e.id s.legacy_ids
        && (e.connector_type == connector_type
            && not (is_associated e.id (ledger_of connector s.entries))))
      (values s.records)

unfoldable pub associate_all : String → List EvidenceRecord → File → Written Unit
unfolding associate
associate_all connector [] file = ok (tt, file)
associate_all connector (e ∷ es) file = do
  (added, file') ← associate connector e file
  associate_all connector es file'

unfoldable pub migrate_legacy : String → String → File → Written Unit
unfolding parse_evidence_lines legacy_candidates associate_all
migrate_legacy connector connector_type file = do
  s ← parse_evidence_lines file
  let candidates = legacy_candidates connector connector_type s in
      if is_empty candidates
      then ok (tt, file)
      else if not (connector == connector_type)
          || not (elem connector_type ("markdown" ∷ "git" ∷ []))
      then err (legacy_association_required connector)
      else associate_all connector candidates file

unfoldable pub get : String → File → Result StoreError EvidenceRecord
unfolding parse_evidence_lines
get k file = do
  s ← parse_evidence_lines file
  elim (lookup k s.records) [ none ↦ err (missing_evidence k) | some e ↦ ok e ]

unfoldable pub versions : String → File → Result StoreError (List EvidenceRecord)
unfolding parse_evidence_lines
versions object file = do
  s ← parse_evidence_lines file
  ok (keep_if (λ e. e.external_object_id == object) (values s.records))

-- A legacy record of the connector's type that the connector has not taken over
abbrev pub needs_association : String → List EvidenceIngestion → Index → Bool
needs_association connector_type entries s =
    any
      (λ e.
        elem e.id s.legacy_ids
        && (not (elem e.id (map (λ i. i.evidence.id) entries))
            && e.connector_type == connector_type))
      (values s.records)

unfoldable pub ledger : String → Option String → File → Result StoreError (List EvidenceIngestion)
unfolding parse_evidence_lines
ledger connector none file = do s ← parse_evidence_lines file; ok (ledger_of connector s.entries)
ledger connector (some connector_type) file = do
  s ← parse_evidence_lines file
  raise_if (needs_association connector_type (ledger_of connector s.entries) s)
      (legacy_association_required connector)
  ok (keep_if (λ i. i.evidence.connector_type == connector_type) (ledger_of connector s.entries))

unfoldable pub chain : String → String → String → File → Result StoreError (List EvidenceIngestion)
unfolding ledger
chain connector connector_type object file = do
  l ← ledger connector (some connector_type) file
  ok (keep_if (λ i. i.evidence.external_object_id == object) l)

unfoldable pub for_connector : String → File → Result StoreError (List EvidenceRecord)
unfolding ledger
for_connector connector file = do l ← ledger connector none file; ok (map (λ i. i.evidence) l)

unfoldable pub list : File → Result StoreError (List EvidenceRecord)
unfolding parse_evidence_lines
list file = do s ← parse_evidence_lines file; ok (values s.records)

-- The ledgers in the order of the connectors' names
abbrev pub join_ledgers : List String → Dict (List EvidenceIngestion) → List EvidenceIngestion
join_ledgers [] d = []
join_ledgers (c ∷ cs) d = ledger_of c d ++ join_ledgers cs d

unfoldable pub ingestions : File → Result StoreError (List EvidenceIngestion)
unfolding parse_evidence_lines sort
ingestions file = do
  s ← parse_evidence_lines file
  ok (join_ledgers (sort (keys s.entries)) s.entries)
