-- ===== src/Storage/EvidenceLog.antt =====
-- The evidence file: src/intent_engineering/storage/jsonl/evidence_store.py. Every method reads the
-- file again while it holds the lock, so that the state of the store is the file. The file is the
-- list of its lines, as the JSON reader and the models return them; a file that is not there has no
-- lines.
pub mod Written
pub mod Store
pub mod Ledger
pub mod Methods
pub mod Associate
use intent_engineer.Base.{
  ℕ, suc, String, Bool, true, false, not, ◌&&◌, ◌||◌, Option, none, some, List, [], ◌∷◌, ◌++◌, map,
  ◌==◌, eqb, length, any, keep_if, last?, is_some, if◌then◌else◌, Result, ok, err, ◌>>=◌, ◌>>◌,
  raise_if,
}
use intent_engineer.Base.Texts.{elem, dedup}
use intent_engineer.Base.Sorted.{sort}
use intent_engineer.Base.Dict.{Dict, lookup, insert, values, keys}
use intent_engineer.Storage.Evidence.{
  JsonValue, json_null, json_bool, json_number, json_text, json_list, json_object, JsonValues,
  no_values, add_value, JsonFields, no_fields, add_field, EvidenceRecord, EvidenceIngestion,
  EvidenceError, non_contiguous, duplicate_association, bad_predecessor, validate_ingestion,
  same_texts,
}

-- `a == b`, for texts that may be missing
abbrev pub same_text? : Option String → Option String → Bool
same_text? none none = true
same_text? (some a) (some b) = a == b
same_text? _ _ = false

abbrev pub same_bool : Bool → Bool → Bool
same_bool true b = b
same_bool false b = not b

abbrev pub count_fields : JsonFields → ℕ
count_fields no_fields = 0
count_fields (add_field k v fs) = suc (count_fields fs)

abbrev pub find_field : String → JsonFields → Option JsonValue
find_field k no_fields = none
find_field k (add_field j v fs) = if j == k then some v else find_field k fs

-- `a == b`, for JSON values: objects regardless of the order of their keys.
unfoldable mutual
  pub same_json : JsonValue → JsonValue → Bool
  same_json json_null json_null = true
  same_json (json_bool a) (json_bool b) = same_bool a b
  same_json (json_number a) (json_number b) = a == b
  same_json (json_text a) (json_text b) = a == b
  same_json (json_list a) (json_list b) = same_values a b
  same_json (json_object a) (json_object b) = eqb (count_fields a) (count_fields b) && covers a b
  same_json _ _ = false

  pub same_values : JsonValues → JsonValues → Bool
  same_values no_values no_values = true
  same_values (add_value a xs) (add_value b ys) = same_json a b && same_values xs ys
  same_values _ _ = false

  pub covers : JsonFields → JsonFields → Bool
  covers no_fields ys = true
  covers (add_field k a xs) ys =
      elim (find_field k ys) [ none ↦ false | some b ↦ same_json a b ] && covers xs ys

unfoldable pub same_evidence : EvidenceRecord → EvidenceRecord → Bool
unfolding same_json
same_evidence a b =
    a.id == b.id
    && (a.connector_type == b.connector_type
        && (a.external_object_id == b.external_object_id
            && (a.external_version == b.external_version
                && (same_text? a.author b.author
                    && (eqb a.observed_at b.observed_at
                        && (a.source_locator == b.source_locator
                            && (a.content_hash == b.content_hash
                                && (same_json (json_object a.payload) (json_object b.payload)
                                    && (same_text? a.parent_ref b.parent_ref
                                        && same_texts a.acl b.acl)))))))))

-- A line of the file.
pub data Line : Type 0 where
  blank_line broken_line : Line
  record_line : EvidenceRecord → Line
  ingestion_line : EvidenceIngestion → Line

pub data StoreError : Type 0 where
  invalid_record : ℕ → EvidenceError → StoreError
  invalid_line : ℕ → StoreError
  conflicting_evidence_id : String → StoreError
  legacy_association_required : String → StoreError
  missing_evidence : String → StoreError
  refused : EvidenceError → StoreError

-- The local variables of `parse_evidence_lines`, which are the indexes of the store too.
pub record Index : Type 0 where
  pub records : Dict EvidenceRecord
  pub ingestions : List EvidenceIngestion
  pub entries : Dict (List EvidenceIngestion)
  pub associations : List (String × String)
  pub legacy_ids : List String

abbrev pub empty_index : Index
empty_index = record {
  records = [];
  ingestions = [];
  entries = [];
  associations = [];
  legacy_ids = [];
}

-- `connector_entries[connector_id]`, a default dict of lists
abbrev pub ledger_of : String → Dict (List EvidenceIngestion) → List EvidenceIngestion
ledger_of c d = elim (lookup c d) [ none ↦ [] | some l ↦ l ]

-- `(connector_id, evidence_id) in associations`
abbrev pub has_pair : String → String → List (String × String) → Bool
has_pair c k ps = any (λ p. p.0 == c && p.1 == k) ps

abbrev pub is_same_object : EvidenceRecord → EvidenceIngestion → Bool
is_same_object e i =
    i.evidence.connector_type == e.connector_type
    && i.evidence.external_object_id == e.external_object_id

-- `predecessors[-1].id if predecessors else None`
unfoldable pub predecessor : EvidenceRecord → List EvidenceIngestion → Option String
predecessor e ledger = elim (last? (keep_if (is_same_object e) ledger)) [
  | none ↦ none
  | some i ↦ some i.evidence.id
]

abbrev pub at_line : {A : Type 0} → ℕ → Result EvidenceError A → Result StoreError A
at_line n (ok a) = ok a
at_line n (err e) = err (invalid_record n e)

-- The checks on an ingestion that a line holds.
unfoldable pub check_ingestion : Index → EvidenceIngestion → Result EvidenceError Unit
unfolding validate_ingestion predecessor
check_ingestion s i = do
  validate_ingestion i
  raise_if (not (eqb i.sequence (suc (length (ledger_of i.connector_id s.entries))))) non_contiguous
  raise_if (has_pair i.connector_id i.evidence.id s.associations) duplicate_association
  raise_if
      (not
        (same_text? i.predecessor_id (predecessor i.evidence (ledger_of i.connector_id s.entries))))
      bad_predecessor

-- `existing is not None and existing != record`
unfoldable pub conflicts : Dict EvidenceRecord → EvidenceRecord → Bool
unfolding same_evidence
conflicts records e = elim (lookup e.id records) [
  | none ↦ false
  | some old ↦ not (same_evidence old e)
]

-- `records.setdefault(record.id, record)`
abbrev pub set_default : EvidenceRecord → Dict EvidenceRecord → Dict EvidenceRecord
set_default e records = elim (lookup e.id records) [
  | none ↦ insert e.id e records
  | some old ↦ records
]

abbrev pub keep_record : EvidenceRecord → Index → Result StoreError Index
keep_record e s = do
  raise_if (conflicts s.records e) (conflicting_evidence_id e.id)
  ok (record s { records = set_default e s.records })

abbrev pub add_ingestion : EvidenceIngestion → Index → Index
add_ingestion i s = record s {
  ingestions = s.ingestions ++ i ∷ [];
  entries = insert i.connector_id (ledger_of i.connector_id s.entries ++ i ∷ []) s.entries;
  associations = (i.connector_id, i.evidence.id) ∷ s.associations;
}

-- The body of the loop of `parse_evidence_lines`.
unfoldable pub parse_line : ℕ → Index → Line → Result StoreError Index
unfolding check_ingestion conflicts
parse_line n s blank_line = ok s
parse_line n s broken_line = err (invalid_line n)
parse_line n s (ingestion_line i) = do
  at_line n (check_ingestion s i)
  keep_record i.evidence (add_ingestion i s)
parse_line n s (record_line e) = keep_record e (record s { legacy_ids = s.legacy_ids ++ e.id ∷ [] })

unfoldable pub parse_from : ℕ → Index → List Line → Result StoreError Index
unfolding parse_line
parse_from n s [] = ok s
parse_from n s (l ∷ ls) = parse_line n s l >>= λ s'. parse_from (suc n) s' ls

-- `parse_evidence_lines`, and the indexes that `_rebuild_index_unlocked` makes of it
unfoldable pub parse_evidence_lines : List Line → Result StoreError Index
unfolding parse_from
parse_evidence_lines ls = parse_from 1 empty_index ls
