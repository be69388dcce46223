-- ===== src/Storage/MutationStore.antt =====
-- The stores of immutable plans and approvals: src/intent_engineering/storage/jsonl/approval_store.py.
-- Every method reads the file again while it holds the lock, so that the state of a store is its file.
pub mod Laws
use intent_engineer.Base.{
  String, Bool, true, false, not, ◌&&◌, ◌||◌, Option, none, some, List, [], ◌∷◌, ◌++◌, ◌==◌,
  if◌then◌else◌, Result, ok, err, ◌>>=◌,
}
use intent_engineer.Base.Text.{is_one_line}
use intent_engineer.Base.Dict.{Dict, lookup, insert, values}

-- What a store needs of the model of its records: `id`, the validators, `==` and the canonical JSON.
pub record RecordModel (A : Type 0) : Type 0 where
  pub id_of : A → String
  pub is_valid : A → Bool
  pub same : A → A → Bool
  pub serialize : A → String

-- A line that is blank or does not hold a valid record is broken; any other has its text and its
-- record. The lines into which a text with separators falls apart are one broken line.
pub data Line (A : Type 0) : Type 0 where
  broken_line : Line A
  record_line : String → A → Line A

pub record Index (A : Type 0) : Type 0 where
  pub records : Dict A
  pub encodings : Dict String

pub data PutOutcome : Type 0 where
  added duplicate invalid conflict : PutOutcome

pub data MutationStoreError : Type 0 where
  invalid_mutation_store invalid_mutation_record conflicting_mutation_record : MutationStoreError
  missing_record : String → MutationStoreError

abbrev pub same_encoding : Option String → String → Bool
same_encoding none text = false
same_encoding (some t) text = t == text

module _ {A : Type 0} (model : RecordModel A) where
  abbrev pub empty_index : Index A
  empty_index = record { records = []; encodings = [] }

  -- The body of the loop, by the record that is there under the identity.
  abbrev pub keep_record : Index A → String → A → Option A → Option (Index A)
  keep_record s text r none = some (record s {
    records = insert (model.id_of r) r s.records;
    encodings = insert (model.id_of r) text s.encodings;
  })
  keep_record s text r (some existing) =
      if not (model.same existing r)
        || not (same_encoding (lookup (model.id_of r) s.encodings) text)
      then none
      else some s

  unfoldable pub decode_line : Index A → Line A → Option (Index A)
  decode_line s broken_line = none
  decode_line s (record_line text r) =
      if model.is_valid r then keep_record s text r (lookup (model.id_of r) s.records) else none

  unfoldable pub decode_from : Index A → List (Line A) → Option (Index A)
  unfolding decode_line
  decode_from s [] = some s
  decode_from s (l ∷ ls) = elim (decode_line s l) [ none ↦ none | some t ↦ decode_from t ls ]

  -- `_rebuild_unlocked`
  unfoldable pub rebuild : List (Line A) → Result MutationStoreError (Dict A)
  unfolding decode_from
  rebuild file = elim (decode_from empty_index file) [
    | none ↦ err invalid_mutation_store
    | some s ↦ ok s.records
  ]

  -- What is written for a record, as it is read: a first part of a JSON object is none.
  unfoldable pub written : A → Line A
  unfolding is_one_line
  written r =
      if is_one_line (model.serialize r) then record_line (model.serialize r) r else broken_line

  abbrev pub put_ways : A → List (Line A) → Option A → PutOutcome × List (Line A)
  put_ways r file none = (added, file ++ written r ∷ [])
  put_ways r file (some existing) =
      if model.same existing r then (duplicate, file) else (conflict, file)

  unfoldable pub put_result : A → List (Line A) → PutOutcome × List (Line A)
  unfolding rebuild written
  put_result r file =
      if model.is_valid r
      then elim (rebuild file) [
        | err e ↦ (invalid, file)
        | ok records ↦ put_ways r file (lookup (model.id_of r) records)
      ]
      else (invalid, file)

  abbrev pub raised : PutOutcome × List (Line A) → Result MutationStoreError (Bool × List (Line A))
  raised (added, file) = ok (true, file)
  raised (duplicate, file) = ok (false, file)
  raised (invalid, file) = err invalid_mutation_record
  raised (conflict, file) = err conflicting_mutation_record

  unfoldable pub put : A → List (Line A) → Result MutationStoreError (Bool × List (Line A))
  unfolding put_result
  put r file = raised (put_result r file)

  abbrev pub found_record : String → Option A → Result MutationStoreError A
  found_record key none = err (missing_record key)
  found_record key (some r) = ok r

  unfoldable pub get : String → List (Line A) → Result MutationStoreError A
  unfolding rebuild
  get key file = do records ← rebuild file; found_record key (lookup key records)

  unfoldable pub list : List (Line A) → Result MutationStoreError (List A)
  unfolding rebuild
  list file = do records ← rebuild file; ok (values records)
