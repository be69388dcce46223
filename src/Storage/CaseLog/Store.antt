-- ===== src/Storage/CaseLog/Store.antt =====
-- Appending to the file of cases and the methods of `JsonlCaseStore`:
-- src/intent_engineering/storage/jsonl/case_store.py.
use intent_engineer.Base.{
  map_err, String, Bool, true, false, Option, none, some, List, [], ◌∷◌, ◌++◌, keep_if,
  if◌then◌else◌, Result, ok, err, ◌>>=◌, ◌>>◌,
}
use intent_engineer.Base.Dict.{lookup, sorted_values}
use intent_engineer.Core.Vocabulary.{ReconciliationStatus, same_stage}
use intent_engineer.Reconcile.Cases.{ReconciliationCase, CaseError, validate_case}
use intent_engineer.Storage.CaseLog.{
  File, case_line, CaseStoreError, invalid_case, missing_case, Index, record_version,
  parse_versions, same_case, same_option,
}

abbrev pub of_case : Result CaseError Unit → Result CaseStoreError Unit
of_case m = map_err invalid_case m

-- `_parse_versions`
unfoldable pub read_index : File → Result CaseStoreError Index
unfolding parse_versions
read_index file = do (s, versions) ← parse_versions file; ok s

-- The loop of `validate_case_appends`, whose lines are appended in one piece.
unfoldable pub append_all : Index → List ReconciliationCase → Result CaseStoreError File
unfolding validate_case record_version
append_all s [] = ok []
append_all s (c ∷ cs) = do
  of_case (validate_case c)
  (s', new) ← record_version false s c
  ls ← append_all s' cs
  ok (case_line c ∷ ls)

unfoldable pub validate_case_appends : File → List ReconciliationCase → Result CaseStoreError File
unfolding append_all read_index
validate_case_appends file cases = do s ← read_index file; append_all s cases

unfoldable pub put : ReconciliationCase → File → Result CaseStoreError (Bool × File)
put c file = do
  of_case (validate_case c)
  s ← read_index file
  if same_option same_case (lookup c.id s.latest_by_id) (some c)
      then ok (false, file)
      else do (s', new) ← record_version true s c; ok (true, file ++ case_line c ∷ [])

unfoldable pub get : String → File → Result CaseStoreError ReconciliationCase
unfolding read_index
get k file = do
  s ← read_index file
  elim (lookup k s.latest_by_id) [ none ↦ err (missing_case k) | some c ↦ ok c ]

unfoldable pub find_by_fingerprint :
    String → File → Result CaseStoreError (Option ReconciliationCase)
unfolding read_index
find_by_fingerprint f file = do s ← read_index file; ok (lookup f s.by_fingerprint)

-- The latest versions in the order of their identities
unfoldable pub list :
    Option ReconciliationStatus → File → Result CaseStoreError (List ReconciliationCase)
unfolding sorted_values read_index
list none file = do s ← read_index file; ok (sorted_values s.latest_by_id)
list (some status) file = do
  s ← read_index file
  ok (keep_if (λ c. same_stage c.status status) (sorted_values s.latest_by_id))
