-- ===== src/Storage/CaseLog.antt =====
-- The file of reconciliation cases: src/intent_engineering/storage/jsonl/case_store.py. Every method
-- reads the file again while it holds the lock, so that the state of the store is the file. The
-- file is the list of its lines, as the JSON reader and the migration of old records return them.
pub mod Store
pub mod Sameness
pub mod Recorded
pub mod Ownership
pub mod Growth
pub mod Transitions
use intent_engineer.Base.{
  ℕ, suc, String, Bool, true, false, not, ◌&&◌, ◌||◌, Option, none, some, List, [], ◌∷◌, ◌++◌, ◌==◌,
  eqb, length, last?, keep_if, is_none, if◌then◌else◌, Result, ok, err, ◌>>=◌, ◌>>◌, raise_if,
}
use intent_engineer.Base.Dict.{Dict, lookup, insert, sorted_values}
use intent_engineer.Core.Vocabulary.{
  SourceMode, ReconciliationCaseType, ReconciliationStatus, ResolutionAction, update_implementation,
  update_requirement, update_intent, update_tests, update_documentation, backfill_design_decision,
  supersede_requirement, merge_interpretations, preserve_disagreement, defer, mark_false_positive,
  same_stage, same_mode, code_lag, requirement_lag, intent_lag, test_lag, doc_lag,
  undocumented_code, orphan_requirement, conflicting_sources, ambiguous_divergence,
  possible_intent_change,
}
use intent_engineer.Reconcile.Cases.{
  EvidenceSide, ClassificationEvent, ReconciliationCase, CaseError, validate_case,
}

abbrev pub same_action : ResolutionAction → ResolutionAction → Bool
same_action update_implementation update_implementation = true
same_action update_requirement update_requirement = true
same_action update_intent update_intent = true
same_action update_tests update_tests = true
same_action update_documentation update_documentation = true
same_action backfill_design_decision backfill_design_decision = true
same_action supersede_requirement supersede_requirement = true
same_action merge_interpretations merge_interpretations = true
same_action preserve_disagreement preserve_disagreement = true
same_action defer defer = true
same_action mark_false_positive mark_false_positive = true
same_action _ _ = false

abbrev pub same_case_type : ReconciliationCaseType → ReconciliationCaseType → Bool
same_case_type code_lag code_lag = true
same_case_type requirement_lag requirement_lag = true
same_case_type intent_lag intent_lag = true
same_case_type test_lag test_lag = true
same_case_type doc_lag doc_lag = true
same_case_type undocumented_code undocumented_code = true
same_case_type orphan_requirement orphan_requirement = true
same_case_type conflicting_sources conflicting_sources = true
same_case_type ambiguous_divergence ambiguous_divergence = true
same_case_type possible_intent_change possible_intent_change = true
same_case_type _ _ = false

-- `xs == ys`, by the equality of the items
abbrev pub same_list {ℓ} : {A : Type ℓ} → (A → A → Bool) → List A → List A → Bool
same_list same [] [] = true
same_list same (x ∷ xs) (y ∷ ys) = same x y && same_list same xs ys
same_list same _ _ = false

abbrev pub same_option {ℓ} : {A : Type ℓ} → (A → A → Bool) → Option A → Option A → Bool
same_option same none none = true
same_option same (some x) (some y) = same x y
same_option same _ _ = false

abbrev pub same_side : EvidenceSide → EvidenceSide → Bool
same_side a b =
    a.label == b.label
    && (a.claim == b.claim
        && (same_list ◌==◌ a.evidence_refs b.evidence_refs
            && (eqb a.observed_at b.observed_at
                && (same_list ◌==◌ a.authors b.authors
                    && (eqb a.confidence b.confidence
                        && (same_mode a.source_mode b.source_mode
                            && (if a.current then b.current else not b.current)))))))

abbrev pub same_event : ClassificationEvent → ClassificationEvent → Bool
same_event a b =
    a.actor == b.actor
    && (eqb a.at b.at && (same_stage a.prior b.prior && same_stage a.next b.next))

-- `_immutable_identity(a) == _immutable_identity(b)`
unfoldable pub same_identity : ReconciliationCase → ReconciliationCase → Bool
same_identity a b =
    a.id == b.id
    && (a.subject_ref == b.subject_ref
        && (same_case_type a.case_type b.case_type
            && (same_list ◌==◌ a.affected_refs b.affected_refs
                && (same_list same_side a.evidence_sides b.evidence_sides
                    && (a.detector_id == b.detector_id
                        && (a.fingerprint == b.fingerprint
                            && (eqb a.created_at b.created_at
                                && (a.created_by == b.created_by
                                    && ((if a.requires_human
                                          then b.requires_human
                                          else not b.requires_human)
                                        && (same_list same_case_type a.alternatives b.alternatives
                                            && a.impact == b.impact))))))))))

-- The fields that a version may change.
unfoldable pub same_lifecycle : ReconciliationCase → ReconciliationCase → Bool
same_lifecycle a b =
    same_stage a.status b.status
    && (same_option same_action a.resolution b.resolution
        && (same_option ◌==◌ a.resolved_by_changeset b.resolved_by_changeset
            && same_list same_event a.history b.history))

-- `a == b`, for cases
unfoldable pub same_case : ReconciliationCase → ReconciliationCase → Bool
unfolding same_identity same_lifecycle
same_case a b = same_identity a b && same_lifecycle a b

pub data CaseStoreError : Type 0 where
  conflicting_case_id conflicting_case_fingerprint : String → CaseStoreError
  blank_case_record : ℕ → CaseStoreError
  invalid_case_record : ℕ → CaseStoreError
  invalid_case : CaseError → CaseStoreError
  missing_case : String → CaseStoreError

pub record Index : Type 0 where
  pub latest_by_id : Dict ReconciliationCase
  pub by_fingerprint : Dict ReconciliationCase

-- `history[:-1]`
abbrev pub but_last {ℓ} : {A : Type ℓ} → List A → List A
but_last [] = []
but_last (x ∷ []) = []
but_last (x ∷ y ∷ xs) = x ∷ but_last (y ∷ xs)

-- `case.history[-1]` leads from the status of the previous version to that of this one.
abbrev pub leads : Option ClassificationEvent → ReconciliationStatus → ReconciliationStatus → Bool
leads none s t = false
leads (some e) s t = same_stage e.prior s && same_stage e.next t

-- The last test of `_record_version`: one event more, which leads to the new status.
unfoldable pub is_next_version : ReconciliationCase → ReconciliationCase → Bool
is_next_version old c =
    eqb (length c.history) (suc (length old.history))
    && (same_list same_event (but_last c.history) old.history
        && leads (last? c.history) old.status c.status)

-- The two assignments that end `_record_version`.
abbrev pub index_case : ReconciliationCase → Index → Index
index_case c s = record {
  latest_by_id = insert c.id c s.latest_by_id;
  by_fingerprint = insert c.fingerprint c s.by_fingerprint;
}

-- `fingerprint_owner is not None and fingerprint_owner.id != case.id`
abbrev pub has_other_owner : ReconciliationCase → Option ReconciliationCase → Bool
has_other_owner c none = false
has_other_owner c (some owner) = not (owner.id == c.id)

-- The tests against the previous version, of which there is one.
unfoldable pub check_previous :
    Bool → Index → ReconciliationCase → ReconciliationCase → Result CaseStoreError (Index × Bool)
unfolding same_identity same_case is_next_version
check_previous exact_is_noop s c old = do
  raise_if (not (same_identity old c)) (conflicting_case_id c.id)
  if same_case old c
      then (if exact_is_noop then ok (s, false) else err (conflicting_case_id c.id))
      else do
        raise_if (same_stage old.status c.status) (conflicting_case_id c.id)
        raise_if (not (is_next_version old c)) (conflicting_case_id c.id)
        ok (index_case c s, true)

-- `_record_version`: the indexes afterwards, and what is returned
unfoldable pub record_version :
    Bool → Index → ReconciliationCase → Result CaseStoreError (Index × Bool)
unfolding check_previous
record_version exact_is_noop s c = do
  raise_if (has_other_owner c (lookup c.fingerprint s.by_fingerprint))
      (conflicting_case_fingerprint c.fingerprint)
  elim (lookup c.id s.latest_by_id) [
    | none ↦ ok (index_case c s, true)
    | some old ↦ check_previous exact_is_noop s c old
  ]

-- A line of the file.
pub data CaseLine : Type 0 where
  blank_line broken_line : CaseLine
  case_line : ReconciliationCase → CaseLine

abbrev pub File : Type 0
File = List CaseLine

-- A case that its validators refuse is an invalid record of its line.
abbrev pub at_line : ℕ → Result CaseError Unit → Result CaseStoreError Unit
at_line n (ok u) = ok u
at_line n (err e) = err (invalid_case_record n)

-- The body of the loop of `_parse_versions_with_history`, which adds to the versions.
unfoldable pub parse_line :
    ℕ → Index → CaseLine → Result CaseStoreError (Index × ReconciliationCase)
unfolding validate_case record_version
parse_line n s blank_line = err (blank_case_record n)
parse_line n s broken_line = err (invalid_case_record n)
parse_line n s (case_line c) = do
  at_line n (validate_case c)
  (s', new) ← record_version true s c
  ok (s', c)

unfoldable pub parse_from :
    ℕ → Index → File → Result CaseStoreError (Index × List ReconciliationCase)
unfolding parse_line
parse_from n s [] = ok (s, [])
parse_from n s (l ∷ ls) = do
  (s', c) ← parse_line n s l
  (s'', cs) ← parse_from (suc n) s' ls
  ok (s'', c ∷ cs)

abbrev pub empty_index : Index
empty_index = record { latest_by_id = []; by_fingerprint = [] }

-- `_parse_versions_with_history`
unfoldable pub parse_versions : File → Result CaseStoreError (Index × List ReconciliationCase)
unfolding parse_from
parse_versions file = parse_from 1 empty_index file
