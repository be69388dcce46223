-- ===== src/Reconcile/Cases.antt =====
-- Reconciliation records: src/intent_engineering/core/models/reconciliation.py.
pub mod Lifecycle
pub mod Routes
use intent_engineer.Base.{
  ℕ, String, Bool, true, false, not, ◌&&◌, ◌||◌, Option, none, some, List, [], ◌∷◌, ◌++◌, map, ◌==◌,
  leb, is_some, is_none, is_empty, any, Result, ok, err, ◌>>=◌, ◌>>◌, raise_if,
}
use intent_engineer.Base.Text.{is_blank, is_hex_text}
use intent_engineer.Base.Sorted.{sorted_set}
use intent_engineer.Core.Vocabulary.{
  SourceMode, ReconciliationCaseType, ReconciliationStatus, opened, needs_human, proposed, resolved,
  deferred, false_positive, ResolutionAction, same_stage,
}
use intent_engineer.Core.Graph.{Instant, Confidence, confidence_one}

-- `ALLOWED_CASE_TRANSITIONS`
unfoldable pub allowed : ReconciliationStatus → ReconciliationStatus → Bool
allowed opened proposed = true
allowed opened deferred = true
allowed opened false_positive = true
allowed proposed needs_human = true
allowed needs_human resolved = true
allowed _ _ = false

-- `is_nonterminal_case_status`
unfoldable pub is_nonterminal_case_status : ReconciliationStatus → Bool
is_nonterminal_case_status opened = true
is_nonterminal_case_status proposed = true
is_nonterminal_case_status needs_human = true
is_nonterminal_case_status _ = false

pub record EvidenceSide : Type 0 where
  pub label : String
  pub claim : String
  pub evidence_refs : List String
  pub observed_at : Instant
  pub authors : List String
  pub confidence : Confidence
  pub source_mode : SourceMode
  pub current : Bool

pub record DriftObservation : Type 0 where
  pub subject_ref : String
  pub case_type : ReconciliationCaseType
  pub affected_refs : List String
  pub evidence_sides : List EvidenceSide
  pub detector_id : String
  pub fingerprint : String
  pub requires_human : Bool

pub record ClassificationEvent : Type 0 where
  pub actor : String
  pub at : Instant
  pub prior : ReconciliationStatus
  pub next : ReconciliationStatus

pub record ReconciliationCase : Type 0 where
  pub id : String
  pub subject_ref : String
  pub case_type : ReconciliationCaseType
  pub affected_refs : List String
  pub evidence_sides : List EvidenceSide
  pub detector_id : String
  pub fingerprint : String
  pub created_at : Instant
  pub created_by : String
  pub status : ReconciliationStatus
  pub requires_human : Bool
  pub alternatives : List ReconciliationCaseType
  pub impact : String
  pub resolution : Option ResolutionAction
  pub resolved_by_changeset : Option String
  pub history : List ClassificationEvent

pub data CaseError : Type 0 where
  blank_evidence blank_author confidence_out_of_range bad_fingerprint empty_actor : CaseError
  empty_creator lacks_evidence broken_history status_mismatch : CaseError
  unresolved resolution_without_resolved : CaseError
  invalid_transition : ReconciliationStatus → ReconciliationStatus → CaseError

-- `not refs or any(not ref.strip() for ref in refs)`
abbrev pub has_blank : List String → Bool
has_blank refs = is_empty refs || any is_blank refs

-- The validators of `EvidenceSide`: `require_evidence_refs`, `require_authors` and the bounds.
unfoldable pub validate_side : EvidenceSide → Result CaseError Unit
validate_side s = do
  raise_if (has_blank s.evidence_refs) blank_evidence
  raise_if (has_blank s.authors) blank_author
  raise_if (not (leb s.confidence confidence_one)) confidence_out_of_range

unfoldable pub validate_sides : List EvidenceSide → Result CaseError Unit
unfolding validate_side
validate_sides [] = ok tt
validate_sides (s ∷ ss) = validate_side s >> validate_sides ss

-- `DriftObservation.require_evidence`, after the validators of the fields
unfoldable pub validate_observation : DriftObservation → Result CaseError Unit
unfolding validate_sides is_hex_text
validate_observation o = do
  validate_sides o.evidence_sides
  raise_if (not (is_hex_text 64 o.fingerprint)) bad_fingerprint
  raise_if (not (any (λ s. not (is_empty s.evidence_refs)) o.evidence_sides)) lacks_evidence

-- `ClassificationEvent.actor` has at least one character.
unfoldable pub validate_events : List ClassificationEvent → Result CaseError Unit
validate_events [] = ok tt
validate_events (e ∷ es) = raise_if (e.actor == "") empty_actor >> validate_events es

-- `{ref for side in sides for ref in side.evidence_refs}`, as a list
abbrev pub side_refs : List EvidenceSide → List String
side_refs [] = []
side_refs (s ∷ ss) = s.evidence_refs ++ side_refs ss

-- `ReconciliationCase.all_evidence_refs`
unfoldable pub all_evidence_refs : ReconciliationCase → List String
unfolding sorted_set
all_evidence_refs c = sorted_set (side_refs c.evidence_sides)

-- The loop over the history, from the status that is expected next.
unfoldable pub check_history :
    ReconciliationStatus → List ClassificationEvent → Result CaseError ReconciliationStatus
unfolding allowed
check_history expected [] = ok expected
check_history expected (e ∷ es) = do
  raise_if (not (same_stage e.prior expected)) broken_history
  raise_if (not (allowed e.prior e.next)) (invalid_transition e.prior e.next)
  check_history e.next es

-- `ReconciliationCase.require_resolution_for_resolved_case`
unfoldable pub check_lifecycle : ReconciliationCase → Result CaseError Unit
unfolding all_evidence_refs check_history
check_lifecycle c = do
  raise_if (is_empty (all_evidence_refs c)) lacks_evidence
  expected ← check_history opened c.history
  raise_if (not (same_stage c.status expected)) status_mismatch
  raise_if
      (same_stage c.status resolved && (is_none c.resolution || is_none c.resolved_by_changeset))
      unresolved
  raise_if
      (not (same_stage c.status resolved)
        && (is_some c.resolution || is_some c.resolved_by_changeset))
      resolution_without_resolved

-- `ReconciliationCase.model_validate`: the validators of the fields, then the model's own
unfoldable pub validate_case : ReconciliationCase → Result CaseError Unit
unfolding validate_sides is_hex_text validate_events check_lifecycle
validate_case c = do
  validate_sides c.evidence_sides
  raise_if (not (is_hex_text 64 c.fingerprint)) bad_fingerprint
  raise_if (c.created_by == "") empty_creator
  validate_events c.history
  check_lifecycle c
