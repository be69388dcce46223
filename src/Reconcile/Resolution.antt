-- ===== src/Reconcile/Resolution.antt =====
-- The resolution of a case by a human: src/intent_engineering/reconcile/local_resolution.py, on the
-- state of the graph, the history, the cases and the evidence. The transactions that make each change
-- whole are those of src/intent_engineering/storage.
pub mod Decision
use intent_engineer.Base.{
  map_err, String, Bool, true, false, not, ◌&&◌, ◌||◌, Option, none, some, List, [], ◌∷◌, ◌++◌,
  ◌==◌, last?, if◌then◌else◌, Result, ok, err, ◌>>=◌, ◌>>◌, raise_if, ℕ,
}
use intent_engineer.Core.Vocabulary.{
  ReconciliationStatus, opened, proposed, needs_human, resolved, deferred, false_positive,
  ResolutionAction, defer, mark_false_positive, same_stage,
}
use intent_engineer.Core.Graph.{Instant}
use intent_engineer.Mutations.Texts.{joined}
use intent_engineer.Core.ChangeSet.{ChangeSet, ChangeSetError, validate_changeset}
use intent_engineer.Reconcile.Cases.{ReconciliationCase, all_evidence_refs}
use intent_engineer.Reconcile.Transition.{TransitionError, transition_case}
use intent_engineer.Storage.Evidence.{EvidenceRecord, many, refs_allowed}
use intent_engineer.Storage.EvidenceLog.{StoreError, Line}
use intent_engineer.Storage.EvidenceLog.Store.{get as get_evidence}
use intent_engineer.Storage.CaseLog.{CaseStoreError, same_action}
use intent_engineer.Storage.CaseLog.Store.{get, validate_case_appends}
use intent_engineer.Storage.Changes.{LocalState, apply}

-- `ResolutionUnavailable`, in which every other exception ends.
pub data ResolutionError : Type 0 where
  resolution_unavailable : ResolutionError

abbrev pub attempt : {E A : Type 0} → Result E A → Result ResolutionError A
attempt m = map_err (λ e. resolution_unavailable) m

abbrev pub require : Bool → Result ResolutionError Unit
require test = raise_if (not test) resolution_unavailable

-- The fields of `LocalResolutionService` that decide, with the two SHA-256 digests that it writes in
-- hexadecimal: of a case identity, a version, an action and references, and of what is approved.
pub record ResolutionService : Type 0 where
  pub actor : String
  pub principals : List String
  pub changeset_digest : String → ℕ → ResolutionAction → List String → String
  pub approval_digest : ReconciliationCase → ℕ → ResolutionAction → ChangeSet → String

-- What a call returns: the case, and on the way to a resolution the ChangeSet and its approval hash.
pub record Resolution : Type 0 where
  pub case_version : ReconciliationCase
  pub changeset : Option ChangeSet
  pub approval_hash : Option String

abbrev pub is_set_aside : ResolutionAction → Bool
is_set_aside defer = true
is_set_aside mark_false_positive = true
is_set_aside _ = false

abbrev pub status_of : ResolutionAction → ReconciliationStatus
status_of defer = deferred
status_of _ = false_positive

-- `self._evidence_store.get(reference) for reference in references`
unfoldable pub get_all : List String → List Line → Result ResolutionError (List EvidenceRecord)
unfolding get_evidence
get_all [] evidence = ok []
get_all (r ∷ rs) evidence = do
  e ← attempt (get_evidence r evidence)
  es ← get_all rs evidence
  ok (e ∷ es)

-- `_append_case_versions`
unfoldable pub append_case_versions :
    List ReconciliationCase → LocalState → Result ResolutionError LocalState
unfolding validate_case_appends
append_case_versions cases s = do
  lines ← attempt (validate_case_appends s.cases cases)
  ok (record s { cases = s.cases ++ lines })

-- `case.history[-1].at`
abbrev pub last_time : ReconciliationCase → Result ResolutionError Instant
last_time c = elim (last? c.history) [ none ↦ err resolution_unavailable | some e ↦ ok e.at ]

abbrev pub is_approved : Option String → String → Bool
is_approved none expected = false
is_approved (some given) expected = given == expected

module _ (self : ResolutionService) where
  -- The fields of `_changeset`.
  abbrev pub changeset_at : ReconciliationCase → ℕ → ResolutionAction → Instant → ChangeSet
  unfolding all_evidence_refs
  changeset_at c version action at = record {
    id =
        joined "changeset:resolve:"
          (self.changeset_digest c.id version action (all_evidence_refs c));
    actor = self.actor;
    timestamp = at;
    baseline_graph_version = version;
    evidence_refs = all_evidence_refs c;
    nodes_added = [];
    nodes_updated = [];
    nodes_superseded = [];
    edges_added = [];
    edges_updated = [];
    edges_superseded = [];
    confidence_changes = [];
    implementation_status_changes = [];
    reconciliation_cases_created = [];
    reconciliation_cases_resolved = c.id ∷ [];
    validation_status = "validated";
  }

  -- `_canonical_changeset`
  unfoldable pub canonical_changeset :
      ReconciliationCase → ℕ → ResolutionAction → Result ResolutionError ChangeSet
  unfolding changeset_at validate_changeset
  canonical_changeset c version action = do
    at ← last_time c
    attempt (validate_changeset (changeset_at c version action at))
    ok (changeset_at c version action at)

  -- An open case that is deferred or marked as false positive.
  unfoldable pub set_aside :
      ReconciliationCase
      → ResolutionAction
      → Instant
      → LocalState
      → Result ResolutionError (Resolution × LocalState)
  unfolding transition_case append_case_versions
  set_aside c action now s = do
    updated ← attempt (transition_case c (status_of action) self.actor (some now) none none)
    s' ← append_case_versions (updated ∷ []) s
    ok (record { case_version = updated; changeset = none; approval_hash = none }, s')

  -- An open case that is put before a human.
  unfoldable pub review :
      ReconciliationCase
      → ResolutionAction
      → Instant
      → LocalState
      → Result ResolutionError (Resolution × LocalState)
  unfolding transition_case append_case_versions canonical_changeset
  review c action now s = do
    first ← attempt (transition_case c proposed self.actor (some now) none none)
    reviewed ← attempt (transition_case first needs_human self.actor (some now) none none)
    changeset ← canonical_changeset reviewed s.graph.version action
    s' ← append_case_versions (first ∷ reviewed ∷ []) s
    ok (
      record {
        case_version = reviewed;
        changeset = some changeset;
        approval_hash = some (self.approval_digest reviewed s.graph.version action changeset);
      },
      s',
    )

  -- A reviewed case that is resolved.
  unfoldable pub close_case :
      ReconciliationCase
      → ResolutionAction
      → Option String
      → Instant
      → LocalState
      → Result ResolutionError (Resolution × LocalState)
  unfolding transition_case canonical_changeset apply
  close_case c action approve now s = do
    require (not (is_set_aside action))
    require (same_stage c.status needs_human)
    changeset ← canonical_changeset c s.graph.version action
    require (is_approved approve (self.approval_digest c s.graph.version action changeset))
    closed ←
        attempt (transition_case c resolved self.actor (some now) (some action) (some changeset.id))
    (next, s') ← attempt (apply changeset [] (closed ∷ []) s)
    ok (record { case_version = closed; changeset = some changeset; approval_hash = none }, s')

  unfoldable pub resolve :
      String
      → ResolutionAction
      → Option String
      → Instant
      → LocalState
      → List Line
      → Result ResolutionError (Resolution × LocalState)
  unfolding get get_all all_evidence_refs refs_allowed set_aside review close_case
  resolve case_id action approve now s evidence = do
    c ← attempt (get case_id s.cases)
    records ← get_all (all_evidence_refs c) evidence
    require (refs_allowed (all_evidence_refs c) records (many self.principals))
    if same_stage c.status opened
        then (if is_set_aside action then set_aside c action now s else review c action now s)
        else close_case c action approve now s
