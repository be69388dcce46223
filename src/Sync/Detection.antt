-- ===== src/Sync/Detection.antt =====
-- The cases of a run of synchronisation: `_apply_detected_cases` of
-- src/intent_engineering/sync/orchestrator.py, without a service of assurance. What the detector
-- observes, the readings of the clock and the digest are parameters.
pub mod Fresh
use intent_engineer.Base.{
  ℕ, String, Bool, true, false, not, ◌&&◌, Option, none, some, List, [], ◌∷◌, ◌++◌, map, length,
  is_empty, if◌then◌else◌, Result, ok, err, ◌>>=◌, ◌>>◌, raise_if, map_err,
}
use intent_engineer.Base.Text.{text_le}
use intent_engineer.Base.Texts.{elem}
use intent_engineer.Base.Sorted.{sorted_set}
use intent_engineer.Core.Vocabulary.{opened}
use intent_engineer.Core.Graph.{Graph, Instant}
use intent_engineer.Core.ChangeSet.{ChangeSet, ChangeSetError, validate_changeset}
use intent_engineer.Reconcile.Cases.{
  DriftObservation, ReconciliationCase, CaseError, validate_case, all_evidence_refs,
}
use intent_engineer.Storage.CaseLog.{CaseStoreError}
use intent_engineer.Storage.CaseLog.Store.{list}
use intent_engineer.Storage.Changes.{LocalState, ExecutorError, case_ids, apply}
use intent_engineer.Mutations.Texts.{joined}
use intent_engineer.Sync.Collection.{Delta}

pub data DetectionError : Type 0 where
  no_executor : DetectionError
  invalid_case : CaseError → DetectionError
  unreadable_cases : CaseStoreError → DetectionError
  invalid_changeset : ChangeSetError → DetectionError
  not_executed : ExecutorError → DetectionError

-- What `SyncOrchestrator` has for this: its detector, whether it has an executor, its clock, as it is
-- read for the case of an observation and for the ChangeSet, and the digest of the ChangeSet's material.
pub record Detection : Type 0 where
  pub detect : Delta → Graph → List DriftObservation
  pub has_executor : Bool
  pub case_time : DriftObservation → Instant
  pub now : Instant
  pub digest : ℕ → List String → List String → String

abbrev pub fingerprints : List DriftObservation → List String
fingerprints os = map (λ o. o.fingerprint) os

abbrev pub case_fingerprints : List ReconciliationCase → List String
case_fingerprints cs = map (λ c. c.fingerprint) cs

abbrev pub insert_by_fingerprint : DriftObservation → List DriftObservation → List DriftObservation
insert_by_fingerprint o [] = o ∷ []
insert_by_fingerprint o (p ∷ ps) =
    if text_le o.fingerprint p.fingerprint then o ∷ p ∷ ps else p ∷ insert_by_fingerprint o ps

-- `sorted(observations, key=lambda item: item.fingerprint)`
abbrev pub sort_by_fingerprint : List DriftObservation → List DriftObservation
sort_by_fingerprint [] = []
sort_by_fingerprint (o ∷ os) = insert_by_fingerprint o (sort_by_fingerprint os)

-- The case of an observation, with the defaults of its other fields.
unfoldable pub case_of_observation : DriftObservation → Instant → ReconciliationCase
case_of_observation o at = record {
  id = joined "case:sha256:" o.fingerprint;
  subject_ref = o.subject_ref;
  case_type = o.case_type;
  affected_refs = o.affected_refs;
  evidence_sides = o.evidence_sides;
  detector_id = o.detector_id;
  fingerprint = o.fingerprint;
  created_at = at;
  created_by = joined "detector:" o.detector_id;
  status = opened;
  requires_human = o.requires_human;
  alternatives = [];
  impact = "";
  resolution = none;
  resolved_by_changeset = none;
  history = [];
}

abbrev pub evidence_refs_of : List ReconciliationCase → List String
unfolding all_evidence_refs
evidence_refs_of [] = []
evidence_refs_of (c ∷ cs) = all_evidence_refs c ++ evidence_refs_of cs

module _ (self : Detection) where
  -- The loop over the observations, which passes over known fingerprints.
  unfoldable pub new_cases :
      List DriftObservation → List String → Result DetectionError (List ReconciliationCase)
  unfolding case_of_observation validate_case
  new_cases [] known = ok []
  new_cases (o ∷ os) known = elim (elem o.fingerprint known) [
    | true ↦ new_cases os known
    | false ↦
        map_err invalid_case (validate_case (case_of_observation o (self.case_time o)))
        >> new_cases os (o.fingerprint ∷ known)
        >>= λ cs. ok (case_of_observation o (self.case_time o) ∷ cs)
  ]

  -- The ChangeSet that creates the cases
  abbrev pub detected_changeset : ℕ → List ReconciliationCase → ChangeSet
  unfolding sorted_set
  detected_changeset version cases =
      let refs = sorted_set (evidence_refs_of cases) in
      record {
        id = joined "changeset:detect:" (self.digest version (case_ids cases) refs);
        actor = "detector:sync";
        timestamp = self.now;
        baseline_graph_version = version;
        evidence_refs = refs;
        nodes_added = [];
        nodes_updated = [];
        nodes_superseded = [];
        edges_added = [];
        edges_updated = [];
        edges_superseded = [];
        confidence_changes = [];
        implementation_status_changes = [];
        reconciliation_cases_created = case_ids cases;
        reconciliation_cases_resolved = [];
        validation_status = "validated";
      }

  -- What follows where there are new cases.
  unfoldable pub create_cases :
      List ReconciliationCase → LocalState → Result DetectionError ((ℕ × ℕ) × LocalState)
  unfolding detected_changeset validate_changeset apply
  create_cases [] s = ok ((0, 0), s)
  create_cases (c ∷ cs) s = do
    raise_if (not self.has_executor) no_executor
    let made = detected_changeset s.graph.version (c ∷ cs) in
        (do
          map_err invalid_changeset (validate_changeset made)
          (next, s') ← map_err not_executed (apply made (c ∷ cs) [] s)
          ok ((length (c ∷ cs), 1), s'))

  -- `_apply_detected_cases`: how many cases and changes there are, and the state.
  unfoldable pub apply_detected_cases :
      Delta → LocalState → Result DetectionError ((ℕ × ℕ) × LocalState)
  unfolding list new_cases create_cases
  apply_detected_cases delta s = if is_empty delta.added then ok ((0, 0), s) else (do
    latest ← map_err unreadable_cases (list none s.cases)
    cases ← new_cases (sort_by_fingerprint (self.detect delta s.graph)) (case_fingerprints latest)
    create_cases cases s)
