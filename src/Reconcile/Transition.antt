-- ===== src/Reconcile/Transition.antt =====
-- Life cycle transitions of a case: src/intent_engineering/reconcile/service.py.
pub mod Laws
use intent_engineer.Base.{
  map_err, String, Bool, not, ◌||◌, ◌&&◌, Option, none, some, List, [], ◌∷◌, ◌++◌, ◌==◌,
  if◌then◌else◌, is_none, Result, ok, err, ◌>>=◌, ◌>>◌, raise_if,
}
use intent_engineer.Core.Vocabulary.{ReconciliationStatus, resolved, ResolutionAction, same_stage}
use intent_engineer.Core.Graph.{Instant}
use intent_engineer.Reconcile.Cases.{
  ReconciliationCase, ClassificationEvent, CaseError, allowed, validate_case,
}

-- The exceptions of `transition_case`, and a refusal by the validators of the new version.
pub data TransitionError : Type 0 where
  invalid_transition : ReconciliationStatus → ReconciliationStatus → TransitionError
  missing_evidence : String → TransitionError
  invalid : CaseError → TransitionError

abbrev pub of_case : {A : Type 0} → Result CaseError A → Result TransitionError A
of_case m = map_err invalid m

-- `at`, where `None` raises
abbrev pub require_at : Option Instant → TransitionError → Result TransitionError Instant
require_at none e = err e
require_at (some t) e = ok t

-- What `model_copy` writes.
abbrev pub moved :
    ReconciliationCase
    → ReconciliationStatus
    → String
    → Instant
    → Option ResolutionAction
    → Option String
    → ReconciliationCase
moved c target actor at resolution changeset = record c {
  status = target;
  resolution = if same_stage target resolved then resolution else none;
  resolved_by_changeset = if same_stage target resolved then changeset else none;
  history = c.history ++ record { actor = actor; at = at; prior = c.status; next = target } ∷ [];
}

unfoldable pub transition_case :
    ReconciliationCase
    → ReconciliationStatus
    → String
    → Option Instant
    → Option ResolutionAction
    → Option String
    → Result TransitionError ReconciliationCase
unfolding allowed
transition_case c target actor at resolution changeset = do
  raise_if (not (allowed c.status target)) (invalid_transition c.status target)
  raise_if
      (same_stage target resolved
        && (actor == "" || is_none at || is_none resolution || is_none changeset))
      (missing_evidence c.id)
  raise_if (actor == "") (missing_evidence c.id)
  t ← require_at at (missing_evidence c.id)
  of_case (validate_case (moved c target actor t resolution changeset))
  ok (moved c target actor t resolution changeset)
