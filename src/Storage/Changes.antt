-- ===== src/Storage/Changes.antt =====
-- The executor of complete ChangeSets, src/intent_engineering/storage/executor.py, on the states of the
-- graph, the history and the cases: one function for what a ChangeSet makes of them, and the same as
-- the block of a local transaction on their files. The optional bindings to earlier contents of files
-- are left out.
pub mod Commit
use intent_engineer.Base.{
  map_err, ℕ, String, Bool, true, false, not, ◌&&◌, ◌||◌, Option, none, some, List, [], ◌∷◌, ◌++◌,
  ◌==◌, map, all, any, is_empty, if◌then◌else◌, Result, ok, err, ◌>>=◌, ◌>>◌, raise_if,
}
use intent_engineer.Base.Texts.{elem, is_distinct}
use intent_engineer.Base.Dict.{lookup}
use intent_engineer.Core.Vocabulary.{opened, resolved, same_stage}
use intent_engineer.Core.Graph.{Graph, node_ids}
use intent_engineer.Core.ChangeSet.{ChangeSet, ChangeSetError, validate_changeset}
use intent_engineer.Core.Applier.{ApplyError, apply_changeset_with_case_effects}
use intent_engineer.Reconcile.Cases.{ReconciliationCase}
use intent_engineer.Storage.Evidence.{same_texts}
use intent_engineer.Storage.EvidenceLog.{same_text?}
use intent_engineer.Storage.History.{HistoryLine, changeset_line}
use intent_engineer.Storage.CaseLog.{File, CaseStoreError}
use intent_engineer.Storage.CaseLog.Store.{validate_case_appends}
use intent_engineer.Storage.Transaction.{
  Bytes, Files, Op, write, append, Body, Run, Disk, Coordinator, Faults, TransactionError, recover,
  transact,
}

pub data ExecutorError : Type 0 where
  case_effect_mismatch unreadable_graph : ExecutorError
  invalid_changeset : ChangeSetError → ExecutorError
  not_applied : ApplyError → ExecutorError
  refused_cases : CaseStoreError → ExecutorError
  not_committed : TransactionError → ExecutorError

pub record LocalState : Type 0 where
  pub graph : Graph
  pub history : List HistoryLine
  pub cases : File

abbrev pub of_changeset : Result ChangeSetError Unit → Result ExecutorError Unit
of_changeset m = map_err invalid_changeset m

abbrev pub of_applier : Result ApplyError Graph → Result ExecutorError Graph
of_applier m = map_err not_applied m

abbrev pub of_case_store : Result CaseStoreError File → Result ExecutorError File
of_case_store m = map_err refused_cases m

abbrev pub case_ids : List ReconciliationCase → List String
case_ids = map (λ c. c.id)

-- `_ordered_effects`
unfoldable pub ordered_effects :
    ChangeSet
    → List ReconciliationCase
    → List ReconciliationCase
    → Result ExecutorError (List ReconciliationCase)
ordered_effects c created closed = do
  raise_if
      (not (is_distinct (case_ids created))
        || not (is_distinct (case_ids closed))
        || not (same_texts (case_ids created) c.reconciliation_cases_created)
        || not (same_texts (case_ids closed) c.reconciliation_cases_resolved))
      case_effect_mismatch
  raise_if (any (λ k. not (same_stage k.status opened)) created) case_effect_mismatch
  raise_if
      (any
        (λ k.
          not (same_stage k.status resolved)
          || not (same_text? k.resolved_by_changeset (some c.id)))
        closed)
      case_effect_mismatch
  ok (created ++ closed)

-- The test that the effects are about nodes of the next graph.
unfoldable pub has_unknown_node : Graph → List ReconciliationCase → Bool
has_unknown_node g effects =
    any
      (λ k.
        not (elem k.subject_ref (node_ids g.nodes))
        || any (λ r. not (elem r (node_ids g.nodes))) k.affected_refs)
      effects

-- What is computed inside the transaction: the next graph and the new lines of cases.
unfoldable pub prevalidate :
    ChangeSet → List ReconciliationCase → Graph → File → Result ExecutorError (Graph × File)
unfolding apply_changeset_with_case_effects has_unknown_node validate_case_appends
prevalidate c effects graph cases = do
  next ← of_applier (apply_changeset_with_case_effects graph c)
  raise_if (has_unknown_node next effects) case_effect_mismatch
  lines ← of_case_store (validate_case_appends cases effects)
  ok (next, lines)

-- The validation of the ChangeSet and of the given cases, before the transaction.
unfoldable pub checked_effects :
    ChangeSet
    → List ReconciliationCase
    → List ReconciliationCase
    → Result ExecutorError (List ReconciliationCase)
unfolding validate_changeset ordered_effects
checked_effects c created closed = do
  of_changeset (validate_changeset c)
  ordered_effects c created closed

-- `LocalChangeSetExecutor.apply`, as the states see it
unfoldable pub apply :
    ChangeSet
    → List ReconciliationCase
    → List ReconciliationCase
    → LocalState
    → Result ExecutorError (Graph × LocalState)
unfolding checked_effects prevalidate
apply c created closed s = do
  effects ← checked_effects c created closed
  (next, lines) ← prevalidate c effects s.graph s.cases
  ok (
    next,
    record { graph = next; history = s.history ++ changeset_line c ∷ []; cases = s.cases ++ lines },
  )

-- The YAML and JSON forms: `parse_graph` and `serialize_graph`, the readers of the two other files, and
-- what is appended to them.
pub record Codec : Type 0 where
  pub parse_graph : Bytes → Option Graph
  pub serialize_graph : Graph → Bytes
  pub read_history : Option Bytes → List HistoryLine
  pub serialize_changeset : ChangeSet → Bytes
  pub read_cases : Option Bytes → File
  pub serialize_cases : File → Bytes

module _ (codec : Codec) where
  abbrev pub with_graph : Option Graph → Option Bytes → Option Bytes → Option LocalState
  with_graph none history cases = none
  with_graph (some g) history cases =
      some
        (record { graph = g; history = codec.read_history history; cases = codec.read_cases cases })

  -- A graph file that is not there cannot be read.
  abbrev pub parsed : Option Bytes → Option Graph
  parsed none = none
  parsed (some content) = codec.parse_graph content

  -- What the three files hold, where the graph can be parsed.
  unfoldable pub local_state : Files → Option LocalState
  local_state files =
      with_graph (parsed (lookup "graph" files)) (lookup "history" files) (lookup "cases" files)

  abbrev pub case_ops : File → List Op
  case_ops lines = if is_empty lines then [] else append "cases" (codec.serialize_cases lines) ∷ []

  -- The block that is left by an exception before its first write, or the writes of the ChangeSet.
  abbrev pub body_of : ChangeSet → Result ExecutorError (Graph × File) → Body
  body_of c (err e) = record { ops = []; raises = true }
  body_of c (ok (next, lines)) = record {
    ops =
        write "graph" (codec.serialize_graph next)
        ∷ append "history" (codec.serialize_changeset c)
        ∷ case_ops lines;
    raises = false;
  }

  abbrev pub prevalidated :
      ChangeSet → List ReconciliationCase → Option LocalState → Result ExecutorError (Graph × File)
  unfolding prevalidate
  prevalidated c effects none = err unreadable_graph
  prevalidated c effects (some s) = prevalidate c effects s.graph s.cases

  -- The `with` block on the files.
  unfoldable pub block : ChangeSet → List ReconciliationCase → Files → Body
  unfolding prevalidated local_state
  block c effects files = body_of c (prevalidated c effects (local_state files))

  -- `LocalChangeSetExecutor.apply` on the disk
  unfoldable pub apply_on_disk :
      Coordinator
      → String
      → Faults
      → ChangeSet
      → List ReconciliationCase
      → List ReconciliationCase
      → Disk
      → Result ExecutorError Run
  unfolding checked_effects block recover transact
  apply_on_disk coordinator id faults c created closed disk = do
    effects ← checked_effects c created closed
    elim (recover coordinator disk) [
      | err e ↦ err (not_committed e)
      | ok (found, clean) ↦
          ok (transact coordinator id faults (block c effects clean.files) clean.files)
    ]
