-- ===== src/Lib.antt =====
-- Intent Engineering keeps a typed graph of a product's intent beside the code that realises it.
-- Sources are captured as immutable evidence; drift between evidence and graph becomes a
-- reconciliation case; a ChangeSet, approved by a human, changes the graph and resolves the case;
-- all of it is durable in local files. This library models the core of the program, the package
-- src/intent_engineering, and proves what makes it correct.
--
-- The parts and how they interact:
-- Core models core/models and core/graph. Core/Vocabulary has the enumerations (OPEN is `opened`,
-- MODULE is `code_module`, since `open` and `module` are words of the language). Core/Graph has
-- nodes, edges and the graph with `assert_invariants`; Core/ChangeSet the change to a graph with
-- `validate_mutations`; Core/Applier `apply_changeset_with_case_effects`, which makes the next
-- graph.
--
-- Reconcile models core/models/reconciliation.py and reconcile. Reconcile/Cases has the cases with
-- their life cycle, Reconcile/Transition `transition_case`, Reconcile/Drift and Reconcile/Detectors
-- the detectors of drift, whose observations become cases, and Reconcile/Resolution
-- `LocalResolutionService.resolve` (reconcile/local_resolution.py), in which a human resolves a
-- case.
--
-- Storage models core/models/evidence.py, core/policy/access.py and storage. Storage/Evidence has
-- the evidence records and who may read them; Storage/EvidenceLog the file of evidence with the
-- ledgers of the connectors (storage/jsonl/evidence_store.py); Storage/CaseLog the file of case
-- versions (storage/jsonl/case_store.py), which takes what `transition_case` makes; Storage/History
-- the file of applied ChangeSets with its index by subject (storage/jsonl/history_store.py);
-- Storage/Transaction the journal that makes several files change together
-- (storage/transaction.py). Storage/Changes has `LocalChangeSetExecutor.apply`
-- (storage/executor.py) twice: on the states of graph, history and cases, which the resolution of a
-- case calls, and as the block of a transaction on their three files. Storage/MutationStore has the
-- files of write plans and of approvals (storage/jsonl/approval_store.py), Storage/Receipts that of
-- claims and receipts (storage/jsonl/receipt_store.py).
--
-- Mutations models mutations, the writes to external systems. Mutations/Models has plans, approvals
-- and receipts; Mutations/Profile what they read of the profiles of providers
-- (capture/mcp/profile_models.py); Mutations/Authorization who may approve and `approve_plan`;
-- Mutations/Stores what the executor needs of the stores; Mutations/Executor `WriteExecutor`, whose
-- `execute` is in Mutations/Executor/Program a tree: each node is a call of the stores, the
-- provider or the committer, with a branch for each answer. Mutations/Executor/Pool runs any number
-- of executors against one file of receipts, step by step in any order. Mutations/Planner has
-- `build_write_plan` (mutations/planner.py), whose plans are approved and then executed by the
-- other parts.
--
-- Sync models what sync/orchestrator.py does for one connector of a run: Sync/Checkpoints has the
-- checkpoints and their file (storage/yaml/checkpoint_store.py), Sync/Collection the evidence that
-- is not consumed yet, the loop over what the source gives, which writes to the file of
-- Storage/EvidenceLog, and the next checkpoint (capture/checkpoints.py). Sync/Detection has the
-- cases and the ChangeSet that a run without a service of assurance makes of what its detector
-- observes, and applies the ChangeSet by Storage/Changes.
--
-- Base has what the parts share: lists, texts, Python's dicts and sorted sets, and results. Tests
-- has runs on small inputs, and the theorems at inputs that meet their hypotheses.
--
-- How the code is rendered:
-- A method that may raise returns a Result with the exceptions of its module as a data type. A
-- model with validators is a record and a function that validates it; constructing it in Python is
-- to validate it. A dict is an association list in the order of insertion, a set a list that is
-- read by membership only. A confidence is the bit pattern of its IEEE double, whose order on the
-- numbers between 0 and 1 is that of the patterns; an instant is a number of microseconds. The
-- SHA-256 digests are parameters, and so are the connectors to sources, canonical JSON, the
-- validator of JSON schemas and the YAML and JSON forms of graph, history and cases; one theorem
-- assumes of the digest of a fingerprint that it is written as 64 hexadecimal digits, and one that
-- what is written for a ChangeSet is read back. A store reads its file again in every method while
-- it holds the lock, so that its state is the file: the list of its lines, as the JSON reader and
-- the models return them. A text with a separator that str.splitlines knows and JSON does not
-- escape makes what is written for evidence, a plan or an approval a broken line; lines of cases
-- and of the history are taken to hold none. Bytes, JSON and locks are below that. The JSON of a
-- plan is frozen in Python: where the code detaches it or compares it with what is not frozen, the
-- model tests that it has no lists or objects that make this fail. Numbers in a payload are
-- compared as they are written, and a Boolean equals no number. In a transaction what the client
-- does in its block is the list of its writes, and every durable step is a state of its own, after
-- which the machine may stop; the write, the append and the unlink of one file are taken as atomic.
-- Exceptions that leave the commit or the restoration are an argument, Faults. Recovery restores in
-- the order of the journal, where the code goes by name, which makes the same files. The executor's
-- reads of plan and approval are one call of its tree. An exception that is no `Exception` leaves
-- the journal prepared, as a crash does. No definition needs fuel: every loop of the code runs over
-- a list.
--
-- Not modelled: the bounded reads and the nesting of transactions; of the executor of ChangeSets
-- the bindings to earlier contents of files; the committer of external writes beyond its receipt;
-- of a run of synchronisation the reasoner, the snapshots of assurance and the results; the
-- detection from evidence, the intent workflow and the control plane, which are large parts of the
-- core with their own state; and the connectors, the command line, rendering, the web server and
-- the descriptors of files, which are input and output.
pub mod Base
pub mod Core
pub mod Reconcile
pub mod Storage
pub mod Sync
pub mod Mutations
mod Tests
