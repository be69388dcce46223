-- ===== src/Mutations/Executor/Pool.antt =====
-- Any number of runs of `WriteExecutor.execute` of src/intent_engineering/mutations/executor.py side by
-- side on one file of receipts. A step is one call of one run, with any answer that the call can have:
-- a store may raise or be aborted before or after its line is written. A run that takes no step any
-- more is one whose process has crashed.
use intent_engineer.Base.{ℕ, String, Bool, Option, List, [], ◌∷◌, ◌++◌, ◌+◌, ◌≡◌, Result, ok, ◌>>=◌}
use intent_engineer.Base.Dict.Pairs.{Key, same_key}
use intent_engineer.Core.Graph.{Instant}
use intent_engineer.Storage.Evidence.{JsonFields}
use intent_engineer.Storage.Receipts.{Claim, File, ReceiptStoreError, get_for, claim, complete}
use intent_engineer.Storage.Receipts.Decoding.{one_if}
use intent_engineer.Mutations.Models.{
  WritePlan, ApprovalRecord, ExecutionReceipt, RemoteObject, WriteResult, Digests,
}
use intent_engineer.Mutations.Executor.{WriteExecutor}
use intent_engineer.Mutations.Executor.Program.{
  ProviderAnswer, StoreAnswer, stored, unavailable, aborted, Program, read_inputs, get_receipt,
  claim_write, complete_write, fetch_target, execute_operation, commit_success, execute,
}

-- A call of the operation of a provider, under the plan and the approval that it was made for.
pub record Call : Type 0 where
  pub key : Key
  pub operation : String
  pub arguments : JsonFields

abbrev pub count_calls : Key → List Call → ℕ
count_calls key [] = 0
count_calls key (c ∷ cs) = one_if (same_key c.key key) + count_calls key cs

-- What a call of a store on a file can come to, where the method on that file has a result.
pub data Answers {A : Type 0} (file : File) (result : Result ReceiptStoreError (A × File))
    : StoreAnswer A → File → Type 0 where
  works : (a : A) (file' : File) → result ≡ ok (a, file') → Answers file result (stored a) file'
  raises : Answers file result unavailable file
  raises_late :
      (a : A) (file' : File) → result ≡ ok (a, file') → Answers file result unavailable file'
  aborts : Answers file result aborted file
  aborts_late : (a : A) (file' : File) → result ≡ ok (a, file') → Answers file result aborted file'

-- What a commit does to the file of receipts.
unfoldable pub commit_receipt :
    Digests → ExecutionReceipt → File → Result ReceiptStoreError (Unit {0} × File)
unfolding complete
commit_receipt digests r file = do (new, file') ← complete digests r file; ok (tt, file')

unfoldable pub look_up :
    Digests → Key → File → Result ReceiptStoreError (Option ExecutionReceipt × File)
unfolding get_for
look_up digests key file = do found ← get_for digests key file; ok (found, file)

module _ (digests : Digests) where
  -- A step of a run: the run and the file before, those after, and the calls of the operation.
  pub data RunStep : Program → File → Program → File → List Call → Type 0 where
    reads :
        {plan_id approval_id : String} {next : StoreAnswer Unit → Program} {file : File}
        (x : StoreAnswer Unit)
        → RunStep (read_inputs plan_id approval_id next) file (next x) file []
    looks :
        {plan_id approval_id : String} {next : StoreAnswer (Option ExecutionReceipt) → Program}
        {file file' : File} {x : StoreAnswer (Option ExecutionReceipt)}
        → Answers file (look_up digests (plan_id, approval_id) file) x file'
        → RunStep (get_receipt plan_id approval_id next) file (next x) file' []
    claims :
        {c : Claim} {next : StoreAnswer Bool → Program} {file file' : File} {x : StoreAnswer Bool}
        → Answers file (claim digests c file) x file'
        → RunStep (claim_write c next) file (next x) file' []
    completes :
        {r : ExecutionReceipt} {next : StoreAnswer Bool → Program} {file file' : File}
        {x : StoreAnswer Bool}
        → Answers file (complete digests r file) x file'
        → RunStep (complete_write r next) file (next x) file' []
    fetches :
        {plan : WritePlan} {next : ProviderAnswer RemoteObject → Program} {file : File}
        (x : ProviderAnswer RemoteObject)
        → RunStep (fetch_target plan next) file (next x) file []
    executes :
        {plan : WritePlan} {approval : ApprovalRecord} {operation : String} {arguments : JsonFields}
        {next : ProviderAnswer WriteResult → Program} {file : File} (x : ProviderAnswer WriteResult)
        → RunStep (execute_operation plan approval operation arguments next) file (next x) file (
            record { key = (plan.id, approval.id); operation = operation; arguments = arguments }
            ∷ [])
    commits :
        {r : ExecutionReceipt} {plan : WritePlan} {approval : ApprovalRecord} {result : WriteResult}
        {next : StoreAnswer Unit → Program} {file file' : File} {x : StoreAnswer Unit}
        → Answers file (commit_receipt digests r file) x file'
        → RunStep (commit_success r plan approval result next) file (next x) file' []

  -- One of the runs takes a step.
  pub data PoolStep : List Program → File → List Program → File → List Call → Type 0 where
    here :
        {run run' : Program} {runs : List Program} {file file' : File} {made : List Call}
        → RunStep run file run' file' made
        → PoolStep (run ∷ runs) file (run' ∷ runs) file' made
    there :
        {run : Program} {runs runs' : List Program} {file file' : File} {made : List Call}
        → PoolStep runs file runs' file' made
        → PoolStep (run ∷ runs) file (run ∷ runs') file' made

  -- From a file without runs, executors start runs, and runs take steps: the runs that are going on,
  -- the file, and the calls of operations so far.
  pub data Reachable (initial : File) : List Program → File → List Call → Type 0 where
    begin : Reachable initial [] initial []
    start :
        {runs : List Program} {file : File} {calls : List Call} (self : WriteExecutor)
        (plan_id approval_id actor : String) (now : Instant)
        → Reachable initial runs file calls
        → Reachable initial (execute self plan_id approval_id actor now ∷ runs) file calls
    step :
        {runs runs' : List Program} {file file' : File} {calls made : List Call}
        → Reachable initial runs file calls
        → PoolStep runs file runs' file' made
        → Reachable initial runs' file' (made ++ calls)
