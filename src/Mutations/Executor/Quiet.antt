-- ===== src/Mutations/Executor/Quiet.antt =====
-- The runs of `WriteExecutor.execute` of src/intent_engineering/mutations/executor.py that neither claim
-- a write nor send one, which is all that is left once the operation was called or an error is found.
use intent_engineer.Base.{if_cases, String, Bool, true, false, Option, none, some}
use intent_engineer.Core.Graph.{Instant}
use intent_engineer.Mutations.Models.{
  WritePlan, ApprovalRecord, ExecutionReceipt, RemoteObject, WriteResult, ReceiptStatus, succeeded,
  failed, RedactedError, permission_denied, provider_failure, Digests,
}
use intent_engineer.Mutations.Executor.{make_receipt}
use intent_engineer.Mutations.Executor.Program.{
  ProviderAnswer, answered, denied, failed_call, aborted_call, StoreAnswer, stored, unavailable,
  aborted, Program, finished, read_inputs, get_receipt, claim_write, complete_write, fetch_target,
  execute_operation, commit_success, checked_target, is_target, fail_with, succeed_with,
  after_verification, after_execution, after_second_look, after_completion, after_commit,
}

abbrev pub IsQuiet : Program → Type 0
IsQuiet (finished o) = Unit
IsQuiet (read_inputs p a next) = (x : StoreAnswer Unit) → IsQuiet (next x)
IsQuiet (get_receipt p a next) = (x : StoreAnswer (Option ExecutionReceipt)) → IsQuiet (next x)
IsQuiet (claim_write c next) = ⊥
IsQuiet (complete_write r next) = (x : StoreAnswer Bool) → IsQuiet (next x)
IsQuiet (fetch_target plan next) = (x : ProviderAnswer RemoteObject) → IsQuiet (next x)
IsQuiet (execute_operation plan approval operation arguments next) = ⊥
IsQuiet (commit_success r plan approval result next) = (x : StoreAnswer Unit) → IsQuiet (next x)

module _ (digests : Digests) (plan : WritePlan) (approval : ApprovalRecord) (actor : String)
    (now : Instant) where
  pub completion-IsQuiet :
      (receipt : ExecutionReceipt) (x : StoreAnswer Bool) → IsQuiet (after_completion receipt x)
  completion-IsQuiet receipt (stored true) = tt
  completion-IsQuiet receipt (stored false) = tt
  completion-IsQuiet receipt unavailable = tt
  completion-IsQuiet receipt aborted = tt

  pub commit-IsQuiet :
      (receipt : ExecutionReceipt) (x : StoreAnswer Unit) → IsQuiet (after_commit receipt x)
  commit-IsQuiet receipt (stored done) = tt
  commit-IsQuiet receipt unavailable = tt
  commit-IsQuiet receipt aborted = tt

  pub fail-IsQuiet :
      (status : ReceiptStatus) (error : RedactedError)
      → IsQuiet (fail_with digests plan approval actor now status error)
  unfolding fail_with
  fail-IsQuiet status error =
      completion-IsQuiet (make_receipt digests plan approval actor now status none (some error))

  pub succeed-IsQuiet :
      (version : String) → IsQuiet (succeed_with digests plan approval actor now version)
  unfolding succeed_with make_receipt
  succeed-IsQuiet version =
      commit-IsQuiet (make_receipt digests plan approval actor now succeeded (some version) none)

  pub verification-IsQuiet :
      (result : WriteResult) (x : ProviderAnswer RemoteObject)
      → IsQuiet (after_verification digests plan approval actor now result x)
  unfolding after_verification succeed_with
  verification-IsQuiet result aborted_call = tt
  verification-IsQuiet result denied = tt
  verification-IsQuiet result failed_call = tt
  verification-IsQuiet result (answered verified) =
      if_cases IsQuiet (is_target plan result.resulting_version plan.after verified) _ _
        (λ same. succeed-IsQuiet result.resulting_version) tt

  pub execution-IsQuiet :
      (x : ProviderAnswer WriteResult) → IsQuiet (after_execution digests plan approval actor now x)
  unfolding after_execution
  execution-IsQuiet aborted_call = tt
  execution-IsQuiet denied = fail-IsQuiet failed permission_denied
  execution-IsQuiet failed_call = fail-IsQuiet failed provider_failure
  execution-IsQuiet (answered result) = λ x. verification-IsQuiet result (checked_target x)

  pub second_look-IsQuiet :
      (x : StoreAnswer (Option ExecutionReceipt)) → IsQuiet (after_second_look x)
  second_look-IsQuiet aborted = tt
  second_look-IsQuiet unavailable = tt
  second_look-IsQuiet (stored none) = tt
  second_look-IsQuiet (stored (some completed)) = tt
