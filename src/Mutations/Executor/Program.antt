-- ===== src/Mutations/Executor/Program.antt =====
-- `WriteExecutor.execute` of src/intent_engineering/mutations/executor.py as the tree of its calls of
-- the stores, the provider and the committer, each followed by what is done for every answer.
use intent_engineer.Base.{
  String, Bool, true, false, not, ◌&&◌, ◌||◌, Option, none, some, ◌==◌, leb, ltb, is_none,
  if◌then◌else◌,
}
use intent_engineer.Core.Graph.{Instant}
use intent_engineer.Storage.Evidence.{JsonFields, json_text, no_fields, add_field}
use intent_engineer.Storage.Receipts.{Claim}
use intent_engineer.Mutations.Models.{
  WritePlan, ApprovalRecord, ExecutionReceipt, RemoteObject, WriteResult, ReceiptStatus, succeeded,
  rejected, failed, RedactedError, target_changed, permission_denied, provider_failure, Digests,
  is_remote_object, is_write_result, same_object, is_flat,
}
use intent_engineer.Mutations.Executor.{WriteExecutor, validated_inputs, make_receipt}

-- What a call of the provider comes to: an answer, `McpPermissionError`, another `Exception`, or an
-- exception that is none, as a cancellation.
pub data ProviderAnswer (A : Type 0) : Type 0 where
  answered : A → ProviderAnswer A
  denied failed_call aborted_call : ProviderAnswer A

-- What a call of a store or of the committer comes to.
pub data StoreAnswer (A : Type 0) : Type 0 where
  stored : A → StoreAnswer A
  unavailable aborted : StoreAnswer A

-- How `execute` ends: a receipt is returned, `ExecutionUnavailable` is raised, or the abort is, or the
-- `ValueError` of `detached_json`.
pub data Outcome : Type 0 where
  returned : ExecutionReceipt → Outcome
  execution_unavailable raised_abort raised_error : Outcome

-- A call of the provider keeps the plan and the approval that it is made for. The reads of plan and
-- approval are one call, whose answer is whether they return.
pub data Program : Type 0 where
  finished : Outcome → Program
  read_inputs : String → String → (StoreAnswer Unit → Program) → Program
  get_receipt : String → String → (StoreAnswer (Option ExecutionReceipt) → Program) → Program
  claim_write : Claim → (StoreAnswer Bool → Program) → Program
  complete_write : ExecutionReceipt → (StoreAnswer Bool → Program) → Program
  fetch_target : WritePlan → (ProviderAnswer RemoteObject → Program) → Program
  execute_operation :
      WritePlan
      → ApprovalRecord
      → String
      → JsonFields
      → (ProviderAnswer WriteResult → Program)
      → Program
  commit_success :
      ExecutionReceipt
      → WritePlan
      → ApprovalRecord
      → WriteResult
      → (StoreAnswer Unit → Program)
      → Program

-- `_fetch_target_safely`
unfoldable pub checked_target : ProviderAnswer RemoteObject → ProviderAnswer RemoteObject
unfolding is_remote_object
checked_target (answered o) = if is_remote_object o then answered o else failed_call
checked_target answer = answer

-- `_execute_provider_safely`
unfoldable pub checked_result : String → ProviderAnswer WriteResult → ProviderAnswer WriteResult
unfolding is_write_result
checked_result before_version (answered r) =
    if is_write_result r && not (r.resulting_version == before_version)
    then answered r
    else failed_call
checked_result before_version answer = answer

-- The target as the plan names it, with a version and a content.
unfoldable pub is_target : WritePlan → String → JsonFields → RemoteObject → Bool
is_target plan version content current =
    current.connector_id == plan.connector_id
    && (current.profile_id == plan.profile_id
        && (current.profile_version == plan.profile_version
            && (current.object_type == plan.object_type
                && (current.id == plan.target_id
                    && (current.version == version && same_object current.content content)))))

-- The end of a run that is not committed: the receipt is completed, then returned.
abbrev pub after_completion : ExecutionReceipt → StoreAnswer Bool → Program
after_completion receipt (stored true) = finished (returned receipt)
after_completion receipt (stored false) = finished execution_unavailable
after_completion receipt unavailable = finished execution_unavailable
after_completion receipt aborted = finished raised_abort

-- Whether the plan and the approval hold now.
unfoldable pub is_timely : WritePlan → ApprovalRecord → Instant → Bool
is_timely plan approval now = not (
    ltb now plan.created_at
    || leb plan.expires_at now
    || ltb now approval.approved_at
    || leb approval.expires_at now)

-- Where the write is claimed by another run.
abbrev pub after_second_look : StoreAnswer (Option ExecutionReceipt) → Program
after_second_look aborted = finished raised_abort
after_second_look unavailable = finished execution_unavailable
after_second_look (stored none) = finished execution_unavailable
after_second_look (stored (some completed)) = finished (returned completed)

abbrev pub after_commit : ExecutionReceipt → StoreAnswer Unit → Program
after_commit receipt (stored done) = finished (returned receipt)
after_commit receipt unavailable = finished execution_unavailable
after_commit receipt aborted = finished raised_abort

module _ (digests : Digests) (plan : WritePlan) (approval : ApprovalRecord) (actor : String)
    (now : Instant) where
  -- `_failure_receipt`, completed and returned
  unfoldable pub fail_with : ReceiptStatus → RedactedError → Program
  unfolding make_receipt
  fail_with status error =
      let receipt = make_receipt digests plan approval actor now status none (some error) in
      complete_write receipt (after_completion receipt)

  -- The commit of a write that the provider has been seen to have made.
  unfoldable pub succeed_with : String → Program
  unfolding make_receipt
  succeed_with version =
      let result : WriteResult = record {
        resulting_version = version;
        redacted_result = add_field "status" (json_text "verified") no_fields;
      } in
      let receipt = make_receipt digests plan approval actor now succeeded (some version) none in
      if is_none receipt.evidence_ref
      then finished execution_unavailable
      else commit_success receipt plan approval result (after_commit receipt)

  unfoldable pub after_verification : WriteResult → ProviderAnswer RemoteObject → Program
  unfolding succeed_with is_target
  after_verification result aborted_call = finished raised_abort
  after_verification result (answered verified) =
      if is_target plan result.resulting_version plan.after verified
      then succeed_with result.resulting_version
      else finished execution_unavailable
  after_verification result _ = finished execution_unavailable

  unfoldable pub after_execution : ProviderAnswer WriteResult → Program
  unfolding after_verification fail_with checked_target
  after_execution aborted_call = finished raised_abort
  after_execution denied = fail_with failed permission_denied
  after_execution failed_call = fail_with failed provider_failure
  after_execution (answered result) =
      fetch_target plan (λ answer. after_verification result (checked_target answer))

  -- The call of the provider, for which the frozen arguments of the plan have to be detached.
  abbrev pub send : Program
  send =
      if is_flat plan.arguments
      then execute_operation plan approval plan.provider_operation plan.arguments
          (λ answer. after_execution (checked_result plan.before_version answer))
      else finished raised_error

  unfoldable pub after_fetch : ProviderAnswer RemoteObject → Program
  unfolding is_flat after_execution fail_with is_target checked_result
  after_fetch aborted_call = finished raised_abort
  after_fetch denied = fail_with failed permission_denied
  after_fetch failed_call = fail_with failed provider_failure
  after_fetch (answered current) =
      if is_target plan plan.before_version plan.before current
      then send
      else fail_with rejected target_changed

  unfoldable pub after_claim : StoreAnswer Bool → Program
  unfolding after_fetch checked_target
  after_claim aborted = finished raised_abort
  after_claim unavailable = finished execution_unavailable
  after_claim (stored false) = get_receipt plan.id approval.id after_second_look
  after_claim (stored true) = fetch_target plan (λ answer. after_fetch (checked_target answer))

  unfoldable pub after_look : StoreAnswer (Option ExecutionReceipt) → Program
  unfolding after_claim is_timely
  after_look aborted = finished raised_abort
  after_look unavailable = finished execution_unavailable
  after_look (stored (some existing)) = finished (returned existing)
  after_look (stored none) =
      if is_timely plan approval now
      then claim_write
          (record { plan_id = plan.id; approval_id = approval.id; actor = actor; claimed_at = now })
          after_claim
      else finished execution_unavailable

module _ (self : WriteExecutor) (plan_id approval_id actor : String) (now : Instant) where
  -- After `_validated_inputs`, of which an exception in the reads is a refusal and an abort is raised.
  unfoldable pub after_inputs : StoreAnswer Unit → Program
  unfolding validated_inputs after_look
  after_inputs aborted = finished raised_abort
  after_inputs unavailable = finished execution_unavailable
  after_inputs (stored done) = elim (validated_inputs self plan_id approval_id actor) [
    | none ↦ finished execution_unavailable
    | some (plan, approval) ↦
        get_receipt plan.id approval.id (after_look self.externals.digests plan approval actor now)
  ]

  unfoldable pub execute : Program
  unfolding after_inputs
  execute = read_inputs plan_id approval_id after_inputs
