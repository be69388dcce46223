-- ===== src/Mutations/Executor.antt =====
-- The executor of approved external writes, up to the point where it calls the stores and the
-- provider: src/intent_engineering/mutations/executor.py.
pub mod Program
pub mod Start
pub mod Quiet
pub mod Permission
pub mod Guards
pub mod Pool
pub mod Entitlement
pub mod Once
use intent_engineer.Base.{
  String, Bool, true, false, not, ◌&&◌, ◌||◌, Option, none, some, List, [], ◌∷◌, ◌==◌, eqb, any,
  all, if◌then◌else◌, Result, ok, err,
}
use intent_engineer.Base.Text.{is_blank}
use intent_engineer.Base.Texts.{elem}
use intent_engineer.Base.Dict.{Dict, lookup, contains}
use intent_engineer.Core.Graph.{Instant}
use intent_engineer.Storage.Evidence.{
  JsonFields, json_text, json_object, no_fields, add_field, same_texts,
}
use intent_engineer.Storage.MutationStore.{Line, get}
use intent_engineer.Mutations.Texts.{joined, after_prefix}
use intent_engineer.Mutations.Models.{
  is_flat, has_no_lists, WritePlan, ApprovalRecord, ExecutionReceipt, ReceiptStatus, succeeded,
  rejected, failed, RedactedError, Digests, plan_hash, receipt_hash, same_object,
}
use intent_engineer.Mutations.Profile.{
  ProviderProfile, ProviderBinding, WriteOperationProfile, is_bound_to, bind_arguments,
  write_fields, active_arguments,
}
use intent_engineer.Mutations.Authorization.{authenticated_approval_aliases}
use intent_engineer.Mutations.Stores.{write_plan_store, approval_store}

-- The material of `provider_write_contract_hash`.
pub record WriteContract : Type 0 where
  pub profile_id : String
  pub profile_version : String
  pub semantic_name : String
  pub provider_operation : String
  pub operation : WriteOperationProfile

-- The code outside the package: hashes of canonical JSON, canonical JSON, and the JSON schema
-- validator, which says whether an object conforms to a schema.
pub record Externals : Type 0 where
  pub digests : Digests
  pub binding_hash : ProviderBinding → String
  pub contract_hash : WriteContract → String
  pub plan_json : WritePlan → String
  pub approval_json : ApprovalRecord → String
  pub conforms : JsonFields → JsonFields → Bool

-- The fields of `WriteExecutor`, with the files of its stores of plans and approvals.
pub record WriteExecutor : Type 0 where
  pub externals : Externals
  pub plans : List (Line WritePlan)
  pub approvals : List (Line ApprovalRecord)
  pub profile : ProviderProfile
  pub binding : ProviderBinding
  pub authorized_contributors : List String
  pub authorized_approvers : List String
  pub authorized_executors : List String
  pub identity_aliases : Dict (List String)

module _ (self : WriteExecutor) where
  -- The first test of `_validated_inputs` on the records.
  unfoldable pub is_authorized : WritePlan → ApprovalRecord → String → Bool
  unfolding plan_hash is_blank
  is_authorized plan approval actor =
      not (
        any is_blank self.authorized_contributors
        || any is_blank self.authorized_approvers
        || any is_blank self.authorized_executors)
      && (elem plan.created_by self.authorized_contributors
          && (elem approval.actor self.authorized_approvers
              && (elem actor self.authorized_executors
                  && (actor == approval.actor
                      && (approval.plan_id == plan.id
                          && (approval.plan_hash == plan_hash self.externals.digests plan
                              && (approval.target_version == plan.before_version
                                  && (eqb approval.plan_created_at plan.created_at
                                      && eqb approval.plan_expires_at plan.expires_at))))))))

  -- The rest of that test.
  unfoldable pub has_current_profile : WritePlan → Bool
  unfolding is_bound_to
  has_current_profile plan =
      is_bound_to self.profile self.binding
      && (self.profile.id == plan.profile_id
          && (self.profile.version == plan.profile_version
              && self.externals.binding_hash self.binding == plan.binding_hash))

  -- The test on the operation, by its name at the provider.
  unfoldable pub has_current_contract : WritePlan → WriteOperationProfile → String → Bool
  has_current_contract plan operation tool =
      operation.target_object == plan.object_type
      && (plan.target_ref == joined self.profile.id (joined ":" plan.target_id)
          && (tool == plan.provider_operation
              && self.externals.contract_hash (record {
                profile_id = self.profile.id;
                profile_version = self.profile.version;
                semantic_name = plan.operation;
                provider_operation = tool;
                operation = operation;
              })
                == plan.write_contract_hash))

  -- Whether the aliases on record are those that approved.
  unfoldable pub has_current_aliases : WritePlan → ApprovalRecord → Bool
  unfolding authenticated_approval_aliases
  has_current_aliases plan approval =
      elim (authenticated_approval_aliases self.externals.digests self.externals.binding_hash plan
        self.binding approval.actor self.authorized_contributors self.authorized_approvers
        self.identity_aliases) [
          | none ↦ false
          | some aliases ↦ same_texts aliases approval.actor_aliases
        ]

  abbrev binding_context : WritePlan → JsonFields → JsonFields
  binding_context plan fields_to_write = add_field "target_id" (json_text plan.target_id) (
      add_field "before_version" (json_text plan.before_version)
        (add_field "fields" (json_object fields_to_write) no_fields))

  -- `expected_arguments != dict(plan.arguments)`, where what the plan has is frozen.
  abbrev are_bound : Option JsonFields → JsonFields → Bool
  are_bound none arguments = false
  are_bound (some expected) arguments = same_object expected arguments && has_no_lists arguments

  -- Whether the content of the plan can be detached, and the operation allows the fields and gives the
  -- arguments of the plan.
  unfoldable pub has_current_arguments : WritePlan → WriteOperationProfile → Bool
  unfolding is_flat has_no_lists write_fields active_arguments bind_arguments
  has_current_arguments plan operation =
      let to_write = write_fields operation.allowed_fields plan.after in
      is_flat plan.after
      && self.externals.conforms operation.input_schema to_write
      && are_bound
          (bind_arguments (active_arguments to_write operation.arguments)
            (binding_context plan to_write))
          plan.arguments

  unfoldable pub has_current_operation : WritePlan → Bool
  unfolding has_current_contract has_current_arguments
  has_current_operation plan = elim (lookup plan.operation self.profile.writes) [
    | none ↦ false
    | some operation ↦ elim (lookup plan.operation self.binding.tools) [
      | none ↦ false
      | some tool ↦ has_current_contract plan operation tool && has_current_arguments plan operation
    ]
  ]

  unfoldable pub is_executable : WritePlan → ApprovalRecord → String → Bool
  unfolding is_authorized has_current_profile has_current_operation has_current_aliases
  is_executable plan approval actor =
      is_authorized plan approval actor
      && (has_current_profile plan
          && (has_current_operation plan && has_current_aliases plan approval))

  -- `_validated_inputs`, whose revalidations find what the stores validated when they read it.
  unfoldable pub validated_inputs : String → String → String → Option (WritePlan × ApprovalRecord)
  unfolding is_executable get write_plan_store approval_store
  validated_inputs plan_id approval_id actor =
      elim (get (write_plan_store self.externals.digests self.externals.plan_json) plan_id
        self.plans) [
          | err e ↦ none
          | ok plan ↦
              elim (get (approval_store self.externals.digests self.externals.approval_json)
                approval_id self.approvals) [
                  | err e ↦ none
                  | ok approval ↦
                      if is_executable plan approval actor then some (plan, approval) else none
                ]
        ]

-- `_receipt`, whose result the constructor of `ExecutionReceipt` validates.
unfoldable pub make_receipt :
    Digests
    → WritePlan
    → ApprovalRecord
    → String
    → Instant
    → ReceiptStatus
    → Option String
    → Option RedactedError
    → ExecutionReceipt
unfolding plan_hash receipt_hash after_prefix
make_receipt digests plan approval actor now status version error =
    let material : ExecutionReceipt = record {
      id = "";
      plan_id = plan.id;
      plan_hash = plan_hash digests plan;
      approval_id = approval.id;
      target_version = plan.before_version;
      executed_by = actor;
      status = status;
      attempted_at = now;
      completed_at = now;
      resulting_version = version;
      evidence_ref = none;
      redacted_error = error;
    } in
    let identified : ExecutionReceipt = elim status [
      | succeeded ↦ record material {
        evidence_ref = some (joined "evidence:mcp-write:" (digests.of_receipt material));
      }
      | _ ↦ material
    ] in
    record identified { id = joined "receipt:" (receipt_hash digests identified) }
