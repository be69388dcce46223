-- ===== src/Tests/Mutations.antt =====
-- The models of src/intent_engineering/mutations and of its stores on small inputs.
use intent_engineer.Base.{
  String, true, false, none, some, List, [], ◌∷◌, ◌++◌, ◌≡◌, ◌≤◌, ◌⊎◌, refl, ok,
}
use intent_engineer.Base.Dict.{Dict}
use intent_engineer.Base.Dict.Pairs.{lookup_pair}
use intent_engineer.Core.Vocabulary.{update_requirement}
use intent_engineer.Storage.Evidence.{JsonFields, json_text, no_fields, add_field}
use intent_engineer.Base.Text.{is_one_line}
use intent_engineer.Storage.MutationStore.{Line, record_line, put, get}
use intent_engineer.Storage.MutationStore.Laws.{put-get_immutable}
use intent_engineer.Storage.Receipts.{
  Claim, claim_line, receipt_line, File, claim_key, receipt_key, decode_content, complete, claim,
  get_for, Index,
}
use intent_engineer.Storage.Receipts.Decoding.{count_claims, count_receipts}
use intent_engineer.Storage.Receipts.Settled.{decode_content-IsOnce}
use intent_engineer.Storage.Receipts.Methods.{complete-get_for, claim-ok}
use intent_engineer.Mutations.Models.{
  WritePlan, ApprovalRecord, ExecutionReceipt, RemoteObject, Digests, failed, provider_failure,
}
use intent_engineer.Mutations.Profile.{
  ProviderBinding, Selector, WriteOperationProfile, field, target_id, before_version,
}
use intent_engineer.Mutations.Authorization.{approve_plan}
use intent_engineer.Mutations.Authorization.Independence.{
  IsIndependentApproval, IsTimely, approve_plan-IsIndependentApproval, approve_plan-IsTimely,
}
use intent_engineer.Mutations.Stores.{approval_store, same_approval}
use intent_engineer.Mutations.Executor.{WriteExecutor, validated_inputs}
use intent_engineer.Mutations.Executor.Program.{
  Program, execute, answered, stored, failed_call, after_inputs, after_look, after_claim,
  after_fetch, after_execution, checked_target, checked_result,
}
use intent_engineer.Mutations.Executor.Pool.{
  Call, count_calls, works, reads, looks, claims, fetches, executes, here, Reachable, begin, start,
  step, look_up,
}
use intent_engineer.Mutations.Executor.Once.{calls-le-one}
use intent_engineer.Mutations.Executor.Permission.{IsGuarded, IsPermitted}
use intent_engineer.Mutations.Executor.Guards.{execute-IsGuarded}

abbrev hex : String
hex = "0123456789abcdef0123456789abcdef0123456789abcdef0123456789abcdef"

abbrev digests : Digests
digests = record { of_plan = λ p. hex; of_approval = λ a. hex; of_receipt = λ r. hex }

abbrev pub hash : String
hash = "sha256:0123456789abcdef0123456789abcdef0123456789abcdef0123456789abcdef"

abbrev pub title : String → JsonFields
title t = add_field "title" (json_text t) no_fields

abbrev pub plan : WritePlan
plan = record {
  id = "write-plan:sha256:0123456789abcdef0123456789abcdef0123456789abcdef0123456789abcdef";
  case_id = "case:1";
  connector_id = "tracker";
  profile_id = "tracker";
  profile_version = "1";
  object_type = "issue";
  target_ref = "tracker:7";
  binding_hash = hash;
  write_contract_hash = hash;
  operation = "retitle";
  provider_operation = "update_issue";
  resolution_action = update_requirement;
  target_id = "7";
  before_version = "1";
  before = title "old";
  after = title "new";
  arguments = add_field "id" (json_text "7") (add_field "version" (json_text "1") (title "new"));
  evidence_refs = "ev:1" ∷ [];
  conflicting_authors = "bo" ∷ [];
  created_by = "ana";
  created_by_aliases = "ana" ∷ [];
  created_at = 1000;
  expires_at = 2000;
}

abbrev binding : ProviderBinding
binding = record {
  profile_id = "tracker";
  profile_version = "1";
  tools = ("retitle", "update_issue") ∷ [];
  resources = [];
  actor_principals = ("ana", "ana" ∷ []) ∷ ("cy", "cy" ∷ []) ∷ [];
}

abbrev people : Dict (List String)
people = ("ana", "ana" ∷ []) ∷ ("cy", "cyrus" ∷ "cy" ∷ []) ∷ []

abbrev binding_hash : ProviderBinding → String
binding_hash b = hash

abbrev pub confirmation : String
confirmation =
    "approve write-plan:sha256:0123456789abcdef0123456789abcdef0123456789abcdef0123456789abcdef"

abbrev pub approval : ApprovalRecord
approval = record {
  id = "approval:sha256:0123456789abcdef0123456789abcdef0123456789abcdef0123456789abcdef";
  plan_id = "write-plan:sha256:0123456789abcdef0123456789abcdef0123456789abcdef0123456789abcdef";
  plan_hash = hash;
  target_version = "1";
  actor = "cy";
  actor_aliases = "cy" ∷ "cyrus" ∷ [];
  plan_created_at = 1000;
  plan_expires_at = 2000;
  approved_at = 1500;
  expires_at = 2000;
}

approved :
    approve_plan digests binding_hash plan binding "cy" 1500 900 confirmation true
      ("cy" ∷ [])
      people
    ≡ some approval
unfolding approve_plan
approved = refl

approve_plan-IsIndependentApproval_example :
    IsIndependentApproval plan "cy" confirmation true ("cy" ∷ []) approval
approve_plan-IsIndependentApproval_example =
    approve_plan-IsIndependentApproval digests binding_hash plan binding "cy" 1500 900 confirmation
      true ("cy" ∷ []) people approval approved

approve_plan-IsTimely_example : IsTimely plan 1500 900 approval
approve_plan-IsTimely_example =
    approve_plan-IsTimely digests binding_hash plan binding "cy" 1500 900 confirmation true
      ("cy" ∷ []) people approval approved

abbrev claimed : Claim
claimed = record { plan_id = plan.id; approval_id = approval.id; actor = "cy"; claimed_at = 1600 }

abbrev receipt : ExecutionReceipt
receipt = record {
  id = "receipt:sha256:0123456789abcdef0123456789abcdef0123456789abcdef0123456789abcdef";
  plan_id = plan.id;
  plan_hash = hash;
  approval_id = approval.id;
  target_version = "1";
  executed_by = "cy";
  status = failed;
  attempted_at = 1600;
  completed_at = 1600;
  resulting_version = none;
  evidence_ref = none;
  redacted_error = some provider_failure;
}

abbrev settled : File
settled = claim_line claimed ∷ receipt_line receipt ∷ []

completed : complete digests receipt (claim_line claimed ∷ []) ≡ ok (true, settled)
unfolding complete
completed = refl

complete-get_for_example : get_for digests (receipt_key receipt) settled ≡ ok (some receipt)
complete-get_for_example =
    complete-get_for digests receipt (claim_line claimed ∷ []) settled true completed

settled_decoded :
    decode_content digests settled
    ≡ some (record {
      claims = (claim_key claimed, claimed) ∷ [];
      receipts = (receipt_key receipt, receipt) ∷ [];
    })
unfolding decode_content
settled_decoded = refl

abbrev settled_index : Index
settled_index = record {
  claims = (claim_key claimed, claimed) ∷ [];
  receipts = (receipt_key receipt, receipt) ∷ [];
}

decode_content-IsOnce_example :
    (count_claims (claim_key claimed) settled ≤ 1)
    × (count_receipts (claim_key claimed) settled ≤ count_claims (claim_key claimed) settled)
    × ((r : ExecutionReceipt)
        → lookup_pair (claim_key claimed) settled_index.receipts ≡ some r
        → (receipt_key r ≡ claim_key claimed)
          × ((c : Claim) × (lookup_pair (claim_key claimed) settled_index.claims ≡ some c)
              × (c.actor ≡ r.executed_by)))
decode_content-IsOnce_example =
    decode_content-IsOnce digests settled settled_index (claim_key claimed) settled_decoded

claimed_once : claim digests claimed [] ≡ ok (true, claim_line claimed ∷ [])
unfolding claim
claimed_once = refl

claim-ok_example :
    ((true ≡ true)
      × ((claim_line claimed ∷ []) ≡ [] ++ claim_line claimed ∷ [])
      × (count_claims (claim_key claimed) [] ≡ 0))
    ⊎ ((true ≡ false)
        × ((claim_line claimed ∷ []) ≡ [])
        × (count_claims (claim_key claimed) [] ≡ 1))
claim-ok_example = claim-ok digests claimed [] (claim_line claimed ∷ []) true claimed_once

abbrev to_json : ApprovalRecord → String
to_json a = a.id

abbrev approvals : List (Line ApprovalRecord)
approvals = record_line approval.id approval ∷ []

stored_one : put (approval_store digests to_json) approval [] ≡ ok (true, approvals)
unfolding put approval_store is_one_line
stored_one = refl

put-get_immutable_example :
    ((kept : ApprovalRecord) × (get (approval_store digests to_json) approval.id approvals
        ≡ ok kept)
      × ((kept ≡ approval) ⊎ (same_approval kept approval ≡ true)))
    × ((key : String) (old : ApprovalRecord)
        → get (approval_store digests to_json) key [] ≡ ok old
        → get (approval_store digests to_json) key approvals ≡ ok old)
unfolding approval_store is_one_line
put-get_immutable_example =
    put-get_immutable (approval_store digests to_json) approval [] approvals true refl stored_one

abbrev selector : Selector
selector = record { path = "$.id"; transforms = []; required = true }

abbrev retitle : WriteOperationProfile
retitle = record {
  semantic_name = "retitle";
  target_object = "issue";
  target_id = selector;
  before_version = selector;
  allowed_fields = "title" ∷ [];
  arguments = ("id", target_id) ∷ ("version", before_version) ∷ ("title", field "title") ∷ [];
  input_schema = no_fields;
  result_version = selector;
}

abbrev pub executor : WriteExecutor
executor = record {
  externals = record {
    digests = digests;
    binding_hash = binding_hash;
    contract_hash = λ c. hash;
    plan_json = λ p. p.id;
    approval_json = to_json;
    conforms = λ schema written. true;
  };
  plans = record_line plan.id plan ∷ [];
  approvals = approvals;
  profile = record {
    id = "tracker";
    version = "1";
    operations = [];
    writes = ("retitle", retitle) ∷ [];
  };
  binding = binding;
  authorized_contributors = "ana" ∷ [];
  authorized_approvers = "cy" ∷ [];
  authorized_executors = "cy" ∷ [];
  identity_aliases = people;
}

pub validated : validated_inputs executor plan.id approval.id "cy" ≡ some (plan, approval)
unfolding validated_inputs
validated = refl

execute-IsGuarded_example :
    IsGuarded (IsPermitted executor "cy" 1600) none (execute executor plan.id approval.id "cy" 1600)
execute-IsGuarded_example = execute-IsGuarded executor plan.id approval.id "cy" 1600

abbrev pub issue : RemoteObject
issue = record {
  connector_id = "tracker";
  profile_id = "tracker";
  profile_version = "1";
  object_type = "issue";
  id = "7";
  version = "1";
  content = title "old";
}

abbrev call : Call
call = record {
  key = (plan.id, approval.id);
  operation = "update_issue";
  arguments = plan.arguments;
}

-- The operation was called, and its answer is still to be dealt with.
abbrev called : Program
unfolding after_execution
called = after_execution digests plan approval "cy" 1600 failed_call

reached : Reachable digests [] (called ∷ []) (claim_line claimed ∷ []) (call ∷ [])
unfolding called execute after_inputs after_look after_claim after_fetch checked_target
    checked_result validated_inputs look_up claim
reached =
    step
      (step
        (step
          (step
            (step (start executor plan.id approval.id "cy" 1600 begin) (here (reads (stored tt))))
            (here (looks (works none [] refl))))
          (here (claims (works true (claim_line claimed ∷ []) refl))))
        (here (fetches (answered issue))))
      (here (executes failed_call))

calls-le-one_example :
    (count_calls (plan.id, approval.id) (call ∷ []) ≤ 1)
    × (1 ≤ count_claims (plan.id, approval.id) []
        → count_calls (plan.id, approval.id) (call ∷ []) ≡ 0)
calls-le-one_example = calls-le-one digests (plan.id, approval.id) reached
