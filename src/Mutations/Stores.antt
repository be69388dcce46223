-- ===== src/Mutations/Stores.antt =====
-- What the stores of plans and approvals need of their models: src/intent_engineering/mutations/models.py
-- and the two classes at the end of src/intent_engineering/storage/jsonl/approval_store.py.
use intent_engineer.Base.{String, Bool, ◌&&◌, ◌==◌, eqb}
use intent_engineer.Storage.CaseLog.{same_action}
use intent_engineer.Storage.Evidence.{same_texts}
use intent_engineer.Storage.EvidenceLog.{same_json}
use intent_engineer.Storage.MutationStore.{RecordModel}
use intent_engineer.Mutations.Models.{
  WritePlan, ApprovalRecord, Digests, is_plan, is_approval, same_object,
}

-- `a == b`
unfoldable pub same_plan : WritePlan → WritePlan → Bool
unfolding same_json
same_plan a b =
    a.id == b.id
    && a.case_id == b.case_id
    && a.connector_id == b.connector_id
    && a.profile_id == b.profile_id
    && a.profile_version == b.profile_version
    && a.object_type == b.object_type
    && a.target_ref == b.target_ref
    && a.binding_hash == b.binding_hash
    && a.write_contract_hash == b.write_contract_hash
    && a.operation == b.operation
    && a.provider_operation == b.provider_operation
    && same_action a.resolution_action b.resolution_action
    && a.target_id == b.target_id
    && a.before_version == b.before_version
    && same_object a.before b.before
    && same_object a.after b.after
    && same_object a.arguments b.arguments
    && same_texts a.evidence_refs b.evidence_refs
    && same_texts a.conflicting_authors b.conflicting_authors
    && a.created_by == b.created_by
    && same_texts a.created_by_aliases b.created_by_aliases
    && eqb a.created_at b.created_at
    && eqb a.expires_at b.expires_at

unfoldable pub same_approval : ApprovalRecord → ApprovalRecord → Bool
same_approval a b =
    a.id == b.id
    && a.plan_id == b.plan_id
    && a.plan_hash == b.plan_hash
    && a.target_version == b.target_version
    && a.actor == b.actor
    && same_texts a.actor_aliases b.actor_aliases
    && eqb a.plan_created_at b.plan_created_at
    && eqb a.plan_expires_at b.plan_expires_at
    && eqb a.approved_at b.approved_at
    && eqb a.expires_at b.expires_at

-- `JsonlWritePlanStore`, with the canonical JSON of a plan
unfoldable pub write_plan_store : Digests → (WritePlan → String) → RecordModel WritePlan
unfolding is_plan same_plan
write_plan_store digests to_json = record {
  id_of = λ p. p.id;
  is_valid = is_plan digests;
  same = same_plan;
  serialize = to_json;
}

-- `JsonlApprovalStore`
unfoldable pub approval_store : Digests → (ApprovalRecord → String) → RecordModel ApprovalRecord
unfolding is_approval same_approval
approval_store digests to_json = record {
  id_of = λ a. a.id;
  is_valid = is_approval digests;
  same = same_approval;
  serialize = to_json;
}
