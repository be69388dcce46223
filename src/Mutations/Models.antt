-- ===== src/Mutations/Models.antt =====
-- The records of external writes and their validators: src/intent_engineering/mutations/models.py.
-- The model of a class is a record and a test that holds where its constructor returns.
use intent_engineer.Base.{
  ℕ, String, Bool, true, false, not, ◌&&◌, ◌||◌, Option, none, some, List, [], ◌∷◌, ◌==◌, ◌-◌, ltb,
  leb, eqb, all, is_empty, is_none, is_some,
}
use intent_engineer.Base.Texts.{elem}
use intent_engineer.Base.Sorted.{sorted_set}
use intent_engineer.Core.Graph.{Instant}
use intent_engineer.Core.Vocabulary.{ResolutionAction}
use intent_engineer.Storage.Evidence.{
  JsonFields, no_fields, add_field, json_list, json_object, same_texts,
}
use intent_engineer.Storage.EvidenceLog.{count_fields, same_json}
use intent_engineer.Mutations.Texts.{joined, is_text, is_digest_with}

pub record RemoteObject : Type 0 where
  pub connector_id : String
  pub profile_id : String
  pub profile_version : String
  pub object_type : String
  pub id : String
  pub version : String
  pub content : JsonFields

pub record WritePlan : Type 0 where
  pub id : String
  pub case_id : String
  pub connector_id : String
  pub profile_id : String
  pub profile_version : String
  pub object_type : String
  pub target_ref : String
  pub binding_hash : String
  pub write_contract_hash : String
  pub operation : String
  pub provider_operation : String
  pub resolution_action : ResolutionAction
  pub target_id : String
  pub before_version : String
  pub before : JsonFields
  pub after : JsonFields
  pub arguments : JsonFields
  pub evidence_refs : List String
  pub conflicting_authors : List String
  pub created_by : String
  pub created_by_aliases : List String
  pub created_at : Instant
  pub expires_at : Instant

pub record ApprovalRecord : Type 0 where
  pub id : String
  pub plan_id : String
  pub plan_hash : String
  pub target_version : String
  pub actor : String
  pub actor_aliases : List String
  pub plan_created_at : Instant
  pub plan_expires_at : Instant
  pub approved_at : Instant
  pub expires_at : Instant

pub data ReceiptStatus : Type 0 where
  succeeded rejected failed : ReceiptStatus

pub data RedactedError : Type 0 where
  target_changed permission_denied provider_failure : RedactedError

pub record ExecutionReceipt : Type 0 where
  pub id : String
  pub plan_id : String
  pub plan_hash : String
  pub approval_id : String
  pub target_version : String
  pub executed_by : String
  pub status : ReceiptStatus
  pub attempted_at : Instant
  pub completed_at : Instant
  pub resulting_version : Option String
  pub evidence_ref : Option String
  pub redacted_error : Option RedactedError

pub record WriteResult : Type 0 where
  pub resulting_version : String
  pub redacted_result : JsonFields

-- The digests of `_canonical_hash`, written in hexadecimal: SHA-256 of the canonical JSON.
pub record Digests : Type 0 where
  pub of_plan : WritePlan → String
  pub of_approval : ApprovalRecord → String
  pub of_receipt : ExecutionReceipt → String

-- 15 minutes, for `_MAX_PLAN_WINDOW` and `_MAX_APPROVAL_WINDOW`
abbrev pub max_window : ℕ
max_window = 900000000

-- `a == b`, for JSON objects
abbrev pub same_object : JsonFields → JsonFields → Bool
same_object a b = same_json (json_object a) (json_object b)

-- `_freeze_json` makes a list a tuple and an object a mapping proxy, which `detached_json` of
-- src/intent_engineering/capture/mcp/session.py refuses: only fields without either can be detached.
unfoldable pub is_flat : JsonFields → Bool
is_flat no_fields = true
is_flat (add_field k (json_list vs) fs) = false
is_flat (add_field k (json_object gs) fs) = false
is_flat (add_field k _ fs) = is_flat fs

-- Whether frozen fields equal what they were made from: a tuple equals no list, and a mapping proxy
-- equals what the mapping in it equals.
unfoldable pub has_no_lists : JsonFields → Bool
has_no_lists no_fields = true
has_no_lists (add_field k (json_list vs) fs) = false
has_no_lists (add_field k (json_object gs) fs) = has_no_lists gs && has_no_lists fs
has_no_lists (add_field k _ fs) = has_no_lists fs

abbrev is_empty_object : JsonFields → Bool
is_empty_object fields = eqb (count_fields fields) 0

-- `validate_ordered_identity` and `validate_actor_aliases`
unfoldable pub is_ordered_identity : List String → Bool
unfolding sorted_set is_text
is_ordered_identity xs = not (is_empty xs) && (same_texts (sorted_set xs) xs && all is_text xs)

unfoldable pub is_remote_object : RemoteObject → Bool
unfolding is_text
is_remote_object o =
    all is_text
      (o.connector_id ∷ o.profile_id ∷ o.profile_version ∷ o.object_type ∷ o.id ∷ o.version ∷ [])

unfoldable pub is_write_result : WriteResult → Bool
unfolding is_text
is_write_result r = is_text r.resulting_version

-- The constraints on the fields of `WritePlan`.
unfoldable pub has_plan_fields : WritePlan → Bool
unfolding is_text is_digest_with is_ordered_identity
has_plan_fields p =
    is_digest_with "write-plan:sha256:" p.id
    && (is_digest_with "sha256:" p.binding_hash
        && (is_digest_with "sha256:" p.write_contract_hash
            && (all is_text (
                  p.case_id ∷ p.connector_id ∷ p.profile_id ∷ p.profile_version ∷ p.object_type
                  ∷ p.target_ref ∷ p.operation ∷ p.provider_operation ∷ p.target_id
                  ∷ p.before_version ∷ p.created_by ∷ [])
                && (is_ordered_identity p.evidence_refs
                    && (is_ordered_identity p.conflicting_authors
                        && is_ordered_identity p.created_by_aliases)))))

-- The times of `validate_approval`.
unfoldable pub has_approval_window : ApprovalRecord → Bool
has_approval_window a =
    ltb a.plan_created_at a.plan_expires_at
    && (leb a.plan_created_at a.approved_at
        && (ltb a.approved_at a.plan_expires_at
            && (ltb a.approved_at a.expires_at
                && (leb (a.expires_at - a.approved_at) max_window
                    && leb a.expires_at a.plan_expires_at))))

abbrev has_evidence_identity : Option String → Bool
unfolding is_digest_with
has_evidence_identity none = true
has_evidence_identity (some e) = is_digest_with "evidence:mcp-write:" e

-- The result that fits a status.
unfoldable pub has_result : ExecutionReceipt → Bool
has_result r = elim r.status [
  | succeeded ↦ is_some r.resulting_version && (is_some r.evidence_ref && is_none r.redacted_error)
  | _ ↦ is_none r.resulting_version && (is_none r.evidence_ref && is_some r.redacted_error)
]

module _ (digests : Digests) where
  -- `WritePlan.canonical_hash`: the identity is left out.
  unfoldable pub plan_hash : WritePlan → String
  plan_hash p = joined "sha256:" (digests.of_plan (record p { id = "" }))

  unfoldable pub approval_hash : ApprovalRecord → String
  approval_hash a = joined "sha256:" (digests.of_approval (record a { id = "" }))

  unfoldable pub receipt_hash : ExecutionReceipt → String
  receipt_hash r = joined "sha256:" (digests.of_receipt (record r { id = "" }))

  -- `validate_plan`
  unfoldable pub is_plan : WritePlan → Bool
  unfolding plan_hash has_plan_fields same_json
  is_plan p =
      has_plan_fields p
      && (p.id == joined "write-plan:" (plan_hash p)
          && (ltb p.created_at p.expires_at
              && (leb (p.expires_at - p.created_at) max_window
                  && (elem p.created_by p.created_by_aliases
                      && not (
                          is_empty_object p.before
                          || is_empty_object p.after
                          || is_empty_object p.arguments
                          || same_object p.before p.after)))))

  -- `validate_approval`
  unfoldable pub is_approval : ApprovalRecord → Bool
  unfolding approval_hash is_digest_with is_text is_ordered_identity has_approval_window
  is_approval a =
      is_digest_with "approval:sha256:" a.id
      && (is_digest_with "write-plan:sha256:" a.plan_id
          && (is_digest_with "sha256:" a.plan_hash
              && (is_text a.target_version
                  && (is_text a.actor
                      && (is_ordered_identity a.actor_aliases
                          && (a.id == joined "approval:" (approval_hash a)
                              && (elem a.actor a.actor_aliases
                                  && (a.plan_id == joined "write-plan:" a.plan_hash
                                      && has_approval_window a))))))))

  -- `validate_receipt`
  unfoldable pub is_receipt : ExecutionReceipt → Bool
  unfolding receipt_hash is_digest_with is_text has_result
  is_receipt r =
      is_digest_with "receipt:sha256:" r.id
      && (is_digest_with "write-plan:sha256:" r.plan_id
          && (is_digest_with "sha256:" r.plan_hash
              && (is_digest_with "approval:sha256:" r.approval_id
                  && (is_text r.target_version
                      && (is_text r.executed_by
                          && (elim r.resulting_version [ none ↦ true | some v ↦ is_text v ]
                              && (has_evidence_identity r.evidence_ref
                                  && (r.id == joined "receipt:" (receipt_hash r)
                                      && (leb r.attempted_at r.completed_at && has_result r)))))))))
