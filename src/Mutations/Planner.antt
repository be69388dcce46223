-- ===== src/Mutations/Planner.antt =====
-- The exact preview of an external write, src/intent_engineering/mutations/planner.py. What the code
-- outside the package gives, hashes and the validator of JSON schemas, is a parameter.

pub mod Current
pub mod Approved
use intent_engineer.Base.{
  String, Bool, true, false, not, ◌&&◌, ◌||◌, ◌+◌, Option, none, some, List, [], ◌∷◌, ◌++◌, ◌==◌,
  any, all, is_none, is_some, eqb, if◌then◌else◌, Result, ok, err, ◌>>=◌, ◌>>◌, raise_if,
}
use intent_engineer.Base.Text.{is_blank}
use intent_engineer.Base.Texts.{elem}
use intent_engineer.Base.Sorted.{sorted_set}
use intent_engineer.Base.Dict.{Dict, lookup, contains, values}
use intent_engineer.Core.Vocabulary.{ResolutionAction, needs_human, same_stage}
use intent_engineer.Core.Graph.{Instant}
use intent_engineer.Reconcile.Cases.{
  EvidenceSide, ReconciliationCase, CaseError, validate_case, all_evidence_refs,
}
use intent_engineer.Storage.Evidence.{
  JsonValue, json_text, json_object, JsonFields, no_fields, add_field,
}
use intent_engineer.Storage.EvidenceLog.{count_fields, find_field}
use intent_engineer.Mutations.Texts.{joined}
use intent_engineer.Mutations.Models.{
  is_flat, has_no_lists, RemoteObject, WritePlan, is_remote_object, is_plan, plan_hash, same_object,
  max_window,
}
use intent_engineer.Mutations.Profile.{
  ArgumentBinding, target_id, before_version, WriteOperationProfile, ProviderProfile,
  ProviderBinding, is_bound_to, bind_arguments, write_fields, active_arguments,
}
use intent_engineer.Mutations.Authorization.{identity_aliases_for, principals_of}
use intent_engineer.Mutations.Executor.{Externals}

-- `WritePlanError`, in which every other exception ends.
pub data WritePlanError : Type 0 where
  write_plan_error : WritePlanError

abbrev pub demand : Bool → Result WritePlanError Unit
demand test = raise_if (not test) write_plan_error

abbrev pub given : {A : Type 0} → Option A → Result WritePlanError A
given none = err write_plan_error
given (some a) = ok a

-- `set(keys of a) - set(xs)` is empty
abbrev pub has_keys_in : JsonFields → List String → Bool
has_keys_in no_fields xs = true
has_keys_in (add_field k v fs) xs = elem k xs && has_keys_in fs xs

-- `{**fields, k: v}`
abbrev pub set_field : String → JsonValue → JsonFields → JsonFields
set_field k v no_fields = add_field k v no_fields
set_field k v (add_field j w fs) =
    if j == k then add_field j v fs else add_field j w (set_field k v fs)

-- `{**fields, **requested}`
abbrev pub updated : JsonFields → JsonFields → JsonFields
updated fields no_fields = fields
updated fields (add_field k v requested) = updated (set_field k v fields) requested

abbrev pub is_target_id : ArgumentBinding → Bool
is_target_id target_id = true
is_target_id _ = false

abbrev pub is_before_version : ArgumentBinding → Bool
is_before_version before_version = true
is_before_version _ = false

-- The test that target and version are arguments
abbrev pub is_guarded : WriteOperationProfile → Bool
is_guarded operation =
    any is_target_id (values operation.arguments)
    && any is_before_version (values operation.arguments)

-- What `validate_relationships` demands of the writes.
abbrev pub are_named : Dict WriteOperationProfile → Bool
are_named [] = true
are_named ((name, operation) ∷ writes) = name == operation.semantic_name && are_named writes

abbrev pub authors_of : List EvidenceSide → List String
authors_of [] = []
authors_of (s ∷ sides) = s.authors ++ authors_of sides

abbrev pub is_valid : Result CaseError Unit → Bool
is_valid (ok u) = true
is_valid (err e) = false

-- What the first test asks of the actor.
unfoldable pub is_by_contributor : String → List String → Bool
unfolding is_blank
is_by_contributor actor contributors =
    not (is_blank actor) && (not (any is_blank contributors) && elem actor contributors)

-- What is asked for: the fields to write in a target that was seen, by whom, for which case.
pub record WriteRequest : Type 0 where
  pub operation : String
  pub current : RemoteObject
  pub fields : JsonFields
  pub actor : String
  pub action : ResolutionAction
  pub at : Instant

module _ (profile : ProviderProfile) (binding : ProviderBinding) where
  -- What the revalidations and the first test ask of profile and binding.
  unfoldable pub is_of_profile : RemoteObject → Bool
  unfolding is_bound_to
  is_of_profile current =
      are_named profile.writes
      && (is_bound_to profile binding
          && (current.profile_id == profile.id && current.profile_version == profile.version))

module _ (profile : ProviderProfile) (binding : ProviderBinding) (contributors : List String) where
  -- The revalidations and the first test of `_build_result`.
  unfoldable pub is_admissible : ReconciliationCase → WriteRequest → Bool
  unfolding validate_case is_of_profile is_by_contributor is_remote_object
  is_admissible c r =
      is_of_profile profile binding r.current
      && (is_by_contributor r.actor contributors
          && (is_valid (validate_case c)
              && (is_remote_object r.current
                  && (same_stage c.status needs_human
                      && (c.requires_human && not (eqb (count_fields r.fields) 0))))))

abbrev pub target_ref_of : ProviderProfile → RemoteObject → String
target_ref_of profile current = joined profile.id (joined ":" current.id)

-- The tests on the operation and its target
unfoldable pub is_in_scope :
    ProviderProfile → ReconciliationCase → WriteRequest → WriteOperationProfile → Bool
is_in_scope profile c r operation =
    r.current.object_type == operation.target_object
    && (elem (target_ref_of profile r.current) (c.subject_ref ∷ c.affected_refs)
        && (is_guarded operation && has_keys_in r.fields operation.allowed_fields))

abbrev pub context_of : RemoteObject → JsonFields → JsonFields
context_of current to_write = add_field "target_id" (json_text current.id) (
    add_field "before_version" (json_text current.version)
      (add_field "fields" (json_object to_write) no_fields))

module _ (externals : Externals) (profile : ProviderProfile) (binding : ProviderBinding) where
  -- The fields of the plan, whose identity is that of its other fields.
  unfoldable pub plan_of :
      ReconciliationCase
      → WriteRequest
      → WriteOperationProfile
      → String
      → JsonFields
      → JsonFields
      → List String
      → WritePlan
  unfolding all_evidence_refs sorted_set plan_hash
  plan_of c r operation provider_operation after arguments aliases =
      let material : WritePlan = record {
        id = "";
        case_id = c.id;
        connector_id = r.current.connector_id;
        profile_id = r.current.profile_id;
        profile_version = r.current.profile_version;
        object_type = r.current.object_type;
        target_ref = target_ref_of profile r.current;
        binding_hash = externals.binding_hash binding;
        write_contract_hash = externals.contract_hash (record {
          profile_id = profile.id;
          profile_version = profile.version;
          semantic_name = r.operation;
          provider_operation = provider_operation;
          operation = operation;
        });
        operation = operation.semantic_name;
        provider_operation = provider_operation;
        resolution_action = r.action;
        target_id = r.current.id;
        before_version = r.current.version;
        before = r.current.content;
        after = after;
        arguments = arguments;
        evidence_refs = all_evidence_refs c;
        conflicting_authors = sorted_set (authors_of c.evidence_sides);
        created_by = r.actor;
        created_by_aliases = aliases;
        created_at = r.at;
        expires_at = r.at + max_window;
      } in
      record material { id = joined "write-plan:" (plan_hash externals.digests material) }

module _ (externals : Externals) (profile : ProviderProfile) (binding : ProviderBinding)
    (contributors : List String) (identity_aliases : Dict (List String)) where
  -- `build_write_plan`
  unfoldable pub build_write_plan :
      ReconciliationCase → WriteRequest → Result WritePlanError WritePlan
  unfolding is_flat is_admissible is_in_scope principals_of write_fields active_arguments
      bind_arguments identity_aliases_for plan_of is_plan
  build_write_plan c r = do
    demand (is_admissible profile binding contributors c r)
    principals ← given (principals_of binding r.actor)
    operation ← given (lookup r.operation profile.writes)
    demand (is_in_scope profile c r operation && is_flat r.current.content)
    let after = updated r.current.content r.fields in
        let to_write = write_fields operation.allowed_fields after in
        (do
          demand (not (same_object after r.current.content))
          demand (externals.conforms operation.input_schema to_write)
          arguments ← given (
              bind_arguments (active_arguments to_write operation.arguments)
                (context_of r.current to_write))
          tool ← given (lookup r.operation binding.tools)
          aliases ← given (identity_aliases_for identity_aliases r.actor principals)
          demand (
              is_plan externals.digests
                (plan_of externals profile binding c r operation tool after arguments aliases))
          ok (plan_of externals profile binding c r operation tool after arguments aliases))
