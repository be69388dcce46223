-- ===== src/Mutations/Profile.antt =====
-- Provider profiles, their local bindings and the arguments of an operation:
-- src/intent_engineering/capture/mcp/profile_models.py and `bind_arguments` of
-- src/intent_engineering/capture/mcp/selectors.py. Of a profile only the fields that writes read are
-- here.
use intent_engineer.Base.{
  String, Bool, true, false, not, ◌&&◌, Option, none, some, List, [], ◌∷◌, ◌++◌, ◌==◌, all,
  if◌then◌else◌,
}
use intent_engineer.Base.Texts.{elem, intersects}
use intent_engineer.Base.Dict.{Dict, keys, pick}
use intent_engineer.Storage.Evidence.{JsonValue, json_object, JsonFields, no_fields, add_field}
use intent_engineer.Storage.EvidenceLog.{find_field}

pub record Selector : Type 0 where
  pub path : String
  pub transforms : List String
  pub required : Bool

-- The sources of an argument with what belongs to each.
pub data ArgumentBinding : Type 0 where
  constant : JsonValue → ArgumentBinding
  scope cursor object_id object_version target_id before_version : ArgumentBinding
  field : String → ArgumentBinding

pub data OperationKind : Type 0 where
  tool resource : OperationKind

pub record WriteOperationProfile : Type 0 where
  pub semantic_name : String
  pub target_object : String
  pub target_id : Selector
  pub before_version : Selector
  pub allowed_fields : List String
  pub arguments : Dict ArgumentBinding
  pub input_schema : JsonFields
  pub result_version : Selector

-- `operations` has the kind of each read operation.
pub record ProviderProfile : Type 0 where
  pub id : String
  pub version : String
  pub operations : Dict OperationKind
  pub writes : Dict WriteOperationProfile

pub record ProviderBinding : Type 0 where
  pub profile_id : String
  pub profile_version : String
  pub tools : Dict String
  pub resources : Dict String
  pub actor_principals : Dict (List String)

abbrev pub is_tool : OperationKind → Bool
is_tool tool = true
is_tool resource = false

-- The names of the operations of a kind: `{name for name, operation in d.items() if …}`
abbrev pub names_of : (OperationKind → Bool) → Dict OperationKind → List String
names_of test [] = []
names_of test ((name, kind) ∷ d) =
    let rest = names_of test d in if test kind then name ∷ rest else rest

-- Whether `validate_against` returns.
unfoldable pub is_bound_to : ProviderProfile → ProviderBinding → Bool
unfolding pick
is_bound_to profile binding =
    let read_tools = names_of is_tool profile.operations in
    let expected_tools = read_tools ++ keys profile.writes in
    let expected_resources = names_of (λ kind. not (is_tool kind)) profile.operations in
    let provided = keys binding.tools ++ keys binding.resources in
    let expected = expected_tools ++ expected_resources in
    binding.profile_id == profile.id
    && (binding.profile_version == profile.version
        && (all (λ name. elem name expected) provided
            && (not (intersects (keys binding.tools) expected_resources)
                && (not (intersects (keys binding.resources) expected_tools)
                    && (all (λ name. elem name provided) expected
                        && not (
                            intersects (pick binding.tools read_tools)
                              (pick binding.tools (keys profile.writes))))))))

-- The name of the source of an argument in the context.
abbrev source_name : ArgumentBinding → String
source_name (constant v) = "constant"
source_name scope = "scope"
source_name cursor = "cursor"
source_name object_id = "object_id"
source_name object_version = "object_version"
source_name target_id = "target_id"
source_name before_version = "before_version"
source_name (field f) = "field"

-- `safe_context["fields"][f]`, where it is there
abbrev field_of_context : String → Option JsonValue → Option JsonValue
field_of_context f (some (json_object fields)) = find_field f fields
field_of_context f _ = none

abbrev argument_value : ArgumentBinding → JsonFields → Option JsonValue
argument_value (constant v) context = some v
argument_value (field f) context = field_of_context f (find_field "fields" context)
argument_value source context = find_field (source_name source) context

abbrev add_argument : String → Option JsonValue → Option JsonFields → Option JsonFields
add_argument name (some v) (some rest) = some (add_field name v rest)
add_argument name _ _ = none

unfoldable pub bind_arguments : Dict ArgumentBinding → JsonFields → Option JsonFields
bind_arguments [] context = some no_fields
bind_arguments ((name, source) ∷ rest) context =
    add_argument name (argument_value source context) (bind_arguments rest context)

-- `{field: after[field] for field in allowed_fields if field in after}`
unfoldable pub write_fields : List String → JsonFields → JsonFields
write_fields [] after = no_fields
write_fields (f ∷ fs) after = elim (find_field f after) [
  | none ↦ write_fields fs after
  | some v ↦ add_field f v (write_fields fs after)
]

-- Whether the argument is not that of a field which the write leaves alone.
abbrev is_active : JsonFields → ArgumentBinding → Bool
is_active written (field f) = elim (find_field f written) [ none ↦ false | some v ↦ true ]
is_active written _ = true

unfoldable pub active_arguments : JsonFields → Dict ArgumentBinding → Dict ArgumentBinding
active_arguments written [] = []
active_arguments written ((name, source) ∷ rest) =
    let others = active_arguments written rest in
    if is_active written source then (name, source) ∷ others else others
