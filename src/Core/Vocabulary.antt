-- ===== src/Core/Vocabulary.antt =====
-- The vocabulary of src/intent_engineering/core/models/enums.py. Each enumeration is a data type;
-- `value` gives the text that a member stands for.
use intent_engineer.Base.{
  String, Bool, true, false, Option, none, some, List, [], ◌∷◌, ◌≡◌, ◌==◌, arith, if◌then◌else◌,
}

pub data NodeType : Type 0 where
  source_artifact source_revision evidence_span actor source_system context need product_intent :
      NodeType
  desired_outcome assumption principle constraint requirement capability acceptance_criterion :
      NodeType
  decision architecture interface data_contract policy repository code_module file symbol endpoint :
      NodeType
  schema test build_artifact deployment metric observed_outcome incident user_feedback : NodeType
  experiment_result changeset reconciliation_case review_decision owner milestone : NodeType

pub data RelationType : Type 0 where
  authored_by observed_in revision_of contains_evidence evidences derived_from mentions :
      RelationType
  creates_need motivates seeks_outcome constrains assumes justifies refines supersedes :
      RelationType
  contradicts realized_by specified_by has_acceptance_criterion decided_by depends_on : RelationType
  implements_capability implemented_by verified_by located_in calls depends_on_code changed_by :
      RelationType
  deployed_as measured_by observed_as validates_outcome invalidates_assumption affects owned_by :
      RelationType
  created_case resolved_by proposes_change_to part_of_milestone : RelationType

pub data SourceMode : Type 0 where
  explicit inferred derived : SourceMode

pub data ImplementationStatus : Type 0 where
  implemented_baseline partial not_started requirements_incomplete unknown stale_evidence :
      ImplementationStatus

pub data ReconciliationCaseType : Type 0 where
  code_lag requirement_lag intent_lag test_lag doc_lag undocumented_code orphan_requirement :
      ReconciliationCaseType
  conflicting_sources ambiguous_divergence possible_intent_change : ReconciliationCaseType

pub data ReconciliationStatus : Type 0 where
  opened needs_human proposed resolved deferred false_positive : ReconciliationStatus

pub data ResolutionAction : Type 0 where
  update_implementation update_requirement update_intent update_tests update_documentation :
      ResolutionAction
  backfill_design_decision supersede_requirement merge_interpretations preserve_disagreement :
      ResolutionAction
  defer mark_false_positive : ResolutionAction

pub data ChangeKind : Type 0 where
  initialize confirm refine contradict supersede decay_or_ambiguity : ChangeKind

unfoldable pub node_type_value : NodeType → String
node_type_value source_artifact = "SOURCE_ARTIFACT"
node_type_value source_revision = "SOURCE_REVISION"
node_type_value evidence_span = "EVIDENCE_SPAN"
node_type_value actor = "ACTOR"
node_type_value source_system = "SOURCE_SYSTEM"
node_type_value context = "CONTEXT"
node_type_value need = "NEED"
node_type_value product_intent = "PRODUCT_INTENT"
node_type_value desired_outcome = "DESIRED_OUTCOME"
node_type_value assumption = "ASSUMPTION"
node_type_value principle = "PRINCIPLE"
node_type_value constraint = "CONSTRAINT"
node_type_value requirement = "REQUIREMENT"
node_type_value capability = "CAPABILITY"
node_type_value acceptance_criterion = "ACCEPTANCE_CRITERION"
node_type_value decision = "DECISION"
node_type_value architecture = "ARCHITECTURE"
node_type_value interface = "INTERFACE"
node_type_value data_contract = "DATA_CONTRACT"
node_type_value policy = "POLICY"
node_type_value repository = "REPOSITORY"
node_type_value code_module = "MODULE"
node_type_value file = "FILE"
node_type_value symbol = "SYMBOL"
node_type_value endpoint = "ENDPOINT"
node_type_value schema = "SCHEMA"
node_type_value test = "TEST"
node_type_value build_artifact = "BUILD_ARTIFACT"
node_type_value deployment = "DEPLOYMENT"
node_type_value metric = "METRIC"
node_type_value observed_outcome = "OBSERVED_OUTCOME"
node_type_value incident = "INCIDENT"
node_type_value user_feedback = "USER_FEEDBACK"
node_type_value experiment_result = "EXPERIMENT_RESULT"
node_type_value changeset = "CHANGESET"
node_type_value reconciliation_case = "RECONCILIATION_CASE"
node_type_value review_decision = "REVIEW_DECISION"
node_type_value owner = "OWNER"
node_type_value milestone = "MILESTONE"

-- The members in the order of their declaration.
abbrev pub node_types : List NodeType
node_types =
    source_artifact ∷ source_revision ∷ evidence_span ∷ actor ∷ source_system ∷ context ∷ need
    ∷ product_intent ∷ desired_outcome ∷ assumption ∷ principle ∷ constraint ∷ requirement
    ∷ capability ∷ acceptance_criterion ∷ decision ∷ architecture ∷ interface ∷ data_contract
    ∷ policy ∷ repository ∷ code_module ∷ file ∷ symbol ∷ endpoint ∷ schema ∷ test ∷ build_artifact
    ∷ deployment ∷ metric ∷ observed_outcome ∷ incident ∷ user_feedback ∷ experiment_result
    ∷ changeset ∷ reconciliation_case ∷ review_decision ∷ owner ∷ milestone ∷ []

-- The member among `ts` that stands for a text.
unfoldable pub member_of_value : String → List NodeType → Option NodeType
unfolding node_type_value
member_of_value s [] = none
member_of_value s (t ∷ ts) = if node_type_value t == s then some t else member_of_value s ts

-- `NodeType._value2member_map_.get(s)`
unfoldable pub node_type_of_value : String → Option NodeType
unfolding member_of_value
node_type_of_value s = member_of_value s node_types

-- `a is b`, for members of an enumeration.
abbrev pub same_status : ImplementationStatus → ImplementationStatus → Bool
same_status implemented_baseline implemented_baseline = true
same_status partial partial = true
same_status not_started not_started = true
same_status requirements_incomplete requirements_incomplete = true
same_status unknown unknown = true
same_status stale_evidence stale_evidence = true
same_status _ _ = false

pub same_status-eq : (a b : ImplementationStatus) → same_status a b ≡ true → a ≡ b
same_status-eq a b h = ground arith

pub same_status_refl : (a : ImplementationStatus) → same_status a a ≡ true
same_status_refl a = ground arith

abbrev pub same_stage : ReconciliationStatus → ReconciliationStatus → Bool
same_stage opened opened = true
same_stage needs_human needs_human = true
same_stage proposed proposed = true
same_stage resolved resolved = true
same_stage deferred deferred = true
same_stage false_positive false_positive = true
same_stage _ _ = false

pub same_stage-eq : (a b : ReconciliationStatus) → same_stage a b ≡ true → a ≡ b
same_stage-eq a b h = ground arith

pub same_stage_refl : (a : ReconciliationStatus) → same_stage a a ≡ true
same_stage_refl a = ground arith

abbrev pub same_mode : SourceMode → SourceMode → Bool
same_mode explicit explicit = true
same_mode inferred inferred = true
same_mode derived derived = true
same_mode _ _ = false

pub same_mode-eq : (a b : SourceMode) → same_mode a b ≡ true → a ≡ b
same_mode-eq a b h = ground arith

pub same_mode_refl : (a : SourceMode) → same_mode a a ≡ true
same_mode_refl a = ground arith

unfoldable pub case_type_value : ReconciliationCaseType → String
case_type_value code_lag = "CODE_LAG"
case_type_value requirement_lag = "REQUIREMENT_LAG"
case_type_value intent_lag = "INTENT_LAG"
case_type_value test_lag = "TEST_LAG"
case_type_value doc_lag = "DOC_LAG"
case_type_value undocumented_code = "UNDOCUMENTED_CODE"
case_type_value orphan_requirement = "ORPHAN_REQUIREMENT"
case_type_value conflicting_sources = "CONFLICTING_SOURCES"
case_type_value ambiguous_divergence = "AMBIGUOUS_DIVERGENCE"
case_type_value possible_intent_change = "POSSIBLE_INTENT_CHANGE"
