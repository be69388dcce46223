-- ===== src/Storage/Evidence.antt =====
-- Evidence records and who may read them: src/intent_engineering/core/models/evidence.py and
-- src/intent_engineering/core/policy/access.py.
pub mod Access
use intent_engineer.Base.{
  ℕ, zero, suc, String, Bool, true, false, not, ◌&&◌, ◌||◌, Option, none, some, List, [], ◌∷◌, ◌==◌,
  ◌>>◌, leb, length, all, any, is_empty, if◌then◌else◌, Result, ok, err, raise_if,
}
use intent_engineer.Base.Texts.{elem, intersects}
use intent_engineer.Base.Dict.{Dict, lookup, index_onto}
use intent_engineer.Base.Text.{is_blank}
use intent_engineer.Core.Graph.{Instant}

-- A JSON value; a number is the text that it is written as.
mutual
  pub data JsonValue : Type 0 where
    json_null : JsonValue
    json_bool : Bool → JsonValue
    json_number : String → JsonValue
    json_text : String → JsonValue
    json_list : JsonValues → JsonValue
    json_object : JsonFields → JsonValue

  pub data JsonValues : Type 0 where
    no_values : JsonValues
    add_value : JsonValue → JsonValues → JsonValues

  pub data JsonFields : Type 0 where
    no_fields : JsonFields
    add_field : String → JsonValue → JsonFields → JsonFields

pub record EvidenceRecord : Type 0 where
  pub id : String
  pub connector_type : String
  pub external_object_id : String
  pub external_version : String
  pub author : Option String
  pub observed_at : Instant
  pub source_locator : String
  pub content_hash : String
  pub payload : JsonFields
  pub parent_ref : Option String
  pub acl : List String

pub record EvidenceIngestion : Type 0 where
  pub connector_id : String
  pub sequence : ℕ
  pub predecessor_id : Option String
  pub evidence : EvidenceRecord

pub data EvidenceError : Type 0 where
  blank_connector bad_sequence non_contiguous duplicate_association bad_predecessor : EvidenceError
  conflicting_evidence_id : String → EvidenceError

-- The constraints on the fields of `EvidenceIngestion`.
unfoldable pub validate_ingestion : EvidenceIngestion → Result EvidenceError Unit
validate_ingestion i = do
  raise_if (is_blank i.connector_id) blank_connector
  raise_if (not (leb 1 i.sequence)) bad_sequence

-- `ledger[:n]`
abbrev pub take : ℕ → List String → List String
take zero xs = []
take (suc n) [] = []
take (suc n) (x ∷ xs) = x ∷ take n xs

-- `xs == ys`, for lists of texts
abbrev pub same_texts : List String → List String → Bool
same_texts [] [] = true
same_texts (x ∷ xs) (y ∷ ys) = x == y && same_texts xs ys
same_texts _ _ = false

unfoldable pub is_exact_consumed_prefix : List String → List String → Bool
is_exact_consumed_prefix consumed ledger =
    leb (length consumed) (length ledger) && same_texts consumed (take (length consumed) ledger)

-- The `actor` of access checks: one name or several.
pub data Actor : Type 0 where
  one : String → Actor
  many : List String → Actor

-- `_principals`
unfoldable pub principals : Actor → List String
principals (one name) = name ∷ []
principals (many names) = if any (λ n. n == "") names then [] else names

unfoldable pub evidence_allowed : EvidenceRecord → Actor → Bool
unfolding principals
evidence_allowed e actor = is_empty e.acl || intersects e.acl (principals actor)

-- `reference in index and evidence_allowed(index[reference], actor)`
abbrev pub ref_allowed : Dict EvidenceRecord → Actor → String → Bool
ref_allowed index actor reference = elim (lookup reference index) [
  | none ↦ false
  | some e ↦ evidence_allowed e actor
]

unfoldable pub refs_allowed : List String → List EvidenceRecord → Actor → Bool
unfolding index_onto evidence_allowed
refs_allowed references records actor =
    all (ref_allowed (index_onto (λ e. e.id) [] records) actor) references
