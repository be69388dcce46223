-- ===== src/Storage/EvidenceLog/Written.antt =====
-- What `_serialized` of src/intent_engineering/storage/jsonl/evidence_store.py writes, as
-- `parse_evidence_lines` reads it. A text with a separator of lines is written as it is and falls apart
-- where it is read: the parts are one broken line, since the first of them is no JSON.
use intent_engineer.Base.{String, Bool, true, ◌∷◌, ◌&&◌, Option, none, some, all, if◌then◌else◌}
use intent_engineer.Base.Text.{is_one_line}
use intent_engineer.Storage.Evidence.{
  JsonValue, json_text, json_list, json_object, JsonValues, no_values, add_value, JsonFields,
  no_fields, add_field, EvidenceRecord, EvidenceIngestion,
}
use intent_engineer.Storage.EvidenceLog.{Line, broken_line, record_line, ingestion_line}

unfoldable mutual
  unfolding is_one_line

  pub is_one_line_value : JsonValue → Bool
  is_one_line_value (json_text t) = is_one_line t
  is_one_line_value (json_list vs) = are_one_line vs
  is_one_line_value (json_object fs) = has_one_line_fields fs
  is_one_line_value _ = true

  pub are_one_line : JsonValues → Bool
  are_one_line no_values = true
  are_one_line (add_value v vs) = is_one_line_value v && are_one_line vs

  pub has_one_line_fields : JsonFields → Bool
  has_one_line_fields no_fields = true
  has_one_line_fields (add_field k v fs) =
      is_one_line k && (is_one_line_value v && has_one_line_fields fs)

abbrev is_one_line? : Option String → Bool
unfolding is_one_line
is_one_line? none = true
is_one_line? (some t) = is_one_line t

unfoldable pub is_one_line_record : EvidenceRecord → Bool
unfolding is_one_line is_one_line? has_one_line_fields
is_one_line_record e =
    all is_one_line (
      e.id ∷ e.connector_type ∷ e.external_object_id ∷ e.external_version ∷ e.source_locator
      ∷ e.content_hash ∷ e.acl)
    && (is_one_line? e.author && (is_one_line? e.parent_ref && has_one_line_fields e.payload))

unfoldable pub is_one_line_ingestion : EvidenceIngestion → Bool
unfolding is_one_line is_one_line? is_one_line_record
is_one_line_ingestion i =
    is_one_line i.connector_id && (is_one_line? i.predecessor_id && is_one_line_record i.evidence)

unfoldable pub written_record : EvidenceRecord → Line
unfolding is_one_line_record
written_record e = if is_one_line_record e then record_line e else broken_line

unfoldable pub written_ingestion : EvidenceIngestion → Line
unfolding is_one_line_ingestion
written_ingestion i = if is_one_line_ingestion i then ingestion_line i else broken_line
