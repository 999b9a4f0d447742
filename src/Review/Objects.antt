-- ===== src/Review/Objects.antt =====
-- `_json_value` of the review records, their identities included, and `from_dict` of both kinds of
-- records.
use projectkoios_references.Prelude.{
  List, Result, [], list_eq, list_ord, nat_eq, nat_ord, ok, option_eq, ◌>>=◌, ◌>>◌, ◌∷◌,
}
use projectkoios_references.Text.{Text, codes, Platform}
use projectkoios_references.Json.{Json, obj, str, field}
use projectkoios_references.Review.Types.{
  ReviewError, dimension_value, outcome_value, technical_kind_value, transition_value,
}
use projectkoios_references.Review.Records.{TechnicalReviewRecord, HumanReviewDecision}
use projectkoios_references.Review.Authoring.{
  technical_json, human_json, check_technical, check_human,
}
use projectkoios_references.Review.Fields.{
  ReadError, checked, at, exact_object, string, optional_string, integer, string_array, enum_value,
  read_producer, read_limits,
}
use projectkoios_references.Review.Actors.{
  transition_kinds, technical_kinds, outcomes, dimensions, read_actor,
}

-- An object with one more member
abbrev with_member : Text → Json → Json → Json
with_member k v (obj fs) = obj (field k v fs)
with_member k v j = j

unfoldable pub technical_object : TechnicalReviewRecord → Json
unfolding technical_json
technical_object r = with_member (codes "record_id") (str r.record_id) (technical_json r)

unfoldable pub human_object : HumanReviewDecision → Json
unfolding human_json
human_object d = with_member (codes "decision_id") (str d.decision_id) (human_json d)

-- The names of the fields that both kinds of records have.
abbrev common_fields : List Text
common_fields =
    codes "schema_version"
    ∷ codes "authority_kind"
    ∷ codes "producer"
    ∷ codes "effective_limits"
    ∷ codes "effective_limits_id"
    ∷ codes "subject_id"
    ∷ codes "context_id"
    ∷ codes "transition_kind"
    ∷ codes "actor"
    ∷ codes "evidence_ids"
    ∷ codes "rationale"
    ∷ []

abbrev technical_fields : List Text
technical_fields =
    codes "technical_kind"
    ∷ codes "outcome"
    ∷ codes "observed_at"
    ∷ codes "supersedes_record_id"
    ∷ codes "record_id"
    ∷ common_fields

abbrev human_fields : List Text
human_fields =
    codes "dimension"
    ∷ codes "decision"
    ∷ codes "decided_at"
    ∷ codes "supersedes_decision_id"
    ∷ codes "decision_id"
    ∷ common_fields

-- `TechnicalReviewRecord.from_dict`, over the checks of `__post_init__`
unfoldable pub technical_from :
    (TechnicalReviewRecord → Result ReviewError (Unit {0}))
    → Json
    → Result ReadError TechnicalReviewRecord
unfolding exact_object string optional_string integer string_array enum_value read_producer
    read_limits read_actor
technical_from check value = do
  fields ← exact_object value technical_fields (codes "technical review record")
  schema ← integer (at (codes "schema_version") fields) (codes "schema_version")
  authority ← string (at (codes "authority_kind") fields) (codes "authority_kind")
  producer ← read_producer (at (codes "producer") fields)
  limits ← read_limits (at (codes "effective_limits") fields)
  limits_id ← string (at (codes "effective_limits_id") fields) (codes "effective_limits_id")
  subject ← string (at (codes "subject_id") fields) (codes "subject_id")
  context ← string (at (codes "context_id") fields) (codes "context_id")
  kind ←
      enum_value technical_kind_value technical_kinds (at (codes "technical_kind") fields)
        (codes "technical_kind")
  outcome ← enum_value outcome_value outcomes (at (codes "outcome") fields) (codes "outcome")
  transition ←
      enum_value transition_value transition_kinds (at (codes "transition_kind") fields)
        (codes "transition_kind")
  actor ← read_actor (at (codes "actor") fields)
  evidence ← string_array (at (codes "evidence_ids") fields) (codes "evidence_ids")
  rationale ← string (at (codes "rationale") fields) (codes "rationale")
  time ← string (at (codes "observed_at") fields) (codes "observed_at")
  prior ← optional_string (at (codes "supersedes_record_id") fields) (codes "supersedes_record_id")
  identity ← string (at (codes "record_id") fields) (codes "record_id")
  let made : TechnicalReviewRecord = record {
    schema_version = schema;
    authority_kind = authority;
    producer = producer;
    effective_limits = limits;
    effective_limits_id = limits_id;
    subject_id = subject;
    context_id = context;
    technical_kind = kind;
    outcome = outcome;
    transition_kind = transition;
    actor = actor;
    evidence_ids = evidence;
    rationale = rationale;
    observed_at = time;
    supersedes_record_id = prior;
    record_id = identity;
  }
  checked (check made)
  ok made

unfoldable pub read_technical : Platform → Json → Result ReadError TechnicalReviewRecord
unfolding technical_from check_technical
read_technical p = technical_from (check_technical p)

-- `HumanReviewDecision.from_dict`, over the checks of `__post_init__`
unfoldable pub human_from :
    (HumanReviewDecision → Result ReviewError (Unit {0}))
    → Json
    → Result ReadError HumanReviewDecision
unfolding exact_object string optional_string integer string_array enum_value read_producer
    read_limits read_actor
human_from check value = do
  fields ← exact_object value human_fields (codes "human review decision")
  schema ← integer (at (codes "schema_version") fields) (codes "schema_version")
  authority ← string (at (codes "authority_kind") fields) (codes "authority_kind")
  producer ← read_producer (at (codes "producer") fields)
  limits ← read_limits (at (codes "effective_limits") fields)
  limits_id ← string (at (codes "effective_limits_id") fields) (codes "effective_limits_id")
  subject ← string (at (codes "subject_id") fields) (codes "subject_id")
  context ← string (at (codes "context_id") fields) (codes "context_id")
  dimension ←
      enum_value dimension_value dimensions (at (codes "dimension") fields) (codes "dimension")
  decision ← string (at (codes "decision") fields) (codes "decision")
  transition ←
      enum_value transition_value transition_kinds (at (codes "transition_kind") fields)
        (codes "transition_kind")
  actor ← read_actor (at (codes "actor") fields)
  evidence ← string_array (at (codes "evidence_ids") fields) (codes "evidence_ids")
  rationale ← string (at (codes "rationale") fields) (codes "rationale")
  time ← string (at (codes "decided_at") fields) (codes "decided_at")
  prior ←
      optional_string (at (codes "supersedes_decision_id") fields) (codes "supersedes_decision_id")
  identity ← string (at (codes "decision_id") fields) (codes "decision_id")
  let made : HumanReviewDecision = record {
    schema_version = schema;
    authority_kind = authority;
    producer = producer;
    effective_limits = limits;
    effective_limits_id = limits_id;
    subject_id = subject;
    context_id = context;
    dimension = dimension;
    decision = decision;
    transition_kind = transition;
    actor = actor;
    evidence_ids = evidence;
    rationale = rationale;
    decided_at = time;
    supersedes_decision_id = prior;
    decision_id = identity;
  }
  checked (check made)
  ok made

unfoldable pub read_human : Platform → Json → Result ReadError HumanReviewDecision
unfolding human_from check_human
read_human p = human_from (check_human p)
