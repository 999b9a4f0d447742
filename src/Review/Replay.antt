-- ===== src/Review/Replay.antt =====
-- `_validate_state_change`, `replay_review_records` and `ReviewProjection`.
use projectkoios_references.Prelude.{
  Bool, List, Result, [], err, length, list_eq, list_ord, ltb, nat_eq, nat_ord, none, not, ok,
  option_eq, raise_if, some, sort, ℕ, ◌&&◌, ◌+◌, ◌==◌, ◌>>=◌, ◌>>◌, ◌||◌, ◌∷◌,
}
use projectkoios_references.Text.{Text, codes, Platform}
use projectkoios_references.Json.{Json, Items, nil, cons, obj, arr, str, num, texts, stable_id}
use projectkoios_references.Limits.{
  ReferenceIoLimits, evidence_id, limits_json, members, review_io_limits,
}
use projectkoios_references.Review.Types.{
  ReviewError, dimension_value, identity_does_not_match, is_claim_support, is_correction,
  is_reading, outcome_value, record_limit, regression_requires_correction, technical_kind_value,
  time_value_error, timestamp_precedes, unsupported_authority_kind, unsupported_producer,
  unsupported_schema,
}
use projectkoios_references.Review.Checks.{content_ids}
use projectkoios_references.Review.Clock.{DateTime, strptime, earlier}
use projectkoios_references.Review.Records.{
  ProducerIdentity, TechnicalReviewRecord, HumanReviewDecision, producer_json,
  validate_effective_limits,
}
use projectkoios_references.Review.Objects.{technical_object, human_object}
use projectkoios_references.Review.Streams.{replay_streams}

-- What `isinstance` tells apart.
pub data ReviewItem : Type 0 where
  technical : TechnicalReviewRecord → ReviewItem
  human : HumanReviewDecision → ReviewItem

abbrev pub recorded_at : ReviewItem → Text
recorded_at (technical r) = r.observed_at
recorded_at (human d) = d.decided_at

-- `_transition_time`; `time_value_error` is the ValueError of `strptime`.
unfoldable pub transition_time : Platform → ReviewItem → Result ReviewError DateTime
unfolding strptime
transition_time p item = elim (strptime p (recorded_at item)) [
  | none ↦ err time_value_error
  | some t ↦ ok t
]

-- The value of `regression`
abbrev pub is_regression : HumanReviewDecision → HumanReviewDecision → Bool
is_regression previous current =
    (is_reading previous.dimension
      && previous.decision == codes "read"
      && current.decision == codes "not-established")
    || (is_claim_support previous.dimension
        && previous.decision == codes "checked"
        && current.decision == codes "not-established")

-- What follows the comparison of the times.
unfoldable pub check_regression : ReviewItem → ReviewItem → Result ReviewError (Unit {0})
check_regression (human previous) (human current) =
    raise_if (is_regression previous current && not (is_correction current.transition_kind))
      regression_requires_correction
check_regression (human previous) (technical current) = ok tt
check_regression (technical previous) current = ok tt

-- `_validate_state_change`
unfoldable pub validate_state_change :
    Platform → ReviewItem → ReviewItem → Result ReviewError (Unit {0})
unfolding transition_time earlier check_regression
validate_state_change p previous current = do
  previous_time ← transition_time p previous
  current_time ← transition_time p current
  raise_if (earlier current_time previous_time) timestamp_precedes
  check_regression previous current

pub record ReviewProjection : Type 0 where
  pub schema_version : ℕ
  pub authority_kind : Text
  pub producer : ProducerIdentity
  pub effective_limits : ReferenceIoLimits
  pub effective_limits_id : Text
  pub technical_history : List TechnicalReviewRecord
  pub human_decision_history : List HumanReviewDecision
  pub current_technical_record_ids : List Text
  pub current_human_decision_ids : List Text
  pub projection_id : Text

abbrev replay_producer : ProducerIdentity
replay_producer = record {
  name = codes "projectkoios.references.review-replay";
  version = codes "1";
}

abbrev same_producer : ProducerIdentity → ProducerIdentity → Bool
same_producer a b = a.name == b.name && a.version == b.version

abbrev projection_authority : Text
projection_authority = codes "review-state-projection"

-- The histories, each record with its identity
technical_items : List TechnicalReviewRecord → Items
unfolding technical_object
technical_items [] = nil
technical_items (r ∷ rs) = cons (technical_object r) (technical_items rs)

human_items : List HumanReviewDecision → Items
unfolding human_object
human_items [] = nil
human_items (d ∷ ds) = cons (human_object d) (human_items ds)

-- The payload of the projection's identity: every field but the identity.
unfoldable pub projection_json : ReviewProjection → Json
unfolding limits_json producer_json technical_items human_items
projection_json r = obj (
    members (
      (codes "schema_version", num r.schema_version)
      ∷ (codes "authority_kind", str r.authority_kind)
      ∷ (codes "producer", producer_json r.producer)
      ∷ (codes "effective_limits", limits_json r.effective_limits)
      ∷ (codes "effective_limits_id", str r.effective_limits_id)
      ∷ (codes "technical_history", arr (technical_items r.technical_history))
      ∷ (codes "human_decision_history", arr (human_items r.human_decision_history))
      ∷ (codes "current_technical_record_ids", arr (texts r.current_technical_record_ids))
      ∷ (codes "current_human_decision_ids", arr (texts r.current_human_decision_ids))
      ∷ []))

module _ (p : Platform) where
  unfoldable pub projection_identity : ReviewProjection → Text
  unfolding stable_id projection_json
  projection_identity r = stable_id p (codes "review-projection") (projection_json r)

  -- `ReviewProjection.__post_init__`
  unfoldable pub check_projection : ReviewProjection → Result ReviewError (Unit {0})
  unfolding validate_effective_limits content_ids projection_identity
  check_projection r = do
    raise_if (not (r.schema_version == 1)) unsupported_schema
    raise_if (not (r.authority_kind == projection_authority)) unsupported_authority_kind
    raise_if (not (same_producer r.producer replay_producer)) unsupported_producer
    validate_effective_limits p r.effective_limits r.effective_limits_id
    content_ids r.current_technical_record_ids (codes "current_technical_record_ids") 256
    content_ids r.current_human_decision_ids (codes "current_human_decision_ids") 256
    raise_if (not (r.projection_id == projection_identity r)) identity_does_not_match

  unfoldable pub replay_technical :
      List TechnicalReviewRecord → Result ReviewError (List TechnicalReviewRecord × List Text)
  unfolding replay_streams validate_state_change
  replay_technical =
      replay_streams (λ r. r.record_id)
        (λ r. r.subject_id ∷ r.context_id ∷ technical_kind_value r.technical_kind ∷ [])
        (λ r. r.transition_kind) (λ r. r.supersedes_record_id) (λ r. outcome_value r.outcome)
        (λ r s. validate_state_change p (technical r) (technical s))

  unfoldable pub replay_human :
      List HumanReviewDecision → Result ReviewError (List HumanReviewDecision × List Text)
  unfolding replay_streams validate_state_change
  replay_human =
      replay_streams (λ d. d.decision_id)
        (λ d. d.subject_id ∷ d.context_id ∷ dimension_value d.dimension ∷ [])
        (λ d. d.transition_kind) (λ d. d.supersedes_decision_id) (λ d. d.decision)
        (λ d e. validate_state_change p (human d) (human e))

  unfoldable pub replay_review_records :
      List TechnicalReviewRecord → List HumanReviewDecision → Result ReviewError ReviewProjection
  unfolding replay_technical replay_human check_projection sort evidence_id
  replay_review_records technical_records human_decisions = do
    raise_if (ltb 256 (length technical_records + length human_decisions)) record_limit
    t ← replay_technical technical_records
    h ← replay_human human_decisions
    let draft : ReviewProjection = record {
      schema_version = 1;
      authority_kind = projection_authority;
      producer = replay_producer;
      effective_limits = review_io_limits;
      effective_limits_id = evidence_id p review_io_limits;
      technical_history = t.0;
      human_decision_history = h.0;
      current_technical_record_ids = sort t.1;
      current_human_decision_ids = sort h.1;
      projection_id = [];
    }
    let made = record draft { projection_id = projection_identity draft }
    check_projection made
    ok made
