-- ===== src/Review/Authoring.antt =====
-- `__post_init__`, `identity_for` and `create` of the two kinds of review records.
use projectkoios_references.Prelude.{
  List, Option, Result, [], any, if◌then◌else◌, list_eq, list_ord, nat_eq, nat_ord, not, ok,
  option_eq, raise_if, sort, ◌&&◌, ◌==◌, ◌>>◌, ◌||◌, ◌∷◌,
}
use projectkoios_references.Text.{Text, codes, Platform}
use projectkoios_references.Json.{Json, obj, arr, str, num, texts, optional, stable_id}
use projectkoios_references.Limits.{evidence_id, limits_json, members, review_io_limits}
use projectkoios_references.Review.Types.{
  HumanReviewDimension, ReviewError, ReviewTransitionKind, TechnicalReviewKind,
  TechnicalReviewOutcome, claim_support_in_reference_domain, decisions_by_dimension,
  dimension_value, identity_does_not_match, invalid_decision, is_claim_support, is_person,
  is_reference_owned, is_technical, outcome_value, requires_person_authority,
  requires_reference_domain, same_scope, scope_by_dimension, technical_kind_value,
  technical_requires_processor_authority, transition_value, unsupported_authority_kind,
  unsupported_schema,
}
use projectkoios_references.Review.Checks.{bounded, content_id}
use projectkoios_references.Review.Records.{
  ProducerIdentity, ReviewActorProvenance, TechnicalReviewRecord, HumanReviewDecision,
  producer_json, actor_json, validate_effective_limits, validate_common_record,
}

abbrev pub technical_authority : Text
technical_authority = codes "technical-review-observation"

abbrev pub human_authority : Text
human_authority = codes "human-review-decision"

abbrev pub reference_domain : Text
reference_domain = codes "projectkoios-references"

-- The payload of `TechnicalReviewRecord.identity_for`: every field but the identity.
unfoldable pub technical_json : TechnicalReviewRecord → Json
unfolding limits_json producer_json actor_json
technical_json r = obj (
    members (
      (codes "schema_version", num r.schema_version)
      ∷ (codes "authority_kind", str r.authority_kind)
      ∷ (codes "producer", producer_json r.producer)
      ∷ (codes "effective_limits", limits_json r.effective_limits)
      ∷ (codes "effective_limits_id", str r.effective_limits_id)
      ∷ (codes "subject_id", str r.subject_id)
      ∷ (codes "context_id", str r.context_id)
      ∷ (codes "technical_kind", str (technical_kind_value r.technical_kind))
      ∷ (codes "outcome", str (outcome_value r.outcome))
      ∷ (codes "transition_kind", str (transition_value r.transition_kind))
      ∷ (codes "actor", actor_json r.actor)
      ∷ (codes "evidence_ids", arr (texts r.evidence_ids))
      ∷ (codes "rationale", str r.rationale)
      ∷ (codes "observed_at", str r.observed_at)
      ∷ (codes "supersedes_record_id", optional r.supersedes_record_id)
      ∷ []))

-- The payload of `HumanReviewDecision.identity_for`.
unfoldable pub human_json : HumanReviewDecision → Json
unfolding limits_json producer_json actor_json
human_json d = obj (
    members (
      (codes "schema_version", num d.schema_version)
      ∷ (codes "authority_kind", str d.authority_kind)
      ∷ (codes "producer", producer_json d.producer)
      ∷ (codes "effective_limits", limits_json d.effective_limits)
      ∷ (codes "effective_limits_id", str d.effective_limits_id)
      ∷ (codes "subject_id", str d.subject_id)
      ∷ (codes "context_id", str d.context_id)
      ∷ (codes "dimension", str (dimension_value d.dimension))
      ∷ (codes "decision", str d.decision)
      ∷ (codes "transition_kind", str (transition_value d.transition_kind))
      ∷ (codes "actor", actor_json d.actor)
      ∷ (codes "evidence_ids", arr (texts d.evidence_ids))
      ∷ (codes "rationale", str d.rationale)
      ∷ (codes "decided_at", str d.decided_at)
      ∷ (codes "supersedes_decision_id", optional d.supersedes_decision_id)
      ∷ []))

module _ (p : Platform) where
  unfoldable pub technical_identity : TechnicalReviewRecord → Text
  unfolding stable_id technical_json
  technical_identity r = stable_id p (codes "technical-review") (technical_json r)

  unfoldable pub human_identity : HumanReviewDecision → Text
  unfolding stable_id human_json
  human_identity d = stable_id p (codes "review-decision") (human_json d)

  -- `TechnicalReviewRecord.__post_init__`
  unfoldable pub check_technical : TechnicalReviewRecord → Result ReviewError (Unit {0})
  unfolding validate_effective_limits content_id bounded validate_common_record technical_identity
  check_technical r = do
    raise_if (not (r.schema_version == 1)) unsupported_schema
    raise_if (not (r.authority_kind == technical_authority)) unsupported_authority_kind
    validate_effective_limits p r.effective_limits r.effective_limits_id
    content_id r.subject_id (codes "subject_id")
    bounded r.context_id (codes "context_id")
    validate_common_record p r.transition_kind r.actor r.evidence_ids r.rationale r.observed_at
        r.supersedes_record_id
    raise_if (is_person r.actor.actor_kind || not (is_technical r.actor.authority_scope))
        technical_requires_processor_authority
    raise_if (not (r.record_id == technical_identity r)) identity_does_not_match

  -- `HumanReviewDecision.__post_init__`
  unfoldable pub check_human : HumanReviewDecision → Result ReviewError (Unit {0})
  unfolding validate_effective_limits content_id bounded validate_common_record human_identity
  check_human d = do
    raise_if (not (d.schema_version == 1)) unsupported_schema
    raise_if (not (d.authority_kind == human_authority)) unsupported_authority_kind
    validate_effective_limits p d.effective_limits d.effective_limits_id
    content_id d.subject_id (codes "subject_id")
    bounded d.context_id (codes "context_id")
    raise_if (not (any (λ v. d.decision == v) (decisions_by_dimension d.dimension)))
        invalid_decision
    validate_common_record p d.transition_kind d.actor d.evidence_ids d.rationale d.decided_at
        d.supersedes_decision_id
    raise_if
        (not (is_person d.actor.actor_kind)
          || not (same_scope d.actor.authority_scope (scope_by_dimension d.dimension)))
        requires_person_authority
    raise_if (is_reference_owned d.dimension && not (d.actor.authority_domain == reference_domain))
        requires_reference_domain
    raise_if (is_claim_support d.dimension && d.actor.authority_domain == reference_domain)
        claim_support_in_reference_domain
    if is_claim_support d.dimension
        then content_id d.context_id (codes "claim context_id")
        else ok tt
    raise_if (not (d.decision_id == human_identity d)) identity_does_not_match

  -- `TechnicalReviewRecord.create`
  unfoldable pub create_technical :
      (subject_id context_id : Text)
      → TechnicalReviewKind
      → TechnicalReviewOutcome
      → ProducerIdentity
      → ReviewTransitionKind
      → ReviewActorProvenance
      → List Text
      → (rationale observed_at : Text) → Option Text
      → Result ReviewError TechnicalReviewRecord
  unfolding sort evidence_id check_technical
  create_technical subject context kind outcome producer transition actor evidence rationale at
        prior =
      let draft : TechnicalReviewRecord = record {
        schema_version = 1;
        authority_kind = technical_authority;
        producer = producer;
        effective_limits = review_io_limits;
        effective_limits_id = evidence_id p review_io_limits;
        subject_id = subject;
        context_id = context;
        technical_kind = kind;
        outcome = outcome;
        transition_kind = transition;
        actor = actor;
        evidence_ids = sort evidence;
        rationale = rationale;
        observed_at = at;
        supersedes_record_id = prior;
        record_id = [];
      } in
      let made = record draft { record_id = technical_identity draft } in
      do check_technical made; ok made

  -- `HumanReviewDecision.create`
  unfoldable pub create_human :
      (subject_id context_id : Text)
      → HumanReviewDimension
      → Text
      → ProducerIdentity
      → ReviewTransitionKind
      → ReviewActorProvenance
      → List Text
      → (rationale decided_at : Text) → Option Text
      → Result ReviewError HumanReviewDecision
  unfolding sort evidence_id check_human
  create_human subject context dimension decision producer transition actor evidence rationale at
        prior =
      let draft : HumanReviewDecision = record {
        schema_version = 1;
        authority_kind = human_authority;
        producer = producer;
        effective_limits = review_io_limits;
        effective_limits_id = evidence_id p review_io_limits;
        subject_id = subject;
        context_id = context;
        dimension = dimension;
        decision = decision;
        transition_kind = transition;
        actor = actor;
        evidence_ids = sort evidence;
        rationale = rationale;
        decided_at = at;
        supersedes_decision_id = prior;
        decision_id = [];
      } in
      let made = record draft { decision_id = human_identity draft } in do check_human made; ok made
