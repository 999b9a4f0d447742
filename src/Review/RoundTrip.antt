-- ===== src/Review/RoundTrip.antt =====
-- Reading what was written: `from_dict` of a record's `_json_value`.
mod Parts
use projectkoios_references.Prelude.{
  Result, [], list_eq, list_ord, nat_eq, nat_ord, ok, option_eq, true, ◌-◌, ◌>>=◌, ◌>>◌, ◌∷◌, ◌≡◌,
}
use projectkoios_references.Text.{codes, Platform}
use projectkoios_references.Json.{Json, Fields, obj, field, num, str, arr, texts, optional}
use projectkoios_references.Limits.{members, ReferenceIoLimits, limits_accepted, limits_json}
use projectkoios_references.Review.Types.{
  ReviewError, dimension_value, outcome_value, technical_kind_value, transition_value,
}
use projectkoios_references.Review.Records.{
  ProducerIdentity, ReviewActorProvenance, TechnicalReviewRecord, HumanReviewDecision, check_actor,
  producer_json, actor_json,
}
use projectkoios_references.Review.Authoring.{check_technical, check_human}
use projectkoios_references.Review.Fields.{checked, check_producer, read_producer, read_limits}
use projectkoios_references.Review.RoundTrip.Parts.{
  string_array-texts, optional_string-optional, enum_value-transition_value,
  enum_value-technical_kind_value, enum_value-outcome_value, enum_value-dimension_value,
  read_producer-producer_json, read_limits-limits_json, read_actor-actor_json,
}
use projectkoios_references.Review.Actors.{read_actor}
use projectkoios_references.Review.Objects.{
  technical_object, human_object, read_technical, read_human, technical_from, human_from,
}

-- The written form, with the parts' forms as they come.
abbrev technical_form : TechnicalReviewRecord → Json → Json → Json → Json
technical_form r producer limits actor = obj (
    field (codes "record_id") (str r.record_id) (
      members (
        (codes "schema_version", num r.schema_version)
        ∷ (codes "authority_kind", str r.authority_kind)
        ∷ (codes "producer", producer)
        ∷ (codes "effective_limits", limits)
        ∷ (codes "effective_limits_id", str r.effective_limits_id)
        ∷ (codes "subject_id", str r.subject_id)
        ∷ (codes "context_id", str r.context_id)
        ∷ (codes "technical_kind", str (technical_kind_value r.technical_kind))
        ∷ (codes "outcome", str (outcome_value r.outcome))
        ∷ (codes "transition_kind", str (transition_value r.transition_kind))
        ∷ (codes "actor", actor)
        ∷ (codes "evidence_ids", arr (texts r.evidence_ids))
        ∷ (codes "rationale", str r.rationale)
        ∷ (codes "observed_at", str r.observed_at)
        ∷ (codes "supersedes_record_id", optional r.supersedes_record_id)
        ∷ [])))

technical_from-technical_form :
    (check : TechnicalReviewRecord → Result ReviewError (Unit {0})) (r : TechnicalReviewRecord)
    (producer limits actor : Json)
    → read_producer producer ≡ ok r.producer
    → read_limits limits ≡ ok r.effective_limits
    → read_actor actor ≡ ok r.actor
    → check r ≡ ok tt
    → technical_from check (technical_form r producer limits actor) ≡ ok r
unfolding technical_from
technical_from-technical_form check r producer limits actor hp hl ha h = rw (
  hp,
  hl,
  enum_value-technical_kind_value r.technical_kind (codes "technical_kind"),
  enum_value-outcome_value r.outcome (codes "outcome"),
  enum_value-transition_value r.transition_kind (codes "transition_kind"),
  ha,
  string_array-texts r.evidence_ids (codes "evidence_ids"),
  optional_string-optional r.supersedes_record_id (codes "supersedes_record_id"),
  h,
)

-- The written form, with the parts' forms as they come.
abbrev human_form : HumanReviewDecision → Json → Json → Json → Json
human_form d producer limits actor = obj (
    field (codes "decision_id") (str d.decision_id) (
      members (
        (codes "schema_version", num d.schema_version)
        ∷ (codes "authority_kind", str d.authority_kind)
        ∷ (codes "producer", producer)
        ∷ (codes "effective_limits", limits)
        ∷ (codes "effective_limits_id", str d.effective_limits_id)
        ∷ (codes "subject_id", str d.subject_id)
        ∷ (codes "context_id", str d.context_id)
        ∷ (codes "dimension", str (dimension_value d.dimension))
        ∷ (codes "decision", str d.decision)
        ∷ (codes "transition_kind", str (transition_value d.transition_kind))
        ∷ (codes "actor", actor)
        ∷ (codes "evidence_ids", arr (texts d.evidence_ids))
        ∷ (codes "rationale", str d.rationale)
        ∷ (codes "decided_at", str d.decided_at)
        ∷ (codes "supersedes_decision_id", optional d.supersedes_decision_id)
        ∷ [])))

human_from-human_form :
    (check : HumanReviewDecision → Result ReviewError (Unit {0})) (d : HumanReviewDecision)
    (producer limits actor : Json)
    → read_producer producer ≡ ok d.producer
    → read_limits limits ≡ ok d.effective_limits
    → read_actor actor ≡ ok d.actor
    → check d ≡ ok tt
    → human_from check (human_form d producer limits actor) ≡ ok d
unfolding human_from
human_from-human_form check d producer limits actor hp hl ha h = rw (
  hp,
  hl,
  enum_value-dimension_value d.dimension (codes "dimension"),
  enum_value-transition_value d.transition_kind (codes "transition_kind"),
  ha,
  string_array-texts d.evidence_ids (codes "evidence_ids"),
  optional_string-optional d.supersedes_decision_id (codes "supersedes_decision_id"),
  h,
)

-- What the constructors of a record's parts have checked.
pub record IsConstructed (producer : ProducerIdentity) (limits : ReferenceIoLimits)
    (actor : ReviewActorProvenance) : Type 0 where
  pub producer_checked : check_producer producer ≡ ok tt
  pub limits_checked : limits_accepted limits ≡ true
  pub actor_checked : check_actor actor ≡ ok tt

module _ (p : Platform) where
  -- Reading the written form of an accepted technical record, made of parts that their constructors
  -- have accepted, gives the record back.
  pub read_technical-technical_object :
      (r : TechnicalReviewRecord)
      → IsConstructed r.producer r.effective_limits r.actor
      → check_technical p r ≡ ok tt
      → read_technical p (technical_object r) ≡ ok r
  unfolding read_technical technical_object
  read_technical-technical_object r c h =
      technical_from-technical_form (check_technical p) r (producer_json r.producer)
        (limits_json r.effective_limits) (actor_json r.actor)
        (read_producer-producer_json r.producer c.producer_checked)
        (read_limits-limits_json r.effective_limits c.limits_checked)
        (read_actor-actor_json r.actor c.actor_checked) h

  -- Reading the written form of an accepted human decision, made of parts that their constructors
  -- have accepted, gives the decision back.
  pub read_human-human_object :
      (d : HumanReviewDecision)
      → IsConstructed d.producer d.effective_limits d.actor
      → check_human p d ≡ ok tt
      → read_human p (human_object d) ≡ ok d
  unfolding read_human human_object
  read_human-human_object d c h =
      human_from-human_form (check_human p) d (producer_json d.producer)
        (limits_json d.effective_limits) (actor_json d.actor)
        (read_producer-producer_json d.producer c.producer_checked)
        (read_limits-limits_json d.effective_limits c.limits_checked)
        (read_actor-actor_json d.actor c.actor_checked) h
