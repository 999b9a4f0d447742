-- ===== src/Review/Samples.antt =====
-- Review records for the runs.
use projectkoios_references.Prelude.{
  Option, Result, [], err, list_eq, list_ord, nat_eq, nat_ord, none, ok, option_eq, refl, some,
  ◌++◌, ◌∷◌, ◌≡◌,
}
use projectkoios_references.Samples.{ascii, digest}
use projectkoios_references.Text.{Text, codes}
use projectkoios_references.Review.Types.{
  ReviewError, ReviewTransitionKind, discovery, initial, passed, person, processor, reading,
  reference_reader, supersession, technical_processor,
}
use projectkoios_references.Limits.{review_io_limits}
use projectkoios_references.Review.Records.{
  ProducerIdentity, ReviewActorProvenance, TechnicalReviewRecord, HumanReviewDecision,
}
use projectkoios_references.Review.Authoring.{reference_domain, create_technical, create_human}
use projectkoios_references.Review.Replay.{ReviewProjection, replay_review_records}

abbrev pub value_or : {A : Type 0} → A → Result ReviewError A → A
value_or d (ok a) = a
value_or d (err e) = d

abbrev verification : Text
verification = codes "verification:sha256:" ++ digest 1

abbrev pub producer : ProducerIdentity
producer = record { name = codes "desk"; version = codes "1" }

abbrev pub reader : ReviewActorProvenance
reader = record {
  actor_id = codes "ada";
  actor_kind = person;
  authority_scope = reference_reader;
  authority_domain = reference_domain;
  verification_record_id = verification;
  verification_method = codes "signed";
}

abbrev pub scanner : ReviewActorProvenance
scanner = record {
  actor_id = codes "scanner";
  actor_kind = processor;
  authority_scope = technical_processor;
  authority_domain = codes "scans";
  verification_record_id = verification;
  verification_method = codes "pinned";
}

abbrev subject : Text
subject = codes "reference:sha256:" ++ digest 2

unfoldable pub create_reading :
    Text → ReviewTransitionKind → Text → Option Text → Result ReviewError HumanReviewDecision
unfolding create_human
create_reading decision transition at prior =
    create_human ascii subject (codes "course") reading decision producer transition reader
      (verification ∷ []) (codes "read it") at prior

abbrev no_decision : HumanReviewDecision
no_decision = record {
  schema_version = 0;
  authority_kind = [];
  producer = producer;
  effective_limits = review_io_limits;
  effective_limits_id = [];
  subject_id = [];
  context_id = [];
  dimension = reading;
  decision = [];
  transition_kind = initial;
  actor = reader;
  evidence_ids = [];
  rationale = [];
  decided_at = [];
  supersedes_decision_id = none;
  decision_id = [];
}

abbrev no_scan : TechnicalReviewRecord
no_scan = record {
  schema_version = 0;
  authority_kind = [];
  producer = producer;
  effective_limits = review_io_limits;
  effective_limits_id = [];
  subject_id = [];
  context_id = [];
  technical_kind = discovery;
  outcome = passed;
  transition_kind = initial;
  actor = scanner;
  evidence_ids = [];
  rationale = [];
  observed_at = [];
  supersedes_record_id = none;
  record_id = [];
}

unfoldable pub first_reading : HumanReviewDecision
unfolding create_reading
first_reading =
    value_or no_decision
      (create_reading (codes "not-established") initial (codes "2024-02-29T10:00:00Z") none)

unfoldable pub second_reading : HumanReviewDecision
unfolding create_reading first_reading
second_reading = value_or no_decision (
    create_reading (codes "read") supersession (codes "2024-03-01T09:30:00Z")
      (some first_reading.decision_id))

created_readings :
    (create_reading (codes "not-established") initial (codes "2024-02-29T10:00:00Z") none
      ≡ ok first_reading)
    × (create_reading
          (codes "read")
          supersession
          (codes "2024-03-01T09:30:00Z")
          (some first_reading.decision_id)
        ≡ ok second_reading)
unfolding create_reading first_reading second_reading
created_readings = (refl, refl)

abbrev no_projection : ReviewProjection
no_projection = record {
  schema_version = 0;
  authority_kind = [];
  producer = producer;
  effective_limits = review_io_limits;
  effective_limits_id = [];
  technical_history = [];
  human_decision_history = [];
  current_technical_record_ids = [];
  current_human_decision_ids = [];
  projection_id = [];
}

unfoldable pub scan : TechnicalReviewRecord
unfolding create_technical
scan = value_or no_scan (
    create_technical ascii subject (codes "asset") discovery passed producer initial scanner
      (verification ∷ []) (codes "found it") (codes "2024-02-28T08:00:00Z") none)

unfoldable pub projected : ReviewProjection
unfolding replay_review_records scan first_reading second_reading
projected =
    value_or no_projection
      (replay_review_records ascii (scan ∷ []) (second_reading ∷ first_reading ∷ []))

pub replayed :
    replay_review_records ascii (scan ∷ []) (second_reading ∷ first_reading ∷ []) ≡ ok projected
unfolding projected
replayed = refl

pub replayed_in_order :
    replay_review_records ascii (scan ∷ []) (first_reading ∷ second_reading ∷ []) ≡ ok projected
unfolding projected replay_review_records scan first_reading second_reading
replayed_in_order = refl
