-- ===== src/Review/Types.antt =====
-- The closed vocabularies of review.py with the values of the string enums, and the tables that
-- say which decisions and which authority belong to which dimension.
use projectkoios_references.Prelude.{
  Bool, List, [], false, list_eq, list_ord, nat_eq, nat_ord, option_eq, true, ◌∷◌,
}
use projectkoios_references.Text.{Text, codes}

pub data ReviewActorKind : Type 0 where
  person processor : ReviewActorKind

pub data ReviewAuthorityScope : Type 0 where
  technical_processor reference_reader review_collection_curator : ReviewAuthorityScope
  reference_identity_curator canonical_asset_curator scientific_claim_reviewer :
      ReviewAuthorityScope

pub data ReviewTransitionKind : Type 0 where
  initial supersession correction : ReviewTransitionKind

pub data TechnicalReviewKind : Type 0 where
  discovery metadata_verification full_text_location transcription : TechnicalReviewKind

pub data TechnicalReviewOutcome : Type 0 where
  observed passed failed unresolved not_applicable : TechnicalReviewOutcome

pub data HumanReviewDimension : Type 0 where
  reading claim_support_check review_collection_inclusion : HumanReviewDimension
  reference_identity canonical_asset : HumanReviewDimension

abbrev pub actor_kind_value : ReviewActorKind → Text
actor_kind_value person = codes "person"
actor_kind_value processor = codes "processor"

abbrev pub scope_value : ReviewAuthorityScope → Text
scope_value technical_processor = codes "technical-processor"
scope_value reference_reader = codes "reference-reader"
scope_value review_collection_curator = codes "review-collection-curator"
scope_value reference_identity_curator = codes "reference-identity-curator"
scope_value canonical_asset_curator = codes "canonical-asset-curator"
scope_value scientific_claim_reviewer = codes "scientific-claim-reviewer"

abbrev pub transition_value : ReviewTransitionKind → Text
transition_value initial = codes "initial"
transition_value supersession = codes "supersession"
transition_value correction = codes "correction"

abbrev pub technical_kind_value : TechnicalReviewKind → Text
technical_kind_value discovery = codes "discovery"
technical_kind_value metadata_verification = codes "metadata-verification"
technical_kind_value full_text_location = codes "full-text-location"
technical_kind_value transcription = codes "transcription"

abbrev pub outcome_value : TechnicalReviewOutcome → Text
outcome_value observed = codes "observed"
outcome_value passed = codes "passed"
outcome_value failed = codes "failed"
outcome_value unresolved = codes "unresolved"
outcome_value not_applicable = codes "not-applicable"

abbrev pub dimension_value : HumanReviewDimension → Text
dimension_value reading = codes "reading"
dimension_value claim_support_check = codes "claim-support-check"
dimension_value review_collection_inclusion = codes "review-collection-inclusion"
dimension_value reference_identity = codes "reference-identity"
dimension_value canonical_asset = codes "canonical-asset"

-- _DECISIONS_BY_DIMENSION
abbrev pub decisions_by_dimension : HumanReviewDimension → List Text
decisions_by_dimension reading = codes "read" ∷ codes "not-established" ∷ []
decisions_by_dimension claim_support_check = codes "checked" ∷ codes "not-established" ∷ []
decisions_by_dimension review_collection_inclusion =
    codes "included" ∷ codes "excluded" ∷ codes "unresolved" ∷ []
decisions_by_dimension reference_identity =
    codes "accept-existing"
    ∷ codes "accept-new"
    ∷ codes "merge"
    ∷ codes "reject"
    ∷ codes "defer"
    ∷ []
decisions_by_dimension canonical_asset = codes "authorize" ∷ codes "reject" ∷ codes "defer" ∷ []

-- _SCOPE_BY_DIMENSION
abbrev pub scope_by_dimension : HumanReviewDimension → ReviewAuthorityScope
scope_by_dimension reading = reference_reader
scope_by_dimension claim_support_check = scientific_claim_reviewer
scope_by_dimension review_collection_inclusion = review_collection_curator
scope_by_dimension reference_identity = reference_identity_curator
scope_by_dimension canonical_asset = canonical_asset_curator

abbrev pub is_person : ReviewActorKind → Bool
is_person person = true
is_person processor = false

abbrev pub is_technical : ReviewAuthorityScope → Bool
is_technical technical_processor = true
is_technical _ = false

abbrev pub is_initial : ReviewTransitionKind → Bool
is_initial initial = true
is_initial _ = false

abbrev pub is_correction : ReviewTransitionKind → Bool
is_correction correction = true
is_correction _ = false

-- `is` on authority scopes
abbrev pub same_scope : ReviewAuthorityScope → ReviewAuthorityScope → Bool
same_scope technical_processor technical_processor = true
same_scope reference_reader reference_reader = true
same_scope review_collection_curator review_collection_curator = true
same_scope reference_identity_curator reference_identity_curator = true
same_scope canonical_asset_curator canonical_asset_curator = true
same_scope scientific_claim_reviewer scientific_claim_reviewer = true
same_scope _ _ = false

-- Membership in the set `reference_owned`
abbrev pub is_reference_owned : HumanReviewDimension → Bool
is_reference_owned claim_support_check = false
is_reference_owned _ = true

abbrev pub is_claim_support : HumanReviewDimension → Bool
is_claim_support claim_support_check = true
is_claim_support _ = false

abbrev pub is_reading : HumanReviewDimension → Bool
is_reading reading = true
is_reading _ = false

-- One constructor for each message of a ReviewRecordError; a text is the field's name.
pub data ReviewError : Type 0 where
  technical_authority_requires_processor human_authority_requires_person : ReviewError
  unsupported_schema unsupported_authority_kind limits_unsupported limits_identity_differs :
      ReviewError
  not_content_id not_bounded_text too_many_ids ids_not_sorted_unique : Text → ReviewError
  no_evidence omits_actor_verification timestamp_not_canonical timestamp_not_real : ReviewError
  initial_cannot_supersede transition_requires_supersession : ReviewError
  technical_requires_processor_authority invalid_decision requires_person_authority : ReviewError
  requires_reference_domain claim_support_in_reference_domain identity_does_not_match : ReviewError
  record_limit duplicate_identities one_initial_required initial_supersedes : ReviewError
  omits_supersession supersedes_missing_state concurrent_transitions cycle_detected : ReviewError
  state_not_changed disconnected_history time_value_error timestamp_precedes
        regression_requires_correction :
      ReviewError
  unsupported_producer : ReviewError
  -- Not raised by the source: the model's loop has used up its fuel.
  out_of_fuel : ReviewError
