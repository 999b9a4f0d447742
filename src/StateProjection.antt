-- ===== src/StateProjection.antt =====
-- state_projection.py and state_projection_replay.py (src/python/projectkoios/references): the
-- vocabularies of state claims, the records, and what is raised. A record here is what the dataclass
-- holds; the checks that its `__post_init__` makes are functions of the child modules.
pub mod Rules
pub mod Observations
pub mod Values
pub mod Contracts
pub mod Claims
pub mod Fields
pub mod Projections
pub mod Requests
pub mod Reduce
pub mod Replay
pub mod Groups
pub mod Accepted
pub mod Reduced
pub mod Replayed
pub mod Represents
pub mod Resolutions
pub mod Order
pub mod Identity
pub mod Progress
pub mod Unordered
pub mod Shapes
pub mod Provenance
pub mod Faults
pub mod View
pub mod Escapes
pub mod Readers
pub mod Reading
pub mod Read
pub mod ReadFields
pub mod ReadBack
pub mod ReadTests
mod Tests
use projectkoios_references.Prelude.{
  Bool, Eq, List, Option, Ord, ap, if◌then◌else◌, less, list_eq, list_ord, nat_eq, nat_ord, not,
  option_eq, refl, sym, ℕ, ◌-◌, ◌/◌, ◌==◌, ◌>>=◌, ◌>>◌, ◌∙◌, ◌≡◌,
}
use projectkoios_references.Text.{Text, codes}

pub data StateRecordKind : Type 0 where
  immutable_observation immutable_proposal human_decision : StateRecordKind

pub data StateKnowledge : Type 0 where
  observed unknown not_observed not_applicable : StateKnowledge

pub data StateResolution : Type 0 where
  nothing_observed single agreement discrepancy : StateResolution

pub data StateDimension : Type 0 where
  candidate_identity canonical_identity_decision canonical_asset_decision : StateDimension
  bibliographic_metadata collection_observation reading_decision : StateDimension
  claim_support_decision collection_decision asset_discovery acquisition access : StateDimension
  rights rights_decision scientific_support ingestion technical_review citation : StateDimension
  manuscript_use publication contract_acceptance : StateDimension

abbrev pub record_kind_value : StateRecordKind → Text
record_kind_value immutable_observation = codes "immutable-observation"
record_kind_value immutable_proposal = codes "immutable-proposal"
record_kind_value human_decision = codes "human-decision"

abbrev pub knowledge_value : StateKnowledge → Text
knowledge_value observed = codes "observed"
knowledge_value unknown = codes "unknown"
knowledge_value not_observed = codes "not-observed"
knowledge_value not_applicable = codes "not-applicable"

abbrev pub resolution_value : StateResolution → Text
resolution_value nothing_observed = codes "not-observed"
resolution_value single = codes "single-authoritative-value"
resolution_value agreement = codes "multi-source-agreement"
resolution_value discrepancy = codes "unresolved-discrepancy"

abbrev pub state_dimension_value : StateDimension → Text
state_dimension_value candidate_identity = codes "candidate-identity"
state_dimension_value canonical_identity_decision = codes "canonical-identity-decision"
state_dimension_value canonical_asset_decision = codes "canonical-asset-decision"
state_dimension_value bibliographic_metadata = codes "bibliographic-metadata"
state_dimension_value collection_observation = codes "collection-observation"
state_dimension_value reading_decision = codes "reading-decision"
state_dimension_value claim_support_decision = codes "claim-support-decision"
state_dimension_value collection_decision = codes "collection-decision"
state_dimension_value asset_discovery = codes "asset-discovery"
state_dimension_value acquisition = codes "acquisition"
state_dimension_value access = codes "access"
state_dimension_value rights = codes "rights"
state_dimension_value rights_decision = codes "rights-decision"
state_dimension_value scientific_support = codes "scientific-support"
state_dimension_value ingestion = codes "ingestion"
state_dimension_value technical_review = codes "technical-review"
state_dimension_value citation = codes "citation"
state_dimension_value manuscript_use = codes "manuscript-use"
state_dimension_value publication = codes "publication"
state_dimension_value contract_acceptance = codes "contract-acceptance"

-- The messages of `StateProjectionError`, with the field that they name, and the KeyError of a field
-- that the table does not have.
pub data StateError : Type 0 where
  not_content_identity not_bounded : Text → StateError
  unsafe_locator : StateError
  unsupported_field no_such_field : Text → StateError
  kind_not_accepted wrong_owner wrong_scope : Text → StateError
  actor_required actor_unexpected : StateError
  value_required value_is_null value_unexpected : StateError
  value_too_long value_not_json value_not_canonical : StateError
  value_unsupported no_value_contract : Text → StateError
  decision_by_factory observed_by_unavailable : StateError
  unavailable_not_accepted : Text → StateError
  ids_not_canonical csv_field_limit : Text → StateError
  no_authority_input kinds_empty kinds_not_canonical locators_not_canonical : StateError
  projected_value_empty projected_value_unexpected : StateError
  wrong_dimension projected_owner projected_kind : Text → StateError
  projected_not_canonical : StateError
  resolution_inconsistent : Text → StateError
  wrong_schema wrong_artifact wrong_generator wrong_configuration : StateError
  claims_limit inputs_limit exclusions_limit : StateError
  no_inputs coverage_incomplete exclusions_not_canonical not_exact_replay : StateError
  projection_undeclared wrong_projection_id : StateError
  claim_subject_differs undeclared_inputs projection_bytes_limit : StateError
  result_subject_differs result_inputs_differ : StateError
  json_limit json_invalid json_not_canonical objects_invalid replay_differs : StateError
  not_array not_integer not_boolean not_text not_supported : Text → StateError
  no_safe_citekey entry_type_invalid unsafe_bib_value : StateError

pub record StateFieldRule : Type 0 where
  pub dimension : StateDimension
  pub authority_owner : Text
  pub allowed_record_kinds : List StateRecordKind

pub record StateClaim : Type 0 where
  pub subject_id : Text
  pub field : Text
  pub knowledge : StateKnowledge
  pub value_json : Option Text
  pub record_kind : StateRecordKind
  pub authority_owner : Text
  pub authoritative_input_id : Text
  pub source_locator : Text
  pub actor_id : Option Text
  pub authority_scope : Option Text
  pub actor_verification_record_id : Option Text

pub record ProjectedValue : Type 0 where
  pub knowledge : StateKnowledge
  pub value_json : Option Text
  pub authoritative_input_ids : List Text
  pub record_kinds : List StateRecordKind
  pub source_locators : List Text

pub record ProjectedField : Type 0 where
  pub field : Text
  pub dimension : StateDimension
  pub authority_owner : Text
  pub resolution : StateResolution
  pub values : List ProjectedValue

pub record ReferenceStateProjection : Type 0 where
  pub schema_version : ℕ
  pub artifact_kind : Text
  pub generator_name : Text
  pub generator_version : Text
  pub configuration_id : Text
  pub subject_id : Text
  pub authoritative_input_ids : List Text
  pub fields : List ProjectedField
  pub exclusions : List Text
  pub exact_replay : Bool
  pub projection_id : Text

-- The enums are compared by their values, and each value names one member.
kind_of_value : Text → StateRecordKind
kind_of_value s =
    if s == codes "immutable-observation"
    then immutable_observation
    else if s == codes "immutable-proposal"
    then immutable_proposal
    else human_decision

kind_of_value_lem : (k : StateRecordKind) → kind_of_value (record_kind_value k) ≡ k
unfolding kind_of_value
kind_of_value_lem immutable_observation = refl
kind_of_value_lem immutable_proposal = refl
kind_of_value_lem human_decision = refl

pub record_kind_value_injective :
    (k j : StateRecordKind) → record_kind_value k ≡ record_kind_value j → k ≡ j
record_kind_value_injective k j h =
    sym (kind_of_value_lem k) ∙ ap kind_of_value h ∙ kind_of_value_lem j

knowledge_of_value : Text → StateKnowledge
knowledge_of_value s =
    if s == codes "observed"
    then observed
    else if s == codes "unknown"
    then unknown
    else if s == codes "not-observed"
    then not_observed
    else not_applicable

knowledge_of_value_lem : (k : StateKnowledge) → knowledge_of_value (knowledge_value k) ≡ k
unfolding knowledge_of_value
knowledge_of_value_lem observed = refl
knowledge_of_value_lem unknown = refl
knowledge_of_value_lem not_observed = refl
knowledge_of_value_lem not_applicable = refl

pub knowledge_value_injective :
    (k j : StateKnowledge) → knowledge_value k ≡ knowledge_value j → k ≡ j
knowledge_value_injective k j h =
    sym (knowledge_of_value_lem k) ∙ ap knowledge_of_value h ∙ knowledge_of_value_lem j

-- Equality and order along an injective function.
abbrev pub eq_by : {A B : Type 0} ⦃e : Eq B⦄ (f : A → B) → ((x y : A) → f x ≡ f y → x ≡ y) → Eq A
eq_by ⦃e⦄ f injective = record {
  beq = λ x y. f x == f y;
  beq_iff = λ x y. (
    (λ h. injective x y ((e.beq_iff (f x) (f y)).0 h)),
    (λ h. (e.beq_iff (f x) (f y)).1 (ap f h)),
  );
}

abbrev pub ord_by : {A B : Type 0} ⦃o : Ord B⦄ (f : A → B) → ((x y : A) → f x ≡ f y → x ≡ y) → Ord A
ord_by ⦃o⦄ f injective = record {
  lt = λ x y. less (f x) (f y);
  lt_irrefl = λ x. o.lt_irrefl (f x);
  lt_trans = λ x y z. o.lt_trans (f x) (f y) (f z);
  lt_connex = λ x y h k. injective x y (o.lt_connex (f x) (f y) h k);
}

instance abbrev pub kind_eq : Eq StateRecordKind
kind_eq = eq_by record_kind_value record_kind_value_injective

instance abbrev pub kind_ord : Ord StateRecordKind
kind_ord = ord_by record_kind_value record_kind_value_injective

instance abbrev pub knowledge_eq : Eq StateKnowledge
knowledge_eq = eq_by knowledge_value knowledge_value_injective
