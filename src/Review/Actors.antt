-- ===== src/Review/Actors.antt =====
-- The members of the enumerations, and `ReviewActorProvenance.from_dict`.
use projectkoios_references.Prelude.{
  List, Result, [], list_eq, list_ord, nat_eq, nat_ord, ok, option_eq, ◌>>=◌, ◌>>◌, ◌∷◌,
}
use projectkoios_references.Text.{Text, codes}
use projectkoios_references.Json.{Json}
use projectkoios_references.Review.Types.{
  HumanReviewDimension, ReviewActorKind, ReviewAuthorityScope, ReviewTransitionKind,
  TechnicalReviewKind, TechnicalReviewOutcome, actor_kind_value, canonical_asset,
  canonical_asset_curator, claim_support_check, correction, discovery, failed, full_text_location,
  initial, metadata_verification, not_applicable, observed, passed, person, processor, reading,
  reference_identity, reference_identity_curator, reference_reader, review_collection_curator,
  review_collection_inclusion, scientific_claim_reviewer, scope_value, supersession,
  technical_processor, transcription, unresolved,
}
use projectkoios_references.Review.Records.{ReviewActorProvenance, check_actor}
use projectkoios_references.Review.Fields.{ReadError, checked, at, exact_object, string, enum_value}

abbrev pub actor_kinds : List ReviewActorKind
actor_kinds = person ∷ processor ∷ []

abbrev pub authority_scopes : List ReviewAuthorityScope
authority_scopes =
    technical_processor ∷ reference_reader ∷ review_collection_curator ∷ reference_identity_curator
    ∷ canonical_asset_curator ∷ scientific_claim_reviewer ∷ []

abbrev pub transition_kinds : List ReviewTransitionKind
transition_kinds = initial ∷ supersession ∷ correction ∷ []

abbrev pub technical_kinds : List TechnicalReviewKind
technical_kinds = discovery ∷ metadata_verification ∷ full_text_location ∷ transcription ∷ []

abbrev pub outcomes : List TechnicalReviewOutcome
outcomes = observed ∷ passed ∷ failed ∷ unresolved ∷ not_applicable ∷ []

abbrev pub dimensions : List HumanReviewDimension
dimensions =
    reading ∷ claim_support_check ∷ review_collection_inclusion ∷ reference_identity
    ∷ canonical_asset ∷ []

abbrev actor_fields : List Text
actor_fields =
    codes "actor_id"
    ∷ codes "actor_kind"
    ∷ codes "authority_scope"
    ∷ codes "authority_domain"
    ∷ codes "verification_record_id"
    ∷ codes "verification_method"
    ∷ []

-- `ReviewActorProvenance.from_dict`
unfoldable pub read_actor : Json → Result ReadError ReviewActorProvenance
unfolding exact_object string enum_value check_actor
read_actor value = do
  fields ← exact_object value actor_fields (codes "review actor")
  actor_id ← string (at (codes "actor_id") fields) (codes "actor_id")
  actor_kind ←
      enum_value actor_kind_value actor_kinds (at (codes "actor_kind") fields) (codes "actor_kind")
  scope ←
      enum_value scope_value authority_scopes (at (codes "authority_scope") fields)
        (codes "authority_scope")
  domain ← string (at (codes "authority_domain") fields) (codes "authority_domain")
  verification ←
      string (at (codes "verification_record_id") fields) (codes "verification_record_id")
  method ← string (at (codes "verification_method") fields) (codes "verification_method")
  let made : ReviewActorProvenance = record {
    actor_id = actor_id;
    actor_kind = actor_kind;
    authority_scope = scope;
    authority_domain = domain;
    verification_record_id = verification;
    verification_method = method;
  }
  checked (check_actor made)
  ok made
