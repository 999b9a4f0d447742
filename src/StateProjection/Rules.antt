-- ===== src/StateProjection/Rules.antt =====
-- The authority matrix of state_projection.py: which dimension, owner and record kinds a field has,
-- which contract its values have, and which scope decides it.
use projectkoios_references.Prelude.{
  Dict, List, [], list_eq, list_ord, nat_eq, nat_ord, option_eq, pair_eq, pair_ord, ◌++◌, ◌∷◌,
}
use projectkoios_references.Text.{Text, codes}
use projectkoios_references.StateProjection.{
  StateRecordKind, StateDimension, StateFieldRule, immutable_observation, immutable_proposal,
  human_decision, candidate_identity, canonical_identity_decision, canonical_asset_decision,
  bibliographic_metadata, collection_observation, reading_decision, claim_support_decision,
  collection_decision, asset_discovery, acquisition, access, rights, ingestion, technical_review,
  citation,
}

abbrev observation : List StateRecordKind
observation = immutable_observation ∷ []

abbrev proposal : List StateRecordKind
proposal = immutable_proposal ∷ []

abbrev observation_or_proposal : List StateRecordKind
observation_or_proposal = observation ++ proposal

abbrev decision : List StateRecordKind
decision = human_decision ∷ []

abbrev references : Text
references = codes "projectkoios-references"

abbrev research : Text
research = codes "owning-research-repository"

abbrev ingesting : Text
ingesting = codes "projectkoios-ingestion"

abbrev rule : StateDimension → Text → List StateRecordKind → StateFieldRule
rule dimension owner kinds = record {
  dimension = dimension;
  authority_owner = owner;
  allowed_record_kinds = kinds;
}

-- STATE_FIELD_RULES
unfoldable pub state_field_rules : Dict Text StateFieldRule
state_field_rules =
    (codes "candidate_id", rule candidate_identity references proposal)
    ∷ (
      codes "identity_status",
      rule candidate_identity references (observation_or_proposal ++ decision),
    )
    ∷ (codes "proposed_citekey", rule candidate_identity references observation_or_proposal)
    ∷ (codes "citekey_status", rule candidate_identity references observation_or_proposal)
    ∷ (codes "bibliographic_work_id", rule canonical_identity_decision references decision)
    ∷ (codes "active_citekey", rule canonical_identity_decision references decision)
    ∷ (codes "alias_citekeys", rule canonical_identity_decision references decision)
    ∷ (codes "identity_decision_id", rule canonical_identity_decision references decision)
    ∷ (codes "source_asset_id", rule canonical_asset_decision references decision)
    ∷ (codes "canonical_asset_decision_id", rule canonical_asset_decision references decision)
    ∷ (codes "authority_binding_id", rule canonical_asset_decision references decision)
    ∷ (codes "entry_type", rule bibliographic_metadata references observation_or_proposal)
    ∷ (codes "title", rule bibliographic_metadata references observation_or_proposal)
    ∷ (codes "authors", rule bibliographic_metadata references observation_or_proposal)
    ∷ (codes "year", rule bibliographic_metadata references observation_or_proposal)
    ∷ (codes "doi", rule bibliographic_metadata references observation_or_proposal)
    ∷ (codes "isbn", rule bibliographic_metadata references observation_or_proposal)
    ∷ (codes "url", rule bibliographic_metadata references observation_or_proposal)
    ∷ (codes "eprint", rule bibliographic_metadata references observation_or_proposal)
    ∷ (codes "source_bibliographies", rule collection_observation references observation)
    ∷ (codes "bibliographic_status", rule collection_observation references observation)
    ∷ (codes "reading_observation", rule collection_observation references observation)
    ∷ (codes "reading_decision", rule reading_decision references decision)
    ∷ (codes "claim_support_check", rule claim_support_decision research decision)
    ∷ (codes "collection_inclusion", rule collection_decision references decision)
    ∷ (codes "asset_sha256", rule asset_discovery references observation_or_proposal)
    ∷ (codes "asset_byte_size", rule asset_discovery references observation_or_proposal)
    ∷ (codes "asset_root_alias", rule asset_discovery references observation_or_proposal)
    ∷ (codes "asset_relative_path", rule asset_discovery references observation_or_proposal)
    ∷ (codes "asset_status", rule asset_discovery references observation_or_proposal)
    ∷ (codes "asset_heuristic_observations", rule asset_discovery references proposal)
    ∷ (codes "asset_ambiguity_status", rule asset_discovery references proposal)
    ∷ (codes "asset_competing_observation_ids", rule asset_discovery references proposal)
    ∷ (codes "asset_alternate_version_observation_ids", rule asset_discovery references proposal)
    ∷ (codes "acquisition_status", rule acquisition references observation)
    ∷ (codes "access_status", rule access references observation)
    ∷ (codes "rights_status", rule rights references observation)
    ∷ (codes "ingestion_status", rule ingestion ingesting observation)
    ∷ (codes "transcript_status", rule ingestion ingesting observation)
    ∷ (codes "ingestion_contract_status", rule ingestion ingesting observation)
    ∷ (codes "acquisition_contract_status", rule acquisition references observation)
    ∷ (codes "derivation_audit_status", rule ingestion ingesting observation)
    ∷ (codes "technical_review_status", rule technical_review references observation)
    ∷ (codes "citation_status", rule citation references observation)
    ∷ []

-- ASSET_AMBIGUITY_STATUSES of assets.py
abbrev pub asset_ambiguity_statuses : List Text
asset_ambiguity_statuses =
    codes "no-heuristic-candidate-observed"
    ∷ codes "unresolved-single-heuristic-candidate"
    ∷ codes "unresolved-competing-bibliographic-candidates"
    ∷ codes "unresolved-alternate-source-versions"
    ∷ codes "unresolved-competing-candidates-and-source-versions"
    ∷ []

-- _EXACT_FIELD_VALUES
unfoldable pub exact_field_values : Dict Text (List Text)
exact_field_values =
    (codes "identity_status", codes "unaccepted-candidate" ∷ codes "accepted" ∷ [])
    ∷ (codes "citekey_status", codes "proposed-noncanonical" ∷ [])
    ∷ (codes "asset_ambiguity_status", asset_ambiguity_statuses)
    ∷ (codes "reading_decision", codes "not-established" ∷ codes "read" ∷ [])
    ∷ (codes "claim_support_check", codes "not-established" ∷ codes "checked" ∷ [])
    ∷ (codes "collection_inclusion", codes "unresolved" ∷ codes "included" ∷ codes "excluded" ∷ [])
    ∷ []

-- _STRING_FIELDS
unfoldable pub string_fields : List Text
string_fields =
    codes "proposed_citekey"
    ∷ codes "active_citekey"
    ∷ codes "entry_type"
    ∷ codes "title"
    ∷ codes "year"
    ∷ codes "doi"
    ∷ codes "isbn"
    ∷ codes "url"
    ∷ codes "eprint"
    ∷ codes "bibliographic_status"
    ∷ codes "reading_observation"
    ∷ codes "asset_root_alias"
    ∷ codes "asset_relative_path"
    ∷ codes "asset_status"
    ∷ codes "acquisition_status"
    ∷ codes "access_status"
    ∷ codes "rights_status"
    ∷ codes "ingestion_status"
    ∷ codes "transcript_status"
    ∷ codes "ingestion_contract_status"
    ∷ codes "acquisition_contract_status"
    ∷ codes "derivation_audit_status"
    ∷ codes "citation_status"
    ∷ []

-- _STRING_ARRAY_FIELDS
unfoldable pub string_array_fields : List Text
string_array_fields =
    codes "authors"
    ∷ codes "alias_citekeys"
    ∷ codes "source_bibliographies"
    ∷ codes "asset_competing_observation_ids"
    ∷ codes "asset_alternate_version_observation_ids"
    ∷ []

-- _HUMAN_DECISION_SCOPE_BY_FIELD
unfoldable pub human_decision_scope_by_field : Dict Text Text
human_decision_scope_by_field =
    (codes "identity_status", codes "reference-identity-curator")
    ∷ (codes "bibliographic_work_id", codes "reference-identity-curator")
    ∷ (codes "active_citekey", codes "reference-identity-curator")
    ∷ (codes "alias_citekeys", codes "reference-identity-curator")
    ∷ (codes "identity_decision_id", codes "reference-identity-curator")
    ∷ (codes "source_asset_id", codes "canonical-asset-curator")
    ∷ (codes "canonical_asset_decision_id", codes "canonical-asset-curator")
    ∷ (codes "authority_binding_id", codes "canonical-asset-curator")
    ∷ (codes "reading_decision", codes "reference-reader")
    ∷ (codes "claim_support_check", codes "scientific-claim-reviewer")
    ∷ (codes "collection_inclusion", codes "review-collection-curator")
    ∷ []

-- The fields of _SPECIAL_FIELDS that hold a content identity, and the others.
abbrev pub identity_fields : List Text
identity_fields =
    codes "candidate_id"
    ∷ codes "bibliographic_work_id"
    ∷ codes "identity_decision_id"
    ∷ codes "source_asset_id"
    ∷ codes "canonical_asset_decision_id"
    ∷ codes "authority_binding_id"
    ∷ []

-- _SPECIAL_FIELDS
unfoldable pub special_fields : List Text
special_fields =
    identity_fields
    ++ codes "asset_sha256"
      ∷ codes "asset_byte_size"
      ∷ codes "asset_heuristic_observations"
      ∷ codes "technical_review_status"
      ∷ []
