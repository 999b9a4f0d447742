-- ===== src/Limits/Profiles.antt =====
-- io_limits.py: the other profiles of hard limits. The checks of `ReferenceIOLimits` accept each.
use projectkoios_references.Prelude.{
  [], all, list_eq, list_ord, nat_eq, nat_ord, none, option_eq, refl, some, true, ◌∷◌, ◌≡◌,
}
use projectkoios_references.Text.{codes}
use projectkoios_references.Limits.{ReferenceIoLimits, limits_accepted}

abbrev pub asset_discovery_io_limits : ReferenceIoLimits
asset_discovery_io_limits = record {
  profile = codes "asset-discovery-v1";
  max_files = some 10000;
  max_file_bytes = some 4000000000;
  max_response_bytes = none;
  max_cache_bytes = none;
  max_total_bytes = some 40000000000;
  max_rows = none;
  max_json_bytes = some 20000000;
  max_csv_bytes = none;
  max_bibliography_bytes = none;
  max_json_depth = some 64;
  max_nesting_depth = none;
  max_text_bytes = some 4096;
  max_text_file_bytes = none;
  max_text_total_bytes = none;
  max_candidates = some 100000;
  max_match_evaluations = some 100000;
  max_entries = some 20000;
}

abbrev pub pdf_corpus_discovery_io_limits : ReferenceIoLimits
pdf_corpus_discovery_io_limits = record {
  profile = codes "pdf-corpus-discovery-v1";
  max_files = some 10000;
  max_file_bytes = some 4000000000;
  max_response_bytes = none;
  max_cache_bytes = none;
  max_total_bytes = some 40000000000;
  max_rows = none;
  max_json_bytes = some 20000000;
  max_csv_bytes = none;
  max_bibliography_bytes = none;
  max_json_depth = some 64;
  max_nesting_depth = some 64;
  max_text_bytes = some 4096;
  max_text_file_bytes = none;
  max_text_total_bytes = none;
  max_candidates = some 100000;
  max_match_evaluations = none;
  max_entries = some 100000;
}

abbrev pub acquisition_io_limits : ReferenceIoLimits
acquisition_io_limits = record {
  profile = codes "acquisition-v1";
  max_files = some 256;
  max_file_bytes = some 4000000000;
  max_response_bytes = none;
  max_cache_bytes = none;
  max_total_bytes = some 40000000000;
  max_rows = some 256;
  max_json_bytes = some 1000000;
  max_csv_bytes = some 1000000;
  max_bibliography_bytes = none;
  max_json_depth = some 64;
  max_nesting_depth = some 64;
  max_text_bytes = some 4096;
  max_text_file_bytes = none;
  max_text_total_bytes = none;
  max_candidates = some 256;
  max_match_evaluations = none;
  max_entries = some 1024;
}

abbrev pub reconciliation_package_io_limits : ReferenceIoLimits
reconciliation_package_io_limits = record {
  profile = codes "reconciliation-package-v1";
  max_files = some 100000;
  max_file_bytes = some 50000000;
  max_response_bytes = none;
  max_cache_bytes = none;
  max_total_bytes = some 100000000;
  max_rows = none;
  max_json_bytes = some 20000000;
  max_csv_bytes = none;
  max_bibliography_bytes = none;
  max_json_depth = some 64;
  max_nesting_depth = none;
  max_text_bytes = none;
  max_text_file_bytes = none;
  max_text_total_bytes = none;
  max_candidates = none;
  max_match_evaluations = none;
  max_entries = some 100000;
}

abbrev pub reconciliation_io_limits : ReferenceIoLimits
reconciliation_io_limits = record {
  profile = codes "collection-reconciliation-v1";
  max_files = some 10000;
  max_file_bytes = some 4000000000;
  max_response_bytes = none;
  max_cache_bytes = none;
  max_total_bytes = some 40000000000;
  max_rows = some 10000;
  max_json_bytes = some 20000000;
  max_csv_bytes = some 50000000;
  max_bibliography_bytes = some 50000000;
  max_json_depth = some 64;
  max_nesting_depth = some 128;
  max_text_bytes = some 4096;
  max_text_file_bytes = some 50000000;
  max_text_total_bytes = some 50000000;
  max_candidates = some 10000;
  max_match_evaluations = none;
  max_entries = some 20000;
}

abbrev pub validation_io_limits : ReferenceIoLimits
validation_io_limits = record {
  profile = codes "reference-validation-v1";
  max_files = some 20000;
  max_file_bytes = some 1000000;
  max_response_bytes = none;
  max_cache_bytes = none;
  max_total_bytes = some 50000000;
  max_rows = none;
  max_json_bytes = none;
  max_csv_bytes = none;
  max_bibliography_bytes = none;
  max_json_depth = none;
  max_nesting_depth = none;
  max_text_bytes = some 4096;
  max_text_file_bytes = some 1000000;
  max_text_total_bytes = some 50000000;
  max_candidates = some 10000;
  max_match_evaluations = none;
  max_entries = some 40000;
}

abbrev pub identity_io_limits : ReferenceIoLimits
identity_io_limits = record {
  profile = codes "identity-replay-v1";
  max_files = some 10000;
  max_file_bytes = some 10000000;
  max_response_bytes = none;
  max_cache_bytes = none;
  max_total_bytes = some 100000000;
  max_rows = none;
  max_json_bytes = some 10000000;
  max_csv_bytes = none;
  max_bibliography_bytes = none;
  max_json_depth = some 64;
  max_nesting_depth = some 64;
  max_text_bytes = some 1000000;
  max_text_file_bytes = none;
  max_text_total_bytes = none;
  max_candidates = some 10000;
  max_match_evaluations = none;
  max_entries = some 10000;
}

abbrev pub metadata_io_limits : ReferenceIoLimits
metadata_io_limits = record {
  profile = codes "metadata-provider-v1";
  max_files = some 1000;
  max_file_bytes = some 3000000;
  max_response_bytes = some 2000000;
  max_cache_bytes = some 3000000;
  max_total_bytes = some 500000000;
  max_rows = none;
  max_json_bytes = some 3000000;
  max_csv_bytes = none;
  max_bibliography_bytes = none;
  max_json_depth = some 64;
  max_nesting_depth = some 64;
  max_text_bytes = some 512000;
  max_text_file_bytes = none;
  max_text_total_bytes = none;
  max_candidates = some 10000;
  max_match_evaluations = none;
  max_entries = some 2000;
}

other_profiles_accepted :
    all limits_accepted (
      asset_discovery_io_limits ∷ pdf_corpus_discovery_io_limits ∷ acquisition_io_limits
      ∷ reconciliation_package_io_limits ∷ reconciliation_io_limits ∷ validation_io_limits
      ∷ identity_io_limits ∷ metadata_io_limits ∷ [])
    ≡ true
unfolding limits_accepted
other_profiles_accepted = refl
