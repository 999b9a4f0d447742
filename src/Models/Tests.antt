-- ===== src/Models/Tests.antt =====
-- One record of a source asset.
use projectkoios_references.Prelude.{
  list_eq, list_ord, nat_eq, nat_ord, ok, option_eq, refl, ◌++◌, ◌≡◌,
}
use projectkoios_references.Samples.{ascii, digest}
use projectkoios_references.Text.{codes, before}
use projectkoios_references.Citekey.{is_reserved}
use projectkoios_references.Models.{
  SourceAssetRecord, IsSafeAsset, check_source_asset, check_source_asset-IsSafeAsset,
}

abbrev asset : SourceAssetRecord
asset = record {
  candidate_id = codes "reference-candidate:sha256:" ++ digest 3;
  proposed_citekey = codes "knuth1984";
  identity_status = codes "unaccepted-candidate";
  citekey_status = codes "proposed-noncanonical";
  sha256 = digest 4;
  byte_size = 1024;
  root_alias = codes "library";
  relative_path = codes "pdf/knuth1984.pdf";
  rights_status = codes "unknown";
  asset_status = codes "observed";
}

asset_accepted : check_source_asset ascii asset ≡ ok tt
unfolding check_source_asset is_reserved before
asset_accepted = refl

check_source_asset-IsSafeAsset_example : IsSafeAsset ascii asset
check_source_asset-IsSafeAsset_example = check_source_asset-IsSafeAsset ascii asset asset_accepted
