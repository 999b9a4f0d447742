-- ===== src/Models.antt =====
-- models.py (src/python/projectkoios/references): `SourceAssetRecord` and `AbstractRecord`.
mod Tests
use projectkoios_references.Prelude.{
  >>-eq-ok, >>=-eq-ok, Bool, List, Option, Result, all, ap, drop, err, length, list_eq, list_ord,
  ltb, nat_eq, nat_ord, not, not-eq-false, ok, ok-injective, option_eq, raise_if, raise_if-eq-ok,
  true, ℕ, ◌&&◌, ◌-◌, ◌/◌, ◌==◌, ◌>>=◌, ◌>>◌, ◌||◌, ◌≡◌,
}
use projectkoios_references.Text.{Text, codes, Platform, is_hex, starts_with}
use projectkoios_references.Citekey.{PathError, is_empty, validate_citekey}
use projectkoios_references.Citekey.Filenames.{IsCitekey, validate_citekey-IsCitekey}
use projectkoios_references.Citekey.Paths.{
  RelativePathError, validate_root_alias, validate_relative_path, IsRelativePath,
  validate_relative_path-IsRelativePath,
}

-- The errors of the path checks, and one constructor for each message of a ValueError.
pub data ModelError : Type 0 where
  citekey_error : PathError → ModelError
  location_error : RelativePathError → ModelError
  invalid_candidate accepted_identity canonical_citekey not_digest : ModelError
  not_bounded : Text → ModelError
  empty_abstract not_digest_length : ModelError

pub record SourceAssetRecord : Type 0 where
  pub candidate_id : Text
  pub proposed_citekey : Text
  pub identity_status : Text
  pub citekey_status : Text
  pub sha256 : Text
  pub byte_size : ℕ
  pub root_alias : Text
  pub relative_path : Text
  pub rights_status : Text
  pub asset_status : Text

-- [0-9a-f]{64}
abbrev pub is_digest : Text → Bool
is_digest s = length s == 64 && all is_hex s

abbrev citekey_checked : {A : Type 0} → Result PathError A → Result ModelError A
citekey_checked (ok a) = ok a
citekey_checked (err e) = err (citekey_error e)

abbrev location_checked : {A : Type 0} → Result RelativePathError A → Result ModelError A
location_checked (ok a) = ok a
location_checked (err e) = err (location_error e)

abbrev is_unbounded : Text → Bool
is_unbounded s = is_empty s || ltb 4096 (length s)

module _ (p : Platform) where
  -- `SourceAssetRecord.__post_init__`
  unfoldable pub check_source_asset : SourceAssetRecord → Result ModelError (Unit {0})
  unfolding starts_with validate_citekey validate_root_alias validate_relative_path
  check_source_asset r = do
    raise_if
        (not (
          starts_with r.candidate_id (codes "reference-candidate:sha256:")
          && is_digest (drop 27 r.candidate_id)))
        invalid_candidate
    citekey ← citekey_checked (validate_citekey p r.proposed_citekey)
    raise_if (not (r.identity_status == codes "unaccepted-candidate")) accepted_identity
    raise_if (not (r.citekey_status == codes "proposed-noncanonical")) canonical_citekey
    alias ← location_checked (validate_root_alias p r.root_alias)
    path ← location_checked (validate_relative_path p r.relative_path)
    raise_if (not (is_digest r.sha256)) not_digest
    raise_if (is_unbounded r.rights_status) (not_bounded (codes "rights_status"))
    raise_if (is_unbounded r.asset_status) (not_bounded (codes "asset_status"))

pub record AbstractRecord : Type 0 where
  pub citekey : Text
  pub text : Text
  pub provider : Text
  pub source_url : Text
  pub retrieved_at : Text
  pub content_hash : Text
  pub language : Option Text

-- `AbstractRecord.__post_init__`
unfoldable pub check_abstract : Platform → AbstractRecord → Result ModelError (Unit {0})
unfolding validate_citekey
check_abstract p r = do
  citekey ← citekey_checked (validate_citekey p r.citekey)
  raise_if (is_empty r.text) empty_abstract
  raise_if (not (length r.content_hash == 64)) not_digest_length

-- What an accepted record of a source asset is.
pub record IsSafeAsset (p : Platform) (r : SourceAssetRecord) : Type 0 where
  pub citekey : IsCitekey p r.proposed_citekey
  pub parts : List Text
  pub path : IsRelativePath p r.relative_path parts
  pub digest : is_digest r.sha256 ≡ true

citekey_checked-ok :
    {A : Type 0} (r : Result PathError A) {a : A} → citekey_checked r ≡ ok a → r ≡ ok a
citekey_checked-ok (ok b) h = ap ok (ok-injective h)
citekey_checked-ok (err e) h = cc

location_checked-ok :
    {A : Type 0} (r : Result RelativePathError A) {a : A} → location_checked r ≡ ok a → r ≡ ok a
location_checked-ok (ok b) h = ap ok (ok-injective h)
location_checked-ok (err e) h = cc

-- An accepted record of a source asset proposes a citation key that the key checks accept, stands at
-- a portable relative path, and carries a digest of 64 hexadecimal digits.
pub check_source_asset-IsSafeAsset :
    (p : Platform) (r : SourceAssetRecord) → check_source_asset p r ≡ ok tt → IsSafeAsset p r
unfolding check_source_asset
check_source_asset-IsSafeAsset p r h =
    let (_, h1) =
      >>-eq-ok
        (raise_if
          (not (
            starts_with r.candidate_id (codes "reference-candidate:sha256:")
            && is_digest (drop 27 r.candidate_id)))
          invalid_candidate)
        _ h in
    let (key, keyed, h2) =
      >>=-eq-ok (citekey_checked (validate_citekey p r.proposed_citekey)) _ h1 in
    let (_, h3) =
      >>-eq-ok
        (raise_if (not (r.identity_status == codes "unaccepted-candidate")) accepted_identity) _
        h2 in
    let (_, h4) =
      >>-eq-ok
        (raise_if (not (r.citekey_status == codes "proposed-noncanonical")) canonical_citekey) _
        h3 in
    let (alias, _, h5) = >>=-eq-ok (location_checked (validate_root_alias p r.root_alias)) _ h4 in
    let (parts, placed, h6) =
      >>=-eq-ok (location_checked (validate_relative_path p r.relative_path)) _ h5 in
    let (hashed, _) = >>-eq-ok (raise_if (not (is_digest r.sha256)) not_digest) _ h6 in
    record {
      citekey = (validate_citekey-IsCitekey p r.proposed_citekey (citekey_checked-ok _ keyed)).1;
      parts = parts;
      path = validate_relative_path-IsRelativePath p r.relative_path (location_checked-ok _ placed);
      digest = not-eq-false _ (raise_if-eq-ok _ _ hashed);
    }
