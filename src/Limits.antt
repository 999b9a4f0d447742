-- ===== src/Limits.antt =====
-- io_limits.py (src/python/projectkoios/references): the profiles of hard limits and their identity.
-- Profiles are ASCII, so that `ensure_ascii` changes nothing.
pub mod Nesting
pub mod Profiles
mod Tests
use projectkoios_references.Prelude.{
  Bool, List, Option, [], leb, length, list_eq, list_ord, ltb, nat_eq, nat_ord, none, not,
  option_eq, refl, some, true, ℕ, ◌&&◌, ◌==◌, ◌∷◌, ◌≡◌,
}
use projectkoios_references.Text.{Text, codes, Platform, utf8_size}
use projectkoios_references.Json.{Json, Fields, end, field, obj, str, optional_num, stable_id}

-- A limit of `none` does not apply to the operation.
pub record ReferenceIoLimits : Type 0 where
  pub profile : Text
  pub max_files : Option ℕ
  pub max_file_bytes : Option ℕ
  pub max_response_bytes : Option ℕ
  pub max_cache_bytes : Option ℕ
  pub max_total_bytes : Option ℕ
  pub max_rows : Option ℕ
  pub max_json_bytes : Option ℕ
  pub max_csv_bytes : Option ℕ
  pub max_bibliography_bytes : Option ℕ
  pub max_json_depth : Option ℕ
  pub max_nesting_depth : Option ℕ
  pub max_text_bytes : Option ℕ
  pub max_text_file_bytes : Option ℕ
  pub max_text_total_bytes : Option ℕ
  pub max_candidates : Option ℕ
  pub max_match_evaluations : Option ℕ
  pub max_entries : Option ℕ

abbrev numbers : ReferenceIoLimits → List (Option ℕ)
numbers l =
    l.max_files ∷ l.max_file_bytes ∷ l.max_response_bytes ∷ l.max_cache_bytes ∷ l.max_total_bytes
    ∷ l.max_rows ∷ l.max_json_bytes ∷ l.max_csv_bytes ∷ l.max_bibliography_bytes ∷ l.max_json_depth
    ∷ l.max_nesting_depth ∷ l.max_text_bytes ∷ l.max_text_file_bytes ∷ l.max_text_total_bytes
    ∷ l.max_candidates ∷ l.max_match_evaluations ∷ l.max_entries ∷ []

-- `hard_ceilings`, in the order of the fields
abbrev hard_ceilings : List ℕ
hard_ceilings =
    100_000 ∷ 4_000_000_000 ∷ 2_000_000 ∷ 3_000_000 ∷ 40_000_000_000 ∷ 100_000 ∷ 20_000_000
    ∷ 50_000_000 ∷ 50_000_000 ∷ 64 ∷ 128 ∷ 1_000_000 ∷ 50_000_000 ∷ 100_000_000 ∷ 100_000
    ∷ 1_000_000 ∷ 100_000 ∷ []

within_ceilings : List (Option ℕ) → List ℕ → Bool
within_ceilings (some v ∷ vs) (c ∷ cs) = ltb 0 v && leb v c && within_ceilings vs cs
within_ceilings (none ∷ vs) (c ∷ cs) = within_ceilings vs cs
within_ceilings _ _ = true

-- `ReferenceIOLimits.__post_init__`: no ValueError is raised.
unfoldable pub limits_accepted : ReferenceIoLimits → Bool
unfolding within_ceilings utf8_size
limits_accepted l =
    not (l.profile == [])
    && leb (length l.profile) 128
    && leb (utf8_size l.profile) 128
    && within_ceilings (numbers l) hard_ceilings

-- `==` of the dataclass
unfoldable pub same_limits : ReferenceIoLimits → ReferenceIoLimits → Bool
same_limits l m = l.profile == m.profile && numbers l == numbers m

-- The members of an object, from the pairs of their keys and values.
abbrev pub members : List (Text × Json) → Fields
members [] = end
members ((k, v) ∷ ps) = field k v (members ps)

-- `to_dict`
unfoldable pub limits_json : ReferenceIoLimits → Json
limits_json l = obj (
    members (
      (codes "profile", str l.profile)
      ∷ (codes "max_files", optional_num l.max_files)
      ∷ (codes "max_file_bytes", optional_num l.max_file_bytes)
      ∷ (codes "max_response_bytes", optional_num l.max_response_bytes)
      ∷ (codes "max_cache_bytes", optional_num l.max_cache_bytes)
      ∷ (codes "max_total_bytes", optional_num l.max_total_bytes)
      ∷ (codes "max_rows", optional_num l.max_rows)
      ∷ (codes "max_json_bytes", optional_num l.max_json_bytes)
      ∷ (codes "max_csv_bytes", optional_num l.max_csv_bytes)
      ∷ (codes "max_bibliography_bytes", optional_num l.max_bibliography_bytes)
      ∷ (codes "max_json_depth", optional_num l.max_json_depth)
      ∷ (codes "max_nesting_depth", optional_num l.max_nesting_depth)
      ∷ (codes "max_text_bytes", optional_num l.max_text_bytes)
      ∷ (codes "max_text_file_bytes", optional_num l.max_text_file_bytes)
      ∷ (codes "max_text_total_bytes", optional_num l.max_text_total_bytes)
      ∷ (codes "max_candidates", optional_num l.max_candidates)
      ∷ (codes "max_match_evaluations", optional_num l.max_match_evaluations)
      ∷ (codes "max_entries", optional_num l.max_entries)
      ∷ []))

-- `evidence_id`
unfoldable pub evidence_id : Platform → ReferenceIoLimits → Text
unfolding stable_id limits_json
evidence_id p l = stable_id p (codes "reference-io-limits") (limits_json l)

abbrev pub review_io_limits : ReferenceIoLimits
review_io_limits = record {
  profile = codes "review-replay-v1";
  max_files = none;
  max_file_bytes = none;
  max_response_bytes = none;
  max_cache_bytes = none;
  max_total_bytes = none;
  max_rows = none;
  max_json_bytes = some 20000000;
  max_csv_bytes = none;
  max_bibliography_bytes = none;
  max_json_depth = some 64;
  max_nesting_depth = none;
  max_text_bytes = some 4096;
  max_text_file_bytes = none;
  max_text_total_bytes = none;
  max_candidates = none;
  max_match_evaluations = none;
  max_entries = some 256;
}

abbrev pub bibliography_io_limits : ReferenceIoLimits
bibliography_io_limits = record {
  profile = codes "bibliography-v1";
  max_files = some 1;
  max_file_bytes = some 50000000;
  max_response_bytes = none;
  max_cache_bytes = none;
  max_total_bytes = some 50000000;
  max_rows = some 10000;
  max_json_bytes = none;
  max_csv_bytes = none;
  max_bibliography_bytes = some 50000000;
  max_json_depth = none;
  max_nesting_depth = some 128;
  max_text_bytes = some 1000000;
  max_text_file_bytes = some 50000000;
  max_text_total_bytes = some 50000000;
  max_candidates = some 10000;
  max_match_evaluations = none;
  max_entries = some 10000;
}

profiles_accepted :
    (limits_accepted review_io_limits ≡ true) × (limits_accepted bibliography_io_limits ≡ true)
unfolding limits_accepted
profiles_accepted = (refl, refl)
