-- ===== src/StateProjection/Values.antt =====
-- The helpers of state_projection.py that check texts, identities, locators and state values.
use projectkoios_references.Prelude.{
  Bool, List, Option, Result, [], all, any, err, false, if◌then◌else◌, length, list_eq, list_ord,
  ltb, nat_eq, nat_ord, none, not, ok, option_eq, pair_eq, pair_ord, raise_if, set_of, some, sort,
  ℕ, ◌&&◌, ◌==◌, ◌>>◌, ◌||◌, ◌∷◌, ◌≡◌,
}
use projectkoios_references.Text.{Text, codes, utf8_size, split, starts_with, is_digit}
use projectkoios_references.Json.{Json, str, arr, compact_json, texts}
use projectkoios_references.Citekey.{is_letter}
use projectkoios_references.Review.Checks.{matches_content_id}
use projectkoios_references.StateProjection.{
  StateError, not_content_identity, not_bounded, unsafe_locator, value_too_long, value_not_json,
  value_not_canonical, ids_not_canonical, csv_field_limit,
}

-- Python's `json.loads` with `_raise_nonfinite` for the constants: nothing where it raises, as it does
-- on the empty text.
pub record JsonReader : Type 0 where
  pub loads : Text → Option Json
  pub loads_empty : loads [] ≡ none

abbrev pub max_text : ℕ
max_text = 4096

abbrev pub max_claims : ℕ
max_claims = 4096

abbrev pub max_value_bytes : ℕ
max_value_bytes = 100_000

abbrev pub max_csv_field_characters : ℕ
max_csv_field_characters = 1_000_000

-- `_bounded` of a text
unfoldable pub bounded_text : Text → Text → Result StateError (Unit {0})
unfolding utf8_size
bounded_text s label = raise_if (s == [] || ltb max_text (utf8_size s)) (not_bounded label)

-- `_bounded`
unfoldable pub bounded_value : Json → Text → Result StateError Text
unfolding bounded_text
bounded_value (str s) label = do bounded_text s label; ok s
bounded_value _ label = err (not_bounded label)

-- `_content_id` of a text; the pattern is that of review.py
unfoldable pub content_identity : Text → Text → Result StateError (Unit {0})
unfolding matches_content_id
content_identity s label = raise_if (not (matches_content_id s)) (not_content_identity label)

unfoldable pub each_content_identity : List Text → Text → Result StateError (Unit {0})
unfolding content_identity
each_content_identity [] label = ok tt
each_content_identity (s ∷ ss) label = do content_identity s label; each_content_identity ss label

-- `_ordered_unique_content_ids`
unfoldable pub ordered_unique_content_ids : List Text → Text → Result StateError (Unit {0})
unfolding set_of sort each_content_identity
ordered_unique_content_ids values label = do
  raise_if (not (sort (set_of values) == values)) (ids_not_canonical label)
  each_content_identity values label

-- `^[A-Za-z]:/`
abbrev is_drive : Text → Bool
is_drive (c ∷ d ∷ e ∷ s) = is_letter c && d == b':' && e == b'/'
is_drive _ = false

-- `_safe_locator`
unfoldable pub safe_locator : Text → Result StateError (Unit {0})
unfolding bounded_text starts_with split
safe_locator s = do
  bounded_text s (codes "source locator")
  raise_if
      (starts_with s (codes "/")
        || starts_with s (codes "~")
        || any (λ c. c == b'\\') s
        || is_drive s
        || any (λ part. part == codes "..") (split b'/' s))
      unsafe_locator

-- `_bounded_csv_projection_field` of a tuple of texts
unfoldable pub bounded_csv_projection_field : List Text → Text → Result StateError (Unit {0})
unfolding compact_json
bounded_csv_projection_field values label =
    raise_if (ltb max_csv_field_characters (length (compact_json (arr (texts values)))))
      (csv_field_limit label)

-- `_parse_canonical_value`
unfoldable pub parse_canonical_value : JsonReader → ℕ → Text → Result StateError Json
unfolding utf8_size compact_json
parse_canonical_value reader max_bytes text =
    if ltb max_bytes (utf8_size text) then err value_too_long else elim (reader.loads text) [
      | none ↦ err value_not_json
      | some value ↦ if compact_json value == text then ok value else err value_not_canonical
    ]

abbrev is_key_char : ℕ → Bool
is_key_char c =
    is_letter c || is_digit c || c == b'.' || c == b'_' || c == b':' || c == b'+' || c == b'-'

-- `[A-Za-z0-9][A-Za-z0-9._:+-]*`
abbrev pub is_safe_citekey : Text → Bool
is_safe_citekey [] = false
is_safe_citekey (c ∷ s) = (is_letter c || is_digit c) && all is_key_char s
