-- ===== src/StateProjection/Contracts.antt =====
-- The value contracts of the fields in state_projection.py: `_validate_state_value`.
use projectkoios_references.Prelude.{
  Bool, List, Result, [], all, drop, err, false, get, if◌then◌else◌, length, list_eq, list_ord, ltb,
  map, nat_eq, nat_ord, none, not, ok, option_eq, pair_eq, pair_ord, raise_if, set_of, some, sort,
  sort_by, suc, true, ℕ, ◌&&◌, ◌==◌, ◌>>=◌, ◌>>◌, ◌||◌, ◌∷◌,
}
use projectkoios_references.Text.{Text, codes, starts_with, is_hex}
use projectkoios_references.Json.{Json, Items, Fields, num, str, arr, obj, nil, cons, end, field}
use projectkoios_references.Review.Fields.{at, contains, field_names, items_strings}
use projectkoios_references.StateProjection.{
  StateError, not_content_identity, value_unsupported, no_value_contract,
}
use projectkoios_references.StateProjection.Rules.{
  exact_field_values, string_fields, string_array_fields, identity_fields,
}
use projectkoios_references.StateProjection.Observations.{observations_from_items, observation_key}
use projectkoios_references.StateProjection.Values.{
  max_claims, bounded_text, bounded_value, content_identity, safe_locator, is_safe_citekey,
}

abbrev observation_prefix : Text
observation_prefix = codes "asset-heuristic-observation:sha256:"

-- `asset-heuristic-observation:sha256:[0-9a-f]{64}`
abbrev is_observation_id : Text → Bool
is_observation_id s =
    starts_with s observation_prefix && length (drop 35 s) == 64 && all is_hex (drop 35 s)

abbrev asset_observation_fields : List Text
asset_observation_fields =
    codes "asset_competing_observation_ids" ∷ codes "asset_alternate_version_observation_ids" ∷ []

validate_exact : Text → List Text → Json → Result StateError (Unit {0})
validate_exact name allowed (str s) = raise_if (not (contains allowed s)) (value_unsupported name)
validate_exact name allowed _ = err (value_unsupported name)

validate_string : Text → Json → Result StateError (Unit {0})
unfolding bounded_value safe_locator
validate_string name value = do
  text ← bounded_value value name
  raise_if
      (contains (codes "proposed_citekey" ∷ codes "active_citekey" ∷ []) name
        && not (is_safe_citekey text))
      (value_unsupported name)
  if contains (codes "asset_root_alias" ∷ codes "asset_relative_path" ∷ []) name
      then safe_locator text
      else ok tt

validate_items : Text → List Text → Result StateError (Unit {0})
unfolding bounded_text starts_with
validate_items name [] = ok tt
validate_items name (item ∷ rest) = do
  bounded_text item name
  raise_if (name == codes "alias_citekeys" && not (is_safe_citekey item)) (value_unsupported name)
  raise_if (contains asset_observation_fields name && not (is_observation_id item))
      (value_unsupported name)
  validate_items name rest

validate_strings : Text → Json → Result StateError (Unit {0})
unfolding items_strings set_of sort validate_items
validate_strings name (arr xs) = elim (items_strings xs) [
  | none ↦ err (value_unsupported name)
  | some values ↦ do
    raise_if (ltb max_claims (length values)) (value_unsupported name)
    raise_if
        (contains (codes "alias_citekeys" ∷ asset_observation_fields) name
          && not (values == sort (set_of values)))
        (value_unsupported name)
    validate_items name values
]
validate_strings name _ = err (value_unsupported name)

validate_identity : Text → Json → Result StateError (Unit {0})
unfolding content_identity
validate_identity name (str s) = content_identity s name
validate_identity name _ = err (not_content_identity name)

validate_digest : Text → Json → Result StateError (Unit {0})
validate_digest name (str s) =
    raise_if (not (length s == 64 && all is_hex s)) (value_unsupported name)
validate_digest name _ = err (value_unsupported name)

validate_size : Text → Json → Result StateError (Unit {0})
validate_size name (num n) = raise_if (not (ltb 0 n)) (value_unsupported name)
validate_size name _ = err (value_unsupported name)

abbrev count_items : Items → ℕ
count_items nil = 0
count_items (cons x xs) = suc (count_items xs)

validate_observations : Text → Json → Result StateError (Unit {0})
unfolding observations_from_items sort_by
validate_observations name (arr xs) = do
  raise_if (not (ltb 0 (count_items xs)) || ltb 32 (count_items xs)) (value_unsupported name)
  elim (observations_from_items xs) [
    | none ↦ err (value_unsupported name)
    | some parsed ↦
        raise_if
          (not (map observation_key parsed == map observation_key (sort_by observation_key parsed)))
          (value_unsupported name)
  ]
validate_observations name _ = err (value_unsupported name)

abbrev all_strings : Fields → Bool
all_strings end = true
all_strings (field k (str s) fs) = all_strings fs
all_strings (field k _ fs) = false

validate_review : Text → Json → Result StateError (Unit {0})
unfolding bounded_value
validate_review name (obj fs) = do
  let names = codes "kind" ∷ codes "outcome" ∷ []
  raise_if
      (not (all (contains names) (field_names fs) && all (contains (field_names fs)) names)
        || not (all_strings fs))
      (value_unsupported name)
  kind ← bounded_value (at (codes "kind") fs) (codes "technical review kind")
  outcome ← bounded_value (at (codes "outcome") fs) (codes "technical review outcome")
  ok tt
validate_review name _ = err (value_unsupported name)

-- The fields of `_SPECIAL_FIELDS`, one contract each.
validate_special : Text → Json → Result StateError (Unit {0})
unfolding validate_identity validate_digest validate_size validate_observations validate_review
validate_special name value =
    if contains identity_fields name
    then validate_identity name value
    else if name == codes "asset_sha256"
    then validate_digest name value
    else if name == codes "asset_byte_size"
    then validate_size name value
    else if name == codes "asset_heuristic_observations"
    then validate_observations name value
    else if name == codes "technical_review_status"
    then validate_review name value
    else err (no_value_contract name)

-- `_validate_state_value`
unfoldable pub validate_state_value : Text → Json → Result StateError (Unit {0})
unfolding get exact_field_values string_fields string_array_fields validate_exact validate_string
    validate_strings validate_special
validate_state_value name value = elim (get name exact_field_values) [
  | some allowed ↦ validate_exact name allowed value
  | none ↦
      if contains string_fields name
      then validate_string name value
      else if contains string_array_fields name
      then validate_strings name value
      else validate_special name value
]
