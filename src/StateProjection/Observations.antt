-- ===== src/StateProjection/Observations.antt =====
-- AssetHeuristicObservation of assets.py (src/python/projectkoios/references), which the value contract
-- of `asset_heuristic_observations` reads. Its ValueErrors are one here: the caller tells none apart.
use projectkoios_references.Prelude.{
  Bool, List, Option, [], all, any, if◌then◌else◌, leb, length, list_eq, list_ord, ltb, nat_eq,
  nat_ord, none, not, option_eq, pair_eq, pair_ord, set_of, some, sort, ℕ, ◌&&◌, ◌==◌, ◌||◌, ◌∷◌,
}
use projectkoios_references.Text.{Text, codes}
use projectkoios_references.Text.Size.{bounded_utf8_size}
use projectkoios_references.Json.{Json, Items, num, str, arr, obj, nil, cons}
use projectkoios_references.Review.Fields.{at, contains, field_names, items_strings, pick}

pub data AssetHeuristicKind : Type 0 where
  exact_proposed_citekey_filename proposed_citekey_in_filename : AssetHeuristicKind
  title_token_overlap year_token_in_filename : AssetHeuristicKind

abbrev pub heuristic_value : AssetHeuristicKind → Text
heuristic_value exact_proposed_citekey_filename = codes "exact-proposed-citekey-filename"
heuristic_value proposed_citekey_in_filename = codes "proposed-citekey-in-filename"
heuristic_value title_token_overlap = codes "title-token-overlap"
heuristic_value year_token_in_filename = codes "year-token-in-filename"

abbrev heuristic_kinds : List AssetHeuristicKind
heuristic_kinds =
    exact_proposed_citekey_filename ∷ proposed_citekey_in_filename ∷ title_token_overlap
    ∷ year_token_in_filename ∷ []

pub record AssetHeuristicObservation : Type 0 where
  pub kind : AssetHeuristicKind
  pub matched_tokens : List Text
  pub compared_token_count : ℕ

token_invalid : Text → Bool
unfolding bounded_utf8_size
token_invalid item = item == [] || ltb 4096 (bounded_utf8_size 4096 item)

-- `__post_init__` raises nothing.
unfoldable pub observation_accepted : AssetHeuristicObservation → Bool
unfolding set_of sort token_invalid
observation_accepted o =
    leb (length o.matched_tokens) 512
    && sort (set_of o.matched_tokens) == o.matched_tokens
    && not (any token_invalid o.matched_tokens)
    && ltb 0 o.compared_token_count
    && leb o.compared_token_count 4096
    && leb (length o.matched_tokens) o.compared_token_count

abbrev observation_keys : List Text
observation_keys = codes "kind" ∷ codes "matched_tokens" ∷ codes "compared_token_count" ∷ []

make_observation : Json → List Text → ℕ → Option AssetHeuristicObservation
unfolding observation_accepted
make_observation (str s) tokens count = elim (pick heuristic_value heuristic_kinds s) [
  | none ↦ none
  | some kind ↦
      let made : AssetHeuristicObservation = record {
        kind = kind;
        matched_tokens = tokens;
        compared_token_count = count;
      } in
      if observation_accepted made then some made else none
]
make_observation _ tokens count = none

-- `from_dict`
unfoldable pub observation_from_dict : Json → Option AssetHeuristicObservation
unfolding items_strings make_observation
observation_from_dict (obj fs) =
    let same =
      all (contains observation_keys) (field_names fs)
      && all (contains (field_names fs)) observation_keys in
    if not same then none else elim (at (codes "matched_tokens") fs) [
      | arr xs ↦ elim (items_strings xs) [
        | none ↦ none
        | some tokens ↦ elim (at (codes "compared_token_count") fs) [
          | num count ↦ make_observation (at (codes "kind") fs) tokens count
          | _ ↦ none
        ]
      ]
      | _ ↦ none
    ]
observation_from_dict _ = none

prepend_observation :
    Option AssetHeuristicObservation
    → Option (List AssetHeuristicObservation)
    → Option (List AssetHeuristicObservation)
prepend_observation (some first) (some rest) = some (first ∷ rest)
prepend_observation _ _ = none

-- tuple(AssetHeuristicObservation.from_dict(item) for item in value)
unfoldable pub observations_from_items : Items → Option (List AssetHeuristicObservation)
unfolding observation_from_dict prepend_observation
observations_from_items nil = some []
observations_from_items (cons x xs) =
    prepend_observation (observation_from_dict x) (observations_from_items xs)

-- The key that the observations are sorted by, which holds each of their fields.
abbrev pub observation_key : AssetHeuristicObservation → Text × (List Text × ℕ)
observation_key o = (heuristic_value o.kind, (o.matched_tokens, o.compared_token_count))
