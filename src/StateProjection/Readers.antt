-- ===== src/StateProjection/Readers.antt =====
-- The readers of a JSON value that `ReferenceStateProjection.from_json` of state_projection.py is made of.
use projectkoios_references.Prelude.{
  Bool, List, Option, Result, [], all, err, if◌then◌else◌, list_eq, list_ord, ltb, nat_eq, nat_ord,
  none, ok, option_eq, pair_eq, pair_ord, some, suc, ℕ, ◌&&◌, ◌>>=◌, ◌∷◌,
}
use projectkoios_references.Text.{Text, codes}
use projectkoios_references.Json.{Json, Items, Fields, null, boolean, num, str, arr, obj, nil, cons}
use projectkoios_references.Review.Fields.{contains, field_names, pick}
use projectkoios_references.StateProjection.{
  StateError, StateKnowledge, StateRecordKind, StateResolution, StateDimension, observed, unknown,
  not_observed, not_applicable, immutable_observation, immutable_proposal, human_decision,
  nothing_observed, single, agreement, discrepancy, record_kind_value, candidate_identity,
  canonical_identity_decision, canonical_asset_decision, bibliographic_metadata,
  collection_observation, reading_decision, claim_support_decision, collection_decision,
  asset_discovery, acquisition, access, rights, rights_decision, scientific_support, ingestion,
  technical_review, citation, manuscript_use, publication, contract_acceptance, objects_invalid,
  not_array, not_integer, not_boolean, not_text, not_supported,
}
use projectkoios_references.StateProjection.Values.{max_claims, bounded_value}

-- isinstance(value, dict) and set(value) == names
unfoldable pub object_with : Json → List Text → Result StateError Fields
object_with (obj fs) names =
    if all (contains names) (field_names fs) && all (contains (field_names fs)) names
    then ok fs
    else err objects_invalid
object_with _ names = err objects_invalid

-- `_optional_string`
unfoldable pub read_optional : Json → Text → Result StateError (Option Text)
unfolding bounded_value
read_optional null label = ok none
read_optional v label = bounded_value v label >>= λ s. ok (some s)

unfoldable pub each_string : Items → Text → Result StateError (List Text)
unfolding bounded_value
each_string nil label = ok []
each_string (cons x xs) label = do
  first ← bounded_value x label
  rest ← each_string xs label
  ok (first ∷ rest)

abbrev item_count : Items → ℕ
item_count nil = 0
item_count (cons x xs) = suc (item_count xs)

-- A list of at most _MAX_CLAIMS items.
unfoldable pub bounded_items : Json → Text → Result StateError Items
bounded_items (arr xs) label =
    if ltb max_claims (item_count xs) then err (not_array label) else ok xs
bounded_items _ label = err (not_array label)

-- `_strings`
unfoldable pub read_strings : Json → Text → Result StateError (List Text)
unfolding bounded_items each_string
read_strings v label = do xs ← bounded_items v label; each_string xs label

-- `_integer`. The model's record holds no negative number: a negative one is refused here and not by the
-- record's checks.
unfoldable pub read_integer : Json → Text → Result StateError ℕ
read_integer (num n) label = ok n
read_integer _ label = err (not_integer label)

-- `_boolean`
unfoldable pub read_boolean : Json → Text → Result StateError Bool
read_boolean (boolean b) label = ok b
read_boolean _ label = err (not_boolean label)

-- The member of an enumeration that a text names.
unfoldable pub member_named : {A : Type 0} → (A → Text) → List A → Text → Text → Result StateError A
member_named value members s label = elim (pick value members s) [
  | none ↦ err (not_supported label)
  | some a ↦ ok a
]

-- `_enum`
unfoldable pub read_enum : {A : Type 0} → (A → Text) → List A → Json → Text → Result StateError A
unfolding member_named
read_enum value members (str s) label = member_named value members s label
read_enum value members _ label = err (not_text label)

abbrev pub kinds : List StateRecordKind
kinds = immutable_observation ∷ immutable_proposal ∷ human_decision ∷ []

abbrev pub knowledges : List StateKnowledge
knowledges = observed ∷ unknown ∷ not_observed ∷ not_applicable ∷ []

abbrev pub resolutions : List StateResolution
resolutions = nothing_observed ∷ single ∷ agreement ∷ discrepancy ∷ []

abbrev pub dimensions : List StateDimension
dimensions =
    candidate_identity ∷ canonical_identity_decision ∷ canonical_asset_decision
    ∷ bibliographic_metadata ∷ collection_observation ∷ reading_decision ∷ claim_support_decision
    ∷ collection_decision ∷ asset_discovery ∷ acquisition ∷ access ∷ rights ∷ rights_decision
    ∷ scientific_support ∷ ingestion ∷ technical_review ∷ citation ∷ manuscript_use ∷ publication
    ∷ contract_acceptance ∷ []

unfoldable pub read_kinds : List Text → Result StateError (List StateRecordKind)
unfolding member_named
read_kinds [] = ok []
read_kinds (s ∷ ss) = do
  first ← member_named record_kind_value kinds s (codes "record_kind")
  rest ← read_kinds ss
  ok (first ∷ rest)
