-- ===== src/StateProjection/Fields.antt =====
-- `ProjectedValue`, `ProjectedField` and `ReferenceStateProjection` of state_projection.py: the checks of
-- their `__post_init__`, the identity and the JSON of a projection, and the lookup of a field.
use projectkoios_references.Prelude.{
  List, Option, Result, [], any, err, get, if◌then◌else◌, length, list_eq, list_ord, ltb, map,
  nat_eq, nat_ord, none, not, ok, option_eq, pair_eq, pair_ord, raise_if, set_of, some, sort, ◌==◌,
  ◌>>=◌, ◌>>◌, ◌||◌, ◌∷◌,
}
use projectkoios_references.Text.{Text, codes}
use projectkoios_references.Json.{
  Json, Items, null, boolean, num, str, arr, obj, nil, cons, texts, optional,
}
use projectkoios_references.Limits.{members}
use projectkoios_references.StateProjection.{
  kind_eq, kind_ord, knowledge_eq, StateError, StateKnowledge, StateRecordKind, StateFieldRule,
  StateResolution, ProjectedValue, ProjectedField, ReferenceStateProjection, observed,
  nothing_observed, single, agreement, discrepancy, record_kind_value, knowledge_value,
  resolution_value, state_dimension_value, unsupported_field, no_authority_input, kinds_empty,
  kinds_not_canonical, locators_not_canonical, projected_value_empty, projected_value_unexpected,
  wrong_dimension, projected_owner, projected_kind, projected_not_canonical,
  resolution_inconsistent,
}
use projectkoios_references.StateProjection.Rules.{state_field_rules}
use projectkoios_references.StateProjection.Values.{
  JsonReader, max_value_bytes, ordered_unique_content_ids, safe_locator,
  bounded_csv_projection_field, parse_canonical_value,
}
use projectkoios_references.StateProjection.Contracts.{validate_state_value}
use projectkoios_references.StateProjection.Claims.{accepts}

-- for locator in self.source_locators: _safe_locator(locator)
unfoldable pub each_safe_locator : List Text → Result StateError (Unit {0})
unfolding safe_locator
each_safe_locator [] = ok tt
each_safe_locator (s ∷ ss) = do safe_locator s; each_safe_locator ss

-- A projected value that is present where it must be and absent elsewhere.
unfoldable pub check_presence :
    JsonReader → StateKnowledge → Option Text → Result StateError (Unit {0})
unfolding parse_canonical_value
check_presence reader observed none = err projected_value_empty
check_presence reader observed (some text) = do
  value ← parse_canonical_value reader max_value_bytes text
  ok tt
check_presence reader k none = ok tt
check_presence reader k (some text) = err projected_value_unexpected

-- `ProjectedValue.__post_init__`
unfoldable pub check_projected_value : JsonReader → ProjectedValue → Result StateError (Unit {0})
unfolding ordered_unique_content_ids set_of sort each_safe_locator bounded_csv_projection_field
    check_presence
check_projected_value reader v = do
  ordered_unique_content_ids v.authoritative_input_ids (codes "projected authoritative inputs")
  raise_if (v.authoritative_input_ids == []) no_authority_input
  raise_if (v.record_kinds == []) kinds_empty
  raise_if (not (sort (set_of v.record_kinds) == v.record_kinds)) kinds_not_canonical
  raise_if (not (sort (set_of v.source_locators) == v.source_locators)) locators_not_canonical
  each_safe_locator v.source_locators
  bounded_csv_projection_field v.authoritative_input_ids (codes "projected authoritative inputs")
  bounded_csv_projection_field (map record_kind_value v.record_kinds)
      (codes "projected record kinds")
  bounded_csv_projection_field v.source_locators (codes "projected source locators")
  check_presence reader v.knowledge v.value_json

-- `_resolution`
unfoldable pub resolution_of : List ProjectedValue → StateResolution
resolution_of [] = nothing_observed
resolution_of (v ∷ w ∷ rest) = discrepancy
resolution_of (v ∷ []) = if ltb 1 (length v.authoritative_input_ids) then agreement else single

abbrev pub text_or_empty : Option Text → Text
text_or_empty none = []
text_or_empty (some s) = s

-- (item.knowledge.value, item.value_json or "")
abbrev pub value_identity : ProjectedValue → Text × Text
value_identity v = (knowledge_value v.knowledge, text_or_empty v.value_json)

-- `_validate_state_value(self.field, value.value())` of an observed value
unfoldable pub check_value_json :
    JsonReader → Text → StateKnowledge → Option Text → Result StateError (Unit {0})
unfolding parse_canonical_value validate_state_value
check_value_json reader name observed none = validate_state_value name null
check_value_json reader name observed (some text) = do
  value ← parse_canonical_value reader max_value_bytes text
  validate_state_value name value
check_value_json reader name k v = ok tt

-- What one value of a field must satisfy.
unfoldable pub check_value_of_field :
    JsonReader → Text → StateFieldRule → ProjectedValue → Result StateError (Unit {0})
unfolding check_value_json
check_value_of_field reader name rule v = do
  raise_if (any (λ k. not (accepts rule.allowed_record_kinds k)) v.record_kinds)
      (projected_kind name)
  check_value_json reader name v.knowledge v.value_json

unfoldable pub check_values_of_field :
    JsonReader → Text → StateFieldRule → List ProjectedValue → Result StateError (Unit {0})
unfolding check_value_of_field
check_values_of_field reader name rule [] = ok tt
check_values_of_field reader name rule (v ∷ vs) = do
  check_value_of_field reader name rule v
  check_values_of_field reader name rule vs

unfoldable pub check_field_rule :
    JsonReader → StateFieldRule → ProjectedField → Result StateError (Unit {0})
unfolding check_values_of_field sort set_of resolution_of
check_field_rule reader rule f = do
  raise_if (not (state_dimension_value f.dimension == state_dimension_value rule.dimension))
      (wrong_dimension f.field)
  raise_if (not (f.authority_owner == rule.authority_owner)) (projected_owner f.field)
  check_values_of_field reader f.field rule f.values
  let identities = map value_identity f.values
  raise_if
      (not (identities == sort identities) || not (length identities == length (set_of identities)))
      projected_not_canonical
  raise_if (not (resolution_value f.resolution == resolution_value (resolution_of f.values)))
      (resolution_inconsistent f.field)

-- `ProjectedField.__post_init__`
unfoldable pub check_projected_field : JsonReader → ProjectedField → Result StateError (Unit {0})
unfolding get state_field_rules check_field_rule
check_projected_field reader f = elim (get f.field state_field_rules) [
  | none ↦ err (unsupported_field f.field)
  | some rule ↦ check_field_rule reader rule f
]

abbrev pub kind_texts : List StateRecordKind → List Text
kind_texts kinds = map record_kind_value kinds

-- `asdict` of the records, as `_json_default` writes them.
unfoldable pub values_json : List ProjectedValue → Items
values_json [] = nil
values_json (v ∷ vs) =
    cons
      (obj (
        members (
          (codes "knowledge", str (knowledge_value v.knowledge))
          ∷ (codes "value_json", optional v.value_json)
          ∷ (codes "authoritative_input_ids", arr (texts v.authoritative_input_ids))
          ∷ (codes "record_kinds", arr (texts (kind_texts v.record_kinds)))
          ∷ (codes "source_locators", arr (texts v.source_locators))
          ∷ [])))
      (values_json vs)

unfoldable pub fields_json : List ProjectedField → Items
unfolding values_json
fields_json [] = nil
fields_json (f ∷ fs) =
    cons
      (obj (
        members (
          (codes "field", str f.field)
          ∷ (codes "dimension", str (state_dimension_value f.dimension))
          ∷ (codes "authority_owner", str f.authority_owner)
          ∷ (codes "resolution", str (resolution_value f.resolution))
          ∷ (codes "values", arr (values_json f.values))
          ∷ [])))
      (fields_json fs)

-- `_identity_payload`
unfoldable pub identity_members : ReferenceStateProjection → List (Text × Json)
unfolding fields_json
identity_members p =
    (codes "artifact_kind", str p.artifact_kind)
    ∷ (codes "authoritative_input_ids", arr (texts p.authoritative_input_ids))
    ∷ (codes "exact_replay", boolean p.exact_replay)
    ∷ (codes "exclusions", arr (texts p.exclusions))
    ∷ (codes "fields", arr (fields_json p.fields))
    ∷ (codes "configuration_id", str p.configuration_id)
    ∷ (codes "generator_name", str p.generator_name)
    ∷ (codes "generator_version", str p.generator_version)
    ∷ (codes "schema_version", num p.schema_version)
    ∷ (codes "subject_id", str p.subject_id)
    ∷ []
