-- ===== src/StateProjection/Reading.antt =====
-- `ReferenceStateProjection.from_json` of state_projection.py. `json.loads` takes no `parse_constant` there: a constant
-- such as NaN, which `json.dumps` refuses in the next step, is an error here too. A negative schema version, which
-- the projection's checks refuse, is refused where it is read.
use projectkoios_references.Prelude.{
  List, Option, Result, [], err, list_eq, list_ord, ltb, nat_eq, nat_ord, none, not, ok, option_eq,
  pair_eq, pair_ord, raise_if, some, ℕ, ◌==◌, ◌>>=◌, ◌>>◌, ◌∷◌,
}
use projectkoios_references.Text.{Text, codes, Platform, utf8_size}
use projectkoios_references.Json.{Json, Items, Fields, arr, nil, cons}
use projectkoios_references.Review.Fields.{at}
use projectkoios_references.StateProjection.{
  StateError, ProjectedValue, ProjectedField, ReferenceStateProjection, knowledge_value,
  resolution_value, state_dimension_value, json_limit, json_invalid, json_not_canonical,
  replay_differs, not_array,
}
use projectkoios_references.StateProjection.Values.{JsonReader, bounded_value}
use projectkoios_references.StateProjection.Fields.{check_projected_value, check_projected_field}
use projectkoios_references.StateProjection.Projections.{
  max_projection_bytes, check_state_projection, pretty_json, projection_to_json,
}
use projectkoios_references.StateProjection.Readers.{
  object_with, read_optional, bounded_items, read_strings, read_integer, read_boolean, read_enum,
  read_kinds, knowledges, resolutions, dimensions,
}

abbrev pub value_names : List Text
value_names =
    codes "authoritative_input_ids"
    ∷ codes "knowledge"
    ∷ codes "record_kinds"
    ∷ codes "source_locators"
    ∷ codes "value_json"
    ∷ []

-- One projected value, with its checks.
unfoldable pub read_value : JsonReader → Json → Result StateError ProjectedValue
unfolding object_with read_enum read_optional read_strings read_kinds check_projected_value
read_value reader v = do
  fs ← object_with v value_names
  knowledge ← read_enum knowledge_value knowledges (at (codes "knowledge") fs) (codes "knowledge")
  value_json ← read_optional (at (codes "value_json") fs) (codes "value_json")
  ids ← read_strings (at (codes "authoritative_input_ids") fs) (codes "authoritative_input_ids")
  names ← read_strings (at (codes "record_kinds") fs) (codes "record_kinds")
  record_kinds ← read_kinds names
  locators ← read_strings (at (codes "source_locators") fs) (codes "source_locators")
  let made : ProjectedValue = record {
    knowledge = knowledge;
    value_json = value_json;
    authoritative_input_ids = ids;
    record_kinds = record_kinds;
    source_locators = locators;
  }
  check_projected_value reader made
  ok made

unfoldable pub read_values : JsonReader → Items → Result StateError (List ProjectedValue)
unfolding read_value
read_values reader nil = ok []
read_values reader (cons x xs) = do
  first ← read_value reader x
  rest ← read_values reader xs
  ok (first ∷ rest)

abbrev pub projected_names : List Text
projected_names =
    codes "authority_owner"
    ∷ codes "dimension"
    ∷ codes "field"
    ∷ codes "resolution"
    ∷ codes "values"
    ∷ []

-- One projected field, with its checks.
unfoldable pub read_field : JsonReader → Json → Result StateError ProjectedField
unfolding object_with bounded_items read_values read_enum bounded_value check_projected_field
read_field reader v = do
  fs ← object_with v projected_names
  raw ← bounded_items (at (codes "values") fs) (codes "values")
  values ← read_values reader raw
  name ← bounded_value (at (codes "field") fs) (codes "field")
  dimension ←
      read_enum state_dimension_value dimensions (at (codes "dimension") fs) (codes "dimension")
  owner ← bounded_value (at (codes "authority_owner") fs) (codes "authority_owner")
  resolution ←
      read_enum resolution_value resolutions (at (codes "resolution") fs) (codes "resolution")
  let made : ProjectedField = record {
    field = name;
    dimension = dimension;
    authority_owner = owner;
    resolution = resolution;
    values = values;
  }
  check_projected_field reader made
  ok made

unfoldable pub read_fields : JsonReader → Items → Result StateError (List ProjectedField)
unfolding read_field
read_fields reader nil = ok []
read_fields reader (cons x xs) = do
  first ← read_field reader x
  rest ← read_fields reader xs
  ok (first ∷ rest)

abbrev pub state_names : List Text
state_names =
    codes "artifact_kind"
    ∷ codes "authoritative_input_ids"
    ∷ codes "configuration_id"
    ∷ codes "exact_replay"
    ∷ codes "exclusions"
    ∷ codes "fields"
    ∷ codes "generator_name"
    ∷ codes "generator_version"
    ∷ codes "projection_id"
    ∷ codes "schema_version"
    ∷ codes "subject_id"
    ∷ []

unfoldable pub all_items : Json → Result StateError Items
all_items (arr xs) = ok xs
all_items _ = err (not_array (codes "fields"))

unfoldable pub loaded : Option Json → Result StateError Json
loaded none = err json_invalid
loaded (some v) = ok v

-- The members from the configuration on, given those before them.
unfoldable pub read_members :
    Fields
    → List ProjectedField
    → ℕ
    → Text
    → Text
    → Text
    → Result StateError ReferenceStateProjection
unfolding read_strings read_boolean bounded_value
read_members fs fields schema kind generator version = do
  configuration ← bounded_value (at (codes "configuration_id") fs) (codes "configuration_id")
  subject ← bounded_value (at (codes "subject_id") fs) (codes "subject_id")
  inputs ← read_strings (at (codes "authoritative_input_ids") fs) (codes "authoritative_input_ids")
  exclusions ← read_strings (at (codes "exclusions") fs) (codes "exclusions")
  exact ← read_boolean (at (codes "exact_replay") fs) (codes "exact_replay")
  id ← bounded_value (at (codes "projection_id") fs) (codes "projection_id")
  ok (record {
    schema_version = schema;
    artifact_kind = kind;
    generator_name = generator;
    generator_version = version;
    configuration_id = configuration;
    subject_id = subject;
    authoritative_input_ids = inputs;
    fields = fields;
    exclusions = exclusions;
    exact_replay = exact;
    projection_id = id;
  })

-- The members other than the fields, in the order in which they are read.
unfoldable pub read_parts :
    Fields → List ProjectedField → Result StateError ReferenceStateProjection
unfolding read_integer bounded_value read_members
read_parts fs fields = do
  schema ← read_integer (at (codes "schema_version") fs) (codes "schema_version")
  kind ← bounded_value (at (codes "artifact_kind") fs) (codes "artifact_kind")
  generator ← bounded_value (at (codes "generator_name") fs) (codes "generator_name")
  version ← bounded_value (at (codes "generator_version") fs) (codes "generator_version")
  read_members fs fields schema kind generator version

-- The members of the object, in the order in which the constructor's arguments are read.
unfoldable pub read_projection : JsonReader → Json → Result StateError ReferenceStateProjection
unfolding object_with all_items read_fields read_parts
read_projection reader v = do
  fs ← object_with v state_names
  raw ← all_items (at (codes "fields") fs)
  fields ← read_fields reader raw
  read_parts fs fields

-- `from_json`
unfoldable pub projection_from_json :
    JsonReader → Platform → Text → Result StateError ReferenceStateProjection
unfolding utf8_size loaded pretty_json read_projection check_state_projection projection_to_json
projection_from_json reader p text = do
  raise_if (ltb max_projection_bytes (utf8_size text)) json_limit
  value ← loaded (reader.loads text)
  raise_if (not (pretty_json value == text)) json_not_canonical
  made ← read_projection reader value
  check_state_projection p made
  raise_if (not (projection_to_json made == text)) replay_differs
  ok made
