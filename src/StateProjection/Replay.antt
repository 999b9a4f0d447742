-- ===== src/StateProjection/Replay.antt =====
-- ReferenceStateReplayer.replay of state_projection_replay.py, with the identity of the projection and the
-- result. Claims are values that `StateClaim.__post_init__` has accepted.
use projectkoios_references.Prelude.{
  List, Result, [], any, keys, list_eq, list_ord, ltb, map, nat_eq, nat_ord, not, ok, option_eq,
  pair_eq, pair_ord, raise_if, set_of, sort, true, ◌==◌, ◌>>=◌, ◌>>◌, ◌∷◌,
}
use projectkoios_references.Text.{Text, codes, Platform, utf8_size}
use projectkoios_references.Json.{
  Items, boolean, num, str, arr, obj, nil, cons, texts, optional, stable_id,
}
use projectkoios_references.Limits.{members}
use projectkoios_references.StateProjection.{
  kind_eq, kind_ord, knowledge_eq, StateError, ProjectedValue, ProjectedField,
  ReferenceStateProjection, knowledge_value, resolution_value, state_dimension_value, no_inputs,
  claim_subject_differs, undeclared_inputs, projection_bytes_limit, result_subject_differs,
  result_inputs_differ,
}
use projectkoios_references.StateProjection.Rules.{state_field_rules}
use projectkoios_references.StateProjection.Values.{JsonReader, ordered_unique_content_ids}
use projectkoios_references.StateProjection.Fields.{kind_texts}
use projectkoios_references.StateProjection.Projections.{
  max_projection_bytes, projection_schema, projection_kind, projection_generator,
  projection_generator_version, state_configuration_id, sorted_field_names, is_subset,
  check_state_projection, projection_to_json,
}
use projectkoios_references.StateProjection.Requests.{ReferenceStateReplayRequest}
use projectkoios_references.StateProjection.Reduce.{group_by_field, project_fields, empty_groups}

abbrev pub replay_values_json : List ProjectedValue → Items
replay_values_json [] = nil
replay_values_json (v ∷ vs) =
    cons
      (obj (
        members (
          (codes "authoritative_input_ids", arr (texts v.authoritative_input_ids))
          ∷ (codes "knowledge", str (knowledge_value v.knowledge))
          ∷ (codes "record_kinds", arr (texts (kind_texts v.record_kinds)))
          ∷ (codes "source_locators", arr (texts v.source_locators))
          ∷ (codes "value_json", optional v.value_json)
          ∷ [])))
      (replay_values_json vs)

abbrev pub replay_fields_json : List ProjectedField → Items
replay_fields_json [] = nil
replay_fields_json (f ∷ fs) =
    cons
      (obj (
        members (
          (codes "authority_owner", str f.authority_owner)
          ∷ (codes "dimension", str (state_dimension_value f.dimension))
          ∷ (codes "field", str f.field)
          ∷ (codes "resolution", str (resolution_value f.resolution))
          ∷ (codes "values", arr (replay_values_json f.values))
          ∷ [])))
      (replay_fields_json fs)

-- `_projection_identity`
unfoldable pub state_projection_identity :
    Platform → Text → List Text → List ProjectedField → List Text → Text
unfolding stable_id state_configuration_id
state_projection_identity p subject inputs fields exclusions =
    stable_id p (codes "reference-state-projection") (
      obj (
        members (
          (codes "artifact_kind", str projection_kind)
          ∷ (codes "authoritative_input_ids", arr (texts inputs))
          ∷ (codes "configuration_id", str (state_configuration_id p))
          ∷ (codes "exact_replay", boolean true)
          ∷ (codes "exclusions", arr (texts exclusions))
          ∷ (codes "fields", arr (replay_fields_json fields))
          ∷ (codes "generator_name", str projection_generator)
          ∷ (codes "generator_version", str projection_generator_version)
          ∷ (codes "schema_version", num projection_schema)
          ∷ (codes "subject_id", str subject)
          ∷ [])))

abbrev pub projection_of :
    Platform → Text → List Text → List ProjectedField → List Text → ReferenceStateProjection
projection_of p subject inputs fields exclusions = record {
  schema_version = projection_schema;
  artifact_kind = projection_kind;
  generator_name = projection_generator;
  generator_version = projection_generator_version;
  configuration_id = state_configuration_id p;
  subject_id = subject;
  authoritative_input_ids = inputs;
  fields = fields;
  exclusions = exclusions;
  exact_replay = true;
  projection_id = state_projection_identity p subject inputs fields exclusions;
}

pub record ReferenceStateReplayResult : Type 0 where
  pub request : ReferenceStateReplayRequest
  pub projection : ReferenceStateProjection
  pub result_id : Text

-- `ReferenceStateReplayResult.__post_init__`
unfoldable pub make_result :
    Platform
    → ReferenceStateReplayRequest
    → ReferenceStateProjection
    → Result StateError ReferenceStateReplayResult
unfolding sort set_of stable_id
make_result p request projection = do
  raise_if (not (projection.subject_id == request.subject_id)) result_subject_differs
  raise_if
      (not (projection.authoritative_input_ids == sort (set_of request.authoritative_input_ids)))
      result_inputs_differ
  ok (record {
    request = request;
    projection = projection;
    result_id = stable_id p (codes "reference-state-replay-result") (
        obj (
          members (
            (codes "projection_id", str projection.projection_id)
            ∷ (codes "request_id", str request.request_id)
            ∷ [])));
  })

-- `replay`
unfoldable pub replay :
    JsonReader
    → Platform
    → ReferenceStateReplayRequest
    → Result StateError ReferenceStateReplayResult
unfolding sort set_of ordered_unique_content_ids group_by_field project_fields sorted_field_names
    state_field_rules state_projection_identity check_state_projection projection_to_json utf8_size
    make_result
replay reader p request = do
  raise_if (any (λ c. not (c.subject_id == request.subject_id)) request.claims)
      claim_subject_differs
  let inputs = sort (set_of request.authoritative_input_ids)
  ordered_unique_content_ids inputs (codes "authoritative_input_ids")
  raise_if (inputs == []) no_inputs
  raise_if (not (is_subset (map (λ c. c.authoritative_input_id) request.claims) inputs))
      undeclared_inputs
  grouped ← group_by_field request.claims (empty_groups (keys state_field_rules))
  fields ← project_fields reader grouped sorted_field_names
  let exclusions = sort (set_of request.exclusions)
  let projection = projection_of p request.subject_id inputs fields exclusions
  check_state_projection p projection
  raise_if (ltb max_projection_bytes (utf8_size (projection_to_json projection)))
      projection_bytes_limit
  make_result p request projection
