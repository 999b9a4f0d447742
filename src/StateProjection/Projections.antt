-- ===== src/StateProjection/Projections.antt =====
-- `ReferenceStateProjection` of state_projection.py: the checks of its `__post_init__`, its JSON text,
-- and the lookup of a field.
use projectkoios_references.Prelude.{
  Bool, List, Result, [], all, any, err, if◌then◌else◌, keys, length, list_eq, list_ord, ltb, map,
  nat_eq, nat_ord, not, ok, option_eq, pair_eq, pair_ord, raise_if, set_of, sort, suc, zero, ℕ,
  ◌++◌, ◌==◌, ◌>>◌, ◌||◌, ◌∷◌,
}
use projectkoios_references.Text.{Text, codes, Platform}
use projectkoios_references.Json.{
  Json, Items, Fields, nil, cons, end, field, arr, num, obj, str, compact_json, quote, sort_pairs,
  join, stable_id,
}
use projectkoios_references.Limits.{members}
use projectkoios_references.StateProjection.{
  StateError, ProjectedValue, ProjectedField, ReferenceStateProjection, wrong_schema,
  wrong_artifact, wrong_generator, wrong_configuration, inputs_limit, exclusions_limit, no_inputs,
  coverage_incomplete, exclusions_not_canonical, not_exact_replay, projection_undeclared,
  wrong_projection_id, no_such_field,
}
use projectkoios_references.StateProjection.Rules.{state_field_rules}
use projectkoios_references.StateProjection.Values.{
  bounded_text, content_identity, ordered_unique_content_ids, bounded_csv_projection_field,
}
use projectkoios_references.StateProjection.Fields.{identity_members}

abbrev pub max_inputs : ℕ
max_inputs = 4096

abbrev pub max_exclusions : ℕ
max_exclusions = 128

abbrev pub max_projection_bytes : ℕ
max_projection_bytes = 4_000_000

abbrev pub projection_schema : ℕ
projection_schema = 1

abbrev pub projection_kind : Text
projection_kind = codes "projectkoios.references.reference-state-projection"

abbrev pub projection_generator : Text
projection_generator = codes "projectkoios-references-state-reducer"

abbrev pub projection_generator_version : Text
projection_generator_version = codes "1"

-- _CONFIGURATION
abbrev configuration : Json
configuration = obj (
    members (
      (codes "max_claims", num 4096)
      ∷ (codes "max_inputs", num 4096)
      ∷ (codes "max_exclusions", num 128)
      ∷ (codes "max_projection_bytes", num 4000000)
      ∷ (codes "max_projection_csv_bytes", num 10000000)
      ∷ (codes "max_projection_csv_field_characters", num 1000000)
      ∷ (codes "max_text_bytes", num 4096)
      ∷ (codes "max_value_bytes", num 100000)
      ∷ []))

-- STATE_PROJECTION_CONFIGURATION_ID
unfoldable pub state_configuration_id : Platform → Text
unfolding stable_id
state_configuration_id p =
    stable_id p (codes "reference-state-projection-configuration") configuration

-- sorted(STATE_FIELD_RULES)
unfoldable pub sorted_field_names : List Text
unfolding sort state_field_rules
sorted_field_names = sort (keys state_field_rules)

unfoldable pub each_bounded : List Text → Result StateError (Unit {0})
unfolding bounded_text
each_bounded [] = ok tt
each_bounded (s ∷ ss) = do bounded_text s (codes "projection exclusion"); each_bounded ss

-- The inputs that the values of the fields cite.
abbrev pub value_inputs : List ProjectedValue → List Text
value_inputs [] = []
value_inputs (v ∷ vs) = v.authoritative_input_ids ++ value_inputs vs

abbrev pub used_inputs : List ProjectedField → List Text
used_inputs [] = []
used_inputs (f ∷ fs) = value_inputs f.values ++ used_inputs fs

-- `used <= set(...)`
abbrev pub is_subset : List Text → List Text → Bool
is_subset used declared = all (λ s. any (λ t. s == t) declared) used

abbrev pub projection_id_for : Platform → ReferenceStateProjection → Text
projection_id_for p r =
    stable_id p (codes "reference-state-projection") (obj (members (identity_members r)))

-- The versions, the projection_generator and the configuration, which are constants.
unfoldable pub check_header : Platform → ReferenceStateProjection → Result StateError (Unit {0})
unfolding state_configuration_id
check_header p r = do
  raise_if (not (r.schema_version == projection_schema)) wrong_schema
  raise_if (not (r.artifact_kind == projection_kind)) wrong_artifact
  raise_if
      (not (r.generator_name == projection_generator)
        || not (r.generator_version == projection_generator_version))
      wrong_generator
  raise_if (not (r.configuration_id == state_configuration_id p)) wrong_configuration

-- The subject and the inputs.
unfoldable pub check_inputs : ReferenceStateProjection → Result StateError (Unit {0})
unfolding content_identity ordered_unique_content_ids bounded_csv_projection_field
check_inputs r = do
  content_identity r.subject_id (codes "projection subject_id")
  ordered_unique_content_ids r.authoritative_input_ids (codes "projection authoritative inputs")
  raise_if (r.authoritative_input_ids == []) no_inputs
  raise_if (ltb max_inputs (length r.authoritative_input_ids)) inputs_limit
  bounded_csv_projection_field r.authoritative_input_ids (codes "projection authoritative inputs")

unfoldable pub check_exclusions : List Text → Result StateError (Unit {0})
unfolding set_of sort each_bounded bounded_csv_projection_field
check_exclusions values = do
  raise_if (not (sort (set_of values) == values)) exclusions_not_canonical
  raise_if (ltb max_exclusions (length values)) exclusions_limit
  each_bounded values
  bounded_csv_projection_field values (codes "projection exclusions")

-- `ReferenceStateProjection.__post_init__`
unfoldable pub check_state_projection :
    Platform → ReferenceStateProjection → Result StateError (Unit {0})
unfolding check_header check_inputs sorted_field_names check_exclusions identity_members stable_id
check_state_projection p r = do
  check_header p r
  check_inputs r
  raise_if (not (map (λ f. f.field) r.fields == sorted_field_names)) coverage_incomplete
  check_exclusions r.exclusions
  raise_if (not r.exact_replay) not_exact_replay
  raise_if (not (is_subset (used_inputs r.fields) r.authoritative_input_ids)) projection_undeclared
  raise_if (not (r.projection_id == projection_id_for p r)) wrong_projection_id

abbrev spaces : ℕ → Text
spaces zero = []
spaces (suc n) = b' ' ∷ b' ' ∷ spaces n

-- The brackets of an array or an object at a depth, with a line for each part.
bracket : ℕ → ℕ → ℕ → List Text → Text
unfolding join
bracket depth left right [] = left ∷ right ∷ []
bracket depth left right (s ∷ ss) =
    let line = 10 ∷ spaces (suc depth) in
    left ∷ (line ++ (join (b',' ∷ line) (s ∷ ss) ++ (10 ∷ (spaces depth ++ (right ∷ [])))))

abbrev labelled : Text × Text → Text
labelled p = quote p.0 ++ (b':' ∷ b' ' ∷ p.1)

-- json.dumps(value, indent=2, sort_keys=True, ensure_ascii=False)
unfoldable mutual
  unfolding compact_json bracket sort_pairs quote

  pub indented_json : ℕ → Json → Text
  indented_json depth (arr xs) = bracket depth b'[' b']' (indented_items (suc depth) xs)
  indented_json depth (obj fs) =
      bracket depth b'{' b'}' (map labelled (sort_pairs (indented_fields (suc depth) fs)))
  indented_json depth value = compact_json value

  pub indented_items : ℕ → Items → List Text
  indented_items depth nil = []
  indented_items depth (cons x xs) = indented_json depth x ∷ indented_items depth xs

  pub indented_fields : ℕ → Fields → List (Text × Text)
  indented_fields depth end = []
  indented_fields depth (field k v fs) = (k, indented_json depth v) ∷ indented_fields depth fs

-- `_pretty_json`
unfoldable pub pretty_json : Json → Text
unfolding indented_json
pretty_json value = indented_json 0 value ++ (10 ∷ [])

-- `to_json`
unfoldable pub projection_to_json : ReferenceStateProjection → Text
unfolding pretty_json identity_members
projection_to_json r =
    pretty_json
      (obj (members (identity_members r ++ (codes "projection_id", str r.projection_id) ∷ [])))

-- `ReferenceStateProjection.field`
unfoldable pub find_field : Text → List ProjectedField → Result StateError ProjectedField
find_field name [] = err (no_such_field name)
find_field name (f ∷ fs) = let rest = find_field name fs in if f.field == name then ok f else rest
