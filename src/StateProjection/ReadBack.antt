-- ===== src/StateProjection/ReadBack.antt =====
-- A projection that is read from a text is the one that the text prints.
use projectkoios_references.Prelude.{
  >>-eq-ok, >>=-eq-ok, All, List, Option, ap, arith, eq_of_==, list_eq, list_ord, ltb, nat_eq,
  nat_ord, not, not-eq-false, ok, ok-injective, option_eq, pair_eq, pair_ord, raise_if,
  raise_if-eq-ok, refl, some, subst, ℕ, ◌==◌, ◌∙◌, ◌≡◌,
}
use projectkoios_references.Text.{Text, codes, Platform, utf8_size}
use projectkoios_references.Json.{Fields, Json, num, str}
use projectkoios_references.Review.Fields.{at}
use projectkoios_references.StateProjection.{
  ProjectedField, ReferenceStateProjection, json_limit, json_not_canonical, replay_differs,
}
use projectkoios_references.StateProjection.Values.{JsonReader, bounded_value}
use projectkoios_references.StateProjection.Projections.{
  max_projection_bytes, check_state_projection, pretty_json, projection_to_json,
}
use projectkoios_references.StateProjection.Readers.{
  object_with, read_strings, read_integer, read_boolean,
}
use projectkoios_references.StateProjection.Read.{
  AreFields, IsStateObject, FirstMembers, LaterMembers, object_with-IsObject, bounded_value-eq,
  all_items-eq, read_strings-eq, read_integer-eq, read_boolean-eq,
}
use projectkoios_references.StateProjection.Reading.{
  state_names, all_items, loaded, read_fields, read_members, read_parts, read_projection,
  projection_from_json,
}
use projectkoios_references.StateProjection.ReadFields.{IsCheckedField, read_fields-IsRead}

-- What the members that are read last hold of the record that they end.
abbrev EndsWith :
    Fields → List ProjectedField → ℕ → Text → Text → Text → ReferenceStateProjection → Type 0
EndsWith fs made schema kind generator version r =
    (made ≡ r.fields)
    × ((schema ≡ r.schema_version) × (kind ≡ r.artifact_kind))
    × ((generator ≡ r.generator_name) × (version ≡ r.generator_version))
    × LaterMembers fs r

read_members-EndsWith :
    (fs : Fields) (made : List ProjectedField) (schema : ℕ) (kind generator version : Text)
    {r : ReferenceStateProjection}
    → read_members fs made schema kind generator version ≡ ok r
    → EndsWith fs made schema kind generator version r
unfolding read_members
read_members-EndsWith fs made schema kind generator version h =
    let (configuration, e1, h1) =
      >>=-eq-ok (bounded_value (at (codes "configuration_id") fs) (codes "configuration_id")) _ h in
    let (subject, e2, h2) =
      >>=-eq-ok (bounded_value (at (codes "subject_id") fs) (codes "subject_id")) _ h1 in
    let (inputs, e3, h3) =
      >>=-eq-ok
        (read_strings (at (codes "authoritative_input_ids") fs) (codes "authoritative_input_ids")) _
        h2 in
    let (exclusions, e4, h4) =
      >>=-eq-ok (read_strings (at (codes "exclusions") fs) (codes "exclusions")) _ h3 in
    let (exact, e5, h5) =
      >>=-eq-ok (read_boolean (at (codes "exact_replay") fs) (codes "exact_replay")) _ h4 in
    let (id, e6, h6) =
      >>=-eq-ok (bounded_value (at (codes "projection_id") fs) (codes "projection_id")) _ h5 in
    subst (EndsWith fs made schema kind generator version) (ok-injective h6) (
      refl,
      (refl, refl),
      (refl, refl),
      (
        bounded_value-eq _ _ e1,
        (
          bounded_value-eq _ _ e2,
          (
            read_strings-eq _ _ e3,
            (read_strings-eq _ _ e4, (read_boolean-eq _ _ e5, (bounded_value-eq _ _ e6, tt))),
          ),
        ),
      ),
    )

read_parts-holds :
    (fs : Fields) (made : List ProjectedField) {r : ReferenceStateProjection}
    → read_parts fs made ≡ ok r
    → (made ≡ r.fields) × FirstMembers fs r × LaterMembers fs r
unfolding read_parts
read_parts-holds fs made {r} h =
    let (schema, e1, h1) =
      >>=-eq-ok (read_integer (at (codes "schema_version") fs) (codes "schema_version")) _ h in
    let (kind, e2, h2) =
      >>=-eq-ok (bounded_value (at (codes "artifact_kind") fs) (codes "artifact_kind")) _ h1 in
    let (generator, e3, h3) =
      >>=-eq-ok (bounded_value (at (codes "generator_name") fs) (codes "generator_name")) _ h2 in
    let (version, e4, h4) =
      >>=-eq-ok (bounded_value (at (codes "generator_version") fs) (codes "generator_version")) _
        h3 in
    let (same, (a, b), (c, d), later) =
      read_members-EndsWith fs made schema kind generator version h4 in
    let first : FirstMembers fs r = (
      read_integer-eq _ _ e1 ∙ ap num a,
      (
        bounded_value-eq _ _ e2 ∙ ap str b,
        (bounded_value-eq _ _ e3 ∙ ap str c, (bounded_value-eq _ _ e4 ∙ ap str d, tt)),
      ),
    ) in
    (same, first, later)

read_projection-IsRead :
    (reader : JsonReader) (j : Json) {r : ReferenceStateProjection}
    → read_projection reader j ≡ ok r
    → All (IsCheckedField reader) r.fields × IsStateObject j r
unfolding read_projection
read_projection-IsRead reader j {r} h =
    let (fs, e_fs, h1) = >>=-eq-ok (object_with j state_names) _ h in
    let (raw, e_raw, h2) = >>=-eq-ok (all_items (at (codes "fields") fs)) _ h1 in
    let (made, e_made, h3) = >>=-eq-ok (read_fields reader raw) _ h2 in
    let (checked, are_fields) = read_fields-IsRead reader raw e_made in
    let (same, first, later) = read_parts-holds fs made h3 in
    (
      subst (All (IsCheckedField reader)) same checked,
      record {
        fs = fs;
        is_object = object_with-IsObject j state_names e_fs;
        items = raw;
        fields_there = all_items-eq _ e_raw;
        are_fields = subst (AreFields raw) same are_fields;
        first = first;
        later = later;
      },
    )

loaded-some : (o : Option Json) {j : Json} → loaded o ≡ ok j → o ≡ some j
unfolding loaded
loaded-some o h = ground arith

-- A projection that is read from a text is the one that the text's JSON value holds: the value is an object with
-- the projection's members and no other, each with the projection's own value, and so are, item by item, the
-- objects of its fields and of their values. The projection prints as the text, byte for byte, and it and each of
-- its fields and values have passed their checks.
pub projection_from_json-projection_to_json :
    (reader : JsonReader) (p : Platform) (text : Text) {r : ReferenceStateProjection}
    → projection_from_json reader p text ≡ ok r
    → ((value : Json) × (reader.loads text ≡ some value) × IsStateObject value r)
      × (projection_to_json r ≡ text)
      × (check_state_projection p r ≡ ok tt)
      × All (IsCheckedField reader) r.fields
unfolding projection_from_json
projection_from_json-projection_to_json reader p text h =
    let (small, after_size) =
      >>-eq-ok (raise_if (ltb max_projection_bytes (utf8_size text)) json_limit) _ h in
    let (value, read, after_value) = >>=-eq-ok (loaded (reader.loads text)) _ after_size in
    let (canonical, after_form) =
      >>-eq-ok (raise_if (not (pretty_json value == text)) json_not_canonical) _ after_value in
    let (made, is_made, after_made) = >>=-eq-ok (read_projection reader value) _ after_form in
    let (checked, after_check) = >>-eq-ok (check_state_projection p made) _ after_made in
    let (same, done) =
      >>-eq-ok (raise_if (not (projection_to_json made == text)) replay_differs) _ after_check in
    let (valid, object) = read_projection-IsRead reader value is_made in
    subst
      (λ q.
        ((v : Json) × (reader.loads text ≡ some v) × IsStateObject v q)
        × (projection_to_json q ≡ text)
        × (check_state_projection p q ≡ ok tt)
        × All (IsCheckedField reader) q.fields)
      (ok-injective done)
      (
        (value, loaded-some (reader.loads text) read, object),
        eq_of_== (projection_to_json made) text
            (not-eq-false _ (raise_if-eq-ok _ replay_differs same)),
        checked,
        valid,
      )
