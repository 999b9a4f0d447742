-- ===== src/StateProjection/ReadFields.antt =====
-- The fields of a projection that are read hold what their objects hold.
use projectkoios_references.Prelude.{
  >>-eq-ok, >>=-eq-ok, All, List, ap, list_eq, list_ord, nat_eq, nat_ord, ok, ok-injective,
  option_eq, pair_eq, pair_ord, subst, ◌∙◌, ◌≡◌,
}
use projectkoios_references.Text.{codes}
use projectkoios_references.Json.{Json, Items, arr, nil, cons, texts}
use projectkoios_references.Review.Fields.{at}
use projectkoios_references.StateProjection.{
  ProjectedValue, ProjectedField, knowledge_value, resolution_value, state_dimension_value,
}
use projectkoios_references.StateProjection.Values.{JsonReader, bounded_value}
use projectkoios_references.StateProjection.Fields.{check_projected_value, check_projected_field}
use projectkoios_references.StateProjection.Readers.{
  object_with, read_optional, bounded_items, read_strings, read_enum, read_kinds, knowledges,
  resolutions, dimensions,
}
use projectkoios_references.StateProjection.Read.{
  IsValueObject, AreValues, IsFieldObject, AreFields, object_with-IsObject, bounded_value-eq,
  read_optional-eq, bounded_items-eq, read_strings-eq, read_enum-eq, read_kinds-eq,
}
use projectkoios_references.StateProjection.Reading.{
  value_names, projected_names, read_value, read_values, read_field, read_fields,
}

-- The value has passed its checks.
abbrev pub IsCheckedValue : JsonReader → ProjectedValue → Type 0
IsCheckedValue reader v = check_projected_value reader v ≡ ok tt

-- The field and its values have passed their checks.
abbrev pub IsCheckedField : JsonReader → ProjectedField → Type 0
IsCheckedField reader f =
    (check_projected_field reader f ≡ ok tt) × All (IsCheckedValue reader) f.values

read_value-IsRead :
    (reader : JsonReader) (j : Json) {v : ProjectedValue}
    → read_value reader j ≡ ok v
    → IsCheckedValue reader v × IsValueObject j v
unfolding read_value
read_value-IsRead reader j h =
    let (fs, e_fs, h1) = >>=-eq-ok (object_with j value_names) _ h in
    let (known, e_known, h2) =
      >>=-eq-ok
        (read_enum knowledge_value knowledges (at (codes "knowledge") fs) (codes "knowledge")) _
        h1 in
    let (text, e_text, h3) =
      >>=-eq-ok (read_optional (at (codes "value_json") fs) (codes "value_json")) _ h2 in
    let (ids, e_ids, h4) =
      >>=-eq-ok
        (read_strings (at (codes "authoritative_input_ids") fs) (codes "authoritative_input_ids")) _
        h3 in
    let (names, e_names, h5) =
      >>=-eq-ok (read_strings (at (codes "record_kinds") fs) (codes "record_kinds")) _ h4 in
    let (record_kinds, e_record_kinds, h6) = >>=-eq-ok (read_kinds names) _ h5 in
    let (locators, e_locators, h7) =
      >>=-eq-ok (read_strings (at (codes "source_locators") fs) (codes "source_locators")) _ h6 in
    let (checked, done) =
      >>-eq-ok
        (check_projected_value reader (record {
          knowledge = known;
          value_json = text;
          authoritative_input_ids = ids;
          record_kinds = record_kinds;
          source_locators = locators;
        }))
        _ h7 in
    subst (λ v. IsCheckedValue reader v × IsValueObject j v) (ok-injective done)
      (
        checked,
        record {
          fs = fs;
          is_object = object_with-IsObject j value_names e_fs;
          held = (
            read_enum-eq knowledge_value knowledges _ _ e_known,
            (
              read_optional-eq _ _ e_text,
              (
                read_strings-eq _ _ e_ids,
                (
                  read_strings-eq _ _ e_names
                      ∙ ap (λ t. arr (texts t)) (read_kinds-eq names e_record_kinds),
                  (read_strings-eq _ _ e_locators, tt),
                ),
              ),
            ),
          );
        },
      )

read_values-IsRead :
    (reader : JsonReader) (xs : Items) {vs : List ProjectedValue}
    → read_values reader xs ≡ ok vs
    → All (IsCheckedValue reader) vs × AreValues xs vs
unfolding read_values
read_values-IsRead reader nil h =
    subst (λ vs. All (IsCheckedValue reader) vs × AreValues nil vs) (ok-injective h) (tt, tt)
read_values-IsRead reader (cons x xs) h =
    let (first, made, rest) = >>=-eq-ok (read_value reader x) _ h in
    let (later, next, done) = >>=-eq-ok (read_values reader xs) _ rest in
    let here = read_value-IsRead reader x made in
    let on = read_values-IsRead reader xs next in
    subst (λ vs. All (IsCheckedValue reader) vs × AreValues (cons x xs) vs) (ok-injective done)
      ((here.0, on.0), (here.1, on.1))

read_field-IsRead :
    (reader : JsonReader) (j : Json) {f : ProjectedField}
    → read_field reader j ≡ ok f
    → IsCheckedField reader f × IsFieldObject j f
unfolding read_field
read_field-IsRead reader j h =
    let (fs, e_fs, h1) = >>=-eq-ok (object_with j projected_names) _ h in
    let (raw, e_raw, h2) =
      >>=-eq-ok (bounded_items (at (codes "values") fs) (codes "values")) _ h1 in
    let (vs, e_vs, h3) = >>=-eq-ok (read_values reader raw) _ h2 in
    let (name, e_name, h4) =
      >>=-eq-ok (bounded_value (at (codes "field") fs) (codes "field")) _ h3 in
    let (dimension, e_dimension, h5) =
      >>=-eq-ok
        (read_enum state_dimension_value dimensions (at (codes "dimension") fs) (codes "dimension"))
        _ h4 in
    let (owner, e_owner, h6) =
      >>=-eq-ok (bounded_value (at (codes "authority_owner") fs) (codes "authority_owner")) _ h5 in
    let (resolution, e_resolution, h7) =
      >>=-eq-ok
        (read_enum resolution_value resolutions (at (codes "resolution") fs) (codes "resolution")) _
        h6 in
    let (checked, done) =
      >>-eq-ok
        (check_projected_field reader (record {
          field = name;
          dimension = dimension;
          authority_owner = owner;
          resolution = resolution;
          values = vs;
        }))
        _ h7 in
    let (valid, are_values) = read_values-IsRead reader raw e_vs in
    subst (λ f. IsCheckedField reader f × IsFieldObject j f) (ok-injective done)
      (
        (checked, valid),
        record {
          fs = fs;
          is_object = object_with-IsObject j projected_names e_fs;
          items = raw;
          are_values = are_values;
          held = (
            bounded_items-eq _ _ e_raw,
            (
              bounded_value-eq _ _ e_name,
              (
                read_enum-eq state_dimension_value dimensions _ _ e_dimension,
                (
                  bounded_value-eq _ _ e_owner,
                  (read_enum-eq resolution_value resolutions _ _ e_resolution, tt),
                ),
              ),
            ),
          );
        },
      )

pub read_fields-IsRead :
    (reader : JsonReader) (xs : Items) {fs : List ProjectedField}
    → read_fields reader xs ≡ ok fs
    → All (IsCheckedField reader) fs × AreFields xs fs
unfolding read_fields
read_fields-IsRead reader nil h =
    subst (λ fs. All (IsCheckedField reader) fs × AreFields nil fs) (ok-injective h) (tt, tt)
read_fields-IsRead reader (cons x xs) h =
    let (first, made, rest) = >>=-eq-ok (read_field reader x) _ h in
    let (later, next, done) = >>=-eq-ok (read_fields reader xs) _ rest in
    let here = read_field-IsRead reader x made in
    let on = read_fields-IsRead reader xs next in
    subst (λ fs. All (IsCheckedField reader) fs × AreFields (cons x xs) fs) (ok-injective done)
      ((here.0, on.0), (here.1, on.1))
