-- ===== src/StateProjection/Reduced.antt =====
-- What the two loops of a replay leave: each field is projected from the claims of its name.
use projectkoios_references.Prelude.{
  >>=-eq-ok, All-In, Dict, In, In-sort_inverse, List, [], ap, get, get-group_by, keys, list_eq,
  list_ord, map, nat_eq, nat_ord, ok, ok-injective, option_eq, or_empty, pair_eq, pair_ord, refl,
  some, subst, sym, ◌++◌, ◌∙◌, ◌∷◌, ◌≡◌,
}
use projectkoios_references.Text.{Text}
use projectkoios_references.StateProjection.{StateClaim, ProjectedField}
use projectkoios_references.StateProjection.Rules.{state_field_rules}
use projectkoios_references.StateProjection.Values.{JsonReader}
use projectkoios_references.StateProjection.Projections.{sorted_field_names}
use projectkoios_references.StateProjection.Reduce.{
  projected_value, field_of, project_field, empty_groups, group_by_field, project_fields,
}
use projectkoios_references.StateProjection.Groups.{
  claims_of, groups_of, IsProjection, get-empty_groups, keys-empty_groups, group_by_field-eq-ok,
  project_field-eq-ok, In-project_fields, In-project_fields_inverse,
}

pub record Reduced (reader : JsonReader) (claims : List StateClaim) (fields : List ProjectedField)
    : Type 0 where
  pub grouped : Dict Text (List StateClaim)
  pub is_grouped : group_by_field claims (empty_groups (keys state_field_rules)) ≡ ok grouped
  pub is_projected : project_fields reader grouped sorted_field_names ≡ ok fields

-- The loop over the claims leaves the claims of each name.
pub claims-of-groups :
    (reader : JsonReader) (claims : List StateClaim) {grouped : Dict Text (List StateClaim)}
    → group_by_field claims (empty_groups (keys state_field_rules)) ≡ ok grouped
    → (name : Text) → or_empty (get name grouped) ≡ claims_of name claims
claims-of-groups reader claims h name =
    ap (λ d. or_empty (get name d)) (group_by_field-eq-ok claims _ h).0
    ∙ get-group_by (λ c. c.field) name claims (empty_groups (keys state_field_rules))
    ∙ ap (λ old. old ++ claims_of name claims) (get-empty_groups name (keys state_field_rules))

module _ {reader : JsonReader} {claims : List StateClaim} {fields : List ProjectedField}
    (done : Reduced reader claims fields) where
  -- Each field is projected from the claims of its name.
  pub In-fields-IsProjection : (f : ProjectedField) → In f fields → IsProjection claims f
  In-fields-IsProjection f m =
      let (name, listed, made) =
        In-project_fields reader done.grouped sorted_field_names f done.is_projected m in
      let (rule, found, same) = project_field-eq-ok reader name _ made in
      (
        rule,
        subst (λ k. get k state_field_rules ≡ some rule) (sym (ap (λ g. g.field) same)) found,
        subst (λ cs. f ≡ field_of f.field rule (map projected_value (groups_of cs)))
            (claims-of-groups reader claims done.is_grouped f.field)
            (subst
              (λ k.
                f
                ≡ field_of k rule (map projected_value (groups_of (or_empty (get k done.grouped)))))
              (sym (ap (λ g. g.field) same)) same),
      )

  -- Each field of the table is projected.
  pub In-fields_exists :
      (name : Text)
      → In name (keys state_field_rules)
      → (f : ProjectedField) × In f fields × (f.field ≡ name)
  unfolding sorted_field_names
  In-fields_exists name m =
      let (f, found, made) =
        In-project_fields_inverse reader done.grouped sorted_field_names name done.is_projected
          (In-sort_inverse name (keys state_field_rules) m) in
      let (rule, known, same) = project_field-eq-ok reader name _ made in
      (f, found, ap (λ g. g.field) same)

  -- Each claim's field is in the table.
  pub In-claims-known : (c : StateClaim) → In c claims → In c.field (keys state_field_rules)
  In-claims-known c m = subst (In c.field) (keys-empty_groups (keys state_field_rules)) (
      All-In (λ x. In x.field (keys (empty_groups (keys state_field_rules)))) c claims
        (group_by_field-eq-ok claims _ done.is_grouped).1 m)

pub names-project_fields :
    (reader : JsonReader) (g : Dict Text (List StateClaim)) (names : List Text)
    {fields : List ProjectedField}
    → project_fields reader g names ≡ ok fields
    → map (λ f. f.field) fields ≡ names
unfolding project_fields
names-project_fields reader g [] h = ap (λ fs. map (λ f. f.field) fs) (sym (ok-injective h))
names-project_fields reader g (name ∷ names) h =
    let (first, made, rest) = >>=-eq-ok (project_field reader name (or_empty (get name g))) _ h in
    let (later, next, done) = >>=-eq-ok (project_fields reader g names) _ rest in
    let (rule, known, same) = project_field-eq-ok reader name (or_empty (get name g)) made in
    let here : first.field ≡ name = ap (λ f. f.field) same in
    let there = names-project_fields reader g names next in
    ap (λ fs. map (λ f. f.field) fs) (sym (ok-injective done)) ∙ rw (here, there) refl
