-- ===== src/StateProjection/Groups.antt =====
-- What the reduction's loops leave, as a function of the claims of each field.
use projectkoios_references.Prelude.{
  >>-eq-ok, >>=-eq-ok, All, All-map, Dict, In, In-get, In-keys-put, List, Option-cases, [], ap,
  append_to, arith, get, group_by, inl, inr, keys, list_eq, list_ord, map, nat_eq, nat_ord, ok,
  ok-injective, option_eq, or_empty, pair_eq, pair_ord, refl, select, some, sort_by, subst, sym,
  ◌==◌, ◌∙◌, ◌∷◌, ◌≡◌,
}
use projectkoios_references.Text.{Text}
use projectkoios_references.StateProjection.{
  kind_eq, kind_ord, knowledge_eq, StateClaim, StateFieldRule, ProjectedValue, ProjectedField,
}
use projectkoios_references.StateProjection.Rules.{state_field_rules}
use projectkoios_references.StateProjection.Values.{JsonReader}
use projectkoios_references.StateProjection.Fields.{check_projected_field, check_projected_value}
use projectkoios_references.StateProjection.Reduce.{
  claim_key, Group, group_identity, projected_value, project_values, field_of, project_field,
  empty_groups, group_by_field, project_fields,
}

-- The claims of a field, in their order.
abbrev pub claims_of : Text → List StateClaim → List StateClaim
claims_of name claims = select (λ c. c.field == name) claims

-- The groups of a field by value, in the order of the projected values.
abbrev pub groups_of : List StateClaim → List Group
groups_of claims = sort_by group_identity (group_by claim_key claims [])

pub get-empty_groups :
    (name : Text) (names : List Text) → or_empty (get name (empty_groups names)) ≡ []
unfolding get
get-empty_groups name [] = refl
get-empty_groups name (n ∷ names) = ground (arith, get-empty_groups name names)

pub keys-empty_groups : (names : List Text) → keys (empty_groups names) ≡ names
keys-empty_groups [] = refl
keys-empty_groups (n ∷ names) = ap (λ t. n ∷ t) (keys-empty_groups names)

pub In-keys-append_to :
    (name : Text) (c : StateClaim) (d : Dict Text (List StateClaim))
    → In c.field (keys d)
    → In name (keys (append_to c.field c d))
    → In name (keys d)
unfolding append_to
In-keys-append_to name c d present m = elim (In-keys-put name c.field _ d m) [
  | inl same ↦ rw same present
  | inr old ↦ old
]

pub group_by_field-eq-ok :
    (cs : List StateClaim) (d : Dict Text (List StateClaim)) {g : Dict Text (List StateClaim)}
    → group_by_field cs d ≡ ok g
    → (g ≡ group_by (λ c. c.field) cs d) × All (λ c. In c.field (keys d)) cs
unfolding group_by_field group_by
group_by_field-eq-ok [] d h = (sym (ok-injective h), tt)
group_by_field-eq-ok (c ∷ cs) d h = elim (Option-cases (get c.field d)) [
  | inl missing ↦ cc (rw (missing, group_by_field) at h)
  | inr (old, found) ↦
      let (same, listed) =
        group_by_field-eq-ok cs (append_to c.field c d) (rw (found, group_by_field) at h) in
      let present = In-get c.field old d found in
      (same, (present, All-map _ _ cs (λ x m. In-keys-append_to x.field c d present m) listed))
]

pub project_values-eq-ok :
    (reader : JsonReader) (gs : List Group) {values : List ProjectedValue}
    → project_values reader gs ≡ ok values
    → values ≡ map projected_value gs
unfolding project_values
project_values-eq-ok reader [] h = sym (ok-injective h)
project_values-eq-ok reader (g ∷ gs) h =
    let (checked, rest) = >>-eq-ok (check_projected_value reader (projected_value g)) _ h in
    let (later, made, done) = >>=-eq-ok (project_values reader gs) _ rest in
    sym (ok-injective done) ∙ ap (λ t. projected_value g ∷ t) (project_values-eq-ok reader gs made)

-- The field that is projected from the claims of its name.
abbrev pub IsProjection : List StateClaim → ProjectedField → Type 0
IsProjection claims f =
    (rule : StateFieldRule) × (get f.field state_field_rules ≡ some rule)
    × (f ≡ field_of f.field rule (map projected_value (groups_of (claims_of f.field claims))))

pub project_field-eq-ok :
    (reader : JsonReader) (name : Text) (claims : List StateClaim) {f : ProjectedField}
    → project_field reader name claims ≡ ok f
    → (rule : StateFieldRule) × (get name state_field_rules ≡ some rule)
      × (f ≡ field_of name rule (map projected_value (groups_of claims)))
unfolding project_field
project_field-eq-ok reader name claims h = elim (Option-cases (get name state_field_rules)) [
  | inl missing ↦ cc (rw missing at h)
  | inr (rule, found) ↦
      let (values, made, rest) =
        >>=-eq-ok (project_values reader (groups_of claims)) _ (rw found at h) in
      let (checked, done) =
        >>-eq-ok (check_projected_field reader (field_of name rule values)) _ rest in
      (
        rule,
        found,
        sym (ok-injective done)
            ∙ ap (field_of name rule) (project_values-eq-ok reader (groups_of claims) made),
      )
]

pub In-project_fields :
    (reader : JsonReader) (g : Dict Text (List StateClaim)) (names : List Text)
    {fields : List ProjectedField} (f : ProjectedField)
    → project_fields reader g names ≡ ok fields
    → In f fields
    → (name : Text) × In name names × (project_field reader name (or_empty (get name g)) ≡ ok f)
unfolding project_fields
In-project_fields reader g [] f h m = elim (subst (In f) (sym (ok-injective h)) m) [ ]
In-project_fields reader g (name ∷ names) f h m =
    let (first, made, rest) = >>=-eq-ok (project_field reader name (or_empty (get name g))) _ h in
    let (later, next, done) = >>=-eq-ok (project_fields reader g names) _ rest in
    elim (subst (In f) (sym (ok-injective done)) m) [
      | inl same ↦ (
        name,
        inl refl,
        subst (λ x. project_field reader name (or_empty (get name g)) ≡ ok x) (sym same) made,
      )
      | inr n ↦
          let (other, listed, e) = In-project_fields reader g names f next n in
          (other, inr listed, e)
    ]

pub In-project_fields_inverse :
    (reader : JsonReader) (g : Dict Text (List StateClaim)) (names : List Text)
    {fields : List ProjectedField} (name : Text)
    → project_fields reader g names ≡ ok fields
    → In name names
    → (f : ProjectedField) × In f fields
      × (project_field reader name (or_empty (get name g)) ≡ ok f)
unfolding project_fields
In-project_fields_inverse reader g [] name h m = elim m [ ]
In-project_fields_inverse reader g (n ∷ names) name h m =
    let (first, made, rest) = >>=-eq-ok (project_field reader n (or_empty (get n g))) _ h in
    let (later, next, done) = >>=-eq-ok (project_fields reader g names) _ rest in
    elim m [
      | inl same ↦ (
        first,
        subst (In first) (ok-injective done) (inl refl),
        subst (λ k. project_field reader k (or_empty (get k g)) ≡ ok first) (sym same) made,
      )
      | inr listed ↦
          let (f, found, e) = In-project_fields_inverse reader g names name next listed in
          (f, subst (In f) (ok-injective done) (inr found), e)
    ]
