-- ===== src/StateProjection/Read.antt =====
-- What a JSON value is from which a reader of a projection has made a record.
use projectkoios_references.Prelude.{
  >>=-eq-ok, All, Bool, Bool-cases, List, Option, Option-cases, Result, [], all, and-eq-true, ap,
  arith, eq_of_==, inl, inr, list_eq, list_ord, nat_eq, nat_ord, ok, ok-injective, option_eq,
  pair_eq, pair_ord, refl, some, some-injective, subst, sym, true, ℕ, ◌&&◌, ◌==◌, ◌∙◌, ◌∷◌, ◌≡◌,
}
use projectkoios_references.Text.{Text, codes}
use projectkoios_references.Json.{
  Fields, Json, Items, boolean, num, str, arr, obj, nil, cons, texts, optional,
}
use projectkoios_references.Review.Fields.{at, contains, field_names, pick}
use projectkoios_references.StateProjection.{
  StateError, StateRecordKind, ProjectedValue, ProjectedField, ReferenceStateProjection,
  knowledge_value, record_kind_value, resolution_value, state_dimension_value,
}
use projectkoios_references.StateProjection.Values.{bounded_value}
use projectkoios_references.StateProjection.Fields.{kind_texts}
use projectkoios_references.StateProjection.Readers.{
  object_with, read_optional, each_string, bounded_items, read_strings, read_integer, read_boolean,
  member_named, read_enum, read_kinds, kinds,
}
use projectkoios_references.StateProjection.Reading.{
  value_names, projected_names, state_names, all_items,
}

-- The members of an object have these values.
abbrev pub Holds : Fields → List (Text × Json) → Type 0
Holds fs ms = All (λ m. at m.0 fs ≡ m.1) ms

-- An object with these names and no other.
pub record IsObject (names : List Text) (j : Json) (fs : Fields) : Type 0 where
  pub is_object : j ≡ obj fs
  pub no_other : all (contains names) (field_names fs) ≡ true
  pub no_fewer : all (contains (field_names fs)) names ≡ true

-- The object of a value holds the value's members.
pub record IsValueObject (j : Json) (v : ProjectedValue) : Type 0 where
  pub fs : Fields
  pub is_object : IsObject value_names j fs
  pub held : Holds fs (
      (codes "knowledge", str (knowledge_value v.knowledge))
      ∷ (codes "value_json", optional v.value_json)
      ∷ (codes "authoritative_input_ids", arr (texts v.authoritative_input_ids))
      ∷ (codes "record_kinds", arr (texts (kind_texts v.record_kinds)))
      ∷ (codes "source_locators", arr (texts v.source_locators))
      ∷ [])

-- Item by item, the objects of the values.
abbrev pub AreValues : Items → List ProjectedValue → Type 0
AreValues nil [] = Unit {0}
AreValues nil (v ∷ vs) = ⊥
AreValues (cons x xs) [] = ⊥
AreValues (cons x xs) (v ∷ vs) = IsValueObject x v × AreValues xs vs

-- The object of a field holds the field's members, and under `values` the objects of its values.
pub record IsFieldObject (j : Json) (f : ProjectedField) : Type 0 where
  pub fs : Fields
  pub is_object : IsObject projected_names j fs
  pub items : Items
  pub are_values : AreValues items f.values
  pub held : Holds fs (
      (codes "values", arr items)
      ∷ (codes "field", str f.field)
      ∷ (codes "dimension", str (state_dimension_value f.dimension))
      ∷ (codes "authority_owner", str f.authority_owner)
      ∷ (codes "resolution", str (resolution_value f.resolution))
      ∷ [])

abbrev pub AreFields : Items → List ProjectedField → Type 0
AreFields nil [] = Unit {0}
AreFields nil (f ∷ fs) = ⊥
AreFields (cons x xs) [] = ⊥
AreFields (cons x xs) (f ∷ fs) = IsFieldObject x f × AreFields xs fs

-- The members of a projection that are read first, and those that are read later.
abbrev pub FirstMembers : Fields → ReferenceStateProjection → Type 0
FirstMembers fs r = Holds fs (
    (codes "schema_version", num r.schema_version)
    ∷ (codes "artifact_kind", str r.artifact_kind)
    ∷ (codes "generator_name", str r.generator_name)
    ∷ (codes "generator_version", str r.generator_version)
    ∷ [])

abbrev pub LaterMembers : Fields → ReferenceStateProjection → Type 0
LaterMembers fs r = Holds fs (
    (codes "configuration_id", str r.configuration_id)
    ∷ (codes "subject_id", str r.subject_id)
    ∷ (codes "authoritative_input_ids", arr (texts r.authoritative_input_ids))
    ∷ (codes "exclusions", arr (texts r.exclusions))
    ∷ (codes "exact_replay", boolean r.exact_replay)
    ∷ (codes "projection_id", str r.projection_id)
    ∷ [])

-- The object of a projection holds the projection's members, and under `fields` the objects of its fields.
pub record IsStateObject (j : Json) (r : ReferenceStateProjection) : Type 0 where
  pub fs : Fields
  pub is_object : IsObject state_names j fs
  pub items : Items
  pub fields_there : at (codes "fields") fs ≡ arr items
  pub are_fields : AreFields items r.fields
  pub first : FirstMembers fs r
  pub later : LaterMembers fs r

pub object_with-IsObject :
    (j : Json) (names : List Text) {fs : Fields} → object_with j names ≡ ok fs → IsObject names j fs
unfolding object_with
object_with-IsObject (obj gs) names {fs} h =
    elim (Bool-cases
      (all (contains names) (field_names gs) && all (contains (field_names gs)) names)) [
        | inl e ↦
            let both = and-eq-true _ _ e in
            let h' : ◌≡◌ {A = Result StateError Fields} (ok gs) (ok fs) =
              cc (rw (e, object_with) at h) in
            subst (IsObject names (obj gs)) (ok-injective h')
              (record { is_object = refl; no_other = both.0; no_fewer = both.1 })
        | inr e ↦ cc (rw (e, object_with) at h)
      ]
object_with-IsObject j names h = cc

pub bounded_value-eq :
    (j : Json) (label : Text) {s : Text} → bounded_value j label ≡ ok s → j ≡ str s
unfolding bounded_value
bounded_value-eq j label h = ground arith

pub read_optional-eq :
    (j : Json) (label : Text) {s : Option Text} → read_optional j label ≡ ok s → j ≡ optional s
unfolding read_optional bounded_value
read_optional-eq j label h = ground arith

each_string-eq :
    (xs : Items) (label : Text) {ss : List Text} → each_string xs label ≡ ok ss → xs ≡ texts ss
unfolding each_string
each_string-eq nil label h = ap texts (ok-injective h)
each_string-eq (cons x xs) label h =
    let (first, is_first, rest) = >>=-eq-ok (bounded_value x label) _ h in
    let (later, is_later, done) = >>=-eq-ok (each_string xs label) _ rest in
    (λ i. cons (bounded_value-eq x label is_first i) (each_string-eq xs label is_later i))
    ∙ ap texts (ok-injective done)

pub bounded_items-eq :
    (j : Json) (label : Text) {xs : Items} → bounded_items j label ≡ ok xs → j ≡ arr xs
unfolding bounded_items
bounded_items-eq j label h = ground arith

pub all_items-eq : (j : Json) {xs : Items} → all_items j ≡ ok xs → j ≡ arr xs
unfolding all_items
all_items-eq j h = ground arith

pub read_strings-eq :
    (j : Json) (label : Text) {ss : List Text} → read_strings j label ≡ ok ss → j ≡ arr (texts ss)
unfolding read_strings
read_strings-eq j label h =
    let (xs, is_items, rest) = >>=-eq-ok (bounded_items j label) _ h in
    bounded_items-eq j label is_items ∙ ap arr (each_string-eq xs label rest)

pub read_integer-eq : (j : Json) (label : Text) {n : ℕ} → read_integer j label ≡ ok n → j ≡ num n
unfolding read_integer
read_integer-eq j label h = ground arith

pub read_boolean-eq :
    (j : Json) (label : Text) {b : Bool} → read_boolean j label ≡ ok b → j ≡ boolean b
unfolding read_boolean
read_boolean-eq j label h = ground arith

module _ {A : Type 0} (value : A → Text) where
  pick-eq : (members : List A) (s : Text) {a : A} → pick value members s ≡ some a → value a ≡ s
  pick-eq [] s h = cc
  pick-eq (b ∷ rest) s h = elim (Bool-cases (value b == s)) [
    | inl e ↦ ap value (sym (some-injective _ _ (cc (rw e at h)))) ∙ eq_of_== (value b) s e
    | inr e ↦ pick-eq rest s (cc (rw e at h))
  ]

  member_named-eq :
      (members : List A) (s label : Text) {a : A}
      → member_named value members s label ≡ ok a
      → value a ≡ s
  unfolding member_named
  member_named-eq members s label {a} h = elim (Option-cases (pick value members s)) [
    | inl e ↦ cc (rw (e, member_named) at h)
    | inr (b, e) ↦
        let h' : ◌≡◌ {A = Result StateError A} (ok b) (ok a) = cc (rw (e, member_named) at h) in
        ap value (sym (ok-injective h')) ∙ pick-eq members s e
  ]

  pub read_enum-eq :
      (members : List A) (j : Json) (label : Text) {a : A}
      → read_enum value members j label ≡ ok a
      → j ≡ str (value a)
  unfolding read_enum
  read_enum-eq members (str s) label h = ap str (sym (member_named-eq members s label h))
  read_enum-eq members j label h = cc

pub read_kinds-eq :
    (names : List Text) {ks : List StateRecordKind}
    → read_kinds names ≡ ok ks
    → names ≡ kind_texts ks
unfolding read_kinds
read_kinds-eq [] h = ap kind_texts (ok-injective h)
read_kinds-eq (s ∷ ss) h =
    let (first, is_first, rest) =
      >>=-eq-ok (member_named record_kind_value kinds s (codes "record_kind")) _ h in
    let (later, is_later, done) = >>=-eq-ok (read_kinds ss) _ rest in
    (λ i.
      sym (member_named-eq record_kind_value kinds s (codes "record_kind") is_first) i
      ∷ read_kinds-eq ss is_later i)
    ∙ ap kind_texts (ok-injective done)
