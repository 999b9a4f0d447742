-- ===== src/StateProjection/Progress/Fields.antt =====
-- A field that is projected from accepted claims of its name passes its checks.
use projectkoios_references.Prelude.{
  >>-eq-ok, >>-ok, >>=-eq-ok, >>=-ok, In, In-select, In-sorted_image, Increasing,
  Increasing-Distinct, List, Option, [], any, any-eq-false, ap, false, get, inl, inr, length,
  list_eq, list_ord, map, nat_eq, nat_ord, none, not, ok, option_eq, or_eq_false, pair_eq, pair_ord,
  raise_if, raise_if-ok, refl, set_of, set_of-Distinct, some, some-injective, sort, sort-Increasing,
  subst, sym, ◌==◌, ◌||◌, ◌∙◌, ◌∷◌, ◌≡◌,
}
use projectkoios_references.Text.{Text}
use projectkoios_references.StateProjection.{
  kind_eq, kind_ord, knowledge_eq, StateKnowledge, StateClaim, StateFieldRule, ProjectedValue,
  observed, unknown, not_observed, not_applicable, projected_kind, wrong_dimension, projected_owner,
  projected_not_canonical, resolution_value, state_dimension_value,
}
use projectkoios_references.StateProjection.Rules.{state_field_rules}
use projectkoios_references.StateProjection.Values.{
  JsonReader, max_value_bytes, parse_canonical_value,
}
use projectkoios_references.StateProjection.Claims.{accepts, check_knowledge, check_observed_value}
use projectkoios_references.StateProjection.Fields.{
  value_identity, check_value_json, check_value_of_field, check_values_of_field, check_field_rule,
  resolution_of, check_projected_field,
}
use projectkoios_references.StateProjection.Accepted.{IsAccepted}
use projectkoios_references.StateProjection.Reduce.{
  claim_key, Group, group_identity, projected_value, project_values, replay_resolution, field_of,
  project_field,
}
use projectkoios_references.StateProjection.Groups.{groups_of, project_values-eq-ok}
use projectkoios_references.StateProjection.Represents.{In-groups_of}
use projectkoios_references.StateProjection.Order.{AllAccepted, Increasing-groups_of}
use projectkoios_references.StateProjection.Progress.{
  OnlyLimits, OnlyLimits->>=, OnlyLimits-after, not-==,
}
use projectkoios_references.StateProjection.Progress.Values.{
  IsGroup, In-groups_of-IsGroup, project_values-OnlyLimits,
}

check_knowledge-valid :
    (reader : JsonReader) (name : Text) (k : StateKnowledge) (v : Option Text)
    → check_knowledge reader name k v ≡ ok tt
    → check_value_json reader name k v ≡ ok tt
unfolding check_knowledge check_value_json check_observed_value
check_knowledge-valid reader name observed none h = cc
check_knowledge-valid reader name observed (some text) h =
    let (value, parsed, rest) = >>=-eq-ok (parse_canonical_value reader max_value_bytes text) _ h in
    >>=-ok (parse_canonical_value reader max_value_bytes text) _ parsed (>>-eq-ok _ _ rest).1
check_knowledge-valid reader name unknown v h = refl
check_knowledge-valid reader name not_observed v h = refl
check_knowledge-valid reader name not_applicable v h = refl

module _ (reader : JsonReader) (name : Text) (rule : StateFieldRule)
    (known : get name state_field_rules ≡ some rule) where
  same_rule : (c : StateClaim) → c.field ≡ name → (a : IsAccepted reader c) → a.rule ≡ rule
  same_rule c here a =
      some-injective _ _ (sym a.known ∙ ap (λ n. get n state_field_rules) here ∙ known)

  check_value_of_field_ok :
      (g : Group)
      → IsGroup reader g
      → ((c : StateClaim) → In c g.1 → c.field ≡ name)
      → check_value_of_field reader name rule (projected_value g) ≡ ok tt
  unfolding check_value_of_field projected_value
  check_value_of_field_ok g w here =
      let kinds = sort (set_of (map (λ c. c.record_kind) g.1)) in
      let allowed =
        any-eq-false (λ k. not (accepts rule.allowed_record_kinds k)) kinds
          (λ k m.
            let (c, found, same) = In-sorted_image (λ x. x.record_kind) k g.1 m in
            let a = w.accepted c found in
            subst (λ t. not (accepts rule.allowed_record_kinds t) ≡ false) (sym same)
              (subst (λ r. not (accepts r.allowed_record_kinds c.record_kind) ≡ false)
                (same_rule c (here c found) a) (rw a.kind_allowed refl))) in
      let first = w.first in
      let valid : check_value_json reader name g.0.0 g.0.1 ≡ ok tt =
        subst (λ k. check_value_json reader name k.0 k.1 ≡ ok tt) (w.same_key first w.in_group)
          (subst (λ n. check_value_json reader n first.knowledge first.value_json ≡ ok tt)
            (here first w.in_group)
            (check_knowledge-valid reader first.field first.knowledge first.value_json
              (w.accepted first w.in_group).value)) in
      >>-ok
        (raise_if (any (λ k. not (accepts rule.allowed_record_kinds k)) kinds)
          (projected_kind name))
        _ (raise_if-ok _ _ allowed) valid

  check_values_of_field_ok :
      (gs : List Group)
      → ((g : Group) → In g gs → IsGroup reader g)
      → ((g : Group) → In g gs → (c : StateClaim) → In c g.1 → c.field ≡ name)
      → check_values_of_field reader name rule (map projected_value gs) ≡ ok tt
  unfolding check_values_of_field
  check_values_of_field_ok [] w here = refl
  check_values_of_field_ok (g ∷ gs) w here =
      >>-ok (check_value_of_field reader name rule (projected_value g)) _
        (check_value_of_field_ok g (w g (inl refl)) (here g (inl refl)))
        (check_values_of_field_ok gs (λ h m. w h (inr m)) (λ h m. here h (inr m)))

identities-projected :
    (gs : List Group) → map value_identity (map projected_value gs) ≡ map group_identity gs
unfolding projected_value
identities-projected [] = refl
identities-projected (g ∷ gs) = ap (λ t. group_identity g ∷ t) (identities-projected gs)

-- The two functions that compute a resolution are one.
pub replay_resolution-resolution_of :
    (vs : List ProjectedValue) → replay_resolution vs ≡ resolution_of vs
unfolding replay_resolution resolution_of
replay_resolution-resolution_of [] = refl
replay_resolution-resolution_of (v ∷ []) = refl
replay_resolution-resolution_of (v ∷ w ∷ rest) = refl

canonical_identities :
    (ids : List (Text × Text))
    → Increasing ids
    → (not (ids == sort ids) || not (length ids == length (set_of ids))) ≡ false
canonical_identities ids h = or_eq_false _ _ (not-== ids (sort ids) (sym (sort-Increasing ids h))) (
    not-== (length ids) (length (set_of ids))
      (ap length (sym (set_of-Distinct ids (Increasing-Distinct ids h)))))

check_field_rule_ok :
    (reader : JsonReader) (name : Text) (rule : StateFieldRule) (vs : List ProjectedValue)
    → check_values_of_field reader name rule vs ≡ ok tt
    → Increasing (map value_identity vs)
    → check_field_rule reader rule (field_of name rule vs) ≡ ok tt
unfolding check_field_rule
check_field_rule_ok reader name rule vs values increasing =
    >>-ok
      (raise_if (not (state_dimension_value rule.dimension == state_dimension_value rule.dimension))
        (wrong_dimension name))
      _
      (raise_if-ok _ _
        (not-== (state_dimension_value rule.dimension) (state_dimension_value rule.dimension) refl))
      (>>-ok (raise_if (not (rule.authority_owner == rule.authority_owner)) (projected_owner name))
        _ (raise_if-ok _ _ (not-== rule.authority_owner rule.authority_owner refl))
        (>>-ok (check_values_of_field reader name rule vs) _ values (
          >>-ok
            (raise_if
              (not (map value_identity vs == sort (map value_identity vs))
                || not (length (map value_identity vs) == length (set_of (map value_identity vs))))
              projected_not_canonical)
            _ (raise_if-ok _ _ (canonical_identities (map value_identity vs) increasing))
            (raise_if-ok _ _ (
              not-== (resolution_value (replay_resolution vs)) (resolution_value (resolution_of vs))
                (ap resolution_value (replay_resolution-resolution_of vs)))))))

check_projected_field_ok :
    (reader : JsonReader) (name : Text) (rule : StateFieldRule) (vs : List ProjectedValue)
    → get name state_field_rules ≡ some rule
    → check_field_rule reader rule (field_of name rule vs) ≡ ok tt
    → check_projected_field reader (field_of name rule vs) ≡ ok tt
unfolding check_projected_field
check_projected_field_ok reader name rule vs known h = rw known h

-- Projecting a field of the table from accepted claims of the field raises only a limit's error.
pub project_field-OnlyLimits :
    (reader : JsonReader) (name : Text) (rule : StateFieldRule) (cs : List StateClaim)
    → get name state_field_rules ≡ some rule
    → AllAccepted reader cs
    → ((c : StateClaim) → In c cs → c.field ≡ name)
    → OnlyLimits (project_field reader name cs)
unfolding project_field
project_field-OnlyLimits reader name rule cs known accepted here =
    let gs = groups_of cs in
    let groups : (g : Group) → In g gs → IsGroup reader g =
      λ g m. In-groups_of-IsGroup reader cs g accepted m in
    let fields : (g : Group) → In g gs → (c : StateClaim) → In c g.1 → c.field ≡ name = λ g m c n.
      here c
        (In-select (λ x. claim_key x == g.0) c cs (subst (In c) (In-groups_of cs g m).0 n)).0 in
    let increasing : Increasing (map value_identity (map projected_value gs)) =
      subst Increasing (sym (identities-projected gs)) (Increasing-groups_of reader cs accepted) in
    let checked = check_projected_field_ok reader name rule (map projected_value gs) known (
      check_field_rule_ok reader name rule (map projected_value gs)
        (check_values_of_field_ok reader name rule known gs groups fields) increasing) in
    rw known (
      OnlyLimits->>= (project_values reader gs) _ (project_values-OnlyLimits reader gs groups)
        (λ values made.
          OnlyLimits-after (check_projected_field reader (field_of name rule values)) _
            (subst (λ vs. check_projected_field reader (field_of name rule vs) ≡ ok tt)
              (sym (project_values-eq-ok reader gs made)) checked)
            tt))
