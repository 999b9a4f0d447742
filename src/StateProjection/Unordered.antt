-- ===== src/StateProjection/Unordered.antt =====
-- A replay depends on which claims, inputs and exclusions a request has, not on their order or number.
use projectkoios_references.Prelude.{
  ==_refl, >>-ok, >>=-congruent, >>=-ok, Dict, In, In-all-true, In-any-false, In-keys-put_inverse,
  In-map, In-map_inverse, In-select, List, Option-cases, Result, SameElements, SameElements-select,
  [], all-eq-true, any, any-eq-false, ap, append_to, false, get, get-In-keys, inl, inr, keys,
  list_eq, list_ord, ltb, map, nat_eq, nat_ord, not, ok, option_eq, or_empty, pair_eq, pair_ord,
  raise_if, raise_if-ok, refl, set_of, sort, sort-set_of_unique, subst, sym, true, ◌==◌, ◌>>=◌,
  ◌>>◌, ◌∙◌, ◌∷◌, ◌≡◌,
}
use projectkoios_references.Text.{Text, codes, Platform, utf8_size}
use projectkoios_references.StateProjection.{
  StateError, StateClaim, ProjectedValue, ReferenceStateProjection, claim_subject_differs,
  no_inputs, undeclared_inputs, projection_bytes_limit,
}
use projectkoios_references.StateProjection.Rules.{state_field_rules}
use projectkoios_references.StateProjection.Values.{JsonReader, ordered_unique_content_ids}
use projectkoios_references.StateProjection.Projections.{
  max_projection_bytes, sorted_field_names, is_subset, check_state_projection, projection_to_json,
}
use projectkoios_references.StateProjection.Fields.{check_projected_value, check_projected_field}
use projectkoios_references.StateProjection.Requests.{ReferenceStateReplayRequest}
use projectkoios_references.StateProjection.Reduce.{
  Group, projected_value, project_values, field_of, project_field, empty_groups, group_by_field,
  project_fields,
}
use projectkoios_references.StateProjection.Replay.{
  ReferenceStateReplayResult, projection_of, make_result, replay,
}
use projectkoios_references.StateProjection.Groups.{claims_of, groups_of, keys-empty_groups}
use projectkoios_references.StateProjection.Reduced.{Reduced, claims-of-groups, In-claims-known}
use projectkoios_references.StateProjection.Replayed.{Replayed, inputs_of, replay-eq-ok}
use projectkoios_references.StateProjection.Order.{AllAccepted, projected_values_unique}

-- Values that pass their checks one after another.
check_values : JsonReader → List ProjectedValue → Result StateError (List ProjectedValue)
unfolding check_projected_value
check_values reader [] = ok []
check_values reader (v ∷ vs) = do
  check_projected_value reader v
  rest ← check_values reader vs
  ok (v ∷ rest)

project_values-check_values :
    (reader : JsonReader) (gs : List Group)
    → project_values reader gs ≡ check_values reader (map projected_value gs)
unfolding project_values check_values
project_values-check_values reader [] = refl
project_values-check_values reader (g ∷ gs) =
    >>=-congruent (check_projected_value reader (projected_value g))
      (check_projected_value reader (projected_value g)) _ _ refl
      (λ u.
        ap (λ r. r >>= λ rest. ok (projected_value g ∷ rest))
          (project_values-check_values reader gs))

project_field_unique :
    (reader : JsonReader) (name : Text) (cs ds : List StateClaim)
    → map projected_value (groups_of cs) ≡ map projected_value (groups_of ds)
    → project_field reader name cs ≡ project_field reader name ds
unfolding project_field
project_field_unique reader name cs ds h =
    let same =
      project_values-check_values reader (groups_of cs)
      ∙ ap (check_values reader) h
      ∙ sym (project_values-check_values reader (groups_of ds)) in
    elim (Option-cases (get name state_field_rules)) [
      | inl missing ↦ rw missing refl
      | inr (rule, found) ↦ rw found (
          ap
            (λ r. r >>= λ values.
              check_projected_field reader (field_of name rule values)
              >> ok (field_of name rule values))
            same)
    ]

project_fields_unique :
    (reader : JsonReader) (g h : Dict Text (List StateClaim)) (names : List Text)
    → ((name : Text)
        → project_field reader name (or_empty (get name g))
          ≡ project_field reader name (or_empty (get name h)))
    → project_fields reader g names ≡ project_fields reader h names
unfolding project_fields
project_fields_unique reader g h [] same = refl
project_fields_unique reader g h (name ∷ names) same =
    >>=-congruent (project_field reader name (or_empty (get name g)))
      (project_field reader name (or_empty (get name h))) _ _ (same name)
      (λ first.
        ap (λ r. r >>= λ rest. ok (first ∷ rest)) (project_fields_unique reader g h names same))

group_by_field_ok :
    (cs : List StateClaim) (d : Dict Text (List StateClaim))
    → ((c : StateClaim) → In c cs → In c.field (keys d))
    → (g : Dict Text (List StateClaim)) × (group_by_field cs d ≡ ok g)
unfolding group_by_field append_to
group_by_field_ok [] d known = (d, refl)
group_by_field_ok (c ∷ cs) d known =
    let (old, found) = get-In-keys c.field d (known c (inl refl)) in
    rw (found, group_by_field)
      (group_by_field_ok cs (append_to c.field c d)
        (λ x m. In-keys-put_inverse x.field c.field _ d (inr (known x (inr m)))))

-- Two requests about one subject that hold the same claims, inputs and exclusions.
pub record SameRequest (r s : ReferenceStateReplayRequest) : Type 0 where
  pub subject : r.subject_id ≡ s.subject_id
  pub claims : SameElements r.claims s.claims
  pub inputs : SameElements r.authoritative_input_ids s.authoritative_input_ids
  pub exclusions : SameElements r.exclusions s.exclusions

inputs_of_unique : (r s : ReferenceStateReplayRequest) → SameRequest r s → inputs_of r ≡ inputs_of s
inputs_of_unique r s same =
    sort-set_of_unique r.authoritative_input_ids s.authoritative_input_ids same.inputs.0
      same.inputs.1

module _ (reader : JsonReader) (p : Platform) (r s : ReferenceStateReplayRequest)
    (accepted : AllAccepted reader r.claims) (same : SameRequest r s)
    {projection : ReferenceStateProjection} (done : Replayed reader p r projection) where
  -- The same fields come of the other request's claims.
  same_fields : Reduced reader s.claims projection.fields
  same_fields =
      let known : (c : StateClaim)
          → In c s.claims
          → In c.field (keys (empty_groups (keys state_field_rules))) =
        λ c m.
          subst (In c.field) (sym (keys-empty_groups (keys state_field_rules)))
            (In-claims-known done.reduced c (same.claims.1 c m)) in
      let (grouped, is_grouped) =
        group_by_field_ok s.claims (empty_groups (keys state_field_rules)) known in
      let each : (name : Text)
          → project_field reader name (or_empty (get name grouped))
            ≡ project_field reader name (or_empty (get name done.reduced.grouped)) =
        λ name.
          ap (project_field reader name) (claims-of-groups reader s.claims is_grouped name)
          ∙ sym (
              project_field_unique reader name (claims_of name r.claims) (claims_of name s.claims) (
                projected_values_unique reader (claims_of name r.claims) (claims_of name s.claims)
                  (λ c m. accepted c (In-select (λ x. x.field == name) c r.claims m).0)
                  (SameElements-select (λ x. x.field == name) r.claims s.claims same.claims)))
          ∙ ap (project_field reader name)
              (sym (claims-of-groups reader r.claims done.reduced.is_grouped name)) in
      record {
        grouped = grouped;
        is_grouped = is_grouped;
        is_projected =
            project_fields_unique reader grouped done.reduced.grouped sorted_field_names each
            ∙ done.reduced.is_projected;
      }

  same_about : any (λ c. not (c.subject_id == s.subject_id)) s.claims ≡ false
  same_about =
      any-eq-false (λ c. not (c.subject_id == s.subject_id)) s.claims
        (λ c m.
          subst (λ t. not (c.subject_id == t) ≡ false) same.subject
            (In-any-false (λ c. not (c.subject_id == r.subject_id)) c r.claims done.is_about
              (same.claims.1 c m)))

  same_declared : is_subset (map (λ c. c.authoritative_input_id) s.claims) (inputs_of s) ≡ true
  same_declared =
      all-eq-true (λ i. any (λ t. i == t) (inputs_of s))
        (map (λ c. c.authoritative_input_id) s.claims)
        (λ i m.
          let (c, found, here) = In-map (λ c. c.authoritative_input_id) i s.claims m in
          subst (λ ids. any (λ t. i == t) ids ≡ true) (inputs_of_unique r s same)
            (In-all-true (λ i. any (λ t. i == t) (inputs_of r)) i
              (map (λ c. c.authoritative_input_id) r.claims) done.is_declared
              (subst (λ x. In x (map (λ c. c.authoritative_input_id) r.claims)) (sym here)
                (In-map_inverse (λ c. c.authoritative_input_id) c r.claims
                  (same.claims.1 c found)))))

  abbrev other : ReferenceStateProjection
  other = projection_of p s.subject_id (inputs_of s) projection.fields (sort (set_of s.exclusions))

  same_projection : projection ≡ other
  same_projection =
      done.is_result
      ∙ rw
          (
            same.subject,
            inputs_of_unique r s same,
            sort-set_of_unique r.exclusions s.exclusions same.exclusions.0 same.exclusions.1,
          )
          refl

  make_other :
      (result : ReferenceStateReplayResult) × (make_result p s other ≡ ok result)
      × (result.projection ≡ other)
  unfolding make_result
  make_other = rw (==_refl s.subject_id, ==_refl (inputs_of s)) (_, refl, refl)

  to_other :
      {A : Type 0} (f : ReferenceStateProjection → A) {a : A} → f projection ≡ a → f other ≡ a
  to_other f h = ap f (sym same_projection) ∙ h

  same_result :
      (result : ReferenceStateReplayResult) × (replay reader p s ≡ ok result)
      × (result.projection ≡ projection)
  unfolding replay
  same_result =
      let (result, is_made, is_other) = make_other in
      let fields = same_fields in
      let ordered : ordered_unique_content_ids (inputs_of s) (codes "authoritative_input_ids")
          ≡ ok tt =
        subst (λ ids. ordered_unique_content_ids ids (codes "authoritative_input_ids") ≡ ok tt)
          (inputs_of_unique r s same) done.is_ordered in
      let given : (inputs_of s == []) ≡ false =
        subst (λ ids. (ids == []) ≡ false) (inputs_of_unique r s same) done.is_given in
      (
        result,
        >>-ok
            (raise_if (any (λ c. not (c.subject_id == s.subject_id)) s.claims)
              claim_subject_differs)
            _ (raise_if-ok _ claim_subject_differs same_about)
            (>>-ok (ordered_unique_content_ids (inputs_of s) (codes "authoritative_input_ids")) _
              ordered
              (>>-ok (raise_if (inputs_of s == []) no_inputs) _ (raise_if-ok _ no_inputs given) (
                >>-ok
                  (raise_if
                    (not (is_subset (map (λ c. c.authoritative_input_id) s.claims) (inputs_of s)))
                    undeclared_inputs)
                  _ (raise_if-ok _ undeclared_inputs (ap not same_declared))
                  (>>=-ok (group_by_field s.claims (empty_groups (keys state_field_rules))) _
                    fields.is_grouped
                    (>>=-ok (project_fields reader fields.grouped sorted_field_names) _
                      fields.is_projected
                      (>>-ok (check_state_projection p other) _
                        (to_other (check_state_projection p) done.is_checked)
                        (>>-ok
                          (raise_if
                            (ltb max_projection_bytes (utf8_size (projection_to_json other)))
                            projection_bytes_limit)
                          _
                          (raise_if-ok _ projection_bytes_limit (
                            to_other
                              (λ q. ltb max_projection_bytes (utf8_size (projection_to_json q)))
                              done.is_small))
                          is_made))))))),
        is_other ∙ sym same_projection,
      )

-- Where accepted claims replay to a projection, a request about the same subject with the same claims,
-- inputs and exclusions, in any order and any number of times each, replays to that projection too.
pub replay-SameRequest :
    (reader : JsonReader) (p : Platform) (r s : ReferenceStateReplayRequest)
    {result : ReferenceStateReplayResult}
    → AllAccepted reader r.claims
    → SameRequest r s
    → replay reader p r ≡ ok result
    → (other : ReferenceStateReplayResult) × (replay reader p s ≡ ok other)
      × (other.projection ≡ result.projection)
replay-SameRequest reader p r s accepted same h =
    same_result reader p r s accepted same (replay-eq-ok reader p r h)
