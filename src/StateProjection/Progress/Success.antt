-- ===== src/StateProjection/Progress/Success.antt =====
-- A replay of accepted claims succeeds, but for the size limits.
use projectkoios_references.Prelude.{
  >>-ok, Dict, In, In-get, In-map, In-set_of, In-sort, List, [], all-eq-true, any, any-In_inverse,
  any-eq-false, ap, false, get-In-keys, keys, length, list_eq, list_ord, ltb, map, nat_eq, nat_ord,
  not, ok, option_eq, or_eq_false, pair_eq, pair_ord, raise_if, raise_if-ok, refl, set_of, sort,
  sort-set_of_canonical, subst, sym, true, ◌==◌, ◌||◌, ◌≡◌,
}
use projectkoios_references.Text.{Text, codes, Platform, utf8_size}
use projectkoios_references.Review.Checks.{matches_content_id}
use projectkoios_references.StateProjection.{
  StateClaim, ProjectedField, ReferenceStateProjection, claim_subject_differs, no_inputs,
  undeclared_inputs, projection_bytes_limit, result_subject_differs, result_inputs_differ,
  wrong_schema, wrong_artifact, wrong_generator, wrong_configuration, inputs_limit,
  exclusions_limit, coverage_incomplete, exclusions_not_canonical, projection_undeclared,
  wrong_projection_id,
}
use projectkoios_references.StateProjection.Rules.{state_field_rules}
use projectkoios_references.StateProjection.Values.{
  JsonReader, content_identity, ordered_unique_content_ids,
}
use projectkoios_references.StateProjection.Accepted.{check_claim-eq-ok}
use projectkoios_references.StateProjection.Projections.{
  max_inputs, max_exclusions, max_projection_bytes, projection_schema, projection_kind,
  projection_generator, projection_generator_version, state_configuration_id, sorted_field_names,
  is_subset, each_bounded, used_inputs, projection_id_for, check_header, check_inputs,
  check_exclusions, check_state_projection, projection_to_json,
}
use projectkoios_references.StateProjection.Requests.{ReferenceStateReplayRequest}
use projectkoios_references.StateProjection.Reduce.{empty_groups, group_by_field, project_fields}
use projectkoios_references.StateProjection.Replay.{projection_of, make_result, replay}
use projectkoios_references.StateProjection.Groups.{keys-empty_groups}
use projectkoios_references.StateProjection.Reduced.{
  Reduced, claims-of-groups, names-project_fields,
}
use projectkoios_references.StateProjection.Replayed.{inputs_of}
use projectkoios_references.StateProjection.Identity.{state_projection_identity-projection_of}
use projectkoios_references.StateProjection.Progress.{
  OnlyLimits, OnlyLimits-ok, OnlyLimits->>, OnlyLimits->>=, OnlyLimits-after, OnlyLimits-unless,
  OnlyLimits-csv, OnlyLimits-raise_if, content_identity_ok, ordered_unique_content_ids_ok, not-nil,
  not-==,
}
use projectkoios_references.StateProjection.Progress.Replay.{
  IsReady, group_by_field-OnlyLimits, project_fields-OnlyLimits, used_inputs-claims,
  each_bounded_ok, sorted_set_short, In-inputs_of,
}

module _ (reader : JsonReader) (p : Platform) (request : ReferenceStateReplayRequest)
    (ready : IsReady reader request) where
  ids_ok : (s : Text) → In s (inputs_of request) → matches_content_id s ≡ true
  ids_ok s m = ready.identities s (
      In-set_of s request.authoritative_input_ids
        (In-sort s (set_of request.authoritative_input_ids) m))

  inputs_ok : (label : Text) → ordered_unique_content_ids (inputs_of request) label ≡ ok tt
  inputs_ok label =
      ordered_unique_content_ids_ok (inputs_of request) label
        (sort-set_of_canonical request.authoritative_input_ids) ids_ok

  has_inputs : (inputs_of request == []) ≡ false
  has_inputs =
      not-nil ready.an_input (inputs_of request)
        (In-inputs_of request ready.an_input ready.has_input)

  is_listed :
      (c : StateClaim)
      → In c request.claims
      → any (λ t. c.authoritative_input_id == t) (inputs_of request) ≡ true
  is_listed c m =
      any-In_inverse c.authoritative_input_id (inputs_of request)
        (In-inputs_of request c.authoritative_input_id (ready.declared c m))

  claims_declared :
      not (is_subset (map (λ c. c.authoritative_input_id) request.claims) (inputs_of request))
      ≡ false
  claims_declared = ap not (
      all-eq-true (λ s. any (λ t. s == t) (inputs_of request))
        (map (λ c. c.authoritative_input_id) request.claims)
        (λ s m.
          let (c, found, same) = In-map (λ c. c.authoritative_input_id) s request.claims m in
          subst (λ x. any (λ t. x == t) (inputs_of request) ≡ true) (sym same) (is_listed c found)))

  used_declared :
      (fields : List ProjectedField)
      → Reduced reader request.claims fields
      → not (is_subset (used_inputs fields) (inputs_of request)) ≡ false
  used_declared fields done = ap not (
      all-eq-true (λ s. any (λ t. s == t) (inputs_of request)) (used_inputs fields)
        (λ s m.
          let (c, found, same) = used_inputs-claims s done m in
          subst (λ x. any (λ t. x == t) (inputs_of request) ≡ true) (sym same) (is_listed c found)))

  abbrev made : List ProjectedField → ReferenceStateProjection
  made fields =
      projection_of p request.subject_id (inputs_of request) fields
        (sort (set_of request.exclusions))

  check_header_ok : (fields : List ProjectedField) → check_header p (made fields) ≡ ok tt
  unfolding check_header
  check_header_ok fields =
      >>-ok (raise_if (not (projection_schema == projection_schema)) wrong_schema) _ refl (
        >>-ok (raise_if (not (projection_kind == projection_kind)) wrong_artifact) _
          (raise_if-ok _ wrong_artifact (not-== projection_kind projection_kind refl))
          (>>-ok
            (raise_if
              (not (projection_generator == projection_generator)
                || not (projection_generator_version == projection_generator_version))
              wrong_generator)
            _
            (raise_if-ok _ wrong_generator (
              or_eq_false _ _ (not-== projection_generator projection_generator refl)
                (not-== projection_generator_version projection_generator_version refl)))
            (raise_if-ok _ wrong_configuration
              (not-== (state_configuration_id p) (state_configuration_id p) refl))))

  check_inputs-OnlyLimits : (fields : List ProjectedField) → OnlyLimits (check_inputs (made fields))
  unfolding check_inputs
  check_inputs-OnlyLimits fields =
      let ids = inputs_of request in
      OnlyLimits-after (content_identity request.subject_id (codes "projection subject_id")) _
        (content_identity_ok request.subject_id (codes "projection subject_id") ready.subject)
        (OnlyLimits-after (ordered_unique_content_ids ids (codes "projection authoritative inputs"))
          _ (inputs_ok (codes "projection authoritative inputs"))
          (OnlyLimits-unless (ids == []) no_inputs _ has_inputs (
            OnlyLimits-unless (ltb max_inputs (length ids)) inputs_limit _
              (sorted_set_short request.authoritative_input_ids max_inputs ready.few_inputs)
              (OnlyLimits-csv ids (codes "projection authoritative inputs")))))

  check_exclusions-OnlyLimits : OnlyLimits (check_exclusions (sort (set_of request.exclusions)))
  unfolding check_exclusions
  check_exclusions-OnlyLimits =
      let out = sort (set_of request.exclusions) in
      OnlyLimits-unless (not (sort (set_of out) == out)) exclusions_not_canonical _
        (not-== (sort (set_of out)) out (sort-set_of_canonical request.exclusions))
        (OnlyLimits-unless (ltb max_exclusions (length out)) exclusions_limit _
          (sorted_set_short request.exclusions max_exclusions ready.few_exclusions)
          (OnlyLimits-after (each_bounded out) _
            (each_bounded_ok out (λ s m.
              ready.bounded_exclusions s
                (In-set_of s request.exclusions (In-sort s (set_of request.exclusions) m))))
            (OnlyLimits-csv out (codes "projection exclusions"))))

  check_state_projection-OnlyLimits :
      (fields : List ProjectedField)
      → Reduced reader request.claims fields
      → OnlyLimits (check_state_projection p (made fields))
  unfolding check_state_projection
  check_state_projection-OnlyLimits fields done =
      let covered =
        not-== (map (λ f. f.field) fields) sorted_field_names
          (names-project_fields reader done.grouped sorted_field_names done.is_projected) in
      let same_id = not-== ((made fields).projection_id) (projection_id_for p (made fields)) (
        sym (
          state_projection_identity-projection_of p request.subject_id (inputs_of request) fields
            (sort (set_of request.exclusions)))) in
      OnlyLimits-after (check_header p (made fields)) _ (check_header_ok fields) (
        OnlyLimits->> (check_inputs (made fields)) _ (check_inputs-OnlyLimits fields) (
          OnlyLimits-unless (not (map (λ f. f.field) fields == sorted_field_names))
            coverage_incomplete _ covered
            (OnlyLimits->> (check_exclusions (sort (set_of request.exclusions))) _
              check_exclusions-OnlyLimits
              (OnlyLimits-unless (not (is_subset (used_inputs fields) (inputs_of request)))
                projection_undeclared _ (used_declared fields done)
                (OnlyLimits-ok tt (raise_if-ok _ wrong_projection_id same_id))))))

  make_result-OnlyLimits :
      (fields : List ProjectedField) → OnlyLimits (make_result p request (made fields))
  unfolding make_result
  make_result-OnlyLimits fields =
      OnlyLimits-unless (not (request.subject_id == request.subject_id)) result_subject_differs _
        (not-== request.subject_id request.subject_id refl)
        (OnlyLimits-unless (not (inputs_of request == inputs_of request)) result_inputs_differ _
          (not-== (inputs_of request) (inputs_of request) refl) tt)

  fields-OnlyLimits :
      (grouped : Dict Text (List StateClaim))
      → group_by_field request.claims (empty_groups (keys state_field_rules)) ≡ ok grouped
      → OnlyLimits (project_fields reader grouped sorted_field_names)
  unfolding sorted_field_names
  fields-OnlyLimits grouped h =
      project_fields-OnlyLimits reader request.claims grouped sorted_field_names ready.accepted
        (claims-of-groups reader request.claims h)
        (λ name m. get-In-keys name state_field_rules (In-sort name (keys state_field_rules) m))

  claims_known :
      (c : StateClaim)
      → In c request.claims
      → In c.field (keys (empty_groups (keys state_field_rules)))
  claims_known c m =
      let a = check_claim-eq-ok reader c (ready.accepted c m) in
      subst (In c.field) (sym (keys-empty_groups (keys state_field_rules)))
        (In-get c.field a.rule state_field_rules a.known)

  -- Let a request's subject be a content identity, its claims be accepted and about that subject, its inputs be
  -- at least one, at most 4096, each a content identity, and hold the input of every claim, and its exclusions be
  -- at most 128, each of them not empty and at most 4096 bytes long. Then its replay succeeds or raises the error
  -- of a CSV field's limit or of the projection's byte limit.
  pub replay-OnlyLimits : OnlyLimits (replay reader p request)
  unfolding replay
  replay-OnlyLimits =
      OnlyLimits-unless (any (λ c. not (c.subject_id == request.subject_id)) request.claims)
        claim_subject_differs _
        (any-eq-false (λ c. not (c.subject_id == request.subject_id)) request.claims
          (λ c m. not-== c.subject_id request.subject_id (ready.same_subject c m)))
        (OnlyLimits-after
          (ordered_unique_content_ids (inputs_of request) (codes "authoritative_input_ids")) _
          (inputs_ok (codes "authoritative_input_ids"))
          (OnlyLimits-unless (inputs_of request == []) no_inputs _ has_inputs (
            OnlyLimits-unless
              (not (
                is_subset (map (λ c. c.authoritative_input_id) request.claims) (inputs_of request)))
              undeclared_inputs _ claims_declared
              (OnlyLimits->>=
                (group_by_field request.claims (empty_groups (keys state_field_rules))) _
                (group_by_field-OnlyLimits request.claims (empty_groups (keys state_field_rules))
                  claims_known)
                (λ grouped is_grouped.
                  OnlyLimits->>= (project_fields reader grouped sorted_field_names) _
                    (fields-OnlyLimits grouped is_grouped)
                    (λ fields is_projected.
                      OnlyLimits->> (check_state_projection p (made fields)) _
                        (check_state_projection-OnlyLimits fields (record {
                          grouped = grouped;
                          is_grouped = is_grouped;
                          is_projected = is_projected;
                        }))
                        (OnlyLimits->>
                          (raise_if
                            (ltb max_projection_bytes
                              (utf8_size (projection_to_json (made fields))))
                            projection_bytes_limit)
                          _ (OnlyLimits-raise_if _ _ tt) (make_result-OnlyLimits fields))))))))
