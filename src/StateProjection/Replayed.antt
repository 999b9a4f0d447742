-- ===== src/StateProjection/Replayed.antt =====
-- What a replay that succeeds has done.
use projectkoios_references.Prelude.{
  >>-eq-ok, >>=-eq-ok, List, [], any, ap, false, keys, list_eq, list_ord, ltb, map, nat_eq, nat_ord,
  not, not-eq-false, ok, ok-injective, option_eq, pair_eq, pair_ord, raise_if, raise_if-eq-ok,
  set_of, sort, subst, sym, true, ◌==◌, ◌≡◌,
}
use projectkoios_references.Text.{Text, codes, Platform, utf8_size}
use projectkoios_references.StateProjection.{
  ReferenceStateProjection, claim_subject_differs, no_inputs, undeclared_inputs,
  projection_bytes_limit,
}
use projectkoios_references.StateProjection.Rules.{state_field_rules}
use projectkoios_references.StateProjection.Values.{JsonReader, ordered_unique_content_ids}
use projectkoios_references.StateProjection.Projections.{
  max_projection_bytes, sorted_field_names, is_subset, check_state_projection, projection_to_json,
}
use projectkoios_references.StateProjection.Requests.{ReferenceStateReplayRequest}
use projectkoios_references.StateProjection.Reduce.{empty_groups, group_by_field, project_fields}
use projectkoios_references.StateProjection.Replay.{
  ReferenceStateReplayResult, projection_of, make_result, replay,
}
use projectkoios_references.StateProjection.Reduced.{Reduced}

abbrev pub inputs_of : ReferenceStateReplayRequest → List Text
inputs_of request = sort (set_of request.authoritative_input_ids)

-- The steps of a successful replay, and the result that they leave.
pub record Replayed (reader : JsonReader) (p : Platform) (request : ReferenceStateReplayRequest)
    (projection : ReferenceStateProjection) : Type 0 where
  pub is_about : any (λ c. not (c.subject_id == request.subject_id)) request.claims ≡ false
  pub is_ordered :
      ordered_unique_content_ids (inputs_of request) (codes "authoritative_input_ids") ≡ ok tt
  pub is_given : (inputs_of request == []) ≡ false
  pub reduced : Reduced reader request.claims projection.fields
  pub is_declared :
      is_subset (map (λ c. c.authoritative_input_id) request.claims) (inputs_of request) ≡ true
  pub is_result :
      projection
      ≡ projection_of p request.subject_id
          (inputs_of request)
          projection.fields
          (sort (set_of request.exclusions))
  pub is_checked : check_state_projection p projection ≡ ok tt
  pub is_small : ltb max_projection_bytes (utf8_size (projection_to_json projection)) ≡ false

make_result-eq-ok :
    (p : Platform) (request : ReferenceStateReplayRequest) (made : ReferenceStateProjection)
    {result : ReferenceStateReplayResult}
    → make_result p request made ≡ ok result
    → result.projection ≡ made
unfolding make_result
make_result-eq-ok p request made h =
    let (subject, rest) = >>-eq-ok (raise_if (not (made.subject_id == request.subject_id)) _) _ h in
    let (inputs, done) =
      >>-eq-ok (raise_if (not (made.authoritative_input_ids == inputs_of request)) _) _ rest in
    ap (λ r. r.projection) (sym (ok-injective done))

pub replay-eq-ok :
    (reader : JsonReader) (p : Platform) (request : ReferenceStateReplayRequest)
    {result : ReferenceStateReplayResult}
    → replay reader p request ≡ ok result
    → Replayed reader p request result.projection
unfolding replay
replay-eq-ok reader p request {result} h =
    let (subject, after_subject) =
      >>-eq-ok
        (raise_if (any (λ c. not (c.subject_id == request.subject_id)) request.claims)
          claim_subject_differs)
        _ h in
    let (ids, after_ids) =
      >>-eq-ok (ordered_unique_content_ids (inputs_of request) (codes "authoritative_input_ids")) _
        after_subject in
    let (some_input, after_inputs) =
      >>-eq-ok (raise_if (inputs_of request == []) no_inputs) _ after_ids in
    let (declared, after_declared) =
      >>-eq-ok
        (raise_if
          (not (is_subset (map (λ c. c.authoritative_input_id) request.claims) (inputs_of request)))
          undeclared_inputs)
        _ after_inputs in
    let (grouped, is_grouped, after_groups) =
      >>=-eq-ok (group_by_field request.claims (empty_groups (keys state_field_rules))) _
        after_declared in
    let (fields, is_projected, after_fields) =
      >>=-eq-ok (project_fields reader grouped sorted_field_names) _ after_groups in
    let made =
      projection_of p request.subject_id (inputs_of request) fields
        (sort (set_of request.exclusions)) in
    let (checked, after_check) = >>-eq-ok (check_state_projection p made) _ after_fields in
    let (small, after_size) =
      >>-eq-ok
        (raise_if (ltb max_projection_bytes (utf8_size (projection_to_json made)))
          projection_bytes_limit)
        _ after_check in
    let same = make_result-eq-ok p request made after_size in
    let reduced : Reduced reader request.claims fields = record {
      grouped = grouped;
      is_grouped = is_grouped;
      is_projected = is_projected;
    } in
    let same_fields = sym (ap (λ r. r.fields) same) in
    record {
      is_about = raise_if-eq-ok _ claim_subject_differs subject;
      is_ordered = ids;
      is_given = raise_if-eq-ok _ no_inputs some_input;
      reduced = subst (Reduced reader request.claims) same_fields reduced;
      is_declared = not-eq-false _ (raise_if-eq-ok _ undeclared_inputs declared);
      is_result =
          subst
            (λ fs.
              result.projection
              ≡ projection_of p request.subject_id (inputs_of request) fs
                  (sort (set_of request.exclusions)))
            same_fields same;
      is_checked = subst (λ r. check_state_projection p r ≡ ok tt) (sym same) checked;
      is_small =
          subst (λ r. ltb max_projection_bytes (utf8_size (projection_to_json r)) ≡ false)
            (sym same) (raise_if-eq-ok _ projection_bytes_limit small);
    }
