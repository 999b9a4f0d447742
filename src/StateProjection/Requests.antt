-- ===== src/StateProjection/Requests.antt =====
-- ReferenceStateReplayRequest of state_projection_replay.py. Python's checks that a value has its declared
-- type hold by typing.
use projectkoios_references.Prelude.{
  List, Result, [], length, list_eq, list_ord, ltb, nat_eq, nat_ord, ok, option_eq, pair_eq,
  pair_ord, raise_if, ◌>>◌, ◌∷◌,
}
use projectkoios_references.Text.{Text, codes, Platform}
use projectkoios_references.Json.{Items, str, arr, obj, nil, cons, texts, optional, stable_id}
use projectkoios_references.Limits.{members}
use projectkoios_references.StateProjection.{
  kind_eq, kind_ord, knowledge_eq, StateError, StateClaim, record_kind_value, knowledge_value,
  claims_limit, inputs_limit, exclusions_limit,
}
use projectkoios_references.StateProjection.Values.{max_claims, content_identity}
use projectkoios_references.StateProjection.Projections.{max_inputs, max_exclusions}

pub record ReferenceStateReplayRequest : Type 0 where
  pub subject_id : Text
  pub claims : List StateClaim
  pub authoritative_input_ids : List Text
  pub exclusions : List Text
  pub request_id : Text

abbrev claims_json : List StateClaim → Items
claims_json [] = nil
claims_json (c ∷ cs) =
    cons
      (obj (
        members (
          (codes "actor_id", optional c.actor_id)
          ∷ (codes "actor_verification_record_id", optional c.actor_verification_record_id)
          ∷ (codes "authoritative_input_id", str c.authoritative_input_id)
          ∷ (codes "authority_owner", str c.authority_owner)
          ∷ (codes "authority_scope", optional c.authority_scope)
          ∷ (codes "field", str c.field)
          ∷ (codes "knowledge", str (knowledge_value c.knowledge))
          ∷ (codes "record_kind", str (record_kind_value c.record_kind))
          ∷ (codes "source_locator", str c.source_locator)
          ∷ (codes "subject_id", str c.subject_id)
          ∷ (codes "value_json", optional c.value_json)
          ∷ [])))
      (claims_json cs)

-- `_identity` of a request
unfoldable pub request_identity : Platform → Text → List StateClaim → List Text → List Text → Text
unfolding stable_id
request_identity p subject claims inputs exclusions =
    stable_id p (codes "reference-state-replay-request") (
      obj (
        members (
          (codes "authoritative_input_ids", arr (texts inputs))
          ∷ (codes "claims", arr (claims_json claims))
          ∷ (codes "exclusions", arr (texts exclusions))
          ∷ (codes "subject_id", str subject)
          ∷ [])))

-- `ReferenceStateReplayRequest.__post_init__`. The limits that `from_iterables` checks first on prefixes
-- of its iterables are the same.
unfoldable pub make_request :
    Platform
    → Text
    → List StateClaim
    → List Text
    → List Text
    → Result StateError ReferenceStateReplayRequest
unfolding content_identity request_identity
make_request p subject claims inputs exclusions = do
  content_identity subject (codes "subject_id")
  raise_if (ltb max_claims (length claims)) claims_limit
  raise_if (ltb max_inputs (length inputs)) inputs_limit
  raise_if (ltb max_exclusions (length exclusions)) exclusions_limit
  ok (record {
    subject_id = subject;
    claims = claims;
    authoritative_input_ids = inputs;
    exclusions = exclusions;
    request_id = request_identity p subject claims inputs exclusions;
  })
