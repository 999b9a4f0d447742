-- ===== src/StateProjection/Claims.antt =====
-- `StateClaim` of state_projection.py: the checks of its `__post_init__` and its factories.
use projectkoios_references.Prelude.{
  Bool, List, Option, Result, [], any, err, false, get, if◌then◌else◌, list_eq, list_ord, nat_eq,
  nat_ord, none, not, ok, option_eq, pair_eq, pair_ord, raise_if, some, true, ◌==◌, ◌>>=◌, ◌>>◌,
  ◌||◌,
}
use projectkoios_references.Text.{Text, codes}
use projectkoios_references.Json.{Json, null, compact_json}
use projectkoios_references.StateProjection.{
  kind_eq, knowledge_eq, StateError, StateClaim, StateKnowledge, StateRecordKind, StateFieldRule,
  observed, human_decision, immutable_observation, unsupported_field, kind_not_accepted,
  wrong_owner, wrong_scope, actor_required, actor_unexpected, value_required, value_is_null,
  value_unexpected, decision_by_factory, observed_by_unavailable, unavailable_not_accepted,
}
use projectkoios_references.StateProjection.Rules.{state_field_rules, human_decision_scope_by_field}
use projectkoios_references.StateProjection.Values.{
  JsonReader, max_value_bytes, bounded_text, content_identity, safe_locator, parse_canonical_value,
}
use projectkoios_references.StateProjection.Contracts.{validate_state_value}

abbrev pub accepts : List StateRecordKind → StateRecordKind → Bool
accepts kinds kind = any (λ k. kind == k) kinds

-- The scope that a person needs to decide the field.
abbrev pub is_expected_scope : Text → Text → Bool
is_expected_scope name scope = elim (get name human_decision_scope_by_field) [
  | none ↦ false
  | some expected ↦ scope == expected
]

-- The provenance of a decision.
unfoldable pub check_decision_actor :
    Text → Option Text → Option Text → Option Text → Result StateError (Unit {0})
unfolding get human_decision_scope_by_field bounded_text content_identity
check_decision_actor name (some actor) (some scope) (some verification) = do
  bounded_text actor (codes "decision actor_id")
  bounded_text scope (codes "decision authority_scope")
  raise_if (not (is_expected_scope name scope)) (wrong_scope name)
  content_identity verification (codes "decision actor verification")
check_decision_actor name _ _ _ = err actor_required

unfoldable pub check_claim_actor : StateClaim → Result StateError (Unit {0})
unfolding check_decision_actor
check_claim_actor c =
    if c.record_kind == human_decision
    then check_decision_actor c.field c.actor_id c.authority_scope c.actor_verification_record_id
    else raise_if
        (not (c.actor_id == none)
          || not (c.authority_scope == none)
          || not (c.actor_verification_record_id == none))
        actor_unexpected

abbrev is_null : Json → Bool
is_null null = true
is_null _ = false

-- What the value of an observation must be.
unfoldable pub check_observed_value : JsonReader → Text → Text → Result StateError (Unit {0})
unfolding parse_canonical_value validate_state_value
check_observed_value reader name text = do
  value ← parse_canonical_value reader max_value_bytes text
  raise_if (is_null value) value_is_null
  validate_state_value name value

unfoldable pub check_knowledge :
    JsonReader → Text → StateKnowledge → Option Text → Result StateError (Unit {0})
unfolding check_observed_value
check_knowledge reader name observed none = err value_required
check_knowledge reader name observed (some text) = check_observed_value reader name text
check_knowledge reader name k none = ok tt
check_knowledge reader name k (some text) = err value_unexpected

unfoldable pub check_rule : StateClaim → StateFieldRule → Result StateError (Unit {0})
check_rule c rule = do
  raise_if (not (accepts rule.allowed_record_kinds c.record_kind)) (kind_not_accepted c.field)
  raise_if (not (c.authority_owner == rule.authority_owner)) (wrong_owner c.field)

-- `StateClaim.__post_init__`
unfoldable pub check_claim : JsonReader → StateClaim → Result StateError (Unit {0})
unfolding content_identity get state_field_rules check_rule safe_locator check_claim_actor
    check_knowledge
check_claim reader c = do
  content_identity c.subject_id (codes "state subject_id")
  elim (get c.field state_field_rules) [
    | none ↦ err (unsupported_field c.field)
    | some rule ↦ check_rule c rule
  ]
  content_identity c.authoritative_input_id (codes "authoritative_input_id")
  safe_locator c.source_locator
  check_claim_actor c
  check_knowledge reader c.field c.knowledge c.value_json

unfoldable pub make_claim : JsonReader → StateClaim → Result StateError StateClaim
unfolding check_claim
make_claim reader c = do check_claim reader c; ok c

-- `authority_owner or rule.authority_owner`: None and the empty text give the rule's owner.
abbrev owner_or : Option Text → Text → Text
owner_or none owner = owner
owner_or (some s) owner = if s == [] then owner else s

-- The arguments that both factories take.
pub record ClaimSource : Type 0 where
  pub subject_id : Text
  pub field : Text
  pub authoritative_input_id : Text
  pub source_locator : Text

-- `StateClaim.observed`
unfoldable pub observed_claim :
    JsonReader
    → ClaimSource
    → Json
    → StateRecordKind
    → Option Text
    → Option Text
    → Option Text
    → Option Text
    → Result StateError StateClaim
unfolding get state_field_rules compact_json make_claim
observed_claim reader source value kind owner actor scope verification =
    elim (get source.field state_field_rules) [
      | none ↦ err (unsupported_field source.field)
      | some rule ↦ do
        raise_if (kind == human_decision) decision_by_factory
        make_claim reader (record {
          subject_id = source.subject_id;
          field = source.field;
          knowledge = observed;
          value_json = some (compact_json value);
          record_kind = kind;
          authority_owner = owner_or owner rule.authority_owner;
          authoritative_input_id = source.authoritative_input_id;
          source_locator = source.source_locator;
          actor_id = actor;
          authority_scope = scope;
          actor_verification_record_id = verification;
        })
    ]

-- `StateClaim.unavailable`
unfoldable pub unavailable_claim :
    JsonReader → ClaimSource → StateKnowledge → Result StateError StateClaim
unfolding get state_field_rules make_claim
unavailable_claim reader source knowledge = do
  raise_if (knowledge == observed) observed_by_unavailable
  elim (get source.field state_field_rules) [
    | none ↦ err (unavailable_not_accepted source.field)
    | some rule ↦ do
      raise_if (not (accepts rule.allowed_record_kinds immutable_observation))
          (unavailable_not_accepted source.field)
      make_claim reader (record {
        subject_id = source.subject_id;
        field = source.field;
        knowledge = knowledge;
        value_json = none;
        record_kind = immutable_observation;
        authority_owner = rule.authority_owner;
        authoritative_input_id = source.authoritative_input_id;
        source_locator = source.source_locator;
        actor_id = none;
        authority_scope = none;
        actor_verification_record_id = none;
      })
  ]
