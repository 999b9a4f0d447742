-- ===== src/StateProjection/Provenance.antt =====
-- Who may decide a field: the actor provenance of accepted claims and of projected decisions.
use projectkoios_references.Prelude.{
  >>-eq-ok, In, Option, Option-cases, ap, eq_of_==, get, inl, inr, list_eq, list_ord, nat_eq,
  nat_ord, none, not, not-eq-false, ok, option_eq, pair_eq, pair_ord, raise_if, raise_if-eq-ok,
  refl, some, sym, true, ◌==◌, ◌||◌, ◌∙◌, ◌≡◌,
}
use projectkoios_references.Text.{Text, codes, Platform}
use projectkoios_references.Review.Checks.{matches_content_id}
use projectkoios_references.StateProjection.{
  kind_eq, knowledge_eq, StateClaim, StateRecordKind, ProjectedField, ProjectedValue,
  human_decision, immutable_observation, immutable_proposal, wrong_scope, actor_unexpected,
}
use projectkoios_references.StateProjection.Rules.{human_decision_scope_by_field}
use projectkoios_references.StateProjection.Values.{JsonReader, bounded_text, content_identity}
use projectkoios_references.StateProjection.Claims.{
  is_expected_scope, check_decision_actor, check_claim_actor, check_claim,
}
use projectkoios_references.StateProjection.Accepted.{check_claim-eq-ok}
use projectkoios_references.StateProjection.Requests.{ReferenceStateReplayRequest}
use projectkoios_references.StateProjection.Replay.{ReferenceStateReplayResult, replay}
use projectkoios_references.StateProjection.Represents.{Supports, values-IsCited}
use projectkoios_references.StateProjection.Order.{AllAccepted}

-- An actor who is named, who holds the scope that the field asks for, and whose identity a record verifies.
pub record HasProvenance (c : StateClaim) : Type 0 where
  pub actor : Text
  pub scope : Text
  pub verification : Text
  pub names_actor : c.actor_id ≡ some actor
  pub names_scope : c.authority_scope ≡ some scope
  pub names_verification : c.actor_verification_record_id ≡ some verification
  pub right_scope : get c.field human_decision_scope_by_field ≡ some scope
  pub right_verification : matches_content_id verification ≡ true

-- No part of an actor's provenance.
abbrev pub LacksProvenance : StateClaim → Type 0
LacksProvenance c =
    (c.actor_id ≡ none) × (c.authority_scope ≡ none) × (c.actor_verification_record_id ≡ none)

is_expected_scope-eq-true :
    (name scope : Text)
    → is_expected_scope name scope ≡ true
    → get name human_decision_scope_by_field ≡ some scope
is_expected_scope-eq-true name scope h =
    elim (Option-cases (get name human_decision_scope_by_field)) [
      | inl missing ↦ cc (rw (missing, is_expected_scope) at h)
      | inr (expected, found) ↦
          found ∙ ap some (sym (eq_of_== scope expected (rw (found, is_expected_scope) at h)))
    ]

check_decision_actor-eq-ok :
    (name : Text) (a s v : Option Text)
    → check_decision_actor name a s v ≡ ok tt
    → (actor : Text) × (scope : Text) × (verification : Text) × (a ≡ some actor)
      × (s ≡ some scope)
      × (v ≡ some verification)
      × (get name human_decision_scope_by_field ≡ some scope)
      × (matches_content_id verification ≡ true)
unfolding check_decision_actor content_identity
check_decision_actor-eq-ok name none s v h = cc
check_decision_actor-eq-ok name (some a) none v h = cc
check_decision_actor-eq-ok name (some a) (some s) none h = cc
check_decision_actor-eq-ok name (some a) (some s) (some v) h =
    let (bounded_actor, after_actor) = >>-eq-ok (bounded_text a (codes "decision actor_id")) _ h in
    let (bounded_scope, after_scope) =
      >>-eq-ok (bounded_text s (codes "decision authority_scope")) _ after_actor in
    let (expected, verified) =
      >>-eq-ok (raise_if (not (is_expected_scope name s)) (wrong_scope name)) _ after_scope in
    (
      a,
      s,
      v,
      refl,
      refl,
      refl,
      is_expected_scope-eq-true name s
          (not-eq-false _ (raise_if-eq-ok _ (wrong_scope name) expected)),
      not-eq-false _ (raise_if-eq-ok _ _ verified),
    )

abbrev IsAuthored : StateClaim → StateRecordKind → Type 0
IsAuthored c human_decision = HasProvenance c
IsAuthored c immutable_observation = LacksProvenance c
IsAuthored c immutable_proposal = LacksProvenance c

observation_actor :
    (a s v : Option Text)
    → raise_if (not (a == none) || not (s == none) || not (v == none)) actor_unexpected ≡ ok tt
    → (a ≡ none) × (s ≡ none) × (v ≡ none)
observation_actor none none none h = (refl, refl, refl)
observation_actor none none (some v) h = cc
observation_actor none (some s) v h = cc
observation_actor (some a) s v h = cc

check_claim_actor-IsAuthored :
    (c : StateClaim) (k : StateRecordKind)
    → c.record_kind ≡ k
    → check_claim_actor c ≡ ok tt
    → IsAuthored c k
unfolding check_claim_actor
check_claim_actor-IsAuthored c human_decision e h =
    let (a, s, v, na, ns, nv, scope, verified) =
      check_decision_actor-eq-ok c.field c.actor_id c.authority_scope c.actor_verification_record_id
        (rw e at h) in
    record {
      actor = a;
      scope = s;
      verification = v;
      names_actor = na;
      names_scope = ns;
      names_verification = nv;
      right_scope = scope;
      right_verification = verified;
    }
check_claim_actor-IsAuthored c immutable_observation e h =
    observation_actor c.actor_id c.authority_scope c.actor_verification_record_id (rw e at h)
check_claim_actor-IsAuthored c immutable_proposal e h =
    observation_actor c.actor_id c.authority_scope c.actor_verification_record_id (rw e at h)

-- A claim that is accepted carries an actor's full provenance with the scope that its field asks for where
-- it is a human decision, and none of it where it is an observation or a proposal.
pub check_claim-IsAuthored :
    (reader : JsonReader) (c : StateClaim)
    → check_claim reader c ≡ ok tt
    → IsAuthored c c.record_kind
check_claim-IsAuthored reader c h =
    check_claim_actor-IsAuthored c c.record_kind refl (check_claim-eq-ok reader c h).actor

-- Where a replay of accepted claims projects a value as a human decision, one of the claims for that value
-- in that field was made by an actor with the scope that the field asks for.
pub decisions-HasProvenance :
    (reader : JsonReader) (p : Platform) (request : ReferenceStateReplayRequest)
    {result : ReferenceStateReplayResult}
    → AllAccepted reader request.claims
    → replay reader p request ≡ ok result
    → (f : ProjectedField) (v : ProjectedValue) → In f result.projection.fields
    → In v f.values
    → In human_decision v.record_kinds
    → (c : StateClaim) × Supports request.claims f.field v c × HasProvenance c
decisions-HasProvenance reader p request accepted h f v m n k =
    let (supported, ids, kinds, locators) = values-IsCited reader p request h f v m n in
    let (c, (found, here, key), same) = kinds human_decision k in
    (
      c,
      (found, here, key),
      check_claim_actor-IsAuthored c human_decision (sym same)
          (check_claim-eq-ok reader c (accepted c found)).actor,
    )
