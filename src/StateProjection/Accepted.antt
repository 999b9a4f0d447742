-- ===== src/StateProjection/Accepted.antt =====
-- What `StateClaim.__post_init__` has established of a claim that it accepts.
use projectkoios_references.Prelude.{
  >>-eq-ok, Option, Option-cases, [], ap, arith, eq_of_==, err, get, inl, inr, list_eq, list_ord,
  nat_eq, nat_ord, none, not, not-eq-false, ok, option_eq, pair_eq, pair_ord, raise_if,
  raise_if-eq-ok, refl, some, true, ◌∷◌, ◌≡◌,
}
use projectkoios_references.Text.{Text, codes}
use projectkoios_references.StateProjection.{
  kind_eq, knowledge_eq, StateClaim, StateKnowledge, StateFieldRule, observed, unknown,
  not_observed, not_applicable, unsupported_field,
}
use projectkoios_references.StateProjection.Rules.{state_field_rules}
use projectkoios_references.StateProjection.Values.{
  JsonReader, content_identity, safe_locator, parse_canonical_value,
}
use projectkoios_references.StateProjection.Fields.{text_or_empty}
use projectkoios_references.StateProjection.Claims.{
  accepts, check_claim_actor, check_knowledge, check_observed_value, check_rule, check_claim,
}

pub record IsAccepted (reader : JsonReader) (c : StateClaim) : Type 0 where
  pub rule : StateFieldRule
  pub known : get c.field state_field_rules ≡ some rule
  pub kind_allowed : accepts rule.allowed_record_kinds c.record_kind ≡ true
  pub owner : c.authority_owner ≡ rule.authority_owner
  pub subject : content_identity c.subject_id (codes "state subject_id") ≡ ok tt
  pub input : content_identity c.authoritative_input_id (codes "authoritative_input_id") ≡ ok tt
  pub locator : safe_locator c.source_locator ≡ ok tt
  pub actor : check_claim_actor c ≡ ok tt
  pub value : check_knowledge reader c.field c.knowledge c.value_json ≡ ok tt

rule_found :
    (c : StateClaim)
    → (elim (get c.field state_field_rules) [
      | none ↦ err (unsupported_field c.field)
      | some rule ↦ check_rule c rule
    ])
      ≡ ok tt
    → (rule : StateFieldRule) × (get c.field state_field_rules ≡ some rule)
      × (check_rule c rule ≡ ok tt)
rule_found c h = elim (Option-cases (get c.field state_field_rules)) [
  | inl missing ↦ cc (rw missing at h)
  | inr (rule, found) ↦ (rule, found, rw found at h)
]

pub check_claim-eq-ok :
    (reader : JsonReader) (c : StateClaim) → check_claim reader c ≡ ok tt → IsAccepted reader c
unfolding check_claim check_rule
check_claim-eq-ok reader c h =
    let (subject, after_subject) =
      >>-eq-ok (content_identity c.subject_id (codes "state subject_id")) _ h in
    let (ruled, after_rule) = >>-eq-ok _ _ after_subject in
    let (rule, known, checked) = rule_found c ruled in
    let (kind, owner) =
      >>-eq-ok (raise_if (not (accepts rule.allowed_record_kinds c.record_kind)) _) _ checked in
    let (input, after_input) =
      >>-eq-ok (content_identity c.authoritative_input_id (codes "authoritative_input_id")) _
        after_rule in
    let (locator, after_locator) = >>-eq-ok (safe_locator c.source_locator) _ after_input in
    let (actor, value) = >>-eq-ok (check_claim_actor c) _ after_locator in
    record {
      rule = rule;
      known = known;
      kind_allowed = not-eq-false _ (raise_if-eq-ok _ _ kind);
      owner =
          eq_of_== c.authority_owner rule.authority_owner
            (not-eq-false _ (raise_if-eq-ok _ _ owner));
      subject = subject;
      input = input;
      locator = locator;
      actor = actor;
      value = value;
    }

-- A value is not the empty text.
pub check_knowledge-some_empty :
    (reader : JsonReader) (name : Text) (k : StateKnowledge) (v : Option Text)
    → check_knowledge reader name k v ≡ ok tt
    → v ≡ some []
    → ⊥
unfolding check_knowledge check_observed_value parse_canonical_value
check_knowledge-some_empty reader name observed none h e = cc
check_knowledge-some_empty reader name unknown none h e = cc
check_knowledge-some_empty reader name not_observed none h e = cc
check_knowledge-some_empty reader name not_applicable none h e = cc
check_knowledge-some_empty reader name observed (some (c ∷ s)) h e = cc
check_knowledge-some_empty reader name observed (some []) h e = ground (arith, reader.loads_empty)
check_knowledge-some_empty reader name unknown (some s) h e = cc
check_knowledge-some_empty reader name not_observed (some s) h e = cc
check_knowledge-some_empty reader name not_applicable (some s) h e = cc

pub text_or_empty-injective :
    (v w : Option Text)
    → (v ≡ some [] → ⊥)
    → (w ≡ some [] → ⊥)
    → text_or_empty v ≡ text_or_empty w
    → v ≡ w
text_or_empty-injective none none f g h = refl
text_or_empty-injective none (some []) f g h = absurd (g refl)
text_or_empty-injective none (some (c ∷ s)) f g h = cc
text_or_empty-injective (some []) w f g h = absurd (f refl)
text_or_empty-injective (some (c ∷ s)) none f g h = cc
text_or_empty-injective (some (c ∷ s)) (some t) f g h = ap some h
