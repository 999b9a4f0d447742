-- ===== src/Review/Authority.antt =====
-- What the checks of `TechnicalReviewRecord` and `HumanReviewDecision` guarantee of who made a
-- record, and of the records that `create` returns.
use projectkoios_references.Prelude.{
  >>-eq-ok, Bool, Bool-cases, In, List, [], any, arith, eq_of_==, false, inl, inr, list_eq,
  list_ord, nat_eq, nat_ord, ne_of_==, not, not-eq-false, ok, option_eq, or-eq-false, raise_if,
  raise_if-eq-ok, sym, true, ◌&&◌, ◌==◌, ◌||◌, ◌∙◌, ◌∷◌, ◌≡◌, ◌≢◌,
}
use projectkoios_references.Text.{Text, codes, Platform}
use projectkoios_references.Review.Types.{
  HumanReviewDimension, ReviewActorKind, ReviewAuthorityScope, claim_support_in_reference_domain,
  decisions_by_dimension, is_claim_support, is_person, is_reference_owned, is_technical, person,
  requires_reference_domain, same_scope, scope_by_dimension, technical_processor,
  technical_requires_processor_authority, unsupported_authority_kind, unsupported_schema,
}
use projectkoios_references.Review.Records.{
  TechnicalReviewRecord, HumanReviewDecision, validate_effective_limits, validate_common_record,
}
use projectkoios_references.Review.Checks.{bounded, content_id}
use projectkoios_references.Review.Authoring.{
  reference_domain, human_authority, technical_authority, check_technical, check_human,
}

same_scope-eq : (a b : ReviewAuthorityScope) → same_scope a b ≡ true → a ≡ b
same_scope-eq a b h = ground arith

is_person-eq : (k : ReviewActorKind) → is_person k ≡ true → k ≡ person
is_person-eq k h = ground arith

is_person-ne : (k : ReviewActorKind) → is_person k ≡ false → k ≢ person
is_person-ne k h = ground arith

is_technical-eq : (s : ReviewAuthorityScope) → is_technical s ≡ true → s ≡ technical_processor
is_technical-eq s h = ground arith

-- Human dimensions never call for the scope of technical processors.
scope_by_dimension-human : (d : HumanReviewDimension) → scope_by_dimension d ≢ technical_processor
scope_by_dimension-human d = ground arith

any-In : (x : Text) (xs : List Text) → any (λ v. x == v) xs ≡ true → In x xs
any-In x [] h = ground arith
any-In x (v ∷ vs) h = elim (Bool-cases (x == v)) [
  | inl e ↦ inl (eq_of_== x v e)
  | inr e ↦ inr (any-In x vs (cc (rw e at h)))
]

own_domain-eq :
    (owned : Bool) (a : Text)
    → owned ≡ true
    → (owned && not (a == reference_domain)) ≡ false
    → a ≡ reference_domain
own_domain-eq false a m h = ground arith
own_domain-eq true a m h = eq_of_== _ _ (not-eq-false _ h)

other_domain-ne :
    (claims : Bool) (a : Text)
    → claims ≡ true
    → (claims && a == reference_domain) ≡ false
    → a ≢ reference_domain
other_domain-ne false a m h = ground arith
other_domain-ne true a m h = ne_of_== _ _ h

-- What a human decision's actor must be.
pub record IsAuthorised (d : HumanReviewDecision) : Type 0 where
  pub by_person : d.actor.actor_kind ≡ person
  pub in_scope : d.actor.authority_scope ≡ scope_by_dimension d.dimension
  pub in_table : In d.decision (decisions_by_dimension d.dimension)
  pub own_domain :
      is_reference_owned d.dimension ≡ true → d.actor.authority_domain ≡ reference_domain
  pub other_domain :
      is_claim_support d.dimension ≡ true → d.actor.authority_domain ≢ reference_domain

module _ (p : Platform) where
  -- A human decision that its checks accept is made by a person, in the scope that its dimension
  -- calls for, with one of the dimension's decisions; the domain is this project's on the
  -- dimensions that references own, and never this project's on support of claims.
  pub check_human-IsAuthorised :
      (d : HumanReviewDecision) → check_human p d ≡ ok tt → IsAuthorised d
  unfolding check_human
  check_human-IsAuthorised d h =
      let (a, h1) = >>-eq-ok (raise_if (not (d.schema_version == 1)) unsupported_schema) _ h in
      let (b, h2) =
        >>-eq-ok (raise_if (not (d.authority_kind == human_authority)) unsupported_authority_kind) _
          h1 in
      let (c, h3) =
        >>-eq-ok (validate_effective_limits p d.effective_limits d.effective_limits_id) _ h2 in
      let (e, h4) = >>-eq-ok (content_id d.subject_id (codes "subject_id")) _ h3 in
      let (f, h5) = >>-eq-ok (bounded d.context_id (codes "context_id")) _ h4 in
      let (decision, h6) = >>-eq-ok _ _ h5 in
      let (g, h7) =
        >>-eq-ok
          (validate_common_record p d.transition_kind d.actor d.evidence_ids d.rationale
            d.decided_at d.supersedes_decision_id)
          _ h6 in
      let (actor, h8) = >>-eq-ok _ _ h7 in
      let (owned, h9) =
        >>-eq-ok
          (raise_if
            (is_reference_owned d.dimension && not (d.actor.authority_domain == reference_domain))
            requires_reference_domain)
          _ h8 in
      let (claims, _) =
        >>-eq-ok
          (raise_if (is_claim_support d.dimension && d.actor.authority_domain == reference_domain)
            claim_support_in_reference_domain)
          _ h9 in
      let human = or-eq-false _ _ (raise_if-eq-ok _ _ actor) in
      record {
        by_person = is_person-eq _ (not-eq-false _ human.0);
        in_scope = same_scope-eq _ _ (not-eq-false _ human.1);
        in_table = any-In _ _ (not-eq-false _ (raise_if-eq-ok _ _ decision));
        own_domain = λ m. own_domain-eq _ _ m (raise_if-eq-ok _ _ owned);
        other_domain = λ m. other_domain-ne _ _ m (raise_if-eq-ok _ _ claims);
      }

  technical_actor :
      (r : TechnicalReviewRecord)
      → check_technical p r ≡ ok tt
      → (r.actor.actor_kind ≢ person) × (r.actor.authority_scope ≡ technical_processor)
  unfolding check_technical
  technical_actor r h =
      let (a, h1) = >>-eq-ok (raise_if (not (r.schema_version == 1)) unsupported_schema) _ h in
      let (b, h2) =
        >>-eq-ok
          (raise_if (not (r.authority_kind == technical_authority)) unsupported_authority_kind) _
          h1 in
      let (c, h3) =
        >>-eq-ok (validate_effective_limits p r.effective_limits r.effective_limits_id) _ h2 in
      let (e, h4) = >>-eq-ok (content_id r.subject_id (codes "subject_id")) _ h3 in
      let (f, h5) = >>-eq-ok (bounded r.context_id (codes "context_id")) _ h4 in
      let (g, h6) =
        >>-eq-ok
          (validate_common_record p r.transition_kind r.actor r.evidence_ids r.rationale
            r.observed_at r.supersedes_record_id)
          _ h5 in
      let (actor, _) =
        >>-eq-ok
          (raise_if (is_person r.actor.actor_kind || not (is_technical r.actor.authority_scope))
            technical_requires_processor_authority)
          _ h6 in
      let processor = or-eq-false _ _ (raise_if-eq-ok _ _ actor) in
      (
        is_person-ne r.actor.actor_kind processor.0,
        is_technical-eq r.actor.authority_scope (not-eq-false _ processor.1),
      )

  -- A technical record that its checks accept is not made by a person and carries the scope of technical
  -- processors; a human decision that its checks accept is made by a person and carries another scope. So the
  -- two differ in their actor's kind and in its scope.
  pub authority-separation :
      (r : TechnicalReviewRecord) (d : HumanReviewDecision)
      → check_technical p r ≡ ok tt
      → check_human p d ≡ ok tt
      → (r.actor.actor_kind ≢ person)
        × (d.actor.actor_kind ≡ person)
        × (r.actor.authority_scope ≡ technical_processor)
        × (d.actor.authority_scope ≢ technical_processor)
        × (r.actor.actor_kind ≢ d.actor.actor_kind)
        × (r.actor.authority_scope ≢ d.actor.authority_scope)
  authority-separation r d h k =
      let a = technical_actor r h in
      let b = check_human-IsAuthorised d k in
      let other = λ (e : d.actor.authority_scope ≡ technical_processor).
        scope_by_dimension-human d.dimension (sym b.in_scope ∙ e) in
      (a.0, b.by_person, a.1, other, (λ e. a.0 (e ∙ b.by_person)), (λ e. other (sym e ∙ a.1)))
