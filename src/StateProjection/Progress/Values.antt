-- ===== src/StateProjection/Progress/Values.antt =====
-- A value that is projected from accepted claims passes its checks, but for the CSV limit.
use projectkoios_references.Prelude.{
  ==_refl, >>-ok, >>=-eq-ok, >>=-ok, In, In-select, In-select_inverse, In-sorted_image,
  In-sorted_image_inverse, List, Option, [], eq_of_==, inl, inr, list_eq, list_ord, map, nat_eq,
  nat_ord, none, not, ok, option_eq, pair_eq, pair_ord, refl, set_of, some, sort,
  sort-set_of_canonical, subst, sym, true, ◌==◌, ◌∷◌, ◌≡◌,
}
use projectkoios_references.Text.{Text, codes}
use projectkoios_references.Review.Checks.{matches_content_id}
use projectkoios_references.StateProjection.{
  kind_eq, kind_ord, knowledge_eq, StateKnowledge, StateClaim, observed, unknown, not_observed,
  not_applicable, record_kind_value, no_authority_input, kinds_empty, kinds_not_canonical,
  locators_not_canonical,
}
use projectkoios_references.StateProjection.Values.{
  JsonReader, max_value_bytes, safe_locator, parse_canonical_value, ordered_unique_content_ids,
}
use projectkoios_references.StateProjection.Claims.{check_knowledge, check_observed_value}
use projectkoios_references.StateProjection.Fields.{
  each_safe_locator, check_presence, check_projected_value,
}
use projectkoios_references.StateProjection.Accepted.{IsAccepted, check_claim-eq-ok}
use projectkoios_references.StateProjection.Reduce.{
  claim_key, Group, projected_value, project_values,
}
use projectkoios_references.StateProjection.Groups.{groups_of}
use projectkoios_references.StateProjection.Represents.{In-groups_of}
use projectkoios_references.StateProjection.Order.{AllAccepted}
use projectkoios_references.StateProjection.Progress.{
  OnlyLimits, OnlyLimits-ok, OnlyLimits->>, OnlyLimits->>=, OnlyLimits-after, OnlyLimits-unless,
  OnlyLimits-after_csv, content_identity-eq-ok, ordered_unique_content_ids_ok, not-nil, not-==,
}

each_safe_locator_ok :
    (ss : List Text)
    → ((s : Text) → In s ss → safe_locator s ≡ ok tt)
    → each_safe_locator ss ≡ ok tt
unfolding each_safe_locator
each_safe_locator_ok [] h = refl
each_safe_locator_ok (s ∷ ss) h =
    >>-ok (safe_locator s) _ (h s (inl refl)) (each_safe_locator_ok ss (λ t m. h t (inr m)))

check_observed-present :
    (reader : JsonReader) (name text : Text)
    → check_observed_value reader name text ≡ ok tt
    → check_presence reader observed (some text) ≡ ok tt
unfolding check_observed_value check_presence
check_observed-present reader name text h =
    let (value, parsed, rest) = >>=-eq-ok (parse_canonical_value reader max_value_bytes text) _ h in
    >>=-ok (parse_canonical_value reader max_value_bytes text) _ parsed refl

check_knowledge-present :
    (reader : JsonReader) (name : Text) (k : StateKnowledge) (v : Option Text)
    → check_knowledge reader name k v ≡ ok tt
    → check_presence reader k v ≡ ok tt
unfolding check_knowledge check_presence
check_knowledge-present reader name observed none h = cc
check_knowledge-present reader name observed (some text) h =
    check_observed-present reader name text h
check_knowledge-present reader name unknown none h = refl
check_knowledge-present reader name unknown (some text) h = cc
check_knowledge-present reader name not_observed none h = refl
check_knowledge-present reader name not_observed (some text) h = cc
check_knowledge-present reader name not_applicable none h = refl
check_knowledge-present reader name not_applicable (some text) h = cc

-- What the checks need of the members of a group.
pub record IsGroup (reader : JsonReader) (g : Group) : Type 0 where
  pub first : StateClaim
  pub in_group : In first g.1
  pub accepted : (c : StateClaim) → In c g.1 → IsAccepted reader c
  pub same_key : (c : StateClaim) → In c g.1 → claim_key c ≡ g.0

pub In-groups_of-IsGroup :
    (reader : JsonReader) (cs : List StateClaim) (g : Group)
    → AllAccepted reader cs
    → In g (groups_of cs)
    → IsGroup reader g
In-groups_of-IsGroup reader cs g accepted m =
    let (same, (c, found, key)) = In-groups_of cs g m in
    let chosen : (d : StateClaim) → In d g.1 → In d cs × ((claim_key d == g.0) ≡ true) =
      λ d n. In-select (λ x. claim_key x == g.0) d cs (subst (In d) same n) in
    record {
      first = c;
      in_group = subst (In c) (sym same) (
          In-select_inverse (λ x. claim_key x == g.0) c cs found
            (subst (λ k. (claim_key c == k) ≡ true) key (==_refl (claim_key c))));
      accepted = λ d n. check_claim-eq-ok reader d (accepted d (chosen d n).0);
      same_key = λ d n. eq_of_== (claim_key d) g.0 (chosen d n).1;
    }

IsGroup-present :
    (reader : JsonReader) (g : Group) → IsGroup reader g → check_presence reader g.0.0 g.0.1 ≡ ok tt
IsGroup-present reader g w =
    subst (λ k. check_presence reader k.0 k.1 ≡ ok tt) (w.same_key w.first w.in_group)
      (check_knowledge-present reader w.first.field w.first.knowledge w.first.value_json
        (w.accepted w.first w.in_group).value)

-- A projected value's checks raise only the CSV limit.
pub check_projected_value-OnlyLimits :
    (reader : JsonReader) (g : Group)
    → IsGroup reader g
    → OnlyLimits (check_projected_value reader (projected_value g))
unfolding check_projected_value projected_value
check_projected_value-OnlyLimits reader g w =
    let ids = sort (set_of (map (λ c. c.authoritative_input_id) g.1)) in
    let kinds = sort (set_of (map (λ c. c.record_kind) g.1)) in
    let locators = sort (set_of (map (λ c. c.source_locator) g.1)) in
    let identities : (s : Text) → In s ids → matches_content_id s ≡ true = λ s m.
      let (c, found, same) = In-sorted_image (λ x. x.authoritative_input_id) s g.1 m in
      subst (λ t. matches_content_id t ≡ true) (sym same)
        (content_identity-eq-ok c.authoritative_input_id _ (w.accepted c found).input) in
    let safe : (s : Text) → In s locators → safe_locator s ≡ ok tt = λ s m.
      let (c, found, same) = In-sorted_image (λ x. x.source_locator) s g.1 m in
      subst (λ t. safe_locator t ≡ ok tt) (sym same) (w.accepted c found).locator in
    let has_id =
      not-nil w.first.authoritative_input_id ids
        (In-sorted_image_inverse (λ x. x.authoritative_input_id) w.first g.1 w.in_group) in
    let has_kind =
      not-nil w.first.record_kind kinds
        (In-sorted_image_inverse (λ x. x.record_kind) w.first g.1 w.in_group) in
    let ids_ok =
      ordered_unique_content_ids_ok ids (codes "projected authoritative inputs")
        (sort-set_of_canonical (map (λ c. c.authoritative_input_id) g.1)) identities in
    let kinds_ok =
      not-== (sort (set_of kinds)) kinds (sort-set_of_canonical (map (λ c. c.record_kind) g.1)) in
    let locators_ok =
      not-== (sort (set_of locators)) locators
        (sort-set_of_canonical (map (λ c. c.source_locator) g.1)) in
    OnlyLimits-after (ordered_unique_content_ids ids (codes "projected authoritative inputs")) _
      ids_ok
      (OnlyLimits-unless (ids == []) no_authority_input _ has_id (
        OnlyLimits-unless (kinds == []) kinds_empty _ has_kind (
          OnlyLimits-unless (not (sort (set_of kinds) == kinds)) kinds_not_canonical _ kinds_ok (
            OnlyLimits-unless (not (sort (set_of locators) == locators)) locators_not_canonical _
              locators_ok
              (OnlyLimits-after (each_safe_locator locators) _ (each_safe_locator_ok locators safe)
                (OnlyLimits-after_csv ids _ _ (
                  OnlyLimits-after_csv (map record_kind_value kinds) _ _ (
                    OnlyLimits-after_csv locators _ _
                      (OnlyLimits-ok tt (IsGroup-present reader g w))))))))))

pub project_values-OnlyLimits :
    (reader : JsonReader) (gs : List Group)
    → ((g : Group) → In g gs → IsGroup reader g)
    → OnlyLimits (project_values reader gs)
unfolding project_values
project_values-OnlyLimits reader [] h = tt
project_values-OnlyLimits reader (g ∷ gs) h =
    OnlyLimits->> (check_projected_value reader (projected_value g)) _
      (check_projected_value-OnlyLimits reader g (h g (inl refl)))
      (OnlyLimits->>= (project_values reader gs) _
        (project_values-OnlyLimits reader gs (λ k m. h k (inr m))) (λ rest made. tt))
