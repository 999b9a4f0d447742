-- ===== src/StateProjection/Order.antt =====
-- The values of a field depend on which claims there are, not on their order or number.
use projectkoios_references.Prelude.{
  Distinct, Distinct-map_of, In, In-map, In-map_inverse, In-sort_by_inverse, Increasing,
  Increasing-sort, Increasing-unique, List, Option, SameElements, SameElements-select, [], ap,
  group_by, list_eq, list_ord, map, map-sort_by, map_agree, nat_eq, nat_ord, ok, option_eq, pair_eq,
  pair_ord, refl, select, some, sorted_image_unique, subst, sym, ◌==◌, ◌∙◌, ◌≡◌,
}
use projectkoios_references.Text.{Text}
use projectkoios_references.StateProjection.{
  kind_eq, kind_ord, knowledge_eq, StateKnowledge, StateClaim, knowledge_value,
  knowledge_value_injective,
}
use projectkoios_references.StateProjection.Values.{JsonReader}
use projectkoios_references.StateProjection.Fields.{text_or_empty}
use projectkoios_references.StateProjection.Claims.{check_claim}
use projectkoios_references.StateProjection.Accepted.{
  check_claim-eq-ok, check_knowledge-some_empty, text_or_empty-injective,
}
use projectkoios_references.StateProjection.Reduce.{
  claim_key, Group, group_identity, projected_value,
}
use projectkoios_references.StateProjection.Groups.{groups_of}
use projectkoios_references.StateProjection.Represents.{In-groups_of, In-groups_of_inverse}
use projectkoios_references.StateProjection.Resolutions.{Distinct-group_keys}

-- Each claim has passed its checks.
abbrev pub AllAccepted : JsonReader → List StateClaim → Type 0
AllAccepted reader cs = (c : StateClaim) → In c cs → check_claim reader c ≡ ok tt

claim-not_empty :
    (reader : JsonReader) (c : StateClaim)
    → check_claim reader c ≡ ok tt
    → c.value_json ≡ some []
    → ⊥
claim-not_empty reader c h =
    check_knowledge-some_empty reader c.field c.knowledge c.value_json
      (check_claim-eq-ok reader c h).value

-- Keys of accepted claims are told apart by what they are sorted by.
key_of_identity :
    (k j : StateKnowledge × Option Text)
    → (k.1 ≡ some [] → ⊥)
    → (j.1 ≡ some [] → ⊥)
    → ◌≡◌ {A = Text × Text}
        (knowledge_value k.0, text_or_empty k.1)
        (knowledge_value j.0, text_or_empty j.1)
    → k ≡ j
key_of_identity k j f g h =
    let same : k.0 ≡ j.0 = knowledge_value_injective k.0 j.0 (ap (λ q. q.0) h) in
    let also : k.1 ≡ j.1 = text_or_empty-injective k.1 j.1 f g (ap (λ q. q.1) h) in cc

pub group_identity-injective :
    (reader : JsonReader) (cs ds : List StateClaim) (g h : Group)
    → AllAccepted reader cs
    → AllAccepted reader ds
    → In g (groups_of cs)
    → In h (groups_of ds)
    → group_identity g ≡ group_identity h
    → g.0 ≡ h.0
group_identity-injective reader cs ds g h accepted also m n e =
    let (_, (c, at_c, same_c)) = In-groups_of cs g m in
    let (_, (d, at_d, same_d)) = In-groups_of ds h n in
    key_of_identity g.0 h.0
      (λ z. claim-not_empty reader c (accepted c at_c) (ap (λ q. q.1) same_c ∙ z))
      (λ z. claim-not_empty reader d (also d at_d) (ap (λ q. q.1) same_d ∙ z)) e

pub Increasing-groups_of :
    (reader : JsonReader) (cs : List StateClaim)
    → AllAccepted reader cs
    → Increasing (map group_identity (groups_of cs))
Increasing-groups_of reader cs accepted =
    let gs = group_by claim_key cs [] in
    let inside : (g : Group) → In g gs → In g (groups_of cs) =
      λ g m. In-sort_by_inverse group_identity g gs m in
    let unsorted : Distinct (map group_identity gs) =
      Distinct-map_of group_identity (λ g. g.0) gs
        (λ g h m n e.
          group_identity-injective reader cs cs g h accepted accepted (inside g m) (inside h n) e)
        (Distinct-group_keys cs) in
    subst Increasing (sym (map-sort_by group_identity gs))
      (Increasing-sort (map group_identity gs) unsorted)

In-identities :
    (cs ds : List StateClaim) (i : Text × Text)
    → ((c : StateClaim) → In c cs → In c ds)
    → In i (map group_identity (groups_of cs))
    → In i (map group_identity (groups_of ds))
In-identities cs ds i sub m =
    let (g, found, same) = In-map group_identity i (groups_of cs) m in
    let (_, (c, at_c, key)) = In-groups_of cs g found in
    subst (λ k. In k (map group_identity (groups_of ds)))
      (ap (λ k. (knowledge_value k.0, text_or_empty k.1)) key ∙ sym same)
      (In-map_inverse group_identity _ (groups_of ds) (In-groups_of_inverse ds c (sub c at_c)))

projected_value_unique :
    (g h : Group) → g.0 ≡ h.0 → SameElements g.1 h.1 → projected_value g ≡ projected_value h
unfolding projected_value
projected_value_unique g h key same =
    let inputs = sorted_image_unique (λ c. c.authoritative_input_id) g.1 h.1 same in
    let kinds = sorted_image_unique (λ c. c.record_kind) g.1 h.1 same in
    let locators = sorted_image_unique (λ c. c.source_locator) g.1 h.1 same in
    rw (key, inputs, kinds, locators) refl

-- Accepted claims that are the same but for order and repetition give the same projected values.
pub projected_values_unique :
    (reader : JsonReader) (cs ds : List StateClaim)
    → AllAccepted reader cs
    → SameElements cs ds
    → map projected_value (groups_of cs) ≡ map projected_value (groups_of ds)
projected_values_unique reader cs ds accepted (sub, sup) =
    let also : AllAccepted reader ds = λ d m. accepted d (sup d m) in
    let identities =
      Increasing-unique (map group_identity (groups_of cs)) (map group_identity (groups_of ds))
        (Increasing-groups_of reader cs accepted) (Increasing-groups_of reader ds also)
        (λ i m. In-identities cs ds i sub m) (λ i m. In-identities ds cs i sup m) in
    map_agree group_identity projected_value (groups_of cs) (groups_of ds) identities (λ g h m n e.
      let key = group_identity-injective reader cs ds g h accepted also m n e in
      projected_value_unique g h key (
        subst (λ t. SameElements t h.1) (sym (In-groups_of cs g m).0)
          (subst (λ t. SameElements (select (λ c. claim_key c == g.0) cs) t)
            (sym (In-groups_of ds h n).0)
            (subst
              (λ k.
                SameElements (select (λ c. claim_key c == g.0) cs)
                  (select (λ c. claim_key c == k) ds))
              key (SameElements-select (λ c. claim_key c == g.0) cs ds (sub, sup))))))
