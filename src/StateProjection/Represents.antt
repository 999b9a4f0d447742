-- ===== src/StateProjection/Represents.antt =====
-- Nothing is lost and nothing is made up: the claims of a replay and the values that it projects.
use projectkoios_references.Prelude.{
  ==_refl, In, In-group_by, In-group_by_inverse, In-map, In-map_inverse, In-select,
  In-select_inverse, In-sort_by, In-sort_by_inverse, In-sorted_image, In-sorted_image_inverse, List,
  Option, [], eq_of_==, group_by, list_eq, list_ord, nat_eq, nat_ord, ok, option_eq, pair_eq,
  pair_ord, refl, select, subst, sym, true, ◌==◌, ◌≡◌,
}
use projectkoios_references.Text.{Text, Platform}
use projectkoios_references.StateProjection.{
  kind_eq, kind_ord, knowledge_eq, StateKnowledge, StateRecordKind, StateClaim, ProjectedValue,
  ProjectedField,
}
use projectkoios_references.StateProjection.Values.{JsonReader}
use projectkoios_references.StateProjection.Requests.{ReferenceStateReplayRequest}
use projectkoios_references.StateProjection.Reduce.{
  claim_key, Group, group_identity, projected_value,
}
use projectkoios_references.StateProjection.Replay.{ReferenceStateReplayResult, replay}
use projectkoios_references.StateProjection.Groups.{claims_of, groups_of, IsProjection}
use projectkoios_references.StateProjection.Reduced.{
  In-fields-IsProjection, In-fields_exists, In-claims-known,
}
use projectkoios_references.StateProjection.Replayed.{replay-eq-ok}

abbrev pub value_key : ProjectedValue → StateKnowledge × Option Text
value_key v = (v.knowledge, v.value_json)

-- The members of a group are the claims with its value.
pub In-groups_of :
    (cs : List StateClaim) (g : Group)
    → In g (groups_of cs)
    → (g.1 ≡ select (λ c. claim_key c == g.0) cs)
      × ((c : StateClaim) × In c cs × (claim_key c ≡ g.0))
In-groups_of cs g m =
    In-group_by claim_key g.0 g.1 cs (In-sort_by group_identity g (group_by claim_key cs []) m)

pub In-groups_of_inverse :
    (cs : List StateClaim) (c : StateClaim)
    → In c cs
    → In (claim_key c, select (λ d. claim_key d == claim_key c) cs) (groups_of cs)
In-groups_of_inverse cs c m =
    In-sort_by_inverse group_identity _ (group_by claim_key cs [])
      (In-group_by_inverse claim_key c cs m)

-- A claim stands for a value of its field.
abbrev pub Supports : List StateClaim → Text → ProjectedValue → StateClaim → Type 0
Supports claims name v c = In c claims × (c.field ≡ name) × (claim_key c ≡ value_key v)

In-claims_of :
    (name : Text) (claims : List StateClaim) (c : StateClaim)
    → In c (claims_of name claims)
    → In c claims × (c.field ≡ name)
In-claims_of name claims c m =
    let (found, same) = In-select (λ x. x.field == name) c claims m in
    (found, eq_of_== c.field name same)

In-group-Supports :
    (claims : List StateClaim) (name : Text) (g : Group) (c : StateClaim)
    → In g (groups_of (claims_of name claims))
    → In c g.1
    → Supports claims name (projected_value g) c
unfolding projected_value
In-group-Supports claims name g c m n =
    let (found, same) =
      In-select (λ x. claim_key x == g.0) c (claims_of name claims)
        (subst (In c) (In-groups_of (claims_of name claims) g m).0 n) in
    let (listed, here) = In-claims_of name claims c found in
    (listed, here, eq_of_== (claim_key c) g.0 same)

-- What a value cites, each piece by a claim that supports it.
abbrev pub IsCited : List StateClaim → Text → ProjectedValue → Type 0
IsCited claims name v =
    ((c : StateClaim) × Supports claims name v c)
    × ((i : Text)
        → In i v.authoritative_input_ids
        → (c : StateClaim) × Supports claims name v c × (i ≡ c.authoritative_input_id))
    × ((k : StateRecordKind)
        → In k v.record_kinds
        → (c : StateClaim) × Supports claims name v c × (k ≡ c.record_kind))
    × ((s : Text)
        → In s v.source_locators
        → (c : StateClaim) × Supports claims name v c × (s ≡ c.source_locator))

projected_value-IsCited :
    (claims : List StateClaim) (name : Text) (g : Group)
    → In g (groups_of (claims_of name claims))
    → IsCited claims name (projected_value g)
unfolding projected_value
projected_value-IsCited claims name g m =
    let (same, (c, found, key)) = In-groups_of (claims_of name claims) g m in
    let (listed, here) = In-claims_of name claims c found in
    (
      (c, (listed, here, key)),
      (λ i n.
          let (d, e, at_d) = In-sorted_image (λ x. x.authoritative_input_id) i g.1 n in
          (d, In-group-Supports claims name g d m e, at_d)),
      (λ i n.
          let (d, e, at_d) = In-sorted_image (λ x. x.record_kind) i g.1 n in
          (d, In-group-Supports claims name g d m e, at_d)),
      (λ i n.
          let (d, e, at_d) = In-sorted_image (λ x. x.source_locator) i g.1 n in
          (d, In-group-Supports claims name g d m e, at_d)),
    )

pub IsProjection-IsCited :
    (claims : List StateClaim) (f : ProjectedField) (v : ProjectedValue)
    → IsProjection claims f
    → In v f.values
    → IsCited claims f.field v
IsProjection-IsCited claims f v (rule, known, made) m =
    let (g, found, same) =
      In-map projected_value v (groups_of (claims_of f.field claims))
        (subst (λ x. In v x.values) made m) in
    subst (IsCited claims f.field) (sym same) (projected_value-IsCited claims f.field g found)

-- Every value of every field of a replay is supported by a claim of that field with exactly that
-- knowledge and value, and so is each input, each record kind and each locator that it lists.
pub values-IsCited :
    (reader : JsonReader) (p : Platform) (request : ReferenceStateReplayRequest)
    {result : ReferenceStateReplayResult}
    → replay reader p request ≡ ok result
    → (f : ProjectedField) (v : ProjectedValue) → In f result.projection.fields
    → In v f.values
    → IsCited request.claims f.field v
values-IsCited reader p request h f v m n =
    let done = (replay-eq-ok reader p request h).reduced in
    IsProjection-IsCited request.claims f v (In-fields-IsProjection done f m) n

-- The value lists the claim's knowledge and value, its input, its record kind and its locator.
abbrev pub Lists : ProjectedValue → StateClaim → Type 0
Lists v c =
    (value_key v ≡ claim_key c)
    × In c.authoritative_input_id v.authoritative_input_ids
    × In c.record_kind v.record_kinds
    × In c.source_locator v.source_locators

projected_value-Lists :
    (cs : List StateClaim) (c : StateClaim)
    → In c cs
    → Lists (projected_value (claim_key c, select (λ d. claim_key d == claim_key c) cs)) c
unfolding projected_value
projected_value-Lists cs c m =
    let own = In-select_inverse (λ d. claim_key d == claim_key c) c cs m (==_refl (claim_key c)) in
    (
      refl,
      In-sorted_image_inverse (λ x. x.authoritative_input_id) c _ own,
      In-sorted_image_inverse (λ x. x.record_kind) c _ own,
      In-sorted_image_inverse (λ x. x.source_locator) c _ own,
    )

IsProjection-Lists :
    (claims : List StateClaim) (f : ProjectedField) (c : StateClaim)
    → IsProjection claims f
    → In c claims
    → f.field ≡ c.field
    → (v : ProjectedValue) × In v f.values × Lists v c
IsProjection-Lists claims f c (rule, known, made) m same =
    let own =
      In-select_inverse (λ x. x.field == f.field) c claims m
        (subst (λ k. (c.field == k) ≡ true) (sym same) (==_refl c.field)) in
    let cs = claims_of f.field claims in
    let v = projected_value (claim_key c, select (λ d. claim_key d == claim_key c) cs) in
    (
      v,
      subst (λ x. In v x.values) (sym made)
          (In-map_inverse projected_value _ (groups_of cs) (In-groups_of_inverse cs c own)),
      projected_value-Lists cs c own,
    )

-- Every claim of a replay is kept: the field it is about has a value that lists it.
pub claims-Lists :
    (reader : JsonReader) (p : Platform) (request : ReferenceStateReplayRequest)
    {result : ReferenceStateReplayResult}
    → replay reader p request ≡ ok result
    → (c : StateClaim) → In c request.claims
    → (f : ProjectedField) × In f result.projection.fields
      × (f.field ≡ c.field)
      × ((v : ProjectedValue) × In v f.values × Lists v c)
claims-Lists reader p request h c m =
    let done = (replay-eq-ok reader p request h).reduced in
    let (f, found, same) = In-fields_exists done c.field (In-claims-known done c m) in
    (
      f,
      found,
      same,
      IsProjection-Lists request.claims f c (In-fields-IsProjection done f found) m same,
    )
