-- ===== src/StateProjection/Resolutions.antt =====
-- What a field's resolution says of the claims of the field.
use projectkoios_references.Prelude.{
  ==_refl, Bool-cases, Dict, Distinct, Distinct-group_by, Distinct-map-sort_by, Distinct-set_of,
  Distinct-sort, In, In-select, In-select_inverse, In-sorted_image, In-sorted_image_inverse, List,
  [], ap, arith, false, group_by, inl, inr, keys, length, list_eq, list_ord, ltb, map, nat_eq,
  nat_ord, ok, option_eq, pair_eq, pair_ord, refl, set_of, sort, subst, sym, true, ◌==◌, ◌∙◌, ◌∷◌,
  ◌≡◌,
}
use projectkoios_references.Text.{Text, Platform}
use projectkoios_references.StateProjection.{
  knowledge_eq, StateClaim, StateResolution, ProjectedField, nothing_observed, single, agreement,
  discrepancy,
}
use projectkoios_references.StateProjection.Values.{JsonReader}
use projectkoios_references.StateProjection.Requests.{ReferenceStateReplayRequest}
use projectkoios_references.StateProjection.Reduce.{
  claim_key, Group, group_identity, projected_value, replay_resolution,
}
use projectkoios_references.StateProjection.Replay.{ReferenceStateReplayResult, replay}
use projectkoios_references.StateProjection.Groups.{claims_of, groups_of}
use projectkoios_references.StateProjection.Reduced.{In-fields-IsProjection}
use projectkoios_references.StateProjection.Replayed.{replay-eq-ok}
use projectkoios_references.StateProjection.Represents.{In-groups_of, In-groups_of_inverse}

-- All claims have the value of one of them.
abbrev pub AgreeWith : List StateClaim → StateClaim → Type 0
AgreeWith cs c = (d : StateClaim) → In d cs → claim_key d ≡ claim_key c

-- The four cases exclude each other.
abbrev pub Means : StateResolution → List StateClaim → Type 0
Means nothing_observed cs = (c : StateClaim) → In c cs → ⊥
Means single cs =
    (c : StateClaim) × In c cs
    × AgreeWith cs c
    × ((d : StateClaim) → In d cs → d.authoritative_input_id ≡ c.authoritative_input_id)
Means agreement cs =
    (c : StateClaim) × (d : StateClaim) × In c cs
    × In d cs
    × AgreeWith cs c
    × (c.authoritative_input_id ≡ d.authoritative_input_id → ⊥)
Means discrepancy cs =
    (c : StateClaim) × (d : StateClaim) × In c cs × In d cs × (claim_key c ≡ claim_key d → ⊥)

keys-map : {K V : Type 0} (d : Dict K V) → keys d ≡ map (λ q. q.0) d
keys-map [] = refl
keys-map ((k, v) ∷ d) = ap (λ t. k ∷ t) (keys-map d)

pub Distinct-group_keys :
    (cs : List StateClaim) → Distinct (map (λ g. g.0) (group_by claim_key cs []))
Distinct-group_keys cs =
    subst Distinct (keys-map (group_by claim_key cs [])) (Distinct-group_by claim_key cs [] tt)

-- The groups of a field have different keys.
pub Distinct-groups_of : (cs : List StateClaim) → Distinct (map (λ g. g.0) (groups_of cs))
Distinct-groups_of cs =
    Distinct-map-sort_by group_identity (λ g. g.0) (group_by claim_key cs [])
      (Distinct-group_keys cs)

-- More than one input comes from two claims with different inputs.
two_inputs :
    (cs : List StateClaim) (ids : List Text)
    → ltb 1 (length ids) ≡ true
    → Distinct ids
    → ((i : Text) → In i ids → (c : StateClaim) × In c cs × (i ≡ c.authoritative_input_id))
    → (c : StateClaim) × (d : StateClaim) × In c cs
      × In d cs
      × (c.authoritative_input_id ≡ d.authoritative_input_id → ⊥)
two_inputs cs [] h distinct from = cc
two_inputs cs (i ∷ []) h distinct from = cc
two_inputs cs (i ∷ j ∷ rest) h (new, distinct) from =
    let (c, at_c, same_c) = from i (inl refl) in
    let (d, at_d, same_d) = from j (inr (inl refl)) in
    (c, d, at_c, at_d, (λ same. new (inl (same_c ∙ same ∙ sym same_d))))

one_input :
    (ids : List Text) (i j : Text) → ltb 1 (length ids) ≡ false → In i ids → In j ids → i ≡ j
one_input [] i j h m n = elim m [ ]
one_input (k ∷ []) i j h (inl same) (inl also) = same ∙ sym also
one_input (k ∷ []) i j h (inl same) (inr n) = elim n [ ]
one_input (k ∷ []) i j h (inr m) n = elim m [ ]
one_input (k ∷ l ∷ rest) i j h m n = absurd (ground arith)

Means-one_group :
    (cs : List StateClaim) (g : Group)
    → groups_of cs ≡ g ∷ []
    → Means (replay_resolution (projected_value g ∷ [])) cs
unfolding replay_resolution projected_value
Means-one_group cs g e =
    let (members, (c, found, same)) = In-groups_of cs g (subst (In g) (sym e) (inl refl)) in
    let agree : (d : StateClaim) → In d cs → claim_key d ≡ g.0 = λ d m.
      elim (subst (In (claim_key d, _)) e (In-groups_of_inverse cs d m)) [
        | inl here ↦ ap (λ q. q.0) here
        | inr there ↦ elim there [ ]
      ] in
    let inside : (d : StateClaim) → In d cs → In d g.1 = λ d m. subst (In d) (sym members) (
      In-select_inverse (λ x. claim_key x == g.0) d cs m
        (subst (λ k. (claim_key d == k) ≡ true) (agree d m) (==_refl (claim_key d)))) in
    let outside : (d : StateClaim) → In d g.1 → In d cs =
      λ d m. (In-select (λ x. claim_key x == g.0) d cs (subst (In d) members m)).0 in
    let ids = sort (set_of (map (λ d. d.authoritative_input_id) g.1)) in
    elim (Bool-cases (ltb 1 (length ids))) [
      | inl several ↦
          let (d, b, at_d, at_b, differ) =
            two_inputs g.1 ids several
              (Distinct-sort (set_of (map (λ x. x.authoritative_input_id) g.1))
                (Distinct-set_of (map (λ x. x.authoritative_input_id) g.1)))
              (λ i m. In-sorted_image (λ x. x.authoritative_input_id) i g.1 m) in
          rw several (
            d,
            b,
            outside d at_d,
            outside b at_b,
            (λ x m. agree x m ∙ sym (agree d (outside d at_d))),
            differ,
          )
      | inr alone ↦ rw alone (
        c,
        found,
        (λ x m. agree x m ∙ sym same),
        (λ x m.
            one_input ids x.authoritative_input_id c.authoritative_input_id alone
              (In-sorted_image_inverse (λ y. y.authoritative_input_id) x g.1 (inside x m))
              (In-sorted_image_inverse (λ y. y.authoritative_input_id) c g.1 (inside c found))),
      )
    ]

Means-groups :
    (cs : List StateClaim) (gs : List Group)
    → groups_of cs ≡ gs
    → Means (replay_resolution (map projected_value gs)) cs
unfolding replay_resolution
Means-groups cs [] e = λ c m. elim (subst (In (claim_key c, _)) e (In-groups_of_inverse cs c m)) [ ]
Means-groups cs (g ∷ []) e = Means-one_group cs g e
Means-groups cs (g ∷ h ∷ rest) e =
    let (members, (c, at_c, same_c)) = In-groups_of cs g (subst (In g) (sym e) (inl refl)) in
    let (others, (d, at_d, same_d)) = In-groups_of cs h (subst (In h) (sym e) (inr (inl refl))) in
    let (new, distinct) : Distinct (map (λ k. k.0) (g ∷ h ∷ rest)) =
      subst (λ gs. Distinct (map (λ k. k.0) gs)) e (Distinct-groups_of cs) in
    (c, d, at_c, at_d, (λ same. new (inl (sym same_c ∙ same ∙ same_d))))

-- The resolution of each field of a replay is what the claims of the field say: nothing where there
-- are none, a discrepancy where two of them differ in knowledge or value, else agreement where
-- they cite two inputs and a single value where they cite one. No source is preferred.
pub resolution-Means :
    (reader : JsonReader) (p : Platform) (request : ReferenceStateReplayRequest)
    {result : ReferenceStateReplayResult}
    → replay reader p request ≡ ok result
    → (f : ProjectedField) → In f result.projection.fields
    → Means f.resolution (claims_of f.field request.claims)
resolution-Means reader p request h f m =
    let (rule, known, made) =
      In-fields-IsProjection (replay-eq-ok reader p request h).reduced f m in
    subst (λ r. Means r (claims_of f.field request.claims)) (sym (ap (λ x. x.resolution) made))
      (Means-groups (claims_of f.field request.claims) _ refl)
