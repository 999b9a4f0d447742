-- ===== src/StateProjection/Progress/Replay.antt =====
-- The steps of a replay of accepted claims, which raise only the errors of size limits.
use projectkoios_references.Prelude.{
  >>-ok, Dict, Distinct-length-le, Distinct-set_of, Distinct-sort, In, In-append,
  In-keys-put_inverse, In-select, In-set_of, In-set_of_inverse, In-sort, In-sort_inverse, List, [],
  append_to, arith, eq_of_==, false, get, get-In-keys, inl, inr, keys, length, list_eq, list_ord,
  ltb, nat_eq, nat_ord, ok, option_eq, or_empty, pair_eq, pair_ord, refl, set_of, some, sort, subst,
  true, ℕ, ◌==◌, ◌∷◌, ◌≡◌, ◌≤◌,
}
use projectkoios_references.Text.{Text, codes}
use projectkoios_references.Review.Checks.{matches_content_id}
use projectkoios_references.StateProjection.{
  StateClaim, StateFieldRule, ProjectedField, ProjectedValue,
}
use projectkoios_references.StateProjection.Rules.{state_field_rules}
use projectkoios_references.StateProjection.Values.{JsonReader, bounded_text}
use projectkoios_references.StateProjection.Projections.{
  max_inputs, max_exclusions, each_bounded, value_inputs, used_inputs,
}
use projectkoios_references.StateProjection.Requests.{ReferenceStateReplayRequest}
use projectkoios_references.StateProjection.Reduce.{project_field, group_by_field, project_fields}
use projectkoios_references.StateProjection.Groups.{claims_of}
use projectkoios_references.StateProjection.Reduced.{Reduced, In-fields-IsProjection}
use projectkoios_references.StateProjection.Replayed.{inputs_of}
use projectkoios_references.StateProjection.Represents.{IsProjection-IsCited}
use projectkoios_references.StateProjection.Order.{AllAccepted}
use projectkoios_references.StateProjection.Progress.{OnlyLimits, OnlyLimits->>=}
use projectkoios_references.StateProjection.Progress.Fields.{project_field-OnlyLimits}

-- The claims are accepted, they are about the request's subject, which is a content identity, and they cite
-- inputs that it declares; there is an input, the inputs are content identities and not too many, and the exclusions
-- are bounded texts and not too many.
pub record IsReady (reader : JsonReader) (request : ReferenceStateReplayRequest) : Type 0 where
  pub subject : matches_content_id request.subject_id ≡ true
  pub accepted : AllAccepted reader request.claims
  pub same_subject : (c : StateClaim) → In c request.claims → c.subject_id ≡ request.subject_id
  pub an_input : Text
  pub has_input : In an_input request.authoritative_input_ids
  pub identities : (s : Text) → In s request.authoritative_input_ids → matches_content_id s ≡ true
  pub few_inputs : length request.authoritative_input_ids ≤ max_inputs
  pub declared :
      (c : StateClaim)
      → In c request.claims
      → In c.authoritative_input_id request.authoritative_input_ids
  pub few_exclusions : length request.exclusions ≤ max_exclusions
  pub bounded_exclusions :
      (s : Text) → In s request.exclusions → bounded_text s (codes "projection exclusion") ≡ ok tt

pub group_by_field-OnlyLimits :
    (cs : List StateClaim) (d : Dict Text (List StateClaim))
    → ((c : StateClaim) → In c cs → In c.field (keys d))
    → OnlyLimits (group_by_field cs d)
unfolding group_by_field append_to
group_by_field-OnlyLimits [] d known = tt
group_by_field-OnlyLimits (c ∷ cs) d known =
    let (old, found) = get-In-keys c.field d (known c (inl refl)) in
    rw (found, OnlyLimits, group_by_field)
      (group_by_field-OnlyLimits cs (append_to c.field c d)
        (λ x m. In-keys-put_inverse x.field c.field _ d (inr (known x (inr m)))))

pub project_fields-OnlyLimits :
    (reader : JsonReader) (claims : List StateClaim) (g : Dict Text (List StateClaim))
    (names : List Text)
    → AllAccepted reader claims
    → ((name : Text) → or_empty (get name g) ≡ claims_of name claims)
    → ((name : Text)
        → In name names
        → (rule : StateFieldRule) × (get name state_field_rules ≡ some rule))
    → OnlyLimits (project_fields reader g names)
unfolding project_fields
project_fields-OnlyLimits reader claims g [] accepted groups known = tt
project_fields-OnlyLimits reader claims g (name ∷ names) accepted groups known =
    let (rule, found) = known name (inl refl) in
    let chosen : (c : StateClaim)
        → In c (or_empty (get name g))
        → In c claims × ((c.field == name) ≡ true) =
      λ c m. In-select (λ x. x.field == name) c claims (subst (In c) (groups name) m) in
    OnlyLimits->>= (project_field reader name (or_empty (get name g))) _
      (project_field-OnlyLimits reader name rule (or_empty (get name g)) found
        (λ c m. accepted c (chosen c m).0) (λ c m. eq_of_== c.field name (chosen c m).1))
      (λ first made.
        OnlyLimits->>= (project_fields reader g names) _
          (project_fields-OnlyLimits reader claims g names accepted groups (λ n m. known n (inr m)))
          (λ rest done. tt))

In-value_inputs :
    (i : Text) (vs : List ProjectedValue)
    → In i (value_inputs vs)
    → (v : ProjectedValue) × In v vs × In i v.authoritative_input_ids
In-value_inputs i [] m = elim m [ ]
In-value_inputs i (v ∷ vs) m = elim (In-append i v.authoritative_input_ids (value_inputs vs) m) [
  | inl here ↦ (v, inl refl, here)
  | inr there ↦ let (w, found, k) = In-value_inputs i vs there in (w, inr found, k)
]

In-used_inputs :
    (i : Text) (fs : List ProjectedField)
    → In i (used_inputs fs)
    → (f : ProjectedField) × In f fs × In i (value_inputs f.values)
In-used_inputs i [] m = elim m [ ]
In-used_inputs i (f ∷ fs) m = elim (In-append i (value_inputs f.values) (used_inputs fs) m) [
  | inl here ↦ (f, inl refl, here)
  | inr there ↦ let (g, found, k) = In-used_inputs i fs there in (g, inr found, k)
]

-- The inputs that projected values cite are inputs of claims.
pub used_inputs-claims :
    {reader : JsonReader} {claims : List StateClaim} {fields : List ProjectedField} (i : Text)
    → Reduced reader claims fields
    → In i (used_inputs fields)
    → (c : StateClaim) × In c claims × (i ≡ c.authoritative_input_id)
used_inputs-claims {claims} {fields} i done m =
    let (f, at_f, inside) = In-used_inputs i fields m in
    let (v, at_v, listed) = In-value_inputs i f.values inside in
    let (supported, ids, kinds, locators) =
      IsProjection-IsCited claims f v (In-fields-IsProjection done f at_f) at_v in
    let (c, (found, here, key), same) = ids i listed in (c, found, same)

pub each_bounded_ok :
    (ss : List Text)
    → ((s : Text) → In s ss → bounded_text s (codes "projection exclusion") ≡ ok tt)
    → each_bounded ss ≡ ok tt
unfolding each_bounded
each_bounded_ok [] h = refl
each_bounded_ok (s ∷ ss) h =
    >>-ok (bounded_text s (codes "projection exclusion")) _ (h s (inl refl))
      (each_bounded_ok ss (λ t m. h t (inr m)))

-- A sorted set is no longer than the list it is made of.
pub sorted_set_short :
    (xs : List Text) (most : ℕ) → length xs ≤ most → ltb most (length (sort (set_of xs))) ≡ false
sorted_set_short xs most h =
    let shorter =
      Distinct-length-le (sort (set_of xs)) xs (Distinct-sort (set_of xs) (Distinct-set_of xs))
        (λ a m. In-set_of a xs (In-sort a (set_of xs) m)) in
    ground arith

pub In-inputs_of :
    (request : ReferenceStateReplayRequest) (s : Text)
    → In s request.authoritative_input_ids
    → In s (inputs_of request)
In-inputs_of request s m =
    In-sort_inverse s (set_of request.authoritative_input_ids)
      (In-set_of_inverse s request.authoritative_input_ids m)
