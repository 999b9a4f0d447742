-- ===== src/StateProjection/Faults.antt =====
-- Which error a request with a fault raises.
use projectkoios_references.Prelude.{
  >>-ok, Bool, Bool-cases, Eq, In, In-map_inverse, In-set_of, In-set_of_inverse, In-sort,
  In-sort_inverse, List, List-cases, Result, [], all, any, any-In, any-eq-false, ap, arith,
  eq_of_==, err, false, inl, inr, list_eq, list_ord, map, nat_eq, nat_ord, not, ok, option_eq,
  pair_eq, pair_ord, raise_if, raise_if-ok, refl, set_of, sort, sort-set_of_canonical, subst, sym,
  true, ◌==◌, ◌>>◌, ◌∙◌, ◌∷◌, ◌≡◌,
}
use projectkoios_references.Text.{Text, codes, Platform}
use projectkoios_references.Review.Checks.{matches_content_id}
use projectkoios_references.StateProjection.{
  StateError, StateClaim, not_content_identity, ids_not_canonical, claim_subject_differs, no_inputs,
  undeclared_inputs,
}
use projectkoios_references.StateProjection.Values.{
  JsonReader, content_identity, each_content_identity, ordered_unique_content_ids,
}
use projectkoios_references.StateProjection.Projections.{is_subset}
use projectkoios_references.StateProjection.Requests.{ReferenceStateReplayRequest}
use projectkoios_references.StateProjection.Replay.{replay}
use projectkoios_references.StateProjection.Replayed.{inputs_of}
use projectkoios_references.StateProjection.Progress.{
  content_identity_ok, ordered_unique_content_ids_ok, not-nil, not-==,
}

abbrev pub IsAbout : ReferenceStateReplayRequest → Type 0
IsAbout request = (c : StateClaim) → In c request.claims → c.subject_id ≡ request.subject_id

abbrev pub HasIdentities : ReferenceStateReplayRequest → Type 0
HasIdentities request =
    (s : Text) → In s request.authoritative_input_ids → matches_content_id s ≡ true

-- The first fault of a request, in the order in which the replay looks.
pub data Fault (request : ReferenceStateReplayRequest) : StateError → Type 0 where
  other_subject :
      (c : StateClaim)
      → In c request.claims
      → (c.subject_id ≡ request.subject_id → ⊥)
      → Fault request claim_subject_differs
  bad_input :
      (s : Text)
      → IsAbout request
      → In s request.authoritative_input_ids
      → matches_content_id s ≡ false
      → Fault request (not_content_identity (codes "authoritative_input_ids"))
  no_input : IsAbout request → request.authoritative_input_ids ≡ [] → Fault request no_inputs
  undeclared :
      (c : StateClaim)
      → IsAbout request
      → HasIdentities request
      → (request.authoritative_input_ids ≡ [] → ⊥)
      → In c request.claims
      → (In c.authoritative_input_id request.authoritative_input_ids → ⊥)
      → Fault request undeclared_inputs

>>-err :
    {A : Type 0} (m : Result StateError (Unit {0})) (k : Result StateError A) {e : StateError}
    → m ≡ err e
    → (m >> k) ≡ err e
>>-err m k h = rw h refl

raise_if-err : (b : Bool) (e : StateError) → b ≡ true → raise_if b e ≡ err e
raise_if-err b e h = rw h refl

any-eq-true :
    {A : Type 0} (p : A → Bool) (x : A) (xs : List A) → In x xs → p x ≡ true → any p xs ≡ true
any-eq-true p x [] m h = elim m [ ]
any-eq-true p x (y ∷ ys) (inl same) h = ground arith
any-eq-true p x (y ∷ ys) (inr m) h = ground (arith, any-eq-true p x ys m h)

all-eq-false :
    {A : Type 0} (p : A → Bool) (x : A) (xs : List A) → In x xs → p x ≡ false → all p xs ≡ false
all-eq-false p x [] m h = elim m [ ]
all-eq-false p x (y ∷ ys) (inl same) h = ground arith
all-eq-false p x (y ∷ ys) (inr m) h = ground (arith, all-eq-false p x ys m h)

==-false : {A : Type 0} ⦃e : Eq A⦄ (a b : A) → (a ≡ b → ⊥) → (a == b) ≡ false
==-false a b f = elim (Bool-cases (a == b)) [
  | inl same ↦ absurd (f (eq_of_== a b same))
  | inr other ↦ other
]

each_content_identity-err :
    (s : Text) (values : List Text) (label : Text)
    → In s values
    → matches_content_id s ≡ false
    → each_content_identity values label ≡ err (not_content_identity label)
unfolding each_content_identity content_identity
each_content_identity-err s [] label m h = elim m [ ]
each_content_identity-err s (t ∷ ts) label m h = elim (Bool-cases (matches_content_id t)) [
  | inl good ↦ >>-ok (content_identity t label) _ (content_identity_ok t label good) (elim m [
    | inl same ↦ cc (ap matches_content_id same)
    | inr later ↦ each_content_identity-err s ts label later h
  ])
  | inr bad ↦
      >>-err (content_identity t label) _
        (raise_if-err (not (matches_content_id t)) (not_content_identity label) (ap not bad))
]

nil_sorted : sort {A = Text} (set_of []) ≡ []
unfolding sort set_of
nil_sorted = refl

module _ (reader : JsonReader) (p : Platform) (request : ReferenceStateReplayRequest) where
  In-inputs_of : (s : Text) → In s request.authoritative_input_ids → In s (inputs_of request)
  In-inputs_of s m =
      In-sort_inverse s (set_of request.authoritative_input_ids)
        (In-set_of_inverse s request.authoritative_input_ids m)

  In-inputs_of_inverse :
      (s : Text) → In s (inputs_of request) → In s request.authoritative_input_ids
  In-inputs_of_inverse s m =
      In-set_of s request.authoritative_input_ids
        (In-sort s (set_of request.authoritative_input_ids) m)

  about :
      IsAbout request → any (λ c. not (c.subject_id == request.subject_id)) request.claims ≡ false
  about h =
      any-eq-false (λ c. not (c.subject_id == request.subject_id)) request.claims
        (λ c m. not-== c.subject_id request.subject_id (h c m))

  ids_err :
      (s : Text)
      → In s request.authoritative_input_ids
      → matches_content_id s ≡ false
      → ordered_unique_content_ids (inputs_of request) (codes "authoritative_input_ids")
        ≡ err (not_content_identity (codes "authoritative_input_ids"))
  unfolding ordered_unique_content_ids
  ids_err s m h =
      >>-ok
        (raise_if (not (sort (set_of (inputs_of request)) == inputs_of request))
          (ids_not_canonical (codes "authoritative_input_ids")))
        _
        (raise_if-ok _ _ (
          not-== (sort (set_of (inputs_of request))) (inputs_of request)
            (sort-set_of_canonical request.authoritative_input_ids)))
        (each_content_identity-err s (inputs_of request) (codes "authoritative_input_ids")
          (In-inputs_of s m) h)

  ids_ok :
      HasIdentities request
      → ordered_unique_content_ids (inputs_of request) (codes "authoritative_input_ids") ≡ ok tt
  ids_ok h =
      ordered_unique_content_ids_ok (inputs_of request) (codes "authoritative_input_ids")
        (sort-set_of_canonical request.authoritative_input_ids)
        (λ s m. h s (In-inputs_of_inverse s m))

  inputs_given : (request.authoritative_input_ids ≡ [] → ⊥) → (inputs_of request == []) ≡ false
  inputs_given f = elim (List-cases request.authoritative_input_ids) [
    | inl nothing ↦ absurd (f nothing)
    | inr (s, rest, e) ↦
        not-nil s (inputs_of request) (In-inputs_of s (subst (In s) (sym e) (inl refl)))
  ]

  any-none :
      (i : Text) → (In i (inputs_of request) → ⊥) → any (λ t. i == t) (inputs_of request) ≡ false
  any-none i f = elim (Bool-cases (any (λ t. i == t) (inputs_of request))) [
    | inl there ↦ absurd (f (any-In i (inputs_of request) there))
    | inr absent ↦ absent
  ]

  -- A request with a fault raises the error of the first fault that the replay meets: a claim about another
  -- subject, an input that is no content identity, no input at all, or a claim that cites an input that is
  -- not declared.
  pub replay-Fault : {e : StateError} → Fault request e → replay reader p request ≡ err e
  unfolding replay
  replay-Fault (other_subject c m differs) =
      >>-err
        (raise_if (any (λ c. not (c.subject_id == request.subject_id)) request.claims)
          claim_subject_differs)
        _
        (raise_if-err _ claim_subject_differs (
          any-eq-true (λ c. not (c.subject_id == request.subject_id)) c request.claims m
            (ap not (==-false c.subject_id request.subject_id differs))))
  replay-Fault (bad_input s h m bad) =
      >>-ok
        (raise_if (any (λ c. not (c.subject_id == request.subject_id)) request.claims)
          claim_subject_differs)
        _ (raise_if-ok _ _ (about h))
        (>>-err (ordered_unique_content_ids (inputs_of request) (codes "authoritative_input_ids")) _
          (ids_err s m bad))
  replay-Fault (no_input h e) =
      let nothing : inputs_of request ≡ [] = ap (λ ids. sort (set_of ids)) e ∙ nil_sorted in
      >>-ok
        (raise_if (any (λ c. not (c.subject_id == request.subject_id)) request.claims)
          claim_subject_differs)
        _ (raise_if-ok _ _ (about h))
        (>>-ok (ordered_unique_content_ids (inputs_of request) (codes "authoritative_input_ids")) _
          (ids_ok (λ s m. elim (subst (In s) e m) [ ]))
          (>>-err (raise_if (inputs_of request == []) no_inputs) _
            (raise_if-err _ no_inputs (subst (λ ids. (ids == []) ≡ true) (sym nothing) refl))))
  replay-Fault (undeclared c h ids f m absent) =
      >>-ok
        (raise_if (any (λ c. not (c.subject_id == request.subject_id)) request.claims)
          claim_subject_differs)
        _ (raise_if-ok _ _ (about h))
        (>>-ok (ordered_unique_content_ids (inputs_of request) (codes "authoritative_input_ids")) _
          (ids_ok ids)
          (>>-ok (raise_if (inputs_of request == []) no_inputs) _ (raise_if-ok _ _ (inputs_given f))
            (>>-err
              (raise_if
                (not (
                  is_subset (map (λ c. c.authoritative_input_id) request.claims)
                    (inputs_of request)))
                undeclared_inputs)
              _
              (raise_if-err _ undeclared_inputs (
                ap not (
                  all-eq-false (λ i. any (λ t. i == t) (inputs_of request)) c.authoritative_input_id
                    (map (λ c. c.authoritative_input_id) request.claims)
                    (In-map_inverse (λ c. c.authoritative_input_id) c request.claims m)
                    (any-none c.authoritative_input_id
                      (λ n. absent (In-inputs_of_inverse c.authoritative_input_id n)))))))))
