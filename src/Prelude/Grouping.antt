-- ===== src/Prelude/Grouping.antt =====
-- Grouping by a key into a dict of lists.
use mathlib.Core.Path.{◌≡◌, refl, ap, sym, ◌∙◌}
use mathlib.Core.Logic.{◌⊎◌, inl, inr}
use mathlib.Core.Option.{none, some}
use mathlib.Core.List.{List, [], ◌∷◌, ◌++◌, map, append-nil, append_assoc}
use native.Mathlib.Omega.{arith}
use projectkoios_references.Prelude.Tests.{Bool-cases, Option-cases}
use projectkoios_references.Prelude.Lists.{In, Distinct, In-map, In-map_inverse, select}
use projectkoios_references.Prelude.Equality.{Eq, ◌==◌, ==_refl, eq_of_==}
use projectkoios_references.Prelude.Mapping.{
  Dict, get, keys, or_empty, append_to, or_empty-append_to,
}
use projectkoios_references.Prelude.Keys.{In-keys-put, In-keys-put_inverse, Distinct-put}

pub In-keys : {K V : Type 0} (k : K) (v : V) (d : Dict K V) → In (k, v) d → In k (keys d)
In-keys k v [] m = m
In-keys k v ((j, w) ∷ d) (inl same) = inl (ap (λ q. q.0) same)
In-keys k v ((j, w) ∷ d) (inr m) = inr (In-keys k v d m)

module _ {K V : Type 0} ⦃e : Eq K⦄ where
  pub get-In : (k : K) (v : V) (d : Dict K V) → Distinct (keys d) → In (k, v) d → get k d ≡ some v
  unfolding get
  get-In k v [] h m = elim m [ ]
  get-In k v ((j, w) ∷ d) (new, h) (inl same) =
      rw (← ap (λ q. q.0) same, ==_refl k) (ap (λ q. some (q.1)) (sym same))
  get-In k v ((j, w) ∷ d) (new, h) (inr m) = elim (Bool-cases (j == k)) [
    | inl same ↦ absurd (new (rw (eq_of_== j k same) (In-keys k v d m)))
    | inr other ↦ rw other (get-In k v d h m)
  ]

  pub get-eq-none : (k : K) (d : Dict K V) → get k d ≡ none → In k (keys d) → ⊥
  unfolding get
  get-eq-none k [] h m = m
  get-eq-none k ((j, w) ∷ d) h m = ground (arith, e.beq_iff j k, get-eq-none k d)

  -- A key that a dict has has a value.
  pub get-In-keys : (k : K) (d : Dict K V) → In k (keys d) → (v : V) × (get k d ≡ some v)
  get-In-keys k d m = elim (Option-cases (get k d)) [
    | inl missing ↦ absurd (get-eq-none k d missing m)
    | inr found ↦ found
  ]

  pub In-keys_inverse : (k : K) (d : Dict K V) → In k (keys d) → (v : V) × In (k, v) d
  In-keys_inverse k [] m = elim m [ ]
  In-keys_inverse k ((j, w) ∷ d) (inl same) = (w, inl (rw same refl))
  In-keys_inverse k ((j, w) ∷ d) (inr m) = let (v, found) = In-keys_inverse k d m in (v, inr found)

module _ {A K : Type 0} ⦃e : Eq K⦄ (key : A → K) where
  -- for item in items: groups.setdefault(key(item), []).append(item)
  unfoldable pub group_by : List A → Dict K (List A) → Dict K (List A)
  unfolding append_to
  group_by [] groups = groups
  group_by (x ∷ xs) groups = group_by xs (append_to (key x) x groups)

  -- Each group holds the items of its key, in their order.
  pub get-group_by :
      (k : K) (xs : List A) (groups : Dict K (List A))
      → or_empty (get k (group_by xs groups))
        ≡ or_empty (get k groups) ++ select (λ x. key x == k) xs
  unfolding group_by
  get-group_by k [] groups = sym (append-nil _)
  get-group_by k (x ∷ xs) groups =
      get-group_by k xs (append_to (key x) x groups) ∙ elim (Bool-cases (key x == k)) [
        | inl same ↦
            rw (or_empty-append_to, same) (append_assoc (or_empty (get k groups)) (x ∷ []) _)
        | inr other ↦ rw (or_empty-append_to, other) refl
      ]

  pub In-keys-group_by :
      (k : K) (xs : List A) (d : Dict K (List A))
      → In k (keys (group_by xs d))
      → In k (keys d) ⊎ In k (map key xs)
  unfolding group_by append_to
  In-keys-group_by k [] d m = inl m
  In-keys-group_by k (x ∷ xs) d m = ground (
    arith,
    In-keys-group_by k xs (append_to (key x) x d) m,
    In-keys-put k (key x) (or_empty (get (key x) d) ++ x ∷ []) d,
  )

  pub In-keys-group_by_inverse :
      (k : K) (xs : List A) (d : Dict K (List A))
      → In k (keys d) ⊎ In k (map key xs)
      → In k (keys (group_by xs d))
  unfolding group_by append_to
  In-keys-group_by_inverse k [] d (inl m) = m
  In-keys-group_by_inverse k [] d (inr m) = elim m [ ]
  In-keys-group_by_inverse k (x ∷ xs) d m =
      In-keys-group_by_inverse k xs (append_to (key x) x d) (elim m [
        | inl old ↦ inl (In-keys-put_inverse k (key x) _ d (inr old))
        | inr new ↦ elim new [
          | inl same ↦ inl (In-keys-put_inverse k (key x) _ d (inl same))
          | inr later ↦ inr later
        ]
      ])

  pub Distinct-group_by :
      (xs : List A) (d : Dict K (List A)) → Distinct (keys d) → Distinct (keys (group_by xs d))
  unfolding group_by append_to
  Distinct-group_by [] d h = h
  Distinct-group_by (x ∷ xs) d h =
      Distinct-group_by xs (append_to (key x) x d) (Distinct-put (key x) _ d h)

  -- A group of the result is all that has its key, and is not empty.
  pub In-group_by :
      (k : K) (members : List A) (xs : List A)
      → In (k, members) (group_by xs [])
      → (members ≡ select (λ x. key x == k) xs) × ((x : A) × In x xs × (key x ≡ k))
  unfolding get
  In-group_by k members xs m =
      let found = get-In k members (group_by xs []) (Distinct-group_by xs [] tt) m in
      let listed = In-keys-group_by k xs [] (In-keys k members (group_by xs []) m) in
      (
        ap or_empty (sym found) ∙ get-group_by k xs [],
        elim listed [
          | inl none_yet ↦ elim none_yet [ ]
          | inr there ↦ let (x, at_x, same) = In-map key k xs there in (x, at_x, sym same)
        ],
      )

  -- Each item's key has its group.
  pub In-group_by_inverse :
      (x : A) (xs : List A) → In x xs → In (key x, select (λ y. key y == key x) xs) (group_by xs [])
  In-group_by_inverse x xs m =
      let (members, found) =
        In-keys_inverse (key x) (group_by xs [])
          (In-keys-group_by_inverse (key x) xs [] (inr (In-map_inverse key x xs m))) in
      rw (← (In-group_by (key x) members xs found).0) found
