-- ===== src/Prelude/Sets.antt =====
-- Python's `set(values)`, `sorted(..., key=...)`, and the order and equality of pairs.
use mathlib.Core.Path.{◌≡◌, refl, ap, sym, ◌∙◌}
use mathlib.Core.Logic.{◌↔◌, ◌⊎◌, inl, inr}
use mathlib.Core.Bool.{Bool, true, false, ◌&&◌}
use mathlib.Core.List.{List, [], ◌∷◌, map}
use native.Mathlib.Omega.{arith}
use projectkoios_references.Prelude.Tests.{if◌then◌else◌, Bool-cases}
use projectkoios_references.Prelude.Lists.{In, Distinct, any, All, All-In, In-map, In-map_inverse}
use projectkoios_references.Prelude.Equality.{Eq, ◌==◌}
use projectkoios_references.Prelude.Sorting.{Ord, less, insert, sort, Increasing}
use projectkoios_references.Prelude.Keys.{Increasing-sort}

module _ {A : Type 0} ⦃e : Eq A⦄ where
  pub any-In : (x : A) (xs : List A) → any (λ y. x == y) xs ≡ true → In x xs
  any-In x [] h = cc
  any-In x (y ∷ ys) h = ground (arith, e.beq_iff x y, any-In x ys)

  pub any-In_inverse : (x : A) (xs : List A) → In x xs → any (λ y. x == y) xs ≡ true
  any-In_inverse x [] m = elim m [ ]
  any-In_inverse x (y ∷ ys) m = ground (arith, e.beq_iff x y, any-In_inverse x ys)

  -- The elements, each once.
  unfoldable pub set_of : List A → List A
  set_of [] = []
  set_of (x ∷ xs) = let rest = set_of xs in if any (λ y. x == y) xs then rest else x ∷ rest

  pub In-set_of : (a : A) (xs : List A) → In a (set_of xs) → In a xs
  unfolding set_of
  In-set_of a [] m = m
  In-set_of a (x ∷ xs) m = ground (arith, In-set_of a xs)

  pub In-set_of_inverse : (a : A) (xs : List A) → In a xs → In a (set_of xs)
  unfolding set_of
  In-set_of_inverse a [] m = m
  In-set_of_inverse a (x ∷ xs) m = elim (Bool-cases (any (λ y. x == y) xs)) [
    | inl again ↦ rw again (elim m [
      | inl same ↦ In-set_of_inverse a xs (rw (← same) at (any-In x xs again))
      | inr later ↦ In-set_of_inverse a xs later
    ])
    | inr new ↦
        rw new (elim m [ inl same ↦ inl same | inr later ↦ inr (In-set_of_inverse a xs later) ])
  ]

  pub Distinct-set_of : (xs : List A) → Distinct (set_of xs)
  unfolding set_of
  Distinct-set_of [] = tt
  Distinct-set_of (x ∷ xs) = elim (Bool-cases (any (λ y. x == y) xs)) [
    | inl again ↦ rw again (Distinct-set_of xs)
    | inr new ↦ rw new ((λ m. cc (any-In_inverse x xs (In-set_of x xs m))), Distinct-set_of xs)
  ]

  pub set_of-Distinct : (xs : List A) → Distinct xs → set_of xs ≡ xs
  unfolding set_of
  set_of-Distinct [] d = refl
  set_of-Distinct (x ∷ xs) (new, d) = elim (Bool-cases (any (λ y. x == y) xs)) [
    | inl again ↦ absurd (new (any-In x xs again))
    | inr once ↦ rw once (ap (λ t. x ∷ t) (set_of-Distinct xs d))
  ]

module _ {A : Type 0} ⦃o : Ord A⦄ where
  insert_least : (x : A) (xs : List A) → All (λ y. less x y ≡ true) xs → insert x xs ≡ x ∷ xs
  unfolding insert
  insert_least x [] h = refl
  insert_least x (y ∷ ys) (h, k) = ground (arith, o.lt_trans x y x, o.lt_irrefl x)

  pub sort-Increasing : (xs : List A) → Increasing xs → sort xs ≡ xs
  unfolding sort
  sort-Increasing [] h = refl
  sort-Increasing (x ∷ xs) (below, h) = rw (sort-Increasing xs h) (insert_least x xs below)

  pub Increasing-Distinct : (xs : List A) → Increasing xs → Distinct xs
  Increasing-Distinct [] h = tt
  Increasing-Distinct (x ∷ xs) (below, h) = (
    (λ m. cc (All-In (λ y. less x y ≡ true) x xs below m, o.lt_irrefl x)),
    Increasing-Distinct xs h,
  )

  pub sort-set_of_canonical :
      ⦃e : Eq A⦄ (xs : List A) → sort (set_of (sort (set_of xs))) ≡ sort (set_of xs)
  sort-set_of_canonical xs =
      let increasing = Increasing-sort (set_of xs) (Distinct-set_of xs) in
      rw (set_of-Distinct _ (Increasing-Distinct _ increasing)) (sort-Increasing _ increasing)

-- `sorted(values, key=key)`: stable, by the order of the keys.
module _ {A B : Type 0} ⦃o : Ord B⦄ (key : A → B) where
  insert_by : A → List A → List A
  insert_by x [] = x ∷ []
  insert_by x (y ∷ ys) =
      let rest = y ∷ insert_by x ys in if less (key y) (key x) then rest else x ∷ y ∷ ys

  unfoldable pub sort_by : List A → List A
  unfolding insert_by
  sort_by [] = []
  sort_by (x ∷ xs) = insert_by x (sort_by xs)

  In-insert_by : (a x : A) (ys : List A) → In a (insert_by x ys) → (a ≡ x) ⊎ In a ys
  unfolding insert_by
  In-insert_by a x [] m = m
  In-insert_by a x (y ∷ ys) m = ground (arith, In-insert_by a x ys)

  In-insert_by_inverse : (a x : A) (ys : List A) → (a ≡ x) ⊎ In a ys → In a (insert_by x ys)
  unfolding insert_by
  In-insert_by_inverse a x [] m = m
  In-insert_by_inverse a x (y ∷ ys) m = ground (arith, In-insert_by_inverse a x ys)

  pub In-sort_by : (a : A) (xs : List A) → In a (sort_by xs) → In a xs
  unfolding sort_by
  In-sort_by a [] m = m
  In-sort_by a (x ∷ xs) m = ground (arith, In-insert_by a x (sort_by xs), In-sort_by a xs)

  pub In-sort_by_inverse : (a : A) (xs : List A) → In a xs → In a (sort_by xs)
  unfolding sort_by
  In-sort_by_inverse a [] m = m
  In-sort_by_inverse a (x ∷ xs) m =
      In-insert_by_inverse a x (sort_by xs) (ground (arith, In-sort_by_inverse a xs))

  map-insert_by : (x : A) (ys : List A) → map key (insert_by x ys) ≡ insert (key x) (map key ys)
  unfolding insert_by insert
  map-insert_by x [] = refl
  map-insert_by x (y ∷ ys) = ground (arith, map-insert_by x ys)

  pub map-sort_by : (xs : List A) → map key (sort_by xs) ≡ sort (map key xs)
  unfolding sort_by sort
  map-sort_by [] = refl
  map-sort_by (x ∷ xs) = map-insert_by x (sort_by xs) ∙ ap (insert (key x)) (map-sort_by xs)

-- Images that are distinct stay so.
module _ {A B C : Type 0} ⦃o : Ord B⦄ (key : A → B) (image : A → C) where
  Distinct-map-insert_by :
      (x : A) (ys : List A)
      → (In (image x) (map image ys) → ⊥)
      → Distinct (map image ys)
      → Distinct (map image (insert_by key x ys))
  unfolding insert_by
  Distinct-map-insert_by x [] new d = (new, tt)
  Distinct-map-insert_by x (y ∷ ys) new (first, d) = elim (Bool-cases (less (key y) (key x))) [
    | inl under ↦
        let first' : In (image y) (map image (insert_by key x ys)) → ⊥ = λ m.
          let (a, found, same) = In-map image (image y) (insert_by key x ys) m in
          elim (In-insert_by key a x ys found) [
            | inl here ↦ new (inl (sym (same ∙ ap image here)))
            | inr there ↦ first (rw same (In-map_inverse image a ys there))
          ] in
        rw under (first', Distinct-map-insert_by x ys (λ m. new (inr m)) d)
    | inr over ↦ rw over (new, (first, d))
  ]

  pub Distinct-map-sort_by :
      (xs : List A) → Distinct (map image xs) → Distinct (map image (sort_by key xs))
  unfolding sort_by
  Distinct-map-sort_by [] d = tt
  Distinct-map-sort_by (x ∷ xs) (new, d) =
      let new' : In (image x) (map image (sort_by key xs)) → ⊥ = λ m.
        let (a, found, same) = In-map image (image x) (sort_by key xs) m in
        new (rw same (In-map_inverse image a xs (In-sort_by key a xs found))) in
      Distinct-map-insert_by x (sort_by key xs) new' (Distinct-map-sort_by xs d)

module _ {A B : Type 0} ⦃e : Eq A⦄ ⦃f : Eq B⦄ where
  abbrev pub pair_beq : A × B → A × B → Bool
  pair_beq (a, b) (c, d) = a == c && b == d

  pub pair_beq_iff : (x y : A × B) → (pair_beq x y ≡ true) ↔ (x ≡ y)
  pair_beq_iff (a, b) (c, d) = ground (arith, e.beq_iff a c, f.beq_iff b d)

instance abbrev pub pair_eq : {A B : Type 0} ⦃e : Eq A⦄ ⦃f : Eq B⦄ → Eq (A × B)
pair_eq = record { beq = pair_beq; beq_iff = pair_beq_iff }

module _ {A B : Type 0} ⦃o : Ord A⦄ ⦃r : Ord B⦄ where
  abbrev pub pair_lt : A × B → A × B → Bool
  pair_lt (a, b) (c, d) = if less a c then true else if less c a then false else less b d

  pub pair_lt_irrefl : (x : A × B) → pair_lt x x ≡ false
  pair_lt_irrefl (a, b) = ground (arith, o.lt_irrefl a, r.lt_irrefl b)

  pub pair_lt_trans : (x y z : A × B) → pair_lt x y ≡ true → pair_lt y z ≡ true → pair_lt x z ≡ true
  pair_lt_trans (a, b) (c, d) (i, j) h k = ground (
    arith,
    o.lt_trans a c i,
    o.lt_trans c i a,
    o.lt_trans i a c,
    o.lt_trans c a i,
    o.lt_connex a c,
    o.lt_connex c i,
    o.lt_connex a i,
    r.lt_trans b d j,
  )

  pub pair_lt_connex : (x y : A × B) → pair_lt x y ≡ false → pair_lt y x ≡ false → x ≡ y
  pair_lt_connex (a, b) (c, d) h k = ground (arith, o.lt_connex a c, r.lt_connex b d)

instance abbrev pub pair_ord : {A B : Type 0} ⦃o : Ord A⦄ ⦃r : Ord B⦄ → Ord (A × B)
pair_ord = record {
  lt = pair_lt;
  lt_irrefl = pair_lt_irrefl;
  lt_trans = pair_lt_trans;
  lt_connex = pair_lt_connex;
}
