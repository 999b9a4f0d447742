-- ===== src/Prelude/Unordered.antt =====
-- Sorted sets and images of lists that hold the same elements, and tests of all elements.
use mathlib.Core.Path.{◌≡◌, refl, sym, subst}
use mathlib.Core.Logic.{inl, inr}
use mathlib.Core.Bool.{Bool, true, false}
use mathlib.Core.List.{List, [], ◌∷◌, map}
use native.Mathlib.Omega.{arith}
use projectkoios_references.Prelude.Lists.{
  any, all, In, Distinct, All, All-In, In-map, In-map_inverse, In-select, In-select_inverse, select,
}
use projectkoios_references.Prelude.Equality.{Eq}
use projectkoios_references.Prelude.Sorting.{Ord, less, sort, Increasing, In-sort, In-sort_inverse}
use projectkoios_references.Prelude.Keys.{Increasing-sort}
use projectkoios_references.Prelude.Sets.{set_of, In-set_of, In-set_of_inverse, Distinct-set_of}

module _ {A : Type 0} ⦃o : Ord A⦄ where
  Increasing-first :
      (x y : A) (xs ys : List A)
      → All (λ z. less x z ≡ true) xs
      → All (λ z. less y z ≡ true) ys
      → In x (y ∷ ys)
      → In y (x ∷ xs)
      → x ≡ y
  Increasing-first x y xs ys below above (inl same) n = same
  Increasing-first x y xs ys below above (inr m) (inl same) = sym same
  Increasing-first x y xs ys below above (inr m) (inr n) = ground (
    arith,
    All-In (λ z. less x z ≡ true) y xs below n,
    All-In (λ z. less y z ≡ true) x ys above m,
    o.lt_trans x y x,
    o.lt_irrefl x,
  )

  Increasing-rest :
      (x : A) (xs ys : List A)
      → All (λ z. less x z ≡ true) xs
      → ((a : A) → In a (x ∷ xs) → In a (x ∷ ys))
      → (a : A) → In a xs
      → In a ys
  Increasing-rest x xs ys below sub a m = elim (sub a (inr m)) [
    | inl same ↦ cc (All-In (λ z. less x z ≡ true) a xs below m, o.lt_irrefl x)
    | inr n ↦ n
  ]

  -- Increasing lists with the same elements are the same list.
  pub Increasing-unique :
      (xs ys : List A)
      → Increasing xs
      → Increasing ys
      → ((a : A) → In a xs → In a ys)
      → ((a : A) → In a ys → In a xs)
      → xs ≡ ys
  Increasing-unique [] [] h k sub sup = refl
  Increasing-unique [] (y ∷ ys) h k sub sup = elim (sup y (inl refl)) [ ]
  Increasing-unique (x ∷ xs) [] h k sub sup = elim (sub x (inl refl)) [ ]
  Increasing-unique (x ∷ xs) (y ∷ ys) (below, h) (above, k) sub sup =
      let same : x ≡ y =
        Increasing-first x y xs ys below above (sub x (inl refl)) (sup y (inl refl)) in
      let rest : xs ≡ ys =
        Increasing-unique xs ys h k (Increasing-rest x xs ys below (λ a m. rw same (sub a m)))
          (Increasing-rest y ys xs above (λ a m. rw (← same) (sup a m))) in
      rw (same, rest) refl

  In-sort-set_of :
      ⦃e : Eq A⦄ (xs ys : List A)
      → ((a : A) → In a xs → In a ys)
      → (a : A) → In a (sort (set_of xs))
      → In a (sort (set_of ys))
  In-sort-set_of xs ys sub a m =
      In-sort_inverse a (set_of ys)
        (In-set_of_inverse a ys (sub a (In-set_of a xs (In-sort a (set_of xs) m))))

  -- `sorted(set(values))` depends only on which values there are.
  pub sort-set_of_unique :
      ⦃e : Eq A⦄ (xs ys : List A)
      → ((a : A) → In a xs → In a ys)
      → ((a : A) → In a ys → In a xs)
      → sort (set_of xs) ≡ sort (set_of ys)
  sort-set_of_unique xs ys sub sup =
      Increasing-unique (sort (set_of xs)) (sort (set_of ys))
        (Increasing-sort (set_of xs) (Distinct-set_of xs))
        (Increasing-sort (set_of ys) (Distinct-set_of ys)) (In-sort-set_of xs ys sub)
        (In-sort-set_of ys xs sup)

-- `sorted({f(x) for x in xs})`
module _ {A B : Type 0} ⦃o : Ord B⦄ ⦃e : Eq B⦄ (f : A → B) where
  pub In-sorted_image :
      (b : B) (xs : List A) → In b (sort (set_of (map f xs))) → (x : A) × In x xs × (b ≡ f x)
  In-sorted_image b xs m = In-map f b xs (In-set_of b (map f xs) (In-sort b (set_of (map f xs)) m))

  pub In-sorted_image_inverse :
      (x : A) (xs : List A) → In x xs → In (f x) (sort (set_of (map f xs)))
  In-sorted_image_inverse x xs m =
      In-sort_inverse (f x) (set_of (map f xs))
        (In-set_of_inverse (f x) (map f xs) (In-map_inverse f x xs m))

-- Two lists with the same elements, whatever their order and number.
abbrev pub SameElements : {A : Type 0} → List A → List A → Type 0
SameElements {A} xs ys = ((a : A) → In a xs → In a ys) × ((a : A) → In a ys → In a xs)

-- Where elements with the same second image have the same first, distinctness carries over.
pub Distinct-map_of :
    {A B C : Type 0} (f : A → B) (h : A → C) (xs : List A)
    → ((a b : A) → In a xs → In b xs → f a ≡ f b → h a ≡ h b)
    → Distinct (map h xs)
    → Distinct (map f xs)
Distinct-map_of f h [] agree d = tt
Distinct-map_of f h (x ∷ xs) agree (new, d) = (
  (λ m.
      let (a, found, same) = In-map f (f x) xs m in
      new (
        subst (λ c. In c (map h xs)) (sym (agree x a (inl refl) (inr found) same))
          (In-map_inverse h a xs found))),
  Distinct-map_of f h xs (λ a b m n. agree a b (inr m) (inr n)) d,
)

-- Lists whose elements match by one image have the same second image.
pub map_agree :
    {A B C : Type 0} (f : A → B) (h : A → C) (xs ys : List A)
    → map f xs ≡ map f ys
    → ((a b : A) → In a xs → In b ys → f a ≡ f b → h a ≡ h b)
    → map h xs ≡ map h ys
map_agree f h [] [] e agree = refl
map_agree f h [] (y ∷ ys) e agree = cc
map_agree f h (x ∷ xs) [] e agree = cc
map_agree {B} f h (x ∷ xs) (y ∷ ys) e agree =
    let first : f x ≡ f y = cc in
    let rest : map f xs ≡ map f ys = cc in
    rw
      (
        agree x y (inl refl) (inl refl) first,
        map_agree f h xs ys rest (λ a b m n. agree a b (inr m) (inr n)),
      )
      refl

pub SameElements-select :
    {A : Type 0} (p : A → Bool) (xs ys : List A)
    → SameElements xs ys
    → SameElements (select p xs) (select p ys)
SameElements-select p xs ys (sub, sup) = (
  (λ a m. let (found, h) = In-select p a xs m in In-select_inverse p a ys (sub a found) h),
  (λ a m. let (found, h) = In-select p a ys m in In-select_inverse p a xs (sup a found) h),
)

pub sorted_image_unique :
    {A B : Type 0} ⦃o : Ord B⦄ ⦃e : Eq B⦄ (f : A → B) (xs ys : List A)
    → SameElements xs ys
    → sort (set_of (map f xs)) ≡ sort (set_of (map f ys))
sorted_image_unique f xs ys (sub, sup) =
    sort-set_of_unique (map f xs) (map f ys)
      (λ b m.
        let (a, found, same) = In-map f b xs m in
        subst (λ c. In c (map f ys)) (sym same) (In-map_inverse f a ys (sub a found)))
      (λ b m.
        let (a, found, same) = In-map f b ys m in
        subst (λ c. In c (map f xs)) (sym same) (In-map_inverse f a xs (sup a found)))

pub any-eq-false :
    {A : Type 0} (p : A → Bool) (xs : List A) → ((x : A) → In x xs → p x ≡ false) → any p xs ≡ false
any-eq-false p [] h = refl
any-eq-false p (x ∷ xs) h = ground (arith, h x (inl refl), any-eq-false p xs (λ y m. h y (inr m)))

pub all-eq-true :
    {A : Type 0} (p : A → Bool) (xs : List A) → ((x : A) → In x xs → p x ≡ true) → all p xs ≡ true
all-eq-true p [] h = refl
all-eq-true p (x ∷ xs) h = ground (arith, h x (inl refl), all-eq-true p xs (λ y m. h y (inr m)))

pub In-any-false :
    {A : Type 0} (p : A → Bool) (x : A) (xs : List A) → any p xs ≡ false → In x xs → p x ≡ false
In-any-false p x [] h m = elim m [ ]
In-any-false p x (y ∷ ys) h (inl same) = ground arith
In-any-false p x (y ∷ ys) h (inr m) = ground (arith, In-any-false p x ys)

pub In-all-true :
    {A : Type 0} (p : A → Bool) (x : A) (xs : List A) → all p xs ≡ true → In x xs → p x ≡ true
In-all-true p x [] h m = elim m [ ]
In-all-true p x (y ∷ ys) h (inl same) = ground arith
In-all-true p x (y ∷ ys) h (inr m) = ground (arith, In-all-true p x ys)
