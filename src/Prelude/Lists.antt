-- ===== src/Prelude/Lists.antt =====
-- Lists over the native numbers, and predicates by recursion.
use Prim.Native.Nat.{ℕ, zero, suc, ◌+◌}
use mathlib.Core.Path.{◌≡◌, refl, ap, sym, ◌∙◌}
use mathlib.Core.Logic.{◌⊎◌, inl, inr}
use mathlib.Core.Bool.{Bool, true, false, ◌&&◌, ◌||◌}
use mathlib.Core.Option.{Option, none, some}
use mathlib.Core.List.{List, [], ◌∷◌, ◌++◌, map}
use native.Mathlib.Omega.{arith}
use projectkoios_references.Prelude.Tests.{if◌then◌else◌, Bool-cases}

module _ {ℓ} {A : Type ℓ} where
  abbrev pub length : List A → ℕ
  length [] = 0
  length (x ∷ xs) = suc (length xs)

  abbrev pub get_elem? : List A → ℕ → Option A
  get_elem? [] i = none
  get_elem? (x ∷ xs) zero = some x
  get_elem? (x ∷ xs) (suc i) = get_elem? xs i

  abbrev pub take : ℕ → List A → List A
  take zero xs = []
  take (suc n) [] = []
  take (suc n) (x ∷ xs) = x ∷ take n xs

  abbrev pub drop : ℕ → List A → List A
  drop zero xs = xs
  drop (suc n) [] = []
  drop (suc n) (x ∷ xs) = drop n xs

  abbrev pub any : (A → Bool) → List A → Bool
  any p [] = false
  any p (x ∷ xs) = p x || any p xs

  abbrev pub all : (A → Bool) → List A → Bool
  all p [] = true
  all p (x ∷ xs) = p x && all p xs

  -- The elements that pass a test, in order.
  abbrev pub select : (A → Bool) → List A → List A
  select p [] = []
  select p (x ∷ xs) = let rest = select p xs in if p x then x ∷ rest else rest

  pub length-append : (xs ys : List A) → length (xs ++ ys) ≡ length xs + length ys
  length-append [] ys = omega arith
  length-append (x ∷ xs) ys = omega (arith, length-append xs ys)

module _ {A : Type 0} where
  -- Membership with its position forgotten, as a sum, so that proofs can split on it.
  abbrev pub In : A → List A → Type 0
  In a [] = ⊥
  In a (x ∷ xs) = (a ≡ x) ⊎ In a xs

  pub In-append_left : (a : A) (xs ys : List A) → In a xs → In a (xs ++ ys)
  In-append_left a [] ys h = elim h [ ]
  In-append_left a (x ∷ xs) ys (inl e) = inl e
  In-append_left a (x ∷ xs) ys (inr h) = inr (In-append_left a xs ys h)

  pub In-append_right : (a : A) (xs ys : List A) → In a ys → In a (xs ++ ys)
  In-append_right a [] ys h = h
  In-append_right a (x ∷ xs) ys h = inr (In-append_right a xs ys h)

  pub In-append : (a : A) (xs ys : List A) → In a (xs ++ ys) → In a xs ⊎ In a ys
  In-append a [] ys h = inr h
  In-append a (x ∷ xs) ys (inl e) = inl (inl e)
  In-append a (x ∷ xs) ys (inr h) = elim (In-append a xs ys h) [
    | inl p ↦ inl (inr p)
    | inr p ↦ inr p
  ]

module _ {ℓ κ} {A : Type ℓ} (P : A → Type κ) where
  abbrev pub All : List A → Type κ
  All [] = Unit
  All (x ∷ xs) = P x × All xs

  pub All-append : (xs ys : List A) → All xs → All ys → All (xs ++ ys)
  All-append [] ys h k = k
  All-append (x ∷ xs) ys (p, h) k = (p, All-append xs ys h k)

pub List-cases {ℓ} :
    {A : Type ℓ} (xs : List A) → (xs ≡ []) ⊎ ((x : A) × (ys : List A) × (xs ≡ x ∷ ys))
List-cases [] = inl refl
List-cases (x ∷ xs) = inr (x, xs, refl)

-- Each element stands in the relation to the next.
abbrev pub IsChain {κ} : {A : Type 0} → (A → A → Type κ) → List A → Type κ
IsChain R [] = Unit
IsChain R (x ∷ []) = Unit
IsChain R (x ∷ y ∷ rest) = R x y × IsChain R (y ∷ rest)

pub IsChain-cons {κ} :
    {A : Type 0} (R : A → A → Type κ) (x y : A) (rest : List A)
    → R x y
    → IsChain R (y ∷ rest)
    → IsChain R (x ∷ y ∷ rest)
IsChain-cons R x y rest r h = (r, h)

abbrev pub Distinct : {A : Type 0} → List A → Type 0
Distinct [] = Unit
Distinct (x ∷ xs) = (In x xs → ⊥) × Distinct xs

-- The last element of a list that begins with the first argument.
abbrev pub last_from {ℓ} : {A : Type ℓ} → A → List A → A
last_from x [] = x
last_from x (y ∷ rest) = last_from y rest

pub All-In : {A : Type 0} (P : A → Type 0) (a : A) (xs : List A) → All P xs → In a xs → P a
All-In P a [] h m = elim m [ ]
All-In P a (x ∷ xs) (p, h) (inl e) = rw e p
All-In P a (x ∷ xs) (p, h) (inr m) = All-In P a xs h m

pub All-map :
    {A : Type 0} (P Q : A → Type 0) (xs : List A) → ((x : A) → P x → Q x) → All P xs → All Q xs
All-map P Q [] f h = tt
All-map P Q (x ∷ xs) f (p, h) = (f x p, All-map P Q xs f h)

pub In-map :
    {A B : Type 0} (f : A → B) (b : B) (xs : List A)
    → In b (map f xs)
    → (a : A) × In a xs × (b ≡ f a)
In-map f b [] m = elim m [ ]
In-map f b (x ∷ xs) (inl e) = (x, inl refl, e)
In-map f b (x ∷ xs) (inr m) = let (a, found, e) = In-map f b xs m in (a, inr found, e)

pub In-map_inverse :
    {A B : Type 0} (f : A → B) (a : A) (xs : List A) → In a xs → In (f a) (map f xs)
In-map_inverse f a [] m = elim m [ ]
In-map_inverse f a (x ∷ xs) (inl e) = inl (ap f e)
In-map_inverse f a (x ∷ xs) (inr m) = inr (In-map_inverse f a xs m)

pub length-map : {A B : Type 0} (f : A → B) (xs : List A) → length (map f xs) ≡ length xs
length-map f [] = refl
length-map f (x ∷ xs) = omega (arith, length-map f xs)

-- Where the images are distinct, an image stands for one element.
pub Distinct-map_injective :
    {A B : Type 0} (f : A → B) (a b : A) (xs : List A)
    → Distinct (map f xs)
    → In a xs
    → In b xs
    → f a ≡ f b
    → a ≡ b
Distinct-map_injective f a b [] d m n e = elim m [ ]
Distinct-map_injective f a b (x ∷ xs) (new, d) (inl p) (inl q) e = p ∙ sym q
Distinct-map_injective f a b (x ∷ xs) (new, d) (inl p) (inr n) e =
    absurd (new (rw (ap f (sym p) ∙ e) (In-map_inverse f b xs n)))
Distinct-map_injective f a b (x ∷ xs) (new, d) (inr m) (inl q) e =
    absurd (new (rw (ap f (sym q) ∙ sym e) (In-map_inverse f a xs m)))
Distinct-map_injective f a b (x ∷ xs) (new, d) (inr m) (inr n) e =
    Distinct-map_injective f a b xs d m n e

pub In-select :
    {A : Type 0} (p : A → Bool) (a : A) (xs : List A) → In a (select p xs) → In a xs × (p a ≡ true)
In-select p a [] m = elim m [ ]
In-select p a (x ∷ xs) m = elim (Bool-cases (p x)) [
  | inl kept ↦ elim (let z : In a (x ∷ select p xs) = rw kept at m in z) [
    | inl e ↦ (inl e, rw e kept)
    | inr n ↦ let (found, h) = In-select p a xs n in (inr found, h)
  ]
  | inr dropped ↦ let (found, h) = In-select p a xs (rw dropped at m) in (inr found, h)
]

pub In-select_inverse :
    {A : Type 0} (p : A → Bool) (a : A) (xs : List A) → In a xs → p a ≡ true → In a (select p xs)
In-select_inverse p a [] m h = m
In-select_inverse p a (x ∷ xs) m h = elim (Bool-cases (p x)) [
  | inl kept ↦ rw kept (elim m [ inl e ↦ inl e | inr n ↦ inr (In-select_inverse p a xs n h) ])
  | inr dropped ↦
      rw dropped (elim m [ inl e ↦ absurd (cc (ap p e)) | inr n ↦ In-select_inverse p a xs n h ])
]

pub All-self : {A : Type 0} (xs : List A) → All (λ x. In x xs) xs
All-self [] = tt
All-self (x ∷ xs) =
    (inl refl, All-map (λ y. In y xs) (λ y. In y (x ∷ xs)) xs (λ y m. inr m) (All-self xs))
