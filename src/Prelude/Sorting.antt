-- ===== src/Prelude/Sorting.antt =====
-- Strict total orders, Python's `<` on texts and tuples, `sorted` and `sorted(set(...))`.
use Prim.Native.Nat.{ℕ}
use mathlib.Core.Path.{◌≡◌, refl}
use mathlib.Core.Logic.{◌⊎◌}
use mathlib.Core.Bool.{Bool, true, false}
use mathlib.Core.List.{List, [], ◌∷◌}
use native.Mathlib.Omega.{arith}
use projectkoios_references.Prelude.Tests.{ltb, if◌then◌else◌}
use projectkoios_references.Prelude.Lists.{All, In}

pub record Ord (A : Type 0) : Type 0 where
  pub lt : A → A → Bool
  pub lt_irrefl : (a : A) → lt a a ≡ false
  pub lt_trans : (a b c : A) → lt a b ≡ true → lt b c ≡ true → lt a c ≡ true
  pub lt_connex : (a b : A) → lt a b ≡ false → lt b a ≡ false → a ≡ b

abbrev pub less : {A : Type 0} ⦃o : Ord A⦄ → A → A → Bool
less ⦃o⦄ = o.lt

pub ltb_irrefl : (a : ℕ) → ltb a a ≡ false
ltb_irrefl a = ground arith

pub ltb_trans : (a b c : ℕ) → ltb a b ≡ true → ltb b c ≡ true → ltb a c ≡ true
ltb_trans a b c h k = ground arith

pub ltb_connex : (a b : ℕ) → ltb a b ≡ false → ltb b a ≡ false → a ≡ b
ltb_connex a b h k = ground arith

instance abbrev pub nat_ord : Ord ℕ
nat_ord = record { lt = ltb; lt_irrefl = ltb_irrefl; lt_trans = ltb_trans; lt_connex = ltb_connex }

module _ {A : Type 0} ⦃o : Ord A⦄ where
  -- Lexicographic, as Python compares strings and tuples.
  abbrev pub list_lt : List A → List A → Bool
  list_lt xs [] = false
  list_lt [] (y ∷ ys) = true
  list_lt (x ∷ xs) (y ∷ ys) =
      let rest = list_lt xs ys in if less x y then true else if less y x then false else rest

  pub list_lt_irrefl : (xs : List A) → list_lt xs xs ≡ false
  list_lt_irrefl [] = refl
  list_lt_irrefl (x ∷ xs) = ground (arith, o.lt_irrefl x, list_lt_irrefl xs)

  pub list_lt_trans :
      (xs ys zs : List A) → list_lt xs ys ≡ true → list_lt ys zs ≡ true → list_lt xs zs ≡ true
  list_lt_trans xs [] zs h k = cc
  list_lt_trans xs (y ∷ ys) [] h k = cc
  list_lt_trans [] (y ∷ ys) (z ∷ zs) h k = refl
  list_lt_trans (x ∷ xs) (y ∷ ys) (z ∷ zs) h k = ground (
    arith,
    list_lt_trans xs ys zs,
    o.lt_trans x y z,
    o.lt_trans y z x,
    o.lt_trans z x y,
    o.lt_trans y x z,
    o.lt_connex x y,
    o.lt_connex y z,
    o.lt_connex x z,
  )

  pub list_lt_connex : (xs ys : List A) → list_lt xs ys ≡ false → list_lt ys xs ≡ false → xs ≡ ys
  list_lt_connex [] [] h k = refl
  list_lt_connex [] (y ∷ ys) h k = cc
  list_lt_connex (x ∷ xs) [] h k = cc
  list_lt_connex (x ∷ xs) (y ∷ ys) h k =
      ground (arith, o.lt_connex x y, list_lt_connex xs ys, o.lt_irrefl x)

instance abbrev pub list_ord : {A : Type 0} ⦃o : Ord A⦄ → Ord (List A)
list_ord = record {
  lt = list_lt;
  lt_irrefl = list_lt_irrefl;
  lt_trans = list_lt_trans;
  lt_connex = list_lt_connex;
}

-- `sorted`: stable, since an element goes before those that are not below it.
module _ {A : Type 0} ⦃o : Ord A⦄ where
  unfoldable pub insert : A → List A → List A
  insert x [] = x ∷ []
  insert x (y ∷ ys) = let rest = y ∷ insert x ys in if less y x then rest else x ∷ y ∷ ys

  unfoldable pub sort : List A → List A
  unfolding insert
  sort [] = []
  sort (x ∷ xs) = insert x (sort xs)

  -- Each element is strictly below those after it.
  abbrev pub Increasing : List A → Type 0
  Increasing [] = Unit
  Increasing (x ∷ xs) = All (λ y. less x y ≡ true) xs × Increasing xs

  pub In-insert : (a x : A) (ys : List A) → In a (insert x ys) → (a ≡ x) ⊎ In a ys
  unfolding insert
  In-insert a x [] h = h
  In-insert a x (y ∷ ys) h = ground (arith, In-insert a x ys)

  pub In-insert_inverse : (a x : A) (ys : List A) → (a ≡ x) ⊎ In a ys → In a (insert x ys)
  unfolding insert
  In-insert_inverse a x [] h = h
  In-insert_inverse a x (y ∷ ys) h = ground (arith, In-insert_inverse a x ys)

  pub In-sort : (a : A) (xs : List A) → In a (sort xs) → In a xs
  unfolding sort
  In-sort a [] h = h
  In-sort a (x ∷ xs) h = ground (arith, In-insert a x (sort xs), In-sort a xs)

  pub In-sort_inverse : (a : A) (xs : List A) → In a xs → In a (sort xs)
  unfolding sort
  In-sort_inverse a [] h = h
  In-sort_inverse a (x ∷ xs) h =
      In-insert_inverse a x (sort xs) (ground (arith, In-sort_inverse a xs))
