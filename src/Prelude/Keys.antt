-- ===== src/Prelude/Keys.antt =====
-- The keys of a dict after a write, and distinctness after sorting.
use Prim.Native.Nat.{suc, ◌≤◌}
use mathlib.Core.Path.{◌≡◌, sym}
use mathlib.Core.Logic.{◌⊎◌, inl, inr}
use mathlib.Core.Bool.{true}
use mathlib.Core.Option.{some}
use mathlib.Core.List.{List, [], ◌∷◌}
use native.Mathlib.Omega.{arith}
use projectkoios_references.Prelude.Tests.{Bool-cases}
use projectkoios_references.Prelude.Lists.{In, Distinct, length, All, All-map}
use projectkoios_references.Prelude.Equality.{Eq, ◌==◌, ne_of_==}
use projectkoios_references.Prelude.Mapping.{Dict, get, put, keys}
use projectkoios_references.Prelude.Sorting.{
  Ord, less, insert, sort, Increasing, In-insert, In-sort,
}

module _ {K V : Type 0} ⦃e : Eq K⦄ where
  pub In-keys-put :
      (j k : K) (v : V) (d : Dict K V) → In j (keys (put k v d)) → (j ≡ k) ⊎ In j (keys d)
  unfolding put
  In-keys-put j k v [] m = m
  In-keys-put j k v ((i, w) ∷ d) m = elim (Bool-cases (i == k)) [
    | inl same ↦ inr (ground arith)
    | inr other ↦ ground (arith, In-keys-put j k v d)
  ]

  pub In-keys-put_inverse :
      (j k : K) (v : V) (d : Dict K V) → (j ≡ k) ⊎ In j (keys d) → In j (keys (put k v d))
  unfolding put
  In-keys-put_inverse j k v [] m = m
  In-keys-put_inverse j k v ((i, w) ∷ d) m =
      ground (arith, In-keys-put_inverse j k v d, e.beq_iff i k)

  pub Distinct-put :
      (k : K) (v : V) (d : Dict K V) → Distinct (keys d) → Distinct (keys (put k v d))
  unfolding put
  Distinct-put k v [] h = ((λ m. m), tt)
  Distinct-put k v ((i, w) ∷ d) (new, h) = elim (Bool-cases (i == k)) [
    | inl same ↦ rw same (new, h)
    | inr other ↦
        let new' : In i (keys (put k v d)) → ⊥ = λ m. elim (In-keys-put i k v d m) [
          | inl same ↦ ne_of_== i k other same
          | inr old ↦ new old
        ] in
        rw other (new', Distinct-put k v d h)
  ]

  pub length-put-le : (k : K) (v : V) (d : Dict K V) → length (put k v d) ≤ suc (length d)
  unfolding put
  length-put-le k v [] = omega arith
  length-put-le k v ((i, w) ∷ d) = ground (arith, length-put-le k v d)

  -- A write that makes the dict longer has a new key.
  pub put_new :
      (k : K) (v : V) (d : Dict K V) → length (put k v d) ≡ suc (length d) → In k (keys d) → ⊥
  unfolding put
  put_new k v [] h m = elim m [ ]
  put_new k v ((i, w) ∷ d) h m = ground (arith, put_new k v d, e.beq_iff i k)

  pub In-get : (k : K) (v : V) (d : Dict K V) → get k d ≡ some v → In k (keys d)
  unfolding get
  In-get k v [] h = cc
  In-get k v ((i, w) ∷ d) h = ground (arith, In-get k v d, e.beq_iff i k)

module _ {A : Type 0} ⦃o : Ord A⦄ where
  pub Distinct-insert : (x : A) (xs : List A) → (In x xs → ⊥) → Distinct xs → Distinct (insert x xs)
  unfolding insert
  Distinct-insert x [] new h = (new, tt)
  Distinct-insert x (y ∷ ys) new (first, h) = elim (Bool-cases (less y x)) [
    | inl below ↦
        let first' : In y (insert x ys) → ⊥ = λ m. elim (In-insert y x ys m) [
          | inl same ↦ new (inl (sym same))
          | inr old ↦ first old
        ] in
        rw below (first', Distinct-insert x ys (λ m. new (inr m)) h)
    | inr above ↦ rw above (new, (first, h))
  ]

  pub Distinct-sort : (xs : List A) → Distinct xs → Distinct (sort xs)
  unfolding sort
  Distinct-sort [] h = tt
  Distinct-sort (x ∷ xs) (new, h) =
      Distinct-insert x (sort xs) (λ m. new (In-sort x xs m)) (Distinct-sort xs h)

  above_head :
      (x y : A) (ys : List A)
      → less x y ≡ true
      → All (λ z. less y z ≡ true) ys
      → All (λ z. less x z ≡ true) ys
  above_head x y ys h below = All-map _ _ ys (λ z k. o.lt_trans x y z h k) below

  All-insert : (P : A → Type 0) (x : A) (xs : List A) → P x → All P xs → All P (insert x xs)
  unfolding insert
  All-insert P x [] p h = (p, tt)
  All-insert P x (y ∷ ys) p (q, h) = ground (arith, All-insert P x ys p h)

  pub Increasing-insert :
      (x : A) (xs : List A) → (In x xs → ⊥) → Increasing xs → Increasing (insert x xs)
  unfolding insert
  Increasing-insert x [] new h = (tt, tt)
  Increasing-insert x (y ∷ ys) new (below, h) = elim (Bool-cases (less y x)) [
    | inl under ↦ rw under (
      All-insert (λ z. less y z ≡ true) x ys under below,
      Increasing-insert x ys (λ m. new (inr m)) h,
    )
    | inr over ↦ elim (Bool-cases (less x y)) [
      | inl above ↦ rw over ((above, above_head x y ys above below), (below, h))
      | inr same ↦ absurd (new (inl (o.lt_connex x y same over)))
    ]
  ]

  -- Sorting distinct elements gives a strictly increasing list.
  pub Increasing-sort : (xs : List A) → Distinct xs → Increasing (sort xs)
  unfolding sort
  Increasing-sort [] h = tt
  Increasing-sort (x ∷ xs) (new, h) =
      Increasing-insert x (sort xs) (λ m. new (In-sort x xs m)) (Increasing-sort xs h)
