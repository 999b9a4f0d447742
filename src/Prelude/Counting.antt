-- ===== src/Prelude/Counting.antt =====
-- A list with distinct elements that is no shorter than a list that holds them holds all of it.
use Prim.Native.Nat.{suc, ◌≤◌}
use mathlib.Core.Path.{◌≡◌, refl}
use mathlib.Core.Logic.{inl, inr}
use mathlib.Core.List.{List, [], ◌∷◌}
use native.Mathlib.Omega.{arith}
use projectkoios_references.Prelude.Tests.{if◌then◌else◌, Bool-cases}
use projectkoios_references.Prelude.Lists.{In, Distinct, length}
use projectkoios_references.Prelude.Equality.{Eq, ◌==◌, eq_of_==, ne_of_==}

module _ {A : Type 0} ⦃e : Eq A⦄ where
  remove : A → List A → List A
  remove x [] = []
  remove x (y ∷ ys) = let rest = y ∷ remove x ys in if y == x then ys else rest

  length-remove : (x : A) (ys : List A) → In x ys → length ys ≡ suc (length (remove x ys))
  unfolding remove
  length-remove x [] m = elim m [ ]
  length-remove x (y ∷ ys) m = ground (arith, length-remove x ys, e.beq_iff y x)

  In-remove : (a x : A) (ys : List A) → In a ys → (a ≡ x → ⊥) → In a (remove x ys)
  unfolding remove
  In-remove a x [] m ne = m
  In-remove a x (y ∷ ys) m ne = elim (Bool-cases (y == x)) [
    | inl same ↦ rw same (elim m [ inl h ↦ absurd (ne (cc (eq_of_== y x same))) | inr h ↦ h ])
    | inr other ↦ rw other (elim m [ inl h ↦ inl h | inr h ↦ inr (In-remove a x ys h ne) ])
  ]

  pub Distinct-covers :
      (xs ys : List A)
      → Distinct xs
      → ((a : A) → In a xs → In a ys)
      → length ys ≤ length xs
      → (a : A) → In a ys
      → In a xs
  Distinct-covers [] [] d sub le a m = m
  Distinct-covers [] (y ∷ ys) d sub le a m = absurd (omega arith)
  Distinct-covers (x ∷ xs) ys (new, d) sub le a m = elim (Bool-cases (a == x)) [
    | inl same ↦ inl (eq_of_== a x same)
    | inr other ↦ inr (
        Distinct-covers xs (remove x ys) d
          (λ b h. In-remove b x ys (sub b (inr h)) (λ k. new (rw (← k) h)))
          (omega (arith, length-remove x ys (sub x (inl refl)))) a
          (In-remove a x ys m (ne_of_== a x other)))
  ]

  pub Distinct-length-le :
      (xs ys : List A) → Distinct xs → ((a : A) → In a xs → In a ys) → length xs ≤ length ys
  Distinct-length-le [] ys d sub = omega arith
  Distinct-length-le (x ∷ xs) ys (new, d) sub = omega (
    arith,
    length-remove x ys (sub x (inl refl)),
    Distinct-length-le xs (remove x ys) d
        (λ b h. In-remove b x ys (sub b (inr h)) (λ k. new (rw (← k) h))),
  )
