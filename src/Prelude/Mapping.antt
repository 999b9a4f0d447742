-- ===== src/Prelude/Mapping.antt =====
-- Python's dict: an association list in insertion order. A new key is put last, an old key keeps
-- its place and takes the new value.
use mathlib.Core.Path.{◌≡◌, refl}
use mathlib.Core.Option.{Option, none, some}
use mathlib.Core.List.{List, [], ◌∷◌, ◌++◌}
use native.Mathlib.Omega.{arith}
use projectkoios_references.Prelude.Tests.{if◌then◌else◌}
use projectkoios_references.Prelude.Equality.{Eq, ◌==◌}

abbrev pub Dict {ℓ κ} : Type ℓ → Type κ → Type (ℓ ⊔ κ)
Dict K V = List (K × V)

module _ {ℓ κ} {K : Type ℓ} {V : Type κ} ⦃e : Eq K⦄ where
  unfoldable pub get : K → Dict K V → Option V
  get k [] = none
  get k ((j, v) ∷ d) = if j == k then some v else get k d

  unfoldable pub put : K → V → Dict K V → Dict K V
  put k v [] = (k, v) ∷ []
  put k v ((j, w) ∷ d) = let rest = (j, w) ∷ put k v d in if j == k then (j, v) ∷ d else rest

  pub get-put :
      (k j : K) (v : V) (d : Dict K V) → get j (put k v d) ≡ (if k == j then some v else get j d)
  unfolding get put
  get-put k j v [] = refl
  get-put k j v ((i, w) ∷ d) =
      ground (arith, e.beq_iff i k, e.beq_iff i j, e.beq_iff k j, get-put k j v d)

abbrev pub keys {ℓ κ} : {K : Type ℓ} {V : Type κ} → Dict K V → List K
keys [] = []
keys ((k, v) ∷ d) = k ∷ keys d

abbrev pub or_empty {ℓ} : {B : Type ℓ} → Option (List B) → List B
or_empty none = []
or_empty (some xs) = xs

-- groups.setdefault(key, []).append(item)
unfoldable pub append_to {ℓ} :
    {K : Type ℓ} {B : Type 0} ⦃e : Eq K⦄ → K → B → Dict K (List B) → Dict K (List B)
unfolding get put
append_to k x d = put k (or_empty (get k d) ++ x ∷ []) d

-- Reading a key after an item was put under a key.
pub or_empty-append_to {ℓ} :
    {K : Type ℓ} {B : Type 0} ⦃e : Eq K⦄ (k j : K) (x : B) (d : Dict K (List B))
    → or_empty (get j (append_to k x d))
      ≡ (if k == j then or_empty (get j d) ++ x ∷ [] else or_empty (get j d))
unfolding append_to
or_empty-append_to ⦃e⦄ k j x d =
    ground (arith, get-put k j (or_empty (get k d) ++ x ∷ []) d, e.beq_iff k j)
