-- ===== src/StateProjection/Progress.antt =====
-- Which errors are left to a replay of accepted claims: those of a size limit.
pub mod Values
pub mod Fields
pub mod Replay
pub mod Success
use projectkoios_references.Prelude.{
  ==_refl, >>-ok, Bool, Eq, In, List, Result, [], ap, err, false, inl, inr, list_eq, list_ord,
  nat_eq, nat_ord, not, not-eq-false, ok, option_eq, pair_eq, pair_ord, raise_if, raise_if-eq-ok,
  raise_if-ok, refl, set_of, sort, subst, sym, true, ◌-◌, ◌==◌, ◌>>=◌, ◌>>◌, ◌∷◌, ◌≡◌,
}
use projectkoios_references.Text.{Text}
use projectkoios_references.Review.Checks.{matches_content_id}
use projectkoios_references.StateProjection.{
  StateError, csv_field_limit, projection_bytes_limit, ids_not_canonical,
}
use projectkoios_references.StateProjection.Values.{
  content_identity, each_content_identity, ordered_unique_content_ids, bounded_csv_projection_field,
}

-- The limits on the size of a CSV field and of the whole projection.
abbrev pub IsLimit : StateError → Type 0
IsLimit (csv_field_limit label) = Unit
IsLimit projection_bytes_limit = Unit
IsLimit _ = ⊥

abbrev pub OnlyLimits : {A : Type 0} → Result StateError A → Type 0
OnlyLimits (ok a) = Unit
OnlyLimits (err e) = IsLimit e

pub OnlyLimits-ok : {A : Type 0} {r : Result StateError A} (a : A) → r ≡ ok a → OnlyLimits r
OnlyLimits-ok a h = subst OnlyLimits (sym h) tt

pub OnlyLimits->> :
    {A : Type 0} (m : Result StateError (Unit {0})) (k : Result StateError A)
    → OnlyLimits m
    → OnlyLimits k
    → OnlyLimits (m >> k)
OnlyLimits->> (ok a) k h l = l
OnlyLimits->> (err e) k h l = h

pub OnlyLimits->>= :
    {A B : Type 0} (m : Result StateError A) (f : A → Result StateError B)
    → OnlyLimits m
    → ((a : A) → m ≡ ok a → OnlyLimits (f a))
    → OnlyLimits (m >>= f)
OnlyLimits->>= (ok a) f h l = l a refl
OnlyLimits->>= (err e) f h l = h

-- After a step that succeeds, a test that fails, or the CSV limit.
pub OnlyLimits-after :
    {A : Type 0} (m : Result StateError (Unit {0})) (k : Result StateError A)
    → m ≡ ok tt
    → OnlyLimits k
    → OnlyLimits (m >> k)
OnlyLimits-after m k h l = rw h l

pub OnlyLimits-unless :
    {A : Type 0} (b : Bool) (e : StateError) (k : Result StateError A)
    → b ≡ false
    → OnlyLimits k
    → OnlyLimits (raise_if b e >> k)
OnlyLimits-unless b e k h l = rw h l

pub OnlyLimits-raise_if : (b : Bool) (e : StateError) → IsLimit e → OnlyLimits (raise_if b e)
OnlyLimits-raise_if true e h = h
OnlyLimits-raise_if false e h = tt

pub OnlyLimits-csv :
    (vs : List Text) (label : Text) → OnlyLimits (bounded_csv_projection_field vs label)
unfolding bounded_csv_projection_field
OnlyLimits-csv vs label = OnlyLimits-raise_if _ (csv_field_limit label) tt

pub OnlyLimits-after_csv :
    {A : Type 0} (vs : List Text) (label : Text) (k : Result StateError A)
    → OnlyLimits k
    → OnlyLimits (bounded_csv_projection_field vs label >> k)
OnlyLimits-after_csv vs label k l =
    OnlyLimits->> (bounded_csv_projection_field vs label) k (OnlyLimits-csv vs label) l

pub content_identity-eq-ok :
    (s label : Text) → content_identity s label ≡ ok tt → matches_content_id s ≡ true
unfolding content_identity
content_identity-eq-ok s label h = not-eq-false (matches_content_id s) (raise_if-eq-ok _ _ h)

pub content_identity_ok :
    (s label : Text) → matches_content_id s ≡ true → content_identity s label ≡ ok tt
unfolding content_identity
content_identity_ok s label h = raise_if-ok _ _ (rw h refl)

each_content_identity_ok :
    (values : List Text) (label : Text)
    → ((s : Text) → In s values → matches_content_id s ≡ true)
    → each_content_identity values label ≡ ok tt
unfolding each_content_identity
each_content_identity_ok [] label h = refl
each_content_identity_ok (s ∷ ss) label h =
    >>-ok (content_identity s label) _ (content_identity_ok s label (h s (inl refl)))
      (each_content_identity_ok ss label (λ t m. h t (inr m)))

pub ordered_unique_content_ids_ok :
    (values : List Text) (label : Text)
    → sort (set_of values) ≡ values
    → ((s : Text) → In s values → matches_content_id s ≡ true)
    → ordered_unique_content_ids values label ≡ ok tt
unfolding ordered_unique_content_ids
ordered_unique_content_ids_ok values label canonical h =
    >>-ok (raise_if (not (sort (set_of values) == values)) (ids_not_canonical label)) _
      (raise_if-ok _ _ (rw canonical (ap not (==_refl values))))
      (each_content_identity_ok values label h)

pub not-nil : {A : Type 0} ⦃e : Eq A⦄ (a : A) (xs : List A) → In a xs → (xs == []) ≡ false
not-nil a [] m = elim m [ ]
not-nil a (x ∷ xs) m = refl

pub not-== : {A : Type 0} ⦃e : Eq A⦄ (a b : A) → a ≡ b → not (a == b) ≡ false
not-== a b h = rw h (ap not (==_refl b))
