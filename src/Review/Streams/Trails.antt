-- ===== src/Review/Streams/Trails.antt =====
-- The walk along one stream as a relation, and what a walk that ends has visited.
use projectkoios_references.Prelude.{
  or_empty, >>-eq-ok, >>=-eq-ok, All, All-In, All-map, Bool-cases, Dict, Distinct, In, In-map,
  IsChain, List, List-cases, Option, Result, [], any, ap, arith, false, get, inl, inr, last_from,
  length, list_eq, list_ord, map, nat_eq, nat_ord, ne_of_==, ok, ok-injective, option_eq,
  or-eq-false, raise_if-eq-ok, refl, subst, suc, sym, zero, ℕ, ◌+◌, ◌==◌, ◌∷◌, ◌≡◌,
}
use projectkoios_references.Text.{Text}
use projectkoios_references.Review.Types.{ReviewTransitionKind, ReviewError}
use projectkoios_references.Review.Streams.{Walk, walk}

module _ {A : Type 0} (identity : A → Text) (key : A → List Text)
    (transition : A → ReviewTransitionKind) (prior : A → Option Text) (value : A → Text)
    (change : A → A → Result ReviewError (Unit {0})) (children : Dict Text (List A)) where
  -- One step of a history: the next record is listed under this one and changes its state lawfully.
  abbrev pub Follows : A → A → Type 0
  Follows a b =
      In b (or_empty (get (identity a) children))
      × ((value b == value a) ≡ false)
      × (change a b ≡ ok tt)

  pub data Trail : A → List Text → Walk A → Type 0 where
    stop :
        {item : A} {seen : List Text}
        → any (λ s. identity item == s) seen ≡ false
        → Trail item seen
            (record { path = item ∷ []; seen = identity item ∷ seen; last = identity item })
    onward :
        {item next : A} {seen : List Text} {w : Walk A}
        → any (λ s. identity item == s) seen ≡ false
        → Follows item next
        → Trail next (identity item ∷ seen) w
        → Trail item seen (record { path = item ∷ w.path; seen = w.seen; last = w.last })

  pub walk-Trail :
      (fuel : ℕ) (item : A) (seen : List Text) {w : Walk A}
      → walk identity key transition prior value change fuel children item seen ≡ ok w
      → Trail item seen w
  unfolding walk
  walk-Trail zero item seen h = cc
  walk-Trail (suc fuel) item seen {w} h = elim (Bool-cases (any (λ s. identity item == s) seen)) [
    | inl again ↦ absurd (cc (rw again at h))
    | inr fresh ↦
        let h' = rw fresh at h in
        elim (List-cases (or_empty (get (identity item) children))) [
          | inl ended ↦ rw (← ok-injective (rw ended at h')) (stop fresh)
          | inr (next, more, e) ↦
              let (differs, lawful_rest) = >>-eq-ok _ _ (rw e at h') in
              let (lawful, walked_rest) = >>-eq-ok _ _ lawful_rest in
              let (w', walked, made) = >>=-eq-ok _ _ walked_rest in
              subst (λ v. Trail item seen v) (ok-injective made)
                (onward {next = next} fresh (rw e (inl refl), raise_if-eq-ok _ _ differs, lawful)
                  (walk-Trail fuel next (identity item ∷ seen) walked))
        ]
  ]

  -- What a finished walk has visited.
  pub record IsVisit (item : A) (seen : List Text) (w : Walk A) : Type 0 where
    pub rest : List A
    pub starts : w.path ≡ item ∷ rest
    pub chain : IsChain Follows (item ∷ rest)
    pub counted : length w.seen ≡ length w.path + length seen
    pub fresh : All (λ x. any (λ s. identity x == s) seen ≡ false) w.path
    pub distinct : Distinct (map identity w.path)
    pub ends : w.last ≡ identity (last_from item rest)

  pub Trail-IsVisit :
      {item : A} {seen : List Text} {w : Walk A} → Trail item seen w → IsVisit item seen w
  Trail-IsVisit (stop {item} {seen} new) = record {
    rest = [];
    starts = refl;
    chain = tt;
    counted = omega arith;
    fresh = (new, tt);
    distinct = ((λ m. m), tt);
    ends = refl;
  }
  Trail-IsVisit (onward {item} {next} {seen} {w} new follows trail) =
      let v = Trail-IsVisit trail in
      let new_id : In (identity item) (map identity w.path) → ⊥ = λ m.
        let (x, found, same) = In-map identity (identity item) w.path m in
        ne_of_== (identity x) (identity item) (or-eq-false _ _ (All-In _ x w.path v.fresh found)).0
          (sym same) in
      record {
        rest = next ∷ v.rest;
        starts = ap (λ (xs : List A). item ∷ xs) v.starts;
        chain = (follows, v.chain);
        counted = omega (arith, v.counted);
        fresh = (new, All-map _ _ w.path (λ x h. (or-eq-false _ _ h).1) v.fresh);
        distinct = (new_id, v.distinct);
        ends = v.ends;
      }
