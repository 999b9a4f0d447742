-- ===== src/Review/Streams/Determined.antt =====
-- The result of a replay is determined by the set of the records: their order does not matter.
use projectkoios_references.Prelude.{
  All, All-In, Distinct, In, In-map_inverse, Increasing, IsChain, List, Option, Ord, Result, [], ap,
  inl, inr, less, list_eq, list_ord, map, nat_eq, nat_ord, ok, option_eq, refl, some, subst, sym,
  true, ◌↔◌, ◌∙◌, ◌∷◌, ◌≡◌,
}
use projectkoios_references.Text.{Text}
use projectkoios_references.Review.Types.{ReviewError, ReviewTransitionKind}
use projectkoios_references.Review.Streams.{Walk, replay_streams}
use projectkoios_references.Review.Streams.Histories.{IsHistory, Supersedes}
use projectkoios_references.Review.Streams.Replays.{
  IsReplay, paths, lasts, stream_keys, replay_streams-IsReplay,
}

module _ {A : Type 0} ⦃o : Ord A⦄ where
  not_below : (x : A) (xs : List A) → All (λ y. less x y ≡ true) xs → In x xs → ⊥
  not_below x xs h m = cc (All-In (λ y. less x y ≡ true) x xs h m, o.lt_irrefl x)

  below_both :
      (x y : A) (xs ys : List A)
      → All (λ z. less x z ≡ true) xs
      → All (λ z. less y z ≡ true) ys
      → In x (y ∷ ys)
      → In y (x ∷ xs)
      → x ≡ y
  below_both x y xs ys h k (inl e) n = e
  below_both x y xs ys h k (inr m) (inl e) = sym e
  below_both x y xs ys h k (inr m) (inr n) =
      let down = All-In (λ z. less x z ≡ true) y xs h n in
      let up = All-In (λ z. less y z ≡ true) x ys k m in
      cc (o.lt_trans x y x down up, o.lt_irrefl x)

  -- Strictly increasing lists with the same elements are equal.
  Increasing-unique :
      (xs ys : List A)
      → Increasing xs
      → Increasing ys
      → ((a : A) → In a xs → In a ys)
      → ((a : A) → In a ys → In a xs)
      → xs ≡ ys
  Increasing-unique [] [] h k f g = refl
  Increasing-unique [] (y ∷ ys) h k f g = absurd (g y (inl refl))
  Increasing-unique (x ∷ xs) [] h k f g = absurd (f x (inl refl))
  Increasing-unique (x ∷ xs) (y ∷ ys) (below, h) (above, k) f g =
      let e = below_both x y xs ys below above (f x (inl refl)) (g y (inl refl)) in
      let rest =
        Increasing-unique xs ys h k
          (λ a m. elim (f a (inr m)) [
            | inl p ↦ absurd (not_below x xs below (rw (e ∙ sym p) m))
            | inr n ↦ n
          ])
          (λ a m. elim (g a (inr m)) [
            | inl p ↦ absurd (not_below y ys above (rw (sym e ∙ sym p) m))
            | inr n ↦ n
          ]) in
      cc

module _ {A : Type 0} (identity : A → Text) (key : A → List Text)
    (transition : A → ReviewTransitionKind) (prior : A → Option Text) (value : A → Text)
    (change : A → A → Result ReviewError (Unit {0})) where
  abbrev IsLinked : List A → Type 0
  IsLinked = IsChain (Supersedes identity key transition prior value change)

  -- In a chain every record but the first supersedes a record of the chain.
  predecessor :
      (a y : A) (l : List A)
      → IsLinked (a ∷ l)
      → In y l
      → (p : A) × In p (a ∷ l) × (prior y ≡ some (identity p))
  predecessor a y [] h m = elim m [ ]
  predecessor a y (b ∷ l) ((parent, _, _), h) (inl e) = (a, inl refl, rw e parent)
  predecessor a y (b ∷ l) (_, h) (inr m) = let (p, n, e) = predecessor b y l h m in (p, inr n, e)

  Distinct-head :
      (x p : A) (l : List A)
      → Distinct (map identity (x ∷ l))
      → In p l
      → identity p ≡ identity x
      → ⊥
  Distinct-head x p l (new, _) m e = new (rw (sym e) (In-map_inverse identity p l m))

  -- Two chains from one record over the same records are equal.
  tails :
      (x : A) (l m : List A)
      → IsLinked (x ∷ l)
      → IsLinked (x ∷ m)
      → Distinct (map identity (x ∷ l))
      → Distinct (map identity (x ∷ m))
      → ((a : A) → In a l → In a m)
      → ((a : A) → In a m → In a l)
      → l ≡ m
  tails x [] [] h k d e f g = refl
  tails x [] (z ∷ m) h k d e f g = absurd (g z (inl refl))
  tails x (y ∷ l) [] h k d e f g = absurd (f y (inl refl))
  tails x (y ∷ l) (z ∷ m) ((py, _, _), h) ((pz, _, _), k) (dx, d) (ex, e) f g =
      let same : y ≡ z = elim (f y (inl refl)) [
        | inl p ↦ p
        | inr n ↦
            let (p, found, q) = predecessor z y m k n in
            let again : identity p ≡ identity x = cc (q, py) in
            absurd (Distinct-head x p (z ∷ m) (ex, e) found again)
      ] in
      let rest =
        tails y l m h (subst (λ a. IsLinked (a ∷ m)) (sym same) k) d
          (subst (λ a. Distinct (map identity (a ∷ m))) (sym same) e)
          (λ a n. elim (f a (inr n)) [
            | inl p ↦ absurd (Distinct-head y a l d n (ap identity (p ∙ sym same)))
            | inr q ↦ q
          ])
          (λ a n. elim (g a (inr n)) [
            | inl p ↦ absurd (Distinct-head z a m e n (ap identity (p ∙ same)))
            | inr q ↦ q
          ]) in
      cc

  module _ (xs ys : List A) (to : (r : A) → In r xs → In r ys)
      (back : (r : A) → In r ys → In r xs) where
    one_history :
        (k : List Text) (v w : Walk A)
        → IsHistory identity key transition prior value change xs k v
        → IsHistory identity key transition prior value change ys k w
        → (v.path ≡ w.path) × (v.last ≡ w.last)
    one_history k v w h g =
        let into : (r : A) → In r (h.root ∷ h.rest) → In r (g.root ∷ g.rest) = λ r m.
          let (found, same) = h.sound r (rw h.starts m) in
          rw g.starts at (g.complete r (to r found) same) in
        let from : (r : A) → In r (g.root ∷ g.rest) → In r (h.root ∷ h.rest) = λ r m.
          let (found, same) = g.sound r (rw g.starts m) in
          rw h.starts at (h.complete r (back r found) same) in
        let dh : Distinct (map identity (h.root ∷ h.rest)) = rw h.starts at h.distinct in
        let dg : Distinct (map identity (g.root ∷ g.rest)) = rw g.starts at g.distinct in
        let roots : h.root ≡ g.root = elim (into h.root (inl refl)) [
          | inl e ↦ e
          | inr m ↦ let (p, _, e) = predecessor g.root h.root g.rest g.chain m in cc (h.first)
        ] in
        let rests =
          tails h.root h.rest g.rest h.chain
            (subst (λ a. IsLinked (a ∷ g.rest)) (sym roots) g.chain) dh
            (subst (λ a. Distinct (map identity (a ∷ g.rest))) (sym roots) dg)
            (λ a n. elim (into a (inr n)) [
              | inl p ↦ absurd (Distinct-head h.root a h.rest dh n (ap identity (p ∙ sym roots)))
              | inr q ↦ q
            ])
            (λ a n. elim (from a (inr n)) [
              | inl p ↦ absurd (Distinct-head g.root a g.rest dg n (ap identity (p ∙ roots)))
              | inr q ↦ q
            ]) in
        (
          cc (h.starts, g.starts, roots, rests),
          h.ends ∙ (ap identity (cc (roots, rests)) ∙ sym g.ends),
        )

    All-histories :
        (ss ts : List (List Text × Walk A))
        → All (λ s. IsHistory identity key transition prior value change xs s.0 s.1) ss
        → All (λ s. IsHistory identity key transition prior value change ys s.0 s.1) ts
        → stream_keys ss ≡ stream_keys ts
        → (paths ss ≡ paths ts) × (lasts ss ≡ lasts ts)
    All-histories [] [] hs gs e = (refl, refl)
    All-histories [] ((j, w) ∷ ts) hs gs e = cc
    All-histories ((k, v) ∷ ss) [] hs gs e = cc
    All-histories ((k, v) ∷ ss) ((j, w) ∷ ts) (h, hs) (g, gs) e =
        let same_key : j ≡ k = cc in
        let same_keys : stream_keys ss ≡ stream_keys ts = cc in
        let (path_eq, last_eq) =
          one_history k v w h
            (subst (λ i. IsHistory identity key transition prior value change ys i w) same_key g) in
        let (paths_eq, lasts_eq) = All-histories ss ts hs gs same_keys in
        (cc (path_eq, paths_eq), cc (last_eq, lasts_eq))

  key_of_stream :
      (records : List A) (k : List Text) (ss : List (List Text × Walk A))
      → All (λ s. IsHistory identity key transition prior value change records s.0 s.1) ss
      → In k (stream_keys ss)
      → (r : A) × In r records × (key r ≡ k)
  key_of_stream records k [] hs m = elim m [ ]
  key_of_stream records k ((j, w) ∷ ss) (h, hs) (inl e) =
      let (found, same) = h.sound h.root (subst (λ l. In h.root l) (sym h.starts) (inl refl)) in
      (h.root, found, same ∙ sym e)
  key_of_stream records k ((j, w) ∷ ss) (h, hs) (inr m) = key_of_stream records k ss hs m

  IsReplay-unique :
      (xs ys : List A) {o o' : List A} {c c' : List Text}
      → ((r : A) → In r xs ↔ In r ys)
      → IsReplay identity key transition prior value change xs o c
      → IsReplay identity key transition prior value change ys o' c'
      → (o ≡ o') × (c ≡ c')
  IsReplay-unique xs ys same r s =
      let keys_eq =
        Increasing-unique (stream_keys r.streams) (stream_keys s.streams) r.in_key_order
          s.in_key_order
          (λ k m.
            let (x, found, e) = key_of_stream xs k r.streams r.histories m in
            subst (λ j. In j (stream_keys s.streams)) e (s.all_keys x ((same x).0 found)))
          (λ k m.
            let (x, found, e) = key_of_stream ys k s.streams s.histories m in
            subst (λ j. In j (stream_keys r.streams)) e (r.all_keys x ((same x).1 found))) in
      let (paths_eq, lasts_eq) =
        All-histories xs ys (λ x. (same x).0) (λ x. (same x).1) r.streams s.streams r.histories
          s.histories keys_eq in
      (
        r.ordered_paths ∙ (paths_eq ∙ sym s.ordered_paths),
        r.current_lasts ∙ (lasts_eq ∙ sym s.current_lasts),
      )

  -- Two tuples of the same records, in whatever order, that both replay give the same ordered
  -- records and the same current identities.
  pub replay_streams-order :
      (xs ys : List A) (r s : List A × List Text)
      → ((x : A) → In x xs ↔ In x ys)
      → replay_streams identity key transition prior value change xs ≡ ok r
      → replay_streams identity key transition prior value change ys ≡ ok s
      → r ≡ s
  replay_streams-order xs ys (o, c) (o', c') same h k =
      let (e, f) =
        IsReplay-unique xs ys same
          (replay_streams-IsReplay identity key transition prior value change xs o c h)
          (replay_streams-IsReplay identity key transition prior value change ys o' c' k) in
      cc
