-- ===== src/Review/Streams/Tables.antt =====
-- What the dictionaries of `_replay_streams` hold: the groups by key, the children by parent, and
-- the index by identity.
use projectkoios_references.Prelude.{
  >>-eq-ok, All, All-In, All-append, All-map, Bool-cases, Dict, Distinct, Distinct-put, In,
  In-keys-put, In-map, In-keys-put_inverse, List, Option, Option-cases, Result, [], append-nil,
  append_assoc, arith, eq_of_==, get, append_to, or_empty, or_empty-append_to, inl, inr, keys,
  length, length-put-le, list_eq, list_ord, map, nat_eq, nat_ord, ok, ok-injective, option_eq, put,
  put_new, refl, select, some, subst, suc, sym, ◌++◌, ◌+◌, ◌==◌, ◌∙◌, ◌∷◌, ◌≡◌, ◌≤◌, ◌⊎◌,
}
use projectkoios_references.Text.{Text}
use projectkoios_references.Review.Types.{ReviewError, ReviewTransitionKind}
use projectkoios_references.Review.Streams.{index_records, group_records, collect_children}

module _ {A : Type 0} (identity : A → Text) (key : A → List Text)
    (transition : A → ReviewTransitionKind) (prior : A → Option Text) (value : A → Text)
    (change : A → A → Result ReviewError (Unit {0})) where
  -- Each group holds the records of its key, in their order.
  pub get-group_records :
      (k : List Text) (records : List A) (groups : Dict (List Text) (List A))
      → or_empty (get k (group_records identity key transition prior value change records groups))
        ≡ or_empty (get k groups) ++ select (λ r. key r == k) records
  unfolding group_records
  get-group_records k [] groups = sym (append-nil _)
  get-group_records k (r ∷ rs) groups =
      get-group_records k rs (append_to (key r) r groups) ∙ elim (Bool-cases (key r == k)) [
        | inl same ↦
            rw (or_empty-append_to, same) (append_assoc (or_empty (get k groups)) (r ∷ []) _)
        | inr other ↦ rw (or_empty-append_to, other) refl
      ]

  -- What is listed under an identity are records of the stream that supersede it.
  abbrev pub ChildOf : List A → Text → A → Type 0
  ChildOf stream parent_id x = (prior x ≡ some parent_id) × In x stream

  abbrev pub IsCollected : List A → Dict Text (List A) → Type 0
  IsCollected stream d = (j : Text) → All (ChildOf stream j) (or_empty (get j d))

  IsCollected-append_to :
      (stream : List A) (d : Dict Text (List A)) (j : Text) (x : A)
      → IsCollected stream d
      → ChildOf stream j x
      → IsCollected stream (append_to j x d)
  IsCollected-append_to stream d j x h c k = rw or_empty-append_to (elim (Bool-cases (j == k)) [
    | inl same ↦ rw same (
        All-append _ _ _ (h k)
          (rw (eq_of_== j k same) at (let z : All (ChildOf stream j) (x ∷ []) = (c, tt) in z)))
    | inr other ↦ rw other (h k)
  ])

  pub collect_children-IsCollected :
      (by_id : Dict Text A) (stream_key : List Text) (root : A) (stream items : List A)
      (d : Dict Text (List A)) {children : Dict Text (List A)}
      → All (λ x. In x stream) items
      → IsCollected stream d
      → collect_children identity key transition prior value change by_id stream_key root items d
        ≡ ok children
      → IsCollected stream children
  unfolding collect_children
  collect_children-IsCollected by_id stream_key root stream [] d m c h =
      subst (IsCollected stream) (ok-injective h) c
  collect_children-IsCollected by_id stream_key root stream (x ∷ xs) d (here, m) c h =
      elim (Bool-cases (identity x == identity root)) [
        | inl same ↦
            collect_children-IsCollected by_id stream_key root stream xs d m c (rw same at h)
        | inr other ↦ elim (Option-cases (prior x)) [
          | inl e ↦ cc (rw (other, e) at h)
          | inr (j, e) ↦
              collect_children-IsCollected by_id stream_key root stream xs (append_to j x d) m
                (IsCollected-append_to stream d j x c (e, here))
                (>>-eq-ok _ _ (rw (other, e) at h)).1
        ]
      ]

  abbrev pub NotKeys : Dict Text A → A → Type 0
  NotKeys d r = In (identity r) (keys d) → ⊥

  length-index_records-le :
      (rs : List A) (d : Dict Text A)
      → length (index_records identity key transition prior value change rs d)
        ≤ length d + length rs
  unfolding index_records
  length-index_records-le [] d = omega arith
  length-index_records-le (r ∷ rs) d =
      omega
        (arith, length-index_records-le rs (put (identity r) r d), length-put-le (identity r) r d)

  -- An index as long as the list of records shows that their identities are distinct.
  pub index_records-Distinct :
      (rs : List A) (d : Dict Text A)
      → length (index_records identity key transition prior value change rs d)
        ≡ length d + length rs
      → Distinct (map identity rs) × All (NotKeys d) rs
  unfolding index_records
  index_records-Distinct [] d h = (tt, tt)
  index_records-Distinct (r ∷ rs) d h =
      let d' = put (identity r) r d in
      let longer : length d' ≡ suc (length d) =
        omega (arith, length-index_records-le rs d', length-put-le (identity r) r d) in
      let (distinct, others) = index_records-Distinct rs d' (omega arith) in
      let listed : In (identity r) (keys d') =
        In-keys-put_inverse (identity r) (identity r) r d (inl refl) in
      let new : In (identity r) (map identity rs) → ⊥ = λ m.
        let (x, found, same) = In-map identity (identity r) rs m in
        All-In (NotKeys d') x rs others found (rw (← same) listed) in
      (
        (new, distinct),
        (
          put_new (identity r) r d longer,
          All-map (NotKeys d') (NotKeys d) rs
              (λ x f m. f (In-keys-put_inverse (identity x) (identity r) r d (inr m))) others,
        ),
      )

  In-keys-append_to :
      (j k : List Text) (x : A) (d : Dict (List Text) (List A))
      → In j (keys (append_to k x d))
      → (j ≡ k) ⊎ In j (keys d)
  unfolding append_to
  In-keys-append_to j k x d = In-keys-put j k _ d

  pub In-keys-group_records :
      (k : List Text) (rs : List A) (d : Dict (List Text) (List A))
      → In k (keys (group_records identity key transition prior value change rs d))
      → In k (keys d) ⊎ In k (map key rs)
  unfolding group_records
  In-keys-group_records k [] d m = inl m
  In-keys-group_records k (r ∷ rs) d m =
      ground (
        arith,
        In-keys-group_records k rs (append_to (key r) r d) m,
        In-keys-append_to k (key r) r d,
      )

  pub In-keys-group_records_inverse :
      (k : List Text) (rs : List A) (d : Dict (List Text) (List A))
      → In k (keys d) ⊎ In k (map key rs)
      → In k (keys (group_records identity key transition prior value change rs d))
  unfolding group_records append_to
  In-keys-group_records_inverse k [] d (inl m) = m
  In-keys-group_records_inverse k [] d (inr m) = elim m [ ]
  In-keys-group_records_inverse k (r ∷ rs) d m =
      In-keys-group_records_inverse k rs (append_to (key r) r d) (elim m [
        | inl old ↦ inl (In-keys-put_inverse k (key r) _ d (inr old))
        | inr new ↦ elim new [
          | inl same ↦ inl (In-keys-put_inverse k (key r) _ d (inl same))
          | inr later ↦ inr later
        ]
      ])

  pub Distinct-group_records :
      (rs : List A) (d : Dict (List Text) (List A))
      → Distinct (keys d)
      → Distinct (keys (group_records identity key transition prior value change rs d))
  unfolding group_records append_to
  Distinct-group_records [] d h = h
  Distinct-group_records (r ∷ rs) d h =
      Distinct-group_records rs (append_to (key r) r d) (Distinct-put (key r) _ d h)
