-- ===== src/Review/Streams/Ends.antt =====
-- The walk along a stream ends: its fuel is never used up.
use projectkoios_references.Prelude.{
  append_to, or_empty, >>-eq-err, All-In, All-self, Bool-cases, Dict, Distinct, Distinct-length-le,
  In, In-select, In-map_inverse, List, List-cases, Option, Option-cases, Result, Result-cases, [],
  any, arith, err, false, get, inl, inr, keys, length, length-map, list_eq, list_ord, map, nat_eq,
  nat_ord, ne_of_==, none, not, option_eq, or-eq-false, raise_if-eq-err, refl, select, sort, suc,
  zero, ℕ, ◌+◌, ◌==◌, ◌∷◌, ◌≡◌, ◌≢◌, ◌≤◌,
}
use projectkoios_references.Text.{Text}
use projectkoios_references.Review.Types.{
  ReviewError, ReviewTransitionKind, is_initial, out_of_fuel,
}
use projectkoios_references.Review.Streams.{
  find_parent, collect_children, walk, replay_stream, replay_groups, replay_streams, index_records,
  one_each, group_records,
}
use projectkoios_references.Review.Streams.Tables.{
  IsCollected, ChildOf, collect_children-IsCollected,
}

any-false→In : (s : Text) (seen : List Text) → any (λ t. s == t) seen ≡ false → In s seen → ⊥
any-false→In s [] h m = m
any-false→In s (t ∷ seen) h (inl e) = ne_of_== s t (or-eq-false _ _ h).0 e
any-false→In s (t ∷ seen) h (inr m) = any-false→In s seen (or-eq-false _ _ h).1 m

module _ {A : Type 0} (identity : A → Text) (key : A → List Text)
    (transition : A → ReviewTransitionKind) (prior : A → Option Text) (value : A → Text)
    (change : A → A → Result ReviewError (Unit {0}))
    (change_ne : (a b : A) → change a b ≢ err out_of_fuel) where
  walk-ne :
      (fuel : ℕ) (children : Dict Text (List A)) (stream : List A) (item : A) (seen : List Text)
      → IsCollected identity key transition prior value change stream children
      → In item stream
      → Distinct seen
      → ((s : Text) → In s seen → In s (map identity stream))
      → suc (length stream) ≤ fuel + length seen
      → walk identity key transition prior value change fuel children item seen ≢ err out_of_fuel
  unfolding walk
  walk-ne zero children stream item seen c m d sub le = absurd (
      omega
        (arith, Distinct-length-le seen (map identity stream) d sub, length-map identity stream))
  walk-ne (suc fuel) children stream item seen c m d sub le =
      elim (Bool-cases (any (λ s. identity item == s) seen)) [
        | inl again ↦ λ h. cc (rw again at h)
        | inr fresh ↦ elim (List-cases (or_empty (get (identity item) children))) [
          | inl ended ↦ λ h. cc (rw (fresh, ended) at h)
          | inr (next, more, e) ↦
              let child =
                All-In (ChildOf identity key transition prior value change stream (identity item))
                  next _ (c (identity item)) (rw e (inl refl)) in
              let sub' : (s : Text) → In s (identity item ∷ seen) → In s (map identity stream) =
                λ s n. elim n [
                  | inl same ↦ rw same (In-map_inverse identity item stream m)
                  | inr old ↦ sub s old
                ] in
              elim (Bool-cases (value next == value item)) [
                | inl t ↦ λ h. cc (rw (fresh, e, t) at h)
                | inr t ↦ elim (Result-cases (change item next)) [
                  | inr (x, q) ↦ λ h. change_ne item next (cc (q, rw (fresh, e, t, q) at h))
                  | inl (u, q) ↦
                      elim (Result-cases (
                        walk identity key transition prior value change fuel children next
                          (identity item ∷ seen))) [
                            | inl (v, r) ↦ λ h. cc (rw (fresh, e, t, q, r) at h)
                            | inr (x, r) ↦ λ h.
                                walk-ne fuel children stream next (identity item ∷ seen) c child.1
                                  (any-false→In (identity item) seen fresh, d) sub' (omega arith)
                                  (cc (r, rw (fresh, e, t, q, r) at h))
                          ]
                ]
              ]
        ]
      ]

  find_parent-ne :
      (by_id : Dict Text A) (k : List Text) (parent_id : Text)
      → find_parent identity key transition prior value change by_id k parent_id ≢ err out_of_fuel
  unfolding find_parent
  find_parent-ne by_id k parent_id = elim (Option-cases (get parent_id by_id)) [
    | inl e ↦ λ h. cc (rw (e, find_parent) at h)
    | inr (parent, e) ↦ λ h. cc (raise_if-eq-err _ _ (rw (e, find_parent) at h))
  ]

  collect_children-ne :
      (by_id : Dict Text A) (k : List Text) (root : A) (items : List A) (d : Dict Text (List A))
      → collect_children identity key transition prior value change by_id k root items d
        ≢ err out_of_fuel
  unfolding collect_children
  collect_children-ne by_id k root [] d = λ h. cc
  collect_children-ne by_id k root (x ∷ xs) d = elim (Bool-cases (identity x == identity root)) [
    | inl same ↦ λ h. collect_children-ne by_id k root xs d (rw same at h)
    | inr other ↦ elim (Option-cases (prior x)) [
      | inl e ↦ λ h. cc (rw (other, e) at h)
      | inr (j, e) ↦ λ h. elim (>>-eq-err _ _ (rw (other, e) at h)) [
        | inl raised ↦ find_parent-ne by_id k j raised
        | inr rest ↦ collect_children-ne by_id k root xs (append_to j x d) rest
      ]
    ]
  ]

  replay_stream-ne :
      (by_id : Dict Text A) (k : List Text) (stream : List A)
      → replay_stream identity key transition prior value change by_id k stream ≢ err out_of_fuel
  unfolding replay_stream get
  replay_stream-ne by_id k stream =
      elim (List-cases (select (λ r. is_initial (transition r)) stream)) [
        | inl e ↦ λ h. cc (rw (e, replay_stream) at h)
        | inr (root, others, e) ↦ elim (List-cases others) [
          | inr (x, more, e') ↦ λ h. cc (rw (e, e', replay_stream) at h)
          | inl e' ↦
              let begins =
                In-select (λ r. is_initial (transition r)) root stream (rw e (inl refl)) in
              elim (Bool-cases (not (prior root == none))) [
                | inl a ↦ λ h. cc (rw (e, e', a, replay_stream) at h)
                | inr a ↦
                    elim (Result-cases (
                      collect_children identity key transition prior value change by_id k root
                        stream [])) [
                          | inr (x, q) ↦ λ h.
                              collect_children-ne by_id k root stream []
                                (cc (q, rw (e, e', a, q, replay_stream) at h))
                          | inl (children, q) ↦ elim (Bool-cases (not (one_each children))) [
                            | inl b ↦ λ h. cc (rw (e, e', a, q, b, replay_stream) at h)
                            | inr b ↦
                                elim (Result-cases (
                                  walk identity key transition prior value change
                                    (suc (length stream)) children root [])) [
                                      | inr (x, r) ↦ λ h.
                                          walk-ne (suc (length stream)) children stream root []
                                            (collect_children-IsCollected identity key transition
                                              prior value change by_id k root stream stream []
                                              (All-self stream) (λ j. tt) q)
                                            begins.0 tt (λ s n. absurd n) (omega arith)
                                            (cc (r, rw (e, e', a, q, b, r, replay_stream) at h))
                                      | inl (v, r) ↦
                                          elim (Bool-cases (not (length v.seen == length stream))) [
                                            | inl z ↦ λ h.
                                                cc (rw (e, e', a, q, b, r, z, replay_stream) at h)
                                            | inr z ↦ λ h.
                                                cc (rw (e, e', a, q, b, r, z, replay_stream) at h)
                                          ]
                                    ]
                          ]
                        ]
              ]
        ]
      ]

  replay_groups-ne :
      (by_id : Dict Text A) (groups : Dict (List Text) (List A)) (ks : List (List Text))
      → replay_groups identity key transition prior value change by_id groups ks ≢ err out_of_fuel
  unfolding replay_groups
  replay_groups-ne by_id groups [] = λ h. cc
  replay_groups-ne by_id groups (k ∷ ks) = λ h.
      elim (Result-cases (
        replay_stream identity key transition prior value change by_id k
          (or_empty (get k groups)))) [
            | inr (x, raised) ↦
                replay_stream-ne by_id k (or_empty (get k groups)) (cc (raised, rw raised at h))
            | inl (v, streamed) ↦
                elim (Result-cases
                  (replay_groups identity key transition prior value change by_id groups ks)) [
                    | inr (x, raised) ↦
                        replay_groups-ne by_id groups ks (cc (raised, rw (streamed, raised) at h))
                    | inl (u, more) ↦ cc (rw (streamed, more) at h)
                  ]
          ]

  -- The replay of any records ends: the fuel of its walks is never used up.
  pub replay_streams-ends :
      (records : List A)
      → replay_streams identity key transition prior value change records ≢ err out_of_fuel
  unfolding replay_streams
  replay_streams-ends records =
      let by_id = index_records identity key transition prior value change records [] in
      elim (Bool-cases (not (length by_id == length records))) [
        | inl a ↦ λ h. cc (rw a at h)
        | inr a ↦ λ h.
            let groups = group_records identity key transition prior value change records [] in
            replay_groups-ne by_id groups (sort (keys groups)) (rw a at h)
      ]
