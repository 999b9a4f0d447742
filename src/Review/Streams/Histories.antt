-- ===== src/Review/Streams/Histories.antt =====
-- One stream: a replay that succeeds returns a lawful history with every record of the stream.
use projectkoios_references.Prelude.{
  ==_refl, >>-eq-ok, >>=-eq-ok, All, All-In, All-self, Dict, Distinct, Distinct-covers,
  Distinct-map_injective, In, In-map, In-select, In-map_inverse, In-select_inverse, IsChain, List,
  List-cases, Option, Result, [], arith, eq_of_==, false, get, inl, inr, last_from, length,
  length-map, list_eq, list_ord, map, nat_eq, nat_ord, none, not-eq-false, ok, ok-injective,
  option_eq, raise_if-eq-ok, refl, select, some, subst, suc, true, ◌==◌, ◌∷◌, ◌≡◌,
}
use projectkoios_references.Text.{Text}
use projectkoios_references.Review.Types.{ReviewError, ReviewTransitionKind, is_initial}
use projectkoios_references.Review.Streams.{Walk, replay_stream}
use projectkoios_references.Review.Streams.Trails.{Follows, IsVisit, walk-Trail, Trail-IsVisit}
use projectkoios_references.Review.Streams.Tables.{
  IsCollected, ChildOf, collect_children-IsCollected,
}

module _ {A : Type 0} (identity : A → Text) (key : A → List Text)
    (transition : A → ReviewTransitionKind) (prior : A → Option Text) (value : A → Text)
    (change : A → A → Result ReviewError (Unit {0})) where
  -- The later record names the earlier one as superseded, has another value, and the change of
  -- state is lawful.
  abbrev pub Supersedes : A → A → Type 0
  Supersedes a b =
      (prior b ≡ some (identity a)) × ((value b == value a) ≡ false) × (change a b ≡ ok tt)

  -- The history of a key within some records: it begins with an initial record that supersedes
  -- nothing, each record supersedes the one before it, it holds exactly the records of the key, each
  -- once, and `last` is the identity of its last record.
  pub record IsHistory (records : List A) (k : List Text) (w : Walk A) : Type 0 where
    pub root : A
    pub rest : List A
    pub starts : w.path ≡ root ∷ rest
    pub initial_root : is_initial (transition root) ≡ true
    pub first : prior root ≡ none
    pub chain : IsChain Supersedes (root ∷ rest)
    pub ends : w.last ≡ identity (last_from root rest)
    pub sound : (r : A) → In r w.path → In r records × (key r ≡ k)
    pub complete : (r : A) → In r records → key r ≡ k → In r w.path
    pub distinct : Distinct (map identity w.path)

  lift-IsChain :
      (children : Dict Text (List A)) (stream : List A) (item : A) (rest : List A)
      → IsCollected identity key transition prior value change stream children
      → In item stream
      → IsChain (Follows identity key transition prior value change children) (item ∷ rest)
      → IsChain Supersedes (item ∷ rest) × All (λ x. In x stream) (item ∷ rest)
  lift-IsChain children stream item [] c m h = (tt, (m, tt))
  lift-IsChain children stream item (next ∷ rest) c m ((child, differs, lawful), h) =
      let (parent, member) =
        All-In (ChildOf identity key transition prior value change stream (identity item)) next _
          (c (identity item)) child in
      let (chain, members) = lift-IsChain children stream next rest c member h in
      (((parent, differs, lawful), chain), (m, members))

  -- The group of a key, as `group_records` collects it.
  abbrev pub stream_of : List Text → List A → List A
  stream_of k records = select (λ r. key r == k) records

  module _ (records : List A) (unique : Distinct (map identity records)) where
    walked-IsHistory :
        (k : List Text) (children : Dict Text (List A)) (root : A) (w : Walk A)
        → IsCollected identity key transition prior value change (stream_of k records) children
        → In root (select (λ r. is_initial (transition r)) (stream_of k records))
        → prior root ≡ none
        → IsVisit identity key transition prior value change children root [] w
        → length w.seen ≡ length (stream_of k records)
        → IsHistory records k w
    walked-IsHistory k children root w c m first v counted =
        let stream = stream_of k records in
        let (in_stream, begins) = In-select (λ r. is_initial (transition r)) root stream m in
        let (chain, members) = lift-IsChain children stream root v.rest c in_stream v.chain in
        let members' : All (λ x. In x stream) w.path = rw v.starts members in
        let of_key : (r : A) → In r stream → In r records × (key r ≡ k) = λ r n.
          let (found, same) = In-select (λ x. key x == k) r records n in
          (found, eq_of_== (key r) k same) in
        let covers =
          Distinct-covers (map identity w.path) (map identity stream) v.distinct
            (λ s n.
              let (x, found, e) = In-map identity s w.path n in
              rw e (In-map_inverse identity x stream (All-In _ x w.path members' found)))
            (omega (
              arith,
              v.counted,
              counted,
              length-map identity w.path,
              length-map identity stream,
            )) in
        record {
          root = root;
          rest = v.rest;
          starts = v.starts;
          initial_root = begins;
          first = first;
          chain = chain;
          ends = v.ends;
          sound = λ r n. of_key r (All-In _ r w.path members' n);
          complete = λ r n same.
              let here = In-select_inverse (λ x. key x == k) r records n (rw same (==_refl k)) in
              let (x, found, e) =
                In-map identity (identity r) w.path
                  (covers (identity r) (In-map_inverse identity r stream here)) in
              rw
                (Distinct-map_injective identity r x records unique n
                  (of_key x (All-In _ x w.path members' found)).0 e)
                found;
          distinct = v.distinct;
        }

    pub replay_stream-IsHistory :
        (by_id : Dict Text A) (k : List Text) (w : Walk A)
        → replay_stream identity key transition prior value change by_id k (stream_of k records)
          ≡ ok w
        → IsHistory records k w
    unfolding replay_stream get
    replay_stream-IsHistory by_id k w h =
        let stream = stream_of k records in
        elim (List-cases (select (λ r. is_initial (transition r)) stream)) [
          | inl e ↦ cc (rw (e, replay_stream) at h)
          | inr (root, others, e) ↦ elim (List-cases others) [
            | inr (x, more, e') ↦ cc (rw (e, e', replay_stream) at h)
            | inl e' ↦
                let (first, h1) = >>-eq-ok _ _ (rw (e, e', replay_stream) at h) in
                let (children, collected, h2) = >>=-eq-ok _ _ h1 in
                let (single, h3) = >>-eq-ok _ _ h2 in
                let (v, walked, h4) = >>=-eq-ok _ _ h3 in
                let (counted, h5) = >>-eq-ok _ _ h4 in
                subst (IsHistory records k) (ok-injective h5) (
                  walked-IsHistory k children root v
                    (collect_children-IsCollected identity key transition prior value change by_id k
                      root stream stream [] (All-self stream) (λ j. tt) collected)
                    (rw e (inl refl))
                    (eq_of_== (prior root) none (not-eq-false _ (raise_if-eq-ok _ _ first)))
                    (Trail-IsVisit identity key transition prior value change children (
                      walk-Trail identity key transition prior value change children
                        (suc (length stream)) root [] walked))
                    (eq_of_== (length v.seen) (length stream)
                      (not-eq-false _ (raise_if-eq-ok _ _ counted))))
          ]
        ]
