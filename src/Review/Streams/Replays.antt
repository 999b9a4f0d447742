-- ===== src/Review/Streams/Replays.antt =====
-- All streams: what a successful replay returns.
use projectkoios_references.Prelude.{
  or_empty, >>-eq-ok, >>=-eq-ok, All, Dict, Distinct, In, In-map_inverse, In-sort_inverse,
  Increasing, Increasing-sort, List, Option, Result, [], ap, arith, eq_of_==, get, inr, keys,
  length, list_eq, list_ord, map, nat_eq, nat_ord, not-eq-false, ok, ok-injective, option_eq,
  raise_if-eq-ok, refl, sort, sym, ◌++◌, ◌∙◌, ◌∷◌, ◌≡◌,
}
use projectkoios_references.Text.{Text}
use projectkoios_references.Review.Types.{ReviewError, ReviewTransitionKind}
use projectkoios_references.Review.Streams.{
  Walk, group_records, index_records, replay_stream, replay_groups, replay_streams,
}
use projectkoios_references.Review.Streams.Tables.{
  get-group_records, index_records-Distinct, In-keys-group_records_inverse, Distinct-group_records,
}
use projectkoios_references.Review.Streams.Histories.{IsHistory, replay_stream-IsHistory}

abbrev pub paths : {A : Type 0} → List (List Text × Walk A) → List A
paths [] = []
paths ((k, w) ∷ rest) = w.path ++ paths rest

abbrev pub lasts : {A : Type 0} → List (List Text × Walk A) → List Text
lasts [] = []
lasts ((k, w) ∷ rest) = w.last ∷ lasts rest

abbrev pub stream_keys : {A : Type 0} → List (List Text × Walk A) → List (List Text)
stream_keys [] = []
stream_keys ((k, w) ∷ rest) = k ∷ stream_keys rest

module _ {A : Type 0} (identity : A → Text) (key : A → List Text)
    (transition : A → ReviewTransitionKind) (prior : A → Option Text) (value : A → Text)
    (change : A → A → Result ReviewError (Unit {0})) where
  abbrev History : List A → List Text × Walk A → Type 0
  History records s = IsHistory identity key transition prior value change records s.0 s.1

  -- The ordered records are the histories of the streams in the order of their keys, one after
  -- another, and the current identities are those of the histories' last records.
  pub record IsReplay (records ordered : List A) (current : List Text) : Type 0 where
    pub streams : List (List Text × Walk A)
    pub histories :
        All (λ s. IsHistory identity key transition prior value change records s.0 s.1) streams
    pub in_key_order : Increasing (stream_keys streams)
    pub all_keys : (r : A) → In r records → In (key r) (stream_keys streams)
    pub ordered_paths : ordered ≡ paths streams
    pub current_lasts : current ≡ lasts streams
    pub unique : Distinct (map identity records)

  module _ (records : List A) (unique_ids : Distinct (map identity records)) where
    replay_groups-History :
        (by_id : Dict Text A) (ks : List (List Text)) {r : List A × List Text}
        → replay_groups identity key transition prior value change by_id
            (group_records identity key transition prior value change records [])
            ks
          ≡ ok r
        → (ss : List (List Text × Walk A)) × All (History records) ss
          × (stream_keys ss ≡ ks)
          × (r.0 ≡ paths ss)
          × (r.1 ≡ lasts ss)
    unfolding replay_groups get
    replay_groups-History by_id [] h = (
      [],
      tt,
      refl,
      ap (λ (x : List A × List Text). x.0) (sym (ok-injective h)),
      ap (λ (x : List A × List Text). x.1) (sym (ok-injective h)),
    )
    replay_groups-History by_id (k ∷ ks) h =
        let groups = group_records identity key transition prior value change records [] in
        let (w, streamed, h1) =
          >>=-eq-ok
            (replay_stream identity key transition prior value change by_id k
              (or_empty (get k groups)))
            _ h in
        let (later, more, h2) =
          >>=-eq-ok (replay_groups identity key transition prior value change by_id groups ks) _
            h1 in
        let result = ok-injective h2 in
        let (ss, histories, names, ordered, current) = replay_groups-History by_id ks more in
        (
          (k, w) ∷ ss,
          (
            replay_stream-IsHistory identity key transition prior value change records unique_ids
                by_id k w (rw get-group_records at streamed),
            histories,
          ),
          ap (λ (xs : List (List Text)). k ∷ xs) names,
          sym (ap (λ (x : List A × List Text). x.0) result)
              ∙ ap (λ (xs : List A). w.path ++ xs) ordered,
          sym (ap (λ (x : List A × List Text). x.1) result)
              ∙ ap (λ (xs : List Text). w.last ∷ xs) current,
        )

  -- A replay that succeeds returns, stream by stream in the order of the keys, the lawful history
  -- that holds exactly the stream's records, and the identities of the histories' last records; and
  -- the records had distinct identities.
  pub replay_streams-IsReplay :
      (records ordered : List A) (current : List Text)
      → replay_streams identity key transition prior value change records ≡ ok (ordered, current)
      → IsReplay records ordered current
  unfolding replay_streams
  replay_streams-IsReplay records ordered current h =
      let by_id = index_records identity key transition prior value change records [] in
      let groups = group_records identity key transition prior value change records [] in
      let (counted, replayed) = >>-eq-ok _ _ h in
      let same =
        eq_of_== (length by_id) (length records) (not-eq-false _ (raise_if-eq-ok _ _ counted)) in
      let (unique_ids, _) =
        index_records-Distinct identity key transition prior value change records []
          (omega (arith, same)) in
      let (ss, histories, names, paths_eq, lasts_eq) =
        replay_groups-History records unique_ids by_id (sort (keys groups)) replayed in
      record {
        streams = ss;
        histories = histories;
        in_key_order = rw names (
            Increasing-sort (keys groups)
              (Distinct-group_records identity key transition prior value change records [] tt));
        all_keys = λ r m. rw names (
            In-sort_inverse (key r) (keys groups) (
              In-keys-group_records_inverse identity key transition prior value change (key r)
                records [] (inr (In-map_inverse key r records m))));
        ordered_paths = paths_eq;
        current_lasts = lasts_eq;
        unique = unique_ids;
      }
