-- ===== src/Review/Streams.antt =====
-- `_replay_streams`, over the callables that it takes. Record objects are told apart (`item is root`)
-- by their identities, which are distinct where that is asked.
pub mod Trails
pub mod Ends
pub mod Determined
pub mod Replays
pub mod Histories
pub mod Tables
use projectkoios_references.Prelude.{
  ◌>>=◌, nat_eq, list_eq, nat_ord, list_ord, option_eq, Bool, Dict, List, Option, Result, [], any,
  append_to, err, get, or_empty, if◌then◌else◌, keys, length, none, not, ok, put, raise_if, select,
  some, sort, suc, true, zero, ℕ, ◌&&◌, ◌++◌, ◌+◌, ◌-◌, ◌==◌, ◌>>◌, ◌∷◌,
}
use projectkoios_references.Text.{Text}
use projectkoios_references.Review.Types.{
  ReviewError, ReviewTransitionKind, concurrent_transitions, cycle_detected, disconnected_history,
  duplicate_identities, initial_supersedes, is_initial, omits_supersession, one_initial_required,
  out_of_fuel, state_not_changed, supersedes_missing_state,
}

-- What the loop over one stream leaves: the records in order, `seen`, and the last identity.
pub record Walk (A : Type 0) : Type 0 where
  pub path : List A
  pub seen : List Text
  pub last : Text

abbrev one_each : {A : Type 0} → Dict Text (List A) → Bool
one_each [] = true
one_each ((k, xs) ∷ d) = length xs == 1 && one_each d

module _ {A : Type 0} (identity : A → Text) (key : A → List Text)
    (transition : A → ReviewTransitionKind) (prior : A → Option Text) (value : A → Text)
    (change : A → A → Result ReviewError (Unit {0})) where
  -- {identity(item): item for item in records}
  unfoldable pub index_records : List A → Dict Text A → Dict Text A
  unfolding put
  index_records [] d = d
  index_records (r ∷ rs) d = index_records rs (put (identity r) r d)

  unfoldable pub group_records : List A → Dict (List Text) (List A) → Dict (List Text) (List A)
  unfolding append_to
  group_records [] groups = groups
  group_records (r ∷ rs) groups = group_records rs (append_to (key r) r groups)

  unfoldable pub find_parent : Dict Text A → List Text → Text → Result ReviewError (Unit {0})
  unfolding get
  find_parent by_id stream_key parent_id = elim (get parent_id by_id) [
    | none ↦ err supersedes_missing_state
    | some parent ↦ raise_if (not (key parent == stream_key)) supersedes_missing_state
  ]

  -- The loop that fills `children`.
  unfoldable pub collect_children :
      Dict Text A
      → List Text
      → A
      → List A
      → Dict Text (List A)
      → Result ReviewError (Dict Text (List A))
  unfolding find_parent append_to
  collect_children by_id stream_key root [] children = ok children
  collect_children by_id stream_key root (item ∷ items) children =
      let next = λ (d : Dict Text (List A)). collect_children by_id stream_key root items d in
      if identity item == identity root then next children else elim (prior item) [
        | none ↦ err omits_supersession
        | some parent_id ↦
            find_parent by_id stream_key parent_id >> next (append_to parent_id item children)
      ]

  -- The walk from the root along `children`, with fuel for its rounds.
  unfoldable pub walk : ℕ → Dict Text (List A) → A → List Text → Result ReviewError (Walk A)
  unfolding get
  walk zero children item seen = err out_of_fuel
  walk (suc fuel) children item seen =
      if any (λ s. identity item == s) seen
      then err cycle_detected
      else elim (or_empty (get (identity item) children)) [
        | [] ↦ ok (record { path = item ∷ []; seen = identity item ∷ seen; last = identity item })
        | next_item ∷ more ↦ do
          raise_if (value next_item == value item) state_not_changed
          change item next_item
          w ← walk fuel children next_item (identity item ∷ seen)
          ok (record { path = item ∷ w.path; seen = w.seen; last = w.last })
      ]

  -- One round of the loop over the sorted keys.
  unfoldable pub replay_stream : Dict Text A → List Text → List A → Result ReviewError (Walk A)
  unfolding collect_children walk
  replay_stream by_id stream_key stream =
      elim (select (λ item. is_initial (transition item)) stream) [
        | root ∷ [] ↦ do
          raise_if (not (prior root == none)) initial_supersedes
          children ← collect_children by_id stream_key root stream []
          raise_if (not (one_each children)) concurrent_transitions
          w ← walk (suc (length stream)) children root []
          raise_if (not (length w.seen == length stream)) disconnected_history
          ok w
        | _ ↦ err one_initial_required
      ]

  -- The loop over `sorted(groups)`, with `ordered` and `current`.
  unfoldable pub replay_groups :
      Dict Text A
      → Dict (List Text) (List A)
      → List (List Text)
      → Result ReviewError (List A × List Text)
  unfolding replay_stream get
  replay_groups by_id groups [] = ok ([], [])
  replay_groups by_id groups (stream_key ∷ rest) = do
    w ← replay_stream by_id stream_key (or_empty (get stream_key groups))
    later ← replay_groups by_id groups rest
    ok (w.path ++ later.0, w.last ∷ later.1)

  unfoldable pub replay_streams : List A → Result ReviewError (List A × List Text)
  unfolding index_records group_records replay_groups sort
  replay_streams records =
      let by_id = index_records records [] in
      let groups = group_records records [] in
      do
        raise_if (not (length by_id == length records)) duplicate_identities
        replay_groups by_id groups (sort (keys groups))
