-- ===== src/Biblatex/Ends.antt =====
-- The loop over the entries of a bibliography ends.
use projectkoios_references.Prelude.{
  >>-eq-err, >>=-eq-err, Bool, Option, Option-cases, [], arith, drop, err, false, inl, inr, length,
  list_eq, list_ord, ltb, nat_eq, nat_ord, ok, option_eq, raise_if, raise_if-ne, some, suc, true,
  zero, ℕ, ◌+◌, ◌<◌, ◌==◌, ◌>>=◌, ◌∷◌, ◌≡◌, ◌≢◌, ◌≤◌,
}
use projectkoios_references.Text.{Text, codes, Platform}
use projectkoios_references.Text.Size.{bounded_utf8_size}
use projectkoios_references.Limits.{ReferenceIoLimits}
use projectkoios_references.Biblatex.{
  out_of_fuel, limit_exceeded, start, Scan, Round, found, next, deeper, scan_character, scan_entry,
  required_limit, matching_entry_end,
}
use projectkoios_references.Biblatex.Entries.{
  Import, Header, find, slice, header_at, entry_type, add_entry, keep_entry, read_entry, round_at,
  entries_from, verbatim_entries,
}
use projectkoios_references.Biblatex.Advances.{find-lt, length-drop, if_cases, round_at-Advances}

module _ (p : Platform) where
  add_entry-ne :
      (limits : ReferenceIoLimits) (kind body raw : Text) (i : Import)
      → add_entry p limits kind body raw i ≢ err out_of_fuel
  unfolding add_entry required_limit
  add_entry-ne limits kind body raw i = ground arith

  keep_entry-ne :
      (limits : ReferenceIoLimits) (kind body raw : Text) (i : Import)
      → keep_entry p limits kind body raw i ≢ err out_of_fuel
  unfolding keep_entry
  keep_entry-ne limits kind body raw i = ground (arith, add_entry-ne limits kind body raw i)

  scan_character-ne :
      (braces : Bool) (max_depth : ℕ) (t : Scan) (c : ℕ)
      → scan_character braces max_depth t c ≢ err out_of_fuel
  unfolding scan_character deeper
  scan_character-ne braces max_depth t c = ground arith

  rounds-ne :
      (braces : Bool) (max_depth index : ℕ) (s : Text)
      → ((u : Scan) → scan_entry braces max_depth u (suc index) s ≢ err out_of_fuel)
      → (round : Round)
      → elim round [ found ↦ ok index | next u ↦ scan_entry braces max_depth u (suc index) s ]
        ≢ err out_of_fuel
  rounds-ne braces max_depth index s later found = ground arith
  rounds-ne braces max_depth index s later (next u) = later u

  scan_entry-ne :
      (braces : Bool) (max_depth : ℕ) (t : Scan) (index : ℕ) (s : Text)
      → scan_entry braces max_depth t index s ≢ err out_of_fuel
  unfolding scan_entry
  scan_entry-ne braces max_depth t index [] h = ground arith
  scan_entry-ne braces max_depth t index (c ∷ s) h =
      elim (>>=-eq-err (scan_character braces max_depth t c) _ h) [
        | inl a ↦ scan_character-ne braces max_depth t c a
        | inr (round, a, b) ↦
            rounds-ne braces max_depth index s (λ u. scan_entry-ne braces max_depth u (suc index) s)
              round b
      ]

  required_limit-ne : (o : Option ℕ) (name : Text) → required_limit o name ≢ err out_of_fuel
  unfolding required_limit
  required_limit-ne o name = ground arith

  matching_entry_end-ne :
      (text : Text) (at : ℕ) (braces : Bool) (limits : ReferenceIoLimits)
      → matching_entry_end text at braces limits ≢ err out_of_fuel
  unfolding matching_entry_end
  matching_entry_end-ne text at braces limits h =
      elim (>>=-eq-err (required_limit limits.max_nesting_depth (codes "max_nesting_depth")) _ h) [
        | inl a ↦ required_limit-ne _ _ a
        | inr (n, a, b) ↦ scan_entry-ne braces n start (at + 1) (drop (at + 1) text) b
      ]

  read_entry-ne :
      (limits : ReferenceIoLimits) (text : Text) (marker : ℕ) (h : Header) (braces : Bool)
      (i : Import)
      → read_entry p limits text marker h braces i ≢ err out_of_fuel
  unfolding read_entry
  read_entry-ne limits text marker h braces i e =
      elim (>>=-eq-err (matching_entry_end text h.opening_index braces limits) _ e) [
        | inl a ↦ matching_entry_end-ne text h.opening_index braces limits a
        | inr (at, _, b) ↦
            elim (>>=-eq-err (required_limit limits.max_text_bytes (codes "max_text_bytes")) _ b) [
              | inl a ↦ required_limit-ne _ _ a
              | inr (most, _, c) ↦
                  let bytes = bounded_utf8_size most (slice marker (at + 1) text) in
                  elim (>>-eq-err
                    (raise_if (ltb most bytes) (limit_exceeded (codes "max_text_bytes") bytes)) _
                    c) [
                      | inl a ↦ raise_if-ne (ltb most bytes) _ a (λ k. ground arith)
                      | inr d ↦
                          keep_entry-ne limits (entry_type p text marker h)
                            (slice (h.opening_index + 1) at text) (slice marker (at + 1) text)
                            (record i { cursor = at + 1 }) d
                    ]
            ]
      ]

  round_at-ne :
      (limits : ReferenceIoLimits) (text : Text) (marker : ℕ) (i : Import)
      → round_at p limits text marker i ≢ err out_of_fuel
  unfolding round_at
  round_at-ne limits text marker i e =
      let h = header_at p text marker in
      elim (if_cases (h.opening == some b'{') (h.opening == some b'(') _ _ _ (err out_of_fuel) e) [
        | inl (_, a) ↦ read_entry-ne limits text marker h true i a
        | inr (inl (_, a)) ↦ read_entry-ne limits text marker h false i a
        | inr (inr a) ↦ ground arith
      ]

  entries_from-ne :
      (fuel : ℕ) (limits : ReferenceIoLimits) (text : Text) (i : Import)
      → i.cursor ≤ length text
      → length text < i.cursor + fuel
      → entries_from p fuel limits text i ≢ err out_of_fuel
  unfolding entries_from
  entries_from-ne zero limits text i within enough e = absurd (omega arith)
  entries_from-ne (suc fuel) limits text i within enough e =
      elim (Option-cases (find b'@' (drop i.cursor text))) [
        | inl a ↦ cc (rw (a, entries_from) at e)
        | inr (offset, a) ↦
            let marker = i.cursor + offset in
            let inside = find-lt b'@' offset (drop i.cursor text) a in
            let there : marker < length text = omega (arith, inside, length-drop i.cursor text) in
            let e' : (round_at p limits text marker i >>= λ j. entries_from p fuel limits text j)
                ≡ err out_of_fuel =
              cc (rw (a, entries_from) at e) in
            elim (>>=-eq-err (round_at p limits text marker i) _ e') [
              | inl b ↦ round_at-ne limits text marker i b
              | inr (j, b, c) ↦
                  let (past, inside) = round_at-Advances p limits text marker i {j = j} there b in
                  entries_from-ne fuel limits text j inside (omega (arith, past)) c
            ]
      ]

  -- Finding the entries of a bibliography ends on every text: the fuel of the model's loop is never
  -- used up.
  pub verbatim_entries-ends :
      (limits : ReferenceIoLimits) (text : Text) → verbatim_entries p limits text ≢ err out_of_fuel
  unfolding verbatim_entries
  verbatim_entries-ends limits text =
      entries_from-ne (suc (length text)) limits text
        (record { entries = []; cursor = 0; entry_index = 0 }) (omega arith) (omega arith)
