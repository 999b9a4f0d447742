-- ===== src/Biblatex/Entries.antt =====
-- `_verbatim_entries`.
use projectkoios_references.Prelude.{
  Bool, Dict, Option, Result, [], any, drop, err, false, get, get_elem?, if◌then◌else◌, keys,
  length, list_eq, list_ord, ltb, nat_eq, nat_ord, none, ok, option_eq, put, raise_if, some, suc,
  take, true, zero, ℕ, ◌+◌, ◌-◌, ◌==◌, ◌>>=◌, ◌>>◌, ◌||◌, ◌∷◌,
}
use projectkoios_references.Text.{Text, codes, Platform, is_space, strip}
use projectkoios_references.Text.Size.{bounded_utf8_size}
use projectkoios_references.Limits.{ReferenceIoLimits}
use projectkoios_references.Biblatex.{
  BibliographyError, empty_citekey, no_citekey_terminator, duplicate_citekey, limit_exceeded,
  out_of_fuel, required_limit, matching_entry_end,
}

-- The length of the longest run of characters that pass a test.
unfoldable pub run_length : (ℕ → Bool) → Text → ℕ
run_length test [] = 0
run_length test (c ∷ s) = let rest = run_length test s in if test c then suc rest else 0

abbrev pub shift : Option ℕ → Option ℕ
shift none = none
shift (some n) = some (suc n)

-- text.find(character), `none` for -1
unfoldable pub find : ℕ → Text → Option ℕ
find c [] = none
find c (d ∷ s) = let rest = find c s in if d == c then some 0 else shift rest

-- text[first:last]
unfoldable pub slice : ℕ → ℕ → Text → Text
slice first last text = take (last - first) (drop first text)

abbrev pub Entries : Type 0
Entries = Dict Text (ℕ × Text)

-- The variables of the loop.
pub record Import : Type 0 where
  pub entries : Entries
  pub cursor : ℕ
  pub entry_index : ℕ

-- Where an entry's opening character stands, after its type.
pub record Header : Type 0 where
  pub type_end : ℕ
  pub opening_index : ℕ
  pub opening : Option ℕ

module _ (p : Platform) where
  unfoldable pub header_at : Text → ℕ → Header
  unfolding run_length is_space
  header_at text marker =
      let type_end =
        marker
        + 1
        + run_length (λ c. p.is_alnum c || c == b'_' || c == b'-') (drop (marker + 1) text) in
      let opening_index = type_end + run_length is_space (drop type_end text) in
      record {
        type_end = type_end;
        opening_index = opening_index;
        opening = get_elem? text opening_index;
      }

  abbrev pub entry_type : Text → ℕ → Header → Text
  entry_type text marker h = p.lower (slice (marker + 1) h.type_end text)

  abbrev pub is_skipped : Text → Bool
  is_skipped kind = kind == codes "comment" || kind == codes "preamble" || kind == codes "string"

  -- The check of `comma < 0`
  abbrev pub terminator : Text → Option ℕ → Result BibliographyError ℕ
  terminator kind none = err (no_citekey_terminator kind)
  terminator kind (some n) = ok n

  -- The entry's key, the checks of the key, and the entry's place among the entries.
  unfoldable pub add_entry :
      ReferenceIoLimits → Text → Text → Text → Import → Result BibliographyError Import
  unfolding find strip put get required_limit
  add_entry limits kind body raw i = do
    comma ← terminator kind (find b',' body)
    let citekey = strip (take comma body)
    raise_if (citekey == []) empty_citekey
    raise_if (any (λ k. citekey == k) (keys i.entries)) (duplicate_citekey citekey)
    max_entries ← required_limit limits.max_entries (codes "max_entries")
    raise_if (ltb max_entries (i.entry_index + 1))
        (limit_exceeded (codes "max_entries") (i.entry_index + 1))
    ok (record i {
      entries = put citekey (i.entry_index, raw) i.entries;
      entry_index = i.entry_index + 1;
    })

  -- Comments, preambles and strings are no entries.
  unfoldable pub keep_entry :
      ReferenceIoLimits → Text → Text → Text → Import → Result BibliographyError Import
  unfolding add_entry
  keep_entry limits kind body raw i =
      if is_skipped kind then ok i else add_entry limits kind body raw i

  -- What one round does from an opening character on.
  unfoldable pub read_entry :
      ReferenceIoLimits → Text → ℕ → Header → Bool → Import → Result BibliographyError Import
  unfolding matching_entry_end required_limit bounded_utf8_size slice keep_entry
  read_entry limits text marker h braces i = do
    closing_index ← matching_entry_end text h.opening_index braces limits
    let raw = slice marker (closing_index + 1) text
    max_text_bytes ← required_limit limits.max_text_bytes (codes "max_text_bytes")
    let raw_bytes = bounded_utf8_size max_text_bytes raw
    raise_if (ltb max_text_bytes raw_bytes) (limit_exceeded (codes "max_text_bytes") raw_bytes)
    let after = record i { cursor = closing_index + 1 }
    let kind = entry_type text marker h
    keep_entry limits kind (slice (h.opening_index + 1) closing_index text) raw after

  -- One round of the loop that has found a marker.
  unfoldable pub round_at : ReferenceIoLimits → Text → ℕ → Import → Result BibliographyError Import
  unfolding header_at read_entry
  round_at limits text marker i =
      let h = header_at text marker in
      if h.opening == some b'{'
      then read_entry limits text marker h true i
      else if h.opening == some b'('
      then read_entry limits text marker h false i
      else ok (record i { cursor = marker + 1 })

  -- The loop; the fuel bounds its rounds.
  unfoldable pub entries_from :
      ℕ → ReferenceIoLimits → Text → Import → Result BibliographyError Entries
  unfolding find round_at
  entries_from zero limits text i = err out_of_fuel
  entries_from (suc fuel) limits text i = elim (find b'@' (drop i.cursor text)) [
    | none ↦ ok i.entries
    | some offset ↦ do
      j ← round_at limits text (i.cursor + offset) i
      entries_from fuel limits text j
  ]

  unfoldable pub verbatim_entries : ReferenceIoLimits → Text → Result BibliographyError Entries
  unfolding entries_from
  verbatim_entries limits text =
      entries_from (suc (length text)) limits text
        (record { entries = []; cursor = 0; entry_index = 0 })
