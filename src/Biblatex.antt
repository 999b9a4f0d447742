-- ===== src/Biblatex.antt =====
-- biblatex.py (src/python/projectkoios/references): `_matching_entry_end` and `_verbatim_entries`,
-- which find the entries of a bibliography in its text.
pub mod Entries
pub mod Delimiters
pub mod Rounds
pub mod Braces
pub mod Parentheses
pub mod Bounds
pub mod Advances
pub mod Ends
pub mod Cuts
pub mod Spans
pub mod Reads
mod Tests
use projectkoios_references.Prelude.{
  Bool, Option, Result, [], drop, err, false, if◌then◌else◌, list_eq, list_ord, ltb, nat_eq,
  nat_ord, none, not, ok, option_eq, raise_if, some, suc, true, ℕ, ◌&&◌, ◌+◌, ◌-◌, ◌/◌, ◌==◌, ◌>>=◌,
  ◌>>◌, ◌||◌, ◌∷◌,
}
use projectkoios_references.Text.{Text, codes}
use projectkoios_references.Limits.{ReferenceIoLimits}

pub data BibliographyError : Type 0 where
  -- BibLaTeXImportError
  unterminated_entry empty_citekey : BibliographyError
  no_citekey_terminator duplicate_citekey : Text → BibliographyError
  -- ReferenceIOLimitError, with the limit's name and what was observed
  limit_exceeded : Text → ℕ → BibliographyError
  -- ValueError of `_required_limit`
  limit_undefined : Text → BibliographyError
  -- Not raised by the source: the model's loop has used up its fuel.
  out_of_fuel : BibliographyError

unfoldable pub required_limit : Option ℕ → Text → Result BibliographyError ℕ
required_limit none name = err (limit_undefined name)
required_limit (some n) name = ok n

-- The variables of the loop over the characters.
pub record Scan : Type 0 where
  pub depth : ℕ
  pub brace_depth : ℕ
  pub quoted : Bool
  pub escaped : Bool

abbrev pub start : Scan
start = record { depth = 1; brace_depth = 0; quoted = false; escaped = false }

-- What one round does: it returns the index, or goes on.
pub data Round : Type 0 where
  found : Round
  next : Scan → Round

-- `+= 1` under the limit on the sum of both depths.
deeper : ℕ → ℕ → Scan → Result BibliographyError Round
deeper max_depth reached s = do
  raise_if (ltb max_depth reached) (limit_exceeded (codes "max_nesting_depth") (max_depth + 1))
  ok (next s)

-- depth -= 1, and the return
leave : Scan → Round
leave s = if s.depth == 1 then found else next (record s { depth = s.depth - 1 })

unfoldable pub scan_character : Bool → ℕ → Scan → ℕ → Result BibliographyError Round
unfolding deeper leave
scan_character braces max_depth s c =
    if s.escaped
    then ok (next (record s { escaped = false }))
    else if c == b'\\'
    then ok (next (record s { escaped = true }))
    else if c == b'"'
    then ok (next (record s { quoted = not s.quoted }))
    else if braces && c == b'{'
    then deeper max_depth (s.depth + 1) (record s { depth = s.depth + 1 })
    else if braces && c == b'}'
    then ok (leave s)
    else if not braces && c == b'{'
    then deeper max_depth (s.depth + (s.brace_depth + 1))
        (record s { brace_depth = s.brace_depth + 1 })
    else if not braces && c == b'}' && ltb 0 s.brace_depth
    then ok (next (record s { brace_depth = s.brace_depth - 1 }))
    else if s.quoted || ltb 0 s.brace_depth
    then ok (next s)
    else if not braces && c == b'('
    then deeper max_depth (s.depth + 1) (record s { depth = s.depth + 1 })
    else if not braces && c == b')'
    then ok (leave s)
    else ok (next s)

-- The loop, on what is left of the text.
unfoldable pub scan_entry : Bool → ℕ → Scan → ℕ → Text → Result BibliographyError ℕ
unfolding scan_character
scan_entry braces max_depth s index [] = err unterminated_entry
scan_entry braces max_depth s index (c ∷ rest) = do
  round ← scan_character braces max_depth s c
  elim round [ found ↦ ok index | next t ↦ scan_entry braces max_depth t (suc index) rest ]

-- `_matching_entry_end`, where `braces` says that the entry opens with a brace, not a parenthesis.
unfoldable pub matching_entry_end : Text → ℕ → Bool → ReferenceIoLimits → Result BibliographyError ℕ
unfolding required_limit scan_entry
matching_entry_end text opening_index braces limits = do
  max_depth ← required_limit limits.max_nesting_depth (codes "max_nesting_depth")
  scan_entry braces max_depth start (opening_index + 1) (drop (opening_index + 1) text)
