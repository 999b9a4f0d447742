-- ===== src/Biblatex/Tests.antt =====
-- The entries of one bibliography.
use projectkoios_references.Prelude.{
  [], drop, err, list_eq, list_ord, nat_eq, nat_ord, ok, option_eq, pair_eq, pair_ord, refl, some,
  true, ℕ, ◌+◌, ◌∷◌, ◌≡◌, ◌≢◌,
}
use projectkoios_references.Samples.{ascii}
use projectkoios_references.Text.{Text, codes}
use projectkoios_references.Limits.{bibliography_io_limits}
use projectkoios_references.Biblatex.{start, out_of_fuel, matching_entry_end}
use projectkoios_references.Biblatex.Entries.{Entries, verbatim_entries}
use projectkoios_references.Biblatex.Bounds.{IsEnd, matching_entry_end-IsEnd}
use projectkoios_references.Biblatex.Ends.{verbatim_entries-ends}
use projectkoios_references.Biblatex.Spans.{IsRead}
use projectkoios_references.Biblatex.Reads.{verbatim_entries-IsRead}

abbrev bibliography : Text
bibliography = codes "@string{a = {b}} @article{knuth, title = {A {B}}} @book(lamport, note = {x)})"

abbrev entries : Entries
entries =
    (codes "knuth", (0, codes "@article{knuth, title = {A {B}}}"))
    ∷ (codes "lamport", (1, codes "@book(lamport, note = {x)})"))
    ∷ []

entries_found : verbatim_entries ascii bibliography_io_limits bibliography ≡ ok entries
unfolding verbatim_entries
entries_found = refl

string_ends : matching_entry_end bibliography 7 true bibliography_io_limits ≡ ok 15
unfolding matching_entry_end
string_ends = refl

matching_entry_end-IsEnd_example :
    (most : ℕ) × (bibliography_io_limits.max_nesting_depth ≡ some most)
    × IsEnd true most start (7 + 1) (drop (7 + 1) bibliography) 15
matching_entry_end-IsEnd_example =
    matching_entry_end-IsEnd bibliography 7 true bibliography_io_limits string_ends

verbatim_entries-ends_example :
    verbatim_entries ascii bibliography_io_limits bibliography ≢ err out_of_fuel
verbatim_entries-ends_example = verbatim_entries-ends ascii bibliography_io_limits bibliography

verbatim_entries-IsRead_example : IsRead ascii bibliography_io_limits bibliography entries
verbatim_entries-IsRead_example =
    verbatim_entries-IsRead ascii bibliography_io_limits bibliography entries entries_found
