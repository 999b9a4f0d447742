-- ===== src/CitationClosure/Tests.antt =====
-- Runs of the citation scanner and instances of its theorems.
use projectkoios_references.Prelude.{
  All, [], err, false, length, less, list_eq, list_ord, map, nat_eq, nat_ord, ok, option_eq,
  pair_eq, pair_ord, refl, reverse, true, ℕ, ◌++◌, ◌∷◌, ◌≡◌, ◌≤◌,
}
use projectkoios_references.Text.{Text, codes, strip, split, before}
use projectkoios_references.Citekey.{is_reserved}
use projectkoios_references.Samples.{ascii}
use projectkoios_references.CitationClosure.{
  Cursor, out_of_fuel, has_syntax, parse_keys, balanced_group, line_column, skip_space, skip_verb,
  literal_group, unterminated_group,
}
use projectkoios_references.CitationClosure.Keys.{IsKey, parse_keys-AreKeys}
use projectkoios_references.CitationClosure.Ends.{parse_keys-ends}
use projectkoios_references.CitationClosure.Positions.{
  place_after, read_on, line_column-place_after,
}
use projectkoios_references.CitationClosure.Groups.{IsGroup, balanced_group-IsGroup}

two_keys :
    parse_keys ascii (codes "cite") 10 0 (codes "ab1, cd2") ≡ ok (codes "ab1" ∷ codes "cd2" ∷ [])
unfolding parse_keys is_reserved before
two_keys = refl

parse_keys-AreKeys_example :
    (has_syntax (codes "ab1, cd2") ≡ false)
    × (codes "ab1" ∷ codes "cd2" ∷ [] ≡ map strip (split b',' (codes "ab1, cd2")))
    × All (IsKey ascii (codes "cite")) (codes "ab1" ∷ codes "cd2" ∷ [])
    × (length (codes "ab1" ∷ codes "cd2" ∷ []) ≤ 10)
parse_keys-AreKeys_example =
    parse_keys-AreKeys ascii (codes "cite") 10 0 (codes "ab1, cd2") two_keys

parse_keys-ends_example :
    ¬ (parse_keys ascii (codes "cite") 10 0 (codes "a, b,, c") ≡ err out_of_fuel)
parse_keys-ends_example = parse_keys-ends ascii (codes "cite") 10 0 (codes "a, b,, c")

-- "{a\}{b}% }\n}c", with an escaped brace, a group within and a brace in a comment
abbrev group_text : Text
group_text = codes "{a\\}{b}% }" ++ (10 ∷ codes "}c")

abbrev group_end : Cursor
group_end = record { done = reverse (codes "{a\\}{b}% }" ++ (10 ∷ codes "}")); rest = codes "c" }

group_run :
    balanced_group b'{' b'}' 4 (record { done = []; rest = group_text })
    ≡ ok (codes "a\\}{b}", group_end)
unfolding balanced_group
group_run = refl

open_run :
    balanced_group b'{' b'}' 4 (record { done = []; rest = codes "{a" }) ≡ err unterminated_group
unfolding balanced_group
open_run = refl

literal_run :
    literal_group 4 (record { done = []; rest = codes "{ ab }" })
    ≡ ok (codes "ab", record { done = reverse (codes "{ ab }"); rest = [] })
unfolding literal_group
literal_run = refl

verb_run :
    skip_verb (record { done = []; rest = codes "|x|y" })
    ≡ ok (record { done = codes "|x|"; rest = codes "y" })
unfolding skip_verb
verb_run = refl

balanced_group-IsGroup_example :
    (s : Text) × (group_text ≡ b'{' ∷ s)
    × IsGroup b'{' b'}' 4 1 false (b'{' ∷ []) s (codes "a\\}{b}", group_end)
balanced_group-IsGroup_example =
    balanced_group-IsGroup b'{' b'}' 4 (record { done = []; rest = group_text }) group_run

line_column-place_after_example :
    (place_after (1, 1) group_text ≡ line_column (read_on group_text []))
    × ((c : ℕ) (s : Text)
        → less
            (line_column (read_on group_text []))
            (line_column (read_on (c ∷ s) (read_on group_text [])))
          ≡ true)
line_column-place_after_example = line_column-place_after group_text

space_run :
    skip_space (record { done = []; rest = codes " % x" ++ (10 ∷ codes " a%") })
    ≡ record { done = reverse (codes " % x" ++ (10 ∷ codes " ")); rest = codes "a%" }
unfolding skip_space
space_run = refl
