-- ===== src/StateProjection/View.antt =====
-- `projection_to_biblatex` and `_bib_escape` of state_projection.py: the bibliographic view.
use projectkoios_references.Prelude.{
  Bool, Dict, List, Option, Result, [], all, any, err, false, get, if◌then◌else◌, list_eq, list_ord,
  map, nat_eq, nat_ord, none, ok, option_eq, pair_eq, pair_ord, put, raise_if, select, some, ℕ,
  ◌++◌, ◌==◌, ◌>>=◌, ◌>>◌, ◌||◌, ◌∷◌,
}
use projectkoios_references.Text.{Text, codes}
use projectkoios_references.Json.{Json, str, arr, join}
use projectkoios_references.Citekey.{is_letter}
use projectkoios_references.Review.Fields.{items_strings}
use projectkoios_references.StateProjection.{
  knowledge_eq, StateError, ProjectedField, ReferenceStateProjection, observed, resolution_value,
  discrepancy, no_safe_citekey, entry_type_invalid, unsafe_bib_value,
}
use projectkoios_references.StateProjection.Values.{
  JsonReader, max_value_bytes, parse_canonical_value, is_safe_citekey,
}

-- value.replace(c, new), for one character
unfoldable pub replace : ℕ → Text → Text → Text
replace c new [] = []
replace c new (d ∷ s) = (if d == c then new else d ∷ []) ++ replace c new s

-- The three replacements of `_bib_escape`.
unfoldable pub bib_replaced : Text → Text
unfolding replace
bib_replaced s =
    replace b'}' (b'\\' ∷ b'}' ∷ [])
      (replace b'{' (b'\\' ∷ b'{' ∷ []) (replace b'\\' (b'\\' ∷ b'\\' ∷ []) s))

-- `_bib_escape`
unfoldable pub bib_escape : Text → Result StateError Text
unfolding bib_replaced
bib_escape s = do
  raise_if (any (λ c. c == 0) s || any (λ c. c == 10) s || any (λ c. c == 13) s) unsafe_bib_value
  ok (bib_replaced s)

abbrev pub is_discrepant : ProjectedField → Bool
is_discrepant f = resolution_value f.resolution == resolution_value discrepancy

-- The text of the one observed value of a field.
abbrev pub sole_value : ProjectedField → Option Text
sole_value f = elim f.values [
  | v ∷ [] ↦ if v.knowledge == observed then v.value_json else none
  | _ ↦ none
]

-- The loop that fills `values`.
unfoldable pub view_values :
    JsonReader → List ProjectedField → Dict Text Json → Result StateError (Dict Text Json)
unfolding parse_canonical_value put
view_values reader [] values = ok values
view_values reader (f ∷ fs) values =
    if is_discrepant f then view_values reader fs values else elim (sole_value f) [
      | none ↦ view_values reader fs values
      | some text ↦ parse_canonical_value reader max_value_bytes text >>= λ value.
          view_values reader fs (put f.field value values)
    ]

-- The names in `discrepant`.
abbrev pub discrepant_names : List ProjectedField → List Text
discrepant_names fs = map (λ f. f.field) (select is_discrepant fs)

unfoldable pub text_value : Option Json → Option Text
text_value (some (str s)) = some s
text_value _ = none

unfoldable pub authors_value : Option Json → Option Text
unfolding items_strings join
authors_value (some (arr xs)) = elim (items_strings xs) [
  | none ↦ none
  | some names ↦ some (join (codes " and ") names)
]
authors_value _ = none

safe_citekey : Option Json → Result StateError Text
safe_citekey (some (str s)) = if is_safe_citekey s then ok s else err no_safe_citekey
safe_citekey _ = err no_safe_citekey

abbrev is_entry_type : Text → Bool
is_entry_type [] = false
is_entry_type (c ∷ s) = all is_letter (c ∷ s)

entry_type_of : Option Json → Result StateError Text
entry_type_of none = ok (codes "misc")
entry_type_of (some (str s)) = if is_entry_type s then ok s else err entry_type_invalid
entry_type_of (some _) = err entry_type_invalid

-- A field of the view where there is a value.
abbrev with_value : Text → Option Text → List (Text × Text) → List (Text × Text)
with_value name none rest = rest
with_value name (some s) rest = (name, s) ∷ rest

abbrev copied_names : List Text
copied_names =
    codes "title" ∷ codes "year" ∷ codes "doi" ∷ codes "isbn" ∷ codes "url" ∷ codes "eprint" ∷ []

copied_fields : Dict Text Json → List Text → List (Text × Text) → List (Text × Text)
unfolding get text_value
copied_fields values [] rest = rest
copied_fields values (name ∷ names) rest =
    with_value name (text_value (get name values)) (copied_fields values names rest)

unfoldable pub rendered_fields : ReferenceStateProjection → Dict Text Json → List (Text × Text)
unfolding copied_fields authors_value get join
rendered_fields r values = copied_fields values copied_names (
    with_value (codes "author") (authors_value (get (codes "authors") values)) (
      (codes "x-projectkoios-projection-id", r.projection_id)
      ∷ (codes "x-projectkoios-authoritative-inputs", join (codes ";") r.authoritative_input_ids)
      ∷ (codes "x-projectkoios-discrepancies", join (codes ";") (discrepant_names r.fields))
      ∷ (codes "x-projectkoios-authority", codes "non-authoritative-projection")
      ∷ []))

-- f"  {name} = {{{_bib_escape(value)}}}"
unfoldable pub render_lines : List (Text × Text) → Result StateError (List Text)
unfolding bib_escape
render_lines [] = ok []
render_lines ((name, value) ∷ fields) = do
  escaped ← bib_escape value
  rest ← render_lines fields
  ok ((codes "  " ++ (name ++ (codes " = {" ++ (escaped ++ codes "}")))) ∷ rest)

-- `projection_to_biblatex`
unfoldable pub projection_to_biblatex :
    JsonReader → ReferenceStateProjection → Result StateError Text
unfolding view_values get safe_citekey entry_type_of rendered_fields render_lines join
projection_to_biblatex reader r = do
  values ← view_values reader r.fields []
  citekey ← safe_citekey (get (codes "proposed_citekey") values)
  entry_type ← entry_type_of (get (codes "entry_type") values)
  lines ← render_lines (rendered_fields r values)
  ok (
      b'@'
      ∷ (entry_type
          ++ (b'{'
              ∷ (citekey ++ (b',' ∷ 10 ∷ (join (b',' ∷ 10 ∷ []) lines ++ (10 ∷ b'}' ∷ 10 ∷ [])))))))
