-- ===== src/Review/Checks.antt =====
-- `_bounded`, `_content_id` and `_content_ids`.
use projectkoios_references.Prelude.{
  Bool, List, Result, [], all, any, drop, false, if◌then◌else◌, length, list_eq, list_ord, ltb,
  nat_eq, nat_ord, not, ok, option_eq, raise_if, refl, sort, true, ℕ, ◌&&◌, ◌++◌, ◌==◌, ◌>>◌, ◌||◌,
  ◌∷◌, ◌≡◌,
}
use projectkoios_references.Text.{
  Text, codes, utf8_size, strip, is_lower, is_digit, is_hex, starts_with,
}
use projectkoios_references.Review.Types.{
  ReviewError, not_content_id, not_bounded_text, too_many_ids, ids_not_sorted_unique,
}

abbrev pub is_blank : Text → Bool
is_blank s = elim (strip s) [ [] ↦ true | c ∷ rest ↦ false ]

unfoldable pub bounded : Text → Text → Result ReviewError (Unit {0})
unfolding strip utf8_size
bounded value field =
    raise_if (is_blank value || ltb 4096 (utf8_size value)) (not_bounded_text field)

-- [a-z0-9.-]
abbrev pub is_kind_char : ℕ → Bool
is_kind_char c = is_lower c || is_digit c || c == b'.' || c == b'-'

-- What is left after the longest run of such characters.
unfoldable pub after_kind : Text → Text
after_kind [] = []
after_kind (c ∷ s) = let rest = after_kind s in if is_kind_char c then rest else c ∷ s

-- `:sha256:[0-9a-f]{64}` to the end
unfoldable pub is_digest_part : Text → Bool
unfolding starts_with
is_digest_part s =
    starts_with s (codes ":sha256:") && length (drop 8 s) == 64 && all is_hex (drop 8 s)

-- The pattern _CONTENT_ID
unfoldable pub matches_content_id : Text → Bool
unfolding after_kind is_digest_part
matches_content_id [] = false
matches_content_id (c ∷ s) = is_lower c && is_digest_part (after_kind s)

unfoldable pub content_id : Text → Text → Result ReviewError (Unit {0})
unfolding matches_content_id utf8_size
content_id value field =
    raise_if (ltb 512 (utf8_size value) || not (matches_content_id value)) (not_content_id field)

-- set(values): the elements with no repetition
unfoldable pub distinct : List Text → List Text
distinct [] = []
distinct (s ∷ ss) = let rest = distinct ss in if any (λ t. s == t) ss then rest else s ∷ rest

each_content_id : List Text → Text → Result ReviewError (Unit {0})
unfolding content_id
each_content_id [] field = ok tt
each_content_id (s ∷ ss) field = do content_id s field; each_content_id ss field

unfoldable pub content_ids : List Text → Text → ℕ → Result ReviewError (Unit {0})
unfolding distinct sort each_content_id
content_ids values field maximum = do
  raise_if (ltb maximum (length values)) (too_many_ids field)
  raise_if (not (sort (distinct values) == values)) (ids_not_sorted_unique field)
  each_content_id values field

content_id_test :
    matches_content_id (
      codes "a.b:sha256:"
      ++ codes "0123456789abcdef0123456789abcdef0123456789abcdef0123456789abcdef")
    ≡ true
unfolding matches_content_id
content_id_test = refl
