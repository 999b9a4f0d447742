-- ===== src/Review/Fields.antt =====
-- The readers of JSON values: `_exact_object`, `_string`, `_enum_value`, `_optional_string`,
-- `_integer`, `_string_array` and `_limits_from_dict`, with `ProducerIdentity` of identity.py. An
-- object is what `json.loads` makes of one, with no key twice.
use projectkoios_references.Prelude.{
  Bool, List, Option, Result, [], all, any, err, if◌then◌else◌, length, list_eq, list_ord, ltb,
  nat_eq, nat_ord, none, not, ok, option_eq, pair_eq, pair_ord, raise_if, set_of, some, suc, ℕ,
  ◌&&◌, ◌==◌, ◌>>=◌, ◌>>◌, ◌||◌, ◌∷◌,
}
use projectkoios_references.Text.{Text, codes, utf8_size}
use projectkoios_references.Json.{
  Json, Items, Fields, null, num, str, arr, obj, nil, cons, end, field,
}
use projectkoios_references.Limits.{ReferenceIoLimits, limits_accepted}
use projectkoios_references.Review.Types.{ReviewError}
use projectkoios_references.Review.Records.{ProducerIdentity}

-- What reading raises; a text is the label of an object or the name of a field.
pub data ReadError : Type 0 where
  fields_unexpected not_string not_integer not_string_array invalid_value : Text → ReadError
  limits_invalid : ReadError
  -- AttributeError, which `_limits_from_dict` does not catch
  profile_without_encode : ReadError
  unbounded_producer : Text → ReadError
  rejected : ReviewError → ReadError

-- The errors of a record's own checks.
abbrev pub checked : Result ReviewError (Unit {0}) → Result ReadError (Unit {0})
checked (ok u) = ok u
checked (err e) = err (rejected e)

abbrev pub field_names : Fields → List Text
field_names end = []
field_names (field k v fs) = k ∷ field_names fs

-- data[name], where the name has been found before.
abbrev pub at : Text → Fields → Json
at name end = null
at name (field k v fs) = if k == name then v else at name fs

abbrev pub contains : List Text → Text → Bool
contains ks k = any (λ n. k == n) ks

unfoldable pub exact_object : Json → List Text → Text → Result ReadError Fields
exact_object (obj fs) names label =
    if all (contains names) (field_names fs) && all (contains (field_names fs)) names
    then ok fs
    else err (fields_unexpected label)
exact_object _ names label = err (fields_unexpected label)

unfoldable pub string : Json → Text → Result ReadError Text
string (str s) name = ok s
string _ name = err (not_string name)

unfoldable pub optional_string : Json → Text → Result ReadError (Option Text)
unfolding string
optional_string null name = ok none
optional_string v name = do s ← string v name; ok (some s)

-- A negative integer, which no record accepts in these places, is refused here.
unfoldable pub integer : Json → Text → Result ReadError ℕ
integer (num n) name = ok n
integer _ name = err (not_integer name)

abbrev prepend : Text → Option (List Text) → Option (List Text)
prepend s none = none
prepend s (some ss) = some (s ∷ ss)

unfoldable pub items_strings : Items → Option (List Text)
items_strings nil = some []
items_strings (cons (str s) xs) = prepend s (items_strings xs)
items_strings (cons _ xs) = none

unfoldable pub string_array : Json → Text → Result ReadError (List Text)
unfolding items_strings
string_array (arr xs) name = elim (items_strings xs) [
  | none ↦ err (not_string_array name)
  | some ss ↦ ok ss
]
string_array _ name = err (not_string_array name)

-- The member of an enumeration with a value.
abbrev pub pick : {A : Type 0} → (A → Text) → List A → Text → Option A
pick value [] s = none
pick value (a ∷ rest) s = if value a == s then some a else pick value rest s

unfoldable pub enum_value : {A : Type 0} → (A → Text) → List A → Json → Text → Result ReadError A
unfolding string
enum_value value members v name = do
  raw ← string v name
  elim (pick value members raw) [ none ↦ err (invalid_value name) | some a ↦ ok a ]

-- `ProducerIdentity.__post_init__`, with identity.py's `_bounded`
unfoldable pub check_producer : ProducerIdentity → Result ReadError (Unit {0})
unfolding utf8_size
check_producer p = do
  raise_if (p.name == [] || ltb 4096 (utf8_size p.name))
      (unbounded_producer (codes "producer name"))
  raise_if (p.version == [] || ltb 4096 (utf8_size p.version))
      (unbounded_producer (codes "producer version"))

-- `ProducerIdentity.from_dict`
unfoldable pub read_producer : Json → Result ReadError ProducerIdentity
unfolding exact_object string check_producer
read_producer value = do
  fields ← exact_object value (codes "name" ∷ codes "version" ∷ []) (codes "producer identity")
  name ← string (at (codes "name") fields) (codes "producer name")
  version ← string (at (codes "version") fields) (codes "producer version")
  let made : ProducerIdentity = record { name = name; version = version }
  check_producer made
  ok made

-- One limit of the keyword arguments: None or an integer.
unfoldable pub limit : Fields → Text → Result ReadError (Option ℕ)
limit fs name = elim (at name fs) [ null ↦ ok none | num n ↦ ok (some n) | _ ↦ err limits_invalid ]

abbrev limit_names : List Text
limit_names =
    codes "profile"
    ∷ codes "max_files"
    ∷ codes "max_file_bytes"
    ∷ codes "max_response_bytes"
    ∷ codes "max_cache_bytes"
    ∷ codes "max_total_bytes"
    ∷ codes "max_rows"
    ∷ codes "max_json_bytes"
    ∷ codes "max_csv_bytes"
    ∷ codes "max_bibliography_bytes"
    ∷ codes "max_json_depth"
    ∷ codes "max_nesting_depth"
    ∷ codes "max_text_bytes"
    ∷ codes "max_text_file_bytes"
    ∷ codes "max_text_total_bytes"
    ∷ codes "max_candidates"
    ∷ codes "max_match_evaluations"
    ∷ codes "max_entries"
    ∷ []

abbrev item_total : Items → ℕ
item_total nil = 0
item_total (cons x xs) = suc (item_total xs)

-- What `len` and `encode` make of a profile that is a list or an object: where it is not empty and not too long, it
-- has no `encode`.
abbrev of_size : ℕ → Result ReadError Text
of_size n = if n == 0 || ltb 128 n then err limits_invalid else err profile_without_encode

unfoldable pub read_profile : Json → Result ReadError Text
unfolding set_of
read_profile (str s) = ok s
read_profile (arr xs) = of_size (item_total xs)
read_profile (obj fs) = of_size (length (set_of (field_names fs)))
read_profile _ = err limits_invalid

-- `_limits_from_dict`: a TypeError or a ValueError of `ReferenceIOLimits` is `limits_invalid`.
unfoldable pub read_limits : Json → Result ReadError ReferenceIoLimits
unfolding exact_object limit limits_accepted read_profile
read_limits value = do
  fields ← exact_object value limit_names (codes "review effective limits")
  profile ← read_profile (at (codes "profile") fields)
  max_files ← limit fields (codes "max_files")
  max_file_bytes ← limit fields (codes "max_file_bytes")
  max_response_bytes ← limit fields (codes "max_response_bytes")
  max_cache_bytes ← limit fields (codes "max_cache_bytes")
  max_total_bytes ← limit fields (codes "max_total_bytes")
  max_rows ← limit fields (codes "max_rows")
  max_json_bytes ← limit fields (codes "max_json_bytes")
  max_csv_bytes ← limit fields (codes "max_csv_bytes")
  max_bibliography_bytes ← limit fields (codes "max_bibliography_bytes")
  max_json_depth ← limit fields (codes "max_json_depth")
  max_nesting_depth ← limit fields (codes "max_nesting_depth")
  max_text_bytes ← limit fields (codes "max_text_bytes")
  max_text_file_bytes ← limit fields (codes "max_text_file_bytes")
  max_text_total_bytes ← limit fields (codes "max_text_total_bytes")
  max_candidates ← limit fields (codes "max_candidates")
  max_match_evaluations ← limit fields (codes "max_match_evaluations")
  max_entries ← limit fields (codes "max_entries")
  let made : ReferenceIoLimits = record {
    profile = profile;
    max_files = max_files;
    max_file_bytes = max_file_bytes;
    max_response_bytes = max_response_bytes;
    max_cache_bytes = max_cache_bytes;
    max_total_bytes = max_total_bytes;
    max_rows = max_rows;
    max_json_bytes = max_json_bytes;
    max_csv_bytes = max_csv_bytes;
    max_bibliography_bytes = max_bibliography_bytes;
    max_json_depth = max_json_depth;
    max_nesting_depth = max_nesting_depth;
    max_text_bytes = max_text_bytes;
    max_text_file_bytes = max_text_file_bytes;
    max_text_total_bytes = max_text_total_bytes;
    max_candidates = max_candidates;
    max_match_evaluations = max_match_evaluations;
    max_entries = max_entries;
  }
  raise_if (not (limits_accepted made)) limits_invalid
  ok made
