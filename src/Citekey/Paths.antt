-- ===== src/Citekey/Paths.antt =====
-- path_safety/validation.py, `validate_root_alias` and `validate_relative_path`.
use projectkoios_references.Prelude.{
  >>-eq-ok, All, Bool, Bool-cases, List, Result, [], any, eq_of_==, err, false, inl, inr, length,
  list_eq, list_ord, ltb, nat_eq, nat_ord, ne_of_==, not, not-eq-false, ok, ok-injective, option_eq,
  or-eq-false, or_eq_false, raise_if, raise_if-eq-ok, refl, select, subst, ℕ, ◌==◌, ◌>>◌, ◌||◌, ◌∷◌,
  ◌≡◌, ◌≢◌,
}
use projectkoios_references.Text.{Text, codes, Platform, split, push_front, starts_with}
use projectkoios_references.Json.{join}
use projectkoios_references.Citekey.{
  PathError, is_empty, validate_segment, empty_text, not_nfc, too_long,
}

-- The messages that only these two functions raise.
pub data RelativePathError : Type 0 where
  not_one_segment not_relative not_normalized : RelativePathError
  path_error : PathError → RelativePathError

abbrev pub segment_checked : Result PathError (Unit {0}) → Result RelativePathError (Unit {0})
segment_checked (ok u) = ok u
segment_checked (err e) = err (path_error e)

abbrev pub has : ℕ → Text → Bool
has k s = any (λ c. c == k) s

-- PurePosixPath(raw).parts of a relative path: empty parts and `.` are dropped.
unfoldable pub path_parts : Text → List Text
unfolding split
path_parts raw = select (λ part. not (is_empty part || part == codes ".")) (split b'/' raw)

-- `part in {"", ".", ".."}`
abbrev pub is_relative_part : Text → Bool
is_relative_part part = is_empty part || part == codes "." || part == codes ".."

-- The condition after the path is made
unfoldable pub is_not_normalized : Text → List Text → Bool
unfolding join starts_with
is_not_normalized raw parts =
    starts_with raw (codes "/")
    || parts == []
    || any is_relative_part parts
    || not (join (codes "/") parts == raw)

module _ (p : Platform) where
  unfoldable pub validate_root_alias : Text → Result RelativePathError Text
  unfolding validate_segment
  validate_root_alias value = do
    raise_if (is_empty value) (path_error empty_text)
    raise_if (not (value == p.nfc value)) (path_error not_nfc)
    raise_if (ltb 100 (length value)) (path_error too_long)
    raise_if (has b'/' value || has b'\\' value) not_one_segment
    segment_checked (validate_segment p value)
    ok value

  unfoldable pub each_segment : List Text → Result RelativePathError (Unit {0})
  unfolding validate_segment
  each_segment [] = ok tt
  each_segment (part ∷ parts) = do segment_checked (validate_segment p part); each_segment parts

  -- The path that is returned, by its parts.
  unfoldable pub validate_relative_path : Text → Result RelativePathError (List Text)
  unfolding path_parts is_not_normalized each_segment
  validate_relative_path raw = do
    raise_if (is_empty raw || has b'\\' raw) not_relative
    raise_if (not (raw == p.nfc raw)) (path_error not_nfc)
    let parts = path_parts raw
    raise_if (is_not_normalized raw parts) not_normalized
    each_segment parts
    ok parts

-- What a relative path is, by its parts.
pub record IsRelativePath (p : Platform) (raw : Text) (parts : List Text) : Type 0 where
  pub joined : join (codes "/") parts ≡ raw
  pub inhabited : parts ≢ []
  pub segments : All (λ part. (has b'/' part ≡ false) × (validate_segment p part ≡ ok tt)) parts

abbrev NoSlash : List Text → Type 0
NoSlash = All (λ part. has b'/' part ≡ false)

push_front-NoSlash :
    (c : ℕ) (parts : List Text) → (c == b'/') ≡ false → NoSlash parts → NoSlash (push_front c parts)
push_front-NoSlash c [] other h = (or_eq_false _ _ other refl, tt)
push_front-NoSlash c (part ∷ parts) other (here, h) = (or_eq_false _ _ other here, h)

split-NoSlash : (s : Text) → NoSlash (split b'/' s)
unfolding split
split-NoSlash [] = (refl, tt)
split-NoSlash (c ∷ s) = elim (Bool-cases (c == b'/')) [
  | inl same ↦ rw same (refl, split-NoSlash s)
  | inr other ↦ rw other (push_front-NoSlash c (split b'/' s) other (split-NoSlash s))
]

select-NoSlash : (q : Text → Bool) (xs : List Text) → NoSlash xs → NoSlash (select q xs)
select-NoSlash q [] h = tt
select-NoSlash q (x ∷ xs) (here, h) = elim (Bool-cases (q x)) [
  | inl kept ↦ rw kept (here, select-NoSlash q xs h)
  | inr dropped ↦ rw dropped (select-NoSlash q xs h)
]

normal_parts :
    (raw : Text) (parts : List Text)
    → is_not_normalized raw parts ≡ false
    → (parts ≢ []) × (join (codes "/") parts ≡ raw)
unfolding is_not_normalized
normal_parts raw parts h =
    let (h1, joined) =
      or-eq-false (starts_with raw (codes "/") || parts == [] || any is_relative_part parts)
        (not (join (codes "/") parts == raw)) h in
    let (h2, _) =
      or-eq-false (starts_with raw (codes "/") || parts == []) (any is_relative_part parts) h1 in
    let (_, inhabited) = or-eq-false (starts_with raw (codes "/")) (parts == []) h2 in
    (ne_of_== parts [] inhabited, eq_of_== (join (codes "/") parts) raw (not-eq-false _ joined))

segment_checked-ok : (r : Result PathError (Unit {0})) → segment_checked r ≡ ok tt → r ≡ ok tt
segment_checked-ok (ok u) h = refl
segment_checked-ok (err e) h = cc

module _ (p : Platform) where
  each_segment-All :
      (parts : List Text)
      → NoSlash parts
      → each_segment p parts ≡ ok tt
      → All (λ part. (has b'/' part ≡ false) × (validate_segment p part ≡ ok tt)) parts
  unfolding each_segment
  each_segment-All [] n h = tt
  each_segment-All (part ∷ parts) (clean, n) h =
      let (here, later) = >>-eq-ok (segment_checked (validate_segment p part)) _ h in
      ((clean, segment_checked-ok (validate_segment p part) here), each_segment-All parts n later)

  -- An accepted relative path is given back as its parts: there is at least one, none holds a
  -- slash, each is a portable path segment, and joined by slashes they are the path.
  pub validate_relative_path-IsRelativePath :
      (raw : Text) {parts : List Text}
      → validate_relative_path p raw ≡ ok parts
      → IsRelativePath p raw parts
  unfolding validate_relative_path
  validate_relative_path-IsRelativePath raw h =
      let made = path_parts raw in
      let (_, h1) = >>-eq-ok (raise_if (is_empty raw || has b'\\' raw) not_relative) _ h in
      let (_, h2) = >>-eq-ok (raise_if (not (raw == p.nfc raw)) (path_error not_nfc)) _ h1 in
      let (normal, h3) = >>-eq-ok (raise_if (is_not_normalized raw made) not_normalized) _ h2 in
      let (checked, last) = >>-eq-ok (each_segment p made) _ h3 in
      let (some_part, joined) =
        normal_parts raw made (raise_if-eq-ok (is_not_normalized raw made) _ normal) in
      subst (IsRelativePath p raw) (ok-injective last) (record {
        joined = joined;
        inhabited = some_part;
        segments = each_segment-All made (select-NoSlash _ _ (split-NoSlash raw)) checked;
      })
