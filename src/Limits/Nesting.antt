-- ===== src/Limits/Nesting.antt =====
-- io_limits.py, `validate_json_text_nesting`, which runs before a JSON text is parsed.
use projectkoios_references.Prelude.{
  >>-eq-ok, >>=-eq-ok, Bool, Option, Result, [], arith, err, false, if◌then◌else◌, list_eq,
  list_ord, ltb, nat_eq, nat_ord, none, not, ok, option_eq, raise_if, raise_if-eq-ok, refl, some,
  subst, suc, sym, take, true, zero, ℕ, ◌&&◌, ◌+◌, ◌-◌, ◌==◌, ◌>>=◌, ◌>>◌, ◌||◌, ◌↔◌, ◌∷◌, ◌≡◌, ◌≤◌,
}
use projectkoios_references.Text.{Text, codes, utf8_size}
use projectkoios_references.Text.Size.{bounded_utf8_size, bounded_utf8_size-Counts}
use projectkoios_references.Limits.{ReferenceIoLimits}

-- The ValueError of a profile without the limit, and the ReferenceIOLimitError with the limit's
-- name, the limit, and what was observed.
pub data LimitError : Type 0 where
  limit_undefined : Text → LimitError
  limit_exceeded : Text → ℕ → ℕ → LimitError

-- The variables of the loop.
pub record Reader : Type 0 where
  pub depth : ℕ
  pub quoted : Bool
  pub escaped : Bool

unfoldable pub defined : Option ℕ → Text → Result LimitError ℕ
defined none name = err (limit_undefined name)
defined (some n) name = ok n

-- One round of the loop.
unfoldable pub nest_character : ℕ → Reader → ℕ → Result LimitError Reader
nest_character maximum_depth r c =
    if r.escaped
    then ok (record r { escaped = false })
    else if r.quoted && c == b'\\'
    then ok (record r { escaped = true })
    else if c == b'"'
    then ok (record r { quoted = not r.quoted })
    else if r.quoted
    then ok r
    else if c == b'[' || c == b'{'
    then raise_if (ltb maximum_depth (r.depth + 1))
        (limit_exceeded (codes "max_json_depth") maximum_depth (r.depth + 1))
      >> ok (record r { depth = r.depth + 1 })
    else if c == b']' || c == b'}'
    then ok (record r { depth = r.depth - 1 })
    else ok r

unfoldable pub nest : ℕ → Reader → Text → Result LimitError (Unit {0})
unfolding nest_character
nest maximum_depth r [] = ok tt
nest maximum_depth r (c ∷ s) = do t ← nest_character maximum_depth r c; nest maximum_depth t s

abbrev pub outside : Reader
outside = record { depth = 0; quoted = false; escaped = false }

unfoldable pub validate_json_text_nesting : Text → ReferenceIoLimits → Result LimitError (Unit {0})
unfolding defined nest bounded_utf8_size
validate_json_text_nesting text limits = do
  maximum_bytes ← defined limits.max_json_bytes (codes "max_json_bytes")
  let observed_bytes = bounded_utf8_size maximum_bytes text
  raise_if (ltb maximum_bytes observed_bytes)
      (limit_exceeded (codes "max_json_bytes") maximum_bytes observed_bytes)
  maximum_depth ← defined limits.max_json_depth (codes "max_json_depth")
  nest maximum_depth outside text

-- Reading with no limit: strings, with their escapes, and the brackets outside them.
unfoldable pub read_character : Reader → ℕ → Reader
read_character r c =
    if r.escaped
    then record r { escaped = false }
    else if r.quoted
    then (if c == b'\\'
        then record r { escaped = true }
        else if c == b'"'
        then record r { quoted = false }
        else r)
    else if c == b'"'
    then record r { quoted = true }
    else if c == b'[' || c == b'{'
    then record r { depth = r.depth + 1 }
    else if c == b']' || c == b'}'
    then record r { depth = r.depth - 1 }
    else r

unfoldable pub read_text : Reader → Text → Reader
unfolding read_character
read_text r [] = r
read_text r (c ∷ s) = read_text (read_character r c) s

-- No beginning of the text is nested deeper.
abbrev pub IsNestedWithin : ℕ → Reader → Text → Type 0
IsNestedWithin maximum_depth r s = (n : ℕ) → (read_text r (take n s)).depth ≤ maximum_depth

nest_character-read :
    (m : ℕ) (r : Reader) (c : ℕ)
    → r.depth ≤ m
    → (read_character r c).depth ≤ m
    → nest_character m r c ≡ ok (read_character r c)
unfolding nest_character read_character
nest_character-read m r c h k = ground arith

read-nest_character :
    (m : ℕ) (r : Reader) (c : ℕ) {t : Reader}
    → r.depth ≤ m
    → nest_character m r c ≡ ok t
    → (read_character r c ≡ t) × (t.depth ≤ m)
unfolding nest_character read_character
read-nest_character m r c h k = ground arith

nest-IsNestedWithin :
    (m : ℕ) (r : Reader) (s : Text) → r.depth ≤ m → nest m r s ≡ ok tt → IsNestedWithin m r s
unfolding nest read_text
nest-IsNestedWithin m r [] low h zero = low
nest-IsNestedWithin m r [] low h (suc n) = low
nest-IsNestedWithin m r (c ∷ s) low h zero = low
nest-IsNestedWithin m r (c ∷ s) low h (suc n) =
    let (t, step, rest) = >>=-eq-ok (nest_character m r c) _ h in
    let (same, within) = read-nest_character m r c low step in
    subst (λ u. (read_text u (take n s)).depth ≤ m) (sym same)
      (nest-IsNestedWithin m t s within rest n)

IsNestedWithin-nest :
    (m : ℕ) (r : Reader) (s : Text) → r.depth ≤ m → IsNestedWithin m r s → nest m r s ≡ ok tt
unfolding nest read_text
IsNestedWithin-nest m r [] low h = refl
IsNestedWithin-nest m r (c ∷ s) low h =
    rw (nest_character-read m r c low (h 1))
      (IsNestedWithin-nest m (read_character r c) s (h 1) (λ n. h (suc n)))

fits_iff :
    (most : ℕ) (s : Text) → (ltb most (bounded_utf8_size most s) ≡ false) ↔ (utf8_size s ≤ most)
fits_iff most s = (
  (λ h. ground (arith, bounded_utf8_size-Counts most s)),
  (λ h. ground (arith, bounded_utf8_size-Counts most s)),
)

-- Under a profile that defines both limits, a JSON text is accepted exactly when its bytes are
-- within the one and no beginning of it is nested deeper than the other, where brackets within
-- strings do not count.
pub validate_json_text_nesting_iff :
    (text : Text) (limits : ReferenceIoLimits) (maximum_bytes maximum_depth : ℕ)
    → limits.max_json_bytes ≡ some maximum_bytes
    → limits.max_json_depth ≡ some maximum_depth
    → (validate_json_text_nesting text limits ≡ ok tt)
      ↔ ((utf8_size text ≤ maximum_bytes) × IsNestedWithin maximum_depth outside text)
unfolding validate_json_text_nesting defined
validate_json_text_nesting_iff text limits b d hb hd =
    rw (hb, hd)
      (
        (λ h.
            let (small, rest) =
              >>-eq-ok
                (raise_if (ltb b (bounded_utf8_size b text))
                  (limit_exceeded (codes "max_json_bytes") b (bounded_utf8_size b text)))
                _ h in
            (
              (fits_iff b text).0 (raise_if-eq-ok _ _ small),
              nest-IsNestedWithin d outside text (omega arith) rest,
            )),
        (λ (small, nested).
            rw ((fits_iff b text).1 small)
              (IsNestedWithin-nest d outside text (omega arith) nested)),
      )
