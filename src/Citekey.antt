-- ===== src/Citekey.antt =====
-- path_safety/validation.py (citation keys and path segments) and naming.py
-- (src/python/projectkoios/references).
pub mod Filenames
pub mod Paths
mod Tests
use projectkoios_references.Prelude.{
  ◌>>=◌, ◌>>◌, nat_eq, list_eq, ℕ, Bool, true, false, not, ◌||◌, List, [], ◌∷◌, ◌++◌, ltb, length,
  any, ◌==◌, Result, ok, raise_if,
}
use projectkoios_references.Text.{
  Text, codes, Platform, is_lower, is_upper, is_digit, ends_with, before,
}

-- One constructor for each message of a PathSafetyError.
pub data PathError : Type 0 where
  empty_text not_nfc too_long not_ascii_letter forbidden_character ends_with_period reserved :
      PathError
  invalid_segment ends_with_space_or_period nonportable : PathError

-- CON, PRN, AUX, NUL, COM1 to COM9 and LPT1 to LPT9.
abbrev pub windows_reserved : List Text
windows_reserved =
    codes "CON"
    ∷ codes "PRN"
    ∷ codes "AUX"
    ∷ codes "NUL"
    ∷ codes "COM1"
    ∷ codes "COM2"
    ∷ codes "COM3"
    ∷ codes "COM4"
    ∷ codes "COM5"
    ∷ codes "COM6"
    ∷ codes "COM7"
    ∷ codes "COM8"
    ∷ codes "COM9"
    ∷ codes "LPT1"
    ∷ codes "LPT2"
    ∷ codes "LPT3"
    ∷ codes "LPT4"
    ∷ codes "LPT5"
    ∷ codes "LPT6"
    ∷ codes "LPT7"
    ∷ codes "LPT8"
    ∷ codes "LPT9"
    ∷ []

unfoldable pub is_reserved : Text → Bool
is_reserved s = any (λ name. s == name) windows_reserved

abbrev pub is_letter : ℕ → Bool
is_letter c = is_lower c || is_upper c

abbrev pub citekey_ascii : ℕ → Bool
citekey_ascii c = is_letter c || is_digit c || c == b'.' || c == b'_' || c == b'-'

abbrev pub portable_forbidden : ℕ → Bool
portable_forbidden c =
    c == b'<'
    || c == b'>'
    || c == b':'
    || c == b'"'
    || c == b'\\'
    || c == b'|'
    || c == b'?'
    || c == b'*'

abbrev pub starts_with_letter : Text → Bool
starts_with_letter [] = false
starts_with_letter (c ∷ s) = is_letter c

abbrev pub is_empty : Text → Bool
is_empty [] = true
is_empty (c ∷ s) = false

module _ (p : Platform) where
  unfoldable pub validate_citekey : Text → Result PathError Text
  validate_citekey value = do
    raise_if (is_empty value) empty_text
    raise_if (not (value == p.nfc value)) not_nfc
    raise_if (ltb 200 (length value)) too_long
    raise_if (not (starts_with_letter value)) not_ascii_letter
    raise_if (any (λ c. not (citekey_ascii c)) value) forbidden_character
    raise_if (ends_with value b'.') ends_with_period
    raise_if (is_reserved (p.upper (before b'.' value))) reserved
    ok value

  unfoldable pub validate_segment : Text → Result PathError (Unit {0})
  validate_segment value = do
    raise_if (is_empty value || value == codes "." || value == codes "..") invalid_segment
    raise_if (ends_with value b' ' || ends_with value b'.') ends_with_space_or_period
    raise_if (any (λ c. ltb c 32 || portable_forbidden c) value) nonportable
    raise_if (is_reserved (p.upper (before b'.' value))) reserved
    ok tt

-- naming.py, `ReferenceFilenames`
pub record ReferenceFilenames : Type 0 where
  pub citekey : Text
  pub note : Text
  pub pdf : Text

unfoldable pub from_citekey : Platform → Text → Result PathError ReferenceFilenames
unfolding validate_citekey
from_citekey p citekey = do
  safe ← validate_citekey p citekey
  ok (record { citekey = safe; note = safe ++ codes ".md"; pdf = safe ++ codes ".pdf" })
