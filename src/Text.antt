-- ===== src/Text.antt =====
-- Python texts as lists of code points, and the text methods that the source uses: `str.isspace`,
-- `str.strip`, `str.split`, `str.find`, the UTF-8 size. Texts hold no surrogates, so encoding never
-- fails. Unicode's other tables and the hash function are the parameters of `Platform`.
pub mod Nesting
pub mod Size
mod Tests
use Prim.Native.Char.{code}
use Prim.Native.String
use projectkoios_references.Prelude.{
  nat_eq, list_eq, ℕ, ◌+◌, ◌-◌, String, Bool, true, false, ◌&&◌, ◌||◌, Option, List, [], ◌∷◌,
  reverse, ltb, if◌then◌else◌, between, any, ◌==◌,
}

abbrev pub Text : Type 0
Text = List ℕ

-- The code points of a literal.
abbrev pub codes : String → Text
codes String.[] = []
codes (String.◌∷◌ c s) = code c ∷ codes s

-- What the source takes from Python's `hashlib` and from Unicode's tables.
pub record Platform : Type 0 where
  -- hashlib.sha256(text.encode()).hexdigest()
  pub sha256_hex : Text → Text
  -- str.isalpha and str.isalnum of one character
  pub is_alpha : ℕ → Bool
  pub is_alnum : ℕ → Bool
  -- str.lower
  pub lower : Text → Text
  -- str.upper
  pub upper : Text → Text
  -- unicodedata.normalize("NFC", text)
  pub nfc : Text → Text
  -- the value of a decimal digit, which `\d` matches
  pub decimal : ℕ → Option ℕ

-- str.isspace of one character
unfoldable pub is_space : ℕ → Bool
is_space c =
    between 9 13 c
    || between 28 32 c
    || between 0x2000 0x200a c
    || any (λ k. c == k) (0x85 ∷ 0xa0 ∷ 0x1680 ∷ 0x2028 ∷ 0x2029 ∷ 0x202f ∷ 0x205f ∷ 0x3000 ∷ [])

unfoldable pub lstrip : Text → Text
unfolding is_space
lstrip [] = []
lstrip (c ∷ s) = let rest = lstrip s in if is_space c then rest else c ∷ s

-- str.strip
unfoldable pub strip : Text → Text
unfolding lstrip
strip s = reverse (lstrip (reverse (lstrip s)))

-- The bytes of one code point in UTF-8.
unfoldable pub utf8_width : ℕ → ℕ
utf8_width c = if ltb c 0x80 then 1 else if ltb c 0x800 then 2 else if ltb c 0x10000 then 3 else 4

-- len(value.encode("utf-8"))
unfoldable pub utf8_size : Text → ℕ
unfolding utf8_width
utf8_size [] = 0
utf8_size (c ∷ s) = utf8_width c + utf8_size s

-- Ranges of ASCII.
abbrev pub is_lower : ℕ → Bool
is_lower c = between b'a' b'z' c

abbrev pub is_upper : ℕ → Bool
is_upper c = between b'A' b'Z' c

abbrev pub is_digit : ℕ → Bool
is_digit c = between b'0' b'9' c

-- `[0-9a-f]`
abbrev pub is_hex : ℕ → Bool
is_hex c = is_digit c || between b'a' b'f' c

-- s.endswith(c), for one character
abbrev pub ends_with : Text → ℕ → Bool
ends_with [] k = false
ends_with (c ∷ []) k = c == k
ends_with (c ∷ d ∷ s) k = ends_with (d ∷ s) k

-- str.startswith
unfoldable pub starts_with : Text → Text → Bool
starts_with s [] = true
starts_with [] (p ∷ ps) = false
starts_with (c ∷ s) (p ∷ ps) = c == p && starts_with s ps

-- value.split(sep, 1)[0]
unfoldable pub before : ℕ → Text → Text
before sep [] = []
before sep (c ∷ s) = let rest = before sep s in if c == sep then [] else c ∷ rest

abbrev pub push_front : ℕ → List Text → List Text
push_front c [] = (c ∷ []) ∷ []
push_front c (part ∷ parts) = (c ∷ part) ∷ parts

-- str.split(sep): always one part more than there are separators.
unfoldable pub split : ℕ → Text → List Text
split sep [] = [] ∷ []
split sep (c ∷ s) = let rest = split sep s in if c == sep then [] ∷ rest else push_front c rest
