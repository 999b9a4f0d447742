-- ===== src/Samples.antt =====
-- A platform for runs on ASCII texts, on which Unicode's tables are the ASCII ones. Its hash is the
-- sum of the code points, written in 64 digits.
use projectkoios_references.Prelude.{
  [], if◌then◌else◌, list_eq, list_ord, map, nat_eq, nat_ord, none, option_eq, some, suc, zero, ℕ,
  ◌%◌, ◌++◌, ◌+◌, ◌-◌, ◌/◌, ◌||◌, ◌∷◌,
}
use projectkoios_references.Text.{Text, Platform, is_lower, is_upper, is_digit}

-- The last decimal digits of a number, as many as the first argument says.
abbrev pub last_digits : ℕ → ℕ → Text
last_digits zero n = []
last_digits (suc k) n = last_digits k (n / 10) ++ ((n % 10 + 48) ∷ [])

abbrev pub total : Text → ℕ
total [] = 0
total (c ∷ s) = c + total s

abbrev pub zeros : ℕ → Text
zeros zero = []
zeros (suc n) = b'0' ∷ zeros n

abbrev pub digest : ℕ → Text
digest n = zeros 56 ++ last_digits 8 n

abbrev pub ascii : Platform
ascii = record {
  sha256_hex = λ s. digest (total s);
  is_alpha = λ c. is_lower c || is_upper c;
  is_alnum = λ c. is_lower c || is_upper c || is_digit c;
  lower = λ s. map (λ c. if is_upper c then c + 32 else c) s;
  upper = λ s. map (λ c. if is_lower c then c - 32 else c) s;
  nfc = λ s. s;
  decimal = λ c. if is_digit c then some (c - 48) else none;
}
