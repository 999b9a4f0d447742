-- ===== src/Review/Clock.antt =====
-- Canonical timestamps: the pattern _TIMESTAMP, `datetime.strptime` at its format, and the order of
-- the times. `\d` is any decimal digit of Unicode, as in the source; where the format's own pattern
-- asks for ASCII, so does the model.
use projectkoios_references.Prelude.{
  Bool, List, Option, [], false, get_elem?, if◌then◌else◌, leb, less, list_eq, list_ord, nat_eq,
  nat_ord, none, not, option_eq, some, true, ℕ, ◌%◌, ◌&&◌, ◌*◌, ◌+◌, ◌==◌, ◌||◌, ◌∷◌,
}
use projectkoios_references.Text.{Text, codes, Platform, is_digit}

pub record DateTime : Type 0 where
  pub year : ℕ
  pub month : ℕ
  pub day : ℕ
  pub hour : ℕ
  pub minute : ℕ
  pub second : ℕ

abbrev is_some : Option ℕ → Bool
is_some none = false
is_some (some n) = true

-- `d` in the shape stands for a decimal digit, and any other character for itself.
abbrev fits : Platform → ℕ → ℕ → Bool
fits p k c = if k == b'd' then is_some (p.decimal c) else k == c

has_shape : Platform → Text → Text → Bool
has_shape p [] [] = true
has_shape p [] (c ∷ s) = false
has_shape p (k ∷ ks) [] = false
has_shape p (k ∷ ks) (c ∷ s) = fits p k c && has_shape p ks s

-- _TIMESTAMP.fullmatch
unfoldable pub matches_timestamp : Platform → Text → Bool
unfolding has_shape
matches_timestamp p s = has_shape p (codes "dddd-dd-ddTdd:dd:ddZ") s

abbrev bind_option : {A B : Type 0} → Option A → (A → Option B) → Option B
bind_option none f = none
bind_option (some a) f = f a

abbrev when : {A : Type 0} → Bool → A → Option A
when true a = some a
when false a = none

-- The character at a position as a decimal digit, with whether it is ASCII.
digit_at : Platform → Text → ℕ → Option (ℕ × Bool)
digit_at p s i =
    bind_option (get_elem? s i) λ c. bind_option (p.decimal c) λ v. some (v, is_digit c)

-- Two digits, the first of them ASCII, that pass a test on the first, the second and whether that
-- is ASCII.
two_digits : Platform → Text → ℕ → (ℕ → ℕ → Bool → Bool) → Option ℕ
unfolding digit_at
two_digits p s i allowed = bind_option (digit_at p s i) λ (f, f_ascii).
    bind_option (digit_at p s (i + 1))
      λ (g, g_ascii). when (f_ascii && allowed f g g_ascii) (10 * f + g)

-- 1[0-2]|0[1-9]
abbrev month_digits : ℕ → ℕ → Bool → Bool
month_digits f g ascii = ascii && ((f == 1 && leb g 2) || (f == 0 && leb 1 g))

-- 3[0-1]|[1-2]\d|0[1-9]
abbrev day_digits : ℕ → ℕ → Bool → Bool
day_digits f g ascii =
    (f == 3 && ascii && leb g 1) || f == 1 || f == 2 || (f == 0 && ascii && leb 1 g)

-- 2[0-3]|[0-1]\d
abbrev hour_digits : ℕ → ℕ → Bool → Bool
hour_digits f g ascii = (f == 2 && ascii && leb g 3) || leb f 1

-- [0-5]\d, for minutes; seconds may also be 6[0-1], which `datetime` then refuses
abbrev sixty_digits : ℕ → ℕ → Bool → Bool
sixty_digits f g ascii = leb f 5

unfoldable pub is_leap : ℕ → Bool
is_leap y = y % 4 == 0 && (not (y % 100 == 0) || y % 400 == 0)

unfoldable pub days_in_month : ℕ → ℕ → ℕ
unfolding is_leap
days_in_month y m =
    if m == 2
    then (if is_leap y then 29 else 28)
    else if m == 4 || m == 6 || m == 9 || m == 11
    then 30
    else 31

year_at : Platform → Text → Option ℕ
unfolding digit_at
year_at p s = bind_option (digit_at p s 0) λ (a, _). bind_option (digit_at p s 1) λ (b, _).
    bind_option (digit_at p s 2)
      λ (c, _). bind_option (digit_at p s 3) λ (d, _). some (1000 * a + 100 * b + 10 * c + d)

-- datetime.strptime(s, "%Y-%m-%dT%H:%M:%SZ"); `none` is a ValueError. The years begin with 1.
unfoldable pub strptime : Platform → Text → Option DateTime
unfolding matches_timestamp two_digits year_at days_in_month
strptime p s = bind_option (when (matches_timestamp p s) tt) λ _. bind_option (year_at p s) λ y.
    bind_option (two_digits p s 5 month_digits) λ m. bind_option (two_digits p s 8 day_digits) λ d.
      bind_option (two_digits p s 11 hour_digits) λ h.
        bind_option (two_digits p s 14 sixty_digits) λ n.
          bind_option (two_digits p s 17 sixty_digits) λ k.
            when (leb 1 y && leb d (days_in_month y m))
              (record { year = y; month = m; day = d; hour = h; minute = n; second = k })

abbrev pub components : DateTime → List ℕ
components t = t.year ∷ t.month ∷ t.day ∷ t.hour ∷ t.minute ∷ t.second ∷ []

-- `<` on times
unfoldable pub earlier : DateTime → DateTime → Bool
earlier t u = less (components t) (components u)
