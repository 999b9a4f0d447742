-- ===== src/Text/Size.antt =====
-- io_limits.py, `bounded_utf8_size`: the size is counted in chunks of 65,536 characters, and the
-- count stops early once it passes the bound.
use projectkoios_references.Prelude.{
  ℕ, zero, suc, ◌+◌, ◌≤◌, ◌<◌, ◌≡◌, refl, [], ◌∷◌, arith, ltb, if◌then◌else◌, length, take, drop,
}
use projectkoios_references.Text.{Text, utf8_width, utf8_size}

-- The loop over the offsets, on what is left of the text; the fuel bounds the rounds.
size_chunks : ℕ → ℕ → ℕ → ℕ → Text → ℕ
size_chunks zero chunk max_bytes total s = total
size_chunks (suc fuel) chunk max_bytes total [] = total
size_chunks (suc fuel) chunk max_bytes total (c ∷ s) =
    let here = total + utf8_size (take chunk (c ∷ s)) in
    let rest = size_chunks fuel chunk max_bytes here (drop chunk (c ∷ s)) in
    if ltb max_bytes here then here else rest

unfoldable pub bounded_utf8_size : ℕ → Text → ℕ
unfolding size_chunks utf8_size
bounded_utf8_size max_bytes value =
    if ltb max_bytes (length value)
    then length value
    else size_chunks (length value) 65536 max_bytes 0 value

utf8_size-take-drop : (n : ℕ) (s : Text) → utf8_size (take n s) + utf8_size (drop n s) ≡ utf8_size s
unfolding utf8_size
utf8_size-take-drop zero s = omega arith
utf8_size-take-drop (suc n) [] = refl
utf8_size-take-drop (suc n) (c ∷ s) = omega (arith, utf8_size-take-drop n s)

length-drop_lt : (n : ℕ) (s : Text) → length (drop n s) ≤ length s
length-drop_lt zero s = omega arith
length-drop_lt (suc n) [] = omega arith
length-drop_lt (suc n) (c ∷ s) = omega (arith, length-drop_lt n s)

utf8_width_pos : (c : ℕ) → 1 ≤ utf8_width c
unfolding utf8_width
utf8_width_pos c = ground arith

pub length-le-utf8_size : (s : Text) → length s ≤ utf8_size s
unfolding utf8_size
length-le-utf8_size [] = omega arith
length-le-utf8_size (c ∷ s) = omega (arith, utf8_width_pos c, length-le-utf8_size s)

-- What a bounded count promises of the exact one: the same number within the bound, and a number
-- past the bound otherwise.
abbrev pub Counts : ℕ → ℕ → ℕ → Type 0
Counts max_bytes exact counted =
    (exact ≤ max_bytes → counted ≡ exact) × (max_bytes < exact → max_bytes < counted)

size_chunks-Counts :
    (fuel chunk max_bytes total : ℕ) (s : Text)
    → length s ≤ fuel
    → Counts max_bytes (total + utf8_size s) (size_chunks fuel (suc chunk) max_bytes total s)
unfolding size_chunks utf8_size
size_chunks-Counts zero chunk max_bytes total [] h = omega arith
size_chunks-Counts zero chunk max_bytes total (c ∷ s) h = absurd (omega arith)
size_chunks-Counts (suc fuel) chunk max_bytes total [] h = omega arith
size_chunks-Counts (suc fuel) chunk max_bytes total (c ∷ s) h = ground (
  arith,
  utf8_size-take-drop chunk s,
  length-drop_lt chunk s,
  size_chunks-Counts fuel chunk max_bytes (total + (utf8_width c + utf8_size (take chunk s)))
      (drop chunk s),
)

-- The chunked count equals the size in bytes when that is within the bound, and passes the bound
-- when the size does.
pub bounded_utf8_size-Counts :
    (max_bytes : ℕ) (value : Text)
    → Counts max_bytes (utf8_size value) (bounded_utf8_size max_bytes value)
unfolding bounded_utf8_size
bounded_utf8_size-Counts max_bytes value =
    ground
      (arith, length-le-utf8_size value, size_chunks-Counts (length value) 65535 max_bytes 0 value)
