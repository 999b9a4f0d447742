-- ===== src/Biblatex/Rounds.antt =====
-- What one round of the scan for an entry's end makes of a character.
use projectkoios_references.Prelude.{
  Bool, Result, [], arith, err, false, inl, list_eq, list_ord, nat_eq, nat_ord, ok, option_eq,
  pair_eq, pair_ord, refl, true, ℕ, ◌-◌, ◌==◌, ◌∷◌, ◌≡◌, ◌≤◌, ◌⊎◌,
}
use projectkoios_references.Text.{Text}
use projectkoios_references.Text.Nesting.{IsNested}
use projectkoios_references.Biblatex.{BibliographyError, Scan, Round, found, next, scan_character}
use projectkoios_references.Biblatex.Delimiters.{bare, outside_quotes, counted, opening, closing}

-- The characters that count from a state of the scan on.
abbrev pub counted_from : Bool → Scan → Text → Text
counted_from braces t s = counted braces t.escaped t.quoted t.brace_depth s

-- The character counts for nothing, or it counts as one that keeps the nesting.
abbrev pub Goes : Bool → ℕ → Scan → ℕ → Text → Scan → Type 0
Goes braces most t c s u =
    ((counted_from braces t (c ∷ s) ≡ counted_from braces u s) × (u.depth ≡ t.depth))
    ⊎ ((counted_from braces t (c ∷ s) ≡ c ∷ counted_from braces u s)
        × ((w : Text)
            → IsNested (opening braces) (closing braces) most u.depth w
            → IsNested (opening braces) (closing braces) most t.depth (c ∷ w)))

-- The character ends the entry, or the scan goes on.
abbrev pub Meets : Bool → ℕ → Scan → ℕ → Text → Result BibliographyError Round → Type 0
Meets braces most t c s (err e) = Unit {0}
Meets braces most t c s (ok found) =
    (c ≡ closing braces) × (t.depth ≡ 1) × (counted_from braces t (c ∷ []) ≡ c ∷ [])
Meets braces most t c s (ok (next u)) = (1 ≤ u.depth) × Goes braces most t c s u

pub bare-nil : bare false [] ≡ []
unfolding bare
bare-nil = refl

pub outside_quotes-nil : (quoted : Bool) (depth : ℕ) → outside_quotes quoted depth [] ≡ []
unfolding outside_quotes
outside_quotes-nil quoted depth = refl

abbrev pub plain : ℕ → ℕ → Bool → Scan
plain depth brace_depth quoted = record {
  depth = depth;
  brace_depth = brace_depth;
  quoted = quoted;
  escaped = false;
}

pub not_one : (n : ℕ) → (n == 1) ≡ false → 1 ≤ n → 1 ≤ n - 1
not_one n e h = ground arith

module _ (most depth brace_depth : ℕ) (quoted : Bool) (c : ℕ) (s : Text) (within : 1 ≤ depth) where
  unescape-bare :
      (braces : Bool)
      → counted braces true quoted brace_depth (c ∷ s) ≡ counted braces false quoted brace_depth s
  unfolding bare
  unescape-bare true = refl
  unescape-bare false = refl

  pub escaped-Meets :
      (braces : Bool)
      → Meets braces most
          (record { depth = depth; brace_depth = brace_depth; quoted = quoted; escaped = true })
          c
          s
          (scan_character braces most
            (record { depth = depth; brace_depth = brace_depth; quoted = quoted; escaped = true })
            c)
  unfolding scan_character
  escaped-Meets true = (within, inl (unescape-bare true, refl))
  escaped-Meets false = (within, inl (unescape-bare false, refl))
