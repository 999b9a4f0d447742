-- ===== src/Text/Nesting.antt =====
-- How delimiters nest in a text.
use projectkoios_references.Prelude.{
  [], arith, false, if◌then◌else◌, nat_eq, true, suc, ℕ, ◌-◌, ◌==◌, ◌∷◌, ◌≡◌, ◌≤◌,
}
use projectkoios_references.Text.{Text}

-- The level after a character, from the level before it.
abbrev pub level_after : ℕ → ℕ → ℕ → ℕ → ℕ
level_after opener closer level c =
    if c == opener then suc level else if c == closer then level - 1 else level

-- From the level on, the text stays in its group: no opening goes deeper than the limit, no closing leaves the
-- group, and every group that is opened in it is closed in it.
abbrev pub IsNested : ℕ → ℕ → ℕ → ℕ → Text → Type 0
IsNested opener closer most level [] = level ≡ 1
IsNested opener closer most level (c ∷ s) =
    ((c == opener) ≡ true → suc level ≤ most)
    × (1 ≤ level_after opener closer level c)
    × IsNested opener closer most (level_after opener closer level c) s

module _ (opener closer most level c : ℕ) (s : Text) where
  pub opens-IsNested :
      (c == opener) ≡ true
      → suc level ≤ most
      → IsNested opener closer most (suc level) s
      → IsNested opener closer most level (c ∷ s)
  opens-IsNested e fits n = rw e ((λ _. fits), (omega arith), n)

  pub closes-IsNested :
      (c == opener) ≡ false
      → (c == closer) ≡ true
      → 1 ≤ level - 1
      → IsNested opener closer most (level - 1) s
      → IsNested opener closer most level (c ∷ s)
  closes-IsNested e f inside n = rw (e, f) ((λ h. cc), inside, n)

  pub passes-IsNested :
      (c == opener) ≡ false
      → (c == closer) ≡ false
      → 1 ≤ level
      → IsNested opener closer most level s
      → IsNested opener closer most level (c ∷ s)
  passes-IsNested e f inside n = rw (e, f) ((λ h. cc), inside, n)
