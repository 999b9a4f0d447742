-- ===== src/CitationClosure/Positions.antt =====
-- Lines and columns follow the characters, and tell positions apart.
use projectkoios_references.Prelude.{
  Bool-cases, [], ap, arith, if◌then◌else◌, inl, inr, less, list_eq, list_ord, nat_eq, nat_ord,
  option_eq, pair_eq, pair_lt_trans, pair_ord, refl, sym, true, ℕ, ◌+◌, ◌==◌, ◌∙◌, ◌∷◌, ◌≡◌,
}
use projectkoios_references.Text.{Text}
use projectkoios_references.CitationClosure.{newlines, column, line_column}

-- What follows a line and a column when one character is read.
abbrev pub next_place : ℕ → ℕ × ℕ → ℕ × ℕ
next_place c (line, col) = if c == 10 then (line + 1, 1) else (line, col + 1)

-- The line and column of a position by reading the text from its start.
abbrev pub place_after : ℕ × ℕ → Text → ℕ × ℕ
place_after place [] = place
place_after place (c ∷ s) = place_after (next_place c place) s

start : ◌≡◌ {A = ℕ × ℕ} (1, 1) (line_column [])
unfolding line_column newlines column
start = refl

line_column-cons : (c : ℕ) (done : Text) → line_column (c ∷ done) ≡ next_place c (line_column done)
unfolding line_column newlines column
line_column-cons c done = elim (Bool-cases (c == 10)) [
  | inl newline ↦ rw newline (ap (λ n. (n, 1)) (omega arith))
  | inr other ↦ rw other (ap (λ n. (newlines done + 1, n)) (omega arith))
]

-- The text before a position, once a text has been read from there.
abbrev pub read_on : Text → Text → Text
read_on [] done = done
read_on (c ∷ s) done = read_on s (c ∷ done)

place_after-read_on :
    (text done : Text) → place_after (line_column done) text ≡ line_column (read_on text done)
place_after-read_on [] done = refl
place_after-read_on (c ∷ s) done =
    ap (λ q. place_after q s) (sym (line_column-cons c done)) ∙ place_after-read_on s (c ∷ done)

place_later : (c : ℕ) (done : Text) → less (line_column done) (line_column (c ∷ done)) ≡ true
unfolding line_column newlines column
place_later c done = ground arith

read_on-later :
    (c : ℕ) (s done : Text) → less (line_column done) (line_column (read_on (c ∷ s) done)) ≡ true
read_on-later c [] done = place_later c done
read_on-later c (d ∷ s) done =
    pair_lt_trans (line_column done) (line_column (c ∷ done))
      (line_column (read_on (d ∷ s) (c ∷ done))) (place_later c done) (read_on-later d s (c ∷ done))

-- The line and the column of a position are those of reading the text before it from line 1 and column 1,
-- where a newline begins a line and any other character takes a column; and of two positions in a text
-- the later one has the later line and column.
pub line_column-place_after :
    (text : Text)
    → (place_after (1, 1) text ≡ line_column (read_on text []))
      × ((c : ℕ) (s : Text)
          → less (line_column (read_on text [])) (line_column (read_on (c ∷ s) (read_on text [])))
            ≡ true)
line_column-place_after text = (
  ap (λ q. place_after q text) start ∙ place_after-read_on text [],
  (λ c s. read_on-later c s (read_on text [])),
)
