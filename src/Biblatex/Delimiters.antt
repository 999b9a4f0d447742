-- ===== src/Biblatex/Delimiters.antt =====
-- The delimiters that count in an entry's text.
use projectkoios_references.Prelude.{
  Bool, [], false, if◌then◌else◌, ltb, nat_eq, not, true, suc, ℕ, ◌&&◌, ◌-◌, ◌==◌, ◌||◌, ◌∷◌, ◌≡◌,
  refl,
}
use projectkoios_references.Text.{Text}

-- A text without its backslashes and the characters after them; the flag says that one went before it.
unfoldable pub bare : Bool → Text → Text
bare escaped [] = []
bare true (c ∷ s) = bare false s
bare false (c ∷ s) =
    let after = bare true s in let on = c ∷ bare false s in if c == b'\\' then after else on

-- What stands outside quotation marks and braces, from within the quotation or not, and the depth of braces on.
unfoldable pub outside_quotes : Bool → ℕ → Text → Text
outside_quotes quoted depth [] = []
outside_quotes quoted depth (c ∷ s) =
    let mark = outside_quotes (not quoted) depth s in
    let deeper = outside_quotes quoted (suc depth) s in
    let shallower = outside_quotes quoted (depth - 1) s in
    let on = outside_quotes quoted depth s in
    if c == b'"'
    then mark
    else if c == b'{'
    then deeper
    else if c == b'}' && ltb 0 depth
    then shallower
    else if quoted || ltb 0 depth
    then on
    else c ∷ on

-- The characters of which the delimiters count: in an entry with parentheses only those outside quotation marks
-- and braces, in one with braces all; neither is preceded by a backslash that counts.
abbrev pub counted : Bool → Bool → Bool → ℕ → Text → Text
counted true escaped quoted depth s = bare escaped s
counted false escaped quoted depth s = outside_quotes quoted depth (bare escaped s)

abbrev pub opening : Bool → ℕ
opening true = b'{'
opening false = b'('

abbrev pub closing : Bool → ℕ
closing true = b'}'
closing false = b')'

module _ (c : ℕ) (s : Text) where
  pub bare-escape : (c == b'\\') ≡ true → bare false (c ∷ s) ≡ bare true s
  unfolding bare
  bare-escape e = rw e refl

  pub bare-kept : (c == b'\\') ≡ false → bare false (c ∷ s) ≡ c ∷ bare false s
  unfolding bare
  bare-kept e = rw e refl

module _ (quoted : Bool) (depth c : ℕ) (s : Text) where
  pub outside_quotes-mark :
      (c == b'"') ≡ true → outside_quotes quoted depth (c ∷ s) ≡ outside_quotes (not quoted) depth s
  unfolding outside_quotes
  outside_quotes-mark a = rw a refl

  pub outside_quotes-opens :
      (c == b'"') ≡ false
      → (c == b'{') ≡ true
      → outside_quotes quoted depth (c ∷ s) ≡ outside_quotes quoted (suc depth) s
  unfolding outside_quotes
  outside_quotes-opens a b = rw (a, b) refl

  pub outside_quotes-closes :
      (c == b'"') ≡ false
      → (c == b'{') ≡ false
      → (c == b'}' && ltb 0 depth) ≡ true
      → outside_quotes quoted depth (c ∷ s) ≡ outside_quotes quoted (depth - 1) s
  unfolding outside_quotes
  outside_quotes-closes a b d = rw (a, b, d) refl

  pub outside_quotes-within :
      (c == b'"') ≡ false
      → (c == b'{') ≡ false
      → (c == b'}' && ltb 0 depth) ≡ false
      → (quoted || ltb 0 depth) ≡ true
      → outside_quotes quoted depth (c ∷ s) ≡ outside_quotes quoted depth s
  unfolding outside_quotes
  outside_quotes-within a b d e = rw (a, b, d, e) refl

  pub outside_quotes-kept :
      (c == b'"') ≡ false
      → (c == b'{') ≡ false
      → (c == b'}' && ltb 0 depth) ≡ false
      → (quoted || ltb 0 depth) ≡ false
      → outside_quotes quoted depth (c ∷ s) ≡ c ∷ outside_quotes quoted depth s
  unfolding outside_quotes
  outside_quotes-kept a b d e = rw (a, b, d, e) refl
