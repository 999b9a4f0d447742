-- ===== src/Biblatex/Braces.antt =====
-- One round of the scan of an entry with braces.
use projectkoios_references.Prelude.{
  Bool, Bool-cases, [], ap, arith, eq_of_==, false, inl, inr, list_eq, list_ord, ltb, ltb-false→le,
  nat_eq, nat_ord, option_eq, pair_eq, pair_ord, refl, subst, sym, true, ℕ, ◌+◌, ◌==◌, ◌||◌, ◌∙◌,
  ◌∷◌, ◌≡◌, ◌≤◌,
}
use projectkoios_references.Text.{Text}
use projectkoios_references.Text.Nesting.{
  IsNested, opens-IsNested, closes-IsNested, passes-IsNested,
}
use projectkoios_references.Biblatex.{deeper, leave, scan_character}
use projectkoios_references.Biblatex.Delimiters.{bare-escape, bare-kept}
use projectkoios_references.Biblatex.Rounds.{Meets, plain, bare-nil, not_one}

module _ (most depth brace_depth : ℕ) (quoted : Bool) (c : ℕ) (s : Text) (within : 1 ≤ depth) where
  other : (x y : ℕ) → (c == x) ≡ true → (x == y) ≡ false → (c == y) ≡ false
  other x y e f = subst (λ k. (k == y) ≡ false) (sym (eq_of_== c x e)) f

  -- In an entry with braces: a character that is neither a backslash nor a quotation mark.
  brace-Meets :
      (c == b'\\') ≡ false
      → (c == b'"') ≡ false
      → Meets true most
          (plain depth brace_depth quoted)
          c
          s
          (scan_character true most (plain depth brace_depth quoted) c)
  unfolding scan_character deeper leave
  brace-Meets a b =
      let same = bare-kept c s a in
      let alone = bare-kept c [] a in
      elim (Bool-cases (c == b'{')) [
        | inl d ↦ elim (Bool-cases (ltb most (depth + 1))) [
          | inl deep ↦ rw (a, b, d, deep) tt
          | inr fits ↦
              let open_here = opens-IsNested b'{' b'}' most depth c in
              rw (a, b, d, fits)
                (
                  omega arith,
                  inr (
                    same,
                    λ w n.
                        open_here w d (omega (arith, ltb-false→le most (depth + 1) fits))
                          (subst (λ k. IsNested b'{' b'}' most k w) (omega arith) n),
                  ),
                )
        ]
        | inr d ↦ elim (Bool-cases (c == b'}')) [
          | inl f ↦ elim (Bool-cases (depth == 1)) [
            | inl one ↦
                let last = alone ∙ ap (λ t. c ∷ t) bare-nil in
                let ends = eq_of_== c b'}' f in
                let first = eq_of_== depth 1 one in rw (a, b, d, f, one) (ends, first, last)
            | inr more ↦
                let still = not_one depth more within in
                let shut = closes-IsNested b'{' b'}' most depth c in
                rw (a, b, d, f, more) (still, inr (same, λ w n. shut w d f still n))
          ]
          | inr f ↦
              let pass = passes-IsNested b'{' b'}' most depth c in
              elim (Bool-cases (quoted || ltb 0 brace_depth)) [
                | inl g ↦ rw (a, b, d, f, g) (within, inr (same, λ w n. pass w d f within n))
                | inr g ↦ rw (a, b, d, f, g) (within, inr (same, λ w n. pass w d f within n))
              ]
        ]
      ]

  pub braces-Meets :
      Meets true most
        (plain depth brace_depth quoted)
        c
        s
        (scan_character true most (plain depth brace_depth quoted) c)
  unfolding scan_character deeper leave
  braces-Meets = elim (Bool-cases (c == b'\\')) [
    | inl a ↦ let same = bare-escape c s a in rw a (within, inl (same, refl))
    | inr a ↦
        let same = bare-kept c s a in
        elim (Bool-cases (c == b'"')) [
          | inl b ↦
              let pass = passes-IsNested b'{' b'}' most depth c in
              let d = other b'"' b'{' b refl in
              let f = other b'"' b'}' b refl in
              rw (a, b) (within, inr (same, λ w n. pass w d f within n))
          | inr b ↦ brace-Meets a b
        ]
  ]
