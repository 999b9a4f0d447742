-- ===== src/Biblatex/Parentheses.antt =====
-- One round of the scan of an entry with parentheses.
use projectkoios_references.Prelude.{
  Bool, Bool-cases, [], ap, arith, eq_of_==, false, inl, inr, list_eq, list_ord, ltb, ltb-false→le,
  nat_eq, nat_ord, option_eq, pair_eq, pair_ord, refl, subst, ℕ, ◌&&◌, ◌+◌, ◌==◌, ◌||◌, ◌∙◌, ◌∷◌,
  ◌≡◌, ◌≤◌,
}
use projectkoios_references.Text.{Text}
use projectkoios_references.Text.Nesting.{
  IsNested, opens-IsNested, closes-IsNested, passes-IsNested,
}
use projectkoios_references.Biblatex.{deeper, leave, scan_character}
use projectkoios_references.Biblatex.Delimiters.{
  bare, outside_quotes, counted, bare-escape, bare-kept, outside_quotes-mark, outside_quotes-opens,
  outside_quotes-closes, outside_quotes-within, outside_quotes-kept,
}
use projectkoios_references.Biblatex.Rounds.{Meets, plain, bare-nil, outside_quotes-nil, not_one}

module _ (most depth brace_depth : ℕ) (quoted : Bool) (c : ℕ) (s : Text) (within : 1 ≤ depth) where
  -- In an entry with parentheses: a character that counts.
  counted-Meets :
      (c == b'\\') ≡ false
      → (c == b'"') ≡ false
      → (c == b'{') ≡ false
      → (c == b'}' && ltb 0 brace_depth) ≡ false
      → (quoted || ltb 0 brace_depth) ≡ false
      → (counted false false quoted brace_depth (c ∷ s)
          ≡ c ∷ counted false false quoted brace_depth s)
      → Meets false most
          (plain depth brace_depth quoted)
          c
          s
          (scan_character false most (plain depth brace_depth quoted) c)
  unfolding scan_character deeper leave
  counted-Meets a b d f g same = elim (Bool-cases (c == b'(')) [
    | inl k ↦ elim (Bool-cases (ltb most (depth + 1))) [
      | inl deep ↦ rw (a, b, d, f, g, k, deep) tt
      | inr fits ↦
          let open_here = opens-IsNested b'(' b')' most depth c in
          rw (a, b, d, f, g, k, fits)
            (
              omega arith,
              inr (
                same,
                λ w n.
                    open_here w k (omega (arith, ltb-false→le most (depth + 1) fits))
                      (subst (λ k. IsNested b'(' b')' most k w) (omega arith) n),
              ),
            )
    ]
    | inr k ↦ elim (Bool-cases (c == b')')) [
      | inl m ↦ elim (Bool-cases (depth == 1)) [
        | inl one ↦
            let last =
              ap (outside_quotes quoted brace_depth) (bare-kept c [] a ∙ ap (λ t. c ∷ t) bare-nil)
              ∙ outside_quotes-kept quoted brace_depth c [] b d f g
              ∙ ap (λ t. c ∷ t) (outside_quotes-nil quoted brace_depth) in
            let ends = eq_of_== c b')' m in
            let first = eq_of_== depth 1 one in rw (a, b, d, f, g, k, m, one) (ends, first, last)
        | inr more ↦
            let still = not_one depth more within in
            let shut = closes-IsNested b'(' b')' most depth c in
            rw (a, b, d, f, g, k, m, more) (still, inr (same, λ w n. shut w k m still n))
      ]
      | inr m ↦
          let pass = passes-IsNested b'(' b')' most depth c in
          rw (a, b, d, f, g, k, m) (within, inr (same, λ w n. pass w k m within n))
    ]
  ]

  pub parentheses-Meets :
      Meets false most
        (plain depth brace_depth quoted)
        c
        s
        (scan_character false most (plain depth brace_depth quoted) c)
  unfolding scan_character deeper leave
  parentheses-Meets = elim (Bool-cases (c == b'\\')) [
    | inl a ↦
        let same = ap (outside_quotes quoted brace_depth) (bare-escape c s a) in
        rw a (within, inl (same, refl))
    | inr a ↦
        let went = ap (outside_quotes quoted brace_depth) (bare-kept c s a) in
        elim (Bool-cases (c == b'"')) [
          | inl b ↦
              let same = went ∙ outside_quotes-mark quoted brace_depth c (bare false s) b in
              rw (a, b) (within, inl (same, refl))
          | inr b ↦ elim (Bool-cases (c == b'{')) [
            | inl d ↦ elim (Bool-cases (ltb most (depth + (brace_depth + 1)))) [
              | inl deep ↦ rw (a, b, d, deep) tt
              | inr fits ↦
                  let same =
                    went
                    ∙ outside_quotes-opens quoted brace_depth c (bare false s) b d
                    ∙ ap (λ k. outside_quotes quoted k (bare false s)) (omega arith) in
                  rw (a, b, d, fits) (within, inl (same, refl))
            ]
            | inr d ↦ elim (Bool-cases (c == b'}' && ltb 0 brace_depth)) [
              | inl f ↦
                  let same =
                    went ∙ outside_quotes-closes quoted brace_depth c (bare false s) b d f in
                  rw (a, b, d, f) (within, inl (same, refl))
              | inr f ↦ elim (Bool-cases (quoted || ltb 0 brace_depth)) [
                | inl g ↦
                    let same =
                      went ∙ outside_quotes-within quoted brace_depth c (bare false s) b d f g in
                    rw (a, b, d, f, g) (within, inl (same, refl))
                | inr g ↦
                    counted-Meets a b d f g
                      (went ∙ outside_quotes-kept quoted brace_depth c (bare false s) b d f g)
              ]
            ]
          ]
        ]
  ]
