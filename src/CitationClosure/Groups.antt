-- ===== src/CitationClosure/Groups.antt =====
-- Where a delimited group ends, and what its text is.
use projectkoios_references.Prelude.{
  Bool, Bool-cases, List, List-cases, Result, [], and-eq-true, ap, arith, eq_of_==, err, false,
  if◌then◌else◌, inl, inr, list_eq, list_ord, ltb, ltb-false→le, nat_eq, nat_ord, ne_of_==, not, ok,
  ok-injective, option_eq, pair_eq, pair_ord, refl, subst, suc, sym, true, zero, ℕ, ◌&&◌, ◌++◌, ◌-◌,
  ◌==◌, ◌∙◌, ◌∷◌, ◌≡◌, ◌≢◌, ◌≤◌,
}
use projectkoios_references.Text.{Text}
use projectkoios_references.Text.Nesting.{
  IsNested, opens-IsNested, closes-IsNested, passes-IsNested,
}
use projectkoios_references.CitationClosure.{
  Cursor, ScanError, is_escaped, group_from, keep_character, balanced_group,
}
use projectkoios_references.CitationClosure.Positions.{read_on}

-- The characters of a text that stand outside comments, each with whether it is escaped; a comment goes from a
-- `%` that is not escaped to the end of its line.
pub code_of : Bool → Text → Text → List (ℕ × Bool)
code_of inside done [] = []
code_of true done (c ∷ s) =
    let after = code_of false (c ∷ done) s in
    let on = code_of true (c ∷ done) s in if c == 10 then after else on
code_of false done (c ∷ s) =
    let comment = code_of true (c ∷ done) s in
    let on = (c, is_escaped done) ∷ code_of false (c ∷ done) s in
    if c == b'%' && not (is_escaped done) then comment else on

abbrev pub characters : List (ℕ × Bool) → Text
characters [] = []
characters ((c, escaped) ∷ s) = c ∷ characters s

-- The characters that are not escaped.
abbrev pub unescaped : List (ℕ × Bool) → Text
unescaped [] = []
unescaped ((c, escaped) ∷ s) = let rest = unescaped s in if escaped then rest else c ∷ rest

-- What a group is read to. What was there is a text, the closing character and what is left; outside comments
-- the first two are the code and the closing character, which is not escaped; the group's text is the code; and
-- the code's delimiters are nested within the limit, so that the closing character is the one that ends the group.
pub record IsGroup (opener closer most level : ℕ) (inside : Bool) (done rest : Text)
    (found : Text × Cursor) : Type 0 where
  pub taken : Text
  pub is_after : found.1.done ≡ closer ∷ read_on taken done
  pub is_whole : rest ≡ taken ++ closer ∷ found.1.rest
  pub code : List (ℕ × Bool)
  pub is_code : code_of inside done (taken ++ closer ∷ []) ≡ code ++ (closer, false) ∷ []
  pub is_text : found.0 ≡ characters code
  pub nested : IsNested opener closer most level (unescaped code)

keep_character-eq-ok :
    (c : ℕ) (r : Result ScanError (Text × Cursor)) {found : Text × Cursor}
    → keep_character c r ≡ ok found
    → (value : Text) × (r ≡ ok (value, found.1)) × (found.0 ≡ c ∷ value)
unfolding keep_character
keep_character-eq-ok c (ok (value, p)) {found} h =
    (value, ap (λ q. ok (value, q.1)) (ok-injective h), ap (λ q. q.0) (sym (ok-injective h)))
keep_character-eq-ok c (err e) h = cc

not-false-eq : (a : Bool) → (a && not false) ≡ false → a ≡ false
not-false-eq a h = ground arith

not-eq-true : (b : Bool) → not b ≡ true → b ≡ false
not-eq-true b h = ground arith

positive : (n : ℕ) → n ≢ 0 → 1 ≤ n
positive zero h = absurd (h refl)
positive (suc n) h = omega arith

module _ (opener closer most : ℕ) where
  -- A character that belongs to a comment.
  skipped-IsGroup :
      (level : ℕ) (inside next : Bool) (c : ℕ) (done s : Text) (found : Text × Cursor)
      → ((t : Text) → code_of inside done (c ∷ t) ≡ code_of next (c ∷ done) t)
      → IsGroup opener closer most level next (c ∷ done) s found
      → IsGroup opener closer most level inside done (c ∷ s) found
  skipped-IsGroup level inside next c done s found e g = record {
    taken = c ∷ g.taken;
    is_after = g.is_after;
    is_whole = ap (λ t. c ∷ t) g.is_whole;
    code = g.code;
    is_code = e (g.taken ++ closer ∷ []) ∙ g.is_code;
    is_text = g.is_text;
    nested = g.nested;
  }

  code_of-kept :
      (c : ℕ) (done t : Text)
      → (c == b'%' && not (is_escaped done)) ≡ false
      → code_of false done (c ∷ t) ≡ (c, is_escaped done) ∷ code_of false (c ∷ done) t
  unfolding code_of
  code_of-kept c done t e = rw e refl

  -- A character that the group's text keeps.
  kept-IsGroup :
      (level later : ℕ) (c : ℕ) (done s : Text) (inner : Result ScanError (Text × Cursor))
      {found : Text × Cursor}
      → (c == b'%' && not (is_escaped done)) ≡ false
      → ((u : Text)
          → IsNested opener closer most later u
          → IsNested opener closer most level (if is_escaped done then u else c ∷ u))
      → ((got : Text × Cursor)
          → inner ≡ ok got
          → IsGroup opener closer most later false (c ∷ done) s got)
      → keep_character c inner ≡ ok found
      → IsGroup opener closer most level false done (c ∷ s) found
  kept-IsGroup level later c done s inner {found} code nests each h =
      let (value, made, same) = keep_character-eq-ok c inner h in
      let g = each (value, found.1) made in
      record {
        taken = c ∷ g.taken;
        is_after = g.is_after;
        is_whole = ap (λ t. c ∷ t) g.is_whole;
        code = (c, is_escaped done) ∷ g.code;
        is_code =
            code_of-kept c done (g.taken ++ closer ∷ []) code
            ∙ ap (λ m. (c, is_escaped done) ∷ m) g.is_code;
        is_text = same ∙ ap (λ t. c ∷ t) g.is_text;
        nested = nests (unescaped g.code) g.nested;
      }

  opens-nests :
      (level c : ℕ) (escaped : Bool) (u : Text)
      → (c == opener && not escaped) ≡ true
      → suc level ≤ most
      → IsNested opener closer most (suc level) u
      → IsNested opener closer most level (if escaped then u else c ∷ u)
  opens-nests level c true u e fits n = cc ((and-eq-true (c == opener) false e).1)
  opens-nests level c false u e fits n =
      opens-IsNested opener closer most level c u (and-eq-true (c == opener) true e).0 fits n

  closes-nests :
      (level c : ℕ) (escaped : Bool) (u : Text)
      → (c == opener && not escaped) ≡ false
      → (c == closer && not escaped) ≡ true
      → 1 ≤ level - 1
      → IsNested opener closer most (level - 1) u
      → IsNested opener closer most level (if escaped then u else c ∷ u)
  closes-nests level c true u e f inside n = cc ((and-eq-true (c == closer) false f).1)
  closes-nests level c false u e f inside n =
      closes-IsNested opener closer most level c u (not-false-eq (c == opener) e)
        (and-eq-true (c == closer) true f).0 inside n

  passes-nests :
      (level c : ℕ) (escaped : Bool) (u : Text)
      → (c == opener && not escaped) ≡ false
      → (c == closer && not escaped) ≡ false
      → 1 ≤ level
      → IsNested opener closer most level u
      → IsNested opener closer most level (if escaped then u else c ∷ u)
  passes-nests level c true u e f inside n = n
  passes-nests level c false u e f inside n =
      passes-IsNested opener closer most level c u (not-false-eq (c == opener) e)
        (not-false-eq (c == closer) f) inside n

  -- The character that ends the group.
  closed-IsGroup :
      (level c : ℕ) (done s : Text) {found : Text × Cursor}
      → (c == b'%' && not (is_escaped done)) ≡ false
      → (c == closer && not (is_escaped done)) ≡ true
      → level ≡ 1
      → ◌≡◌ {A = Result ScanError (Text × Cursor)}
          (ok ([], record { done = c ∷ done; rest = s }))
          (ok found)
      → IsGroup opener closer most level false done (c ∷ s) found
  unfolding code_of
  closed-IsGroup level c done s code closes last h =
      let (here, bare) = and-eq-true (c == closer) (not (is_escaped done)) closes in
      let same = eq_of_== c closer here in
      subst (IsGroup opener closer most level false done (c ∷ s)) (ok-injective h) (record {
        taken = [];
        is_after = ap (λ k. k ∷ done) same;
        is_whole = ap (λ k. k ∷ s) same;
        code = [];
        is_code =
            ap (λ k. code_of false done (k ∷ [])) (sym same)
            ∙ code_of-kept c done [] code
            ∙ ap (λ (m : ℕ × Bool). m ∷ [])
                (ap (λ k. (k, is_escaped done)) same
                  ∙ ap (λ b. (closer, b)) (not-eq-true (is_escaped done) bare));
        is_text = refl;
        nested = last;
      })

  at_newline :
      (c : ℕ) (done t : Text)
      → (c == 10) ≡ true
      → code_of true done (c ∷ t) ≡ code_of false (c ∷ done) t
  unfolding code_of
  at_newline c done t e = rw e refl

  in_comment :
      (c : ℕ) (done t : Text)
      → (c == 10) ≡ false
      → code_of true done (c ∷ t) ≡ code_of true (c ∷ done) t
  unfolding code_of
  in_comment c done t e = rw e refl

  at_comment :
      (c : ℕ) (done t : Text)
      → (c == b'%' && not (is_escaped done)) ≡ true
      → code_of false done (c ∷ t) ≡ code_of true (c ∷ done) t
  unfolding code_of
  at_comment c done t e = rw e refl

  group_from-IsGroup :
      (level : ℕ) (inside : Bool) (done rest : Text) {found : Text × Cursor}
      → 1 ≤ level
      → group_from opener closer most level inside done rest ≡ ok found
      → IsGroup opener closer most level inside done rest found
  unfolding group_from
  group_from-IsGroup level inside done [] within h = cc
  group_from-IsGroup level true done (c ∷ s) {found} within h = elim (Bool-cases (c == 10)) [
    | inl newline ↦
        skipped-IsGroup level true false c done s found (λ t. at_newline c done t newline)
          (group_from-IsGroup level false (c ∷ done) s within (rw (newline, group_from) at h))
    | inr other ↦
        skipped-IsGroup level true true c done s found (λ t. in_comment c done t other)
          (group_from-IsGroup level true (c ∷ done) s within (rw (other, group_from) at h))
  ]
  group_from-IsGroup level false done (c ∷ s) {found} within h =
      elim (Bool-cases (c == b'%' && not (is_escaped done))) [
        | inl comment ↦
            skipped-IsGroup level false true c done s found (λ t. at_comment c done t comment)
              (group_from-IsGroup level true (c ∷ done) s within (rw (comment, group_from) at h))
        | inr code ↦ elim (Bool-cases (c == opener && not (is_escaped done))) [
          | inl opens ↦ elim (Bool-cases (ltb most (suc level))) [
            | inl deep ↦ cc (rw (code, opens, deep, group_from) at h)
            | inr fits ↦
                kept-IsGroup level (suc level) c done s
                  (group_from opener closer most (suc level) false (c ∷ done) s) code
                  (λ u n.
                    opens-nests level c (is_escaped done) u opens
                      (ltb-false→le most (suc level) fits) n)
                  (λ got e. group_from-IsGroup (suc level) false (c ∷ done) s (omega arith) e)
                  (rw (code, opens, fits, group_from) at h)
          ]
          | inr closed ↦ elim (Bool-cases (c == closer && not (is_escaped done))) [
            | inl closes ↦ elim (Bool-cases (level - 1 == 0)) [
              | inl last ↦
                  closed-IsGroup level c done s code closes
                    (omega (arith, eq_of_== (level - 1) 0 last))
                    (rw (code, closed, closes, last, group_from) at h)
              | inr more ↦
                  let still : 1 ≤ level - 1 = positive (level - 1) (ne_of_== (level - 1) 0 more) in
                  kept-IsGroup level (level - 1) c done s
                    (group_from opener closer most (level - 1) false (c ∷ done) s) code
                    (λ u n. closes-nests level c (is_escaped done) u closed closes still n)
                    (λ got e. group_from-IsGroup (level - 1) false (c ∷ done) s still e)
                    (rw (code, closed, closes, more, group_from) at h)
            ]
            | inr plain ↦
                kept-IsGroup level level c done s
                  (group_from opener closer most level false (c ∷ done) s) code
                  (λ u n. passes-nests level c (is_escaped done) u closed plain within n)
                  (λ got e. group_from-IsGroup level false (c ∷ done) s within e)
                  (rw (code, closed, plain, group_from) at h)
          ]
        ]
      ]

  -- A group that is read begins with its opening character where the position was and ends just before the
  -- position that is returned, with a closing character that is neither escaped nor in a comment. Between the
  -- two the delimiters that are neither escaped nor in comments are nested, no deeper than the limit, and the
  -- group's text is what stands there outside comments.
  pub balanced_group-IsGroup :
      (p : Cursor) {found : Text × Cursor}
      → balanced_group opener closer most p ≡ ok found
      → (s : Text) × (p.rest ≡ opener ∷ s)
        × IsGroup opener closer most 1 false (opener ∷ p.done) s found
  unfolding balanced_group
  balanced_group-IsGroup p {found} h = elim (List-cases p.rest) [
    | inl nothing ↦ cc (rw nothing at h)
    | inr (c, s, there) ↦ elim (Bool-cases (c == opener)) [
      | inl opens ↦
          let same = eq_of_== c opener opens in
          (
            s,
            there ∙ ap (λ k. k ∷ s) same,
            subst (λ k. IsGroup opener closer most 1 false (k ∷ p.done) s found) same
                (group_from-IsGroup 1 false (c ∷ p.done) s (omega arith)
                  (rw (opens) at (rw there at h))),
          )
      | inr other ↦ cc (rw (other) at (rw there at h))
    ]
  ]
