-- ===== src/Biblatex/Bounds.antt =====
-- Where the end of an entry is found.
use projectkoios_references.Prelude.{
  >>=-eq-ok, Bool, Option, [], ap, arith, drop, false, get_elem?, inl, inr, length, list_eq,
  list_ord, nat_eq, nat_ord, ok, ok-injective, option_eq, pair_eq, pair_ord, refl, some, subst, suc,
  sym, true, zero, ℕ, ◌++◌, ◌+◌, ◌<◌, ◌∙◌, ◌∷◌, ◌≡◌, ◌≤◌,
}
use projectkoios_references.Text.{Text, codes}
use projectkoios_references.Text.Nesting.{IsNested}
use projectkoios_references.Limits.{ReferenceIoLimits}
use projectkoios_references.Biblatex.{
  start, Scan, Round, found, next, scan_character, scan_entry, required_limit, matching_entry_end,
}
use projectkoios_references.Biblatex.Delimiters.{opening, closing}
use projectkoios_references.Biblatex.Rounds.{counted_from, Goes, Meets, escaped-Meets}
use projectkoios_references.Biblatex.Braces.{braces-Meets}
use projectkoios_references.Biblatex.Parentheses.{parentheses-Meets}

-- What a scan from a state on has passed where it stops: a text and the closing character after it. Of these the
-- characters that count are those of a text whose delimiters are nested within the limit, and the closing character.
pub record IsEnd (braces : Bool) (most : ℕ) (t : Scan) (index : ℕ) (s : Text) (i : ℕ) : Type 0 where
  pub taken : Text
  pub left : Text
  pub is_whole : s ≡ taken ++ closing braces ∷ left
  pub is_there : i ≡ index + length taken
  pub inner : Text
  pub is_counted :
      counted_from braces t (taken ++ closing braces ∷ []) ≡ inner ++ closing braces ∷ []
  pub nested : IsNested (opening braces) (closing braces) most t.depth inner

scan_character-Meets :
    (braces : Bool) (most : ℕ) (t : Scan) (c : ℕ) (s : Text)
    → 1 ≤ t.depth
    → Meets braces most t c s (scan_character braces most t c)
scan_character-Meets braces most t c s within =
    by_state braces t.depth t.brace_depth t.quoted t.escaped within
  where
    by_state :
        (braces : Bool) (depth brace_depth : ℕ) (quoted escaped : Bool)
        → 1 ≤ depth
        → Meets braces most
            (record {
              depth = depth;
              brace_depth = brace_depth;
              quoted = quoted;
              escaped = escaped;
            })
            c
            s
            (scan_character braces most
              (record {
                depth = depth;
                brace_depth = brace_depth;
                quoted = quoted;
                escaped = escaped;
              })
              c)
    by_state b depth brace_depth quoted true h = escaped-Meets most depth brace_depth quoted c s h b
    by_state true depth brace_depth quoted false h =
        braces-Meets most depth brace_depth quoted c s h
    by_state false depth brace_depth quoted false h =
        parentheses-Meets most depth brace_depth quoted c s h

module _ (braces : Bool) (most : ℕ) where
  here-IsEnd :
      (t : Scan) (index c : ℕ) (s : Text)
      → Meets braces most t c [] (ok found)
      → IsEnd braces most t index (c ∷ s) index
  here-IsEnd t index c s (closes, first, alone) = record {
    taken = [];
    left = s;
    is_whole = ap (λ k. k ∷ s) closes;
    is_there = omega arith;
    inner = [];
    is_counted = subst (λ k. counted_from braces t (k ∷ []) ≡ k ∷ []) closes alone;
    nested = first;
  }

  later-IsEnd :
      (t u : Scan) (index c : ℕ) (s : Text) (i : ℕ)
      → (e : IsEnd braces most u (suc index) s i)
      → Goes braces most t c (e.taken ++ closing braces ∷ []) u
      → IsEnd braces most t index (c ∷ s) i
  later-IsEnd t u index c s i e (inl (same, level)) = record {
    taken = c ∷ e.taken;
    left = e.left;
    is_whole = ap (λ k. c ∷ k) e.is_whole;
    is_there = omega (arith, e.is_there);
    inner = e.inner;
    is_counted = same ∙ e.is_counted;
    nested = subst (λ k. IsNested (opening braces) (closing braces) most k e.inner) level e.nested;
  }
  later-IsEnd t u index c s i e (inr (same, nests)) = record {
    taken = c ∷ e.taken;
    left = e.left;
    is_whole = ap (λ k. c ∷ k) e.is_whole;
    is_there = omega (arith, e.is_there);
    inner = c ∷ e.inner;
    is_counted = same ∙ ap (λ k. c ∷ k) e.is_counted;
    nested = nests e.inner e.nested;
  }

  stops :
      (t : Scan) (c index : ℕ) (s : Text) (i : ℕ)
      → 1 ≤ t.depth
      → ((u : Scan)
          → 1 ≤ u.depth
          → scan_entry braces most u (suc index) s ≡ ok i
          → IsEnd braces most u (suc index) s i)
      → (round : Round) → scan_character braces most t c ≡ ok round
      → elim round [ found ↦ ok index | next u ↦ scan_entry braces most u (suc index) s ] ≡ ok i
      → IsEnd braces most t index (c ∷ s) i
  stops t c index s i within later found a b =
      subst (IsEnd braces most t index (c ∷ s)) (ok-injective b) (
        here-IsEnd t index c s
          (subst (Meets braces most t c []) a (scan_character-Meets braces most t c [] within)))
  stops t c index s i within later (next u) a b =
      let meets = λ (k : Text).
        subst (Meets braces most t c k) a (scan_character-Meets braces most t c k within) in
      let e = later u (meets []).0 b in
      later-IsEnd t u index c s i e (meets (e.taken ++ closing braces ∷ [])).1

  scan_entry-IsEnd :
      (t : Scan) (index : ℕ) (s : Text) (i : ℕ)
      → 1 ≤ t.depth
      → scan_entry braces most t index s ≡ ok i
      → IsEnd braces most t index s i
  unfolding scan_entry
  scan_entry-IsEnd t index [] i within h = cc
  scan_entry-IsEnd t index (c ∷ s) i within h =
      let (round, scanned, rest) = >>=-eq-ok (scan_character braces most t c) _ h in
      stops t c index s i within (λ u. scan_entry-IsEnd u (suc index) s i) round scanned rest

suc_add : (n k : ℕ) → suc (n + k) ≡ suc n + k
suc_add n k = omega arith

pub get_elem?-drop : (n k : ℕ) (s : Text) → get_elem? (drop n s) k ≡ get_elem? s (n + k)
get_elem?-drop zero k s = ap (get_elem? s) (omega arith)
get_elem?-drop (suc n) k [] = refl
get_elem?-drop (suc n) k (c ∷ s) = get_elem?-drop n k s ∙ ap (get_elem? (c ∷ s)) (suc_add n k)

get_elem?-lt : (s : Text) (i c : ℕ) → get_elem? s i ≡ some c → i < length s
get_elem?-lt [] i c h = cc
get_elem?-lt (d ∷ s) zero c h = omega arith
get_elem?-lt (d ∷ s) (suc i) c h = omega (arith, get_elem?-lt s i c h)

get_elem?-append : (s : Text) (c : ℕ) (r : Text) → get_elem? (s ++ c ∷ r) (length s) ≡ some c
get_elem?-append [] c r = refl
get_elem?-append (d ∷ s) c r = get_elem?-append s c r

-- An entry's end is the closing character that its opening calls for, and it stands after the opening. Of the text
-- between the two, the characters that count are all but backslashes and what each of these escapes, and in an entry
-- with parentheses only those outside quotation marks and braces; the entry's delimiters among them are nested, no
-- deeper than the limit, and the closing character itself is one that counts.
pub matching_entry_end-IsEnd :
    (text : Text) (opening_index : ℕ) (braces : Bool) (limits : ReferenceIoLimits) {i : ℕ}
    → matching_entry_end text opening_index braces limits ≡ ok i
    → (most : ℕ) × (limits.max_nesting_depth ≡ some most)
      × IsEnd braces most start (opening_index + 1) (drop (opening_index + 1) text) i
unfolding matching_entry_end required_limit
matching_entry_end-IsEnd text opening_index braces limits {i} h =
    let (most, limited, scanned) =
      >>=-eq-ok (required_limit limits.max_nesting_depth (codes "max_nesting_depth")) _ h in
    (
      most,
      defined limits.max_nesting_depth most limited,
      scan_entry-IsEnd braces most start (opening_index + 1) (drop (opening_index + 1) text) i
          (omega arith) scanned,
    )
  where
    defined :
        (o : Option ℕ) (n : ℕ) → required_limit o (codes "max_nesting_depth") ≡ ok n → o ≡ some n
    defined o n e = ground arith

pub matching_entry_end-within :
    (text : Text) (opening_index : ℕ) (braces : Bool) (limits : ReferenceIoLimits) {i : ℕ}
    → matching_entry_end text opening_index braces limits ≡ ok i
    → (opening_index < i) × (i < length text)
matching_entry_end-within text opening_index braces limits {i} h =
    let (most, _, e) = matching_entry_end-IsEnd text opening_index braces limits h in
    let first = opening_index + 1 in
    let there = get_elem?-append e.taken (closing braces) e.left in
    let within = get_elem?-lt text (first + length e.taken) (closing braces) (
      sym (get_elem?-drop first (length e.taken) text)
      ∙ ap (λ k. get_elem? k (length e.taken)) e.is_whole
      ∙ there) in
    (omega (arith, e.is_there), omega (arith, e.is_there, within))
