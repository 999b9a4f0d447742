-- ===== src/Biblatex/Cuts.antt =====
-- The parts of a text that runs, positions and slices cut out.
use projectkoios_references.Prelude.{
  All, Bool, Bool-cases, Option, Option-cases, [], ap, arith, drop, eq_of_==, get_elem?, inl, inr,
  length, list_eq, list_ord, nat_eq, nat_ord, ne_of_==, option_eq, pair_eq, pair_ord, refl, some,
  some-injective, subst, suc, sym, take, true, zero, ℕ, ◌++◌, ◌+◌, ◌-◌, ◌==◌, ◌||◌, ◌∙◌, ◌∷◌, ◌≡◌,
  ◌≢◌,
}
use projectkoios_references.Text.{Text, Platform, is_space}
use projectkoios_references.Biblatex.Entries.{Header, run_length, find, slice, header_at}

-- The characters of an entry's type.
abbrev pub is_type_character : Platform → ℕ → Bool
is_type_character p c = p.is_alnum c || c == b'_' || c == b'-'

-- A text is a run of characters that pass the test and what follows it.
pub record Stretch (test : ℕ → Bool) (s : Text) : Type 0 where
  pub ahead : Text
  pub after : Text
  pub is_whole : s ≡ ahead ++ after
  pub long : length ahead ≡ run_length test s
  pub passes : All (λ c. test c ≡ true) ahead

run_length-Stretch : (test : ℕ → Bool) (s : Text) → Stretch test s
unfolding run_length
run_length-Stretch test [] = record {
  ahead = [];
  after = [];
  is_whole = refl;
  long = refl;
  passes = tt;
}
run_length-Stretch test (c ∷ s) = elim (Bool-cases (test c)) [
  | inl e ↦
      let r = run_length-Stretch test s in
      record {
        ahead = c ∷ r.ahead;
        after = r.after;
        is_whole = ap (λ k. c ∷ k) r.is_whole;
        long = rw e (ap suc r.long);
        passes = (e, r.passes);
      }
  | inr e ↦ record { ahead = []; after = c ∷ s; is_whole = refl; long = rw e refl; passes = tt }
]

pub take-append : (a b : Text) → take (length a) (a ++ b) ≡ a
take-append [] b = refl
take-append (c ∷ a) b = ap (λ k. c ∷ k) (take-append a b)

drop-append : (a b : Text) → drop (length a) (a ++ b) ≡ b
drop-append [] b = refl
drop-append (c ∷ a) b = drop-append a b

drop_nil : (n : ℕ) → ◌≡◌ {A = Text} (drop n []) []
drop_nil zero = refl
drop_nil (suc n) = refl

pub drop_add : (n m : ℕ) (s : Text) → drop (n + m) s ≡ drop m (drop n s)
drop_add zero m s = ap (λ k. drop k s) (omega arith)
drop_add (suc n) m [] = drop_nil (suc n + m) ∙ sym (drop_nil m)
drop_add (suc n) m (c ∷ s) =
    let e : suc n + m ≡ suc (n + m) = omega arith in ap (λ k. drop k (c ∷ s)) e ∙ drop_add n m s

pub take-drop : (n : ℕ) (s : Text) → s ≡ take n s ++ drop n s
take-drop zero s = refl
take-drop (suc n) [] = refl
take-drop (suc n) (c ∷ s) = ap (λ k. c ∷ k) (take-drop n s)

pub drop-get_elem? : (n c : ℕ) (s : Text) → get_elem? s n ≡ some c → drop n s ≡ c ∷ drop (n + 1) s
drop-get_elem? n c [] h = cc
drop-get_elem? zero c (d ∷ s) h = ap (λ k. k ∷ s) (some-injective _ _ h)
drop-get_elem? (suc n) c (d ∷ s) h =
    let e : suc n + 1 ≡ suc (n + 1) = omega arith in
    drop-get_elem? n c s h ∙ ap (λ k. c ∷ drop k (d ∷ s)) (sym e)

-- A slice that starts where a text stands is that text, if it is as long.
pub slice-is :
    (first last : ℕ) (text a b : Text)
    → drop first text ≡ a ++ b
    → last ≡ first + length a
    → slice first last text ≡ a
unfolding slice
slice-is first last text a b e long =
    let width : last - first ≡ length a = omega (arith, long) in
    ap (λ k. take k (drop first text)) width ∙ ap (take (length a)) e ∙ take-append a b

-- A text up to the first such character, and what follows it.
pub record Cut (c n : ℕ) (s : Text) : Type 0 where
  pub ahead : Text
  pub after : Text
  pub is_whole : s ≡ ahead ++ c ∷ after
  pub is_ahead : take n s ≡ ahead
  pub is_first : All (λ d. d ≢ c) ahead

pub find-Cut : (c n : ℕ) (s : Text) → find c s ≡ some n → Cut c n s
unfolding find
find-Cut c n [] h = cc
find-Cut c n (d ∷ s) h = elim (Bool-cases (d == c)) [
  | inl same ↦ zeroth (eq_of_== d c same) (cc (rw (same, find) at h))
  | inr other ↦ elim (Option-cases (find c s)) [
    | inl a ↦ absurd (cc (rw (other, a, find) at h))
    | inr (m, a) ↦ later m (ne_of_== d c other) (find-Cut c m s a) (cc (rw (other, a, find) at h))
  ]
]
  where
    zeroth : d ≡ c → ◌≡◌ {A = Option ℕ} (some 0) (some n) → Cut c n (d ∷ s)
    zeroth same k =
        subst (λ x. Cut c x (d ∷ s)) (some-injective _ _ k)
          (record {
            ahead = [];
            after = s;
            is_whole = ap (λ x. x ∷ s) same;
            is_ahead = refl;
            is_first = tt;
          })

    later :
        (m : ℕ) → d ≢ c → Cut c m s → ◌≡◌ {A = Option ℕ} (some (suc m)) (some n) → Cut c n (d ∷ s)
    later m differs r k =
        subst (λ x. Cut c x (d ∷ s)) (some-injective _ _ k)
          (record {
            ahead = d ∷ r.ahead;
            after = r.after;
            is_whole = ap (λ x. d ∷ x) r.is_whole;
            is_ahead = ap (λ x. d ∷ x) r.is_ahead;
            is_first = (differs, r.is_first);
          })

module _ (p : Platform) where
  -- The type and the space that a header stands after.
  pub record IsHeader (text : Text) (marker : ℕ) (h : Header) : Type 0 where
    pub kind : Text
    pub space : Text
    pub is_kind : slice (marker + 1) h.type_end text ≡ kind
    pub named : All (λ c. is_type_character p c ≡ true) kind
    pub spaced : All (λ c. is_space c ≡ true) space
    pub is_after : drop (marker + 1) text ≡ kind ++ (space ++ drop h.opening_index text)
    pub stands : h.opening_index ≡ marker + 1 + length kind + length space
    pub is_opening : h.opening ≡ get_elem? text h.opening_index

  pub header_at-IsHeader :
      (text : Text) (marker : ℕ) → IsHeader text marker (header_at p text marker)
  unfolding header_at
  header_at-IsHeader text marker =
      let h = header_at p text marker in
      let r = run_length-Stretch (is_type_character p) (drop (marker + 1) text) in
      let q = run_length-Stretch is_space (drop h.type_end text) in
      let ends : h.type_end ≡ marker + 1 + length r.ahead = ap (λ k. marker + 1 + k) (sym r.long) in
      let rest : drop h.type_end text ≡ r.after =
        ap (λ k. drop k text) ends
        ∙ drop_add (marker + 1) (length r.ahead) text
        ∙ ap (drop (length r.ahead)) r.is_whole
        ∙ drop-append r.ahead r.after in
      let opens : h.opening_index ≡ h.type_end + length q.ahead =
        ap (λ k. h.type_end + k) (sym q.long) in
      let last : drop h.opening_index text ≡ q.after =
        ap (λ k. drop k text) opens
        ∙ drop_add h.type_end (length q.ahead) text
        ∙ ap (drop (length q.ahead)) q.is_whole
        ∙ drop-append q.ahead q.after in
      record {
        kind = r.ahead;
        space = q.ahead;
        is_kind = slice-is (marker + 1) h.type_end text r.ahead r.after r.is_whole ends;
        named = r.passes;
        spaced = q.passes;
        is_after =
            r.is_whole
            ∙ ap (λ k. r.ahead ++ k) (sym rest ∙ q.is_whole ∙ ap (λ k. q.ahead ++ k) (sym last));
        stands = opens ∙ ap (λ k. k + length q.ahead) ends;
        is_opening = refl;
      }
