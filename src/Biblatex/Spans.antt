-- ===== src/Biblatex/Spans.antt =====
-- What is said of the entries that are found in a bibliography.
use projectkoios_references.Prelude.{
  All, Bool, Bool-cases, Distinct, Option, Option-cases, [], any, ap, arith, drop, eq_of_==, false,
  get_elem?, inl, inr, keys, length, length-append, list_eq, list_ord, ltb, nat_eq, nat_ord,
  ne_of_==, ok, option_eq, or-eq-false, pair_eq, pair_ord, put, refl, some, some-injective, subst,
  suc, sym, take, true, ℕ, ◌++◌, ◌+◌, ◌==◌, ◌∙◌, ◌∷◌, ◌≡◌, ◌≢◌, ◌≤◌,
}
use projectkoios_references.Text.{Text, Platform, utf8_size, is_space, strip}
use projectkoios_references.Text.Size.{bounded_utf8_size, bounded_utf8_size-Counts}
use projectkoios_references.Text.Nesting.{IsNested}
use projectkoios_references.Limits.{ReferenceIoLimits}
use projectkoios_references.Biblatex.{matching_entry_end}
use projectkoios_references.Biblatex.Entries.{Entries, Header, find, slice, is_skipped}
use projectkoios_references.Biblatex.Delimiters.{counted, opening, closing}
use projectkoios_references.Biblatex.Bounds.{matching_entry_end-IsEnd}
use projectkoios_references.Biblatex.Cuts.{
  IsHeader, is_type_character, take-drop, drop-get_elem?, slice-is,
}

-- A part of a bibliography that is written as an entry of a type with a body: an `@`, the type, space, the opening
-- character, the body and the closing character. The delimiters that count in the body are nested within the
-- limit, the closing character counts, and the part is within the limit on an entry's bytes.
pub record IsSpan (p : Platform) (limits : ReferenceIoLimits) (text kind body raw : Text)
    : Type 0 where
  pub before : Text
  pub after : Text
  pub space : Text
  pub braces : Bool
  pub stands : text ≡ before ++ (raw ++ after)
  pub shape : raw ≡ b'@' ∷ (kind ++ (space ++ (opening braces ∷ (body ++ closing braces ∷ []))))
  pub named : All (λ c. is_type_character p c ≡ true) kind
  pub spaced : All (λ c. is_space c ≡ true) space
  pub most : ℕ
  pub deepest : limits.max_nesting_depth ≡ some most
  pub inner : Text
  pub is_counted :
      counted braces false false 0 (body ++ closing braces ∷ []) ≡ inner ++ closing braces ∷ []
  pub nested : IsNested (opening braces) (closing braces) most 1 inner
  pub max_text_bytes : ℕ
  pub limited : limits.max_text_bytes ≡ some max_text_bytes
  pub small : utf8_size raw ≤ max_text_bytes

-- The key of an entry is not empty, and it is what stands in the body before the first comma, without the space
-- around it; the entry's type is none of those that are skipped.
pub record IsEntry (p : Platform) (limits : ReferenceIoLimits) (text : Text) (e : Text × (ℕ × Text))
    : Type 0 where
  pub kind : Text
  pub body : Text
  pub span : IsSpan p limits text kind body e.1.1
  pub is_kept : is_skipped p (p.lower kind) ≡ false
  pub head : Text
  pub fields : Text
  pub is_body : body ≡ head ++ b',' ∷ fields
  pub is_first : All (λ c. c ≢ b',') head
  pub is_key : e.0 ≡ strip head
  pub is_named : e.0 ≢ []

-- The entries carry the numbers from `n` on.
abbrev pub IsNumbered : ℕ → Entries → Type 0
IsNumbered n [] = Unit {0}
IsNumbered n ((k, (m, raw)) ∷ d) = (m ≡ n) × IsNumbered (suc n) d

pub record IsRead (p : Platform) (limits : ReferenceIoLimits) (text : Text) (entries : Entries)
    : Type 0 where
  pub distinct : Distinct (keys entries)
  pub numbered : IsNumbered 0 entries
  pub each : All (IsEntry p limits text) entries

==_false_sym : (k j : Text) → (k == j) ≡ false → (j == k) ≡ false
==_false_sym k j h = elim (Bool-cases (j == k)) [
  | inl a ↦ absurd (ne_of_== k j h (sym (eq_of_== j k a)))
  | inr a ↦ a
]

pub put-append :
    (k : Text) (v : ℕ × Text) (d : Entries)
    → any (λ j. k == j) (keys d) ≡ false
    → put k v d ≡ d ++ (k, v) ∷ []
unfolding put
put-append k v [] h = refl
put-append k v ((j, w) ∷ d) h =
    let (here, later) = or-eq-false (k == j) (any (λ i. k == i) (keys d)) h in
    rw (==_false_sym k j here, put-append k v d later)

pub IsNumbered-append :
    (n : ℕ) (d : Entries) (k raw : Text)
    → IsNumbered n d
    → IsNumbered n (d ++ (k, (n + length d, raw)) ∷ [])
IsNumbered-append n [] k raw h = (omega arith, tt)
IsNumbered-append n ((j, (m, s)) ∷ d) k raw (here, h) = (
  here,
  subst (λ x. IsNumbered (suc n) (d ++ (k, (x, raw)) ∷ [])) (omega arith)
      (IsNumbered-append (suc n) d k raw h),
)

pub get_elem?-find : (c n : ℕ) (s : Text) → find c s ≡ some n → get_elem? s n ≡ some c
unfolding find
get_elem?-find c n [] h = cc
get_elem?-find c n (d ∷ s) h = elim (Bool-cases (d == c)) [
  | inl same ↦ zeroth (eq_of_== d c same) (cc (rw (same, find) at h))
  | inr other ↦ elim (Option-cases (find c s)) [
    | inl a ↦ absurd (cc (rw (other, a, find) at h))
    | inr (m, a) ↦ later m (get_elem?-find c m s a) (cc (rw (other, a, find) at h))
  ]
]
  where
    zeroth : d ≡ c → ◌≡◌ {A = Option ℕ} (some 0) (some n) → get_elem? (d ∷ s) n ≡ some c
    zeroth same k = subst (λ x. get_elem? (d ∷ s) x ≡ some c) (some-injective _ _ k) (ap some same)

    later :
        (m : ℕ)
        → get_elem? s m ≡ some c
        → ◌≡◌ {A = Option ℕ} (some (suc m)) (some n)
        → get_elem? (d ∷ s) n ≡ some c
    later m there k = subst (λ x. get_elem? (d ∷ s) x ≡ some c) (some-injective _ _ k) there

pub fits :
    (most : ℕ) (raw : Text) → ltb most (bounded_utf8_size most raw) ≡ false → utf8_size raw ≤ most
fits most raw h = ground (arith, bounded_utf8_size-Counts most raw)

shaped : Text → Text → ℕ → Text → ℕ → Text
shaped kind space o body c = b'@' ∷ (kind ++ (space ++ (o ∷ (body ++ c ∷ []))))

shaped-append :
    (kind space : Text) (o : ℕ) (body : Text) (c : ℕ) (rest : Text)
    → b'@' ∷ (kind ++ (space ++ (o ∷ (body ++ c ∷ rest)))) ≡ shaped kind space o body c ++ rest
unfolding shaped
shaped-append kind space o body c rest = ap (λ k. b'@' ∷ k) (in_kind kind)
  where
    in_body : (t : Text) → t ++ c ∷ rest ≡ (t ++ c ∷ []) ++ rest
    in_body [] = refl
    in_body (x ∷ t) = ap (λ k. x ∷ k) (in_body t)

    in_space : (t : Text) → t ++ (o ∷ (body ++ c ∷ rest)) ≡ (t ++ (o ∷ (body ++ c ∷ []))) ++ rest
    in_space [] = ap (λ k. o ∷ k) (in_body body)
    in_space (x ∷ t) = ap (λ k. x ∷ k) (in_space t)

    in_kind :
        (t : Text)
        → t ++ (space ++ (o ∷ (body ++ c ∷ rest)))
          ≡ (t ++ (space ++ (o ∷ (body ++ c ∷ [])))) ++ rest
    in_kind [] = in_space space
    in_kind (x ∷ t) = ap (λ k. x ∷ k) (in_kind t)

length-shaped :
    (kind space : Text) (o : ℕ) (body : Text) (c : ℕ)
    → length (shaped kind space o body c) ≡ length kind + length space + length body + 3
unfolding shaped
length-shaped kind space o body c = omega (
  arith,
  length-append kind (space ++ (o ∷ (body ++ c ∷ []))),
  length-append space (o ∷ (body ++ c ∷ [])),
  length-append body (c ∷ []),
)

module _ (p : Platform) (limits : ReferenceIoLimits) (text : Text) (marker : ℕ) (h : Header) where
  -- An entry's text and its body, as they are cut out at their positions.
  pub slices-IsSpan :
      (braces : Bool) (last most_bytes : ℕ)
      → IsHeader p text marker h
      → get_elem? text marker ≡ some b'@'
      → h.opening ≡ some (opening braces)
      → matching_entry_end text h.opening_index braces limits ≡ ok last
      → limits.max_text_bytes ≡ some most_bytes
      → utf8_size (slice marker (last + 1) text) ≤ most_bytes
      → IsSpan p limits text
          (slice (marker + 1) h.type_end text)
          (slice (h.opening_index + 1) last text)
          (slice marker (last + 1) text)
  unfolding shaped
  slices-IsSpan braces last most_bytes hd marked opened ends limited small =
      let o = opening braces in
      let c = closing braces in
      let (most, deepest, e) = matching_entry_end-IsEnd text h.opening_index braces limits ends in
      let is_body =
        slice-is (h.opening_index + 1) last text e.taken (c ∷ e.left) e.is_whole e.is_there in
      let there : drop h.opening_index text ≡ o ∷ (e.taken ++ c ∷ e.left) =
        drop-get_elem? h.opening_index o text (sym hd.is_opening ∙ opened)
        ∙ ap (λ k. o ∷ k) e.is_whole in
      let whole : drop marker text ≡ shaped hd.kind hd.space o e.taken c ++ e.left =
        drop-get_elem? marker b'@' text marked
        ∙ ap (λ k. b'@' ∷ k) (hd.is_after ∙ ap (λ k. hd.kind ++ (hd.space ++ k)) there)
        ∙ shaped-append hd.kind hd.space o e.taken c e.left in
      let long : last + 1 ≡ marker + length (shaped hd.kind hd.space o e.taken c) =
        omega (arith, hd.stands, e.is_there, length-shaped hd.kind hd.space o e.taken c) in
      let is_raw =
        slice-is marker (last + 1) text (shaped hd.kind hd.space o e.taken c) e.left whole long in
      let span : IsSpan p limits text hd.kind e.taken (slice marker (last + 1) text) = record {
        before = take marker text;
        after = e.left;
        space = hd.space;
        braces = braces;
        stands =
            take-drop marker text
            ∙ ap (λ k. take marker text ++ k) (whole ∙ ap (λ k. k ++ e.left) (sym is_raw));
        shape = is_raw;
        named = hd.named;
        spaced = hd.spaced;
        most = most;
        deepest = deepest;
        inner = e.inner;
        is_counted = e.is_counted;
        nested = e.nested;
        max_text_bytes = most_bytes;
        limited = limited;
        small = small;
      } in
      subst
        (λ k.
          IsSpan p limits text k (slice (h.opening_index + 1) last text)
            (slice marker (last + 1) text))
        (sym hd.is_kind)
        (subst (λ k. IsSpan p limits text hd.kind k (slice marker (last + 1) text)) (sym is_body)
          span)
