-- ===== src/Biblatex/Advances.antt =====
-- Every round of the loop over the entries moves the cursor on.
use projectkoios_references.Prelude.{
  >>-eq-ok, >>=-eq-ok, Bool, Bool-cases, Option, Option-cases, Result, [], ap, arith, drop, false,
  if◌then◌else◌, inl, inr, length, list_eq, list_ord, ltb, nat_eq, nat_ord, ok, ok-injective,
  option_eq, pair_eq, pair_ord, raise_if, raise_if-eq-ok, refl, some, some-injective, suc, true,
  zero, ℕ, ◌+◌, ◌-◌, ◌<◌, ◌==◌, ◌∷◌, ◌≡◌, ◌≤◌, ◌⊎◌,
}
use projectkoios_references.Text.{Text, codes, Platform}
use projectkoios_references.Text.Size.{bounded_utf8_size}
use projectkoios_references.Limits.{ReferenceIoLimits}
use projectkoios_references.Biblatex.{limit_exceeded, required_limit, matching_entry_end}
use projectkoios_references.Biblatex.Bounds.{matching_entry_end-within}
use projectkoios_references.Biblatex.Entries.{
  Import, Header, find, slice, header_at, entry_type, add_entry, keep_entry, read_entry, round_at,
}

pub find-lt : (c n : ℕ) (s : Text) → find c s ≡ some n → n < length s
unfolding find
find-lt c n [] h = cc
find-lt c n (d ∷ s) h = elim (Bool-cases (d == c)) [
  | inl same ↦ first (cc (rw same at h))
  | inr other ↦ elim (Option-cases (find c s)) [
    | inl a ↦ absurd (cc (rw (other, a) at h))
    | inr (m, a) ↦ omega (arith, find-lt c m s a, shifted m (cc (rw (other, a) at h)))
  ]
]
  where
    first : ◌≡◌ {A = Option ℕ} (some 0) (some n) → n < suc (length s)
    first k = omega (arith, some-injective _ _ k)

    shifted : (m : ℕ) → ◌≡◌ {A = Option ℕ} (some (suc m)) (some n) → suc m ≡ n
    shifted m k = some-injective _ _ k

pub length-drop : (n : ℕ) (s : Text) → length (drop n s) ≡ length s - n
length-drop zero s = omega arith
length-drop (suc n) [] = omega arith
length-drop (suc n) (c ∷ s) = omega (arith, length-drop n s)

pub if_cases :
    {E A : Type 0} (b c : Bool) (x y z r : Result E A)
    → (if b then x else if c then y else z) ≡ r
    → ((b ≡ true) × (x ≡ r)) ⊎ (((c ≡ true) × (y ≡ r)) ⊎ (z ≡ r))
if_cases true c x y z r h = inl (refl, h)
if_cases false true x y z r h = inr (inl (refl, h))
if_cases false false x y z r h = inr (inr h)

module _ (p : Platform) where
  -- The entry's key and place leave the cursor alone.
  add_entry-cursor :
      (limits : ReferenceIoLimits) (kind body raw : Text) (i : Import) {j : Import}
      → add_entry p limits kind body raw i ≡ ok j
      → j.cursor ≡ i.cursor
  unfolding add_entry required_limit
  add_entry-cursor limits kind body raw i h = ground arith

  keep_entry-cursor :
      (limits : ReferenceIoLimits) (kind body raw : Text) (i : Import) {j : Import}
      → keep_entry p limits kind body raw i ≡ ok j
      → j.cursor ≡ i.cursor
  unfolding keep_entry
  keep_entry-cursor limits kind body raw i h =
      ground (arith, add_entry-cursor limits kind body raw i)

  -- What a round that reads an entry has found.
  pub record HasRead (limits : ReferenceIoLimits) (text : Text) (marker : ℕ) (h : Header)
      (braces : Bool) (i j : Import) : Type 0 where
    pub closing_index : ℕ
    pub ends : matching_entry_end text h.opening_index braces limits ≡ ok closing_index
    pub max_text_bytes : ℕ
    pub after : h.opening_index < closing_index
    pub within : closing_index < length text
    pub limited : limits.max_text_bytes ≡ some max_text_bytes
    pub size :
        ltb max_text_bytes
          (bounded_utf8_size max_text_bytes (slice marker (closing_index + 1) text))
        ≡ false
    pub kept :
        keep_entry p limits
          (entry_type p text marker h)
          (slice (h.opening_index + 1) closing_index text)
          (slice marker (closing_index + 1) text)
          (record i { cursor = closing_index + 1 })
        ≡ ok j

  required_limit-some :
      (o : Option ℕ) (name : Text) (n : ℕ) → required_limit o name ≡ ok n → o ≡ some n
  unfolding required_limit
  required_limit-some o name n h = ground arith

  pub read_entry-HasRead :
      (limits : ReferenceIoLimits) (text : Text) (marker : ℕ) (h : Header) (braces : Bool)
      (i : Import) {j : Import}
      → read_entry p limits text marker h braces i ≡ ok j
      → HasRead limits text marker h braces i j
  unfolding read_entry
  read_entry-HasRead limits text marker h braces i {j} done =
      let (closing_index, ends, rest) =
        >>=-eq-ok (matching_entry_end text h.opening_index braces limits) _ done in
      let (most, defined, rest1) =
        >>=-eq-ok (required_limit limits.max_text_bytes (codes "max_text_bytes")) _ rest in
      let bytes = bounded_utf8_size most (slice marker (closing_index + 1) text) in
      let (small, last) =
        >>-eq-ok (raise_if (ltb most bytes) (limit_exceeded (codes "max_text_bytes") bytes)) _
          rest1 in
      let (a, b) = matching_entry_end-within text h.opening_index braces limits ends in
      record {
        closing_index = closing_index;
        ends = ends;
        max_text_bytes = most;
        after = a;
        within = b;
        limited = required_limit-some limits.max_text_bytes (codes "max_text_bytes") most defined;
        size = raise_if-eq-ok (ltb most bytes) _ small;
        kept = last;
      }

  -- A round that goes on moves the cursor past the marker, and not past the text.
  abbrev pub Advances : Text → ℕ → Import → Type 0
  Advances text marker j = (marker < j.cursor) × (j.cursor ≤ length text)

  read_entry-Advances :
      (limits : ReferenceIoLimits) (text : Text) (marker : ℕ) (h : Header) (braces : Bool)
      (i : Import) {j : Import}
      → marker < h.opening_index
      → read_entry p limits text marker h braces i ≡ ok j
      → Advances text marker j
  read_entry-Advances limits text marker h braces i {j} later done =
      let r = read_entry-HasRead limits text marker h braces i done in
      let moved = keep_entry-cursor limits _ _ _ _ r.kept in
      (omega (arith, r.after, moved), omega (arith, r.within, moved))

  header_at-opening : (text : Text) (marker : ℕ) → marker < (header_at p text marker).opening_index
  unfolding header_at
  header_at-opening text marker = omega arith

  pub round_at-Advances :
      (limits : ReferenceIoLimits) (text : Text) (marker : ℕ) (i : Import) {j : Import}
      → marker < length text
      → round_at p limits text marker i ≡ ok j
      → Advances text marker j
  unfolding round_at
  round_at-Advances limits text marker i {j} here done =
      let h = header_at p text marker in
      elim (if_cases (h.opening == some b'{') (h.opening == some b'(') _ _ _ (ok j) done) [
        | inl (_, a) ↦
            read_entry-Advances limits text marker h true i {j = j} (header_at-opening text marker)
              a
        | inr (inl (_, a)) ↦
            read_entry-Advances limits text marker h false i {j = j} (header_at-opening text marker)
              a
        | inr (inr a) ↦ moved (ap (λ (k : Import). k.cursor) (ok-injective a))
      ]
    where
      moved : marker + 1 ≡ j.cursor → Advances text marker j
      moved m = (omega (arith, m), omega (arith, m))
