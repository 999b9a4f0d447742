-- ===== src/Biblatex/Reads.antt =====
-- What the entries that are found in a bibliography are.
use projectkoios_references.Prelude.{
  >>-eq-ok, >>=-eq-ok, All, All-append, Bool, Bool-cases, Distinct-put, Option, Option-cases, [],
  any, ap, arith, drop, eq_of_==, false, get_elem?, inl, inr, keys, length, length-append, list_eq,
  list_ord, ltb, nat_eq, nat_ord, ne_of_==, ok, ok-injective, option_eq, pair_eq, pair_ord, put,
  raise_if, raise_if-eq-ok, refl, some, subst, suc, sym, take, true, zero, ℕ, ◌++◌, ◌+◌, ◌==◌,
  ◌>>=◌, ◌∙◌, ◌∷◌, ◌≡◌, ◌≢◌,
}
use projectkoios_references.Text.{Text, codes, Platform, strip}
use projectkoios_references.Limits.{ReferenceIoLimits}
use projectkoios_references.Biblatex.{
  BibliographyError, empty_citekey, duplicate_citekey, limit_exceeded, required_limit,
}
use projectkoios_references.Biblatex.Entries.{
  Entries, Import, Header, find, slice, header_at, is_skipped, terminator, add_entry, keep_entry,
  read_entry, round_at, entries_from, verbatim_entries,
}
use projectkoios_references.Biblatex.Bounds.{get_elem?-drop}
use projectkoios_references.Biblatex.Advances.{if_cases, read_entry-HasRead}
use projectkoios_references.Biblatex.Spans.{
  IsSpan, IsEntry, IsNumbered, IsRead, put-append, IsNumbered-append, get_elem?-find, fits,
  slices-IsSpan,
}
use projectkoios_references.Biblatex.Delimiters.{opening}
use projectkoios_references.Biblatex.Cuts.{IsHeader, header_at-IsHeader, find-Cut}

module _ (p : Platform) where
  -- The state of the loop.
  record IsLoop (limits : ReferenceIoLimits) (text : Text) (i : Import) : Type 0 where
    read : IsRead p limits text i.entries
    counted : i.entry_index ≡ length i.entries

  -- What adding an entry has done.
  record HasAdded (body raw : Text) (i j : Import) : Type 0 where
    key : Text
    comma : ℕ
    is_found : find b',' body ≡ some comma
    is_key : key ≡ strip (take comma body)
    named : key ≢ []
    fresh : any (λ k. key == k) (keys i.entries) ≡ false
    entries : j.entries ≡ put key (i.entry_index, raw) i.entries
    counted : j.entry_index ≡ i.entry_index + 1

  terminator-some : (kind : Text) (o : Option ℕ) (n : ℕ) → terminator p kind o ≡ ok n → o ≡ some n
  terminator-some kind o n h = ground arith

  add_entry-HasAdded :
      (limits : ReferenceIoLimits) (kind body raw : Text) (i : Import) {j : Import}
      → add_entry p limits kind body raw i ≡ ok j
      → HasAdded body raw i j
  unfolding add_entry
  add_entry-HasAdded limits kind body raw i {j} h =
      let (comma, cut, h1) = >>=-eq-ok (terminator p kind (find b',' body)) _ h in
      let key = strip (take comma body) in
      let (named, h2) = >>-eq-ok (raise_if (key == []) empty_citekey) _ h1 in
      let (fresh, h3) =
        >>-eq-ok (raise_if (any (λ k. key == k) (keys i.entries)) (duplicate_citekey key)) _ h2 in
      let (most, _, h4) =
        >>=-eq-ok (required_limit limits.max_entries (codes "max_entries")) _ h3 in
      let (_, last) =
        >>-eq-ok
          (raise_if (ltb most (i.entry_index + 1))
            (limit_exceeded (codes "max_entries") (i.entry_index + 1)))
          _ h4 in
      let made = ok-injective last in
      record {
        key = key;
        comma = comma;
        is_found = terminator-some kind (find b',' body) comma cut;
        is_key = refl;
        named = ne_of_== key [] (raise_if-eq-ok (key == []) empty_citekey named);
        fresh = raise_if-eq-ok (any (λ k. key == k) (keys i.entries)) (duplicate_citekey key) fresh;
        entries = ap (λ (x : Import). x.entries) (sym made);
        counted = ap (λ (x : Import). x.entry_index) (sym made);
      }

  longer :
      {n m : ℕ} {e : Entries} (v : ℕ × Text) (k : Text) (d : Entries)
      → n ≡ length d
      → m ≡ n + 1
      → e ≡ d ++ (k, v) ∷ []
      → m ≡ length e
  longer {m = m} v k d a b c =
      subst (λ x. m ≡ length x) (sym c) (omega (arith, a, b, length-append d ((k, v) ∷ [])))

  added-IsLoop :
      (limits : ReferenceIoLimits) (text kind body raw : Text) (i j : Import)
      → IsLoop limits text i
      → IsSpan p limits text kind body raw
      → is_skipped p (p.lower kind) ≡ false
      → HasAdded body raw i j
      → IsLoop limits text j
  added-IsLoop limits text kind body raw i j l span is_kept h =
      let r = find-Cut b',' h.comma body h.is_found in
      let here : IsEntry p limits text (h.key, (i.entry_index, raw)) = record {
        kind = kind;
        body = body;
        span = span;
        is_kept = is_kept;
        head = r.ahead;
        fields = r.after;
        is_body = r.is_whole;
        is_first = r.is_first;
        is_key = h.is_key ∙ ap strip r.is_ahead;
        is_named = h.named;
      } in
      let grown = put-append h.key (i.entry_index, raw) i.entries h.fresh in
      let numbers =
        subst (λ x. IsNumbered 0 (i.entries ++ (h.key, (x, raw)) ∷ [])) (omega (arith, l.counted))
          (IsNumbered-append 0 i.entries h.key raw l.read.numbered) in
      record {
        read = subst (IsRead p limits text) (sym h.entries) (record {
          distinct = Distinct-put h.key (i.entry_index, raw) i.entries l.read.distinct;
          numbered = subst (IsNumbered 0) (sym grown) numbers;
          each =
              subst (All (IsEntry p limits text)) (sym grown)
                (All-append _ i.entries _ l.read.each (here, tt));
        });
        counted =
            longer (i.entry_index, raw) h.key i.entries l.counted h.counted (h.entries ∙ grown);
      }

  keep_entry-IsLoop :
      (limits : ReferenceIoLimits) (text kind body raw : Text) (i j : Import)
      → IsLoop limits text i
      → IsSpan p limits text kind body raw
      → keep_entry p limits (p.lower kind) body raw i ≡ ok j
      → IsLoop limits text j
  unfolding keep_entry
  keep_entry-IsLoop limits text kind body raw i j l span h =
      elim (Bool-cases (is_skipped p (p.lower kind))) [
        | inl a ↦
            subst (IsLoop limits text)
              (ok-injective {E = BibliographyError} {a = i} {b = j} (cc (rw (a, keep_entry) at h)))
              l
        | inr a ↦
            added-IsLoop limits text kind body raw i j l span a
              (add_entry-HasAdded limits (p.lower kind) body raw i (cc (rw (a, keep_entry) at h)))
      ]

  read_entry-IsLoop :
      (limits : ReferenceIoLimits) (text : Text) (marker : ℕ) (h : Header) (braces : Bool)
      (i j : Import)
      → IsHeader p text marker h
      → h.opening ≡ some (opening braces)
      → get_elem? text marker ≡ some b'@'
      → IsLoop limits text i
      → read_entry p limits text marker h braces i ≡ ok j
      → IsLoop limits text j
  read_entry-IsLoop limits text marker h braces i j header opened marked l done =
      let r = read_entry-HasRead p limits text marker h braces i done in
      let raw = slice marker (r.closing_index + 1) text in
      keep_entry-IsLoop limits text (slice (marker + 1) h.type_end text)
        (slice (h.opening_index + 1) r.closing_index text) raw
        (record i { cursor = r.closing_index + 1 }) j
        (record { read = l.read; counted = l.counted })
        (slices-IsSpan p limits text marker h braces r.closing_index r.max_text_bytes header marked
          opened r.ends r.limited (fits r.max_text_bytes raw r.size))
        r.kept

  round_at-IsLoop :
      (limits : ReferenceIoLimits) (text : Text) (marker : ℕ) (i j : Import)
      → get_elem? text marker ≡ some b'@'
      → IsLoop limits text i
      → round_at p limits text marker i ≡ ok j
      → IsLoop limits text j
  unfolding round_at
  round_at-IsLoop limits text marker i j marked l done =
      let h = header_at p text marker in
      let header = header_at-IsHeader p text marker in
      elim (if_cases (h.opening == some b'{') (h.opening == some b'(') _ _ _ (ok j) done) [
        | inl (e, a) ↦
            read_entry-IsLoop limits text marker h true i j header
              (eq_of_== h.opening (some b'{') e) marked l a
        | inr (inl (e, a)) ↦
            read_entry-IsLoop limits text marker h false i j header
              (eq_of_== h.opening (some b'(') e) marked l a
        | inr (inr a) ↦
            subst (IsLoop limits text) (ok-injective a)
              (record { read = l.read; counted = l.counted })
      ]

  entries_from-IsRead :
      (fuel : ℕ) (limits : ReferenceIoLimits) (text : Text) (i : Import) (entries : Entries)
      → IsLoop limits text i
      → entries_from p fuel limits text i ≡ ok entries
      → IsRead p limits text entries
  unfolding entries_from
  entries_from-IsRead zero limits text i entries l h = cc
  entries_from-IsRead (suc fuel) limits text i entries l h =
      elim (Option-cases (find b'@' (drop i.cursor text))) [
        | inl a ↦
            subst (IsRead p limits text)
              (ok-injective {E = BibliographyError} {a = i.entries} {b = entries}
                (cc (rw (a, entries_from) at h)))
              l.read
        | inr (offset, a) ↦
            let marker = i.cursor + offset in
            let h' : (round_at p limits text marker i >>= λ j. entries_from p fuel limits text j)
                ≡ ok entries =
              cc (rw (a, entries_from) at h) in
            let (j, here, rest) = >>=-eq-ok (round_at p limits text marker i) _ h' in
            let marked =
              sym (get_elem?-drop i.cursor offset text)
              ∙ get_elem?-find b'@' offset (drop i.cursor text) a in
            entries_from-IsRead fuel limits text j entries
              (round_at-IsLoop limits text marker i j marked l here) rest
      ]

  -- The entries found in a bibliography have distinct keys; they are numbered from 0 in their order. The text of
  -- each is a part of the bibliography that is an `@`, the entry's type, space, an opening brace or parenthesis, a
  -- body and the closing character that matches, within the limits on an entry's bytes and nesting; the type is not
  -- one of those that are skipped; and the key, which is not empty, is what stands in the body before the first
  -- comma, without the space around it.
  pub verbatim_entries-IsRead :
      (limits : ReferenceIoLimits) (text : Text) (entries : Entries)
      → verbatim_entries p limits text ≡ ok entries
      → IsRead p limits text entries
  unfolding verbatim_entries
  verbatim_entries-IsRead limits text entries h =
      entries_from-IsRead (suc (length text)) limits text
        (record { entries = []; cursor = 0; entry_index = 0 }) entries
        (record { read = record { distinct = tt; numbered = tt; each = tt }; counted = refl }) h
