-- ===== src/Citekey/Filenames.antt =====
-- Filenames derived from a citation key are portable path segments.
use projectkoios_references.Prelude.{
  >>=-eq-ok, Bool, [], any, arith, false, length, list_eq, list_ord, ltb, nat_eq, nat_ord, not, ok,
  ok-injective, option_eq, or-eq-false, or_eq_false, refl, true, ℕ, ◌++◌, ◌==◌, ◌||◌, ◌∷◌, ◌≡◌,
}
use projectkoios_references.Text.{Text, codes, Platform, ends_with, before}
use projectkoios_references.Citekey.{
  is_reserved, citekey_ascii, portable_forbidden, starts_with_letter, is_empty, validate_citekey,
  validate_segment, ReferenceFilenames, from_citekey,
}

any-append : (q : ℕ → Bool) (s t : Text) → any q (s ++ t) ≡ (any q s || any q t)
any-append q [] t = refl
any-append q (c ∷ s) t = ground (arith, any-append q s t)

before-append : (sep : ℕ) (s t : Text) → before sep (s ++ sep ∷ t) ≡ before sep s
unfolding before
before-append sep [] t = ground arith
before-append sep (c ∷ s) t = ground (arith, before-append sep s t)

ends_with-append : (k c d : ℕ) (s t : Text) → ends_with (s ++ c ∷ d ∷ t) k ≡ ends_with (d ∷ t) k
ends_with-append k c d [] t = refl
ends_with-append k c d (e ∷ []) t = refl
ends_with-append k c d (e ∷ f ∷ s) t = ends_with-append k c d (f ∷ s) t

allowed-portable :
    (c : ℕ) → not (citekey_ascii c) ≡ false → (ltb c 32 || portable_forbidden c) ≡ false
allowed-portable c h = ground arith

any-portable :
    (s : Text)
    → any (λ c. not (citekey_ascii c)) s ≡ false
    → any (λ c. ltb c 32 || portable_forbidden c) s ≡ false
any-portable [] h = refl
any-portable (c ∷ s) h =
    let (here, later) = or-eq-false (not (citekey_ascii c)) _ h in
    or_eq_false _ _ (allowed-portable c here) (any-portable s later)

not_dots :
    (s t : Text)
    → starts_with_letter s ≡ true
    → (is_empty (s ++ t) || (s ++ t) == codes "." || (s ++ t) == codes "..") ≡ false
not_dots [] t h = cc
not_dots (c ∷ s) t h = ground arith

-- What `validate_citekey` has checked of a key that it returns.
pub record IsCitekey (p : Platform) (s : Text) : Type 0 where
  pub normalized : (s == p.nfc s) ≡ true
  pub bounded : ltb 200 (length s) ≡ false
  pub letter : starts_with_letter s ≡ true
  pub characters : any (λ c. not (citekey_ascii c)) s ≡ false
  pub ending : ends_with s b'.' ≡ false
  pub stem : is_reserved (p.upper (before b'.' s)) ≡ false

pub validate_citekey-IsCitekey :
    (p : Platform) (s : Text) {v : Text} → validate_citekey p s ≡ ok v → (s ≡ v) × IsCitekey p s
unfolding validate_citekey
validate_citekey-IsCitekey p s h = ground arith

suffix_portable :
    (p : Platform) (s : Text) (d : ℕ) (t : Text)
    → IsCitekey p s
    → any (λ c. ltb c 32 || portable_forbidden c) (b'.' ∷ d ∷ t) ≡ false
    → (ends_with (d ∷ t) b' ' || ends_with (d ∷ t) b'.') ≡ false
    → validate_segment p (s ++ b'.' ∷ d ∷ t) ≡ ok tt
unfolding validate_segment
suffix_portable p s d t h portable ending = rw (
  not_dots s (b'.' ∷ d ∷ t) h.letter,
  ends_with-append b' ' b'.' d s t,
  ends_with-append b'.' b'.' d s t,
  ending,
  any-append _ s (b'.' ∷ d ∷ t),
  any-portable s h.characters,
  portable,
  before-append b'.' s (d ∷ t),
  h.stem,
)

-- The filenames made from an accepted citation key keep the key, and the note's and the PDF's name
-- are each a portable path segment.
pub from_citekey_portable :
    (p : Platform) (k : Text) {r : ReferenceFilenames}
    → from_citekey p k ≡ ok r
    → (r.citekey ≡ k) × (validate_segment p r.note ≡ ok tt) × (validate_segment p r.pdf ≡ ok tt)
unfolding from_citekey
from_citekey_portable p k h =
    let (safe, accepted, made) = >>=-eq-ok (validate_citekey p k) _ h in
    let (same, valid) = validate_citekey-IsCitekey p k accepted in
    rw (← ok-injective made, ← same)
      (
        refl,
        suffix_portable p k b'm' (b'd' ∷ []) valid refl refl,
        suffix_portable p k b'p' (b'd' ∷ b'f' ∷ []) valid refl refl,
      )
