-- ===== src/CitationClosure/Keys.antt =====
-- The keys of a citation are the parts between its commas.
use projectkoios_references.Prelude.{
  >>-eq-ok, >>=-eq-ok, All, Bool-cases, List, Option, Option-cases, Result-cases, [], ap, arith,
  eq_of_==, false, inl, inr, keys, length, list_eq, list_ord, ltb, ltb-false→le, map, nat_eq,
  nat_ord, none, not, not-eq-false, ok, ok-injective, option_eq, pair_eq, pair_ord, raise_if,
  raise_if-eq-ok, refl, some, some-injective, subst, suc, sym, zero, ℕ, ◌+◌, ◌<◌, ◌==◌, ◌∙◌, ◌∷◌,
  ◌≡◌, ◌≤◌, ◌⊎◌,
}
use projectkoios_references.Text.{Text, Platform, codes, strip, split, push_front}
use projectkoios_references.Citekey.{validate_citekey}
use projectkoios_references.Citekey.Filenames.{IsCitekey, validate_citekey-IsCitekey}
use projectkoios_references.CitationClosure.{
  citation_key_limit, empty_citekey, unsupported_wildcard, nonliteral_citekey, citation_limit,
  has_syntax, cut, key_of, keys_from, parse_keys,
}

abbrev pieces : Text → Option Text → List Text
pieces part none = part ∷ []
pieces part (some later) = part ∷ split b',' later

pieces-push_front :
    (c : ℕ) (part : Text) (next : Option Text)
    → push_front c (pieces part next) ≡ pieces (c ∷ part) next
pieces-push_front c part none = refl
pieces-push_front c part (some later) = refl

-- What `cut` leaves is what `split` splits further.
cut-split : (s : Text) → split b',' s ≡ pieces (cut s).0 (cut s).1
unfolding cut split
cut-split [] = refl
cut-split (c ∷ s) = elim (Bool-cases (c == b',')) [
  | inl comma ↦ rw (comma, cut) refl
  | inr other ↦
      rw (other, cut) (ap (push_front c) (cut-split s) ∙ pieces-push_front c (cut s).0 (cut s).1)
]

pub cut-shorter : (s later : Text) → (cut s).1 ≡ some later → length later < length s
unfolding cut
cut-shorter [] later h = cc
cut-shorter (c ∷ s) later h = elim (Bool-cases (c == b',')) [
  | inl comma ↦
      let same : s ≡ later = some-injective _ _ (rw comma at h) in rw (← same) (omega arith)
  | inr other ↦ let further = cut-shorter s later (rw other at h) in omega arith
]

-- A key is the wildcard of \nocite, or a citation key that the path checks accept.
abbrev pub IsKey : Platform → Text → Text → Type 0
IsKey p command k = ((k ≡ codes "*") × (command ≡ codes "nocite")) ⊎ IsCitekey p k

module _ (p : Platform) (command : Text) (max_keys citations_observed : ℕ) where
  key_of-IsKey :
      (key : Text) (counted : ℕ) {found : Text × ℕ}
      → key_of p command max_keys citations_observed key counted ≡ ok found
      → (found.0 ≡ key) × IsKey p command key
  unfolding key_of
  key_of-IsKey key counted {found} h = elim (Bool-cases (key == codes "*")) [
    | inl star ↦
        let (allowed, done) =
          >>-eq-ok (raise_if (not (command == codes "nocite")) unsupported_wildcard) _
            (rw star at h) in
        (
          ap (λ q. q.0) (sym (ok-injective done)),
          inl (
            eq_of_== key (codes "*") star,
            eq_of_== command (codes "nocite")
                (not-eq-false _ (raise_if-eq-ok _ unsupported_wildcard allowed)),
          ),
        )
    | inr plain ↦
        let (few, checked) =
          >>-eq-ok
            (raise_if (ltb max_keys (citations_observed + counted + 1))
              (citation_limit (citations_observed + counted + 1)))
            _ (rw plain at h) in
        elim (Result-cases (validate_citekey p key)) [
          | inl (k, accepted) ↦
              let (same, valid) = validate_citekey-IsCitekey p key accepted in
              let e : found ≡ (k, counted + 1) = sym (ok-injective (rw accepted at checked)) in
              (ap (λ q. q.0) e ∙ sym same, inr valid)
          | inr (e, refused) ↦ cc (rw refused at checked)
        ]
  ]

  -- What the loop has found of the rest of a group.
  abbrev AreKeys : ℕ → Text → List Text → Type 0
  AreKeys raw group keys =
      (keys ≡ map strip (split b',' group))
      × All (IsKey p command) keys
      × (raw + length keys ≤ max_keys)

  keys_from-AreKeys :
      (fuel raw counted : ℕ) (group : Text) {keys : List Text}
      → keys_from p command max_keys citations_observed fuel raw counted group ≡ ok keys
      → AreKeys raw group keys
  unfolding keys_from
  keys_from-AreKeys zero raw counted group h = cc
  keys_from-AreKeys (suc fuel) raw counted group {keys} h =
      let key = strip (cut group).0 in
      let (few, after_few) = >>-eq-ok (raise_if (ltb max_keys (raw + 1)) citation_key_limit) _ h in
      let (filled, after_filled) = >>-eq-ok (raise_if (key == []) empty_citekey) _ after_few in
      let (found, made, rest) =
        >>=-eq-ok (key_of p command max_keys citations_observed key counted) _ after_filled in
      let (same, valid) = key_of-IsKey key counted made in
      let bound = ltb-false→le max_keys (raw + 1) (raise_if-eq-ok _ citation_key_limit few) in
      elim (Option-cases (cut group).1) [
        | inl last ↦
            let e : keys ≡ key ∷ [] =
              sym (ok-injective (rw last at rest)) ∙ ap (λ t. t ∷ []) same in
            (
              e ∙ sym (ap (map strip) (cut-split group ∙ ap (pieces (cut group).0) last)),
              subst (All (IsKey p command)) (sym e) (valid, tt),
              subst (λ ks. raw + length ks ≤ max_keys) (sym e) (omega arith),
            )
        | inr (later, more) ↦
            let (others, next, done) =
              >>=-eq-ok
                (keys_from p command max_keys citations_observed fuel (raw + 1) found.1 later) _
                (rw more at rest) in
            let (split_later, all_valid, bounded) =
              keys_from-AreKeys fuel (raw + 1) found.1 later next in
            let e : keys ≡ key ∷ others = sym (ok-injective done) ∙ ap (λ t. t ∷ others) same in
            (
              e
                  ∙ ap (λ t. key ∷ t) split_later
                  ∙ sym (ap (map strip) (cut-split group ∙ ap (pieces (cut group).0) more)),
              subst (All (IsKey p command)) (sym e) (valid, all_valid),
              subst (λ ks. raw + length ks ≤ max_keys) (sym e) (omega arith),
            )
      ]

  -- The keys that are read of a literal group are its parts between commas, each without the space around it;
  -- each is a citation key that the path checks accept, or the wildcard of nocite, and there are no more than
  -- the limit.
  pub parse_keys-AreKeys :
      (group : Text) {keys : List Text}
      → parse_keys p command max_keys citations_observed group ≡ ok keys
      → (has_syntax group ≡ false)
        × (keys ≡ map strip (split b',' group))
        × All (IsKey p command) keys
        × (length keys ≤ max_keys)
  unfolding parse_keys
  parse_keys-AreKeys group h =
      let (literal, read) = >>-eq-ok (raise_if (has_syntax group) nonliteral_citekey) _ h in
      let (same, valid, bounded) = keys_from-AreKeys (suc (length group)) 0 0 group read in
      (raise_if-eq-ok _ nonliteral_citekey literal, same, valid, omega arith)
