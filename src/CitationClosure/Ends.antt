-- ===== src/CitationClosure/Ends.antt =====
-- The loop over the keys of a group ends.
use projectkoios_references.Prelude.{
  >>-eq-err, >>=-eq-err, Bool-cases, Option-cases, Result-cases, [], arith, err, inl, inr, length,
  list_eq, list_ord, ltb, nat_eq, nat_ord, not, option_eq, pair_eq, pair_ord, raise_if, raise_if-ne,
  suc, zero, ℕ, ◌+◌, ◌<◌, ◌==◌, ◌≡◌,
}
use projectkoios_references.Text.{Text, Platform, codes, strip}
use projectkoios_references.Citekey.{validate_citekey}
use projectkoios_references.CitationClosure.{
  citation_key_limit, empty_citekey, unsupported_wildcard, nonliteral_citekey, citation_limit,
  out_of_fuel, has_syntax, cut, key_of, keys_from, parse_keys,
}
use projectkoios_references.CitationClosure.Keys.{cut-shorter}

module _ (p : Platform) (command : Text) (max_keys citations_observed : ℕ) where
  key_of-ends :
      (key : Text) (counted : ℕ)
      → key_of p command max_keys citations_observed key counted ≡ err out_of_fuel
      → ⊥
  unfolding key_of
  key_of-ends key counted h = elim (Bool-cases (key == codes "*")) [
    | inl star ↦
        elim (>>-eq-err (raise_if (not (command == codes "nocite")) unsupported_wildcard) _
          (rw star at h)) [
            | inl raised ↦
                raise_if-ne (not (command == codes "nocite")) unsupported_wildcard raised (λ k. cc)
            | inr done ↦ cc
          ]
    | inr plain ↦
        let limit = citation_limit (citations_observed + counted + 1) in
        elim (>>-eq-err (raise_if (ltb max_keys (citations_observed + counted + 1)) limit) _
          (rw plain at h)) [
            | inl raised ↦
                raise_if-ne (ltb max_keys (citations_observed + counted + 1)) limit raised (λ k. cc)
            | inr checked ↦ elim (Result-cases (validate_citekey p key)) [
              | inl (k, accepted) ↦ cc (rw accepted at checked)
              | inr (e, refused) ↦ cc (rw refused at checked)
            ]
          ]
  ]

  keys_from-ends :
      (fuel raw counted : ℕ) (group : Text)
      → length group < fuel
      → keys_from p command max_keys citations_observed fuel raw counted group ≡ err out_of_fuel
      → ⊥
  unfolding keys_from
  keys_from-ends zero raw counted group enough h = absurd (omega arith)
  keys_from-ends (suc fuel) raw counted group enough h =
      let key = strip (cut group).0 in
      elim (>>-eq-err (raise_if (ltb max_keys (raw + 1)) citation_key_limit) _ h) [
        | inl raised ↦ raise_if-ne (ltb max_keys (raw + 1)) citation_key_limit raised (λ k. cc)
        | inr after_few ↦ elim (>>-eq-err (raise_if (key == []) empty_citekey) _ after_few) [
          | inl raised ↦ raise_if-ne (key == []) empty_citekey raised (λ k. cc)
          | inr after_filled ↦
              elim (>>=-eq-err (key_of p command max_keys citations_observed key counted) _
                after_filled) [
                  | inl raised ↦ key_of-ends key counted raised
                  | inr (found, made, rest) ↦ elim (Option-cases (cut group).1) [
                    | inl last ↦ cc (rw last at rest)
                    | inr (later, more) ↦
                        let shorter = cut-shorter group later more in
                        elim (>>=-eq-err
                          (keys_from p command max_keys citations_observed fuel (raw + 1) found.1
                            later)
                          _ (rw more at rest)) [
                            | inl raised ↦
                                keys_from-ends fuel (raw + 1) found.1 later (omega arith) raised
                            | inr (others, next, done) ↦ cc
                          ]
                  ]
                ]
        ]
      ]

  -- Reading the keys of a group ends: the fuel of the model's loop is never used up.
  pub parse_keys-ends :
      (group : Text) → parse_keys p command max_keys citations_observed group ≡ err out_of_fuel → ⊥
  unfolding parse_keys
  parse_keys-ends group h = elim (>>-eq-err (raise_if (has_syntax group) nonliteral_citekey) _ h) [
    | inl raised ↦ raise_if-ne (has_syntax group) nonliteral_citekey raised (λ k. cc)
    | inr read ↦ keys_from-ends (suc (length group)) 0 0 group (omega arith) read
  ]
