-- ===== src/CitationClosure.antt =====
-- The scanner of citation_closure.py (src/python/projectkoios/references): positions, spaces and comments,
-- commands, groups, and the keys of a citation. A position in a text is the pair of what is before it, the last
-- character first, and what is after it.
pub mod Keys
pub mod Positions
pub mod Groups
pub mod Ends
mod Tests
use projectkoios_references.Prelude.{
  Bool, List, Option, Result, [], any, err, false, if◌then◌else◌, keys, length, list_eq, list_ord,
  ltb, nat_eq, nat_ord, none, not, ok, option_eq, pair_eq, pair_ord, raise_if, some, suc, true,
  zero, ℕ, ◌%◌, ◌&&◌, ◌*◌, ◌+◌, ◌-◌, ◌/◌, ◌==◌, ◌>>=◌, ◌>>◌, ◌||◌, ◌∷◌,
}
use projectkoios_references.Text.{Text, Platform, codes, is_space, strip}
use projectkoios_references.Citekey.{validate_citekey}

-- The reason code of a _ParseFailure, and the limit on citations of a ReferenceIOLimitError with what was observed.
pub data ScanError : Type 0 where
  nonliteral_citekey citation_key_limit empty_citekey unsupported_wildcard invalid_citekey :
      ScanError
  citation_limit : ℕ → ScanError
  malformed_group group_depth_limit unterminated_group nonliteral_argument : ScanError
  malformed_verbatim unterminated_verbatim : ScanError
  out_of_fuel : ScanError

pub record Cursor : Type 0 where
  pub done : Text
  pub rest : Text

-- The run of backslashes that the text before a position ends with.
slashes : Text → ℕ
slashes [] = 0
slashes (c ∷ s) = let more = suc (slashes s) in if c == b'\\' then more else 0

-- `_is_escaped`
unfoldable pub is_escaped : Text → Bool
unfolding slashes
is_escaped done = slashes done % 2 == 1

-- To the next line, where a comment ends; the flag says that the position is within a comment.
unfoldable pub skip_space_from : Bool → Text → Text → Cursor
unfolding is_space is_escaped
skip_space_from inside done [] = record { done = done; rest = [] }
skip_space_from true done (c ∷ s) =
    let after = skip_space_from false (c ∷ done) s in
    let on = skip_space_from true (c ∷ done) s in if c == 10 then after else on
skip_space_from false done (c ∷ s) =
    let after = skip_space_from false (c ∷ done) s in
    let comment = skip_space_from true (c ∷ done) s in
    if is_space c
    then after
    else if c == b'%' && not (is_escaped done)
    then comment
    else record { done = done; rest = c ∷ s }

-- `_skip_space`
unfoldable pub skip_space : Cursor → Cursor
unfolding skip_space_from
skip_space p = skip_space_from false p.done p.rest

unfoldable pub keep_character :
    ℕ → Result ScanError (Text × Cursor) → Result ScanError (Text × Cursor)
keep_character c (ok (value, p)) = ok (c ∷ value, p)
keep_character c (err e) = err e

-- The loop of `_balanced_group`: the depth, whether the position is within a comment, and the position.
unfoldable pub group_from : ℕ → ℕ → ℕ → ℕ → Bool → Text → Text → Result ScanError (Text × Cursor)
unfolding is_escaped keep_character
group_from opener closer max_depth depth inside done [] = err unterminated_group
group_from opener closer max_depth depth true done (c ∷ s) =
    let after = group_from opener closer max_depth depth false (c ∷ done) s in
    let on = group_from opener closer max_depth depth true (c ∷ done) s in
    if c == 10 then after else on
group_from opener closer max_depth depth false done (c ∷ s) =
    let comment = group_from opener closer max_depth depth true (c ∷ done) s in
    let deeper = group_from opener closer max_depth (suc depth) false (c ∷ done) s in
    let shallower = group_from opener closer max_depth (depth - 1) false (c ∷ done) s in
    let same = group_from opener closer max_depth depth false (c ∷ done) s in
    if c == b'%' && not (is_escaped done)
    then comment
    else if c == opener && not (is_escaped done)
    then (if ltb max_depth (suc depth) then err group_depth_limit else keep_character c deeper)
    else if c == closer && not (is_escaped done)
    then (if depth - 1 == 0
        then ok ([], record { done = c ∷ done; rest = s })
        else keep_character c shallower)
    else keep_character c same

-- `_balanced_group`
unfoldable pub balanced_group : ℕ → ℕ → ℕ → Cursor → Result ScanError (Text × Cursor)
unfolding group_from
balanced_group opener closer max_depth p = elim p.rest [
  | [] ↦ err malformed_group
  | c ∷ s ↦
      if c == opener
      then group_from opener closer max_depth 1 false (c ∷ p.done) s
      else err malformed_group
]

abbrev has_syntax : Text → Bool
has_syntax s = any (λ c. c == b'{' || c == b'}' || c == b'\\' || c == b'%') s

-- `_literal_group`
unfoldable pub literal_group : ℕ → Cursor → Result ScanError (Text × Cursor)
unfolding balanced_group strip
literal_group max_depth p = elim p.rest [
  | [] ↦ err nonliteral_argument
  | c ∷ s ↦ do
    raise_if (not (c == b'{')) nonliteral_argument
    found ← balanced_group b'{' b'}' max_depth p
    raise_if (has_syntax found.0) nonliteral_argument
    ok (strip found.0, found.1)
]

-- The text after the delimiter, unless a line ends first.
verb_end : ℕ → Text → Text → Result ScanError Cursor
verb_end delimiter done [] = err unterminated_verbatim
verb_end delimiter done (c ∷ s) =
    let further = verb_end delimiter (c ∷ done) s in
    if c == delimiter
    then ok (record { done = c ∷ done; rest = s })
    else if c == 10
    then err unterminated_verbatim
    else further

-- `_skip_verb`
unfoldable pub skip_verb : Cursor → Result ScanError Cursor
unfolding verb_end is_space
skip_verb p = elim p.rest [
  | [] ↦ err malformed_verbatim
  | c ∷ s ↦ if is_space c then err malformed_verbatim else verb_end c (c ∷ p.done) s
]

-- `_line_column`, at a position given by the text before it
newlines : Text → ℕ
newlines [] = 0
newlines (c ∷ s) = let more = newlines s in if c == 10 then suc more else more

column : Text → ℕ
column [] = 1
column (c ∷ s) = let further = suc (column s) in if c == 10 then 1 else further

unfoldable pub line_column : Text → ℕ × ℕ
unfolding newlines column
line_column done = (newlines done + 1, column done)

-- The text to a comma, and what follows the comma where there is one.
unfoldable pub cut : Text → Text × Option Text
cut [] = ([], none)
cut (c ∷ s) = let (part, next) = cut s in if c == b',' then ([], some s) else (c ∷ part, next)

module _ (p : Platform) (command : Text) (max_keys citations_observed : ℕ) where
  -- One key, and how many citations it counts for.
  key_of : Text → ℕ → Result ScanError (Text × ℕ)
  unfolding validate_citekey
  key_of key counted =
      if key == codes "*"
      then raise_if (not (command == codes "nocite")) unsupported_wildcard >> ok (key, counted)
      else do
        let observed = citations_observed + counted + 1
        raise_if (ltb max_keys observed) (citation_limit observed)
        elim (validate_citekey p key) [ ok k ↦ ok (k, counted + 1) | err e ↦ err invalid_citekey ]

  -- The loop of `_parse_keys`, with fuel for its rounds.
  unfoldable pub keys_from : ℕ → ℕ → ℕ → Text → Result ScanError (List Text)
  unfolding cut strip key_of
  keys_from zero raw counted group = err out_of_fuel
  keys_from (suc fuel) raw counted group = do
    raise_if (ltb max_keys (raw + 1)) citation_key_limit
    raise_if (strip (cut group).0 == []) empty_citekey
    found ← key_of (strip (cut group).0) counted
    elim (cut group).1 [
      | none ↦ ok (found.0 ∷ [])
      | some later ↦ keys_from fuel (raw + 1) found.1 later >>= λ keys. ok (found.0 ∷ keys)
    ]

  -- `_parse_keys`
  unfoldable pub parse_keys : Text → Result ScanError (List Text)
  unfolding keys_from
  parse_keys group = do
    raise_if (has_syntax group) nonliteral_citekey
    keys_from (suc (length group)) 0 0 group
