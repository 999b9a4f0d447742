-- ===== src/Json.antt =====
-- The JSON values that identities are computed from, and `json.dumps` with `ensure_ascii=False`,
-- `separators=(",", ":")` and `sort_keys=True`, which `_compact_json` calls.
use projectkoios_references.Prelude.{
  Bool, List, Option, [], false, if◌then◌else◌, less, list_eq, list_ord, ltb, map, nat_eq, nat_ord,
  none, option_eq, refl, reverse, some, suc, true, zero, ℕ, ◌%◌, ◌++◌, ◌+◌, ◌/◌, ◌==◌, ◌∷◌, ◌≡◌,
}
use projectkoios_references.Text.{Text, codes, Platform}

mutual
  pub data Json : Type 0 where
    null : Json
    boolean : Bool → Json
    num : ℕ → Json
    -- the integer below 0 with this absolute value
    negative : ℕ → Json
    -- a float, by the text of float.__repr__
    real : Text → Json
    str : Text → Json
    arr : Items → Json
    obj : Fields → Json

  pub data Items : Type 0 where
    nil : Items
    cons : Json → Items → Items

  pub data Fields : Type 0 where
    end : Fields
    field : Text → Json → Fields → Fields

-- Decimal digits, the last one first; the fuel bounds their number.
digits_reversed : ℕ → ℕ → Text
digits_reversed zero n = []
digits_reversed (suc fuel) n = elim (ltb n 10) [
  | true ↦ (n + 48) ∷ []
  | false ↦ (n % 10 + 48) ∷ digits_reversed fuel (n / 10)
]

unfoldable pub show_nat : ℕ → Text
unfolding digits_reversed
show_nat n = reverse (digits_reversed (suc n) n)

hex_digit : ℕ → ℕ
hex_digit n = if ltb n 10 then n + 48 else n + 87

-- One character of a JSON string.
escape : ℕ → Text
unfolding hex_digit
escape c =
    if c == b'"'
    then codes "\\\""
    else if c == b'\\'
    then codes "\\\\"
    else if c == 10
    then codes "\\n"
    else if c == 13
    then codes "\\r"
    else if c == 9
    then codes "\\t"
    else if c == 12
    then codes "\\f"
    else if c == 8
    then codes "\\b"
    else if ltb c 32
    then codes "\\u00" ++ (hex_digit (c / 16) ∷ hex_digit (c % 16) ∷ [])
    else c ∷ []

escape_all : Text → Text
unfolding escape
escape_all [] = []
escape_all (c ∷ s) = escape c ++ escape_all s

unfoldable pub quote : Text → Text
unfolding escape_all
quote s = b'"' ∷ (escape_all s ++ (b'"' ∷ []))

-- sep.join(parts)
unfoldable pub join : Text → List Text → Text
join sep [] = []
join sep (s ∷ []) = s
join sep (s ∷ t ∷ rest) = s ++ (sep ++ join sep (t ∷ rest))

insert_pair : Text × Text → List (Text × Text) → List (Text × Text)
insert_pair x [] = x ∷ []
insert_pair x (y ∷ ys) =
    let rest = y ∷ insert_pair x ys in if less y.0 x.0 then rest else x ∷ y ∷ ys

-- Members by key, for `sort_keys`.
unfoldable pub sort_pairs : List (Text × Text) → List (Text × Text)
unfolding insert_pair
sort_pairs [] = []
sort_pairs (x ∷ xs) = insert_pair x (sort_pairs xs)

member : Text × Text → Text
unfolding quote
member p = quote p.0 ++ (b':' ∷ p.1)

unfoldable mutual
  unfolding show_nat quote join sort_pairs member

  pub compact_json : Json → Text
  compact_json null = codes "null"
  compact_json (boolean b) = if b then codes "true" else codes "false"
  compact_json (num n) = show_nat n
  compact_json (negative n) = b'-' ∷ show_nat n
  compact_json (real s) = s
  compact_json (str s) = quote s
  compact_json (arr xs) = b'[' ∷ (join (codes ",") (compact_items xs) ++ codes "]")
  compact_json (obj fs) =
      b'{' ∷ (join (codes ",") (map member (sort_pairs (compact_fields fs))) ++ codes "}")

  pub compact_items : Items → List Text
  compact_items nil = []
  compact_items (cons x xs) = compact_json x ∷ compact_items xs

  pub compact_fields : Fields → List (Text × Text)
  compact_fields end = []
  compact_fields (field k v fs) = (k, compact_json v) ∷ compact_fields fs

-- f"{kind}:sha256:{digest}" with the digest of the compact text
unfoldable pub stable_id : Platform → Text → Json → Text
unfolding compact_json
stable_id p kind value = kind ++ (codes ":sha256:" ++ p.sha256_hex (compact_json value))

-- [item, ...] for a tuple of texts
abbrev pub texts : List Text → Items
texts [] = nil
texts (s ∷ ss) = cons (str s) (texts ss)

-- None or a text
abbrev pub optional : Option Text → Json
optional none = null
optional (some s) = str s

-- None or an integer
abbrev pub optional_num : Option ℕ → Json
optional_num none = null
optional_num (some n) = num n

compact_json_test :
    compact_json (
      obj (
        field
          (codes "b")
          (arr (cons (num 120) (cons null nil)))
          (field (codes "a") (str (codes "x\"y")) end)))
    ≡ codes "{\"a\":\"x\\\"y\",\"b\":[120,null]}"
unfolding compact_json
compact_json_test = refl
