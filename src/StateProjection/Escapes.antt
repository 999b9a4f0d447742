-- ===== src/StateProjection/Escapes.antt =====
-- What the view writes can be read back, and holds no value of a field with a discrepancy.
use projectkoios_references.Prelude.{
  >>-eq-ok, >>=-eq-ok, Bool, Bool-cases, Dict, In, List, Option-cases, [], any, ap, append_assoc,
  arith, eq_of_==, false, get, get-put, if◌then◌else◌, inl, inr, list_eq, list_ord, nat_eq, nat_ord,
  ok, ok-injective, option_eq, pair_eq, pair_ord, put, raise_if, refl, some, some-injective, subst,
  sym, true, ℕ, ◌++◌, ◌==◌, ◌||◌, ◌∙◌, ◌∷◌, ◌≡◌, ◌⊎◌,
}
use projectkoios_references.Text.{Text}
use projectkoios_references.Json.{Json}
use projectkoios_references.StateProjection.{ProjectedField, unsafe_bib_value}
use projectkoios_references.StateProjection.Values.{
  JsonReader, max_value_bytes, parse_canonical_value,
}
use projectkoios_references.StateProjection.View.{
  replace, bib_replaced, bib_escape, is_discrepant, sole_value, view_values,
}

-- Takes the backslash from each escaped character.
abbrev pub unescape : Text → Text
unescape [] = []
unescape (c ∷ []) = c ∷ []
unescape (c ∷ d ∷ s) =
    let skipped = d ∷ unescape s in
    let kept = c ∷ unescape (d ∷ s) in if c == b'\\' then skipped else kept

-- A brace that no backslash precedes, which would open or close a group.
abbrev pub has_bare_brace : Text → Bool
has_bare_brace [] = false
has_bare_brace (c ∷ []) = c == b'{' || c == b'}'
has_bare_brace (c ∷ d ∷ s) =
    let after = has_bare_brace s in
    let rest = has_bare_brace (d ∷ s) in
    if c == b'\\' then after else c == b'{' || c == b'}' || rest

-- What one character becomes.
abbrev escaped : ℕ → Text
escaped c = if c == b'\\' || c == b'{' || c == b'}' then b'\\' ∷ c ∷ [] else c ∷ []

replace-append :
    (c : ℕ) (new s t : Text) → replace c new (s ++ t) ≡ replace c new s ++ replace c new t
unfolding replace
replace-append c new [] t = refl
replace-append c new (d ∷ s) t =
    rw (replace-append c new s t)
      (sym (append_assoc (if d == c then new else d ∷ []) (replace c new s) (replace c new t)))

bib_replaced-cons : (c : ℕ) (s : Text) → bib_replaced (c ∷ s) ≡ escaped c ++ bib_replaced s
unfolding bib_replaced replace
bib_replaced-cons c s = elim (Bool-cases (c == b'\\')) [
  | inl backslash ↦ rw (backslash, eq_of_== c b'\\' backslash) refl
  | inr other ↦ elim (Bool-cases (c == b'{')) [
    | inl opening ↦ rw (opening, eq_of_== c b'{' opening) refl
    | inr plain ↦
        rw (other, plain)
          (elim (Bool-cases (c == b'}')) [
            | inl closing ↦ rw closing (rw (eq_of_== c b'}' closing) refl)
            | inr rest ↦ rw rest refl
          ])
  ]
]

unescape-plain : (c : ℕ) (r : Text) → (c == b'\\') ≡ false → unescape (c ∷ r) ≡ c ∷ unescape r
unescape-plain c [] h = refl
unescape-plain c (d ∷ s) h = rw h refl

has_bare_brace-plain :
    (c : ℕ) (r : Text)
    → (c == b'\\' || c == b'{' || c == b'}') ≡ false
    → has_bare_brace (c ∷ r) ≡ has_bare_brace r
has_bare_brace-plain c [] h = ground arith
has_bare_brace-plain c (d ∷ s) h = ground arith

unescape-escaped : (c : ℕ) (r : Text) → unescape (escaped c ++ r) ≡ c ∷ unescape r
unescape-escaped c r = elim (Bool-cases (c == b'\\' || c == b'{' || c == b'}')) [
  | inl special ↦ rw special refl
  | inr plain ↦ rw plain (unescape-plain c r (ground arith))
]

has_bare_brace-escaped : (c : ℕ) (r : Text) → has_bare_brace (escaped c ++ r) ≡ has_bare_brace r
has_bare_brace-escaped c r = elim (Bool-cases (c == b'\\' || c == b'{' || c == b'}')) [
  | inl special ↦ rw special refl
  | inr plain ↦ rw plain (has_bare_brace-plain c r plain)
]

unescape-bib_replaced : (s : Text) → unescape (bib_replaced s) ≡ s
unfolding bib_replaced replace
unescape-bib_replaced [] = refl
unescape-bib_replaced (c ∷ s) =
    ap unescape (bib_replaced-cons c s)
    ∙ unescape-escaped c (bib_replaced s)
    ∙ ap (λ t. c ∷ t) (unescape-bib_replaced s)

has_bare_brace-bib_replaced : (s : Text) → has_bare_brace (bib_replaced s) ≡ false
unfolding bib_replaced replace
has_bare_brace-bib_replaced [] = refl
has_bare_brace-bib_replaced (c ∷ s) =
    ap has_bare_brace (bib_replaced-cons c s)
    ∙ has_bare_brace-escaped c (bib_replaced s)
    ∙ has_bare_brace-bib_replaced s

-- An escaped value reads back as the value, by taking one backslash from each escaped character, and holds no
-- brace that could open or close a group of the entry.
pub bib_escape-unescape :
    (s : Text) {w : Text} → bib_escape s ≡ ok w → (unescape w ≡ s) × (has_bare_brace w ≡ false)
unfolding bib_escape
bib_escape-unescape s h =
    let (safe, done) =
      >>-eq-ok
        (raise_if (any (λ c. c == 0) s || any (λ c. c == 10) s || any (λ c. c == 13) s)
          unsafe_bib_value)
        _ h in
    subst (λ t. (unescape t ≡ s) × (has_bare_brace t ≡ false)) (ok-injective done)
      (unescape-bib_replaced s, has_bare_brace-bib_replaced s)

-- A field without a discrepancy whose one value is observed and reads as the value.
abbrev pub Shows : JsonReader → List ProjectedField → Text → Json → Type 0
Shows reader fs name value =
    (f : ProjectedField) × In f fs
    × (f.field ≡ name)
    × (is_discrepant f ≡ false)
    × ((text : Text) × (sole_value f ≡ some text)
        × (parse_canonical_value reader max_value_bytes text ≡ ok value))

Shows-later :
    (reader : JsonReader) (f : ProjectedField) (fs : List ProjectedField) (name : Text)
    (value : Json)
    → Shows reader fs name value
    → Shows reader (f ∷ fs) name value
Shows-later reader f fs name value (g, found, named, agrees, read) =
    (g, inr found, named, agrees, read)

get-put_same :
    (k j : Text) (v : Json) (d : Dict Text Json) → (k == j) ≡ true → get j (put k v d) ≡ some v
get-put_same k j v d h = get-put k j v d ∙ rw h refl

get-put_other :
    (k j : Text) (v : Json) (d : Dict Text Json) → (k == j) ≡ false → get j (put k v d) ≡ get j d
get-put_other k j v d h = get-put k j v d ∙ rw h refl

view_values-loop :
    (reader : JsonReader) (fs : List ProjectedField) (before : Dict Text Json)
    {values : Dict Text Json} (name : Text) (value : Json)
    → view_values reader fs before ≡ ok values
    → get name values ≡ some value
    → Shows reader fs name value ⊎ (get name before ≡ some value)
unfolding view_values
view_values-loop reader [] before name value h k = inr (ap (get name) (ok-injective h) ∙ k)
view_values-loop reader (f ∷ fs) before {values} name value h k =
    let skip : view_values reader fs before ≡ ok values
        → Shows reader (f ∷ fs) name value ⊎ (get name before ≡ some value) =
      λ e. elim (view_values-loop reader fs before name value e k) [
        | inl later ↦ inl (Shows-later reader f fs name value later)
        | inr old ↦ inr old
      ] in
    elim (Bool-cases (is_discrepant f)) [
      | inl differs ↦ skip (rw (differs, view_values) at h)
      | inr agrees ↦ elim (Option-cases (sole_value f)) [
        | inl nothing ↦ skip (rw (agrees, nothing, view_values) at h)
        | inr (text, there) ↦
            let (read, parsed, rest) =
              >>=-eq-ok (parse_canonical_value reader max_value_bytes text) _
                (rw (agrees, there, view_values) at h) in
            elim (view_values-loop reader fs (put f.field read before) name value rest k) [
              | inl later ↦ inl (Shows-later reader f fs name value later)
              | inr here ↦ elim (Bool-cases (f.field == name)) [
                | inl same ↦ inl (
                  f,
                  inl refl,
                  eq_of_== f.field name same,
                  agrees,
                  (
                    text,
                    there,
                    subst (λ v. parse_canonical_value reader max_value_bytes text ≡ ok v)
                        (some-injective _ _
                          (sym (get-put_same f.field name read before same) ∙ here))
                        parsed,
                  ),
                )
                | inr other ↦ inr (sym (get-put_other f.field name read before other) ∙ here)
              ]
            ]
      ]
    ]

-- The view takes its values from the fields that have no discrepancy: what it holds under a name is the
-- one observed value of such a field, and no side of a discrepancy is chosen.
pub view_values-Shows :
    (reader : JsonReader) (fs : List ProjectedField) {values : Dict Text Json} (name : Text)
    (value : Json)
    → view_values reader fs [] ≡ ok values
    → get name values ≡ some value
    → Shows reader fs name value
unfolding get
view_values-Shows reader fs name value h k = elim (view_values-loop reader fs [] name value h k) [
  | inl shown ↦ shown
  | inr never ↦ cc
]
