-- ===== src/StateProjection/Reduce.antt =====
-- How state_projection_replay.py reduces claims: the groups by field, the groups by value within a field, and
-- `_project_field`. The records that it builds run their checks.
use projectkoios_references.Prelude.{
  group_by, Dict, List, Option, Result, [], append_to, err, get, if◌then◌else◌, length, list_eq,
  list_ord, ltb, map, nat_eq, nat_ord, none, ok, option_eq, or_empty, pair_eq, pair_ord, set_of,
  some, sort, sort_by, ◌>>=◌, ◌>>◌, ◌∷◌,
}
use projectkoios_references.Text.{Text}
use projectkoios_references.StateProjection.{
  kind_eq, kind_ord, knowledge_eq, StateError, StateKnowledge, StateClaim, StateFieldRule,
  StateResolution, ProjectedValue, ProjectedField, nothing_observed, single, agreement, discrepancy,
  knowledge_value, no_such_field,
}
use projectkoios_references.StateProjection.Rules.{state_field_rules}
use projectkoios_references.StateProjection.Values.{JsonReader}
use projectkoios_references.StateProjection.Fields.{
  check_projected_value, check_projected_field, text_or_empty,
}

-- What the values of a field are told apart by.
abbrev pub claim_key : StateClaim → StateKnowledge × Option Text
claim_key c = (c.knowledge, c.value_json)

abbrev pub Group : Type 0
Group = (StateKnowledge × Option Text) × List StateClaim

-- (item[0][0].value, item[0][1] or "")
abbrev pub group_identity : Group → Text × Text
group_identity g = (knowledge_value g.0.0, text_or_empty g.0.1)

unfoldable pub projected_value : Group → ProjectedValue
unfolding sort set_of
projected_value g = record {
  knowledge = g.0.0;
  value_json = g.0.1;
  authoritative_input_ids = sort (set_of (map (λ c. c.authoritative_input_id) g.1));
  record_kinds = sort (set_of (map (λ c. c.record_kind) g.1));
  source_locators = sort (set_of (map (λ c. c.source_locator) g.1));
}

unfoldable pub project_values : JsonReader → List Group → Result StateError (List ProjectedValue)
unfolding projected_value check_projected_value
project_values reader [] = ok []
project_values reader (g ∷ gs) = do
  check_projected_value reader (projected_value g)
  rest ← project_values reader gs
  ok (projected_value g ∷ rest)

-- `_resolution` of the replayer
unfoldable pub replay_resolution : List ProjectedValue → StateResolution
replay_resolution [] = nothing_observed
replay_resolution (v ∷ w ∷ rest) = discrepancy
replay_resolution (v ∷ []) = if ltb 1 (length v.authoritative_input_ids) then agreement else single

abbrev pub field_of : Text → StateFieldRule → List ProjectedValue → ProjectedField
field_of name rule values = record {
  field = name;
  dimension = rule.dimension;
  authority_owner = rule.authority_owner;
  resolution = replay_resolution values;
  values = values;
}

-- `_project_field`: `grouped` is the groups by `claim_key`.
unfoldable pub project_field :
    JsonReader → Text → List StateClaim → Result StateError ProjectedField
unfolding get state_field_rules group_by sort_by project_values replay_resolution
    check_projected_field
project_field reader name claims = elim (get name state_field_rules) [
  | none ↦ err (no_such_field name)
  | some rule ↦ do
    values ← project_values reader (sort_by group_identity (group_by claim_key claims []))
    check_projected_field reader (field_of name rule values)
    ok (field_of name rule values)
]

-- {name: [] for name in STATE_FIELD_RULES}
abbrev pub empty_groups : List Text → Dict Text (List StateClaim)
empty_groups [] = []
empty_groups (name ∷ names) = (name, []) ∷ empty_groups names

-- for claim in request.claims: grouped[claim.field].append(claim)
unfoldable pub group_by_field :
    List StateClaim → Dict Text (List StateClaim) → Result StateError (Dict Text (List StateClaim))
unfolding get append_to
group_by_field [] grouped = ok grouped
group_by_field (c ∷ cs) grouped = elim (get c.field grouped) [
  | none ↦ err (no_such_field c.field)
  | some old ↦ group_by_field cs (append_to c.field c grouped)
]

unfoldable pub project_fields :
    JsonReader → Dict Text (List StateClaim) → List Text → Result StateError (List ProjectedField)
unfolding get project_field
project_fields reader grouped [] = ok []
project_fields reader grouped (name ∷ names) = do
  first ← project_field reader name (or_empty (get name grouped))
  rest ← project_fields reader grouped names
  ok (first ∷ rest)
