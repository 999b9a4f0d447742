-- ===== src/StateProjection/Identity.antt =====
-- The two computations of a projection's identity, in state_projection.py and in
-- state_projection_replay.py, agree: the members are written in different orders and are sorted by name.
use projectkoios_references.Prelude.{
  List, [], list_eq, list_ord, nat_eq, nat_ord, option_eq, pair_eq, pair_ord, refl, ◌∷◌, ◌≡◌,
}
use projectkoios_references.Text.{Text, Platform}
use projectkoios_references.Json.{compact_json, compact_items, stable_id}
use projectkoios_references.StateProjection.{ProjectedValue, ProjectedField}
use projectkoios_references.StateProjection.Fields.{values_json, fields_json, identity_members}
use projectkoios_references.StateProjection.Projections.{projection_id_for}
use projectkoios_references.StateProjection.Replay.{
  replay_values_json, replay_fields_json, state_projection_identity, projection_of,
}

compact-values_json :
    (vs : List ProjectedValue)
    → compact_items (values_json vs) ≡ compact_items (replay_values_json vs)
unfolding values_json compact_json
compact-values_json [] = refl
compact-values_json (v ∷ vs) = rw (compact-values_json vs) refl

compact-fields_json :
    (fs : List ProjectedField)
    → compact_items (fields_json fs) ≡ compact_items (replay_fields_json fs)
unfolding fields_json compact_json
compact-fields_json [] = refl
compact-fields_json (f ∷ fs) = rw (compact-values_json f.values, compact-fields_json fs) refl

-- The identity that the replay computes is the one that the projection's checks ask for.
pub state_projection_identity-projection_of :
    (p : Platform) (subject : Text) (inputs : List Text) (fields : List ProjectedField)
    (exclusions : List Text)
    → projection_id_for p (projection_of p subject inputs fields exclusions)
      ≡ state_projection_identity p subject inputs fields exclusions
unfolding state_projection_identity identity_members stable_id compact_json
state_projection_identity-projection_of p subject inputs fields exclusions =
    rw (compact-fields_json fields) refl
