-- ===== src/StateProjection/ReadTests.antt =====
-- A run that reads a printed projection back.
use projectkoios_references.Prelude.{
  All, Option, [], if◌then◌else◌, list_eq, nat_eq, none, ok, option_eq, refl, some, ◌++◌, ◌==◌, ◌∷◌,
  ◌≡◌,
}
use projectkoios_references.Text.{Text, codes}
use projectkoios_references.Json.{Json, obj, str}
use projectkoios_references.Limits.{members}
use projectkoios_references.Samples.{ascii}
use projectkoios_references.StateProjection.{ReferenceStateProjection}
use projectkoios_references.StateProjection.Values.{JsonReader}
use projectkoios_references.StateProjection.Fields.{identity_members}
use projectkoios_references.StateProjection.Projections.{check_state_projection, projection_to_json}
use projectkoios_references.StateProjection.Replay.{replay}
use projectkoios_references.StateProjection.Reading.{projection_from_json}
use projectkoios_references.StateProjection.Read.{IsStateObject}
use projectkoios_references.StateProjection.ReadFields.{IsCheckedField}
use projectkoios_references.StateProjection.ReadBack.{projection_from_json-projection_to_json}
use projectkoios_references.StateProjection.Tests.{IsOk, of_IsOk, loads_strings, two_titles-result}

abbrev printed_projection : ReferenceStateProjection
printed_projection = two_titles-result.0.projection

abbrev printed : Text
printed = projection_to_json printed_projection

abbrev loads_printed : Text → Option Json
loads_printed [] = none
loads_printed (c ∷ s) =
    if c ∷ s == printed
    then some (
        obj (
          members (
            identity_members printed_projection
            ++ (codes "projection_id", str printed_projection.projection_id) ∷ [])))
    else loads_strings (c ∷ s)

abbrev reads_printed : JsonReader
reads_printed = record { loads = loads_printed; loads_empty = refl }

printed-IsOk : IsOk (projection_from_json reads_printed ascii printed)
unfolding projection_from_json two_titles-result projection_to_json replay
printed-IsOk = tt

read_back :
    (r : ReferenceStateProjection) × (projection_from_json reads_printed ascii printed ≡ ok r)
read_back = of_IsOk (projection_from_json reads_printed ascii printed) printed-IsOk

projection_from_json-projection_to_json_example :
    ((value : Json) × (reads_printed.loads printed ≡ some value) × IsStateObject value read_back.0)
    × (projection_to_json read_back.0 ≡ printed)
    × (check_state_projection ascii read_back.0 ≡ ok tt)
    × All (IsCheckedField reads_printed) read_back.0.fields
projection_from_json-projection_to_json_example =
    projection_from_json-projection_to_json reads_printed ascii printed read_back.1
