-- ===== src/StateProjection/Shapes.antt =====
-- A projection has the fields of the authority matrix, each as its rule says.
use projectkoios_references.Prelude.{
  In, ap, get, list_eq, list_ord, map, nat_eq, nat_ord, ok, option_eq, pair_eq, pair_ord, some,
  some-injective, subst, sym, true, ◌∙◌, ◌≡◌,
}
use projectkoios_references.Text.{Platform}
use projectkoios_references.StateProjection.{
  kind_eq, StateRecordKind, StateFieldRule, ProjectedField, ProjectedValue,
}
use projectkoios_references.StateProjection.Rules.{state_field_rules}
use projectkoios_references.StateProjection.Values.{JsonReader}
use projectkoios_references.StateProjection.Claims.{accepts}
use projectkoios_references.StateProjection.Accepted.{check_claim-eq-ok}
use projectkoios_references.StateProjection.Projections.{sorted_field_names}
use projectkoios_references.StateProjection.Requests.{ReferenceStateReplayRequest}
use projectkoios_references.StateProjection.Replay.{ReferenceStateReplayResult, replay}
use projectkoios_references.StateProjection.Reduced.{In-fields-IsProjection, names-project_fields}
use projectkoios_references.StateProjection.Replayed.{replay-eq-ok}
use projectkoios_references.StateProjection.Represents.{values-IsCited}
use projectkoios_references.StateProjection.Order.{AllAccepted}

-- The field's dimension, owner and record kinds are those of its rule.
abbrev pub FollowsRule : ProjectedField → Type 0
FollowsRule f =
    (rule : StateFieldRule) × (get f.field state_field_rules ≡ some rule)
    × (f.dimension ≡ rule.dimension)
    × (f.authority_owner ≡ rule.authority_owner)
    × ((v : ProjectedValue) (k : StateRecordKind)
        → In v f.values
        → In k v.record_kinds
        → accepts rule.allowed_record_kinds k ≡ true)

-- A replay of accepted claims gives each field of the authority matrix once, in the order of their names, and
-- each field has the dimension and the owner of its rule and only record kinds that the rule allows.
pub fields-FollowsRule :
    (reader : JsonReader) (p : Platform) (request : ReferenceStateReplayRequest)
    {result : ReferenceStateReplayResult}
    → AllAccepted reader request.claims
    → replay reader p request ≡ ok result
    → (map (λ f. f.field) result.projection.fields ≡ sorted_field_names)
      × ((f : ProjectedField) → In f result.projection.fields → FollowsRule f)
fields-FollowsRule reader p request {result} accepted h =
    let done = (replay-eq-ok reader p request h).reduced in
    (
      names-project_fields reader done.grouped sorted_field_names done.is_projected,
      (λ f m.
          let (rule, known, made) = In-fields-IsProjection done f m in
          (
            rule,
            known,
            ap (λ x. x.dimension) made,
            ap (λ x. x.authority_owner) made,
            (λ v k at_v at_k.
                let (supported, ids, kinds, locators) =
                  values-IsCited reader p request h f v m at_v in
                let (c, (found, here, key), same) = kinds k at_k in
                let a = check_claim-eq-ok reader c (accepted c found) in
                let one_rule : a.rule ≡ rule =
                  some-injective _ _
                    (sym a.known ∙ ap (λ n. get n state_field_rules) here ∙ known) in
                subst (λ x. accepts rule.allowed_record_kinds x ≡ true) (sym same)
                  (subst (λ r. accepts r.allowed_record_kinds c.record_kind ≡ true) one_rule
                    a.kind_allowed)),
          )),
    )
