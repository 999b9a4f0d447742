-- ===== src/Review/Records.antt =====
-- `ReviewActorProvenance`, `TechnicalReviewRecord` and `HumanReviewDecision`: the data, the checks of
-- `__post_init__`, the content identities, and `create`. The checks of a field's type are the types
-- of the model.
use projectkoios_references.Prelude.{
  Bool, List, Option, Result, [], any, err, false, if◌then◌else◌, list_eq, list_ord, nat_eq,
  nat_ord, none, not, ok, option_eq, raise_if, some, true, ℕ, ◌==◌, ◌>>◌, ◌∷◌,
}
use projectkoios_references.Text.{Text, codes, Platform}
use projectkoios_references.Json.{Json, obj, str}
use projectkoios_references.Limits.{
  ReferenceIoLimits, same_limits, evidence_id, members, review_io_limits,
}
use projectkoios_references.Review.Types.{
  HumanReviewDimension, ReviewActorKind, ReviewAuthorityScope, ReviewError, ReviewTransitionKind,
  TechnicalReviewKind, TechnicalReviewOutcome, actor_kind_value, human_authority_requires_person,
  initial, initial_cannot_supersede, is_person, is_technical, limits_identity_differs,
  limits_unsupported, no_evidence, omits_actor_verification, scope_value,
  technical_authority_requires_processor, timestamp_not_canonical, timestamp_not_real,
  transition_requires_supersession,
}
use projectkoios_references.Review.Checks.{bounded, content_id, content_ids}
use projectkoios_references.Review.Clock.{matches_timestamp, strptime}

pub record ProducerIdentity : Type 0 where
  pub name : Text
  pub version : Text

pub record ReviewActorProvenance : Type 0 where
  pub actor_id : Text
  pub actor_kind : ReviewActorKind
  pub authority_scope : ReviewAuthorityScope
  pub authority_domain : Text
  pub verification_record_id : Text
  pub verification_method : Text

pub record TechnicalReviewRecord : Type 0 where
  pub schema_version : ℕ
  pub authority_kind : Text
  pub producer : ProducerIdentity
  pub effective_limits : ReferenceIoLimits
  pub effective_limits_id : Text
  pub subject_id : Text
  pub context_id : Text
  pub technical_kind : TechnicalReviewKind
  pub outcome : TechnicalReviewOutcome
  pub transition_kind : ReviewTransitionKind
  pub actor : ReviewActorProvenance
  pub evidence_ids : List Text
  pub rationale : Text
  pub observed_at : Text
  pub supersedes_record_id : Option Text
  pub record_id : Text

pub record HumanReviewDecision : Type 0 where
  pub schema_version : ℕ
  pub authority_kind : Text
  pub producer : ProducerIdentity
  pub effective_limits : ReferenceIoLimits
  pub effective_limits_id : Text
  pub subject_id : Text
  pub context_id : Text
  pub dimension : HumanReviewDimension
  pub decision : Text
  pub transition_kind : ReviewTransitionKind
  pub actor : ReviewActorProvenance
  pub evidence_ids : List Text
  pub rationale : Text
  pub decided_at : Text
  pub supersedes_decision_id : Option Text
  pub decision_id : Text

-- `ReviewActorProvenance.__post_init__`
unfoldable pub check_actor : ReviewActorProvenance → Result ReviewError (Unit {0})
unfolding bounded content_id
check_actor a = do
  bounded a.actor_id (codes "actor_id")
  bounded a.authority_domain (codes "authority_domain")
  content_id a.verification_record_id (codes "verification_record_id")
  bounded a.verification_method (codes "verification_method")
  if is_technical a.authority_scope
      then raise_if (is_person a.actor_kind) technical_authority_requires_processor
      else raise_if (not (is_person a.actor_kind)) human_authority_requires_person

unfoldable pub producer_json : ProducerIdentity → Json
producer_json p = obj (members ((codes "name", str p.name) ∷ (codes "version", str p.version) ∷ []))

unfoldable pub actor_json : ReviewActorProvenance → Json
actor_json a = obj (
    members (
      (codes "actor_id", str a.actor_id)
      ∷ (codes "actor_kind", str (actor_kind_value a.actor_kind))
      ∷ (codes "authority_scope", str (scope_value a.authority_scope))
      ∷ (codes "authority_domain", str a.authority_domain)
      ∷ (codes "verification_record_id", str a.verification_record_id)
      ∷ (codes "verification_method", str a.verification_method)
      ∷ []))

-- `_validate_effective_limits`
unfoldable pub validate_effective_limits :
    Platform → ReferenceIoLimits → Text → Result ReviewError (Unit {0})
unfolding same_limits evidence_id
validate_effective_limits p limits limits_id = do
  raise_if (not (same_limits limits review_io_limits)) limits_unsupported
  raise_if (not (limits_id == evidence_id p limits)) limits_identity_differs

-- The end of `_validate_common_record`: a record supersedes exactly when it is not initial.
check_supersession : ReviewTransitionKind → Option Text → Result ReviewError (Unit {0})
unfolding content_id
check_supersession initial none = ok tt
check_supersession initial (some s) = err initial_cannot_supersede
check_supersession _ none = err transition_requires_supersession
check_supersession _ (some s) = content_id s (codes "supersedes_record_id")

is_time : Platform → Text → Bool
unfolding strptime
is_time p s = elim (strptime p s) [ none ↦ false | some t ↦ true ]

-- `_validate_common_record`
unfoldable pub validate_common_record :
    Platform
    → ReviewTransitionKind
    → ReviewActorProvenance
    → List Text
    → Text
    → Text
    → Option Text
    → Result ReviewError (Unit {0})
unfolding content_ids bounded matches_timestamp is_time check_supersession
validate_common_record p transition actor evidence rationale recorded_at supersedes = do
  content_ids evidence (codes "evidence_ids") 64
  raise_if (evidence == []) no_evidence
  raise_if (not (any (λ e. actor.verification_record_id == e) evidence)) omits_actor_verification
  bounded rationale (codes "rationale")
  raise_if (not (matches_timestamp p recorded_at)) timestamp_not_canonical
  raise_if (not (is_time p recorded_at)) timestamp_not_real
  check_supersession transition supersedes
