-- ===== src/Review/RoundTrip/Parts.antt =====
-- Reading what was written: the parts of a record.
use projectkoios_references.Prelude.{
  List, Option, [], arith, list_eq, list_ord, nat_eq, nat_ord, none, ok, option_eq, refl, some,
  true, ℕ, ◌∷◌, ◌≡◌,
}
use projectkoios_references.Text.{Text, codes}
use projectkoios_references.Json.{Fields, str, arr, texts, optional, optional_num}
use projectkoios_references.Limits.{ReferenceIoLimits, limits_accepted, limits_json}
use projectkoios_references.Review.Types.{
  HumanReviewDimension, ReviewActorKind, ReviewAuthorityScope, ReviewTransitionKind,
  TechnicalReviewKind, TechnicalReviewOutcome, actor_kind_value, dimension_value, outcome_value,
  scope_value, technical_kind_value, transition_value,
}
use projectkoios_references.Review.Records.{
  ProducerIdentity, ReviewActorProvenance, check_actor, producer_json, actor_json,
}
use projectkoios_references.Review.Fields.{
  at, limit, items_strings, optional_string, string_array, enum_value, check_producer,
  read_producer, read_limits,
}
use projectkoios_references.Review.Actors.{
  read_actor, actor_kinds, authority_scopes, transition_kinds, technical_kinds, outcomes,
  dimensions,
}

items_strings-texts : (ss : List Text) → items_strings (texts ss) ≡ some ss
unfolding items_strings
items_strings-texts [] = refl
items_strings-texts (s ∷ ss) = rw (items_strings-texts ss)

pub string_array-texts : (ss : List Text) (name : Text) → string_array (arr (texts ss)) name ≡ ok ss
unfolding string_array
string_array-texts ss name = rw (items_strings-texts ss, string_array)

pub optional_string-optional :
    (o : Option Text) (name : Text) → optional_string (optional o) name ≡ ok o
unfolding optional_string
optional_string-optional none name = refl
optional_string-optional (some s) name = refl

enum_value-actor_kind_value :
    (k : ReviewActorKind) (name : Text)
    → enum_value actor_kind_value actor_kinds (str (actor_kind_value k)) name ≡ ok k
unfolding enum_value
enum_value-actor_kind_value k name = ground arith

enum_value-scope_value :
    (k : ReviewAuthorityScope) (name : Text)
    → enum_value scope_value authority_scopes (str (scope_value k)) name ≡ ok k
unfolding enum_value
enum_value-scope_value k name = ground arith

pub enum_value-transition_value :
    (k : ReviewTransitionKind) (name : Text)
    → enum_value transition_value transition_kinds (str (transition_value k)) name ≡ ok k
unfolding enum_value
enum_value-transition_value k name = ground arith

pub enum_value-technical_kind_value :
    (k : TechnicalReviewKind) (name : Text)
    → enum_value technical_kind_value technical_kinds (str (technical_kind_value k)) name ≡ ok k
unfolding enum_value
enum_value-technical_kind_value k name = ground arith

pub enum_value-outcome_value :
    (k : TechnicalReviewOutcome) (name : Text)
    → enum_value outcome_value outcomes (str (outcome_value k)) name ≡ ok k
unfolding enum_value
enum_value-outcome_value k name = ground arith

pub enum_value-dimension_value :
    (k : HumanReviewDimension) (name : Text)
    → enum_value dimension_value dimensions (str (dimension_value k)) name ≡ ok k
unfolding enum_value
enum_value-dimension_value k name = ground arith

pub read_producer-producer_json :
    (p : ProducerIdentity) → check_producer p ≡ ok tt → read_producer (producer_json p) ≡ ok p
unfolding read_producer producer_json
read_producer-producer_json p h = rw h

limit-optional_num :
    (fs : Fields) (name : Text) (o : Option ℕ) → at name fs ≡ optional_num o → limit fs name ≡ ok o
unfolding limit
limit-optional_num fs name none h = rw (h, limit)
limit-optional_num fs name (some n) h = rw (h, limit)

pub read_limits-limits_json :
    (l : ReferenceIoLimits) → limits_accepted l ≡ true → read_limits (limits_json l) ≡ ok l
unfolding read_limits limits_json
read_limits-limits_json l h = rw (
  limit-optional_num _ (codes "max_files") l.max_files refl,
  limit-optional_num _ (codes "max_file_bytes") l.max_file_bytes refl,
  limit-optional_num _ (codes "max_response_bytes") l.max_response_bytes refl,
  limit-optional_num _ (codes "max_cache_bytes") l.max_cache_bytes refl,
  limit-optional_num _ (codes "max_total_bytes") l.max_total_bytes refl,
  limit-optional_num _ (codes "max_rows") l.max_rows refl,
  limit-optional_num _ (codes "max_json_bytes") l.max_json_bytes refl,
  limit-optional_num _ (codes "max_csv_bytes") l.max_csv_bytes refl,
  limit-optional_num _ (codes "max_bibliography_bytes") l.max_bibliography_bytes refl,
  limit-optional_num _ (codes "max_json_depth") l.max_json_depth refl,
  limit-optional_num _ (codes "max_nesting_depth") l.max_nesting_depth refl,
  limit-optional_num _ (codes "max_text_bytes") l.max_text_bytes refl,
  limit-optional_num _ (codes "max_text_file_bytes") l.max_text_file_bytes refl,
  limit-optional_num _ (codes "max_text_total_bytes") l.max_text_total_bytes refl,
  limit-optional_num _ (codes "max_candidates") l.max_candidates refl,
  limit-optional_num _ (codes "max_match_evaluations") l.max_match_evaluations refl,
  limit-optional_num _ (codes "max_entries") l.max_entries refl,
  h,
)

pub read_actor-actor_json :
    (a : ReviewActorProvenance) → check_actor a ≡ ok tt → read_actor (actor_json a) ≡ ok a
unfolding read_actor actor_json
read_actor-actor_json a h = rw (
  enum_value-actor_kind_value a.actor_kind (codes "actor_kind"),
  enum_value-scope_value a.authority_scope (codes "authority_scope"),
  h,
)
