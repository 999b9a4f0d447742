-- ===== src/StateProjection/Tests.antt =====
-- Runs of the state projection and instances of its theorems.
use projectkoios_references.Prelude.{
  All-In, In, List, Option, Result, [], arith, err, false, get, if◌then◌else◌, inl, inr, list_eq,
  list_ord, map, nat_eq, nat_ord, ne_of_==, none, ok, option_eq, pair_eq, pair_ord, refl, some,
  true, ℕ, ◌++◌, ◌==◌, ◌∷◌, ◌≡◌,
}
use projectkoios_references.Text.{Text, codes}
use projectkoios_references.Json.{Json, str}
use projectkoios_references.Review.Checks.{matches_content_id}
use projectkoios_references.Samples.{ascii, digest}
use projectkoios_references.StateProjection.{
  StateClaim, ProjectedField, ProjectedValue, observed, immutable_observation, human_decision,
  undeclared_inputs, bibliographic_metadata, single,
}
use projectkoios_references.StateProjection.Values.{JsonReader}
use projectkoios_references.StateProjection.Claims.{check_claim}
use projectkoios_references.StateProjection.Requests.{ReferenceStateReplayRequest}
use projectkoios_references.StateProjection.Replay.{ReferenceStateReplayResult, replay}
use projectkoios_references.StateProjection.Groups.{claims_of}
use projectkoios_references.StateProjection.Represents.{
  IsCited, Lists, Supports, values-IsCited, claims-Lists,
}
use projectkoios_references.StateProjection.Resolutions.{Means, resolution-Means}
use projectkoios_references.StateProjection.Order.{AllAccepted}
use projectkoios_references.StateProjection.Progress.{OnlyLimits}
use projectkoios_references.StateProjection.Progress.Replay.{IsReady}
use projectkoios_references.StateProjection.Progress.Success.{replay-OnlyLimits}
use projectkoios_references.StateProjection.Projections.{sorted_field_names}
use projectkoios_references.StateProjection.Shapes.{FollowsRule, fields-FollowsRule}
use projectkoios_references.StateProjection.Provenance.{
  HasProvenance, check_claim-IsAuthored, decisions-HasProvenance,
}
use projectkoios_references.StateProjection.Faults.{Fault, undeclared, replay-Fault}
use projectkoios_references.StateProjection.View.{bib_escape, view_values}
use projectkoios_references.StateProjection.Escapes.{
  unescape, has_bare_brace, Shows, bib_escape-unescape, view_values-Shows,
}
use projectkoios_references.StateProjection.Unordered.{SameRequest, replay-SameRequest}

-- Reads a JSON string without escapes.
abbrev without_last : Text → Text
without_last [] = []
without_last (c ∷ []) = []
without_last (c ∷ d ∷ s) = c ∷ without_last (d ∷ s)

abbrev pub loads_strings : Text → Option Json
loads_strings [] = none
loads_strings (c ∷ s) = if c == b'"' then some (str (without_last s)) else none

abbrev strings : JsonReader
strings = record { loads = loads_strings; loads_empty = refl }

abbrev identity : Text → ℕ → Text
identity kind n = kind ++ (codes ":sha256:" ++ digest n)

abbrev title_claim : ℕ → Text → StateClaim
title_claim n value = record {
  subject_id = identity (codes "work") 1;
  field = codes "title";
  knowledge = observed;
  value_json = some value;
  record_kind = immutable_observation;
  authority_owner = codes "projectkoios-references";
  authoritative_input_id = identity (codes "source") n;
  source_locator = codes "a.bib";
  actor_id = none;
  authority_scope = none;
  actor_verification_record_id = none;
}

abbrev first_title : StateClaim
first_title = title_claim 2 (codes "\"On A\"")

abbrev second_title : StateClaim
second_title = title_claim 3 (codes "\"On B\"")

abbrev request_of : List StateClaim → List Text → ReferenceStateReplayRequest
request_of claims inputs = record {
  subject_id = identity (codes "work") 1;
  claims = claims;
  authoritative_input_ids = inputs;
  exclusions = [];
  request_id = identity (codes "request") 1;
}

abbrev two_titles : ReferenceStateReplayRequest
two_titles =
    request_of (first_title ∷ second_title ∷ [])
      (identity (codes "source") 2 ∷ identity (codes "source") 3 ∷ [])

-- The same in another order, with a claim and an input that are repeated.
abbrev titles_again : ReferenceStateReplayRequest
titles_again =
    request_of (second_title ∷ first_title ∷ second_title ∷ [])
      (identity (codes "source") 3 ∷ identity (codes "source") 2 ∷ identity (codes "source") 3 ∷ [])

abbrev pub IsOk : {E A : Type 0} → Result E A → Type 0
IsOk (ok a) = Unit
IsOk (err e) = ⊥

abbrev pub of_IsOk : {E A : Type 0} (m : Result E A) → IsOk m → (a : A) × (m ≡ ok a)
of_IsOk (ok a) h = (a, refl)
of_IsOk (err e) h = elim h [ ]

title_claims_accepted :
    (check_claim strings first_title ≡ ok tt) × (check_claim strings second_title ≡ ok tt)
unfolding check_claim
title_claims_accepted = (refl, refl)

unfoldable pub two_titles-IsOk : IsOk (replay strings ascii two_titles)
unfolding replay
two_titles-IsOk = tt

unfoldable pub two_titles-result :
    (result : ReferenceStateReplayResult) × (replay strings ascii two_titles ≡ ok result)
two_titles-result = of_IsOk (replay strings ascii two_titles) two_titles-IsOk

two_titles-AllAccepted : AllAccepted strings two_titles.claims
two_titles-AllAccepted c m =
    All-In (λ x. check_claim strings x ≡ ok tt) c two_titles.claims
      (title_claims_accepted.0, (title_claims_accepted.1, tt)) m

two_titles-field :
    (f : ProjectedField) × In f two_titles-result.0.projection.fields
    × (f.field ≡ codes "title")
    × ((v : ProjectedValue) × In v f.values × Lists v first_title)
two_titles-field = claims-Lists strings ascii two_titles two_titles-result.1 first_title (inl refl)

claims-Lists_example :
    (f : ProjectedField) × In f two_titles-result.0.projection.fields
    × (f.field ≡ codes "title")
    × ((v : ProjectedValue) × In v f.values × Lists v first_title)
claims-Lists_example =
    claims-Lists strings ascii two_titles two_titles-result.1 first_title (inl refl)

values-IsCited_example : IsCited two_titles.claims two_titles-field.0.field two_titles-field.3.0
values-IsCited_example =
    values-IsCited strings ascii two_titles two_titles-result.1 two_titles-field.0
      two_titles-field.3.0 two_titles-field.1 two_titles-field.3.1

resolution-Means_example :
    Means two_titles-field.0.resolution (claims_of two_titles-field.0.field two_titles.claims)
resolution-Means_example =
    resolution-Means strings ascii two_titles two_titles-result.1 two_titles-field.0
      two_titles-field.1

two_titles-IsReady : IsReady strings two_titles
unfolding matches_content_id
two_titles-IsReady = record {
  subject = refl;
  accepted = two_titles-AllAccepted;
  same_subject = λ c m.
      All-In (λ x. x.subject_id ≡ two_titles.subject_id) c two_titles.claims (refl, (refl, tt)) m;
  an_input = identity (codes "source") 2;
  has_input = inl refl;
  identities = λ s m.
      All-In (λ x. matches_content_id x ≡ true) s two_titles.authoritative_input_ids
        (refl, (refl, tt)) m;
  few_inputs = omega arith;
  declared = λ c m.
      All-In (λ x. In x.authoritative_input_id two_titles.authoritative_input_ids) c
        two_titles.claims (inl refl, (inr (inl refl), tt)) m;
  few_exclusions = omega arith;
  bounded_exclusions = λ s m. elim m [ ];
}

replay-OnlyLimits_example : OnlyLimits (replay strings ascii two_titles)
replay-OnlyLimits_example = replay-OnlyLimits strings ascii two_titles two_titles-IsReady

titles_again-SameRequest : SameRequest two_titles titles_again
titles_again-SameRequest = record {
  subject = refl;
  claims = (
    (λ c m. elim m [ inl e ↦ inr (inl e) | inr n ↦ elim n [ inl e ↦ inl e | inr o ↦ elim o [ ] ] ]),
    (λ c m. elim m [
      | inl e ↦ inr (inl e)
      | inr n ↦ elim n [
        | inl e ↦ inl e
        | inr o ↦ elim o [ inl e ↦ inr (inl e) | inr q ↦ elim q [ ] ]
      ]
    ]),
  );
  inputs = (
    (λ c m. elim m [ inl e ↦ inr (inl e) | inr n ↦ elim n [ inl e ↦ inl e | inr o ↦ elim o [ ] ] ]),
    (λ c m. elim m [
      | inl e ↦ inr (inl e)
      | inr n ↦ elim n [
        | inl e ↦ inl e
        | inr o ↦ elim o [ inl e ↦ inr (inl e) | inr q ↦ elim q [ ] ]
      ]
    ]),
  );
  exclusions = ((λ s m. m), (λ s m. m));
}

replay-SameRequest_example :
    (other : ReferenceStateReplayResult) × (replay strings ascii titles_again ≡ ok other)
    × (other.projection ≡ two_titles-result.0.projection)
replay-SameRequest_example =
    replay-SameRequest strings ascii two_titles titles_again two_titles-AllAccepted
      titles_again-SameRequest two_titles-result.1

-- A decision about reading, by an actor with the reader's scope.
abbrev read_decision : StateClaim
read_decision = record first_title {
  field = codes "reading_decision";
  value_json = some (codes "\"read\"");
  record_kind = human_decision;
  actor_id = some (codes "curator");
  authority_scope = some (codes "reference-reader");
  actor_verification_record_id = some (identity (codes "actor") 7);
}

read_decision_accepted : check_claim strings read_decision ≡ ok tt
unfolding check_claim
read_decision_accepted = refl

check_claim-IsAuthored_example : HasProvenance read_decision
check_claim-IsAuthored_example = check_claim-IsAuthored strings read_decision read_decision_accepted

abbrev one_decision : ReferenceStateReplayRequest
one_decision = request_of (read_decision ∷ []) (identity (codes "source") 2 ∷ [])

one_decision-IsOk : IsOk (replay strings ascii one_decision)
unfolding replay
one_decision-IsOk = tt

one_decision-result :
    (result : ReferenceStateReplayResult) × (replay strings ascii one_decision ≡ ok result)
one_decision-result = of_IsOk (replay strings ascii one_decision) one_decision-IsOk

one_decision-AllAccepted : AllAccepted strings one_decision.claims
one_decision-AllAccepted c m =
    All-In (λ x. check_claim strings x ≡ ok tt) c one_decision.claims (read_decision_accepted, tt) m

one_decision-field :
    (f : ProjectedField) × In f one_decision-result.0.projection.fields
    × (f.field ≡ codes "reading_decision")
    × ((v : ProjectedValue) × In v f.values × Lists v read_decision)
one_decision-field =
    claims-Lists strings ascii one_decision one_decision-result.1 read_decision (inl refl)

decisions-HasProvenance_example :
    (c : StateClaim) × Supports one_decision.claims one_decision-field.0.field
      one_decision-field.3.0 c
    × HasProvenance c
decisions-HasProvenance_example =
    decisions-HasProvenance strings ascii one_decision one_decision-AllAccepted
      one_decision-result.1 one_decision-field.0 one_decision-field.3.0 one_decision-field.1
      one_decision-field.3.1 one_decision-field.3.2.2

fields-FollowsRule_example :
    (map (λ f. f.field) one_decision-result.0.projection.fields ≡ sorted_field_names)
    × ((f : ProjectedField) → In f one_decision-result.0.projection.fields → FollowsRule f)
fields-FollowsRule_example =
    fields-FollowsRule strings ascii one_decision one_decision-AllAccepted one_decision-result.1

-- The second claim's input is not declared.
abbrev half_declared : ReferenceStateReplayRequest
half_declared = request_of (first_title ∷ second_title ∷ []) (identity (codes "source") 2 ∷ [])

half_declared-Fault : Fault half_declared undeclared_inputs
unfolding matches_content_id
half_declared-Fault =
    undeclared second_title
      (λ c m.
        All-In (λ x. x.subject_id ≡ half_declared.subject_id) c half_declared.claims
          (refl, (refl, tt)) m)
      (λ s m.
        All-In (λ x. matches_content_id x ≡ true) s half_declared.authoritative_input_ids (refl, tt)
          m)
      (λ e. cc) (inr (inl refl))
      (λ m. elim m [
        | inl e ↦ ne_of_== (identity (codes "source") 3) (identity (codes "source") 2) refl e
        | inr n ↦ n
      ])

replay-Fault_example : replay strings ascii half_declared ≡ err undeclared_inputs
replay-Fault_example = replay-Fault strings ascii half_declared half_declared-Fault

escape_run : bib_escape (codes "A {B} \\c") ≡ ok (codes "A \\{B\\} \\\\c")
unfolding bib_escape
escape_run = refl

bib_escape-unescape_example :
    (unescape (codes "A \\{B\\} \\\\c") ≡ codes "A {B} \\c")
    × (has_bare_brace (codes "A \\{B\\} \\\\c") ≡ false)
bib_escape-unescape_example = bib_escape-unescape (codes "A {B} \\c") escape_run

abbrev title_field : ProjectedField
title_field = record {
  field = codes "title";
  dimension = bibliographic_metadata;
  authority_owner = codes "projectkoios-references";
  resolution = single;
  values =
      record {
        knowledge = observed;
        value_json = some (codes "\"On A\"");
        authoritative_input_ids = identity (codes "source") 2 ∷ [];
        record_kinds = immutable_observation ∷ [];
        source_locators = codes "a.bib" ∷ [];
      }
      ∷ [];
}

title_view :
    view_values strings (title_field ∷ []) [] ≡ ok ((codes "title", str (codes "On A")) ∷ [])
unfolding view_values
title_view = refl

view_values-Shows_example : Shows strings (title_field ∷ []) (codes "title") (str (codes "On A"))
unfolding get
view_values-Shows_example =
    view_values-Shows strings (title_field ∷ []) (codes "title") (str (codes "On A")) title_view
      refl
