-- ===== src/Review/Tests.antt =====
-- The theorems about reviews at two readings of one reference and one scan.
use projectkoios_references.Prelude.{
  In, List, [], arith, err, list_eq, list_ord, nat_eq, nat_ord, ok, option_eq, refl, ◌↔◌, ◌∷◌, ◌≡◌,
  ◌≢◌,
}
use projectkoios_references.Samples.{ascii}
use projectkoios_references.Review.Types
use projectkoios_references.Review.Types.{person, technical_processor}
use projectkoios_references.Review.Records.{check_actor, HumanReviewDecision}
use projectkoios_references.Limits.{limits_accepted}
use projectkoios_references.Review.Fields.{check_producer}
use projectkoios_references.Review.Objects.{
  technical_object, human_object, read_technical, read_human,
}
use projectkoios_references.Review.RoundTrip.{
  IsConstructed, read_technical-technical_object, read_human-human_object,
}
use projectkoios_references.Review.Authoring.{check_technical, check_human}
use projectkoios_references.Review.Authority.{
  IsAuthorised, check_human-IsAuthorised, authority-separation,
}
use projectkoios_references.Review.Replay.{
  human, validate_state_change, replay_technical, replay_human,
}
use projectkoios_references.Review.Samples.{
  first_reading, second_reading, scan, projected, replayed, replayed_in_order,
}
use projectkoios_references.Review.Laws.{
  IsReviewReplay, SameStates, MaySupersede, replay_review_records-IsReplay,
  replay_review_records-order, validate_state_change_iff, replays_end,
}

abbrev readings : List HumanReviewDecision
readings = first_reading ∷ second_reading ∷ []

abbrev later_first : List HumanReviewDecision
later_first = second_reading ∷ first_reading ∷ []

same_readings : (x : HumanReviewDecision) → In x later_first ↔ In x readings
same_readings x = (ground arith, ground arith)

replay_review_records-IsReplay_example : IsReviewReplay ascii (scan ∷ []) later_first projected
replay_review_records-IsReplay_example =
    replay_review_records-IsReplay ascii (scan ∷ []) later_first projected replayed

replay_review_records-order_example : SameStates projected projected
replay_review_records-order_example =
    replay_review_records-order ascii (scan ∷ []) (scan ∷ []) later_first readings projected
      projected (λ x. ((λ m. m), (λ m. m))) same_readings replayed replayed_in_order

validate_state_change_iff_example :
    (validate_state_change ascii (human first_reading) (human second_reading) ≡ ok tt)
    ↔ MaySupersede ascii first_reading second_reading
validate_state_change_iff_example = validate_state_change_iff ascii first_reading second_reading

replays_end_example :
    (replay_technical ascii (scan ∷ []) ≢ err Types.out_of_fuel)
    × (replay_human ascii later_first ≢ err Types.out_of_fuel)
replays_end_example = replays_end ascii (scan ∷ []) later_first

accepted_scan : check_technical ascii scan ≡ ok tt
unfolding check_technical scan
accepted_scan = refl

accepted_reading : check_human ascii second_reading ≡ ok tt
unfolding check_human second_reading
accepted_reading = refl

check_human-IsAuthorised_example : IsAuthorised second_reading
check_human-IsAuthorised_example = check_human-IsAuthorised ascii second_reading accepted_reading

authority-separation_example :
    (scan.actor.actor_kind ≢ person)
    × (second_reading.actor.actor_kind ≡ person)
    × (scan.actor.authority_scope ≡ technical_processor)
    × (second_reading.actor.authority_scope ≢ technical_processor)
    × (scan.actor.actor_kind ≢ second_reading.actor.actor_kind)
    × (scan.actor.authority_scope ≢ second_reading.actor.authority_scope)
authority-separation_example =
    authority-separation ascii scan second_reading accepted_scan accepted_reading

scan_parts : IsConstructed scan.producer scan.effective_limits scan.actor
unfolding check_producer check_actor scan limits_accepted
scan_parts = record { producer_checked = refl; limits_checked = refl; actor_checked = refl }

reading_parts :
    IsConstructed second_reading.producer second_reading.effective_limits second_reading.actor
unfolding check_producer check_actor second_reading limits_accepted
reading_parts = record { producer_checked = refl; limits_checked = refl; actor_checked = refl }

read_technical-technical_object_example : read_technical ascii (technical_object scan) ≡ ok scan
read_technical-technical_object_example =
    read_technical-technical_object ascii scan scan_parts accepted_scan

read_human-human_object_example : read_human ascii (human_object second_reading) ≡ ok second_reading
read_human-human_object_example =
    read_human-human_object ascii second_reading reading_parts accepted_reading
