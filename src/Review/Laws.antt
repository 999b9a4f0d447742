-- ===== src/Review/Laws.antt =====
-- What `replay_review_records` guarantees of the projection that it returns.
use projectkoios_references.Prelude.{
  >>-eq-ok, >>=-eq-ok, Bool, In, List, [], ap, arith, err, false, length, list_eq, list_ord,
  ltb-false→le, nat_eq, nat_ord, not, ok, ok-injective, option_eq, raise_if, raise_if-eq-ok, refl,
  some, sort, subst, sym, true, ◌&&◌, ◌+◌, ◌↔◌, ◌∙◌, ◌∷◌, ◌≡◌, ◌≢◌, ◌≤◌,
}
use projectkoios_references.Text.{Text, Platform}
use projectkoios_references.Review.Types.{
  ReviewTransitionKind, correction, dimension_value, initial, is_correction, out_of_fuel,
  outcome_value, regression_requires_correction, supersession, technical_kind_value,
}
use projectkoios_references.Review.Clock.{DateTime, strptime, earlier}
use projectkoios_references.Review.Records.{TechnicalReviewRecord, HumanReviewDecision}
use projectkoios_references.Review.Replay.{
  ReviewItem, technical, human, transition_time, is_regression, check_regression, recorded_at,
  validate_state_change, ReviewProjection, projection_identity, check_projection, replay_technical,
  replay_human, replay_review_records,
}
use projectkoios_references.Review.Streams.Replays.{IsReplay, replay_streams-IsReplay}
use projectkoios_references.Review.Streams.Determined.{replay_streams-order}
use projectkoios_references.Review.Streams.Ends.{replay_streams-ends}

abbrev pub SameStates : ReviewProjection → ReviewProjection → Type 0
SameStates r s =
    (r.technical_history ≡ s.technical_history)
    × (r.human_decision_history ≡ s.human_decision_history)
    × (r.current_technical_record_ids ≡ s.current_technical_record_ids)
    × (r.current_human_decision_ids ≡ s.current_human_decision_ids)

module _ (p : Platform) where
  abbrev pub IsTechnicalReplay :
      List TechnicalReviewRecord → List TechnicalReviewRecord → List Text → Type 0
  IsTechnicalReplay =
      IsReplay (λ r. r.record_id)
        (λ r. r.subject_id ∷ r.context_id ∷ technical_kind_value r.technical_kind ∷ [])
        (λ r. r.transition_kind) (λ r. r.supersedes_record_id) (λ r. outcome_value r.outcome)
        (λ r s. validate_state_change p (technical r) (technical s))

  abbrev pub IsHumanReplay :
      List HumanReviewDecision → List HumanReviewDecision → List Text → Type 0
  IsHumanReplay =
      IsReplay (λ d. d.decision_id)
        (λ d. d.subject_id ∷ d.context_id ∷ dimension_value d.dimension ∷ [])
        (λ d. d.transition_kind) (λ d. d.supersedes_decision_id) (λ d. d.decision)
        (λ d e. validate_state_change p (human d) (human e))

  -- What a successful replay has made of its inputs.
  pub record IsProjected (ts : List TechnicalReviewRecord) (ds : List HumanReviewDecision)
      (r : ReviewProjection) : Type 0 where
    pub technical_ids : List Text
    pub human_ids : List Text
    pub bounded_inputs : length ts + length ds ≤ 256
    pub technical_replay : replay_technical p ts ≡ ok (r.technical_history, technical_ids)
    pub human_replay : replay_human p ds ≡ ok (r.human_decision_history, human_ids)
    pub current_technical : r.current_technical_record_ids ≡ sort technical_ids
    pub current_human : r.current_human_decision_ids ≡ sort human_ids
    pub identified : r.projection_id ≡ projection_identity p r
    pub accepted : check_projection p r ≡ ok tt

  replay_review_records-IsProjected :
      (ts : List TechnicalReviewRecord) (ds : List HumanReviewDecision) (r : ReviewProjection)
      → replay_review_records p ts ds ≡ ok r
      → IsProjected ts ds r
  unfolding replay_review_records projection_identity
  replay_review_records-IsProjected ts ds r h =
      let (within, h1) = >>-eq-ok _ _ h in
      let (t, replayed_t, h2) = >>=-eq-ok _ _ h1 in
      let (d, replayed_d, h3) = >>=-eq-ok _ _ h2 in
      let (accepted, made) = >>-eq-ok _ _ h3 in
      subst (IsProjected ts ds) (ok-injective made) (record {
        technical_ids = t.1;
        human_ids = d.1;
        bounded_inputs = ltb-false→le 256 _ (raise_if-eq-ok _ _ within);
        technical_replay = replayed_t;
        human_replay = replayed_d;
        current_technical = refl;
        current_human = refl;
        identified = refl;
        accepted = accepted;
      })

  abbrev pub IsReviewReplay :
      List TechnicalReviewRecord → List HumanReviewDecision → ReviewProjection → Type 0
  IsReviewReplay ts ds r =
      (t d : List Text) × (length ts + length ds ≤ 256)
      × IsTechnicalReplay ts r.technical_history t
      × IsHumanReplay ds r.human_decision_history d
      × (r.current_technical_record_ids ≡ sort t)
      × (r.current_human_decision_ids ≡ sort d)
      × (r.projection_id ≡ projection_identity p r)

  -- A successful replay of at most 256 records returns their complete lawful histories, technical
  -- and human, stream by stream, with the sorted identities of the last records as the current ones
  -- and an identity that is computed from the projection's content.
  pub replay_review_records-IsReplay :
      (ts : List TechnicalReviewRecord) (ds : List HumanReviewDecision) (r : ReviewProjection)
      → replay_review_records p ts ds ≡ ok r
      → IsReviewReplay ts ds r
  unfolding replay_technical replay_human
  replay_review_records-IsReplay ts ds r h =
      let q = replay_review_records-IsProjected ts ds r h in
      (
        q.technical_ids,
        q.human_ids,
        q.bounded_inputs,
        replay_streams-IsReplay _ _ _ _ _ _ ts r.technical_history q.technical_ids
            q.technical_replay,
        replay_streams-IsReplay _ _ _ _ _ _ ds r.human_decision_history q.human_ids q.human_replay,
        q.current_technical,
        q.current_human,
        q.identified,
      )

  -- Two replays that succeed on the same technical records and the same human decisions, each given
  -- in whatever order, return the same histories and the same current identities.
  pub replay_review_records-order :
      (ts us : List TechnicalReviewRecord) (ds es : List HumanReviewDecision)
      (r s : ReviewProjection)
      → ((x : TechnicalReviewRecord) → In x ts ↔ In x us)
      → ((x : HumanReviewDecision) → In x ds ↔ In x es)
      → replay_review_records p ts ds ≡ ok r
      → replay_review_records p us es ≡ ok s
      → SameStates r s
  unfolding replay_technical replay_human
  replay_review_records-order ts us ds es r s same_t same_d h k =
      let q = replay_review_records-IsProjected ts ds r h in
      let v = replay_review_records-IsProjected us es s k in
      let t =
        replay_streams-order _ _ _ _ (λ x. outcome_value x.outcome)
          (λ x y. validate_state_change p (technical x) (technical y)) ts us _ _ same_t
          q.technical_replay v.technical_replay in
      let d =
        replay_streams-order _ _ _ _ (λ x. x.decision)
          (λ x y. validate_state_change p (human x) (human y)) ds es _ _ same_d q.human_replay
          v.human_replay in
      (
        ap (λ (x : List TechnicalReviewRecord × List Text). x.0) t,
        ap (λ (x : List HumanReviewDecision × List Text). x.0) d,
        q.current_technical
            ∙ (ap (λ (x : List TechnicalReviewRecord × List Text). sort x.1) t
                ∙ sym v.current_technical),
        q.current_human
            ∙ (ap (λ (x : List HumanReviewDecision × List Text). sort x.1) d ∙ sym v.current_human),
      )

  -- When one human decision may supersede another.
  abbrev pub MaySupersede : HumanReviewDecision → HumanReviewDecision → Type 0
  MaySupersede d e =
      (t u : DateTime) × (strptime p d.decided_at ≡ some t)
      × (strptime p e.decided_at ≡ some u)
      × (earlier u t ≡ false)
      × (is_regression d e ≡ true → e.transition_kind ≡ correction)

  transition_time-ok :
      (i : ReviewItem) (t : DateTime)
      → transition_time p i ≡ ok t
      → strptime p (recorded_at i) ≡ some t
  unfolding transition_time
  transition_time-ok i t h = ground arith

  transition_time-some :
      (i : ReviewItem) (t : DateTime)
      → strptime p (recorded_at i) ≡ some t
      → transition_time p i ≡ ok t
  unfolding transition_time
  transition_time-some i t h = rw (h, transition_time)

  regression_kind :
      (b : Bool) (k : ReviewTransitionKind)
      → (raise_if (b && not (is_correction k)) regression_requires_correction ≡ ok tt)
        ↔ (b ≡ true → k ≡ correction)
  regression_kind false k = ((λ h m. ground arith), (λ m. refl))
  regression_kind true initial = ((λ h m. ground arith), (λ m. ground arith))
  regression_kind true supersession = ((λ h m. ground arith), (λ m. ground arith))
  regression_kind true correction = ((λ h m. refl), (λ m. refl))

  check_regression_iff :
      (d e : HumanReviewDecision)
      → (check_regression (human d) (human e) ≡ ok tt)
        ↔ (is_regression d e ≡ true → e.transition_kind ≡ correction)
  unfolding check_regression
  check_regression_iff d e = regression_kind (is_regression d e) e.transition_kind

  -- A change between human decisions is accepted exactly when both times are real, the later
  -- decision's time is not the earlier one, and going back from read or from checked to not
  -- established is a correction.
  pub validate_state_change_iff :
      (d e : HumanReviewDecision)
      → (validate_state_change p (human d) (human e) ≡ ok tt) ↔ MaySupersede d e
  unfolding validate_state_change transition_time check_regression
  validate_state_change_iff d e = (
    (λ h.
        let (t, first, h1) = >>=-eq-ok _ _ h in
        let (u, second, h2) = >>=-eq-ok _ _ h1 in
        let (after, last) = >>-eq-ok _ _ h2 in
        (
          t,
          u,
          transition_time-ok (human d) t first,
          transition_time-ok (human e) u second,
          raise_if-eq-ok _ _ after,
          (check_regression_iff d e).0 last,
        )),
    (λ (t, u, a, b, c, m). rw (
      transition_time-some (human d) t a,
      transition_time-some (human e) u b,
      c,
      (check_regression_iff d e).1 m,
    )),
  )

  change_ends : (a b : ReviewItem) → validate_state_change p a b ≢ err out_of_fuel
  unfolding validate_state_change transition_time check_regression
  change_ends (technical a) b = ground arith
  change_ends (human a) (technical b) = ground arith
  change_ends (human a) (human b) = ground arith

  -- The replays of technical records and of human decisions end on every input: the fuel of the
  -- model's walks is never used up.
  pub replays_end :
      (ts : List TechnicalReviewRecord) (ds : List HumanReviewDecision)
      → (replay_technical p ts ≢ err out_of_fuel) × (replay_human p ds ≢ err out_of_fuel)
  unfolding replay_technical replay_human
  replays_end ts ds = (
    replay_streams-ends _ _ _ _ (λ x. outcome_value x.outcome) _
        (λ a b. change_ends (technical a) (technical b)) ts,
    replay_streams-ends _ _ _ _ (λ x. x.decision) _ (λ a b. change_ends (human a) (human b)) ds,
  )
