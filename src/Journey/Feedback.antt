-- ===== src/Journey/Feedback.antt =====
-- internal/journey/service.go, `RecordRecommendationEvent`. The id of an event is a hash of what it
-- is about, a parameter here: `uuid.NewSHA1` over the joined fields.
use spacetime_node.Prelude.{
  Option, String, Bool, none, some, List, [], ◌∷◌, ◌&&◌, ◌||◌, not, ◌==◌, if◌then◌else◌, any,
}
use spacetime_node.Prelude.Table.{find, insert_row}
use spacetime_node.Platform.Env.{
  Env, begin_tx, commit_tx, select_recommendation, insert_processed, insert_dismissal, trace_id,
}
use spacetime_node.Platform.Result.{
  Result, ok, err, unavailable, invalid_request, recommendation_not_found, ◌>>=◌, ◌>>◌, fail_if,
  settle,
}
use spacetime_node.Platform.Event.{Envelope, at, text, event}
use spacetime_node.Platform.Database.{
  Db, UserRow, JourneyRow, RecommendationRow, CandidateSummary, DismissalRow,
}
use spacetime_node.Platform.Outbox.{enqueue}
use spacetime_node.Platform.Outbox.Process.{is_claim, claim}
use spacetime_node.Recommendation.Feedback.{apply_preference_feedback}
use spacetime_node.User.{valid_user_id_hash}

pub record FeedbackRequest : Type 0 where
  pub user_id_hash : String
  pub recommendation_id : String
  pub event_type : String
  pub journey_id : String
  pub trace_id : String
  pub surface : String
  pub offer_id : String

-- `validRecommendationEventType`
unfoldable pub valid_recommendation_event_type : String → Bool
valid_recommendation_event_type value =
    value == "recommendation.impressed.v1"
    || value == "recommendation.clicked.v1"
    || value == "recommendation.dismissed.v1"

abbrev pub surface_of : FeedbackRequest → String
surface_of req = if req.surface == "" then "web" else req.surface

-- the tests before the transaction
abbrev pub is_invalid : FeedbackRequest → Bool
is_invalid req =
    req.user_id_hash == ""
    || req.recommendation_id == ""
    || not (valid_user_id_hash req.user_id_hash)
    || not (valid_recommendation_event_type req.event_type)
    || req.journey_id == ""
    || not (surface_of req == "web" || surface_of req == "demo")

abbrev pub owns_journey : List UserRow → String → JourneyRow → Bool
owns_journey users user_id_hash j =
    any (λ (u : UserRow). u.user_id == j.user_id && u.user_id_hash == user_id_hash) users

abbrev pub joins : FeedbackRequest → List UserRow → List JourneyRow → RecommendationRow → Bool
joins req users journeys r =
    r.recommendation_id == req.recommendation_id
    && r.journey_id == req.journey_id
    && any
        (λ (j : JourneyRow). j.journey_id == r.journey_id && owns_journey users req.user_id_hash j)
        journeys

-- the join of `recommendations`, `journeys` and `users`
unfoldable pub joined_row :
    FeedbackRequest
    → List UserRow
    → List JourneyRow
    → List RecommendationRow
    → Option RecommendationRow
joined_row req users journeys = find (joins req users journeys)

unfoldable pub select_row : Env → FeedbackRequest → Db → Result RecommendationRow
select_row env req db = do
  fail_if (env.fails select_recommendation) (unavailable select_recommendation)
  elim (joined_row req db.users db.journeys db.recommendations) [
    | none ↦ err recommendation_not_found
    | some r ↦ ok r
  ]

-- the offer that the event is about: the recommended one, or an eligible candidate
unfoldable pub offer_of : FeedbackRequest → RecommendationRow → Result String
offer_of req r =
    if req.offer_id == "" || req.offer_id == r.offer_id
    then ok r.offer_id
    else if any (λ (c : CandidateSummary). c.offer_id == req.offer_id && c.eligible)
        r.candidate_summary
    then ok req.offer_id
    else err invalid_request

abbrev pub is_same_dismissal : DismissalRow → DismissalRow → Bool
is_same_dismissal row d =
    d.user_id == row.user_id
    && d.journey_id == row.journey_id
    && d.recommendation_id == row.recommendation_id
    && d.offer_id == row.offer_id

-- ON CONFLICT DO NOTHING, by the primary key of all four columns
unfoldable pub add_dismissal : DismissalRow → Db → Db
add_dismissal row db =
    if any (is_same_dismissal row) db.recommendation_dismissals
    then db
    else record db { recommendation_dismissals = insert_row row db.recommendation_dismissals }

abbrev pub dismissal_of : FeedbackRequest → String → JourneyRow → DismissalRow
dismissal_of req offer_id j = record {
  user_id = j.user_id;
  journey_id = req.journey_id;
  recommendation_id = req.recommendation_id;
  offer_id = offer_id;
}

-- INSERT INTO recommendation_dismissals SELECT ... FROM journeys
unfoldable pub dismiss : FeedbackRequest → String → Db → Db
dismiss req offer_id db =
    elim (find (λ (j : JourneyRow). j.journey_id == req.journey_id) db.journeys) [
      | none ↦ db
      | some j ↦ add_dismissal (dismissal_of req offer_id j) db
    ]

unfoldable pub record_dismissal : Env → FeedbackRequest → String → Db → Result Db
record_dismissal env req offer_id db =
    if req.event_type == "recommendation.dismissed.v1"
    then (do
      fail_if (env.fails insert_dismissal) (unavailable insert_dismissal)
      ok (dismiss req offer_id db))
    else ok db

abbrev pub feedback_event : Env → FeedbackRequest → String → String → Envelope
feedback_event env req event_id offer_id = record {
  event_id = event_id;
  event_type = req.event_type;
  schema_version = 1;
  occurred_at = at env.now;
  producer = "gateway-service";
  trace_id = if req.trace_id == "" then env.uuid trace_id else req.trace_id;
  journey_id = req.journey_id;
  recommendation_id = req.recommendation_id;
  user_id_hash = req.user_id_hash;
  payload = ("offer_id", text offer_id) ∷ ("surface", text (surface_of req)) ∷ [];
}

abbrev pub consumer : String
consumer = "gateway-recommendation-feedback"

-- `recommendationFeedbackEventID`, from `uuid.NewSHA1`
abbrev pub feedback_event_id : (List String → String) → FeedbackRequest → String → String
feedback_event_id hash req offer_id = hash (
    "recommendation-feedback-v1" ∷ req.user_id_hash ∷ req.journey_id ∷ req.recommendation_id
    ∷ offer_id ∷ req.event_type ∷ [])

-- what a claimed event writes
unfoldable pub apply_feedback : Env → FeedbackRequest → String → String → Db → Result Db
apply_feedback env req event_id offer_id db = do
  db₁ ← apply_preference_feedback env req.user_id_hash offer_id req.event_type db
  db₂ ← record_dismissal env req offer_id db₁
  enqueue env
      (record {
        id = event_id;
        topic = req.event_type;
        key = req.user_id_hash;
        payload = event (feedback_event env req event_id offer_id);
      })
      db₂

-- the claim of the event, and what follows it
unfoldable pub claim_and_apply : Env → FeedbackRequest → String → String → Db → Result (String × Db)
claim_and_apply env req event_id offer_id db = do
  fail_if (env.fails insert_processed) (unavailable insert_processed)
  db₁ ←
      (if any (is_claim consumer event_id) db.processed_events
        then ok db
        else apply_feedback env req event_id offer_id (claim consumer event_id db))
  fail_if (env.fails commit_tx) (unavailable commit_tx)
  ok (event_id, db₁)

-- `RecordRecommendationEvent`, without the rollback
unfoldable pub record_event_tx :
    (List String → String) → Env → FeedbackRequest → Db → Result (String × Db)
record_event_tx hash env req db = do
  fail_if (is_invalid req) invalid_request
  fail_if (env.fails begin_tx) (unavailable begin_tx)
  r ← select_row env req db
  offer_id ← offer_of req r
  claim_and_apply env req (feedback_event_id hash req offer_id) offer_id db

-- `RecordRecommendationEvent`
unfoldable pub record_event :
    (List String → String) → Env → FeedbackRequest → Db → Result String × Db
record_event hash env req db = settle db (record_event_tx hash env req db)
