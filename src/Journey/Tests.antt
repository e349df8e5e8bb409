-- ===== src/Journey/Tests.antt =====
-- Runs of `GetLatestRecommendation` and of `RecordRecommendationEvent`, and the theorems at them.
use spacetime_node.Prelude.{List, ◌≡◌, refl, String, true, false, [], ◌∷◌}
use spacetime_node.Platform.Result.{ok}
use spacetime_node.Platform.Database.{Db, CandidateSummary}
use spacetime_node.Journey.Latest.{
  LatestOffer, Response, is_dismissed, append_unique_reason, mark_dismissed, latest_offer,
  offer_candidate, scan, respond, select_latest, response_of, get_latest,
}
use spacetime_node.Journey.Dismissed.{Heeds, has_dismissal, get_latest-dismissed}
use spacetime_node.Journey.Feedback.{
  FeedbackRequest, valid_recommendation_event_type, select_row, joined_row, offer_of, add_dismissal,
  dismiss, record_dismissal, apply_feedback, claim_and_apply, record_event_tx, record_event,
}
use spacetime_node.User.{valid_user_id_hash}
use spacetime_node.Platform.Outbox.{enqueue}
use spacetime_node.Recommendation.Feedback.{apply_preference_feedback}
use spacetime_node.Journey.Retry.{record_event-retry}
use spacetime_node.Journey.Heeded.{IsPutOnRecord, record_event_tx-is_dismissed}
use spacetime_node.Fixtures.{healthy, shop, rider_hash}

abbrev candidate : String → String → CandidateSummary
candidate id title = record {
  offer_id = id;
  title = title;
  description = "";
  station_id = "R04";
  points_cost = 80;
  vector_score = 1;
  rule_score = 1;
  eligible = true;
  reasons = "within_points" ∷ [];
}

-- two offers were recommended, and the first was dismissed
abbrev dismissed_once : Db
dismissed_once = record shop {
  recommendations =
      record {
        recommendation_id = "recommendation-1";
        journey_id = "journey-1";
        offer_id = "offer-coffee-xinyi";
        score = 1;
        reasons = [];
        copy_title = "A coffee";
        copy_body = "";
        copy_tone = "friendly";
        copy_source = "template";
        candidate_summary =
            candidate "offer-coffee-xinyi" "Coffee" ∷ candidate "offer-tea" "Tea" ∷ [];
        decision_latency_ms = 3;
      }
      ∷ [];
  recommendation_dismissals =
      record {
        user_id = "user-1";
        journey_id = "journey-1";
        recommendation_id = "recommendation-1";
        offer_id = "offer-coffee-xinyi";
      }
      ∷ [];
}

abbrev tea : LatestOffer
tea = record {
  offer_id = "offer-tea";
  title = "Tea";
  body = "";
  reasons = "within_points" ∷ [];
  score = 1;
  points_cost = 80;
  station_id = "R04";
}

abbrev second_choice : Response
second_choice = record {
  recommendation_id = "recommendation-1";
  journey_id = "journey-1";
  offer_id = "offer-tea";
  title = "Tea";
  body = "";
  reasons = "within_points" ∷ [];
  copy_source = "template";
  decision_latency_ms = 3;
  candidates =
      record (candidate "offer-coffee-xinyi" "Coffee") {
        eligible = false;
        reasons = "within_points" ∷ "dismissed_by_user" ∷ [];
      }
      ∷ candidate "offer-tea" "Tea"
      ∷ [];
  offers = tea ∷ [];
}

tea_is_left : get_latest healthy 10 "journey-1" dismissed_once ≡ ok second_choice
unfolding get_latest select_latest response_of respond scan offer_candidate latest_offer
    mark_dismissed append_unique_reason is_dismissed
tea_is_left = refl

get_latest-dismissed_example :
    Heeds (has_dismissal "journey-1" "recommendation-1" dismissed_once) second_choice
get_latest-dismissed_example =
    get_latest-dismissed healthy 10 "journey-1" dismissed_once tea_is_left

-- ids of events, good enough for one event
abbrev sample_hash : List String → String
sample_hash fields = "feedback-1"

-- both offers are open
abbrev recommended : Db
recommended = record dismissed_once { recommendation_dismissals = [] }

abbrev dismissal : FeedbackRequest
dismissal = record {
  user_id_hash = rider_hash;
  recommendation_id = "recommendation-1";
  event_type = "recommendation.dismissed.v1";
  journey_id = "journey-1";
  trace_id = "trace-1";
  surface = "";
  offer_id = "offer-coffee-xinyi";
}

told : Db
told = (record_event sample_hash healthy dismissal recommended).1

feedback_run : Db → Db
unfolding record_event record_event_tx valid_user_id_hash valid_recommendation_event_type select_row
    joined_row offer_of claim_and_apply apply_feedback apply_preference_feedback record_dismissal
    dismiss add_dismissal enqueue told
feedback_run db = (record_event sample_hash healthy dismissal db).1

event_taken : record_event sample_hash healthy dismissal recommended ≡ (ok "feedback-1", told)
unfolding feedback_run
event_taken = refl

event_taken_tx : record_event_tx sample_hash healthy dismissal recommended ≡ ok ("feedback-1", told)
unfolding feedback_run
event_taken_tx = refl

record_event-retry_example :
    record_event sample_hash healthy dismissal told ≡ (ok "feedback-1", told)
record_event-retry_example =
    record_event-retry sample_hash healthy healthy dismissal recommended
      (record { begins = refl; selects = refl; claims = refl; commits = refl }) event_taken

record_event_tx-is_dismissed_example : IsPutOnRecord dismissal recommended told
record_event_tx-is_dismissed_example =
    record_event_tx-is_dismissed sample_hash healthy dismissal recommended refl refl event_taken_tx
