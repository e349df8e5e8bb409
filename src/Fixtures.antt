-- ===== src/Fixtures.antt =====
-- A small database and an environment, at which the tests run the services.
use spacetime_node.Prelude.{String, true, false, none, some, [], ◌∷◌}
use spacetime_node.Prelude.Int.{pos}
use spacetime_node.Platform.Env.{
  Env, Fresh, redemption_id, verification_code, event_id, trace_id, journey_id, user_id,
  recommendation_id, subscription_id, notification_id, notification_event,
}
use spacetime_node.Platform.Database.{Db, UserRow, OfferRow}

abbrev pub sample_uuid : Fresh → String
sample_uuid redemption_id = "redemption-1"
sample_uuid verification_code = "code-1"
sample_uuid event_id = "event-1"
sample_uuid trace_id = "trace-1"
sample_uuid journey_id = "journey-9"
sample_uuid user_id = "user-9"
sample_uuid recommendation_id = "recommendation-1"
sample_uuid subscription_id = "subscription-9"
sample_uuid (notification_id s) = "notification-1"
sample_uuid (notification_event s t) = "event-2"

-- nothing fails, at time 50
abbrev pub healthy : Env
healthy = record { now = 50; fails = λ _. false; uuid = sample_uuid }

abbrev pub rider_hash : String
rider_hash = "sha256:aaaaaaaaaaaaaaaaaaaaaaaaaaaaaaaaaaaaaaaaaaaaaaaaaaaaaaaaaaaaaaaa"

abbrev pub rider : UserRow
rider = record {
  user_id = "user-1";
  user_id_hash = rider_hash;
  display_name = "Demo Rider";
  point_balance = 1200;
  favorite_station_ids = "R04" ∷ [];
  preferred_categories = "coffee" ∷ "lunch" ∷ [];
  budget_min_points = 80;
  budget_max_points = 300;
  timezone = "Asia/Taipei";
  notifications_enabled = true;
  notification_start_local = some "08:00";
  notification_end_local = some "22:00";
}

abbrev pub coffee : OfferRow
coffee = record {
  offer_id = "offer-coffee-xinyi";
  merchant_id = "merchant-coffee-demo";
  station_id = "R04";
  title = "Coffee";
  description = "Coffee near the station";
  category = "coffee";
  points_cost = 80;
  starts_at = 10;
  ends_at = 90;
  is_active = true;
  content_version = 1;
}

abbrev pub shop : Db
shop = record {
  users = rider ∷ [];
  stations = record { station_id = "R04"; name_zh = "Xinyi Anhe"; line_id = "R" } ∷ [];
  offers = coffee ∷ [];
  inventory = record { offer_id = "offer-coffee-xinyi"; available_quantity = 50; version = 1 } ∷ [];
  journeys =
      record {
        journey_id = "journey-1";
        user_id = "user-1";
        station_id = "R04";
        line_id = "R";
        position_id = "exit-3";
      }
      ∷ [];
  redemptions = [];
  points_ledger =
      record {
        user_id = "user-1";
        redemption_id = none;
        delta = pos 1200;
        balance_after = 1200;
        reason = "demo_initial_balance";
      }
      ∷ [];
  outbox_events = [];
  processed_events = [];
  user_preference_weights = [];
  recommendations = [];
  recommendation_dismissals = [];
  notification_subscriptions =
      record {
        subscription_id = "subscription-1";
        user_id = "user-1";
        endpoint = "https://push.example";
        p256dh = "key";
        auth = "auth";
        user_agent = none;
        active = true;
      }
      ∷ [];
  notification_deliveries = [];
}
