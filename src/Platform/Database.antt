-- ===== src/Platform/Database.antt =====
-- The PostgreSQL tables of migrations/postgres, a row type and a list of rows for each.
-- Amounts and quantities that a CHECK keeps at zero or more are naturals. `NUMERIC(8, 4)` is an
-- integer of ten-thousandths, and a float64 is its bit pattern.
use spacetime_node.Prelude.{ℕ, String, Bool, Option, List}
use spacetime_node.Prelude.Int.{ℤ}
use spacetime_node.Platform.Result.{Error}
use spacetime_node.Platform.Event.{Message}

pub record UserRow : Type 0 where
  pub user_id : String
  pub user_id_hash : String
  pub display_name : String
  pub point_balance : ℕ
  pub favorite_station_ids : List String
  pub preferred_categories : List String
  pub budget_min_points : ℕ
  pub budget_max_points : ℕ
  pub timezone : String
  pub notifications_enabled : Bool
  pub notification_start_local : Option String
  pub notification_end_local : Option String

pub record StationRow : Type 0 where
  pub station_id : String
  pub name_zh : String
  pub line_id : String

pub record OfferRow : Type 0 where
  pub offer_id : String
  pub merchant_id : String
  pub station_id : String
  pub title : String
  pub description : String
  pub category : String
  pub points_cost : ℕ
  pub starts_at : ℕ
  pub ends_at : ℕ
  pub is_active : Bool
  pub content_version : ℕ

pub record InventoryRow : Type 0 where
  pub offer_id : String
  pub available_quantity : ℕ
  pub version : ℕ

pub record JourneyRow : Type 0 where
  pub journey_id : String
  pub user_id : String
  pub station_id : String
  pub line_id : String
  pub position_id : String

pub data Status : Type 0 where
  pending succeeded rejected verified : Status

pub record RedemptionRow : Type 0 where
  pub redemption_id : String
  pub user_id : String
  pub journey_id : String
  pub offer_id : String
  pub idempotency_key : String
  pub status : Status
  pub points_cost : ℕ
  pub merchant_verification_code : String

pub record LedgerRow : Type 0 where
  pub user_id : String
  pub redemption_id : Option String
  pub delta : ℤ
  pub balance_after : ℕ
  pub reason : String

pub record OutboxRow : Type 0 where
  pub event_id : String
  pub topic : String
  pub event_key : String
  pub payload : Message
  pub occurred_at : ℕ
  pub published_at : Option ℕ
  pub publish_attempts : ℕ
  pub last_error : Option Error

pub record ProcessedRow : Type 0 where
  pub consumer_name : String
  pub event_id : String

pub record WeightRow : Type 0 where
  pub user_id : String
  pub category : String
  pub weight : ℤ
  pub click_count : ℕ
  pub dismiss_count : ℕ
  pub redemption_count : ℕ

-- an element of the JSON array `candidate_summary`
pub record CandidateSummary : Type 0 where
  pub offer_id : String
  pub title : String
  pub description : String
  pub station_id : String
  pub points_cost : ℕ
  pub vector_score : ℕ
  pub rule_score : ℕ
  pub eligible : Bool
  pub reasons : List String

pub record RecommendationRow : Type 0 where
  pub recommendation_id : String
  pub journey_id : String
  pub offer_id : String
  pub score : ℕ
  pub reasons : List String
  pub copy_title : String
  pub copy_body : String
  pub copy_tone : String
  pub copy_source : String
  pub candidate_summary : List CandidateSummary
  pub decision_latency_ms : ℕ

pub record DismissalRow : Type 0 where
  pub user_id : String
  pub journey_id : String
  pub recommendation_id : String
  pub offer_id : String

pub record SubscriptionRow : Type 0 where
  pub subscription_id : String
  pub user_id : String
  pub endpoint : String
  pub p256dh : String
  pub auth : String
  pub user_agent : Option (List ℕ)
  pub active : Bool

pub record DeliveryRow : Type 0 where
  pub notification_id : String
  pub subscription_id : String
  pub user_id : String
  pub journey_id : String
  pub recommendation_id : String
  pub status : String
  pub attempts : ℕ

-- Rows of `recommendations` stand newest first, and those of `notification_subscriptions` oldest
-- first, as the queries that order them by `created_at` read them.
pub record Db : Type 0 where
  pub users : List UserRow
  pub stations : List StationRow
  pub offers : List OfferRow
  pub inventory : List InventoryRow
  pub journeys : List JourneyRow
  pub redemptions : List RedemptionRow
  pub points_ledger : List LedgerRow
  pub outbox_events : List OutboxRow
  pub processed_events : List ProcessedRow
  pub user_preference_weights : List WeightRow
  pub recommendations : List RecommendationRow
  pub recommendation_dismissals : List DismissalRow
  pub notification_subscriptions : List SubscriptionRow
  pub notification_deliveries : List DeliveryRow
