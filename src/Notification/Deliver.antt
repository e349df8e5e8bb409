-- ===== src/Notification/Deliver.antt =====
-- internal/notification/worker.go, `deliver`, with `LoadUserSettings` and `requiredWindow` of
-- internal/notification/service.go. The push provider is an argument.
use spacetime_node.Prelude.{
  ℕ, ◌+◌, String, Bool, false, Option, none, some, List, [], ◌∷◌, ◌&&◌, ◌||◌, not, ◌==◌,
  if◌then◌else◌, any, select, zero, suc, ltb, nat_eq,
}
use Prim.Native.Nat.{◌/◌, ◌%◌}
use Prim.Native.String
use spacetime_node.Prelude.Table.{insert_row}
use spacetime_node.Platform.Env.{Env, insert_delivery, notification_id, notification_event}
use spacetime_node.Platform.Result.{Result, ok, unavailable, constraint, ◌>>◌, fail_if}
use spacetime_node.Platform.Event.{Envelope, at, text, event}
use spacetime_node.Platform.Database.{
  Db, UserRow, JourneyRow, RecommendationRow, SubscriptionRow, DeliveryRow,
}
use spacetime_node.Platform.Outbox.{enqueue}
use spacetime_node.Notification.Window.{Zones, within_notification_window}

-- what `deliver` reads of a `RecommendationCreatedEvent`
pub record Created : Type 0 where
  pub trace_id : String
  pub journey_id : String
  pub recommendation_id : String
  pub user_id_hash : String
  pub offer_id : String

pub record PushSubscription : Type 0 where
  pub id : String
  pub endpoint : String
  pub p256dh : String
  pub auth : String

-- the JSON document that is pushed
pub record PushPayload : Type 0 where
  pub title : String
  pub body : String
  pub recommendation_id : String
  pub offer_id : String

-- The answer of `PushProvider.Send`: a status, or an error, with the `StatusCode` of a
-- `PushDeliveryError`.
pub data Push : Type 0 where
  pushed : String → Push
  refused : Option ℕ → Push

abbrev pub PushProvider : Type 0
PushProvider = PushSubscription → PushPayload → Push

-- `deterministicProvider`
abbrev pub deterministic_provider : PushProvider
deterministic_provider subscription payload = pushed "delivered"

-- `IsInactiveSubscriptionError`
unfoldable pub is_inactive : Option ℕ → Bool
is_inactive none = false
is_inactive (some code) = nat_eq code 404 || nat_eq code 410

abbrev digit : ℕ → String
digit d = Prim.Native.String.slice "0123456789" d (d + 1)

-- `%d`; a number has no more digits than its value, and one for zero
abbrev digits : ℕ → ℕ → String
digits zero n = ""
digits (suc fuel) n =
    let rest = digits fuel (n / 10) in
    if ltb n 10 then digit n else Prim.Native.String.◌++◌ rest (digit (n % 10))

-- `PushFailureCode`
unfoldable pub push_failure_code : Option ℕ → String
push_failure_code none = "provider_error"
push_failure_code (some code) =
    if ltb 0 code
    then Prim.Native.String.◌++◌ "http_" (digits (suc code) code)
    else "provider_error"

abbrev pub or_empty : Option String → String
or_empty none = ""
or_empty (some s) = s

-- `requiredWindow(settings) != nil`, for settings that are enabled
abbrev pub lacks_window : UserRow → Bool
lacks_window u =
    u.notifications_enabled
    && (u.timezone == ""
        || or_empty u.notification_start_local == ""
        || or_empty u.notification_end_local == "")

-- the test before the subscriptions are read
unfoldable pub is_due : Zones → ℕ → UserRow → Bool
is_due zones now u =
    u.notifications_enabled
    && not (lacks_window u)
    && within_notification_window zones now u.timezone (or_empty u.notification_start_local)
        (or_empty u.notification_end_local)

abbrev pub is_recommendation : String → RecommendationRow → Bool
is_recommendation id r = r.recommendation_id == id

abbrev pub is_active_of : String → SubscriptionRow → Bool
is_active_of user_id s = s.user_id == user_id && s.active

-- the rows of the query: the active subscriptions, if the recommendation is there
unfoldable pub subscriptions_of : String → Option RecommendationRow → Db → List SubscriptionRow
subscriptions_of user_id none db = []
subscriptions_of user_id (some r) db = select (is_active_of user_id) db.notification_subscriptions

abbrev pub is_delivery : String → String → DeliveryRow → Bool
is_delivery subscription_id recommendation_id d =
    d.subscription_id == subscription_id && d.recommendation_id == recommendation_id

abbrev pub is_status : String → Bool
is_status s = s == "sent" || s == "delivered" || s == "failed"

abbrev pub delivery_row : Env → Created → String → String → String → DeliveryRow
delivery_row env ev user_id subscription_id status = record {
  notification_id = env.uuid (notification_id subscription_id);
  subscription_id = subscription_id;
  user_id = user_id;
  journey_id = ev.journey_id;
  recommendation_id = ev.recommendation_id;
  status = status;
  attempts = 1;
}

-- the primary key, the foreign key of the journey and the CHECK of the status
abbrev pub is_refused : Env → Created → String → String → Db → Bool
is_refused env ev subscription_id status db =
    not (is_status status)
    || any (λ (d : DeliveryRow). d.notification_id == env.uuid (notification_id subscription_id))
        db.notification_deliveries
    || not (any (λ (j : JourneyRow). j.journey_id == ev.journey_id) db.journeys)

-- INSERT INTO notification_deliveries of a pair that has no row
unfoldable pub insert_delivery_row : Env → Created → String → String → String → Db → Result Db
insert_delivery_row env ev user_id subscription_id status db = do
  fail_if (env.fails (insert_delivery subscription_id))
      (unavailable (insert_delivery subscription_id))
  fail_if (is_refused env ev subscription_id status db) constraint
  ok (record db {
    notification_deliveries =
        insert_row (delivery_row env ev user_id subscription_id status) db.notification_deliveries;
  })

-- what an event says of a notification
pub record Notice : Type 0 where
  pub event_type : String
  pub channel : String
  pub provider_name : String
  pub failure_code : String

abbrev pub notice_event : Env → Created → String → Notice → Envelope
notice_event env ev subscription_id n = record {
  event_id = env.uuid (notification_event subscription_id n.event_type);
  event_type = n.event_type;
  schema_version = 1;
  occurred_at = at env.now;
  producer = "notification-worker";
  trace_id = ev.trace_id;
  journey_id = ev.journey_id;
  recommendation_id = ev.recommendation_id;
  user_id_hash = ev.user_id_hash;
  payload =
      ("notification_id", text (env.uuid (notification_id subscription_id)))
      ∷ ("channel", text n.channel)
      ∷ ("provider", text n.provider_name)
      ∷ (if n.failure_code == "" then [] else ("failure_code", text n.failure_code) ∷ []);
}

-- `enqueueNotificationEvent`
unfoldable pub enqueue_notification_event : Env → Created → String → Notice → Db → Result Db
enqueue_notification_event env ev subscription_id n db =
    enqueue env
      (record {
        id = env.uuid (notification_event subscription_id n.event_type);
        topic = n.event_type;
        key = ev.user_id_hash;
        payload = event (notice_event env ev subscription_id n);
      })
      db
