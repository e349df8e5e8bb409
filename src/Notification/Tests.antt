-- ===== src/Notification/Tests.antt =====
-- A window across midnight and runs of `deliver`, `Register` and `Revoke`, and the theorems at them.
use spacetime_node.Prelude.{◌≡◌, refl, true, some, arith}
use spacetime_node.Prelude.Text.{codes}
use spacetime_node.Platform.Result.{ok, Result}
use spacetime_node.Platform.Database.{Db, SubscriptionRow}
use spacetime_node.Platform.Outbox.{enqueue}
use spacetime_node.Notification.Window.{
  Zones, parse_minute, parse_hhmm, within_notification_window, on_circle,
  within_notification_window-circle,
}
use spacetime_node.Notification.Deliver.{
  Created, PushPayload, PushProvider, refused, is_inactive, push_failure_code, insert_delivery_row,
  enqueue_notification_event,
}
use spacetime_node.Notification.Push.{deactivate, announce, record_push, push_one, push_all}
use spacetime_node.Prelude.{any, ◌&&◌, false}
use spacetime_node.Prelude.Text.{trim_space, drop_space, is_space}
use spacetime_node.Platform.Result.{err}
use spacetime_node.User.{valid_user_id_hash}
use spacetime_node.Notification.Subscription.{
  Registration, Subscription, register, is_subscription_of, revoke,
}
use spacetime_node.Notification.Consent.{revoke-inactive}
use spacetime_node.Fixtures.{healthy, shop, rider_hash}

-- it is half past one at night everywhere
abbrev night : Zones
night timezone now = some 90

from_ten : parse_hhmm (codes "22:00") ≡ some 1320
unfolding parse_hhmm parse_minute
from_ten = refl

till_eight : parse_hhmm (codes "8:00") ≡ some 480
unfolding parse_hhmm parse_minute
till_eight = refl

within_notification_window-circle_example :
    within_notification_window night 50 "Asia/Taipei" "22:00" "8:00" ≡ on_circle 90 1320 480
within_notification_window-circle_example =
    within_notification_window-circle night 50 "Asia/Taipei" "22:00" "8:00"
      (λ z n t h. ground arith) refl from_ten till_eight

abbrev created : Created
created = record {
  trace_id = "trace-1";
  journey_id = "journey-1";
  recommendation_id = "recommendation-1";
  user_id_hash = rider_hash;
  offer_id = "offer-coffee-xinyi";
}

abbrev sample_payload : PushPayload
sample_payload = record {
  title = "A coffee";
  body = "Near your stop";
  recommendation_id = "recommendation-1";
  offer_id = "offer-coffee-xinyi";
}

-- the subscription is gone
abbrev gone_provider : PushProvider
gone_provider subscription payload = refused (some 410)

or_shop : Result Db → Db
or_shop (ok db) = db
or_shop _ = shop

notified : Db
notified = or_shop (
    push_all healthy gone_provider created "user-1" sample_payload shop.notification_subscriptions
      shop)

push_run : Db → Result Db
unfolding push_all push_one record_push deactivate is_inactive push_failure_code insert_delivery_row
    enqueue_notification_event enqueue announce notified or_shop
push_run db =
    push_all healthy gone_provider created "user-1" sample_payload shop.notification_subscriptions
      db

-- the endpoint of the subscription in the shop, with other keys
abbrev registration : Registration
registration = record {
  user_id_hash = rider_hash;
  endpoint = "https://push.example";
  p256dh = "key-2";
  auth = "auth-2";
  user_agent = " browser ";
}

or_shop_of : Result (Subscription × Db) → Db
or_shop_of (ok (s, db)) = db
or_shop_of (err e) = shop

registered : Db
registered = or_shop_of (register healthy registration shop)

abbrev first_subscription : Subscription
first_subscription = record { id = "subscription-1"; active = true; channel = "demo" }

revoked : Db
revoked = or_shop_of (revoke healthy rider_hash "subscription-1" shop)

revocation_taken :
    revoke healthy rider_hash "subscription-1" shop
    ≡ ok (record first_subscription { active = false }, revoked)
unfolding revoke valid_user_id_hash trim_space drop_space is_space or_shop_of revoked
revocation_taken = refl

revoke-inactive_example :
    any
      (λ (r : SubscriptionRow).
        is_subscription_of revoked rider_hash "subscription-1" r && r.active)
      revoked.notification_subscriptions
    ≡ false
revoke-inactive_example = revoke-inactive healthy rider_hash "subscription-1" shop revocation_taken
