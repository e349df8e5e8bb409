-- ===== src/Notification/Push.antt =====
-- internal/notification/worker.go, `deliver`: the loop over the subscriptions, and the whole.
use spacetime_node.Prelude.{
  ℕ, String, Bool, true, false, Option, none, some, List, [], ◌∷◌, ◌==◌, if◌then◌else◌, any,
}
use spacetime_node.Prelude.Table.{find, update_where}
use spacetime_node.Platform.Env.{
  Env, select_settings, select_subscriptions, select_delivery, update_subscription,
}
use spacetime_node.Platform.Result.{Result, ok, unavailable, user_not_found, ◌>>=◌, ◌>>◌, fail_if}
use spacetime_node.Platform.Database.{Db, RecommendationRow, SubscriptionRow}
use spacetime_node.Redemption.Rows.{or_error, has_hash}
use spacetime_node.Notification.Window.{Zones}
use spacetime_node.Notification.Deliver.{
  Created, PushSubscription, PushPayload, Push, pushed, refused, PushProvider, is_inactive,
  push_failure_code, is_due, is_recommendation, subscriptions_of, is_delivery, insert_delivery_row,
  enqueue_notification_event,
}

-- SET active = false
abbrev pub switched_off : String → Db → Db
switched_off subscription_id db = record db {
  notification_subscriptions =
      update_where (λ (s : SubscriptionRow). s.subscription_id == subscription_id)
        (λ (s : SubscriptionRow). record s { active = false }) db.notification_subscriptions;
}

unfoldable pub deactivate : Env → String → Option ℕ → Db → Result Db
deactivate env subscription_id code db =
    if is_inactive code
    then (do
      fail_if (env.fails (update_subscription subscription_id))
          (unavailable (update_subscription subscription_id))
      ok (switched_off subscription_id db))
    else ok db

-- the event of a delivery, and of what the demo provider has delivered at once a second one
unfoldable pub announce : Env → Created → String → Bool → Db → Result Db
announce env ev subscription_id true db = do
  db₁ ←
      enqueue_notification_event env ev subscription_id
        (record {
          event_type = "notification.sent.v1";
          channel = "demo";
          provider_name = "deterministic-mock";
          failure_code = "";
        })
        db
  enqueue_notification_event env ev subscription_id
      (record {
        event_type = "notification.delivered.v1";
        channel = "demo";
        provider_name = "deterministic-mock";
        failure_code = "";
      })
      db₁
announce env ev subscription_id false db =
    enqueue_notification_event env ev subscription_id
      (record {
        event_type = "notification.sent.v1";
        channel = "push";
        provider_name = "webpush";
        failure_code = "";
      })
      db

-- the branches on the answer of `Send`
unfoldable pub record_push : Env → Created → String → String → Push → Db → Result Db
record_push env ev user_id subscription_id (refused code) db = do
  db₁ ← deactivate env subscription_id code db
  db₂ ← insert_delivery_row env ev user_id subscription_id "failed" db₁
  enqueue_notification_event env ev subscription_id
      (record {
        event_type = "notification.failed.v1";
        channel = "push";
        provider_name = "webpush";
        failure_code = push_failure_code code;
      })
      db₂
record_push env ev user_id subscription_id (pushed status) db = do
  db₁ ← insert_delivery_row env ev user_id subscription_id status db
  announce env ev subscription_id (status == "delivered") db₁

abbrev pub push_payload : Created → RecommendationRow → PushPayload
push_payload ev r = record {
  title = r.copy_title;
  body = r.copy_body;
  recommendation_id = ev.recommendation_id;
  offer_id = ev.offer_id;
}

abbrev pub push_subscription : SubscriptionRow → PushSubscription
push_subscription s = record {
  id = s.subscription_id;
  endpoint = s.endpoint;
  p256dh = s.p256dh;
  auth = s.auth;
}

-- one round of the loop: a subscription with a delivery is passed over
unfoldable pub push_one :
    Env → PushProvider → Created → String → PushPayload → SubscriptionRow → Db → Result Db
push_one env provider ev user_id payload s db = do
  fail_if (env.fails (select_delivery s.subscription_id))
      (unavailable (select_delivery s.subscription_id))
  if any (is_delivery s.subscription_id ev.recommendation_id) db.notification_deliveries
      then ok db
      else record_push env ev user_id s.subscription_id (provider (push_subscription s) payload) db

unfoldable pub push_all :
    Env → PushProvider → Created → String → PushPayload → List SubscriptionRow → Db → Result Db
push_all env provider ev user_id payload [] db = ok db
push_all env provider ev user_id payload (s ∷ rest) db = do
  db₁ ← push_one env provider ev user_id payload s db
  push_all env provider ev user_id payload rest db₁

-- the payload of the joined recommendation; without one there is no row
abbrev no_copy : Created → PushPayload
no_copy ev = record {
  title = "";
  body = "";
  recommendation_id = ev.recommendation_id;
  offer_id = ev.offer_id;
}

abbrev pub payload_of : Created → Option RecommendationRow → PushPayload
payload_of ev none = no_copy ev
payload_of ev (some r) = push_payload ev r

-- the body of `deliver` for a user whose window is open
unfoldable pub deliver_due : Env → PushProvider → Created → String → Db → Result Db
deliver_due env provider ev user_id db = do
  fail_if (env.fails select_subscriptions) (unavailable select_subscriptions)
  let r = find (is_recommendation ev.recommendation_id) db.recommendations
  push_all env provider ev user_id (payload_of ev r) (subscriptions_of user_id r db) db

-- `deliver`
unfoldable pub deliver : Env → Zones → PushProvider → Created → Db → Result Db
deliver env zones provider ev db = do
  fail_if (env.fails select_settings) (unavailable select_settings)
  u ← or_error user_not_found (find (has_hash ev.user_id_hash) db.users)
  if is_due zones env.now u then deliver_due env provider ev u.user_id db else ok db
