-- ===== src/Notification/Once.antt =====
-- internal/notification/worker.go, `deliver`: the deliveries that its loop writes.
use spacetime_node.Prelude.{◌≡◌, String, Bool, true, any}
use spacetime_node.Platform.Env.{Env}
use spacetime_node.Platform.Database.{Db, SubscriptionRow}
use spacetime_node.Notification.Deliver.{Created, Push, is_delivery}

abbrev pub is_delivered : Created → Db → String → Bool
is_delivered ev db subscription_id =
    any (is_delivery subscription_id ev.recommendation_id) db.notification_deliveries

-- what is delivered stays so, and the subscription is delivered to
record Advances (ev : Created) (id : String) (db db' : Db) : Type 0 where
  reached : is_delivered ev db' id ≡ true
  kept : (x : String) → is_delivered ev db x ≡ true → is_delivered ev db' x ≡ true

abbrev IsReached : Created → Db → SubscriptionRow → Type 0
IsReached ev db s = is_delivered ev db s.subscription_id ≡ true
