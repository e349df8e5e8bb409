-- ===== src/System/Subscriptions.antt =====
-- internal/notification/service.go, `Register` and `Revoke`, keep the tables healthy.
use mathlib.Core.Path.{subst}
use spacetime_node.Prelude.{◌≡◌, String, Option, none, some, arith}
use spacetime_node.Prelude.Table.{find}
use spacetime_node.Platform.Env.{Env, update_subscription, upsert_subscription}
use spacetime_node.Platform.Result.{
  ok, user_not_found, subscription_not_found, settle, >>=-ok, fail_if-ok, ok-state,
}
use spacetime_node.Platform.Database.{Db, SubscriptionRow}
use spacetime_node.Redemption.Rows.{or_error, has_hash}
use spacetime_node.System.Healthy.{IsHealthy, Keeps, Keeps-IsHealthy, settle-IsHealthy}
use spacetime_node.Notification.Subscription.{
  Registration, Subscription, register, revoke, upsert_subscription_row, is_invalid_registration,
  is_invalid_revoke, has_endpoint, is_subscription_of,
}

upsert-Keeps :
    (env : Env) (q : Registration) (user_id : String) (o : Option SubscriptionRow) (db : Db)
    {row : String × Db}
    → upsert_subscription_row env q user_id o db ≡ ok row
    → Keeps db row.1
unfolding upsert_subscription_row
upsert-Keeps env q user_id (some s) db {row} e = record {
  outbox = ground arith;
  redemptions = ground arith;
  weights = ground arith;
}
upsert-Keeps env q user_id none db {row} e = record {
  outbox = ground arith;
  redemptions = ground arith;
  weights = ground arith;
}

register_tx-IsHealthy :
    (env : Env) (q : Registration) (db : Db) (s : Subscription) (db' : Db)
    → IsHealthy db
    → register env q db ≡ ok (s, db')
    → IsHealthy db'
unfolding register
register_tx-IsHealthy env q db s db' h e =
    let (_, e₁) = fail_if-ok (is_invalid_registration q) _ _ e in
    let (_, e₂) = fail_if-ok (env.fails upsert_subscription) _ _ e₁ in
    let (u, _, e₃) =
      >>=-ok (or_error user_not_found (find (has_hash q.user_id_hash) db.users)) _ e₂ in
    let (row, wrote, e₄) =
      >>=-ok
        (upsert_subscription_row env q u.user_id
          (find (has_endpoint u.user_id q.endpoint) db.notification_subscriptions) db)
        _ e₃ in
    subst IsHealthy (ok-state e₄) (Keeps-IsHealthy (upsert-Keeps env q u.user_id _ db wrote) h)

pub register-IsHealthy :
    (env : Env) (q : Registration) (db : Db)
    → IsHealthy db
    → IsHealthy (settle db (register env q db)).1
register-IsHealthy env q db h =
    settle-IsHealthy db (register env q db) (λ s db' e. register_tx-IsHealthy env q db s db' h e) h

revoke_tx-IsHealthy :
    (env : Env) (hash id : String) (db : Db) (s : Subscription) (db' : Db)
    → IsHealthy db
    → revoke env hash id db ≡ ok (s, db')
    → IsHealthy db'
unfolding revoke
revoke_tx-IsHealthy env hash id db s db' h e =
    let (_, e₁) = fail_if-ok (is_invalid_revoke hash id) _ _ e in
    let (_, e₂) = fail_if-ok (env.fails (update_subscription id)) _ _ e₁ in
    let (row, _, e₃) =
      >>=-ok
        (or_error subscription_not_found
          (find (is_subscription_of db hash id) db.notification_subscriptions))
        _ e₂ in
    subst IsHealthy (ok-state e₃)
      (record { emitted = h.emitted; placed = h.placed; bounded = h.bounded })

pub revoke-IsHealthy :
    (env : Env) (hash id : String) (db : Db)
    → IsHealthy db
    → IsHealthy (settle db (revoke env hash id db)).1
revoke-IsHealthy env hash id db h =
    settle-IsHealthy db (revoke env hash id db)
      (λ s db' e. revoke_tx-IsHealthy env hash id db s db' h e) h
