-- ===== src/Notification/Consent.antt =====
-- internal/notification/service.go: the subscription after `Register` and after `Revoke`.
use spacetime_node.Prelude.{
  ◌≡◌, refl, String, Bool, true, false, some, List, [], ◌∷◌, ◌&&◌, any, arith, Bool-cases, inl, inr,
}
use spacetime_node.Prelude.Table.{find, update_where}
use spacetime_node.Platform.Env.{Env, update_subscription, subscription_id}
use spacetime_node.Platform.Result.{ok, subscription_not_found, >>=-ok, fail_if-ok}
use spacetime_node.Platform.Database.{Db, SubscriptionRow}
use spacetime_node.Redemption.Rows.{or_error}
use spacetime_node.Notification.Subscription.{
  Registration, Subscription, has_endpoint, is_subscription_of, is_invalid_revoke, revoke,
}

-- the subscription of a user at an endpoint is active and has the keys of the registration
pub record IsRegistered (q : Registration) (user_id : String) (id : String) (db : Db) : Type 0 where
  pub row : SubscriptionRow
  pub found : find (has_endpoint user_id q.endpoint) db.notification_subscriptions ≡ some row
  pub named : row.subscription_id ≡ id
  pub active : row.active ≡ true
  pub key : row.p256dh ≡ q.p256dh
  pub secret : row.auth ≡ q.auth

any-switched_off :
    (p : SubscriptionRow → Bool) (xs : List SubscriptionRow)
    → ((s : SubscriptionRow) → p (record s { active = false }) ≡ p s)
    → any
        (λ (s : SubscriptionRow). p s && s.active)
        (update_where p (λ (s : SubscriptionRow). record s { active = false }) xs)
      ≡ false
any-switched_off p [] h = refl
any-switched_off p (x ∷ xs) h =
    let rest = any-switched_off p xs h in
    elim (Bool-cases (p x)) [
      | inl mine ↦ rw (mine, h x, mine, rest) refl
      | inr other ↦ rw (other, other, rest) refl
    ]

-- After a Revoke that returns, no subscription with the id that belongs to the user is active.
pub revoke-inactive :
    (env : Env) (user_id_hash id : String) (db : Db) {s : Subscription} {db' : Db}
    → revoke env user_id_hash id db ≡ ok (s, db')
    → any
        (λ (r : SubscriptionRow). is_subscription_of db' user_id_hash id r && r.active)
        db'.notification_subscriptions
      ≡ false
unfolding revoke
revoke-inactive env user_id_hash id db {s} {db'} e =
    let p = is_subscription_of db user_id_hash id in
    let (_, e₁) = fail_if-ok (is_invalid_revoke user_id_hash id) _ _ e in
    let (_, e₂) = fail_if-ok (env.fails (update_subscription id)) _ _ e₁ in
    let (row, _, e₃) =
      >>=-ok (or_error subscription_not_found (find p db.notification_subscriptions)) _ e₂ in
    let same : db' ≡ record db {
      notification_subscriptions =
          update_where p (λ (r : SubscriptionRow). record r { active = false })
            db.notification_subscriptions;
    } =
      ground arith in
    rw same (any-switched_off p db.notification_subscriptions (λ r. refl))
