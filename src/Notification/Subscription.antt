-- ===== src/Notification/Subscription.antt =====
-- internal/notification/service.go, `Register` and `Revoke`.
use spacetime_node.Prelude.{
  ℕ, String, Bool, true, false, not, Option, none, some, List, [], ◌∷◌, ◌&&◌, ◌||◌, ◌==◌,
  if◌then◌else◌, any, leb, nat_eq,
}
use spacetime_node.Prelude.Text.{codes, trim_space, is_empty, byte_length}
use spacetime_node.Prelude.Table.{find, update_where, insert_row}
use spacetime_node.Platform.Env.{Env, update_subscription, upsert_subscription, subscription_id}
use spacetime_node.Platform.Result.{
  Result, ok, err, unavailable, constraint, invalid_subscription, subscription_not_found,
  user_not_found, ◌>>=◌, ◌>>◌, fail_if,
}
use spacetime_node.Platform.Database.{Db, UserRow, SubscriptionRow}
use spacetime_node.Redemption.Rows.{or_error, has_hash}
use spacetime_node.User.{valid_user_id_hash}

-- what a registration gives; the channel is always `demo`
pub record Registration : Type 0 where
  pub user_id_hash : String
  pub endpoint : String
  pub p256dh : String
  pub auth : String
  pub user_agent : String

pub record Subscription : Type 0 where
  pub id : String
  pub active : Bool
  pub channel : String

abbrev starts_with_codes : List ℕ → List ℕ → Bool
starts_with_codes [] cs = true
starts_with_codes (p ∷ ps) [] = false
starts_with_codes (p ∷ ps) (c ∷ cs) = nat_eq p c && starts_with_codes ps cs

-- `validEndpoint`
unfoldable pub valid_endpoint : String → Bool
valid_endpoint value =
    let trimmed = trim_space (codes value) in
    starts_with_codes (codes "https://") trimmed && leb (byte_length trimmed) 2048

abbrev is_blank : String → Bool
is_blank s = is_empty (trim_space (codes s))

abbrev pub is_invalid_registration : Registration → Bool
is_invalid_registration q =
    not (valid_user_id_hash q.user_id_hash)
    || not (valid_endpoint q.endpoint)
    || is_blank q.p256dh
    || is_blank q.auth

abbrev pub has_endpoint : String → String → SubscriptionRow → Bool
has_endpoint user_id endpoint s = s.user_id == user_id && s.endpoint == endpoint

-- `NULLIF($5, '')` of the trimmed text
abbrev agent_of : Registration → Option (List ℕ)
agent_of q =
    let trimmed = trim_space (codes q.user_agent) in if is_empty trimmed then none else some trimmed

-- DO UPDATE SET ...
abbrev pub renewed : Registration → SubscriptionRow → SubscriptionRow
renewed q s = record s { p256dh = q.p256dh; auth = q.auth; user_agent = agent_of q; active = true }

abbrev pub new_subscription : Env → Registration → String → SubscriptionRow
new_subscription env q user_id = record {
  subscription_id = env.uuid subscription_id;
  user_id = user_id;
  endpoint = q.endpoint;
  p256dh = q.p256dh;
  auth = q.auth;
  user_agent = agent_of q;
  active = true;
}

-- INSERT ... ON CONFLICT (user_id, endpoint) DO UPDATE ... RETURNING, by whether the pair is there
unfoldable pub upsert_subscription_row :
    Env → Registration → String → Option SubscriptionRow → Db → Result (String × Db)
upsert_subscription_row env q user_id (some s) db = ok (
  s.subscription_id,
  record db {
    notification_subscriptions =
        update_where (has_endpoint user_id q.endpoint) (renewed q) db.notification_subscriptions;
  },
)
upsert_subscription_row env q user_id none db =
    if any (λ (s : SubscriptionRow). s.subscription_id == env.uuid subscription_id)
      db.notification_subscriptions
    then err constraint
    else ok (
      env.uuid subscription_id,
      record db {
        notification_subscriptions =
            insert_row (new_subscription env q user_id) db.notification_subscriptions;
      },
    )

-- `Register`, one statement
unfoldable pub register : Env → Registration → Db → Result (Subscription × Db)
register env q db = do
  fail_if (is_invalid_registration q) invalid_subscription
  fail_if (env.fails upsert_subscription) (unavailable upsert_subscription)
  u ← or_error user_not_found (find (has_hash q.user_id_hash) db.users)
  row ←
      upsert_subscription_row env q u.user_id
        (find (has_endpoint u.user_id q.endpoint) db.notification_subscriptions) db
  ok (record { id = row.0; active = true; channel = "demo" }, row.1)

abbrev pub is_subscription_of : Db → String → String → SubscriptionRow → Bool
is_subscription_of db user_id_hash id s =
    s.subscription_id == id
    && any (λ (u : UserRow). s.user_id == u.user_id && u.user_id_hash == user_id_hash) db.users

abbrev pub is_invalid_revoke : String → String → Bool
is_invalid_revoke user_id_hash id = not (valid_user_id_hash user_id_hash) || is_blank id

-- `Revoke`, one statement
unfoldable pub revoke : Env → String → String → Db → Result (Subscription × Db)
revoke env user_id_hash id db = do
  fail_if (is_invalid_revoke user_id_hash id) invalid_subscription
  fail_if (env.fails (update_subscription id)) (unavailable (update_subscription id))
  s ←
      or_error subscription_not_found
        (find (is_subscription_of db user_id_hash id) db.notification_subscriptions)
  ok (
    record { id = s.subscription_id; active = false; channel = "demo" },
    record db {
      notification_subscriptions =
          update_where (is_subscription_of db user_id_hash id)
            (λ (r : SubscriptionRow). record r { active = false }) db.notification_subscriptions;
    },
  )
