-- ===== src/Redemption/Rows.antt =====
-- internal/redemption/service.go: the requests, and each SQL statement of `Create` as a function.
use spacetime_node.Prelude.{
  ℕ, ◌+◌, ◌-◌, String, Bool, true, false, Option, none, some, [], ◌∷◌, ◌&&◌, ◌||◌, ◌==◌, ltb, leb,
  nat_eq, any,
}
use spacetime_node.Prelude.Int.{pos, neg}
use spacetime_node.Prelude.Table.{find, update_where, insert_row}
use spacetime_node.Platform.Env.{
  Env, lock_user, select_existing, lock_stock, insert_redemption, update_balance, update_stock,
  insert_ledger, redemption_id, verification_code, event_id,
}
use spacetime_node.Platform.Result.{
  Error, Result, ok, err, unavailable, constraint, user_not_found, offer_unavailable, ◌>>=◌, ◌>>◌,
  fail_if,
}
use spacetime_node.Platform.Event.{Envelope, at, text, number, event}
use spacetime_node.Platform.Database.{
  Db, UserRow, OfferRow, InventoryRow, Status, pending, succeeded, rejected, verified,
  RedemptionRow,
}
use spacetime_node.Platform.Outbox.{enqueue}

pub record CreateRequest : Type 0 where
  pub user_id_hash : String
  pub journey_id : String
  pub offer_id : String
  pub idempotency_key : String
  pub trace_id : String

pub record VerifyRequest : Type 0 where
  pub redemption_id : String
  pub merchant_id : String
  pub verification_code : String
  pub trace_id : String

pub record Redemption : Type 0 where
  pub id : String
  pub journey_id : String
  pub offer_id : String
  pub status : Status
  pub points_cost : ℕ
  pub merchant_verification_code : String

abbrev pub or_error {ℓ} : {A : Type ℓ} → Error → Option A → Result A
or_error e none = err e
or_error e (some a) = ok a

-- the columns that the queries scan into a `Redemption`
abbrev pub view : RedemptionRow → Redemption
view r = record {
  id = r.redemption_id;
  journey_id = r.journey_id;
  offer_id = r.offer_id;
  status = r.status;
  points_cost = r.points_cost;
  merchant_verification_code = r.merchant_verification_code;
}

abbrev pub has_hash : String → UserRow → Bool
has_hash h u = u.user_id_hash == h

abbrev pub has_key : String → String → RedemptionRow → Bool
has_key user_id key r = r.user_id == user_id && r.idempotency_key == key

-- status IN ('succeeded', 'verified')
abbrev pub is_redeemed : Status → Bool
is_redeemed pending = false
is_redeemed succeeded = true
is_redeemed rejected = false
is_redeemed verified = true

abbrev pub redeems : String → String → RedemptionRow → Bool
redeems user_id offer_id r = r.user_id == user_id && r.offer_id == offer_id && is_redeemed r.status

abbrev pub has_offer : String → OfferRow → Bool
has_offer offer_id o = o.offer_id == offer_id

abbrev pub has_stock : String → InventoryRow → Bool
has_stock offer_id i = i.offer_id == offer_id

-- is_active AND starts_at <= current_timestamp AND ends_at > current_timestamp
abbrev pub is_current : Env → OfferRow → Bool
is_current env o = o.is_active && leb o.starts_at env.now && ltb env.now o.ends_at

abbrev pub Stock : Type 0
Stock = record { available_quantity : ℕ; points_cost : ℕ }

-- SELECT ... FROM users WHERE user_id_hash = $1 FOR UPDATE
unfoldable pub lock_user_row : Env → String → Db → Result UserRow
lock_user_row env user_id_hash db = do
  fail_if (env.fails lock_user) (unavailable lock_user)
  or_error user_not_found (find (has_hash user_id_hash) db.users)

-- `existingRedemption`
unfoldable pub existing_redemption : Env → String → String → Db → Result (Option RedemptionRow)
existing_redemption env user_id idempotency_key db = do
  fail_if (env.fails select_existing) (unavailable select_existing)
  ok (find (has_key user_id idempotency_key) db.redemptions)

-- the stock of an offer that is on sale now, FOR UPDATE OF inventory
unfoldable pub lock_stock_row : Env → String → Db → Result Stock
lock_stock_row env offer_id db = do
  fail_if (env.fails lock_stock) (unavailable lock_stock)
  offer ←
      or_error offer_unavailable
        (find (λ (o : OfferRow). has_offer offer_id o && is_current env o) db.offers)
  stock ← or_error offer_unavailable (find (has_stock offer_id) db.inventory)
  ok (record { available_quantity = stock.available_quantity; points_cost = offer.points_cost })

abbrev pub new_redemption : Env → CreateRequest → UserRow → ℕ → RedemptionRow
new_redemption env req user points_cost = record {
  redemption_id = env.uuid redemption_id;
  user_id = user.user_id;
  journey_id = req.journey_id;
  offer_id = req.offer_id;
  idempotency_key = req.idempotency_key;
  status = succeeded;
  points_cost = points_cost;
  merchant_verification_code = env.uuid verification_code;
}

-- The INSERT and the unique constraints of the table: the primary key, (user, key), the code, and
-- the index of migration 000013 on (user, offer).
unfoldable pub insert_redemption_row : Env → RedemptionRow → Db → Result Db
insert_redemption_row env row db = do
  fail_if (env.fails insert_redemption) (unavailable insert_redemption)
  fail_if
      (any
        (λ (r : RedemptionRow).
          r.redemption_id == row.redemption_id
          || has_key row.user_id row.idempotency_key r
          || r.merchant_verification_code == row.merchant_verification_code
          || redeems row.user_id row.offer_id r)
        db.redemptions)
      constraint
  ok (record db { redemptions = insert_row row db.redemptions })

unfoldable pub update_balance_row : Env → String → ℕ → Db → Result Db
update_balance_row env user_id balance db = do
  fail_if (env.fails update_balance) (unavailable update_balance)
  ok (record db {
    users =
        update_where (λ (u : UserRow). u.user_id == user_id)
          (λ (u : UserRow). record u { point_balance = balance }) db.users;
  })

unfoldable pub update_stock_row : Env → String → Db → Result Db
update_stock_row env offer_id db = do
  fail_if (env.fails update_stock) (unavailable update_stock)
  ok (record db {
    inventory =
        update_where (has_stock offer_id)
          (λ (i : InventoryRow). record i {
            available_quantity = i.available_quantity - 1;
            version = i.version + 1;
          })
          db.inventory;
  })

-- CHECK (delta <> 0)
unfoldable pub insert_ledger_row : Env → String → String → ℕ → ℕ → Db → Result Db
insert_ledger_row env user_id redeemed_by points_cost balance db = do
  fail_if (env.fails insert_ledger) (unavailable insert_ledger)
  fail_if (nat_eq points_cost 0) constraint
  ok (record db {
    points_ledger =
        insert_row
          (record {
            user_id = user_id;
            redemption_id = some redeemed_by;
            delta = neg (pos points_cost);
            balance_after = balance;
            reason = "redemption";
          })
          db.points_ledger;
  })

-- the event of `enqueueSucceededEvent`
abbrev pub succeeded_event : Env → CreateRequest → RedemptionRow → Envelope
succeeded_event env req r = record {
  event_id = env.uuid event_id;
  event_type = "redemption.succeeded.v1";
  schema_version = 1;
  occurred_at = at env.now;
  producer = "redemption-service";
  trace_id = req.trace_id;
  journey_id = r.journey_id;
  recommendation_id = "";
  user_id_hash = req.user_id_hash;
  payload =
      ("redemption_id", text r.redemption_id)
      ∷ ("offer_id", text r.offer_id)
      ∷ ("points_cost", number r.points_cost)
      ∷ [];
}

unfoldable pub enqueue_succeeded_event : Env → CreateRequest → RedemptionRow → Db → Result Db
enqueue_succeeded_event env req r = enqueue env (record {
  id = env.uuid event_id;
  topic = "redemption.succeeded.v1";
  key = req.user_id_hash;
  payload = event (succeeded_event env req r);
})
