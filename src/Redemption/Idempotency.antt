-- ===== src/Redemption/Idempotency.antt =====
-- A retry with the same idempotency key (internal/redemption/service.go, `Create`).
use spacetime_node.Prelude.{
  ◌-◌, ◌≡◌, refl, false, none, some, arith, eq_iff, eq_refl, inl, inr, ◌==◌,
}
use spacetime_node.Prelude.Table.{find, find-update_where, find-insert_row}
use spacetime_node.Platform.Env.{Env, begin_tx, commit_tx, lock_user, select_existing}
use spacetime_node.Platform.Result.{ok, settle-ok}
use spacetime_node.Platform.Database.{Db, UserRow, RedemptionRow}
use spacetime_node.Redemption.Rows.{
  CreateRequest, Redemption, Stock, view, has_hash, has_key, new_redemption, lock_user_row,
  existing_redemption,
}
use spacetime_node.Redemption.Create.{create, create_tx, create_or_replay, replay, lacks_field}
use spacetime_node.Redemption.Effect.{pay}
use spacetime_node.Redemption.Outcome.{Creates, Outcome, create_tx-Outcome}

-- The calls that a replay makes do not fail.
pub record CanReplay (env : Env) : Type 0 where
  pub begins : env.fails begin_tx ≡ false
  pub locks : env.fails lock_user ≡ false
  pub selects : env.fails select_existing ≡ false
  pub commits : env.fails commit_tx ≡ false

-- a database that holds the key for this request replays it
replays_held :
    (env : Env) (req : CreateRequest) (db : Db) (user : UserRow) (row : RedemptionRow)
    → CanReplay env
    → lacks_field req ≡ false
    → find (has_hash req.user_id_hash) db.users ≡ some user
    → find (has_key user.user_id req.idempotency_key) db.redemptions ≡ some row
    → row.journey_id ≡ req.journey_id
    → row.offer_id ≡ req.offer_id
    → create env req db ≡ (ok (view row), db)
unfolding create create_tx lock_user_row existing_redemption create_or_replay replay
replays_held env req db user row h l found held j o =
    ground (arith, eq_iff row.journey_id req.journey_id, eq_iff row.offer_id req.offer_id)

create_tx_complete :
    (env : Env) (req : CreateRequest) (db : Db) {r : Redemption} {db' : Db}
    → create_tx env req db ≡ ok (r, db')
    → lacks_field req ≡ false
unfolding create_tx
create_tx_complete env req db e = ground arith

-- the row that a new key has made is found by that key
held_after :
    (env : Env) (req : CreateRequest) (user : UserRow) (stock : Stock) (db : Db) {r : Redemption}
    {db' : Db}
    → find (has_key user.user_id req.idempotency_key) db.redemptions ≡ none
    → Creates env req user stock db r db'
    → find (has_key user.user_id req.idempotency_key) db'.redemptions
      ≡ some (new_redemption env req user stock.points_cost)
held_after env req user stock db fresh c =
    let row = new_redemption env req user stock.points_cost in
    ground (
      arith,
      c.charged.redemptions,
      find-insert_row (has_key user.user_id req.idempotency_key) row db.redemptions,
      eq_refl user.user_id,
      eq_refl req.idempotency_key,
    )

abbrev paid : UserRow → Stock → UserRow
paid user stock = pay (user.point_balance - stock.points_cost) user

found_after :
    (env : Env) (req : CreateRequest) (user : UserRow) (stock : Stock) (db : Db) {r : Redemption}
    {db' : Db}
    → find (has_hash req.user_id_hash) db.users ≡ some user
    → Creates env req user stock db r db'
    → find (has_hash req.user_id_hash) db'.users ≡ some (paid user stock)
found_after env req user stock db found c = ground (
  arith,
  c.charged.users,
  find-update_where (λ (u : UserRow). u.user_id == user.user_id) (has_hash req.user_id_hash)
      (pay (user.point_balance - stock.points_cost)) db.users (λ u. refl),
  eq_refl user.user_id,
)

create-ok :
    (env : Env) (req : CreateRequest) (db : Db) {r : Redemption} {db' : Db}
    → create env req db ≡ (ok r, db')
    → create_tx env req db ≡ ok (r, db')
unfolding create
create-ok env req db e = settle-ok db (create_tx env req db) e

-- A request that has succeeded and is sent again returns the same redemption and leaves the
-- database as it is, at another time and with other random ids, provided the calls that a replay
-- makes do not fail.
pub create-retry :
    (env env' : Env) (req : CreateRequest) (db : Db) {r : Redemption} {db' : Db}
    → CanReplay env'
    → create env req db ≡ (ok r, db')
    → create env' req db' ≡ (ok r, db')
unfolding Outcome
create-retry env env' req db {r} {db'} h e =
    let done = create-ok env req db e in
    retry (create_tx-Outcome env req db done) (create_tx_complete env req db done)
  where
    retry : Outcome env req db r db' → lacks_field req ≡ false → create env' req db' ≡ (ok r, db')
    retry (user, found, inl (row, held, p)) l =
        ground (arith, replays_held env' req db user row h l found held p.journey p.offer)
    retry (user, found, inr (fresh, (stock, c))) l = ground (
      arith,
      replays_held env' req db' (paid user stock) (new_redemption env req user stock.points_cost) h
          l (found_after env req user stock db found c) (held_after env req user stock db fresh c)
          refl refl,
    )
