-- ===== src/Redemption/Create.antt =====
-- internal/redemption/service.go, `Create`. A transaction is a function from the database to a
-- result with the new database; `settle` rolls back what failed.
use spacetime_node.Prelude.{
  ℕ, ◌-◌, Bool, Option, none, some, ◌&&◌, ◌||◌, not, ◌==◌, ltb, nat_eq, any,
}
use spacetime_node.Platform.Env.{Env, begin_tx, commit_tx, select_journey, select_redeemed}
use spacetime_node.Platform.Result.{
  Result, ok, unavailable, invalid_request, journey_not_found, offer_unavailable,
  offer_already_redeemed, insufficient_points, idempotency_key_conflict, ◌>>=◌, ◌>>◌, fail_if,
  settle,
}
use spacetime_node.Platform.Database.{Db, UserRow, JourneyRow, RedemptionRow}
use spacetime_node.Recommendation.Feedback.{apply_preference_feedback}
use spacetime_node.Redemption.Rows.{
  CreateRequest, Redemption, view, redeems, lock_user_row, existing_redemption, lock_stock_row,
  new_redemption, insert_redemption_row, update_balance_row, update_stock_row, insert_ledger_row,
  enqueue_succeeded_event,
}

-- the statements that write, in their order, and the commit
unfoldable pub write_redemption : Env → CreateRequest → UserRow → ℕ → Db → Result (Redemption × Db)
write_redemption env req user points_cost db = do
  let row = new_redemption env req user points_cost
  let balance = user.point_balance - points_cost
  db₁ ← insert_redemption_row env row db
  db₂ ← update_balance_row env user.user_id balance db₁
  db₃ ← update_stock_row env row.offer_id db₂
  db₄ ← insert_ledger_row env user.user_id row.redemption_id points_cost balance db₃
  db₅ ← apply_preference_feedback env req.user_id_hash row.offer_id "redemption.succeeded.v1" db₄
  db₆ ← enqueue_succeeded_event env req row db₅
  fail_if (env.fails commit_tx) (unavailable commit_tx)
  ok (view row, db₆)

-- the tests on a key that is new
unfoldable pub create_new : Env → CreateRequest → UserRow → Db → Result (Redemption × Db)
create_new env req user db = do
  fail_if (env.fails select_journey) (unavailable select_journey)
  fail_if
      (not (
        any (λ (j : JourneyRow). j.journey_id == req.journey_id && j.user_id == user.user_id)
          db.journeys))
      journey_not_found
  fail_if (env.fails select_redeemed) (unavailable select_redeemed)
  fail_if (any (redeems user.user_id req.offer_id) db.redemptions) offer_already_redeemed
  stock ← lock_stock_row env req.offer_id db
  fail_if (nat_eq stock.available_quantity 0) offer_unavailable
  fail_if (ltb user.point_balance stock.points_cost) insufficient_points
  write_redemption env req user stock.points_cost db

-- a key that was used before returns what it made, or conflicts
unfoldable pub replay : Env → CreateRequest → RedemptionRow → Db → Result (Redemption × Db)
replay env req r db = do
  fail_if (not (r.journey_id == req.journey_id && r.offer_id == req.offer_id))
      idempotency_key_conflict
  fail_if (env.fails commit_tx) (unavailable commit_tx)
  ok (view r, db)

unfoldable pub create_or_replay :
    Env → CreateRequest → UserRow → Option RedemptionRow → Db → Result (Redemption × Db)
create_or_replay env req user (some r) db = replay env req r db
create_or_replay env req user none db = create_new env req user db

abbrev pub lacks_field : CreateRequest → Bool
lacks_field req =
    req.user_id_hash == ""
    || req.journey_id == ""
    || req.offer_id == ""
    || req.idempotency_key == ""
    || req.trace_id == ""

-- `Create`, without the rollback
unfoldable pub create_tx : Env → CreateRequest → Db → Result (Redemption × Db)
create_tx env req db = do
  fail_if (lacks_field req) invalid_request
  fail_if (env.fails begin_tx) (unavailable begin_tx)
  user ← lock_user_row env req.user_id_hash db
  existing ← existing_redemption env user.user_id req.idempotency_key db
  create_or_replay env req user existing db

-- `Create`
unfoldable pub create : Env → CreateRequest → Db → Result Redemption × Db
create env req db = settle db (create_tx env req db)
