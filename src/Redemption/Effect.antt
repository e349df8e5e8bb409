-- ===== src/Redemption/Effect.antt =====
-- internal/redemption/service.go: the tables after the writing statements of `Create`.
use spacetime_node.Prelude.{ℕ, ◌+◌, ◌-◌, ◌≡◌, ◌≢◌, refl, String, false, any, some, arith, ◌==◌}
use spacetime_node.Prelude.Search.{any-weaker}
use spacetime_node.Prelude.Int.{neg, pos}
use spacetime_node.Prelude.Table.{update_where, insert_row}
use spacetime_node.Platform.Env.{Env, insert_redemption}
use spacetime_node.Platform.Result.{ok, >>=-ok, fail_if-ok}
use spacetime_node.Platform.Database.{Db, UserRow, InventoryRow, RedemptionRow, LedgerRow}
use spacetime_node.Platform.Outbox.{new_row}
use spacetime_node.Platform.Outbox.Enqueue.{enqueue_lem}
use spacetime_node.Platform.Event.{event}
use spacetime_node.Recommendation.Feedback.Frame.{apply_preference_feedback-OnlyWeights}
use spacetime_node.Redemption.Rows.{
  CreateRequest, Redemption, view, has_stock, new_redemption, succeeded_event,
  insert_redemption_row, update_balance_row, update_stock_row, insert_ledger_row,
  enqueue_succeeded_event,
}
use spacetime_node.Redemption.Create.{write_redemption}

abbrev pub pay : ℕ → UserRow → UserRow
pay balance u = record u { point_balance = balance }

abbrev pub take_one : InventoryRow → InventoryRow
take_one i = record i { available_quantity = i.available_quantity - 1; version = i.version + 1 }

abbrev pub spending : UserRow → RedemptionRow → LedgerRow
spending user row = record {
  user_id = user.user_id;
  redemption_id = some row.redemption_id;
  delta = neg (pos row.points_cost);
  balance_after = user.point_balance - row.points_cost;
  reason = "redemption";
}

-- the tables after the writes, `row` being the new redemption
pub record IsCharged (env : Env) (req : CreateRequest) (user : UserRow) (row : RedemptionRow)
    (db db' : Db) : Type 0 where
  pub users :
      db'.users
      ≡ update_where
          (λ (u : UserRow). u.user_id == user.user_id)
          (pay (user.point_balance - row.points_cost))
          db.users
  pub inventory : db'.inventory ≡ update_where (has_stock row.offer_id) take_one db.inventory
  pub redemptions : db'.redemptions ≡ insert_row row db.redemptions
  pub ledger : db'.points_ledger ≡ insert_row (spending user row) db.points_ledger
  pub outbox :
      db'.outbox_events
      ≡ insert_row
          (new_row env (record {
            id = (succeeded_event env req row).event_id;
            topic = "redemption.succeeded.v1";
            key = req.user_id_hash;
            payload = event (succeeded_event env req row);
          }))
          db.outbox_events
  pub offers : db'.offers ≡ db.offers
  pub journeys : db'.journeys ≡ db.journeys
  pub paid : row.points_cost ≢ 0
  pub new_id :
      any (λ (r : RedemptionRow). r.redemption_id == row.redemption_id) db.redemptions ≡ false

pub insert_redemption_row_lem :
    (env : Env) (row : RedemptionRow) (db : Db) {db' : Db}
    → insert_redemption_row env row db ≡ ok db'
    → db' ≡ record db { redemptions = insert_row row db.redemptions }
unfolding insert_redemption_row
insert_redemption_row_lem env row db e = ground arith

insert_redemption_row-new_id :
    (env : Env) (row : RedemptionRow) (db : Db) {db' : Db}
    → insert_redemption_row env row db ≡ ok db'
    → any (λ (r : RedemptionRow). r.redemption_id == row.redemption_id) db.redemptions ≡ false
unfolding insert_redemption_row
insert_redemption_row-new_id env row db e =
    let (_, e₁) = fail_if-ok (env.fails insert_redemption) _ _ e in
    let (unique, _) = fail_if-ok (any _ db.redemptions) _ _ e₁ in
    any-weaker (λ (r : RedemptionRow). r.redemption_id == row.redemption_id) _ db.redemptions
      (λ r same. rw same refl) unique

pub update_balance_row_lem :
    (env : Env) (user_id : String) (balance : ℕ) (db : Db) {db' : Db}
    → update_balance_row env user_id balance db ≡ ok db'
    → db' ≡ record db {
      users = update_where (λ (u : UserRow). u.user_id == user_id) (pay balance) db.users;
    }
unfolding update_balance_row
update_balance_row_lem env user_id balance db e = ground arith

pub update_stock_row_lem :
    (env : Env) (offer_id : String) (db : Db) {db' : Db}
    → update_stock_row env offer_id db ≡ ok db'
    → db' ≡ record db { inventory = update_where (has_stock offer_id) take_one db.inventory }
unfolding update_stock_row
update_stock_row_lem env offer_id db e = ground arith

pub insert_ledger_row_lem :
    (env : Env) (user : UserRow) (row : RedemptionRow) (db : Db) {db' : Db}
    → insert_ledger_row env user.user_id row.redemption_id row.points_cost
        (user.point_balance - row.points_cost)
        db
      ≡ ok db'
    → (row.points_cost ≢ 0)
      × (db' ≡ record db { points_ledger = insert_row (spending user row) db.points_ledger })
unfolding insert_ledger_row
insert_ledger_row_lem env user row db e = ground arith

pub write_redemption-IsCharged :
    (env : Env) (req : CreateRequest) (user : UserRow) (cost : ℕ) (db : Db) {r : Redemption}
    {db' : Db}
    → write_redemption env req user cost db ≡ ok (r, db')
    → (r ≡ view (new_redemption env req user cost))
      × IsCharged env req user (new_redemption env req user cost) db db'
unfolding write_redemption enqueue_succeeded_event
write_redemption-IsCharged env req user cost db {r} {db'} e =
    let row = new_redemption env req user cost in
    let (db₁, e₁, k₁) = >>=-ok _ _ e in
    let (db₂, e₂, k₂) = >>=-ok _ _ k₁ in
    let (db₃, e₃, k₃) = >>=-ok _ _ k₂ in
    let (db₄, e₄, k₄) = >>=-ok _ _ k₃ in
    let (db₅, e₅, k₅) = >>=-ok _ _ k₄ in
    let (db₆, e₆, k₆) = >>=-ok _ _ k₅ in
    ground (
      arith,
      insert_redemption_row_lem env row db e₁,
      insert_redemption_row-new_id env row db e₁,
      update_balance_row_lem env user.user_id (user.point_balance - cost) db₁ e₂,
      update_stock_row_lem env row.offer_id db₂ e₃,
      insert_ledger_row_lem env user row db₃ e₄,
      apply_preference_feedback-OnlyWeights env req.user_id_hash row.offer_id
          "redemption.succeeded.v1" db₄ e₅,
      enqueue_lem env _ db₅ e₆,
    )
