-- ===== src/Redemption/Outcome.antt =====
-- internal/redemption/service.go: the ways in which `Create` returns a redemption.
use spacetime_node.Prelude.{
  leb, ltb, String, ◌≤◌, ◌<◌, ◌≡◌, false, true, none, some, arith, eq_iff, Option-cases, any, ◌==◌,
  ◌&&◌, ◌⊎◌, inl, inr,
}
use spacetime_node.Prelude.Table.{find}
use spacetime_node.Platform.Env.{Env}
use spacetime_node.Platform.Result.{ok, Result-cases}
use spacetime_node.Platform.Database.{
  Db, UserRow, OfferRow, InventoryRow, JourneyRow, RedemptionRow,
}
use spacetime_node.Redemption.Rows.{
  CreateRequest, Redemption, Stock, view, has_hash, has_key, has_offer, has_stock, is_current,
  redeems, new_redemption, lock_user_row, existing_redemption, lock_stock_row,
}
use spacetime_node.Redemption.Create.{
  create_tx, create_or_replay, create_new, write_redemption, replay,
}
use spacetime_node.Redemption.Effect.{IsCharged, write_redemption-IsCharged}

pub record Replays (req : CreateRequest) (row : RedemptionRow) (db : Db) (r : Redemption) (db' : Db)
    : Type 0 where
  pub result : r ≡ view row
  pub unchanged : db' ≡ db
  pub journey : row.journey_id ≡ req.journey_id
  pub offer : row.offer_id ≡ req.offer_id

-- the rows behind the stock that was locked: the offer is active and its time has come and is not over
pub record IsOnSale (env : Env) (offer_id : String) (stock : Stock) (db : Db) : Type 0 where
  offer : OfferRow
  row : InventoryRow
  listed :
      find
        (λ (o : OfferRow).
          o.offer_id == offer_id
          && (o.is_active && leb o.starts_at env.now && ltb env.now o.ends_at))
        db.offers
      ≡ some offer
  stocked : find (λ (i : InventoryRow). i.offer_id == offer_id) db.inventory ≡ some row
  priced : stock.points_cost ≡ offer.points_cost
  counted : stock.available_quantity ≡ row.available_quantity

lock_stock_row-IsOnSale :
    (env : Env) (offer_id : String) (db : Db) {stock : Stock}
    → lock_stock_row env offer_id db ≡ ok stock
    → IsOnSale env offer_id stock db
unfolding lock_stock_row
lock_stock_row-IsOnSale env offer_id db {stock} e =
    elim (Option-cases
      (find (λ (o : OfferRow). has_offer offer_id o && is_current env o) db.offers)) [
        | inl unlisted ↦ absurd (ground arith)
        | inr (o, listed) ↦ elim (Option-cases (find (has_stock offer_id) db.inventory)) [
          | inl missing ↦ absurd (ground arith)
          | inr (i, stocked) ↦ record {
            offer = o;
            row = i;
            listed = listed;
            stocked = stocked;
            priced = ground arith;
            counted = ground arith;
          }
        ]
      ]

pub record Creates (env : Env) (req : CreateRequest) (user : UserRow) (stock : Stock) (db : Db)
    (r : Redemption) (db' : Db) : Type 0 where
  pub known_journey :
      any
        (λ (j : JourneyRow). j.journey_id == req.journey_id && j.user_id == user.user_id)
        db.journeys
      ≡ true
  pub not_redeemed : any (redeems user.user_id req.offer_id) db.redemptions ≡ false
  pub on_sale : lock_stock_row env req.offer_id db ≡ ok stock
  pub for_sale : IsOnSale env req.offer_id stock db
  pub in_stock : 0 < stock.available_quantity
  pub affordable : stock.points_cost ≤ user.point_balance
  pub result : r ≡ view (new_redemption env req user stock.points_cost)
  pub charged : IsCharged env req user (new_redemption env req user stock.points_cost) db db'

replay-Replays :
    (env : Env) (req : CreateRequest) (row : RedemptionRow) (db : Db) {r : Redemption} {db' : Db}
    → replay env req row db ≡ ok (r, db')
    → Replays req row db r db'
unfolding replay
replay-Replays env req row db e =
    ground (arith, eq_iff row.journey_id req.journey_id, eq_iff row.offer_id req.offer_id)

create_new-Creates :
    (env : Env) (req : CreateRequest) (user : UserRow) (db : Db) {r : Redemption} {db' : Db}
    → create_new env req user db ≡ ok (r, db')
    → (stock : Stock) × Creates env req user stock db r db'
unfolding create_new
create_new-Creates env req user db {r} {db'} e =
    elim (Result-cases (lock_stock_row env req.offer_id db)) [
      | inr (_, failed) ↦ absurd (ground arith)
      | inl (stock, e₅) ↦
          let k : write_redemption env req user stock.points_cost db ≡ ok (r, db') = ground arith in
          let w = write_redemption-IsCharged env req user stock.points_cost db k in
          (
            stock,
            record {
              known_journey = ground arith;
              not_redeemed = ground arith;
              on_sale = e₅;
              for_sale = lock_stock_row-IsOnSale env req.offer_id db e₅;
              in_stock = ground arith;
              affordable = ground arith;
              result = w.0;
              charged = w.1;
            },
          )
    ]

-- The two ways in which a call returns a redemption.
unfoldable pub Outcome : Env → CreateRequest → Db → Redemption → Db → Type 0
Outcome env req db r db' =
    (user : UserRow) × (find (has_hash req.user_id_hash) db.users ≡ some user)
    × (((row : RedemptionRow) × (find (has_key user.user_id req.idempotency_key) db.redemptions
            ≡ some row)
          × Replays req row db r db')
        ⊎ ((find (has_key user.user_id req.idempotency_key) db.redemptions ≡ none)
            × ((stock : Stock) × Creates env req user stock db r db')))

-- A call of Create that returns a redemption has either found its idempotency key and returned that
-- row with the database unchanged, or found a new key, passed every test (journey, earlier
-- redemption, sale window, stock, points) and written the balance, the stock, the redemption, the
-- ledger entry and the event.
pub create_tx-Outcome :
    (env : Env) (req : CreateRequest) (db : Db) {r : Redemption} {db' : Db}
    → create_tx env req db ≡ ok (r, db')
    → Outcome env req db r db'
unfolding create_tx lock_user_row existing_redemption create_or_replay Outcome
create_tx-Outcome env req db {r} {db'} e =
    elim (Option-cases (find (has_hash req.user_id_hash) db.users)) [
      | inl missing ↦ absurd (ground arith)
      | inr (user, found) ↦
          elim (Option-cases (find (has_key user.user_id req.idempotency_key) db.redemptions)) [
            | inl fresh ↦
                (user, found, inr (fresh, create_new-Creates env req user db (ground arith)))
            | inr (row, old) ↦
                (user, found, inl (row, old, replay-Replays env req row db (ground arith)))
          ]
    ]
