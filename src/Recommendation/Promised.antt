-- ===== src/Recommendation/Promised.antt =====
-- The rows behind the offer that `Recommend` returns (internal/recommendation/recommendation.go).
use spacetime_node.Prelude.{
  ℕ, ◌≤◌, ◌<◌, ◌≡◌, refl, sym, String, true, false, some, ◌&&◌, ◌==◌, any, arith, inl, inr,
  Bool-cases, Option-cases,
}
use spacetime_node.Prelude.Table.{find}
use spacetime_node.Platform.Env.{Env}
use spacetime_node.Platform.Result.{ok}
use spacetime_node.Platform.Database.{Db, UserRow, OfferRow, InventoryRow}
use spacetime_node.Redemption.Rows.{has_offer, has_stock, redeems}
use spacetime_node.Redemption.Standing.{stands_for, stands_for-redeems}
use spacetime_node.Recommendation.Rules.{Offer}
use spacetime_node.Recommendation.Eligible.{is_open}
use spacetime_node.Recommendation.Recommend.{
  Service, Request, Recommendation, offer_of, select_offer, recommend_tx,
}
use spacetime_node.Recommendation.Outcome.{Recommends, recommend_tx-Recommends}
use spacetime_node.Recommendation.Best.{ranking-IsOpenOffer}

-- the rows behind the offer of a recommendation
record IsSelected (station_id user_id offer_id : String) (item : Offer) (db : Db) : Type 0 where
  offer : OfferRow
  stock : InventoryRow
  not_redeemed : any (redeems user_id offer_id) db.redemptions ≡ false
  sold_here :
      find (λ (o : OfferRow). has_offer offer_id o && o.station_id == station_id) db.offers
      ≡ some offer
  stocked : find (has_stock offer_id) db.inventory ≡ some stock
  same : item ≡ offer_of offer stock

select_offer-IsSelected :
    (station_id user_id offer_id : String) (db : Db) {item : Offer}
    → select_offer station_id user_id db offer_id ≡ some item
    → IsSelected station_id user_id offer_id item db
unfolding select_offer
select_offer-IsSelected station_id user_id offer_id db {item} e =
    let here = λ (o : OfferRow). has_offer offer_id o && o.station_id == station_id in
    elim (Bool-cases (any (redeems user_id offer_id) db.redemptions)) [
      | inl gone ↦ absurd (ground arith)
      | inr new ↦ elim (Option-cases (find here db.offers)) [
        | inl nowhere ↦ absurd (ground arith)
        | inr (o, found) ↦ elim (Option-cases (find (has_stock offer_id) db.inventory)) [
          | inl unstocked ↦ absurd (ground arith)
          | inr (i, held) ↦ record {
            offer = o;
            stock = i;
            not_redeemed = new;
            sold_here = found;
            stocked = held;
            same = ground arith;
          }
        ]
      ]
    ]

open_offer :
    (now balance : ℕ) (o : OfferRow) (i : InventoryRow)
    → is_open now balance (offer_of o i) ≡ true
    → (o.is_active ≡ true)
      × (o.starts_at ≤ now)
      × (now < o.ends_at)
      × (0 < i.available_quantity)
      × (o.points_cost ≤ balance)
open_offer now balance o i h =
    (ground arith, ground arith, ground arith, ground arith, ground arith)

-- what `Recommend` promises of the offer that it returns, by the rows of the tables
pub record Promises (env : Env) (req : Request) (db : Db) (r : Recommendation) : Type 0 where
  pub user : UserRow
  pub offer : OfferRow
  pub stock : InventoryRow
  pub known : find (λ (u : UserRow). u.user_id_hash == req.user_id_hash) db.users ≡ some user
  pub not_redeemed : any (stands_for user.user_id r.offer_id) db.redemptions ≡ false
  pub sold_here :
      find (λ (o : OfferRow). o.offer_id == r.offer_id && o.station_id == req.station_id) db.offers
      ≡ some offer
  pub stocked : find (λ (i : InventoryRow). i.offer_id == r.offer_id) db.inventory ≡ some stock
  pub active : offer.is_active ≡ true
  pub started : offer.starts_at ≤ env.now
  pub not_over : env.now < offer.ends_at
  pub in_stock : 0 < stock.available_quantity
  pub affordable : offer.points_cost ≤ user.point_balance

pub Recommends-Promises :
    (s : Service) (env : Env) (req : Request) (db : Db) {r : Recommendation} {db' : Db}
    → Recommends s env req db r db'
    → Promises env req db r
Recommends-Promises s env req db {r} k =
    let (item, found, sells) =
      ranking-IsOpenOffer s.floats k.preference env.now k.user.point_balance
        (select_offer k.station.station_id k.user.user_id db) k.candidates k.picks in
    let same : r.offer_id ≡ k.chosen.summary.offer_id = rw k.result refl in
    let p =
      select_offer-IsSelected req.station_id k.user.user_id r.offer_id db {item = item}
        (rw (same, sym k.at_station) found) in
    let (active, started, not_over, in_stock, affordable) =
      open_offer env.now k.user.point_balance p.offer p.stock (rw p.same at sells) in
    record {
      user = k.user;
      offer = p.offer;
      stock = p.stock;
      known = k.found;
      not_redeemed = rw (stands_for-redeems k.user.user_id r.offer_id) p.not_redeemed;
      sold_here = p.sold_here;
      stocked = p.stocked;
      active = active;
      started = started;
      not_over = not_over;
      in_stock = in_stock;
      affordable = affordable;
    }

-- The offer of a Recommend that returns has a row at the requested station which is active and in
-- its time, a row in the inventory with a piece in stock, and a price that the balance of the user
-- covers, and the user has no redemption of it that has succeeded or is verified.
pub recommend_tx-Promises :
    (s : Service) (env : Env) (req : Request) (db : Db) {r : Recommendation} {db' : Db}
    → recommend_tx s env req db ≡ ok (r, db')
    → Promises env req db r
recommend_tx-Promises s env req db e =
    Recommends-Promises s env req db (recommend_tx-Recommends s env req db e)
