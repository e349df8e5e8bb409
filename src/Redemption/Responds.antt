-- ===== src/Redemption/Responds.antt =====
-- internal/redemption/service.go, `Create` against the abstract shop.
use spacetime_node.Prelude.{ℕ, ◌≡◌, arith, refl, ap, ◌⊎◌, inl, inr, String, some, none, ◌&&◌, ◌==◌}
use spacetime_node.Prelude.Table.{find, Keyed, find-Keyed}
use spacetime_node.Platform.Env.{Env}
use spacetime_node.Platform.Result.{Error, Result, ok, err, Result-cases}
use spacetime_node.Platform.Database.{Db, UserRow}
use spacetime_node.Redemption.Rows.{
  CreateRequest, Redemption, Stock, has_hash, has_key, view, new_redemption,
}
use spacetime_node.Redemption.Create.{create, create_tx}
use spacetime_node.Redemption.Outcome.{Creates, Outcome, create_tx-Outcome}
use spacetime_node.Redemption.Ledger.{id_of}
use spacetime_node.Redemption.Standing.{stands_for, stands_for-redeems}
use spacetime_node.Redemption.Abstract.{
  Shop, shop_of, Sells, points_paid, stock_taken, redeemed_once, stock_read, users_kept, made_once,
}

sold_row :
    (env : Env) (req : CreateRequest) (user : UserRow) (cost : ℕ) (u o : String)
    → stands_for u o (new_redemption env req user cost) ≡ (user.user_id == u && req.offer_id == o)
sold_row env req user cost u o = ground arith

Creates-Sells :
    (env : Env) (req : CreateRequest) (user : UserRow) (stock : Stock) (db : Db) {r : Redemption}
    {db' : Db}
    → Keyed id_of db.users
    → find (has_hash req.user_id_hash) db.users ≡ some user
    → find (has_key user.user_id req.idempotency_key) db.redemptions ≡ none
    → Creates env req user stock db r db'
    → Sells user.user_id req.idempotency_key
        (view (new_redemption env req user stock.points_cost))
        (shop_of db)
        (shop_of db')
unfolding shop_of
Creates-Sells env req user stock db {r} {db'} k found new c =
    let row = new_redemption env req user stock.points_cost in
    let known = find-Keyed id_of (has_hash req.user_id_hash) db.users k found in
    record {
      fresh = rw (stands_for-redeems user.user_id req.offer_id) c.not_redeemed;
      affordable = rw known c.affordable;
      in_stock = rw (stock_read env req.offer_id db c.on_sale) c.in_stock;
      new_key = rw new refl;
      users = λ hash. rw c.charged.users (users_kept user.user_id _ db.users hash);
      points = λ u. rw c.charged.users (points_paid user stock.points_cost db.users u known);
      stock = λ o. rw c.charged.inventory (stock_taken req.offer_id db.inventory o);
      redeemed = λ u o.
          rw c.charged.redemptions
            (redeemed_once row db.redemptions u o (sold_row env req user stock.points_cost u o));
      made = λ u k. rw c.charged.redemptions (made_once row db.redemptions u k new);
    }

-- What a call does to the abstract shop: an error changes nothing. A redemption is of the journey and
-- the offer of the request, and the key of the request has made it for the user of the request:
-- before, and then nothing changes, or it is one sale to this user.
unfoldable pub Responds : CreateRequest → Result Redemption → Shop → Shop → Type 0
Responds req (err _) a b = b ≡ a
Responds req (ok r) a b =
    (user_id : String) × (a.users req.user_id_hash ≡ some user_id)
    × (r.journey_id ≡ req.journey_id)
    × (r.offer_id ≡ req.offer_id)
    × (((a.made user_id req.idempotency_key ≡ some r) × (b ≡ a))
        ⊎ Sells user_id req.idempotency_key r a b)

nothing_sold :
    (req : CreateRequest) (db : Db) (e : Error) → Responds req (err e) (shop_of db) (shop_of db)
unfolding Responds
nothing_sold req db e = refl

Outcome-Responds :
    (env : Env) (req : CreateRequest) (db : Db) (r : Redemption) (db' : Db)
    → Keyed id_of db.users
    → Outcome env req db r db'
    → Responds req (ok r) (shop_of db) (shop_of db')
unfolding Outcome Responds shop_of
Outcome-Responds env req db r db' k (user, found, inl (row, old, replayed)) = (
  user.user_id,
  rw found refl,
  rw replayed.result replayed.journey,
  rw replayed.result replayed.offer,
  inl (rw (old, replayed.result) refl, ap shop_of replayed.unchanged),
)
Outcome-Responds env req db r db' k (user, found, inr (new, (stock, c))) = (
  user.user_id,
  rw found refl,
  rw c.result refl,
  rw c.result refl,
  inr (rw c.result (Creates-Sells env req user stock db k found new c)),
)

-- Create refines an abstract shop of users, points, stock, redeemed offers and what each key of a
-- user has made, if user ids are unique: an error leaves the shop as it is. A redemption is of the
-- journey and the offer of the request, and was made before by the key of the request for the user
-- of the request, and then nothing changes, or it is one sale to this user at the price that it
-- states: the user had not redeemed the offer and had the points, there was a piece in stock, and
-- the key was new; the sale takes the points and the piece, marks the offer as redeemed and the
-- redemption as made by the key, and changes nothing for other users, offers and keys.
pub create-Responds :
    (env : Env) (req : CreateRequest) (db : Db)
    → Keyed id_of db.users
    → Responds req (create env req db).0 (shop_of db) (shop_of (create env req db).1)
unfolding create
create-Responds env req db k = elim (Result-cases (create_tx env req db)) [
  | inl ((r, db'), done) ↦
      rw done (Outcome-Responds env req db r db' k (create_tx-Outcome env req db done))
  | inr (e, failed) ↦ rw failed (nothing_sold req db e)
]
