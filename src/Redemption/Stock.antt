-- ===== src/Redemption/Stock.antt =====
-- The stock of an offer against its redemptions (internal/redemption/service.go, `Create`).
use spacetime_node.Prelude.{
  ℕ, ◌+◌, ◌≤◌, ◌<◌, ◌≡◌, refl, String, Bool, some, Option, arith, eq_iff, ◌==◌, ◌&&◌, inl, inr,
  count_where, count_where-append, count_where-none, Option-cases, ◌∷◌, [],
}
use mathlib.Core.Option
use spacetime_node.Prelude.Table.{find, find-holds, find-update_where, insert_row, update_where}
use spacetime_node.Platform.Env.{Env}
use spacetime_node.Platform.Result.{ok}
use spacetime_node.Platform.Database.{Db, InventoryRow, RedemptionRow, succeeded}
use spacetime_node.Redemption.Rows.{
  CreateRequest, Redemption, Stock, has_stock, is_redeemed, redeems, new_redemption, lock_stock_row,
}
use spacetime_node.Redemption.Standing.{stands_for, stands_for-redeems}
use spacetime_node.Redemption.Create.{create_tx}
use spacetime_node.Redemption.Effect.{take_one}
use spacetime_node.Redemption.Outcome.{Outcome, create_tx-Outcome}

abbrev pub counts_for : String → RedemptionRow → Bool
counts_for offer_id r = r.offer_id == offer_id && is_redeemed r.status

-- the redemptions of an offer that have succeeded, verified ones among them
unfoldable pub redeemed : String → Db → ℕ
redeemed offer_id db = count_where (counts_for offer_id) db.redemptions

-- the units that the offer had before any redemption, if it has a row in `inventory`
unfoldable pub units : String → Db → Option ℕ
unfolding redeemed
units offer_id db =
    Option.map (λ (i : InventoryRow). i.available_quantity + redeemed offer_id db)
      (find (has_stock offer_id) db.inventory)

-- how often a user has redeemed an offer
unfoldable pub redemptions_of : String → String → Db → ℕ
redemptions_of user_id offer_id db = count_where (stands_for user_id offer_id) db.redemptions

stock_row :
    (env : Env) (offer_id : String) (db : Db) (stock : Stock)
    → lock_stock_row env offer_id db ≡ ok stock
    → (i : InventoryRow) × (find (has_stock offer_id) db.inventory ≡ some i)
      × (i.available_quantity ≡ stock.available_quantity)
unfolding lock_stock_row
stock_row env offer_id db stock e = elim (Option-cases (find (has_stock offer_id) db.inventory)) [
  | inl missing ↦ absurd (ground arith)
  | inr (i, found) ↦ (i, found, ground arith)
]

units_after :
    (offer_id : String) (row : RedemptionRow) (db db' : Db) (i : InventoryRow)
    → find (has_stock row.offer_id) db.inventory ≡ some i
    → 0 < i.available_quantity
    → row.status ≡ succeeded
    → db'.inventory ≡ update_where (has_stock row.offer_id) take_one db.inventory
    → db'.redemptions ≡ insert_row row db.redemptions
    → units offer_id db' ≡ units offer_id db
unfolding units
units_after offer_id row db db' i e pos s inv red =
    let seen =
      find-update_where (has_stock row.offer_id) (has_stock offer_id) take_one db.inventory
        (λ x. refl) in
    let more = count_where-append (counts_for offer_id) db.redemptions (row ∷ []) in
    elim (Option-cases (find (has_stock offer_id) db.inventory)) [
      | inl missing ↦ ground (arith, inv, seen)
      | inr (j, found) ↦ ground (
        arith,
        inv,
        red,
        seen,
        more,
        find-holds (has_stock offer_id) db.inventory found,
        eq_iff j.offer_id row.offer_id,
        eq_iff j.offer_id offer_id,
        eq_iff row.offer_id offer_id,
      )
    ]

-- For every offer, the stock and the number of its redemptions together are the same before and
-- after a Create that returns a redemption.
pub create_tx-units :
    (env : Env) (req : CreateRequest) (db : Db) {r : Redemption} {db' : Db} (offer_id : String)
    → create_tx env req db ≡ ok (r, db')
    → units offer_id db' ≡ units offer_id db
unfolding Outcome
create_tx-units env req db {r} {db'} offer_id e = kept (create_tx-Outcome env req db e)
  where
    kept : Outcome env req db r db' → units offer_id db' ≡ units offer_id db
    kept (user, found, inl (row, held, p)) = rw p.unchanged
    kept (user, found, inr (fresh, (stock, c))) =
        let (i, e₀, q) = stock_row env req.offer_id db stock c.on_sale in
        let row = new_redemption env req user stock.points_cost in
        units_after offer_id row db db' i e₀ (omega (arith, c.in_stock)) refl c.charged.inventory
          c.charged.redemptions

-- If a user has at most one redemption of an offer that has succeeded, verified ones among them,
-- then the user has at most one after a Create that returns a redemption, whoever sent it and for
-- whatever offer.
pub create_tx-once :
    (env : Env) (req : CreateRequest) (db : Db) {r : Redemption} {db' : Db}
    (user_id offer_id : String)
    → create_tx env req db ≡ ok (r, db')
    → redemptions_of user_id offer_id db ≤ 1
    → redemptions_of user_id offer_id db' ≤ 1
unfolding Outcome redemptions_of
create_tx-once env req db {r} {db'} user_id offer_id e h = kept (create_tx-Outcome env req db e)
  where
    kept : Outcome env req db r db' → redemptions_of user_id offer_id db' ≤ 1
    kept (user, found, inl (row, held, p)) = rw p.unchanged h
    kept (user, found, inr (fresh, (stock, c))) =
        let row = new_redemption env req user stock.points_cost in
        let before = rw (stands_for-redeems user_id offer_id) at h in
        rw (stands_for-redeems user_id offer_id) ground (
          arith,
          c.charged.redemptions,
          count_where-append (redeems user_id offer_id) db.redemptions (row ∷ []),
          count_where-none (redeems user.user_id req.offer_id) db.redemptions c.not_redeemed,
          eq_iff user.user_id user_id,
          eq_iff req.offer_id offer_id,
        )
