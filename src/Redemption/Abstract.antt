-- ===== src/Redemption/Abstract.antt =====
-- internal/redemption/service.go against an abstract shop: the points of the users, the stock of the
-- offers, and who has redeemed what.
use mathlib.Core.Option
use spacetime_node.Prelude.{
  ℕ, ◌-◌, ◌≤◌, ◌≡◌, refl, sym, ◌∙◌, ap, inl, inr, String, Bool, true, false, Option, none, some,
  List, [], ◌∷◌, ◌&&◌, ◌||◌, ◌==◌, if◌then◌else◌, any, any-append, arith, eq_iff, Bool-cases,
  Option-cases,
}
use spacetime_node.Prelude.Table.{
  find, find-insert_row, find-holds, with_key, find-update_where, update_where, insert_row,
}
use spacetime_node.Platform.Env.{Env, lock_stock}
use spacetime_node.Platform.Result.{ok, offer_unavailable, >>=-ok, fail_if-ok}
use spacetime_node.Platform.Database.{Db, UserRow, OfferRow, InventoryRow, RedemptionRow}
use spacetime_node.Redemption.Rows.{
  Redemption, Stock, has_stock, has_offer, is_current, or_error, lock_stock_row, view,
}
use spacetime_node.Redemption.Effect.{pay, take_one}
use spacetime_node.Redemption.Standing.{stands_for}
use spacetime_node.Redemption.Ledger.{id_of}

-- `users` has the user of a hash, and `made` what a key of a user has made
pub record Shop : Type 0 where
  pub users : String → Option String
  pub made : String → String → Option Redemption
  pub points : String → ℕ
  pub stock : String → ℕ
  pub redeemed : String → String → Bool

abbrev pub points_in : Option UserRow → ℕ
points_in none = 0
points_in (some u) = u.point_balance

abbrev pub stock_in : Option InventoryRow → ℕ
stock_in none = 0
stock_in (some i) = i.available_quantity

abbrev pub made_by : String → String → RedemptionRow → Bool
made_by user_id key r = r.user_id == user_id && r.idempotency_key == key

-- what the tables say of it
unfoldable pub shop_of : Db → Shop
shop_of db = record {
  users = λ hash.
      Option.map (λ (u : UserRow). u.user_id)
        (find (λ (u : UserRow). u.user_id_hash == hash) db.users);
  made = λ user_id key. Option.map view (find (made_by user_id key) db.redemptions);
  points = λ user_id. points_in (find (with_key id_of user_id) db.users);
  stock = λ offer_id. stock_in (find (has_stock offer_id) db.inventory);
  redeemed = λ user_id offer_id. any (stands_for user_id offer_id) db.redemptions;
}

-- A sale of what the redemption states: the user has not redeemed the offer, has the points, there is
-- one in stock, and the key is new. The points and the piece are taken, the offer is redeemed, and the
-- key has made the redemption. Nothing else changes.
pub record Sells (user_id key : String) (r : Redemption) (a b : Shop) : Type 0 where
  pub fresh : a.redeemed user_id r.offer_id ≡ false
  pub affordable : r.points_cost ≤ a.points user_id
  pub in_stock : 1 ≤ a.stock r.offer_id
  pub new_key : a.made user_id key ≡ none
  pub users : (hash : String) → b.users hash ≡ a.users hash
  pub points :
      (u : String) → b.points u ≡ (if u == user_id then a.points u - r.points_cost else a.points u)
  pub stock : (o : String) → b.stock o ≡ (if o == r.offer_id then a.stock o - 1 else a.stock o)
  pub redeemed :
      (u o : String) → b.redeemed u o ≡ (a.redeemed u o || (u == user_id && o == r.offer_id))
  pub made : (u k : String) → b.made u k ≡ (if u == user_id && k == key then some r else a.made u k)

no_points : (b : Bool) (cost : ℕ) → 0 ≡ (if b then 0 - cost else 0)
no_points true cost = omega arith
no_points false cost = refl

some_same : {A : Type 0} {a b : A} → ◌≡◌ {A = Option A} (some a) (some b) → a ≡ b
some_same e = cc

paid_row :
    (user : UserRow) (cost : ℕ) (u : UserRow)
    → (u.user_id ≡ user.user_id → u ≡ user)
    → points_in (some (if u.user_id == user.user_id then pay (user.point_balance - cost) u else u))
      ≡ (if u.user_id == user.user_id then u.point_balance - cost else u.point_balance)
paid_row user cost u only = elim (Bool-cases (u.user_id == user.user_id)) [
  | inl mine ↦
      let same : u ≡ user = only ((eq_iff u.user_id user.user_id).0 mine) in
      rw mine (ap (λ (x : UserRow). x.point_balance - cost) (sym same))
  | inr other ↦ rw other refl
]

-- the points of a user after a payment
pub points_paid :
    (user : UserRow) (cost : ℕ) (users : List UserRow) (id : String)
    → find (with_key id_of user.user_id) users ≡ some user
    → points_in (
        find (with_key id_of id) (
          update_where
            (λ (u : UserRow). u.user_id == user.user_id)
            (pay (user.point_balance - cost))
            users))
      ≡ (if id == user.user_id
          then points_in (find (with_key id_of id) users) - cost
          else points_in (find (with_key id_of id) users))
points_paid user cost users id known =
    let seen =
      find-update_where (λ (u : UserRow). u.user_id == user.user_id) (with_key id_of id)
        (pay (user.point_balance - cost)) users (λ x. refl) in
    elim (Option-cases (find (with_key id_of id) users)) [
      | inl nobody ↦ rw (seen, nobody) (no_points (id == user.user_id) cost)
      | inr (u, found) ↦
          let own : u.user_id ≡ id =
            (eq_iff u.user_id id).0 (find-holds (with_key id_of id) users found) in
          let paid =
            paid_row user cost u (λ same. some_same (sym found ∙ rw (sym own, same) known)) in
          rw (seen, found, sym own) paid
    ]

pub stock_taken :
    (offer_id : String) (rows : List InventoryRow) (o : String)
    → stock_in (find (has_stock o) (update_where (has_stock offer_id) take_one rows)) ≡ (
        if o == offer_id
        then stock_in (find (has_stock o) rows) - 1
        else stock_in (find (has_stock o) rows))
stock_taken offer_id rows o =
    let seen = find-update_where (has_stock offer_id) (has_stock o) take_one rows (λ x. refl) in
    elim (Option-cases (find (has_stock o) rows)) [
      | inl nothing ↦ rw (seen, nothing) (no_points (o == offer_id) 1)
      | inr (i, found) ↦
          let own : i.offer_id ≡ o =
            (eq_iff i.offer_id o).0 (find-holds (has_stock o) rows found) in
          elim (Bool-cases (i.offer_id == offer_id)) [
            | inl mine ↦ rw (seen, found, sym own, mine) refl
            | inr other ↦ rw (seen, found, sym own, other) refl
          ]
    ]

pub flipped : (a b : String) → (a == b) ≡ (b == a)
flipped a b = ground (arith, eq_iff a b, eq_iff b a)

pub redeemed_once :
    (row : RedemptionRow) (rs : List RedemptionRow) (u o : String)
    → stands_for u o row ≡ (row.user_id == u && row.offer_id == o)
    → any (stands_for u o) (insert_row row rs)
      ≡ (any (stands_for u o) rs || (u == row.user_id && o == row.offer_id))
redeemed_once row rs u o e =
    rw (any-append (stands_for u o) rs (row ∷ []), e, flipped u row.user_id, flipped o row.offer_id)
      ground arith

pub stock_read :
    (env : Env) (offer_id : String) (db : Db) {stock : Stock}
    → lock_stock_row env offer_id db ≡ ok stock
    → stock_in (find (has_stock offer_id) db.inventory) ≡ stock.available_quantity
unfolding lock_stock_row
stock_read env offer_id db {stock} e =
    let (_, e₁) = fail_if-ok (env.fails lock_stock) _ _ e in
    let (offer, _, e₂) =
      >>=-ok
        (or_error offer_unavailable
          (find (λ (o : OfferRow). has_offer offer_id o && is_current env o) db.offers))
        _ e₁ in
    elim (Option-cases (find (has_stock offer_id) db.inventory)) [
      | inl missing ↦ absurd (ground arith)
      | inr (i, found) ↦ ground arith
    ]

-- the user of a hash stays, whoever pays
pub users_kept :
    (id : String) (balance : ℕ) (users : List UserRow) (hash : String)
    → Option.map
        (λ (u : UserRow). u.user_id)
        (find
          (λ (u : UserRow). u.user_id_hash == hash)
          (update_where (λ (u : UserRow). u.user_id == id) (pay balance) users))
      ≡ Option.map
          (λ (u : UserRow). u.user_id)
          (find (λ (u : UserRow). u.user_id_hash == hash) users)
users_kept id balance users hash =
    let named = λ (u : UserRow). u.user_id_hash == hash in
    let seen =
      find-update_where (λ (u : UserRow). u.user_id == id) named (pay balance) users (λ x. refl) in
    elim (Option-cases (find named users)) [
      | inl nobody ↦ rw (seen, nobody) refl
      | inr (u, found) ↦ elim (Bool-cases (u.user_id == id)) [
        | inl mine ↦ rw (seen, found, mine) refl
        | inr other ↦ rw (seen, found, other) refl
      ]
    ]

-- what a key has made after a new redemption under a new key
pub made_once :
    (row : RedemptionRow) (rs : List RedemptionRow) (u k : String)
    → find (made_by row.user_id row.idempotency_key) rs ≡ none
    → Option.map view (find (made_by u k) (insert_row row rs)) ≡ (
        if u == row.user_id && k == row.idempotency_key
        then some (view row)
        else Option.map view (find (made_by u k) rs))
made_once row rs u k new =
    let added = find-insert_row (made_by u k) row rs in
    elim (Bool-cases (u == row.user_id && k == row.idempotency_key)) [
      | inl mine ↦
          let same_user : u ≡ row.user_id = ground (arith, eq_iff u row.user_id) in
          let same_key : k ≡ row.idempotency_key = ground (arith, eq_iff k row.idempotency_key) in
          let own : find (made_by u k) rs ≡ none = rw (same_user, same_key) new in
          let it : made_by u k row ≡ true =
            ground (arith, eq_iff row.user_id u, eq_iff row.idempotency_key k) in
          rw (added, own, it, mine) refl
      | inr other ↦
          let not_it : made_by u k row ≡ false =
            ground (arith, flipped u row.user_id, flipped k row.idempotency_key) in
          elim (Option-cases (find (made_by u k) rs)) [
            | inl none_yet ↦ rw (added, none_yet, not_it, other) refl
            | inr (x, found) ↦ rw (added, found, other) refl
          ]
    ]
