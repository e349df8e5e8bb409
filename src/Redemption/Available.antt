-- ===== src/Redemption/Available.antt =====
-- internal/redemption/service.go: when `Create` sells.
use spacetime_node.Prelude.{
  ℕ, ◌-◌, ◌≤◌, ◌<◌, ◌≡◌, refl, String, true, false, none, some, ◌&&◌, ◌||◌, ◌==◌, any, arith, ltb,
  nat_eq, if◌then◌else◌,
}
use spacetime_node.Prelude.Table.{find, find-update_where, update_where, insert_row}
use spacetime_node.Prelude.Search.{find-none-any, any-or, find-weaker}
use spacetime_node.Platform.Env.{Env, Call, redemption_id, verification_code, event_id}
use spacetime_node.Platform.Result.{ok}
use spacetime_node.Platform.Database.{
  Db, UserRow, OfferRow, InventoryRow, RedemptionRow, JourneyRow, OutboxRow,
}
use spacetime_node.Platform.Event.{event}
use spacetime_node.Recommendation.Feedback.Frame.{apply_preference_feedback-OnlyWeights}
use spacetime_node.Platform.Outbox.{Event, enqueue, new_row}
use spacetime_node.Recommendation.Feedback.{
  feedback_delta, record_feedback, upsert_weight_row, apply_preference_feedback,
}
use spacetime_node.Redemption.Rows.{
  CreateRequest, succeeded_event, view, has_hash, has_key, has_offer, has_stock, is_current,
  redeems, new_redemption, lock_user_row, existing_redemption, lock_stock_row,
  insert_redemption_row, update_balance_row, update_stock_row, insert_ledger_row,
  enqueue_succeeded_event,
}
use spacetime_node.Redemption.Effect.{pay, take_one, spending}
use spacetime_node.Redemption.Create.{
  lacks_field, create_tx, create_or_replay, create_new, write_redemption, create,
}

-- What a sale needs: a complete request, a database that answers, the rows of the user, the journey,
-- an offer that is on sale and its stock, enough points, a key and an offer that are new for the
-- user, and random ids that no row has.
pub record CanCreate (env : Env) (req : CreateRequest) (user : UserRow) (offer : OfferRow)
    (stock : InventoryRow) (db : Db) : Type 0 where
  pub complete : lacks_field req ≡ false
  pub answers : (c : Call) → env.fails c ≡ false
  pub known : find (has_hash req.user_id_hash) db.users ≡ some user
  pub new_key : find (has_key user.user_id req.idempotency_key) db.redemptions ≡ none
  pub entered :
      any
        (λ (j : JourneyRow). j.journey_id == req.journey_id && j.user_id == user.user_id)
        db.journeys
      ≡ true
  pub not_redeemed : any (redeems user.user_id req.offer_id) db.redemptions ≡ false
  pub on_sale :
      find (λ (o : OfferRow). has_offer req.offer_id o && is_current env o) db.offers ≡ some offer
  pub stocked : find (has_stock req.offer_id) db.inventory ≡ some stock
  pub in_stock : 0 < stock.available_quantity
  pub priced : 0 < offer.points_cost
  pub affordable : offer.points_cost ≤ user.point_balance
  pub new_id :
      any (λ (r : RedemptionRow). r.redemption_id == env.uuid redemption_id) db.redemptions ≡ false
  pub new_code :
      any
        (λ (r : RedemptionRow). r.merchant_verification_code == env.uuid verification_code)
        db.redemptions
      ≡ false
  pub new_event : any (λ (e : OutboxRow). e.event_id == env.uuid event_id) db.outbox_events ≡ false
  pub named_event : (env.uuid event_id == "") ≡ false

module _ {env : Env} {req : CreateRequest} {user : UserRow} {offer : OfferRow}
    {stock : InventoryRow} {db : Db} (c : CanCreate env req user offer stock db) where
  abbrev pub sale : RedemptionRow
  sale = new_redemption env req user offer.points_cost

  no_conflict :
      any
        (λ (r : RedemptionRow).
          r.redemption_id == sale.redemption_id
          || has_key sale.user_id sale.idempotency_key r
          || r.merchant_verification_code == sale.merchant_verification_code
          || redeems sale.user_id sale.offer_id r)
        db.redemptions
      ≡ false
  no_conflict =
      any-or _ (redeems user.user_id req.offer_id) db.redemptions
        (any-or _
          (λ (r : RedemptionRow). r.merchant_verification_code == sale.merchant_verification_code)
          db.redemptions
          (any-or (λ (r : RedemptionRow). r.redemption_id == sale.redemption_id)
            (has_key user.user_id req.idempotency_key) db.redemptions c.new_id
            (find-none-any _ db.redemptions c.new_key))
          c.new_code)
        c.not_redeemed

  insert_redemption_row-ok :
      insert_redemption_row env sale db
      ≡ ok (record db { redemptions = insert_row sale db.redemptions })
  unfolding insert_redemption_row
  insert_redemption_row-ok = rw (c.answers _, no_conflict) refl

  update_balance_row-ok :
      (id : String) (balance : ℕ) (d : Db)
      → update_balance_row env id balance d
        ≡ ok (record d {
          users = update_where (λ (u : UserRow). u.user_id == id) (pay balance) d.users;
        })
  unfolding update_balance_row
  update_balance_row-ok id balance d = rw (c.answers _) refl

  update_stock_row-ok :
      (d : Db)
      → update_stock_row env req.offer_id d
        ≡ ok (record d { inventory = update_where (has_stock req.offer_id) take_one d.inventory })
  unfolding update_stock_row
  update_stock_row-ok d = rw (c.answers _) refl

  insert_ledger_row-ok :
      (d : Db)
      → insert_ledger_row env user.user_id sale.redemption_id offer.points_cost
          (user.point_balance - offer.points_cost)
          d
        ≡ ok (record d { points_ledger = insert_row (spending user sale) d.points_ledger })
  unfolding insert_ledger_row
  insert_ledger_row-ok d =
      let not_free : nat_eq offer.points_cost 0 ≡ false = ground (arith, c.priced) in
      rw (c.answers _, not_free) refl

  apply_preference_feedback-ok :
      (d : Db) {u : UserRow} {o : OfferRow}
      → find (has_hash req.user_id_hash) d.users ≡ some u
      → find (has_offer req.offer_id) d.offers ≡ some o
      → (d' : Db) × (apply_preference_feedback env req.user_id_hash req.offer_id
            "redemption.succeeded.v1" d
          ≡ ok d')
  unfolding apply_preference_feedback record_feedback feedback_delta
  apply_preference_feedback-ok d {u} {o} h k =
      let named : (req.user_id_hash == "" || req.offer_id == "") ≡ false =
        ground (arith, c.complete) in
      (
        upsert_weight_row (feedback_delta "redemption.succeeded.v1") u.user_id o.category d,
        rw (named, c.answers _, h, k, c.answers _) refl,
      )

  enqueue_succeeded_event-ok :
      (d : Db)
      → any (λ (e : OutboxRow). e.event_id == env.uuid event_id) d.outbox_events ≡ false
      → (d' : Db) × (enqueue_succeeded_event env req sale d ≡ ok d')
  unfolding enqueue_succeeded_event enqueue
  enqueue_succeeded_event-ok d h =
      let keyed : (req.user_id_hash == "") ≡ false = ground (arith, c.complete) in
      let ev : Event = record {
        id = env.uuid event_id;
        topic = "redemption.succeeded.v1";
        key = req.user_id_hash;
        payload = event (succeeded_event env req sale);
      } in
      (
        record d { outbox_events = insert_row (new_row env ev) d.outbox_events },
        rw (c.named_event, keyed, c.answers _, h) refl,
      )

  -- the user's row is still there when the balance has changed
  paid_user :
      (u : UserRow) × (find (has_hash req.user_id_hash) (
          update_where
            (λ (u : UserRow). u.user_id == user.user_id)
            (pay (user.point_balance - offer.points_cost))
            db.users)
        ≡ some u)
  paid_user =
      let mine = λ (u : UserRow). u.user_id == user.user_id in
      let pays = pay (user.point_balance - offer.points_cost) in
      let seen = find-update_where mine (has_hash req.user_id_hash) pays db.users (λ x. refl) in
      ((if mine user then pays user else user), rw (seen, c.known) refl)

  offer_row : (o : OfferRow) × (find (has_offer req.offer_id) db.offers ≡ some o)
  offer_row = find-weaker (has_offer req.offer_id) (is_current env) db.offers c.on_sale

  write_redemption-ok :
      (db' : Db) × (write_redemption env req user offer.points_cost db ≡ ok (view sale, db'))
  unfolding write_redemption
  write_redemption-ok =
      let d₁ = record db { redemptions = insert_row sale db.redemptions } in
      let d₂ = record d₁ {
        users =
            update_where (λ (u : UserRow). u.user_id == user.user_id)
              (pay (user.point_balance - offer.points_cost)) db.users;
      } in
      let d₃ = record d₂ {
        inventory = update_where (has_stock req.offer_id) take_one db.inventory;
      } in
      let d₄ = record d₃ { points_ledger = insert_row (spending user sale) db.points_ledger } in
      let (d₅, weighed) = apply_preference_feedback-ok d₄ paid_user.1 offer_row.1 in
      let same =
        apply_preference_feedback-OnlyWeights env req.user_id_hash req.offer_id
          "redemption.succeeded.v1" d₄ weighed in
      let (d₆, told) = enqueue_succeeded_event-ok d₅ (rw same c.new_event) in
      (
        d₆,
        rw
            (
              insert_redemption_row-ok,
              update_balance_row-ok user.user_id (user.point_balance - offer.points_cost) d₁,
              update_stock_row-ok d₂,
              insert_ledger_row-ok d₃,
              weighed,
              told,
              c.answers _,
            )
            refl,
      )

  lock_stock_row-ok :
      lock_stock_row env req.offer_id db
      ≡ ok (record {
        available_quantity = stock.available_quantity;
        points_cost = offer.points_cost;
      })
  unfolding lock_stock_row
  lock_stock_row-ok = rw (c.answers _, c.on_sale, c.stocked) refl

  create_new-ok : (db' : Db) × (create_new env req user db ≡ ok (view sale, db'))
  unfolding create_new
  create_new-ok =
      let (db', wrote) = write_redemption-ok in
      let left : nat_eq stock.available_quantity 0 ≡ false = ground (arith, c.in_stock) in
      let rich : ltb user.point_balance offer.points_cost ≡ false = ground (arith, c.affordable) in
      (
        db',
        rw (c.answers _, c.entered, c.answers _, c.not_redeemed, lock_stock_row-ok, left, rich)
            wrote,
      )

  create_tx-ok : (db' : Db) × (create_tx env req db ≡ ok (view sale, db'))
  unfolding create_tx lock_user_row existing_redemption create_or_replay
  create_tx-ok =
      let (db', sold) = create_new-ok in
      (db', rw (c.complete, c.answers _, c.answers _, c.known, c.answers _, c.new_key) sold)

  -- A Create with a complete request sells, if the database answers, the user has entered the
  -- journey and has not redeemed the offer, the key is new, the offer is on sale, costs points and
  -- is in stock, the balance covers it, and the random ids are new: it returns the new redemption
  -- at the offer's price.
  pub create-sells : (db' : Db) × (create env req db ≡ (ok (view sale), db'))
  unfolding create
  create-sells = let (db', sold) = create_tx-ok in (db', rw sold refl)
