-- ===== src/Redemption/Recommended.antt =====
-- internal/recommendation/recommendation.go and internal/redemption/service.go: a recommended offer
-- at the counter.
use spacetime_node.Prelude.{
  ◌<◌, ◌≡◌, refl, String, true, false, none, some, ◌&&◌, ◌==◌, any, arith, eq_iff,
}
use spacetime_node.Prelude.Table.{find, find-holds, Keyed, find-Keyed}
use spacetime_node.Prelude.Search.{find-any, find-stronger}
use spacetime_node.Platform.Env.{
  Env, Call, redemption_id, verification_code, event_id, select_journey,
}
use spacetime_node.Platform.Result.{ok, >>=-ok, fail_if-ok, journey_not_found}
use spacetime_node.Platform.Database.{
  Db, UserRow, OfferRow, InventoryRow, RedemptionRow, JourneyRow, OutboxRow,
}
use spacetime_node.Recommendation.Recommend.{
  Service, Request, Recommendation, StationName, own_journey, select_journey_station, recommend_tx,
}
use spacetime_node.Recommendation.Outcome.{Recommends, recommend_tx-Recommends, or_error-ok}
use spacetime_node.Recommendation.Promised.{Recommends-Promises}
use spacetime_node.Redemption.Standing.{stands_for-redeems}
use spacetime_node.Redemption.Rows.{
  CreateRequest, Redemption, view, has_hash, has_key, has_offer, is_current, new_redemption,
  or_error,
}
use spacetime_node.Redemption.Create.{lacks_field, create}
use spacetime_node.Redemption.Available.{CanCreate, create-sells}

entered_journey :
    (env : Env) (journey_id user_id : String) (db : Db) {s : StationName}
    → select_journey_station env journey_id user_id db ≡ ok s
    → any (λ (j : JourneyRow). j.journey_id == journey_id && j.user_id == user_id) db.journeys
      ≡ true
unfolding select_journey_station
entered_journey env journey_id user_id db e =
    let (_, e₁) = fail_if-ok (env.fails select_journey) _ _ e in
    let (j, found, _) =
      >>=-ok (or_error journey_not_found (find (own_journey journey_id user_id) db.journeys)) _
        e₁ in
    find-any (own_journey journey_id user_id) db.journeys (or_error-ok journey_not_found _ found)

abbrev pub offer_key : OfferRow → String
offer_key o = o.offer_id

-- the request at the counter for a recommendation
abbrev pub at_counter : Request → Recommendation → String → String → CreateRequest
at_counter req r key trace_id = record {
  user_id_hash = req.user_id_hash;
  journey_id = req.journey_id;
  offer_id = r.offer_id;
  idempotency_key = key;
  trace_id = trace_id;
}

-- What the recommendation does not settle: the request is complete and its key is new, the offer
-- costs points, the database answers and the random ids of the call are new.
pub record IsReady (env : Env) (q : CreateRequest) (db : Db) : Type 0 where
  pub complete : lacks_field q ≡ false
  pub answers : (c : Call) → env.fails c ≡ false
  pub new_key :
      (u : UserRow)
      → find (has_hash q.user_id_hash) db.users ≡ some u
      → find (has_key u.user_id q.idempotency_key) db.redemptions ≡ none
  pub priced : (o : OfferRow) → find (has_offer q.offer_id) db.offers ≡ some o → 0 < o.points_cost
  pub new_id :
      any (λ (r : RedemptionRow). r.redemption_id == env.uuid redemption_id) db.redemptions ≡ false
  pub new_code :
      any
        (λ (r : RedemptionRow). r.merchant_verification_code == env.uuid verification_code)
        db.redemptions
      ≡ false
  pub new_event : any (λ (e : OutboxRow). e.event_id == env.uuid event_id) db.outbox_events ≡ false
  pub named_event : (env.uuid event_id == "") ≡ false

module _ (s : Service) (env env' : Env) (req : Request) (db : Db) {r : Recommendation} {db' : Db}
    {key trace_id : String} where
  IsReady-CanCreate :
      env'.now ≡ env.now
      → Keyed offer_key db.offers
      → IsReady env' (at_counter req r key trace_id) db'
      → Recommends s env req db r db'
      → (user : UserRow) × (offer : OfferRow) × (stock : InventoryRow) × CanCreate env'
          (at_counter req r key trace_id)
          user
          offer
          stock
          db'
  IsReady-CanCreate now keyed ready k =
      let p = Recommends-Promises s env req db k in
      let user = p.user in
      let here = λ (o : OfferRow). has_offer r.offer_id o && o.station_id == req.station_id in
      let named = find-holds here db.offers p.sold_here in
      let is_it : p.offer.offer_id ≡ r.offer_id =
        ground (arith, named, eq_iff p.offer.offer_id r.offer_id) in
      let row : find (has_offer r.offer_id) db.offers ≡ some p.offer =
        rw is_it at (find-Keyed offer_key here db.offers keyed p.sold_here) in
      let current : is_current env' p.offer ≡ true =
        rw now (ground (arith, p.active, p.started, p.not_over)) in
      let same_user : k.user ≡ user = cc (p.known, k.found) in
      let journey =
        rw same_user at (entered_journey env req.journey_id k.user.user_id db k.entered) in
      (
        user,
        p.offer,
        p.stock,
        record {
          complete = ready.complete;
          answers = ready.answers;
          known = rw k.written p.known;
          new_key = ready.new_key user (rw k.written p.known);
          entered = rw k.written journey;
          not_redeemed =
              rw k.written (rw (stands_for-redeems user.user_id r.offer_id) at p.not_redeemed);
          on_sale =
              rw k.written
                (find-stronger (has_offer r.offer_id) (is_current env') db.offers row current);
          stocked = rw k.written p.stocked;
          in_stock = p.in_stock;
          priced = ready.priced p.offer (rw k.written row);
          affordable = p.affordable;
          new_id = ready.new_id;
          new_code = ready.new_code;
          new_event = ready.new_event;
          named_event = ready.named_event;
        },
      )

  -- An offer that a Recommend has returned can be redeemed at once with its journey: if offer ids
  -- are unique, the request is complete and its key new, the offer costs points, the database
  -- answers and the random ids are new, then a Create for it at the same instant returns a
  -- redemption of that offer.
  pub recommended-sells :
      env'.now ≡ env.now
      → Keyed offer_key db.offers
      → IsReady env' (at_counter req r key trace_id) db'
      → recommend_tx s env req db ≡ ok (r, db')
      → (got : Redemption) × (db'' : Db) × (create env' (at_counter req r key trace_id) db'
          ≡ (ok got, db''))
        × (got.offer_id ≡ r.offer_id)
  recommended-sells now keyed ready e =
      let (user, offer, stock, can) =
        IsReady-CanCreate now keyed ready (recommend_tx-Recommends s env req db e) in
      let (db'', sold) = create-sells can in
      (
        view (new_redemption env' (at_counter req r key trace_id) user offer.points_cost),
        db'',
        sold,
        refl,
      )
