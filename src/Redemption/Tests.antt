-- ===== src/Redemption/Tests.antt =====
-- Runs of `Create` and `Verify`, and the theorems at these runs.
use spacetime_node.Prelude.{◌≡◌, refl, ◌≤◌, arith, eq_iff, List, [], ◌∷◌}
use spacetime_node.Prelude.Int.{◌+ℤ◌}
use spacetime_node.Platform.Env.{Env}
use spacetime_node.Platform.Result.{ok}
use spacetime_node.Platform.Database.{Db, verified}
use spacetime_node.Platform.Outbox.{enqueue}
use spacetime_node.Recommendation.Feedback.{apply_preference_feedback}
use spacetime_node.Redemption.Rows.{
  CreateRequest, VerifyRequest, Redemption, view, new_redemption, lock_user_row,
  existing_redemption, lock_stock_row, insert_redemption_row, update_balance_row, update_stock_row,
  insert_ledger_row, enqueue_succeeded_event,
}
use spacetime_node.Redemption.Create.{
  create, create_tx, create_or_replay, create_new, write_redemption, replay,
}
use spacetime_node.Redemption.Verify.{
  verify, verify_tx, select_joined, verify_status, update_status_row, enqueue_verified_event,
}
use spacetime_node.Redemption.Outcome.{Outcome, create_tx-Outcome}
use spacetime_node.Redemption.Idempotency.{create-retry}
use spacetime_node.Redemption.Ledger.{IsBalanced, ledger_sum, create_tx-IsBalanced}
use spacetime_node.Redemption.Stock.{units, redemptions_of, create_tx-units, create_tx-once}
use spacetime_node.Redemption.Verified.{Verifies, verify_tx-Verifies}
use spacetime_node.Redemption.Available.{create-sells}
use spacetime_node.Redemption.Sequence.{Call, sell, check, Keeps, serve_all, serve_all-Keeps}
use spacetime_node.Redemption.Abstract.{shop_of}
use spacetime_node.Redemption.Responds.{Responds, create-Responds}
use spacetime_node.Redemption.Recommended.{IsReady, at_counter, recommended-sells}
use spacetime_node.Recommendation.Sample.{
  service, ask, advice, advised, recommend_run, first_advice,
}
use spacetime_node.Fixtures.{healthy, shop, rider, coffee, rider_hash}

abbrev request : CreateRequest
request = record {
  user_id_hash = rider_hash;
  journey_id = "journey-1";
  offer_id = "offer-coffee-xinyi";
  idempotency_key = "key-1";
  trace_id = "trace-redemption";
}

abbrev receipt : Redemption
receipt = view (new_redemption healthy request rider 80)

sold : Db
sold = (create healthy request shop).1

-- opens the whole of `Create`
create_run : Env → CreateRequest → Db → Db
unfolding create create_tx lock_user_row existing_redemption create_or_replay replay create_new
    lock_stock_row write_redemption insert_redemption_row update_balance_row update_stock_row
    insert_ledger_row apply_preference_feedback enqueue_succeeded_event enqueue sold
create_run env req db = (create env req db).1

first_sale : create_tx healthy request shop ≡ ok (receipt, sold)
unfolding create_run
first_sale = refl

sale_settled : create healthy request shop ≡ (ok receipt, sold)
unfolding create_run
sale_settled = refl

create_tx-Outcome_example : Outcome healthy request shop receipt sold
create_tx-Outcome_example = create_tx-Outcome healthy request shop first_sale

create-retry_example : create healthy request sold ≡ (ok receipt, sold)
create-retry_example =
    create-retry healthy healthy request shop
      (record { begins = refl; locks = refl; selects = refl; commits = refl }) sale_settled

shop-IsBalanced : IsBalanced shop
unfolding ledger_sum ◌+ℤ◌
shop-IsBalanced = record { keyed = (refl, tt); balanced = λ id. ground (arith, eq_iff "user-1" id) }

create_tx-IsBalanced_example : IsBalanced sold
create_tx-IsBalanced_example = create_tx-IsBalanced healthy request shop first_sale shop-IsBalanced

create_tx-units_example : units "offer-coffee-xinyi" sold ≡ units "offer-coffee-xinyi" shop
create_tx-units_example = create_tx-units healthy request shop "offer-coffee-xinyi" first_sale

create_tx-once_example : redemptions_of "user-1" "offer-coffee-xinyi" sold ≤ 1
create_tx-once_example =
    create_tx-once healthy request shop "user-1" "offer-coffee-xinyi" first_sale
      (unfold redemptions_of in omega arith)

abbrev merchant_check : VerifyRequest
merchant_check = record {
  redemption_id = "redemption-1";
  merchant_id = "merchant-coffee-demo";
  verification_code = "code-1";
  trace_id = "trace-verify";
}

-- the same environment at another call, whose event id is new
abbrev later : Env
later = record healthy { uuid = λ _. "event-3" }

marked : Db
marked = (verify later merchant_check sold).1

verify_run : Env → VerifyRequest → Db → Db
unfolding verify verify_tx select_joined verify_status update_status_row enqueue_verified_event
    enqueue marked create_run
verify_run env req db = (verify env req db).1

abbrev verified_receipt : Redemption
verified_receipt = record receipt { status = verified }

sale_verified : verify_tx later merchant_check sold ≡ ok (verified_receipt, marked)
unfolding verify_run
sale_verified = refl

verify_tx-Verifies_example : Verifies later merchant_check sold verified_receipt marked
verify_tx-Verifies_example = verify_tx-Verifies later merchant_check sold sale_verified

create-sells_example : (db' : Db) × (create healthy request shop ≡ (ok receipt, db'))
create-sells_example =
    create-sells {user = rider} {offer = coffee}
      {stock = record { offer_id = "offer-coffee-xinyi"; available_quantity = 50; version = 1 }}
      (record {
        complete = refl;
        answers = λ c. refl;
        known = refl;
        new_key = refl;
        entered = refl;
        not_redeemed = refl;
        on_sale = refl;
        stocked = refl;
        in_stock = omega arith;
        priced = omega arith;
        affordable = omega arith;
        new_id = refl;
        new_code = refl;
        new_event = refl;
        named_event = refl;
      })

-- ids for a call at the counter
abbrev counter : Env
counter = record healthy { uuid = λ f. "counter-1" }

counter-IsReady : IsReady counter (at_counter ask advice "key-9" "trace-9") advised
unfolding recommend_run
counter-IsReady = record {
  complete = refl;
  answers = λ c. refl;
  new_key = λ u h. refl;
  priced = λ o h. ground arith;
  new_id = refl;
  new_code = refl;
  new_event = refl;
  named_event = refl;
}

recommended-sells_example :
    (got : Redemption) × (db'' : Db) × (create counter
        (at_counter ask advice "key-9" "trace-9")
        advised
      ≡ (ok got, db''))
    × (got.offer_id ≡ advice.offer_id)
recommended-sells_example =
    recommended-sells service healthy counter ask shop refl (refl, tt) counter-IsReady first_advice

create-Responds_example :
    Responds request
      (create healthy request shop).0
      (shop_of shop)
      (shop_of (create healthy request shop).1)
create-Responds_example = create-Responds healthy request shop (refl, tt)

-- a sale, its verification, and a request of a stranger
abbrev calls : List Call
calls =
    sell healthy request
    ∷ check later merchant_check
    ∷ sell healthy (record request { user_id_hash = "stranger" })
    ∷ []

serve_all-Keeps_example : Keeps shop (serve_all calls shop)
serve_all-Keeps_example = serve_all-Keeps calls shop (record {
  ids = tt;
  balanced = shop-IsBalanced;
  once = λ u o. unfold redemptions_of in omega arith;
})
