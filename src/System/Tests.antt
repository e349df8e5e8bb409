-- ===== src/System/Tests.antt =====
-- A redemption that is published, and the theorems at that run.
use spacetime_node.Prelude.{◌≡◌, refl, [], false, length, All}
use spacetime_node.Prelude.Sort.{stable_sort}
use spacetime_node.Platform.Outbox.{enqueue}
use spacetime_node.Platform.Outbox.Publish.{
  World, Session, publish_pending, publish_events, close_batch, pending_batch,
}
use spacetime_node.Recommendation.Feedback.{apply_preference_feedback}
use spacetime_node.Redemption.Rows.{
  CreateRequest, lock_user_row, existing_redemption, lock_stock_row, insert_redemption_row,
  update_balance_row, update_stock_row, insert_ledger_row, enqueue_succeeded_event,
}
use spacetime_node.Redemption.Create.{
  create, create_tx, create_or_replay, create_new, write_redemption, replay,
}
use spacetime_node.Analytics.Consume.{Faults, consume_topic}
use spacetime_node.System.{with_db, redeemed, published, Reach, here, after}
use spacetime_node.System.Published.{IsSound}
use spacetime_node.System.Reached.{Reach-IsSound, on_topic, messages_of, IsStored, reached-IsStored}
use spacetime_node.Fixtures.{healthy, shop, rider_hash}

abbrev purchase : CreateRequest
purchase = record {
  user_id_hash = rider_hash;
  journey_id = "journey-1";
  offer_id = "offer-coffee-xinyi";
  idempotency_key = "key-1";
  trace_id = "trace-redemption";
}

abbrev quiet : Session
quiet = record { locked = λ row. false; before = λ a b. false }

opening : World
opening = record { db = shop; log = [] }

opening-IsSound : IsSound opening
unfolding opening
opening-IsSound = record {
  healthy = record { emitted = tt; placed = tt; bounded = tt };
  logged = tt;
}

bought : World
bought = with_db opening (create healthy purchase opening.db).1

sent : World
sent = (publish_pending healthy quiet 10 bought).1

sent_run : Reach opening sent
unfolding bought sent
sent_run =
    after (after (here opening) (redeemed opening healthy purchase))
      (published bought healthy quiet 10)

-- the run has sent one event
sent_one : length sent.log ≡ 1
unfolding opening bought sent create create_tx lock_user_row existing_redemption create_or_replay
    replay create_new lock_stock_row write_redemption insert_redemption_row update_balance_row
    update_stock_row insert_ledger_row apply_preference_feedback enqueue_succeeded_event enqueue
    publish_pending publish_events close_batch pending_batch stable_sort
sent_one = refl

Reach-IsSound_example : IsSound sent
Reach-IsSound_example = Reach-IsSound sent_run opening-IsSound

abbrev willing : Faults
willing = record { insert_fails = λ n. false; commit_fails = λ n. false }

reached-IsStored_example :
    All
      (IsStored
        (consume_topic willing
          (messages_of (on_topic "redemption.succeeded.v1" sent.log))
          (record { rows = []; committed = 0 })).rows)
      (on_topic "redemption.succeeded.v1" sent.log)
reached-IsStored_example =
    reached-IsStored willing "redemption.succeeded.v1" []
      (record { inserts = λ n. refl; commits = λ n. refl }) opening-IsSound sent_run
