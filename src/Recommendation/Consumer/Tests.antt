-- ===== src/Recommendation/Consumer/Tests.antt =====
-- Runs of the consumer of journey.entered.v1.
use spacetime_node.Prelude.{ℕ, true, ◌≡◌, refl, false, List, [], ◌∷◌, arith, length}
use spacetime_node.Platform.Env.{Env}
use spacetime_node.Platform.Result.{ok}
use spacetime_node.Platform.Event.{at, text, Message, malformed, event}
use spacetime_node.Recommendation.Consumer.{
  EntryEvent, EntryReader, run_entry_consumer, consume_entries, consume_entry, handle_entry,
  decode_entry_event, has_latest, recommend_entry,
}
use spacetime_node.Recommendation.Consumer.Once.{IsOnce, run_entry_consumer-IsOnce}
use spacetime_node.Recommendation.Consumer.Committed.{Commits, consume_entry-Commits}
use spacetime_node.Recommendation.Sample.{service, recommend_run}
use spacetime_node.Fixtures.{healthy, shop, rider_hash}

abbrev entered : Message
entered = event (record {
  event_id = "event-1";
  event_type = "journey.entered.v1";
  occurred_at = at 1000;
  schema_version = 1;
  trace_id = "trace-1";
  producer = "journey-service";
  journey_id = "journey-1";
  recommendation_id = "";
  user_id_hash = rider_hash;
  payload = ("station_id", text "R04") ∷ ("line_id", text "R") ∷ ("position_id", text "R04-3") ∷ [];
})

-- an entry twice, and a message between that is no event
abbrev entries : List Message
entries = entered ∷ malformed ∷ entered ∷ []

abbrev always : ℕ → Env
always n = healthy

abbrev run : EntryReader
run =
    run_entry_consumer service (λ e. ok true) always (λ n. false) entries
      (record { db = shop; committed = 0 })

one_recommendation : length run.db.recommendations ≡ 1
unfolding run_entry_consumer consume_entries consume_entry handle_entry decode_entry_event
    has_latest recommend_entry recommend_run
one_recommendation = refl

all_committed : run.committed ≡ 3
unfolding run_entry_consumer consume_entries consume_entry handle_entry decode_entry_event
    has_latest recommend_entry recommend_run
all_committed = refl

shop-IsOnce : IsOnce shop
unfolding IsOnce
shop-IsOnce = λ j. omega arith

run_entry_consumer-IsOnce_example : IsOnce run.db
run_entry_consumer-IsOnce_example =
    run_entry_consumer-IsOnce service (λ e. ok true) always (λ n. false) (λ n. refl) entries
      (record { db = shop; committed = 0 }) shop-IsOnce

abbrev entry : EntryEvent
entry = record {
  event_id = "event-1";
  trace_id = "trace-1";
  journey_id = "journey-1";
  user_id_hash = rider_hash;
  station_id = "R04";
}

entry_decoded : decode_entry_event entered ≡ ok entry
unfolding decode_entry_event
entry_decoded = refl

abbrev before : EntryReader
before = record { db = shop; committed = 0 }

consume_entry-Commits_example :
    Commits 0 entry before
      (consume_entry service (λ e. ok true) always (λ n. false) 0 entered before).1
consume_entry-Commits_example =
    consume_entry-Commits service (λ e. ok true) always (λ n. false) 0 entered before entry_decoded
