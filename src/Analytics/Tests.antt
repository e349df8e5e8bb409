-- ===== src/Analytics/Tests.antt =====
-- A topic with an event, a document that is none, and an event again; the insert of the last one
-- fails once.
use spacetime_node.Prelude.{◌≡◌, refl, List, [], ◌∷◌, false, nat_eq, All, length, arith, ◌≤◌}
use spacetime_node.Platform.Event.{Envelope, Message, malformed, event, at, text}
use spacetime_node.Analytics.{decode_event, is_incomplete, known_topic, attribution_type_of}
use spacetime_node.Analytics.Consume.{
  Consumed, Faults, consume_message, consume_from, consume_topic, consume_topic_again,
}
use spacetime_node.Analytics.Covered.{
  Covers, IsCovered, consume_topic_again-Covers, consume_topic-drains,
}

abbrev visit : Envelope
visit = record {
  event_id = "event-1";
  event_type = "merchant.verified.v1";
  schema_version = 1;
  occurred_at = at 50;
  producer = "redemption-service";
  trace_id = "trace-1";
  journey_id = "journey-1";
  recommendation_id = "";
  user_id_hash = "sha256:aa";
  payload = ("redemption_id", text "redemption-1") ∷ [];
}

abbrev topic : List Message
topic = event visit ∷ malformed ∷ event (record visit { event_id = "event-2" }) ∷ []

-- ClickHouse refuses the message at offset 2
abbrev flaky : Faults
flaky = record { insert_fails = λ n. nat_eq n 2; commit_fails = λ n. false }

abbrev steady : Faults
steady = record { insert_fails = λ n. false; commit_fails = λ n. false }

abbrev idle : Consumed
idle = record { rows = []; committed = 0 }

stopped : Consumed
stopped = consume_topic flaky topic idle

stops_at_two : (stopped.committed ≡ 2) × (length stopped.rows ≡ 1)
unfolding stopped consume_topic consume_from consume_message decode_event is_incomplete known_topic
    attribution_type_of
stops_at_two = (refl, refl)

consume_topic_again-Covers_example :
    Covers topic (consume_topic_again (flaky ∷ steady ∷ []) topic idle)
consume_topic_again-Covers_example = consume_topic_again-Covers (flaky ∷ steady ∷ []) topic idle tt

stopped-Covers : Covers topic stopped
unfolding stopped consume_topic_again
stopped-Covers = consume_topic_again-Covers (flaky ∷ []) topic idle tt

stopped_le : stopped.committed ≤ length topic
unfolding stopped consume_topic consume_from consume_message decode_event is_incomplete known_topic
    attribution_type_of
stopped_le = omega arith

consume_topic-drains_example : All (IsCovered (consume_topic steady topic stopped).rows) topic
consume_topic-drains_example =
    consume_topic-drains steady topic stopped (record { inserts = λ n. refl; commits = λ n. refl })
      stopped_le stopped-Covers
