-- ===== src/Analytics/Consume.antt =====
-- internal/analytics/consumer.go, `consumeTopic`: the messages of a topic, and the ClickHouse table
-- that they are written to. A reader starts at the committed offset of its group. What Kafka and
-- ClickHouse refuse is an argument, by the offset of the message.
use spacetime_node.Prelude.{ℕ, suc, drop, Bool, true, false, List, [], ◌∷◌, ◌++◌, if◌then◌else◌}
use spacetime_node.Platform.Result.{Result, ok, err}
use spacetime_node.Platform.Event.{Message}
use spacetime_node.Analytics.{ProductEvent, decode_event}

-- the rows of the table, oldest first, and the committed offset
pub record Consumed : Type 0 where
  pub rows : List ProductEvent
  pub committed : ℕ

pub record Faults : Type 0 where
  pub insert_fails : ℕ → Bool
  pub commit_fails : ℕ → Bool

-- `writer.Insert`, or the message is skipped; false if the loop ends with its error
abbrev pub insert : Faults → ℕ → Result ProductEvent → Consumed → Bool × Consumed
insert faults offset (err _) s = (true, s)
insert faults offset (ok p) s =
    if faults.insert_fails offset then (false, s) else (true, record s { rows = s.rows ++ p ∷ [] })

-- `reader.CommitMessages`
abbrev pub commit : Faults → ℕ → Bool × Consumed → Bool × Consumed
commit faults offset (false, s) = (false, s)
commit faults offset (true, s) =
    if faults.commit_fails offset then (false, s) else (true, record s { committed = suc offset })

-- one round of the loop
unfoldable pub consume_message : Faults → ℕ → Message → Consumed → Bool × Consumed
consume_message faults offset message s =
    commit faults offset (insert faults offset (decode_event message) s)

-- the rounds from an offset on, until one fails or FetchMessage does, at the end of the messages
unfoldable pub consume_from : Faults → ℕ → List Message → Consumed → Consumed
consume_from faults offset [] s = s
consume_from faults offset (m ∷ ms) s =
    let (goes_on, s') = consume_message faults offset m s in
    let rest = consume_from faults (suc offset) ms s' in if goes_on then rest else s'

-- `consumeTopic`
unfoldable pub consume_topic : Faults → List Message → Consumed → Consumed
consume_topic faults topic s = consume_from faults s.committed (drop s.committed topic) s

-- the consumer is started again whenever it has ended
unfoldable pub consume_topic_again : List Faults → List Message → Consumed → Consumed
consume_topic_again [] topic s = s
consume_topic_again (f ∷ fs) topic s = consume_topic_again fs topic (consume_topic f topic s)
