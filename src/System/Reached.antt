-- ===== src/System/Reached.antt =====
-- What holds in every state that the services reach, and what the analytics consumer then stores.

use spacetime_node.Prelude.{
  ◌≡◌, String, List, [], ◌∷◌, map, select, ◌==◌, Among, All, All-select, arith,
}
use spacetime_node.Platform.Event.{Message}
use spacetime_node.Platform.Database.{Db}
use spacetime_node.Platform.Outbox.{Event}
use spacetime_node.Platform.Outbox.Publish.{World}
use spacetime_node.Analytics.{ProductEvent}
use spacetime_node.Analytics.Consume.{Consumed, Faults, consume_topic}
use spacetime_node.Analytics.Covered.{Answers, IsCovered, consume_topic-drains}
use spacetime_node.Analytics.Emitted.{IsAccepted}
use spacetime_node.System.{
  with_db, Step, entered, recommended, reacted, redeemed, checked, preferred, viewed, subscribed,
  unsubscribed, notified, published, Reach, here, after,
}
use spacetime_node.System.Healthy.{IsHealthy}
use spacetime_node.System.Redemptions.{create-IsHealthy, verify-IsHealthy}
use spacetime_node.System.Entries.{
  create_entry_event-IsHealthy, update_user_preferences-IsHealthy, get_user_profile-IsHealthy,
}
use spacetime_node.System.Feedbacks.{record_event-IsHealthy}
use spacetime_node.System.Recommendations.{recommend-IsHealthy}
use spacetime_node.System.Workers.{run_with_provider-IsHealthy}
use spacetime_node.System.Subscriptions.{register-IsHealthy, revoke-IsHealthy}
use spacetime_node.System.Published.{IsSound, publish_pending-IsSound}

stored-IsSound : (w : World) (db : Db) → IsHealthy db → IsSound w → IsSound (with_db w db)
stored-IsSound w db h s = record { healthy = h; logged = s.logged }

Step-IsSound : {w v : World} → Step w v → IsSound w → IsSound v
Step-IsSound (entered w env r req) s =
    stored-IsSound w _ (create_entry_event-IsHealthy env req w.db r s.healthy) s
Step-IsSound (recommended w service env req) s =
    stored-IsSound w _ (recommend-IsHealthy service env req w.db s.healthy) s
Step-IsSound (reacted w hash env r req) s =
    stored-IsSound w _ (record_event-IsHealthy hash env req w.db r s.healthy) s
Step-IsSound (redeemed w env req) s = stored-IsSound w _ (create-IsHealthy env req w.db s.healthy) s
Step-IsSound (checked w env req) s = stored-IsSound w _ (verify-IsHealthy env req w.db s.healthy) s
Step-IsSound (preferred w zones env req) s =
    stored-IsSound w _ (update_user_preferences-IsHealthy zones env req w.db s.healthy) s
Step-IsSound (viewed w env hash) s =
    stored-IsSound w _ (get_user_profile-IsHealthy env hash w.db s.healthy) s
Step-IsSound (subscribed w env q) s = stored-IsSound w _ (register-IsHealthy env q w.db s.healthy) s
Step-IsSound (unsubscribed w env hash id) s =
    stored-IsSound w _ (revoke-IsHealthy env hash id w.db s.healthy) s
Step-IsSound (notified w zones provider envs refuses topic committed) s =
    stored-IsSound w _
      (run_with_provider-IsHealthy zones provider envs refuses topic
        (record { db = w.db; committed = committed }) s.healthy)
      s
Step-IsSound (published w env session limit) s = publish_pending-IsSound env session limit w s

-- In every state that any sequence of calls of the services, runs of the notification worker and
-- batches of the publisher reaches, succeeding or failing, from one where this holds: every event
-- in the outbox and in Kafka is one that the analytics DecodeEvent accepts, under its id and with
-- its topic as its type, every redemption names its journey, and every learned weight is between -5
-- and 5. The random ids that name a journey or a trace are taken not to be empty.
pub Reach-IsSound : {w v : World} → Reach w v → IsSound w → IsSound v
Reach-IsSound (here w) s = s
Reach-IsSound (after r step) s = Step-IsSound step (Reach-IsSound r s)

-- the messages of a topic
abbrev pub on_topic : String → List Event → List Event
on_topic topic log = select (λ e. e.topic == topic) log

abbrev pub messages_of : List Event → List Message
messages_of log = map (λ e. e.payload) log

-- the row of an event is in the table, with its id and its type
abbrev pub IsStored : List ProductEvent → Event → Type 0
IsStored rows e = (p : ProductEvent) × Among p rows × (p.event_id ≡ e.id) × (p.event_type ≡ e.topic)

covered-IsStored :
    (rows : List ProductEvent) (log : List Event)
    → All IsAccepted log
    → All (IsCovered rows) (messages_of log)
    → All (IsStored rows) log
covered-IsStored rows [] a c = tt
covered-IsStored rows (e ∷ log) ((p, decoded, id, topic), a) (c, cs) =
    ((p, c p decoded, id, topic), covered-IsStored rows log a cs)

-- Whatever the services have done, from a state where what Kafka holds is acceptable: when the
-- analytics consumer has read a topic from its first message on and no insert or commit has failed,
-- every event that was published on the topic has a row with its id and its type.
pub reached-IsStored :
    (faults : Faults) (topic : String) {w v : World} (rows : List ProductEvent)
    → Answers faults
    → IsSound w
    → Reach w v
    → All
        (IsStored
          (consume_topic faults
            (messages_of (on_topic topic v.log))
            (record { rows = rows; committed = 0 })).rows)
        (on_topic topic v.log)
reached-IsStored faults topic {w} {v} rows a s r =
    let sent = on_topic topic v.log in
    let begin : Consumed = record { rows = rows; committed = 0 } in
    covered-IsStored (consume_topic faults (messages_of sent) begin).rows sent
      (All-select IsAccepted (λ e. e.topic == topic) v.log (Reach-IsSound r s).logged)
      (consume_topic-drains faults (messages_of sent) begin a (omega arith) tt)
