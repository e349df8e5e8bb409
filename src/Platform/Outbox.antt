-- ===== src/Platform/Outbox.antt =====
-- internal/platform/outbox/outbox.go, `Enqueue`.
pub mod Enqueue
pub mod Publish
mod Tests
pub mod Delivery
pub mod Process
use spacetime_node.Prelude.{String, Bool, true, false, none, ◌||◌, ◌==◌, any}
use spacetime_node.Prelude.Table.{insert_row}
use spacetime_node.Platform.Env.{Env, insert_outbox}
use spacetime_node.Platform.Result.{
  Result, ok, unavailable, constraint, invalid_outbox_input, ◌>>◌, fail_if,
}
use spacetime_node.Platform.Event.{Message, malformed, event}
use spacetime_node.Platform.Database.{Db, OutboxRow}

pub record Event : Type 0 where
  pub id : String
  pub topic : String
  pub key : String
  pub payload : Message

-- `len(event.Payload) == 0 || !json.Valid(event.Payload)`
abbrev pub is_malformed : Message → Bool
is_malformed malformed = true
is_malformed (event _) = false

abbrev pub new_row : Env → Event → OutboxRow
new_row env e = record {
  event_id = e.id;
  topic = e.topic;
  event_key = e.key;
  payload = e.payload;
  occurred_at = env.now;
  published_at = none;
  publish_attempts = 0;
  last_error = none;
}

-- `Enqueue`: the row becomes part of the caller's transaction. The primary key is `event_id`.
unfoldable pub enqueue : Env → Event → Db → Result Db
enqueue env e db = do
  fail_if (e.id == "" || e.topic == "" || e.key == "" || is_malformed e.payload)
      invalid_outbox_input
  fail_if (env.fails insert_outbox) (unavailable insert_outbox)
  fail_if (any (λ row. row.event_id == e.id) db.outbox_events) constraint
  ok (record db { outbox_events = insert_row (new_row env e) db.outbox_events })
