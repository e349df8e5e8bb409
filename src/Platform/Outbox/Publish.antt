-- ===== src/Platform/Outbox/Publish.antt =====
-- internal/platform/outbox/outbox.go, `PublishPending` and the rounds of `RunPublisher`.
-- The Kafka log is outside the transaction: a rollback does not take a message back.
use spacetime_node.Prelude.{
  ℕ, ◌+◌, String, Bool, true, false, Option, none, some, List, [], ◌∷◌, ◌++◌, ◌&&◌, not,
  if◌then◌else◌, ◌==◌, ltb, take, select,
}
use spacetime_node.Prelude.Table.{update_where}
use spacetime_node.Prelude.Sort.{stable_sort}
use spacetime_node.Platform.Env.{
  Env, begin_tx, commit_tx, select_pending, write_message, mark_failed, mark_published,
}
use spacetime_node.Platform.Result.{Error, unavailable, invalid_outbox_input, publish_failed}
use spacetime_node.Platform.Database.{Db, OutboxRow}
use spacetime_node.Platform.Outbox.{Event}

-- The database, and what the Kafka topics hold, oldest first. An entry keeps the id of its event,
-- which the message carries inside its value.
pub record World : Type 0 where
  pub db : Db
  pub log : List Event

abbrev pub is_pending : OutboxRow → Bool
is_pending row = elim row.published_at [ none ↦ true | some _ ↦ false ]

abbrev pub event_of : OutboxRow → Event
event_of row = record {
  id = row.event_id;
  topic = row.topic;
  key = row.event_key;
  payload = row.payload;
}

abbrev pub has_event_id : String → OutboxRow → Bool
has_event_id id row = row.event_id == id

abbrev pub with_rows : (List OutboxRow → List OutboxRow) → World → World
with_rows f w = record w { db = record w.db { outbox_events = f w.db.outbox_events } }

abbrev pub send : OutboxRow → World → World
send row w = record w { log = w.log ++ event_of row ∷ [] }

abbrev pub publish_at : ℕ → OutboxRow → OutboxRow
publish_at now row = record row { published_at = some now; last_error = none }

abbrev pub note_failure : OutboxRow → OutboxRow
note_failure row = record row {
  publish_attempts = row.publish_attempts + 1;
  last_error = some publish_failed;
}

-- How the loop over the batch ends.
pub data Stop : Type 0 where
  finished : Stop
  write_failed statement_failed : Error → Stop

-- the loop over the batch
unfoldable pub publish_events : Env → List OutboxRow → ℕ → World → Stop × ℕ × World
publish_events env [] published w = (finished, published, w)
publish_events env (row ∷ rows) published w =
    let sent = send row w in
    let rest =
      publish_events env rows (published + 1)
        (with_rows (update_where (has_event_id row.event_id) (publish_at env.now)) sent) in
    if env.fails (write_message row.event_id)
    then (if env.fails (mark_failed row.event_id)
        then (statement_failed (unavailable (mark_failed row.event_id)), published, w)
        else (
          write_failed publish_failed,
          published,
          with_rows (update_where (has_event_id row.event_id) note_failure) w,
        ))
    else if env.fails (mark_published row.event_id)
    then (statement_failed (unavailable (mark_published row.event_id)), published, sent)
    else rest

-- the commit or the rollback after the loop; `old` is the database before it
unfoldable pub close_batch : Env → Db → Stop × ℕ × World → (ℕ × Option Error) × World
close_batch env old (finished, n, w) =
    if env.fails commit_tx
    then ((n, some (unavailable commit_tx)), record w { db = old })
    else ((n, none), w)
close_batch env old (write_failed e, n, w) =
    if env.fails commit_tx
    then ((n, some (unavailable commit_tx)), record w { db = old })
    else ((n, some e), w)
close_batch env old (statement_failed e, n, w) = ((n, some e), record w { db = old })

-- What other sessions do and how the server sorts: the rows that they have locked, and ORDER BY
-- occurred_at, event_id, whose second part depends on the collation.
pub record Session : Type 0 where
  pub locked : OutboxRow → Bool
  pub before : OutboxRow → OutboxRow → Bool

-- SELECT ... WHERE published_at IS NULL ORDER BY ... LIMIT $1 FOR UPDATE SKIP LOCKED
unfoldable pub pending_batch : Session → ℕ → Db → List OutboxRow
pending_batch session limit db = take limit (
    stable_sort session.before
      (select (λ row. is_pending row && not (session.locked row)) db.outbox_events))

-- `PublishPending`
unfoldable pub publish_pending : Env → Session → ℕ → World → (ℕ × Option Error) × World
publish_pending env session limit w =
    if ltb limit 1
    then ((0, some invalid_outbox_input), w)
    else if env.fails begin_tx
    then ((0, some (unavailable begin_tx)), w)
    else if env.fails select_pending
    then ((0, some (unavailable select_pending)), w)
    else close_batch env w.db (publish_events env (pending_batch session limit w.db) 0 w)

-- The rounds of `RunPublisher`, one for each tick; it logs a round's error and goes on.
pub record Tick : Type 0 where
  pub env : Env
  pub session : Session

unfoldable pub run_publisher : ℕ → List Tick → World → World
run_publisher limit [] w = w
run_publisher limit (t ∷ ts) w = run_publisher limit ts (publish_pending t.env t.session limit w).1
